-- ===== src/RuleCheck/Exit.antt =====
-- The exit code of command rulecheck (coq/goextract/cmd/rulecheck/main.go), compared with the machine
-- and the declared pairs in its files.
use mathlib.Core.Path.{subst}
use normalization_confluence.Common.{
  ℕ, ◌≡◌, ◌<◌, ◌^◌, ◌*◌, All-map, refl, sym, ◌∙◌, ap, Bool, true, false, Option, none, some, List,
  [], ◌∷◌, All, Reorders, if◌then◌else◌, length, arith,
}
use normalization_confluence.Common.Int.{ℤ, pos, pos_part}
use normalization_confluence.Common.Run.{ok}
use normalization_confluence.Common.Text.{Bytes}
use normalization_confluence.Common.Disk.{Disk}
use normalization_confluence.Common.Result.{
  Result, read, fail_input, Ensures, Ensures->>=, Ensures-any, Ensures-read, ◌>>=◌,
}
use normalization_confluence.Oracle.Rules.{Machine, State}
use normalization_confluence.Oracle.Rules.Build.{check_build}
use normalization_confluence.Oracle.Rules.Step.{fuel_of}
use normalization_confluence.Oracle.Rules.Compact.{check_build_c}
use normalization_confluence.Oracle.Rules.Compact.Visits.{count, fold_left-returned}
use normalization_confluence.Oracle.Rules.Compact.Tables.{IsSmallMachine}
use normalization_confluence.Oracle.Rules.Compact.Pairs.{AreNatural}
use normalization_confluence.Oracle.Rules.Compact.Sound.{check_build_c-check_build}
use normalization_confluence.RuleCheck.Pairs.Events.{NamesEvents, read_pairs-NamesEvents}
use normalization_confluence.Oracle.Rules.Build.Sound.{MayStart}
use normalization_confluence.Oracle.Rules.Build.Converges.{run_steps, MaySwap}
use normalization_confluence.Oracle.Rules.Build.Runs.{check_build-runs}
use normalization_confluence.RuleCheck.{
  or_else, read_all, load_machine, load_pairs, either, run, main,
}
use normalization_confluence.RuleCheck.Sexp.{tokenize, parse_all}
use normalization_confluence.RuleCheck.Building.{Globals}
use normalization_confluence.RuleCheck.MachineFile.{build_machine}
use normalization_confluence.RuleCheck.MachineFile.Accepts.{IsFragment}
use normalization_confluence.RuleCheck.MachineFile.Fragment.{build_machine-IsFragment}
use normalization_confluence.RuleCheck.MachineFile.Buildable.{IsFragment-IsBuildable}
use normalization_confluence.RuleCheck.Exits.{
  verified, Outcome, outside_fragment, decided, exit_code, parse_error, cannot_read_machine,
  cannot_read_pairs, pairs_error,
}
use normalization_confluence.RuleCheck.Pairs.{read_pairs}
use normalization_confluence.RuleCheck.Judge.{report}
use normalization_confluence.RuleCheck.Guarantee.{report-Says}

or_else-Ensures :
    {E F A : Type 0} (P : A → Type 0) (m : Result E A) (exit : E → F)
    → Ensures P m
    → Ensures P (or_else m exit)
or_else-Ensures P (read a) exit h = h
or_else-Ensures P (fail_input e) exit h = tt

-- The machine of a file is a machine of the model.
pub load_machine-IsFragment :
    (disk : Disk) (path : Bytes) → Ensures (λ r. IsFragment r.0) (load_machine disk path)
unfolding load_machine
load_machine-IsFragment disk path =
    Ensures->>= _ _ (or_else (read_all disk path) (λ _. cannot_read_machine)) _ (Ensures-any _)
      λ content _.
        Ensures->>= _ _ (or_else (parse_all (tokenize content)) parse_error) _ (Ensures-any _)
          λ forms _.
            or_else-Ensures _ (build_machine forms) parse_error (build_machine-IsFragment forms)

-- The arguments after the machine file.
abbrev pub args_of : Option Bytes → List Bytes
args_of none = []
args_of (some path) = path ∷ []

-- The errors of a step of `main` have the exit code 2.
abbrev Refuses : {A : Type 0} → Result Outcome A → Type 0
Refuses (read a) = Unit
Refuses (fail_input o) = exit_code o ≡ 2

Refuses->>= :
    {A B : Type 0} (m : Result Outcome A) (f : A → Result Outcome B)
    → Refuses m
    → ((a : A) → Refuses (f a))
    → Refuses (m >>= f)
Refuses->>= (read a) f h k = k a
Refuses->>= (fail_input o) f h k = h

or_else-Refuses :
    {E A : Type 0} (m : Result E A) (exit : E → Outcome)
    → ((e : E) → exit_code (exit e) ≡ 2)
    → Refuses (or_else m exit)
or_else-Refuses (read a) exit h = tt
or_else-Refuses (fail_input e) exit h = h e

load_machine-Refuses : (disk : Disk) (path : Bytes) → Refuses (load_machine disk path)
unfolding load_machine exit_code
load_machine-Refuses disk path =
    Refuses->>= (or_else (read_all disk path) (λ _. cannot_read_machine)) _
      (or_else-Refuses (read_all disk path) (λ _. cannot_read_machine) λ _. refl)
      λ content.
        Refuses->>= (or_else (parse_all (tokenize content)) parse_error) _
          (or_else-Refuses (parse_all (tokenize content)) parse_error λ _. refl)
          λ forms. or_else-Refuses (build_machine forms) parse_error λ _. refl

load_pairs-Refuses : (disk : Disk) (path : Option Bytes) (n : ℕ) → Refuses (load_pairs disk path n)
unfolding load_pairs exit_code
load_pairs-Refuses disk none n = tt
load_pairs-Refuses disk (some path) n =
    Refuses->>= (or_else (read_all disk path) cannot_read_pairs) _
      (or_else-Refuses (read_all disk path) cannot_read_pairs λ _. refl)
      λ content. or_else-Refuses (read_pairs content n) pairs_error λ _. refl

-- What a run found in its files, if it ends with the exit code 0.
pub record IsAccepted (disk : Disk) (path : Bytes) (pairs_path : Option Bytes) : Type 0 where
  pub machine : Machine
  pub globals : Globals
  pub pairs : Option (List (ℤ × ℤ))
  pub loaded : load_machine disk path ≡ read (machine, globals)
  pub declared : load_pairs disk pairs_path (length machine.evs) ≡ read pairs
  pub inside : globals.out_of_fragment ≡ false
  pub accepted : check_build_c machine pairs ≡ ok true

module _ (disk : Disk) where
  report-accepted :
      (m : Machine) (p : Option (List (ℤ × ℤ))) (o : Outcome)
      → report m p ≡ o
      → exit_code o ≡ 0
      → check_build_c m p ≡ ok true
  unfolding exit_code
  report-accepted m p (decided free (verified nv ni ne k)) e z = (report-Says m p e).1.0
  report-accepted m p _ e z = absurd (omega arith)

  judged-IsAccepted :
      (path : Bytes) (pairs_path : Option Bytes) (m : Machine) (nvars : ℤ) (out : Bool)
      (p : Option (List (ℤ × ℤ)))
      → load_machine disk path ≡ read (m, record { nvars = nvars; out_of_fragment = out })
      → load_pairs disk pairs_path (length m.evs) ≡ read p
      → exit_code (if out then outside_fragment else report m p) ≡ 0
      → IsAccepted disk path pairs_path
  unfolding exit_code
  judged-IsAccepted path pairs_path m nvars true p e e' z = absurd (omega arith)
  judged-IsAccepted path pairs_path m nvars false p e e' z = record {
    machine = m;
    globals = record { nvars = nvars; out_of_fragment = false };
    pairs = p;
    loaded = e;
    declared = e';
    inside = refl;
    accepted = report-accepted m p _ refl z;
  }

  run-IsAccepted :
      (path : Bytes) (pairs_path : Option Bytes)
      → exit_code (run disk path pairs_path) ≡ 0
      → IsAccepted disk path pairs_path
  unfolding run
  run-IsAccepted path pairs_path z =
      with_machine (load_machine disk path) refl (load_machine-Refuses disk path) z
    where
      sequel : Machine × Globals → Result Outcome Outcome
      sequel r = load_pairs disk pairs_path (length r.0.evs) >>= λ p.
          read (if r.1.out_of_fragment then outside_fragment else report r.0 p)

      with_pairs :
          (m : Machine) (g : Globals) (r : Result Outcome (Option (List (ℤ × ℤ))))
          → load_machine disk path ≡ read (m, g)
          → load_pairs disk pairs_path (length m.evs) ≡ r
          → Refuses r
          → exit_code (
              either (r >>= λ p. read (if g.out_of_fragment then outside_fragment else report m p)))
            ≡ 0
          → IsAccepted disk path pairs_path
      with_pairs m g (read p) e e' h z =
          judged-IsAccepted path pairs_path m g.nvars g.out_of_fragment p e e' z
      with_pairs m g (fail_input o) e e' h z = absurd (omega arith)

      with_machine :
          (r : Result Outcome (Machine × Globals))
          → load_machine disk path ≡ r
          → Refuses r
          → exit_code (either (r >>= sequel)) ≡ 0
          → IsAccepted disk path pairs_path
      with_machine (read (m, g)) e h z =
          with_pairs m g _ e refl (load_pairs-Refuses disk pairs_path (length m.evs)) z
      with_machine (fail_input o) e h z = absurd (omega arith)

-- If command rulecheck ends with the exit code 0, then its files hold a machine whose numbers stay in
-- the fragment and declared pairs that F_checkBuildC accepts.
pub main-IsAccepted :
    (disk : Disk) (program path : Bytes) (pairs_path : Option Bytes)
    → exit_code (main disk (program ∷ path ∷ args_of pairs_path)) ≡ 0
    → IsAccepted disk path pairs_path
unfolding main
main-IsAccepted disk program path none z = run-IsAccepted disk path none z
main-IsAccepted disk program path (some q) z = run-IsAccepted disk path (some q) z

abbrev is_read : {A : Type 0} → A → Result Outcome A
is_read a = read a

read_inj : {A : Type 0} {a b : A} → is_read a ≡ is_read b → a ≡ b
read_inj e = cc

-- The files hold no other machine and no other pairs.
IsAccepted-loaded :
    {disk : Disk} {path : Bytes} {pairs_path : Option Bytes} {m : Machine} {g : Globals}
    {p : Option (List (ℤ × ℤ))}
    → IsAccepted disk path pairs_path
    → load_machine disk path ≡ read (m, g)
    → load_pairs disk pairs_path (length m.evs) ≡ read p
    → check_build_c m p ≡ ok true
IsAccepted-loaded {disk} {path} {pairs_path} {m} {g} {p} a loaded declared =
    let e : a.machine ≡ m = ap (λ r. r.0) (read_inj (sym a.loaded ∙ loaded)) in
    let e' : load_pairs disk pairs_path (length m.evs) ≡ read a.pairs =
      subst (λ x. load_pairs disk pairs_path (length x.evs) ≡ read a.pairs) e a.declared in
    let q : a.pairs ≡ p = read_inj (sym e' ∙ declared) in
    subst (λ x. check_build_c x p ≡ ok true) e
      (subst (λ x. check_build_c a.machine x ≡ ok true) q a.accepted)

-- A machine of the fragment has few states.
IsFragment-IsSmallMachine :
    (m : Machine) → IsFragment m → length m.evs < 2 ^ 31 → length m.doms < 2 ^ 31 → IsSmallMachine m
unfolding fuel_of
IsFragment-IsSmallMachine m f few_events few_variables =
    let (k, fuel, le) = f.states in
    let one : 1 * count m.doms ≡ count m.doms = omega arith in
    let same : k ≡ 1 * count m.doms =
      ap pos_part (fold_left-returned m.doms 1 f.domains (omega arith) fuel) in
    record {
      domains = f.domains;
      few_states = omega arith;
      few_events = few_events;
      few_variables = few_variables;
    }

NamesEvents-AreNatural : (n : ℕ) (p : Option (List (ℤ × ℤ))) → NamesEvents n p → AreNatural p
NamesEvents-AreNatural n none h = tt
NamesEvents-AreNatural n (some l) h =
    All-map l (λ q ((a, e, _), (b, e', _)). (a, b, λ i. (e i, e' i))) h

load_pairs-NamesEvents :
    (disk : Disk) (path : Option Bytes) (n : ℕ) → Ensures (NamesEvents n) (load_pairs disk path n)
unfolding load_pairs
load_pairs-NamesEvents disk none n = tt
load_pairs-NamesEvents disk (some path) n =
    Ensures->>= _ _ (or_else (read_all disk path) cannot_read_pairs) _ (Ensures-any _) λ content _.
      or_else-Ensures _ (read_pairs content n) pairs_error (read_pairs-NamesEvents content n)

-- If command rulecheck ends with the exit code 0 on the machine `m` of a file, with fewer than 2 ^ 31
-- variables and events, and on the pairs `p`, then F_checkBuild accepts them.
pub main-check_build :
    (disk : Disk) (program path : Bytes) (pairs_path : Option Bytes) (m : Machine) (g : Globals)
    (p : Option (List (ℤ × ℤ)))
    → load_machine disk path ≡ read (m, g)
    → load_pairs disk pairs_path (length m.evs) ≡ read p
    → exit_code (main disk (program ∷ path ∷ args_of pairs_path)) ≡ 0
    → length m.doms < 2 ^ 31
    → length m.evs < 2 ^ 31
    → check_build m p ≡ ok true
main-check_build disk program path pairs_path m g p loaded declared z few_variables few_events =
    let a = main-IsAccepted disk program path pairs_path z in
    let fragment = Ensures-read (λ r. IsFragment r.0) (load_machine-IsFragment disk path) loaded in
    let names =
      Ensures-read (NamesEvents (length m.evs))
        (load_pairs-NamesEvents disk pairs_path (length m.evs)) declared in
    check_build_c-check_build m p (IsFragment-IsSmallMachine m fragment few_events few_variables)
      (NamesEvents-AreNatural (length m.evs) p names) (IsAccepted-loaded a loaded declared)

-- If command rulecheck ends with the exit code 0 on the machine `m` of a file, with fewer than 2 ^ 31
-- variables and events, and on the pairs `p`, then sequences of event numbers that differ by swaps of
-- neighbouring declared pairs run without a panic from every state that events may start from, and
-- both lead to the same such state.
pub main-converges :
    (disk : Disk) (program path : Bytes) (pairs_path : Option Bytes) (m : Machine) (g : Globals)
    (p : Option (List (ℤ × ℤ))) {xs ys : List ℤ}
    → load_machine disk path ≡ read (m, g)
    → load_pairs disk pairs_path (length m.evs) ≡ read p
    → exit_code (main disk (program ∷ path ∷ args_of pairs_path)) ≡ 0
    → length m.doms < 2 ^ 31
    → length m.evs < 2 ^ 31
    → Reorders (MaySwap m p) xs ys
    → All (λ x. (n : ℕ) × (x ≡ pos n)) xs
    → (v : State) → MayStart m v
    → (t : State) × (run_steps m xs v ≡ ok t) × (run_steps m ys v ≡ ok t) × MayStart m t
main-converges disk program path pairs_path m g p loaded declared z few_variables few_events =
    let fragment = Ensures-read (λ r. IsFragment r.0) (load_machine-IsFragment disk path) loaded in
    check_build-runs m (IsFragment-IsBuildable m fragment) p (
      main-check_build disk program path pairs_path m g p loaded declared z few_variables
        few_events)
