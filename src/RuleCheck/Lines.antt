-- ===== src/RuleCheck/Lines.antt =====
-- The last two lines of command rulecheck (coq/goextract/cmd/rulecheck/main.go), which `decided` holds,
-- compared with the machine in its file.
use normalization_confluence.Common.{
  ℕ, ◌≡◌, ◌<◌, ◌^◌, refl, sym, ◌∙◌, ap, Bool, true, false, Option, none, some, List, ◌∷◌, All,
  All-map, ◌↔◌, if◌then◌else◌, length,
}
use normalization_confluence.Common.Int.{ℤ, pos, ◌≤ℤ◌}
use normalization_confluence.Common.Run.{ok}
use normalization_confluence.Common.Text.{Bytes}
use normalization_confluence.Common.Disk.{Disk}
use normalization_confluence.Common.Result.{read, Ensures-read}
use normalization_confluence.Oracle.Rules.{Machine, State}
use normalization_confluence.Oracle.Rules.Box.Range.{InRange}
use normalization_confluence.Oracle.Rules.Step.{all_valid}
use normalization_confluence.Oracle.Rules.Build.{check_build}
use normalization_confluence.Oracle.Rules.Compact.FirstPass.{IsDomain-nonneg}
use normalization_confluence.RuleCheck.{load_machine, load_pairs, run, main}
use normalization_confluence.RuleCheck.Building.{Globals}
use normalization_confluence.RuleCheck.Exits.{
  Verdict, unbounded, sign_unsafe, no_wfc, not_convergent, verified, Outcome, decided, exit_code,
  outside_fragment,
}
use normalization_confluence.RuleCheck.Judge.{report, Says, verified_of, count_pairs}
use normalization_confluence.RuleCheck.Guarantee.{report-Says}
use normalization_confluence.RuleCheck.MachineFile.Accepts.{IsFragment}
use normalization_confluence.RuleCheck.Exit.{args_of, load_machine-IsFragment, main-check_build}
use normalization_confluence.RuleCheck.Verdicts.{
  Means, wfc-Means, no_wfc-Means, unbounded-Means, sign_unsafe-Means, compensation_free_iff,
}

-- With its files read, a run ends as the report, in the fragment.
run-report :
    (disk : Disk) (path : Bytes) (pairs_path : Option Bytes) (m : Machine) (g : Globals)
    (p : Option (List (ℤ × ℤ)))
    → load_machine disk path ≡ read (m, g)
    → load_pairs disk pairs_path (length m.evs) ≡ read p
    → run disk path pairs_path ≡ (if g.out_of_fragment then outside_fragment else report m p)
unfolding run
run-report disk path pairs_path m g p loaded declared = rw (loaded, declared) refl

main-run :
    (disk : Disk) (program path : Bytes) (pairs_path : Option Bytes)
    → main disk (program ∷ path ∷ args_of pairs_path) ≡ run disk path pairs_path
unfolding main
main-run disk program path none = refl
main-run disk program path (some q) = refl

inside_fragment :
    (out : Bool) (o : Outcome) {free : Bool} {v : Verdict}
    → (if out then outside_fragment else o) ≡ decided free v
    → o ≡ decided free v
inside_fragment true o e = absurd (cc)
inside_fragment false o e = e

counts :
    (nv ni ne : ℕ) (k : Option ℕ) (m : Machine) (p : Option (List (ℤ × ℤ)))
    → verified nv ni ne k ≡ verified_of m p
    → (nv ≡ length m.doms) × (ni ≡ length m.invs) × (ne ≡ length m.evs) × (k ≡ count_pairs p)
counts nv ni ne k m p e = (cc, cc, cc, cc)

Says-Means :
    (m : Machine) (p : Option (List (ℤ × ℤ))) (v : Verdict)
    → All (λ d. pos 0 ≤ℤ d) m.doms
    → ((nv ni ne : ℕ) (k : Option ℕ) → v ≡ verified nv ni ne k → check_build m p ≡ ok true)
    → Says m p v
    → Means m p v
Says-Means m p (verified nv ni ne k) sizes accepted (_, e) =
    let (vars, invs, evs, pairs) = counts nv ni ne k m p e in
    (accepted nv ni ne k refl, vars, invs, evs, pairs)
Says-Means m p not_convergent sizes accepted (_, e) = wfc-Means m p e
Says-Means m p no_wfc sizes accepted e = no_wfc-Means m p sizes e
Says-Means m p sign_unsafe sizes accepted (_, e) = sign_unsafe-Means m p e
Says-Means m p unbounded sizes accepted e = unbounded-Means m p e

-- If command rulecheck prints its last two lines on the machine `m` of a file, with fewer than 2 ^ 31
-- variables and events, and on the pairs `p`, then compensation_free=true is printed exactly if every
-- state in range is valid. OK means that F_checkBuild accepts, and its counts are those of the
-- variables, invariants, events and pairs. The FAIL lines mean, for `not_convergent`, that repair from
-- every state in range reaches a valid one; for `no_wfc`, that repair from some state in range ends in
-- an invalid one; for `sign_unsafe`, that some assignment to a variable with the values 0 and 1 has a
-- negative lower bound; for `unbounded`, that some expression has a bound above 2147483647.
pub main-Means :
    (disk : Disk) (program path : Bytes) (pairs_path : Option Bytes) (m : Machine) (g : Globals)
    (p : Option (List (ℤ × ℤ))) {free : Bool} {v : Verdict}
    → load_machine disk path ≡ read (m, g)
    → load_pairs disk pairs_path (length m.evs) ≡ read p
    → main disk (program ∷ path ∷ args_of pairs_path) ≡ decided free v
    → length m.doms < 2 ^ 31
    → length m.evs < 2 ^ 31
    → ((free ≡ true) ↔ ((w : State) → InRange m.doms w → all_valid m w ≡ ok true)) × Means m p v
unfolding exit_code
main-Means disk program path pairs_path m g p {free} {v} loaded declared e few_variables
      few_events =
    let fragment = Ensures-read (λ r. IsFragment r.0) (load_machine-IsFragment disk path) loaded in
    let sizes : All (λ d. pos 0 ≤ℤ d) m.doms = All-map m.doms IsDomain-nonneg fragment.domains in
    let says = report-Says m p (
      inside_fragment g.out_of_fragment (report m p) (
        sym (run-report disk path pairs_path m g p loaded declared)
        ∙ sym (main-run disk program path pairs_path)
        ∙ e)) in
    (
      compensation_free_iff m free sizes says.0,
      Says-Means m p v sizes
          (λ nv ni ne k same.
            main-check_build disk program path pairs_path m g p loaded declared
              (ap exit_code (e ∙ ap (decided free) same)) few_variables few_events)
          says.1,
    )
