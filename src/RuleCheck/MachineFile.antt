-- ===== src/RuleCheck/MachineFile.antt =====
-- `buildMachine` of coq/goextract/cmd/rulecheck/main.go, from the forms of a machine file to the
-- machine, its sizes and whether a number left the range of the model.
pub mod Domains
pub mod Accepts
pub mod Loop
pub mod Fragment
pub mod Buildable
use normalization_confluence.Common.{
  ℕ, Bool, true, false, ◌||◌, not, List, [], ◌∷◌, ◌++◌, if◌then◌else◌, length, ◌==◌,
}
use normalization_confluence.Common.Int.{ℤ, pos, negsuc, ltb_ℤ, ◌+ℤ◌, ◌-ℤ◌, ◌*ℤ◌, wrap64}
use normalization_confluence.Common.Text.{Bytes, codes, eq_bytes}
use normalization_confluence.Common.Result.{read, fail_input, fail_if}
use normalization_confluence.Oracle.Rules.{Guarded, Machine}
use normalization_confluence.Oracle.Rules.Step.{no_event}
use normalization_confluence.RuleCheck.Failures.{
  Parsed, empty_domain, too_many_states, doms_twice, mins_twice, unknown_form, missing_doms,
  wrong_mins,
}
use normalization_confluence.RuleCheck.Sexp.{Sexp, Forms, atom, list, nil, cons}
use normalization_confluence.RuleCheck.Numbers.{exceeds, nat_of}
use normalization_confluence.RuleCheck.Building.{
  Globals, Building, ◌>>=◌, ◌>>◌, after, done, stop, lift, leave_fragment, set_nvars, value_of,
}
use normalization_confluence.RuleCheck.Build.{build_pred, build_transform, ints}

-- The local variables of `buildMachine`.
pub record Draft : Type 0 where
  pub doms : List ℤ
  pub mins : List ℤ
  pub have_doms : Bool
  pub have_mins : Bool
  pub invs : List Guarded
  pub evs : List Guarded

-- The loop that refuses an empty domain.
unfoldable pub each_domain : List ℤ → Parsed (Unit {0})
each_domain [] = read tt
each_domain (d ∷ ds) = if ltb_ℤ d (pos 1) then fail_input empty_domain else each_domain ds

-- The loop that multiplies the domains, from the product `states`.
unfoldable pub count_states : ℤ → List ℤ → Parsed (Unit {0})
count_states states [] = read tt
count_states states (d ∷ ds) =
    let next = wrap64 (states *ℤ d) in
    if ltb_ℤ (pos 16777216) next then fail_input too_many_states else count_states next ds

unfoldable pub read_doms : Draft → Forms → Building Draft
read_doms dr args = do
  ds ← ints (λ s. lift (nat_of s)) args
  lift (each_domain ds)
  lift (count_states (pos 1) ds)
  lift (fail_if dr.have_doms doms_twice)
  set_nvars (pos (length ds))
  done (record dr { doms = ds; have_doms = true })

unfoldable pub read_mins : Draft → Forms → Building Draft
read_mins dr args = do
  ms ← ints value_of args
  lift (fail_if dr.have_mins mins_twice)
  done (record dr { mins = ms; have_mins = true })

-- A rule: a condition with a transform.
unfoldable pub build_guarded : Sexp → Sexp → Building Guarded
build_guarded p t = do c ← build_pred p; as' ← build_transform t; done (c, as')

-- The forms with rules: `ev` has no condition, `inv` and `evwhen` have one.
unfoldable pub build_rule : Draft → Bytes → Forms → Building Draft
unfolding eq_bytes build_guarded
build_rule dr h (cons t nil) =
    if eq_bytes h (codes "ev")
    then (do c ← build_transform t; done (record dr { evs = dr.evs ++ (no_event.0, c) ∷ [] }))
    else stop unknown_form
build_rule dr h (cons p (cons t nil)) =
    if eq_bytes h (codes "inv")
    then (do g ← build_guarded p t; done (record dr { invs = dr.invs ++ g ∷ [] }))
    else if eq_bytes h (codes "evwhen")
    then (do g ← build_guarded p t; done (record dr { evs = dr.evs ++ g ∷ [] }))
    else stop unknown_form
build_rule dr h _ = stop unknown_form

-- One top-level form.
unfoldable pub build_form : Draft → Sexp → Building Draft
unfolding eq_bytes read_doms read_mins build_rule
build_form dr (list (cons (atom h) args)) =
    if eq_bytes h (codes "doms")
    then read_doms dr args
    else if eq_bytes h (codes "mins")
    then read_mins dr args
    else build_rule dr h args
build_form dr _ = stop unknown_form

unfoldable pub build_forms : Draft → Forms → Building Draft
unfolding build_form
build_forms dr nil = done dr
build_forms dr (cons x xs) = do dr' ← build_form dr x; build_forms dr' xs

-- `make([]int64, len(doms))`
abbrev pub zeros : List ℤ → List ℤ
zeros [] = []
zeros (_ ∷ ds) = pos 0 ∷ zeros ds

-- Some variable has a maximum out of range; the lists have one length where this runs.
unfoldable pub some_exceeds : List ℤ → List ℤ → Bool
some_exceeds (d ∷ ds) (low ∷ ms) =
    exceeds (wrap64 (wrap64 (low +ℤ d) -ℤ pos 1)) || some_exceeds ds ms
some_exceeds _ _ = false

-- What `buildMachine` does after its loop, with the machine that it returns.
unfoldable pub finish : Draft → Building Machine
unfolding some_exceeds
finish dr = do
  lift (fail_if (not dr.have_doms) missing_doms)
  mins ← done (if dr.have_mins then dr.mins else zeros dr.doms)
  lift (fail_if (not (length mins == length dr.doms)) wrong_mins)
  if some_exceeds dr.doms mins then leave_fragment else done tt
  done (record { doms = dr.doms; mins = mins; invs = dr.invs; evs = dr.evs })

abbrev pub empty_draft : Draft
empty_draft = record {
  doms = [];
  mins = [];
  have_doms = false;
  have_mins = false;
  invs = [];
  evs = [];
}

abbrev pub no_globals : Globals
no_globals = record { nvars = negsuc 0; out_of_fragment = false }

-- The machine, and the globals that its readers leave. The sizes that `buildMachine` also returns
-- are the lengths of the machine's lists.
unfoldable pub build_machine : Forms → Parsed (Machine × Globals)
unfolding build_forms finish
build_machine forms = (do dr ← build_forms empty_draft forms; finish dr) no_globals
