-- ===== src/Oracle/Rules/Build/Converges.antt =====
-- What a `true` of F_checkBuild is worth for sequences of events (F_stepI) that differ by reordering
-- declared pairs.
use mathlib.Core.Path.{subst}
use normalization_confluence.Common.{
  ◌≡◌, refl, sym, ap, ◌∙◌, true, Option, List, [], ◌∷◌, ◌⊎◌, inl, inr, All, Reorders, same, swap,
  skip, chain, length, Reorders-All,
}
use normalization_confluence.Common.Int.{ℤ, IsI64}
use normalization_confluence.Common.Run.{Run, ok, returned, ok_inj, ◌>>=◌, >>=_assoc}
use normalization_confluence.Oracle.TableFn.Spec.{IsDeclared}
use normalization_confluence.Oracle.Rules.{Machine, State}
use normalization_confluence.Oracle.Rules.Box.Range.{InRange}
use normalization_confluence.Oracle.Rules.Step.{
  all_valid, normalize, fuel_of, gapp, ev_at, step_g, step_i,
}
use normalization_confluence.Oracle.Rules.Step.Keeps.{normalize-InRange, gapp-InRange}
use normalization_confluence.Oracle.Rules.Build.{check_build}
use normalization_confluence.Oracle.Rules.Build.Sound.{
  IsSettled, MayStart, check_build-settles, check_build-commute,
}

-- The state after the events, in order, from `s`; a panic of one event stops the run.
abbrev pub run_steps : Machine → List ℤ → State → Run State
run_steps m [] s = ok s
run_steps m (e ∷ es) s = step_i m e s >>= run_steps m es

-- Events whose order does not matter: equal ones, and declared pairs either way round.
abbrev pub MaySwap : Machine → Option (List (ℤ × ℤ)) → ℤ → ℤ → Type 0
MaySwap m p a b =
    (a ≡ b) ⊎ (IsDeclared (length m.evs) p (a, b) ⊎ IsDeclared (length m.evs) p (b, a))

-- The event occurs in a declared pair.
abbrev pub IsPaired : Machine → Option (List (ℤ × ℤ)) → ℤ → Type 0
IsPaired m p a = (b : ℤ) × (IsDeclared (length m.evs) p (a, b) ⊎ IsDeclared (length m.evs) p (b, a))

pub IsSettled-MayStart : (m : Machine) (s : State) → IsSettled m s → MayStart m s
IsSettled-MayStart m s (r, valid) = (r, inl valid)

module _ (m : Machine) (p : Option (List (ℤ × ℤ))) (bounds : All IsI64 m.doms)
    (h : check_build m p ≡ ok true) where
  -- If `F_checkBuild` returns `true` and an event returns on a state in range, then it returns a
  -- valid state.
  pub step_i-IsSettled :
      (e : ℤ) (v : State) {s : State} → InRange m.doms v → step_i m e v ≡ ok s → IsSettled m s
  unfolding step_i step_g
  step_i-IsSettled e v {s} r q =
      let (g, e₁, f₁) = returned (ev_at m e) q in
      let (f, e₂, f₂) = returned (fuel_of m) f₁ in
      let (u, e₃, f₃) = returned (gapp m g v) f₂ in
      let inside = gapp-InRange m bounds g v r e₃ in
      let (f', s', e₄, e₅, valid) = check_build-settles m p h u inside in
      let e₆ = subst (λ x. normalize m x u ≡ ok s') (ok_inj (sym e₄ ∙ e₂)) e₅ in
      (
        normalize-InRange m bounds f u inside f₃,
        subst (λ x. all_valid m x ≡ ok true) (ok_inj (sym e₆ ∙ f₃)) valid,
      )

  -- An event of a declared pair returns on every state that events may start from.
  paired-returns :
      (e : ℤ) (v : State) → IsPaired m p e → MayStart m v → (s : State) × (step_i m e v ≡ ok s)
  paired-returns e v (b, inl d) may =
      let (s, t, u, e₁, e₂, e₃, e₄) = check_build-commute m p h v (e, b) may d in (t, e₃)
  paired-returns e v (b, inr d) may =
      let (s, t, u, e₁, e₂, e₃, e₄) = check_build-commute m p h v (b, e) may d in (s, e₁)

  paired-step :
      (e : ℤ) (v : State)
      → IsPaired m p e
      → MayStart m v
      → (s : State) × (step_i m e v ≡ ok s) × MayStart m s
  paired-step e v paired may =
      let (s, q) = paired-returns e v paired may in
      (s, q, IsSettled-MayStart m s (step_i-IsSettled e v may.0 q))

  swap-same :
      (a b : ℤ) (v : State)
      → MaySwap m p a b
      → MayStart m v
      → (step_i m a v >>= step_i m b) ≡ (step_i m b v >>= step_i m a)
  swap-same a b v (inl e) may = rw e refl
  swap-same a b v (inr (inl d)) may =
      let (s, t, u, e₁, e₂, e₃, e₄) = check_build-commute m p h v (a, b) may d in
      rw e₁ (rw e₃ (rw e₂ (rw e₄ refl)))
  swap-same a b v (inr (inr d)) may =
      let (s, t, u, e₁, e₂, e₃, e₄) = check_build-commute m p h v (b, a) may d in
      rw e₁ (rw e₃ (rw e₂ (rw e₄ refl)))

  module _ (P : ℤ → Type 0)
      (steps : (e : ℤ) (v : State)
        → P e
        → MayStart m v
        → (s : State) × (step_i m e v ≡ ok s) × MayStart m s) where
    -- Where the events run, the order of independent ones does not matter.
    same_run :
        {xs ys : List ℤ}
        → Reorders (MaySwap m p) xs ys
        → All P xs
        → (v : State) → MayStart m v
        → run_steps m xs v ≡ run_steps m ys v
    same_run same a v may = refl
    same_run (swap {a} {b} {xs} i) all v may =
        sym (>>=_assoc (step_i m a v) (step_i m b) (run_steps m xs))
        ∙ ap (λ r. r >>= run_steps m xs) (swap-same a b v i may)
        ∙ >>=_assoc (step_i m b v) (step_i m a) (run_steps m xs)
    same_run (skip {x} {xs} {ys} r) a v may =
        let (s, q, may') = steps x v a.0 may in rw q (same_run r a.1 s may')
    same_run (chain r r') a v may = same_run r a v may ∙ same_run r' (Reorders-All _ r a) v may

    run_steps-returns :
        (xs : List ℤ)
        → All P xs
        → (v : State) → MayStart m v
        → (t : State) × (run_steps m xs v ≡ ok t) × MayStart m t
    run_steps-returns [] a v may = (v, refl, may)
    run_steps-returns (x ∷ xs) a v may =
        let (s, q, may') = steps x v a.0 may in rw q (run_steps-returns xs a.1 s may')

    pub Reorders-run_steps :
        {xs ys : List ℤ}
        → Reorders (MaySwap m p) xs ys
        → All P xs
        → (v : State) → MayStart m v
        → (t : State) × (run_steps m xs v ≡ ok t) × (run_steps m ys v ≡ ok t) × MayStart m t
    Reorders-run_steps {xs} r a v may =
        let (t, e, may') = run_steps-returns xs a v may in
        (t, e, sym (same_run r a v may) ∙ e, may')

  -- If `F_checkBuild` returns `true`, then event sequences that differ by swaps of neighbouring
  -- declared pairs, over events that occur in declared pairs, run without a panic from every state
  -- that events may start from, and both lead to the same such state. The sizes of the domains are
  -- int64.
  pub check_build_converges :
      {xs ys : List ℤ}
      → Reorders (MaySwap m p) xs ys
      → All (IsPaired m p) xs
      → (v : State) → MayStart m v
      → (t : State) × (run_steps m xs v ≡ ok t) × (run_steps m ys v ≡ ok t) × MayStart m t
  check_build_converges = Reorders-run_steps (IsPaired m p) paired-step
