-- ===== src/Oracle/Rules/Build/Runs.antt =====
-- Runs of events (F_stepI) of a machine that passes F_checkBuild, whatever pairs are declared.
use mathlib.Core.Path.{subst}
use normalization_confluence.Common.{
  ℕ, ◌≡◌, refl, sym, ap, Bool, true, false, Option, List, [], ◌∷◌, arith, ◌⊎◌, inl, inr, All, In,
  All-map, Reorders, if◌then◌else◌,
}
use normalization_confluence.Common.Int.{ℤ, pos}
use normalization_confluence.Common.Run.{ok, returned, ◌>>=◌}
use normalization_confluence.Oracle.Lists.{nth}
use normalization_confluence.Oracle.Lists.Members.{In-append, nth-index, nth-total}
use normalization_confluence.Oracle.Loops.Total.{forallb-true}
use normalization_confluence.Oracle.Rules.{
  Expr, Assign, Transform, Guarded, Machine, State, eval_p, eval_all,
}
use normalization_confluence.Oracle.Rules.Box.Range.{InRange}
use normalization_confluence.Oracle.Rules.Step.{apply_t, gapp, no_event, ev_at, step_g, step_i}
use normalization_confluence.Oracle.Rules.Step.Keeps.{gapp-InRange}
use normalization_confluence.Oracle.Rules.Build.{
  bounded, sign_safe, sign_safe_t, write_safe, binary_var, seconds, transforms_m, exprs_p, exprs_t,
  exprs_g, exprs_m, check_build,
}
use normalization_confluence.Oracle.Rules.Build.Bounds.{bounded-IsWithin}
use normalization_confluence.Oracle.Rules.Build.Total.{
  Evaluates, IsBuildable, eval_p-total, apply_t-total, small-I64,
}
use normalization_confluence.Oracle.Rules.Build.Sound.{
  IsSettled, MayStart, check_build-parts, check_build-settles,
}
use normalization_confluence.Oracle.Rules.Build.Converges.{
  run_steps, MaySwap, step_i-IsSettled, IsSettled-MayStart, Reorders-run_steps,
}

exprs_t-In : (t : Transform) (a : Assign) → In a t → In a.1 (exprs_t t)
unfolding exprs_t
exprs_t-In [] a m = elim m [ ]
exprs_t-In (b ∷ t) a (inl e) = inl (ap (λ x. x.1) e)
exprs_t-In (b ∷ t) a (inr m) = inr (exprs_t-In t a m)

-- The expressions of a guard and of its transform are among those of the list.
exprs_g-In :
    (gs : List Guarded) (g : Guarded) (x : Expr)
    → In g gs
    → In x (exprs_p g.0) ⊎ In x (exprs_t g.1)
    → In x (exprs_g gs)
unfolding exprs_g
exprs_g-In [] g x m i = elim m [ ]
exprs_g-In (h ∷ gs) g x (inl e) i = (In-append x _ (exprs_g gs)).1 (
    inl (
      (In-append x (exprs_p h.0) (exprs_t h.1)).1
        (subst (λ y. In x (exprs_p y.0) ⊎ In x (exprs_t y.1)) e i)))
exprs_g-In (h ∷ gs) g x (inr m) i = (In-append x _ (exprs_g gs)).1 (inr (exprs_g-In gs g x m i))

seconds-In : (gs : List Guarded) (g : Guarded) → In g gs → In g.1 (seconds gs)
unfolding seconds
seconds-In [] g m = elim m [ ]
seconds-In (h ∷ gs) g (inl e) = inl (ap (λ x. x.1) e)
seconds-In (h ∷ gs) g (inr m) = inr (seconds-In gs g m)

module _ (m : Machine) (g : IsBuildable m) where
  -- Every assignment of an event writes a variable that is named by a nat.
  write-index :
      (ev : Guarded) (a : Assign)
      → sign_safe m ≡ ok true
      → In ev m.evs
      → In a ev.1
      → (n : ℕ) × (a.0 ≡ pos n)
  unfolding sign_safe sign_safe_t write_safe binary_var transforms_m
  write-index ev a h i j =
      let t =
        forallb-true (λ t. sign_safe_t m t) (transforms_m m) h
          ((In-append ev.1 (seconds m.invs) (seconds m.evs)).1 (inr (seconds-In m.evs ev i))) in
      let w = forallb-true (λ a. write_safe m a) ev.1 t j in
      let (b, e, _) = returned (binary_var m a.0) w in
      let (size, e', _) = returned (nth a.0 m.doms (pos 0)) e in nth-index a.0 m.doms (pos 0) e'

  event-Evaluates :
      (ev : Guarded) (x : Expr) (s : State)
      → bounded m ≡ ok true
      → In ev m.evs
      → In x (exprs_p ev.0) ⊎ In x (exprs_t ev.1)
      → InRange m.doms s
      → Evaluates m.mins s x
  unfolding exprs_m
  event-Evaluates ev x s h i j r =
      let k = (In-append x (exprs_g m.invs) (exprs_g m.evs)).1 (inr (exprs_g-In m.evs ev x i j)) in
      bounded-IsWithin m g.sizes (All-map m.mins (λ v le. small-I64 v (omega arith)) g.small_mins) x
        s (g.literals x k) r h k

  gapp-total :
      (ev : Guarded) (s : State)
      → bounded m ≡ ok true
      → sign_safe m ≡ ok true
      → In ev m.evs
      → InRange m.doms s
      → (s' : State) × (gapp m ev s ≡ ok s')
  unfolding gapp
  gapp-total ev s hb hs i r =
      let (t, e) = eval_p-total m.mins s ev.0 (λ x j. event-Evaluates ev x s hb i (inl j) r) in
      let (s', e') =
        apply_t-total m g ev.1 s
          (λ a j. (
            write-index ev a hs i j,
            λ u r'. event-Evaluates ev a.1 u hb i (inr (exprs_t-In ev.1 a j)) r',
          ))
          r in
      taken t s' e e'
    where
      taken :
          (t : Bool) (s' : State)
          → eval_p m.mins s ev.0 ≡ ok t
          → apply_t m ev.1 s ≡ ok s'
          → (s' : State) × ((eval_p m.mins s ev.0 >>= λ t. if t then apply_t m ev.1 s else ok s)
              ≡ ok s')
      taken true s' e e' = (s', rw e e')
      taken false s' e e' = (s, rw e refl)

  no_event-total : (s : State) (ev : Guarded) → ev ≡ no_event → (s' : State) × (gapp m ev s ≡ ok s')
  unfolding gapp eval_p eval_all apply_t
  no_event-total s ev e = (s, rw e refl)

  -- If `F_checkBuild` returns `true` for a machine that `IsBuildable`, then every event number, also
  -- one past the last event, runs without a panic from every state in range, and leads to a valid
  -- state.
  pub step_i-total :
      (p : Option (List (ℤ × ℤ))) (n : ℕ) (s : State)
      → check_build m p ≡ ok true
      → InRange m.doms s
      → (s' : State) × (step_i m (pos n) s ≡ ok s') × IsSettled m s'
  unfolding step_i step_g ev_at
  step_i-total p n s h r =
      let ((hb, hs), _) = check_build-parts m p h in
      let (ev, e, place) = nth-total n m.evs no_event in
      let applied : (u : State) × (gapp m ev s ≡ ok u) = elim place [
        | inl i ↦ gapp-total ev s hb hs i r
        | inr none ↦ no_event-total s ev none
      ] in
      let (u, e') = applied in
      let (f, s', e₁, e₂, valid) = check_build-settles m p h u (gapp-InRange m g.sizes ev s r e') in
      let q : step_i m (pos n) s ≡ ok s' = rw e (rw e₁ (rw e' e₂)) in
      (s', q, step_i-IsSettled m p g.sizes h (pos n) s r q)

  number-step :
      (p : Option (List (ℤ × ℤ)))
      → check_build m p ≡ ok true
      → (x : ℤ) (v : State) → ((n : ℕ) × (x ≡ pos n))
      → MayStart m v
      → (s : State) × (step_i m x v ≡ ok s) × MayStart m s
  number-step p h x v (n, q) may =
      let (s, e, settled) = step_i-total p n v h may.0 in
      (s, subst (λ y. step_i m y v ≡ ok s) (sym q) e, IsSettled-MayStart m s settled)

  -- If `F_checkBuild` returns `true` for a machine that `IsBuildable`, then
  -- sequences of event numbers that differ by swaps of neighbouring declared pairs run without a
  -- panic from every state that events may start from, and both lead to the same such state.
  pub check_build-runs :
      (p : Option (List (ℤ × ℤ))) {xs ys : List ℤ}
      → check_build m p ≡ ok true
      → Reorders (MaySwap m p) xs ys
      → All (λ x. (n : ℕ) × (x ≡ pos n)) xs
      → (v : State) → MayStart m v
      → (t : State) × (run_steps m xs v ≡ ok t) × (run_steps m ys v ≡ ok t) × MayStart m t
  check_build-runs p h r a v may = Reorders-run_steps m p g.sizes h _ (number-step p h) r a v may
