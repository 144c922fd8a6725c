-- ===== src/Oracle/Rules/Build/Sound.antt =====
-- What a `true` of F_checkBuild says of the machine, state by state.
use mathlib.Core.Path.{subst}
use normalization_confluence.Common.{
  ℕ, zero, suc, ◌≡◌, refl, sym, ◌∙◌, Bool, true, false, Option, none, some, List, [], ◌∷◌, ◌⊎◌, inl,
  inr, ◌↔◌, All, In, length, if◌then◌else◌, &&_iff,
}
use normalization_confluence.Common.Int.{ℤ, pos, eqb_ℤ, eqb_ℤ_iff}
use normalization_confluence.Common.Run.{Run, ok, returned, ok_inj, and_run-true, ◌>>=◌}
use normalization_confluence.Oracle.Lists.{length_run, repeat, all_pairs}
use normalization_confluence.Oracle.Lists.Members.{length_run_lem, all_pairs_lem}
use normalization_confluence.Oracle.Loops.{forallb}
use normalization_confluence.Oracle.Loops.Total.{forallb-true}
use normalization_confluence.Oracle.TableFn.Spec.{IsDeclared}
use normalization_confluence.Oracle.Rules.{Machine, State}
use normalization_confluence.Oracle.Rules.Box.{box, valeqb}
use normalization_confluence.Oracle.Rules.Box.Range.{InRange, box-InRange, box_nonneg}
use normalization_confluence.Oracle.Rules.Step.{all_valid, normalize, fuel_of, step_i, zero_v}
use normalization_confluence.Oracle.Rules.Build.{
  compensation_free, bounded, sign_safe, pairs_ok_a, pairs_a, settles, wfc, in_da, pair_ok_a,
  commutes_at, cc_a, check_build,
}

-- A valid state: in range, and every invariant holds.
abbrev pub IsSettled : Machine → State → Type 0
IsSettled m v = InRange m.doms v × (all_valid m v ≡ ok true)

-- A state that events may start from: in range, and valid or all zero.
abbrev pub MayStart : Machine → State → Type 0
MayStart m v = InRange m.doms v × ((all_valid m v ≡ ok true) ⊎ All (λ x. x ≡ pos 0) v)

pub valeqb_iff : (v w : State) → (valeqb v w ≡ true) ↔ (v ≡ w)
unfolding valeqb
valeqb_iff [] [] = ((λ _. refl), λ _. refl)
valeqb_iff [] (y ∷ w) = ((λ e. cc), λ e. cc)
valeqb_iff (x ∷ v) [] = ((λ e. cc), λ e. cc)
valeqb_iff (x ∷ v) (y ∷ w) =
    let (f, g) = valeqb_iff v w in
    let (f', g') = eqb_ℤ_iff x y in
    let (a, b) = &&_iff (eqb_ℤ x y) (valeqb v w) in
    ((λ e. let q = f' (a e).0 in let q' = f (a e).1 in cc), λ e. b (g' (cc), g (cc)))

-- Members of a box whose list has been made are tested.
pub box_tested :
    (ds : List ℤ) (f : State → Run Bool)
    → (box ds >>= λ vs. forallb f vs) ≡ ok true
    → (v : State) → InRange ds v
    → f v ≡ ok true
box_tested ds f h v r =
    let (vs, e, t) = returned (box ds) h in
    let (vs', e', iff) = box-InRange ds (box_nonneg ds e) in
    forallb-true f vs t (subst (In v) (ok_inj (sym e' ∙ e)) ((iff v).1 r))

-- The list that `F_pairsA` returns holds every declared pair.
declared_listed :
    (m : Machine) (p : Option (List (ℤ × ℤ))) {l : List (ℤ × ℤ)} (q : ℤ × ℤ)
    → pairs_a m p ≡ ok l
    → IsDeclared (length m.evs) p q
    → In q l
unfolding pairs_a
declared_listed m (some l') q e d = subst (In q) (ok_inj e) d
declared_listed m none {l} q e d =
    let (k, e₁, f₁) = returned (length_run m.evs) e in
    let (k_eq, lt) = length_run_lem m.evs e₁ in
    let (l', e₂, iff) = all_pairs_lem (length m.evs) lt in
    let same = sym e₂ ∙ subst (λ x. all_pairs x ≡ ok l) k_eq f₁ in
    subst (In q) (ok_inj same) ((iff q).1 d)

repeat_zero :
    (ds : List ℤ) (v : State) {z : State}
    → InRange ds v
    → All (λ x. x ≡ pos 0) v
    → repeat (pos 0) (pos (length ds)) ≡ ok z
    → v ≡ z
unfolding repeat
repeat_zero [] [] r a e = ok_inj e
repeat_zero [] (x ∷ v) r a e = elim r [ ]
repeat_zero (d ∷ ds) [] r a e = elim r [ ]
repeat_zero (d ∷ ds) (x ∷ v) r a e =
    let (w, e₁, f₁) = returned (repeat (pos 0) (pos (length ds))) e in
    let q = repeat_zero ds v r.1 a.1 e₁ in let q_head = a.0 in rw q_head (rw q (ok_inj f₁))

-- `F_inDA` says `true` on every state that events may start from.
MayStart-in_da : (m : Machine) (v : State) {b : Bool} → MayStart m v → in_da m v ≡ ok b → b ≡ true
unfolding in_da zero_v
MayStart-in_da m v {b} (r, start) e =
    let (t, e₁, f₁) = returned (all_valid m v) e in after_test start t e₁ f₁
  where
    after_test :
        (all_valid m v ≡ ok true) ⊎ All (λ x. x ≡ pos 0) v
        → (t : Bool) → all_valid m v ≡ ok t
        → (if t then ok true else (zero_v m >>= λ z. ok (valeqb v z))) ≡ ok b
        → b ≡ true
    after_test start true e q = sym (ok_inj q)
    after_test (inl valid) false e q = absurd (cc)
    after_test (inr zeros) false e q =
        let (z, e₁, f₁) = returned (zero_v m) q in
        let (k, e₂, f₂) = returned (length_run m.doms) e₁ in
        let g = subst (λ x. repeat (pos 0) x ≡ ok z) (length_run_lem m.doms e₂).0 f₂ in
        sym (ok_inj f₁) ∙ (valeqb_iff v z).1 (repeat_zero m.doms v r zeros g)

module _ (m : Machine) (p : Option (List (ℤ × ℤ))) (h : check_build m p ≡ ok true) where
  pub check_build-parts :
      ((bounded m ≡ ok true) × (sign_safe m ≡ ok true)) × ((wfc m ≡ ok true) × (cc_a m p ≡ ok true))
  unfolding check_build
  check_build-parts =
      let (front, cc_true) = and_run-true _ (cc_a m p) h in
      let (rest, wfc_true) = and_run-true _ (wfc m) front in
      let (first, pairs_true) = and_run-true _ (pairs_ok_a m p) rest in
      (and_run-true (bounded m) (sign_safe m) first, (wfc_true, cc_true))

  -- If `F_checkBuild` returns `true`, then repair terminates: from every state in range, the
  -- fuel that the oracle computes leads to a valid state.
  pub check_build-settles :
      (v : State)
      → InRange m.doms v
      → (f : ℤ) × (s : State) × (fuel_of m ≡ ok f)
        × (normalize m f v ≡ ok s)
        × (all_valid m s ≡ ok true)
  unfolding wfc settles
  check_build-settles v r =
      let t = box_tested m.doms (settles m) check_build-parts.1.0 v r in
      let (f, e₁, f₁) = returned (fuel_of m) t in
      let (s, e₂, f₂) = returned (normalize m f v) f₁ in (f, s, e₁, e₂, f₂)

  -- If `F_checkBuild` returns `true`, then both orders of a declared pair of events return, from
  -- every state that events may start from, and lead to the same state.
  pub check_build-commute :
      (v : State) (q : ℤ × ℤ)
      → MayStart m v
      → IsDeclared (length m.evs) p q
      → (s : State) × (t : State) × (u : State) × (step_i m q.1 v ≡ ok s)
        × (step_i m q.0 s ≡ ok u)
        × (step_i m q.0 v ≡ ok t)
        × (step_i m q.1 t ≡ ok u)
  unfolding cc_a commutes_at pair_ok_a
  check_build-commute v q may d =
      let tested = box_tested m.doms (commutes_at m p) check_build-parts.1.1 v may.0 in
      let (start, e₁, f₁) = returned (in_da m v) tested in
      let (l, e₂, f₂) = returned (pairs_a m p) f₁ in
      let (c, e₃, f₃) = returned (forallb (pair_ok_a m v) l) f₂ in
      let c_true = implied start c (MayStart-in_da m v may e₁) (ok_inj f₃) in
      let all_true = subst (λ x. forallb (pair_ok_a m v) l ≡ ok x) c_true e₃ in
      let both = forallb-true (pair_ok_a m v) l all_true (declared_listed m p q e₂ d) in
      let (s, e₄, f₄) = returned (step_i m q.1 v) both in
      let (u, e₅, f₅) = returned (step_i m q.0 s) f₄ in
      let (t, e₆, f₆) = returned (step_i m q.0 v) f₅ in
      let (u', e₇, f₇) = returned (step_i m q.1 t) f₆ in
      let same = (valeqb_iff u u').0 (ok_inj f₇) in
      (s, t, u, e₄, e₅, e₆, subst (λ x. step_i m q.1 t ≡ ok x) (sym same) e₇)
    where
      implied : (start c : Bool) → start ≡ true → (if start then c else true) ≡ true → c ≡ true
      implied true c q e = e
      implied false c q e = absurd (cc)

-- If `F_compensationFree` returns `true`, then repair changes no state in range, whatever the fuel.
pub compensation_free-normalize :
    (m : Machine) (f : ℕ) (v : State)
    → compensation_free m ≡ ok true
    → InRange m.doms v
    → normalize m (pos f) v ≡ ok v
unfolding compensation_free normalize
compensation_free-normalize m zero v h r = refl
compensation_free-normalize m (suc f) v h r = rw (box_tested m.doms (all_valid m) h v r) refl
