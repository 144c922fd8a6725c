-- ===== src/Oracle/Rules/Step/Keeps.antt =====
-- F_setClamped to F_stepI, and the states whose raw values are in their domains.
use mathlib.Core.Path.{subst}
use normalization_confluence.Common.{
  if◌then◌else◌, ℕ, zero, suc, ◌≡◌, sym, Bool, true, false, Option, none, some, List, [], ◌∷◌,
  arith, All,
}
use normalization_confluence.Common.Int.{ℤ, pos, negsuc, ◌≤ℤ◌, ◌<ℤ◌, IsI64, wrap64}
use normalization_confluence.Common.Run.{ok, returned, ok_inj, ◌>>=◌}
use normalization_confluence.Oracle.Prims.Exact.{nat_sub_pos}
use normalization_confluence.Oracle.Prims.{min64, nat_sub, z_sub}
use normalization_confluence.Oracle.Lists.{nth, find}
use normalization_confluence.Oracle.Lists.Members.{nth-All}
use normalization_confluence.Oracle.Positive.{to_nat_0}
use normalization_confluence.Oracle.Positive.Exact.{to_nat_0-exact}
use normalization_confluence.Oracle.Rules.{Machine, State, Transform, Guarded, wr, eval_e, eval_p}
use normalization_confluence.Oracle.Rules.Box.Range.{InRange}
use normalization_confluence.Oracle.Rules.Step.{
  violated, set_clamped, apply_t, all_valid, repair1, normalize, gapp, step_g, step_i, ev_at,
  fuel_of,
}

-- Setting a variable to a value below the size of its domain keeps the state in range.
wr-InRange :
    (ds : List ℤ) (s : State) (i v : ℤ) {size : ℤ} {t : State}
    → InRange ds s
    → nth i ds (pos 1) ≡ ok size
    → pos 0 ≤ℤ v
    → (pos 0 <ℤ size → v <ℤ size)
    → wr i v s ≡ ok t
    → InRange ds t
unfolding wr nth
wr-InRange [] [] i v r e lo hi w = subst (InRange []) (ok_inj w) tt
wr-InRange [] (x ∷ s) i v r e lo hi w = elim r [ ]
wr-InRange (d ∷ ds) [] i v r e lo hi w = elim r [ ]
wr-InRange (d ∷ ds) (x ∷ s) (negsuc i) v r e lo hi w = absurd (cc)
wr-InRange (d ∷ ds) (x ∷ s) (pos zero) v r e lo hi w =
    let q = ok_inj e in
    subst (InRange (d ∷ ds)) (ok_inj w)
      ((lo, subst (λ y. v <ℤ y) (sym q) (hi (subst (λ y. pos 0 <ℤ y) q (omega arith)))), r.1)
wr-InRange (d ∷ ds) (x ∷ s) (pos (suc i)) v r e lo hi w =
    let (t', e', w') = returned (wr (pos i) v s) w in
    subst (InRange (d ∷ ds)) (ok_inj w') (r.0, wr-InRange ds s (pos i) v r.1 e lo hi e')

nat_sub_neg : (n : ℕ) → nat_sub (negsuc n) (pos 1) ≡ pos 0
unfolding nat_sub
nat_sub_neg n = ground arith

-- A number clamped between 0 and `size - 1`.
clamped-bounds :
    (raw size : ℤ)
    → IsI64 size
    → pos 0 ≤ℤ raw
    → (pos 0 ≤ℤ min64 raw (nat_sub size (pos 1)))
      × (pos 0 <ℤ size → min64 raw (nat_sub size (pos 1)) <ℤ size)
clamped-bounds (negsuc raw) size h lo = absurd (omega arith)
clamped-bounds (pos raw) (pos size) h lo =
    rw (nat_sub_pos size 1 h) (ground arith, λ p. ground arith)
clamped-bounds (pos raw) (negsuc size) h lo =
    rw (nat_sub_neg size) (ground arith, λ p. absurd (omega arith))

z_sub-IsI64 : (a b : ℤ) {r : ℤ} → z_sub a b ≡ ok r → IsI64 r
unfolding z_sub wrap64
z_sub-IsI64 a b {r = pos r} e = ground arith
z_sub-IsI64 a b {r = negsuc r} e = ground arith

to_nat_0_nonneg : (z : ℤ) {r : ℤ} → IsI64 z → to_nat_0 z ≡ ok r → pos 0 ≤ℤ r
to_nat_0_nonneg z {r = pos r} h e = omega arith
to_nat_0_nonneg z {r = negsuc r} h e = absurd (ground (arith, to_nat_0-exact z h))

module _ (m : Machine) (h : All IsI64 m.doms) where
  pub set_clamped-InRange :
      (i v : ℤ) (s : State) {t : State}
      → InRange m.doms s
      → set_clamped m i v s ≡ ok t
      → InRange m.doms t
  unfolding set_clamped
  set_clamped-InRange i v s r e =
      let (low, e₁, f₁) = returned (nth i m.mins (pos 0)) e in
      let (d, e₂, f₂) = returned (z_sub v low) f₁ in
      let (raw, e₃, f₃) = returned (to_nat_0 d) f₂ in
      let (size, e₄, f₄) = returned (nth i m.doms (pos 1)) f₃ in
      let (lo, hi) =
        clamped-bounds raw size (nth-All IsI64 m.doms i h (omega arith) e₄)
          (to_nat_0_nonneg d (z_sub-IsI64 v low e₂) e₃) in
      wr-InRange m.doms s i (min64 raw (nat_sub size (pos 1))) r e₄ lo hi f₄

  apply_t-InRange :
      (t : Transform) (s : State) {s' : State}
      → InRange m.doms s
      → apply_t m t s ≡ ok s'
      → InRange m.doms s'
  unfolding apply_t
  apply_t-InRange [] s r e = subst (InRange m.doms) (ok_inj e) r
  apply_t-InRange ((i, x) ∷ t) s r e =
      let (v, e₁, f₁) = returned (eval_e m.mins s x) e in
      let (u, e₂, f₂) = returned (set_clamped m i v s) f₁ in
      apply_t-InRange t u (set_clamped-InRange i v s r e₂) f₂

  repair1-InRange :
      (s : State) {s' : State} → InRange m.doms s → repair1 m s ≡ ok s' → InRange m.doms s'
  unfolding repair1
  repair1-InRange s {s'} r e =
      let (first, e₁, f₁) = returned (find (violated m s) m.invs) e in repaired first f₁
    where
      repaired :
          (first : Option Guarded)
          → (elim first [ some inv ↦ apply_t m inv.1 s | none ↦ ok s ]) ≡ ok s'
          → InRange m.doms s'
      repaired (some inv) f = apply_t-InRange inv.1 s r f
      repaired none f = subst (InRange m.doms) (ok_inj f) r

  -- Repair keeps a state in range, whatever the fuel.
  pub normalize-InRange :
      (f : ℤ) (s : State) {s' : State}
      → InRange m.doms s
      → normalize m f s ≡ ok s'
      → InRange m.doms s'
  unfolding normalize
  normalize-InRange (negsuc f) s r e = absurd (cc)
  normalize-InRange (pos zero) s r e = subst (InRange m.doms) (ok_inj e) r
  normalize-InRange (pos (suc f)) s {s'} r e =
      let (t, e₁, f₁) = returned (all_valid m s) e in
      after_test t f₁ (λ u q. normalize-InRange (pos f) u (repair1-InRange s r q))
    where
      after_test :
          (t : Bool)
          → (elim t [ true ↦ ok s | false ↦ (repair1 m s >>= λ u. normalize m (pos f) u) ]) ≡ ok s'
          → ((u : State) → repair1 m s ≡ ok u → normalize m (pos f) u ≡ ok s' → InRange m.doms s')
          → InRange m.doms s'
      after_test true q rest = subst (InRange m.doms) (ok_inj q) r
      after_test false q rest = let (u, e₂, f₂) = returned (repair1 m s) q in rest u e₂ f₂

  pub gapp-InRange :
      (g : Guarded) (s : State) {s' : State}
      → InRange m.doms s
      → gapp m g s ≡ ok s'
      → InRange m.doms s'
  unfolding gapp
  gapp-InRange g s {s'} r e = let (t, e₁, f₁) = returned (eval_p m.mins s g.0) e in guarded t f₁
    where
      guarded : (t : Bool) → (if t then apply_t m g.1 s else ok s) ≡ ok s' → InRange m.doms s'
      guarded true q = apply_t-InRange g.1 s r q
      guarded false q = subst (InRange m.doms) (ok_inj q) r

  -- If an event returns on a state in range, then it returns a state in range; the sizes of the
  -- domains are int64.
  pub step_i-InRange :
      (e : ℤ) (s : State) {s' : State} → InRange m.doms s → step_i m e s ≡ ok s' → InRange m.doms s'
  unfolding step_i step_g
  step_i-InRange e s r q =
      let (g, e₁, f₁) = returned (ev_at m e) q in
      let (f, e₂, f₂) = returned (fuel_of m) f₁ in
      let (u, e₃, f₃) = returned (gapp m g s) f₂ in normalize-InRange f u (gapp-InRange g s r e₃) f₃
