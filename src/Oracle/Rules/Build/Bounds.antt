-- ===== src/Oracle/Rules/Build/Bounds.antt =====
-- F_varBound, F_bnd and F_bounded: the bounds of expressions, and their values on states in range.
use mathlib.Core.Path.{subst}
use normalization_confluence.Common.{
  true, ℕ, zero, suc, ◌^◌, ◌≤◌, ◌<◌, ◌≡◌, refl, sym, ◌∙◌, List, [], ◌∷◌, arith, ◌⊎◌, inl, inr, All,
  In,
}
use normalization_confluence.Common.Int.{ℤ, pos, negsuc, ◌<ℤ◌, ◌+ℤ◌, ◌-ℤ◌, IsI64, wrap64, leb_ℤ}
use normalization_confluence.Common.Run.{ok, overflow_add, overflow_sub, returned, ok_inj}
use normalization_confluence.Oracle.Prims.Exact.{z_add-exact_or, z_sub-exact_or}
use normalization_confluence.Oracle.Prims.{z_add, z_sub, z_abs, max64}
use normalization_confluence.Oracle.Prims.Within.{
  abs, IsWithin, z_abs-within, small-add, small-sub, sum-IsWithin, exact_or-returned, max64-IsI64,
}
use normalization_confluence.Oracle.Lists.{nth}
use normalization_confluence.Oracle.Lists.Members.{nth-All}
use normalization_confluence.Oracle.Loops.Total.{forallb-true}
use normalization_confluence.Oracle.Positive.{nat_z}
use normalization_confluence.Oracle.Positive.Exact.{nat_z-exact}
use normalization_confluence.Oracle.Rules.{
  Expr, e_var, e_lit, e_add, e_sub, Machine, State, rd, eval_e,
}
use normalization_confluence.Oracle.Rules.Box.Range.{InRange}
use normalization_confluence.Oracle.Rules.Build.{
  var_bound, bnd, bounded, within_max, exprs_m, max_abs,
}

-- The literals of an expression are int64 values.
abbrev pub LiteralsI64 : Expr → Type 0
LiteralsI64 (e_var i) = Unit
LiteralsI64 (e_lit n) = IsI64 n
LiteralsI64 (e_add x y) = LiteralsI64 x × LiteralsI64 y
LiteralsI64 (e_sub x y) = LiteralsI64 x × LiteralsI64 y

-- An expression with its value, and a bound.
abbrev Evaluates : Machine → State → Expr → ℤ → Type 0
Evaluates m s x b = (v : ℤ) × (eval_e m.mins s x ≡ ok v) × IsWithin b v × IsI64 b

plus-Evaluates :
    (m : Machine) (s : State) (x y : Expr) (a b : ℤ) {c : ℤ}
    → Evaluates m s x a
    → Evaluates m s y b
    → z_add a b ≡ ok c
    → Evaluates m s (e_add x y) c
unfolding eval_e
plus-Evaluates m s x y a b (v, e, w, ha) (v', e', w', hb) q =
    let (lt, within, hc) = sum-IsWithin v v' a b ha hb w w' q in
    let (r, e'', le) = small-add v v' lt in (r, rw e (rw e' e''), within r le, hc)

minus-Evaluates :
    (m : Machine) (s : State) (x y : Expr) (a b : ℤ) {c : ℤ}
    → Evaluates m s x a
    → Evaluates m s y b
    → z_add a b ≡ ok c
    → Evaluates m s (e_sub x y) c
unfolding eval_e
minus-Evaluates m s x y a b (v, e, w, ha) (v', e', w', hb) q =
    let (lt, within, hc) = sum-IsWithin v v' a b ha hb w w' q in
    let (r, e'', le) = small-sub v v' lt in (r, rw e (rw e' e''), within r le, hc)

-- The minimum and size of a variable, and its raw value in a state in range: a raw value past the
-- end is 0, where the size is 0.
rd-bounds :
    (ds : List ℤ) (s : State) (i : ℤ) {d : ℤ}
    → InRange ds s
    → nth i ds (pos 0) ≡ ok d
    → (n : ℕ) × (rd i s ≡ ok (pos n)) × ((pos n <ℤ d) ⊎ ((n ≡ 0) × (d ≡ pos 0)))
unfolding rd nth
rd-bounds ds s (negsuc i) r e = absurd (cc)
rd-bounds [] [] (pos i) r e = (0, refl, inr (refl, sym (ok_inj e)))
rd-bounds [] (x ∷ s) (pos i) r e = elim r [ ]
rd-bounds (d ∷ ds) [] (pos i) r e = elim r [ ]
rd-bounds (d ∷ ds) (pos n ∷ s) (pos zero) r e =
    (n, refl, inl (subst (λ y. pos n <ℤ y) (ok_inj e) (omega arith)))
rd-bounds (d ∷ ds) (negsuc n ∷ s) (pos zero) r e = absurd (omega arith)
rd-bounds (d ∷ ds) (x ∷ s) (pos (suc i)) r e = rd-bounds ds s (pos i) r.1 e

-- The largest absolute value of a variable, from its minimum and the size of its domain.
abbrev largest : ℤ → ℕ → ℤ
largest low d = max64 (pos (abs low)) (pos (abs (low +ℤ pos d -ℤ pos 1)))

value-IsWithin :
    (low : ℤ) (n d : ℕ) → (n < d) ⊎ ((n ≡ 0) × (d ≡ 0)) → IsWithin (largest low d) (low +ℤ pos n)
unfolding ◌+ℤ◌ ◌-ℤ◌
value-IsWithin (pos low) n d h = ground arith
value-IsWithin (negsuc low) n d h = ground arith

value-add :
    (low : ℤ) (n d : ℕ)
    → IsI64 low
    → IsI64 (low +ℤ pos d)
    → n ≤ d
    → d < 2 ^ 63
    → z_add low (pos n) ≡ ok (low +ℤ pos n)
unfolding z_add wrap64 ◌+ℤ◌
value-add (pos low) n d hl ht h hd = ground arith
value-add (negsuc low) n d hl ht h hd = ground arith

-- The bound of a variable is what `largest` says, and its value is within it.
var_value :
    (low : ℤ) (n : ℕ) (d : ℤ) {a k t top b : ℤ}
    → IsI64 low
    → IsI64 d
    → (pos n <ℤ d) ⊎ ((n ≡ 0) × (d ≡ pos 0))
    → z_abs low ≡ ok a
    → nat_z d ≡ ok k
    → z_add low k ≡ ok t
    → z_sub t (pos 1) ≡ ok top
    → z_abs top ≡ ok b
    → (v : ℤ) × (z_add low (pos n) ≡ ok v) × IsWithin (max64 a b) v × IsI64 (max64 a b)
var_value low n (negsuc d) hl hd (inl h) e₁ e₂ e₃ e₄ e₅ = absurd (omega arith)
var_value low n (negsuc d) hl hd (inr h) e₁ e₂ e₃ e₄ e₅ = absurd (cc h.1)
var_value low n (pos d) {a} {k} {t} {top} {b} hl hd h e₁ e₂ e₃ e₄ e₅ =
    let k_eq = ok_inj (sym e₂ ∙ nat_z-exact d hd) in
    let (t_eq, ht) =
      exact_or-returned overflow_add (low +ℤ pos d)
        (sym (z_add-exact_or low (pos d) hl hd) ∙ subst (λ x. z_add low x ≡ ok t) k_eq e₃) in
    let (top_eq, htop) =
      exact_or-returned overflow_sub (t -ℤ pos 1)
        (sym (z_sub-exact_or t (pos 1) ht (omega arith)) ∙ e₄) in
    let (a_eq, ha) = z_abs-within low hl e₁ in
    let (b_eq, hb) = z_abs-within top htop e₅ in
    (
      low +ℤ pos n,
      value-add low n d hl (subst IsI64 (sym t_eq) ht) (omega arith) hd,
      rw a_eq (rw b_eq (rw (sym top_eq) (rw (sym t_eq) (value-IsWithin low n d (size_of h))))),
      max64-IsI64 a b ha hb,
    )
  where
    size_of : (pos n <ℤ pos d) ⊎ ((n ≡ 0) × (pos d ≡ pos 0)) → (n < d) ⊎ ((n ≡ 0) × (d ≡ 0))
    size_of (inl lt) = inl (omega arith)
    size_of (inr (n_eq, d_eq)) = inr (n_eq, cc)

raw-IsI64 : (n : ℕ) (d : ℤ) → (pos n <ℤ d) ⊎ ((n ≡ 0) × (d ≡ pos 0)) → IsI64 d → n < 2 ^ 63
raw-IsI64 n (pos d) (inl lt) h = omega arith
raw-IsI64 n (negsuc d) (inl lt) h = absurd (omega arith)
raw-IsI64 n d (inr (z, q)) h = omega arith

var_eval :
    (mins : List ℤ) (i : ℤ) (s : State) (n : ℕ) {low v : ℤ}
    → nth i mins (pos 0) ≡ ok low
    → rd i s ≡ ok (pos n)
    → n < 2 ^ 63
    → z_add low (pos n) ≡ ok v
    → eval_e mins s (e_var i) ≡ ok v
unfolding eval_e
var_eval mins i s n e q lt e' = rw e (rw q (rw (nat_z-exact n lt) e'))

max-le : (v b : ℤ) → IsWithin b v → leb_ℤ b max_abs ≡ true → abs v ≤ 2147483647
max-le v b w e = ground arith

module _ (m : Machine) (hd : All IsI64 m.doms) (hm : All IsI64 m.mins) where
  var_bound-IsWithin :
      (i : ℤ) (s : State) {b : ℤ}
      → InRange m.doms s
      → var_bound m i ≡ ok b
      → (v : ℤ) × (eval_e m.mins s (e_var i) ≡ ok v) × IsWithin b v × IsI64 b
  unfolding var_bound
  var_bound-IsWithin i s r e =
      let (low, e₁, f₁) = returned (nth i m.mins (pos 0)) e in
      let (a, e₂, f₂) = returned (z_abs low) f₁ in
      let (d, e₃, f₃) = returned (nth i m.doms (pos 0)) f₂ in
      let (k, e₄, f₄) = returned (nat_z d) f₃ in
      let (t, e₅, f₅) = returned (z_add low k) f₄ in
      let (top, e₆, f₆) = returned (z_sub t (pos 1)) f₅ in
      let (b', e₇, f₇) = returned (z_abs top) f₆ in
      let (n, q, h) = rd-bounds m.doms s i r e₃ in
      let hd' = nth-All IsI64 m.doms i hd (omega arith) e₃ in
      let (v, q', w, i64) =
        var_value low n d (nth-All IsI64 m.mins i hm (omega arith) e₁) hd' h e₂ e₄ e₅ e₆ e₇ in
      (
        v,
        var_eval m.mins i s n e₁ q (raw-IsI64 n d h hd') q',
        subst (λ x. IsWithin x v) (ok_inj f₇) w,
        subst IsI64 (ok_inj f₇) i64,
      )

  -- If `F_bnd` returns a bound of an expression, then the expression evaluates without a panic on
  -- every state in range, to a number whose absolute value is within the bound. The minima and the
  -- sizes of the domains are int64, and so are the literals.
  pub bnd-IsWithin :
      (x : Expr) (s : State) {b : ℤ}
      → LiteralsI64 x
      → InRange m.doms s
      → bnd m x ≡ ok b
      → (v : ℤ) × (eval_e m.mins s x ≡ ok v) × IsWithin b v × IsI64 b
  unfolding bnd eval_e
  bnd-IsWithin (e_var i) s h r e = var_bound-IsWithin i s r e
  bnd-IsWithin (e_lit n) s h r e =
      let (q, i64) = z_abs-within n h e in
      (n, refl, subst (λ x. IsWithin x n) (sym q) (omega arith), i64)
  bnd-IsWithin (e_add x y) s h r e =
      let (a, e₁, f₁) = returned (bnd m x) e in
      let (b, e₂, f₂) = returned (bnd m y) f₁ in
      plus-Evaluates m s x y a b (bnd-IsWithin x s h.0 r e₁) (bnd-IsWithin y s h.1 r e₂) f₂
  bnd-IsWithin (e_sub x y) s h r e =
      let (a, e₁, f₁) = returned (bnd m x) e in
      let (b, e₂, f₂) = returned (bnd m y) f₁ in
      minus-Evaluates m s x y a b (bnd-IsWithin x s h.0 r e₁) (bnd-IsWithin y s h.1 r e₂) f₂

  -- If `F_bounded` returns `true`, then every expression of the machine evaluates without a panic on
  -- every state in range, to a number of absolute value at most 2147483647. The minima, the sizes
  -- of the domains and the literals of the expression are int64.
  pub bounded-IsWithin :
      (x : Expr) (s : State)
      → LiteralsI64 x
      → InRange m.doms s
      → bounded m ≡ ok true
      → In x (exprs_m m)
      → (v : ℤ) × (eval_e m.mins s x ≡ ok v) × (abs v ≤ 2147483647)
  unfolding bounded
  bounded-IsWithin x s h r e i =
      let t = forallb-true (within_max m) (exprs_m m) e i in
      let (b, e₁, f₁) = returned (bnd m x) t in
      let (v, e₂, w, hb) = bnd-IsWithin x s h r e₁ in (v, e₂, max-le v b w (ok_inj f₁))
