-- ===== src/Oracle/Rules/Build/Signs.antt =====
-- F_signSafe and F_binaryVar: what assignments write to the variables with the values 0 and 1.
use normalization_confluence.Common.{
  ◌≡◌, refl, sym, ◌∙◌, Bool, true, false, arith, All, In, if◌then◌else◌,
}
use normalization_confluence.Common.Int.{ℤ, pos, ◌≤ℤ◌, IsI64, leb_ℤ}
use normalization_confluence.Common.Run.{ok, returned, ok_inj}
use normalization_confluence.Oracle.Lists.{nth}
use normalization_confluence.Oracle.Loops.Total.{forallb-true}
use normalization_confluence.Oracle.Positive.{eqb_0}
use normalization_confluence.Oracle.Rules.{Assign, Transform, Machine, State, eval_e}
use normalization_confluence.Oracle.Rules.Box.Range.{InRange}
use normalization_confluence.Oracle.Rules.Build.{
  lo, binary_var, write_safe, sign_safe_t, sign_safe, transforms_m,
}
use normalization_confluence.Oracle.Rules.Build.Bounds.{LiteralsI64}
use normalization_confluence.Oracle.Rules.Build.Enclosed.{expr-Enclosed}

-- A variable with minimum 0 and two values passes the test of F_binaryVar.
binary_var-two :
    (m : Machine) (i : ℤ)
    → nth i m.doms (pos 0) ≡ ok (pos 2)
    → nth i m.mins (pos 0) ≡ ok (pos 0)
    → binary_var m i ≡ ok true
unfolding binary_var eqb_0
binary_var-two m i e e' = rw e (rw e' refl)

nonneg_above :
    (b : Bool) (l v : ℤ)
    → b ≡ true
    → (if b then leb_ℤ (pos 0) l else true) ≡ true
    → l ≤ℤ v
    → pos 0 ≤ℤ v
nonneg_above true l v q e le = let low : pos 0 ≤ℤ l = ground arith in omega arith
nonneg_above false l v q e le = absurd (cc)

module _ (m : Machine) (hd : All IsI64 m.doms) (hm : All IsI64 m.mins) where
  -- If `F_signSafe` returns `true`, then a value that an assignment of the machine writes to a
  -- variable with minimum 0 and two values, from a state in range, is not negative. The minima, the
  -- sizes of the domains and the literals of the assignment are int64.
  pub sign_safe-nonneg :
      (t : Transform) (a : Assign) (s : State) {v : ℤ}
      → sign_safe m ≡ ok true
      → In t (transforms_m m)
      → In a t
      → LiteralsI64 a.1
      → nth a.0 m.doms (pos 0) ≡ ok (pos 2)
      → nth a.0 m.mins (pos 0) ≡ ok (pos 0)
      → InRange m.doms s
      → eval_e m.mins s a.1 ≡ ok v
      → pos 0 ≤ℤ v
  unfolding sign_safe sign_safe_t write_safe
  sign_safe-nonneg t a s {v} h i j lits two zero_min r e =
      let all_safe = forallb-true (sign_safe_t m) (transforms_m m) h i in
      let safe = forallb-true (write_safe m) t all_safe j in
      let (b, e₁, f₁) = returned (binary_var m a.0) safe in
      let (l, e₂, f₂) = returned (lo m a.1) f₁ in
      let (_, low, _) = expr-Enclosed m hd hm a.1 s lits r e in
      let b_true : b ≡ true = ok_inj (sym e₁ ∙ binary_var-two m a.0 two zero_min) in
      nonneg_above b l v b_true (ok_inj f₂) (low l e₂).0
