-- ===== src/Oracle/Rules/Build/Total.antt =====
-- Where F_evalP, F_setClamped and F_applyT return: guards and transforms of small expressions.
use mathlib.Core.Path.{subst}
use normalization_confluence.Common.{
  ℕ, zero, suc, ◌≤◌, ◌≡◌, refl, sym, ◌∙◌, Bool, true, false, not, List, [], ◌∷◌, arith, inl, inr,
  All, In,
}
use normalization_confluence.Common.Int.{ℤ, pos, negsuc, IsI64, leb_ℤ, ltb_ℤ, eqb_ℤ}
use normalization_confluence.Common.Run.{ok}
use normalization_confluence.Oracle.Prims.{min64, nat_sub, min_int64}
use normalization_confluence.Oracle.Prims.Within.{abs, small-sub}
use normalization_confluence.Oracle.Lists.Members.{nth-total, nth-All, In-append}
use normalization_confluence.Oracle.Positive.{to_nat_0}
use normalization_confluence.Oracle.Positive.Exact.{to_nat_0-exact, eqb_0-exact}
use normalization_confluence.Oracle.Rules.{
  Expr, Pred, p_le, p_lt, p_eq, p_and, p_or, p_not, Preds, nil, cons, Assign, Transform, Machine,
  State, wr, eval_e, eval_p, eval_all, eval_any,
}
use normalization_confluence.Oracle.Rules.Build.{exprs_p, exprs_ps, exprs_m}
use normalization_confluence.Oracle.Rules.Build.Bounds.{LiteralsI64}
use normalization_confluence.Oracle.Rules.Box.Range.{InRange}
use normalization_confluence.Oracle.Rules.Step.{set_clamped, apply_t}
use normalization_confluence.Oracle.Rules.Step.Keeps.{set_clamped-InRange}

-- The expression evaluates at the state, to a small number.
abbrev pub Evaluates : List ℤ → State → Expr → Type 0
Evaluates mins s x = (v : ℤ) × (eval_e mins s x ≡ ok v) × (abs v ≤ 2147483647)

pub small-I64 : (v : ℤ) → abs v ≤ 4294967296 → IsI64 v
small-I64 (pos n) h = omega arith
small-I64 (negsuc n) h = omega arith

small-ne : (v : ℤ) → abs v ≤ 4294967296 → v ≡ min_int64 → ⊥
small-ne v h e =
    let big : abs min_int64 ≤ 4294967296 = subst (λ x. abs x ≤ 4294967296) e h in omega arith

module _ (mins : List ℤ) (s : State) where
  eval_all-cons :
      (p : Pred) (ps : Preds) (b : Bool)
      → eval_p mins s p ≡ ok b
      → (c : Bool) × (eval_all mins s ps ≡ ok c)
      → (c : Bool) × (eval_all mins s (cons p ps) ≡ ok c)
  unfolding eval_all
  eval_all-cons p ps true e (c, e') = (c, rw e e')
  eval_all-cons p ps false e _ = (false, rw e refl)

  eval_any-cons :
      (p : Pred) (ps : Preds) (b : Bool)
      → eval_p mins s p ≡ ok b
      → (c : Bool) × (eval_any mins s ps ≡ ok c)
      → (c : Bool) × (eval_any mins s (cons p ps) ≡ ok c)
  unfolding eval_any
  eval_any-cons p ps true e _ = (true, rw e refl)
  eval_any-cons p ps false e (c, e') = (c, rw e e')

  mutual
    unfolding eval_p eval_all eval_any exprs_p exprs_ps

    pub eval_p-total :
        (p : Pred)
        → ((x : Expr) → In x (exprs_p p) → Evaluates mins s x)
        → (b : Bool) × (eval_p mins s p ≡ ok b)
    eval_p-total (p_le a b) h =
        let (v, e, _) = h a (inl refl) in
        let (w, e', _) = h b (inr (inl refl)) in (leb_ℤ v w, rw e (rw e' refl))
    eval_p-total (p_lt a b) h =
        let (v, e, _) = h a (inl refl) in
        let (w, e', _) = h b (inr (inl refl)) in (ltb_ℤ v w, rw e (rw e' refl))
    eval_p-total (p_eq a b) h =
        let (v, e, le) = h a (inl refl) in
        let (w, e', le') = h b (inr (inl refl)) in
        (
          eqb_ℤ v w,
          rw e (
              rw e' (
                eqb_0-exact v w (small-I64 v (omega arith)) (small-I64 w (omega arith))
                  (small-ne v (omega arith)) (small-ne w (omega arith)))),
        )
    eval_p-total (p_and ps) h = eval_all-total ps h
    eval_p-total (p_or ps) h = eval_any-total ps h
    eval_p-total (p_not p) h = let (b, e) = eval_p-total p h in (not b, rw e refl)

    eval_all-total :
        (ps : Preds)
        → ((x : Expr) → In x (exprs_ps ps) → Evaluates mins s x)
        → (b : Bool) × (eval_all mins s ps ≡ ok b)
    eval_all-total nil h = (true, refl)
    eval_all-total (cons p ps) h =
        let (b, e) =
          eval_p-total p (λ x i. h x ((In-append x (exprs_p p) (exprs_ps ps)).1 (inl i))) in
        eval_all-cons p ps b e
          (eval_all-total ps (λ x i. h x ((In-append x (exprs_p p) (exprs_ps ps)).1 (inr i))))

    eval_any-total :
        (ps : Preds)
        → ((x : Expr) → In x (exprs_ps ps) → Evaluates mins s x)
        → (b : Bool) × (eval_any mins s ps ≡ ok b)
    eval_any-total nil h = (false, refl)
    eval_any-total (cons p ps) h =
        let (b, e) =
          eval_p-total p (λ x i. h x ((In-append x (exprs_p p) (exprs_ps ps)).1 (inl i))) in
        eval_any-cons p ps b e
          (eval_any-total ps (λ x i. h x ((In-append x (exprs_p p) (exprs_ps ps)).1 (inr i))))

-- Setting a variable by a nat returns.
wr-total : (n : ℕ) (v : ℤ) (s : State) → (t : State) × (wr (pos n) v s ≡ ok t)
unfolding wr
wr-total n v [] = ([], refl)
wr-total zero v (x ∷ s) = (v ∷ s, refl)
wr-total (suc n) v (x ∷ s) = let (t, e) = wr-total n v s in (x ∷ t, rw e refl)

small_to_nat : (d : ℤ) → abs d ≤ 4294967296 → (n : ℤ) × (to_nat_0 d ≡ ok n)
small_to_nat (pos n) h = (pos n, to_nat_0-exact (pos n) (omega arith) ∙ ground arith)
small_to_nat (negsuc n) h = (pos 0, to_nat_0-exact (negsuc n) (omega arith) ∙ ground arith)

-- The sizes of the domains and the literals of the machine are int64, and its minima are at most
-- 2147483648 in absolute value.
pub record IsBuildable (m : Machine) : Type 0 where
  pub sizes : All IsI64 m.doms
  pub small_mins : All (λ x. abs x ≤ 2147483648) m.mins
  pub literals : (x : Expr) → In x (exprs_m m) → LiteralsI64 x

module _ (m : Machine) (g : IsBuildable m) where
  -- Clamped writing of a small value returns.
  set_clamped-total :
      (n : ℕ) (v : ℤ) (s : State)
      → abs v ≤ 2147483647
      → (t : State) × (set_clamped m (pos n) v s ≡ ok t)
  unfolding set_clamped
  set_clamped-total n v s h =
      let (low, e, _) = nth-total n m.mins (pos 0) in
      let le = nth-All (λ x. abs x ≤ 2147483648) m.mins (pos n) g.small_mins (omega arith) e in
      let (d, e', le') = small-sub v low (omega arith) in
      let (raw, e'') = small_to_nat d (omega arith) in
      let (size, q, _) = nth-total n m.doms (pos 1) in
      let (t, w) = wr-total n (min64 raw (nat_sub size (pos 1))) s in
      (t, rw e (rw e' (rw e'' (rw q w))))

  pub apply_t-total :
      (t : Transform) (s : State)
      → ((a : Assign)
          → In a t
          → ((n : ℕ) × (a.0 ≡ pos n)) × ((u : State) → InRange m.doms u → Evaluates m.mins u a.1))
      → InRange m.doms s
      → (s' : State) × (apply_t m t s ≡ ok s')
  unfolding apply_t
  apply_t-total [] s h r = (s, refl)
  apply_t-total ((i, x) ∷ t) s h r =
      let ((n, q), evaluates) = h (i, x) (inl refl) in
      let (v, e, le) = evaluates s r in
      let (u, e') = set_clamped-total n v s le in
      let e'' = subst (λ j. set_clamped m j v s ≡ ok u) (sym q) e' in
      let (s', e₃) =
        apply_t-total t u (λ a k. h a (inr k)) (set_clamped-InRange m g.sizes i v s r e'') in
      (s', rw e (rw e'' e₃))
