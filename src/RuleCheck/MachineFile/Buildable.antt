-- ===== src/RuleCheck/MachineFile/Buildable.antt =====
-- The machines that `buildMachine` of coq/goextract/cmd/rulecheck/main.go returns, as the rules
-- oracle takes them.
use mathlib.Core.Path.{subst}
use normalization_confluence.Common.{
  ℕ, sym, inl, inr, arith, List, [], ◌∷◌, ◌++◌, All, All-map, In, length,
}
use normalization_confluence.Oracle.Rules.{
  Expr, e_var, e_lit, e_add, e_sub, Pred, p_le, p_lt, p_eq, p_and, p_or, p_not, Preds, Transform,
  Guarded, Machine,
}
use normalization_confluence.Oracle.Rules.Build.{exprs_p, exprs_ps, exprs_t, exprs_g, exprs_m}
use normalization_confluence.Oracle.Rules.Build.Bounds.{LiteralsI64}
use normalization_confluence.Oracle.Rules.Build.Total.{IsBuildable, small-I64}
use normalization_confluence.RuleCheck.Build.Keeps.{
  IsExpr, IsPred, ArePreds, IsTransform, IsGuarded,
}
use normalization_confluence.Oracle.Rules.Compact.States.{IsDomain-I64}
use normalization_confluence.RuleCheck.MachineFile.Accepts.{IsFragment}

module _ {A : Type 0} (P : A → Type 0) where
  All-append : (xs ys : List A) → All P xs → All P ys → All P (xs ++ ys)
  All-append [] ys h k = k
  All-append (x ∷ xs) ys h k = (h.0, All-append xs ys h.1 k)

  All-In : (xs : List A) (x : A) → All P xs → In x xs → P x
  All-In [] x h i = elim i [ ]
  All-In (y ∷ ys) x h (inl e) = subst P (sym e) h.0
  All-In (y ∷ ys) x h (inr i) = All-In ys x h.1 i

IsExpr-LiteralsI64 : (n : ℕ) (e : Expr) → IsExpr n e → LiteralsI64 e
IsExpr-LiteralsI64 n (e_var i) h = tt
IsExpr-LiteralsI64 n (e_lit v) h = small-I64 v (omega arith)
IsExpr-LiteralsI64 n (e_add a b) h = (IsExpr-LiteralsI64 n a h.0, IsExpr-LiteralsI64 n b h.1)
IsExpr-LiteralsI64 n (e_sub a b) h = (IsExpr-LiteralsI64 n a h.0, IsExpr-LiteralsI64 n b h.1)

mutual
  unfolding exprs_p

  exprs_p-All : (n : ℕ) (p : Pred) → IsPred n p → All (IsExpr n) (exprs_p p)
  exprs_p-All n (p_le a b) h = (h.0, (h.1, tt))
  exprs_p-All n (p_lt a b) h = (h.0, (h.1, tt))
  exprs_p-All n (p_eq a b) h = (h.0, (h.1, tt))
  exprs_p-All n (p_and ps) h = exprs_ps-All n ps h
  exprs_p-All n (p_or ps) h = exprs_ps-All n ps h
  exprs_p-All n (p_not p) h = exprs_p-All n p h

  exprs_ps-All : (n : ℕ) (ps : Preds) → ArePreds n ps → All (IsExpr n) (exprs_ps ps)
  exprs_ps-All n Preds.nil h = tt
  exprs_ps-All n (Preds.cons p ps) h =
      All-append (IsExpr n) (exprs_p p) (exprs_ps ps) (exprs_p-All n p h.0) (exprs_ps-All n ps h.1)

exprs_t-All : (n : ℕ) (t : Transform) → IsTransform n t → All (IsExpr n) (exprs_t t)
unfolding exprs_t
exprs_t-All n [] h = tt
exprs_t-All n (a ∷ t) h = (h.0.1, exprs_t-All n t h.1)

exprs_g-All : (n : ℕ) (gs : List Guarded) → All (IsGuarded n) gs → All (IsExpr n) (exprs_g gs)
unfolding exprs_g
exprs_g-All n [] h = tt
exprs_g-All n (g ∷ gs) h =
    All-append (IsExpr n) (exprs_p g.0 ++ exprs_t g.1) (exprs_g gs)
      (All-append (IsExpr n) (exprs_p g.0) (exprs_t g.1) (exprs_p-All n g.0 h.0.0)
        (exprs_t-All n g.1 h.0.1))
      (exprs_g-All n gs h.1)

pub IsFragment-IsBuildable : (m : Machine) → IsFragment m → IsBuildable m
unfolding exprs_m
IsFragment-IsBuildable m f =
    let n = length m.doms in
    let exprs =
      All-append (IsExpr n) (exprs_g m.invs) (exprs_g m.evs) (exprs_g-All n m.invs f.good_invs)
        (exprs_g-All n m.evs f.good_evs) in
    record {
      sizes = All-map m.doms IsDomain-I64 f.domains;
      small_mins = All-map m.mins (λ x h. omega arith) f.small_mins;
      literals = λ x i. IsExpr-LiteralsI64 n x (All-In (IsExpr n) (exprs_m m) x exprs i);
    }
