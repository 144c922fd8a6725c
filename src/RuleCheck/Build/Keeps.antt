-- ===== src/RuleCheck/Build/Keeps.antt =====
-- The rules that the readers of coq/goextract/cmd/rulecheck/main.go accept: their variables and
-- their literals.
use normalization_confluence.Common.{ℕ, All}
use normalization_confluence.Common.Int.{ℤ}
use normalization_confluence.Common.Text.{Bytes, codes, eq_bytes}
use normalization_confluence.Oracle.Rules.{
  Expr, e_var, e_lit, e_add, e_sub, Pred, p_le, p_lt, p_eq, p_and, p_or, p_not, Preds, Transform,
  Guarded,
}
use normalization_confluence.RuleCheck.Failures.{Failure, malformed_expr, malformed_pred}
use normalization_confluence.RuleCheck.Sexp.{Sexp, Forms, atom, list, nil, cons}
use normalization_confluence.RuleCheck.Building.{Building, ◌>>=◌, done, stop, value_of, var_index}
use normalization_confluence.RuleCheck.Building.Keeps.{
  Keeps, Keeps->>=, Keeps-if, limit, IsSmall, IsBelow, value_of-IsSmall, var_index-IsBelow,
}
use normalization_confluence.RuleCheck.Build.{build_leaf, build_expr, build_comparison}

-- The expressions over `n` variables whose literals are small.
abbrev pub IsExpr : ℕ → Expr → Type 0
IsExpr n (e_var i) = IsBelow n i
IsExpr n (e_lit v) = IsSmall v
IsExpr n (e_add a b) = IsExpr n a × IsExpr n b
IsExpr n (e_sub a b) = IsExpr n a × IsExpr n b

abbrev mutual
  pub IsPred : ℕ → Pred → Type 0
  IsPred n (p_le a b) = IsExpr n a × IsExpr n b
  IsPred n (p_lt a b) = IsExpr n a × IsExpr n b
  IsPred n (p_eq a b) = IsExpr n a × IsExpr n b
  IsPred n (p_and ps) = ArePreds n ps
  IsPred n (p_or ps) = ArePreds n ps
  IsPred n (p_not p) = IsPred n p

  pub ArePreds : ℕ → Preds → Type 0
  ArePreds n Preds.nil = Unit
  ArePreds n (Preds.cons p ps) = IsPred n p × ArePreds n ps

abbrev pub IsTransform : ℕ → Transform → Type 0
IsTransform n t = All (λ a. IsBelow n a.0 × IsExpr n a.1) t

abbrev pub IsGuarded : ℕ → Guarded → Type 0
IsGuarded n g = IsPred n g.0 × IsTransform n g.1

module _ (v : ℤ) where
  pub Keeps-stop : {A : Type 0} (P : A → Type 0) (e : Failure) → Keeps v P (stop e)
  Keeps-stop P e g q = tt

  -- A result made of two, read one after the other.
  pub Keeps-both :
      {A B C : Type 0} (P : A → Type 0) (Q : B → Type 0) (R : C → Type 0) (m : Building A)
      (k : Building B) (f : A → B → C)
      → Keeps v P m
      → Keeps v Q k
      → ((a : A) (b : B) → P a → Q b → R (f a b))
      → Keeps v R (do a ← m; b ← k; done (f a b))
  Keeps-both P Q R m k f h h' r =
      Keeps->>= P R m _ h λ a p. Keeps->>= Q R k _ h' λ b q g e. (r a b p q, e)

  pub Keeps-one :
      {A B : Type 0} (P : A → Type 0) (R : B → Type 0) (m : Building A) (f : A → B)
      → Keeps v P m
      → ((a : A) → P a → R (f a))
      → Keeps v R (do a ← m; done (f a))
  Keeps-one P R m f h r = Keeps->>= P R m _ h λ a p g e. (r a p, e)

  Keeps-exprs :
      {C : Type 0} (R : C → Type 0) (m k : Building Expr) (f : Expr → Expr → C)
      → Keeps v (IsExpr (limit v)) m
      → Keeps v (IsExpr (limit v)) k
      → ((a b : Expr) → IsExpr (limit v) a → IsExpr (limit v) b → R (f a b))
      → Keeps v R (do a ← m; b ← k; done (f a b))
  Keeps-exprs R m k f = Keeps-both (IsExpr (limit v)) (IsExpr (limit v)) R m k f

  build_leaf-IsExpr : (h a : Bytes) → Keeps v (IsExpr (limit v)) (build_leaf h a)
  unfolding build_leaf
  build_leaf-IsExpr h a =
      Keeps-if _ (eq_bytes h (codes "var")) _ _
        (λ _.
          Keeps-one (IsBelow (limit v)) (IsExpr (limit v)) (var_index a) e_var
            (var_index-IsBelow v a) λ i p. p)
        λ _.
          Keeps-if _ (eq_bytes h (codes "lit")) _ _
            (λ _.
              Keeps-one IsSmall (IsExpr (limit v)) (value_of a) e_lit (value_of-IsSmall v a)
                λ i p. p)
            λ _. Keeps-stop (IsExpr (limit v)) malformed_expr

  pub build_expr-IsExpr : (x : Sexp) → Keeps v (IsExpr (limit v)) (build_expr x)
  unfolding build_expr
  build_expr-IsExpr (atom a) = Keeps-stop (IsExpr (limit v)) malformed_expr
  build_expr-IsExpr (list nil) = Keeps-stop (IsExpr (limit v)) malformed_expr
  build_expr-IsExpr (list (cons (list l) xs)) = Keeps-stop (IsExpr (limit v)) malformed_expr
  build_expr-IsExpr (list (cons (atom h) nil)) = Keeps-stop (IsExpr (limit v)) malformed_expr
  build_expr-IsExpr (list (cons (atom h) (cons (atom a) nil))) = build_leaf-IsExpr h a
  build_expr-IsExpr (list (cons (atom h) (cons (list l) nil))) =
      Keeps-stop (IsExpr (limit v)) malformed_expr
  build_expr-IsExpr (list (cons (atom h) (cons x (cons y (cons z zs))))) =
      Keeps-stop (IsExpr (limit v)) malformed_expr
  build_expr-IsExpr (list (cons (atom h) (cons x (cons y nil)))) =
      Keeps-if _ (eq_bytes h (codes "add")) _ _
        (λ _.
          Keeps-exprs (IsExpr (limit v)) (build_expr x) (build_expr y) e_add (build_expr-IsExpr x)
            (build_expr-IsExpr y) λ a b p q. (p, q))
        λ _.
          Keeps-if _ (eq_bytes h (codes "sub")) _ _
            (λ _.
              Keeps-exprs (IsExpr (limit v)) (build_expr x) (build_expr y) e_sub
                (build_expr-IsExpr x) (build_expr-IsExpr y) λ a b p q. (p, q))
            λ _. Keeps-stop (IsExpr (limit v)) malformed_expr

  pub build_comparison-IsPred :
      (h : Bytes) (l : Forms) → Keeps v (IsPred (limit v)) (build_comparison h l)
  unfolding build_comparison
  build_comparison-IsPred h nil = Keeps-stop (IsPred (limit v)) malformed_pred
  build_comparison-IsPred h (cons x nil) = Keeps-stop (IsPred (limit v)) malformed_pred
  build_comparison-IsPred h (cons x (cons y (cons z zs))) =
      Keeps-stop (IsPred (limit v)) malformed_pred
  build_comparison-IsPred h (cons x (cons y nil)) =
      let l = build_expr-IsExpr x in
      let r = build_expr-IsExpr y in
      Keeps-if _ (eq_bytes h (codes "le")) _ _
        (λ _.
          Keeps-exprs (IsPred (limit v)) (build_expr x) (build_expr y) p_le l r λ a b p q. (p, q))
        λ _.
          Keeps-if _ (eq_bytes h (codes "lt")) _ _
            (λ _.
              Keeps-exprs (IsPred (limit v)) (build_expr x) (build_expr y) p_lt l r
                λ a b p q. (p, q))
            λ _.
              Keeps-if _ (eq_bytes h (codes "eq")) _ _
                (λ _.
                  Keeps-exprs (IsPred (limit v)) (build_expr x) (build_expr y) p_eq l r
                    λ a b p q. (p, q))
                λ _. Keeps-stop (IsPred (limit v)) malformed_pred
