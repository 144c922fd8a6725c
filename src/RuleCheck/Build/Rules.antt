-- ===== src/RuleCheck/Build/Rules.antt =====
-- The conditions and transforms that the readers of coq/goextract/cmd/rulecheck/main.go accept.
use normalization_confluence.Common.{◌∷◌, All}
use normalization_confluence.Common.Int.{ℤ}
use normalization_confluence.Common.Text.{Bytes, codes, eq_bytes}
use normalization_confluence.Oracle.Rules.{p_and, p_or, p_not, Preds}
use normalization_confluence.RuleCheck.Failures.{
  malformed_pred, malformed_transform, malformed_assign, not_integer,
}
use normalization_confluence.RuleCheck.Sexp.{Sexp, Forms, atom, list, nil, cons}
use normalization_confluence.RuleCheck.Building.{Building, stop, var_index}
use normalization_confluence.RuleCheck.Building.Keeps.{
  Keeps, Keeps->>=, Keeps-if, limit, IsBelow, var_index-IsBelow,
}
use normalization_confluence.RuleCheck.Build.{
  build_expr, build_pred, build_preds, build_not, build_assigns, build_transform, ints,
}
use normalization_confluence.RuleCheck.Build.Keeps.{
  IsExpr, IsPred, ArePreds, IsTransform, Keeps-stop, Keeps-both, Keeps-one, build_expr-IsExpr,
  build_comparison-IsPred,
}

module _ (v : ℤ) where
  bad-IsPred : Keeps v (IsPred (limit v)) (stop malformed_pred)
  bad-IsPred = Keeps-stop v (IsPred (limit v)) malformed_pred

  bad_assign-IsTransform : Keeps v (IsTransform (limit v)) (stop malformed_assign)
  bad_assign-IsTransform = Keeps-stop v (IsTransform (limit v)) malformed_assign

  bad-IsTransform : Keeps v (IsTransform (limit v)) (stop malformed_transform)
  bad-IsTransform = Keeps-stop v (IsTransform (limit v)) malformed_transform

mutual
  unfolding build_pred

  pub build_pred-IsPred : (v : ℤ) (x : Sexp) → Keeps v (IsPred (limit v)) (build_pred x)
  build_pred-IsPred v (atom a) = bad-IsPred v
  build_pred-IsPred v (list nil) = bad-IsPred v
  build_pred-IsPred v (list (cons (list l) xs)) = bad-IsPred v
  build_pred-IsPred v (list (cons (atom h) args)) =
      Keeps-if _ (eq_bytes h (codes "and")) _ _
        (λ _.
          Keeps-one v (ArePreds (limit v)) (IsPred (limit v)) (build_preds args) p_and
            (build_preds-ArePreds v args) λ _ q. q)
        λ _.
          Keeps-if _ (eq_bytes h (codes "or")) _ _
            (λ _.
              Keeps-one v (ArePreds (limit v)) (IsPred (limit v)) (build_preds args) p_or
                (build_preds-ArePreds v args) λ _ q. q)
            λ _.
              Keeps-if _ (eq_bytes h (codes "not")) _ _ (λ _. build_not-IsPred v args)
                λ _. build_comparison-IsPred v h args

  build_preds-ArePreds : (v : ℤ) (l : Forms) → Keeps v (ArePreds (limit v)) (build_preds l)
  build_preds-ArePreds v nil = λ g e. (tt, e)
  build_preds-ArePreds v (cons x xs) =
      Keeps-both v (IsPred (limit v)) (ArePreds (limit v)) (ArePreds (limit v)) (build_pred x)
        (build_preds xs) Preds.cons (build_pred-IsPred v x) (build_preds-ArePreds v xs)
        λ p ps q q'. (q, q')

  build_not-IsPred : (v : ℤ) (l : Forms) → Keeps v (IsPred (limit v)) (build_not l)
  build_not-IsPred v nil = bad-IsPred v
  build_not-IsPred v (cons x (cons y ys)) = bad-IsPred v
  build_not-IsPred v (cons x nil) =
      Keeps-one v (IsPred (limit v)) (IsPred (limit v)) (build_pred x) p_not (build_pred-IsPred v x)
        λ _ q. q

build_assigns-IsTransform : (v : ℤ) (l : Forms) → Keeps v (IsTransform (limit v)) (build_assigns l)
unfolding build_assigns
build_assigns-IsTransform v nil = λ g e. (tt, e)
build_assigns-IsTransform v (cons (atom a) xs) = bad_assign-IsTransform v
build_assigns-IsTransform v (cons (list nil) xs) = bad_assign-IsTransform v
build_assigns-IsTransform v (cons (list (cons (list l) ys)) xs) = bad_assign-IsTransform v
build_assigns-IsTransform v (cons (list (cons (atom h) nil)) xs) = bad_assign-IsTransform v
build_assigns-IsTransform v (cons (list (cons (atom h) (cons (list l) ys))) xs) =
    bad_assign-IsTransform v
build_assigns-IsTransform v (cons (list (cons (atom h) (cons (atom i) nil))) xs) =
    bad_assign-IsTransform v
build_assigns-IsTransform v (cons (list (cons (atom h) (cons (atom i) (cons x (cons y ys))))) xs) =
    bad_assign-IsTransform v
build_assigns-IsTransform v (cons (list (cons (atom h) (cons (atom i) (cons x nil)))) xs) =
    Keeps-if (IsTransform (limit v)) (eq_bytes h (codes "set")) _ _
      (λ _.
        Keeps->>= (IsBelow (limit v)) (IsTransform (limit v)) (var_index i) _
          (var_index-IsBelow v i)
          λ k below.
            Keeps-both v (IsExpr (limit v)) (IsTransform (limit v)) (IsTransform (limit v))
              (build_expr x) (build_assigns xs) (λ e t. (k, e) ∷ t) (build_expr-IsExpr v x)
              (build_assigns-IsTransform v xs) λ e t q q'. ((below, q), q'))
      λ _. bad_assign-IsTransform v

pub build_transform-IsTransform :
    (v : ℤ) (x : Sexp) → Keeps v (IsTransform (limit v)) (build_transform x)
unfolding build_transform
build_transform-IsTransform v (atom a) = bad-IsTransform v
build_transform-IsTransform v (list nil) = bad-IsTransform v
build_transform-IsTransform v (list (cons (list l) xs)) = bad-IsTransform v
build_transform-IsTransform v (list (cons (atom h) xs)) =
    Keeps-if (IsTransform (limit v)) (eq_bytes h (codes "do")) _ _
      (λ _. build_assigns-IsTransform v xs) λ _. bad-IsTransform v

-- The entries that `ints` reads have what its reader of one entry gives them.
pub ints-All :
    (v : ℤ) (P : ℤ → Type 0) (conv : Bytes → Building ℤ) (l : Forms)
    → ((s : Bytes) → Keeps v P (conv s))
    → Keeps v (All P) (ints conv l)
unfolding ints
ints-All v P conv nil h = λ g e. (tt, e)
ints-All v P conv (cons (list _) xs) h = Keeps-stop v (All P) not_integer
ints-All v P conv (cons (atom a) xs) h =
    Keeps-both v P (All P) (All P) (conv a) (ints conv xs) (λ n ns. n ∷ ns) (h a)
      (ints-All v P conv xs h) λ n ns q q'. (q, q')
