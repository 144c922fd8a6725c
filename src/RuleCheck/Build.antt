-- ===== src/RuleCheck/Build.antt =====
-- The readers of coq/goextract/cmd/rulecheck/main.go from S-expressions to the machine of the rules
-- oracle: head, buildExpr, buildPred, buildTransform, ints and buildMachine.
pub mod Keeps
pub mod Rules
use normalization_confluence.Common.{
  ℕ, Bool, true, false, ◌||◌, not, List, [], ◌∷◌, ◌++◌, if◌then◌else◌, length, ◌==◌,
}
use normalization_confluence.Common.Int.{ℤ, pos, ltb_ℤ, ◌+ℤ◌, ◌-ℤ◌, ◌*ℤ◌, wrap64}
use normalization_confluence.Common.Text.{Bytes, codes, eq_bytes}
use normalization_confluence.Common.Result.{read, fail_input, fail_if}
use normalization_confluence.Oracle.Rules.{
  Expr, e_var, e_lit, e_add, e_sub, Pred, p_le, p_lt, p_eq, p_and, p_or, p_not, Preds, nil, cons,
  Assign, Transform, Guarded, Machine,
}
use normalization_confluence.Oracle.Rules.Step.{no_event}
use normalization_confluence.RuleCheck.Failures.{
  Failure, Parsed, malformed_expr, malformed_pred, malformed_transform, malformed_assign,
  not_integer, empty_domain, too_many_states, doms_twice, mins_twice, unknown_form, missing_doms,
  wrong_mins,
}
use normalization_confluence.RuleCheck.Sexp.{Sexp, Forms, atom, list}
use normalization_confluence.RuleCheck.Numbers.{exceeds, nat_of}
use normalization_confluence.RuleCheck.Building.{
  Globals, Building, ◌>>=◌, ◌>>◌, after, done, stop, lift, leave_fragment, set_nvars, value_of,
  var_index,
}

unfoldable pub build_leaf : Bytes → Bytes → Building Expr
unfolding eq_bytes
build_leaf h a =
    if eq_bytes h (codes "var")
    then (do i ← var_index a; done (e_var i))
    else if eq_bytes h (codes "lit")
    then (do n ← value_of a; done (e_lit n))
    else stop malformed_expr

unfoldable pub build_expr : Sexp → Building Expr
unfolding eq_bytes build_leaf
build_expr (list (Forms.cons (atom h) (Forms.cons x (Forms.cons y Forms.nil)))) =
    if eq_bytes h (codes "add")
    then (do a ← build_expr x; b ← build_expr y; done (e_add a b))
    else if eq_bytes h (codes "sub")
    then (do a ← build_expr x; b ← build_expr y; done (e_sub a b))
    else stop malformed_expr
build_expr (list (Forms.cons (atom h) (Forms.cons (atom a) Forms.nil))) = build_leaf h a
build_expr _ = stop malformed_expr

-- `le`, `lt` and `eq`.
unfoldable pub build_comparison : Bytes → Forms → Building Pred
unfolding eq_bytes build_expr
build_comparison h (Forms.cons x (Forms.cons y Forms.nil)) =
    if eq_bytes h (codes "le")
    then (do a ← build_expr x; b ← build_expr y; done (p_le a b))
    else if eq_bytes h (codes "lt")
    then (do a ← build_expr x; b ← build_expr y; done (p_lt a b))
    else if eq_bytes h (codes "eq")
    then (do a ← build_expr x; b ← build_expr y; done (p_eq a b))
    else stop malformed_pred
build_comparison h _ = stop malformed_pred

unfoldable mutual
  unfolding eq_bytes build_comparison

  pub build_pred : Sexp → Building Pred
  build_pred (list (Forms.cons (atom h) args)) =
      if eq_bytes h (codes "and")
      then (do ps ← build_preds args; done (p_and ps))
      else if eq_bytes h (codes "or")
      then (do ps ← build_preds args; done (p_or ps))
      else if eq_bytes h (codes "not")
      then build_not args
      else build_comparison h args
  build_pred _ = stop malformed_pred

  -- `preds`
  pub build_preds : Forms → Building Preds
  build_preds Forms.nil = done nil
  build_preds (Forms.cons x xs) = do p ← build_pred x; ps ← build_preds xs; done (cons p ps)

  pub build_not : Forms → Building Pred
  build_not (Forms.cons x Forms.nil) = do p ← build_pred x; done (p_not p)
  build_not _ = stop malformed_pred

unfoldable pub build_assigns : Forms → Building Transform
unfolding eq_bytes build_expr
build_assigns Forms.nil = done []
build_assigns
      (Forms.cons
        (list (Forms.cons (atom h) (Forms.cons (atom v) (Forms.cons e Forms.nil))))
        rest) =
    if eq_bytes h (codes "set")
    then (do i ← var_index v; x ← build_expr e; t ← build_assigns rest; done ((i, x) ∷ t))
    else stop malformed_assign
build_assigns _ = stop malformed_assign

unfoldable pub build_transform : Sexp → Building Transform
unfolding eq_bytes build_assigns
build_transform (list (Forms.cons (atom h) rest)) =
    if eq_bytes h (codes "do") then build_assigns rest else stop malformed_transform
build_transform _ = stop malformed_transform

unfoldable pub ints : (Bytes → Building ℤ) → Forms → Building (List ℤ)
ints conv Forms.nil = done []
ints conv (Forms.cons (list _) xs) = stop not_integer
ints conv (Forms.cons (atom a) xs) = do n ← conv a; ns ← ints conv xs; done (n ∷ ns)
