-- ===== src/Oracle/Rules.antt =====
-- The rules oracle of coq/goextract/oracle/oracle_gen.go: machines as data, and the evaluation of
-- their rules. A state is the list of the raw values of the variables.
pub mod Step
pub mod Box
pub mod Build
pub mod Compact
pub mod Listed
use normalization_confluence.Common.{zero, suc, Bool, true, false, not, List, [], ◌∷◌}
use normalization_confluence.Common.Int.{ℤ, pos, negsuc, leb_ℤ, ltb_ℤ}
use normalization_confluence.Common.Run.{Run, ok, panic, ◌>>=◌, and_run, not_a_nat}
use normalization_confluence.Oracle.Prims.{z_add, z_sub}
use normalization_confluence.Oracle.Lists.{nth}
use normalization_confluence.Oracle.Positive.{nat_z, eqb_0}

pub data Expr : Type 0 where
  e_var e_lit : ℤ → Expr
  e_add e_sub : Expr → Expr → Expr

-- I_pred, and I_list at *I_pred.
mutual
  pub data Pred : Type 0 where
    p_le p_lt p_eq : Expr → Expr → Pred
    p_and p_or : Preds → Pred
    p_not : Pred → Pred

  pub data Preds : Type 0 where
    nil : Preds
    cons : Pred → Preds → Preds

abbrev pub Assign : Type 0
Assign = ℤ × Expr

abbrev pub Transform : Type 0
Transform = List Assign

-- An invariant with its repair, or an event with its guard.
abbrev pub Guarded : Type 0
Guarded = Pred × Transform

pub record Machine : Type 0 where
  pub doms : List ℤ
  pub mins : List ℤ
  pub invs : List Guarded
  pub evs : List Guarded

abbrev pub State : Type 0
State = List ℤ

-- The raw value of variable `i`; 0 past the end.
unfoldable pub rd : ℤ → State → Run ℤ
rd i [] = ok (pos 0)
rd (negsuc _) (x ∷ s) = panic not_a_nat
rd (pos zero) (x ∷ s) = ok x
rd (pos (suc i)) (x ∷ s) = rd (pos i) s

-- The state with variable `i` set; past the end nothing changes.
unfoldable pub wr : ℤ → ℤ → State → Run State
wr i v [] = ok []
wr (negsuc _) v (x ∷ s) = panic not_a_nat
wr (pos zero) v (x ∷ s) = ok (v ∷ s)
wr (pos (suc i)) v (x ∷ s) = do t ← wr (pos i) v s; ok (x ∷ t)

-- The value of an expression: a variable is its minimum plus its raw value.
unfoldable pub eval_e : List ℤ → State → Expr → Run ℤ
eval_e mins s (e_var i) = do low ← nth i mins (pos 0); r ← rd i s; raw ← nat_z r; z_add low raw
eval_e mins s (e_lit n) = ok n
eval_e mins s (e_add a b) = do x ← eval_e mins s a; y ← eval_e mins s b; z_add x y
eval_e mins s (e_sub a b) = do x ← eval_e mins s a; y ← eval_e mins s b; z_sub x y

unfoldable mutual
  pub eval_p : List ℤ → State → Pred → Run Bool
  eval_p mins s (p_le a b) = do x ← eval_e mins s a; y ← eval_e mins s b; ok (leb_ℤ x y)
  eval_p mins s (p_lt a b) = do x ← eval_e mins s a; y ← eval_e mins s b; ok (ltb_ℤ x y)
  eval_p mins s (p_eq a b) = do x ← eval_e mins s a; y ← eval_e mins s b; eqb_0 x y
  eval_p mins s (p_and ps) = eval_all mins s ps
  eval_p mins s (p_or ps) = eval_any mins s ps
  eval_p mins s (p_not p) = do b ← eval_p mins s p; ok (not b)

  -- F_forallb at *I_pred
  pub eval_all : List ℤ → State → Preds → Run Bool
  eval_all mins s nil = ok true
  eval_all mins s (cons p ps) = do
    t ← eval_p mins s p
    elim t [ false ↦ ok false | true ↦ eval_all mins s ps ]

  -- F_existsb at *I_pred
  pub eval_any : List ℤ → State → Preds → Run Bool
  eval_any mins s nil = ok false
  eval_any mins s (cons p ps) = do
    t ← eval_p mins s p
    elim t [ true ↦ ok true | false ↦ eval_any mins s ps ]
