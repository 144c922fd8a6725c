-- ===== src/Oracle/Rules/Build.antt =====
-- The checks of a machine from its rules: F_bounded, F_signSafe, F_wfc, F_pairsOkA, F_ccA,
-- F_compensationFree and F_checkBuild of coq/goextract/oracle/oracle_gen.go.
pub mod Sound
pub mod Converges
pub mod Order
pub mod Bounds
pub mod Total
pub mod Runs
pub mod Enclosed
pub mod Signs
use normalization_confluence.Common.{
  Bool, true, false, not, Option, none, some, List, [], ◌∷◌, ◌++◌, if◌then◌else◌,
}
use normalization_confluence.Common.Int.{ℤ, pos, negsuc, leb_ℤ, ltb_ℤ, eqb_ℤ}
use normalization_confluence.Common.Run.{Run, ok, panic, ◌>>=◌, and_run}
use normalization_confluence.Oracle.Prims.{z_add, z_sub, z_abs, max64}
use normalization_confluence.Oracle.Lists.{nth, length_run, all_pairs, map_run, flat_map}
use normalization_confluence.Oracle.Loops.{forallb}
use normalization_confluence.Oracle.Positive.{nat_z, eqb_0}
use normalization_confluence.Oracle.Rules.{
  Expr, e_var, e_lit, e_add, e_sub, Pred, p_le, p_lt, p_eq, p_and, p_or, p_not, Preds, nil, cons,
  Assign, Transform, Guarded, Machine, State,
}
use normalization_confluence.Oracle.Rules.Box.{box, valeqb}
use normalization_confluence.Oracle.Rules.Step.{all_valid, normalize, fuel_of, step_i, zero_v}

abbrev pub max_abs : ℤ
max_abs = pos 2147483647

-- The largest absolute value of variable `i`.
unfoldable pub var_bound : Machine → ℤ → Run ℤ
var_bound m i = do
  low ← nth i m.mins (pos 0)
  a ← z_abs low
  size ← nth i m.doms (pos 0)
  k ← nat_z size
  t ← z_add low k
  top ← z_sub t (pos 1)
  b ← z_abs top
  ok (max64 a b)

-- A bound on the absolute value of an expression and of its parts.
unfoldable pub bnd : Machine → Expr → Run ℤ
bnd m (e_var i) = var_bound m i
bnd m (e_lit n) = z_abs n
bnd m (e_add a b) = do x ← bnd m a; y ← bnd m b; z_add x y
bnd m (e_sub a b) = do x ← bnd m a; y ← bnd m b; z_add x y

unfoldable mutual
  pub exprs_p : Pred → List Expr
  exprs_p (p_le a b) = a ∷ b ∷ []
  exprs_p (p_lt a b) = a ∷ b ∷ []
  exprs_p (p_eq a b) = a ∷ b ∷ []
  exprs_p (p_and ps) = exprs_ps ps
  exprs_p (p_or ps) = exprs_ps ps
  exprs_p (p_not q) = exprs_p q

  -- F_flat_map at F_exprsP
  pub exprs_ps : Preds → List Expr
  exprs_ps nil = []
  exprs_ps (cons p ps) = exprs_p p ++ exprs_ps ps

unfoldable pub exprs_t : Transform → List Expr
exprs_t [] = []
exprs_t (a ∷ t) = a.1 ∷ exprs_t t

-- F_flat_map at the expressions of an invariant or event.
unfoldable pub exprs_g : List Guarded → List Expr
exprs_g [] = []
exprs_g (g ∷ gs) = (exprs_p g.0 ++ exprs_t g.1) ++ exprs_g gs

unfoldable pub exprs_m : Machine → List Expr
unfolding exprs_g
exprs_m m = exprs_g m.invs ++ exprs_g m.evs

-- The callback of F_bounded.
abbrev pub within_max : Machine → Expr → Run Bool
within_max m e = do b ← bnd m e; ok (leb_ℤ b max_abs)

unfoldable pub bounded : Machine → Run Bool
bounded m = forallb (within_max m) (exprs_m m)

unfoldable mutual
  pub lo : Machine → Expr → Run ℤ
  lo m (e_var i) = nth i m.mins (pos 0)
  lo m (e_lit n) = ok n
  lo m (e_add a b) = do x ← lo m a; y ← lo m b; z_add x y
  lo m (e_sub a b) = do x ← lo m a; y ← hi m b; z_sub x y

  pub hi : Machine → Expr → Run ℤ
  hi m (e_var i) = do
    low ← nth i m.mins (pos 0)
    size ← nth i m.doms (pos 1)
    k ← nat_z size
    t ← z_add low k
    z_sub t (pos 1)
  hi m (e_lit n) = ok n
  hi m (e_add a b) = do x ← hi m a; y ← hi m b; z_add x y
  hi m (e_sub a b) = do x ← hi m a; y ← lo m b; z_sub x y

-- A variable with two values and minimum 0.
unfoldable pub binary_var : Machine → ℤ → Run Bool
binary_var m i = do
  size ← nth i m.doms (pos 0)
  if eqb_ℤ size (pos 2) then (nth i m.mins (pos 0) >>= λ low. eqb_0 low (pos 0)) else ok false

-- An assignment to a binary variable writes no negative value: the callback of F_signSafeT.
unfoldable pub write_safe : Machine → Assign → Run Bool
write_safe m a = do b ← binary_var m a.0; low ← lo m a.1; ok (if b then leb_ℤ (pos 0) low else true)

unfoldable pub sign_safe_t : Machine → Transform → Run Bool
sign_safe_t m t = forallb (write_safe m) t

-- F_map at F_snd.
unfoldable pub seconds : List Guarded → List Transform
seconds [] = []
seconds (g ∷ gs) = g.1 ∷ seconds gs

unfoldable pub transforms_m : Machine → List Transform
unfolding seconds
transforms_m m = seconds m.invs ++ seconds m.evs

unfoldable pub sign_safe : Machine → Run Bool
sign_safe m = forallb (sign_safe_t m) (transforms_m m)

-- Repair from `v` reaches a valid state: the callback of F_wfc.
unfoldable pub settles : Machine → State → Run Bool
settles m v = do f ← fuel_of m; s ← normalize m f v; all_valid m s

unfoldable pub wfc : Machine → Run Bool
wfc m = do vs ← box m.doms; forallb (settles m) vs

unfoldable pub compensation_free : Machine → Run Bool
compensation_free m = do vs ← box m.doms; forallb (all_valid m) vs

unfoldable pub in_da : Machine → State → Run Bool
in_da m v = do t ← all_valid m v; if t then ok true else (zero_v m >>= λ z. ok (valeqb v z))

unfoldable pub pairs_a : Machine → Option (List (ℤ × ℤ)) → Run (List (ℤ × ℤ))
pairs_a m (some l) = ok l
pairs_a m none = do k ← length_run m.evs; all_pairs k

unfoldable pub pairs_ok_a : Machine → Option (List (ℤ × ℤ)) → Run Bool
pairs_ok_a m p = do
  l ← pairs_a m p
  forallb
      (λ q. do
        k ← length_run m.evs
        if ltb_ℤ q.0 k then (length_run m.evs >>= λ k'. ok (ltb_ℤ q.1 k')) else ok false)
      l

-- Both orders of a pair of events lead `v` to the same state.
unfoldable pub pair_ok_a : Machine → State → ℤ × ℤ → Run Bool
pair_ok_a m v q = do
  s ← step_i m q.1 v
  s' ← step_i m q.0 s
  t ← step_i m q.0 v
  t' ← step_i m q.1 t
  ok (valeqb s' t')

-- Every declared pair commutes at `v`, if events may start there: the callback of F_ccA.
unfoldable pub commutes_at : Machine → Option (List (ℤ × ℤ)) → State → Run Bool
commutes_at m p v = do
  start ← in_da m v
  l ← pairs_a m p
  c ← forallb (pair_ok_a m v) l
  ok (if start then c else true)

unfoldable pub cc_a : Machine → Option (List (ℤ × ℤ)) → Run Bool
cc_a m p = do vs ← box m.doms; forallb (commutes_at m p) vs

unfoldable pub check_build : Machine → Option (List (ℤ × ℤ)) → Run Bool
check_build m p =
    and_run (and_run (and_run (and_run (bounded m) (sign_safe m)) (pairs_ok_a m p)) (wfc m))
      (cc_a m p)
