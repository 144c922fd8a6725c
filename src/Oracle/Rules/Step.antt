-- ===== src/Oracle/Rules/Step.antt =====
-- One event of a machine: its guard and transform, then the repair of the state until every
-- invariant holds. The functions F_setClamped to F_stepI of coq/goextract/oracle/oracle_gen.go.
pub mod Keeps
use normalization_confluence.Common.{
  zero, suc, Bool, true, false, not, Option, none, some, List, [], ◌∷◌, if◌then◌else◌,
}
use normalization_confluence.Common.Int.{ℤ, pos, negsuc}
use normalization_confluence.Common.Run.{Run, ok, panic, ◌>>=◌, not_a_nat}
use normalization_confluence.Oracle.Prims.{z_sub, z_mul, nat_sub, min64}
use normalization_confluence.Oracle.Lists.{nth, find, fold_left, length_run, repeat}
use normalization_confluence.Oracle.Loops.{forallb}
use normalization_confluence.Oracle.Positive.{to_nat_0}
use normalization_confluence.Oracle.Rules.{
  Expr, Pred, p_and, nil, Transform, Guarded, Machine, State, wr, eval_e, eval_p,
}

-- The raw value for a logical value, clamped into the domain of variable `i`.
unfoldable pub set_clamped : Machine → ℤ → ℤ → State → Run State
set_clamped m i v s = do
  low ← nth i m.mins (pos 0)
  d ← z_sub v low
  raw ← to_nat_0 d
  size ← nth i m.doms (pos 1)
  wr i (min64 raw (nat_sub size (pos 1))) s

unfoldable pub apply_t : Machine → Transform → State → Run State
apply_t m [] s = ok s
apply_t m ((i, e) ∷ rest) s = do v ← eval_e m.mins s e; s' ← set_clamped m i v s; apply_t m rest s'

unfoldable pub all_valid : Machine → State → Run Bool
all_valid m s = forallb (λ inv. eval_p m.mins s inv.0) m.invs

-- The test that F_repair1 hands to F_find.
abbrev pub violated : Machine → State → Guarded → Run Bool
violated m s inv = do b ← eval_p m.mins s inv.0; ok (not b)

-- The repair of the first invariant that does not hold.
unfoldable pub repair1 : Machine → State → Run State
repair1 m s = do
  first ← find (violated m s) m.invs
  elim first [ some inv ↦ apply_t m inv.1 s | none ↦ ok s ]

unfoldable pub normalize : Machine → ℤ → State → Run State
normalize m (negsuc _) s = panic not_a_nat
normalize m (pos zero) s = ok s
normalize m (pos (suc f)) s = do
  t ← all_valid m s
  elim t [ true ↦ ok s | false ↦ do s' ← repair1 m s; normalize m (pos f) s' ]

-- The number of states, which bounds the repairs: the product of the domains.
unfoldable pub fuel_of : Machine → Run ℤ
fuel_of m = fold_left z_mul m.doms (pos 1)

-- `if guard { apply } else { s }`
unfoldable pub gapp : Machine → Guarded → State → Run State
gapp m ge s = do t ← eval_p m.mins s ge.0; if t then apply_t m ge.1 s else ok s

unfoldable pub step_g : Machine → Guarded → State → Run State
step_g m ge s = do f ← fuel_of m; s' ← gapp m ge s; normalize m f s'

abbrev pub no_event : Guarded
no_event = (p_and nil, [])

unfoldable pub ev_at : Machine → ℤ → Run Guarded
ev_at m e = nth e m.evs no_event

unfoldable pub step_i : Machine → ℤ → State → Run State
step_i m e s = do ge ← ev_at m e; step_g m ge s

unfoldable pub zero_v : Machine → Run State
zero_v m = do k ← length_run m.doms; repeat (pos 0) k
