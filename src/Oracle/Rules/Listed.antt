-- ===== src/Oracle/Rules/Listed.antt =====
-- The rules oracle over a list of the states: F_checkBuildT of coq/goextract/oracle/oracle_gen.go, with
-- the cells that it makes of the states of a machine (F_cellOf, F_cellsR).
use normalization_confluence.Common.{Bool, true, false, Option, List, [], ◌∷◌}
use normalization_confluence.Common.Int.{ℤ, pos}
use normalization_confluence.Common.Run.{Run, ok, ◌>>=◌, and_run}
use normalization_confluence.Oracle.Prims.{nat_succ}
use normalization_confluence.Oracle.Loops.{forallb}
use normalization_confluence.Oracle.Trie.{len_t, rev_append, chunk, of_list_v, vlook}
use normalization_confluence.Oracle.Blocks.{b16, map_t}
use normalization_confluence.Oracle.Fast.{Cell, scan_cells}
use normalization_confluence.Oracle.Rules.{Machine, State}
use normalization_confluence.Oracle.Rules.Step.{all_valid, normalize, fuel_of, gapp}
use normalization_confluence.Oracle.Rules.Build.{bounded, sign_safe}
use normalization_confluence.Oracle.Rules.Compact.{enc, box_t}

unfoldable pub cell_of : Machine → (ℤ → Run ℤ) → ℤ → State → Run Cell
unfolding map_t enc chunk
cell_of m look s v = do
  nf ← look s
  steps ← map_t (λ ge. do u ← gapp m ge v; j ← enc m.doms u; look j) m.evs
  col ← chunk b16 (pos 0) steps
  ok (record { lk = s; lnf = nf; lcol = col })

unfoldable pub cells_r : Machine → (ℤ → Run ℤ) → ℤ → List State → List Cell → Run (List Cell)
unfolding cell_of rev_append
cells_r m look s [] acc = ok (rev_append acc [])
cells_r m look s (v ∷ t) acc = do
  s' ← nat_succ s
  c ← cell_of m look s v
  cells_r m look s' t (c ∷ acc)

-- F_checkBuildT after its test that every repaired state is valid, on the list of these states.
unfoldable pub check_cells : Machine → Option (List (ℤ × ℤ)) → List State → List State → Run Bool
unfolding len_t map_t enc of_list_v vlook cells_r scan_cells
check_cells m p bx nv = do
  n ← len_t bx (pos 0)
  n_e ← len_t m.evs (pos 0)
  numbers ← map_t (enc m.doms) nv
  t ← of_list_v (pos 0) numbers
  cs ← cells_r m (vlook (pos 0) t) (pos 0) bx []
  scan_cells n n_e cs p

-- F_checkBuildT after its tests of the machine.
unfoldable pub check_listed : Machine → Option (List (ℤ × ℤ)) → Run Bool
unfolding box_t map_t check_cells
check_listed m p = do
  bx ← box_t m.doms
  f ← fuel_of m
  nv ← map_t (normalize m f) bx
  valid ← forallb (all_valid m) nv
  elim valid [ true ↦ check_cells m p bx nv | false ↦ ok false ]

unfoldable pub check_build_t : Machine → Option (List (ℤ × ℤ)) → Run Bool
unfolding check_listed
check_build_t m p = do
  safe ← and_run (bounded m) (sign_safe m)
  elim safe [ true ↦ check_listed m p | false ↦ ok false ]
