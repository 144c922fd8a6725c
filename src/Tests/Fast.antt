-- ===== src/Tests/Fast.antt =====
-- The oracles over lists, on a table of two states and on the machine `two_vars`.
use normalization_confluence.Common.{
  Option, Bool, List, true, false, none, [], ◌∷◌, ◌≡◌, refl, arith,
}
use normalization_confluence.Common.Int.{ℤ, pos}
use normalization_confluence.Common.Run.{Run, ok}
use normalization_confluence.Oracle.Rules.Compact.{box_t, enc, enc_a}
use normalization_confluence.Oracle.Rules.Listed.{
  cell_of, cells_r, check_cells, check_listed, check_build_t,
}
use normalization_confluence.Oracle.Fast.{
  zcell, cell_ok, passes, passes_after, bfa1, bfa_l, rpair_of, pair_ok_i, comm_i, starts_i,
  closed_i, state_ok_i, scan_i, hgroup, group_column, cells_b, cells, scan_cells, check_fast,
}
use normalization_confluence.Oracle.Fast.Sound.{nf_at, st_at, check_fast-check_fn}
use normalization_confluence.Oracle.Blocks.{map_t, map_a, zb, qget, bmap, dsel, pick}
use normalization_confluence.Oracle.Trie.{
  of_list_v, levels_v, zt_v, depth_f, pow_f, chunk, chunk_h, tl16, group, rev_append, tl, hd, len_t,
  hi16, vlook, vget, select, half,
}
use normalization_confluence.Oracle.TableFn.{check_fn, pairs_ok_w, pairs_of_t}
use normalization_confluence.Oracle.Loops.{all_pairs_t, pairs_all, pairs_row}
use normalization_confluence.Tests.Rules.{two_vars, rules_run}

-- F_check_fast; its line opens what a run of it computes with.
unfoldable pub fast_run : ℤ → ℤ → List ℤ → List (List ℤ) → Option (List (ℤ × ℤ)) → Run Bool
unfolding zcell cell_ok passes passes_after bfa1 bfa_l rpair_of pair_ok_i comm_i starts_i closed_i
    state_ok_i scan_i hgroup group_column cells_b cells scan_cells check_fast map_t map_a zb qget
    bmap dsel pick of_list_v levels_v zt_v depth_f pow_f chunk chunk_h tl16 group rev_append tl hd
    len_t hi16 vlook vget select half pairs_ok_w pairs_of_t all_pairs_t pairs_all pairs_row
    rules_run
fast_run n n_e nfl tl0 p = check_fast n n_e nfl tl0 p

-- Two events that lead to state 1, and one that leads to state 0 and does not commute with them.
check_fast_commuting :
    check_fast
      (pos 2)
      (pos 2)
      (pos 0 ∷ pos 1 ∷ [])
      ((pos 1 ∷ pos 1 ∷ []) ∷ (pos 1 ∷ pos 1 ∷ []) ∷ [])
      none
    ≡ ok true
unfolding fast_run
check_fast_commuting = refl

check_fast_other :
    check_fast
      (pos 2)
      (pos 2)
      (pos 0 ∷ pos 1 ∷ [])
      ((pos 1 ∷ pos 1 ∷ []) ∷ (pos 0 ∷ pos 0 ∷ []) ∷ [])
      none
    ≡ ok false
unfolding fast_run
check_fast_other = refl

check_fast_outside :
    check_fast (pos 2) (pos 1) (pos 0 ∷ pos 1 ∷ []) ((pos 1 ∷ pos 2 ∷ []) ∷ []) none ≡ ok false
unfolding fast_run
check_fast_outside = refl

check_build_t-two_vars : check_build_t two_vars none ≡ ok true
unfolding check_build_t check_listed check_cells cells_r cell_of box_t enc enc_a fast_run
check_build_t-two_vars = refl

check_fast-check_fn_example :
    check_fn (pos 2) (pos 2) (nf_at (0 ∷ 1 ∷ [])) (st_at ((1 ∷ 1 ∷ []) ∷ (1 ∷ 1 ∷ []) ∷ [])) none
    ≡ ok true
check_fast-check_fn_example =
    check_fast-check_fn (0 ∷ 1 ∷ []) ((1 ∷ 1 ∷ []) ∷ (1 ∷ 1 ∷ []) ∷ []) none (omega arith)
      (omega arith) (omega arith, (omega arith, tt)) tt check_fast_commuting
