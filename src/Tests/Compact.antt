-- ===== src/Tests/Compact.antt =====
-- The compact rules oracle on the machine `two_vars`, and the tries on a list of three numbers.
use normalization_confluence.Common.{
  Option, Bool, List, true, get_or, ◌≡◌, refl, none, [], ◌∷◌, length, arith, ℕ, ◌<◌, ◌↔◌,
}
use normalization_confluence.Common.Run.{Run, ◌>>=◌, ok}
use normalization_confluence.Oracle.Rules.{Machine, State}
use normalization_confluence.Oracle.Rules.Build.{check_build, wfc}
use normalization_confluence.Oracle.Rules.Compact.Tables.{IsSmallMachine}
use normalization_confluence.Oracle.Rules.Compact.Sound.{check_build_c-check_build}
use normalization_confluence.Oracle.Trie.Contents.{of_list_v-vlook}
use normalization_confluence.Common.Int.{ℤ, pos}
use normalization_confluence.Oracle.Rules.Compact.{
  check_build_c, check_passes, check_tables, fold_b, split_suf, split_at, box_t, prod_l, fold_d,
  loop_d, p1, p2, col_onto, enc, enc_a,
}
use normalization_confluence.Oracle.Rules.Compact.Visits.{fold_b-visit}
use normalization_confluence.Oracle.Rules.Compact.Numbering.{enc-box_t}
use normalization_confluence.Oracle.Rules.Compact.Lookup.{fold_b-vlook}
use normalization_confluence.Oracle.Rules.Step.{normalize, all_valid, fuel_of}
use normalization_confluence.Oracle.Rules.Compact.Agrees.{wfc-fold_b}
use normalization_confluence.Oracle.Packed.{
  scan_c, state_ok_c, starts_c, comm_c, pair_ok_c, cpair_of, align_v, rdj, view_of, blocks_from,
}
use normalization_confluence.Oracle.Blocks.{
  map_t, map_a, rev_map, upto, sfx, zb, split_j, rdq, qget, align_n, bmap, realign, dsel_h, dsel,
  pick,
}
use normalization_confluence.Oracle.Trie.{
  of_list_v, levels_v, zt_v, depth_f, pow_f, chunk, chunk_h, tl16, group, rev_append, tl, hd, len_t,
  hi16, vlook, vget, select, half,
}
use normalization_confluence.Oracle.TableFn.{pairs_ok_w, pairs_of_t}
use normalization_confluence.Oracle.Loops.{all_pairs_t, pairs_all, pairs_row, all_k}
use normalization_confluence.Tests.Rules.{two_vars, rules_run}

-- F_checkBuildC; its line opens what a run of it computes with.
unfoldable pub compact_run : Machine → Option (List (ℤ × ℤ)) → Run Bool
unfolding check_build_c check_passes check_tables fold_b split_suf split_at box_t prod_l fold_d
    loop_d p1 p2 col_onto enc enc_a scan_c state_ok_c starts_c comm_c pair_ok_c cpair_of align_v rdj
    view_of blocks_from map_t map_a rev_map upto sfx zb split_j rdq qget align_n bmap realign dsel_h
    dsel pick of_list_v levels_v zt_v depth_f pow_f chunk chunk_h tl16 group rev_append tl hd len_t
    hi16 vlook vget select half pairs_ok_w pairs_of_t all_pairs_t pairs_all pairs_row all_k
    rules_run
compact_run m p = check_build_c m p

compact_two_vars : check_build_c two_vars none ≡ ok true
unfolding compact_run
compact_two_vars = refl

-- The states of two variables, put in front of a list one after the other.
fold_b-visit_example :
    fold_b (pos 2 ∷ pos 2 ∷ []) (λ w l. ok (w ∷ l)) []
    ≡ ok (
        (pos 0 ∷ pos 0 ∷ [])
        ∷ (pos 0 ∷ pos 1 ∷ [])
        ∷ (pos 1 ∷ pos 0 ∷ [])
        ∷ (pos 1 ∷ pos 1 ∷ [])
        ∷ [])
fold_b-visit_example =
    fold_b-visit (pos 2 ∷ pos 2 ∷ []) (λ w l. ok (w ∷ l)) []
      ((2, refl, omega arith, omega arith), ((2, refl, omega arith, omega arith), tt))

enc-box_t_example :
    (ws : List State) × (i : ℕ) × (box_t (pos 2 ∷ pos 3 ∷ []) ≡ ok ws)
    × (i < length ws)
    × (get_or ws i [] ≡ pos 1 ∷ pos 2 ∷ [])
    × (enc (pos 2 ∷ pos 3 ∷ []) (pos 1 ∷ pos 2 ∷ []) ≡ ok (pos i))
enc-box_t_example =
    enc-box_t (pos 2 ∷ pos 3 ∷ []) (pos 1 ∷ pos 2 ∷ [])
      ((2, refl, omega arith, omega arith), ((3, refl, omega arith, omega arith), tt)) (omega arith)
      (omega arith)

-- The numbers of the repaired states: 1, 0 repairs to 1, 1, which is state 4.
abbrev repaired : List ℤ
repaired = pos 0 ∷ pos 1 ∷ pos 2 ∷ pos 4 ∷ pos 4 ∷ pos 5 ∷ []

pass_two_vars : fold_b two_vars.doms (p1 two_vars (pos 6)) (true, []) ≡ ok (true, repaired)
unfolding fold_b split_suf split_at box_t prod_l fold_d loop_d p1 enc enc_a rev_append rules_run
pass_two_vars = refl

fold_b-vlook_example :
    (i : ℤ) × (n : ℤ) × (enc two_vars.doms (pos 1 ∷ pos 0 ∷ []) ≡ ok i)
    × ((w : State) × (normalize two_vars (pos 6) (pos 1 ∷ pos 0 ∷ []) ≡ ok w)
        × (all_valid two_vars w ≡ ok true)
        × (enc two_vars.doms w ≡ ok n))
    × ((of_list_v (pos 0) repaired >>= λ t. vlook (pos 0) t i) ≡ ok n)
fold_b-vlook_example =
    fold_b-vlook two_vars (pos 6) repaired (pos 1 ∷ pos 0 ∷ [])
      ((2, refl, omega arith, omega arith), ((3, refl, omega arith, omega arith), tt)) (omega arith)
      pass_two_vars (omega arith)

fuel_two_vars : fuel_of two_vars ≡ ok (pos 6)
unfolding rules_run
fuel_two_vars = refl

wfc-fold_b_example :
    (wfc two_vars ≡ ok true)
    ↔ ((l : List ℤ) × (fold_b two_vars.doms (p1 two_vars (pos 6)) (true, []) ≡ ok (true, l)))
wfc-fold_b_example =
    wfc-fold_b two_vars (pos 6)
      ((2, refl, omega arith, omega arith), ((3, refl, omega arith, omega arith), tt)) (omega arith)
      fuel_two_vars

two_vars-IsSmallMachine : IsSmallMachine two_vars
two_vars-IsSmallMachine = record {
  domains = ((2, refl, omega arith, omega arith), ((3, refl, omega arith, omega arith), tt));
  few_states = omega arith;
  few_events = omega arith;
  few_variables = omega arith;
}

check_build_c-check_build_example : check_build two_vars none ≡ ok true
check_build_c-check_build_example =
    check_build_c-check_build two_vars none two_vars-IsSmallMachine tt compact_two_vars

abbrev three : List ℤ
three = pos 5 ∷ pos 7 ∷ pos 9 ∷ []

of_list_v-vlook_example :
    (of_list_v (pos 0) three >>= λ t. vlook (pos 0) t (pos 2)) ≡ ok (get_or three 2 (pos 0))
of_list_v-vlook_example = of_list_v-vlook (pos 0) three 2 (omega arith)
