-- ===== src/Tests/Tables.antt =====
-- Command tablecheck and the table oracle on three states and two events: event 0 raises a state to
-- at least 1 and event 1 to 2, so they commute.
use mathlib.Core.List.Perm
use normalization_confluence.Common.{
  ◌≡◌, refl, Bool, true, none, some, List, [], ◌∷◌, arith, inl, inr, swap, ◌↔◌, In,
}
use normalization_confluence.Common.Int.{ℤ, pos, ◌+ℤ◌, ◌-ℤ◌, wrap64}
use normalization_confluence.Common.Run.{Run, ok, overflow_add}
use normalization_confluence.Common.Decides.{Decides}
use normalization_confluence.Common.Text.{Bytes, codes, fields, eq_bytes, all_digits, digits_value}
use normalization_confluence.Oracle.Prims.{z_add, nat_succ, nat_sub}
use normalization_confluence.Oracle.Prims.Exact.{exact_or, z_add-exact_or}
use normalization_confluence.Oracle.Loops.{all_k, forallb, pairs_row, pairs_all, all_pairs_t}
use normalization_confluence.Oracle.Loops.Pairs.{InTriangle, all_pairs_t_lem}
use normalization_confluence.Oracle.TableFn.{
  check_fn, pairs_of_t, pairs_ok_w, in_vf, in_df, pair_ok_f, comm_f, state_ok_f,
}
use normalization_confluence.Oracle.TableFn.Spec.{TablesOk}
use normalization_confluence.Oracle.TableFn.Decides.{check_fn-Decides}
use normalization_confluence.Oracle.TableFn.Converges.{run_events, check_fn_converges}
use normalization_confluence.Oracle.TableFn.Order.{check_fn-perm}
use normalization_confluence.Common.Disk.{Disk}
use normalization_confluence.TableCheck.{load, main}
use normalization_confluence.TableCheck.Exits.{verified, not_convergent}
use normalization_confluence.Common.Result.{Ensures, read}
use normalization_confluence.TableCheck.Accessors.{nf_a, st_a, st_a-IsNatural}
use normalization_confluence.TableCheck.Parse.{Tables, read_tables}
use normalization_confluence.TableCheck.Parse.Bounds.{IsWellFormed, read_tables-IsWellFormed}
use normalization_confluence.TableCheck.Guarantee.{Ends, main-Ends, main-verified_converges}

abbrev three : Tables
three = record {
  n = 3;
  n_e = 2;
  nf = 0 ∷ 1 ∷ 2 ∷ [];
  pairs = none;
  rows = (1 ∷ 1 ∷ 2 ∷ []) ∷ (2 ∷ 2 ∷ 2 ∷ []) ∷ [];
}

abbrev file : Bytes
file = codes "3 2\n1 1 2\n2 2 2\n"

-- Event 0 sets state 1 and event 1 sets state 2, so the last one wins and they do not commute.
abbrev bad_file : Bytes
bad_file = codes "gsm-tables 2 3 2 nf 0 1 2 pairs all 1 1 1 2 2 2"

abbrev disk_of : Bytes → Disk
disk_of b = record { stat = λ _. some 40; read_file = λ _. some b }

-- The oracle on parsed tables; its line opens what a run of it computes with.
oracle_run : Tables → Run Bool
unfolding check_fn pairs_ok_w pairs_of_t all_pairs_t pairs_all pairs_row all_k forallb state_ok_f
    in_vf in_df comm_f pair_ok_f nf_a st_a nat_succ nat_sub z_add wrap64 ◌+ℤ◌ ◌-ℤ◌ eq_bytes
    all_digits digits_value
oracle_run t = check_fn (pos t.n) (pos t.n_e) (nf_a t) (st_a t) t.pairs

check_three : check_fn (pos 3) (pos 2) (nf_a three) (st_a three) none ≡ ok true
unfolding oracle_run
check_three = refl

load-file : load (disk_of file) (codes "t") ≡ read three
unfolding load fields read_tables oracle_run
load-file = refl

main-file :
    main (disk_of file) (codes "tablecheck" ∷ codes "t" ∷ []) ≡ verified (pos 3) (pos 2) none
unfolding main fields read_tables oracle_run
main-file = refl

main-bad_file : main (disk_of bad_file) (codes "tablecheck" ∷ codes "t" ∷ []) ≡ not_convergent
unfolding main fields read_tables oracle_run
main-bad_file = refl

z_add-exact_or_example :
    z_add (pos 9223372036854775807) (pos 1)
    ≡ exact_or overflow_add (pos 9223372036854775807 +ℤ pos 1)
z_add-exact_or_example =
    z_add-exact_or (pos 9223372036854775807) (pos 1) (omega arith) (omega arith)

all_pairs_t_example :
    (l : List (ℤ × ℤ)) × (all_pairs_t (pos 3) ≡ ok l) × ((p : ℤ × ℤ) → In p l ↔ InTriangle 3 0 p)
all_pairs_t_example = all_pairs_t_lem 3 (omega arith)

check_fn-Decides_example :
    Decides
      (check_fn (pos 3) (pos 2) (nf_a three) (st_a three) none)
      (TablesOk 3 2 (nf_a three) (st_a three) none)
check_fn-Decides_example =
    check_fn-Decides 3 2 (nf_a three) (st_a three) none (omega arith) (omega arith)

check_fn_converges_example :
    run_events (st_a three) (0 ∷ 1 ∷ []) (pos 0) ≡ run_events (st_a three) (1 ∷ 0 ∷ []) (pos 0)
check_fn_converges_example =
    check_fn_converges 3 2 (nf_a three) (st_a three) none (omega arith) (omega arith)
      (st_a-IsNatural three) check_three
      (swap {xs = []} (inr (inl (0, 1, refl, omega arith, omega arith, omega arith)))) (omega arith)
      0 (omega arith, inr refl)

check_fn-perm_example :
    run_events (st_a three) (0 ∷ 1 ∷ 0 ∷ []) (pos 0)
    ≡ run_events (st_a three) (1 ∷ 0 ∷ 0 ∷ []) (pos 0)
check_fn-perm_example =
    check_fn-perm 3 2 (nf_a three) (st_a three) (omega arith) (omega arith) (st_a-IsNatural three)
      check_three (Perm.swap 1 0 (0 ∷ [])) (omega arith) 0 (omega arith, inr refl)

read_tables-IsWellFormed_example : Ensures IsWellFormed (read_tables (fields file))
read_tables-IsWellFormed_example = read_tables-IsWellFormed (fields file)

main-Ends_example :
    Ends
      (load (disk_of bad_file) (codes "t"))
      (main (disk_of bad_file) (codes "tablecheck" ∷ codes "t" ∷ []))
main-Ends_example = main-Ends (disk_of bad_file) (codes "tablecheck") (codes "t")

main-verified_converges_example :
    run_events (st_a three) (0 ∷ 1 ∷ []) (pos 0) ≡ run_events (st_a three) (1 ∷ 0 ∷ []) (pos 0)
main-verified_converges_example =
    main-verified_converges (disk_of file) (codes "tablecheck") (codes "t") three load-file
      main-file (swap {xs = []} (inr (inl (0, 1, refl, omega arith, omega arith, omega arith))))
      (omega arith) 0 (omega arith, inr refl)
