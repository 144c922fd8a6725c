-- ===== src/Tests/Rules.antt =====
-- The rules oracle on a machine of two variables, a in 0..1 and b in 0..2, with the invariant a ≤ b,
-- repaired by b := a, and the events a := 1 and b := 2, which commute.
use mathlib.Core.List.Perm
use normalization_confluence.Common.{
  ◌≤◌, ◌≡◌, refl, Bool, true, false, Option, none, some, List, [], ◌∷◌, arith, inl, inr, swap, ◌↔◌,
  In,
}
use normalization_confluence.Common.Int.{◌≤ℤ◌, ℤ, pos, negsuc, ◌+ℤ◌, ◌-ℤ◌, ◌*ℤ◌, wrap64}
use normalization_confluence.Common.Run.{Run, ok, overflow_mul}
use normalization_confluence.Oracle.Prims.{
  z_add, z_sub, z_mul, z_opp, z_abs, div64, nat_succ, nat_sub, nat_div2, min_int64,
}
use normalization_confluence.Oracle.Prims.Exact.{exact_or}
use normalization_confluence.Oracle.Prims.Product.{z_mul-exact_or}
use normalization_confluence.Oracle.Loops.{forallb}
use normalization_confluence.Oracle.Lists.{
  nth, find, repeat, length_run, map_run, flat_map, fold_left, seq, pairs_from, all_pairs,
}
use normalization_confluence.Oracle.Positive.{eqb, iter_op, to_nat, to_nat_0, eqb_0, nat_z_f, nat_z}
use normalization_confluence.Oracle.Positive.Exact.{to_nat_0-exact, eqb_0-exact, nat_z-exact}
use normalization_confluence.Oracle.Lists.Members.{all_pairs_lem}
use normalization_confluence.Oracle.Loops.Pairs.{InTriangle}
use normalization_confluence.Oracle.Rules.Step.Keeps.{step_i-InRange}
use normalization_confluence.Oracle.Rules.Build.Sound.{
  IsSettled, MayStart, check_build-settles, check_build-commute, compensation_free-normalize,
}
use normalization_confluence.Oracle.Rules.Build.Converges.{
  run_steps, check_build_converges, step_i-IsSettled,
}
use normalization_confluence.Oracle.Prims.Within.{abs}
use normalization_confluence.Oracle.Rules.Build.Bounds.{LiteralsI64, bounded-IsWithin}
use normalization_confluence.Oracle.Rules.Build.Signs.{sign_safe-nonneg}
use normalization_confluence.Oracle.Rules.Build.Total.{IsBuildable}
use normalization_confluence.Oracle.Rules.Build.Runs.{step_i-total, check_build-runs}
use normalization_confluence.Oracle.Rules.Build.Order.{check_build-perm}
use normalization_confluence.Oracle.Rules.{
  Expr, Machine, State, e_var, e_lit, p_le, p_lt, p_and, nil, rd, wr, eval_e, eval_p, eval_all,
  eval_any,
}
use normalization_confluence.Oracle.Rules.Box.{box, layer, prepend_all, valeqb}
use normalization_confluence.Oracle.Rules.Box.Range.{InRange, box-InRange}
use normalization_confluence.Oracle.Rules.Step.{
  set_clamped, apply_t, all_valid, repair1, normalize, fuel_of, gapp, step_g, ev_at, step_i, zero_v,
}
use normalization_confluence.Oracle.Rules.Build.{
  var_bound, bnd, exprs_p, exprs_ps, exprs_t, exprs_g, exprs_m, bounded, lo, hi, binary_var,
  write_safe, seconds, sign_safe_t, transforms_m, sign_safe, settles, wfc, in_da, pairs_a,
  pairs_ok_a, pair_ok_a, commutes_at, cc_a, check_build, compensation_free,
}

abbrev pub two_vars : Machine
two_vars = record {
  doms = pos 2 ∷ pos 3 ∷ [];
  mins = pos 0 ∷ pos 0 ∷ [];
  invs = (p_le (e_var (pos 0)) (e_var (pos 1)), (pos 1, e_var (pos 0)) ∷ []) ∷ [];
  evs =
      (p_and nil, (pos 0, e_lit (pos 1)) ∷ [])
      ∷ (p_lt (e_var (pos 1)) (e_lit (pos 2)), (pos 1, e_lit (pos 2)) ∷ [])
      ∷ [];
}

-- F_checkBuild; its line opens what a run of it computes with.
unfoldable pub rules_run : Machine → Option (List (ℤ × ℤ)) → Run Bool
unfolding check_build bounded sign_safe sign_safe_t write_safe seconds transforms_m binary_var lo hi
    pairs_ok_a pairs_a wfc settles cc_a commutes_at pair_ok_a in_da var_bound bnd exprs_p exprs_ps
    exprs_t exprs_g exprs_m box layer prepend_all valeqb set_clamped apply_t all_valid repair1
    normalize fuel_of gapp step_g ev_at step_i zero_v rd wr eval_e eval_p eval_all eval_any nth find
    repeat length_run map_run flat_map fold_left seq pairs_from all_pairs eqb iter_op to_nat
    to_nat_0 eqb_0 nat_z_f nat_z forallb z_add z_sub z_mul z_opp z_abs div64 nat_succ nat_sub
    nat_div2 wrap64 ◌+ℤ◌ ◌-ℤ◌ ◌*ℤ◌
rules_run m p = check_build m p

check_two_vars : check_build two_vars none ≡ ok true
unfolding rules_run
check_two_vars = refl

step_i-repairs : step_i two_vars (pos 0) (pos 0 ∷ pos 0 ∷ []) ≡ ok (pos 1 ∷ pos 1 ∷ [])
unfolding rules_run
step_i-repairs = refl

-- The same machine with an event b := 1 more, which does not commute with b := 2.
abbrev three_events : Machine
three_events = record {
  doms = two_vars.doms;
  mins = two_vars.mins;
  invs = two_vars.invs;
  evs = (p_and nil, (pos 1, e_lit (pos 1)) ∷ []) ∷ two_vars.evs;
}

check_three_events : check_build three_events none ≡ ok false
unfolding rules_run
check_three_events = refl

-- With the pairs of b := 1 left out, the machine passes.
check_declared : check_build three_events (some ((pos 1, pos 2) ∷ [])) ≡ ok true
unfolding rules_run
check_declared = refl

pub zeros-MayStart : MayStart two_vars (pos 0 ∷ pos 0 ∷ [])
zeros-MayStart = (omega arith, inr (refl, (refl, tt)))

check_build_converges_example :
    (t : State) × (run_steps two_vars (pos 0 ∷ pos 1 ∷ []) (pos 0 ∷ pos 0 ∷ []) ≡ ok t)
    × (run_steps two_vars (pos 1 ∷ pos 0 ∷ []) (pos 0 ∷ pos 0 ∷ []) ≡ ok t)
    × MayStart two_vars t
check_build_converges_example =
    check_build_converges two_vars none (omega arith) check_two_vars
      (swap {xs = []} (inr (inl (0, 1, refl, omega arith, omega arith, omega arith))))
      (
        (pos 1, inl (0, 1, refl, omega arith, omega arith, omega arith)),
        ((pos 0, inr (0, 1, refl, omega arith, omega arith, omega arith)), tt),
      )
      (pos 0 ∷ pos 0 ∷ []) zeros-MayStart

check_build-perm_example :
    (t : State) × (run_steps two_vars (pos 0 ∷ pos 1 ∷ []) (pos 0 ∷ pos 0 ∷ []) ≡ ok t)
    × (run_steps two_vars (pos 1 ∷ pos 0 ∷ []) (pos 0 ∷ pos 0 ∷ []) ≡ ok t)
    × MayStart two_vars t
check_build-perm_example =
    check_build-perm two_vars (omega arith) (omega arith) check_two_vars
      (Perm.swap (pos 1) (pos 0) []) ((0, refl, omega arith), ((1, refl, omega arith), tt))
      (pos 0 ∷ pos 0 ∷ []) zeros-MayStart

check_build-settles_example :
    (f : ℤ) × (s : State) × (fuel_of two_vars ≡ ok f)
    × (normalize two_vars f (pos 1 ∷ pos 0 ∷ []) ≡ ok s)
    × (all_valid two_vars s ≡ ok true)
check_build-settles_example =
    check_build-settles two_vars none check_two_vars (pos 1 ∷ pos 0 ∷ []) (omega arith)

check_build-commute_example :
    (s : State) × (t : State) × (u : State) × (step_i two_vars (pos 1) (pos 0 ∷ pos 0 ∷ []) ≡ ok s)
    × (step_i two_vars (pos 0) s ≡ ok u)
    × (step_i two_vars (pos 0) (pos 0 ∷ pos 0 ∷ []) ≡ ok t)
    × (step_i two_vars (pos 1) t ≡ ok u)
check_build-commute_example =
    check_build-commute two_vars none check_two_vars (pos 0 ∷ pos 0 ∷ []) (pos 0, pos 1)
      zeros-MayStart (0, 1, refl, omega arith, omega arith, omega arith)

step_i-InRange_example : InRange two_vars.doms (pos 1 ∷ pos 1 ∷ [])
step_i-InRange_example =
    step_i-InRange two_vars (omega arith) (pos 0) (pos 0 ∷ pos 0 ∷ []) (omega arith) step_i-repairs

step_i-IsSettled_example : IsSettled two_vars (pos 1 ∷ pos 1 ∷ [])
step_i-IsSettled_example =
    step_i-IsSettled two_vars none (omega arith) check_two_vars (pos 0) (pos 0 ∷ pos 0 ∷ [])
      (omega arith) step_i-repairs

box-InRange_example :
    (vs : List State) × (box (pos 2 ∷ pos 3 ∷ []) ≡ ok vs)
    × ((v : State) → In v vs ↔ InRange (pos 2 ∷ pos 3 ∷ []) v)
box-InRange_example = box-InRange (pos 2 ∷ pos 3 ∷ []) (omega arith)

to_nat_0-exact_example : to_nat_0 (negsuc 6) ≡ ok (pos 0)
to_nat_0-exact_example = to_nat_0-exact (negsuc 6) (omega arith)

nat_z-exact_example : nat_z (pos 1000003) ≡ ok (pos 1000003)
nat_z-exact_example = nat_z-exact 1000003 (omega arith)

all_pairs_example :
    (l : List (ℤ × ℤ)) × (all_pairs (pos 3) ≡ ok l) × ((p : ℤ × ℤ) → In p l ↔ InTriangle 3 0 p)
all_pairs_example = all_pairs_lem 3 (omega arith)

two_vars-IsBuildable : IsBuildable two_vars
unfolding rules_run
two_vars-IsBuildable = record {
  sizes = omega arith;
  small_mins = omega arith;
  literals = literals_of;
}
  where
    literals_of : (x : Expr) → In x (exprs_m two_vars) → LiteralsI64 x
    literals_of x (inl e) = rw e tt
    literals_of x (inr (inl e)) = rw e tt
    literals_of x (inr (inr (inl e))) = rw e tt
    literals_of x (inr (inr (inr (inl e)))) = rw e (omega arith)
    literals_of x (inr (inr (inr (inr (inl e))))) = rw e tt
    literals_of x (inr (inr (inr (inr (inr (inl e)))))) = rw e (omega arith)
    literals_of x (inr (inr (inr (inr (inr (inr (inl e))))))) = rw e (omega arith)
    literals_of x (inr (inr (inr (inr (inr (inr (inr nowhere))))))) = elim nowhere [ ]

check_build-runs_example :
    (t : State) × (run_steps two_vars (pos 0 ∷ pos 1 ∷ pos 7 ∷ []) (pos 0 ∷ pos 0 ∷ []) ≡ ok t)
    × (run_steps two_vars (pos 1 ∷ pos 0 ∷ pos 7 ∷ []) (pos 0 ∷ pos 0 ∷ []) ≡ ok t)
    × MayStart two_vars t
check_build-runs_example =
    check_build-runs two_vars two_vars-IsBuildable none check_two_vars
      (swap {xs = pos 7 ∷ []} (inr (inl (0, 1, refl, omega arith, omega arith, omega arith))))
      ((0, refl), ((1, refl), ((7, refl), tt))) (pos 0 ∷ pos 0 ∷ []) zeros-MayStart

step_i-total_example :
    (s : State) × (step_i two_vars (pos 1) (pos 1 ∷ pos 0 ∷ []) ≡ ok s) × IsSettled two_vars s
step_i-total_example =
    step_i-total two_vars two_vars-IsBuildable none 1 (pos 1 ∷ pos 0 ∷ []) check_two_vars
      (omega arith)

bounded-two_vars : bounded two_vars ≡ ok true
unfolding rules_run
bounded-two_vars = refl

event_literal : In (e_lit (pos 2)) (exprs_m two_vars)
unfolding rules_run
event_literal = inr (inr (inr (inr (inr (inl refl)))))

bounded-IsWithin_example :
    (v : ℤ) × (eval_e two_vars.mins (pos 1 ∷ pos 0 ∷ []) (e_lit (pos 2)) ≡ ok v)
    × (abs v ≤ 2147483647)
bounded-IsWithin_example =
    bounded-IsWithin two_vars (omega arith) (omega arith) (e_lit (pos 2)) (pos 1 ∷ pos 0 ∷ [])
      (omega arith) (omega arith) bounded-two_vars event_literal

eqb_0-exact_example : eqb_0 (negsuc 41) (pos 42) ≡ ok false
eqb_0-exact_example = eqb_0-exact (negsuc 41) (pos 42) (omega arith) (omega arith) (cc) (cc)

first_event-binary :
    (nth (pos 0) two_vars.doms (pos 0) ≡ ok (pos 2))
    × (nth (pos 0) two_vars.mins (pos 0) ≡ ok (pos 0))
unfolding rules_run
first_event-binary = (refl, refl)

first_event-In : In ((pos 0, e_lit (pos 1)) ∷ []) (transforms_m two_vars)
unfolding rules_run
first_event-In = inr (inl refl)

sign_safe-two_vars : sign_safe two_vars ≡ ok true
unfolding rules_run
sign_safe-two_vars = refl

literal-value : eval_e two_vars.mins (pos 0 ∷ pos 0 ∷ []) (e_lit (pos 1)) ≡ ok (pos 1)
unfolding rules_run
literal-value = refl

sign_safe-nonneg_example : pos 0 ≤ℤ pos 1
sign_safe-nonneg_example =
    sign_safe-nonneg two_vars (omega arith) (omega arith) ((pos 0, e_lit (pos 1)) ∷ [])
      (pos 0, e_lit (pos 1)) (pos 0 ∷ pos 0 ∷ []) sign_safe-two_vars first_event-In (inl refl)
      (omega arith) first_event-binary.0 first_event-binary.1 (omega arith) literal-value

-- The machine with no invariant: every state is valid.
abbrev no_invariant : Machine
no_invariant = record { doms = two_vars.doms; mins = two_vars.mins; invs = []; evs = two_vars.evs }

compensation_free-no_invariant : compensation_free no_invariant ≡ ok true
unfolding rules_run compensation_free
compensation_free-no_invariant = refl

compensation_free-normalize_example :
    normalize no_invariant (pos 6) (pos 1 ∷ pos 0 ∷ []) ≡ ok (pos 1 ∷ pos 0 ∷ [])
compensation_free-normalize_example =
    compensation_free-normalize no_invariant 6 (pos 1 ∷ pos 0 ∷ []) compensation_free-no_invariant
      (omega arith)

z_mul-exact_or_example : z_mul (negsuc 0) min_int64 ≡ exact_or overflow_mul (negsuc 0 *ℤ min_int64)
z_mul-exact_or_example = z_mul-exact_or (negsuc 0) min_int64 (omega arith) (omega arith)
