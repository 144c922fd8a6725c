-- ===== src/Tests/Commands.antt =====
-- Command rulecheck on the text of the machine `two_vars`, with a disk that holds one file.
use normalization_confluence.Common.{
  true, ◌≡◌, refl, none, some, [], ◌∷◌, ◌++◌, length, arith, swap, inl, inr, ◌≢◌, false, ◌↔◌,
}
use normalization_confluence.Common.Int.{pos, ◌+ℤ◌, ◌-ℤ◌, ◌*ℤ◌, wrap64}
use normalization_confluence.Common.Run.{ok}
use normalization_confluence.Common.Text.{
  Bytes, codes, eq_bytes, all_digits, digits_value, fields, replace_blanks, split_spaces, non_empty,
}
use normalization_confluence.Common.Disk.{Disk}
use normalization_confluence.Common.Result.{read, fail_input, fail_if, Ensures}
use normalization_confluence.Oracle.Rules.{Machine, State, p_le, e_var, e_lit}
use normalization_confluence.Oracle.Rules.Build.{check_build, compensation_free}
use normalization_confluence.RuleCheck.{main, run, load_machine, load_pairs, read_all}
use normalization_confluence.RuleCheck.Failures.{Parsed, no_fuel}
use normalization_confluence.RuleCheck.Sexp.{
  Forms, atom, list, nil, cons, tokenize, scan, flush, kind, token, parse, parse_forms, parse_all,
}
use normalization_confluence.RuleCheck.Sexp.Print.{print_forms, AllSpelled}
use normalization_confluence.RuleCheck.Sexp.RoundTrip.{parse_all-print}
use normalization_confluence.RuleCheck.Numbers.{
  signed, digits_of, decimal, parse_int, int_of, nat_of,
}
use normalization_confluence.RuleCheck.Building.{Globals, value_of, var_within, var_index}
use normalization_confluence.RuleCheck.Build.{
  build_leaf, build_expr, build_comparison, build_pred, build_assigns, build_transform, ints,
}
use normalization_confluence.RuleCheck.MachineFile.{
  each_domain, count_states, read_doms, read_mins, build_guarded, build_rule, build_form,
  build_forms, some_exceeds, finish, build_machine,
}
use normalization_confluence.RuleCheck.Pairs.{pairs_of_tokens, read_pairs}
use normalization_confluence.RuleCheck.Judge.{
  judge_checked, judge_safe, judge_bounded, judge, report,
}
use normalization_confluence.Tests.Compact.{compact_run}
use normalization_confluence.RuleCheck.Exits.{exit_code, decided, no_wfc}
use normalization_confluence.Tests.Rules.{two_vars, rules_run, zeros-MayStart}
use normalization_confluence.Oracle.Rules.Build.Sound.{MayStart}
use normalization_confluence.Oracle.Rules.Build.Converges.{run_steps}
use normalization_confluence.RuleCheck.Sexp.Fuel.{parse_all-ne-no_fuel}
use normalization_confluence.RuleCheck.Verdicts.{Means}
use normalization_confluence.RuleCheck.Lines.{main-Means}
use normalization_confluence.Oracle.Rules.Box.Range.{InRange}
use normalization_confluence.Oracle.Rules.Step.{all_valid}
use normalization_confluence.RuleCheck.Exit.{main-check_build, main-converges}
use normalization_confluence.RuleCheck.MachineFile.Accepts.{IsFragment}
use normalization_confluence.RuleCheck.MachineFile.Fragment.{build_machine-IsFragment}
use normalization_confluence.RuleCheck.Pairs.Events.{NamesEvents, read_pairs-NamesEvents}

abbrev machine_text : Bytes
machine_text =
    codes "(doms 2 3)\n(inv (le (var 0) (var 1)) (do (set 1 (var 0))))\n"
    ++ codes "(ev (do (set 0 (lit 1))))\n(evwhen (lt (var 1) (lit 2)) (do (set 1 (lit 2))))\n"

-- The reader of a machine file; its line opens what a run of it computes with.
file_run : Bytes → Parsed (Machine × Globals)
unfolding build_machine build_forms build_form build_rule build_guarded read_doms read_mins
    each_domain count_states some_exceeds finish ints build_transform build_assigns build_pred
    build_comparison build_expr build_leaf var_index var_within value_of nat_of int_of parse_int
    decimal digits_of signed parse_all parse_forms parse token tokenize scan flush kind fail_if
    eq_bytes all_digits digits_value wrap64 ◌+ℤ◌ ◌-ℤ◌ ◌*ℤ◌
file_run text = elim (parse_all (tokenize text)) [
  | read forms ↦ build_machine forms
  | fail_input e ↦ fail_input e
]

file_two_vars :
    file_run machine_text ≡ read (two_vars, record { nvars = pos 2; out_of_fragment = false })
unfolding file_run
file_two_vars = refl

-- A disk where every path is this file.
abbrev disk_with : Bytes → Disk
disk_with text = record { stat = λ _. some (length text); read_file = λ _. some text }

abbrev program : Bytes
program = codes "rulecheck"

loads_two_vars :
    load_machine (disk_with machine_text) []
    ≡ read (two_vars, record { nvars = pos 2; out_of_fragment = false })
unfolding load_machine read_all file_run
loads_two_vars = refl

accepts_two_vars : exit_code (main (disk_with machine_text) (program ∷ [] ∷ [])) ≡ 0
unfolding main run load_machine load_pairs read_all report judge judge_bounded judge_safe
    judge_checked exit_code file_run rules_run compact_run compensation_free
accepts_two_vars = refl

-- The same file is no pairs file, an unclosed list is no machine, and a literal past the range of
-- the model is outside the fragment.
refuses_pairs : exit_code (main (disk_with machine_text) (program ∷ [] ∷ [] ∷ [])) ≡ 2
unfolding main run load_machine load_pairs read_all read_pairs pairs_of_tokens fields replace_blanks
    split_spaces non_empty exit_code file_run
refuses_pairs = refl

refuses_unclosed : exit_code (main (disk_with (codes "(doms 2")) (program ∷ [] ∷ [])) ≡ 2
unfolding main run load_machine read_all exit_code file_run
refuses_unclosed = refl

max_outside :
    exit_code (main (disk_with (codes "(doms 2)(mins 2147483647)")) (program ∷ [] ∷ [])) ≡ 1
unfolding main run load_machine load_pairs read_all exit_code file_run
max_outside = refl

no_pairs : load_pairs (disk_with machine_text) none 2 ≡ read none
unfolding load_pairs
no_pairs = refl

main-check_build_example : check_build two_vars none ≡ ok true
main-check_build_example =
    main-check_build (disk_with machine_text) program [] none two_vars
      (record { nvars = pos 2; out_of_fragment = false }) none loads_two_vars no_pairs
      accepts_two_vars (omega arith) (omega arith)

main-converges_example :
    (t : State) × (run_steps two_vars (pos 0 ∷ pos 1 ∷ []) (pos 0 ∷ pos 0 ∷ []) ≡ ok t)
    × (run_steps two_vars (pos 1 ∷ pos 0 ∷ []) (pos 0 ∷ pos 0 ∷ []) ≡ ok t)
    × MayStart two_vars t
main-converges_example =
    main-converges (disk_with machine_text) program [] none two_vars
      (record { nvars = pos 2; out_of_fragment = false }) none loads_two_vars no_pairs
      accepts_two_vars (omega arith) (omega arith)
      (swap {xs = []} (inr (inl (0, 1, refl, omega arith, omega arith, omega arith))))
      ((0, refl), ((1, refl), tt)) (pos 0 ∷ pos 0 ∷ []) zeros-MayStart

-- `(doms 2)` and `(ev (do))`.
abbrev two_forms : Forms
two_forms =
    cons (list (cons (atom (codes "doms")) (cons (atom (codes "2")) nil)))
      (cons (list (cons (atom (codes "ev")) (cons (list (cons (atom (codes "do")) nil)) nil))) nil)

two_forms-Spelled : AllSpelled two_forms
unfolding kind
two_forms-Spelled = (
  ((refl, (refl, (refl, (refl, tt)))), ((refl, tt), tt)),
  ((((refl, (refl, tt)), ((((refl, (refl, tt)), tt)), tt))), tt),
)

build_machine-IsFragment_example : Ensures (λ r. IsFragment r.0) (build_machine two_forms)
build_machine-IsFragment_example = build_machine-IsFragment two_forms

read_pairs-NamesEvents_example : Ensures (NamesEvents 2) (read_pairs (codes "pairs 1 0 1") 2)
read_pairs-NamesEvents_example = read_pairs-NamesEvents (codes "pairs 1 0 1") 2

parse_all-print_example : parse_all (tokenize (print_forms two_forms [])) ≡ read two_forms
parse_all-print_example = parse_all-print two_forms two_forms-Spelled

parse_all-ne-no_fuel_example : parse_all (codes "(" ∷ codes ")" ∷ []) ≢ fail_input no_fuel
parse_all-ne-no_fuel_example = parse_all-ne-no_fuel (codes "(" ∷ codes ")" ∷ [])

-- One variable, which has to be 0, and a repair that does nothing.
abbrev stuck_text : Bytes
stuck_text = codes "(doms 2)\n(inv (le (var 0) (lit 0)) (do))\n"

abbrev stuck : Machine
stuck = record {
  doms = pos 2 ∷ [];
  mins = pos 0 ∷ [];
  invs = (p_le (e_var (pos 0)) (e_lit (pos 0)), []) ∷ [];
  evs = [];
}

loads_stuck :
    load_machine (disk_with stuck_text) []
    ≡ read (stuck, record { nvars = pos 1; out_of_fragment = false })
unfolding load_machine read_all file_run
loads_stuck = refl

no_stuck_pairs : load_pairs (disk_with stuck_text) none 0 ≡ read none
unfolding load_pairs
no_stuck_pairs = refl

fails_stuck : main (disk_with stuck_text) (program ∷ [] ∷ []) ≡ decided false no_wfc
unfolding main run load_machine load_pairs read_all report judge judge_bounded judge_safe
    judge_checked file_run rules_run compact_run compensation_free
fails_stuck = refl

main-Means_example :
    ((false ≡ true) ↔ ((w : State) → InRange stuck.doms w → all_valid stuck w ≡ ok true))
    × Means stuck none no_wfc
main-Means_example =
    main-Means (disk_with stuck_text) program [] none stuck
      (record { nvars = pos 1; out_of_fragment = false }) none loads_stuck no_stuck_pairs
      fails_stuck (omega arith) (omega arith)
