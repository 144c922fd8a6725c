-- ===== src/RuleCheck/Failures.antt =====
-- The messages of `failf` in coq/goextract/cmd/rulecheck/main.go, one constructor for each format
-- string.
use normalization_confluence.Common.{ℕ}
use normalization_confluence.Common.Int.{ℤ}
use normalization_confluence.Common.Text.{Bytes}
use normalization_confluence.Common.Result.{Result}

pub data Failure : Type 0 where
  unexpected_end unterminated unexpected_close : Failure
  not_decimal out_of_range negative : Bytes → Failure
  doms_late : Failure
  past_variables : ℤ → ℤ → Failure
  malformed_expr malformed_pred malformed_transform malformed_assign : Failure
  not_integer empty_domain too_many_states doms_twice mins_twice : Failure
  unknown_form missing_doms wrong_mins : Failure
  expected_pairs : Failure
  wrong_pair_entries : ℤ → ℕ → Failure
  pair_past_events : ℤ → ℤ → ℤ → Failure
  -- The fuel of the model ran out; the Go code has no such message.
  no_fuel : Failure

abbrev pub Parsed {ℓ} : Type ℓ → Type ℓ
Parsed A = Result Failure A
