-- ===== src/TableCheck/Exits.antt =====
-- How a run of command tablecheck ends, and the reads of its input that may end it.
use normalization_confluence.Common.{ℕ, Option}
use normalization_confluence.Common.Result.{Result}
use normalization_confluence.Common.Run.{Panic}
use normalization_confluence.Common.Int.{ℤ}
use normalization_confluence.Common.Text.{Bytes}

-- What the reader was looking for, for the message.
pub data What : Type 0 where
  format_version n_size n_e_size nf_entry pair_count_or_all pair_event step_entry : What
  keyword_nf keyword_pairs keyword_gsm_tables : What

-- The messages of `failInput`, one constructor for each format string.
pub data InputError : Type 0 where
  not_decimal out_of_range unsupported_version : Bytes → InputError
  unexpected_end : What → InputError
  expected_keyword : What → Bytes → InputError
  empty_states stat_failed too_large read_failed : InputError
  expected_step_entries : ℤ → ℤ → ℤ → InputError
  expected_pair_entries : ℤ → InputError
  event_past_end : ℤ → ℤ → ℤ → InputError
  wrong_step_entries : ℤ → ℤ → ℤ → ℕ → InputError

-- A reader that may end the run with exit code 2.
abbrev pub Input {ℓ} : Type ℓ → Type ℓ
Input A = Result InputError A

-- Exit codes 0 (with the two sizes, and the number of declared pairs or `none` for every pair), 1
-- and 2, and a panic of the Go runtime.
pub data Outcome : Type 0 where
  verified : ℤ → ℤ → Option ℕ → Outcome
  not_convergent usage : Outcome
  input_error : InputError → Outcome
  crash : Panic → Outcome
