-- ===== src/RuleCheck/Exits.antt =====
-- How a run of command rulecheck (coq/goextract/cmd/rulecheck/main.go) ends: its messages and its
-- exit codes.
use normalization_confluence.Common.{ℕ, Bool, Option}
use normalization_confluence.Common.Run.{Panic}
use normalization_confluence.RuleCheck.Failures.{Failure}

-- The errors of `readAll`.
pub data FileError : Type 0 where
  stat_failed too_large read_failed : FileError

-- The last line of a run on a machine of the fragment. The counts are those of the OK line: the
-- variables, the invariants, the events, and the declared pairs, where `none` is "every pair".
pub data Verdict : Type 0 where
  unbounded sign_unsafe no_wfc not_convergent : Verdict
  verified : ℕ → ℕ → ℕ → Option ℕ → Verdict

-- `decided` has the value that the line compensation_free=… gives.
pub data Outcome : Type 0 where
  usage cannot_read_machine outside_fragment : Outcome
  parse_error pairs_error : Failure → Outcome
  cannot_read_pairs : FileError → Outcome
  decided : Bool → Verdict → Outcome
  crash : Panic → Outcome

unfoldable pub exit_code : Outcome → ℕ
exit_code outside_fragment = 1
exit_code (decided _ (verified _ _ _ _)) = 0
exit_code (decided _ _) = 1
exit_code _ = 2
