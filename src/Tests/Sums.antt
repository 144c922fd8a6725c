-- ===== src/Tests/Sums.antt =====
-- Sums of positives by their binary digits.
use normalization_confluence.Common.{◌≡◌, arith}
use normalization_confluence.Common.Int.{pos}
use normalization_confluence.Common.Run.{ok}
use normalization_confluence.Oracle.Positive.Sums.{add, add_carry}
use normalization_confluence.Oracle.Positive.Carry.{add-sum}

-- 27 is 11011 in binary, and 13 is 1101: every digit carries.
add-sum_example :
    (add 63 (pos 27) (pos 13) ≡ ok (pos 40)) × (add_carry 63 (pos 27) (pos 13) ≡ ok (pos 41))
add-sum_example = add-sum 27 13 (omega arith) (omega arith) (omega arith)
