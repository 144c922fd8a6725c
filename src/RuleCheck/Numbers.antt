-- ===== src/RuleCheck/Numbers.antt =====
-- Decimal numbers of the machine and pairs files: decimal, intOf and natOf of
-- coq/goextract/cmd/rulecheck/main.go.
use normalization_confluence.Common.{
  ℕ, Bool, false, not, ◌||◌, [], ◌∷◌, if◌then◌else◌, length, ltb, ◌==◌,
}
use normalization_confluence.Common.Int.{ℤ, pos, negsuc, sub_ℕ, ltb_ℤ}
use normalization_confluence.Common.Text.{Bytes, all_digits, digits_value}
use normalization_confluence.Common.Result.{read, fail_if, ◌>>=◌, ◌>>◌}
use normalization_confluence.RuleCheck.Failures.{Parsed, not_decimal, out_of_range, negative}

-- `len(s) > 0 && s[0] == '-'`
unfoldable pub signed : Bytes → Bool
signed [] = false
signed (c ∷ _) = c == b'-'

-- `s[start:]`
unfoldable pub digits_of : Bytes → Bytes
digits_of [] = []
digits_of (c ∷ s) = if c == b'-' then s else c ∷ s

unfoldable pub decimal : Bytes → ℕ → Parsed ℕ
unfolding digits_of fail_if
decimal s max_digits = do
  fail_if (length (digits_of s) == 0 || ltb max_digits (length (digits_of s))) (not_decimal s)
  fail_if (not (all_digits (digits_of s))) (not_decimal s)
  read (length (digits_of s))

-- strconv.ParseInt(s, 10, 64) on a decimal that fits an int64.
unfoldable pub parse_int : Bytes → ℤ
unfolding signed digits_of
parse_int s =
    if signed s then sub_ℕ 0 (digits_value 0 (digits_of s)) else pos (digits_value 0 (digits_of s))

-- `v > maxAbs || v < -maxAbs`
abbrev pub exceeds : ℤ → Bool
exceeds v = ltb_ℤ (pos 2147483647) v || ltb_ℤ v (negsuc 2147483646)

unfoldable pub int_of : Bytes → Parsed ℤ
unfolding decimal parse_int
int_of s = do _ ← decimal s 10; fail_if (exceeds (parse_int s)) (out_of_range s); read (parse_int s)

unfoldable pub nat_of : Bytes → Parsed ℤ
unfolding int_of
nat_of s = do v ← int_of s; fail_if (ltb_ℤ v (pos 0)) (negative s); read v
