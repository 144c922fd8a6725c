-- ===== src/RuleCheck/Pairs.antt =====
-- `readPairs` of coq/goextract/cmd/rulecheck/main.go: the declared pairs of a pairs file. `none` is
-- every pair, where the Go code also returns the number -1.
pub mod Events
use normalization_confluence.Common.{
  ℕ, ◌&&◌, ◌||◌, not, Option, none, some, List, [], ◌∷◌, if◌then◌else◌, length, ◌==◌,
}
use normalization_confluence.Common.Int.{ℤ, pos, leb_ℤ, eqb_ℤ, ◌*ℤ◌, wrap64}
use normalization_confluence.Common.Text.{Bytes, codes, eq_bytes, fields}
use normalization_confluence.Common.Result.{read, fail_input, fail_if, ◌>>=◌, ◌>>◌}
use normalization_confluence.RuleCheck.Failures.{
  Parsed, expected_pairs, wrong_pair_entries, pair_past_events,
}
use normalization_confluence.RuleCheck.Numbers.{nat_of}

-- `natOf` on two entries, which must name events.
unfoldable pub read_pair : ℕ → Bytes → Bytes → Parsed (ℤ × ℤ)
unfolding nat_of fail_if
read_pair nevents s t = do
  a ← nat_of s
  b ← nat_of t
  fail_if (leb_ℤ (pos nevents) a || leb_ℤ (pos nevents) b) (pair_past_events a b (pos nevents))
  read (a, b)

unfoldable pub read_entries : ℕ → List Bytes → Parsed (List (ℤ × ℤ))
unfolding read_pair
read_entries nevents (s ∷ t ∷ rest) = do
  q ← read_pair nevents s t
  ps ← read_entries nevents rest
  read (q ∷ ps)
read_entries nevents _ = read []

unfoldable pub read_declared : ℕ → Bytes → List Bytes → Parsed (Option (List (ℤ × ℤ)))
unfolding nat_of fail_if read_entries
read_declared nevents count rest = do
  k ← nat_of count
  fail_if (not (eqb_ℤ (pos (length rest)) (wrap64 (pos 2 *ℤ k))))
      (wrong_pair_entries (wrap64 (pos 2 *ℤ k)) (length rest))
  ps ← read_entries nevents rest
  read (some ps)

-- The cases of `readPairs`, on its tokens.
unfoldable pub pairs_of_tokens : ℕ → List Bytes → Parsed (Option (List (ℤ × ℤ)))
unfolding eq_bytes read_declared
pairs_of_tokens nevents (t ∷ u ∷ rest) =
    if length rest == 0 && eq_bytes t (codes "pairs") && eq_bytes u (codes "all")
    then read none
    else if not (eq_bytes t (codes "pairs"))
    then fail_input expected_pairs
    else read_declared nevents u rest
pairs_of_tokens nevents _ = fail_input expected_pairs

unfoldable pub read_pairs : Bytes → ℕ → Parsed (Option (List (ℤ × ℤ)))
unfolding fields pairs_of_tokens
read_pairs content nevents = pairs_of_tokens nevents (fields content)
