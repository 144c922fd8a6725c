-- ===== src/RuleCheck/Pairs/Events.antt =====
-- The declared pairs that `readPairs` of coq/goextract/cmd/rulecheck/main.go returns.
use normalization_confluence.Common.{
  ℕ, ◌≡◌, false, ◌&&◌, ◌||◌, not, Option, none, some, List, [], ◌∷◌, All, arith, length, ◌==◌,
}
use normalization_confluence.Common.Int.{ℤ, pos, leb_ℤ, eqb_ℤ, ◌*ℤ◌, wrap64}
use normalization_confluence.Common.Text.{Bytes, codes, eq_bytes, fields}
use normalization_confluence.Common.Result.{
  fail_if, Ensures, Ensures->>=, Ensures-any, Ensures-if, fail_if-Ensures,
}
use normalization_confluence.RuleCheck.Numbers.{nat_of}
use normalization_confluence.RuleCheck.Building.Keeps.{IsBelow, IsNat31, nat_of-IsNat31}
use normalization_confluence.RuleCheck.Pairs.{
  read_pair, read_entries, read_declared, pairs_of_tokens, read_pairs,
}

-- Both are events of the first `n`.
abbrev pub AreEvents : ℕ → ℤ × ℤ → Type 0
AreEvents n q = IsBelow n q.0 × IsBelow n q.1

-- Every declared pair names events.
abbrev pub NamesEvents : ℕ → Option (List (ℤ × ℤ)) → Type 0
NamesEvents n none = Unit
NamesEvents n (some l) = All (AreEvents n) l

both-below :
    (n : ℕ) (a b : ℤ)
    → IsNat31 a
    → IsNat31 b
    → (leb_ℤ (pos n) a || leb_ℤ (pos n) b) ≡ false
    → AreEvents n (a, b)
both-below n a b (i, q, _) (j, q', _) e =
    let e' : (leb_ℤ (pos n) (pos i) || leb_ℤ (pos n) (pos j)) ≡ false = rw (q, q') at e in
    ((i, q, ground arith), (j, q', ground arith))

read_pair-AreEvents : (n : ℕ) (s t : Bytes) → Ensures (AreEvents n) (read_pair n s t)
unfolding read_pair
read_pair-AreEvents n s t = Ensures->>= IsNat31 _ (nat_of s) _ (nat_of-IsNat31 s) λ a ha.
    Ensures->>= IsNat31 _ (nat_of t) _ (nat_of-IsNat31 t) λ b hb.
      Ensures->>= _ _ (fail_if (leb_ℤ (pos n) a || leb_ℤ (pos n) b) _) _ (fail_if-Ensures _ _)
        λ _ e. both-below n a b ha hb e

read_entries-All : (n : ℕ) (ts : List Bytes) → Ensures (All (AreEvents n)) (read_entries n ts)
unfolding read_entries
read_entries-All n [] = tt
read_entries-All n (s ∷ []) = tt
read_entries-All n (s ∷ t ∷ rest) =
    Ensures->>= (AreEvents n) _ (read_pair n s t) _ (read_pair-AreEvents n s t) λ q h.
      Ensures->>= (All (AreEvents n)) _ (read_entries n rest) _ (read_entries-All n rest)
        λ ps h'. (h, h')

read_declared-NamesEvents :
    (n : ℕ) (count : Bytes) (rest : List Bytes)
    → Ensures (NamesEvents n) (read_declared n count rest)
unfolding read_declared
read_declared-NamesEvents n count rest = Ensures->>= _ _ (nat_of count) _ (Ensures-any _) λ k _.
    Ensures->>= _ _ (fail_if (not (eqb_ℤ (pos (length rest)) (wrap64 (pos 2 *ℤ k)))) _) _
      (Ensures-any _)
      λ _ _.
        Ensures->>= (All (AreEvents n)) _ (read_entries n rest) _ (read_entries-All n rest)
          λ ps h. h

pairs_of_tokens-NamesEvents :
    (n : ℕ) (ts : List Bytes) → Ensures (NamesEvents n) (pairs_of_tokens n ts)
unfolding pairs_of_tokens
pairs_of_tokens-NamesEvents n [] = tt
pairs_of_tokens-NamesEvents n (t ∷ []) = tt
pairs_of_tokens-NamesEvents n (t ∷ u ∷ rest) =
    Ensures-if _ (length rest == 0 && eq_bytes t (codes "pairs") && eq_bytes u (codes "all")) _ _
      (λ _. tt)
      λ _.
        Ensures-if _ (not (eq_bytes t (codes "pairs"))) _ _ (λ _. tt)
          λ _. read_declared-NamesEvents n u rest

-- If `readPairs` accepts a pairs file, then every declared pair names events of the machine.
pub read_pairs-NamesEvents :
    (content : Bytes) (n : ℕ) → Ensures (NamesEvents n) (read_pairs content n)
unfolding read_pairs
read_pairs-NamesEvents content n = pairs_of_tokens-NamesEvents n (fields content)
