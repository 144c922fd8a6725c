-- ===== src/Oracle/Loops/Pairs.antt =====
-- The list of all pairs of events that F_pairsRow and F_pairsAll build, by its members.
use mathlib.Core.Path.{subst}
use native.Mathlib.Decide.{ℕ_discrete}
use normalization_confluence.Common.{
  ℕ, zero, suc, ◌+◌, ◌-◌, ◌^◌, ◌≤◌, ◌<◌, ◌≡◌, refl, sym, List, [], ◌∷◌, arith, ◌⊎◌, inl, inr, ◌↔◌,
  ↔_trans, ⊎_congr_right, In,
}
use normalization_confluence.Common.Int.{ℤ, pos}
use normalization_confluence.Common.Run.{ok}
use normalization_confluence.Oracle.Prims.Exact.{nat_succ_pos, nat_sub_pos}
use normalization_confluence.Oracle.Loops.{pairs_row, pairs_all, all_pairs_t}

-- The pairs that `pairs_row` puts in front of its accumulator.
abbrev InRow : ℕ → ℕ → ℕ → ℤ × ℤ → Type 0
InRow i j k p = (b : ℕ) × (p ≡ (pos i, pos b)) × (j ≤ b) × (b < j + k)

-- The pairs (a, b) of numbers with i ≤ a < b < n.
abbrev pub InTriangle : ℕ → ℕ → ℤ × ℤ → Type 0
InTriangle n i p = (a : ℕ) × (b : ℕ) × (p ≡ (pos a, pos b)) × (i ≤ a) × (a < b) × (b < n)

row_cons :
    (i j k : ℕ) (p : ℤ × ℤ) {A : Type 0}
    → (InRow i (j + 1) k p ⊎ ((p ≡ (pos i, pos j)) ⊎ A)) ↔ (InRow i j (suc k) p ⊎ A)
row_cons i j k p {A} = (to, from)
  where
    to : InRow i (j + 1) k p ⊎ ((p ≡ (pos i, pos j)) ⊎ A) → InRow i j (suc k) p ⊎ A
    to (inl (b, e, lo, hi)) = inl (b, e, omega arith, omega arith)
    to (inr (inl e)) = inl (j, e, omega arith, omega arith)
    to (inr (inr m)) = inr m

    from : InRow i j (suc k) p ⊎ A → InRow i (j + 1) k p ⊎ ((p ≡ (pos i, pos j)) ⊎ A)
    from (inl (b, e, lo, hi)) = elim (ℕ_discrete j b) [
      | yes q ↦ inr (inl (subst (λ x. p ≡ (pos i, pos x)) (sym q) e))
      | no ne ↦ inl (b, e, omega arith, omega arith)
    ]
    from (inr m) = inr (inr m)

pairs_row_lem :
    (k i j : ℕ) (acc : List (ℤ × ℤ))
    → j + k < 2 ^ 63
    → (l : List (ℤ × ℤ)) × (pairs_row (pos i) (pos j) (pos k) acc ≡ ok l)
      × ((p : ℤ × ℤ) → In p l ↔ (InRow i j k p ⊎ In p acc))
unfolding pairs_row
pairs_row_lem zero i j acc h = (acc, refl, λ p. (inr, none_in_row p))
  where
    none_in_row : (p : ℤ × ℤ) → InRow i j 0 p ⊎ In p acc → In p acc
    none_in_row p (inl (b, e, lo, hi)) = absurd (omega arith)
    none_in_row p (inr m) = m
pairs_row_lem (suc k) i j acc h =
    let (l, e, m) = pairs_row_lem k i (j + 1) ((pos i, pos j) ∷ acc) (omega arith) in
    (l, rw (nat_succ_pos j (omega arith)) e, λ p. ↔_trans (m p) (row_cons i j k p))

triangle_cons :
    (n i : ℕ) (p : ℤ × ℤ) {A : Type 0}
    → (InTriangle n (i + 1) p ⊎ (InRow i (i + 1) (n - (i + 1)) p ⊎ A)) ↔ (InTriangle n i p ⊎ A)
triangle_cons n i p {A} = (to, from)
  where
    to : InTriangle n (i + 1) p ⊎ (InRow i (i + 1) (n - (i + 1)) p ⊎ A) → InTriangle n i p ⊎ A
    to (inl (a, b, e, lo, lt, hi)) = inl (a, b, e, omega arith, lt, hi)
    to (inr (inl (b, e, lo, hi))) = inl (i, b, e, omega arith, omega arith, omega arith)
    to (inr (inr m)) = inr m

    from : InTriangle n i p ⊎ A → InTriangle n (i + 1) p ⊎ (InRow i (i + 1) (n - (i + 1)) p ⊎ A)
    from (inl (a, b, e, lo, lt, hi)) = elim (ℕ_discrete i a) [
      | yes q ↦ inr (inl (b, subst (λ x. p ≡ (pos x, pos b)) (sym q) e, omega arith, omega arith))
      | no ne ↦ inl (a, b, e, omega arith, lt, hi)
    ]
    from (inr m) = inr (inr m)

pairs_all_lem :
    (k n i : ℕ) (acc : List (ℤ × ℤ))
    → i + k ≡ n
    → n < 2 ^ 63 - 1
    → (l : List (ℤ × ℤ)) × (pairs_all (pos n) (pos i) (pos k) acc ≡ ok l)
      × ((p : ℤ × ℤ) → In p l ↔ (InTriangle n i p ⊎ In p acc))
unfolding pairs_all
pairs_all_lem zero n i acc h bound = (acc, refl, λ p. (inr, none_left p))
  where
    none_left : (p : ℤ × ℤ) → InTriangle n i p ⊎ In p acc → In p acc
    none_left p (inl (a, b, e, lo, lt, hi)) = absurd (omega arith)
    none_left p (inr m) = m
pairs_all_lem (suc k) n i acc h bound =
    let (row, e, m) = pairs_row_lem (n - (i + 1)) i (i + 1) acc (omega arith) in
    let (l, e', m') = pairs_all_lem k n (i + 1) row (omega arith) bound in
    (
      l,
      rw (nat_succ_pos i (omega arith)) (rw (nat_sub_pos n (i + 1) (omega arith)) (rw e e')),
      λ p. ↔_trans (m' p) (↔_trans (⊎_congr_right (m p)) (triangle_cons n i p)),
    )

-- Below 2 ^ 63 - 1 events, `F_allPairsT` returns, and its list holds exactly the pairs (a, b) of
-- event numbers with a < b.
pub all_pairs_t_lem :
    (n : ℕ)
    → n < 2 ^ 63 - 1
    → (l : List (ℤ × ℤ)) × (all_pairs_t (pos n) ≡ ok l) × ((p : ℤ × ℤ) → In p l ↔ InTriangle n 0 p)
unfolding all_pairs_t
all_pairs_t_lem n h =
    let (l, e, m) = pairs_all_lem n n 0 [] (omega arith) h in
    (
      l,
      e,
      λ p. ((λ x. elim ((m p).0 x) [ inl t ↦ t | inr none ↦ elim none [ ] ]), λ t. (m p).1 (inl t)),
    )
