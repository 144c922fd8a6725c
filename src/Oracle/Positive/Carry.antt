-- ===== src/Oracle/Positive/Carry.antt =====
-- F_add and F_add_carry of coq/goextract/oracle/oracle_gen.go, compared with exact sums.
use normalization_confluence.Common.{ℕ, zero, suc, ◌+◌, ◌^◌, ◌≤◌, ◌<◌, ◌≡◌, refl, ap, ◌∙◌, arith}
use normalization_confluence.Common.Int.{pos}
use normalization_confluence.Common.Run.{ok}
use normalization_confluence.Oracle.Positive.Sums.{
  Shape, one, xo, xi, shape, succ, add_by, carry_by, add, add_carry, Halved, is_one, is_double,
  is_next, halve, then_xo, then_xi, succ-sum,
}

-- With `f` rounds, both sums are exact on positives of at most `f` digits.
record IsExact (f : ℕ) : Type 0 where
  sum :
      (m n : ℕ)
      → 1 ≤ m
      → 1 ≤ n
      → m < 2 ^ f
      → n < 2 ^ f
      → m + n < 2 ^ 63
      → add f (pos m) (pos n) ≡ ok (pos (m + n))
  carry :
      (m n : ℕ)
      → 1 ≤ m
      → 1 ≤ n
      → m < 2 ^ f
      → n < 2 ^ f
      → m + n + 1 < 2 ^ 63
      → add_carry f (pos m) (pos n) ≡ ok (pos (m + n + 1))

module _ (f : ℕ) (i : IsExact f) (m n : ℕ) (lm : m < 2 ^ suc f) (ln : n < 2 ^ suc f) where
  -- The bodies on the shapes of the numbers.
  add-shapes :
      (x y : Shape)
      → shape (pos m) ≡ x
      → shape (pos n) ≡ y
      → add (suc f) (pos m) (pos n) ≡ add_by (succ f) (add f) (add_carry f) x y
  unfolding add
  add-shapes x y e e' = rw (e, e') refl

  add_carry-shapes :
      (x y : Shape)
      → shape (pos m) ≡ x
      → shape (pos n) ≡ y
      → add_carry (suc f) (pos m) (pos n) ≡ carry_by (succ f) (add f) (add_carry f) x y
  unfolding add_carry
  add_carry-shapes x y e e' = rw (e, e') refl

  add-halves : Halved m → Halved n → m + n < 2 ^ 63 → add (suc f) (pos m) (pos n) ≡ ok (pos (m + n))
  unfolding add_by
  add-halves (is_one e s) (is_one e' s') h =
      add-shapes one one s s' ∙ ap (λ n. ok (pos n)) (omega arith)
  add-halves (is_one e s) (is_double q lq e' s') h =
      add-shapes one (xo (pos q)) s s' ∙ then_xi (ok (pos q)) q (m + n) refl (omega arith) h
  add-halves (is_one e s) (is_next q lq e' s') h =
      add-shapes one (xi (pos q)) s s'
      ∙ then_xo (succ f (pos q)) (q + 1) (m + n) (succ-sum f q lq (omega arith) (omega arith))
          (omega arith) h
  add-halves (is_double p lp e s) (is_one e' s') h =
      add-shapes (xo (pos p)) one s s' ∙ then_xi (ok (pos p)) p (m + n) refl (omega arith) h
  add-halves (is_double p lp e s) (is_double q lq e' s') h =
      add-shapes (xo (pos p)) (xo (pos q)) s s'
      ∙ then_xo (add f (pos p) (pos q)) (p + q) (m + n)
          (i.sum p q lp lq (omega arith) (omega arith) (omega arith)) (omega arith) h
  add-halves (is_double p lp e s) (is_next q lq e' s') h =
      add-shapes (xo (pos p)) (xi (pos q)) s s'
      ∙ then_xi (add f (pos p) (pos q)) (p + q) (m + n)
          (i.sum p q lp lq (omega arith) (omega arith) (omega arith)) (omega arith) h
  add-halves (is_next p lp e s) (is_one e' s') h =
      add-shapes (xi (pos p)) one s s'
      ∙ then_xo (succ f (pos p)) (p + 1) (m + n) (succ-sum f p lp (omega arith) (omega arith))
          (omega arith) h
  add-halves (is_next p lp e s) (is_double q lq e' s') h =
      add-shapes (xi (pos p)) (xo (pos q)) s s'
      ∙ then_xi (add f (pos p) (pos q)) (p + q) (m + n)
          (i.sum p q lp lq (omega arith) (omega arith) (omega arith)) (omega arith) h
  add-halves (is_next p lp e s) (is_next q lq e' s') h =
      add-shapes (xi (pos p)) (xi (pos q)) s s'
      ∙ then_xo (add_carry f (pos p) (pos q)) (p + q + 1) (m + n)
          (i.carry p q lp lq (omega arith) (omega arith) (omega arith)) (omega arith) h

  add_carry-halves :
      Halved m
      → Halved n
      → m + n + 1 < 2 ^ 63
      → add_carry (suc f) (pos m) (pos n) ≡ ok (pos (m + n + 1))
  unfolding carry_by
  add_carry-halves (is_one e s) (is_one e' s') h =
      add_carry-shapes one one s s' ∙ ap (λ n. ok (pos n)) (omega arith)
  add_carry-halves (is_one e s) (is_double q lq e' s') h =
      add_carry-shapes one (xo (pos q)) s s'
      ∙ then_xo (succ f (pos q)) (q + 1) (m + n + 1) (succ-sum f q lq (omega arith) (omega arith))
          (omega arith) h
  add_carry-halves (is_one e s) (is_next q lq e' s') h =
      add_carry-shapes one (xi (pos q)) s s'
      ∙ then_xi (succ f (pos q)) (q + 1) (m + n + 1) (succ-sum f q lq (omega arith) (omega arith))
          (omega arith) h
  add_carry-halves (is_double p lp e s) (is_one e' s') h =
      add_carry-shapes (xo (pos p)) one s s'
      ∙ then_xo (succ f (pos p)) (p + 1) (m + n + 1) (succ-sum f p lp (omega arith) (omega arith))
          (omega arith) h
  add_carry-halves (is_double p lp e s) (is_double q lq e' s') h =
      add_carry-shapes (xo (pos p)) (xo (pos q)) s s'
      ∙ then_xi (add f (pos p) (pos q)) (p + q) (m + n + 1)
          (i.sum p q lp lq (omega arith) (omega arith) (omega arith)) (omega arith) h
  add_carry-halves (is_double p lp e s) (is_next q lq e' s') h =
      add_carry-shapes (xo (pos p)) (xi (pos q)) s s'
      ∙ then_xo (add_carry f (pos p) (pos q)) (p + q + 1) (m + n + 1)
          (i.carry p q lp lq (omega arith) (omega arith) (omega arith)) (omega arith) h
  add_carry-halves (is_next p lp e s) (is_one e' s') h =
      add_carry-shapes (xi (pos p)) one s s'
      ∙ then_xi (succ f (pos p)) (p + 1) (m + n + 1) (succ-sum f p lp (omega arith) (omega arith))
          (omega arith) h
  add_carry-halves (is_next p lp e s) (is_double q lq e' s') h =
      add_carry-shapes (xi (pos p)) (xo (pos q)) s s'
      ∙ then_xo (add_carry f (pos p) (pos q)) (p + q + 1) (m + n + 1)
          (i.carry p q lp lq (omega arith) (omega arith) (omega arith)) (omega arith) h
  add_carry-halves (is_next p lp e s) (is_next q lq e' s') h =
      add_carry-shapes (xi (pos p)) (xi (pos q)) s s'
      ∙ then_xi (add_carry f (pos p) (pos q)) (p + q + 1) (m + n + 1)
          (i.carry p q lp lq (omega arith) (omega arith) (omega arith)) (omega arith) h

rounds-IsExact : (f : ℕ) → IsExact f
rounds-IsExact zero = record {
  sum = λ m n lm ln bm bn h. absurd (omega arith);
  carry = λ m n lm ln bm bn h. absurd (omega arith);
}
rounds-IsExact (suc f) =
    let i = rounds-IsExact f in
    record {
      sum = λ m n lm ln bm bn h. add-halves f i m n bm bn (halve m lm) (halve n ln) h;
      carry = λ m n lm ln bm bn h. add_carry-halves f i m n bm bn (halve m lm) (halve n ln) h;
    }

-- The two sums of positives whose sum and one more is an int64, with 63 rounds.
pub add-sum :
    (m n : ℕ)
    → 1 ≤ m
    → 1 ≤ n
    → m + n + 1 < 2 ^ 63
    → (add 63 (pos m) (pos n) ≡ ok (pos (m + n)))
      × (add_carry 63 (pos m) (pos n) ≡ ok (pos (m + n + 1)))
add-sum m n lm ln h =
    let i = rounds-IsExact 63 in
    (
      i.sum m n lm ln (omega arith) (omega arith) (omega arith),
      i.carry m n lm ln (omega arith) (omega arith) h,
    )
