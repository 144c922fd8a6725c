-- ===== src/Oracle/Positive/Sums.antt =====
-- Sums of positives digit by digit, in coq/goextract/oracle/oracle_gen.go: posXI, posXO, F_succ, F_add
-- and F_add_carry. Each call halves its first number, so 63 rounds are enough for an int64.
use native.Mathlib.Decide.{ℕ_discrete}
use normalization_confluence.Common.{
  ℕ, zero, suc, ◌+◌, ◌*◌, ◌/◌, ◌%◌, ◌^◌, ◌≤◌, ◌<◌, ◌≡◌, refl, sym, ap, ◌∙◌, arith, if◌then◌else◌,
}
use normalization_confluence.Common.Int.{ℤ, pos, negsuc}
use normalization_confluence.Common.Run.{Run, ok, panic, ◌>>=◌, not_a_positive, no_case_matches}
use normalization_confluence.Oracle.Prims.{z_add, z_mul}
use normalization_confluence.Oracle.Prims.Exact.{z_add_pos}
use normalization_confluence.Oracle.Prims.Product.{z_mul_pos}
use normalization_confluence.Oracle.Positive.{is_odd, is_even}

unfoldable pub pos_xo : ℤ → Run ℤ
pos_xo p = z_mul (pos 2) p

unfoldable pub pos_xi : ℤ → Run ℤ
pos_xi p = do t ← z_mul (pos 2) p; z_add t (pos 1)

-- The cases of a positive: 1, 2 * p and 2 * p + 1.
pub data Shape : Type 0 where
  no_positive one : Shape
  xo xi : ℤ → Shape

unfoldable pub shape : ℤ → Shape
shape (negsuc _) = no_positive
shape (pos zero) = no_positive
shape (pos (suc n)) =
    if is_odd (suc n)
    then xi (pos (suc n / 2))
    else if is_even (suc n)
    then xo (pos (suc n / 2))
    else one

-- The body of F_succ; `inc` is its own call.
unfoldable pub succ_by : (ℤ → Run ℤ) → Shape → Run ℤ
unfolding pos_xo pos_xi
succ_by inc no_positive = panic not_a_positive
succ_by inc one = ok (pos 2)
succ_by inc (xo p) = pos_xi p
succ_by inc (xi p) = do t ← inc p; pos_xo t

unfoldable pub succ : ℕ → ℤ → Run ℤ
unfolding succ_by shape
succ zero x = panic no_case_matches
succ (suc f) x = succ_by (succ f) (shape x)

-- The bodies of F_add and F_add_carry; `inc`, `sum` and `carry` are the calls of F_succ and of the two.
module _ (inc : ℤ → Run ℤ) (sum carry : ℤ → ℤ → Run ℤ) where
  unfoldable pub add_by : Shape → Shape → Run ℤ
  unfolding pos_xo pos_xi
  add_by no_positive y = panic not_a_positive
  add_by one no_positive = panic not_a_positive
  add_by one one = ok (pos 2)
  add_by one (xo q) = pos_xi q
  add_by one (xi q) = do t ← inc q; pos_xo t
  add_by (xo p) no_positive = panic not_a_positive
  add_by (xo p) one = pos_xi p
  add_by (xo p) (xo q) = do t ← sum p q; pos_xo t
  add_by (xo p) (xi q) = do t ← sum p q; pos_xi t
  add_by (xi p) no_positive = panic not_a_positive
  add_by (xi p) one = do t ← inc p; pos_xo t
  add_by (xi p) (xo q) = do t ← sum p q; pos_xi t
  add_by (xi p) (xi q) = do t ← carry p q; pos_xo t

  unfoldable pub carry_by : Shape → Shape → Run ℤ
  unfolding pos_xo pos_xi
  carry_by no_positive y = panic not_a_positive
  carry_by one no_positive = panic not_a_positive
  carry_by one one = ok (pos 3)
  carry_by one (xo q) = do t ← inc q; pos_xo t
  carry_by one (xi q) = do t ← inc q; pos_xi t
  carry_by (xo p) no_positive = panic not_a_positive
  carry_by (xo p) one = do t ← inc p; pos_xo t
  carry_by (xo p) (xo q) = do t ← sum p q; pos_xi t
  carry_by (xo p) (xi q) = do t ← carry p q; pos_xo t
  carry_by (xi p) no_positive = panic not_a_positive
  carry_by (xi p) one = do t ← inc p; pos_xi t
  carry_by (xi p) (xo q) = do t ← carry p q; pos_xo t
  carry_by (xi p) (xi q) = do t ← carry p q; pos_xi t

unfoldable mutual
  unfolding shape succ add_by carry_by

  pub add : ℕ → ℤ → ℤ → Run ℤ
  add zero x y = panic no_case_matches
  add (suc f) x y = add_by (succ f) (add f) (add_carry f) (shape x) (shape y)

  pub add_carry : ℕ → ℤ → ℤ → Run ℤ
  add_carry zero x y = panic no_case_matches
  add_carry (suc f) x y = carry_by (succ f) (add f) (add_carry f) (shape x) (shape y)

-- The shape of a positive, with the number in its halves.
pub data Halved (n : ℕ) : Type 0 where
  is_one : n ≡ 1 → shape (pos n) ≡ one → Halved n
  is_double : (h : ℕ) → 1 ≤ h → n ≡ 2 * h → shape (pos n) ≡ xo (pos h) → Halved n
  is_next : (h : ℕ) → 1 ≤ h → n ≡ 2 * h + 1 → shape (pos n) ≡ xi (pos h) → Halved n

shape-one : (n : ℕ) → suc n ≡ 1 → shape (pos (suc n)) ≡ one
unfolding shape
shape-one n e = ground arith

shape-xo : (n h : ℕ) → 1 ≤ h → suc n ≡ 2 * h → shape (pos (suc n)) ≡ xo (pos (suc n / 2))
unfolding shape
shape-xo n h le e = ground arith

shape-xi : (n h : ℕ) → 1 ≤ h → suc n ≡ 2 * h + 1 → shape (pos (suc n)) ≡ xi (pos (suc n / 2))
unfolding shape
shape-xi n h le e = ground arith

pub halve : (n : ℕ) → 1 ≤ n → Halved n
halve zero le = absurd (omega arith)
halve (suc n) le = elim (ℕ_discrete (suc n) 1) [
  | yes e ↦ is_one e (shape-one n e)
  | no ne ↦ elim (ℕ_discrete (suc n % 2) 0) [
    | yes e ↦
        is_double (suc n / 2) (omega arith) (omega arith)
          (shape-xo n (suc n / 2) (omega arith) (omega arith))
    | no o ↦
        is_next (suc n / 2) (omega arith) (omega arith)
          (shape-xi n (suc n / 2) (omega arith) (omega arith))
  ]
]

pos_xo_lem : (p : ℕ) → 2 * p < 2 ^ 63 → pos_xo (pos p) ≡ ok (pos (2 * p))
unfolding pos_xo
pos_xo_lem p h = z_mul_pos 2 p (omega arith) (omega arith) h

pos_xi_lem : (p : ℕ) → 2 * p + 1 < 2 ^ 63 → pos_xi (pos p) ≡ ok (pos (2 * p + 1))
unfolding pos_xi
pos_xi_lem p h =
    rw (z_mul_pos 2 p (omega arith) (omega arith) (omega arith)) (z_add_pos (2 * p) 1 h)

-- Twice a result, and one more.
pub then_xo :
    (r : Run ℤ) (k n : ℕ) → r ≡ ok (pos k) → n ≡ 2 * k → n < 2 ^ 63 → (r >>= pos_xo) ≡ ok (pos n)
then_xo r k n e same h = rw e (pos_xo_lem k (omega arith) ∙ ap (λ n. ok (pos n)) (sym same))

pub then_xi :
    (r : Run ℤ) (k n : ℕ)
    → r ≡ ok (pos k)
    → n ≡ 2 * k + 1
    → n < 2 ^ 63
    → (r >>= pos_xi) ≡ ok (pos n)
then_xi r k n e same h = rw e (pos_xi_lem k (omega arith) ∙ ap (λ n. ok (pos n)) (sym same))

pub succ-sum : (f n : ℕ) → 1 ≤ n → n < 2 ^ f → n + 1 < 2 ^ 63 → succ f (pos n) ≡ ok (pos (n + 1))
unfolding succ succ_by
succ-sum zero n le lt h = absurd (omega arith)
succ-sum (suc f) n le lt h = elim (halve n le) [
  | is_one e s ↦ ap (succ_by (succ f)) s ∙ ap (λ n. ok (pos n)) (omega arith)
  | is_double p lp e s ↦
      ap (succ_by (succ f)) s ∙ then_xi (ok (pos p)) p (n + 1) refl (omega arith) h
  | is_next p lp e s ↦
      ap (succ_by (succ f)) s
      ∙ then_xo (succ f (pos p)) (p + 1) (n + 1) (succ-sum f p lp (omega arith) (omega arith))
          (omega arith) h
]
