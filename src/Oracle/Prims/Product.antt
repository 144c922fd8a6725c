-- ===== src/Oracle/Prims/Product.antt =====
-- zMul, compared with exact integer arithmetic.
use mathlib.Core.Path.{subst}
use native.Mathlib.Decide.{dec_lt}
use native.Mathlib.Nat.{mul-div_cancel, div-mul-le_self}
use normalization_confluence.Common.{
  ℕ, zero, suc, ◌*◌, ◌/◌, ◌%◌, ◌-◌, ◌^◌, ◌≤◌, ◌<◌, ◌≡◌, refl, arith, ◌∙◌,
}
use normalization_confluence.Common.Int.{ℤ, pos, negsuc, ◌*ℤ◌, IsI64, wrap64}
use normalization_confluence.Common.Run.{ok, overflow_mul}
use normalization_confluence.Oracle.Prims.{z_mul, div64}
use normalization_confluence.Oracle.Prims.Exact.{exact_or}

quotient-le : (r n m : ℕ) → r / n ≡ m → m * n ≤ r
quotient-le r n m e = subst (λ x. x * n ≤ r) e (div-mul-le_self r n)

pub product_pp : (a b p : ℕ) → a * b ≡ p → pos a *ℤ pos b ≡ pos p
unfolding ◌*ℤ◌
product_pp a b p e = ground arith

z_mul-exact_pp :
    (a b p : ℕ)
    → 0 < a
    → 0 < b
    → a < 2 ^ 63
    → b < 2 ^ 63
    → a * b ≡ p
    → p / b ≡ a
    → z_mul (pos a) (pos b) ≡ exact_or overflow_mul (pos p)
unfolding z_mul wrap64 div64
z_mul-exact_pp a b p pa pb ha hb e q = elim (dec_lt p (2 ^ 63)) [
  | yes lt ↦ rw (product_pp a b p e) (ground arith)
  | no ge ↦ let le = quotient-le (p % 2 ^ 64) b a in rw (product_pp a b p e) (ground arith)
]

product_pn : (a b p : ℕ) → a * suc b ≡ suc p → pos a *ℤ negsuc b ≡ negsuc p
unfolding ◌*ℤ◌
product_pn a b p e = ground arith

product_np : (a b p : ℕ) → suc a * b ≡ suc p → negsuc a *ℤ pos b ≡ negsuc p
unfolding ◌*ℤ◌
product_np a b p e = ground arith

product_nn : (a b p : ℕ) → suc a * suc b ≡ p → negsuc a *ℤ negsuc b ≡ pos p
unfolding ◌*ℤ◌
product_nn a b p e = ground arith

z_mul-exact_pn :
    (a b p : ℕ)
    → 0 < a
    → a < 2 ^ 63
    → b < 2 ^ 63
    → a * suc b ≡ suc p
    → suc p / suc b ≡ a
    → z_mul (pos a) (negsuc b) ≡ exact_or overflow_mul (negsuc p)
unfolding z_mul wrap64 div64
z_mul-exact_pn a b p pa ha hb e q = elim (dec_lt p (2 ^ 63)) [
  | yes lt ↦ rw (product_pn a b p e) (ground arith)
  | no ge ↦
      let le = quotient-le (suc (p % 2 ^ 64)) (suc b) a in rw (product_pn a b p e) (ground arith)
]

z_mul-exact_np :
    (a b p : ℕ)
    → 0 < b
    → a < 2 ^ 63
    → b < 2 ^ 63
    → suc a * b ≡ suc p
    → suc p / b ≡ suc a
    → z_mul (negsuc a) (pos b) ≡ exact_or overflow_mul (negsuc p)
unfolding z_mul wrap64 div64
z_mul-exact_np a b p pb ha hb e q = elim (dec_lt p (2 ^ 63)) [
  | yes lt ↦ rw (product_np a b p e) (ground arith)
  | no ge ↦
      let le = quotient-le (suc (p % 2 ^ 64)) b (suc a) in rw (product_np a b p e) (ground arith)
]

z_mul-exact_nn :
    (a b p : ℕ)
    → a < 2 ^ 63
    → b < 2 ^ 63
    → suc a * suc b ≡ p
    → p / suc b ≡ suc a
    → z_mul (negsuc a) (negsuc b) ≡ exact_or overflow_mul (pos p)
unfolding z_mul wrap64 div64
z_mul-exact_nn a b p ha hb e q = elim (dec_lt p (2 ^ 63)) [
  | yes lt ↦ rw (product_nn a b p e) (ground arith)
  | no ge ↦
      let le = quotient-le (2 ^ 64 - p % 2 ^ 64) (suc b) (suc a) in
      rw (product_nn a b p e) (ground arith)
]

-- A product of positives is a successor, and either factor divides it.
factor : (a b : ℕ) → (p : ℕ) × (suc a * suc b ≡ suc p) × (suc p / suc b ≡ suc a)
factor a b =
    let e : suc a * suc b ≡ suc (suc a * suc b - 1) = omega arith in
    (suc a * suc b - 1, e, subst (λ x. x / suc b ≡ suc a) e (mul-div_cancel (suc a) (omega arith)))

zero_product : (b : ℤ) → (pos 0 *ℤ b ≡ pos 0) × (b *ℤ pos 0 ≡ pos 0)
unfolding ◌*ℤ◌
zero_product (pos b) = (ground arith, ground arith)
zero_product (negsuc b) = (ground arith, ground arith)

z_mul_zero : (b : ℤ) → (z_mul (pos 0) b ≡ ok (pos 0)) × (z_mul b (pos 0) ≡ ok (pos 0))
unfolding z_mul
z_mul_zero (pos b) = (ground arith, ground arith)
z_mul_zero (negsuc b) = (ground arith, ground arith)

-- On int64 operands, `zMul` returns the exact product where that is an int64, and panics elsewhere.
pub z_mul-exact_or : (a b : ℤ) → IsI64 a → IsI64 b → z_mul a b ≡ exact_or overflow_mul (a *ℤ b)
z_mul-exact_or (pos zero) b ha hb = rw (zero_product b).0 (rw (z_mul_zero b).0 refl)
z_mul-exact_or (pos (suc a)) (pos zero) ha hb =
    rw (zero_product (pos (suc a))).1 (rw (z_mul_zero (pos (suc a))).1 refl)
z_mul-exact_or (negsuc a) (pos zero) ha hb =
    rw (zero_product (negsuc a)).1 (rw (z_mul_zero (negsuc a)).1 refl)
z_mul-exact_or (pos (suc a)) (pos (suc b)) ha hb =
    let (p, e, q) = factor a b in
    rw (product_pp (suc a) (suc b) (suc p) e)
      (z_mul-exact_pp (suc a) (suc b) (suc p) (omega arith) (omega arith) ha hb e q)
z_mul-exact_or (pos (suc a)) (negsuc b) ha hb =
    let (p, e, q) = factor a b in
    rw (product_pn (suc a) b p e) (z_mul-exact_pn (suc a) b p (omega arith) ha hb e q)
z_mul-exact_or (negsuc a) (pos (suc b)) ha hb =
    let (p, e, q) = factor a b in
    rw (product_np a (suc b) p e) (z_mul-exact_np a (suc b) p (omega arith) ha hb e q)
z_mul-exact_or (negsuc a) (negsuc b) ha hb =
    let (p, e, q) = factor a b in
    rw (product_nn a b (suc p) e) (z_mul-exact_nn a b (suc p) ha hb e q)

pub z_mul_pos :
    (a b : ℕ) → a < 2 ^ 63 → b < 2 ^ 63 → a * b < 2 ^ 63 → z_mul (pos a) (pos b) ≡ ok (pos (a * b))
z_mul_pos a b ha hb h =
    z_mul-exact_or (pos a) (pos b) ha hb ∙ rw (product_pp a b (a * b) refl) (exact (a * b) h)
  where
    exact : (n : ℕ) → n < 2 ^ 63 → exact_or overflow_mul (pos n) ≡ ok (pos n)
    exact n h = ground arith
