-- ===== src/Oracle/Positive/Exact.antt =====
-- F_iter_op, F_to_nat0, F_eqb0 and F_natZ, compared with exact arithmetic.
use native.Mathlib.Nat.{pow-suc, mul-div_cancel}
use native.Mathlib.Decide.{ℕ_discrete}
use normalization_confluence.Common.{
  ℕ, zero, suc, ◌+◌, ◌*◌, ◌^◌, ◌/◌, ◌%◌, ◌-◌, ◌≤◌, ◌<◌, ◌≡◌, ◌≢◌, refl, ◌==◌, ap, ◌∙◌, arith,
  if◌then◌else◌,
}
use normalization_confluence.Common.Int.{
  ℤ, pos, negsuc, ◌+ℤ◌, ◌-ℤ◌, ◌*ℤ◌, wrap64, IsI64, eqb_ℤ, pos_part,
}
use normalization_confluence.Common.Run.{ok, panic, overflow_opp}
use normalization_confluence.Oracle.Prims.Exact.{z_add_pos}
use normalization_confluence.Oracle.Prims.{z_add, z_mul, z_opp, nat_div2, min_int64, div64}
use normalization_confluence.Oracle.Positive.{eqb, eqb_0, iter_op, to_nat, to_nat_0, nat_z_f, nat_z}

-- Half of a number above 1 is a positive below half of a bound.
halved : (n : ℕ) → (h : ℕ) × (suc (suc n) / 2 ≡ suc h)
halved n = (n / 2, omega arith)

double : (n h a : ℕ) → n ≡ h + h → n * a ≡ h * (a + a)
double n h a e = rw e (omega arith)

double_suc : (n h a : ℕ) → n ≡ h + h + 1 → n * a ≡ a + h * (a + a)
double_suc n h a e = rw e (omega arith)

iter_op-z_add :
    (f p a : ℕ)
    → suc p < 2 ^ f
    → 0 < a
    → suc p * a < 2 ^ 63
    → iter_op f z_add (pos (suc p)) (pos a) ≡ ok (pos (suc p * a))
unfolding iter_op
iter_op-z_add zero p a lt ha bound = absurd (omega arith)
iter_op-z_add (suc f) zero a lt ha bound = ap (λ n. ok (pos n)) (omega arith)
iter_op-z_add (suc f) (suc p) a lt ha bound =
    let (h, q) = halved p in
    let e = pow-suc 2 f in
    elim (ℕ_discrete (suc (suc p) % 2) 1) [
      | yes odd ↦
          let d = double_suc (suc (suc p)) (suc h) a (omega arith) in
          rw (z_add_pos a a (omega arith)) (
            rw q (
              rw (iter_op-z_add f h (a + a) (omega arith) (omega arith) (omega arith))
                (rw (z_add_pos a (suc h * (a + a)) (omega arith)) (ground arith))))
      | no even ↦
          let d = double (suc (suc p)) (suc h) a (omega arith) in
          rw (z_add_pos a a (omega arith)) (
            rw q (
              rw (iter_op-z_add f h (a + a) (omega arith) (omega arith) (omega arith))
                (ground arith)))
    ]

to_nat-exact : (n : ℕ) → suc n < 2 ^ 63 → to_nat (pos (suc n)) ≡ ok (pos (suc n))
unfolding to_nat
to_nat-exact n h =
    iter_op-z_add 63 n 1 h (omega arith) (omega arith) ∙ ap (λ k. ok (pos k)) (omega arith)

-- On an int64, `F_to_nat0` returns the number itself, 0 for a negative one, and panics on the least
-- int64.
pub to_nat_0-exact :
    (z : ℤ)
    → IsI64 z
    → to_nat_0 z ≡ (if eqb_ℤ z min_int64 then panic overflow_opp else ok (pos (pos_part z)))
unfolding to_nat_0 z_opp
to_nat_0-exact (pos zero) h = ground arith
to_nat_0-exact (pos (suc n)) h = rw (to_nat-exact n h) (ground arith)
to_nat_0-exact (negsuc n) h = elim (ℕ_discrete n (2 ^ 63 - 1)) [
  | yes e ↦ ground arith
  | no ne ↦ ground arith
]

twice_div : (k : ℕ) → 2 * suc k / suc k ≡ 2
twice_div k = mul-div_cancel 2 (omega arith)

z_mul_2 : (k : ℕ) → 2 * k < 2 ^ 63 → z_mul (pos 2) (pos k) ≡ ok (pos (2 * k))
unfolding z_mul wrap64 ◌*ℤ◌ div64
z_mul_2 zero h = ground arith
z_mul_2 (suc k) h = ground (arith, twice_div k)

nat_div2_pos : (n : ℕ) → n < 2 ^ 63 → nat_div2 (pos n) ≡ pos (n / 2)
unfolding nat_div2 div64 wrap64
nat_div2_pos n h = ground arith

add_digit :
    (n : ℕ)
    → suc n < 2 ^ 63
    → (if eqb_ℤ (pos (suc n)) (pos 0)
        then ok (pos 0)
        else z_add
            (pos (2 * (suc n / 2)))
            (if eqb_ℤ (pos (suc n)) (pos (2 * (suc n / 2))) then pos 0 else pos 1))
      ≡ ok (pos (suc n))
unfolding z_add wrap64 ◌+ℤ◌
add_digit n h = ground arith

-- The digits of a number, on at least as much fuel as the number: the number itself.
nat_z_f-exact : (f n : ℕ) → n ≤ f → n < 2 ^ 63 → nat_z_f (pos f) (pos n) ≡ ok (pos n)
unfolding nat_z_f
nat_z_f-exact zero n le h = ground arith
nat_z_f-exact (suc f) zero le h = ground arith
nat_z_f-exact (suc f) (suc n) le h = rw (nat_div2_pos (suc n) h) (
    rw (nat_z_f-exact f (suc n / 2) (omega arith) (omega arith))
      (rw (z_mul_2 (suc n / 2) (omega arith)) (add_digit n h)))

-- On a nat, `F_natZ` returns the number itself.
pub nat_z-exact : (n : ℕ) → n < 2 ^ 63 → nat_z (pos n) ≡ ok (pos n)
unfolding nat_z
nat_z-exact n h = nat_z_f-exact n n (omega arith) h

-- Equality from the lowest digit on: enough digits for the first number are enough for both.
eqb-exact : (f p q : ℕ) → suc p < 2 ^ f → eqb f (pos (suc p)) (pos (suc q)) ≡ ok (suc p == suc q)
unfolding eqb
eqb-exact zero p q lt = absurd (omega arith)
eqb-exact (suc f) zero q lt = ground arith
eqb-exact (suc f) (suc p) zero lt = ground arith
eqb-exact (suc f) (suc p) (suc q) lt =
    let (h, e) = halved p in
    let (k, e') = halved q in
    let two = pow-suc 2 f in rw e (rw e' (rw (eqb-exact f h k (omega arith)) (ground arith)))

z_opp_negsuc : (n : ℕ) → n < 2 ^ 63 - 1 → z_opp (negsuc n) ≡ ok (pos (suc n))
unfolding z_opp wrap64 ◌-ℤ◌
z_opp_negsuc n h = ground arith

below : (n : ℕ) → n < 2 ^ 63 → negsuc n ≢ min_int64 → n < 2 ^ 63 - 1
below n h ne = elim (ℕ_discrete n (2 ^ 63 - 1)) [
  | yes e ↦ absurd (ne (rw e refl))
  | no n_ne ↦ omega arith
]

-- On int64 values other than the least one, `F_eqb0` returns without a panic whether they are equal.
pub eqb_0-exact :
    (x y : ℤ) → IsI64 x → IsI64 y → x ≢ min_int64 → y ≢ min_int64 → eqb_0 x y ≡ ok (eqb_ℤ x y)
unfolding eqb_0
eqb_0-exact (pos zero) (pos zero) hx hy nx ny = refl
eqb_0-exact (pos zero) (pos (suc q)) hx hy nx ny = ground arith
eqb_0-exact (pos (suc p)) (pos zero) hx hy nx ny = ground arith
eqb_0-exact (pos (suc p)) (pos (suc q)) hx hy nx ny = rw (eqb-exact 63 p q hx) (ground arith)
eqb_0-exact (pos zero) (negsuc q) hx hy nx ny = rw (z_opp_negsuc q (below q hy ny)) (ground arith)
eqb_0-exact (pos (suc p)) (negsuc q) hx hy nx ny =
    rw (z_opp_negsuc q (below q hy ny)) (ground arith)
eqb_0-exact (negsuc p) (pos q) hx hy nx ny = rw (z_opp_negsuc p (below p hx nx)) (ground arith)
eqb_0-exact (negsuc p) (negsuc q) hx hy nx ny = rw (z_opp_negsuc p (below p hx nx)) (
    rw (z_opp_negsuc q (below q hy ny))
      (rw (eqb-exact 63 p q (omega (arith, below p hx nx))) (ground arith)))
