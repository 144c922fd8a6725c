-- ===== src/Oracle/Positive.antt =====
-- The arithmetic of coq/goextract/oracle/oracle_gen.go that runs over the binary digits of a
-- number: F_eqb, F_iter_op, F_to_nat, F_to_nat0, F_eqb0, F_natZF and F_natZ. The first two halve a
-- positive until it is 1, so 63 rounds are enough for an int64 (Positive/Exact).
pub mod Exact
pub mod Sums
pub mod Carry
use normalization_confluence.Common.{
  ℕ, zero, suc, ◌/◌, ◌%◌, Bool, true, false, ◌&&◌, if◌then◌else◌, ltb, ◌==◌,
}
use normalization_confluence.Common.Int.{ℤ, pos, negsuc, ltb_ℤ, eqb_ℤ}
use normalization_confluence.Common.Run.{
  Run, ok, panic, ◌>>=◌, not_a_nat, not_a_positive, no_case_matches,
}
use normalization_confluence.Oracle.Prims.{z_add, z_mul, z_opp, nat_div2}

-- `p > 1 && p % 2 == 1`, and `p > 1 && p % 2 == 0`.
abbrev pub is_odd : ℕ → Bool
is_odd p = ltb 1 p && p % 2 == 1

abbrev pub is_even : ℕ → Bool
is_even p = ltb 1 p && p % 2 == 0

-- Equality of positives, digit by digit from the lowest.
unfoldable pub eqb : ℕ → ℤ → ℤ → Run Bool
eqb zero p q = panic no_case_matches
eqb (suc f) (negsuc _) q = panic not_a_positive
eqb (suc f) (pos zero) q = panic not_a_positive
eqb (suc f) (pos (suc p)) (negsuc _) = panic not_a_positive
eqb (suc f) (pos (suc p)) (pos zero) = panic not_a_positive
eqb (suc f) (pos (suc p)) (pos (suc q)) =
    let rest = eqb f (pos (suc p / 2)) (pos (suc q / 2)) in
    if is_odd (suc p)
    then (if is_odd (suc q) then rest else ok false)
    else if is_even (suc p)
    then (if is_even (suc q) then rest else ok false)
    else ok (suc q == 1)

-- The sum of `p` copies of `a` by doubling.
unfoldable pub iter_op {ℓ} : {A : Type ℓ} → ℕ → (A → A → Run A) → ℤ → A → Run A
iter_op zero op p a = panic no_case_matches
iter_op (suc f) op (negsuc _) a = panic not_a_positive
iter_op (suc f) op (pos zero) a = panic not_a_positive
iter_op (suc f) op (pos (suc p)) a =
    let twice = op a a in
    let rest = (twice >>= λ b. iter_op f op (pos (suc p / 2)) b) in
    if is_odd (suc p) then (rest >>= λ r. op a r) else if is_even (suc p) then rest else ok a

abbrev digits : ℕ
digits = 63

unfoldable pub to_nat : ℤ → Run ℤ
unfolding iter_op
to_nat x = iter_op digits z_add x (pos 1)

-- Z.to_nat: 0 for a negative number, whose absolute value is computed all the same.
unfoldable pub to_nat_0 : ℤ → Run ℤ
unfolding to_nat
to_nat_0 (pos zero) = ok (pos 0)
to_nat_0 (pos (suc n)) = to_nat (pos (suc n))
to_nat_0 (negsuc n) = do _ ← z_opp (negsuc n); ok (pos 0)

-- Z.eqb, by signs.
unfoldable pub eqb_0 : ℤ → ℤ → Run Bool
unfolding eqb
eqb_0 (pos zero) (pos zero) = ok true
eqb_0 (pos zero) (pos (suc _)) = ok false
eqb_0 (pos zero) (negsuc q) = do _ ← z_opp (negsuc q); ok false
eqb_0 (pos (suc p)) (pos zero) = ok false
eqb_0 (pos (suc p)) (pos (suc q)) = eqb digits (pos (suc p)) (pos (suc q))
eqb_0 (pos (suc p)) (negsuc q) = do _ ← z_opp (negsuc q); ok false
eqb_0 (negsuc p) (pos _) = do _ ← z_opp (negsuc p); ok false
eqb_0 (negsuc p) (negsuc q) = do a ← z_opp (negsuc p); b ← z_opp (negsuc q); eqb digits a b

-- Z.of_nat, on fuel of its own.
unfoldable pub nat_z_f : ℤ → ℤ → Run ℤ
nat_z_f (negsuc _) n = panic not_a_nat
nat_z_f (pos zero) n = ok (pos 0)
nat_z_f (pos (suc f)) n =
    let high = (do h ← nat_z_f (pos f) (nat_div2 n); z_mul (pos 2) h) in
    let low = (do e ← z_mul (pos 2) (nat_div2 n); ok (if eqb_ℤ n e then pos 0 else pos 1)) in
    if eqb_ℤ n (pos 0) then ok (pos 0) else (high >>= λ h. low >>= λ l. z_add h l)

unfoldable pub nat_z : ℤ → Run ℤ
unfolding nat_z_f
nat_z n = nat_z_f n n
