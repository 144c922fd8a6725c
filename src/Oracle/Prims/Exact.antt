-- ===== src/Oracle/Prims/Exact.antt =====
-- The numeric primitives of coq/goextract/gogen/prims.go, compared with exact integer arithmetic.
use normalization_confluence.Common.{ℕ, ◌+◌, ◌-◌, ◌^◌, ◌<◌, ◌≡◌, Bool, arith, if◌then◌else◌, ltb}
use normalization_confluence.Common.Int.{ℤ, pos, negsuc, ◌+ℤ◌, ◌-ℤ◌, IsI64, wrap64}
use normalization_confluence.Common.Run.{
  Run, ok, panic, Panic, overflow_add, overflow_sub, overflow_opp,
}
use normalization_confluence.Oracle.Prims.{z_add, z_sub, z_opp, nat_succ, nat_sub}

abbrev pub fits64 : ℤ → Bool
fits64 (pos n) = ltb n (2 ^ 63)
fits64 (negsuc n) = ltb n (2 ^ 63)

-- The exact result where it is an int64, else the panic.
abbrev pub exact_or : Panic → ℤ → Run ℤ
exact_or p v = if fits64 v then ok v else panic p

-- On int64 values, `zAdd` returns the exact sum where that is an int64, and panics elsewhere.
pub z_add-exact_or : (a b : ℤ) → IsI64 a → IsI64 b → z_add a b ≡ exact_or overflow_add (a +ℤ b)
unfolding z_add wrap64 ◌+ℤ◌
z_add-exact_or (pos a) (pos b) ha hb = ground arith
z_add-exact_or (pos a) (negsuc b) ha hb = ground arith
z_add-exact_or (negsuc a) (pos b) ha hb = ground arith
z_add-exact_or (negsuc a) (negsuc b) ha hb = ground arith

-- On int64 values, `zSub` returns the exact difference where that is an int64, and panics
-- elsewhere.
pub z_sub-exact_or : (a b : ℤ) → IsI64 a → IsI64 b → z_sub a b ≡ exact_or overflow_sub (a -ℤ b)
unfolding z_sub wrap64 ◌-ℤ◌
z_sub-exact_or (pos a) (pos b) ha hb = ground arith
z_sub-exact_or (pos a) (negsuc b) ha hb = ground arith
z_sub-exact_or (negsuc a) (pos b) ha hb = ground arith
z_sub-exact_or (negsuc a) (negsuc b) ha hb = ground arith

-- On int64 values, `zOpp` returns the exact negation where that is an int64, and panics elsewhere.
pub z_opp-exact_or : (a : ℤ) → IsI64 a → z_opp a ≡ exact_or overflow_opp (pos 0 -ℤ a)
unfolding z_opp wrap64 ◌-ℤ◌
z_opp-exact_or (pos a) ha = ground arith
z_opp-exact_or (negsuc a) ha = ground arith

pub z_add_pos : (a b : ℕ) → a + b < 2 ^ 63 → z_add (pos a) (pos b) ≡ ok (pos (a + b))
unfolding z_add wrap64 ◌+ℤ◌
z_add_pos a b h = ground arith

pub nat_succ_pos : (n : ℕ) → n + 1 < 2 ^ 63 → nat_succ (pos n) ≡ ok (pos (n + 1))
unfolding nat_succ z_add wrap64 ◌+ℤ◌
nat_succ_pos n h = ground arith

pub nat_sub_pos : (a b : ℕ) → a < 2 ^ 63 → nat_sub (pos a) (pos b) ≡ pos (a - b)
unfolding nat_sub wrap64 ◌-ℤ◌
nat_sub_pos a b h = ground arith
