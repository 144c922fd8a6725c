-- ===== src/Oracle/Prims.antt =====
-- The numeric primitives at the end of coq/goextract/oracle/oracle_gen.go (written by
-- coq/goextract/gogen/prims.go). An int64 is the integer that it stands for; `+ - *` and unary
-- minus are exact and then wrap, and `/` and `%` are Go's, which truncate toward zero.
pub mod Exact
pub mod Within
pub mod Product
use normalization_confluence.Common.{
  ℕ, suc, ◌+◌, ◌-◌, ◌*◌, ◌/◌, ◌%◌, ◌^◌, not, ◌&&◌, ◌||◌, if◌then◌else◌, ltb, leb, ◌==◌,
}
use normalization_confluence.Common.Int.{
  ℤ, pos, negsuc, sub_ℕ, ◌+ℤ◌, ◌-ℤ◌, ◌*ℤ◌, ltb_ℤ, leb_ℤ, eqb_ℤ, wrap64,
}
use normalization_confluence.Common.Run.{
  Run, ok, panic, ◌>>=◌, overflow_add, overflow_sub, overflow_mul, overflow_opp,
}

-- -2 ^ 63, `minInt64`.
abbrev pub min_int64 : ℤ
min_int64 = negsuc (2 ^ 63 - 1)

-- Go's `a / b` for b other than 0: the quotient truncated toward zero, wrapped at
-- `minInt64 / -1`.
abbrev pub quot : ℤ → ℤ → ℤ
quot (pos a) (pos b) = pos (a / b)
quot (pos a) (negsuc b) = sub_ℕ 0 (a / suc b)
quot (negsuc a) (pos b) = sub_ℕ 0 (suc a / b)
quot (negsuc a) (negsuc b) = pos (suc a / suc b)

unfoldable pub div64 : ℤ → ℤ → ℤ
div64 a b = wrap64 (quot a b)

unfoldable pub z_add : ℤ → ℤ → Run ℤ
z_add a b =
    let r = wrap64 (a +ℤ b) in
    if ltb_ℤ (pos 0) a && ltb_ℤ (pos 0) b && ltb_ℤ r (pos 0)
      || ltb_ℤ a (pos 0) && ltb_ℤ b (pos 0) && leb_ℤ (pos 0) r
    then panic overflow_add
    else ok r

unfoldable pub z_sub : ℤ → ℤ → Run ℤ
z_sub a b =
    let r = wrap64 (a -ℤ b) in
    if ltb_ℤ b (pos 0) && ltb_ℤ r a || ltb_ℤ (pos 0) b && ltb_ℤ a r
    then panic overflow_sub
    else ok r

unfoldable pub z_mul : ℤ → ℤ → Run ℤ
unfolding div64
z_mul a b =
    if eqb_ℤ a (pos 0) || eqb_ℤ b (pos 0)
    then ok (pos 0)
    else let r = wrap64 (a *ℤ b) in
      if not (eqb_ℤ (div64 r b) a)
        || eqb_ℤ a (negsuc 0) && eqb_ℤ b min_int64
        || eqb_ℤ b (negsuc 0) && eqb_ℤ a min_int64
      then panic overflow_mul
      else ok r

unfoldable pub z_opp : ℤ → Run ℤ
z_opp a = if eqb_ℤ a min_int64 then panic overflow_opp else ok (wrap64 (pos 0 -ℤ a))

unfoldable pub z_abs : ℤ → Run ℤ
z_abs a = if ltb_ℤ a (pos 0) then z_opp a else ok a

unfoldable pub nat_succ : ℤ → Run ℤ
nat_succ a = z_add a (pos 1)

-- `a - b` is computed only where a > b, so it wraps only if b is negative.
unfoldable pub nat_sub : ℤ → ℤ → ℤ
nat_sub a b = if leb_ℤ a b then pos 0 else wrap64 (a -ℤ b)

unfoldable pub nat_div2 : ℤ → ℤ
unfolding div64
nat_div2 a = div64 a (pos 2)

abbrev pub min64 : ℤ → ℤ → ℤ
min64 a b = if ltb_ℤ a b then a else b

abbrev pub max64 : ℤ → ℤ → ℤ
max64 a b = if ltb_ℤ b a then a else b
