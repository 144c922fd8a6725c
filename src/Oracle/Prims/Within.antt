-- ===== src/Oracle/Prims/Within.antt =====
-- zAdd, zSub and zAbs on numbers within bounds.
use mathlib.Core.Path.{subst}
use native.Mathlib.Decide.{dec_lt}
use normalization_confluence.Common.{
  Bool, true, false, ℕ, suc, ◌+◌, ◌^◌, ◌≤◌, ◌<◌, ◌≡◌, sym, ◌∙◌, arith, if◌then◌else◌,
}
use normalization_confluence.Common.Int.{
  int_laws, ℤ, pos, negsuc, ◌≤ℤ◌, ◌+ℤ◌, ◌-ℤ◌, IsI64, wrap64, ltb_ℤ,
}
use normalization_confluence.Common.Run.{Panic, ok, panic, overflow_add, overflow_sub, ok_inj}
use normalization_confluence.Oracle.Prims.Exact.{
  exact_or, z_add-exact_or, z_sub-exact_or, z_add_pos,
}
use normalization_confluence.Oracle.Prims.{z_add, z_sub, z_abs, z_opp, max64}

abbrev pub abs : ℤ → ℕ
abs (pos n) = n
abs (negsuc n) = suc n

-- The absolute value of `r` is at most `b`.
abbrev pub IsWithin : ℤ → ℤ → Type 0
IsWithin b r = pos (abs r) ≤ℤ b

pub z_abs-within : (a : ℤ) {b : ℤ} → IsI64 a → z_abs a ≡ ok b → (b ≡ pos (abs a)) × IsI64 b
unfolding z_abs z_opp wrap64 ◌-ℤ◌
z_abs-within (pos a) h e = ground arith
z_abs-within (negsuc a) {b = pos b} h e = ground arith
z_abs-within (negsuc a) {b = negsuc b} h e = ground arith

z_add-overflow :
    (a b : ℕ)
    → a < 2 ^ 63
    → b < 2 ^ 63
    → 2 ^ 63 ≤ a + b
    → z_add (pos a) (pos b) ≡ panic overflow_add
unfolding z_add wrap64 ◌+ℤ◌
z_add-overflow a b ha hb h = ground arith

bounds-add :
    (a b : ℕ) {c : ℤ}
    → a < 2 ^ 63
    → b < 2 ^ 63
    → z_add (pos a) (pos b) ≡ ok c
    → (c ≡ pos (a + b)) × (a + b < 2 ^ 63)
bounds-add a b {c} ha hb e = elim (dec_lt (a + b) (2 ^ 63)) [
  | yes lt ↦ (ok_inj (sym e ∙ z_add_pos a b lt), lt)
  | no ge ↦ let over = z_add-overflow a b ha hb (omega arith) in absurd (cc)
]

pub small-add :
    (x y : ℤ) → abs x + abs y < 2 ^ 63 → (r : ℤ) × (z_add x y ≡ ok r) × (abs r ≤ abs x + abs y)
unfolding z_add wrap64 ◌+ℤ◌
small-add (pos x) (pos y) h = (pos (x + y), ground arith, omega arith)
small-add (negsuc x) (negsuc y) h = (negsuc (x + y + 1), ground arith, omega arith)
small-add (pos x) (negsuc y) h = (pos x +ℤ negsuc y, ground arith, ground arith)
small-add (negsuc x) (pos y) h = (negsuc x +ℤ pos y, ground arith, ground arith)

pub small-sub :
    (x y : ℤ) → abs x + abs y < 2 ^ 63 → (r : ℤ) × (z_sub x y ≡ ok r) × (abs r ≤ abs x + abs y)
unfolding z_sub wrap64 ◌-ℤ◌
small-sub (pos x) (pos y) h = (pos x -ℤ pos y, ground arith, ground arith)
small-sub (negsuc x) (negsuc y) h = (negsuc x -ℤ negsuc y, ground arith, ground arith)
small-sub (pos x) (negsuc y) h = (pos x -ℤ negsuc y, ground arith, ground arith)
small-sub (negsuc x) (pos y) h = (negsuc x -ℤ pos y, ground arith, ground arith)

-- Where the sum of two bounds is computed, it bounds the sum and the difference of two numbers
-- within them.
pub sum-IsWithin :
    (x y a b : ℤ) {c : ℤ}
    → IsI64 a
    → IsI64 b
    → IsWithin a x
    → IsWithin b y
    → z_add a b ≡ ok c
    → (abs x + abs y < 2 ^ 63) × ((r : ℤ) → abs r ≤ abs x + abs y → IsWithin c r) × IsI64 c
sum-IsWithin x y (negsuc a) b ha hb wx wy e = absurd (omega arith)
sum-IsWithin x y (pos a) (negsuc b) ha hb wx wy e = absurd (omega arith)
sum-IsWithin x y (pos a) (pos b) {c} ha hb wx wy e =
    let (q, lt) = bounds-add a b ha hb e in
    (omega arith, (λ r le. subst (λ u. IsWithin u r) (sym q) (omega arith)), subst IsI64 (sym q) lt)

pub exact_or-returned : (q : Panic) (v : ℤ) {r : ℤ} → exact_or q v ≡ ok r → (v ≡ r) × IsI64 r
exact_or-returned q (pos n) e = ground arith
exact_or-returned q (negsuc n) e = ground arith

pub max64-IsI64 : (a b : ℤ) → IsI64 a → IsI64 b → IsI64 (max64 a b)
max64-IsI64 a b ha hb = choose (ltb_ℤ b a)
  where
    choose : (c : Bool) → IsI64 (if c then a else b)
    choose true = ha
    choose false = hb

-- What a returned sum or difference of int64 values is.
pub z_add-returned :
    (a b : ℤ) {r : ℤ} → IsI64 a → IsI64 b → z_add a b ≡ ok r → (a +ℤ b ≡ r) × IsI64 r
z_add-returned a b ha hb e =
    exact_or-returned overflow_add (a +ℤ b) (sym (z_add-exact_or a b ha hb) ∙ e)

pub z_sub-returned :
    (a b : ℤ) {r : ℤ} → IsI64 a → IsI64 b → z_sub a b ≡ ok r → (a -ℤ b ≡ r) × IsI64 r
z_sub-returned a b ha hb e =
    exact_or-returned overflow_sub (a -ℤ b) (sym (z_sub-exact_or a b ha hb) ∙ e)

add-mono : (a b c d : ℤ) → a ≤ℤ c → b ≤ℤ d → (a +ℤ b) ≤ℤ (c +ℤ d)
add-mono a b c d h h' = grind int_laws

sub-mono : (a b c d : ℤ) → a ≤ℤ c → d ≤ℤ b → (a -ℤ b) ≤ℤ (c -ℤ d)
sub-mono a b c d h h' = grind int_laws

-- Checked sums and differences keep an order between int64 operands.
pub z_add_mono :
    (a b c d : ℤ) {r t : ℤ}
    → (a ≤ℤ c) × IsI64 a
    → (b ≤ℤ d) × IsI64 b
    → IsI64 c
    → IsI64 d
    → z_add a b ≡ ok r
    → z_add c d ≡ ok t
    → (r ≤ℤ t) × (IsI64 r × IsI64 t)
z_add_mono a b c d {r} {t} (le, ha) (le', hb) hc hd e e' =
    let (q, hr) = z_add-returned a b ha hb e in
    let (q', ht) = z_add-returned c d hc hd e' in
    (subst (λ x. x ≤ℤ t) q (subst (λ x. (a +ℤ b) ≤ℤ x) q' (add-mono a b c d le le')), (hr, ht))

pub z_sub_mono :
    (a b c d : ℤ) {r t : ℤ}
    → (a ≤ℤ c) × IsI64 a
    → (d ≤ℤ b) × IsI64 b
    → IsI64 c
    → IsI64 d
    → z_sub a b ≡ ok r
    → z_sub c d ≡ ok t
    → (r ≤ℤ t) × (IsI64 r × IsI64 t)
z_sub_mono a b c d {r} {t} (le, ha) (le', hb) hc hd e e' =
    let (q, hr) = z_sub-returned a b ha hb e in
    let (q', ht) = z_sub-returned c d hc hd e' in
    (subst (λ x. x ≤ℤ t) q (subst (λ x. (a -ℤ b) ≤ℤ x) q' (sub-mono a b c d le le')), (hr, ht))
