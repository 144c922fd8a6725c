-- ===== src/Oracle/Trie/Lookup.antt =====
-- F_vget of coq/goextract/oracle/oracle_gen.go, on tries of which the entries are known.
use mathlib.Core.Path.{subst}
use native.Mathlib.Nat.{add-mul, mul_assoc, mul_comm, mul-le-mul_right}
use normalization_confluence.Common.{
  ℕ, zero, suc, ◌+◌, ◌-◌, ◌*◌, ◌^◌, ◌≤◌, ◌<◌, ◌≡◌, refl, ap, ◌∙◌, List, arith, length, get_or,
}
use normalization_confluence.Common.Int.{pos, wrap64}
use normalization_confluence.Common.Run.{ok}
use normalization_confluence.Oracle.Prims.{z_add, nat_div2, div64}
use normalization_confluence.Oracle.Trie.{V16, vl, vn, hi16, zt_v, levels_v, vget}
use normalization_confluence.Oracle.Trie.Select.{select-Lands}
use normalization_confluence.Oracle.Prims.Exact.{z_add_pos}
use normalization_confluence.Oracle.Trie.Groups.{on16, chunk-groups}

-- 16 ^ d, the number of entries below a child of a trie of depth `d`.
abbrev pub power : ℕ → ℕ
power zero = 1
power (suc d) = 16 * power d

-- A trie of depth `d` that holds the first 16 * power d values of `g`.
abbrev pub IsTrie : {A : Type 0} → ℕ → V16 A → (ℕ → A) → Type 0
IsTrie zero t g = t ≡ on16 vl g
IsTrie {A = A} (suc d) t g =
    (h : ℕ → V16 A) × (t ≡ on16 vn h) × ((c : ℕ) → IsTrie d (h c) (λ j. g (c * power (suc d) + j)))

nat_div2-double : (n : ℕ) → 2 * n < 2 ^ 63 → nat_div2 (pos (2 * n)) ≡ pos n
unfolding nat_div2 div64 wrap64
nat_div2-double n h = ground arith

hi16-lem : (n : ℕ) → 16 * n < 2 ^ 63 → hi16 (pos (16 * n)) ≡ pos n
unfolding hi16
hi16-lem n h =
    ap (λ a. nat_div2 (nat_div2 (nat_div2 (nat_div2 (pos a))))) (omega arith)
    ∙ ap (λ a. nat_div2 (nat_div2 (nat_div2 a))) (nat_div2-double (8 * n) (omega arith))
    ∙ ap (λ a. nat_div2 (nat_div2 (nat_div2 (pos a)))) (omega arith)
    ∙ ap (λ a. nat_div2 (nat_div2 a)) (nat_div2-double (4 * n) (omega arith))
    ∙ ap (λ a. nat_div2 (nat_div2 (pos a))) (omega arith)
    ∙ ap nat_div2 (nat_div2-double (2 * n) (omega arith))
    ∙ nat_div2-double n (omega arith)

z_add-double : (n m : ℕ) → m ≡ 2 * n → m < 2 ^ 63 → z_add (pos n) (pos n) ≡ ok (pos m)
z_add-double n m e h = z_add_pos n n (omega arith) ∙ ap (λ x. ok (pos x)) (omega arith)

vget_leaf :
    {A : Type 0} (g : ℕ → A) (b k : ℕ)
    → b ≤ k
    → k < b + 16
    → b + 16 < 2 ^ 63
    → vget (pos 1) (pos b) (on16 vl g) (pos k) ≡ ok (g (k - b))
unfolding vget
vget_leaf g b k le lt small =
    let (c, _, l, u, e) = select-Lands k 1 b (λ c _. ok (g c)) small le lt in
    e ∙ ap (λ n. ok (g n)) (omega arith)

vget_node :
    {A : Type 0} (p b k : ℕ) (h : ℕ → V16 A)
    → b ≤ k
    → k < b + 16 * p
    → b + 16 * p < 2 ^ 63
    → (c : ℕ) × (b + c * p ≤ k)
      × (k < b + c * p + p)
      × (c < 16)
      × (vget (pos p) (pos b) (on16 vn h) (pos k)
          ≡ vget (hi16 (pos p)) (pos (b + c * p)) (h c) (pos k))
unfolding vget
vget_node p b k h le lt small =
    let (c, lc, l, u, e) =
      select-Lands k p b (λ c b'. vget (hi16 (pos p)) b' (h c) (pos k)) small le lt in
    (
      c,
      l,
      u,
      lc,
      rw
          (
            z_add-double p (2 * p) refl (omega arith),
            z_add-double (2 * p) (4 * p) (omega arith) (omega arith),
            z_add-double (4 * p) (8 * p) (omega arith) (omega arith),
          )
          e,
    )

-- Lookup in a trie finds the entry with the number that is asked for, counted from `b`.
pub vget-IsTrie :
    {A : Type 0} (d : ℕ) (t : V16 A) (g : ℕ → A) (b k : ℕ)
    → IsTrie d t g
    → b ≤ k
    → k < b + 16 * power d
    → b + 16 * power d < 2 ^ 63
    → vget (pos (power d)) (pos b) t (pos k) ≡ ok (g (k - b))
vget-IsTrie zero t g b k q le lt small = rw q (vget_leaf g b k le lt small)
vget-IsTrie (suc d) t g b k (h, q, sub) le lt small =
    let p = 16 * power d in
    let (c, l, u, lc, e) = vget_node p b k h le lt small in
    let last : c * p ≤ 15 * p = mul-le-mul_right p (omega arith) in
    let ih = vget-IsTrie d (h c) (λ j. g (c * p + j)) (b + c * p) k (sub c) l u (omega arith) in
    rw q (
      e
      ∙ ap (λ a. vget a (pos (b + c * p)) (h c) (pos k)) (hi16-lem (power d) (omega arith))
      ∙ ih
      ∙ ap (λ n. ok (g n)) (omega arith))

-- The trie of depth `d` whose entries are all `z`.
abbrev pub blank : {A : Type 0} → A → ℕ → V16 A
blank z zero = on16 vl (λ _. z)
blank z (suc d) = on16 vn (λ _. blank z d)

pub zt_v-blank : {A : Type 0} (z : A) (d : ℕ) → zt_v z (pos d) ≡ ok (blank z d)
unfolding zt_v
zt_v-blank z zero = refl
zt_v-blank z (suc d) = rw (zt_v-blank z d) refl

IsTrie-ext :
    {A : Type 0} (d : ℕ) (t : V16 A) (g g' : ℕ → A)
    → ((j : ℕ) → g j ≡ g' j)
    → IsTrie d t g
    → IsTrie d t g'
IsTrie-ext d t g g' e h = let q : g ≡ g' = λ i j. e j i in subst (IsTrie d t) q h

child_place : (i c s j : ℕ) → (16 * i + c) * s + j ≡ i * (16 * s) + (c * s + j)
child_place i c s j = rw (add-mul (16 * i) c s, mul_comm 16 i, mul_assoc i 16 s) (omega arith)

-- The tries of a level: trie `i` holds the entries of the list from `i` * 16 ^ (d + 1) on, with `z` past
-- its end.
pub levels_v-IsTrie :
    {A : Type 0} (z : A) (l : List A) (d : ℕ)
    → length l < 2 ^ 63
    → (ts : List (V16 A)) × (levels_v z l (pos d) ≡ ok ts)
      × (length ts ≤ length l)
      × ((i : ℕ) → IsTrie d (get_or ts i (blank z d)) (λ j. get_or l (i * power (suc d) + j) z))
unfolding levels_v
levels_v-IsTrie z l zero small =
    let (ts, e, le, place) = chunk-groups vl z l small in
    (
      ts,
      e,
      le,
      λ i.
          IsTrie-ext zero (get_or ts i (blank z zero)) (λ c. get_or l (16 * i + c) z)
            (λ j. get_or l (i * power 1 + j) z) (λ j. ap (λ n. get_or l n z) (omega arith))
            (place i),
    )
levels_v-IsTrie z l (suc d) small =
    let (ts, e, le, sub) = levels_v-IsTrie z l d small in
    let (ts', e', le', place) = chunk-groups vn (blank z d) ts (omega arith) in
    (
      ts',
      rw (zt_v-blank z d, e) e',
      omega arith,
      λ i. (
        (λ c. get_or ts (16 * i + c) (blank z d)),
        place i,
        λ c.
            IsTrie-ext d _ _ _ (λ j. ap (λ n. get_or l n z) (child_place i c (power (suc d)) j))
              (sub (16 * i + c)),
      ),
    )
