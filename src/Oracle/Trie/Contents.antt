-- ===== src/Oracle/Trie/Contents.antt =====
-- F_of_listV and F_vlook of coq/goextract/oracle/oracle_gen.go, compared with the list that the trie is
-- made from.
use native.Mathlib.Decide.{dec_lt}
use normalization_confluence.Common.{
  ℕ, zero, suc, ◌+◌, ◌*◌, ◌^◌, ◌≤◌, ◌<◌, ◌≡◌, refl, sym, ap, ◌∙◌, Bool, true, false, List, [], ◌∷◌,
  arith, length, get_or,
}
use normalization_confluence.Common.Int.{ℤ, pos, ltb_ℤ}
use normalization_confluence.Common.Run.{Run, ok, ◌>>=◌, overflow_mul}
use normalization_confluence.Oracle.Prims.{z_mul, nat_succ}
use normalization_confluence.Oracle.Prims.Exact.{exact_or, nat_succ_pos}
use normalization_confluence.Oracle.Prims.Product.{product_pp, z_mul-exact_or}
use normalization_confluence.Oracle.Lists.{nth}
use normalization_confluence.Oracle.Trie.{V16, Vt, len_t, depth_f, pow_f, of_list_v, vget, vlook}
use normalization_confluence.Oracle.Trie.Groups.{len_t-length}
use normalization_confluence.Oracle.Trie.Lookup.{
  power, IsTrie, blank, vget-IsTrie, zt_v-blank, levels_v-IsTrie,
}

pub z_mul_16 : (p : ℕ) → 16 * p < 2 ^ 63 → z_mul (pos 16) (pos p) ≡ ok (pos (16 * p))
z_mul_16 p h =
    z_mul-exact_or (pos 16) (pos p) (omega arith) (omega arith)
    ∙ rw (product_pp 16 p (16 * p) refl) (exact (16 * p) h)
  where
    exact : (n : ℕ) → n < 2 ^ 63 → exact_or overflow_mul (pos n) ≡ ok (pos n)
    exact n h = ground arith

power_pos : (d : ℕ) → 1 ≤ power d
power_pos zero = omega arith
power_pos (suc d) = let ih = power_pos d in omega arith

-- The depth and the power of 16 that the loops find from depth `d` on, and what they are enough for.
record Reaches (f m d : ℕ) : Type 0 where
  steps : ℕ
  depth : ℕ
  adds : depth ≡ d + steps
  counted : depth_f (pos f) (pos m) (pos (power d)) ≡ ok (pos steps)
  raised : pow_f (pos f) (pos m) (pos (power d)) ≡ ok (pos (power depth))
  enough : m ≤ 16 * power depth
  above : power depth ≤ m + 1
  few : steps ≤ f

pub is_below : (k n : ℕ) → k < n → ltb_ℤ (pos k) (pos n) ≡ true
is_below k n h = ground arith

pub is_above : (k n : ℕ) → n ≤ k → ltb_ℤ (pos k) (pos n) ≡ false
is_above k n h = ground arith

-- One round of the loops, by the comparison that they make.
module _ {A : Type 0} (p m : ℕ) (small : 16 * p < 2 ^ 63) (next : ℤ → Run A) (last : Run A) where
  abbrev round : Run A
  round = z_mul (pos 16) (pos p) >>= λ q. elim (ltb_ℤ q (pos m)) [
    | true ↦ z_mul (pos 16) (pos p) >>= next
    | false ↦ last
  ]

  round_below : 16 * p < m → round ≡ next (pos (16 * p))
  round_below lt = rw (z_mul_16 p small) (
      ap (λ b. elim b [ true ↦ z_mul (pos 16) (pos p) >>= next | false ↦ last ])
        (is_below (16 * p) m lt)
      ∙ ap (λ x. x >>= next) (z_mul_16 p small))

  round_above : m ≤ 16 * p → round ≡ last
  round_above le = rw (z_mul_16 p small) (
      ap (λ b. elim b [ true ↦ z_mul (pos 16) (pos p) >>= next | false ↦ last ])
        (is_above (16 * p) m le))

loops-Reaches : (f m d : ℕ) → m < 2 ^ 58 → f ≤ m → power d ≤ m + 1 → m ≤ f + power d → Reaches f m d
unfolding depth_f pow_f
loops-Reaches zero m d small fm le fuel = record {
  steps = 0;
  depth = d;
  adds = omega arith;
  counted = refl;
  raised = refl;
  enough = omega arith;
  above = le;
  few = omega arith;
}
loops-Reaches (suc f) m d small fm le fuel = elim (dec_lt (16 * power d) m) [
  | yes lt ↦
      let one = power_pos d in
      let r = loops-Reaches f m (suc d) small (omega arith) (omega arith) (omega arith) in
      let few' : r.steps ≤ f = r.few in
      record {
        steps = suc r.steps;
        depth = r.depth;
        adds = omega (arith, r.adds);
        counted =
            round_below (power d) m (omega arith) (λ q. depth_f (pos f) (pos m) q >>= nat_succ)
              (ok (pos 0)) lt
            ∙ rw r.counted
                (nat_succ_pos r.steps (omega arith) ∙ ap (λ n. ok (pos n)) (omega arith));
        raised =
            round_below (power d) m (omega arith) (pow_f (pos f) (pos m)) (ok (pos (power d))) lt
            ∙ r.raised;
        enough = r.enough;
        above = r.above;
        few = omega arith;
      }
  | no ge ↦ record {
    steps = 0;
    depth = d;
    adds = omega arith;
    counted =
        round_above (power d) m (omega arith) (λ q. depth_f (pos f) (pos m) q >>= nat_succ)
          (ok (pos 0)) (omega arith);
    raised =
        round_above (power d) m (omega arith) (pow_f (pos f) (pos m)) (ok (pos (power d)))
          (omega arith);
    enough = omega arith;
    above = le;
    few = omega arith;
  }
]

get_or_beyond : {A : Type 0} (z : A) (l : List A) (k : ℕ) → length l ≤ k → get_or l k z ≡ z
get_or_beyond z [] k h = refl
get_or_beyond z (x ∷ l) zero h = absurd (omega arith)
get_or_beyond z (x ∷ l) (suc k) h = get_or_beyond z l k (omega arith)

nth_first : {A : Type 0} (l : List A) (d : A) → nth (pos 0) l d ≡ ok (get_or l 0 d)
unfolding nth
nth_first [] d = refl
nth_first (x ∷ l) d = refl

-- What F_of_listV returns: the depth is enough for the list.
record IsMade {A : Type 0} (z : A) (l : List A) (t : Vt A) : Type 0 where
  depth : ℕ
  root : V16 A
  made : t ≡ record { vp = pos (power depth); vlim = pos (16 * power depth); vroot = root }
  enough : length l ≤ 16 * power depth
  above : power depth ≤ length l + 1
  holds : IsTrie depth root (λ j. get_or l (0 * power (suc depth) + j) z)

of_list_v-IsMade :
    {A : Type 0} (z : A) (l : List A)
    → length l < 2 ^ 58
    → (t : Vt A) × (of_list_v z l ≡ ok t) × IsMade z l t
unfolding of_list_v
of_list_v-IsMade z l small =
    let m = length l in
    let r = loops-Reaches m m 0 small (omega arith) (omega arith) (omega arith) in
    let d = r.depth in
    let p = power d in
    let (ts, e, _, place) = levels_v-IsTrie z l d (omega arith) in
    let measured : len_t l (pos 0) ≡ ok (pos m) =
      len_t-length l 0 (omega arith) ∙ ap (λ n. ok (pos n)) (omega arith) in
    let counted : depth_f (pos m) (pos m) (pos 1) ≡ ok (pos d) =
      r.counted ∙ ap (λ n. ok (pos n)) (omega (arith, r.adds)) in
    let limit = z_mul_16 p (omega (arith, r.above)) in
    let root = get_or ts 0 (blank z d) in
    (
      record { vp = pos p; vlim = pos (16 * p); vroot = root },
      rw (measured, counted, r.raised, limit, e, zt_v-blank z d, nth_first ts (blank z d)) refl,
      record {
        depth = d;
        root = root;
        made = refl;
        enough = r.enough;
        above = r.above;
        holds = place 0;
      },
    )

IsMade-vlook :
    {A : Type 0} (z : A) (l : List A) (t : Vt A) (k : ℕ)
    → length l < 2 ^ 58
    → IsMade z l t
    → vlook z t (pos k) ≡ ok (get_or l k z)
unfolding vlook
IsMade-vlook {A} z l t k small i =
    let lim = 16 * power i.depth in
    let choice : Bool → Run A =
      λ b. elim b [ true ↦ vget (pos (power i.depth)) (pos 0) i.root (pos k) | false ↦ ok z ] in
    rw i.made (elim (dec_lt k lim) [
      | yes lt ↦
          ap choice (is_below k lim lt)
          ∙ vget-IsTrie i.depth i.root _ 0 k i.holds (omega arith) (omega arith)
              (omega (arith, i.above))
          ∙ ap (λ n. ok (get_or l n z)) (omega arith)
      | no ge ↦
          ap choice (is_above k lim (omega arith))
          ∙ ap ok (sym (get_or_beyond z l k (omega (arith, i.enough))))
    ])

-- Lookup in the trie that is made of a list of fewer than 2 ^ 58 entries returns without a panic the
-- entry of the list, and `z` past its end.
pub of_list_v-vlook :
    {A : Type 0} (z : A) (l : List A) (k : ℕ)
    → length l < 2 ^ 58
    → (of_list_v z l >>= λ t. vlook z t (pos k)) ≡ ok (get_or l k z)
of_list_v-vlook z l k small =
    let (t, e, made) = of_list_v-IsMade z l small in rw e (IsMade-vlook z l t k small made)
