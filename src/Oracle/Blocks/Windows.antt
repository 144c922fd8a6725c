-- ===== src/Oracle/Blocks/Windows.antt =====
-- Parts of a list of blocks in coq/goextract/oracle/oracle_gen.go: F_alignN, the suffixes of F_sfx and
-- the views of F_viewOf, with the entries that they hold.
use native.Mathlib.Decide.{dec_lt}
use normalization_confluence.Common.{
  ℕ, zero, suc, ◌+◌, ◌*◌, ◌-◌, ◌/◌, ◌^◌, ◌%◌, ◌<◌, ◌≡◌, refl, sym, ap, ◌∙◌, List, [], ◌∷◌, arith,
  length, get_or, drop, drop_past, get_or-drop, Bool, true, false,
}
use normalization_confluence.Common.Int.{ℤ, pos, ltb_ℤ, wrap64}
use normalization_confluence.Common.Run.{Run, ok, ◌>>=◌}
use normalization_confluence.Oracle.Prims.{z_mul, z_add, nat_sub, nat_div2, div64}
use normalization_confluence.Oracle.Prims.Product.{z_mul_pos}
use normalization_confluence.Oracle.Prims.Exact.{nat_sub_pos, z_add_pos}
use normalization_confluence.Oracle.Trie.{Vt, hd, hi16, of_list_v, vlook}
use normalization_confluence.Oracle.Trie.Groups.{hd-get_or}
use normalization_confluence.Oracle.Trie.Contents.{of_list_v-vlook, z_mul_16, is_below, is_above}
use normalization_confluence.Oracle.Blocks.{Blk, Split, align_n, realign, zb, sfx, split_j}
use normalization_confluence.Oracle.Blocks.Cells.{
  entry, blank, cell, cell-nil, cell-cons_first, cell-cons_rest, entry-on16, two, two-first,
  two-second, realign-two, rdq-cell,
}
use normalization_confluence.Oracle.Packed.{View, view_of, blocks_from, rdj}

two-cell :
    (b : Blk ℤ) (t : List (Blk ℤ)) (k : ℕ) → k < 32 → two b (hd zb t) k ≡ cell (pos 0) (b ∷ t) k
unfolding zb
two-cell b t k lt = elim (dec_lt k 16) [
  | yes h ↦ two-first b (hd zb t) k h ∙ sym (cell-cons_first (pos 0) b t k h)
  | no ge ↦
      let j = k - 16 in
      let e : k ≡ 16 + j = omega arith in
      let block : 0 ≡ j / 16 = omega arith in
      let digit : j ≡ j % 16 = omega arith in
      ap (two b (hd zb t)) e
      ∙ two-second b (hd zb t) j
      ∙ ap (λ b. entry (pos 0) b j) (hd-get_or zb t)
      ∙ ap (λ q. entry (pos 0) (get_or t q zb) j) block
      ∙ ap (entry (pos 0) (get_or t (j / 16) zb)) digit
      ∙ sym (cell-cons_rest (pos 0) b t j)
      ∙ ap (cell (pos 0) (b ∷ t)) (sym e)
]

-- `k` blocks, from entry `o` on.
pub align_n-cell :
    (k o : ℕ) (t : List (Blk ℤ))
    → o < 16
    → (r : List (Blk ℤ)) × (align_n (pos k) (pos o) zb t ≡ ok r)
      × ((j : ℕ) → j < 16 * k → cell (pos 0) r j ≡ cell (pos 0) t (o + j))
unfolding align_n
align_n-cell zero o t h = ([], refl, λ j lt. absurd (omega arith))
align_n-cell (suc k) o [] h =
    ([], refl, λ j lt. cell-nil (pos 0) j ∙ sym (cell-nil (pos 0) (o + j)))
align_n-cell (suc k) o (b ∷ t) h =
    let (r, e, at) = align_n-cell k o t h in
    let first = realign (pos o) b (hd zb t) in
    (
      first ∷ r,
      rw e refl,
      λ j lt. elim (dec_lt j 16) [
        | yes lj ↦
            cell-cons_first (pos 0) first r j lj
            ∙ ap (λ b. entry (pos 0) b j) (realign-two b (hd zb t) o h)
            ∙ entry-on16 (pos 0) (λ c. two b (hd zb t) (o + c)) j lj
            ∙ two-cell b t (o + j) (omega arith)
        | no ge ↦
            let i = j - 16 in
            let e : j ≡ 16 + i = omega arith in
            let e' : 16 + (o + i) ≡ o + j = omega arith in
            ap (cell (pos 0) (first ∷ r)) e
            ∙ cell-cons_rest (pos 0) first r i
            ∙ at i (omega arith)
            ∙ sym (cell-cons_rest (pos 0) b t (o + i))
            ∙ ap (cell (pos 0) (b ∷ t)) e'
      ],
    )

module _ {A : Type 0} where
  sfx-rest :
      (t : List A) (acc : List (List A)) (i j : ℕ)
      → i ≡ length t + j
      → get_or (sfx t acc) i [] ≡ get_or acc j []
  unfolding sfx
  sfx-rest [] acc i j e = ap (λ n. get_or acc n []) (omega arith)
  sfx-rest (x ∷ t) acc i j e = sfx-rest t ((x ∷ t) ∷ acc) i (suc j) (omega arith)

  sfx-drop :
      (t : List A) (acc : List (List A)) (q i : ℕ)
      → i + suc q ≡ length t
      → get_or (sfx t acc) i [] ≡ drop q t
  unfolding sfx
  sfx-drop [] acc q i e = absurd (omega arith)
  sfx-drop (x ∷ t) acc zero i e = sfx-rest t ((x ∷ t) ∷ acc) i 0 (omega arith)
  sfx-drop (x ∷ t) acc (suc q) i e = sfx-drop t ((x ∷ t) ∷ acc) q i (omega arith)

  pub length-sfx : (t : List A) (acc : List (List A)) → length (sfx t acc) ≡ length t + length acc
  unfolding sfx
  length-sfx [] acc = omega arith
  length-sfx (x ∷ t) acc = omega (arith, length-sfx t ((x ∷ t) ∷ acc))

nat_div2_pos : (n : ℕ) → n < 2 ^ 63 → nat_div2 (pos n) ≡ pos (n / 2)
unfolding nat_div2 div64 wrap64
nat_div2_pos n h = ground arith

pub hi16_pos : (n : ℕ) → n < 2 ^ 63 → hi16 (pos n) ≡ pos (n / 16)
unfolding hi16
hi16_pos n h =
    rw
      (
        nat_div2_pos n h,
        nat_div2_pos (n / 2) (omega arith),
        nat_div2_pos (n / 2 / 2) (omega arith),
        nat_div2_pos (n / 2 / 2 / 2) (omega arith),
      )
      (ap pos (omega arith))

cell-drop : (t : List (Blk ℤ)) (q k : ℕ) → cell (pos 0) (drop q t) k ≡ cell (pos 0) t (16 * q + k)
cell-drop t q k =
    let block : q + k / 16 ≡ (16 * q + k) / 16 = omega arith in
    let digit : k % 16 ≡ (16 * q + k) % 16 = omega arith in
    ap (λ b. entry (pos 0) b (k % 16)) (get_or-drop q t (k / 16) (blank (pos 0)))
    ∙ ap (λ n. entry (pos 0) (get_or t n (blank (pos 0))) (k % 16)) block
    ∙ ap (entry (pos 0) (get_or t ((16 * q + k) / 16) (blank (pos 0)))) digit

-- The number of the block of entry `j`, and its place in the block.
abbrev pub split_of : ℕ → Split
split_of j = record { sq = pos (j / 16); sd = pos (j % 16) }

pub split_j_lem : (j : ℕ) → j < 2 ^ 63 → split_j (pos j) ≡ ok (split_of j)
unfolding split_j
split_j_lem j h =
    let q : hi16 (pos j) ≡ pos (j / 16) = hi16_pos j h in
    let start : z_mul (pos 16) (pos (j / 16)) ≡ ok (pos (16 * (j / 16))) =
      z_mul_16 (j / 16) (omega arith) in
    let rest : j - 16 * (j / 16) ≡ j % 16 = omega arith in
    let digit : nat_sub (pos j) (pos (16 * (j / 16))) ≡ pos (j % 16) =
      nat_sub_pos j (16 * (j / 16)) h ∙ ap pos rest in
    ap (λ h. z_mul (pos 16) h >>= (λ t. ok (record { sq = h; sd = nat_sub (pos j) t }))) q
    ∙ ap (λ r. r >>= (λ t. ok (record { sq = pos (j / 16); sd = nat_sub (pos j) t }))) start
    ∙ ap (λ d. ok (record { sq = pos (j / 16); sd = d })) digit

-- A view on the entries from `k` on.
pub record IsView (t : List (Blk ℤ)) (v : View) (k : ℕ) : Type 0 where
  pub offset : ℕ
  pub offset_digit : offset < 16
  pub offset_eq : v.vof ≡ pos offset
  pub reads : (j : ℕ) → cell (pos 0) v.vtl (offset + j) ≡ cell (pos 0) t (k + j)

-- The trie of the suffixes of `t`.
abbrev pub IsSuffixes : List (Blk ℤ) → Vt (List (Blk ℤ)) → Type 0
IsSuffixes t st = of_list_v [] (sfx t []) ≡ ok st

module _ (t : List (Blk ℤ)) (st : Vt (List (Blk ℤ))) (small : length t < 2 ^ 58)
    (made : IsSuffixes t st) where
  suffix_at : (i : ℕ) → vlook [] st (pos i) ≡ ok (get_or (sfx t []) i [])
  suffix_at i =
      let size : length (sfx t []) ≡ length t + 0 = length-sfx t [] in
      ap (λ r. r >>= (λ s. vlook [] s (pos i))) (sym made)
      ∙ of_list_v-vlook [] (sfx t []) i (omega arith)

  -- The blocks from number `q` on.
  blocks_from_lem :
      (q : ℕ)
      → (r : List (Blk ℤ)) × (blocks_from
            (pos (length t))
            (nat_sub (pos (length t)) (pos 1))
            st
            []
            (pos q)
          ≡ ok r)
        × ((k : ℕ) → cell (pos 0) r k ≡ cell (pos 0) t (16 * q + k))
  unfolding blocks_from
  blocks_from_lem q = elim (dec_lt q (length t)) [
    | yes lt ↦
        let i = length t - 1 - q in
        let last : nat_sub (pos (length t)) (pos 1) ≡ pos (length t - 1) =
          nat_sub_pos (length t) 1 (omega arith) in
        let place : nat_sub (pos (length t - 1)) (pos q) ≡ pos i =
          nat_sub_pos (length t - 1) q (omega arith) in
        let found : vlook [] st (pos i) ≡ ok (drop q t) =
          suffix_at i ∙ ap ok (sfx-drop t [] q i (omega arith)) in
        (
          drop q t,
          ap (λ l. look l (ltb_ℤ (pos q) (pos (length t))))
                (ap (λ l. nat_sub l (pos q)) last ∙ place)
              ∙ ap (look (pos i)) (is_below q (length t) lt)
              ∙ found,
          cell-drop t q,
        )
    | no ge ↦ (
      [],
      ap (look (nat_sub (nat_sub (pos (length t)) (pos 1)) (pos q)))
          (is_above q (length t) (omega arith)),
      λ k. ap (λ r. cell (pos 0) r k) (sym (drop_past q t (omega arith))) ∙ cell-drop t q k,
    )
  ]
    where
      look : ℤ → Bool → Run (List (Blk ℤ))
      look l c = elim c [ true ↦ vlook [] st l | false ↦ ok [] ]

  pub view_of-IsView :
      (w x : ℕ)
      → x * w < 2 ^ 63
      → x < 2 ^ 63
      → w < 2 ^ 63
      → (v : View) × (view_of
            (pos w)
            (pos (length t))
            (nat_sub (pos (length t)) (pos 1))
            st
            []
            (pos x)
          ≡ ok v)
        × IsView t v (x * w)
  unfolding view_of
  view_of-IsView w x fits hx hw =
      let k = x * w in
      let (r, found, at) = blocks_from_lem (k / 16) in
      let product : z_mul (pos x) (pos w) ≡ ok (pos k) = z_mul_pos x w hx hw fits in
      let q : hi16 (pos k) ≡ pos (k / 16) = hi16_pos k fits in
      let start : z_mul (pos 16) (pos (k / 16)) ≡ ok (pos (16 * (k / 16))) =
        z_mul_16 (k / 16) (omega arith) in
      let rest : k - 16 * (k / 16) ≡ k % 16 = omega arith in
      let digit : nat_sub (pos k) (pos (16 * (k / 16))) ≡ pos (k % 16) =
        nat_sub_pos k (16 * (k / 16)) fits ∙ ap pos rest in
      (
        record { vtl = r; vof = pos (k % 16) },
        rw (product, q, found, start, digit) refl,
        record {
          offset = k % 16;
          offset_digit = omega arith;
          offset_eq = refl;
          reads = λ j.
              let e : 16 * (k / 16) + (k % 16 + j) ≡ k + j = omega arith in
              at (k % 16 + j) ∙ ap (cell (pos 0) t) e;
        },
      )

pub rdj-IsView :
    {t : List (Blk ℤ)} (v : View) (k j : ℕ)
    → IsView t v k
    → rdj v (split_of j) ≡ ok (cell (pos 0) t (k + j))
unfolding rdj
rdj-IsView {t} v k j i =
    let o = i.offset in
    let low : o < 16 = i.offset_digit in
    let sum : z_add (pos o) (pos (j % 16)) ≡ ok (pos (o + j % 16)) =
      z_add_pos o (j % 16) (omega arith) in
    let e : 16 * (j / 16) + (o + j % 16) ≡ o + j = omega arith in
    rw (i.offset_eq, sum)
      (rdq-cell v.vtl (j / 16) (o + j % 16) (omega arith)
        ∙ ap ok (ap (cell (pos 0) v.vtl) e ∙ i.reads j))
