-- ===== src/Oracle/Fast/Columns.antt =====
-- The steps of F_cellsB of coq/goextract/oracle/oracle_gen.go: the entries number `d` of a group of rows,
-- and F_hgroup, which takes the next group.
use native.Mathlib.Decide.{dec_lt}
use normalization_confluence.Common.{
  ℕ, ◌+◌, ◌*◌, ◌/◌, ◌%◌, ◌^◌, ◌≤◌, ◌<◌, ◌≡◌, refl, sym, ap, ◌∙◌, List, [], ◌∷◌, arith, length,
  get_or, get_or_past, table, get_or-table, length-table,
}
use normalization_confluence.Common.Int.{ℤ, pos}
use normalization_confluence.Common.Run.{Run, ok}
use normalization_confluence.Oracle.Trie.{hd, tl}
use normalization_confluence.Oracle.Trie.Groups.{on16, length-chunk}
use normalization_confluence.Oracle.Blocks.{Blk, b16, bmap, map_t, dsel, zb}
use normalization_confluence.Oracle.Blocks.Cells.{
  entry, blank, cell, cell_parts, entry-on16, dsel-entry, cell-nil, cell-cons_first, cell-cons_rest,
}
use normalization_confluence.Oracle.Blocks.Loops.{map_t-table, bmap-on16, chunk-cell}
use normalization_confluence.Oracle.Fast.{group_column, hgroup}

module _ {A B : Type 0} (f : A → Run B) (h : A → B) (z : A) (total : (x : A) → f x ≡ ok (h x)) where
  pub map_t-get_or :
      (l : List A)
      → (r : List B) × (map_t f l ≡ ok r)
        × (length r ≡ length l)
        × ((k : ℕ) → get_or r k (h z) ≡ h (get_or l k z))
  map_t-get_or l =
      let at : ℕ → B = λ j. h (get_or l j z) in
      let size : length (table at 0 (length l)) ≡ length l = length-table at 0 (length l) in
      (
        table at 0 (length l),
        map_t-table f at z l (λ j lt. total (get_or l j z)),
        size,
        λ k. elim (dec_lt k (length l)) [
          | yes lt ↦
              let first : 0 + k ≡ k = omega arith in
              get_or-table (h z) at (length l) 0 k lt ∙ ap at first
          | no ge ↦
              get_or_past (h z) (table at 0 (length l)) k (omega arith)
              ∙ ap h (sym (get_or_past z l k (omega arith)))
        ],
      )

  cell_past : {C : Type 0} (z : C) (t : List (Blk C)) (k : ℕ) → length t ≤ k / 16 → cell z t k ≡ z
  cell_past z t k le =
      ap (λ b. entry z b (k % 16)) (get_or_past (blank z) t (k / 16) le)
      ∙ entry-on16 z (λ _. z) (k % 16) (omega arith)

  pub map_t-bmap :
      (t : List (Blk A))
      → (r : List (Blk B)) × (map_t (bmap f) t ≡ ok r)
        × (length r ≡ length t)
        × ((k : ℕ) → cell (h z) r k ≡ h (cell z t k))
  map_t-bmap t =
      let block : ℕ → Blk B = λ q. on16 b16 (λ c. h (cell z t (16 * q + c))) in
      let size : length (table block 0 (length t)) ≡ length t = length-table block 0 (length t) in
      (
        table block 0 (length t),
        map_t-table (bmap f) block (blank z) t (λ q lq.
            bmap-on16 z f (λ c. h (cell z t (16 * q + c))) (get_or t q (blank z))
              (λ c lc. ap f (sym (cell_parts z t q c lc)) ∙ total (cell z t (16 * q + c)))),
        size,
        λ k. elim (dec_lt (k / 16) (length t)) [
          | yes lt ↦
              let whole : 16 * (0 + k / 16) + k % 16 ≡ k = omega arith in
              ap (λ b. entry (h z) b (k % 16))
                (get_or-table (blank (h z)) block (length t) 0 (k / 16) lt)
              ∙ entry-on16 (h z) (λ c. h (cell z t (16 * (0 + k / 16) + c))) (k % 16) (omega arith)
              ∙ ap (λ n. h (cell z t n)) whole
          | no ge ↦
              cell_past (h z) (table block 0 (length t)) k (omega arith)
              ∙ ap h (sym (cell_past z t k (omega arith)))
        ],
      )

entry-zb : (c : ℕ) → c < 16 → entry (pos 0) zb c ≡ pos 0
unfolding zb
entry-zb c lt = entry-on16 (pos 0) (λ _. pos 0) c lt

-- The entries number `d` of the rows of a group.
pub group_column-entry :
    (d : ℕ) (hb : List (Blk (Blk ℤ)))
    → d < 16
    → (col : List (Blk ℤ)) × (group_column (pos d) hb ≡ ok col)
      × (length col ≡ length hb)
      × ((e : ℕ) → cell (pos 0) col e ≡ entry (pos 0) (cell zb hb e) d)
unfolding group_column
group_column-entry d hb lt =
    let (col, made, size, at) =
      map_t-bmap (λ r. ok (dsel (pos d) r)) (λ r. dsel (pos d) r) zb (λ r. refl) hb in
    let first : dsel (pos d) zb ≡ pos 0 = dsel-entry (pos 0) zb d lt ∙ entry-zb d lt in
    (
      col,
      made,
      size,
      λ e. ap (λ x. cell x col e) (sym first) ∙ at e ∙ dsel-entry (pos 0) (cell zb hb e) d lt,
    )

hd-entry : (r : List (Blk ℤ)) (c : ℕ) → c < 16 → entry (pos 0) (hd zb r) c ≡ cell (pos 0) r c
unfolding hd
hd-entry [] c lt = entry-zb c lt ∙ sym (cell-nil (pos 0) c)
hd-entry (b ∷ r) c lt = sym (cell-cons_first (pos 0) b r c lt)

-- The next group of rows.
pub hgroup-entry :
    (rows : List (List (Blk ℤ)))
    → length rows < 2 ^ 31
    → (hb : List (Blk (Blk ℤ))) × (hgroup rows ≡ ok hb)
      × (length rows ≤ 16 * length hb)
      × (length hb < 2 ^ 32)
      × ((e c : ℕ) → c < 16 → entry (pos 0) (cell zb hb e) c ≡ cell (pos 0) (get_or rows e []) c)
unfolding hgroup hd
hgroup-entry rows few =
    let (heads, made, size, at) =
      map_t-get_or (λ r. ok (hd zb r)) (λ r. hd zb r) [] (λ r. refl) rows in
    let (hb, chunked, le, cells) = chunk-cell zb heads (omega arith) in
    let (left, right) = length-chunk b16 zb heads (omega arith) hb chunked in
    (
      hb,
      rw made chunked,
      omega arith,
      omega arith,
      λ e c lt. ap (λ b. entry (pos 0) b c) (cells e ∙ at e) ∙ hd-entry (get_or rows e []) c lt,
    )

tl-cell : (r : List (Blk ℤ)) (k : ℕ) → cell (pos 0) (tl r) k ≡ cell (pos 0) r (16 + k)
unfolding tl
tl-cell [] k = cell-nil (pos 0) k ∙ sym (cell-nil (pos 0) (16 + k))
tl-cell (b ∷ r) k = sym (cell-cons_rest (pos 0) b r k)

-- The rows after the group.
pub map_t-tl :
    (rows : List (List (Blk ℤ)))
    → (rows' : List (List (Blk ℤ))) × (map_t (λ r. ok (tl r)) rows ≡ ok rows')
      × (length rows' ≡ length rows)
      × ((e k : ℕ) → cell (pos 0) (get_or rows' e []) k ≡ cell (pos 0) (get_or rows e []) (16 + k))
unfolding tl
map_t-tl rows =
    let (rows', made, size, at) = map_t-get_or (λ r. ok (tl r)) (λ r. tl r) [] (λ r. refl) rows in
    (rows', made, size, λ e k. ap (λ r. cell (pos 0) r k) (at e) ∙ tl-cell (get_or rows e []) k)
