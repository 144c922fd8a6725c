-- ===== src/Oracle/Blocks/Loops.antt =====
-- The loops of coq/goextract/oracle/oracle_gen.go that build lists and blocks, F_upto, F_mapT, F_bmap and
-- F_chunk, with callbacks that return.
use normalization_confluence.Common.{
  ℕ, zero, suc, ◌+◌, ◌*◌, ◌/◌, ◌%◌, ◌^◌, ◌≤◌, ◌<◌, ◌≡◌, refl, ap, ◌∙◌, List, [], ◌∷◌, ◌++◌, arith,
  length, get_or, table,
}
use normalization_confluence.Common.Int.{ℤ, pos}
use normalization_confluence.Common.Run.{Run, ok}
use normalization_confluence.Oracle.Prims.Exact.{z_add_pos}
use normalization_confluence.Oracle.Trie.{chunk, rev_append}
use normalization_confluence.Oracle.Trie.Groups.{on16, chunk-groups}
use normalization_confluence.Oracle.Blocks.{Blk, b16, upto, map_a, map_t, bmap}
use normalization_confluence.Oracle.Blocks.Cells.{entry, cell, entry-on16}

-- One element more at the end.
table_last :
    {A : Type 0} (g : ℕ → A) (i k : ℕ) (acc : List A)
    → table g i k ++ (g (i + k) ∷ acc) ≡ table g i (suc k) ++ acc
table_last g i zero acc = let e : i + 0 ≡ i = omega arith in ap (λ n. g n ∷ acc) e
table_last g i (suc k) acc =
    let e : i + suc k ≡ suc i + k = omega arith in
    ap (λ n. g i ∷ (table g (suc i) k ++ (g n ∷ acc))) e
    ∙ ap (λ l. g i ∷ l) (table_last g (suc i) k acc)

pub upto-table :
    {A : Type 0} (f : ℤ → Run A) (g : ℕ → A) (i k : ℕ) (acc : List A)
    → i + k < 2 ^ 63
    → ((j : ℕ) → j < i + k → f (pos j) ≡ ok (g j))
    → upto f (pos i) (pos k) acc ≡ ok (table g i k ++ acc)
unfolding upto
upto-table f g i zero acc small h = refl
upto-table f g i (suc k) acc small h =
    rw (z_add_pos i k (omega arith), h (i + k) (omega arith))
      (upto-table f g i k (g (i + k) ∷ acc) (omega arith) (λ j lt. h j (omega arith))
        ∙ ap ok (table_last g i k acc))

module _ {A B : Type 0} (f : A → Run B) (h : ℕ → B) (d : A) where
  map_a-table :
      (l : List A) (i : ℕ) (acc : List B)
      → ((j : ℕ) → j < length l → f (get_or l j d) ≡ ok (h (i + j)))
      → map_a f l acc ≡ ok (rev_append acc (table h i (length l)))
  unfolding map_a rev_append
  map_a-table [] i acc e = refl
  map_a-table (x ∷ l) i acc e =
      let first : f x ≡ ok (h i) = e 0 (omega arith) ∙ ap (λ n. ok (h n)) (omega arith) in
      rw first (
        map_a-table l (suc i) (h i ∷ acc)
          (λ j lt. e (suc j) (omega arith) ∙ ap (λ n. ok (h n)) (omega arith)))

  pub map_t-table :
      (l : List A)
      → ((j : ℕ) → j < length l → f (get_or l j d) ≡ ok (h j))
      → map_t f l ≡ ok (table h 0 (length l))
  unfolding map_t rev_append
  map_t-table l e = map_a-table l 0 [] (λ j lt. e j lt ∙ ap (λ n. ok (h n)) (omega arith))

pub bmap-on16 :
    {A B : Type 0} (z : A) (f : A → Run B) (h : ℕ → B) (b : Blk A)
    → ((c : ℕ) → c < 16 → f (entry z b c) ≡ ok (h c))
    → bmap f b ≡ ok (on16 b16 h)
unfolding bmap
bmap-on16 z f h (b16 x0 x1 x2 x3 x4 x5 x6 x7 x8 x9 x10 x11 x12 x13 x14 x15) e =
    rw
      (
        e 0 (omega arith),
        e 1 (omega arith),
        e 2 (omega arith),
        e 3 (omega arith),
        e 4 (omega arith),
        e 5 (omega arith),
        e 6 (omega arith),
        e 7 (omega arith),
        e 8 (omega arith),
        e 9 (omega arith),
        e 10 (omega arith),
        e 11 (omega arith),
        e 12 (omega arith),
        e 13 (omega arith),
        e 14 (omega arith),
        e 15 (omega arith),
      )
      refl

-- The blocks of a list hold its entries.
pub chunk-cell :
    {A : Type 0} (z : A) (l : List A)
    → length l < 2 ^ 63
    → (ts : List (Blk A)) × (chunk b16 z l ≡ ok ts)
      × (length ts ≤ length l)
      × ((k : ℕ) → cell z ts k ≡ get_or l k z)
chunk-cell z l small =
    let (ts, e, le, at) = chunk-groups b16 z l small in
    (
      ts,
      e,
      le,
      λ k.
          let whole : 16 * (k / 16) + k % 16 ≡ k = omega arith in
          ap (λ b. entry z b (k % 16)) (at (k / 16))
          ∙ entry-on16 z (λ c. get_or l (16 * (k / 16) + c) z) (k % 16) (omega arith)
          ∙ ap (λ n. get_or l n z) whole,
    )
