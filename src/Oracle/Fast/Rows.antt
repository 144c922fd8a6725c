-- ===== src/Oracle/Fast/Rows.antt =====
-- F_cells of coq/goextract/oracle/oracle_gen.go: the cells that it makes of the list of normal forms and
-- of the rows of the events are those of the table.
use mathlib.Core.Path.{subst}
use native.Mathlib.Decide.{dec_lt}
use normalization_confluence.Common.{
  ℕ, zero, suc, ◌+◌, ◌*◌, ◌-◌, ◌^◌, ◌≤◌, ◌<◌, ◌≡◌, refl, sym, ap, ◌∙◌, Bool, true, false, List, [],
  ◌∷◌, arith, length, get_or, get_or_past, table, get_or-table, length-table,
}
use normalization_confluence.Common.Int.{ℤ, pos, ltb_ℤ}
use normalization_confluence.Common.Run.{ok, ◌>>=◌}
use normalization_confluence.Oracle.Prims.{nat_succ}
use normalization_confluence.Oracle.Prims.Exact.{nat_succ_pos}
use normalization_confluence.Oracle.Trie.{rev_append, chunk, tl}
use normalization_confluence.Oracle.Trie.Contents.{is_below}
use normalization_confluence.Oracle.Blocks.{Blk, b16, map_t, zb}
use normalization_confluence.Oracle.Blocks.Cells.{entry, cell, cell-nil}
use normalization_confluence.Oracle.Blocks.Loops.{map_t-table, chunk-cell}
use normalization_confluence.Oracle.Fast.{Cell, group_column, hgroup, cells_b, cells}
use normalization_confluence.Oracle.Fast.Columns.{group_column-entry, hgroup-entry, map_t-tl}

-- One round of F_cellsB, by its test of `d`.
cells_b-round :
    (b : Bool) (s d x : ℤ) (t : List ℤ) (hb : List (Blk (Blk ℤ))) (rows : List (List (Blk ℤ)))
    (acc : List Cell)
    → ltb_ℤ d (pos 16) ≡ b
    → cells_b s d (x ∷ t) hb rows acc ≡ elim b [
      | true ↦ do
        s' ← nat_succ s
        d' ← nat_succ d
        col ← group_column d hb
        cells_b s' d' t hb rows (record { lk = s; lnf = x; lcol = col } ∷ acc)
      | false ↦ do
        hb' ← hgroup rows
        s' ← nat_succ s
        rows' ← map_t (λ r. ok (tl r)) rows
        col ← group_column (pos 0) hb'
        cells_b s' (pos 1) t hb' rows' (record { lk = s; lnf = x; lcol = col } ∷ acc)
    ]
unfolding cells_b
cells_b-round b s d x t hb rows acc e =
    ap
      (λ b. elim b [
        | true ↦ do
          s' ← nat_succ s
          d' ← nat_succ d
          col ← group_column d hb
          cells_b s' d' t hb rows (record { lk = s; lnf = x; lcol = col } ∷ acc)
        | false ↦ do
          hb' ← hgroup rows
          s' ← nat_succ s
          rows' ← map_t (λ r. ok (tl r)) rows
          col ← group_column (pos 0) hb'
          cells_b s' (pos 1) t hb' rows' (record { lk = s; lnf = x; lcol = col } ∷ acc)
      ])
      e

is_full : (d : ℕ) → 16 ≤ d → ltb_ℤ (pos d) (pos 16) ≡ false
is_full d le = ground arith

module _ (n_e : ℕ) (few : n_e < 2 ^ 31) (at : ℕ → ℕ → ℤ) where
  -- The cell of state `s` with normal form `f`, where event `e` leads to `at e s`.
  pub record IsCell (s : ℕ) (f : ℤ) (c : Cell) : Type 0 where
    pub number : c.lk ≡ pos s
    pub normal : c.lnf ≡ f
    pub steps : (e : ℕ) → cell (pos 0) c.lcol e ≡ at e s
    pub enough : n_e ≤ 16 * length c.lcol
    pub few_blocks : length c.lcol < 2 ^ 32

  -- The entries of the group that wait, the entries from state `s` on, of which the first `d` are taken,
  -- and the rows after the group.
  record IsPending (s d : ℕ) (hb : List (Blk (Blk ℤ))) (rows : List (List (Blk ℤ))) : Type 0 where
    low : d ≤ 16
    wide : length rows ≡ n_e
    ahead : (e k : ℕ) → cell (pos 0) (get_or rows e []) k ≡ at e (s + (16 - d) + k)
    held : (e c : ℕ) → d ≤ c → c < 16 → entry (pos 0) (cell zb hb e) c ≡ at e (s + (c - d))
    enough : d < 16 → n_e ≤ 16 * length hb
    few_blocks : d < 16 → length hb < 2 ^ 32

  -- A group of which no entry is taken.
  next_group :
      (s : ℕ) (hb : List (Blk (Blk ℤ))) (rows : List (List (Blk ℤ)))
      → IsPending s 16 hb rows
      → (hb' : List (Blk (Blk ℤ))) × (rows' : List (List (Blk ℤ))) × (hgroup rows ≡ ok hb')
        × (map_t (λ r. ok (tl r)) rows ≡ ok rows')
        × IsPending s 0 hb' rows'
  next_group s hb rows i =
      let wide : length rows ≡ n_e = i.wide in
      let (hb', grouped, enough, few_blocks, held) = hgroup-entry rows (omega arith) in
      let (rows', rest, size, ahead) = map_t-tl rows in
      (
        hb',
        rows',
        grouped,
        rest,
        record {
          low = omega arith;
          wide = omega arith;
          ahead = λ e k.
              let next : s + (16 - 16) + (16 + k) ≡ s + (16 - 0) + k = omega arith in
              ahead e k ∙ i.ahead e (16 + k) ∙ ap (at e) next;
          held = λ e c le lt.
              let next : s + (16 - 16) + c ≡ s + (c - 0) = omega arith in
              held e c lt ∙ i.ahead e c ∙ ap (at e) next;
          enough = λ lt. omega arith;
          few_blocks = λ lt. few_blocks;
        },
      )

  -- The column of state `s`, and the state of the loop after it.
  take_column :
      (s d : ℕ) (hb : List (Blk (Blk ℤ))) (rows : List (List (Blk ℤ))) (f : ℤ)
      → d < 16
      → IsPending s d hb rows
      → (col : List (Blk ℤ)) × (group_column (pos d) hb ≡ ok col)
        × IsCell s f (record { lk = pos s; lnf = f; lcol = col })
        × IsPending (s + 1) (d + 1) hb rows
  take_column s d hb rows f lt i =
      let enough : n_e ≤ 16 * length hb = i.enough lt in
      let few_blocks : length hb < 2 ^ 32 = i.few_blocks lt in
      let (col, made, size, entries) = group_column-entry d hb lt in
      (
        col,
        made,
        record {
          number = refl;
          normal = refl;
          steps = λ e.
              let here : s + (d - d) ≡ s = omega arith in
              entries e ∙ i.held e d (omega arith) lt ∙ ap (at e) here;
          enough = omega arith;
          few_blocks = omega arith;
        },
        record {
          low = omega arith;
          wide = i.wide;
          ahead = λ e k.
              let same : s + (16 - d) + k ≡ s + 1 + (16 - (d + 1)) + k = omega arith in
              i.ahead e k ∙ ap (at e) same;
          held = λ e c le lc.
              let same : s + (c - d) ≡ s + 1 + (c - (d + 1)) = omega arith in
              i.held e c (omega arith) lc ∙ ap (at e) same;
          enough = λ h. enough;
          few_blocks = λ h. few_blocks;
        },
      )

  -- The cells of the states from `s` on.
  abbrev pub AreCells : ℕ → List ℤ → Cell → List Cell → Type 0
  AreCells s nfl z out =
      (length out ≡ length nfl)
      × ((j : ℕ) → j < length nfl → IsCell (s + j) (get_or nfl j (pos 0)) (get_or out j z))

  AreCells-cons :
      (s : ℕ) (x : ℤ) (t : List ℤ) (z c : Cell) (out : List Cell)
      → IsCell s x c
      → AreCells (s + 1) t z out
      → AreCells s (x ∷ t) z (c ∷ out)
  AreCells-cons s x t z c out first (size, rest) = (ap suc size, round)
    where
      round :
          (j : ℕ)
          → j < suc (length t)
          → IsCell (s + j) (get_or (x ∷ t) j (pos 0)) (get_or (c ∷ out) j z)
      round zero lt = let here : s ≡ s + zero = omega arith in subst (λ k. IsCell k x c) here first
      round (suc j) lt =
          let there : s + 1 + j ≡ s + suc j = omega arith in
          subst (λ k. IsCell k (get_or t j (pos 0)) (get_or out j z)) there (rest j (omega arith))

  cells_b-AreCells :
      (s d : ℕ) (nfl : List ℤ) (hb : List (Blk (Blk ℤ))) (rows : List (List (Blk ℤ)))
      (acc : List Cell) (z : Cell)
      → s + length nfl < 2 ^ 62
      → IsPending s d hb rows
      → (out : List Cell) × (cells_b (pos s) (pos d) nfl hb rows acc ≡ ok (rev_append acc out))
        × AreCells s nfl z out
  unfolding cells_b rev_append
  cells_b-AreCells s d [] hb rows acc z small i = ([], refl, (refl, λ j lt. absurd (omega arith)))
  cells_b-AreCells s d (x ∷ t) hb rows acc z small i = elim (dec_lt d 16) [
    | yes lt ↦
        let (col, made, is_cell, i') = take_column s d hb rows x lt i in
        let c : Cell = record { lk = pos s; lnf = x; lcol = col } in
        let (out, built, are) =
          cells_b-AreCells (s + 1) (d + 1) t hb rows (c ∷ acc) z (omega arith) i' in
        (
          c ∷ out,
          cells_b-round true (pos s) (pos d) x t hb rows acc (is_below d 16 lt)
              ∙ rw (nat_succ_pos s (omega arith), nat_succ_pos d (omega arith), made) built,
          AreCells-cons s x t z c out is_cell are,
        )
    | no ge ↦
        let low : d ≤ 16 = i.low in
        let full : d ≡ 16 = omega arith in
        let (hb', rows', grouped, rest, i₀) =
          next_group s hb rows (subst (λ d. IsPending s d hb rows) full i) in
        let (col, made, is_cell, i') = take_column s 0 hb' rows' x (omega arith) i₀ in
        let c : Cell = record { lk = pos s; lnf = x; lcol = col } in
        let (out, built, are) =
          cells_b-AreCells (s + 1) 1 t hb' rows' (c ∷ acc) z (omega arith) i' in
        (
          c ∷ out,
          cells_b-round false (pos s) (pos d) x t hb rows acc (is_full d (omega arith))
              ∙ rw (grouped, nat_succ_pos s (omega arith), rest, made) built,
          AreCells-cons s x t z c out is_cell are,
        )
  ]

-- Entry `s` of row `e`.
abbrev pub row_entry : List (List ℤ) → ℕ → ℕ → ℤ
row_entry tl0 e s = get_or (get_or tl0 e []) s (pos 0)

-- The rows in blocks.
rows_lem :
    (tl0 : List (List ℤ))
    → ((e : ℕ) → length (get_or tl0 e []) < 2 ^ 32)
    → (rows : List (List (Blk ℤ))) × (map_t (chunk b16 (pos 0)) tl0 ≡ ok rows)
      × (length rows ≡ length tl0)
      × ((e k : ℕ) → cell (pos 0) (get_or rows e []) k ≡ row_entry tl0 e k)
rows_lem tl0 short =
    let small : (e : ℕ) → length (get_or tl0 e []) < 2 ^ 63 =
      λ e. (let h : length (get_or tl0 e []) < 2 ^ 32 = short e in omega arith) in
    let row : ℕ → List (Blk ℤ) = λ e. (chunk-cell (pos 0) (get_or tl0 e []) (small e)).0 in
    let size : length (table row 0 (length tl0)) ≡ length tl0 = length-table row 0 (length tl0) in
    (
      table row 0 (length tl0),
      map_t-table (chunk b16 (pos 0)) row [] tl0
          (λ e lt. (chunk-cell (pos 0) (get_or tl0 e []) (small e)).1),
      size,
      λ e k. elim (dec_lt e (length tl0)) [
        | yes lt ↦
            let first : 0 + e ≡ e = omega arith in
            ap (λ r. cell (pos 0) r k) (get_or-table [] row (length tl0) 0 e lt ∙ ap row first)
            ∙ (chunk-cell (pos 0) (get_or tl0 e []) (small e)).3 k
        | no ge ↦
            ap (λ r. cell (pos 0) r k) (get_or_past [] (table row 0 (length tl0)) e (omega arith))
            ∙ cell-nil (pos 0) k
            ∙ sym (ap (λ r. get_or r k (pos 0)) (get_or_past [] tl0 e (omega arith)))
      ],
    )

-- The cells of the states of a table.
pub cells-AreCells :
    (nfl : List ℤ) (tl0 : List (List ℤ)) (z : Cell)
    → length nfl < 2 ^ 32
    → (few : length tl0 < 2 ^ 31) → ((e : ℕ) → length (get_or tl0 e []) < 2 ^ 32)
    → (out : List Cell) × (cells nfl tl0 ≡ ok out)
      × AreCells (length tl0) few (row_entry tl0) 0 nfl z out
unfolding cells rev_append
cells-AreCells nfl tl0 z small few short =
    let (rows, made, size, entries) = rows_lem tl0 short in
    let (out, built, are) =
      cells_b-AreCells (length tl0) few (row_entry tl0) 0 16 nfl [] rows [] z (omega arith)
        (record {
          low = omega arith;
          wide = size;
          ahead = λ e k.
              let same : k ≡ 0 + (16 - 16) + k = omega arith in
              entries e k ∙ ap (row_entry tl0 e) same;
          held = λ e c le lt. absurd (omega arith);
          enough = λ lt. absurd (omega arith);
          few_blocks = λ lt. absurd (omega arith);
        }) in
    (out, rw made built, are)
