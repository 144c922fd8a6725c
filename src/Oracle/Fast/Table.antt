-- ===== src/Oracle/Fast/Table.antt =====
-- The cells that F_scanI of coq/goextract/oracle/oracle_gen.go scans: those of a table, and the cells
-- of the states that the events of a state lead to.
use native.Mathlib.Decide.{dec_lt}
use normalization_confluence.Common.{
  ℕ, ◌+◌, ◌*◌, ◌/◌, ◌%◌, ◌^◌, ◌≤◌, ◌<◌, ◌≡◌, sym, ap, ◌∙◌, true, false, List, arith, length, get_or,
  get_or_past, table, get_or-table, if◌then◌else◌,
}
use normalization_confluence.Common.Int.{ℤ, pos, eqb_ℤ, ltb_ℤ}
use normalization_confluence.Common.Run.{ok}
use normalization_confluence.Oracle.Trie.{Vt, vlook}
use normalization_confluence.Oracle.Trie.Groups.{on16}
use normalization_confluence.Oracle.Blocks.{Blk, b16, bmap, map_t}
use normalization_confluence.Oracle.Blocks.Cells.{entry, blank, cell, cell_parts, entry-on16}
use normalization_confluence.Oracle.Blocks.Loops.{map_t-table, bmap-on16}
use normalization_confluence.Oracle.Fast.{Cell, zcell, cell_ok}

-- The cells `cs` are those of the states below `n`: the cell of state `s` holds `s`, its normal form,
-- and, for each of `n_e` events, the state that it leads to.
pub record IsTable (n n_e : ℕ) (cs : List Cell) : Type 0 where
  pub size : length cs ≡ n
  pub few_states : n < 2 ^ 32
  pub few_events : n_e < 2 ^ 31
  pub nf : ℕ → ℕ
  pub st : ℕ → ℕ → ℕ
  pub number : (s : ℕ) → s < n → (get_or cs s (zcell (pos n))).lk ≡ pos s
  pub normal : (s : ℕ) → s < n → (get_or cs s (zcell (pos n))).lnf ≡ pos (nf s)
  pub steps : (s e : ℕ) → s < n → cell (pos 0) (get_or cs s (zcell (pos n))).lcol e ≡ pos (st s e)
  pub enough : (s : ℕ) → s < n → n_e ≤ 16 * length (get_or cs s (zcell (pos n))).lcol
  pub few_blocks : (s : ℕ) → s < n → length (get_or cs s (zcell (pos n))).lcol < 2 ^ 32

module _ (n n_e : ℕ) (cs : List Cell) (i : IsTable n n_e cs) where
  -- The cell of a state.
  abbrev pub at : ℕ → Cell
  at s = get_or cs s (zcell (pos n))

  -- A valid state: below `n`, and its own normal form.
  abbrev pub Valid : ℕ → Type 0
  Valid s = (s < n) × (i.nf s ≡ s)

  valid_number :
      (a b m : ℕ)
      → (if ltb_ℤ (pos a) (pos m) then eqb_ℤ (pos b) (pos a) else false) ≡ true
      → (a < m) × (b ≡ a)
  valid_number a b m e = (ground arith, ground arith)

  not_below : (a : ℤ) (m : ℕ) → (if ltb_ℤ (pos m) (pos m) then eqb_ℤ a (pos m) else false) ≡ false
  not_below a m = ground arith

  pub cell_ok-Valid : (s : ℕ) → cell_ok (pos n) (at s) ≡ true → Valid s
  unfolding cell_ok zcell
  cell_ok-Valid s e = elim (dec_lt s n) [
    | yes lt ↦
        let e' =
          sym (ap (λ k. if ltb_ℤ k (pos n) then eqb_ℤ (at s).lnf k else false) (i.number s lt))
          ∙ e in
        let e'' =
          sym (ap (λ f. if ltb_ℤ (pos s) (pos n) then eqb_ℤ f (pos s) else false) (i.normal s lt))
          ∙ e' in
        valid_number s (i.nf s) n e''
    | no ge ↦
        let size : length cs ≡ n = i.size in
        let past : at s ≡ zcell (pos n) = get_or_past (zcell (pos n)) cs s (omega arith) in
        let false_true : false ≡ true =
          sym (not_below (pos 0) n) ∙ sym (ap (cell_ok (pos n)) past) ∙ e in
        absurd (cc)
  ]

  -- A trie that holds the cells.
  abbrev pub Holds : Vt Cell → Type 0
  Holds ct = (k : ℕ) → vlook (zcell (pos n)) ct (pos k) ≡ ok (at k)

  -- The cells of the states that the events of a state lead to, in blocks.
  abbrev column_at : ℕ → ℕ → Blk Cell
  column_at s q = on16 b16 (λ c. at (i.st s (16 * q + c)))

  abbrev pub columns : ℕ → List (Blk Cell)
  columns s = table (column_at s) 0 (length (at s).lcol)

  pub columns_lem :
      (ct : Vt Cell) (s : ℕ)
      → Holds ct
      → s < n
      → map_t (bmap (vlook (zcell (pos n)) ct)) (at s).lcol ≡ ok (columns s)
  columns_lem ct s holds lt =
      map_t-table (bmap (vlook (zcell (pos n)) ct)) (column_at s) (blank (pos 0)) (at s).lcol
        (λ q lq.
          bmap-on16 (pos 0) (vlook (zcell (pos n)) ct) (λ c. at (i.st s (16 * q + c)))
            (get_or (at s).lcol q (blank (pos 0)))
            (λ c lc.
              ap (vlook (zcell (pos n)) ct)
                (sym (cell_parts (pos 0) (at s).lcol q c lc) ∙ i.steps s (16 * q + c) lt)
              ∙ holds (i.st s (16 * q + c))))

  pub cell-columns :
      (s e : ℕ) → s < n → e < n_e → cell (zcell (pos n)) (columns s) e ≡ at (i.st s e)
  cell-columns s e lt le =
      let enough : n_e ≤ 16 * length (at s).lcol = i.enough s lt in
      let whole : 16 * (0 + e / 16) + e % 16 ≡ e = omega arith in
      ap (λ b. entry (zcell (pos n)) b (e % 16))
        (get_or-table (blank (zcell (pos n))) (column_at s) (length (at s).lcol) 0 (e / 16)
          (omega arith))
      ∙ entry-on16 (zcell (pos n)) (λ c. at (i.st s (16 * (0 + e / 16) + c))) (e % 16) (omega arith)
      ∙ ap (λ k. at (i.st s k)) whole
