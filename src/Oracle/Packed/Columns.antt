-- ===== src/Oracle/Packed/Columns.antt =====
-- The columns that F_state_okC of coq/goextract/oracle/oracle_gen.go takes from the packed tables: for
-- each event, the entries of the state that it leads to.
use native.Mathlib.Nat.{mul-le-mul_right}
use normalization_confluence.Common.{
  ℕ, suc, ◌+◌, ◌*◌, ◌/◌, ◌%◌, ◌^◌, ◌≤◌, ◌<◌, ◌≡◌, sym, ap, ◌∙◌, List, [], arith, length, get_or,
  table, get_or-table, ltb, if◌then◌else◌,
}
use normalization_confluence.Common.Int.{ℤ, pos}
use normalization_confluence.Common.Run.{Run, ok, ◌>>=◌}
use normalization_confluence.Oracle.Prims.{nat_sub}
use normalization_confluence.Oracle.Trie.{Vt}
use normalization_confluence.Oracle.Trie.Groups.{on16}
use normalization_confluence.Oracle.Blocks.{Blk, b16, Split, bmap, map_t, qget, zb}
use normalization_confluence.Oracle.Blocks.Cells.{
  entry, blank, cell, cell_parts, entry-on16, qget-cell,
}
use normalization_confluence.Oracle.Blocks.Windows.{
  split_of, IsView, IsSuffixes, align_n-cell, view_of-IsView, rdj-IsView,
}
use normalization_confluence.Oracle.Blocks.Loops.{map_t-table, bmap-on16}
use normalization_confluence.Oracle.Packed.{View, view_of, rdj, align_v}

-- The packed tables `t` of `n` states and `n_e` events: `n_e` + 1 entries for each state, which are
-- numbers of states.
pub record IsPacked (n n_e : ℕ) (t : List (Blk ℤ)) : Type 0 where
  pub few_states : n ≤ 2 ^ 24
  pub few_events : n_e < 2 ^ 31
  pub few_blocks : length t < 2 ^ 58
  pub at : ℕ → ℕ
  pub cell_at : (k : ℕ) → cell (pos 0) t k ≡ pos (at k)
  pub at_below : (k : ℕ) → at k < n

-- The entry that the padded place `k` of the offsets stands for.
abbrev pub offset_at : ℕ → ℕ → ℕ
offset_at n_e k = if ltb k n_e then suc k else 0

pub offset_inside : (k n_e : ℕ) → k < n_e → offset_at n_e k ≡ suc k
offset_inside k n_e h = ground arith

pub offset_outside : (k n_e : ℕ) → n_e ≤ k → offset_at n_e k ≡ 0
offset_outside k n_e h = ground arith

module _ (n n_e : ℕ) (t : List (Blk ℤ)) (i : IsPacked n n_e t) (st : Vt (List (Blk ℤ)))
    (made : IsSuffixes t st) where
  abbrev pub width : ℕ
  width = n_e + 1

  abbrev pub reach : ℕ
  reach = n_e / 16 + 1

  pub row_fits : (s : ℕ) → s < n → s * width < 2 ^ 56
  row_fits s lt =
      let top : n ≤ 2 ^ 24 = i.few_states in
      let few : n_e < 2 ^ 31 = i.few_events in
      let le : s * width ≤ 16777216 * width = mul-le-mul_right width (omega arith) in omega arith

  pub view :
      (s : ℕ)
      → s < n
      → (v : View) × (view_of
            (pos width)
            (pos (length t))
            (nat_sub (pos (length t)) (pos 1))
            st
            []
            (pos s)
          ≡ ok v)
        × IsView t v (s * width)
  view s lt =
      let fits : s * width < 2 ^ 56 = row_fits s lt in
      let top : n ≤ 2 ^ 24 = i.few_states in
      let few : n_e < 2 ^ 31 = i.few_events in
      view_of-IsView t st i.few_blocks made width s (omega arith) (omega arith) (omega arith)

  -- The callback of F_state_okC on an offset: the entries of the state that the offset names.
  abbrev pub read_column : View → Split → Run (List (Blk ℤ))
  read_column vs qd = do
    x ← rdj vs qd
    v ← view_of (pos width) (pos (length t)) (nat_sub (pos (length t)) (pos 1)) st [] x
    align_v (pos reach) zb v

  module _ (s : ℕ) (lt : s < n) (vs : View) (iv : IsView t vs (s * width)) where
    column :
        (j : ℕ)
        → (r : List (Blk ℤ)) × (read_column vs (split_of j) ≡ ok r)
          × ((k : ℕ) → k ≤ n_e → cell (pos 0) r k ≡ pos (i.at (i.at (s * width + j) * width + k)))
    unfolding align_v
    column j =
        let x = i.at (s * width + j) in
        let (v, found, is_view) = view x (i.at_below (s * width + j)) in
        let (r, aligned, cells) = align_n-cell reach is_view.offset v.vtl is_view.offset_digit in
        let read : rdj vs (split_of j) ≡ ok (pos x) =
          rdj-IsView vs (s * width) j iv ∙ ap ok (i.cell_at (s * width + j)) in
        (
          r,
          rw (read, found, is_view.offset_eq) aligned,
          λ k le. cells k (omega arith) ∙ is_view.reads k ∙ i.cell_at (x * width + k),
        )

    abbrev column_at : ℕ → List (Blk ℤ)
    column_at k = (column (offset_at n_e k)).0

    -- The blocks of columns, from the blocks of offsets.
    pub columns :
        (zs : Split) (sp_b : List (Blk Split))
        → ((k : ℕ) → cell zs sp_b k ≡ split_of (offset_at n_e k))
        → n_e ≤ 16 * length sp_b
        → (ls : List (Blk (List (Blk ℤ)))) × (map_t (bmap (read_column vs)) sp_b ≡ ok ls)
          × ((e : ℕ)
              → e < n_e
              → (r : List (Blk ℤ)) × (qget [] ls (pos (e / 16)) (pos (e % 16)) ≡ ok r)
                × ((k : ℕ)
                    → k ≤ n_e
                    → cell (pos 0) r k ≡ pos (i.at (i.at (s * width + suc e) * width + k))))
    columns zs sp_b offsets enough =
        let block : ℕ → Blk (List (Blk ℤ)) = λ q. on16 b16 (λ c. column_at (16 * q + c)) in
        let made_block : (q : ℕ)
            → q < length sp_b
            → bmap (read_column vs) (get_or sp_b q (blank zs)) ≡ ok (block q) =
          λ q lq.
            bmap-on16 zs (read_column vs) (λ c. column_at (16 * q + c)) (get_or sp_b q (blank zs))
              (λ c lc.
                ap (read_column vs) (sym (cell_parts zs sp_b q c lc) ∙ offsets (16 * q + c))
                ∙ (column (offset_at n_e (16 * q + c))).1) in
        let got : (e : ℕ)
            → e < n_e
            → qget [] (table block 0 (length sp_b)) (pos (e / 16)) (pos (e % 16))
              ≡ ok (column_at e) =
          λ e le.
            let whole : 16 * (0 + e / 16) + e % 16 ≡ e = omega arith in
            qget-cell [] (table block 0 (length sp_b)) (e / 16) (e % 16) (omega arith)
            ∙ ap ok (
                cell_parts [] (table block 0 (length sp_b)) (e / 16) (e % 16) (omega arith)
                ∙ ap (λ b. entry [] b (e % 16))
                    (get_or-table (blank []) block (length sp_b) 0 (e / 16) (omega arith))
                ∙ entry-on16 [] (λ c. column_at (16 * (0 + e / 16) + c)) (e % 16) (omega arith)
                ∙ ap column_at whole) in
        (
          table block 0 (length sp_b),
          map_t-table (bmap (read_column vs)) block (blank zs) sp_b made_block,
          λ e le. (
            column_at e,
            got e le,
            λ k lk.
                (column (offset_at n_e e)).2 k lk
                ∙ ap (λ j. pos (i.at (i.at (s * width + j) * width + k))) (offset_inside e n_e le),
          ),
        )
