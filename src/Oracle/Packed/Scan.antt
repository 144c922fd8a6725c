-- ===== src/Oracle/Packed/Scan.antt =====
-- F_scanC of coq/goextract/oracle/oracle_gen.go on packed tables: where it returns `true`, declared pairs
-- of events commute on the start states of the tables.
use native.Mathlib.Decide.{dec_lt}
use mathlib.Core.List.{append-nil}
use normalization_confluence.Common.{
  ℕ, suc, ◌+◌, ◌*◌, ◌/◌, ◌%◌, ◌^◌, ◌≤◌, ◌<◌, ◌≡◌, refl, sym, ap, ◌∙◌, List, [], map, arith, length,
  length-table, get_or_past, get_or, table, get_or-table, true, false, Option, if◌then◌else◌, All,
  In, ◌⊎◌,
}
use normalization_confluence.Common.Int.{ℤ, pos, eqb_ℤ}
use normalization_confluence.Common.Run.{ok, ◌>>=◌, returned, ok_inj}
use normalization_confluence.Oracle.Prims.{nat_succ, nat_sub}
use normalization_confluence.Oracle.Prims.Exact.{nat_succ_pos}
use normalization_confluence.Oracle.Loops.{all_k}
use normalization_confluence.Oracle.Loops.Total.{all_k-true}
use normalization_confluence.Oracle.TableFn.{pairs_of_t}
use normalization_confluence.Oracle.Trie.{Vt, hi16, len_t, of_list_v}
use normalization_confluence.Oracle.Trie.Groups.{len_t-length, length-chunk}
use normalization_confluence.Oracle.Trie.Contents.{of_list_v-vlook, is_below}
use normalization_confluence.Oracle.Blocks.{
  Blk, b16, Split, map_t, qget, rdq, zb, sfx, upto, split_j,
}
use normalization_confluence.Oracle.Blocks.Cells.{cell, qget-cell, rdq-cell}
use normalization_confluence.Oracle.Blocks.Windows.{
  split_of, split_j_lem, hi16_pos, IsView, IsSuffixes, length-sfx,
}
use normalization_confluence.Oracle.Blocks.Loops.{upto-table, chunk-cell}
use normalization_confluence.Oracle.Packed.{
  View, cpair_of, pair_ok_c, comm_c, starts_c, state_ok_c, scan_c,
}
use normalization_confluence.Oracle.Packed.Columns.{
  IsPacked, offset_at, offset_inside, offset_outside, view, columns,
}
use normalization_confluence.Oracle.Packed.Pairs.{IsPair, cpair_nat, map_t-cpair_nat, comm_c-true}

-- Entry `suc a` of a column, at the split of its place.
qget-split :
    (r : List (Blk ℤ)) (j : ℕ)
    → qget (pos 0) r (pos (j / 16)) (pos (j % 16)) ≡ ok (cell (pos 0) r j)
qget-split r j =
    let whole : 16 * (j / 16) + j % 16 ≡ j = omega arith in
    qget-cell (pos 0) r (j / 16) (j % 16) (omega arith) ∙ ap (λ n. ok (cell (pos 0) r n)) whole

eqb_pos : (a b : ℕ) → eqb_ℤ (pos a) (pos b) ≡ true → a ≡ b
eqb_pos a b e = ground arith

module _ (n n_e : ℕ) (t : List (Blk ℤ)) (i : IsPacked n n_e t) where
  -- The state that event `e` leads to.
  abbrev pub next : ℕ → ℕ → ℕ
  next s e = i.at (s * (n_e + 1) + suc e)

  -- A state that is its own normal form, or state 0.
  abbrev pub Starts : ℕ → Type 0
  Starts s = (i.at (s * (n_e + 1)) ≡ s) ⊎ (s ≡ 0)

  starts_c-true :
      (v : View) (s : ℕ)
      → s < n
      → IsView t v (s * (n_e + 1))
      → Starts s
      → starts_c (pos n) v (pos s) ≡ ok true
  unfolding starts_c
  starts_c-true v s lt iv start =
      let k = s * (n_e + 1) in
      let low : iv.offset < 16 = iv.offset_digit in
      let first : 16 * 0 + iv.offset ≡ iv.offset + 0 = omega arith in
      let last : k + 0 ≡ k = omega arith in
      let read : rdq v.vtl (pos 0) v.vof ≡ ok (pos (i.at k)) =
        ap (rdq v.vtl (pos 0)) iv.offset_eq
        ∙ rdq-cell v.vtl 0 iv.offset (omega arith)
        ∙ ap ok
            (ap (cell (pos 0) v.vtl) first ∙ iv.reads 0 ∙ ap (cell (pos 0) t) last ∙ i.cell_at k) in
      ap
        (λ c. elim c [
          | true ↦
              rdq v.vtl (pos 0) v.vof
              >>= (λ nf. ok (if eqb_ℤ nf (pos s) then true else eqb_ℤ (pos s) (pos 0)))
          | false ↦ ok false
        ])
        (is_below s n lt)
      ∙ ap (λ r. r >>= (λ nf. ok (if eqb_ℤ nf (pos s) then true else eqb_ℤ (pos s) (pos 0)))) read
      ∙ ap ok (decided (i.at k) s start)
    where
      decided :
          (a s : ℕ)
          → (a ≡ s) ⊎ (s ≡ 0)
          → (if eqb_ℤ (pos a) (pos s) then true else eqb_ℤ (pos s) (pos 0)) ≡ true
      decided a s start = grind arith

  -- What F_scanC makes of the tables before its loop, and the loop.
  record IsScanned (ps : List (ℤ × ℤ)) : Type 0 where
    st : Vt (List (Blk ℤ))
    made : IsSuffixes t st
    sp_b : List (Blk Split)
    offsets : (k : ℕ) → cell (split_of 0) sp_b k ≡ split_of (offset_at n_e k)
    enough : n_e ≤ 16 * length sp_b
    rounds :
        all_k
          (state_ok_c
            (pos n)
            (pos n_e)
            (pos (n_e / 16 + 1))
            (pos (length t))
            (nat_sub (pos (length t)) (pos 1))
            st
            []
            zb
            sp_b
            (map cpair_nat ps))
          (pos 0)
          (pos n)
        ≡ ok true

  offset_table : ℕ → Split
  offset_table j = split_of (suc j)

  offsets-table :
      n_e < 2 ^ 31
      → upto (λ e. nat_succ e >>= split_j) (pos 0) (pos n_e) [] ≡ ok (table offset_table 0 n_e)
  unfolding offset_table
  offsets-table few =
      upto-table (λ e. nat_succ e >>= split_j) offset_table 0 n_e [] (omega arith)
        (λ j lj.
          ap (λ r. r >>= split_j)
            (nat_succ_pos j (omega arith) ∙ ap (λ n. ok (pos n)) (omega arith))
          ∙ split_j_lem (suc j) (omega arith))
      ∙ ap ok (append-nil (table offset_table 0 n_e))

  table-offset_at :
      (k : ℕ) → get_or (table offset_table 0 n_e) k (split_of 0) ≡ split_of (offset_at n_e k)
  unfolding offset_table
  table-offset_at k =
      let size : length (table offset_table 0 n_e) ≡ n_e = length-table offset_table 0 n_e in
      elim (dec_lt k n_e) [
        | yes lt ↦
            let e : suc (0 + k) ≡ suc k = omega arith in
            get_or-table (split_of 0) offset_table n_e 0 k lt
            ∙ ap split_of e
            ∙ ap split_of (sym (offset_inside k n_e lt))
        | no ge ↦
            get_or_past (split_of 0) (table offset_table 0 n_e) k (omega arith)
            ∙ ap split_of (sym (offset_outside k n_e (omega arith)))
      ]

  scan_c-IsScanned :
      (p : Option (List (ℤ × ℤ))) (ps : List (ℤ × ℤ))
      → scan_c (pos n) (pos n_e) t p ≡ ok true
      → pairs_of_t (pos n_e) p ≡ ok ps
      → All (IsPair n_e) ps
      → IsScanned ps
  unfolding scan_c
  scan_c-IsScanned p ps e pairs natural =
      let few : n_e < 2 ^ 31 = i.few_events in
      let blocks : length t < 2 ^ 58 = i.few_blocks in
      let size : len_t t (pos 0) ≡ ok (pos (length t)) =
        len_t-length t 0 (omega arith) ∙ ap (λ n. ok (pos n)) (omega arith) in
      let zs : split_j (pos 0) ≡ ok (split_of 0) = split_j_lem 0 (omega arith) in
      let groups : nat_succ (hi16 (pos n_e)) ≡ ok (pos (n_e / 16 + 1)) =
        ap nat_succ (hi16_pos n_e (omega arith)) ∙ nat_succ_pos (n_e / 16) (omega arith) in
      let all : length (sfx t []) ≡ length t + 0 = length-sfx t [] in
      let (st, made, _) =
        returned (of_list_v [] (sfx t [])) (of_list_v-vlook [] (sfx t []) 0 (omega arith)) in
      let count : length (table offset_table 0 n_e) ≡ n_e = length-table offset_table 0 n_e in
      let (sp_b, chunked, few_b, cells) =
        chunk-cell (split_of 0) (table offset_table 0 n_e) (omega arith) in
      let (left, _) =
        length-chunk b16 (split_of 0) (table offset_table 0 n_e) (omega arith) sp_b chunked in
      let offsets = offsets-table few in
      let places : map_t cpair_of ps ≡ ok (map cpair_nat ps) = map_t-cpair_nat n_e ps few natural in
      let loop : scan_c (pos n) (pos n_e) t p
          ≡ all_k
              (state_ok_c (pos n) (pos n_e) (pos (n_e / 16 + 1)) (pos (length t))
                (nat_sub (pos (length t)) (pos 1)) st [] zb sp_b (map cpair_nat ps))
              (pos 0) (pos n) =
        rw (size, zs, groups, made, offsets, chunked, pairs, places) refl in
      record {
        st = st;
        made = made;
        sp_b = sp_b;
        offsets = λ k. cells k ∙ table-offset_at k;
        enough = omega arith;
        rounds = sym loop ∙ e;
      }

  -- Both orders of a pair at a state, from the columns of the events.
  pair_ok_c-next :
      (ls : List (Blk (List (Blk ℤ)))) (s a b : ℕ)
      → ((e : ℕ)
          → e < n_e
          → (r : List (Blk ℤ)) × (qget [] ls (pos (e / 16)) (pos (e % 16)) ≡ ok r)
            × ((k : ℕ) → k ≤ n_e → cell (pos 0) r k ≡ pos (i.at (next s e * (n_e + 1) + k))))
      → a < n_e
      → b < n_e
      → pair_ok_c [] ls (cpair_nat (pos a, pos b))
        ≡ ok (eqb_ℤ (pos (next (next s b) a)) (pos (next (next s a) b)))
  unfolding pair_ok_c
  pair_ok_c-next ls s a b get la lb =
      let (col_b, got_b, cells_b) = get b lb in
      let (col_a, got_a, cells_a) = get a la in
      let ab : qget (pos 0) col_b (pos (suc a / 16)) (pos (suc a % 16))
          ≡ ok (pos (next (next s b) a)) =
        qget-split col_b (suc a) ∙ ap ok (cells_b (suc a) la) in
      let ba : qget (pos 0) col_a (pos (suc b / 16)) (pos (suc b % 16))
          ≡ ok (pos (next (next s a) b)) =
        qget-split col_a (suc b) ∙ ap ok (cells_a (suc b) lb) in
      rw (got_b, ab, got_a, ba) refl

  -- Where F_scanC returns `true`, the two orders of a declared pair lead a start state to one state.
  pub scan_c-commutes :
      (p : Option (List (ℤ × ℤ))) (ps : List (ℤ × ℤ))
      → scan_c (pos n) (pos n_e) t p ≡ ok true
      → pairs_of_t (pos n_e) p ≡ ok ps
      → All (IsPair n_e) ps
      → (s a b : ℕ) → s < n
      → Starts s
      → In (pos a, pos b) ps
      → a < n_e
      → b < n_e
      → next (next s b) a ≡ next (next s a) b
  unfolding state_ok_c
  scan_c-commutes p ps e pairs natural s a b lt start m la lb =
      let few : n_e < 2 ^ 31 = i.few_events in
      let top : n ≤ 2 ^ 24 = i.few_states in
      let c = scan_c-IsScanned p ps e pairs natural in
      let round = all_k-true _ n 0 (omega arith) c.rounds s (omega arith) (omega arith) in
      let wide : nat_succ (pos n_e) ≡ ok (pos (n_e + 1)) = nat_succ_pos n_e (omega arith) in
      let (vs, found, iv) = view n n_e t i c.st c.made s lt in
      let starts : starts_c (pos n) vs (pos s) ≡ ok true = starts_c-true vs s lt iv start in
      let (ls, listed, get) =
        columns n n_e t i c.st c.made s lt vs iv (split_of 0) c.sp_b c.offsets c.enough in
      let body : state_ok_c (pos n) (pos n_e) (pos (n_e / 16 + 1)) (pos (length t))
            (nat_sub (pos (length t)) (pos 1)) c.st [] zb c.sp_b (map cpair_nat ps) (pos s)
          ≡ comm_c [] ls (map cpair_nat ps) =
        rw (wide, found, starts, listed) refl in
      let ok_pair = comm_c-true ls ps (pos a, pos b) (sym body ∙ round) m in
      eqb_pos (next (next s b) a) (next (next s a) b)
        (ok_inj (sym (pair_ok_c-next ls s a b get la lb) ∙ ok_pair))
