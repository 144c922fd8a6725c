-- ===== src/Oracle/Fast/Scan.antt =====
-- F_scanI of coq/goextract/oracle/oracle_gen.go on the cells of a table: where it returns `true`, the
-- table is closed, and declared pairs of events commute on its start states.
use normalization_confluence.Common.{
  ℕ, zero, suc, ◌+◌, ◌*◌, ◌/◌, ◌%◌, ◌^◌, ◌≤◌, ◌<◌, ◌≡◌, refl, sym, ap, ◌∙◌, true, false, Option,
  List, [], ◌∷◌, map, arith, length, get_or, length-table, All, In, ◌⊎◌,
}
use normalization_confluence.Common.Int.{ℤ, pos, eqb_ℤ}
use normalization_confluence.Common.Run.{ok, ◌>>=◌, and_run-true, returned, ok_inj, tested_true}
use normalization_confluence.Oracle.Prims.{nat_succ}
use normalization_confluence.Oracle.Prims.Exact.{nat_succ_pos}
use normalization_confluence.Oracle.TableFn.{pairs_of_t, pairs_ok_w, implb}
use normalization_confluence.Oracle.Trie.{Vt, of_list_v, vlook}
use normalization_confluence.Oracle.Trie.Contents.{of_list_v-vlook}
use normalization_confluence.Oracle.Blocks.{qget}
use normalization_confluence.Oracle.Blocks.Cells.{cell, qget-cell}
use normalization_confluence.Oracle.Packed.Pairs.{IsPair}
use normalization_confluence.Oracle.Fast.{
  Cell, Rpair, zcell, cell_ok, pair_ok_i, comm_i, starts_i, closed_i, state_ok_i, scan_i,
  scan_cells,
}
use normalization_confluence.Oracle.Fast.Entries.{bfa_l-true}
use normalization_confluence.Oracle.Fast.Pairs.{rpair_nat, map_t-rpair_nat, comm_i-true}
use normalization_confluence.Oracle.Fast.Table.{
  IsTable, Valid, cell_ok-Valid, Holds, at, columns, columns_lem, cell-columns,
}

-- The first round of F_scanI, and the others.
scan_i-cons :
    (n n_e : ℤ) (ct : Vt Cell) (rp : List Rpair) (s : ℕ) (c : Cell) (t : List Cell)
    → s < 2 ^ 62
    → scan_i n n_e ct rp (pos s) (c ∷ t) ≡ ok true
    → (state_ok_i n n_e ct rp (pos s) c ≡ ok true) × (scan_i n n_e ct rp (pos (s + 1)) t ≡ ok true)
unfolding scan_i
scan_i-cons n n_e ct rp s c t few e =
    let (b, e₁, f₁) = returned (state_ok_i n n_e ct rp (pos s) c) e in
    let (head, rest) = tested_true b (nat_succ (pos s) >>= λ s'. scan_i n n_e ct rp s' t) f₁ in
    (
      e₁ ∙ ap ok head,
      sym (ap (λ r. r >>= (λ s'. scan_i n n_e ct rp s' t)) (nat_succ_pos s (omega arith))) ∙ rest,
    )

-- Each round of F_scanI.
scan_i-true :
    (n n_e : ℤ) (ct : Vt Cell) (rp : List Rpair) (z : Cell) (s : ℕ) (cs : List Cell) (j : ℕ)
    → s + length cs < 2 ^ 62
    → scan_i n n_e ct rp (pos s) cs ≡ ok true
    → j < length cs
    → state_ok_i n n_e ct rp (pos (s + j)) (get_or cs j z) ≡ ok true
scan_i-true n n_e ct rp z s [] j few e lt = absurd (omega arith)
scan_i-true n n_e ct rp z s (c ∷ t) zero few e lt =
    let same : s + zero ≡ s = omega arith in
    ap (λ k. state_ok_i n n_e ct rp (pos k) c) same
    ∙ (scan_i-cons n n_e ct rp s c t (omega arith) e).0
scan_i-true n n_e ct rp z s (c ∷ t) (suc j) few e lt =
    let same : s + suc j ≡ s + 1 + j = omega arith in
    ap (λ k. state_ok_i n n_e ct rp (pos k) (get_or t j z)) same
    ∙ scan_i-true n n_e ct rp z (s + 1) t j (omega arith)
        (scan_i-cons n n_e ct rp s c t (omega arith) e).1 (omega arith)

eqb_pos : (a b : ℕ) → eqb_ℤ (pos a) (pos b) ≡ true → a ≡ b
eqb_pos a b e = ground arith

module _ (n n_e : ℕ) (cs : List Cell) (i : IsTable n n_e cs) where
  -- A state that is its own normal form, or state 0.
  abbrev pub Starts : ℕ → Type 0
  Starts s = (i.nf s ≡ s) ⊎ (s ≡ 0)

  starts_i-true : (s f : ℕ) → s < n → (f ≡ s) ⊎ (s ≡ 0) → starts_i (pos n) (pos f) (pos s) ≡ true
  unfolding starts_i
  starts_i-true s f lt start = grind arith

  -- Both orders of a pair at a state whose events lead to states of the table.
  pair_ok_i-st :
      (s a b : ℕ)
      → s < n
      → a < n_e
      → b < n_e
      → i.st s a < n
      → i.st s b < n
      → pair_ok_i (zcell (pos n)) (columns n n_e cs i s) (rpair_nat (pos a, pos b))
        ≡ ok (eqb_ℤ (pos (i.st (i.st s b) a)) (pos (i.st (i.st s a) b)))
  unfolding pair_ok_i
  pair_ok_i-st s a b lt la lb low_a low_b =
      rw (got b lb, read (i.st s b) a low_b, got a la, read (i.st s a) b low_a) refl
    where
      got :
          (e : ℕ)
          → e < n_e
          → qget (zcell (pos n)) (columns n n_e cs i s) (pos (e / 16)) (pos (e % 16))
            ≡ ok (at n n_e cs i (i.st s e))
      got e le =
          let whole : 16 * (e / 16) + e % 16 ≡ e = omega arith in
          qget-cell (zcell (pos n)) (columns n n_e cs i s) (e / 16) (e % 16) (omega arith)
          ∙ ap (λ k. ok (cell (zcell (pos n)) (columns n n_e cs i s) k)) whole
          ∙ ap ok (cell-columns n n_e cs i s e lt le)

      read :
          (s e : ℕ)
          → s < n
          → qget (pos 0) (at n n_e cs i s).lcol (pos (e / 16)) (pos (e % 16)) ≡ ok (pos (i.st s e))
      read s e lt =
          let whole : 16 * (e / 16) + e % 16 ≡ e = omega arith in
          qget-cell (pos 0) (at n n_e cs i s).lcol (e / 16) (e % 16) (omega arith)
          ∙ ap (λ k. ok (cell (pos 0) (at n n_e cs i s).lcol k)) whole
          ∙ ap ok (i.steps s e lt)

  -- What the scan finds of a state: its normal form is valid, its events lead to valid states, and the
  -- pairs in `ps` commute if events may start there.
  pub record IsSafe (ps : List (ℤ × ℤ)) (s : ℕ) : Type 0 where
    pub settles : Valid n n_e cs i (i.nf s)
    pub closed : (e : ℕ) → e < n_e → Valid n n_e cs i (i.st s e)
    pub commutes :
        Starts s
        → (a b : ℕ) → In (pos a, pos b) ps
        → a < n_e
        → b < n_e
        → i.st (i.st s b) a ≡ i.st (i.st s a) b

  closed_i-true :
      (ct : Vt Cell) (s : ℕ)
      → Holds n n_e cs i ct
      → s < n
      → closed_i (pos n) (pos n_e) ct (columns n n_e cs i s) (at n n_e cs i s) ≡ ok true
      → Valid n n_e cs i (i.nf s) × ((e : ℕ) → e < n_e → Valid n n_e cs i (i.st s e))
  unfolding closed_i
  closed_i-true ct s holds lt e =
      let few : n_e < 2 ^ 31 = i.few_events in
      let blocks : length (at n n_e cs i s).lcol < 2 ^ 32 = i.few_blocks s lt in
      let enough : n_e ≤ 16 * length (at n n_e cs i s).lcol = i.enough s lt in
      let size : length (columns n n_e cs i s) ≡ length (at n n_e cs i s).lcol =
        length-table _ 0 (length (at n n_e cs i s).lcol) in
      let norm : vlook (zcell (pos n)) ct (at n n_e cs i s).lnf ≡ ok (at n n_e cs i (i.nf s)) =
        ap (vlook (zcell (pos n)) ct) (i.normal s lt) ∙ holds (i.nf s) in
      let (_, found, both) = returned (vlook (zcell (pos n)) ct (at n n_e cs i s).lnf) e in
      let (first, rest) = and_run-true _ _ both in
      let same = ok_inj (sym found ∙ norm) in
      (
        cell_ok-Valid n n_e cs i (i.nf s) (sym (ap (cell_ok (pos n)) same) ∙ ok_inj first),
        λ k lk. cell_ok-Valid n n_e cs i (i.st s k) (
            sym (ap (cell_ok (pos n)) (cell-columns n n_e cs i s k lt lk))
            ∙ bfa_l-true (zcell (pos n)) (cell_ok (pos n)) n_e 0 (columns n n_e cs i s) k rest
                (omega arith) (omega arith) (omega arith) (omega arith)),
      )

  state_ok_i-IsSafe :
      (ct : Vt Cell) (ps : List (ℤ × ℤ)) (s : ℕ)
      → Holds n n_e cs i ct
      → s < n
      → state_ok_i (pos n) (pos n_e) ct (map rpair_nat ps) (pos s) (at n n_e cs i s) ≡ ok true
      → IsSafe ps s
  unfolding state_ok_i
  state_ok_i-IsSafe ct ps s holds lt e =
      let z = zcell (pos n) in
      let ls = columns n n_e cs i s in
      let rp = map rpair_nat ps in
      let c = at n n_e cs i s in
      let e' : (closed_i (pos n) (pos n_e) ct ls c >>= (λ closed. elim closed [
        | true ↦ comm_i z ls rp >>= (λ commute. ok (implb (starts_i (pos n) c.lnf (pos s)) commute))
        | false ↦ ok false
      ]))
          ≡ ok true =
        sym (rw (columns_lem n n_e cs i ct s holds lt) refl) ∙ e in
      let (b, e₁, f₁) = returned (closed_i (pos n) (pos n_e) ct ls c) e' in
      let (head, rest) =
        tested_true b
          (comm_i z ls rp >>= (λ commute. ok (implb (starts_i (pos n) c.lnf (pos s)) commute)))
          f₁ in
      let (t, e₂, f₂) = returned (comm_i z ls rp) rest in
      let (settles, closed) = closed_i-true ct s holds lt (e₁ ∙ ap ok head) in
      record {
        settles = settles;
        closed = closed;
        commutes = λ start a b m la lb.
            let starts : starts_i (pos n) c.lnf (pos s) ≡ true =
              ap (λ f. starts_i (pos n) f (pos s)) (i.normal s lt)
              ∙ starts_i-true s (i.nf s) lt start in
            let all : t ≡ true = sym (ap (λ x. implb x t) starts) ∙ ok_inj f₂ in
            eqb_pos (i.st (i.st s b) a) (i.st (i.st s a) b) (
              ok_inj (
                sym (pair_ok_i-st s a b lt la lb (closed a la).0 (closed b lb).0)
                ∙ comm_i-true z ls ps (pos a, pos b) (e₂ ∙ ap ok all) m));
      }

  -- Where the scan of the cells of a table returns `true`, every state is safe for the declared pairs.
  pub scan_cells-IsSafe :
      (p : Option (List (ℤ × ℤ))) (ps : List (ℤ × ℤ))
      → scan_cells (pos n) (pos n_e) cs p ≡ ok true
      → pairs_of_t (pos n_e) p ≡ ok ps
      → All (IsPair n_e) ps
      → (s : ℕ) → s < n
      → IsSafe ps s
  unfolding scan_cells
  scan_cells-IsSafe p ps e pairs natural s lt =
      let few : n_e < 2 ^ 31 = i.few_events in
      let top : n < 2 ^ 32 = i.few_states in
      let size : length cs ≡ n = i.size in
      let z = zcell (pos n) in
      let (ct, made, _) = returned (of_list_v z cs) (of_list_v-vlook z cs 0 (omega arith)) in
      let holds : Holds n n_e cs i ct = λ k.
        sym (ap (λ r. r >>= (λ t. vlook z t (pos k))) made)
        ∙ of_list_v-vlook z cs k (omega arith) in
      let (declared, e₁, f₁) = returned (pairs_ok_w (pos n_e) p) e in
      let (_, rest) = tested_true declared _ f₁ in
      let rounds : scan_i (pos n) (pos n_e) ct (map rpair_nat ps) (pos 0) cs ≡ ok true =
        sym (rw (made, pairs, map_t-rpair_nat n_e ps few natural) refl) ∙ rest in
      let first : 0 + s ≡ s = omega arith in
      state_ok_i-IsSafe ct ps s holds lt (
        sym (
          ap (λ k. state_ok_i (pos n) (pos n_e) ct (map rpair_nat ps) (pos k) (at n n_e cs i s))
            first)
        ∙ scan_i-true (pos n) (pos n_e) ct (map rpair_nat ps) z 0 cs s (omega arith) rounds
            (omega arith))
