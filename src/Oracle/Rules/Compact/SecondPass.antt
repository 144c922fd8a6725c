-- ===== src/Oracle/Rules/Compact/SecondPass.antt =====
-- The second pass of F_checkBuildC in coq/goextract/oracle/oracle_gen.go, F_p2 over F_foldB: the blocks
-- that it makes hold the columns of all states, one after the other.
use mathlib.Core.Path.{subst}
use native.Mathlib.Nat.{suc-mul, mul_assoc, mul-le-mul_right}
use native.Mathlib.Decide.{ℕ_discrete}
use normalization_confluence.Common.{
  ◌≢◌, ℕ, suc, ◌+◌, ◌*◌, ◌-◌, ◌/◌, ◌%◌, ◌^◌, ◌≤◌, ◌<◌, ◌≡◌, refl, sym, ap, ◌∙◌, Bool, true, false,
  List, [], ◌∷◌, ◌++◌, arith, length, length-append, get_or, ◌⊎◌, inl, inr,
}
use normalization_confluence.Common.Int.{ℤ, pos, eqb_ℤ}
use normalization_confluence.Common.Run.{Run, ok, ◌>>=◌, returned, ok_inj}
use normalization_confluence.Oracle.Prims.{z_mul, nat_sub}
use normalization_confluence.Oracle.Prims.Exact.{nat_sub_pos}
use normalization_confluence.Oracle.Trie.{rev_append, chunk, hi16}
use normalization_confluence.Oracle.Trie.Groups.{length-chunk}
use normalization_confluence.Oracle.Trie.Contents.{z_mul_16}
use normalization_confluence.Oracle.Blocks.{Blk, b16}
use normalization_confluence.Oracle.Blocks.Cells.{cell, cell-nil}
use normalization_confluence.Oracle.Blocks.Windows.{hi16_pos}
use normalization_confluence.Oracle.Blocks.Loops.{chunk-cell}
use normalization_confluence.Oracle.Blocks.Pending.{
  pending, pending-append, cell-flush, cell-flush_first,
}
use normalization_confluence.Oracle.Rules.{Machine, State}
use normalization_confluence.Oracle.Rules.Compact.{enc, col_onto, p2}
use normalization_confluence.Oracle.Rules.Compact.States.{visit}
use normalization_confluence.Oracle.Rules.Compact.Numbering.{NumberedBy}
use normalization_confluence.Oracle.Rules.Compact.Columns.{IsColumn, col_onto-IsColumn}

rev_append-twice :
    {A : Type 0} (l acc rest : List A)
    → rev_append (rev_append l acc) rest ≡ rev_append acc (l ++ rest)
unfolding rev_append
rev_append-twice [] acc rest = refl
rev_append-twice (x ∷ l) acc rest = rev_append-twice l (x ∷ acc) rest

module _ (m : Machine) (look : ℤ → Run ℤ) where
  -- The columns of a list of states, one after the other.
  abbrev pub IsRows : List State → List ℤ → Type 0
  IsRows [] l = l ≡ []
  IsRows (v ∷ vs) l =
      (c : List ℤ) × (l' : List ℤ) × (l ≡ c ++ l') × IsColumn m look v c × IsRows vs l'

  -- What the pass holds after the states `vs`, the first of which has number `a`.
  pub record IsPass (vs : List State) (a : ℕ) (buf : List ℤ) (bs : List (Blk ℤ)) : Type 0 where
    pub rows : List ℤ
    pub are_rows : IsRows vs rows
    pub total : length rows ≡ length vs * suc (length m.evs)
    pub same : (k : ℕ) → pending buf bs k ≡ get_or rows k (pos 0)
    waiting : ℕ
    size : length buf ≡ waiting * suc (length m.evs)
    aligned : (bs ≡ []) ⊎ ((q : ℕ) × (a + waiting ≡ 16 * q))
    pub few : length bs + length buf ≤ length rows

  -- A column more in front of the waiting entries.
  waits :
      (x : State) (vs : List State) (a : ℕ) (buf : List ℤ) (bs : List (Blk ℤ)) (c : List ℤ)
      → IsPass vs (suc a) buf bs
      → IsColumn m look x c
      → IsPass (x ∷ vs) a (c ++ buf) bs
  waits x vs a buf bs c i col =
      let w = suc (length m.evs) in
      let both : length (c ++ buf) ≡ length c + length buf = length-append c buf in
      let all : length (c ++ i.rows) ≡ length c + length i.rows = length-append c i.rows in
      let more : suc i.waiting * w ≡ i.waiting * w + w = suc-mul i.waiting w in
      let longer : suc (length vs) * w ≡ length vs * w + w = suc-mul (length vs) w in
      let wide : length c ≡ w = col.width in
      let before : length i.rows ≡ length vs * w = i.total in
      let held : length buf ≡ i.waiting * w = i.size in
      let fits : length bs + length buf ≤ length i.rows = i.few in
      record {
        rows = c ++ i.rows;
        are_rows = (c, i.rows, refl, col, i.are_rows);
        total = omega arith;
        same = pending-append c buf bs i.rows i.same;
        waiting = suc i.waiting;
        size = omega arith;
        aligned = elim i.aligned [ inl e ↦ inl e | inr r ↦ inr (r.0, omega (arith, r.1)) ];
        few = omega arith;
      }

  -- The blocks of the waiting entries are made.
  flushes :
      (vs : List State) (a : ℕ) (buf : List ℤ) (bs ts : List (Blk ℤ))
      → IsPass vs a buf bs
      → a % 16 ≡ 0
      → length buf < 2 ^ 63
      → chunk b16 (pos 0) buf ≡ ok ts
      → IsPass vs a [] (ts ++ bs)
  flushes vs a buf bs ts i start small e =
      let w = suc (length m.evs) in
      let (ts', made, shorter, cells) = chunk-cell (pos 0) buf small in
      let at : (k : ℕ) → cell (pos 0) ts k ≡ get_or buf k (pos 0) =
        subst (λ t. (k : ℕ) → cell (pos 0) t k ≡ get_or buf k (pos 0)) (ok_inj (sym made ∙ e))
          cells in
      let fewer : length ts ≤ length buf =
        subst (λ t. length t ≤ length buf) (ok_inj (sym made ∙ e)) shorter in
      let (most, least) = length-chunk b16 (pos 0) buf small ts e in
      let both : length (ts ++ bs) ≡ length ts + length bs = length-append ts bs in
      let fits : length bs + length buf ≤ length i.rows = i.few in
      record {
        rows = i.rows;
        are_rows = i.are_rows;
        total = i.total;
        same = λ k. flushed i.aligned at most least k ∙ i.same k;
        waiting = 0;
        size = omega arith;
        aligned = inr (a / 16, omega arith);
        few = omega arith;
      }
    where
      flushed :
          (bs ≡ []) ⊎ ((q : ℕ) × (a + i.waiting ≡ 16 * q))
          → ((k : ℕ) → cell (pos 0) ts k ≡ get_or buf k (pos 0))
          → length buf ≤ 16 * length ts
          → ((q : ℕ) → length buf ≤ 16 * q → length ts ≤ q)
          → (k : ℕ) → cell (pos 0) (ts ++ bs) k ≡ pending buf bs k
      flushed (inl none) at most least k =
          subst (λ b. cell (pos 0) (ts ++ b) k ≡ pending buf b k) (sym none)
            (cell-flush_first buf ts at k)
      flushed (inr (q, e)) at most least k =
          let w = suc (length m.evs) in
          let d = i.waiting / 16 in
          let groups : i.waiting ≡ 16 * d = omega arith in
          let whole : length buf ≡ 16 * (d * w) =
            i.size ∙ ap (λ n. n * w) groups ∙ mul_assoc 16 d w in
          let le = least (d * w) (omega arith) in
          cell-flush buf ts bs (d * w) at whole (omega arith) k

  -- The end of F_p2: the waiting entries go into blocks, or they go on waiting.
  abbrev flush_if : List ℤ → List (Blk ℤ) → Bool → Run (List ℤ × List (Blk ℤ))
  flush_if buf bs b = elim b [
    | true ↦ chunk b16 (pos 0) buf >>= λ ts. ok ([], rev_append (rev_append ts []) bs)
    | false ↦ ok (buf, bs)
  ]

  flush_if-IsPass :
      (vs : List State) (a : ℕ) (buf : List ℤ) (bs : List (Blk ℤ)) (st : List ℤ × List (Blk ℤ))
      → length vs * suc (length m.evs) < 2 ^ 63
      → IsPass vs a buf bs
      → flush_if buf bs (eqb_ℤ (pos (a % 16)) (pos 0)) ≡ ok st
      → IsPass vs a st.0 st.1 × (a % 16 ≡ 0 → st.0 ≡ [])
  unfolding rev_append
  flush_if-IsPass vs a buf bs st room i e = elim (ℕ_discrete (a % 16) 0) [
    | yes z ↦
        let flushed : flush_if buf bs true ≡ ok st =
          ap (flush_if buf bs) (sym (is_zero (a % 16) z)) ∙ e in
        let (ts, e₂, f₂) = returned (chunk b16 (pos 0) buf) flushed in
        let blocks : ts ++ bs ≡ st.1 =
          sym (rev_append-twice ts [] bs) ∙ ap (λ r. r.1) (ok_inj f₂) in
        let empty : [] ≡ st.0 = ap (λ r. r.0) (ok_inj f₂) in
        let fits : length bs + length buf ≤ length i.rows = i.few in
        let total : length i.rows ≡ length vs * suc (length m.evs) = i.total in
        (
          subst (λ r. IsPass vs a r st.1) empty
              (subst (IsPass vs a []) blocks (flushes vs a buf bs ts i z (omega arith) e₂)),
          λ _. sym empty,
        )
    | no ne ↦
        let kept : ok (buf, bs) ≡ ok st =
          ap (flush_if buf bs) (sym (is_positive (a % 16) ne)) ∙ e in
        (subst (λ r. IsPass vs a r.0 r.1) (ok_inj kept) i, λ z. elim (ne z) [ ])
  ]
    where
      is_zero : (n : ℕ) → n ≡ 0 → eqb_ℤ (pos n) (pos 0) ≡ true
      is_zero n h = ground arith

      is_positive : (n : ℕ) → n ≢ 0 → eqb_ℤ (pos n) (pos 0) ≡ false
      is_positive n h = ground arith

  -- F_p2 after the column.
  p2-flush_if :
      (x : State) (a : ℕ) (buf : List ℤ) (bs : List (Blk ℤ))
      → enc m.doms x ≡ ok (pos a)
      → a < 2 ^ 31
      → (enc m.doms x >>= λ i.
          z_mul (pos 16) (hi16 i) >>= λ s. flush_if buf bs (eqb_ℤ (nat_sub i s) (pos 0)))
        ≡ flush_if buf bs (eqb_ℤ (pos (a % 16)) (pos 0))
  p2-flush_if x a buf bs number small =
      let start : z_mul (pos 16) (pos (a / 16)) ≡ ok (pos (16 * (a / 16))) =
        z_mul_16 (a / 16) (omega arith) in
      let rest : a - 16 * (a / 16) ≡ a % 16 = omega arith in
      let digit : nat_sub (pos a) (pos (16 * (a / 16))) ≡ pos (a % 16) =
        nat_sub_pos a (16 * (a / 16)) (omega arith) ∙ ap pos rest in
      let high : hi16 (pos a) ≡ pos (a / 16) = hi16_pos a (omega arith) in
      let test : ℤ → ℤ → Run (List ℤ × List (Blk ℤ)) =
        λ i s. flush_if buf bs (eqb_ℤ (nat_sub i s) (pos 0)) in
      ap (λ r. r >>= λ i. z_mul (pos 16) (hi16 i) >>= test i) number
      ∙ ap (λ h. z_mul (pos 16) h >>= test (pos a)) high
      ∙ ap (λ r. r >>= test (pos a)) start
      ∙ ap (λ d. flush_if buf bs (eqb_ℤ d (pos 0))) digit

  p2-IsPass :
      (x : State) (vs : List State) (a : ℕ) (st st' : List ℤ × List (Blk ℤ))
      → enc m.doms x ≡ ok (pos a)
      → a < 2 ^ 31
      → suc (length vs) * suc (length m.evs) < 2 ^ 63
      → IsPass vs (suc a) st.0 st.1
      → p2 m look x st ≡ ok st'
      → IsPass (x ∷ vs) a st'.0 st'.1 × (a % 16 ≡ 0 → st'.0 ≡ [])
  unfolding p2
  p2-IsPass x vs a st st' number small room i e =
      let (buf, e₁, f₁) = returned (col_onto m look x st.0) e in
      let (c, q, col) = col_onto-IsColumn m look x st.0 e₁ in
      flush_if-IsPass (x ∷ vs) a buf st.1 st' room
        (subst (λ b. IsPass (x ∷ vs) a b st.1) (sym q) (waits x vs a st.0 st.1 c i col))
        (sym (p2-flush_if x a buf st.1 number small) ∙ f₁)

  pub visit-IsPass :
      (vs : List State) (a : ℕ) {st : List ℤ × List (Blk ℤ)}
      → NumberedBy (enc m.doms) vs a
      → a + length vs ≤ 2 ^ 24
      → length m.evs < 2 ^ 31
      → visit (p2 m look) vs ([], []) ≡ ok st
      → IsPass vs a st.0 st.1 × (a % 16 ≡ 0 → st.0 ≡ [])
  visit-IsPass [] a {st} h top few e =
      subst (λ r. IsPass [] a r.0 r.1 × (a % 16 ≡ 0 → r.0 ≡ [])) (ok_inj e)
        (
          record {
            rows = [];
            are_rows = refl;
            total = omega arith;
            same = λ k. cell-nil (pos 0) k;
            waiting = 0;
            size = omega arith;
            aligned = inl refl;
            few = omega arith;
          },
          λ _. refl,
        )
  visit-IsPass (x ∷ vs) a {st} (number, h) top few e =
      let (st', e₁, f₁) = returned (visit (p2 m look) vs ([], [])) e in
      let (i, _) = visit-IsPass vs (suc a) h (omega arith) few e₁ in
      let w = suc (length m.evs) in
      let most : suc (length vs) * w ≤ 16777216 * w = mul-le-mul_right w (omega arith) in
      p2-IsPass x vs a st' st number (omega arith) (omega arith) i f₁
