-- ===== src/Oracle/Blocks/Cells.antt =====
-- The reads of blocks in coq/goextract/oracle/oracle_gen.go, F_dsel, F_dselH, F_realign, F_qget and
-- F_rdq, compared with the sequence of entries that a list of blocks holds.
use native.Mathlib.Decide.{dec_lt}
use normalization_confluence.Common.{
  ℕ, zero, suc, ◌+◌, ◌*◌, ◌-◌, ◌/◌, ◌%◌, ◌≤◌, ◌<◌, ◌≡◌, refl, sym, ap, ◌∙◌, List, [], ◌∷◌, ◌++◌,
  arith, length, get_or, get_or-append_left, get_or-append_right, get_or-table, true, false,
  if◌then◌else◌,
}
use normalization_confluence.Common.Int.{ℤ, pos, ltb_ℤ}
use normalization_confluence.Common.Run.{ok}
use normalization_confluence.Oracle.Trie.Groups.{on16}
use normalization_confluence.Oracle.Blocks.{Blk, b16, pick, dsel, dsel_h, realign, qget, rdq}

-- The entries of a block.
abbrev pub entries : {A : Type 0} → Blk A → List A
entries (b16 x0 x1 x2 x3 x4 x5 x6 x7 x8 x9 x10 x11 x12 x13 x14 x15) =
    x0 ∷ x1 ∷ x2 ∷ x3 ∷ x4 ∷ x5 ∷ x6 ∷ x7 ∷ x8 ∷ x9 ∷ x10 ∷ x11 ∷ x12 ∷ x13 ∷ x14 ∷ x15 ∷ []

module _ {A : Type 0} (z : A) where
  abbrev pub entry : Blk A → ℕ → A
  entry b k = get_or (entries b) k z

  abbrev pub blank : Blk A
  blank = on16 b16 (λ _. z)

  -- Entry `k` of a list of blocks, `z` past its end.
  abbrev pub cell : List (Blk A) → ℕ → A
  cell t k = entry (get_or t (k / 16) blank) (k % 16)

pub entry-on16 : {A : Type 0} (z : A) (g : ℕ → A) (c : ℕ) → c < 16 → entry z (on16 b16 g) c ≡ g c
entry-on16 z g c lt = get_or-table z g 16 0 c lt ∙ ap g (omega arith)

pick-on16 : {A : Type 0} (g : ℕ → A) (b c : ℕ) → c < 16 → on16 (pick b (pos (b + c))) g ≡ g c
unfolding pick
pick-on16 g b c lt = grind arith

-- The same without an offset.
pick-first : {A : Type 0} (g : ℕ → A) (c : ℕ) → c < 16 → on16 (pick 0 (pos c)) g ≡ g c
unfolding pick
pick-first g c lt = grind arith

pub dsel-entry : {A : Type 0} (z : A) (b : Blk A) (c : ℕ) → c < 16 → dsel (pos c) b ≡ entry z b c
unfolding dsel
dsel-entry z (b16 x0 x1 x2 x3 x4 x5 x6 x7 x8 x9 x10 x11 x12 x13 x14 x15) c lt =
    pick-first (entry z (b16 x0 x1 x2 x3 x4 x5 x6 x7 x8 x9 x10 x11 x12 x13 x14 x15)) c lt

dsel_h-entry :
    {A : Type 0} (z : A) (b : Blk A) (c : ℕ) → c < 16 → dsel_h (pos (16 + c)) b ≡ entry z b c
unfolding dsel_h
dsel_h-entry z (b16 x0 x1 x2 x3 x4 x5 x6 x7 x8 x9 x10 x11 x12 x13 x14 x15) c lt =
    pick-on16 (entry z (b16 x0 x1 x2 x3 x4 x5 x6 x7 x8 x9 x10 x11 x12 x13 x14 x15)) 16 c lt

-- Entry `k`, below 32, of two blocks.
abbrev pub two : Blk ℤ → Blk ℤ → ℕ → ℤ
two b b' k = get_or (entries b ++ entries b') k (pos 0)

pub length-entries : {A : Type 0} (b : Blk A) → length (entries b) ≡ 16
length-entries (b16 x0 x1 x2 x3 x4 x5 x6 x7 x8 x9 x10 x11 x12 x13 x14 x15) = refl

pub two-first : (b b' : Blk ℤ) (k : ℕ) → k < 16 → two b b' k ≡ entry (pos 0) b k
two-first b b' k lt =
    let size : length (entries b) ≡ 16 = length-entries b in
    get_or-append_left (pos 0) (entries b) (entries b') k (omega arith)

pub two-second : (b b' : Blk ℤ) (k : ℕ) → two b b' (16 + k) ≡ entry (pos 0) b' k
two-second b b' k =
    let size : length (entries b) ≡ 16 = length-entries b in
    get_or-append_right (pos 0) (entries b) (entries b') (16 + k) k (omega arith)

pub realign-two :
    (b b' : Blk ℤ) (o : ℕ) → o < 16 → realign (pos o) b b' ≡ on16 b16 (λ c. two b b' (o + c))
unfolding realign
realign-two (b16 x0 x1 x2 x3 x4 x5 x6 x7 x8 x9 x10 x11 x12 x13 x14 x15)
      (b16 y0 y1 y2 y3 y4 y5 y6 y7 y8 y9 y10 y11 y12 y13 y14 y15) o lt =
    let b = b16 x0 x1 x2 x3 x4 x5 x6 x7 x8 x9 x10 x11 x12 x13 x14 x15 in
    let b' = b16 y0 y1 y2 y3 y4 y5 y6 y7 y8 y9 y10 y11 y12 y13 y14 y15 in
    let at : ℕ → Blk ℤ = λ o. on16 b16 (λ c. two b b' (o + c)) in pick-first at o lt

module _ {A : Type 0} (z : A) where
  pub cell-cons_first :
      (b : Blk A) (t : List (Blk A)) (k : ℕ) → k < 16 → cell z (b ∷ t) k ≡ entry z b k
  cell-cons_first b t k lt =
      let block : k / 16 ≡ 0 = omega arith in
      let digit : k % 16 ≡ k = omega arith in rw (block, digit) refl

  pub cell-cons_rest : (b : Blk A) (t : List (Blk A)) (k : ℕ) → cell z (b ∷ t) (16 + k) ≡ cell z t k
  cell-cons_rest b t k =
      let block : (16 + k) / 16 ≡ suc (k / 16) = omega arith in
      let digit : (16 + k) % 16 ≡ k % 16 = omega arith in
      ap (λ q. entry z (get_or (b ∷ t) q (blank z)) ((16 + k) % 16)) block
      ∙ ap (entry z (get_or t (k / 16) (blank z))) digit

  pub cell-nil : (k : ℕ) → cell z [] k ≡ z
  cell-nil k = entry-on16 z (λ _. z) (k % 16) (omega arith)

  -- Entry `c` of block `q`.
  pub cell_parts :
      (t : List (Blk A)) (q c : ℕ)
      → c < 16
      → cell z t (16 * q + c) ≡ entry z (get_or t q (blank z)) c
  cell_parts t q c lt =
      let block : (16 * q + c) / 16 ≡ q = omega arith in
      let digit : (16 * q + c) % 16 ≡ c = omega arith in
      ap (λ n. entry z (get_or t n (blank z)) ((16 * q + c) % 16)) block
      ∙ ap (entry z (get_or t q (blank z))) digit

  pub qget-cell :
      (t : List (Blk A)) (q c : ℕ) → c < 16 → qget z t (pos q) (pos c) ≡ ok (cell z t (16 * q + c))
  unfolding qget
  qget-cell [] q c lt = ap ok (sym (cell-nil (16 * q + c)))
  qget-cell (b ∷ t) zero c lt =
      ap ok
        (dsel-entry z b c lt ∙ sym (cell-cons_first b t c lt) ∙ ap (cell z (b ∷ t)) (omega arith))
  qget-cell (b ∷ t) (suc q) c lt =
      qget-cell t q c lt
      ∙ ap ok (sym (cell-cons_rest b t (16 * q + c)) ∙ ap (cell z (b ∷ t)) (omega arith))

is_first : (s : ℕ) → s < 16 → ltb_ℤ (pos s) (pos 16) ≡ true
is_first s h = ground arith

is_second : (s : ℕ) → 16 ≤ s → ltb_ℤ (pos s) (pos 16) ≡ false
is_second s h = ground arith

rdq-suc :
    (b : Blk ℤ) (t : List (Blk ℤ)) (q s : ℕ)
    → rdq (b ∷ t) (pos (suc q)) (pos s) ≡ rdq t (pos q) (pos s)
unfolding rdq
rdq-suc b [] q s = refl
rdq-suc b (b' ∷ t) q s = refl

pub rdq-cell :
    (t : List (Blk ℤ)) (q s : ℕ) → s < 32 → rdq t (pos q) (pos s) ≡ ok (cell (pos 0) t (16 * q + s))
unfolding rdq
rdq-cell [] q s lt = ap ok (sym (cell-nil (pos 0) (16 * q + s)))
rdq-cell (b ∷ []) zero s lt = elim (dec_lt s 16) [
  | yes h ↦
      let e : s ≡ 16 * 0 + s = omega arith in
      ap (λ t. ok (if t then dsel (pos s) b else pos 0)) (is_first s h)
      ∙ ap ok (
          dsel-entry (pos 0) b s h
          ∙ sym (cell-cons_first (pos 0) b [] s h)
          ∙ ap (cell (pos 0) (b ∷ [])) e)
  | no ge ↦
      let e : 16 + (s - 16) ≡ 16 * 0 + s = omega arith in
      ap (λ t. ok (if t then dsel (pos s) b else pos 0)) (is_second s (omega arith))
      ∙ ap ok (
          sym (cell-nil (pos 0) (s - 16))
          ∙ sym (cell-cons_rest (pos 0) b [] (s - 16))
          ∙ ap (cell (pos 0) (b ∷ [])) e)
]
rdq-cell (b ∷ b' ∷ t) zero s lt = elim (dec_lt s 16) [
  | yes h ↦
      let e : s ≡ 16 * 0 + s = omega arith in
      ap (λ c. ok (if c then dsel (pos s) b else dsel_h (pos s) b')) (is_first s h)
      ∙ ap ok (
          dsel-entry (pos 0) b s h
          ∙ sym (cell-cons_first (pos 0) b (b' ∷ t) s h)
          ∙ ap (cell (pos 0) (b ∷ b' ∷ t)) e)
  | no ge ↦
      let d = s - 16 in
      let e : s ≡ 16 + d = omega arith in
      let e' : 16 + d ≡ 16 * 0 + s = omega arith in
      ap (λ c. ok (if c then dsel (pos s) b else dsel_h (pos s) b')) (is_second s (omega arith))
      ∙ ap (λ n. ok (dsel_h (pos n) b')) e
      ∙ ap ok (
          dsel_h-entry (pos 0) b' d (omega arith)
          ∙ sym (cell-cons_first (pos 0) b' t d (omega arith))
          ∙ sym (cell-cons_rest (pos 0) b (b' ∷ t) d)
          ∙ ap (cell (pos 0) (b ∷ b' ∷ t)) e')
]
rdq-cell (b ∷ t) (suc q) s lt =
    rdq-suc b t q s
    ∙ rdq-cell t q s lt
    ∙ ap ok
        (sym (cell-cons_rest (pos 0) b t (16 * q + s)) ∙ ap (cell (pos 0) (b ∷ t)) (omega arith))
