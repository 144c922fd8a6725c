-- ===== src/Oracle/Blocks/Pending.antt =====
-- Entries that wait in a list in front of the blocks that are made, as F_p2 of
-- coq/goextract/oracle/oracle_gen.go keeps them.
use mathlib.Core.List.{append-nil}
use native.Mathlib.Decide.{dec_lt}
use normalization_confluence.Common.{
  ℕ, zero, suc, ◌+◌, ◌*◌, ◌-◌, ◌/◌, ◌%◌, ◌<◌, ◌≡◌, refl, sym, ap, ◌∙◌, List, [], ◌∷◌, ◌++◌, arith,
  length, get_or, get_or-append_left, get_or-append_right,
}
use normalization_confluence.Common.Int.{ℤ, pos}
use normalization_confluence.Oracle.Blocks.{Blk}
use normalization_confluence.Oracle.Blocks.Cells.{entry, blank, cell, cell-nil}

-- Entry `k` of the list and the blocks after it.
abbrev pub pending : List ℤ → List (Blk ℤ) → ℕ → ℤ
pending [] bs k = cell (pos 0) bs k
pending (x ∷ buf) bs zero = x
pending (x ∷ buf) bs (suc k) = pending buf bs k

pub pending-append :
    (c buf : List ℤ) (bs : List (Blk ℤ)) (l : List ℤ)
    → ((k : ℕ) → pending buf bs k ≡ get_or l k (pos 0))
    → (k : ℕ) → pending (c ++ buf) bs k ≡ get_or (c ++ l) k (pos 0)
pending-append [] buf bs l h k = h k
pending-append (x ∷ c) buf bs l h zero = refl
pending-append (x ∷ c) buf bs l h (suc k) = pending-append c buf bs l h k

pending-nil : (buf : List ℤ) (k : ℕ) → pending buf [] k ≡ get_or buf k (pos 0)
pending-nil [] k = cell-nil (pos 0) k
pending-nil (x ∷ buf) zero = refl
pending-nil (x ∷ buf) (suc k) = pending-nil buf k

pending-first :
    (buf : List ℤ) (bs : List (Blk ℤ)) (k : ℕ)
    → k < length buf
    → pending buf bs k ≡ get_or buf k (pos 0)
pending-first [] bs k lt = absurd (omega arith)
pending-first (x ∷ buf) bs zero lt = refl
pending-first (x ∷ buf) bs (suc k) lt = pending-first buf bs k (omega arith)

pending-rest :
    (buf : List ℤ) (bs : List (Blk ℤ)) (k j : ℕ)
    → k ≡ length buf + j
    → pending buf bs k ≡ cell (pos 0) bs j
pending-rest [] bs k j e = ap (cell (pos 0) bs) (omega arith)
pending-rest (x ∷ buf) bs zero j e = absurd (omega arith)
pending-rest (x ∷ buf) bs (suc k) j e = pending-rest buf bs k j (omega arith)

-- The blocks of the waiting entries, which come in groups of 16 unless there are no blocks yet.
pub cell-flush :
    (buf : List ℤ) (ts bs : List (Blk ℤ)) (q : ℕ)
    → ((k : ℕ) → cell (pos 0) ts k ≡ get_or buf k (pos 0))
    → length buf ≡ 16 * q
    → length ts ≡ q
    → (k : ℕ) → cell (pos 0) (ts ++ bs) k ≡ pending buf bs k
cell-flush buf ts bs q h size blocks k = elim (dec_lt k (length buf)) [
  | yes lt ↦
      ap (λ b. entry (pos 0) b (k % 16))
        (get_or-append_left (blank (pos 0)) ts bs (k / 16) (omega arith))
      ∙ h k
      ∙ sym (pending-first buf bs k lt)
  | no ge ↦
      let j = k - length buf in
      let block : k / 16 ≡ length ts + j / 16 = omega arith in
      let digit : k % 16 ≡ j % 16 = omega arith in
      ap (λ b. entry (pos 0) b (k % 16))
        (get_or-append_right (blank (pos 0)) ts bs (k / 16) (j / 16) block)
      ∙ ap (entry (pos 0) (get_or bs (j / 16) (blank (pos 0)))) digit
      ∙ sym (pending-rest buf bs k j (omega arith))
]

pub cell-flush_first :
    (buf : List ℤ) (ts : List (Blk ℤ))
    → ((k : ℕ) → cell (pos 0) ts k ≡ get_or buf k (pos 0))
    → (k : ℕ) → cell (pos 0) (ts ++ []) k ≡ pending buf [] k
cell-flush_first buf ts h k =
    ap (λ t. cell (pos 0) t k) (append-nil ts) ∙ h k ∙ sym (pending-nil buf k)
