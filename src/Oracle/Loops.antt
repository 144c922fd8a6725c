-- ===== src/Oracle/Loops.antt =====
-- The loops over counters and lists of coq/goextract/oracle/oracle_gen.go: F_allK, F_forallb and
-- the builders of the list of all pairs. A nat counter below 0 is a panic, and a callback may panic.
pub mod Total
pub mod Pairs
use normalization_confluence.Common.{zero, suc, Bool, true, false, List, [], ◌∷◌}
use normalization_confluence.Common.Int.{ℤ, pos, negsuc}
use normalization_confluence.Common.Run.{Run, ok, panic, ◌>>=◌, not_a_nat}
use normalization_confluence.Oracle.Prims.{nat_succ, nat_sub}

-- The test of `i`, `i + 1`, …: a loop of `k` rounds that stops at the first `false`.
unfoldable pub all_k : (ℤ → Run Bool) → ℤ → ℤ → Run Bool
all_k f i (negsuc _) = panic not_a_nat
all_k f i (pos zero) = ok true
all_k f i (pos (suc k)) = do
  t ← f i
  elim t [ false ↦ ok false | true ↦ do i' ← nat_succ i; all_k f i' (pos k) ]

unfoldable pub forallb {ℓ} : {A : Type ℓ} → (A → Run Bool) → List A → Run Bool
forallb f [] = ok true
forallb f (a ∷ l) = do t ← f a; elim t [ false ↦ ok false | true ↦ forallb f l ]

-- The pairs (i, j), (i, j + 1), …, `k` of them, in front of `acc`, the last one first.
unfoldable pub pairs_row : ℤ → ℤ → ℤ → List (ℤ × ℤ) → Run (List (ℤ × ℤ))
pairs_row i j (negsuc _) acc = panic not_a_nat
pairs_row i j (pos zero) acc = ok acc
pairs_row i j (pos (suc k)) acc = do j' ← nat_succ j; pairs_row i j' (pos k) ((i, j) ∷ acc)

unfoldable pub pairs_all : ℤ → ℤ → ℤ → List (ℤ × ℤ) → Run (List (ℤ × ℤ))
pairs_all n_e i (negsuc _) acc = panic not_a_nat
pairs_all n_e i (pos zero) acc = ok acc
pairs_all n_e i (pos (suc k)) acc = do
  i' ← nat_succ i
  first ← nat_succ i
  after ← nat_succ i
  row ← pairs_row i first (nat_sub n_e after) acc
  pairs_all n_e i' (pos k) row

unfoldable pub all_pairs_t : ℤ → Run (List (ℤ × ℤ))
all_pairs_t n_e = pairs_all n_e (pos 0) n_e []
