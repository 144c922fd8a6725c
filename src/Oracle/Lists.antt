-- ===== src/Oracle/Lists.antt =====
-- The list functions of coq/goextract/oracle/oracle_gen.go that the rules oracle calls: F_nth,
-- F_find, F_existsb, F_app, F_map, F_flat_map, F_fold_left, F_repeat, F_length, F_seq, F_allPairs.
-- A callback may panic, and so may an index below 0.
pub mod Members
use normalization_confluence.Common.{
  zero, suc, Bool, true, false, Option, none, some, List, [], ◌∷◌, ◌++◌,
}
use normalization_confluence.Common.Int.{ℤ, pos, negsuc}
use normalization_confluence.Common.Run.{Run, ok, panic, ◌>>=◌, not_a_nat}
use normalization_confluence.Oracle.Prims.{nat_succ, nat_sub}

module _ {ℓ} {A : Type ℓ} where
  unfoldable pub nth : ℤ → List A → A → Run A
  nth (negsuc _) l default = panic not_a_nat
  nth (pos n) [] default = ok default
  nth (pos zero) (x ∷ l) default = ok x
  nth (pos (suc m)) (x ∷ l) default = nth (pos m) l default

  unfoldable pub find : (A → Run Bool) → List A → Run (Option A)
  find f [] = ok none
  find f (x ∷ l) = do t ← f x; elim t [ true ↦ ok (some x) | false ↦ find f l ]

  unfoldable pub repeat : A → ℤ → Run (List A)
  repeat x (negsuc _) = panic not_a_nat
  repeat x (pos zero) = ok []
  repeat x (pos (suc k)) = do l ← repeat x (pos k); ok (x ∷ l)

  unfoldable pub length_run : List A → Run ℤ
  length_run [] = ok (pos 0)
  length_run (_ ∷ l) = do k ← length_run l; nat_succ k

module _ {ℓ κ} {A : Type ℓ} {B : Type κ} where
  unfoldable pub map_run : (A → Run B) → List A → Run (List B)
  map_run f [] = ok []
  map_run f (a ∷ l) = do b ← f a; t ← map_run f l; ok (b ∷ t)

  unfoldable pub flat_map : (A → Run (List B)) → List A → Run (List B)
  flat_map f [] = ok []
  flat_map f (x ∷ l) = do a ← f x; t ← flat_map f l; ok (a ++ t)

  unfoldable pub fold_left : (A → B → Run A) → List B → A → Run A
  fold_left f [] a = ok a
  fold_left f (b ∷ l) a = do a' ← f a b; fold_left f l a'

-- start, start + 1, …: `F_seq`, whose second argument is how many.
unfoldable pub seq : ℤ → ℤ → Run (List ℤ)
seq start (negsuc _) = panic not_a_nat
seq start (pos zero) = ok []
seq start (pos (suc k)) = do s ← nat_succ start; l ← seq s (pos k); ok (start ∷ l)

-- The callback of F_allPairs: the pairs of `i` with the larger events.
unfoldable pub pairs_from : ℤ → ℤ → Run (List (ℤ × ℤ))
unfolding seq map_run
pairs_from n_e i = do
  first ← nat_succ i
  after ← nat_succ i
  js ← seq first (nat_sub n_e after)
  map_run (λ j. ok (i, j)) js

unfoldable pub all_pairs : ℤ → Run (List (ℤ × ℤ))
unfolding flat_map pairs_from
all_pairs n_e = do is ← seq (pos 0) n_e; flat_map (pairs_from n_e) is
