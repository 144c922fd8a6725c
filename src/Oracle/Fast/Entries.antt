-- ===== src/Oracle/Fast/Entries.antt =====
-- F_bfa1 and F_bfaL of coq/goextract/oracle/oracle_gen.go with a test that returns: where they return
-- `true`, each entry below the bound passes the test.
use native.Mathlib.Decide.{dec_lt}
use normalization_confluence.Common.{
  ℕ, zero, suc, ◌+◌, ◌*◌, ◌-◌, ◌^◌, ◌<◌, ◌≡◌, refl, sym, ap, ◌∙◌, Bool, true, List, [], ◌∷◌, arith,
  length, get_or,
}
use normalization_confluence.Common.Int.{pos}
use normalization_confluence.Common.Run.{
  Run, ok, ◌>>=◌, and_run, and_run-true, returned, ok_inj, tested_true,
}
use normalization_confluence.Oracle.Prims.{z_add}
use normalization_confluence.Oracle.Prims.Exact.{z_add_pos}
use normalization_confluence.Oracle.TableFn.{implb}
use normalization_confluence.Oracle.Trie.Contents.{is_below}
use normalization_confluence.Oracle.Blocks.{Blk, b16}
use normalization_confluence.Oracle.Blocks.Cells.{entry, cell, cell-cons_first, cell-cons_rest}
use normalization_confluence.Oracle.Fast.{passes, passes_after, bfa1, bfa_l}

module _ {A : Type 0} (z : A) (g : A → Bool) (m : ℕ) where
  abbrev tested : A → Run Bool
  tested x = ok (g x)

  -- The tests of the entries after the first one, at `c` places from number `b`.
  abbrev chain : ℕ → List A → ℕ → Run Bool
  chain b [] c = ok true
  chain b (x ∷ []) c = passes_after tested (pos m) (pos b) (pos c) x
  chain b (x ∷ y ∷ l) c =
      and_run (passes_after tested (pos m) (pos b) (pos c) x) (chain b (y ∷ l) (suc c))

  passes-true : (b : ℕ) (x : A) → b < m → passes tested (pos m) (pos b) x ≡ ok true → g x ≡ true
  unfolding passes
  passes-true b x lt e = sym (ap (λ t. implb t (g x)) (is_below b m lt)) ∙ ok_inj e

  passes_after-true :
      (b c : ℕ) (x : A)
      → b + c < m
      → m < 2 ^ 32
      → passes_after tested (pos m) (pos b) (pos c) x ≡ ok true
      → g x ≡ true
  unfolding passes_after
  passes_after-true b c x lt small e =
      passes-true (b + c) x lt
        (sym (ap (λ r. r >>= (λ i. passes tested (pos m) i x)) (z_add_pos b c (omega arith))) ∙ e)

  chain-true :
      (b : ℕ) (l : List A) (c j : ℕ)
      → chain b l c ≡ ok true
      → j < length l
      → b + (c + j) < m
      → m < 2 ^ 32
      → g (get_or l j z) ≡ true
  chain-true b [] c j e lj lt small = absurd (omega arith)
  chain-true b (x ∷ []) c zero e lj lt small = passes_after-true b c x (omega arith) small e
  chain-true b (x ∷ []) c (suc j) e lj lt small = absurd (omega arith)
  chain-true b (x ∷ y ∷ l) c zero e lj lt small =
      passes_after-true b c x (omega arith) small (and_run-true _ _ e).0
  chain-true b (x ∷ y ∷ l) c (suc j) e lj lt small =
      chain-true b (y ∷ l) (suc c) j (and_run-true _ _ e).1 (omega arith) (omega arith) small

  bfa1-true :
      (b : ℕ) (t : Blk A) (j : ℕ)
      → bfa1 tested (pos m) (pos b) t ≡ ok true
      → j < 16
      → b + j < m
      → m < 2 ^ 32
      → g (entry z t j) ≡ true
  unfolding bfa1
  bfa1-true b (b16 x0 x1 x2 x3 x4 x5 x6 x7 x8 x9 x10 x11 x12 x13 x14 x15) zero e lj lt small =
      passes-true b x0 (omega arith) (and_run-true _ _ e).0
  bfa1-true b (b16 x0 x1 x2 x3 x4 x5 x6 x7 x8 x9 x10 x11 x12 x13 x14 x15) (suc j) e lj lt small =
      let l = x1 ∷ x2 ∷ x3 ∷ x4 ∷ x5 ∷ x6 ∷ x7 ∷ x8 ∷ x9 ∷ x10 ∷ x11 ∷ x12 ∷ x13 ∷ x14 ∷ x15 ∷ [] in
      let size : length l ≡ 15 = refl in
      chain-true b l 1 j (and_run-true (passes tested (pos m) (pos b) x0) (chain b l 1) e).1
        (omega arith) (omega arith) small

  pub bfa_l-true :
      (b : ℕ) (ts : List (Blk A)) (k : ℕ)
      → bfa_l tested (pos m) (pos b) ts ≡ ok true
      → k < 16 * length ts
      → b + k < m
      → b + 16 * length ts < 2 ^ 62
      → m < 2 ^ 32
      → g (cell z ts k) ≡ true
  unfolding bfa_l
  bfa_l-true b [] k e lk lt few small = absurd (omega arith)
  bfa_l-true b (t ∷ ts) k e lk lt few small =
      let (passed, e₁, f₁) = returned (bfa1 tested (pos m) (pos b) t) e in
      let (head, rest) =
        tested_true passed (z_add (pos b) (pos 16) >>= λ b'. bfa_l tested (pos m) b' ts) f₁ in
      elim (dec_lt k 16) [
        | yes h ↦ ap g (cell-cons_first z t ts k h) ∙ bfa1-true b t k (e₁ ∙ ap ok head) h lt small
        | no ge ↦
            let d = k - 16 in
            let whole : k ≡ 16 + d = omega arith in
            ap (λ n. g (cell z (t ∷ ts) n)) whole
            ∙ ap g (cell-cons_rest z t ts d)
            ∙ bfa_l-true (b + 16) ts d
                (sym (
                    ap (λ r. r >>= (λ b'. bfa_l tested (pos m) b' ts))
                      (z_add_pos b 16 (omega arith)))
                  ∙ rest)
                (omega arith) (omega arith) (omega arith) small
      ]
