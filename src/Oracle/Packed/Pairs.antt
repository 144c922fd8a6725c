-- ===== src/Oracle/Packed/Pairs.antt =====
-- The declared pairs in F_scanC of coq/goextract/oracle/oracle_gen.go: their places, F_cpairOf, and the
-- loop over them, F_commC.
use normalization_confluence.Common.{
  ℕ, zero, suc, ◌+◌, ◌*◌, ◌/◌, ◌%◌, ◌^◌, ◌<◌, ◌≡◌, refl, sym, ap, ◌∙◌, List, [], ◌∷◌, map, arith,
  length, get_or, table, true, All, In, inl, inr,
}
use normalization_confluence.Common.Int.{ℤ, pos, pos_part}
use normalization_confluence.Common.Run.{Run, ok, returned, tested_true}
use normalization_confluence.Oracle.Prims.{nat_succ, nat_sub, z_mul}
use normalization_confluence.Oracle.Prims.Exact.{nat_succ_pos, nat_sub_pos}
use normalization_confluence.Oracle.Trie.{hi16}
use normalization_confluence.Oracle.Trie.Contents.{z_mul_16}
use normalization_confluence.Oracle.Blocks.{Blk, map_t, split_j}
use normalization_confluence.Oracle.Blocks.Windows.{split_of, split_j_lem, hi16_pos}
use normalization_confluence.Oracle.Blocks.Loops.{map_t-table}
use normalization_confluence.Oracle.Packed.{Cpair, cpair_of, pair_ok_c, comm_c}

abbrev pub IsPair : ℕ → ℤ × ℤ → Type 0
IsPair n_e q = (a : ℕ) × (b : ℕ) × (q ≡ (pos a, pos b)) × (a < n_e) × (b < n_e)

-- The places of a pair.
abbrev pub cpair_at : ℕ → ℕ → Cpair
cpair_at a b = record {
  cqa = pos (a / 16);
  cda = pos (a % 16);
  cqb = pos (b / 16);
  cdb = pos (b % 16);
  csa = split_of (suc a);
  csb = split_of (suc b);
}

abbrev pub cpair_nat : ℤ × ℤ → Cpair
cpair_nat q = cpair_at (pos_part q.0) (pos_part q.1)

cpair_of_lem : (a b : ℕ) → a < 2 ^ 31 → b < 2 ^ 31 → cpair_of (pos a, pos b) ≡ ok (cpair_at a b)
unfolding cpair_of
cpair_of_lem a b la lb =
    let qa : hi16 (pos a) ≡ pos (a / 16) = hi16_pos a (omega arith) in
    let qb : hi16 (pos b) ≡ pos (b / 16) = hi16_pos b (omega arith) in
    let start_a : z_mul (pos 16) (pos (a / 16)) ≡ ok (pos (16 * (a / 16))) =
      z_mul_16 (a / 16) (omega arith) in
    let start_b : z_mul (pos 16) (pos (b / 16)) ≡ ok (pos (16 * (b / 16))) =
      z_mul_16 (b / 16) (omega arith) in
    let next_a : nat_succ (pos a) ≡ ok (pos (suc a)) =
      nat_succ_pos a (omega arith) ∙ ap (λ n. ok (pos n)) (omega arith) in
    let next_b : nat_succ (pos b) ≡ ok (pos (suc b)) =
      nat_succ_pos b (omega arith) ∙ ap (λ n. ok (pos n)) (omega arith) in
    let da : nat_sub (pos a) (pos (16 * (a / 16))) ≡ pos (a % 16) =
      nat_sub_pos a (16 * (a / 16)) (omega arith) ∙ ap pos (omega arith) in
    let db : nat_sub (pos b) (pos (16 * (b / 16))) ≡ pos (b % 16) =
      nat_sub_pos b (16 * (b / 16)) (omega arith) ∙ ap pos (omega arith) in
    let sa : split_j (pos (suc a)) ≡ ok (split_of (suc a)) = split_j_lem (suc a) (omega arith) in
    let sb : split_j (pos (suc b)) ≡ ok (split_of (suc b)) = split_j_lem (suc b) (omega arith) in
    rw (qa, qb, start_a, start_b, next_a, sa, next_b, sb, da, db) refl

table-map :
    {A B : Type 0} (d : A) (h : ℕ → B) (g : A → B) (l : List A) (i : ℕ)
    → ((j : ℕ) → j < length l → h (i + j) ≡ g (get_or l j d))
    → table h i (length l) ≡ map g l
table-map d h g [] i e = refl
table-map d h g (x ∷ l) i e =
    let first : h i ≡ g x = ap h (omega arith) ∙ e 0 (omega arith) in
    rw (first, table-map d h g l (suc i) (λ j lt. ap h (omega arith) ∙ e (suc j) (omega arith)))
      refl

All-get_or :
    {A : Type 0} (P : A → Type 0) (d : A) (l : List A) (j : ℕ)
    → All P l
    → j < length l
    → P (get_or l j d)
All-get_or P d [] j h lt = absurd (omega arith)
All-get_or P d (x ∷ l) zero h lt = h.0
All-get_or P d (x ∷ l) (suc j) h lt = All-get_or P d l j h.1 (omega arith)

-- A function of the pairs that returns on each.
pub map_t-pairs :
    {B : Type 0} (f : ℤ × ℤ → Run B) (g : ℤ × ℤ → B) (n_e : ℕ) (ps : List (ℤ × ℤ))
    → ((a b : ℕ) → a < 2 ^ 31 → b < 2 ^ 31 → f (pos a, pos b) ≡ ok (g (pos a, pos b)))
    → n_e < 2 ^ 31
    → All (IsPair n_e) ps
    → map_t f ps ≡ ok (map g ps)
map_t-pairs f g n_e ps at few h =
    map_t-table f (λ j. g (get_or ps j (pos 0, pos 0))) (pos 0, pos 0) ps
      (λ j lt.
        let (a, b, q, la, lb) = All-get_or (IsPair n_e) (pos 0, pos 0) ps j h lt in
        ap f q ∙ at a b (omega arith) (omega arith) ∙ ap (λ x. ok (g x)) (sym q))
    ∙ ap ok (
        table-map (pos 0, pos 0) (λ j. g (get_or ps j (pos 0, pos 0))) g ps 0
          (λ j lt. ap (λ n. g (get_or ps n (pos 0, pos 0))) (omega arith)))

pub map_t-cpair_nat :
    (n_e : ℕ) (ps : List (ℤ × ℤ))
    → n_e < 2 ^ 31
    → All (IsPair n_e) ps
    → map_t cpair_of ps ≡ ok (map cpair_nat ps)
map_t-cpair_nat n_e ps few h = map_t-pairs cpair_of cpair_nat n_e ps cpair_of_lem few h

-- Where F_commC returns `true`, each pair commutes.
pub comm_c-true :
    (ls : List (Blk (List (Blk ℤ)))) (ps : List (ℤ × ℤ)) (q : ℤ × ℤ)
    → comm_c [] ls (map cpair_nat ps) ≡ ok true
    → In q ps
    → pair_ok_c [] ls (cpair_nat q) ≡ ok true
unfolding comm_c
comm_c-true ls [] q e none = elim none [ ]
comm_c-true ls (x ∷ ps) q e m =
    let (b, e₁, f₁) = returned (pair_ok_c [] ls (cpair_nat x)) e in
    let (head, rest) = tested_true b (comm_c [] ls (map cpair_nat ps)) f₁ in
    elim m [
      | inl same ↦ ap (λ q. pair_ok_c [] ls (cpair_nat q)) same ∙ e₁ ∙ ap ok head
      | inr m' ↦ comm_c-true ls ps q rest m'
    ]
