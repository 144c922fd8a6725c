-- ===== src/Oracle/Fast/Pairs.antt =====
-- The declared pairs in F_scanI of coq/goextract/oracle/oracle_gen.go: their places, F_rpairOf, and the
-- loop over them, F_commI.
use normalization_confluence.Common.{
  ℕ, ◌*◌, ◌/◌, ◌%◌, ◌^◌, ◌<◌, ◌≡◌, refl, ap, ◌∙◌, List, [], ◌∷◌, map, arith, true, All, In, inl,
  inr,
}
use normalization_confluence.Common.Int.{ℤ, pos, pos_part}
use normalization_confluence.Common.Run.{ok, returned, tested_true}
use normalization_confluence.Oracle.Prims.{nat_sub, z_mul}
use normalization_confluence.Oracle.Prims.Exact.{nat_sub_pos}
use normalization_confluence.Oracle.Trie.{hi16}
use normalization_confluence.Oracle.Trie.Contents.{z_mul_16}
use normalization_confluence.Oracle.Blocks.{Blk, map_t}
use normalization_confluence.Oracle.Blocks.Windows.{hi16_pos}
use normalization_confluence.Oracle.Packed.Pairs.{IsPair, map_t-pairs}
use normalization_confluence.Oracle.Fast.{Cell, Rpair, rpair_of, pair_ok_i, comm_i}

-- The places of a pair.
abbrev pub rpair_at : ℕ → ℕ → Rpair
rpair_at a b = record { qa = pos (a / 16); da = pos (a % 16); qb = pos (b / 16); db = pos (b % 16) }

abbrev pub rpair_nat : ℤ × ℤ → Rpair
rpair_nat q = rpair_at (pos_part q.0) (pos_part q.1)

rpair_of_lem : (a b : ℕ) → a < 2 ^ 31 → b < 2 ^ 31 → rpair_of (pos a, pos b) ≡ ok (rpair_at a b)
unfolding rpair_of
rpair_of_lem a b la lb =
    let ha : hi16 (pos a) ≡ pos (a / 16) = hi16_pos a (omega arith) in
    let hb : hi16 (pos b) ≡ pos (b / 16) = hi16_pos b (omega arith) in
    let start_a : z_mul (pos 16) (pos (a / 16)) ≡ ok (pos (16 * (a / 16))) =
      z_mul_16 (a / 16) (omega arith) in
    let start_b : z_mul (pos 16) (pos (b / 16)) ≡ ok (pos (16 * (b / 16))) =
      z_mul_16 (b / 16) (omega arith) in
    let digit_a : nat_sub (pos a) (pos (16 * (a / 16))) ≡ pos (a % 16) =
      nat_sub_pos a (16 * (a / 16)) (omega arith) ∙ ap pos (omega arith) in
    let digit_b : nat_sub (pos b) (pos (16 * (b / 16))) ≡ pos (b % 16) =
      nat_sub_pos b (16 * (b / 16)) (omega arith) ∙ ap pos (omega arith) in
    rw (ha, hb, start_a, start_b, digit_a, digit_b) refl

pub map_t-rpair_nat :
    (n_e : ℕ) (ps : List (ℤ × ℤ))
    → n_e < 2 ^ 31
    → All (IsPair n_e) ps
    → map_t rpair_of ps ≡ ok (map rpair_nat ps)
map_t-rpair_nat n_e ps few h = map_t-pairs rpair_of rpair_nat n_e ps rpair_of_lem few h

-- Where F_commI returns `true`, each pair commutes.
pub comm_i-true :
    (z : Cell) (ls : List (Blk Cell)) (ps : List (ℤ × ℤ)) (q : ℤ × ℤ)
    → comm_i z ls (map rpair_nat ps) ≡ ok true
    → In q ps
    → pair_ok_i z ls (rpair_nat q) ≡ ok true
unfolding comm_i
comm_i-true z ls [] q e none = elim none [ ]
comm_i-true z ls (x ∷ ps) q e m =
    let (b, e₁, f₁) = returned (pair_ok_i z ls (rpair_nat x)) e in
    let (head, rest) = tested_true b (comm_i z ls (map rpair_nat ps)) f₁ in
    elim m [
      | inl same ↦ ap (λ q. pair_ok_i z ls (rpair_nat q)) same ∙ e₁ ∙ ap ok head
      | inr m' ↦ comm_i-true z ls ps q rest m'
    ]
