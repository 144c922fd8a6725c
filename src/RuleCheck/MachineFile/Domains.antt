-- ===== src/RuleCheck/MachineFile/Domains.antt =====
-- The domains that `buildMachine` of coq/goextract/cmd/rulecheck/main.go accepts, against F_fuelOf of
-- coq/goextract/oracle/oracle_gen.go, which multiplies them again.
use native.Mathlib.Nat.{mul-le-mul}
pub use normalization_confluence.Oracle.Rules.Compact.States.{IsDomain}
use normalization_confluence.Common.{
  ℕ, ◌*◌, ◌≤◌, ◌<◌, ◌^◌, ◌≡◌, refl, false, arith, List, [], ◌∷◌, All,
}
use normalization_confluence.Common.Int.{ℤ, pos, negsuc, ltb_ℤ, ◌*ℤ◌, wrap64, wrap64_id}
use normalization_confluence.Common.Run.{ok}
use normalization_confluence.Common.Result.{Ensures, Ensures-if, Ensures-map}
use normalization_confluence.Oracle.Prims.{z_mul}
use normalization_confluence.Oracle.Prims.Product.{product_pp, z_mul_pos}
use normalization_confluence.Oracle.Lists.{fold_left}
use normalization_confluence.RuleCheck.Building.Keeps.{IsNat31}
use normalization_confluence.RuleCheck.MachineFile.{each_domain, count_states}

pub each_domain-All :
    (ds : List ℤ) → All IsNat31 ds → Ensures (λ _. All IsDomain ds) (each_domain ds)
unfolding each_domain
each_domain-All [] h = tt
each_domain-All (d ∷ ds) ((k, q, le), h) =
    Ensures-if _ (ltb_ℤ d (pos 1)) _ _ (λ _. tt)
      λ e.
        Ensures-map _ _ (each_domain ds) (each_domain-All ds h)
          λ _ t. ((k, q, one_le d k q e, le), t)
  where
    one_le : (d : ℤ) (k : ℕ) → d ≡ pos k → ltb_ℤ d (pos 1) ≡ false → 1 ≤ k
    one_le (pos n) k q e = ground arith
    one_le (negsuc n) k q e = ground arith

-- A product of a number of states and a domain is far from the end of int64.
states-mul : (s k : ℕ) → s ≤ 16777216 → k ≤ 2147483647 → s * k < 2 ^ 63
states-mul s k hs hk = let le : s * k ≤ 16777216 * 2147483647 = mul-le-mul hs hk in omega arith

z_mul-small : (s k : ℕ) → s ≤ 16777216 → k ≤ 2147483647 → z_mul (pos s) (pos k) ≡ ok (pos (s * k))
z_mul-small s k hs hk =
    let lt = states-mul s k hs hk in z_mul_pos s k (omega arith) (omega arith) lt

wrap64-small : (s k : ℕ) → s ≤ 16777216 → k ≤ 2147483647 → wrap64 (pos s *ℤ pos k) ≡ pos (s * k)
wrap64-small s k hs hk =
    rw (product_pp s k (s * k) refl) (wrap64_id (pos (s * k)) (states-mul s k hs hk))

-- The product of the domains fits, if the loop accepts them.
pub count_states-fold_left :
    (s : ℕ) (ds : List ℤ)
    → s ≤ 16777216
    → All IsDomain ds
    → Ensures
        (λ _. (k : ℕ) × (fold_left z_mul ds (pos s) ≡ ok (pos k)) × (k ≤ 16777216))
        (count_states (pos s) ds)
unfolding count_states fold_left
count_states-fold_left s [] le h = (s, refl, le)
count_states-fold_left s (d ∷ ds) le ((k, q, _, lk), h) =
    rw (q, wrap64-small s k le lk)
      (Ensures-if _ (ltb_ℤ (pos 16777216) (pos (s * k))) _ _ (λ _. tt)
        λ e.
          Ensures-map _ _ (count_states (pos (s * k)) ds)
            (count_states-fold_left (s * k) ds (ground arith) h)
            λ _ r. (r.0, rw (z_mul-small s k le lk) r.1, r.2))
