-- ===== src/Oracle/Loops/Total.antt =====
-- What F_allK returns within the range of int64, and F_forallb.
use normalization_confluence.Common.{
  ℕ, zero, suc, ◌+◌, ◌^◌, ◌≤◌, ◌<◌, refl, Bool, true, false, List, [], ◌∷◌, arith, All, inl, inr,
  In, ◌≡◌, sym, ap, ◌∙◌,
}
use mathlib.Core.Path.{subst}
use native.Mathlib.Decide.{ℕ_discrete}
use normalization_confluence.Common.Int.{ℤ, pos}
use normalization_confluence.Common.Run.{Run, ok, ◌>>=◌, returned, tested_true}
use normalization_confluence.Common.Decides.{Decides}
use normalization_confluence.Oracle.Prims.Exact.{nat_succ_pos}
use normalization_confluence.Oracle.Prims.{nat_succ}
use normalization_confluence.Oracle.Loops.{all_k, forallb}

-- Every element of a range is its first one or in the rest.
range_cons {ℓ} :
    (P : ℕ → Type ℓ) (i k : ℕ)
    → P i
    → ((j : ℕ) → i + 1 ≤ j → j < i + 1 + k → P j)
    → (j : ℕ) → i ≤ j
    → j < i + suc k
    → P j
range_cons P i k first rest j p q = elim (ℕ_discrete i j) [
  | yes e ↦ subst P e first
  | no ne ↦ rest j (omega arith) (omega arith)
]

all_k-Decides_step {ℓ} :
    (P : ℕ → Type ℓ) (f : ℤ → Run Bool) (k i : ℕ)
    → i + suc k < 2 ^ 63
    → Decides (f (pos i)) (P i)
    → Decides (all_k f (pos (i + 1)) (pos k)) ((j : ℕ) → i + 1 ≤ j → j < i + 1 + k → P j)
    → Decides (all_k f (pos i) (pos (suc k))) ((j : ℕ) → i ≤ j → j < i + suc k → P j)
unfolding all_k
all_k-Decides_step P f k i h (true, e, t) (b, e', t') = (
  b,
  rw e (rw (nat_succ_pos i (omega arith)) e'),
  (
    (λ r. range_cons P i k (t.0 refl) (t'.0 r)),
    λ r. t'.1 (λ j p q. r j (omega arith) (omega arith)),
  ),
)
all_k-Decides_step P f k i h (false, e, t) _ =
    (false, rw e refl, ((λ r. cc), λ r. t.1 (r i (omega arith) (omega arith))))

-- `F_allK` over a range of int64 decides whether every number of the range satisfies `P`, where
-- the callback decides `P`.
pub all_k-Decides {ℓ} :
    (P : ℕ → Type ℓ) (f : ℤ → Run Bool) (k i : ℕ)
    → i + k < 2 ^ 63
    → ((j : ℕ) → i ≤ j → j < i + k → Decides (f (pos j)) (P j))
    → Decides (all_k f (pos i) (pos k)) ((j : ℕ) → i ≤ j → j < i + k → P j)
unfolding all_k
all_k-Decides P f zero i h d = (true, refl, ((λ _ j p q. absurd (omega arith)), λ _. refl))
all_k-Decides P f (suc k) i h d =
    all_k-Decides_step P f k i h (d i (omega arith) (omega arith))
      (all_k-Decides P f k (i + 1) (omega arith) λ j p q. d j (omega arith) (omega arith))

pub forallb-Decides {ℓ} :
    {A : Type ℓ} (P : A → Type ℓ) (f : A → Run Bool) (l : List A)
    → ((a : A) → Decides (f a) (P a))
    → Decides (forallb f l) (All P l)
unfolding forallb
forallb-Decides P f [] d = (true, refl, ((λ _. tt), λ _. refl))
forallb-Decides P f (a ∷ l) d = step (d a) (forallb-Decides P f l d)
  where
    step :
        Decides (f a) (P a)
        → Decides (forallb f l) (All P l)
        → Decides (forallb f (a ∷ l)) (All P (a ∷ l))
    step (true, e, t) (b, e', t') = (b, rw e e', ((λ r. (t.0 refl, t'.0 r)), λ r. t'.1 r.1))
    step (false, e, t) _ = (false, rw e refl, ((λ r. cc), λ r. t.1 r.0))

-- Where `F_forallb` returns `true`, the test returns `true` on every member.
pub forallb-true :
    {A : Type 0} (f : A → Run Bool) {a : A} (l : List A)
    → forallb f l ≡ ok true
    → In a l
    → f a ≡ ok true
unfolding forallb
forallb-true f [] e m = elim m [ ]
forallb-true {A} f {a} (x ∷ l) e m = at_head (returned (f x) e) m (forallb-true f l)
  where
    at_head :
        (t : Bool) × (f x ≡ ok t) × (elim t [ false ↦ ok false | true ↦ forallb f l ] ≡ ok true)
        → In a (x ∷ l)
        → (forallb f l ≡ ok true → In a l → f a ≡ ok true)
        → f a ≡ ok true
    at_head (true, e', r) (inl q) rest = rw q e'
    at_head (true, e', r) (inr m') rest = rest r m'
    at_head (false, e', r) _ _ = absurd (cc)

-- Where `F_forallb` returns `false`, the test returns `false` on a member.
pub forallb-false :
    {A : Type 0} (f : A → Run Bool) (l : List A)
    → forallb f l ≡ ok false
    → (a : A) × In a l × (f a ≡ ok false)
unfolding forallb
forallb-false f [] e = absurd (cc)
forallb-false {A} f (x ∷ l) e = at_head (returned (f x) e) (forallb-false f l)
  where
    at_head :
        (t : Bool) × (f x ≡ ok t) × (elim t [ false ↦ ok false | true ↦ forallb f l ] ≡ ok false)
        → (forallb f l ≡ ok false → (a : A) × In a l × (f a ≡ ok false))
        → (a : A) × In a (x ∷ l) × (f a ≡ ok false)
    at_head (false, e', _) rest = (x, inl refl, e')
    at_head (true, _, r) rest = let (a, m, e') = rest r in (a, inr m, e')

-- Where `F_allK` returns `true`, the callback returns `true` on every number of the range.
pub all_k-true :
    (f : ℤ → Run Bool) (k i : ℕ)
    → i + k < 2 ^ 63
    → all_k f (pos i) (pos k) ≡ ok true
    → (j : ℕ) → i ≤ j
    → j < i + k
    → f (pos j) ≡ ok true
unfolding all_k
all_k-true f zero i small e j le lt = absurd (omega arith)
all_k-true f (suc k) i small e j le lt =
    let (t, e₁, f₁) = returned (f (pos i)) e in
    let (first, rest) = tested_true t (nat_succ (pos i) >>= (λ i'. all_k f i' (pos k))) f₁ in
    let next : all_k f (pos (i + 1)) (pos k) ≡ ok true =
      ap (λ m. m >>= (λ i'. all_k f i' (pos k))) (sym (nat_succ_pos i (omega arith))) ∙ rest in
    range_cons (λ j. f (pos j) ≡ ok true) i k (e₁ ∙ ap ok first)
      (λ j p q. all_k-true f k (i + 1) (omega arith) next j p q) j le lt
