-- ===== src/Common/Relations.antt =====
-- Event sequences up to reordering of neighbours that a relation declares independent.
use mathlib.Core.Path.{subst}
use mathlib.Core.List.{List, ◌∷◌, Permᴰ}
use normalization_confluence.Common.Lists.{All}

-- `Reorders I xs ys`: `ys` arises from `xs` by swaps of adjacent elements that `I` relates.
pub data Reorders {ℓ} {A : Type ℓ} (I : A → A → Type ℓ) : List A → List A → Type ℓ where
  same : {xs : List A} → Reorders I xs xs
  swap : {a b : A} {xs : List A} → I a b → Reorders I (a ∷ b ∷ xs) (b ∷ a ∷ xs)
  skip : {x : A} {xs ys : List A} → Reorders I xs ys → Reorders I (x ∷ xs) (x ∷ ys)
  chain : {xs ys zs : List A} → Reorders I xs ys → Reorders I ys zs → Reorders I xs zs

pub Reorders-All :
    {A : Type 0} {I : A → A → Type 0} {xs ys : List A} (P : A → Type 0)
    → Reorders I xs ys
    → All P xs
    → All P ys
Reorders-All P same a = a
Reorders-All P (swap i) a = (a.1.0, (a.0, a.1.1))
Reorders-All P (skip r) a = (a.0, Reorders-All P r a.1)
Reorders-All P (chain r r') a = Reorders-All P r' (Reorders-All P r a)

-- A permutation is a reordering, where any two elements are independent.
pub Permᴰ-Reorders :
    {A : Type 0} {I : A → A → Type 0} {xs ys : List A} (P : A → Type 0)
    → ((a b : A) → P a → P b → I a b)
    → Permᴰ xs ys
    → All P xs
    → Reorders I xs ys
Permᴰ-Reorders P f Permᴰ.nil a = same
Permᴰ-Reorders {I = I} P f (Permᴰ.cons {a = x} {l₁ = us} {l₂ = vs} e d) a =
    subst (λ y. Reorders I (x ∷ us) (y ∷ vs)) e (skip (Permᴰ-Reorders P f d a.1))
Permᴰ-Reorders {I = I} P f (Permᴰ.swap {a = x} {b = y} {b' = v} {l = us} e e') a =
    subst (λ u. Reorders I (x ∷ y ∷ us) (u ∷ v ∷ us)) e'
      (subst (λ u. Reorders I (x ∷ y ∷ us) (y ∷ u ∷ us)) e (swap (f x y a.0 a.1.0)))
Permᴰ-Reorders P f (Permᴰ.trans d d') a =
    let r = Permᴰ-Reorders P f d a in chain r (Permᴰ-Reorders P f d' (Reorders-All P r a))
