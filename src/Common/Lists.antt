-- ===== src/Common/Lists.antt =====
-- Lists measured and indexed by native numbers, and predicates over their elements.
use Prim.Native.Nat.{ℕ, zero, suc, ◌+◌, ◌≤◌, ◌<◌}
use mathlib.Core.Path.{◌≡◌, refl, ap, ◌∙◌}
use mathlib.Core.Logic.{◌⊎◌, inl, inr}
use mathlib.Core.List.{List, [], ◌∷◌, ◌++◌, map}
use native.Mathlib.Omega.{arith}

module _ {ℓ} {A : Type ℓ} where
  abbrev pub length : List A → ℕ
  length [] = 0
  length (x ∷ xs) = suc (length xs)

  abbrev pub get_or : List A → ℕ → A → A
  get_or [] i d = d
  get_or (x ∷ xs) zero d = x
  get_or (x ∷ xs) (suc i) d = get_or xs i d

  abbrev pub drop : ℕ → List A → List A
  drop zero l = l
  drop (suc n) [] = []
  drop (suc n) (x ∷ l) = drop n l

  pub drop_past : (n : ℕ) (l : List A) → length l ≤ n → drop n l ≡ []
  drop_past zero [] h = refl
  drop_past zero (x ∷ l) h = absurd (omega arith)
  drop_past (suc n) [] h = refl
  drop_past (suc n) (x ∷ l) h = drop_past n l (omega arith)

  pub get_or-drop :
      (n : ℕ) (l : List A) (j : ℕ) (d : A) → get_or (drop n l) j d ≡ get_or l (n + j) d
  get_or-drop zero l j d = ap (λ i. get_or l i d) (omega arith)
  get_or-drop (suc n) [] j d = refl
  get_or-drop (suc n) (x ∷ l) j d =
      get_or-drop n l j d ∙ ap (λ i. get_or (x ∷ l) i d) (suc_plus n j)
    where
      suc_plus : (n j : ℕ) → suc (n + j) ≡ suc n + j
      suc_plus n j = omega arith

  pub length-append : (xs ys : List A) → length (xs ++ ys) ≡ length xs + length ys
  length-append [] ys = omega arith
  length-append (x ∷ xs) ys = omega (arith, length-append xs ys)

module _ {A : Type 0} (d : A) where
  pub get_or_past : (l : List A) (i : ℕ) → length l ≤ i → get_or l i d ≡ d
  get_or_past [] i h = refl
  get_or_past (x ∷ l) zero h = absurd (omega arith)
  get_or_past (x ∷ l) (suc i) h = get_or_past l i (omega arith)

  pub get_or-append_left :
      (l r : List A) (i : ℕ) → i < length l → get_or (l ++ r) i d ≡ get_or l i d
  get_or-append_left [] r i lt = absurd (omega arith)
  get_or-append_left (x ∷ l) r zero lt = refl
  get_or-append_left (x ∷ l) r (suc i) lt = get_or-append_left l r i (omega arith)

  pub get_or-append_right :
      (l r : List A) (i j : ℕ) → i ≡ length l + j → get_or (l ++ r) i d ≡ get_or r j d
  get_or-append_right [] r i j e = ap (λ n. get_or r n d) (omega arith)
  get_or-append_right (x ∷ l) r zero j e = absurd (omega arith)
  get_or-append_right (x ∷ l) r (suc i) j e = get_or-append_right l r i j (omega arith)

pub length-map : {A B : Type 0} (f : A → B) (l : List A) → length (map f l) ≡ length l
length-map f [] = refl
length-map f (x ∷ l) = ap suc (length-map f l)

pub get_or-map :
    {A B : Type 0} (f : A → B) (d : A) (d' : B) (l : List A) (i : ℕ)
    → i < length l
    → get_or (map f l) i d' ≡ f (get_or l i d)
get_or-map f d d' [] i lt = absurd (omega arith)
get_or-map f d d' (x ∷ l) zero lt = refl
get_or-map f d d' (x ∷ l) (suc i) lt = get_or-map f d d' l i (omega arith)

module _ {ℓ κ} {A : Type ℓ} (P : A → Type κ) where
  -- Every element satisfies `P`.
  abbrev pub All : List A → Type κ
  All [] = Unit
  All (x ∷ xs) = P x × All xs

-- `x` occurs in the list, with its place.
abbrev pub In : {A : Type 0} → A → List A → Type 0
In x [] = ⊥
In x (y ∷ ys) = (x ≡ y) ⊎ In x ys

pub All-map {ℓ κ} :
    {A : Type ℓ} {P Q : A → Type κ} (xs : List A) → ((x : A) → P x → Q x) → All P xs → All Q xs
All-map [] f a = tt
All-map (x ∷ xs) f a = (f x a.0, All-map xs f a.1)

-- g i, g (i + 1), …, `n` of them.
abbrev pub table : {A : Type 0} → (ℕ → A) → ℕ → ℕ → List A
table g i zero = []
table g i (suc n) = g i ∷ table g (suc i) n

pub get_or-table :
    {A : Type 0} (z : A) (g : ℕ → A) (n i c : ℕ) → c < n → get_or (table g i n) c z ≡ g (i + c)
get_or-table z g zero i c lt = absurd (omega arith)
get_or-table z g (suc n) i zero lt = ap g (omega arith)
get_or-table z g (suc n) i (suc c) lt =
    get_or-table z g n (suc i) c (omega arith) ∙ ap g (omega arith)

pub length-table : {A : Type 0} (g : ℕ → A) (i n : ℕ) → length (table g i n) ≡ n
length-table g i zero = refl
length-table g i (suc n) = ap suc (length-table g (suc i) n)

pub In-get_or : {A : Type 0} (d : A) (l : List A) (i : ℕ) → i < length l → In (get_or l i d) l
In-get_or d [] i lt = absurd (omega arith)
In-get_or d (x ∷ l) zero lt = inl refl
In-get_or d (x ∷ l) (suc i) lt = inr (In-get_or d l i (omega arith))
