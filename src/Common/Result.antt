-- ===== src/Common/Result.antt =====
-- Readers of input that may end the run with a message: the front ends' `failInput` and `failf`.
use mathlib.Core.Path.{subst}
use normalization_confluence.Common.{◌≡◌, refl, Bool, true, false, if◌then◌else◌}

pub data Result {ℓ} (E : Type 0) (A : Type ℓ) : Type ℓ where
  read : A → Result E A
  fail_input : E → Result E A

infixl 5 ◌>>=◌ ◌>>◌
abbrev pub ◌>>=◌ {ℓ κ} :
    {E : Type 0} {A : Type ℓ} {B : Type κ} → Result E A → (A → Result E B) → Result E B
read a >>= f = f a
fail_input e >>= f = fail_input e

abbrev pub ◌>>◌ {ℓ} : {E : Type 0} {B : Type ℓ} → Result E (Unit {0}) → Result E B → Result E B
m >> k = m >>= λ _. k

-- `if b { failInput(e) }`
unfoldable pub fail_if : {E : Type 0} → Bool → E → Result E (Unit {0})
fail_if true e = fail_input e
fail_if false e = read tt

-- A postcondition of a reader: it holds of the result, if the run goes on.
abbrev pub Ensures {ℓ κ} : {E : Type 0} {A : Type ℓ} → (A → Type κ) → Result E A → Type κ
Ensures P (read a) = P a
Ensures P (fail_input _) = Unit

pub Ensures->>= {ℓ κ μ ν} :
    {E : Type 0} {A : Type ℓ} {B : Type κ} (Q : A → Type μ) (P : B → Type ν) (m : Result E A)
    (f : A → Result E B)
    → Ensures Q m
    → ((a : A) → Q a → Ensures P (f a))
    → Ensures P (m >>= f)
Ensures->>= Q P (read a) f h k = k a h
Ensures->>= Q P (fail_input e) f h k = tt

pub fail_if-Ensures : {E : Type 0} (b : Bool) (e : E) → Ensures (λ _. b ≡ false) (fail_if b e)
unfolding fail_if
fail_if-Ensures true e = tt
fail_if-Ensures false e = refl

pub Ensures-any {ℓ} : {E : Type 0} {A : Type ℓ} (m : Result E A) → Ensures (λ _. Unit {0}) m
Ensures-any (read a) = tt
Ensures-any (fail_input e) = tt

-- What a postcondition says of a reader that did return.
pub Ensures-read {ℓ ν} :
    {E : Type 0} {B : Type ℓ} (P : B → Type ν) {m : Result E B} {b : B}
    → Ensures P m
    → m ≡ read b
    → P b
Ensures-read P h e = subst (Ensures P) e h

pub Ensures-if {ℓ ν} :
    {E : Type 0} {A : Type ℓ} (P : A → Type ν) (c : Bool) (m k : Result E A)
    → (c ≡ true → Ensures P m)
    → (c ≡ false → Ensures P k)
    → Ensures P (if c then m else k)
Ensures-if P true m k h h' = h refl
Ensures-if P false m k h h' = h' refl

pub Ensures-map {ℓ μ ν} :
    {E : Type 0} {A : Type ℓ} (P : A → Type μ) (Q : A → Type ν) (m : Result E A)
    → Ensures P m
    → ((a : A) → P a → Q a)
    → Ensures Q m
Ensures-map P Q (read a) h f = f a h
Ensures-map P Q (fail_input e) h f = tt
