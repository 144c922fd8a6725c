-- ===== src/Common/Run.antt =====
-- What a call of the generated Go does: it returns, or it stops the run by a panic.
use mathlib.Core.Path.{◌≡◌, refl}
use mathlib.Core.Bool.{Bool, true, false}
use normalization_confluence.Common.Tests.{if◌then◌else◌}

-- The panics of the generated code, by their message.
pub data Panic : Type 0 where
  overflow_add overflow_sub overflow_mul overflow_opp : Panic
  not_a_nat not_a_positive no_case_matches : Panic

pub data Run {ℓ} (A : Type ℓ) : Type ℓ where
  panic : Panic → Run A
  ok : A → Run A

-- What follows a call: it runs only if the call returns.
infixl 5 ◌>>=◌
abbrev pub ◌>>=◌ {ℓ κ} : {A : Type ℓ} {B : Type κ} → Run A → (A → Run B) → Run B
panic p >>= rest = panic p
ok a >>= rest = rest a

-- `m && k`: the right operand runs only if the left one returns `true`.
abbrev pub and_run : Run Bool → Run Bool → Run Bool
and_run m k = m >>= λ b. if b then k else ok false

pub >>=_assoc {ℓ κ μ} :
    {A : Type ℓ} {B : Type κ} {C : Type μ} (m : Run A) (f : A → Run B) (g : B → Run C)
    → (m >>= f >>= g) ≡ (m >>= λ a. f a >>= g)
>>=_assoc (ok a) f g = refl
>>=_assoc (panic p) f g = refl

pub >>=-ok {ℓ} : {A : Type ℓ} (m : Run A) → (m >>= ok) ≡ m
>>=-ok (ok a) = refl
>>=-ok (panic p) = refl

pub ok_inj {ℓ} : {A : Type ℓ} {a b : A} → ok a ≡ ok b → a ≡ b
ok_inj e = cc

-- If a call and its sequel returned, then the call returned a value and the sequel ran on it.
pub returned {ℓ κ} :
    {A : Type ℓ} {B : Type κ} {f : A → Run B} {b : B} (m : Run A)
    → (m >>= f) ≡ ok b
    → (a : A) × (m ≡ ok a) × (f a ≡ ok b)
returned (ok a) e = (a, refl, e)
returned (panic p) e = absurd (cc)

pub and_run-true : (m k : Run Bool) → and_run m k ≡ ok true → (m ≡ ok true) × (k ≡ ok true)
and_run-true (ok true) k e = (refl, e)
and_run-true (ok false) k e = absurd (cc)
and_run-true (panic p) k e = absurd (cc)

-- A sequel of a test that returned `true`: the test did, and so did the sequel.
pub tested_true :
    (b : Bool) (r : Run Bool)
    → elim b [ true ↦ r | false ↦ ok false ] ≡ ok true
    → (b ≡ true) × (r ≡ ok true)
tested_true true r e = (refl, e)
tested_true false r e = absurd (cc)
