-- ===== src/RuleCheck/Building/Keeps.antt =====
-- Postconditions of the readers that use the global variables of
-- coq/goextract/cmd/rulecheck/main.go, and the numbers that these readers return.
use normalization_confluence.Common.{
  ℕ, ◌≤◌, ◌<◌, ◌≡◌, refl, Bool, true, false, ◌||◌, if◌then◌else◌, ltb, arith,
}
use normalization_confluence.Common.Int.{ℤ, pos, negsuc, ltb_ℤ}
use normalization_confluence.Common.Text.{Bytes}
use normalization_confluence.Oracle.Prims.Within.{abs}
use normalization_confluence.Common.Result.{
  read, fail_input, Ensures, Ensures->>=, Ensures-any, fail_if, fail_if-Ensures,
}
use normalization_confluence.RuleCheck.Failures.{Parsed}
use normalization_confluence.RuleCheck.Numbers.{decimal, parse_int, exceeds, int_of, nat_of}
use normalization_confluence.RuleCheck.Building.{
  Globals, Building, after, ◌>>=◌, lift, value_of, var_within, var_index,
}

-- A reader that starts with `v` variables ends with `v` variables, on a result with `P`.
abbrev pub Keeps {ℓ} : {A : Type 0} → ℤ → (A → Type ℓ) → Building A → Type ℓ
Keeps v P m = (g : Globals) → g.nvars ≡ v → Ensures (λ r. P r.0 × (r.1.nvars ≡ v)) (m g)

-- A postcondition of a reader that is followed by another.
pub after-Ensures {ℓ κ} :
    {A B : Type 0} (P : A → Globals → Type ℓ) (Q : B × Globals → Type κ) (r : Parsed (A × Globals))
    (f : A → Building B)
    → Ensures (λ r. P r.0 r.1) r
    → ((a : A) (g : Globals) → P a g → Ensures Q (f a g))
    → Ensures Q (after r f)
after-Ensures P Q (read (a, g)) f h k = k a g h
after-Ensures P Q (fail_input e) f h k = tt

module _ {A B : Type 0} {v : ℤ} where
  pub Keeps->>= :
      (P : A → Type 0) (Q : B → Type 0) (m : Building A) (f : A → Building B)
      → Keeps v P m
      → ((a : A) → P a → Keeps v Q (f a))
      → Keeps v Q (m >>= f)
  Keeps->>= P Q m f h k g e =
      after-Ensures (λ a g. P a × (g.nvars ≡ v)) _ (m g) f (h g e) λ a g' q. k a q.0 g' q.1

module _ {A : Type 0} {v : ℤ} (P : A → Type 0) where
  pub Keeps-if :
      (c : Bool) (m k : Building A)
      → (c ≡ true → Keeps v P m)
      → (c ≡ false → Keeps v P k)
      → Keeps v P (if c then m else k)
  Keeps-if true m k h h' = h refl
  Keeps-if false m k h h' = h' refl

  pub Keeps-lift : (m : Parsed A) → Ensures P m → Keeps v P (lift m)
  Keeps-lift (read a) h g e = (h, e)
  Keeps-lift (fail_input _) h g e = tt

-- The number of variables; 0 before the domains are read.
abbrev pub limit : ℤ → ℕ
limit (pos n) = n
limit (negsuc _) = 0

abbrev pub IsSmall : ℤ → Type 0
IsSmall v = abs v ≤ 2147483647

-- A natural number below `n`.
abbrev pub IsBelow : ℕ → ℤ → Type 0
IsBelow n i = (k : ℕ) × (i ≡ pos k) × (k < n)

exceeds-IsSmall : (v : ℤ) → exceeds v ≡ false → IsSmall v
exceeds-IsSmall (pos n) h = ground arith
exceeds-IsSmall (negsuc n) h = ground arith

int_of-IsSmall : (s : Bytes) → Ensures IsSmall (int_of s)
unfolding int_of
int_of-IsSmall s = Ensures->>= _ IsSmall (decimal s 10) _ (Ensures-any _) λ _ _.
    Ensures->>= _ IsSmall (fail_if (exceeds (parse_int s)) _) _ (fail_if-Ensures _ _)
      λ _ h. exceeds-IsSmall (parse_int s) h

-- A number that a domain, a pair count or an event may be.
abbrev pub IsNat31 : ℤ → Type 0
IsNat31 v = (k : ℕ) × (v ≡ pos k) × (k ≤ 2147483647)

IsSmall-IsNat31 : (v : ℤ) → IsSmall v → ltb_ℤ v (pos 0) ≡ false → IsNat31 v
IsSmall-IsNat31 (pos n) h e = (n, refl, h)
IsSmall-IsNat31 (negsuc n) h e = absurd (ground arith)

pub nat_of-IsNat31 : (s : Bytes) → Ensures IsNat31 (nat_of s)
unfolding nat_of
nat_of-IsNat31 s = Ensures->>= IsSmall IsNat31 (int_of s) _ (int_of-IsSmall s) λ v small.
    Ensures->>= _ IsNat31 (fail_if (ltb_ℤ v (pos 0)) _) _ (fail_if-Ensures _ _)
      λ _ h. IsSmall-IsNat31 v small h

or-false : (a b : Bool) → (a || b) ≡ false → b ≡ false
or-false true b e = absurd (cc)
or-false false b e = e

pub value_of-IsSmall : (v : ℤ) (s : Bytes) → Keeps v IsSmall (value_of s)
unfolding value_of
value_of-IsSmall v s =
    Keeps->>= (λ _. Unit) IsSmall (lift (decimal s 19)) _
      (Keeps-lift (λ _. Unit) (decimal s 19) (Ensures-any _))
      λ d _.
        Keeps-if IsSmall (ltb 10 d || exceeds (parse_int s)) _ _ (λ h g e. (omega arith, e))
          λ h g e. (exceeds-IsSmall (parse_int s) (or-false (ltb 10 d) _ h), e)

var_within-IsBelow : (v n i : ℤ) → IsNat31 i → n ≡ v → Keeps v (IsBelow (limit v)) (var_within n i)
unfolding var_within
var_within-IsBelow v n i (k, q, h) e g e' = ground arith

pub var_index-IsBelow : (v : ℤ) (s : Bytes) → Keeps v (IsBelow (limit v)) (var_index s)
unfolding var_index
var_index-IsBelow v s =
    Keeps->>= IsNat31 (IsBelow (limit v)) (lift (nat_of s)) _
      (Keeps-lift IsNat31 (nat_of s) (nat_of-IsNat31 s))
      λ i h g e. var_within-IsBelow v g.nvars i h e g e

-- A reader that keeps the number of variables, followed by one that may change it.
pub Keeps-then :
    {A B : Type 0} (v : ℤ) (P : A → Type 0) (Q : B × Globals → Type 0) (m : Building A)
    (f : A → Building B)
    → Keeps v P m
    → ((a : A) (g : Globals) → P a → g.nvars ≡ v → Ensures Q (f a g))
    → (g : Globals) → g.nvars ≡ v
    → Ensures Q ((m >>= f) g)
Keeps-then v P Q m f h k g e =
    after-Ensures (λ a g'. P a × (g'.nvars ≡ v)) Q (m g) f (h g e) λ a g' q. k a g' q.0 q.1
