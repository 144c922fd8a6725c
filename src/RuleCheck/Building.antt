-- ===== src/RuleCheck/Building.antt =====
-- The global variables of coq/goextract/cmd/rulecheck/main.go that the readers of a machine use,
-- nvars and outOfFragment, passed from call to call, with valueOf and varIndex.
pub mod Keeps
use normalization_confluence.Common.{ℕ, Bool, true, false, ◌||◌, if◌then◌else◌, ltb}
use normalization_confluence.Common.Int.{ℤ, pos, ltb_ℤ, leb_ℤ}
use normalization_confluence.Common.Text.{Bytes}
use normalization_confluence.Common.Result.{Result, read, fail_input}
use normalization_confluence.RuleCheck.Failures.{Failure, Parsed, doms_late, past_variables}
use normalization_confluence.RuleCheck.Numbers.{decimal, parse_int, exceeds, nat_of}

-- The number of variables is -1 until the domains are read.
pub record Globals : Type 0 where
  pub nvars : ℤ
  pub out_of_fragment : Bool

abbrev pub Building {ℓ} : Type ℓ → Type ℓ
Building A = Globals → Parsed (A × Globals)

-- What follows a reader, on its result and the globals that it left.
abbrev pub after {ℓ κ} :
    {A : Type ℓ} {B : Type κ} → Parsed (A × Globals) → (A → Building B) → Parsed (B × Globals)
after (read r) f = f r.0 r.1
after (fail_input e) f = fail_input e

infixl 5 ◌>>=◌ ◌>>◌
abbrev pub ◌>>=◌ {ℓ κ} : {A : Type ℓ} {B : Type κ} → Building A → (A → Building B) → Building B
m >>= f = λ g. after (m g) f

abbrev pub ◌>>◌ {ℓ} : {B : Type ℓ} → Building (Unit {0}) → Building B → Building B
m >> k = m >>= λ _. k

abbrev pub done {ℓ} : {A : Type ℓ} → A → Building A
done a g = read (a, g)

abbrev pub stop {ℓ} : {A : Type ℓ} → Failure → Building A
stop e g = fail_input e

-- A reader that uses no global variable.
abbrev pub lift {ℓ} : {A : Type ℓ} → Parsed A → Building A
lift (read a) g = read (a, g)
lift (fail_input e) g = fail_input e

abbrev pub leave_fragment : Building (Unit {0})
leave_fragment g = read (tt, record { nvars = g.nvars; out_of_fragment = true })

abbrev pub set_nvars : ℤ → Building (Unit {0})
set_nvars k g = read (tt, record { nvars = k; out_of_fragment = g.out_of_fragment })

unfoldable pub value_of : Bytes → Building ℤ
value_of s = do
  d ← lift (decimal s 19)
  if ltb 10 d || exceeds (parse_int s)
      then (do leave_fragment; done (pos 0))
      else done (parse_int s)

-- The guards of `varIndex`, where there are `n` variables.
unfoldable pub var_within : ℤ → ℤ → Building ℤ
var_within n i =
    if ltb_ℤ n (pos 0)
    then stop doms_late
    else if leb_ℤ n i
    then stop (past_variables i n)
    else done i

unfoldable pub var_index : Bytes → Building ℤ
var_index s = do i ← lift (nat_of s); λ g. var_within g.nvars i g
