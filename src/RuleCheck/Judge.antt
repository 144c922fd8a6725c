-- ===== src/RuleCheck/Judge.antt =====
-- The calls of the oracle in `main` of coq/goextract/cmd/rulecheck/main.go, and what they decide.
use normalization_confluence.Common.{
  ℕ, ◌≡◌, Bool, true, false, Option, none, some, List, if◌then◌else◌, length,
}
use normalization_confluence.Common.Int.{ℤ}
use normalization_confluence.Common.Run.{Run, ok, panic, ◌>>=◌}
use normalization_confluence.Oracle.Rules.{Machine}
use normalization_confluence.Oracle.Rules.Build.{bounded, sign_safe, wfc, compensation_free}
use normalization_confluence.Oracle.Rules.Compact.{check_build_c}
use normalization_confluence.RuleCheck.Exits.{
  Verdict, unbounded, sign_unsafe, no_wfc, not_convergent, verified, Outcome, decided, crash,
}

-- The number of declared pairs; `none` is "every pair".
abbrev pub count_pairs : Option (List (ℤ × ℤ)) → Option ℕ
count_pairs none = none
count_pairs (some l) = some (length l)

abbrev pub verified_of : Machine → Option (List (ℤ × ℤ)) → Verdict
verified_of m p = verified (length m.doms) (length m.invs) (length m.evs) (count_pairs p)

-- The lines after the answer of F_checkBuildC.
unfoldable pub judge_checked : Machine → Option (List (ℤ × ℤ)) → Bool → Run Verdict
judge_checked m p true = ok (verified_of m p)
judge_checked m p false = do w ← wfc m; ok (if w then not_convergent else no_wfc)

unfoldable pub judge_safe : Machine → Option (List (ℤ × ℤ)) → Bool → Run Verdict
unfolding judge_checked
judge_safe m p false = ok sign_unsafe
judge_safe m p true = do c ← check_build_c m p; judge_checked m p c

unfoldable pub judge_bounded : Machine → Option (List (ℤ × ℤ)) → Bool → Run Verdict
unfolding judge_safe
judge_bounded m p false = ok unbounded
judge_bounded m p true = do s ← sign_safe m; judge_safe m p s

-- From the test of boundedness to the end.
unfoldable pub judge : Machine → Option (List (ℤ × ℤ)) → Run Verdict
unfolding judge_bounded
judge m p = do b ← bounded m; judge_bounded m p b

abbrev pub outcome_of : Run Outcome → Outcome
outcome_of (ok o) = o
outcome_of (panic p) = crash p

-- The lines of `main` that the oracle decides.
unfoldable pub report : Machine → Option (List (ℤ × ℤ)) → Outcome
unfolding judge
report m p = outcome_of (do free ← compensation_free m; v ← judge m p; ok (decided free v))

-- What a verdict says of the machine.
abbrev pub Says : Machine → Option (List (ℤ × ℤ)) → Verdict → Type 0
Says m p (verified nv ni ne k) =
    (check_build_c m p ≡ ok true) × (verified nv ni ne k ≡ verified_of m p)
Says m p not_convergent = (check_build_c m p ≡ ok false) × (wfc m ≡ ok true)
Says m p no_wfc = wfc m ≡ ok false
Says m p sign_unsafe = (bounded m ≡ ok true) × (sign_safe m ≡ ok false)
Says m p unbounded = bounded m ≡ ok false
