-- ===== src/RuleCheck/Guarantee.antt =====
-- The exits of command rulecheck (coq/goextract/cmd/rulecheck/main.go), compared with the machine in
-- the file.
use mathlib.Core.Path.{subst}
use normalization_confluence.Common.{
  ◌≡◌, refl, ◌∙◌, ap, Bool, true, false, Option, List, if◌then◌else◌,
}
use normalization_confluence.Common.Int.{ℤ}
use normalization_confluence.Common.Run.{Run, ok, panic, returned, ok_inj}
use normalization_confluence.Oracle.Rules.{Machine}
use normalization_confluence.Oracle.Rules.Build.{bounded, sign_safe, wfc, compensation_free}
use normalization_confluence.Oracle.Rules.Compact.{check_build_c}
use normalization_confluence.RuleCheck.Exits.{Verdict, no_wfc, not_convergent, Outcome, decided}
use normalization_confluence.RuleCheck.Judge.{
  judge_checked, judge_safe, judge_bounded, judge, outcome_of, report, Says,
}

module _ (m : Machine) (p : Option (List (ℤ × ℤ))) where
  wfc-Says :
      (w : Bool)
      → check_build_c m p ≡ ok false
      → wfc m ≡ ok w
      → Says m p (if w then not_convergent else no_wfc)
  wfc-Says true d e = (d, e)
  wfc-Says false d e = e

  judge_checked-Says :
      (c : Bool) {v : Verdict} → check_build_c m p ≡ ok c → judge_checked m p c ≡ ok v → Says m p v
  unfolding judge_checked
  judge_checked-Says true {v} d e = subst (Says m p) (ok_inj e) (d, refl)
  judge_checked-Says false {v} d e =
      let (w, e₁, e₂) = returned (wfc m) e in subst (Says m p) (ok_inj e₂) (wfc-Says w d e₁)

  judge_safe-Says :
      (s : Bool) {v : Verdict}
      → bounded m ≡ ok true
      → sign_safe m ≡ ok s
      → judge_safe m p s ≡ ok v
      → Says m p v
  unfolding judge_safe
  judge_safe-Says false {v} b q e = subst (Says m p) (ok_inj e) (b, q)
  judge_safe-Says true {v} b q e =
      let (c, e₁, e₂) = returned (check_build_c m p) e in judge_checked-Says c e₁ e₂

  judge_bounded-Says :
      (b : Bool) {v : Verdict} → bounded m ≡ ok b → judge_bounded m p b ≡ ok v → Says m p v
  unfolding judge_bounded
  judge_bounded-Says false {v} q e = subst (Says m p) (ok_inj e) q
  judge_bounded-Says true {v} q e =
      let (s, e₁, e₂) = returned (sign_safe m) e in judge_safe-Says s q e₁ e₂

  judge-Says : {v : Verdict} → judge m p ≡ ok v → Says m p v
  unfolding judge
  judge-Says {v} e = let (b, e₁, e₂) = returned (bounded m) e in judge_bounded-Says b e₁ e₂

  decided_inj :
      (r : Run Outcome) {free : Bool} {v : Verdict}
      → outcome_of r ≡ decided free v
      → r ≡ ok (decided free v)
  decided_inj (ok o) e = ap ok e
  decided_inj (panic q) e = absurd (cc)

  -- Each line of the report is true of the machine: the value after compensation_free=, and the
  -- verdict.
  pub report-Says :
      {free : Bool} {v : Verdict}
      → report m p ≡ decided free v
      → (compensation_free m ≡ ok free) × Says m p v
  unfolding report
  report-Says {free} {v} e =
      let (free', e₁, e₂) = returned (compensation_free m) (decided_inj _ e) in
      let (v', e₃, e₄) = returned (judge m p) e₂ in
      let e₅ = ok_inj e₄ in
      (e₁ ∙ ap ok (same_free e₅), subst (Says m p) (same_verdict e₅) (judge-Says e₃))
    where
      same_free : {a b : Bool} {v w : Verdict} → decided a v ≡ decided b w → a ≡ b
      same_free e = cc

      same_verdict : {a b : Bool} {v w : Verdict} → decided a v ≡ decided b w → v ≡ w
      same_verdict e = cc
