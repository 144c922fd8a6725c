-- ===== src/RuleCheck/Verdicts.antt =====
-- The lines that command rulecheck (coq/goextract/cmd/rulecheck/main.go) prints of a machine, compared
-- with the states and the expressions of the machine.
use mathlib.Core.Path.{subst}
use normalization_confluence.Common.{
  ◌≡◌, refl, sym, arith, ◌∙◌, ap, Bool, true, false, Option, List, All, In, ◌↔◌, if◌then◌else◌,
  length,
}
use normalization_confluence.Common.Int.{ℤ, pos, leb_ℤ, ◌<ℤ◌, ◌≤ℤ◌}
use normalization_confluence.Common.Run.{Run, ok, ◌>>=◌, returned, ok_inj}
use normalization_confluence.Oracle.Loops.{forallb}
use normalization_confluence.Oracle.Loops.Total.{forallb-false}
use normalization_confluence.Oracle.Rules.{Expr, Assign, Transform, Machine, State}
use normalization_confluence.Oracle.Rules.Box.{box}
use normalization_confluence.Oracle.Rules.Box.Range.{InRange, box-InRange}
use normalization_confluence.Oracle.Rules.Step.{all_valid, normalize, fuel_of}
use normalization_confluence.Oracle.Rules.Build.{
  max_abs, bnd, exprs_m, within_max, bounded, lo, binary_var, write_safe, sign_safe_t, transforms_m,
  sign_safe, settles, wfc, compensation_free, check_build,
}
use normalization_confluence.Oracle.Rules.Build.Sound.{box_tested}
use normalization_confluence.Oracle.Rules.Compact.FirstPass.{forallb-In}
use normalization_confluence.RuleCheck.Exits.{
  Verdict, unbounded, sign_unsafe, no_wfc, not_convergent, verified,
}
use normalization_confluence.RuleCheck.Judge.{count_pairs}

-- Repair from `w`, with the fuel that the oracle computes, ends in a state that is valid or not.
abbrev pub EndsRepair : Machine → State → Bool → Type 0
EndsRepair m w b =
    (f : ℤ) × (s : State) × (fuel_of m ≡ ok f) × (normalize m f w ≡ ok s) × (all_valid m s ≡ ok b)

-- An assignment of a rule that gives a variable with the values 0 and 1 an expression whose lower bound
-- is negative.
abbrev pub MayWriteNegative : Machine → Type 0
MayWriteNegative m =
    (t : Transform) × (a : Assign) × (low : ℤ) × In t (transforms_m m)
    × In a t
    × (binary_var m a.0 ≡ ok true)
    × (lo m a.1 ≡ ok low)
    × (low <ℤ pos 0)

-- What the last line says of the machine.
abbrev pub Means : Machine → Option (List (ℤ × ℤ)) → Verdict → Type 0
Means m p (verified nv ni ne k) =
    (check_build m p ≡ ok true)
    × (nv ≡ length m.doms)
    × (ni ≡ length m.invs)
    × (ne ≡ length m.evs)
    × (k ≡ count_pairs p)
Means m p not_convergent = (w : State) → InRange m.doms w → EndsRepair m w true
Means m p no_wfc = (w : State) × InRange m.doms w × EndsRepair m w false
Means m p sign_unsafe = MayWriteNegative m
Means m p unbounded = (e : Expr) × (b : ℤ) × In e (exprs_m m) × (bnd m e ≡ ok b) × (max_abs <ℤ b)

not_leb : (a b : ℤ) → leb_ℤ a b ≡ false → b <ℤ a
not_leb a b e = ground arith

settles-EndsRepair : (m : Machine) (w : State) (b : Bool) → settles m w ≡ ok b → EndsRepair m w b
unfolding settles
settles-EndsRepair m w b e =
    let (f, e₁, f₁) = returned (fuel_of m) e in
    let (s, e₂, f₂) = returned (normalize m f w) f₁ in (f, s, e₁, e₂, f₂)

-- A test that fails on a box fails on a state in range.
box_refuted :
    (ds : List ℤ) (f : State → Run Bool)
    → All (λ d. pos 0 ≤ℤ d) ds
    → (box ds >>= λ vs. forallb f vs) ≡ ok false
    → (w : State) × InRange ds w × (f w ≡ ok false)
box_refuted ds f sizes e =
    let (vs, listed, members) = box-InRange ds sizes in
    let (vs', e₁, f₁) = returned (box ds) e in
    let (w, m, refuted) = forallb-false f vs' f₁ in
    (w, (members w).0 (subst (In w) (ok_inj (sym e₁ ∙ listed)) m), refuted)

pub wfc-Means :
    (m : Machine) (p : Option (List (ℤ × ℤ))) → wfc m ≡ ok true → Means m p not_convergent
unfolding wfc
wfc-Means m p e w r = settles-EndsRepair m w true (box_tested m.doms (settles m) e w r)

pub no_wfc-Means :
    (m : Machine) (p : Option (List (ℤ × ℤ)))
    → All (λ d. pos 0 ≤ℤ d) m.doms
    → wfc m ≡ ok false
    → Means m p no_wfc
unfolding wfc
no_wfc-Means m p sizes e =
    let (w, r, refuted) = box_refuted m.doms (settles m) sizes e in
    (w, r, settles-EndsRepair m w false refuted)

pub unbounded-Means :
    (m : Machine) (p : Option (List (ℤ × ℤ))) → bounded m ≡ ok false → Means m p unbounded
unfolding bounded
unbounded-Means m p e =
    let (x, i, refuted) = forallb-false (within_max m) (exprs_m m) e in
    let (b, e₁, f₁) = returned (bnd m x) refuted in (x, b, i, e₁, not_leb b max_abs (ok_inj f₁))

write_safe-false :
    (m : Machine) (a : Assign)
    → write_safe m a ≡ ok false
    → (low : ℤ) × (binary_var m a.0 ≡ ok true) × (lo m a.1 ≡ ok low) × (low <ℤ pos 0)
unfolding write_safe
write_safe-false m a e =
    let (b, e₁, f₁) = returned (binary_var m a.0) e in
    let (low, e₂, f₂) = returned (lo m a.1) f₁ in
    let (is_binary, negative) = both b low (ok_inj f₂) in
    (low, e₁ ∙ ap ok is_binary, e₂, not_leb (pos 0) low negative)
  where
    both :
        (b : Bool) (low : ℤ)
        → (if b then leb_ℤ (pos 0) low else true) ≡ false
        → (b ≡ true) × (leb_ℤ (pos 0) low ≡ false)
    both true low e = (refl, e)
    both false low e = absurd (cc)

pub sign_unsafe-Means :
    (m : Machine) (p : Option (List (ℤ × ℤ))) → sign_safe m ≡ ok false → Means m p sign_unsafe
unfolding sign_safe sign_safe_t
sign_unsafe-Means m p e =
    let (t, i, refuted) = forallb-false (sign_safe_t m) (transforms_m m) e in
    let (a, j, refuted') = forallb-false (write_safe m) t refuted in
    let (low, is_binary, bound, negative) = write_safe-false m a refuted' in
    (t, a, low, i, j, is_binary, bound, negative)

-- The line compensation_free=… is true exactly of a machine whose states in range are all valid.
pub compensation_free_iff :
    (m : Machine) (free : Bool)
    → All (λ d. pos 0 ≤ℤ d) m.doms
    → compensation_free m ≡ ok free
    → (free ≡ true) ↔ ((w : State) → InRange m.doms w → all_valid m w ≡ ok true)
unfolding compensation_free
compensation_free_iff m free sizes e =
    let (vs, listed, members) = box-InRange m.doms sizes in
    (
      λ same. box_tested m.doms (all_valid m) (e ∙ ap ok same),
      λ valid.
          ok_inj
            (sym e ∙ rw listed (forallb-In (all_valid m) vs (λ w i. valid w ((members w).0 i)))),
    )
