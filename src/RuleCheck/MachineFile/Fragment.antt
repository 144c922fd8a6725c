-- ===== src/RuleCheck/MachineFile/Fragment.antt =====
-- The machine that `buildMachine` of coq/goextract/cmd/rulecheck/main.go returns.
use mathlib.Core.Path.{subst}
use normalization_confluence.Common.{
  ℕ, ◌≡◌, refl, Bool, true, false, not, if◌then◌else◌, arith, List, [], ◌∷◌, All, length, ◌==◌,
  ◌++◌,
}
use normalization_confluence.Common.Int.{ℤ}
use normalization_confluence.Common.Text.{Bytes, codes, eq_bytes}
use normalization_confluence.Common.Result.{Ensures, fail_if, fail_if-Ensures}
use normalization_confluence.Oracle.Rules.{Guarded}
use normalization_confluence.Oracle.Rules.Step.{no_event, fuel_of}
use normalization_confluence.RuleCheck.Failures.{missing_doms, wrong_mins}
use normalization_confluence.RuleCheck.Sexp.{Sexp, Forms, atom, list, nil, cons}
use normalization_confluence.RuleCheck.Building.{
  Globals, Building, ◌>>=◌, done, lift, leave_fragment,
}
use normalization_confluence.RuleCheck.Building.Keeps.{
  Keeps-lift, Keeps-if, Keeps-then, after-Ensures, limit, IsSmall,
}
use normalization_confluence.RuleCheck.Build.{build_transform}
use normalization_confluence.RuleCheck.Build.Keeps.{IsTransform, IsGuarded}
use normalization_confluence.RuleCheck.Build.Rules.{build_transform-IsTransform}
use normalization_confluence.RuleCheck.MachineFile.{
  Draft, build_guarded, build_rule, build_form, build_forms, zeros, some_exceeds, finish,
  empty_draft, no_globals, build_machine,
}
use normalization_confluence.RuleCheck.MachineFile.Accepts.{IsFragment}
use normalization_confluence.RuleCheck.MachineFile.Loop.{
  IsGood, IsDomains, read_doms-IsGood, read_mins-IsGood, build_guarded-IsGuarded, new_event,
  new_inv,
}

-- A postcondition of a choice between two readers.
choice-Ensures :
    {A : Type 0} (Q : A × Globals → Type 0) (c : Bool) (m k : Building A) (g : Globals)
    → Ensures Q (m g)
    → Ensures Q (k g)
    → Ensures Q ((if c then m else k) g)
choice-Ensures Q true m k g h h' = h
choice-Ensures Q false m k g h h' = h'

module _ (dr : Draft) (g : Globals) (good : IsGood dr g.nvars) where
  guarded-IsGood :
      (p t : Sexp) (f : Guarded → Draft)
      → ((x : Guarded) (v : ℤ) → IsGuarded (limit g.nvars) x → v ≡ g.nvars → IsGood (f x) v)
      → Ensures (λ r. IsGood r.0 r.1.nvars) ((do x ← build_guarded p t; done (f x)) g)
  guarded-IsGood p t f k =
      Keeps-then g.nvars (IsGuarded (limit g.nvars)) _ (build_guarded p t) _
        (build_guarded-IsGuarded g.nvars p t) (λ x g' q e. k x g'.nvars q e) g refl

  build_rule-IsGood :
      (h : Bytes) (l : Forms) → Ensures (λ r. IsGood r.0 r.1.nvars) (build_rule dr h l g)
  unfolding build_rule
  build_rule-IsGood h nil = tt
  build_rule-IsGood h (cons p (cons t (cons u us))) = tt
  build_rule-IsGood h (cons t nil) =
      choice-Ensures _ (eq_bytes h (codes "ev")) _ _ g
        (Keeps-then g.nvars (IsTransform (limit g.nvars)) _ (build_transform t) _
          (build_transform-IsTransform g.nvars t)
          (λ c g' q e. new_event dr g good (no_event.0, c) g'.nvars (tt, q) e) g refl)
        tt
  build_rule-IsGood h (cons p (cons t nil)) =
      choice-Ensures _ (eq_bytes h (codes "inv")) _ _ g
        (guarded-IsGood p t (λ x. record dr { invs = dr.invs ++ x ∷ [] }) (new_inv dr g good))
        (choice-Ensures _ (eq_bytes h (codes "evwhen")) _ _ g
          (guarded-IsGood p t (λ x. record dr { evs = dr.evs ++ x ∷ [] }) (new_event dr g good)) tt)

  build_form-IsGood : (x : Sexp) → Ensures (λ r. IsGood r.0 r.1.nvars) (build_form dr x g)
  unfolding build_form
  build_form-IsGood (atom a) = tt
  build_form-IsGood (list nil) = tt
  build_form-IsGood (list (cons (list l) xs)) = tt
  build_form-IsGood (list (cons (atom h) args)) =
      choice-Ensures _ (eq_bytes h (codes "doms")) _ _ g (read_doms-IsGood dr args g good) (
        choice-Ensures _ (eq_bytes h (codes "mins")) _ _ g (read_mins-IsGood dr args g good)
          (build_rule-IsGood h args))

build_forms-IsGood :
    (dr : Draft) (l : Forms) (g : Globals)
    → IsGood dr g.nvars
    → Ensures (λ r. IsGood r.0 r.1.nvars) (build_forms dr l g)
unfolding build_forms
build_forms-IsGood dr nil g good = good
build_forms-IsGood dr (cons x xs) g good =
    after-Ensures (λ dr' g'. IsGood dr' g'.nvars) _ (build_form dr x g) _
      (build_form-IsGood dr g good x) λ dr' g' good'. build_forms-IsGood dr' xs g' good'

zeros-All : (ds : List ℤ) → All IsSmall (zeros ds)
zeros-All [] = tt
zeros-All (d ∷ ds) = (omega arith, zeros-All ds)

chosen_mins :
    (b : Bool) (ms ds : List ℤ) → All IsSmall ms → All IsSmall (if b then ms else zeros ds)
chosen_mins true ms ds h = h
chosen_mins false ms ds h = zeros-All ds

same_length : (m n : ℕ) → not (m == n) ≡ false → m ≡ n
same_length m n h = ground arith

not-false : (b : Bool) → not b ≡ false → b ≡ true
not-false true h = refl
not-false false h = absurd (cc)

module _ (dr : Draft) (v : ℤ) (good : IsGood dr v) where
  finished :
      (ms : List ℤ)
      → dr.have_doms ≡ true
      → All IsSmall ms
      → length ms ≡ length dr.doms
      → IsFragment (record { doms = dr.doms; mins = ms; invs = dr.invs; evs = dr.evs })
  unfolding fuel_of
  finished ms have small one =
      let (e, sizes, few) : IsDomains true dr.doms v =
        subst (λ b. IsDomains b dr.doms v) have good.read_domains in
      record {
        domains = sizes;
        states = few;
        one_min_each = one;
        small_mins = small;
        good_invs = subst (λ x. All (IsGuarded (limit x)) dr.invs) e good.read_invs;
        good_evs = subst (λ x. All (IsGuarded (limit x)) dr.evs) e good.read_evs;
      }

finish-IsFragment :
    (dr : Draft) (g : Globals) → IsGood dr g.nvars → Ensures (λ r. IsFragment r.0) (finish dr g)
unfolding finish
finish-IsFragment dr g good =
    let ms = if dr.have_mins then dr.mins else zeros dr.doms in
    Keeps-then g.nvars (λ _. not dr.have_doms ≡ false) _
      (lift (fail_if (not dr.have_doms) missing_doms)) _
      (Keeps-lift (λ _. not dr.have_doms ≡ false) _
        (fail_if-Ensures (not dr.have_doms) missing_doms))
      (λ _ g₁ have e₁.
        Keeps-then g.nvars (λ _. not (length ms == length dr.doms) ≡ false) _
          (lift (fail_if (not (length ms == length dr.doms)) wrong_mins)) _
          (Keeps-lift (λ _. not (length ms == length dr.doms) ≡ false) _
            (fail_if-Ensures (not (length ms == length dr.doms)) wrong_mins))
          (λ _ g₂ one e₂.
            Keeps-then g.nvars (λ _. Unit) _
              (if some_exceeds dr.doms ms then leave_fragment else done tt) _
              (Keeps-if (λ _. Unit) (some_exceeds dr.doms ms) leave_fragment (done tt)
                (λ _ g' e. (tt, e)) λ _ g' e. (tt, e))
              (λ _ g₃ _ e₃.
                finished dr g.nvars good ms (not-false dr.have_doms have)
                  (chosen_mins dr.have_mins dr.mins dr.doms good.read_minima)
                  (same_length (length ms) (length dr.doms) one))
              g₂ e₂)
          g₁ e₁)
      g refl

-- What `buildMachine` returns is a machine of the model.
pub build_machine-IsFragment : (forms : Forms) → Ensures (λ r. IsFragment r.0) (build_machine forms)
unfolding build_machine
build_machine-IsFragment forms =
    after-Ensures (λ dr g. IsGood dr g.nvars) _ (build_forms empty_draft forms no_globals) _
      (build_forms-IsGood empty_draft forms no_globals
        (record { read_domains = refl; read_minima = tt; read_invs = tt; read_evs = tt }))
      finish-IsFragment
