-- ===== src/RuleCheck/MachineFile/Loop.antt =====
-- The loop of `buildMachine` of coq/goextract/cmd/rulecheck/main.go over the forms of a file.
use normalization_confluence.Common.{
  ℕ, ◌≤◌, ◌≡◌, refl, sym, Bool, true, false, List, [], ◌∷◌, ◌++◌, All, length, arith,
}
use mathlib.Core.Path.{subst}
use normalization_confluence.Common.Int.{ℤ, pos, negsuc}
use normalization_confluence.Common.Run.{ok}
use normalization_confluence.Common.Result.{Ensures, Ensures-any, fail_if, fail_if-Ensures}
use normalization_confluence.Oracle.Prims.{z_mul}
use normalization_confluence.Oracle.Lists.{fold_left}
use normalization_confluence.Oracle.Rules.{Guarded}
use normalization_confluence.RuleCheck.Failures.{doms_twice, mins_twice}
use normalization_confluence.RuleCheck.Sexp.{Sexp, Forms}
use normalization_confluence.RuleCheck.Numbers.{nat_of}
use normalization_confluence.RuleCheck.Building.{Globals, lift, value_of}
use normalization_confluence.RuleCheck.Building.Keeps.{
  Keeps, Keeps-lift, Keeps-then, limit, IsSmall, IsNat31, nat_of-IsNat31, value_of-IsSmall,
}
use normalization_confluence.RuleCheck.Build.{build_pred, build_transform, ints}
use normalization_confluence.RuleCheck.Build.Keeps.{IsPred, IsTransform, IsGuarded, Keeps-both}
use normalization_confluence.RuleCheck.Build.Rules.{
  build_pred-IsPred, build_transform-IsTransform, ints-All,
}
use normalization_confluence.RuleCheck.MachineFile.{
  Draft, each_domain, count_states, read_doms, read_mins, build_guarded,
}
use normalization_confluence.RuleCheck.MachineFile.Domains.{
  IsDomain, each_domain-All, count_states-fold_left,
}
use normalization_confluence.RuleCheck.MachineFile.Accepts.{IsGuarded-zero}

-- The number of states of a box with these domains.
abbrev pub HasFewStates : List ℤ → Type 0
HasFewStates ds = (k : ℕ) × (fold_left z_mul ds (pos 1) ≡ ok (pos k)) × (k ≤ 16777216)

-- The domains are not read yet, or they are read and there is a variable for each.
abbrev pub IsDomains : Bool → List ℤ → ℤ → Type 0
IsDomains false ds v = v ≡ negsuc 0
IsDomains true ds v = (v ≡ pos (length ds)) × All IsDomain ds × HasFewStates ds

-- What the loop of `buildMachine` keeps of its local variables, with `v` variables.
pub record IsGood (dr : Draft) (v : ℤ) : Type 0 where
  pub read_domains : IsDomains dr.have_doms dr.doms v
  pub read_minima : All IsSmall dr.mins
  pub read_invs : All (IsGuarded (limit v)) dr.invs
  pub read_evs : All (IsGuarded (limit v)) dr.evs

no_domains : (b : Bool) (ds : List ℤ) (v : ℤ) → IsDomains b ds v → b ≡ false → limit v ≡ 0
no_domains false ds v h e = rw h refl
no_domains true ds v h e = absurd (cc)

module _ (dr : Draft) (args : Forms) (g : Globals) (h : IsGood dr g.nvars) where
  rules-IsGuarded :
      (ds : List ℤ) (gs : List Guarded)
      → dr.have_doms ≡ false
      → All (IsGuarded (limit g.nvars)) gs
      → All (IsGuarded (length ds)) gs
  rules-IsGuarded ds gs first q = IsGuarded-zero (length ds) gs (
      subst (λ k. All (IsGuarded k) gs)
        (no_domains dr.have_doms dr.doms g.nvars h.read_domains first) q)

  with_doms :
      (ds : List ℤ)
      → All IsDomain ds
      → HasFewStates ds
      → dr.have_doms ≡ false
      → IsGood (record dr { doms = ds; have_doms = true }) (pos (length ds))
  with_doms ds sizes few first = record {
    read_domains = (refl, sizes, few);
    read_minima = h.read_minima;
    read_invs = rules-IsGuarded ds dr.invs first h.read_invs;
    read_evs = rules-IsGuarded ds dr.evs first h.read_evs;
  }

  pub read_doms-IsGood : Ensures (λ r. IsGood r.0 r.1.nvars) (read_doms dr args g)
  unfolding read_doms
  read_doms-IsGood =
      Keeps-then g.nvars (All IsNat31) _ (ints (λ s. lift (nat_of s)) args) _
        (ints-All g.nvars IsNat31 (λ s. lift (nat_of s)) args
          λ s. Keeps-lift IsNat31 (nat_of s) (nat_of-IsNat31 s))
        (λ ds g₁ nats e₁.
          Keeps-then g.nvars (λ _. All IsDomain ds) _ (lift (each_domain ds)) _
            (Keeps-lift (λ _. All IsDomain ds) (each_domain ds) (each_domain-All ds nats))
            (λ _ g₂ sizes e₂.
              Keeps-then g.nvars (λ _. HasFewStates ds) _ (lift (count_states (pos 1) ds)) _
                (Keeps-lift (λ _. HasFewStates ds) (count_states (pos 1) ds)
                  (count_states-fold_left 1 ds (omega arith) sizes))
                (λ _ g₃ few e₃.
                  Keeps-then g.nvars (λ _. dr.have_doms ≡ false) _
                    (lift (fail_if dr.have_doms doms_twice)) _
                    (Keeps-lift (λ _. dr.have_doms ≡ false) (fail_if dr.have_doms doms_twice)
                      (fail_if-Ensures _ _))
                    (λ _ g₄ first e₄. with_doms ds sizes few first) g₃ e₃)
                g₂ e₂)
            g₁ e₁)
        g refl

  pub read_mins-IsGood : Ensures (λ r. IsGood r.0 r.1.nvars) (read_mins dr args g)
  unfolding read_mins
  read_mins-IsGood =
      Keeps-then g.nvars (All IsSmall) _ (ints value_of args) _
        (ints-All g.nvars IsSmall value_of args (value_of-IsSmall g.nvars))
        (λ ms g₁ small e₁.
          Keeps-then g.nvars (λ _. Unit) _ (lift (fail_if dr.have_mins mins_twice)) _
            (Keeps-lift (λ _. Unit) (fail_if dr.have_mins mins_twice) (Ensures-any _))
            (λ _ g₂ _ e₂. subst (IsGood _) (sym e₂) (record {
              read_domains = h.read_domains;
              read_minima = small;
              read_invs = h.read_invs;
              read_evs = h.read_evs;
            }))
            g₁ e₁)
        g refl

pub build_guarded-IsGuarded :
    (v : ℤ) (p t : Sexp) → Keeps v (IsGuarded (limit v)) (build_guarded p t)
unfolding build_guarded
build_guarded-IsGuarded v p t =
    Keeps-both v (IsPred (limit v)) (IsTransform (limit v)) (IsGuarded (limit v)) (build_pred p)
      (build_transform t) (λ c a. (c, a)) (build_pred-IsPred v p) (build_transform-IsTransform v t)
      λ _ _ q q'. (q, q')

All-snoc :
    {A : Type 0} (P : A → Type 0) (xs : List A) (x : A) → All P xs → P x → All P (xs ++ x ∷ [])
All-snoc P [] x h p = (p, tt)
All-snoc P (y ∷ xs) x h p = (h.0, All-snoc P xs x h.1 p)

module _ (dr : Draft) (g : Globals) (h : IsGood dr g.nvars) where
  pub new_event :
      (ev : Guarded) (v : ℤ)
      → IsGuarded (limit g.nvars) ev
      → v ≡ g.nvars
      → IsGood (record dr { evs = dr.evs ++ ev ∷ [] }) v
  new_event ev v q e = subst (IsGood _) (sym e) (record {
    read_domains = h.read_domains;
    read_minima = h.read_minima;
    read_invs = h.read_invs;
    read_evs = All-snoc _ dr.evs ev h.read_evs q;
  })

  pub new_inv :
      (inv : Guarded) (v : ℤ)
      → IsGuarded (limit g.nvars) inv
      → v ≡ g.nvars
      → IsGood (record dr { invs = dr.invs ++ inv ∷ [] }) v
  new_inv inv v q e = subst (IsGood _) (sym e) (record {
    read_domains = h.read_domains;
    read_minima = h.read_minima;
    read_invs = All-snoc _ dr.invs inv h.read_invs q;
    read_evs = h.read_evs;
  })
