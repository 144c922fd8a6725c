-- ===== src/Oracle/Rules/Compact/FirstPass.antt =====
-- The first pass of F_checkBuildC in coq/goextract/oracle/oracle_gen.go, F_p1 over F_foldB, and the
-- check of F_checkBuild, F_wfc, whose place it takes.
use mathlib.Core.Path.{subst}
use normalization_confluence.Common.{
  ℕ, zero, suc, ◌<◌, ◌≡◌, refl, sym, ap, ◌∙◌, List, [], ◌∷◌, map, Bool, true, false, Option, inl,
  inr, All, In, All-map, arith,
}
use native.Mathlib.Decide.{ℕ_discrete}
use normalization_confluence.Common.Int.{ℤ, pos, negsuc, ◌≤ℤ◌, ◌<ℤ◌}
use normalization_confluence.Common.Run.{
  Run, ok, ◌>>=◌, returned, ok_inj, and_run-true, tested_true,
}
use normalization_confluence.Oracle.Loops.{forallb}
use normalization_confluence.Oracle.Lists.Members.{In-append}
use normalization_confluence.Oracle.Rules.{Machine, State}
use normalization_confluence.Oracle.Rules.Box.Range.{InRange, box-InRange}
use normalization_confluence.Oracle.Rules.Step.{all_valid, normalize, fuel_of}
use normalization_confluence.Oracle.Rules.Build.{bounded, sign_safe, settles, wfc}
use normalization_confluence.Oracle.Rules.Compact.{
  enc, p1, check_passes, check_build_c, check_tables, fold_b,
}
use normalization_confluence.Oracle.Rules.Compact.States.{IsDomain, rows, states, visit}
use normalization_confluence.Oracle.Rules.Compact.Visits.{fold_b-visit}

In-map : {A B : Type 0} (f : A → B) (x : A) (l : List A) → In x l → In (f x) (map f l)
In-map f x [] none = elim none [ ]
In-map f x (a ∷ l) (inl e) = inl (ap f e)
In-map f x (a ∷ l) (inr m) = inr (In-map f x l m)

-- A state in range is one of the states.
rows-In : (k i : ℕ) (w : State) (ws : List State) → i < k → In w ws → In (pos i ∷ w) (rows k ws)
rows-In zero i w ws lt m = absurd (omega arith)
rows-In (suc k) i w ws lt m =
    let (_, put) = In-append (pos i ∷ w) (rows k ws) (map (λ w. pos k ∷ w) ws) in
    elim (ℕ_discrete i k) [
      | yes e ↦ put (
          inr (
            subst (λ j. In (pos j ∷ w) (map (λ w. pos k ∷ w) ws)) (sym e)
              (In-map (λ w. pos k ∷ w) w ws m)))
      | no ne ↦ put (inl (rows-In k i w ws (omega arith) m))
    ]

InRange-states : (ds : List ℤ) (v : State) → All IsDomain ds → InRange ds v → In v (states ds)
InRange-states [] [] h r = inl refl
InRange-states [] (x ∷ v) h r = elim r [ ]
InRange-states (d ∷ ds) [] h r = elim r [ ]
InRange-states (d ∷ ds) (negsuc i ∷ v) h r = absurd (omega arith)
InRange-states (d ∷ ds) (pos i ∷ v) ((k, q, _, _), h) (r, rest) =
    let r' : pos i <ℤ pos k = subst (λ e. pos i <ℤ e) q r.1 in
    rw q (rows-In k i v (states ds) (omega arith) (InRange-states ds v h rest))

module _ (m : Machine) (f : ℤ) where
  -- Repair reaches a valid state.
  abbrev Repairs : State → Type 0
  Repairs v = (normalize m f v >>= all_valid m) ≡ ok true

  -- Repair reaches a valid state, whose number is `n`.
  abbrev pub RepairsTo : State → ℤ → Type 0
  RepairsTo v n =
      (w : State) × (normalize m f v ≡ ok w) × (all_valid m w ≡ ok true) × (enc m.doms w ≡ ok n)

  pub p1-RepairsTo :
      (v : State) (st : Bool × List ℤ) (l : List ℤ)
      → p1 m f v st ≡ ok (true, l)
      → (st.0 ≡ true) × ((n : ℤ) × (l ≡ n ∷ st.1) × RepairsTo v n)
  unfolding p1
  p1-RepairsTo v (false, l') l e = absurd (cc)
  p1-RepairsTo v (true, l') l e =
      let (w, e₁, f₁) = returned (normalize m f v) e in
      let (t, e₂, f₂) = returned (all_valid m w) f₁ in
      let (i, e₃, f₃) = returned (enc m.doms w) f₂ in
      let last : t ≡ true = ap (λ r. r.0) (ok_inj f₃) in
      (refl, (i, sym (ap (λ r. r.1) (ok_inj f₃)), (w, e₁, e₂ ∙ ap ok last, e₃)))

  visit-Repairs :
      (vs : List State) (st : Bool × List ℤ) (l : List ℤ)
      → visit (p1 m f) vs st ≡ ok (true, l)
      → (v : State) → In v vs
      → Repairs v
  visit-Repairs [] st l e v none = elim none [ ]
  visit-Repairs (x ∷ vs) st l e v i =
      let (st', e₁, f₁) = returned (visit (p1 m f) vs st) e in
      let (kept, (n, _, (w, repaired, valid, _))) = p1-RepairsTo x st' l f₁ in
      let head : Repairs x = ap (λ r. r >>= all_valid m) repaired ∙ valid in
      elim i [
        | inl q ↦ subst Repairs (sym q) head
        | inr j ↦ visit-Repairs vs st st'.1 (e₁ ∙ ap (λ b. ok (b, st'.1)) kept) v j
      ]

pub forallb-In :
    {A : Type 0} (f : A → Run Bool) (l : List A)
    → ((a : A) → In a l → f a ≡ ok true)
    → forallb f l ≡ ok true
unfolding forallb
forallb-In f [] h = refl
forallb-In f (a ∷ l) h = rw (h a (inl refl)) (forallb-In f l (λ x i. h x (inr i)))

pub IsDomain-nonneg : (d : ℤ) → IsDomain d → pos 0 ≤ℤ d
IsDomain-nonneg d (k, q, _, _) = rw q (omega arith)

-- Every state in range is tested by F_wfc.
wfc-Repairs :
    (m : Machine) (f : ℤ)
    → All IsDomain m.doms
    → fuel_of m ≡ ok f
    → ((v : State) → InRange m.doms v → Repairs m f v)
    → wfc m ≡ ok true
unfolding wfc settles
wfc-Repairs m f h e r =
    let (vs, listed, iff) = box-InRange m.doms (All-map m.doms IsDomain-nonneg h) in
    rw listed (
      forallb-In (settles m) vs
        (λ v i. ap (λ x. x >>= (λ g. normalize m g v >>= all_valid m)) e ∙ r v ((iff v).0 i)))

-- If the first pass returns `true`, then F_wfc does.
pub fold_b-wfc :
    (m : Machine) (f : ℤ) (l : List ℤ)
    → All IsDomain m.doms
    → fuel_of m ≡ ok f
    → fold_b m.doms (p1 m f) (true, []) ≡ ok (true, l)
    → wfc m ≡ ok true
fold_b-wfc m f l h e passes =
    let visited : visit (p1 m f) (states m.doms) (true, []) ≡ ok (true, l) =
      sym (fold_b-visit m.doms (p1 m f) (true, []) h) ∙ passes in
    wfc-Repairs m f h e (λ v r.
      visit-Repairs m f (states m.doms) (true, []) l visited v (InRange-states m.doms v h r))

-- If F_checkBuildC returns `true` on domains that hold 1 to 2147483647 values, then F_bounded,
-- F_signSafe and F_wfc return `true`.
pub check_build_c-wfc :
    (m : Machine) (p : Option (List (ℤ × ℤ)))
    → check_build_c m p ≡ ok true
    → All IsDomain m.doms
    → (bounded m ≡ ok true) × (sign_safe m ≡ ok true) × (wfc m ≡ ok true)
unfolding check_build_c check_passes
check_build_c-wfc m p e h =
    let (safe, e₁, f₁) = returned _ e in
    let (tested, passes) = tested_true safe (check_passes m p) f₁ in
    let (within, signs) = and_run-true (bounded m) (sign_safe m) (e₁ ∙ ap ok tested) in
    let (f, e₂, f₂) = returned (fuel_of m) passes in
    let (r, e₃, f₃) = returned (fold_b m.doms (p1 m f) (true, [])) f₂ in
    let (all_repaired, _) = tested_true r.0 (check_tables m p r.1) f₃ in
    (within, signs, fold_b-wfc m f r.1 h e₂ (e₃ ∙ ap (λ b. ok (b, r.1)) all_repaired))
