-- ===== src/Oracle/Rules/Compact/Agrees.antt =====
-- The first pass of F_checkBuildC in coq/goextract/oracle/oracle_gen.go, compared with F_wfc.
use mathlib.Core.Path.{subst}
use normalization_confluence.Common.{
  ℕ, zero, suc, ◌^◌, ◌<◌, ◌≡◌, refl, sym, ◌∙◌, List, [], ◌∷◌, map, true, inl, inr, ◌↔◌, All,
  All-map, In, arith,
}
use normalization_confluence.Common.Int.{ℤ, pos, ◌<ℤ◌}
use normalization_confluence.Common.Run.{ok, ◌>>=◌, returned, ok_inj}
use normalization_confluence.Oracle.Lists.Members.{In-append}
use normalization_confluence.Oracle.Rules.{Machine, State}
use normalization_confluence.Oracle.Rules.Box.Range.{InRange}
use normalization_confluence.Oracle.Rules.Step.{all_valid, normalize, fuel_of}
use normalization_confluence.Oracle.Rules.Step.Keeps.{normalize-InRange}
use normalization_confluence.Oracle.Rules.Build.{settles, wfc}
use normalization_confluence.Oracle.Rules.Build.Sound.{box_tested}
use normalization_confluence.Oracle.Rules.Compact.{p1, fold_b}
use normalization_confluence.Oracle.Rules.Compact.States.{
  IsDomain, IsDomain-I64, rows, size_of, states, visit,
}
use normalization_confluence.Oracle.Rules.Compact.Visits.{count, fold_b-visit}
use normalization_confluence.Oracle.Rules.Compact.FirstPass.{RepairsTo, fold_b-wfc}
use normalization_confluence.Oracle.Rules.Compact.Numbering.{enc-states}

map-In :
    {A B : Type 0} (f : A → B) (y : B) (l : List A) → In y (map f l) → (x : A) × (y ≡ f x) × In x l
map-In f y [] m = elim m [ ]
map-In f y (a ∷ l) (inl e) = (a, e, inl refl)
map-In f y (a ∷ l) (inr m) = let (x, e, i) = map-In f y l m in (x, e, inr i)

In-rows :
    (k : ℕ) (ws : List State) (v : State)
    → In v (rows k ws)
    → (i : ℕ) × (w : State) × (v ≡ pos i ∷ w) × (i < k) × In w ws
In-rows zero ws v m = elim m [ ]
In-rows (suc k) ws v m = elim ((In-append v (rows k ws) (map (λ w. pos k ∷ w) ws)).0 m) [
  | inl j ↦ let (i, w, e, lt, n) = In-rows k ws v j in (i, w, e, omega arith, n)
  | inr j ↦ let (w, e, n) = map-In (λ w. pos k ∷ w) v ws j in (k, w, e, omega arith, n)
]

-- The states are in range.
pub states-InRange : (ds : List ℤ) (v : State) → All IsDomain ds → In v (states ds) → InRange ds v
states-InRange [] v h (inl e) = subst (InRange []) (sym e) tt
states-InRange [] v h (inr none) = elim none [ ]
states-InRange (d ∷ ds) v ((k, q, _, _), h) m =
    let (i, w, e, lt, n) =
      In-rows k (states ds) v (subst (λ e. In v (rows (size_of e) (states ds))) q m) in
    let below : pos i <ℤ d = rw q (omega arith) in
    subst (InRange (d ∷ ds)) (sym e) ((omega arith, below), states-InRange ds w h n)

module _ (m : Machine) (f : ℤ) where
  visit-RepairsTo :
      (vs : List State)
      → ((v : State) → In v vs → (n : ℤ) × RepairsTo m f v n)
      → (l : List ℤ) × (visit (p1 m f) vs (true, []) ≡ ok (true, l))
  unfolding p1
  visit-RepairsTo [] h = ([], refl)
  visit-RepairsTo (x ∷ vs) h =
      let (l, e) = visit-RepairsTo vs (λ v i. h v (inr i)) in
      let (n, (w, e₁, e₂, e₃)) = h x (inl refl) in (n ∷ l, rw (e, e₁, e₂, e₃) refl)

  -- On domains that hold 1 to 2147483647 values and fewer than 2 ^ 63 states, with the fuel that
  -- F_fuelOf returns, F_wfc returns `true` exactly when the first pass returns `true`.
  pub wfc-fold_b :
      All IsDomain m.doms
      → count m.doms < 2 ^ 63
      → fuel_of m ≡ ok f
      → (wfc m ≡ ok true) ↔ ((l : List ℤ) × (fold_b m.doms (p1 m f) (true, []) ≡ ok (true, l)))
  unfolding wfc settles
  wfc-fold_b h few e = (to, λ r. fold_b-wfc m f r.0 h e r.1)
    where
      repairs : wfc m ≡ ok true → (v : State) → InRange m.doms v → (n : ℤ) × RepairsTo m f v n
      repairs w v r =
          let t = box_tested m.doms (settles m) w v r in
          let (g, e₁, f₁) = returned (fuel_of m) t in
          let same : g ≡ f = ok_inj (sym e₁ ∙ e) in
          let run : (normalize m f v >>= all_valid m) ≡ ok true =
            subst (λ g. (normalize m g v >>= all_valid m) ≡ ok true) same f₁ in
          let (s, e₂, f₂) = returned (normalize m f v) run in
          let kept = normalize-InRange m (All-map m.doms IsDomain-I64 h) f v r e₂ in
          let (i, _, _, number) = enc-states m.doms s h few kept in (pos i, (s, e₂, f₂, number))

      to : wfc m ≡ ok true → (l : List ℤ) × (fold_b m.doms (p1 m f) (true, []) ≡ ok (true, l))
      to w =
          let (l, visited) =
            visit-RepairsTo (states m.doms) (λ v i. repairs w v (states-InRange m.doms v h i)) in
          (l, fold_b-visit m.doms (p1 m f) (true, []) h ∙ visited)
