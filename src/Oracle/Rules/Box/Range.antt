-- ===== src/Oracle/Rules/Box/Range.antt =====
-- F_box, and the states whose raw values are in their domains.
use mathlib.Core.Path.{subst}
use native.Mathlib.Decide.{ℕ_discrete}
use normalization_confluence.Common.{
  ℕ, zero, suc, ◌<◌, ◌≡◌, refl, sym, List, [], ◌∷◌, arith, ◌⊎◌, inl, inr, ◌↔◌, ↔_trans, All, In,
}
use normalization_confluence.Common.Int.{ℤ, pos, negsuc, ◌≤ℤ◌, ◌<ℤ◌}
use normalization_confluence.Common.Run.{ok, returned}
use normalization_confluence.Oracle.Rules.{State}
use normalization_confluence.Oracle.Rules.Box.{prepend_all, layer, box}

-- A raw value of each variable, below the size of its domain.
abbrev pub InRange : List ℤ → State → Type 0
InRange [] [] = Unit
InRange [] (_ ∷ _) = ⊥
InRange (_ ∷ _) [] = ⊥
InRange (d ∷ ds) (x ∷ s) = ((pos 0 ≤ℤ x) × (x <ℤ d)) × InRange ds s

prepend_all_lem :
    (x : ℤ) (ws acc : List State) (v : State)
    → In v (prepend_all x ws acc) ↔ (((w : State) × (v ≡ x ∷ w) × In w ws) ⊎ In v acc)
unfolding prepend_all
prepend_all_lem x [] acc v = (inr, none_left)
  where
    none_left : ((w : State) × (v ≡ x ∷ w) × ⊥) ⊎ In v acc → In v acc
    none_left (inl (w, e, m)) = elim m [ ]
    none_left (inr m) = m
prepend_all_lem x (u ∷ ws) acc v = ↔_trans (prepend_all_lem x ws ((x ∷ u) ∷ acc) v) (to, from)
  where
    to :
        ((w : State) × (v ≡ x ∷ w) × In w ws) ⊎ ((v ≡ x ∷ u) ⊎ In v acc)
        → ((w : State) × (v ≡ x ∷ w) × In w (u ∷ ws)) ⊎ In v acc
    to (inl (w, e, m)) = inl (w, e, inr m)
    to (inr (inl e)) = inl (u, e, inl refl)
    to (inr (inr m)) = inr m

    from :
        ((w : State) × (v ≡ x ∷ w) × In w (u ∷ ws)) ⊎ In v acc
        → ((w : State) × (v ≡ x ∷ w) × In w ws) ⊎ ((v ≡ x ∷ u) ⊎ In v acc)
    from (inl (w, e, inl q)) = inr (inl (subst (λ y. v ≡ x ∷ y) q e))
    from (inl (w, e, inr m)) = inl (w, e, m)
    from (inr m) = inr (inr m)

-- A state whose first value is below `k` and whose rest is in `ws`.
abbrev InLayer : ℕ → List State → State → Type 0
InLayer k ws v = (i : ℕ) × (w : State) × (v ≡ pos i ∷ w) × (i < k) × In w ws

layer_lem :
    (k : ℕ) (ws acc : List State)
    → (vs : List State) × (layer (pos k) ws acc ≡ ok vs)
      × ((v : State) → In v vs ↔ (InLayer k ws v ⊎ In v acc))
unfolding layer
layer_lem zero ws acc = (acc, refl, λ v. (inr, none_left v))
  where
    none_left : (v : State) → InLayer 0 ws v ⊎ In v acc → In v acc
    none_left v (inl (i, w, e, lt, m)) = absurd (omega arith)
    none_left v (inr m) = m
layer_lem (suc k) ws acc =
    let (vs, e, iff) = layer_lem k ws (prepend_all (pos k) ws acc) in
    (vs, e, λ v. ↔_trans (iff v) (to v, from v))
  where
    to :
        (v : State)
        → InLayer k ws v ⊎ In v (prepend_all (pos k) ws acc)
        → InLayer (suc k) ws v ⊎ In v acc
    to v (inl (i, w, e, lt, m)) = inl (i, w, e, omega arith, m)
    to v (inr m) = elim ((prepend_all_lem (pos k) ws acc v).0 m) [
      | inl (w, e, m') ↦ inl (k, w, e, omega arith, m')
      | inr m' ↦ inr m'
    ]

    from :
        (v : State)
        → InLayer (suc k) ws v ⊎ In v acc
        → InLayer k ws v ⊎ In v (prepend_all (pos k) ws acc)
    from v (inl (i, w, e, lt, m)) = elim (ℕ_discrete i k) [
      | yes q ↦
          inr ((prepend_all_lem (pos k) ws acc v).1 (inl (w, subst (λ y. v ≡ pos y ∷ w) q e, m)))
      | no ne ↦ inl (i, w, e, omega arith, m)
    ]
    from v (inr m) = inr ((prepend_all_lem (pos k) ws acc v).1 (inr m))

-- A state is in the layers over `ws` if its first value is below `k` and `ws` holds its rest.
layer_iff :
    (k : ℕ) (ds : List ℤ) (ws : List State)
    → ((w : State) → In w ws ↔ InRange ds w)
    → (v : State) → (InLayer k ws v ⊎ ⊥) ↔ InRange (pos k ∷ ds) v
layer_iff k ds ws iff v = (to v, from v)
  where
    to : (v : State) → InLayer k ws v ⊎ ⊥ → InRange (pos k ∷ ds) v
    to v (inl (i, w, e, lt, m)) =
        subst (InRange (pos k ∷ ds)) (sym e) ((omega arith, omega arith), (iff w).0 m)
    to v (inr none) = elim none [ ]

    from : (v : State) → InRange (pos k ∷ ds) v → InLayer k ws v ⊎ ⊥
    from (pos i ∷ w) (r, rest) = inl (i, w, refl, omega arith, (iff w).1 rest)
    from (negsuc i ∷ w) (r, rest) = absurd (omega arith)
    from [] r = elim r [ ]

-- On domains that are no negative number, `F_box` returns without a panic, and its list holds
-- exactly the states that are in range.
pub box-InRange :
    (ds : List ℤ)
    → All (λ d. pos 0 ≤ℤ d) ds
    → (vs : List State) × (box ds ≡ ok vs) × ((v : State) → In v vs ↔ InRange ds v)
unfolding box
box-InRange [] a = ([] ∷ [], refl, λ v. (to v, from v))
  where
    to : (v : State) → In v ([] ∷ []) → InRange [] v
    to v (inl e) = subst (InRange []) (sym e) tt
    to v (inr none) = elim none [ ]

    from : (v : State) → InRange [] v → In v ([] ∷ [])
    from [] r = inl refl
    from (x ∷ v) r = elim r [ ]
box-InRange (pos k ∷ ds) a =
    let (ws, e, iff) = box-InRange ds a.1 in
    let (vs, e', iff') = layer_lem k ws [] in
    (vs, rw e e', λ v. ↔_trans (iff' v) (layer_iff k ds ws iff v))
box-InRange (negsuc k ∷ ds) a = absurd (omega arith)

-- `F_box` returns on no negative domain.
pub box_nonneg : (ds : List ℤ) {vs : List State} → box ds ≡ ok vs → All (λ d. pos 0 ≤ℤ d) ds
unfolding box layer
box_nonneg [] e = tt
box_nonneg (pos k ∷ ds) e = let (ws, e', r) = returned (box ds) e in (omega arith, box_nonneg ds e')
box_nonneg (negsuc k ∷ ds) e = let (ws, e', r) = returned (box ds) e in absurd (cc)
