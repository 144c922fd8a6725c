-- ===== src/Oracle/Rules/Compact/Columns.antt =====
-- The column of a state, which F_colOnto of coq/goextract/oracle/oracle_gen.go puts in front of the
-- entries that wait: the number of the repaired state, and of the repaired state after each event.
use normalization_confluence.Common.{
  ℕ, zero, suc, ◌<◌, ◌≡◌, refl, sym, ap, ◌∙◌, List, [], ◌∷◌, ◌++◌, arith, length, get_or,
}
use normalization_confluence.Common.Int.{ℤ, pos}
use normalization_confluence.Common.Run.{Run, ok, ◌>>=◌, returned, ok_inj}
use normalization_confluence.Oracle.Trie.{rev_append}
use normalization_confluence.Oracle.Blocks.{rev_map}
use normalization_confluence.Oracle.Rules.{Machine, State, Guarded}
use normalization_confluence.Oracle.Rules.Step.{gapp, no_event}
use normalization_confluence.Oracle.Rules.Compact.{enc, col_onto}

-- What F_revMap puts in front of its accumulator, in the order of the list.
rev_map-entries :
    {A B : Type 0} (f : A → Run B) (d : A) (z : B) (l : List A) (acc : List B) {r : List B}
    → rev_map f l acc ≡ ok r
    → (ys : List B) × (length ys ≡ length l)
      × ((rest : List B) → rev_append r rest ≡ rev_append acc (ys ++ rest))
      × ((j : ℕ) → j < length l → f (get_or l j d) ≡ ok (get_or ys j z))
unfolding rev_map rev_append
rev_map-entries f d z [] acc {r} e =
    ([], refl, λ rest. ap (λ l. rev_append l rest) (sym (ok_inj e)), λ j lt. absurd (omega arith))
rev_map-entries {B = B} f d z (x ∷ l) acc {r} e =
    let (y, e₁, f₁) = returned (f x) e in
    let (ys, size, front, at) = rev_map-entries f d z l (y ∷ acc) f₁ in
    (y ∷ ys, ap suc size, front, entry y ys e₁ at)
  where
    entry :
        (y : B) (ys : List B)
        → f x ≡ ok y
        → ((j : ℕ) → j < length l → f (get_or l j d) ≡ ok (get_or ys j z))
        → (j : ℕ) → j < suc (length l)
        → f (get_or (x ∷ l) j d) ≡ ok (get_or (y ∷ ys) j z)
    entry y ys h at zero lt = h
    entry y ys h at (suc j) lt = at j (omega arith)

module _ (m : Machine) (look : ℤ → Run ℤ) where
  -- The entries of a state.
  pub record IsColumn (v : State) (c : List ℤ) : Type 0 where
    pub width : length c ≡ suc (length m.evs)
    pub number : ℤ
    pub numbered : enc m.doms v ≡ ok number
    pub normal : look number ≡ ok (get_or c 0 (pos 0))
    pub steps :
        (e : ℕ)
        → e < length m.evs
        → (u : State) × (j : ℤ) × (gapp m (get_or m.evs e no_event) v ≡ ok u)
          × (enc m.doms u ≡ ok j)
          × (look j ≡ ok (get_or c (suc e) (pos 0)))

  pub col_onto-IsColumn :
      (v : State) (buf : List ℤ) {r : List ℤ}
      → col_onto m look v buf ≡ ok r
      → (c : List ℤ) × (r ≡ c ++ buf) × IsColumn v c
  unfolding col_onto rev_append
  col_onto-IsColumn v buf {r} e =
      let (i, e₁, f₁) = returned (enc m.doms v) e in
      let (nf, e₂, f₂) = returned (look i) f₁ in
      let step : Guarded → Run ℤ = λ ge. gapp m ge v >>= (λ u. enc m.doms u >>= look) in
      let (steps, e₃, f₃) = returned (rev_map step m.evs []) f₂ in
      let (ys, size, front, at) = rev_map-entries step no_event (pos 0) m.evs [] e₃ in
      (
        nf ∷ ys,
        sym (ok_inj f₃) ∙ ap (λ l. nf ∷ l) (front buf),
        record {
          width = ap suc size;
          number = i;
          numbered = e₁;
          normal = e₂;
          steps = λ e lt.
              let (u, g₁, h₁) = returned (gapp m (get_or m.evs e no_event) v) (at e lt) in
              let (j, g₂, h₂) = returned (enc m.doms u) h₁ in (u, j, g₁, g₂, h₂);
        },
      )
