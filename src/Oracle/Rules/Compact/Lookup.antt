-- ===== src/Oracle/Rules/Compact/Lookup.antt =====
-- The numbers that the first pass of F_checkBuildC in coq/goextract/oracle/oracle_gen.go gives, and
-- what a lookup in the trie of them returns.
use mathlib.Core.Path.{subst}
use normalization_confluence.Common.{
  ℕ, zero, suc, ◌^◌, ◌<◌, ◌≡◌, sym, ap, ◌∙◌, List, [], ◌∷◌, true, length, get_or, All, arith,
}
use normalization_confluence.Common.Int.{ℤ, pos}
use normalization_confluence.Common.Run.{ok, ◌>>=◌, returned, ok_inj}
use normalization_confluence.Oracle.Trie.{of_list_v, vlook}
use normalization_confluence.Oracle.Trie.Contents.{of_list_v-vlook}
use normalization_confluence.Oracle.Rules.{Machine, State}
use normalization_confluence.Oracle.Rules.Box.Range.{InRange}
use normalization_confluence.Oracle.Rules.Compact.{enc, p1, fold_b}
use normalization_confluence.Oracle.Rules.Compact.States.{IsDomain, states, visit}
use normalization_confluence.Oracle.Rules.Compact.Visits.{count, fold_b-visit}
use normalization_confluence.Oracle.Rules.Compact.FirstPass.{RepairsTo, p1-RepairsTo}
use normalization_confluence.Oracle.Rules.Compact.Numbering.{enc-states, length-states}

module _ (m : Machine) (f : ℤ) where
  -- Entry `i` of the second list is the number of the state that state `i` of the first repairs to.
  abbrev Numbers : List State → List ℤ → Type 0
  Numbers vs l =
      (length l ≡ length vs)
      × ((i : ℕ) → i < length vs → RepairsTo m f (get_or vs i []) (get_or l i (pos 0)))

  pub visit-Numbers :
      (vs : List State) (l : List ℤ) → visit (p1 m f) vs (true, []) ≡ ok (true, l) → Numbers vs l
  visit-Numbers [] l e = (ap length (sym (ap (λ r. r.1) (ok_inj e))), λ i lt. absurd (omega arith))
  visit-Numbers (x ∷ vs) l e =
      let (st, e₁, f₁) = returned (visit (p1 m f) vs (true, [])) e in
      let (kept, (n, q, head)) = p1-RepairsTo m f x st l f₁ in
      let (size, rest) = visit-Numbers vs st.1 (e₁ ∙ ap (λ b. ok (b, st.1)) kept) in
      subst (Numbers (x ∷ vs)) (sym q) (ap suc size, at n st.1 head rest)
    where
      at :
          (n : ℤ) (l : List ℤ)
          → RepairsTo m f x n
          → ((i : ℕ) → i < length vs → RepairsTo m f (get_or vs i []) (get_or l i (pos 0)))
          → (i : ℕ) → i < suc (length vs)
          → RepairsTo m f (get_or (x ∷ vs) i []) (get_or (n ∷ l) i (pos 0))
      at n l head rest zero lt = head
      at n l head rest (suc i) lt = rest i (omega arith)

  -- If the first pass returns `true` with a list of numbers, on domains that hold 1 to 2147483647
  -- values and fewer than 2 ^ 58 states, then the trie of the list has, at the number of a state in
  -- range, the number of the valid state that F_normalize returns for it.
  pub fold_b-vlook :
      (l : List ℤ) (v : State)
      → All IsDomain m.doms
      → count m.doms < 2 ^ 58
      → fold_b m.doms (p1 m f) (true, []) ≡ ok (true, l)
      → InRange m.doms v
      → (i : ℤ) × (n : ℤ) × (enc m.doms v ≡ ok i)
        × RepairsTo m f v n
        × ((of_list_v (pos 0) l >>= λ t. vlook (pos 0) t i) ≡ ok n)
  fold_b-vlook l v h few e r =
      let visited : visit (p1 m f) (states m.doms) (true, []) ≡ ok (true, l) =
        sym (fold_b-visit m.doms (p1 m f) (true, []) h) ∙ e in
      let (size, at) = visit-Numbers (states m.doms) l visited in
      let all : length (states m.doms) ≡ count m.doms = length-states m.doms h in
      let (i, lt, q, number) = enc-states m.doms v h (omega arith) r in
      (
        pos i,
        get_or l i (pos 0),
        number,
        subst (λ w. RepairsTo m f w (get_or l i (pos 0))) q (at i lt),
        of_list_v-vlook (pos 0) l i (omega arith),
      )
