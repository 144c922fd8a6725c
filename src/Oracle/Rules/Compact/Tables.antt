-- ===== src/Oracle/Rules/Compact/Tables.antt =====
-- What the tables that the two passes of F_checkBuildC in coq/goextract/oracle/oracle_gen.go make say of
-- the machine: the number of each repaired state, and of the repaired state after each event.
use mathlib.Core.Path.{subst}
use native.Mathlib.Decide.{dec_lt}
use native.Mathlib.Nat.{suc-mul, mul-le-mul_right}
use normalization_confluence.Common.{
  ℕ, zero, suc, ◌+◌, ◌*◌, ◌-◌, ◌^◌, ◌≤◌, ◌<◌, ◌≡◌, sym, ap, ◌∙◌, true, List, [], ◌∷◌, arith, length,
  get_or, In-get_or, get_or-append_left, get_or-append_right, All, All-map,
}
use normalization_confluence.Common.Int.{ℤ, pos}
use normalization_confluence.Common.Run.{Run, ok, ◌>>=◌, ok_inj}
use normalization_confluence.Oracle.Trie.{Vt, of_list_v, vlook}
use normalization_confluence.Oracle.Blocks.{Blk}
use normalization_confluence.Oracle.Packed.Columns.{IsPacked}
use normalization_confluence.Oracle.Packed.Scan.{next}
use normalization_confluence.Oracle.Rules.{Machine, State}
use normalization_confluence.Oracle.Rules.Box.Range.{InRange}
use normalization_confluence.Oracle.Rules.Step.{gapp, no_event, fuel_of}
use normalization_confluence.Oracle.Rules.Step.Keeps.{gapp-InRange, normalize-InRange}
use normalization_confluence.Oracle.Rules.Compact.{enc, p1, fold_b}
use normalization_confluence.Oracle.Rules.Compact.States.{IsDomain, IsDomain-I64, states}
use normalization_confluence.Oracle.Rules.Compact.Visits.{count, count_pos}
use normalization_confluence.Oracle.Rules.Compact.FirstPass.{RepairsTo}
use normalization_confluence.Oracle.Rules.Compact.Agrees.{states-InRange}
use normalization_confluence.Oracle.Rules.Compact.Lookup.{fold_b-vlook}
use normalization_confluence.Oracle.Rules.Compact.Numbering.{enc-states, length-states}
use normalization_confluence.Oracle.Rules.Compact.Columns.{IsColumn}
use normalization_confluence.Oracle.Rules.Compact.SecondPass.{IsRows, IsPass}

-- A machine whose states and events are few.
pub record IsSmallMachine (m : Machine) : Type 0 where
  pub domains : All IsDomain m.doms
  pub few_states : count m.doms ≤ 2 ^ 24
  pub few_events : length m.evs < 2 ^ 31
  pub few_variables : length m.doms < 2 ^ 31

-- The first pass returned, and its numbers are in the trie.
pub record IsFirstPass (m : Machine) (f : ℤ) (numbers : List ℤ) (t : Vt ℤ) : Type 0 where
  pub fuel : fuel_of m ≡ ok f
  pub passed : fold_b m.doms (p1 m f) (true, []) ≡ ok (true, numbers)
  pub trie : of_list_v (pos 0) numbers ≡ ok t

-- The number of a state.
abbrev IsNumber : ℕ → ℤ → Type 0
IsNumber n z = (x : ℕ) × (z ≡ pos x) × (x < n)

module _ (m : Machine) (small : IsSmallMachine m) (f : ℤ) (numbers : List ℤ) (t : Vt ℤ)
    (first : IsFirstPass m f numbers t) where
  abbrev look : ℤ → Run ℤ
  look = vlook (pos 0) t

  enc-IsNumber :
      (v : State) (z : ℤ) → InRange m.doms v → enc m.doms v ≡ ok z → IsNumber (count m.doms) z
  enc-IsNumber v z r e =
      let top : count m.doms ≤ 2 ^ 24 = small.few_states in
      let all : length (states m.doms) ≡ count m.doms = length-states m.doms small.domains in
      let (i, lt, _, number) = enc-states m.doms v small.domains (omega arith) r in
      (i, ok_inj (sym e ∙ number), omega arith)

  -- A lookup at the number of a state finds the number of the repaired state.
  look-RepairsTo :
      (v : State) (z y : ℤ)
      → InRange m.doms v
      → enc m.doms v ≡ ok z
      → look z ≡ ok y
      → RepairsTo m f v y × IsNumber (count m.doms) y
  look-RepairsTo v z y r e found =
      let top : count m.doms ≤ 2 ^ 24 = small.few_states in
      let (i, n, number, (w, repaired, valid, numbered), looked) =
        fold_b-vlook m f numbers v small.domains (omega arith) first.passed r in
      let here : i ≡ z = ok_inj (sym number ∙ e) in
      let looked' : look i ≡ ok n =
        ap (λ s. s >>= (λ t. vlook (pos 0) t i)) (sym first.trie) ∙ looked in
      let same : n ≡ y = ok_inj (sym looked' ∙ ap look here ∙ found) in
      let kept = normalize-InRange m (All-map m.doms IsDomain-I64 small.domains) f v r repaired in
      (
        (w, repaired, valid, numbered ∙ ap ok same),
        subst (IsNumber (count m.doms)) same (enc-IsNumber w n kept numbered),
      )

  -- The entries of a state in range.
  record SaysOf (v : State) (c : List ℤ) : Type 0 where
    normal : RepairsTo m f v (get_or c 0 (pos 0))
    steps :
        (e : ℕ)
        → e < length m.evs
        → (u : State) × (gapp m (get_or m.evs e no_event) v ≡ ok u)
          × InRange m.doms u
          × RepairsTo m f u (get_or c (suc e) (pos 0))
    numbers_below : (k : ℕ) → k ≤ length m.evs → IsNumber (count m.doms) (get_or c k (pos 0))

  IsColumn-SaysOf : (v : State) (c : List ℤ) → InRange m.doms v → IsColumn m look v c → SaysOf v c
  IsColumn-SaysOf v c r i = record {
    normal = (look-RepairsTo v i.number _ r i.numbered i.normal).0;
    steps = λ e lt. let (u, (gone, kept, repairs), _) = step e lt in (u, gone, kept, repairs);
    numbers_below = below;
  }
    where
      step :
          (e : ℕ)
          → e < length m.evs
          → (u : State) × ((gapp m (get_or m.evs e no_event) v ≡ ok u)
              × InRange m.doms u
              × RepairsTo m f u (get_or c (suc e) (pos 0)))
            × IsNumber (count m.doms) (get_or c (suc e) (pos 0))
      step e lt =
          let (u, j, gone, numbered, found) = i.steps e lt in
          let kept =
            gapp-InRange m (All-map m.doms IsDomain-I64 small.domains) (get_or m.evs e no_event) v r
              gone in
          let (repairs, number) = look-RepairsTo u j _ kept numbered found in
          (u, (gone, kept, repairs), number)

      below : (k : ℕ) → k ≤ length m.evs → IsNumber (count m.doms) (get_or c k (pos 0))
      below zero le = (look-RepairsTo v i.number _ r i.numbered i.normal).1
      below (suc e) le = let (u, says, number) = step e le in number

  -- The rows hold numbers of states.
  rows-IsNumber :
      (vs : List State) (l : List ℤ)
      → ((j : ℕ) → j < length vs → InRange m.doms (get_or vs j []))
      → IsRows m look vs l
      → (k : ℕ) → IsNumber (count m.doms) (get_or l k (pos 0))
  rows-IsNumber [] l r e k =
      let one : 1 ≤ count m.doms = count_pos m.doms small.domains in
      (0, ap (λ l. get_or l k (pos 0)) e, one)
  rows-IsNumber (v ∷ vs) l r (c, l', e, col, rest) k =
      let says = IsColumn-SaysOf v c (r 0 (omega arith)) col in
      let wide : length c ≡ suc (length m.evs) = col.width in
      elim (dec_lt k (length c)) [
        | yes lt ↦
            subst (IsNumber (count m.doms))
              (sym (ap (λ l. get_or l k (pos 0)) e ∙ get_or-append_left (pos 0) c l' k lt))
              (says.numbers_below k (omega arith))
        | no ge ↦
            subst (IsNumber (count m.doms))
              (sym (
                ap (λ l. get_or l k (pos 0)) e
                ∙ get_or-append_right (pos 0) c l' k (k - length c) (omega arith)))
              (rows-IsNumber vs l' (λ j lj. r (suc j) (omega arith)) rest (k - length c))
      ]

  -- Row `j` is the column of state `j`.
  row_at :
      (vs : List State) (l : List ℤ) (j : ℕ)
      → IsRows m look vs l
      → j < length vs
      → (c : List ℤ) × IsColumn m look (get_or vs j []) c
        × ((k : ℕ)
            → k ≤ length m.evs
            → get_or l (j * (length m.evs + 1) + k) (pos 0) ≡ get_or c k (pos 0))
  row_at [] l j rows lt = absurd (omega arith)
  row_at (v ∷ vs) l zero (c, l', e, col, rest) lt =
      let wide : length c ≡ suc (length m.evs) = col.width in
      (
        c,
        col,
        λ k le.
            let place : 0 * (length m.evs + 1) + k ≡ k = omega arith in
            ap (λ i. get_or l i (pos 0)) place
            ∙ ap (λ l. get_or l k (pos 0)) e
            ∙ get_or-append_left (pos 0) c l' k (omega arith),
      )
  row_at (v ∷ vs) l (suc j) (c, l', e, col, rest) lt =
      let wide : length c ≡ suc (length m.evs) = col.width in
      let w = length m.evs + 1 in
      let more : suc j * w ≡ j * w + w = suc-mul j w in
      let (c', col', at) = row_at vs l' j rest (omega arith) in
      (
        c',
        col',
        λ k le.
            ap (λ l. get_or l (suc j * w + k) (pos 0)) e
            ∙ get_or-append_right (pos 0) c l' (suc j * w + k) (j * w + k) (omega arith)
            ∙ at k le,
      )

  module _ (bs : List (Blk ℤ)) (pass : IsPass m look (states m.doms) 0 [] bs) where
    -- The blocks are packed tables.
    pub packed : IsPacked (count m.doms) (length m.evs) bs
    packed =
        let top : count m.doms ≤ 2 ^ 24 = small.few_states in
        let few : length m.evs < 2 ^ 31 = small.few_events in
        let all : length (states m.doms) ≡ count m.doms = length-states m.doms small.domains in
        let total : length pass.rows ≡ length (states m.doms) * suc (length m.evs) = pass.total in
        let fits : length bs + 0 ≤ length pass.rows = pass.few in
        let most : length (states m.doms) * suc (length m.evs) ≤ 16777216 * suc (length m.evs) =
          mul-le-mul_right (suc (length m.evs)) (omega arith) in
        let number : (k : ℕ) → IsNumber (count m.doms) (get_or pass.rows k (pos 0)) =
          rows-IsNumber (states m.doms) pass.rows
            (λ j lj.
              states-InRange m.doms (get_or (states m.doms) j []) small.domains
                (In-get_or [] (states m.doms) j lj))
            pass.are_rows in
        record {
          few_states = small.few_states;
          few_events = small.few_events;
          few_blocks = omega arith;
          at = λ k. (number k).0;
          cell_at = λ k. pass.same k ∙ (number k).1;
          at_below = λ k. (number k).2;
        }

    -- The entries of a state in range: the number that it repairs to, and for each event the number of
    -- the state that it leads to.
    pub packed-says :
        (v : State)
        → InRange m.doms v
        → (j : ℕ) × (enc m.doms v ≡ ok (pos j))
          × (j < count m.doms)
          × RepairsTo m f v (pos (packed.at (j * (length m.evs + 1))))
          × ((e : ℕ)
              → e < length m.evs
              → (u : State) × (gapp m (get_or m.evs e no_event) v ≡ ok u)
                × InRange m.doms u
                × RepairsTo m f u (pos (next (count m.doms) (length m.evs) bs packed j e)))
    packed-says v r =
        let top : count m.doms ≤ 2 ^ 24 = small.few_states in
        let all : length (states m.doms) ≡ count m.doms = length-states m.doms small.domains in
        let w = length m.evs + 1 in
        let (j, lt, at_j, number) = enc-states m.doms v small.domains (omega arith) r in
        let (c, col, at) = row_at (states m.doms) pass.rows j pass.are_rows lt in
        let says = IsColumn-SaysOf v c r (subst (λ v. IsColumn m look v c) at_j col) in
        let entry : (k : ℕ) → k ≤ length m.evs → get_or c k (pos 0) ≡ pos (packed.at (j * w + k)) =
          λ k le. sym (at k le) ∙ sym (pass.same (j * w + k)) ∙ packed.cell_at (j * w + k) in
        let first_place : j * w + 0 ≡ j * w = omega arith in
        (
          j,
          number,
          omega arith,
          subst (RepairsTo m f v) (entry 0 (omega arith) ∙ ap (λ k. pos (packed.at k)) first_place)
              says.normal,
          λ e le.
              let (u, gone, kept, repairs) = says.steps e le in
              (u, gone, kept, subst (RepairsTo m f u) (entry (suc e) le) repairs),
        )
