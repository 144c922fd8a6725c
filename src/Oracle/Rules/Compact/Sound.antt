-- ===== src/Oracle/Rules/Compact/Sound.antt =====
-- F_checkBuildC of coq/goextract/oracle/oracle_gen.go accepts no machine that F_checkBuild refuses.
use mathlib.Core.Path.{subst}
use normalization_confluence.Common.{
  ℕ, ◌^◌, ◌≤◌, ◌<◌, ◌≡◌, refl, sym, ap, ◌∙◌, Bool, true, false, Option, List, [], arith, length,
  All-map, In,
}
use normalization_confluence.Common.Int.{ℤ, pos}
use normalization_confluence.Common.Run.{ok, returned, ok_inj, and_run, tested_true}
use normalization_confluence.Oracle.Lists.{length_run}
use normalization_confluence.Oracle.Loops.{forallb}
use normalization_confluence.Oracle.TableFn.{pairs_ok_w}
use normalization_confluence.Oracle.Trie.{Vt, of_list_v, vlook, len_t}
use normalization_confluence.Oracle.Trie.Groups.{len_t-length}
use normalization_confluence.Oracle.Trie.Contents.{is_below}
use normalization_confluence.Oracle.Blocks.{Blk}
use normalization_confluence.Oracle.Packed.{scan_c}
use normalization_confluence.Oracle.Packed.Pairs.{IsPair}
use normalization_confluence.Oracle.Packed.Scan.{scan_c-commutes}
use normalization_confluence.Oracle.Rules.{Machine, State}
use normalization_confluence.Oracle.Rules.Box.{valeqb}
use normalization_confluence.Oracle.Rules.Box.Range.{InRange, box-InRange}
use normalization_confluence.Oracle.Rules.Step.{fuel_of}
use normalization_confluence.Oracle.Rules.Build.{
  bounded, sign_safe, in_da, pairs_ok_a, pair_ok_a, commutes_at, cc_a, check_build,
}
use normalization_confluence.Oracle.Rules.Build.Sound.{valeqb_iff}
use normalization_confluence.Oracle.Rules.Compact.{
  enc, fold_b, p1, p2, check_tables, check_passes, check_build_c,
}
use normalization_confluence.Oracle.Rules.Compact.States.{states, visit}
use normalization_confluence.Oracle.Rules.Compact.Visits.{count, fold_b-visit}
use normalization_confluence.Oracle.Rules.Compact.FirstPass.{
  forallb-In, IsDomain-nonneg, check_build_c-wfc,
}
use normalization_confluence.Oracle.Rules.Compact.Numbering.{enc-NumberedBy, length-states}
use normalization_confluence.Oracle.Rules.Compact.Lookup.{visit-Numbers}
use normalization_confluence.Oracle.Rules.Compact.SecondPass.{IsPass, visit-IsPass}
use normalization_confluence.Oracle.Rules.Compact.Tables.{
  IsSmallMachine, IsFirstPass, packed, packed-says,
}
use normalization_confluence.Oracle.Rules.Compact.Pairs.{
  AreNatural, In-All, forallb_returns, SamePairs, pairs-SamePairs,
}
use normalization_confluence.Oracle.Rules.Compact.Commutes.{
  length_run-length, in_da-Starts, in_da_returns, pair_ok_a-leads,
}

-- The test of pairs in F_pairsOkA.
pairs_ok_a-true :
    (m : Machine) (p : Option (List (ℤ × ℤ)))
    → length m.evs < 2 ^ 31
    → SamePairs m p
    → pairs_ok_a m p ≡ ok true
unfolding pairs_ok_a
pairs_ok_a-true m p few same =
    let size : length_run m.evs ≡ ok (pos (length m.evs)) = length_run-length m.evs (omega arith) in
    rw same.checked_eq (
      forallb-In _ same.checked (λ q i.
        let (a, b, e, la, lb) =
          In-All (IsPair (length m.evs)) same.scanned q same.are_events (same.members q i) in
        rw (size, e, is_below a (length m.evs) la, is_below b (length m.evs) lb) refl))

module _ (m : Machine) (p : Option (List (ℤ × ℤ))) (small : IsSmallMachine m) (same : SamePairs m p)
    (f : ℤ) (numbers : List ℤ) (t : Vt ℤ) (first : IsFirstPass m f numbers t) (bs : List (Blk ℤ))
    (pass : IsPass m (vlook (pos 0) t) (states m.doms) 0 [] bs)
    (scanned : scan_c (pos (count m.doms)) (pos (length m.evs)) bs p ≡ ok true) where
  -- The two orders of a declared pair from a state in range.
  pair_leads :
      (v : State) (j : ℕ)
      → InRange m.doms v
      → enc m.doms v ≡ ok (pos j)
      → j < count m.doms
      → (q : ℤ × ℤ) → In q same.checked
      → (s : State) × (u : State) × (pair_ok_a m v q ≡ ok (valeqb s u))
        × (in_da m v ≡ ok true → s ≡ u)
  pair_leads v j r number lj q i =
      let (a, b, e, la, lb) =
        In-All (IsPair (length m.evs)) same.scanned q same.are_events (same.members q i) in
      let (s, u, both, agree) =
        pair_ok_a-leads m small f numbers t first bs pass v j a b r number la lb in
      let declared : In (pos a, pos b) same.scanned =
        subst (λ q. In q same.scanned) e (same.members q i) in
      (
        s,
        u,
        ap (pair_ok_a m v) e ∙ both,
        λ start. agree (
            scan_c-commutes (count m.doms) (length m.evs) bs
              (packed m small f numbers t first bs pass) p same.scanned scanned same.scanned_eq
              same.are_events j a b lj
              (in_da-Starts m small f numbers t first bs pass v j r number start) declared la lb),
      )

  -- The callback of F_ccA returns `true` on every state in range.
  commutes_at-true : (v : State) → InRange m.doms v → commutes_at m p v ≡ ok true
  unfolding commutes_at
  commutes_at-true v r =
      let (j, number, lj, _, _) = packed-says m small f numbers t first bs pass v r in
      let (start, started) = in_da_returns m small f numbers t first bs pass v r in
      let (c, tested) =
        forallb_returns (pair_ok_a m v) same.checked
          (λ q i. let (s, u, both, _) = pair_leads v j r number lj q i in (valeqb s u, both)) in
      by_start j number lj start started c tested
    where
      by_start :
          (j : ℕ)
          → enc m.doms v ≡ ok (pos j)
          → j < count m.doms
          → (b : Bool) → in_da m v ≡ ok b
          → (c : Bool) → forallb (pair_ok_a m v) same.checked ≡ ok c
          → commutes_at m p v ≡ ok true
      by_start j number lj true started c tested =
          let all : forallb (pair_ok_a m v) same.checked ≡ ok true =
            forallb-In (pair_ok_a m v) same.checked (λ q i.
              let (s, u, both, agree) = pair_leads v j r number lj q i in
              both ∙ ap ok ((valeqb_iff s u).1 (agree started))) in
          rw (started, same.checked_eq, all) refl
      by_start j number lj false started c tested = rw (started, same.checked_eq, tested) refl

  cc_a-true : cc_a m p ≡ ok true
  unfolding cc_a
  cc_a-true =
      let (vs, listed, iff) = box-InRange m.doms (All-map m.doms IsDomain-nonneg small.domains) in
      rw listed (forallb-In (commutes_at m p) vs (λ v i. commutes_at-true v ((iff v).0 i)))

-- What F_checkBuildC does after its first pass.
check_tables-cc_a :
    (m : Machine) (p : Option (List (ℤ × ℤ))) (f : ℤ) (numbers : List ℤ)
    → IsSmallMachine m
    → AreNatural p
    → fuel_of m ≡ ok f
    → fold_b m.doms (p1 m f) (true, []) ≡ ok (true, numbers)
    → check_tables m p numbers ≡ ok true
    → (pairs_ok_a m p ≡ ok true) × (cc_a m p ≡ ok true)
unfolding check_tables
check_tables-cc_a m p f numbers small natural fuel passed e =
    let few : length m.evs < 2 ^ 31 = small.few_events in
    let top : count m.doms ≤ 2 ^ 24 = small.few_states in
    let events : len_t m.evs (pos 0) ≡ ok (pos (length m.evs)) =
      len_t-length m.evs 0 (omega arith) ∙ ap (λ n. ok (pos n)) (omega arith) in
    let visited : visit (p1 m f) (states m.doms) (true, []) ≡ ok (true, numbers) =
      sym (fold_b-visit m.doms (p1 m f) (true, []) small.domains) ∙ passed in
    let count_eq : length numbers ≡ count m.doms =
      (visit-Numbers m f (states m.doms) numbers visited).0 ∙ length-states m.doms small.domains in
    let sizes : len_t numbers (pos 0) ≡ ok (pos (count m.doms)) =
      len_t-length numbers 0 (omega arith) ∙ ap (λ n. ok (pos n)) (omega arith) in
    let (n_e, e₁, f₁) = returned (len_t m.evs (pos 0)) e in
    let (declared, e₂, f₂) = returned (pairs_ok_w n_e p) f₁ in
    let (yes_declared, f₃) = tested_true declared _ f₂ in
    let (n, e₄, f₄) = returned (len_t numbers (pos 0)) f₃ in
    let (t, e₅, f₅) = returned (of_list_v (pos 0) numbers) f₄ in
    let (st, e₆, f₆) = returned (fold_b m.doms (p2 m (vlook (pos 0) t)) ([], [])) f₅ in
    let n_e_eq : n_e ≡ pos (length m.evs) = ok_inj (sym e₁ ∙ events) in
    let n_eq : n ≡ pos (count m.doms) = ok_inj (sym e₄ ∙ sizes) in
    let all : length (states m.doms) ≡ count m.doms = length-states m.doms small.domains in
    let (pass, clean) =
      visit-IsPass m (vlook (pos 0) t) (states m.doms) 0
        (enc-NumberedBy m.doms small.domains (omega arith)) (omega arith) few
        (sym (fold_b-visit m.doms (p2 m (vlook (pos 0) t)) ([], []) small.domains) ∙ e₆) in
    let pass' : IsPass m (vlook (pos 0) t) (states m.doms) 0 [] st.1 =
      subst (λ b. IsPass m (vlook (pos 0) t) (states m.doms) 0 b st.1) (clean (omega arith)) pass in
    let same =
      pairs-SamePairs m p few natural
        (ap (λ k. pairs_ok_w k p) (sym n_e_eq) ∙ e₂ ∙ ap ok yes_declared) in
    let first : IsFirstPass m f numbers t = record { fuel = fuel; passed = passed; trie = e₅ } in
    let scanned : scan_c (pos (count m.doms)) (pos (length m.evs)) st.1 p ≡ ok true =
      ap (λ k. scan_c k (pos (length m.evs)) st.1 p) (sym n_eq)
      ∙ ap (λ k. scan_c n k st.1 p) (sym n_e_eq)
      ∙ f₆ in
    (pairs_ok_a-true m p few same, cc_a-true m p small same f numbers t first st.1 pass' scanned)

-- If F_checkBuildC returns `true`, so does F_checkBuild.
pub check_build_c-check_build :
    (m : Machine) (p : Option (List (ℤ × ℤ)))
    → IsSmallMachine m
    → AreNatural p
    → check_build_c m p ≡ ok true
    → check_build m p ≡ ok true
unfolding check_build_c check_passes check_build
check_build_c-check_build m p small natural e =
    let (within, signs, repairs) = check_build_c-wfc m p e small.domains in
    let (safe, e₁, f₁) = returned (and_run (bounded m) (sign_safe m)) e in
    let (_, passes) = tested_true safe (check_passes m p) f₁ in
    let (f, e₂, f₂) = returned (fuel_of m) passes in
    let (r, e₃, f₃) = returned (fold_b m.doms (p1 m f) (true, [])) f₂ in
    let (all_repaired, tables) = tested_true r.0 (check_tables m p r.1) f₃ in
    let (pairs, commutes) =
      check_tables-cc_a m p f r.1 small natural e₂ (e₃ ∙ ap (λ b. ok (b, r.1)) all_repaired)
        tables in
    rw (within, signs, pairs, repairs, commutes) refl
