-- ===== src/Oracle/Rules/Compact/Pairs.antt =====
-- The declared pairs of F_ccA and F_pairsOkA of coq/goextract/oracle/oracle_gen.go, and those of F_scanC.
use mathlib.Core.Path.{subst}
use normalization_confluence.Common.{
  ℕ, ◌^◌, ◌<◌, ◌≡◌, refl, sym, ap, ◌∙◌, Bool, true, false, ◌&&◌, Option, none, some, List, [], ◌∷◌,
  arith, length, All, In, inl, inr,
}
use normalization_confluence.Common.Int.{ℤ, pos, ltb_ℤ}
use normalization_confluence.Common.Run.{Run, ok, ok_inj}
use normalization_confluence.Oracle.Lists.{length_run}
use normalization_confluence.Oracle.Lists.Members.{all_pairs_lem}
use normalization_confluence.Oracle.Loops.{forallb}
use normalization_confluence.Oracle.Loops.Total.{forallb-true}
use normalization_confluence.Oracle.Loops.Pairs.{all_pairs_t_lem}
use normalization_confluence.Oracle.TableFn.{pairs_of_t, pairs_ok_w}
use normalization_confluence.Oracle.Packed.Pairs.{IsPair}
use normalization_confluence.Oracle.Rules.{Machine}
use normalization_confluence.Oracle.Rules.Build.{pairs_a}
use normalization_confluence.Oracle.Rules.Compact.Commutes.{length_run-length}

-- The declared pairs are pairs of natural numbers.
abbrev pub AreNatural : Option (List (ℤ × ℤ)) → Type 0
AreNatural none = Unit
AreNatural (some l) = All (λ q. (a : ℕ) × (b : ℕ) × (q ≡ (pos a, pos b))) l

All-of_In : {A : Type 0} (P : A → Type 0) (l : List A) → ((x : A) → In x l → P x) → All P l
All-of_In P [] h = tt
All-of_In P (x ∷ l) h = (h x (inl refl), All-of_In P l (λ y i. h y (inr i)))

pub In-All : {A : Type 0} (P : A → Type 0) (l : List A) (x : A) → All P l → In x l → P x
In-All P [] x h i = elim i [ ]
In-All P (y ∷ l) x h (inl e) = subst P (sym e) h.0
In-All P (y ∷ l) x h (inr i) = In-All P l x h.1 i

pub forallb_returns :
    {A : Type 0} (f : A → Run Bool) (l : List A)
    → ((x : A) → In x l → (b : Bool) × (f x ≡ ok b))
    → (b : Bool) × (forallb f l ≡ ok b)
unfolding forallb
forallb_returns f [] h = (true, refl)
forallb_returns f (x ∷ l) h =
    let (b, e) = h x (inl refl) in
    let (c, e') = forallb_returns f l (λ y i. h y (inr i)) in by_test b e c e'
  where
    by_test :
        (b : Bool)
        → f x ≡ ok b
        → (c : Bool) → forallb f l ≡ ok c
        → (b : Bool) × (forallb f (x ∷ l) ≡ ok b)
    by_test true e c e' = (c, rw e e')
    by_test false e c e' = (false, rw e refl)

-- The pairs that F_scanC takes are those of F_ccA, and they are events.
pub record SamePairs (m : Machine) (p : Option (List (ℤ × ℤ))) : Type 0 where
  pub scanned : List (ℤ × ℤ)
  pub scanned_eq : pairs_of_t (pos (length m.evs)) p ≡ ok scanned
  pub are_events : All (IsPair (length m.evs)) scanned
  pub checked : List (ℤ × ℤ)
  pub checked_eq : pairs_a m p ≡ ok checked
  pub members : (q : ℤ × ℤ) → In q checked → In q scanned

pub pairs-SamePairs :
    (m : Machine) (p : Option (List (ℤ × ℤ)))
    → length m.evs < 2 ^ 31
    → AreNatural p
    → pairs_ok_w (pos (length m.evs)) p ≡ ok true
    → SamePairs m p
unfolding pairs_of_t pairs_a pairs_ok_w
pairs-SamePairs m (some l) few natural e = record {
  scanned = l;
  scanned_eq = refl;
  are_events = All-of_In (IsPair (length m.evs)) l (λ q i.
      let (a, b, same) = In-All _ l q natural i in
      let tested = ok_inj (
        forallb-true (λ q. ok (ltb_ℤ q.0 (pos (length m.evs)) && ltb_ℤ q.1 (pos (length m.evs)))) l
          e i) in
      let both : (ltb_ℤ (pos a) (pos (length m.evs)) && ltb_ℤ (pos b) (pos (length m.evs))) ≡ true =
        ap (λ q. ltb_ℤ q.0 (pos (length m.evs)) && ltb_ℤ q.1 (pos (length m.evs))) (sym same)
        ∙ tested in
      let (la, lb) = are_below a b (length m.evs) both in (a, b, same, la, lb));
  checked = l;
  checked_eq = refl;
  members = λ q i. i;
}
  where
    are_below :
        (a b n : ℕ) → (ltb_ℤ (pos a) (pos n) && ltb_ℤ (pos b) (pos n)) ≡ true → (a < n) × (b < n)
    are_below a b n h = (ground arith, ground arith)
pairs-SamePairs m none few natural e =
    let n = length m.evs in
    let (ps, listed, iff) = all_pairs_t_lem (length m.evs) (omega arith) in
    let (l, listed', iff') = all_pairs_lem (length m.evs) (omega arith) in
    let size : length_run m.evs ≡ ok (pos (length m.evs)) = length_run-length m.evs (omega arith) in
    record {
      scanned = ps;
      scanned_eq = listed;
      are_events =
          All-of_In (IsPair (length m.evs)) ps
            (λ q i. let (a, b, same, _, lt, lb) = (iff q).0 i in (a, b, same, omega arith, lb));
      checked = l;
      checked_eq = rw size listed';
      members = λ q i. (iff q).1 ((iff' q).0 i);
    }
