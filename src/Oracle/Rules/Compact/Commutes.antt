-- ===== src/Oracle/Rules/Compact/Commutes.antt =====
-- F_ccA and F_pairsOkA of coq/goextract/oracle/oracle_gen.go on a machine whose packed tables F_scanC
-- accepts.
use mathlib.Core.Path.{subst}
use normalization_confluence.Common.{
  ℕ, zero, suc, ◌+◌, ◌*◌, ◌-◌, ◌^◌, ◌≤◌, ◌<◌, ◌≡◌, refl, sym, ap, ◌∙◌, Bool, true, false, List, [],
  ◌∷◌, arith, length, get_or, All, All-map, inl, inr, if◌then◌else◌,
}
use normalization_confluence.Common.Int.{ℤ, pos, negsuc, pos_part, wrap64, ◌+ℤ◌}
use normalization_confluence.Common.Run.{Run, ok, ◌>>=◌, returned, ok_inj}
use normalization_confluence.Oracle.Prims.{z_mul, z_add}
use normalization_confluence.Oracle.Prims.Exact.{nat_succ_pos}
use normalization_confluence.Oracle.Lists.{nth, repeat, length_run}
use normalization_confluence.Oracle.Blocks.{Blk}
use normalization_confluence.Oracle.Trie.{Vt, vlook}
use normalization_confluence.Oracle.Packed.Scan.{next, Starts}
use normalization_confluence.Oracle.Rules.{Machine, State}
use normalization_confluence.Oracle.Rules.Box.{valeqb}
use normalization_confluence.Oracle.Rules.Box.Range.{InRange}
use normalization_confluence.Oracle.Rules.Step.{
  step_i, step_g, ev_at, no_event, normalize, fuel_of, all_valid, repair1, zero_v,
}
use normalization_confluence.Oracle.Rules.Step.Keeps.{normalize-InRange}
use normalization_confluence.Oracle.Rules.Build.{in_da, pair_ok_a}
use normalization_confluence.Oracle.Rules.Build.Sound.{valeqb_iff}
use normalization_confluence.Oracle.Rules.Compact.{enc, enc_a, prod_l}
use normalization_confluence.Oracle.Rules.Compact.States.{IsDomain-I64, states}
use normalization_confluence.Oracle.Rules.Compact.Visits.{count, count_pos, prod_l-count}
use normalization_confluence.Oracle.Rules.Compact.Numbering.{enc-states}
use normalization_confluence.Oracle.Rules.Compact.SecondPass.{IsPass}
use normalization_confluence.Oracle.Rules.Compact.Tables.{
  IsSmallMachine, IsFirstPass, packed, packed-says,
}

nth-get_or : {A : Type 0} (l : List A) (d : A) (i : ℕ) → nth (pos i) l d ≡ ok (get_or l i d)
unfolding nth
nth-get_or [] d i = refl
nth-get_or (x ∷ l) d zero = refl
nth-get_or (x ∷ l) d (suc i) = nth-get_or l d i

pub length_run-length :
    {A : Type 0} (l : List A) → length l < 2 ^ 63 → length_run l ≡ ok (pos (length l))
unfolding length_run
length_run-length [] h = refl
length_run-length (x ∷ l) h =
    rw (length_run-length l (omega arith))
      (nat_succ_pos (length l) (omega arith) ∙ ap (λ n. ok (pos n)) (omega arith))

repeat-zeros : (k : ℕ) → (z : State) × (repeat (pos 0) (pos k) ≡ ok z) × All (λ x. x ≡ pos 0) z
unfolding repeat
repeat-zeros zero = ([], refl, tt)
repeat-zeros (suc k) = let (z, e, h) = repeat-zeros k in (pos 0 ∷ z, rw e refl, (refl, h))

-- The number of the zero state.
enc_a-zeros : (ds : List ℤ) (v : State) → All (λ x. x ≡ pos 0) v → enc_a ds v (pos 0) ≡ ok (pos 0)
unfolding enc_a z_mul z_add wrap64 ◌+ℤ◌
enc_a-zeros [] v h = refl
enc_a-zeros (d ∷ ds) [] h = refl
enc_a-zeros (d ∷ ds) (x ∷ v) (e, h) =
    ap (λ x. enc_a (d ∷ ds) (x ∷ v) (pos 0)) e ∙ enc_a-zeros ds v h

pos_inj : {a b : ℕ} → pos a ≡ pos b → a ≡ b
pos_inj e = ap pos_part e

-- A state that is valid is its own normal form.
normalize_valid :
    (m : Machine) (f : ℤ) (v : State) {w : State}
    → all_valid m v ≡ ok true
    → normalize m f v ≡ ok w
    → v ≡ w
unfolding normalize
normalize_valid m (negsuc f) v h e = absurd (cc)
normalize_valid m (pos zero) v h e = ok_inj e
normalize_valid m (pos (suc f)) v {w} h e = ok_inj (ap (λ r. r >>= round) (sym h) ∙ e)
  where
    round : Bool → Run State
    round t = elim t [ true ↦ ok v | false ↦ repair1 m v >>= (λ u. normalize m (pos f) u) ]

-- F_allValid returns where F_normalize does, on fuel that is not 0.
all_valid_returns :
    (m : Machine) (k : ℕ) (v : State) {w : State}
    → normalize m (pos (suc k)) v ≡ ok w
    → (t : Bool) × (all_valid m v ≡ ok t)
unfolding normalize
all_valid_returns m k v e = let (t, e₁, _) = returned (all_valid m v) e in (t, e₁)

module _ (m : Machine) (small : IsSmallMachine m) where
  enc_inj :
      (v w : State) (z : ℤ)
      → InRange m.doms v
      → InRange m.doms w
      → enc m.doms v ≡ ok z
      → enc m.doms w ≡ ok z
      → v ≡ w
  enc_inj v w z r s e e' =
      let top : count m.doms ≤ 2 ^ 24 = small.few_states in
      let (i, _, at, number) = enc-states m.doms v small.domains (omega arith) r in
      let (j, _, at', number') = enc-states m.doms w small.domains (omega arith) s in
      let same : i ≡ j = pos_inj (ok_inj (sym number ∙ e ∙ sym e' ∙ number')) in
      sym at ∙ ap (λ n. get_or (states m.doms) n []) same ∙ at'

  module _ (f : ℤ) (numbers : List ℤ) (t : Vt ℤ) (first : IsFirstPass m f numbers t)
      (bs : List (Blk ℤ)) (pass : IsPass m (vlook (pos 0) t) (states m.doms) 0 [] bs) where
    abbrev pub leads : ℕ → ℕ → ℕ
    leads j e = next (count m.doms) (length m.evs) bs (packed m small f numbers t first bs pass) j e

    -- An event leads a state in range to the state whose number the tables hold.
    step_at :
        (v : State) (j e : ℕ)
        → InRange m.doms v
        → enc m.doms v ≡ ok (pos j)
        → e < length m.evs
        → (w : State) × (step_i m (pos e) v ≡ ok w)
          × InRange m.doms w
          × (enc m.doms w ≡ ok (pos (leads j e)))
    unfolding step_i step_g ev_at
    step_at v j e r number lt =
        let (i, number', _, _, steps) = packed-says m small f numbers t first bs pass v r in
        let same : i ≡ j = pos_inj (ok_inj (sym number' ∙ number)) in
        let (u, gone, kept, (w, repaired, valid, encoded)) = steps e lt in
        let in_range =
          normalize-InRange m (All-map m.doms IsDomain-I64 small.domains) f u kept repaired in
        (
          w,
          rw (nth-get_or m.evs no_event e, first.fuel, gone) repaired,
          in_range,
          encoded ∙ ap (λ i. ok (pos (leads i e))) same,
        )

    -- F_inDA says `true` only of the states that F_scanC starts from.
    pub in_da-Starts :
        (v : State) (j : ℕ)
        → InRange m.doms v
        → enc m.doms v ≡ ok (pos j)
        → in_da m v ≡ ok true
        → Starts (count m.doms) (length m.evs) bs (packed m small f numbers t first bs pass) j
    unfolding in_da zero_v enc
    in_da-Starts v j r number e =
        let (valid, e₁, f₁) = returned (all_valid m v) e in after_test valid e₁ f₁
      where
        after_test :
            (b : Bool)
            → all_valid m v ≡ ok b
            → (if b then ok true else (zero_v m >>= λ z. ok (valeqb v z))) ≡ ok true
            → Starts (count m.doms) (length m.evs) bs (packed m small f numbers t first bs pass) j
        after_test true valid g =
            let (i, number', _, (w, repaired, _, encoded), _) =
              packed-says m small f numbers t first bs pass v r in
            let same : i ≡ j = pos_inj (ok_inj (sym number' ∙ number)) in
            let fixed : v ≡ w = normalize_valid m f v valid repaired in
            let own = pos_inj (ok_inj (sym encoded ∙ ap (enc m.doms) (sym fixed) ∙ number)) in
            inl (
              subst
                (λ i. (packed m small f numbers t first bs pass).at (i * (length m.evs + 1)) ≡ j)
                same own)
        after_test false valid g =
            let few : length m.doms < 2 ^ 31 = small.few_variables in
            let (z, made, zeros) = repeat-zeros (length m.doms) in
            let zero_state : zero_v m ≡ ok z = rw (length_run-length m.doms (omega arith)) made in
            let equal : v ≡ z =
              (valeqb_iff v z).0
                (ok_inj (ap (λ r. r >>= λ z. ok (valeqb v z)) (sym zero_state) ∙ g)) in
            let encoded = ap (enc m.doms) equal ∙ enc_a-zeros m.doms z zeros in
            inr (pos_inj (ok_inj (sym number ∙ encoded)))

    pub in_da_returns : (v : State) → InRange m.doms v → (b : Bool) × (in_da m v ≡ ok b)
    unfolding in_da zero_v fuel_of prod_l
    in_da_returns v r =
        let top : count m.doms ≤ 2 ^ 24 = small.few_states in
        let one : 1 ≤ count m.doms = count_pos m.doms small.domains in
        let (i, number', _, (w, repaired, _, _), _) =
          packed-says m small f numbers t first bs pass v r in
        let fuel : f ≡ pos (count m.doms) =
          ok_inj (sym first.fuel ∙ prod_l-count m.doms small.domains (omega arith)) in
        let k = count m.doms - 1 in
        let more : count m.doms ≡ suc k = omega arith in
        let (b, valid) =
          all_valid_returns m k v
            (subst (λ f. normalize m f v ≡ ok w) (fuel ∙ ap pos more) repaired) in
        let (z, made, _) = repeat-zeros (length m.doms) in
        let few : length m.doms < 2 ^ 31 = small.few_variables in
        let zero_state : zero_v m ≡ ok z = rw (length_run-length m.doms (omega arith)) made in
        by_test b valid (valeqb v z) (ap (λ r. r >>= λ z. ok (valeqb v z)) zero_state)
      where
        by_test :
            (b : Bool)
            → all_valid m v ≡ ok b
            → (c : Bool) → (zero_v m >>= λ z. ok (valeqb v z)) ≡ ok c
            → (b : Bool) × (in_da m v ≡ ok b)
        by_test true valid c e = (true, rw valid refl)
        by_test false valid c e = (c, rw valid e)

    -- Both orders of a pair of events return, with the states that the tables say.
    pub pair_ok_a-leads :
        (v : State) (j a b : ℕ)
        → InRange m.doms v
        → enc m.doms v ≡ ok (pos j)
        → a < length m.evs
        → b < length m.evs
        → (s : State) × (u : State) × (pair_ok_a m v (pos a, pos b) ≡ ok (valeqb s u))
          × (leads (leads j b) a ≡ leads (leads j a) b → s ≡ u)
    unfolding pair_ok_a
    pair_ok_a-leads v j a b r number la lb =
        let (x, gone_b, in_x, enc_x) = step_at v j b r number lb in
        let (s, gone_ba, in_s, enc_s) = step_at x (leads j b) a in_x enc_x la in
        let (y, gone_a, in_y, enc_y) = step_at v j a r number la in
        let (u, gone_ab, in_u, enc_u) = step_at y (leads j a) b in_y enc_y lb in
        (
          s,
          u,
          rw (gone_b, gone_ba, gone_a, gone_ab) refl,
          λ e.
              enc_inj s u (pos (leads (leads j b) a)) in_s in_u enc_s
                (enc_u ∙ ap (λ n. ok (pos n)) (sym e)),
        )
