-- ===== src/Oracle/TableFn/Converges.antt =====
-- What a `true` of F_check_fn is worth for sequences of events that differ by reordering declared
-- pairs.
use mathlib.Core.Path.{subst}
use normalization_confluence.Common.{
  ℕ, ◌-◌, ◌^◌, ◌<◌, ◌≡◌, refl, sym, ap, ◌∙◌, true, Option, List, [], ◌∷◌, arith, ◌⊎◌, inl, inr, All,
  Reorders, same, swap, skip, chain, Reorders-All,
}
use normalization_confluence.Common.Int.{ℤ, pos, negsuc, ◌≤ℤ◌}
use normalization_confluence.Common.Run.{ok}
use normalization_confluence.Common.Decides.{Decides-true}
use normalization_confluence.Oracle.TableFn.{check_fn}
use normalization_confluence.Oracle.TableFn.Spec.{IsDeclared, IsStart, TablesOk}
use normalization_confluence.Oracle.TableFn.Decides.{check_fn-Decides}

-- The state after the events, in order, from `s`.
abbrev pub run_events : (ℤ → ℤ → ℤ) → List ℕ → ℤ → ℤ
run_events st [] s = s
run_events st (e ∷ es) s = run_events st es (st (pos e) s)

-- Events whose order does not matter: equal ones, and declared pairs either way round.
abbrev pub IsIndependent : ℕ → Option (List (ℤ × ℤ)) → ℕ → ℕ → Type 0
IsIndependent n_e p a b =
    (a ≡ b) ⊎ (IsDeclared n_e p (pos a, pos b) ⊎ IsDeclared n_e p (pos b, pos a))

-- The accessor returns numbers of type nat on such numbers, as the oracle requires of it.
abbrev pub IsNatural : (ℤ → ℤ → ℤ) → Type 0
IsNatural st = (e s : ℕ) → pos 0 ≤ℤ st (pos e) (pos s)

pos_of_nonneg : (x : ℤ) → pos 0 ≤ℤ x → (n : ℕ) × (x ≡ pos n)
pos_of_nonneg (pos n) h = (n, refl)
pos_of_nonneg (negsuc n) h = absurd (omega arith)

module _ (n n_e : ℕ) (nf : ℤ → ℤ) (st : ℤ → ℤ → ℤ) (p : Option (List (ℤ × ℤ))) where
  -- A step from a start state leads to a start state, which is a number.
  step-IsStart :
      IsNatural st
      → TablesOk n n_e nf st p
      → (e s : ℕ) → e < n_e
      → IsStart n nf (pos s)
      → (t : ℕ) × (st (pos e) (pos s) ≡ pos t) × IsStart n nf (pos t)
  step-IsStart nat ok_all e s h start =
      let (t, q) = pos_of_nonneg (st (pos e) (pos s)) (nat e s) in
      let (lt, fixed) = (ok_all.1 s (omega arith) (omega arith)).1 e (omega arith) h in
      (t, q, subst (IsStart n nf) q (lt, inl fixed))

  independent-Commute :
      TablesOk n n_e nf st p
      → (a b s : ℕ) → IsIndependent n_e p a b
      → IsStart n nf (pos s)
      → st (pos b) (st (pos a) (pos s)) ≡ st (pos a) (st (pos b) (pos s))
  independent-Commute ok_all a b s (inl e) start = rw e
  independent-Commute ok_all a b s (inr (inl d)) start =
      sym ((ok_all.1 s (omega arith) (omega arith)).2 start (pos a, pos b) d)
  independent-Commute ok_all a b s (inr (inr d)) start =
      (ok_all.1 s (omega arith) (omega arith)).2 start (pos b, pos a) d

  pub Reorders-run :
      {xs ys : List ℕ}
      → IsNatural st
      → TablesOk n n_e nf st p
      → Reorders (IsIndependent n_e p) xs ys
      → All (λ e. e < n_e) xs
      → (s : ℕ) → IsStart n nf (pos s)
      → run_events st xs (pos s) ≡ run_events st ys (pos s)
  Reorders-run nat ok_all same a s start = refl
  Reorders-run nat ok_all (swap {xs} i) a s start =
      ap (run_events st xs) (independent-Commute ok_all _ _ s i start)
  Reorders-run nat ok_all (skip {x} {xs} {ys} r) a s start =
      let (t, q, start') = step-IsStart nat ok_all x s a.0 start in
      rw q (Reorders-run nat ok_all r a.1 t start')
  Reorders-run nat ok_all (chain r r') a s start =
      Reorders-run nat ok_all r a s start ∙ Reorders-run nat ok_all r' (Reorders-All _ r a) s start

  -- If `F_check_fn` returns `true`, then event sequences that differ by swaps of neighbouring
  -- declared pairs lead every start state, a valid state or state 0, to the same state. The sizes
  -- are int64, the events are below `nE`, and `st` is non-negative as the oracle requires.
  pub check_fn_converges :
      {xs ys : List ℕ}
      → n < 2 ^ 63
      → n_e < 2 ^ 63 - 1
      → IsNatural st
      → check_fn (pos n) (pos n_e) nf st p ≡ ok true
      → Reorders (IsIndependent n_e p) xs ys
      → All (λ e. e < n_e) xs
      → (s : ℕ) → IsStart n nf (pos s)
      → run_events st xs (pos s) ≡ run_events st ys (pos s)
  check_fn_converges hn h nat e =
      Reorders-run nat (Decides-true _ (check_fn-Decides n n_e nf st p hn h) e)
