-- ===== src/Oracle/TableFn/Order.antt =====
-- What a `true` of F_check_fn is worth for permutations of events, with every pair declared.
use mathlib.Core.Logic.{∥∥₁_elim}
use mathlib.Core.List.{Perm}
use native.Mathlib.Decide.{dec_lt}
use normalization_confluence.Common.{
  ℕ, ◌-◌, ◌^◌, ◌<◌, ◌≡◌, refl, true, none, List, arith, inl, inr, All, Permᴰ-Reorders,
}
use normalization_confluence.Common.Int.{ℤ, pos, ℤ_set}
use normalization_confluence.Common.Run.{ok}
use normalization_confluence.Oracle.TableFn.{check_fn}
use normalization_confluence.Oracle.TableFn.Spec.{IsStart}
use normalization_confluence.Oracle.TableFn.Converges.{
  run_events, IsIndependent, IsNatural, check_fn_converges,
}

-- Any two events below `n_e` are independent, if every pair is declared.
IsIndependent-all : (n_e a b : ℕ) → a < n_e → b < n_e → IsIndependent n_e none a b
IsIndependent-all n_e a b ha hb = elim (dec_lt a b) [
  | yes lt ↦ inr (inl (a, b, refl, omega arith, lt, hb))
  | no ge ↦ elim (dec_lt b a) [
    | yes gt ↦ inr (inr (b, a, refl, omega arith, gt, ha))
    | no le ↦ inl (omega arith)
  ]
]

-- If `F_check_fn` returns `true` with every pair declared, then any permutation of a sequence of
-- events leads every start state to the same state. The sizes are int64, the events are below
-- `nE`, and `st` is non-negative as the oracle requires.
pub check_fn-perm :
    (n n_e : ℕ) (nf : ℤ → ℤ) (st : ℤ → ℤ → ℤ) {xs ys : List ℕ}
    → n < 2 ^ 63
    → n_e < 2 ^ 63 - 1
    → IsNatural st
    → check_fn (pos n) (pos n_e) nf st none ≡ ok true
    → Perm xs ys
    → All (λ e. e < n_e) xs
    → (s : ℕ) → IsStart n nf (pos s)
    → run_events st xs (pos s) ≡ run_events st ys (pos s)
check_fn-perm n n_e nf st hn h nat e perm a s start = ∥∥₁_elim perm (ℤ_set _ _) λ d.
    check_fn_converges n n_e nf st none hn h nat e
      (Permᴰ-Reorders (λ x. x < n_e) (IsIndependent-all n_e) d a) a s start
