-- ===== src/Oracle/Rules/Build/Order.antt =====
-- What a `true` of F_checkBuild is worth for permutations of events, with every pair declared.
use mathlib.Core.Logic.{∥∥₁_elim}
use mathlib.Core.List.{Perm}
use native.Mathlib.Decide.{dec_lt, ℕ_discrete}
use normalization_confluence.Common.{
  ℕ, ◌≤◌, ◌<◌, ◌≡◌, refl, sym, ◌∙◌, true, none, List, arith, inl, inr, All, same, Permᴰ-Reorders,
  All-map, length,
}
use normalization_confluence.Common.Int.{ℤ, pos, IsI64}
use normalization_confluence.Common.Run.{Run, ok}
use normalization_confluence.Oracle.Rules.{Machine, State}
use normalization_confluence.Oracle.Rules.Build.{check_build}
use normalization_confluence.Oracle.Rules.Build.Sound.{MayStart}
use normalization_confluence.Oracle.Rules.Build.Converges.{
  run_steps, MaySwap, IsPaired, check_build_converges,
}

Run_set : IsSet (Run State)
Run_set = hlevel

-- The number of an event of the machine.
abbrev pub IsEvent : Machine → ℤ → Type 0
IsEvent m x = (a : ℕ) × (x ≡ pos a) × (a < length m.evs)

IsEvent-MaySwap : (m : Machine) (x y : ℤ) → IsEvent m x → IsEvent m y → MaySwap m none x y
IsEvent-MaySwap m x y (a, q, ha) (b, q', hb) = elim (dec_lt a b) [
  | yes lt ↦ inr (inl (a, b, rw q (rw q' refl), omega arith, lt, hb))
  | no ge ↦ elim (dec_lt b a) [
    | yes gt ↦ inr (inr (b, a, rw q (rw q' refl), omega arith, gt, ha))
    | no le ↦ let e : a ≡ b = omega arith in inl (cc)
  ]
]

-- Every event has a partner, if there are two events or more.
IsEvent-IsPaired : (m : Machine) (x : ℤ) → 2 ≤ length m.evs → IsEvent m x → IsPaired m none x
IsEvent-IsPaired m x two (a, q, ha) = elim (ℕ_discrete a 0) [
  | yes e ↦ (pos 1, inl (0, 1, rw q (rw e refl), omega arith, omega arith, omega arith))
  | no ne ↦ (pos 0, inr (0, a, rw q refl, omega arith, omega arith, ha))
]

-- If `F_checkBuild` returns `true` for a machine of two events or more with every pair declared,
-- then any permutation of a sequence of its events runs without a panic from every state that
-- events may start from, and leads to the same such state. The sizes of the domains are int64.
pub check_build-perm :
    (m : Machine) {xs ys : List ℤ}
    → All IsI64 m.doms
    → 2 ≤ length m.evs
    → check_build m none ≡ ok true
    → Perm xs ys
    → All (IsEvent m) xs
    → (v : State) → MayStart m v
    → (t : State) × (run_steps m xs v ≡ ok t) × (run_steps m ys v ≡ ok t) × MayStart m t
check_build-perm m {xs} {ys} bounds two h perm a v may =
    let paired = All-map xs (λ x e. IsEvent-IsPaired m x two e) a in
    let (t, e, _, may') = check_build_converges m none bounds h same paired v may in
    let q : run_steps m ys v ≡ ok t = ∥∥₁_elim perm (Run_set _ _) λ d.
      let (u, e₁, e₂, _) =
        check_build_converges m none bounds h (Permᴰ-Reorders (IsEvent m) (IsEvent-MaySwap m) d a)
          paired v may in
      e₂ ∙ sym e₁ ∙ e in
    (t, e, q, may')
