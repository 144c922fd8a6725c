-- ===== src/Oracle/TableFn/Spec.antt =====
-- What F_check_fn decides, said of the tables themselves with no loop and no list of pairs.
use normalization_confluence.Common.{ℕ, ◌≤◌, ◌<◌, ◌≡◌, ◌⊎◌, Option, none, some, List, In}
use normalization_confluence.Common.Int.{ℤ, pos, ◌<ℤ◌}
use normalization_confluence.Oracle.Loops.Pairs.{InTriangle}

-- A declared pair of events; with no list, every pair of different events.
abbrev pub IsDeclared : ℕ → Option (List (ℤ × ℤ)) → ℤ × ℤ → Type 0
IsDeclared n_e (some l) p = In p l
IsDeclared n_e none p = InTriangle n_e 0 p

-- A valid state: in range, and its own normal form.
abbrev pub IsValid : ℕ → (ℤ → ℤ) → ℤ → Type 0
IsValid n nf x = (x <ℤ pos n) × (nf x ≡ x)

-- A state that events may start from: valid, or the zero state.
abbrev pub IsStart : ℕ → (ℤ → ℤ) → ℤ → Type 0
IsStart n nf s = (s <ℤ pos n) × ((nf s ≡ s) ⊎ (s ≡ pos 0))

-- Events `a` and `b` commute at `s`.
abbrev pub Commute : (ℤ → ℤ → ℤ) → ℤ → ℤ × ℤ → Type 0
Commute st s p = st p.0 (st p.1 s) ≡ st p.1 (st p.0 s)

-- At state `s`: its normal form and every step land on valid states, and every declared pair
-- commutes, if events may start there.
abbrev pub StateOk : ℕ → ℕ → (ℤ → ℤ) → (ℤ → ℤ → ℤ) → Option (List (ℤ × ℤ)) → ℕ → Type 0
StateOk n n_e nf st p s =
    IsValid n nf (nf (pos s))
    × ((e : ℕ) → 0 ≤ e → e < n_e → IsValid n nf (st (pos e) (pos s)))
    × (IsStart n nf (pos s) → (q : ℤ × ℤ) → IsDeclared n_e p q → Commute st (pos s) q)

-- The tables converge: declared pairs name events below `n_e`, and every state is as it should be.
abbrev pub TablesOk : ℕ → ℕ → (ℤ → ℤ) → (ℤ → ℤ → ℤ) → Option (List (ℤ × ℤ)) → Type 0
TablesOk n n_e nf st p =
    ((q : ℤ × ℤ) → IsDeclared n_e p q → (q.0 <ℤ pos n_e) × (q.1 <ℤ pos n_e))
    × ((s : ℕ) → 0 ≤ s → s < n → StateOk n n_e nf st p s)
