-- ===== src/Oracle/TableFn.antt =====
-- The table oracle over accessors: F_check_fn of coq/goextract/oracle/oracle_gen.go and the
-- functions that it alone calls. `nf` and `st` are pure and total, as the oracle requires.
pub mod Spec
pub mod Decides
pub mod Converges
pub mod Order
use normalization_confluence.Common.{
  Bool, true, false, not, ◌&&◌, ◌||◌, Option, none, some, List, [], ◌∷◌, if◌then◌else◌,
}
use normalization_confluence.Common.Int.{ℤ, pos, ltb_ℤ, eqb_ℤ}
use normalization_confluence.Common.Run.{Run, ok, ◌>>=◌, and_run}
use normalization_confluence.Oracle.Loops.{all_k, forallb, all_pairs_t}

-- The declared pairs; `none` declares every pair.
unfoldable pub pairs_of_t : ℤ → Option (List (ℤ × ℤ)) → Run (List (ℤ × ℤ))
pairs_of_t n_e (some l) = ok l
pairs_of_t n_e none = all_pairs_t n_e

unfoldable pub pairs_ok_w : ℤ → Option (List (ℤ × ℤ)) → Run Bool
pairs_ok_w n_e p = do l ← pairs_of_t n_e p; forallb (λ q. ok (ltb_ℤ q.0 n_e && ltb_ℤ q.1 n_e)) l

-- A valid state: in range, and its own normal form.
unfoldable pub in_vf : ℤ → (ℤ → ℤ) → ℤ → Bool
in_vf n nf x = ltb_ℤ x n && eqb_ℤ (nf x) x

-- A valid state, or the zero state.
unfoldable pub in_df : ℤ → (ℤ → ℤ) → ℤ → Bool
in_df n nf s = ltb_ℤ s n && (if eqb_ℤ (nf s) s then true else eqb_ℤ s (pos 0))

unfoldable pub pair_ok_f : (ℤ → ℤ → ℤ) → ℤ → ℤ × ℤ → Bool
pair_ok_f st s p = eqb_ℤ (st p.0 (st p.1 s)) (st p.1 (st p.0 s))

unfoldable pub comm_f : (ℤ → ℤ → ℤ) → ℤ → List (ℤ × ℤ) → Bool
comm_f st s [] = true
comm_f st s (p ∷ t) = pair_ok_f st s p && comm_f st s t

abbrev pub implb : Bool → Bool → Bool
implb a b = if a then b else true

unfoldable pub state_ok_f : ℤ → ℤ → (ℤ → ℤ) → (ℤ → ℤ → ℤ) → List (ℤ × ℤ) → ℤ → Run Bool
state_ok_f n n_e nf st rp s =
    and_run (and_run (ok (in_vf n nf (nf s))) (all_k (λ e. ok (in_vf n nf (st e s))) (pos 0) n_e))
      (ok (implb (in_df n nf s) (comm_f st s rp)))

unfoldable pub check_fn : ℤ → ℤ → (ℤ → ℤ) → (ℤ → ℤ → ℤ) → Option (List (ℤ × ℤ)) → Run Bool
check_fn n n_e nf st p =
    and_run (pairs_ok_w n_e p)
      (pairs_of_t n_e p >>= λ rp. all_k (state_ok_f n n_e nf st rp) (pos 0) n)
