-- ===== src/TableCheck/Guarantee.antt =====
-- The exits of command tablecheck (coq/goextract/cmd/tablecheck/main.go), compared with the tables in
-- the file.
use normalization_confluence.Common.{
  ℕ, ◌-◌, ◌*◌, ltb, ◌^◌, ◌<◌, ◌≡◌, refl, true, false, Option, List, [], ◌∷◌, arith, All, Reorders,
}
use normalization_confluence.Common.Int.{ℤ, pos}
use normalization_confluence.Common.Run.{ok, panic}
use normalization_confluence.Common.Decides.{Decides}
use normalization_confluence.Common.Text.{Bytes, fields}
use normalization_confluence.Oracle.TableFn.{check_fn}
use normalization_confluence.Oracle.TableFn.Spec.{IsStart, TablesOk}
use normalization_confluence.Oracle.TableFn.Decides.{check_fn-Decides}
use normalization_confluence.Oracle.TableFn.Converges.{run_events, IsIndependent, Reorders-run}
use normalization_confluence.Common.Disk.{Disk}
use normalization_confluence.TableCheck.{or_fail, declared_of, load, verdict, main}
use normalization_confluence.TableCheck.Exits.{
  Outcome, Input, verified, not_convergent, input_error, crash, stat_failed, too_large, read_failed,
}
use normalization_confluence.Common.Result.{
  read, fail_input, Ensures, Ensures->>=, Ensures-any, fail_if,
}
use normalization_confluence.TableCheck.Accessors.{nf_a, st_a, st_a-IsNatural}
use normalization_confluence.TableCheck.Parse.{Tables}
use normalization_confluence.TableCheck.Parse.Bounds.{IsWellFormed, read_tables-IsWellFormed}

-- The tables of a file converge, by the specification of the oracle.
abbrev pub Converge : Tables → Type 0
Converge t = TablesOk t.n t.n_e (nf_a t) (st_a t) t.pairs

-- What a verdict says of the tables.
abbrev pub Says : Tables → Outcome → Type 0
Says t (verified n n_e k) =
    (n ≡ pos t.n) × (n_e ≡ pos t.n_e) × (k ≡ declared_of t.pairs) × Converge t
Says t not_convergent = ¬ Converge t
Says t _ = ⊥

verdict-Says : (t : Tables) → IsWellFormed t → Says t (verdict t)
unfolding verdict
verdict-Says t w = go (check_fn-Decides t.n t.n_e (nf_a t) (st_a t) t.pairs w_n w_e)
  where
    w_n : t.n < 2 ^ 63
    w_n = omega (arith, w.n_lt)

    w_e : t.n_e < 2 ^ 63 - 1
    w_e = omega (arith, w.n_e_lt)

    go :
        Decides (check_fn (pos t.n) (pos t.n_e) (nf_a t) (st_a t) t.pairs) (Converge t)
        → Says t (elim (check_fn (pos t.n) (pos t.n_e) (nf_a t) (st_a t) t.pairs) [
          | ok true ↦ verified (pos t.n) (pos t.n_e) (declared_of t.pairs)
          | ok false ↦ not_convergent
          | panic p ↦ crash p
        ])
    go (true, e, f) = rw e (refl, refl, refl, f.0 refl)
    go (false, e, f) = rw e (λ c. cc (f.1 c))

load-IsWellFormed : (disk : Disk) (path : Bytes) → Ensures IsWellFormed (load disk path)
unfolding load
load-IsWellFormed disk path =
    Ensures->>= _ _ (or_fail (disk.stat path) stat_failed) _ (Ensures-any _) λ size _.
      Ensures->>= _ _ (fail_if (ltb (1024 * 1024 * 1024) size) too_large) _ (Ensures-any _) λ _ _.
        Ensures->>= _ _ (or_fail (disk.read_file path) read_failed) _ (Ensures-any _)
          λ raw _. read_tables-IsWellFormed (fields raw)

-- How `main` ends, by how the file was read.
abbrev pub Ends : Input Tables → Outcome → Type 0
Ends (read t) o = Says t o
Ends (fail_input e) o = o ≡ input_error e

-- With one argument, command tablecheck ends in one of three ways, and never in a panic: exit code
-- 2 with the first input error, if the file cannot be read as tables; exit code 0 with the sizes
-- of the tables, and then they satisfy `TablesOk`; or exit code 1, and then they do not.
pub main-Ends :
    (disk : Disk) (program path : Bytes) → Ends (load disk path) (main disk (program ∷ path ∷ []))
unfolding main
main-Ends disk program path = go (load disk path) (load-IsWellFormed disk path)
  where
    go :
        (m : Input Tables)
        → Ensures IsWellFormed m
        → Ends m (elim m [ read t ↦ verdict t | fail_input e ↦ input_error e ])
    go (read t) w = verdict-Says t w
    go (fail_input e) w = refl

-- If command tablecheck exits with code 0 on the tables `t` of a file, then event sequences that
-- differ by swaps of neighbouring declared pairs lead every start state to the same state.
pub main-verified_converges :
    (disk : Disk) (program path : Bytes) (t : Tables) {n n_e : ℤ} {k : Option ℕ} {xs ys : List ℕ}
    → load disk path ≡ read t
    → main disk (program ∷ path ∷ []) ≡ verified n n_e k
    → Reorders (IsIndependent t.n_e t.pairs) xs ys
    → All (λ e. e < t.n_e) xs
    → (s : ℕ) → IsStart t.n (nf_a t) (pos s)
    → run_events (st_a t) xs (pos s) ≡ run_events (st_a t) ys (pos s)
main-verified_converges disk program path t loaded e =
    let says = rw (loaded, e) at (main-Ends disk program path) in
    Reorders-run t.n t.n_e (nf_a t) (st_a t) t.pairs (st_a-IsNatural t) says.3
