-- ===== src/TableCheck.antt =====
-- Command tablecheck, coq/goextract/cmd/tablecheck/main.go: the front end of the table oracle. The
-- operating system is the record `Disk` of Common/Disk; the parser is in TableCheck/Parse, the exits in
-- TableCheck/Exits, and what the command guarantees in TableCheck/Guarantee.
pub mod Exits
pub mod Parse
pub mod Accessors
pub mod Guarantee
use normalization_confluence.Common.{
  ℕ, ◌*◌, Bool, true, false, Option, none, some, List, [], ◌∷◌, if◌then◌else◌, ltb, length,
}
use normalization_confluence.Common.Int.{ℤ, pos}
use normalization_confluence.Common.Run.{Run, ok, panic}
use normalization_confluence.Common.Text.{Bytes, fields}
use normalization_confluence.Common.Disk.{Disk}
use normalization_confluence.Oracle.TableFn.{check_fn}
use Exits.{
  Outcome, InputError, Input, stat_failed, too_large, read_failed, verified, not_convergent, usage,
  input_error, crash,
}
use normalization_confluence.Common.Result.{read, fail_input, fail_if, ◌>>=◌, ◌>>◌}
use Parse.{Tables, read_tables}
use Accessors.{nf_a, st_a}

abbrev or_fail {ℓ} : {A : Type ℓ} → Option A → InputError → Input A
or_fail none e = fail_input e
or_fail (some a) e = read a

-- `main` up to the parsed tables, for the file at `path`.
unfoldable pub load : Disk → Bytes → Input Tables
load disk path = do
  size ← or_fail (disk.stat path) stat_failed
  fail_if (ltb (1024 * 1024 * 1024) size) too_large
  raw ← or_fail (disk.read_file path) read_failed
  read_tables (fields raw)

-- The number of declared pairs, as the last message gives it; `none` is "every pair".
abbrev pub declared_of : Option (List (ℤ × ℤ)) → Option ℕ
declared_of none = none
declared_of (some l) = some (length l)

-- The last lines of `main`: the oracle on the accessors, and the exit.
unfoldable pub verdict : Tables → Outcome
verdict t = elim (check_fn (pos t.n) (pos t.n_e) (nf_a t) (st_a t) t.pairs) [
  | ok true ↦ verified (pos t.n) (pos t.n_e) (declared_of t.pairs)
  | ok false ↦ not_convergent
  | panic p ↦ crash p
]

-- `args` is os.Args, the name of the program first.
unfoldable pub main : Disk → List Bytes → Outcome
unfolding load verdict
main disk (_ ∷ path ∷ []) = elim (load disk path) [
  | read t ↦ verdict t
  | fail_input e ↦ input_error e
]
main disk _ = usage
