-- ===== src/RuleCheck.antt =====
-- Command rulecheck, coq/goextract/cmd/rulecheck/main.go: the front end of the rules oracle. Its
-- S-expressions are in RuleCheck/Sexp, the readers of a machine in RuleCheck/Build and
-- RuleCheck/MachineFile, and the pairs file in RuleCheck/Pairs.
pub mod Failures
pub mod Sexp
pub mod Numbers
pub mod Building
pub mod Build
pub mod MachineFile
pub mod Pairs
pub mod Exits
pub mod Judge
pub mod Guarantee
pub mod Exit
pub mod Verdicts
pub mod Lines
use normalization_confluence.Common.{
  ℕ, ◌*◌, ◌≡◌, Bool, true, false, not, Option, none, some, List, [], ◌∷◌, if◌then◌else◌, ltb,
  length,
}
use normalization_confluence.Common.Int.{ℤ}
use normalization_confluence.Common.Run.{Run, ok, panic}
use normalization_confluence.Common.Text.{Bytes}
use normalization_confluence.Common.Disk.{Disk}
use normalization_confluence.Common.Result.{Result, read, fail_input, fail_if, ◌>>=◌, ◌>>◌}
use normalization_confluence.Oracle.Rules.{Machine}
use Building.{Globals}
use Judge.{report}
use Sexp.{tokenize, parse_all}
use MachineFile.{build_machine}
use Pairs.{read_pairs}
use Exits.{
  FileError, stat_failed, too_large, read_failed, Outcome, usage, cannot_read_machine,
  outside_fragment, parse_error, pairs_error, cannot_read_pairs,
}

-- A result, or the error that `exit` makes of what failed.
abbrev pub or_else {ℓ} : {E F : Type 0} {A : Type ℓ} → Result E A → (E → F) → Result F A
or_else (read a) exit = read a
or_else (fail_input e) exit = fail_input (exit e)

abbrev pub present {ℓ} : {E : Type 0} {A : Type ℓ} → Option A → E → Result E A
present (some a) e = read a
present none e = fail_input e

unfoldable pub read_all : Disk → Bytes → Result FileError Bytes
unfolding fail_if
read_all disk path = do
  size ← present (disk.stat path) stat_failed
  fail_if (ltb (64 * 1024 * 1024) size) too_large
  present (disk.read_file path) read_failed

-- `main` up to the machine of the file at `path`.
unfoldable pub load_machine : Disk → Bytes → Result Outcome (Machine × Globals)
unfolding read_all
load_machine disk path = do
  content ← or_else (read_all disk path) (λ _. cannot_read_machine)
  forms ← or_else (parse_all (tokenize content)) parse_error
  or_else (build_machine forms) parse_error

-- The declared pairs, for `nevents` events: every pair, if there is no pairs file.
unfoldable pub load_pairs : Disk → Option Bytes → ℕ → Result Outcome (Option (List (ℤ × ℤ)))
unfolding read_all
load_pairs disk none nevents = read none
load_pairs disk (some path) nevents = do
  content ← or_else (read_all disk path) cannot_read_pairs
  or_else (read_pairs content nevents) pairs_error

abbrev either : Result Outcome Outcome → Outcome
either (read o) = o
either (fail_input o) = o

-- `main` from the files to the exit.
unfoldable pub run : Disk → Bytes → Option Bytes → Outcome
unfolding load_machine load_pairs report
run disk path pairs_path = either (do
  (m, g) ← load_machine disk path
  p ← load_pairs disk pairs_path (length m.evs)
  read (if g.out_of_fragment then outside_fragment else report m p))

-- `args` is os.Args, the name of the program first.
unfoldable pub main : Disk → List Bytes → Outcome
unfolding run
main disk (_ ∷ path ∷ []) = run disk path none
main disk (_ ∷ path ∷ pairs_path ∷ []) = run disk path (some pairs_path)
main disk _ = usage
