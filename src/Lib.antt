-- ===== src/Lib.antt =====
-- A verification library of the Go code of this repository: the oracle that checks state machines for
-- convergence (coq/goextract/oracle) and its command-line front ends (coq/goextract/cmd). The oracle is
-- generated from Rocq proofs by coq/goextract/gogen; what is modelled here is the Go that runs.
--
-- Parts, and the files that model them:
--   Common            shared names, lists, integers, texts, `Run`, the result of a call of the
--                     generated Go (a value or a panic), `Result`, a reader of input that may end the
--                     run with a message, and `Disk`, the file system.
--   Oracle            coq/goextract/oracle/oracle_gen.go. A function `F_fooB` is `foo_b` here;
--                     F_length, F_map, F_existsb and F_app are `length_run`, `map_run`, `eval_any`
--                     and the library's `++`. The
--                     generic structs I_list, I_option and I_prod are lists, options and pairs.
--     Prims           the checked int64 arithmetic that coq/goextract/gogen/prims.go writes at the end
--                     of that file; Prims/Exact and Prims/Product compare it with exact
--                     arithmetic.
--     Loops           the loops over counters and lists; Loops/Total and Loops/Pairs say what they
--                     return.
--     TableFn         F_check_fn and what it calls; TableFn/Spec is the specification, Decides
--                     compares the code with it, Converges and Order are about what a `true` is
--                     worth.
--     Lists           the list functions that the rules oracle calls; Lists/Members says what they
--                     return.
--     Positive        the arithmetic over binary digits (F_eqb, F_iter_op, F_natZF); Positive/Exact
--                     compares it with exact arithmetic. Positive/Sums has F_succ, F_add and
--                     F_add_carry, and Positive/Carry compares them with exact sums.
--     Prims/Within    sums and differences of numbers within bounds.
--     Rules           the rules oracle: machines as data, and the evaluation of expressions and
--                     predicates. Rules/Step is one event with the repair after it, Rules/Box the list
--                     of all states, Rules/Build the checks of F_checkBuild; Step/Keeps, Box/Range,
--                     Build/Sound, Build/Converges and Build/Order are about what they are worth;
--                     Build/Bounds, Build/Total and Build/Runs about panics; Build/Enclosed and
--                     Build/Signs about F_lo, F_hi and F_signSafe.
--     Trie            the 16-way tries F_of_listV and F_vlook; Trie/Select, Trie/Groups, Trie/Lookup and
--                     Trie/Contents are about what a lookup finds.
--     Blocks, Packed  blocks of 16 entries, and the scan of packed tables, F_scanC. Blocks/Cells,
--                     Windows, Loops and Pending are about the entries that blocks hold, Packed/Columns,
--                     Pairs and Scan about what F_scanC decides.
--     Fast            the table oracle over lists, F_check_fast: Fast/Entries and Fast/Pairs are about
--                     its loops, Fast/Columns and Fast/Rows about the cells that it makes of the lists,
--                     Fast/Table and Fast/Scan about its scan of the cells, and Fast/Sound about the
--                     tables that it accepts.
--     Rules/Listed    F_checkBuildT, the rules oracle over a list of the states, on the cells of Fast;
--                     no command calls it, and nothing is proved of it.
--     Rules/Compact   F_checkBuildC, on the functions of Blocks and Packed; Compact/States and
--                     Compact/Visits are about the order in which F_foldB visits the states, and
--                     Compact/FirstPass, Compact/Lookup and Compact/Agrees about the pass that
--                     repairs them, Compact/Numbering about F_enc, Compact/Columns, SecondPass
--                     and Tables about the tables that the second pass makes, and
--                     Compact/Commutes, Pairs and Sound about the machines that it accepts.
--   TableCheck        coq/goextract/cmd/tablecheck/main.go: Parse (with Parse/Bounds) reads the tokens,
--                     Accessors are the closures handed to F_check_fn, Exits the ways to end, and
--                     Guarantee the properties of the whole command.
--   RuleCheck         coq/goextract/cmd/rulecheck/main.go: Sexp is tokenize and parseAll (Sexp/Fuel,
--                     Sexp/Print and Sexp/RoundTrip are about them), Numbers and Building the readers
--                     of numbers with the global variables, Build the readers of expressions,
--                     predicates and transforms, MachineFile buildMachine, Pairs readPairs, Judge the
--                     calls of the oracle in main, and Exits the ways to end. Build/Keeps and
--                     Build/Rules, MachineFile/Domains, Accepts, Loop, Fragment and Buildable, and
--                     Pairs/Events are about what the readers accept; Guarantee and Exit are about
--                     the exits of the whole command, and Verdicts and Lines about the lines that it
--                     prints.
--   Tests             runs on concrete inputs, and the theorems applied to them.
--
-- How the model corresponds to the code. An int64 is the integer (`ℤ`) that it stands for, and Go's
-- wrapping is the function `wrap64`. The generated functions panic where a nat is negative or a result
-- leaves int64, so every function that can panic returns a `Run`, and theorems that a call returns
-- exclude the panic. The accessors that the caller of F_check_fn passes are pure and total functions on
-- `ℤ`, as the oracle requires of them; where a theorem needs that they return no negative number, that
-- is a hypothesis (`IsNatural`). Loops recur on
-- their own counter or list. Two functions of the oracle halve a number until it is 1 (F_eqb and
-- F_iter_op), and they recur on fuel: 63 rounds, which is enough for every int64. F_normalize and
-- F_natZF carry fuel in the Go code itself.
--
-- F_vget and F_dsel compare in nested switches: here `select` and `pick` take the 16 results as
-- arguments, and a callback of 16 arguments is `Fn16`. The entries of a trie and of a block are
-- fields of one constructor with 16 arguments, as in the Go structs.
--
-- A callback that Go builds in place has a name of its own here (settles, commutes_at, pair_ok_a,
-- pairs_from, violated), and F_forallb, F_existsb and F_flat_map at a list of predicates are functions
-- that recur together with F_evalP and F_exprsP.
--
-- In rulecheck the global variables nvars and outOfFragment are a record that the readers pass on
-- (`Globals`), failf and catch are the errors of a `Result`, and the recursion of parse goes by fuel,
-- twice the number of tokens and two more.
--
-- In tablecheck the tokens that the cursor `pos` has not reached are a list, an error that ends the
-- process is a value (`Input`). In both commands the calls of the operating system, os.Stat and
-- os.ReadFile, are the record `Disk`. The text of the messages is not modelled, only which message is
-- printed and with which values. Memory is unlimited: a `make` of any size succeeds.
--
-- Not modelled: of oracle_gen.go, the products, comparisons and differences of binary numbers that no entry
-- point calls (F_mul, F_compare_cont, F_pos_sub, F_double and the like); and the code generator
-- coq/goextract/gogen. coq/goextract/primcheck, semantics and fixture are generated
-- test programs, and research holds experiments.
pub mod Common
pub mod Oracle
pub mod TableCheck
pub mod RuleCheck
pub mod Tests
