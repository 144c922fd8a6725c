-- ===== src/TableCheck/Parse.antt =====
-- The parser of coq/goextract/cmd/tablecheck/main.go, from the tokens of a file to its tables. The
-- cursor `pos` into `toks` is the list of the tokens that are left.
pub mod Bounds
use normalization_confluence.Common.{
  ℕ, zero, suc, ◌+◌, ◌*◌, Bool, true, false, not, ◌&&◌, ◌||◌, Option, none, some, List, [], ◌∷◌,
  if◌then◌else◌, length, ltb, leb, ◌==◌,
}
use normalization_confluence.Common.Int.{ℤ, pos, ltb_ℤ, eqb_ℤ, wrap64}
use normalization_confluence.Common.Text.{Bytes, codes, eq_bytes, all_digits, digits_value}
use normalization_confluence.TableCheck.Exits.{
  What, format_version, n_size, n_e_size, nf_entry, pair_count_or_all, pair_event, step_entry,
  keyword_nf, keyword_pairs, keyword_gsm_tables, InputError, not_decimal, out_of_range,
  unsupported_version, unexpected_end, expected_keyword, empty_states, expected_step_entries,
  expected_pair_entries, event_past_end, wrong_step_entries, Input,
}
use normalization_confluence.Common.Result.{read, fail_if, ◌>>=◌, ◌>>◌, fail_input}

-- A non-negative decimal integer below 2 ^ 31. (ParseInt fails only past int64, on no text of at
-- most 10 digits.)
unfoldable pub nat_of : Bytes → Input ℕ
unfolding fail_if
nat_of s = do
  fail_if (length s == 0 || ltb 10 (length s)) (not_decimal s)
  fail_if (not (all_digits s)) (not_decimal s)
  fail_if (ltb 2147483647 (digits_value 0 s)) (out_of_range s)
  read (digits_value 0 s)

abbrev pub Reader : Type 0 → Type 0
Reader A = List Bytes → Input (A × List Bytes)

unfoldable pub next : What → Reader Bytes
next what [] = fail_input (unexpected_end what)
next what (t ∷ toks) = read (t, toks)

unfoldable pub keyword : What → Bytes → Reader (Unit {0})
unfolding next fail_if
keyword what k toks = do
  (t, rest) ← next what toks
  fail_if (not (eq_bytes t k)) (expected_keyword what t)
  read (tt, rest)

unfoldable pub nat : What → Reader ℕ
unfolding next nat_of
nat what toks = do (t, rest) ← next what toks; v ← nat_of t; read (v, rest)

-- `k` entries, one after the other.
unfoldable pub nats : What → ℕ → Reader (List ℕ)
nats what zero toks = read ([], toks)
nats what (suc k) toks = do
  (v, rest) ← nat what toks
  (vs, rest') ← nats what k rest
  read (v ∷ vs, rest')

-- The step entries: `n_e` rows of `n`.
unfoldable pub step_rows : ℕ → ℕ → Reader (List (List ℕ))
step_rows n zero toks = read ([], toks)
step_rows n (suc n_e) toks = do
  (row, rest) ← nats step_entry n toks
  (rows, rest') ← step_rows n n_e rest
  read (row ∷ rows, rest')

unfoldable pub declared_pairs : ℕ → ℕ → Reader (List (ℤ × ℤ))
unfolding nat fail_if
declared_pairs n_e zero toks = read ([], toks)
declared_pairs n_e (suc k) toks = do
  (a, rest) ← nat pair_event toks
  (b, rest') ← nat pair_event rest
  fail_if (leb n_e a || leb n_e b) (event_past_end (pos a) (pos b) (pos n_e))
  (ps, end) ← declared_pairs n_e k rest'
  read ((pos a, pos b) ∷ ps, end)

-- A product of int64.
abbrev pub mul64 : ℕ → ℕ → ℤ
mul64 a b = wrap64 (pos (a * b))

-- Whether the next token is `k`.
unfoldable pub at_token : Bytes → List Bytes → Bool
at_token k [] = false
at_token k (t ∷ _) = eq_bytes t k

-- `v2`, with the `gsm-tables 2` in front of the tokens taken off; the flag is `v2`.
unfoldable pub version_tokens : Bool → List Bytes → Input (Bool × List Bytes)
unfolding keyword next
version_tokens false toks = read (false, toks)
version_tokens true toks = do
  (_, rest) ← keyword keyword_gsm_tables (codes "gsm-tables") toks
  (ver, rest') ← next format_version rest
  fail_if (not (eq_bytes ver (codes "2"))) (unsupported_version ver)
  read (true, rest')

unfoldable pub read_version : List Bytes → Input (Bool × List Bytes)
unfolding at_token version_tokens
read_version toks = version_tokens (at_token (codes "gsm-tables") toks) toks

abbrev rest_of : List Bytes → List Bytes
rest_of [] = []
rest_of (_ ∷ toks) = toks

-- `all`, or a count and that many pairs; the flag is whether the next token is `all`.
unfoldable pub pair_tokens : Bool → ℕ → Reader (Option (List (ℤ × ℤ)))
unfolding nat declared_pairs
pair_tokens true n_e toks = read (none, rest_of toks)
pair_tokens false n_e toks = do
  (k, rest) ← nat pair_count_or_all toks
  fail_if (ltb_ℤ (pos (length rest)) (mul64 2 k)) (expected_pair_entries (mul64 2 k))
  (ps, end) ← declared_pairs n_e k rest
  read (some ps, end)

unfoldable pub read_pairs : ℕ → Reader (Option (List (ℤ × ℤ)))
unfolding at_token pair_tokens
read_pairs n_e toks = pair_tokens (at_token (codes "all") toks) n_e toks

-- `k` numbers from `i` on: from 0, the identity table of version 1.
unfoldable pub identity_from : ℕ → ℕ → List ℕ
identity_from i zero = []
identity_from i (suc k) = i ∷ identity_from (i + 1) k

-- The normal forms and the declared pairs: version 2 gives them, version 1 has the identity and
-- every pair.
unfoldable pub read_header : Bool → ℕ → ℕ → Reader (List ℕ × Option (List (ℤ × ℤ)))
unfolding keyword nats read_pairs identity_from
read_header false n n_e toks = read ((identity_from 0 n, none), toks)
read_header true n n_e toks = do
  (_, at_nf) ← keyword keyword_nf (codes "nf") toks
  (nf, after_nf) ← nats nf_entry n at_nf
  (_, at_pairs) ← keyword keyword_pairs (codes "pairs") after_nf
  (ps, end) ← read_pairs n_e at_pairs
  read ((nf, ps), end)

pub record Tables : Type 0 where
  pub n : ℕ
  pub n_e : ℕ
  pub nf : List ℕ
  pub pairs : Option (List (ℤ × ℤ))
  pub rows : List (List ℕ)

-- `main` from the tokens to the parsed rows. Every entry is one token, so both tests of the number
-- of tokens come before the entries are read.
unfoldable pub read_tables : List Bytes → Input Tables
unfolding nat read_header read_version step_rows
read_tables toks = do
  (v2, at_n) ← read_version toks
  (n, at_n_e) ← nat n_size at_n
  (n_e, at_header) ← nat n_e_size at_n_e
  fail_if (ltb n 1) empty_states
  fail_if (ltb_ℤ (pos (length toks)) (mul64 n n_e))
      (expected_step_entries (mul64 n n_e) (pos n) (pos n_e))
  (h, at_rows) ← read_header v2 n n_e at_header
  fail_if (not (eqb_ℤ (pos (length at_rows)) (mul64 n n_e)))
      (wrong_step_entries (mul64 n n_e) (pos n) (pos n_e) (length at_rows))
  (rows, _) ← step_rows n n_e at_rows
  read (record { n = n; n_e = n_e; nf = h.0; pairs = h.1; rows = rows })
