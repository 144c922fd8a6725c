-- ===== src/RuleCheck/Sexp.antt =====
-- S-expressions: the type sexp and the functions tokenize, parseAll, head and isAtom of
-- coq/goextract/cmd/rulecheck/main.go. The recursion of `parse` goes by the tokens left, so it takes
-- fuel here; `parse_all` gives more than it can use (Sexp/Fuel).
pub mod Fuel
pub mod Print
pub mod RoundTrip
use normalization_confluence.Common.{
  ℕ, zero, suc, ◌+◌, ◌*◌, Bool, true, false, ◌||◌, List, [], ◌∷◌, ◌++◌, if◌then◌else◌, length, ◌==◌,
}
use normalization_confluence.Common.Text.{Bytes, codes, eq_bytes}
use normalization_confluence.Common.Result.{read, fail_input, ◌>>=◌}
use normalization_confluence.RuleCheck.Failures.{
  Parsed, unexpected_end, unterminated, unexpected_close, no_fuel,
}

mutual
  pub data Sexp : Type 0 where
    atom : Bytes → Sexp
    list : Forms → Sexp

  -- []sexp
  pub data Forms : Type 0 where
    nil : Forms
    cons : Sexp → Forms → Forms

-- The cases of the switch in `tokenize`.
pub data Kind : Type 0 where
  paren blank other : Kind

unfoldable pub kind : ℕ → Kind
kind c =
    if c == b'(' || c == b')'
    then paren
    else if c == b' ' || (c == b'\t' || (c == b'\n' || c == b'\r'))
    then blank
    else other

-- The pending token, if there is one, in front of the tokens that follow.
unfoldable pub flush : Bytes → List Bytes → List Bytes
flush [] out = out
flush (c ∷ buf) out = (c ∷ buf) ∷ out

-- The tokens of a text, where `buf` is the pending token.
unfoldable pub scan : Bytes → Bytes → List Bytes
unfolding flush kind
scan buf [] = flush buf []
scan buf (c ∷ s) = elim (kind c) [
  | paren ↦ flush buf ((c ∷ []) ∷ scan [] s)
  | blank ↦ flush buf (scan [] s)
  | other ↦ scan (buf ++ c ∷ []) s
]

unfoldable pub tokenize : Bytes → List Bytes
unfolding scan
tokenize s = scan [] s

-- The cases of the switch in `parse`.
pub data Token : Type 0 where
  open_paren close_paren word : Token

unfoldable pub token : Bytes → Token
unfolding eq_bytes
token t =
    if eq_bytes t (codes "(")
    then open_paren
    else if eq_bytes t (codes ")")
    then close_paren
    else word

unfoldable mutual
  unfolding token

  pub parse : ℕ → List Bytes → Parsed (Sexp × List Bytes)
  parse zero toks = fail_input no_fuel
  parse (suc f) [] = fail_input unexpected_end
  parse (suc f) (t ∷ toks) = elim (token t) [
    | open_paren ↦ do (l, rest) ← parse_list f toks; read (list l, rest)
    | close_paren ↦ fail_input unexpected_close
    | word ↦ read (atom t, toks)
  ]

  -- The loop after `(`, up to its `)`.
  pub parse_list : ℕ → List Bytes → Parsed (Forms × List Bytes)
  parse_list zero toks = fail_input no_fuel
  parse_list (suc f) [] = fail_input unterminated
  parse_list (suc f) (t ∷ toks) = elim (token t) [
    | close_paren ↦ read (nil, toks)
    | _ ↦ do
      (x, rest) ← parse f (t ∷ toks)
      (xs, rest') ← parse_list f rest
      read (cons x xs, rest')
  ]

unfoldable pub parse_forms : ℕ → List Bytes → Parsed Forms
unfolding parse
parse_forms f [] = read nil
parse_forms zero (t ∷ toks) = fail_input no_fuel
parse_forms (suc f) (t ∷ toks) = do
  (x, rest) ← parse f (t ∷ toks)
  xs ← parse_forms f rest
  read (cons x xs)

unfoldable pub parse_all : List Bytes → Parsed Forms
unfolding parse_forms
parse_all toks = parse_forms (2 * length toks + 2) toks
