-- ===== src/RuleCheck/Sexp/RoundTrip.antt =====
-- The parser of coq/goextract/cmd/rulecheck/main.go on the tokens of an S-expression.
use normalization_confluence.Common.{
  ℕ, zero, suc, ◌+◌, ◌*◌, ◌≤◌, ◌≡◌, refl, ap, ◌∙◌, List, [], ◌∷◌, arith, length,
}
use normalization_confluence.Common.Text.{Bytes, codes, eq_bytes}
use normalization_confluence.Common.Result.{read, ◌>>=◌}
use normalization_confluence.RuleCheck.Sexp.{
  Sexp, Forms, atom, list, nil, cons, kind, token, word, tokenize, parse, parse_list, parse_forms,
  parse_all,
}
use normalization_confluence.RuleCheck.Sexp.Print.{
  IsWord, Spelled, AllSpelled, print_forms, tokens, tokens_forms, scan-print_forms,
}

-- The fuel that the parser uses up on a form, and on a list of forms.
abbrev mutual
  size : Sexp → ℕ
  size (atom _) = 1
  size (list l) = 1 + size_forms l

  size_forms : Forms → ℕ
  size_forms nil = 1
  size_forms (cons x xs) = 1 + size x + size_forms xs

mutual
  unfolding tokens

  size-tokens :
      (x : Sexp) (rest : List Bytes) → size x + 1 + 2 * length rest ≤ 2 * length (tokens x rest)
  size-tokens (atom a) rest = omega arith
  size-tokens (list l) rest = let ih = size_forms-tokens l (codes ")" ∷ rest) in omega arith

  size_forms-tokens :
      (l : Forms) (rest : List Bytes)
      → size_forms l + 2 * length rest ≤ 2 * length (tokens_forms l rest) + 1
  size_forms-tokens nil rest = omega arith
  size_forms-tokens (cons x xs) rest =
      let ih = size-tokens x (tokens_forms xs rest) in
      let ih' = size_forms-tokens xs rest in omega arith

token-word : (a : Bytes) → IsWord a → token a ≡ word
unfolding token eq_bytes kind
token-word [] h = elim h [ ]
token-word (c ∷ s) h = ground arith

parse-word :
    (f : ℕ) (a : Bytes) (rest : List Bytes)
    → IsWord a
    → parse (suc f) (a ∷ rest) ≡ read (atom a, rest)
unfolding parse
parse-word f a rest h = rw (token-word a h, parse) refl

-- The loop of `parse` reads one more form where the next token is not `)`.
parse_list-step :
    (f : ℕ) (x : Sexp) (rest : List Bytes)
    → Spelled x
    → parse_list (suc f) (tokens x rest)
      ≡ (parse f (tokens x rest) >>= λ q. parse_list f q.1 >>= λ q'. read (cons q.0 q'.0, q'.1))
unfolding parse tokens
parse_list-step f (atom a) rest h = rw (token-word a h, parse_list) refl
parse_list-step f (list l) rest h = refl

parse_forms-step :
    (f : ℕ) (x : Sexp) (rest : List Bytes)
    → parse_forms (suc f) (tokens x rest)
      ≡ (parse f (tokens x rest) >>= λ q. parse_forms f q.1 >>= λ xs. read (cons q.0 xs))
unfolding parse_forms tokens
parse_forms-step f (atom a) rest = refl
parse_forms-step f (list l) rest = refl

mutual
  unfolding parse tokens

  parse-tokens :
      (f : ℕ) (x : Sexp) (rest : List Bytes)
      → Spelled x
      → size x ≤ f
      → parse f (tokens x rest) ≡ read (x, rest)
  parse-tokens zero (atom a) rest h le = absurd (omega arith)
  parse-tokens zero (list l) rest h le = absurd (omega arith)
  parse-tokens (suc f) (atom a) rest h le = parse-word f a rest h
  parse-tokens (suc f) (list l) rest h le =
      ap (λ m. m >>= λ q. read (list q.0, q.1)) (parse_list-tokens f l rest h (omega arith))

  parse_list-tokens :
      (f : ℕ) (l : Forms) (rest : List Bytes)
      → AllSpelled l
      → size_forms l ≤ f
      → parse_list f (tokens_forms l (codes ")" ∷ rest)) ≡ read (l, rest)
  parse_list-tokens zero nil rest h le = absurd (omega arith)
  parse_list-tokens zero (cons x xs) rest h le = absurd (omega arith)
  parse_list-tokens (suc f) nil rest h le = refl
  parse_list-tokens (suc f) (cons x xs) rest h le =
      parse_list-step f x (tokens_forms xs (codes ")" ∷ rest)) h.0
      ∙ ap (λ m. m >>= λ q. parse_list f q.1 >>= λ q'. read (cons q.0 q'.0, q'.1))
          (parse-tokens f x (tokens_forms xs (codes ")" ∷ rest)) h.0 (omega arith))
      ∙ ap (λ m. m >>= λ q'. read (cons x q'.0, q'.1))
          (parse_list-tokens f xs rest h.1 (omega arith))

parse_forms-tokens :
    (f : ℕ) (l : Forms)
    → AllSpelled l
    → size_forms l ≤ f
    → parse_forms f (tokens_forms l []) ≡ read l
unfolding parse_forms tokens
parse_forms-tokens f nil h le = refl
parse_forms-tokens zero (cons x xs) h le = absurd (omega arith)
parse_forms-tokens (suc f) (cons x xs) h le =
    parse_forms-step f x (tokens_forms xs [])
    ∙ ap (λ m. m >>= λ q. parse_forms f q.1 >>= λ l. read (cons q.0 l))
        (parse-tokens f x (tokens_forms xs []) h.0 (omega arith))
    ∙ ap (λ m. m >>= λ l. read (cons x l)) (parse_forms-tokens f xs h.1 (omega arith))

-- Print and parse: the text of forms whose atoms are non-empty and free of blanks and parentheses
-- parses to those forms.
pub parse_all-print : (l : Forms) → AllSpelled l → parse_all (tokenize (print_forms l [])) ≡ read l
unfolding parse_all tokenize
parse_all-print l h =
    ap (λ ts. parse_forms (2 * length ts + 2) ts) (scan-print_forms l [] h)
    ∙ parse_forms-tokens (2 * length (tokens_forms l []) + 2) l h
        (let b = size_forms-tokens l [] in omega arith)
