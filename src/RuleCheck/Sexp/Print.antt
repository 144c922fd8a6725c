-- ===== src/RuleCheck/Sexp/Print.antt =====
-- The text of an S-expression, and `tokenize` and `parse_all` on it.
use normalization_confluence.Common.{ℕ, ◌≡◌, refl, ap, ◌∙◌, List, [], ◌∷◌, ◌++◌, All}
use mathlib.Core.List.{append_assoc, append-nil}
use normalization_confluence.Common.Text.{Bytes, codes}
use normalization_confluence.RuleCheck.Sexp.{Sexp, Forms, atom, list, nil, cons, kind, other, scan}

-- A byte that `tokenize` keeps in a token.
abbrev pub IsLetter : ℕ → Type 0
IsLetter c = kind c ≡ other

-- A text that is one token.
abbrev pub IsWord : Bytes → Type 0
IsWord [] = ⊥
IsWord (c ∷ s) = All IsLetter (c ∷ s)

-- Every atom is one token.
abbrev mutual
  pub Spelled : Sexp → Type 0
  Spelled (atom a) = IsWord a
  Spelled (list l) = AllSpelled l

  pub AllSpelled : Forms → Type 0
  AllSpelled nil = Unit
  AllSpelled (cons x xs) = Spelled x × AllSpelled xs

-- The text of an S-expression in front of `rest`, with a blank after each atom.
unfoldable mutual
  pub print : Sexp → Bytes → Bytes
  print (atom a) rest = a ++ b' ' ∷ rest
  print (list l) rest = b'(' ∷ print_forms l (b')' ∷ rest)

  pub print_forms : Forms → Bytes → Bytes
  print_forms nil rest = rest
  print_forms (cons x xs) rest = print x (print_forms xs rest)

-- Its tokens.
unfoldable mutual
  pub tokens : Sexp → List Bytes → List Bytes
  tokens (atom a) rest = a ∷ rest
  tokens (list l) rest = codes "(" ∷ tokens_forms l (codes ")" ∷ rest)

  pub tokens_forms : Forms → List Bytes → List Bytes
  tokens_forms nil rest = rest
  tokens_forms (cons x xs) rest = tokens x (tokens_forms xs rest)

scan-letter :
    (buf : Bytes) (c : ℕ) (s : Bytes) → IsLetter c → scan buf (c ∷ s) ≡ scan (buf ++ c ∷ []) s
unfolding scan
scan-letter buf c s h = rw (h, scan) refl

scan-letters : (buf a rest : Bytes) → All IsLetter a → scan buf (a ++ rest) ≡ scan (buf ++ a) rest
unfolding scan
scan-letters buf [] rest h = rw append-nil refl
scan-letters buf (c ∷ a) rest h =
    scan-letter buf c (a ++ rest) h.0
    ∙ scan-letters (buf ++ c ∷ []) a rest h.1
    ∙ ap (λ b. scan b rest) (append_assoc buf (c ∷ []) a)

scan-word : (a rest : Bytes) → IsWord a → scan [] (a ++ b' ' ∷ rest) ≡ a ∷ scan [] rest
unfolding scan
scan-word [] rest h = elim h [ ]
scan-word (c ∷ a) rest h = scan-letters [] (c ∷ a) (b' ' ∷ rest) h

mutual
  unfolding print tokens scan

  scan-print :
      (x : Sexp) (rest : Bytes) → Spelled x → scan [] (print x rest) ≡ tokens x (scan [] rest)
  scan-print (atom a) rest h = scan-word a rest h
  scan-print (list l) rest h = ap (λ t. codes "(" ∷ t) (scan-print_forms l (b')' ∷ rest) h)

  pub scan-print_forms :
      (l : Forms) (rest : Bytes)
      → AllSpelled l
      → scan [] (print_forms l rest) ≡ tokens_forms l (scan [] rest)
  scan-print_forms nil rest h = refl
  scan-print_forms (cons x xs) rest h =
      scan-print x (print_forms xs rest) h.0 ∙ ap (tokens x) (scan-print_forms xs rest h.1)
