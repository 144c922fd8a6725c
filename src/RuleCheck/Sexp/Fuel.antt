-- ===== src/RuleCheck/Sexp/Fuel.antt =====
-- The fuel of `parse_all`, compared with the tokens of the text.
use normalization_confluence.Common.{
  ℕ, zero, suc, ◌+◌, ◌*◌, ◌≤◌, ◌<◌, ◌≢◌, List, [], ◌∷◌, arith, length,
}
use normalization_confluence.Common.Text.{Bytes}
use normalization_confluence.Common.Result.{read, fail_input, ◌>>=◌}
use normalization_confluence.RuleCheck.Failures.{Parsed, Failure, no_fuel}
use normalization_confluence.RuleCheck.Sexp.{
  Sexp, Forms, nil, cons, Token, open_paren, close_paren, word, token, parse, parse_list,
  parse_forms, parse_all,
}

-- A parse that does not run out of fuel, and leaves fewer than `n` tokens.
abbrev Ends : {A : Type 0} → ℕ → Parsed (A × List Bytes) → Type 0
Ends n (read (x, rest)) = length rest < n
Ends n (fail_input e) = e ≢ no_fuel

Ends->>= :
    {A B : Type 0} (n k : ℕ) (m : Parsed (A × List Bytes))
    (f : A × List Bytes → Parsed (B × List Bytes))
    → Ends n m
    → ((x : A) (rest : List Bytes) → length rest < n → Ends k (f (x, rest)))
    → Ends k (m >>= f)
Ends->>= n k (read (x, rest)) f h next = next x rest h
Ends->>= n k (fail_input e) f h next = h

mutual
  unfolding parse parse_list

  parse-Ends :
      (f : ℕ) (toks : List Bytes) → 2 * length toks + 1 ≤ f → Ends (length toks) (parse f toks)
  parse-Ends zero toks h = absurd (omega arith)
  parse-Ends (suc f) [] h = λ e. cc
  parse-Ends (suc f) (t ∷ toks) h = by_token (token t) (parse_list-Ends f toks (omega arith))
    where
      by_token :
          (k : Token)
          → Ends (suc (length toks)) (parse_list f toks)
          → Ends (suc (length toks)) (elim k [
            | open_paren ↦ (parse_list f toks >>= λ (l, rest). read (Sexp.list l, rest))
            | close_paren ↦ fail_input Failure.unexpected_close
            | word ↦ read (Sexp.atom t, toks)
          ])
      by_token open_paren r =
          Ends->>= (suc (length toks)) (suc (length toks)) (parse_list f toks) _ r (λ l rest lt. lt)
      by_token close_paren r = λ e. cc
      by_token word r = omega arith

  parse_list-Ends :
      (f : ℕ) (toks : List Bytes)
      → 2 * length toks + 2 ≤ f
      → Ends (suc (length toks)) (parse_list f toks)
  parse_list-Ends zero toks h = absurd (omega arith)
  parse_list-Ends (suc f) [] h = λ e. cc
  parse_list-Ends (suc f) (t ∷ toks) h = by_token (token t) (
      Ends->>= (suc (length toks)) (suc (suc (length toks))) (parse f (t ∷ toks)) _
        (parse-Ends f (t ∷ toks) (omega arith))
        λ x rest lt.
          Ends->>= (suc (length rest)) (suc (suc (length toks))) (parse_list f rest) _
            (parse_list-Ends f rest (omega arith)) (λ xs rest' lt'. omega arith))
    where
      element : Parsed (Forms × List Bytes)
      element = do
        (x, rest) ← parse f (t ∷ toks)
        (xs, rest') ← parse_list f rest
        read (cons x xs, rest')

      by_token :
          (k : Token)
          → Ends (suc (suc (length toks))) element
          → Ends (suc (suc (length toks))) (elim k [ close_paren ↦ read (nil, toks) | _ ↦ element ])
      by_token open_paren r = r
      by_token close_paren r = omega arith
      by_token word r = r

-- More fuel than twice the tokens is enough for the forms of a text.
parse_forms-ne-no_fuel :
    (f : ℕ) (toks : List Bytes) → 2 * length toks + 2 ≤ f → parse_forms f toks ≢ fail_input no_fuel
unfolding parse_forms
parse_forms-ne-no_fuel f [] h = λ e. cc
parse_forms-ne-no_fuel zero (t ∷ toks) h = absurd (omega arith)
parse_forms-ne-no_fuel (suc f) (t ∷ toks) h =
    first (parse f (t ∷ toks)) (parse-Ends f (t ∷ toks) (omega arith))
      (λ rest lt. parse_forms-ne-no_fuel f rest (omega arith))
  where
    first :
        (m : Parsed (Sexp × List Bytes))
        → Ends (suc (length toks)) m
        → ((rest : List Bytes)
            → length rest < suc (length toks)
            → parse_forms f rest ≢ fail_input no_fuel)
        → (m >>= λ (x, rest). parse_forms f rest >>= λ xs. read (cons x xs)) ≢ fail_input no_fuel
    first (fail_input e) r next = λ q. r (cc)
    first (read (x, rest)) r next = then_read (parse_forms f rest) (next rest r)
      where
        then_read :
            (m : Parsed Forms)
            → m ≢ fail_input no_fuel
            → (m >>= λ xs. read (cons x xs)) ≢ fail_input no_fuel
        then_read (read xs) h = λ q. cc
        then_read (fail_input e) h = λ q. h (cc)

-- `parse_all` always has fuel left: every text has its forms, or one of the messages of `parse`.
pub parse_all-ne-no_fuel : (toks : List Bytes) → parse_all toks ≢ fail_input no_fuel
unfolding parse_all
parse_all-ne-no_fuel toks = parse_forms-ne-no_fuel (2 * length toks + 2) toks (omega arith)
