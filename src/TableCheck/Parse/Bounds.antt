-- ===== src/TableCheck/Parse/Bounds.antt =====
-- The tables that the parser of command tablecheck lets through: their sizes, entries and pairs.
use normalization_confluence.Common.{
  ℕ, zero, suc, ◌+◌, ◌^◌, ◌<◌, ◌≡◌, refl, ap, Bool, true, false, not, ◌||◌, Option, none, some,
  List, [], ◌∷◌, arith, length, ltb, leb, All,
}
use normalization_confluence.Common.Int.{ℤ, pos, ltb_ℤ, eqb_ℤ}
use normalization_confluence.Common.Text.{Bytes, codes}
use normalization_confluence.TableCheck.Exits.{What}
use normalization_confluence.Common.Result.{
  fail_if, Ensures, Ensures->>=, fail_if-Ensures, Ensures-any,
}
use normalization_confluence.TableCheck.Parse.{
  nat_of, keyword, nat, nats, step_rows, declared_pairs, pair_tokens, at_token, read_version,
  read_pairs, identity_from, read_header, Tables, read_tables, mul64,
}

abbrev pub limit : ℕ
limit = 2 ^ 31

abbrev pub Below : ℕ → ℕ → Type 0
Below b v = v < b

nat_of-lt : (s : Bytes) → Ensures (Below limit) (nat_of s)
unfolding nat_of fail_if
nat_of-lt s = ground arith

nat-lt : (what : What) (toks : List Bytes) → Ensures (λ r. r.0 < limit) (nat what toks)
unfolding nat
nat-lt what [] = tt
nat-lt what (t ∷ toks) = Ensures->>= (Below limit) _ (nat_of t) _ (nat_of-lt t) λ v h. h

-- `k` entries, each below 2 ^ 31.
abbrev pub IsEntries : ℕ → List ℕ → Type 0
IsEntries k vs = (length vs ≡ k) × All (Below limit) vs

nats-IsEntries :
    (what : What) (k : ℕ) (toks : List Bytes) → Ensures (λ r. IsEntries k r.0) (nats what k toks)
unfolding nats
nats-IsEntries what zero toks = (refl, tt)
nats-IsEntries what (suc k) toks = Ensures->>= _ _ (nat what toks) _ (nat-lt what toks) λ r h.
    Ensures->>= _ _ (nats what k r.1) _ (nats-IsEntries what k r.1)
      λ r' h'. (ap suc h'.0, (h, h'.1))

-- `n_e` rows of `n` entries, each below 2 ^ 31.
abbrev pub IsRows : ℕ → ℕ → List (List ℕ) → Type 0
IsRows n n_e rows = (length rows ≡ n_e) × All (IsEntries n) rows

step_rows-IsRows :
    (n n_e : ℕ) (toks : List Bytes) → Ensures (λ r. IsRows n n_e r.0) (step_rows n n_e toks)
unfolding step_rows
step_rows-IsRows n zero toks = (refl, tt)
step_rows-IsRows n (suc n_e) toks =
    Ensures->>= _ _ (nats _ n toks) _ (nats-IsEntries _ n toks) λ r h.
      Ensures->>= _ _ (step_rows n n_e r.1) _ (step_rows-IsRows n n_e r.1)
        λ r' h'. (ap suc h'.0, (h, h'.1))

-- A declared pair names two events.
abbrev pub NamesEvents : ℕ → ℤ × ℤ → Type 0
NamesEvents n_e q = (a : ℕ) × (b : ℕ) × (q ≡ (pos a, pos b)) × (a < n_e) × (b < n_e)

abbrev pub IsPairs : ℕ → Option (List (ℤ × ℤ)) → Type 0
IsPairs n_e none = Unit
IsPairs n_e (some l) = All (NamesEvents n_e) l

named_events : (n_e a b : ℕ) → (leb n_e a || leb n_e b) ≡ false → NamesEvents n_e (pos a, pos b)
named_events n_e a b h = (a, b, refl, ground arith, ground arith)

declared_pairs-NamesEvents :
    (n_e k : ℕ) (toks : List Bytes)
    → Ensures (λ r. All (NamesEvents n_e) r.0) (declared_pairs n_e k toks)
unfolding declared_pairs
declared_pairs-NamesEvents n_e zero toks = tt
declared_pairs-NamesEvents n_e (suc k) toks = Ensures->>= _ _ (nat _ toks) _ (nat-lt _ toks) λ r h.
    Ensures->>= _ _ (nat _ r.1) _ (nat-lt _ r.1) λ r' h'.
      Ensures->>= _ _ (fail_if (leb n_e r.0 || leb n_e r'.0) _) _ (fail_if-Ensures _ _) λ _ inside.
        Ensures->>= _ _ (declared_pairs n_e k r'.1) _ (declared_pairs-NamesEvents n_e k r'.1)
          λ r'' h''. (named_events n_e r.0 r'.0 inside, h'')

pair_tokens-IsPairs :
    (all : Bool) (n_e : ℕ) (toks : List Bytes)
    → Ensures (λ r. IsPairs n_e r.0) (pair_tokens all n_e toks)
unfolding pair_tokens
pair_tokens-IsPairs true n_e toks = tt
pair_tokens-IsPairs false n_e toks = Ensures->>= _ _ (nat _ toks) _ (nat-lt _ toks) λ r h.
    Ensures->>= _ _ (fail_if (ltb_ℤ (pos (length r.1)) (mul64 2 r.0)) _) _ (Ensures-any _) λ _ _.
      Ensures->>= _ _ (declared_pairs n_e r.0 r.1) _ (declared_pairs-NamesEvents n_e r.0 r.1)
        λ r' h'. h'

identity_from-IsEntries : (i k : ℕ) → i + k < limit → IsEntries k (identity_from i k)
unfolding identity_from
identity_from-IsEntries i zero h = (refl, tt)
identity_from-IsEntries i (suc k) h =
    let rest = identity_from-IsEntries (i + 1) k (omega arith) in
    (ap suc rest.0, (omega arith, rest.1))

read_header_lem :
    (v2 : Bool) (n n_e : ℕ) (toks : List Bytes)
    → n < limit
    → Ensures (λ r. IsEntries n r.0.0 × IsPairs n_e r.0.1) (read_header v2 n n_e toks)
unfolding read_header read_pairs
read_header_lem false n n_e toks h = (identity_from-IsEntries 0 n (omega arith), tt)
read_header_lem true n n_e toks h = Ensures->>= _ _ (keyword _ _ toks) _ (Ensures-any _) λ k _.
    Ensures->>= _ _ (nats _ n k.1) _ (nats-IsEntries _ n k.1) λ r entries.
      Ensures->>= _ _ (keyword _ _ r.1) _ (Ensures-any _) λ k' _.
        Ensures->>= _ _ (pair_tokens (at_token (codes "all") k'.1) n_e k'.1) _
          (pair_tokens-IsPairs _ n_e k'.1) λ r' pairs. (entries, pairs)

-- Tables as the oracle wants them: sizes and entries below 2 ^ 31, at least one state, as many
-- entries as the sizes say, and declared pairs that name events.
pub record IsWellFormed (t : Tables) : Type 0 where
  pub some_state : 0 < t.n
  pub n_lt : t.n < limit
  pub n_e_lt : t.n_e < limit
  pub nf_entries : IsEntries t.n t.nf
  pub pairs_named : IsPairs t.n_e t.pairs
  pub step_entries : IsRows t.n t.n_e t.rows

-- Whatever tokens the parser accepts, the tables it returns are well-formed.
pub read_tables-IsWellFormed : (toks : List Bytes) → Ensures IsWellFormed (read_tables toks)
unfolding read_tables
read_tables-IsWellFormed toks = Ensures->>= _ _ (read_version toks) _ (Ensures-any _) λ v _.
    Ensures->>= _ _ (nat _ v.1) _ (nat-lt _ v.1) λ n n_lt.
      Ensures->>= _ _ (nat _ n.1) _ (nat-lt _ n.1) λ n_e n_e_lt.
        Ensures->>= _ _ (fail_if (ltb n.0 1) _) _ (fail_if-Ensures _ _) λ _ some_state.
          Ensures->>= _ _ (fail_if (ltb_ℤ (pos (length toks)) (mul64 n.0 n_e.0)) _) _
            (Ensures-any _)
            λ _ _.
              Ensures->>= _ _ (read_header v.0 n.0 n_e.0 n_e.1) _
                (read_header_lem v.0 n.0 n_e.0 n_e.1 n_lt)
                λ h entries.
                  Ensures->>= _ _ (fail_if (not (eqb_ℤ (pos (length h.1)) (mul64 n.0 n_e.0))) _) _
                    (Ensures-any _)
                    λ _ _.
                      Ensures->>= _ _ (step_rows n.0 n_e.0 h.1) _ (step_rows-IsRows n.0 n_e.0 h.1)
                        λ r rows. record {
                          some_state = ground arith;
                          n_lt = n_lt;
                          n_e_lt = n_e_lt;
                          nf_entries = entries.0;
                          pairs_named = entries.1;
                          step_entries = rows;
                        }
