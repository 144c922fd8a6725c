-- ===== src/Oracle/Lists/Members.antt =====
-- What the list functions return, by the members of their lists, within the range of int64.
use mathlib.Core.Path.{subst}
use native.Mathlib.Decide.{ℕ_discrete}
use normalization_confluence.Common.{
  ℕ, zero, suc, ◌+◌, ◌-◌, ◌^◌, ◌≤◌, ◌<◌, ◌≡◌, refl, sym, ap, ◌∙◌, List, [], ◌∷◌, ◌++◌, arith, ◌⊎◌,
  inl, inr, ◌↔◌, ↔_trans, In, All, length,
}
use normalization_confluence.Common.Int.{ℤ, pos, negsuc, ◌+ℤ◌, wrap64}
use normalization_confluence.Common.Run.{Run, ok, panic, overflow_add, returned, ok_inj}
use normalization_confluence.Oracle.Prims.{nat_succ, z_add}
use normalization_confluence.Oracle.Prims.Exact.{nat_succ_pos, nat_sub_pos}
use normalization_confluence.Oracle.Loops.Pairs.{InTriangle}
use normalization_confluence.Oracle.Lists.{
  nth, seq, map_run, flat_map, all_pairs, pairs_from, length_run,
}

pub In-append : {A : Type 0} (x : A) (l k : List A) → In x (l ++ k) ↔ (In x l ⊎ In x k)
In-append {A} x [] k = (inr, none_left)
  where
    none_left : ⊥ ⊎ In x k → In x k
    none_left (inl none) = elim none [ ]
    none_left (inr m) = m
In-append {A} x (a ∷ l) k = let (f, g) = In-append x l k in (to f, from g)
  where
    to : (In x (l ++ k) → In x l ⊎ In x k) → In x (a ∷ (l ++ k)) → In x (a ∷ l) ⊎ In x k
    to f (inl e) = inl (inl e)
    to f (inr m) = elim (f m) [ inl m' ↦ inl (inr m') | inr m' ↦ inr m' ]

    from : (In x l ⊎ In x k → In x (l ++ k)) → In x (a ∷ l) ⊎ In x k → In x (a ∷ (l ++ k))
    from g (inl (inl e)) = inl e
    from g (inl (inr m)) = inr (g (inl m))
    from g (inr m) = inr (g (inr m))

-- The numbers from `i`, `k` of them.
abbrev InSeq : ℕ → ℕ → ℤ → Type 0
InSeq i k x = (b : ℕ) × (x ≡ pos b) × (i ≤ b) × (b < i + k)

seq_lem :
    (k i : ℕ)
    → i + k < 2 ^ 63
    → (l : List ℤ) × (seq (pos i) (pos k) ≡ ok l) × ((x : ℤ) → In x l ↔ InSeq i k x)
unfolding seq
seq_lem zero i h = ([], refl, λ x. ((λ m. elim m [ ]), λ (b, e, lo, hi). absurd (omega arith)))
seq_lem (suc k) i h =
    let (l, e, iff) = seq_lem k (i + 1) (omega arith) in
    (
      pos i ∷ l,
      rw (nat_succ_pos i (omega arith)) (rw e refl),
      λ x. (to l x (iff x).0, from l x (iff x).1),
    )
  where
    to : (l : List ℤ) (x : ℤ) → (In x l → InSeq (i + 1) k x) → In x (pos i ∷ l) → InSeq i (suc k) x
    to l x f (inl e) = (i, e, omega arith, omega arith)
    to l x f (inr m) = let (b, e, lo, hi) = f m in (b, e, omega arith, omega arith)

    from :
        (l : List ℤ) (x : ℤ) → (InSeq (i + 1) k x → In x l) → InSeq i (suc k) x → In x (pos i ∷ l)
    from l x f (b, e, lo, hi) = elim (ℕ_discrete b i) [
      | yes q ↦ inl (subst (λ y. x ≡ pos y) q e)
      | no ne ↦ inr (f (b, e, omega arith, omega arith))
    ]

-- Where the callback returns a list that holds what `P` says, so does the concatenation.
flat_map_lem :
    {A B : Type 0} (P : A → B → Type 0) (f : A → Run (List B)) (l : List A)
    → ((x : A) → In x l → (r : List B) × (f x ≡ ok r) × ((y : B) → In y r ↔ P x y))
    → (r : List B) × (flat_map f l ≡ ok r) × ((y : B) → In y r ↔ ((x : A) × (y' : In x l) × P x y))
unfolding flat_map
flat_map_lem P f [] h = ([], refl, λ y. ((λ m. elim m [ ]), λ (x, m, p). elim m [ ]))
flat_map_lem {A} {B} P f (a ∷ l) h =
    let (r, e, iff) = h a (inl refl) in
    let (r', e', iff') = flat_map_lem P f l (λ x m. h x (inr m)) in
    (
      r ++ r',
      rw e (rw e' refl),
      λ y.
          ↔_trans (In-append y r r')
            (to r r' y (iff y).0 (iff' y).0, from r r' y (iff y).1 (iff' y).1),
    )
  where
    to :
        (r r' : List B) (y : B)
        → (In y r → P a y)
        → (In y r' → (x : A) × (y' : In x l) × P x y)
        → In y r ⊎ In y r'
        → (x : A) × (y' : In x (a ∷ l)) × P x y
    to r r' y f f' (inl m) = (a, inl refl, f m)
    to r r' y f f' (inr m) = let (x, m', p) = f' m in (x, inr m', p)

    from :
        (r r' : List B) (y : B)
        → (P a y → In y r)
        → ((x : A) × (y' : In x l) × P x y → In y r')
        → (x : A) × (y' : In x (a ∷ l)) × P x y
        → In y r ⊎ In y r'
    from r r' y f f' (x, inl e, p) = inl (f (subst (λ u. P u y) e p))
    from r r' y f f' (x, inr m, p) = inr (f' (x, m, p))

map_run_lem :
    {A B : Type 0} (g : A → B) (l : List A)
    → (r : List B) × (map_run (λ a. ok (g a)) l ≡ ok r)
      × ((y : B) → In y r ↔ ((x : A) × (y' : In x l) × (y ≡ g x)))
unfolding map_run
map_run_lem g [] = ([], refl, λ y. ((λ m. elim m [ ]), λ (x, m, p). elim m [ ]))
map_run_lem {A} {B} g (a ∷ l) =
    let (r, e, iff) = map_run_lem g l in
    (g a ∷ r, rw e refl, λ y. (to r y (iff y).0, from r y (iff y).1))
  where
    to :
        (r : List B) (y : B)
        → (In y r → (x : A) × (y' : In x l) × (y ≡ g x))
        → In y (g a ∷ r)
        → (x : A) × (y' : In x (a ∷ l)) × (y ≡ g x)
    to r y f (inl e) = (a, inl refl, e)
    to r y f (inr m) = let (x, m', p) = f m in (x, inr m', p)

    from :
        (r : List B) (y : B)
        → ((x : A) × (y' : In x l) × (y ≡ g x) → In y r)
        → (x : A) × (y' : In x (a ∷ l)) × (y ≡ g x)
        → In y (g a ∷ r)
    from r y f (x, inl e, p) = inl (subst (λ u. y ≡ g u) e p)
    from r y f (x, inr m, p) = inr (f (x, m, p))

-- The pairs that `F_allPairs` lists for the event `x` among `n`.
abbrev InRowOf : ℕ → ℤ → ℤ × ℤ → Type 0
InRowOf n x p = (a : ℕ) × (b : ℕ) × (x ≡ pos a) × (p ≡ (pos a, pos b)) × (a < b) × (b < n)

row_lem :
    (n i : ℕ)
    → n < 2 ^ 63
    → i < n
    → (r : List (ℤ × ℤ)) × (pairs_from (pos n) (pos i) ≡ ok r)
      × ((p : ℤ × ℤ) → In p r ↔ InRowOf n (pos i) p)
unfolding pairs_from
row_lem n i h lt =
    let (js, e, iff) = seq_lem (n - (i + 1)) (i + 1) (omega arith) in
    let (r, e', iff') = map_run_lem (λ j. (pos i, j)) js in
    (
      r,
      rw (nat_succ_pos i (omega arith)) (rw (nat_sub_pos n (i + 1) h) (rw e e')),
      λ p. ↔_trans (iff' p) (to js p iff, from js p iff),
    )
  where
    to :
        (js : List ℤ) (p : ℤ × ℤ)
        → ((x : ℤ) → In x js ↔ InSeq (i + 1) (n - (i + 1)) x)
        → (x : ℤ) × (y' : In x js) × (p ≡ (pos i, x))
        → InRowOf n (pos i) p
    to js p iff (x, m, e) =
        let (b, q, lo, hi) = (iff x).0 m in
        (i, b, refl, subst (λ y. p ≡ (pos i, y)) q e, omega arith, omega arith)

    from :
        (js : List ℤ) (p : ℤ × ℤ)
        → ((x : ℤ) → In x js ↔ InSeq (i + 1) (n - (i + 1)) x)
        → InRowOf n (pos i) p
        → (x : ℤ) × (y' : In x js) × (p ≡ (pos i, x))
    from js p iff (a, b, q, e, lo, hi) =
        let ia : i ≡ a = cc in
        (
          pos b,
          (iff (pos b)).1 (b, refl, omega arith, omega arith),
          subst (λ y. p ≡ (y, pos b)) (sym q) e,
        )

-- Below 2 ^ 63 events, `F_allPairs` returns, and its list holds exactly the pairs (a, b) of event
-- numbers with a < b.
pub all_pairs_lem :
    (n : ℕ)
    → n < 2 ^ 63
    → (l : List (ℤ × ℤ)) × (all_pairs (pos n) ≡ ok l) × ((p : ℤ × ℤ) → In p l ↔ InTriangle n 0 p)
unfolding all_pairs
all_pairs_lem n h =
    let (is, e, iff) = seq_lem n 0 (omega arith) in
    let (l, e', iff') =
      flat_map_lem (InRowOf n) (pairs_from (pos n)) is (λ x m. row x ((iff x).0 m)) in
    (l, rw e e', λ p. ↔_trans (iff' p) (to is p iff, from is p iff))
  where
    row :
        (x : ℤ)
        → InSeq 0 n x
        → (r : List (ℤ × ℤ)) × (pairs_from (pos n) x ≡ ok r)
          × ((p : ℤ × ℤ) → In p r ↔ InRowOf n x p)
    row x (i, q, lo, hi) = rw q (row_lem n i h (omega arith))

    to :
        (is : List ℤ) (p : ℤ × ℤ)
        → ((x : ℤ) → In x is ↔ InSeq 0 n x)
        → (x : ℤ) × (y' : In x is) × InRowOf n x p
        → InTriangle n 0 p
    to is p iff (x, m, (a, b, q, e, lt, hi)) = (a, b, e, omega arith, lt, hi)

    from :
        (is : List ℤ) (p : ℤ × ℤ)
        → ((x : ℤ) → In x is ↔ InSeq 0 n x)
        → InTriangle n 0 p
        → (x : ℤ) × (y' : In x is) × InRowOf n x p
    from is p iff (a, b, e, lo, lt, hi) =
        (pos a, (iff (pos a)).1 (a, refl, omega arith, omega arith), (a, b, refl, e, lt, hi))

nat_succ-overflow : nat_succ (pos (2 ^ 63 - 1)) ≡ panic overflow_add
unfolding nat_succ z_add wrap64 ◌+ℤ◌
nat_succ-overflow = refl

nat_succ-returned :
    (n : ℕ) {k : ℤ} → n < 2 ^ 63 → nat_succ (pos n) ≡ ok k → (k ≡ pos (n + 1)) × (n + 1 < 2 ^ 63)
nat_succ-returned n {k} lt r = elim (ℕ_discrete n (2 ^ 63 - 1)) [
  | yes e ↦ let over = subst (λ x. nat_succ (pos x) ≡ ok k) e r in absurd (cc nat_succ-overflow)
  | no ne ↦ (sym (ok_inj (sym (nat_succ_pos n (omega arith)) ∙ r)), omega arith)
]

-- A length that `F_length` returns is the length, an int64.
pub length_run_lem :
    {A : Type 0} (l : List A) {k : ℤ}
    → length_run l ≡ ok k
    → (k ≡ pos (length l)) × (length l < 2 ^ 63)
unfolding length_run
length_run_lem [] e = (sym (ok_inj e), omega arith)
length_run_lem (x ∷ l) {k} e =
    let (j, e', r) = returned (length_run l) e in
    let (q, lt) = length_run_lem l e' in
    let (q', lt') = nat_succ-returned (length l) lt (subst (λ y. nat_succ y ≡ ok k) q r) in
    (q' ∙ ap pos (omega arith), omega arith)

-- What holds of the members of a list and of the default holds of what `F_nth` returns.
pub nth-All :
    {A : Type 0} (P : A → Type 0) (l : List A) (i : ℤ) {default a : A}
    → All P l
    → P default
    → nth i l default ≡ ok a
    → P a
unfolding nth
nth-All P l (negsuc i) all h e = absurd (cc)
nth-All P [] (pos i) all h e = subst P (ok_inj e) h
nth-All P (x ∷ l) (pos zero) all h e = subst P (ok_inj e) all.0
nth-All P (x ∷ l) (pos (suc i)) all h e = nth-All P l (pos i) all.1 h e

pub nth-index : (i : ℤ) (l : List ℤ) (d : ℤ) {a : ℤ} → nth i l d ≡ ok a → (n : ℕ) × (i ≡ pos n)
unfolding nth
nth-index (pos n) l d e = (n, refl)
nth-index (negsuc n) l d e = absurd (cc)

-- `F_nth` returns at every nat: a member of the list, or the default.
pub nth-total :
    {A : Type 0} (n : ℕ) (l : List A) (d : A)
    → (a : A) × (nth (pos n) l d ≡ ok a) × (In a l ⊎ (a ≡ d))
unfolding nth
nth-total n [] d = (d, refl, inr refl)
nth-total zero (x ∷ l) d = (x, refl, inl (inl refl))
nth-total {A = A} (suc n) (x ∷ l) d = let (a, e, m) = nth-total n l d in (a, e, later m)
  where
    later : {a : A} → In a l ⊎ (a ≡ d) → In a (x ∷ l) ⊎ (a ≡ d)
    later (inl m) = inl (inr m)
    later (inr e) = inr e
