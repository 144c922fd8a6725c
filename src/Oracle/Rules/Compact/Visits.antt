-- ===== src/Oracle/Rules/Compact/Visits.antt =====
-- F_foldB of coq/goextract/oracle/oracle_gen.go, which lists the states of the last variables once and
-- enumerates the others: the states that it visits, and their order.
use normalization_confluence.Common.{
  ℕ, ◌*◌, ◌^◌, ◌≤◌, ◌<◌, ◌≡◌, refl, sym, ap, ◌∙◌, List, [], ◌∷◌, ◌++◌, All, Bool, true, false,
  arith,
}
use normalization_confluence.Common.Int.{ℤ, pos, ltb_ℤ, wrap64, ◌*ℤ◌}
use normalization_confluence.Common.Run.{
  panic, returned, ok_inj, Run, ok, ◌>>=◌, overflow_mul, >>=-ok,
}
use native.Mathlib.Nat.{mul_assoc, mul-le-mul_left, le-mul_of_pos_right}
use native.Mathlib.Decide.{dec_lt}
use normalization_confluence.Oracle.Prims.{z_mul, nat_succ}
use normalization_confluence.Oracle.Prims.Exact.{exact_or, nat_succ_pos}
use normalization_confluence.Oracle.Prims.Product.{product_pp, z_mul-exact_or, z_mul_pos}
use normalization_confluence.Oracle.Trie.{rev_append}
use normalization_confluence.Oracle.Lists.{fold_left}
use normalization_confluence.Oracle.Rules.{State}
use normalization_confluence.Oracle.Rules.Compact.{
  prod_l, split_at, split_suf, box_t, fold_d, fold_b,
}
use normalization_confluence.Oracle.Rules.Compact.States.{
  IsDomain, size_of, states, visit, staged, fold_d-visit, visit-states-append, box_t-states,
  fold_left-visit,
}

-- How many states there are.
abbrev pub count : List ℤ → ℕ
count [] = 1
count (d ∷ ds) = size_of d * count ds

pub le-mul : (a b : ℕ) → 1 ≤ b → a ≤ a * b
le-mul a b h = le-mul_of_pos_right a h

pub count_pos : (ds : List ℤ) → All IsDomain ds → 1 ≤ count ds
count_pos [] h = omega arith
count_pos (d ∷ ds) ((k, q, one, _), h) =
    let c : 1 ≤ count ds = count_pos ds h in
    let b : k ≤ k * count ds = le-mul k (count ds) c in rw q (omega arith)

-- F_fold_left of the product, which does not overflow where the last product does not.
fold_left-product :
    (ds : List ℤ) (a : ℕ)
    → All IsDomain ds
    → a * count ds < 2 ^ 63
    → fold_left z_mul ds (pos a) ≡ ok (pos (a * count ds))
unfolding fold_left
fold_left-product [] a h b = ap (λ n. ok (pos n)) (omega arith)
fold_left-product (d ∷ ds) a ((k, q, one, top), h) b =
    let c : 1 ≤ count ds = count_pos ds h in
    let whole : a * k * count ds ≡ a * count (d ∷ ds) =
      mul_assoc a k (count ds) ∙ ap (λ e. a * (size_of e * count ds)) (sym q) in
    let first : a ≤ a * k = le-mul a k one in
    let both : a * k ≤ a * k * count ds = le-mul (a * k) (count ds) c in
    let fits : a * k < 2 ^ 63 = omega arith in
    ap (λ e. z_mul (pos a) e >>= fold_left z_mul ds) q
    ∙ ap (λ r. r >>= fold_left z_mul ds) (z_mul_pos a k (omega arith) (omega arith) fits)
    ∙ fold_left-product ds (a * k) h (omega arith)
    ∙ ap (λ n. ok (pos n)) whole

pub prod_l-count :
    (ds : List ℤ) → All IsDomain ds → count ds < 2 ^ 63 → prod_l ds ≡ ok (pos (count ds))
unfolding prod_l
prod_l-count ds h b =
    let one : 1 * count ds ≡ count ds = omega arith in
    fold_left-product ds 1 h (omega arith) ∙ ap (λ n. ok (pos n)) one

exact_or-returned :
    (n : ℕ) {r : ℤ} → exact_or overflow_mul (pos n) ≡ ok r → (r ≡ pos n) × (n < 2 ^ 63)
exact_or-returned n {r} e = elim (dec_lt n (2 ^ 63)) [
  | yes lt ↦ (sym (ok_inj (sym (fits n lt) ∙ e)), lt)
  | no ge ↦ absurd (ne (sym (fails n (omega arith)) ∙ e))
]
  where
    fits : (n : ℕ) → n < 2 ^ 63 → exact_or overflow_mul (pos n) ≡ ok (pos n)
    fits n h = ground arith

    fails : (n : ℕ) → 2 ^ 63 ≤ n → exact_or overflow_mul (pos n) ≡ panic overflow_mul
    fails n h = ground arith

    ne : {r : ℤ} → panic overflow_mul ≡ ok r → ⊥
    ne e = cc

-- A product that F_fold_left returns is the number of states.
pub fold_left-returned :
    (ds : List ℤ) (a : ℕ) {r : ℤ}
    → All IsDomain ds
    → a < 2 ^ 63
    → fold_left z_mul ds (pos a) ≡ ok r
    → r ≡ pos (a * count ds)
unfolding fold_left
fold_left-returned [] a h small e = sym (ok_inj e) ∙ ap pos (omega arith)
fold_left-returned (d ∷ ds) a ((k, q, one, top), h) small e =
    let (r, e₁, f₁) = returned (z_mul (pos a) d) e in
    let exact : exact_or overflow_mul (pos (a * k)) ≡ ok r =
      sym
        (z_mul-exact_or (pos a) (pos k) small (omega arith) ∙ rw (product_pp a k (a * k) refl) refl)
      ∙ ap (z_mul (pos a)) (sym q)
      ∙ e₁ in
    let (value, fits) = exact_or-returned (a * k) exact in
    let whole : a * k * count ds ≡ a * count (d ∷ ds) =
      mul_assoc a k (count ds) ∙ ap (λ e. a * (size_of e * count ds)) (sym q) in
    fold_left-returned ds (a * k) h fits (ap (fold_left z_mul ds) (sym value) ∙ f₁) ∙ ap pos whole

-- What F_splitSuf returns: the variables in two parts, and few states in the second.
record IsSplit (ds : List ℤ) (r : List ℤ × List ℤ) : Type 0 where
  parts : r.0 ++ r.1 ≡ ds
  few : count r.1 ≤ 4096
  sizes : All IsDomain r.0
  last_sizes : All IsDomain r.1

below_limit : (n : ℕ) → n ≤ 4096 → ltb_ℤ (pos n) (pos 4097) ≡ true
below_limit n h = ground arith

above_limit : (n : ℕ) → 4096 < n → ltb_ℤ (pos n) (pos 4097) ≡ false
above_limit n h = ground arith

abbrev extend : Bool → ℤ → List ℤ → List ℤ × List ℤ
extend true d s = ([], d ∷ s)
extend false d s = (d ∷ [], s)

-- The test of F_splitSuf, on a suffix that it may extend.
split_at_lem :
    (k c : ℕ) (d : ℤ) (s : List ℤ) (b : Bool)
    → k ≤ 2147483647
    → c ≤ 4096
    → d ≡ pos k
    → prod_l s ≡ ok (pos c)
    → ltb_ℤ (pos (k * c)) (pos 4097) ≡ b
    → split_at (pos 4096) d ([], s) ≡ ok (extend b d s)
unfolding split_at
split_at_lem k c d s b k1 c1 q p t =
    let most : k * c ≤ k * 4096 = mul-le-mul_left k c1 in
    let fits : k * c < 2 ^ 63 = omega arith in
    let product : z_mul d (pos c) ≡ ok (pos (k * c)) =
      rw q (z_mul_pos k c (omega arith) (omega arith) fits) in
    let limit : nat_succ (pos 4096) ≡ ok (pos 4097) = nat_succ_pos 4096 (omega arith) in
    rw (p, product, limit)
      (ap (λ x. elim x [ true ↦ ok ([], d ∷ s) | false ↦ ok (d ∷ [], s) ]) t ∙ chosen b)
  where
    chosen :
        (b : Bool) → elim b [ true ↦ ok ([], d ∷ s) | false ↦ ok (d ∷ [], s) ] ≡ ok (extend b d s)
    chosen true = refl
    chosen false = refl

split_at-IsSplit :
    (d : ℤ) (ds : List ℤ) (r : List ℤ × List ℤ)
    → IsDomain d
    → IsSplit ds r
    → (r' : List ℤ × List ℤ) × (split_at (pos 4096) d r ≡ ok r') × IsSplit (d ∷ ds) r'
unfolding split_at
split_at-IsSplit d ds ([], s) (k, q, one, top) i =
    let few : count s ≤ 4096 = i.few in
    let product : prod_l s ≡ ok (pos (count s)) = prod_l-count s i.last_sizes (omega arith) in
    let size : size_of d * count s ≡ k * count s = ap (λ e. size_of e * count s) q in
    elim (dec_lt (k * count s) 4097) [
      | yes lt ↦ (
        ([], d ∷ s),
        split_at_lem k (count s) d s true top i.few q product
            (below_limit (k * count s) (omega arith)),
        record {
          parts = ap (λ l. d ∷ l) i.parts;
          few = omega arith;
          sizes = i.sizes;
          last_sizes = ((k, q, one, top), i.last_sizes);
        },
      )
      | no ge ↦ (
        (d ∷ [], s),
        split_at_lem k (count s) d s false top i.few q product
            (above_limit (k * count s) (omega arith)),
        record {
          parts = ap (λ l. d ∷ l) i.parts;
          few = i.few;
          sizes = ((k, q, one, top), i.sizes);
          last_sizes = i.last_sizes;
        },
      )
    ]
split_at-IsSplit d ds (x ∷ p, s) h i = (
  (d ∷ x ∷ p, s),
  refl,
  record {
    parts = ap (λ l. d ∷ l) i.parts;
    few = i.few;
    sizes = (h, i.sizes);
    last_sizes = i.last_sizes;
  },
)

split_suf-IsSplit :
    (ds : List ℤ)
    → All IsDomain ds
    → (r : List ℤ × List ℤ) × (split_suf (pos 4096) ds ≡ ok r) × IsSplit ds r
unfolding split_suf
split_suf-IsSplit [] h =
    (_, refl, record { parts = refl; few = omega arith; sizes = h; last_sizes = h })
split_suf-IsSplit (d ∷ ds) (hd, h) =
    let (r, q, i) = split_suf-IsSplit ds h in
    let (r', q', i') = split_at-IsSplit d ds r hd i in
    (r', ap (λ m. m >>= split_at (pos 4096) d) q ∙ q', i')

-- On domains that hold 1 to 2147483647 values, F_foldB runs the callback on the states of the list
-- of all states, from the last one to the first, whether or not the callback panics.
pub fold_b-visit :
    {T : Type 0} (ds : List ℤ) (f : State → T → Run T) (acc : T)
    → All IsDomain ds
    → fold_b ds f acc ≡ visit f (states ds) acc
unfolding fold_b fold_left z_mul wrap64 ◌*ℤ◌
fold_b-visit {T = T} ds f acc h =
    let (r, q, i) = split_suf-IsSplit ds h in
    let (p, s) = r in
    let whole : (pv : State) (a : T)
        → fold_left (λ a' w. f (pv ++ w) a') (rev_append (states s) []) a ≡ staged f s pv a =
      λ pv a.
        fold_left-visit (λ w. f (pv ++ w)) (states s) [] a
        ∙ >>=-ok (visit (λ w. f (pv ++ w)) (states s) a) in
    let stage : (λ pv a. fold_left (λ a' w. f (pv ++ w) a') (rev_append (states s) []) a)
        ≡ staged f s =
      λ i pv a. whole pv a i in
    let listed : box_t s ≡ ok (states s) = box_t-states s i.last_sizes in
    let each : List State → Run T =
      λ ws. fold_d p (λ pv a. fold_left (λ a' w. f (pv ++ w) a') (rev_append ws []) a) acc in
    let run : List ℤ × List ℤ → Run T = λ ps. box_t ps.1 >>= (λ ws.
      fold_d ps.0 (λ pv a. fold_left (λ a' w. f (pv ++ w) a') (rev_append ws []) a) acc) in
    let start : fold_b ds f acc ≡ fold_d p (staged f s) acc =
      ap (λ m. m >>= run) q ∙ ap (λ m. m >>= each) listed ∙ ap (λ g. fold_d p g acc) stage in
    start
    ∙ fold_d-visit p (staged f s) acc i.sizes
    ∙ visit-states-append p s f acc
    ∙ ap (λ l. visit f (states l) acc) i.parts
