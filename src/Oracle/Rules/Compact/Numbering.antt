-- ===== src/Oracle/Rules/Compact/Numbering.antt =====
-- F_enc of coq/goextract/oracle/oracle_gen.go, the number of a state, and the place of the state in
-- the list of all states.
use native.Mathlib.Nat.{add-mul, mul_assoc, mul-le-mul_right, suc-mul}
use mathlib.Core.Path.{subst}
use native.Mathlib.Decide.{dec_lt}
use normalization_confluence.Common.{
  ℕ, zero, suc, ◌+◌, ◌*◌, ◌^◌, ◌≤◌, ◌<◌, ◌≡◌, refl, sym, ap, ◌∙◌, List, [], ◌∷◌, ◌++◌, map, length,
  length-append, length-map, get_or-append_left, get_or-append_right, get_or-map, get_or, All,
  arith,
}
use normalization_confluence.Common.Int.{ℤ, pos, negsuc, ◌<ℤ◌}
use normalization_confluence.Common.Run.{Run, ok, ◌>>=◌}
use normalization_confluence.Oracle.Prims.{z_add}
use normalization_confluence.Oracle.Prims.Product.{z_mul_pos}
use normalization_confluence.Oracle.Prims.Exact.{z_add_pos}
use normalization_confluence.Oracle.Rules.{State}
use normalization_confluence.Oracle.Rules.Box.Range.{InRange}
use normalization_confluence.Oracle.Rules.Compact.{enc_a, enc, box_t}
use normalization_confluence.Oracle.Rules.Compact.States.{
  IsDomain, size_of, rows, states, box_t-states,
}
use normalization_confluence.Oracle.Rules.Compact.Visits.{count, count_pos, le-mul}

length-rows : (k : ℕ) (ws : List State) → length (rows k ws) ≡ k * length ws
length-rows zero ws = omega arith
length-rows (suc k) ws =
    let last : length (map (λ w. pos k ∷ w) ws) ≡ length ws = length-map (λ w. pos k ∷ w) ws in
    let all : length (rows k ws) ≡ k * length ws = length-rows k ws in
    let both : length (rows (suc k) ws) ≡ length (rows k ws) + length (map (λ w. pos k ∷ w) ws) =
      length-append (rows k ws) (map (λ w. pos k ∷ w) ws) in
    rw (both, all, last) (sym (suc-mul k (length ws)))

pub length-states : (ds : List ℤ) → All IsDomain ds → length (states ds) ≡ count ds
length-states [] h = refl
length-states (d ∷ ds) ((k, q, _, _), h) =
    rw q (length-rows k (states ds) ∙ ap (λ n. k * n) (length-states ds h))

-- Entry `i` of the part of the list that begins with `x`.
get_or-rows :
    (k x i : ℕ) (ws : List State)
    → x < k
    → i < length ws
    → get_or (rows k ws) (x * length ws + i) [] ≡ pos x ∷ get_or ws i []
get_or-rows zero x i ws lx li = absurd (omega arith)
get_or-rows (suc k) x i ws lx li =
    let front : length (rows k ws) ≡ k * length ws = length-rows k ws in
    let put : State → State = λ w. pos k ∷ w in
    elim (dec_lt x k) [
      | yes lt ↦
          let most : suc x * length ws ≤ k * length ws = mul-le-mul_right (length ws) lt in
          let next : suc x * length ws ≡ x * length ws + length ws = suc-mul x (length ws) in
          get_or-append_left [] (rows k ws) (map put ws) (x * length ws + i) (omega arith)
          ∙ get_or-rows k x i ws lt li
      | no ge ↦
          let last : x ≡ k = omega arith in
          let place : x * length ws + i ≡ length (rows k ws) + i =
            ap (λ n. n * length ws + i) last ∙ ap (λ n. n + i) (sym front) in
          get_or-append_right [] (rows k ws) (map put ws) (x * length ws + i) i place
          ∙ get_or-map put [] [] ws i li
          ∙ ap (λ n. pos n ∷ get_or ws i []) (sym last)
    ]

-- One digit more, where the rest of the state has place `i`.
enc_a-row :
    (k x a i : ℕ) (ds : List ℤ) (v : State)
    → x < k
    → All IsDomain ds
    → k ≤ 2147483647
    → a * (k * count ds) + k * count ds ≤ 2 ^ 63
    → i < length (states ds)
    → get_or (states ds) i [] ≡ v
    → enc_a ds v (pos (a * k + x)) ≡ ok (pos ((a * k + x) * count ds + i))
    → (j : ℕ) × (j < length (rows k (states ds)))
      × (get_or (rows k (states ds)) j [] ≡ pos x ∷ v)
      × (enc_a (pos k ∷ ds) (pos x ∷ v) (pos a) ≡ ok (pos (a * (k * count ds) + j)))
unfolding enc_a
enc_a-row k x a i ds v lx h top b li e n =
    let c : 1 ≤ count ds = count_pos ds h in
    let size : length (states ds) ≡ count ds = length-states ds h in
    let front : x * length (states ds) ≡ x * count ds = ap (λ l. x * l) size in
    let whole : length (rows k (states ds)) ≡ k * count ds =
      length-rows k (states ds) ∙ ap (λ l. k * l) size in
    let next : suc x * count ds ≡ x * count ds + count ds = suc-mul x (count ds) in
    let most : suc x * count ds ≤ k * count ds = mul-le-mul_right (count ds) lx in
    let assoc : a * k * count ds ≡ a * (k * count ds) = mul_assoc a k (count ds) in
    let digits : (a * k + x) * count ds ≡ a * k * count ds + x * count ds =
      add-mul (a * k) x (count ds) in
    let first : a ≤ a * k = le-mul a k (omega arith) in
    let both : a * k + x ≤ (a * k + x) * count ds = le-mul (a * k + x) (count ds) c in
    let fits : a * k + x < 2 ^ 63 = omega arith in
    let place : (a * k + x) * count ds + i ≡ a * (k * count ds) + (x * length (states ds) + i) =
      omega arith in
    (
      x * length (states ds) + i,
      omega arith,
      get_or-rows k x i (states ds) lx li ∙ ap (λ w. pos x ∷ w) e,
      ap (λ m. m >>= (λ t. z_add t (pos x) >>= enc_a ds v))
            (z_mul_pos a k (omega arith) (omega arith) (omega arith))
          ∙ ap (λ m. m >>= enc_a ds v) (z_add_pos (a * k) x fits)
          ∙ n
          ∙ ap (λ p. ok (pos p)) place,
    )

-- The place of a state from the digits that F_encA has read on.
enc_a-states :
    (ds : List ℤ) (v : State) (a : ℕ)
    → All IsDomain ds
    → InRange ds v
    → a * count ds + count ds ≤ 2 ^ 63
    → (i : ℕ) × (i < length (states ds))
      × (get_or (states ds) i [] ≡ v)
      × (enc_a ds v (pos a) ≡ ok (pos (a * count ds + i)))
unfolding enc_a
enc_a-states [] [] a h r b = (0, omega arith, refl, ap (λ n. ok (pos n)) (omega arith))
enc_a-states [] (x ∷ v) a h r b = elim r [ ]
enc_a-states (d ∷ ds) [] a h r b = elim r [ ]
enc_a-states (d ∷ ds) (negsuc x ∷ v) a h r b = absurd (omega arith)
enc_a-states (d ∷ ds) (pos x ∷ v) a ((k, q, one, top), h) (r, rest) b =
    let below : pos x <ℤ pos k = subst (λ e. pos x <ℤ e) q r.1 in
    let room : a * (k * count ds) + k * count ds ≤ 2 ^ 63 =
      subst (λ e. a * (size_of e * count ds) + size_of e * count ds ≤ 2 ^ 63) q b in
    let next : suc x * count ds ≡ x * count ds + count ds = suc-mul x (count ds) in
    let most : suc x * count ds ≤ k * count ds = mul-le-mul_right (count ds) (omega arith) in
    let assoc : a * k * count ds ≡ a * (k * count ds) = mul_assoc a k (count ds) in
    let digits : (a * k + x) * count ds ≡ a * k * count ds + x * count ds =
      add-mul (a * k) x (count ds) in
    let (i, li, e, n) = enc_a-states ds v (a * k + x) h rest (omega arith) in
    rw q (enc_a-row k x a i ds v (omega arith) h top room li e n)

pub enc-states :
    (ds : List ℤ) (v : State)
    → All IsDomain ds
    → count ds < 2 ^ 63
    → InRange ds v
    → (i : ℕ) × (i < length (states ds)) × (get_or (states ds) i [] ≡ v) × (enc ds v ≡ ok (pos i))
unfolding enc
enc-states ds v h b r =
    let (i, lt, e, n) = enc_a-states ds v 0 h r (omega arith) in
    (i, lt, e, n ∙ ap (λ n. ok (pos n)) (omega arith))

-- The function gives the numbers from `b` on to the members of the list.
abbrev pub NumberedBy : (State → Run ℤ) → List State → ℕ → Type 0
NumberedBy f [] b = Unit
NumberedBy f (v ∷ vs) b = (f v ≡ ok (pos b)) × NumberedBy f vs (suc b)

NumberedBy-append :
    (f : State → Run ℤ) (l r : List State) (b c : ℕ)
    → c ≡ b + length l
    → NumberedBy f l b
    → NumberedBy f r c
    → NumberedBy f (l ++ r) b
NumberedBy-append f [] r b c e h k = subst (NumberedBy f r) (e ∙ none b) k
  where
    none : (b : ℕ) → b + 0 ≡ b
    none b = omega arith
NumberedBy-append f (x ∷ l) r b c e h k =
    (h.0, NumberedBy-append f l r (suc b) c (omega arith) h.1 k)

NumberedBy-map :
    (f f' : State → Run ℤ) (g : State → State) (l : List State) (b : ℕ)
    → ((v : State) → f' (g v) ≡ f v)
    → NumberedBy f l b
    → NumberedBy f' (map g l) b
NumberedBy-map f f' g [] b e h = tt
NumberedBy-map f f' g (x ∷ l) b e h = (e x ∙ h.0, NumberedBy-map f f' g l (suc b) e h.1)

-- One digit of F_encA.
enc_a-digit :
    (k x a : ℕ) (ds : List ℤ) (v : State)
    → x < k
    → k ≤ 2147483647
    → a * k + x < 2 ^ 63
    → enc_a (pos k ∷ ds) (pos x ∷ v) (pos a) ≡ enc_a ds v (pos (a * k + x))
unfolding enc_a
enc_a-digit k x a ds v lt top fits =
    let first : a ≤ a * k = le-mul a k (omega arith) in
    ap (λ m. m >>= (λ t. z_add t (pos x) >>= enc_a ds v))
      (z_mul_pos a k (omega arith) (omega arith) (omega arith))
    ∙ ap (λ m. m >>= enc_a ds v) (z_add_pos (a * k) x fits)

rows-NumberedBy :
    (k x a : ℕ) (ds : List ℤ)
    → x ≤ k
    → k ≤ 2147483647
    → All IsDomain ds
    → a * (k * count ds) + k * count ds ≤ 2 ^ 63
    → ((x : ℕ)
        → x < k
        → NumberedBy (λ v. enc_a ds v (pos (a * k + x))) (states ds) ((a * k + x) * count ds))
    → NumberedBy (λ v. enc_a (pos k ∷ ds) v (pos a)) (rows x (states ds)) (a * (k * count ds))
rows-NumberedBy k zero a ds le top h room each = tt
rows-NumberedBy k (suc x) a ds le top h room each =
    let c : 1 ≤ count ds = count_pos ds h in
    let next : suc x * count ds ≡ x * count ds + count ds = suc-mul x (count ds) in
    let most : suc x * count ds ≤ k * count ds = mul-le-mul_right (count ds) le in
    let assoc : a * k * count ds ≡ a * (k * count ds) = mul_assoc a k (count ds) in
    let digits : (a * k + x) * count ds ≡ a * k * count ds + x * count ds =
      add-mul (a * k) x (count ds) in
    let size : length (rows x (states ds)) ≡ x * count ds =
      length-rows x (states ds) ∙ ap (λ l. x * l) (length-states ds h) in
    let both : a * k + x ≤ (a * k + x) * count ds = le-mul (a * k + x) (count ds) c in
    NumberedBy-append (λ v. enc_a (pos k ∷ ds) v (pos a)) (rows x (states ds))
      (map (λ w. pos x ∷ w) (states ds)) (a * (k * count ds)) ((a * k + x) * count ds) (omega arith)
      (rows-NumberedBy k x a ds (omega arith) top h room each)
      (NumberedBy-map (λ v. enc_a ds v (pos (a * k + x))) (λ v. enc_a (pos k ∷ ds) v (pos a))
        (λ w. pos x ∷ w) (states ds) ((a * k + x) * count ds)
        (λ v. enc_a-digit k x a ds v le top (omega arith)) (each x le))

states-NumberedBy :
    (ds : List ℤ) (a : ℕ)
    → All IsDomain ds
    → a * count ds + count ds ≤ 2 ^ 63
    → NumberedBy (λ v. enc_a ds v (pos a)) (states ds) (a * count ds)
unfolding enc_a
states-NumberedBy [] a h room = (ap (λ n. ok (pos n)) (omega arith), tt)
states-NumberedBy (d ∷ ds) a ((k, q, one, top), h) room =
    let room' : a * (k * count ds) + k * count ds ≤ 2 ^ 63 =
      subst (λ e. a * (size_of e * count ds) + size_of e * count ds ≤ 2 ^ 63) q room in
    let assoc : a * k * count ds ≡ a * (k * count ds) = mul_assoc a k (count ds) in
    rw q (
      rows-NumberedBy k k a ds (omega arith) top h room' (λ x lt.
        let next : suc x * count ds ≡ x * count ds + count ds = suc-mul x (count ds) in
        let most : suc x * count ds ≤ k * count ds = mul-le-mul_right (count ds) lt in
        let digits : (a * k + x) * count ds ≡ a * k * count ds + x * count ds =
          add-mul (a * k) x (count ds) in
        states-NumberedBy ds (a * k + x) h (omega arith)))

-- F_enc gives the states, in the order of the list, the numbers from 0 on.
pub enc-NumberedBy :
    (ds : List ℤ) → All IsDomain ds → count ds < 2 ^ 63 → NumberedBy (enc ds) (states ds) 0
unfolding enc
enc-NumberedBy ds h b =
    let start : 0 * count ds ≡ 0 = omega arith in
    subst (NumberedBy (λ v. enc_a ds v (pos 0)) (states ds)) start
      (states-NumberedBy ds 0 h (omega arith))

-- On domains that hold 1 to 2147483647 values and fewer than 2 ^ 63 states, F_boxT returns a list,
-- and F_enc returns for a state in range its place in that list.
pub enc-box_t :
    (ds : List ℤ) (v : State)
    → All IsDomain ds
    → count ds < 2 ^ 63
    → InRange ds v
    → (ws : List State) × (i : ℕ) × (box_t ds ≡ ok ws)
      × (i < length ws)
      × (get_or ws i [] ≡ v)
      × (enc ds v ≡ ok (pos i))
enc-box_t ds v h b r =
    let (i, lt, e, n) = enc-states ds v h b r in (states ds, i, box_t-states ds h, lt, e, n)
