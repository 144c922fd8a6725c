-- ===== src/Oracle/Trie/Groups.antt =====
-- F_chunk of coq/goextract/oracle/oracle_gen.go: a list in groups of 16.
use mathlib.Core.Path.{subst}
use normalization_confluence.Common.{
  ℕ, zero, suc, ◌+◌, ◌*◌, ◌-◌, ◌^◌, ◌≤◌, ◌<◌, ◌≡◌, refl, sym, ap, ◌∙◌, List, [], ◌∷◌, arith, length,
  get_or,
}
use normalization_confluence.Common.Int.{pos}
use normalization_confluence.Common.Run.{ok, ok_inj}
use normalization_confluence.Oracle.Prims.Exact.{nat_succ_pos}
use normalization_confluence.Oracle.Trie.{
  Fn16, len_t, hd, tl, rev_append, group, tl16, chunk_h, chunk,
}

-- A function of 16 arguments on the first 16 values of a sequence.
abbrev pub on16 : {A : Type 0} {B : Type 0} → Fn16 A B → (ℕ → A) → B
on16 mk g =
    mk (g 0) (g 1) (g 2) (g 3) (g 4) (g 5) (g 6) (g 7) (g 8) (g 9) (g 10) (g 11) (g 12) (g 13)
      (g 14) (g 15)

pub len_t-length :
    {A : Type 0} (l : List A) (a : ℕ)
    → length l + a < 2 ^ 63
    → len_t l (pos a) ≡ ok (pos (length l + a))
unfolding len_t
len_t-length [] a h = ap (λ n. ok (pos n)) (omega arith)
len_t-length (x ∷ l) a h =
    rw (nat_succ_pos a (omega arith))
      (len_t-length l (a + 1) (omega arith) ∙ ap (λ n. ok (pos n)) (omega arith))

-- The list after `n` entries.
abbrev tls : {A : Type 0} → ℕ → List A → List A
tls zero l = l
tls (suc n) l = tl (tls n l)

get_or-tl : {A : Type 0} (z : A) (l : List A) (j : ℕ) → get_or (tl l) j z ≡ get_or l (suc j) z
unfolding tl
get_or-tl z [] j = refl
get_or-tl z (x ∷ l) j = refl

get_or-tls :
    {A : Type 0} (z : A) (n : ℕ) (l : List A) (j : ℕ) → get_or (tls n l) j z ≡ get_or l (n + j) z
get_or-tls z zero l j = ap (λ i. get_or l i z) (omega arith)
get_or-tls z (suc n) l j =
    get_or-tl z (tls n l) j ∙ get_or-tls z n l (suc j) ∙ ap (λ i. get_or l i z) (omega arith)

pub hd-get_or : {A : Type 0} (z : A) (l : List A) → hd z l ≡ get_or l 0 z
unfolding hd
hd-get_or z [] = refl
hd-get_or z (x ∷ l) = refl

hd-tls : {A : Type 0} (z : A) (n : ℕ) (l : List A) → hd z (tls n l) ≡ get_or l n z
hd-tls z n l = hd-get_or z (tls n l) ∙ get_or-tls z n l 0 ∙ ap (λ i. get_or l i z) (omega arith)

group-on16 :
    {A B : Type 0} (mk : Fn16 A B) (z : A) (l : List A) → group mk z l ≡ on16 mk (λ c. get_or l c z)
unfolding group
group-on16 mk z l =
    let entries : (λ c. hd z (tls c l)) ≡ (λ c. get_or l c z) = λ i c. hd-tls z c l i in
    ap (on16 mk) entries

length-tl : {A : Type 0} (l : List A) → length (tl l) ≤ length l
unfolding tl
length-tl [] = omega arith
length-tl (x ∷ l) = omega arith

length-tls : {A : Type 0} (n : ℕ) (x : A) (l : List A) → length (tls (suc n) (x ∷ l)) ≤ length l
unfolding tl
length-tls zero x l = omega arith
length-tls (suc n) x l =
    let ih = length-tls n x l in let le = length-tl (tls (suc n) (x ∷ l)) in omega arith

length-tl_most : {A : Type 0} (l : List A) → length l ≤ suc (length (tl l))
unfolding tl
length-tl_most [] = omega arith
length-tl_most (x ∷ l) = omega arith

length-tls_most : {A : Type 0} (n : ℕ) (l : List A) → length l ≤ n + length (tls n l)
length-tls_most zero l = omega arith
length-tls_most (suc n) l =
    let ih = length-tls_most n l in let le = length-tl_most (tls n l) in omega arith

length-tl_minus : {A : Type 0} (l : List A) → length (tl l) ≡ length l - 1
unfolding tl
length-tl_minus [] = omega arith
length-tl_minus (x ∷ l) = omega arith

length-tls_minus : {A : Type 0} (n : ℕ) (l : List A) → length (tls n l) ≡ length l - n
length-tls_minus zero l = omega arith
length-tls_minus (suc n) l =
    let ih = length-tls_minus n l in let e = length-tl_minus (tls n l) in omega arith

plus_zero : (c : ℕ) → c ≡ 16 * 0 + c
plus_zero c = omega arith

module _ {A B : Type 0} (mk : Fn16 A B) (z : A) where
  -- The groups of a list, on fuel.
  groups : ℕ → List A → List B
  groups zero l = []
  groups (suc f) [] = []
  groups (suc f) (x ∷ l) = group mk z (x ∷ l) ∷ groups f (tl16 (x ∷ l))

  chunk_h-groups :
      (f : ℕ) (l : List A) (acc : List B)
      → chunk_h (pos f) mk z l acc ≡ ok (rev_append acc (groups f l))
  unfolding chunk_h groups rev_append
  chunk_h-groups zero l acc = refl
  chunk_h-groups (suc f) [] acc = refl
  chunk_h-groups (suc f) (x ∷ l) acc = chunk_h-groups f (tl16 (x ∷ l)) (group mk z (x ∷ l) ∷ acc)

  length-groups : (f : ℕ) (l : List A) → length (groups f l) ≤ length l
  unfolding groups tl16
  length-groups zero l = omega arith
  length-groups (suc f) [] = omega arith
  length-groups (suc f) (x ∷ l) =
      let ih = length-groups f (tls 16 (x ∷ l)) in let le = length-tls 15 x l in omega arith

  groups-enough : (f : ℕ) (l : List A) → length l ≤ f → length l ≤ 16 * length (groups f l)
  unfolding groups tl16
  groups-enough zero l le = omega arith
  groups-enough (suc f) [] le = omega arith
  groups-enough (suc f) (x ∷ l) le =
      let lt = length-tls 15 x l in
      let ih = groups-enough f (tls 16 (x ∷ l)) (omega arith) in
      let most = length-tls_most 16 (x ∷ l) in omega arith

  groups-most : (f q : ℕ) (l : List A) → length l ≤ 16 * q → length (groups f l) ≤ q
  unfolding groups tl16
  groups-most zero q l h = omega arith
  groups-most (suc f) q [] h = omega arith
  groups-most (suc f) zero (x ∷ l) h = absurd (omega arith)
  groups-most (suc f) (suc q) (x ∷ l) h =
      let left : length (tls 16 (x ∷ l)) ≡ length (x ∷ l) - 16 = length-tls_minus 16 (x ∷ l) in
      let ih = groups-most f q (tls 16 (x ∷ l)) (omega arith) in omega arith

  get_or-groups :
      (f : ℕ) (l : List A)
      → length l ≤ f
      → (i : ℕ) → get_or (groups f l) i (on16 mk (λ _. z)) ≡ on16 mk (λ c. get_or l (16 * i + c) z)
  unfolding groups tl16
  get_or-groups zero [] le i = refl
  get_or-groups zero (x ∷ l) le i = absurd (omega arith)
  get_or-groups (suc f) [] le i = refl
  get_or-groups (suc f) (x ∷ l) le zero =
      let entries : (λ c. get_or (x ∷ l) c z) ≡ (λ c. get_or (x ∷ l) (16 * 0 + c) z) =
        λ j c. ap (λ n. get_or (x ∷ l) n z) (plus_zero c) j in
      group-on16 mk z (x ∷ l) ∙ ap (on16 mk) entries
  get_or-groups (suc f) (x ∷ l) le (suc i) =
      let lt = length-tls 15 x l in
      let shorter : length (tls 16 (x ∷ l)) ≤ f = omega arith in
      let entries : (λ c. get_or (tls 16 (x ∷ l)) (16 * i + c) z)
          ≡ (λ c. get_or (x ∷ l) (16 * suc i + c) z) =
        λ j c. entry i c j in
      get_or-groups f (tls 16 (x ∷ l)) shorter i ∙ ap (on16 mk) entries
    where
      entry : (i c : ℕ) → get_or (tls 16 (x ∷ l)) (16 * i + c) z ≡ get_or (x ∷ l) (16 * suc i + c) z
      entry i c = get_or-tls z 16 (x ∷ l) (16 * i + c) ∙ ap (λ n. get_or (x ∷ l) n z) (omega arith)

  -- The groups that F_chunk returns: entry `i` is made of the 16 entries from 16 `i` on, with `z` past
  -- the end.
  pub chunk-groups :
      (l : List A)
      → length l < 2 ^ 63
      → (ts : List B) × (chunk mk z l ≡ ok ts)
        × (length ts ≤ length l)
        × ((i : ℕ) → get_or ts i (on16 mk (λ _. z)) ≡ on16 mk (λ c. get_or l (16 * i + c) z))
  unfolding chunk rev_append
  chunk-groups l small = (
    groups (length l) l,
    rw (len_t-length l 0 (omega arith))
        (chunk_h-groups (length l + 0) l [] ∙ ap (λ n. ok (groups n l)) (omega arith)),
    length-groups (length l) l,
    get_or-groups (length l) l (omega arith),
  )

  -- No entry is left out, and no group is empty.
  pub length-chunk :
      (l : List A)
      → length l < 2 ^ 63
      → (ts : List B) → chunk mk z l ≡ ok ts
      → (length l ≤ 16 * length ts) × ((q : ℕ) → length l ≤ 16 * q → length ts ≤ q)
  unfolding chunk rev_append
  length-chunk l small ts e =
      let made : chunk mk z l ≡ ok (groups (length l) l) =
        rw (len_t-length l 0 (omega arith))
          (chunk_h-groups (length l + 0) l [] ∙ ap (λ n. ok (groups n l)) (omega arith)) in
      subst (λ ts. (length l ≤ 16 * length ts) × ((q : ℕ) → length l ≤ 16 * q → length ts ≤ q))
        (ok_inj (sym made ∙ e))
        (groups-enough (length l) l (omega arith), λ q h. groups-most (length l) q l h)
