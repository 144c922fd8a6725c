-- ===== src/Oracle/Trie.antt =====
-- The 16-way tries of coq/goextract/oracle/oracle_gen.go, in which the faster checks look a number's
-- entry up: F_of_listV and F_vlook, and the functions that they call.
pub mod Select
pub mod Groups
pub mod Lookup
pub mod Contents
use normalization_confluence.Common.{ℕ, zero, suc, Bool, true, false, List, [], ◌∷◌}
use normalization_confluence.Common.Int.{ℤ, pos, negsuc, ltb_ℤ}
use normalization_confluence.Common.Run.{Run, ok, panic, ◌>>=◌, not_a_nat}
use normalization_confluence.Oracle.Prims.{z_add, z_mul, nat_succ, nat_div2}
use normalization_confluence.Oracle.Lists.{nth}

-- A function of 16 arguments, one after the other.
abbrev pub Fn16 {ℓ κ} : Type ℓ → Type κ → Type (ℓ ⊔ κ)
Fn16 A B = A → A → A → A → A → A → A → A → A → A → A → A → A → A → A → A → B

-- I_v16: a leaf holds 16 entries, a node 16 tries.
pub data V16 (A : Type 0) : Type 0 where
  vl : A → A → A → A → A → A → A → A → A → A → A → A → A → A → A → A → V16 A
  vn :
      V16 A
      → V16 A
      → V16 A
      → V16 A
      → V16 A
      → V16 A
      → V16 A
      → V16 A
      → V16 A
      → V16 A
      → V16 A
      → V16 A
      → V16 A
      → V16 A
      → V16 A
      → V16 A
      → V16 A

-- I_vt: a power of 16, 16 times that power, and the trie.
pub record Vt (A : Type 0) : Type 0 where
  pub vp : ℤ
  pub vlim : ℤ
  pub vroot : V16 A

module _ {ℓ} {A : Type ℓ} where
  unfoldable pub len_t : List A → ℤ → Run ℤ
  len_t [] a = ok a
  len_t (_ ∷ t) a = do a' ← nat_succ a; len_t t a'

  unfoldable pub hd : A → List A → A
  hd default [] = default
  hd default (x ∷ _) = x

  unfoldable pub tl : List A → List A
  tl [] = []
  tl (_ ∷ l) = l

  unfoldable pub rev_append : List A → List A → List A
  rev_append [] l' = l'
  rev_append (a ∷ l) l' = rev_append l (a ∷ l')

-- `mk` on the first 16 entries of a list, `z` for each that is missing.
unfoldable pub group {ℓ κ} : {A : Type ℓ} {B : Type κ} → Fn16 A B → A → List A → B
unfolding hd tl
group mk z l =
    let l1 = tl l in
    let l2 = tl l1 in
    let l3 = tl l2 in
    let l4 = tl l3 in
    let l5 = tl l4 in
    let l6 = tl l5 in
    let l7 = tl l6 in
    let l8 = tl l7 in
    let l9 = tl l8 in
    let l10 = tl l9 in
    let l11 = tl l10 in
    let l12 = tl l11 in
    let l13 = tl l12 in
    let l14 = tl l13 in
    let l15 = tl l14 in
    mk (hd z l) (hd z l1) (hd z l2) (hd z l3) (hd z l4) (hd z l5) (hd z l6) (hd z l7) (hd z l8)
      (hd z l9) (hd z l10) (hd z l11) (hd z l12) (hd z l13) (hd z l14) (hd z l15)

-- The list after its first 16 entries.
unfoldable pub tl16 {ℓ} : {A : Type ℓ} → List A → List A
unfolding tl
tl16 l = tl (tl (tl (tl (tl (tl (tl (tl (tl (tl (tl (tl (tl (tl (tl (tl l)))))))))))))))

module _ {ℓ κ} {A : Type ℓ} {B : Type κ} where
  unfoldable pub chunk_h : ℤ → Fn16 A B → A → List A → List B → Run (List B)
  unfolding group tl16 rev_append
  chunk_h (negsuc _) mk z l acc = panic not_a_nat
  chunk_h (pos zero) mk z l acc = ok (rev_append acc [])
  chunk_h (pos (suc f)) mk z [] acc = ok (rev_append acc [])
  chunk_h (pos (suc f)) mk z (x ∷ l) acc =
      chunk_h (pos f) mk z (tl16 (x ∷ l)) (group mk z (x ∷ l) ∷ acc)

  unfoldable pub chunk : Fn16 A B → A → List A → Run (List B)
  unfolding len_t chunk_h
  chunk mk z l = do f ← len_t l (pos 0); chunk_h f mk z l []

unfoldable pub depth_f : ℤ → ℤ → ℤ → Run ℤ
depth_f (negsuc _) m p = panic not_a_nat
depth_f (pos zero) m p = ok (pos 0)
depth_f (pos (suc f)) m p = do
  next ← z_mul (pos 16) p
  elim (ltb_ℤ next m) [
    | true ↦ do next' ← z_mul (pos 16) p; d ← depth_f (pos f) m next'; nat_succ d
    | false ↦ ok (pos 0)
  ]

unfoldable pub pow_f : ℤ → ℤ → ℤ → Run ℤ
pow_f (negsuc _) m p = panic not_a_nat
pow_f (pos zero) m p = ok p
pow_f (pos (suc f)) m p = do
  next ← z_mul (pos 16) p
  elim (ltb_ℤ next m) [ true ↦ do next' ← z_mul (pos 16) p; pow_f (pos f) m next' | false ↦ ok p ]

-- F_hi16: four halvings.
unfoldable pub hi16 : ℤ → ℤ
unfolding nat_div2
hi16 a = nat_div2 (nat_div2 (nat_div2 (nat_div2 a)))

module _ {A : Type 0} where
  unfoldable pub zt_v : A → ℤ → Run (V16 A)
  zt_v z (negsuc _) = panic not_a_nat
  zt_v z (pos zero) = ok (vl z z z z z z z z z z z z z z z z)
  zt_v z (pos (suc d)) = do t ← zt_v z (pos d); ok (vn t t t t t t t t t t t t t t t t)

  unfoldable pub levels_v : A → List A → ℤ → Run (List (V16 A))
  unfolding chunk zt_v
  levels_v z l (negsuc _) = panic not_a_nat
  levels_v z l (pos zero) = chunk vl z l
  levels_v z l (pos (suc d)) = do t ← zt_v z (pos d); ts ← levels_v z l (pos d); chunk vn t ts

  unfoldable pub of_list_v : A → List A → Run (Vt A)
  unfolding depth_f pow_f levels_v
  of_list_v z l = do
    m ← len_t l (pos 0)
    d ← depth_f m m (pos 1)
    p ← pow_f m m (pos 1)
    lim ← z_mul (pos 16) p
    ts ← levels_v z l d
    t ← zt_v z d
    root ← nth (pos 0) ts t
    ok (record { vp = p; vlim = lim; vroot = root })

  -- One comparison of F_vget: the lower half from `b`, or the upper one from `b` + `step`.
  unfoldable pub half : ℤ → ℤ → ℤ → (ℤ → Run A) → (ℤ → Run A) → Run A
  half k step b lower upper = do
    t ← z_add b step
    elim (ltb_ℤ k t) [ true ↦ lower b | false ↦ upper t ]

  -- The four comparisons of F_vget, with the steps 8, 4, 2 and 1 times the size of an entry.
  unfoldable pub select : ℤ → ℤ → ℤ → ℤ → ℤ → ℤ → Fn16 (ℤ → Run A) (Run A)
  unfolding half
  select k p8 p4 p2 p1 b f0 f1 f2 f3 f4 f5 f6 f7 f8 f9 f10 f11 f12 f13 f14 f15 =
      half k p8 b
        (λ b.
          half k p4 b (λ b. half k p2 b (λ b. half k p1 b f0 f1) (λ b. half k p1 b f2 f3))
            (λ b. half k p2 b (λ b. half k p1 b f4 f5) (λ b. half k p1 b f6 f7)))
        (λ b.
          half k p4 b (λ b. half k p2 b (λ b. half k p1 b f8 f9) (λ b. half k p1 b f10 f11))
            (λ b. half k p2 b (λ b. half k p1 b f12 f13) (λ b. half k p1 b f14 f15)))

  unfoldable pub vget : ℤ → ℤ → V16 A → ℤ → Run A
  unfolding select hi16
  vget p b (vl x0 x1 x2 x3 x4 x5 x6 x7 x8 x9 x10 x11 x12 x13 x14 x15) k =
      select k (pos 8) (pos 4) (pos 2) (pos 1) b (λ _. ok x0) (λ _. ok x1) (λ _. ok x2) (λ _. ok x3)
        (λ _. ok x4) (λ _. ok x5) (λ _. ok x6) (λ _. ok x7) (λ _. ok x8) (λ _. ok x9) (λ _. ok x10)
        (λ _. ok x11) (λ _. ok x12) (λ _. ok x13) (λ _. ok x14) (λ _. ok x15)
  vget p b (vn c0 c1 c2 c3 c4 c5 c6 c7 c8 c9 c10 c11 c12 c13 c14 c15) k = do
    p2 ← z_add p p
    p4 ← z_add p2 p2
    p8 ← z_add p4 p4
    select k p8 p4 p2 p b (λ b'. vget (hi16 p) b' c0 k) (λ b'. vget (hi16 p) b' c1 k)
        (λ b'. vget (hi16 p) b' c2 k) (λ b'. vget (hi16 p) b' c3 k) (λ b'. vget (hi16 p) b' c4 k)
        (λ b'. vget (hi16 p) b' c5 k) (λ b'. vget (hi16 p) b' c6 k) (λ b'. vget (hi16 p) b' c7 k)
        (λ b'. vget (hi16 p) b' c8 k) (λ b'. vget (hi16 p) b' c9 k) (λ b'. vget (hi16 p) b' c10 k)
        (λ b'. vget (hi16 p) b' c11 k) (λ b'. vget (hi16 p) b' c12 k) (λ b'. vget (hi16 p) b' c13 k)
        (λ b'. vget (hi16 p) b' c14 k) (λ b'. vget (hi16 p) b' c15 k)

  unfoldable pub vlook : A → Vt A → ℤ → Run A
  unfolding vget
  vlook z t k = elim (ltb_ℤ k t.vlim) [ true ↦ vget t.vp (pos 0) t.vroot k | false ↦ ok z ]
