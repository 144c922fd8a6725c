-- ===== src/Oracle/Blocks.antt =====
-- Blocks of 16 entries, in coq/goextract/oracle/oracle_gen.go: F_bmap, F_dsel, F_dselH, F_realign,
-- F_alignN, F_qget, F_rdq and F_splitJ, and the loops over lists that build them.
pub mod Cells
pub mod Windows
pub mod Loops
pub mod Pending
use normalization_confluence.Common.{ℕ, zero, suc, ◌+◌, List, [], ◌∷◌, if◌then◌else◌}
use normalization_confluence.Common.Int.{ℤ, pos, negsuc, ltb_ℤ}
use normalization_confluence.Common.Run.{Run, ok, panic, ◌>>=◌, not_a_nat}
use normalization_confluence.Oracle.Prims.{z_add, z_mul, nat_sub}
use normalization_confluence.Oracle.Trie.{Fn16, hi16, hd, rev_append}

-- I_blk.
pub data Blk (A : Type 0) : Type 0 where
  b16 : A → A → A → A → A → A → A → A → A → A → A → A → A → A → A → A → Blk A

-- I_split: a number in blocks, and the digit in its block.
pub record Split : Type 0 where
  pub sq : ℤ
  pub sd : ℤ

-- The comparisons of `d` with the constants `b` + 1 to `b` + 15.
unfoldable pub pick : {A : Type 0} → ℕ → ℤ → Fn16 A A
pick b d f0 f1 f2 f3 f4 f5 f6 f7 f8 f9 f10 f11 f12 f13 f14 f15 =
    if ltb_ℤ d (pos (b + 8))
    then (if ltb_ℤ d (pos (b + 4))
        then (if ltb_ℤ d (pos (b + 2))
            then (if ltb_ℤ d (pos (b + 1)) then f0 else f1)
            else (if ltb_ℤ d (pos (b + 3)) then f2 else f3))
        else (if ltb_ℤ d (pos (b + 6))
            then (if ltb_ℤ d (pos (b + 5)) then f4 else f5)
            else (if ltb_ℤ d (pos (b + 7)) then f6 else f7)))
    else (if ltb_ℤ d (pos (b + 12))
        then (if ltb_ℤ d (pos (b + 10))
            then (if ltb_ℤ d (pos (b + 9)) then f8 else f9)
            else (if ltb_ℤ d (pos (b + 11)) then f10 else f11))
        else (if ltb_ℤ d (pos (b + 14))
            then (if ltb_ℤ d (pos (b + 13)) then f12 else f13)
            else (if ltb_ℤ d (pos (b + 15)) then f14 else f15)))

unfoldable pub dsel : {A : Type 0} → ℤ → Blk A → A
unfolding pick
dsel d (b16 x0 x1 x2 x3 x4 x5 x6 x7 x8 x9 x10 x11 x12 x13 x14 x15) =
    pick 0 d x0 x1 x2 x3 x4 x5 x6 x7 x8 x9 x10 x11 x12 x13 x14 x15

unfoldable pub dsel_h : {A : Type 0} → ℤ → Blk A → A
unfolding pick
dsel_h d (b16 x0 x1 x2 x3 x4 x5 x6 x7 x8 x9 x10 x11 x12 x13 x14 x15) =
    pick 16 d x0 x1 x2 x3 x4 x5 x6 x7 x8 x9 x10 x11 x12 x13 x14 x15

unfoldable pub realign : ℤ → Blk ℤ → Blk ℤ → Blk ℤ
unfolding pick
realign o (b16 x0 x1 x2 x3 x4 x5 x6 x7 x8 x9 x10 x11 x12 x13 x14 x15)
      (b16 y0 y1 y2 y3 y4 y5 y6 y7 y8 y9 y10 y11 y12 y13 y14 y15) =
    pick 0 o (b16 x0 x1 x2 x3 x4 x5 x6 x7 x8 x9 x10 x11 x12 x13 x14 x15)
      (b16 x1 x2 x3 x4 x5 x6 x7 x8 x9 x10 x11 x12 x13 x14 x15 y0)
      (b16 x2 x3 x4 x5 x6 x7 x8 x9 x10 x11 x12 x13 x14 x15 y0 y1)
      (b16 x3 x4 x5 x6 x7 x8 x9 x10 x11 x12 x13 x14 x15 y0 y1 y2)
      (b16 x4 x5 x6 x7 x8 x9 x10 x11 x12 x13 x14 x15 y0 y1 y2 y3)
      (b16 x5 x6 x7 x8 x9 x10 x11 x12 x13 x14 x15 y0 y1 y2 y3 y4)
      (b16 x6 x7 x8 x9 x10 x11 x12 x13 x14 x15 y0 y1 y2 y3 y4 y5)
      (b16 x7 x8 x9 x10 x11 x12 x13 x14 x15 y0 y1 y2 y3 y4 y5 y6)
      (b16 x8 x9 x10 x11 x12 x13 x14 x15 y0 y1 y2 y3 y4 y5 y6 y7)
      (b16 x9 x10 x11 x12 x13 x14 x15 y0 y1 y2 y3 y4 y5 y6 y7 y8)
      (b16 x10 x11 x12 x13 x14 x15 y0 y1 y2 y3 y4 y5 y6 y7 y8 y9)
      (b16 x11 x12 x13 x14 x15 y0 y1 y2 y3 y4 y5 y6 y7 y8 y9 y10)
      (b16 x12 x13 x14 x15 y0 y1 y2 y3 y4 y5 y6 y7 y8 y9 y10 y11)
      (b16 x13 x14 x15 y0 y1 y2 y3 y4 y5 y6 y7 y8 y9 y10 y11 y12)
      (b16 x14 x15 y0 y1 y2 y3 y4 y5 y6 y7 y8 y9 y10 y11 y12 y13)
      (b16 x15 y0 y1 y2 y3 y4 y5 y6 y7 y8 y9 y10 y11 y12 y13 y14)

unfoldable pub bmap : {A B : Type 0} → (A → Run B) → Blk A → Run (Blk B)
bmap g (b16 x0 x1 x2 x3 x4 x5 x6 x7 x8 x9 x10 x11 x12 x13 x14 x15) = do
  y0 ← g x0
  y1 ← g x1
  y2 ← g x2
  y3 ← g x3
  y4 ← g x4
  y5 ← g x5
  y6 ← g x6
  y7 ← g x7
  y8 ← g x8
  y9 ← g x9
  y10 ← g x10
  y11 ← g x11
  y12 ← g x12
  y13 ← g x13
  y14 ← g x14
  y15 ← g x15
  ok (b16 y0 y1 y2 y3 y4 y5 y6 y7 y8 y9 y10 y11 y12 y13 y14 y15)

unfoldable pub align_n : ℤ → ℤ → Blk ℤ → List (Blk ℤ) → Run (List (Blk ℤ))
unfolding realign hd
align_n (negsuc _) o zk t = panic not_a_nat
align_n (pos zero) o zk t = ok []
align_n (pos (suc k)) o zk [] = ok []
align_n (pos (suc k)) o zk (b0 ∷ r) = do
  rest ← align_n (pos k) o zk r
  ok (realign o b0 (hd zk r) ∷ rest)

-- Entry `d` of block `q`.
unfoldable pub qget : {A : Type 0} → A → List (Blk A) → ℤ → ℤ → Run A
unfolding dsel
qget z [] q d = ok z
qget z (t ∷ r) (negsuc _) d = panic not_a_nat
qget z (t ∷ r) (pos zero) d = ok (dsel d t)
qget z (t ∷ r) (pos (suc q)) d = qget z r (pos q) d

-- Entry `s`, below 32, of block `q` and the next one.
unfoldable pub rdq : List (Blk ℤ) → ℤ → ℤ → Run ℤ
unfolding dsel dsel_h
rdq [] q s = ok (pos 0)
rdq (b ∷ r) (negsuc _) s = panic not_a_nat
rdq (b ∷ []) (pos zero) s = ok (if ltb_ℤ s (pos 16) then dsel s b else pos 0)
rdq (b ∷ b' ∷ r) (pos zero) s = ok (if ltb_ℤ s (pos 16) then dsel s b else dsel_h s b')
rdq (b ∷ r) (pos (suc q)) s = rdq r (pos q) s

unfoldable pub split_j : ℤ → Run Split
unfolding hi16
split_j j = do start ← z_mul (pos 16) (hi16 j); ok (record { sq = hi16 j; sd = nat_sub j start })

unfoldable pub zb : Blk ℤ
zb =
    b16 (pos 0) (pos 0) (pos 0) (pos 0) (pos 0) (pos 0) (pos 0) (pos 0) (pos 0) (pos 0) (pos 0)
      (pos 0) (pos 0) (pos 0) (pos 0) (pos 0)

-- The suffixes of a list, the last one first.
unfoldable pub sfx : {A : Type 0} → List A → List (List A) → List (List A)
sfx [] acc = acc
sfx (x ∷ t) acc = sfx t ((x ∷ t) ∷ acc)

-- f i, f (i + 1), …, `k` of them, in front of `acc`.
unfoldable pub upto : {A : Type 0} → (ℤ → Run A) → ℤ → ℤ → List A → Run (List A)
upto f i (negsuc _) acc = panic not_a_nat
upto f i (pos zero) acc = ok acc
upto f i (pos (suc k)) acc = do j ← z_add i (pos k); x ← f j; upto f i (pos k) (x ∷ acc)

module _ {A B : Type 0} where
  unfoldable pub map_a : (A → Run B) → List A → List B → Run (List B)
  unfolding rev_append
  map_a f [] acc = ok (rev_append acc [])
  map_a f (x ∷ t) acc = do y ← f x; map_a f t (y ∷ acc)

  unfoldable pub map_t : (A → Run B) → List A → Run (List B)
  unfolding map_a
  map_t f l = map_a f l []

  unfoldable pub rev_map : (A → Run B) → List A → List B → Run (List B)
  rev_map f [] acc = ok acc
  rev_map f (x ∷ t) acc = do y ← f x; rev_map f t (y ∷ acc)
