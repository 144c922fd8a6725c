-- ===== src/Oracle/Packed.antt =====
-- The scan of the packed tables in coq/goextract/oracle/oracle_gen.go: F_scanC and the functions that
-- it calls. The tables are a list of blocks, read through views.
pub mod Columns
pub mod Pairs
pub mod Scan
use normalization_confluence.Common.{Bool, true, false, Option, List, [], ◌∷◌, if◌then◌else◌}
use normalization_confluence.Common.Int.{ℤ, pos, ltb_ℤ, eqb_ℤ}
use normalization_confluence.Common.Run.{Run, ok, ◌>>=◌}
use normalization_confluence.Oracle.Prims.{z_add, z_mul, nat_sub, nat_succ}
use normalization_confluence.Oracle.Loops.{all_k}
use normalization_confluence.Oracle.TableFn.{pairs_of_t}
use normalization_confluence.Oracle.Trie.{Vt, hi16, len_t, chunk, of_list_v, vlook}
use normalization_confluence.Oracle.Blocks.{
  Blk, b16, Split, bmap, align_n, qget, rdq, split_j, zb, sfx, upto, map_t,
}

-- I_view: the blocks from one on, and the digit of an entry in that block.
pub record View : Type 0 where
  pub vtl : List (Blk ℤ)
  pub vof : ℤ

-- I_cpair: a declared pair, with the places of its events and of their columns' entries.
pub record Cpair : Type 0 where
  pub cqa : ℤ
  pub cda : ℤ
  pub cqb : ℤ
  pub cdb : ℤ
  pub csa : Split
  pub csb : Split

-- The blocks from number `q` on, if there are so many.
unfoldable pub blocks_from : ℤ → ℤ → Vt (List (Blk ℤ)) → List (Blk ℤ) → ℤ → Run (List (Blk ℤ))
unfolding vlook
blocks_from l l1 st zl q = elim (ltb_ℤ q l) [ true ↦ vlook zl st (nat_sub l1 q) | false ↦ ok zl ]

unfoldable pub view_of : ℤ → ℤ → ℤ → Vt (List (Blk ℤ)) → List (Blk ℤ) → ℤ → Run View
unfolding blocks_from hi16
view_of w l l1 st zl x = do
  k ← z_mul x w
  t ← blocks_from l l1 st zl (hi16 k)
  start ← z_mul (pos 16) (hi16 k)
  ok (record { vtl = t; vof = nat_sub k start })

unfoldable pub rdj : View → Split → Run ℤ
unfolding rdq
rdj v qd = do s ← z_add v.vof qd.sd; rdq v.vtl qd.sq s

unfoldable pub align_v : ℤ → Blk ℤ → View → Run (List (Blk ℤ))
unfolding align_n
align_v k zk v = align_n k v.vof zk v.vtl

unfoldable pub cpair_of : ℤ × ℤ → Run Cpair
unfolding hi16 split_j
cpair_of (a, b) = do
  start_a ← z_mul (pos 16) (hi16 a)
  start_b ← z_mul (pos 16) (hi16 b)
  a' ← nat_succ a
  sa ← split_j a'
  b' ← nat_succ b
  sb ← split_j b'
  ok (record {
    cqa = hi16 a;
    cda = nat_sub a start_a;
    cqb = hi16 b;
    cdb = nat_sub b start_b;
    csa = sa;
    csb = sb;
  })

unfoldable pub pair_ok_c : List (Blk ℤ) → List (Blk (List (Blk ℤ))) → Cpair → Run Bool
unfolding qget
pair_ok_c z ls r = do
  col_b ← qget z ls r.cqb r.cdb
  ab ← qget (pos 0) col_b r.csa.sq r.csa.sd
  col_a ← qget z ls r.cqa r.cda
  ba ← qget (pos 0) col_a r.csb.sq r.csb.sd
  ok (eqb_ℤ ab ba)

unfoldable pub comm_c : List (Blk ℤ) → List (Blk (List (Blk ℤ))) → List Cpair → Run Bool
unfolding pair_ok_c
comm_c z ls [] = ok true
comm_c z ls (r ∷ t) = do b ← pair_ok_c z ls r; elim b [ true ↦ comm_c z ls t | false ↦ ok false ]

-- Whether state `s`, with its view, is below `n`, and valid or 0.
unfoldable pub starts_c : ℤ → View → ℤ → Run Bool
unfolding rdq
starts_c n vs s = elim (ltb_ℤ s n) [
  | true ↦ do nf ← rdq vs.vtl (pos 0) vs.vof; ok (if eqb_ℤ nf s then true else eqb_ℤ s (pos 0))
  | false ↦ ok false
]

unfoldable pub state_ok_c :
    ℤ
    → ℤ
    → ℤ
    → ℤ
    → ℤ
    → Vt (List (Blk ℤ))
    → List (Blk ℤ)
    → Blk ℤ
    → List (Blk Split)
    → List Cpair
    → ℤ
    → Run Bool
unfolding view_of starts_c rdj align_v bmap map_t comm_c
state_ok_c n n_e k l l1 st z zk sp_b rp s = do
  w ← nat_succ n_e
  vs ← view_of w l l1 st z s
  start ← starts_c n vs s
  elim start [
    | true ↦ do
      ls ← map_t (bmap (λ qd. do x ← rdj vs qd; v ← view_of w l l1 st z x; align_v k zk v)) sp_b
      comm_c z ls rp
    | false ↦ ok true
  ]

unfoldable pub scan_c : ℤ → ℤ → List (Blk ℤ) → Option (List (ℤ × ℤ)) → Run Bool
unfolding len_t split_j hi16 sfx of_list_v zb upto chunk cpair_of map_t state_ok_c
scan_c n n_e lb p = do
  l ← len_t lb (pos 0)
  zs ← split_j (pos 0)
  k ← nat_succ (hi16 n_e)
  st ← of_list_v [] (sfx lb [])
  offsets ← upto (λ e. nat_succ e >>= split_j) (pos 0) n_e []
  sp_b ← chunk b16 zs offsets
  ps ← pairs_of_t n_e p
  rp ← map_t cpair_of ps
  all_k (state_ok_c n n_e k l (nat_sub l (pos 1)) st [] zb sp_b rp) (pos 0) n
