-- ===== src/Oracle/Fast.antt =====
-- The table oracle over lists: F_check_fast of coq/goextract/oracle/oracle_gen.go and the functions
-- that it calls. A cell holds what the oracle reads at a state, and the cells are in a trie.
pub mod Entries
pub mod Pairs
pub mod Table
pub mod Scan
pub mod Columns
pub mod Rows
pub mod Sound
use normalization_confluence.Common.{Bool, true, false, Option, List, [], ◌∷◌, if◌then◌else◌}
use normalization_confluence.Common.Int.{ℤ, pos, ltb_ℤ, eqb_ℤ}
use normalization_confluence.Common.Run.{Run, ok, ◌>>=◌, and_run}
use normalization_confluence.Oracle.Prims.{z_add, z_mul, nat_sub, nat_succ}
use normalization_confluence.Oracle.TableFn.{pairs_of_t, pairs_ok_w, implb}
use normalization_confluence.Oracle.Trie.{Vt, hi16, hd, tl, rev_append, chunk, of_list_v, vlook}
use normalization_confluence.Oracle.Blocks.{Blk, b16, dsel, bmap, qget, zb, map_t}

-- I_cell: the number of a state, of its normal form, and of the state that each event leads to.
pub record Cell : Type 0 where
  pub lk : ℤ
  pub lnf : ℤ
  pub lcol : List (Blk ℤ)

-- I_rpair: the places of the two events of a declared pair.
pub record Rpair : Type 0 where
  pub qa : ℤ
  pub da : ℤ
  pub qb : ℤ
  pub db : ℤ

unfoldable pub zcell : ℤ → Cell
zcell n = record { lk = n; lnf = pos 0; lcol = [] }

unfoldable pub cell_ok : ℤ → Cell → Bool
cell_ok n c = if ltb_ℤ c.lk n then eqb_ℤ c.lnf c.lk else false

-- Entry number `b` passes the test `f`, if `b` is below `m`; the test runs in both cases.
unfoldable pub passes : {A : Type 0} → (A → Run Bool) → ℤ → ℤ → A → Run Bool
passes f m b x = do t ← f x; ok (implb (ltb_ℤ b m) t)

-- The same for the entry `c` places after number `b`.
unfoldable pub passes_after : {A : Type 0} → (A → Run Bool) → ℤ → ℤ → ℤ → A → Run Bool
unfolding passes
passes_after f m b c x = do i ← z_add b c; passes f m i x

unfoldable pub bfa1 : {A : Type 0} → (A → Run Bool) → ℤ → ℤ → Blk A → Run Bool
unfolding passes passes_after
bfa1 f m b (b16 x0 x1 x2 x3 x4 x5 x6 x7 x8 x9 x10 x11 x12 x13 x14 x15) = and_run (passes f m b x0) (
    and_run (passes_after f m b (pos 1) x1) (
      and_run (passes_after f m b (pos 2) x2) (
        and_run (passes_after f m b (pos 3) x3) (
          and_run (passes_after f m b (pos 4) x4) (
            and_run (passes_after f m b (pos 5) x5) (
              and_run (passes_after f m b (pos 6) x6) (
                and_run (passes_after f m b (pos 7) x7) (
                  and_run (passes_after f m b (pos 8) x8) (
                    and_run (passes_after f m b (pos 9) x9) (
                      and_run (passes_after f m b (pos 10) x10) (
                        and_run (passes_after f m b (pos 11) x11) (
                          and_run (passes_after f m b (pos 12) x12) (
                            and_run (passes_after f m b (pos 13) x13) (
                              and_run (passes_after f m b (pos 14) x14)
                                (passes_after f m b (pos 15) x15)))))))))))))))

unfoldable pub bfa_l : {A : Type 0} → (A → Run Bool) → ℤ → ℤ → List (Blk A) → Run Bool
unfolding bfa1
bfa_l f m b [] = ok true
bfa_l f m b (t ∷ r) = do
  passed ← bfa1 f m b t
  elim passed [ true ↦ do b' ← z_add b (pos 16); bfa_l f m b' r | false ↦ ok false ]

unfoldable pub rpair_of : ℤ × ℤ → Run Rpair
unfolding hi16
rpair_of (a, b) = do
  start_a ← z_mul (pos 16) (hi16 a)
  start_b ← z_mul (pos 16) (hi16 b)
  ok (record { qa = hi16 a; da = nat_sub a start_a; qb = hi16 b; db = nat_sub b start_b })

unfoldable pub pair_ok_i : Cell → List (Blk Cell) → Rpair → Run Bool
unfolding qget
pair_ok_i z ls r = do
  after_b ← qget z ls r.qb r.db
  ab ← qget (pos 0) after_b.lcol r.qa r.da
  after_a ← qget z ls r.qa r.da
  ba ← qget (pos 0) after_a.lcol r.qb r.db
  ok (eqb_ℤ ab ba)

unfoldable pub comm_i : Cell → List (Blk Cell) → List Rpair → Run Bool
unfolding pair_ok_i
comm_i z ls [] = ok true
comm_i z ls (r ∷ t) = do b ← pair_ok_i z ls r; elim b [ true ↦ comm_i z ls t | false ↦ ok false ]

-- Whether state `s`, whose normal form is `nf`, is below `n`, and valid or 0.
unfoldable pub starts_i : ℤ → ℤ → ℤ → Bool
starts_i n nf s = if ltb_ℤ s n then (if eqb_ℤ nf s then true else eqb_ℤ s (pos 0)) else false

-- The normal form of a state is valid, and so are the states in `ls` that its events lead to.
unfoldable pub closed_i : ℤ → ℤ → Vt Cell → List (Blk Cell) → Cell → Run Bool
unfolding vlook zcell cell_ok bfa_l
closed_i n n_e ct ls c = do
  norm ← vlook (zcell n) ct c.lnf
  and_run (ok (cell_ok n norm)) (bfa_l (λ x. ok (cell_ok n x)) n_e (pos 0) ls)

unfoldable pub state_ok_i : ℤ → ℤ → Vt Cell → List Rpair → ℤ → Cell → Run Bool
unfolding vlook zcell map_t bmap closed_i starts_i comm_i
state_ok_i n n_e ct rp s c = do
  ls ← map_t (bmap (vlook (zcell n) ct)) c.lcol
  closed ← closed_i n n_e ct ls c
  elim closed [
    | true ↦ do commute ← comm_i (zcell n) ls rp; ok (implb (starts_i n c.lnf s) commute)
    | false ↦ ok false
  ]

unfoldable pub scan_i : ℤ → ℤ → Vt Cell → List Rpair → ℤ → List Cell → Run Bool
unfolding state_ok_i
scan_i n n_e ct rp s [] = ok true
scan_i n n_e ct rp s (c ∷ t) = do
  passed ← state_ok_i n n_e ct rp s c
  elim passed [ true ↦ do s' ← nat_succ s; scan_i n n_e ct rp s' t | false ↦ ok false ]

-- The first blocks of the rows, in blocks of rows.
unfoldable pub hgroup : List (List (Blk ℤ)) → Run (List (Blk (Blk ℤ)))
unfolding map_t hd zb chunk
hgroup rows = do heads ← map_t (λ r. ok (hd zb r)) rows; chunk b16 zb heads

-- The entries number `d` of the rows of a group.
unfoldable pub group_column : ℤ → List (Blk (Blk ℤ)) → Run (List (Blk ℤ))
unfolding map_t bmap dsel
group_column d hb = map_t (bmap (λ r. ok (dsel d r))) hb

unfoldable pub cells_b :
    ℤ → ℤ → List ℤ → List (Blk (Blk ℤ)) → List (List (Blk ℤ)) → List Cell → Run (List Cell)
unfolding group_column hgroup rev_append map_t tl
cells_b s d [] hb rows acc = ok (rev_append acc [])
cells_b s d (x ∷ t) hb rows acc = elim (ltb_ℤ d (pos 16)) [
  | true ↦ do
    s' ← nat_succ s
    d' ← nat_succ d
    col ← group_column d hb
    cells_b s' d' t hb rows (record { lk = s; lnf = x; lcol = col } ∷ acc)
  | false ↦ do
    hb' ← hgroup rows
    s' ← nat_succ s
    rows' ← map_t (λ r. ok (tl r)) rows
    col ← group_column (pos 0) hb'
    cells_b s' (pos 1) t hb' rows' (record { lk = s; lnf = x; lcol = col } ∷ acc)
]

unfoldable pub cells : List ℤ → List (List ℤ) → Run (List Cell)
unfolding map_t chunk cells_b
cells nfl tl0 = do rows ← map_t (chunk b16 (pos 0)) tl0; cells_b (pos 0) (pos 16) nfl [] rows []

-- The scan of the cells that were built, by F_check_fast and F_checkBuildT alike.
unfoldable pub scan_cells : ℤ → ℤ → List Cell → Option (List (ℤ × ℤ)) → Run Bool
unfolding pairs_ok_w zcell of_list_v rpair_of pairs_of_t map_t scan_i
scan_cells n n_e cs p = do
  declared ← pairs_ok_w n_e p
  elim declared [
    | true ↦ do
      ct ← of_list_v (zcell n) cs
      ps ← pairs_of_t n_e p
      rp ← map_t rpair_of ps
      scan_i n n_e ct rp (pos 0) cs
    | false ↦ ok false
  ]

unfoldable pub check_fast : ℤ → ℤ → List ℤ → List (List ℤ) → Option (List (ℤ × ℤ)) → Run Bool
unfolding cells scan_cells
check_fast n n_e nfl tl0 p = do cs ← cells nfl tl0; scan_cells n n_e cs p
