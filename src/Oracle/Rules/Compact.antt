-- ===== src/Oracle/Rules/Compact.antt =====
-- The rules oracle in compact memory: F_checkBuildC of coq/goextract/oracle/oracle_gen.go, with the
-- enumeration of the states without a list of them (F_foldB) and the two passes that number the
-- states (F_p1) and tabulate their normal forms and steps (F_p2).
pub mod States
pub mod Visits
pub mod FirstPass
pub mod Numbering
pub mod Lookup
pub mod Agrees
pub mod Columns
pub mod SecondPass
pub mod Tables
pub mod Commutes
pub mod Pairs
pub mod Sound
use normalization_confluence.Common.{zero, suc, Bool, true, false, Option, List, [], ◌∷◌, ◌++◌}
use normalization_confluence.Common.Int.{ℤ, pos, negsuc, ltb_ℤ, eqb_ℤ}
use normalization_confluence.Common.Run.{Run, ok, panic, ◌>>=◌, and_run, not_a_nat}
use normalization_confluence.Oracle.Prims.{z_add, z_mul, nat_sub, nat_succ}
use normalization_confluence.Oracle.Lists.{fold_left}
use normalization_confluence.Oracle.TableFn.{pairs_ok_w}
use normalization_confluence.Oracle.Trie.{rev_append, hi16, len_t, chunk, of_list_v, vlook}
use normalization_confluence.Oracle.Blocks.{Blk, b16, rev_map}
use normalization_confluence.Oracle.Packed.{scan_c}
use normalization_confluence.Oracle.Rules.{Machine, State}
use normalization_confluence.Oracle.Rules.Box.{layer}
use normalization_confluence.Oracle.Rules.Step.{all_valid, normalize, fuel_of, gapp}
use normalization_confluence.Oracle.Rules.Build.{bounded, sign_safe}

-- The number of a state: its raw values are the digits, and the domains the bases.
unfoldable pub enc_a : List ℤ → State → ℤ → Run ℤ
enc_a [] v acc = ok acc
enc_a (d ∷ ds) [] acc = ok acc
enc_a (d ∷ ds) (x ∷ v) acc = do t ← z_mul acc d; t' ← z_add t x; enc_a ds v t'

unfoldable pub enc : List ℤ → State → Run ℤ
unfolding enc_a
enc ds v = enc_a ds v (pos 0)

unfoldable pub box_t : List ℤ → Run (List State)
unfolding layer rev_append
box_t [] = ok ([] ∷ [])
box_t (d ∷ rest) = do ws ← box_t rest; layer d (rev_append ws []) []

unfoldable pub prod_l : List ℤ → Run ℤ
unfolding fold_left
prod_l ds = fold_left z_mul ds (pos 1)

module _ {T : Type 0} where
  -- g (k - 1), …, g 0, one after the other.
  unfoldable pub loop_d : (ℤ → T → Run T) → ℤ → T → Run T
  loop_d g (negsuc _) acc = panic not_a_nat
  loop_d g (pos zero) acc = ok acc
  loop_d g (pos (suc k)) acc = do t ← g (pos k) acc; loop_d g (pos k) t

  unfoldable pub fold_d : List ℤ → (State → T → Run T) → T → Run T
  unfolding loop_d
  fold_d [] f acc = f [] acc
  fold_d (d ∷ rest) f acc = loop_d (λ x a. fold_d rest (λ w. f (x ∷ w)) a) d acc

-- A suffix of at most `bound` states, and the variables before it.
unfoldable pub split_at : ℤ → ℤ → List ℤ × List ℤ → Run (List ℤ × List ℤ)
unfolding prod_l
split_at bound d ([], suffix) = do
  k ← prod_l suffix
  states ← z_mul d k
  limit ← nat_succ bound
  elim (ltb_ℤ states limit) [ true ↦ ok ([], d ∷ suffix) | false ↦ ok (d ∷ [], suffix) ]
split_at bound d (x ∷ prefix, suffix) = ok (d ∷ x ∷ prefix, suffix)

unfoldable pub split_suf : ℤ → List ℤ → Run (List ℤ × List ℤ)
unfolding split_at
split_suf bound [] = ok ([], [])
split_suf bound (d ∷ rest) = do ps ← split_suf bound rest; split_at bound d ps

unfoldable pub fold_b : {T : Type 0} → List ℤ → (State → T → Run T) → T → Run T
unfolding split_suf box_t rev_append fold_left fold_d
fold_b ds f acc = do
  square ← z_mul (pos 16) (pos 16)
  bound ← z_mul square (pos 16)
  ps ← split_suf bound ds
  ws ← box_t ps.1
  fold_d ps.0 (λ pv a. fold_left (λ a' w. f (pv ++ w) a') (rev_append ws []) a) acc

-- The first pass: whether every state so far repairs to a valid one, and the numbers of the repaired
-- states.
unfoldable pub p1 : Machine → ℤ → State → Bool × List ℤ → Run (Bool × List ℤ)
unfolding enc
p1 m f v (false, l) = ok (false, l)
p1 m f v (true, l) = do w ← normalize m f v; t ← all_valid m w; i ← enc m.doms w; ok (t, i ∷ l)

unfoldable pub col_onto : Machine → (ℤ → Run ℤ) → State → List ℤ → Run (List ℤ)
unfolding enc rev_map rev_append
col_onto m look v buf = do
  i ← enc m.doms v
  nf ← look i
  steps ← rev_map (λ ge. do u ← gapp m ge v; j ← enc m.doms u; look j) m.evs []
  ok (nf ∷ rev_append steps buf)

-- The second pass: the columns of the states, which go into blocks at every 16th state.
unfoldable pub p2 :
    Machine → (ℤ → Run ℤ) → State → List ℤ × List (Blk ℤ) → Run (List ℤ × List (Blk ℤ))
unfolding enc col_onto hi16 chunk rev_append
p2 m look v st = do
  buf ← col_onto m look v st.0
  i ← enc m.doms v
  start ← z_mul (pos 16) (hi16 i)
  elim (eqb_ℤ (nat_sub i start) (pos 0)) [
    | true ↦ do bs ← chunk b16 (pos 0) buf; ok ([], rev_append (rev_append bs []) st.1)
    | false ↦ ok (buf, st.1)
  ]

-- F_checkBuildC after its first pass, on the numbers that it gave.
unfoldable pub check_tables : Machine → Option (List (ℤ × ℤ)) → List ℤ → Run Bool
unfolding len_t of_list_v vlook fold_b p2 scan_c
check_tables m p numbers = do
  n_e ← len_t m.evs (pos 0)
  declared ← pairs_ok_w n_e p
  elim declared [
    | true ↦ do
      n ← len_t numbers (pos 0)
      t ← of_list_v (pos 0) numbers
      st ← fold_b m.doms (p2 m (vlook (pos 0) t)) ([], [])
      scan_c n n_e st.1 p
    | false ↦ ok false
  ]

-- F_checkBuildC from its first pass on.
unfoldable pub check_passes : Machine → Option (List (ℤ × ℤ)) → Run Bool
unfolding fold_b p1 check_tables
check_passes m p = do
  f ← fuel_of m
  r ← fold_b m.doms (p1 m f) (true, [])
  elim r.0 [ true ↦ check_tables m p r.1 | false ↦ ok false ]

unfoldable pub check_build_c : Machine → Option (List (ℤ × ℤ)) → Run Bool
unfolding check_passes
check_build_c m p = do
  safe ← and_run (bounded m) (sign_safe m)
  elim safe [ true ↦ check_passes m p | false ↦ ok false ]
