-- ===== src/Oracle/Fast/Sound.antt =====
-- F_check_fast of coq/goextract/oracle/oracle_gen.go on lists of natural numbers, and F_check_fn on the
-- accessors that read these lists.
use mathlib.Core.Path.{subst}
use normalization_confluence.Common.{
  ℕ, ◌+◌, ◌*◌, ◌^◌, ◌≤◌, ◌<◌, ◌≡◌, refl, sym, ap, ◌∙◌, Option, none, some, List, [], ◌∷◌, map,
  arith, length, get_or, length-map, All, In, true, zero, suc, inl, inr,
}
use normalization_confluence.Common.Int.{ℤ, pos, pos_part, ◌<ℤ◌}
use normalization_confluence.Common.Run.{ok, ◌>>=◌, returned, ok_inj, tested_true}
use normalization_confluence.Oracle.TableFn.{pairs_ok_w, check_fn}
use normalization_confluence.Oracle.TableFn.Spec.{
  IsDeclared, IsValid, IsStart, Commute, StateOk, TablesOk,
}
use normalization_confluence.Oracle.TableFn.Decides.{
  All-iff, pairs_of_t_lem, pairs_ok_w-Decides, check_fn-Decides,
}
use normalization_confluence.Oracle.Packed.Pairs.{IsPair}
use normalization_confluence.Oracle.Rules.Compact.Pairs.{AreNatural, In-All}
use normalization_confluence.Oracle.Fast.{Cell, zcell, cells, scan_cells, check_fast}
use normalization_confluence.Oracle.Fast.Rows.{row_entry, IsCell, cells-AreCells}
use normalization_confluence.Oracle.Fast.Table.{IsTable, Valid}
use normalization_confluence.Oracle.Fast.Scan.{Starts, IsSafe, scan_cells-IsSafe}

-- The accessors of the lists: 0 past the end.
abbrev pub nf_at : List ℕ → ℤ → ℤ
nf_at nfs s = pos (get_or nfs (pos_part s) 0)

abbrev pub st_at : List (List ℕ) → ℤ → ℤ → ℤ
st_at rows e s = pos (get_or (get_or rows (pos_part e) []) (pos_part s) 0)

-- The rows as the oracle takes them.
abbrev pub int_rows : List (List ℕ) → List (List ℤ)
int_rows rows = map (map pos) rows

-- An entry of a list that a function gives, the default included.
get_or-map_default :
    {A B : Type 0} (f : A → B) (d : A) (l : List A) (i : ℕ)
    → get_or (map f l) i (f d) ≡ f (get_or l i d)
get_or-map_default f d [] i = refl
get_or-map_default f d (x ∷ l) zero = refl
get_or-map_default f d (x ∷ l) (suc i) = get_or-map_default f d l i

row_entry-int_rows :
    (rows : List (List ℕ)) (e s : ℕ) → row_entry (int_rows rows) e s ≡ st_at rows (pos e) (pos s)
row_entry-int_rows rows e s =
    ap (λ r. get_or r s (pos 0)) (get_or-map_default (map pos) [] rows e)
    ∙ get_or-map_default pos 0 (get_or rows e []) s

short_row :
    (rows : List (List ℕ)) (e : ℕ)
    → All (λ r. length r < 2 ^ 32) rows
    → length (get_or (int_rows rows) e []) < 2 ^ 32
short_row [] e h = omega arith
short_row (r ∷ rows) zero h =
    let few : length r < 2 ^ 32 = h.0 in
    let size : length (map pos r) ≡ length r = length-map pos r in omega arith
short_row (r ∷ rows) (suc e) h = short_row rows e h.1

declared_natural :
    (n_e : ℕ) (p : Option (List (ℤ × ℤ))) (q : ℤ × ℤ)
    → AreNatural p
    → IsDeclared n_e p q
    → (a : ℕ) × (b : ℕ) × (q ≡ (pos a, pos b))
declared_natural n_e none q natural (a, b, e, _, _, _) = (a, b, e)
declared_natural n_e (some l) q natural m = In-All _ l q natural m

-- Declared pairs of natural numbers that pass F_pairs_okW are pairs of events.
declared-IsPair :
    (n_e : ℕ) (p : Option (List (ℤ × ℤ))) (q : ℤ × ℤ)
    → AreNatural p
    → IsDeclared n_e p q
    → (q.0 <ℤ pos n_e) × (q.1 <ℤ pos n_e)
    → IsPair n_e q
declared-IsPair n_e p q natural d low =
    let (a, b, e) = declared_natural n_e p q natural d in
    let low' : ((pos a) <ℤ pos n_e) × ((pos b) <ℤ pos n_e) =
      subst (λ q. (q.0 <ℤ pos n_e) × (q.1 <ℤ pos n_e)) e low in
    let la : a + 0 < n_e + 0 = low'.0 in
    let lb : b + 0 < n_e + 0 = low'.1 in (a, b, e, omega arith, omega arith)

module _ (nfs : List ℕ) (rows : List (List ℕ)) (few_states : length nfs < 2 ^ 32)
    (few_events : length rows < 2 ^ 31) (short : All (λ r. length r < 2 ^ 32) rows) where
  -- The cells that F_cells makes are those of the table.
  cells-IsTable :
      (out : List Cell) × (cells (map pos nfs) (int_rows rows) ≡ ok out)
      × (i : IsTable (length nfs) (length rows) out) × ((s : ℕ) → i.nf s ≡ get_or nfs s 0)
      × ((s e : ℕ) → i.st s e ≡ get_or (get_or rows e []) s 0)
  cells-IsTable =
      let n = length nfs in
      let n_e = length rows in
      let z = zcell (pos n) in
      let states : length (map pos nfs) ≡ length nfs = length-map pos nfs in
      let events : length (int_rows rows) ≡ length rows = length-map (map pos) rows in
      let few : length (int_rows rows) < 2 ^ 31 = omega arith in
      let (out, made, all) =
        cells-AreCells (map pos nfs) (int_rows rows) z (omega arith) few
          (λ e. short_row rows e short) in
      let (size, are) = all in
      let is_cell : (s : ℕ)
          → s < n
          → IsCell (length (int_rows rows)) few (row_entry (int_rows rows)) s
              (get_or (map pos nfs) s (pos 0)) (get_or out s z) =
        λ s lt.
          let first : 0 + s ≡ s = omega arith in
          subst
            (λ k.
              IsCell (length (int_rows rows)) few (row_entry (int_rows rows)) k
                (get_or (map pos nfs) s (pos 0)) (get_or out s z))
            first (are s (omega arith)) in
      (
        out,
        made,
        record {
          size = size ∙ states;
          few_states = few_states;
          few_events = few_events;
          nf = λ s. get_or nfs s 0;
          st = λ s e. get_or (get_or rows e []) s 0;
          number = λ s lt. (is_cell s lt).number;
          normal = λ s lt. (is_cell s lt).normal ∙ get_or-map_default pos 0 nfs s;
          steps = λ s e lt. (is_cell s lt).steps e ∙ row_entry-int_rows rows e s;
          enough = λ s lt.
              let le : length (int_rows rows) ≤ 16 * length (get_or out s z).lcol =
                (is_cell s lt).enough in
              omega arith;
          few_blocks = λ s lt. (is_cell s lt).few_blocks;
        },
        λ s. refl,
        λ s e. refl,
      )

module _ (nfs : List ℕ) (rows : List (List ℕ)) (out : List Cell)
    (i : IsTable (length nfs) (length rows) out) (nf_eq : (s : ℕ) → i.nf s ≡ get_or nfs s 0)
    (st_eq : (s e : ℕ) → i.st s e ≡ get_or (get_or rows e []) s 0) where
  Valid-IsValid :
      (k j : ℕ)
      → k ≡ j
      → Valid (length nfs) (length rows) out i k
      → IsValid (length nfs) (nf_at nfs) (pos j)
  Valid-IsValid k j same (lt, fixed) =
      let fixed' : get_or nfs k 0 ≡ k = sym (nf_eq k) ∙ fixed in
      let here : IsValid (length nfs) (nf_at nfs) (pos k) = (omega arith, ap pos fixed') in
      subst (λ k. IsValid (length nfs) (nf_at nfs) (pos k)) same here

  two_steps :
      (s a b : ℕ) → pos (i.st (i.st s b) a) ≡ st_at rows (pos a) (st_at rows (pos b) (pos s))
  two_steps s a b =
      ap pos (st_eq (i.st s b) a ∙ ap (λ k. get_or (get_or rows a []) k 0) (st_eq s b))

  IsStart-Starts :
      (s : ℕ) → IsStart (length nfs) (nf_at nfs) (pos s) → Starts (length nfs) (length rows) out i s
  IsStart-Starts s (lt, inl e) = inl (nf_eq s ∙ ap pos_part e)
  IsStart-Starts s (lt, inr e) = inr (ap pos_part e)

  IsSafe-StateOk :
      (p : Option (List (ℤ × ℤ))) (ps : List (ℤ × ℤ)) (s : ℕ)
      → ((q : ℤ × ℤ) → IsDeclared (length rows) p q → In q ps)
      → All (IsPair (length rows)) ps
      → IsSafe (length nfs) (length rows) out i ps s
      → StateOk (length nfs) (length rows) (nf_at nfs) (st_at rows) p s
  IsSafe-StateOk p ps s listed natural safe = (
    Valid-IsValid (i.nf s) (get_or nfs s 0) (nf_eq s) safe.settles,
    (λ e le lt.
        Valid-IsValid (i.st s e) (get_or (get_or rows e []) s 0) (st_eq s e) (safe.closed e lt)),
    λ start q d.
        let (a, b, e, la, lb) = In-All (IsPair (length rows)) ps q natural (listed q d) in
        let declared : In (pos a, pos b) ps = subst (λ q. In q ps) e (listed q d) in
        let both : Commute (st_at rows) (pos s) (pos a, pos b) =
          sym (two_steps s a b)
          ∙ ap pos (safe.commutes (IsStart-Starts s start) a b declared la lb)
          ∙ two_steps s b a in
        subst (Commute (st_at rows) (pos s)) (sym e) both,
  )

-- If F_check_fast returns `true`, then so does F_check_fn on the accessors that read the same lists.
pub check_fast-check_fn :
    (nfs : List ℕ) (rows : List (List ℕ)) (p : Option (List (ℤ × ℤ)))
    → length nfs < 2 ^ 32
    → length rows < 2 ^ 31
    → All (λ r. length r < 2 ^ 32) rows
    → AreNatural p
    → check_fast (pos (length nfs)) (pos (length rows)) (map pos nfs) (int_rows rows) p ≡ ok true
    → check_fn (pos (length nfs)) (pos (length rows)) (nf_at nfs) (st_at rows) p ≡ ok true
unfolding check_fast scan_cells
check_fast-check_fn nfs rows p few_states few_events short natural e =
    let n = length nfs in
    let n_e = length rows in
    let (out, made, i, nf_eq, st_eq) = cells-IsTable nfs rows few_states few_events short in
    let scan : scan_cells (pos n) (pos n_e) out p ≡ ok true =
      sym (ap (λ r. r >>= (λ cs. scan_cells (pos n) (pos n_e) cs p)) made) ∙ e in
    let (b, e₁, f₁) = returned (pairs_ok_w (pos n_e) p) scan in
    let (named, _) = tested_true b _ f₁ in
    let (b', e₂, iff) = pairs_ok_w-Decides n n_e (nf_at nfs) (st_at rows) p (omega arith) in
    let low = iff.0 (ok_inj (sym e₂ ∙ e₁) ∙ named) in
    let (ps, listed, members) = pairs_of_t_lem n_e p (omega arith) in
    let pairs : All (IsPair n_e) ps =
      (All-iff (IsPair n_e) ps).1
        (λ q m. let d = (members q).0 m in declared-IsPair n_e p q natural d (low q d)) in
    let tables : TablesOk n n_e (nf_at nfs) (st_at rows) p = (
      low,
      λ s lo lt.
          IsSafe-StateOk nfs rows out i nf_eq st_eq p ps s (λ q d. (members q).1 d) pairs
            (scan_cells-IsSafe n n_e out i p ps scan listed pairs s lt),
    ) in
    let (t, decided, says) =
      check_fn-Decides n n_e (nf_at nfs) (st_at rows) p (omega arith) (omega arith) in
    decided ∙ ap ok (says.1 tables)
