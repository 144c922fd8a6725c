-- ===== src/TableCheck/Accessors.antt =====
-- The accessors that coq/goextract/cmd/tablecheck/main.go hands to the oracle: the parsed entries,
-- and 0 out of range.
use normalization_confluence.Common.{ℕ, ◌&&◌, List, [], get_or, if◌then◌else◌, arith}
use normalization_confluence.Common.Int.{ℤ, pos, negsuc, ltb_ℤ, leb_ℤ}
use normalization_confluence.TableCheck.Parse.{Tables}
use normalization_confluence.Oracle.TableFn.Converges.{IsNatural}

-- An entry of a slice at an index that is in range.
abbrev pub entry : List ℕ → ℤ → ℤ
entry l (pos s) = pos (get_or l s 0)
entry l (negsuc _) = pos 0

-- `nfA`
unfoldable pub nf_a : Tables → ℤ → ℤ
nf_a t s = if leb_ℤ (pos 0) s && ltb_ℤ s (pos t.n) then entry t.nf s else pos 0

abbrev row : List (List ℕ) → ℤ → List ℕ
row rows (pos e) = get_or rows e []
row rows (negsuc _) = []

-- `stA`
unfoldable pub st_a : Tables → ℤ → ℤ → ℤ
st_a t e s =
    if leb_ℤ (pos 0) e && ltb_ℤ e (pos t.n_e)
    then (if leb_ℤ (pos 0) s && ltb_ℤ s (pos t.n) then entry (row t.rows e) s else pos 0)
    else pos 0

-- The accessor returns non-negative numbers only, as the oracle requires.
pub st_a-IsNatural : (t : Tables) → IsNatural (st_a t)
unfolding st_a
st_a-IsNatural t e s = ground arith
