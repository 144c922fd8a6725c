-- ===== src/Oracle/Rules/Box.antt =====
-- The list of all states of a machine: F_prependAll, F_layer and F_box of
-- coq/goextract/oracle/oracle_gen.go, and F_valeqb, the equality of states.
pub mod Range
use normalization_confluence.Common.{zero, suc, Bool, true, false, List, [], ◌∷◌, ◌&&◌}
use normalization_confluence.Common.Int.{ℤ, pos, negsuc, eqb_ℤ}
use normalization_confluence.Common.Run.{Run, ok, panic, ◌>>=◌, not_a_nat}
use normalization_confluence.Oracle.Rules.{State}

unfoldable pub prepend_all : ℤ → List State → List State → List State
prepend_all x [] acc = acc
prepend_all x (w ∷ ws) acc = prepend_all x ws ((x ∷ w) ∷ acc)

unfoldable pub layer : ℤ → List State → List State → Run (List State)
layer (negsuc _) ws acc = panic not_a_nat
layer (pos zero) ws acc = ok acc
layer (pos (suc k)) ws acc = layer (pos k) ws (prepend_all (pos k) ws acc)

unfoldable pub box : List ℤ → Run (List State)
box [] = ok ([] ∷ [])
box (d ∷ rest) = do ws ← box rest; layer d ws []

unfoldable pub valeqb : State → State → Bool
valeqb [] [] = true
valeqb [] (_ ∷ _) = false
valeqb (_ ∷ _) [] = false
valeqb (x ∷ xs) (y ∷ ys) = eqb_ℤ x y && valeqb xs ys
