-- ===== src/Oracle/Rules/Build/Enclosed.antt =====
-- F_lo and F_hi, and the values of an expression on the states in range.
use mathlib.Core.Path.{subst}
use normalization_confluence.Common.{
  ℕ, zero, suc, ◌^◌, ◌<◌, ◌≡◌, refl, sym, ◌∙◌, List, [], ◌∷◌, arith, All,
}
use normalization_confluence.Common.Int.{
  ℤ, pos, negsuc, ◌≤ℤ◌, ◌<ℤ◌, ◌+ℤ◌, ◌-ℤ◌, IsI64, int_laws, +ℤ_parts, -ℤ_parts,
}
use normalization_confluence.Common.Run.{ok, returned, ok_inj}
use normalization_confluence.Oracle.Prims.{z_add}
use normalization_confluence.Oracle.Prims.Within.{
  z_add-returned, z_sub-returned, z_add_mono, z_sub_mono,
}
use normalization_confluence.Oracle.Lists.{nth}
use normalization_confluence.Oracle.Lists.Members.{nth-All, nth-index, nth-total}
use normalization_confluence.Oracle.Positive.{nat_z}
use normalization_confluence.Oracle.Positive.Exact.{nat_z-exact}
use normalization_confluence.Oracle.Rules.{
  Expr, e_var, e_lit, e_add, e_sub, Machine, State, rd, eval_e,
}
use normalization_confluence.Oracle.Rules.Box.Range.{InRange}
use normalization_confluence.Oracle.Rules.Build.{lo, hi}
use normalization_confluence.Oracle.Rules.Build.Bounds.{LiteralsI64}

-- A raw value in range: a nat, below the size of its domain or 0 past the end.
rd-InRange :
    (ds : List ℤ) (s : State) (i : ℤ) {d : ℤ}
    → InRange ds s
    → nth i ds (pos 1) ≡ ok d
    → (n : ℕ) × (rd i s ≡ ok (pos n)) × (pos n <ℤ d)
unfolding rd nth
rd-InRange ds s (negsuc i) r e = absurd (cc)
rd-InRange [] [] (pos i) r e = (0, refl, subst (λ y. pos 0 <ℤ y) (ok_inj e) (omega arith))
rd-InRange [] (x ∷ s) (pos i) r e = elim r [ ]
rd-InRange (d ∷ ds) [] (pos i) r e = elim r [ ]
rd-InRange (d ∷ ds) (pos n ∷ s) (pos zero) r e =
    (n, refl, subst (λ y. pos n <ℤ y) (ok_inj e) (omega arith))
rd-InRange (d ∷ ds) (negsuc n ∷ s) (pos zero) r e = absurd (omega arith)
rd-InRange (d ∷ ds) (x ∷ s) (pos (suc i)) r e = rd-InRange ds s (pos i) r.1 e

-- Where the expression evaluates to `v`, what `F_lo` and `F_hi` return encloses `v`.
abbrev pub Enclosed : Machine → State → Expr → ℤ → Type 0
Enclosed m s x v =
    eval_e m.mins s x ≡ ok v
    → IsI64 v
      × ((l : ℤ) → lo m x ≡ ok l → (l ≤ℤ v) × IsI64 l)
      × ((u : ℤ) → hi m x ≡ ok u → (v ≤ℤ u) × IsI64 u)

low-of_var :
    (mins : List ℤ) (i : ℤ) (s : State) {v : ℤ}
    → eval_e mins s (e_var i) ≡ ok v
    → (low : ℤ) × (nth i mins (pos 0) ≡ ok low)
unfolding eval_e
low-of_var mins i s q = let (low, e, _) = returned (nth i mins (pos 0)) q in (low, e)

below-top : (low : ℤ) (n d : ℕ) → n < d → (low +ℤ pos n) ≤ℤ (low +ℤ pos d -ℤ pos 1)
below-top low n d h =
    grind (int_laws, +ℤ_parts low (pos n), +ℤ_parts low (pos d), -ℤ_parts (low +ℤ pos d) (pos 1))

var_above :
    (low : ℤ) (n : ℕ) (l v : ℤ) → low +ℤ pos n ≡ v → IsI64 low → low ≡ l → (l ≤ℤ v) × IsI64 l
var_above low n l v q h e =
    subst (λ y. (y ≤ℤ v) × IsI64 y) e
      (subst (λ x. low ≤ℤ x) q (grind (int_laws, +ℤ_parts low (pos n))), h)

-- The largest value of a variable, as `F_hi` computes it.
hi-of_var :
    (m : Machine) (i : ℤ) (low u : ℤ) (n : ℕ) (d : ℤ)
    → IsI64 low
    → IsI64 d
    → pos n <ℤ d
    → nth i m.mins (pos 0) ≡ ok low
    → nth i m.doms (pos 1) ≡ ok d
    → hi m (e_var i) ≡ ok u
    → ((low +ℤ pos n) ≤ℤ u) × IsI64 u
unfolding hi
hi-of_var m i low u n (negsuc d) hl hd lt e e' h = absurd (omega arith)
hi-of_var m i low u n (pos d) hl hd lt e e' h =
    let (low', e₁, f₁) = returned (nth i m.mins (pos 0)) h in
    let (d', e₂, f₂) = returned (nth i m.doms (pos 1)) f₁ in
    let (k, e₃, f₃) = returned (nat_z d') f₂ in
    let (t, e₄, f₄) = returned (z_add low' k) f₃ in
    let k_eq =
      ok_inj
        (sym e₃ ∙ subst (λ x. nat_z x ≡ ok (pos d)) (ok_inj (sym e' ∙ e₂)) (nat_z-exact d hd)) in
    let f₅ = subst (λ x. z_add x k ≡ ok t) (ok_inj (sym e₁ ∙ e)) e₄ in
    let f₆ = subst (λ x. z_add low x ≡ ok t) k_eq f₅ in
    let (t_eq, ht) = z_add-returned low (pos d) hl hd f₆ in
    let (u_eq, hu) = z_sub-returned t (pos 1) ht (omega arith) f₄ in
    (
      subst (λ x. (low +ℤ pos n) ≤ℤ x) u_eq
          (subst (λ x. (low +ℤ pos n) ≤ℤ (x -ℤ pos 1)) t_eq (below-top low n d (omega arith))),
      hu,
    )

literal_above : (n l v : ℤ) → n ≡ l → n ≡ v → IsI64 n → (l ≤ℤ v) × IsI64 l
literal_above n l v e e' h =
    subst (λ y. (y ≤ℤ v) × IsI64 y) e (subst (λ y. n ≤ℤ y) e' (omega arith), h)

literal_below : (n u v : ℤ) → n ≡ u → n ≡ v → IsI64 n → (v ≤ℤ u) × IsI64 u
literal_below n u v e e' h =
    subst (λ y. (v ≤ℤ y) × IsI64 y) e (subst (λ y. y ≤ℤ n) e' (omega arith), h)

module _ (m : Machine) (hd : All IsI64 m.doms) (hm : All IsI64 m.mins) where
  -- The value of a variable: its minimum plus a raw value below the size of its domain.
  var-value :
      (i : ℤ) (s : State) {low d v : ℤ}
      → InRange m.doms s
      → nth i m.mins (pos 0) ≡ ok low
      → nth i m.doms (pos 1) ≡ ok d
      → eval_e m.mins s (e_var i) ≡ ok v
      → (n : ℕ) × (low +ℤ pos n ≡ v) × IsI64 v × (pos n <ℤ d)
  unfolding eval_e
  var-value i s {low} {d} {v} r e e' q =
      let (low', e₁, f₁) = returned (nth i m.mins (pos 0)) q in
      let (raw, e₂, f₂) = returned (rd i s) f₁ in
      let (raw', e₃, f₃) = returned (nat_z raw) f₂ in
      let (n, e₄, lt) = rd-InRange m.doms s i r e' in
      let small = below_size n d lt (nth-All IsI64 m.doms i hd (omega arith) e') in
      let raw_eq = ok_inj (sym e₂ ∙ e₄) in
      let raw'_eq =
        ok_inj (sym e₃ ∙ subst (λ x. nat_z x ≡ ok (pos n)) (sym raw_eq) (nat_z-exact n small)) in
      let low_eq = ok_inj (sym e₁ ∙ e) in
      let f₄ = subst (λ x. z_add x raw' ≡ ok v) low_eq f₃ in
      let f₅ = subst (λ x. z_add low x ≡ ok v) raw'_eq f₄ in
      let (v_eq, hv) =
        z_add-returned low (pos n) (nth-All IsI64 m.mins i hm (omega arith) e) small f₅ in
      (n, v_eq, hv, lt)
    where
      below_size : (n : ℕ) (d : ℤ) → pos n <ℤ d → IsI64 d → n < 2 ^ 63
      below_size n (pos d) lt h = omega arith
      below_size n (negsuc d) lt h = absurd (omega arith)

  -- What `F_lo` and `F_hi` of a variable say of its value.
  var-Enclosed : (i : ℤ) (s : State) {v : ℤ} → InRange m.doms s → Enclosed m s (e_var i) v
  unfolding lo hi
  var-Enclosed i s {v} r q =
      let (low, e) = low-of_var m.mins i s q in
      let (k, i_eq) = nth-index i m.mins (pos 0) e in
      let (d, e', _) = nth-total k m.doms (pos 1) in
      let e'' = subst (λ j. nth j m.doms (pos 1) ≡ ok d) (sym i_eq) e' in
      let (n, v_eq, hv, lt) = var-value i s r e e'' q in
      let hl = nth-All IsI64 m.mins i hm (omega arith) e in
      let hd' = nth-All IsI64 m.doms i hd (omega arith) e'' in
      (
        hv,
        (λ l h. var_above low n l v v_eq hl (ok_inj (sym e ∙ h))),
        λ u h. subst (λ x. (x ≤ℤ u) × IsI64 u) v_eq (hi-of_var m i low u n d hl hd' lt e e'' h),
      )

  -- Where an expression evaluates, on a state in range, to `v`, the results of `F_lo` and `F_hi`
  -- enclose `v`. The minima, the sizes of the domains and the literals of the expression are int64.
  pub expr-Enclosed :
      (x : Expr) (s : State) {v : ℤ} → LiteralsI64 x → InRange m.doms s → Enclosed m s x v
  unfolding eval_e lo hi
  expr-Enclosed (e_var i) s h r e = var-Enclosed i s r e
  expr-Enclosed (e_lit n) s h r e = (
    subst IsI64 (ok_inj e) h,
    (λ l q. literal_above n l _ (ok_inj q) (ok_inj e) h),
    λ u q. literal_below n u _ (ok_inj q) (ok_inj e) h,
  )
  expr-Enclosed (e_add x y) s h r e =
      let (a, e₁, f₁) = returned (eval_e m.mins s x) e in
      let (b, e₂, f₂) = returned (eval_e m.mins s y) f₁ in
      let (ha, low, high) = expr-Enclosed x s h.0 r e₁ in
      let (hb, low', high') = expr-Enclosed y s h.1 r e₂ in
      (
        (z_add-returned a b ha hb f₂).1,
        (λ l q.
            let (c, q₁, g₁) = returned (lo m x) q in
            let (d, q₂, g₂) = returned (lo m y) g₁ in
            let (le, (hl, _)) = z_add_mono c d a b (low c q₁) (low' d q₂) ha hb g₂ f₂ in (le, hl)),
        λ u q.
            let (c, q₁, g₁) = returned (hi m x) q in
            let (d, q₂, g₂) = returned (hi m y) g₁ in
            let (lc, hc) = high c q₁ in
            let (ld, hd') = high' d q₂ in
            let (le, (_, hu)) = z_add_mono a b c d (lc, ha) (ld, hb) hc hd' f₂ g₂ in (le, hu),
      )
  expr-Enclosed (e_sub x y) s h r e =
      let (a, e₁, f₁) = returned (eval_e m.mins s x) e in
      let (b, e₂, f₂) = returned (eval_e m.mins s y) f₁ in
      let (ha, low, high) = expr-Enclosed x s h.0 r e₁ in
      let (hb, low', high') = expr-Enclosed y s h.1 r e₂ in
      (
        (z_sub-returned a b ha hb f₂).1,
        (λ l q.
            let (c, q₁, g₁) = returned (lo m x) q in
            let (d, q₂, g₂) = returned (hi m y) g₁ in
            let (le, (hl, _)) = z_sub_mono c d a b (low c q₁) (high' d q₂) ha hb g₂ f₂ in (le, hl)),
        λ u q.
            let (c, q₁, g₁) = returned (hi m x) q in
            let (d, q₂, g₂) = returned (lo m y) g₁ in
            let (lc, hc) = high c q₁ in
            let (ld, hd') = low' d q₂ in
            let (le, (_, hu)) = z_sub_mono a b c d (lc, ha) (ld, hb) hc hd' f₂ g₂ in (le, hu),
      )
