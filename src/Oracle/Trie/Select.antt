-- ===== src/Oracle/Trie/Select.antt =====
-- The comparisons of F_vget of coq/goextract/oracle/oracle_gen.go: which of the 16 entries they reach.
use mathlib.Core.Path.{subst}
use native.Mathlib.Decide.{dec_lt}
use native.Mathlib.Nat.{add-mul}
use normalization_confluence.Common.{
  ℕ, ◌+◌, ◌*◌, ◌^◌, ◌≤◌, ◌<◌, ◌≡◌, refl, ap, ◌∙◌, true, false, arith,
}
use normalization_confluence.Common.Int.{ℤ, pos, ltb_ℤ}
use normalization_confluence.Common.Run.{Run}
use normalization_confluence.Oracle.Prims.Exact.{z_add_pos}
use normalization_confluence.Oracle.Trie.{half, select}

module _ {A : Type 0} (k p : ℕ) where
  -- The search ends at the entry of size `p` that has `k`, one of `n` from `b` on.
  abbrev pub Lands : ℕ → (ℕ → ℤ → Run A) → ℕ → Run A → Type 0
  Lands b f n r =
      (c : ℕ) × (c < n) × (b + c * p ≤ k) × (k < b + c * p + p) × (r ≡ f c (pos (b + c * p)))

  Lands-one : (b : ℕ) (f : ℕ → ℤ → Run A) → b ≤ k → k < b + p → Lands b f 1 (f 0 (pos b))
  Lands-one b f le lt =
      (0, omega arith, omega arith, omega arith, ap (λ x. f 0 (pos x)) (omega arith))

  half-below :
      (b s : ℕ) (lower upper : ℤ → Run A)
      → b + s < 2 ^ 63
      → k < b + s
      → half (pos k) (pos s) (pos b) lower upper ≡ lower (pos b)
  unfolding half
  half-below b s lower upper small lt =
      rw (z_add_pos b s small)
        (ap (λ c. elim c [ true ↦ lower (pos b) | false ↦ upper (pos (b + s)) ]) below)
    where
      below : ltb_ℤ (pos k) (pos (b + s)) ≡ true
      below = ground arith

  half-above :
      (b s : ℕ) (lower upper : ℤ → Run A)
      → b + s < 2 ^ 63
      → b + s ≤ k
      → half (pos k) (pos s) (pos b) lower upper ≡ upper (pos (b + s))
  unfolding half
  half-above b s lower upper small le =
      rw (z_add_pos b s small)
        (ap (λ c. elim c [ true ↦ lower (pos b) | false ↦ upper (pos (b + s)) ]) above)
    where
      above : ltb_ℤ (pos k) (pos (b + s)) ≡ false
      above = ground arith

  half-Lands :
      (b n s : ℕ) (f : ℕ → ℤ → Run A) (lower upper : ℤ → Run A)
      → s ≡ n * p
      → b + s < 2 ^ 63
      → (k < b + s → Lands b f n (lower (pos b)))
      → (b + s ≤ k → Lands (b + s) (λ c. f (n + c)) n (upper (pos (b + s))))
      → Lands b f (n + n) (half (pos k) (pos s) (pos b) lower upper)
  half-Lands b n s f lower upper size small h h' = elim (dec_lt k (b + s)) [
    | yes lt ↦
        let (c, lc, l, u, e) = h lt in
        (c, omega arith, l, u, half-below b s lower upper small lt ∙ e)
    | no ge ↦
        let (c, lc, l, u, e) = h' (omega arith) in
        let q : b + s + c * p ≡ b + (n + c) * p = rw (add-mul n c p) (omega arith) in
        (
          n + c,
          omega arith,
          subst (λ x. x ≤ k) q l,
          subst (λ x. k < x + p) q u,
          half-above b s lower upper small (omega arith) ∙ e ∙ ap (λ x. f (n + c) (pos x)) q,
        )
  ]

  abbrev two : (ℕ → ℤ → Run A) → ℤ → Run A
  two f b = half (pos k) (pos p) b (f 0) (f 1)

  two-Lands :
      (b : ℕ) (f : ℕ → ℤ → Run A)
      → b + 2 * p < 2 ^ 63
      → b ≤ k
      → k < b + 2 * p
      → Lands b f 2 (two f (pos b))
  two-Lands b f small le lt =
      half-Lands b 1 p f (f 0) (f 1) (omega arith) (omega arith) (λ h. Lands-one b f le h)
        λ h. Lands-one (b + p) (λ c. f (1 + c)) h (omega arith)

  abbrev four : (ℕ → ℤ → Run A) → ℤ → Run A
  four f b = half (pos k) (pos (2 * p)) b (two f) (two (λ c. f (2 + c)))

  four-Lands :
      (b : ℕ) (f : ℕ → ℤ → Run A)
      → b + 4 * p < 2 ^ 63
      → b ≤ k
      → k < b + 4 * p
      → Lands b f 4 (four f (pos b))
  four-Lands b f small le lt =
      half-Lands b 2 (2 * p) f (two f) (two (λ c. f (2 + c))) refl (omega arith)
        (λ h. two-Lands b f (omega arith) le h)
        λ h. two-Lands (b + 2 * p) (λ c. f (2 + c)) (omega arith) h (omega arith)

  abbrev eight : (ℕ → ℤ → Run A) → ℤ → Run A
  eight f b = half (pos k) (pos (4 * p)) b (four f) (four (λ c. f (4 + c)))

  eight-Lands :
      (b : ℕ) (f : ℕ → ℤ → Run A)
      → b + 8 * p < 2 ^ 63
      → b ≤ k
      → k < b + 8 * p
      → Lands b f 8 (eight f (pos b))
  eight-Lands b f small le lt =
      half-Lands b 4 (4 * p) f (four f) (four (λ c. f (4 + c))) refl (omega arith)
        (λ h. four-Lands b f (omega arith) le h)
        λ h. four-Lands (b + 4 * p) (λ c. f (4 + c)) (omega arith) h (omega arith)

  -- The comparisons find the entry of size `p`, of the 16 from `b` on, that has `k`.
  pub select-Lands :
      (b : ℕ) (f : ℕ → ℤ → Run A)
      → b + 16 * p < 2 ^ 63
      → b ≤ k
      → k < b + 16 * p
      → Lands b f 16 (
          select
            (pos k)
            (pos (8 * p))
            (pos (4 * p))
            (pos (2 * p))
            (pos p)
            (pos b)
            (f 0)
            (f 1)
            (f 2)
            (f 3)
            (f 4)
            (f 5)
            (f 6)
            (f 7)
            (f 8)
            (f 9)
            (f 10)
            (f 11)
            (f 12)
            (f 13)
            (f 14)
            (f 15))
  unfolding select
  select-Lands b f small le lt =
      half-Lands b 8 (8 * p) f (eight f) (eight (λ c. f (8 + c))) refl (omega arith)
        (λ h. eight-Lands b f (omega arith) le h)
        λ h. eight-Lands (b + 8 * p) (λ c. f (8 + c)) (omega arith) h (omega arith)
