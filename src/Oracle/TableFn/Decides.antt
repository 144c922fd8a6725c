-- ===== src/Oracle/TableFn/Decides.antt =====
-- F_check_fn and what it calls, compared with Oracle/TableFn/Spec.
use mathlib.Core.Path.{subst}
use normalization_confluence.Common.{
  ℕ, ◌^◌, ◌-◌, ◌<◌, ◌≡◌, refl, sym, if◌then◌else◌, Bool, true, false, Option, none, some, List, [],
  ◌∷◌, arith, inl, inr, ◌↔◌, ↔_trans, ×_congr, &&_iff, All, In,
}
use normalization_confluence.Common.Int.{ℤ, pos, ◌<ℤ◌, ltb_ℤ_iff, eqb_ℤ_iff}
use normalization_confluence.Common.Run.{ok}
use normalization_confluence.Oracle.Loops.Total.{all_k-Decides, forallb-Decides}
use normalization_confluence.Common.Decides.{Decides, Decides-ok, Decides-congr, Decides-and}
use normalization_confluence.Oracle.Loops.Pairs.{all_pairs_t_lem}
use normalization_confluence.Oracle.TableFn.{
  pairs_of_t, pairs_ok_w, in_vf, in_df, pair_ok_f, comm_f, state_ok_f, check_fn,
}
use normalization_confluence.Oracle.TableFn.Spec.{
  IsDeclared, IsValid, IsStart, Commute, StateOk, TablesOk,
}

pub in_vf_iff : (n : ℕ) (nf : ℤ → ℤ) (x : ℤ) → (in_vf (pos n) nf x ≡ true) ↔ IsValid n nf x
unfolding in_vf
in_vf_iff n nf x = ↔_trans (&&_iff _ _) (×_congr (ltb_ℤ_iff x (pos n)) (eqb_ℤ_iff (nf x) x))

pub in_df_iff : (n : ℕ) (nf : ℤ → ℤ) (s : ℤ) → (in_df (pos n) nf s ≡ true) ↔ IsStart n nf s
unfolding in_df
in_df_iff n nf s = ground (arith, ltb_ℤ_iff s (pos n), eqb_ℤ_iff (nf s) s, eqb_ℤ_iff s (pos 0))

-- A statement on every member of a list, at its head and on its tail.
cons_iff :
    {A : Type 0} (P : A → Type 0) (x : A) (l : List A)
    → (P x × ((q : A) → In q l → P q)) ↔ ((q : A) → In q (x ∷ l) → P q)
cons_iff P x l = (
  (λ h q. elim [ inl e ↦ subst P (sym e) h.0 | inr m ↦ h.1 q m ]),
  λ h. (h x (inl refl), λ q m. h q (inr m)),
)

pub All-iff : {A : Type 0} (P : A → Type 0) (l : List A) → All P l ↔ ((q : A) → In q l → P q)
All-iff P [] = ((λ _ q m. elim m [ ]), λ _. tt)
All-iff P (x ∷ l) = ↔_trans (×_congr ((λ a. a), λ a. a) (All-iff P l)) (cons_iff P x l)

comm_f_iff :
    (st : ℤ → ℤ → ℤ) (s : ℤ) (l : List (ℤ × ℤ))
    → (comm_f st s l ≡ true) ↔ ((q : ℤ × ℤ) → In q l → Commute st s q)
unfolding comm_f pair_ok_f
comm_f_iff st s [] = ((λ _ q m. elim m [ ]), λ _. refl)
comm_f_iff st s (p ∷ l) =
    ↔_trans (&&_iff _ _)
      (↔_trans (×_congr (eqb_ℤ_iff _ _) (comm_f_iff st s l)) (cons_iff (Commute st s) p l))

-- The list that `F_pairsOfT` returns holds exactly the declared pairs.
pub pairs_of_t_lem :
    (n_e : ℕ) (p : Option (List (ℤ × ℤ)))
    → n_e < 2 ^ 63 - 1
    → (l : List (ℤ × ℤ)) × (pairs_of_t (pos n_e) p ≡ ok l)
      × ((q : ℤ × ℤ) → In q l ↔ IsDeclared n_e p q)
unfolding pairs_of_t
pairs_of_t_lem n_e (some l) h = (l, refl, λ q. ((λ m. m), λ m. m))
pairs_of_t_lem n_e none h = all_pairs_t_lem n_e h

-- To say something of every member of a list is to say it of every declared pair.
members_iff :
    (P : ℤ × ℤ → Type 0) (n_e : ℕ) (p : Option (List (ℤ × ℤ))) (l : List (ℤ × ℤ))
    → ((q : ℤ × ℤ) → In q l ↔ IsDeclared n_e p q)
    → ((q : ℤ × ℤ) → In q l → P q) ↔ ((q : ℤ × ℤ) → IsDeclared n_e p q → P q)
members_iff P n_e p l m = ((λ h q d. h q ((m q).1 d)), λ h q i. h q ((m q).0 i))

-- Implication on Booleans, with premise and conclusion as statements.
implb_iff :
    {P Q : Type 0} (a b : Bool)
    → (a ≡ true) ↔ P
    → (b ≡ true) ↔ Q
    → ((if a then b else true) ≡ true) ↔ (P → Q)
implb_iff true b f g = ((λ e _. g.0 e), λ h. g.1 (h (f.0 refl)))
implb_iff false b f g = ((λ _ x. cc (f.1 x)), λ _. refl)

module _ (n n_e : ℕ) (nf : ℤ → ℤ) (st : ℤ → ℤ → ℤ) (p : Option (List (ℤ × ℤ))) where
  pub pairs_ok_w-Decides :
      n_e < 2 ^ 63 - 1
      → Decides
          (pairs_ok_w (pos n_e) p)
          ((q : ℤ × ℤ) → IsDeclared n_e p q → (q.0 <ℤ pos n_e) × (q.1 <ℤ pos n_e))
  unfolding pairs_ok_w
  pairs_ok_w-Decides h =
      let (l, e, m) = pairs_of_t_lem n_e p h in
      rw e (
        Decides-congr _ (↔_trans (All-iff _ l) (members_iff _ n_e p l m)) (
          forallb-Decides _ _ l λ q.
            Decides-ok _
              (↔_trans (&&_iff _ _) (×_congr (ltb_ℤ_iff q.0 (pos n_e)) (ltb_ℤ_iff q.1 (pos n_e))))))

  state_ok_f-Decides :
      (l : List (ℤ × ℤ))
      → ((q : ℤ × ℤ) → In q l ↔ IsDeclared n_e p q)
      → n_e < 2 ^ 63 - 1
      → (s : ℕ) → Decides (state_ok_f (pos n) (pos n_e) nf st l (pos s)) (StateOk n n_e nf st p s)
  unfolding state_ok_f
  state_ok_f-Decides l m h s =
      Decides-congr _ ((λ x. (x.0.0, x.0.1, x.1)), λ x. ((x.0, x.1), x.2))
        (Decides-and _ _
          (Decides-and _ _ (Decides-ok _ (in_vf_iff n nf _)) λ _.
            Decides-congr _ ((λ f e lo hi. f e lo (omega arith)), λ f e lo hi. f e lo (omega arith))
              (all_k-Decides _ _ n_e 0 (omega arith) λ e lo hi. Decides-ok _ (in_vf_iff n nf _)))
          λ _. Decides-ok _ (
            implb_iff _ _ (in_df_iff n nf _)
              (↔_trans (comm_f_iff st (pos s) l) (members_iff _ n_e p l m))))

  -- On int64 sizes, `F_check_fn` returns without a panic, and returns `true` exactly when the
  -- tables satisfy `TablesOk`.
  pub check_fn-Decides :
      n < 2 ^ 63
      → n_e < 2 ^ 63 - 1
      → Decides (check_fn (pos n) (pos n_e) nf st p) (TablesOk n n_e nf st p)
  unfolding check_fn
  check_fn-Decides hn h =
      let (l, e, m) = pairs_of_t_lem n_e p h in
      Decides-and _ _ (pairs_ok_w-Decides h) λ _. rw e (
        Decides-congr _ ((λ f s lo hi. f s lo (omega arith)), λ f s lo hi. f s lo (omega arith))
          (all_k-Decides _ _ n 0 (omega arith) λ s lo hi. state_ok_f-Decides l m h s))
