-- ===== src/Oracle/Rules/Compact/States.antt =====
-- The states of a machine in the order of their numbers, and the loops of
-- coq/goextract/oracle/oracle_gen.go over them from the last one down: F_foldD and F_boxT.
use mathlib.Core.List.{append_assoc, append-nil}
use normalization_confluence.Common.{
  ℕ, zero, suc, ◌≤◌, ◌≡◌, refl, sym, ap, ◌∙◌, List, [], ◌∷◌, ◌++◌, map, All, arith,
}
use normalization_confluence.Common.Int.{ℤ, pos, negsuc, IsI64}
use normalization_confluence.Common.Run.{Run, ok, ◌>>=◌, >>=_assoc, >>=-ok}
use normalization_confluence.Oracle.Lists.{fold_left}
use normalization_confluence.Oracle.Trie.{rev_append}
use normalization_confluence.Oracle.Rules.{State}
use normalization_confluence.Oracle.Rules.Box.{layer, prepend_all}
use normalization_confluence.Oracle.Rules.Compact.{loop_d, fold_d, box_t}

-- The size of a domain.
abbrev pub IsDomain : ℤ → Type 0
IsDomain d = (k : ℕ) × (d ≡ pos k) × (1 ≤ k) × (k ≤ 2147483647)

pub IsDomain-I64 : (d : ℤ) → IsDomain d → IsI64 d
IsDomain-I64 d (k, q, _, top) = rw q (omega (arith, top))

-- 0, 1, …, k - 1, each in front of every state of a list.
abbrev pub rows : ℕ → List State → List State
rows zero ws = []
rows (suc k) ws = rows k ws ++ map (λ w. pos k ∷ w) ws

abbrev pub size_of : ℤ → ℕ
size_of (pos k) = k
size_of (negsuc _) = 0

-- The states of a box, the first variable slowest.
abbrev pub states : List ℤ → List State
states [] = [] ∷ []
states (d ∷ ds) = rows (size_of d) (states ds)

module _ {S T : Type 0} where
  -- The visit of a list from its end.
  abbrev pub visit : (S → T → Run T) → List S → T → Run T
  visit f [] acc = ok acc
  visit f (x ∷ l) acc = visit f l acc >>= f x

  pub visit-append :
      (f : S → T → Run T) (l l' : List S) (acc : T)
      → visit f (l ++ l') acc ≡ (visit f l' acc >>= visit f l)
  visit-append f [] l' acc = sym (>>=-ok (visit f l' acc))
  visit-append f (x ∷ l) l' acc =
      ap (λ m. m >>= f x) (visit-append f l l' acc) ∙ >>=_assoc (visit f l' acc) (visit f l) (f x)

visit-map :
    {S S' T : Type 0} (f : S' → T → Run T) (g : S → S') (l : List S) (acc : T)
    → visit f (map g l) acc ≡ visit (λ x. f (g x)) l acc
visit-map f g [] acc = refl
visit-map f g (x ∷ l) acc = ap (λ m. m >>= f (g x)) (visit-map f g l acc)

module _ {T : Type 0} where
  -- F_loopD, where each round visits the rest of the state.
  loop_d-rows :
      (f : State → T → Run T) (ws : List State) (g : ℤ → T → Run T)
      → ((x : ℤ) (acc : T) → g x acc ≡ visit (λ w. f (x ∷ w)) ws acc)
      → (k : ℕ) (acc : T) → loop_d g (pos k) acc ≡ visit f (rows k ws) acc
  unfolding loop_d
  loop_d-rows f ws g h zero acc = refl
  loop_d-rows f ws g h (suc k) acc =
      let rest : loop_d g (pos k) ≡ visit f (rows k ws) = λ i a. loop_d-rows f ws g h k a i in
      ap (λ m. m >>= loop_d g (pos k)) (h (pos k) acc ∙ sym (visit-map f (λ w. pos k ∷ w) ws acc))
      ∙ ap (λ r. visit f (map (λ w. pos k ∷ w) ws) acc >>= r) rest
      ∙ sym (visit-append f (rows k ws) (map (λ w. pos k ∷ w) ws) acc)

  -- F_foldD visits the states from the last one down.
  pub fold_d-visit :
      (ds : List ℤ) (f : State → T → Run T) (acc : T)
      → All IsDomain ds
      → fold_d ds f acc ≡ visit f (states ds) acc
  unfolding fold_d
  fold_d-visit [] f acc h = refl
  fold_d-visit (d ∷ ds) f acc ((k, q, _, _), h) = rw q (
      loop_d-rows f (states ds) (λ x a. fold_d ds (λ w. f (x ∷ w)) a)
        (λ x a. fold_d-visit ds (λ w. f (x ∷ w)) a h) k acc)

-- The visit of the states of the variables before `s`, with at each the visit of the states of `s`.
abbrev pub staged : {T : Type 0} → (State → T → Run T) → List ℤ → State → T → Run T
staged f s pv a = visit (λ w. f (pv ++ w)) (states s) a

rows-staged :
    {T : Type 0} (p s : List ℤ) (f : State → T → Run T)
    → ((f : State → T → Run T) (acc : T)
        → visit (staged f s) (states p) acc ≡ visit f (states (p ++ s)) acc)
    → (k : ℕ) (acc : T)
    → visit (staged f s) (rows k (states p)) acc ≡ visit f (rows k (states (p ++ s))) acc
rows-staged p s f h zero acc = refl
rows-staged {T} p s f h (suc k) acc =
    let put : State → State = λ w. pos k ∷ w in
    let rest : visit (staged f s) (rows k (states p)) ≡ visit f (rows k (states (p ++ s))) =
      λ i a. rows-staged p s f h k a i in
    visit-append (staged f s) (rows k (states p)) (map put (states p)) acc
    ∙ ap (λ m. m >>= visit (staged f s) (rows k (states p)))
        (visit-map (staged f s) put (states p) acc
          ∙ h (λ w. f (pos k ∷ w)) acc
          ∙ sym (visit-map f put (states (p ++ s)) acc))
    ∙ ap (λ r. visit f (map put (states (p ++ s))) acc >>= r) rest
    ∙ sym (visit-append f (rows k (states (p ++ s))) (map put (states (p ++ s))) acc)

pub visit-states-append :
    {T : Type 0} (p s : List ℤ) (f : State → T → Run T) (acc : T)
    → visit (staged f s) (states p) acc ≡ visit f (states (p ++ s)) acc
visit-states-append [] s f acc = refl
visit-states-append (d ∷ p) s f acc =
    rows-staged p s f (λ f' a. visit-states-append p s f' a) (size_of d) acc

-- F_prependAll on a reversed list puts the number in front of the list, in order.
prepend_all-reversed :
    (x : ℤ) (ws rest acc : List State)
    → prepend_all x (rev_append ws rest) acc ≡ prepend_all x rest (map (λ w. x ∷ w) ws ++ acc)
unfolding rev_append prepend_all
prepend_all-reversed x [] rest acc = refl
prepend_all-reversed x (w ∷ ws) rest acc = prepend_all-reversed x ws (w ∷ rest) acc

layer-rows :
    (ws : List State) (k : ℕ) (acc : List State)
    → layer (pos k) (rev_append ws []) acc ≡ ok (rows k ws ++ acc)
unfolding layer prepend_all
layer-rows ws zero acc = refl
layer-rows ws (suc k) acc =
    ap (layer (pos k) (rev_append ws [])) (prepend_all-reversed (pos k) ws [] acc)
    ∙ layer-rows ws k (map (λ w. pos k ∷ w) ws ++ acc)
    ∙ ap ok (sym (append_assoc (rows k ws) (map (λ w. pos k ∷ w) ws) acc))

-- F_boxT lists the states in order.
pub box_t-states : (ds : List ℤ) → All IsDomain ds → box_t ds ≡ ok (states ds)
unfolding box_t
box_t-states [] h = refl
box_t-states (d ∷ ds) ((k, q, _, _), h) =
    rw (box_t-states ds h, q)
      (layer-rows (states ds) k [] ∙ ap ok (append-nil (rows k (states ds))))

-- F_fold_left over a reversed list is the visit of the list from its end.
pub fold_left-visit :
    {S T : Type 0} (f : S → T → Run T) (l rest : List S) (acc : T)
    → fold_left (λ a w. f w a) (rev_append l rest) acc
      ≡ (visit f l acc >>= fold_left (λ a w. f w a) rest)
unfolding fold_left rev_append
fold_left-visit f [] rest acc = refl
fold_left-visit f (x ∷ l) rest acc =
    fold_left-visit f l (x ∷ rest) acc
    ∙ sym (>>=_assoc (visit f l acc) (f x) (fold_left (λ a w. f w a) rest))
