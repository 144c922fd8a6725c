-- ===== src/RuleCheck/MachineFile/Accepts.antt =====
-- The machines that `buildMachine` of coq/goextract/cmd/rulecheck/main.go returns.
use normalization_confluence.Common.{ℕ, ◌≤◌, ◌≡◌, arith, List, All, All-map, length}
use normalization_confluence.Common.Int.{ℤ, pos}
use normalization_confluence.Common.Run.{ok}
use normalization_confluence.Oracle.Rules.{
  Expr, e_var, e_lit, e_add, e_sub, Pred, p_le, p_lt, p_eq, p_and, p_or, p_not, Preds, Guarded,
  Machine,
}
use normalization_confluence.Oracle.Rules.Step.{fuel_of}
use normalization_confluence.RuleCheck.Building.Keeps.{IsSmall, IsBelow}
use normalization_confluence.RuleCheck.Build.Keeps.{IsExpr, IsPred, ArePreds, IsGuarded}
use normalization_confluence.RuleCheck.MachineFile.Domains.{IsDomain}

-- A machine of the model: the sizes of its domains and the number of its states, one small minimum
-- for each variable, and rules over these variables with small literals.
pub record IsFragment (m : Machine) : Type 0 where
  pub domains : All IsDomain m.doms
  pub states : (k : ℕ) × (fuel_of m ≡ ok (pos k)) × (k ≤ 16777216)
  pub one_min_each : length m.mins ≡ length m.doms
  pub small_mins : All IsSmall m.mins
  pub good_invs : All (IsGuarded (length m.doms)) m.invs
  pub good_evs : All (IsGuarded (length m.doms)) m.evs

-- Rules without variables are rules over `n` variables.
IsBelow-zero : (n : ℕ) (i : ℤ) → IsBelow 0 i → IsBelow n i
IsBelow-zero n i (k, q, lt) = absurd (omega arith)

IsExpr-zero : (n : ℕ) (e : Expr) → IsExpr 0 e → IsExpr n e
IsExpr-zero n (e_var i) h = IsBelow-zero n i h
IsExpr-zero n (e_lit v) h = h
IsExpr-zero n (e_add a b) h = (IsExpr-zero n a h.0, IsExpr-zero n b h.1)
IsExpr-zero n (e_sub a b) h = (IsExpr-zero n a h.0, IsExpr-zero n b h.1)

mutual
  IsPred-zero : (n : ℕ) (p : Pred) → IsPred 0 p → IsPred n p
  IsPred-zero n (p_le a b) h = (IsExpr-zero n a h.0, IsExpr-zero n b h.1)
  IsPred-zero n (p_lt a b) h = (IsExpr-zero n a h.0, IsExpr-zero n b h.1)
  IsPred-zero n (p_eq a b) h = (IsExpr-zero n a h.0, IsExpr-zero n b h.1)
  IsPred-zero n (p_and ps) h = ArePreds-zero n ps h
  IsPred-zero n (p_or ps) h = ArePreds-zero n ps h
  IsPred-zero n (p_not p) h = IsPred-zero n p h

  ArePreds-zero : (n : ℕ) (ps : Preds) → ArePreds 0 ps → ArePreds n ps
  ArePreds-zero n Preds.nil h = tt
  ArePreds-zero n (Preds.cons p ps) h = (IsPred-zero n p h.0, ArePreds-zero n ps h.1)

pub IsGuarded-zero : (n : ℕ) (gs : List Guarded) → All (IsGuarded 0) gs → All (IsGuarded n) gs
IsGuarded-zero n gs h =
    All-map gs
      (λ g q. (
        IsPred-zero n g.0 q.0,
        All-map g.1 (λ a r. (IsBelow-zero n a.0 r.0, IsExpr-zero n a.1 r.1)) q.1,
      ))
      h
