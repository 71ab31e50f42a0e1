-- ===== src/Agent/Allowlist/Rules.antt =====
-- What `parse_action_allowlist` checks of one rule and of one tool, over a list of them.
use mathlib.Core.Path.{subst}
use dogos_memory.Agent.Allowlist.{
  modes_within, parse_gates, parse_modes, parse_rule, parse_rule_modes, parse_tool,
}
use dogos_memory.Agent.Approval.{Floats}
use dogos_memory.Agent.Arguments.{is_tool_name}
use dogos_memory.Agent.Policy.{RiskPolicy, RunMode, ToolPolicy, ToolRisk}
use dogos_memory.Base.{
  All, Bool, Bool-cases, List, Result-cases, Text, [], any, ap, arith, codes, false, first, inl,
  inr, insert_by, ok, refl, some, sort_by, true, ◌||◌, ◌∙◌, ◌∷◌, ◌≡◌,
}
use dogos_memory.Memory.Models.{is_empty}
use dogos_memory.Value.{Number, Value, get_key}

module _ {A : Type 0} where
  any-insert_by :
      (before : A → A → Bool) (p : A → Bool) (x : A) (xs : List A)
      → any p (insert_by before x xs) ≡ (p x || any p xs)
  any-insert_by before p x [] = refl
  any-insert_by before p x (y ∷ xs) = ground (arith, any-insert_by before p x xs)

  pub any-sort_by :
      (before : A → A → Bool) (p : A → Bool) (xs : List A) → any p (sort_by before xs) ≡ any p xs
  any-sort_by before p [] = refl
  any-sort_by before p (x ∷ xs) =
      any-insert_by before p x (sort_by before xs) ∙ ap (λ b. p x || b) (any-sort_by before p xs)

  pub first-any : (p : A → Bool) (xs : List A) → any p xs ≡ true → (a : A) × (first p xs ≡ some a)
  first-any p [] h = cc h
  first-any p (x ∷ xs) h = elim (Bool-cases (p x)) [
    | inl e ↦ (x, rw e refl)
    | inr e ↦ let (a, f) = first-any p xs (ground arith) in (a, rw e f)
  ]

  pub first-All {κ} :
      (P : A → Type κ) (p : A → Bool) (xs : List A) {a : A}
      → All P xs
      → first p xs ≡ some a
      → P a × (p a ≡ true)
  first-All P p [] h e = cc e
  first-All P p (x ∷ xs) (q, h) e = elim (Bool-cases (p x)) [
    | inl t ↦ subst (λ y. P y × (p y ≡ true)) (ground arith) (q, t)
    | inr t ↦ first-All P p xs h (ground arith)
  ]

-- some mode is allowed, and a supervisor is asked for only in modes that are allowed
abbrev pub HasModes : List RunMode → List RunMode → Type 0
HasModes allowed supervisor = (is_empty allowed ≡ false) × (modes_within supervisor allowed ≡ true)

parse_rule_modes-HasModes :
    (v : Value) {allowed supervisor : List RunMode}
    → parse_rule_modes v ≡ ok (allowed, supervisor)
    → HasModes allowed supervisor
unfolding parse_rule_modes
parse_rule_modes-HasModes v h =
    elim (Result-cases (parse_modes (get_key (codes "allowed_modes") v))) [
      | inr (e, p) ↦ ground arith
      | inl (a, p) ↦
          elim (Result-cases (parse_modes (get_key (codes "supervisor_approval_modes") v))) [
            | inr (e, q) ↦ ground arith
            | inl (b, q) ↦ (ground arith, ground arith)
          ]
    ]

module _ (F : Floats) (double_of : Number → F.value) where
  abbrev pub IsRule : RiskPolicy F → Type 0
  IsRule rule = HasModes rule.allowed_modes rule.supervisor_approval_modes

  pub parse_rule-IsRule :
      (p : Text × Value) (rule : RiskPolicy F) → parse_rule F double_of p ≡ ok rule → IsRule rule
  unfolding parse_rule
  parse_rule-IsRule (name, v) rule h = elim (Result-cases (parse_gates F double_of v)) [
    | inr (e, r) ↦ ground arith
    | inl (c, r) ↦ elim (Result-cases (parse_rule_modes v)) [
      | inr (e, r) ↦ ground arith
      | inl ((a, s), q) ↦
          let m : rule.allowed_modes ≡ a = ground arith in
          let n : rule.supervisor_approval_modes ≡ s = ground arith in
          rw (m, n) (parse_rule_modes-HasModes v q)
    ]
  ]

unfoldable pub IsNamed : ToolPolicy → Type 0
IsNamed tool = is_tool_name tool.tool ≡ true

pub parse_tool-IsNamed :
    (available : List ToolRisk) (p : Text × Value) (tool : ToolPolicy)
    → parse_tool available p ≡ ok tool
    → IsNamed tool
unfolding parse_tool IsNamed
parse_tool-IsNamed available (name, v) tool h = ground arith
