-- ===== src/Agent/Allowlist/Complete.antt =====
-- What the policy has that `parse_action_allowlist` returns: a rule for every risk, and tools.
use mathlib.Core.Path.{subst}
use dogos_memory.Agent.Allowlist.{
  covers_risks, mapping, parse_action_allowlist, parse_rule, parse_rules, parse_tool, parse_tools,
  risk_before, tool_before,
}
use dogos_memory.Agent.Allowlist.Rules.{
  IsNamed, IsRule, any-sort_by, first-All, first-any, parse_rule-IsRule, parse_tool-IsNamed,
}
use dogos_memory.Agent.Approval.{Floats}
use dogos_memory.Agent.Policy.{PolicyConfig, RiskPolicy, ToolPolicy, ToolRisk, risk_eq, risk_policy}
use dogos_memory.Base.{
  All, Bool, List, Result-cases, Text, [], any, arith, codes, false, inl, inr, insert_by, map, ok,
  refl, some, sort_by, traverse-All, true, ◌∙◌, ◌∷◌, ◌≡◌,
}
use dogos_memory.Memory.Models.{is_empty}
use dogos_memory.Newest.{All-sort_by}
use dogos_memory.Value.{Number, Value, get_key}

risk_eq→eq : (a b : ToolRisk) → risk_eq a b ≡ true → a ≡ b
unfolding risk_eq
risk_eq→eq a b h = ground arith

is_empty-insert_by :
    {A : Type 0} (before : A → A → Bool) (x : A) (xs : List A)
    → is_empty (insert_by before x xs) ≡ false
is_empty-insert_by before x [] = refl
is_empty-insert_by before x (y ∷ xs) = ground arith

is_empty-sort_by :
    {A : Type 0} (before : A → A → Bool) (xs : List A) → is_empty (sort_by before xs) ≡ is_empty xs
is_empty-sort_by before [] = refl
is_empty-sort_by before (x ∷ xs) = is_empty-insert_by before x (sort_by before xs)

module _ (F : Floats) (double_of : Number → F.value) where
  covers_risks-any :
      (rules : List (RiskPolicy F)) (risk : ToolRisk)
      → covers_risks F double_of rules ≡ true
      → any (λ rule. risk_eq rule.risk risk) rules ≡ true
  covers_risks-any rules risk h = ground arith

  -- a rule for every risk, and at least one tool, each with a name that may be called
  pub record IsComplete (config : PolicyConfig F) : Type 0 where
    pub version : config.schema_version ≡ 1
    pub ruled :
        (risk : ToolRisk)
        → (rule : RiskPolicy F) × (risk_policy F config risk ≡ some rule)
          × (rule.risk ≡ risk)
          × IsRule F double_of rule
    pub filled : is_empty config.tools ≡ false
    pub named : All IsNamed config.tools

  risk_policy-IsRule :
      (config : PolicyConfig F) (risk : ToolRisk)
      → any (λ rule. risk_eq rule.risk risk) config.risks ≡ true
      → All (IsRule F double_of) config.risks
      → (rule : RiskPolicy F) × (risk_policy F config risk ≡ some rule)
        × (rule.risk ≡ risk)
        × IsRule F double_of rule
  unfolding risk_policy
  risk_policy-IsRule config risk h rules =
      let (rule, e) = first-any (λ rule. risk_eq rule.risk risk) config.risks h in
      let (modes, same) =
        first-All (IsRule F double_of) (λ rule. risk_eq rule.risk risk) config.risks rules e in
      (rule, e, risk_eq→eq rule.risk risk same, modes)

  parse_action_allowlist-inv :
      (document : Value) {config : PolicyConfig F}
      → parse_action_allowlist F double_of document ≡ ok config
      → (risks : List (Text × Value)) × (rules : List (RiskPolicy F)) × (raw_tools : List
          (Text × Value))
        × (tools : List ToolPolicy) × (parse_rules F double_of risks ≡ ok rules)
        × (covers_risks F double_of rules ≡ true)
        × (parse_tools (map (λ rule. rule.risk) rules) raw_tools ≡ ok tools)
        × (is_empty tools ≡ false)
        × (record {
          schema_version = 1;
          risks = sort_by (risk_before F double_of) rules;
          tools = sort_by (tool_before F double_of) tools;
        }
            ≡ config)
  unfolding parse_action_allowlist
  parse_action_allowlist-inv document {config} h =
      elim (Result-cases (mapping (get_key (codes "risk_profiles") document))) [
        | inr (e, p) ↦ ground arith
        | inl (raw_risks, p) ↦ elim (Result-cases (parse_rules F double_of raw_risks)) [
          | inr (e, q) ↦ ground arith
          | inl (rules, q) ↦ elim (Result-cases (mapping (get_key (codes "tools") document))) [
            | inr (e, r) ↦ ground arith
            | inl (raw_tools, r) ↦
                elim (Result-cases (parse_tools (map (λ rule. rule.risk) rules) raw_tools)) [
                  | inr (e, s) ↦ ground arith
                  | inl (tools, s) ↦ (
                    raw_risks,
                    rules,
                    raw_tools,
                    tools,
                    q,
                    ground arith,
                    s,
                    ground arith,
                    ground arith,
                  )
                ]
          ]
        ]
      ]

  -- A document that is accepted gives a policy with a rule for every risk, whose modes are not empty
  -- and which asks for a supervisor only in a mode that it allows, and with at least one tool, each of
  -- a valid name.
  pub parse_action_allowlist-IsComplete :
      (document : Value) (config : PolicyConfig F)
      → parse_action_allowlist F double_of document ≡ ok config
      → IsComplete config
  parse_action_allowlist-IsComplete document config h =
      let (risks, rules, raw_tools, tools, p, covered, q, filled, same) =
        parse_action_allowlist-inv document h in
      let ruled : All (IsRule F double_of) (sort_by (risk_before F double_of) rules) =
        All-sort_by (risk_before F double_of) (IsRule F double_of) rules (
          traverse-All (IsRule F double_of) (parse_rule F double_of) (parse_rule-IsRule F double_of)
            risks p) in
      subst IsComplete same (record {
        version = refl;
        ruled = λ risk.
            risk_policy-IsRule _ risk
              (any-sort_by (risk_before F double_of) _ rules ∙ covers_risks-any rules risk covered)
              ruled;
        filled = is_empty-sort_by (tool_before F double_of) tools ∙ filled;
        named =
            All-sort_by (tool_before F double_of) IsNamed tools
              (traverse-All IsNamed (parse_tool _) (parse_tool-IsNamed _) raw_tools q);
      })
