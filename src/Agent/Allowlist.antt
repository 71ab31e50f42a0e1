-- ===== src/Agent/Allowlist.antt =====
-- packages/native_agent/policy/policy.py: `parse_action_allowlist`, from a decoded document to the policy
-- that `evaluate_action` reads. `double_of` stands for `float(value)`.
pub mod Rules
pub mod Complete
pub mod Tests
use dogos_memory.Agent.Approval.{Floats}
use dogos_memory.Agent.Arguments.{is_tool_name}
use dogos_memory.Agent.Policy.{
  PolicyConfig, RiskPolicy, RunMode, ToolPolicy, ToolRisk, body_motion, communicate, data_write,
  device_control, expressive, has_mode, jump, navigation, network_egress, observe, privacy_capture,
  risk_eq, run_mode,
}
use dogos_memory.Base.{
  Bool, List, Option, Result, Text, [], all, any, codes, err, false, first, if◌then◌else◌, map,
  none, not, ok, or_raise, require, same_set, some, sort_by, text_eq, text_lt, traverse, true, zero,
  ℕ, ◌&&◌, ◌==◌, ◌>>=◌, ◌>>◌, ◌∷◌,
}
use dogos_memory.Memory.Models.{is_empty}
use dogos_memory.Value.{
  Number, Value, array_of, boolean, get_key, integer, null, number_of, object, pairs_of, text_of,
}

-- the codes of `PolicyConfigError`
pub data ConfigError : Type 0 where
  invalid_type invalid_keys unsupported_schema unknown_risk invalid_mode duplicate_mode :
      ConfigError
  empty_modes invalid_supervisor_modes invalid_integer invalid_number : ConfigError
  missing_risk_profiles invalid_tool_name missing_risk_profile empty_tools : ConfigError

abbrev pub Parsed : Type 0 → Type 0
Parsed A = Result ConfigError A

-- `_require_mapping`
unfoldable pub mapping : Value → Parsed (List (Text × Value))
mapping (object entries) = ok (pairs_of entries)
mapping _ = err invalid_type

-- `_require_exact_keys`
unfoldable pub exact_keys : List (Text × Value) → List Text → Parsed (Unit {0})
exact_keys pairs expected = require (same_set (map (λ p. p.0) pairs) expected) invalid_keys

-- `_require_bool`
abbrev pub bool_of : Value → Parsed Bool
bool_of (boolean b) = ok b
bool_of _ = err invalid_type

-- `_require_integer` with the minimum 0
abbrev pub natural_of : Value → Parsed ℕ
natural_of (integer false n) = ok n
natural_of (integer true zero) = ok 0
natural_of _ = err invalid_integer

abbrev pub risk_text : ToolRisk → Text
risk_text observe = codes "observe"
risk_text communicate = codes "communicate"
risk_text data_write = codes "data-write"
risk_text device_control = codes "device-control"
risk_text expressive = codes "expressive"
risk_text body_motion = codes "body-motion"
risk_text navigation = codes "navigation"
risk_text jump = codes "jump"
risk_text privacy_capture = codes "privacy-capture"
risk_text network_egress = codes "network-egress"

abbrev pub all_risks : List ToolRisk
all_risks =
    observe ∷ communicate ∷ data_write ∷ device_control ∷ expressive ∷ body_motion ∷ navigation
    ∷ jump ∷ privacy_capture ∷ network_egress ∷ []

-- `ToolRisk(risk_name)`
unfoldable pub tool_risk : Text → Option ToolRisk
tool_risk name = first (λ risk. text_eq (risk_text risk) name) all_risks

-- `isinstance(item, str)` for every item, as the texts
abbrev pub texts_of : List Value → Parsed (List Text)
texts_of = traverse (λ v. or_raise (text_of v) invalid_type)

-- `RunMode(item)` for every item
abbrev pub modes_of : List Text → Parsed (List RunMode)
modes_of = traverse (λ t. or_raise (run_mode t) invalid_mode)

abbrev pub distinct_modes : List RunMode → Bool
distinct_modes [] = true
distinct_modes (m ∷ ms) = not (has_mode m ms) && distinct_modes ms

-- `_parse_modes`
unfoldable pub parse_modes : Value → Parsed (List RunMode)
parse_modes v = do
  items ← or_raise (array_of v) invalid_type
  texts ← texts_of items
  modes ← modes_of texts
  require (distinct_modes modes) duplicate_mode
  ok modes

-- `supervisor_modes.issubset(allowed_modes)`
abbrev pub modes_within : List RunMode → List RunMode → Bool
modes_within modes allowed = all (λ m. has_mode m allowed) modes

-- the allowed and the supervisor modes of a rule
unfoldable pub parse_rule_modes : Value → Parsed (List RunMode × List RunMode)
parse_rule_modes v = do
  allowed ← parse_modes (get_key (codes "allowed_modes") v)
  require (not (is_empty allowed)) empty_modes
  supervisor ← parse_modes (get_key (codes "supervisor_approval_modes") v)
  require (modes_within supervisor allowed) invalid_supervisor_modes
  ok (allowed, supervisor)

abbrev pub risk_keys : List Text
risk_keys =
    codes "risk_level"
    ∷ codes "allowed_modes"
    ∷ codes "physical"
    ∷ codes "minimum_battery_percent"
    ∷ codes "allow_while_charging"
    ∷ codes "requires_fault_free"
    ∷ codes "requires_idle"
    ∷ codes "requires_stationary"
    ∷ codes "max_sensor_age_seconds"
    ∷ codes "requires_person_present"
    ∷ codes "cooldown_seconds"
    ∷ codes "supervisor_approval_modes"
    ∷ []

-- a tool of the document; `available` are the risks that have a rule
unfoldable pub parse_tool : List ToolRisk → Text × Value → Parsed ToolPolicy
parse_tool available (tool, v) = do
  require (is_tool_name tool) invalid_tool_name
  name ← or_raise (text_of v) invalid_type
  risk ← or_raise (tool_risk name) unknown_risk
  require (any (risk_eq risk) available) missing_risk_profile
  ok (record { tool = tool; risk = risk })

abbrev pub parse_tools : List ToolRisk → List (Text × Value) → Parsed (List ToolPolicy)
parse_tools available = traverse (parse_tool available)

module _ (F : Floats) (double_of : Number → F.value) where
  -- `_require_number` with the minimum 0.0 and the maximum, if there is one
  abbrev pub number_in : Option F.value → Value → Parsed F.value
  number_in maximum v = do
    n ← or_raise (number_of v) invalid_type
    let number = double_of n
    require (F.is_finite number && not (F.lt number F.zero)) invalid_number
    require (not (elim maximum [ none ↦ false | some most ↦ F.lt most number ])) invalid_number
    ok number

  abbrev pub nullable : Option F.value → Value → Parsed (Option F.value)
  nullable maximum null = ok none
  nullable maximum v = do number ← number_in maximum v; ok (some number)

  -- `number or 0.0`
  abbrev pub or_zero : F.value → F.value
  or_zero number = if F.le number F.zero then F.zero else number

  -- what a rule asks for, beside its risk and its modes
  pub record RuleGates : Type 0 where
    pub risk_level : ℕ
    pub physical : Bool
    pub minimum_battery_percent : Option F.value
    pub allow_while_charging : Bool
    pub requires_fault_free : Bool
    pub requires_idle : Bool
    pub requires_stationary : Bool
    pub max_sensor_age_seconds : Option F.value
    pub requires_person_present : Bool
    pub cooldown_seconds : F.value

  unfoldable pub parse_gates : Value → Parsed RuleGates
  parse_gates v = do
    level ← natural_of (get_key (codes "risk_level") v)
    physical ← bool_of (get_key (codes "physical") v)
    battery ← nullable (some F.hundred) (get_key (codes "minimum_battery_percent") v)
    charging ← bool_of (get_key (codes "allow_while_charging") v)
    fault_free ← bool_of (get_key (codes "requires_fault_free") v)
    idle ← bool_of (get_key (codes "requires_idle") v)
    stationary ← bool_of (get_key (codes "requires_stationary") v)
    age ← nullable none (get_key (codes "max_sensor_age_seconds") v)
    person ← bool_of (get_key (codes "requires_person_present") v)
    wait_time ← number_in none (get_key (codes "cooldown_seconds") v)
    ok (record {
      risk_level = level;
      physical = physical;
      minimum_battery_percent = battery;
      allow_while_charging = charging;
      requires_fault_free = fault_free;
      requires_idle = idle;
      requires_stationary = stationary;
      max_sensor_age_seconds = age;
      requires_person_present = person;
      cooldown_seconds = or_zero wait_time;
    })

  abbrev pub rule_of : ToolRisk → List RunMode → List RunMode → RuleGates → RiskPolicy F
  rule_of risk allowed supervisor gates = record {
    risk = risk;
    risk_level = gates.risk_level;
    allowed_modes = allowed;
    physical = gates.physical;
    minimum_battery_percent = gates.minimum_battery_percent;
    allow_while_charging = gates.allow_while_charging;
    requires_fault_free = gates.requires_fault_free;
    requires_idle = gates.requires_idle;
    requires_stationary = gates.requires_stationary;
    max_sensor_age_seconds = gates.max_sensor_age_seconds;
    requires_person_present = gates.requires_person_present;
    cooldown_seconds = gates.cooldown_seconds;
    supervisor_approval_modes = supervisor;
  }

  -- the rule of one risk
  unfoldable pub parse_rule : Text × Value → Parsed (RiskPolicy F)
  parse_rule (name, v) = do
    risk ← or_raise (tool_risk name) unknown_risk
    pairs ← mapping v
    exact_keys pairs risk_keys
    (allowed, supervisor) ← parse_rule_modes v
    gates ← parse_gates v
    ok (rule_of risk allowed supervisor gates)

  abbrev pub parse_rules : List (Text × Value) → Parsed (List (RiskPolicy F))
  parse_rules = traverse parse_rule

  -- `sorted(risks, key=…)` and `sorted(tools, key=…)`
  abbrev pub risk_before : RiskPolicy F → RiskPolicy F → Bool
  risk_before a b = not (text_lt (risk_text b.risk) (risk_text a.risk))

  abbrev pub tool_before : ToolPolicy → ToolPolicy → Bool
  tool_before a b = not (text_lt b.tool a.tool)

  -- `{rule.risk for rule in risks} == set(ToolRisk)`
  abbrev pub covers_risks : List (RiskPolicy F) → Bool
  covers_risks rules = all (λ risk. any (λ rule. risk_eq rule.risk risk) rules) all_risks

  abbrev pub is_version : Value → Bool
  is_version (integer negative n) = not negative && n == 1
  is_version _ = false

  -- `parse_action_allowlist`
  unfoldable pub parse_action_allowlist : Value → Parsed (PolicyConfig F)
  parse_action_allowlist document = do
    root ← mapping document
    exact_keys root (codes "schema_version" ∷ codes "risk_profiles" ∷ codes "tools" ∷ [])
    require (is_version (get_key (codes "schema_version") document)) unsupported_schema
    raw_risks ← mapping (get_key (codes "risk_profiles") document)
    rules ← parse_rules raw_risks
    require (covers_risks rules) missing_risk_profiles
    raw_tools ← mapping (get_key (codes "tools") document)
    tools ← parse_tools (map (λ rule. rule.risk) rules) raw_tools
    require (not (is_empty tools)) empty_tools
    ok (record {
      schema_version = 1;
      risks = sort_by risk_before rules;
      tools = sort_by tool_before tools;
    })
