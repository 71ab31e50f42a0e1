-- ===== src/Agent/Allowlist/Tests.antt =====
-- A document in the form of packages/native_agent/policy/action_allowlist.json, and the theorem at it.
-- The doubles here are the natural numbers, in units.
-- the size of a number
use dogos_memory.Agent.Allowlist.{
  all_risks, empty_tools, exact_keys, mapping, parse_action_allowlist, parse_gates, parse_modes,
  parse_rule, parse_rule_modes, parse_tool, risk_text, tool_risk,
}
use dogos_memory.Agent.Allowlist.Complete.{IsComplete, parse_action_allowlist-IsComplete}
use dogos_memory.Agent.Approval.{Floats}
use dogos_memory.Agent.Arguments.{is_tool_name}
use dogos_memory.Agent.Policy.{
  PolicyConfig, RiskPolicy, ToolRisk, body_motion, communicate, data_write, device_control,
  expressive, jump, navigation, network_egress, observe, privacy_capture, risk_eq, run_mode,
  supervised_demo,
}
use dogos_memory.Base.{
  List, [], codes, err, false, leb, ltb, map, none, ok, refl, some, text_eq, text_lt, traverse,
  true, ℕ, ◌*◌, ◌-◌, ◌∷◌, ◌≡◌,
}
use dogos_memory.Value.{
  Entries, Number, Value, and_value, array, boolean, entry, finite, infinity, integer, lookup, nan,
  no_entries, no_values, null, number_of, object, one, text,
}

abbrev size_of : Number → ℕ
size_of (finite negative n) = n
size_of (infinity negative) = 0
size_of nan = 0

abbrev doubles : Floats
doubles = record {
  value = ℕ;
  is_finite = λ x. true;
  lt = ltb;
  le = leb;
  sub = λ x y. x - y;
  zero = 0;
  max_lifetime = 120 * one;
  hundred = 100 * one;
}

abbrev demo_modes : Value
demo_modes = array (and_value (text (codes "supervised-demo")) no_values)

abbrev profile : Value
profile = object (
    entry (codes "risk_level") (integer false 2) (
      entry (codes "allowed_modes") demo_modes (
        entry (codes "physical") (boolean true) (
          entry (codes "minimum_battery_percent") null (
            entry (codes "allow_while_charging") (boolean false) (
              entry (codes "requires_fault_free") (boolean true) (
                entry (codes "requires_idle") (boolean true) (
                  entry (codes "requires_stationary") (boolean true) (
                    entry (codes "max_sensor_age_seconds") (integer false 2) (
                      entry (codes "requires_person_present") (boolean true) (
                        entry (codes "cooldown_seconds") (integer false 3) (
                          entry (codes "supervisor_approval_modes") demo_modes
                            no_entries))))))))))))

abbrev profiles : List ToolRisk → Entries
profiles [] = no_entries
profiles (risk ∷ risks) = entry (risk_text risk) profile (profiles risks)

abbrev document_of : List ToolRisk → Entries → Value
document_of risks tools = object (
    entry (codes "schema_version") (integer false 1) (
      entry (codes "risk_profiles") (object (profiles risks))
        (entry (codes "tools") (object tools) no_entries)))

abbrev tools : Entries
tools =
    entry (codes "glance") (text (codes "expressive"))
      (entry (codes "body_move") (text (codes "body-motion")) no_entries)

-- the rule that the profile stands for
abbrev rule : ToolRisk → RiskPolicy doubles
rule risk = record {
  risk = risk;
  risk_level = 2;
  allowed_modes = supervised_demo ∷ [];
  physical = true;
  minimum_battery_percent = none;
  allow_while_charging = false;
  requires_fault_free = true;
  requires_idle = true;
  requires_stationary = true;
  max_sensor_age_seconds = some (2 * one);
  requires_person_present = true;
  cooldown_seconds = 3 * one;
  supervisor_approval_modes = supervised_demo ∷ [];
}

abbrev sorted_risks : List ToolRisk
sorted_risks =
    body_motion ∷ communicate ∷ data_write ∷ device_control ∷ expressive ∷ jump ∷ navigation
    ∷ network_egress ∷ observe ∷ privacy_capture ∷ []

abbrev config : PolicyConfig doubles
config = record {
  schema_version = 1;
  risks = map rule sorted_risks;
  tools =
      record { tool = codes "body_move"; risk = body_motion }
      ∷ record { tool = codes "glance"; risk = expressive }
      ∷ [];
}

parse_document : parse_action_allowlist doubles size_of (document_of all_risks tools) ≡ ok config
unfolding parse_action_allowlist traverse mapping exact_keys parse_rule parse_rule_modes parse_modes
    tool_risk parse_gates parse_tool is_tool_name number_of run_mode lookup one risk_eq text_eq
    text_lt
parse_document = refl

parse_action_allowlist-IsComplete_example : IsComplete doubles size_of config
parse_action_allowlist-IsComplete_example =
    parse_action_allowlist-IsComplete doubles size_of (document_of all_risks tools) config
      parse_document

-- the risks may come in any order, but some tool must be named
toolless :
    parse_action_allowlist doubles size_of (document_of sorted_risks no_entries) ≡ err empty_tools
unfolding parse_action_allowlist traverse mapping exact_keys parse_rule parse_rule_modes parse_modes
    tool_risk parse_gates parse_tool is_tool_name number_of run_mode lookup one risk_eq text_eq
    text_lt
toolless = refl
