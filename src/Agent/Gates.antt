-- ===== src/Agent/Gates.antt =====
-- packages/native_agent/runtime/gates.py: `evaluate_gate`, what a snapshot of the robot must show before
-- the agent is inspected, installed or activated. Where the code raises, it gives nothing.
pub mod Demands
pub mod Groups
pub mod Safety
use dogos_memory.Base.{
  Bool, List, Option, Text, [], codes, false, if◌then◌else◌, is_some, leb, none, not, some, true, ℕ,
  ◌&&◌, ◌*◌, ◌++◌, ◌==◌, ◌||◌, ◌∷◌,
}
use dogos_memory.Memory.Models.{is_empty}
use dogos_memory.Value.{
  Value, array, at_least, at_most, boolean, double, get_key, integer, is_false, is_true, no_entries,
  no_values, null, number_of, object, one, text, text_is,
}

pub data Purpose : Type 0 where
  inspect install activate : Purpose

-- one `_add`: its condition and its code
abbrev pub Check : Type 0
Check = Bool × Text

pub record GateReport : Type 0 where
  pub purpose : Purpose
  pub passes : Bool
  pub checks : List Text
  pub blockers : List Text
  pub warnings : List Text

-- `value == 0`, which False is too
abbrev pub is_zero : Value → Bool
is_zero (integer negative n) = n == 0
is_zero (double negative n) = n == 0
is_zero (boolean b) = not b
is_zero _ = false

-- `value == n` for a positive whole number, which True is if it is 1
abbrev pub equals : ℕ → Value → Bool
equals m (integer negative n) = not negative && n == m
equals m (double negative n) = not negative && n == m * one
equals m (boolean b) = b && m == 1
equals m _ = false

-- `value in {...}` raises for a value that has no hash
abbrev pub is_hashable : Value → Bool
is_hashable (array _) = false
is_hashable (object _) = false
is_hashable _ = true

-- `bool(value)`
abbrev pub is_truthy : Value → Bool
is_truthy null = false
is_truthy (boolean b) = b
is_truthy (integer negative n) = not (n == 0)
is_truthy (double negative n) = not (n == 0)
is_truthy (text t) = not (is_empty t)
is_truthy (array no_values) = false
is_truthy (object no_entries) = false
is_truthy _ = true

-- `isinstance(value, list) and len(value) == 0`
abbrev pub is_empty_list : Value → Bool
is_empty_list (array no_values) = true
is_empty_list _ = false

abbrev pub is_null : Value → Bool
is_null null = true
is_null _ = false

-- `_number(value) is not None and _number(value) >= low`, and `<= high`
abbrev pub number_from : ℕ → Value → Bool
number_from low v = elim (number_of v) [ none ↦ false | some n ↦ at_least low n ]

abbrev pub number_to : ℕ → Value → Bool
number_to high v = elim (number_of v) [ none ↦ false | some n ↦ at_most high n ]

-- the parts of a snapshot
abbrev pub context_part : Text → Value → Value
context_part name s = get_key name (get_key (codes "context") s)

abbrev pub function_part : Text → Value → Value
function_part name s = get_key name (context_part (codes "function_status") s)

abbrev service_check : Value → Text → Text → Check
service_check s name kind =
    (text_is (get_key name (get_key (codes "services") s)) kind, codes "service_type:" ++ name)

-- the services that an inspection needs, and all of them, in the order of their names
abbrev pub service_checks : Purpose → Value → List Check
service_checks inspect s =
    service_check s (codes "/execute_x5_command") (codes "software_msgs/srv/ExecuteCommand")
    ∷ service_check s (codes "/function/context/get_context") (codes "function_msgs/srv/GetContext")
    ∷ []
service_checks _ s =
    service_check s (codes "/agent/enable") (codes "std_srvs/srv/SetBool")
    ∷ service_check s (codes "/execute_x5_command") (codes "software_msgs/srv/ExecuteCommand")
    ∷ service_check s (codes "/function/context/get_context") (codes "function_msgs/srv/GetContext")
    ∷ service_check s (codes "/get_faults_info") (codes "software_msgs/srv/GetFaultsInfo")
    ∷ service_check s (codes "/speech_control") (codes "speech_msgs/srv/SpeechControl")
    ∷ service_check s (codes "/write_x5_file") (codes "software_msgs/srv/WriteFile")
    ∷ []

-- the checks of every purpose
unfoldable pub common_checks : Value → List Check
common_checks s =
    let dag = context_part (codes "dag_status") s in
    let system = context_part (codes "system_status") s in
    let x5 = get_key (codes "x5") s in
    (is_zero (get_key (codes "execution_state") dag), codes "dag_idle")
    ∷ (not (is_truthy (get_key (codes "current_dag") dag)), codes "dag_name_empty")
    ∷ (is_false (get_key (codes "emergency_stop_active") dag), codes "no_emergency_stop")
    ∷ (is_true (get_key (codes "robot_is_static") system), codes "robot_static")
    ∷ (
      number_from (5 * one) (get_key (codes "static_duration") system),
      codes "static_duration_fresh",
    )
    ∷ (is_false (get_key (codes "joy_override_active") system), codes "no_joy_override")
    ∷ (
      is_zero (get_key (codes "status") (function_part (codes "follow_status") s)),
      codes "following_idle",
    )
    ∷ (
      is_zero (get_key (codes "status") (function_part (codes "nav_status") s)),
      codes "navigation_idle",
    )
    ∷ (is_true (get_key (codes "probe_success") x5), codes "x5_probe")
    ∷ (is_true (get_key (codes "harness_active") x5), codes "harness_active")
    ∷ (number_from (33554432 * one) (get_key (codes "free_bytes") x5), codes "x5_free_space")
    ∷ (is_empty_list (get_key (codes "competing_agents") x5), codes "single_agent_topology")
    ∷ []

-- of an installation and of an activation
unfoldable pub fault_checks : Value → List Check
fault_checks s =
    let faults = get_key (codes "faults") s in
    let battery = get_key (codes "battery") s in
    (is_zero (get_key (codes "error_code") faults), codes "fault_query_ok")
    ∷ (is_empty_list (get_key (codes "current") faults), codes "no_current_faults")
    ∷ (is_zero (get_key (codes "alarm") battery), codes "battery_alarm_clear")
    ∷ (
      is_false (get_key (codes "request_shutdown") battery),
      codes "battery_not_requesting_shutdown",
    )
    ∷ []

unfoldable pub install_checks : Value → List Check
install_checks s =
    let x5 = get_key (codes "x5") s in
    let speech = get_key (codes "speech") s in
    (is_true (get_key (codes "memory_dir_ready") x5), codes "x5_memory_dir")
    ∷ (is_true (get_key (codes "agents_parent_ready") x5), codes "x5_agents_parent")
    ∷ (is_true (get_key (codes "query_success") speech), codes "speech_queries_ok")
    ∷ (
      is_false (get_key (codes "agent_enable") (context_part (codes "system_status") s)),
      codes "agent_disabled_for_install",
    )
    ∷ (is_false (get_key (codes "chat_function_status") speech), codes "chat_disabled_for_install")
    ∷ (
      is_zero (get_key (codes "cmd_recognition_mode") speech),
      codes "command_recognition_disabled_for_install",
    )
    ∷ (
      is_false (get_key (codes "continuous_cmd_status") speech),
      codes "continuous_commands_disabled_for_install",
    )
    ∷ []

-- `legacy_not_charging`
abbrev pub legacy_not_charging : Value → Bool
legacy_not_charging battery =
    is_false (get_key (codes "charge_state_supported") battery)
    && is_null (get_key (codes "charge_state") battery)
    && is_false (get_key (codes "is_charger_connected") battery)
    && number_to (150 * one) (get_key (codes "current_ma") battery)

-- `charge_state in {0, 1, 3}`
abbrev pub not_charging_state : Value → Bool
not_charging_state v = is_zero v || equals 1 v || equals 3 v

abbrev pub revision_checks : Option Text → Value → List Check
revision_checks none s = []
revision_checks (some revision) s =
    let state = get_key (codes "identity_state") (get_key (codes "x5") s) in
    (text_is (get_key (codes "current_revision") state) revision, codes "identity_revision_matches")
    ∷ (is_false (get_key (codes "restart_required") state), codes "identity_restart_complete")
    ∷ []

-- with the least charge in units
unfoldable pub activate_checks : Option Text → ℕ → Value → List Check
activate_checks revision minimum s =
    let battery = get_key (codes "battery") s in
    let system = context_part (codes "system_status") s in
    (
      number_from minimum (get_key (codes "soc_percent") battery),
      codes "battery_above_activation_threshold",
    )
    ∷ (is_false (get_key (codes "is_charger_connected") battery), codes "charger_disconnected")
    ∷ (
      not_charging_state (get_key (codes "charge_state") battery) || legacy_not_charging battery,
      codes "not_actively_charging",
    )
    ∷ (is_true (get_key (codes "wakeup_turn") system), codes "local_wakeup_turn_enabled")
    ∷ (
      equals 1 (get_key (codes "network_state") system)
          || equals 2 (get_key (codes "network_state") system),
      codes "cloud_network_available",
    )
    ∷ (
      is_true (get_key (codes "query_success") (get_key (codes "speech") s)),
      codes "speech_queries_ok",
    )
    ∷ revision_checks revision s

-- what is added after the checks of every purpose
abbrev pub purpose_checks : Purpose → Option Text → ℕ → Value → List Check
purpose_checks inspect revision minimum s = []
purpose_checks install revision minimum s = fault_checks s ++ install_checks s
purpose_checks activate revision minimum s = fault_checks s ++ activate_checks revision minimum s

abbrev pub warning : Bool → Text → List Text
warning true code = code ∷ []
warning false code = []

abbrev pub warnings_of : Purpose → Option Text → Value → List Text
warnings_of inspect revision s = []
warnings_of install revision s =
    warning (is_true (get_key (codes "is_charger_connected") (get_key (codes "battery") s)))
      (codes "install_while_charging_no_agent_activation")
warnings_of activate revision s =
    warning (not (is_some revision)) (codes "existing_identity_not_managed_by_this_release")
    ++ warning (not (is_true (get_key (codes "policy_hook_enforced") (get_key (codes "x5") s))))
        (codes "native_action_policy_hook_not_enforced")

-- the two sets that an activation looks up a value in
abbrev pub raises : Purpose → Value → Bool
raises activate s =
    not (is_hashable (get_key (codes "charge_state") (get_key (codes "battery") s)))
    || not (is_hashable (get_key (codes "network_state") (context_part (codes "system_status") s)))
raises _ s = false

unfoldable pub all_checks : Purpose → Option Text → ℕ → Value → List Check
all_checks purpose revision minimum s =
    service_checks purpose s ++ (common_checks s ++ purpose_checks purpose revision minimum s)

abbrev pub codes_of : Bool → List Check → List Text
codes_of wanted [] = []
codes_of wanted ((holds, code) ∷ cs) =
    let rest = codes_of wanted cs in
    if holds then (if wanted then code ∷ rest else rest) else (if wanted then rest else code ∷ rest)

-- `evaluate_gate`; the purpose is one of the three
unfoldable pub evaluate_gate : Value → Purpose → Option Text → ℕ → Option GateReport
evaluate_gate s purpose revision minimum =
    let cs = all_checks purpose revision minimum s in
    if leb minimum (100 * one) && not (raises purpose s)
    then some (record {
      purpose = purpose;
      passes = is_empty (codes_of false cs);
      checks = codes_of true cs;
      blockers = codes_of false cs;
      warnings = warnings_of purpose revision s;
    })
    else none
