-- ===== src/Agent/Tests.antt =====
-- Concrete decisions of packages/native_agent: tests of the model, and the theorems at inputs where
-- their hypotheses hold. The doubles here are the natural numbers.
use dogos_memory.Agent.Approval.{
  ActionApproval, Floats, approval_reasons, dedupe, issue_action_approval,
}
use dogos_memory.Agent.Approval.Issue.{IsApproved, IsApproved-iff, issue_valid}
use dogos_memory.Agent.Arguments.{
  Crypto, canonical_intent, is_approver, is_nonce, is_sha256, is_tool_name, no_fields, normal_json,
}
use dogos_memory.Agent.Gates.{
  Check, GateReport, activate, activate_checks, all_checks, codes_of, common_checks, evaluate_gate,
  fault_checks, warnings_of,
}
use dogos_memory.Agent.Gates.Demands.{Demands}
use dogos_memory.Agent.Gates.Safety.{evaluate_gate-Demands}
use dogos_memory.Agent.Policy.{
  ActionIntent, PolicyConfig, RiskPolicy, RobotState, evaluate_action, expressive, gate_reasons,
  risk_eq, risk_policy, run_mode, state_reasons, supervised_demo, tool_policy,
}
use dogos_memory.Agent.Policy.Allowed.{IsPermitted, allowed_only_if}
use dogos_memory.Base.{
  List, Text, [], codes, false, leb, ltb, none, refl, some, text_eq, true, ℕ, ◌*◌, ◌++◌, ◌-◌, ◌↔◌,
  ◌∷◌, ◌≡◌,
}
use dogos_memory.Value.{
  Entries, Value, array, at_least, boolean, entry, integer, lookup, no_entries, no_values,
  number_of, object, one, text,
}

abbrev pub naturals : Floats
naturals = record {
  value = ℕ;
  is_finite = λ x. true;
  lt = ltb;
  le = leb;
  sub = λ x y. x - y;
  zero = 0;
  max_lifetime = 120;
  hundred = 100;
}

abbrev digits : Text
digits = codes "0123456789abcdef0123456789abcdef0123456789abcdef0123456789abcdef"

-- one digest and one signature stand for all
abbrev crypto : Crypto
crypto = record {
  dumps = λ arguments mode tool. tool ++ mode;
  sha256 = λ bytes. digits;
  hmac = λ key message. digits;
}

abbrev payload : Text → ℕ → Text → ℕ → Text → Text
payload by expires digest issued nonce = by ++ digest ++ nonce

abbrev key : Text
key = digits

abbrev nonce : Text
nonce = codes "nonce_0123456789"

abbrev approval : ActionApproval naturals
approval = record {
  intent_sha256 = digits;
  approved_by = codes "operator";
  issued_at_s = 1000;
  expires_at_s = 1060;
  nonce = nonce;
  signature = digits;
}

no_reason :
    approval_reasons naturals crypto payload digits 1010 (some key) (some []) (some approval) ≡ []
unfolding approval_reasons dedupe is_sha256 text_eq is_approver is_nonce
no_reason = refl

replayed :
    approval_reasons naturals crypto payload digits 1010
      (some key)
      (some (nonce ∷ []))
      (some approval)
    ≡ codes "approval_replayed" ∷ []
unfolding approval_reasons dedupe is_sha256 text_eq is_approver is_nonce
replayed = refl

IsApproved-iff_example :
    (approval_reasons naturals crypto payload digits 1010 (some key) (some []) (some approval) ≡ [])
    ↔ IsApproved naturals crypto payload digits 1010 key [] approval
IsApproved-iff_example = IsApproved-iff naturals crypto payload digits 1010 key [] approval

intent_made :
    canonical_intent crypto (codes "wag_tail") (codes "supervised-demo") no_fields ≡ some digits
unfolding canonical_intent is_tool_name normal_json
intent_made = refl

approval_made :
    issue_action_approval naturals crypto payload
      (codes "wag_tail")
      (codes "supervised-demo")
      no_fields
      (codes "operator")
      1000
      1060
      nonce
      key
    ≡ some approval
unfolding issue_action_approval canonical_intent is_tool_name normal_json is_approver is_nonce
approval_made = refl

issue_valid_example :
    approval_reasons naturals crypto payload digits 1010 (some key) (some []) (some approval) ≡ []
unfolding is_sha256
issue_valid_example =
    issue_valid naturals crypto payload (λ t. refl) (codes "wag_tail") (codes "supervised-demo")
      no_fields (codes "operator") 1000 1060 1010 nonce key digits [] intent_made approval_made refl
      refl refl refl

abbrev expressive_rule : RiskPolicy naturals
expressive_rule = record {
  risk = expressive;
  risk_level = 2;
  allowed_modes = supervised_demo ∷ [];
  physical = true;
  minimum_battery_percent = some 30;
  allow_while_charging = false;
  requires_fault_free = true;
  requires_idle = true;
  requires_stationary = true;
  max_sensor_age_seconds = some 5;
  requires_person_present = false;
  cooldown_seconds = 10;
  supervisor_approval_modes = supervised_demo ∷ [];
}

abbrev allowlist : PolicyConfig naturals
allowlist = record {
  schema_version = 1;
  risks = expressive_rule ∷ [];
  tools = record { tool = codes "wag_tail"; risk = expressive } ∷ [];
}

abbrev calm : RobotState naturals
calm = record {
  battery_percent = some 80;
  charging = some false;
  fault = some false;
  stationary = some true;
  sensors_observed_at_s = some 1009;
  person_present = none;
  action_busy = some false;
  last_physical_action_at_s = some 900;
  physical_action_history_known = some true;
}

abbrev wag : ActionIntent naturals
wag = record {
  tool = codes "wag_tail";
  mode = codes "supervised-demo";
  arguments = no_fields;
  approval = some approval;
}

wag_allowed :
    (evaluate_action naturals crypto payload allowlist 1010 (some key) (some []) wag calm).allowed
    ≡ true
unfolding evaluate_action run_mode text_eq tool_policy risk_policy risk_eq canonical_intent
    is_tool_name normal_json gate_reasons approval_reasons dedupe is_sha256 is_approver is_nonce
    state_reasons
wag_allowed = refl

allowed_only_if_example :
    IsPermitted naturals crypto payload allowlist 1010 (some key) (some []) wag calm
allowed_only_if_example =
    allowed_only_if naturals crypto payload allowlist 1010 (some key) (some []) wag calm wag_allowed

abbrev just : Text → Value → Entries → Entries
just name v entries = entry name v entries

abbrev no : Value
no = boolean false

abbrev yes_value : Value
yes_value = boolean true

abbrev zero_value : Value
zero_value = integer false 0

-- a snapshot of a robot that may be activated
abbrev ready_robot : Value
ready_robot = object (
    just (codes "services")
      (object (
        just (codes "/agent/enable") (text (codes "std_srvs/srv/SetBool")) (
          just (codes "/execute_x5_command") (text (codes "software_msgs/srv/ExecuteCommand")) (
            just (codes "/function/context/get_context")
              (text (codes "function_msgs/srv/GetContext"))
              (just (codes "/get_faults_info") (text (codes "software_msgs/srv/GetFaultsInfo")) (
                just (codes "/speech_control") (text (codes "speech_msgs/srv/SpeechControl")) (
                  just (codes "/write_x5_file") (text (codes "software_msgs/srv/WriteFile"))
                    no_entries)))))))
      (just (codes "context")
        (object (
          just (codes "dag_status")
            (object (
              just (codes "execution_state") zero_value
                (just (codes "emergency_stop_active") no no_entries)))
            (just (codes "function_status")
              (object (
                just (codes "follow_status") (object (just (codes "status") zero_value no_entries))
                  (just (codes "nav_status") (object (just (codes "status") zero_value no_entries))
                    no_entries)))
              (just (codes "system_status")
                (object (
                  just (codes "robot_is_static") yes_value (
                    just (codes "static_duration") (integer false 9) (
                      just (codes "joy_override_active") no (
                        just (codes "wakeup_turn") yes_value
                          (just (codes "network_state") (integer false 2) no_entries))))))
                no_entries))))
        (just (codes "x5")
          (object (
            just (codes "probe_success") yes_value (
              just (codes "harness_active") yes_value (
                just (codes "free_bytes") (integer false 99999999)
                  (just (codes "competing_agents") (array no_values) no_entries)))))
          (just (codes "faults")
            (object (
              just (codes "error_code") zero_value
                (just (codes "current") (array no_values) no_entries)))
            (just (codes "battery")
              (object (
                just (codes "alarm") zero_value (
                  just (codes "request_shutdown") no (
                    just (codes "soc_percent") (integer false 80) (
                      just (codes "is_charger_connected") no
                        (just (codes "charge_state") zero_value no_entries))))))
              (just (codes "speech") (object (just (codes "query_success") yes_value no_entries))
                no_entries))))))

abbrev activation_checks : List Check
activation_checks = all_checks activate none (40 * one) ready_robot

abbrev ready_report : GateReport
ready_report = record {
  purpose = activate;
  passes = true;
  checks = codes_of true activation_checks;
  blockers = [];
  warnings = warnings_of activate none ready_robot;
}

ready_passes : evaluate_gate ready_robot activate none (40 * one) ≡ some ready_report
unfolding evaluate_gate all_checks common_checks fault_checks activate_checks lookup text_eq
    number_of at_least one
ready_passes = refl

evaluate_gate-Demands_example : (true ≡ true) ↔ Demands activate none (40 * one) ready_robot
evaluate_gate-Demands_example =
    evaluate_gate-Demands ready_robot activate none (40 * one) ready_passes
