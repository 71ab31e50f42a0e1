-- ===== src/Agent/Policy.antt =====
-- packages/native_agent/policy/policy.py: whether one tool of the robot may be called. A number is a
-- double (an `int` stands for the double that `float()` makes of it), and bytes are Text.
pub mod Allowed
use dogos_memory.Agent.Approval.{ActionApproval, Floats, approval_reasons, when}
use dogos_memory.Agent.Arguments.{Crypto, Fields, canonical_intent}
use dogos_memory.Base.{
  Bool, List, Option, Text, [], any, codes, contains, false, first, if◌then◌else◌, none, not, some,
  text_eq, true, ℕ, ◌&&◌, ◌++◌, ◌||◌, ◌∷◌,
}
use dogos_memory.Memory.Models.{is_empty}
use dogos_memory.Value.{at_least}

pub data RunMode : Type 0 where
  identity_only supervised_demo autonomous_safe : RunMode

pub data ToolRisk : Type 0 where
  observe communicate data_write device_control expressive : ToolRisk
  body_motion navigation jump privacy_capture network_egress : ToolRisk

-- `RunMode(raw_mode)`
unfoldable pub run_mode : Text → Option RunMode
run_mode t =
    if text_eq t (codes "identity-only")
    then some identity_only
    else if text_eq t (codes "supervised-demo")
    then some supervised_demo
    else if text_eq t (codes "autonomous-safe")
    then some autonomous_safe
    else none

abbrev mode_eq : RunMode → RunMode → Bool
mode_eq identity_only identity_only = true
mode_eq supervised_demo supervised_demo = true
mode_eq autonomous_safe autonomous_safe = true
mode_eq _ _ = false

-- `rule.risk is risk`
unfoldable pub risk_eq : ToolRisk → ToolRisk → Bool
risk_eq observe observe = true
risk_eq communicate communicate = true
risk_eq data_write data_write = true
risk_eq device_control device_control = true
risk_eq expressive expressive = true
risk_eq body_motion body_motion = true
risk_eq navigation navigation = true
risk_eq jump jump = true
risk_eq privacy_capture privacy_capture = true
risk_eq network_egress network_egress = true
risk_eq _ _ = false

-- `mode in modes`
abbrev pub has_mode : RunMode → List RunMode → Bool
has_mode mode modes = any (mode_eq mode) modes

pub record ToolPolicy : Type 0 where
  pub tool : Text
  pub risk : ToolRisk

module _ (F : Floats) where
  -- what is not known is `none`
  pub record RobotState : Type 0 where
    pub battery_percent : Option F.value
    pub charging : Option Bool
    pub fault : Option Bool
    pub stationary : Option Bool
    pub sensors_observed_at_s : Option F.value
    pub person_present : Option Bool
    pub action_busy : Option Bool
    pub last_physical_action_at_s : Option F.value
    pub physical_action_history_known : Option Bool

  pub record ActionIntent : Type 0 where
    pub tool : Text
    pub mode : Text
    pub arguments : Fields
    pub approval : Option (ActionApproval F)

  pub record RiskPolicy : Type 0 where
    pub risk : ToolRisk
    pub risk_level : ℕ
    pub allowed_modes : List RunMode
    pub physical : Bool
    pub minimum_battery_percent : Option F.value
    pub allow_while_charging : Bool
    pub requires_fault_free : Bool
    pub requires_idle : Bool
    pub requires_stationary : Bool
    pub max_sensor_age_seconds : Option F.value
    pub requires_person_present : Bool
    pub cooldown_seconds : F.value
    pub supervisor_approval_modes : List RunMode

  pub record PolicyConfig : Type 0 where
    pub schema_version : ℕ
    pub risks : List RiskPolicy
    pub tools : List ToolPolicy

  -- `PolicyConfig.risk_policy` and `PolicyConfig.tool_policy`
  unfoldable pub risk_policy : PolicyConfig → ToolRisk → Option RiskPolicy
  risk_policy p risk = first (λ rule. risk_eq rule.risk risk) p.risks

  unfoldable pub tool_policy : PolicyConfig → Text → Option ToolPolicy
  tool_policy p tool = first (λ rule. text_eq rule.tool tool) p.tools

  pub record PolicyDecision : Type 0 where
    pub allowed : Bool
    pub tool : Text
    pub mode : Text
    pub risk : Option ToolRisk
    pub risk_level : Option ℕ
    pub intent_sha256 : Option Text
    pub reason_codes : List Text

  abbrev codes_or_allowed : List Text → List Text
  codes_or_allowed [] = codes "allowed" ∷ []
  codes_or_allowed (x ∷ xs) = x ∷ xs

  -- `_decision`, without and with the risk's rule
  abbrev pub denied : ActionIntent → Text → PolicyDecision
  denied intent reason = record {
    allowed = false;
    tool = intent.tool;
    mode = intent.mode;
    risk = none;
    risk_level = none;
    intent_sha256 = none;
    reason_codes = reason ∷ [];
  }

  abbrev pub decision : ActionIntent → RiskPolicy → List Text → Option Text → PolicyDecision
  decision intent rule reasons digest = record {
    allowed = is_empty reasons;
    tool = intent.tool;
    mode = intent.mode;
    risk = some rule.risk;
    risk_level = some rule.risk_level;
    intent_sha256 = digest;
    reason_codes = codes_or_allowed reasons;
  }

  -- a fact that a rule requires to be `wanted`: unknown, otherwise, or as required
  abbrev pub fact_reasons : Bool → Option Bool → Text → Bool → Text → List Text
  fact_reasons required none unknown wanted otherwise = when required unknown
  fact_reasons required (some true) unknown wanted otherwise =
      when (required && not wanted) otherwise
  fact_reasons required (some false) unknown wanted otherwise = when (required && wanted) otherwise

  abbrev pub battery_level : F.value → F.value → List Text
  battery_level minimum battery =
      if F.lt battery F.zero || F.lt F.hundred battery
      then codes "battery_state_invalid" ∷ []
      else when (F.lt battery minimum) (codes "battery_below_minimum")

  abbrev pub battery_reasons : Option F.value → Option F.value → List Text
  battery_reasons none battery = []
  battery_reasons (some minimum) none = codes "battery_state_unknown" ∷ []
  battery_reasons (some minimum) (some battery) =
      if F.is_finite battery
      then battery_level minimum battery
      else codes "battery_state_unknown" ∷ []

  abbrev pub sensor_age : F.value → F.value → List Text
  sensor_age longest age =
      if F.lt age F.zero
      then codes "sensor_timestamp_in_future" ∷ []
      else when (F.lt longest age) (codes "sensors_stale")

  abbrev pub sensor_time : F.value → F.value → Option F.value → List Text
  sensor_time longest now none = codes "sensor_timestamp_unknown" ∷ []
  sensor_time longest now (some at) =
      if F.is_finite at
      then sensor_age longest (F.sub now at)
      else codes "sensor_timestamp_unknown" ∷ []

  abbrev pub sensor_reasons : Option F.value → F.value → Option F.value → List Text
  sensor_reasons none now at = []
  sensor_reasons (some longest) now at =
      if F.is_finite now then sensor_time longest now at else codes "current_time_invalid" ∷ []

  abbrev pub elapsed_reasons : F.value → F.value → List Text
  elapsed_reasons at_least elapsed =
      if F.lt elapsed F.zero
      then codes "cooldown_timestamp_in_future" ∷ []
      else when (F.lt elapsed at_least) (codes "cooldown_active")

  -- the reasons before it are looked at for `current_time_invalid`
  abbrev pub last_action_reasons : List Text → F.value → F.value → Option F.value → List Text
  last_action_reasons before at_least now none = []
  last_action_reasons before at_least now (some at) =
      if F.is_finite now
      then if F.is_finite at
        then elapsed_reasons at_least (F.sub now at)
        else codes "cooldown_timestamp_invalid" ∷ []
      else when (not (contains (codes "current_time_invalid") before))
          (codes "current_time_invalid")

  abbrev pub is_true : Option Bool → Bool
  is_true (some true) = true
  is_true _ = false

  abbrev pub cooldown_reasons : List Text → RiskPolicy → F.value → RobotState → List Text
  cooldown_reasons before rule now s =
      if rule.physical && F.lt F.zero rule.cooldown_seconds
      then if is_true s.physical_action_history_known
        then last_action_reasons before rule.cooldown_seconds now s.last_physical_action_at_s
        else codes "cooldown_history_unknown" ∷ []
      else []

  -- the gates on the robot's state, in order
  unfoldable pub state_reasons : RiskPolicy → F.value → RobotState → List Text
  state_reasons rule now s =
      fact_reasons rule.requires_fault_free s.fault (codes "fault_state_unknown") false
        (codes "robot_fault")
      ++ (fact_reasons rule.requires_idle s.action_busy (codes "action_busy_state_unknown") false
            (codes "action_busy")
          ++ (fact_reasons (not rule.allow_while_charging) s.charging
                (codes "charging_state_unknown") false (codes "robot_charging")
              ++ (battery_reasons rule.minimum_battery_percent s.battery_percent
                  ++ (fact_reasons rule.requires_stationary s.stationary
                        (codes "stationary_state_unknown") true (codes "robot_not_stationary")
                      ++ (sensor_reasons rule.max_sensor_age_seconds now s.sensors_observed_at_s
                          ++ (fact_reasons rule.requires_person_present s.person_present
                              (codes "person_presence_unknown") true
                              (codes "person_not_present")))))))

module _ (F : Floats) (crypto : Crypto) (payload : Text → F.value → Text → F.value → Text → Text)
    (p : PolicyConfig F) (now : F.value) (secret : Option Text)
    (consumed : Option (List Text)) where
  -- the gates before the cooldown's, for a mode that is allowed
  unfoldable pub gate_reasons :
      ActionIntent F → RobotState F → RunMode → RiskPolicy F → Text → List Text
  gate_reasons intent s mode rule digest =
      (if has_mode mode rule.supervisor_approval_modes
        then approval_reasons F crypto payload digest now secret consumed intent.approval
        else [])
      ++ state_reasons F rule now s

  abbrev pub decide_mode :
      ActionIntent F → RobotState F → RunMode → RiskPolicy F → Text → PolicyDecision F
  decide_mode intent s mode rule digest =
      if has_mode mode rule.allowed_modes
      then (let before = gate_reasons intent s mode rule digest in
          decision F intent rule (before ++ cooldown_reasons F before rule now s) (some digest))
      else decision F intent rule (codes "mode_not_allowed" ∷ []) (some digest)

  abbrev pub decide_intent :
      ActionIntent F → RobotState F → RunMode → RiskPolicy F → Option Text → PolicyDecision F
  decide_intent intent s mode rule none =
      decision F intent rule (codes "invalid_arguments" ∷ []) none
  decide_intent intent s mode rule (some digest) = decide_mode intent s mode rule digest

  abbrev pub decide_risk :
      ActionIntent F → RobotState F → RunMode → Option (RiskPolicy F) → PolicyDecision F
  decide_risk intent s mode none = denied F intent (codes "risk_policy_missing")
  decide_risk intent s mode (some rule) =
      decide_intent intent s mode rule
        (canonical_intent crypto intent.tool intent.mode intent.arguments)

  abbrev pub decide_tool :
      ActionIntent F → RobotState F → RunMode → Option ToolPolicy → PolicyDecision F
  decide_tool intent s mode none = denied F intent (codes "tool_not_allowlisted")
  decide_tool intent s mode (some rule) = decide_risk intent s mode (risk_policy F p rule.risk)

  abbrev pub decide : ActionIntent F → RobotState F → Option RunMode → PolicyDecision F
  decide intent s none = denied F intent (codes "invalid_mode")
  decide intent s (some mode) = decide_tool intent s mode (tool_policy F p intent.tool)

  unfoldable pub evaluate_action : ActionIntent F → RobotState F → PolicyDecision F
  evaluate_action intent s = decide intent s (run_mode intent.mode)
