-- ===== src/Agent/Gates/Demands.antt =====
-- What a snapshot of the robot must show for each purpose, one demand for each of the conditions of
-- `evaluate_gate` in packages/native_agent/runtime/gates.py.
-- The services that an inspection needs.
use dogos_memory.Agent.Gates.{
  Purpose, activate, context_part, equals, function_part, inspect, install, is_truthy, is_zero,
  number_from, number_to,
}
use dogos_memory.Base.{Option, Text, codes, false, none, some, true, ℕ, ◌*◌, ◌≡◌, ◌⊎◌}
use dogos_memory.Value.{Value, array, boolean, get_key, no_values, null, one, text}

pub record HasBaseServices (s : Value) : Type 0 where
  pub commands :
      get_key (codes "/execute_x5_command") (get_key (codes "services") s)
      ≡ text (codes "software_msgs/srv/ExecuteCommand")
  pub context :
      get_key (codes "/function/context/get_context") (get_key (codes "services") s)
      ≡ text (codes "function_msgs/srv/GetContext")

-- The robot stands still, nothing moves, steers or stops it, and its one agent runs on a computer that
-- works and has room.
pub record IsAtRest (s : Value) : Type 0 where
  pub idle :
      is_zero (get_key (codes "execution_state") (context_part (codes "dag_status") s)) ≡ true
  pub unnamed :
      is_truthy (get_key (codes "current_dag") (context_part (codes "dag_status") s)) ≡ false
  pub unstopped :
      get_key (codes "emergency_stop_active") (context_part (codes "dag_status") s) ≡ boolean false
  pub still :
      get_key (codes "robot_is_static") (context_part (codes "system_status") s) ≡ boolean true
  pub rested :
      number_from
        (5 * one)
        (get_key (codes "static_duration") (context_part (codes "system_status") s))
      ≡ true
  pub unsteered :
      get_key (codes "joy_override_active") (context_part (codes "system_status") s) ≡ boolean false
  pub unfollowing :
      is_zero (get_key (codes "status") (function_part (codes "follow_status") s)) ≡ true
  pub unguided : is_zero (get_key (codes "status") (function_part (codes "nav_status") s)) ≡ true
  pub probed : get_key (codes "probe_success") (get_key (codes "x5") s) ≡ boolean true
  pub harnessed : get_key (codes "harness_active") (get_key (codes "x5") s) ≡ boolean true
  pub roomy :
      number_from (33554432 * one) (get_key (codes "free_bytes") (get_key (codes "x5") s)) ≡ true
  pub alone : get_key (codes "competing_agents") (get_key (codes "x5") s) ≡ array no_values

-- The other services, that an installation and an activation need.
pub record HasServices (s : Value) : Type 0 where
  pub agent :
      get_key (codes "/agent/enable") (get_key (codes "services") s)
      ≡ text (codes "std_srvs/srv/SetBool")
  pub faults :
      get_key (codes "/get_faults_info") (get_key (codes "services") s)
      ≡ text (codes "software_msgs/srv/GetFaultsInfo")
  pub speech :
      get_key (codes "/speech_control") (get_key (codes "services") s)
      ≡ text (codes "speech_msgs/srv/SpeechControl")
  pub files :
      get_key (codes "/write_x5_file") (get_key (codes "services") s)
      ≡ text (codes "software_msgs/srv/WriteFile")

-- There is no fault and no alarm of the battery.
pub record IsFaultless (s : Value) : Type 0 where
  pub queried : is_zero (get_key (codes "error_code") (get_key (codes "faults") s)) ≡ true
  pub faultless : get_key (codes "current") (get_key (codes "faults") s) ≡ array no_values
  pub unalarmed : is_zero (get_key (codes "alarm") (get_key (codes "battery") s)) ≡ true
  pub unasked : get_key (codes "request_shutdown") (get_key (codes "battery") s) ≡ boolean false

-- The directories are there, and the agent and all ways to speak to it are off.
pub record IsInstallable (s : Value) : Type 0 where
  pub memory : get_key (codes "memory_dir_ready") (get_key (codes "x5") s) ≡ boolean true
  pub parent : get_key (codes "agents_parent_ready") (get_key (codes "x5") s) ≡ boolean true
  pub heard : get_key (codes "query_success") (get_key (codes "speech") s) ≡ boolean true
  pub disabled :
      get_key (codes "agent_enable") (context_part (codes "system_status") s) ≡ boolean false
  pub silent : get_key (codes "chat_function_status") (get_key (codes "speech") s) ≡ boolean false
  pub unrecognised :
      is_zero (get_key (codes "cmd_recognition_mode") (get_key (codes "speech") s)) ≡ true
  pub discontinued :
      get_key (codes "continuous_cmd_status") (get_key (codes "speech") s) ≡ boolean false

-- A state of the charger that does not charge, or, of a firmware without one, an unplugged charger and
-- at most 150 mA.
abbrev pub IsUncharging : Value → Type 0
IsUncharging battery =
    (((is_zero (get_key (codes "charge_state") battery) ≡ true)
        ⊎ (equals 1 (get_key (codes "charge_state") battery) ≡ true))
      ⊎ (equals 3 (get_key (codes "charge_state") battery) ≡ true))
    ⊎ ((get_key (codes "charge_state_supported") battery ≡ boolean false)
        × (get_key (codes "charge_state") battery ≡ null)
        × (get_key (codes "is_charger_connected") battery ≡ boolean false)
        × (number_to (150 * one) (get_key (codes "current_ma") battery) ≡ true))

abbrev pub IsOnline : Value → Type 0
IsOnline network = (equals 1 network ≡ true) ⊎ (equals 2 network ≡ true)

-- The battery is charged and does not charge, and the agent can be woken, reached and heard.
pub record IsActivatable (s : Value) (minimum : ℕ) : Type 0 where
  pub charged :
      number_from minimum (get_key (codes "soc_percent") (get_key (codes "battery") s)) ≡ true
  pub unplugged :
      get_key (codes "is_charger_connected") (get_key (codes "battery") s) ≡ boolean false
  pub uncharging : IsUncharging (get_key (codes "battery") s)
  pub wakeable :
      get_key (codes "wakeup_turn") (context_part (codes "system_status") s) ≡ boolean true
  pub online : IsOnline (get_key (codes "network_state") (context_part (codes "system_status") s))
  pub heard : get_key (codes "query_success") (get_key (codes "speech") s) ≡ boolean true

-- The identity that is expected, if one is, is installed and needs no restart.
abbrev pub HasRevision : Option Text → Value → Type 0
HasRevision none state = Unit
HasRevision (some revision) state =
    (get_key (codes "current_revision") state ≡ text revision)
    × (get_key (codes "restart_required") state ≡ boolean false)

-- all demands of a purpose
abbrev pub Demands : Purpose → Option Text → ℕ → Value → Type 0
Demands inspect revision minimum s = HasBaseServices s × IsAtRest s
Demands install revision minimum s =
    HasBaseServices s × HasServices s × IsAtRest s × IsFaultless s × IsInstallable s
Demands activate revision minimum s =
    HasBaseServices s
    × HasServices s
    × IsAtRest s
    × IsFaultless s
    × IsActivatable s minimum
    × HasRevision revision (get_key (codes "identity_state") (get_key (codes "x5") s))
