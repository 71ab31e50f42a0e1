-- ===== src/Agent/Gates/Groups.antt =====
-- Each group of checks of packages/native_agent/runtime/gates.py holds exactly if its demands are met.
-- Every check holds.
use dogos_memory.Agent.Gates.{
  Check, activate, activate_checks, common_checks, context_part, equals, fault_checks, inspect,
  install_checks, is_empty_list, is_null, is_truthy, is_zero, legacy_not_charging,
  not_charging_state, number_to, revision_checks, service_checks,
}
use dogos_memory.Agent.Gates.Demands.{
  HasBaseServices, HasRevision, HasServices, IsActivatable, IsAtRest, IsFaultless, IsInstallable,
  IsUncharging,
}
use dogos_memory.Base.{
  All, Bool, List, Option, Text, ap, arith, codes, false, inl, inr, none, not, refl, some,
  text_eq_iff, true, ℕ, ◌*◌, ◌||◌, ◌↔◌, ◌≡◌, ◌⊎◌,
}
use dogos_memory.Value.{
  Value, array, boolean, double, get_key, infinite, integer, is_false, is_true, no_values,
  not_a_number, null, object, one, text, text_is,
}

abbrev pub AllHold : List Check → Type 0
AllHold cs = All (λ c. c.0 ≡ true) cs

pub is_true_iff : (v : Value) → (is_true v ≡ true) ↔ (v ≡ boolean true)
is_true_iff v = (λ h. ground arith, λ h. ground arith)

pub is_false_iff : (v : Value) → (is_false v ≡ true) ↔ (v ≡ boolean false)
is_false_iff v = (λ h. ground arith, λ h. ground arith)

pub is_null_iff : (v : Value) → (is_null v ≡ true) ↔ (v ≡ null)
is_null_iff v = (λ h. ground arith, λ h. ground arith)

pub not_iff : (b : Bool) → (not b ≡ true) ↔ (b ≡ false)
not_iff b = (λ h. ground arith, λ h. ground arith)

pub text_is_iff : (v : Value) (t : Text) → (text_is v t ≡ true) ↔ (v ≡ text t)
text_is_iff (text x) t = (
  λ h. ap text ((text_eq_iff x t).0 h),
  λ h. let same : x ≡ t = ground arith in (text_eq_iff x t).1 same,
)
text_is_iff null t = (λ h. cc h, λ h. cc h)
text_is_iff (boolean b) t = (λ h. cc h, λ h. cc h)
text_is_iff (integer b n) t = (λ h. cc h, λ h. cc h)
text_is_iff (double b n) t = (λ h. cc h, λ h. cc h)
text_is_iff (infinite b) t = (λ h. cc h, λ h. cc h)
text_is_iff not_a_number t = (λ h. cc h, λ h. cc h)
text_is_iff (array vs) t = (λ h. cc h, λ h. cc h)
text_is_iff (object es) t = (λ h. cc h, λ h. cc h)

pub is_empty_list_iff : (v : Value) → (is_empty_list v ≡ true) ↔ (v ≡ array no_values)
is_empty_list_iff v = (λ h. ground arith, λ h. ground arith)

pub common_checks_iff : (s : Value) → AllHold (common_checks s) ↔ IsAtRest s
unfolding common_checks
common_checks_iff s = (
  λ (h0, (h1, (h2, (h3, (h4, (h5, (h6, (h7, (h8, (h9, (h10, (h11, _)))))))))))). record {
    idle = h0;
    unnamed =
        (not_iff
            (is_truthy (get_key (codes "current_dag") (context_part (codes "dag_status") s)))).0
          h1;
    unstopped =
        (is_false_iff
            (get_key (codes "emergency_stop_active") (context_part (codes "dag_status") s))).0
          h2;
    still =
        (is_true_iff (get_key (codes "robot_is_static") (context_part (codes "system_status") s))).0
          h3;
    rested = h4;
    unsteered =
        (is_false_iff
            (get_key (codes "joy_override_active") (context_part (codes "system_status") s))).0
          h5;
    unfollowing = h6;
    unguided = h7;
    probed = (is_true_iff (get_key (codes "probe_success") (get_key (codes "x5") s))).0 h8;
    harnessed = (is_true_iff (get_key (codes "harness_active") (get_key (codes "x5") s))).0 h9;
    roomy = h10;
    alone = (is_empty_list_iff (get_key (codes "competing_agents") (get_key (codes "x5") s))).0 h11;
  },
  λ r. (
    r.idle,
    (
      (not_iff (is_truthy (get_key (codes "current_dag") (context_part (codes "dag_status") s)))).1
          r.unnamed,
      (
        (is_false_iff
              (get_key (codes "emergency_stop_active") (context_part (codes "dag_status") s))).1
            r.unstopped,
        (
          (is_true_iff
                (get_key (codes "robot_is_static") (context_part (codes "system_status") s))).1
              r.still,
          (
            r.rested,
            (
              (is_false_iff (
                    get_key (codes "joy_override_active")
                      (context_part (codes "system_status") s))).1
                  r.unsteered,
              (
                r.unfollowing,
                (
                  r.unguided,
                  (
                    (is_true_iff (get_key (codes "probe_success") (get_key (codes "x5") s))).1
                        r.probed,
                    (
                      (is_true_iff (get_key (codes "harness_active") (get_key (codes "x5") s))).1
                          r.harnessed,
                      (
                        r.roomy,
                        (
                          (is_empty_list_iff
                                (get_key (codes "competing_agents") (get_key (codes "x5") s))).1
                              r.alone,
                          tt,
                        ),
                      ),
                    ),
                  ),
                ),
              ),
            ),
          ),
        ),
      ),
    ),
  ),
)

pub fault_checks_iff : (s : Value) → AllHold (fault_checks s) ↔ IsFaultless s
unfolding fault_checks
fault_checks_iff s = (
  λ (h0, (h1, (h2, (h3, _)))). record {
    queried = h0;
    faultless = (is_empty_list_iff (get_key (codes "current") (get_key (codes "faults") s))).0 h1;
    unalarmed = h2;
    unasked =
        (is_false_iff (get_key (codes "request_shutdown") (get_key (codes "battery") s))).0 h3;
  },
  λ r. (
    r.queried,
    (
      (is_empty_list_iff (get_key (codes "current") (get_key (codes "faults") s))).1 r.faultless,
      (
        r.unalarmed,
        (
          (is_false_iff (get_key (codes "request_shutdown") (get_key (codes "battery") s))).1
              r.unasked,
          tt,
        ),
      ),
    ),
  ),
)

pub install_checks_iff : (s : Value) → AllHold (install_checks s) ↔ IsInstallable s
unfolding install_checks
install_checks_iff s = (
  λ (h0, (h1, (h2, (h3, (h4, (h5, (h6, _))))))). record {
    memory = (is_true_iff (get_key (codes "memory_dir_ready") (get_key (codes "x5") s))).0 h0;
    parent = (is_true_iff (get_key (codes "agents_parent_ready") (get_key (codes "x5") s))).0 h1;
    heard = (is_true_iff (get_key (codes "query_success") (get_key (codes "speech") s))).0 h2;
    disabled =
        (is_false_iff (get_key (codes "agent_enable") (context_part (codes "system_status") s))).0
          h3;
    silent =
        (is_false_iff (get_key (codes "chat_function_status") (get_key (codes "speech") s))).0 h4;
    unrecognised = h5;
    discontinued =
        (is_false_iff (get_key (codes "continuous_cmd_status") (get_key (codes "speech") s))).0 h6;
  },
  λ r. (
    (is_true_iff (get_key (codes "memory_dir_ready") (get_key (codes "x5") s))).1 r.memory,
    (
      (is_true_iff (get_key (codes "agents_parent_ready") (get_key (codes "x5") s))).1 r.parent,
      (
        (is_true_iff (get_key (codes "query_success") (get_key (codes "speech") s))).1 r.heard,
        (
          (is_false_iff (get_key (codes "agent_enable") (context_part (codes "system_status") s))).1
              r.disabled,
          (
            (is_false_iff (get_key (codes "chat_function_status") (get_key (codes "speech") s))).1
                r.silent,
            (
              r.unrecognised,
              (
                (is_false_iff
                      (get_key (codes "continuous_cmd_status") (get_key (codes "speech") s))).1
                    r.discontinued,
                tt,
              ),
            ),
          ),
        ),
      ),
    ),
  ),
)

or_iff : (a b : Bool) → ((a || b) ≡ true) ↔ ((a ≡ true) ⊎ (b ≡ true))
or_iff true b = (λ h. inl refl, λ h. refl)
or_iff false b = (λ h. inr h, λ h. elim h [ inl e ↦ cc e | inr e ↦ e ])

or_three : (a b c : Bool) → ((a || b || c) ≡ true) ↔ (((a ≡ true) ⊎ (b ≡ true)) ⊎ (c ≡ true))
or_three true b c = (λ h. inl (inl refl), λ h. refl)
or_three false true c = (λ h. inl (inr refl), λ h. refl)
or_three false false c =
    (λ h. inr h, λ h. elim h [ inl (inl e) ↦ cc e | inl (inr e) ↦ cc e | inr e ↦ e ])

pub legacy_not_charging_iff :
    (battery : Value)
    → (legacy_not_charging battery ≡ true) ↔ (
        (get_key (codes "charge_state_supported") battery ≡ boolean false)
        × (get_key (codes "charge_state") battery ≡ null)
        × (get_key (codes "is_charger_connected") battery ≡ boolean false)
        × (number_to (150 * one) (get_key (codes "current_ma") battery) ≡ true))
legacy_not_charging_iff battery =
    let a = is_false_iff (get_key (codes "charge_state_supported") battery) in
    let b = is_null_iff (get_key (codes "charge_state") battery) in
    let c = is_false_iff (get_key (codes "is_charger_connected") battery) in
    (
      λ h. (a.0 (ground arith), b.0 (ground arith), c.0 (ground arith), ground arith),
      λ (x, y, z, w). rw (a.1 x, b.1 y, c.1 z, w) refl,
    )

pub IsUncharging-iff :
    (battery : Value)
    → ((not_charging_state (get_key (codes "charge_state") battery) || legacy_not_charging battery)
        ≡ true)
      ↔ IsUncharging battery
IsUncharging-iff battery =
    let v = get_key (codes "charge_state") battery in
    let legacy = legacy_not_charging_iff battery in
    (
      λ h. elim ((or_iff (not_charging_state v) (legacy_not_charging battery)).0 h) [
        | inl e ↦ inl ((or_three (is_zero v) (equals 1 v) (equals 3 v)).0 e)
        | inr e ↦ inr (legacy.0 e)
      ],
      λ h. (or_iff (not_charging_state v) (legacy_not_charging battery)).1 (elim h [
        | inl e ↦ inl ((or_three (is_zero v) (equals 1 v) (equals 3 v)).1 e)
        | inr e ↦ inr (legacy.1 e)
      ]),
    )

pub activate_checks_iff :
    (revision : Option Text) (minimum : ℕ) (s : Value)
    → AllHold (activate_checks revision minimum s)
      ↔ (IsActivatable s minimum × AllHold (revision_checks revision s))
unfolding activate_checks
activate_checks_iff revision minimum s = (
  λ (h0, (h1, (h2, (h3, (h4, (h5, rest)))))). (
    record {
      charged = h0;
      unplugged =
          (is_false_iff (get_key (codes "is_charger_connected") (get_key (codes "battery") s))).0
            h1;
      uncharging = (IsUncharging-iff (get_key (codes "battery") s)).0 h2;
      wakeable =
          (is_true_iff (get_key (codes "wakeup_turn") (context_part (codes "system_status") s))).0
            h3;
      online =
          (or_iff
              (equals 1 (get_key (codes "network_state") (context_part (codes "system_status") s)))
              (equals 2
                (get_key (codes "network_state") (context_part (codes "system_status") s)))).0
            h4;
      heard = (is_true_iff (get_key (codes "query_success") (get_key (codes "speech") s))).0 h5;
    },
    rest,
  ),
  λ (r, rest). (
    r.charged,
    (
      (is_false_iff (get_key (codes "is_charger_connected") (get_key (codes "battery") s))).1
          r.unplugged,
      (
        (IsUncharging-iff (get_key (codes "battery") s)).1 r.uncharging,
        (
          (is_true_iff (get_key (codes "wakeup_turn") (context_part (codes "system_status") s))).1
              r.wakeable,
          (
            (or_iff
                  (equals 1
                    (get_key (codes "network_state") (context_part (codes "system_status") s)))
                  (equals 2
                    (get_key (codes "network_state") (context_part (codes "system_status") s)))).1
                r.online,
            (
              (is_true_iff (get_key (codes "query_success") (get_key (codes "speech") s))).1
                  r.heard,
              rest,
            ),
          ),
        ),
      ),
    ),
  ),
)

pub revision_checks_iff :
    (revision : Option Text) (s : Value)
    → AllHold (revision_checks revision s)
      ↔ HasRevision revision (get_key (codes "identity_state") (get_key (codes "x5") s))
revision_checks_iff none s = (λ h. tt, λ h. tt)
revision_checks_iff (some revision) s =
    let state = get_key (codes "identity_state") (get_key (codes "x5") s) in
    let a = text_is_iff (get_key (codes "current_revision") state) revision in
    let b = is_false_iff (get_key (codes "restart_required") state) in
    (λ (x, (y, _)). (a.0 x, b.0 y), λ (x, y). (a.1 x, (b.1 y, tt)))

-- of a purpose but an inspection, in the order of the names of the services
pub service_checks_iff :
    (s : Value) → AllHold (service_checks activate s) ↔ (HasBaseServices s × HasServices s)
service_checks_iff s = (
  λ (h0, (h1, (h2, (h3, (h4, (h5, _)))))). (
    record {
      commands =
          (text_is_iff (get_key (codes "/execute_x5_command") (get_key (codes "services") s))
              (codes "software_msgs/srv/ExecuteCommand")).0
            h1;
      context =
          (text_is_iff
              (get_key (codes "/function/context/get_context") (get_key (codes "services") s))
              (codes "function_msgs/srv/GetContext")).0
            h2;
    },
    record {
      agent =
          (text_is_iff (get_key (codes "/agent/enable") (get_key (codes "services") s))
              (codes "std_srvs/srv/SetBool")).0
            h0;
      faults =
          (text_is_iff (get_key (codes "/get_faults_info") (get_key (codes "services") s))
              (codes "software_msgs/srv/GetFaultsInfo")).0
            h3;
      speech =
          (text_is_iff (get_key (codes "/speech_control") (get_key (codes "services") s))
              (codes "speech_msgs/srv/SpeechControl")).0
            h4;
      files =
          (text_is_iff (get_key (codes "/write_x5_file") (get_key (codes "services") s))
              (codes "software_msgs/srv/WriteFile")).0
            h5;
    },
  ),
  λ (a, b). (
    (text_is_iff (get_key (codes "/agent/enable") (get_key (codes "services") s))
          (codes "std_srvs/srv/SetBool")).1
        b.agent,
    (
      (text_is_iff (get_key (codes "/execute_x5_command") (get_key (codes "services") s))
            (codes "software_msgs/srv/ExecuteCommand")).1
          a.commands,
      (
        (text_is_iff
              (get_key (codes "/function/context/get_context") (get_key (codes "services") s))
              (codes "function_msgs/srv/GetContext")).1
            a.context,
        (
          (text_is_iff (get_key (codes "/get_faults_info") (get_key (codes "services") s))
                (codes "software_msgs/srv/GetFaultsInfo")).1
              b.faults,
          (
            (text_is_iff (get_key (codes "/speech_control") (get_key (codes "services") s))
                  (codes "speech_msgs/srv/SpeechControl")).1
                b.speech,
            (
              (text_is_iff (get_key (codes "/write_x5_file") (get_key (codes "services") s))
                    (codes "software_msgs/srv/WriteFile")).1
                  b.files,
              tt,
            ),
          ),
        ),
      ),
    ),
  ),
)

pub base_services_iff : (s : Value) → AllHold (service_checks inspect s) ↔ HasBaseServices s
base_services_iff s = (
  λ (h0, (h1, _)). record {
    commands =
        (text_is_iff (get_key (codes "/execute_x5_command") (get_key (codes "services") s))
            (codes "software_msgs/srv/ExecuteCommand")).0
          h0;
    context =
        (text_is_iff
            (get_key (codes "/function/context/get_context") (get_key (codes "services") s))
            (codes "function_msgs/srv/GetContext")).0
          h1;
  },
  λ a. (
    (text_is_iff (get_key (codes "/execute_x5_command") (get_key (codes "services") s))
          (codes "software_msgs/srv/ExecuteCommand")).1
        a.commands,
    (
      (text_is_iff (get_key (codes "/function/context/get_context") (get_key (codes "services") s))
            (codes "function_msgs/srv/GetContext")).1
          a.context,
      tt,
    ),
  ),
)
