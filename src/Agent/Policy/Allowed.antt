-- ===== src/Agent/Policy/Allowed.antt =====
-- What an allowed action has passed.
use mathlib.Core.Path.{subst}
use dogos_memory.Agent.Approval.{ActionApproval, Floats, approval_reasons, dedupe, secret_reasons}
use dogos_memory.Agent.Approval.Issue.{IsApproved, IsApproved-iff, append_empty, dedupe_empty}
use dogos_memory.Agent.Arguments.{Crypto, canonical_intent}
use dogos_memory.Agent.Policy.{
  ActionIntent, PolicyConfig, RiskPolicy, RobotState, RunMode, ToolPolicy, battery_reasons,
  cooldown_reasons, decide_mode, evaluate_action, fact_reasons, gate_reasons, has_mode, is_true,
  last_action_reasons, risk_policy, run_mode, sensor_reasons, state_reasons, tool_policy,
}
use dogos_memory.Base.{
  Bool, Bool-cases, List, Option, Option-cases, Text, [], ap, arith, false, if◌then◌else◌, inl, inr,
  none, not, refl, some, sym, true, ◌++◌, ◌∙◌, ◌∷◌, ◌≡◌,
}
use dogos_memory.Memory.Models.{is_empty}

is_empty-eq : (xs : List Text) → is_empty xs ≡ true → xs ≡ []
is_empty-eq [] h = refl
is_empty-eq (x ∷ xs) h = cc h

module _ (F : Floats) where
  fact_known :
      (required : Bool) (fact : Option Bool) (unknown : Text) (wanted : Bool) (otherwise : Text)
      → fact_reasons F required fact unknown wanted otherwise ≡ []
      → required ≡ true
      → fact ≡ some wanted
  fact_known true none unknown wanted otherwise h r = cc h
  fact_known true (some true) unknown true otherwise h r = refl
  fact_known true (some true) unknown false otherwise h r = cc h
  fact_known true (some false) unknown true otherwise h r = cc h
  fact_known true (some false) unknown false otherwise h r = refl
  fact_known false fact unknown wanted otherwise h r = cc r

  -- The battery's charge is known, is a percentage, and is not below the least.
  abbrev pub HasCharge : Option F.value → Option F.value → Type 0
  HasCharge none battery = Unit
  HasCharge (some minimum) battery =
      (b : F.value) × (battery ≡ some b)
      × (F.is_finite b ≡ true)
      × (F.lt b F.zero ≡ false)
      × (F.lt F.hundred b ≡ false)
      × (F.lt b minimum ≡ false)

  has_charge :
      (minimum battery : Option F.value)
      → battery_reasons F minimum battery ≡ []
      → HasCharge minimum battery
  has_charge none battery h = tt
  has_charge (some minimum) none h = cc h
  has_charge (some minimum) (some b) h =
      (b, refl, ground arith, ground arith, ground arith, ground arith)

  -- The sensors were read at a known time, not later than now and not too long ago.
  abbrev pub IsFresh : Option F.value → F.value → Option F.value → Type 0
  IsFresh none now observed = Unit
  IsFresh (some longest) now observed =
      (at : F.value) × (observed ≡ some at)
      × (F.is_finite now ≡ true)
      × (F.is_finite at ≡ true)
      × (F.lt (F.sub now at) F.zero ≡ false)
      × (F.lt longest (F.sub now at) ≡ false)

  is_fresh :
      (longest : Option F.value) (now : F.value) (observed : Option F.value)
      → sensor_reasons F longest now observed ≡ []
      → IsFresh longest now observed
  is_fresh none now observed h = tt
  is_fresh (some longest) now none h = ground arith
  is_fresh (some longest) now (some at) h =
      (at, refl, ground arith, ground arith, ground arith, ground arith)

  -- The last physical action, if there was one, was at a known time, and is long enough ago.
  abbrev pub HasCooled : F.value → F.value → Option F.value → Type 0
  HasCooled cooldown_s now none = Unit
  HasCooled cooldown_s now (some at) =
      (F.is_finite now ≡ true)
      × (F.is_finite at ≡ true)
      × (F.lt (F.sub now at) F.zero ≡ false)
      × (F.lt (F.sub now at) cooldown_s ≡ false)

  has_cooled :
      (cooldown_s now : F.value) (last : Option F.value)
      → last_action_reasons F [] cooldown_s now last ≡ []
      → HasCooled cooldown_s now last
  has_cooled cooldown_s now none h = tt
  has_cooled cooldown_s now (some at) h = (ground arith, ground arith, ground arith, ground arith)

  is_true-eq : (b : Option Bool) → is_true F b ≡ true → b ≡ some true
  is_true-eq none h = cc h
  is_true-eq (some true) h = refl
  is_true-eq (some false) h = cc h

  cooled :
      (rule : RiskPolicy F) (now : F.value) (s : RobotState F)
      → cooldown_reasons F [] rule now s ≡ []
      → rule.physical ≡ true
      → F.lt F.zero rule.cooldown_seconds ≡ true
      → (s.physical_action_history_known ≡ some true)
        × HasCooled rule.cooldown_seconds now s.last_physical_action_at_s
  cooled rule now s h p q = elim (Bool-cases (is_true F s.physical_action_history_known)) [
    | inl e ↦ (
      is_true-eq s.physical_action_history_known e,
      has_cooled rule.cooldown_seconds now s.last_physical_action_at_s (rw (p, q, e) at h),
    )
    | inr e ↦ absurd (cc (rw (p, q, e) at h))
  ]

  -- The robot's state meets every demand that the rule makes of it; what is not known meets none.
  pub record IsSafe (rule : RiskPolicy F) (now : F.value) (s : RobotState F) : Type 0 where
    pub sound : rule.requires_fault_free ≡ true → s.fault ≡ some false
    pub idle : rule.requires_idle ≡ true → s.action_busy ≡ some false
    pub unplugged : not rule.allow_while_charging ≡ true → s.charging ≡ some false
    pub charged : HasCharge rule.minimum_battery_percent s.battery_percent
    pub still : rule.requires_stationary ≡ true → s.stationary ≡ some true
    pub fresh : IsFresh rule.max_sensor_age_seconds now s.sensors_observed_at_s
    pub seen : rule.requires_person_present ≡ true → s.person_present ≡ some true
    pub cooled :
        rule.physical ≡ true
        → F.lt F.zero rule.cooldown_seconds ≡ true
        → (s.physical_action_history_known ≡ some true)
          × HasCooled rule.cooldown_seconds now s.last_physical_action_at_s

  state-IsSafe :
      (rule : RiskPolicy F) (now : F.value) (s : RobotState F)
      → state_reasons F rule now s ≡ []
      → cooldown_reasons F [] rule now s ≡ []
      → IsSafe rule now s
  unfolding state_reasons
  state-IsSafe rule now s h k =
      let (a, h1) = append_empty _ _ h in
      let (b, h2) = append_empty _ _ h1 in
      let (c, h3) = append_empty _ _ h2 in
      let (d, h4) = append_empty _ _ h3 in
      let (e, h5) = append_empty _ _ h4 in
      let (f, g) = append_empty _ _ h5 in
      record {
        sound = fact_known rule.requires_fault_free s.fault _ false _ a;
        idle = fact_known rule.requires_idle s.action_busy _ false _ b;
        unplugged = fact_known (not rule.allow_while_charging) s.charging _ false _ c;
        charged = has_charge rule.minimum_battery_percent s.battery_percent d;
        still = fact_known rule.requires_stationary s.stationary _ true _ e;
        fresh = is_fresh rule.max_sensor_age_seconds now s.sensors_observed_at_s f;
        seen = fact_known rule.requires_person_present s.person_present _ true _ g;
        cooled = cooled rule now s k;
      }

-- The approval that a supervised action has: key and store of nonces are at hand, and it is valid.
abbrev pub HasApproval :
    (F : Floats)
    → Crypto
    → (Text → F.value → Text → F.value → Text → Text)
    → Text
    → F.value
    → Option Text
    → Option (List Text)
    → Option (ActionApproval F)
    → Type 0
HasApproval F crypto payload digest now secret consumed approval =
    (a : ActionApproval F) × (key : Text) × (nonces : List Text) × (approval ≡ some a)
    × (secret ≡ some key)
    × (consumed ≡ some nonces)
    × IsApproved F crypto payload digest now key nonces a

module _ (F : Floats) (crypto : Crypto) (payload : Text → F.value → Text → F.value → Text → Text)
    (p : PolicyConfig F) (now : F.value) (secret : Option Text)
    (consumed : Option (List Text)) where
  approval_known :
      (digest : Text) (secret' : Option Text) (consumed' : Option (List Text))
      (approval : Option (ActionApproval F))
      → approval_reasons F crypto payload digest now secret' consumed' approval ≡ []
      → HasApproval F crypto payload digest now secret' consumed' approval
  unfolding approval_reasons dedupe
  approval_known digest secret' consumed' none h = cc h
  approval_known digest none consumed' (some a) h = cc h
  approval_known digest (some key) none (some a) h =
      absurd (cc (append_empty (secret_reasons F crypto payload (some key)) _ (dedupe_empty _ h)).1)
  approval_known digest (some key) (some nonces) (some a) h = (
    a,
    key,
    nonces,
    refl,
    refl,
    refl,
    (IsApproved-iff F crypto payload digest now key nonces a).0 h,
  )

  -- The tool and its risk are listed, the mode is one of the risk's, the arguments are in bounds, a
  -- supervised mode has a valid approval of this very intent, and the robot's state is safe.
  pub record IsPermitted (intent : ActionIntent F) (s : RobotState F) : Type 0 where
    pub mode : RunMode
    pub tool : ToolPolicy
    pub rule : RiskPolicy F
    pub digest : Text
    pub parsed : run_mode intent.mode ≡ some mode
    pub listed : tool_policy F p intent.tool ≡ some tool
    pub ruled : risk_policy F p tool.risk ≡ some rule
    pub bounded : canonical_intent crypto intent.tool intent.mode intent.arguments ≡ some digest
    pub moded : has_mode mode rule.allowed_modes ≡ true
    pub approved :
        has_mode mode rule.supervisor_approval_modes ≡ true
        → HasApproval F crypto payload digest now secret consumed intent.approval
    pub safe : IsSafe F rule now s

  module _ (intent : ActionIntent F) (s : RobotState F) where
    gates_clean :
        (mode : RunMode) (rule : RiskPolicy F) (digest : Text)
        → gate_reasons F crypto payload p now secret consumed intent s mode rule digest
            ++ cooldown_reasons F
                (gate_reasons F crypto payload p now secret consumed intent s mode rule digest)
                rule
                now
                s
          ≡ []
        → (has_mode mode rule.supervisor_approval_modes ≡ true
            → HasApproval F crypto payload digest now secret consumed intent.approval)
          × IsSafe F rule now s
    unfolding gate_reasons
    gates_clean mode rule digest h =
        let approvals : List Text =
          if has_mode mode rule.supervisor_approval_modes
          then approval_reasons F crypto payload digest now secret consumed intent.approval
          else [] in
        let before : List Text = approvals ++ state_reasons F rule now s in
        let (x, y) = append_empty before (cooldown_reasons F before rule now s) h in
        let (u, v) = append_empty approvals (state_reasons F rule now s) x in
        (
          λ m. approval_known digest secret consumed intent.approval (rw m at u),
          state-IsSafe F rule now s v (subst (λ b. cooldown_reasons F b rule now s ≡ []) x y),
        )

    evaluate_mode :
        (mode : RunMode) (tool : ToolPolicy) (rule : RiskPolicy F) (digest : Text)
        → run_mode intent.mode ≡ some mode
        → tool_policy F p intent.tool ≡ some tool
        → risk_policy F p tool.risk ≡ some rule
        → canonical_intent crypto intent.tool intent.mode intent.arguments ≡ some digest
        → evaluate_action F crypto payload p now secret consumed intent s
          ≡ decide_mode F crypto payload p now secret consumed intent s mode rule digest
    unfolding evaluate_action
    evaluate_mode mode tool rule digest x y z c = rw (x, y, z, c) refl

    decide_mode-allowed :
        (mode : RunMode) (rule : RiskPolicy F) (digest : Text)
        → (decide_mode F crypto payload p now secret consumed intent s mode rule digest).allowed
          ≡ true
        → (has_mode mode rule.allowed_modes ≡ true)
          × (gate_reasons F crypto payload p now secret consumed intent s mode rule digest
                ++ cooldown_reasons F
                    (gate_reasons F crypto payload p now secret consumed intent s mode rule digest)
                    rule
                    now
                    s
              ≡ [])
    decide_mode-allowed mode rule digest h = elim (Bool-cases (has_mode mode rule.allowed_modes)) [
      | inl m ↦ (m, is_empty-eq _ (rw m at h))
      | inr m ↦ absurd (cc (rw m at h))
    ]

    -- An action is allowed only if its tool, risk, mode, arguments and approval and the state of the
    -- robot meet every demand; what is not known meets none.
    pub allowed_only_if :
        (evaluate_action F crypto payload p now secret consumed intent s).allowed ≡ true
        → IsPermitted intent s
    unfolding evaluate_action
    allowed_only_if h = elim (Option-cases (run_mode intent.mode)) [
      | inl x ↦ absurd (cc (rw x at h))
      | inr (mode, x) ↦ elim (Option-cases (tool_policy F p intent.tool)) [
        | inl y ↦ absurd (cc (rw (x, y) at h))
        | inr (tool, y) ↦ elim (Option-cases (risk_policy F p tool.risk)) [
          | inl z ↦ absurd (cc (rw (x, y, z) at h))
          | inr (rule, z) ↦
              elim (Option-cases
                (canonical_intent crypto intent.tool intent.mode intent.arguments)) [
                  | inl c ↦ absurd (cc (rw (x, y, z, c) at h))
                  | inr (digest, c) ↦
                      let (moded, clean) = decide_mode-allowed mode rule digest (
                        ap (λ d. d.allowed) (sym (evaluate_mode mode tool rule digest x y z c))
                        ∙ h) in
                      let (approved, safe) = gates_clean mode rule digest clean in
                      record {
                        mode = mode;
                        tool = tool;
                        rule = rule;
                        digest = digest;
                        parsed = x;
                        listed = y;
                        ruled = z;
                        bounded = c;
                        moded = moded;
                        approved = approved;
                        safe = safe;
                      }
                ]
        ]
      ]
    ]
