-- ===== src/Companion/Models.antt =====
-- apps/companion/engine.py: `Config`, and the fields of `Companion`.
-- Doubles, by what is asked of them; `value` is the type of the finite ones, the infinite ones and NaN.
use dogos_memory.Base.{Bool, List, Option, [], false, if◌then◌else◌, min, none, some, true, ℕ}

pub record Doubles : Type 1 where
  pub value : Type 0
  pub add : value → value → value
  pub sub : value → value → value
  pub mul : value → value → value
  pub lt : value → value → Bool
  pub le : value → value → Bool
  -- the double nearest to the first number divided by the second
  pub ratio : ℕ → ℕ → value
  -- `float('-inf')`
  pub minus_infinity : value

-- `min(a, b)` and `max(a, b)`
abbrev pub least : (D : Doubles) → D.value → D.value → D.value
least D a b = if D.lt b a then b else a

abbrev pub greatest : (D : Doubles) → D.value → D.value → D.value
greatest D a b = if D.lt a b then b else a

abbrev pub whole : (D : Doubles) → ℕ → D.value
whole D n = D.ratio n 1

pub data Mode : Type 0 where
  paused quiet resting attending inviting interacting fault : Mode

-- `quiet` is `silence` here
pub data Preference : Type 0 where
  free silence rest : Preference

pub data Action : Type 0 where
  greet invite acknowledge look_around : Action

module _ (D : Doubles) where
  -- the texts of `reason`, in the order of the file
  pub data Reason : Type 0 where
    not_started preference_applied paused_by_user started fault_confirmed unconfirmed_run : Reason
    answered stale charging_now low_battery wants_rest wants_quiet nobody_present busy_now : Reason
    resting_a_while resting_by_choice greeted budget_spent settling greeting : Reason
    not_answered : D.value → Reason
    interaction_over inviting_now looking_around discouraged invitations_spent content waiting :
        Reason

  pub record Config : Type 0 where
    pub response_window : D.value
    pub interaction_window : D.value
    pub invitation_cooldown : D.value
    pub max_cooldown : D.value
    pub observation_ttl : D.value
    pub greeting_enabled : Bool
    pub arrival_stability : D.value
    pub greeting_window : D.value
    pub absence_rearm : D.value
    pub invitation_budget : ℕ
    pub budget_window : D.value
    pub proactive_budget : ℕ
    pub idle_interval : D.value
    pub rest_window : D.value

  -- what an `observation` brings
  pub record Observation : Type 0 where
    pub present : Bool
    pub busy : Bool
    pub charging : Bool
    pub battery : Option D.value

  -- the field `state` is `mode` here
  pub record Companion : Type 0 where
    pub config : Config
    pub mode : Mode
    pub reason : Reason
    pub present : Bool
    pub busy : Bool
    pub charging : Bool
    pub battery : Option D.value
    pub seen_at : D.value
    pub deadline : D.value
    pub next_invitation : D.value
    pub ignored : ℕ
    pub interactions : ℕ
    pub has_fault : Bool
    pub preference : Preference
    pub social_need : D.value
    pub curiosity : D.value
    pub fatigue : D.value
    pub last_tick : Option D.value
    pub present_since : Option D.value
    pub absent_since : Option D.value
    pub greeting_pending : Bool
    pub last_touch_response : D.value
    pub last_idle : D.value
    pub invitations : List D.value
    pub proactive : List D.value
    pub rest_until : D.value
    pub decisions : List (Action × Reason)

  pub data Event : Type 0 where
    -- `none` is a mode that is no preference
    preference_set : Option Preference → Event
    pause start reset_fault failure respond touch : Event
    observation : Observation → Event
    -- any other kind, such as `tick`
    other : Event

  abbrev pub default_config : Config
  default_config = record {
    response_window = whole D 12;
    interaction_window = whole D 10;
    invitation_cooldown = whole D 60;
    max_cooldown = whole D 600;
    observation_ttl = whole D 30;
    greeting_enabled = true;
    arrival_stability = whole D 2;
    greeting_window = whole D 3;
    absence_rearm = whole D 30;
    invitation_budget = 2;
    budget_window = whole D 600;
    proactive_budget = 4;
    idle_interval = whole D 90;
    rest_window = whole D 60;
  }

  -- `Companion(config, memory)` with the counts and the preference that the memory holds; a negative
  -- count reads as 0, and an unknown preference as `none`
  abbrev pub new_companion : Config → ℕ → ℕ → Option Preference → Companion
  new_companion config ignored interactions preference = record {
    config = config;
    mode = paused;
    reason = not_started;
    present = false;
    busy = false;
    charging = false;
    battery = none;
    seen_at = D.minus_infinity;
    deadline = whole D 0;
    next_invitation = whole D 0;
    ignored = min 10 ignored;
    interactions = interactions;
    has_fault = false;
    preference = elim preference [ none ↦ free | some p ↦ p ];
    social_need = D.ratio 65 100;
    curiosity = D.ratio 45 100;
    fatigue = D.ratio 1 10;
    last_tick = none;
    present_since = none;
    absent_since = none;
    greeting_pending = true;
    last_touch_response = D.minus_infinity;
    last_idle = whole D 0;
    invitations = [];
    proactive = [];
    rest_until = whole D 0;
    decisions = [];
  }
