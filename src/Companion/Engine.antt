-- ===== src/Companion/Engine.antt =====
-- apps/companion/engine.py: the methods of `Companion`. Each returns the companion after it; `event` gives
-- no list of actions where it raises.
pub mod Welcome
pub mod Bounded
pub mod Latch
use Prim.Native.Nat.{◌^◌}
use dogos_memory.Base.{
  Bool, List, Option, [], false, if◌then◌else◌, keep, leb, length, ltb, min, none, not, some, true,
  ℕ, ◌&&◌, ◌++◌, ◌+◌, ◌==◌, ◌||◌, ◌∷◌,
}
use dogos_memory.Companion.Models.{
  Action, Companion, Config, Doubles, Event, Mode, Observation, Preference, Reason, acknowledge,
  answered, attending, budget_spent, busy_now, charging_now, content, discouraged, failure, fault,
  fault_confirmed, free, greatest, greet, greeted, greeting, interacting, interaction_over,
  invitations_spent, invite, inviting, inviting_now, least, look_around, looking_around,
  low_battery, nobody_present, not_answered, observation, pause, paused, paused_by_user,
  preference_applied, preference_set, quiet, reset_fault, respond, rest, resting, resting_a_while,
  resting_by_choice, settling, stale, start, started, touch, unconfirmed_run, waiting, wants_quiet,
  wants_rest, whole,
}

-- `xs[-n:]`
abbrev pub last_of {ℓ} : {A : Type ℓ} → ℕ → List A → List A
last_of n [] = []
last_of n (x ∷ xs) = let rest = last_of n xs in if ltb (length xs) n then x ∷ xs else rest

abbrev pub is_inactive : Mode → Bool
is_inactive paused = true
is_inactive fault = true
is_inactive _ = false

abbrev pub mode_eq : Mode → Mode → Bool
mode_eq paused paused = true
mode_eq quiet quiet = true
mode_eq resting resting = true
mode_eq attending attending = true
mode_eq inviting inviting = true
mode_eq interacting interacting = true
mode_eq fault fault = true
mode_eq _ _ = false

abbrev pub is_acknowledge : Action → Bool
is_acknowledge acknowledge = true
is_acknowledge _ = false

abbrev pub is_free : Preference → Bool
is_free free = true
is_free _ = false

abbrev pub is_rest : Preference → Bool
is_rest rest = true
is_rest _ = false

module _ (D : Doubles) where
  abbrev pub Outcome : Type 0
  Outcome = Companion D × List Action

  abbrev pub change : Mode → Reason D → Companion D → Companion D
  change mode reason c = record c { mode = mode; reason = reason }

  -- `choose`
  unfoldable pub choose : Action → Mode → Reason D → D.value → Companion D → Outcome
  choose action mode reason now c = (
    record c {
      mode = mode;
      reason = reason;
      decisions = last_of 12 (c.decisions ++ (action, reason) ∷ []);
      fatigue = least D (whole D 1) (D.add c.fatigue (D.ratio 4 100));
      last_idle = now;
      proactive = if is_acknowledge action then c.proactive else c.proactive ++ now ∷ [];
    },
    action ∷ [],
  )

  abbrev pub grown : D.value → D.value → Companion D → Companion D
  grown dt rate c = record c {
    social_need = least D (whole D 1) (D.add c.social_need (D.mul dt (D.ratio 8 10000)));
    curiosity = least D (whole D 1) (D.add c.curiosity (D.mul dt (D.ratio 2 1000)));
    fatigue = greatest D (whole D 0) (D.sub c.fatigue (D.mul dt rate));
  }

  abbrev fatigue_rate : Mode → D.value
  fatigue_rate resting = D.ratio 5 1000
  fatigue_rate _ = D.ratio 1 1000

  abbrev pub advance_drives : D.value → Companion D → Companion D
  advance_drives now c = elim c.last_tick [
    | none ↦ c
    | some before ↦
        if not (is_inactive c.mode) && D.lt (D.sub now c.seen_at) c.config.observation_ttl
        then grown (greatest D (whole D 0) (least D (D.sub now before) (whole D 10)))
            (fatigue_rate c.mode) c
        else c
  ]

  -- `advance`
  unfoldable pub advance : D.value → Companion D → Companion D
  advance now c = record (advance_drives now c) { last_tick = some now }

  -- `self.battery is None or self.battery <= 25`
  abbrev pub is_weak : Option D.value → Bool
  is_weak none = true
  is_weak (some battery) = D.le battery (whole D 25)

  -- `self.battery is not None and self.battery <= 25`
  abbrev pub is_low : Option D.value → Bool
  is_low none = false
  is_low (some battery) = D.le battery (whole D 25)

  -- `blocked`
  unfoldable pub blocked : D.value → Companion D → Option (Reason D)
  blocked now c =
      if D.le c.config.observation_ttl (D.sub now c.seen_at)
      then some stale
      else if c.charging
      then some charging_now
      else if is_weak c.battery
      then some low_battery
      else if is_rest c.preference
      then some wants_rest
      else if not (is_free c.preference)
      then some wants_quiet
      else if not c.present
      then some nobody_present
      else if c.busy
      then some busy_now
      else none

  -- the mode of a companion that is blocked
  abbrev pub retire : Reason D → Companion D → Companion D
  retire reason c =
      change (if c.charging || is_low c.battery || is_rest c.preference then resting else quiet)
        reason c

  -- `invitation_cooldown * 2 ** ignored`, at most the longest
  abbrev pub backoff : Companion D → D.value
  backoff c =
      least D c.config.max_cooldown (D.mul c.config.invitation_cooldown (whole D (2 ^ c.ignored)))

  -- `[t for t in times if now - t < budget_window]`
  abbrev pub within_budget : D.value → Config D → List D.value → List D.value
  within_budget now config times = keep (λ t. D.lt (D.sub now t) config.budget_window) times

  abbrev pub settled_for : D.value → Option D.value → D.value → Bool
  settled_for now none least_time = false
  settled_for now (some since) least_time = not (D.lt (D.sub now since) least_time)

  unfoldable pub tick_greeting : Bool → D.value → Companion D → Outcome
  tick_greeting available now c =
      if not available
      then (change quiet budget_spent c, [])
      else if not (settled_for now c.present_since c.config.arrival_stability)
      then (change quiet settling c, [])
      else choose greet attending greeting now
          (record c { greeting_pending = false; deadline = D.add now c.config.greeting_window })

  abbrev pub unanswered : D.value → Companion D → Companion D
  unanswered now c =
      let counted : Companion D = record c { ignored = min (c.ignored + 1) 10 } in
      change quiet (not_answered (backoff counted))
        (record counted { next_invitation = D.add now (backoff counted) })

  unfoldable pub tick_inviting : D.value → Companion D → Outcome
  tick_inviting now c = (if D.le c.deadline now then unanswered now c else c, [])

  unfoldable pub tick_interacting : D.value → Companion D → Outcome
  tick_interacting now c = (if D.le c.deadline now then change quiet interaction_over c else c, [])

  abbrev pub quiet_reason : Companion D → Reason D
  quiet_reason c =
      if ltb 0 c.ignored
      then discouraged
      else if leb c.config.invitation_budget (length c.invitations)
      then invitations_spent
      else if D.lt c.social_need (D.ratio 6 10)
      then content
      else waiting

  abbrev pub may_invite : Bool → D.value → Companion D → Bool
  may_invite available now c =
      available
      && D.le c.next_invitation now
      && D.le (D.ratio 6 10) c.social_need
      && ltb (length c.invitations) c.config.invitation_budget

  abbrev pub may_look : Bool → D.value → Companion D → Bool
  may_look available now c =
      available
      && c.ignored == 0
      && D.le (D.ratio 7 10) c.curiosity
      && D.le c.config.idle_interval (D.sub now c.last_idle)

  unfoldable pub tick_idle : Bool → D.value → Companion D → Outcome
  tick_idle available now c =
      if may_invite available now c
      then choose invite inviting inviting_now now (record c {
        deadline = D.add now c.config.response_window;
        next_invitation = D.add now (backoff c);
        invitations = c.invitations ++ now ∷ [];
      })
      else if may_look available now c
      then choose look_around quiet looking_around now (record c { curiosity = D.ratio 2 10 })
      else (change quiet (quiet_reason c) c, [])

  -- once the old proactive actions are forgotten
  unfoldable pub tick_budget : D.value → Companion D → Outcome
  tick_budget now c =
      let available = ltb (length c.proactive) c.config.proactive_budget in
      if c.config.greeting_enabled && c.greeting_pending
      then tick_greeting available now c
      else if mode_eq c.mode inviting
      then tick_inviting now c
      else if mode_eq c.mode interacting
      then tick_interacting now c
      else tick_idle available now
          (record c { invitations = within_budget now c.config c.invitations })

  abbrev pub greeting_over : Companion D → Companion D
  greeting_over c = if mode_eq c.mode attending then change quiet greeted c else c

  abbrev pub budgeted : D.value → Companion D → Companion D
  budgeted now c = record c { proactive = within_budget now c.config c.proactive }

  unfoldable pub tick_free : D.value → Companion D → Outcome
  tick_free now c =
      if mode_eq c.mode resting && D.lt now c.rest_until
      then (change resting resting_a_while c, [])
      else if D.le (D.ratio 75 100) c.fatigue
      then (
        change resting resting_by_choice (record c { rest_until = D.add now c.config.rest_window }),
        [],
      )
      else if mode_eq c.mode attending && D.lt now c.deadline
      then (c, [])
      else tick_budget now (budgeted now (greeting_over c))

  abbrev pub tick_unless : Option (Reason D) → D.value → Companion D → Outcome
  tick_unless (some reason) now c = (retire reason c, [])
  tick_unless none now c = tick_free now c

  -- `tick`
  unfoldable pub tick : D.value → Companion D → Outcome
  tick now c =
      let c' = advance now c in
      if is_inactive c'.mode then (c', []) else tick_unless (blocked now c') now c'

  -- `now - absent_since >= absence_rearm`, where it is not None
  abbrev pub was_away : D.value → Companion D → Bool
  was_away now c = elim c.absent_since [
    | none ↦ false
    | some since ↦ D.le c.config.absence_rearm (D.sub now since)
  ]

  abbrev pub arrive : D.value → Bool → Companion D → Companion D
  arrive now was_present c = record c {
    present_since = if was_present then c.present_since else some now;
    greeting_pending = c.greeting_pending || (not was_present && was_away now c);
    absent_since = none;
  }

  abbrev pub leave : D.value → Companion D → Companion D
  leave now c = record c {
    present_since = none;
    absent_since = elim c.absent_since [ none ↦ some now | some since ↦ some since ];
  }

  unfoldable pub observe : D.value → Observation D → Companion D → Companion D
  observe now o c =
      let seen : Companion D = record c {
        present = o.present;
        busy = o.busy;
        charging = o.charging;
        battery = o.battery;
        seen_at = now;
      } in
      if o.present then arrive now c.present seen else leave now seen

  -- what changes before `choose('acknowledge', …)`
  abbrev pub acknowledged : D.value → Companion D → Companion D
  acknowledged now c = record c {
    interactions = c.interactions + 1;
    ignored = 0;
    last_touch_response = now;
    social_need = greatest D (whole D 0) (D.sub c.social_need (D.ratio 35 100));
    fatigue = least D (whole D 1) (D.add c.fatigue (D.ratio 8 100));
    greeting_pending = false;
    deadline = D.add now c.config.interaction_window;
    next_invitation = D.add now c.config.invitation_cooldown;
  }

  -- the answer to `respond` or `touch`, from the guards on
  unfoldable pub answer : Bool → D.value → Companion D → Outcome
  answer is_touch now c =
      if not (is_free c.preference) || D.lt (D.sub now c.last_touch_response) (whole D 6)
      then (c, [])
      else if not (mode_eq c.mode inviting)
          && not (
              is_touch
              && (mode_eq c.mode quiet || mode_eq c.mode attending || mode_eq c.mode resting))
      then (c, [])
      else if mode_eq c.mode inviting && D.le c.deadline now
      then tick now c
      else choose acknowledge interacting answered now (acknowledged now c)

  abbrev pub dispatch_event : Event D → D.value → Companion D → Outcome
  dispatch_event respond now c = answer false now c
  dispatch_event touch now c = answer true now c
  dispatch_event _ now c = tick now c

  abbrev pub unless_blocked : Option (Reason D) → Event D → D.value → Companion D → Outcome
  unless_blocked (some reason) e now c = (retire reason c, [])
  unless_blocked none e now c = dispatch_event e now c

  -- from `if self.state in ('paused', 'fault')` on
  unfoldable pub react : Event D → D.value → Companion D → Outcome
  react e now c = if is_inactive c.mode then (c, []) else unless_blocked (blocked now c) e now c

  abbrev pub prefer : Option Preference → Companion D → Companion D × Option (List Action)
  prefer none c = (c, none)
  prefer (some p) c =
      let c' : Companion D = record c { preference = p } in
      (
        if is_inactive c.mode
            then c'
            else change (if is_rest p then resting else quiet) preference_applied c',
        some [],
      )

  abbrev pub begin : D.value → Companion D → Outcome
  begin now c =
      if c.has_fault || not (mode_eq c.mode paused)
      then (c, [])
      else tick now (change quiet started c)

  abbrev pub done : Outcome → Companion D × Option (List Action)
  done o = (o.0, some o.1)

  abbrev pub handle : Event D → D.value → Companion D → Companion D × Option (List Action)
  handle (preference_set p) now c = prefer p c
  handle pause now c = (change paused paused_by_user c, some [])
  handle start now c = done (begin now c)
  handle reset_fault now c =
      (change paused fault_confirmed (record c { has_fault = false }), some [])
  handle failure now c = (change fault unconfirmed_run (record c { has_fault = true }), some [])
  handle (observation o) now c = done (react (observation o) now (observe now o c))
  handle e now c = done (react e now c)

  -- `event`
  unfoldable pub event : Event D → D.value → Companion D → Companion D × Option (List Action)
  event e now c = handle e now (advance now c)
