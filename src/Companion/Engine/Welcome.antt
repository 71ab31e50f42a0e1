-- ===== src/Companion/Engine/Welcome.antt =====
-- When the companion acts: never more than once for an event, and only where company is welcome.
use mathlib.Core.Path.{subst}
use dogos_memory.Base.{Bool, List, [], arith, false, length, ltb, none, some, true, ◌∷◌, ◌≡◌}
use dogos_memory.Companion.Engine.{
  Outcome, advance, answer, begin, blocked, budgeted, change, choose, dispatch_event, done, event,
  greeting_over, handle, is_free, is_inactive, is_weak, observe, react, tick, tick_budget,
  tick_free, tick_greeting, tick_idle, tick_interacting, tick_inviting, tick_unless, within_budget,
}
use dogos_memory.Companion.Models.{
  Action, Companion, Doubles, Event, failure, observation, other, pause, preference_set, quiet,
  reset_fault, respond, start, started, touch,
}

module _ (D : Doubles) (now : D.value) where
  -- Someone is there, not busy and not asking for quiet, and the robot is charged and off its charger;
  -- all this was seen lately.
  abbrev pub IsWelcome : Companion D → Type 0
  IsWelcome c =
      (D.le c.config.observation_ttl (D.sub now c.seen_at) ≡ false)
      × (c.charging ≡ false)
      × (is_weak D c.battery ≡ false)
      × (is_free c.preference ≡ true)
      × (c.present ≡ true)
      × (c.busy ≡ false)

  abbrev ActsOn : Companion D → List Action → Type 0
  ActsOn c [] = Unit
  ActsOn c (action ∷ []) = IsWelcome c × (is_inactive c.mode ≡ false)
  ActsOn c (action ∷ second ∷ more) = ⊥

  -- an outcome without an action, or with one in a running companion that is welcome
  record Acts (o : Outcome D) : Type 0 where
    acts : ActsOn o.0 o.1

  pub blocked-IsWelcome : (c : Companion D) → blocked D now c ≡ none → IsWelcome c
  unfolding blocked
  blocked-IsWelcome c h = ground arith

  tick_greeting-Acts :
      (available : Bool) (c : Companion D) → IsWelcome c → Acts (tick_greeting D available now c)
  unfolding tick_greeting choose
  tick_greeting-Acts available c h = ground arith

  tick_idle-Acts :
      (available : Bool) (c : Companion D) → IsWelcome c → Acts (tick_idle D available now c)
  unfolding tick_idle choose
  tick_idle-Acts available c h = ground arith

  tick_budget-Acts : (c : Companion D) → IsWelcome c → Acts (tick_budget D now c)
  unfolding tick_budget tick_inviting tick_interacting
  tick_budget-Acts c h =
      let available = ltb (length c.proactive) c.config.proactive_budget in
      let recent : Companion D = record c {
        invitations = within_budget D now c.config c.invitations;
      } in
      ground (arith, tick_greeting-Acts available c h, tick_idle-Acts available recent h)

  greeting_over-IsWelcome : (c : Companion D) → IsWelcome c → IsWelcome (greeting_over D c)
  greeting_over-IsWelcome c h = ground arith

  tick_free-Acts : (c : Companion D) → IsWelcome c → Acts (tick_free D now c)
  unfolding tick_free
  tick_free-Acts c h =
      let b = tick_budget-Acts (budgeted D now (greeting_over D c)) (greeting_over-IsWelcome c h) in
      ground arith

  tick_unless-Acts : (c : Companion D) → Acts (tick_unless D (blocked D now c) now c)
  tick_unless-Acts c = ground (arith, blocked-IsWelcome c, tick_free-Acts c)

  tick-Acts : (c : Companion D) → Acts (tick D now c)
  unfolding tick
  tick-Acts c = ground (arith, tick_unless-Acts (advance D now c))

  answer-Acts : (is_touch : Bool) (c : Companion D) → IsWelcome c → Acts (answer D is_touch now c)
  unfolding answer choose
  answer-Acts is_touch c h = ground (arith, tick-Acts c)

  dispatch_event-Acts :
      (e : Event D) (c : Companion D) → IsWelcome c → Acts (dispatch_event D e now c)
  dispatch_event-Acts respond c h = answer-Acts false c h
  dispatch_event-Acts touch c h = answer-Acts true c h
  dispatch_event-Acts _ c h = tick-Acts c

  react-Acts : (e : Event D) (c : Companion D) → Acts (react D e now c)
  unfolding react
  react-Acts e c = ground (arith, blocked-IsWelcome c, dispatch_event-Acts e c)

  begin-Acts : (c : Companion D) → Acts (begin D now c)
  begin-Acts c = ground (arith, tick-Acts (change D quiet started c))

  done-Acts :
      {o : Outcome D} {c' : Companion D} {actions : List Action}
      → Acts o
      → done D o ≡ (c', some actions)
      → Acts (c', actions)
  done-Acts {o} h e = subst Acts (cc e) h

  handle-Acts :
      (e : Event D) (c : Companion D) {c' : Companion D} {actions : List Action}
      → handle D e now c ≡ (c', some actions)
      → Acts (c', actions)
  handle-Acts (preference_set none) c h = cc h
  handle-Acts (preference_set (some p)) c h = ground arith
  handle-Acts pause c h = ground arith
  handle-Acts start c h = done-Acts (begin-Acts c) h
  handle-Acts reset_fault c h = ground arith
  handle-Acts failure c h = ground arith
  handle-Acts (observation o) c h = done-Acts (react-Acts (observation o) (observe D now o c)) h
  handle-Acts respond c h = done-Acts (react-Acts respond c) h
  handle-Acts touch c h = done-Acts (react-Acts touch c) h
  handle-Acts other c h = done-Acts (react-Acts other c) h

  -- An event that the companion answers by an action is answered by one action alone; then the companion
  -- runs, somebody is there, seen lately, not busy and not asking for quiet, and the robot is off its
  -- charger with more than 25 percent.
  pub event-IsWelcome :
      (e : Event D) (c : Companion D) {c' : Companion D} {action : Action} {others : List Action}
      → event D e now c ≡ (c', some (action ∷ others))
      → IsWelcome c' × (is_inactive c'.mode ≡ false) × (others ≡ [])
  unfolding event
  event-IsWelcome e c h = ground (arith, handle-Acts e (advance D now c) h)
