-- ===== src/Companion/Engine/Bounded.antt =====
-- What is kept by every event: the counts and the lists of a companion stay within their limits.
use dogos_memory.Base.{
  Bool, List, Option, Option-cases, [], arith, false, inl, inr, keep, length, ltb, none, some, true,
  ℕ, ◌++◌, ◌+◌, ◌<◌, ◌∷◌, ◌≡◌, ◌≤◌,
}
use dogos_memory.Companion.Engine.{
  acknowledged, advance, answer, blocked, budgeted, change, choose, dispatch_event, event,
  greeting_over, handle, is_acknowledge, last_of, observe, react, tick, tick_budget, tick_free,
  tick_greeting, tick_idle, tick_interacting, tick_inviting, within_budget,
}
use dogos_memory.Companion.Models.{
  Action, Companion, Config, Doubles, Event, Mode, Observation, Preference, Reason, acknowledge,
  answered, failure, greet, greeting, interacting, invite, inviting_now, look_around,
  looking_around, new_companion, observation, other, pause, preference_set, quiet, reset_fault,
  respond, start, started, touch,
}

module _ {ℓ} {A : Type ℓ} where
  pub length-last_of : (n : ℕ) (xs : List A) → length (last_of n xs) ≤ n
  length-last_of n [] = omega arith
  length-last_of n (x ∷ xs) = ground (arith, length-last_of n xs)

  length-keep : (p : A → Bool) (xs : List A) → length (keep p xs) ≤ length xs
  length-keep p [] = omega arith
  length-keep p (x ∷ xs) = ground (arith, length-keep p xs)

  length-snoc : (xs : List A) (x : A) → length (xs ++ x ∷ []) ≡ length xs + 1
  length-snoc [] x = omega arith
  length-snoc (y ∷ xs) x = omega (arith, length-snoc xs x)

module _ (D : Doubles) where
  pub record IsBounded (c : Companion D) : Type 0 where
    pub ignored_most : c.ignored ≤ 10
    pub decisions_most : length c.decisions ≤ 12
    pub proactive_most : length c.proactive ≤ c.config.proactive_budget
    pub invitations_most : length c.invitations ≤ c.config.invitation_budget

  module _ (now : D.value) where
    advance-IsBounded : (c : Companion D) → IsBounded c → IsBounded (advance D now c)
    unfolding advance
    advance-IsBounded c h = ground arith

    choose-IsBounded :
        (action : Action) (mode : Mode) (reason : Reason D) (c : Companion D)
        → IsBounded c
        → (is_acknowledge action ≡ false → length c.proactive < c.config.proactive_budget)
        → IsBounded (choose D action mode reason now c).0
    unfolding choose
    choose-IsBounded action mode reason c h room = ground (
      arith,
      length-last_of 12 (c.decisions ++ (action, reason) ∷ []),
      length-snoc c.proactive now,
    )

    tick_greeting-IsBounded :
        (available : Bool) (c : Companion D)
        → IsBounded c
        → (available ≡ true → length c.proactive < c.config.proactive_budget)
        → IsBounded (tick_greeting D available now c).0
    unfolding tick_greeting choose
    tick_greeting-IsBounded available c h room = ground (
      arith,
      length-last_of 12 (c.decisions ++ (greet, greeting) ∷ []),
      length-snoc c.proactive now,
    )

    tick_inviting-IsBounded : (c : Companion D) → IsBounded c → IsBounded (tick_inviting D now c).0
    unfolding tick_inviting
    tick_inviting-IsBounded c h = ground arith

    tick_interacting-IsBounded :
        (c : Companion D) → IsBounded c → IsBounded (tick_interacting D now c).0
    unfolding tick_interacting
    tick_interacting-IsBounded c h = ground arith

    tick_idle-IsBounded :
        (available : Bool) (c : Companion D)
        → IsBounded c
        → (available ≡ true → length c.proactive < c.config.proactive_budget)
        → IsBounded (tick_idle D available now c).0
    unfolding tick_idle choose
    tick_idle-IsBounded available c h room = ground (
      arith,
      length-last_of 12 (c.decisions ++ (invite, inviting_now) ∷ []),
      length-last_of 12 (c.decisions ++ (look_around, looking_around) ∷ []),
      length-snoc c.proactive now,
      length-snoc c.invitations now,
    )

    tick_budget-IsBounded : (c : Companion D) → IsBounded c → IsBounded (tick_budget D now c).0
    unfolding tick_budget
    tick_budget-IsBounded c h =
        let available = ltb (length c.proactive) c.config.proactive_budget in
        let recent : Companion D = record c {
          invitations = within_budget D now c.config c.invitations;
        } in
        ground (
          arith,
          tick_greeting-IsBounded available c h,
          tick_inviting-IsBounded c h,
          tick_interacting-IsBounded c h,
          tick_idle-IsBounded available recent,
          length-keep (λ (t : D.value). D.lt (D.sub now t) c.config.budget_window) c.invitations,
        )

    budgeted-IsBounded : (c : Companion D) → IsBounded c → IsBounded (budgeted D now c)
    budgeted-IsBounded c h = ground (
      arith,
      length-keep (λ (t : D.value). D.lt (D.sub now t) c.config.budget_window) c.proactive,
    )

    greeting_over-IsBounded : (c : Companion D) → IsBounded c → IsBounded (greeting_over D c)
    greeting_over-IsBounded c h = ground arith

    tick_free-IsBounded : (c : Companion D) → IsBounded c → IsBounded (tick_free D now c).0
    unfolding tick_free
    tick_free-IsBounded c h =
        let b =
          tick_budget-IsBounded (budgeted D now (greeting_over D c))
            (budgeted-IsBounded (greeting_over D c) (greeting_over-IsBounded c h)) in
        ground arith

    tick-IsBounded : (c : Companion D) → IsBounded c → IsBounded (tick D now c).0
    unfolding tick
    tick-IsBounded c h =
        let a = advance-IsBounded c h in
        let f = tick_free-IsBounded (advance D now c) a in
        elim (Option-cases (blocked D now (advance D now c))) [
          | inl e ↦ rw e (ground arith)
          | inr (reason, e) ↦ rw e (ground arith)
        ]

    answer-IsBounded :
        (is_touch : Bool) (c : Companion D) → IsBounded c → IsBounded (answer D is_touch now c).0
    unfolding answer
    answer-IsBounded is_touch c h =
        let chosen =
          choose-IsBounded acknowledge interacting answered (acknowledged D now c)
            (record {
              ignored_most = omega arith;
              decisions_most = h.decisions_most;
              proactive_most = h.proactive_most;
              invitations_most = h.invitations_most;
            })
            (λ e. cc e) in
        ground (arith, tick-IsBounded c h)

    dispatch_event-IsBounded :
        (e : Event D) (c : Companion D) → IsBounded c → IsBounded (dispatch_event D e now c).0
    dispatch_event-IsBounded respond c h = answer-IsBounded false c h
    dispatch_event-IsBounded touch c h = answer-IsBounded true c h
    dispatch_event-IsBounded _ c h = tick-IsBounded c h

    react-IsBounded : (e : Event D) (c : Companion D) → IsBounded c → IsBounded (react D e now c).0
    unfolding react
    react-IsBounded e c h =
        let f = dispatch_event-IsBounded e c h in
        elim (Option-cases (blocked D now c)) [
          | inl p ↦ rw p (ground arith)
          | inr (reason, p) ↦ rw p (ground arith)
        ]

    observe-IsBounded :
        (o : Observation D) (c : Companion D) → IsBounded c → IsBounded (observe D now o c)
    unfolding observe
    observe-IsBounded o c h = ground arith

    handle-IsBounded :
        (e : Event D) (c : Companion D) → IsBounded c → IsBounded (handle D e now c).0
    handle-IsBounded (preference_set none) c h = h
    handle-IsBounded (preference_set (some p)) c h = ground arith
    handle-IsBounded pause c h = ground arith
    handle-IsBounded start c h =
        let s : IsBounded (change D quiet started c) = ground arith in
        ground (arith, tick-IsBounded (change D quiet started c) s)
    handle-IsBounded reset_fault c h = ground arith
    handle-IsBounded failure c h = ground arith
    handle-IsBounded (observation o) c h =
        react-IsBounded (observation o) (observe D now o c) (observe-IsBounded o c h)
    handle-IsBounded respond c h = react-IsBounded respond c h
    handle-IsBounded touch c h = react-IsBounded touch c h
    handle-IsBounded other c h = react-IsBounded other c h

    event-IsBounded : (e : Event D) (c : Companion D) → IsBounded c → IsBounded (event D e now c).0
    unfolding event
    event-IsBounded e c h = handle-IsBounded e (advance D now c) (advance-IsBounded c h)

  -- the companion after a list of events, each at its time
  unfoldable pub run_events : List (Event D × D.value) → Companion D → Companion D
  run_events [] c = c
  run_events ((e, now) ∷ es) c = run_events es (event D e now c).0

  run_events-keeps :
      (es : List (Event D × D.value)) (c : Companion D) → IsBounded c → IsBounded (run_events es c)
  unfolding run_events
  run_events-keeps [] c h = h
  run_events-keeps ((e, now) ∷ es) c h =
      run_events-keeps es (event D e now c).0 (event-IsBounded now e c h)

  -- Whatever events a new companion has seen, at whatever times, also where its clock runs backwards: it
  -- counts at most 10 ignored invitations and keeps at most 12 decisions, and the proactive actions and
  -- the invitations that it remembers are at most as many as its budgets.
  pub run_events-IsBounded :
      (config : Config D) (ignored interactions : ℕ) (preference : Option Preference)
      (es : List (Event D × D.value))
      → IsBounded (run_events es (new_companion D config ignored interactions preference))
  run_events-IsBounded config ignored interactions preference es =
      run_events-keeps es (new_companion D config ignored interactions preference) (record {
        ignored_most = omega arith;
        decisions_most = omega arith;
        proactive_most = omega arith;
        invitations_most = omega arith;
      })
