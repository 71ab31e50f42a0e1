-- ===== src/Companion/Engine/Latch.antt =====
-- After a failure the companion does nothing until the fault is confirmed.
use dogos_memory.Base.{
  All, Bool, List, Option, [], arith, false, none, refl, some, true, ◌++◌, ◌∷◌, ◌≡◌,
}
use dogos_memory.Companion.Engine.{advance, event, handle, is_inactive, observe, react}
use dogos_memory.Companion.Models.{
  Action, Companion, Doubles, Event, Observation, failure, observation, other, pause,
  preference_set, reset_fault, respond, start, touch,
}

module _ (D : Doubles) where
  abbrev pub is_reset : Event D → Bool
  is_reset reset_fault = true
  is_reset _ = false

  abbrev pub actions_of : Companion D × Option (List Action) → List Action
  actions_of (c, none) = []
  actions_of (c, some actions) = actions

  -- the actions that a list of events is answered by, each event at its time
  unfoldable pub actions_in : List (Event D × D.value) → Companion D → List Action
  actions_in [] c = []
  actions_in ((e, now) ∷ es) c = actions_of (event D e now c) ++ actions_in es (event D e now c).0

  pub record IsLatched (c : Companion D) : Type 0 where
    pub faulty : c.has_fault ≡ true
    pub inactive : is_inactive c.mode ≡ true

  module _ (now : D.value) where
    advance-IsLatched : (c : Companion D) → IsLatched c → IsLatched (advance D now c)
    unfolding advance
    advance-IsLatched c h = ground arith

    react-latched :
        (e : Event D) (c : Companion D) → is_inactive c.mode ≡ true → react D e now c ≡ (c, [])
    unfolding react
    react-latched e c h = rw h refl

    observe-IsLatched :
        (o : Observation D) (c : Companion D) → IsLatched c → IsLatched (observe D now o c)
    unfolding observe
    observe-IsLatched o c h = ground arith

    abbrev StaysLatched : Companion D × Option (List Action) → Type 0
    StaysLatched r = IsLatched r.0 × (actions_of r ≡ [])

    handle-latched :
        (e : Event D) (c : Companion D)
        → is_reset e ≡ false
        → IsLatched c
        → StaysLatched (handle D e now c)
    handle-latched (preference_set none) c n h = (h, refl)
    handle-latched (preference_set (some p)) c n h = (ground arith, refl)
    handle-latched pause c n h = (ground arith, refl)
    handle-latched start c n h = (ground arith, ground arith)
    handle-latched reset_fault c n h = cc n
    handle-latched failure c n h = (ground arith, refl)
    handle-latched (observation o) c n h =
        let k = observe-IsLatched o c h in
        rw (react-latched (observation o) (observe D now o c) k.inactive) (k, refl)
    handle-latched respond c n h = rw (react-latched respond c h.inactive) (h, refl)
    handle-latched touch c n h = rw (react-latched touch c h.inactive) (h, refl)
    handle-latched other c n h = rw (react-latched other c h.inactive) (h, refl)

    event-latched :
        (e : Event D) (c : Companion D)
        → is_reset e ≡ false
        → IsLatched c
        → StaysLatched (event D e now c)
    unfolding event
    event-latched e c n h = handle-latched e (advance D now c) n (advance-IsLatched c h)

    failure-IsLatched : (c : Companion D) → IsLatched (event D failure now c).0
    unfolding event
    failure-IsLatched c = record { faulty = refl; inactive = refl }

  actions_in-latched :
      (es : List (Event D × D.value)) (c : Companion D)
      → All (λ e. is_reset e.0 ≡ false) es
      → IsLatched c
      → actions_in es c ≡ []
  unfolding actions_in
  actions_in-latched [] c n h = refl
  actions_in-latched ((e, now) ∷ es) c (n, ns) h =
      let (k, none_yet) = event-latched now e c n h in
      rw none_yet (actions_in-latched es (event D e now c).0 ns k)

  -- After a failure no event is answered by an action, whatever events come and however often the
  -- companion is paused and started, until one confirms the fault.
  pub failure-actions_in :
      (c : Companion D) (failed_at : D.value) (es : List (Event D × D.value))
      → All (λ e. is_reset e.0 ≡ false) es
      → actions_in es (event D failure failed_at c).0 ≡ []
  failure-actions_in c failed_at es h =
      actions_in-latched es (event D failure failed_at c).0 h (failure-IsLatched failed_at c)
