-- ===== src/Choreo/Live.antt =====
-- `LiveDriver` of apps/demo_choreo/live.py: its state, its guard, its waits and its calls. The
-- readings of the clock, the stop event, the waits, the guard's context and the client's answers are
-- those of an Environment, each at the number of readings that came before it.
pub mod Steps
pub mod Sent
pub mod Guarded
mod Tests
use dogos_memory.Base.{
  Bool, List, Option, Result, Text, [], codes, err, false, if◌then◌else◌, ltb, none, not, ok,
  or_raise, some, suc, true, ℕ, ◌&&◌, ◌*◌, ◌++◌, ◌||◌, ◌∷◌,
}
use dogos_memory.Choreo.Runner.{below}
use dogos_memory.Companion.Models.{Doubles}
use dogos_memory.Memory.Models.{is_empty}
use dogos_memory.Value.{
  Value, boolean, entry, finite, get_key, is_false, is_true, no_entries, null, number_of, object,
  one,
}

-- the calls of the client; a call of `head` is two requests to the robot, with nothing between them
pub data Command : Type 0 where
  send_head : Value → Value → Command
  send_light : Value → Value → Value → Command
  send_emotion : Value → Value → Command
  send_say : Value → Command
  clear_light clear_say : Command
  clear_emotion : Value → Command

-- the reasons of `live_guard_blocked`
pub data GuardReason : Type 0 where
  battery_low charging_or_unknown not_stationary operator_absent fault_or_unknown : GuardReason

-- `ExecutionCancelled`, and the other exceptions
pub data Stop : Type 0 where
  stop_requested routine_timeout unsupported_action client_failed : Stop
  guard_blocked : List GuardReason → Stop

pub data LiveResult : Type 0 where
  dag_skipped emotion_skipped waited : Value → LiveResult
  answered : Value → LiveResult
  answered_with : Text → Value → LiveResult

abbrev reason_if : Bool → GuardReason → List GuardReason
reason_if true reason = reason ∷ []
reason_if false reason = []

-- `_guard_expression` on a context, for a battery in units
unfoldable pub guard_reasons : ℕ → Value → List GuardReason
guard_reasons min_battery context =
    reason_if
      (below (number_of (get_key (codes "battery") context)) (some (finite false min_battery)))
      battery_low
    ++ (reason_if (not (is_false (get_key (codes "charging") context))) charging_or_unknown
        ++ (reason_if (not (is_true (get_key (codes "stationary") context))) not_stationary
            ++ (reason_if (not (is_true (get_key (codes "operator_present") context)))
                  operator_absent
                ++ reason_if (not (is_false (get_key (codes "fault") context))) fault_or_unknown)))

-- `LiveStateProbe.context` of an observation, if there is a fresh one
unfoldable pub probe_context : Option Value → Bool → Bool → Value
probe_context seen operator_present peer_present =
    let context : Value → Value → Bool → Value = λ battery charging busy. object (
      entry (codes "battery") battery (
        entry (codes "charging") charging (
          entry (codes "stationary") (boolean (not busy)) (
            entry (codes "operator_present") (boolean operator_present) (
              entry (codes "peer_present") (boolean peer_present)
                (entry (codes "fault") (boolean busy) no_entries)))))) in
    elim seen [
      | none ↦ context null null true
      | some v ↦
          context (get_key (codes "battery") v) (get_key (codes "charging") v)
            (is_true (get_key (codes "busy") v))
    ]

module _ (D : Doubles) where
  pub record Environment : Type 0 where
    pub clock : ℕ → D.value
    -- the stop event as another thread leaves it, and whether a wait for it was ended by it
    pub stopped : ℕ → Bool
    pub interrupted : ℕ → D.value → Bool
    pub guard : Option (ℕ → Value)
    -- the client's answer, or nothing where it raises
    pub answer : ℕ → Command → Option Value
    -- `resources.get("emotions", {})`
    pub emotions : List (Text × Value)

  pub record Live : Type 0 where
    pub cancelled : Bool
    pub deadline : Option D.value
    -- in units
    pub min_battery : ℕ
    pub active_emotion_mode : Option Value
    -- the readings so far, and the commands, the last one first
    pub now : ℕ
    pub sent : List Command

  abbrev pub Ran : Type 0 → Type 0
  Ran A = Live × Result Stop A

  abbrev pub later : Live → Live
  later s = record {
    cancelled = s.cancelled;
    deadline = s.deadline;
    min_battery = s.min_battery;
    active_emotion_mode = s.active_emotion_mode;
    now = suc s.now;
    sent = s.sent;
  }

  abbrev pub then_do : {A B : Type 0} → Ran A → (A → Live → Ran B) → Ran B
  then_do (s, err e) next = (s, err e)
  then_do (s, ok a) next = next a s

  abbrev pub lesser : D.value → D.value → D.value
  lesser a b = if D.lt b a then b else a

  abbrev pub zero_time : D.value
  zero_time = D.ratio 0 1

  abbrev pub greater : D.value → D.value → D.value
  greater a b = if D.lt a b then b else a

  abbrev pub max_battery : ℕ → ℕ
  max_battery n = if ltb (25 * one) n then n else 25 * one

  module _ (E : Environment) where
    -- `begin_routine`
    unfoldable pub begin_routine : ℕ → ℕ → Live → Live
    begin_routine max_duration_ms min_battery s = record {
      cancelled = false;
      deadline = some (D.add (E.clock s.now) (D.ratio max_duration_ms 1000));
      min_battery = max_battery min_battery;
      active_emotion_mode = none;
      now = suc s.now;
      sent = s.sent;
    }

    abbrev pub is_late : ℕ → Option D.value → Bool
    is_late n none = false
    is_late n (some deadline) = D.le deadline (E.clock n)

    -- `_check_cancelled`
    unfoldable pub check_cancelled : Live → Ran (Unit {0})
    check_cancelled s =
        if s.cancelled || E.stopped s.now
        then (later s, err stop_requested)
        else if is_late (suc s.now) s.deadline
        then (later (later s), err routine_timeout)
        else (later (later s), ok tt)

    abbrev pub remaining_time : ℕ → D.value → Option D.value → D.value
    remaining_time n seconds none = seconds
    remaining_time n seconds (some deadline) =
        lesser seconds (greater (zero_time) (D.sub deadline (E.clock n)))

    -- `_pace` once it is known that the routine goes on
    unfoldable pub wait_for : D.value → Live → Ran (Unit {0})
    wait_for seconds s =
        let remaining = remaining_time s.now seconds s.deadline in
        if D.lt zero_time remaining && E.interrupted (suc s.now) remaining
        then (later (later s), err stop_requested)
        else if D.lt remaining seconds
        then (later (later s), err routine_timeout)
        else (later (later s), ok tt)

    -- `_pace`
    unfoldable pub pace : D.value → Live → Ran (Unit {0})
    pace seconds s = then_do (check_cancelled s) (λ _ s1. wait_for seconds s1)

    -- `_guard_expression`
    unfoldable pub guard_expression : Live → Ran (Unit {0})
    guard_expression s = elim E.guard [
      | none ↦ (s, ok tt)
      | some context ↦
          let reasons = guard_reasons s.min_battery (context s.now) in
          (later s, if is_empty reasons then ok tt else err (guard_blocked reasons))
    ]

    -- a call of the client
    unfoldable pub send : Command → Live → Ran Value
    send command s = (
      record {
        cancelled = s.cancelled;
        deadline = s.deadline;
        min_battery = s.min_battery;
        active_emotion_mode = s.active_emotion_mode;
        now = suc s.now;
        sent = command ∷ s.sent;
      },
      or_raise (E.answer s.now command) client_failed,
    )
