-- ===== src/Choreo/Live/Steps.antt =====
-- The steps of `LiveDriver` of apps/demo_choreo/live.py, the driver that the runner is given, and its
-- stop. The texts of errors are cut short, and the calls of `progress` are left out.
use dogos_memory.Base.{
  List, Option, Result, Text, [], codes, err, false, if◌then◌else◌, length, none, ok, some, text_eq,
  true, ℕ, ◌∷◌,
}
use dogos_memory.Choreo.Catalogue.{items_of, read}
use dogos_memory.Choreo.Dict.{find}
use dogos_memory.Choreo.Live.{
  Command, Environment, Live, LiveResult, Ran, Stop, answered, answered_with, check_cancelled,
  clear_emotion, clear_light, clear_say, client_failed, dag_skipped, emotion_skipped, greater,
  guard_blocked, guard_expression, lesser, pace, routine_timeout, send, send_emotion, send_head,
  send_light, send_say, stop_requested, then_do, unsupported_action, waited,
}
use dogos_memory.Choreo.Runner.{Driver, StepOutcome, cancelled_by, executed, failed_with}
use dogos_memory.Companion.Models.{Doubles}
use dogos_memory.Value.{
  Value, double, entry, get_key, integer, no_entries, object, text, text_is, text_of,
}

abbrev skipped : Text → Value
skipped reason = object (
    entry (codes "status") (text (codes "skipped"))
      (entry (codes "reason") (text reason) no_entries))

-- `{**result, "resource": name}`
abbrev with_resource : Text → Value → Value
with_resource name (object entries) = object (entry (codes "resource") (text name) entries)
with_resource name v = v

-- the result of a step as the runner reads it: its status and its reason
abbrev pub value_of : LiveResult → Value
value_of (dag_skipped args) = skipped (codes "native_dag_not_enabled")
value_of (emotion_skipped candidates) = skipped (codes "emotion_resource_unavailable")
value_of (waited ms) =
    object (
      entry (codes "status") (text (codes "completed")) (entry (codes "duration_ms") ms no_entries))
value_of (answered v) = v
value_of (answered_with name v) = with_resource name v

abbrev pub stop_text : Stop → Text
stop_text stop_requested = codes "operator_stop_requested"
stop_text routine_timeout = codes "routine_timeout"
stop_text unsupported_action = codes "unsupported_live_action"
stop_text client_failed = codes "client"
stop_text (guard_blocked reasons) = codes "live_guard_blocked"

module _ (D : Doubles) (E : Environment D) where
  -- an expression: the guard, the call and the time that it takes
  unfoldable pub express : Command → D.value → (Value → LiveResult) → Live D → Ran D LiveResult
  express command seconds result s = then_do D (guard_expression D E s) (λ _ s1.
      then_do D (send D E command s1)
        (λ v s2. then_do D (pace D E seconds s2) (λ _ s3. (s3, ok (result v)))))

  -- `args["duration_ms"]` of a step that was validated
  abbrev pub millis : Value → ℕ
  millis args = elim (get_key (codes "duration_ms") args) [ integer negative n ↦ n | _ ↦ 0 ]

  abbrev pub duration : Value → D.value
  duration args = D.ratio (millis args) 1000

  abbrev pub say_time : Value → D.value
  say_time args = lesser D (D.ratio 5 1) (
      D.add (D.ratio 8 10) (D.mul (D.ratio (length (read (codes "text") args)) 1) (D.ratio 12 100)))

  -- `next((value for value in args["candidates"] if value in emotions), None)`, with its mode
  unfoldable pub available : List Value → Option (Text × Value)
  available [] = none
  available (v ∷ vs) =
      let rest = available vs in
      elim (text_of v) [
        | none ↦ rest
        | some name ↦ elim (find text_eq name E.emotions) [
          | none ↦ rest
          | some mode ↦ some (name, mode)
        ]
      ]

  abbrev pub activate : Value → Live D → Live D
  activate mode s = record {
    cancelled = s.cancelled;
    deadline = s.deadline;
    min_battery = s.min_battery;
    active_emotion_mode = some mode;
    now = s.now;
    sent = s.sent;
  }

  -- an emotion that is there: the call and the time that it takes
  unfoldable pub show_emotion : Value → Text → Value → Live D → Ran D LiveResult
  show_emotion args name mode s =
      then_do D
        (send D E (send_emotion mode (get_key (codes "duration_ms") args)) (activate mode s))
        (λ v s1. then_do D (pace D E (duration args) s1) (λ _ s2. (s2, ok (answered_with name v))))

  unfoldable pub express_emotion : Value → Live D → Ran D LiveResult
  express_emotion args s = then_do D (guard_expression D E s) (λ _ s1.
      elim (available (items_of (codes "candidates") args)) [
        | none ↦ (s1, ok (emotion_skipped (get_key (codes "candidates") args)))
        | some found ↦ show_emotion args found.0 found.1 s1
      ])

  -- by the action of a step, with its arguments
  unfoldable pub act : Value → Value → Live D → Ran D LiveResult
  act action args s =
      if text_is action (codes "native_dag")
      then (s, ok (dag_skipped args))
      else if text_is action (codes "wait")
      then then_do D (pace D E (duration args) s)
          (λ _ s1. (s1, ok (waited (get_key (codes "duration_ms") args))))
      else if text_is action (codes "head")
      then express (send_head (get_key (codes "pitch") args) (get_key (codes "yaw") args))
          (greater D (D.ratio 1 1) (duration args)) answered s
      else if text_is action (codes "light")
      then express
          (send_light (get_key (codes "rgb") args) (get_key (codes "brightness") args)
            (get_key (codes "duration_ms") args))
          (duration args) answered s
      else if text_is action (codes "emotion")
      then express_emotion args s
      else if text_is action (codes "say")
      then express (send_say (get_key (codes "text") args)) (say_time args) answered s
      else (s, err unsupported_action)

  -- `execute`
  unfoldable pub execute_step : Value → Live D → Ran D LiveResult
  execute_step step s =
      then_do D (check_cancelled D E s)
        (λ _ s1. act (get_key (codes "action") step) (get_key (codes "args") step) s1)

  -- the state after some steps, the last one first
  unfoldable pub state_after : Live D → List Value → Live D
  state_after s [] = s
  state_after s (step ∷ before) = (execute_step step (state_after s before)).0

  -- what the runner sees of a step
  abbrev pub outcome_of : Result Stop LiveResult → StepOutcome
  outcome_of (ok result) = executed (value_of result)
  outcome_of (err stop_requested) = cancelled_by (codes "operator_stop_requested")
  outcome_of (err stop) = failed_with (stop_text stop)

  -- the driver of a runner that begins in a state
  abbrev pub live_driver : Live D → Driver
  live_driver s = record {
    final_status = codes "completed";
    execute = λ before step. outcome_of (execute_step step (state_after s before)).1;
  }

  -- a call whose exception is written into the results
  abbrev pub attempt : Command → Live D → Live D
  attempt command s = (send D E command s).0

  -- `stop_expression` of apps/companion/native.py
  unfoldable pub stop_expression : Live D → Live D
  stop_expression s =
      let s1 = attempt clear_say (attempt clear_light s) in
      elim s.active_emotion_mode [ none ↦ s1 | some mode ↦ attempt (clear_emotion mode) s1 ]

  -- `request_stop`
  unfoldable pub request_stop : Live D → Live D
  request_stop s = attempt (send_head (double false 0) (double false 0)) (
      stop_expression (record {
        cancelled = true;
        deadline = none;
        min_battery = s.min_battery;
        active_emotion_mode = s.active_emotion_mode;
        now = s.now;
        sent = s.sent;
      }))
