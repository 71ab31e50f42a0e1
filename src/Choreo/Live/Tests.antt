-- ===== src/Choreo/Live/Tests.antt =====
-- Steps that the driver of apps/demo_choreo/live.py is handed, and the theorem at them. A second is 10000.
use Prim.Native.Nat.{◌/◌}
use Prim.Native.String.{String}
use dogos_memory.Base.{
  List, [], codes, false, leb, ltb, none, refl, some, text_eq, true, ℕ, ◌*◌, ◌+◌, ◌-◌, ◌∷◌, ◌≡◌,
}
use dogos_memory.Choreo.Book.{has_key}
use dogos_memory.Choreo.Dict.{find}
use dogos_memory.Choreo.Live.{
  Environment, Live, begin_routine, check_cancelled, clear_emotion, clear_light, clear_say,
  guard_expression, guard_reasons, pace, probe_context, send, send_emotion, send_head, send_say,
  wait_for,
}
use dogos_memory.Choreo.Live.Guarded.{IsStep, execute_step-IsStep}
use dogos_memory.Choreo.Live.Steps.{
  act, available, execute_step, express, express_emotion, live_driver, request_stop, show_emotion,
  state_after, stop_expression,
}
use dogos_memory.Choreo.Runner.{blocked_reasons, final_status, run_routine, run_steps}
use dogos_memory.Companion.Models.{Doubles}
use dogos_memory.Value.{
  Entries, Value, Values, and_value, array, boolean, double, entry, integer, less, lookup,
  no_entries, no_values, number_of, object, one, text,
}

abbrev scaled : Doubles
scaled = record {
  value = ℕ;
  add = λ x y. x + y;
  sub = λ x y. x - y;
  mul = λ x y. x * y / 10000;
  lt = ltb;
  le = leb;
  ratio = λ m n. m * 10000 / n;
  minus_infinity = 0;
}

abbrev ready : Value
ready = object (
    entry (codes "battery") (integer false 80) (
      entry (codes "charging") (boolean false) (
        entry (codes "stationary") (boolean true) (
          entry (codes "operator_present") (boolean true)
            (entry (codes "fault") (boolean false) no_entries)))))

abbrev accepted : Value
accepted = object (entry (codes "status") (text (codes "accepted")) no_entries)

-- a reading of the clock takes a tenth of a second, and the operator asks for a stop at the 30th
abbrev stage : Environment scaled
stage = record {
  clock = λ n. n * 1000;
  stopped = λ n. leb 30 n;
  interrupted = λ n seconds. false;
  guard = some (λ n. ready);
  answer = λ n command. some accepted;
  emotions = (codes "happy", integer false 3) ∷ [];
}

abbrev step : String → Entries → Value
step action args = object (
    entry (codes "id") (text (codes action)) (
      entry (codes "action") (text (codes action)) (entry (codes "args") (object args) no_entries)))

abbrev say_step : Value
say_step = step "say" (entry (codes "text") (text (codes "hello")) no_entries)

abbrev emotion_step : Value
emotion_step = step "emotion" (
    entry (codes "candidates")
      (array (and_value (text (codes "proud")) (and_value (text (codes "happy")) no_values)))
      (entry (codes "duration_ms") (integer false 500) no_entries))

abbrev dag_step : Value
dag_step = step "native_dag" (entry (codes "task_id") (text (codes "bow")) no_entries)

abbrev start : Live scaled
start = begin_routine scaled stage 5000 (20 * one) (record {
  cancelled = true;
  deadline = none;
  min_battery = 0;
  active_emotion_mode = none;
  now = 0;
  sent = [];
})

-- the last step first
abbrev handed : List Value
handed = dag_step ∷ emotion_step ∷ say_step ∷ []

sent_all :
    (state_after scaled stage start handed).sent
    ≡ send_emotion (integer false 3) (integer false 500) ∷ send_say (text (codes "hello")) ∷ []
unfolding state_after execute_step check_cancelled begin_routine act express express_emotion
    show_emotion guard_expression guard_reasons send pace wait_for available find less number_of one
    lookup text_eq
sent_all = refl

execute_step-IsStep_example :
    IsStep scaled stage say_step start (execute_step scaled stage say_step start).0
execute_step-IsStep_example = execute_step-IsStep scaled stage say_step start

-- after a stop of the operator nothing but the calls that clear is sent
stopped_run :
    (state_after scaled stage
      (request_stop scaled stage (state_after scaled stage start (emotion_step ∷ [])))
      handed).sent
    ≡ send_head (double false 0) (double false 0)
      ∷ clear_emotion (integer false 3)
      ∷ clear_say
      ∷ clear_light
      ∷ send_emotion (integer false 3) (integer false 500)
      ∷ []
unfolding state_after execute_step check_cancelled begin_routine act express express_emotion
    show_emotion guard_expression guard_reasons send pace wait_for available find less number_of one
    lookup text_eq request_stop stop_expression
stopped_run = refl

abbrev routine_of : Values → Value
routine_of steps = object (
    entry (codes "preconditions")
      (object (entry (codes "min_battery") (integer false 20) no_entries))
      (entry (codes "steps") (array steps) no_entries))

skips :
    (run_routine
      (live_driver scaled stage start)
      (routine_of (and_value dag_step no_values))
      ready).status
    ≡ codes "completed_with_skips"
unfolding state_after execute_step check_cancelled begin_routine act express express_emotion
    show_emotion guard_expression guard_reasons send pace wait_for available find less number_of one
    lookup text_eq run_routine run_steps blocked_reasons final_status has_key
skips = refl

-- with no fresh observation every routine is blocked, and the guard of a step too
unknown_state :
    (run_routine
      (live_driver scaled stage start)
      (routine_of no_values)
      (probe_context none true true)).status
    ≡ codes "blocked"
unfolding run_routine blocked_reasons probe_context number_of lookup text_eq one less
unknown_state = refl
