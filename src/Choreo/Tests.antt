-- ===== src/Choreo/Tests.antt =====
-- Concrete routines of apps/demo_choreo: tests of the model, and the theorems at inputs where their
-- hypotheses hold.
use dogos_memory.Base.{
  All, List, [], codes, false, is_distinct, length, refl, some, text_eq, true, ℕ, ◌∷◌, ◌≡◌, ◌≤◌,
  ◌⊎◌,
}
use dogos_memory.Choreo.Book.{
  angle_valid, has_key, is_identifier, step_duration, timing_valid, validate_step, validate_steps,
}
use dogos_memory.Choreo.Book.Bounds.{IsEstimated, ids_of, timing_valid-IsShort, total_of}
use dogos_memory.Choreo.Runner.{
  Driver, blocked_reasons, failed_with, run_failed, run_routine, run_steps,
}
use dogos_memory.Choreo.Runner.Trace.{IsRun, run_routine-IsRun}
use dogos_memory.Value.{
  Value, and_value, array, array_of, boolean, entry, get_key, int_between, integer, lookup,
  no_entries, no_values, not_a_number, number_of, object, text,
}

abbrev greeting_step : Value
greeting_step = object (
    entry (codes "id") (text (codes "hello")) (
      entry (codes "action") (text (codes "say")) (
        entry (codes "args") (object (entry (codes "text") (text (codes "hi")) no_entries))
          no_entries)))

abbrev waiting_step : Value
waiting_step = object (
    entry (codes "id") (text (codes "rest")) (
      entry (codes "action") (text (codes "wait")) (
        entry (codes "args") (object (entry (codes "duration_ms") (integer false 500) no_entries))
          no_entries)))

abbrev routine : Value
routine = object (
    entry (codes "max_duration_ms") (integer false 2000) (
      entry (codes "steps") (array (and_value greeting_step (and_value waiting_step no_values)))
        no_entries))

routine_valid : timing_valid routine ≡ true
unfolding timing_valid int_between lookup text_eq validate_steps validate_step is_identifier
    step_duration has_key
routine_valid = refl

timing_valid-IsShort_example :
    (steps : List Value) × (longest : ℕ) × (array_of (get_key (codes "steps") routine) ≡ some steps)
    × (int_between 1000 30000 (get_key (codes "max_duration_ms") routine) ≡ some longest)
    × (1 ≤ length steps)
    × (length steps ≤ 12)
    × All IsEstimated steps
    × (is_distinct (ids_of steps) ≡ true)
    × (total_of steps ≤ longest)
    × (longest ≤ 30000)
timing_valid-IsShort_example = timing_valid-IsShort routine routine_valid

-- what is known of the robot: charged, and without a fault
abbrev context : Value
context =
    object (
      entry (codes "battery") (integer false 80) (entry (codes "fault") (boolean false) no_entries))

abbrev failing : Driver
failing = record {
  final_status = codes "completed";
  execute = λ before step. failed_with (codes "no link");
}

run_routine-IsRun_example :
    ((blocked_reasons (get_key (codes "preconditions") routine) context ≡ [])
      × IsRun failing routine (run_routine failing routine context))
    ⊎ (((run_routine failing routine context).status ≡ codes "blocked")
        × ((run_routine failing routine context).steps ≡ [])
        × ((run_routine failing routine context).reasons
            ≡ blocked_reasons (get_key (codes "preconditions") routine) context))
run_routine-IsRun_example = run_routine-IsRun failing routine context

one_failure : (run_steps failing 0 [] (greeting_step ∷ waiting_step ∷ [])).1 ≡ run_failed
unfolding run_steps has_key text_eq
one_failure = refl

-- an angle that is not a number passes the limit of 0.12
nan_angle : angle_valid (number_of not_a_number) ≡ true
unfolding number_of
nan_angle = refl
