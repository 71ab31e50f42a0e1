-- ===== src/Choreo/Runner.antt =====
-- `ChoreographyRunner` of apps/demo_choreo/core.py: one routine, step by step, through a driver.
pub mod Trace
use dogos_memory.Base.{
  Bool, List, Option, Text, [], any, codes, false, if◌then◌else◌, none, not, some, text_eq, true, ℕ,
  ◌&&◌, ◌++◌, ◌+◌, ◌∷◌,
}
use dogos_memory.Choreo.Book.{aborts, has_key}
use dogos_memory.Memory.Models.{is_empty}
use dogos_memory.Value.{
  Number, Value, array_of, entry, finite, get_key, is_false, is_true, less, no_entries, number_of,
  object, text, text_is,
}

-- What a driver does with a step: a result, `ExecutionCancelled`, or another exception.
pub data StepOutcome : Type 0 where
  executed : Value → StepOutcome
  cancelled_by : Text → StepOutcome
  failed_with : Text → StepOutcome

-- A driver's answer may depend on the steps that it was handed before.
pub record Driver : Type 0 where
  pub final_status : Text
  pub execute : List Value → Value → StepOutcome

-- `DryRunDriver.execute`
unfoldable pub dry_run : Value → Value
dry_run step = object (
    entry (codes "status") (text (codes "simulated")) (
      entry (codes "action") (get_key (codes "action") step) (
        entry (codes "arguments")
          (if has_key (codes "args") step then get_key (codes "args") step else object no_entries)
          (entry (codes "verification")
            (if has_key (codes "verification") step
              then get_key (codes "verification") step
              else text (codes "not_run"))
            no_entries))))

abbrev pub dry_run_driver : Driver
dry_run_driver = record {
  final_status = codes "simulated";
  execute = λ before step. executed (dry_run step);
}

pub record StepRecord : Type 0 where
  pub index : ℕ
  pub step : Value
  pub outcome : StepOutcome

pub data RunEnd : Type 0 where
  all_run run_cancelled run_failed : RunEnd

abbrev pub cons_record : StepRecord → List StepRecord × RunEnd → List StepRecord × RunEnd
cons_record r (rs, ended) = (r ∷ rs, ended)

-- after a step: the loop returns on a cancellation, and on a failure unless the step says `continue`
abbrev pub after_step :
    StepRecord → StepOutcome → Bool → List StepRecord × RunEnd → List StepRecord × RunEnd
after_step r (executed _) stops rest = cons_record r rest
after_step r (cancelled_by _) stops rest = (r ∷ [], run_cancelled)
after_step r (failed_with _) stops rest = if stops then (r ∷ [], run_failed) else cons_record r rest

-- the loop of `run` from a step's index on; `before` are the steps handed over, the last one first
unfoldable pub run_steps : Driver → ℕ → List Value → List Value → List StepRecord × RunEnd
run_steps d index before [] = ([], all_run)
run_steps d index before (step ∷ steps) =
    let rest = run_steps d (index + 1) (step ∷ before) steps in
    let outcome = d.execute before step in
    after_step (record { index = index; step = step; outcome = outcome }) outcome (aborts step) rest

-- the status of a record's result
abbrev pub status_is : Text → StepOutcome → Bool
status_is wanted (executed result) = text_is (get_key (codes "status") result) wanted
status_is wanted (cancelled_by _) = text_eq wanted (codes "cancelled")
status_is wanted (failed_with _) = text_eq wanted (codes "failed")

unfoldable pub final_status : Driver → List StepRecord → Text
final_status d records =
    if any (λ r. status_is (codes "skipped") r.outcome) records
    then d.final_status ++ codes "_with_skips"
    else d.final_status

abbrev pub status_of : Driver → List StepRecord × RunEnd → Text
status_of d (records, all_run) = final_status d records
status_of d (records, run_cancelled) = codes "cancelled"
status_of d (records, run_failed) = codes "failed"

-- `not _is_number(battery) or battery < min_battery`, for a bound that was validated
abbrev pub below : Option Number → Option Number → Bool
below (some n) (some (finite negative m)) = less m n
below _ _ = true

abbrev pub when : Bool → Text → List Text
when true reason = reason ∷ []
when false reason = []

-- `_blocked_reasons` of preconditions that were validated
unfoldable pub blocked_reasons : Value → Value → List Text
blocked_reasons p context =
    when
      (below (number_of (get_key (codes "battery") context))
        (number_of (get_key (codes "min_battery") p)))
      (codes "battery_below_minimum_or_unknown")
    ++ (when
          (is_true (get_key (codes "reject_charging") p)
            && not (is_false (get_key (codes "charging") context)))
          (codes "charging_or_unknown")
        ++ (when
              (is_true (get_key (codes "require_stationary") p)
                && not (is_true (get_key (codes "stationary") context)))
              (codes "robot_not_confirmed_stationary")
            ++ (when
                  (is_true (get_key (codes "require_operator") p)
                    && not (is_true (get_key (codes "operator_present") context)))
                  (codes "operator_not_present")
                ++ (when
                      (is_true (get_key (codes "require_peer") p)
                        && not (is_true (get_key (codes "peer_present") context)))
                      (codes "peer_not_present")
                    ++ when (not (is_false (get_key (codes "fault") context)))
                        (codes "fault_or_unknown")))))

pub record RunReport : Type 0 where
  pub status : Text
  pub reasons : List Text
  pub steps : List StepRecord

abbrev pub steps_of : Value → List Value
steps_of routine = elim (array_of (get_key (codes "steps") routine)) [
  | none ↦ []
  | some steps ↦ steps
]

abbrev pub finished_report : Driver → List StepRecord × RunEnd → RunReport
finished_report d ran = record { status = status_of d ran; reasons = []; steps = ran.0 }

-- `run` of a routine that is in the book
unfoldable pub run_routine : Driver → Value → Value → RunReport
run_routine d routine context =
    let reasons = blocked_reasons (get_key (codes "preconditions") routine) context in
    if is_empty reasons
    then finished_report d (run_steps d 0 [] (steps_of routine))
    else record { status = codes "blocked"; reasons = reasons; steps = [] }
