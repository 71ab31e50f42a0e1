-- ===== src/Choreo/Runner/Trace.antt =====
-- Which steps of a routine a driver is handed.
use mathlib.Core.Path.{subst}
use dogos_memory.Base.{
  Bool, Bool-cases, List, Text, [], ap, codes, false, inl, inr, not, refl, sym, true, ℕ, ◌+◌, ◌∙◌,
  ◌∷◌, ◌≡◌, ◌⊎◌,
}
use dogos_memory.Choreo.Book.{aborts}
use dogos_memory.Choreo.Runner.{
  Driver, RunEnd, RunReport, StepOutcome, StepRecord, after_step, all_run, blocked_reasons,
  cancelled_by, executed, failed_with, finished_report, run_cancelled, run_failed, run_routine,
  run_steps, status_of, steps_of,
}
use dogos_memory.Value.{Value, get_key}
use dogos_memory.Memory.Models.{is_empty}

-- The loop goes on after a record.
abbrev pub goes_on : StepOutcome → Value → Bool
goes_on (executed _) step = true
goes_on (cancelled_by _) step = false
goes_on (failed_with _) step = not (aborts step)

-- How the loop ends with a record.
abbrev pub ends_as : StepOutcome → RunEnd
ends_as (executed _) = all_run
ends_as (cancelled_by _) = run_cancelled
ends_as (failed_with _) = run_failed

-- The records are those of the first steps, in order, each with what the driver answered it after the
-- steps before; all but the last one let the loop go on, and the last one ends it, or all steps were run.
pub data IsTrace (d : Driver)
    : ℕ → List Value → List Value → List StepRecord → RunEnd → Type 0 where
  ran_all : {index : ℕ} {before : List Value} → IsTrace d index before [] [] all_run
  went_on :
      {index : ℕ} {before steps : List Value} {step : Value} {rs : List StepRecord} {ended : RunEnd}
      → goes_on (d.execute before step) step ≡ true
      → IsTrace d (index + 1) (step ∷ before) steps rs ended
      → IsTrace d index before
          (step ∷ steps)
          (record { index = index; step = step; outcome = d.execute before step } ∷ rs)
          ended
  ended_at :
      {index : ℕ} {before steps : List Value} {step : Value} {ended : RunEnd}
      → goes_on (d.execute before step) step ≡ false
      → ends_as (d.execute before step) ≡ ended
      → IsTrace d index before
          (step ∷ steps)
          (record { index = index; step = step; outcome = d.execute before step } ∷ [])
          ended

after_step-IsTrace :
    (d : Driver) (index : ℕ) (before steps : List Value) (step : Value) (outcome : StepOutcome)
    (rest : List StepRecord × RunEnd)
    → d.execute before step ≡ outcome
    → IsTrace d (index + 1) (step ∷ before) steps rest.0 rest.1
    → IsTrace d index before
        (step ∷ steps)
        (after_step
          (record { index = index; step = step; outcome = d.execute before step })
          outcome
          (aborts step)
          rest).0
        (after_step
          (record { index = index; step = step; outcome = d.execute before step })
          outcome
          (aborts step)
          rest).1
after_step-IsTrace d index before steps step (executed v) rest e t =
    went_on (ap (λ o. goes_on o step) e) t
after_step-IsTrace d index before steps step (cancelled_by v) rest e t =
    ended_at (ap (λ o. goes_on o step) e) (ap ends_as e)
after_step-IsTrace d index before steps step (failed_with v) rest e t =
    elim (Bool-cases (aborts step)) [
      | inl a ↦ rw a (ended_at (ap (λ o. goes_on o step) e ∙ ap not a) (ap ends_as e))
      | inr a ↦ rw a (went_on (ap (λ o. goes_on o step) e ∙ ap not a) t)
    ]

run_steps-IsTrace :
    (d : Driver) (index : ℕ) (before steps : List Value)
    → IsTrace d index before steps
        (run_steps d index before steps).0
        (run_steps d index before steps).1
unfolding run_steps
run_steps-IsTrace d index before [] = ran_all
run_steps-IsTrace d index before (step ∷ steps) =
    after_step-IsTrace d index before steps step (d.execute before step)
      (run_steps d (index + 1) (step ∷ before) steps) refl
      (run_steps-IsTrace d (index + 1) (step ∷ before) steps)

is_empty-eq : (xs : List Text) → is_empty xs ≡ true → xs ≡ []
is_empty-eq [] h = refl
is_empty-eq (x ∷ xs) h = cc h

-- A report of a run that was not blocked.
abbrev pub IsRun : Driver → Value → RunReport → Type 0
IsRun d routine r =
    (ended : RunEnd) × IsTrace d 0 [] (steps_of routine) r.steps ended
    × (r.status ≡ status_of d (r.steps, ended))

module _ (d : Driver) (routine context : Value) where
  abbrev reasons : List Text
  reasons = blocked_reasons (get_key (codes "preconditions") routine) context

  run_routine-clear :
      is_empty reasons ≡ true
      → run_routine d routine context ≡ finished_report d (run_steps d 0 [] (steps_of routine))
  unfolding run_routine
  run_routine-clear e = rw e refl

  -- The driver of a routine's run was handed its first steps, in order and each once, and none after a
  -- step that was cancelled or that failed without saying `continue`; the run ends as its last step did,
  -- or has run them all. A routine that is blocked has handed over none.
  pub run_routine-IsRun :
      ((blocked_reasons (get_key (codes "preconditions") routine) context ≡ [])
        × IsRun d routine (run_routine d routine context))
      ⊎ (((run_routine d routine context).status ≡ codes "blocked")
          × ((run_routine d routine context).steps ≡ [])
          × ((run_routine d routine context).reasons
              ≡ blocked_reasons (get_key (codes "preconditions") routine) context))
  unfolding run_routine
  run_routine-IsRun = elim (Bool-cases (is_empty reasons)) [
    | inl e ↦ inl (
      is_empty-eq reasons e,
      subst (IsRun d routine) (sym (run_routine-clear e)) (
        (run_steps d 0 [] (steps_of routine)).1,
        run_steps-IsTrace d 0 [] (steps_of routine),
        refl,
      ),
    )
    | inr e ↦ inr (rw e (refl, refl, refl))
  ]
