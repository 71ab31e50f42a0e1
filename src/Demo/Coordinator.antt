-- ===== src/Demo/Coordinator.antt =====
-- packages/dogos_demo/coordinator.py: plan once, execute serially, and stop after the first unsafe
-- outcome.
pub mod Reads
pub mod Bounded
pub mod Summary
use dogos_memory.Base.{
  Bool, List, Option, Result, Text, [], err, if◌then◌else◌, none, ok, some, ◌++◌, ◌>>◌, ◌∷◌,
}
use dogos_memory.Demo.Executor.{CommandOutcome, command_accepted, command_rejected, execute}
use dogos_memory.Demo.Models.{DemoError, IdentityDecision, IdentityStatus, validation_error}
use dogos_memory.Demo.PairMemory.{original_initiator, recalls, snapshot}
use dogos_memory.Demo.Plan.{PairRecalls, build_plan, build_plan_for_initiator}
use dogos_memory.Demo.Session.{
  AbortReason, ActionCommand, CommandReport, PairSnapshot, SessionStatus, SessionSummary,
  check_session, identity_not_confirmed, stop_requested,
}
use dogos_memory.Demo.World.{Action, Runtime, lift, pure, ◌>>=◌}

-- `StopSignal.should_stop`, asked before each command with the reports so far
abbrev pub StopSignal : Type 0
StopSignal = List CommandReport → Bool

pub record SessionContext : Type 0 where
  pub session_id : Text
  pub identity : IdentityDecision
  pub initiator_id : Option Text
  pub before : PairSnapshot

-- the constructor call `SessionSummary(...)`
abbrev pub summarized : SessionSummary → Result DemoError SessionSummary
summarized s = if check_session s then ok s else err validation_error

-- how the loop over the plan ends
pub data PlanRun : Type 0 where
  finished : List CommandReport → PlanRun
  stopped : List CommandReport → AbortReason → PlanRun

-- the loop goes on only after a command that was accepted
abbrev pub go_on_after :
    (List CommandReport → Action PlanRun) → List CommandReport → CommandOutcome → Action PlanRun
go_on_after rest reports (command_accepted r) = rest (reports ++ (r ∷ []))
go_on_after rest reports (command_rejected r reason) = pure (stopped (reports ++ (r ∷ [])) reason)

module _ (rt : Runtime) where
  open rt use {config}

  -- `_aborted`
  unfoldable pub abort_session :
      SessionContext → List CommandReport → AbortReason → Action SessionSummary
  abort_session context commands reason = do
    after ← snapshot rt
    lift (
        summarized (record {
          session_id = context.session_id;
          status = SessionStatus.aborted;
          abort_reason = some reason;
          identity = context.identity;
          initiator_id = context.initiator_id;
          before = context.before;
          after = after;
          commands = commands;
        }))

  -- the loop over the plan; `reports` is in order
  unfoldable pub run_plan : StopSignal → List ActionCommand → List CommandReport → Action PlanRun
  run_plan stop [] reports = pure (finished reports)
  run_plan stop (c ∷ cs) reports = do
    let rest = run_plan stop cs
    if stop reports
        then pure (stopped reports stop_requested)
        else do outcome ← execute rt c; go_on_after rest reports outcome

  abbrev pub conclude : SessionContext → PlanRun → Action SessionSummary
  conclude context (stopped reports reason) = abort_session context reports reason
  conclude context (finished reports) = do
    after ← snapshot rt
    lift (
        summarized (record {
          session_id = context.session_id;
          status = SessionStatus.completed;
          abort_reason = none;
          identity = context.identity;
          initiator_id = context.initiator_id;
          before = context.before;
          after = after;
          commands = reports;
        }))

  abbrev pub plan_for :
      IdentityDecision
      → Text
      → PairRecalls
      → Option Text
      → Result DemoError (ActionCommand × ActionCommand)
  plan_for identity session_id memories none = build_plan config identity session_id memories
  plan_for identity session_id memories (some original) =
      build_plan_for_initiator config identity session_id memories original

  -- the confirmed branch of `run`
  unfoldable pub run_confirmed :
      Text → IdentityDecision → StopSignal → PairRecalls → PairSnapshot → Action SessionSummary
  run_confirmed session_id identity stop memories before = do
    original ← original_initiator rt session_id
    plan ← lift (plan_for identity session_id memories original)
    let context : SessionContext = record {
      session_id = session_id;
      identity = identity;
      initiator_id = some (plan.0.actor_id);
      before = before;
    }
    ended ← run_plan stop (plan.0 ∷ plan.1 ∷ []) []
    conclude context ended

  abbrev pub run_status :
      IdentityStatus
      → Text
      → IdentityDecision
      → StopSignal
      → PairRecalls
      → PairSnapshot
      → Action SessionSummary
  run_status IdentityStatus.confirmed session_id identity stop memories before =
      run_confirmed session_id identity stop memories before
  run_status _ session_id identity stop memories before =
      abort_session
        (record {
          session_id = session_id;
          identity = identity;
          initiator_id = none;
          before = before;
        })
        [] identity_not_confirmed

  unfoldable pub run : Text → IdentityDecision → StopSignal → Action SessionSummary
  run session_id identity stop = do
    memories ← recalls rt
    before ← snapshot rt
    run_status identity.status session_id identity stop memories before
