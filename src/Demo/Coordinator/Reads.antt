-- ===== src/Demo/Coordinator/Reads.antt =====
-- The parts of a session that only read.
use dogos_memory.Base.{List, Text, keep, refl, ◌++◌, ◌∙◌, ◌≡◌, ◌≢◌}
use dogos_memory.Demo.Coordinator.{
  PlanRun, SessionContext, StopSignal, abort_session, conclude, finished, run, run_status, stopped,
}
use dogos_memory.Demo.Models.{
  DogRole, IdentityDecision, IdentityStatus, pending, rejected, suppressed,
}
use dogos_memory.Demo.PairMemory.{
  initiator_of, is_action_completion, original_initiator, recall_for, recalls, snapshot,
}
use dogos_memory.Demo.Plan.{PairRecalls, dog_with_role}
use dogos_memory.Demo.Session.{AbortReason, CommandReport, PairSnapshot}
use dogos_memory.Demo.World.{Runtime, World, from_store}
use dogos_memory.Demo.World.Keeps.{IsPreorder, Keeps, Keeps-bind, Keeps-lift, Keeps-lift_bind}
use dogos_memory.Memory.Store.{list_session}

abbrev pub IsSame : World → World → Type 0
IsSame w w' = w' ≡ w

pub IsSame-IsPreorder : IsPreorder IsSame
IsSame-IsPreorder = record { same = λ w. refl; then = λ w w' w'' p q. q ∙ p }

module _ (rt : Runtime) where
  open rt use {config, binding_0, binding_1}

  recall_for-IsSame : (dog peer : Text) → Keeps IsSame (recall_for rt dog peer)
  unfolding recall_for
  recall_for-IsSame dog peer = record { at = IsSame-IsPreorder.same }

  pub recalls-IsSame : Keeps IsSame (recalls rt)
  unfolding recalls
  recalls-IsSame =
      Keeps-lift_bind IsSame-IsPreorder (dog_with_role config DogRole.cautious) _ λ shy.
        Keeps-lift_bind IsSame-IsPreorder (dog_with_role config DogRole.outgoing) _ λ bold.
          Keeps-bind IsSame-IsPreorder (recall_for rt shy.dog_id bold.dog_id) _
            (recall_for-IsSame shy.dog_id bold.dog_id)
            λ a.
              Keeps-bind IsSame-IsPreorder (recall_for rt bold.dog_id shy.dog_id) _
                (recall_for-IsSame bold.dog_id shy.dog_id)
                λ b. record { at = IsSame-IsPreorder.same }

  pub snapshot-IsSame : Keeps IsSame (snapshot rt)
  unfolding snapshot
  snapshot-IsSame =
      Keeps-bind IsSame-IsPreorder (recalls rt) _ recalls-IsSame
        λ r. record { at = IsSame-IsPreorder.same }

  pub original_initiator-IsSame : (session : Text) → Keeps IsSame (original_initiator rt session)
  unfolding original_initiator
  original_initiator-IsSame session = record {
    at = λ w.
        (Keeps-lift_bind IsSame-IsPreorder
            (from_store (list_session binding_0.owner_id session w.db_0)) _
            λ a.
              Keeps-lift_bind IsSame-IsPreorder
                (from_store (list_session binding_1.owner_id session w.db_1)) _
                λ b.
                  Keeps-lift IsSame-IsPreorder
                    (initiator_of config session (keep is_action_completion (a ++ b)))).at
          w;
  }

  pub abort_session-IsSame :
      (context : SessionContext) (reports : List CommandReport) (reason : AbortReason)
      → Keeps IsSame (abort_session rt context reports reason)
  unfolding abort_session
  abort_session-IsSame context reports reason =
      Keeps-bind IsSame-IsPreorder (snapshot rt) _ snapshot-IsSame
        λ after. Keeps-lift IsSame-IsPreorder _

  pub conclude-IsSame :
      (context : SessionContext) (ended : PlanRun) → Keeps IsSame (conclude rt context ended)
  conclude-IsSame context (stopped reports reason) = abort_session-IsSame context reports reason
  conclude-IsSame context (finished reports) =
      Keeps-bind IsSame-IsPreorder (snapshot rt) _ snapshot-IsSame
        λ after. Keeps-lift IsSame-IsPreorder _

  run_status-IsSame :
      (status : IdentityStatus) (session : Text) (identity : IdentityDecision) (stop : StopSignal)
      (memories : PairRecalls) (before : PairSnapshot)
      → status ≢ IdentityStatus.confirmed
      → Keeps IsSame (run_status rt status session identity stop memories before)
  run_status-IsSame IdentityStatus.confirmed session identity stop memories before n =
      absurd (n refl)
  run_status-IsSame pending session identity stop memories before n = abort_session-IsSame _ _ _
  run_status-IsSame rejected session identity stop memories before n = abort_session-IsSame _ _ _
  run_status-IsSame suppressed session identity stop memories before n = abort_session-IsSame _ _ _

  -- Unless the identity is confirmed, a session changes nothing: no command is handed to an adapter,
  -- neither file changes, and no time is taken, also where it raises.
  pub run_unconfirmed :
      (session : Text) (identity : IdentityDecision) (stop : StopSignal) (w : World)
      → identity.status ≢ IdentityStatus.confirmed
      → (run rt session identity stop w).1 ≡ w
  unfolding run
  run_unconfirmed session identity stop w n =
      (Keeps-bind IsSame-IsPreorder (recalls rt) _ recalls-IsSame λ memories.
          Keeps-bind IsSame-IsPreorder (snapshot rt) _ snapshot-IsSame
            λ before. run_status-IsSame identity.status session identity stop memories before n).at
        w
