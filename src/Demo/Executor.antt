-- ===== src/Demo/Executor.antt =====
-- packages/dogos_demo/command_execution.py: one command is recovered or dispatched, and its
-- completion is checked and persisted.
pub mod Keeps
pub mod Redispatch
pub mod Accepted
pub mod Rejected
use dogos_memory.Base.{
  Bool, Option, Result, [], err, false, if◌then◌else◌, none, ok, some, text_eq, true, ◌&&◌, ◌>>◌,
  ◌∷◌,
}
use dogos_memory.Demo.Models.{DemoError, adapter_binding_missing}
use dogos_memory.Demo.Persistence.{PersistOutcome, RecoveryOutcome, persist, recover}
use dogos_memory.Demo.Plan.{command}
use dogos_memory.Demo.Session.{
  AbortReason, ActionCommand, ActionReceipt, CommandReport, CompletionSource, ReceiptStatus,
  action_cancelled, action_failed, cancelled, completion_source_mismatch, persistence_pending,
  routing_conflict, service_acknowledged, service_unconfirmed,
}
use dogos_memory.Demo.World.{Action, ActionAdapter, Runtime, lift, pure, ◌>>=◌}
use dogos_memory.Memory.Models.{Mode, is_empty}

pub data CommandOutcome : Type 0 where
  command_accepted : CommandReport → CommandOutcome
  command_rejected : CommandReport → AbortReason → CommandOutcome

-- `_report`
abbrev pub report : ActionCommand → ActionReceipt → PersistOutcome → Bool → CommandReport
report c r out replayed = record {
  command = c;
  receipt = r;
  replayed = replayed;
  persisted_owner_ids = out.persisted_owner_ids;
  persistence_issues = out.issues;
}

abbrev pub empty_persist : PersistOutcome
empty_persist = record { persisted_owner_ids = []; issues = [] }

-- `_route_matches`
unfoldable pub route_matches : ActionCommand → ActionReceipt → Bool
route_matches c r = text_eq r.command_id c.command_id && text_eq r.adapter_id c.adapter_id

-- `_source_allowed`
unfoldable pub source_allowed : Mode → CompletionSource → Bool
source_allowed Mode.simulation CompletionSource.simulation = true
source_allowed Mode.simulation _ = false
source_allowed Mode.live CompletionSource.simulation = false
source_allowed Mode.live _ = true

-- accepted unless a file did not take the completion
abbrev pub settled : CommandReport → CommandOutcome
settled r =
    if is_empty r.persistence_issues
    then command_accepted r
    else command_rejected r persistence_pending

abbrev pub refused : ActionCommand → ActionReceipt → AbortReason → CommandOutcome
refused c r reason = command_rejected (report c r empty_persist false) reason

module _ (rt : Runtime) where
  open rt use {config, adapter_0, adapter_1}

  -- `_adapter`
  unfoldable pub adapter_for : ActionCommand → Result DemoError ActionAdapter
  adapter_for c =
      if text_eq adapter_0.adapter_id c.adapter_id
      then ok adapter_0
      else if text_eq adapter_1.adapter_id c.adapter_id
      then ok adapter_1
      else err adapter_binding_missing

  -- the adapter is handed the command
  unfoldable pub dispatch : ActionAdapter → ActionCommand → Action ActionReceipt
  dispatch a c w = (a.respond w.dispatched c, record w { dispatched = c ∷ w.dispatched })

  abbrev pub completed_from :
      ActionCommand → ActionReceipt → Option CompletionSource → Action CommandOutcome
  completed_from c r none = pure (refused c r completion_source_mismatch)
  completed_from c r (some source) =
      if source_allowed config.mode source
      then (do out ← persist rt c r; pure (settled (report c r out false)))
      else pure (refused c r completion_source_mismatch)

  abbrev pub by_status : ReceiptStatus → ActionCommand → ActionReceipt → Action CommandOutcome
  by_status ReceiptStatus.completed c r = completed_from c r r.source
  by_status service_acknowledged c r = pure (refused c r service_unconfirmed)
  by_status ReceiptStatus.failed c r = pure (refused c r action_failed)
  by_status cancelled c r = pure (refused c r action_cancelled)

  -- what `execute` does with the receipt of a dispatched command
  unfoldable pub judge : ActionCommand → ActionReceipt → Action CommandOutcome
  judge c r =
      if route_matches c r then by_status r.status c r else pure (refused c r routing_conflict)

  abbrev pub execute_from : ActionCommand → RecoveryOutcome → Action CommandOutcome
  execute_from c (some (receipt, out)) = pure (settled (report c receipt out true))
  execute_from c none = do adapter ← lift (adapter_for c); r ← dispatch adapter c; judge c r

  unfoldable pub execute : ActionCommand → Action CommandOutcome
  execute c = do recovered ← recover rt c; execute_from c recovered
