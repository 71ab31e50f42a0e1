-- ===== src/Demo/Persistence.antt =====
-- packages/dogos_demo/persistence.py: one completed command is projected into both files.
pub mod Keeps
pub mod Recorded
use dogos_memory.Base.{
  Bool, List, Option, Result, Text, [], codes, contains, err, false, if◌then◌else◌, none, ok,
  require, some, text_eq, true, ℕ, ◌&&◌, ◌++◌, ◌+◌, ◌==◌, ◌∷◌,
}
use dogos_memory.Demo.Models.{
  DemoError, DogConfig, completion_conflict, invalid_completion_source,
  invalid_recovered_completion, store_error, unconfirmed_persistence, validation_error,
}
use dogos_memory.Demo.Session.{
  ActionCommand, ActionName, ActionReceipt, CompletionSource, PersistenceIssue, ReceiptStatus,
  cautious_reply, familiar_greeting, outgoing_greeting, warm_reply,
}
use dogos_memory.Demo.World.{Action, Runtime, lift, pure, raise, ◌>>=◌, ◌>>◌}
use dogos_memory.Memory.Database.{Database, Store}
use dogos_memory.Memory.Models.{
  AppendResult, MemoryInput, Outcome, Source, StoredMemory, event, is_completed, is_valid_input,
  memory_not_found,
}
use dogos_memory.Memory.Store.{append, get}

pub record PersistOutcome : Type 0 where
  pub persisted_owner_ids : List Text
  pub issues : List PersistenceIssue

-- `RecoveryOutcome`; its two fields are None together
abbrev pub RecoveryOutcome : Type 0
RecoveryOutcome = Option (ActionReceipt × PersistOutcome)

abbrev pub completed_suffix : Text
completed_suffix = codes "/completed"

-- `_completion_memory_id`
unfoldable pub completion_memory_id : ActionCommand → Text
completion_memory_id c = c.command_id ++ completed_suffix

-- `action.value`
abbrev action_text : ActionName → Text
action_text outgoing_greeting = codes "outgoing_greeting"
action_text cautious_reply = codes "cautious_reply"
action_text familiar_greeting = codes "familiar_greeting"
action_text warm_reply = codes "warm_reply"

-- `_memory_source`
abbrev pub memory_source : CompletionSource → Source
memory_source CompletionSource.robot_feedback = Source.robot_feedback
memory_source CompletionSource.operator = Source.operator
memory_source CompletionSource.simulation = Source.simulation

-- `_completion_source`
abbrev pub completion_source : Source → Result DemoError CompletionSource
completion_source Source.robot_feedback = ok CompletionSource.robot_feedback
completion_source Source.operator = ok CompletionSource.operator
completion_source Source.simulation = ok CompletionSource.simulation
completion_source Source.llm = err invalid_completion_source

abbrev direction : Bool → Text
direction true = codes "对方向我"
direction false = codes "我向对方"

-- the value that `_memory` constructs
unfoldable pub completion_memory : DogConfig → ActionCommand → CompletionSource → ℕ → MemoryInput
completion_memory owner c source occurred_at_ms =
    let is_target = text_eq owner.dog_id c.target_id in
    record {
      payload = record {
        memory_id = completion_memory_id c;
        session_id = c.session_id;
        peer_id = if is_target then c.actor_id else c.target_id;
        kind = event;
        event_type = codes "action_completed";
        content = direction is_target ++ (codes "完成动作 " ++ action_text c.action);
        occurred_at_ms = occurred_at_ms;
        source = memory_source source;
        result = Outcome.completed;
        importance = 5;
        affinity_delta = if is_target then owner.affinity_gain else 0;
      };
      evidence_ids = [];
    }

-- the constructor call in `_memory`
abbrev pub validated : MemoryInput → Result DemoError MemoryInput
validated m = if is_valid_input m then ok m else err validation_error

-- One binding's turn in the loop of `persist`. A `StoreError` becomes an issue.
abbrev pub noted :
    Text → Store (AppendResult × Database) → Database → PersistOutcome → PersistOutcome × Database
noted dog (ok (_, db')) db out =
    (record out { persisted_owner_ids = out.persisted_owner_ids ++ (dog ∷ []) }, db')
noted dog (err code) db out =
    (record out { issues = out.issues ++ (record { owner_id = dog; code = code } ∷ []) }, db)

abbrev pub nothing_persisted : PersistOutcome
nothing_persisted = record { persisted_owner_ids = []; issues = [] }

-- `_find`
abbrev pub found : Store StoredMemory → Result DemoError (Option StoredMemory)
found (ok m) = ok (some m)
found (err memory_not_found) = ok none
found (err e) = err (store_error e)

-- `_check_existing`
unfoldable pub check_existing : ActionCommand → StoredMemory → Bool
check_existing c m =
    text_eq m.memory_id (completion_memory_id c)
    && text_eq m.session_id c.session_id
    && contains m.peer_id (c.actor_id ∷ c.target_id ∷ [])
    && text_eq m.event_type (codes "action_completed")
    && is_completed m.result

-- `present[0]`
abbrev pub anchor : Option StoredMemory → Option StoredMemory → Option StoredMemory
anchor (some m) other = some m
anchor none other = other

abbrev source_eq : Source → Source → Bool
source_eq Source.robot_feedback Source.robot_feedback = true
source_eq Source.operator Source.operator = true
source_eq Source.llm Source.llm = true
source_eq Source.simulation Source.simulation = true
source_eq _ _ = false

-- no memory that is there differs from the anchor
abbrev pub agrees : StoredMemory → Option StoredMemory → Bool
agrees a none = true
agrees a (some m) = source_eq m.source a.source && m.occurred_at_ms == a.occurred_at_ms

abbrev pub recovered_receipt : ActionCommand → CompletionSource → ℕ → ActionReceipt
recovered_receipt c source at = record {
  status = ReceiptStatus.completed;
  command_id = c.command_id;
  adapter_id = c.adapter_id;
  occurred_at_ms = at;
  source = some source;
  detail = codes "recovered from stable completed-memory ID";
}

module _ (rt : Runtime) where
  open rt use {binding_0, binding_1, clock}

  unfoldable pub append_0 : MemoryInput → PersistOutcome → Action PersistOutcome
  append_0 m out w =
      let (out', db') =
        noted binding_0.dog.dog_id (append binding_0.owner_id m (clock w.readings) w.db_0) w.db_0
          out in
      (ok out', record w { db_0 = db'; readings = w.readings + 1 })

  unfoldable pub append_1 : MemoryInput → PersistOutcome → Action PersistOutcome
  append_1 m out w =
      let (out', db') =
        noted binding_1.dog.dog_id (append binding_1.owner_id m (clock w.readings) w.db_1) w.db_1
          out in
      (ok out', record w { db_1 = db'; readings = w.readings + 1 })

  -- the loop of `persist` for a source that is there
  unfoldable pub persist_from : ActionCommand → CompletionSource → ℕ → Action PersistOutcome
  persist_from c source at = do
    m ← lift (validated (completion_memory binding_0.dog c source at))
    out ← append_0 m nothing_persisted
    m' ← lift (validated (completion_memory binding_1.dog c source at))
    append_1 m' out

  abbrev pub persist_checked :
      ReceiptStatus → Option CompletionSource → ActionCommand → ℕ → Action PersistOutcome
  persist_checked ReceiptStatus.completed (some source) c at = persist_from c source at
  persist_checked _ _ c at = raise unconfirmed_persistence

  unfoldable pub persist : ActionCommand → ActionReceipt → Action PersistOutcome
  persist c r = persist_checked r.status r.source c r.occurred_at_ms

  unfoldable pub find_0 : Text → Action (Option StoredMemory)
  find_0 id w = (found (get binding_0.owner_id id w.db_0), w)

  unfoldable pub find_1 : Text → Action (Option StoredMemory)
  find_1 id w = (found (get binding_1.owner_id id w.db_1), w)

  abbrev pub recover_from :
      ActionCommand
      → Option StoredMemory
      → Option StoredMemory
      → Option StoredMemory
      → Action RecoveryOutcome
  recover_from c m0 m1 none = pure none
  recover_from c m0 m1 (some a) = do
    lift (require (check_existing c a) invalid_recovered_completion)
    lift (require (agrees a m0 && agrees a m1) completion_conflict)
    source ← lift (completion_source a.source)
    let receipt = recovered_receipt c source a.occurred_at_ms
    out ← persist c receipt
    pure (some (receipt, out))

  unfoldable pub recover : ActionCommand → Action RecoveryOutcome
  recover c = do
    m0 ← find_0 (completion_memory_id c)
    m1 ← find_1 (completion_memory_id c)
    recover_from c m0 m1 (anchor m0 m1)
