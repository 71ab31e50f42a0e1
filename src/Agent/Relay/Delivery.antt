-- ===== src/Agent/Relay/Delivery.antt =====
-- packages/native_agent/dogos_mcp/relay.py: `acknowledge_message`, which writes a message into the
-- memories of both dogs before it marks it.
use dogos_memory.Agent.Relay.{
  Message, Outcome, check_endpoints, find_message, from_memory, is_addressed, memory_mode_mismatch,
  message_not_found, safe_id, validation_failed,
}
use dogos_memory.Base.{
  Bool, List, Option, Text, [], codes, err, false, if◌then◌else◌, none, ok, require, some, text_eq,
  true, ℕ, ◌&&◌, ◌++◌, ◌>>=◌, ◌>>◌, ◌∷◌,
}
use dogos_memory.Memory.Database.{Database, Store}
use dogos_memory.Memory.Models.{
  AppendResult, MemoryInput, Mode, Source, chat, completed, is_valid_input, live, robot_feedback,
}
use dogos_memory.Memory.Store.{append, recall}
use dogos_memory.Value.{Value}

-- the relay's file, the recipient's memory and the sender's
pub record RelayState : Type 0 where
  pub messages : List Message
  pub owner_db : Database
  pub peer_db : Database

pub record Acknowledgement : Type 0 where
  pub message_id : Text
  pub receiver_memory_inserted : Bool
  pub sender_memory_inserted : Bool
  pub acknowledged_at_ms : ℕ

abbrev pub from_store : {A : Type 0} → Store A → Outcome A
from_store (ok a) = ok a
from_store (err e) = err (from_memory e)

abbrev pub same_mode : Mode → Mode → Bool
same_mode live live = true
same_mode Mode.simulation Mode.simulation = true
same_mode _ _ = false

abbrev pub completion_source : Mode → Source
completion_source live = robot_feedback
completion_source Mode.simulation = Source.simulation

-- f"relay.{identity}.delivered"
unfoldable pub delivery_id : Text → Text
delivery_id id = codes "relay." ++ (id ++ codes ".delivered")

-- the two records of a delivery, by the peer of the file and the type of the event
unfoldable pub delivery : Text → Text → Mode → Message → MemoryInput
delivery peer event_type mode m = record {
  payload = record {
    memory_id = delivery_id m.message_id;
    session_id = codes "relay." ++ m.message_id;
    peer_id = peer;
    kind = chat;
    event_type = event_type;
    content = m.content;
    occurred_at_ms = m.sent_at_ms;
    source = completion_source mode;
    result = completed;
    importance = 5;
    affinity_delta = 0;
  };
  evidence_ids = [];
}

-- `MemoryInput(...)`
abbrev pub validated : MemoryInput → Outcome MemoryInput
validated m = if is_valid_input m then ok m else err validation_failed

abbrev pub first_time : Option ℕ → ℕ → ℕ
first_time none now = now
first_time (some t) now = t

-- `COALESCE(acknowledged_at_ms, ?)`
abbrev pub mark : ℕ → Message → Message
mark now m = record m { acknowledged_at_ms = some (first_time m.acknowledged_at_ms now) }

-- the UPDATE of `acknowledge_message`
unfoldable pub mark_row : Text → Text → Text → ℕ → List Message → List Message
mark_row owner peer id now [] = []
mark_row owner peer id now (m ∷ rows) =
    (if text_eq m.message_id id && is_addressed owner peer m then mark now m else m)
    ∷ mark_row owner peer id now rows

-- the mode of the profile that `recall` reads
unfoldable pub mode_of : Text → Text → Database → Outcome Mode
mode_of owner peer db = do
  r ← from_store (recall owner (record { peer_id = peer; limit = 1 }) db)
  ok r.profile.mode

abbrev pub acknowledged_result :
    Message → AppendResult → AppendResult → ℕ → RelayState → Outcome Acknowledgement × RelayState
acknowledged_result m received sent now s = (
  ok (record {
    message_id = m.message_id;
    receiver_memory_inserted = received.inserted;
    sender_memory_inserted = sent.inserted;
    acknowledged_at_ms = first_time m.acknowledged_at_ms now;
  }),
  record s { messages = mark_row m.recipient_id m.sender_id m.message_id now s.messages },
)

-- the two `append` calls; the first stays written where the second raises
abbrev pub deliver_sender :
    Text
    → MemoryInput
    → Message
    → ℕ
    → ℕ
    → RelayState
    → AppendResult × Database
    → Outcome Acknowledgement × RelayState
deliver_sender peer record_of m stored_at now s (received, db) =
    elim (append peer record_of stored_at s.peer_db) [
      | err e ↦ (err (from_memory e), record s { owner_db = db })
      | ok (sent, db') ↦
          acknowledged_result m received sent now (record s { owner_db = db; peer_db = db' })
    ]

abbrev pub deliver :
    Text
    → Text
    → MemoryInput
    → MemoryInput
    → Message
    → ℕ
    → ℕ
    → ℕ
    → RelayState
    → Outcome Acknowledgement × RelayState
deliver owner peer received sent m first_at second_at now s =
    elim (append owner received first_at s.owner_db) [
      | err e ↦ (err (from_memory e), s)
      | ok r ↦ deliver_sender peer sent m second_at now s r
    ]

abbrev pub addressed_message : Text → Text → Option Message → Outcome Message
addressed_message owner peer none = err message_not_found
addressed_message owner peer (some m) =
    if is_addressed owner peer m then ok m else err message_not_found

-- what is checked and built before anything is written
unfoldable pub prepare :
    Text → Text → Value → RelayState → Outcome (Message × MemoryInput × MemoryInput)
prepare owner peer message_id s = do
  check_endpoints owner peer
  id ← safe_id message_id
  m ← addressed_message owner peer (find_message id s.messages)
  receiver_mode ← mode_of owner peer s.owner_db
  sender_mode ← mode_of peer owner s.peer_db
  require (same_mode receiver_mode sender_mode) memory_mode_mismatch
  received ← validated (delivery peer (codes "agent_message_received") receiver_mode m)
  sent ← validated (delivery owner (codes "agent_message_delivered") receiver_mode m)
  ok (m, received, sent)

-- `acknowledge_message`, with the clock at the two `append` calls and at the end
unfoldable pub acknowledge_message :
    Text → Text → Value → ℕ → ℕ → ℕ → RelayState → Outcome Acknowledgement × RelayState
acknowledge_message owner peer message_id first_at second_at now s =
    elim (prepare owner peer message_id s) [
      | err e ↦ (err e, s)
      | ok (m, received, sent) ↦ deliver owner peer received sent m first_at second_at now s
    ]
