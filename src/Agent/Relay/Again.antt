-- ===== src/Agent/Relay/Again.antt =====
-- A message that is acknowledged a second time.
use dogos_memory.Agent.Relay.{Message, Outcome}
use dogos_memory.Agent.Relay.Acknowledge.{
  IsAcknowledged, IsPrepared, acknowledge_message-inv, acknowledge_message_of, received_of, sent_of,
}
use dogos_memory.Agent.Relay.Delivered.{find_message_marked}
use dogos_memory.Agent.Relay.Delivery.{
  Acknowledgement, RelayState, acknowledge_message, acknowledged_result, delivery, first_time,
  from_store, mark, mark_row, mode_of,
}
use dogos_memory.Base.{
  List, Result-cases, Text, [], ap, arith, codes, err, false, inl, inr, ok, refl, sym, ℕ, ◌>>=◌,
  ◌∙◌, ◌∷◌, ◌≡◌,
}
use dogos_memory.Memory.Database.{Database, read_profile}
use dogos_memory.Memory.Models.{AppendResult, MemoryInput, Mode}
use dogos_memory.Memory.Store.{append, recall}
use dogos_memory.Memory.Store.History.{read_profile-append}
use dogos_memory.Memory.Store.Replay.{IsLinked, append_replay}
use dogos_memory.Value.{text}

mark_row_again :
    (owner peer id : Text) (now now' : ℕ) (rows : List Message)
    → mark_row owner peer id now' (mark_row owner peer id now rows)
      ≡ mark_row owner peer id now rows
unfolding mark_row
mark_row_again owner peer id now now' [] = refl
mark_row_again owner peer id now now' (x ∷ rows) =
    ground (arith, mark_row_again owner peer id now now' rows)

mode_of-read_profile :
    (owner peer : Text) (db : Database)
    → mode_of owner peer db ≡ (from_store (read_profile db owner) >>= λ p. ok p.mode)
unfolding mode_of recall
mode_of-read_profile owner peer db = elim (Result-cases (read_profile db owner)) [
  | inl (p, e) ↦ rw e refl
  | inr (x, e) ↦ rw e refl
]

mode_of-append :
    (owner peer : Text) (m : MemoryInput) (now : ℕ) (db : Database) {r : AppendResult}
    {db' : Database}
    → append owner m now db ≡ ok (r, db')
    → mode_of owner peer db' ≡ mode_of owner peer db
mode_of-append owner peer m now db h =
    mode_of-read_profile owner peer _
    ∙ ap (λ x. from_store x >>= λ p. ok p.mode) (read_profile-append owner m now db h)
    ∙ sym (mode_of-read_profile owner peer db)

delivery-mark :
    (peer event_type : Text) (mode : Mode) (now : ℕ) (m : Message)
    → delivery peer event_type mode (mark now m) ≡ delivery peer event_type mode m
unfolding delivery
delivery-mark peer event_type mode now m = refl

abbrev answer_or : Acknowledgement → Outcome Acknowledgement → Acknowledgement
answer_or a (ok b) = b
answer_or a (err e) = a

abbrev not_inserted : AppendResult → AppendResult
not_inserted r = record r { inserted = false }

-- the answer to a second call, and the state after it
acknowledged_again :
    (s s' : RelayState) (a : Acknowledgement) (m : Message) (received sent : AppendResult)
    (now now' : ℕ)
    → acknowledged_result m received sent now
        (record s { owner_db = s'.owner_db; peer_db = s'.peer_db })
      ≡ (ok a, s')
    → acknowledged_result (mark now m) (not_inserted received) (not_inserted sent) now' s'
      ≡ (ok (record a { receiver_memory_inserted = false; sender_memory_inserted = false }), s')
acknowledged_again s s' a m received sent now now' h =
    let rows = ap (λ r. r.1.messages) (sym h) in
    let still =
      ap (mark_row m.recipient_id m.sender_id m.message_id now') rows
      ∙ mark_row_again m.recipient_id m.sender_id m.message_id now now' s.messages
      ∙ sym rows in
    ap
      (λ x. (
        (acknowledged_result (mark now m) (not_inserted received) (not_inserted sent) now' s').0,
        record s' { messages = x },
      ))
      still
    ∙ ap
        (λ r. (
          ok (record (answer_or a r.0) {
            receiver_memory_inserted = false;
            sender_memory_inserted = false;
          }),
          s',
        ))
        h

module _ (owner peer id : Text) (s : RelayState) (owner_linked : IsLinked s.owner_db)
    (peer_linked : IsLinked s.peer_db) (first_at second_at now first_at' second_at' now' : ℕ) where
  IsPrepared-again :
      {a : Acknowledgement} {s' : RelayState} {mode : Mode} {m : Message}
      → IsAcknowledged owner peer id s first_at second_at now a s' mode m
      → IsPrepared owner peer id s' mode (mark now m)
  unfolding delivery
  IsPrepared-again {a} {s'} {mode} {m} k =
      let p = k.prepared in
      let rows = ap (λ r. r.1.messages) (sym k.answer) in
      record {
        owner_safe = p.owner_safe;
        peer_safe = p.peer_safe;
        safe = p.safe;
        found =
            find_message_marked id now (first_time m.acknowledged_at_ms now) m s.messages
              s'.messages p.found rows refl;
        addressed = p.addressed;
        owner_mode = mode_of-append owner peer _ first_at s.owner_db k.first_append ∙ p.owner_mode;
        peer_mode = mode_of-append peer owner _ second_at s.peer_db k.second_append ∙ p.peer_mode;
        received_valid = p.received_valid;
        sent_valid = p.sent_valid;
      }

  -- Where every link of the two memory files belongs to a memory that is there, a message that was
  -- acknowledged can be acknowledged again, at any time: the answer carries the same time and says that
  -- neither memory was inserted, and nothing changes.
  pub acknowledge_message_again :
      {a : Acknowledgement} {s' : RelayState}
      → acknowledge_message owner peer (text id) first_at second_at now s ≡ (ok a, s')
      → acknowledge_message owner peer (text id) first_at' second_at' now' s'
        ≡ (ok (record a { receiver_memory_inserted = false; sender_memory_inserted = false }), s')
  acknowledge_message_again {a} {s'} h =
      let (mode, m, k) = acknowledge_message-inv owner peer id s first_at second_at now h in
      let x =
        append_replay owner (received_of owner peer id s mode m) first_at first_at' s.owner_db
          owner_linked k.first_append in
      let y =
        append_replay peer (sent_of owner peer id s mode m) second_at second_at' s.peer_db
          peer_linked k.second_append in
      let same_received =
        ap (λ m. append owner m first_at' s'.owner_db)
          (delivery-mark peer (codes "agent_message_received") mode now m) in
      let same_sent =
        ap (λ m. append peer m second_at' s'.peer_db)
          (delivery-mark owner (codes "agent_message_delivered") mode now m) in
      acknowledge_message_of owner peer id s' first_at' second_at' now' (IsPrepared-again k)
        (same_received ∙ x) (same_sent ∙ y)
      ∙ acknowledged_again s s' a m k.received k.sent now now' k.answer
