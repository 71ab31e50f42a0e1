-- ===== src/Agent/Relay/Delivered.antt =====
-- What an acknowledgement leaves in the two memories and in the relay's file.
use mathlib.Core.Path.{subst}
use dogos_memory.Agent.Relay.{Message, Outcome, find_message, is_addressed}
use dogos_memory.Agent.Relay.Acknowledge.{acknowledge_message-err, acknowledge_message-inv}
use dogos_memory.Agent.Relay.Delivery.{
  Acknowledgement, RelayState, acknowledge_message, delivery, delivery_id, first_time, mark,
  mark_row,
}
use dogos_memory.Base.{
  List, Result-cases, Text, [], ap, arith, err, inl, inr, ok, some, sym, text_eq_iff, text_eq_refl,
  true, ℕ, ◌∙◌, ◌∷◌, ◌≡◌,
}
use dogos_memory.Memory.Database.{Database}
use dogos_memory.Memory.Models.{AppendResult, Mode, StoredMemory}
use dogos_memory.Memory.Store.{append, find_memory}
use dogos_memory.Memory.Store.Found.{append-found}
use dogos_memory.Value.{text}

find_message-mark_row :
    (owner peer id : Text) (now : ℕ) (rows : List Message) {m : Message}
    → find_message id rows ≡ some m
    → is_addressed owner peer m ≡ true
    → find_message id (mark_row owner peer id now rows) ≡ some (mark now m)
unfolding find_message mark_row
find_message-mark_row owner peer id now [] h a = cc
find_message-mark_row owner peer id now (x ∷ rows) {m} h a =
    ground (arith, find_message-mark_row owner peer id now rows {m = m})

message_id-find_message :
    (id : Text) (rows : List Message) {m : Message}
    → find_message id rows ≡ some m
    → m.message_id ≡ id
unfolding find_message
message_id-find_message id [] h = cc
message_id-find_message id (x ∷ rows) {m} h =
    ground (arith, text_eq_iff x.message_id id, message_id-find_message id rows {m = m})

abbrev time_of : Outcome Acknowledgement → ℕ
time_of (ok a) = a.acknowledged_at_ms
time_of (err e) = 0

pub find_message_marked :
    (id : Text) (now time : ℕ) (m : Message) (rows rows' : List Message)
    → find_message id rows ≡ some m
    → rows' ≡ mark_row m.recipient_id m.sender_id m.message_id now rows
    → time ≡ first_time m.acknowledged_at_ms now
    → find_message id rows' ≡ some (record m { acknowledged_at_ms = some time })
find_message_marked id now time m rows rows' f e t =
    let same = message_id-find_message id rows f in
    let mine : is_addressed m.recipient_id m.sender_id m ≡ true =
      ground (arith, text_eq_refl m.recipient_id, text_eq_refl m.sender_id) in
    let marked = find_message-mark_row m.recipient_id m.sender_id id now rows f mine in
    ap (find_message id) (e ∙ ap (λ i. mark_row m.recipient_id m.sender_id i now rows) same)
    ∙ marked
    ∙ ap (λ n. some (record m { acknowledged_at_ms = some n })) (sym t)

-- A memory of the delivery of a message, under its identifier and about a peer.
abbrev pub HoldsDelivery : Database → Text → Text → Message → Type 0
HoldsDelivery db id peer m =
    (x : StoredMemory) × (find_memory db (delivery_id id) ≡ some x)
    × (x.content ≡ m.content)
    × (x.peer_id ≡ peer)
    × (x.occurred_at_ms ≡ m.sent_at_ms)

abbrev pub IsDelivered :
    Text → Text → Text → RelayState → Outcome Acknowledgement → RelayState → Type 0
IsDelivered owner peer id s (err e) s' = s'.messages ≡ s.messages
IsDelivered owner peer id s (ok a) s' =
    (m : Message) × (find_message id s.messages ≡ some m)
    × (is_addressed owner peer m ≡ true)
    × (find_message id s'.messages
        ≡ some (record m { acknowledged_at_ms = some a.acknowledged_at_ms }))
    × HoldsDelivery s'.owner_db id peer m
    × HoldsDelivery s'.peer_db id owner m

append-HoldsDelivery :
    (reader peer : Text) (event_type : Text) (mode : Mode) (m : Message) (now : ℕ) (db : Database)
    {r : AppendResult} {db' : Database}
    → append reader (delivery peer event_type mode m) now db ≡ ok (r, db')
    → HoldsDelivery db' m.message_id peer m
append-HoldsDelivery reader peer event_type mode m now db h =
    let (x, f, e) = append-found reader (delivery peer event_type mode m) now db h in
    unfold delivery in
    (x, f, ap (λ p. p.content) e, ap (λ p. p.peer_id) e, ap (λ p. p.occurred_at_ms) e)

module _ (owner peer id : Text) (s : RelayState) (first_at second_at now : ℕ) where
  acknowledged-IsDelivered :
      {a : Acknowledgement} {s' : RelayState}
      → acknowledge_message owner peer (text id) first_at second_at now s ≡ (ok a, s')
      → IsDelivered owner peer id s (ok a) s'
  acknowledged-IsDelivered {a} {s'} h =
      let (mode, m, k) = acknowledge_message-inv owner peer id s first_at second_at now h in
      let same = message_id-find_message id s.messages k.prepared.found in
      let rows = ap (λ r. r.1.messages) (sym k.answer) in
      let time = ap (λ r. time_of r.0) (sym k.answer) in
      (
        m,
        k.prepared.found,
        k.prepared.addressed,
        find_message_marked id now a.acknowledged_at_ms m s.messages s'.messages k.prepared.found
            rows time,
        subst (λ i. HoldsDelivery s'.owner_db i peer m) same
            (append-HoldsDelivery owner peer _ mode m first_at s.owner_db k.first_append),
        subst (λ i. HoldsDelivery s'.peer_db i owner m) same
            (append-HoldsDelivery peer owner _ mode m second_at s.peer_db k.second_append),
      )

  -- A message is marked only once it is in both memories: where the call succeeds, each of them holds the
  -- delivery with the message's content and time, about the other dog, and the message carries the time
  -- that is answered; where it raises, no message changes.
  pub acknowledge_message-IsDelivered :
      {outcome : Outcome Acknowledgement} {s' : RelayState}
      → acknowledge_message owner peer (text id) first_at second_at now s ≡ (outcome, s')
      → IsDelivered owner peer id s outcome s'
  acknowledge_message-IsDelivered {outcome} {s'} h = elim (Result-cases outcome) [
    | inl (a, e) ↦ rw e (acknowledged-IsDelivered (h ∙ ap (λ o. (o, s')) e))
    | inr (x, e) ↦
        rw e
          (acknowledge_message-err owner peer id s first_at second_at now (h ∙ ap (λ o. (o, s')) e))
  ]
