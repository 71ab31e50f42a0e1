-- ===== src/Agent/Relay/Send.antt =====
-- Sending a message twice, and what every message of the relay's file satisfies.
use dogos_memory.Agent.Relay.{
  Message, Receipt, find_message, insert_message, is_message, is_safe_id, message_of, safe_id,
  same_payload, send_message,
}
use dogos_memory.Base.{
  Bool-cases, List, Option-cases, Result-cases, Text, [], arith, false, inl, inr, none, ok, refl,
  some, sym, text_eq, text_eq_iff, text_eq_refl, true, ℕ, ◌∙◌, ◌∷◌, ◌≡◌,
}
use dogos_memory.Value.{Value}

-- What a successful call has checked, and that a later call of it comes down to the transaction.
record IsSent (owner peer : Text) (message_id content : Value) (m : Message) : Type 0 where
  sender : m.sender_id ≡ owner
  recipient : m.recipient_id ≡ peer
  apart : text_eq owner peer ≡ false
  safe : is_safe_id m.message_id ≡ true
  body : is_message m.content ≡ true
  again :
      (now : ℕ) (rows : List Message)
      → send_message owner peer message_id content now rows
        ≡ insert_message (record m { sent_at_ms = now }) (find_message m.message_id rows) rows

safe_id-inv : (v : Value) {t : Text} → safe_id v ≡ ok t → is_safe_id t ≡ true
safe_id-inv v h = ground arith

message_of-inv : (v : Value) {t : Text} → message_of v ≡ ok t → is_message t ≡ true
message_of-inv v h = ground arith

abbrev new_message : Text → Text → Text → Text → ℕ → Message
new_message owner peer id body now = record {
  message_id = id;
  sender_id = owner;
  recipient_id = peer;
  content = body;
  sent_at_ms = now;
  acknowledged_at_ms = none;
}

module _ (owner peer : Text) (message_id content : Value) where
  send_message_checked :
      {id body : Text}
      → is_safe_id owner ≡ true
      → is_safe_id peer ≡ true
      → safe_id message_id ≡ ok id
      → message_of content ≡ ok body
      → text_eq owner peer ≡ false
      → (now : ℕ) (rows : List Message)
      → send_message owner peer message_id content now rows
        ≡ insert_message (new_message owner peer id body now) (find_message id rows) rows
  unfolding send_message
  send_message_checked a b p q c now rows = rw (a, b, p, q, c) refl

  send_message-inv :
      (now : ℕ) (rows : List Message) {sent : Receipt × List Message}
      → send_message owner peer message_id content now rows ≡ ok sent
      → (id : Text) × (body : Text) × (is_safe_id owner ≡ true)
        × (is_safe_id peer ≡ true)
        × (safe_id message_id ≡ ok id)
        × (message_of content ≡ ok body)
        × (text_eq owner peer ≡ false)
  unfolding send_message
  send_message-inv now rows h = elim (Result-cases (safe_id message_id)) [
    | inr (e, p) ↦ ground arith
    | inl (id, p) ↦ elim (Result-cases (message_of content)) [
      | inr (e, q) ↦ ground arith
      | inl (body, q) ↦ (id, body, ground arith, ground arith, p, q, ground arith)
    ]
  ]

  send_message-IsSent :
      (now : ℕ) (rows : List Message) {sent : Receipt × List Message}
      → send_message owner peer message_id content now rows ≡ ok sent
      → (m : Message) × IsSent owner peer message_id content m
        × (m.sent_at_ms ≡ now)
        × (insert_message m (find_message m.message_id rows) rows ≡ ok sent)
  send_message-IsSent now rows h =
      let (id, body, a, b, p, q, c) = send_message-inv now rows h in
      (
        new_message owner peer id body now,
        record {
          sender = refl;
          recipient = refl;
          apart = c;
          safe = safe_id-inv message_id p;
          body = message_of-inv content q;
          again = send_message_checked a b p q c;
        },
        refl,
        sym (send_message_checked a b p q c now rows) ∙ h,
      )

find_message_self :
    (m : Message) (rows : List Message) → find_message m.message_id (m ∷ rows) ≡ some m
unfolding find_message
find_message_self m rows = rw (text_eq_refl m.message_id) refl

same_payload-inv :
    (old new : Message)
    → same_payload old new ≡ true
    → (old.sender_id ≡ new.sender_id)
      × (old.recipient_id ≡ new.recipient_id)
      × (old.content ≡ new.content)
same_payload-inv old new h = ground (
  arith,
  text_eq_iff old.sender_id new.sender_id,
  text_eq_iff old.recipient_id new.recipient_id,
  text_eq_iff old.content new.content,
)

same_payload_refl : (m : Message) (now : ℕ) → same_payload m (record m { sent_at_ms = now }) ≡ true
same_payload_refl m now =
    ground (arith, text_eq_refl m.sender_id, text_eq_refl m.recipient_id, text_eq_refl m.content)

insert_message_again :
    (m : Message) (now : ℕ) (rows : List Message) {r : Receipt} {rows' : List Message}
    → insert_message m (find_message m.message_id rows) rows ≡ ok (r, rows')
    → insert_message (record m { sent_at_ms = now }) (find_message m.message_id rows') rows'
      ≡ ok (record r { inserted = false }, rows')
insert_message_again m now rows {r} {rows'} e =
    elim (Option-cases (find_message m.message_id rows)) [
      | inl f ↦ ground (arith, find_message_self m rows, same_payload_refl m now)
      | inr (old, f) ↦ elim (Bool-cases (same_payload old m)) [
        | inl same ↦ ground arith
        | inr differ ↦ ground arith
      ]
    ]

-- A message that was sent can be sent again, at any time: the file stays as it is, and the answer is the
-- first one but that nothing was inserted.
pub send_message_again :
    (owner peer : Text) (message_id content : Value) (now now' : ℕ) (rows : List Message)
    {r : Receipt} {rows' : List Message}
    → send_message owner peer message_id content now rows ≡ ok (r, rows')
    → send_message owner peer message_id content now' rows'
      ≡ ok (record r { inserted = false }, rows')
send_message_again owner peer message_id content now now' rows {r} {rows'} h =
    let (m, s, t, e) = send_message-IsSent owner peer message_id content now rows h in
    s.again now' rows' ∙ insert_message_again m now' rows e

-- Every message has a safe identifier, no other message has the same, its two endpoints differ, and its
-- content is 1 to 1000 characters without a null.
abbrev pub IsMessage : Message → Type 0
IsMessage m =
    (is_safe_id m.message_id ≡ true)
    × (text_eq m.sender_id m.recipient_id ≡ false)
    × (is_message m.content ≡ true)

abbrev pub IsRelay : List Message → Type 0
IsRelay [] = Unit
IsRelay (m ∷ rows) = IsMessage m × (find_message m.message_id rows ≡ none) × IsRelay rows

find_message-cons_ne :
    (m : Message) (id : Text) (rows : List Message) {x : Message}
    → find_message m.message_id rows ≡ none
    → find_message id rows ≡ some x
    → find_message id (m ∷ rows) ≡ some x
unfolding find_message
find_message-cons_ne m id rows f g = elim (Bool-cases (text_eq m.message_id id)) [
  | inl p ↦ let q = (text_eq_iff m.message_id id).0 p in cc (f, g, q)
  | inr p ↦ rw p g
]

insert_message-IsRelay :
    (m : Message) (rows : List Message) {r : Receipt} {rows' : List Message}
    → IsMessage m
    → IsRelay rows
    → insert_message m (find_message m.message_id rows) rows ≡ ok (r, rows')
    → IsRelay rows'
      × ((id : Text) (x : Message) → find_message id rows ≡ some x → find_message id rows' ≡ some x)
insert_message-IsRelay m rows {r} {rows'} v w e =
    elim (Option-cases (find_message m.message_id rows)) [
      | inl f ↦
          let q : rows' ≡ m ∷ rows = ground arith in
          rw q ((v, f, w), λ id x g. find_message-cons_ne m id rows f g)
      | inr (old, f) ↦ elim (Bool-cases (same_payload old m)) [
        | inl same ↦ let q : rows' ≡ rows = ground arith in rw q (w, λ id x g. g)
        | inr differ ↦ ground arith
      ]
    ]

-- Whatever is sent to it, the file of the relay stays well-formed, and each message that it holds reads
-- back unchanged.
pub send_message-IsRelay :
    (owner peer : Text) (message_id content : Value) (now : ℕ) (rows : List Message) {r : Receipt}
    {rows' : List Message}
    → IsRelay rows
    → send_message owner peer message_id content now rows ≡ ok (r, rows')
    → IsRelay rows'
      × ((id : Text) (x : Message) → find_message id rows ≡ some x → find_message id rows' ≡ some x)
send_message-IsRelay owner peer message_id content now rows {r} {rows'} w h =
    let (m, s, t, e) = send_message-IsSent owner peer message_id content now rows h in
    insert_message-IsRelay m rows (s.safe, cc (s.sender, s.recipient, s.apart), s.body) w e
