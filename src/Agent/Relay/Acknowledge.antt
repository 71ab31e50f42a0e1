-- ===== src/Agent/Relay/Acknowledge.antt =====
-- What a call of `acknowledge_message` comes down to.
use dogos_memory.Agent.Relay.{Message, RelayError, find_message, is_addressed, is_safe_id}
use dogos_memory.Agent.Relay.Delivery.{
  Acknowledgement, RelayState, acknowledge_message, acknowledged_result, deliver, deliver_sender,
  delivery, mode_of, prepare, same_mode,
}
use dogos_memory.Base.{
  Option-cases, Result-cases, Text, ap, arith, codes, err, inl, inr, ok, refl, some, sym, true, ℕ,
  ◌∙◌, ◌≡◌,
}
use dogos_memory.Memory.Database.{Database}
use dogos_memory.Memory.Models.{AppendResult, MemoryInput, Mode, is_valid_input}
use dogos_memory.Memory.Store.{append}
use dogos_memory.Value.{text}

module _ (owner peer : Text) (id : Text) (s : RelayState) where
  abbrev pub received_of : Mode → Message → MemoryInput
  received_of mode m = delivery peer (codes "agent_message_received") mode m

  abbrev pub sent_of : Mode → Message → MemoryInput
  sent_of mode m = delivery owner (codes "agent_message_delivered") mode m

  -- what `prepare` has found and built
  pub record IsPrepared (mode : Mode) (m : Message) : Type 0 where
    pub owner_safe : is_safe_id owner ≡ true
    pub peer_safe : is_safe_id peer ≡ true
    pub safe : is_safe_id id ≡ true
    pub found : find_message id s.messages ≡ some m
    pub addressed : is_addressed owner peer m ≡ true
    pub owner_mode : mode_of owner peer s.owner_db ≡ ok mode
    pub peer_mode : mode_of peer owner s.peer_db ≡ ok mode
    pub received_valid : is_valid_input (received_of mode m) ≡ true
    pub sent_valid : is_valid_input (sent_of mode m) ≡ true

  same_mode→eq : (a b : Mode) → same_mode a b ≡ true → a ≡ b
  same_mode→eq a b h = ground arith

  prepare-inv :
      {m : Message} {received sent : MemoryInput}
      → prepare owner peer (text id) s ≡ ok (m, received, sent)
      → (mode : Mode) × IsPrepared mode m
        × (received ≡ received_of mode m)
        × (sent ≡ sent_of mode m)
  unfolding prepare
  prepare-inv {m} h = elim (Result-cases (mode_of owner peer s.owner_db)) [
    | inr (e, p) ↦ ground arith
    | inl (a, p) ↦ elim (Result-cases (mode_of peer owner s.peer_db)) [
      | inr (e, q) ↦ ground arith
      | inl (b, q) ↦ elim (Option-cases (find_message id s.messages)) [
        | inl f ↦ ground arith
        | inr (m', f) ↦
            let same : m' ≡ m = ground arith in
            let modes : a ≡ b = ground (arith, same_mode→eq a b) in
            (
              a,
              record {
                owner_safe = ground arith;
                peer_safe = ground arith;
                safe = ground arith;
                found = f ∙ ap some same;
                addressed = ground arith;
                owner_mode = p;
                peer_mode = q ∙ ap ok (sym modes);
                received_valid = ground arith;
                sent_valid = ground arith;
              },
              ground arith,
              ground arith,
            )
      ]
    ]
  ]

  same_mode_refl : (a : Mode) → same_mode a a ≡ true
  same_mode_refl a = ground arith

  pub prepare_of :
      {mode : Mode} {m : Message}
      → IsPrepared mode m
      → prepare owner peer (text id) s ≡ ok (m, received_of mode m, sent_of mode m)
  unfolding prepare
  prepare_of {mode} p =
      rw
        (
          p.owner_safe, p.peer_safe, p.safe, p.found, p.addressed, p.owner_mode, p.peer_mode,
          p.received_valid, p.sent_valid,
        )
        (rw (same_mode_refl mode) refl)

  -- a call that succeeded
  pub record IsAcknowledged (first_at second_at now : ℕ) (a : Acknowledgement) (s' : RelayState)
      (mode : Mode) (m : Message) : Type 0 where
    pub prepared : IsPrepared mode m
    pub received : AppendResult
    pub sent : AppendResult
    pub first_append :
        append owner (received_of mode m) first_at s.owner_db ≡ ok (received, s'.owner_db)
    pub second_append : append peer (sent_of mode m) second_at s.peer_db ≡ ok (sent, s'.peer_db)
    pub answer :
        acknowledged_result m received sent now
          (record s { owner_db = s'.owner_db; peer_db = s'.peer_db })
        ≡ (ok a, s')

  module _ (first_at second_at now : ℕ) where
    pub acknowledge_message-inv :
        {a : Acknowledgement} {s' : RelayState}
        → acknowledge_message owner peer (text id) first_at second_at now s ≡ (ok a, s')
        → (mode : Mode) × (m : Message) × IsAcknowledged first_at second_at now a s' mode m
    unfolding acknowledge_message
    acknowledge_message-inv {a} {s'} h = elim (Result-cases (prepare owner peer (text id) s)) [
      | inr (e, p) ↦ ground arith
      | inl ((m, received, sent), p) ↦
          let (mode, q, u, v) = prepare-inv p in
          elim (Result-cases (append owner received first_at s.owner_db)) [
            | inr (e, x) ↦ ground arith
            | inl ((r, db), x) ↦ elim (Result-cases (append peer sent second_at s.peer_db)) [
              | inr (e, y) ↦ ground arith
              | inl ((r', db'), y) ↦ (
                mode,
                m,
                record {
                  prepared = q;
                  received = r;
                  sent = r';
                  first_append = ground arith;
                  second_append = ground arith;
                  answer = ground arith;
                },
              )
            ]
          ]
    ]

    pub acknowledge_message_of :
        {mode : Mode} {m : Message} {r r' : AppendResult} {db db' : Database}
        → IsPrepared mode m
        → append owner (received_of mode m) first_at s.owner_db ≡ ok (r, db)
        → append peer (sent_of mode m) second_at s.peer_db ≡ ok (r', db')
        → acknowledge_message owner peer (text id) first_at second_at now s
          ≡ acknowledged_result m r r' now (record s { owner_db = db; peer_db = db' })
    unfolding acknowledge_message
    acknowledge_message_of p x y =
        rw (prepare_of p, acknowledge_message) (rw (x, deliver) (rw (y, deliver_sender) refl))

    -- the messages are left alone by a call that raises
    pub acknowledge_message-err :
        {e : RelayError} {s' : RelayState}
        → acknowledge_message owner peer (text id) first_at second_at now s ≡ (err e, s')
        → s'.messages ≡ s.messages
    unfolding acknowledge_message
    acknowledge_message-err {e} {s'} h = elim (Result-cases (prepare owner peer (text id) s)) [
      | inr (e, p) ↦ ground arith
      | inl ((m, received, sent), p) ↦
          elim (Result-cases (append owner received first_at s.owner_db)) [
            | inr (e, x) ↦ ground arith
            | inl ((r, db), x) ↦ elim (Result-cases (append peer sent second_at s.peer_db)) [
              | inr (e, y) ↦ ground arith
              | inl ((r', db'), y) ↦ ground arith
            ]
          ]
    ]
