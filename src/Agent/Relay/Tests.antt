-- ===== src/Agent/Relay/Tests.antt =====
-- Concrete messages of packages/native_agent/dogos_mcp/relay.py: tests of the model, and the theorems at
-- inputs where their hypotheses hold.
use dogos_memory.Agent.Relay.{
  Message, Outcome, Receipt, find_message, inbox_rows, invalid_message, is_message, is_safe_id,
  list_inbox, peer_is_owner, receipt, relay_conflict, send_message,
}
use dogos_memory.Agent.Relay.Again.{acknowledge_message_again}
use dogos_memory.Agent.Relay.Delivered.{IsDelivered, acknowledge_message-IsDelivered}
use dogos_memory.Agent.Relay.Delivery.{
  Acknowledgement, RelayState, acknowledge_message, delivery, delivery_id, mark_row, mode_of,
  prepare,
}
use dogos_memory.Agent.Relay.Send.{IsRelay, send_message-IsRelay, send_message_again}
use dogos_memory.Base.{Text, [], codes, err, false, none, ok, refl, some, text_eq, true, ◌∷◌, ◌≡◌}
use dogos_memory.Memory.Database.{
  Database, check_schema, find_row, insert_memory, new_file, read_profile, row_checks,
}
use dogos_memory.Memory.Models.{Mode, Profile, is_valid_input}
use dogos_memory.Memory.Store.{append, find_memory, insert_all, insert_links, recall}
use dogos_memory.Spaces.{drop_spaces, is_space}
use dogos_memory.Value.{int_between, text}

abbrev mail_a : Text
mail_a = codes "dog_a"

abbrev mail_b : Text
mail_b = codes "dog_b"

abbrev hello : Message
hello = record {
  message_id = codes "m-1";
  sender_id = mail_b;
  recipient_id = mail_a;
  content = codes "hello there";
  sent_at_ms = 1000;
  acknowledged_at_ms = none;
}

abbrev sent_once : Receipt
sent_once = receipt true hello

relay : Unit {0}
unfolding send_message is_safe_id is_message drop_spaces is_space find_message text_eq list_inbox
    inbox_rows int_between
relay = tt

-- the spaces around the content are removed
hello_sent :
    send_message mail_b mail_a (text (codes "m-1")) (text (codes "  hello there ")) 1000 []
    ≡ ok (sent_once, hello ∷ [])
unfolding relay
hello_sent = refl

other_content :
    send_message mail_b mail_a (text (codes "m-1")) (text (codes "hello")) 2000 (hello ∷ [])
    ≡ err relay_conflict
unfolding relay
other_content = refl

to_oneself :
    send_message mail_b mail_b (text (codes "m-1")) (text (codes "hello")) 2000 []
    ≡ err peer_is_owner
unfolding relay
to_oneself = refl

blank_message :
    send_message mail_b mail_a (text (codes "m-1")) (text (codes "   ")) 2000 []
    ≡ err invalid_message
unfolding relay
blank_message = refl

send_message_again_example :
    send_message mail_b mail_a
      (text (codes "m-1"))
      (text (codes "  hello there "))
      5000
      (hello ∷ [])
    ≡ ok (record sent_once { inserted = false }, hello ∷ [])
send_message_again_example =
    send_message_again mail_b mail_a (text (codes "m-1")) (text (codes "  hello there ")) 1000 5000
      [] hello_sent

send_message-IsRelay_example :
    IsRelay (hello ∷ [])
    × ((id : Text) (x : Message)
        → find_message id [] ≡ some x
        → find_message id (hello ∷ []) ≡ some x)
send_message-IsRelay_example =
    send_message-IsRelay mail_b mail_a (text (codes "m-1")) (text (codes "  hello there ")) 1000 []
      tt hello_sent

abbrev mail_profile : Text → Profile
mail_profile id = record {
  dog_id = id;
  name = id;
  personality = codes "calm";
  familiar_threshold = 50;
  mode = Mode.simulation;
}

abbrev mail_file : Text → Database
mail_file id = record new_file {
  user_version = 1;
  has_tables = true;
  profile = some (mail_profile id);
}

abbrev before : RelayState
before = record { messages = hello ∷ []; owner_db = mail_file mail_a; peer_db = mail_file mail_b }

abbrev call : Outcome Acknowledgement × RelayState
call = acknowledge_message mail_a mail_b (text (codes "m-1")) 1500 1501 1502 before

abbrev acknowledged_once : Acknowledgement
acknowledged_once = record {
  message_id = codes "m-1";
  receiver_memory_inserted = true;
  sender_memory_inserted = true;
  acknowledged_at_ms = 1502;
}

hello_acknowledged : call ≡ (ok acknowledged_once, call.1)
unfolding acknowledge_message prepare is_safe_id find_message text_eq mode_of recall read_profile
    check_schema is_valid_input delivery delivery_id append find_memory find_row insert_all
    insert_memory insert_links row_checks mark_row
hello_acknowledged = refl

acknowledge_message-IsDelivered_example :
    IsDelivered mail_a mail_b (codes "m-1") before (ok acknowledged_once) call.1
acknowledge_message-IsDelivered_example =
    acknowledge_message-IsDelivered mail_a mail_b (codes "m-1") before 1500 1501 1502
      hello_acknowledged

acknowledge_message_again_example :
    acknowledge_message mail_a mail_b (text (codes "m-1")) 1600 1601 1602 call.1 ≡ (
      ok (record acknowledged_once {
        receiver_memory_inserted = false;
        sender_memory_inserted = false;
      }),
      call.1,
    )
acknowledge_message_again_example =
    acknowledge_message_again mail_a mail_b (codes "m-1") before tt tt 1500 1501 1502 1600 1601 1602
      hello_acknowledged
