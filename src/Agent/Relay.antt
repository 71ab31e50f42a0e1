-- ===== src/Agent/Relay.antt =====
-- packages/native_agent/dogos_mcp/relay.py: the messages that two agents leave for each other. The relay's
-- file is the list of its rows, the last one first; the checks of its path are left out.
pub mod Send
pub mod Inbox
pub mod Delivery
pub mod Acknowledge
pub mod Delivered
pub mod Again
mod Tests
use mathlib.Core.List.{reverse}
use dogos_memory.Base.{
  Bool, List, Option, Result, Text, [], all, any, err, false, first, if◌then◌else◌, is_some, keep,
  leb, length, ltb, map, none, not, ok, or_raise, require, some, sort_by, take, text_eq, text_lt,
  true, ℕ, ◌&&◌, ◌==◌, ◌>>=◌, ◌>>◌, ◌||◌, ◌∷◌,
}
use dogos_memory.Memory.Models.{StoreError, fits}
use dogos_memory.Spaces.{strip}
use dogos_memory.Value.{Value, int_between, text}

abbrev is_id_start : ℕ → Bool
is_id_start c = fits b'A' b'Z' c || fits b'a' b'z' c || fits b'0' b'9' c

abbrev is_id_char : ℕ → Bool
is_id_char c = is_id_start c || c == b'.' || c == b'_' || c == b'-'

-- `_SAFE_ID`
unfoldable pub is_safe_id : Text → Bool
is_safe_id [] = false
is_safe_id (c ∷ t) = is_id_start c && all is_id_char t && leb (length t) 79

-- the codes of `RelayError`, and the errors of the memory stores
pub data RelayError : Type 0 where
  invalid_identifier invalid_message invalid_limit peer_is_owner : RelayError
  relay_conflict message_not_found memory_mode_mismatch : RelayError
  validation_failed : RelayError
  from_memory : StoreError → RelayError

abbrev pub Outcome : Type 0 → Type 0
Outcome A = Result RelayError A

-- `_safe_id`
abbrev pub safe_id : Value → Outcome Text
safe_id (text t) = if is_safe_id t then ok t else err invalid_identifier
safe_id _ = err invalid_identifier

-- `not content or len(content) > _MAX_MESSAGE_CHARS or "\x00" in content`, negated
unfoldable pub is_message : Text → Bool
is_message t = fits 1 1000 (length t) && not (any (λ c. c == 0) t)

-- `_message`
abbrev pub message_of : Value → Outcome Text
message_of (text t) = if is_message (strip t) then ok (strip t) else err invalid_message
message_of _ = err invalid_message

-- `_limit`
abbrev pub limit_of : Value → Outcome ℕ
limit_of v = or_raise (int_between 1 20 v) invalid_limit

-- a row of `relay_messages`
pub record Message : Type 0 where
  pub message_id : Text
  pub sender_id : Text
  pub recipient_id : Text
  pub content : Text
  pub sent_at_ms : ℕ
  pub acknowledged_at_ms : Option ℕ

pub record Receipt : Type 0 where
  pub message_id : Text
  pub sender : Text
  pub recipient : Text
  pub inserted : Bool
  pub sent_at_ms : ℕ

unfoldable pub find_message : Text → List Message → Option Message
find_message id rows = first (λ m. text_eq m.message_id id) rows

-- the two endpoints of a call
abbrev pub check_endpoints : Text → Text → Outcome (Unit {0})
check_endpoints owner peer = do
  require (is_safe_id owner) invalid_identifier
  require (is_safe_id peer) invalid_identifier

-- `health`: the number of messages
unfoldable pub health : Text → Text → List Message → Outcome ℕ
health owner peer rows = do
  check_endpoints owner peer
  require (not (text_eq owner peer)) peer_is_owner
  ok (length rows)

abbrev pub receipt : Bool → Message → Receipt
receipt inserted m = record {
  message_id = m.message_id;
  sender = m.sender_id;
  recipient = m.recipient_id;
  inserted = inserted;
  sent_at_ms = m.sent_at_ms;
}

abbrev pub same_payload : Message → Message → Bool
same_payload old new =
    text_eq old.sender_id new.sender_id
    && text_eq old.recipient_id new.recipient_id
    && text_eq old.content new.content

-- the transaction of `send_message`
abbrev pub insert_message :
    Message → Option Message → List Message → Outcome (Receipt × List Message)
insert_message m none rows = ok (receipt true m, m ∷ rows)
insert_message m (some old) rows =
    if same_payload old m
    then ok (record (receipt false m) { sent_at_ms = old.sent_at_ms }, rows)
    else err relay_conflict

-- `send_message` at the time `now`; a call that raises leaves the file as it was
unfoldable pub send_message :
    Text → Text → Value → Value → ℕ → List Message → Outcome (Receipt × List Message)
send_message owner peer message_id content now rows = do
  check_endpoints owner peer
  id ← safe_id message_id
  body ← message_of content
  require (not (text_eq owner peer)) peer_is_owner
  let m : Message = record {
    message_id = id;
    sender_id = owner;
    recipient_id = peer;
    content = body;
    sent_at_ms = now;
    acknowledged_at_ms = none;
  }
  insert_message m (find_message id rows) rows

pub record InboxItem : Type 0 where
  pub message_id : Text
  pub content : Text
  pub sent_at_ms : ℕ
  pub acknowledged : Bool

abbrev pub inbox_item : Message → InboxItem
inbox_item m = record {
  message_id = m.message_id;
  content = m.content;
  sent_at_ms = m.sent_at_ms;
  acknowledged = is_some m.acknowledged_at_ms;
}

-- `ORDER BY sent_at_ms DESC, message_id DESC`
abbrev pub sent_later : Message → Message → Bool
sent_later a b =
    ltb b.sent_at_ms a.sent_at_ms
    || (a.sent_at_ms == b.sent_at_ms && text_lt b.message_id a.message_id)

-- the WHERE of `list_inbox`
abbrev pub is_addressed : Text → Text → Message → Bool
is_addressed owner peer m = text_eq m.recipient_id owner && text_eq m.sender_id peer

unfoldable pub inbox_rows : Text → Text → ℕ → List Message → List Message
inbox_rows owner peer limit rows =
    take limit (sort_by sent_later (keep (is_addressed owner peer) rows))

-- `list_inbox`
unfoldable pub list_inbox : Text → Text → Value → List Message → Outcome (List InboxItem)
list_inbox owner peer limit rows = do
  check_endpoints owner peer
  bounded ← limit_of limit
  ok (map inbox_item (inbox_rows owner peer bounded rows))
