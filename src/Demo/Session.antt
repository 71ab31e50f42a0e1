-- ===== src/Demo/Session.antt =====
-- packages/dogos_demo/session_models.py: commands, receipts, reports and session summaries. What a
-- constructor accepts is a Boolean test on the value; the code raises ValidationError where it is
-- false.
use dogos_memory.Base.{
  Bool, List, Option, Text, [], all, false, if◌then◌else◌, is_some, leb, length, not, text_eq, true,
  ℕ, ◌&&◌, ◌++◌, ◌+◌, ◌==◌, ◌||◌, ◌∷◌,
}
use dogos_memory.Demo.Models.{IdentityDecision}
use dogos_memory.Memory.Models.{Mode, StoreError, fits, is_empty, max_timestamp}

pub data ActionName : Type 0 where
  outgoing_greeting cautious_reply familiar_greeting warm_reply : ActionName

pub data ReceiptStatus : Type 0 where
  completed service_acknowledged failed cancelled : ReceiptStatus

pub data CompletionSource : Type 0 where
  robot_feedback operator simulation : CompletionSource

pub data SessionStatus : Type 0 where
  completed aborted : SessionStatus

pub data AbortReason : Type 0 where
  identity_not_confirmed stop_requested service_unconfirmed action_failed : AbortReason
  action_cancelled routing_conflict completion_source_mismatch persistence_pending : AbortReason

pub record ActionCommand : Type 0 where
  pub command_id : Text
  pub session_id : Text
  pub step : ℕ
  pub actor_id : Text
  pub target_id : Text
  pub adapter_id : Text
  pub action : ActionName
  pub issued_at_ms : ℕ
  pub memory_reference_id : Option Text

-- `[A-Za-z0-9]`, and `[A-Za-z0-9._-]`
abbrev is_alnum : ℕ → Bool
is_alnum c = (leb b'0' c && leb c b'9') || (leb b'A' c && leb c b'Z') || (leb b'a' c && leb c b'z')

abbrev pub is_session_char : ℕ → Bool
is_session_char c = is_alnum c || c == b'.' || c == b'_' || c == b'-'

abbrev starts_alnum : Text → Bool
starts_alnum [] = false
starts_alnum (c ∷ cs) = is_alnum c

-- `SessionIdentifier`
unfoldable pub is_session_identifier : Text → Bool
is_session_identifier t = fits 1 100 (length t) && starts_alnum t && all is_session_char t

abbrev pub slash : ℕ
slash = b'/'

-- `str(step)` for the steps 1 and 2 that a command may have
abbrev pub digit : ℕ → ℕ
digit n = b'0' + n

-- `f"{session_id}/{actor_id}/{step}"`
unfoldable pub command_id_of : Text → Text → ℕ → Text
command_id_of session actor step = session ++ (slash ∷ (actor ++ (slash ∷ digit step ∷ [])))

-- the fields and `check_command_contract`
unfoldable pub check_command : ActionCommand → Bool
unfolding command_id_of is_session_identifier
check_command c =
    fits 1 400 (length c.command_id)
    && is_session_identifier c.session_id
    && fits 1 2 c.step
    && leb c.issued_at_ms max_timestamp
    && not (text_eq c.actor_id c.target_id)
    && text_eq c.command_id (command_id_of c.session_id c.actor_id c.step)

pub record ActionReceipt : Type 0 where
  pub status : ReceiptStatus
  pub command_id : Text
  pub adapter_id : Text
  pub occurred_at_ms : ℕ
  pub source : Option CompletionSource
  pub detail : Text

abbrev is_completed_receipt : ReceiptStatus → Bool
is_completed_receipt ReceiptStatus.completed = true
is_completed_receipt _ = false

-- `check_receipt_contract`, and the bounds of the fields
unfoldable pub check_receipt : ActionReceipt → Bool
check_receipt r =
    leb r.occurred_at_ms max_timestamp
    && fits 1 1000 (length r.detail)
    && (if is_completed_receipt r.status then is_some r.source else not (is_some r.source))

pub record DogMemoryView : Type 0 where
  pub dog_id : Text
  pub peer_id : Text
  pub affinity : ℕ
  pub familiar : Bool
  pub latest_memory_id : Option Text

pub record PairSnapshot : Type 0 where
  pub mode : Mode
  pub cautious : DogMemoryView
  pub outgoing : DogMemoryView

pub record PersistenceIssue : Type 0 where
  pub owner_id : Text
  pub code : StoreError

pub record CommandReport : Type 0 where
  pub command : ActionCommand
  pub receipt : ActionReceipt
  pub replayed : Bool
  pub persisted_owner_ids : List Text
  pub persistence_issues : List PersistenceIssue

pub record SessionSummary : Type 0 where
  pub session_id : Text
  pub status : SessionStatus
  pub abort_reason : Option AbortReason
  pub identity : IdentityDecision
  pub initiator_id : Option Text
  pub before : PairSnapshot
  pub after : PairSnapshot
  pub commands : List CommandReport

abbrev pub is_persisted : CommandReport → Bool
is_persisted r = is_completed_receipt r.receipt.status && is_empty r.persistence_issues

abbrev session_valid : SessionStatus → SessionSummary → Bool
session_valid SessionStatus.completed s =
    not (is_some s.abort_reason)
    && is_some s.initiator_id
    && length s.commands == 2
    && all is_persisted s.commands
session_valid aborted s = is_some s.abort_reason && leb (length s.commands) 2

-- the field `session_id` and `check_session_contract`
unfoldable pub check_session : SessionSummary → Bool
check_session s = is_session_identifier s.session_id && session_valid s.status s
