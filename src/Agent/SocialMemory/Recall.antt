-- ===== src/Agent/SocialMemory/Recall.antt =====
-- packages/native_agent/dogos_adapter/adapter.py: `recall`, from its arguments to its response.
use dogos_memory.Agent.SocialMemory.Budget.{
  Category, append_with_budget, facts_of, max_chars, thoughts_of,
}
use dogos_memory.Agent.SocialMemory.Size.{Item, Response, response_size}
use dogos_memory.Base.{
  Bool, List, Result, Text, [], all, err, false, if◌then◌else◌, leb, length, ltb, not, ok, or_raise,
  require, take, text_eq, true, ℕ, ◌&&◌, ◌==◌, ◌>>=◌, ◌>>◌, ◌∷◌,
}
use dogos_memory.Memory.Database.{Database, Store}
use dogos_memory.Memory.Models.{RecallResult, StoreError, StoredMemory, fits}
use dogos_memory.Memory.Store.{recall}
use dogos_memory.Spaces.{strip}
use dogos_memory.Value.{Value, int_between}

-- the codes of `DogOSAdapterError`
pub data AdapterError : Type 0 where
  invalid_identifier invalid_integer peer_is_owner output_budget_error backend_error : AdapterError
  from_backend : StoreError → AdapterError

abbrev pub Adapted : Type 0 → Type 0
Adapted A = Result AdapterError A

-- `_identifier`
unfoldable pub is_printable : Text → Bool
is_printable t = all (λ c. leb 32 c && not (c == 127)) t

abbrev pub identifier : Text → Adapted Text
identifier t =
    if fits 1 200 (length (strip t)) && is_printable (strip t)
    then ok (strip t)
    else err invalid_identifier

-- `_strict_int` from 1 to 20
abbrev pub strict_int : Value → Adapted ℕ
strict_int v = or_raise (int_between 1 20 v) invalid_integer

-- `_backend_error`: the codes of `_SAFE_BACKEND_ERRORS` are passed on
abbrev pub from_error : StoreError → AdapterError
from_error StoreError.idempotency_conflict = from_backend StoreError.idempotency_conflict
from_error StoreError.invalid_memory = from_backend StoreError.invalid_memory
from_error StoreError.owner_mismatch = from_backend StoreError.owner_mismatch
from_error StoreError.profile_missing = from_backend StoreError.profile_missing
from_error StoreError.schema_version_mismatch = from_backend StoreError.schema_version_mismatch
from_error _ = backend_error

abbrev pub from_recall : Store RecallResult → Adapted RecallResult
from_recall (ok r) = ok r
from_recall (err e) = err (from_error e)

-- the first `n` of the evidence that the item shows, and whether there is more
abbrev pub max_evidence : ℕ
max_evidence = 8

-- `_memory_item`
abbrev pub memory_item : StoredMemory → Item
memory_item m = record {
  memory_id = m.memory_id;
  kind = m.kind;
  event_type = m.event_type;
  content = m.content;
  content_truncated = false;
  occurred_at_ms = m.occurred_at_ms;
  source = m.source;
  result = m.result;
  importance = m.importance;
  evidence_ids = take max_evidence m.evidence_ids;
  evidence_ids_truncated = ltb max_evidence (length m.evidence_ids);
}

-- `for item in items`, until one does not fit; whether the budget is exhausted
unfoldable pub add_items : Category → List StoredMemory → Response → Response × Bool
add_items category [] r = (r, false)
add_items category (m ∷ ms) r =
    let (r', more) = append_with_budget category (memory_item m) r in
    let rest = add_items category ms r' in if more then rest else (r', true)

abbrev pub empty_response : Text → Text → RecallResult → Response
empty_response owner peer result = record {
  owner_id = owner;
  peer_id = peer;
  affinity = result.affinity;
  familiar = result.familiar;
  facts = [];
  thoughts = [];
  truncated = false;
}

-- the two loops
unfoldable pub filled : Text → Text → RecallResult → Response
filled owner peer result =
    let (r, exhausted) = add_items facts_of result.facts (empty_response owner peer result) in
    if exhausted then r else (add_items thoughts_of result.thoughts r).0

-- the last check, and the answer
abbrev pub answered : Text → Text → RecallResult → Adapted Response
answered owner peer result = do
  let response = filled owner peer result
  require (leb (response_size response) max_chars) output_budget_error
  ok response

-- `_recall_social_memory`, which `BoundSocialMemory.recall` calls
unfoldable pub recall_social_memory : Text → Text → Value → Database → Adapted Response
recall_social_memory owner_id peer_id limit db = do
  owner ← identifier owner_id
  peer ← identifier peer_id
  bounded ← strict_int limit
  require (not (text_eq owner peer)) peer_is_owner
  result ← from_recall (recall owner (record { peer_id = peer; limit = bounded }) db)
  answered owner peer result
