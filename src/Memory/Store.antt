-- ===== src/Memory/Store.antt =====
-- packages/dogos_memory/store.py and queries.py: a store is a file bound to its owner. Each
-- operation is one transaction, so a call that raises leaves the file as it was.
pub mod Insert
pub mod Replay
pub mod History
pub mod Found
pub mod Sound
pub mod Affinity
pub mod Recall
use dogos_memory.Base.{
  Bool, List, Option, Text, [], err, false, if◌then◌else◌, insert_by, keep, leb, ltb, map, none,
  not, ok, or_raise, same_set, some, sort_by, take, text_eq, text_lt, true, ℕ, ◌&&◌, ◌==◌, ◌>>=◌,
  ◌>>◌, ◌||◌, ◌∷◌,
}
use dogos_memory.Memory.Database.{
  Database, Evidence, Relationship, Row, Store, find_row, insert_evidence, insert_memory,
  read_profile,
}
use dogos_memory.Memory.Models.{
  AppendResult, MemoryInput, Payload-discrete, RecallRequest, RecallResult, StoredMemory,
  idempotency_conflict, invalid_memory, is_completed, is_thought, memory_not_found,
}

-- the subselect of `MEMORY_SELECT`: the evidence of one thought, by ascending id
unfoldable pub evidence_of : Text → List Evidence → List Text
evidence_of id [] = []
evidence_of id (e ∷ es) =
    if text_eq e.thought_id id
    then insert_by text_lt e.evidence_id (evidence_of id es)
    else evidence_of id es

-- `MEMORY_SELECT`: a row as the caller reads it
unfoldable pub stored : Database → Row → StoredMemory
stored db r = record {
  input = record { payload = r.payload; evidence_ids = evidence_of r.memory_id db.memory_evidence };
  recorded_at_ms = r.recorded_at_ms;
}

abbrev pub map_option {ℓ κ} : {A : Type ℓ} {B : Type κ} → (A → B) → Option A → Option B
map_option f none = none
map_option f (some a) = some (f a)

-- `queries.find_memory`
unfoldable pub find_memory : Database → Text → Option StoredMemory
find_memory db id = map_option (stored db) (find_row id db.memories)

abbrev pub affinity_in : Text → List Relationship → ℕ
affinity_in peer [] = 0
affinity_in peer (x ∷ xs) = if text_eq x.peer_id peer then x.affinity else affinity_in peer xs

-- `queries.affinity`
unfoldable pub affinity : Database → Text → ℕ
affinity db peer = affinity_in peer db.relationships

-- `executemany` of the links after the first
unfoldable pub insert_links : Text → List Text → Database → Option Database
insert_links id [] db = some db
insert_links id (e ∷ es) db =
    elim (insert_evidence (record { thought_id = id; evidence_id = e }) db) [
      | none ↦ none
      | some db' ↦ insert_links id es db'
    ]

abbrev pub anchor_of : List Text → Option Text
anchor_of [] = none
anchor_of (e ∷ es) = some e

abbrev pub tail_of : List Text → List Text
tail_of [] = []
tail_of (e ∷ es) = es

-- the row that `append` inserts at the time `now`
abbrev pub new_row : MemoryInput → ℕ → Row
new_row m now = record {
  payload = m.payload;
  recorded_at_ms = now;
  evidence_anchor_id = anchor_of m.evidence_ids;
}

abbrev pub and_then {ℓ} : {A B : Type ℓ} → Option A → (A → Option B) → Option B
and_then none f = none
and_then (some a) f = f a

-- both INSERTs of `append`
unfoldable pub insert_all : MemoryInput → ℕ → Database → Option Database
insert_all m now db =
    and_then (insert_memory (new_row m now) db) (insert_links m.memory_id (tail_of m.evidence_ids))

-- `a == b and rest` on a decision of the equation
abbrev pub when_yes {ℓ} : {A : Type ℓ} → Dec A → Bool → Bool
when_yes (yes _) rest = rest
when_yes (no _) rest = false

-- whether a replay carries the payload and the evidence that are stored
unfoldable pub same_memory : MemoryInput → MemoryInput → Bool
same_memory old new =
    when_yes (Payload-discrete old.payload new.payload) (same_set old.evidence_ids new.evidence_ids)

abbrev pub append_result : MemoryInput → Bool → Database → AppendResult × Database
append_result m inserted db =
    (record { memory_id = m.memory_id; inserted = inserted; affinity = affinity db m.peer_id }, db)

abbrev pub append_previous :
    MemoryInput → ℕ → Database → Option StoredMemory → Store (AppendResult × Database)
append_previous m now db (some previous) =
    if same_memory previous.input m then ok (append_result m false db) else err idempotency_conflict
append_previous m now db none = do
  db' ← or_raise (insert_all m now db) invalid_memory
  ok (append_result m true db')

-- `MemoryStore.append`; `now` is the clock in milliseconds
unfoldable pub append : Text → MemoryInput → ℕ → Database → Store (AppendResult × Database)
append owner_id m now db = do
  _ ← read_profile db owner_id
  append_previous m now db (find_memory db m.memory_id)

-- `MemoryStore.get`
unfoldable pub get : Text → Text → Database → Store StoredMemory
get owner_id id db = do _ ← read_profile db owner_id; or_raise (find_memory db id) memory_not_found

-- `ORDER BY occurred_at_ms DESC, memory_id DESC`
abbrev pub newer : StoredMemory → StoredMemory → Bool
newer a b =
    ltb b.occurred_at_ms a.occurred_at_ms
    || (a.occurred_at_ms == b.occurred_at_ms && text_lt b.memory_id a.memory_id)

-- `ORDER BY occurred_at_ms ASC, memory_id ASC`
abbrev pub older : StoredMemory → StoredMemory → Bool
older a b =
    ltb a.occurred_at_ms b.occurred_at_ms
    || (a.occurred_at_ms == b.occurred_at_ms && text_lt a.memory_id b.memory_id)

-- the WHERE of `FACTS`, of `THOUGHTS` and of `SESSION`
abbrev pub is_fact_of : Text → StoredMemory → Bool
is_fact_of peer m = text_eq m.peer_id peer && not (is_thought m.kind) && is_completed m.result

abbrev pub is_thought_of : Text → StoredMemory → Bool
is_thought_of peer m = text_eq m.peer_id peer && is_thought m.kind

abbrev pub is_in_session : Text → StoredMemory → Bool
is_in_session session m = text_eq m.session_id session

unfoldable pub select : Database → List StoredMemory
select db = map (stored db) db.memories

unfoldable pub facts : Database → Text → ℕ → List StoredMemory
facts db peer limit = take limit (sort_by newer (keep (is_fact_of peer) (select db)))

unfoldable pub thoughts : Database → Text → ℕ → List StoredMemory
thoughts db peer limit = take limit (sort_by newer (keep (is_thought_of peer) (select db)))

-- `MemoryStore.recall`
unfoldable pub recall : Text → RecallRequest → Database → Store RecallResult
recall owner_id request db = do
  profile ← read_profile db owner_id
  let score = affinity db request.peer_id
  ok (record {
    profile = profile;
    peer_id = request.peer_id;
    affinity = score;
    familiar = leb profile.familiar_threshold score;
    facts = facts db request.peer_id request.limit;
    thoughts = thoughts db request.peer_id request.limit;
  })

-- `MemoryStore.list_session`
unfoldable pub list_session : Text → Text → Database → Store (List StoredMemory)
list_session owner_id session_id db = do
  _ ← read_profile db owner_id
  ok (sort_by older (keep (is_in_session session_id) (select db)))
