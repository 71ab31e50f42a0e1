-- ===== src/Memory/Tests.antt =====
-- Concrete files of packages/dogos_memory: tests of the model, and the theorems at inputs where
-- their hypotheses hold.
use dogos_memory.Base.{
  Bool, Text, [], arith, codes, err, false, map, min, ok, refl, same_set, some, text_eq, true, ℕ,
  ◌&&◌, ◌↔◌, ◌∷◌, ◌≡◌, ◌≤◌, ◌⊎◌,
}
use dogos_memory.Memory.Database.{
  Database, check_schema, find_row, initialize, insert_evidence, insert_memory, new_file,
  read_profile, row_checks, upsert_relationship,
}
use dogos_memory.Memory.Models.{
  AppendResult, MemoryInput, Mode, Profile, RecallResult, Source, StoredMemory,
  check_memory_contract, completed, derived, event, idempotency_conflict, is_valid_input, thought,
}
use dogos_memory.Memory.Store.{
  affinity, append, append_result, evidence_of, find_memory, insert_all, insert_links, is_fact_of,
  is_thought_of, new_row, newer, recall, stored,
}
use dogos_memory.Memory.Store.Affinity.{IsScored, append-IsScored, score}
use dogos_memory.Memory.Store.Found.{append-found}
use dogos_memory.Memory.Store.History.{append_only, append_stored}
use dogos_memory.Memory.Store.Recall.{recall_newest}
use dogos_memory.Memory.Store.Replay.{append_replay}
use dogos_memory.Memory.Store.Sound.{IsSound, append-IsSound}
use dogos_memory.Newest.{IsNewestOf}

abbrev owner : Text
owner = codes "dog_a"

abbrev peer : Text
peer = codes "dog_b"

abbrev profile_a : Profile
profile_a = record {
  dog_id = owner;
  name = codes "Alpha";
  personality = codes "cautious";
  familiar_threshold = 15;
  mode = Mode.simulation;
}

abbrev greeting : MemoryInput
greeting = record {
  payload = record {
    memory_id = codes "m1";
    session_id = codes "s1";
    peer_id = peer;
    kind = event;
    event_type = codes "action_completed";
    content = codes "hello";
    occurred_at_ms = 1000;
    source = Source.simulation;
    result = completed;
    importance = 5;
    affinity_delta = 20;
  };
  evidence_ids = [];
}

abbrev impression : MemoryInput
impression = record {
  payload = record {
    memory_id = codes "m2";
    session_id = codes "s1";
    peer_id = peer;
    kind = thought;
    event_type = codes "impression";
    content = codes "friendly";
    occurred_at_ms = 1001;
    source = Source.llm;
    result = derived;
    importance = 5;
    affinity_delta = 0;
  };
  evidence_ids = codes "m1" ∷ [];
}

abbrev changed : MemoryInput
changed = record {
  payload = record (greeting.payload) { content = codes "other" };
  evidence_ids = [];
}

abbrev db0 : Database
db0 = record new_file { user_version = 1; has_tables = true; profile = some profile_a }

abbrev db1 : Database
db1 = record db0 {
  memories = new_row greeting 2000 ∷ [];
  relationships = record { peer_id = peer; affinity = 20; updated_at_ms = 1000 } ∷ [];
}

abbrev db2 : Database
db2 = record db1 {
  memories = new_row impression 2001 ∷ new_row greeting 2000 ∷ [];
  memory_evidence = record { thought_id = codes "m2"; evidence_id = codes "m1" } ∷ [];
}

abbrev result_of : MemoryInput → Bool → ℕ → AppendResult
result_of m inserted score = record {
  memory_id = m.memory_id;
  inserted = inserted;
  affinity = score;
}

initialize_new : initialize new_file profile_a ≡ ok db0
unfolding initialize check_schema
initialize_new = refl

initialize_again : initialize db2 profile_a ≡ ok db2
unfolding initialize check_schema
initialize_again = ground arith

inputs_valid : (is_valid_input greeting && is_valid_input impression) ≡ true
unfolding is_valid_input text_eq
inputs_valid = refl

unsupported_thought : check_memory_contract (record impression { evidence_ids = [] }) ≡ false
unfolding check_memory_contract
unsupported_thought = refl

append-greeting : append owner greeting 2000 db0 ≡ ok (result_of greeting true 20, db1)
unfolding append read_profile check_schema text_eq find_memory find_row insert_all insert_memory
    row_checks upsert_relationship insert_links affinity
append-greeting = refl

append-impression : append owner impression 2001 db1 ≡ ok (result_of impression true 20, db2)
unfolding append read_profile check_schema text_eq find_memory find_row insert_all insert_memory
    row_checks upsert_relationship insert_links insert_evidence affinity stored evidence_of
append-impression = refl

append_replay_example : append owner greeting 3000 db1 ≡ ok (result_of greeting false 20, db1)
append_replay_example = append_replay owner greeting 2000 3000 db0 tt append-greeting

find_greeting :
    find_memory db1 (codes "m1") ≡ some (record { input = greeting; recorded_at_ms = 2000 })
unfolding find_memory find_row stored evidence_of text_eq
find_greeting = refl

append_only_example :
    find_memory db2 (codes "m1") ≡ some (record { input = greeting; recorded_at_ms = 2000 })
append_only_example =
    append_only owner (codes "m1") impression 2001 db1 append-impression find_greeting

profile_read : read_profile db1 owner ≡ ok profile_a
unfolding read_profile check_schema text_eq
profile_read = refl

append_stored_example :
    ((append owner changed 9 db1 ≡ ok (append_result changed false db1))
      × (greeting.payload ≡ changed.payload)
      × (same_set greeting.evidence_ids changed.evidence_ids ≡ true))
    ⊎ ((append owner changed 9 db1 ≡ err idempotency_conflict)
        × ¬ (
            (greeting.payload ≡ changed.payload)
            × (same_set greeting.evidence_ids changed.evidence_ids ≡ true)))
append_stored_example =
    append_stored owner changed 9 db1 profile_a (record { input = greeting; recorded_at_ms = 2000 })
      profile_read find_greeting

db0-IsSound : IsSound db0
db0-IsSound = record { grounded = tt; evidenced = tt; scoped = tt; checked = tt }

db1-IsSound : IsSound db1
unfolding row_checks text_eq
db1-IsSound = record {
  grounded = tt;
  evidenced = (refl, tt);
  scoped = (refl, tt);
  checked = (refl, tt);
}

append-IsSound_example : IsSound db2
append-IsSound_example = append-IsSound owner impression 2001 db1 db1-IsSound append-impression

db0-IsScored : IsScored db0
unfolding affinity
db0-IsScored dog = refl

append-IsScored_example : IsScored db1 × (20 ≡ min 100 (score peer db1.memories))
append-IsScored_example = append-IsScored owner greeting 2000 db0 db0-IsScored append-greeting

recall_newest_example :
    (r : RecallResult) × (recall owner (record { peer_id = peer; limit = 3 }) db1 ≡ ok r)
    × IsNewestOf newer (is_fact_of peer) 3 (map (stored db1) db1.memories) r.facts
    × IsNewestOf newer (is_thought_of peer) 3 (map (stored db1) db1.memories) r.thoughts
    × (r.affinity ≡ affinity db1 peer)
    × ((r.familiar ≡ true) ↔ (15 ≤ affinity db1 peer))
recall_newest_example =
    recall_newest owner (record { peer_id = peer; limit = 3 }) db1 profile_a profile_read

append-found_example :
    (x : StoredMemory) × (find_memory db2 (codes "m2") ≡ some x) × (x.payload ≡ impression.payload)
append-found_example = append-found owner impression 2001 db1 append-impression
