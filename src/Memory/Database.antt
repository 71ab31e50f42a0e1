-- ===== src/Memory/Database.antt =====
-- packages/dogos_memory/database.py and schema.sql: the tables of one file, with the CHECK
-- constraints and triggers of the schema written out, and the functions that open and check it.
use dogos_memory.Base.{
  Bool, List, Option, Result, Text, [], any, err, false, first, if◌then◌else◌, is_some, leb, ltb,
  max, min, none, not, ok, or_raise, require, some, text_eq, true, ℕ, ◌&&◌, ◌+◌, ◌==◌, ◌>>=◌, ◌>>◌,
  ◌||◌, ◌∷◌,
}
use dogos_memory.Memory.Models.{
  Kind, Mode, Payload, Profile, Profile-discrete, Source, StoreError, fits, is_completed,
  is_derived, is_event, is_llm, is_thought, owner_mismatch, profile_mismatch, profile_missing,
  schema_version_mismatch, thought, unrecognized_database,
}

-- a row of `memories`; `recorded_at_ms` and the anchor stand beside the caller's payload
pub record Row : Type 0 where
  pub payload : Payload
  pub open payload use *
  pub recorded_at_ms : ℕ
  pub evidence_anchor_id : Option Text

pub record Relationship : Type 0 where
  pub peer_id : Text
  pub affinity : ℕ
  pub updated_at_ms : ℕ

-- a row of `memory_evidence`
pub record Evidence : Type 0 where
  pub thought_id : Text
  pub evidence_id : Text

pub record Database : Type 0 where
  pub user_version : ℕ
  -- whether `sqlite_master` lists a table that is not SQLite's own
  pub has_tables : Bool
  pub profile : Option Profile
  pub memories : List Row
  pub memory_evidence : List Evidence
  pub relationships : List Relationship

abbrev pub schema_version : ℕ
schema_version = 1

-- a file that SQLite has just created
abbrev pub new_file : Database
new_file = record {
  user_version = 0;
  has_tables = false;
  profile = none;
  memories = [];
  memory_evidence = [];
  relationships = [];
}

abbrev pub Store : Type 0 → Type 0
Store A = Result StoreError A

unfoldable pub check_schema : Database → Store Unit
check_schema db = require (db.user_version == schema_version) schema_version_mismatch

-- `read_profile`
unfoldable pub read_profile : Database → Text → Store Profile
read_profile db owner_id = do
  check_schema db
  profile ← or_raise db.profile profile_missing
  require (text_eq profile.dog_id owner_id) owner_mismatch
  ok profile

-- `executescript(schema.sql)` on a file without tables
abbrev create_schema : Database → Database
create_schema db = record db { user_version = schema_version; has_tables = true }

abbrev check_profile : Database → Profile → Option Profile → Store Database
check_profile db profile none = ok (record db { profile = some profile })
check_profile db profile (some existing) = elim (Profile-discrete existing profile) [
  | yes _ ↦ ok db
  | no _ ↦ err profile_mismatch
]

-- `initialize`: the file after it; the schema's transaction is committed before the profile's
unfoldable pub initialize : Database → Profile → Store Database
initialize db profile = do
  require (not (db.user_version == 0 && db.has_tables)) unrecognized_database
  let created = if db.user_version == 0 then create_schema db else db
  check_schema created
  check_profile created profile created.profile

-- `length(trim(x)) > 0`: SQLite's `trim` removes spaces, and its `length` stops at a NUL
abbrev pub is_non_blank : Text → Bool
is_non_blank [] = false
is_non_blank (c ∷ t) = let rest = is_non_blank t in if c == 32 then rest else not (c == 0)

abbrev is_reviewer : Source → Bool
is_reviewer Source.llm = true
is_reviewer Source.operator = true
is_reviewer _ = false

-- the two table-level CHECKs of `memories`
abbrev contract_check : Row → Kind → Bool
contract_check r thought =
    is_derived r.result
    && is_reviewer r.source
    && r.affinity_delta == 0
    && is_some r.evidence_anchor_id
contract_check r _ =
    not (is_derived r.result) && not (is_llm r.source) && not (is_some r.evidence_anchor_id)

unfoldable pub row_checks : Row → Bool
row_checks r =
    is_non_blank r.memory_id
    && is_non_blank r.session_id
    && is_non_blank r.peer_id
    && is_non_blank r.event_type
    && is_non_blank r.content
    && fits 1 10 r.importance
    && leb r.affinity_delta 100
    && contract_check r r.kind
    && (r.affinity_delta == 0 || (is_event r.kind && is_completed r.result))

abbrev pub is_simulation : Source → Bool
is_simulation Source.simulation = true
is_simulation _ = false

abbrev pub mode_matches : Mode → Row → Bool
mode_matches Mode.live r = is_thought r.kind || not (is_simulation r.source)
mode_matches Mode.simulation r = is_thought r.kind || is_simulation r.source

-- trigger `memories_scope`: false where it raises
abbrev pub scope_check : Option Profile → Row → Bool
scope_check none r = false
scope_check (some profile) r = not (text_eq r.peer_id profile.dog_id) && mode_matches profile.mode r

abbrev pub has_id : Text → Row → Bool
has_id id r = text_eq r.memory_id id

unfoldable pub find_row : Text → List Row → Option Row
find_row id rows = first (has_id id) rows

-- trigger `evidence_validate`, on the rows that the two ids name
abbrev pub evidence_ok : Option Row → Option Row → Bool
evidence_ok (some t) (some e) =
    is_thought t.kind
    && not (is_thought e.kind)
    && is_completed e.result
    && text_eq t.peer_id e.peer_id
    && leb e.occurred_at_ms t.occurred_at_ms
evidence_ok _ _ = false

abbrev pub same_link : Evidence → Evidence → Bool
same_link a b = text_eq a.thought_id b.thought_id && text_eq a.evidence_id b.evidence_id

-- `INSERT INTO memory_evidence`: `none` is an IntegrityError
unfoldable pub insert_evidence : Evidence → Database → Option Database
insert_evidence link db =
    if not (text_eq link.thought_id link.evidence_id)
      && evidence_ok (find_row link.thought_id db.memories) (find_row link.evidence_id db.memories)
      && not (any (same_link link) db.memory_evidence)
    then some (record db { memory_evidence = link ∷ db.memory_evidence })
    else none

-- trigger `relationship_from_event`
unfoldable pub upsert_relationship : Row → List Relationship → List Relationship
upsert_relationship r [] =
    record { peer_id = r.peer_id; affinity = r.affinity_delta; updated_at_ms = r.occurred_at_ms }
    ∷ []
upsert_relationship r (x ∷ xs) =
    if text_eq x.peer_id r.peer_id
    then record x {
      affinity = min 100 (x.affinity + r.affinity_delta);
      updated_at_ms = max x.updated_at_ms r.occurred_at_ms;
    }
      ∷ xs
    else x ∷ upsert_relationship r xs

abbrev pub relationships_after : Row → Database → List Relationship
relationships_after r db =
    if ltb 0 r.affinity_delta then upsert_relationship r db.relationships else db.relationships

-- trigger `thought_anchor`; a thought without an anchor does not pass the CHECKs
abbrev pub insert_anchor : Kind → Text → Option Text → Database → Option Database
insert_anchor thought id (some anchor) db =
    insert_evidence (record { thought_id = id; evidence_id = anchor }) db
insert_anchor _ id anchor db = some db

-- `INSERT INTO memories` with its triggers: `none` is an IntegrityError
unfoldable pub insert_memory : Row → Database → Option Database
insert_memory r db =
    if row_checks r && scope_check db.profile r && not (is_some (find_row r.memory_id db.memories))
    then insert_anchor r.kind r.memory_id r.evidence_anchor_id
        (record db { memories = r ∷ db.memories; relationships = relationships_after r db })
    else none
