-- ===== src/Memory/Models.antt =====
-- packages/dogos_memory/models.py: profiles, observations and retrieved memory. A value is what a
-- pydantic model holds after construction; the constraints of its fields are Boolean tests.
use native.Mathlib.Decide.{ℕ_discrete}
use dogos_memory.Base.{
  Bool, List, Text, [], all, false, is_distinct, leb, length, not, true, ℕ, ◌&&◌, ◌==◌, ◌||◌, ◌∷◌,
}

pub data Mode : Type 0 where
  live simulation : Mode

pub data Kind : Type 0 where
  event chat thought : Kind

pub data Source : Type 0 where
  robot_feedback operator llm simulation : Source

-- the field `result`
pub data Outcome : Type 0 where
  completed failed unconfirmed derived : Outcome

pub record Profile : Type 0 where
  pub dog_id : Text
  pub name : Text
  pub personality : Text
  pub familiar_threshold : ℕ
  pub mode : Mode

-- `MemoryInput` without its evidence: what `model_dump(exclude={"evidence_ids"})` keeps.
pub record Payload : Type 0 where
  pub memory_id : Text
  pub session_id : Text
  pub peer_id : Text
  pub kind : Kind
  pub event_type : Text
  pub content : Text
  pub occurred_at_ms : ℕ
  pub source : Source
  pub result : Outcome
  pub importance : ℕ
  pub affinity_delta : ℕ

pub record MemoryInput : Type 0 where
  pub payload : Payload
  pub open payload use *
  pub evidence_ids : List Text

pub record StoredMemory : Type 0 where
  pub input : MemoryInput
  pub open input use *
  pub recorded_at_ms : ℕ

pub record RecallRequest : Type 0 where
  pub peer_id : Text
  pub limit : ℕ

pub record RecallResult : Type 0 where
  pub profile : Profile
  pub peer_id : Text
  pub affinity : ℕ
  pub familiar : Bool
  pub facts : List StoredMemory
  pub thoughts : List StoredMemory

pub record AppendResult : Type 0 where
  pub memory_id : Text
  pub inserted : Bool
  pub affinity : ℕ

-- the codes of `StoreError`; the details are diagnostics
pub data StoreError : Type 0 where
  idempotency_conflict invalid_memory memory_not_found : StoreError
  schema_version_mismatch profile_missing owner_mismatch : StoreError
  unrecognized_database profile_mismatch : StoreError

pub Payload-discrete : Discrete Payload
Payload-discrete = hlevel ℕ_discrete

pub Profile-discrete : Discrete Profile
Profile-discrete = hlevel ℕ_discrete

-- string and number constraints of the fields; texts are stripped by pydantic before they are kept
abbrev pub fits : ℕ → ℕ → ℕ → Bool
fits lo hi n = leb lo n && leb n hi

abbrev pub is_identifier : Text → Bool
is_identifier t = fits 1 200 (length t)

abbrev pub is_text : Text → Bool
is_text t = fits 1 8000 (length t)

abbrev pub max_timestamp : ℕ
max_timestamp = 9223372036854775807

unfoldable pub payload_fields_valid : Payload → Bool
payload_fields_valid m =
    is_identifier m.memory_id
    && is_identifier m.session_id
    && is_identifier m.peer_id
    && is_text m.event_type
    && is_text m.content
    && leb m.occurred_at_ms max_timestamp
    && fits 1 10 m.importance
    && leb m.affinity_delta 100

abbrev is_llm_or_operator : Source → Bool
is_llm_or_operator Source.llm = true
is_llm_or_operator Source.operator = true
is_llm_or_operator _ = false

abbrev pub is_llm : Source → Bool
is_llm Source.llm = true
is_llm _ = false

abbrev pub is_completed : Outcome → Bool
is_completed completed = true
is_completed _ = false

abbrev pub is_derived : Outcome → Bool
is_derived derived = true
is_derived _ = false

abbrev pub is_event : Kind → Bool
is_event event = true
is_event _ = false

abbrev pub is_thought : Kind → Bool
is_thought thought = true
is_thought _ = false

abbrev pub is_empty {ℓ} : {A : Type ℓ} → List A → Bool
is_empty [] = true
is_empty (x ∷ xs) = false

-- a fact may score only as a completed event
abbrev fact_valid : MemoryInput → Bool
fact_valid m =
    not (is_derived m.result)
    && not (is_llm m.source)
    && is_empty m.evidence_ids
    && (m.affinity_delta == 0 || (is_event m.kind && is_completed m.result))

abbrev kind_valid : Kind → MemoryInput → Bool
kind_valid thought m =
    is_derived m.result
    && is_llm_or_operator m.source
    && m.affinity_delta == 0
    && not (is_empty m.evidence_ids)
kind_valid event m = fact_valid m
kind_valid chat m = fact_valid m

-- `check_memory_contract`: true where the model validator returns, false where it raises
unfoldable pub check_memory_contract : MemoryInput → Bool
check_memory_contract m = kind_valid m.kind m && is_distinct m.evidence_ids

-- what the constructor `MemoryInput(...)` accepts
unfoldable pub is_valid_input : MemoryInput → Bool
unfolding payload_fields_valid check_memory_contract
is_valid_input m =
    payload_fields_valid m.payload && all is_identifier m.evidence_ids && check_memory_contract m
