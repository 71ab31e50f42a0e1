-- ===== src/Memory/Store/History.antt =====
-- The file is append-only: what was stored reads back unchanged after any later call, and a stored
-- identifier keeps its payload.
use dogos_memory.Base.{
  Bool-cases, List, Option-cases, Text, [], arith, err, false, inl, inr, none, ok, same_set, some,
  text_eq, text_eq_iff, true, ℕ, ◌∷◌, ◌≡◌, ◌⊎◌,
}
use dogos_memory.Memory.Database.{Database, Row, find_row, read_profile}
use dogos_memory.Memory.Models.{
  AppendResult, MemoryInput, Profile, StoredMemory, idempotency_conflict,
}
use dogos_memory.Memory.Store.{
  anchor_of, append, append_result, find_memory, same_memory, stored, tail_of,
}
use dogos_memory.Memory.Store.Insert.{after_insert, anchored, append-inv}
use dogos_memory.Memory.Store.Replay.{
  evidence_of-anchored_ne, evidence_of-links_ne, find_row-after_insert_ne,
  read_profile-after_insert, same_memory-inv, same_memory_of,
}

stored-after_insert :
    (m : MemoryInput) (now : ℕ) (db : Database) (r : Row)
    → text_eq m.memory_id r.memory_id ≡ false
    → stored (after_insert m now db) r ≡ stored db r
unfolding stored after_insert
stored-after_insert m now db r ne = ground (
  arith,
  evidence_of-links_ne m.memory_id r.memory_id (tail_of m.evidence_ids)
      (anchored m.kind m.memory_id (anchor_of m.evidence_ids) db.memory_evidence) ne,
  evidence_of-anchored_ne m.kind m.memory_id r.memory_id (anchor_of m.evidence_ids)
      db.memory_evidence ne,
)

pub memory_id-find_row :
    (id : Text) (rows : List Row) (r : Row) → find_row id rows ≡ some r → r.memory_id ≡ id
unfolding find_row
memory_id-find_row id [] r h = cc
memory_id-find_row id (x ∷ rows) r h =
    ground (arith, text_eq_iff x.memory_id id, memory_id-find_row id rows r)

-- An identifier that is not there differs from one that is.
pub fresh_ne :
    (new id : Text) (rows : List Row) (r : Row)
    → find_row new rows ≡ none
    → find_row id rows ≡ some r
    → text_eq new id ≡ false
fresh_ne new id rows r h f = ground (arith, text_eq_iff new id)

find_memory-after_insert_ne :
    (m : MemoryInput) (now : ℕ) (db : Database) (id : Text) (x : StoredMemory)
    → find_row m.memory_id db.memories ≡ none
    → find_memory db id ≡ some x
    → find_memory (after_insert m now db) id ≡ some x
unfolding find_memory
find_memory-after_insert_ne m now db id x fresh f = elim (Option-cases (find_row id db.memories)) [
  | inl e ↦ ground arith
  | inr (r, e) ↦
      let ne = fresh_ne m.memory_id id db.memories r fresh e in
      let same = memory_id-find_row id db.memories r e in
      ground (
        arith,
        find_row-after_insert_ne m now db id ne,
        stored-after_insert m now db r (ground arith),
      )
]

-- A stored memory reads back the same after every later `append`, whatever it appends.
pub append_only :
    (owner id : Text) (m : MemoryInput) (now : ℕ) (db : Database) {r : AppendResult}
    {db' : Database} {x : StoredMemory}
    → append owner m now db ≡ ok (r, db')
    → find_memory db id ≡ some x
    → find_memory db' id ≡ some x
append_only owner id m now db {r} {db'} {x} h f = elim (append-inv owner m now db h).1 [
  | inl (_, same) ↦ rw same f
  | inr (_, _, after, fresh, _, _) ↦ rw after (find_memory-after_insert_ne m now db id x fresh f)
]

pub read_profile-append :
    (owner : Text) (m : MemoryInput) (now : ℕ) (db : Database) {r : AppendResult} {db' : Database}
    → append owner m now db ≡ ok (r, db')
    → read_profile db' owner ≡ read_profile db owner
read_profile-append owner m now db h = elim (append-inv owner m now db h).1 [
  | inl (_, same) ↦ rw same
  | inr (_, _, after, _, _, _) ↦ rw after (read_profile-after_insert m now db owner)
]

same_memory-cases :
    (old new : MemoryInput)
    → ((same_memory old new ≡ true)
        × (old.payload ≡ new.payload)
        × (same_set old.evidence_ids new.evidence_ids ≡ true))
      ⊎ ((same_memory old new ≡ false)
          × ¬ ((old.payload ≡ new.payload) × (same_set old.evidence_ids new.evidence_ids ≡ true)))
same_memory-cases old new = elim (Bool-cases (same_memory old new)) [
  | inl e ↦ let (q, t) = same_memory-inv old new e in inl (e, q, t)
  | inr e ↦ inr (e, λ both. cc (same_memory_of old new both.0 both.1, e))
]

-- In a file of the given owner, where the identifier is stored, `append` succeeds exactly if the payload
-- and the set of evidence are those that are stored, and then changes nothing; otherwise it raises
-- idempotency_conflict.
pub append_stored :
    (owner : Text) (m : MemoryInput) (now : ℕ) (db : Database) (p : Profile) (old : StoredMemory)
    → read_profile db owner ≡ ok p
    → find_memory db m.memory_id ≡ some old
    → ((append owner m now db ≡ ok (append_result m false db))
        × (old.payload ≡ m.payload)
        × (same_set old.evidence_ids m.evidence_ids ≡ true))
      ⊎ ((append owner m now db ≡ err idempotency_conflict)
          × ¬ ((old.payload ≡ m.payload) × (same_set old.evidence_ids m.evidence_ids ≡ true)))
unfolding append
append_stored owner m now db p old e f = elim (same_memory-cases old.input m) [
  | inl (same, q, s) ↦ inl (rw (e, f) (rw same), q, s)
  | inr (differ, n) ↦ inr (rw (e, f) (rw differ), n)
]
