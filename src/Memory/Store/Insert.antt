-- ===== src/Memory/Store/Insert.antt =====
-- What the INSERTs of `append` change, and what they leave alone.
use dogos_memory.Base.{
  Bool-cases, List, Option, Option-cases, Result-cases, Text, [], arith, false, inl, inr, none, ok,
  some, true, ℕ, ◌∷◌, ◌≡◌, ◌⊎◌,
}
use dogos_memory.Memory.Database.{
  Database, Evidence, Row, evidence_ok, find_row, insert_anchor, insert_evidence, insert_memory,
  read_profile, relationships_after, row_checks, scope_check,
}
use dogos_memory.Memory.Models.{AppendResult, Kind, MemoryInput, thought}
use dogos_memory.Memory.Store.{
  anchor_of, append, append_result, find_memory, insert_all, insert_links, new_row, same_memory,
  tail_of,
}

-- A link that is accepted is added, and nothing else changes.
pub insert_evidence-inv :
    (e : Evidence) (db : Database) {db' : Database}
    → insert_evidence e db ≡ some db'
    → (db' ≡ record db { memory_evidence = e ∷ db.memory_evidence })
      × (evidence_ok (find_row e.thought_id db.memories) (find_row e.evidence_id db.memories)
          ≡ true)
unfolding insert_evidence
insert_evidence-inv e db h = ground arith

-- The links of one thought, newest first.
abbrev pub links : Text → List Text → List Evidence → List Evidence
links id [] es = es
links id (x ∷ xs) es = links id xs (record { thought_id = id; evidence_id = x } ∷ es)

pub insert_links-inv :
    (id : Text) (xs : List Text) (db : Database) {db' : Database}
    → insert_links id xs db ≡ some db'
    → db' ≡ record db { memory_evidence = links id xs db.memory_evidence }
unfolding insert_links
insert_links-inv id [] db h = ground arith
insert_links-inv id (x ∷ xs) db {db'} h =
    elim (Option-cases (insert_evidence (record { thought_id = id; evidence_id = x }) db)) [
      | inl e ↦ ground arith
      | inr (d, e) ↦ ground (
        arith,
        insert_evidence-inv (record { thought_id = id; evidence_id = x }) db e,
        insert_links-inv id xs d {db' = db'} (ground arith),
      )
    ]

-- A row that is accepted passed every check, and is added with its anchor and its score.
pub insert_memory-inv :
    (r : Row) (db : Database) {db' : Database}
    → insert_memory r db ≡ some db'
    → (row_checks r ≡ true)
      × (scope_check db.profile r ≡ true)
      × (find_row r.memory_id db.memories ≡ none)
      × (insert_anchor r.kind r.memory_id r.evidence_anchor_id
            (record db { memories = r ∷ db.memories; relationships = relationships_after r db })
          ≡ some db')
unfolding insert_memory
insert_memory-inv r db h = ground arith

-- The links that a row's anchor adds.
abbrev pub anchored : Kind → Text → Option Text → List Evidence → List Evidence
anchored thought id (some x) es = record { thought_id = id; evidence_id = x } ∷ es
anchored _ id anchor es = es

pub insert_anchor-inv :
    (k : Kind) (id : Text) (anchor : Option Text) (db : Database) {db' : Database}
    → insert_anchor k id anchor db ≡ some db'
    → db' ≡ record db { memory_evidence = anchored k id anchor db.memory_evidence }
insert_anchor-inv thought id (some x) db h =
    (insert_evidence-inv (record { thought_id = id; evidence_id = x }) db h).0
insert_anchor-inv thought id none db h = ground arith
insert_anchor-inv k id anchor db h = ground arith

-- The file after both INSERTs of `append`.
unfoldable pub after_insert : MemoryInput → ℕ → Database → Database
after_insert m now db = record db {
  memories = new_row m now ∷ db.memories;
  relationships = relationships_after (new_row m now) db;
  memory_evidence =
      links m.memory_id (tail_of m.evidence_ids)
        (anchored m.kind m.memory_id (anchor_of m.evidence_ids) db.memory_evidence);
}

pub insert_all-inv :
    (m : MemoryInput) (now : ℕ) (db : Database) {db' : Database}
    → insert_all m now db ≡ some db'
    → (db' ≡ after_insert m now db)
      × (find_row m.memory_id db.memories ≡ none)
      × (scope_check db.profile (new_row m now) ≡ true)
      × (row_checks (new_row m now) ≡ true)
unfolding insert_all after_insert
insert_all-inv m now db {db'} h = elim (Option-cases (insert_memory (new_row m now) db)) [
  | inl e ↦ ground arith
  | inr (d, e) ↦
      let (checked, scoped, fresh, rest) = insert_memory-inv (new_row m now) db e in
      let anchor =
        insert_anchor-inv m.kind m.memory_id (anchor_of m.evidence_ids)
          (record db {
            memories = new_row m now ∷ db.memories;
            relationships = relationships_after (new_row m now) db;
          })
          rest in
      let more =
        insert_links-inv m.memory_id (tail_of m.evidence_ids) d {db' = db'} (ground arith) in
      (ground (arith, anchor, more), fresh, scoped, checked)
]

-- How a successful `append` ended: on a replay the file is unchanged, else both INSERTs went through.
pub append-inv :
    (owner : Text) (m : MemoryInput) (now : ℕ) (db : Database) {r : AppendResult} {db' : Database}
    → append owner m now db ≡ ok (r, db')
    → (r ≡ (append_result m r.inserted db').0)
      × (((r.inserted ≡ false) × (db' ≡ db))
          ⊎ ((r.inserted ≡ true)
              × (insert_all m now db ≡ some db')
              × (db' ≡ after_insert m now db)
              × (find_row m.memory_id db.memories ≡ none)
              × (scope_check db.profile (new_row m now) ≡ true)
              × (row_checks (new_row m now) ≡ true)))
append-inv owner m now db {r} {db'} h = elim (Result-cases (read_profile db owner)) [
  | inr (e, q) ↦ unfold append in ground arith
  | inl (p, q) ↦ elim (Option-cases (find_memory db m.memory_id)) [
    | inr (old, f) ↦ elim (Bool-cases (same_memory old.input m)) [
      | inl same ↦ unfold append in (ground arith, inl (ground arith, ground arith))
      | inr differ ↦ unfold append in ground arith
    ]
    | inl f ↦ elim (Option-cases (insert_all m now db)) [
      | inl g ↦ unfold append in ground arith
      | inr (d, g) ↦
          let (after, fresh, scoped, checked) = insert_all-inv m now db g in
          unfold append in
          (
            ground arith,
            inr (ground arith, ground arith, ground (arith, after), fresh, scoped, checked),
          )
    ]
  ]
]
