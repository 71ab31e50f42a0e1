-- ===== src/Memory/Store/Affinity.antt =====
-- The relationship score against its specification: what the events about a peer add up to.
use dogos_memory.Base.{
  List, Text, [], ap, arith, if◌then◌else◌, inl, inr, min, ok, refl, text_eq, text_eq_iff, true, ℕ,
  ◌+◌, ◌∙◌, ◌∷◌, ◌≡◌, ◌≤◌,
}
use dogos_memory.Memory.Database.{Database, Relationship, Row, row_checks, upsert_relationship}
use dogos_memory.Memory.Models.{AppendResult, MemoryInput}
use dogos_memory.Memory.Store.{affinity, affinity_in, append, new_row}
use dogos_memory.Memory.Store.Insert.{after_insert, append-inv}

-- The sum of `affinity_delta` over the rows about a peer.
abbrev pub score : Text → List Row → ℕ
score peer [] = 0
score peer (r ∷ rows) = (if text_eq r.peer_id peer then r.affinity_delta else 0) + score peer rows

-- Every score is that sum, up to the ceiling of 100.
abbrev pub IsScored : Database → Type 0
IsScored db = (peer : Text) → affinity db peer ≡ min 100 (score peer db.memories)

affinity_in-upsert :
    (r : Row) (xs : List Relationship) (peer : Text)
    → r.affinity_delta ≤ 100
    → affinity_in peer (upsert_relationship r xs) ≡ (
        if text_eq r.peer_id peer
        then min 100 (affinity_in peer xs + r.affinity_delta)
        else affinity_in peer xs)
unfolding upsert_relationship
affinity_in-upsert r [] peer h = ground arith
affinity_in-upsert r (x ∷ xs) peer h = ground (
  arith,
  text_eq_iff x.peer_id r.peer_id,
  text_eq_iff x.peer_id peer,
  text_eq_iff r.peer_id peer,
  affinity_in-upsert r xs peer h,
)

affinity-after_insert :
    (m : MemoryInput) (now : ℕ) (db : Database) (peer : Text)
    → m.affinity_delta ≤ 100
    → affinity db peer ≤ 100
    → affinity (after_insert m now db) peer ≡ (
        if text_eq m.peer_id peer
        then min 100 (affinity db peer + m.affinity_delta)
        else affinity db peer)
unfolding affinity after_insert
affinity-after_insert m now db peer h k =
    ground (arith, affinity_in-upsert (new_row m now) db.relationships peer h)

score-after_insert :
    (m : MemoryInput) (now : ℕ) (db : Database) (peer : Text)
    → score peer (after_insert m now db).memories
      ≡ (if text_eq m.peer_id peer then m.affinity_delta else 0) + score peer db.memories
unfolding after_insert
score-after_insert m now db peer = refl

delta_le : (r : Row) → row_checks r ≡ true → r.affinity_delta ≤ 100
unfolding row_checks
delta_le r h = ground arith

-- Whatever is appended, each peer's score stays the sum of what its events add, at most 100, and
-- the call reports the score of the memory's peer.
pub append-IsScored :
    (owner : Text) (m : MemoryInput) (now : ℕ) (db : Database) {r : AppendResult} {db' : Database}
    → IsScored db
    → append owner m now db ≡ ok (r, db')
    → IsScored db' × (r.affinity ≡ min 100 (score m.peer_id db'.memories))
append-IsScored owner m now db {r} {db'} s h =
    let (reported, ended) = append-inv owner m now db h in
    let kept : IsScored db' = elim ended [
      | inl (_, same) ↦ rw same s
      | inr (_, _, after, _, _, checked) ↦ rw after λ peer. ground (
        arith,
        s peer,
        affinity-after_insert m now db peer (delta_le (new_row m now) checked),
        score-after_insert m now db peer,
      )
    ] in
    (kept, ap (λ (a : AppendResult). a.affinity) reported ∙ kept m.peer_id)
