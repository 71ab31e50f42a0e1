-- ===== src/Memory/Store/Found.antt =====
-- What a successful call of `append` leaves under the identifier.
use dogos_memory.Base.{
  Bool-cases, Option-cases, Result-cases, Text, arith, inl, inr, ok, refl, some, ℕ, ◌≡◌,
}
use dogos_memory.Memory.Database.{Database, read_profile}
use dogos_memory.Memory.Models.{AppendResult, MemoryInput, StoredMemory}
use dogos_memory.Memory.Store.{append, find_memory, insert_all, new_row, same_memory, stored}
use dogos_memory.Memory.Store.Insert.{after_insert, append-inv}
use dogos_memory.Memory.Store.Replay.{find_memory-after_insert, same_memory-inv}

-- After a successful `append`, new or replayed, the identifier reads back with the payload.
pub append-found :
    (owner : Text) (m : MemoryInput) (now : ℕ) (db : Database) {r : AppendResult} {db' : Database}
    → append owner m now db ≡ ok (r, db')
    → (x : StoredMemory) × (find_memory db' m.memory_id ≡ some x) × (x.payload ≡ m.payload)
append-found owner m now db {r} {db'} h = elim (append-inv owner m now db h).1 [
  | inr (_, _, after, _, _, _) ↦ (
    stored (after_insert m now db) (new_row m now),
    rw after (find_memory-after_insert m now db),
    unfold stored in refl,
  )
  | inl (replayed, same) ↦ elim (Result-cases (read_profile db owner)) [
    | inr (e, q) ↦ unfold append in ground arith
    | inl (p, q) ↦ elim (Option-cases (find_memory db m.memory_id)) [
      | inl f ↦ elim (Option-cases (insert_all m now db)) [
        | inl g ↦ unfold append in ground arith
        | inr (d, g) ↦ unfold append in ground arith
      ]
      | inr (old, f) ↦ elim (Bool-cases (same_memory old.input m)) [
        | inl s ↦ (old, rw same f, (same_memory-inv old.input m s).0)
        | inr s ↦ unfold append in ground arith
      ]
    ]
  ]
]
