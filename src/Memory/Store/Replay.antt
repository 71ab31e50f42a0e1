-- ===== src/Memory/Store/Replay.antt =====
-- `append` under replay: the evidence that a thought reads back, and a second call with the same
-- memory.
use dogos_memory.Base.{
  All, Bool, Bool-cases, List, Option, Option-cases, Result-cases, Text, [], arith, contains, false,
  inl, inr, insert_by, is_some, is_subset, none, ok, refl, same_set, some, sym, text_eq,
  text_eq_iff, text_eq_refl, text_lt, true, ℕ, ◌||◌, ◌∙◌, ◌∷◌, ◌≡◌,
}
use dogos_memory.Memory.Database.{
  Database, Evidence, Row, check_schema, find_row, read_profile, row_checks,
}
use dogos_memory.Memory.Models.{
  AppendResult, Kind, MemoryInput, Payload-discrete, Profile, chat, event, thought,
}
use dogos_memory.Memory.Store.{
  anchor_of, append, append_result, evidence_of, find_memory, insert_all, new_row, same_memory,
  stored, tail_of, when_yes,
}
use dogos_memory.Memory.Store.Insert.{after_insert, anchored, insert_all-inv, links}

contains-insert_by :
    (x e : Text) (xs : List Text)
    → contains x (insert_by text_lt e xs) ≡ (text_eq x e || contains x xs)
contains-insert_by x e [] = refl
contains-insert_by x e (y ∷ xs) = ground (arith, contains-insert_by x e xs)

contains-evidence_of :
    (x id : Text) (xs : List Text) (es : List Evidence)
    → contains x (evidence_of id (links id xs es))
      ≡ (contains x xs || contains x (evidence_of id es))
unfolding evidence_of
contains-evidence_of x id [] es = refl
contains-evidence_of x id (y ∷ xs) es = ground (
  arith,
  text_eq_refl id,
  contains-insert_by x y (evidence_of id es),
  contains-evidence_of x id xs (record { thought_id = id; evidence_id = y } ∷ es),
)

-- The links of one thought do not show in another.
pub evidence_of-links_ne :
    (id j : Text) (xs : List Text) (es : List Evidence)
    → text_eq id j ≡ false
    → evidence_of j (links id xs es) ≡ evidence_of j es
unfolding evidence_of
evidence_of-links_ne id j [] es h = refl
evidence_of-links_ne id j (x ∷ xs) es h =
    ground
      (arith, evidence_of-links_ne id j xs (record { thought_id = id; evidence_id = x } ∷ es) h)

pub evidence_of-anchored_ne :
    (k : Kind) (id j : Text) (anchor : Option Text) (es : List Evidence)
    → text_eq id j ≡ false
    → evidence_of j (anchored k id anchor es) ≡ evidence_of j es
unfolding evidence_of
evidence_of-anchored_ne thought id j (some x) es h = ground arith
evidence_of-anchored_ne k id j anchor es h = ground arith

is_subset_of :
    (xs ys : List Text)
    → ((x : Text) → contains x xs ≡ true → contains x ys ≡ true)
    → is_subset xs ys ≡ true
is_subset_of [] ys h = refl
is_subset_of (x ∷ xs) ys h =
    ground (arith, text_eq_refl x, h x, is_subset_of xs ys (λ y p. h y (ground (arith, p))))

same_set_of :
    (xs ys : List Text) → ((x : Text) → contains x xs ≡ contains x ys) → same_set xs ys ≡ true
same_set_of xs ys h =
    ground (arith, is_subset_of xs ys (λ x p. sym (h x) ∙ p), is_subset_of ys xs (λ x p. h x ∙ p))

-- Every link belongs to a row that is there: the foreign key of `thought_id`.
abbrev pub IsLinked : Database → Type 0
IsLinked db = All (λ e. is_some (find_row e.thought_id db.memories) ≡ true) db.memory_evidence

evidence_of-none :
    (id : Text) (rows : List Row) (es : List Evidence)
    → All (λ e. is_some (find_row e.thought_id rows) ≡ true) es
    → find_row id rows ≡ none
    → evidence_of id es ≡ []
unfolding evidence_of
evidence_of-none id rows [] h e = refl
evidence_of-none id rows (x ∷ es) h e =
    ground (arith, text_eq_iff x.thought_id id, evidence_of-none id rows es h.1 e)

-- The anchor and the other links are the links of all the evidence.
links-anchored :
    (k : Kind) (r : Row) (id : Text) (xs : List Text) (es : List Evidence)
    → r.kind ≡ k
    → r.evidence_anchor_id ≡ anchor_of xs
    → row_checks r ≡ true
    → links id (tail_of xs) (anchored k id (anchor_of xs) es) ≡ links id xs es
unfolding row_checks
links-anchored thought r id [] es e a h = ground arith
links-anchored thought r id (x ∷ xs) es e a h = refl
links-anchored event r id [] es e a h = refl
links-anchored event r id (x ∷ xs) es e a h = ground arith
links-anchored chat r id [] es e a h = refl
links-anchored chat r id (x ∷ xs) es e a h = ground arith

-- What a file reads back right after an insertion.
pub evidence_of-after_insert :
    (m : MemoryInput) (now : ℕ) (db : Database) (x : Text)
    → IsLinked db
    → find_row m.memory_id db.memories ≡ none
    → row_checks (new_row m now) ≡ true
    → contains x (evidence_of m.memory_id (after_insert m now db).memory_evidence)
      ≡ contains x m.evidence_ids
unfolding after_insert
evidence_of-after_insert m now db x linked fresh checked =
    rw
      (links-anchored m.kind (new_row m now) m.memory_id m.evidence_ids db.memory_evidence refl refl
        checked)
      (ground (
        arith,
        contains-evidence_of x m.memory_id m.evidence_ids db.memory_evidence,
        evidence_of-none m.memory_id db.memories db.memory_evidence linked fresh,
      ))

when_yes_of {ℓ} : {A : Type ℓ} (d : Dec A) (b : Bool) → A → b ≡ true → when_yes d b ≡ true
when_yes_of (yes _) b a h = h
when_yes_of (no n) b a h = absurd (n a)

when_yes-inv {ℓ} : {A : Type ℓ} (d : Dec A) (b : Bool) → when_yes d b ≡ true → A × (b ≡ true)
when_yes-inv (yes a) b h = (a, h)
when_yes-inv (no n) b h = cc

pub same_memory_of :
    (old new : MemoryInput)
    → old.payload ≡ new.payload
    → same_set old.evidence_ids new.evidence_ids ≡ true
    → same_memory old new ≡ true
unfolding same_memory
same_memory_of old new = when_yes_of (Payload-discrete old.payload new.payload) _

pub same_memory-inv :
    (old new : MemoryInput)
    → same_memory old new ≡ true
    → (old.payload ≡ new.payload) × (same_set old.evidence_ids new.evidence_ids ≡ true)
unfolding same_memory
same_memory-inv old new = when_yes-inv (Payload-discrete old.payload new.payload) _

pub find_memory-after_insert :
    (m : MemoryInput) (now : ℕ) (db : Database)
    → find_memory (after_insert m now db) m.memory_id
      ≡ some (stored (after_insert m now db) (new_row m now))
unfolding find_memory find_row after_insert
find_memory-after_insert m now db = ground (arith, text_eq_refl m.memory_id)

pub find_row-after_insert_ne :
    (m : MemoryInput) (now : ℕ) (db : Database) (id : Text)
    → text_eq m.memory_id id ≡ false
    → find_row id (after_insert m now db).memories ≡ find_row id db.memories
unfolding find_row after_insert
find_row-after_insert_ne m now db id ne = ground arith

pub read_profile-after_insert :
    (m : MemoryInput) (now : ℕ) (db : Database) (owner : Text)
    → read_profile (after_insert m now db) owner ≡ read_profile db owner
unfolding read_profile check_schema after_insert
read_profile-after_insert m now db owner = refl

module _ (owner : Text) (m : MemoryInput) (now now' : ℕ) (db : Database)
    (linked : IsLinked db) where
  replay_inserted :
      (p : Profile)
      → read_profile db owner ≡ ok p
      → find_row m.memory_id db.memories ≡ none
      → row_checks (new_row m now) ≡ true
      → append owner m now' (after_insert m now db)
        ≡ ok (append_result m false (after_insert m now db))
  unfolding append stored
  replay_inserted p e fresh checked =
      rw (read_profile-after_insert m now db owner, e, find_memory-after_insert m now db)
        (rw (
          same_memory_of (stored (after_insert m now db) (new_row m now)).input m refl
            (same_set_of _ _ λ x. evidence_of-after_insert m now db x linked fresh checked)))

  -- In a file whose evidence is all of memories that it holds, a second `append` of a memory, at any
  -- later time, changes nothing, says that nothing was inserted, and reports the same score.
  pub append_replay :
      {r : AppendResult} {db' : Database}
      → append owner m now db ≡ ok (r, db')
      → append owner m now' db' ≡ ok (record r { inserted = false }, db')
  append_replay {r} {db'} h = elim (Result-cases (read_profile db owner)) [
    | inr (e, q) ↦ unfold append in ground arith
    | inl (p, q) ↦ elim (Option-cases (find_memory db m.memory_id)) [
      | inr (old, f) ↦ elim (Bool-cases (same_memory old.input m)) [
        | inl same ↦ unfold append in ground arith
        | inr differ ↦ unfold append in ground arith
      ]
      | inl f ↦ elim (Option-cases (insert_all m now db)) [
        | inl g ↦ unfold append in ground arith
        | inr (d, g) ↦
            let (after, fresh, _, checked) = insert_all-inv m now db g in
            let again = replay_inserted p q fresh checked in
            unfold append in ground (arith, after, again)
      ]
    ]
  ]
