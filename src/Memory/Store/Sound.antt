-- ===== src/Memory/Store/Sound.antt =====
-- What holds of every file that `initialize` and `append` have written.
use dogos_memory.Base.{
  All, Bool, List, Option, Option-cases, Text, [], any, arith, inl, inr, is_some, none, not, ok,
  refl, some, text_eq, text_eq_iff, text_eq_refl, true, ℕ, ◌||◌, ◌∷◌, ◌≡◌,
}
use dogos_memory.Memory.Database.{
  Database, Evidence, Row, check_schema, evidence_ok, find_row, initialize, insert_anchor,
  insert_evidence, insert_memory, new_file, relationships_after, row_checks, scope_check,
}
use dogos_memory.Memory.Models.{
  AppendResult, Kind, MemoryInput, Profile, chat, event, is_thought, thought,
}
use dogos_memory.Memory.Store.{anchor_of, append, insert_all, insert_links, new_row, tail_of}
use dogos_memory.Memory.Store.Insert.{
  after_insert, anchored, append-inv, insert_anchor-inv, insert_evidence-inv, insert_memory-inv,
  links,
}
use dogos_memory.Memory.Store.Replay.{IsLinked}

-- A link joins a thought to a completed fact about the same peer that is not later.
abbrev pub IsGrounded : List Row → Evidence → Type 0
IsGrounded rows e = evidence_ok (find_row e.thought_id rows) (find_row e.evidence_id rows) ≡ true

-- A thought has a link.
abbrev pub HasEvidence : List Evidence → Row → Type 0
HasEvidence es r =
    (not (is_thought r.kind) || any (λ e. text_eq e.thought_id r.memory_id) es) ≡ true

-- A row is about another dog than the owner, and its source fits the mode of the file.
abbrev pub IsScoped : Option Profile → Row → Type 0
IsScoped p r = scope_check p r ≡ true

-- A fact that scores is a completed event.
abbrev pub IsChecked : Row → Type 0
IsChecked r = row_checks r ≡ true

pub record IsSound (db : Database) : Type 0 where
  pub grounded : All (IsGrounded db.memories) db.memory_evidence
  pub evidenced : All (HasEvidence db.memory_evidence) db.memories
  pub scoped : All (IsScoped db.profile) db.memories
  pub checked : All IsChecked db.memories

All-map {ℓ κ μ} :
    {A : Type ℓ} {P : A → Type κ} {Q : A → Type μ} (xs : List A)
    → ((x : A) → P x → Q x)
    → All P xs
    → All Q xs
All-map [] f h = tt
All-map (x ∷ xs) f h = (f x h.0, All-map xs f h.1)

-- The foreign key follows.
pub IsLinked-IsSound : {db : Database} → IsSound db → IsLinked db
IsLinked-IsSound {db} s = All-map db.memory_evidence (λ e h. ground (arith, h)) s.grounded

find_row-cons_ne :
    (r : Row) (rows : List Row) (id : Text)
    → find_row r.memory_id rows ≡ none
    → is_some (find_row id rows) ≡ true
    → find_row id (r ∷ rows) ≡ find_row id rows
unfolding find_row
find_row-cons_ne r rows id fresh h = ground (arith, text_eq_iff r.memory_id id)

-- A new row hides no other.
IsGrounded-cons :
    (r : Row) (rows : List Row) (e : Evidence)
    → find_row r.memory_id rows ≡ none
    → IsGrounded rows e
    → IsGrounded (r ∷ rows) e
IsGrounded-cons r rows e fresh h =
    ground (
      arith,
      find_row-cons_ne r rows e.thought_id fresh,
      find_row-cons_ne r rows e.evidence_id fresh,
    )

insert_links-IsGrounded :
    (id : Text) (xs : List Text) (db : Database) {db' : Database}
    → insert_links id xs db ≡ some db'
    → All (IsGrounded db.memories) db.memory_evidence
    → All (IsGrounded db.memories) db'.memory_evidence
unfolding insert_links
insert_links-IsGrounded id [] db h g = ground arith
insert_links-IsGrounded id (x ∷ xs) db {db'} h g =
    elim (Option-cases (insert_evidence (record { thought_id = id; evidence_id = x }) db)) [
      | inl e ↦ ground arith
      | inr (d, e) ↦
          let link : Evidence = record { thought_id = id; evidence_id = x } in
          let (added, good) = insert_evidence-inv link db e in
          let rest : insert_links id xs d ≡ some db' = ground arith in
          insert_links-IsGrounded id xs (record db { memory_evidence = link ∷ db.memory_evidence })
            (rw added at rest) (good, g)
    ]

insert_anchor-IsGrounded :
    (k : Kind) (id : Text) (anchor : Option Text) (db : Database) {db' : Database}
    → insert_anchor k id anchor db ≡ some db'
    → All (IsGrounded db.memories) db.memory_evidence
    → All (IsGrounded db.memories) (anchored k id anchor db.memory_evidence)
insert_anchor-IsGrounded thought id (some x) db h g =
    ((insert_evidence-inv (record { thought_id = id; evidence_id = x }) db h).1, g)
insert_anchor-IsGrounded thought id none db h g = g
insert_anchor-IsGrounded event id anchor db h g = g
insert_anchor-IsGrounded chat id anchor db h g = g

-- All the links of a new row are grounded.
insert_all-IsGrounded :
    (m : MemoryInput) (now : ℕ) (db : Database) {db' : Database}
    → insert_all m now db ≡ some db'
    → All (IsGrounded db.memories) db.memory_evidence
    → All (IsGrounded (new_row m now ∷ db.memories)) db'.memory_evidence
unfolding insert_all
insert_all-IsGrounded m now db {db'} h g = elim (Option-cases (insert_memory (new_row m now) db)) [
  | inl e ↦ ground arith
  | inr (d, e) ↦
      let (_, _, fresh, rest) = insert_memory-inv (new_row m now) db e in
      let start : Database = record db {
        memories = new_row m now ∷ db.memories;
        relationships = relationships_after (new_row m now) db;
      } in
      let kept =
        All-map db.memory_evidence (λ x. IsGrounded-cons (new_row m now) db.memories x fresh) g in
      let mid =
        insert_anchor-IsGrounded m.kind m.memory_id (anchor_of m.evidence_ids) start rest kept in
      let after = insert_anchor-inv m.kind m.memory_id (anchor_of m.evidence_ids) start rest in
      let more : insert_links m.memory_id (tail_of m.evidence_ids) d ≡ some db' = ground arith in
      insert_links-IsGrounded m.memory_id (tail_of m.evidence_ids)
        (record start {
          memory_evidence =
              anchored m.kind m.memory_id (anchor_of m.evidence_ids) db.memory_evidence;
        })
        (rw after at more) mid
]

any-links :
    (p : Evidence → Bool) (id : Text) (xs : List Text) (es : List Evidence)
    → any p es ≡ true
    → any p (links id xs es) ≡ true
any-links p id [] es h = h
any-links p id (x ∷ xs) es h = any-links p id xs _ (ground arith)

any-anchored :
    (p : Evidence → Bool) (k : Kind) (id : Text) (anchor : Option Text) (es : List Evidence)
    → any p es ≡ true
    → any p (anchored k id anchor es) ≡ true
any-anchored p thought id (some x) es h = ground arith
any-anchored p k id anchor es h = ground arith

HasEvidence-after_insert :
    (m : MemoryInput) (now : ℕ) (db : Database) (r : Row)
    → HasEvidence db.memory_evidence r
    → HasEvidence (after_insert m now db).memory_evidence r
unfolding after_insert
HasEvidence-after_insert m now db r h =
    let p : Evidence → Bool = λ e. text_eq e.thought_id r.memory_id in
    ground (
      arith,
      any-links p m.memory_id (tail_of m.evidence_ids)
          (anchored m.kind m.memory_id (anchor_of m.evidence_ids) db.memory_evidence),
      any-anchored p m.kind m.memory_id (anchor_of m.evidence_ids) db.memory_evidence,
    )

HasEvidence-new_row :
    (k : Kind) (r : Row) (xs : List Text) (es : List Evidence)
    → r.kind ≡ k
    → r.evidence_anchor_id ≡ anchor_of xs
    → row_checks r ≡ true
    → HasEvidence (links r.memory_id (tail_of xs) (anchored k r.memory_id (anchor_of xs) es)) r
unfolding row_checks
HasEvidence-new_row thought r [] es e a h = ground arith
HasEvidence-new_row thought r (x ∷ xs) es e a h = ground (
  arith,
  any-links (λ y. text_eq y.thought_id r.memory_id) r.memory_id xs
      (record { thought_id = r.memory_id; evidence_id = x } ∷ es),
  text_eq_refl r.memory_id,
)
HasEvidence-new_row event r xs es e a h = ground arith
HasEvidence-new_row chat r xs es e a h = ground arith

-- Whatever is appended to a sound file, the file stays sound: every link joins a thought to an
-- earlier completed fact about the same peer, every thought has a link, and every row passes the
-- checks of the schema and fits the owner and mode of the file.
pub append-IsSound :
    (owner : Text) (m : MemoryInput) (now : ℕ) (db : Database) {r : AppendResult} {db' : Database}
    → IsSound db
    → append owner m now db ≡ ok (r, db')
    → IsSound db'
append-IsSound owner m now db {r} {db'} s h = elim (append-inv owner m now db h).1 [
  | inl (_, same) ↦ rw same s
  | inr (_, both, after, fresh, scoped, checked) ↦
      let links_ok = insert_all-IsGrounded m now db both s.grounded in
      rw after (
        unfold after_insert in
        record {
          grounded = rw after at links_ok;
          evidenced = (
            HasEvidence-new_row m.kind (new_row m now) m.evidence_ids db.memory_evidence refl refl
                checked,
            All-map db.memories (HasEvidence-after_insert m now db) s.evidenced,
          );
          scoped = (scoped, s.scoped);
          checked = (checked, s.checked);
        })
]

-- A file that SQLite has just created is sound once it is initialized.
pub initialize-IsSound :
    (profile : Profile) {db : Database} → initialize new_file profile ≡ ok db → IsSound db
unfolding initialize check_schema
initialize-IsSound profile h = ground arith
