-- ===== src/Demo/Persistence/Keeps.antt =====
-- What persisting and recovering a command leave alone.
use dogos_memory.Base.{
  Option, Result-cases, Text, inl, inr, none, refl, require, some, ℕ, ◌&&◌, ◌∙◌, ◌≡◌,
}
use dogos_memory.Demo.Models.{completion_conflict, invalid_recovered_completion}
use dogos_memory.Demo.Persistence.{
  PersistOutcome, agrees, anchor, append_0, append_1, check_existing, completion_memory_id,
  completion_source, find_0, find_1, noted, nothing_persisted, persist, persist_checked,
  persist_from, recover, recover_from, recovered_receipt,
}
use dogos_memory.Demo.Session.{ActionCommand, ActionReceipt, CompletionSource, ReceiptStatus}
use dogos_memory.Demo.World.{Runtime, World}
use dogos_memory.Demo.World.Keeps.{IsPreorder, Keeps, Keeps-bind, Keeps-lift_bind}
use dogos_memory.Memory.Database.{Database}
use dogos_memory.Memory.Models.{MemoryInput, StoredMemory}
use dogos_memory.Memory.Store.{append, find_memory}
use dogos_memory.Memory.Store.History.{append_only}

abbrev pub SameDispatched : World → World → Type 0
SameDispatched w w' = w'.dispatched ≡ w.dispatched

-- Every memory of either file reads back the same.
abbrev pub KeepsMemories : World → World → Type 0
KeepsMemories w w' =
    ((id : Text) (x : StoredMemory)
      → find_memory w.db_0 id ≡ some x
      → find_memory w'.db_0 id ≡ some x)
    × ((id : Text) (x : StoredMemory)
        → find_memory w.db_1 id ≡ some x
        → find_memory w'.db_1 id ≡ some x)

-- Neither dispatches a command nor loses a memory.
abbrev pub IsQuiet : World → World → Type 0
IsQuiet w w' = SameDispatched w w' × KeepsMemories w w'

pub KeepsMemories-IsPreorder : IsPreorder KeepsMemories
KeepsMemories-IsPreorder = record {
  same = λ w. (λ id x h. h, λ id x h. h);
  then = λ w w' w'' r s. (λ id x h. s.0 id x (r.0 id x h), λ id x h. s.1 id x (r.1 id x h));
}

pub IsQuiet-IsPreorder : IsPreorder IsQuiet
IsQuiet-IsPreorder = record {
  same = λ w. (refl, KeepsMemories-IsPreorder.same w);
  then = λ w w' w'' r s. (s.0 ∙ r.0, KeepsMemories-IsPreorder.then w w' w'' r.1 s.1);
}

-- a turn of the loop of `persist` that keeps every memory
noted-keeps :
    (dog owner : Text) (m : MemoryInput) (now : ℕ) (db : Database) (out : PersistOutcome)
    (id : Text) (x : StoredMemory)
    → find_memory db id ≡ some x
    → find_memory (noted dog (append owner m now db) db out).1 id ≡ some x
noted-keeps dog owner m now db out id x h = elim (Result-cases (append owner m now db)) [
  | inr (e, p) ↦ rw p h
  | inl ((r, db'), p) ↦ rw p (append_only owner id m now db p h)
]

module _ (rt : Runtime) where
  open rt use {binding_0, binding_1, clock}

  append_0-IsQuiet : (m : MemoryInput) (out : PersistOutcome) → Keeps IsQuiet (append_0 rt m out)
  unfolding append_0
  append_0-IsQuiet m out = record {
    at = λ w. (
      refl,
      (
        λ id x h.
            noted-keeps binding_0.dog.dog_id binding_0.owner_id m (clock w.readings) w.db_0 out id x
              h,
        λ id x h. h,
      ),
    );
  }

  append_1-IsQuiet : (m : MemoryInput) (out : PersistOutcome) → Keeps IsQuiet (append_1 rt m out)
  unfolding append_1
  append_1-IsQuiet m out = record {
    at = λ w. (
      refl,
      (
        λ id x h. h,
        λ id x h.
            noted-keeps binding_1.dog.dog_id binding_1.owner_id m (clock w.readings) w.db_1 out id x
              h,
      ),
    );
  }

  persist_from-IsQuiet :
      (c : ActionCommand) (source : CompletionSource) (at : ℕ)
      → Keeps IsQuiet (persist_from rt c source at)
  unfolding persist_from
  persist_from-IsQuiet c source at = Keeps-lift_bind IsQuiet-IsPreorder _ _ λ m.
      Keeps-bind IsQuiet-IsPreorder _ _ (append_0-IsQuiet m nothing_persisted)
        λ out. Keeps-lift_bind IsQuiet-IsPreorder _ _ λ m'. append_1-IsQuiet m' out

  persist_checked-IsQuiet :
      (status : ReceiptStatus) (source : Option CompletionSource) (c : ActionCommand) (at : ℕ)
      → Keeps IsQuiet (persist_checked rt status source c at)
  persist_checked-IsQuiet ReceiptStatus.completed (some source) c at =
      persist_from-IsQuiet c source at
  persist_checked-IsQuiet _ _ c at = record { at = IsQuiet-IsPreorder.same }

  pub persist-IsQuiet : (c : ActionCommand) (r : ActionReceipt) → Keeps IsQuiet (persist rt c r)
  unfolding persist
  persist-IsQuiet c r = persist_checked-IsQuiet r.status r.source c r.occurred_at_ms

  recover_from-IsQuiet :
      (c : ActionCommand) (m0 m1 a : Option StoredMemory)
      → Keeps IsQuiet (recover_from rt c m0 m1 a)
  recover_from-IsQuiet c m0 m1 none = record { at = IsQuiet-IsPreorder.same }
  recover_from-IsQuiet c m0 m1 (some a) =
      Keeps-lift_bind IsQuiet-IsPreorder (require (check_existing c a) invalid_recovered_completion)
        _
        λ u.
          Keeps-lift_bind IsQuiet-IsPreorder
            (require (agrees a m0 && agrees a m1) completion_conflict) _
            λ v. Keeps-lift_bind IsQuiet-IsPreorder (completion_source a.source) _ λ source.
              Keeps-bind IsQuiet-IsPreorder _ _
                (persist-IsQuiet c (recovered_receipt c source a.occurred_at_ms))
                λ out. record { at = IsQuiet-IsPreorder.same }

  -- Recovering a command dispatches nothing and loses no memory.
  pub recover-IsQuiet : (c : ActionCommand) → Keeps IsQuiet (recover rt c)
  unfolding recover find_0 find_1
  recover-IsQuiet c =
      Keeps-bind IsQuiet-IsPreorder (find_0 rt (completion_memory_id c)) _
        (record { at = IsQuiet-IsPreorder.same })
        λ m0.
          Keeps-bind IsQuiet-IsPreorder (find_1 rt (completion_memory_id c)) _
            (record { at = IsQuiet-IsPreorder.same })
            λ m1. recover_from-IsQuiet c m0 m1 (anchor m0 m1)
