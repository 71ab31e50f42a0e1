-- ===== src/Demo/Persistence/Recorded.antt =====
-- What a completion that was persisted without an issue leaves in the two files.
-- The file holds the completion of the command under its identifier, with the payload that the dog's
-- own view of the action has.
use dogos_memory.Base.{
  Bool-cases, List, Text, [], ap, err, false, inl, inr, ok, refl, some, true, ℕ, ◌++◌, ◌+◌, ◌∙◌,
  ◌∷◌, ◌≡◌,
}
use dogos_memory.Demo.Models.{DogConfig}
use dogos_memory.Demo.Persistence.{
  PersistOutcome, append_0, append_1, completion_memory, completion_memory_id, noted,
  nothing_persisted, persist_from, validated,
}
use dogos_memory.Demo.Session.{ActionCommand, CompletionSource}
use dogos_memory.Demo.World.{Action, Runtime, World, lift, ◌>>=◌}
use dogos_memory.Memory.Database.{Database, Store}
use dogos_memory.Memory.Models.{AppendResult, MemoryInput, StoredMemory, is_empty, is_valid_input}
use dogos_memory.Memory.Store.{append, find_memory}
use dogos_memory.Memory.Store.Found.{append-found}

abbrev pub IsRecorded : DogConfig → ActionCommand → CompletionSource → ℕ → Database → Type 0
IsRecorded dog c source at db =
    (x : StoredMemory) × (find_memory db (completion_memory_id c) ≡ some x)
    × (x.payload ≡ (completion_memory dog c source at).payload)

is_empty-snoc {ℓ} : {A : Type ℓ} (xs : List A) (x : A) → is_empty (xs ++ (x ∷ [])) ≡ false
is_empty-snoc [] x = refl
is_empty-snoc (y ∷ xs) x = refl

-- No issue came up, now or before, only if the call went through.
noted-clean :
    (dog : Text) (res : Store (AppendResult × Database)) (db : Database) (out : PersistOutcome)
    → is_empty (noted dog res db out).0.issues ≡ true
    → (r : AppendResult) × (res ≡ ok (r, (noted dog res db out).1)) × (is_empty out.issues ≡ true)
noted-clean dog (ok (r, db')) db out h = (r, refl, h)
noted-clean dog (err code) db out h =
    cc (h, is_empty-snoc out.issues (record { owner_id = dog; code = code }))

completion-IsRecorded :
    (dog : DogConfig) (owner : Text) (c : ActionCommand) (source : CompletionSource) (at now : ℕ)
    (db : Database) {r : AppendResult} {db' : Database}
    → append owner (completion_memory dog c source at) now db ≡ ok (r, db')
    → IsRecorded dog c source at db'
unfolding completion_memory_id completion_memory
completion-IsRecorded dog owner c source at now db h =
    append-found owner (completion_memory dog c source at) now db h

module _ (rt : Runtime) (c : ActionCommand) where
  open rt use {binding_0, binding_1, clock}

  abbrev appends : MemoryInput → MemoryInput → Action PersistOutcome
  appends m m' = append_0 rt m nothing_persisted >>= λ out. append_1 rt m' out

  lift-validated-inv :
      {A : Type 0} (m : MemoryInput) (f : MemoryInput → Action A) (w : World) {a : A} {w' : World}
      → (lift (validated m) >>= f) w ≡ (ok a, w')
      → f m w ≡ (ok a, w')
  lift-validated-inv m f w h = elim (Bool-cases (is_valid_input m)) [
    | inl e ↦ rw e at h
    | inr e ↦ absurd (cc (rw e at h))
  ]

  persist_from-inv :
      (source : CompletionSource) (at : ℕ) (w : World) {out : PersistOutcome} {w' : World}
      → persist_from rt c source at w ≡ (ok out, w')
      → appends
          (completion_memory binding_0.dog c source at)
          (completion_memory binding_1.dog c source at)
          w
        ≡ (ok out, w')
  unfolding persist_from append_0
  persist_from-inv source at w h =
      lift-validated-inv (completion_memory binding_1.dog c source at) _ _
        (lift-validated-inv (completion_memory binding_0.dog c source at) _ w h)

  appends-inv :
      (m m' : MemoryInput) (w : World) {out : PersistOutcome} {w' : World}
      → appends m m' w ≡ (ok out, w')
      → is_empty out.issues ≡ true
      → ((r : AppendResult) × (append binding_0.owner_id m (clock w.readings) w.db_0
            ≡ ok (r, w'.db_0)))
        × ((r : AppendResult) × (append binding_1.owner_id m' (clock (w.readings + 1)) w.db_1
              ≡ ok (r, w'.db_1)))
  unfolding append_0 append_1
  appends-inv m m' w {out} {w'} h e =
      let n0 =
        noted binding_0.dog.dog_id (append binding_0.owner_id m (clock w.readings) w.db_0) w.db_0
          nothing_persisted in
      let (r', p', q') =
        noted-clean binding_1.dog.dog_id
          (append binding_1.owner_id m' (clock (w.readings + 1)) w.db_1) w.db_1 (n0.0)
          (cc (h, e)) in
      let (r, p, _) =
        noted-clean binding_0.dog.dog_id (append binding_0.owner_id m (clock w.readings) w.db_0)
          w.db_0 nothing_persisted q' in
      ((r, p ∙ ap (λ x. ok (r, x.1.db_0)) h), (r', p' ∙ ap (λ x. ok (r', x.1.db_1)) h))

  -- A completion that is persisted without an issue is in both files.
  pub persist_from-IsRecorded :
      (source : CompletionSource) (at : ℕ) (w : World) {out : PersistOutcome} {w' : World}
      → persist_from rt c source at w ≡ (ok out, w')
      → is_empty out.issues ≡ true
      → IsRecorded binding_0.dog c source at w'.db_0 × IsRecorded binding_1.dog c source at w'.db_1
  persist_from-IsRecorded source at w h e =
      let ((r, p), (r', p')) = appends-inv _ _ w (persist_from-inv source at w h) e in
      (
        completion-IsRecorded binding_0.dog binding_0.owner_id c source at (clock w.readings) w.db_0
            p,
        completion-IsRecorded binding_1.dog binding_1.owner_id c source at (clock (w.readings + 1))
            w.db_1 p',
      )
