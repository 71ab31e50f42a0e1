-- ===== src/Demo/PairMemory.antt =====
-- packages/dogos_demo/pair_memory.py: the two files read by role.
pub mod Initiator
use mathlib.Core.List.{reverse}
use dogos_memory.Base.{
  Bool, List, Option, Result, Text, [], all, codes, err, if◌then◌else◌, is_some, keep, none, ok,
  some, suc, text_eq, zero, ℕ, ◌&&◌, ◌++◌, ◌==◌, ◌>>◌, ◌∷◌,
}
use dogos_memory.Demo.Models.{
  DemoConfig, DemoError, DogRole, cautious, find_dog, outgoing, session_actor_not_configured,
  session_plan_conflict, store_binding_missing,
}
use dogos_memory.Demo.Plan.{PairRecalls, dog_with_role}
use dogos_memory.Demo.Session.{DogMemoryView, PairSnapshot, slash}
use dogos_memory.Demo.World.{Action, Runtime, from_store, lift, pure, ◌>>=◌}
use dogos_memory.Memory.Models.{RecallResult, StoredMemory, is_completed}
use dogos_memory.Memory.Store.{affinity, list_session, recall}

abbrev pub first_memory : List StoredMemory → Option Text
first_memory [] = none
first_memory (m ∷ ms) = some m.memory_id

-- `_view`
abbrev pub view : RecallResult → DogMemoryView
view r = record {
  dog_id = r.profile.dog_id;
  peer_id = r.peer_id;
  affinity = r.affinity;
  familiar = r.familiar;
  latest_memory_id = first_memory r.facts;
}

-- `_is_action_completion`
abbrev pub is_action_completion : StoredMemory → Bool
is_action_completion m = text_eq m.event_type (codes "action_completed") && is_completed m.result

-- `rsplit("/", k)`: up to `k` splits from the right, as the parts from left to right; `part` is what
-- stands to the right of the place that is read
unfoldable pub rsplit_aux : ℕ → Text → Text → List Text → List Text
rsplit_aux k [] part parts = part ∷ parts
rsplit_aux zero (c ∷ rev) part parts = rsplit_aux zero rev (c ∷ part) parts
rsplit_aux (suc k) (c ∷ rev) part parts =
    let split = rsplit_aux k rev [] (part ∷ parts) in
    let more = rsplit_aux (suc k) rev (c ∷ part) parts in if c == slash then split else more

unfoldable pub rsplit : ℕ → Text → List Text
rsplit k t = rsplit_aux k (reverse t) [] []

-- `_step_one_actor`
abbrev pub step_one_of : Text → List Text → Option Text
step_one_of session (s ∷ actor ∷ step ∷ last ∷ []) =
    if text_eq s session && text_eq step (codes "1") && text_eq last (codes "completed")
    then some actor
    else none
step_one_of session _ = none

unfoldable pub step_one_actor : Text → Text → Option Text
step_one_actor session memory_id = step_one_of session (rsplit 3 memory_id)

-- the actors that are found, with repetitions
abbrev actors_of : Text → List StoredMemory → List Text
actors_of session [] = []
actors_of session (m ∷ ms) =
    let rest = actors_of session ms in
    elim (step_one_actor session m.memory_id) [ none ↦ rest | some a ↦ a ∷ rest ]

-- `len(actors) != 1`
abbrev the_actor : DemoConfig → List Text → Result DemoError (Option Text)
the_actor c [] = err session_plan_conflict
the_actor c (a ∷ rest) =
    if all (text_eq a) rest
    then (if is_some (find_dog c a) then ok (some a) else err session_actor_not_configured)
    else err session_plan_conflict

-- `original_initiator` on the completions of both files
unfoldable pub initiator_of : DemoConfig → Text → List StoredMemory → Result DemoError (Option Text)
initiator_of c session [] = ok none
initiator_of c session (m ∷ ms) = the_actor c (actors_of session (m ∷ ms))

module _ (rt : Runtime) where
  open rt use {config, binding_0, binding_1}

  -- `store(dog_id).recall(...)`
  unfoldable pub recall_for : Text → Text → Action RecallResult
  recall_for dog_id peer_id w = (
    if text_eq binding_0.dog.dog_id dog_id
        then from_store
            (recall binding_0.owner_id (record { peer_id = peer_id; limit = 20 }) w.db_0)
        else if text_eq binding_1.dog.dog_id dog_id
        then from_store
            (recall binding_1.owner_id (record { peer_id = peer_id; limit = 20 }) w.db_1)
        else err store_binding_missing,
    w,
  )

  unfoldable pub recalls : Action PairRecalls
  recalls = do
    shy ← lift (dog_with_role config DogRole.cautious)
    bold ← lift (dog_with_role config DogRole.outgoing)
    a ← recall_for shy.dog_id bold.dog_id
    b ← recall_for bold.dog_id shy.dog_id
    pure (record { cautious = a; outgoing = b })

  unfoldable pub snapshot : Action PairSnapshot
  snapshot = do
    r ← recalls
    pure (record { mode = config.mode; cautious = view r.cautious; outgoing = view r.outgoing })

  unfoldable pub original_initiator : Text → Action (Option Text)
  original_initiator session w =
      ((do
        a ← lift (from_store (list_session binding_0.owner_id session w.db_0))
        b ← lift (from_store (list_session binding_1.owner_id session w.db_1))
        lift (initiator_of config session (keep is_action_completion (a ++ b))))
        w)
