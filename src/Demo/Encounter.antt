-- ===== src/Demo/Encounter.antt =====
-- packages/dogos_demo/runtime.py: the gate and the coordinator of one process.
pub mod Manual
use dogos_memory.Base.{Result, Text, [], codes, err, ok, require, same_set, ℕ, ◌>>=◌, ◌>>◌, ◌∷◌}
use dogos_memory.Demo.Coordinator.{StopSignal, run}
use dogos_memory.Demo.Identity.{EncounterGate, confirm_manual, new_gate, observe}
use dogos_memory.Demo.Models.{
  DemoConfig, DemoError, DogConfig, DogRole, IdentityDecision, ManualEncounter, TagFrame,
  adapter_binding_mismatch, cautious, outgoing,
}
use dogos_memory.Demo.Plan.{dog_with_role}
use dogos_memory.Demo.Session.{SessionSummary}
use dogos_memory.Demo.World.{Runtime, World}
use dogos_memory.Memory.Database.{Database, Store, initialize}
use dogos_memory.Memory.Models.{Profile}

-- what a `DemoRuntime` changes: its gate, and the world of its coordinator
pub record DemoState : Type 0 where
  pub gate : EncounterGate
  pub world : World

abbrev role_text : DogRole → Text
role_text cautious = codes "cautious"
role_text outgoing = codes "outgoing"

-- `_profile`
unfoldable pub profile_for : DemoConfig → DogConfig → Profile
profile_for c dog = record {
  dog_id = dog.dog_id;
  name = dog.name;
  personality = role_text dog.role;
  familiar_threshold = dog.familiar_threshold;
  mode = c.mode;
}

-- the second file, after the first was initialized
abbrev initialize_second :
    DemoConfig → Database → Store Database → Database → Store Unit × Database × Database
initialize_second c db_0 (err e) db_1 = (err e, db_0, db_1)
initialize_second c db_0 (ok db_0') db_1 = elim (initialize db_1 (profile_for c c.dog_1)) [
  | err e ↦ (err e, db_0', db_1)
  | ok db_1' ↦ (ok tt, db_0', db_1')
]

-- `_initialize_bindings` on the two files of a directory
unfoldable pub initialize_bindings :
    DemoConfig → Database → Database → Store Unit × Database × Database
initialize_bindings c db_0 db_1 =
    initialize_second c db_0 (initialize db_0 (profile_for c c.dog_0)) db_1

-- `__init__`: the adapters are those of the configuration, and the gate is the cautious dog's
unfoldable pub new_runtime : Runtime → Result DemoError EncounterGate
new_runtime rt = do
  require
      (same_set (rt.config.dog_0.adapter_id ∷ rt.config.dog_1.adapter_id ∷ [])
        (rt.adapter_0.adapter_id ∷ rt.adapter_1.adapter_id ∷ []))
      adapter_binding_mismatch
  shy ← dog_with_role rt.config DogRole.cautious
  new_gate rt.config shy.dog_id

abbrev pub encounter_of : DogConfig → DogConfig → ℕ → ManualEncounter
encounter_of shy bold at = record {
  owner_id = shy.dog_id;
  peer_id = bold.dog_id;
  observed_at_ms = at;
}

module _ (rt : Runtime) where
  -- `run_identity`
  unfoldable pub run_identity :
      Text → IdentityDecision → StopSignal → DemoState → Result DemoError SessionSummary × DemoState
  run_identity session identity stop s = (
    (run rt session identity stop s.world).0,
    record s { world = (run rt session identity stop s.world).1 },
  )

  -- `run_manual` once both dogs are found
  unfoldable pub run_encounter :
      ManualEncounter → Text → StopSignal → DemoState → Result DemoError SessionSummary × DemoState
  run_encounter e session stop s =
      run_identity session (confirm_manual e s.gate).0 stop
        (record s { gate = (confirm_manual e s.gate).1 })

  abbrev run_pair :
      Result DemoError DogConfig
      → Result DemoError DogConfig
      → ℕ
      → Text
      → StopSignal
      → DemoState
      → Result DemoError SessionSummary × DemoState
  run_pair (err e) bold at session stop s = (err e, s)
  run_pair (ok shy) (err e) at session stop s = (err e, s)
  run_pair (ok shy) (ok bold) at session stop s =
      run_encounter (encounter_of shy bold at) session stop s

  -- `run_manual`
  unfoldable pub run_manual :
      Text → ℕ → StopSignal → DemoState → Result DemoError SessionSummary × DemoState
  run_manual session at stop s =
      run_pair (dog_with_role rt.config DogRole.cautious) (dog_with_role rt.config DogRole.outgoing)
        at session stop s

  -- `observe_tag`
  unfoldable pub observe_tag : TagFrame → DemoState → IdentityDecision × DemoState
  observe_tag f s = ((observe f s.gate).0, record s { gate = (observe f s.gate).1 })
