-- ===== src/Demo/Encounter/Manual.antt =====
-- A second manual encounter within the cooldown does nothing.
use dogos_memory.Base.{Text, [], is_some, true, ◌+◌, ◌<◌, ◌∷◌, ◌≡◌}
use dogos_memory.Demo.Coordinator.{StopSignal, run}
use dogos_memory.Demo.Coordinator.Reads.{run_unconfirmed}
use dogos_memory.Demo.Encounter.{DemoState, run_encounter, run_identity}
use dogos_memory.Demo.Identity.{confirm_manual}
use dogos_memory.Demo.Identity.Cooldown.{confirmed_once, decisions_seen, gate_step, manual}
use dogos_memory.Demo.Models.{IdentityStatus, ManualEncounter, find_dog}
use dogos_memory.Demo.World.{Runtime}

module _ (rt : Runtime) (e e' : ManualEncounter) (s : DemoState) where
  -- Where an operator's encounter is confirmed, another one that is observed before the cooldown has
  -- passed changes nothing in the world, whatever its session and its stop signal: no command is handed
  -- to an adapter and neither file is written.
  pub run_encounter_again :
      (session session' : Text) (stop stop' : StopSignal)
      → is_some (find_dog s.gate.config s.gate.owner_id) ≡ true
      → (confirm_manual e s.gate).0.status ≡ IdentityStatus.confirmed
      → e'.observed_at_ms < e.observed_at_ms + s.gate.config.encounter_cooldown_ms
      → (run_encounter rt e' session' stop' (run_encounter rt e session stop s).1).1.world
        ≡ (run_encounter rt e session stop s).1.world
  unfolding run_encounter run_identity gate_step decisions_seen
  run_encounter_again session session' stop stop' o h early =
      let once = confirmed_once (manual e) (manual e' ∷ []) s.gate o h (early, tt) in
      run_unconfirmed rt session' (confirm_manual e' (confirm_manual e s.gate).1).0 stop'
        (run rt session (confirm_manual e s.gate).0 stop s.world).1 once.0
