-- ===== src/Demo/Tests/Gates.antt =====
-- The encounter gate and the encounters it opens, at concrete frames.
use dogos_memory.Base.{
  All, Text, [], arith, codes, ok, refl, some, text_eq, true, ◌&&◌, ◌∷◌, ◌≡◌, ◌≢◌,
}
use dogos_memory.Demo.Adapters.{never_stop}
use dogos_memory.Demo.Encounter.{DemoState, run_encounter}
use dogos_memory.Demo.Encounter.Manual.{run_encounter_again}
use dogos_memory.Demo.Identity.{
  accumulate, advance_frame_clock, confirm, confirm_manual, count_frame, new_gate, observe,
  resolve_frame,
}
use dogos_memory.Demo.Identity.Contract.{EndsWell, gate_contract}
use dogos_memory.Demo.Identity.Cooldown.{confirmed_once, decisions_seen, frame, gate_step, manual}
use dogos_memory.Demo.Identity.Streak.{IsStreak, after_frames, observe-IsStreak}
use dogos_memory.Demo.Models.{
  IdentityStatus, check_pair_contract, config_fields_valid, find_dog, find_tag,
}
use dogos_memory.Demo.Tests.{by_hand, gate, pair, runtime, sighting, world}

gate_of_pair : new_gate pair (codes "dog_a") ≡ ok gate
unfolding new_gate find_dog text_eq
gate_of_pair = refl

pair_is_valid : (config_fields_valid pair && check_pair_contract pair) ≡ true
unfolding config_fields_valid check_pair_contract text_eq
pair_is_valid = refl

gate_contract_example :
    EndsWell gate (observe (sighting 1000) gate)
    × EndsWell gate (confirm_manual (by_hand 1000) gate)
unfolding new_gate
gate_contract_example =
    gate_contract (sighting 1000) (by_hand 1000) gate
      (record { counted = ground arith; bounded = ground arith })

second_frame_confirms :
    (observe (sighting 1200) (after_frames gate (sighting 1000 ∷ []))).0.status
    ≡ IdentityStatus.confirmed
unfolding observe after_frames advance_frame_clock resolve_frame find_tag accumulate count_frame
    confirm text_eq
second_frame_confirms = refl

observe-IsStreak_example :
    (p : Text) × ((observe (sighting 1200) (after_frames gate (sighting 1000 ∷ []))).0.peer_id
      ≡ some p)
    × IsStreak pair (codes "dog_a") p 2 (sighting 1200 ∷ sighting 1000 ∷ [])
unfolding config_fields_valid
observe-IsStreak_example =
    observe-IsStreak pair (codes "dog_a") (sighting 1200) (sighting 1000 ∷ []) refl gate_of_pair
      second_frame_confirms

manual_confirms : (gate_step (manual (by_hand 1000)) gate).0.status ≡ IdentityStatus.confirmed
unfolding gate_step confirm_manual find_dog confirm text_eq
manual_confirms = refl

confirmed_once_example :
    All
      (λ d. d.status ≢ IdentityStatus.confirmed)
      (decisions_seen
        (manual (by_hand 1500) ∷ frame (sighting 1900) ∷ [])
        (gate_step (manual (by_hand 1000)) gate).1)
unfolding find_dog text_eq
confirmed_once_example =
    confirmed_once (manual (by_hand 1000)) (manual (by_hand 1500) ∷ frame (sighting 1900) ∷ []) gate
      refl manual_confirms (ground arith, (ground arith, tt))

abbrev state : DemoState
state = record { gate = gate; world = world }

abbrev state_met : DemoState
state_met = (run_encounter runtime (by_hand 4000) (codes "s1") never_stop state).1

by_hand_confirms : (confirm_manual (by_hand 4000) gate).0.status ≡ IdentityStatus.confirmed
unfolding confirm_manual find_dog confirm text_eq
by_hand_confirms = refl

run_encounter_again_example :
    (run_encounter runtime (by_hand 4500) (codes "s2") never_stop state_met).1.world
    ≡ state_met.world
unfolding find_dog text_eq
run_encounter_again_example =
    run_encounter_again runtime (by_hand 4000) (by_hand 4500) state (codes "s1") (codes "s2")
      never_stop never_stop refl by_hand_confirms (ground arith)
