-- ===== src/Demo/Tests.antt =====
-- Concrete sessions of packages/dogos_demo: tests of the model, and the theorems at inputs where
-- their hypotheses hold.
mod Gates
mod Sessions
mod Connection
use dogos_memory.Base.{
  Text, [], codes, false, inl, none, ok, refl, some, text_eq, true, ℕ, ◌+◌, ◌∷◌, ◌≡◌, ◌⊎◌,
}
use dogos_memory.Demo.Adapters.{
  acknowledge, acknowledgement_adapter, never_stop, simulate, simulation_adapter,
}
use dogos_memory.Demo.Coordinator.{run}
use dogos_memory.Demo.Coordinator.Bounded.{Adds, run_bounded}
use dogos_memory.Demo.Coordinator.Reads.{run_unconfirmed}
use dogos_memory.Demo.Executor.{
  adapter_for, command_accepted, command_rejected, dispatch, execute, judge, route_matches,
  source_allowed,
}
use dogos_memory.Demo.Executor.Accepted.{IsBacked, execute_accepted}
use dogos_memory.Demo.Executor.Redispatch.{execute_recorded}
use dogos_memory.Demo.Executor.Rejected.{IsRefused, execute_rejected}
use dogos_memory.Demo.Identity.{EncounterGate}
use dogos_memory.Demo.Models.{
  DemoConfig, DogConfig, IdentityDecision, IdentityReason, IdentitySource, IdentityStatus,
  ManualEncounter, TagFrame, cautious, no_detection, outgoing, rejected,
}
use dogos_memory.Demo.PairMemory.{rsplit, rsplit_aux, step_one_actor}
use dogos_memory.Demo.PairMemory.Initiator.{step_one_actor-completion}
use dogos_memory.Demo.Persistence.{
  append_0, append_1, completion_memory, completion_memory_id, find_0, find_1, persist,
  persist_from, recover,
}
use dogos_memory.Demo.Plan.{PairRecalls, build_plan_for_initiator, command, dog_with_role}
use dogos_memory.Demo.Plan.Shape.{IsPlan, build_plan_for_initiator-IsPlan}
use dogos_memory.Demo.Session.{
  ActionCommand, CommandReport, CompletionSource, check_command, check_receipt, command_id_of,
  familiar_greeting, is_session_identifier, service_unconfirmed, warm_reply,
}
use dogos_memory.Demo.World.{Runtime, World}
use dogos_memory.Memory.Database.{
  Database, check_schema, find_row, insert_memory, new_file, read_profile, row_checks,
  upsert_relationship,
}
use dogos_memory.Memory.Models.{Mode, Profile, StoredMemory, is_valid_input}
use dogos_memory.Memory.Store.{
  affinity, append, evidence_of, facts, find_memory, get, insert_all, insert_links, stored,
  thoughts,
}

abbrev pub dog_a : DogConfig
dog_a = record {
  dog_id = codes "dog_a";
  name = codes "Alpha";
  role = cautious;
  adapter_id = codes "sim_a";
  tag_family = codes "tag36h11";
  tag_id = 1;
  familiar_threshold = 15;
  affinity_gain = 10;
}

abbrev pub dog_b : DogConfig
dog_b = record {
  dog_id = codes "dog_b";
  name = codes "Bravo";
  role = outgoing;
  adapter_id = codes "sim_b";
  tag_family = codes "tag36h11";
  tag_id = 2;
  familiar_threshold = 15;
  affinity_gain = 10;
}

abbrev pub pair : DemoConfig
pair = record {
  mode = Mode.simulation;
  dog_0 = dog_a;
  dog_1 = dog_b;
  stable_frames = 2;
  min_decision_margin = 30;
  max_frame_gap_ms = 500;
  encounter_cooldown_ms = 1000;
}

abbrev pub gate : EncounterGate
gate = record {
  config = pair;
  owner_id = codes "dog_a";
  candidate_id = none;
  stable_frames = 0;
  last_frame_ms = none;
  last_confirmed_id = none;
  last_confirmed_ms = none;
}

abbrev pub sighting : ℕ → TagFrame
sighting at = record {
  owner_id = codes "dog_a";
  observed_at_ms = at;
  left =
      some (record { family = codes "tag36h11"; tag_id = 2; decision_margin = 50; valid = true });
  right = none;
}

abbrev pub by_hand : ℕ → ManualEncounter
by_hand at = record { owner_id = codes "dog_a"; peer_id = codes "dog_b"; observed_at_ms = at }

abbrev profile_of : DogConfig → Text → Profile
profile_of dog personality = record {
  dog_id = dog.dog_id;
  name = dog.name;
  personality = personality;
  familiar_threshold = dog.familiar_threshold;
  mode = Mode.simulation;
}

abbrev file_of : DogConfig → Database
file_of dog = record new_file {
  user_version = 1;
  has_tables = true;
  profile = some (profile_of dog (codes "role"));
}

abbrev pub runtime : Runtime
runtime = record {
  config = pair;
  binding_0 = record { dog = dog_a; owner_id = codes "dog_a" };
  binding_1 = record { dog = dog_b; owner_id = codes "dog_b" };
  adapter_0 = simulation_adapter (codes "sim_a");
  adapter_1 = simulation_adapter (codes "sim_b");
  clock = λ n. 5000 + n;
}

abbrev acknowledged : Runtime
acknowledged = record runtime { adapter_0 = acknowledgement_adapter (codes "sim_a") }

abbrev pub world : World
world = record { db_0 = file_of dog_a; db_1 = file_of dog_b; dispatched = []; readings = 0 }

abbrev pub greet : ActionCommand
greet = record {
  command_id = codes "s1/dog_a/1";
  session_id = codes "s1";
  step = 1;
  actor_id = codes "dog_a";
  target_id = codes "dog_b";
  adapter_id = codes "sim_a";
  action = familiar_greeting;
  issued_at_ms = 4000;
  memory_reference_id = none;
}

abbrev after_greet : World
after_greet = (execute runtime greet world).1

abbrev pub greet_report : CommandReport
greet_report = record {
  command = greet;
  receipt = simulate (codes "sim_a") greet;
  replayed = false;
  persisted_owner_ids = codes "dog_a" ∷ codes "dog_b" ∷ [];
  persistence_issues = [];
}

greet_accepted : execute runtime greet world ≡ (ok (command_accepted greet_report), after_greet)
unfolding execute recover find_0 find_1 get read_profile check_schema text_eq find_memory find_row
    adapter_for dispatch judge route_matches simulation_adapter simulate check_receipt
    source_allowed persist persist_from completion_memory completion_memory_id is_valid_input
    append_0 append_1 append insert_all insert_memory row_checks upsert_relationship insert_links
    affinity
greet_accepted = refl

execute_accepted_example : IsBacked runtime greet greet_report after_greet
execute_accepted_example = execute_accepted runtime greet world greet_accepted

abbrev greet_memory : StoredMemory
greet_memory = record {
  input = completion_memory dog_a greet CompletionSource.simulation 4000;
  recorded_at_ms = 5000;
}

greet_on_record : find_memory after_greet.db_0 (completion_memory_id greet) ≡ some greet_memory
unfolding execute recover find_0 find_1 get read_profile check_schema text_eq find_memory find_row
    adapter_for dispatch judge route_matches simulation_adapter simulate check_receipt
    source_allowed persist persist_from completion_memory completion_memory_id is_valid_input
    append_0 append_1 append insert_all insert_memory row_checks upsert_relationship insert_links
    affinity stored evidence_of
greet_on_record = refl

execute_recorded_example : (execute runtime greet after_greet).1.dispatched ≡ after_greet.dispatched
execute_recorded_example =
    execute_recorded runtime greet after_greet greet_memory (inl greet_on_record)

abbrev refused_report : CommandReport
refused_report = record {
  command = greet;
  receipt = acknowledge (codes "sim_a") greet;
  replayed = false;
  persisted_owner_ids = [];
  persistence_issues = [];
}

greet_refused : execute acknowledged greet world ≡ (
  ok (command_rejected refused_report service_unconfirmed),
  record world { dispatched = greet ∷ [] },
)
unfolding execute recover find_0 find_1 get read_profile check_schema text_eq find_memory find_row
    adapter_for dispatch judge route_matches acknowledgement_adapter acknowledge check_receipt
greet_refused = refl

execute_rejected_example :
    IsRefused greet refused_report world (record world { dispatched = greet ∷ [] })
execute_rejected_example = execute_rejected acknowledged greet (λ e. cc e) world greet_refused

abbrev pub met : IdentityDecision
met = record {
  status = IdentityStatus.confirmed;
  reason = IdentityReason.confirmed;
  owner_id = codes "dog_a";
  peer_id = some (codes "dog_b");
  source = some IdentitySource.operator;
  observed_at_ms = 4000;
  stable_frames = 1;
}

run_bounded_example : Adds 2 world (run runtime (codes "s1") met never_stop world).1
run_bounded_example = run_bounded runtime (codes "s1") met never_stop world

abbrev unseen : IdentityDecision
unseen = record met {
  status = rejected;
  reason = no_detection;
  peer_id = none;
  source = none;
  stable_frames = 0;
}

run_unconfirmed_example : (run runtime (codes "s1") unseen never_stop world).1 ≡ world
run_unconfirmed_example = run_unconfirmed runtime (codes "s1") unseen never_stop world (λ e. cc e)

abbrev no_recalls : PairRecalls
no_recalls = record {
  cautious = record {
    profile = profile_of dog_a (codes "role");
    peer_id = codes "dog_b";
    affinity = 0;
    familiar = true;
    facts = [];
    thoughts = [];
  };
  outgoing = record {
    profile = profile_of dog_b (codes "role");
    peer_id = codes "dog_a";
    affinity = 0;
    familiar = false;
    facts = [];
    thoughts = [];
  };
}

abbrev pub reply : ActionCommand
reply = record {
  command_id = codes "s1/dog_b/2";
  session_id = codes "s1";
  step = 2;
  actor_id = codes "dog_b";
  target_id = codes "dog_a";
  adapter_id = codes "sim_b";
  action = warm_reply;
  issued_at_ms = 4001;
  memory_reference_id = none;
}

plan_made :
    build_plan_for_initiator pair met (codes "s1") no_recalls (codes "dog_a") ≡ ok (greet, reply)
unfolding build_plan_for_initiator dog_with_role text_eq command check_command command_id_of
    is_session_identifier
plan_made = refl

build_plan_for_initiator-IsPlan_example :
    (codes "dog_a" ≡ codes "dog_a") × IsPlan pair (codes "s1") greet reply
build_plan_for_initiator-IsPlan_example =
    build_plan_for_initiator-IsPlan pair met (codes "s1") no_recalls (codes "dog_a") plan_made

step_one_actor-completion_example :
    ((greet.step ≡ 1)
      × (step_one_actor (codes "s1") (completion_memory_id greet) ≡ some (codes "dog_a")))
    ⊎ ((greet.step ≡ 2) × (step_one_actor (codes "s1") (completion_memory_id greet) ≡ none))
unfolding check_command command_id_of is_session_identifier text_eq
step_one_actor-completion_example = step_one_actor-completion greet refl refl

actor_read_back : step_one_actor (codes "s1") (completion_memory_id greet) ≡ some (codes "dog_a")
unfolding step_one_actor rsplit rsplit_aux completion_memory_id text_eq
actor_read_back = refl
