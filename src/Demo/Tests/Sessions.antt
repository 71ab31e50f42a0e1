-- ===== src/Demo/Tests/Sessions.antt =====
-- A whole session, from its plan to its summary.
use dogos_memory.Base.{[], codes, false, ok, refl, some, text_eq, text_lt, ◌∷◌, ◌≡◌}
use dogos_memory.Demo.Adapters.{never_stop, simulate, simulation_adapter}
use dogos_memory.Demo.Coordinator.{SessionContext, finished, run_plan}
use dogos_memory.Demo.Coordinator.Summary.{IsSummarized, conclude_valid}
use dogos_memory.Demo.Executor.{
  adapter_for, dispatch, execute, judge, route_matches, source_allowed,
}
use dogos_memory.Demo.PairMemory.{recall_for, recalls, snapshot}
use dogos_memory.Demo.Persistence.{
  append_0, append_1, completion_memory, completion_memory_id, find_0, find_1, persist,
  persist_from, recover,
}
use dogos_memory.Demo.Plan.{dog_with_role}
use dogos_memory.Demo.Session.{
  CommandReport, DogMemoryView, PairSnapshot, check_receipt, is_session_identifier,
}
use dogos_memory.Demo.Tests.{greet, greet_report, met, reply, runtime, world}
use dogos_memory.Demo.World.{World}
use dogos_memory.Memory.Database.{
  check_schema, find_row, insert_memory, read_profile, row_checks, upsert_relationship,
}
use dogos_memory.Memory.Models.{Mode, is_valid_input}
use dogos_memory.Memory.Store.{
  affinity, append, evidence_of, facts, find_memory, get, insert_all, insert_links, recall, select,
  stored, thoughts,
}

abbrev reply_report : CommandReport
reply_report = record {
  command = reply;
  receipt = simulate (codes "sim_b") reply;
  replayed = false;
  persisted_owner_ids = codes "dog_a" ∷ codes "dog_b" ∷ [];
  persistence_issues = [];
}

abbrev after_session : World
after_session = (run_plan runtime never_stop (greet ∷ reply ∷ []) [] world).1

plan_run :
    run_plan runtime never_stop (greet ∷ reply ∷ []) [] world
    ≡ (ok (finished (greet_report ∷ reply_report ∷ [])), after_session)
unfolding run_plan execute recover find_0 find_1 get read_profile check_schema text_eq find_memory
    find_row adapter_for dispatch judge route_matches simulation_adapter simulate check_receipt
    source_allowed persist persist_from completion_memory completion_memory_id is_valid_input
    append_0 append_1 append insert_all insert_memory row_checks upsert_relationship insert_links
    affinity
plan_run = refl

abbrev view_a : DogMemoryView
view_a = record {
  dog_id = codes "dog_a";
  peer_id = codes "dog_b";
  affinity = 10;
  familiar = false;
  latest_memory_id = some (codes "s1/dog_b/2/completed");
}

abbrev views_after : PairSnapshot
views_after = record {
  mode = Mode.simulation;
  cautious = view_a;
  outgoing = record view_a { dog_id = codes "dog_b"; peer_id = codes "dog_a" };
}

snapshot_after : snapshot runtime after_session ≡ (ok views_after, after_session)
unfolding run_plan execute recover find_0 find_1 get read_profile check_schema text_eq find_memory
    find_row adapter_for dispatch judge route_matches simulation_adapter simulate check_receipt
    source_allowed persist persist_from completion_memory completion_memory_id is_valid_input
    append_0 append_1 append insert_all insert_memory row_checks upsert_relationship insert_links
    affinity snapshot recalls dog_with_role recall_for recall facts thoughts select stored
    evidence_of text_lt
snapshot_after = refl

abbrev context : SessionContext
context = record {
  session_id = codes "s1";
  identity = met;
  initiator_id = some (codes "dog_a");
  before = views_after;
}

conclude_valid_example :
    IsSummarized runtime context (finished (greet_report ∷ reply_report ∷ [])) after_session
unfolding is_session_identifier
conclude_valid_example =
    conclude_valid runtime never_stop greet reply context world refl refl plan_run snapshot_after
