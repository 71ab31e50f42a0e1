-- ===== src/Demo/Tests/Connection.antt =====
-- Two probes that answer as the pair is configured.
use dogos_memory.Base.{Result, Text, codes, if◌then◌else◌, none, ok, refl, some, text_eq, ℕ, ◌≡◌}
use dogos_memory.Demo.Models.{DemoError}
use dogos_memory.Demo.PairConnection.{
  EndpointConnectionReport, PairConnectionConfig, PairConnectionReport, VbotEndpoint,
  check_pair_connections, connected, identity_mismatch, normalize_verified_identity, pair_state,
  ready, routing_conflict,
}
use dogos_memory.Demo.PairConnection.Readiness.{IsVerdict, check_pair_connections-IsVerdict}

abbrev endpoint_a : VbotEndpoint
endpoint_a = record {
  dog_id = codes "dog_a";
  adapter_id = codes "a";
  url = codes "ws://a";
  expected_robot_id = codes "vbot-1";
}

abbrev connection : PairConnectionConfig
connection = record {
  timeout_ms = 2000;
  endpoint_0 = endpoint_a;
  endpoint_1 = record {
    dog_id = codes "dog_b";
    adapter_id = codes "b";
    url = codes "ws://b";
    expected_robot_id = codes "vbot-2";
  };
}

abbrev answer : VbotEndpoint → EndpointConnectionReport
answer e = record {
  dog_id = e.dog_id;
  adapter_id = e.adapter_id;
  url = e.url;
  state = connected;
  expected_robot_id = e.expected_robot_id;
  observed_robot_id = some e.expected_robot_id;
  observed_robot_pn = none;
  detail = codes "ok";
}

abbrev probe : VbotEndpoint → ℕ → Result DemoError EndpointConnectionReport
probe e timeout = ok (answer e)

abbrev pair_answer : PairConnectionReport
pair_answer = record {
  state = ready;
  report_0 = answer endpoint_a;
  report_1 = answer (connection.endpoint_1);
}

pair_probed : check_pair_connections (codes "mismatch") probe connection ≡ ok pair_answer
unfolding check_pair_connections normalize_verified_identity pair_state text_eq
pair_probed = refl

-- the robots of the two routes have been swapped: no route is trusted
abbrev swapped : Text → EndpointConnectionReport → EndpointConnectionReport
swapped id r = record r { observed_robot_id = some id }

abbrev swapped_probe : VbotEndpoint → ℕ → Result DemoError EndpointConnectionReport
swapped_probe e timeout = ok (
    swapped (if text_eq e.dog_id (codes "dog_a") then codes "vbot-2" else codes "vbot-1")
      (answer e))

check_pair_connections-IsVerdict_example :
    (verdict : PairConnectionReport) × (check_pair_connections
        (codes "mismatch")
        swapped_probe
        connection
      ≡ ok verdict)
    × IsVerdict
        (swapped (codes "vbot-2") (answer endpoint_a))
        (swapped (codes "vbot-1") (answer (connection.endpoint_1)))
        verdict
unfolding text_eq
check_pair_connections-IsVerdict_example =
    check_pair_connections-IsVerdict (codes "mismatch") swapped_probe connection
      (swapped (codes "vbot-2") (answer endpoint_a))
      (swapped (codes "vbot-1") (answer (connection.endpoint_1))) refl refl

swapped_conflict :
    check_pair_connections (codes "mismatch") swapped_probe connection
    ≡ ok (record {
      state = routing_conflict;
      report_0 = record (swapped (codes "vbot-2") (answer endpoint_a)) {
        state = identity_mismatch;
        detail = codes "mismatch";
      };
      report_1 = record (swapped (codes "vbot-1") (answer (connection.endpoint_1))) {
        state = identity_mismatch;
        detail = codes "mismatch";
      };
    })
unfolding check_pair_connections normalize_verified_identity pair_state text_eq
swapped_conflict = refl
