-- ===== src/Demo/PairConnection.antt =====
-- packages/dogos_demo/pair_connection.py and connection_models.py: whether both robots are reached,
-- each over its own route. A WebSocket URL is its text.
pub mod Readiness
use dogos_memory.Base.{
  Bool, Option, Result, Text, [], all, any, false, if◌then◌else◌, none, not, ok, some, text_eq,
  true, ℕ, ◌&&◌, ◌>>=◌, ◌>>◌, ◌∷◌,
}

pub data EndpointConnectionState : Type 0 where
  connected unreachable protocol_error identity_mismatch : EndpointConnectionState

pub data PairConnectionState : Type 0 where
  ready degraded routing_conflict duplicate_device : PairConnectionState

pub record VbotEndpoint : Type 0 where
  pub dog_id : Text
  pub adapter_id : Text
  pub url : Text
  pub expected_robot_id : Text

-- `dogs` is a pair: `endpoint_0` and `endpoint_1`
pub record PairConnectionConfig : Type 0 where
  pub timeout_ms : ℕ
  pub endpoint_0 : VbotEndpoint
  pub endpoint_1 : VbotEndpoint

-- `check_pair_contract`
unfoldable pub check_pair_connection : PairConnectionConfig → Bool
check_pair_connection c =
    not (text_eq c.endpoint_0.dog_id c.endpoint_1.dog_id)
    && not (text_eq c.endpoint_0.adapter_id c.endpoint_1.adapter_id)
    && not (text_eq c.endpoint_0.url c.endpoint_1.url)
    && not (text_eq c.endpoint_0.expected_robot_id c.endpoint_1.expected_robot_id)

pub record EndpointConnectionReport : Type 0 where
  pub dog_id : Text
  pub adapter_id : Text
  pub url : Text
  pub state : EndpointConnectionState
  pub expected_robot_id : Text
  pub observed_robot_id : Option Text
  pub observed_robot_pn : Option Text
  pub detail : Text

abbrev pub id_is : Option Text → Text → Bool
id_is none id = false
id_is (some observed) id = text_eq observed id

-- `check_connected_identity`
abbrev pub identity_valid : EndpointConnectionState → EndpointConnectionReport → Bool
identity_valid connected r = id_is r.observed_robot_id r.expected_robot_id
identity_valid _ r = true

unfoldable pub check_connected_identity : EndpointConnectionReport → Bool
check_connected_identity r = identity_valid r.state r

pub record PairConnectionReport : Type 0 where
  pub state : PairConnectionState
  pub report_0 : EndpointConnectionReport
  pub report_1 : EndpointConnectionReport

-- `observed_robot_id is not None and observed_robot_id != expected_robot_id`
abbrev pub is_mismatched : Option Text → Text → Bool
is_mismatched none id = false
is_mismatched (some observed) id = not (text_eq observed id)

abbrev pub normalized :
    EndpointConnectionState → Text → EndpointConnectionReport → EndpointConnectionReport
normalized connected detail r =
    if is_mismatched r.observed_robot_id r.expected_robot_id
    then record r { state = identity_mismatch; detail = detail }
    else r
normalized _ detail r = r

-- `_normalize_verified_identity`; `detail` is its fixed message
unfoldable pub normalize_verified_identity :
    Text → EndpointConnectionReport → EndpointConnectionReport
normalize_verified_identity detail r = normalized r.state detail r

-- `_trusted_robot_id`
abbrev pub trusted_robot_id : EndpointConnectionState → Option Text → Option Text
trusted_robot_id connected id = id
trusted_robot_id identity_mismatch id = id
trusted_robot_id _ id = none

abbrev pub is_connected : EndpointConnectionState → Bool
is_connected connected = true
is_connected _ = false

abbrev pub is_identity_mismatch : EndpointConnectionState → Bool
is_identity_mismatch identity_mismatch = true
is_identity_mismatch _ = false

-- `first_id is not None and first_id == second_id`
abbrev pub is_duplicate : Option Text → Option Text → Bool
is_duplicate (some a) (some b) = text_eq a b
is_duplicate _ _ = false

unfoldable pub pair_state :
    EndpointConnectionReport → EndpointConnectionReport → PairConnectionState
pair_state a b =
    if is_duplicate (trusted_robot_id a.state a.observed_robot_id)
      (trusted_robot_id b.state b.observed_robot_id)
    then duplicate_device
    else if any is_identity_mismatch (a.state ∷ b.state ∷ [])
    then routing_conflict
    else if all is_connected (a.state ∷ b.state ∷ [])
    then ready
    else degraded

-- `check_pair_connections`; the probe is an argument, and what it raises passes through
unfoldable pub check_pair_connections :
    {E : Type 0}
    → Text
    → (VbotEndpoint → ℕ → Result E EndpointConnectionReport)
    → PairConnectionConfig
    → Result E PairConnectionReport
check_pair_connections detail probe c = do
  a ← probe c.endpoint_0 c.timeout_ms
  b ← probe c.endpoint_1 c.timeout_ms
  let first_report = normalize_verified_identity detail a
  let second_report = normalize_verified_identity detail b
  ok (record {
    state = pair_state first_report second_report;
    report_0 = first_report;
    report_1 = second_report;
  })
