-- ===== src/Demo/Models.antt =====
-- packages/dogos_demo/models.py: configuration of the pair, tag frames and identity decisions.
-- A decision margin is a double in [0, 1000000] that is only compared, so it is counted in units of
-- 2^-1074, the smallest positive double: every such double is a whole number of them.
use dogos_memory.Base.{
  Bool, List, Option, Text, [], all, false, first, is_some, leb, ltb, not, some, text_eq, true, ℕ,
  ◌&&◌, ◌==◌, ◌∷◌,
}
use dogos_memory.Memory.Models.{Mode, StoreError, fits}

pub data DogRole : Type 0 where
  cautious outgoing : DogRole

pub data IdentitySource : Type 0 where
  operator apriltag : IdentitySource

pub data IdentityStatus : Type 0 where
  pending confirmed rejected suppressed : IdentityStatus

pub data IdentityReason : Type 0 where
  stabilizing confirmed no_detection low_confidence unknown_tag self_tag : IdentityReason
  camera_conflict out_of_order owner_mismatch peer_not_configured cooldown : IdentityReason

-- the codes of `DemoError`, and the errors of a store or of a pydantic model that pass through
pub data DemoError : Type 0 where
  role_configuration initiator_not_configured owner_not_configured : DemoError
  adapter_binding_missing adapter_binding_mismatch completion_conflict : DemoError
  unconfirmed_persistence missing_completion_source invalid_recovered_completion : DemoError
  invalid_completion_source store_binding_missing session_plan_conflict : DemoError
  session_actor_not_configured : DemoError
  store_error : StoreError → DemoError
  validation_error : DemoError

pub record DogConfig : Type 0 where
  pub dog_id : Text
  pub name : Text
  pub role : DogRole
  pub adapter_id : Text
  pub tag_family : Text
  pub tag_id : ℕ
  pub familiar_threshold : ℕ
  pub affinity_gain : ℕ

-- `dogs` is a pair: `dog_0` and `dog_1`
pub record DemoConfig : Type 0 where
  pub mode : Mode
  pub dog_0 : DogConfig
  pub dog_1 : DogConfig
  pub stable_frames : ℕ
  pub min_decision_margin : ℕ
  pub max_frame_gap_ms : ℕ
  pub encounter_cooldown_ms : ℕ

abbrev pub dogs : DemoConfig → List DogConfig
dogs c = c.dog_0 ∷ c.dog_1 ∷ []

abbrev pub role_eq : DogRole → DogRole → Bool
role_eq cautious cautious = true
role_eq outgoing outgoing = true
role_eq _ _ = false

abbrev pub same_tag : DogConfig → DogConfig → Bool
same_tag a b = text_eq a.tag_family b.tag_family && a.tag_id == b.tag_id

-- `check_pair_contract`: a set of two has size 2 if its members differ
unfoldable pub check_pair_contract : DemoConfig → Bool
check_pair_contract c =
    not (text_eq c.dog_0.dog_id c.dog_1.dog_id)
    && not (text_eq c.dog_0.adapter_id c.dog_1.adapter_id)
    && not (same_tag c.dog_0 c.dog_1)
    && not (role_eq c.dog_0.role c.dog_1.role)

-- the numeric constraints of the fields
unfoldable pub config_fields_valid : DemoConfig → Bool
config_fields_valid c =
    fits 1 10 c.stable_frames
    && fits 1 10000 c.max_frame_gap_ms
    && leb c.encounter_cooldown_ms 3600000
    && all (λ d. fits 1 100 d.familiar_threshold && fits 1 100 d.affinity_gain) (dogs c)

-- `find_dog`
unfoldable pub find_dog : DemoConfig → Text → Option DogConfig
find_dog c id = first (λ d. text_eq d.dog_id id) (dogs c)

-- `find_tag`
unfoldable pub find_tag : DemoConfig → Text → ℕ → Option DogConfig
find_tag c family tag = first (λ d. text_eq d.tag_family family && d.tag_id == tag) (dogs c)

pub record TagDetection : Type 0 where
  pub family : Text
  pub tag_id : ℕ
  pub decision_margin : ℕ
  pub valid : Bool

pub record TagFrame : Type 0 where
  pub owner_id : Text
  pub observed_at_ms : ℕ
  pub left : Option TagDetection
  pub right : Option TagDetection

pub record ManualEncounter : Type 0 where
  pub owner_id : Text
  pub peer_id : Text
  pub observed_at_ms : ℕ

pub record IdentityDecision : Type 0 where
  pub status : IdentityStatus
  pub reason : IdentityReason
  pub owner_id : Text
  pub peer_id : Option Text
  pub source : Option IdentitySource
  pub observed_at_ms : ℕ
  pub stable_frames : ℕ

abbrev reason_is_confirmed : IdentityReason → Bool
reason_is_confirmed IdentityReason.confirmed = true
reason_is_confirmed _ = false

abbrev reason_is_stabilizing : IdentityReason → Bool
reason_is_stabilizing stabilizing = true
reason_is_stabilizing _ = false

abbrev reason_is_cooldown : IdentityReason → Bool
reason_is_cooldown cooldown = true
reason_is_cooldown _ = false

abbrev is_apriltag : Option IdentitySource → Bool
is_apriltag (some apriltag) = true
is_apriltag _ = false

abbrev decision_valid : IdentityStatus → IdentityDecision → Bool
decision_valid IdentityStatus.confirmed d =
    reason_is_confirmed d.reason && is_some d.peer_id && is_some d.source && ltb 0 d.stable_frames
decision_valid pending d =
    reason_is_stabilizing d.reason
    && is_some d.peer_id
    && is_apriltag d.source
    && ltb 0 d.stable_frames
decision_valid rejected d =
    not (is_some d.peer_id) && not (is_some d.source) && d.stable_frames == 0
decision_valid suppressed d =
    reason_is_cooldown d.reason && is_some d.peer_id && is_some d.source && d.stable_frames == 0

-- what the constructor `IdentityDecision(...)` accepts: `check_decision_contract`, and the bounds of
-- `stable_frames`
unfoldable pub check_decision_contract : IdentityDecision → Bool
check_decision_contract d = decision_valid d.status d && leb d.stable_frames 10
