-- ===== src/Demo/Identity.antt =====
-- packages/dogos_demo/identity.py: the encounter gate. Each method returns the decision and the gate
-- after it.
pub mod Contract
pub mod Streak
pub mod Cooldown
use dogos_memory.Base.{
  Bool, List, Option, Result, Text, [], all, false, if◌then◌else◌, is_some, keep, leb, ltb, max,
  none, not, ok, require, some, text_eq, ℕ, ◌&&◌, ◌++◌, ◌+◌, ◌>>=◌, ◌>>◌, ◌∷◌,
}
use dogos_memory.Demo.Models.{
  DemoConfig, DemoError, IdentityDecision, IdentityReason, IdentitySource, IdentityStatus,
  ManualEncounter, TagDetection, TagFrame, apriltag, camera_conflict, cooldown, find_dog, find_tag,
  low_confidence, no_detection, operator, out_of_order, owner_mismatch, owner_not_configured,
  peer_not_configured, pending, rejected, self_tag, stabilizing, suppressed, unknown_tag,
}
use dogos_memory.Memory.Models.{is_empty}

pub data FrameResolution : Type 0 where
  resolved_peer : Text → FrameResolution
  rejected_frame : IdentityReason → FrameResolution

pub record EncounterGate : Type 0 where
  pub config : DemoConfig
  pub owner_id : Text
  pub candidate_id : Option Text
  pub stable_frames : ℕ
  pub last_frame_ms : Option ℕ
  pub last_confirmed_id : Option Text
  pub last_confirmed_ms : Option ℕ

-- `__init__`
unfoldable pub new_gate : DemoConfig → Text → Result DemoError EncounterGate
new_gate config owner_id = do
  require (is_some (find_dog config owner_id)) owner_not_configured
  ok (record {
    config = config;
    owner_id = owner_id;
    candidate_id = none;
    stable_frames = 0;
    last_frame_ms = none;
    last_confirmed_id = none;
    last_confirmed_ms = none;
  })

abbrev pub clear_stability : EncounterGate → EncounterGate
clear_stability g = record g { candidate_id = none; stable_frames = 0 }

-- `_reject`
abbrev pub reject : IdentityReason → ℕ → EncounterGate → IdentityDecision × EncounterGate
reject reason now g = (
  record {
    status = rejected;
    reason = reason;
    owner_id = g.owner_id;
    peer_id = none;
    source = none;
    observed_at_ms = now;
    stable_frames = 0;
  },
  clear_stability g,
)

abbrev pub is_valid_detection : TagDetection → Bool
is_valid_detection d = d.valid

abbrev pub option_list : Option TagDetection → List TagDetection
option_list none = []
option_list (some d) = d ∷ []

-- `_resolve`
abbrev pub resolve : DemoConfig → TagDetection → Option Text
resolve c d = elim (find_tag c d.family d.tag_id) [ none ↦ none | some dog ↦ some dog.dog_id ]

-- the detections' dogs, or `none` if one of them is unknown
abbrev pub resolve_all : DemoConfig → List TagDetection → Option (List Text)
resolve_all c [] = some []
resolve_all c (d ∷ ds) = elim (resolve c d) [
  | none ↦ none
  | some id ↦ elim (resolve_all c ds) [ none ↦ none | some ids ↦ some (id ∷ ids) ]
]

-- `len(set(known)) != 1` on a non-empty tuple: another member differs from the first
abbrev pub known_peer : Text → Option (List Text) → FrameResolution
known_peer owner none = rejected_frame unknown_tag
known_peer owner (some []) = rejected_frame camera_conflict
known_peer owner (some (id ∷ ids)) =
    if all (text_eq id) ids
    then if text_eq id owner then rejected_frame self_tag else resolved_peer id
    else rejected_frame camera_conflict

-- `_resolve_frame`
unfoldable pub resolve_frame : DemoConfig → Text → TagFrame → FrameResolution
resolve_frame c owner frame =
    let detections = keep is_valid_detection (option_list frame.left ++ option_list frame.right) in
    let confident = keep (λ d. leb c.min_decision_margin d.decision_margin) detections in
    if is_empty detections
    then rejected_frame no_detection
    else if is_empty confident
    then rejected_frame low_confidence
    else known_peer owner (resolve_all c confident)

-- `observed_at_ms <= self._last_frame_ms`
abbrev pub out_of_order_at : Option ℕ → ℕ → Bool
out_of_order_at none now = false
out_of_order_at (some last) now = leb now last

-- `observed_at_ms - self._last_frame_ms > max_frame_gap_ms`
abbrev pub gap_exceeded : Option ℕ → ℕ → ℕ → Bool
gap_exceeded none gap now = false
gap_exceeded (some last) gap now = ltb (last + gap) now

-- `_advance_frame_clock`: `none` where it returns OUT_OF_ORDER
unfoldable pub advance_frame_clock : ℕ → EncounterGate → Option EncounterGate
advance_frame_clock now g =
    if out_of_order_at g.last_frame_ms now
    then none
    else some
        (record (if gap_exceeded g.last_frame_ms g.config.max_frame_gap_ms now
          then clear_stability g
          else g) { last_frame_ms = some now })

-- `observed_at_ms - self._last_confirmed_ms < encounter_cooldown_ms`, over the integers
abbrev pub within_cooldown : Option Text → Option ℕ → Text → ℕ → ℕ → Bool
within_cooldown (some id) (some last) peer cooldown_ms now =
    text_eq id peer && ltb now (last + cooldown_ms)
within_cooldown _ _ peer cooldown_ms now = false

-- `_confirm`
unfoldable pub confirm :
    Text → ℕ → IdentitySource → EncounterGate → IdentityDecision × EncounterGate
confirm peer now source g =
    if within_cooldown g.last_confirmed_id g.last_confirmed_ms peer g.config.encounter_cooldown_ms
      now
    then (
      record {
        status = suppressed;
        reason = cooldown;
        owner_id = g.owner_id;
        peer_id = some peer;
        source = some source;
        observed_at_ms = now;
        stable_frames = 0;
      },
      clear_stability g,
    )
    else (
      record {
        status = IdentityStatus.confirmed;
        reason = IdentityReason.confirmed;
        owner_id = g.owner_id;
        peer_id = some peer;
        source = some source;
        observed_at_ms = now;
        stable_frames = max 1 g.stable_frames;
      },
      record (clear_stability g) { last_confirmed_id = some peer; last_confirmed_ms = some now },
    )

abbrev pub is_candidate : Option Text → Text → Bool
is_candidate none peer = false
is_candidate (some id) peer = text_eq peer id

-- the gate after the candidate of `_accumulate` is set and the frame is counted
unfoldable pub count_frame : Text → EncounterGate → EncounterGate
count_frame peer g =
    if is_candidate g.candidate_id peer
    then record g { stable_frames = g.stable_frames + 1 }
    else record g { candidate_id = some peer; stable_frames = 1 }

-- `_accumulate`
unfoldable pub accumulate : Text → ℕ → EncounterGate → IdentityDecision × EncounterGate
accumulate peer now g =
    let counted = count_frame peer g in
    if ltb counted.stable_frames g.config.stable_frames
    then (
      record {
        status = pending;
        reason = stabilizing;
        owner_id = g.owner_id;
        peer_id = some peer;
        source = some apriltag;
        observed_at_ms = now;
        stable_frames = counted.stable_frames;
      },
      counted,
    )
    else confirm peer now apriltag counted

abbrev pub observe_resolved : FrameResolution → ℕ → EncounterGate → IdentityDecision × EncounterGate
observe_resolved (rejected_frame reason) now g = reject reason now g
observe_resolved (resolved_peer peer) now g = accumulate peer now g

abbrev pub observe_clocked :
    TagFrame → EncounterGate → Option EncounterGate → IdentityDecision × EncounterGate
observe_clocked frame g none = reject out_of_order frame.observed_at_ms g
observe_clocked frame g (some g') =
    observe_resolved (resolve_frame g.config g.owner_id frame) frame.observed_at_ms g'

unfoldable pub observe : TagFrame → EncounterGate → IdentityDecision × EncounterGate
observe frame g =
    if text_eq frame.owner_id g.owner_id
    then observe_clocked frame g (advance_frame_clock frame.observed_at_ms g)
    else reject owner_mismatch frame.observed_at_ms g

unfoldable pub confirm_manual : ManualEncounter → EncounterGate → IdentityDecision × EncounterGate
confirm_manual e g =
    if not (text_eq e.owner_id g.owner_id)
    then reject owner_mismatch e.observed_at_ms g
    else if text_eq e.peer_id g.owner_id
    then reject self_tag e.observed_at_ms g
    else if not (is_some (find_dog g.config e.peer_id))
    then reject peer_not_configured e.observed_at_ms g
    else confirm e.peer_id e.observed_at_ms operator g
