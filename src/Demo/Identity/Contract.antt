-- ===== src/Demo/Identity/Contract.antt =====
-- Every decision of the gate is one that the model `IdentityDecision` accepts.
use dogos_memory.Base.{
  Bool-cases, Option-cases, Text, arith, inl, inr, none, ok, some, text_eq, true, ℕ, ◌<◌, ◌∙◌, ◌≡◌,
  ◌≤◌,
}
use dogos_memory.Demo.Identity.{
  EncounterGate, FrameResolution, accumulate, advance_frame_clock, confirm, confirm_manual,
  count_frame, new_gate, observe, observe_clocked, observe_resolved, reject, rejected_frame,
  resolve_frame, resolved_peer,
}
use dogos_memory.Demo.Models.{
  DemoConfig, IdentityDecision, IdentityReason, IdentitySource, ManualEncounter, TagFrame, apriltag,
  check_decision_contract, config_fields_valid, operator, out_of_order, owner_mismatch,
  peer_not_configured, self_tag,
}

-- The frames counted stay below the number that confirms, which is 1 to 10.
pub record IsReady (g : EncounterGate) : Type 0 where
  pub counted : g.stable_frames < g.config.stable_frames
  pub bounded : g.config.stable_frames ≤ 10

-- A gate that is constructed from a valid configuration is ready.
pub new_gate-IsReady :
    (c : DemoConfig) (owner : Text) {g : EncounterGate}
    → config_fields_valid c ≡ true
    → new_gate c owner ≡ ok g
    → IsReady g
unfolding new_gate config_fields_valid
new_gate-IsReady c owner v h = ground arith

pub new_gate-fields :
    (c : DemoConfig) (owner : Text) {g : EncounterGate}
    → new_gate c owner ≡ ok g
    → (g.candidate_id ≡ none) × (g.stable_frames ≡ 0) × (g.config ≡ c) × (g.owner_id ≡ owner)
unfolding new_gate
new_gate-fields c owner h = ground arith

-- A step of the gate ends well if its decision is accepted and the gate is ready again.
abbrev pub EndsWell : EncounterGate → IdentityDecision × EncounterGate → Type 0
EndsWell g (d, g') =
    (check_decision_contract d ≡ true)
    × IsReady g'
    × (g'.config ≡ g.config)
    × (g'.owner_id ≡ g.owner_id)

reject-EndsWell :
    (reason : IdentityReason) (now : ℕ) (g : EncounterGate)
    → IsReady g
    → EndsWell g (reject reason now g)
unfolding check_decision_contract
reject-EndsWell reason now g r = ground arith

pub confirm-EndsWell :
    (peer : Text) (now : ℕ) (source : IdentitySource) (g : EncounterGate)
    → 0 < g.config.stable_frames
    → g.stable_frames ≤ g.config.stable_frames
    → g.config.stable_frames ≤ 10
    → EndsWell g (confirm peer now source g)
unfolding check_decision_contract confirm
confirm-EndsWell peer now source g a b c = ground arith

accumulate-EndsWell :
    (peer : Text) (now : ℕ) (g : EncounterGate) → IsReady g → EndsWell g (accumulate peer now g)
unfolding check_decision_contract accumulate count_frame
accumulate-EndsWell peer now g r =
    ground (arith, confirm-EndsWell peer now apriltag (count_frame peer g))

observe_resolved-EndsWell :
    (r : FrameResolution) (now : ℕ) (g : EncounterGate)
    → IsReady g
    → EndsWell g (observe_resolved r now g)
observe_resolved-EndsWell (rejected_frame reason) now g r = reject-EndsWell reason now g r
observe_resolved-EndsWell (resolved_peer peer) now g r = accumulate-EndsWell peer now g r

pub advance_frame_clock-inv :
    (now : ℕ) (g : EncounterGate) {g' : EncounterGate}
    → advance_frame_clock now g ≡ some g'
    → (g'.config ≡ g.config) × (g'.owner_id ≡ g.owner_id) × (g'.stable_frames ≤ g.stable_frames)
unfolding advance_frame_clock
advance_frame_clock-inv now g h = ground arith

observe_clocked-EndsWell :
    (f : TagFrame) (g : EncounterGate)
    → IsReady g
    → EndsWell g (observe_clocked f g (advance_frame_clock f.observed_at_ms g))
observe_clocked-EndsWell f g r = elim (Option-cases (advance_frame_clock f.observed_at_ms g)) [
  | inl e ↦ rw e (reject-EndsWell out_of_order f.observed_at_ms g r)
  | inr (g', e) ↦
      let (c, o, n) = advance_frame_clock-inv f.observed_at_ms g e in
      let ready : IsReady g' = ground arith in
      let (a, b, d, i) =
        observe_resolved-EndsWell (resolve_frame g.config g.owner_id f) f.observed_at_ms g' ready in
      rw e (a, b, d ∙ c, i ∙ o)
]

pub observe-EndsWell : (f : TagFrame) (g : EncounterGate) → IsReady g → EndsWell g (observe f g)
unfolding observe
observe-EndsWell f g r = elim (Bool-cases (text_eq f.owner_id g.owner_id)) [
  | inl p ↦ rw p (observe_clocked-EndsWell f g r)
  | inr p ↦ rw p (reject-EndsWell owner_mismatch f.observed_at_ms g r)
]

-- From a ready gate every frame and every manual encounter, whatever they hold, is answered by a
-- decision that meets the contract of its status, and the gate stays ready.
pub gate_contract :
    (f : TagFrame) (e : ManualEncounter) (g : EncounterGate)
    → IsReady g
    → EndsWell g (observe f g) × EndsWell g (confirm_manual e g)
unfolding confirm_manual
gate_contract f e g r = (
  observe-EndsWell f g r,
  ground (
    arith,
    reject-EndsWell owner_mismatch e.observed_at_ms g r,
    reject-EndsWell self_tag e.observed_at_ms g r,
    reject-EndsWell peer_not_configured e.observed_at_ms g r,
    confirm-EndsWell e.peer_id e.observed_at_ms operator g,
  ),
)
