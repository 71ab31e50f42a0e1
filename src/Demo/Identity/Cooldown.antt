-- ===== src/Demo/Identity/Cooldown.antt =====
-- The same encounter is not confirmed twice within the cooldown.
use dogos_memory.Base.{
  All, Bool-cases, List, Option-cases, Text, [], ap, arith, false, inl, inr, is_some, keep, leb,
  some, text_eq, text_eq_iff, true, ℕ, ◌++◌, ◌+◌, ◌<◌, ◌∙◌, ◌∷◌, ◌≡◌, ◌≢◌, ◌⊎◌,
}
use dogos_memory.Demo.Identity.{
  EncounterGate, accumulate, advance_frame_clock, confirm, confirm_manual, count_frame,
  is_valid_detection, known_peer, observe, option_list, reject, resolve, resolve_all, resolve_frame,
  resolved_peer,
}
use dogos_memory.Demo.Identity.Contract.{advance_frame_clock-inv}
use dogos_memory.Demo.Identity.Streak.{FrameResolution-cases}
use dogos_memory.Demo.Models.{
  DemoConfig, IdentityDecision, IdentityReason, IdentitySource, IdentityStatus, ManualEncounter,
  TagDetection, TagFrame, apriltag, find_dog, find_tag, operator, out_of_order, owner_mismatch,
  peer_not_configured, self_tag,
}

pub data GateEvent : Type 0 where
  frame : TagFrame → GateEvent
  manual : ManualEncounter → GateEvent

abbrev pub time_of : GateEvent → ℕ
time_of (frame f) = f.observed_at_ms
time_of (manual e) = e.observed_at_ms

unfoldable pub gate_step : GateEvent → EncounterGate → IdentityDecision × EncounterGate
gate_step (frame f) g = observe f g
gate_step (manual e) g = confirm_manual e g

-- The decisions that a gate gives to a list of events, in order.
unfoldable pub decisions_seen : List GateEvent → EncounterGate → List IdentityDecision
decisions_seen [] g = []
decisions_seen (e ∷ es) g = let (d, g') = gate_step e g in d ∷ decisions_seen es g'

-- The gate remembers a confirmation of `peer` at `now`, for one peer that can be confirmed.
record Remembers (peer : Text) (now : ℕ) (c : DemoConfig) (g : EncounterGate) : Type 0 where
  id : g.last_confirmed_id ≡ some peer
  at : g.last_confirmed_ms ≡ some now
  config : g.config ≡ c

abbrev NotConfirmed : IdentityDecision → Type 0
NotConfirmed d = d.status ≢ IdentityStatus.confirmed

-- One of the two configured dogs that is not the owner.
abbrev IsPeer : DemoConfig → Text → Text → Type 0
IsPeer c owner p = ((p ≡ c.dog_0.dog_id) ⊎ (p ≡ c.dog_1.dog_id)) × (text_eq p owner ≡ false)

-- There is one such dog.
IsPeer-unique :
    (c : DemoConfig) (owner p q : Text)
    → is_some (find_dog c owner) ≡ true
    → IsPeer c owner p
    → IsPeer c owner q
    → p ≡ q
unfolding find_dog
IsPeer-unique c owner p q o hp hq = ground (
  arith,
  text_eq_iff c.dog_0.dog_id owner,
  text_eq_iff c.dog_1.dog_id owner,
  text_eq_iff p owner,
  text_eq_iff q owner,
)

find_dog-IsPeer :
    (c : DemoConfig) (o q : Text)
    → is_some (find_dog c q) ≡ true
    → text_eq q o ≡ false
    → IsPeer c o q
unfolding find_dog
find_dog-IsPeer c o q h ne =
    ground (arith, text_eq_iff c.dog_0.dog_id q, text_eq_iff c.dog_1.dog_id q)

resolve-configured :
    (c : DemoConfig) (d : TagDetection) (id : Text)
    → resolve c d ≡ some id
    → (id ≡ c.dog_0.dog_id) ⊎ (id ≡ c.dog_1.dog_id)
unfolding find_tag
resolve-configured c d id h = ground arith

known_peer-IsPeer :
    (c : DemoConfig) (owner p : Text) (ds : List TagDetection)
    → known_peer owner (resolve_all c ds) ≡ resolved_peer p
    → IsPeer c owner p
known_peer-IsPeer c owner p [] h = ground arith
known_peer-IsPeer c owner p (d ∷ ds) h = elim (Option-cases (resolve c d)) [
  | inl e ↦ ground arith
  | inr (id, e) ↦ elim (Option-cases (resolve_all c ds)) [
    | inl q ↦ ground arith
    | inr (ids, q) ↦ ground (arith, resolve-configured c d id e)
  ]
]

resolve_frame-IsPeer :
    (c : DemoConfig) (owner p : Text) (f : TagFrame)
    → resolve_frame c owner f ≡ resolved_peer p
    → IsPeer c owner p
unfolding resolve_frame
resolve_frame-IsPeer c owner p f h =
    let detections = keep is_valid_detection (option_list f.left ++ option_list f.right) in
    let confident = keep (λ d. leb c.min_decision_margin d.decision_margin) detections in
    ground (arith, known_peer-IsPeer c owner p confident)

-- From a gate of owner `o` that remembers `p`, an event before the end of the cooldown is not
-- confirmed, and the gate goes on remembering `p`.
abbrev IsQuiet : Text → ℕ → DemoConfig → Text → IdentityDecision × EncounterGate → Type 0
IsQuiet p now c o (d, g) = NotConfirmed d × Remembers p now c g × (g.owner_id ≡ o)

module _ (p : Text) (now : ℕ) (c : DemoConfig) (o : Text) (owned : is_some (find_dog c o) ≡ true)
    (peer : IsPeer c o p) where
  reject-IsQuiet :
      (reason : IdentityReason) (t : ℕ) (g : EncounterGate)
      → Remembers p now c g
      → g.owner_id ≡ o
      → IsQuiet p now c o (reject reason t g)
  reject-IsQuiet reason t g r e = (λ h. cc, record { id = r.id; at = r.at; config = r.config }, e)

  confirm-IsQuiet :
      (q : Text) (t : ℕ) (s : IdentitySource) (g : EncounterGate)
      → q ≡ p
      → Remembers p now c g
      → g.owner_id ≡ o
      → t < now + c.encounter_cooldown_ms
      → IsQuiet p now c o (confirm q t s g)
  unfolding confirm
  confirm-IsQuiet q t s g same r e h =
      ground (arith, text_eq_iff p q, ap (λ (x : DemoConfig). x.encounter_cooldown_ms) r.config)

  accumulate-IsQuiet :
      (q : Text) (t : ℕ) (g : EncounterGate)
      → q ≡ p
      → Remembers p now c g
      → g.owner_id ≡ o
      → t < now + c.encounter_cooldown_ms
      → IsQuiet p now c o (accumulate q t g)
  unfolding accumulate count_frame
  accumulate-IsQuiet q t g same r e h =
      ground (arith, confirm-IsQuiet q t apriltag (count_frame q g) same)

  advance-Remembers :
      (t : ℕ) (g g' : EncounterGate)
      → Remembers p now c g
      → advance_frame_clock t g ≡ some g'
      → Remembers p now c g'
  unfolding advance_frame_clock
  advance-Remembers t g g' r h = ground arith

  observe-IsQuiet :
      (f : TagFrame) (g : EncounterGate)
      → Remembers p now c g
      → g.owner_id ≡ o
      → f.observed_at_ms < now + c.encounter_cooldown_ms
      → IsQuiet p now c o (observe f g)
  unfolding observe
  observe-IsQuiet f g r e h = elim (Bool-cases (text_eq f.owner_id g.owner_id)) [
    | inr x ↦ rw x (reject-IsQuiet owner_mismatch f.observed_at_ms g r e)
    | inl x ↦ rw x (elim (Option-cases (advance_frame_clock f.observed_at_ms g)) [
      | inl y ↦ rw y (reject-IsQuiet out_of_order f.observed_at_ms g r e)
      | inr (g', y) ↦
          let (_, i, _) = advance_frame_clock-inv f.observed_at_ms g y in
          let r' = advance-Remembers f.observed_at_ms g g' r y in
          elim (FrameResolution-cases (resolve_frame g.config g.owner_id f)) [
            | inr (reason, z) ↦ rw (y, z) (reject-IsQuiet reason f.observed_at_ms g' r' (i ∙ e))
            | inl (q, z) ↦
                let found : IsPeer c o q = resolve_frame-IsPeer c o q f (cc (z, r.config, e)) in
                rw (y, z)
                  (accumulate-IsQuiet q f.observed_at_ms g' (IsPeer-unique c o q p owned found peer)
                    r' (i ∙ e) h)
          ]
    ])
  ]

  confirm_manual-IsQuiet :
      (e : ManualEncounter) (g : EncounterGate)
      → Remembers p now c g
      → g.owner_id ≡ o
      → e.observed_at_ms < now + c.encounter_cooldown_ms
      → IsQuiet p now c o (confirm_manual e g)
  unfolding confirm_manual
  confirm_manual-IsQuiet e g r i h = elim (Bool-cases (text_eq e.owner_id g.owner_id)) [
    | inr x ↦ rw x (reject-IsQuiet owner_mismatch e.observed_at_ms g r i)
    | inl x ↦ rw x (elim (Bool-cases (text_eq e.peer_id g.owner_id)) [
      | inl y ↦ rw y (reject-IsQuiet self_tag e.observed_at_ms g r i)
      | inr y ↦ rw y (elim (Bool-cases (is_some (find_dog g.config e.peer_id))) [
        | inr z ↦ rw z (reject-IsQuiet peer_not_configured e.observed_at_ms g r i)
        | inl z ↦
            let found = find_dog-IsPeer c o e.peer_id (ground (arith, r.config)) (ground arith) in
            rw z (
              confirm-IsQuiet e.peer_id e.observed_at_ms operator g
                (IsPeer-unique c o e.peer_id p owned found peer) r i h)
      ])
    ])
  ]

  gate_step-IsQuiet :
      (e : GateEvent) (g : EncounterGate)
      → Remembers p now c g
      → g.owner_id ≡ o
      → time_of e < now + c.encounter_cooldown_ms
      → IsQuiet p now c o (gate_step e g)
  unfolding gate_step
  gate_step-IsQuiet (frame f) g r i h = observe-IsQuiet f g r i h
  gate_step-IsQuiet (manual e) g r i h = confirm_manual-IsQuiet e g r i h

  decisions-NotConfirmed :
      (es : List GateEvent) (g : EncounterGate)
      → Remembers p now c g
      → g.owner_id ≡ o
      → All (λ e. time_of e < now + c.encounter_cooldown_ms) es
      → All NotConfirmed (decisions_seen es g)
  unfolding decisions_seen
  decisions-NotConfirmed [] g r i h = tt
  decisions-NotConfirmed (e ∷ es) g r i h =
      let (n, r', i') = gate_step-IsQuiet e g r i h.0 in
      (n, decisions-NotConfirmed es (gate_step e g).1 r' i' h.1)

-- What a confirmed decision leaves behind.
confirm-Remembers :
    (q : Text) (t : ℕ) (s : IdentitySource) (g : EncounterGate)
    → (confirm q t s g).0.status ≡ IdentityStatus.confirmed
    → Remembers q t g.config (confirm q t s g).1 × ((confirm q t s g).1.owner_id ≡ g.owner_id)
unfolding confirm
confirm-Remembers q t s g h = ground arith

-- The gate of `observe` or `confirm_manual` after a confirmed decision.
abbrev HasConfirmed : ℕ → EncounterGate → IdentityDecision × EncounterGate → Type 0
HasConfirmed t g (d, g') =
    d.status ≡ IdentityStatus.confirmed
    → (q : Text) × IsPeer g.config g.owner_id q
      × Remembers q t g.config g'
      × (g'.owner_id ≡ g.owner_id)

accumulate-HasConfirmed :
    (q : Text) (t : ℕ) (g : EncounterGate)
    → (accumulate q t g).0.status ≡ IdentityStatus.confirmed
    → Remembers q t g.config (accumulate q t g).1 × ((accumulate q t g).1.owner_id ≡ g.owner_id)
unfolding accumulate count_frame
accumulate-HasConfirmed q t g h = ground (arith, confirm-Remembers q t apriltag (count_frame q g))

observe-HasConfirmed :
    (f : TagFrame) (g : EncounterGate) → HasConfirmed f.observed_at_ms g (observe f g)
unfolding observe
observe-HasConfirmed f g = elim (Bool-cases (text_eq f.owner_id g.owner_id)) [
  | inr x ↦ rw x (λ h. cc)
  | inl x ↦ rw x (elim (Option-cases (advance_frame_clock f.observed_at_ms g)) [
    | inl y ↦ rw y (λ h. cc)
    | inr (g', y) ↦
        let (c, i, _) = advance_frame_clock-inv f.observed_at_ms g y in
        elim (FrameResolution-cases (resolve_frame g.config g.owner_id f)) [
          | inr (reason, z) ↦ rw (y, z) (λ h. cc)
          | inl (q, z) ↦
              rw (y, z)
                λ h.
                  let (r, o) = accumulate-HasConfirmed q f.observed_at_ms g' h in
                  (
                    q,
                    resolve_frame-IsPeer g.config g.owner_id q f z,
                    record { id = r.id; at = r.at; config = r.config ∙ c },
                    o ∙ i,
                  )
        ]
  ])
]

confirm_manual-HasConfirmed :
    (e : ManualEncounter) (g : EncounterGate) → HasConfirmed e.observed_at_ms g (confirm_manual e g)
unfolding confirm_manual
confirm_manual-HasConfirmed e g = elim (Bool-cases (text_eq e.owner_id g.owner_id)) [
  | inr x ↦ rw x (λ h. cc)
  | inl x ↦ rw x (elim (Bool-cases (text_eq e.peer_id g.owner_id)) [
    | inl y ↦ rw y (λ h. cc)
    | inr y ↦ rw y (elim (Bool-cases (is_some (find_dog g.config e.peer_id))) [
      | inr z ↦ rw z (λ h. cc)
      | inl z ↦ rw z λ h.
          let (r, o) = confirm-Remembers e.peer_id e.observed_at_ms operator g h in
          (e.peer_id, find_dog-IsPeer g.config g.owner_id e.peer_id z y, r, o)
    ])
  ])
]

-- Once an event of a gate, whose owner is configured, is answered by `confirmed`, no event that is
-- observed before the cooldown has passed is, whatever frames and manual encounters come between,
-- in any order and also if their clock runs backwards.
pub confirmed_once :
    (e : GateEvent) (es : List GateEvent) (g : EncounterGate)
    → is_some (find_dog g.config g.owner_id) ≡ true
    → (gate_step e g).0.status ≡ IdentityStatus.confirmed
    → All (λ x. time_of x < time_of e + g.config.encounter_cooldown_ms) es
    → All (λ d. d.status ≢ IdentityStatus.confirmed) (decisions_seen es (gate_step e g).1)
unfolding gate_step
confirmed_once (frame f) es g o h early =
    let (q, peer, r, i) = observe-HasConfirmed f g h in
    decisions-NotConfirmed q f.observed_at_ms g.config g.owner_id o peer es (observe f g).1 r i
      early
confirmed_once (manual e) es g o h early =
    let (q, peer, r, i) = confirm_manual-HasConfirmed e g h in
    decisions-NotConfirmed q e.observed_at_ms g.config g.owner_id o peer es (confirm_manual e g).1 r
      i early
