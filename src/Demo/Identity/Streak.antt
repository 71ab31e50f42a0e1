-- ===== src/Demo/Identity/Streak.antt =====
-- A tag confirmation rests on an unbroken run of frames.
use dogos_memory.Base.{
  Bool-cases, List, Option, Option-cases, Text, [], ap, arith, false, inl, inr, ltb, none, ok, refl,
  some, suc, text_eq, text_eq_iff, true, zero, ℕ, ◌+◌, ◌<◌, ◌∙◌, ◌∷◌, ◌≡◌, ◌≤◌, ◌⊎◌,
}
use dogos_memory.Demo.Identity.{
  EncounterGate, FrameResolution, accumulate, advance_frame_clock, confirm, count_frame,
  gap_exceeded, is_candidate, new_gate, observe, out_of_order_at, reject, rejected_frame,
  resolve_frame, resolved_peer, within_cooldown,
}
use dogos_memory.Demo.Identity.Contract.{
  IsReady, advance_frame_clock-inv, new_gate-IsReady, new_gate-fields, observe-EndsWell,
}
use dogos_memory.Demo.Models.{
  DemoConfig, IdentityDecision, IdentityReason, IdentitySource, IdentityStatus, TagFrame, apriltag,
  config_fields_valid, out_of_order, owner_mismatch,
}

-- The gate after a list of frames, the last one first.
unfoldable pub after_frames : EncounterGate → List TagFrame → EncounterGate
after_frames g [] = g
after_frames g (f ∷ fs) = (observe f (after_frames g fs)).1

-- The time and the gap to the frame before, if the run goes on there.
abbrev Follows : DemoConfig → ℕ → TagFrame → List TagFrame → Type 0
Follows c zero f fs = Unit
Follows c (suc n) f [] = ⊥
Follows c (suc n) f (f' ∷ fs) =
    (f'.observed_at_ms < f.observed_at_ms)
    × (f.observed_at_ms ≤ f'.observed_at_ms + c.max_frame_gap_ms)

-- The last `n` frames are the owner's, each resolves to `peer`, and each follows the one before it
-- in time within the gap.
abbrev pub IsStreak : DemoConfig → Text → Text → ℕ → List TagFrame → Type 0
IsStreak c owner peer zero fs = Unit
IsStreak c owner peer (suc n) [] = ⊥
IsStreak c owner peer (suc n) (f ∷ fs) =
    (text_eq f.owner_id owner ≡ true)
    × (resolve_frame c owner f ≡ resolved_peer peer)
    × Follows c n f fs
    × IsStreak c owner peer n fs

abbrev head_time : List TagFrame → Option ℕ
head_time [] = none
head_time (f ∷ fs) = some f.observed_at_ms

-- What the gate's candidate and counter stand for.
abbrev Tracks : DemoConfig → Text → Option Text → ℕ → Option ℕ → List TagFrame → Type 0
Tracks c owner none n last fs = n ≡ 0
Tracks c owner (some p) n last fs = IsStreak c owner p n fs × (last ≡ head_time fs) × (0 < n)

abbrev IsTracking : EncounterGate → List TagFrame → Type 0
IsTracking g fs = Tracks g.config g.owner_id g.candidate_id g.stable_frames g.last_frame_ms fs

-- A step is grounded if the gate tracks the frames after it, and a confirmed tag is a full run.
abbrev IsGroundedStep :
    DemoConfig → Text → List TagFrame → IdentityDecision × EncounterGate → Type 0
IsGroundedStep c owner fs (d, g) =
    IsTracking g fs
    × (d.status ≡ IdentityStatus.confirmed
        → (p : Text) × (d.peer_id ≡ some p) × IsStreak c owner p c.stable_frames fs)

confirm-IsGroundedStep :
    (c : DemoConfig) (owner peer : Text) (now : ℕ) (source : IdentitySource) (g : EncounterGate)
    (fs : List TagFrame)
    → IsStreak c owner peer c.stable_frames fs
    → IsGroundedStep c owner fs (confirm peer now source g)
unfolding confirm
confirm-IsGroundedStep c owner peer now source g fs s =
    elim (Bool-cases (
      within_cooldown g.last_confirmed_id g.last_confirmed_ms peer g.config.encounter_cooldown_ms
        now)) [ inl e ↦ rw e (refl, λ h. ground arith) | inr e ↦ rw e (refl, λ _. (peer, refl, s)) ]

-- One frame more on a run that the clock does not break.
IsStreak-more :
    (c : DemoConfig) (owner peer : Text) (n : ℕ) (last : Option ℕ) (f : TagFrame)
    (fs : List TagFrame)
    → text_eq f.owner_id owner ≡ true
    → resolve_frame c owner f ≡ resolved_peer peer
    → IsStreak c owner peer n fs
    → 0 < n
    → last ≡ head_time fs
    → out_of_order_at last f.observed_at_ms ≡ false
    → gap_exceeded last c.max_frame_gap_ms f.observed_at_ms ≡ false
    → IsStreak c owner peer (suc n) (f ∷ fs)
IsStreak-more c owner peer zero last f fs o r s pos l a b = absurd (omega arith)
IsStreak-more c owner peer (suc n) last f [] o r s pos l a b = absurd s
IsStreak-more c owner peer (suc n) last f (f' ∷ fs) o r s pos l a b =
    (o, r, (ground arith, ground arith), s)

-- What `accumulate` needs of the gate that it counts on.
record IsCounted (c : DemoConfig) (owner peer : Text) (g : EncounterGate) (fs : List TagFrame)
    : Type 0 where
  streak : IsStreak c owner peer (count_frame peer g).stable_frames fs
  some_frames : 0 < (count_frame peer g).stable_frames
  not_more : (count_frame peer g).stable_frames ≤ c.stable_frames
  clock : g.last_frame_ms ≡ head_time fs

is_candidate-inv : (o : Option Text) (peer : Text) → is_candidate o peer ≡ true → o ≡ some peer
is_candidate-inv none peer h = cc
is_candidate-inv (some id) peer h = ground (arith, text_eq_iff peer id)

count_frame-fields :
    (peer : Text) (g : EncounterGate)
    → ((count_frame peer g).config ≡ g.config)
      × ((count_frame peer g).owner_id ≡ g.owner_id)
      × ((count_frame peer g).candidate_id ≡ some peer)
      × ((count_frame peer g).last_frame_ms ≡ g.last_frame_ms)
unfolding count_frame
count_frame-fields peer g = ground (arith, is_candidate-inv g.candidate_id peer)

accumulate-IsGroundedStep :
    (c : DemoConfig) (owner peer : Text) (now : ℕ) (g : EncounterGate) (fs : List TagFrame)
    → g.config ≡ c
    → g.owner_id ≡ owner
    → IsCounted c owner peer g fs
    → IsGroundedStep c owner fs (accumulate peer now g)
unfolding accumulate
accumulate-IsGroundedStep c owner peer now g fs gc go k =
    let (same, o, a, l) = count_frame-fields peer g in
    elim (Bool-cases (ltb (count_frame peer g).stable_frames g.config.stable_frames)) [
      | inl e ↦ rw e (rw (same ∙ gc, o ∙ go, a, l) (k.streak, k.clock, k.some_frames), λ h. cc)
      | inr e ↦
          let size : g.config.stable_frames ≡ c.stable_frames =
            ap (λ (x : DemoConfig). x.stable_frames) gc in
          let full : (count_frame peer g).stable_frames ≡ c.stable_frames =
            ground (arith, k.not_more, size) in
          let run = rw full at k.streak in
          rw e (confirm-IsGroundedStep c owner peer now apriltag (count_frame peer g) fs run)
    ]

reject-IsGroundedStep :
    (c : DemoConfig) (owner : Text) (reason : IdentityReason) (now : ℕ) (g : EncounterGate)
    (fs : List TagFrame)
    → IsGroundedStep c owner fs (reject reason now g)
reject-IsGroundedStep c owner reason now g fs = (refl, λ h. cc)

module _ (f : TagFrame) (peer : Text) (g : EncounterGate) (fs : List TagFrame) (g' : EncounterGate)
    (ready : IsReady g) (tracked : IsTracking g fs) (owned : text_eq f.owner_id g.owner_id ≡ true)
    (resolved : resolve_frame g.config g.owner_id f ≡ resolved_peer peer) where
  -- A frame of another candidate starts a run.
  first-IsCounted :
      is_candidate g'.candidate_id peer ≡ false
      → g'.last_frame_ms ≡ some f.observed_at_ms
      → IsCounted g.config g.owner_id peer g' (f ∷ fs)
  unfolding count_frame
  first-IsCounted other clock =
      let one : (count_frame peer g').stable_frames ≡ 1 = ground arith in
      record {
        streak = rw one (owned, resolved, tt, tt);
        some_frames = omega (arith, one);
        not_more = omega (arith, one, ready.counted);
        clock = clock;
      }

  -- A frame of the same candidate goes on with it.
  next-IsCounted :
      is_candidate g.candidate_id peer ≡ true
      → out_of_order_at g.last_frame_ms f.observed_at_ms ≡ false
      → gap_exceeded g.last_frame_ms g.config.max_frame_gap_ms f.observed_at_ms ≡ false
      → g' ≡ record g { last_frame_ms = some f.observed_at_ms }
      → IsCounted g.config g.owner_id peer g' (f ∷ fs)
  unfolding count_frame
  next-IsCounted same in_order near e =
      let more : (count_frame peer g').stable_frames ≡ suc g.stable_frames = ground arith in
      let (s, l, p) = rw (is_candidate-inv g.candidate_id peer same) at tracked in
      record {
        streak = rw more (
            IsStreak-more g.config g.owner_id peer g.stable_frames g.last_frame_ms f fs owned
              resolved s p l in_order near);
        some_frames = omega (arith, more);
        not_more = omega (arith, more, ready.counted);
        clock = ap (λ (x : EncounterGate). x.last_frame_ms) e;
      }

  -- After the clock has let a frame through, the gate counts it on the run that it tracks.
  clocked-IsCounted :
      advance_frame_clock f.observed_at_ms g ≡ some g'
      → IsCounted g.config g.owner_id peer g' (f ∷ fs)
  unfolding advance_frame_clock
  clocked-IsCounted h = elim (Bool-cases (out_of_order_at g.last_frame_ms f.observed_at_ms)) [
    | inl late ↦ ground arith
    | inr in_order ↦
        elim (Bool-cases
          (gap_exceeded g.last_frame_ms g.config.max_frame_gap_ms f.observed_at_ms)) [
            | inl gap ↦ first-IsCounted (ground arith) (ground arith)
            | inr near ↦ elim (Bool-cases (is_candidate g.candidate_id peer)) [
              | inl same ↦ next-IsCounted same in_order near (ground arith)
              | inr other ↦ first-IsCounted (ground arith) (ground arith)
            ]
          ]
  ]

pub FrameResolution-cases :
    (r : FrameResolution)
    → ((p : Text) × (r ≡ resolved_peer p)) ⊎ ((x : IdentityReason) × (r ≡ rejected_frame x))
FrameResolution-cases (resolved_peer p) = inl (p, refl)
FrameResolution-cases (rejected_frame x) = inr (x, refl)

observe-IsGroundedStep :
    (f : TagFrame) (g : EncounterGate) (fs : List TagFrame)
    → IsReady g
    → IsTracking g fs
    → IsGroundedStep g.config g.owner_id (f ∷ fs) (observe f g)
unfolding observe
observe-IsGroundedStep f g fs ready t = elim (Bool-cases (text_eq f.owner_id g.owner_id)) [
  | inr e ↦
      rw e (reject-IsGroundedStep g.config g.owner_id owner_mismatch f.observed_at_ms g (f ∷ fs))
  | inl o ↦ rw o (elim (Option-cases (advance_frame_clock f.observed_at_ms g)) [
    | inl e ↦
        rw e (reject-IsGroundedStep g.config g.owner_id out_of_order f.observed_at_ms g (f ∷ fs))
    | inr (g', e) ↦ elim (FrameResolution-cases (resolve_frame g.config g.owner_id f)) [
      | inr (x, q) ↦
          rw (e, q) (reject-IsGroundedStep g.config g.owner_id x f.observed_at_ms g' (f ∷ fs))
      | inl (p, q) ↦
          let (c, i, _) = advance_frame_clock-inv f.observed_at_ms g e in
          let counted = clocked-IsCounted f p g fs g' ready t o q e in
          rw (e, q)
            (accumulate-IsGroundedStep g.config g.owner_id p f.observed_at_ms g' (f ∷ fs) c i
              counted)
    ]
  ])
]

-- The gate after any frames is ready and tracks them.
after_frames-IsTracking :
    (g : EncounterGate) (fs : List TagFrame)
    → IsReady g
    → g.candidate_id ≡ none
    → g.stable_frames ≡ 0
    → IsTracking (after_frames g fs) fs
      × IsReady (after_frames g fs)
      × ((after_frames g fs).config ≡ g.config)
      × ((after_frames g fs).owner_id ≡ g.owner_id)
unfolding after_frames
after_frames-IsTracking g [] r c z = (rw c z, r, refl, refl)
after_frames-IsTracking g (f ∷ fs) r c z =
    let (t, r', c', o') = after_frames-IsTracking g fs r c z in
    let (_, r'', c'', o'') = observe-EndsWell f (after_frames g fs) r' in
    ((observe-IsGroundedStep f (after_frames g fs) fs r' t).0, r'', c'' ∙ c', o'' ∙ o')

-- Whatever frames a new gate has seen, if it answers one more by `confirmed`, then the last
-- `stable_frames` frames, this one included, are the owner's, each resolves to the peer that is
-- confirmed, and each comes later than the one before it, by at most the largest gap.
pub observe-IsStreak :
    (c : DemoConfig) (owner : Text) (f : TagFrame) (fs : List TagFrame) {g : EncounterGate}
    → config_fields_valid c ≡ true
    → new_gate c owner ≡ ok g
    → (observe f (after_frames g fs)).0.status ≡ IdentityStatus.confirmed
    → (p : Text) × ((observe f (after_frames g fs)).0.peer_id ≡ some p)
      × IsStreak c owner p c.stable_frames (f ∷ fs)
observe-IsStreak c owner f fs {g} v n h =
    let ready = new_gate-IsReady c owner v n in
    let (empty, zero_frames, config, owned) = new_gate-fields c owner n in
    let (t, r, c', o') = after_frames-IsTracking g fs ready empty zero_frames in
    simp (c' ∙ config, o' ∙ owned) at ((observe-IsGroundedStep f (after_frames g fs) fs r t).1 h)
