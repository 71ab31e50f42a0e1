-- ===== src/Demo/PairConnection/Readiness.antt =====
-- The verdict on two probes: which pair is ready, which are one device, and which routes are crossed.
-- Nothing is assumed of what a probe reports.
use dogos_memory.Base.{
  Bool, Bool-cases, Option, Result, Text, ap, arith, false, if◌then◌else◌, inl, inr, none, ok, refl,
  some, sym, text_eq, text_eq_iff, true, ℕ, ◌↔◌, ◌∙◌, ◌≡◌, ◌≢◌, ◌⊎◌,
}
use dogos_memory.Demo.PairConnection.{
  EndpointConnectionReport, EndpointConnectionState, PairConnectionConfig, PairConnectionReport,
  VbotEndpoint, check_pair_connections, connected, duplicate_device, identity_mismatch,
  is_connected, is_duplicate, is_identity_mismatch, is_mismatched, normalize_verified_identity,
  normalized, pair_state, protocol_error, ready, routing_conflict, trusted_robot_id, unreachable,
}

-- The robot that was observed is not the one that the report expects.
abbrev pub IsOther : EndpointConnectionReport → Type 0
IsOther r = (id : Text) × (r.observed_robot_id ≡ some id) × (id ≢ r.expected_robot_id)

-- A route is verified: it is connected, and no other robot was observed on it.
abbrev pub IsVerified : EndpointConnectionReport → Type 0
IsVerified r = (r.state ≡ connected) × ¬ IsOther r

-- A route is crossed: the probe says so, or it says `connected` and observed another robot.
abbrev pub IsCrossed : EndpointConnectionReport → Type 0
IsCrossed r = (r.state ≡ identity_mismatch) ⊎ ((r.state ≡ connected) × IsOther r)

-- A robot was observed by a probe that got through to its identity.
abbrev pub IsSeen : Text → EndpointConnectionReport → Type 0
IsSeen id r =
    ((r.state ≡ connected) ⊎ (r.state ≡ identity_mismatch)) × (r.observed_robot_id ≡ some id)

-- The same robot was seen on both routes.
abbrev pub IsShared : EndpointConnectionReport → EndpointConnectionReport → Type 0
IsShared a b = (id : Text) × IsSeen id a × IsSeen id b

false_iff : {P : Type 0} (b : Bool) → (b ≡ true) ↔ P → (b ≡ false) ↔ (¬ P)
false_iff true (f, g) = (λ h. cc h, λ n. absurd (n (f refl)))
false_iff false (f, g) = (λ h p. cc (g p), λ n. refl)

is_mismatched_iff :
    (o : Option Text) (expected : Text)
    → (is_mismatched o expected ≡ true) ↔ ((id : Text) × (o ≡ some id) × (id ≢ expected))
is_mismatched_iff none expected = (λ h. cc h, λ (id, e, n). cc e)
is_mismatched_iff (some x) expected = elim (Bool-cases (text_eq x expected)) [
  | inl e ↦ (
    λ h. cc (e, h),
    λ (id, f, n).
        let same : x ≡ id = ground arith in absurd (n (sym same ∙ (text_eq_iff x expected).0 e)),
  )
  | inr e ↦ (λ h. (x, refl, λ f. cc (e, (text_eq_iff x expected).1 f)), λ h. rw e refl)
]

-- the state of a report once its identity has been compared
module _ (detail : Text) (r : EndpointConnectionReport) where
  abbrev new_state : EndpointConnectionState → EndpointConnectionState
  new_state s = (normalized s detail r).state

  mismatch : Bool
  mismatch = is_mismatched r.observed_robot_id r.expected_robot_id

  IsOther-iff : (mismatch ≡ true) ↔ IsOther r
  unfolding mismatch
  IsOther-iff = is_mismatched_iff r.observed_robot_id r.expected_robot_id

  abbrev renamed : Bool → EndpointConnectionReport
  renamed b = if b then record r { state = identity_mismatch; detail = detail } else r

  normalized_at : (b : Bool) → mismatch ≡ b → normalized connected detail r ≡ renamed b
  unfolding mismatch
  normalized_at b m = ap renamed m

  crossed_iff :
      (s : EndpointConnectionState)
      → r.state ≡ s
      → (is_identity_mismatch (new_state s) ≡ true)
        ↔ ((s ≡ identity_mismatch) ⊎ ((s ≡ connected) × IsOther r))
  crossed_iff connected e = elim (Bool-cases mismatch) [
    | inl m ↦
        let f : new_state connected ≡ identity_mismatch =
          ap (λ x. x.state) (normalized_at true m) in
        rw f (λ h. inr (refl, IsOther-iff.0 m), λ h. refl)
    | inr m ↦
        let f : new_state connected ≡ connected = ap (λ x. x.state) (normalized_at false m) ∙ e in
        rw f
          (λ h. cc h, λ h. elim h [ inl g ↦ cc g | inr (g, other) ↦ cc (m, IsOther-iff.1 other) ])
  ]
  crossed_iff unreachable e = rw e (λ h. cc h, λ h. elim h [ inl f ↦ cc f | inr (f, other) ↦ cc f ])
  crossed_iff protocol_error e =
      rw e (λ h. cc h, λ h. elim h [ inl f ↦ cc f | inr (f, other) ↦ cc f ])
  crossed_iff identity_mismatch e = rw e (λ h. inl refl, λ h. refl)

  verified_iff :
      (s : EndpointConnectionState)
      → r.state ≡ s
      → (is_connected (new_state s) ≡ true) ↔ ((s ≡ connected) × ¬ IsOther r)
  verified_iff connected e = elim (Bool-cases mismatch) [
    | inl m ↦
        let f : new_state connected ≡ identity_mismatch =
          ap (λ x. x.state) (normalized_at true m) in
        rw f (λ h. cc h, λ (g, n). absurd (n (IsOther-iff.0 m)))
    | inr m ↦
        let f : new_state connected ≡ connected = ap (λ x. x.state) (normalized_at false m) ∙ e in
        rw f (λ h. (refl, (false_iff mismatch IsOther-iff).0 m), λ h. refl)
  ]
  verified_iff unreachable e = rw e (λ h. cc h, λ (f, n). cc f)
  verified_iff protocol_error e = rw e (λ h. cc h, λ (f, n). cc f)
  verified_iff identity_mismatch e = rw e (λ h. cc h, λ (f, n). cc f)

  -- the observed robot, where the probe got through
  abbrev new_id : EndpointConnectionState → Option Text
  new_id s = trusted_robot_id (new_state s) (normalized s detail r).observed_robot_id

  seen_iff :
      (s : EndpointConnectionState) (id : Text)
      → r.state ≡ s
      → (new_id s ≡ some id)
        ↔ (((s ≡ connected) ⊎ (s ≡ identity_mismatch)) × (r.observed_robot_id ≡ some id))
  seen_iff connected id e =
      let f : new_id connected ≡ r.observed_robot_id = elim (Bool-cases mismatch) [
        | inl m ↦ ap (λ x. trusted_robot_id x.state x.observed_robot_id) (normalized_at true m)
        | inr m ↦
            ap (λ x. trusted_robot_id x.state x.observed_robot_id) (normalized_at false m)
            ∙ ap (λ t. trusted_robot_id t r.observed_robot_id) e
      ] in
      (λ h. (inl refl, sym f ∙ h), λ h. f ∙ h.1)
  seen_iff unreachable id e = rw e (λ h. cc h, λ (f, o). elim f [ inl g ↦ cc g | inr g ↦ cc g ])
  seen_iff protocol_error id e = rw e (λ h. cc h, λ (f, o). elim f [ inl g ↦ cc g | inr g ↦ cc g ])
  seen_iff identity_mismatch id e = rw e (λ h. (inr refl, h), λ h. h.1)

is_duplicate_iff :
    (o p : Option Text) → (is_duplicate o p ≡ true) ↔ ((id : Text) × (o ≡ some id) × (p ≡ some id))
is_duplicate_iff none p = (λ h. cc h, λ (id, e, f). cc e)
is_duplicate_iff (some x) none = (λ h. cc h, λ (id, e, f). cc f)
is_duplicate_iff (some x) (some y) = (
  λ h. (x, refl, ap some (sym ((text_eq_iff x y).0 h))),
  λ (id, e, f). let same : x ≡ y = ground arith in (text_eq_iff x y).1 same,
)

-- the verdict on two reports whose identity has been compared
module _ (x y : EndpointConnectionReport) where
  abbrev duplicate : Bool
  duplicate =
      is_duplicate (trusted_robot_id x.state x.observed_robot_id)
        (trusted_robot_id y.state y.observed_robot_id)

  pair_state-ready :
      (pair_state x y ≡ ready)
      ↔ ((is_connected x.state ≡ true) × (is_connected y.state ≡ true) × (duplicate ≡ false))
  unfolding pair_state
  pair_state-ready = (λ h. (ground arith, ground arith, ground arith), λ (p, q, n). ground arith)

  pair_state-duplicate : (pair_state x y ≡ duplicate_device) ↔ (duplicate ≡ true)
  unfolding pair_state
  pair_state-duplicate = (λ h. ground arith, λ h. ground arith)

  pair_state-conflict : (pair_state x y ≡ routing_conflict) ↔ (
      ((is_identity_mismatch x.state ≡ true) ⊎ (is_identity_mismatch y.state ≡ true))
      × (duplicate ≡ false))
  unfolding pair_state
  pair_state-conflict = (λ h. (ground arith, ground arith), λ (p, n). ground arith)

iff_trans : {A B C : Type 0} → A ↔ B → B ↔ C → A ↔ C
iff_trans (f, g) (h, k) = (λ a. h (f a), λ c. g (k c))

iff_and : {A B C D : Type 0} → A ↔ B → C ↔ D → (A × C) ↔ (B × D)
iff_and (f, g) (h, k) = (λ (a, c). (f a, h c), λ (b, d). (g b, k d))

iff_and_three : {A B C D E F : Type 0} → A ↔ B → C ↔ D → E ↔ F → (A × C × E) ↔ (B × D × F)
iff_and_three (f, g) (h, k) (m, n) = (λ (a, c, e). (f a, h c, m e), λ (b, d, x). (g b, k d, n x))

iff_or : {A B C D : Type 0} → A ↔ B → C ↔ D → (A ⊎ C) ↔ (B ⊎ D)
iff_or (f, g) (h, k) = (
  λ x. elim x [ inl a ↦ inl (f a) | inr c ↦ inr (h c) ],
  λ x. elim x [ inl b ↦ inl (g b) | inr d ↦ inr (k d) ],
)

is_connected_iff : (s : EndpointConnectionState) → (s ≡ connected) ↔ (is_connected s ≡ true)
is_connected_iff connected = (λ h. refl, λ h. refl)
is_connected_iff unreachable = (λ h. cc h, λ h. cc h)
is_connected_iff protocol_error = (λ h. cc h, λ h. cc h)
is_connected_iff identity_mismatch = (λ h. cc h, λ h. cc h)

-- What a verdict says of the reports of two probes.
pub record IsVerdict (a b : EndpointConnectionReport) (verdict : PairConnectionReport)
    : Type 0 where
  pub readiness : (verdict.state ≡ ready) ↔ (IsVerified a × IsVerified b × ¬ IsShared a b)
  pub duplication : (verdict.state ≡ duplicate_device) ↔ IsShared a b
  pub conflict : (verdict.state ≡ routing_conflict) ↔ ((IsCrossed a ⊎ IsCrossed b) × ¬ IsShared a b)
  pub verified_0 : (verdict.report_0.state ≡ connected) ↔ IsVerified a
  pub verified_1 : (verdict.report_1.state ≡ connected) ↔ IsVerified b

module _ (detail : Text) (a b : EndpointConnectionReport) where
  abbrev new_a : EndpointConnectionReport
  new_a = normalized a.state detail a

  abbrev new_b : EndpointConnectionReport
  new_b = normalized b.state detail b

  IsShared-iff : (duplicate new_a new_b ≡ true) ↔ IsShared a b
  IsShared-iff =
      iff_trans
        (is_duplicate_iff (trusted_robot_id new_a.state new_a.observed_robot_id)
          (trusted_robot_id new_b.state new_b.observed_robot_id))
        (
          λ (id, e, f). (
            id,
            (seen_iff detail a a.state id refl).0 e,
            (seen_iff detail b b.state id refl).0 f,
          ),
          λ (id, x, y). (
            id,
            (seen_iff detail a a.state id refl).1 x,
            (seen_iff detail b b.state id refl).1 y,
          ),
        )

  new-IsVerdict :
      IsVerdict a b (record { state = pair_state new_a new_b; report_0 = new_a; report_1 = new_b })
  new-IsVerdict =
      let apart = false_iff (duplicate new_a new_b) IsShared-iff in
      let first : (is_connected new_a.state ≡ true) ↔ IsVerified a =
        verified_iff detail a a.state refl in
      let second : (is_connected new_b.state ≡ true) ↔ IsVerified b =
        verified_iff detail b b.state refl in
      let crossed_a : (is_identity_mismatch new_a.state ≡ true) ↔ IsCrossed a =
        crossed_iff detail a a.state refl in
      let crossed_b : (is_identity_mismatch new_b.state ≡ true) ↔ IsCrossed b =
        crossed_iff detail b b.state refl in
      record {
        readiness = iff_trans (pair_state-ready new_a new_b) (iff_and_three first second apart);
        duplication = iff_trans (pair_state-duplicate new_a new_b) IsShared-iff;
        conflict =
            iff_trans (pair_state-conflict new_a new_b)
              (iff_and (iff_or crossed_a crossed_b) apart);
        verified_0 = iff_trans (is_connected_iff new_a.state) first;
        verified_1 = iff_trans (is_connected_iff new_b.state) second;
      }

-- Whatever two probes report, the check answers. The pair is ready exactly if both routes are connected,
-- no other robot than the expected one was observed on either, and no robot was seen on both. It is a
-- duplicate device exactly if one robot was seen on both, and a routing conflict exactly if it is not
-- that and a route is crossed. A report stays connected exactly if its route is verified.
pub check_pair_connections-IsVerdict :
    {E : Type 0} (detail : Text) (probe : VbotEndpoint → ℕ → Result E EndpointConnectionReport)
    (c : PairConnectionConfig) (a b : EndpointConnectionReport)
    → probe c.endpoint_0 c.timeout_ms ≡ ok a
    → probe c.endpoint_1 c.timeout_ms ≡ ok b
    → (verdict : PairConnectionReport) × (check_pair_connections detail probe c ≡ ok verdict)
      × IsVerdict a b verdict
unfolding check_pair_connections normalize_verified_identity
check_pair_connections-IsVerdict detail probe c a b p q =
    (_, rw (p, q) refl, new-IsVerdict detail a b)
