-- ===== src/Demo/Plan/Shape.antt =====
-- The plan of a session: who acts, on whom, and under which identifiers.
use dogos_memory.Base.{
  Bool-cases, Result-cases, Text, arith, false, inl, inr, ok, refl, sym, text_eq, text_eq_iff, true,
  ◌+◌, ◌∙◌, ◌≡◌, ◌≢◌,
}
use dogos_memory.Demo.Models.{DemoConfig, DogConfig, IdentityDecision, cautious, outgoing}
use dogos_memory.Demo.Plan.{
  CommandSpec, PairRecalls, both, build_plan_for_initiator, cautious_first, command, dog_with_role,
  latest_fact, outgoing_first,
}
use dogos_memory.Demo.Session.{
  ActionCommand, cautious_reply, check_command, command_id_of, familiar_greeting, outgoing_greeting,
  warm_reply,
}

-- What the two commands of a plan have to do with one another and with the configuration.
pub record IsPlan (c : DemoConfig) (session_id : Text) (a b : ActionCommand) : Type 0 where
  pub steps : (a.step ≡ 1) × (b.step ≡ 2)
  pub sessions : (a.session_id ≡ session_id) × (b.session_id ≡ session_id)
  pub swapped : (b.actor_id ≡ a.target_id) × (b.target_id ≡ a.actor_id)
  pub apart : a.actor_id ≢ a.target_id
  pub later : b.issued_at_ms ≡ a.issued_at_ms + 1
  pub accepted : (check_command a ≡ true) × (check_command b ≡ true)

command-inv :
    (session_id : Text) (spec : CommandSpec) {a : ActionCommand}
    → command session_id spec ≡ ok a
    → (check_command a ≡ true)
      × (a ≡ record {
        command_id = command_id_of session_id spec.actor.dog_id spec.step;
        session_id = session_id;
        step = spec.step;
        actor_id = spec.actor.dog_id;
        target_id = spec.target.dog_id;
        adapter_id = spec.actor.adapter_id;
        action = spec.action;
        issued_at_ms = spec.issued_at_ms;
        memory_reference_id = spec.memory_reference_id;
      })
unfolding command
command-inv session_id spec h = ground arith

apart-check_command : (a : ActionCommand) → check_command a ≡ true → a.actor_id ≢ a.target_id
unfolding check_command
apart-check_command a h = ground (arith, text_eq_iff a.actor_id a.target_id)

both-inv :
    (session_id : Text) (s t : CommandSpec) {a b : ActionCommand}
    → both session_id s t ≡ ok (a, b)
    → (command session_id s ≡ ok a) × (command session_id t ≡ ok b)
both-inv session_id s t h = ground arith

specs-IsPlan :
    (c : DemoConfig) (session_id : Text) (s t : CommandSpec) {a b : ActionCommand}
    → s.step ≡ 1
    → t.step ≡ 2
    → t.actor ≡ s.target
    → t.target ≡ s.actor
    → t.issued_at_ms ≡ s.issued_at_ms + 1
    → both session_id s t ≡ ok (a, b)
    → (a.actor_id ≡ s.actor.dog_id) × IsPlan c session_id a b
specs-IsPlan c session_id s t {a} {b} s1 t2 x y z h =
    let (p, q) = both-inv session_id s t h in
    let (ca, ea) = command-inv session_id s p in
    let (cb, eb) = command-inv session_id t q in
    (
      ground (arith, ea),
      record {
        steps = (ground (arith, ea), ground (arith, eb));
        sessions = (ground (arith, ea), ground (arith, eb));
        swapped = (ground (arith, ea, eb), ground (arith, ea, eb));
        apart = apart-check_command a ca;
        later = ground (arith, ea, eb);
        accepted = (ca, cb);
      },
    )

cautious_first-IsPlan :
    (c : DemoConfig) (identity : IdentityDecision) (session_id : Text) (recalls : PairRecalls)
    (shy bold : DogConfig) {a b : ActionCommand}
    → cautious_first session_id identity recalls shy bold ≡ ok (a, b)
    → (a.actor_id ≡ shy.dog_id) × IsPlan c session_id a b
cautious_first-IsPlan c identity session_id recalls shy bold h =
    specs-IsPlan c session_id
      (record {
        step = 1;
        actor = shy;
        target = bold;
        action = familiar_greeting;
        issued_at_ms = identity.observed_at_ms;
        memory_reference_id = latest_fact recalls.cautious;
      })
      (record {
        step = 2;
        actor = bold;
        target = shy;
        action = warm_reply;
        issued_at_ms = identity.observed_at_ms + 1;
        memory_reference_id = latest_fact recalls.outgoing;
      })
      refl refl refl refl refl h

outgoing_first-IsPlan :
    (c : DemoConfig) (identity : IdentityDecision) (session_id : Text) (recalls : PairRecalls)
    (shy bold : DogConfig) {a b : ActionCommand}
    → outgoing_first session_id identity recalls shy bold ≡ ok (a, b)
    → (a.actor_id ≡ bold.dog_id) × IsPlan c session_id a b
outgoing_first-IsPlan c identity session_id recalls shy bold h =
    specs-IsPlan c session_id
      (record {
        step = 1;
        actor = bold;
        target = shy;
        action = outgoing_greeting;
        issued_at_ms = identity.observed_at_ms;
        memory_reference_id = latest_fact recalls.outgoing;
      })
      (record {
        step = 2;
        actor = shy;
        target = bold;
        action = cautious_reply;
        issued_at_ms = identity.observed_at_ms + 1;
        memory_reference_id = latest_fact recalls.cautious;
      })
      refl refl refl refl refl h

build-cautious_first :
    (c : DemoConfig) (identity : IdentityDecision) (session_id : Text) (recalls : PairRecalls)
    (initiator : Text) (shy bold : DogConfig)
    → dog_with_role c cautious ≡ ok shy
    → dog_with_role c outgoing ≡ ok bold
    → text_eq initiator shy.dog_id ≡ true
    → build_plan_for_initiator c identity session_id recalls initiator
      ≡ cautious_first session_id identity recalls shy bold
unfolding build_plan_for_initiator
build-cautious_first c identity session_id recalls initiator shy bold x y p =
    rw x (rw y (rw p refl))

build-outgoing_first :
    (c : DemoConfig) (identity : IdentityDecision) (session_id : Text) (recalls : PairRecalls)
    (initiator : Text) (shy bold : DogConfig)
    → dog_with_role c cautious ≡ ok shy
    → dog_with_role c outgoing ≡ ok bold
    → text_eq initiator shy.dog_id ≡ false
    → text_eq initiator bold.dog_id ≡ true
    → build_plan_for_initiator c identity session_id recalls initiator
      ≡ outgoing_first session_id identity recalls shy bold
unfolding build_plan_for_initiator
build-outgoing_first c identity session_id recalls initiator shy bold x y p q =
    rw x (rw y (rw p (rw q refl)))

-- A plan that is built for an initiator starts with that dog; its commands are steps 1 and 2 of the
-- session, go one way and back between two different dogs, are a millisecond apart, and pass the
-- contract of a command.
pub build_plan_for_initiator-IsPlan :
    (c : DemoConfig) (identity : IdentityDecision) (session_id : Text) (recalls : PairRecalls)
    (initiator : Text) {a b : ActionCommand}
    → build_plan_for_initiator c identity session_id recalls initiator ≡ ok (a, b)
    → (a.actor_id ≡ initiator) × IsPlan c session_id a b
unfolding build_plan_for_initiator
build_plan_for_initiator-IsPlan c identity session_id recalls initiator {a} {b} h =
    elim (Result-cases (dog_with_role c cautious)) [
      | inr (e, x) ↦ ground arith
      | inl (shy, x) ↦ elim (Result-cases (dog_with_role c outgoing)) [
        | inr (e, y) ↦ ground arith
        | inl (bold, y) ↦ elim (Bool-cases (text_eq initiator shy.dog_id)) [
          | inl p ↦
              let (e, plan) = cautious_first-IsPlan c identity session_id recalls shy bold (
                sym (build-cautious_first c identity session_id recalls initiator shy bold x y p)
                ∙ h) in
              (e ∙ sym ((text_eq_iff initiator shy.dog_id).0 p), plan)
          | inr p ↦ elim (Bool-cases (text_eq initiator bold.dog_id)) [
            | inr q ↦ ground (arith, x, y, p, q)
            | inl q ↦
                let (e, plan) = outgoing_first-IsPlan c identity session_id recalls shy bold (
                  sym
                    (build-outgoing_first c identity session_id recalls initiator shy bold x y p q)
                  ∙ h) in
                (e ∙ sym ((text_eq_iff initiator bold.dog_id).0 q), plan)
          ]
        ]
      ]
    ]
