-- ===== src/Demo/Plan.antt =====
-- packages/dogos_demo/policy.py: the two-step plan, chosen by the recalled relationship.
pub mod Shape
use dogos_memory.Base.{
  List, Option, Result, Text, [], err, if◌then◌else◌, keep, none, not, ok, some, text_eq, ℕ, ◌+◌,
  ◌>>=◌, ◌>>◌, ◌∷◌,
}
use dogos_memory.Demo.Models.{
  DemoConfig, DemoError, DogConfig, DogRole, IdentityDecision, cautious, dogs,
  initiator_not_configured, outgoing, role_configuration, role_eq, validation_error,
}
use dogos_memory.Demo.Session.{
  ActionCommand, ActionName, cautious_reply, check_command, command_id_of, familiar_greeting,
  outgoing_greeting, warm_reply,
}
use dogos_memory.Memory.Models.{RecallResult, StoredMemory}
use dogos_memory.Memory.Store.{recall}

pub record PairRecalls : Type 0 where
  pub cautious : RecallResult
  pub outgoing : RecallResult

pub record CommandSpec : Type 0 where
  pub step : ℕ
  pub actor : DogConfig
  pub target : DogConfig
  pub action : ActionName
  pub issued_at_ms : ℕ
  pub memory_reference_id : Option Text

abbrev pub Demo : Type 0 → Type 0
Demo A = Result DemoError A

abbrev pub only : List DogConfig → Demo DogConfig
only (dog ∷ []) = ok dog
only _ = err role_configuration

unfoldable pub dog_with_role : DemoConfig → DogRole → Demo DogConfig
dog_with_role c role = only (keep (λ d. role_eq d.role role) (dogs c))

abbrev first_id : List StoredMemory → Option Text
first_id [] = none
first_id (m ∷ ms) = some m.memory_id

-- `_latest_fact`
abbrev pub latest_fact : RecallResult → Option Text
latest_fact recall = first_id recall.facts

-- `_command`; the constructor raises where `check_command` is false
unfoldable pub command : Text → CommandSpec → Demo ActionCommand
command session_id spec =
    let made : ActionCommand = record {
      command_id = command_id_of session_id spec.actor.dog_id spec.step;
      session_id = session_id;
      step = spec.step;
      actor_id = spec.actor.dog_id;
      target_id = spec.target.dog_id;
      adapter_id = spec.actor.adapter_id;
      action = spec.action;
      issued_at_ms = spec.issued_at_ms;
      memory_reference_id = spec.memory_reference_id;
    } in
    if check_command made then ok made else err validation_error

-- the two commands of a plan
abbrev pub both : Text → CommandSpec → CommandSpec → Demo (ActionCommand × ActionCommand)
both session_id a b = do
  first_command ← command session_id a
  second_command ← command session_id b
  ok (first_command, second_command)

-- the cautious dog acts first
abbrev pub cautious_first :
    Text
    → IdentityDecision
    → PairRecalls
    → DogConfig
    → DogConfig
    → Demo (ActionCommand × ActionCommand)
cautious_first session_id identity recalls shy bold =
    both session_id
      (record {
        step = 1;
        actor = shy;
        target = bold;
        action = familiar_greeting;
        issued_at_ms = identity.observed_at_ms;
        memory_reference_id = latest_fact recalls.cautious;
      })
      (record {
        step = 2;
        actor = bold;
        target = shy;
        action = warm_reply;
        issued_at_ms = identity.observed_at_ms + 1;
        memory_reference_id = latest_fact recalls.outgoing;
      })

-- the outgoing dog acts first
abbrev pub outgoing_first :
    Text
    → IdentityDecision
    → PairRecalls
    → DogConfig
    → DogConfig
    → Demo (ActionCommand × ActionCommand)
outgoing_first session_id identity recalls shy bold =
    both session_id
      (record {
        step = 1;
        actor = bold;
        target = shy;
        action = outgoing_greeting;
        issued_at_ms = identity.observed_at_ms;
        memory_reference_id = latest_fact recalls.outgoing;
      })
      (record {
        step = 2;
        actor = shy;
        target = bold;
        action = cautious_reply;
        issued_at_ms = identity.observed_at_ms + 1;
        memory_reference_id = latest_fact recalls.cautious;
      })

unfoldable pub build_plan_for_initiator :
    DemoConfig → IdentityDecision → Text → PairRecalls → Text → Demo (ActionCommand × ActionCommand)
build_plan_for_initiator c identity session_id recalls initiator_id = do
  shy ← dog_with_role c cautious
  bold ← dog_with_role c outgoing
  if text_eq initiator_id shy.dog_id
      then cautious_first session_id identity recalls shy bold
      else if not (text_eq initiator_id bold.dog_id)
      then err initiator_not_configured
      else outgoing_first session_id identity recalls shy bold

unfoldable pub build_plan :
    DemoConfig → IdentityDecision → Text → PairRecalls → Demo (ActionCommand × ActionCommand)
build_plan c identity session_id recalls = do
  shy ← dog_with_role c cautious
  bold ← dog_with_role c outgoing
  build_plan_for_initiator c identity session_id recalls
      (if recalls.cautious.familiar then shy.dog_id else bold.dog_id)
