-- ===== src/Choreo/Catalogue.antt =====
-- `RoutineBook` of apps/demo_choreo/core.py: what is checked of a whole book, and how a routine is found
-- by one of its triggers. `casefold` stands for the method of `str` of that name.
pub mod Found
mod Tests
use mathlib.Core.List.{reverse}
use dogos_memory.Base.{
  Bool, List, Option, Result, Text, [], all, any, codes, contains, err, false, if◌then◌else◌,
  is_some, keep, leb, length, map, none, not, ok, or_raise, require, some, text_eq, ℕ, ◌&&◌, ◌*◌,
  ◌++◌, ◌>>=◌, ◌>>◌, ◌||◌, ◌∷◌,
}
use dogos_memory.Choreo.Book.{is_identifier, preconditions_valid, timing_valid}
use dogos_memory.Choreo.Dict.{find, put_all}
use dogos_memory.Memory.Models.{is_empty}
use dogos_memory.Spaces.{drop_spaces, join_words}
use dogos_memory.Value.{
  Number, Value, array_of, at_least, at_most, get_key, is_object, number_of, object, one, pairs_of,
  text_is, text_of,
}

-- `ValidationError`, whatever its text
pub data ValidationError : Type 0 where
  invalid : ValidationError

-- a text or a list that a validated routine has under a key
abbrev pub read : Text → Value → Text
read key v = elim (text_of (get_key key v)) [ none ↦ [] | some t ↦ t ]

abbrev pub items_of : Text → Value → List Value
items_of key v = elim (array_of (get_key key v)) [ none ↦ [] | some vs ↦ vs ]

-- `0 < intensity <= 1`
abbrev intensity_valid : Option Number → Bool
intensity_valid none = false
intensity_valid (some n) = not (at_most 0 n) && at_most one n

abbrev persona_valid : Text × Value → Bool
persona_valid (id, profile) =
    is_identifier 1 31 id
    && is_object profile
    && is_some (text_of (get_key (codes "name") profile))
    && intensity_valid (number_of (get_key (codes "max_intensity") profile))

unfoldable pub validate_personas : Value → Result ValidationError (List Text)
validate_personas (object entries) =
    let personas = pairs_of entries in
    if not (is_empty personas) && all persona_valid personas
    then ok (map (λ p. p.0) personas)
    else err invalid
validate_personas _ = err invalid

-- `payload.get("schema_version") != 2`, which 2.0 is not
abbrev is_schema_two : Value → Bool
is_schema_two v = elim (number_of v) [
  | none ↦ false
  | some n ↦ at_least (2 * one) n && at_most (2 * one) n
]

-- `[。！？，、.!?,]`
abbrev is_mark : ℕ → Bool
is_mark c = contains (c ∷ []) (map (λ d. d ∷ []) (codes "。！？，、.!?,"))

unfoldable pub drop_marks : Text → Text
drop_marks [] = []
drop_marks (c ∷ t) = let rest = drop_marks t in if is_mark c then rest else c ∷ t

pub record TriggerKey : Type 0 where
  pub persona : Text
  pub kind : Text
  pub value : Text

unfoldable pub key_eq : TriggerKey → TriggerKey → Bool
key_eq a b = text_eq a.persona b.persona && text_eq a.kind b.kind && text_eq a.value b.value

-- `ids` and `triggers` of `_validate`
pub record Seen : Type 0 where
  pub ids : List Text
  pub triggers : List TriggerKey

pub record RoutineBook : Type 0 where
  pub personas : List Text
  pub routines : List (Text × Value)
  pub triggers : List (TriggerKey × Text)

abbrev kind_valid : Value → Bool
kind_valid kind = text_is kind (codes "phrase") || text_is kind (codes "button")

-- `value.strip()` and `len(value) <= 80`
abbrev trigger_value_valid : Option Text → Bool
trigger_value_valid none = false
trigger_value_valid (some value) = not (is_empty (drop_spaces value)) && leb (length value) 80

abbrev trigger_valid : Value → Bool
trigger_valid trigger =
    is_object trigger
    && kind_valid (get_key (codes "kind") trigger)
    && trigger_value_valid (text_of (get_key (codes "value") trigger))

-- `_validate_routine` but for the triggers
unfoldable pub routine_valid : List Text → List Text → Value → Bool
routine_valid personas ids routine =
    is_object routine
    && is_some (text_of (get_key (codes "id") routine))
    && is_identifier 1 39 (read (codes "id") routine)
    && not (contains (read (codes "id") routine) ids)
    && not (is_empty (drop_spaces (read (codes "label") routine)))
    && is_some (text_of (get_key (codes "persona") routine))
    && contains (read (codes "persona") routine) personas
    && preconditions_valid (get_key (codes "preconditions") routine)
    && not (is_empty (items_of (codes "triggers") routine))
    && timing_valid routine

-- `get`
unfoldable pub get_routine : RoutineBook → Text → Result ValidationError Value
get_routine book id = or_raise (find text_eq id book.routines) invalid

-- the routines, each with its identifier
abbrev pub by_id : List Value → List (Text × Value)
by_id routines = map (λ routine. (read (codes "id") routine, routine)) routines

module _ (casefold : Text → Text) where
  unfoldable pub normalize_phrase : Text → Text
  normalize_phrase t = casefold (reverse (drop_marks (reverse (join_words t))))

  abbrev pub key_value : Text → Text → Text
  key_value kind value = if text_eq kind (codes "phrase") then normalize_phrase value else value

  -- the key of a trigger of a routine of a persona
  unfoldable pub trigger_key : Text → Value → TriggerKey
  trigger_key persona trigger = record {
    persona = persona;
    kind = read (codes "kind") trigger;
    value = key_value (read (codes "kind") trigger) (read (codes "value") trigger);
  }

  -- the loop over the triggers of a routine
  unfoldable pub validate_triggers :
      Text → List Value → List TriggerKey → Result ValidationError (List TriggerKey)
  validate_triggers persona [] seen = ok seen
  validate_triggers persona (trigger ∷ triggers) seen =
      let key = trigger_key persona trigger in
      let rest = validate_triggers persona triggers (key ∷ seen) in
      if trigger_valid trigger && not (any (key_eq key) seen) then rest else err invalid

  unfoldable pub validate_routine : List Text → Value → Seen → Result ValidationError Seen
  validate_routine personas routine seen = do
    require (routine_valid personas seen.ids routine) invalid
    triggers ←
        validate_triggers (read (codes "persona") routine) (items_of (codes "triggers") routine)
          seen.triggers
    ok (record { ids = read (codes "id") routine ∷ seen.ids; triggers = triggers })

  unfoldable pub validate_routines : List Text → List Value → Seen → Result ValidationError Seen
  validate_routines personas [] seen = ok seen
  validate_routines personas (routine ∷ routines) seen = do
    seen' ← validate_routine personas routine seen
    validate_routines personas routines seen'

  -- the keys of a routine, each with the routine's identifier
  unfoldable pub triggers_of : Value → List (TriggerKey × Text)
  triggers_of routine =
      map
        (λ trigger.
          (trigger_key (read (codes "persona") routine) trigger, read (codes "id") routine))
        (items_of (codes "triggers") routine)

  unfoldable pub all_triggers : List Value → List (TriggerKey × Text)
  all_triggers [] = []
  all_triggers (routine ∷ routines) = triggers_of routine ++ all_triggers routines

  -- `__init__` and `_validate`
  unfoldable pub load : Value → Result ValidationError RoutineBook
  load payload = do
    require (is_object payload && is_schema_two (get_key (codes "schema_version") payload)) invalid
    personas ← validate_personas (get_key (codes "personas") payload)
    require (not (is_empty (items_of (codes "routines") payload))) invalid
    seen ←
        validate_routines personas (items_of (codes "routines") payload)
          (record { ids = []; triggers = [] })
    ok (record {
      personas = personas;
      routines = put_all text_eq [] (by_id (items_of (codes "routines") payload));
      triggers = put_all key_eq [] (all_triggers (items_of (codes "routines") payload));
    })

  abbrev same_trigger : Text → Text → TriggerKey → Bool
  same_trigger kind value key = text_eq key.kind kind && text_eq key.value (key_value kind value)

  abbrev the_only : List (TriggerKey × Text) → Option Text
  the_only (p ∷ []) = some p.1
  the_only _ = none

  -- `match`, for a persona or for all
  unfoldable pub match_trigger : RoutineBook → Text → Text → Option Text → Option Text
  match_trigger book kind value (some persona) =
      find key_eq (record { persona = persona; kind = kind; value = key_value kind value })
        book.triggers
  match_trigger book kind value none =
      the_only (
        keep (λ p. same_trigger kind value p.0 && contains p.0.persona book.personas) book.triggers)

  -- `match_all`: the personas with their routines
  abbrev pub match_all : RoutineBook → Text → Text → List (Text × Text)
  match_all book kind value =
      map (λ p. (p.0.persona, p.1)) (keep (λ p. same_trigger kind value p.0) book.triggers)
