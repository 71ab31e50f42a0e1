-- ===== src/Choreo/Catalogue/Tests.antt =====
-- A book of two routines for apps/demo_choreo/core.py, and the theorem at it.
use Prim.Native.String.{String}
use mathlib.Core.List.Memᴰ
use dogos_memory.Base.{
  Text, [], codes, err, false, if◌then◌else◌, leb, map, none, ok, refl, some, text_eq, true, ◌&&◌,
  ◌+◌, ◌∷◌, ◌≡◌,
}
use dogos_memory.Choreo.Book.{
  has_key, is_identifier, preconditions_valid, step_duration, timing_valid, validate_step,
  validate_steps,
}
use dogos_memory.Choreo.Catalogue.{
  RoutineBook, TriggerKey, all_triggers, drop_marks, get_routine, invalid, key_eq, load,
  match_trigger, normalize_phrase, routine_valid, trigger_key, triggers_of, validate_personas,
  validate_routine, validate_routines, validate_triggers,
}
use dogos_memory.Choreo.Catalogue.Found.{load-match}
use dogos_memory.Choreo.Dict.{put, put_all}
use dogos_memory.Spaces.{drop_spaces, is_space, squeeze}
use dogos_memory.Value.{
  Value, Values, and_value, array, at_least, at_most, boolean, entry, int_between, integer, lookup,
  no_entries, no_values, number_of, object, one, text,
}

-- `str.casefold` on ASCII
abbrev lower : Text → Text
lower t = map (λ c. if leb 65 c && leb c 90 then c + 32 else c) t

abbrev step : Value
step = object (
    entry (codes "id") (text (codes "hello")) (
      entry (codes "action") (text (codes "say")) (
        entry (codes "args") (object (entry (codes "text") (text (codes "hi")) no_entries))
          no_entries)))

abbrev preconditions : Value
preconditions = object (
    entry (codes "min_battery") (integer false 30) (
      entry (codes "require_operator") (boolean true) (
        entry (codes "require_stationary") (boolean true) (
          entry (codes "reject_charging") (boolean true)
            (entry (codes "require_peer") (boolean false) no_entries)))))

abbrev trigger : String → String → Value
trigger kind value = object (
    entry (codes "kind") (text (codes kind))
      (entry (codes "value") (text (codes value)) no_entries))

abbrev routine : String → String → Values → Value
routine id persona triggers = object (
    entry (codes "id") (text (codes id)) (
      entry (codes "label") (text (codes "A greeting")) (
        entry (codes "persona") (text (codes persona)) (
          entry (codes "max_duration_ms") (integer false 3000) (
            entry (codes "preconditions") preconditions (
              entry (codes "triggers") (array triggers)
                (entry (codes "steps") (array (and_value step no_values)) no_entries)))))))

abbrev profile : Value
profile = object (
    entry (codes "name") (text (codes "Rex"))
      (entry (codes "max_intensity") (integer false 1) no_entries))

abbrev greeting : Value
greeting =
    routine "greet" "rex"
      (and_value (trigger "phrase" " Good   morning!") (and_value (trigger "button" "A") no_values))

abbrev other : Value
other = routine "greet_luna" "luna" (and_value (trigger "phrase" "good morning") no_values)

abbrev payload : Values → Value
payload routines = object (
    entry (codes "schema_version") (integer false 2) (
      entry (codes "personas")
        (object (entry (codes "rex") profile (entry (codes "luna") profile no_entries)))
        (entry (codes "routines") (array routines) no_entries)))

abbrev routines : Values
routines = and_value greeting (and_value other no_values)

abbrev key : String → String → String → TriggerKey
key persona kind value = record { persona = codes persona; kind = codes kind; value = codes value }

abbrev book : RoutineBook
book = record {
  personas = codes "rex" ∷ codes "luna" ∷ [];
  routines = (codes "greet", greeting) ∷ (codes "greet_luna", other) ∷ [];
  triggers =
      (key "rex" "phrase" "good morning", codes "greet")
      ∷ (key "rex" "button" "A", codes "greet")
      ∷ (key "luna" "phrase" "good morning", codes "greet_luna")
      ∷ [];
}

accepted : load lower (payload routines) ≡ ok book
unfolding load validate_personas validate_routines validate_routine routine_valid validate_triggers
    trigger_key normalize_phrase drop_marks key_eq put put_all all_triggers triggers_of
    is_identifier preconditions_valid timing_valid validate_steps validate_step step_duration
    has_key int_between number_of at_least at_most one lookup text_eq squeeze drop_spaces is_space
accepted = refl

load-match_example :
    (get_routine book (codes "greet") ≡ ok greeting)
    × (match_trigger lower book (codes "phrase") (codes " Good   morning!") (some (codes "rex"))
        ≡ some (codes "greet"))
unfolding lookup text_eq
load-match_example =
    load-match lower (payload routines) book greeting (trigger "phrase" " Good   morning!") accepted
      (Memᴰ.head refl) (Memᴰ.head refl)

-- a phrase that two personas have is no phrase of any one
ambiguous : match_trigger lower book (codes "phrase") (codes "GOOD MORNING") none ≡ none
unfolding match_trigger normalize_phrase drop_marks squeeze drop_spaces is_space text_eq
ambiguous = refl

-- a second routine of one persona may not have a phrase that is alike
alike :
    load lower (
      payload (
        and_value greeting (
          and_value
            (routine "again" "rex" (and_value (trigger "phrase" "Good morning.") no_values))
            no_values)))
    ≡ err invalid
unfolding load validate_personas validate_routines validate_routine routine_valid validate_triggers
    trigger_key normalize_phrase drop_marks key_eq put put_all all_triggers triggers_of
    is_identifier preconditions_valid timing_valid validate_steps validate_step step_duration
    has_key int_between number_of at_least at_most one lookup text_eq squeeze drop_spaces is_space
alike = refl
