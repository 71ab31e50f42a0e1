-- ===== src/Choreo/Book.antt =====
-- `RoutineBook` of apps/demo_choreo/core.py: what a book of routines must meet, and how a routine is
-- found. Where the code raises, the check gives nothing.
pub mod Bounds
use Prim.Native.Nat.{◌^◌}
use dogos_memory.Base.{
  Bool, List, Option, Text, [], all, codes, contains, false, if◌then◌else◌, is_some, leb, length,
  min, none, not, some, text_eq, true, ℕ, ◌&&◌, ◌*◌, ◌+◌, ◌==◌, ◌||◌, ◌∷◌,
}
use dogos_memory.Memory.Models.{is_empty}
use dogos_memory.Value.{
  Number, Value, array_of, at_least, at_most, entry, finite, get_key, infinity, int_between,
  is_bool, is_object, nan, no_entries, number_of, object, one, text, text_is, text_of,
}

abbrev is_lower : ℕ → Bool
is_lower c = leb b'a' c && leb c b'z'

abbrev is_upper : ℕ → Bool
is_upper c = leb b'A' c && leb c b'Z'

abbrev is_digit : ℕ → Bool
is_digit c = leb b'0' c && leb c b'9'

abbrev starts_with : (ℕ → Bool) → Text → Bool
starts_with p [] = false
starts_with p (c ∷ cs) = p c

-- `[a-z][a-z0-9_]{low,high}`
unfoldable pub is_identifier : ℕ → ℕ → Text → Bool
is_identifier low high t =
    starts_with is_lower t
    && all (λ c. is_lower c || is_digit c || c == b'_') t
    && leb (low + 1) (length t)
    && leb (length t) (high + 1)

-- `[A-Za-z][A-Za-z0-9_]{1,63}`
unfoldable pub is_task_id : Text → Bool
is_task_id t =
    starts_with (λ c. is_lower c || is_upper c) t
    && all (λ c. is_lower c || is_upper c || is_digit c || c == b'_') t
    && leb 2 (length t)
    && leb (length t) 64

-- the part of a file's name before `.json`
unfoldable pub before_json : Text → Option Text
before_json [] = none
before_json (c ∷ cs) =
    let rest = before_json cs in
    if text_eq (c ∷ cs) (codes ".json")
    then some []
    else elim rest [ none ↦ none | some stem ↦ some (c ∷ stem) ]

-- `[A-Za-z0-9_]{2,64}\.json`
unfoldable pub is_source_file : Text → Bool
is_source_file t = elim (before_json t) [
  | none ↦ false
  | some stem ↦
      all (λ c. is_lower c || is_upper c || is_digit c || c == b'_') stem
      && leb 2 (length stem)
      && leb (length stem) 64
]

-- `step.get("on_failure", "abort")`; a step that says null has another value than abort
unfoldable pub has_key : Text → Value → Bool
has_key key (object no_entries) = false
has_key key (object (entry k v entries)) =
    let rest = has_key key (object entries) in text_eq k key || rest
has_key key _ = false

abbrev pub aborts : Value → Bool
aborts step =
    not (has_key (codes "on_failure") step)
    || text_is (get_key (codes "on_failure") step) (codes "abort")

abbrev pub on_failure_valid : Value → Bool
on_failure_valid step =
    aborts step || text_is (get_key (codes "on_failure") step) (codes "continue")

-- 0.12 in units: its double is 0x1EB851EB851EB8 * 2^-56
unfoldable pub max_angle : ℕ
max_angle = 8646911284551352 * 2 ^ 1018

-- `_is_number(angle) and not abs(angle) > 0.12`, which NaN passes
abbrev pub angle_valid : Option Number → Bool
angle_valid none = false
angle_valid (some (finite negative n)) = leb n max_angle
angle_valid (some (infinity negative)) = false
angle_valid (some nan) = true

abbrev say_duration : Option Text → Option ℕ
say_duration none = none
say_duration (some t) =
    if leb 1 (length t) && leb (length t) 120 then some (min 5000 (800 + length t * 120)) else none

abbrev head_duration : Value → Option ℕ
head_duration args =
    if angle_valid (number_of (get_key (codes "pitch") args))
      && angle_valid (number_of (get_key (codes "yaw") args))
    then int_between 100 1500 (get_key (codes "duration_ms") args)
    else none

-- `isinstance(value, str) and value`
abbrev is_filled : Value → Bool
is_filled (text t) = not (is_empty t)
is_filled _ = false

abbrev candidates_valid : Option (List Value) → Bool
candidates_valid none = false
candidates_valid (some vs) = not (is_empty vs) && all is_filled vs

abbrev emotion_duration : Value → Option ℕ
emotion_duration args =
    if candidates_valid (array_of (get_key (codes "candidates") args))
    then int_between 100 3000 (get_key (codes "duration_ms") args)
    else none

abbrev rgb_valid : Option (List Value) → Bool
rgb_valid none = false
rgb_valid (some vs) = length vs == 3 && all (λ v. is_some (int_between 0 255 v)) vs

abbrev light_duration : Value → Option ℕ
light_duration args =
    if rgb_valid (array_of (get_key (codes "rgb") args))
      && is_some (int_between 1 50 (get_key (codes "brightness") args))
    then int_between 100 3000 (get_key (codes "duration_ms") args)
    else none

abbrev wait_duration : Value → Option ℕ
wait_duration args = int_between 0 3000 (get_key (codes "duration_ms") args)

abbrev matches : (Text → Bool) → Value → Bool
matches p (text t) = p t
matches p _ = false

abbrev dag_duration : Value → Value → Option ℕ
dag_duration step args =
    if matches is_task_id (get_key (codes "task_id") args)
      && matches is_source_file (get_key (codes "source_file") args)
      && text_is (get_key (codes "verification") step) (codes "not_run")
    then some 5000
    else none

-- by the action of a step, with its arguments
abbrev action_duration : Value → Value → Value → Option ℕ
action_duration step action args =
    if text_is action (codes "say")
    then say_duration (text_of (get_key (codes "text") args))
    else if text_is action (codes "head")
    then head_duration args
    else if text_is action (codes "emotion")
    then emotion_duration args
    else if text_is action (codes "light")
    then light_duration args
    else if text_is action (codes "wait")
    then wait_duration args
    else if text_is action (codes "native_dag")
    then dag_duration step args
    else none

-- `_validate_step` after its identifier: the estimate in milliseconds
unfoldable pub step_duration : Value → Option ℕ
step_duration step =
    if on_failure_valid step && is_object (get_key (codes "args") step)
    then action_duration step (get_key (codes "action") step) (get_key (codes "args") step)
    else none

abbrev step_id_valid : List Text → Option Text → Option Text
step_id_valid seen none = none
step_id_valid seen (some id) =
    if is_identifier 0 31 id && not (contains id seen) then some id else none

-- `_validate_step`: the identifier, which is new, and the estimate
unfoldable pub validate_step : List Text → Value → Option (Text × ℕ)
validate_step seen step =
    if is_object step
    then elim (step_id_valid seen (text_of (get_key (codes "id") step))) [
      | none ↦ none
      | some id ↦ elim (step_duration step) [ none ↦ none | some ms ↦ some (id, ms) ]
    ]
    else none

-- the loop over the steps: the sum of the estimates
unfoldable pub validate_steps : List Text → List Value → Option ℕ
validate_steps seen [] = some 0
validate_steps seen (step ∷ steps) = elim (validate_step seen step) [
  | none ↦ none
  | some (id, ms) ↦ elim (validate_steps (id ∷ seen) steps) [
    | none ↦ none
    | some total ↦ some (ms + total)
  ]
]

-- the checks of `_validate_routine` on the steps, for a longest duration
abbrev steps_fit : ℕ → Option (List Value) → Bool
steps_fit longest none = false
steps_fit longest (some steps) =
    leb 1 (length steps)
    && leb (length steps) 12
    && elim (validate_steps [] steps) [ none ↦ false | some total ↦ leb total longest ]

-- `max_duration_ms` and the steps of `_validate_routine`
unfoldable pub timing_valid : Value → Bool
timing_valid routine = elim (int_between 1000 30000 (get_key (codes "max_duration_ms") routine)) [
  | none ↦ false
  | some longest ↦ steps_fit longest (array_of (get_key (codes "steps") routine))
]

-- `preconditions` of `_validate_routine`
unfoldable pub preconditions_valid : Value → Bool
preconditions_valid p =
    is_object p
    && elim (number_of (get_key (codes "min_battery") p)) [
      | none ↦ false
      | some n ↦ at_least 0 n && at_most (100 * one) n
    ]
    && is_bool (get_key (codes "require_operator") p)
    && is_bool (get_key (codes "require_stationary") p)
    && is_bool (get_key (codes "reject_charging") p)
    && is_bool (get_key (codes "require_peer") p)
