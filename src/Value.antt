-- ===== src/Value.antt =====
-- Decoded JSON values, and what apps/demo_choreo/core.py and packages/native_agent/runtime/gates.py ask
-- of them. A double is counted in units of 2^-1074, the smallest positive double: every finite double is
-- a whole number of them. An object has each of its keys once.
use Prim.Native.Nat.{◌^◌}
use dogos_memory.Base.{
  Bool, List, Option, Text, [], false, if◌then◌else◌, leb, ltb, none, not, some, text_eq, true, ℕ,
  ◌&&◌, ◌*◌, ◌==◌, ◌||◌, ◌∷◌,
}

mutual
  pub data Value : Type 0 where
    null : Value
    boolean : Bool → Value
    -- whether it is negative, and its size
    integer : Bool → ℕ → Value
    -- whether it is negative, and its size in units
    double : Bool → ℕ → Value
    -- infinite, and whether it is negative; and NaN
    infinite : Bool → Value
    not_a_number : Value
    text : Text → Value
    array : Values → Value
    object : Entries → Value

  pub data Values : Type 0 where
    no_values : Values
    and_value : Value → Values → Values

  pub data Entries : Type 0 where
    no_entries : Entries
    entry : Text → Value → Entries → Entries

abbrev pub list_of : Values → List Value
list_of no_values = []
list_of (and_value v vs) = v ∷ list_of vs

-- `entries.items()`
abbrev pub pairs_of : Entries → List (Text × Value)
pairs_of no_entries = []
pairs_of (entry key v entries) = (key, v) ∷ pairs_of entries

-- `entries.get(key)`: a missing key reads as None
unfoldable pub lookup : Text → Entries → Value
lookup key no_entries = null
lookup key (entry k v entries) = let rest = lookup key entries in if text_eq k key then v else rest

-- `value.get(key)` of a value that is known to be an object
abbrev pub get_key : Text → Value → Value
get_key key (object entries) = lookup key entries
get_key key _ = null

abbrev pub is_object : Value → Bool
is_object (object _) = true
is_object _ = false

abbrev pub is_bool : Value → Bool
is_bool (boolean _) = true
is_bool _ = false

-- `value is True`, and `value is False`
abbrev pub is_true : Value → Bool
is_true (boolean b) = b
is_true _ = false

abbrev pub is_false : Value → Bool
is_false (boolean b) = not b
is_false _ = false

-- a text, or nothing where the value is of another type
abbrev pub text_of : Value → Option Text
text_of (text t) = some t
text_of _ = none

abbrev pub array_of : Value → Option (List Value)
array_of (array vs) = some (list_of vs)
array_of _ = none

-- the units of 1.0
unfoldable pub one : ℕ
one = 2 ^ 1074

-- A number, in units.
pub data Number : Type 0 where
  finite : Bool → ℕ → Number
  infinity : Bool → Number
  nan : Number

-- `_is_number`, with the number; nothing where it is not one
unfoldable pub number_of : Value → Option Number
number_of (integer negative n) = some (finite negative (n * one))
number_of (double negative n) = some (finite negative n)
number_of (infinite negative) = some (infinity negative)
number_of not_a_number = some nan
number_of _ = none

-- `low <= number` for a bound that is not negative, in units
unfoldable pub at_least : ℕ → Number → Bool
at_least low (finite true n) = low == 0 && n == 0
at_least low (finite false n) = leb low n
at_least low (infinity negative) = not negative
at_least low nan = false

-- `number <= high`
unfoldable pub at_most : ℕ → Number → Bool
at_most high (finite true n) = true
at_most high (finite false n) = leb n high
at_most high (infinity negative) = negative
at_most high nan = false

-- `number < low`
unfoldable pub less : ℕ → Number → Bool
less low (finite true n) = not (low == 0 && n == 0)
less low (finite false n) = ltb n low
less low (infinity negative) = negative
less low nan = false

-- `type(value) is int and low <= value <= high` for bounds that are not negative, as the integer
unfoldable pub int_between : ℕ → ℕ → Value → Option ℕ
int_between low high (integer negative n) =
    if leb low n && leb n high && (not negative || n == 0) then some n else none
int_between low high _ = none

-- `value == wanted` for a text
abbrev pub text_is : Value → Text → Bool
text_is (text t) wanted = text_eq t wanted
text_is _ wanted = false
