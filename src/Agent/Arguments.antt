-- ===== src/Agent/Arguments.antt =====
-- What `_canonical_intent` accepts: a tool's name, a mode and arguments within bounds.
use dogos_memory.Base.{
  Bool, Option, Text, [], all, false, if◌then◌else◌, leb, length, none, some, suc, true, ℕ, ◌&&◌,
  ◌+◌, ◌==◌, ◌||◌, ◌∷◌,
}

mutual
  -- a value of `arguments`: an integer is whether it is negative and its size, a double is whether it
  -- is finite and its decimal form
  pub data Json : Type 0 where
    null : Json
    boolean : Bool → Json
    integer : Bool → ℕ → Json
    double : Bool → Text → Json
    text : Text → Json
    array : Items → Json
    object : Fields → Json
    unsupported : Json

  pub data Items : Type 0 where
    no_items : Items
    item : Json → Items → Items

  -- the fields of an object in order, each with its key
  pub data Fields : Type 0 where
    no_fields : Fields
    field : Text → Json → Fields → Fields

abbrev is_lower : ℕ → Bool
is_lower c = leb b'a' c && leb c b'z'

abbrev is_digit : ℕ → Bool
is_digit c = leb b'0' c && leb c b'9'

abbrev is_upper : ℕ → Bool
is_upper c = leb b'A' c && leb c b'Z'

abbrev starts_with : (ℕ → Bool) → Text → Bool
starts_with p [] = false
starts_with p (c ∷ cs) = p c

-- `TOOL_NAME_RE`
unfoldable pub is_tool_name : Text → Bool
is_tool_name t =
    starts_with is_lower t
    && all (λ c. is_lower c || is_digit c || c == b'_') t
    && leb (length t) 64

-- `APPROVER_RE`
unfoldable pub is_approver : Text → Bool
is_approver t =
    starts_with (λ c. is_lower c || is_upper c || is_digit c) t
    && all
        (λ c.
          is_lower c
          || is_upper c
          || is_digit c
          || c == b'.'
          || c == b'_'
          || c == b':'
          || c == b'@'
          || c == b'/'
          || c == b'-')
        t
    && leb (length t) 128

-- `NONCE_RE`
unfoldable pub is_nonce : Text → Bool
is_nonce t =
    all (λ c. is_lower c || is_upper c || is_digit c || c == b'_' || c == b'-') t
    && leb 16 (length t)
    && leb (length t) 128

-- `[0-9a-f]{64}`
unfoldable pub is_sha256 : Text → Bool
is_sha256 t = all (λ c. is_digit c || (leb b'a' c && leb c b'f')) t && length t == 64

unfoldable mutual
  -- `_normalise_json_value` at a depth: whether it returns, with the same value
  pub normal_json : Json → ℕ → Bool
  normal_json null depth = leb depth 5
  normal_json (boolean b) depth = leb depth 5
  normal_json (integer negative n) depth = leb depth 5
  normal_json (double finite form) depth = leb depth 5 && finite
  normal_json (text t) depth = leb depth 5 && leb (length t) 2048
  normal_json (array items) depth =
      leb depth 5 && leb (count_items items) 32 && normal_items items (depth + 1)
  normal_json (object fields) depth =
      leb depth 5 && leb (count_fields fields) 64 && normal_fields fields (depth + 1)
  normal_json unsupported depth = false

  pub normal_items : Items → ℕ → Bool
  normal_items no_items depth = true
  normal_items (item j items) depth = normal_json j depth && normal_items items depth

  pub normal_fields : Fields → ℕ → Bool
  normal_fields no_fields depth = true
  normal_fields (field key j fields) depth =
      is_tool_name key && normal_json j depth && normal_fields fields depth

  pub count_items : Items → ℕ
  count_items no_items = 0
  count_items (item j items) = suc (count_items items)

  pub count_fields : Fields → ℕ
  count_fields no_fields = 0
  count_fields (field key j fields) = suc (count_fields fields)

-- The functions that are called on bytes: `json.dumps` of an intent, sha256 as a hexadecimal digest,
-- and HMAC-SHA256 with the approval domain in front of its message.
pub record Crypto : Type 0 where
  pub dumps : Fields → Text → Text → Text
  pub sha256 : Text → Text
  pub hmac : Text → Text → Text

-- `_canonical_intent`: the digest, or nothing where it raises
unfoldable pub canonical_intent : Crypto → Text → Text → Fields → Option Text
canonical_intent crypto tool mode arguments =
    let bytes = crypto.dumps arguments mode tool in
    if is_tool_name tool && normal_json (object arguments) 0 && leb (length bytes) 4096
    then some (crypto.sha256 bytes)
    else none
