-- ===== src/Json.antt =====
-- The values that `JSON.parse` returns, and the tests that shared/protocol/framing.ts and
-- shared/device/protocol.ts make on them. A number is told apart only as far as these tests go:
-- a whole number, a negative whole number, or any other double (by its text).
use termlink.Prelude.{
  ℕ, String, ◌==◌, Bool, true, false, Option, none, some, ltb, ◌===◌, truthy, if◌then◌else◌,
}

pub data Number : Type 0 where
  whole : ℕ → Number
  negative : ℕ → Number
  fraction : String → Number

mutual
  pub data Json : Type 0 where
    null : Json
    boolean : Bool → Json
    number : Number → Json
    string : String → Json
    array : Items → Json
    object : Fields → Json

  pub data Items : Type 0 where
    nil : Items
    cons : Json → Items → Items

  pub data Fields : Type 0 where
    end : Fields
    field : String → Json → Fields → Fields

-- `rec.name`, where `none` is `undefined`.
abbrev pub field_of : Fields → String → Option Json
field_of end name = none
field_of (field k v rest) name = if k == name then some v else field_of rest name

abbrev pub is_string : Option Json → Bool
is_string (some (string s)) = true
is_string _ = false

-- `value === undefined || typeof value === "string"`
abbrev pub is_string_or_undefined : Option Json → Bool
is_string_or_undefined none = true
is_string_or_undefined (some (string s)) = true
is_string_or_undefined _ = false

-- `typeof value === "string" && value.length > 0`
abbrev pub is_nonempty_string : Option Json → Bool
is_nonempty_string (some (string s)) = truthy s
is_nonempty_string _ = false

-- `value === "text"`
abbrev pub is_text : String → Option Json → Bool
is_text t (some (string s)) = s == t
is_text t _ = false

-- `typeof value === "number"`
abbrev pub is_number : Option Json → Bool
is_number (some (number n)) = true
is_number _ = false

-- `typeof value === "number" && Number.isInteger(value) && value > 0`
abbrev pub is_positive_integer : Option Json → Bool
is_positive_integer (some (number (whole n))) = ltb 0 n
is_positive_integer _ = false

-- `value === n`, for a whole number.
abbrev pub is_whole : ℕ → Option Json → Bool
is_whole n (some (number (whole m))) = m === n
is_whole n _ = false

abbrev pub every_string : Items → Bool
every_string nil = true
every_string (cons (string s) rest) = every_string rest
every_string (cons _ rest) = false

-- `Array.isArray(value) && value.every((m) => typeof m === "string")`
abbrev pub is_string_array : Option Json → Bool
is_string_array (some (array items)) = every_string items
is_string_array _ = false

-- The value that a test above has let through, read at the type that the test gives it.
abbrev pub text_of : Option Json → Option String
text_of (some (string s)) = some s
text_of _ = none

abbrev pub size_of : Option Json → Option ℕ
size_of (some (number (whole n))) = some n
size_of _ = none
