-- ===== src/Message/Valid.antt =====
-- The run-time validation of shared/protocol/framing.ts: `isValidMessage`, `isClientMessage`,
-- `isServerMessage`, and the reading of a validated object at its declared type.
use termlink.Prelude.{
  String, ◌==◌, Bool, true, false, ◌&&◌, ◌||◌, List, [], ◌∷◌, Option, none, some, includes,
  if◌then◌else◌, ◌≡◌, ◌≢◌, arith, All, includes-All,
}
use termlink.Json.{
  Json, string, object, Fields, field_of, is_string, is_string_or_undefined, is_text, is_number,
  is_positive_integer, is_string_array, text_of, size_of,
}
use termlink.Message.{
  AuthRequest, token_request, password_request, ClientMessage, auth_request, data_in, binary_in,
  terminal_input, terminal_resize, ping, goodbye_in,
}

abbrev pub valid_server_types : List String
valid_server_types =
    "hello" ∷ "auth_ok" ∷ "auth_fail" ∷ "data" ∷ "binary" ∷ "terminal_output" ∷ "pong" ∷ "goodbye"
    ∷ []

abbrev pub valid_client_types : List String
valid_client_types =
    "auth_request" ∷ "data" ∷ "binary" ∷ "terminal_input" ∷ "terminal_resize" ∷ "ping" ∷ "goodbye"
    ∷ []

-- The test of an `auth_request` by its fields `method`, `token`, `username` and `password`.
valid_auth : Option Json → Option Json → Option Json → Option Json → Bool
valid_auth method token username password =
    if is_text "token" method
    then is_string token
    else if is_text "password" method
    then is_string username && is_string password
    else false

valid_size : Option Json → Option Json → Bool
valid_size cols rows = is_positive_integer cols && is_positive_integer rows

-- The `switch` on the type.
valid_fields : String → Fields → Bool
valid_fields type rec =
    if type == "hello"
    then is_number (field_of rec "version") && is_string_array (field_of rec "auth_methods")
    else if type == "auth_ok"
    then is_string (field_of rec "session_id")
    else if type == "auth_fail"
    then is_string (field_of rec "reason")
    else if type == "data"
    then is_string (field_of rec "data")
    else if type == "binary"
    then is_string (field_of rec "data")
    else if type == "terminal_input"
    then is_string (field_of rec "data")
    else if type == "terminal_output"
    then is_string (field_of rec "data")
    else if type == "terminal_resize"
    then valid_size (field_of rec "cols") (field_of rec "rows")
    else if type == "pong"
    then true
    else if type == "ping"
    then true
    else if type == "goodbye"
    then is_string_or_undefined (field_of rec "reason")
    else if type == "auth_request"
    then valid_auth (field_of rec "method") (field_of rec "token") (field_of rec "username")
        (field_of rec "password")
    else false

valid_typed : Fields → Option Json → Bool
valid_typed rec (some (string type)) =
    (includes valid_server_types type || includes valid_client_types type) && valid_fields type rec
valid_typed rec _ = false

-- An array is an object too, but has no `type`.
unfoldable pub is_valid_message : Json → Bool
unfolding valid_typed valid_fields valid_auth valid_size
is_valid_message (object rec) = valid_typed rec (field_of rec "type")
is_valid_message _ = false

abbrev type_in : List String → Option Json → Bool
type_in types (some (string type)) = includes types type
type_in types _ = false

unfoldable pub is_client_message : Json → Bool
is_client_message (object rec) = type_in valid_client_types (field_of rec "type")
is_client_message _ = false

unfoldable pub is_server_message : Json → Bool
is_server_message (object rec) = type_in valid_server_types (field_of rec "type")
is_server_message _ = false

read_auth : Option Json → Option Json → Option Json → Option Json → Option AuthRequest
read_auth method token username password =
    if is_text "token" method
    then elim (text_of token) [ none ↦ none | some t ↦ some (token_request t) ]
    else elim (text_of username) [
      | none ↦ none
      | some u ↦ elim (text_of password) [ none ↦ none | some p ↦ some (password_request u p) ]
    ]

read_size : Option Json → Option Json → Option ClientMessage
read_size cols rows = elim (size_of cols) [
  | none ↦ none
  | some c ↦ elim (size_of rows) [ none ↦ none | some r ↦ some (terminal_resize c r) ]
]

read_payload : (String → ClientMessage) → Option Json → Option ClientMessage
read_payload make payload = elim (text_of payload) [ none ↦ none | some s ↦ some (make s) ]

read_goodbye : Option Json → Option ClientMessage
read_goodbye none = some (goodbye_in none)
read_goodbye (some (string s)) = some (goodbye_in (some s))
read_goodbye (some _) = none

read_fields : String → Fields → Option ClientMessage
read_fields type rec =
    if type == "auth_request"
    then elim (read_auth (field_of rec "method") (field_of rec "token") (field_of rec "username")
        (field_of rec "password")) [ none ↦ none | some r ↦ some (auth_request r) ]
    else if type == "data"
    then read_payload data_in (field_of rec "data")
    else if type == "binary"
    then read_payload binary_in (field_of rec "data")
    else if type == "terminal_input"
    then read_payload terminal_input (field_of rec "data")
    else if type == "terminal_resize"
    then read_size (field_of rec "cols") (field_of rec "rows")
    else if type == "ping"
    then some ping
    else if type == "goodbye"
    then read_goodbye (field_of rec "reason")
    else none

read_typed : Fields → Option Json → Option ClientMessage
read_typed rec (some (string type)) = read_fields type rec
read_typed rec _ = none

-- The object read as a `ClientMessage`, which the program does by a cast. `none` is a field that
-- does not have its declared type.
unfoldable pub as_client_message : Json → Option ClientMessage
unfolding read_typed read_fields read_auth read_size read_payload read_goodbye
as_client_message (object rec) = read_typed rec (field_of rec "type")
as_client_message _ = none

read_auth-ne-none : (m t u p : Option Json) → valid_auth m t u p ≡ true → read_auth m t u p ≢ none
unfolding valid_auth read_auth
read_auth-ne-none m t u p valid = ground arith

read_size-ne-none : (c r : Option Json) → valid_size c r ≡ true → read_size c r ≢ none
unfolding valid_size read_size
read_size-ne-none c r valid = ground arith

read_payload-ne-none :
    (make : String → ClientMessage) (p : Option Json)
    → is_string p ≡ true
    → read_payload make p ≢ none
unfolding read_payload
read_payload-ne-none make p valid = ground arith

read_goodbye-ne-none : (r : Option Json) → is_string_or_undefined r ≡ true → read_goodbye r ≢ none
unfolding read_goodbye
read_goodbye-ne-none none valid = cc
read_goodbye-ne-none (some (string s)) valid = cc
read_goodbye-ne-none (some _) valid = cc

-- Each type that a client may send is read from the fields that its validation tests.
read_fields-ne-none :
    (rec : Fields)
    → All (λ type. valid_fields type rec ≡ true → read_fields type rec ≢ none) valid_client_types
unfolding valid_fields read_fields
read_fields-ne-none rec = (
  auth,
  (
    read_payload-ne-none data_in (field_of rec "data"),
    (
      read_payload-ne-none binary_in (field_of rec "data"),
      (
        read_payload-ne-none terminal_input (field_of rec "data"),
        (
          read_size-ne-none (field_of rec "cols") (field_of rec "rows"),
          ((λ h. cc), (read_goodbye-ne-none (field_of rec "reason"), tt)),
        ),
      ),
    ),
  ),
)
  where
    auth : valid_fields "auth_request" rec ≡ true → read_fields "auth_request" rec ≢ none
    auth h = ground (
      arith,
      read_auth-ne-none (field_of rec "method") (field_of rec "token") (field_of rec "username")
          (field_of rec "password"),
    )

read_typed-ne-none :
    (rec : Fields) (type : Option Json)
    → valid_typed rec type ≡ true
    → type_in valid_client_types type ≡ true
    → read_typed rec type ≢ none
unfolding valid_typed read_typed
read_typed-ne-none rec (some (string type)) valid client =
    includes-All (λ t. valid_fields t rec ≡ true → read_fields t rec ≢ none) valid_client_types type
      (read_fields-ne-none rec) client (ground arith)
read_typed-ne-none rec _ valid client = cc

pub as_client_message-ne-none :
    (j : Json) → is_valid_message j ≡ true → is_client_message j ≡ true → as_client_message j ≢ none
unfolding is_valid_message is_client_message as_client_message
as_client_message-ne-none (object rec) valid client =
    read_typed-ne-none rec (field_of rec "type") valid client
as_client_message-ne-none _ valid client = cc
