-- ===== src/Message/Server.antt =====
-- The reading of a validated object as a `ServerMessage`, which client/src/transport.ts does by a
-- cast behind `isServerMessage`.
use termlink.Prelude.{
  ◌≡◌, refl, String, ◌==◌, List, [], ◌∷◌, Option, none, some, arith, if◌then◌else◌,
}
use termlink.Json.{Json, string, array, object, Items, nil, cons, Fields, field_of, text_of}
use termlink.Message.{
  ServerMessage, hello, auth_ok, auth_fail, data_out, binary_out, terminal_output, pong,
  goodbye_out, server_json, strings,
}

-- The strings of an array that holds nothing else.
unfoldable pub texts_of : Items → Option (List String)
texts_of nil = some []
texts_of (cons (string s) rest) = elim (texts_of rest) [ none ↦ none | some ss ↦ some (s ∷ ss) ]
texts_of (cons _ rest) = none

read_methods : Option Json → Option ServerMessage
unfolding texts_of
read_methods (some (array items)) = elim (texts_of items) [
  | none ↦ none
  | some ss ↦ some (hello ss)
]
read_methods _ = none

read_text : (String → ServerMessage) → Option Json → Option ServerMessage
read_text make value = elim (text_of value) [ none ↦ none | some s ↦ some (make s) ]

read_reason : Option Json → Option ServerMessage
read_reason none = some (goodbye_out none)
read_reason (some (string s)) = some (goodbye_out (some s))
read_reason (some _) = none

read_server_fields : String → Fields → Option ServerMessage
unfolding read_methods
read_server_fields type rec =
    if type == "hello"
    then read_methods (field_of rec "auth_methods")
    else if type == "auth_ok"
    then read_text auth_ok (field_of rec "session_id")
    else if type == "auth_fail"
    then read_text auth_fail (field_of rec "reason")
    else if type == "data"
    then read_text data_out (field_of rec "data")
    else if type == "binary"
    then read_text binary_out (field_of rec "data")
    else if type == "terminal_output"
    then read_text terminal_output (field_of rec "data")
    else if type == "pong"
    then some pong
    else if type == "goodbye"
    then read_reason (field_of rec "reason")
    else none

read_server_typed : Fields → Option Json → Option ServerMessage
read_server_typed rec (some (string type)) = read_server_fields type rec
read_server_typed rec _ = none

-- `none` is a field that does not have its declared type.
unfoldable pub as_server_message : Json → Option ServerMessage
unfolding read_server_typed read_server_fields read_text read_reason
as_server_message (object rec) = read_server_typed rec (field_of rec "type")
as_server_message _ = none

texts_of-strings : (ss : List String) → texts_of (strings ss) ≡ some ss
unfolding texts_of
texts_of-strings [] = refl
texts_of-strings (s ∷ ss) = ground (arith, texts_of-strings ss)

-- Every server message, written as its object, is read back as itself.
as_server_message-server_json : (m : ServerMessage) → as_server_message (server_json m) ≡ some m
unfolding as_server_message server_json
as_server_message-server_json (hello methods) = ground (arith, texts_of-strings methods)
as_server_message-server_json (goodbye_out none) = refl
as_server_message-server_json (goodbye_out (some r)) = refl
as_server_message-server_json _ = refl
