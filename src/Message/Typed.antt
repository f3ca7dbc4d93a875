-- ===== src/Message/Typed.antt =====
-- The validation of messages against their declared types.
use termlink.Prelude.{
  ◌<◌, ◌≡◌, refl, String, Bool, true, false, List, [], ◌∷◌, some, none, inl, inr, Option-cases,
  arith,
}
use termlink.Json.{Json, every_string}
use termlink.Message.{
  token_request, password_request, ClientMessage, auth_request, data_in, binary_in, terminal_input,
  terminal_resize, ping, goodbye_in, client_json, ServerMessage, hello, data_out, binary_out,
  goodbye_out, server_json, strings,
}
use termlink.Message.Valid.{
  is_valid_message, is_client_message, is_server_message, as_client_message,
  as_client_message-ne-none,
}

-- An object that passes `isValidMessage` and `isClientMessage` has every field that its message
-- type declares, at the declared type, so that the handlers never read a missing one.
as_client_message_total :
    (j : Json)
    → is_valid_message j ≡ true
    → is_client_message j ≡ true
    → (m : ClientMessage) × (as_client_message j ≡ some m)
as_client_message_total j valid client = elim (Option-cases (as_client_message j)) [
  | inl missing ↦ absurd (as_client_message-ne-none j valid client missing)
  | inr found ↦ found
]

-- A terminal has at least one column and one row.
abbrev pub IsSendable : ClientMessage → Type 0
IsSendable (terminal_resize cols rows) = (0 < cols) × (0 < rows)
IsSendable _ = Unit

-- Every client message with a positive terminal size, written as its object, passes both tests
-- and is read back as itself.
client_json_round_trip :
    (m : ClientMessage)
    → IsSendable m
    → (is_valid_message (client_json m) ≡ true)
      × (is_client_message (client_json m) ≡ true)
      × (as_client_message (client_json m) ≡ some m)
unfolding client_json is_valid_message is_client_message as_client_message
client_json_round_trip (auth_request (token_request t)) h = (refl, refl, refl)
client_json_round_trip (auth_request (password_request u p)) h = (refl, refl, refl)
client_json_round_trip (terminal_resize cols rows) h = ground arith
client_json_round_trip (goodbye_in none) h = (refl, refl, refl)
client_json_round_trip (goodbye_in (some r)) h = (refl, refl, refl)
client_json_round_trip ping h = (refl, refl, refl)
client_json_round_trip (data_in s) h = (refl, refl, refl)
client_json_round_trip (binary_in s) h = (refl, refl, refl)
client_json_round_trip (terminal_input s) h = (refl, refl, refl)

abbrev pub is_shared : ServerMessage → Bool
is_shared (data_out s) = true
is_shared (binary_out s) = true
is_shared (goodbye_out reason) = true
is_shared _ = false

every_string-strings : (ss : List String) → every_string (strings ss) ≡ true
every_string-strings [] = refl
every_string-strings (s ∷ ss) = every_string-strings ss

-- Every server message, written as its object, passes `isValidMessage` and `isServerMessage`; it
-- passes `isClientMessage` exactly if it is a `data`, `binary` or `goodbye` message, whose types
-- both directions share.
pub server_json-valid :
    (m : ServerMessage)
    → (is_valid_message (server_json m) ≡ true)
      × (is_server_message (server_json m) ≡ true)
      × (is_client_message (server_json m) ≡ is_shared m)
unfolding server_json is_valid_message is_client_message is_server_message
server_json-valid (hello methods) = (every_string-strings methods, refl, refl)
server_json-valid (goodbye_out none) = (refl, refl, refl)
server_json-valid (goodbye_out (some r)) = (refl, refl, refl)
server_json-valid _ = (refl, refl, refl)
