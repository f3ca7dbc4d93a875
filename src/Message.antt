-- ===== src/Message.antt =====
-- shared/protocol/types.ts: the messages of the relay protocol, and the JavaScript objects that
-- stand for them. Data frames carry their payload as text, and a missing `reason` is `none`.
pub mod Valid
pub mod Typed
pub mod Server
use termlink.Prelude.{ℕ, String, List, [], ◌∷◌, Option, none, some}
use termlink.Json.{Json, string, number, whole, object, array, Fields, field, end, Items, nil, cons}

pub data AuthRequest : Type 0 where
  token_request : (token : String) → AuthRequest
  password_request : (username password : String) → AuthRequest

pub data ClientMessage : Type 0 where
  auth_request : AuthRequest → ClientMessage
  data_in binary_in terminal_input : (payload : String) → ClientMessage
  terminal_resize : (cols rows : ℕ) → ClientMessage
  ping : ClientMessage
  goodbye_in : (reason : Option String) → ClientMessage

pub data ServerMessage : Type 0 where
  hello : (auth_methods : List String) → ServerMessage
  auth_ok : (session_id : String) → ServerMessage
  auth_fail : (reason : String) → ServerMessage
  data_out binary_out terminal_output : (payload : String) → ServerMessage
  pong : ServerMessage
  goodbye_out : (reason : Option String) → ServerMessage

pub data ProtocolState : Type 0 where
  connecting authenticating ready closing : ProtocolState

abbrev pub tagged : String → Fields → Json
tagged type rest = object (field "type" (string type) rest)

-- A key with the value `undefined` is left out of the text of an object.
abbrev pub optional : String → Option String → Fields
optional name none = end
optional name (some s) = field name (string s) end

abbrev pub strings : List String → Items
strings [] = nil
strings (s ∷ rest) = cons (string s) (strings rest)

abbrev pub payload : String → Fields
payload s = field "data" (string s) end

-- The object literal of each message.
unfoldable pub client_json : ClientMessage → Json
client_json (auth_request (token_request token)) =
    tagged "auth_request" (field "method" (string "token") (field "token" (string token) end))
client_json (auth_request (password_request username password)) = tagged "auth_request" (
    field "method" (string "password")
      (field "username" (string username) (field "password" (string password) end)))
client_json (data_in s) = tagged "data" (payload s)
client_json (binary_in s) = tagged "binary" (payload s)
client_json (terminal_input s) = tagged "terminal_input" (payload s)
client_json (terminal_resize cols rows) =
    tagged "terminal_resize"
      (field "cols" (number (whole cols)) (field "rows" (number (whole rows)) end))
client_json ping = tagged "ping" end
client_json (goodbye_in reason) = tagged "goodbye" (optional "reason" reason)

unfoldable pub server_json : ServerMessage → Json
server_json (hello methods) =
    tagged "hello"
      (field "version" (number (whole 1)) (field "auth_methods" (array (strings methods)) end))
server_json (auth_ok id) = tagged "auth_ok" (field "session_id" (string id) end)
server_json (auth_fail reason) = tagged "auth_fail" (field "reason" (string reason) end)
server_json (data_out s) = tagged "data" (payload s)
server_json (binary_out s) = tagged "binary" (payload s)
server_json (terminal_output s) = tagged "terminal_output" (payload s)
server_json pong = tagged "pong" end
server_json (goodbye_out reason) = tagged "goodbye" (optional "reason" reason)
