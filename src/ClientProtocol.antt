-- ===== src/ClientProtocol.antt =====
-- client/src/protocol.ts: the client's protocol state machine and `buildAuthRequest`. As on the
-- server, a method returns the new state and its callbacks in order, or the state that it refused.
use termlink.Prelude.{
  String, Bool, true, false, ◌&&◌, ◌||◌, List, [], ◌∷◌, ◌++◌, Option, none, some, includes, truthy,
  if◌then◌else◌,
}
use termlink.Prelude.Result.{Result, ok, ◌>>=◌, ◌>>◌, guard}
use termlink.Message.{
  AuthRequest, token_request, password_request, ServerMessage, hello, auth_ok, auth_fail, data_out,
  binary_out, terminal_output, pong, goodbye_out,
}

pub data ClientProtocolState : Type 0 where
  disconnected connecting waiting_hello authenticating ready closing : ClientProtocolState

pub data ClientCallback : Type 0 where
  on_hello : (auth_methods : List String) → ClientCallback
  on_auth_ok on_auth_fail on_data on_binary on_terminal_output : String → ClientCallback
  on_goodbye : (reason : Option String) → ClientCallback
  on_pong : ClientCallback

pub data WrongClientState : Type 0 where
  wrong_client_state : ClientProtocolState → WrongClientState

pub record ClientMoved : Type 0 where
  pub state : ClientProtocolState
  pub calls : List ClientCallback

abbrev pub same_client : ClientProtocolState → ClientProtocolState → Bool
same_client disconnected disconnected = true
same_client connecting connecting = true
same_client waiting_hello waiting_hello = true
same_client authenticating authenticating = true
same_client ready ready = true
same_client closing closing = true
same_client _ _ = false

abbrev any_of : List ClientProtocolState → ClientProtocolState → Bool
any_of [] s = false
any_of (a ∷ allowed) s = same_client a s || any_of allowed s

-- `current(...allowed)`
abbrev current : List ClientProtocolState → ClientProtocolState → Result WrongClientState (Unit {0})
current allowed s = guard (any_of allowed s) (wrong_client_state s)

abbrev moved : ClientProtocolState → ClientCallback → Result WrongClientState ClientMoved
moved s call = ok (record { state = s; calls = call ∷ [] })

unfoldable pub connected : ClientProtocolState → Result WrongClientState ClientMoved
connected s = do
  current (disconnected ∷ waiting_hello ∷ []) s
  ok (record { state = waiting_hello; calls = [] })

unfoldable pub handle : ServerMessage → ClientProtocolState → Result WrongClientState ClientMoved
handle (hello methods) s = do
  current (waiting_hello ∷ []) s
  moved authenticating (on_hello methods)
handle (auth_ok id) s = do current (authenticating ∷ []) s; moved ready (on_auth_ok id)
handle (auth_fail reason) s = do current (authenticating ∷ []) s; moved s (on_auth_fail reason)
handle (data_out payload) s = do current (ready ∷ []) s; moved s (on_data payload)
handle (binary_out payload) s = do current (ready ∷ []) s; moved s (on_binary payload)
handle (terminal_output payload) s = do current (ready ∷ []) s; moved s (on_terminal_output payload)
handle pong s = do current (ready ∷ []) s; moved s on_pong
handle (goodbye_out reason) s = do
  current (ready ∷ authenticating ∷ []) s
  moved closing (on_goodbye reason)

-- The socket closed: whatever the state was.
unfoldable pub on_disconnected : ClientProtocolState → ClientProtocolState
on_disconnected s = disconnected

-- The messages of a server, one after the other; the first refusal ends the reading.
unfoldable pub handle_all :
    ClientProtocolState → List ServerMessage → Result WrongClientState ClientMoved
handle_all s [] = ok (record { state = s; calls = [] })
handle_all s (m ∷ ms) = do
  first ← handle m s
  rest ← handle_all first.state ms
  ok (record { state = rest.state; calls = first.calls ++ rest.calls })

pub record Credentials : Type 0 where
  pub token : Option String
  pub username : Option String
  pub password : Option String

-- A value that is neither `undefined` nor empty.
abbrev pub given : Option String → Bool
given none = false
given (some s) = truthy s

abbrev pub value_of : Option String → String
value_of none = ""
value_of (some s) = s

-- `none` is the error "No usable credentials for the server's advertised auth methods".
unfoldable pub build_auth_request : List String → Credentials → Option AuthRequest
build_auth_request methods creds =
    if includes methods "token" && given creds.token
    then some (token_request (value_of creds.token))
    else if includes methods "password" && (given creds.username && given creds.password)
    then some (password_request (value_of creds.username) (value_of creds.password))
    else none
