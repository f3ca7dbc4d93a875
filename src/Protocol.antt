-- ===== src/Protocol.antt =====
-- server/src/protocol.ts: the server's protocol state machine. A method returns the new state and
-- the calls that it makes on its callbacks, in order, or the `FrameError` that it throws, which
-- leaves the state as it was. Every callback is the last thing that a method does, so a list of
-- calls says all of their order.
pub mod Safety
pub mod Peer
mod Tests
use termlink.Prelude.{
  ℕ, String, Bool, true, false, ◌||◌, List, [], ◌∷◌, ◌++◌, Option, none, some, if◌then◌else◌,
}
use termlink.Prelude.Result.{Result, ok, err, ◌>>=◌, ◌>>◌, guard}
use termlink.Message.{
  AuthRequest, ClientMessage, auth_request, data_in, binary_in, terminal_input, terminal_resize,
  ping, goodbye_in, ServerMessage, pong, goodbye_out, ProtocolState, connecting, authenticating,
  ready, closing,
}
use termlink.Message

pub data Callback : Type 0 where
  send : ServerMessage → Callback
  on_auth_request : AuthRequest → Callback
  on_data on_binary on_terminal_input : (payload : String) → Callback
  on_terminal_resize : (cols rows : ℕ) → Callback

-- "Message not valid in state", with that state.
pub data WrongState : Type 0 where
  wrong_state : ProtocolState → WrongState

pub record Moved : Type 0 where
  pub state : ProtocolState
  pub calls : List Callback

abbrev pub same : ProtocolState → ProtocolState → Bool
same connecting connecting = true
same authenticating authenticating = true
same ready ready = true
same closing closing = true
same _ _ = false

abbrev pub is_ready : ProtocolState → Bool
is_ready s = same ready s

abbrev pub any_of : List ProtocolState → ProtocolState → Bool
any_of [] s = false
any_of (a ∷ allowed) s = same a s || any_of allowed s

-- `current(...allowed)`
abbrev pub current : List ProtocolState → ProtocolState → Result WrongState (Unit {0})
current allowed s = guard (any_of allowed s) (wrong_state s)

abbrev moved : ProtocolState → Callback → Result WrongState Moved
moved s call = ok (record { state = s; calls = call ∷ [] })

abbrev stays : ProtocolState → Result WrongState Moved
stays s = ok (record { state = s; calls = [] })

unfoldable pub hello : List String → ProtocolState → Result WrongState Moved
hello auth_methods s = do
  current (connecting ∷ []) s
  moved authenticating (send (Message.hello auth_methods))

unfoldable pub handle : ClientMessage → ProtocolState → Result WrongState Moved
handle (auth_request r) s = do current (authenticating ∷ []) s; moved s (on_auth_request r)
handle (data_in payload) s = do current (ready ∷ []) s; moved s (on_data payload)
handle (binary_in payload) s = do current (ready ∷ []) s; moved s (on_binary payload)
handle (terminal_input payload) s = do current (ready ∷ []) s; moved s (on_terminal_input payload)
handle (terminal_resize cols rows) s = do
  current (ready ∷ []) s
  moved s (on_terminal_resize cols rows)
handle ping s = do current (ready ∷ []) s; moved s (send pong)
handle (goodbye_in reason) s = do
  current (ready ∷ authenticating ∷ []) s
  moved closing (send (goodbye_out reason))

unfoldable pub auth_ok : String → ProtocolState → Result WrongState Moved
auth_ok session_id s = do
  current (authenticating ∷ []) s
  moved ready (send (Message.auth_ok session_id))

unfoldable pub auth_fail : String → ProtocolState → Result WrongState Moved
auth_fail reason s = do current (authenticating ∷ []) s; moved s (send (Message.auth_fail reason))

unfoldable pub terminal_output : String → ProtocolState → Result WrongState Moved
terminal_output payload s =
    if is_ready s then moved s (send (Message.terminal_output payload)) else stays s

unfoldable pub peer_closed : ProtocolState → Result WrongState Moved
peer_closed s = stays closing

-- A call of one of the methods.
pub data Op : Type 0 where
  greets : (auth_methods : List String) → Op
  receives : ClientMessage → Op
  accepts : (session_id : String) → Op
  rejects : (reason : String) → Op
  outputs : (payload : String) → Op
  peer_closes : Op

unfoldable pub apply : Op → ProtocolState → Result WrongState Moved
unfolding hello handle auth_ok auth_fail terminal_output peer_closed
apply (greets methods) = hello methods
apply (receives m) = handle m
apply (accepts id) = auth_ok id
apply (rejects reason) = auth_fail reason
apply (outputs payload) = terminal_output payload
apply peer_closes = peer_closed

-- A caller that catches the error goes on from the state that the call left.
abbrev pub settled : ProtocolState → Result WrongState Moved → Moved
settled s (ok m) = m
settled s (err e) = record { state = s; calls = [] }

abbrev pub step : Op → ProtocolState → Moved
step op s = settled s (apply op s)

-- Calls one after the other: the last state, and all callbacks in order.
unfoldable pub run : ProtocolState → List Op → Moved
run s [] = record { state = s; calls = [] }
run s (op ∷ ops) =
    let rest = run (step op s).state ops in record rest { calls = (step op s).calls ++ rest.calls }
