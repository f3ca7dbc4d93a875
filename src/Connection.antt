-- ===== src/Connection.antt =====
-- server/src/connection.ts: one TCP connection of the server, with the registry of sessions and
-- the rate limiter that it shares with others. Calls on the socket, the terminal backend and the
-- callbacks are recorded in `out`, the latest first. The socket's own buffering is not modelled.
-- A `FrameError` that a method throws is an `err`, without the state: the only calls that throw
-- behind a change of the state are those of `authFail`, and they stand where it is allowed.
pub mod Receive
pub mod Events
pub mod Moves
pub mod Auth
pub mod Crash
mod Tests
use termlink.Prelude.{
  ℕ, zero, suc, ◌+◌, ◌*◌, ◌<◌, String, Bool, true, false, ◌||◌, ◌&&◌, List, [], ◌∷◌, ◌++◌, Option,
  none, some, ltb, leb, length, if◌then◌else◌,
}
use termlink.Prelude.Result.{Result, ok, err}
use termlink.Json.{Json}
use termlink.Message.{
  AuthRequest, ClientMessage, ServerMessage, ProtocolState, connecting, data_out, binary_out,
  goodbye_out,
}
use termlink.Message.Valid.{is_client_message, as_client_message}
use termlink.Framing.{FrameDecoder, FrameError, new_decoder}
use termlink.Protocol
use termlink.Protocol.{
  Callback, send, on_auth_request, on_data, on_binary, on_terminal_input, on_terminal_resize, Moved,
  WrongState,
}
use termlink.Sessions
use termlink.Sessions.{Session, SessionRegistry}
use termlink.RateLimit.{AuthRateLimiter, try_acquire}

-- What `onData` catches.
pub data ConnectionError : Type 0 where
  framing : FrameError → ConnectionError
  unexpected_type : ConnectionError
  in_state : WrongState → ConnectionError

-- The terminal behind the connection: the relay injects its own callbacks instead.
pub data Backend : Type 0 where
  injected no_backend pty_backend ssh_backend : Backend

-- `describe` is the text of an error, which goes into a goodbye.
pub record Config : Type 0 where
  pub max_auth_attempts : ℕ
  pub auth_backoff_ms : ℕ
  pub auth_timeout_ms : ℕ
  pub echo_data : Bool
  pub has_tokens : Bool
  pub has_passwords : Bool
  pub backend : Backend
  pub remote_address : Option String
  pub describe : ConnectionError → String

pub data Out : Type 0 where
  write : ServerMessage → Out
  end_socket : Out
  verify : AuthRequest → Out
  deliver : Callback → Out
  authenticated_as : (session_id : String) → Out
  starts_backend : Out
  disposes_backend : Out
  reports_close : (had_session : Bool) → Out
  unhandled_rejection : WrongState → Out

pub record Connection : Type 0 where
  pub id : String
  pub decoder : FrameDecoder
  pub protocol : ProtocolState
  pub closed : Bool
  pub authenticated : Bool
  pub session_id : Option String
  pub auth_attempts : ℕ
  pub auth_locked_until : ℕ
  pub auth_timer : Bool
  pub pending : List AuthRequest  -- verifications that are under way
  pub sessions : SessionRegistry
  pub limiter : Option AuthRateLimiter
  pub out : List Out

-- The constructor; the id is drawn at random.
unfoldable pub new_connection :
    String → (max_frame_size : ℕ) → SessionRegistry → Option AuthRateLimiter → Connection
new_connection id max_frame_size sessions limiter = record {
  id = id;
  decoder = new_decoder max_frame_size;
  protocol = connecting;
  closed = false;
  authenticated = false;
  session_id = none;
  auth_attempts = 0;
  auth_locked_until = 0;
  auth_timer = false;
  pending = [];
  sessions = sessions;
  limiter = limiter;
  out = [];
}

abbrev pub emit : Out → Connection → Connection
emit o c = record c { out = o ∷ c.out }

-- `sendSafe`
unfoldable pub send_safe : ServerMessage → Connection → Connection
send_safe m c = if c.closed then c else emit (write m) c

-- A message to the client from the relay; `false` is also the answer of a full socket.
unfoldable pub forward : ServerMessage → Bool → Connection → Bool × Connection
forward m writable c = if c.closed then (false, c) else (writable, emit (write m) c)

-- `protocol.peerClosed`, which never throws.
unfoldable pub peer_closed : Connection → Connection
peer_closed c = record c {
  protocol = (Protocol.settled c.protocol (Protocol.peer_closed c.protocol)).state;
}

unfoldable pub fail : String → Connection → Connection
unfolding peer_closed send_safe
fail reason c =
    if c.closed then c else emit end_socket (send_safe (goodbye_out (some reason)) (peer_closed c))

-- `terminate(reason)`
unfoldable pub terminate : Option String → Connection → Connection
terminate none c = fail "Connection closed" c
terminate (some reason) c = fail reason c

unfoldable pub shutdown : Connection → Connection
unfolding peer_closed send_safe
shutdown c =
    if c.closed
    then c
    else emit end_socket (send_safe (goodbye_out (some "Server shutting down")) (peer_closed c))

-- What the connection does when its `Protocol` sends: the only callback of these calls.
unfoldable pub send_all : List Callback → Connection → Connection
send_all [] c = c
send_all (send m ∷ calls) c = send_all calls (send_safe m c)
send_all (_ ∷ calls) c = send_all calls c

-- A call on the protocol from the connection itself: `hello`, `authOk`, `authFail`,
-- `terminalOutput`.
unfoldable pub on_protocol :
    (ProtocolState → Result WrongState Moved) → Connection → Result WrongState Connection
on_protocol call c = elim (call c.protocol) [
  | err e ↦ err e
  | ok m ↦ ok (send_all m.calls (record c { protocol = m.state }))
]

unfoldable pub send_auth_fail : String → Connection → Result WrongState Connection
send_auth_fail reason = on_protocol (Protocol.auth_fail reason)

abbrev pub with_limiter : Connection → AuthRateLimiter → Connection
with_limiter c l = record c { limiter = some l }

-- The throttle of one connection, behind the rate limiter.
unfoldable pub throttle : Config → AuthRequest → ℕ → Connection → Result WrongState Connection
throttle cfg r now c =
    if ltb now c.auth_locked_until
    then send_auth_fail "Too many attempts; try again later" c
    else if leb cfg.max_auth_attempts c.auth_attempts
    then send_auth_fail "Too many failed attempts"
        (record c { auth_locked_until = now + cfg.auth_backoff_ms * c.auth_attempts })
    else ok (
        emit (verify r)
          (record c { auth_attempts = c.auth_attempts + 1; pending = c.pending ++ r ∷ [] }))

-- What the limiter answered, and its state behind the call.
unfoldable pub limited :
    Config → AuthRequest → ℕ → Connection → Bool × AuthRateLimiter → Result WrongState Connection
limited cfg r now c (true, l) = throttle cfg r now (with_limiter c l)
limited cfg r now c (false, l) =
    send_auth_fail "Too many authentication attempts; try again later" (with_limiter c l)

unfoldable pub handle_auth_request :
    Config → AuthRequest → ℕ → Connection → Result WrongState Connection
unfolding limited
handle_auth_request cfg r now c = elim c.limiter [
  | none ↦ throttle cfg r now c
  | some l ↦ limited cfg r now c (try_acquire cfg.remote_address now l)
]

-- The connection's answer to a callback of its `Protocol`.
unfoldable pub dispatch : Config → ℕ → Callback → Connection → Result WrongState Connection
dispatch cfg now (send m) c = ok (send_safe m c)
dispatch cfg now (on_auth_request r) c = handle_auth_request cfg r now c
dispatch cfg now (on_data payload) c = elim cfg.backend [
  | injected ↦ ok (emit (deliver (on_data payload)) c)
  | _ ↦ ok (if cfg.echo_data then send_safe (data_out payload) c else c)
]
dispatch cfg now (on_binary payload) c = elim cfg.backend [
  | injected ↦ ok (emit (deliver (on_binary payload)) c)
  | _ ↦ ok (if cfg.echo_data then send_safe (binary_out payload) c else c)
]
dispatch cfg now call c = elim cfg.backend [ no_backend ↦ ok c | _ ↦ ok (emit (deliver call) c) ]
