-- ===== src/ClientHalf/Events.antt =====
-- The events of a half's life: messages, the end of a verification, the calls of its bridge, the
-- callbacks of its socket, its timers, and the close of its socket.
use termlink.Prelude.{
  ℕ, zero, suc, String, Bool, true, false, List, [], ◌∷◌, Option, none, some, get_elem?,
  if◌then◌else◌,
}
use termlink.Prelude.Result.{Result, ok, err}
use termlink.Json.{Json}
use termlink.Message.{AuthRequest, token_request, password_request, ServerMessage}
use termlink.Protocol
use termlink.Protocol.{WrongState}
use termlink.Sessions
use termlink.ClientHalf.{
  ReadyState, Options, ClientHalf, terminates_bridge, reports_authenticated, unhandled_rejection,
  emit, forward, on_sent, teardown, terminate, Reaction, react,
}
use termlink.ClientHalf.Receive.{on_protocol, send_auth_fail, on_message, resume}

-- Text frames and binary frames; the bytes of the latter in base64.
pub data Frame : Type 0 where
  text_frame : (text : List ℕ) → Frame
  binary_frame : (base64 : String) → Frame

-- `JSON.stringify({ type: "binary", data })` is a parameter.
abbrev pub wire_of : (String → List ℕ) → Frame → List ℕ
wire_of binary_wire (text_frame text) = text
wire_of binary_wire (binary_frame base64) = binary_wire base64

abbrev pub auth_methods : Options → List String
auth_methods opts =
    if opts.has_tokens
    then "token" ∷ (if opts.has_passwords then "password" ∷ [] else [])
    else if opts.has_passwords
    then "password" ∷ []
    else "none" ∷ []

-- `hello` throws if the half has been started before.
unfoldable pub start : Options → ClientHalf → Result WrongState ClientHalf
start opts h = elim (on_protocol (Protocol.hello (auth_methods opts)) h) [
  | err e ↦ err e
  | ok h' ↦ ok (record h' { auth_timer = true; idle_timer = true })
]

-- `verifySessionToken`, if there is one: whose web session a token is.
abbrev pub by_session : Option String → ClientHalf → Bool × ClientHalf
by_session none h = (false, h)
by_session (some username) h = (true, record h { identity = some username })

-- The answer of the two stores, and the identity that is noted meanwhile. `check` is `verifyToken`
-- and `verifyPassword`, `web_user` is `verifySessionToken`.
unfoldable pub verified :
    (AuthRequest → Bool) → (String → Option String) → AuthRequest → ClientHalf → Bool × ClientHalf
verified check web_user (token_request token) h =
    if check (token_request token) then (true, h) else by_session (web_user token) h
verified check web_user (password_request username password) h =
    if check (password_request username password)
    then (true, record h { identity = some username })
    else (false, h)

-- `sessions.create(this.connectionId)`, with the id that it draws and the time.
unfoldable pub create_session : String → ℕ → ClientHalf → ClientHalf
create_session fresh now h =
    let (registry, session) = Sessions.create fresh h.id now h.sessions in
    record h { sessions = registry; session_id = elim session [ none ↦ none | some s ↦ some s.id ] }

abbrev pub text_of_id : Option String → String
text_of_id none = ""
text_of_id (some id) = id

-- `authOk` and the report to the relay. A `FrameError` here is thrown inside an `async` function
-- whose promise nobody looks at.
unfoldable pub admit : String → ClientHalf → ClientHalf
admit id h = elim (on_protocol (Protocol.auth_ok id) h) [
  | err e ↦ emit (unhandled_rejection e) h
  | ok done ↦ emit reports_authenticated done
]

unfoldable pub accept : String → ℕ → ClientHalf → ClientHalf
accept fresh now h =
    let h' = record (create_session fresh now (record h { authenticated = true })) {
      auth_timer = false;
    } in
    admit (text_of_id h'.session_id) h'

unfoldable pub refuse : ClientHalf → ClientHalf
refuse h = elim (send_auth_fail "Invalid credentials" h) [
  | err e ↦ emit (unhandled_rejection e) h
  | ok done ↦ done
]

-- What stands behind the `await`s of a verification.
unfoldable pub finish : String → ℕ → Bool × ClientHalf → ClientHalf
finish fresh now (valid, h) = if h.closed then h else if valid then accept fresh now h else refuse h

abbrev pub remove_at : List AuthRequest → ℕ → List AuthRequest
remove_at [] i = []
remove_at (r ∷ rs) zero = rs
remove_at (r ∷ rs) (suc i) = r ∷ remove_at rs i

-- The verification at a place among those under way ends.
unfoldable pub resolve :
    (AuthRequest → Bool) → (String → Option String) → ℕ → String → ℕ → ClientHalf → ClientHalf
resolve check web_user i fresh now h = elim (get_elem? h.pending i) [
  | none ↦ h
  | some r ↦
      finish fresh now (verified check web_user r (record h { pending = remove_at h.pending i }))
]

-- A timer fires only if it is set.
unfoldable pub on_auth_timeout : ClientHalf → ClientHalf
on_auth_timeout h = if h.auth_timer then terminate (some "Authentication timed out") h else h

unfoldable pub on_idle_timeout : ClientHalf → ClientHalf
on_idle_timeout h = if h.idle_timer then terminate (some "Idle timeout") h else h

-- `onClose`: the bridge may answer its `terminate` by that of the half.
unfoldable pub on_close : Reaction → ClientHalf → ClientHalf
on_close answer h =
    let h1 = record h { auth_timer = false; idle_timer = false } in
    let reason = if h.authenticated then some "WebSocket client disconnected" else none in
    let h2 = if h.bridged then react answer (emit (terminates_bridge reason) h1) else h1 in
    teardown (record h2 { bridged = false })

pub data Event : Type 0 where
  message_arrives : (frame : Frame) (now : ℕ) (answer : Reaction) → Event
  verification_ends : (place : ℕ) (fresh : String) (now : ℕ) → Event
  bridge_attaches bridge_pauses : Event
  bridge_resumes : (now : ℕ) (answers : ℕ → Reaction) → Event
  bridge_forwards : (m : ServerMessage) (fails : ℕ → Bool) → Event
  owner_terminates : (reason : Option String) → Event
  send_completes : (place : ℕ) → Event
  socket_becomes : ReadyState → Event
  auth_times_out idle_times_out : Event
  socket_closes : (answer : Reaction) → Event

module _ (parse : List ℕ → Option Json) (binary_wire : String → List ℕ) (opts : Options)
    (check : AuthRequest → Bool) (web_user : String → Option String) where
  unfoldable pub step : Event → ClientHalf → ClientHalf
  step (message_arrives frame now answer) h =
      on_message parse opts now answer (wire_of binary_wire frame) h
  step (verification_ends place fresh now) h = resolve check web_user place fresh now h
  step bridge_attaches h = record h { bridged = true }
  step bridge_pauses h = record h { inbound_paused = true }
  step (bridge_resumes now answers) h = resume parse opts now answers h
  step (bridge_forwards m fails) h = (forward opts fails m h).1
  step (owner_terminates reason) h = terminate reason h
  step (send_completes place) h = on_sent opts place h
  step (socket_becomes state) h = record h { ready_state = state }
  step auth_times_out h = on_auth_timeout h
  step idle_times_out h = on_idle_timeout h
  step (socket_closes answer) h = on_close answer h

  unfoldable pub run : List Event → ClientHalf → ClientHalf
  run [] h = h
  run (e ∷ events) h = run events (step e h)
