-- ===== src/ClientHalf.antt =====
-- relay/src/ws-client-half.ts: the WebSocket half of a relay session, with the registry of sessions
-- and the rate limiter that it shares. A text is the list of its UTF-16 code units. What the half
-- calls on its socket, its bridge and its owner is recorded in `out`, the latest first. The state
-- of the socket is `ready_state`, which changes only by an event; the bytes under way are kept one by one
-- in `in_flight`, as the callbacks of `ws.send` hold them. A bridge may answer a call by `pause` or
-- `terminate` before it returns: a `Reaction`.
pub mod Receive
pub mod Events
pub mod Moves
pub mod Verify
pub mod Inbound
pub mod Outbound
pub mod Life
pub mod Served
pub mod Stall
pub mod Progress
pub mod Crash
mod Tests
use termlink.Prelude.{
  ℕ, zero, suc, ◌+◌, ◌-◌, ◌*◌, String, Bool, true, false, not, ◌&&◌, ◌||◌, List, [], ◌∷◌, ◌++◌,
  Option, none, some, ltb, if◌then◌else◌, length,
}
use termlink.Message.{
  AuthRequest, ServerMessage, binary_out, goodbye_out, ProtocolState, connecting,
}
use termlink.Protocol.{Callback, WrongState, is_ready}
use termlink.Sessions
use termlink.Sessions.{SessionRegistry}
use termlink.RateLimit.{AuthRateLimiter}
use termlink.Connection.{ConnectionError}

-- `wsReadyState()`
pub data ReadyState : Type 0 where
  opened gone other : ReadyState

abbrev pub is_open : ReadyState → Bool
is_open opened = true
is_open _ = false

pub record Options : Type 0 where
  pub max_auth_attempts : ℕ
  pub auth_backoff_ms : ℕ
  pub send_high_water_mark : ℕ
  pub send_low_water_mark : ℕ
  pub has_tokens : Bool
  pub has_passwords : Bool
  pub remote_address : Option String
  pub json_size : ServerMessage → ℕ  -- the bytes of `JSON.stringify(msg)` in UTF-8
  pub decoded_size : String → ℕ  -- the bytes that a base64 text stands for
  pub describe : ConnectionError → String

abbrev pub max_inbound_frames : ℕ
max_inbound_frames = 1024

abbrev pub max_inbound_bytes : ℕ
max_inbound_bytes = 16 * 1024 * 1024

-- The payload is JSON text, or the bytes of a binary message.
pub record OutboundItem : Type 0 where
  pub payload : ServerMessage
  pub size : ℕ

pub data HalfOut : Type 0 where
  sends : ServerMessage → HalfOut
  send_fails : ServerMessage → HalfOut
  closes_socket : (reason : String) → HalfOut
  kills_socket : HalfOut
  parses : (wire : List ℕ) → HalfOut
  verify : AuthRequest → HalfOut
  calls_bridge : Callback → HalfOut
  drains_bridge : HalfOut
  terminates_bridge : (reason : Option String) → HalfOut
  reports_authenticated : HalfOut
  reports_close : HalfOut
  unhandled_rejection : WrongState → HalfOut

pub record ClientHalf : Type 0 where
  pub id : String
  pub protocol : ProtocolState
  pub closed : Bool
  pub authenticated : Bool
  pub session_id : Option String
  pub bridged : Bool
  pub auth_attempts : ℕ
  pub auth_locked_until : ℕ
  pub identity : Option String
  pub terminate_reason : Option String
  pub outbound_queue : List OutboundItem
  pub in_flight : List ℕ
  pub in_flight_bytes : ℕ
  pub pressure_signaled : Bool
  pub inbound_paused : Bool
  pub inbound_queue : List (List ℕ)
  pub inbound_bytes : ℕ
  pub auth_timer : Bool
  pub idle_timer : Bool
  pub ready_state : ReadyState
  pub pending : List AuthRequest  -- verifications that are under way
  pub sessions : SessionRegistry
  pub limiter : Option AuthRateLimiter
  pub out : List HalfOut

-- The constructor, on an open socket; the id is drawn at random.
unfoldable pub new_half : String → SessionRegistry → Option AuthRateLimiter → ClientHalf
new_half id sessions limiter = record {
  id = id;
  protocol = connecting;
  closed = false;
  authenticated = false;
  session_id = none;
  bridged = false;
  auth_attempts = 0;
  auth_locked_until = 0;
  identity = none;
  terminate_reason = none;
  outbound_queue = [];
  in_flight = [];
  in_flight_bytes = 0;
  pressure_signaled = false;
  inbound_paused = false;
  inbound_queue = [];
  inbound_bytes = 0;
  auth_timer = false;
  idle_timer = false;
  ready_state = opened;
  pending = [];
  sessions = sessions;
  limiter = limiter;
  out = [];
}

abbrev pub emit : HalfOut → ClientHalf → ClientHalf
emit o h = record h { out = o ∷ h.out }

-- A protocol message goes past the outbound queue.
unfoldable pub send : ServerMessage → ClientHalf → ClientHalf
send m h = if h.closed then h else emit (sends m) h

abbrev pub as_outbound : Options → ServerMessage → OutboundItem
as_outbound opts (binary_out payload) = record {
  payload = binary_out payload;
  size = opts.decoded_size payload;
}
as_outbound opts m = record { payload = m; size = opts.json_size m }

abbrev pub outbound_bytes : List OutboundItem → ℕ
outbound_bytes [] = 0
outbound_bytes (item ∷ queue) = item.size + outbound_bytes queue

-- One item leaves; `failed` is whether `ws.send` throws.
unfoldable pub send_item : Bool → OutboundItem → ClientHalf → ClientHalf
send_item failed item h =
    if failed
    then emit (send_fails item.payload) h
    else emit (sends item.payload) (record h {
      in_flight = h.in_flight ++ item.size ∷ [];
      in_flight_bytes = h.in_flight_bytes + item.size;
    })

-- The loop of `drainOutbound`, on an open socket; `fails` says at which rounds `ws.send` throws.
unfoldable pub drain_from : Options → (ℕ → Bool) → ℕ → List OutboundItem → ClientHalf → ClientHalf
drain_from opts fails i [] h = record h { outbound_queue = [] }
drain_from opts fails i (item ∷ queue) h =
    let rest = drain_from opts fails (suc i) queue (send_item (fails i) item h) in
    if ltb opts.send_high_water_mark (h.in_flight_bytes + item.size)
    then record h { outbound_queue = item ∷ queue; pressure_signaled = true }
    else rest

unfoldable pub drain_outbound : Options → (ℕ → Bool) → ClientHalf → ClientHalf
drain_outbound opts fails h =
    if is_open h.ready_state then drain_from opts fails 0 h.outbound_queue h else h

-- A message of the backend for the client. `false` asks the bridge to pause the backend.
unfoldable pub forward : Options → (ℕ → Bool) → ServerMessage → ClientHalf → Bool × ClientHalf
forward opts fails m h =
    let item = as_outbound opts m in
    if h.closed || not (is_open h.ready_state)
    then (false, h)
    else if ltb opts.send_high_water_mark
        (h.in_flight_bytes + outbound_bytes h.outbound_queue + item.size)
    then (false, record h { pressure_signaled = true })
    else (
      true,
      drain_outbound opts fails (record h { outbound_queue = h.outbound_queue ++ item ∷ [] }),
    )

unfoldable pub maybe_release_pressure : Options → ClientHalf → ClientHalf
maybe_release_pressure opts h =
    if h.pressure_signaled
      && ltb (h.in_flight_bytes + outbound_bytes h.outbound_queue) opts.send_low_water_mark
    then (let released = record h { pressure_signaled = false } in
        if h.bridged then emit drains_bridge released else released)
    else h

abbrev pub size_at : List ℕ → ℕ → Option ℕ
size_at [] place = none
size_at (size ∷ sizes) zero = some size
size_at (size ∷ sizes) (suc place) = size_at sizes place

abbrev pub sizes_without : List ℕ → ℕ → List ℕ
sizes_without [] place = []
sizes_without (size ∷ sizes) zero = sizes
sizes_without (size ∷ sizes) (suc place) = size ∷ sizes_without sizes place

-- The callback of the `ws.send` at a place among those under way.
unfoldable pub on_sent : Options → ℕ → ClientHalf → ClientHalf
on_sent opts place h = elim (size_at h.in_flight place) [
  | none ↦ h
  | some size ↦ maybe_release_pressure opts (record h {
    in_flight = sizes_without h.in_flight place;
    in_flight_bytes = h.in_flight_bytes - size;
  })
]

-- `teardown`
unfoldable pub teardown : ClientHalf → ClientHalf
teardown h = if h.closed then h else record h {
  closed = true;
  sessions = Sessions.remove_by_connection_id h.id h.sessions;
  out = reports_close ∷ h.out;
}

abbrev pub or_else : Option String → String → String
or_else none fallback = fallback
or_else (some reason) fallback = reason

-- `closeSocket`; the socket is told the first 120 units of the reason.
unfoldable pub close_socket : String → ClientHalf → ClientHalf
close_socket reason h = elim h.ready_state [
  | opened ↦ emit (closes_socket reason) h
  | gone ↦ h
  | other ↦ emit kills_socket h
]

unfoldable pub terminate : Option String → ClientHalf → ClientHalf
unfolding send teardown close_socket
terminate reason h =
    let h1 = record h { terminate_reason = reason; auth_timer = false; idle_timer = false } in
    let h2 = if is_ready h.protocol then send (goodbye_out reason) h1 else h1 in
    if h.closed then h else close_socket (or_else reason "closed by relay") (teardown h2)

-- What the bridge does on the half before a call on it returns.
pub data Reaction : Type 0 where
  goes_on pauses : Reaction
  ends : (reason : Option String) → Reaction

unfoldable pub react : Reaction → ClientHalf → ClientHalf
react goes_on h = h
react pauses h = record h { inbound_paused = true }
react (ends reason) h = terminate reason h
