-- ===== src/WebTransport.antt =====
-- web/src/transport.ts: the WebSocket transport of the web page. Sockets are numbered as they are
-- made; `ws` is the one that the transport keeps. What it calls on its sockets and on its owner is
-- recorded in `out`, the latest first. Whether the socket is open, and whether a `send` throws, come
-- with the call. A pending reconnect whose handle was overwritten is one of the `strays`. The
-- texts of errors and the delay of a reconnect are not modelled.
pub mod Events
pub mod Moves
pub mod Flush
pub mod Life
mod Tests
use termlink.Prelude.{
  ℕ, ◌+◌, ◌-◌, String, Bool, true, false, not, ◌&&◌, ◌||◌, List, [], ◌∷◌, ◌++◌, Option, none, some,
  ltb, leb, ◌==◌, ◌===◌, truthy, includes, if◌then◌else◌, length,
}
use termlink.Json.{Json}
use termlink.Message.{
  ClientMessage, data_in, terminal_input, terminal_resize, ping, goodbye_in, auth_request,
  token_request, password_request,
}

pub data WebState : Type 0 where
  disconnected connecting authenticating ready : WebState

abbrev pub same_state : WebState → WebState → Bool
same_state disconnected disconnected = true
same_state connecting connecting = true
same_state authenticating authenticating = true
same_state ready ready = true
same_state _ _ = false

-- What `send` is given: the text of a message, or the bytes of a buffer.
pub data Payload : Type 0 where
  json : ClientMessage → Payload
  raw : List ℕ → Payload

-- `printed` is `String(v)` of a value that is no string, `atob` and `btoa` those of the browser
-- (`none` is a throw), `json_length` the length of a message's text in code units.
pub record WebOptions : Type 0 where
  pub token : Option String
  pub username : Option String
  pub password : Option String
  pub reconnect : Bool
  pub max_reconnect_attempts : ℕ
  pub max_outbound_frames : ℕ
  pub max_outbound_bytes : ℕ
  pub json_length : ClientMessage → ℕ
  pub printed : Json → String
  pub atob : String → Option (List ℕ)
  pub btoa : List ℕ → String

pub data Failure : Type 0 where
  invalid_json no_usable_credentials outbound_overflow websocket_error : Failure
  unexpected : (type : String) → Failure
  unknown_type : (type : Option Json) → Failure

pub data WebEvent : Type 0 where
  is_connecting : (attempt : ℕ) → WebEvent
  is_open : WebEvent
  got_hello : (methods : List String) → WebEvent
  is_ready : (session_id : String) → WebEvent
  auth_failed : (reason : String) → WebEvent
  got_data : (payload : String) → WebEvent
  got_binary got_output : (payload : List ℕ) → WebEvent
  got_pong : WebEvent
  got_goodbye : (reason : Option Json) → WebEvent
  is_closed : (reason : String) → WebEvent
  failed : Failure → WebEvent
  reconnect_failed : WebEvent

pub data WebOut : Type 0 where
  opens closes : (socket : ℕ) → WebOut
  sends : (socket : ℕ) (p : Payload) → WebOut
  emits : WebEvent → WebOut

pub record WebTransport : Type 0 where
  pub ws : Option ℕ
  pub made : ℕ
  pub closed_by_us : Bool
  pub auth_rejected : Bool
  pub ready_state : WebState
  pub reconnect_attempts : ℕ
  pub reconnect_timer : Bool
  pub strays : ℕ
  pub outbound_queue : List Payload
  pub outbound_bytes : ℕ
  pub out : List WebOut

unfoldable pub new_transport : WebTransport
new_transport = record {
  ws = none;
  made = 0;
  closed_by_us = false;
  auth_rejected = false;
  ready_state = disconnected;
  reconnect_attempts = 0;
  reconnect_timer = false;
  strays = 0;
  outbound_queue = [];
  outbound_bytes = 0;
  out = [];
}

abbrev pub note : WebOut → WebTransport → WebTransport
note o c = record c { out = o ∷ c.out }

abbrev pub emit : WebEvent → WebTransport → WebTransport
emit e c = note (emits e) c

unfoldable pub open_socket : WebTransport → WebTransport
open_socket c = note (opens c.made) (
    emit (is_connecting c.reconnect_attempts)
      (record c { ready_state = connecting; ws = some c.made; made = c.made + 1 }))

abbrev pub is_kept : Option ℕ → Bool
is_kept none = false
is_kept (some n) = true

unfoldable pub connect : WebTransport → WebTransport
connect c = if is_kept c.ws then c else open_socket c

unfoldable pub teardown : WebTransport → WebTransport
teardown c =
    let down = record c {
      ws = none;
      ready_state = disconnected;
      outbound_queue = [];
      outbound_bytes = 0;
    } in
    elim c.ws [ none ↦ down | some n ↦ note (closes n) down ]

abbrev pub cancel_reconnect : WebTransport → WebTransport
cancel_reconnect c = record c { reconnect_timer = false }

-- The error is reported, and the transport closed for good.
unfoldable pub give_up : Failure → WebTransport → WebTransport
give_up f c = teardown (record (emit (failed f) c) { closed_by_us = true })

abbrev pub size_of_payload : WebOptions → Payload → ℕ
size_of_payload opts (json m) = opts.json_length m
size_of_payload opts (raw bytes) = length bytes

-- The loop of `flushOutbound`; `fails` tells of each round whether its `send` throws.
unfoldable pub flush_from :
    WebOptions → (ℕ → Bool) → ℕ → ℕ → List Payload → WebTransport → WebTransport
flush_from opts fails i n [] c = record c { outbound_queue = [] }
flush_from opts fails i n (p ∷ queue) c =
    let sent =
      note (sends n p) (record c { outbound_bytes = c.outbound_bytes - size_of_payload opts p }) in
    let rest = flush_from opts fails (i + 1) n queue sent in
    if fails i then record c { outbound_queue = p ∷ queue } else rest

unfoldable pub enqueue_to :
    WebOptions → (ℕ → Bool) → ℕ → Payload → WebTransport → Bool × WebTransport
enqueue_to opts fails n p c =
    let queue = c.outbound_queue ++ p ∷ [] in
    let bytes = c.outbound_bytes + size_of_payload opts p in
    let queued = record c { outbound_queue = queue; outbound_bytes = bytes } in
    if ltb opts.max_outbound_frames (length queue) || ltb opts.max_outbound_bytes bytes
    then (false, give_up outbound_overflow queued)
    else (true, flush_from opts fails 0 n queue queued)

unfoldable pub enqueue :
    WebOptions → Bool → (ℕ → Bool) → Payload → WebTransport → Bool × WebTransport
enqueue opts open_ fails p c = elim c.ws [
  | none ↦ (false, c)
  | some n ↦ if open_ then enqueue_to opts fails n p c else (false, c)
]

-- The calls of `sendData`, `sendBinary`, `sendTerminalInput`, `sendTerminalResize` and `sendPing`;
-- `buffer` is the whole buffer behind the bytes.
pub data Request : Type 0 where
  send_data : (payload : String) → Request
  send_binary : (buffer : List ℕ) → Request
  send_terminal_input : (bytes : List ℕ) → Request
  send_terminal_resize : (cols rows : ℕ) → Request
  send_ping : Request

abbrev pub payload_of : WebOptions → Request → Payload
payload_of opts (send_data payload) = json (data_in payload)
payload_of opts (send_binary buffer) = raw buffer
payload_of opts (send_terminal_input bytes) = json (terminal_input (opts.btoa bytes))
payload_of opts (send_terminal_resize cols rows) = json (terminal_resize cols rows)
payload_of opts send_ping = json ping

unfoldable pub submit :
    WebOptions → Bool → (ℕ → Bool) → Request → WebTransport → Bool × WebTransport
submit opts open_ fails r c =
    if same_state c.ready_state ready
    then enqueue opts open_ fails (payload_of opts r) c
    else (false, c)

-- A `send` whose throw is caught.
abbrev pub send_now : Bool → Payload → WebTransport → WebTransport
send_now fails p c = elim c.ws [ none ↦ c | some n ↦ if fails then c else note (sends n p) c ]

unfoldable pub close : Bool → WebTransport → WebTransport
close fails c =
    let closing = cancel_reconnect (record c { closed_by_us = true }) in
    let goodbye = json (goodbye_in (some "web client closed")) in
    teardown (if same_state c.ready_state ready then send_now fails goodbye closing else closing)

unfoldable pub destroy : WebTransport → WebTransport
destroy c = teardown (cancel_reconnect (record c { closed_by_us = true }))
