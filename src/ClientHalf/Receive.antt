-- ===== src/ClientHalf/Receive.antt =====
-- What the half does with the messages of its socket.
use termlink.Prelude.{
  ℕ, suc, ◌+◌, ◌-◌, ◌*◌, String, Bool, true, false, ◌||◌, List, [], ◌∷◌, ◌++◌, Option, none, some,
  ltb, leb, length, if◌then◌else◌,
}
use termlink.Prelude.Result.{Result, ok, err}
use termlink.Json.{Json}
use termlink.Message.{AuthRequest, ClientMessage, ProtocolState}
use termlink.Message.Valid.{is_client_message, as_client_message}
use termlink.Framing.{parse_json_message}
use termlink.Protocol
use termlink.Protocol.{Callback, on_auth_request, Moved, WrongState}
use termlink.RateLimit.{AuthRateLimiter, try_acquire}
use termlink.Connection.{ConnectionError, framing, unexpected_type, in_state}
use termlink.ClientHalf.{
  Options, ClientHalf, parses, verify, calls_bridge, max_inbound_frames, max_inbound_bytes, emit,
  send, terminate, Reaction, react,
}

-- What the half does when its `Protocol` sends: the only callback of these calls.
unfoldable pub send_all : List Callback → ClientHalf → ClientHalf
send_all [] h = h
send_all (Protocol.send m ∷ calls) h = send_all calls (send m h)
send_all (_ ∷ calls) h = send_all calls h

-- A call on the protocol from the half itself: `hello`, `authOk`, `authFail`.
unfoldable pub on_protocol :
    (ProtocolState → Result WrongState Moved) → ClientHalf → Result WrongState ClientHalf
on_protocol call h = elim (call h.protocol) [
  | err e ↦ err e
  | ok m ↦ ok (send_all m.calls (record h { protocol = m.state }))
]

unfoldable pub send_auth_fail : String → ClientHalf → Result WrongState ClientHalf
send_auth_fail reason = on_protocol (Protocol.auth_fail reason)

-- The throttle of one connection, behind the rate limiter.
unfoldable pub throttle : Options → AuthRequest → ℕ → ClientHalf → Result WrongState ClientHalf
throttle opts r now h =
    if ltb now h.auth_locked_until
    then send_auth_fail "Too many attempts; try again later" h
    else if leb opts.max_auth_attempts h.auth_attempts
    then send_auth_fail "Too many failed attempts"
        (record h { auth_locked_until = now + opts.auth_backoff_ms * h.auth_attempts })
    else ok (
        emit (verify r)
          (record h { auth_attempts = h.auth_attempts + 1; pending = h.pending ++ r ∷ [] }))

abbrev pub with_limiter : ClientHalf → AuthRateLimiter → ClientHalf
with_limiter h l = record h { limiter = some l }

-- What the limiter answered, and its state behind the call.
unfoldable pub limited :
    Options → AuthRequest → ℕ → ClientHalf → Bool × AuthRateLimiter → Result WrongState ClientHalf
limited opts r now h (true, l) = throttle opts r now (with_limiter h l)
limited opts r now h (false, l) =
    send_auth_fail "Too many authentication attempts; try again later" (with_limiter h l)

unfoldable pub handle_auth_request :
    Options → AuthRequest → ℕ → ClientHalf → Result WrongState ClientHalf
unfolding limited
handle_auth_request opts r now h = elim h.limiter [
  | none ↦ throttle opts r now h
  | some l ↦ limited opts r now h (try_acquire opts.remote_address now l)
]

-- `this.bridge?.on…`, with what the bridge does before it returns.
unfoldable pub call_bridge : Reaction → Callback → ClientHalf → ClientHalf
call_bridge answer call h = if h.bridged then react answer (emit (calls_bridge call) h) else h

unfoldable pub dispatch :
    Options → ℕ → Reaction → Callback → ClientHalf → Result WrongState ClientHalf
dispatch opts now answer (Protocol.send m) h = ok (send m h)
dispatch opts now answer (on_auth_request r) h = handle_auth_request opts r now h
dispatch opts now answer call h = ok (call_bridge answer call h)

unfoldable pub dispatch_all :
    Options → ℕ → Reaction → List Callback → ClientHalf → Result WrongState ClientHalf
dispatch_all opts now answer [] h = ok h
dispatch_all opts now answer (call ∷ calls) h = elim (dispatch opts now answer call h) [
  | err e ↦ err e
  | ok h' ↦ dispatch_all opts now answer calls h'
]

-- `protocol.handle(msg)`. The machine's own state is set before it calls back.
unfoldable pub handle :
    Options → ℕ → Reaction → ClientMessage → ClientHalf → Result WrongState ClientHalf
handle opts now answer m h = elim (Protocol.handle m h.protocol) [
  | err e ↦ err e
  | ok moved ↦ dispatch_all opts now answer moved.calls (record h { protocol = moved.state })
]

-- A valid message is read at its declared type.
unfoldable pub receive :
    Options → ℕ → Reaction → Json → ClientHalf → Result ConnectionError ClientHalf
receive opts now answer msg h =
    if is_client_message msg
    then elim (as_client_message msg) [
      | none ↦ err unexpected_type
      | some m ↦ elim (handle opts now answer m h) [ err e ↦ err (in_state e) | ok h' ↦ ok h' ]
    ]
    else err unexpected_type

-- The `catch` of `processInbound`: `describe` gives the text behind "Protocol error: ".
unfoldable pub caught : Options → ClientHalf → Result ConnectionError ClientHalf → ClientHalf
caught opts h (err e) = terminate (some (opts.describe e)) h
caught opts h (ok h') = h'

module _ (parse : List ℕ → Option Json) (opts : Options) where
  -- What the parsed message leads to.
  unfoldable pub process_text : ℕ → Reaction → List ℕ → ClientHalf → ClientHalf
  process_text now answer wire h = elim (parse_json_message parse wire) [
    | err e ↦ caught opts h (err (framing e))
    | ok msg ↦ caught opts h (receive opts now answer msg h)
  ]

  unfoldable pub process_inbound : ℕ → Reaction → List ℕ → ClientHalf → ClientHalf
  process_inbound now answer wire h =
      if h.closed then h else process_text now answer wire (emit (parses wire) h)

  unfoldable pub hold_inbound : List ℕ → ClientHalf → ClientHalf
  hold_inbound wire h =
      let h' = record h {
        inbound_queue = h.inbound_queue ++ wire ∷ [];
        inbound_bytes = h.inbound_bytes + length wire;
      } in
      if ltb max_inbound_frames (length h'.inbound_queue) || ltb max_inbound_bytes h'.inbound_bytes
      then terminate (some "Client sent too much data while the backend was busy") h'
      else h'

  -- `onMessage`, behind the choice of the wire text.
  unfoldable pub on_message : ℕ → Reaction → List ℕ → ClientHalf → ClientHalf
  on_message now answer wire h =
      let h' = record h { idle_timer = true } in
      if h.closed
      then h
      else if h.inbound_paused
      then hold_inbound wire h'
      else process_inbound now answer wire h'

  -- The loop of `flushInbound`; `answers` gives the bridge's reaction in each round.
  unfoldable pub flush_from : ℕ → (ℕ → Reaction) → ℕ → List (List ℕ) → ClientHalf → ClientHalf
  flush_from now answers i [] h = record h { inbound_queue = [] }
  flush_from now answers i (wire ∷ queue) h =
      let shifted = record h {
        inbound_queue = queue;
        inbound_bytes = h.inbound_bytes - length wire;
      } in
      let rest =
        flush_from now answers (suc i) queue (process_inbound now (answers i) wire shifted) in
      if h.inbound_paused || h.closed then record h { inbound_queue = wire ∷ queue } else rest

  unfoldable pub resume : ℕ → (ℕ → Reaction) → ClientHalf → ClientHalf
  resume now answers h =
      flush_from now answers 0 h.inbound_queue (record h { inbound_paused = false })
