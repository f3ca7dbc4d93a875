-- ===== src/ClientHalf/Moves.antt =====
-- How the half moves while it answers one message: the credentials that it checks, what it hands
-- on, what it sends, the report of its close, and what it leaves alone.
use termlink.Prelude.{
  ℕ, suc, ◌+◌, ◌*◌, ◌≤◌, ◌≡◌, refl, ◌≢◌, String, Bool, true, false, not, ◌&&◌, none_of,
  none_of-append, List, [], ◌∷◌, ◌++◌, Option, some, arith, if◌then◌else◌, inl, inr, Option-cases,
}
use termlink.Prelude.Result.{Result, ok, err, Result-cases}
use termlink.Json.{Json}
use termlink.Message.{
  AuthRequest, ClientMessage, ServerMessage, ready, auth_request, data_in, binary_in,
  terminal_input, terminal_resize, ping, goodbye_in,
}
use termlink.Message.Valid.{as_client_message}
use termlink.RateLimit.{AuthRateLimiter, try_acquire}
use termlink.Protocol
use termlink.Protocol.{Callback}
use termlink.Connection.{ConnectionError}
use termlink.Framing.{parse_json_message}
use termlink.ClientHalf.{
  Options, ClientHalf, HalfOut, sends, parses, verify, calls_bridge, drains_bridge,
  reports_authenticated, reports_close, emit, send, teardown, close_socket, terminate, Reaction,
  goes_on, pauses, ends, react,
}
use termlink.ClientHalf.Receive.{
  send_all, on_protocol, send_auth_fail, throttle, with_limiter, limited, handle_auth_request,
  call_bridge, dispatch, dispatch_all, handle, receive, caught, process_text,
}

-- The credentials that were handed to the stores.
abbrev pub verifications : List HalfOut → ℕ
verifications [] = 0
verifications (verify r ∷ out) = suc (verifications out)
verifications (_ ∷ out) = verifications out

-- Whether all credentials that were handed to the stores were wrong; `right` is their answer.
abbrev pub all_refused : (right : AuthRequest → Bool) → List HalfOut → Bool
all_refused right [] = true
all_refused right (verify r ∷ out) = not (right r) && all_refused right out
all_refused right (_ ∷ out) = all_refused right out

-- What only an authenticated client is meant to bring about.
abbrev pub is_service : HalfOut → Bool
is_service (calls_bridge call) = true
is_service reports_authenticated = true
is_service _ = false

abbrev pub services : List HalfOut → List HalfOut
services [] = []
services (o ∷ out) = if is_service o then o ∷ services out else services out

abbrev pub sent : List HalfOut → List ServerMessage
sent [] = []
sent (sends m ∷ out) = m ∷ sent out
sent (_ ∷ out) = sent out

abbrev pub close_reports : List HalfOut → ℕ
close_reports [] = 0
close_reports (reports_close ∷ out) = suc (close_reports out)
close_reports (_ ∷ out) = close_reports out

-- The texts that were parsed, in order.
abbrev pub parsed : List HalfOut → List (List ℕ)
parsed [] = []
parsed (parses wire ∷ out) = parsed out ++ wire ∷ []
parsed (_ ∷ out) = parsed out

-- How often the bridge was told that it may go on.
abbrev pub drains : List HalfOut → ℕ
drains [] = 0
drains (drains_bridge ∷ out) = suc (drains out)
drains (_ ∷ out) = drains out

abbrev pub one_if : Bool → ℕ
one_if true = 1
one_if false = 0

-- How a half may move; `right` is the answer of the stores, and `trusted` is whether credentials
-- that they found right are what moves the half.
pub record Moves (opts : Options) (right : AuthRequest → Bool) (trusted : Bool) (h h' : ClientHalf)
    : Type 0 where
  pub refused_before : all_refused right h'.out ≡ true → all_refused right h.out ≡ true
  pub counted : verifications h'.out + h.auth_attempts ≡ verifications h.out + h'.auth_attempts
  pub bounded : h.auth_attempts ≤ opts.max_auth_attempts → h'.auth_attempts ≤ opts.max_auth_attempts
  pub quiet :
      trusted ≡ false
      → all_refused right h'.out ≡ true
      → none_of right h.pending ≡ true
      → h.protocol ≢ ready
      → (h'.protocol ≢ ready)
        × (none_of right h'.pending ≡ true)
        × (services h'.out ≡ services h.out)
        × (h'.authenticated ≡ h.authenticated)
  pub reported : close_reports h'.out + one_if h.closed ≡ close_reports h.out + one_if h'.closed
  pub muted : h.closed ≡ true → (h'.closed ≡ true) × (sent h'.out ≡ sent h.out)
  pub bridge_kept : h.bridged ≡ true → h'.closed ≡ false → h'.bridged ≡ true

-- The queue of texts is left alone, and those that were parsed.
pub record KeepsInbound (h h' : ClientHalf) : Type 0 where
  pub parsed_kept : parsed h'.out ≡ parsed h.out
  pub queue_kept : h'.inbound_queue ≡ h.inbound_queue
  pub bytes_kept : h'.inbound_bytes ≡ h.inbound_bytes
  pub closed_stays : h.closed ≡ true → h'.closed ≡ true
  pub paused_stays : h.inbound_paused ≡ true → h'.inbound_paused ≡ true

-- The queue towards the socket is left alone, and what is under way.
pub record KeepsOutbound (h h' : ClientHalf) : Type 0 where
  pub outbound_kept : h'.outbound_queue ≡ h.outbound_queue
  pub flight_kept : h'.in_flight ≡ h.in_flight
  pub flight_bytes_kept : h'.in_flight_bytes ≡ h.in_flight_bytes
  pub pressure_kept : h'.pressure_signaled ≡ h.pressure_signaled
  pub drains_kept : drains h'.out ≡ drains h.out

-- The answer to one message.
pub record Answers (opts : Options) (right : AuthRequest → Bool) (trusted : Bool)
    (h h' : ClientHalf) : Type 0 where
  pub moves : Moves opts right trusted h h'
  pub inbound : KeepsInbound h h'
  pub outbound : KeepsOutbound h h'

module _ (opts : Options) (right : AuthRequest → Bool) (t : Bool) where
  pub Moves-refl : (h : ClientHalf) → Moves opts right t h h
  Moves-refl h = ground arith

  pub Moves-trans :
      (a b c : ClientHalf)
      → Moves opts right t a b
      → Moves opts right t b c
      → Moves opts right t a c
  Moves-trans a b c x y = ground (
    arith, x.refused_before, y.refused_before, x.counted, y.counted, x.bounded, y.bounded, x.quiet,
    y.quiet, x.reported, y.reported, x.muted, y.muted, x.bridge_kept, y.bridge_kept,
  )

  pub Answers-trans :
      (a b c : ClientHalf)
      → Answers opts right t a b
      → Answers opts right t b c
      → Answers opts right t a c
  Answers-trans a b c x y = record {
    moves = Moves-trans a b c x.moves y.moves;
    inbound = ground (arith, x.inbound, y.inbound);
    outbound = ground (arith, x.outbound, y.outbound);
  }

  pub terminate-Answers :
      (reason : Option String) (h : ClientHalf) → Answers opts right t h (terminate reason h)
  unfolding terminate send teardown close_socket
  terminate-Answers reason h = ground arith

  pub react-Answers : (answer : Reaction) (h : ClientHalf) → Answers opts right t h (react answer h)
  unfolding react
  react-Answers goes_on h = ground arith
  react-Answers pauses h = ground arith
  react-Answers (ends reason) h = terminate-Answers reason h

  pub send_auth_fail-Answers :
      (reason : String) (h h' : ClientHalf)
      → send_auth_fail reason h ≡ ok h'
      → Answers opts right t h h'
  unfolding send_auth_fail on_protocol send_all send Protocol.auth_fail
  send_auth_fail-Answers reason h h' e = ground arith

  throttle-Answers :
      (r : AuthRequest) (now : ℕ) (h h' : ClientHalf)
      → throttle opts r now h ≡ ok h'
      → Answers opts right t h h'
  unfolding throttle
  throttle-Answers r now h h' e =
      let late = record h { auth_locked_until = now + opts.auth_backoff_ms * h.auth_attempts } in
      ground (
        arith,
        send_auth_fail-Answers "Too many attempts; try again later" h h',
        send_auth_fail-Answers "Too many failed attempts" late h',
        none_of-append right h.pending (r ∷ []),
      )

  limited-Answers :
      (r : AuthRequest) (now : ℕ) (h h' : ClientHalf) (answer : Bool × AuthRateLimiter)
      → limited opts r now h answer ≡ ok h'
      → Answers opts right t h h'
  unfolding limited
  limited-Answers r now h h' (true, l) e =
      let a = throttle-Answers r now (with_limiter h l) h' e in
      ground (arith, a.moves, a.inbound, a.outbound)
  limited-Answers r now h h' (false, l) e =
      let reason : String = "Too many authentication attempts; try again later" in
      let a = send_auth_fail-Answers reason (with_limiter h l) h' e in
      ground (arith, a.moves, a.inbound, a.outbound)

  handle_auth_request-Answers :
      (r : AuthRequest) (now : ℕ) (h h' : ClientHalf)
      → handle_auth_request opts r now h ≡ ok h'
      → Answers opts right t h h'
  unfolding handle_auth_request
  handle_auth_request-Answers r now h h' e = elim (Option-cases h.limiter) [
    | inl off ↦ throttle-Answers r now h h' (rw (off, handle_auth_request) at e)
    | inr (l, on) ↦
        limited-Answers r now h h' (try_acquire opts.remote_address now l)
          (rw (on, handle_auth_request) at e)
  ]

  -- A call on the bridge is made only by a protocol that is ready.
  call_bridge-Answers :
      (answer : Reaction) (call : Callback) (h : ClientHalf)
      → h.protocol ≡ ready
      → Answers opts right t h (call_bridge answer call h)
  unfolding call_bridge
  call_bridge-Answers answer call h e =
      let a = react-Answers answer (emit (calls_bridge call) h) in
      ground (arith, a.moves, a.inbound, a.outbound)

  handle-Answers :
      (answer : Reaction) (m : ClientMessage) (now : ℕ) (h h' : ClientHalf)
      → handle opts now answer m h ≡ ok h'
      → Answers opts right t h h'
  unfolding handle dispatch_all dispatch send Protocol.handle
  handle-Answers answer (auth_request r) now h h' e =
      ground (arith, handle_auth_request-Answers r now h h')
  handle-Answers answer ping now h h' e = ground arith
  handle-Answers answer (goodbye_in reason) now h h' e = ground arith
  handle-Answers answer (data_in payload) now h h' e =
      ground (arith, call_bridge-Answers answer (Protocol.on_data payload) h)
  handle-Answers answer (binary_in payload) now h h' e =
      ground (arith, call_bridge-Answers answer (Protocol.on_binary payload) h)
  handle-Answers answer (terminal_input payload) now h h' e =
      ground (arith, call_bridge-Answers answer (Protocol.on_terminal_input payload) h)
  handle-Answers answer (terminal_resize cols rows) now h h' e =
      ground (arith, call_bridge-Answers answer (Protocol.on_terminal_resize cols rows) h)

  receive-Answers :
      (answer : Reaction) (msg : Json) (now : ℕ) (h h' : ClientHalf)
      → receive opts now answer msg h ≡ ok h'
      → Answers opts right t h h'
  unfolding receive
  receive-Answers answer msg now h h' e = elim (Option-cases (as_client_message msg)) [
    | inl untyped ↦ ground arith
    | inr (m, typed) ↦ ground (arith, handle-Answers answer m now h h')
  ]

  caught-Answers :
      (h : ClientHalf) (r : Result ConnectionError ClientHalf)
      → ((h' : ClientHalf) → r ≡ ok h' → Answers opts right t h h')
      → Answers opts right t h (caught opts h r)
  unfolding caught
  caught-Answers h (err e) onward = terminate-Answers (some (opts.describe e)) h
  caught-Answers h (ok h') onward = onward h' refl

  pub process_text-Answers :
      (parse : List ℕ → Option Json) (now : ℕ) (answer : Reaction) (wire : List ℕ) (h : ClientHalf)
      → Answers opts right t h (process_text parse opts now answer wire h)
  unfolding process_text
  process_text-Answers parse now answer wire h =
      elim (Result-cases (parse_json_message parse wire)) [
        | inl (e, bad) ↦ rw (bad, process_text) (caught-Answers h _ (λ h' k. cc))
        | inr (msg, good) ↦
            rw (good, process_text)
              (caught-Answers h _ (λ h' k. receive-Answers answer msg now h h' k))
      ]
