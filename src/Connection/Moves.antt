-- ===== src/Connection/Moves.antt =====
-- How the calls behind a connection's socket move it: the credentials that it checks, what it
-- hands on, what it writes, and the report of its close.
use termlink.Prelude.{
  ℕ, zero, suc, ◌+◌, ◌*◌, Option-cases, ◌≤◌, ◌≡◌, ◌≢◌, String, Bool, true, false, not, ◌&&◌,
  none_of, none_of-append, List, [], ◌∷◌, Option, none, some, arith, if◌then◌else◌, inl, inr,
}
use termlink.Prelude.Result.{Result, ok, err, Result-cases}
use termlink.Json.{Json}
use termlink.Message.{
  AuthRequest, ClientMessage, ServerMessage, ProtocolState, connecting, authenticating, ready,
  closing, data_out, binary_out, terminal_output, auth_request, data_in, binary_in, terminal_input,
  terminal_resize, ping, goodbye_in, pong, goodbye_out,
}
use termlink.Message
use termlink.Message.Valid.{as_client_message}
use termlink.Framing.{FrameDecoder, FrameError, read}
use termlink.RateLimit.{AuthRateLimiter, try_acquire}
use termlink.Protocol
use termlink.Protocol.{
  Callback, send, on_auth_request, on_data, on_binary, on_terminal_input, on_terminal_resize, Moved,
  wrong_state,
}
use termlink.Connection.{
  Config, Connection, Out, write, verify, deliver, authenticated_as, starts_backend, reports_close,
  send_safe, peer_closed, fail, send_all, on_protocol, send_auth_fail, throttle, limited,
  handle_auth_request, dispatch, with_limiter,
}
use termlink.Connection.Receive.{dispatch_all, handle, receive, round, pump}

-- The credentials that were handed to the store.
abbrev pub verifications : List Out → ℕ
verifications [] = 0
verifications (verify r ∷ out) = suc (verifications out)
verifications (_ ∷ out) = verifications out

-- Whether all credentials that were handed to the store were wrong; `right` is its answer.
abbrev pub all_refused : (right : AuthRequest → Bool) → List Out → Bool
all_refused right [] = true
all_refused right (verify r ∷ out) = not (right r) && all_refused right out
all_refused right (_ ∷ out) = all_refused right out

-- What only an authenticated client is meant to bring about.
abbrev pub is_service : Out → Bool
is_service (write (data_out payload)) = true
is_service (write (binary_out payload)) = true
is_service (write (terminal_output payload)) = true
is_service (write (Message.auth_ok id)) = true
is_service (deliver call) = true
is_service (authenticated_as id) = true
is_service starts_backend = true
is_service _ = false

abbrev pub services : List Out → List Out
services [] = []
services (o ∷ out) = if is_service o then o ∷ services out else services out

-- The messages that were handed to the socket.
abbrev pub writes : List Out → List ServerMessage
writes [] = []
writes (write m ∷ out) = m ∷ writes out
writes (_ ∷ out) = writes out

abbrev pub close_reports : List Out → ℕ
close_reports [] = 0
close_reports (reports_close had_session ∷ out) = suc (close_reports out)
close_reports (_ ∷ out) = close_reports out

abbrev pub one_if : Bool → ℕ
one_if true = 1
one_if false = 0

-- How a connection may move; `right` is the answer of the store, and `trusted` is whether
-- credentials that it found right are what moves the connection.
pub record Moves (cfg : Config) (right : AuthRequest → Bool) (trusted : Bool) (c c' : Connection)
    : Type 0 where
  pub refused_before : all_refused right c'.out ≡ true → all_refused right c.out ≡ true
  pub counted : verifications c'.out + c.auth_attempts ≡ verifications c.out + c'.auth_attempts
  pub bounded : c.auth_attempts ≤ cfg.max_auth_attempts → c'.auth_attempts ≤ cfg.max_auth_attempts
  pub quiet :
      trusted ≡ false
      → all_refused right c'.out ≡ true
      → none_of right c.pending ≡ true
      → c.protocol ≢ ready
      → (c'.protocol ≢ ready)
        × (none_of right c'.pending ≡ true)
        × (services c'.out ≡ services c.out)
        × (c'.authenticated ≡ c.authenticated)
  pub reported : close_reports c'.out + one_if c.closed ≡ close_reports c.out + one_if c'.closed
  pub muted : c.closed ≡ true → (c'.closed ≡ true) × (writes c'.out ≡ writes c.out)

module _ (cfg : Config) (right : AuthRequest → Bool) (t : Bool) where
  pub Moves-refl : (c : Connection) → Moves cfg right t c c
  Moves-refl c = ground arith

  pub Moves-trans :
      (a b c : Connection) → Moves cfg right t a b → Moves cfg right t b c → Moves cfg right t a c
  Moves-trans a b c x y = ground (
    arith, x.refused_before, y.refused_before, x.counted, y.counted, x.bounded, y.bounded, x.quiet,
    y.quiet, x.reported, y.reported, x.muted, y.muted,
  )

  pub fail-Moves : (reason : String) (c : Connection) → Moves cfg right t c (fail reason c)
  unfolding fail peer_closed send_safe Protocol.peer_closed
  fail-Moves reason c = ground arith

  pub send_auth_fail-Moves :
      (reason : String) (c c' : Connection)
      → send_auth_fail reason c ≡ ok c'
      → Moves cfg right t c c'
  unfolding send_auth_fail on_protocol send_all send_safe Protocol.auth_fail
  send_auth_fail-Moves reason c c' h = ground arith

  pub throttle-Moves :
      (r : AuthRequest) (now : ℕ) (c c' : Connection)
      → throttle cfg r now c ≡ ok c'
      → Moves cfg right t c c'
  unfolding throttle
  throttle-Moves r now c c' h =
      let late = record c { auth_locked_until = now + cfg.auth_backoff_ms * c.auth_attempts } in
      ground (
        arith,
        send_auth_fail-Moves "Too many attempts; try again later" c c',
        send_auth_fail-Moves "Too many failed attempts" late c',
        none_of-append right c.pending (r ∷ []),
      )

  pub limited-Moves :
      (r : AuthRequest) (now : ℕ) (c c' : Connection) (answer : Bool × AuthRateLimiter)
      → limited cfg r now c answer ≡ ok c'
      → Moves cfg right t c c'
  unfolding limited
  limited-Moves r now c c' (true, l) h =
      let moves = throttle-Moves r now (with_limiter c l) c' h in
      ground (
        arith, moves.refused_before, moves.counted, moves.bounded, moves.quiet, moves.reported,
        moves.muted,
      )
  limited-Moves r now c c' (false, l) h =
      let reason : String = "Too many authentication attempts; try again later" in
      let moves = send_auth_fail-Moves reason (with_limiter c l) c' h in
      ground (
        arith, moves.refused_before, moves.counted, moves.bounded, moves.quiet, moves.reported,
        moves.muted,
      )

  pub handle_auth_request-Moves :
      (r : AuthRequest) (now : ℕ) (c c' : Connection)
      → handle_auth_request cfg r now c ≡ ok c'
      → Moves cfg right t c c'
  unfolding handle_auth_request
  handle_auth_request-Moves r now c c' h = elim (Option-cases c.limiter) [
    | inl off ↦ throttle-Moves r now c c' (rw (off, handle_auth_request) at h)
    | inr (l, on) ↦
        limited-Moves r now c c' (try_acquire cfg.remote_address now l)
          (rw (on, handle_auth_request) at h)
  ]

  pub handle-Moves :
      (m : ClientMessage) (now : ℕ) (c c' : Connection)
      → handle cfg now m c ≡ ok c'
      → Moves cfg right t c c'
  unfolding handle dispatch_all dispatch send_safe Protocol.handle
  handle-Moves (auth_request r) now c c' h = ground (arith, handle_auth_request-Moves r now c c')
  handle-Moves (data_in payload) now c c' h = ground arith
  handle-Moves (binary_in payload) now c c' h = ground arith
  handle-Moves (terminal_input payload) now c c' h = ground arith
  handle-Moves (terminal_resize cols rows) now c c' h = ground arith
  handle-Moves ping now c c' h = ground arith
  handle-Moves (goodbye_in reason) now c c' h = ground arith

  pub receive-Moves :
      (msg : Json) (now : ℕ) (c c' : Connection)
      → receive cfg now msg c ≡ ok c'
      → Moves cfg right t c c'
  unfolding receive
  receive-Moves msg now c c' h = elim (Option-cases (as_client_message msg)) [
    | inl untyped ↦ ground arith
    | inr (m, typed) ↦ ground (arith, handle-Moves m now c c')
  ]

  pub feed-Moves :
      (d : FrameDecoder) (c : Connection) → Moves cfg right t c (record c { decoder = d })
  feed-Moves d c = ground arith

  -- One round of the loop, which goes on with a connection that received a message.
  pub round-Moves :
      (read_out : FrameDecoder × Result FrameError (Option Json)) (now : ℕ) (c : Connection)
      → (next : Connection → Connection) → ((b : Connection) → Moves cfg right t b (next b))
      → Moves cfg right t c (round cfg now next read_out c)
  unfolding round
  round-Moves (d, err e) now c next onward =
      Moves-trans c (record c { decoder = d }) _ (feed-Moves d c) (fail-Moves _ _)
  round-Moves (d, ok none) now c next onward = feed-Moves d c
  round-Moves (d, ok (some msg)) now c next onward =
      let c0 = record c { decoder = d } in
      elim (Result-cases (receive cfg now msg c0)) [
        | inl (e, refused) ↦
            rw (refused, round) (Moves-trans c c0 _ (feed-Moves d c) (fail-Moves _ _))
        | inr (b, received) ↦
            rw (received, round)
              (Moves-trans c c0 _ (feed-Moves d c)
                (Moves-trans c0 b _ (receive-Moves msg now c0 b received) (onward b)))
      ]

  pub pump-Moves :
      (parse : List ℕ → Option Json) (fuel now : ℕ) (c : Connection)
      → Moves cfg right t c (pump parse cfg fuel now c)
  unfolding pump
  pump-Moves parse zero now c = Moves-refl c
  pump-Moves parse (suc fuel) now c =
      round-Moves (read parse c.decoder) now c (pump parse cfg fuel now) (pump-Moves parse fuel now)
