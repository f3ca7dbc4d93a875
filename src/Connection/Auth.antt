-- ===== src/Connection/Auth.antt =====
-- What a client can get out of a connection, over its whole life: how often it has credentials
-- checked, what it reaches while they are wrong, and what happens to it when it closes.
use termlink.Prelude.{
  ℕ, suc, Option-cases, ◌≤◌, ◌≡◌, refl, none_of, get_elem?-none_of, zero, String, Bool, true, false,
  List, [], ◌∷◌, Option, none, some, arith, inl, inr, get_elem?, length,
}
use termlink.Prelude.Result.{ok}
use termlink.Json.{Json}
use termlink.Message.{
  AuthRequest, ClientMessage, ServerMessage, ProtocolState, connecting, authenticating, ready,
  closing, data_out, binary_out, terminal_output, auth_request, data_in, binary_in, terminal_input,
  terminal_resize, ping, goodbye_in, pong, goodbye_out,
}
use termlink.Message
use termlink.Framing.{feed}
use termlink.RateLimit.{AuthRateLimiter}
use termlink.Protocol
use termlink.Sessions.{SessionRegistry}
use termlink.Protocol.{
  Callback, send, on_auth_request, on_data, on_binary, on_terminal_input, on_terminal_resize, Moved,
  wrong_state,
}
use termlink.Connection.{
  Config, Connection, new_connection, authenticated_as, emit, send_safe, peer_closed, fail,
  terminate, shutdown, send_all, on_protocol, send_auth_fail,
}
use termlink.Connection.Receive.{dispatch_all, handle, receive, round, pump}
use termlink.Connection.Receive
use termlink.Connection.Events.{
  start_terminal_backend, create_session, text_of_id, admit, accept, refuse, finish, remove_at,
  resolve, on_auth_timeout, on_idle_timeout, on_end, on_output, on_close, start, Event,
  data_arrives, verification_ends, terminal_outputs, terminal_exits, terminated, step, run,
}
use termlink.Connection.Moves.{
  verifications, all_refused, services, writes, close_reports, one_if, Moves, Moves-refl,
  Moves-trans, fail-Moves, feed-Moves, pump-Moves,
}

none_of-remove_at :
    (right : AuthRequest → Bool) (rs : List AuthRequest) (place : ℕ)
    → none_of right rs ≡ true
    → none_of right (remove_at rs place) ≡ true
none_of-remove_at right [] place h = h
none_of-remove_at right (r ∷ rs) zero h = ground arith
none_of-remove_at right (r ∷ rs) (suc place) h = ground (arith, none_of-remove_at right rs place)

module _ (cfg : Config) (right : AuthRequest → Bool) (t : Bool) where
  start_terminal_backend-Moves :
      (started : Bool) (c : Connection)
      → t ≡ true
      → Moves cfg right t c (start_terminal_backend cfg started c)
  unfolding start_terminal_backend fail peer_closed send_safe Protocol.peer_closed
  start_terminal_backend-Moves started c h = ground arith

  admit-Moves :
      (started : Bool) (id : String) (c : Connection)
      → t ≡ true
      → Moves cfg right t c (admit cfg started id c)
  unfolding admit on_protocol send_all send_safe Protocol.auth_ok
  admit-Moves started id c h =
      let sent = send_safe (Message.auth_ok id) (record c { protocol = ready }) in
      let c' = emit (authenticated_as id) sent in
      let moves = start_terminal_backend-Moves started c' h in
      ground
        (arith, moves.refused_before, moves.counted, moves.bounded, moves.reported, moves.muted)

  refuse-Moves : (c : Connection) → Moves cfg right t c (refuse c)
  unfolding refuse send_auth_fail on_protocol send_all send_safe Protocol.auth_fail
  refuse-Moves c = ground arith

  finish-Moves :
      (valid : Bool) (fresh : String) (now : ℕ) (started : Bool) (c : Connection)
      → (valid ≡ true → t ≡ true)
      → Moves cfg right t c (finish cfg valid fresh now started c)
  unfolding finish accept create_session
  finish-Moves true fresh now started c h =
      let c' = create_session fresh now (record c { authenticated = true; auth_timer = false }) in
      let moves = admit-Moves started (text_of_id c'.session_id) c' (h refl) in
      ground (
        arith,
        moves.refused_before,
        moves.counted,
        moves.bounded,
        moves.reported,
        moves.muted,
        h refl,
      )
  finish-Moves false fresh now started c h = ground (arith, refuse-Moves c)

module _ (cfg : Config) (check : AuthRequest → Bool) where
  -- The store's answer on the request at the place decides.
  resolve-Moves :
      (place : ℕ) (fresh : String) (now : ℕ) (started : Bool) (c : Connection)
      → Moves cfg check false c (resolve cfg check place fresh now started c)
  unfolding resolve
  resolve-Moves place fresh now started c = elim (Option-cases (get_elem? c.pending place)) [
    | inl gone ↦ rw (gone, resolve) (Moves-refl cfg check false c)
    | inr (r, held) ↦
        let c' = record c { pending = remove_at c.pending place } in
        let moves = finish-Moves cfg check (check r) (check r) fresh now started c' (λ e. e) in
        rw (held, resolve) ground
          (
            arith,
            moves,
            get_elem?-none_of check c.pending place r held,
            none_of-remove_at check c.pending place,
          )
  ]

  step-Moves :
      (parse : List ℕ → Option Json) (e : Event) (c : Connection)
      → Moves cfg check false c (step parse cfg check e c)
  unfolding step Receive.on_data on_output on_auth_timeout on_idle_timeout on_end on_close shutdown
      terminate peer_closed send_safe on_protocol send_all Protocol.peer_closed
      Protocol.terminal_output
  step-Moves parse (data_arrives chunk now) c =
      let fed = record c { decoder = feed c.decoder chunk } in
      Moves-trans cfg check false c fed _ (feed-Moves cfg check false _ c)
        (pump-Moves cfg check false parse (suc (length fed.decoder.buffer)) now fed)
  step-Moves parse (verification_ends place fresh now started) c =
      resolve-Moves place fresh now started c
  step-Moves parse (terminal_exits detail) c = fail-Moves cfg check false detail c
  step-Moves parse (terminated none) c = fail-Moves cfg check false _ c
  step-Moves parse (terminated (some reason)) c = fail-Moves cfg check false reason c
  step-Moves parse (terminal_outputs payload) c = ground arith
  step-Moves parse _ c = ground arith

  run-Moves :
      (parse : List ℕ → Option Json) (events : List Event) (c : Connection)
      → Moves cfg check false c (run parse cfg check events c)
  unfolding run
  run-Moves parse [] c = Moves-refl cfg check false c
  run-Moves parse (e ∷ events) c =
      Moves-trans cfg check false c (step parse cfg check e c) _ (step-Moves parse e c)
        (run-Moves parse events _)

start-quiet :
    (cfg : Config) (id : String) (max : ℕ) (sessions : SessionRegistry)
    (limiter : Option AuthRateLimiter) (c : Connection)
    → start cfg (new_connection id max sessions limiter) ≡ ok c
    → (c.protocol ≡ authenticating)
      × (verifications c.out ≡ 0)
      × (c.auth_attempts ≡ 0)
      × (c.pending ≡ [])
      × (services c.out ≡ [])
      × (c.authenticated ≡ false)
      × (c.closed ≡ false)
      × (close_reports c.out ≡ 0)
unfolding start new_connection on_protocol send_all send_safe Protocol.hello
start-quiet cfg id max sessions limiter c h = ground arith

module _ (parse : List ℕ → Option Json) (cfg : Config) (check : AuthRequest → Bool) (id : String)
    (max : ℕ) (sessions : SessionRegistry) (limiter : Option AuthRateLimiter) (c : Connection)
    (started : start cfg (new_connection id max sessions limiter) ≡ ok c) where
  -- However many requests a client sends on a connection that has been started, in one chunk or in
  -- many, before or while others are being checked, the connection never has more than the
  -- configured number of credentials checked.
  pub verifications-run :
      (events : List Event)
      → verifications (run parse cfg check events c).out ≤ cfg.max_auth_attempts
  verifications-run events =
      let moves = run-Moves cfg check parse events c in
      let quiet = start-quiet cfg id max sessions limiter c started in
      ground (arith, moves.counted, moves.bounded, quiet)

  -- On a connection that has been started, a client stays unauthenticated, never reaches a terminal,
  -- the relay or the echo, and is never told that it is accepted, in any order of events, as long as
  -- the credentials that it has sent, and that the connection handed to the store, are all wrong;
  -- the store may accept others.
  pub services-run :
      (events : List Event)
      → all_refused check (run parse cfg check events c).out ≡ true
      → (services (run parse cfg check events c).out ≡ [])
        × ((run parse cfg check events c).authenticated ≡ false)
  services-run events wrong =
      let moves = run-Moves cfg check parse events c in
      let quiet = start-quiet cfg id max sessions limiter c started in
      ground (arith, moves.quiet refl wrong, quiet)

  -- The close of a connection that has been started is reported exactly once: not before its socket
  -- closes, and not again when it closes another time.
  pub close_reports-run :
      (events : List Event)
      → let c' = run parse cfg check events c in close_reports c'.out ≡ one_if c'.closed
  close_reports-run events =
      let moves = run-Moves cfg check parse events c in
      let quiet = start-quiet cfg id max sessions limiter c started in
      ground (arith, moves.reported, quiet.1)

-- On a connection whose socket has closed, no further message is written, whatever events still
-- come.
writes-run_closed :
    (parse : List ℕ → Option Json) (cfg : Config) (check : AuthRequest → Bool) (events : List Event)
    (c : Connection)
    → c.closed ≡ true
    → writes (run parse cfg check events c).out ≡ writes c.out
writes-run_closed parse cfg check events c h =
    let moves = run-Moves cfg check parse events c in (moves.muted h).1
