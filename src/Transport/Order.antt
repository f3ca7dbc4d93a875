-- ===== src/Transport/Order.antt =====
-- The way of the owner's messages to the socket, over the whole life of a client.
use termlink.Prelude.{
  if◌then◌else◌, ◌&&◌, ℕ, zero, suc, ◌+◌, ◌≡◌, String, Bool, true, false, List, [], ◌∷◌, ◌++◌,
  Option, All, arith, inl, inr, Option-cases,
}
use termlink.Prelude.Result.{ok}
use termlink.Json.{Json}
use termlink.Message.{
  ServerMessage, hello, auth_ok, auth_fail, data_out, binary_out, terminal_output, pong,
  goodbye_out,
}
use termlink.Message.Server.{as_server_message}
use termlink.ClientProtocol
use termlink.Transport.{
  TransportError, ClientConfig, link_lost, reconnecting, reconnect_failed, link_connected, failed,
  auth_failed, got_data, got_binary, got_output, got_pong, got_goodbye, TcpClient, new_client,
  is_ready, tell, destroy_socket, flush_queue, handle_bad_credentials, handle_hello, connect_once,
  on_link, close, destroy,
}
use termlink.Transport.Receive.{dispatch, dispatch_all, handle, receive, caught, on_data_chunk}
use termlink.Transport.Events.{
  stop, handle_close, on_idle_timeout, on_connect_timeout, on_reconnect, flush_times, on_drain,
  Event, links, data_arrives, drains, socket_fails, socket_closes, idles, connect_times_out,
  reconnect_is_due, owner_sends, owner_closes, owner_destroys, on_socket, step, run,
}
use termlink.Transport.Moves.{written, requested, on_data_chunk-keeps}
use termlink.Transport.Life.{IsSound, unlinked, step-Lives, connected-IsSound}
use termlink.Transport.Flush.{
  Holds, request-Holds, IsPatient, tell-Holds, flush_queue-Holds, ready-Holds,
}

module _ (cfg : ClientConfig) (p : IsPatient cfg) where
  module _ (writable : ℕ → Bool) (room : (j : ℕ) → writable j ≡ true) where
    caught-Holds : (e : TransportError) (c : TcpClient) → Holds c → Holds (caught cfg e c)
    unfolding caught destroy_socket
    caught-Holds e c h = ground (arith, tell-Holds cfg p (failed (cfg.describe e)) c h)

    handle_hello-Holds :
        (methods : List String) (c : TcpClient) → Holds c → Holds (handle_hello cfg methods c)
    unfolding handle_hello handle_bad_credentials destroy_socket
    handle_hello-Holds methods c h =
        let reason : String = "No usable credentials for the server's advertised auth methods" in
        let told = tell cfg (failed reason) c in
        let closed = destroy_socket (record told { closed_by_us = true }) in
        let t = tell-Holds cfg p (failed reason) c h in
        ground (
          arith,
          h,
          t,
          tell-Holds cfg p (auth_failed "no usable credentials configured") closed
              (ground (arith, t)),
        )

    handle-Holds :
        (m : ServerMessage) (c c' : TcpClient)
        → handle cfg writable m c ≡ ok c'
        → Holds c
        → Holds c'
    unfolding handle dispatch_all dispatch ClientProtocol.handle
    handle-Holds (hello methods) c c' e h =
        let waits = record c { protocol = ClientProtocol.authenticating } in
        ground (arith, handle_hello-Holds methods waits (ground (arith, h)))
    handle-Holds (auth_ok id) c c' e h =
        let up = record c { protocol = ClientProtocol.ready } in
        ground (arith, ready-Holds cfg p writable room id up h.in_order)
    handle-Holds (auth_fail reason) c c' e h =
        ground (arith, tell-Holds cfg p (auth_failed reason) c h)
    handle-Holds (data_out payload) c c' e h =
        ground (arith, tell-Holds cfg p (got_data payload) c h)
    handle-Holds (binary_out payload) c c' e h =
        ground (arith, tell-Holds cfg p (got_binary payload) c h)
    handle-Holds (terminal_output payload) c c' e h =
        ground (arith, tell-Holds cfg p (got_output payload) c h)
    handle-Holds pong c c' e h = ground (arith, tell-Holds cfg p got_pong c h)
    handle-Holds (goodbye_out reason) c c' e h =
        let gone = record c { protocol = ClientProtocol.closing } in
        ground (arith, tell-Holds cfg p (got_goodbye reason) gone (ground (arith, h)))

    receive-Holds :
        (msg : Json) (c c' : TcpClient) → receive cfg writable msg c ≡ ok c' → Holds c → Holds c'
    unfolding receive
    receive-Holds msg c c' e h = elim (Option-cases (as_server_message msg)) [
      | inl untyped ↦ ground arith
      | inr (m, typed) ↦ ground (arith, handle-Holds m c c')
    ]

    on_data_chunk-Holds :
        (parse : List ℕ → Option Json) (chunk : List ℕ) (c : TcpClient)
        → Holds c
        → Holds (on_data_chunk parse cfg writable chunk c)
    on_data_chunk-Holds =
        on_data_chunk-keeps (λ a b. Holds a → Holds b) (λ a h. h) (λ a b d f g h. g (f h)) cfg
          writable (λ a d d' e h. ground (arith, h)) caught-Holds receive-Holds

  flush_times-Holds :
      (writable : ℕ → ℕ → Bool) (n : ℕ) (c : TcpClient)
      → ((i j : ℕ) → writable i j ≡ true)
      → Holds c
      → Holds (flush_times cfg writable n c)
  unfolding flush_times
  flush_times-Holds writable zero c room h = h
  flush_times-Holds writable (suc n) c room h =
      flush_times-Holds writable n (flush_queue cfg (writable n) c) room
        (flush_queue-Holds cfg p (writable n) (room n) c h.in_order)

  handle_close-Holds : (c : TcpClient) → Holds c → Holds (handle_close cfg c)
  unfolding handle_close stop ClientProtocol.on_disconnected
  handle_close-Holds c h =
      let lost = tell cfg link_lost (unlinked c) in
      let tries = record lost { reconnect_attempts = lost.reconnect_attempts + 1 } in
      let t = tell-Holds cfg p link_lost (unlinked c) (ground (arith, h)) in
      ground (
        arith,
        t,
        tell-Holds cfg p (reconnecting (lost.reconnect_attempts + 1)) tries (ground (arith, t)),
        tell-Holds cfg p reconnect_failed lost t,
      )

-- No `write` of the event itself finds the socket's buffer full.
abbrev pub HasRoom : Event → Type 0
HasRoom (data_arrives chunk writable) = (j : ℕ) → writable j ≡ true
HasRoom (drains writable) = (i j : ℕ) → writable i j ≡ true
HasRoom (owner_sends m writable) = writable ≡ true
HasRoom _ = Unit

module _ (parse : List ℕ → Option Json) (cfg : ClientConfig) (p : IsPatient cfg) where
  on_socket-Holds :
      (e : Event) (c : TcpClient) → HasRoom e → Holds c → Holds (on_socket parse cfg e c)
  unfolding on_socket on_link on_idle_timeout destroy_socket on_drain
  on_socket-Holds (data_arrives chunk writable) c room h =
      on_data_chunk-Holds cfg p writable room parse chunk c h
  on_socket-Holds (drains writable) c room h =
      flush_times-Holds cfg p writable c.listeners (record c { listeners = 0 }) room
        (ground (arith, h))
  on_socket-Holds links c room h =
      let up = record c { connect_timer = false; ever_connected = true } in
      ground (arith, tell-Holds cfg p link_connected up (ground (arith, h)))
  on_socket-Holds (socket_fails message) c room h = tell-Holds cfg p (failed message) c h
  on_socket-Holds socket_closes c room h = handle_close-Holds cfg p c h
  on_socket-Holds idles c room h = ground (arith, tell-Holds cfg p (failed "idle timeout") c h)
  on_socket-Holds _ c room h = ground (arith, h)

  step-Holds :
      (e : Event) (c : TcpClient) → HasRoom e → IsSound cfg c → Holds c → Holds (step parse cfg e c)
  unfolding step on_connect_timeout on_reconnect connect_once ClientProtocol.connected close destroy
      destroy_socket
  step-Holds connect_times_out c room s h = ground (arith, s, h)
  step-Holds reconnect_is_due c room s h = ground (arith, s, h)
  step-Holds (owner_sends m true) c room s h = request-Holds m c h
  step-Holds (owner_sends m false) c room s h = cc
  step-Holds owner_closes c room s h = ground (arith, s, h)
  step-Holds owner_destroys c room s h = ground (arith, s, h)
  step-Holds e c room s h = ground (arith, h, on_socket-Holds e c room)

  run-Holds :
      (events : List Event) (c : TcpClient)
      → All HasRoom events
      → IsSound cfg c
      → Holds c
      → Holds (run parse cfg events c)
  unfolding run
  run-Holds [] c room s h = h
  run-Holds (e ∷ events) c room s h =
      run-Holds events (step parse cfg e c) room.1 (step-Lives parse cfg e c s).sound
        (step-Holds e c room.0 s h)

  connected-Holds : Holds (connect_once cfg new_client)
  unfolding connect_once new_client ClientProtocol.connected
  connected-Holds = ground arith

  -- Suppose that no `write` finds the socket's buffer full, and that the owner, which may call back
  -- inside any event, sends nothing inside `ready` while earlier messages of it wait in the client.
  -- Then what a client that was told to connect and has not been destroyed has written, over all its
  -- sockets, and what still waits is, in order, exactly what its owner has asked it to send, between
  -- events and inside them; and nothing waits while it is ready on a socket.
  pub written-run :
      (events : List Event)
      → All HasRoom events
      → (run parse cfg events (connect_once cfg new_client)).destroyed ≡ false
      → let c = run parse cfg events (connect_once cfg new_client) in
        (written c.out ++ c.send_queue ≡ requested c.out)
        × ((if is_ready c && c.has_socket then c.send_queue else []) ≡ [])
  written-run events room alive =
      let h = run-Holds events _ room (connected-IsSound parse cfg) connected-Holds in
      (h.in_order alive, ground (arith, h.flushed))
