-- ===== src/Transport/Events.antt =====
-- The events of a client's life: those of its socket, its timers, and the calls of its owner.
use termlink.Prelude.{
  ℕ, zero, suc, ◌+◌, String, Bool, true, false, not, ◌&&◌, List, [], ◌∷◌, Option, none, ltb,
  if◌then◌else◌,
}
use termlink.Json.{Json}
use termlink.Message.{ClientMessage}
use termlink.ClientProtocol
use termlink.Transport.{
  ClientConfig, link_lost, reconnecting, reconnect_failed, failed, destroys_socket, settles,
  TcpClient, emit, tell, destroy_socket, request, flush_queue, connect_once, on_link, close,
  destroy,
}
use termlink.Transport.Receive.{on_data_chunk}

-- The end of a client that does not reconnect.
unfoldable pub stop : ClientConfig → TcpClient → TcpClient
stop cfg c =
    let told = if c.closed_by_us then c else tell cfg reconnect_failed c in
    emit (settles (not told.ever_connected && not told.closed_by_us)) told

-- `handleClose`. The timer is set behind the owner's answer to `reconnecting`.
unfoldable pub handle_close : ClientConfig → TcpClient → TcpClient
unfolding stop
handle_close cfg c =
    let lost = tell cfg link_lost (record c {
      alive = false;
      decoder = none;
      has_socket = false;
      listeners = 0;
      protocol = ClientProtocol.on_disconnected c.protocol;
    }) in
    let attempt = lost.reconnect_attempts + 1 in
    let tries = tell cfg (reconnecting attempt) (record lost { reconnect_attempts = attempt }) in
    if cfg.reconnect
      && (not lost.closed_by_us
          && (not lost.destroyed && ltb lost.reconnect_attempts cfg.max_reconnect_attempts))
    then record tries { armed = true }
    else stop cfg lost

unfoldable pub on_idle_timeout : ClientConfig → TcpClient → TcpClient
unfolding destroy_socket
on_idle_timeout cfg c =
    destroy_socket (record (tell cfg (failed "idle timeout") c) { closed_by_us = true })

unfoldable pub on_connect_timeout : TcpClient → TcpClient
on_connect_timeout c = if c.connect_timer then emit destroys_socket c else c

unfoldable pub on_reconnect : ClientConfig → TcpClient → TcpClient
on_reconnect cfg c = if c.armed then connect_once cfg (record c { armed = false }) else c

-- Every listener of `once("drain")` calls `flushQueue`; `writable` tells, for each call and each of
-- its rounds, what `socket.write` returns.
unfoldable pub flush_times : ClientConfig → (ℕ → ℕ → Bool) → ℕ → TcpClient → TcpClient
flush_times cfg writable zero c = c
flush_times cfg writable (suc n) c = flush_times cfg writable n (flush_queue cfg (writable n) c)

unfoldable pub on_drain : ClientConfig → (ℕ → ℕ → Bool) → TcpClient → TcpClient
on_drain cfg writable c = flush_times cfg writable c.listeners (record c { listeners = 0 })

pub data Event : Type 0 where
  links : Event
  data_arrives : (chunk : List ℕ) (writable : ℕ → Bool) → Event
  drains : (writable : ℕ → ℕ → Bool) → Event
  socket_fails : (message : String) → Event
  socket_closes idles connect_times_out reconnect_is_due : Event
  owner_sends : (m : ClientMessage) (writable : Bool) → Event
  owner_closes owner_destroys : Event

module _ (parse : List ℕ → Option Json) (cfg : ClientConfig) where
  -- An event of the socket, if it is alive.
  unfoldable pub on_socket : Event → TcpClient → TcpClient
  on_socket links c = on_link cfg c
  on_socket (data_arrives chunk writable) c = on_data_chunk parse cfg writable chunk c
  on_socket (drains writable) c = on_drain cfg writable c
  on_socket (socket_fails message) c = tell cfg (failed message) c
  on_socket socket_closes c = handle_close cfg c
  on_socket idles c = on_idle_timeout cfg c
  on_socket _ c = c

  unfoldable pub step : Event → TcpClient → TcpClient
  step connect_times_out c = on_connect_timeout c
  step reconnect_is_due c = on_reconnect cfg c
  step (owner_sends m writable) c = (request writable m c).1
  step owner_closes c = close c
  step owner_destroys c = destroy c
  step e c = if c.alive then on_socket e c else c

  unfoldable pub run : List Event → TcpClient → TcpClient
  run [] c = c
  run (e ∷ events) c = run events (step e c)
