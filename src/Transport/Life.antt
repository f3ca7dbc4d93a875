-- ===== src/Transport/Life.antt =====
-- The whole life of a client: how many sockets it opens, and what it does once it is given up.
use termlink.Prelude.{
  ◌||◌, ◌&&◌, not, none, ℕ, zero, suc, ◌+◌, ◌≤◌, ◌≡◌, Bool, true, false, List, [], ◌∷◌, Option,
  arith,
}
use termlink.Json.{Json}
use termlink.ClientProtocol
use termlink.Transport.{
  ClientConfig, tell, link_lost, reconnecting, reconnect_failed, link_connected, failed, TcpClient,
  new_client, is_ready, destroy_socket, request, enqueue, flush_queue, connect_once, on_link, close,
  destroy,
}
use termlink.Transport.Events.{
  stop, handle_close, on_idle_timeout, on_connect_timeout, on_reconnect, flush_times, on_drain,
  Event, links, data_arrives, drains, socket_fails, socket_closes, idles, connect_times_out,
  reconnect_is_due, owner_sends, owner_closes, owner_destroys, on_socket, step, run,
}
use termlink.Transport.Moves.{
  opened, frames, has_decoder, tell-Receives, Receives, Receives-trans, flush_queue-Receives,
  on_data_chunk-Receives,
}

abbrev pub one_if : Bool → ℕ
one_if true = 1
one_if false = 0

-- What holds between two events, behind the call of `connect`.
pub record IsSound (cfg : ClientConfig) (c : TcpClient) : Type 0 where
  pub attempts : c.reconnect_attempts ≤ cfg.max_reconnect_attempts
  pub counted : opened c.out + one_if c.armed ≤ 1 + c.reconnect_attempts
  pub alone : c.alive ≡ true → c.armed ≡ false
  pub gone : c.alive ≡ false → c.has_socket ≡ false
  pub idle : c.alive ≡ false → is_ready c ≡ false
  pub paired : c.has_socket ≡ has_decoder c
  pub dead : c.destroyed ≡ true → c.has_socket ≡ false

-- Once closed while it does not wait to reconnect, or destroyed, a client opens no further socket.
pub record Stays (c c' : TcpClient) : Type 0 where
  pub closed_stays : c.closed_by_us ≡ true → c'.closed_by_us ≡ true
  pub destroyed_stays : c.destroyed ≡ true → c'.destroyed ≡ true
  pub no_more :
      c.closed_by_us ≡ true → c.armed ≡ false → (c'.armed ≡ false) × (opened c'.out ≡ opened c.out)
  pub silent : c.destroyed ≡ true → (opened c'.out ≡ opened c.out) × (frames c'.out ≡ frames c.out)

-- An event that leaves a client sound, and does not take back that it is given up.
pub record Lives (cfg : ClientConfig) (c c' : TcpClient) : Type 0 where
  pub sound : IsSound cfg c'
  pub stays : Stays c c'

receives-Lives :
    (cfg : ClientConfig) (c c' : TcpClient)
    → Receives c c'
    → c.alive ≡ true
    → IsSound cfg c
    → Lives cfg c c'
receives-Lives cfg c c' r a s = ground (arith, r, s)

flush_times-Receives :
    (cfg : ClientConfig) (writable : ℕ → ℕ → Bool) (n : ℕ) (c : TcpClient)
    → Receives c (flush_times cfg writable n c)
unfolding flush_times
flush_times-Receives cfg writable zero c = ground arith
flush_times-Receives cfg writable (suc n) c =
    let one = flush_queue-Receives cfg (writable n) c in
    Receives-trans c (flush_queue cfg (writable n) c) _ one (flush_times-Receives cfg writable n _)

on_drain-Receives :
    (cfg : ClientConfig) (writable : ℕ → ℕ → Bool) (c : TcpClient)
    → Receives c (on_drain cfg writable c)
unfolding on_drain
on_drain-Receives cfg writable c =
    let r = flush_times-Receives cfg writable c.listeners (record c { listeners = 0 }) in
    ground (arith, r)

-- The client behind the close of its socket, before it tells its owner.
abbrev pub unlinked : TcpClient → TcpClient
unlinked c = record c {
  alive = false;
  decoder = none;
  has_socket = false;
  listeners = 0;
  protocol = ClientProtocol.disconnected;
}

handle_close-Lives :
    (cfg : ClientConfig) (c : TcpClient)
    → c.alive ≡ true
    → IsSound cfg c
    → Lives cfg c (handle_close cfg c)
unfolding handle_close stop ClientProtocol.on_disconnected
handle_close-Lives cfg c a s =
    let lost = tell cfg link_lost (unlinked c) in
    let tries = record lost { reconnect_attempts = lost.reconnect_attempts + 1 } in
    ground (
      arith,
      s,
      tell-Receives cfg link_lost (unlinked c),
      tell-Receives cfg (reconnecting (lost.reconnect_attempts + 1)) tries,
      tell-Receives cfg reconnect_failed lost,
    )

module _ (parse : List ℕ → Option Json) (cfg : ClientConfig) where
  on_socket-Lives :
      (e : Event) (c : TcpClient)
      → c.alive ≡ true
      → IsSound cfg c
      → Lives cfg c (on_socket parse cfg e c)
  unfolding on_socket on_link on_idle_timeout destroy_socket
  on_socket-Lives (data_arrives chunk writable) c a s =
      receives-Lives cfg c _ (on_data_chunk-Receives parse cfg writable chunk c) a s
  on_socket-Lives (drains writable) c a s =
      receives-Lives cfg c _ (on_drain-Receives cfg writable c) a s
  on_socket-Lives links c a s =
      let up = record c { connect_timer = false; ever_connected = true } in
      ground (arith, s, tell-Receives cfg link_connected up)
  on_socket-Lives (socket_fails message) c a s =
      receives-Lives cfg c _ (tell-Receives cfg (failed message) c).0 a s
  on_socket-Lives socket_closes c a s = handle_close-Lives cfg c a s
  on_socket-Lives idles c a s = ground (arith, s, tell-Receives cfg (failed "idle timeout") c)
  on_socket-Lives _ c a s = ground (arith, s)

  pub step-Lives : (e : Event) (c : TcpClient) → IsSound cfg c → Lives cfg c (step parse cfg e c)
  unfolding step on_connect_timeout on_reconnect connect_once ClientProtocol.connected request
      enqueue close destroy destroy_socket
  step-Lives connect_times_out c s = ground (arith, s)
  step-Lives reconnect_is_due c s = ground (arith, s)
  step-Lives (owner_sends m writable) c s = ground (arith, s)
  step-Lives owner_closes c s = ground (arith, s)
  step-Lives owner_destroys c s = ground (arith, s)
  step-Lives e c s = ground (arith, s, on_socket-Lives e c)

  run-Lives :
      (events : List Event) (c : TcpClient) → IsSound cfg c → Lives cfg c (run parse cfg events c)
  unfolding run
  run-Lives [] c s = ground (arith, s)
  run-Lives (e ∷ events) c s =
      let one = step-Lives e c s in
      let rest = run-Lives events (step parse cfg e c) one.sound in
      record { sound = rest.sound; stays = ground (arith, one.stays, rest.stays) }

  pub connected-IsSound : IsSound cfg (connect_once cfg new_client)
  unfolding connect_once new_client ClientProtocol.connected
  connected-IsSound = ground arith

  -- A client that is told to connect opens at most one socket and one more for each attempt to
  -- reconnect that its configuration allows, whatever its sockets and its owner do.
  pub opened-run :
      (events : List Event)
      → opened (run parse cfg events (connect_once cfg new_client)).out
        ≤ 1 + cfg.max_reconnect_attempts
  opened-run events =
      let sound = (run-Lives events _ connected-IsSound).sound in ground (arith, sound)

  -- Behind `destroy`, and behind `close` or an error that closed it for good while it did not wait
  -- to reconnect, a client opens no further socket, whatever follows.
  opened-run_given_up :
      (before after : List Event)
      → (let c = run parse cfg before (connect_once cfg new_client) in
          (c.closed_by_us && not c.armed) || c.destroyed)
        ≡ true
      → opened (run parse cfg after (run parse cfg before (connect_once cfg new_client))).out
        ≡ opened (run parse cfg before (connect_once cfg new_client)).out
  opened-run_given_up before after ended =
      let sound = (run-Lives before _ connected-IsSound).sound in
      let stays = (run-Lives after _ sound).stays in ground (arith, stays)

  -- Behind `destroy`, a client writes nothing more.
  frames-run_destroyed :
      (before after : List Event)
      → (run parse cfg before (connect_once cfg new_client)).destroyed ≡ true
      → frames (run parse cfg after (run parse cfg before (connect_once cfg new_client))).out
        ≡ frames (run parse cfg before (connect_once cfg new_client)).out
  frames-run_destroyed before after gone =
      let sound = (run-Lives before _ connected-IsSound).sound in
      let stays = (run-Lives after _ sound).stays in ground (arith, stays)
