-- ===== src/WebTransport/Life.antt =====
-- The whole life of the web page's transport: the sockets it opens, what it asks on them, and what
-- it does once it is closed.
use termlink.Prelude.{
  ℕ, ◌+◌, ◌*◌, ◌≤◌, ◌≡◌, refl, Bool, true, List, [], ◌∷◌, arith, ◌===◌, length, if◌then◌else◌,
}
use termlink.WebTransport.{
  WebOptions, is_ready, WebOut, emits, WebTransport, new_transport, open_socket, connect, teardown,
  close, destroy,
}
use termlink.WebTransport.Events.{
  handle_binary, handle_disconnect, on_close, on_reconnect, Event, socket_opens, socket_fails,
  text_arrives, binary_arrives, socket_closes, reconnect_is_due, owner_connects, owner_destroys,
  owner_closes, owner_sends, step, run,
}
use termlink.WebTransport.Moves.{
  opened, logins, sent, readies, services, allowed, is_single, is_over, total, IsSound, Lives,
  handle_text-Lives,
}
use termlink.WebTransport.Flush.{submit-Lives}

-- How often the owner calls `connect` in an event.
abbrev pub asks : Event → ℕ
asks owner_connects = 1
asks _ = 0

-- The calls of `connect` in a history.
abbrev pub asked : List Event → ℕ
asked [] = 0
asked (e ∷ events) = asks e + asked events

module _ (opts : WebOptions) where
  step-Lives :
      (e : Event) (c : WebTransport) → IsSound opts c → Lives opts (asks e) c (step opts e c)
  unfolding step handle_binary on_close handle_disconnect on_reconnect open_socket connect destroy
      close teardown
  step-Lives socket_opens c s = ground (arith, s)
  step-Lives socket_fails c s = ground (arith, s)
  step-Lives (text_arrives text fails) c s = handle_text-Lives opts fails text c s
  step-Lives (binary_arrives bytes) c s = ground (arith, s)
  step-Lives (socket_closes socket reason) c s = ground (arith, s)
  step-Lives (reconnect_is_due kept) c s = ground (arith, s)
  step-Lives owner_connects c s = ground (arith, s)
  step-Lives owner_destroys c s = ground (arith, s)
  step-Lives (owner_closes fails) c s = ground (arith, s)
  step-Lives (owner_sends r open_ fails) c s = submit-Lives opts open_ fails r c s

  run-Lives :
      (events : List Event) (c : WebTransport)
      → IsSound opts c
      → Lives opts (asked events) c (run opts events c)
  unfolding run
  run-Lives [] c s = ground (arith, s)
  run-Lives (e ∷ events) c s =
      let one = step-Lives e c s in
      let rest = run-Lives events (step opts e c) one.sound in
      record {
        sound = rest.sound;
        balance = omega (arith, one.balance, rest.balance);
        single = ground (arith, one.single, rest.single);
        over = ground (arith, one.over, rest.over);
        silent = ground (arith, one.over, one.silent, rest.silent);
      }

  new-IsSound : IsSound opts new_transport
  unfolding new_transport
  new-IsSound = ground arith

  lives :
      (events : List Event)
      → Lives opts (asked events) new_transport (run opts events new_transport)
  lives events = run-Lives events new_transport new-IsSound

  allowed-eq : (max : ℕ) (out : List WebOut) → allowed max out ≡ readies out * max
  allowed-eq max [] = omega arith
  allowed-eq max (emits (is_ready id) ∷ out) = grind (arith, allowed-eq max out)
  allowed-eq max (_ ∷ out) = allowed-eq max out

  -- The page's transport opens one socket for each call of `connect` and, from then on and after
  -- each time that it was ready, at most as many more as attempts to reconnect are configured,
  -- whatever its sockets and timers do.
  pub opened-run_web :
      (events : List Event)
      → let c = run opts events new_transport in
        opened c.out ≤ asked events + (1 + readies c.out) * opts.max_reconnect_attempts
  unfolding new_transport
  opened-run_web events =
      let c = run opts events new_transport in
      let max = opts.max_reconnect_attempts in
      let s = (lives events).sound in
      let spent : (1 + readies c.out) * max ≡ max + allowed max c.out =
        grind (arith, allowed-eq max c.out) in
      omega (arith, (lives events).balance, spent, s.attempts)

  -- The transport sends at most one login for each socket that it opens, and until it was ready
  -- nothing else: no event with content is handed on, and no input is sent, whatever the other side
  -- says and the page asks for.
  pub services-run_web :
      (events : List Event)
      → let c = run opts events new_transport in
        (logins (sent c.out) ≤ opened c.out)
        × ((if readies c.out === 0 then services c.out else 0) ≡ 0)
  services-run_web events = let s = (lives events).sound in ground (arith, s)

  -- The outbound buffer never holds more frames or more bytes than configured, and the count of its
  -- bytes is right at any time.
  outbound-run_web :
      (events : List Event)
      → let c = run opts events new_transport in
        (c.outbound_bytes ≡ total opts c.outbound_queue)
        × (length c.outbound_queue ≤ opts.max_outbound_frames)
        × (c.outbound_bytes ≤ opts.max_outbound_bytes)
  outbound-run_web events = let s = (lives events).sound in (s.summed, s.few, s.small)

  close-is_over :
      (fails : Bool) (c : WebTransport) → is_single c ≡ true → is_over (close fails c) ≡ true
  unfolding close teardown
  close-is_over fails c h = ground (arith, h)

  connected-IsSound : IsSound opts (connect new_transport)
  unfolding connect open_socket new_transport
  connected-IsSound = ground arith

  connected-is_single : is_single (connect new_transport) ≡ true
  unfolding connect open_socket new_transport
  connected-is_single = refl

  close-Lives : (fails : Bool) (c : WebTransport) → IsSound opts c → Lives opts 0 c (close fails c)
  unfolding step
  close-Lives fails c s = step-Lives (owner_closes fails) c s

  -- A transport on which `connect` was called once, and which its owner has closed, opens no further
  -- socket and sends nothing more, whatever follows, short of another `connect`.
  pub sent-run_closed :
      (before after : List Event) (fails : Bool)
      → asked before ≡ 0
      → asked after ≡ 0
      → let c = close fails (run opts before (connect new_transport)) in
        let c' = run opts after c in (opened c'.out ≡ opened c.out) × (sent c'.out ≡ sent c.out)
  sent-run_closed before after fails once quiet =
      let lived = run-Lives before (connect new_transport) connected-IsSound in
      let before' = run opts before (connect new_transport) in
      let shut = close-Lives fails before' lived.sound in
      let over = close-is_over fails before' (lived.single once connected-is_single) in
      (run-Lives after (close fails before') shut.sound).silent quiet over
