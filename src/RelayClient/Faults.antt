-- ===== src/RelayClient/Faults.antt =====
-- Orders of events in which the agent's client does not do what it means to.
use termlink.Prelude.{ℕ, ◌+◌, ◌≡◌, refl, true, false, List, [], ◌∷◌, ◌++◌, none, some, ltb, arith}
use termlink.DeviceProtocol.{DeviceClientMessage}
use termlink.RelayClient.{
  closed, auth, ready, is_closed, is_connecting, AgentConfig, ClientOut, opens, sends, closes,
  changes, RelayClient, emit, given_up, schedule_reconnect, connect, send, on_drain_tick,
}
use termlink.RelayClient.Events.{
  on_socket_close, on_reconnect, socket_closes, reconnect_is_due, owner_sends, drain_is_due, step,
  run,
}
use termlink.RelayClient.Life.{opened, sent}

-- The sockets that the client closed itself.
abbrev pub closings : List ClientOut → List ℕ
closings [] = []
closings (closes n reason ∷ out) = n ∷ closings out
closings (_ ∷ out) = closings out

abbrev reopened : RelayClient → RelayClient
reopened c = emit (opens c.made) (record (emit (changes is_connecting) c) {
  ws = some c.made;
  made = c.made + 1;
  stage = auth;
  auth_timer = true;
  idle_timer = true;
  reconnect_timer = false;
})

reconnects :
    (c : RelayClient)
    → given_up c ≡ false
    → c.reconnect_timer ≡ true
    → on_reconnect true c ≡ reopened c
unfolding on_reconnect connect
reconnects c on due = ground arith

abbrev dropped : RelayClient → RelayClient
dropped c = emit (changes is_closed) (record c {
  ws = none;
  auth_timer = false;
  idle_timer = false;
  ping_timer = false;
  drain_timer = false;
  reconnect_attempts = c.reconnect_attempts + 1;
  reconnect_timer = true;
})

drops :
    (c : RelayClient) (n : ℕ)
    → given_up c ≡ false
    → c.reconnect_timer ≡ false
    → c.ws ≡ some n
    → on_socket_close c ≡ dropped c
unfolding on_socket_close
drops c n on idle kept = ground arith

module _ (cfg : AgentConfig) (size : DeviceClientMessage → ℕ) (c : RelayClient) (n : ℕ)
    (kept : c.ws ≡ some n) (in_stage : c.stage ≡ ready) where
  held :
      (m : DeviceClientMessage) (buffered : ℕ)
      → ltb cfg.send_high_water_mark (buffered + size m) ≡ true
      → send cfg size true buffered m c ≡ record c {
        pending_send = c.pending_send ++ m ∷ [];
        pending_send_bytes = c.pending_send_bytes + size m;
        drain_timer = true;
      }
  unfolding send
  held m buffered late = ground arith

  direct :
      (m : DeviceClientMessage) (buffered : ℕ)
      → ltb cfg.send_high_water_mark (buffered + size m) ≡ false
      → send cfg size true buffered m c ≡ emit (sends n m) c
  unfolding send
  direct m buffered early = ground arith

  drained_one :
      (m : DeviceClientMessage) (before : ℕ)
      → c.pending_send ≡ m ∷ []
      → c.drain_timer ≡ true
      → ltb cfg.send_low_water_mark before ≡ false
      → ltb cfg.send_low_water_mark (before + size m) ≡ false
      → sent (on_drain_tick cfg size true before (λ i. before) c).out ≡ m ∷ sent c.out
  unfolding on_drain_tick
  drained_one m before one set idle fits = ground arith

  given_back :
      (m : DeviceClientMessage) (buffered : ℕ)
      → given_up c ≡ false
      → c.reconnect_timer ≡ false
      → send cfg size false buffered m c
        ≡ emit (changes is_closed) (record c {
          stage = closed;
          reconnect_attempts = c.reconnect_attempts + 1;
          reconnect_timer = true;
        })
  unfolding send schedule_reconnect
  given_back m buffered on idle = ground arith

module _ (cfg : AgentConfig) (size : DeviceClientMessage → ℕ) (c : RelayClient) (n : ℕ)
    (kept : c.ws ≡ some n) (in_stage : c.stage ≡ ready) where
  -- A client whose socket's buffer was too full for one message, and has room for the next, sends
  -- the next one first: the relay receives the two in the wrong order.
  pub sent-overtaken :
      (first second : DeviceClientMessage) (full low drained : ℕ)
      → c.pending_send ≡ []
      → ltb cfg.send_high_water_mark (full + size first) ≡ true
      → ltb cfg.send_high_water_mark (low + size second) ≡ false
      → ltb cfg.send_low_water_mark drained ≡ false
      → ltb cfg.send_low_water_mark (drained + size first) ≡ false
      → sent
          (run cfg size
            (owner_sends first true full
              ∷ owner_sends second true low
              ∷ drain_is_due true drained (λ i. drained)
              ∷ [])
            c).out
        ≡ first ∷ second ∷ sent c.out
  unfolding run step
  sent-overtaken first second full low drained empty late early idle fits =
      let c1 = record c {
        pending_send = c.pending_send ++ first ∷ [];
        pending_send_bytes = c.pending_send_bytes + size first;
        drain_timer = true;
      } in
      let c2 = emit (sends n second) c1 in
      let one : c.pending_send ++ first ∷ [] ≡ first ∷ [] = rw empty in
      rw
        (
          held cfg size c n kept in_stage first full late,
          direct cfg size c1 n kept in_stage second low early,
        )
        (drained_one cfg size c2 n kept in_stage first drained one refl idle fits)

  -- A client that finds its socket closing while it sends, and whose reconnect is due before that
  -- socket has reported its close, takes the report for the end of its new socket: it drops the new
  -- one without closing it, and opens a third.
  pub opened-stale_close :
      (m : DeviceClientMessage) (buffered : ℕ)
      → given_up c ≡ false
      → c.reconnect_timer ≡ false
      → let c' =
          run cfg size
            (owner_sends m false buffered
              ∷ reconnect_is_due true
              ∷ socket_closes
              ∷ reconnect_is_due true
              ∷ [])
            c in
        (c'.ws ≡ some (c.made + 1))
        × (opened c'.out ≡ opened c.out + 2)
        × (closings c'.out ≡ closings c.out)
  unfolding run step
  opened-stale_close m buffered on idle =
      let c1 = emit (changes is_closed) (record c {
        stage = closed;
        reconnect_attempts = c.reconnect_attempts + 1;
        reconnect_timer = true;
      }) in
      let c2 = reopened c1 in
      rw
        (
          given_back cfg size c n kept in_stage m buffered on idle,
          reconnects c1 on refl,
          drops c2 c.made on refl refl,
          reconnects (dropped c2) on refl,
        )
        (refl, omega arith, refl)
