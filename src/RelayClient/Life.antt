-- ===== src/RelayClient/Life.antt =====
-- The whole life of an agent's client: its sockets, its enrolment, and what it does once it has
-- given up.
use termlink.Prelude.{
  ℕ, suc, ◌+◌, ◌≤◌, ◌≡◌, String, Bool, true, false, List, [], ◌∷◌, ◌++◌, All, none, arith, inl, inr,
  Option-cases,
}
use termlink.DeviceProtocol.{
  DeviceClientMessage, device_register, DeviceServerMessage, device_ok, device_err, relay_goodbye,
}
use termlink.RelayClient.{
  closed, auth, same_stage, AgentConfig, ClientOut, opens, sends, fails, RelayClient, new_client,
  emit, is_given, given_up, clear_timers, schedule_reconnect, connect, start, raw_send, stop,
  on_fatal, send, drain_from, on_drain_tick,
}
use termlink.RelayClient.Events.{
  on_open, handle_device_err, handle_server_message, on_message, on_invalid, on_socket_close,
  on_auth_timeout, on_idle_timeout, on_ping, on_reconnect, Event, socket_opens, message_arrives,
  invalid_arrives, socket_closes, auth_times_out, idle_times_out, ping_is_due, reconnect_is_due,
  drain_is_due, owner_sends, owner_stops, step, run,
}

abbrev pub opened : List ClientOut → ℕ
opened [] = 0
opened (opens n ∷ out) = suc (opened out)
opened (_ ∷ out) = opened out

abbrev pub is_enrolment : DeviceClientMessage → Bool
is_enrolment (device_register id secret token) = true
is_enrolment _ = false

abbrev pub one_if : Bool → ℕ
one_if true = 1
one_if false = 0

-- What was sent, the latest first.
abbrev pub sent : List ClientOut → List DeviceClientMessage
sent [] = []
sent (sends n m ∷ out) = m ∷ sent out
sent (_ ∷ out) = sent out

-- How often the device asked to be enrolled.
abbrev pub enrolments : List DeviceClientMessage → ℕ
enrolments [] = 0
enrolments (m ∷ messages) = one_if (is_enrolment m) + enrolments messages

abbrev pub failures : List ClientOut → ℕ
failures [] = 0
failures (fails reason ∷ out) = suc (failures out)
failures (_ ∷ out) = failures out

-- What holds between two events.
record IsSound (c : RelayClient) : Type 0 where
  quiet : given_up c ≡ true → (c.ws ≡ none) × (c.stage ≡ closed)
  enrolled : enrolments (sent c.out) + one_if (same_stage auth c.stage) ≤ opened c.out
  plain : enrolments c.pending_send ≡ 0
  failed : failures c.out ≡ one_if (is_given c.permanent)

record Stays (c c' : RelayClient) : Type 0 where
  given_up_stays : given_up c ≡ true → given_up c' ≡ true
  silent : given_up c ≡ true → (opened c'.out ≡ opened c.out) × (sent c'.out ≡ sent c.out)

record Lives (c c' : RelayClient) : Type 0 where
  sound : IsSound c'
  stays : Stays c c'

handle-Lives :
    (cfg : AgentConfig) (open_ : Bool) (m : DeviceServerMessage) (c : RelayClient)
    → IsSound c
    → Lives c (handle_server_message cfg open_ m c)
unfolding handle_server_message handle_device_err raw_send on_fatal clear_timers
handle-Lives cfg open_ (device_ok id name type state) c s = ground (arith, s)
handle-Lives cfg open_ (device_err error) c s = ground (arith, s)
handle-Lives cfg open_ (relay_goodbye reason) c s = ground (arith, s)
handle-Lives cfg open_ _ c s = ground (arith, s)

enrolments-append :
    (a b : List DeviceClientMessage) → enrolments (a ++ b) ≡ enrolments a + enrolments b
enrolments-append [] b = omega arith
enrolments-append (m ∷ a) b = omega (arith, enrolments-append a b)

-- The drainer sends what waits, to the socket that the client keeps.
record Drains (queue : List DeviceClientMessage) (c c' : RelayClient) : Type 0 where
  ws_kept : c'.ws ≡ c.ws
  stage_kept : c'.stage ≡ c.stage
  given_up_kept : given_up c' ≡ given_up c
  permanent_kept : c'.permanent ≡ c.permanent
  opened_kept : opened c'.out ≡ opened c.out
  failures_kept : failures c'.out ≡ failures c.out
  enrolments_kept :
      enrolments (sent c'.out) + enrolments c'.pending_send
      ≡ enrolments (sent c.out) + enrolments queue
  enrolments_grow : enrolments (sent c.out) ≤ enrolments (sent c'.out)

drain_from-Drains :
    (cfg : AgentConfig) (size : DeviceClientMessage → ℕ) (buffered : ℕ → ℕ) (i n : ℕ)
    (queue : List DeviceClientMessage) (c : RelayClient)
    → Drains queue c (drain_from cfg size buffered i n queue c)
unfolding drain_from
drain_from-Drains cfg size buffered i n [] c = ground arith
drain_from-Drains cfg size buffered i n (m ∷ queue) c =
    ground (arith, drain_from-Drains cfg size buffered (suc i) n queue (emit (sends n m) c))

-- The owner sends only messages about its sessions.
abbrev pub IsPlain : Event → Type 0
IsPlain (owner_sends m open_ buffered) = is_enrolment m ≡ false
IsPlain _ = Unit

module _ (cfg : AgentConfig) (size : DeviceClientMessage → ℕ) where
  step-Lives : (e : Event) (c : RelayClient) → IsPlain e → IsSound c → Lives c (step cfg size e c)
  unfolding step on_open on_message on_invalid on_socket_close on_auth_timeout on_idle_timeout
      on_ping on_reconnect on_drain_tick send stop on_fatal raw_send connect schedule_reconnect
      clear_timers
  step-Lives (socket_opens open_) c p s = ground (arith, s)
  step-Lives (message_arrives m open_) c p s =
      let a = handle-Lives cfg open_ m (record c { idle_timer = true }) (ground (arith, s)) in
      ground (arith, s, a.sound, a.stays)
  step-Lives (invalid_arrives binary reason) c p s = ground (arith, s)
  step-Lives socket_closes c p s = ground (arith, s)
  step-Lives auth_times_out c p s = ground (arith, s)
  step-Lives idle_times_out c p s = ground (arith, s)
  step-Lives (ping_is_due open_) c p s = ground (arith, s)
  step-Lives (reconnect_is_due created) c p s = ground (arith, s)
  step-Lives (drain_is_due open_ before buffered) c p s = elim (Option-cases c.ws) [
    | inl none_kept ↦ ground (arith, s)
    | inr (n, kept) ↦ ground (arith, s, drain_from-Drains cfg size buffered 0 n c.pending_send c)
  ]
  step-Lives (owner_sends m open_ buffered) c p s =
      ground (arith, s, enrolments-append c.pending_send (m ∷ []))
  step-Lives (owner_stops open_) c p s = ground (arith, s)

  run-Lives :
      (events : List Event) (c : RelayClient)
      → All IsPlain events
      → IsSound c
      → Lives c (run cfg size events c)
  unfolding run
  run-Lives [] c p s = ground (arith, s)
  run-Lives (e ∷ events) c p s =
      let one = step-Lives e c p.0 s in
      let rest = run-Lives events (step cfg size e c) p.1 one.sound in
      record { sound = rest.sound; stays = ground (arith, one.stays, rest.stays) }

  started-IsSound : (created : Bool) (secret : String) → IsSound (start created (new_client secret))
  unfolding start new_client connect schedule_reconnect
  started-IsSound created secret = ground arith

  -- An agent's client that was started, and whose owner sends only messages about its sessions,
  -- asks to be enrolled at most once for each socket that it opens, and reports a permanent failure
  -- exactly once if it has one, and else never.
  enrolments-run :
      (created : Bool) (secret : String) (events : List Event)
      → All IsPlain events
      → let c = run cfg size events (start created (new_client secret)) in
        (enrolments (sent c.out) ≤ opened c.out) × (failures c.out ≡ one_if (is_given c.permanent))
  enrolments-run created secret events p =
      let sound = (run-Lives events _ p (started-IsSound created secret)).sound in
      ground (arith, sound.enrolled, sound.failed)

  -- Once a client that was started has been stopped, has been told goodbye, or has failed for good,
  -- it opens no further socket and sends nothing more, unless it is started again.
  pub sent-run-given_up :
      (created : Bool) (secret : String) (before after : List Event)
      → All IsPlain before
      → All IsPlain after
      → given_up (run cfg size before (start created (new_client secret))) ≡ true
      → let c = run cfg size before (start created (new_client secret)) in
        let c' = run cfg size after c in (opened c'.out ≡ opened c.out) × (sent c'.out ≡ sent c.out)
  sent-run-given_up created secret before after p q ended =
      let sound = (run-Lives before _ p (started-IsSound created secret)).sound in
      (run-Lives after _ q sound).stays.silent ended
