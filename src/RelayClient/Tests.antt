-- ===== src/RelayClient/Tests.antt =====
-- An agent that enrols, and one whose socket is full, or closes late.
use termlink.Prelude.{ℕ, ◌≡◌, ◌+◌, refl, true, false, List, ◌∷◌, [], none, some}
use termlink.DeviceProtocol.{
  DeviceClientMessage, device_session_output, device_err, device_ok, registered, relay_goodbye,
}
use termlink.RelayClient.{
  ready, AgentConfig, RelayClient, new_client, given_up, connect, start, clear_timers,
}
use termlink.RelayClient.Events.{
  Event, socket_opens, message_arrives, socket_closes, reconnect_is_due, owner_sends, drain_is_due,
  on_message, handle_server_message, step, run,
}
use termlink.RelayClient.Life.{opened, sent, sent-run-given_up}
use termlink.RelayClient.Faults.{closings, sent-overtaken, opened-stale_close}

abbrev cfg : AgentConfig
cfg = record {
  device_id = "pi";
  enrollment_token = none;
  send_high_water_mark = 100;
  send_low_water_mark = 50;
}

abbrev size : DeviceClientMessage → ℕ
size m = 10

abbrev key : DeviceClientMessage
key = device_session_output "g1" "a"

abbrev life : List Event
life =
    socket_opens true
    ∷ message_arrives (device_err "Device not enrolled") true
    ∷ message_arrives (device_ok "pi" "Pi" "shell" registered) true
    ∷ owner_sends key true 0
    ∷ socket_closes
    ∷ reconnect_is_due true
    ∷ []

abbrev farewell : List Event
farewell = message_arrives (relay_goodbye none) true ∷ []

gives_up : given_up (run cfg size farewell (start true (new_client "s"))) ≡ true
unfolding run step on_message handle_server_message clear_timers start new_client connect
gives_up = refl

sent-run-given_up_example :
    let c = run cfg size farewell (start true (new_client "s")) in
    let c' = run cfg size life c in (opened c'.out ≡ opened c.out) × (sent c'.out ≡ sent c.out)
sent-run-given_up_example =
    sent-run-given_up cfg size true "s" farewell life (tt, tt)
      (tt, (tt, (tt, (refl, (tt, (tt, tt)))))) gives_up

abbrev up : RelayClient
up = record {
  ws = some 0;
  made = 1;
  stage = ready;
  secret = "s";
  stop_requested = false;
  permanent = none;
  reconnect_attempts = 0;
  reconnect_timer = false;
  ping_timer = true;
  auth_timer = false;
  idle_timer = true;
  drain_timer = false;
  pending_send = [];
  pending_send_bytes = 0;
  out = [];
}

abbrev other_key : DeviceClientMessage
other_key = device_session_output "g1" "b"

sent-overtaken_example :
    sent
      (run cfg size
        (owner_sends key true 95
          ∷ owner_sends other_key true 20
          ∷ drain_is_due true 30 (λ i. 30)
          ∷ [])
        up).out
    ≡ key ∷ other_key ∷ sent up.out
sent-overtaken_example =
    sent-overtaken cfg size up 0 refl refl key other_key 95 20 30 refl refl refl refl refl

opened-stale_close_example :
    let c' =
      run cfg size
        (owner_sends key false 0
          ∷ reconnect_is_due true
          ∷ socket_closes
          ∷ reconnect_is_due true
          ∷ [])
        up in
    (c'.ws ≡ some (up.made + 1))
    × (opened c'.out ≡ opened up.out + 2)
    × (closings c'.out ≡ closings up.out)
opened-stale_close_example = opened-stale_close cfg size up 0 refl refl key 0 refl refl
