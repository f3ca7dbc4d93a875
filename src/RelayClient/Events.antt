-- ===== src/RelayClient/Events.antt =====
-- What the client does with the relay's messages, the events of its sockets, and its timers.
use termlink.Prelude.{
  ℕ, String, Bool, true, false, ◌||◌, List, [], ◌∷◌, Option, none, some, ◌==◌, truthy,
  if◌then◌else◌,
}
use termlink.DeviceProtocol.{
  DeviceClientMessage, device_register, device_auth, agent_ping, DeviceServerMessage, device_ok,
  device_err, device_pong, relay_goodbye,
}
use termlink.RelayClient.{
  closed, auth, register, ready, same_stage, is_closed, is_auth, is_ready, AgentConfig, changes,
  hands, RelayClient, emit, clear_timers, schedule_reconnect, connect, close_ws, raw_send, stop,
  on_fatal, send, on_drain_tick,
}

-- The token is sent only if it is not empty.
abbrev pub token_given : Option String → Option String
token_given none = none
token_given (some token) = if truthy token then some token else none

unfoldable pub on_open : AgentConfig → Bool → RelayClient → RelayClient
unfolding raw_send
on_open cfg open_ c = raw_send open_ (device_auth cfg.device_id c.secret) (emit (changes is_auth) c)

-- The reasons of these failures are kept without the relay's own text.
unfoldable pub handle_device_err : AgentConfig → Bool → String → RelayClient → RelayClient
unfolding raw_send
handle_device_err cfg open_ error c = elim c.stage [
  | register ↦ on_fatal "Enrollment refused by relay" c
  | auth ↦
      if error == "Device not enrolled"
      then raw_send open_
          (device_register cfg.device_id c.secret (token_given cfg.enrollment_token))
          (record c { stage = register })
      else on_fatal "Authentication failed" c
  | _ ↦ c
]

unfoldable pub handle_server_message :
    AgentConfig → Bool → DeviceServerMessage → RelayClient → RelayClient
handle_server_message cfg open_ (device_ok id name type state) c =
    if same_stage c.stage auth || same_stage c.stage register
    then emit (changes is_ready) (record c {
      auth_timer = false;
      reconnect_attempts = 0;
      stage = ready;
      idle_timer = true;
      ping_timer = true;
    })
    else c
handle_server_message cfg open_ (device_err error) c = handle_device_err cfg open_ error c
handle_server_message cfg open_ device_pong c = c
handle_server_message cfg open_ (relay_goodbye reason) c =
    emit (changes is_closed)
      (record (close_ws "relay goodbye" (clear_timers (record c { stop_requested = true }))) {
        ws = none;
        stage = closed;
      })
handle_server_message cfg open_ m c = emit (hands m) c

-- A message of any socket whose handlers are attached.
unfoldable pub on_message : AgentConfig → Bool → DeviceServerMessage → RelayClient → RelayClient
on_message cfg open_ m c = handle_server_message cfg open_ m (record c { idle_timer = true })

-- A binary frame, or a text that the parser or the test of its type refuses.
unfoldable pub on_invalid : Bool → String → RelayClient → RelayClient
on_invalid binary reason c = on_fatal reason (if binary then c else record c { idle_timer = true })

-- `handleSocketClose`, of any socket whose handlers are attached.
unfoldable pub on_socket_close : RelayClient → RelayClient
unfolding clear_timers schedule_reconnect
on_socket_close c = elim c.ws [
  | none ↦ c
  | some n ↦ schedule_reconnect (clear_timers (record c { ws = none }))
]

unfoldable pub on_auth_timeout : RelayClient → RelayClient
on_auth_timeout c =
    if c.auth_timer
    then (if same_stage c.stage ready then c else close_ws "Authentication timed out" c)
    else c

unfoldable pub on_idle_timeout : RelayClient → RelayClient
on_idle_timeout c =
    if c.idle_timer then (if same_stage c.stage closed then c else close_ws "Idle timeout" c) else c

unfoldable pub on_ping : Bool → RelayClient → RelayClient
on_ping open_ c =
    if c.ping_timer
    then (if same_stage c.stage ready then raw_send open_ agent_ping c else c)
    else c

unfoldable pub on_reconnect : Bool → RelayClient → RelayClient
on_reconnect created c =
    if c.reconnect_timer then connect created (record c { reconnect_timer = false }) else c

-- The error event of a socket closes that socket, unless the client has failed for good: only its
-- close matters here. `invalid_arrives` is a binary frame, or what the parser refuses.
pub data Event : Type 0 where
  socket_opens : (open_ : Bool) → Event
  message_arrives : (m : DeviceServerMessage) (open_ : Bool) → Event
  invalid_arrives : (binary : Bool) (reason : String) → Event
  socket_closes auth_times_out idle_times_out : Event
  ping_is_due : (open_ : Bool) → Event
  reconnect_is_due : (created : Bool) → Event
  drain_is_due : (open_ : Bool) (before : ℕ) (buffered : ℕ → ℕ) → Event
  owner_sends : (m : DeviceClientMessage) (open_ : Bool) (buffered : ℕ) → Event
  owner_stops : (open_ : Bool) → Event

module _ (cfg : AgentConfig) (size : DeviceClientMessage → ℕ) where
  unfoldable pub step : Event → RelayClient → RelayClient
  step (socket_opens open_) c = on_open cfg open_ c
  step (message_arrives m open_) c = on_message cfg open_ m c
  step (invalid_arrives binary reason) c = on_invalid binary reason c
  step socket_closes c = on_socket_close c
  step auth_times_out c = on_auth_timeout c
  step idle_times_out c = on_idle_timeout c
  step (ping_is_due open_) c = on_ping open_ c
  step (reconnect_is_due created) c = on_reconnect created c
  step (drain_is_due open_ before buffered) c = on_drain_tick cfg size open_ before buffered c
  step (owner_sends m open_ buffered) c = send cfg size open_ buffered m c
  step (owner_stops open_) c = stop open_ c

  unfoldable pub run : List Event → RelayClient → RelayClient
  run [] c = c
  run (e ∷ events) c = run events (step e c)
