-- ===== src/AgentLink/Messages.antt =====
-- The messages of an agent, the channels of its link, and the events of the link's life.
use termlink.Prelude.{
  ℕ, String, Bool, true, false, List, [], ◌∷◌, ◌++◌, Option, none, some, truthy, ◌===◌, ◌&&◌, ◌||◌,
  not, includes, if◌then◌else◌, ◌==◌,
}
use termlink.Credentials.{Scrypt, Bytes}
use termlink.DeviceProtocol.{
  DeviceServerMessage, DeviceClientMessage, device_register, device_auth, device_session_output,
  device_session_failed, device_session_exited, agent_ping, agent_goodbye, device_session_open,
  device_session_close, device_pong,
}
use termlink.DeviceStore
use termlink.AgentLink.{
  LinkConfig, ready, closed, AgentLink, channel_output, channel_failed, channel_exited,
  refuses_channel, flushes_channel, note, raw_send, same_link_state, send_message, terminate_link,
  on_socket_close, fail_link, authenticate, resume,
}

abbrev pub touch_device : ℕ → AgentLink → AgentLink
touch_device now l = elim l.device_id [
  | none ↦ l
  | some id ↦ record l { store = DeviceStore.touch id now l.store }
]

abbrev pub without_channel : String → List String → List String
without_channel id [] = []
without_channel id (c ∷ channels) =
    let rest = without_channel id channels in if c == id then rest else c ∷ rest

-- The first session with the id is taken out.
unfoldable pub without_paused : String → List (ℕ × String) → List (ℕ × String)
without_paused id [] = []
without_paused id ((session, other) ∷ paused) =
    let rest = without_paused id paused in if other == id then paused else (session, other) ∷ rest

unfoldable pub remove_channel : Bool → String → Option String → ℕ → AgentLink → AgentLink
remove_channel fits id reason now l =
    if includes l.channels id
    then (send_message fits (device_session_close id reason) (
        touch_device now (record l {
          channels = without_channel id l.channels;
          paused_channels = without_paused id l.paused_channels;
        }))).1
    else l

abbrev pub or_default : ℕ → ℕ → ℕ
or_default default n = if n === 0 then default else n

unfoldable pub open_channel : Bool → String → ℕ → ℕ → ℕ → AgentLink → AgentLink
open_channel fits id cols rows now l =
    let l' = remove_channel fits id (some "Superseded by a new attachment") now l in
    if same_link_state l.state ready
    then (send_message fits (device_session_open id (or_default 80 cols) (or_default 24 rows))
        (touch_device now (record l' { channels = l'.channels ++ id ∷ [] }))).1
    else note (refuses_channel id) l

abbrev pub given_reason : Option String → Option String
given_reason none = some "Agent closed the connection"
given_reason (some reason) =
    if truthy reason then some reason else some "Agent closed the connection"

unfoldable pub handle_client_message :
    LinkConfig → Scrypt → DeviceClientMessage → ℕ → AgentLink → AgentLink
handle_client_message cfg scrypt (device_register id secret token) now l =
    authenticate cfg scrypt true id secret token now l
handle_client_message cfg scrypt (device_auth id secret) now l =
    authenticate cfg scrypt false id secret none now l
handle_client_message cfg scrypt agent_ping now l =
    if same_link_state l.state ready then raw_send device_pong (touch_device now l) else l
handle_client_message cfg scrypt (device_session_output id payload) now l =
    let l' = touch_device now l in
    if same_link_state l.state ready
    then if includes l.channels id then note (channel_output id payload) l' else l'
    else l
handle_client_message cfg scrypt (device_session_failed id reason) now l =
    if same_link_state l.state ready
    then if includes l.channels id then note (channel_failed id reason) l else l
    else l
handle_client_message cfg scrypt (device_session_exited id) now l =
    if same_link_state l.state ready
    then if includes l.channels id then note (channel_exited id) l else l
    else l
handle_client_message cfg scrypt (agent_goodbye reason) now l =
    terminate_link (given_reason reason) now l

abbrev pub waits : ℕ → List (ℕ × String) → Bool
waits session [] = false
waits session ((other, id) ∷ paused) = session === other || waits session paused

-- `notePaused`, with `ensureDrainer`.
unfoldable pub note_paused : ℕ → String → AgentLink → AgentLink
note_paused session id l =
    let all = l.paused_channels ++ (session, id) ∷ [] in
    record l {
      paused_channels = if waits session l.paused_channels then l.paused_channels else all;
      draining = true;
    }

-- Each session is flushed, and stays if it has input left; what it sends is an event of its own.
unfoldable pub flush_each : (ℕ → Bool) → List (ℕ × String) → AgentLink → AgentLink
flush_each left [] l = l
flush_each left ((session, id) ∷ paused) l =
    let l' = note (flushes_channel session) l in
    let kept = record l' { paused_channels = l'.paused_channels ++ (session, id) ∷ [] } in
    flush_each left paused (if left session then kept else l')

abbrev pub is_empty : List (ℕ × String) → Bool
is_empty [] = true
is_empty (p ∷ paused) = false

-- A tick of the drainer; `low` is whether the socket's buffer is at most at the low-water mark.
unfoldable pub on_drain_tick : Bool → (ℕ → Bool) → AgentLink → AgentLink
on_drain_tick low left l =
    let l' = flush_each left l.paused_channels (record l { paused_channels = [] }) in
    if not l.draining
    then l
    else if not (same_link_state l.state ready && l.ws_open)
    then record l { draining = false }
    else if low
    then record l' { draining = not (is_empty l'.paused_channels) }
    else l

pub data LinkEvent : Type 0 where
  message_arrives : (m : DeviceClientMessage) (now : ℕ) → LinkEvent
  invalid_arrives : (error : String) (now : ℕ) → LinkEvent  -- binary, or refused by the parser
  store_answers : (i place : ℕ) (salt : Bytes) (now : ℕ) → LinkEvent
  channel_opens : (fits : Bool) (id : String) (cols rows now : ℕ) → LinkEvent
  channel_closes : (fits : Bool) (id : String) (reason : Option String) (now : ℕ) → LinkEvent
  auth_times_out idle_times_out socket_closes : (now : ℕ) → LinkEvent
  channel_sends : (fits : Bool) (m : DeviceServerMessage) → LinkEvent
  channel_pauses : (session : ℕ) (id : String) → LinkEvent
  drain_is_due : (low : Bool) (left : ℕ → Bool) → LinkEvent
  link_ends : (reason : Option String) (now : ℕ) → LinkEvent

module _ (cfg : LinkConfig) (scrypt : Scrypt) where
  unfoldable pub on_message : DeviceClientMessage → ℕ → AgentLink → AgentLink
  on_message m now l =
      if same_link_state l.state closed then l else handle_client_message cfg scrypt m now l

  unfoldable pub step : LinkEvent → AgentLink → AgentLink
  step (message_arrives m now) l = on_message m now l
  step (invalid_arrives error now) l = fail_link error now l
  step (store_answers i place salt now) l = resume scrypt i place salt now l
  step (channel_opens fits id cols rows now) l = open_channel fits id cols rows now l
  step (channel_closes fits id reason now) l = remove_channel fits id reason now l
  step (auth_times_out now) l =
      if same_link_state l.state ready then l else fail_link "Authentication timed out" now l
  step (idle_times_out now) l = terminate_link (some "Idle timeout") now l
  step (socket_closes now) l = on_socket_close now l
  step (channel_sends fits m) l = (send_message fits m l).1
  step (channel_pauses session id) l = note_paused session id l
  step (drain_is_due low left) l = on_drain_tick low left l
  step (link_ends reason now) l = terminate_link reason now l

  unfoldable pub run : List LinkEvent → AgentLink → AgentLink
  run [] l = l
  run (e ∷ events) l = run events (step e l)
