-- ===== src/RelayClient.antt =====
-- agent/src/relay-client.ts: the persistent connection of a device agent to the relay. Sockets are
-- numbered as they are made, since the handlers of an old one stay attached; `ws` is the one that
-- the client keeps. What it calls on its sockets and on its owner is recorded in `out`, the latest
-- first. Whether the socket is open, and its `bufferedAmount`, come with the event that reads them;
-- `size` is the length of a message's text in bytes. The delay of a reconnect is not modelled.
pub mod Events
pub mod Life
pub mod Faults
mod Tests
use termlink.Prelude.{
  ℕ, zero, suc, ◌+◌, String, Bool, true, false, not, ◌&&◌, ◌||◌, List, [], ◌∷◌, ◌++◌, Option, none,
  some, ltb, ◌==◌, truthy, if◌then◌else◌, length, ◌===◌,
}
use termlink.DeviceProtocol.{
  DeviceClientMessage, device_register, device_auth, agent_ping, agent_goodbye, DeviceServerMessage,
  device_ok, device_err, device_pong, relay_goodbye,
}

pub data Stage : Type 0 where
  closed auth register ready : Stage

abbrev pub same_stage : Stage → Stage → Bool
same_stage closed closed = true
same_stage auth auth = true
same_stage register register = true
same_stage ready ready = true
same_stage _ _ = false

-- `RelayClientState`
pub data ClientState : Type 0 where
  is_closed is_connecting is_auth is_ready : ClientState

pub record AgentConfig : Type 0 where
  pub device_id : String
  pub enrollment_token : Option String
  pub send_high_water_mark : ℕ
  pub send_low_water_mark : ℕ

pub data ClientOut : Type 0 where
  opens : (socket : ℕ) → ClientOut
  sends : (socket : ℕ) (m : DeviceClientMessage) → ClientOut
  closes : (socket : ℕ) (reason : String) → ClientOut
  changes : ClientState → ClientOut
  hands : DeviceServerMessage → ClientOut
  fails : (reason : String) → ClientOut

pub record RelayClient : Type 0 where
  pub ws : Option ℕ
  pub made : ℕ
  pub stage : Stage
  pub secret : String
  pub stop_requested : Bool
  pub permanent : Option String
  pub reconnect_attempts : ℕ
  pub reconnect_timer : Bool
  pub ping_timer : Bool
  pub auth_timer : Bool
  pub idle_timer : Bool
  pub drain_timer : Bool
  pub pending_send : List DeviceClientMessage
  pub pending_send_bytes : ℕ
  pub out : List ClientOut

unfoldable pub new_client : String → RelayClient
new_client secret = record {
  ws = none;
  made = 0;
  stage = closed;
  secret = secret;
  stop_requested = false;
  permanent = none;
  reconnect_attempts = 0;
  reconnect_timer = false;
  ping_timer = false;
  auth_timer = false;
  idle_timer = false;
  drain_timer = false;
  pending_send = [];
  pending_send_bytes = 0;
  out = [];
}

abbrev pub emit : ClientOut → RelayClient → RelayClient
emit o c = record c { out = o ∷ c.out }

abbrev pub is_given : Option String → Bool
is_given none = false
is_given (some reason) = true

-- The client will not connect again by itself.
abbrev pub given_up : RelayClient → Bool
given_up c = c.stop_requested || is_given c.permanent

unfoldable pub clear_timers : RelayClient → RelayClient
clear_timers c = record c {
  auth_timer = false;
  idle_timer = false;
  ping_timer = false;
  drain_timer = false;
}

unfoldable pub schedule_reconnect : RelayClient → RelayClient
schedule_reconnect c =
    if given_up c || c.reconnect_timer
    then c
    else emit (changes is_closed)
        (record c { reconnect_attempts = c.reconnect_attempts + 1; reconnect_timer = true })

-- `created` is whether the constructor of the socket does not throw.
unfoldable pub connect : Bool → RelayClient → RelayClient
unfolding schedule_reconnect
connect created c =
    let begun = emit (changes is_connecting) c in
    if given_up c
    then c
    else if created
    then emit (opens c.made) (record begun {
      ws = some c.made;
      made = c.made + 1;
      stage = auth;
      auth_timer = true;
      idle_timer = true;
    })
    else schedule_reconnect begun

unfoldable pub start : Bool → RelayClient → RelayClient
start created c = connect created (record c { stop_requested = false })

-- `this.ws?.close(…)`
abbrev pub close_ws : String → RelayClient → RelayClient
close_ws reason c = elim c.ws [ none ↦ c | some n ↦ emit (closes n reason) c ]

-- `rawSend`; `open_` is whether the socket is open.
unfoldable pub raw_send : Bool → DeviceClientMessage → RelayClient → RelayClient
raw_send open_ m c = elim c.ws [ none ↦ c | some n ↦ if open_ then emit (sends n m) c else c ]

unfoldable pub stop : Bool → RelayClient → RelayClient
unfolding clear_timers raw_send
stop open_ c =
    let told =
      raw_send open_ (agent_goodbye (some "Agent shutting down"))
        (clear_timers (record c { stop_requested = true })) in
    let shut = close_ws "agent stop" told in
    if c.stop_requested
    then c
    else emit (changes is_closed)
        (record shut { stage = closed; pending_send = []; pending_send_bytes = 0; ws = none })

unfoldable pub on_fatal : String → RelayClient → RelayClient
unfolding clear_timers
on_fatal reason c =
    let shut = close_ws "" (clear_timers (record c { permanent = some reason })) in
    if is_given c.permanent
    then c
    else emit (fails reason) (emit (changes is_closed) (record shut { ws = none; stage = closed }))

-- A message for the relay: sent, or held where the socket's buffer is too full.
unfoldable pub send :
    AgentConfig
    → (DeviceClientMessage → ℕ)
    → Bool
    → ℕ
    → DeviceClientMessage
    → RelayClient
    → RelayClient
send cfg size open_ buffered m c =
    let lost = schedule_reconnect (record c { stage = closed }) in
    let held = record c {
      pending_send = c.pending_send ++ m ∷ [];
      pending_send_bytes = c.pending_send_bytes + size m;
      drain_timer = true;
    } in
    if same_stage c.stage ready
    then elim c.ws [
      | none ↦ lost
      | some n ↦
          if open_
          then (if ltb cfg.send_high_water_mark (buffered + size m)
              then held
              else emit (sends n m) c)
          else lost
    ]
    else c

-- The loop of the drainer; `buffered` tells the socket's `bufferedAmount` in each round.
unfoldable pub drain_from :
    AgentConfig
    → (DeviceClientMessage → ℕ)
    → (ℕ → ℕ)
    → ℕ
    → (socket : ℕ) → List DeviceClientMessage
    → RelayClient
    → RelayClient
drain_from cfg size buffered i n [] c = record c { pending_send = []; drain_timer = false }
drain_from cfg size buffered i n (m ∷ queue) c =
    let rest = drain_from cfg size buffered (suc i) n queue (emit (sends n m) c) in
    if ltb cfg.send_low_water_mark (buffered i + size m)
    then record c { pending_send = m ∷ queue }
    else rest

-- A tick of the drainer, while its timer is set. `before` is the `bufferedAmount` at its start.
unfoldable pub on_drain_tick :
    AgentConfig → (DeviceClientMessage → ℕ) → Bool → ℕ → (ℕ → ℕ) → RelayClient → RelayClient
unfolding drain_from
on_drain_tick cfg size open_ before buffered c =
    let stopped = record c { drain_timer = false } in
    if c.drain_timer
    then elim c.ws [
      | none ↦ stopped
      | some n ↦
          if same_stage c.stage ready && open_
          then (if ltb cfg.send_low_water_mark before
              then c
              else drain_from cfg size buffered 0 n c.pending_send c)
          else stopped
    ]
    else c
