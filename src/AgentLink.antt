-- ===== src/AgentLink.antt =====
-- relay/src/agent-link.ts: the connection of one device agent, with the device store and the rate
-- limiter that it shares. Its calls on the socket, on its channels and on the relay are recorded
-- in `out`, the latest first. `authenticate` is split at its awaits: what it found before one
-- waits in `pending`. Sessions that wait for the drainer are told
-- apart by a number. Whether a message fits the socket's buffer comes with the call that sends it.
pub mod Messages
pub mod Goes
pub mod Calm
pub mod Lifetime
mod Tests
use termlink.Prelude.{
  ℕ, zero, suc, ◌+◌, ◌*◌, String, Bool, true, false, not, ◌&&◌, ◌||◌, List, [], ◌∷◌, ◌++◌, Option,
  none, some, ltb, leb, truthy, ◌===◌, get_elem?, includes, if◌then◌else◌, ◌==◌,
}
use termlink.Credentials.{Scrypt, Bytes}
use termlink.RateLimit.{AuthRateLimiter, try_acquire}
use termlink.DeviceProtocol.{
  DeviceClientMessage, device_register, device_auth, device_session_output, device_session_failed,
  device_session_exited, agent_ping, agent_goodbye, DeviceServerMessage, device_ok, device_err,
  device_session_open, device_session_close, device_pong, relay_goodbye, Enrollment, registered,
  authenticated,
}
use termlink.DeviceStore
use termlink.DeviceStore.{DeviceStore, DeviceConfig, TargetType, shell, android, remove_at}

pub data LinkState : Type 0 where
  authenticating ready closed : LinkState

-- What `authenticate` awaits.
pub data Waiting : Type 0 where
  refused : (error : String) → Waiting
  registering : (c : DeviceConfig) → Waiting
  verifying : (c : DeviceConfig) (valid : Bool) → Waiting

pub data LinkOut : Type 0 where
  raw_sends : DeviceServerMessage → LinkOut
  asks_store : LinkOut
  reports_ready : (device_id : String) → LinkOut
  reports_link_closed : LinkOut
  channel_output channel_failed : (session_id payload : String) → LinkOut
  channel_exited : (session_id : String) → LinkOut
  channel_gone : (session_id reason : String) → LinkOut
  refuses_channel : (session_id : String) → LinkOut
  flushes_channel : (session : ℕ) → LinkOut

pub record LinkConfig : Type 0 where
  pub remote_address : Option String
  pub max_attempts : ℕ
  pub backoff_ms : ℕ

pub record AgentLink : Type 0 where
  pub connection_id : String
  pub state : LinkState
  pub device_id : Option String
  pub channels : List String
  pub attempts : ℕ
  pub locked_until : ℕ
  pub ws_open : Bool
  pub pending : List Waiting
  pub store : DeviceStore
  pub limiter : Option AuthRateLimiter
  pub paused_channels : List (ℕ × String)
  pub draining : Bool
  pub out : List LinkOut

unfoldable pub new_link : String → DeviceStore → Option AuthRateLimiter → AgentLink
new_link connection_id store limiter = record {
  connection_id = connection_id;
  state = authenticating;
  device_id = none;
  channels = [];
  attempts = 0;
  locked_until = 0;
  ws_open = true;
  pending = [];
  store = store;
  limiter = limiter;
  paused_channels = [];
  draining = false;
  out = [];
}

abbrev pub note : LinkOut → AgentLink → AgentLink
note o l = record l { out = o ∷ l.out }

abbrev pub raw_send : DeviceServerMessage → AgentLink → AgentLink
raw_send m l = if l.ws_open then note (raw_sends m) l else l

abbrev pub same_link_state : LinkState → LinkState → Bool
same_link_state authenticating authenticating = true
same_link_state ready ready = true
same_link_state closed closed = true
same_link_state _ _ = false

-- `send`: refused unless the link is ready, open, and the message fits its buffer.
unfoldable pub send_message : Bool → DeviceServerMessage → AgentLink → Bool × AgentLink
send_message fits m l =
    if same_link_state l.state ready && (l.ws_open && fits)
    then (true, note (raw_sends m) l)
    else (false, l)

abbrev pub tell_channels : String → List String → List LinkOut → List LinkOut
tell_channels reason [] out = out
tell_channels reason (id ∷ ids) out = tell_channels reason ids (channel_gone id reason ∷ out)

unfoldable pub teardown : String → ℕ → AgentLink → AgentLink
teardown reason now l = record l {
  paused_channels = [];
  channels = [];
  store = DeviceStore.set_offline l.connection_id now l.store;
  out = reports_link_closed ∷ tell_channels reason l.channels l.out;
}

abbrev pub closing_reason : Option String → String
closing_reason none = "closed by relay"
closing_reason (some reason) = reason

unfoldable pub terminate_link : Option String → ℕ → AgentLink → AgentLink
terminate_link reason now l =
    if same_link_state l.state closed
    then l
    else teardown (closing_reason reason) now
        (raw_send (relay_goodbye reason) (record l { state = closed; draining = false }))

unfoldable pub on_socket_close : ℕ → AgentLink → AgentLink
on_socket_close now l =
    let gone = record l { ws_open = false } in
    if same_link_state l.state closed
    then gone
    else teardown "Device connection closed" now (record gone { state = closed; draining = false })

unfoldable pub fail_link : String → ℕ → AgentLink → AgentLink
fail_link error now l =
    if same_link_state l.state closed
    then l
    else terminate_link (some error) now (raw_send (device_err error) l)

-- `authenticate` behind the throttle, up to its `await`.
unfoldable pub ask_store :
    Scrypt → Bool → String → String → Option String → ℕ → AgentLink → AgentLink
ask_store scrypt register id secret token now l = elim (DeviceStore.config l.store id) [
  | none ↦ fail_link "Unknown device id" now l
  | some c ↦
      let (refusal, store) = DeviceStore.register id secret token l.store in
      let entry : Waiting = elim refusal [ none ↦ registering c | some error ↦ refused error ] in
      let known : Waiting = verifying c (DeviceStore.verify scrypt id secret l.store) in
      if register
      then note asks_store (record l { store = store; pending = l.pending ++ entry ∷ [] })
      else if DeviceStore.is_registered l.store id
      then note asks_store (record l { pending = l.pending ++ known ∷ [] })
      else raw_send (device_err "Device not enrolled") l
]

unfoldable pub throttle_link :
    LinkConfig → Scrypt → Bool → String → String → Option String → ℕ → AgentLink → AgentLink
throttle_link cfg scrypt register id secret token now l =
    if ltb now l.locked_until
    then fail_link "Too many attempts; try again later" now l
    else if leb cfg.max_attempts l.attempts
    then fail_link "Too many failed attempts" now
        (record l { locked_until = now + cfg.backoff_ms * l.attempts })
    else ask_store scrypt register id secret token now (record l { attempts = l.attempts + 1 })

abbrev pub link_limited :
    LinkConfig
    → Scrypt
    → Bool
    → String
    → String
    → Option String
    → ℕ
    → AgentLink
    → Bool × AuthRateLimiter
    → AgentLink
link_limited cfg scrypt register id secret token now l (true, m) =
    throttle_link cfg scrypt register id secret token now (record l { limiter = some m })
link_limited cfg scrypt register id secret token now l (false, m) =
    fail_link "Too many authentication attempts; try again later" now
      (record l { limiter = some m })

unfoldable pub authenticate :
    LinkConfig → Scrypt → Bool → String → String → Option String → ℕ → AgentLink → AgentLink
authenticate cfg scrypt register id secret token now l =
    if same_link_state l.state authenticating
    then elim l.limiter [
      | none ↦ throttle_link cfg scrypt register id secret token now l
      | some m ↦
          link_limited cfg scrypt register id secret token now l
            (try_acquire cfg.remote_address now m)
    ]
    else fail_link "Already authenticated" now l

abbrev pub target_text : TargetType → String
target_text shell = "shell"
target_text android = "android"

-- `authenticate` behind its `await`, where the store has accepted the agent.
unfoldable pub go_ready : Enrollment → DeviceConfig → ℕ → AgentLink → AgentLink
go_ready mode c now l =
    if same_link_state l.state closed
    then l
    else note (reports_ready c.id) (
        raw_send (device_ok c.id c.name (target_text c.target) mode) (record l {
          state = ready;
          device_id = some c.id;
          store = DeviceStore.set_online c.id l.connection_id now l.store;
        }))

abbrev pub warned : DeviceConfig → DeviceStore → DeviceStore
warned c s = elim (DeviceStore.enrollment_token s c.id) [
  | none ↦ (DeviceStore.mark_open_enrollment_warned c.id s).1
  | some token ↦ s
]

-- The wait ends; `place` is that of the registration in the store's list of those that wait.
unfoldable pub settle : Scrypt → ℕ → Bytes → ℕ → Waiting → AgentLink → AgentLink
settle scrypt place salt now (refused error) l = fail_link error now l
settle scrypt place salt now (verifying c valid) l =
    if valid then go_ready authenticated c now l else fail_link "Invalid device secret" now l
settle scrypt place salt now (registering c) l =
    go_ready registered c now
      (record l { store = warned c (DeviceStore.finish_register scrypt place salt now l.store) })

unfoldable pub resume : Scrypt → ℕ → ℕ → Bytes → ℕ → AgentLink → AgentLink
resume scrypt i place salt now l = elim (get_elem? l.pending i) [
  | none ↦ l
  | some w ↦ settle scrypt place salt now w (record l { pending = remove_at l.pending i })
]
