-- ===== src/RelaySession.antt =====
-- relay/src/session.ts: the bridge between a client and its backend, behind `start`. What the
-- bridge calls on the two is recorded in `out`, the latest first; what it reads back from them
-- (whether a socket is full) comes with the event that asks, in a flush for each place of the
-- queue. `units` is JavaScript's length of a string, in UTF-16 code units.
pub mod Order
mod Tests
use termlink.Prelude.{
  ℕ, zero, suc, ◌+◌, ◌*◌, String, Bool, true, false, not, ◌&&◌, ◌||◌, List, [], ◌∷◌, ◌++◌, Option,
  none, some, ltb, length, truthy, if◌then◌else◌,
}
use termlink.Message.{ServerMessage, data_out, binary_out, terminal_output}

pub data RelayPayload : Type 0 where
  relay_data relay_binary relay_input : (payload : String) → RelayPayload
  relay_resize : (cols rows : ℕ) → RelayPayload

-- A call on the backend, on the client, or the report to the relay.
pub data RelayOut : Type 0 where
  sends : RelayPayload → RelayOut
  forwards : ServerMessage → RelayOut
  pauses_client resumes_client pauses_backend resumes_backend : RelayOut
  destroys_backend reports_closed : RelayOut
  terminates_client : (reason : String) → RelayOut

pub record RelaySession : Type 0 where
  pub closed : Bool
  pub backend_ready : Bool
  pub pre_ready_queue : List RelayPayload
  pub pre_ready_bytes : ℕ
  pub client_paused_for_backend : Bool
  pub backend_paused_for_client : Bool
  pub out : List RelayOut

-- The session once `start` has made its backend.
abbrev pub started : RelaySession
started = record {
  closed = false;
  backend_ready = false;
  pre_ready_queue = [];
  pre_ready_bytes = 0;
  client_paused_for_backend = false;
  backend_paused_for_client = false;
  out = [];
}

abbrev pub max_pre_ready_frames : ℕ
max_pre_ready_frames = 1024

abbrev pub max_pre_ready_bytes : ℕ
max_pre_ready_bytes = 16 * 1024 * 1024

abbrev pub emit_relay : RelayOut → RelaySession → RelaySession
emit_relay o s = record s { out = o ∷ s.out }

unfoldable pub on_client_drained : RelaySession → RelaySession
on_client_drained s =
    if s.backend_paused_for_client
    then emit_relay resumes_backend (record s { backend_paused_for_client = false })
    else s

unfoldable pub terminate_relay : String → RelaySession → RelaySession
terminate_relay reason s = if s.closed then s else record s {
  closed = true;
  out = reports_closed ∷ terminates_client reason ∷ destroys_backend ∷ s.out;
}

-- `terminate(reason)`
abbrev pub reason_given : Option String → String
reason_given none = "Relay session closed"
reason_given (some reason) = reason

unfoldable pub forward_to_backend : Bool → RelayPayload → RelaySession → RelaySession
forward_to_backend pressured m s =
    let sent = emit_relay (sends m) s in
    if pressured && not s.client_paused_for_backend
    then emit_relay pauses_client (record sent { client_paused_for_backend = true })
    else sent

-- The loop of `flushPreReady`; `pressure` is whether the backend is full behind each message.
unfoldable pub flush_from : (ℕ → Bool) → ℕ → List RelayPayload → RelaySession → RelaySession
flush_from pressure i [] s = s
flush_from pressure i (m ∷ queue) s =
    let s' = flush_from pressure (suc i) queue (forward_to_backend (pressure i) m s) in
    if s.closed then s else s'

unfoldable pub flush_pre_ready : (ℕ → Bool) → RelaySession → RelaySession
flush_pre_ready pressure s =
    flush_from pressure 0 s.pre_ready_queue (record s { pre_ready_queue = []; pre_ready_bytes = 0 })

unfoldable pub forward_to_client : Bool → ServerMessage → RelaySession → RelaySession
forward_to_client ok m s =
    let sent = emit_relay (forwards m) s in
    if s.closed
    then s
    else if not ok && not s.backend_paused_for_client
    then emit_relay pauses_backend (record sent { backend_paused_for_client = true })
    else sent

pub data TransportEvent : Type 0 where
  backend_readies : (pressure : ℕ → Bool) → TransportEvent
  backend_data backend_binary backend_output : (payload : String) (ok : Bool) → TransportEvent
  backend_drains backend_auth_fails backend_disconnects backend_reconnect_fails : TransportEvent
  backend_goodbye : (reason : Option String) → TransportEvent

abbrev pub goodbye_reason : Option String → String
goodbye_reason none = "Backend closed the connection"
goodbye_reason (some reason) = if truthy reason then reason else "Backend closed the connection"

unfoldable pub on_open_backend_event : TransportEvent → RelaySession → RelaySession
on_open_backend_event (backend_readies pressure) s =
    flush_pre_ready pressure (record s { backend_ready = true })
on_open_backend_event (backend_data payload ok) s = forward_to_client ok (data_out payload) s
on_open_backend_event (backend_binary payload ok) s = forward_to_client ok (binary_out payload) s
on_open_backend_event (backend_output payload ok) s =
    forward_to_client ok (terminal_output payload) s
on_open_backend_event backend_drains s =
    if s.client_paused_for_backend
    then emit_relay resumes_client (record s { client_paused_for_backend = false })
    else s
on_open_backend_event backend_auth_fails s = terminate_relay "Backend authentication failed" s
on_open_backend_event backend_disconnects s =
    if s.backend_ready then terminate_relay "Backend connection lost" s else s
on_open_backend_event backend_reconnect_fails s =
    if s.backend_ready then s else terminate_relay "Backend connection failed" s
on_open_backend_event (backend_goodbye reason) s = terminate_relay (goodbye_reason reason) s

unfoldable pub on_backend_event : TransportEvent → RelaySession → RelaySession
unfolding on_open_backend_event
on_backend_event e s = if s.closed then s else on_open_backend_event e s

pub data RelayEvent : Type 0 where
  client_sends : (m : RelayPayload) (pressured : Bool) → RelayEvent
  client_drains : RelayEvent
  client_terminates : (reason : Option String) → RelayEvent
  backend_event : TransportEvent → RelayEvent

module _ (units : String → ℕ) where
  abbrev pub estimate_payload_bytes : RelayPayload → ℕ
  estimate_payload_bytes (relay_data payload) = units payload
  estimate_payload_bytes (relay_binary payload) = units payload
  estimate_payload_bytes (relay_input payload) = units payload
  estimate_payload_bytes (relay_resize cols rows) = 32

  unfoldable pub buffer_pre_ready : RelayPayload → RelaySession → RelaySession
  buffer_pre_ready m s =
      let s' = record s {
        pre_ready_queue = s.pre_ready_queue ++ m ∷ [];
        pre_ready_bytes = s.pre_ready_bytes + estimate_payload_bytes m;
      } in
      if ltb max_pre_ready_frames (length s'.pre_ready_queue)
        || ltb max_pre_ready_bytes s'.pre_ready_bytes
      then terminate_relay "Client sent too much data before backend was ready" s'
      else s'

  -- `onClientData` and its three kin.
  unfoldable pub on_client_message : Bool → RelayPayload → RelaySession → RelaySession
  on_client_message pressured m s =
      if s.closed
      then s
      else if s.backend_ready
      then forward_to_backend pressured m s
      else buffer_pre_ready m s

  unfoldable pub step : RelayEvent → RelaySession → RelaySession
  step (client_sends m pressured) s = on_client_message pressured m s
  step client_drains s = on_client_drained s
  step (client_terminates reason) s = terminate_relay (reason_given reason) s
  step (backend_event e) s = on_backend_event e s

  unfoldable pub run : List RelayEvent → RelaySession → RelaySession
  run [] s = s
  run (e ∷ events) s = run events (step e s)
