-- ===== src/AgentSession.antt =====
-- relay/src/agent-session.ts: one terminal channel between a browser and a device agent. `out`
-- holds the calls that the session makes on the agent's link and on the browser's half, the
-- latest first; of those that may be refused (`link.send`, `half.forward`) only the accepted
-- ones. The answers come with the event that asks, in a flush for each place of the queue.
-- `units` is JavaScript's length of a string, in UTF-16 code units.
pub mod Queues
mod Tests
use termlink.Prelude.{
  ℕ, zero, suc, ◌+◌, ◌*◌, ◌-◌, String, Bool, true, false, not, ◌&&◌, ◌||◌, List, [], ◌∷◌, ◌++◌,
  Option, none, some, ltb, length, if◌then◌else◌,
}

pub data AgentOut : Type 0 where
  sends_input : (payload : String) → AgentOut
  sends_resize : (cols rows : ℕ) → AgentOut
  delivers_output : (payload : String) → AgentOut
  opens_channel : (cols rows : ℕ) → AgentOut
  removes_channel : (reason : Option String) → AgentOut
  terminates_half : (reason : String) → AgentOut
  fails_half : (reason : String) → AgentOut  -- "Device session failed: …"
  notes_paused : AgentOut

pub record AgentSession : Type 0 where
  pub closed : Bool
  pub ended_by_agent : Bool
  pub output_queue : List String
  pub output_bytes : ℕ
  pub client_pressured : Bool
  pub input_queue : List String
  pub input_bytes : ℕ
  pub out : List AgentOut

abbrev pub new_agent_session : AgentSession
new_agent_session = record {
  closed = false;
  ended_by_agent = false;
  output_queue = [];
  output_bytes = 0;
  client_pressured = false;
  input_queue = [];
  input_bytes = 0;
  out = [];
}

abbrev pub max_queued_frames : ℕ
max_queued_frames = 2048

abbrev pub max_queued_bytes : ℕ
max_queued_bytes = 16 * 1024 * 1024

abbrev pub tell : AgentOut → AgentSession → AgentSession
tell o s = record s { out = o ∷ s.out }

unfoldable pub attach_channel : AgentSession → AgentSession
attach_channel s = if s.closed then s else tell (opens_channel 80 24) s

-- `onClientData` and `onClientBinary`
unfoldable pub on_client_data : AgentSession → AgentSession
on_client_data s = tell (terminates_half "Agent device sessions are terminal-only") s

unfoldable pub on_client_terminal_resize : Bool → ℕ → ℕ → AgentSession → AgentSession
on_client_terminal_resize ok cols rows s =
    if s.closed then s else if ok then tell (sends_resize cols rows) s else s

unfoldable pub on_failed : String → AgentSession → AgentSession
on_failed reason s =
    if s.ended_by_agent
    then s
    else tell (fails_half reason) (tell (removes_channel none) (record s { ended_by_agent = true }))

unfoldable pub on_exited : AgentSession → AgentSession
on_exited s =
    if s.ended_by_agent
    then s
    else tell (terminates_half "Terminal session ended")
        (tell (removes_channel none) (record s { ended_by_agent = true }))

unfoldable pub on_link_gone : String → AgentSession → AgentSession
on_link_gone reason s =
    if s.closed then s else tell (terminates_half reason) (record s { closed = true })

abbrev pub session_reason : Option String → String
session_reason none = "Session closed"
session_reason (some reason) = reason

unfoldable pub terminate_agent : Option String → AgentSession → AgentSession
terminate_agent reason s =
    if s.closed
    then s
    else if s.ended_by_agent
    then record s { closed = true }
    else tell (removes_channel (some (session_reason reason))) (record s { closed = true })

abbrev pub has_paused_input : AgentSession → Bool
has_paused_input s = ltb 0 (length s.input_queue)

pub data AgentEvent : Type 0 where
  attaches gets_client_data exits : AgentEvent
  gets_input gets_output : (ok : Bool) (payload : String) → AgentEvent
  gets_resize : (ok : Bool) (cols rows : ℕ) → AgentEvent
  client_drains link_drains : (accepts : ℕ → Bool) → AgentEvent
  fails link_goes : (reason : String) → AgentEvent
  ends : (reason : Option String) → AgentEvent

module _ (units : String → ℕ) where
  unfoldable pub buffer_input : String → AgentSession → AgentSession
  buffer_input payload s =
      let s' = record s {
        input_queue = s.input_queue ++ payload ∷ [];
        input_bytes = s.input_bytes + units payload;
      } in
      if ltb max_queued_frames (length s'.input_queue) || ltb max_queued_bytes s'.input_bytes
      then tell (terminates_half "Client sent too much data while the device was busy") s'
      else tell notes_paused s'

  unfoldable pub on_client_terminal_input : Bool → String → AgentSession → AgentSession
  on_client_terminal_input ok payload s =
      if s.closed then s else if ok then tell (sends_input payload) s else buffer_input payload s

  unfoldable pub buffer_output : String → AgentSession → AgentSession
  buffer_output payload s =
      let s' = record s {
        client_pressured = true;
        output_queue = s.output_queue ++ payload ∷ [];
        output_bytes = s.output_bytes + units payload;
      } in
      if ltb max_queued_frames (length s'.output_queue) || ltb max_queued_bytes s'.output_bytes
      then tell (terminates_half "Device output exceeded buffered capacity") s'
      else s'

  unfoldable pub deliver_output : Bool → String → AgentSession → AgentSession
  deliver_output ok payload s =
      if s.closed
      then s
      else if ok
      then tell (delivers_output payload) s
      else buffer_output payload s

  -- The loop of `onClientDrained`, over the queue as it stands: the first refusal ends it.
  unfoldable pub flush_output : (ℕ → Bool) → ℕ → List String → AgentSession → AgentSession
  flush_output accepts i [] s = record s { output_queue = []; client_pressured = false }
  flush_output accepts i (next ∷ queue) s =
      let rest =
        flush_output accepts (suc i) queue
          (tell (delivers_output next) (record s { output_bytes = s.output_bytes - units next })) in
      if accepts i then rest else record s { output_queue = next ∷ queue }

  unfoldable pub on_client_drained : (ℕ → Bool) → AgentSession → AgentSession
  unfolding flush_output
  on_client_drained accepts s =
      if not s.client_pressured || s.closed then s else flush_output accepts 0 s.output_queue s

  -- The loop of `flushInput`.
  unfoldable pub flush_input_from : (ℕ → Bool) → ℕ → List String → AgentSession → AgentSession
  flush_input_from accepts i [] s = record s { input_queue = [] }
  flush_input_from accepts i (next ∷ queue) s =
      let rest =
        flush_input_from accepts (suc i) queue
          (tell (sends_input next) (record s { input_bytes = s.input_bytes - units next })) in
      if accepts i then rest else record s { input_queue = next ∷ queue }

  unfoldable pub flush_input : (ℕ → Bool) → AgentSession → AgentSession
  unfolding flush_input_from
  flush_input accepts s = if s.closed then s else flush_input_from accepts 0 s.input_queue s

  unfoldable pub step : AgentEvent → AgentSession → AgentSession
  step attaches s = attach_channel s
  step gets_client_data s = on_client_data s
  step exits s = on_exited s
  step (gets_input ok payload) s = on_client_terminal_input ok payload s
  step (gets_output ok payload) s = deliver_output ok payload s
  step (gets_resize ok cols rows) s = on_client_terminal_resize ok cols rows s
  step (client_drains accepts) s = on_client_drained accepts s
  step (link_drains accepts) s = flush_input accepts s
  step (fails reason) s = on_failed reason s
  step (link_goes reason) s = on_link_gone reason s
  step (ends reason) s = terminate_agent reason s

  unfoldable pub run : List AgentEvent → AgentSession → AgentSession
  run [] s = s
  run (e ∷ events) s = run events (step e s)
