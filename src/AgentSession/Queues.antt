-- ===== src/AgentSession/Queues.antt =====
-- What becomes of the input of the browser and of the output of the device.
use termlink.Prelude.{
  ℕ, suc, ◌+◌, ◌≡◌, sym, ◌∙◌, ◌-◌, String, Bool, true, false, List, [], ◌∷◌, ◌++◌, append_assoc,
  append-nil, arith, if◌then◌else◌, ◌==◌,
}
use termlink.AgentSession.{
  AgentOut, sends_input, delivers_output, AgentSession, new_agent_session, attach_channel,
  on_client_data, on_client_terminal_resize, on_failed, on_exited, on_link_gone, terminate_agent,
  buffer_input, on_client_terminal_input, buffer_output, deliver_output, flush_output,
  on_client_drained, flush_input_from, flush_input, AgentEvent, gets_input, gets_output,
  client_drains, link_drains, step, run,
}

abbrev pub count : String → List String → ℕ
count p [] = 0
count p (x ∷ xs) = if x == p then suc (count p xs) else count p xs

count-append : (p : String) (xs ys : List String) → count p (xs ++ ys) ≡ count p xs + count p ys
count-append p [] ys = omega arith
count-append p (x ∷ xs) ys = ground (arith, count-append p xs ys)

-- The input that the agent's link took, in order.
abbrev pub sent_inputs : List AgentOut → List String
sent_inputs [] = []
sent_inputs (sends_input payload ∷ out) = sent_inputs out ++ payload ∷ []
sent_inputs (_ ∷ out) = sent_inputs out

-- The output that the browser's half took, in order.
abbrev pub delivered_outputs : List AgentOut → List String
delivered_outputs [] = []
delivered_outputs (delivers_output payload ∷ out) = delivered_outputs out ++ payload ∷ []
delivered_outputs (_ ∷ out) = delivered_outputs out

-- How often a payload was sent or waits.
abbrev pub inputs_held : String → AgentSession → ℕ
inputs_held p s = count p (sent_inputs s.out) + count p s.input_queue

abbrev pub outputs_held : String → AgentSession → ℕ
outputs_held p s = count p (delivered_outputs s.out) + count p s.output_queue

-- How often an event brings a payload to an open session.
abbrev pub input_brought : String → AgentEvent → AgentSession → ℕ
input_brought p (gets_input ok payload) s = if s.closed then 0 else count p (payload ∷ [])
input_brought p _ s = 0

abbrev pub output_brought : String → AgentEvent → AgentSession → ℕ
output_brought p (gets_output ok payload) s = if s.closed then 0 else count p (payload ∷ [])
output_brought p _ s = 0

module _ (units : String → ℕ) where
  flush_input-held :
      (p : String) (accepts : ℕ → Bool) (i : ℕ) (queue : List String) (s : AgentSession)
      → let s' = flush_input_from units accepts i queue s in
        (inputs_held p s' ≡ count p (sent_inputs s.out) + count p queue)
        × (outputs_held p s' ≡ outputs_held p s)
  unfolding flush_input_from
  flush_input-held p accepts i [] s = ground arith
  flush_input-held p accepts i (next ∷ queue) s =
      let s' = record s {
        input_bytes = s.input_bytes - units next;
        out = sends_input next ∷ s.out;
      } in
      ground (
        arith,
        flush_input-held p accepts (suc i) queue s',
        count-append p (sent_inputs s.out) (next ∷ []),
      )

  flush_output-held :
      (p : String) (accepts : ℕ → Bool) (i : ℕ) (queue : List String) (s : AgentSession)
      → let s' = flush_output units accepts i queue s in
        (outputs_held p s' ≡ count p (delivered_outputs s.out) + count p queue)
        × (inputs_held p s' ≡ inputs_held p s)
  unfolding flush_output
  flush_output-held p accepts i [] s = ground arith
  flush_output-held p accepts i (next ∷ queue) s =
      let s' = record s {
        output_bytes = s.output_bytes - units next;
        out = delivers_output next ∷ s.out;
      } in
      ground (
        arith,
        flush_output-held p accepts (suc i) queue s',
        count-append p (delivered_outputs s.out) (next ∷ []),
      )

  step-held :
      (p : String) (e : AgentEvent) (s : AgentSession)
      → (inputs_held p (step units e s) ≡ inputs_held p s + input_brought p e s)
        × (outputs_held p (step units e s) ≡ outputs_held p s + output_brought p e s)
  unfolding step attach_channel on_client_data on_client_terminal_resize on_failed on_exited
      on_link_gone terminate_agent buffer_input on_client_terminal_input buffer_output
      deliver_output on_client_drained flush_input
  step-held p (gets_input ok payload) s = ground (
    arith,
    count-append p (sent_inputs s.out) (payload ∷ []),
    count-append p s.input_queue (payload ∷ []),
  )
  step-held p (gets_output ok payload) s = ground (
    arith,
    count-append p (delivered_outputs s.out) (payload ∷ []),
    count-append p s.output_queue (payload ∷ []),
  )
  step-held p (client_drains accepts) s =
      ground (arith, flush_output-held p accepts 0 s.output_queue s)
  step-held p (link_drains accepts) s = ground (arith, flush_input-held p accepts 0 s.input_queue s)
  step-held p _ s = ground arith

  abbrev pub inputs_brought : String → List AgentEvent → AgentSession → ℕ
  inputs_brought p [] s = 0
  inputs_brought p (e ∷ events) s = input_brought p e s + inputs_brought p events (step units e s)

  abbrev pub outputs_brought : String → List AgentEvent → AgentSession → ℕ
  outputs_brought p [] s = 0
  outputs_brought p (e ∷ events) s =
      output_brought p e s + outputs_brought p events (step units e s)

  run-held :
      (p : String) (events : List AgentEvent) (s : AgentSession)
      → (inputs_held p (run units events s) ≡ inputs_held p s + inputs_brought p events s)
        × (outputs_held p (run units events s) ≡ outputs_held p s + outputs_brought p events s)
  unfolding run
  run-held p [] s = ground arith
  run-held p (e ∷ events) s = ground (arith, step-held p e s, run-held p events (step units e s))

  -- Every payload that reaches an open session, from the browser or from the device, is passed on
  -- exactly once or still waits, as often as it came: nothing is lost or doubled, whenever the
  -- two sides refuse and drain.
  pub held-run :
      (p : String) (events : List AgentEvent)
      → let s = run units events new_agent_session in
        (inputs_held p s ≡ inputs_brought p events new_agent_session)
        × (outputs_held p s ≡ outputs_brought p events new_agent_session)
  held-run p events = ground (arith, run-held p events new_agent_session)

  flush_input-order :
      (i : ℕ) (queue : List String) (s : AgentSession)
      → sent_inputs (flush_input_from units (λ j. true) i queue s).out ≡ sent_inputs s.out ++ queue
  unfolding flush_input_from
  flush_input-order i [] s = sym (append-nil (sent_inputs s.out))
  flush_input-order i (next ∷ queue) s =
      let s' = record s {
        input_bytes = s.input_bytes - units next;
        out = sends_input next ∷ s.out;
      } in
      flush_input-order (suc i) queue s' ∙ append_assoc (sent_inputs s.out) (next ∷ []) queue

  -- The order is not kept in an open session: input that comes while earlier input still waits, and
  -- that the link takes, is sent ahead of all that waits, when the link then takes that too.
  pub sent_inputs-flush_input :
      (payload : String) (s : AgentSession)
      → s.closed ≡ false
      → sent_inputs
          (flush_input units (λ i. true) (on_client_terminal_input units true payload s)).out
        ≡ sent_inputs s.out ++ payload ∷ s.input_queue
  unfolding flush_input on_client_terminal_input
  sent_inputs-flush_input payload s h =
      let s' = record s { out = sends_input payload ∷ s.out } in
      ground (
        arith,
        flush_input-order 0 s.input_queue s',
        append_assoc (sent_inputs s.out) (payload ∷ []) s.input_queue,
      )
