-- ===== src/RelaySession/Order.antt =====
-- The way of the data from the client to the backend, through the queue of relay/src/session.ts.
use termlink.Prelude.{
  ℕ, suc, ◌+◌, ◌≤◌, ◌≡◌, refl, ◌∙◌, String, Bool, true, false, List, [], ◌∷◌, ◌++◌, length,
  append_assoc, append-nil, arith, if◌then◌else◌,
}
use termlink.RelaySession.{
  RelayPayload, RelayOut, sends, pauses_client, resumes_client, reports_closed, RelaySession,
  started, max_pre_ready_frames, max_pre_ready_bytes, on_client_drained, terminate_relay,
  reason_given, forward_to_backend, flush_from, flush_pre_ready, forward_to_client, TransportEvent,
  backend_readies, on_open_backend_event, on_backend_event, buffer_pre_ready, on_client_message,
  RelayEvent, client_sends, client_drains, client_terminates, backend_event, step, run,
}

-- What the backend was sent, in order.
abbrev pub sent : List RelayOut → List RelayPayload
sent [] = []
sent (sends m ∷ out) = sent out ++ m ∷ []
sent (_ ∷ out) = sent out

abbrev pub reports : List RelayOut → ℕ
reports [] = 0
reports (reports_closed ∷ out) = suc (reports out)
reports (_ ∷ out) = reports out

abbrev pub pauses : List RelayOut → ℕ
pauses [] = 0
pauses (pauses_client ∷ out) = suc (pauses out)
pauses (_ ∷ out) = pauses out

abbrev pub resumes : List RelayOut → ℕ
resumes [] = 0
resumes (resumes_client ∷ out) = suc (resumes out)
resumes (_ ∷ out) = resumes out

abbrev pub one_if : Bool → ℕ
one_if true = 1
one_if false = 0

-- A flush sends the queue, in order, and else only pauses the client.
record Flushed (queue : List RelayPayload) (s s' : RelaySession) : Type 0 where
  all_sent : sent s'.out ≡ sent s.out ++ queue
  queue_kept : s'.pre_ready_queue ≡ s.pre_ready_queue
  bytes_kept : s'.pre_ready_bytes ≡ s.pre_ready_bytes
  closed_kept : s'.closed ≡ s.closed
  ready_kept : s'.backend_ready ≡ s.backend_ready
  reports_kept : reports s'.out ≡ reports s.out
  balanced :
      pauses s'.out + resumes s.out + one_if s.client_paused_for_backend
      ≡ pauses s.out + resumes s'.out + one_if s'.client_paused_for_backend

forward-Flushed :
    (pressured : Bool) (m : RelayPayload) (s : RelaySession)
    → Flushed (m ∷ []) s (forward_to_backend pressured m s)
unfolding forward_to_backend
forward-Flushed pressured m s = ground arith

flush_from-Flushed :
    (pressure : ℕ → Bool) (i : ℕ) (queue : List RelayPayload) (s : RelaySession)
    → s.closed ≡ false
    → Flushed queue s (flush_from pressure i queue s)
unfolding flush_from
flush_from-Flushed pressure i [] s open_ = ground (arith, append-nil (sent s.out))
flush_from-Flushed pressure i (m ∷ queue) s open_ =
    let s1 = forward_to_backend (pressure i) m s in
    let one = forward-Flushed (pressure i) m s in
    let rest = flush_from-Flushed pressure (suc i) queue s1 (one.closed_kept ∙ open_) in
    ground (arith, one, rest, append_assoc (sent s.out) (m ∷ []) queue)

-- The payload that an event brings from the client.
abbrev pub brought : RelayEvent → List RelayPayload
brought (client_sends m pressured) = m ∷ []
brought _ = []

abbrev pub received : List RelayEvent → List RelayPayload
received [] = []
received (e ∷ events) = brought e ++ received events

-- A session that has been given these payloads.
record Relays (given : List RelayPayload) (s : RelaySession) : Type 0 where
  in_order : s.closed ≡ false → sent s.out ++ s.pre_ready_queue ≡ given
  flushed : s.backend_ready ≡ true → s.pre_ready_queue ≡ []
  held_back : s.backend_ready ≡ false → sent s.out ≡ []
  few :
      s.closed ≡ false
      → (length s.pre_ready_queue ≤ max_pre_ready_frames)
        × (s.pre_ready_bytes ≤ max_pre_ready_bytes)
  once : reports s.out ≡ one_if s.closed
  balanced : pauses s.out ≡ resumes s.out + one_if s.client_paused_for_backend

started-Relays : Relays [] started
started-Relays = ground arith

terminate-Relays :
    (given : List RelayPayload) (reason : String) (s : RelaySession)
    → Relays given s
    → Relays given (terminate_relay reason s)
unfolding terminate_relay
terminate-Relays given reason s r = ground (arith, r)

closed-Relays :
    (given more : List RelayPayload) (s : RelaySession)
    → s.closed ≡ true
    → Relays given s
    → Relays more s
closed-Relays given more s h r = ground (arith, r)

backend-Relays :
    (given : List RelayPayload) (e : TransportEvent) (s : RelaySession)
    → Relays given s
    → s.closed ≡ false
    → Relays given (on_open_backend_event e s)
unfolding on_open_backend_event forward_to_client terminate_relay flush_pre_ready
backend-Relays given (backend_readies pressure) s r h =
    let s0 = record s { backend_ready = true; pre_ready_queue = []; pre_ready_bytes = 0 } in
    let f = flush_from-Flushed pressure 0 s.pre_ready_queue s0 h in
    ground (arith, r, f, append-nil (sent s.out ++ s.pre_ready_queue))
backend-Relays given _ s r h = ground (arith, r)

either-Relays :
    (given : List RelayPayload) (b : Bool) (s s' : RelaySession)
    → (b ≡ true → Relays given s)
    → (b ≡ false → Relays given s')
    → Relays given (if b then s else s')
either-Relays given true s s' yes_ no_ = yes_ refl
either-Relays given false s s' yes_ no_ = no_ refl

module _ (units : String → ℕ) where
  buffer-Relays :
      (given : List RelayPayload) (m : RelayPayload) (s : RelaySession)
      → Relays given s
      → s.closed ≡ false
      → s.backend_ready ≡ false
      → Relays (given ++ m ∷ []) (buffer_pre_ready units m s)
  unfolding buffer_pre_ready terminate_relay
  buffer-Relays given m s r h n =
      ground (arith, r, append_assoc (sent s.out) s.pre_ready_queue (m ∷ []))

  client-Relays :
      (given : List RelayPayload) (pressured : Bool) (m : RelayPayload) (s : RelaySession)
      → Relays given s
      → Relays (given ++ m ∷ []) (on_client_message units pressured m s)
  unfolding on_client_message
  client-Relays given pressured m s r =
      let f = forward-Flushed pressured m s in
      let more = given ++ m ∷ [] in
      let forwarded = forward_to_backend pressured m s in
      let buffered = buffer_pre_ready units m s in
      either-Relays more s.closed s (if s.backend_ready then forwarded else buffered)
        (λ shut. closed-Relays given more s shut r)
        (λ open_.
          either-Relays more s.backend_ready forwarded buffered
            (λ ready.
              ground (arith, r, f, append-nil (sent s.out), append-nil (sent s.out ++ m ∷ [])))
            (λ not_ready. buffer-Relays given m s r open_ not_ready))

  step-Relays :
      (given : List RelayPayload) (e : RelayEvent) (s : RelaySession)
      → Relays given s
      → Relays (given ++ brought e) (step units e s)
  unfolding step on_client_drained on_backend_event
  step-Relays given (client_sends m pressured) s r = client-Relays given pressured m s r
  step-Relays given client_drains s r = ground (arith, r, append-nil given)
  step-Relays given (client_terminates reason) s r =
      rw (append-nil given) (terminate-Relays given (reason_given reason) s r)
  step-Relays given (backend_event e) s r = rw (append-nil given) (
      either-Relays given s.closed s (on_open_backend_event e s) (λ shut. r)
        (λ open_. backend-Relays given e s r open_))

  run-Relays :
      (given : List RelayPayload) (events : List RelayEvent) (s : RelaySession)
      → Relays given s
      → Relays (given ++ received events) (run units events s)
  unfolding run
  run-Relays given [] s r = rw (append-nil given) r
  run-Relays given (e ∷ events) s r =
      rw (← append_assoc given (brought e) (received events))
        (run-Relays (given ++ brought e) events (step units e s) (step-Relays given e s r))

  -- While a session that has been started is open, what the backend was sent and what still waits
  -- for it is, in order, exactly what the client has sent: nothing is lost, doubled or reordered.
  pub sent-run :
      (events : List RelayEvent)
      → (run units events started).closed ≡ false
      → sent (run units events started).out ++ (run units events started).pre_ready_queue
        ≡ received events
  sent-run events h = (run-Relays [] events started started-Relays).in_order h

  -- In a session that has been started, nothing goes to the backend before it is ready, and once it
  -- is, nothing waits any more.
  held_back-run :
      (events : List RelayEvent)
      → let s = run units events started in
        (if s.backend_ready then s.pre_ready_queue ≡ [] else sent s.out ≡ [])
  held_back-run events = let r = run-Relays [] events started started-Relays in ground (arith, r)

  -- While a session that has been started is open, the queue for a backend that is not ready stays
  -- within its limits, of messages and of bytes.
  pre_ready_queue-run :
      (events : List RelayEvent)
      → (run units events started).closed ≡ false
      → (length (run units events started).pre_ready_queue ≤ max_pre_ready_frames)
        × ((run units events started).pre_ready_bytes ≤ max_pre_ready_bytes)
  pre_ready_queue-run events h = (run-Relays [] events started started-Relays).few h

  -- The end of the session is reported exactly once, however many causes it has, and the client is
  -- paused and resumed in turns: it is paused once more than it is resumed exactly while the
  -- session holds it paused.
  reports-run :
      (events : List RelayEvent)
      → let s = run units events started in
        (reports s.out ≡ one_if s.closed)
        × (pauses s.out ≡ resumes s.out + one_if s.client_paused_for_backend)
  reports-run events = let r = run-Relays [] events started started-Relays in (r.once, r.balanced)
