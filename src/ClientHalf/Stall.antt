-- ===== src/ClientHalf/Stall.antt =====
-- A message of the backend that is larger than the high-water mark.
use termlink.Prelude.{
  ℕ, ◌<◌, ◌≡◌, refl, ◌∙◌, String, Bool, true, false, List, [], ◌∷◌, Option, All, arith, inl, inr,
  Bool-cases,
}
use termlink.Json.{Json}
use termlink.Message.{AuthRequest, ServerMessage}
use termlink.ClientHalf.{Options, ClientHalf, is_open, as_outbound, forward, on_sent}
use termlink.ClientHalf.Events.{
  wire_of, Event, message_arrives, verification_ends, bridge_attaches, bridge_pauses,
  bridge_resumes, bridge_forwards, owner_terminates, send_completes, socket_becomes, auth_times_out,
  idle_times_out, socket_closes, step, run,
}
use termlink.ClientHalf.Moves.{drains, KeepsOutbound, terminate-Answers}
use termlink.ClientHalf.Verify.{
  is_right, resolve-Answers, on_auth_timeout-Answers, on_idle_timeout-Answers, on_close-Answers,
}
use termlink.ClientHalf.Outbound.{forward-eq-forwarded}
use termlink.ClientHalf.Life.{Reads, on_message-Reads, resume-Reads}

abbrev pub is_forward : Event → Bool
is_forward (bridge_forwards m fails) = true
is_forward _ = false

abbrev pub is_completion : Event → Bool
is_completion (send_completes place) = true
is_completion _ = false

module _ (parse : List ℕ → Option Json) (binary_wire : String → List ℕ) (opts : Options)
    (check : AuthRequest → Bool) (web_user : String → Option String) where
  -- What has nothing to do with the messages of the backend.
  pub step-Reads :
      (e : Event) (h : ClientHalf)
      → is_forward e ≡ false
      → is_completion e ≡ false
      → Reads opts
          (is_right check web_user)
          false
          h
          (step parse binary_wire opts check web_user e h)
  unfolding step
  step-Reads (message_arrives frame now answer) h n k =
      on_message-Reads parse opts (is_right check web_user) false now answer
        (wire_of binary_wire frame) h
  step-Reads (verification_ends place fresh now) h n k =
      let a = resolve-Answers opts check web_user place fresh now h in
      record { moves = a.moves; outbound = a.outbound }
  step-Reads bridge_attaches h n k = ground arith
  step-Reads bridge_pauses h n k = ground arith
  step-Reads (bridge_resumes now answers) h n k =
      resume-Reads parse opts (is_right check web_user) false now answers h
  step-Reads (bridge_forwards m fails) h n k = cc
  step-Reads (owner_terminates reason) h n k =
      let a = terminate-Answers opts (is_right check web_user) false reason h in
      record { moves = a.moves; outbound = a.outbound }
  step-Reads (send_completes place) h n k = cc
  step-Reads (socket_becomes state) h n k = ground arith
  step-Reads auth_times_out h n k =
      let a = on_auth_timeout-Answers opts (is_right check web_user) false h in
      record { moves = a.moves; outbound = a.outbound }
  step-Reads idle_times_out h n k =
      let a = on_idle_timeout-Answers opts (is_right check web_user) false h in
      record { moves = a.moves; outbound = a.outbound }
  step-Reads (socket_closes answer) h n k =
      let a = on_close-Answers opts (is_right check web_user) false answer h in
      record { moves = a.moves; outbound = a.outbound }

  completion-KeepsOutbound :
      (e : Event) (h : ClientHalf)
      → h.in_flight ≡ []
      → is_completion e ≡ true
      → KeepsOutbound h (step parse binary_wire opts check web_user e h)
  unfolding step on_sent
  completion-KeepsOutbound (send_completes place) h f k = ground (arith, f)
  completion-KeepsOutbound _ h f k = cc

  step-KeepsOutbound :
      (e : Event) (h : ClientHalf)
      → is_forward e ≡ false
      → h.in_flight ≡ []
      → KeepsOutbound h (step parse binary_wire opts check web_user e h)
  step-KeepsOutbound e h n f = elim (Bool-cases (is_completion e)) [
    | inl ends ↦ completion-KeepsOutbound e h f ends
    | inr other ↦ (step-Reads e h n other).outbound
  ]

  run-KeepsOutbound :
      (events : List Event) (h : ClientHalf)
      → All (λ e. is_forward e ≡ false) events
      → h.in_flight ≡ []
      → KeepsOutbound h (run parse binary_wire opts check web_user events h)
  unfolding run
  run-KeepsOutbound [] h n f = ground arith
  run-KeepsOutbound (e ∷ events) h n f =
      let next = step parse binary_wire opts check web_user e h in
      let one = step-KeepsOutbound e h n.0 f in
      let rest = run-KeepsOutbound events next n.1 (one.flight_kept ∙ f) in
      ground (arith, one, rest)

  -- A message of the backend that by itself exceeds the high-water mark is refused by an open half
  -- with nothing under way, and asks the bridge to pause; and whatever then happens, short of
  -- another message from the backend that is paused, the bridge is never told to go on.
  pub drains-forward_oversized :
      (fails : ℕ → Bool) (m : ServerMessage) (events : List Event) (h : ClientHalf)
      → h.closed ≡ false
      → is_open h.ready_state ≡ true
      → h.outbound_queue ≡ []
      → h.in_flight ≡ []
      → opts.send_high_water_mark < (as_outbound opts m).size
      → All (λ e. is_forward e ≡ false) events
      → let (taken, h') = forward opts fails m h in
        (taken ≡ false)
        × (h'.pressure_signaled ≡ true)
        × (drains (run parse binary_wire opts check web_user events h').out ≡ drains h.out)
  drains-forward_oversized fails m events h shut open_ e f big n =
      let refused : forward opts fails m h ≡ (false, record h { pressure_signaled = true }) =
        forward-eq-forwarded opts fails m h e ∙ ground arith in
      let stuck = run-KeepsOutbound events (record h { pressure_signaled = true }) n f in
      rw refused (refl, refl, stuck.drains_kept)
