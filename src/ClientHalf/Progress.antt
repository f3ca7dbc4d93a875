-- ===== src/ClientHalf/Progress.antt =====
-- A backend that was refused: when its bridge is told to go on.
use termlink.Prelude.{
  ℕ, ◌+◌, ◌<◌, ◌≡◌, ◌≢◌, String, Bool, true, false, List, [], ◌∷◌, Option, All, arith, inl, inr,
  Bool-cases, Option-cases,
}
use termlink.Json.{Json}
use termlink.Message.{AuthRequest, ServerMessage}
use termlink.ClientHalf.{
  Options, ClientHalf, is_open, forward, maybe_release_pressure, size_at, sizes_without, on_sent,
}
use termlink.ClientHalf.Events.{Event, send_completes, step, run}
use termlink.ClientHalf.Moves.{drains, one_if}
use termlink.ClientHalf.Outbound.{
  Flows, total, total-without, on_sent-Flows, forward-Flows, forward-eq-forwarded,
}
use termlink.ClientHalf.Stall.{is_forward, is_completion, step-Reads}

-- While the half is open its bridge is under pressure and something is under way, or the bridge has
-- been told that it may go on; it is told only once.
record Presses (told : ℕ) (h : ClientHalf) : Type 0 where
  bridged : h.closed ≡ false → h.bridged ≡ true
  once : h.closed ≡ false → drains h.out + one_if h.pressure_signaled ≡ told + 1
  under_way : h.closed ≡ false → h.pressure_signaled ≡ true → h.in_flight ≢ []

total-nil : (sizes : List ℕ) → sizes ≡ [] → total sizes ≡ 0
total-nil [] e = omega arith
total-nil (size ∷ sizes) e = cc

on_sent-Presses :
    (opts : Options) (told place : ℕ) (h : ClientHalf)
    → 0 < opts.send_low_water_mark
    → Flows opts h
    → Presses told h
    → Presses told (on_sent opts place h)
unfolding on_sent maybe_release_pressure
on_sent-Presses opts told place h low f p = elim (Option-cases (size_at h.in_flight place)) [
  | inl absent ↦ rw (absent, on_sent) p
  | inr (size, under_way) ↦
      let rest = total-without h.in_flight place size under_way in
      rw (under_way, on_sent) ground
        (arith, f, p, rest, total-nil (sizes_without h.in_flight place))
]

module _ (parse : List ℕ → Option Json) (binary_wire : String → List ℕ) (opts : Options)
    (check : AuthRequest → Bool) (web_user : String → Option String)
    (low : 0 < opts.send_low_water_mark) where
  completion-Presses :
      (told : ℕ) (e : Event) (h : ClientHalf)
      → is_completion e ≡ true
      → Flows opts h
      → Presses told h
      → Flows opts (step parse binary_wire opts check web_user e h)
        × Presses told (step parse binary_wire opts check web_user e h)
  unfolding step
  completion-Presses told (send_completes place) h k f p =
      (on_sent-Flows opts place h f, on_sent-Presses opts told place h low f p)
  completion-Presses told _ h k f p = cc

  step-Presses :
      (told : ℕ) (e : Event) (h : ClientHalf)
      → is_forward e ≡ false
      → Flows opts h
      → Presses told h
      → Flows opts (step parse binary_wire opts check web_user e h)
        × Presses told (step parse binary_wire opts check web_user e h)
  step-Presses told e h n f p = elim (Bool-cases (is_completion e)) [
    | inl ends ↦ completion-Presses told e h ends f p
    | inr other ↦
        let r = step-Reads parse binary_wire opts check web_user e h n other in
        ground (arith, r.moves, r.outbound, f, p)
  ]

  run-Presses :
      (told : ℕ) (events : List Event) (h : ClientHalf)
      → All (λ e. is_forward e ≡ false) events
      → Flows opts h
      → Presses told h
      → Presses told (run parse binary_wire opts check web_user events h)
  unfolding run
  run-Presses told [] h n f p = p
  run-Presses told (e ∷ events) h n f p =
      let next = step parse binary_wire opts check web_user e h in
      let (f', p') = step-Presses told e h n.0 f p in run-Presses told events next n.1 f' p'

  -- Progress: on an open half whose bridge is attached and that has messages of the backend under
  -- way, suppose that the bridge is refused another one. Whatever then happens, short of a further
  -- message from the backend, and in whatever order the messages under way leave: once all of them
  -- have left, and if the half is still open, the bridge has been told to go on, exactly once. The
  -- low-water mark must not be zero.
  pub drains-run_refused :
      (fails : ℕ → Bool) (m : ServerMessage) (events : List Event) (h : ClientHalf)
      → Flows opts h
      → h.closed ≡ false
      → is_open h.ready_state ≡ true
      → h.bridged ≡ true
      → h.in_flight ≢ []
      → (forward opts fails m h).0 ≡ false
      → All (λ e. is_forward e ≡ false) events
      → (run parse binary_wire opts check web_user events (forward opts fails m h).1).closed ≡ false
      → (run parse binary_wire opts check web_user events (forward opts fails m h).1).in_flight ≡ []
      → let h' = run parse binary_wire opts check web_user events (forward opts fails m h).1 in
        (h'.pressure_signaled ≡ false) × (drains h'.out ≡ drains h.out + 1)
  drains-run_refused fails m events h f open_ heard bridged under_way refused n still gone =
      let kept : (forward opts fails m h).1 ≡ record h { pressure_signaled = true } =
        ground (arith, forward-eq-forwarded opts fails m h f.emptied) in
      let h' = (forward opts fails m h).1 in
      let p =
        run-Presses (drains h.out) events h' n (forward-Flows opts fails m h f.emptied f)
          (ground (arith, kept)) in
      ground (arith, p)
