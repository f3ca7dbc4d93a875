-- ===== src/ClientHalf/Inbound.antt =====
-- The way of the client's texts to the protocol, through the queue of a half that is paused.
use termlink.Prelude.{
  ℕ, suc, ◌+◌, ◌-◌, ◌||◌, ◌≤◌, ◌≡◌, true, false, List, [], ◌∷◌, ◌++◌, Option, length, append_assoc,
  append-nil, arith, inl, inr, Bool-cases,
}
use termlink.Json.{Json}
use termlink.ClientHalf.{
  Options, ClientHalf, parses, max_inbound_frames, max_inbound_bytes, emit, Reaction, send,
  teardown, close_socket, terminate,
}
use termlink.ClientHalf.Receive.{process_inbound, hold_inbound, on_message, flush_from, resume}
use termlink.ClientHalf.Moves.{parsed, KeepsInbound, process_text-Answers}

abbrev pub units : List (List ℕ) → ℕ
units [] = 0
units (wire ∷ queue) = length wire + units queue

units-append : (a b : List (List ℕ)) → units (a ++ b) ≡ units a + units b
units-append [] b = omega arith
units-append (wire ∷ a) b = omega (arith, units-append a b)

-- A half that was given these texts while it was open.
pub record Holds (given : List (List ℕ)) (h : ClientHalf) : Type 0 where
  pub in_order : h.closed ≡ false → parsed h.out ++ h.inbound_queue ≡ given
  pub measured : h.inbound_bytes ≡ units h.inbound_queue
  pub few :
      h.closed ≡ false
      → (length h.inbound_queue ≤ max_inbound_frames) × (h.inbound_bytes ≤ max_inbound_bytes)
  pub drained : h.closed ≡ false → h.inbound_paused ≡ false → h.inbound_queue ≡ []

pub keeps-Holds :
    (given : List (List ℕ)) (h h' : ClientHalf) → KeepsInbound h h' → Holds given h → Holds given h'
keeps-Holds given h h' k r = ground (arith, k, r)

-- A loop over the queue: what it has not parsed is the queue again, and it stops only for a reason.
record Flushed (queue : List (List ℕ)) (h h' : ClientHalf) : Type 0 where
  in_order : parsed h'.out ++ h'.inbound_queue ≡ parsed h.out ++ queue
  measured : h'.inbound_bytes ≡ units h'.inbound_queue
  fewer : (length h'.inbound_queue ≤ length queue) × (h'.inbound_bytes ≤ h.inbound_bytes)
  stopped : h'.closed ≡ false → h'.inbound_paused ≡ false → h'.inbound_queue ≡ []
  closed_stays : h.closed ≡ true → h'.closed ≡ true

module _ (parse : List ℕ → Option Json) (opts : Options) where
  -- A text that is processed is parsed, if the half is open, and the queue stays as it is.
  process_inbound-keeps :
      (now : ℕ) (answer : Reaction) (wire : List ℕ) (h : ClientHalf)
      → h.closed ≡ false
      → KeepsInbound (emit (parses wire) h) (process_inbound parse opts now answer wire h)
  unfolding process_inbound
  process_inbound-keeps now answer wire h e =
      let a =
        process_text-Answers opts (λ r. true) true parse now answer wire (emit (parses wire) h) in
      ground (arith, a.inbound)

  hold-Holds :
      (given : List (List ℕ)) (wire : List ℕ) (h : ClientHalf)
      → h.closed ≡ false
      → Holds given h
      → h.inbound_paused ≡ true
      → Holds (given ++ wire ∷ []) (hold_inbound parse opts wire h)
  unfolding hold_inbound terminate send teardown close_socket
  hold-Holds given wire h e r p = ground (
    arith,
    r,
    append_assoc (parsed h.out) h.inbound_queue (wire ∷ []),
    units-append h.inbound_queue (wire ∷ []),
  )

  flush_from-Flushed :
      (now : ℕ) (answers : ℕ → Reaction) (i : ℕ) (queue : List (List ℕ)) (h : ClientHalf)
      → h.inbound_bytes ≡ units queue
      → Flushed queue h (flush_from parse opts now answers i queue h)
  unfolding flush_from
  flush_from-Flushed now answers i [] h m = ground arith
  flush_from-Flushed now answers i (wire ∷ queue) h m =
      elim (Bool-cases (h.inbound_paused || h.closed)) [
        | inl stops ↦ rw stops ground arith
        | inr goes ↦
            let shifted = record h {
              inbound_queue = queue;
              inbound_bytes = h.inbound_bytes - length wire;
            } in
            let next = process_inbound parse opts now (answers i) wire shifted in
            let k = process_inbound-keeps now (answers i) wire shifted (ground arith) in
            let rest = flush_from-Flushed now answers (suc i) queue next (ground (arith, k, m)) in
            simp goes ground (arith, k, rest, append_assoc (parsed h.out) (wire ∷ []) queue)
      ]

  pub resume-Holds :
      (given : List (List ℕ)) (now : ℕ) (answers : ℕ → Reaction) (h : ClientHalf)
      → Holds given h
      → Holds given (resume parse opts now answers h)
  unfolding resume
  resume-Holds given now answers h r =
      let f =
        flush_from-Flushed now answers 0 h.inbound_queue (record h { inbound_paused = false })
          r.measured in
      ground (arith, r, f)

  pub on_message-Holds :
      (given : List (List ℕ)) (now : ℕ) (answer : Reaction) (wire : List ℕ) (h : ClientHalf)
      → Holds given h
      → Holds (given ++ wire ∷ []) (on_message parse opts now answer wire h)
  unfolding on_message
  on_message-Holds given now answer wire h r = elim (Bool-cases h.closed) [
    | inl shut ↦ rw shut ground (arith, r)
    | inr open_ ↦ elim (Bool-cases h.inbound_paused) [
      | inl paused ↦
          let held = hold-Holds given wire (record h { idle_timer = true }) open_ in
          ground (arith, r, held)
      | inr free ↦
          let k = process_inbound-keeps now answer wire (record h { idle_timer = true }) open_ in
          ground (arith, r, k, append-nil (parsed h.out), append-nil (parsed h.out ++ wire ∷ []))
    ]
  ]
