-- ===== src/ClientHalf/Life.antt =====
-- The whole life of a half, under any events: the credentials that it checks, what a client reaches
-- while they are wrong, the order of its texts, its buffers, and its end.
use termlink.Prelude.{
  ℕ, suc, ◌+◌, ◌-◌, ◌≡◌, String, Bool, true, false, List, [], ◌∷◌, ◌++◌, Option, some, length,
  append_assoc, append-nil, arith,
}
use termlink.Prelude.Result.{ok}
use termlink.Json.{Json}
use termlink.Message.{AuthRequest, authenticating}
use termlink.Protocol
use termlink.RateLimit.{AuthRateLimiter}
use termlink.Sessions.{SessionRegistry}
use termlink.ClientHalf.{Options, ClientHalf, parses, new_half, emit, send, Reaction}
use termlink.ClientHalf.Receive.{
  send_all, on_protocol, process_inbound, hold_inbound, on_message, flush_from, resume,
}
use termlink.ClientHalf.Events.{
  wire_of, start, Event, message_arrives, verification_ends, bridge_attaches, bridge_pauses,
  bridge_resumes, bridge_forwards, owner_terminates, send_completes, socket_becomes, auth_times_out,
  idle_times_out, socket_closes, step, run,
}
use termlink.ClientHalf.Moves.{
  verifications, services, close_reports, Moves, KeepsOutbound, Answers, Moves-trans,
  terminate-Answers, process_text-Answers,
}
use termlink.ClientHalf.Verify.{
  is_right, resolve-Answers, on_auth_timeout-Answers, on_idle_timeout-Answers, on_close-Answers,
}
use termlink.ClientHalf.Inbound.{Holds, keeps-Holds, resume-Holds, on_message-Holds}
use termlink.ClientHalf.Outbound.{
  Flows, on_sent-Flows, on_sent-Moves, on_sent-KeepsInbound, forward-Flows, forward-Moves,
  forward-KeepsInbound,
}

-- What a text leads to, held or processed, and the loop over the queue.
pub record Reads (opts : Options) (right : AuthRequest → Bool) (trusted : Bool) (h h' : ClientHalf)
    : Type 0 where
  pub moves : Moves opts right trusted h h'
  pub outbound : KeepsOutbound h h'

module _ (parse : List ℕ → Option Json) (opts : Options) (right : AuthRequest → Bool)
    (t : Bool) where
  process_inbound-Reads :
      (now : ℕ) (answer : Reaction) (wire : List ℕ) (h : ClientHalf)
      → Reads opts right t h (process_inbound parse opts now answer wire h)
  unfolding process_inbound
  process_inbound-Reads now answer wire h =
      let a = process_text-Answers opts right t parse now answer wire (emit (parses wire) h) in
      ground (arith, a.moves, a.outbound)

  hold_inbound-Reads :
      (wire : List ℕ) (h : ClientHalf) → Reads opts right t h (hold_inbound parse opts wire h)
  unfolding hold_inbound
  hold_inbound-Reads wire h =
      let held = record h {
        inbound_queue = h.inbound_queue ++ wire ∷ [];
        inbound_bytes = h.inbound_bytes + length wire;
      } in
      let reason = some "Client sent too much data while the backend was busy" in
      let a = terminate-Answers opts right t reason held in ground (arith, a.moves, a.outbound)

  pub on_message-Reads :
      (now : ℕ) (answer : Reaction) (wire : List ℕ) (h : ClientHalf)
      → Reads opts right t h (on_message parse opts now answer wire h)
  unfolding on_message
  on_message-Reads now answer wire h =
      let h' = record h { idle_timer = true } in
      let held = hold_inbound-Reads wire h' in
      let processed = process_inbound-Reads now answer wire h' in
      ground (arith, held.moves, held.outbound, processed.moves, processed.outbound)

  flush_from-Reads :
      (now : ℕ) (answers : ℕ → Reaction) (i : ℕ) (queue : List (List ℕ)) (h : ClientHalf)
      → Reads opts right t h (flush_from parse opts now answers i queue h)
  unfolding flush_from
  flush_from-Reads now answers i [] h = ground arith
  flush_from-Reads now answers i (wire ∷ queue) h =
      let shifted = record h {
        inbound_queue = queue;
        inbound_bytes = h.inbound_bytes - length wire;
      } in
      let one = process_inbound-Reads now (answers i) wire shifted in
      let next = process_inbound parse opts now (answers i) wire shifted in
      let rest = flush_from-Reads now answers (suc i) queue next in
      let both = Moves-trans opts right t shifted next _ one.moves rest.moves in
      ground (arith, both, one.outbound, rest.outbound)

  pub resume-Reads :
      (now : ℕ) (answers : ℕ → Reaction) (h : ClientHalf)
      → Reads opts right t h (resume parse opts now answers h)
  unfolding resume
  resume-Reads now answers h =
      let a =
        flush_from-Reads now answers 0 h.inbound_queue (record h { inbound_paused = false }) in
      ground (arith, a.moves, a.outbound)

-- The text that an event brings, if it brings one.
abbrev pub brought : (String → List ℕ) → Event → List (List ℕ)
brought binary_wire (message_arrives frame now answer) = wire_of binary_wire frame ∷ []
brought binary_wire _ = []

abbrev pub texts : (String → List ℕ) → List Event → List (List ℕ)
texts binary_wire [] = []
texts binary_wire (e ∷ events) = brought binary_wire e ++ texts binary_wire events

-- What holds along a life.
pub record Lives (opts : Options) (right : AuthRequest → Bool) (given : List (List ℕ))
    (h h' : ClientHalf) : Type 0 where
  pub moves : Moves opts right false h h'
  pub holds : Holds given h'
  pub flows : Flows opts h'

module _ (parse : List ℕ → Option Json) (binary_wire : String → List ℕ) (opts : Options)
    (check : AuthRequest → Bool) (web_user : String → Option String) where
  -- An answer that brings no text.
  answer-Lives :
      (given : List (List ℕ)) (h h' : ClientHalf)
      → Answers opts (is_right check web_user) false h h'
      → Holds given h
      → Flows opts h
      → Lives opts (is_right check web_user) (given ++ []) h h'
  answer-Lives given h h' a r f = record {
    moves = a.moves;
    holds = rw (append-nil given) (keeps-Holds given h h' a.inbound r);
    flows = ground (arith, a.outbound, f);
  }

  step-Lives :
      (given : List (List ℕ)) (e : Event) (h : ClientHalf)
      → Holds given h
      → Flows opts h
      → Lives opts
          (is_right check web_user)
          (given ++ brought binary_wire e)
          h
          (step parse binary_wire opts check web_user e h)
  unfolding step
  step-Lives given (message_arrives frame now answer) h r f =
      let wire = wire_of binary_wire frame in
      let a = on_message-Reads parse opts (is_right check web_user) false now answer wire h in
      record {
        moves = a.moves;
        holds = on_message-Holds parse opts given now answer wire h r;
        flows = ground (arith, a.outbound, f);
      }
  step-Lives given (verification_ends place fresh now) h r f =
      answer-Lives given h _ (resolve-Answers opts check web_user place fresh now h) r f
  step-Lives given bridge_attaches h r f = answer-Lives given h _ (ground arith) r f
  step-Lives given bridge_pauses h r f = answer-Lives given h _ (ground arith) r f
  step-Lives given (bridge_resumes now answers) h r f =
      let a = resume-Reads parse opts (is_right check web_user) false now answers h in
      record {
        moves = a.moves;
        holds = rw (append-nil given) (resume-Holds parse opts given now answers h r);
        flows = ground (arith, a.outbound, f);
      }
  step-Lives given (bridge_forwards m fails) h r f = record {
    moves = forward-Moves opts fails m h f.emptied (is_right check web_user) false;
    holds =
        rw (append-nil given)
          (keeps-Holds given h _ (forward-KeepsInbound opts fails m h f.emptied) r);
    flows = forward-Flows opts fails m h f.emptied f;
  }
  step-Lives given (owner_terminates reason) h r f =
      answer-Lives given h _ (terminate-Answers opts (is_right check web_user) false reason h) r f
  step-Lives given (send_completes place) h r f = record {
    moves = on_sent-Moves opts (is_right check web_user) false place h;
    holds = rw (append-nil given) (keeps-Holds given h _ (on_sent-KeepsInbound opts place h) r);
    flows = on_sent-Flows opts place h f;
  }
  step-Lives given (socket_becomes state) h r f = answer-Lives given h _ (ground arith) r f
  step-Lives given auth_times_out h r f =
      answer-Lives given h _ (on_auth_timeout-Answers opts (is_right check web_user) false h) r f
  step-Lives given idle_times_out h r f =
      answer-Lives given h _ (on_idle_timeout-Answers opts (is_right check web_user) false h) r f
  step-Lives given (socket_closes answer) h r f =
      answer-Lives given h _ (on_close-Answers opts (is_right check web_user) false answer h) r f

  pub run-Lives :
      (given : List (List ℕ)) (events : List Event) (h : ClientHalf)
      → Holds given h
      → Flows opts h
      → Lives opts
          (is_right check web_user)
          (given ++ texts binary_wire events)
          h
          (run parse binary_wire opts check web_user events h)
  unfolding run
  run-Lives given [] h r f = answer-Lives given h h (ground arith) r f
  run-Lives given (e ∷ events) h r f =
      let one = step-Lives given e h r f in
      let next = step parse binary_wire opts check web_user e h in
      let rest = run-Lives (given ++ brought binary_wire e) events next one.holds one.flows in
      record {
        moves = Moves-trans opts (is_right check web_user) false h next _ one.moves rest.moves;
        holds =
            rw (← append_assoc given (brought binary_wire e) (texts binary_wire events)) rest.holds;
        flows = rest.flows;
      }

-- A half that has just been started.
pub record IsFresh (opts : Options) (h : ClientHalf) : Type 0 where
  pub protocol : h.protocol ≡ authenticating
  pub idle : h.pending ≡ []
  pub unverified : verifications h.out ≡ 0
  pub no_attempt : h.auth_attempts ≡ 0
  pub silent : services h.out ≡ []
  pub anonymous : h.authenticated ≡ false
  pub open_ : h.closed ≡ false
  pub unreported : close_reports h.out ≡ 0
  pub holds : Holds [] h
  pub flows : Flows opts h

pub start-IsFresh :
    (opts : Options) (id : String) (sessions : SessionRegistry) (limiter : Option AuthRateLimiter)
    (h : ClientHalf)
    → start opts (new_half id sessions limiter) ≡ ok h
    → IsFresh opts h
unfolding start new_half on_protocol send_all send Protocol.hello
start-IsFresh opts id sessions limiter h e = ground arith
