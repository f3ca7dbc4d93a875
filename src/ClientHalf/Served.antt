-- ===== src/ClientHalf/Served.antt =====
-- What a client gets out of a half, and the half out of its client, over a whole life.
use termlink.Prelude.{
  if◌then◌else◌, ℕ, ◌≤◌, ◌≡◌, refl, String, Bool, true, false, List, [], ◌++◌, Option, arith,
  length,
}
use termlink.Prelude.Result.{ok}
use termlink.Json.{Json}
use termlink.Message.{AuthRequest}
use termlink.RateLimit.{AuthRateLimiter}
use termlink.Sessions.{SessionRegistry}
use termlink.ClientHalf.{Options, ClientHalf, max_inbound_frames, max_inbound_bytes, new_half}
use termlink.ClientHalf.Events.{start, Event, run}
use termlink.ClientHalf.Moves.{verifications, all_refused, services, close_reports, parsed, one_if}
use termlink.ClientHalf.Inbound.{units}
use termlink.ClientHalf.Outbound.{total}
use termlink.ClientHalf.Verify.{is_right}
use termlink.ClientHalf.Life.{texts, Lives, run-Lives, start-IsFresh}

module _ (parse : List ℕ → Option Json) (binary_wire : String → List ℕ) (opts : Options)
    (check : AuthRequest → Bool) (web_user : String → Option String) (id : String)
    (sessions : SessionRegistry) (limiter : Option AuthRateLimiter) (h : ClientHalf)
    (started : start opts (new_half id sessions limiter) ≡ ok h) where
  life :
      (events : List Event)
      → Lives opts
          (is_right check web_user)
          (texts binary_wire events)
          h
          (run parse binary_wire opts check web_user events h)
  life events =
      let fresh = start-IsFresh opts id sessions limiter h started in
      run-Lives parse binary_wire opts check web_user [] events h fresh.holds fresh.flows

  -- However many requests a client sends on a half that has been started, before or while others
  -- are being checked, held back or not, the half never has more than the configured number of
  -- credentials checked.
  pub verifications-run_half :
      (events : List Event)
      → verifications (run parse binary_wire opts check web_user events h).out
        ≤ opts.max_auth_attempts
  verifications-run_half events =
      let moves = (life events).moves in
      let fresh = start-IsFresh opts id sessions limiter h started in
      ground (arith, moves.counted, moves.bounded, fresh.unverified, fresh.no_attempt)

  -- On a half that has been started, a client stays unauthenticated, is never reported to the relay
  -- as authenticated, and never reaches a bridge, in any order of events, as long as the credentials
  -- that it has sent, and that the half handed to the stores, are all wrong, and none of them is the
  -- token of a web session; the stores may accept others.
  pub services-run_half :
      (events : List Event)
      → all_refused
          (is_right check web_user)
          (run parse binary_wire opts check web_user events h).out
        ≡ true
      → let h' = run parse binary_wire opts check web_user events h in
        (services h'.out ≡ []) × (h'.authenticated ≡ false)
  services-run_half events wrong =
      let moves = (life events).moves in
      let fresh = start-IsFresh opts id sessions limiter h started in
      ground (arith, moves.quiet refl wrong, fresh)

  -- While a half that has been started is open, the texts that it has parsed and those that wait
  -- are, in order, exactly the texts that the client has sent, however often its bridge paused and
  -- resumed it: nothing is lost, doubled or reordered, and nothing waits unless it is paused.
  pub parsed-run :
      (events : List Event)
      → (run parse binary_wire opts check web_user events h).closed ≡ false
      → let h' = run parse binary_wire opts check web_user events h in
        (parsed h'.out ++ h'.inbound_queue ≡ texts binary_wire events)
        × ((if h'.inbound_paused then [] else h'.inbound_queue) ≡ [])
  parsed-run events e =
      let holds = (life events).holds in (holds.in_order e, ground (arith, holds.drained e))

  -- The count of the units that wait is right at any time, and on an open half that has been
  -- started it and the number of texts that wait stay within their limits.
  inbound_queue-run :
      (events : List Event)
      → let h' = run parse binary_wire opts check web_user events h in
        (h'.inbound_bytes ≡ units h'.inbound_queue)
        × ((if h'.closed then 0 else length h'.inbound_queue) ≤ max_inbound_frames)
        × ((if h'.closed then 0 else units h'.inbound_queue) ≤ max_inbound_bytes)
  inbound_queue-run events = let holds = (life events).holds in ground (arith, holds)

  -- Between any two events of a half that has been started, the outbound queue is empty, and the
  -- bytes that are counted are those of the backend's messages under way, and stay within the
  -- high-water mark.
  pub in_flight-run :
      (events : List Event)
      → let h' = run parse binary_wire opts check web_user events h in
        (h'.outbound_queue ≡ [])
        × (h'.in_flight_bytes ≡ total h'.in_flight)
        × (h'.in_flight_bytes ≤ opts.send_high_water_mark)
  in_flight-run events =
      let flows = (life events).flows in (flows.emptied, flows.summed, flows.bounded)

  -- The end of a half that has been started is reported exactly once, however many causes it has.
  close_reports-run_half :
      (events : List Event)
      → let h' = run parse binary_wire opts check web_user events h in
        close_reports h'.out ≡ one_if h'.closed
  close_reports-run_half events =
      let moves = (life events).moves in
      let fresh = start-IsFresh opts id sessions limiter h started in
      ground (arith, moves.reported, fresh.open_, fresh.unreported)
