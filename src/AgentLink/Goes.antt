-- ===== src/AgentLink/Goes.antt =====
-- How the calls behind an agent's link move it: what it asks of the store, its end, and the
-- reports that it is ready.
use termlink.Prelude.{
  ℕ, suc, ◌+◌, ◌*◌, ◌≤◌, ◌≡◌, refl, String, Bool, true, false, List, [], ◌∷◌, ◌++◌, Option, none,
  some, arith, Option-cases, inl, inr, get_elem?,
}
use termlink.Credentials.{Scrypt, Bytes}
use termlink.RateLimit.{AuthRateLimiter, try_acquire}
use termlink.DeviceProtocol.{
  DeviceClientMessage, device_register, device_auth, agent_goodbye, Enrollment, device_err,
  relay_goodbye, registered, authenticated,
}
use termlink.DeviceStore
use termlink.DeviceStore.{DeviceStore, DeviceConfig, remove_at}
use termlink.AgentLink.{
  LinkState, closed, Waiting, refused, registering, verifying, LinkOut, raw_sends, asks_store,
  flushes_channel, note, reports_ready, reports_link_closed, LinkConfig, AgentLink, raw_send,
  send_message, tell_channels, teardown, terminate_link, on_socket_close, fail_link, ask_store,
  throttle_link, link_limited, authenticate, go_ready, settle, resume, warned,
}
use termlink.AgentLink.Messages.{
  remove_channel, open_channel, handle_client_message, LinkEvent, message_arrives, invalid_arrives,
  store_answers, channel_opens, channel_closes, auth_times_out, idle_times_out, socket_closes,
  channel_sends, channel_pauses, drain_is_due, link_ends, flush_each, note_paused, on_drain_tick,
  on_message, step, run,
}

abbrev pub asked : List LinkOut → ℕ
asked [] = 0
asked (asks_store ∷ out) = suc (asked out)
asked (_ ∷ out) = asked out

abbrev pub closes : List LinkOut → ℕ
closes [] = 0
closes (reports_link_closed ∷ out) = suc (closes out)
closes (_ ∷ out) = closes out

abbrev pub readies : List LinkOut → List String
readies [] = []
readies (reports_ready id ∷ out) = id ∷ readies out
readies (_ ∷ out) = readies out

abbrev pub if_closed : LinkState → ℕ
if_closed closed = 1
if_closed _ = 0

-- How a link moves.
pub record Goes (cfg : LinkConfig) (l l' : AgentLink) : Type 0 where
  pub asks : asked l'.out + l.attempts ≤ asked l.out + l'.attempts
  pub bounded : l.attempts ≤ cfg.max_attempts → l'.attempts ≤ cfg.max_attempts
  pub ends : closes l'.out + if_closed l.state ≡ closes l.out + if_closed l'.state
  pub final : l.state ≡ closed → (l'.state ≡ closed) × (readies l'.out ≡ readies l.out)

tell_channels-quiet :
    (reason : String) (ids : List String) (out : List LinkOut)
    → let out' = tell_channels reason ids out in
      (asked out' ≡ asked out) × (closes out' ≡ closes out) × (readies out' ≡ readies out)
tell_channels-quiet reason [] out = (refl, refl, refl)
tell_channels-quiet reason (id ∷ ids) out = tell_channels-quiet reason ids _

module _ (cfg : LinkConfig) where
  Goes-trans : (a b c : AgentLink) → Goes cfg a b → Goes cfg b c → Goes cfg a c
  Goes-trans a b c x y = ground (arith, x, y)

  terminate-Goes :
      (reason : Option String) (now : ℕ) (l : AgentLink) → Goes cfg l (terminate_link reason now l)
  unfolding terminate_link teardown
  terminate-Goes none now l = ground (
    arith,
    tell_channels-quiet "closed by relay" l.channels l.out,
    tell_channels-quiet "closed by relay" l.channels (raw_sends (relay_goodbye none) ∷ l.out),
  )
  terminate-Goes (some reason) now l = ground (
    arith,
    tell_channels-quiet reason l.channels l.out,
    tell_channels-quiet reason l.channels (raw_sends (relay_goodbye (some reason)) ∷ l.out),
  )

  fail-Goes : (error : String) (now : ℕ) (l : AgentLink) → Goes cfg l (fail_link error now l)
  unfolding fail_link
  fail-Goes error now l =
      let sent = raw_send (device_err error) l in
      ground (arith, terminate-Goes (some error) now sent)

  on_socket_close-Goes : (now : ℕ) (l : AgentLink) → Goes cfg l (on_socket_close now l)
  unfolding on_socket_close teardown
  on_socket_close-Goes now l =
      ground (arith, tell_channels-quiet "Device connection closed" l.channels l.out)

  go_ready-Goes :
      (mode : Enrollment) (c : DeviceConfig) (now : ℕ) (l : AgentLink)
      → Goes cfg l (go_ready mode c now l)
  unfolding go_ready
  go_ready-Goes mode c now l = ground arith

  module _ (scrypt : Scrypt) where
    throttle-Goes :
        (register : Bool) (id secret : String) (token : Option String) (now : ℕ) (l : AgentLink)
        → Goes cfg l (throttle_link cfg scrypt register id secret token now l)
    unfolding throttle_link ask_store
    throttle-Goes register id secret token now l =
        let late = record l { locked_until = now + cfg.backoff_ms * l.attempts } in
        ground (
          arith,
          fail-Goes "Too many attempts; try again later" now l,
          fail-Goes "Too many failed attempts" now late,
          fail-Goes "Unknown device id" now (record l { attempts = l.attempts + 1 }),
        )

    limited-Goes :
        (register : Bool) (id secret : String) (token : Option String) (now : ℕ) (l : AgentLink)
        (answer : Bool × AuthRateLimiter)
        → Goes cfg l (link_limited cfg scrypt register id secret token now l answer)
    limited-Goes register id secret token now l (true, m) =
        let g = throttle-Goes register id secret token now (record l { limiter = some m }) in
        ground (arith, g)
    limited-Goes register id secret token now l (false, m) =
        let error : String = "Too many authentication attempts; try again later" in
        ground (arith, fail-Goes error now (record l { limiter = some m }))

    authenticate-Goes :
        (register : Bool) (id secret : String) (token : Option String) (now : ℕ) (l : AgentLink)
        → Goes cfg l (authenticate cfg scrypt register id secret token now l)
    unfolding authenticate
    authenticate-Goes register id secret token now l = elim (Option-cases l.limiter) [
      | inl off ↦ ground (
        arith,
        fail-Goes "Already authenticated" now l,
        throttle-Goes register id secret token now l,
      )
      | inr (m, on) ↦ ground (
        arith,
        fail-Goes "Already authenticated" now l,
        limited-Goes register id secret token now l (try_acquire cfg.remote_address now m),
      )
    ]

    settle-Goes :
        (place : ℕ) (salt : Bytes) (now : ℕ) (w : Waiting) (l : AgentLink)
        → Goes cfg l (settle scrypt place salt now w l)
    unfolding settle
    settle-Goes place salt now (refused error) l = fail-Goes error now l
    settle-Goes place salt now (registering c) l =
        let store = warned c (DeviceStore.finish_register scrypt place salt now l.store) in
        ground (arith, go_ready-Goes registered c now (record l { store = store }))
    settle-Goes place salt now (verifying c valid) l =
        ground (arith, fail-Goes "Invalid device secret" now l, go_ready-Goes authenticated c now l)

    resume-Goes :
        (i place : ℕ) (salt : Bytes) (now : ℕ) (l : AgentLink)
        → Goes cfg l (resume scrypt i place salt now l)
    unfolding resume
    resume-Goes i place salt now l = elim (Option-cases (get_elem? l.pending i)) [
      | inl gone ↦ ground arith
      | inr (w, waits) ↦
          let l' = record l { pending = remove_at l.pending i } in
          ground (arith, settle-Goes place salt now w l')
    ]

    remove_channel-Goes :
        (fits : Bool) (id : String) (reason : Option String) (now : ℕ) (l : AgentLink)
        → Goes cfg l (remove_channel fits id reason now l)
    unfolding remove_channel send_message
    remove_channel-Goes fits id reason now l = ground arith

    open_channel-Goes :
        (fits : Bool) (id : String) (cols rows now : ℕ) (l : AgentLink)
        → Goes cfg l (open_channel fits id cols rows now l)
    unfolding open_channel send_message
    open_channel-Goes fits id cols rows now l =
        let reason : Option String = some "Superseded by a new attachment" in
        ground (arith, remove_channel-Goes fits id reason now l)

    handle-Goes :
        (m : DeviceClientMessage) (now : ℕ) (l : AgentLink)
        → Goes cfg l (handle_client_message cfg scrypt m now l)
    unfolding handle_client_message
    handle-Goes (device_register id secret token) now l =
        authenticate-Goes true id secret token now l
    handle-Goes (device_auth id secret) now l = authenticate-Goes false id secret none now l
    handle-Goes (agent_goodbye reason) now l = terminate-Goes _ now l
    handle-Goes _ now l = ground arith

    flush_each-Goes :
        (left : ℕ → Bool) (paused : List (ℕ × String)) (l : AgentLink)
        → Goes cfg l (flush_each left paused l)
    unfolding flush_each
    flush_each-Goes left [] l = ground arith
    flush_each-Goes left ((session, id) ∷ paused) l =
        let l' = note (flushes_channel session) l in
        let kept = record l' { paused_channels = l'.paused_channels ++ (session, id) ∷ [] } in
        ground (arith, flush_each-Goes left paused kept, flush_each-Goes left paused l')

    tick-Goes :
        (low : Bool) (left : ℕ → Bool) (l : AgentLink) → Goes cfg l (on_drain_tick low left l)
    unfolding on_drain_tick
    tick-Goes low left l =
        let flushed = flush_each-Goes left l.paused_channels (record l { paused_channels = [] }) in
        ground (arith, flushed)

    step-Goes : (e : LinkEvent) (l : AgentLink) → Goes cfg l (step cfg scrypt e l)
    unfolding step on_message send_message note_paused
    step-Goes (message_arrives m now) l = ground (arith, handle-Goes m now l)
    step-Goes (invalid_arrives error now) l = fail-Goes error now l
    step-Goes (store_answers i place salt now) l = resume-Goes i place salt now l
    step-Goes (channel_opens fits id cols rows now) l = open_channel-Goes fits id cols rows now l
    step-Goes (channel_closes fits id reason now) l = remove_channel-Goes fits id reason now l
    step-Goes (auth_times_out now) l = ground (arith, fail-Goes "Authentication timed out" now l)
    step-Goes (idle_times_out now) l = terminate-Goes _ now l
    step-Goes (socket_closes now) l = on_socket_close-Goes now l
    step-Goes (channel_sends fits m) l = ground arith
    step-Goes (channel_pauses session id) l = ground arith
    step-Goes (drain_is_due low left) l = tick-Goes low left l
    step-Goes (link_ends reason now) l = terminate-Goes reason now l

    pub run-Goes : (events : List LinkEvent) (l : AgentLink) → Goes cfg l (run cfg scrypt events l)
    unfolding run
    run-Goes [] l = ground arith
    run-Goes (e ∷ events) l =
        Goes-trans l (step cfg scrypt e l) _ (step-Goes e l) (run-Goes events (step cfg scrypt e l))
