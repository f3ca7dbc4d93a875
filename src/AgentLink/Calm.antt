-- ===== src/AgentLink/Calm.antt =====
-- What the calls behind an agent's link leave alone: only the end of a verification makes the link
-- ready, names its device, and reports it last.
use termlink.Prelude.{
  ◌+◌, ◌*◌, ℕ, ◌≡◌, String, Bool, true, false, List, [], ◌∷◌, ◌++◌, Option, none, some, arith,
  Option-cases, inl, inr, get_elem?,
}
use termlink.Credentials.{Scrypt, Bytes}
use termlink.RateLimit.{AuthRateLimiter, try_acquire}
use termlink.DeviceProtocol.{
  DeviceClientMessage, device_register, device_auth, agent_goodbye, Enrollment, device_err,
  registered, authenticated,
}
use termlink.DeviceStore
use termlink.DeviceStore.{DeviceStore, DeviceConfig, remove_at}
use termlink.AgentLink.{
  ready, closed, Waiting, refused, registering, verifying, LinkOut, reports_ready,
  reports_link_closed, LinkConfig, AgentLink, raw_send, send_message, teardown, terminate_link,
  on_socket_close, fail_link, ask_store, throttle_link, link_limited, authenticate, go_ready,
  settle, resume, warned, note, flushes_channel,
}
use termlink.AgentLink.Messages.{
  remove_channel, open_channel, handle_client_message, LinkEvent, message_arrives, invalid_arrives,
  store_answers, channel_opens, channel_closes, auth_times_out, idle_times_out, socket_closes,
  channel_sends, channel_pauses, drain_is_due, link_ends, on_message, step, flush_each, note_paused,
  on_drain_tick,
}

-- The device of the report that was made last, if that says that the link is ready.
abbrev pub ready_in : List LinkOut → Option String
ready_in (reports_ready id ∷ out) = some id
ready_in _ = none

-- Whether the report that was made last says that the link has closed.
abbrev pub closed_in : List LinkOut → Bool
closed_in (reports_link_closed ∷ out) = true
closed_in _ = false

pub record Calm (l l' : AgentLink) : Type 0 where
  pub unready : l'.state ≡ ready → l.state ≡ ready
  pub device_kept : l'.device_id ≡ l.device_id
  unreported : ready_in l.out ≡ none → ready_in l'.out ≡ none
  ended : closed_in l.out ≡ false → closed_in l'.out ≡ true → l'.state ≡ closed

-- What a call shows to whoever sees its reports.
pub record Shows (l l' : AgentLink) : Type 0 where
  pub stays : ready_in l'.out ≡ none → l'.state ≡ ready → l.state ≡ ready
  pub same_device : ready_in l'.out ≡ none → l'.device_id ≡ l.device_id
  pub over : closed_in l'.out ≡ true → l'.state ≡ closed
  pub named : (id : String) → ready_in l'.out ≡ some id → l'.device_id ≡ some id

Calm-Shows :
    (l l' : AgentLink) → ready_in l.out ≡ none → closed_in l.out ≡ false → Calm l l' → Shows l l'
Calm-Shows l l' new quiet c = record {
  stays = λ e. c.unready;
  same_device = λ e. c.device_kept;
  over = c.ended quiet;
  named = λ id e. ground (arith, c.unreported);
}

pub terminate-Calm :
    (reason : Option String) (now : ℕ) (l : AgentLink) → Calm l (terminate_link reason now l)
unfolding terminate_link teardown
terminate-Calm reason now l = ground arith

fail-Calm : (error : String) (now : ℕ) (l : AgentLink) → Calm l (fail_link error now l)
unfolding fail_link
fail-Calm error now l =
    let sent = raw_send (device_err error) l in ground (arith, terminate-Calm (some error) now sent)

on_socket_close-Calm : (now : ℕ) (l : AgentLink) → Calm l (on_socket_close now l)
unfolding on_socket_close teardown
on_socket_close-Calm now l = ground arith

go_ready-Shows :
    (mode : Enrollment) (c : DeviceConfig) (now : ℕ) (l : AgentLink)
    → ready_in l.out ≡ none
    → closed_in l.out ≡ false
    → Shows l (go_ready mode c now l)
unfolding go_ready
go_ready-Shows mode c now l new quiet = ground (arith, new, quiet)

module _ (cfg : LinkConfig) (scrypt : Scrypt) where
  throttle-Calm :
      (register : Bool) (id secret : String) (token : Option String) (now : ℕ) (l : AgentLink)
      → Calm l (throttle_link cfg scrypt register id secret token now l)
  unfolding throttle_link ask_store
  throttle-Calm register id secret token now l =
      let late = record l { locked_until = now + cfg.backoff_ms * l.attempts } in
      ground (
        arith,
        fail-Calm "Too many attempts; try again later" now l,
        fail-Calm "Too many failed attempts" now late,
        fail-Calm "Unknown device id" now (record l { attempts = l.attempts + 1 }),
      )

  limited-Calm :
      (register : Bool) (id secret : String) (token : Option String) (now : ℕ) (l : AgentLink)
      (answer : Bool × AuthRateLimiter)
      → Calm l (link_limited cfg scrypt register id secret token now l answer)
  limited-Calm register id secret token now l (true, m) =
      let g = throttle-Calm register id secret token now (record l { limiter = some m }) in
      ground (arith, g)
  limited-Calm register id secret token now l (false, m) =
      let error : String = "Too many authentication attempts; try again later" in
      ground (arith, fail-Calm error now (record l { limiter = some m }))

  authenticate-Calm :
      (register : Bool) (id secret : String) (token : Option String) (now : ℕ) (l : AgentLink)
      → Calm l (authenticate cfg scrypt register id secret token now l)
  unfolding authenticate
  authenticate-Calm register id secret token now l = elim (Option-cases l.limiter) [
    | inl off ↦ ground (
      arith,
      fail-Calm "Already authenticated" now l,
      throttle-Calm register id secret token now l,
    )
    | inr (m, on) ↦ ground (
      arith,
      fail-Calm "Already authenticated" now l,
      limited-Calm register id secret token now l (try_acquire cfg.remote_address now m),
    )
  ]

  settle-Shows :
      (place : ℕ) (salt : Bytes) (now : ℕ) (w : Waiting) (l : AgentLink)
      → ready_in l.out ≡ none
      → closed_in l.out ≡ false
      → Shows l (settle scrypt place salt now w l)
  unfolding settle
  settle-Shows place salt now (refused error) l new quiet =
      Calm-Shows l _ new quiet (fail-Calm error now l)
  settle-Shows place salt now (registering c) l new quiet =
      let store = warned c (DeviceStore.finish_register scrypt place salt now l.store) in
      let s = go_ready-Shows registered c now (record l { store = store }) new quiet in
      record { stays = s.stays; same_device = s.same_device; over = s.over; named = s.named }
  settle-Shows place salt now (verifying c true) l new quiet =
      go_ready-Shows authenticated c now l new quiet
  settle-Shows place salt now (verifying c false) l new quiet =
      Calm-Shows l _ new quiet (fail-Calm "Invalid device secret" now l)

  resume-Shows :
      (i place : ℕ) (salt : Bytes) (now : ℕ) (l : AgentLink)
      → ready_in l.out ≡ none
      → closed_in l.out ≡ false
      → Shows l (resume scrypt i place salt now l)
  unfolding resume
  resume-Shows i place salt now l new quiet = elim (Option-cases (get_elem? l.pending i)) [
    | inl gone ↦ rw (gone, resume) (Calm-Shows l l new quiet (ground arith))
    | inr (w, waits) ↦
        let s =
          settle-Shows place salt now w (record l { pending = remove_at l.pending i }) new quiet in
        rw (waits, resume)
          (record { stays = s.stays; same_device = s.same_device; over = s.over; named = s.named })
  ]

  pub remove_channel-Calm :
      (fits : Bool) (id : String) (reason : Option String) (now : ℕ) (l : AgentLink)
      → Calm l (remove_channel fits id reason now l)
  unfolding remove_channel send_message
  remove_channel-Calm fits id reason now l = ground arith

  open_channel-Calm :
      (fits : Bool) (id : String) (cols rows now : ℕ) (l : AgentLink)
      → Calm l (open_channel fits id cols rows now l)
  unfolding open_channel send_message
  open_channel-Calm fits id cols rows now l =
      let reason : Option String = some "Superseded by a new attachment" in
      ground (arith, remove_channel-Calm fits id reason now l)

  handle-Calm :
      (m : DeviceClientMessage) (now : ℕ) (l : AgentLink)
      → Calm l (handle_client_message cfg scrypt m now l)
  unfolding handle_client_message
  handle-Calm (device_register id secret token) now l = authenticate-Calm true id secret token now l
  handle-Calm (device_auth id secret) now l = authenticate-Calm false id secret none now l
  handle-Calm (agent_goodbye reason) now l = terminate-Calm _ now l
  handle-Calm _ now l = ground arith

  flush_each-Calm :
      (left : ℕ → Bool) (paused : List (ℕ × String)) (l : AgentLink)
      → Calm l (flush_each left paused l)
  unfolding flush_each
  flush_each-Calm left [] l = ground arith
  flush_each-Calm left ((session, id) ∷ paused) l =
      let l' = note (flushes_channel session) l in
      let kept = record l' { paused_channels = l'.paused_channels ++ (session, id) ∷ [] } in
      ground (arith, flush_each-Calm left paused kept, flush_each-Calm left paused l')

  tick-Calm : (low : Bool) (left : ℕ → Bool) (l : AgentLink) → Calm l (on_drain_tick low left l)
  unfolding on_drain_tick
  tick-Calm low left l =
      let flushed = flush_each-Calm left l.paused_channels (record l { paused_channels = [] }) in
      ground (arith, flushed)

  pub step-Shows :
      (e : LinkEvent) (l : AgentLink)
      → ready_in l.out ≡ none
      → closed_in l.out ≡ false
      → Shows l (step cfg scrypt e l)
  unfolding step on_message send_message note_paused
  step-Shows (message_arrives m now) l new quiet =
      Calm-Shows l _ new quiet (ground (arith, handle-Calm m now l))
  step-Shows (invalid_arrives error now) l new quiet =
      Calm-Shows l _ new quiet (fail-Calm error now l)
  step-Shows (store_answers i place salt now) l new quiet =
      resume-Shows i place salt now l new quiet
  step-Shows (channel_opens fits id cols rows now) l new quiet =
      Calm-Shows l _ new quiet (open_channel-Calm fits id cols rows now l)
  step-Shows (channel_closes fits id reason now) l new quiet =
      Calm-Shows l _ new quiet (remove_channel-Calm fits id reason now l)
  step-Shows (auth_times_out now) l new quiet =
      Calm-Shows l _ new quiet (ground (arith, fail-Calm "Authentication timed out" now l))
  step-Shows (idle_times_out now) l new quiet = Calm-Shows l _ new quiet (terminate-Calm _ now l)
  step-Shows (socket_closes now) l new quiet = Calm-Shows l _ new quiet (on_socket_close-Calm now l)
  step-Shows (channel_sends fits m) l new quiet = Calm-Shows l _ new quiet (ground arith)
  step-Shows (channel_pauses session id) l new quiet = Calm-Shows l _ new quiet (ground arith)
  step-Shows (drain_is_due low left) l new quiet = Calm-Shows l _ new quiet (tick-Calm low left l)
  step-Shows (link_ends reason now) l new quiet =
      Calm-Shows l _ new quiet (terminate-Calm reason now l)
