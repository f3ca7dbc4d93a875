-- ===== src/AgentLink/Lifetime.antt =====
-- The life of an agent's link: how often it is authenticated, and that it closes once.
use termlink.Prelude.{ℕ, ◌≤◌, ◌≡◌, String, true, List, [], ◌∷◌, Option, some, arith}
use termlink.Credentials.{Scrypt, Bytes}
use termlink.RateLimit.{AuthRateLimiter}
use termlink.DeviceStore.{DeviceStore, DeviceConfig}
use termlink.AgentLink.{
  authenticating, closed, verifying, LinkConfig, AgentLink, new_link, go_ready, settle, resume,
}
use termlink.AgentLink.Messages.{LinkEvent, run}
use termlink.AgentLink.Goes.{asked, closes, readies, if_closed, run-Goes}

module _ (cfg : LinkConfig) (scrypt : Scrypt) where
  -- A new link never asks the store more often than the configured number of attempts, however many
  -- messages an agent sends while others are being checked; and its end is reported exactly once,
  -- however many causes it has.
  pub closes-run :
      (connection_id : String) (store : DeviceStore) (limiter : Option AuthRateLimiter)
      (events : List LinkEvent)
      → let l = run cfg scrypt events (new_link connection_id store limiter) in
        (asked l.out ≤ cfg.max_attempts) × (closes l.out ≡ if_closed l.state)
  unfolding new_link
  closes-run connection_id store limiter events =
      let l = new_link connection_id store limiter in ground (arith, run-Goes cfg scrypt events l)

  -- A link that has closed is never reported ready afterwards, whatever answers still come in.
  readies-run_closed :
      (events : List LinkEvent) (l : AgentLink)
      → l.state ≡ closed
      → readies (run cfg scrypt events l).out ≡ readies l.out
  readies-run_closed events l h = ((run-Goes cfg scrypt events l).final h).1

  -- An open link on which two authentications with the right secrets are being checked at the same
  -- time is reported ready for both, and ends up as the second one's device, which may be another.
  pub readies-resume_twice :
      (c d : DeviceConfig) (place : ℕ) (salt : Bytes) (now later : ℕ) (l : AgentLink)
      → l.state ≡ authenticating
      → l.pending ≡ verifying c true ∷ verifying d true ∷ []
      → let l' = resume scrypt 0 place salt later (resume scrypt 0 place salt now l) in
        (readies l'.out ≡ d.id ∷ c.id ∷ readies l.out) × (l'.device_id ≡ some d.id)
  unfolding resume settle go_ready
  readies-resume_twice c d place salt now later l h k = ground arith
