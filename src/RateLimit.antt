-- ===== src/RateLimit.antt =====
-- server/src/rate-limit.ts: the fixed-window limiter of authentication attempts. `Date.now()` is
-- an argument. `now - start >= windowMs` is written `start + window_ms ≤ now`, which is the same
-- also where the clock has gone back.
pub mod Alike
pub mod Cleanup
pub mod Bounds
mod Tests
use termlink.Prelude.{
  ℕ, suc, ◌+◌, String, Bool, true, false, ◌&&◌, ◌||◌, List, [], ◌∷◌, Option, none, some, ltb, leb,
  truthy, if◌then◌else◌, length,
}
use termlink.Prelude.Dict.{Dict, get, put, purge}

pub record Window : Type 0 where
  pub start : ℕ
  pub count : ℕ

pub record AuthRateLimiter : Type 0 where
  pub window_ms : ℕ
  pub global_limit : ℕ
  pub per_ip_limit : ℕ
  pub global_start : ℕ
  pub global_count : ℕ
  pub ip_counts : Dict Window

unfoldable pub new_limiter : ℕ → ℕ → ℕ → AuthRateLimiter
new_limiter window_ms global_limit per_ip_limit = record {
  window_ms = window_ms;
  global_limit = global_limit;
  per_ip_limit = per_ip_limit;
  global_start = 0;
  global_count = 0;
  ip_counts = [];
}

abbrev pub elapsed : ℕ → ℕ → Window → Bool
elapsed window_ms now rec = leb (rec.start + window_ms) now

abbrev pub cleanup_size : ℕ
cleanup_size = 1024

unfoldable pub cleanup : ℕ → AuthRateLimiter → AuthRateLimiter
cleanup now l =
    if ltb (length l.ip_counts) cleanup_size
    then l
    else record l { ip_counts = purge (elapsed l.window_ms now) l.ip_counts l.ip_counts }

-- The window of the whole server, opened anew once it has elapsed.
unfoldable pub roll_global : ℕ → AuthRateLimiter → AuthRateLimiter
roll_global now l =
    if ltb 0 l.global_limit && leb (l.global_start + l.window_ms) now
    then record l { global_start = now; global_count = 0 }
    else l

-- The record of an address, or a new one if there is none or its window has elapsed.
unfoldable pub current_window : ℕ → ℕ → Option Window → Window
current_window window_ms now none = record { start = now; count = 0 }
current_window window_ms now (some rec) =
    if elapsed window_ms now rec then record { start = now; count = 0 } else rec

unfoldable pub acquire_ip : String → ℕ → AuthRateLimiter → Bool × AuthRateLimiter
acquire_ip ip now l =
    let rec = current_window l.window_ms now (get l.ip_counts ip) in
    if leb l.per_ip_limit rec.count
    then (false, record l { ip_counts = put l.ip_counts ip rec })
    else (true, record l { ip_counts = put l.ip_counts ip (record rec { count = rec.count + 1 }) })

-- `if (ip && this.perIpLimit > 0)`
unfoldable pub per_ip : Option String → ℕ → AuthRateLimiter → Bool × AuthRateLimiter
per_ip none now l = (true, l)
per_ip (some ip) now l =
    if truthy ip && ltb 0 l.per_ip_limit then acquire_ip ip now l else (true, l)

-- `globalCount++`, where nothing has refused the attempt.
unfoldable pub count_granted : Bool × AuthRateLimiter → Bool × AuthRateLimiter
count_granted (true, l) = (true, record l { global_count = l.global_count + 1 })
count_granted (false, l) = (false, l)

abbrev pub is_full : AuthRateLimiter → Bool
is_full l = ltb 0 l.global_limit && leb l.global_limit l.global_count

-- All of `tryAcquire` but the call of `cleanup` at its end.
unfoldable pub admit : Option String → ℕ → AuthRateLimiter → Bool × AuthRateLimiter
admit ip now l =
    let rolled = roll_global now l in
    if is_full rolled then (false, rolled) else count_granted (per_ip ip now rolled)

-- A granted attempt ends in `cleanup`.
unfoldable pub clean_granted : ℕ → Bool × AuthRateLimiter → Bool × AuthRateLimiter
clean_granted now (true, l) = (true, cleanup now l)
clean_granted now (false, l) = (false, l)

unfoldable pub try_acquire : Option String → ℕ → AuthRateLimiter → Bool × AuthRateLimiter
try_acquire ip now l = if ltb l.window_ms 1 then (true, l) else clean_granted now (admit ip now l)

-- Attempts, each from an address and at a time: what was granted to each.
unfoldable pub try_all : AuthRateLimiter → List (Option String × ℕ) → List Bool
try_all l [] = []
try_all l ((ip, now) ∷ attempts) =
    let (allowed, l') = try_acquire ip now l in allowed ∷ try_all l' attempts
