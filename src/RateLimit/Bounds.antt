-- ===== src/RateLimit/Bounds.antt =====
-- How many attempts the limiter grants.
use termlink.Prelude.{
  ℕ, ◌+◌, ◌*◌, ◌≤◌, ◌<◌, ◌≡◌, String, Bool, true, false, List, [], ◌∷◌, Option, none, some, All,
  arith,
}
use termlink.RateLimit.{
  AuthRateLimiter, cleanup, roll_global, acquire_ip, per_ip, count_granted, admit, clean_granted,
  try_acquire, try_all,
}

abbrev pub granted : List Bool → ℕ
granted [] = 0
granted (true ∷ answers) = granted answers + 1
granted (false ∷ answers) = granted answers

abbrev one_if : Bool → ℕ
one_if true = 1
one_if false = 0

-- What an attempt does to the global window of an active limiter.
record Counts (now : ℕ) (l l' : AuthRateLimiter) (b : Bool) : Type 0 where
  window : l'.window_ms ≡ l.window_ms
  limit : l'.global_limit ≡ l.global_limit
  within : l'.global_count ≤ l'.global_limit
  same_window :
      now < l.global_start + l.window_ms
      → (l'.global_start ≡ l.global_start) × (l'.global_count ≡ l.global_count + one_if b)
  new_window :
      l.global_start + l.window_ms ≤ now → (l'.global_start ≡ now) × (l'.global_count ≡ one_if b)

-- The address and the cleanup leave the global window alone.
per_ip-global :
    (ip : Option String) (now : ℕ) (l : AuthRateLimiter)
    → let l' = (per_ip ip now l).1 in
      (l'.window_ms ≡ l.window_ms)
      × (l'.global_limit ≡ l.global_limit)
      × (l'.global_start ≡ l.global_start)
      × (l'.global_count ≡ l.global_count)
unfolding per_ip acquire_ip
per_ip-global none now l = ground arith
per_ip-global (some ip) now l = ground arith

cleanup-global :
    (now : ℕ) (l : AuthRateLimiter)
    → let l' = cleanup now l in
      (l'.window_ms ≡ l.window_ms)
      × (l'.global_limit ≡ l.global_limit)
      × (l'.global_start ≡ l.global_start)
      × (l'.global_count ≡ l.global_count)
unfolding cleanup
cleanup-global now l = ground arith

clean_granted-Counts :
    (now : ℕ) (l : AuthRateLimiter) (x : Bool × AuthRateLimiter)
    → Counts now l x.1 x.0
    → Counts now l (clean_granted now x).1 (clean_granted now x).0
unfolding clean_granted
clean_granted-Counts now l (true, m) c = ground (arith, cleanup-global now m)
clean_granted-Counts now l (false, m) c = c

admit-Counts :
    (ip : Option String) (now : ℕ) (l : AuthRateLimiter)
    → 0 < l.global_limit
    → l.global_count ≤ l.global_limit
    → Counts now l (admit ip now l).1 (admit ip now l).0
unfolding admit roll_global count_granted
admit-Counts ip now l pos fits = ground (arith, per_ip-global ip now (roll_global now l))

try_acquire-Counts :
    (ip : Option String) (now : ℕ) (l : AuthRateLimiter)
    → 0 < l.window_ms
    → 0 < l.global_limit
    → l.global_count ≤ l.global_limit
    → Counts now l (try_acquire ip now l).1 (try_acquire ip now l).0
unfolding try_acquire
try_acquire-Counts ip now l w pos fits =
    ground (arith, clean_granted-Counts now l (admit ip now l) (admit-Counts ip now l pos fits))

-- Attempts at times from `a` on and before `b`.
abbrev pub Between : ℕ → ℕ → List (Option String × ℕ) → Type 0
Between a b attempts = All (λ e. (a ≤ e.1) × (e.1 < b)) attempts

-- The window was opened in the interval, so it lasts until its end.
granted_late :
    (a : ℕ) (l : AuthRateLimiter) (attempts : List (Option String × ℕ))
    → 0 < l.window_ms
    → 0 < l.global_limit
    → l.global_count ≤ l.global_limit
    → a ≤ l.global_start
    → Between a (a + l.window_ms) attempts
    → granted (try_all l attempts) + l.global_count ≤ l.global_limit
unfolding try_all
granted_late a l [] w pos fits late times = omega arith
granted_late a l ((ip, now) ∷ attempts) w pos fits late times =
    let c = try_acquire-Counts ip now l w pos fits in
    let l' = (try_acquire ip now l).1 in
    let times' : Between a (a + l'.window_ms) attempts = rw (c.window) times.1 in
    ground (arith, c, granted_late a l' attempts, times')

-- In an interval as long as the window, at most twice the global limit is granted, for a positive
-- window and limit, whatever happened before as long as the count was within the limit, from
-- whatever addresses the attempts come, and also if the clock goes back inside the interval; what
-- the window that is open at the beginning has granted before counts towards the two limits.
granted-le-twice :
    (a : ℕ) (l : AuthRateLimiter) (attempts : List (Option String × ℕ))
    → 0 < l.window_ms
    → 0 < l.global_limit
    → l.global_count ≤ l.global_limit
    → Between a (a + l.window_ms) attempts
    → granted (try_all l attempts) + l.global_count ≤ 2 * l.global_limit
unfolding try_all
granted-le-twice a l [] w pos fits times = omega arith
granted-le-twice a l ((ip, now) ∷ attempts) w pos fits times =
    let c = try_acquire-Counts ip now l w pos fits in
    let l' = (try_acquire ip now l).1 in
    let times' : Between a (a + l'.window_ms) attempts = rw (c.window) times.1 in
    ground (arith, c, granted_late a l' attempts, granted-le-twice a l' attempts, times')
