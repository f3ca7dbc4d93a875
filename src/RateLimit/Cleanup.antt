-- ===== src/RateLimit/Cleanup.antt =====
-- The records that the limiter of server/src/rate-limit.ts drops, and a limiter that keeps them.
use mathlib.Core.Path.{ap₂}
use termlink.Prelude.{
  ℕ, ◌+◌, ◌≤◌, ◌≡◌, refl, String, Bool, true, false, List, [], ◌∷◌, Option, none, some, Bool-cases,
  inl, inr, arith, ltb, if◌then◌else◌, ap, ◌∙◌, sym,
}
use termlink.Prelude.Dict.{Dict, get, Distinct, put-Distinct, purge-Distinct, get-purge}
use termlink.RateLimit.{
  Window, AuthRateLimiter, elapsed, cleanup, roll_global, current_window, acquire_ip, per_ip,
  count_granted, admit, clean_granted, new_limiter, try_acquire, try_all,
}
use termlink.RateLimit.Alike.{SameRecords, IsAlike, IsAlike-later, SameAnswers, admit-SameAnswers}

-- The limiter without the call of `cleanup`.
pub try_forever : Option String → ℕ → AuthRateLimiter → Bool × AuthRateLimiter
try_forever ip now l = if ltb l.window_ms 1 then (true, l) else admit ip now l

pub try_all_forever : AuthRateLimiter → List (Option String × ℕ) → List Bool
try_all_forever l [] = []
try_all_forever l ((ip, now) ∷ attempts) =
    let (allowed, l') = try_forever ip now l in allowed ∷ try_all_forever l' attempts

cleanup-SameRecords :
    (now : ℕ) (l : AuthRateLimiter)
    → Distinct l.ip_counts
    → SameRecords l.window_ms now (cleanup now l).ip_counts l.ip_counts
unfolding cleanup
cleanup-SameRecords now l h ip =
    ground (arith, get-purge (elapsed l.window_ms now) l.ip_counts ip h)

-- Times that never go back, from a given time on.
abbrev pub Ordered : ℕ → List (Option String × ℕ) → Type 0
Ordered t [] = Unit
Ordered t ((ip, now) ∷ attempts) = (t ≤ now) × Ordered now attempts

admit-Distinct :
    (ip : Option String) (now : ℕ) (l : AuthRateLimiter)
    → Distinct l.ip_counts
    → Distinct (admit ip now l).1.ip_counts
unfolding admit roll_global per_ip acquire_ip count_granted
admit-Distinct none now l h = ground arith
admit-Distinct (some ip) now l h =
    let rec = current_window l.window_ms now (get l.ip_counts ip) in
    ground (
      arith,
      put-Distinct l.ip_counts ip rec h,
      put-Distinct l.ip_counts ip (record rec { count = rec.count + 1 }) h,
    )

cleanup-Distinct :
    (now : ℕ) (l : AuthRateLimiter) → Distinct l.ip_counts → Distinct (cleanup now l).ip_counts
unfolding cleanup
cleanup-Distinct now l h =
    ground (arith, purge-Distinct (elapsed l.window_ms now) l.ip_counts l.ip_counts h)

cleanup-rest :
    (now : ℕ) (l : AuthRateLimiter)
    → ((cleanup now l).window_ms ≡ l.window_ms)
      × (cleanup now l ≡ record l { ip_counts = (cleanup now l).ip_counts })
unfolding cleanup
cleanup-rest now l = ground arith

cleanup-IsAlike :
    (now : ℕ) (l k : AuthRateLimiter)
    → Distinct l.ip_counts
    → IsAlike now l k
    → IsAlike now (cleanup now l) k
cleanup-IsAlike now l k h a =
    let (window, rest) = cleanup-rest now l in
    record {
      rest = a.rest ∙ ap (λ (m : AuthRateLimiter). record m { ip_counts = k.ip_counts }) (sym rest);
      records = λ ip. rw window (cleanup-SameRecords now l h ip ∙ a.records ip);
    }

cleaned-SameAnswers :
    (now : ℕ) (x y : Bool × AuthRateLimiter)
    → Distinct x.1.ip_counts
    → SameAnswers now x y
    → SameAnswers now (clean_granted now x) y × Distinct (clean_granted now x).1.ip_counts
unfolding clean_granted
cleaned-SameAnswers now (true, l) y h a =
    ((a.0, cleanup-IsAlike now l y.1 h a.1), cleanup-Distinct now l h)
cleaned-SameAnswers now (false, l) y h a = (a, h)

try_acquire-SameAnswers :
    (ip : Option String) (now : ℕ) (l : AuthRateLimiter) (d : Dict Window)
    → Distinct l.ip_counts
    → SameRecords l.window_ms now l.ip_counts d
    → SameAnswers now (try_acquire ip now l) (try_forever ip now (record l { ip_counts = d }))
      × Distinct (try_acquire ip now l).1.ip_counts
unfolding try_acquire try_forever
try_acquire-SameAnswers ip now l d h a = elim (Bool-cases (ltb l.window_ms 1)) [
  | inl off ↦ rw off ((refl, record { rest = refl; records = a }), h)
  | inr on ↦ rw on (
      cleaned-SameAnswers now (admit ip now l) (admit ip now (record l { ip_counts = d }))
        (admit-Distinct ip now l h) (admit-SameAnswers ip now l d a))
]

try_all-from :
    (attempts : List (Option String × ℕ)) (t : ℕ) (l : AuthRateLimiter) (k : AuthRateLimiter)
    → Ordered t attempts
    → Distinct l.ip_counts
    → IsAlike t l k
    → try_all l attempts ≡ try_all_forever k attempts
unfolding try_all try_all_forever
try_all-from [] t l k o h a = refl
try_all-from ((ip, now) ∷ attempts) t l k o h a =
    let later = IsAlike-later t now l k o.0 a in
    let (same, distinct) = try_acquire-SameAnswers ip now l k.ip_counts h later.records in
    rw (later.rest)
      (ap₂ ◌∷◌ same.0 (try_all-from attempts now (try_acquire ip now l).1 _ o.1 distinct same.1))

-- A limiter that is created and then asked at times that never go back gives the same answers,
-- to every attempt, as one that never drops a record.
pub try_all-eq-forever :
    (window_ms global_limit per_ip_limit : ℕ) (attempts : List (Option String × ℕ))
    → Ordered 0 attempts
    → try_all (new_limiter window_ms global_limit per_ip_limit) attempts
      ≡ try_all_forever (new_limiter window_ms global_limit per_ip_limit) attempts
unfolding new_limiter
try_all-eq-forever w g p attempts o =
    try_all-from attempts 0 (new_limiter w g p) (new_limiter w g p) o tt
      (record { rest = refl; records = λ ip. refl })
