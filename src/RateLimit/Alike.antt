-- ===== src/RateLimit/Alike.antt =====
-- Attempts on limiters that differ only in records of windows that have elapsed.
use termlink.Prelude.{
  ℕ, ◌≤◌, ◌≡◌, refl, String, Bool, true, false, Option, none, some, Bool-cases, inl, inr, arith,
  ltb, leb, truthy, ◌&&◌,
}
use termlink.Prelude.Dict.{Dict, get, put, get-put, unless}
use termlink.RateLimit.{
  Window, AuthRateLimiter, elapsed, roll_global, current_window, acquire_ip, per_ip, count_granted,
  is_full, admit,
}

-- Alike at a time: the same but for records of windows that have elapsed.
abbrev pub SameRecords : ℕ → ℕ → Dict Window → Dict Window → Type 0
SameRecords window_ms now d e =
    (ip : String)
    → unless (elapsed window_ms now) (get d ip) ≡ unless (elapsed window_ms now) (get e ip)

pub record IsAlike (now : ℕ) (l k : AuthRateLimiter) : Type 0 where
  pub rest : k ≡ record l { ip_counts = k.ip_counts }
  pub records : SameRecords l.window_ms now l.ip_counts k.ip_counts

unless-later :
    (w now later : ℕ) (o o' : Option Window)
    → now ≤ later
    → unless (elapsed w now) o ≡ unless (elapsed w now) o'
    → unless (elapsed w later) o ≡ unless (elapsed w later) o'
unless-later w now later o o' h e = ground arith

pub IsAlike-later :
    (now later : ℕ) (l k : AuthRateLimiter) → now ≤ later → IsAlike now l k → IsAlike later l k
IsAlike-later now later l k h a = record {
  rest = a.rest;
  records = λ ip.
      unless-later l.window_ms now later (get l.ip_counts ip) (get k.ip_counts ip) h (a.records ip);
}

current_window-unless :
    (w now : ℕ) (o o' : Option Window)
    → unless (elapsed w now) o ≡ unless (elapsed w now) o'
    → current_window w now o ≡ current_window w now o'
unfolding current_window
current_window-unless w now o o' h = ground arith

put-SameRecords :
    (w now : ℕ) (d e : Dict Window) (ip : String) (rec : Window)
    → SameRecords w now d e
    → SameRecords w now (put d ip rec) (put e ip rec)
put-SameRecords w now d e ip rec h j = ground (arith, get-put d ip j rec, get-put e ip j rec, h j)

-- One attempt, on a limiter and on another with the same records.
abbrev pub SameAnswers : ℕ → Bool × AuthRateLimiter → Bool × AuthRateLimiter → Type 0
SameAnswers now x y = (x.0 ≡ y.0) × IsAlike now x.1 y.1

acquire_ip-SameAnswers :
    (ip : String) (now : ℕ) (l : AuthRateLimiter) (d : Dict Window)
    → SameRecords l.window_ms now l.ip_counts d
    → SameAnswers now (acquire_ip ip now l) (acquire_ip ip now (record l { ip_counts = d }))
unfolding acquire_ip
acquire_ip-SameAnswers ip now l d h =
    let rec = current_window l.window_ms now (get l.ip_counts ip) in
    let same = current_window-unless l.window_ms now (get l.ip_counts ip) (get d ip) (h ip) in
    elim (Bool-cases (leb l.per_ip_limit rec.count)) [
      | inl full ↦
          rw (← same, full)
            (
              refl,
              record {
                rest = refl;
                records = put-SameRecords l.window_ms now l.ip_counts d ip rec h;
              },
            )
      | inr room ↦
          rw (← same, room)
            (
              refl,
              record {
                rest = refl;
                records = put-SameRecords l.window_ms now l.ip_counts d ip _ h;
              },
            )
    ]

per_ip-SameAnswers :
    (ip : Option String) (now : ℕ) (l : AuthRateLimiter) (d : Dict Window)
    → SameRecords l.window_ms now l.ip_counts d
    → SameAnswers now (per_ip ip now l) (per_ip ip now (record l { ip_counts = d }))
unfolding per_ip
per_ip-SameAnswers none now l d h = (refl, record { rest = refl; records = h })
per_ip-SameAnswers (some ip) now l d h = elim (Bool-cases (truthy ip && ltb 0 l.per_ip_limit)) [
  | inl counted ↦ rw counted (acquire_ip-SameAnswers ip now l d h)
  | inr free ↦ rw free (refl, record { rest = refl; records = h })
]

counted-SameAnswers :
    (now : ℕ) (x y : Bool × AuthRateLimiter)
    → SameAnswers now x y
    → SameAnswers now (count_granted x) (count_granted y)
unfolding count_granted
counted-SameAnswers now (true, l) (true, k) h =
    (refl, record { rest = ground arith; records = h.1.records })
counted-SameAnswers now (false, l) (false, k) h = h
counted-SameAnswers now (true, l) (false, k) h = cc
counted-SameAnswers now (false, l) (true, k) h = cc

roll_global-counts :
    (now : ℕ) (l : AuthRateLimiter) (d : Dict Window)
    → (roll_global now (record l { ip_counts = d }) ≡ record (roll_global now l) { ip_counts = d })
      × ((roll_global now l).ip_counts ≡ l.ip_counts)
      × ((roll_global now l).window_ms ≡ l.window_ms)
unfolding roll_global
roll_global-counts now l d = ground arith

pub admit-SameAnswers :
    (ip : Option String) (now : ℕ) (l : AuthRateLimiter) (d : Dict Window)
    → SameRecords l.window_ms now l.ip_counts d
    → SameAnswers now (admit ip now l) (admit ip now (record l { ip_counts = d }))
unfolding admit
admit-SameAnswers ip now l d h =
    let (rolled, counts, window) = roll_global-counts now l d in
    let r = roll_global now l in
    let h' : SameRecords r.window_ms now r.ip_counts d = rw (counts, window) h in
    elim (Bool-cases (is_full r)) [
      | inl full ↦ rw (rolled, full) (refl, record { rest = refl; records = h' })
      | inr room ↦
          rw (rolled, room)
            (counted-SameAnswers now (per_ip ip now r) (per_ip ip now (record r { ip_counts = d }))
              (per_ip-SameAnswers ip now r d h'))
    ]
