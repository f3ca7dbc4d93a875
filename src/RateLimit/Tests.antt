-- ===== src/RateLimit/Tests.antt =====
-- A limiter of two attempts a second in all, and one from each address.
use termlink.Prelude.{ℕ, ◌≡◌, String, List, ◌∷◌, [], Option, none, some, arith}
use termlink.RateLimit.{new_limiter, try_all}
use termlink.RateLimit.Cleanup.{try_all_forever, try_all-eq-forever}

abbrev attempts : List (Option String × ℕ)
attempts =
    (some "10.0.0.1", 10)
    ∷ (some "10.0.0.1", 20)
    ∷ (some "10.0.0.2", 30)
    ∷ (none, 40)
    ∷ (some "10.0.0.1", 900)
    ∷ []

try_all-eq-forever_example :
    try_all (new_limiter 1000 2 1) attempts ≡ try_all_forever (new_limiter 1000 2 1) attempts
try_all-eq-forever_example =
    try_all-eq-forever 1000 2 1 attempts
      (omega arith, (omega arith, (omega arith, (omega arith, (omega arith, tt)))))
