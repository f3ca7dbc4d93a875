-- ===== src/Sessions/Tests.antt =====
-- The registry with two sessions.
use termlink.Prelude.{◌≡◌, refl, none, some, arith}
use termlink.Prelude.Dict.{get, put}
use termlink.Sessions.{Session, SessionRegistry, empty, create, get_by_connection_id, expire_due}
use termlink.Sessions.Laws.{
  creates, Reach, start, next, Reach-IsConsistent, Reach-one_session, get-expire_due,
}

abbrev one : SessionRegistry
one = (create "s1" "c1" 100 empty).0

abbrev two : SessionRegistry
two = (create "s2" "c2" 150 one).0

abbrev first : Session
first = record { id = "s1"; connection_id = "c1"; created_at = 100 }

one-Reach : Reach one
unfolding create get
one-Reach = next start (creates "s1" "c1" 100 empty refl refl)

two-Reach : Reach two
unfolding create get put
two-Reach = next one-Reach (creates "s2" "c2" 150 one refl refl)

first_there : get two.sessions "s1" ≡ some first
unfolding create get put
first_there = refl

Reach-one_session_example :
    (first.id ≡ first.id) × (get_by_connection_id first.connection_id two ≡ some first)
Reach-one_session_example =
    Reach-one_session two "s1" "s1" first first two-Reach first_there first_there refl

-- The older session goes, the younger stays.
sweeps_older : get (expire_due 60 170 two).0.sessions "s1" ≡ none
sweeps_older =
    rw (get-expire_due 60 170 two "s1" (Reach-IsConsistent two-Reach) (omega arith), first_there)
      refl
