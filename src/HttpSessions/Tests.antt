-- ===== src/HttpSessions/Tests.antt =====
-- A store of two sessions, and an eviction from it.
use termlink.Prelude.{◌≡◌, refl, none, some, ◌≤◌, List, ◌∷◌, []}
use termlink.Prelude.Dict.{get, put, remove}
use termlink.HttpSessions.{
  by_token, Call, creates, verifies, run, HttpSession, new_session, seen, evict, create, step,
  evict_if_oversized, verify, delete_all, by_last_seen, insert_by_age,
}
use termlink.HttpSessions.Eviction.{evicts_oldest}
use termlink.HttpSessions.Store.{run_from_empty}

abbrev calls : List Call
calls = creates "t1" "ann" by_token 10 ∷ verifies "t1" 20 ∷ creates "t2" "bob" by_token 30 ∷ []

abbrev ann : HttpSession
ann = seen 20 (new_session "t1" "ann" by_token 10)

abbrev bob : HttpSession
bob = new_session "t2" "bob" by_token 30

oldest_goes :
    (get (evict 2 1 (run calls [])) "t1" ≡ none) × (get (evict 2 1 (run calls [])) "t2" ≡ some bob)
unfolding get put remove run step create evict_if_oversized evict verify delete_all by_last_seen
    insert_by_age
oldest_goes = (refl, refl)

known : (get (run calls []) "t1" ≡ some ann) × (get (run calls []) "t2" ≡ some bob)
unfolding get put run step create evict_if_oversized evict verify
known = (refl, refl)

evicts_oldest_example : ann.last_seen ≤ bob.last_seen
evicts_oldest_example =
    evicts_oldest 2 1 (run calls []) "t1" "t2" ann bob (run_from_empty calls).keyed known.0 known.1
      oldest_goes.0 oldest_goes.1
