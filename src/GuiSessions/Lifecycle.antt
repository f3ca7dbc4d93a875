-- ===== src/GuiSessions/Lifecycle.antt =====
-- The life of a session of the web page, under every call on the registry.
use termlink.Prelude.{ℕ, ◌≡◌, refl, String, true, List, [], ◌∷◌, Option, none, some, arith, eq_iff}
use termlink.Prelude.Dict.{get, get-put}
use termlink.DeviceStore.{TargetType}
use termlink.GuiSessions.{
  closed, GuiSessionRegistry, new_registry, transition, transition_by_connection, mark_disconnected,
  create, new_session,
}
use termlink.GuiSessions.Calls.{
  Call, creates, attaches, marks_connected, disconnects, closes, sweeps, step, run,
}
use termlink.GuiSessions.Keys.{IsKeyed, put_session-IsKeyed}
use termlink.GuiSessions.Proper.{
  state_of, may_follow, Proper, may_follow_self, mark_disconnected-Proper, attach-Proper,
  mark_connected-Proper, close-Proper, sweep-Proper,
}

-- A created session has an id that is not in use; the ids are 16 random bytes.
abbrev pub IsFresh : Call → GuiSessionRegistry → Type 0
IsFresh (creates id username device_id target now) r = get r.sessions id ≡ none
IsFresh _ r = Unit

create-Proper :
    (id username device_id : String) (target : TargetType) (now : ℕ) (r : GuiSessionRegistry)
    → IsKeyed r
    → get r.sessions id ≡ none
    → Proper r (create id username device_id target now r)
unfolding create
create-Proper id username device_id target now r k new = record {
  keyed = put_session-IsKeyed id _ r k refl;
  follows = λ j. ground (
    arith,
    get-put r.sessions id j (new_session id username device_id target now),
    eq_iff id j,
    may_follow_self (state_of r j),
  );
}

step-Proper :
    (call : Call) (r : GuiSessionRegistry) → IsKeyed r → IsFresh call r → Proper r (step call r)
unfolding step
step-Proper (creates id username device_id target now) r k new =
    create-Proper id username device_id target now r k new
step-Proper (attaches id c now) r k new = attach-Proper id c now r k
step-Proper (marks_connected id c now) r k new = mark_connected-Proper id c now r k
step-Proper (disconnects c reason now) r k new = mark_disconnected-Proper c reason now r k
step-Proper (closes id reason now) r k new = close-Proper id reason now r k
step-Proper (sweeps w now) r k new = sweep-Proper w now r k

-- New sessions have ids that are not in use, all along.
abbrev pub AreFresh : List Call → GuiSessionRegistry → Type 0
AreFresh [] r = Unit
AreFresh (call ∷ calls) r = IsFresh call r × AreFresh calls (step call r)

run-IsKeyed :
    (calls : List Call) (r : GuiSessionRegistry)
    → IsKeyed r
    → AreFresh calls r
    → IsKeyed (run calls r)
unfolding run
run-IsKeyed [] r k f = k
run-IsKeyed (call ∷ calls) r k f =
    run-IsKeyed calls (step call r) (step-Proper call r k f.0).keyed f.1

new_registry-IsKeyed : IsKeyed new_registry
new_registry-IsKeyed = record { distinct = tt; own_ids = tt }

-- Behind any calls on a new registry, every further call, a sweep among them, moves every session
-- along the documented lifecycle or leaves it where it is, provided that new sessions have ids
-- that are not in use.
pub run-may_follow :
    (calls : List Call) (call : Call) (id : String)
    → AreFresh calls new_registry
    → IsFresh call (run calls new_registry)
    → let r = run calls new_registry in
      may_follow (state_of r id) (state_of (step call r) id) ≡ true
run-may_follow calls call id f new =
    let r = run calls new_registry in
    (step-Proper call r (run-IsKeyed calls new_registry new_registry-IsKeyed f) new).follows id

-- The end of a connection whose session is closed already changes nothing at all: the session is
-- not downgraded, but its connection also stays in the table, and is counted as live until the
-- session is purged.
pub mark_disconnected_closed :
    (c id : String) (reason : Option String) (now : ℕ) (r : GuiSessionRegistry)
    → get r.connection_to_session c ≡ some id
    → state_of r id ≡ some closed
    → mark_disconnected c reason now r ≡ r
unfolding mark_disconnected transition_by_connection transition
mark_disconnected_closed c id reason now r m e = ground arith
