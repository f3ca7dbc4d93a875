-- ===== src/GuiSessions/Proper.antt =====
-- One call on the registry of relay/src/gui-sessions.ts, and the lifecycle of its sessions.
use termlink.Prelude.{
  ℕ, ◌≡◌, refl, String, Bool, true, false, not, ◌||◌, Option, none, some, if◌then◌else◌, arith,
  eq_iff, inl, inr, Option-cases, Bool-cases,
}
use termlink.Prelude.Dict.{get, put, get-put}
use termlink.GuiSessions.{
  GuiSessionState, creating, connecting, connected, disconnected, closed, GuiSession,
  GuiSessionRegistry, may, put_session, moved, transition, forget, transition_by_connection,
  attached, attach, marked, mark_connected, mark_disconnected, close,
}
use termlink.GuiSessions.Calls.{Windows, same_state, sweep}
use termlink.GuiSessions.Keys.{IsKeyed, update-IsKeyed, sweep-IsKeyed}
use termlink.GuiSessions.Sweep.{swept_of, get-sweep}

abbrev pub state_in : Option GuiSession → Option GuiSessionState
state_in none = none
state_in (some g) = some g.state

abbrev pub state_of : GuiSessionRegistry → String → Option GuiSessionState
state_of r id = state_in (get r.sessions id)

-- The documented lifecycle: a session is created, connects, is connected, and is disconnected, also
-- before it was ever connected; then it connects again. It may be closed at any time, and only
-- closed sessions go.
abbrev pub may_follow : Option GuiSessionState → Option GuiSessionState → Bool
may_follow none none = true
may_follow none (some creating) = true
may_follow none (some _) = false
may_follow (some closed) none = true
may_follow (some _) none = false
may_follow (some _) (some closed) = true
may_follow (some closed) (some _) = false
may_follow (some a) (some connecting) = not (same_state a connected)
may_follow (some a) (some connected) = same_state a connecting || same_state a connected
may_follow (some a) (some disconnected) = not (same_state a creating)
may_follow (some a) (some creating) = same_state a creating

-- A call that keeps the registry's keys, and moves each session along the lifecycle.
pub record Proper (r r' : GuiSessionRegistry) : Type 0 where
  pub keyed : IsKeyed r'
  pub follows : (id : String) → may_follow (state_of r id) (state_of r' id) ≡ true

pub may_follow_self : (s : Option GuiSessionState) → may_follow s s ≡ true
may_follow_self s = ground arith

unmoved-Proper : (r : GuiSessionRegistry) → IsKeyed r → Proper r r
unmoved-Proper r k = record { keyed = k; follows = λ id. may_follow_self (state_of r id) }

changed-Proper :
    (id : String) (f : GuiSession → GuiSession) (r : GuiSessionRegistry) (g : GuiSession)
    → IsKeyed r
    → get r.sessions id ≡ some g
    → (f g).id ≡ g.id
    → may g.state (f g).state ≡ true
    → Proper r (put_session id (f g) r)
changed-Proper id f r g k e same allowed = record {
  keyed = update-IsKeyed id f r g k e same;
  follows = λ j.
      ground (arith, get-put r.sessions id j (f g), eq_iff id j, may_follow_self (state_of r j));
}

transition-Proper :
    (id : String) (to : GuiSessionState) (reason : Option String) (now : ℕ) (r : GuiSessionRegistry)
    → IsKeyed r
    → Proper r (transition id to reason now r).1
unfolding transition
transition-Proper id to reason now r k = elim (Option-cases (get r.sessions id)) [
  | inl unknown ↦ rw (unknown, transition) (unmoved-Proper r k)
  | inr (g, known) ↦ elim (Bool-cases (may g.state to)) [
    | inl allowed ↦
        rw (known, transition, allowed)
          (changed-Proper id (moved to reason now) r g k known refl allowed)
    | inr refused ↦ rw (known, transition, refused) (unmoved-Proper r k)
  ]
]

forget-Proper :
    (c : String) (r : GuiSessionRegistry) (x : Bool × GuiSessionRegistry)
    → Proper r x.1
    → Proper r (forget c x)
forget-Proper c r (false, r') p = p
forget-Proper c r (true, r') p = record {
  keyed = record { distinct = p.keyed.distinct; own_ids = p.keyed.own_ids };
  follows = p.follows;
}

either-Proper :
    (b : Bool) (r r' r'' : GuiSessionRegistry)
    → Proper r r'
    → Proper r r''
    → Proper r (if b then r' else r'')
either-Proper true r r' r'' p q = p
either-Proper false r r' r'' p q = q

pub mark_disconnected-Proper :
    (c : String) (reason : Option String) (now : ℕ) (r : GuiSessionRegistry)
    → IsKeyed r
    → Proper r (mark_disconnected c reason now r)
unfolding mark_disconnected transition_by_connection
mark_disconnected-Proper c reason now r k = elim (Option-cases (get r.connection_to_session c)) [
  | inl unknown ↦ rw (unknown, mark_disconnected, transition_by_connection) (unmoved-Proper r k)
  | inr (id, mapped) ↦
      rw (mapped, mark_disconnected, transition_by_connection)
        (either-Proper _ r _ r
          (forget-Proper c r _ (transition-Proper id disconnected reason now r k))
          (unmoved-Proper r k))
]

pub attach-Proper :
    (id c : String) (now : ℕ) (r : GuiSessionRegistry) → IsKeyed r → Proper r (attach id c now r).1
unfolding attach
attach-Proper id c now r k = elim (Option-cases (get r.sessions id)) [
  | inl unknown ↦ rw (unknown, attach) (unmoved-Proper r k)
  | inr (g, known) ↦ elim (Bool-cases (may g.state connecting)) [
    | inl allowed ↦
        let p = changed-Proper id (attached c now) r g k known refl allowed in
        let whole : Proper r (record {
          sessions = put r.sessions id (attached c now g);
          connection_to_session = put r.connection_to_session c id;
        }) =
          record {
            keyed = record { distinct = p.keyed.distinct; own_ids = p.keyed.own_ids };
            follows = p.follows;
          } in
        rw (known, attach, allowed) whole
    | inr refused ↦ rw (known, attach, refused) (unmoved-Proper r k)
  ]
]

pub mark_connected-Proper :
    (id c : String) (now : ℕ) (r : GuiSessionRegistry)
    → IsKeyed r
    → Proper r (mark_connected id c now r).1
unfolding mark_connected
mark_connected-Proper id c now r k = elim (Option-cases (get r.sessions id)) [
  | inl unknown ↦ rw (unknown, mark_connected) (unmoved-Proper r k)
  | inr (g, known) ↦ elim (Bool-cases (may g.state connected)) [
    | inl allowed ↦
        rw (known, mark_connected, allowed)
          (changed-Proper id (marked c now) r g k known refl allowed)
    | inr refused ↦ rw (known, mark_connected, refused) (unmoved-Proper r k)
  ]
]

pub close-Proper :
    (id reason : String) (now : ℕ) (r : GuiSessionRegistry)
    → IsKeyed r
    → Proper r (close id reason now r).1
unfolding close
close-Proper id reason now r k = elim (Option-cases (get r.sessions id)) [
  | inl unknown ↦ rw (unknown, close) (unmoved-Proper r k)
  | inr (g, known) ↦ rw (known, close) (transition-Proper id closed (some reason) now r k)
]

swept-follows :
    (w : Windows) (now : ℕ) (o : Option GuiSession)
    → may_follow (state_in o) (state_in (swept_of w now o)) ≡ true
swept-follows w now none = refl
swept-follows w now (some g) = ground arith

pub sweep-Proper :
    (w : Windows) (now : ℕ) (r : GuiSessionRegistry) → IsKeyed r → Proper r (sweep w now r)
sweep-Proper w now r k = record {
  keyed = sweep-IsKeyed w now r k;
  follows = λ id. rw (get-sweep w now r id k) (swept-follows w now (get r.sessions id));
}
