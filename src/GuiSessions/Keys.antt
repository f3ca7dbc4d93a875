-- ===== src/GuiSessions/Keys.antt =====
-- The keys of the registry of sessions.
use termlink.Prelude.{
  ℕ, ◌≡◌, refl, sym, ◌∙◌, String, Bool, true, false, ◌&&◌, [], ◌∷◌, Option, some, if◌then◌else◌,
  All, arith, eq_iff, ◌==◌, inl, inr, Option-cases, Bool-cases,
}
use termlink.Prelude.Dict.{Dict, get, put, remove, Distinct, put-Distinct, remove-Distinct}
use termlink.GuiSessions.{
  GuiSessionState, creating, disconnected, closed, GuiSession, GuiSessionRegistry, may, put_session,
  moved, transition,
}
use termlink.GuiSessions.Calls.{
  drop_connection, Windows, same_state, has_passed, visit, visit_all, sweep,
}

-- The keys of the registry: no id stands twice, and each session stands under its own id.
pub record IsKeyed (r : GuiSessionRegistry) : Type 0 where
  pub distinct : Distinct r.sessions
  pub own_ids : All (λ e. e.1.id ≡ e.0) r.sessions

own_ids-remove :
    (sessions : Dict GuiSession) (id : String)
    → All (λ e. e.1.id ≡ e.0) sessions
    → All (λ e. e.1.id ≡ e.0) (remove sessions id)
unfolding remove
own_ids-remove [] id h = tt
own_ids-remove ((j, g) ∷ sessions) id h = elim (Bool-cases (j == id)) [
  | inl same ↦ rw (same, remove) (own_ids-remove sessions id h.1)
  | inr other ↦ rw (other, remove) (h.0, own_ids-remove sessions id h.1)
]

own_ids-put :
    (sessions : Dict GuiSession) (id : String) (g : GuiSession)
    → All (λ e. e.1.id ≡ e.0) sessions
    → g.id ≡ id
    → All (λ e. e.1.id ≡ e.0) (put sessions id g)
unfolding put
own_ids-put [] id g h k = (k, tt)
own_ids-put ((j, g') ∷ sessions) id g h k = elim (Bool-cases (j == id)) [
  | inl same ↦ rw (same, put) (k ∙ sym ((eq_iff j id).0 same), h.1)
  | inr other ↦ rw (other, put) (h.0, own_ids-put sessions id g h.1 k)
]

pub put_session-IsKeyed :
    (id : String) (g : GuiSession) (r : GuiSessionRegistry)
    → IsKeyed r
    → g.id ≡ id
    → IsKeyed (put_session id g r)
put_session-IsKeyed id g r k h = record {
  distinct = put-Distinct r.sessions id g k.distinct;
  own_ids = own_ids-put r.sessions id g k.own_ids h;
}

get-own_id :
    (sessions : Dict GuiSession) (id : String) (g : GuiSession)
    → All (λ e. e.1.id ≡ e.0) sessions
    → get sessions id ≡ some g
    → g.id ≡ id
unfolding get
get-own_id [] id g h e = ground arith
get-own_id ((j, g') ∷ sessions) id g h e = ground (arith, eq_iff j id, get-own_id sessions id g h.1)

pub update-IsKeyed :
    (id : String) (f : GuiSession → GuiSession) (r : GuiSessionRegistry) (g : GuiSession)
    → IsKeyed r
    → get r.sessions id ≡ some g
    → (f g).id ≡ g.id
    → IsKeyed (put_session id (f g) r)
update-IsKeyed id f r g k e same =
    put_session-IsKeyed id (f g) r k (same ∙ get-own_id r.sessions id g k.own_ids e)

transition-IsKeyed :
    (id : String) (to : GuiSessionState) (reason : Option String) (now : ℕ) (r : GuiSessionRegistry)
    → IsKeyed r
    → IsKeyed (transition id to reason now r).1
unfolding transition
transition-IsKeyed id to reason now r k = elim (Option-cases (get r.sessions id)) [
  | inl unknown ↦ rw (unknown, transition) k
  | inr (g, known) ↦ elim (Bool-cases (may g.state to)) [
    | inl allowed ↦
        rw (known, transition, allowed) (update-IsKeyed id (moved to reason now) r g k known refl)
    | inr refused ↦ rw (known, transition, refused) k
  ]
]

either-IsKeyed :
    (b : Bool) (r r' : GuiSessionRegistry) → IsKeyed r → IsKeyed r' → IsKeyed (if b then r else r')
either-IsKeyed true r r' k k' = k
either-IsKeyed false r r' k k' = k'

visit-IsKeyed :
    (w : Windows) (now : ℕ) (g : GuiSession) (r : GuiSessionRegistry)
    → IsKeyed r
    → IsKeyed (visit w now g r)
unfolding visit
visit-IsKeyed w now g r k =
    let never_connected = (transition g.id closed (some "Session never connected") now r).1 in
    let expired = (transition g.id closed (some "Reconnect window expired") now r).1 in
    let gone : GuiSessionRegistry = record {
      sessions = remove r.sessions g.id;
      connection_to_session = drop_connection g.connection_id r.connection_to_session;
    } in
    let gone_IsKeyed : IsKeyed gone = record {
      distinct = remove-Distinct r.sessions g.id k.distinct;
      own_ids = own_ids-remove r.sessions g.id k.own_ids;
    } in
    let is_old = same_state g.state closed && has_passed w.purge_age_ms g.last_active now in
    let is_lost =
      same_state g.state disconnected && has_passed w.reconnect_grace_ms g.last_active now in
    let is_unused = same_state g.state creating && has_passed w.create_window_ms g.created_at now in
    let purged = if is_old then gone else r in
    either-IsKeyed is_unused never_connected (if is_lost then expired else purged)
      (transition-IsKeyed g.id closed _ now r k)
      (either-IsKeyed is_lost expired purged (transition-IsKeyed g.id closed _ now r k)
        (either-IsKeyed is_old gone r gone_IsKeyed k))

visit_all-IsKeyed :
    (w : Windows) (now : ℕ) (todo : Dict GuiSession) (r : GuiSessionRegistry)
    → IsKeyed r
    → IsKeyed (visit_all w now todo r)
unfolding visit_all
visit_all-IsKeyed w now [] r k = k
visit_all-IsKeyed w now ((id, g) ∷ todo) r k =
    visit_all-IsKeyed w now todo (visit w now g r) (visit-IsKeyed w now g r k)

pub sweep-IsKeyed :
    (w : Windows) (now : ℕ) (r : GuiSessionRegistry) → IsKeyed r → IsKeyed (sweep w now r)
unfolding sweep
sweep-IsKeyed w now r k = visit_all-IsKeyed w now r.sessions r k
