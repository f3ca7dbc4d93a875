-- ===== src/GuiSessions/Sweep.antt =====
-- What a sweep does to each session, and the registry's keys.
use termlink.Prelude.{
  ℕ, ◌≡◌, ◌≢◌, refl, sym, ap, ◌∙◌, String, [], ◌∷◌, Option, none, some, if◌then◌else◌, All, arith,
  eq_iff, ◌==◌,
}
use termlink.Prelude.Dict.{Dict, get, get-put, get-remove, Distinct, get-entries, absent-All}
use termlink.GuiSessions.{
  creating, disconnected, closed, GuiSession, GuiSessionRegistry, moved, transition,
}
use termlink.GuiSessions.Calls.{Windows, has_passed, visit, visit_all, sweep}
use termlink.GuiSessions.Keys.{IsKeyed}

-- What a sweep makes of a session, from the documented rules: one that never connected in time, or
-- that did not reconnect in time, is closed; one that has been closed for long goes.
abbrev pub swept : Windows → ℕ → GuiSession → Option GuiSession
swept w now g = elim g.state [
  | creating ↦
      if has_passed w.create_window_ms g.created_at now
      then some (moved closed (some "Session never connected") now g)
      else some g
  | disconnected ↦
      if has_passed w.reconnect_grace_ms g.last_active now
      then some (moved closed (some "Reconnect window expired") now g)
      else some g
  | closed ↦ if has_passed w.purge_age_ms g.last_active now then none else some g
  | _ ↦ some g
]

get-visit :
    (w : Windows) (now : ℕ) (g : GuiSession) (r : GuiSessionRegistry) (j : String)
    → get r.sessions g.id ≡ some g
    → get (visit w now g r).sessions j ≡ (if g.id == j then swept w now g else get r.sessions j)
unfolding visit transition
get-visit w now g r j h = ground (
  arith,
  get-put r.sessions g.id j (moved closed (some "Session never connected") now g),
  get-put r.sessions g.id j (moved closed (some "Reconnect window expired") now g),
  get-remove r.sessions g.id j,
  eq_iff g.id j,
)

-- An entry under the id of its session, which is what the registry holds there.
Current : GuiSessionRegistry → String × GuiSession → Type 0
Current r e = (e.1.id ≡ e.0) × (get r.sessions e.0 ≡ some e.1)

still-Current :
    (todo : Dict GuiSession) (r r' : GuiSessionRegistry) (id : String)
    → All (λ e. e.0 ≢ id) todo
    → All (Current r) todo
    → ((j : String) → id ≢ j → get r'.sessions j ≡ get r.sessions j)
    → All (Current r') todo
unfolding Current
still-Current [] r r' id a c k = tt
still-Current ((j, g) ∷ todo) r r' id a c k =
    ((c.0.0, k j (λ e. a.0 (sym e)) ∙ c.0.1), still-Current todo r r' id a.1 c.1 k)

abbrev after_visit : Windows → ℕ → Option GuiSession → Option GuiSession → Option GuiSession
after_visit w now none current = current
after_visit w now (some g) current = swept w now g

get-visit_all :
    (w : Windows) (now : ℕ) (todo : Dict GuiSession) (r : GuiSessionRegistry) (j : String)
    → Distinct todo
    → All (Current r) todo
    → get (visit_all w now todo r).sessions j ≡ after_visit w now (get todo j) (get r.sessions j)
unfolding visit_all Current get
get-visit_all w now [] r j d c = refl
get-visit_all w now ((id, g) ∷ todo) r j d c =
    let r' = visit w now g r in
    let here : get r.sessions g.id ≡ some g = ap (get r.sessions) c.0.0 ∙ c.0.1 in
    let others =
      still-Current todo r r' id (absent-All todo id d.0) c.1
        (λ k e. ground (arith, get-visit w now g r k here, c.0.0, eq_iff g.id k)) in
    ground (
      arith,
      get-visit_all w now todo r' j d.1 others,
      get-visit w now g r j here,
      c.0.0,
      eq_iff g.id j,
    )

both-Current :
    (r : GuiSessionRegistry) (todo : Dict GuiSession)
    → All (λ e. e.1.id ≡ e.0) todo
    → All (λ e. get r.sessions e.0 ≡ some e.1) todo
    → All (Current r) todo
unfolding Current
both-Current r [] a b = tt
both-Current r ((id, g) ∷ todo) a b = ((a.0, b.0), both-Current r todo a.1 b.1)

abbrev pub swept_of : Windows → ℕ → Option GuiSession → Option GuiSession
swept_of w now none = none
swept_of w now (some g) = swept w now g

-- In a registry where no id stands twice and each session stands under its own id, a sweep treats
-- every session by the documented rules, once, and by its own times alone.
pub get-sweep :
    (w : Windows) (now : ℕ) (r : GuiSessionRegistry) (id : String)
    → IsKeyed r
    → get (sweep w now r).sessions id ≡ swept_of w now (get r.sessions id)
unfolding sweep
get-sweep w now r id k =
    let c = both-Current r r.sessions k.own_ids (get-entries r.sessions k.distinct) in
    ground (arith, get-visit_all w now r.sessions r id k.distinct c)
