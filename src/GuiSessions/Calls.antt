-- ===== src/GuiSessions/Calls.antt =====
-- The sweep of stale sessions, and the calls on the registry one after the other.
use termlink.Prelude.{
  ℕ, ◌+◌, String, Bool, true, false, ◌&&◌, List, [], ◌∷◌, Option, none, some, leb, truthy,
  if◌then◌else◌,
}
use termlink.Prelude.Dict.{Dict, remove}
use termlink.DeviceStore.{TargetType}
use termlink.GuiSessions.{
  GuiSessionState, creating, connecting, connected, disconnected, closed, GuiSession,
  GuiSessionRegistry, create, transition, attach, mark_connected, mark_disconnected, close,
}

pub record Windows : Type 0 where
  pub create_window_ms : ℕ
  pub reconnect_grace_ms : ℕ
  pub purge_age_ms : ℕ

abbrev pub same_state : GuiSessionState → GuiSessionState → Bool
same_state creating creating = true
same_state connecting connecting = true
same_state connected connected = true
same_state disconnected disconnected = true
same_state closed closed = true
same_state _ _ = false

-- `now - since >= window`
abbrev pub has_passed : ℕ → ℕ → ℕ → Bool
has_passed window since now = leb (since + window) now

abbrev pub drop_connection : Option String → Dict String → Dict String
drop_connection none d = d
drop_connection (some c) d = if truthy c then remove d c else d

unfoldable pub visit : Windows → ℕ → GuiSession → GuiSessionRegistry → GuiSessionRegistry
visit w now g r =
    if same_state g.state creating && has_passed w.create_window_ms g.created_at now
    then (transition g.id closed (some "Session never connected") now r).1
    else if same_state g.state disconnected && has_passed w.reconnect_grace_ms g.last_active now
    then (transition g.id closed (some "Reconnect window expired") now r).1
    else if same_state g.state closed && has_passed w.purge_age_ms g.last_active now
    then record {
      sessions = remove r.sessions g.id;
      connection_to_session = drop_connection g.connection_id r.connection_to_session;
    }
    else r

unfoldable pub visit_all : Windows → ℕ → Dict GuiSession → GuiSessionRegistry → GuiSessionRegistry
visit_all w now [] r = r
visit_all w now ((id, g) ∷ todo) r = visit_all w now todo (visit w now g r)

unfoldable pub sweep : Windows → ℕ → GuiSessionRegistry → GuiSessionRegistry
unfolding visit_all
sweep w now r = visit_all w now r.sessions r

pub data Call : Type 0 where
  creates : (id username device_id : String) (target : TargetType) (now : ℕ) → Call
  attaches marks_connected : (id connection_id : String) (now : ℕ) → Call
  disconnects : (connection_id : String) (reason : Option String) (now : ℕ) → Call
  closes : (id reason : String) (now : ℕ) → Call
  sweeps : (w : Windows) (now : ℕ) → Call

unfoldable pub step : Call → GuiSessionRegistry → GuiSessionRegistry
step (creates id username device_id target now) r = create id username device_id target now r
step (attaches id c now) r = (attach id c now r).1
step (marks_connected id c now) r = (mark_connected id c now r).1
step (disconnects c reason now) r = mark_disconnected c reason now r
step (closes id reason now) r = (close id reason now r).1
step (sweeps w now) r = sweep w now r

unfoldable pub run : List Call → GuiSessionRegistry → GuiSessionRegistry
run [] r = r
run (call ∷ calls) r = run calls (step call r)
