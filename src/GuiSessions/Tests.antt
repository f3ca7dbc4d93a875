-- ===== src/GuiSessions/Tests.antt =====
-- A session that is created, attached, connected, lost, and swept away.
use termlink.Prelude.{◌≡◌, refl, true, List, ◌∷◌, [], none, some}
use termlink.Prelude.Dict.{get}
use termlink.DeviceStore.{shell}
use termlink.GuiSessions.{GuiSessionRegistry, new_registry, new_session, closed}
use termlink.GuiSessions.Calls.{
  Windows, Call, creates, attaches, marks_connected, disconnects, sweeps, step, run,
}
use termlink.GuiSessions.Proper.{may_follow, state_of}
use termlink.GuiSessions.Lifecycle.{AreFresh, run-may_follow}

abbrev windows : Windows
windows = record { create_window_ms = 30; reconnect_grace_ms = 60; purge_age_ms = 100 }

abbrev life : List Call
life =
    creates "g1" "ann" "pi" shell 10
    ∷ attaches "g1" "c1" 20
    ∷ marks_connected "g1" "c1" 25
    ∷ disconnects "c1" none 40
    ∷ []

life-fresh : AreFresh life new_registry
unfolding get
life-fresh = (refl, (tt, (tt, (tt, tt))))

run-may_follow_example :
    may_follow
      (state_of (run life new_registry) "g1")
      (state_of (step (sweeps windows 100) (run life new_registry)) "g1")
    ≡ true
run-may_follow_example = run-may_follow life (sweeps windows 100) "g1" life-fresh tt

abbrev lost : GuiSessionRegistry
lost = record {
  sessions = ("g1", record (new_session "g1" "ann" "pi" shell 10) { state = closed }) ∷ [];
  connection_to_session = ("c1", "g1") ∷ [];
}

its_connection : get lost.connection_to_session "c1" ≡ some "g1"
unfolding get
its_connection = refl

its_state : state_of lost "g1" ≡ some closed
unfolding get
its_state = refl
