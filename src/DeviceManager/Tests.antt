-- ===== src/DeviceManager/Tests.antt =====
-- One device that enrolls and is ready.
use termlink.Prelude.{ℕ, zero, ◌≡◌, refl, String, List, [], ◌∷◌, none, some, get_elem?}
use termlink.Prelude.Dict.{get, put}
use termlink.DeviceProtocol.{device_register}
use termlink.DeviceStore
use termlink.DeviceStore.{DeviceConfig, shell}
use termlink.AgentLink
use termlink.AgentLink.{LinkConfig, AgentLink, ready}
use termlink.AgentLink.Messages
use termlink.AgentLink.Messages.{message_arrives, store_answers}
use termlink.DeviceManager.{
  DeviceManager, new_manager, Event, link_connects, link_moves, run, step, handle_connection,
  on_link, hear, on_link_ready, set_at,
}
use termlink.DeviceManager.Life.{one_link-run}

abbrev cfg : LinkConfig
cfg = record { remote_address = some "10.0.0.1"; max_attempts = 3; backoff_ms = 1000 }

abbrev derive : String → List ℕ → ℕ → List ℕ
derive secret salt keylen = 7 ∷ []

abbrev pi : DeviceConfig
pi = record { id = "pi"; name = "Pi"; target = shell; enrollment_token = none }

abbrev store : DeviceStore.DeviceStore
store = DeviceStore.new_store (pi ∷ []) 5

abbrev events : List Event
events =
    link_connects "k1"
    ∷ link_moves 0 10 (message_arrives (device_register "pi" "s" none) 10)
    ∷ link_moves 0 20 (store_answers 0 0 (1 ∷ []) 20)
    ∷ []

abbrev after : DeviceManager
after = run cfg derive events (new_manager store none)

-- The link 0.
found :
    (l : AgentLink) × (get_elem? after.links 0 ≡ some l)
    × (l.state ≡ ready)
    × (l.device_id ≡ some "pi")
unfolding run step on_link handle_connection new_manager hear on_link_ready set_at get put
    Messages.step Messages.on_message Messages.handle_client_message AgentLink.new_link
    AgentLink.authenticate AgentLink.throttle_link AgentLink.ask_store AgentLink.resume
    AgentLink.settle AgentLink.go_ready DeviceStore.new_store DeviceStore.fill DeviceStore.register
    DeviceStore.is_registered DeviceStore.finish_register DeviceStore.enrollment_token
    DeviceStore.mark_open_enrollment_warned DeviceStore.set_online DeviceStore.update
    DeviceStore.verify
found = (_, refl, refl, refl)

one_link-run_example : (zero ≡ zero) × (get after.links_by_device "pi" ≡ some 0)
one_link-run_example =
    let (l, here, is_ready, named) = found in
    one_link-run cfg derive store none events 0 0 l l "pi" here here is_ready is_ready named named
