-- ===== src/AgentLink/Tests.antt =====
-- A link on which two authentications are under way, and one that has closed.
use termlink.Prelude.{ℕ, ◌≡◌, ◌≤◌, ◌∷◌, [], refl, String, List, true, false, none, some}
use termlink.DeviceProtocol.{device_auth, agent_ping}
use termlink.DeviceStore
use termlink.DeviceStore.{DeviceConfig, shell}
use termlink.AgentLink.{LinkConfig, AgentLink, new_link, authenticating, verifying, resume}
use termlink.AgentLink.Messages.{LinkEvent, message_arrives, auth_times_out, socket_closes, run}
use termlink.AgentLink.Goes.{asked, closes, readies, if_closed}
use termlink.AgentLink.Lifetime.{closes-run, readies-resume_twice}

abbrev cfg : LinkConfig
cfg = record { remote_address = some "10.0.0.1"; max_attempts = 3; backoff_ms = 1000 }

abbrev derive : String → List ℕ → ℕ → List ℕ
derive secret salt keylen = 7 ∷ []

abbrev pi : DeviceConfig
pi = record { id = "pi"; name = "Pi"; target = shell; enrollment_token = none }

abbrev phone : DeviceConfig
phone = record { id = "phone"; name = "Phone"; target = shell; enrollment_token = none }

abbrev store : DeviceStore.DeviceStore
store = DeviceStore.new_store (pi ∷ phone ∷ []) 5

abbrev events : List LinkEvent
events =
    message_arrives (device_auth "pi" "s") 10
    ∷ message_arrives agent_ping 11
    ∷ auth_times_out 20
    ∷ socket_closes 30
    ∷ []

closes-run_example :
    let l = run cfg derive events (new_link "k1" store none) in
    (asked l.out ≤ cfg.max_attempts) × (closes l.out ≡ if_closed l.state)
closes-run_example = closes-run cfg derive "k1" store none events

abbrev two_under_way : AgentLink
two_under_way = record {
  connection_id = "k1";
  state = authenticating;
  device_id = none;
  channels = [];
  attempts = 2;
  locked_until = 0;
  ws_open = true;
  pending = verifying pi true ∷ verifying phone true ∷ [];
  store = store;
  limiter = none;
  paused_channels = [];
  draining = false;
  out = [];
}

readies-resume_twice_example :
    let l = resume derive 0 0 [] 20 (resume derive 0 0 [] 10 two_under_way) in
    (readies l.out ≡ phone.id ∷ pi.id ∷ readies two_under_way.out) × (l.device_id ≡ some phone.id)
readies-resume_twice_example =
    readies-resume_twice cfg derive pi phone 0 [] 10 20 two_under_way refl refl
