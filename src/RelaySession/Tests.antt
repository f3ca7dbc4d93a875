-- ===== src/RelaySession/Tests.antt =====
-- A client that is faster than its backend.
use termlink.Prelude.{ℕ, ◌≡◌, refl, String, true, false, List, [], ◌∷◌, ◌++◌}
use termlink.RelaySession.{
  RelayEvent, client_sends, backend_event, backend_readies, backend_drains, relay_input,
  relay_resize, started, run, step, on_client_message, buffer_pre_ready, on_backend_event,
  on_open_backend_event, flush_pre_ready, flush_from, forward_to_backend,
}
use termlink.RelaySession.Order.{sent, received, sent-run}

abbrev units : String → ℕ
units s = 4

abbrev events : List RelayEvent
events =
    client_sends (relay_resize 80 24) false
    ∷ client_sends (relay_input "bHM=") false
    ∷ backend_event (backend_readies (λ i. true))
    ∷ client_sends (relay_input "DQ==") false
    ∷ backend_event backend_drains
    ∷ []

stays_open : (run units events started).closed ≡ false
unfolding run step on_client_message buffer_pre_ready on_backend_event on_open_backend_event
    flush_pre_ready flush_from forward_to_backend
stays_open = refl

sent-run_example :
    sent (run units events started).out ++ (run units events started).pre_ready_queue
    ≡ received events
sent-run_example = sent-run units events stays_open
