-- ===== src/AgentSession/Tests.antt =====
-- A device that is busy while two keys are pressed.
use termlink.Prelude.{ℕ, ◌≡◌, ◌∷◌, [], ◌++◌, refl, String, List, true, false}
use termlink.AgentSession.{
  AgentSession, AgentEvent, attaches, gets_input, gets_output, link_drains, new_agent_session, run,
  on_client_terminal_input, flush_input,
}
use termlink.AgentSession.Queues.{
  inputs_held, outputs_held, inputs_brought, outputs_brought, held-run, sent_inputs,
  sent_inputs-flush_input,
}

abbrev units : String → ℕ
units s = 1

abbrev events : List AgentEvent
events =
    attaches
    ∷ gets_input false "bHM="
    ∷ gets_input true "DQ=="
    ∷ gets_output true "JA=="
    ∷ link_drains (λ i. true)
    ∷ []

held-run_example :
    let s = run units events new_agent_session in
    (inputs_held "DQ==" s ≡ inputs_brought units "DQ==" events new_agent_session)
    × (outputs_held "DQ==" s ≡ outputs_brought units "DQ==" events new_agent_session)
held-run_example = held-run units "DQ==" events

abbrev waiting : AgentSession
waiting = record new_agent_session { input_queue = "bHM=" ∷ []; input_bytes = 1 }

sent_inputs-flush_input_example :
    sent_inputs
      (flush_input units (λ i. true) (on_client_terminal_input units true "DQ==" waiting)).out
    ≡ sent_inputs waiting.out ++ "DQ==" ∷ waiting.input_queue
sent_inputs-flush_input_example = sent_inputs-flush_input units "DQ==" waiting refl
