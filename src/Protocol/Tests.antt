-- ===== src/Protocol/Tests.antt =====
-- The two state machines on a few messages.
use termlink.Prelude.{◌≡◌, refl, List, [], ◌∷◌, some}
use termlink.Message.{
  ProtocolState, connecting, authenticating, ready, closing, auth_request, token_request, data_in,
  goodbye_in, terminal_input, client_json,
}
use termlink.Message
use termlink.Protocol
use termlink.Protocol.{
  Op, greets, receives, accepts, rejects, outputs, peer_closes, run, handle, wrong_state, Callback,
  send,
}
use termlink.Protocol.Peer.{Follows, Accepted, sent, run-Accepted}
use termlink.ClientProtocol.{handle_all}
use termlink.ClientProtocol

abbrev whole_session : List Op
whole_session =
    greets ("token" ∷ [])
    ∷ receives (auth_request (token_request "right"))
    ∷ accepts "s1"
    ∷ outputs "$ "
    ∷ receives (terminal_input "exit")
    ∷ receives (goodbye_in (some "bye"))
    ∷ outputs "late"
    ∷ []

run-Accepted_example :
    Accepted
      (Follows (run connecting whole_session).state)
      (handle_all ClientProtocol.waiting_hello (sent (run connecting whole_session).calls))
run-Accepted_example = run-Accepted connecting ClientProtocol.waiting_hello whole_session refl

-- A whole session ends in closing, and nothing is sent behind the goodbye.
sent_in_whole_session :
    sent (run connecting whole_session).calls
    ≡ Message.hello ("token" ∷ [])
      ∷ Message.auth_ok "s1"
      ∷ Message.terminal_output "$ "
      ∷ Message.goodbye_out (some "bye")
      ∷ []
unfolding run Protocol.apply Protocol.hello Protocol.handle Protocol.auth_ok
    Protocol.terminal_output
sent_in_whole_session = refl
