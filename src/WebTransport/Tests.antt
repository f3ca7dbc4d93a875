-- ===== src/WebTransport/Tests.antt =====
-- A page that logs in, loses its socket, and logs in again.
use termlink.Prelude.{
  ◌≡◌, ◌≤◌, ◌+◌, ◌*◌, ◌===◌, refl, true, false, List, ◌∷◌, [], none, some, if◌then◌else◌,
}
use termlink.Json.{Json}
use termlink.Message.{hello, auth_ok, server_json}
use termlink.WebTransport.{
  WebOptions, new_transport, open_socket, connect, close, send_data, send_ping, submit, enqueue,
  enqueue_to, flush_from,
}
use termlink.WebTransport.Events.{
  send_auth_request, on_hello, on_auth_ok, handle_typed, handle_object, handle_text,
  handle_disconnect, on_close, on_reconnect, Event, text_arrives, socket_closes, reconnect_is_due,
  owner_connects, owner_sends, step, run,
}
use termlink.WebTransport.Moves.{opened, logins, sent, readies, services}
use termlink.WebTransport.Life.{asked, opened-run_web, services-run_web, sent-run_closed}

abbrev opts : WebOptions
opts = record {
  token = some "t";
  username = none;
  password = none;
  reconnect = true;
  max_reconnect_attempts = 2;
  max_outbound_frames = 4;
  max_outbound_bytes = 100;
  json_length = λ m. 20;
  printed = λ v. "1";
  atob = λ s. some [];
  btoa = λ bytes. "AA==";
}

abbrev says : Json → Event
says m = text_arrives (some m) false

abbrev talk : List Event
talk =
    says (server_json (hello ("token" ∷ [])))
    ∷ owner_sends (send_data "early") true (λ i. false)
    ∷ says (server_json (auth_ok "s1"))
    ∷ owner_sends send_ping true (λ i. true)
    ∷ owner_sends (send_data "late") true (λ i. false)
    ∷ socket_closes 0 "lost"
    ∷ reconnect_is_due true
    ∷ []

counts :
    (opened (run opts talk (connect new_transport)).out ≡ 2)
    × (readies (run opts talk (connect new_transport)).out ≡ 1)
unfolding run step on_reconnect on_close submit handle_text server_json handle_object handle_typed
    on_auth_ok on_hello connect new_transport open_socket send_auth_request enqueue enqueue_to
    flush_from handle_disconnect
counts = (refl, refl)

opened-run_web_example :
    let c = run opts (owner_connects ∷ talk) new_transport in
    opened c.out ≤ asked (owner_connects ∷ talk) + (1 + readies c.out) * opts.max_reconnect_attempts
opened-run_web_example = opened-run_web opts (owner_connects ∷ talk)

services-run_web_example :
    let c = run opts (owner_connects ∷ talk) new_transport in
    (logins (sent c.out) ≤ opened c.out) × ((if readies c.out === 0 then services c.out else 0) ≡ 0)
services-run_web_example = services-run_web opts (owner_connects ∷ talk)

sent-run_closed_example :
    let c = close false (run opts talk (connect new_transport)) in
    let c' = run opts talk c in (opened c'.out ≡ opened c.out) × (sent c'.out ≡ sent c.out)
sent-run_closed_example = sent-run_closed opts talk talk false refl refl
