-- ===== src/ClientHalf/Tests.antt =====
-- Two logins on a half of a busy relay, one that fails and one by a web session, and a message that
-- is too large.
use termlink.Prelude.{
  ℕ, ◌≡◌, ◌≤◌, ◌+◌, ◌++◌, ◌||◌, ◌==◌, refl, String, true, false, Bool, List, ◌∷◌, [], Option, none,
  some, if◌then◌else◌, arith,
}
use termlink.Prelude.Result.{ok}
use termlink.Json.{Json}
use termlink.Message.{
  AuthRequest, token_request, password_request, authenticating, closing, auth_request, data_out,
  client_json,
}
use termlink.Message
use termlink.Protocol
use termlink.Protocol.{wrong_state, same}
use termlink.Sessions
use termlink.ClientHalf.{
  Options, ClientHalf, sends, unhandled_rejection, new_half, send, forward, maybe_release_pressure,
  on_sent, goes_on, pauses,
}
use termlink.ClientHalf.Receive.{
  send_all, on_protocol, on_message, hold_inbound, send_auth_fail, throttle, handle_auth_request,
  dispatch, dispatch_all, handle, receive, caught, process_text, process_inbound, resume,
  flush_from,
}
use termlink.Framing.{parse_json_message, checked}
use termlink.Message.Valid.{is_valid_message, is_client_message, as_client_message}
use termlink.ClientHalf.Events.{
  text_frame, start, finish, refuse, resolve, verified, Event, message_arrives, verification_ends,
  bridge_attaches, bridge_pauses, bridge_resumes, send_completes, step, run,
}
use termlink.ClientHalf.Moves.{verifications, all_refused, services, parsed, drains}
use termlink.ClientHalf.Outbound.{Flows, total}
use termlink.ClientHalf.Verify.{is_right}
use termlink.ClientHalf.Life.{texts}
use termlink.ClientHalf.Served.{
  verifications-run_half, services-run_half, parsed-run, in_flight-run,
}
use termlink.ClientHalf.Stall.{drains-forward_oversized}
use termlink.ClientHalf.Progress.{drains-run_refused}
use termlink.ClientHalf.Crash.{rejections, rejections-finish_half}

abbrev opts : Options
opts = record {
  max_auth_attempts = 3;
  auth_backoff_ms = 1000;
  send_high_water_mark = 100;
  send_low_water_mark = 20;
  has_tokens = true;
  has_passwords = false;
  remote_address = none;
  json_size = λ m. 60;
  decoded_size = λ s. 60;
  describe = λ e. "error";
}

abbrev login : AuthRequest
login = token_request "guess"

-- A parser that reads every text as a login.
abbrev parse : List ℕ → Option Json
parse text = some (client_json (auth_request login))

abbrev binary_wire : String → List ℕ
binary_wire base64 = 1 ∷ []

abbrev refuse_all : AuthRequest → Bool
refuse_all r = false

abbrev nobody : String → Option String
nobody token = none

abbrev greeted : ClientHalf
greeted = record (new_half "h1" Sessions.empty none) {
  protocol = authenticating;
  auth_timer = true;
  idle_timer = true;
  out = sends (Message.hello ("token" ∷ [])) ∷ [];
}

starts : start opts (new_half "h1" Sessions.empty none) ≡ ok greeted
unfolding start new_half on_protocol send_all send Protocol.hello
starts = refl

abbrev events : List Event
events =
    message_arrives (text_frame (7 ∷ [])) 10 goes_on
    ∷ bridge_pauses
    ∷ message_arrives (text_frame (8 ∷ 8 ∷ [])) 11 goes_on
    ∷ verification_ends 0 "s1" 20
    ∷ bridge_resumes 30 (λ i. goes_on)
    ∷ bridge_attaches
    ∷ send_completes 0
    ∷ []

verifications-run_half_example :
    verifications (run parse binary_wire opts refuse_all nobody events greeted).out
    ≤ opts.max_auth_attempts
verifications-run_half_example =
    verifications-run_half parse binary_wire opts refuse_all nobody "h1" Sessions.empty none greeted
      starts events

-- Stores that know one token and one web session, neither of which the client guesses.
abbrev knows_one : AuthRequest → Bool
knows_one (token_request token) = token == "right"
knows_one (password_request username password) = false

abbrev one_session : String → Option String
one_session token = if token == "session" then some "ann" else none

all_wrong :
    all_refused
      (is_right knows_one one_session)
      (run parse binary_wire opts knows_one one_session events greeted).out
    ≡ true
unfolding run step on_message hold_inbound new_half on_sent resume flush_from resolve
    process_inbound process_text parse_json_message checked is_valid_message client_json caught
    receive is_client_message as_client_message handle Protocol.handle dispatch_all dispatch
    handle_auth_request throttle verified finish refuse send_auth_fail on_protocol send_all send
    Protocol.auth_fail maybe_release_pressure
all_wrong = refl

services-run_half_example :
    let h' = run parse binary_wire opts knows_one one_session events greeted in
    (services h'.out ≡ []) × (h'.authenticated ≡ false)
services-run_half_example =
    services-run_half parse binary_wire opts knows_one one_session "h1" Sessions.empty none greeted
      starts events all_wrong

-- A parser that refuses every text; a paused half does not look.
abbrev unreadable : List ℕ → Option Json
unreadable text = none

abbrev held_back : List Event
held_back =
    bridge_pauses
    ∷ message_arrives (text_frame (8 ∷ 8 ∷ [])) 11 goes_on
    ∷ message_arrives (text_frame (9 ∷ [])) 12 pauses
    ∷ []

stays_open : (run unreadable binary_wire opts refuse_all nobody held_back greeted).closed ≡ false
unfolding run step on_message hold_inbound new_half
stays_open = refl

parsed-run_example :
    let h' = run unreadable binary_wire opts refuse_all nobody held_back greeted in
    (parsed h'.out ++ h'.inbound_queue ≡ texts binary_wire held_back)
    × ((if h'.inbound_paused then [] else h'.inbound_queue) ≡ [])
parsed-run_example =
    parsed-run unreadable binary_wire opts refuse_all nobody "h1" Sessions.empty none greeted starts
      held_back stays_open

in_flight-run_example :
    let h' = run parse binary_wire opts refuse_all nobody events greeted in
    (h'.outbound_queue ≡ [])
    × (h'.in_flight_bytes ≡ total h'.in_flight)
    × (h'.in_flight_bytes ≤ opts.send_high_water_mark)
in_flight-run_example =
    in_flight-run parse binary_wire opts refuse_all nobody "h1" Sessions.empty none greeted starts
      events

-- Two messages are under way when a third comes; the second leaves first.
abbrev busy : ClientHalf
busy = record greeted { bridged = true; in_flight = 60 ∷ 30 ∷ []; in_flight_bytes = 90 }

busy-Flows : Flows opts busy
unfolding new_half
busy-Flows = record { emptied = refl; summed = refl; bounded = omega arith }

abbrev leaving : List Event
leaving =
    bridge_pauses
    ∷ send_completes 1
    ∷ message_arrives (text_frame (8 ∷ [])) 11 goes_on
    ∷ send_completes 0
    ∷ []

abbrev third : Bool × ClientHalf
third = forward opts (λ i. false) (data_out "third") busy

third_refused : third.0 ≡ false
unfolding forward new_half
third_refused = refl

left_open : (run parse binary_wire opts refuse_all nobody leaving third.1).closed ≡ false
unfolding run step forward new_half on_sent maybe_release_pressure on_message hold_inbound
left_open = refl

all_left : (run parse binary_wire opts refuse_all nobody leaving third.1).in_flight ≡ []
unfolding run step forward new_half on_sent maybe_release_pressure on_message hold_inbound
all_left = refl

drains-run_refused_example :
    let h' = run parse binary_wire opts refuse_all nobody leaving third.1 in
    (h'.pressure_signaled ≡ false) × (drains h'.out ≡ drains busy.out + 1)
unfolding new_half
drains-run_refused_example =
    drains-run_refused parse binary_wire opts refuse_all nobody (omega arith) (λ i. false)
      (data_out "third") leaving busy busy-Flows refl refl refl (λ e. cc) third_refused
      (refl, (refl, (refl, (refl, tt)))) left_open all_left

abbrev tight : Options
tight = record opts { send_high_water_mark = 50 }

idle_queue : greeted.outbound_queue ≡ []
unfolding new_half
idle_queue = refl

idle_flight : greeted.in_flight ≡ []
unfolding new_half
idle_flight = refl

is_alive : greeted.closed ≡ false
unfolding new_half
is_alive = refl

drains-forward_oversized_example :
    let (taken, h') = forward tight (λ i. false) (data_out "large") greeted in
    (taken ≡ false)
    × (h'.pressure_signaled ≡ true)
    × (drains (run parse binary_wire tight refuse_all nobody events h').out ≡ drains greeted.out)
unfolding new_half
drains-forward_oversized_example =
    drains-forward_oversized parse binary_wire tight refuse_all nobody (λ i. false)
      (data_out "large") events greeted is_alive refl idle_queue idle_flight (omega arith)
      (refl, (refl, (refl, (refl, (refl, (refl, (refl, tt)))))))

-- A client that said goodbye while its login was being checked.
abbrev said_goodbye : ClientHalf
said_goodbye = record greeted { protocol = closing }

rejections-finish_half_example : rejections (finish "s1" 20 (true, said_goodbye)).out ≡ (
    if said_goodbye.closed || same authenticating said_goodbye.protocol
    then rejections said_goodbye.out
    else unhandled_rejection (wrong_state said_goodbye.protocol) ∷ rejections said_goodbye.out)
rejections-finish_half_example = rejections-finish_half "s1" 20 true said_goodbye
