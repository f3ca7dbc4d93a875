-- ===== src/Connection/Tests.antt =====
-- Connections in their first moments, and one whose verification ends too late.
use termlink.Prelude.{
  ℕ, ◌≡◌, ◌≤◌, refl, true, false, Bool, List, ◌∷◌, [], ◌||◌, ◌==◌, Option, none, some,
  if◌then◌else◌,
}
use termlink.Prelude.Result.{ok}
use termlink.Json.{Json}
use termlink.Message.{
  AuthRequest, token_request, password_request, ProtocolState, connecting, authenticating, closing,
  auth_request, goodbye_in, client_json,
}
use termlink.Message
use termlink.Framing.{new_decoder, feed, read, parse_json_message, read_uint32_be, checked}
use termlink.Protocol
use termlink.Protocol.{wrong_state, same}
use termlink.Sessions
use termlink.Connection.{
  Config, Connection, unhandled_rejection, write, pty_backend, new_connection, send_safe, send_all,
  on_protocol, fail, peer_closed, send_auth_fail, throttle, handle_auth_request, dispatch,
}
use termlink.Connection.Receive.{on_data, dispatch_all, handle, receive, round, pump}
use termlink.Message.Valid.{as_client_message, is_client_message, is_valid_message}
use termlink.Connection.Events.{
  start, finish, refuse, resolve, on_close, step, run, Event, data_arrives, verification_ends,
  socket_closes,
}
use termlink.Connection.Moves.{verifications, services, all_refused}
use termlink.Connection.Auth.{verifications-run, services-run}
use termlink.Connection.Crash.{rejections, rejections-finish}

abbrev cfg : Config
cfg = record {
  max_auth_attempts = 3;
  auth_backoff_ms = 1000;
  auth_timeout_ms = 30000;
  echo_data = false;
  has_tokens = true;
  has_passwords = false;
  backend = pty_backend;
  remote_address = some "10.0.0.1";
  describe = λ e. "error";
}

abbrev login : AuthRequest
login = token_request "guess"

-- A parser that reads every payload as a login.
abbrev parse : List ℕ → Option Json
parse text = some (client_json (auth_request login))

abbrev refuse_all : AuthRequest → Bool
refuse_all r = false

abbrev fresh_connection : Connection
fresh_connection = new_connection "c1" 100 Sessions.empty none

abbrev greeted : Connection
greeted = record {
  id = "c1";
  decoder = new_decoder 100;
  protocol = authenticating;
  closed = false;
  authenticated = false;
  session_id = none;
  auth_attempts = 0;
  auth_locked_until = 0;
  auth_timer = true;
  pending = [];
  sessions = Sessions.empty;
  limiter = none;
  out = write (Message.hello ("token" ∷ [])) ∷ [];
}

starts : start cfg fresh_connection ≡ ok greeted
unfolding start new_connection on_protocol send_all send_safe Protocol.hello
starts = refl

-- Two logins in one chunk, each a frame of one byte, before either is checked.
abbrev two_logins : List ℕ
two_logins = 0 ∷ 0 ∷ 0 ∷ 1 ∷ 7 ∷ 0 ∷ 0 ∷ 0 ∷ 1 ∷ 7 ∷ []

abbrev events : List Event
events =
    data_arrives two_logins 10
    ∷ verification_ends 0 "s1" 20 true
    ∷ data_arrives two_logins 30
    ∷ socket_closes
    ∷ verification_ends 0 "s2" 40 true
    ∷ socket_closes
    ∷ []

verifications-run_example :
    verifications (run parse cfg refuse_all events greeted).out ≤ cfg.max_auth_attempts
verifications-run_example =
    verifications-run parse cfg refuse_all "c1" 100 Sessions.empty none greeted starts events

-- A store that knows one token, which is not the one that the client guesses.
abbrev knows_one : AuthRequest → Bool
knows_one (token_request token) = token == "right"
knows_one (password_request username password) = false

all_wrong : all_refused knows_one (run parse cfg knows_one events greeted).out ≡ true
unfolding run step on_data feed pump round read parse_json_message receive handle dispatch_all
    dispatch handle_auth_request throttle resolve finish refuse send_auth_fail on_protocol send_all
    send_safe Protocol.handle Protocol.auth_fail fail peer_closed on_close as_client_message
    new_decoder read_uint32_be checked is_valid_message client_json is_client_message
all_wrong = refl

services-run_example :
    (services (run parse cfg knows_one events greeted).out ≡ [])
    × ((run parse cfg knows_one events greeted).authenticated ≡ false)
services-run_example =
    services-run parse cfg knows_one "c1" 100 Sessions.empty none greeted starts events all_wrong

-- A login that is being checked when the authentication window passes.
abbrev timed_out : Connection
timed_out = record greeted { protocol = closing }

rejections-finish_example : rejections (finish cfg true "s1" 30000 true timed_out).out ≡ (
    if timed_out.closed || same authenticating timed_out.protocol
    then rejections timed_out.out
    else unhandled_rejection (wrong_state timed_out.protocol) ∷ rejections timed_out.out)
rejections-finish_example = rejections-finish cfg true "s1" 30000 true timed_out
