-- ===== src/Transport/Tests.antt =====
-- A client that connects, loses its socket, and connects again.
use termlink.Prelude.{
  ◌&&◌, length, ◌===◌, ◌≢◌, String, arith, if◌then◌else◌, ℕ, zero, ◌≡◌, ◌≤◌, ◌+◌, ◌++◌, refl, true,
  false, List, ◌∷◌, [], Option, none, some,
}
use termlink.Json.{Json}
use termlink.Message.{ClientMessage, hello, data_in, ping, server_json, auth_ok}
use termlink.ClientProtocol
use termlink.Transport.{
  ClientConfig, OwnerCall, sends, closes, ClientEvent, session_ready, got_data, link_lost,
  TcpClient, new_client, request, react, tell, handle_hello, flush_queue, flush_from, is_ready,
  enqueue, connect_once, on_link,
}
use termlink.Framing.{read, feed, new_decoder, read_uint32_be, checked}
use termlink.Message.Valid.{is_valid_message, is_server_message}
use termlink.Message.Server.{as_server_message, texts_of}
use termlink.ClientProtocol.{build_auth_request}
use termlink.Transport.Receive.{
  dispatch, dispatch_all, handle, receive, proceed, round, pump, on_data_chunk,
}
use termlink.Transport.Events.{
  Event, links, data_arrives, socket_closes, reconnect_is_due, owner_sends, on_drain, on_socket,
  step, run,
}
use termlink.Transport.Moves.{opened, written, requested}
use termlink.Transport.Life.{opened-run}
use termlink.Transport.Order.{written-run}
use termlink.Transport.Flush.{all_fit, sends_nothing, IsPatient}
use termlink.Transport.Repeat.{written-enqueue_full}

-- An owner that sends a line inside `ready`, unless others still wait, and answers each payload.
abbrev answers : TcpClient → ClientEvent → List OwnerCall
answers c (session_ready id) =
    if length c.send_queue === 0 then sends (data_in "buffered") true ∷ [] else []
answers c (got_data payload) = sends ping true ∷ []
answers c link_lost = closes ∷ []
answers c e = []

answers-fit : (c : TcpClient) (e : ClientEvent) → all_fit (answers c e) ≡ true
answers-fit c (session_ready id) = ground arith
answers-fit c e = ground arith

answers-wait :
    (c : TcpClient) (id : String)
    → c.send_queue ≢ []
    → sends_nothing (answers c (session_ready id)) ≡ true
answers-wait c id waiting = ground arith

abbrev cfg : ClientConfig
cfg = record {
  max_frame_size = 100;
  reconnect = true;
  max_reconnect_attempts = 2;
  credentials = record { token = some "t"; username = none; password = none };
  describe = λ e. "error";
  on_event = answers;
}

answers-IsPatient : IsPatient cfg
answers-IsPatient = record { fits = answers-fit; waits = answers-wait }

-- A parser that reads a payload of one byte.
abbrev parse : List ℕ → Option Json
parse (zero ∷ []) = some (server_json (hello ("token" ∷ [])))
parse text = some (server_json (auth_ok "s1"))

abbrev hello_frame : List ℕ
hello_frame = 0 ∷ 0 ∷ 0 ∷ 1 ∷ 0 ∷ []

abbrev welcome_frame : List ℕ
welcome_frame = 0 ∷ 0 ∷ 0 ∷ 1 ∷ 1 ∷ []

abbrev life : List Event
life =
    owner_sends ping true
    ∷ socket_closes
    ∷ owner_sends (data_in "a") true
    ∷ reconnect_is_due
    ∷ links
    ∷ socket_closes
    ∷ reconnect_is_due
    ∷ socket_closes
    ∷ []

opened-run_example :
    opened (run parse cfg life (connect_once cfg new_client)).out ≤ 1 + cfg.max_reconnect_attempts
opened-run_example = opened-run parse cfg life

abbrev talk : List Event
talk =
    links
    ∷ data_arrives hello_frame (λ i. true)
    ∷ data_arrives welcome_frame (λ i. true)
    ∷ owner_sends (data_in "a") true
    ∷ []

-- The line that waited for `ready` is sent inside it.
talked :
    let c = run parse cfg talk (connect_once cfg new_client) in
    (c.destroyed ≡ false) × (requested c.out ≡ data_in "buffered" ∷ data_in "a" ∷ [])
unfolding run step on_link request enqueue connect_once new_client on_socket
    ClientProtocol.connected tell react on_data_chunk pump round read feed new_decoder
    read_uint32_be checked is_valid_message server_json proceed receive is_server_message
    as_server_message handle ClientProtocol.handle dispatch_all dispatch build_auth_request texts_of
    handle_hello flush_queue flush_from
talked = (refl, refl)

written-run_example :
    let c = run parse cfg talk (connect_once cfg new_client) in
    (written c.out ++ c.send_queue ≡ requested c.out)
    × ((if is_ready c && c.has_socket then c.send_queue else []) ≡ [])
written-run_example =
    written-run parse cfg answers-IsPatient talk (tt, ((λ i. refl), ((λ i. refl), (refl, tt))))
      talked.0

abbrev up : TcpClient
up = record {
  alive = true;
  has_socket = true;
  decoder = none;
  protocol = ClientProtocol.ready;
  closed_by_us = false;
  ever_connected = true;
  reconnect_attempts = 0;
  armed = false;
  connect_timer = false;
  destroyed = false;
  send_queue = [];
  listeners = 0;
  out = [];
}

written-enqueue_full_example :
    (more : List ClientMessage) × (written
        (on_drain cfg (λ i j. true) (enqueue false (data_in "a") up).1).out
      ≡ ((written up.out ++ data_in "a" ∷ []) ++ data_in "a" ∷ []) ++ more)
written-enqueue_full_example =
    written-enqueue_full cfg (data_in "a") (λ i j. true) up refl refl refl refl refl refl
