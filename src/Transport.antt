-- ===== src/Transport.antt =====
-- client/src/transport.ts: the TCP client, which the command line client and the relay's backend
-- half use. `connect` is called once; the sockets that follow come from the reconnect timer, so at
-- most one socket is alive, and events of a socket are events of that one. What the client calls on
-- the socket and on its owner, and what the owner asks it to send, is recorded in `out`, the latest
-- first. The owner may call back inside `onEvent`, which is a function in `ClientConfig`.
pub mod Receive
pub mod Events
pub mod Moves
pub mod Life
pub mod Flush
pub mod Order
pub mod Repeat
mod Tests
use termlink.Prelude.{
  ℕ, zero, suc, ◌+◌, String, Bool, true, false, not, ◌&&◌, List, [], ◌∷◌, ◌++◌, Option, none, some,
  ltb, ◌===◌, if◌then◌else◌, length,
}
use termlink.Prelude.Result.{Result, ok, err}
use termlink.Message.{AuthRequest, ClientMessage, goodbye_in}
use termlink.Framing.{FrameDecoder, FrameError, new_decoder}
use termlink.ClientProtocol
use termlink.ClientProtocol.{
  ClientProtocolState, disconnected, ready, WrongClientState, ClientMoved, same_client, Credentials,
  build_auth_request,
}

-- What `onData` catches: the last is the `TypeError` of a read from a decoder that is gone.
pub data TransportError : Type 0 where
  framing : FrameError → TransportError
  unexpected_type : TransportError
  in_state : WrongClientState → TransportError
  no_decoder : TransportError

-- `TransportEvent`
pub data ClientEvent : Type 0 where
  link_connected : ClientEvent
  session_ready : (session_id : String) → ClientEvent
  auth_failed : (reason : String) → ClientEvent
  got_data got_binary got_output : (payload : String) → ClientEvent
  got_pong : ClientEvent
  got_goodbye : (reason : Option String) → ClientEvent
  link_lost : ClientEvent
  reconnecting : (attempt : ℕ) → ClientEvent
  reconnect_failed drained : ClientEvent
  failed : (message : String) → ClientEvent

-- `asked` is a call of the owner that sends a message. `settles` is a call of `done`, with or without an error.
pub data TcpOut : Type 0 where
  opens_socket : TcpOut
  asked writes ends_with : ClientMessage → TcpOut
  writes_auth : AuthRequest → TcpOut
  destroys_socket : TcpOut
  emits : ClientEvent → TcpOut
  settles : (failed : Bool) → TcpOut
  throws : WrongClientState → TcpOut

-- `alive` is whether a socket is open that has not reported its close; `has_socket` and `decoder`
-- are the fields that the client itself keeps of it. `armed` is the reconnect timer. `listeners`
-- counts the calls of `once("drain")` on the socket.
pub record TcpClient : Type 0 where
  pub alive : Bool
  pub has_socket : Bool
  pub decoder : Option FrameDecoder
  pub protocol : ClientProtocolState
  pub closed_by_us : Bool
  pub ever_connected : Bool
  pub reconnect_attempts : ℕ
  pub armed : Bool
  pub connect_timer : Bool
  pub destroyed : Bool
  pub send_queue : List ClientMessage
  pub listeners : ℕ
  pub out : List TcpOut

-- What the owner calls inside `onEvent`; `writable` is what `socket.write` returns.
pub data OwnerCall : Type 0 where
  sends : (m : ClientMessage) (writable : Bool) → OwnerCall
  closes destroys : OwnerCall

-- The configuration, and the owner's `onEvent`: what it calls on the client, in order, before it
-- returns. It may depend on all that has happened, so it is given the whole client.
pub record ClientConfig : Type 0 where
  pub max_frame_size : ℕ
  pub reconnect : Bool
  pub max_reconnect_attempts : ℕ
  pub credentials : Credentials
  pub describe : TransportError → String
  pub on_event : TcpClient → ClientEvent → List OwnerCall

unfoldable pub new_client : TcpClient
new_client = record {
  alive = false;
  has_socket = false;
  decoder = none;
  protocol = disconnected;
  closed_by_us = false;
  ever_connected = false;
  reconnect_attempts = 0;
  armed = false;
  connect_timer = false;
  destroyed = false;
  send_queue = [];
  listeners = 0;
  out = [];
}

abbrev pub emit : TcpOut → TcpClient → TcpClient
emit o c = record c { out = o ∷ c.out }

abbrev pub is_ready : TcpClient → Bool
is_ready c = same_client ready c.protocol

unfoldable pub destroy_socket : TcpClient → TcpClient
destroy_socket c =
    let gone = record c { has_socket = false; decoder = none } in
    if c.has_socket then emit destroys_socket gone else gone

-- `write(encodeFrame(msg))`: what is written is under way, whether or not `write` finds room.
abbrev pub write : ClientMessage → TcpClient → TcpClient
write m c = emit (writes m) c

-- `writable` is what `socket.write` returns: `false` where its buffer is full.
unfoldable pub enqueue : Bool → ClientMessage → TcpClient → Bool × TcpClient
enqueue writable m c =
    let waiting = c.send_queue ++ m ∷ [] in
    if c.destroyed
    then (false, c)
    else if is_ready c && c.has_socket
    then (
      true,
      (if writable
          then write m c
          else write m (record c { send_queue = waiting; listeners = c.listeners + 1 })),
    )
    else (true, record c { send_queue = waiting })

-- `sendData` and its siblings, with the message that they build: a call of the owner, on record.
unfoldable pub request : Bool → ClientMessage → TcpClient → Bool × TcpClient
request writable m c = enqueue writable m (emit (asked m) c)

unfoldable pub close : TcpClient → TcpClient
close c =
    let closing = record c { closed_by_us = true; armed = false } in
    if c.destroyed
    then c
    else if c.has_socket
    then emit (ends_with (goodbye_in (some "closed by client"))) closing
    else closing

unfoldable pub destroy : TcpClient → TcpClient
unfolding destroy_socket
destroy c = record (destroy_socket (record c { destroyed = true })) { armed = false }

unfoldable pub react : List OwnerCall → TcpClient → TcpClient
react [] c = c
react (sends m writable ∷ calls) c = react calls (request writable m c).1
react (closes ∷ calls) c = react calls (close c)
react (destroys ∷ calls) c = react calls (destroy c)

-- `emit(event)`: the owner may call back before it returns.
unfoldable pub tell : ClientConfig → ClientEvent → TcpClient → TcpClient
tell cfg e c = let told = emit (emits e) c in react (cfg.on_event told e) told

-- The loop of `flushQueue`; `writable` tells, for each round, what `socket.write` returns.
unfoldable pub flush_from :
    ClientConfig → (ℕ → Bool) → ℕ → List ClientMessage → TcpClient → TcpClient
flush_from cfg writable i [] c = tell cfg drained (record c { send_queue = [] })
flush_from cfg writable i (m ∷ queue) c =
    let rest = flush_from cfg writable (suc i) queue (write m c) in
    if writable i
    then rest
    else write m (record c { send_queue = m ∷ queue; listeners = c.listeners + 1 })

unfoldable pub flush_queue : ClientConfig → (ℕ → Bool) → TcpClient → TcpClient
unfolding flush_from
flush_queue cfg writable c =
    if c.has_socket && is_ready c
    then (if length c.send_queue === 0 then c else flush_from cfg writable 0 c.send_queue c)
    else c

-- `handleBadCredentials`
unfoldable pub handle_bad_credentials : ClientConfig → TcpClient → TcpClient
unfolding destroy_socket
handle_bad_credentials cfg c =
    tell cfg (auth_failed "no usable credentials configured")
      (destroy_socket (record c { closed_by_us = true }))

unfoldable pub handle_hello : ClientConfig → List String → TcpClient → TcpClient
unfolding handle_bad_credentials
handle_hello cfg methods c = elim (build_auth_request methods cfg.credentials) [
  | none ↦
      handle_bad_credentials cfg
        (tell cfg (failed "No usable credentials for the server's advertised auth methods") c)
  | some r ↦ if c.has_socket then emit (writes_auth r) c else c
]

-- `connectOnce`. A `FrameError` of the protocol leaves it by a throw.
unfoldable pub connect_once : ClientConfig → TcpClient → TcpClient
connect_once cfg c =
    let made = emit opens_socket (record c {
      alive = true;
      has_socket = true;
      decoder = some (new_decoder cfg.max_frame_size);
      listeners = 0;
    }) in
    if c.destroyed then emit (settles true) c else elim (ClientProtocol.connected c.protocol) [
      | err e ↦ emit (throws e) made
      | ok moved ↦ record made { protocol = moved.state; connect_timer = true }
    ]

-- The socket is connected; with TLS, its handshake is done.
unfoldable pub on_link : ClientConfig → TcpClient → TcpClient
on_link cfg c =
    emit (settles false)
      (tell cfg link_connected (record c { connect_timer = false; ever_connected = true }))
