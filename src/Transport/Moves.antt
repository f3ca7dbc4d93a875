-- ===== src/Transport/Moves.antt =====
-- What the client leaves alone while it answers the bytes of its socket.
use termlink.Prelude.{
  ℕ, zero, suc, ◌≡◌, refl, String, Bool, true, false, List, [], ◌∷◌, ◌++◌, Option, none, some,
  arith, inl, inr, Option-cases, length,
}
use termlink.Prelude.Result.{Result, ok, err}
use termlink.Json.{Json}
use termlink.Message.{
  ClientMessage, ServerMessage, hello, auth_ok, auth_fail, data_out, binary_out, terminal_output,
  pong, goodbye_out,
}
use termlink.Message.Server.{as_server_message}
use termlink.Framing.{FrameDecoder, FrameError, feed, read}
use termlink.ClientProtocol
use termlink.ClientProtocol.{build_auth_request}
use termlink.Transport.{
  TransportError, framing, no_decoder, ClientConfig, OwnerCall, sends, closes, destroys,
  ClientEvent, auth_failed, got_data, got_binary, got_output, got_pong, got_goodbye, failed,
  drained, react, tell, request, enqueue, close, destroy, asked, emits, session_ready, TcpOut,
  opens_socket, writes, writes_auth, ends_with, TcpClient, emit, destroy_socket, write, flush_from,
  flush_queue, handle_bad_credentials, handle_hello,
}
use termlink.Transport.Receive.{
  dispatch, dispatch_all, handle, receive, caught, proceed, round, pump, on_data_chunk,
}

abbrev pub opened : List TcpOut → ℕ
opened [] = 0
opened (opens_socket ∷ out) = suc (opened out)
opened (_ ∷ out) = opened out

-- The owner's messages that were written, in order.
abbrev pub written : List TcpOut → List ClientMessage
written [] = []
written (writes m ∷ out) = written out ++ m ∷ []
written (_ ∷ out) = written out

-- The messages that the owner asked for, in order.
abbrev pub requested : List TcpOut → List ClientMessage
requested [] = []
requested (asked m ∷ out) = requested out ++ m ∷ []
requested (_ ∷ out) = requested out

-- How many frames were written.
abbrev pub frames : List TcpOut → ℕ
frames [] = 0
frames (writes m ∷ out) = suc (frames out)
frames (writes_auth r ∷ out) = suc (frames out)
frames (ends_with m ∷ out) = suc (frames out)
frames (_ ∷ out) = frames out

abbrev pub has_decoder : TcpClient → Bool
has_decoder c = elim c.decoder [ none ↦ false | some d ↦ true ]

-- What the answer to bytes may change of a client.
pub record Receives (c c' : TcpClient) : Type 0 where
  pub alive_kept : c'.alive ≡ c.alive
  pub armed_less : c.armed ≡ false → c'.armed ≡ false
  pub attempts_kept : c'.reconnect_attempts ≡ c.reconnect_attempts
  pub destroyed_stays : c.destroyed ≡ true → c'.destroyed ≡ true
  pub opened_kept : opened c'.out ≡ opened c.out
  pub closed_stays : c.closed_by_us ≡ true → c'.closed_by_us ≡ true
  pub gone_stays : c.has_socket ≡ false → c'.has_socket ≡ false
  pub silent : c.has_socket ≡ false → frames c'.out ≡ frames c.out
  pub paired : c.has_socket ≡ has_decoder c → c'.has_socket ≡ has_decoder c'
  pub dead :
      (c.destroyed ≡ true → c.has_socket ≡ false) → c'.destroyed ≡ true → c'.has_socket ≡ false

pub Receives-trans : (a b c : TcpClient) → Receives a b → Receives b c → Receives a c
Receives-trans a b c x y = ground (arith, x, y)

pub react-Receives :
    (calls : List OwnerCall) (c : TcpClient)
    → Receives c (react calls c) × ((react calls c).protocol ≡ c.protocol)
unfolding react request enqueue close destroy destroy_socket
react-Receives [] c = ground arith
react-Receives (sends m writable ∷ calls) c =
    ground (arith, react-Receives calls (request writable m c).1)
react-Receives (closes ∷ calls) c = ground (arith, react-Receives calls (close c))
react-Receives (destroys ∷ calls) c = ground (arith, react-Receives calls (destroy c))

pub tell-Receives :
    (cfg : ClientConfig) (e : ClientEvent) (c : TcpClient)
    → Receives c (tell cfg e c) × ((tell cfg e c).protocol ≡ c.protocol)
unfolding tell
tell-Receives cfg e c =
    let told = emit (emits e) c in ground (arith, react-Receives (cfg.on_event told e) told)

flush_from-Receives :
    (cfg : ClientConfig) (writable : ℕ → Bool) (i : ℕ) (queue : List ClientMessage) (c : TcpClient)
    → c.has_socket ≡ true
    → Receives c (flush_from cfg writable i queue c)
unfolding flush_from
flush_from-Receives cfg writable i [] c h =
    ground (arith, tell-Receives cfg drained (record c { send_queue = [] }))
flush_from-Receives cfg writable i (m ∷ queue) c h =
    ground (arith, flush_from-Receives cfg writable (suc i) queue (write m c))

pub flush_queue-Receives :
    (cfg : ClientConfig) (writable : ℕ → Bool) (c : TcpClient)
    → Receives c (flush_queue cfg writable c)
unfolding flush_queue
flush_queue-Receives cfg writable c =
    ground (arith, flush_from-Receives cfg writable 0 c.send_queue c)

caught-Receives :
    (cfg : ClientConfig) (e : TransportError) (c : TcpClient) → Receives c (caught cfg e c)
unfolding caught destroy_socket
caught-Receives cfg e c = ground (arith, tell-Receives cfg (failed (cfg.describe e)) c)

handle_hello-Receives :
    (cfg : ClientConfig) (methods : List String) (c : TcpClient)
    → Receives c (handle_hello cfg methods c)
unfolding handle_hello handle_bad_credentials destroy_socket
handle_hello-Receives cfg methods c =
    let reason : String = "No usable credentials for the server's advertised auth methods" in
    let told = tell cfg (failed reason) c in
    let closed = destroy_socket (record told { closed_by_us = true }) in
    ground (
      arith,
      tell-Receives cfg (failed reason) c,
      tell-Receives cfg (auth_failed "no usable credentials configured") closed,
    )

handle-Receives :
    (cfg : ClientConfig) (writable : ℕ → Bool) (m : ServerMessage) (c c' : TcpClient)
    → handle cfg writable m c ≡ ok c'
    → Receives c c'
unfolding handle dispatch_all dispatch ClientProtocol.handle
handle-Receives cfg writable (hello methods) c c' e =
    let waits = record c { protocol = ClientProtocol.authenticating } in
    ground (arith, handle_hello-Receives cfg methods waits)
handle-Receives cfg writable (auth_ok id) c c' e =
    let up = record c { protocol = ClientProtocol.ready } in
    ground (
      arith,
      tell-Receives cfg (session_ready id) up,
      flush_queue-Receives cfg writable (tell cfg (session_ready id) up),
    )
handle-Receives cfg writable (auth_fail reason) c c' e =
    ground (arith, tell-Receives cfg (auth_failed reason) c)
handle-Receives cfg writable (data_out payload) c c' e =
    ground (arith, tell-Receives cfg (got_data payload) c)
handle-Receives cfg writable (binary_out payload) c c' e =
    ground (arith, tell-Receives cfg (got_binary payload) c)
handle-Receives cfg writable (terminal_output payload) c c' e =
    ground (arith, tell-Receives cfg (got_output payload) c)
handle-Receives cfg writable pong c c' e = ground (arith, tell-Receives cfg got_pong c)
handle-Receives cfg writable (goodbye_out reason) c c' e =
    let gone = record c { protocol = ClientProtocol.closing } in
    ground (arith, tell-Receives cfg (got_goodbye reason) gone)

receive-Receives :
    (cfg : ClientConfig) (writable : ℕ → Bool) (msg : Json) (c c' : TcpClient)
    → receive cfg writable msg c ≡ ok c'
    → Receives c c'
unfolding receive
receive-Receives cfg writable msg c c' e = elim (Option-cases (as_server_message msg)) [
  | inl untyped ↦ ground arith
  | inr (m, typed) ↦ ground (arith, handle-Receives cfg writable m c c')
]

-- The loop of `onData` keeps what every part of it keeps.
module _ (R : TcpClient → TcpClient → Type 0) (R-refl : (c : TcpClient) → R c c)
    (R-trans : (a b c : TcpClient) → R a b → R b c → R a c) (cfg : ClientConfig)
    (writable : ℕ → Bool)
    (R-decoder : (c : TcpClient) (d d' : FrameDecoder)
      → c.decoder ≡ some d
      → R c (record c { decoder = some d' }))
    (R-caught : (e : TransportError) (c : TcpClient) → R c (caught cfg e c))
    (R-receive : (msg : Json) (c c' : TcpClient)
      → receive cfg writable msg c ≡ ok c'
      → R c c') where
  proceed-keeps :
      (next : TcpClient → TcpClient) (c : TcpClient) (r : Result TransportError TcpClient)
      → ((c' : TcpClient) → r ≡ ok c' → R c c')
      → ((c' : TcpClient) → R c' (next c'))
      → R c (proceed cfg next c r)
  unfolding proceed
  proceed-keeps next c (err e) received onward = R-caught e c
  proceed-keeps next c (ok c') received onward =
      R-trans c c' (next c') (received c' refl) (onward c')

  round-keeps :
      (next : TcpClient → TcpClient) (found : FrameDecoder × Result FrameError (Option Json))
      (c : TcpClient) (d : FrameDecoder)
      → c.decoder ≡ some d
      → ((c' : TcpClient) → R c' (next c'))
      → R c (round cfg writable next found c)
  unfolding round
  round-keeps next (d', err e) c d h onward =
      R-trans c (record c { decoder = some d' }) _ (R-decoder c d d' h) (R-caught (framing e) _)
  round-keeps next (d', ok none) c d h onward = R-decoder c d d' h
  round-keeps next (d', ok (some msg)) c d h onward =
      let c0 = record c { decoder = some d' } in
      R-trans c c0 _ (R-decoder c d d' h)
        (proceed-keeps next c0 (receive cfg writable msg c0) (R-receive msg c0) onward)

  decoder-keeps :
      (c c' : TcpClient) (f : FrameDecoder → TcpClient) (o : Option FrameDecoder)
      → R c c'
      → ((d : FrameDecoder) → o ≡ some d → R c (f d))
      → R c (elim o [ none ↦ c' | some d ↦ f d ])
  decoder-keeps c c' f none gone there = gone
  decoder-keeps c c' f (some d) gone there = there d refl

  pump-keeps :
      (parse : List ℕ → Option Json) (fuel : ℕ) (c : TcpClient)
      → R c (pump parse cfg writable fuel c)
  unfolding pump
  pump-keeps parse zero c = R-refl c
  pump-keeps parse (suc fuel) c =
      let next = pump parse cfg writable fuel in
      decoder-keeps c (caught cfg no_decoder c) (λ d. round cfg writable next (read parse d) c)
        c.decoder (R-caught no_decoder c)
        (λ d there. round-keeps next (read parse d) c d there (pump-keeps parse fuel))

  pub on_data_chunk-keeps :
      (parse : List ℕ → Option Json) (chunk : List ℕ) (c : TcpClient)
      → R c (on_data_chunk parse cfg writable chunk c)
  unfolding on_data_chunk
  on_data_chunk-keeps parse chunk c =
      let pumped = λ (d : FrameDecoder).
        pump parse cfg writable (suc (length (feed d chunk).buffer))
          (record c { decoder = some (feed d chunk) }) in
      decoder-keeps c c pumped c.decoder (R-refl c) (λ d there.
        R-trans c (record c { decoder = some (feed d chunk) }) _ (R-decoder c d _ there)
          (pump-keeps parse _ _))

pub on_data_chunk-Receives :
    (parse : List ℕ → Option Json) (cfg : ClientConfig) (writable : ℕ → Bool) (chunk : List ℕ)
    (c : TcpClient)
    → Receives c (on_data_chunk parse cfg writable chunk c)
on_data_chunk-Receives parse cfg writable chunk c =
    on_data_chunk-keeps Receives (λ a. ground arith) Receives-trans cfg writable
      (λ a d d' h. ground arith) (caught-Receives cfg) (receive-Receives cfg writable) parse chunk c
