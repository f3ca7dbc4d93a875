-- ===== src/Transport/Receive.antt =====
-- What the client does with the bytes of its socket.
use termlink.Prelude.{
  ℕ, zero, suc, Bool, true, List, [], ◌∷◌, Option, none, some, length, if◌then◌else◌,
}
use termlink.Prelude.Result.{Result, ok, err}
use termlink.Json.{Json}
use termlink.Message.{ServerMessage}
use termlink.Message.Valid.{is_server_message}
use termlink.Message.Server.{as_server_message}
use termlink.Framing.{FrameDecoder, FrameError, feed, read}
use termlink.ClientProtocol
use termlink.ClientProtocol.{
  ClientCallback, on_hello, on_auth_ok, on_auth_fail, on_data, on_binary, on_terminal_output,
  on_goodbye, on_pong, ClientMoved,
}
use termlink.Transport.{
  TransportError, framing, unexpected_type, in_state, no_decoder, ClientConfig, session_ready,
  auth_failed, got_data, got_binary, got_output, got_pong, got_goodbye, failed, TcpClient, tell,
  destroy_socket, flush_queue, handle_hello,
}

-- The answer to a callback of the protocol. `writable` is for the flush, which follows the owner's
-- answer to `ready`.
unfoldable pub dispatch : ClientConfig → (ℕ → Bool) → ClientCallback → TcpClient → TcpClient
dispatch cfg writable (on_hello methods) c = handle_hello cfg methods c
dispatch cfg writable (on_auth_ok id) c = flush_queue cfg writable (tell cfg (session_ready id) c)
dispatch cfg writable (on_auth_fail reason) c = tell cfg (auth_failed reason) c
dispatch cfg writable (on_data payload) c = tell cfg (got_data payload) c
dispatch cfg writable (on_binary payload) c = tell cfg (got_binary payload) c
dispatch cfg writable (on_terminal_output payload) c = tell cfg (got_output payload) c
dispatch cfg writable (on_goodbye reason) c = tell cfg (got_goodbye reason) c
dispatch cfg writable on_pong c = tell cfg got_pong c

unfoldable pub dispatch_all :
    ClientConfig → (ℕ → Bool) → List ClientCallback → TcpClient → TcpClient
dispatch_all cfg writable [] c = c
dispatch_all cfg writable (call ∷ calls) c =
    dispatch_all cfg writable calls (dispatch cfg writable call c)

-- `protocol.handle(msg)`
unfoldable pub handle :
    ClientConfig → (ℕ → Bool) → ServerMessage → TcpClient → Result TransportError TcpClient
handle cfg writable m c = elim (ClientProtocol.handle m c.protocol) [
  | err e ↦ err (in_state e)
  | ok moved ↦ ok (dispatch_all cfg writable moved.calls (record c { protocol = moved.state }))
]

-- The body of the loop. A valid message is read at its declared type.
unfoldable pub receive :
    ClientConfig → (ℕ → Bool) → Json → TcpClient → Result TransportError TcpClient
receive cfg writable msg c =
    if is_server_message msg
    then elim (as_server_message msg) [
      | none ↦ err unexpected_type
      | some m ↦ handle cfg writable m c
    ]
    else err unexpected_type

-- The `catch` of `onData`, and `handleProtocolError`.
unfoldable pub caught : ClientConfig → TransportError → TcpClient → TcpClient
unfolding destroy_socket
caught cfg e c =
    destroy_socket (record (tell cfg (failed (cfg.describe e)) c) { closed_by_us = true })

-- What the loop goes on with.
unfoldable pub proceed :
    ClientConfig → (TcpClient → TcpClient) → TcpClient → Result TransportError TcpClient → TcpClient
proceed cfg next c (err e) = caught cfg e c
proceed cfg next c (ok c') = next c'

-- One round of the loop, on what the decoder gave; `next` is the loop behind it.
unfoldable pub round :
    ClientConfig
    → (ℕ → Bool)
    → (TcpClient → TcpClient)
    → FrameDecoder × Result FrameError (Option Json)
    → TcpClient
    → TcpClient
round cfg writable next (d, err e) c = caught cfg (framing e) (record c { decoder = some d })
round cfg writable next (d, ok none) c = record c { decoder = some d }
round cfg writable next (d, ok (some msg)) c =
    let c' = record c { decoder = some d } in proceed cfg next c' (receive cfg writable msg c')

module _ (parse : List ℕ → Option Json) (cfg : ClientConfig) (writable : ℕ → Bool) where
  -- The loop of `onData`, on fuel.
  unfoldable pub pump : ℕ → TcpClient → TcpClient
  pump zero c = c
  pump (suc fuel) c = elim c.decoder [
    | none ↦ caught cfg no_decoder c
    | some d ↦ round cfg writable (pump fuel) (read parse d) c
  ]

  unfoldable pub on_data_chunk : List ℕ → TcpClient → TcpClient
  on_data_chunk chunk c = elim c.decoder [
    | none ↦ c
    | some d ↦
        let fed = feed d chunk in pump (suc (length fed.buffer)) (record c { decoder = some fed })
  ]
