-- ===== src/Connection/Receive.antt =====
-- What a connection does with the bytes of its socket.
use termlink.Prelude.{ℕ, zero, suc, List, [], ◌∷◌, Option, none, some, length, if◌then◌else◌}
use termlink.Prelude.Result.{Result, ok, err}
use termlink.Json.{Json}
use termlink.Message.{ClientMessage}
use termlink.Message.Valid.{is_client_message, as_client_message}
use termlink.Framing.{FrameDecoder, FrameError, feed, read}
use termlink.Protocol
use termlink.Protocol.{Callback, Moved, WrongState}
use termlink.Connection.{
  Config, Connection, ConnectionError, framing, unexpected_type, in_state, fail, dispatch,
}

-- `none` and `err` of the callbacks in one: the first error ends the list.
unfoldable pub dispatch_all : Config → ℕ → List Callback → Connection → Result WrongState Connection
dispatch_all cfg now [] c = ok c
dispatch_all cfg now (call ∷ calls) c = elim (dispatch cfg now call c) [
  | err e ↦ err e
  | ok c' ↦ dispatch_all cfg now calls c'
]

-- `protocol.handle(msg)`. The machine's own state is set before it calls back.
unfoldable pub handle : Config → ℕ → ClientMessage → Connection → Result WrongState Connection
handle cfg now m c = elim (Protocol.handle m c.protocol) [
  | err e ↦ err e
  | ok moved ↦ dispatch_all cfg now moved.calls (record c { protocol = moved.state })
]

-- The body of the loop. A valid message is read at its declared type.
unfoldable pub receive : Config → ℕ → Json → Connection → Result ConnectionError Connection
receive cfg now msg c =
    if is_client_message msg
    then elim (as_client_message msg) [
      | none ↦ err unexpected_type
      | some m ↦ elim (handle cfg now m c) [ err e ↦ err (in_state e) | ok c' ↦ ok c' ]
    ]
    else err unexpected_type

-- One round of the loop of `onData`, on what the decoder gave; `next` is the loop behind it.
unfoldable pub round :
    Config
    → ℕ
    → (Connection → Connection)
    → FrameDecoder × Result FrameError (Option Json)
    → Connection
    → Connection
round cfg now next (d, err e) c = fail (cfg.describe (framing e)) (record c { decoder = d })
round cfg now next (d, ok none) c = record c { decoder = d }
round cfg now next (d, ok (some msg)) c = elim (receive cfg now msg (record c { decoder = d })) [
  | err e ↦ fail (cfg.describe e) (record c { decoder = d })
  | ok c' ↦ next c'
]

module _ (parse : List ℕ → Option Json) (cfg : Config) where
  -- The loop of `onData`, on fuel.
  unfoldable pub pump : ℕ → ℕ → Connection → Connection
  pump zero now c = c
  pump (suc fuel) now c = round cfg now (pump fuel now) (read parse c.decoder) c

  unfoldable pub on_data : List ℕ → ℕ → Connection → Connection
  on_data chunk now c =
      let fed = record c { decoder = feed c.decoder chunk } in
      pump (suc (length fed.decoder.buffer)) now fed
