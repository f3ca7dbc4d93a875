-- ===== src/Framing.antt =====
-- shared/protocol/framing.ts: `encodeFrame` and `FrameDecoder`, over lists of bytes, and the loop
-- `while ((msg = this.decoder.read()))` in which server/src/connection.ts and
-- client/src/transport.ts read from it. The text of a JSON value, which Node makes and parses
-- (`JSON.stringify`, `JSON.parse`, UTF-8), is a parameter: `none` is a `SyntaxError`.
pub mod Bytes
pub mod Decode
pub mod Drain
pub mod Stream
pub mod Transfer
mod Tests
use termlink.Prelude.{
  ℕ, zero, suc, ◌+◌, ◌*◌, ◌/◌, ◌%◌, ◌^◌, Bool, List, [], ◌∷◌, ◌++◌, Option, none, some, ltb, ◌===◌,
  if◌then◌else◌, length, take, drop,
}
use termlink.Prelude.Result.{Result, ok, err}
use termlink.Json.{Json}
use termlink.Message.Valid.{is_valid_message}

abbrev pub header_size : ℕ
header_size = 4

abbrev pub u32_limit : ℕ
u32_limit = 2 ^ 32

abbrev pub default_max_frame_size : ℕ
default_max_frame_size = 1024 * 1024

-- `writeUInt32BE`, of a number below `u32_limit`.
unfoldable pub uint32_be : ℕ → List ℕ
uint32_be n = n / 2 ^ 24 % 256 ∷ n / 2 ^ 16 % 256 ∷ n / 2 ^ 8 % 256 ∷ n % 256 ∷ []

-- `readUInt32BE(0)`, of a buffer that holds four bytes at least.
unfoldable pub read_uint32_be : List ℕ → ℕ
read_uint32_be (a ∷ b ∷ c ∷ d ∷ rest) = a * 2 ^ 24 + b * 2 ^ 16 + c * 2 ^ 8 + d
read_uint32_be _ = 0

pub data FrameError : Type 0 where
  zero_length : FrameError
  oversized : (payload_length : ℕ) → FrameError
  invalid_json : FrameError
  invalid_schema : FrameError

pub record FrameDecoder : Type 0 where
  pub buffer : List ℕ
  pub max_frame_size : ℕ

-- The constructor.
unfoldable pub new_decoder : ℕ → FrameDecoder
new_decoder max = record { buffer = []; max_frame_size = max }

unfoldable pub feed : FrameDecoder → List ℕ → FrameDecoder
feed d chunk = record d { buffer = d.buffer ++ chunk }

unfoldable pub reset : FrameDecoder → FrameDecoder
reset d = record d { buffer = [] }

unfoldable pub buffered : FrameDecoder → ℕ
buffered d = length d.buffer

-- `none` is the `RangeError` of `writeUInt32BE` for a payload of 4 GB and more.
unfoldable pub encode_frame : (Json → List ℕ) → Json → Option (List ℕ)
encode_frame stringify msg =
    let payload = stringify msg in
    if ltb (length payload) u32_limit then some (uint32_be (length payload) ++ payload) else none

-- A validated message, or the error that the caller throws: `parseJsonMessage`, and the end of
-- `read`.
unfoldable pub checked : Option Json → Result FrameError Json
checked none = err invalid_json
checked (some parsed) = if is_valid_message parsed then ok parsed else err invalid_schema

abbrev pub found : Result FrameError Json → Result FrameError (Option Json)
found (ok m) = ok (some m)
found (err e) = err e

-- What one run of the loop leaves: the decoder, the messages that it handed on, in order, and
-- the error that ended it, if one did.
pub record Drained : Type 0 where
  pub decoder : FrameDecoder
  pub messages : List Json
  pub error : Option FrameError

abbrev pub after : Json → Drained → Drained
after m o = record o { messages = m ∷ o.messages }

module _ (parse : List ℕ → Option Json) where
  unfoldable pub parse_json_message : List ℕ → Result FrameError Json
  parse_json_message text = checked (parse text)

  -- The decoder after the call, and `ok none` for `null`: more data is needed.
  unfoldable pub read : FrameDecoder → FrameDecoder × Result FrameError (Option Json)
  read d =
      let payload_length = read_uint32_be d.buffer in
      let total = header_size + payload_length in
      if ltb (length d.buffer) header_size
      then (d, ok none)
      else if payload_length === 0
      then (record d { buffer = drop header_size d.buffer }, err zero_length)
      else if ltb d.max_frame_size payload_length
      then (d, err (oversized payload_length))
      else if ltb (length d.buffer) total
      then (d, ok none)
      else (
        record d { buffer = drop total d.buffer },
        found (checked (parse (take payload_length (drop header_size d.buffer)))),
      )

  -- Fuel bounds the calls of `read`; `read_all` gives one for each byte, and one more.
  unfoldable pub drain : ℕ → FrameDecoder → Drained
  drain zero d = record { decoder = d; messages = []; error = none }
  drain (suc fuel) d =
      let (d', r) = read d in
      elim r [
        | err e ↦ record { decoder = d'; messages = []; error = some e }
        | ok o ↦ elim o [
          | none ↦ record { decoder = d'; messages = []; error = none }
          | some m ↦ after m (drain fuel d')
        ]
      ]

  unfoldable pub read_all : FrameDecoder → Drained
  read_all d = drain (suc (length d.buffer)) d

  -- The chunks that a socket delivers, each fed and drained; the first error ends the reading.
  unfoldable pub read_chunks : FrameDecoder → List (List ℕ) → Drained
  read_chunks d [] = record { decoder = d; messages = []; error = none }
  read_chunks d (chunk ∷ chunks) =
      let o = read_all (feed d chunk) in
      elim o.error [
        | some e ↦ o
        | none ↦
            let rest = read_chunks o.decoder chunks in
            record rest { messages = o.messages ++ rest.messages }
      ]
