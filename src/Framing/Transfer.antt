-- ===== src/Framing/Transfer.antt =====
-- A sender that writes frames with `encodeFrame`, and a receiver that feeds what its socket
-- delivers to a `FrameDecoder`; and the length of the receiver's buffer.
use mathlib.Core.List.{flatten}
use termlink.Prelude.{
  ℕ, ◌+◌, ◌≤◌, ◌<◌, ◌≡◌, refl, ◌∙◌, true, List, [], ◌∷◌, ◌++◌, Option, none, some, arith, length,
  Option-cases, inl, inr, All,
}
use termlink.Prelude.Result.{ok}
use termlink.Json.{Json}
use termlink.Message.Valid.{is_valid_message}
use termlink.Framing.{
  header_size, FrameDecoder, new_decoder, feed, buffered, encode_frame, read, read_all, read_chunks,
}
use termlink.Framing.Decode.{read-encode_frame}
use termlink.Framing.Drain.{read_all_step, read_all_wait, read_all_ends, read_all-max_frame_size}
use termlink.Framing.Stream.{read_chunks-flatten}

-- What one side writes for a list of messages.
unfoldable pub encode_all : (Json → List ℕ) → List Json → Option (List ℕ)
encode_all stringify [] = some []
encode_all stringify (m ∷ ms) = elim (encode_frame stringify m) [
  | none ↦ none
  | some frame ↦ elim (encode_all stringify ms) [ none ↦ none | some rest ↦ some (frame ++ rest) ]
]

-- A message that a decoder with this limit accepts: its text is not empty, fits the limit, and is
-- parsed back to it; and it is a valid message.
pub record IsDeliverable (stringify : Json → List ℕ) (parse : List ℕ → Option Json) (max : ℕ)
    (m : Json) : Type 0 where
  pub nonempty : 0 < length (stringify m)
  pub fits : length (stringify m) ≤ max
  pub parsed : parse (stringify m) ≡ some m
  pub valid : is_valid_message m ≡ true

encode_all-cons :
    (stringify : Json → List ℕ) (m : Json) (ms : List Json) (bytes : List ℕ)
    → encode_all stringify (m ∷ ms) ≡ some bytes
    → (frame : List ℕ) × (rest : List ℕ) × (encode_frame stringify m ≡ some frame)
      × (encode_all stringify ms ≡ some rest)
      × (bytes ≡ frame ++ rest)
unfolding encode_all
encode_all-cons stringify m ms bytes h = elim (Option-cases (encode_frame stringify m)) [
  | inl one ↦ ground arith
  | inr (frame, one) ↦ elim (Option-cases (encode_all stringify ms)) [
    | inl more ↦ ground arith
    | inr (rest, more) ↦ (frame, rest, one, more, ground arith)
  ]
]

read_empty :
    (parse : List ℕ → Option Json) (d : FrameDecoder) → d.buffer ≡ [] → read parse d ≡ (d, ok none)
unfolding read
read_empty parse d h = ground arith

module _ (stringify : Json → List ℕ) (parse : List ℕ → Option Json) where
  read_all-encode_all :
      (d : FrameDecoder) (ms : List Json) (bytes : List ℕ)
      → All (IsDeliverable stringify parse d.max_frame_size) ms
      → encode_all stringify ms ≡ some bytes
      → d.buffer ≡ bytes
      → read_all parse d
        ≡ record { decoder = record d { buffer = [] }; messages = ms; error = none }
  unfolding encode_all
  read_all-encode_all d [] bytes all enc buf =
      let none_left : d.buffer ≡ [] = ground arith in
      ground (arith, read_all_wait parse d (read_empty parse d none_left))
  read_all-encode_all d (m ∷ ms) bytes all enc buf =
      let (frame, rest, one, more, eq) = encode_all-cons stringify m ms bytes enc in
      let ok_m = all.0 in
      let step =
        read_all_step parse d (record d { buffer = rest }) m
          (read-encode_frame stringify parse d m frame rest one (buf ∙ eq) ok_m.nonempty ok_m.fits
            ok_m.parsed ok_m.valid) in
      ground (arith, step, read_all-encode_all (record d { buffer = rest }) ms rest all.1 more refl)

  -- Messages that the decoder accepts, encoded one after the other and cut into any chunks on the
  -- way, arrive exactly as they were sent, in order and without an error, and leave nothing behind.
  pub read_chunks-encode_all :
      (max : ℕ) (ms : List Json) (bytes : List ℕ) (chunks : List (List ℕ))
      → All (IsDeliverable stringify parse max) ms
      → encode_all stringify ms ≡ some bytes
      → flatten chunks ≡ bytes
      → read_chunks parse (new_decoder max) chunks
        ≡ record { decoder = new_decoder max; messages = ms; error = none }
  unfolding new_decoder feed
  read_chunks-encode_all max ms bytes chunks all enc cut =
      let d = new_decoder max in
      let (messages, error, state) = read_chunks-flatten parse d chunks (read_empty parse d refl) in
      ground (
        arith,
        messages,
        error,
        state,
        read_all-encode_all (feed d (flatten chunks)) ms (flatten chunks) all (rw cut enc) refl,
      )

read-waits_bounded :
    (parse : List ℕ → Option Json) (d : FrameDecoder)
    → read parse d ≡ (d, ok none)
    → length d.buffer < header_size + d.max_frame_size
unfolding read
read-waits_bounded parse d h = ground arith

-- Whatever bytes arrive, as long as no error was thrown the buffer holds, between two chunks, less
-- than a header and one frame of the largest size.
pub buffered-read_chunks :
    (parse : List ℕ → Option Json) (max : ℕ) (chunks : List (List ℕ))
    → (read_chunks parse (new_decoder max) chunks).error ≡ none
    → buffered (read_chunks parse (new_decoder max) chunks).decoder < header_size + max
unfolding new_decoder feed buffered
buffered-read_chunks parse max chunks fine =
    let d = new_decoder max in
    let whole = feed d (flatten chunks) in
    let (messages, error, state) = read_chunks-flatten parse d chunks (read_empty parse d refl) in
    ground (
      arith,
      error,
      state fine,
      read_all_ends parse whole,
      read_all-max_frame_size parse whole,
      read-waits_bounded parse (read_all parse whole).decoder,
    )
