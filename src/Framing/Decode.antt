-- ===== src/Framing/Decode.antt =====
-- One call of `FrameDecoder.read`: what it consumes, and how it stands to bytes that follow.
use termlink.Prelude.{
  ℕ, ◌+◌, ◌≤◌, ◌<◌, ◌≡◌, refl, ap, ◌∙◌, true, List, ◌++◌, Option, none, some, arith, length, take,
  drop, length-append, length-drop, take-append, drop-append, take-append_exact, drop-append_exact,
  append_assoc,
}
use termlink.Prelude.Result.{ok, err}
use termlink.Json.{Json}
use termlink.Message.Valid.{is_valid_message}
use termlink.Framing.{
  header_size, u32_limit, uint32_be, read_uint32_be, encode_frame, FrameError, FrameDecoder, feed,
  checked, read,
}
use termlink.Framing.Bytes.{read_uint32_be-uint32_be, length-uint32_be, read_uint32_be-append}

-- The payload of the frame at the front of a buffer, and what stands behind that frame.
abbrev payload_at : List ℕ → List ℕ
payload_at b = take (read_uint32_be b) (drop header_size b)

payload_at-append :
    (b c : List ℕ) → header_size + read_uint32_be b ≤ length b → payload_at (b ++ c) ≡ payload_at b
payload_at-append b c h =
    let same = read_uint32_be-append b c (omega arith) in
    rw (same, drop-append header_size b c (omega arith))
      (take-append (read_uint32_be b) (drop header_size b) c
        (omega (arith, length-drop header_size b)))

module _ (parse : List ℕ → Option Json) where
  -- A frame that is complete is read alike whatever bytes follow it, and they stay in the buffer.
  pub read-feed_message :
      (d d' : FrameDecoder) (m : Json) (c : List ℕ)
      → read parse d ≡ (d', ok (some m))
      → read parse (feed d c) ≡ (feed d' c, ok (some m))
  unfolding read feed
  read-feed_message d d' m c h = ground (
    arith,
    length-append d.buffer c,
    read_uint32_be-append d.buffer c,
    payload_at-append d.buffer c,
    drop-append header_size d.buffer c,
    drop-append (header_size + read_uint32_be d.buffer) d.buffer c,
  )

  -- An error is met alike whatever bytes follow.
  pub read-feed_error :
      (d d' : FrameDecoder) (e : FrameError) (c : List ℕ)
      → read parse d ≡ (d', err e)
      → (read parse (feed d c)).1 ≡ err e
  unfolding read feed
  read-feed_error d d' e c h = ground (
    arith,
    length-append d.buffer c,
    read_uint32_be-append d.buffer c,
    payload_at-append d.buffer c,
    drop-append header_size d.buffer c,
    drop-append (header_size + read_uint32_be d.buffer) d.buffer c,
  )

  -- A call that asks for more data leaves the decoder as it was.
  pub read-waits :
      (d d' : FrameDecoder) → read parse d ≡ (d', ok none) → read parse d ≡ (d, ok none)
  unfolding read
  read-waits d d' h = ground arith

  pub read-throws :
      (d d' : FrameDecoder) (e : FrameError)
      → read parse d ≡ (d', err e)
      → d'.max_frame_size ≡ d.max_frame_size
  unfolding read
  read-throws d d' e h = ground arith

  -- A message takes at least five bytes off the buffer.
  pub read-consumes :
      (d d' : FrameDecoder) (m : Json)
      → read parse d ≡ (d', ok (some m))
      → (length d'.buffer + 5 ≤ length d.buffer) × (d'.max_frame_size ≡ d.max_frame_size)
  unfolding read
  read-consumes d d' m h =
      ground (arith, length-drop (header_size + read_uint32_be d.buffer) d.buffer)

-- The parts of a buffer that begins with the frame of the payload `p`.
module _ (p rest : List ℕ) (small : length p < u32_limit) where
  abbrev framed : List ℕ
  framed = (uint32_be (length p) ++ p) ++ rest

  length-framed : length framed ≡ header_size + length p + length rest
  length-framed = omega (
    arith,
    length-append (uint32_be (length p) ++ p) rest,
    length-append (uint32_be (length p)) p,
    length-uint32_be (length p),
  )

  read_uint32_be-framed : read_uint32_be framed ≡ length p
  read_uint32_be-framed = rw append_assoc (read_uint32_be-uint32_be (length p) (p ++ rest) small)

  take-framed : take (length p) (drop header_size framed) ≡ p
  take-framed =
      rw
        (
          append_assoc,
          drop-append_exact header_size (uint32_be (length p)) (p ++ rest)
              (length-uint32_be (length p)),
        )
        (take-append_exact (length p) p rest refl)

  drop-framed : drop (header_size + length p) framed ≡ rest
  drop-framed =
      drop-append_exact (header_size + length p) (uint32_be (length p) ++ p) rest
        (omega (arith, length-append (uint32_be (length p)) p, length-uint32_be (length p)))

encode_frame-eq :
    (stringify : Json → List ℕ) (m : Json) (frame : List ℕ)
    → encode_frame stringify m ≡ some frame
    → (length (stringify m) < u32_limit) × (frame ≡ uint32_be (length (stringify m)) ++ stringify m)
unfolding encode_frame
encode_frame-eq stringify m frame h = ground arith

-- A decoder that holds an encoded message, and any bytes behind it, reads exactly that message
-- and keeps exactly those bytes: if the payload is not empty and within the limit, and the parser
-- reads it back as a value that is a valid message.
pub read-encode_frame :
    (stringify : Json → List ℕ) (parse : List ℕ → Option Json) (d : FrameDecoder) (m : Json)
    (frame rest : List ℕ)
    → encode_frame stringify m ≡ some frame
    → d.buffer ≡ frame ++ rest
    → 0 < length (stringify m)
    → length (stringify m) ≤ d.max_frame_size
    → parse (stringify m) ≡ some m
    → is_valid_message m ≡ true
    → read parse d ≡ (record d { buffer = rest }, ok (some m))
unfolding read checked
read-encode_frame stringify parse d m frame rest enc buf pos fits back valid =
    let (small, eq) = encode_frame-eq stringify m frame enc in
    let p = stringify m in
    let buf' : d.buffer ≡ framed p rest small = buf ∙ ap (λ f. f ++ rest) eq in
    rw
      (
        buf',
        read_uint32_be-framed p rest small,
        take-framed p rest small,
        drop-framed p rest small,
        length-framed p rest small,
      )
      (ground arith)
