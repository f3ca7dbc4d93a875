-- ===== src/Framing/Stream.antt =====
-- A stream of bytes, in chunks and whole, through the loop over `read`.
use mathlib.Core.List.{flatten}
use termlink.Prelude.{
  ℕ, suc, ◌≡◌, inl, inr, List, [], ◌∷◌, ◌++◌, Option, none, some, Option-cases, arith, length,
  append_assoc, append-nil,
}
use termlink.Prelude.Result.{ok}
use termlink.Json.{Json}
use termlink.Framing.{FrameError, FrameDecoder, feed, read, Drained, read_all, read_chunks}
use termlink.Framing.Drain.{joined, drain-feed, drain-feed_error, read_all_wait, read_all_ends}

feed-feed : (d : FrameDecoder) (b c : List ℕ) → feed (feed d b) c ≡ feed d (b ++ c)
unfolding feed
feed-feed d b c = ground (arith, append_assoc d.buffer b c)

feed-nil : (d : FrameDecoder) → feed d [] ≡ d
unfolding feed
feed-nil d = ground (arith, append-nil d.buffer)

read_all-feed :
    (parse : List ℕ → Option Json) (d : FrameDecoder) (b c : List ℕ)
    → let o = read_all parse (feed d b) in
      o.error ≡ none
      → read_all parse (feed d (b ++ c)) ≡ joined o.messages (read_all parse (feed o.decoder c))
unfolding read_all
read_all-feed parse d b c h =
    let whole = drain-feed parse (suc (length (feed d b).buffer)) (feed d b) c (omega arith) h in
    rw (← feed-feed d b c) whole

read_all-feed_error :
    (parse : List ℕ → Option Json) (d : FrameDecoder) (b c : List ℕ) (e : FrameError)
    → let o = read_all parse (feed d b) in
      o.error ≡ some e
      → ((read_all parse (feed d (b ++ c))).messages ≡ o.messages)
        × ((read_all parse (feed d (b ++ c))).error ≡ some e)
unfolding read_all
read_all-feed_error parse d b c e h =
    let whole =
      drain-feed_error parse (suc (length (feed d b).buffer)) (feed d b) c e (omega arith) h in
    rw (← feed-feed d b c) whole

pub read_chunks-flatten :
    (parse : List ℕ → Option Json) (d : FrameDecoder) (chunks : List (List ℕ))
    → read parse d ≡ (d, ok none)
    → let cut = read_chunks parse d chunks in
      let whole = read_all parse (feed d (flatten chunks)) in
      (cut.messages ≡ whole.messages)
      × (cut.error ≡ whole.error)
      × (cut.error ≡ none → cut.decoder ≡ whole.decoder)
unfolding read_chunks flatten
read_chunks-flatten parse d [] waiting = ground (arith, feed-nil d, read_all_wait parse d waiting)
read_chunks-flatten parse d (c ∷ cs) waiting =
    elim (Option-cases (read_all parse (feed d c)).error) [
      | inr (e, failed) ↦
          ground (arith, failed, read_all-feed_error parse d c (flatten cs) e failed)
      | inl fine ↦ ground (
        arith,
        fine,
        read_all-feed parse d c (flatten cs) fine,
        read_chunks-flatten parse (read_all parse (feed d c)).decoder cs
            (read_all_ends parse (feed d c) fine),
      )
    ]

-- What a caller sees of a run: the messages, the error, and the decoder to go on with, if no error
-- ended the run.
abbrev pub outcome : Drained → List Json × Option FrameError × Option FrameDecoder
outcome o = (o.messages, o.error, elim o.error [ none ↦ some o.decoder | some e ↦ none ])

-- However a stream of bytes is cut into chunks, a decoder that was waiting for data hands on the
-- messages that it would hand on if all bytes came at once, in the same order, up to the same
-- first error; and if there is no error, it ends in the same state.
pub outcome-read_chunks :
    (parse : List ℕ → Option Json) (d : FrameDecoder) (chunks : List (List ℕ))
    → read parse d ≡ (d, ok none)
    → outcome (read_chunks parse d chunks) ≡ outcome (read_all parse (feed d (flatten chunks)))
outcome-read_chunks parse d chunks waiting =
    let (messages, error, state) = read_chunks-flatten parse d chunks waiting in
    ground (arith, messages, error, state)
