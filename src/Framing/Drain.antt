-- ===== src/Framing/Drain.antt =====
-- The loop over `read` in `onData`: its fuel, its end, and bytes that come later.
use termlink.Prelude.{
  ℕ, zero, suc, ◌<◌, ◌≡◌, refl, ap, sym, ◌∙◌, List, [], ◌++◌, Option, none, some, arith, length,
}
use termlink.Prelude.Result.{Result, ok, err}
use termlink.Json.{Json}
use termlink.Framing.{FrameError, FrameDecoder, feed, read, Drained, after, drain, read_all}
use termlink.Framing.Decode.{
  read-feed_message, read-feed_error, read-waits, read-throws, read-consumes,
}

-- The three results of a call.
data Answer (p : FrameDecoder × Result FrameError (Option Json)) : Type 0 where
  waits : (d' : FrameDecoder) → p ≡ (d', ok none) → Answer p
  hands : (d' : FrameDecoder) (m : Json) → p ≡ (d', ok (some m)) → Answer p
  throws : (d' : FrameDecoder) (e : FrameError) → p ≡ (d', err e) → Answer p

answer : (p : FrameDecoder × Result FrameError (Option Json)) → Answer p
answer (d', ok none) = waits d' refl
answer (d', ok (some m)) = hands d' m refl
answer (d', err e) = throws d' e refl

-- A run and then another, as one.
abbrev pub joined : List Json → Drained → Drained
joined ms o = record o { messages = ms ++ o.messages }

module _ (parse : List ℕ → Option Json) where
  drain_step :
      (f : ℕ) (d d' : FrameDecoder) (m : Json)
      → read parse d ≡ (d', ok (some m))
      → drain parse (suc f) d ≡ after m (drain parse f d')
  unfolding drain
  drain_step f d d' m h = ground arith

  drain_wait :
      (f : ℕ) (d d' : FrameDecoder)
      → read parse d ≡ (d', ok none)
      → drain parse (suc f) d ≡ record { decoder = d'; messages = []; error = none }
  unfolding drain
  drain_wait f d d' h = ground arith

  drain_throw :
      (f : ℕ) (d d' : FrameDecoder) (e : FrameError)
      → read parse d ≡ (d', err e)
      → drain parse (suc f) d ≡ record { decoder = d'; messages = []; error = some e }
  unfolding drain
  drain_throw f d d' e h = ground arith

  -- More fuel than bytes is as good as any more of it.
  drain_fuel :
      (f g : ℕ) (d : FrameDecoder)
      → length d.buffer < f
      → length d.buffer < g
      → drain parse f d ≡ drain parse g d
  drain_fuel zero g d hf hg = absurd (omega arith)
  drain_fuel (suc f) zero d hf hg = absurd (omega arith)
  drain_fuel (suc f) (suc g) d hf hg = elim (answer (read parse d)) [
    | waits d' h ↦ drain_wait f d d' h ∙ sym (drain_wait g d d' h)
    | throws d' e h ↦ drain_throw f d d' e h ∙ sym (drain_throw g d d' e h)
    | hands d' m h ↦
        let (used, _) = read-consumes parse d d' m h in
        drain_step f d d' m h
        ∙ ap (after m) (drain_fuel f g d' (omega arith) (omega arith))
        ∙ sym (drain_step g d d' m h)
  ]

  pub read_all_step :
      (d d' : FrameDecoder) (m : Json)
      → read parse d ≡ (d', ok (some m))
      → read_all parse d ≡ after m (read_all parse d')
  unfolding read_all
  read_all_step d d' m h =
      let (used, _) = read-consumes parse d d' m h in
      drain_step (length d.buffer) d d' m h
      ∙ ap (after m)
          (drain_fuel (length d.buffer) (suc (length d'.buffer)) d' (omega arith) (omega arith))

  drain_ends :
      (f : ℕ) (d : FrameDecoder)
      → length d.buffer < f
      → (drain parse f d).error ≡ none
      → read parse (drain parse f d).decoder ≡ ((drain parse f d).decoder, ok none)
  drain_ends zero d h e = absurd (omega arith)
  drain_ends (suc f) d h e = elim (answer (read parse d)) [
    | waits d' r ↦ ground (arith, drain_wait f d d' r, read-waits parse d d' r)
    | throws d' x r ↦ ground (arith, drain_throw f d d' x r)
    | hands d' m r ↦
        ground (arith, drain_step f d d' m r, read-consumes parse d d' m r, drain_ends f d')
  ]

  -- The loop ends by its own test or by an error, never for want of fuel: unless an error was
  -- thrown, the decoder that it leaves asks for more data.
  pub read_all_ends :
      (d : FrameDecoder)
      → (read_all parse d).error ≡ none
      → read parse (read_all parse d).decoder ≡ ((read_all parse d).decoder, ok none)
  unfolding read_all
  read_all_ends d = drain_ends (suc (length d.buffer)) d (omega arith)

  pub drain-feed :
      (f : ℕ) (d : FrameDecoder) (c : List ℕ)
      → length d.buffer < f
      → (drain parse f d).error ≡ none
      → read_all parse (feed d c)
        ≡ joined (drain parse f d).messages (read_all parse (feed (drain parse f d).decoder c))
  drain-feed zero d c h e = absurd (omega arith)
  drain-feed (suc f) d c h e = elim (answer (read parse d)) [
    | waits d' r ↦ ground (arith, drain_wait f d d' r, read-waits parse d d' r)
    | throws d' x r ↦ ground (arith, drain_throw f d d' x r)
    | hands d' m r ↦ ground (
      arith,
      drain_step f d d' m r,
      read-consumes parse d d' m r,
      drain-feed f d' c,
      read_all_step (feed d c) (feed d' c) m (read-feed_message parse d d' m c r),
    )
  ]

  read_all_throw :
      (d d' : FrameDecoder) (e : FrameError)
      → read parse d ≡ (d', err e)
      → read_all parse d ≡ record { decoder = d'; messages = []; error = some e }
  unfolding read_all
  read_all_throw d d' e h = drain_throw (length d.buffer) d d' e h

  drain-max_frame_size :
      (f : ℕ) (d : FrameDecoder) → (drain parse f d).decoder.max_frame_size ≡ d.max_frame_size
  unfolding drain
  drain-max_frame_size zero d = refl
  drain-max_frame_size (suc f) d = elim (answer (read parse d)) [
    | waits d' r ↦ ground (arith, r, read-waits parse d d' r)
    | throws d' e r ↦ ground (arith, r, read-throws parse d d' e r)
    | hands d' m r ↦ ground (arith, r, read-consumes parse d d' m r, drain-max_frame_size f d')
  ]

  pub read_all-max_frame_size :
      (d : FrameDecoder) → (read_all parse d).decoder.max_frame_size ≡ d.max_frame_size
  unfolding read_all
  read_all-max_frame_size d = drain-max_frame_size (suc (length d.buffer)) d

  pub read_all_wait :
      (d : FrameDecoder)
      → read parse d ≡ (d, ok none)
      → read_all parse d ≡ record { decoder = d; messages = []; error = none }
  unfolding read_all
  read_all_wait d h = drain_wait (length d.buffer) d d h

  pub drain-feed_error :
      (f : ℕ) (d : FrameDecoder) (c : List ℕ) (e : FrameError)
      → length d.buffer < f
      → (drain parse f d).error ≡ some e
      → ((read_all parse (feed d c)).messages ≡ (drain parse f d).messages)
        × ((read_all parse (feed d c)).error ≡ some e)
  drain-feed_error zero d c e h x = absurd (omega arith)
  drain-feed_error (suc f) d c e h x = elim (answer (read parse d)) [
    | waits d' r ↦ ground (arith, drain_wait f d d' r)
    | throws d' y r ↦ ground (
      arith,
      drain_throw f d d' y r,
      read-feed_error parse d d' y c r,
      read_all_throw (feed d c) (read parse (feed d c)).0 y,
    )
    | hands d' m r ↦ ground (
      arith,
      drain_step f d d' m r,
      read-consumes parse d d' m r,
      drain-feed_error f d' c e,
      read_all_step (feed d c) (feed d' c) m (read-feed_message parse d d' m c r),
    )
  ]
