-- ===== src/Framing/Tests.antt =====
-- Framing on one message, `{"type":"ping"}`, as Node writes and parses it.
use mathlib.Core.List.{flatten}
use termlink.Prelude.{
  ℕ, ◌+◌, true, ◌≡◌, refl, ◌<◌, List, [], ◌∷◌, ◌++◌, Option, none, some, arith, if◌then◌else◌,
}
use termlink.Prelude.Result.{ok, err}
use termlink.Json.{Json}
use termlink.Message.{ping, client_json}
use termlink.Message.Valid.{is_valid_message}
use termlink.Credentials.{same_codes}
use termlink.Framing.{
  FrameDecoder, oversized, new_decoder, feed, encode_frame, uint32_be, read_uint32_be, read,
  read_all, read_chunks, checked, drain, header_size, buffered,
}
use termlink.Framing.Drain.{read_all_ends}
use termlink.Framing.Stream.{outcome, outcome-read_chunks}
use termlink.Framing.Transfer.{
  encode_all, IsDeliverable, read_chunks-encode_all, buffered-read_chunks,
}

abbrev ping_text : List ℕ
ping_text = 123 ∷ 34 ∷ 116 ∷ 121 ∷ 112 ∷ 101 ∷ 34 ∷ 58 ∷ 34 ∷ 112 ∷ 105 ∷ 110 ∷ 103 ∷ 34 ∷ 125 ∷ []

abbrev ping_json : Json
ping_json = client_json ping

abbrev ping_frame : List ℕ
ping_frame = 0 ∷ 0 ∷ 0 ∷ 15 ∷ ping_text

-- A writer and a parser for this one message.
abbrev stringify : Json → List ℕ
stringify j = ping_text

abbrev parse : List ℕ → Option Json
parse text = if same_codes text ping_text then some ping_json else none

abbrev both_frames : List ℕ
both_frames = ping_frame ++ ping_frame

-- Two frames in three chunks, cut inside a header and inside a payload.
abbrev three_chunks : List (List ℕ)
three_chunks =
    (0 ∷ 0 ∷ [])
    ∷ (0 ∷ 15 ∷ ping_text ++ 0 ∷ 0 ∷ 0 ∷ 15 ∷ 123 ∷ 34 ∷ [])
    ∷ (116 ∷ 121 ∷ 112 ∷ 101 ∷ 34 ∷ 58 ∷ 34 ∷ 112 ∷ 105 ∷ 110 ∷ 103 ∷ 34 ∷ 125 ∷ [])
    ∷ []

two_frames : encode_all stringify (ping_json ∷ ping_json ∷ []) ≡ some both_frames
unfolding encode_all encode_frame uint32_be
two_frames = refl

ping_json-valid : is_valid_message ping_json ≡ true
unfolding is_valid_message client_json
ping_json-valid = refl

ping_json-IsDeliverable : IsDeliverable stringify parse 100 ping_json
ping_json-IsDeliverable = record {
  nonempty = omega arith;
  fits = omega arith;
  parsed = refl;
  valid = ping_json-valid;
}

read_chunks-encode_all_example :
    read_chunks parse (new_decoder 100) three_chunks
    ≡ record { decoder = new_decoder 100; messages = ping_json ∷ ping_json ∷ []; error = none }
unfolding flatten
read_chunks-encode_all_example =
    read_chunks-encode_all stringify parse 100 (ping_json ∷ ping_json ∷ []) both_frames three_chunks
      (ping_json-IsDeliverable, (ping_json-IsDeliverable, tt)) two_frames refl

waiting : read parse (new_decoder 100) ≡ (new_decoder 100, ok none)
unfolding read new_decoder read_uint32_be
waiting = refl

outcome-read_chunks_example :
    outcome (read_chunks parse (new_decoder 100) three_chunks)
    ≡ outcome (read_all parse (feed (new_decoder 100) both_frames))
unfolding flatten
outcome-read_chunks_example = outcome-read_chunks parse (new_decoder 100) three_chunks waiting

no_error : (read_chunks parse (new_decoder 100) three_chunks).error ≡ none
no_error = rw read_chunks-encode_all_example refl

buffered-read_chunks_example :
    buffered (read_chunks parse (new_decoder 100) three_chunks).decoder < header_size + 100
buffered-read_chunks_example = buffered-read_chunks parse 100 three_chunks no_error

abbrev ping_and_more : FrameDecoder
ping_and_more = record { buffer = ping_frame ++ 0 ∷ 0 ∷ []; max_frame_size = 100 }

ping_and_more-fine : (read_all parse ping_and_more).error ≡ none
unfolding read_all drain read read_uint32_be checked is_valid_message client_json
ping_and_more-fine = refl

read_all_ends_example :
    read parse (read_all parse ping_and_more).decoder
    ≡ ((read_all parse ping_and_more).decoder, ok none)
read_all_ends_example = read_all_ends parse ping_and_more ping_and_more-fine

-- A header that announces more than the limit is refused before its payload arrives.
refuses_oversized :
    read parse (record { buffer = 0 ∷ 0 ∷ 0 ∷ 101 ∷ []; max_frame_size = 100 })
    ≡ (record { buffer = 0 ∷ 0 ∷ 0 ∷ 101 ∷ []; max_frame_size = 100 }, err (oversized 101))
unfolding read read_uint32_be
refuses_oversized = refl
