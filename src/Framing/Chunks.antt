-- ===== src/Framing/Chunks.antt =====
-- src/framing.rs: what a reader gets from frames that arrive cut into chunks.
use cultnet_rs.Base.{ℕ, ◌+◌, ◌≡◌, refl, sym, ap, ◌∙◌, arith}
use cultnet_rs.Base.{List, [], ◌∷◌, ◌++◌, none, some}
use cultnet_rs.Base.{length, length-append, take_whole, drop_whole}
use cultnet_rs.Base.Outcome.{Outcome, ok, ◌>>=◌, >>=-eq-ok}
use cultnet_rs.Base.Bytes.{to_be_bytes, from_be_bytes, length-to_be_bytes}
use cultnet_rs.Base.Bytes.{from_be_bytes-to_be_bytes}
use cultnet_rs.Framing.{FrameError, LengthPrefixedMessageFramer, new, encode_frame, next_frame}
use cultnet_rs.Framing.{push, push_all}
use cultnet_rs.Framing.Parse.{parse, parse-some, parse-none, parse_stops, parse-append}
use mathlib.Core.List.{flatten, append_assoc, append-nil}

-- The framer waits: it holds no complete frame.
abbrev pub IsWaiting : LengthPrefixedMessageFramer → Type 0
IsWaiting framer = next_frame framer.buffer ≡ none

push-parse :
    (framer : LengthPrefixedMessageFramer) (chunk : List ℕ)
    → push framer chunk
      ≡ (record { buffer = (parse (framer.buffer ++ chunk)).1 }, (parse (framer.buffer ++ chunk)).0)
unfolding push parse
push-parse framer chunk = refl

-- After a push no complete frame is left in the buffer.
pub push-IsWaiting :
    (framer : LengthPrefixedMessageFramer) (chunk : List ℕ) → IsWaiting (push framer chunk).0
push-IsWaiting framer chunk = rw (push-parse framer chunk) (parse_stops (framer.buffer ++ chunk))

-- Two pushes deliver what one push of both chunks delivers.
push-append :
    (framer : LengthPrefixedMessageFramer) (chunk more : List ℕ)
    → push framer (chunk ++ more) ≡ (
      (push (push framer chunk).0 more).0,
      (push framer chunk).1 ++ (push (push framer chunk).0 more).1,
    )
push-append framer chunk more =
    rw (push-parse, push-parse, push-parse, ← append_assoc, parse-append) refl

-- However a waiting framer's input is cut into chunks, the frames that come out, their order
-- and the bytes kept for later are those of one push of the whole input.
pub push_all-flatten :
    (framer : LengthPrefixedMessageFramer) (chunks : List (List ℕ))
    → IsWaiting framer
    → push_all framer chunks ≡ push framer (flatten chunks)
unfolding push_all flatten
push_all-flatten framer [] w =
    sym (push-parse framer [] ∙ rw (append-nil framer.buffer, parse-none framer.buffer w))
push_all-flatten framer (chunk ∷ chunks) w =
    ap (λ (r : LengthPrefixedMessageFramer × List (List ℕ)). (r.0, (push framer chunk).1 ++ r.1))
      (push_all-flatten (push framer chunk).0 chunks (push-IsWaiting framer chunk))
    ∙ sym (push-append framer chunk (flatten chunks))

-- The frames of several payloads, one after the other.
unfoldable pub encode_all : List (List ℕ) → Outcome FrameError (List ℕ)
encode_all [] = ok []
encode_all (payload ∷ payloads) = do
  frame ← encode_frame payload
  rest ← encode_all payloads
  ok (frame ++ rest)

next_frame_whole :
    (header payload rest : List ℕ)
    → length header ≡ 4
    → from_be_bytes header ≡ length payload
    → next_frame ((header ++ payload) ++ rest) ≡ some (payload, rest)
unfolding next_frame
next_frame_whole header payload rest four len = ground (
  arith,
  append_assoc header payload rest,
  length-append (header ++ payload) rest,
  length-append header payload,
  take_whole 4 header (payload ++ rest),
  take_whole (4 + length payload) (header ++ payload) rest,
  drop_whole (4 + length payload) (header ++ payload) rest,
  drop_whole 4 header payload,
)

next_frame-encode_frame :
    (payload frame rest : List ℕ)
    → encode_frame payload ≡ ok frame
    → next_frame (frame ++ rest) ≡ some (payload, rest)
unfolding encode_frame
next_frame-encode_frame payload frame rest h = ground (
  arith,
  length-to_be_bytes 4 (length payload),
  from_be_bytes-to_be_bytes 4 (length payload),
  next_frame_whole (to_be_bytes 4 (length payload)) payload rest,
)

parse-encode_all :
    (payloads : List (List ℕ)) (wire rest : List ℕ)
    → encode_all payloads ≡ ok wire
    → parse (wire ++ rest) ≡ (payloads ++ (parse rest).0, (parse rest).1)
unfolding encode_all
parse-encode_all [] wire rest h = ground arith
parse-encode_all (payload ∷ payloads) wire rest h =
    let (frame, framed, h') = >>=-eq-ok _ (encode_frame payload) h in
    let (tail, encoded, h'') = >>=-eq-ok _ (encode_all payloads) h' in
    let whole : frame ++ tail ≡ wire = cc in
    rw (← whole, append_assoc frame tail rest)
      (parse-some (frame ++ (tail ++ rest)) payload (tail ++ rest)
          (next_frame-encode_frame payload frame (tail ++ rest) framed)
        ∙ rw (parse-encode_all payloads tail rest encoded))

-- However the wire form of a list of payloads is cut into chunks, a new framer delivers exactly
-- those payloads, in their order, and keeps nothing.
pub push_all-encode_all :
    (payloads chunks : List (List ℕ)) (wire : List ℕ)
    → encode_all payloads ≡ ok wire
    → flatten chunks ≡ wire
    → push_all new chunks ≡ (new, payloads)
push_all-encode_all payloads chunks wire h e =
    push_all-flatten new chunks (unfold next_frame in refl)
    ∙ push-parse new (flatten chunks)
    ∙ rw
        (
          e,
          ← append-nil wire,
          parse-encode_all payloads wire [] h,
          parse-none [] (unfold next_frame in refl),
        )
        (rw append-nil)
