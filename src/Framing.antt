-- ===== src/Framing.antt =====
-- src/framing.rs: length-prefixed frames on a byte stream.
mod Tests
pub mod Parse
pub mod Chunks
use cultnet_rs.Base.{ℕ, zero, suc, ◌+◌, ◌^◌, List, [], ◌∷◌, ◌++◌, Option, none, some, ltb}
use cultnet_rs.Base.{length, take, drop, if◌then◌else◌}
use cultnet_rs.Base.Outcome.{Outcome, ok, err}
use cultnet_rs.Base.Bytes.{to_be_bytes, from_be_bytes}

pub data FrameError : Type 0 where
  payload_too_large : FrameError

abbrev pub frame_header_bytes : ℕ
frame_header_bytes = 4

unfoldable pub encode_frame : List ℕ → Outcome FrameError (List ℕ)
encode_frame payload =
    if ltb (length payload) (2 ^ 32)
    then ok (to_be_bytes frame_header_bytes (length payload) ++ payload)
    else err payload_too_large

pub record LengthPrefixedMessageFramer : Type 0 where
  pub buffer : List ℕ

abbrev pub new : LengthPrefixedMessageFramer
new = record { buffer = [] }

-- One round of the loop in `push`: the frame at the front of the buffer and what follows it.
unfoldable pub next_frame : List ℕ → Option (List ℕ × List ℕ)
next_frame buffer =
    let payload_len = from_be_bytes (take frame_header_bytes buffer) in
    let total_len = frame_header_bytes + payload_len in
    if ltb (length buffer) frame_header_bytes
    then none
    else if ltb (length buffer) total_len
    then none
    else some (drop frame_header_bytes (take total_len buffer), drop total_len buffer)

-- The loop of `push`. A round drains four bytes at least, so the buffer's length is fuel enough.
pub push_loop : ℕ → List ℕ → List (List ℕ) × List ℕ
push_loop zero buffer = ([], buffer)
push_loop (suc fuel) buffer = elim (next_frame buffer) [
  | none ↦ ([], buffer)
  | some (payload, rest) ↦ let (frames, left) = push_loop fuel rest in (payload ∷ frames, left)
]

unfoldable pub push :
    LengthPrefixedMessageFramer → List ℕ → LengthPrefixedMessageFramer × List (List ℕ)
unfolding push_loop next_frame
push framer chunk =
    let buffer = framer.buffer ++ chunk in
    let (frames, left) = push_loop (length buffer) buffer in
    (record framer { buffer = left }, frames)

-- The stream read in chunks: each chunk is pushed, and the frames are collected.
unfoldable pub push_all :
    LengthPrefixedMessageFramer → List (List ℕ) → LengthPrefixedMessageFramer × List (List ℕ)
unfolding push
push_all framer [] = (framer, [])
push_all framer (chunk ∷ chunks) =
    let (framer', frames) = push framer chunk in
    let (framer'', more) = push_all framer' chunks in (framer'', frames ++ more)
