-- ===== src/Framing/Tests.antt =====
-- src/framing.rs: runs on concrete bytes.
use cultnet_rs.Base.{ℕ, ◌≡◌, refl, List, [], ◌∷◌}
use cultnet_rs.Base.Outcome.{ok}
use cultnet_rs.Base.Bytes.{to_be_bytes}
use cultnet_rs.Framing.{new, encode_frame, next_frame, push, push_all}
use cultnet_rs.Framing.Chunks.{encode_all, push_all-flatten, push_all-encode_all}
use mathlib.Core.List.{flatten}

abbrev hi_wire : List ℕ
hi_wire = 0 ∷ 0 ∷ 0 ∷ 2 ∷ b'h' ∷ b'i' ∷ 0 ∷ 0 ∷ 0 ∷ 0 ∷ []

abbrev hi_chunks : List (List ℕ)
hi_chunks = (0 ∷ 0 ∷ []) ∷ (0 ∷ 2 ∷ b'h' ∷ []) ∷ (b'i' ∷ 0 ∷ 0 ∷ 0 ∷ 0 ∷ []) ∷ []

encode_frame_hi : encode_frame (b'h' ∷ b'i' ∷ []) ≡ ok (0 ∷ 0 ∷ 0 ∷ 2 ∷ b'h' ∷ b'i' ∷ [])
unfolding encode_frame to_be_bytes
encode_frame_hi = refl

push_all-flatten_example : push_all new hi_chunks ≡ push new (flatten hi_chunks)
push_all-flatten_example = push_all-flatten new hi_chunks (unfold next_frame in refl)

push_all-encode_all_example : push_all new hi_chunks ≡ (new, (b'h' ∷ b'i' ∷ []) ∷ [] ∷ [])
push_all-encode_all_example =
    push_all-encode_all ((b'h' ∷ b'i' ∷ []) ∷ [] ∷ []) hi_chunks hi_wire
      (unfold encode_all encode_frame to_be_bytes in refl) (unfold flatten in refl)
