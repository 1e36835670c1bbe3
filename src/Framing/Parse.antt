-- ===== src/Framing/Parse.antt =====
-- src/framing.rs: one frame of the buffer, and the loop of `push` on enough fuel.
use cultnet_rs.Base.{ℕ, zero, suc, ◌+◌, ◌≤◌, ◌<◌, ◌≡◌, refl, sym, ap, ◌∙◌, arith}
use cultnet_rs.Base.{List, [], ◌∷◌, ◌++◌, none, some, inl, inr, Option-cases}
use cultnet_rs.Base.{length, take, length-append, length-drop}
use cultnet_rs.Base.{take-append_le, drop-append_le}
use cultnet_rs.Base.Bytes.{from_be_bytes}
use cultnet_rs.Framing.{next_frame, push_loop}

pub next_frame_shrinks :
    (buffer payload rest : List ℕ)
    → next_frame buffer ≡ some (payload, rest)
    → length rest + 4 ≤ length buffer
unfolding next_frame
next_frame_shrinks buffer payload rest h =
    ground (arith, length-drop (4 + from_be_bytes (take 4 buffer)) buffer)

-- Bytes that arrive later do not change a frame that is complete.
pub next_frame-append :
    (buffer payload rest more : List ℕ)
    → next_frame buffer ≡ some (payload, rest)
    → next_frame (buffer ++ more) ≡ some (payload, rest ++ more)
unfolding next_frame
next_frame-append buffer payload rest more h = ground (
  arith,
  length-append buffer more,
  take-append_le 4 buffer more,
  take-append_le (4 + from_be_bytes (take 4 buffer)) buffer more,
  drop-append_le (4 + from_be_bytes (take 4 buffer)) buffer more,
)

push_loop-none :
    (fuel : ℕ) (buffer : List ℕ) → next_frame buffer ≡ none → push_loop fuel buffer ≡ ([], buffer)
unfolding push_loop
push_loop-none zero buffer e = refl
push_loop-none (suc fuel) buffer e = rw (e, push_loop)

push_loop-some :
    (fuel : ℕ) (buffer payload rest : List ℕ)
    → next_frame buffer ≡ some (payload, rest)
    → push_loop (suc fuel) buffer ≡ (payload ∷ (push_loop fuel rest).0, (push_loop fuel rest).1)
unfolding push_loop
push_loop-some fuel buffer payload rest e = rw (e, push_loop)

-- With enough fuel, more of it changes nothing.
push_loop_fuel :
    (f g : ℕ) (buffer : List ℕ)
    → length buffer ≤ f
    → length buffer ≤ g
    → push_loop f buffer ≡ push_loop g buffer
push_loop_fuel zero zero buffer hf hg = refl
push_loop_fuel zero (suc g) [] hf hg = unfold push_loop next_frame in refl
push_loop_fuel zero (suc g) (b ∷ bs) hf hg = absurd (omega arith)
push_loop_fuel (suc f) zero [] hf hg = unfold push_loop next_frame in refl
push_loop_fuel (suc f) zero (b ∷ bs) hf hg = absurd (omega arith)
push_loop_fuel (suc f) (suc g) buffer hf hg = elim (Option-cases (next_frame buffer)) [
  | inl e ↦ push_loop-none (suc f) buffer e ∙ sym (push_loop-none (suc g) buffer e)
  | inr ((payload, rest), e) ↦
      let shrinks = next_frame_shrinks buffer payload rest e in
      let same = push_loop_fuel f g rest (omega arith) (omega arith) in
      push_loop-some f buffer payload rest e
      ∙ ap (λ (r : List (List ℕ) × List ℕ). (payload ∷ r.0, r.1)) same
      ∙ sym (push_loop-some g buffer payload rest e)
]

-- The frames of a buffer, and what is left of it when no frame is complete.
unfoldable pub parse : List ℕ → List (List ℕ) × List ℕ
parse buffer = push_loop (length buffer) buffer

pub parse-none : (buffer : List ℕ) → next_frame buffer ≡ none → parse buffer ≡ ([], buffer)
unfolding parse
parse-none buffer e = push_loop-none (length buffer) buffer e

pub parse-some :
    (buffer payload rest : List ℕ)
    → next_frame buffer ≡ some (payload, rest)
    → parse buffer ≡ (payload ∷ (parse rest).0, (parse rest).1)
unfolding parse
parse-some buffer payload rest e =
    let shrinks = next_frame_shrinks buffer payload rest e in
    push_loop_fuel (length buffer) (suc (length buffer)) buffer (omega arith) (omega arith)
    ∙ push_loop-some (length buffer) buffer payload rest e
    ∙ ap (λ (r : List (List ℕ) × List ℕ). (payload ∷ r.0, r.1))
        (push_loop_fuel (length buffer) (length rest) rest (omega arith) (omega arith))

-- What `parse` leaves holds no complete frame: the loop stops by its own test, not for lack of fuel.
parse_stops_below :
    (n : ℕ) (buffer : List ℕ) → length buffer < n → next_frame (parse buffer).1 ≡ none
parse_stops_below zero buffer h = absurd (omega arith)
parse_stops_below (suc n) buffer h = elim (Option-cases (next_frame buffer)) [
  | inl e ↦ rw (parse-none buffer e) e
  | inr ((payload, rest), e) ↦
      let shrinks = next_frame_shrinks buffer payload rest e in
      rw (parse-some buffer payload rest e) (parse_stops_below n rest (omega arith))
]

pub parse_stops : (buffer : List ℕ) → next_frame (parse buffer).1 ≡ none
parse_stops buffer = parse_stops_below (suc (length buffer)) buffer (omega arith)

-- Reading on from what is left is reading the whole.
abbrev pub continue : List (List ℕ) × List ℕ → List ℕ → List (List ℕ) × List ℕ
continue (frames, left) more = (frames ++ (parse (left ++ more)).0, (parse (left ++ more)).1)

parse-append_below :
    (n : ℕ) (buffer more : List ℕ)
    → length buffer < n
    → parse (buffer ++ more) ≡ continue (parse buffer) more
parse-append_below zero buffer more h = absurd (omega arith)
parse-append_below (suc n) buffer more h = elim (Option-cases (next_frame buffer)) [
  | inl e ↦ rw (parse-none buffer e)
  | inr ((payload, rest), e) ↦
      let shrinks = next_frame_shrinks buffer payload rest e in
      rw (parse-some buffer payload rest e) (
        parse-some (buffer ++ more) payload (rest ++ more)
          (next_frame-append buffer payload rest more e)
        ∙ rw (parse-append_below n rest more (omega arith)))
]

pub parse-append : (buffer more : List ℕ) → parse (buffer ++ more) ≡ continue (parse buffer) more
parse-append buffer more = parse-append_below (suc (length buffer)) buffer more (omega arith)
