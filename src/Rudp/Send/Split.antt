-- ===== src/Rudp/Send/Split.antt =====
-- src/rudp.rs: the fragments that `send_many` cuts a payload into.
use cultnet_rs.Base.{ℕ, zero, suc, ◌+◌, ◌-◌, ◌*◌, ◌≤◌, ◌<◌, min, ◌≡◌, refl, ap, ◌∙◌, arith}
use cultnet_rs.Base.{List, [], ◌∷◌, ◌++◌, true, inl, inr, Bool-cases, ltb, if◌then◌else◌}
use cultnet_rs.Base.{length, take, drop, All, length-take, length-drop}
use cultnet_rs.Base.Outcome.{Outcome, ok, err, panic}
use native.Mathlib.Nat.{div-add-mod', mod-lt}
use native.Mathlib.Numerals.{unary_clauses}
use cultnet_rs.Rudp.Packet.{CultNetRudpPacket, RudpError}
use cultnet_rs.Rudp.Create.{track_reliable}
use cultnet_rs.Rudp.State.{u32_max, CultNetRudpSession, CultNetRudpSendOptions, then_run}
use cultnet_rs.Rudp.Create.{stamp, create_packet_with_fragments}
use cultnet_rs.Rudp.Send.{piece, fragment_at, send_fragments, div_ceil}

-- The payloads of packets, one after the other.
abbrev pub payload_of : List CultNetRudpPacket → List ℕ
payload_of [] = []
payload_of (packet ∷ packets) = packet.payload ++ payload_of packets

drop-drop : (a b : ℕ) (xs : List ℕ) → drop a (drop b xs) ≡ drop (b + a) xs
drop-drop a zero xs = let e : a ≡ 0 + a = omega arith in ap (λ n. drop n xs) e
drop-drop zero (suc b) [] = simp unary_clauses refl
drop-drop (suc a) (suc b) [] = simp unary_clauses refl
drop-drop a (suc b) (x ∷ xs) =
    let e : suc (b + a) ≡ suc b + a = omega arith in drop-drop a b xs ∙ ap (λ n. drop n (x ∷ xs)) e

take-take-drop : (a b : ℕ) (xs : List ℕ) → take a xs ++ take b (drop a xs) ≡ take (a + b) xs
take-take-drop zero b xs = let e : b ≡ 0 + b = omega arith in ap (λ n. take n xs) e
take-take-drop (suc a) zero [] = simp unary_clauses refl
take-take-drop (suc a) (suc b) [] = simp unary_clauses refl
take-take-drop (suc a) b (x ∷ xs) =
    let e : suc (a + b) ≡ suc a + b = omega arith in
    ap (◌∷◌ x) (take-take-drop a b xs) ∙ ap (λ n. take n (x ∷ xs)) e

take-min : (a : ℕ) (xs : List ℕ) → take (min a (length xs)) xs ≡ take a xs
take-min zero xs = simp unary_clauses refl
take-min (suc a) [] = simp unary_clauses refl
take-min (suc a) (x ∷ xs) = simp unary_clauses (ap (◌∷◌ x) (take-min a xs))

pub take_all : (a : ℕ) (xs : List ℕ) → length xs ≤ a → take a xs ≡ xs
take_all zero [] h = refl
take_all zero (x ∷ xs) h = absurd (omega arith)
take_all (suc a) [] h = refl
take_all (suc a) (x ∷ xs) h = ap (◌∷◌ x) (take_all a xs (omega arith))

fragment_at_lem :
    (max_bytes index : ℕ) (payload : List ℕ)
    → fragment_at max_bytes payload index ≡ take max_bytes (drop (index * max_bytes) payload)
unfolding fragment_at
fragment_at_lem max_bytes index payload =
    let start = index * max_bytes in
    let shorter : min (start + max_bytes) (length payload) - start
        ≡ min max_bytes (length (drop start payload)) =
      omega (arith, length-drop start payload) in
    ap (λ n. take n (drop start payload)) shorter ∙ take-min max_bytes (drop start payload)

-- The packets carry the indices from `index` on, one after the other.
abbrev pub Indexed : ℕ → List CultNetRudpPacket → Type 0
Indexed index [] = Unit {0}
Indexed index (packet ∷ packets) = (packet.fragment_index ≡ index) × Indexed (index + 1) packets

-- What the packets of a split payload have to do with it: `rounds` of them from `index` on.
pub record IsSplit (max_bytes rounds index fragment_id fragment_count : ℕ) (payload : List ℕ)
    (packets : List CultNetRudpPacket) : Type 0 where
  pub joined : payload_of packets ≡ take (rounds * max_bytes) (drop (index * max_bytes) payload)
  pub short : All (λ (packet : CultNetRudpPacket). length packet.payload ≤ max_bytes) packets
  pub numbered :
      All
        (λ (packet : CultNetRudpPacket).
          (packet.fragment_id ≡ fragment_id) × (packet.fragment_count ≡ fragment_count))
        packets
  pub indexed : Indexed index packets
  pub counted : length packets ≡ rounds

-- A run that puts a packet before those of another run has succeeded in the other.
cons_inv :
    (packet : CultNetRudpPacket)
    (r : Outcome RudpError (List CultNetRudpPacket) × CultNetRudpSession)
    (packets : List CultNetRudpPacket) (t : CultNetRudpSession)
    → then_run r (λ rest u. (ok (packet ∷ rest), u)) ≡ (ok packets, t)
    → (rest : List CultNetRudpPacket) × (r ≡ (ok rest, t)) × (packets ≡ packet ∷ rest)
cons_inv packet (ok rest, u) packets t h = (rest, cc, cc)
cons_inv packet (err e, u) packets t h = cc
cons_inv packet (panic, u) packets t h = cc

nil_inv :
    (packets : List CultNetRudpPacket) (s t : CultNetRudpSession)
    → ◌≡◌ {A = Outcome RudpError (List CultNetRudpPacket) × CultNetRudpSession}
        (ok [], s)
        (ok packets, t)
    → packets ≡ []
nil_inv packets s t h = cc

join_next :
    (max_bytes rounds index : ℕ) (payload : List ℕ)
    → take max_bytes (drop (index * max_bytes) payload)
        ++ take (rounds * max_bytes) (drop ((index + 1) * max_bytes) payload)
      ≡ take (suc rounds * max_bytes) (drop (index * max_bytes) payload)
join_next max_bytes rounds index payload =
    let start = index * max_bytes in
    let there : drop max_bytes (drop start payload) ≡ drop ((index + 1) * max_bytes) payload =
      drop-drop max_bytes start payload ∙ ap (λ n. drop n payload) (omega arith) in
    rw (← there) (
      take-take-drop max_bytes (rounds * max_bytes) (drop start payload)
      ∙ ap (λ n. take n (drop start payload)) (omega arith))

-- The first of `suc rounds` packets, before the split of the rest.
first-IsSplit :
    (max_bytes rounds index fragment_id fragment_count : ℕ) (payload : List ℕ)
    (packet : CultNetRudpPacket) (rest : List CultNetRudpPacket)
    → packet.payload ≡ fragment_at max_bytes payload index
    → packet.fragment_id ≡ fragment_id
    → packet.fragment_count ≡ fragment_count
    → packet.fragment_index ≡ index
    → IsSplit max_bytes rounds (index + 1) fragment_id fragment_count payload rest
    → IsSplit max_bytes (suc rounds) index fragment_id fragment_count payload (packet ∷ rest)
first-IsSplit max_bytes rounds index fragment_id fragment_count payload packet rest e f g at r =
    let cut = e ∙ fragment_at_lem max_bytes index payload in
    record {
      joined = rw (cut, r.joined) (join_next max_bytes rounds index payload);
      short = (
        rw cut (omega (arith, length-take max_bytes (drop (index * max_bytes) payload))),
        r.short,
      );
      numbered = ((f, g), r.numbered);
      indexed = (at, r.indexed);
      counted = ap suc r.counted;
    }

IsSplit-step :
    (rounds index : ℕ) (channel_id payload : List ℕ) (options : CultNetRudpSendOptions)
    (max_bytes fragment_id fragment_count : ℕ) (s t : CultNetRudpSession)
    (packets : List CultNetRudpPacket)
    → send_fragments
        (suc rounds)
        index
        channel_id
        payload
        options
        max_bytes
        fragment_id
        fragment_count
        s
      ≡ (ok packets, t)
    → ((u v : CultNetRudpSession) (rest : List CultNetRudpPacket)
        → send_fragments rounds
            (index + 1)
            channel_id
            payload
            options
            max_bytes
            fragment_id
            fragment_count
            u
          ≡ (ok rest, v)
        → IsSplit max_bytes rounds (index + 1) fragment_id fragment_count payload rest)
    → IsSplit max_bytes (suc rounds) index fragment_id fragment_count payload packets
unfolding send_fragments create_packet_with_fragments stamp
IsSplit-step rounds index channel_id payload options max_bytes fragment_id fragment_count s t
      packets h ih =
    elim (Bool-cases (ltb s.next_sequence 0xffff_ffff)) [
      | inr last ↦
          let stopped : ◌≡◌ {A = Outcome RudpError (List CultNetRudpPacket) × CultNetRudpSession}
              (panic, s) (ok packets, t) =
            rw last at h in
          cc
      | inl more ↦
          let d =
            piece channel_id options (fragment_at max_bytes payload index) fragment_id index
              fragment_count in
          let (rest, done, e) = cons_inv (stamp d s) _ packets t (rw more at h) in
          rw e (
            first-IsSplit max_bytes rounds index fragment_id fragment_count payload (stamp d s) rest
              refl refl refl refl (ih _ t rest done))
    ]

pub send_fragments-IsSplit :
    (rounds index : ℕ) (channel_id payload : List ℕ) (options : CultNetRudpSendOptions)
    (max_bytes fragment_id fragment_count : ℕ) (s t : CultNetRudpSession)
    (packets : List CultNetRudpPacket)
    → send_fragments rounds index channel_id payload options max_bytes fragment_id fragment_count s
      ≡ (ok packets, t)
    → IsSplit max_bytes rounds index fragment_id fragment_count payload packets
unfolding send_fragments create_packet_with_fragments stamp
send_fragments-IsSplit zero index channel_id payload options max_bytes fragment_id fragment_count s
      t packets h =
    let none_left : 0 ≡ 0 * max_bytes = omega arith in
    rw (nil_inv packets s t h) (record {
      joined = ap (λ n. take n (drop (index * max_bytes) payload)) none_left;
      short = tt;
      numbered = tt;
      indexed = tt;
      counted = refl;
    })
send_fragments-IsSplit (suc rounds) index channel_id payload options max_bytes fragment_id
      fragment_count s t packets h =
    IsSplit-step rounds index channel_id payload options max_bytes fragment_id fragment_count s t
      packets h
      (send_fragments-IsSplit rounds (index + 1) channel_id payload options max_bytes fragment_id
        fragment_count)

pub div_ceil-mul : (a b : ℕ) → 0 < b → a ≤ div_ceil a b * b
unfolding div_ceil
div_ceil-mul a b h = omega (arith, div-add-mod' (a + b - 1) b, mod-lt (a + b - 1) {m = b} h)

cons_ok :
    (packet : CultNetRudpPacket)
    (r : Outcome RudpError (List CultNetRudpPacket) × CultNetRudpSession)
    → ((rest : List CultNetRudpPacket) × (t : CultNetRudpSession) × (r ≡ (ok rest, t)))
    → (packets : List CultNetRudpPacket) × (t : CultNetRudpSession) × (then_run r
          (λ rest u. (ok (packet ∷ rest), u))
        ≡ (ok packets, t))
cons_ok packet r (rest, t, e) = rw e (packet ∷ rest, t, refl)

-- While the sequences last, the loop over the fragments succeeds.
pub send_fragments-ok :
    (rounds index : ℕ) (channel_id payload : List ℕ) (options : CultNetRudpSendOptions)
    (max_bytes fragment_id fragment_count : ℕ) (s : CultNetRudpSession)
    → s.next_sequence + rounds ≤ u32_max
    → (packets : List CultNetRudpPacket) × (t : CultNetRudpSession) × (send_fragments rounds index
          channel_id payload options max_bytes fragment_id fragment_count s
        ≡ (ok packets, t))
unfolding send_fragments create_packet_with_fragments stamp track_reliable
send_fragments-ok zero index channel_id payload options max_bytes fragment_id fragment_count s h =
    ([], s, refl)
send_fragments-ok (suc rounds) index channel_id payload options max_bytes fragment_id fragment_count
      s h =
    let d =
      piece channel_id options (fragment_at max_bytes payload index) fragment_id index
        fragment_count in
    let more : ltb s.next_sequence u32_max ≡ true = ground arith in
    let t = record s { next_sequence = s.next_sequence + 1 } in
    let u = if options.reliable then track_reliable options (stamp d s) t else t in
    let same : u.next_sequence ≡ s.next_sequence + 1 = ground arith in
    rw more (
      cons_ok (stamp d s) _ (
        send_fragments-ok rounds (index + 1) channel_id payload options max_bytes fragment_id
          fragment_count u (omega arith)))
