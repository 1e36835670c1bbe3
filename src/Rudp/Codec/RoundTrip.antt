-- ===== src/Rudp/Codec/RoundTrip.antt =====
-- src/rudp.rs: `decode_rudp_packet` reads what `encode_rudp_packet` writes.
use cultnet_rs.Base.{ℕ, ◌+◌, ◌-◌, ◌^◌, ◌≤◌, ◌<◌, ◌≡◌, refl, ◌∙◌, arith}
use cultnet_rs.Base.{List, [], ◌∷◌, ◌++◌, Bool, true, false}
use cultnet_rs.Base.{ltb, ◌==◌, not, if◌then◌else◌, length, length-append}
use cultnet_rs.Base.{take_whole, drop_whole}
use Prim.Native.Nat.{bit_and, bit_or}
use native.Mathlib.Nat.{mod-eq_of_lt}
use cultnet_rs.Base.Outcome.{ok, ◌>>=◌}
use cultnet_rs.Base.Bytes.{to_be_bytes, from_be_bytes, from_be_bytes-to_be_bytes}
use cultnet_rs.Base.Text.{is_utf8}
use cultnet_rs.Rudp.Packet.{CultNetRudpPacketType, CultNetRudpPacket, IsTyped}
use cultnet_rs.Rudp.Codec.{encode_flags, encode_rudp_packet, packet_of, decode_rudp_packet}
use cultnet_rs.Rudp.Codec.{packet_type_to_code, packet_type_from_code}

pub code_round_trip :
    (t : CultNetRudpPacketType) → packet_type_from_code (packet_type_to_code t) ≡ ok t
code_round_trip t = ground arith

-- Four and two bytes in a row, as `decode_rudp_packet` reads them.
abbrev word : ℕ → ℕ → ℕ → ℕ → ℕ
word a b c d = from_be_bytes (a ∷ b ∷ c ∷ d ∷ [])

abbrev half_word : ℕ → ℕ → ℕ
half_word a b = from_be_bytes (a ∷ b ∷ [])

module _
    (code flags header_bytes c0 c1 c2 c3 s0 s1 s2 s3 a0 a1 a2 a3 m0 m1 m2 m3 i0 i1 x0 x1 n0 n1 p0 p1
      p2 p3 channel_len reserved : ℕ)
    (channel payload : List ℕ) where
  abbrev layout : List ℕ
  layout =
      0x43
      ∷ 0x4e
      ∷ 0x52
      ∷ 0x30
      ∷ 0
      ∷ code
      ∷ flags
      ∷ header_bytes
      ∷ c0
      ∷ c1
      ∷ c2
      ∷ c3
      ∷ s0
      ∷ s1
      ∷ s2
      ∷ s3
      ∷ a0
      ∷ a1
      ∷ a2
      ∷ a3
      ∷ m0
      ∷ m1
      ∷ m2
      ∷ m3
      ∷ i0
      ∷ i1
      ∷ x0
      ∷ x1
      ∷ n0
      ∷ n1
      ∷ p0
      ∷ p1
      ∷ p2
      ∷ p3
      ∷ channel_len
      ∷ reserved
      ∷ (channel ++ payload)

  -- Decoding bytes in the layout of a packet.
  decode_layout :
      (t : CultNetRudpPacketType)
      → packet_type_from_code code ≡ ok t
      → header_bytes ≡ 36 + length channel
      → channel_len ≡ length channel
      → word p0 p1 p2 p3 ≡ length payload
      → is_utf8 channel ≡ true
      → decode_rudp_packet layout
        ≡ ok (record {
          packet_type = t;
          connection_id = word c0 c1 c2 c3;
          sequence = word s0 s1 s2 s3;
          ack = word a0 a1 a2 a3;
          ack_mask = word m0 m1 m2 m3;
          channel_id = channel;
          reliable = not (bit_and flags 1 == 0);
          ordered = not (bit_and flags 2 == 0);
          sequenced = not (bit_and flags 4 == 0);
          fragment_id = half_word i0 i1;
          fragment_index = half_word x0 x1;
          fragment_count = half_word n0 n1;
          payload = payload;
        })
  unfolding decode_rudp_packet packet_of
  decode_layout t is_type header len total utf8 =
      rw (is_type, header, len, total)
        (ground (
          arith,
          length-append channel payload,
          take_whole (36 + length channel - 36) channel payload,
          drop_whole (36 + length channel) (front ++ channel) payload,
        ))
    where
      front : List ℕ
      front =
          0x43
          ∷ 0x4e
          ∷ 0x52
          ∷ 0x30
          ∷ 0
          ∷ code
          ∷ flags
          ∷ (36 + length channel)
          ∷ c0
          ∷ c1
          ∷ c2
          ∷ c3
          ∷ s0
          ∷ s1
          ∷ s2
          ∷ s3
          ∷ a0
          ∷ a1
          ∷ a2
          ∷ a3
          ∷ m0
          ∷ m1
          ∷ m2
          ∷ m3
          ∷ i0
          ∷ i1
          ∷ x0
          ∷ x1
          ∷ n0
          ∷ n1
          ∷ p0
          ∷ p1
          ∷ p2
          ∷ p3
          ∷ length channel
          ∷ reserved
          ∷ []

-- The three flags that `decode_rudp_packet` reads; it does not read the fourth.
encode_flags_bits :
    (p : CultNetRudpPacket)
    → (not (bit_and (encode_flags p) 1 == 0) ≡ p.reliable)
      × (not (bit_and (encode_flags p) 2 == 0) ≡ p.ordered)
      × (not (bit_and (encode_flags p) 4 == 0) ≡ p.sequenced)
unfolding encode_flags
encode_flags_bits p = bits p.reliable p.ordered p.sequenced (ltb 0 p.fragment_count)
  where
    flags : Bool → Bool → Bool → Bool → ℕ
    flags r o s f =
        bit_or (bit_or (bit_or (if r then 1 else 0) (if o then 2 else 0)) (if s then 4 else 0))
          (if f then 8 else 0)

    bits :
        (r o s f : Bool)
        → (not (bit_and (flags r o s f) 1 == 0) ≡ r)
          × (not (bit_and (flags r o s f) 2 == 0) ≡ o)
          × (not (bit_and (flags r o s f) 4 == 0) ≡ s)
    bits true true true true = (refl, refl, refl)
    bits true true true false = (refl, refl, refl)
    bits true true false true = (refl, refl, refl)
    bits true true false false = (refl, refl, refl)
    bits true false true true = (refl, refl, refl)
    bits true false true false = (refl, refl, refl)
    bits true false false true = (refl, refl, refl)
    bits true false false false = (refl, refl, refl)
    bits false true true true = (refl, refl, refl)
    bits false true true false = (refl, refl, refl)
    bits false true false true = (refl, refl, refl)
    bits false true false false = (refl, refl, refl)
    bits false false true true = (refl, refl, refl)
    bits false false true false = (refl, refl, refl)
    bits false false false true = (refl, refl, refl)
    bits false false false false = (refl, refl, refl)

read_word : (n : ℕ) → n < 2 ^ 32 → from_be_bytes (to_be_bytes 4 n) ≡ n
read_word n h = from_be_bytes-to_be_bytes 4 n h

read_half_word : (n : ℕ) → n < 2 ^ 16 → from_be_bytes (to_be_bytes 2 n) ≡ n
read_half_word n h = from_be_bytes-to_be_bytes 2 n h

-- A packet of the Rust types whose channel id has at most 219 bytes, and whose payload has less
-- than 2 ^ 32, is encoded, and decodes to itself.
pub decode-encode :
    (p : CultNetRudpPacket)
    → IsTyped p
    → length p.channel_id ≤ 219
    → length p.payload < 2 ^ 32
    → (encode_rudp_packet p >>= decode_rudp_packet) ≡ ok p
unfolding encode_rudp_packet to_be_bytes
decode-encode p typed channel payload =
    let (is_reliable, is_ordered, is_sequenced) = encode_flags_bits p in
    let short : ltb 255 (length p.channel_id) ≡ false = ground arith in
    rw short (
      decode_layout _ _ _ _ _ _ _ _ _ _ _ _ _ _ _ _ _ _ _ _ _ _ _ _ _ _ _ _ _ _ _ p.channel_id
        p.payload p.packet_type (code_round_trip p.packet_type) (omega arith) (omega arith)
        (rw (mod-eq_of_lt payload) (read_word (length p.payload) payload)) typed.channel_id-utf8
      ∙ rw (
        is_reliable,
        is_ordered,
        is_sequenced,
        read_word p.connection_id typed.connection_id-lt,
        read_word p.sequence typed.sequence-lt,
        read_word p.ack typed.ack-lt,
        read_word p.ack_mask typed.ack_mask-lt,
        read_half_word p.fragment_id typed.fragment_id-lt,
        read_half_word p.fragment_index typed.fragment_index-lt,
        read_half_word p.fragment_count typed.fragment_count-lt,
      ))
