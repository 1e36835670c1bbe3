-- ===== src/Rudp/Codec/Reject.antt =====
-- src/rudp.rs: what `decode_rudp_packet` accepts, and the packets that it cannot give back.
use cultnet_rs.Base.{ℕ, zero, suc, ◌+◌, ◌-◌, ◌^◌, ◌≤◌, ◌<◌, ◌≡◌, refl, arith}
use cultnet_rs.Base.{List, [], ◌∷◌, true, false}
use cultnet_rs.Base.{ltb, ◌==◌, not, length, take, drop, length-take}
use cultnet_rs.Base.{length-drop, All, All-take, All-drop}
use cultnet_rs.Base.Outcome.{ok, err, ◌>>=◌, bail_if-eq-ok, >>=-eq-ok, ok-injective}
use cultnet_rs.Base.Bytes.{IsByte, from_be_bytes, from_be_bytes-lt, to_be_bytes}
use cultnet_rs.Base.Text.{is_utf8}
use cultnet_rs.Rudp.Packet.{CultNetRudpPacketType, CultNetRudpPacket, IsTyped}
use cultnet_rs.Rudp.Packet.{
  header_length_mismatch, shorter_than_header, wrong_magic, unsupported_version,
}
use cultnet_rs.Rudp.Packet.{payload_length_mismatch, channel_id_not_utf8}
use cultnet_rs.Base.Order.{bytes_eq}
use cultnet_rs.Rudp.Codec.{rudp_magic}
use cultnet_rs.Rudp.Codec.{packet_of, encode_rudp_packet, decode_rudp_packet, slice, byte_at}
use cultnet_rs.Rudp.Codec.{packet_type_from_code}
use cultnet_rs.Rudp.Codec.RoundTrip.{decode-encode, code_round_trip}

-- A channel id of 220 to 255 bytes is encoded without an error, and every decoder refuses the
-- result, since its header's length is cut down to a byte.
pub decode-encode_long_channel :
    (p : CultNetRudpPacket)
    → 219 < length p.channel_id
    → length p.channel_id ≤ 255
    → (encode_rudp_packet p >>= decode_rudp_packet) ≡ err header_length_mismatch
unfolding encode_rudp_packet to_be_bytes decode_rudp_packet
decode-encode_long_channel p long fits =
    let short : ltb 255 (length p.channel_id) ≡ false = ground arith in
    rw (short, code_round_trip p.packet_type) (ground arith)

slice-lt :
    (wire : List ℕ) (from to k : ℕ)
    → All IsByte wire
    → to - from ≡ k
    → from + k ≤ length wire
    → from_be_bytes (slice wire from to) < 256 ^ k
slice-lt wire from to k bytes width fits =
    let bound =
      from_be_bytes-lt (slice wire from to)
        (All-take IsByte (to - from) _ (All-drop IsByte from wire bytes)) in
    let exact : length (slice wire from to) ≡ k =
      omega (arith, length-take (to - from) (drop from wire), length-drop from wire) in
    rw exact at bound

record Accepted (wire : List ℕ) (p : CultNetRudpPacket) : Type 0 where
  header_fits : 36 ≤ length wire
  connection_id-eq : p.connection_id ≡ from_be_bytes (slice wire 8 12)
  sequence-eq : p.sequence ≡ from_be_bytes (slice wire 12 16)
  ack-eq : p.ack ≡ from_be_bytes (slice wire 16 20)
  ack_mask-eq : p.ack_mask ≡ from_be_bytes (slice wire 20 24)
  fragment_id-eq : p.fragment_id ≡ from_be_bytes (slice wire 24 26)
  fragment_index-eq : p.fragment_index ≡ from_be_bytes (slice wire 26 28)
  fragment_count-eq : p.fragment_count ≡ from_be_bytes (slice wire 28 30)
  utf8 : is_utf8 p.channel_id ≡ true
  channel_id-eq : p.channel_id ≡ slice wire 36 (byte_at wire 7)
  payload-eq : p.payload ≡ drop (byte_at wire 7) wire
  header-eq : byte_at wire 7 ≡ 36 + byte_at wire 34
  total-eq : length wire ≡ byte_at wire 7 + from_be_bytes (slice wire 30 34)

Accepted-fields :
    (wire : List ℕ) (t : CultNetRudpPacketType) (p : CultNetRudpPacket)
    → ltb (length wire) 36 ≡ false
    → not (byte_at wire 7 == 36 + byte_at wire 34) ≡ false
    → not (length wire == byte_at wire 7 + from_be_bytes (slice wire 30 34)) ≡ false
    → not (is_utf8 (slice wire 36 (byte_at wire 7))) ≡ false
    → packet_of wire t ≡ p
    → Accepted wire p
unfolding packet_of
Accepted-fields wire t p long header total utf8 e = rw (← e) (record {
  header_fits = ground arith;
  connection_id-eq = refl;
  sequence-eq = refl;
  ack-eq = refl;
  ack_mask-eq = refl;
  fragment_id-eq = refl;
  fragment_index-eq = refl;
  fragment_count-eq = refl;
  utf8 = ground arith;
  channel_id-eq = refl;
  payload-eq = refl;
  header-eq = ground arith;
  total-eq = ground arith;
})

accepted :
    (wire : List ℕ) (p : CultNetRudpPacket) → decode_rudp_packet wire ≡ ok p → Accepted wire p
unfolding decode_rudp_packet
accepted wire p h =
    let (long, h1) = bail_if-eq-ok (ltb (length wire) 36) shorter_than_header _ h in
    let (magic, h2) = bail_if-eq-ok (not (bytes_eq (take 4 wire) rudp_magic)) wrong_magic _ h1 in
    let (version, h3) = bail_if-eq-ok (not (byte_at wire 4 == 0)) unsupported_version _ h2 in
    let (t, is_type, h4) = >>=-eq-ok _ (packet_type_from_code (byte_at wire 5)) h3 in
    let (header, h5) =
      bail_if-eq-ok (not (byte_at wire 7 == 36 + byte_at wire 34)) header_length_mismatch _ h4 in
    let (total, h6) =
      bail_if-eq-ok (not (length wire == byte_at wire 7 + from_be_bytes (slice wire 30 34)))
        payload_length_mismatch _ h5 in
    let (utf8, h7) =
      bail_if-eq-ok (not (is_utf8 (slice wire 36 (byte_at wire 7)))) channel_id_not_utf8 _ h6 in
    Accepted-fields wire t p long header total utf8 (ok-injective h7)

get_or-lt : (wire : List ℕ) (i : ℕ) → All IsByte wire → byte_at wire i < 256
get_or-lt [] i h = omega arith
get_or-lt (b ∷ wire) zero h = h.0
get_or-lt (b ∷ wire) (suc i) h = get_or-lt wire i h.1

-- What is decoded from bytes is a packet of the Rust types, and the wire is 36 bytes longer than
-- its channel id, of at most 219 bytes, and its payload together.
pub decode-IsTyped :
    (wire : List ℕ) (p : CultNetRudpPacket)
    → All IsByte wire
    → decode_rudp_packet wire ≡ ok p
    → IsTyped p
      × (length wire ≡ 36 + length p.channel_id + length p.payload)
      × (length p.channel_id ≤ 219)
decode-IsTyped wire p bytes h =
    let a = accepted wire p h in
    (
      record {
        connection_id-lt =
            rw a.connection_id-eq (slice-lt wire 8 12 4 bytes (omega arith) (omega arith));
        sequence-lt = rw a.sequence-eq (slice-lt wire 12 16 4 bytes (omega arith) (omega arith));
        ack-lt = rw a.ack-eq (slice-lt wire 16 20 4 bytes (omega arith) (omega arith));
        ack_mask-lt = rw a.ack_mask-eq (slice-lt wire 20 24 4 bytes (omega arith) (omega arith));
        fragment_id-lt =
            rw a.fragment_id-eq (slice-lt wire 24 26 2 bytes (omega arith) (omega arith));
        fragment_index-lt =
            rw a.fragment_index-eq (slice-lt wire 26 28 2 bytes (omega arith) (omega arith));
        fragment_count-lt =
            rw a.fragment_count-eq (slice-lt wire 28 30 2 bytes (omega arith) (omega arith));
        channel_id-utf8 = a.utf8;
      },
      rw (a.channel_id-eq, a.payload-eq)
          (omega (
            arith,
            a.header-eq,
            a.total-eq,
            length-take (byte_at wire 7 - 36) (drop 36 wire),
            length-drop 36 wire,
            length-drop (byte_at wire 7) wire,
          )),
      rw a.channel_id-eq (
          omega (
            arith,
            a.header-eq,
            length-take (byte_at wire 7 - 36) (drop 36 wire),
            get_or-lt wire 7 bytes,
          )),
    )

-- Whatever is decoded from bytes, however many they are, can be sent on: its payload is shorter than 2^32 bytes, and
-- encoded again, it decodes to the same packet.
pub decode-encode-decode :
    (wire : List ℕ) (p : CultNetRudpPacket)
    → All IsByte wire
    → decode_rudp_packet wire ≡ ok p
    → (length p.payload < 2 ^ 32) × ((encode_rudp_packet p >>= decode_rudp_packet) ≡ ok p)
decode-encode-decode wire p bytes h =
    let (typed, total, channel) = decode-IsTyped wire p bytes h in
    let a = accepted wire p h in
    let named = slice-lt wire 30 34 4 bytes (omega arith) (omega (arith, a.header_fits)) in
    let short : length p.payload < 2 ^ 32 =
      rw a.payload-eq
        (omega (arith, a.header-eq, a.total-eq, length-drop (byte_at wire 7) wire, named)) in
    (short, decode-encode p typed channel short)
