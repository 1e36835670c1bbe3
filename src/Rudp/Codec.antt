-- ===== src/Rudp/Codec.antt =====
-- src/rudp.rs: `encode_rudp_packet` and `decode_rudp_packet`.
pub mod RoundTrip
pub mod Reject
use Prim.Native.Nat.{bit_and, bit_or}
use cultnet_rs.Base.{ℕ, zero, suc, ◌+◌, ◌-◌, ◌%◌, ◌^◌, List, [], ◌∷◌, ◌++◌, Bool, true, false}
use cultnet_rs.Base.{ltb, ◌==◌, not, if◌then◌else◌, length, take, drop, get_elem?}
use cultnet_rs.Base.Outcome.{Outcome, ok, err, ◌>>=◌, ◌>>◌, bail_if}
use cultnet_rs.Base.Order.{bytes_eq}
use cultnet_rs.Base.Bytes.{to_be_bytes, from_be_bytes}
use cultnet_rs.Base.Text.{is_utf8}
use cultnet_rs.Rudp.Packet
use cultnet_rs.Rudp.Packet.{CultNetRudpPacketType, CultNetRudpPacket, RudpError}
use cultnet_rs.Rudp.Packet.{connect, accept, data_packet, ack, ping, pong, disconnect}
use cultnet_rs.Rudp.Packet.{channel_id_too_long, shorter_than_header, wrong_magic}
use cultnet_rs.Rudp.Packet.{unsupported_version, unsupported_packet_type, header_length_mismatch}
use cultnet_rs.Rudp.Packet.{payload_length_mismatch, channel_id_not_utf8}
use mathlib.Core.Option

abbrev pub rudp_magic : List ℕ
rudp_magic = 0x43 ∷ 0x4e ∷ 0x52 ∷ 0x30 ∷ []

abbrev pub rudp_version : ℕ
rudp_version = 0

abbrev pub rudp_fixed_header_bytes : ℕ
rudp_fixed_header_bytes = 36

abbrev pub packet_type_to_code : CultNetRudpPacketType → ℕ
packet_type_to_code connect = 1
packet_type_to_code accept = 2
packet_type_to_code data_packet = 3
packet_type_to_code ack = 4
packet_type_to_code ping = 5
packet_type_to_code pong = 6
packet_type_to_code disconnect = 7

abbrev pub packet_type_from_code : ℕ → Outcome RudpError CultNetRudpPacketType
packet_type_from_code code =
    if code == 1
    then ok connect
    else if code == 2
    then ok accept
    else if code == 3
    then ok data_packet
    else if code == 4
    then ok ack
    else if code == 5
    then ok ping
    else if code == 6
    then ok pong
    else if code == 7
    then ok disconnect
    else err unsupported_packet_type

unfoldable pub encode_flags : CultNetRudpPacket → ℕ
encode_flags packet =
    bit_or
      (bit_or
        (bit_or (if packet.reliable then 0b0000_0001 else 0)
          (if packet.ordered then 0b0000_0010 else 0))
        (if packet.sequenced then 0b0000_0100 else 0))
      (if ltb 0 packet.fragment_count then 0b0000_1000 else 0)

-- The zeroed vector is filled from its first byte to its last, so it is written as the fields in
-- the order of their offsets. `as u8` and `as u32` cut a length down to the width.
unfoldable pub encode_rudp_packet : CultNetRudpPacket → Outcome RudpError (List ℕ)
encode_rudp_packet packet =
    let channel_id = packet.channel_id in
    let header_bytes = rudp_fixed_header_bytes + length channel_id in
    if ltb 255 (length channel_id)
    then err channel_id_too_long
    else ok (
        rudp_magic
        ++ rudp_version
          ∷ packet_type_to_code packet.packet_type
          ∷ encode_flags packet
          ∷ header_bytes % 2 ^ 8
          ∷ to_be_bytes 4 packet.connection_id
        ++ to_be_bytes 4 packet.sequence
        ++ to_be_bytes 4 packet.ack
        ++ to_be_bytes 4 packet.ack_mask
        ++ to_be_bytes 2 packet.fragment_id
        ++ to_be_bytes 2 packet.fragment_index
        ++ to_be_bytes 2 packet.fragment_count
        ++ to_be_bytes 4 (length packet.payload % 2 ^ 32)
        ++ (length channel_id % 2 ^ 8 ∷ 0 ∷ [])
        ++ channel_id
        ++ packet.payload)

-- `wire[i]` and `wire[from..to]`. `decode_rudp_packet` has checked that they are in range.
abbrev byte_at : List ℕ → ℕ → ℕ
byte_at wire i = Option.get_or (get_elem? wire i) 0

abbrev slice : List ℕ → ℕ → ℕ → List ℕ
slice wire from to = take (to - from) (drop from wire)

-- The packet that an accepted wire spells.
unfoldable pub packet_of : List ℕ → CultNetRudpPacketType → CultNetRudpPacket
packet_of wire packet_type =
    let header_bytes = byte_at wire 7 in
    let flags = byte_at wire 6 in
    record {
      packet_type = packet_type;
      connection_id = from_be_bytes (slice wire 8 12);
      sequence = from_be_bytes (slice wire 12 16);
      ack = from_be_bytes (slice wire 16 20);
      ack_mask = from_be_bytes (slice wire 20 24);
      channel_id = slice wire rudp_fixed_header_bytes header_bytes;
      reliable = not (bit_and flags 0b0000_0001 == 0);
      ordered = not (bit_and flags 0b0000_0010 == 0);
      sequenced = not (bit_and flags 0b0000_0100 == 0);
      fragment_id = from_be_bytes (slice wire 24 26);
      fragment_index = from_be_bytes (slice wire 26 28);
      fragment_count = from_be_bytes (slice wire 28 30);
      payload = drop header_bytes wire;
    }

unfoldable pub decode_rudp_packet : List ℕ → Outcome RudpError CultNetRudpPacket
decode_rudp_packet wire = do
  bail_if (ltb (length wire) rudp_fixed_header_bytes) shorter_than_header
  bail_if (not (bytes_eq (take 4 wire) rudp_magic)) wrong_magic
  bail_if (not (byte_at wire 4 == rudp_version)) unsupported_version
  packet_type ← packet_type_from_code (byte_at wire 5)
  let header_bytes = byte_at wire 7
  let channel_id_len = byte_at wire 34
  bail_if (not (header_bytes == rudp_fixed_header_bytes + channel_id_len)) header_length_mismatch
  let payload_len = from_be_bytes (slice wire 30 34)
  bail_if (not (length wire == header_bytes + payload_len)) payload_length_mismatch
  bail_if (not (is_utf8 (slice wire rudp_fixed_header_bytes header_bytes))) channel_id_not_utf8
  ok (packet_of wire packet_type)
