-- ===== src/Rudp/Send.antt =====
-- src/rudp.rs: `send` and `send_many`: one packet for a payload, or fragments of it.
pub mod Bounds
pub mod Split
pub mod Flags
use cultnet_rs.Base.{ℕ, zero, suc, ◌+◌, ◌-◌, ◌*◌, ◌/◌, ◌≤◌, min, List, [], ◌∷◌, ◌++◌}
use cultnet_rs.Base.{Bool, true, false, not, ltb, leb, ◌==◌, if◌then◌else◌, Option, none, some}
use cultnet_rs.Base.{length, take, drop}
use cultnet_rs.Base.Outcome.{Outcome, ok, err, panic}
use cultnet_rs.Base.Text.{codes}
use cultnet_rs.Base.BTreeMap.{BTreeMap, insert, retain}
use cultnet_rs.Base.Order.{nat_ord}
use cultnet_rs.Rudp.Packet
use cultnet_rs.Rudp.Packet.{CultNetRudpPacketType, CultNetRudpPacket, RudpError}
use cultnet_rs.Rudp.Packet.{send_queue_full, not_connected, zero_fragment_bytes}
use cultnet_rs.Rudp.Packet.{too_many_fragments, expected_connect, no_packets}
use cultnet_rs.Rudp.State.{CultNetRudpSession, CultNetRudpSendOptions, PendingReliablePacket}
use cultnet_rs.Rudp.State.{Run, then_run, ◌>>=◌, ◌>>◌, return, check, modify, u16_max, u64_max}
use cultnet_rs.Rudp.State.{u32_succ, require_connection}
use cultnet_rs.Rudp.Create.{create_packet_with_fragments, create_packet, whole, track_reliable}
use cultnet_rs.Rudp.Create.{Draft, ensure_reliable_capacity, purge_expired_reliable}
use cultnet_rs.Rudp.Acks.{ack_state, remember_received}
use mathlib.Core.Option

unfoldable pub allocate_fragment_id : Run ℕ
allocate_fragment_id s =
    let fragment_id = s.next_fragment_id in
    let next = min (fragment_id + 1) u16_max in
    (ok fragment_id, record s { next_fragment_id = if next == 0 then 1 else next })

abbrev pub track_if_reliable : CultNetRudpSendOptions → CultNetRudpPacket → Run (Unit {0})
track_if_reliable options packet s =
    (ok tt, if packet.reliable then track_reliable options packet s else s)

-- The data packet for a piece of a payload.
abbrev pub piece : List ℕ → CultNetRudpSendOptions → List ℕ → ℕ → ℕ → ℕ → Draft
piece channel_id options payload fragment_id index fragment_count = record {
  packet_type = Packet.data_packet;
  channel_id = channel_id;
  payload = payload;
  reliable = options.reliable;
  ordered = options.ordered;
  sequenced = options.sequenced;
  fragment_id = fragment_id;
  fragment_index = index;
  fragment_count = fragment_count;
}

-- `payload[start..end]` for the fragment at `index`.
unfoldable pub fragment_at : ℕ → List ℕ → ℕ → List ℕ
fragment_at max_fragment_bytes payload index =
    let start = index * max_fragment_bytes in
    let end = min (start + max_fragment_bytes) (length payload) in
    take (end - start) (drop start payload)

-- The loop over the fragments, `rounds` of them from `index` on.
unfoldable pub send_fragments :
    ℕ → ℕ → List ℕ → List ℕ → CultNetRudpSendOptions → ℕ → ℕ → ℕ → Run (List CultNetRudpPacket)
send_fragments zero index channel_id payload options max_fragment_bytes fragment_id fragment_count =
    return []
send_fragments (suc rounds) index channel_id payload options max_fragment_bytes fragment_id
      fragment_count =
    do
      packet ← create_packet_with_fragments (
          piece channel_id options (fragment_at max_fragment_bytes payload index) fragment_id index
            fragment_count)
      track_if_reliable options packet
      packets ←
          send_fragments rounds (index + 1) channel_id payload options max_fragment_bytes
            fragment_id fragment_count
      return (packet ∷ packets)

unfoldable pub div_ceil : ℕ → ℕ → ℕ
div_ceil a b = (a + b - 1) / b

unfoldable pub send_whole : List ℕ → List ℕ → CultNetRudpSendOptions → Run (List CultNetRudpPacket)
send_whole channel_id payload options = do
  check (ensure_reliable_capacity (if options.reliable then 1 else 0))
  packet ← create_packet (
      whole Packet.data_packet channel_id payload options.reliable options.ordered
        options.sequenced)
  track_if_reliable options packet
  return (packet ∷ [])

unfoldable pub send_split :
    List ℕ → List ℕ → CultNetRudpSendOptions → ℕ → Run (List CultNetRudpPacket)
send_split channel_id payload options max_fragment_bytes = do
  let fragment_count = div_ceil (length payload) max_fragment_bytes
  check (λ s. if ltb u16_max fragment_count then err too_many_fragments else ok tt)
  check (ensure_reliable_capacity (if options.reliable then fragment_count else 0))
  fragment_id ← allocate_fragment_id
  send_fragments fragment_count 0 channel_id payload options max_fragment_bytes fragment_id
      fragment_count

-- The choice between one packet and fragments, on the optional `max_fragment_bytes`.
unfoldable pub send_data :
    List ℕ → List ℕ → CultNetRudpSendOptions → Option ℕ → Run (List CultNetRudpPacket)
send_data channel_id payload options none s = send_whole channel_id payload options s
send_data channel_id payload options (some max_fragment_bytes) s =
    if max_fragment_bytes == 0
    then (err zero_fragment_bytes, s)
    else if ltb max_fragment_bytes (length payload)
    then send_split channel_id payload options max_fragment_bytes s
    else send_whole channel_id payload options s

unfoldable pub send_many :
    List ℕ → List ℕ → CultNetRudpSendOptions → Option ℕ → Run (List CultNetRudpPacket)
send_many channel_id payload options max_fragment_bytes = do
  check (λ s. if s.connected then ok tt else err not_connected)
  modify (purge_expired_reliable options.now_ms)
  send_data channel_id payload options max_fragment_bytes

first_packet : List CultNetRudpPacket → Outcome RudpError CultNetRudpPacket
first_packet [] = err no_packets
first_packet (packet ∷ packets) = ok packet

unfoldable pub send : List ℕ → List ℕ → CultNetRudpSendOptions → Run CultNetRudpPacket
unfolding first_packet
send channel_id payload options = do
  packets ← send_many channel_id payload options none
  check (λ s. first_packet packets)
