-- ===== src/Rudp/Receive.antt =====
-- src/rudp.rs: `receive`, the handler of every packet that a peer sends.
pub mod Duplicates
pub mod Overflow
pub mod Stalls
mod Tests
use cultnet_rs.Base.{ℕ, ◌+◌, List, [], ◌∷◌, Bool, true, false, ◌&&◌, not, ltb, if◌then◌else◌}
use cultnet_rs.Base.{Option, none, some}
use cultnet_rs.Base.Outcome.{Outcome, ok, err, panic}
use cultnet_rs.Base.BTreeMap.{get, insert, contains_key}
use cultnet_rs.Base.Order.{nat_ord, bytes_ord}
use cultnet_rs.Rudp.Packet
use cultnet_rs.Rudp.Packet.{CultNetRudpPacketType, CultNetRudpPacket, RudpError}
use cultnet_rs.Rudp.State.{CultNetRudpSession, CultNetRudpDeliveredFrame}
use cultnet_rs.Rudp.State.{CultNetRudpReceiveResult, Run, then_run, ◌>>=◌, ◌>>◌, return, check}
use cultnet_rs.Rudp.State.{modify, u32_succ, require_connection}
use cultnet_rs.Rudp.Acks.{remember_received, apply_acknowledgements}
use cultnet_rs.Rudp.Create.{create_packet, whole, control}
use cultnet_rs.Rudp.Fragments.{Reassembled, reassemble}
use cultnet_rs.Rudp.Ordered.{deliver_ordered}
use mathlib.Core.Option

-- A result that delivers frames and nothing else.
abbrev pub deliver : List CultNetRudpDeliveredFrame → CultNetRudpReceiveResult
deliver frames = record {
  delivered = frames;
  reply = none;
  pong = false;
  pong_payload = [];
  disconnected = false;
  disconnect_reason = [];
}

abbrev pub nothing : CultNetRudpReceiveResult
nothing = deliver []

-- `expected_sequence_if_uninitialized`, which is computed for every packet.
unfoldable pub expected_sequence : CultNetRudpPacket → CultNetRudpSession → Outcome RudpError ℕ
expected_sequence packet s = elim s.highest_received_sequence [
  | none ↦ ok packet.sequence
  | some sequence ↦ u32_succ sequence
]

-- A frame of a sequenced channel: is it older than one that was delivered?
unfoldable pub is_stale : CultNetRudpDeliveredFrame → CultNetRudpSession → Bool
is_stale frame s =
    ltb frame.sequence
      (Option.get_or (get frame.channel_id s.highest_delivered_sequenced_by_channel) frame.sequence)

unfoldable pub deliver_sequenced :
    CultNetRudpDeliveredFrame
    → CultNetRudpSession
    → List CultNetRudpDeliveredFrame × CultNetRudpSession
deliver_sequenced frame s = if is_stale frame s then ([], s) else (
  frame ∷ [],
  record s {
    highest_delivered_sequenced_by_channel =
        insert frame.channel_id frame.sequence s.highest_delivered_sequenced_by_channel;
  },
)

-- The delivery of a complete payload on its channel.
unfoldable pub deliver_frame :
    CultNetRudpPacket
    → ℕ
    → Reassembled
    → CultNetRudpSession
    → List CultNetRudpDeliveredFrame × CultNetRudpSession
deliver_frame packet expected r s =
    if r.ordered
    then deliver_ordered r.frame r.next_sequence expected s
    else if packet.sequenced
    then deliver_sequenced r.frame s
    else (r.frame ∷ [], s)

unfoldable pub receive_complete :
    CultNetRudpPacket → ℕ → Option Reassembled → Run CultNetRudpReceiveResult
receive_complete packet expected none s = (ok nothing, s)
receive_complete packet expected (some r) s =
    let (frames, s') = deliver_frame packet expected r s in (ok (deliver frames), s')

unfoldable pub receive_data : CultNetRudpPacket → ℕ → Run CultNetRudpReceiveResult
receive_data packet expected s =
    let s' = remember_received packet.sequence s in
    if contains_key packet.sequence s.received_sequences
    then (ok nothing, s')
    else then_run (reassemble packet s') (receive_complete packet expected)

-- The branches on the packet's type. A `Connect` packet falls through to the empty result.
unfoldable pub dispatch :
    CultNetRudpPacketType → CultNetRudpPacket → ℕ → Run CultNetRudpReceiveResult
dispatch Packet.accept packet expected = do
  modify (remember_received packet.sequence)
  modify (λ s. record s { connected = true })
  return nothing
dispatch Packet.ping packet expected = do
  modify (remember_received packet.sequence)
  reply ← create_packet (whole Packet.pong control packet.payload false false false)
  return (record nothing { reply = some reply })
dispatch Packet.ack packet expected = do modify (remember_received packet.sequence); return nothing
dispatch Packet.pong packet expected = do
  modify (remember_received packet.sequence)
  return (record nothing { pong = true; pong_payload = packet.payload })
dispatch Packet.disconnect packet expected = do
  modify (remember_received packet.sequence)
  modify (λ s. record s { connected = false })
  return (record nothing { disconnected = true; disconnect_reason = packet.payload })
dispatch Packet.connect packet expected = return nothing
dispatch Packet.data_packet packet expected = receive_data packet expected

unfoldable pub receive : CultNetRudpPacket → ℕ → Run CultNetRudpReceiveResult
receive packet now_ms = do
  check (require_connection packet)
  modify (apply_acknowledgements packet)
  modify (λ s. record s { last_received_at_ms = some now_ms })
  expected ← check (expected_sequence packet)
  dispatch packet.packet_type packet expected
