-- ===== src/Rudp/Receive/Overflow.antt =====
-- src/rudp.rs: the sequence 2^32 - 1 on the receiving side.
use cultnet_rs.Base.{ℕ, ◌≡◌, refl, arith}
use cultnet_rs.Base.{some}
use cultnet_rs.Base.Outcome.{ok, panic}
use cultnet_rs.Rudp.Packet
use cultnet_rs.Rudp.Packet.{CultNetRudpPacket}
use cultnet_rs.Rudp.State.{CultNetRudpSession, require_connection, u32_max}
use cultnet_rs.Rudp.Acks.{remember_received, apply_acknowledgements, raise_highest}
use cultnet_rs.Rudp.Receive.{receive, dispatch, expected_sequence, nothing}

-- Once the highest received sequence is the last `u32`, every packet of the connection panics,
-- whatever its type.
receive-last :
    (packet : CultNetRudpPacket) (now_ms : ℕ) (s : CultNetRudpSession)
    → s.highest_received_sequence ≡ some u32_max
    → require_connection packet s ≡ ok tt
    → (receive packet now_ms s).0 ≡ panic
unfolding receive apply_acknowledgements expected_sequence
receive-last packet now_ms s last same_connection = rw (same_connection, last) refl

-- The session after an acknowledgement packet has been taken.
abbrev after_ack : CultNetRudpPacket → ℕ → CultNetRudpSession → CultNetRudpSession
after_ack packet now_ms s =
    remember_received packet.sequence
      (record (apply_acknowledgements packet s) { last_received_at_ms = some now_ms })

receive-ack :
    (packet : CultNetRudpPacket) (now_ms expected : ℕ) (s : CultNetRudpSession)
    → packet.packet_type ≡ Packet.ack
    → require_connection packet s ≡ ok tt
    → expected_sequence packet s ≡ ok expected
    → receive packet now_ms s ≡ (ok nothing, after_ack packet now_ms s)
unfolding receive dispatch apply_acknowledgements expected_sequence
receive-ack packet now_ms expected s is_ack same e = rw (same, e, is_ack) refl

highest-after_ack :
    (packet : CultNetRudpPacket) (now_ms expected : ℕ) (s : CultNetRudpSession)
    → packet.sequence ≡ u32_max
    → expected_sequence packet s ≡ ok expected
    → (after_ack packet now_ms s).highest_received_sequence ≡ some u32_max
unfolding apply_acknowledgements expected_sequence remember_received raise_highest
highest-after_ack packet now_ms expected s last e = ground (arith, last)

same_connection-after_ack :
    (packet next : CultNetRudpPacket) (now_ms : ℕ) (s : CultNetRudpSession)
    → require_connection next (after_ack packet now_ms s) ≡ require_connection next s
unfolding apply_acknowledgements remember_received require_connection
same_connection-after_ack packet next now_ms s = refl

-- A session that can take packets, and an `Ack` packet of its connection with the sequence
-- 2^32 - 1: the packet is taken, and then every packet of the connection, of whatever type and at
-- whatever time, makes `receive` panic where arithmetic overflow is checked.
pub receive-overflow :
    (packet next : CultNetRudpPacket) (now_ms later_ms expected : ℕ) (s : CultNetRudpSession)
    → packet.packet_type ≡ Packet.ack
    → packet.sequence ≡ u32_max
    → require_connection packet s ≡ ok tt
    → require_connection next s ≡ ok tt
    → expected_sequence packet s ≡ ok expected
    → ((receive packet now_ms s).0 ≡ ok nothing)
      × ((receive next later_ms (receive packet now_ms s).1).0 ≡ panic)
receive-overflow packet next now_ms later_ms expected s is_ack is_last same next_same e =
    rw (receive-ack packet now_ms expected s is_ack same e) (
      refl,
      receive-last next later_ms (after_ack packet now_ms s)
          (highest-after_ack packet now_ms expected s is_last e)
          (rw (same_connection-after_ack packet next now_ms s) next_same),
    )
