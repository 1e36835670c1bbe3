-- ===== src/Rudp/Receive/Tests.antt =====
-- src/rudp.rs: `receive` and the transport over a UDP socket on concrete packets.
use cultnet_rs.Base.{arith, ◌≡◌, refl, [], ◌∷◌}
use cultnet_rs.Base.Outcome.{ok, panic}
use cultnet_rs.Base.Order.{nat_ord, bytes_ord}
use cultnet_rs.Base.BTreeMap.{get, insert, remove, contains_key}
use cultnet_rs.Base.Text.{codes}
use cultnet_rs.Rudp.Packet
use cultnet_rs.Rudp.Packet.{CultNetRudpPacket, CultNetRudpPacketType}
use cultnet_rs.Rudp.State.{
  CultNetRudpSession, u32_max, require_connection, CultNetRudpDeliveredFrame,
}
use cultnet_rs.Rudp.Acks.{
  remember_received, apply_acknowledgements, raise_highest, apply_mask_loop, has_bit,
}
use cultnet_rs.Rudp.Fragments.{reassemble, reassemble_whole}
use cultnet_rs.Rudp.Ordered.{
  deliver_ordered, expect_next, release, drain_ordered, waiting, drain_loop,
}
use cultnet_rs.Rudp.Receive.{receive, nothing, deliver, expected_sequence, dispatch, receive_data}
use cultnet_rs.Rudp.Receive.{receive_complete, deliver_frame}
use cultnet_rs.Rudp.Receive.Duplicates.{receive-receive, heard}
use cultnet_rs.Rudp.Receive.Stalls.{IsStalled, receive-IsStalled}
use cultnet_rs.Rudp.Receive.Overflow.{receive-overflow}
use cultnet_rs.Rudp.Tests.{packet, hi, online}

abbrev hi_frame : CultNetRudpDeliveredFrame
hi_frame = record { channel_id = codes "schema"; payload = b'h' ∷ b'i' ∷ []; sequence = 5 }

-- The first packet is delivered at once, and the session can take the next.
receive-hi :
    ((receive hi 40 online).0 ≡ ok (deliver (hi_frame ∷ [])))
    × (expected_sequence hi (receive hi 40 online).1 ≡ ok 6)
    × (require_connection hi (receive hi 40 online).1 ≡ ok tt)
unfolding receive require_connection apply_acknowledgements apply_mask_loop has_bit remove
    expected_sequence dispatch receive_data contains_key remember_received raise_highest insert
    reassemble reassemble_whole receive_complete deliver_frame deliver_ordered expect_next get
    release drain_ordered waiting drain_loop
receive-hi = (refl, refl, refl)

receive-receive_example :
    receive hi 50 (receive hi 40 online).1
    ≡ (ok nothing, remember_received 5 (heard hi 50 (receive hi 40 online).1))
receive-receive_example =
    receive-receive hi 40 50 5 6 online refl (unfold require_connection in refl)
      (unfold expected_sequence in refl) receive-hi.2 receive-hi.1

abbrev last_ack : CultNetRudpPacket
last_ack = packet Packet.ack u32_max (codes "control") []

receive-overflow_example :
    ((receive last_ack 40 online).0 ≡ ok nothing)
    × ((receive hi 50 (receive last_ack 40 online).1).0 ≡ panic)
receive-overflow_example =
    receive-overflow last_ack hi 40 50 u32_max online refl refl (unfold require_connection in refl)
      (unfold require_connection in refl) (unfold expected_sequence in refl)

-- A peer sends a frame with the sequence 1, an acknowledgement with 2, and a frame with 3.
abbrev second : CultNetRudpSession
second =
    (receive (packet Packet.ack 2 (codes "control") []) 41
      (receive (packet Packet.data_packet 1 (codes "schema") (1 ∷ [])) 40 online).1).1

abbrev third : CultNetRudpPacket
third = packet Packet.data_packet 3 (codes "schema") (3 ∷ [])

second-IsStalled :
    IsStalled (codes "schema") 2 second
    × (require_connection third second ≡ ok tt)
    × (expected_sequence third second ≡ ok 3)
unfolding receive require_connection apply_acknowledgements apply_mask_loop has_bit remove
    expected_sequence dispatch receive_data contains_key remember_received raise_highest insert
    reassemble reassemble_whole receive_complete deliver_frame deliver_ordered expect_next get
    release drain_ordered waiting drain_loop
second-IsStalled = (
  record { expects = record { expected = refl; buffered = tt }; missing = refl; used = refl },
  refl,
  refl,
)

receive-IsStalled_example :
    ((receive third 42 second).0 ≡ ok nothing)
    × IsStalled (codes "schema") 2 (receive third 42 second).1
receive-IsStalled_example =
    receive-IsStalled third 42 3 2 second refl refl refl (omega arith) second-IsStalled.1
      second-IsStalled.2 second-IsStalled.0
