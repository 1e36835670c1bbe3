-- ===== src/Rudp/Queue/Keeps.antt =====
-- src/rudp.rs: the methods that leave the reliable queue as it is.
use cultnet_rs.Base.{ℕ, zero, suc, min, ◌≤◌, ◌≡◌, arith, List}
use cultnet_rs.Base.{Option, none, some, inl, inr, Option-cases}
use cultnet_rs.Base.Outcome.{Outcome, ok, err, panic}
use cultnet_rs.Rudp.Packet
use cultnet_rs.Rudp.Packet.{RudpError, CultNetRudpPacket, CultNetRudpPacketType}
use cultnet_rs.Rudp.State.{
  CultNetRudpSession, CultNetRudpDeliveredFrame, Run, then_run, FragmentBuffer,
}
use cultnet_rs.Rudp.Acks.{remember_received}
use cultnet_rs.Rudp.Create.{Draft, create_packet_with_fragments}
use cultnet_rs.Base.BTreeMap.{get}
use cultnet_rs.Base.Order.{nat_ord, bytes_ord, pair_ord}
use mathlib.Core.Option
use cultnet_rs.Rudp.Fragments.{
  key_of, fresh_buffer, Reassembled, reassemble, reassemble_whole, reassemble_fragment,
}
use cultnet_rs.Rudp.Fragments.{extend_set, finish_set}
use cultnet_rs.Rudp.Ordered.{deliver_ordered, expect_next, hold_back, release, drain_ordered}
use cultnet_rs.Rudp.Ordered.{drain_loop, drain_step}
use cultnet_rs.Rudp.Receive.{receive_data, receive_complete, deliver_frame, deliver_sequenced}
use cultnet_rs.Rudp.Receive.{dispatch}

-- The queue and its limit are the same, and the next sequence has not gone back.
pub record Keeps (s t : CultNetRudpSession) : Type 0 where
  pub queue : t.pending_reliable ≡ s.pending_reliable
  pub limit : t.max_pending_reliable_packets ≡ s.max_pending_reliable_packets
  pub later : s.next_sequence ≤ t.next_sequence

pub Keeps-refl : (s : CultNetRudpSession) → Keeps s s
Keeps-refl s = ground arith

pub create_packet-Keeps :
    (d : Draft) (s : CultNetRudpSession) → Keeps s (create_packet_with_fragments d s).1
unfolding create_packet_with_fragments
create_packet-Keeps d s = ground arith

finish_set-Keeps :
    (packet : CultNetRudpPacket) (buffer : FragmentBuffer) (parts : List ℕ × List ℕ)
    (s : CultNetRudpSession)
    → Keeps s (finish_set packet buffer parts s).1
unfolding finish_set
finish_set-Keeps packet buffer (payload, sequences) s = ground arith

extend_set-Keeps :
    (packet : CultNetRudpPacket) (found : FragmentBuffer) (s : CultNetRudpSession)
    → Keeps s (extend_set packet found s).1
unfolding extend_set
extend_set-Keeps packet found s = grind (arith, finish_set-Keeps)

reassemble-Keeps :
    (packet : CultNetRudpPacket) (s : CultNetRudpSession) → Keeps s (reassemble packet s).1
unfolding reassemble reassemble_whole reassemble_fragment
reassemble-Keeps packet s = ground (
  arith,
  extend_set-Keeps packet
      (Option.get_or (get (key_of packet) s.fragment_buffers) (fresh_buffer packet)) s,
)

drain_step-Keeps :
    (channel_id : List ℕ) (s t : CultNetRudpSession) (frame : CultNetRudpDeliveredFrame)
    → drain_step channel_id s ≡ some (frame, t)
    → Keeps s t
unfolding drain_step
drain_step-Keeps channel_id s t frame h = ground arith

drain_loop-Keeps :
    (fuel : ℕ) (channel_id : List ℕ) (s : CultNetRudpSession)
    → Keeps s (drain_loop fuel channel_id s).1
unfolding drain_loop
drain_loop-Keeps zero channel_id s = ground arith
drain_loop-Keeps (suc fuel) channel_id s = elim (Option-cases (drain_step channel_id s)) [
  | inl e ↦ rw (e, drain_loop) (ground arith)
  | inr ((frame, t), e) ↦
      rw (e, drain_loop)
        (ground
          (arith, drain_step-Keeps channel_id s t frame e, drain_loop-Keeps fuel channel_id t))
]

release-Keeps :
    (frame : CultNetRudpDeliveredFrame) (after : ℕ) (s : CultNetRudpSession)
    → Keeps s (release frame after s).1
unfolding release drain_ordered
release-Keeps frame after s = grind (arith, drain_loop-Keeps)

expect_next-Keeps :
    (channel_id : List ℕ) (first : ℕ) (s : CultNetRudpSession)
    → Keeps s (expect_next channel_id first s).1
unfolding expect_next
expect_next-Keeps channel_id first s = ground arith

deliver_ordered-Keeps :
    (frame : CultNetRudpDeliveredFrame) (after expected : ℕ) (s : CultNetRudpSession)
    → Keeps s (deliver_ordered frame after expected s).1
unfolding deliver_ordered hold_back
deliver_ordered-Keeps frame after expected s =
    let t = (expect_next frame.channel_id (min expected frame.sequence) s).1 in
    ground (
      arith,
      expect_next-Keeps frame.channel_id (min expected frame.sequence) s,
      release-Keeps frame after t,
    )

deliver_frame-Keeps :
    (packet : CultNetRudpPacket) (expected : ℕ) (r : Reassembled) (s : CultNetRudpSession)
    → Keeps s (deliver_frame packet expected r s).1
unfolding deliver_frame deliver_sequenced
deliver_frame-Keeps packet expected r s =
    ground (arith, deliver_ordered-Keeps r.frame r.next_sequence expected s)

receive_complete-Keeps :
    (packet : CultNetRudpPacket) (expected : ℕ) (r : Option Reassembled) (s : CultNetRudpSession)
    → Keeps s (receive_complete packet expected r s).1
unfolding receive_complete
receive_complete-Keeps packet expected none s = ground arith
receive_complete-Keeps packet expected (some r) s =
    ground (arith, deliver_frame-Keeps packet expected r s)

then_run-Keeps :
    {A B : Type 0} (r : Outcome RudpError A × CultNetRudpSession) (f : A → Run B)
    (s : CultNetRudpSession)
    → Keeps s r.1
    → ((a : A) (t : CultNetRudpSession) → Keeps t (f a t).1)
    → Keeps s (then_run r f).1
then_run-Keeps (ok a, t) f s k g = ground (arith, g a t)
then_run-Keeps (err e, t) f s k g = k
then_run-Keeps (panic, t) f s k g = k

receive_data-Keeps :
    (packet : CultNetRudpPacket) (expected : ℕ) (s : CultNetRudpSession)
    → Keeps s (receive_data packet expected s).1
unfolding receive_data remember_received
receive_data-Keeps packet expected s =
    let t = remember_received packet.sequence s in
    ground (
      arith,
      then_run-Keeps (reassemble packet t) (receive_complete packet expected) t
          (reassemble-Keeps packet t) (receive_complete-Keeps packet expected),
    )

-- Whatever a packet's type is, its handler leaves the queue and its limit as they are.
pub dispatch-Keeps :
    (t : CultNetRudpPacketType) (packet : CultNetRudpPacket) (expected : ℕ) (s : CultNetRudpSession)
    → Keeps s (dispatch t packet expected s).1
unfolding dispatch remember_received create_packet_with_fragments
dispatch-Keeps Packet.data_packet packet expected s = receive_data-Keeps packet expected s
dispatch-Keeps t packet expected s = ground arith
