-- ===== src/Rudp/Receive/Duplicates.antt =====
-- src/rudp.rs: a data packet that has been received before.
use cultnet_rs.Base.{ℕ, zero, suc, ◌≡◌, refl, arith, List, true}
use cultnet_rs.Base.{Option, none, some, inl, inr, Option-cases}
use cultnet_rs.Base.Outcome.{Outcome, ok, err, panic}
use cultnet_rs.Rudp.Packet
use cultnet_rs.Rudp.Packet.{RudpError, CultNetRudpPacket, CultNetRudpPacketType}
use cultnet_rs.Rudp.State.{
  CultNetRudpSession, CultNetRudpDeliveredFrame, Run, then_run, FragmentBuffer,
}
use cultnet_rs.Rudp.State.{require_connection}
use cultnet_rs.Rudp.Acks.{remember_received, apply_acknowledgements}
use cultnet_rs.Base.BTreeMap.{get, contains_key, contains_key-insert}
use cultnet_rs.Base.Order.{nat_ord, bytes_ord, pair_ord}
use mathlib.Core.Option
use cultnet_rs.Rudp.Fragments.{
  key_of, fresh_buffer, Reassembled, reassemble, reassemble_whole, reassemble_fragment,
}
use cultnet_rs.Rudp.Fragments.{extend_set, finish_set}
use cultnet_rs.Rudp.Ordered.{deliver_ordered, expect_next, hold_back, release, drain_ordered}
use cultnet_rs.Rudp.Ordered.{drain_loop, drain_step}
use cultnet_rs.Rudp.Receive.{
  receive, receive_data, receive_complete, deliver_frame, deliver_sequenced,
}
use cultnet_rs.Rudp.Receive.{dispatch, nothing, expected_sequence}

-- The same sequences have been received.
abbrev pub Same : CultNetRudpSession → CultNetRudpSession → Type 0
Same s t = t.received_sequences ≡ s.received_sequences

finish_set-Same :
    (packet : CultNetRudpPacket) (buffer : FragmentBuffer) (parts : List ℕ × List ℕ)
    (s : CultNetRudpSession)
    → Same s (finish_set packet buffer parts s).1
unfolding finish_set
finish_set-Same packet buffer (payload, sequences) s = ground arith

extend_set-Same :
    (packet : CultNetRudpPacket) (found : FragmentBuffer) (s : CultNetRudpSession)
    → Same s (extend_set packet found s).1
unfolding extend_set
extend_set-Same packet found s = grind (arith, finish_set-Same)

reassemble-Same :
    (packet : CultNetRudpPacket) (s : CultNetRudpSession) → Same s (reassemble packet s).1
unfolding reassemble reassemble_whole reassemble_fragment
reassemble-Same packet s = ground (
  arith,
  extend_set-Same packet
      (Option.get_or (get (key_of packet) s.fragment_buffers) (fresh_buffer packet)) s,
)

drain_step-Same :
    (channel_id : List ℕ) (s t : CultNetRudpSession) (frame : CultNetRudpDeliveredFrame)
    → drain_step channel_id s ≡ some (frame, t)
    → Same s t
unfolding drain_step
drain_step-Same channel_id s t frame h = ground arith

drain_loop-Same :
    (fuel : ℕ) (channel_id : List ℕ) (s : CultNetRudpSession)
    → Same s (drain_loop fuel channel_id s).1
unfolding drain_loop
drain_loop-Same zero channel_id s = ground arith
drain_loop-Same (suc fuel) channel_id s = elim (Option-cases (drain_step channel_id s)) [
  | inl e ↦ rw (e, drain_loop) (ground arith)
  | inr ((frame, t), e) ↦
      rw (e, drain_loop)
        (ground (arith, drain_step-Same channel_id s t frame e, drain_loop-Same fuel channel_id t))
]

pub deliver_ordered-Same :
    (frame : CultNetRudpDeliveredFrame) (after expected : ℕ) (s : CultNetRudpSession)
    → Same s (deliver_ordered frame after expected s).1
unfolding deliver_ordered hold_back release drain_ordered expect_next
deliver_ordered-Same frame after expected s = grind (arith, drain_loop-Same)

receive_complete-Same :
    (packet : CultNetRudpPacket) (expected : ℕ) (r : Option Reassembled) (s : CultNetRudpSession)
    → Same s (receive_complete packet expected r s).1
unfolding receive_complete deliver_frame deliver_sequenced
receive_complete-Same packet expected none s = ground arith
receive_complete-Same packet expected (some r) s =
    ground (arith, deliver_ordered-Same r.frame r.next_sequence expected s)

then_run-Same :
    {A B : Type 0} (r : Outcome RudpError A × CultNetRudpSession) (f : A → Run B)
    (s : CultNetRudpSession)
    → Same s r.1
    → ((a : A) (t : CultNetRudpSession) → Same t (f a t).1)
    → Same s (then_run r f).1
then_run-Same (ok a, t) f s k g = ground (arith, g a t)
then_run-Same (err e, t) f s k g = k
then_run-Same (panic, t) f s k g = k

receive_data-received :
    (packet : CultNetRudpPacket) (expected : ℕ) (s : CultNetRudpSession)
    → contains_key packet.sequence (receive_data packet expected s).1.received_sequences ≡ true
unfolding receive_data remember_received
receive_data-received packet expected s =
    let t = remember_received packet.sequence s in
    ground (
      arith,
      then_run-Same (reassemble packet t) (receive_complete packet expected) t
          (reassemble-Same packet t) (receive_complete-Same packet expected),
      contains_key-insert packet.sequence packet.sequence tt s.received_sequences,
    )

-- The session in which `receive` comes to the packet's type.
abbrev pub heard : CultNetRudpPacket → ℕ → CultNetRudpSession → CultNetRudpSession
heard packet now_ms s = record (apply_acknowledgements packet s) {
  last_received_at_ms = some now_ms;
}

pub receive-data :
    (packet : CultNetRudpPacket) (now_ms : ℕ) (s : CultNetRudpSession)
    → packet.packet_type ≡ Packet.data_packet
    → require_connection packet s ≡ ok tt
    → (expected : ℕ) → expected_sequence packet s ≡ ok expected
    → receive packet now_ms s ≡ receive_data packet expected (heard packet now_ms s)
unfolding receive dispatch apply_acknowledgements expected_sequence
receive-data packet now_ms s is_data same_connection expected e =
    rw (same_connection, e, is_data) refl

pub receive_data-duplicate :
    (packet : CultNetRudpPacket) (expected : ℕ) (s : CultNetRudpSession)
    → contains_key packet.sequence s.received_sequences ≡ true
    → receive_data packet expected s ≡ (ok nothing, remember_received packet.sequence s)
unfolding receive_data
receive_data-duplicate packet expected s h = rw h refl

-- A data packet of the session's connection, whatever `receive` makes of it (a delivery, a fragment
-- that is kept, an error or a panic in the reassembly): when it is received again right after, and
-- the sequence after the highest received one is a `u32`, it delivers nothing, and the
-- delivery state (expected sequences, buffers, fragments) stays as the first call left it.
pub receive-receive :
    (packet : CultNetRudpPacket) (now_ms later_ms expected expected_again : ℕ)
    (s : CultNetRudpSession)
    → packet.packet_type ≡ Packet.data_packet
    → require_connection packet s ≡ ok tt
    → expected_sequence packet s ≡ ok expected
    → require_connection packet (receive packet now_ms s).1 ≡ ok tt
    → expected_sequence packet (receive packet now_ms s).1 ≡ ok expected_again
    → (receive packet later_ms (receive packet now_ms s).1) ≡ (
      ok nothing,
      remember_received packet.sequence (heard packet later_ms (receive packet now_ms s).1),
    )
unfolding apply_acknowledgements
receive-receive packet now_ms later_ms expected expected_again s is_data same_connection e
      same_again e_again =
    let t = (receive packet now_ms s).1 in
    let there : contains_key packet.sequence t.received_sequences ≡ true =
      rw (receive-data packet now_ms s is_data same_connection expected e)
        (receive_data-received packet expected (heard packet now_ms s)) in
    rw (receive-data packet later_ms t is_data same_again expected_again e_again)
      (receive_data-duplicate packet expected_again (heard packet later_ms t) there)
