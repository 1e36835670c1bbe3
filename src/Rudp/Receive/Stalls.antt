-- ===== src/Rudp/Receive/Stalls.antt =====
-- src/rudp.rs: an ordered channel that waits for a sequence which has been used up.
use cultnet_rs.Base.{ℕ, ◌+◌, ◌<◌, ◌≡◌, refl, subst, arith, List, [], true, false}
use cultnet_rs.Base.{none, inl, inr, Bool-cases, ltb, min, ◌==◌}
use cultnet_rs.Base.Outcome.{ok}
use cultnet_rs.Base.BTreeMap.{get, contains_key, contains_key-insert}
use cultnet_rs.Base.Order.{nat_ord, bytes_ord}
use cultnet_rs.Rudp.Packet
use cultnet_rs.Rudp.Packet.{CultNetRudpPacket}
use cultnet_rs.Rudp.State.{
  CultNetRudpSession, CultNetRudpDeliveredFrame, require_connection, u32_max,
}
use cultnet_rs.Rudp.Acks.{remember_received, apply_acknowledgements}
use cultnet_rs.Rudp.Fragments.{reassemble, reassemble_whole}
use cultnet_rs.Rudp.Ordered.{deliver_ordered}
use cultnet_rs.Rudp.Ordered.Drain.{Runs, done, held, Expects}
use cultnet_rs.Rudp.Ordered.Deliver.{expect_next-known, deliver_ordered-Advances}
use cultnet_rs.Rudp.Receive.{
  receive, receive_data, receive_complete, deliver_frame, nothing, expected_sequence,
}
use cultnet_rs.Rudp.Receive.Duplicates.{
  heard, receive-data, receive_data-duplicate, deliver_ordered-Same,
}

-- Nothing is asked of the sequences that the frames name as the next ones.
abbrev pub Anything : CultNetRudpDeliveredFrame → ℕ → Type 0
Anything frame after = Unit {0}

-- The channel expects a sequence that has been received, and does not hold its frame: it was a
-- packet of another channel or of no channel.
pub record IsStalled (channel_id : List ℕ) (next : ℕ) (s : CultNetRudpSession) : Type 0 where
  pub expects : Expects Anything channel_id next s
  pub missing : get next (held channel_id s) ≡ none
  pub used : contains_key next s.received_sequences ≡ true

Runs-nil : (from upto : ℕ) → Runs Anything from [] upto → upto ≡ from
Runs-nil from upto (done at) = refl

-- A frame with another sequence than the one expected is not delivered.
deliver_ordered-other :
    (frame : CultNetRudpDeliveredFrame) (after expected next : ℕ) (s : CultNetRudpSession)
    → Expects Anything frame.channel_id next s
    → (frame.sequence == next) ≡ false
    → (deliver_ordered frame after expected s).0 ≡ []
unfolding deliver_ordered
deliver_ordered-other frame after expected next s x other =
    ground
      (arith, expect_next-known Anything frame.channel_id next (min expected frame.sequence) s x)

deliver_ordered-IsStalled :
    (frame : CultNetRudpDeliveredFrame) (after expected next : ℕ) (s : CultNetRudpSession)
    → frame.sequence < after
    → (frame.sequence == next) ≡ false
    → IsStalled frame.channel_id next s
    → IsStalled frame.channel_id next (deliver_ordered frame after expected s).1
deliver_ordered-IsStalled frame after expected next s later other stalled =
    let t = (deliver_ordered frame after expected s).1 in
    let a =
      deliver_ordered-Advances Anything frame after expected next s later tt stalled.expects
        stalled.missing in
    let e = deliver_ordered-other frame after expected next s stalled.expects other in
    let same : a.upto ≡ next =
      Runs-nil next a.upto (subst (λ frames. Runs Anything next frames a.upto) e a.runs) in
    record {
      expects = subst (λ n. Expects Anything frame.channel_id n t) same a.expects;
      missing = subst (λ n. get n (held frame.channel_id t) ≡ none) same a.drained;
      used = rw (deliver_ordered-Same frame after expected s) stalled.used;
    }

remember_received-IsStalled :
    (channel_id : List ℕ) (next sequence : ℕ) (s : CultNetRudpSession)
    → IsStalled channel_id next s
    → IsStalled channel_id next (remember_received sequence s)
unfolding remember_received
remember_received-IsStalled channel_id next sequence s stalled = record {
  expects = record { expected = stalled.expects.expected; buffered = stalled.expects.buffered };
  missing = stalled.missing;
  used = ground (arith, stalled.used, contains_key-insert sequence next tt s.received_sequences);
}

heard-IsStalled :
    (packet : CultNetRudpPacket) (now_ms : ℕ) (channel_id : List ℕ) (next : ℕ)
    (s : CultNetRudpSession)
    → IsStalled channel_id next s
    → IsStalled channel_id next (heard packet now_ms s)
unfolding apply_acknowledgements
heard-IsStalled packet now_ms channel_id next s stalled = record {
  expects = record { expected = stalled.expects.expected; buffered = stalled.expects.buffered };
  missing = stalled.missing;
  used = stalled.used;
}

-- The frame of a packet that is no fragment.
abbrev frame_of : CultNetRudpPacket → CultNetRudpDeliveredFrame
frame_of packet = record {
  channel_id = packet.channel_id;
  payload = packet.payload;
  sequence = packet.sequence;
}

receive_data-fresh :
    (packet : CultNetRudpPacket) (expected : ℕ) (s : CultNetRudpSession)
    → contains_key packet.sequence s.received_sequences ≡ false
    → packet.fragment_count ≡ 0
    → packet.ordered ≡ true
    → packet.sequence < u32_max
    → (frames : List CultNetRudpDeliveredFrame)
    → (deliver_ordered
        (frame_of packet)
        (packet.sequence + 1)
        expected
        (remember_received packet.sequence s)).0
      ≡ frames
    → receive_data packet expected s ≡ (
      ok (record nothing { delivered = frames }),
      (deliver_ordered
          (frame_of packet)
          (packet.sequence + 1)
          expected
          (remember_received packet.sequence s)).1,
    )
unfolding receive_data reassemble reassemble_whole receive_complete deliver_frame
receive_data-fresh packet expected s new whole is_ordered small frames e =
    let more : ltb packet.sequence u32_max ≡ true = ground arith in
    rw (new, whole, more, is_ordered, e) refl

other_sequence :
    (sequence next : ℕ) (s : CultNetRudpSession)
    → contains_key sequence s.received_sequences ≡ false
    → contains_key next s.received_sequences ≡ true
    → (sequence == next) ≡ false
other_sequence sequence next s new used = elim (Bool-cases (sequence == next)) [
  | inl same ↦
      let e : sequence ≡ next = ground arith in
      let again : contains_key next s.received_sequences ≡ false = rw e at new in cc
  | inr other ↦ other
]

receive_data-IsStalled :
    (packet : CultNetRudpPacket) (expected next : ℕ) (s : CultNetRudpSession)
    → packet.fragment_count ≡ 0
    → packet.ordered ≡ true
    → packet.sequence < u32_max
    → IsStalled packet.channel_id next s
    → ((receive_data packet expected s).0 ≡ ok nothing)
      × IsStalled packet.channel_id next (receive_data packet expected s).1
receive_data-IsStalled packet expected next s whole is_ordered small stalled =
    let t = remember_received packet.sequence s in
    let kept = remember_received-IsStalled packet.channel_id next packet.sequence s stalled in
    elim (Bool-cases (contains_key packet.sequence s.received_sequences)) [
      | inl again ↦ rw (receive_data-duplicate packet expected s again) (refl, kept)
      | inr new ↦
          let other : (packet.sequence == next) ≡ false =
            other_sequence packet.sequence next s new stalled.used in
          let nothing_new =
            deliver_ordered-other (frame_of packet) (packet.sequence + 1) expected next t
              kept.expects other in
          rw (receive_data-fresh packet expected s new whole is_ordered small [] nothing_new) (
            refl,
            deliver_ordered-IsStalled (frame_of packet) (packet.sequence + 1) expected next t
                (omega arith) other kept,
          )
    ]

-- A session whose ordered channel expects a sequence that it has received, but not as a frame of that
-- channel: whatever unfragmented ordered packet of the channel, with a sequence below
-- 2^32 - 1, is received then, `receive` delivers nothing, and the channel expects the same sequence
-- as before, so that the same holds of the next such packet.
pub receive-IsStalled :
    (packet : CultNetRudpPacket) (now_ms expected next : ℕ) (s : CultNetRudpSession)
    → packet.packet_type ≡ Packet.data_packet
    → packet.fragment_count ≡ 0
    → packet.ordered ≡ true
    → packet.sequence < u32_max
    → require_connection packet s ≡ ok tt
    → expected_sequence packet s ≡ ok expected
    → IsStalled packet.channel_id next s
    → ((receive packet now_ms s).0 ≡ ok nothing)
      × IsStalled packet.channel_id next (receive packet now_ms s).1
receive-IsStalled packet now_ms expected next s is_data whole is_ordered small same e stalled =
    rw (receive-data packet now_ms s is_data same expected e) (
      receive_data-IsStalled packet expected next (heard packet now_ms s) whole is_ordered small
        (heard-IsStalled packet now_ms packet.channel_id next s stalled))
