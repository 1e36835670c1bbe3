-- ===== src/Rudp/Ordered.antt =====
-- src/rudp.rs: `deliver_ordered` and `drain_ordered`, the delivery of an ordered channel.
pub mod Drain
pub mod Deliver
use cultnet_rs.Base.{ℕ, zero, suc, ◌+◌, min, List, [], ◌∷◌, ltb, if◌then◌else◌, length}
use cultnet_rs.Base.{Option, none, some}
use cultnet_rs.Base.BTreeMap.{BTreeMap, get, insert, remove}
use cultnet_rs.Base.Order.{nat_ord, bytes_ord}
use cultnet_rs.Rudp.State.{CultNetRudpSession, CultNetRudpDeliveredFrame, PendingOrderedFrame}
use mathlib.Core.Option

-- One round of the loop in `drain_ordered`: the frame that is next, if it is there.
unfoldable pub drain_step :
    List ℕ → CultNetRudpSession → Option (CultNetRudpDeliveredFrame × CultNetRudpSession)
drain_step channel_id s = elim (get channel_id s.ordered_next_sequence_by_channel) [
  | none ↦ none
  | some next ↦ elim (get channel_id s.ordered_buffers) [
    | none ↦ none
    | some buffer ↦ elim (get next buffer) [
      | none ↦ none
      | some pending ↦ some (
        pending.frame,
        record s {
          ordered_buffers = insert channel_id (remove next buffer) s.ordered_buffers;
          ordered_next_sequence_by_channel =
              insert channel_id pending.next_sequence s.ordered_next_sequence_by_channel;
        },
      )
    ]
  ]
]

unfoldable pub drain_loop :
    ℕ → List ℕ → CultNetRudpSession → List CultNetRudpDeliveredFrame × CultNetRudpSession
drain_loop zero channel_id s = ([], s)
drain_loop (suc fuel) channel_id s = elim (drain_step channel_id s) [
  | none ↦ ([], s)
  | some (frame, s') ↦ let (frames, s'') = drain_loop fuel channel_id s' in (frame ∷ frames, s'')
]

-- The number of frames that wait on the channel. Each round of the loop takes one out.
unfoldable pub waiting : List ℕ → CultNetRudpSession → ℕ
waiting channel_id s = length (Option.get_or (get channel_id s.ordered_buffers) [])

unfoldable pub drain_ordered :
    List ℕ → CultNetRudpSession → List CultNetRudpDeliveredFrame × CultNetRudpSession
drain_ordered channel_id s = drain_loop (waiting channel_id s) channel_id s

-- The channel's next sequence, and the session in which it is set.
unfoldable pub expect_next : List ℕ → ℕ → CultNetRudpSession → ℕ × CultNetRudpSession
expect_next channel_id first s = elim (get channel_id s.ordered_next_sequence_by_channel) [
  | some next ↦ (next, s)
  | none ↦ (
    first,
    record s {
      ordered_next_sequence_by_channel = insert channel_id first s.ordered_next_sequence_by_channel;
    },
  )
]

unfoldable pub hold_back : CultNetRudpDeliveredFrame → ℕ → CultNetRudpSession → CultNetRudpSession
hold_back frame next_sequence s =
    let buffer = Option.get_or (get frame.channel_id s.ordered_buffers) [] in
    record s {
      ordered_buffers =
          insert frame.channel_id
            (insert frame.sequence (record { frame = frame; next_sequence = next_sequence }) buffer)
            s.ordered_buffers;
    }

-- The frame is the next one: it is delivered, and after it those that waited for it.
unfoldable pub release :
    CultNetRudpDeliveredFrame
    → ℕ
    → CultNetRudpSession
    → List CultNetRudpDeliveredFrame × CultNetRudpSession
release frame next_sequence s =
    let (frames, s') = drain_ordered frame.channel_id (record s {
      ordered_next_sequence_by_channel =
          insert frame.channel_id next_sequence s.ordered_next_sequence_by_channel;
    }) in
    (frame ∷ frames, s')

unfoldable pub deliver_ordered :
    CultNetRudpDeliveredFrame
    → ℕ
    → ℕ
    → CultNetRudpSession
    → List CultNetRudpDeliveredFrame × CultNetRudpSession
deliver_ordered frame next_sequence_after_frame expected_sequence_if_uninitialized s =
    let (next, s') =
      expect_next frame.channel_id (min expected_sequence_if_uninitialized frame.sequence) s in
    if ltb frame.sequence next
    then ([], s')
    else if ltb next frame.sequence
    then ([], hold_back frame next_sequence_after_frame s')
    else release frame next_sequence_after_frame s'
