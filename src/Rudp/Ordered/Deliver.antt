-- ===== src/Rudp/Ordered/Deliver.antt =====
-- src/rudp.rs: what `deliver_ordered` delivers, over any sequence of frames on a channel.
use cultnet_rs.Base.{ℕ, ◌<◌, ◌≡◌, refl, subst, List, [], ◌∷◌, ◌++◌, arith, min}
use cultnet_rs.Base.{length, All, none, inl, inr, Bool-cases, ltb, ltb→lt}
use cultnet_rs.Base.BTreeMap.{BTreeMap, get, insert, get-insert}
use cultnet_rs.Base.BTreeMap.Entries.{All-insert}
use cultnet_rs.Base.Order.{nat_ord, bytes_ord}
use cultnet_rs.Rudp.State.{CultNetRudpSession, CultNetRudpDeliveredFrame, PendingOrderedFrame}
use cultnet_rs.Rudp.Ordered.{
  waiting, drain_ordered, expect_next, hold_back, release, deliver_ordered,
}
use cultnet_rs.Rudp.Ordered.Drain.{
  done, follows, Runs-append, held, IsHeld, Expects, Advances, get-insert_same, drain_loop-Advances,
}

expected-hold_back :
    (frame : CultNetRudpDeliveredFrame) (after : ℕ) (s : CultNetRudpSession)
    → (hold_back frame after s).ordered_next_sequence_by_channel
      ≡ s.ordered_next_sequence_by_channel
unfolding hold_back
expected-hold_back frame after s = refl

held-hold_back :
    (frame : CultNetRudpDeliveredFrame) (after : ℕ) (s : CultNetRudpSession)
    → held frame.channel_id (hold_back frame after s)
      ≡ insert frame.sequence
          (record { frame = frame; next_sequence = after })
          (held frame.channel_id s)
unfolding hold_back
held-hold_back frame after s = rw (get-insert_same frame.channel_id _ s.ordered_buffers) refl

get-insert_other :
    (k j : ℕ) (v : PendingOrderedFrame) (m : BTreeMap ℕ PendingOrderedFrame)
    → j < k
    → get j m ≡ none
    → get j (insert k v m) ≡ none
get-insert_other k j v m h free = ground (arith, get-insert k j v m, free)

-- Calls of `deliver_ordered` one after the other, each with a frame, the sequence after it and the
-- value of `expected_sequence_if_uninitialized`: all that they deliver, and the last session.
abbrev pub deliver_all :
    List (CultNetRudpDeliveredFrame × (ℕ × ℕ))
    → CultNetRudpSession
    → List CultNetRudpDeliveredFrame × CultNetRudpSession
deliver_all [] s = ([], s)
deliver_all ((frame, (after, expected)) ∷ calls) s =
    let (now, t) = deliver_ordered frame after expected s in
    let (later, u) = deliver_all calls t in (now ++ later, u)

module _ (Named : CultNetRudpDeliveredFrame → ℕ → Type 0) where
  pub expect_next-known :
      (channel_id : List ℕ) (next first : ℕ) (s : CultNetRudpSession)
      → Expects Named channel_id next s
      → expect_next channel_id first s ≡ (next, s)
  unfolding expect_next
  expect_next-known channel_id next first s x = rw (x.expected, expect_next) refl

  -- A frame whose next sequence is a later one, on a channel that expects `next` and does not hold
  -- it: whatever the frame's sequence is, the frames that are delivered continue the run from
  -- `next`, and afterwards the channel expects the sequence behind them and does not hold it.
  pub deliver_ordered-Advances :
      (frame : CultNetRudpDeliveredFrame) (after expected next : ℕ) (s : CultNetRudpSession)
      → frame.sequence < after
      → Named frame after
      → Expects Named frame.channel_id next s
      → get next (held frame.channel_id s) ≡ none
      → Advances Named frame.channel_id next
          (deliver_ordered frame after expected s).0
          (deliver_ordered frame after expected s).1
  unfolding deliver_ordered release drain_ordered waiting
  deliver_ordered-Advances frame after expected next s later named x free =
      rw (expect_next-known frame.channel_id next (min expected frame.sequence) s x)
        (elim (Bool-cases (ltb frame.sequence next)) [
          | inl old ↦ rw old (record { upto = next; expects = x; runs = done next; drained = free })
          | inr new ↦ rw new (elim (Bool-cases (ltb next frame.sequence)) [
            | inl early ↦ rw early (record {
              upto = next;
              expects = record {
                expected = rw (expected-hold_back frame after s) x.expected;
                buffered = rw (held-hold_back frame after s) (
                    All-insert (IsHeld Named) frame.sequence _ (held frame.channel_id s) x.buffered
                      (refl, later, named));
              };
              runs = done next;
              drained = rw (held-hold_back frame after s) (
                  get-insert_other frame.sequence next _ (held frame.channel_id s)
                    (ltb→lt next frame.sequence early) free);
            })
            | inr now ↦
                let same : frame.sequence ≡ next = ground arith in
                let t = record s {
                  ordered_next_sequence_by_channel =
                      insert frame.channel_id after s.ordered_next_sequence_by_channel;
                } in
                let rest =
                  drain_loop-Advances Named (length (held frame.channel_id s)) frame.channel_id
                    after t (omega arith)
                    (record {
                      expected =
                          get-insert_same frame.channel_id after s.ordered_next_sequence_by_channel;
                      buffered = x.buffered;
                    }) in
                rw now (record {
                  upto = rest.upto;
                  expects = rest.expects;
                  runs =
                      follows next after rest.upto frame _ same (rw (← same) later) named rest.runs;
                  drained = rest.drained;
                })
          ])
        ])

  -- The frames of one channel, each with a later sequence, which it names as the next.
  abbrev pub IsCall : List ℕ → CultNetRudpDeliveredFrame × (ℕ × ℕ) → Type 0
  IsCall channel_id (frame, (after, expected)) =
      (frame.channel_id ≡ channel_id) × (frame.sequence < after) × Named frame after

  -- Whatever frames arrive on a channel that expects `next` and does not hold it, in whatever order and however often,
  -- each with a later sequence that it names as the next one: all that is delivered, taken together, is one run from
  -- `next` to the sequence that the channel then expects. Each frame of the run has the sequence that the frame before
  -- it names. What a frame names is any relation that holds of each arriving frame and the sequence given with it, and
  -- of the frames that wait already.
  pub deliver_all-Advances :
      (channel_id : List ℕ) (next : ℕ) (calls : List (CultNetRudpDeliveredFrame × (ℕ × ℕ)))
      (s : CultNetRudpSession)
      → All (IsCall channel_id) calls
      → Expects Named channel_id next s
      → get next (held channel_id s) ≡ none
      → Advances Named channel_id next (deliver_all calls s).0 (deliver_all calls s).1
  deliver_all-Advances channel_id next [] s c x free = record {
    upto = next;
    expects = x;
    runs = done next;
    drained = free;
  }
  deliver_all-Advances channel_id next ((frame, (after, expected)) ∷ calls) s
        ((channel, later, named), c) x free =
      let now : Advances Named channel_id next (deliver_ordered frame after expected s).0
          (deliver_ordered frame after expected s).1 =
        subst
          (λ name.
            Expects Named name next s
            → get next (held name s) ≡ none
            → Advances Named name next (deliver_ordered frame after expected s).0
                (deliver_ordered frame after expected s).1)
          channel (deliver_ordered-Advances frame after expected next s later named) x free in
      let rest =
        deliver_all-Advances channel_id now.upto calls (deliver_ordered frame after expected s).1 c
          now.expects now.drained in
      record {
        upto = rest.upto;
        expects = rest.expects;
        runs = Runs-append Named next now.upto rest.upto _ _ now.runs rest.runs;
        drained = rest.drained;
      }
