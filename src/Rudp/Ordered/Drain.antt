-- ===== src/Rudp/Ordered/Drain.antt =====
-- src/rudp.rs: what `drain_ordered` delivers.
use cultnet_rs.Base.{ℕ, zero, suc, ◌≤◌, ◌<◌, ◌≡◌, refl, List, [], ◌∷◌, ◌++◌, arith}
use cultnet_rs.Base.{length, All, none, some, inl, inr, Option-cases, true, Bool-cases}
use cultnet_rs.Base.BTreeMap.{BTreeMap, get, insert, remove, get-insert, length-remove-le}
use cultnet_rs.Base.BTreeMap.Entries.{All-remove, All-get}
use cultnet_rs.Base.Order.{nat_ord, bytes_ord}
use cultnet_rs.Rudp.State.{CultNetRudpSession, CultNetRudpDeliveredFrame, PendingOrderedFrame}
use cultnet_rs.Rudp.Ordered.{drain_step, drain_loop}
use mathlib.Core.Option

-- The channel's buffer.
abbrev pub held : List ℕ → CultNetRudpSession → BTreeMap ℕ PendingOrderedFrame
held channel_id s = Option.get_or (get channel_id s.ordered_buffers) []

pub same_channel : (channel_id : List ℕ) → bytes_ord.eq channel_id channel_id ≡ true
same_channel channel_id = (bytes_ord.eq_iff channel_id channel_id).1 refl

pub get-insert_same :
    {V : Type 0} (channel_id : List ℕ) (v : V) (m : BTreeMap (List ℕ) V)
    → get channel_id (insert channel_id v m) ≡ some v
get-insert_same channel_id v m =
    rw (get-insert channel_id channel_id v m, same_channel channel_id) refl

length-remove-lt :
    (k : ℕ) (m : BTreeMap ℕ PendingOrderedFrame) {v : PendingOrderedFrame}
    → get k m ≡ some v
    → length (remove k m) < length m
unfolding get remove
length-remove-lt k [] h = cc
length-remove-lt k ((j, w) ∷ m) {v} h = elim (Bool-cases (nat_ord.eq j k)) [
  | inl same ↦ rw same (omega (arith, length-remove-le k m))
  | inr other ↦ rw other (omega (arith, length-remove-lt k m {v = v} (rw other at h)))
]

-- The session after one round of the loop.
abbrev pub drained_once : List ℕ → ℕ → PendingOrderedFrame → CultNetRudpSession → CultNetRudpSession
drained_once channel_id next pending s = record s {
  ordered_buffers = insert channel_id (remove next (held channel_id s)) s.ordered_buffers;
  ordered_next_sequence_by_channel =
      insert channel_id pending.next_sequence s.ordered_next_sequence_by_channel;
}

held-drained_once :
    (channel_id : List ℕ) (next : ℕ) (pending : PendingOrderedFrame) (s : CultNetRudpSession)
    → held channel_id (drained_once channel_id next pending s) ≡ remove next (held channel_id s)
held-drained_once channel_id next pending s =
    rw (get-insert_same channel_id (remove next (held channel_id s)) s.ordered_buffers) refl

get-empty : (k : ℕ) (m : BTreeMap ℕ PendingOrderedFrame) → length m ≤ 0 → get k m ≡ none
unfolding get
get-empty k [] h = refl
get-empty k (e ∷ m) h = absurd (omega arith)

-- `Named frame after`: the frame names `after` as the sequence of the next frame.
module _ (Named : CultNetRudpDeliveredFrame → ℕ → Type 0) where
  -- The frames follow each other without a gap from the sequence `from` to the sequence `upto`:
  -- each has the sequence that the channel expects, and
  -- the next one expected is a later one, the one that the frame itself names.
  pub data Runs : ℕ → List CultNetRudpDeliveredFrame → ℕ → Type 0 where
    done : (at : ℕ) → Runs at [] at
    follows :
        (from later upto : ℕ) (frame : CultNetRudpDeliveredFrame)
        (frames : List CultNetRudpDeliveredFrame)
        → frame.sequence ≡ from
        → from < later
        → Named frame later
        → Runs later frames upto
        → Runs from (frame ∷ frames) upto

  pub Runs-append :
      (from mid upto : ℕ) (xs ys : List CultNetRudpDeliveredFrame)
      → Runs from xs mid
      → Runs mid ys upto
      → Runs from (xs ++ ys) upto
  Runs-append from mid upto xs ys (done at) r = r
  Runs-append from mid upto xs ys (follows a later b frame frames e l n rest) r =
      follows a later upto frame (frames ++ ys) e l n (Runs-append later b upto frames ys rest r)

  -- A frame stands under its own sequence, and a later one is kept with it, which it names.
  abbrev pub IsHeld : ℕ × PendingOrderedFrame → Type 0
  IsHeld (k, pending) =
      (pending.frame.sequence ≡ k)
      × (k < pending.next_sequence)
      × Named pending.frame pending.next_sequence

  -- The channel expects `next`, and its buffer is well formed.
  pub record Expects (channel_id : List ℕ) (next : ℕ) (s : CultNetRudpSession) : Type 0 where
    pub expected : get channel_id s.ordered_next_sequence_by_channel ≡ some next
    pub buffered : All IsHeld (held channel_id s)

  -- After a delivery of `frames` the channel expects the sequence behind them, and the frame with that
  -- sequence is not waiting.
  pub record Advances (channel_id : List ℕ) (from : ℕ) (frames : List CultNetRudpDeliveredFrame)
      (s : CultNetRudpSession) : Type 0 where
    pub upto : ℕ
    pub expects : Expects channel_id upto s
    pub runs : Runs from frames upto
    pub drained : get upto (held channel_id s) ≡ none

  drain_step-some :
      (channel_id : List ℕ) (next : ℕ) (pending : PendingOrderedFrame) (s : CultNetRudpSession)
      → Expects channel_id next s
      → get next (held channel_id s) ≡ some pending
      → drain_step channel_id s ≡ some (pending.frame, drained_once channel_id next pending s)
  unfolding drain_step get
  drain_step-some channel_id next pending s x h = ground (arith, x.expected, h)

  drain_step-none :
      (channel_id : List ℕ) (next : ℕ) (s : CultNetRudpSession)
      → Expects channel_id next s
      → get next (held channel_id s) ≡ none
      → drain_step channel_id s ≡ none
  unfolding drain_step
  drain_step-none channel_id next s x h = ground (arith, x.expected, h)

  drained_once-Expects :
      (channel_id : List ℕ) (next : ℕ) (pending : PendingOrderedFrame) (s : CultNetRudpSession)
      → Expects channel_id next s
      → Expects channel_id pending.next_sequence (drained_once channel_id next pending s)
  drained_once-Expects channel_id next pending s x = record {
    expected = get-insert_same channel_id pending.next_sequence s.ordered_next_sequence_by_channel;
    buffered =
        rw (held-drained_once channel_id next pending s)
          (All-remove IsHeld next (held channel_id s) x.buffered);
  }

  -- As many rounds as frames wait are enough: the loop then ends at its own test.
  pub drain_loop-Advances :
      (fuel : ℕ) (channel_id : List ℕ) (next : ℕ) (s : CultNetRudpSession)
      → length (held channel_id s) ≤ fuel
      → Expects channel_id next s
      → Advances channel_id next (drain_loop fuel channel_id s).0 (drain_loop fuel channel_id s).1
  unfolding drain_loop get
  drain_loop-Advances zero channel_id next s h x = record {
    upto = next;
    expects = x;
    runs = done next;
    drained = get-empty next (held channel_id s) (omega arith);
  }
  drain_loop-Advances (suc fuel) channel_id next s h x =
      elim (Option-cases (get next (held channel_id s))) [
        | inl gap ↦
            rw (drain_step-none channel_id next s x gap, drain_loop)
              (record { upto = next; expects = x; runs = done next; drained = gap })
        | inr (pending, there) ↦
            let t = drained_once channel_id next pending s in
            let (same, later, named) = All-get IsHeld next (held channel_id s) x.buffered there in
            let less : length (held channel_id t) ≤ fuel =
              rw (held-drained_once channel_id next pending s)
                (omega (arith, length-remove-lt next (held channel_id s) there)) in
            let rest =
              drain_loop-Advances fuel channel_id pending.next_sequence t less
                (drained_once-Expects channel_id next pending s x) in
            rw (drain_step-some channel_id next pending s x there, drain_loop)
              (record {
                upto = rest.upto;
                expects = rest.expects;
                runs =
                    follows next pending.next_sequence rest.upto pending.frame _ same later named
                      rest.runs;
                drained = rest.drained;
              })
      ]
