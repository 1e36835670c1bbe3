-- ===== src/Rudp/Queue/Invariant.antt =====
-- src/rudp.rs: the invariant of the reliable queue, and the methods that add packets to it.
use cultnet_rs.Base.{ℕ, zero, suc, ◌+◌, ◌≤◌, ◌<◌, ◌≡◌, refl, arith, Bool, true, false}
use cultnet_rs.Base.{Option, none, some, inl, inr, Bool-cases, ltb, ◌==◌, ◌&&◌, ◌-◌, if◌then◌else◌}
use cultnet_rs.Base.{length, All}
use cultnet_rs.Base.Outcome.{Outcome, ok, err, panic}
use cultnet_rs.Base.BTreeMap.{BTreeMap, remove, length-insert-le, length-remove-le}
use cultnet_rs.Base.BTreeMap.{length-retain-le}
use cultnet_rs.Base.BTreeMap.Entries.{All-insert, All-remove, All-retain, All-weaken}
use cultnet_rs.Base.Order.{nat_ord}
use cultnet_rs.Rudp.Packet.{CultNetRudpPacket, RudpError}
use cultnet_rs.Rudp.State.{CultNetRudpSession, CultNetRudpSendOptions, PendingReliablePacket}
use cultnet_rs.Rudp.State.{Run, then_run}
use cultnet_rs.Rudp.Acks.{has_bit, apply_mask_loop}
use cultnet_rs.Rudp.Create.{Draft, stamp, create_packet_with_fragments, track_reliable}
use cultnet_rs.Rudp.Create.{ensure_reliable_capacity, exceeds, purge_expired_reliable, is_alive}
use cultnet_rs.Rudp.Queue.Keeps.{Keeps}

abbrev pub AtMost : Option ℕ → ℕ → Type 0
AtMost none n = Unit
AtMost (some limit) n = n ≤ limit

-- A pending packet stands under its own sequence, is reliable, and its sequence has been used.
abbrev pub IsEntry : ℕ → ℕ × PendingReliablePacket → Type 0
IsEntry next (k, pending) =
    (pending.packet.sequence ≡ k) × (pending.packet.reliable ≡ true) × (k < next)

pub record IsQueue (s : CultNetRudpSession) : Type 0 where
  pub bounded : AtMost s.max_pending_reliable_packets (length s.pending_reliable)
  pub entries : All (IsEntry s.next_sequence) s.pending_reliable

pub AtMost-le : (limit : Option ℕ) (m n : ℕ) → m ≤ n → AtMost limit n → AtMost limit m
AtMost-le none m n h a = tt
AtMost-le (some limit) m n h a = omega arith

pub entries_later :
    (a b : ℕ) (m : BTreeMap ℕ PendingReliablePacket) → a ≤ b → All (IsEntry a) m → All (IsEntry b) m
entries_later a b m h all =
    All-weaken (IsEntry a) (IsEntry b) m (λ k v e. (e.0, e.1, omega (arith, e.2))) all

pub Keeps-IsQueue : {s t : CultNetRudpSession} → Keeps s t → IsQueue s → IsQueue t
Keeps-IsQueue {s} {t} k q = record {
  bounded = rw (k.queue, k.limit) q.bounded;
  entries =
      rw k.queue
        (entries_later s.next_sequence t.next_sequence s.pending_reliable k.later q.entries);
}

-- A check leaves the session alone, so only the step behind it matters.
pub check_then-IsQueue :
    {A B : Type 0} (r : Outcome RudpError A) (s : CultNetRudpSession) (f : A → Run B)
    → IsQueue s
    → ((a : A) → IsQueue (f a s).1)
    → IsQueue (then_run (r, s) f).1
check_then-IsQueue (ok a) s f q h = h a
check_then-IsQueue (err e) s f q h = q
check_then-IsQueue panic s f q h = q

pub then_return-IsQueue :
    {A B : Type 0} (r : Outcome RudpError A × CultNetRudpSession) (g : A → B)
    → IsQueue r.1
    → IsQueue (then_run r (λ a t. (ok (g a), t))).1
then_return-IsQueue (ok a, s) g q = q
then_return-IsQueue (err e, s) g q = q
then_return-IsQueue (panic, s) g q = q

-- Room for `count` packets that are tracked if they are reliable.
abbrev pub Room : Bool → ℕ → CultNetRudpSession → Type 0
Room false count s = Unit
Room true count s = AtMost s.max_pending_reliable_packets (length s.pending_reliable + count)

pub record IsReady (reliable : Bool) (count : ℕ) (s : CultNetRudpSession) : Type 0 where
  pub queue : IsQueue s
  pub room : Room reliable count s

-- The session after a packet has been made and, if it is reliable, tracked.
abbrev pub after_packet : Draft → CultNetRudpSendOptions → CultNetRudpSession → CultNetRudpSession
after_packet d options s =
    let t = record s { next_sequence = s.next_sequence + 1 } in
    if d.reliable then track_reliable options (stamp d s) t else t

pub after_packet-IsReady :
    (reliable : Bool) (d : Draft) (options : CultNetRudpSendOptions) (count : ℕ)
    (s : CultNetRudpSession)
    → d.reliable ≡ reliable
    → IsReady reliable (suc count) s
    → IsReady reliable count (after_packet d options s)
unfolding track_reliable stamp
after_packet-IsReady false d options count s e r = rw e (record {
  queue = record {
    bounded = r.queue.bounded;
    entries =
        entries_later s.next_sequence (s.next_sequence + 1) s.pending_reliable (omega arith)
          r.queue.entries;
  };
  room = tt;
})
after_packet-IsReady true d options count s e r =
    let entries =
      entries_later s.next_sequence (s.next_sequence + 1) s.pending_reliable (omega arith)
        r.queue.entries in
    let longer =
      λ (v : PendingReliablePacket). length-insert-le s.next_sequence v s.pending_reliable in
    rw e (record {
      queue = record {
        bounded = AtMost-le s.max_pending_reliable_packets _ _ (omega (arith, longer _)) r.room;
        entries =
            All-insert (IsEntry (s.next_sequence + 1)) s.next_sequence _ s.pending_reliable entries
              (refl, refl, omega arith);
      };
      room = AtMost-le s.max_pending_reliable_packets _ _ (omega (arith, longer _)) r.room;
    })

pub create_then-IsQueue :
    {B : Type 0} (d : Draft) (s : CultNetRudpSession) (f : CultNetRudpPacket → Run B)
    → IsQueue s
    → IsQueue (f (stamp d s) (record s { next_sequence = s.next_sequence + 1 })).1
    → IsQueue (then_run (create_packet_with_fragments d s) f).1
unfolding create_packet_with_fragments
create_then-IsQueue d s f q h = elim (Bool-cases (ltb s.next_sequence 0xffff_ffff)) [
  | inl more ↦ rw more h
  | inr last ↦ rw last q
]

AtMost-of_exceeds :
    (limit : Option ℕ) (pending count : ℕ)
    → exceeds pending count limit ≡ false
    → AtMost limit (pending + count)
unfolding exceeds
AtMost-of_exceeds none pending count h = tt
AtMost-of_exceeds (some limit) pending count h = ground arith

pub capacity_then-IsQueue :
    {B : Type 0} (reliable : Bool) (count : ℕ) (s : CultNetRudpSession) (f : Unit {0} → Run B)
    → IsQueue s
    → (IsReady reliable count s → IsQueue (f tt s).1)
    → IsQueue (then_run (ensure_reliable_capacity (if reliable then count else 0) s, s) f).1
unfolding ensure_reliable_capacity
capacity_then-IsQueue false count s f q h = h (record { queue = q; room = tt })
capacity_then-IsQueue true count s f q h = elim (Bool-cases (count == 0)) [
  | inl zero_count ↦ rw zero_count (
      h (record {
        queue = q;
        room = AtMost-le s.max_pending_reliable_packets _ _ (ground arith) q.bounded;
      }))
  | inr some_count ↦
      rw some_count
        (elim (Bool-cases
          (exceeds (length s.pending_reliable) count s.max_pending_reliable_packets)) [
            | inl full ↦ rw full q
            | inr free ↦ rw free (
                h (record {
                  queue = q;
                  room =
                      AtMost-of_exceeds s.max_pending_reliable_packets (length s.pending_reliable)
                        count free;
                }))
          ])
]

pub purge-IsQueue :
    (now_ms : ℕ) (s : CultNetRudpSession) → IsQueue s → IsQueue (purge_expired_reliable now_ms s)
unfolding purge_expired_reliable
purge-IsQueue now_ms s q = record {
  bounded =
      AtMost-le s.max_pending_reliable_packets _ _
        (length-retain-le (is_alive now_ms) s.pending_reliable) q.bounded;
  entries = All-retain (IsEntry s.next_sequence) (is_alive now_ms) s.pending_reliable q.entries;
}

pub apply_mask_loop-entries :
    (rounds bit ack mask next : ℕ) (m : BTreeMap ℕ PendingReliablePacket)
    → All (IsEntry next) m
    → All (IsEntry next) (apply_mask_loop rounds bit ack mask m)
      × (length (apply_mask_loop rounds bit ack mask m) ≤ length m)
unfolding apply_mask_loop
apply_mask_loop-entries zero bit ack mask next m h = (h, omega arith)
apply_mask_loop-entries (suc rounds) bit ack mask next m h =
    elim (Bool-cases (has_bit mask bit && ltb bit ack)) [
      | inl acked ↦
          let less = remove (ack - bit - 1) m in
          let (kept, shorter) =
            apply_mask_loop-entries rounds (bit + 1) ack mask next less
              (All-remove (IsEntry next) (ack - bit - 1) m h) in
          rw acked (kept, omega (arith, length-remove-le (ack - bit - 1) m))
      | inr open_bit ↦ rw open_bit (apply_mask_loop-entries rounds (bit + 1) ack mask next m h)
    ]
