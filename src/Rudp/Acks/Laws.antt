-- ===== src/Rudp/Acks/Laws.antt =====
-- src/rudp.rs: what one side's acknowledgement removes from the other side's pending packets.
use cultnet_rs.Base.{ℕ, zero, suc, ◌+◌, ◌-◌, ◌≤◌, ◌≡◌, refl, arith}
use cultnet_rs.Base.{true, false, ◌&&◌, ltb, leb, if◌then◌else◌}
use cultnet_rs.Base.{[], Option, none, some, inl, inr, Bool-cases}
use cultnet_rs.Base.BTreeMap.{BTreeMap, get, insert, remove, contains_key, get-remove}
use cultnet_rs.Base.BTreeMap.{contains_key-insert}
use cultnet_rs.Base.Order.{nat_ord}
use cultnet_rs.Rudp.Packet.{CultNetRudpPacket}
use cultnet_rs.Rudp.State.{CultNetRudpSession}
use cultnet_rs.Rudp.Acks.{has_bit, remember_received, raise_highest, ack_mask_loop, ack_state}
use cultnet_rs.Rudp.Acks.{apply_acknowledgements}
use cultnet_rs.Rudp.Acks.Bits.{has_bit-ack_mask_loop, get-apply_mask_loop}

has_bit-zero : (bit : ℕ) → has_bit 0 bit ≡ false
unfolding has_bit
has_bit-zero zero = refl
has_bit-zero (suc bit) = has_bit-zero bit

-- `highest` is the greatest of the received sequences, if there is one.
abbrev pub IsHighest : Option ℕ → BTreeMap ℕ (Unit {0}) → Type 0
IsHighest none received = received ≡ []
IsHighest (some highest) received =
    (contains_key highest received ≡ true)
    × ((j : ℕ) → contains_key j received ≡ true → j ≤ highest)

abbrev pub TracksHighest : CultNetRudpSession → Type 0
TracksHighest s = IsHighest s.highest_received_sequence s.received_sequences

contains_key-nil :
    (j : ℕ) (received : BTreeMap ℕ (Unit {0})) → received ≡ [] → contains_key j received ≡ false
unfolding contains_key
contains_key-nil j received e = rw e

IsHighest-insert :
    (highest : Option ℕ) (received : BTreeMap ℕ (Unit {0})) (sequence : ℕ)
    → IsHighest highest received
    → IsHighest (raise_highest highest sequence) (insert sequence tt received)
unfolding raise_highest
IsHighest-insert none received sequence h = (
  ground (arith, contains_key-insert sequence sequence tt received),
  λ j there.
      ground (arith, contains_key-insert sequence j tt received, contains_key-nil j received h),
)
IsHighest-insert (some highest) received sequence h = elim (Bool-cases (ltb highest sequence)) [
  | inl above ↦ rw above (
    ground (arith, contains_key-insert sequence sequence tt received),
    λ j there. ground (arith, h.1 j, contains_key-insert sequence j tt received),
  )
  | inr below ↦ rw below (
    ground (arith, h.0, contains_key-insert sequence highest tt received),
    λ j there. ground (arith, h.1 j, contains_key-insert sequence j tt received),
  )
]

-- Each sequence that is remembered keeps the highest one the greatest of all.
pub remember_received-TracksHighest :
    (s : CultNetRudpSession) (sequence : ℕ)
    → TracksHighest s
    → TracksHighest (remember_received sequence s)
unfolding remember_received
remember_received-TracksHighest s sequence h =
    IsHighest-insert s.highest_received_sequence s.received_sequences sequence h

-- A packet that carries the receiver's acknowledgement state makes the sender forget the pending
-- sequences that the receiver has received and that are at most 32 below its highest one, and no
-- others. (The receiver has received a packet.)
pub get-apply_acknowledgements :
    (receiver sender : CultNetRudpSession) (packet : CultNetRudpPacket) (highest j : ℕ)
    → TracksHighest receiver
    → receiver.highest_received_sequence ≡ some highest
    → packet.ack ≡ (ack_state receiver).0
    → packet.ack_mask ≡ (ack_state receiver).1
    → get j (apply_acknowledgements packet sender).pending_reliable ≡ (
        if contains_key j receiver.received_sequences && leb highest (j + 32)
        then none
        else get j sender.pending_reliable)
unfolding apply_acknowledgements ack_state
get-apply_acknowledgements receiver sender packet highest j tracks known ack mask =
    let h : IsHighest (some highest) receiver.received_sequences = rw known at tracks in
    rw (ack, mask, known)
      (ground (
        arith,
        h.0,
        h.1 j,
        get-remove highest j sender.pending_reliable,
        get-apply_mask_loop 32 0 highest (ack_mask_loop 32 0 highest receiver.received_sequences 0)
            (remove highest sender.pending_reliable) j,
        has_bit-ack_mask_loop 32 0 highest receiver.received_sequences 0 (highest - j - 1),
        has_bit-zero (highest - j - 1),
      ))
