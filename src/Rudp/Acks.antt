-- ===== src/Rudp/Acks.antt =====
-- src/rudp.rs: the acknowledgement state: `remember_received`, `ack_state`,
-- `apply_acknowledgements`.
pub mod Bits
pub mod Laws
use cultnet_rs.Base.{ℕ, zero, suc, ◌+◌, ◌-◌, ◌*◌, ◌/◌, ◌%◌, Bool, true, false, ◌&&◌, ltb, ◌==◌}
use cultnet_rs.Base.{Option, none, some, if◌then◌else◌}
use cultnet_rs.Base.BTreeMap.{BTreeMap, insert, remove, contains_key}
use cultnet_rs.Base.Order.{nat_ord}
use cultnet_rs.Rudp.Packet.{CultNetRudpPacket}
use cultnet_rs.Rudp.State.{CultNetRudpSession, PendingReliablePacket}
use mathlib.Core.Option

-- `mask & (1 << bit) != 0`.
unfoldable pub has_bit : ℕ → ℕ → Bool
has_bit mask zero = mask % 2 == 1
has_bit mask (suc bit) = has_bit (mask / 2) bit

-- `mask | (1 << bit)`.
unfoldable pub set_bit : ℕ → ℕ → ℕ
set_bit mask zero = if mask % 2 == 1 then mask else mask + 1
set_bit mask (suc bit) = set_bit (mask / 2) bit * 2 + mask % 2

-- The highest of the sequences received so far and a new one.
unfoldable pub raise_highest : Option ℕ → ℕ → Option ℕ
raise_highest none sequence = some sequence
raise_highest (some highest) sequence = if ltb highest sequence then some sequence else some highest

unfoldable pub remember_received : ℕ → CultNetRudpSession → CultNetRudpSession
unfolding raise_highest
remember_received sequence s = record s {
  received_sequences = insert sequence tt s.received_sequences;
  highest_received_sequence = raise_highest s.highest_received_sequence sequence;
}

-- The loop of `ack_state` over `rounds` bits from `bit` on.
unfoldable pub ack_mask_loop : ℕ → ℕ → ℕ → BTreeMap ℕ (Unit {0}) → ℕ → ℕ
ack_mask_loop zero bit ack received mask = mask
ack_mask_loop (suc rounds) bit ack received mask =
    ack_mask_loop rounds (bit + 1) ack received
      (if ltb bit ack && contains_key (ack - bit - 1) received then set_bit mask bit else mask)

unfoldable pub ack_state : CultNetRudpSession → ℕ × ℕ
ack_state s =
    let ack = Option.get_or s.highest_received_sequence 0 in
    (ack, ack_mask_loop 32 0 ack s.received_sequences 0)

-- The loop of `apply_acknowledgements` over `rounds` bits from `bit` on.
unfoldable pub apply_mask_loop :
    ℕ → ℕ → ℕ → ℕ → BTreeMap ℕ PendingReliablePacket → BTreeMap ℕ PendingReliablePacket
apply_mask_loop zero bit ack mask pending = pending
apply_mask_loop (suc rounds) bit ack mask pending =
    apply_mask_loop rounds (bit + 1) ack mask
      (if has_bit mask bit && ltb bit ack then remove (ack - bit - 1) pending else pending)

unfoldable pub apply_acknowledgements : CultNetRudpPacket → CultNetRudpSession → CultNetRudpSession
apply_acknowledgements packet s = record s {
  pending_reliable =
      apply_mask_loop 32 0 packet.ack packet.ack_mask (remove packet.ack s.pending_reliable);
}
