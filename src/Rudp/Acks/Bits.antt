-- ===== src/Rudp/Acks/Bits.antt =====
-- src/rudp.rs: the bits that the two loops over an acknowledgement mask set and test.
use cultnet_rs.Base.{ℕ, zero, suc, ◌+◌, ◌-◌, ◌/◌, ◌≡◌, arith}
use cultnet_rs.Base.{true, ◌&&◌, ltb, leb, ◌==◌, if◌then◌else◌, none}
use cultnet_rs.Base.BTreeMap.{BTreeMap, get, remove, contains_key, get-remove}
use cultnet_rs.Base.Order.{nat_ord}
use cultnet_rs.Rudp.State.{PendingReliablePacket}
use cultnet_rs.Rudp.Acks.{has_bit, set_bit, ack_mask_loop, apply_mask_loop}

pub has_bit-set_bit :
    (mask b c : ℕ) → has_bit (set_bit mask b) c ≡ (if b == c then true else has_bit mask c)
unfolding has_bit set_bit
has_bit-set_bit mask zero zero = ground arith
has_bit-set_bit mask zero (suc c) = ground arith
has_bit-set_bit mask (suc b) zero = ground arith
has_bit-set_bit mask (suc b) (suc c) = ground (arith, has_bit-set_bit (mask / 2) b c)

-- Bit `c` is set if it was, or if the loop reaches it and the sequence `c + 1` below `ack` is known.
pub has_bit-ack_mask_loop :
    (rounds bit ack : ℕ) (received : BTreeMap ℕ (Unit {0})) (mask c : ℕ)
    → has_bit (ack_mask_loop rounds bit ack received mask) c ≡ (
        if leb bit c && ltb c (bit + rounds) && ltb c ack && contains_key (ack - c - 1) received
        then true
        else has_bit mask c)
unfolding ack_mask_loop
has_bit-ack_mask_loop zero bit ack received mask c = ground arith
has_bit-ack_mask_loop (suc rounds) bit ack received mask c = ground (
  arith,
  has_bit-ack_mask_loop rounds (bit + 1) ack received mask c,
  has_bit-ack_mask_loop rounds (bit + 1) ack received (set_bit mask bit) c,
  has_bit-set_bit mask bit c,
)

-- Sequence `j` is dropped if the loop reaches its bit and the bit is set.
pub get-apply_mask_loop :
    (rounds bit ack mask : ℕ) (pending : BTreeMap ℕ PendingReliablePacket) (j : ℕ)
    → get j (apply_mask_loop rounds bit ack mask pending) ≡ (
        if ltb j ack
          && leb bit (ack - j - 1)
          && ltb (ack - j - 1) (bit + rounds)
          && has_bit mask (ack - j - 1)
        then none
        else get j pending)
unfolding apply_mask_loop
get-apply_mask_loop zero bit ack mask pending j = ground arith
get-apply_mask_loop (suc rounds) bit ack mask pending j = ground (
  arith,
  get-apply_mask_loop rounds (bit + 1) ack mask pending j,
  get-apply_mask_loop rounds (bit + 1) ack mask (remove (ack - bit - 1) pending) j,
  get-remove (ack - bit - 1) j pending,
)
