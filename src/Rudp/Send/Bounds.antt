-- ===== src/Rudp/Send/Bounds.antt =====
-- src/rudp.rs: `send_many` on a payload that is too long for one packet, and the fragment ids.
use cultnet_rs.Base.{ℕ, ◌+◌, ◌*◌, ◌≤◌, ◌<◌, min, ◌≡◌, refl, ap, ◌∙◌, arith, List}
use cultnet_rs.Base.{◌⊎◌, inl, inr, Bool-cases}
use cultnet_rs.Base.{true, false, some, ltb, ◌==◌, if◌then◌else◌, length, take, drop}
use cultnet_rs.Base.Outcome.{ok}
use cultnet_rs.Rudp.Packet.{CultNetRudpPacket}
use cultnet_rs.Rudp.State.{u16_max, u32_max, CultNetRudpSession, CultNetRudpSendOptions}
use cultnet_rs.Rudp.Create.{ensure_reliable_capacity, purge_expired_reliable}
use cultnet_rs.Rudp.Send.{allocate_fragment_id, send_fragments, div_ceil, send_many, send_data}
use cultnet_rs.Rudp.Send.{send_split}
use cultnet_rs.Rudp.Send.Split.{payload_of, IsSplit, send_fragments-IsSplit, send_fragments-ok}
use cultnet_rs.Rudp.Send.Split.{div_ceil-mul, take_all}

-- The session in which the fragments are made.
abbrev allocated : CultNetRudpSession → CultNetRudpSession
allocated s =
    let next = min (s.next_fragment_id + 1) u16_max in
    record s { next_fragment_id = if next == 0 then 1 else next }

send_many-split :
    (channel_id payload : List ℕ) (options : CultNetRudpSendOptions) (max_bytes : ℕ)
    (s : CultNetRudpSession)
    → s.connected ≡ true
    → 0 < max_bytes
    → max_bytes < length payload
    → div_ceil (length payload) max_bytes ≤ u16_max
    → ensure_reliable_capacity
        (if options.reliable then div_ceil (length payload) max_bytes else 0)
        (purge_expired_reliable options.now_ms s)
      ≡ ok tt
    → send_many channel_id payload options (some max_bytes) s
      ≡ send_fragments
          (div_ceil (length payload) max_bytes)
          0
          channel_id
          payload
          options
          max_bytes
          s.next_fragment_id
          (div_ceil (length payload) max_bytes)
          (allocated (purge_expired_reliable options.now_ms s))
unfolding send_many send_data send_split allocate_fragment_id purge_expired_reliable
    ensure_reliable_capacity send_fragments
send_many-split channel_id payload options max_bytes s online positive long fits room =
    let some_bytes : (max_bytes == 0) ≡ false = ground arith in
    let split : ltb max_bytes (length payload) ≡ true = ground arith in
    let few : ltb u16_max (div_ceil (length payload) max_bytes) ≡ false = ground arith in
    rw (online, some_bytes, split, few, room) refl

-- On a connected session, a payload that is longer than a positive `max_fragment_bytes`, whose
-- fragments are no more than 65535, have room in the reliable queue if they are reliable (after the expired
-- packets are dropped), and get sequences below 2^32 - 1: `send_many` succeeds with as many packets as the
-- payload has pieces, rounded up; their payloads put together are the payload, none is longer than
-- `max_fragment_bytes`, all carry the session's next fragment id and their number, and their indices are 0, 1 and
-- so on, in the order of the pieces.
pub send_many-IsSplit :
    (channel_id payload : List ℕ) (options : CultNetRudpSendOptions) (max_bytes : ℕ)
    (s : CultNetRudpSession)
    → s.connected ≡ true
    → 0 < max_bytes
    → max_bytes < length payload
    → div_ceil (length payload) max_bytes ≤ u16_max
    → ensure_reliable_capacity
        (if options.reliable then div_ceil (length payload) max_bytes else 0)
        (purge_expired_reliable options.now_ms s)
      ≡ ok tt
    → s.next_sequence + div_ceil (length payload) max_bytes ≤ u32_max
    → (packets : List CultNetRudpPacket) × (t : CultNetRudpSession) × (send_many channel_id payload
          options
          (some max_bytes)
          s
        ≡ (ok packets, t))
      × (payload_of packets ≡ payload)
      × IsSplit max_bytes
          (div_ceil (length payload) max_bytes)
          0
          s.next_fragment_id
          (div_ceil (length payload) max_bytes)
          payload
          packets
unfolding purge_expired_reliable
send_many-IsSplit channel_id payload options max_bytes s online positive long fits room last =
    let count = div_ceil (length payload) max_bytes in
    let u = allocated (purge_expired_reliable options.now_ms s) in
    let (packets, t, sent) =
      send_fragments-ok count 0 channel_id payload options max_bytes s.next_fragment_id count u
        last in
    let parts =
      send_fragments-IsSplit count 0 channel_id payload options max_bytes s.next_fragment_id count u
        t packets sent in
    let whole =
      take_all (count * max_bytes) payload (div_ceil-mul (length payload) max_bytes positive) in
    let start : 0 * max_bytes ≡ 0 = omega arith in
    let joined = parts.joined ∙ ap (λ n. take (count * max_bytes) (drop n payload)) start ∙ whole in
    (
      packets,
      t,
      send_many-split channel_id payload options max_bytes s online positive long fits room ∙ sent,
      joined,
      parts,
    )

-- A fragment id that is not 0 and fits into 16 bits: it is the one given out, the next one is no 0
-- either and fits as well; it is one more, except that after 65535 it is 65535 again.
pub allocate_fragment_id-bounds :
    (s : CultNetRudpSession)
    → 0 < s.next_fragment_id
    → s.next_fragment_id ≤ u16_max
    → ((allocate_fragment_id s).0 ≡ ok s.next_fragment_id)
      × (0 < (allocate_fragment_id s).1.next_fragment_id)
      × ((allocate_fragment_id s).1.next_fragment_id ≤ u16_max)
      × (((allocate_fragment_id s).1.next_fragment_id ≡ s.next_fragment_id + 1)
          ⊎ ((s.next_fragment_id ≡ u16_max)
              × ((allocate_fragment_id s).1.next_fragment_id ≡ u16_max)))
unfolding allocate_fragment_id
allocate_fragment_id-bounds s h k = (
  refl,
  ground arith,
  ground arith,
  elim (Bool-cases (s.next_fragment_id == u16_max)) [
    | inl last ↦ inr (ground arith, ground arith)
    | inr below ↦ inl (ground arith)
  ],
)
