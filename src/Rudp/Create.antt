-- ===== src/Rudp/Create.antt =====
-- src/rudp.rs: single packets and the reliable queue: `create_packet_with_fragments`,
-- `track_reliable`, `ensure_reliable_capacity`, `purge_expired_reliable`, and the handshake.
use cultnet_rs.Base.{ℕ, ◌+◌, ◌-◌, min, List, []}
use cultnet_rs.Base.{Bool, true, false, ltb, leb, ◌==◌, if◌then◌else◌, Option, none, some}
use cultnet_rs.Base.{length}
use cultnet_rs.Base.Outcome.{Outcome, ok, err}
use cultnet_rs.Base.Text.{codes}
use cultnet_rs.Base.BTreeMap.{insert, retain}
use cultnet_rs.Base.Order.{nat_ord}
use cultnet_rs.Rudp.Packet
use cultnet_rs.Rudp.Packet.{CultNetRudpPacketType, CultNetRudpPacket, RudpError}
use cultnet_rs.Rudp.Packet.{send_queue_full, not_connected, zero_fragment_bytes}
use cultnet_rs.Rudp.Packet.{too_many_fragments, expected_connect, no_packets}
use cultnet_rs.Rudp.State.{CultNetRudpSession, CultNetRudpSendOptions, PendingReliablePacket}
use cultnet_rs.Rudp.State.{Run, ◌>>=◌, ◌>>◌, return, check, modify, u64_max}
use cultnet_rs.Rudp.State.{u32_succ, require_connection}
use cultnet_rs.Rudp.Acks.{ack_state, remember_received}
use mathlib.Core.Option

-- The arguments of `create_packet_with_fragments`.
pub record Draft : Type 0 where
  pub packet_type : CultNetRudpPacketType
  pub channel_id : List ℕ
  pub payload : List ℕ
  pub reliable : Bool
  pub ordered : Bool
  pub sequenced : Bool
  pub fragment_id : ℕ
  pub fragment_index : ℕ
  pub fragment_count : ℕ

-- The packet that carries the session's next sequence and its acknowledgement state.
unfoldable pub stamp : Draft → CultNetRudpSession → CultNetRudpPacket
stamp d s = record {
  packet_type = d.packet_type;
  connection_id = s.connection_id;
  sequence = s.next_sequence;
  ack = (ack_state s).0;
  ack_mask = (ack_state s).1;
  channel_id = d.channel_id;
  reliable = d.reliable;
  ordered = d.ordered;
  sequenced = d.sequenced;
  fragment_id = d.fragment_id;
  fragment_index = d.fragment_index;
  fragment_count = d.fragment_count;
  payload = d.payload;
}

unfoldable pub create_packet_with_fragments : Draft → Run CultNetRudpPacket
create_packet_with_fragments d = do
  next ← check (λ s. u32_succ s.next_sequence)
  packet ← (λ s. (ok (stamp d s), s))
  modify (λ s. record s { next_sequence = next })
  return packet

abbrev pub control : List ℕ
control = codes "control"

-- The draft of a packet that is no fragment.
abbrev pub whole : CultNetRudpPacketType → List ℕ → List ℕ → Bool → Bool → Bool → Draft
whole packet_type channel_id payload reliable ordered sequenced = record {
  packet_type = packet_type;
  channel_id = channel_id;
  payload = payload;
  reliable = reliable;
  ordered = ordered;
  sequenced = sequenced;
  fragment_id = 0;
  fragment_index = 0;
  fragment_count = 0;
}

abbrev pub create_packet : Draft → Run CultNetRudpPacket
create_packet = create_packet_with_fragments

unfoldable pub track_reliable :
    CultNetRudpSendOptions → CultNetRudpPacket → CultNetRudpSession → CultNetRudpSession
track_reliable options packet s =
    let expires_at_ms : Option ℕ =
      Option.map (λ ttl. min (options.now_ms + ttl) u64_max) options.reliable_expire_after_ms in
    record s {
      pending_reliable =
          insert packet.sequence
            (record {
              packet = packet;
              last_sent_at_ms = options.now_ms;
              expires_at_ms = expires_at_ms;
            })
            s.pending_reliable;
    }

unfoldable pub exceeds : ℕ → ℕ → Option ℕ → Bool
exceeds pending packet_count none = false
exceeds pending packet_count (some limit) = ltb limit (pending + packet_count)

unfoldable pub ensure_reliable_capacity : ℕ → CultNetRudpSession → Outcome RudpError (Unit {0})
unfolding exceeds
ensure_reliable_capacity packet_count s =
    if packet_count == 0
    then ok tt
    else if exceeds (length s.pending_reliable) packet_count s.max_pending_reliable_packets
    then err send_queue_full
    else ok tt

-- Is the packet still to be sent again at `now_ms`?
unfoldable pub is_alive : ℕ → PendingReliablePacket → Bool
is_alive now_ms pending = elim pending.expires_at_ms [
  | none ↦ true
  | some expires_at_ms ↦ leb now_ms expires_at_ms
]

unfoldable pub purge_expired_reliable : ℕ → CultNetRudpSession → CultNetRudpSession
unfolding is_alive
purge_expired_reliable now_ms s =
    let kept = retain (is_alive now_ms) s.pending_reliable in
    record s {
      pending_reliable = kept;
      reliable_packets_expired =
          s.reliable_packets_expired + (length s.pending_reliable - length kept);
    }

-- The options under which the handshake packets are tracked.
abbrev pub handshake_options : ℕ → CultNetRudpSendOptions
handshake_options now_ms = record {
  reliable = true;
  ordered = true;
  sequenced = false;
  now_ms = now_ms;
  reliable_expire_after_ms = none;
}

unfoldable pub create_connect : ℕ → List ℕ → Run CultNetRudpPacket
create_connect now_ms payload = do
  check (ensure_reliable_capacity 1)
  packet ← create_packet (whole Packet.connect control payload true true false)
  modify (track_reliable (handshake_options now_ms) packet)
  return packet

abbrev pub is_connect : CultNetRudpPacketType → Bool
is_connect Packet.connect = true
is_connect other = false

abbrev pub unless_connected : Bool → Run (Unit {0}) → Run (Unit {0})
unless_connected was_connected step s = if was_connected then (ok tt, s) else step s

-- `accept_connect` behind its two checks.
unfoldable pub accept_response : CultNetRudpPacket → ℕ → List ℕ → Bool → Run CultNetRudpPacket
accept_response packet now_ms payload was_connected = do
  unless_connected was_connected (check (ensure_reliable_capacity 1))
  modify (remember_received packet.sequence)
  modify (λ s. record s { last_received_at_ms = some now_ms; connected = true })
  response ← create_packet (whole Packet.accept control payload true true false)
  unless_connected was_connected (modify (track_reliable (handshake_options now_ms) response))
  return response

unfoldable pub accept_connect : CultNetRudpPacket → ℕ → List ℕ → Run CultNetRudpPacket
accept_connect packet now_ms payload = do
  check (require_connection packet)
  check (λ s. if is_connect packet.packet_type then ok tt else err expected_connect)
  was_connected ← (λ s. (ok s.connected, s))
  accept_response packet now_ms payload was_connected

unfoldable pub create_ack : Run CultNetRudpPacket
create_ack = create_packet (whole Packet.ack control [] false false false)

unfoldable pub create_ping : List ℕ → Run CultNetRudpPacket
create_ping payload = create_packet (whole Packet.ping control payload false false false)

unfoldable pub create_disconnect : List ℕ → Run CultNetRudpPacket
create_disconnect reason = do
  modify (λ s. record s { connected = false })
  create_packet (whole Packet.disconnect control reason false false false)
