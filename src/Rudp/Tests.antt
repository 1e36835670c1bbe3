-- ===== src/Rudp/Tests.antt =====
-- src/rudp.rs: runs of packets and sessions on concrete values.
use cultnet_rs.Base.{
  length, ◌^◌, ℕ, suc, ap, leb, ◌&&◌, if◌then◌else◌, ◌+◌, ◌≤◌, ◌<◌, ◌≡◌, refl, arith, List, [], ◌∷◌,
  true, false, All,
}
use cultnet_rs.Base.{none, some, zero}
use cultnet_rs.Base.Outcome.{ok, err, ◌>>=◌}
use cultnet_rs.Base.BTreeMap.{get, contains_key, retain}
use cultnet_rs.Base.Order.{nat_ord, bytes_ord}
use cultnet_rs.Base.Bytes.{IsByte, from_be_bytes}
use cultnet_rs.Base.Text.{codes, is_utf8, chars?}
use mathlib.Core.Logic.{◌↔◌, ◌⊎◌}
use cultnet_rs.Rudp.Timers.{due_resends}
use cultnet_rs.Rudp.Timers.Resends.{Ascends, Waits, due_now, Resent, due_resends-Ascends}
use cultnet_rs.Rudp.Packet
use cultnet_rs.Rudp.Packet.{CultNetRudpPacket, CultNetRudpPacketType, IsTyped}
use cultnet_rs.Rudp.Codec.{encode_rudp_packet, decode_rudp_packet, packet_of}
use cultnet_rs.Rudp.Codec.RoundTrip.{decode-encode}
use cultnet_rs.Rudp.Codec.Reject.{decode-encode_long_channel, decode-IsTyped, decode-encode-decode}
use cultnet_rs.Rudp.State.{CultNetRudpSession, CultNetRudpSendOptions, CultNetRudpSessionOptions}
use cultnet_rs.Rudp.State.{new, u16_max}
use cultnet_rs.Rudp.State.{CultNetRudpDeliveredFrame, PendingReliablePacket}
use cultnet_rs.Rudp.Acks.{
  remember_received, apply_acknowledgements, ack_state, ack_mask_loop, set_bit,
}
use cultnet_rs.Rudp.Acks.Laws.{
  remember_received-TracksHighest, get-apply_acknowledgements, TracksHighest,
}
use cultnet_rs.Rudp.Create.{ensure_reliable_capacity, purge_expired_reliable, exceeds}
use cultnet_rs.Rudp.Ordered.Drain.{Expects, Advances}
use cultnet_rs.Rudp.Ordered.Deliver.{deliver_all, deliver_all-Advances}
use cultnet_rs.Rudp.Send.{allocate_fragment_id, div_ceil, send_many}
use cultnet_rs.Rudp.Send.Split.{IsSplit, payload_of}
use cultnet_rs.Rudp.Send.Bounds.{send_many-IsSplit, allocate_fragment_id-bounds}
use cultnet_rs.Rudp.Queue.Invariant.{IsQueue}
use cultnet_rs.Rudp.Queue.Steps.{Reach, starts, steps, connects, Reach-IsQueue}
use cultnet_rs.Rudp.Create.{create_connect}

abbrev pub packet : CultNetRudpPacketType → ℕ → List ℕ → List ℕ → CultNetRudpPacket
packet packet_type sequence channel_id payload = record {
  packet_type = packet_type;
  connection_id = 7;
  sequence = sequence;
  ack = 0;
  ack_mask = 0;
  channel_id = channel_id;
  reliable = true;
  ordered = true;
  sequenced = false;
  fragment_id = 0;
  fragment_index = 0;
  fragment_count = 0;
  payload = payload;
}

abbrev pub hi : CultNetRudpPacket
hi = packet Packet.data_packet 5 (codes "schema") (b'h' ∷ b'i' ∷ [])

hi-IsTyped : IsTyped hi
hi-IsTyped = record {
  connection_id-lt = omega arith;
  sequence-lt = omega arith;
  ack-lt = omega arith;
  ack_mask-lt = omega arith;
  fragment_id-lt = omega arith;
  fragment_index-lt = omega arith;
  fragment_count-lt = omega arith;
  channel_id-utf8 = unfold is_utf8 chars? in refl;
}

decode-encode_example : (encode_rudp_packet hi >>= decode_rudp_packet) ≡ ok hi
decode-encode_example = decode-encode hi hi-IsTyped (omega arith) (omega arith)

abbrev repeat : ℕ → List ℕ
repeat zero = []
repeat (suc n) = b'c' ∷ repeat n

abbrev long_channel : CultNetRudpPacket
long_channel = packet Packet.data_packet 5 (repeat 220) []

decode-encode_long_channel_example :
    (encode_rudp_packet long_channel >>= decode_rudp_packet) ≡ err Packet.header_length_mismatch
decode-encode_long_channel_example =
    decode-encode_long_channel long_channel (omega arith) (omega arith)

abbrev options : CultNetRudpSessionOptions
options = record {
  connection_id = 7;
  initial_sequence = 1;
  resend_delay_ms = 250;
  max_pending_reliable_packets = some 2;
}

abbrev pub fresh : CultNetRudpSession
fresh = record {
  connection_id = 7;
  resend_delay_ms = 250;
  max_pending_reliable_packets = some 2;
  next_sequence = 1;
  next_fragment_id = 1;
  connected = false;
  last_received_at_ms = none;
  highest_received_sequence = none;
  received_sequences = [];
  pending_reliable = [];
  ordered_next_sequence_by_channel = [];
  ordered_buffers = [];
  fragment_buffers = [];
  highest_delivered_sequenced_by_channel = [];
  reliable_packets_expired = 0;
}

new-fresh : new options ≡ fresh
unfolding new
new-fresh = refl

abbrev pub bytes : List ℕ
bytes =
    0x43 ∷ 0x4e ∷ 0x52 ∷ 0x30 ∷ 0 ∷ 4 ∷ 0 ∷ 37 ∷ 0 ∷ 0 ∷ 0 ∷ 7 ∷ 0 ∷ 0 ∷ 0 ∷ 1 ∷ 0 ∷ 0 ∷ 0 ∷ 0 ∷ 0
    ∷ 0 ∷ 0 ∷ 0 ∷ 0 ∷ 0 ∷ 0 ∷ 0 ∷ 0 ∷ 0 ∷ 0 ∷ 0 ∷ 0 ∷ 1 ∷ 1 ∷ 0 ∷ b'c' ∷ 9 ∷ []

abbrev pub decoded : CultNetRudpPacket
decoded = record {
  packet_type = Packet.ack;
  connection_id = 7;
  sequence = 1;
  ack = 0;
  ack_mask = 0;
  channel_id = b'c' ∷ [];
  reliable = false;
  ordered = false;
  sequenced = false;
  fragment_id = 0;
  fragment_index = 0;
  fragment_count = 0;
  payload = 9 ∷ [];
}

pub bytes-decoded : decode_rudp_packet bytes ≡ ok decoded
unfolding decode_rudp_packet packet_of from_be_bytes is_utf8 chars?
bytes-decoded = refl

bytes-IsByte : All IsByte bytes
bytes-IsByte = ground arith

decode-IsTyped_example : IsTyped decoded × (38 ≡ 36 + 1 + 1) × (1 ≤ 219)
decode-IsTyped_example = decode-IsTyped bytes decoded bytes-IsByte bytes-decoded

decode-encode-decode_example :
    (length decoded.payload < 2 ^ 32)
    × ((encode_rudp_packet decoded >>= decode_rudp_packet) ≡ ok decoded)
decode-encode-decode_example = decode-encode-decode bytes decoded bytes-IsByte bytes-decoded

abbrev connecting : CultNetRudpSession
connecting = (create_connect 10 [] (new options)).1

connecting-Reach : Reach options connecting
connecting-Reach = steps (new options) connecting starts (connects 10 [])

Reach-IsQueue_example : IsQueue connecting
Reach-IsQueue_example = Reach-IsQueue options connecting connecting-Reach

-- A session that has received the sequences 5 and 7, and a peer that waits for 5, 6 and 7.
abbrev receiver : CultNetRudpSession
receiver = record fresh {
  connected = true;
  highest_received_sequence = some 7;
  received_sequences = (5, tt) ∷ (7, tt) ∷ [];
}

receiver-TracksHighest : TracksHighest receiver
unfolding contains_key
receiver-TracksHighest = (refl, λ j there. ground arith)

remember_received-TracksHighest_example : TracksHighest (remember_received 9 receiver)
remember_received-TracksHighest_example =
    remember_received-TracksHighest receiver 9 receiver-TracksHighest

abbrev pending : ℕ → ℕ × PendingReliablePacket
pending sequence = (
  sequence,
  record {
    packet = packet Packet.data_packet sequence (codes "schema") [];
    last_sent_at_ms = 0;
    expires_at_ms = none;
  },
)

abbrev sender : CultNetRudpSession
sender = record fresh {
  connected = true;
  next_sequence = 8;
  max_pending_reliable_packets = none;
  pending_reliable = pending 5 ∷ pending 6 ∷ pending 7 ∷ [];
}

abbrev acknowledgement : CultNetRudpPacket
acknowledgement = record (packet Packet.ack 3 (codes "control") []) { ack = 7; ack_mask = 2 }

acknowledgement-ack_state : (7, 2) ≡ ack_state receiver
unfolding ack_state ack_mask_loop contains_key set_bit
acknowledgement-ack_state = refl

get-apply_acknowledgements_example :
    get 5 (apply_acknowledgements acknowledgement sender).pending_reliable ≡ (
      if contains_key 5 receiver.received_sequences && leb 7 (5 + 32)
      then none
      else get 5 sender.pending_reliable)
get-apply_acknowledgements_example =
    get-apply_acknowledgements receiver sender acknowledgement 7 5 receiver-TracksHighest refl
      (ap (λ a. a.0) acknowledgement-ack_state) (ap (λ a. a.1) acknowledgement-ack_state)

abbrev frame : ℕ → CultNetRudpDeliveredFrame
frame sequence = record { channel_id = codes "schema"; payload = []; sequence = sequence }

abbrev expecting : CultNetRudpSession
expecting = record fresh { ordered_next_sequence_by_channel = (codes "schema", 1) ∷ [] }

abbrev calls : List (CultNetRudpDeliveredFrame × (ℕ × ℕ))
calls = (frame 2, (3, 1)) ∷ (frame 1, (2, 1)) ∷ (frame 2, (3, 1)) ∷ []

-- Each frame names the sequence after its own.
abbrev NamesNext : CultNetRudpDeliveredFrame → ℕ → Type 0
NamesNext frame after = after ≡ frame.sequence + 1

expecting-Expects : Expects NamesNext (codes "schema") 1 expecting
unfolding get
expecting-Expects = record { expected = refl; buffered = tt }

deliver_all-Advances_example :
    Advances NamesNext
      (codes "schema")
      1
      (deliver_all calls expecting).0
      (deliver_all calls expecting).1
deliver_all-Advances_example =
    deliver_all-Advances NamesNext (codes "schema") 1 calls expecting
      ((refl, omega arith, refl), ((refl, omega arith, refl), ((refl, omega arith, refl), tt)))
      expecting-Expects (unfold get in refl)

abbrev pub online : CultNetRudpSession
online = record fresh { connected = true }

abbrev send_options : CultNetRudpSendOptions
send_options = record {
  reliable = true;
  ordered = true;
  sequenced = false;
  now_ms = 20;
  reliable_expire_after_ms = none;
}

send_many-IsSplit_example :
    (packets : List CultNetRudpPacket) × (t : CultNetRudpSession) × (send_many
        (codes "schema")
        (1 ∷ 2 ∷ 3 ∷ [])
        send_options
        (some 2)
        online
      ≡ (ok packets, t))
    × (payload_of packets ≡ 1 ∷ 2 ∷ 3 ∷ [])
    × IsSplit 2 (div_ceil 3 2) 0 1 (div_ceil 3 2) (1 ∷ 2 ∷ 3 ∷ []) packets
send_many-IsSplit_example =
    send_many-IsSplit (codes "schema") (1 ∷ 2 ∷ 3 ∷ []) send_options 2 online refl (omega arith)
      (omega arith) (unfold div_ceil in omega arith)
      (unfold div_ceil ensure_reliable_capacity purge_expired_reliable exceeds retain in refl)
      (unfold div_ceil in omega arith)

allocate_fragment_id-bounds_example :
    ((allocate_fragment_id fresh).0 ≡ ok 1)
    × (0 < (allocate_fragment_id fresh).1.next_fragment_id)
    × ((allocate_fragment_id fresh).1.next_fragment_id ≤ u16_max)
    × (((allocate_fragment_id fresh).1.next_fragment_id ≡ 2)
        ⊎ ((1 ≡ u16_max) × ((allocate_fragment_id fresh).1.next_fragment_id ≡ u16_max)))
allocate_fragment_id-bounds_example = allocate_fragment_id-bounds fresh (omega arith) (omega arith)

-- Of the three pending packets the one that was sent at 900 is not due at 1000.
abbrev waiting_sender : CultNetRudpSession
waiting_sender = record sender {
  pending_reliable =
      pending 5 ∷ (6, record (pending 6).1 { last_sent_at_ms = 900 }) ∷ pending 7 ∷ [];
}

due_resends-Ascends_example :
    Ascends 0 (due_resends 1000 waiting_sender).0
    × (Waits (due_now 1000 250) (pending 7).1.packet waiting_sender.pending_reliable
        ↔ Resent (pending 7).1.packet (due_resends 1000 waiting_sender).0)
due_resends-Ascends_example = due_resends-Ascends 1000 waiting_sender (pending 7).1.packet
