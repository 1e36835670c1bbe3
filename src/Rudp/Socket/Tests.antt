-- ===== src/Rudp/Socket/Tests.antt =====
-- src/rudp.rs: the transport over a UDP socket, and its channels, on concrete values.
use cultnet_rs.Base.{
  ℕ, ◌≡◌, ◌≢◌, true, false, refl, List, [], ◌∷◌, none, some, All, IsOneOf, map, inl, inr, length,
}
use cultnet_rs.Base.Outcome.{Outcome, ok, err}
use cultnet_rs.Base.Bytes.{from_be_bytes}
use cultnet_rs.Base.Order.{pair_eq_iff, bytes_ord, nat_ord}
use cultnet_rs.Base.Text.{codes, is_utf8, chars?}
use cultnet_rs.Rudp.Packet
use cultnet_rs.Rudp.Packet.{CultNetRudpPacket, RudpError}
use cultnet_rs.Rudp.Codec.{decode_rudp_packet, packet_of}
use cultnet_rs.Rudp.State.{require_connection}
use cultnet_rs.Rudp.Profile.{RudpTransportProfileOptions, create_rudp_transport_profile}
use cultnet_rs.Rudp.Profile.{channel_send_options}
use cultnet_rs.Rudp.Socket.Channels.{options_on, channels_of, IsSentOn, send_many-IsSentOn}
use cultnet_rs.Rudp.Send.{send_many, send_data, send_whole}
use cultnet_rs.Rudp.Create.{
  purge_expired_reliable, ensure_reliable_capacity, create_packet_with_fragments, stamp,
}
use cultnet_rs.Rudp.Acks.{ack_state, ack_mask_loop}
use cultnet_rs.Transport
use cultnet_rs.Base.BTreeMap.{retain}
use cultnet_rs.Rudp.Socket.{
  CultNetRudpSocketTransportOptions, client_options, new, SocketAddr, Connection, server, client,
}
use cultnet_rs.Rudp.Socket.Receive.{datagram, receive_once, addr_eq}
use cultnet_rs.Rudp.Socket.Takeover.{
  counted, receive_all, total_bytes, receive_all-strangers, receive_once-takeover,
}
use cultnet_rs.Rudp.Tests.{online, bytes, decoded}
use cultnet_rs.Transport.{CultNetTransportDescriptor, CultNetTransportChannel, no_stats}

abbrev profile_options : RudpTransportProfileOptions
profile_options = record {
  transport_id = none;
  host = some (codes "127.0.0.1");
  port = some 9000;
  max_payload_bytes = none;
  max_fragment_bytes = some 1200;
  max_pending_reliable_packets = none;
  media_reliable_expire_after_ms = some 75;
}

abbrev peer : SocketAddr
peer = (codes "10.0.0.1", 5000)

abbrev stranger : SocketAddr
stranger = (codes "10.0.0.2", 5000)

abbrev at_server : Connection
at_server = record {
  session = online;
  mode = server;
  remote_addr = some peer;
  profile = create_rudp_transport_profile (codes "node") profile_options;
  stats = no_stats;
  delivered_frames = [];
  max_fragment_bytes = some 1200;
  media_reliable_expire_after_ms = some 75;
  disconnect_reason = none;
  pong_payloads = [];
  sent = [];
}

abbrev all_sent : List ℕ → SocketAddr → Outcome RudpError ℕ
all_sent wire remote = ok (length wire)

abbrev at_client : Connection
at_client = record at_server { mode = client }

stranger_differs : stranger ≢ peer
stranger_differs e =
    let same : addr_eq stranger peer ≡ true =
      (pair_eq_iff {A = List ℕ} {B = ℕ} stranger peer).1 e in
    cc

-- A packet, and a byte that is none.
abbrev arrivals : List (ℕ × (List ℕ × SocketAddr))
arrivals = (40, (bytes, stranger)) ∷ (41, (7 ∷ [], stranger)) ∷ []

receive_all-strangers_example :
    receive_all all_sent arrivals at_client
    ≡ record at_client { stats = record no_stats { bytes_received = total_bytes arrivals } }
receive_all-strangers_example =
    receive_all-strangers all_sent arrivals peer at_client refl refl refl
      (stranger_differs, (stranger_differs, tt))

-- A `Connect` packet with the connection id 9.
abbrev connect_bytes : List ℕ
connect_bytes =
    0x43 ∷ 0x4e ∷ 0x52 ∷ 0x30 ∷ 0 ∷ 1 ∷ 0 ∷ 37 ∷ 0 ∷ 0 ∷ 0 ∷ 9 ∷ 0 ∷ 0 ∷ 0 ∷ 1 ∷ 0 ∷ 0 ∷ 0 ∷ 0 ∷ 0
    ∷ 0 ∷ 0 ∷ 0 ∷ 0 ∷ 0 ∷ 0 ∷ 0 ∷ 0 ∷ 0 ∷ 0 ∷ 0 ∷ 0 ∷ 1 ∷ 1 ∷ 0 ∷ b'c' ∷ 9 ∷ []

abbrev other_connect : CultNetRudpPacket
other_connect = record decoded { packet_type = Packet.connect; connection_id = 9 }

connect_bytes-decoded : decode_rudp_packet connect_bytes ≡ ok other_connect
unfolding decode_rudp_packet packet_of from_be_bytes is_utf8 chars?
connect_bytes-decoded = refl

receive_once-takeover_example :
    receive_once all_sent 40 (datagram connect_bytes stranger) at_server ≡ (
      err Packet.connection_id_mismatch,
      record (counted connect_bytes at_server) {
        remote_addr = some stranger;
        session = record online {
          connected = false;
          last_received_at_ms = none;
          highest_received_sequence = none;
          received_sequences = [];
          pending_reliable = [];
          ordered_next_sequence_by_channel = [];
          ordered_buffers = [];
          fragment_buffers = [];
          highest_delivered_sequenced_by_channel = [];
        };
      },
    )
receive_once-takeover_example =
    receive_once-takeover all_sent 40 connect_bytes other_connect peer stranger at_server refl refl
      refl refl connect_bytes-decoded refl (unfold require_connection in refl)

abbrev socket_options : CultNetRudpSocketTransportOptions
socket_options = client_options (codes "node") stranger peer 7

abbrev latest : CultNetTransportChannel
latest = record {
  channel_id = codes "latest";
  delivery = Transport.unreliable;
  ordering = Transport.sequenced;
  max_payload_bytes = none;
  max_fragment_bytes = none;
  max_pending_reliable_packets = none;
  reliable_expire_after_ms = none;
}

abbrev latest_packet : CultNetRudpPacket
latest_packet = record {
  packet_type = Packet.data_packet;
  connection_id = 7;
  sequence = 1;
  ack = 0;
  ack_mask = 0;
  channel_id = codes "latest";
  reliable = false;
  ordered = false;
  sequenced = true;
  fragment_id = 0;
  fragment_index = 0;
  fragment_count = 0;
  payload = 5 ∷ [];
}

latest_sent :
    send_many (codes "latest") (5 ∷ []) (options_on socket_options latest 40) none online
    ≡ (ok (latest_packet ∷ []), record online { next_sequence = 2 })
unfolding new channel_send_options send_many purge_expired_reliable retain send_data send_whole
    ensure_reliable_capacity create_packet_with_fragments stamp ack_state ack_mask_loop
latest_sent = refl

latest_listed : IsOneOf latest (channels_of (new socket_options).profile.transports)
unfolding new create_rudp_transport_profile
latest_listed = inr (inl refl)

send_many-IsSentOn_example :
    (map
        (λ (known : CultNetTransportChannel). known.channel_id)
        (channels_of (new socket_options).profile.transports)
      ≡ codes "schema" ∷ codes "latest" ∷ codes "realtime" ∷ codes "media" ∷ [])
    × All (IsSentOn latest) (latest_packet ∷ [])
    × ((options_on socket_options latest 40).reliable_expire_after_ms ≡ none)
send_many-IsSentOn_example =
    send_many-IsSentOn socket_options 40 latest (5 ∷ []) online
      (record online { next_sequence = 2 }) (latest_packet ∷ []) latest_listed
      (unfold new in latest_sent)
