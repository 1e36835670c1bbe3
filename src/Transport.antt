-- ===== src/Transport.antt =====
-- src/transport.rs and the transport types of src/contracts.rs: what a transport says of itself in
-- its profile, and the children: reconnecting, and frames over a byte stream.
pub mod Reconnect
pub mod TcpFramed
mod Tests
use cultnet_rs.Base.{ℕ, List, [], ◌∷◌, Option, none, some}
use cultnet_rs.Base.Text.{codes}
use mathlib.Core.Option

pub data CultNetTransportProtocol : Type 0 where
  tcp_framed litenetlib websocket rudp : CultNetTransportProtocol

pub data CultNetTransportDelivery : Type 0 where
  reliable unreliable : CultNetTransportDelivery

pub data CultNetTransportOrdering : Type 0 where
  ordered unordered sequenced : CultNetTransportOrdering

pub record CultNetTransportChannel : Type 0 where
  pub channel_id : List ℕ
  pub delivery : CultNetTransportDelivery
  pub ordering : CultNetTransportOrdering
  pub max_payload_bytes : Option ℕ
  pub max_fragment_bytes : Option ℕ
  pub max_pending_reliable_packets : Option ℕ
  pub reliable_expire_after_ms : Option ℕ

pub record CultNetTransportDescriptor : Type 0 where
  pub transport_id : List ℕ
  pub protocol : CultNetTransportProtocol
  pub host : Option (List ℕ)
  pub port : Option ℕ
  pub path : Option (List ℕ)
  pub discovery_group : Option (List ℕ)
  pub wire_contracts : Option (List (List ℕ))
  pub channels : List CultNetTransportChannel

pub record CultNetTransportProfile : Type 0 where
  pub schema_version : List ℕ
  pub runtime_id : List ℕ
  pub transports : List CultNetTransportDescriptor

pub record CultNetTransportStats : Type 0 where
  pub bytes_received : ℕ
  pub bytes_sent : ℕ
  pub frames_received : ℕ
  pub frames_sent : ℕ
  pub reliable_packets_expired : ℕ

abbrev pub no_stats : CultNetTransportStats
no_stats = record {
  bytes_received = 0;
  bytes_sent = 0;
  frames_received = 0;
  frames_sent = 0;
  reliable_packets_expired = 0;
}

pub record CultNetTransportFrame : Type 0 where
  pub channel_id : List ℕ
  pub payload : List ℕ

pub record TcpFramedTransportProfileOptions : Type 0 where
  pub transport_id : Option (List ℕ)
  pub host : Option (List ℕ)
  pub port : Option ℕ
  pub max_payload_bytes : Option ℕ
  pub max_fragment_bytes : Option ℕ

unfoldable pub create_tcp_framed_transport_profile :
    List ℕ → TcpFramedTransportProfileOptions → CultNetTransportProfile
create_tcp_framed_transport_profile runtime_id options = record {
  schema_version = codes "cultnet.transport_profile.v0";
  runtime_id = runtime_id;
  transports =
      record {
        transport_id = Option.get_or options.transport_id (codes "tcp-framed");
        protocol = tcp_framed;
        host = options.host;
        port = options.port;
        path = none;
        discovery_group = none;
        wire_contracts = some (codes "cultnet.schema.v0" ∷ []);
        channels =
            record {
              channel_id = codes "schema";
              delivery = reliable;
              ordering = ordered;
              max_payload_bytes = options.max_payload_bytes;
              max_fragment_bytes = options.max_fragment_bytes;
              max_pending_reliable_packets = none;
              reliable_expire_after_ms = none;
            }
            ∷ [];
      }
      ∷ [];
}
