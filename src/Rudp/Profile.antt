-- ===== src/Rudp/Profile.antt =====
-- src/rudp.rs: the profile of the RUDP transport, and the options with which its channels send.
use cultnet_rs.Base.{ℕ, List, [], ◌∷◌, Bool, true, false, Option, none, some}
use cultnet_rs.Base.{if◌then◌else◌}
use cultnet_rs.Base.Text.{codes}
use cultnet_rs.Base.Order.{bytes_eq}
use cultnet_rs.Rudp.State.{CultNetRudpSendOptions}
use cultnet_rs.Transport
use cultnet_rs.Transport.{CultNetTransportProfile, CultNetTransportChannel}
use cultnet_rs.Transport.{CultNetTransportDelivery, CultNetTransportOrdering}
use cultnet_rs.Transport.{CultNetTransportDescriptor}
use mathlib.Core.Option

pub record RudpTransportProfileOptions : Type 0 where
  pub transport_id : Option (List ℕ)
  pub host : Option (List ℕ)
  pub port : Option ℕ
  pub max_payload_bytes : Option ℕ
  pub max_fragment_bytes : Option ℕ
  pub max_pending_reliable_packets : Option ℕ
  pub media_reliable_expire_after_ms : Option ℕ

-- A channel with the limits that all channels share.
abbrev pub channel :
    List ℕ
    → CultNetTransportDelivery
    → CultNetTransportOrdering
    → Option ℕ
    → RudpTransportProfileOptions
    → CultNetTransportChannel
channel channel_id delivery ordering expire options = record {
  channel_id = channel_id;
  delivery = delivery;
  ordering = ordering;
  max_payload_bytes = options.max_payload_bytes;
  max_fragment_bytes = options.max_fragment_bytes;
  max_pending_reliable_packets = options.max_pending_reliable_packets;
  reliable_expire_after_ms = expire;
}

abbrev pub rudp_channels : RudpTransportProfileOptions → List CultNetTransportChannel
rudp_channels options =
    channel (codes "schema") Transport.reliable Transport.ordered none options
    ∷ channel (codes "latest") Transport.unreliable Transport.sequenced none options
    ∷ channel (codes "realtime") Transport.unreliable Transport.unordered none options
    ∷ channel (codes "media") Transport.reliable Transport.unordered
        options.media_reliable_expire_after_ms options
    ∷ []

unfoldable pub create_rudp_transport_profile :
    List ℕ → RudpTransportProfileOptions → CultNetTransportProfile
create_rudp_transport_profile runtime_id options = record {
  schema_version = codes "cultnet.transport_profile.v0";
  runtime_id = runtime_id;
  transports =
      record {
        transport_id = Option.get_or options.transport_id (codes "rudp");
        protocol = Transport.rudp;
        host = options.host;
        port = options.port;
        path = none;
        discovery_group = none;
        wire_contracts = some (codes "cultnet.schema.v0" ∷ []);
        channels = rudp_channels options;
      }
      ∷ [];
}

abbrev send_options : Bool → Bool → Bool → ℕ → Option ℕ → CultNetRudpSendOptions
send_options reliable ordered sequenced now_ms expire = record {
  reliable = reliable;
  ordered = ordered;
  sequenced = sequenced;
  now_ms = now_ms;
  reliable_expire_after_ms = expire;
}

-- `channel_send_options`, on the transport's `media_reliable_expire_after_ms`.
unfoldable pub channel_send_options : Option ℕ → List ℕ → ℕ → CultNetRudpSendOptions
channel_send_options media_reliable_expire_after_ms channel_id now_ms =
    if bytes_eq channel_id (codes "schema")
    then send_options true true false now_ms none
    else if bytes_eq channel_id (codes "latest")
    then send_options false false true now_ms none
    else if bytes_eq channel_id (codes "media")
    then send_options true false false now_ms media_reliable_expire_after_ms
    else send_options false false false now_ms none
