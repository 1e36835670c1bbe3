-- ===== src/Rudp/Packet.antt =====
-- src/rudp.rs: packets, and the errors of the codec and the session.
use cultnet_rs.Base.{ℕ, ◌^◌, ◌<◌, ◌≡◌, Bool, true, List}
use cultnet_rs.Base.Text.{is_utf8}

pub data CultNetRudpPacketType : Type 0 where
  connect accept data_packet ack ping pong disconnect : CultNetRudpPacketType

pub record CultNetRudpPacket : Type 0 where
  pub packet_type : CultNetRudpPacketType
  pub connection_id : ℕ
  pub sequence : ℕ
  pub ack : ℕ
  pub ack_mask : ℕ
  pub channel_id : List ℕ
  pub reliable : Bool
  pub ordered : Bool
  pub sequenced : Bool
  pub fragment_id : ℕ
  pub fragment_index : ℕ
  pub fragment_count : ℕ
  pub payload : List ℕ

-- What the Rust types guarantee: `u32`, `u16`, a `String`.
pub record IsTyped (p : CultNetRudpPacket) : Type 0 where
  pub connection_id-lt : p.connection_id < 2 ^ 32
  pub sequence-lt : p.sequence < 2 ^ 32
  pub ack-lt : p.ack < 2 ^ 32
  pub ack_mask-lt : p.ack_mask < 2 ^ 32
  pub fragment_id-lt : p.fragment_id < 2 ^ 16
  pub fragment_index-lt : p.fragment_index < 2 ^ 16
  pub fragment_count-lt : p.fragment_count < 2 ^ 16
  pub channel_id-utf8 : is_utf8 p.channel_id ≡ true

pub data RudpError : Type 0 where
  channel_id_too_long shorter_than_header wrong_magic unsupported_version : RudpError
  unsupported_packet_type header_length_mismatch payload_length_mismatch : RudpError
  channel_id_not_utf8 : RudpError
  not_connected zero_fragment_bytes too_many_fragments send_queue_full : RudpError
  connection_id_mismatch expected_connect no_packets : RudpError
  zero_fragment_id fragment_index_out_of_range fragment_metadata_changed : RudpError
  not_a_client no_remote_endpoint socket_error : RudpError
