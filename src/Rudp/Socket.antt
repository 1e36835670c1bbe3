-- ===== src/Rudp/Socket.antt =====
-- src/rudp.rs: the transport over a UDP socket. What the socket answers and the clock are
-- arguments: `send_to` (the bytes that a datagram took) and the datagram that `recv_from` finds.
pub mod Receive
pub mod Takeover
pub mod Channels
mod Tests
use cultnet_rs.Base.{ℕ, ◌+◌, List, [], ◌∷◌, ◌++◌, Bool, true, false, if◌then◌else◌}
use cultnet_rs.Base.{Option, none, some}
use cultnet_rs.Base.Outcome.{Outcome, ok, err, panic}
use cultnet_rs.Base.Order.{bytes_ord, nat_ord, pair_ord, Ord}
use cultnet_rs.Rudp.Packet.{CultNetRudpPacket, RudpError, not_a_client, no_remote_endpoint}
use cultnet_rs.Rudp.Codec.{encode_rudp_packet}
use cultnet_rs.Rudp.State
use cultnet_rs.Rudp.State.{CultNetRudpSession}
use cultnet_rs.Rudp.Create.{create_connect, create_ping, create_disconnect}
use cultnet_rs.Rudp.Send
use cultnet_rs.Rudp.Timers
use cultnet_rs.Rudp.Timers.{due_resends}
use cultnet_rs.Rudp.Profile.{RudpTransportProfileOptions, create_rudp_transport_profile}
use cultnet_rs.Rudp.Profile.{channel_send_options}
use cultnet_rs.Transport.{CultNetTransportStats, no_stats, CultNetTransportFrame}
use cultnet_rs.Transport.{CultNetTransportProfile}
use mathlib.Core.Option

pub data CultNetRudpSocketMode : Type 0 where
  client server : CultNetRudpSocketMode

-- An address with its port.
abbrev pub SocketAddr : Type 0
SocketAddr = List ℕ × ℕ

pub record CultNetRudpSocketTransportOptions : Type 0 where
  pub runtime_id : List ℕ
  pub local_addr : SocketAddr
  pub mode : CultNetRudpSocketMode
  pub remote_addr : Option SocketAddr
  pub connection_id : ℕ
  pub initial_sequence : ℕ
  pub resend_delay_ms : ℕ
  pub transport_id : Option (List ℕ)
  pub max_payload_bytes : Option ℕ
  pub max_fragment_bytes : Option ℕ
  pub max_pending_reliable_packets : Option ℕ
  pub media_reliable_expire_after_ms : Option ℕ

abbrev pub default_media_reliable_expire_after_ms : ℕ
default_media_reliable_expire_after_ms = 75

abbrev default_options :
    List ℕ
    → SocketAddr
    → CultNetRudpSocketMode
    → Option SocketAddr
    → ℕ
    → CultNetRudpSocketTransportOptions
default_options runtime_id local_addr mode remote_addr connection_id = record {
  runtime_id = runtime_id;
  local_addr = local_addr;
  mode = mode;
  remote_addr = remote_addr;
  connection_id = connection_id;
  initial_sequence = 1;
  resend_delay_ms = 250;
  transport_id = none;
  max_payload_bytes = none;
  max_fragment_bytes = none;
  max_pending_reliable_packets = none;
  media_reliable_expire_after_ms = some default_media_reliable_expire_after_ms;
}

abbrev pub client_options : List ℕ → SocketAddr → SocketAddr → ℕ → CultNetRudpSocketTransportOptions
client_options runtime_id local_addr remote_addr connection_id =
    default_options runtime_id local_addr client (some remote_addr) connection_id

abbrev pub server_options : List ℕ → SocketAddr → ℕ → CultNetRudpSocketTransportOptions
server_options runtime_id local_addr connection_id =
    default_options runtime_id local_addr server none connection_id

-- The connection. `sent` is what the socket has been given, oldest first.
pub record CultNetRudpSocketTransportConnection : Type 0 where
  pub session : CultNetRudpSession
  pub mode : CultNetRudpSocketMode
  pub remote_addr : Option SocketAddr
  pub profile : CultNetTransportProfile
  pub stats : CultNetTransportStats
  pub delivered_frames : List CultNetTransportFrame
  pub max_fragment_bytes : Option ℕ
  pub media_reliable_expire_after_ms : Option ℕ
  pub disconnect_reason : Option (List ℕ)
  pub pong_payloads : List (List ℕ)
  pub sent : List (List ℕ × SocketAddr)

abbrev pub Connection : Type 0
Connection = CultNetRudpSocketTransportConnection

unfoldable pub new : CultNetRudpSocketTransportOptions → Connection
new options = record {
  session = State.new (record {
    connection_id = options.connection_id;
    initial_sequence = options.initial_sequence;
    resend_delay_ms = options.resend_delay_ms;
    max_pending_reliable_packets = options.max_pending_reliable_packets;
  });
  mode = options.mode;
  remote_addr = options.remote_addr;
  profile = create_rudp_transport_profile options.runtime_id (record {
    transport_id = options.transport_id;
    host = some options.local_addr.0;
    port = some options.local_addr.1;
    max_payload_bytes = options.max_payload_bytes;
    max_fragment_bytes = options.max_fragment_bytes;
    max_pending_reliable_packets = options.max_pending_reliable_packets;
    media_reliable_expire_after_ms = options.media_reliable_expire_after_ms;
  });
  stats = no_stats;
  delivered_frames = [];
  max_fragment_bytes = options.max_fragment_bytes;
  media_reliable_expire_after_ms = options.media_reliable_expire_after_ms;
  disconnect_reason = none;
  pong_payloads = [];
  sent = [];
}

-- A method of the transport: its result, and the connection that it leaves.
abbrev pub Run : Type 0 → Type 0
Run A = Connection → Outcome RudpError A × Connection

abbrev pub then_run :
    {A B : Type 0}
    → Outcome RudpError A × Connection
    → (A → Run B)
    → Outcome RudpError B × Connection
then_run (ok a, c) f = f a c
then_run (err e, c) f = (err e, c)
then_run (panic, c) f = (panic, c)

infixl 5 ◌>>=◌ ◌>>◌
abbrev pub ◌>>=◌ : {A B : Type 0} → Run A → (A → Run B) → Run B
◌>>=◌ m f c = then_run (m c) f

abbrev pub ◌>>◌ : {B : Type 0} → Run (Unit {0}) → Run B → Run B
◌>>◌ m k c = then_run (m c) (λ _. k)

abbrev pub return : {A : Type 0} → A → Run A
return a c = (ok a, c)

abbrev pub modify : (Connection → Connection) → Run (Unit {0})
modify f c = (ok tt, f c)

-- A call of a method of the session.
abbrev pub in_session : {A : Type 0} → State.Run A → Run A
in_session m c = let r = m c.session in (r.0, record c { session = r.1 })

abbrev pub stats : Connection → CultNetTransportStats
stats c = record c.stats { reliable_packets_expired = c.session.reliable_packets_expired }

abbrev pub pop_pong_payload : Connection → Option (List ℕ) × Connection
pop_pong_payload c = elim c.pong_payloads [
  | [] ↦ (none, c)
  | payload ∷ payloads ↦ (some payload, record c { pong_payloads = payloads })
]

module _ (send_to : List ℕ → SocketAddr → Outcome RudpError ℕ) where
  -- `socket.send_to(..)?` and the count of its bytes.
  abbrev pub send_wire : List ℕ → SocketAddr → Run (Unit {0})
  send_wire wire remote c = elim (send_to wire remote) [
    | ok sent ↦ (
      ok tt,
      record c {
        stats = record c.stats { bytes_sent = c.stats.bytes_sent + sent };
        sent = c.sent ++ (wire, remote) ∷ [];
      },
    )
    | err e ↦ (err e, c)
    | panic ↦ (panic, c)
  ]

  abbrev pub send_encoded : Outcome RudpError (List ℕ) → SocketAddr → Run (Unit {0})
  send_encoded (ok wire) remote c = send_wire wire remote c
  send_encoded (err e) remote c = (err e, c)
  send_encoded panic remote c = (panic, c)

  unfoldable pub send_packet : CultNetRudpPacket → Run (Unit {0})
  send_packet packet c = elim c.remote_addr [
    | none ↦ (err no_remote_endpoint, c)
    | some remote ↦ send_encoded (encode_rudp_packet packet) remote c
  ]

  -- The loops of `send` and `poll_resends`; the pauses between the packets are left out.
  unfoldable pub send_all : List CultNetRudpPacket → Run (Unit {0})
  send_all [] = return tt
  send_all (packet ∷ packets) = do send_packet packet; send_all packets

  unfoldable pub connect : ℕ → List ℕ → Run (Unit {0})
  connect now_ms payload c = elim c.mode [
    | server ↦ (err not_a_client, c)
    | client ↦ then_run (in_session (create_connect now_ms payload) c) send_packet
  ]

  unfoldable pub send : ℕ → List ℕ → List ℕ → Run (Unit {0})
  send now_ms channel_id payload c =
      let options = channel_send_options c.media_reliable_expire_after_ms channel_id now_ms in
      then_run (in_session (Send.send_many channel_id payload options c.max_fragment_bytes) c)
        (λ packets. do
          send_all packets
          modify
              (λ d. record d { stats = record d.stats { frames_sent = d.stats.frames_sent + 1 } }))

  unfoldable pub disconnect : List ℕ → Run (Unit {0})
  disconnect reason = do packet ← in_session (create_disconnect reason); send_packet packet

  unfoldable pub ping : List ℕ → Run (Unit {0})
  ping payload = do packet ← in_session (create_ping payload); send_packet packet

  unfoldable pub poll_resends : ℕ → Run (Unit {0})
  poll_resends now_ms = do
    packets ← in_session (λ s. let (due, s') = due_resends now_ms s in (ok due, s'))
    send_all packets

unfoldable pub check_timeout : ℕ → ℕ → Connection → Bool × Connection
check_timeout now_ms timeout_ms c =
    let (lost, session) = Timers.check_timeout now_ms timeout_ms c.session in
    (lost, record c { session = session })

unfoldable pub assume_connected : ℕ → Connection → Connection
assume_connected now_ms c = record c { session = State.assume_connected now_ms c.session }
