-- ===== src/Rudp/Socket/Takeover.antt =====
-- src/rudp.rs: datagrams from an address that is not the peer's.
use cultnet_rs.Base.{ℕ, ◌+◌, ◌≡◌, refl, List, [], ◌∷◌, true, false, ◌&&◌, none, some}
use cultnet_rs.Base.{length, arith, ◌≢◌, ap, sym, ◌∙◌, Bool-cases, All, inl, inr}
use cultnet_rs.Base.Outcome.{Outcome, ok, err, Outcome-cases}
use cultnet_rs.Base.Order.{bytes_ord, nat_ord, pair_ord, pair_eq_iff}
use cultnet_rs.Rudp.Packet
use cultnet_rs.Rudp.Packet.{CultNetRudpPacket, RudpError}
use cultnet_rs.Rudp.Codec.{decode_rudp_packet}
use cultnet_rs.Rudp.State.{reset_peer_state, require_connection}
use cultnet_rs.Rudp.Create.{accept_connect, is_connect}
use cultnet_rs.Rudp.Socket.{SocketAddr, Connection, server, client}
use cultnet_rs.Rudp.Socket.Receive.{datagram, receive_once, receive_socket, receive_from}
use cultnet_rs.Rudp.Socket.Receive.{receive_connect, admit, addr_eq, is_server}

-- The connection with a datagram's bytes counted.
abbrev pub counted : List ℕ → Connection → Connection
counted wire c = record c {
  stats = record c.stats { bytes_received = c.stats.bytes_received + length wire };
}

admit-stranger :
    (packet : CultNetRudpPacket) (peer remote : SocketAddr) (c : Connection)
    → c.remote_addr ≡ some peer
    → addr_eq peer remote ≡ false
    → (is_server c.mode && is_connect packet.packet_type) ≡ false
    → admit packet remote c ≡ none
unfolding admit
admit-stranger packet peer remote c known other no_connect =
    rw (known, admit, other, no_connect) refl

admit-takeover :
    (packet : CultNetRudpPacket) (peer remote : SocketAddr) (c : Connection)
    → c.remote_addr ≡ some peer
    → addr_eq peer remote ≡ false
    → (is_server c.mode && is_connect packet.packet_type) ≡ true
    → admit packet remote c ≡ some (record c { remote_addr = some remote })
unfolding admit
admit-takeover packet peer remote c known other connects = rw (known, admit, other, connects) refl

differ_lem : (peer remote : SocketAddr) → remote ≢ peer → addr_eq peer remote ≡ false
differ_lem peer remote other = elim (Bool-cases (addr_eq peer remote)) [
  | inl same ↦ absurd (other (sym ((pair_eq_iff {A = List ℕ} {B = ℕ} peer remote).0 same)))
  | inr differ ↦ differ
]

-- The bytes of all datagrams, each with its time and its sender.
abbrev pub total_bytes : List (ℕ × (List ℕ × SocketAddr)) → ℕ
total_bytes [] = 0
total_bytes ((now_ms, (wire, remote)) ∷ arrivals) = length wire + total_bytes arrivals

add_zero : (n : ℕ) → n + 0 ≡ n
add_zero n = omega arith

add_assoc : (a b c : ℕ) → a + b + c ≡ a + (b + c)
add_assoc a b c = omega arith

module _ (send_to : List ℕ → SocketAddr → Outcome RudpError ℕ) where
  -- `receive_once` on one datagram after the other: the connection that it leaves.
  abbrev pub receive_all : List (ℕ × (List ℕ × SocketAddr)) → Connection → Connection
  receive_all [] c = c
  receive_all ((now_ms, (wire, remote)) ∷ arrivals) c =
      receive_all arrivals (receive_once send_to now_ms (datagram wire remote) c).1

  receive_once_decoded :
      (now_ms : ℕ) (wire : List ℕ) (packet : CultNetRudpPacket) (remote : SocketAddr)
      (c : Connection)
      → c.delivered_frames ≡ []
      → decode_rudp_packet wire ≡ ok packet
      → receive_once send_to now_ms (datagram wire remote) c
        ≡ receive_from send_to now_ms packet remote (counted wire c)
  unfolding receive_once receive_socket
  receive_once_decoded now_ms wire packet remote c idle decoded = ground (arith, idle, decoded)

  receive_socket-stranger :
      (now_ms : ℕ) (wire : List ℕ) (peer remote : SocketAddr) (c : Connection)
      → is_server c.mode ≡ false
      → c.remote_addr ≡ some peer
      → remote ≢ peer
      → (receive_socket send_to now_ms (datagram wire remote) c).1 ≡ counted wire c
  unfolding receive_socket receive_from
  receive_socket-stranger now_ms wire peer remote c at_client known other =
      let differ : addr_eq peer remote ≡ false = differ_lem peer remote other in
      elim (Outcome-cases (decode_rudp_packet wire)) [
        | inl (packet, decoded) ↦
            rw
              (
                decoded,
                admit-stranger packet peer remote (counted wire c) known differ (rw at_client refl),
                receive_from,
              )
              refl
        | inr (inl (error, decoded)) ↦ rw decoded refl
        | inr (inr stopped) ↦ rw stopped refl
      ]

  receive_once_idle :
      (now_ms : ℕ) (wire : List ℕ) (remote : SocketAddr) (c : Connection)
      → c.delivered_frames ≡ []
      → receive_once send_to now_ms (datagram wire remote) c
        ≡ receive_socket send_to now_ms (datagram wire remote) c
  unfolding receive_once
  receive_once_idle now_ms wire remote c idle = ground (arith, idle)

  receive_once-stranger :
      (now_ms : ℕ) (wire : List ℕ) (peer remote : SocketAddr) (c : Connection)
      → c.delivered_frames ≡ []
      → is_server c.mode ≡ false
      → c.remote_addr ≡ some peer
      → remote ≢ peer
      → (receive_once send_to now_ms (datagram wire remote) c).1 ≡ counted wire c
  receive_once-stranger now_ms wire peer remote c idle at_client known other =
      ap (λ r. r.1) (receive_once_idle now_ms wire remote c idle)
      ∙ receive_socket-stranger now_ms wire peer remote c at_client known other

  -- A client with a peer and no frame left to deliver, and any number of datagrams, decodable or not, at any times
  -- and from any addresses but the peer's: when `receive_once` has taken them one after the other, the bytes that
  -- were received are counted, and nothing else about the connection has changed, its session included.
  pub receive_all-strangers :
      (arrivals : List (ℕ × (List ℕ × SocketAddr))) (peer : SocketAddr) (c : Connection)
      → c.delivered_frames ≡ []
      → c.mode ≡ client
      → c.remote_addr ≡ some peer
      → All (λ arrival. arrival.1.1 ≢ peer) arrivals
      → receive_all arrivals c ≡ record c {
        stats = record c.stats { bytes_received = c.stats.bytes_received + total_bytes arrivals };
      }
  receive_all-strangers [] peer c idle at_client known others = rw add_zero refl
  receive_all-strangers ((now_ms, (wire, remote)) ∷ arrivals) peer c idle at_client known
        (other, others) =
      rw (receive_once-stranger now_ms wire peer remote c idle (rw at_client refl) known other) (
        rw (receive_all-strangers arrivals peer (counted wire c) idle at_client known others)
          (rw (add_assoc c.stats.bytes_received (length wire) (total_bytes arrivals)) refl))

  -- A server with a peer and no frame left to deliver gets a `Connect` packet from another address and with
  -- another connection id. The packet is refused with an error, and yet the peer is gone: the address is now the
  -- sender's, and the session is not connected, has received nothing, and has nothing pending, ordered or
  -- fragmented left.
  pub receive_once-takeover :
      (now_ms : ℕ) (wire : List ℕ) (packet : CultNetRudpPacket) (peer remote : SocketAddr)
      (c : Connection)
      → c.delivered_frames ≡ []
      → c.mode ≡ server
      → c.remote_addr ≡ some peer
      → addr_eq peer remote ≡ false
      → decode_rudp_packet wire ≡ ok packet
      → packet.packet_type ≡ Packet.connect
      → require_connection packet c.session ≡ err Packet.connection_id_mismatch
      → receive_once send_to now_ms (datagram wire remote) c ≡ (
        err Packet.connection_id_mismatch,
        record (counted wire c) {
          remote_addr = some remote;
          session = record c.session {
            connected = false;
            last_received_at_ms = none;
            highest_received_sequence = none;
            received_sequences = [];
            pending_reliable = [];
            ordered_next_sequence_by_channel = [];
            ordered_buffers = [];
            fragment_buffers = [];
            highest_delivered_sequenced_by_channel = [];
          };
        },
      )
  unfolding receive_from receive_connect accept_connect require_connection reset_peer_state
  receive_once-takeover now_ms wire packet peer remote c idle at_server known other decoded
        is_connect_packet mismatch =
      let connects : (is_server c.mode && is_connect packet.packet_type) ≡ true =
        rw (at_server, is_connect_packet) refl in
      rw
        (
          receive_once_decoded now_ms wire packet remote c idle decoded,
          admit-takeover packet peer remote (counted wire c) known other connects,
          receive_from,
        )
        (rw (connects, receive_connect) (rw (mismatch, accept_connect) refl))
