-- ===== src/Rudp/Socket/Receive.antt =====
-- src/rudp.rs: `receive_once` of the transport over a UDP socket.
use cultnet_rs.Base.{ℕ, ◌+◌, List, [], ◌∷◌, ◌++◌, Bool, true, false, ◌&&◌, not, if◌then◌else◌, map}
use cultnet_rs.Base.{length, Option, none, some}
use cultnet_rs.Base.Outcome.{Outcome, ok, err, panic}
use cultnet_rs.Base.Order.{bytes_ord, nat_ord, pair_ord}
use cultnet_rs.Rudp.Packet
use cultnet_rs.Rudp.Packet.{CultNetRudpPacket, CultNetRudpPacketType, RudpError, socket_error}
use cultnet_rs.Rudp.Codec.{decode_rudp_packet}
use cultnet_rs.Rudp.State.{CultNetRudpReceiveResult, CultNetRudpDeliveredFrame, reset_peer_state}
use cultnet_rs.Rudp.Create.{accept_connect, create_ack, is_connect}
use cultnet_rs.Rudp.Receive.{receive}
use cultnet_rs.Rudp.Socket.{CultNetRudpSocketMode, client, server, SocketAddr, Connection, Run}
use cultnet_rs.Rudp.Socket.{assume_connected}
use cultnet_rs.Rudp.Socket.{◌>>=◌, ◌>>◌, return, modify, in_session, send_packet}
use cultnet_rs.Transport.{CultNetTransportFrame}

-- What `recv_from` gives: a datagram, `WouldBlock` or `TimedOut`, or another error.
pub data Incoming : Type 0 where
  datagram : List ℕ → SocketAddr → Incoming
  would_block failed : Incoming

abbrev pub is_server : CultNetRudpSocketMode → Bool
is_server server = true
is_server client = false

abbrev pub addr_eq : SocketAddr → SocketAddr → Bool
addr_eq a b = pair_ord.eq a b

-- The test on the sender's address: the connection that goes on, unless the packet is dropped.
unfoldable pub admit : CultNetRudpPacket → SocketAddr → Connection → Option Connection
admit packet remote c = elim c.remote_addr [
  | some expected ↦
      if addr_eq expected remote
      then some c
      else if is_server c.mode && is_connect packet.packet_type
      then some (record c { remote_addr = some remote })
      else none
  | none ↦
      if is_server c.mode && not (is_connect packet.packet_type)
      then none
      else some (record c { remote_addr = some remote })
]

abbrev pub pop_frame : Connection → Option CultNetTransportFrame × Connection
pop_frame c = elim c.delivered_frames [
  | [] ↦ (none, c)
  | frame ∷ frames ↦ (some frame, record c { delivered_frames = frames })
]

abbrev pub frame_of : CultNetRudpDeliveredFrame → CultNetTransportFrame
frame_of frame = record { channel_id = frame.channel_id; payload = frame.payload }

-- The loop over `result.delivered`.
abbrev pub queue_frames : List CultNetRudpDeliveredFrame → Connection → Connection
queue_frames frames c = record c {
  delivered_frames = c.delivered_frames ++ map frame_of frames;
  stats = record c.stats { frames_received = c.stats.frames_received + length frames };
}

abbrev pub queue_pong : CultNetRudpReceiveResult → Connection → Connection
queue_pong result c =
    if result.pong
    then record c { pong_payloads = c.pong_payloads ++ result.pong_payload ∷ [] }
    else c

abbrev pub is_accept : CultNetRudpPacketType → Bool
is_accept Packet.accept = true
is_accept other = false

module _ (send_to : List ℕ → SocketAddr → Outcome RudpError ℕ) where
  abbrev pub send_reply : Option CultNetRudpPacket → Run (Unit {0})
  send_reply none = return tt
  send_reply (some reply) = send_packet send_to reply

  -- The end of `receive_once`: an acknowledgement for an `Accept` packet and for a frame.
  abbrev pub acknowledge : Bool → Option CultNetTransportFrame → Run (Option CultNetTransportFrame)
  acknowledge accepted none c =
      if accepted
      then (in_session create_ack >>= λ ack. send_packet send_to ack >> return none) c
      else (ok none, c)
  acknowledge accepted (some frame) c =
      (in_session create_ack >>= λ ack. send_packet send_to ack >> return (some frame)) c

  abbrev pub deliver_result :
      CultNetRudpPacket → CultNetRudpReceiveResult → Run (Option CultNetTransportFrame)
  deliver_result packet result c =
      if result.disconnected
      then (ok none, record c { disconnect_reason = some result.disconnect_reason })
      else (let (frame, d) = pop_frame (queue_frames result.delivered c) in
          acknowledge (is_accept packet.packet_type) frame d)

  -- A packet for the session.
  unfoldable pub receive_packet : ℕ → CultNetRudpPacket → Run (Option CultNetTransportFrame)
  receive_packet now_ms packet = do
    result ← in_session (receive packet now_ms)
    send_reply result.reply
    modify (queue_pong result)
    deliver_result packet result

  -- A `Connect` packet at a server.
  unfoldable pub receive_connect : ℕ → CultNetRudpPacket → Run (Option CultNetTransportFrame)
  receive_connect now_ms packet = do
    modify (λ c. record c { session = reset_peer_state c.session })
    accept ← in_session (accept_connect packet now_ms [])
    send_packet send_to accept
    return none

  unfoldable pub receive_from :
      ℕ → CultNetRudpPacket → SocketAddr → Run (Option CultNetTransportFrame)
  receive_from now_ms packet remote c = elim (admit packet remote c) [
    | none ↦ (ok none, c)
    | some d ↦
        if is_server d.mode && is_connect packet.packet_type
        then receive_connect now_ms packet d
        else receive_packet now_ms packet d
  ]

  -- A wire that cannot be decoded is dropped.
  abbrev pub receive_wire :
      ℕ → Outcome RudpError CultNetRudpPacket → SocketAddr → Run (Option CultNetTransportFrame)
  receive_wire now_ms (ok packet) remote c = receive_from now_ms packet remote c
  receive_wire now_ms (err e) remote c = (ok none, c)
  receive_wire now_ms panic remote c = (panic, c)

  unfoldable pub receive_socket : ℕ → Incoming → Run (Option CultNetTransportFrame)
  receive_socket now_ms (datagram wire remote) c =
      receive_wire now_ms (decode_rudp_packet wire) remote (record c {
        stats = record c.stats { bytes_received = c.stats.bytes_received + length wire };
      })
  receive_socket now_ms would_block c = (ok none, c)
  receive_socket now_ms failed c = (err socket_error, c)

  unfoldable pub receive_once : ℕ → Incoming → Run (Option CultNetTransportFrame)
  receive_once now_ms incoming c = elim c.delivered_frames [
    | frame ∷ frames ↦
        (ok (some frame), assume_connected now_ms (record c { delivered_frames = frames }))
    | [] ↦ receive_socket now_ms incoming c
  ]
