-- ===== src/Rudp/Queue/Steps.antt =====
-- src/rudp.rs: a session as a state machine, with one step for each method on `&mut self`.
use cultnet_rs.Base.{ℕ, ◌≡◌, refl, List, false, Option, none, some}
use cultnet_rs.Base.{arith}
use cultnet_rs.Rudp.Packet.{CultNetRudpPacket}
use cultnet_rs.Rudp.State.{CultNetRudpSession, CultNetRudpSessionOptions, CultNetRudpSendOptions}
use cultnet_rs.Rudp.State.{new, reset_peer_state, assume_connected}
use cultnet_rs.Rudp.Create.{create_connect, accept_connect, create_ack, create_ping}
use cultnet_rs.Rudp.Create.{create_disconnect}
use cultnet_rs.Rudp.Send.{send_many}
use cultnet_rs.Rudp.Receive.{receive}
use cultnet_rs.Rudp.Timers.{check_timeout, due_resends}
use cultnet_rs.Rudp.Queue.Keeps.{create_packet-Keeps}
use cultnet_rs.Rudp.Queue.Invariant.{AtMost, AtMost-le, IsQueue, Keeps-IsQueue}
use cultnet_rs.Rudp.Queue.Reach.{connect-IsQueue, accept-IsQueue, send-IsQueue, receive-IsQueue}
use cultnet_rs.Rudp.Queue.Reach.{resend-IsQueue}

-- `Step s t`: a call of one method leaves `t` where it found `s`, whatever its result is.
pub data Step (s : CultNetRudpSession) : CultNetRudpSession → Type 0 where
  connects : (now_ms : ℕ) (payload : List ℕ) → Step s (create_connect now_ms payload s).1
  accepts :
      (packet : CultNetRudpPacket) (now_ms : ℕ) (payload : List ℕ)
      → Step s (accept_connect packet now_ms payload s).1
  sends :
      (channel_id payload : List ℕ) (options : CultNetRudpSendOptions) (max_bytes : Option ℕ)
      → Step s (send_many channel_id payload options max_bytes s).1
  receives : (packet : CultNetRudpPacket) (now_ms : ℕ) → Step s (receive packet now_ms s).1
  acknowledges : Step s (create_ack s).1
  pings : (payload : List ℕ) → Step s (create_ping payload s).1
  disconnects : (reason : List ℕ) → Step s (create_disconnect reason s).1
  checks_timeout : (now_ms timeout_ms : ℕ) → Step s (check_timeout now_ms timeout_ms s).1
  resends : (now_ms : ℕ) → Step s (due_resends now_ms s).1
  resets : Step s (reset_peer_state s)
  assumes_connected : (now_ms : ℕ) → Step s (assume_connected now_ms s)

-- The sessions that some sequence of calls leads to.
pub data Reach (options : CultNetRudpSessionOptions) : CultNetRudpSession → Type 0 where
  starts : Reach options (new options)
  steps : (s t : CultNetRudpSession) → Reach options s → Step s t → Reach options t

same-IsQueue :
    (s t : CultNetRudpSession)
    → t.pending_reliable ≡ s.pending_reliable
    → t.max_pending_reliable_packets ≡ s.max_pending_reliable_packets
    → t.next_sequence ≡ s.next_sequence
    → IsQueue s
    → IsQueue t
same-IsQueue s t e f g q = Keeps-IsQueue (record { queue = e; limit = f; later = omega arith }) q

Step-IsQueue : (s t : CultNetRudpSession) → Step s t → IsQueue s → IsQueue t
unfolding create_ack create_ping create_disconnect check_timeout reset_peer_state assume_connected
Step-IsQueue s t (connects now_ms payload) q = connect-IsQueue now_ms payload s q
Step-IsQueue s t (accepts packet now_ms payload) q = accept-IsQueue packet now_ms payload s q
Step-IsQueue s t (sends channel_id payload options max_bytes) q =
    send-IsQueue channel_id payload options max_bytes s q
Step-IsQueue s t (receives packet now_ms) q = receive-IsQueue packet now_ms s q
Step-IsQueue s t acknowledges q = Keeps-IsQueue (create_packet-Keeps _ s) q
Step-IsQueue s t (pings payload) q = Keeps-IsQueue (create_packet-Keeps _ s) q
Step-IsQueue s t (disconnects reason) q =
    let u = record s { connected = false } in
    Keeps-IsQueue (create_packet-Keeps _ u) (same-IsQueue s u refl refl refl q)
Step-IsQueue s t (checks_timeout now_ms timeout_ms) q =
    ground (arith, same-IsQueue s (record s { connected = false }) refl refl refl q)
Step-IsQueue s t (resends now_ms) q = resend-IsQueue now_ms s q
Step-IsQueue s t resets q = record {
  bounded = AtMost-le s.max_pending_reliable_packets 0 _ (omega arith) q.bounded;
  entries = tt;
}
Step-IsQueue s t (assumes_connected now_ms) q = same-IsQueue s t refl refl refl q

AtMost-zero : (limit : Option ℕ) → AtMost limit 0
AtMost-zero none = tt
AtMost-zero (some limit) = omega arith

-- In every session that some sequence of calls leads to from `new options`, the packets that wait
-- for an acknowledgement are no more than `max_pending_reliable_packets`, if it is set, and each
-- of them is reliable and stands under its own sequence, which is below the next one.
pub Reach-IsQueue :
    (options : CultNetRudpSessionOptions) (s : CultNetRudpSession) → Reach options s → IsQueue s
unfolding new
Reach-IsQueue options s starts = record {
  bounded = AtMost-zero options.max_pending_reliable_packets;
  entries = tt;
}
Reach-IsQueue options t (steps s u r step) = Step-IsQueue s u step (Reach-IsQueue options s r)
