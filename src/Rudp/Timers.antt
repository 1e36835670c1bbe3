-- ===== src/Rudp/Timers.antt =====
-- src/rudp.rs: `check_timeout` and `due_resends`, which the clock drives.
pub mod Resends
use cultnet_rs.Base.{ℕ, ◌-◌, List, [], ◌∷◌, Bool, true, false, ltb, leb, if◌then◌else◌}
use cultnet_rs.Base.{Option, none, some}
use cultnet_rs.Base.BTreeMap.{BTreeMap}
use cultnet_rs.Rudp.Packet.{CultNetRudpPacket}
use cultnet_rs.Rudp.State.{CultNetRudpSession, PendingReliablePacket}
use cultnet_rs.Rudp.Create.{purge_expired_reliable}

timed_out : ℕ → ℕ → Option ℕ → Bool
timed_out now_ms timeout_ms none = false
timed_out now_ms timeout_ms (some last) = ltb timeout_ms (now_ms - last)

unfoldable pub check_timeout : ℕ → ℕ → CultNetRudpSession → Bool × CultNetRudpSession
unfolding timed_out
check_timeout now_ms timeout_ms s =
    if s.connected
    then (if timed_out now_ms timeout_ms s.last_received_at_ms
        then (true, record s { connected = false })
        else (false, s))
    else (false, s)

unfoldable pub is_due : ℕ → ℕ → PendingReliablePacket → Bool
is_due now_ms resend_delay_ms pending = leb resend_delay_ms (now_ms - pending.last_sent_at_ms)

-- The loop over `values_mut`: the queue with the due packets marked as sent, and those packets.
unfoldable pub due_loop :
    ℕ
    → ℕ
    → BTreeMap ℕ PendingReliablePacket
    → BTreeMap ℕ PendingReliablePacket × List CultNetRudpPacket
unfolding is_due
due_loop now_ms resend_delay_ms [] = ([], [])
due_loop now_ms resend_delay_ms ((k, pending) ∷ m) =
    let (queue, due) = due_loop now_ms resend_delay_ms m in
    if is_due now_ms resend_delay_ms pending
    then ((k, record pending { last_sent_at_ms = now_ms }) ∷ queue, pending.packet ∷ due)
    else ((k, pending) ∷ queue, due)

-- `sort_by_key(|packet| packet.sequence)`, which is stable.
unfoldable pub insert_by_sequence :
    CultNetRudpPacket → List CultNetRudpPacket → List CultNetRudpPacket
insert_by_sequence packet [] = packet ∷ []
insert_by_sequence packet (other ∷ rest) =
    let later = insert_by_sequence packet rest in
    if leb packet.sequence other.sequence then packet ∷ other ∷ rest else other ∷ later

unfoldable pub sort_by_sequence : List CultNetRudpPacket → List CultNetRudpPacket
unfolding insert_by_sequence
sort_by_sequence [] = []
sort_by_sequence (packet ∷ packets) = insert_by_sequence packet (sort_by_sequence packets)

unfoldable pub due_resends : ℕ → CultNetRudpSession → List CultNetRudpPacket × CultNetRudpSession
due_resends now_ms s =
    let purged = purge_expired_reliable now_ms s in
    let (queue, due) = due_loop now_ms s.resend_delay_ms purged.pending_reliable in
    (sort_by_sequence due, record purged { pending_reliable = queue })
