-- ===== src/Rudp/Queue/Reach.antt =====
-- src/rudp.rs: every method of a session keeps the invariant of the reliable queue.
use cultnet_rs.Base.{ℕ, zero, suc, ◌+◌, ◌≡◌, refl, arith, min, List, [], ◌∷◌, Bool, true, false}
use cultnet_rs.Base.{Option, none, some, inl, inr, Bool-cases, ltb, ◌==◌, if◌then◌else◌}
use cultnet_rs.Base.{length, All}
use cultnet_rs.Base.Outcome.{ok, err}
use cultnet_rs.Base.BTreeMap.{BTreeMap, remove, length-remove-le}
use cultnet_rs.Base.BTreeMap.Entries.{All-remove}
use cultnet_rs.Base.Order.{nat_ord}
use cultnet_rs.Rudp.Packet
use cultnet_rs.Rudp.Packet.{CultNetRudpPacket, RudpError}
use cultnet_rs.Rudp.State.{CultNetRudpSession, CultNetRudpSendOptions}
use cultnet_rs.Rudp.State.{PendingReliablePacket}
use cultnet_rs.Rudp.State.{require_connection, u16_max}
use cultnet_rs.Rudp.Acks.{apply_acknowledgements, remember_received}
use cultnet_rs.Rudp.Create.{stamp, create_packet_with_fragments, whole, control}
use cultnet_rs.Rudp.Create.{create_connect, accept_connect}
use cultnet_rs.Rudp.Create.{accept_response, handshake_options, is_connect, purge_expired_reliable}
use cultnet_rs.Rudp.Send.{send_fragments, send_whole, send_split, send_data, send_many, div_ceil}
use cultnet_rs.Rudp.Send.{piece, fragment_at, allocate_fragment_id}
use cultnet_rs.Rudp.Receive.{receive, expected_sequence}
use cultnet_rs.Rudp.Timers.{due_loop, due_resends, is_due}
use cultnet_rs.Rudp.Queue.Keeps.{create_packet-Keeps, dispatch-Keeps}
use cultnet_rs.Rudp.Queue.Invariant.{AtMost-le, IsEntry, IsQueue, Keeps-IsQueue, IsReady}
use cultnet_rs.Rudp.Queue.Invariant.{after_packet-IsReady, create_then-IsQueue, purge-IsQueue}
use cultnet_rs.Rudp.Queue.Invariant.{
  capacity_then-IsQueue, check_then-IsQueue, then_return-IsQueue, Room, after_packet,
  apply_mask_loop-entries,
}

pub connect-IsQueue :
    (now_ms : ℕ) (payload : List ℕ) (s : CultNetRudpSession)
    → IsQueue s
    → IsQueue (create_connect now_ms payload s).1
unfolding create_connect
connect-IsQueue now_ms payload s q =
    let d = whole Packet.connect control payload true true false in
    capacity_then-IsQueue true 1 s _ q (λ r.
      create_then-IsQueue d s _ q
        (after_packet-IsReady true d (handshake_options now_ms) 0 s refl r).queue)

accept_rest :
    (packet : CultNetRudpPacket) (now_ms : ℕ) (payload : List ℕ) (was : Bool)
    (s : CultNetRudpSession)
    → IsQueue s
    → IsQueue (accept_response packet now_ms payload was s).1
unfolding accept_response remember_received stamp create_packet_with_fragments
accept_rest packet now_ms payload true s q =
    let d = whole Packet.accept control payload true true false in
    let t = record (remember_received packet.sequence s) {
      last_received_at_ms = some now_ms;
      connected = true;
    } in
    then_return-IsQueue _ (λ response. response)
      (Keeps-IsQueue (create_packet-Keeps d t)
        (record { bounded = q.bounded; entries = q.entries }))
accept_rest packet now_ms payload false s q =
    let d = whole Packet.accept control payload true true false in
    let t = record (remember_received packet.sequence s) {
      last_received_at_ms = some now_ms;
      connected = true;
    } in
    let u : IsQueue t = record { bounded = q.bounded; entries = q.entries } in
    capacity_then-IsQueue true 1 s _ q (λ r.
      create_then-IsQueue d t _ u
        (after_packet-IsReady true d (handshake_options now_ms) 0 t refl
          (record { queue = u; room = r.room })).queue)

pub accept-IsQueue :
    (packet : CultNetRudpPacket) (now_ms : ℕ) (payload : List ℕ) (s : CultNetRudpSession)
    → IsQueue s
    → IsQueue (accept_connect packet now_ms payload s).1
unfolding accept_connect
accept-IsQueue packet now_ms payload s q =
    check_then-IsQueue (require_connection packet s) s _ q (λ _.
      check_then-IsQueue
        (if is_connect packet.packet_type then ok tt else err Packet.expected_connect) s _ q
        (λ _. accept_rest packet now_ms payload s.connected s q))

fragments-IsQueue :
    (rounds index : ℕ) (channel_id payload : List ℕ) (options : CultNetRudpSendOptions)
    (max_bytes fragment_id fragment_count : ℕ) (s : CultNetRudpSession)
    → IsReady options.reliable rounds s
    → IsQueue
        (send_fragments rounds index channel_id payload options max_bytes fragment_id fragment_count
          s).1
unfolding send_fragments stamp
fragments-IsQueue zero index channel_id payload options max_bytes fragment_id fragment_count s r =
    r.queue
fragments-IsQueue (suc rounds) index channel_id payload options max_bytes fragment_id fragment_count
      s r =
    let d =
      piece channel_id options (fragment_at max_bytes payload index) fragment_id index
        fragment_count in
    let t : IsReady options.reliable rounds (after_packet d options s) =
      after_packet-IsReady options.reliable d options rounds s refl r in
    create_then-IsQueue d s _ r.queue (
      then_return-IsQueue _ _ (
        fragments-IsQueue rounds (index + 1) channel_id payload options max_bytes fragment_id
          fragment_count (after_packet d options s) t))

same-Room :
    (reliable : Bool) (count : ℕ) (s t : CultNetRudpSession)
    → Room reliable count s
    → t.pending_reliable ≡ s.pending_reliable
    → t.max_pending_reliable_packets ≡ s.max_pending_reliable_packets
    → Room reliable count t
same-Room false count s t r e f = tt
same-Room true count s t r e f = rw (e, f) r

split-IsQueue :
    (channel_id payload : List ℕ) (options : CultNetRudpSendOptions) (max_bytes : ℕ)
    (s : CultNetRudpSession)
    → IsQueue s
    → IsQueue (send_split channel_id payload options max_bytes s).1
unfolding send_split send_fragments allocate_fragment_id div_ceil
split-IsQueue channel_id payload options max_bytes s q =
    let count = div_ceil (length payload) max_bytes in
    check_then-IsQueue (if ltb u16_max count then err Packet.too_many_fragments else ok tt) s _ q
      (λ _. capacity_then-IsQueue options.reliable count s _ q (λ r.
        let next = min (s.next_fragment_id + 1) u16_max in
        let t = record s { next_fragment_id = if next == 0 then 1 else next } in
        fragments-IsQueue count 0 channel_id payload options max_bytes s.next_fragment_id count t
          (record {
            queue = record { bounded = q.bounded; entries = q.entries };
            room = same-Room options.reliable count s t r.room refl refl;
          })))

whole-IsQueue :
    (channel_id payload : List ℕ) (options : CultNetRudpSendOptions) (s : CultNetRudpSession)
    → IsQueue s
    → IsQueue (send_whole channel_id payload options s).1
unfolding send_whole stamp
whole-IsQueue channel_id payload options s q =
    let d =
      whole Packet.data_packet channel_id payload options.reliable options.ordered
        options.sequenced in
    capacity_then-IsQueue options.reliable 1 s _ q (λ r.
      create_then-IsQueue d s _ q
        (after_packet-IsReady options.reliable d options 0 s refl r).queue)

data-IsQueue :
    (channel_id payload : List ℕ) (options : CultNetRudpSendOptions) (max_bytes : Option ℕ)
    (s : CultNetRudpSession)
    → IsQueue s
    → IsQueue (send_data channel_id payload options max_bytes s).1
unfolding send_data
data-IsQueue channel_id payload options none s q = whole-IsQueue channel_id payload options s q
data-IsQueue channel_id payload options (some max_bytes) s q = elim (Bool-cases (max_bytes == 0)) [
  | inl z ↦ rw z q
  | inr n ↦ rw n (elim (Bool-cases (ltb max_bytes (length payload))) [
    | inl long ↦ rw long (split-IsQueue channel_id payload options max_bytes s q)
    | inr short ↦ rw short (whole-IsQueue channel_id payload options s q)
  ])
]

pub send-IsQueue :
    (channel_id payload : List ℕ) (options : CultNetRudpSendOptions) (max_bytes : Option ℕ)
    (s : CultNetRudpSession)
    → IsQueue s
    → IsQueue (send_many channel_id payload options max_bytes s).1
unfolding send_many
send-IsQueue channel_id payload options max_bytes s q =
    check_then-IsQueue (if s.connected then ok tt else err Packet.not_connected) s _ q (λ _.
      data-IsQueue channel_id payload options max_bytes (purge_expired_reliable options.now_ms s)
        (purge-IsQueue options.now_ms s q))

acknowledge-IsQueue :
    (packet : CultNetRudpPacket) (s : CultNetRudpSession)
    → IsQueue s
    → IsQueue (apply_acknowledgements packet s)
unfolding apply_acknowledgements
acknowledge-IsQueue packet s q =
    let (kept, shorter) =
      apply_mask_loop-entries 32 0 packet.ack packet.ack_mask s.next_sequence
        (remove packet.ack s.pending_reliable)
        (All-remove (IsEntry s.next_sequence) packet.ack s.pending_reliable q.entries) in
    record {
      bounded =
          AtMost-le s.max_pending_reliable_packets _ _
            (omega (arith, length-remove-le packet.ack s.pending_reliable)) q.bounded;
      entries = kept;
    }

pub receive-IsQueue :
    (packet : CultNetRudpPacket) (now_ms : ℕ) (s : CultNetRudpSession)
    → IsQueue s
    → IsQueue (receive packet now_ms s).1
unfolding receive
receive-IsQueue packet now_ms s q = check_then-IsQueue (require_connection packet s) s _ q (λ _.
    let a = acknowledge-IsQueue packet s q in
    let t = record (apply_acknowledgements packet s) { last_received_at_ms = some now_ms } in
    let u : IsQueue t = record { bounded = a.bounded; entries = a.entries } in
    check_then-IsQueue (expected_sequence packet t) t _ u
      (λ expected. Keeps-IsQueue (dispatch-Keeps packet.packet_type packet expected t) u))

due_loop-entries :
    (now_ms delay next : ℕ) (m : BTreeMap ℕ PendingReliablePacket)
    → All (IsEntry next) m
    → All (IsEntry next) (due_loop now_ms delay m).0
      × (length (due_loop now_ms delay m).0 ≡ length m)
unfolding due_loop
due_loop-entries now_ms delay next [] h = (tt, refl)
due_loop-entries now_ms delay next ((k, pending) ∷ m) (hk, hm) =
    let (kept, same) = due_loop-entries now_ms delay next m hm in
    elim (Bool-cases (is_due now_ms delay pending)) [
      | inl due ↦ rw due ((hk, kept), omega arith)
      | inr later ↦ rw later ((hk, kept), omega arith)
    ]

pub resend-IsQueue :
    (now_ms : ℕ) (s : CultNetRudpSession) → IsQueue s → IsQueue (due_resends now_ms s).1
unfolding due_resends
resend-IsQueue now_ms s q =
    let purged = purge_expired_reliable now_ms s in
    let p : IsQueue purged = purge-IsQueue now_ms s q in
    let (kept, same) =
      due_loop-entries now_ms s.resend_delay_ms purged.next_sequence purged.pending_reliable
        p.entries in
    record { bounded = rw same p.bounded; entries = kept }
