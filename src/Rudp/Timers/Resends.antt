-- ===== src/Rudp/Timers/Resends.antt =====
-- src/rudp.rs: which packets `due_resends` sends again, and in which order.
use cultnet_rs.Base.{ℕ, ◌-◌, ◌≤◌, ◌≡◌, refl, arith, List, [], ◌∷◌, Bool, true, inl, inr, ◌⊎◌}
use cultnet_rs.Base.{Bool-cases, leb, Option, none, some, ◌&&◌}
use cultnet_rs.Base.BTreeMap.{BTreeMap, retain}
use cultnet_rs.Rudp.Packet.{CultNetRudpPacket}
use cultnet_rs.Rudp.State.{CultNetRudpSession, PendingReliablePacket}
use cultnet_rs.Rudp.Create.{is_alive, purge_expired_reliable}
use cultnet_rs.Rudp.Timers.{is_due, due_loop, insert_by_sequence, sort_by_sequence, due_resends}
use mathlib.Core.Bool.{false≢true}
use mathlib.Core.Path.{fun_ext, subst}
use mathlib.Core.Logic.{◌↔◌}

-- The packet is one of the packets.
abbrev pub Resent : CultNetRudpPacket → List CultNetRudpPacket → Type 0
Resent packet [] = ⊥
Resent packet (other ∷ others) = (packet ≡ other) ⊎ Resent packet others

-- The time has not passed the packet's expiry, if it has one.
abbrev pub unexpired : ℕ → Option ℕ → Bool
unexpired now_ms none = true
unexpired now_ms (some expires_at_ms) = leb now_ms expires_at_ms

-- The entry's packet has not expired, and the delay has passed since it was last sent.
abbrev pub due_now : ℕ → ℕ → PendingReliablePacket → Bool
due_now now_ms delay pending =
    unexpired now_ms pending.expires_at_ms && leb delay (now_ms - pending.last_sent_at_ms)

-- Some entry of the queue holds the packet and passes the test.
abbrev pub Waits :
    (PendingReliablePacket → Bool) → CultNetRudpPacket → BTreeMap ℕ PendingReliablePacket → Type 0
Waits due packet [] = ⊥
Waits due packet ((k, pending) ∷ m) =
    ((packet ≡ pending.packet) × (due pending ≡ true)) ⊎ Waits due packet m

abbrev tested : ℕ → ℕ → PendingReliablePacket → Bool
tested now_ms delay pending = is_alive now_ms pending && is_due now_ms delay pending

tested-due_now :
    (now_ms delay : ℕ) (pending : PendingReliablePacket)
    → tested now_ms delay pending ≡ due_now now_ms delay pending
unfolding is_alive is_due
tested-due_now now_ms delay pending = ground arith

-- Each packet's sequence is at least `from`, and they ascend.
abbrev pub Ascends : ℕ → List CultNetRudpPacket → Type 0
Ascends from [] = Unit {0}
Ascends from (packet ∷ packets) = (from ≤ packet.sequence) × Ascends packet.sequence packets

Ascends-le :
    (a b : ℕ) (packets : List CultNetRudpPacket) → a ≤ b → Ascends b packets → Ascends a packets
Ascends-le a b [] h s = tt
Ascends-le a b (p ∷ packets) h s = (omega (arith, s.0), s.1)

insert-Ascends :
    (from : ℕ) (packet : CultNetRudpPacket) (packets : List CultNetRudpPacket)
    → from ≤ packet.sequence
    → Ascends from packets
    → Ascends from (insert_by_sequence packet packets)
unfolding insert_by_sequence
insert-Ascends from packet [] h s = (h, tt)
insert-Ascends from packet (other ∷ rest) h s =
    elim (Bool-cases (leb packet.sequence other.sequence)) [
      | inl before ↦ rw before (h, (ground arith, s.1))
      | inr after ↦ rw after (s.0, insert-Ascends other.sequence packet rest (ground arith) s.1)
    ]

sort-Ascends : (packets : List CultNetRudpPacket) → Ascends 0 (sort_by_sequence packets)
unfolding sort_by_sequence
sort-Ascends [] = tt
sort-Ascends (packet ∷ packets) =
    insert-Ascends 0 packet (sort_by_sequence packets) (omega arith) (sort-Ascends packets)

insert-Resent :
    (p packet : CultNetRudpPacket) (packets : List CultNetRudpPacket)
    → ((p ≡ packet) ⊎ Resent p packets → Resent p (insert_by_sequence packet packets))
      × (Resent p (insert_by_sequence packet packets) → (p ≡ packet) ⊎ Resent p packets)
unfolding insert_by_sequence
insert-Resent p packet [] = (λ h. h, λ h. h)
insert-Resent p packet (other ∷ rest) =
    let (to, from) = insert-Resent p packet rest in
    elim (Bool-cases (leb packet.sequence other.sequence)) [
      | inl before ↦ rw before (λ h. h, λ h. h)
      | inr after ↦ rw after (
        λ h. elim h [
          | inl e ↦ inr (to (inl e))
          | inr r ↦ elim r [ inl e ↦ inl e | inr q ↦ inr (to (inr q)) ]
        ],
        λ h. elim h [
          | inl e ↦ inr (inl e)
          | inr r ↦ elim (from r) [ inl e ↦ inl e | inr q ↦ inr (inr q) ]
        ],
      )
    ]

sort-Resent :
    (p : CultNetRudpPacket) (packets : List CultNetRudpPacket)
    → (Resent p packets → Resent p (sort_by_sequence packets))
      × (Resent p (sort_by_sequence packets) → Resent p packets)
unfolding sort_by_sequence
sort-Resent p [] = (λ h. h, λ h. h)
sort-Resent p (packet ∷ packets) =
    let (to, from) = sort-Resent p packets in
    let (put, got) = insert-Resent p packet (sort_by_sequence packets) in
    (
      λ h. elim h [ inl e ↦ put (inl e) | inr r ↦ put (inr (to r)) ],
      λ h. elim (got h) [ inl e ↦ inl e | inr r ↦ inr (from r) ],
    )

due_loop-Resent :
    (now_ms delay : ℕ) (p : CultNetRudpPacket) (m : BTreeMap ℕ PendingReliablePacket)
    → (Waits (tested now_ms delay) p m
        → Resent p (due_loop now_ms delay (retain (is_alive now_ms) m)).1)
      × (Resent p (due_loop now_ms delay (retain (is_alive now_ms) m)).1
          → Waits (tested now_ms delay) p m)
unfolding due_loop retain
due_loop-Resent now_ms delay p [] = (λ h. h, λ h. h)
due_loop-Resent now_ms delay p ((k, pending) ∷ m) =
    let (to, from) = due_loop-Resent now_ms delay p m in
    elim (Bool-cases (is_alive now_ms pending)) [
      | inr expired ↦
          rw expired
            (λ h. elim h [ inl e ↦ absurd (false≢true e.1) | inr r ↦ to r ], λ h. inr (from h))
      | inl alive ↦ rw alive (elim (Bool-cases (is_due now_ms delay pending)) [
        | inl due ↦ rw due (
          λ h. elim h [ inl e ↦ inl e.0 | inr r ↦ inr (to r) ],
          λ h. elim h [ inl e ↦ inl (e, refl) | inr r ↦ inr (from r) ],
        )
        | inr later ↦
            rw later
              (λ h. elim h [ inl e ↦ absurd (false≢true e.1) | inr r ↦ to r ], λ h. inr (from h))
      ])
    ]

-- At any time and in any session, `due_resends` gives exactly those packets `p` of the queue that have not expired and
-- whose resend delay has passed since they were last sent, in the order of their sequences.
pub due_resends-Ascends :
    (now_ms : ℕ) (s : CultNetRudpSession) (p : CultNetRudpPacket)
    → Ascends 0 (due_resends now_ms s).0
      × (Waits (due_now now_ms s.resend_delay_ms) p s.pending_reliable
          ↔ Resent p (due_resends now_ms s).0)
unfolding due_resends purge_expired_reliable
due_resends-Ascends now_ms s p =
    let sent =
      (due_loop now_ms s.resend_delay_ms (retain (is_alive now_ms) s.pending_reliable)).1 in
    let same : tested now_ms s.resend_delay_ms ≡ due_now now_ms s.resend_delay_ms =
      fun_ext (tested-due_now now_ms s.resend_delay_ms) in
    let (to, from) =
      subst
        (λ due.
          (Waits due p s.pending_reliable → Resent p sent)
          × (Resent p sent → Waits due p s.pending_reliable))
        same (due_loop-Resent now_ms s.resend_delay_ms p s.pending_reliable) in
    let (put, got) = sort-Resent p sent in (sort-Ascends sent, (λ h. put (to h), λ h. from (got h)))
