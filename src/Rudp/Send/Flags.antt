-- ===== src/Rudp/Send/Flags.antt =====
-- src/rudp.rs: the channel and the flags of the packets that `send_many` makes.
use cultnet_rs.Base.{
  ℕ, zero, suc, ◌+◌, ◌==◌, ◌≡◌, refl, subst, Bool, List, ◌∷◌, true, false, ltb, if◌then◌else◌,
  Option, none, some, All, inl, inr, Bool-cases, length,
}
use cultnet_rs.Base.Outcome.{Outcome, ok, err, panic, Outcome-cases}
use cultnet_rs.Rudp.Packet
use cultnet_rs.Rudp.Packet.{CultNetRudpPacket, RudpError}
use cultnet_rs.Rudp.State.{CultNetRudpSession, CultNetRudpSendOptions, then_run, u16_max}
use cultnet_rs.Rudp.Create.{
  stamp, create_packet_with_fragments, ensure_reliable_capacity, purge_expired_reliable,
}
use cultnet_rs.Rudp.Send.{
  div_ceil, allocate_fragment_id, send_fragments, send_whole, send_split, send_data, send_many,
}

-- The packet is on the channel and has the flags of the options.
abbrev pub Carries : List ℕ → CultNetRudpSendOptions → CultNetRudpPacket → Type 0
Carries channel_id options packet =
    (packet.channel_id ≡ channel_id)
    × (packet.reliable ≡ options.reliable)
    × (packet.ordered ≡ options.ordered)
    × (packet.sequenced ≡ options.sequenced)

abbrev Sent : Type 0
Sent = Outcome RudpError (List CultNetRudpPacket) × CultNetRudpSession

-- Whatever a run gives, all packets of it carry these.
abbrev CarriesAll :
    List ℕ → CultNetRudpSendOptions → Outcome RudpError (List CultNetRudpPacket) → Type 0
CarriesAll channel_id options (ok packets) = All (Carries channel_id options) packets
CarriesAll channel_id options (err e) = Unit {0}
CarriesAll channel_id options panic = Unit {0}

module _ (channel_id : List ℕ) (payload : List ℕ) (options : CultNetRudpSendOptions) where
  cons-Carries :
      (packet : CultNetRudpPacket) (r : Sent)
      → Carries channel_id options packet
      → CarriesAll channel_id options r.0
      → CarriesAll channel_id options (then_run r (λ packets s. (ok (packet ∷ packets), s))).0
  cons-Carries packet (ok packets, s) one rest = (one, rest)
  cons-Carries packet (err e, s) one rest = tt
  cons-Carries packet (panic, s) one rest = tt

  fragments-Carries :
      (rounds index max_bytes fragment_id fragment_count : ℕ) (s : CultNetRudpSession)
      → CarriesAll channel_id options
          (send_fragments rounds index channel_id payload options max_bytes fragment_id
            fragment_count s).0
  unfolding send_fragments create_packet_with_fragments stamp
  fragments-Carries zero index max_bytes fragment_id fragment_count s = tt
  fragments-Carries (suc rounds) index max_bytes fragment_id fragment_count s =
      elim (Bool-cases (ltb s.next_sequence 0xffff_ffff)) [
        | inr last ↦ rw last tt
        | inl more ↦ rw more (
            cons-Carries _ _ (refl, refl, refl, refl)
              (fragments-Carries rounds (index + 1) max_bytes fragment_id fragment_count _))
      ]

  whole-Carries :
      (s : CultNetRudpSession)
      → CarriesAll channel_id options (send_whole channel_id payload options s).0
  unfolding send_whole create_packet_with_fragments stamp
  whole-Carries s =
      elim (Outcome-cases (ensure_reliable_capacity (if options.reliable then 1 else 0) s)) [
        | inl (done, room) ↦ rw room (elim (Bool-cases (ltb s.next_sequence 0xffff_ffff)) [
          | inr last ↦ rw last tt
          | inl more ↦ rw more ((refl, refl, refl, refl), tt)
        ])
        | inr (inl (e, full)) ↦ rw full tt
        | inr (inr stopped) ↦ rw stopped tt
      ]

  split-Carries :
      (max_bytes : ℕ) (s : CultNetRudpSession)
      → CarriesAll channel_id options (send_split channel_id payload options max_bytes s).0
  unfolding send_split allocate_fragment_id
  split-Carries max_bytes s =
      let count = div_ceil (length payload) max_bytes in
      elim (Bool-cases (ltb u16_max count)) [
        | inl many ↦ rw many tt
        | inr few ↦
            rw few
              (elim (Outcome-cases
                (ensure_reliable_capacity (if options.reliable then count else 0) s)) [
                  | inl (done, room) ↦
                      rw room (fragments-Carries count 0 max_bytes s.next_fragment_id count _)
                  | inr (inl (e, full)) ↦ rw full tt
                  | inr (inr stopped) ↦ rw stopped tt
                ])
      ]

  data-Carries :
      (max_fragment_bytes : Option ℕ) (s : CultNetRudpSession)
      → CarriesAll channel_id options (send_data channel_id payload options max_fragment_bytes s).0
  unfolding send_data
  data-Carries none s = whole-Carries s
  data-Carries (some max_bytes) s = elim (Bool-cases (max_bytes == 0)) [
    | inl nothing ↦ rw nothing tt
    | inr some_bytes ↦ rw some_bytes (elim (Bool-cases (ltb max_bytes (length payload))) [
      | inl long ↦ rw long (split-Carries max_bytes s)
      | inr short ↦ rw short (whole-Carries s)
    ])
  ]

  online-Carries :
      (online : Bool) (s : CultNetRudpSession) (rest : CultNetRudpSession → Sent)
      → ((u : CultNetRudpSession) → CarriesAll channel_id options (rest u).0)
      → CarriesAll channel_id options
          (then_run (if online then ok tt else err Packet.not_connected, s) (λ _. rest)).0
  online-Carries true s rest all = all s
  online-Carries false s rest all = tt

  -- Whatever packets `send_many` makes are on its channel and have the flags of its options.
  pub send_many-Carries :
      (max_fragment_bytes : Option ℕ) (s t : CultNetRudpSession) (packets : List CultNetRudpPacket)
      → send_many channel_id payload options max_fragment_bytes s ≡ (ok packets, t)
      → All (Carries channel_id options) packets
  unfolding send_many
  send_many-Carries max_fragment_bytes s t packets sent =
      subst (λ (r : Sent). CarriesAll channel_id options r.0) sent
        (online-Carries s.connected s
          (λ u.
            send_data channel_id payload options max_fragment_bytes
              (purge_expired_reliable options.now_ms u))
          (λ u. data-Carries max_fragment_bytes (purge_expired_reliable options.now_ms u)))
