-- ===== src/Rudp/Socket/Channels.antt =====
-- src/rudp.rs: what the profile of a transport says of its channels, and how it sends on them.
use cultnet_rs.Base.{
  ℕ, ◌≡◌, refl, List, [], ◌∷◌, ◌++◌, Bool, true, false, All, IsOneOf, inl, inr, map, ◌∙◌,
}
use cultnet_rs.Base.Text.{codes}
use cultnet_rs.Base.Outcome.{ok}
use cultnet_rs.Rudp.Packet.{CultNetRudpPacket}
use cultnet_rs.Rudp.State.{CultNetRudpSession, CultNetRudpSendOptions}
use cultnet_rs.Rudp.Send.{send_many}
use cultnet_rs.Rudp.Send.Flags.{Carries, send_many-Carries}
use cultnet_rs.Rudp.Profile.{channel_send_options, create_rudp_transport_profile}
use cultnet_rs.Rudp.Socket.{CultNetRudpSocketTransportOptions, new}
use cultnet_rs.Transport
use cultnet_rs.Transport.{
  CultNetTransportChannel, CultNetTransportDescriptor, CultNetTransportDelivery,
  CultNetTransportOrdering,
}

abbrev is_reliable : CultNetTransportDelivery → Bool
is_reliable Transport.reliable = true
is_reliable Transport.unreliable = false

abbrev is_ordered : CultNetTransportOrdering → Bool
is_ordered Transport.ordered = true
is_ordered other = false

abbrev is_sequenced : CultNetTransportOrdering → Bool
is_sequenced Transport.sequenced = true
is_sequenced other = false

-- The options send as the profile's channel says.
abbrev Honours : CultNetTransportChannel → CultNetRudpSendOptions → Type 0
Honours channel options =
    (options.reliable ≡ is_reliable channel.delivery)
    × (options.ordered ≡ is_ordered channel.ordering)
    × (options.sequenced ≡ is_sequenced channel.ordering)
    × (options.reliable_expire_after_ms ≡ channel.reliable_expire_after_ms)

-- The packet is one of the channel, as reliable, ordered and sequenced as the profile says.
abbrev pub IsSentOn : CultNetTransportChannel → CultNetRudpPacket → Type 0
IsSentOn channel packet =
    (packet.channel_id ≡ channel.channel_id)
    × (packet.reliable ≡ is_reliable channel.delivery)
    × (packet.ordered ≡ is_ordered channel.ordering)
    × (packet.sequenced ≡ is_sequenced channel.ordering)

abbrev pub channels_of : List CultNetTransportDescriptor → List CultNetTransportChannel
channels_of [] = []
channels_of (transport ∷ transports) = transport.channels ++ channels_of transports

-- The options of a send on a channel of a transport that was made with `options`.
abbrev pub options_on :
    CultNetRudpSocketTransportOptions → CultNetTransportChannel → ℕ → CultNetRudpSendOptions
options_on options channel now_ms =
    channel_send_options (new options).media_reliable_expire_after_ms channel.channel_id now_ms

module _ (options : CultNetRudpSocketTransportOptions) (now_ms : ℕ) where
  channel_send_options-Honours :
      (channel : CultNetTransportChannel)
      → IsOneOf channel (channels_of (new options).profile.transports)
      → Honours channel (options_on options channel now_ms)
  unfolding new create_rudp_transport_profile channel_send_options
  channel_send_options-Honours channel (inl e) = rw (← e) (refl, refl, refl, refl)
  channel_send_options-Honours channel (inr (inl e)) = rw (← e) (refl, refl, refl, refl)
  channel_send_options-Honours channel (inr (inr (inl e))) = rw (← e) (refl, refl, refl, refl)
  channel_send_options-Honours channel (inr (inr (inr (inl e)))) = rw (← e) (refl, refl, refl, refl)
  channel_send_options-Honours channel (inr (inr (inr (inr h)))) = elim h [ ]

  All-IsSentOn :
      (channel : CultNetTransportChannel)
      → Honours channel (options_on options channel now_ms)
      → (packets : List CultNetRudpPacket)
      → All (Carries channel.channel_id (options_on options channel now_ms)) packets
      → All (IsSentOn channel) packets
  All-IsSentOn channel honoured [] h = tt
  All-IsSentOn channel honoured (packet ∷ packets) ((named, r, o, q), others) = (
    (named, r ∙ honoured.0, o ∙ honoured.1, q ∙ honoured.2),
    All-IsSentOn channel honoured packets others,
  )

  -- A transport that was created with the options has the channels "schema", "latest", "realtime" and "media" in its
  -- profile; and when `send_many` makes packets on a channel of the profile, in whatever session, with the options that
  -- the transport chooses for the channel, each packet is one of that channel and as reliable, ordered and sequenced
  -- as the profile says of it, and the expiry in these options is the one that the profile says.
  pub send_many-IsSentOn :
      (channel : CultNetTransportChannel) (payload : List ℕ) (s t : CultNetRudpSession)
      (packets : List CultNetRudpPacket)
      → IsOneOf channel (channels_of (new options).profile.transports)
      → send_many channel.channel_id payload
          (options_on options channel now_ms)
          (new options).max_fragment_bytes
          s
        ≡ (ok packets, t)
      → (map
            (λ (known : CultNetTransportChannel). known.channel_id)
            (channels_of (new options).profile.transports)
          ≡ codes "schema" ∷ codes "latest" ∷ codes "realtime" ∷ codes "media" ∷ [])
        × All (IsSentOn channel) packets
        × ((options_on options channel now_ms).reliable_expire_after_ms
            ≡ channel.reliable_expire_after_ms)
  unfolding new create_rudp_transport_profile
  send_many-IsSentOn channel payload s t packets there sent =
      let honoured = channel_send_options-Honours channel there in
      (
        refl,
        All-IsSentOn channel honoured packets (
            send_many-Carries channel.channel_id payload (options_on options channel now_ms)
              (new options).max_fragment_bytes s t packets sent),
        honoured.3,
      )
