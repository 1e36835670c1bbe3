-- ===== src/Transport/Tests.antt =====
-- src/transport.rs: the reconnect policy and a framed connection on concrete values.
use cultnet_rs.Base.{◌≡◌, refl, arith, [], ◌∷◌, true, none}
use cultnet_rs.Base.Outcome.{ok}
use cultnet_rs.Base.Bytes.{to_be_bytes}
use cultnet_rs.Base.Text.{codes}
use cultnet_rs.Framing.{encode_frame}
use cultnet_rs.Transport.{CultNetTransportProfile}
use cultnet_rs.Transport.Reconnect.{CultNetReconnectPolicy, compute_reconnect_delay_ms}
use cultnet_rs.Transport.Reconnect.{compute_reconnect_delay_ms_lem}
use cultnet_rs.Transport.TcpFramed.{TcpFramedTransportConnection, new, send, receive}
use cultnet_rs.Transport.TcpFramed.{receive-send}

abbrev policy : CultNetReconnectPolicy
policy = record {
  schema_version = codes "cultnet.reconnect_policy.v0";
  policy_id = codes "default";
  base_delay_ms = 1000;
  max_delay_ms = 30000;
  max_jitter_ms = 250;
  max_attempts = none;
}

compute_reconnect_delay_ms_example : compute_reconnect_delay_ms policy 4 900 ≡ ok 8250
compute_reconnect_delay_ms_example = compute_reconnect_delay_ms_lem policy 4 900 (omega arith)

abbrev profile : CultNetTransportProfile
profile = record { schema_version = []; runtime_id = []; transports = [] }

abbrev one : TcpFramedTransportConnection
one = new (record { incoming = []; outgoing = []; writable = true }) profile

abbrev other : TcpFramedTransportConnection
other =
    new (record { incoming = 0 ∷ 0 ∷ 0 ∷ 2 ∷ 8 ∷ 9 ∷ 7 ∷ []; outgoing = []; writable = true })
      profile

receive-send_example :
    ((send (codes "schema") (8 ∷ 9 ∷ []) one).0 ≡ ok tt)
    × ((send (codes "schema") (8 ∷ 9 ∷ []) one).1.stream.outgoing ≡ 0 ∷ 0 ∷ 0 ∷ 2 ∷ 8 ∷ 9 ∷ [])
    × ((send (codes "schema") (8 ∷ 9 ∷ []) one).1.stats.bytes_sent ≡ 6)
    × ((receive other).0 ≡ ok (record { channel_id = codes "schema"; payload = 8 ∷ 9 ∷ [] }))
    × ((receive other).1.stream.incoming ≡ 7 ∷ [])
    × ((receive other).1.stats.bytes_received ≡ 6)
receive-send_example =
    receive-send (8 ∷ 9 ∷ []) (0 ∷ 0 ∷ 0 ∷ 2 ∷ 8 ∷ 9 ∷ []) (7 ∷ []) one other
      (unfold encode_frame to_be_bytes in refl) refl refl
