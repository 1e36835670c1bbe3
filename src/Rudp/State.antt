-- ===== src/Rudp/State.antt =====
-- src/rudp.rs: the state of a session, and the runs of its methods.
use cultnet_rs.Base.{ℕ, ◌+◌, List, [], Bool, true, false, ltb, ◌==◌}
use cultnet_rs.Base.{Option, none, some, if◌then◌else◌}
use cultnet_rs.Base.Outcome.{Outcome, ok, err, panic}
use cultnet_rs.Base.BTreeMap.{BTreeMap}
use cultnet_rs.Rudp.Packet.{CultNetRudpPacket, RudpError, connection_id_mismatch}

pub record CultNetRudpDeliveredFrame : Type 0 where
  pub channel_id : List ℕ
  pub payload : List ℕ
  pub sequence : ℕ

pub record CultNetRudpReceiveResult : Type 0 where
  pub delivered : List CultNetRudpDeliveredFrame
  pub reply : Option CultNetRudpPacket
  pub pong : Bool
  pub pong_payload : List ℕ
  pub disconnected : Bool
  pub disconnect_reason : List ℕ

pub record CultNetRudpSessionOptions : Type 0 where
  pub connection_id : ℕ
  pub initial_sequence : ℕ
  pub resend_delay_ms : ℕ
  pub max_pending_reliable_packets : Option ℕ

abbrev pub default_session_options : CultNetRudpSessionOptions
default_session_options = record {
  connection_id = 0;
  initial_sequence = 1;
  resend_delay_ms = 250;
  max_pending_reliable_packets = none;
}

pub record CultNetRudpSendOptions : Type 0 where
  pub reliable : Bool
  pub ordered : Bool
  pub sequenced : Bool
  pub now_ms : ℕ
  pub reliable_expire_after_ms : Option ℕ

pub record PendingReliablePacket : Type 0 where
  pub packet : CultNetRudpPacket
  pub last_sent_at_ms : ℕ
  pub expires_at_ms : Option ℕ

pub record PendingOrderedFrame : Type 0 where
  pub frame : CultNetRudpDeliveredFrame
  pub next_sequence : ℕ

pub record FragmentBuffer : Type 0 where
  pub channel_id : List ℕ
  pub ordered : Bool
  pub fragment_count : ℕ
  pub payloads : BTreeMap ℕ (List ℕ)
  pub sequences : BTreeMap ℕ ℕ

pub record CultNetRudpSession : Type 0 where
  pub connection_id : ℕ
  pub resend_delay_ms : ℕ
  pub max_pending_reliable_packets : Option ℕ
  pub next_sequence : ℕ
  pub next_fragment_id : ℕ
  pub connected : Bool
  pub last_received_at_ms : Option ℕ
  pub highest_received_sequence : Option ℕ
  pub received_sequences : BTreeMap ℕ (Unit {0})
  pub pending_reliable : BTreeMap ℕ PendingReliablePacket
  pub ordered_next_sequence_by_channel : BTreeMap (List ℕ) ℕ
  pub ordered_buffers : BTreeMap (List ℕ) (BTreeMap ℕ PendingOrderedFrame)
  pub fragment_buffers : BTreeMap (List ℕ × ℕ) FragmentBuffer
  pub highest_delivered_sequenced_by_channel : BTreeMap (List ℕ) ℕ
  pub reliable_packets_expired : ℕ

-- A method on `&mut self`: its result, and the session that it leaves, also after an error.
abbrev pub Run : Type 0 → Type 0
Run A = CultNetRudpSession → Outcome RudpError A × CultNetRudpSession

abbrev pub then_run :
    {A B : Type 0}
    → Outcome RudpError A × CultNetRudpSession
    → (A → Run B)
    → Outcome RudpError B × CultNetRudpSession
then_run (ok a, s) f = f a s
then_run (err e, s) f = (err e, s)
then_run (panic, s) f = (panic, s)

infixl 5 ◌>>=◌ ◌>>◌
abbrev pub ◌>>=◌ : {A B : Type 0} → Run A → (A → Run B) → Run B
◌>>=◌ m f s = then_run (m s) f

abbrev pub ◌>>◌ : {B : Type 0} → Run (Unit {0}) → Run B → Run B
◌>>◌ m k s = then_run (m s) (λ _. k)

abbrev pub return : {A : Type 0} → A → Run A
return a s = (ok a, s)

-- A step on `&self` that may fail.
abbrev pub check : {A : Type 0} → (CultNetRudpSession → Outcome RudpError A) → Run A
check f s = (f s, s)

-- A step that changes the session and cannot fail.
abbrev pub modify : (CultNetRudpSession → CultNetRudpSession) → Run (Unit {0})
modify f s = (ok tt, f s)

abbrev pub u32_max : ℕ
u32_max = 0xffff_ffff

abbrev pub u16_max : ℕ
u16_max = 0xffff

abbrev pub u64_max : ℕ
u64_max = 0xffff_ffff_ffff_ffff

-- `n + 1` on a `u32`: an overflow panics, by `checked_add(..).expect(..)` or by the check of `+`.
abbrev pub u32_succ : ℕ → Outcome RudpError ℕ
u32_succ n = if ltb n u32_max then ok (n + 1) else panic

unfoldable pub new : CultNetRudpSessionOptions → CultNetRudpSession
new options = record {
  connection_id = options.connection_id;
  resend_delay_ms = options.resend_delay_ms;
  max_pending_reliable_packets = options.max_pending_reliable_packets;
  next_sequence = options.initial_sequence;
  next_fragment_id = 1;
  connected = false;
  last_received_at_ms = none;
  highest_received_sequence = none;
  received_sequences = [];
  pending_reliable = [];
  ordered_next_sequence_by_channel = [];
  ordered_buffers = [];
  fragment_buffers = [];
  highest_delivered_sequenced_by_channel = [];
  reliable_packets_expired = 0;
}

unfoldable pub reset_peer_state : CultNetRudpSession → CultNetRudpSession
reset_peer_state s = record s {
  connected = false;
  last_received_at_ms = none;
  highest_received_sequence = none;
  received_sequences = [];
  pending_reliable = [];
  ordered_next_sequence_by_channel = [];
  ordered_buffers = [];
  fragment_buffers = [];
  highest_delivered_sequenced_by_channel = [];
}

unfoldable pub assume_connected : ℕ → CultNetRudpSession → CultNetRudpSession
assume_connected now_ms s = record s { connected = true; last_received_at_ms = some now_ms }

unfoldable pub require_connection :
    CultNetRudpPacket → CultNetRudpSession → Outcome RudpError (Unit {0})
require_connection packet s =
    if packet.connection_id == s.connection_id then ok tt else err connection_id_mismatch
