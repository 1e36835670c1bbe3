-- ===== src/Message/Codec/RoundTrip.antt =====
-- src/contracts.rs: which messages, written under a contract, are read back under it.
use cultnet_rs.Base.{ℕ, ◌≡◌, refl, ◌∙◌, List, ◌∷◌, true, if◌then◌else◌, some}
use cultnet_rs.Base.Order.{bytes_eq}
use cultnet_rs.Base.Base64.{Base64, IsBase64}
use cultnet_rs.Base.Text.{codes}
use cultnet_rs.Base.Outcome.{ok, >>=-eq-ok, ok-injective}
use cultnet_rs.Message
use cultnet_rs.Message.{
  CultNetMessage, CultNetWireContract, cultnet_schema_v0, gamecult_networking_v0,
}
use cultnet_rs.Message.Validate.{validate_message}
use cultnet_rs.Message.Wire.{Value}
use cultnet_rs.Message.Raw.{encode_raw_cultnet_schema_message}
use cultnet_rs.Message.Raw.RoundTrip.{parse_raw-encode_raw}
use cultnet_rs.Message.Legacy.RoundTrip.{as_legacy, parse_gamecult-encode_gamecult}
use cultnet_rs.Message.Codec.{
  tag, is_raw, schema_version_from_wire_value, schema_version_entry, Serde, parse_by_version,
  encode_schema_message, parse_cultnet_message, encode_cultnet_message_for_wire,
}

-- What a contract keeps of a message.
abbrev pub as_read : CultNetWireContract → CultNetMessage → CultNetMessage
as_read cultnet_schema_v0 message = message
as_read gamecult_networking_v0 message = as_legacy message

-- The message is written and read by the code's own functions under the contract, and not by serde.
abbrev pub HasOwnCodec : CultNetWireContract → CultNetMessage → Type 0
HasOwnCodec cultnet_schema_v0 message = is_raw (tag message) ≡ true
HasOwnCodec gamecult_networking_v0 message = Unit {0}

module _ (V : Type 0) ⦃rmpv : Value V⦄ where
  entry_lem :
      (key version : List ℕ) (entries : List (V × V))
      → schema_version_entry ((rmpv.string key, rmpv.string version) ∷ entries) ≡ (
          if bytes_eq key (codes "schemaVersion")
          then some version
          else schema_version_entry entries)
  unfolding schema_version_entry
  entry_lem key version entries =
      rw (schema_version_entry, rmpv.as_str-string key, rmpv.as_str-string version)

  raw_tag :
      (message : CultNetMessage) (value : V)
      → encode_raw_cultnet_schema_message message ≡ ok value
      → schema_version_from_wire_value value ≡ some (tag message)
  unfolding encode_raw_cultnet_schema_message schema_version_from_wire_value tag
  raw_tag (Message.document_put_raw message_id document) value e =
      rw (← ok-injective e) (simp (rmpv.as_map-object, entry_lem))
  raw_tag (Message.snapshot_response_raw message_id documents) value e =
      rw (← ok-injective e) (simp (rmpv.as_map-object, entry_lem))
  raw_tag other value e = cc

  module _ (engine : Base64) (serde : Serde V) where
    by_version :
        (message : CultNetMessage) (value : V)
        → is_raw (tag message) ≡ true
        → encode_schema_message engine serde message ≡ ok value
        → parse_by_version engine serde value ≡ ok message
    unfolding encode_schema_message parse_by_version tag
    by_version (Message.document_put_raw message_id document) value raw e =
        rw (parse_by_version, raw_tag (Message.document_put_raw message_id document) value e)
          (parse_raw-encode_raw V (Message.document_put_raw message_id document) value e)
    by_version (Message.snapshot_response_raw message_id documents) value raw e =
        rw (parse_by_version, raw_tag (Message.snapshot_response_raw message_id documents) value e)
          (parse_raw-encode_raw V (Message.snapshot_response_raw message_id documents) value e)
    by_version other value raw e = cc

    raw_encodes :
        (message : CultNetMessage)
        → is_raw (tag message) ≡ true
        → (value : V) × (encode_schema_message engine serde message ≡ ok value)
    unfolding encode_schema_message encode_raw_cultnet_schema_message tag
    raw_encodes (Message.document_put_raw message_id document) raw = (_, refl)
    raw_encodes (Message.snapshot_response_raw message_id documents) raw = (_, refl)
    raw_encodes other raw = cc

    valid_encodes :
        (message : CultNetMessage)
        → validate_message message ≡ ok tt
        → encode_cultnet_message_for_wire engine serde message cultnet_schema_v0
          ≡ encode_schema_message engine serde message
    unfolding encode_cultnet_message_for_wire
    valid_encodes message valid = rw valid

    module _ (laws : IsBase64 engine) where
      -- A raw message that is written under cultnet.schema.v0, or a message that is written under
      -- gamecult.networking.v0, is read back under the same contract. In the latter an absent `include_schema_json`
      -- is read as false. Of the other messages of cultnet.schema.v0, which serde writes, nothing is said.
      pub parse-encode :
          (contract : CultNetWireContract) (message : CultNetMessage) (value : V)
          → HasOwnCodec contract message
          → encode_cultnet_message_for_wire engine serde message contract ≡ ok value
          → parse_cultnet_message engine serde value contract ≡ ok (as_read contract message)
      unfolding encode_cultnet_message_for_wire parse_cultnet_message
      parse-encode cultnet_schema_v0 message value raw e =
          let (_, valid, e1) = >>=-eq-ok _ (validate_message message) e in
          rw (by_version message value raw e1, valid)
      parse-encode gamecult_networking_v0 message value own e =
          let (_, valid, e1) = >>=-eq-ok _ (validate_message message) e in
          parse_gamecult-encode_gamecult V engine laws message value e1

      -- A raw message that a node reads from the schema contract can be passed on: it is written again, and what
      -- is written is read as the same message.
      pub encode-parse :
          (message : CultNetMessage) (value : V)
          → is_raw (tag message) ≡ true
          → parse_cultnet_message engine serde value cultnet_schema_v0 ≡ ok message
          → (again : V) × (encode_cultnet_message_for_wire engine serde message cultnet_schema_v0
              ≡ ok again)
            × (parse_cultnet_message engine serde again cultnet_schema_v0 ≡ ok message)
      unfolding parse_cultnet_message
      encode-parse message value raw e =
          let (read, _, e1) = >>=-eq-ok _ (parse_by_version engine serde value) e in
          let (_, valid, e2) = >>=-eq-ok _ (validate_message read) e1 in
          let valid' : validate_message message ≡ ok tt = rw (ok-injective e2) at valid in
          let (again, sent) = raw_encodes message raw in
          let written = valid_encodes message valid' ∙ sent in
          (again, written, parse-encode cultnet_schema_v0 message again raw written)
