-- ===== src/Message/Codec.antt =====
-- src/contracts.rs: `parse_cultnet_message`, `encode_cultnet_message_for_wire` and the two that
-- read and write bytes. The packages serde_json and rmp_serde are arguments.
pub mod RoundTrip
pub mod Unvalidated
mod Toy
mod Tests
use cultnet_rs.Base.{
  ℕ, ◌≡◌, List, [], ◌∷◌, Bool, true, false, ◌||◌, if◌then◌else◌, Option, none, some,
}
use cultnet_rs.Base.Base64.{Base64}
use cultnet_rs.Base.Text.{codes}
use cultnet_rs.Base.Order.{bytes_eq}
use cultnet_rs.Base.Outcome.{Outcome, ok, err, panic, ◌>>=◌, ◌>>◌}
use cultnet_rs.Message
use cultnet_rs.Message.{
  CultNetMessage, CultNetWireContract, cultnet_schema_v0, gamecult_networking_v0,
}
use cultnet_rs.Message.Validate.{validate_message}
use cultnet_rs.Message.Wire.{Value, Parsed, and_then}
use cultnet_rs.Message.Raw.{
  put_raw, response_raw, parse_raw_cultnet_schema_message, encode_raw_cultnet_schema_message,
}
use cultnet_rs.Message.Legacy.{
  parse_gamecult_networking_message, encode_gamecult_networking_message,
}

-- The tag that the attributes of `CultNetMessage` give each message.
unfoldable pub tag : CultNetMessage → List ℕ
tag (Message.hello h) = codes "cultnet.hello.v0"
tag (Message.login nonce auth password) = codes "cultnet.login.v0"
tag (Message.register nonce email password name) = codes "cultnet.register.v0"
tag (Message.verify nonce session) = codes "cultnet.verify.v0"
tag (Message.login_success nonce session) = codes "cultnet.login_success.v0"
tag (Message.error error) = codes "cultnet.error.v0"
tag (Message.sample_change_name name) = codes "cultnet.sample.change_name.v0"
tag (Message.sample_chat text) = codes "cultnet.sample.chat.v0"
tag (Message.document_put message_id document) = codes "cultnet.document_put.v0"
tag (Message.document_delete message_id schema_id record_key) = codes "cultnet.document_delete.v0"
tag (Message.document_put_raw message_id document) = put_raw
tag (Message.snapshot_request message_id schema_ids record_keys) =
    codes "cultnet.snapshot_request.v0"
tag (Message.snapshot_response message_id documents) = codes "cultnet.snapshot_response.v0"
tag (Message.snapshot_response_raw message_id documents) = response_raw
tag (Message.schema_catalog_request message_id include_schema_json schema_ids kinds) =
    codes "cultnet.schema_catalog_request.v0"
tag (Message.schema_catalog_response message_id schemas) =
    codes "cultnet.schema_catalog_response.v0"

abbrev pub is_raw : List ℕ → Bool
is_raw version = bytes_eq version put_raw || bytes_eq version response_raw

module _ {V : Type 0} ⦃rmpv : Value V⦄ where
  unfoldable pub schema_version_entry : List (V × V) → Option (List ℕ)
  schema_version_entry [] = none
  schema_version_entry ((key, value) ∷ entries) =
      let rest = schema_version_entry entries in
      elim (rmpv.as_str key) [
        | none ↦ rest
        | some candidate ↦
            if bytes_eq candidate (codes "schemaVersion")
            then elim (rmpv.as_str value) [ none ↦ rest | some version ↦ some version ]
            else rest
      ]

  unfoldable pub schema_version_from_wire_value : V → Option (List ℕ)
  schema_version_from_wire_value input = and_then (rmpv.as_map input) schema_version_entry

-- Conversions by serde: of a message to a value and back, of a value to bytes and back.
pub record Serde (V : Type 0) : Type 0 where
  pub to_value : CultNetMessage → Parsed V
  pub from_value : V → Parsed CultNetMessage
  pub to_vec : V → Parsed (List ℕ)
  pub from_slice : List ℕ → Parsed V

module _ {V : Type 0} ⦃rmpv : Value V⦄ (engine : Base64) (serde : Serde V) where
  unfoldable pub parse_by_version : V → Parsed CultNetMessage
  parse_by_version wire_value = elim (schema_version_from_wire_value wire_value) [
    | none ↦ serde.from_value wire_value
    | some version ↦
        if is_raw version
        then parse_raw_cultnet_schema_message wire_value
        else serde.from_value wire_value
  ]

  unfoldable pub parse_cultnet_message : V → CultNetWireContract → Parsed CultNetMessage
  parse_cultnet_message wire_value cultnet_schema_v0 = do
    message ← parse_by_version wire_value
    validate_message message
    ok message
  parse_cultnet_message wire_value gamecult_networking_v0 =
      parse_gamecult_networking_message engine wire_value

  unfoldable pub encode_schema_message : CultNetMessage → Parsed V
  encode_schema_message (Message.document_put_raw message_id document) =
      encode_raw_cultnet_schema_message (Message.document_put_raw message_id document)
  encode_schema_message (Message.snapshot_response_raw message_id documents) =
      encode_raw_cultnet_schema_message (Message.snapshot_response_raw message_id documents)
  encode_schema_message message = serde.to_value message

  abbrev encode_by_contract : CultNetMessage → CultNetWireContract → Parsed V
  encode_by_contract message cultnet_schema_v0 = encode_schema_message message
  encode_by_contract message gamecult_networking_v0 =
      encode_gamecult_networking_message engine message

  unfoldable pub encode_cultnet_message_for_wire : CultNetMessage → CultNetWireContract → Parsed V
  encode_cultnet_message_for_wire message contract = do
    validate_message message
    encode_by_contract message contract

  unfoldable pub encode_cultnet_message_to_vec :
      CultNetMessage → CultNetWireContract → Parsed (List ℕ)
  encode_cultnet_message_to_vec message contract = do
    wire_value ← encode_cultnet_message_for_wire message contract
    serde.to_vec wire_value

  -- Both branches of the code do the same.
  unfoldable pub decode_cultnet_message_from_slice :
      List ℕ → CultNetWireContract → Parsed CultNetMessage
  decode_cultnet_message_from_slice bytes contract = do
    wire_value ← serde.from_slice bytes
    parse_cultnet_message wire_value contract
