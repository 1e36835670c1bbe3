-- ===== src/Message/Raw.antt =====
-- src/contracts.rs: `parse_raw_cultnet_schema_message` and `encode_raw_cultnet_schema_message`.
pub mod RoundTrip
use cultnet_rs.Base.{ℕ, List, [], ◌∷◌, map, Bool, true, false, if◌then◌else◌, Option, none, some}
use cultnet_rs.Base.Text.{codes}
use cultnet_rs.Base.Outcome.{Outcome, ok, err, panic, ◌>>=◌}
use cultnet_rs.Base.Order.{bytes_eq}
use cultnet_rs.Base.Traverse.{traverse}
use cultnet_rs.Message
use cultnet_rs.Message.{
  CultNetRawDocumentRecord, CultNetRawPayloadEncoding, messagepack, CultNetMessage, not_an_object,
  not_an_array, not_binary, unsupported_schema_version, unsupported_encoding, not_a_raw_message,
}
use cultnet_rs.Message.Wire.{
  Value, Parsed, ok_or, and_then, get, require_legacy_string, require_legacy_optional_string,
  require_legacy_optional_string_array, optional_string, legacy_optional_string_array,
}

abbrev pub encoding_text : CultNetRawPayloadEncoding → List ℕ
encoding_text messagepack = codes "messagepack"

abbrev pub parse_encoding : List ℕ → Parsed CultNetRawPayloadEncoding
parse_encoding payload_encoding =
    if bytes_eq payload_encoding (codes "messagepack")
    then ok messagepack
    else err unsupported_encoding

abbrev pub put_raw : List ℕ
put_raw = codes "cultnet.document_put_raw.v0"

abbrev pub response_raw : List ℕ
response_raw = codes "cultnet.snapshot_response_raw.v0"

module _ {V : Type 0} ⦃rmpv : Value V⦄ where
  unfoldable pub require_raw_document_record : Option V → Parsed CultNetRawDocumentRecord
  require_raw_document_record value = do
    object ← ok_or (and_then value rmpv.as_map) not_an_object
    payload_encoding ← require_legacy_string (get object (codes "payloadEncoding"))
    schema_id ← require_legacy_string (get object (codes "schemaId"))
    record_key ← require_legacy_string (get object (codes "recordKey"))
    stored_at ← require_legacy_string (get object (codes "storedAt"))
    payload_encoding ← parse_encoding payload_encoding
    payload ← ok_or (and_then (get object (codes "payload")) rmpv.as_slice) not_binary
    source_runtime_id ← require_legacy_optional_string (get object (codes "sourceRuntimeId"))
    source_agent_id ← require_legacy_optional_string (get object (codes "sourceAgentId"))
    source_role ← require_legacy_optional_string (get object (codes "sourceRole"))
    tags ← require_legacy_optional_string_array (get object (codes "tags"))
    ok (record {
      schema_id = schema_id;
      record_key = record_key;
      stored_at = stored_at;
      payload_encoding = payload_encoding;
      payload = payload;
      source_runtime_id = source_runtime_id;
      source_agent_id = source_agent_id;
      source_role = source_role;
      tags = tags;
    })

  unfoldable pub encode_raw_document_record : CultNetRawDocumentRecord → V
  encode_raw_document_record document = rmpv.object (
      (rmpv.string (codes "schemaId"), rmpv.string document.schema_id)
      ∷ (rmpv.string (codes "recordKey"), rmpv.string document.record_key)
      ∷ (rmpv.string (codes "storedAt"), rmpv.string document.stored_at)
      ∷ (
        rmpv.string (codes "payloadEncoding"),
        rmpv.string (encoding_text document.payload_encoding),
      )
      ∷ (rmpv.string (codes "payload"), rmpv.binary document.payload)
      ∷ (rmpv.string (codes "sourceRuntimeId"), optional_string document.source_runtime_id)
      ∷ (rmpv.string (codes "sourceAgentId"), optional_string document.source_agent_id)
      ∷ (rmpv.string (codes "sourceRole"), optional_string document.source_role)
      ∷ (rmpv.string (codes "tags"), legacy_optional_string_array document.tags)
      ∷ [])

  abbrev parse_put_raw : List (V × V) → Parsed CultNetMessage
  parse_put_raw object = do
    message_id ← require_legacy_string (get object (codes "messageId"))
    document ← require_raw_document_record (get object (codes "document"))
    ok (Message.document_put_raw message_id document)

  abbrev parse_response_raw : List (V × V) → Parsed CultNetMessage
  parse_response_raw object = do
    items ← ok_or (and_then (get object (codes "documents")) rmpv.as_array) not_an_array
    documents ← traverse (λ value. require_raw_document_record (some value)) items
    message_id ← require_legacy_string (get object (codes "messageId"))
    ok (Message.snapshot_response_raw message_id documents)

  unfoldable pub parse_raw_cultnet_schema_message : V → Parsed CultNetMessage
  parse_raw_cultnet_schema_message input = do
    object ← ok_or (rmpv.as_map input) not_an_object
    schema_version ← require_legacy_string (get object (codes "schemaVersion"))
    if bytes_eq schema_version put_raw
        then parse_put_raw object
        else if bytes_eq schema_version response_raw
        then parse_response_raw object
        else err unsupported_schema_version

  unfoldable pub encode_raw_cultnet_schema_message : CultNetMessage → Parsed V
  encode_raw_cultnet_schema_message (Message.document_put_raw message_id document) = ok (
      rmpv.object (
        (rmpv.string (codes "schemaVersion"), rmpv.string put_raw)
        ∷ (rmpv.string (codes "messageId"), rmpv.string message_id)
        ∷ (rmpv.string (codes "document"), encode_raw_document_record document)
        ∷ []))
  encode_raw_cultnet_schema_message (Message.snapshot_response_raw message_id documents) = ok (
      rmpv.object (
        (rmpv.string (codes "schemaVersion"), rmpv.string response_raw)
        ∷ (rmpv.string (codes "messageId"), rmpv.string message_id)
        ∷ (rmpv.string (codes "documents"), rmpv.array (map encode_raw_document_record documents))
        ∷ []))
  encode_raw_cultnet_schema_message other = err not_a_raw_message
