-- ===== src/Message/Raw/RoundTrip.antt =====
-- src/contracts.rs: what `encode_raw_cultnet_schema_message` writes,
-- `parse_raw_cultnet_schema_message` reads.
use cultnet_rs.Base.{◌≡◌, refl, some}
use cultnet_rs.Base.Outcome.{ok, ok-injective}
use cultnet_rs.Base.Traverse.{traverse-map}
use cultnet_rs.Message
use cultnet_rs.Message.{
  CultNetRawDocumentRecord, CultNetRawPayloadEncoding, CultNetMessage, messagepack,
}
use cultnet_rs.Message.Wire.{Value}
use cultnet_rs.Message.Wire.Laws.{
  get-string, require_legacy_string-string, require_legacy_optional_string-optional_string,
  optional_string_array_lem,
}
use cultnet_rs.Message.Raw.{
  parse_encoding, encoding_text, require_raw_document_record, encode_raw_document_record,
  parse_raw_cultnet_schema_message, encode_raw_cultnet_schema_message,
}

parse_encoding-text :
    (encoding : CultNetRawPayloadEncoding) → parse_encoding (encoding_text encoding) ≡ ok encoding
parse_encoding-text messagepack = refl

module _ (V : Type 0) ⦃rmpv : Value V⦄ where
  record_lem :
      (document : CultNetRawDocumentRecord)
      → require_raw_document_record (some (encode_raw_document_record {V = V} document))
        ≡ ok document
  unfolding require_raw_document_record encode_raw_document_record
  record_lem document = simp (
    rmpv.as_map-object,
    rmpv.as_slice-binary,
    get-string V,
    require_legacy_string-string V,
    require_legacy_optional_string-optional_string V,
    optional_string_array_lem V,
    parse_encoding-text,
  )

  -- What the raw contract writes of a message, it reads back as that message.
  pub parse_raw-encode_raw :
      (message : CultNetMessage) (value : V)
      → encode_raw_cultnet_schema_message message ≡ ok value
      → parse_raw_cultnet_schema_message value ≡ ok message
  unfolding parse_raw_cultnet_schema_message encode_raw_cultnet_schema_message
  parse_raw-encode_raw (Message.document_put_raw message_id document) value e =
      rw (← ok-injective e)
        (simp (rmpv.as_map-object, get-string V, require_legacy_string-string V, record_lem))
  parse_raw-encode_raw (Message.snapshot_response_raw message_id documents) value e =
      rw (← ok-injective e) (
        simp (
          rmpv.as_map-object,
          rmpv.as_array-array,
          get-string V,
          require_legacy_string-string V,
          traverse-map (λ (value : V). require_raw_document_record (some value))
              encode_raw_document_record record_lem,
        ))
  parse_raw-encode_raw other value e = cc
