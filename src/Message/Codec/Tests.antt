-- ===== src/Message/Codec/Tests.antt =====
-- src/contracts.rs: the two contracts on small messages.
use cultnet_rs.Base.{◌≡◌, refl, [], ◌∷◌, true, none, some}
use cultnet_rs.Base.Base64.Letters.{engine, engine_laws}
use cultnet_rs.Base.Int.{pos}
use cultnet_rs.Base.Text.{codes, trim_is_empty, chars, chars?, is_whitespace}
use cultnet_rs.Base.Traverse.{for_each}
use cultnet_rs.Base.Outcome.{ok, err}
use cultnet_rs.Message
use cultnet_rs.Message.{
  CultNetMessage, CultNetRawDocumentRecord, messagepack, empty_field, cultnet_schema_v0,
  gamecult_networking_v0,
}
use cultnet_rs.Message.Validate.{validate_message, validate_raw_document_record}
use cultnet_rs.Message.Wire.{require_legacy_string}
use cultnet_rs.Message.Raw.{
  parse_raw_cultnet_schema_message, encode_raw_cultnet_schema_message, encode_raw_document_record,
}
use cultnet_rs.Message.Raw.RoundTrip.{parse_raw-encode_raw}
use cultnet_rs.Message.Legacy.{
  parse_gamecult_networking_message, encode_gamecult_networking_message, legacy_bytes,
}
use cultnet_rs.Message.Legacy.RoundTrip.{parse_gamecult-encode_gamecult}
use cultnet_rs.Message.Codec.{
  tag, is_raw, parse_cultnet_message, encode_schema_message, encode_cultnet_message_for_wire,
  encode_cultnet_message_to_vec, decode_cultnet_message_from_slice,
}
use cultnet_rs.Message.Codec.Toy.{Rmp, rmp_value, serde}
use cultnet_rs.Message.Codec.RoundTrip.{parse-encode, encode-parse}
use cultnet_rs.Message.Codec.Unvalidated.{parse-blank-encode-blank}

abbrev document : CultNetRawDocumentRecord
document = record {
  schema_id = codes "s";
  record_key = codes "k";
  stored_at = codes "t";
  payload_encoding = messagepack;
  payload = 0x80 ∷ [];
  source_runtime_id = some (codes "r");
  source_agent_id = none;
  source_role = none;
  tags = some (codes "x" ∷ []);
}

abbrev put : CultNetMessage
put = Message.document_put_raw (codes "m") document

abbrev put_value : Rmp
put_value = rmp_value.object (
    (
      rmp_value.string (codes "schemaVersion"),
      rmp_value.string (codes "cultnet.document_put_raw.v0"),
    )
    ∷ (rmp_value.string (codes "messageId"), rmp_value.string (codes "m"))
    ∷ (rmp_value.string (codes "document"), encode_raw_document_record document)
    ∷ [])

put_encoded : encode_raw_cultnet_schema_message {V = Rmp} put ≡ ok put_value
unfolding encode_raw_cultnet_schema_message
put_encoded = refl

parse_raw-encode_raw_example : parse_raw_cultnet_schema_message put_value ≡ ok put
parse_raw-encode_raw_example = parse_raw-encode_raw Rmp put put_value put_encoded

put_sent : encode_cultnet_message_for_wire engine serde put cultnet_schema_v0 ≡ ok put_value
unfolding encode_cultnet_message_for_wire encode_schema_message encode_raw_cultnet_schema_message
    validate_message validate_raw_document_record for_each trim_is_empty chars chars? is_whitespace
put_sent = refl

put_is_raw : is_raw (tag put) ≡ true
unfolding tag
put_is_raw = refl

parse-encode_example : parse_cultnet_message engine serde put_value cultnet_schema_v0 ≡ ok put
parse-encode_example =
    parse-encode Rmp engine serde engine_laws cultnet_schema_v0 put put_value put_is_raw put_sent

encode-parse_example :
    (again : Rmp) × (encode_cultnet_message_for_wire engine serde put cultnet_schema_v0 ≡ ok again)
    × (parse_cultnet_message engine serde again cultnet_schema_v0 ≡ ok put)
encode-parse_example =
    encode-parse Rmp engine serde engine_laws put put_value put_is_raw parse-encode_example

abbrev login : CultNetMessage
login = Message.login (codes "AB") (codes "B") (codes "AAB")

abbrev login_value : Rmp
login_value = rmp_value.array (
    rmp_value.integer (pos 0)
    ∷ rmp_value.array
        (rmp_value.binary (1 ∷ []) ∷ rmp_value.binary (0 ∷ []) ∷ rmp_value.binary (2 ∷ []) ∷ [])
    ∷ [])

login_encoded : encode_gamecult_networking_message engine login ≡ ok login_value
unfolding encode_gamecult_networking_message legacy_bytes trim_is_empty chars chars? is_whitespace
login_encoded = refl

parse_gamecult-encode_gamecult_example :
    parse_gamecult_networking_message engine login_value ≡ ok login
parse_gamecult-encode_gamecult_example =
    parse_gamecult-encode_gamecult Rmp engine engine_laws login login_value login_encoded

abbrev chat : CultNetMessage
chat = Message.sample_chat (codes "hi")

chat_bytes :
    encode_cultnet_message_to_vec engine serde chat gamecult_networking_v0 ≡ ok (6 ∷ codes "hi")
unfolding encode_cultnet_message_to_vec encode_cultnet_message_for_wire
    encode_gamecult_networking_message validate_message trim_is_empty chars chars? is_whitespace
chat_bytes = refl

chat_back :
    decode_cultnet_message_from_slice engine serde (6 ∷ codes "hi") gamecult_networking_v0 ≡ ok chat
unfolding decode_cultnet_message_from_slice parse_cultnet_message parse_gamecult_networking_message
    require_legacy_string
chat_back = refl

blank : trim_is_empty (codes " ") ≡ true
unfolding trim_is_empty chars chars? is_whitespace
blank = refl

parse-blank-encode-blank_example :
    (parse_cultnet_message engine serde
        (rmp_value.array
          (rmp_value.integer (pos 4) ∷ rmp_value.array (rmp_value.string (codes " ") ∷ []) ∷ []))
        gamecult_networking_v0
      ≡ ok (Message.error (codes " ")))
    × (encode_cultnet_message_for_wire engine serde
          (Message.error (codes " "))
          gamecult_networking_v0
        ≡ err empty_field)
parse-blank-encode-blank_example = parse-blank-encode-blank Rmp engine serde (codes " ") blank
