-- ===== src/Message/Legacy.antt =====
-- src/contracts.rs: the messages of the contract gamecult.networking.v0, pairs of a tag and an
-- array of fields.
pub mod RoundTrip
use cultnet_rs.Base.{
  ℕ, List, [], ◌∷◌, map, Bool, true, false, if◌then◌else◌, Option, none, some, get_elem?, ◌==◌,
}
use mathlib.Core.Option
use cultnet_rs.Base.Base64.{Base64}
use cultnet_rs.Base.Int.{ℤ, pos, negsuc}
use cultnet_rs.Base.Text.{codes, trim_is_empty}
use cultnet_rs.Base.Outcome.{Outcome, ok, err, panic, ◌>>=◌, ◌>>◌, bail_if}
use cultnet_rs.Base.Traverse.{traverse}
use cultnet_rs.Message
use cultnet_rs.Message.{
  CultNetSchemaDescriptor, CultNetMessage, MessageError, base64, empty_field, not_an_object,
  not_an_array, not_an_integer, not_binary, unsupported_tag, not_in_contract,
}
use cultnet_rs.Message.Wire.{
  Value, Parsed, ok_or, and_then, get, require_legacy_string, require_legacy_bool,
  require_legacy_optional_string, require_legacy_optional_string_array,
  require_legacy_optional_schema_kind_array, require_legacy_optional_wire_contracts,
  optional_string, legacy_optional_string_array, legacy_optional_schema_kind_array,
  schema_kind_text, parse_schema_kind, wire_contract_text,
}

module _ {V : Type 0} ⦃rmpv : Value V⦄ where
  unfoldable pub require_legacy_schema_descriptor : V → Parsed CultNetSchemaDescriptor
  require_legacy_schema_descriptor value = do
    object ← ok_or (rmpv.as_map value) not_an_object
    schema_id ← require_legacy_string (get object (codes "schemaId"))
    kind ← require_legacy_string (get object (codes "kind"))
    schema_version ← require_legacy_optional_string (get object (codes "schemaVersion"))
    document_type ← require_legacy_optional_string (get object (codes "documentType"))
    title ← require_legacy_optional_string (get object (codes "title"))
    wire_contracts ← require_legacy_optional_wire_contracts (get object (codes "wireContracts"))
    content_hash ← require_legacy_string (get object (codes "contentHash"))
    schema_json ← require_legacy_optional_string (get object (codes "schemaJson"))
    kind ← parse_schema_kind kind
    ok (record {
      schema_id = schema_id;
      kind = kind;
      schema_version = schema_version;
      document_type = document_type;
      title = title;
      wire_contracts = wire_contracts;
      content_hash = content_hash;
      schema_json = schema_json;
    })

  unfoldable pub legacy_schema_descriptor : CultNetSchemaDescriptor → V
  legacy_schema_descriptor schema = rmpv.object (
      (rmpv.string (codes "schemaId"), rmpv.string schema.schema_id)
      ∷ (rmpv.string (codes "kind"), rmpv.string (schema_kind_text schema.kind))
      ∷ (rmpv.string (codes "schemaVersion"), optional_string schema.schema_version)
      ∷ (rmpv.string (codes "documentType"), optional_string schema.document_type)
      ∷ (rmpv.string (codes "title"), optional_string schema.title)
      ∷ (
        rmpv.string (codes "wireContracts"),
        rmpv.array (map (λ value. rmpv.string (wire_contract_text value)) schema.wire_contracts),
      )
      ∷ (rmpv.string (codes "contentHash"), rmpv.string schema.content_hash)
      ∷ (rmpv.string (codes "schemaJson"), optional_string schema.schema_json)
      ∷ [])

  abbrev pub require_legacy_schema_descriptor_array :
      Option V → Parsed (List CultNetSchemaDescriptor)
  require_legacy_schema_descriptor_array value = do
    items ← ok_or (and_then value rmpv.as_array) not_an_array
    traverse require_legacy_schema_descriptor items

  -- `items.len() != 2`.
  abbrev as_pair : List V → Parsed (V × V)
  as_pair (tag ∷ payload ∷ []) = ok (tag, payload)
  as_pair other = err not_an_array

  module _ (engine : Base64) where
    unfoldable pub require_legacy_bytes : Option V → Parsed (List ℕ)
    require_legacy_bytes value =
        ok_or (and_then value rmpv.as_slice) not_binary >>= λ bytes. ok (engine.encode bytes)

    unfoldable pub legacy_bytes : List ℕ → Parsed V
    legacy_bytes input = do
      bail_if (trim_is_empty input) empty_field
      bytes ← ok_or (engine.decode input) base64
      ok (rmpv.binary bytes)

    abbrev parse_login : List V → Parsed CultNetMessage
    parse_login payload = do
      nonce ← require_legacy_bytes (get_elem? payload 0)
      auth ← require_legacy_bytes (get_elem? payload 1)
      password ← require_legacy_bytes (get_elem? payload 2)
      ok (Message.login nonce auth password)

    abbrev parse_register : List V → Parsed CultNetMessage
    parse_register payload = do
      nonce ← require_legacy_bytes (get_elem? payload 0)
      email ← require_legacy_bytes (get_elem? payload 1)
      password ← require_legacy_bytes (get_elem? payload 2)
      name ← require_legacy_bytes (get_elem? payload 3)
      ok (Message.register nonce email password name)

    abbrev parse_verify : List V → Parsed CultNetMessage
    parse_verify payload = do
      nonce ← require_legacy_bytes (get_elem? payload 0)
      session ← require_legacy_bytes (get_elem? payload 1)
      ok (Message.verify nonce session)

    abbrev parse_login_success : List V → Parsed CultNetMessage
    parse_login_success payload = do
      nonce ← require_legacy_bytes (get_elem? payload 0)
      session ← require_legacy_bytes (get_elem? payload 1)
      ok (Message.login_success nonce session)

    abbrev parse_error : List V → Parsed CultNetMessage
    parse_error payload = do
      text ← require_legacy_string (get_elem? payload 0)
      ok (Message.error text)

    abbrev parse_change_name : List V → Parsed CultNetMessage
    parse_change_name payload = do
      name ← require_legacy_string (get_elem? payload 0)
      ok (Message.sample_change_name name)

    abbrev parse_chat : List V → Parsed CultNetMessage
    parse_chat payload = do
      text ← require_legacy_string (get_elem? payload 0)
      ok (Message.sample_chat text)

    abbrev parse_catalog_request : List V → Parsed CultNetMessage
    parse_catalog_request payload = do
      message_id ← require_legacy_string (get_elem? payload 0)
      include_schema_json ← require_legacy_bool (get_elem? payload 1)
      schema_ids ← require_legacy_optional_string_array (get_elem? payload 2)
      kinds ← require_legacy_optional_schema_kind_array (get_elem? payload 3)
      ok (Message.schema_catalog_request message_id (some include_schema_json) schema_ids kinds)

    abbrev parse_catalog_response : List V → Parsed CultNetMessage
    parse_catalog_response payload = do
      message_id ← require_legacy_string (get_elem? payload 0)
      schemas ← require_legacy_schema_descriptor_array (get_elem? payload 1)
      ok (Message.schema_catalog_response message_id schemas)

    abbrev parse_tagged : ℤ → List V → Parsed CultNetMessage
    parse_tagged (negsuc n) payload = err unsupported_tag
    parse_tagged (pos tag) payload =
        if tag == 0
        then parse_login payload
        else if tag == 1
        then parse_register payload
        else if tag == 2
        then parse_verify payload
        else if tag == 3
        then parse_login_success payload
        else if tag == 4
        then parse_error payload
        else if tag == 5
        then parse_change_name payload
        else if tag == 6
        then parse_chat payload
        else if tag == 7
        then parse_catalog_request payload
        else if tag == 8
        then parse_catalog_response payload
        else err unsupported_tag

    unfoldable pub parse_gamecult_networking_message : V → Parsed CultNetMessage
    parse_gamecult_networking_message input = do
      items ← ok_or (rmpv.as_array input) not_an_array
      (first, second) ← as_pair items
      tag ← ok_or (rmpv.as_i64 first) not_an_integer
      payload ← ok_or (rmpv.as_array second) not_an_array
      parse_tagged tag payload

    abbrev tagged : ℕ → List V → V
    tagged tag payload = rmpv.array (rmpv.integer (pos tag) ∷ rmpv.array payload ∷ [])

    unfoldable pub encode_gamecult_networking_message : CultNetMessage → Parsed V
    encode_gamecult_networking_message (Message.login nonce auth password) = do
      nonce ← legacy_bytes nonce
      auth ← legacy_bytes auth
      password ← legacy_bytes password
      ok (tagged 0 (nonce ∷ auth ∷ password ∷ []))
    encode_gamecult_networking_message (Message.register nonce email password name) = do
      nonce ← legacy_bytes nonce
      email ← legacy_bytes email
      password ← legacy_bytes password
      name ← legacy_bytes name
      ok (tagged 1 (nonce ∷ email ∷ password ∷ name ∷ []))
    encode_gamecult_networking_message (Message.verify nonce session) = do
      nonce ← legacy_bytes nonce
      session ← legacy_bytes session
      ok (tagged 2 (nonce ∷ session ∷ []))
    encode_gamecult_networking_message (Message.login_success nonce session) = do
      nonce ← legacy_bytes nonce
      session ← legacy_bytes session
      ok (tagged 3 (nonce ∷ session ∷ []))
    encode_gamecult_networking_message (Message.error text) = ok (tagged 4 (rmpv.string text ∷ []))
    encode_gamecult_networking_message (Message.sample_change_name name) =
        ok (tagged 5 (rmpv.string name ∷ []))
    encode_gamecult_networking_message (Message.sample_chat text) =
        ok (tagged 6 (rmpv.string text ∷ []))
    encode_gamecult_networking_message
          (Message.schema_catalog_request message_id include_schema_json schema_ids kinds) =
        ok (
          tagged 7 (
            rmpv.string message_id
            ∷ rmpv.boolean (Option.get_or include_schema_json false)
            ∷ legacy_optional_string_array schema_ids
            ∷ legacy_optional_schema_kind_array kinds
            ∷ []))
    encode_gamecult_networking_message (Message.schema_catalog_response message_id schemas) =
        ok (
          tagged 8
            (rmpv.string message_id ∷ rmpv.array (map legacy_schema_descriptor schemas) ∷ []))
    encode_gamecult_networking_message other = err not_in_contract
