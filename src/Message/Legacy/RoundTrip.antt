-- ===== src/Message/Legacy/RoundTrip.antt =====
-- src/contracts.rs: what the contract gamecult.networking.v0 writes of a message, it reads.
use cultnet_rs.Base.{ℕ, ◌≡◌, List, false, Option, none, some}
use mathlib.Core.Option
use cultnet_rs.Base.Base64.{Base64, IsBase64}
use cultnet_rs.Base.Text.{trim_is_empty}
use cultnet_rs.Base.Outcome.{ok, >>=-eq-ok, bail_if-eq-ok, ok-injective}
use cultnet_rs.Base.Traverse.{traverse-map}
use cultnet_rs.Message
use cultnet_rs.Message.{CultNetSchemaDescriptor, CultNetMessage, MessageError, empty_field, base64}
use cultnet_rs.Message.Wire.{Value, ok_or}
use cultnet_rs.Message.Wire.Laws.{
  get-string, require_legacy_string-string, require_legacy_bool-boolean,
  require_legacy_optional_string-optional_string, optional_string_array_lem,
  optional_schema_kind_array_lem, wire_contracts_lem, parse_schema_kind-text,
}
use cultnet_rs.Message.Legacy.{
  require_legacy_schema_descriptor, legacy_schema_descriptor, require_legacy_bytes, legacy_bytes,
  parse_gamecult_networking_message, encode_gamecult_networking_message,
}

-- The contract has no absent `include_schema_json`: it writes an absent one as false.
abbrev pub as_legacy : CultNetMessage → CultNetMessage
as_legacy (Message.schema_catalog_request message_id include_schema_json schema_ids kinds) =
    Message.schema_catalog_request message_id (some (Option.get_or include_schema_json false))
      schema_ids kinds
as_legacy other = other

ok_or-eq-ok : {A : Type 0} {a : A} (e : MessageError) (o : Option A) → ok_or o e ≡ ok a → o ≡ some a
ok_or-eq-ok e none h = cc
ok_or-eq-ok e (some b) h = cc

module _ (V : Type 0) ⦃rmpv : Value V⦄ where
  descriptor_lem :
      (schema : CultNetSchemaDescriptor)
      → require_legacy_schema_descriptor (legacy_schema_descriptor {V = V} schema) ≡ ok schema
  unfolding require_legacy_schema_descriptor legacy_schema_descriptor
  descriptor_lem schema = simp (
    rmpv.as_map-object,
    get-string V,
    require_legacy_string-string V,
    require_legacy_optional_string-optional_string V,
    wire_contracts_lem V,
    parse_schema_kind-text,
  )

  module _ (engine : Base64) (laws : IsBase64 engine) where
    bytes_lem :
        (text : List ℕ) (value : V)
        → legacy_bytes engine text ≡ ok value
        → require_legacy_bytes engine (some value) ≡ ok text
    unfolding legacy_bytes require_legacy_bytes
    bytes_lem text value e =
        let (full, e1) = bail_if-eq-ok (trim_is_empty text) empty_field _ e in
        let (bytes, found, e2) = >>=-eq-ok _ (ok_or (engine.decode text) base64) e1 in
        rw (
          ← ok-injective e2,
          rmpv.as_slice-binary bytes,
          laws.encode-decode text bytes (ok_or-eq-ok base64 (engine.decode text) found),
        )

    -- A message that gamecult.networking.v0 can write is read back as that message, except that an absent
    -- `include_schema_json` is read as false.
    pub parse_gamecult-encode_gamecult :
        (message : CultNetMessage) (value : V)
        → encode_gamecult_networking_message engine message ≡ ok value
        → parse_gamecult_networking_message engine value ≡ ok (as_legacy message)
    unfolding encode_gamecult_networking_message parse_gamecult_networking_message
    parse_gamecult-encode_gamecult (Message.login nonce auth password) value e =
        let (value_nonce, h0, e0) = >>=-eq-ok _ (legacy_bytes engine nonce) e in
        let (value_auth, h1, e1) = >>=-eq-ok _ (legacy_bytes engine auth) e0 in
        let (value_password, h2, e2) = >>=-eq-ok _ (legacy_bytes engine password) e1 in
        rw (← ok-injective e2) (
          simp (
            rmpv.as_array-array,
            rmpv.as_i64-integer,
            bytes_lem nonce value_nonce h0,
            bytes_lem auth value_auth h1,
            bytes_lem password value_password h2,
          ))
    parse_gamecult-encode_gamecult (Message.register nonce email password name) value e =
        let (value_nonce, h0, e0) = >>=-eq-ok _ (legacy_bytes engine nonce) e in
        let (value_email, h1, e1) = >>=-eq-ok _ (legacy_bytes engine email) e0 in
        let (value_password, h2, e2) = >>=-eq-ok _ (legacy_bytes engine password) e1 in
        let (value_name, h3, e3) = >>=-eq-ok _ (legacy_bytes engine name) e2 in
        rw (← ok-injective e3) (
          simp (
            rmpv.as_array-array,
            rmpv.as_i64-integer,
            bytes_lem nonce value_nonce h0,
            bytes_lem email value_email h1,
            bytes_lem password value_password h2,
            bytes_lem name value_name h3,
          ))
    parse_gamecult-encode_gamecult (Message.verify nonce session) value e =
        let (value_nonce, h0, e0) = >>=-eq-ok _ (legacy_bytes engine nonce) e in
        let (value_session, h1, e1) = >>=-eq-ok _ (legacy_bytes engine session) e0 in
        rw (← ok-injective e1) (
          simp (
            rmpv.as_array-array,
            rmpv.as_i64-integer,
            bytes_lem nonce value_nonce h0,
            bytes_lem session value_session h1,
          ))
    parse_gamecult-encode_gamecult (Message.login_success nonce session) value e =
        let (value_nonce, h0, e0) = >>=-eq-ok _ (legacy_bytes engine nonce) e in
        let (value_session, h1, e1) = >>=-eq-ok _ (legacy_bytes engine session) e0 in
        rw (← ok-injective e1) (
          simp (
            rmpv.as_array-array,
            rmpv.as_i64-integer,
            bytes_lem nonce value_nonce h0,
            bytes_lem session value_session h1,
          ))
    parse_gamecult-encode_gamecult (Message.error text) value e =
        rw (← ok-injective e)
          (simp (rmpv.as_array-array, rmpv.as_i64-integer, require_legacy_string-string V))
    parse_gamecult-encode_gamecult (Message.sample_change_name name) value e =
        rw (← ok-injective e)
          (simp (rmpv.as_array-array, rmpv.as_i64-integer, require_legacy_string-string V))
    parse_gamecult-encode_gamecult (Message.sample_chat text) value e =
        rw (← ok-injective e)
          (simp (rmpv.as_array-array, rmpv.as_i64-integer, require_legacy_string-string V))
    parse_gamecult-encode_gamecult
          (Message.schema_catalog_request message_id include_schema_json schema_ids kinds) value e =
        rw (← ok-injective e) (
          simp (
            rmpv.as_array-array,
            rmpv.as_i64-integer,
            require_legacy_string-string V,
            require_legacy_bool-boolean V,
            optional_string_array_lem V,
            optional_schema_kind_array_lem V,
          ))
    parse_gamecult-encode_gamecult (Message.schema_catalog_response message_id schemas) value e =
        rw (← ok-injective e) (
          simp (
            rmpv.as_array-array,
            rmpv.as_i64-integer,
            require_legacy_string-string V,
            traverse-map {B = V} require_legacy_schema_descriptor legacy_schema_descriptor
                descriptor_lem schemas,
          ))
    parse_gamecult-encode_gamecult other value e = cc
