-- ===== src/Message/Wire.antt =====
-- The values of the package rmpv, and the readers of their parts in src/contracts.rs.
pub mod Laws
use cultnet_rs.Base.{
  ℕ, ◌≡◌, refl, List, [], ◌∷◌, map, Bool, true, false, if◌then◌else◌, Option, none, some,
}
use cultnet_rs.Base.Text.{codes}
use cultnet_rs.Base.Int.{ℤ}
use cultnet_rs.Base.Outcome.{Outcome, ok, err, panic, ◌>>=◌}
use cultnet_rs.Base.Order.{bytes_eq}
use cultnet_rs.Base.Traverse.{traverse}
use cultnet_rs.Message
use cultnet_rs.Message.{
  CultNetSchemaKind, CultNetWireContract, cultnet_schema_v0, gamecult_networking_v0, wire_message,
  document_payload, shared_contract, MessageError, not_an_array, not_a_string, not_a_boolean,
  unsupported_kind, unsupported_contract,
}

abbrev pub Parsed {ℓ} : Type ℓ → Type ℓ
Parsed A = Outcome MessageError A

-- `rmpv::Value`: its constructors and its accessors, each of which reads its own constructor.
pub record Value (V : Type 0) : Type 0 where
  pub nil : V
  pub boolean : Bool → V
  pub integer : ℤ → V
  pub string : List ℕ → V
  pub binary : List ℕ → V
  pub array : List V → V
  pub object : List (V × V) → V
  pub is_nil : V → Bool
  pub as_bool : V → Option Bool
  pub as_i64 : V → Option ℤ
  pub as_str : V → Option (List ℕ)
  pub as_slice : V → Option (List ℕ)
  pub as_array : V → Option (List V)
  pub as_map : V → Option (List (V × V))
  pub is_nil-nil : is_nil nil ≡ true
  pub is_nil-string : (s : List ℕ) → is_nil (string s) ≡ false
  pub is_nil-array : (values : List V) → is_nil (array values) ≡ false
  pub as_bool-boolean : (b : Bool) → as_bool (boolean b) ≡ some b
  pub as_i64-integer : (n : ℤ) → as_i64 (integer n) ≡ some n
  pub as_str-string : (s : List ℕ) → as_str (string s) ≡ some s
  pub as_slice-binary : (bytes : List ℕ) → as_slice (binary bytes) ≡ some bytes
  pub as_array-array : (values : List V) → as_array (array values) ≡ some values
  pub as_map-object : (entries : List (V × V)) → as_map (object entries) ≡ some entries

abbrev pub ok_or {ℓ} : {A : Type ℓ} → Option A → MessageError → Parsed A
ok_or none e = err e
ok_or (some a) e = ok a

abbrev pub and_then {ℓ κ} : {A : Type ℓ} {B : Type κ} → Option A → (A → Option B) → Option B
and_then none f = none
and_then (some a) f = f a

abbrev pub schema_kind_text : CultNetSchemaKind → List ℕ
schema_kind_text wire_message = codes "wire_message"
schema_kind_text document_payload = codes "document_payload"
schema_kind_text shared_contract = codes "shared_contract"

abbrev pub parse_schema_kind : List ℕ → Parsed CultNetSchemaKind
parse_schema_kind value =
    if bytes_eq value (codes "wire_message")
    then ok wire_message
    else if bytes_eq value (codes "document_payload")
    then ok document_payload
    else if bytes_eq value (codes "shared_contract")
    then ok shared_contract
    else err unsupported_kind

abbrev pub wire_contract_text : CultNetWireContract → List ℕ
wire_contract_text cultnet_schema_v0 = codes "cultnet.schema.v0"
wire_contract_text gamecult_networking_v0 = codes "gamecult.networking.v0"

abbrev pub parse_wire_contract : List ℕ → Parsed CultNetWireContract
parse_wire_contract value =
    if bytes_eq value (codes "cultnet.schema.v0")
    then ok cultnet_schema_v0
    else if bytes_eq value (codes "gamecult.networking.v0")
    then ok gamecult_networking_v0
    else err unsupported_contract

module _ {V : Type 0} ⦃rmpv : Value V⦄ where
  -- The closure `get`: the value of the first entry whose key is the text.
  unfoldable pub get : List (V × V) → List ℕ → Option V
  get [] name = none
  get ((key, value) ∷ entries) name = elim (rmpv.as_str key) [
    | none ↦ get entries name
    | some candidate ↦ if bytes_eq candidate name then some value else get entries name
  ]

  unfoldable pub require_legacy_string : Option V → Parsed (List ℕ)
  require_legacy_string value = ok_or (and_then value rmpv.as_str) not_a_string

  unfoldable pub require_legacy_bool : Option V → Parsed Bool
  require_legacy_bool value = ok_or (and_then value rmpv.as_bool) not_a_boolean

  unfoldable pub require_legacy_optional_string : Option V → Parsed (Option (List ℕ))
  unfolding require_legacy_string
  require_legacy_optional_string none = ok none
  require_legacy_optional_string (some value) =
      if rmpv.is_nil value
      then ok none
      else require_legacy_string (some value) >>= λ text. ok (some text)

  unfoldable pub require_legacy_optional_string_array : Option V → Parsed (Option (List (List ℕ)))
  unfolding traverse
  require_legacy_optional_string_array none = ok none
  require_legacy_optional_string_array (some value) = if rmpv.is_nil value then ok none else do
    items ← ok_or (rmpv.as_array value) not_an_array
    values ← traverse (λ item. ok_or (rmpv.as_str item) not_a_string) items
    ok (some values)

  unfoldable pub require_legacy_optional_schema_kind_array :
      Option V → Parsed (Option (List CultNetSchemaKind))
  unfolding require_legacy_optional_string_array traverse
  require_legacy_optional_schema_kind_array value =
      require_legacy_optional_string_array value >>= λ read. elim read [
        | none ↦ ok none
        | some values ↦ traverse parse_schema_kind values >>= λ kinds. ok (some kinds)
      ]

  unfoldable pub require_legacy_optional_wire_contracts :
      Option V → Parsed (List CultNetWireContract)
  unfolding require_legacy_optional_string_array traverse
  require_legacy_optional_wire_contracts value =
      require_legacy_optional_string_array value >>= λ read. elim read [
        | none ↦ ok []
        | some values ↦ traverse parse_wire_contract values
      ]

  abbrev pub optional_string : Option (List ℕ) → V
  optional_string none = rmpv.nil
  optional_string (some text) = rmpv.string text

  abbrev pub legacy_optional_string_array : Option (List (List ℕ)) → V
  legacy_optional_string_array none = rmpv.nil
  legacy_optional_string_array (some values) = rmpv.array (map rmpv.string values)

  abbrev pub legacy_optional_schema_kind_array : Option (List CultNetSchemaKind) → V
  legacy_optional_schema_kind_array none = rmpv.nil
  legacy_optional_schema_kind_array (some values) =
      rmpv.array (map (λ value. rmpv.string (schema_kind_text value)) values)
