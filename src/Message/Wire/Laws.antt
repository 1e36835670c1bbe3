-- ===== src/Message/Wire/Laws.antt =====
-- src/contracts.rs: the readers of a value's parts read what the writers of these parts write.
use cultnet_rs.Base.{ℕ, ◌≡◌, refl, List, [], ◌∷◌, map, Bool, if◌then◌else◌, Option, none, some}
use cultnet_rs.Base.Outcome.{ok}
use cultnet_rs.Base.Order.{bytes_eq}
use cultnet_rs.Base.Traverse.{traverse-map}
use cultnet_rs.Message.{
  CultNetSchemaKind, CultNetWireContract, cultnet_schema_v0, gamecult_networking_v0, wire_message,
  document_payload, shared_contract, not_a_string,
}
use cultnet_rs.Message.Wire.{
  Value, ok_or, get, require_legacy_string, require_legacy_bool, require_legacy_optional_string,
  require_legacy_optional_string_array, require_legacy_optional_schema_kind_array,
  require_legacy_optional_wire_contracts, optional_string, legacy_optional_string_array,
  legacy_optional_schema_kind_array, schema_kind_text, parse_schema_kind, wire_contract_text,
  parse_wire_contract,
}

pub parse_schema_kind-text :
    (kind : CultNetSchemaKind) → parse_schema_kind (schema_kind_text kind) ≡ ok kind
parse_schema_kind-text wire_message = refl
parse_schema_kind-text document_payload = refl
parse_schema_kind-text shared_contract = refl

pub parse_wire_contract-text :
    (contract : CultNetWireContract)
    → parse_wire_contract (wire_contract_text contract) ≡ ok contract
parse_wire_contract-text cultnet_schema_v0 = refl
parse_wire_contract-text gamecult_networking_v0 = refl

map-map :
    {A B C : Type 0} (f : B → C) (g : A → B) (xs : List A)
    → map f (map g xs) ≡ map (λ x. f (g x)) xs
map-map f g [] = refl
map-map f g (x ∷ xs) = rw (map-map f g xs) refl

module _ (V : Type 0) ⦃rmpv : Value V⦄ where
  -- What each writer writes, its reader reads.
  pub require_legacy_string-string :
      (s : List ℕ) → require_legacy_string (some (rmpv.string s)) ≡ ok s
  unfolding require_legacy_string
  require_legacy_string-string s = rw (rmpv.as_str-string s)

  pub require_legacy_bool-boolean : (b : Bool) → require_legacy_bool (some (rmpv.boolean b)) ≡ ok b
  unfolding require_legacy_bool
  require_legacy_bool-boolean b = rw (rmpv.as_bool-boolean b)

  pub require_legacy_optional_string-optional_string :
      (s : Option (List ℕ))
      → require_legacy_optional_string (some (optional_string {V = V} s)) ≡ ok s
  unfolding require_legacy_optional_string require_legacy_string
  require_legacy_optional_string-optional_string none = rw rmpv.is_nil-nil
  require_legacy_optional_string-optional_string (some s) =
      rw (rmpv.is_nil-string s, rmpv.as_str-string s)

  pub optional_string_array_lem :
      (values : Option (List (List ℕ)))
      → require_legacy_optional_string_array (some (legacy_optional_string_array {V = V} values))
        ≡ ok values
  unfolding require_legacy_optional_string_array
  optional_string_array_lem none = rw rmpv.is_nil-nil
  optional_string_array_lem (some values) = rw (
    rmpv.is_nil-array (map rmpv.string values),
    rmpv.as_array-array (map rmpv.string values),
    traverse-map (λ item. ok_or (rmpv.as_str item) not_a_string) rmpv.string
        (λ s. rw (rmpv.as_str-string s)) values,
  )

  pub get-string :
      (key name : List ℕ) (value : V) (entries : List (V × V))
      → get ((rmpv.string key, value) ∷ entries) name
        ≡ (if bytes_eq key name then some value else get entries name)
  unfolding get
  get-string key name value entries = rw (get, rmpv.as_str-string key)

  pub optional_schema_kind_array_lem :
      (kinds : Option (List CultNetSchemaKind))
      → require_legacy_optional_schema_kind_array
          (some (legacy_optional_schema_kind_array {V = V} kinds))
        ≡ ok kinds
  unfolding require_legacy_optional_schema_kind_array
  optional_schema_kind_array_lem none = rw (optional_string_array_lem none)
  optional_schema_kind_array_lem (some kinds) = rw (
    legacy_optional_schema_kind_array,
    ← map-map rmpv.string schema_kind_text kinds,
    optional_string_array_lem (some (map schema_kind_text kinds)),
    traverse-map parse_schema_kind schema_kind_text parse_schema_kind-text kinds,
  )

  pub wire_contracts_lem :
      (contracts : List CultNetWireContract)
      → require_legacy_optional_wire_contracts (
          some (rmpv.array (map (λ contract. rmpv.string (wire_contract_text contract)) contracts)))
        ≡ ok contracts
  unfolding require_legacy_optional_wire_contracts
  wire_contracts_lem contracts = rw (
    ← map-map rmpv.string wire_contract_text contracts,
    optional_string_array_lem (some (map wire_contract_text contracts)),
    traverse-map parse_wire_contract wire_contract_text parse_wire_contract-text contracts,
  )
