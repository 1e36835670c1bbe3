-- ===== src/Schema.antt =====
-- src/schema_discovery.rs: the registry of schemas, and the canonical text of a schema by which
-- its hash is taken. The hash, and serde_json's reading and its quoting of texts, are arguments.
pub mod Canonical
pub mod Registry
pub mod Embedded
mod Tests
use cultnet_rs.Base.{
  ℕ, ◌&&◌, List, [], ◌∷◌, ◌++◌, is_empty, Bool, true, false, if◌then◌else◌, Option, none, some,
}
use cultnet_rs.Base.Json.{
  Json, Items, Entries, null, boolean, number, string, array, object, nil, cons, end, entry,
}
use cultnet_rs.Base.Text.{codes, trim_is_empty}
use cultnet_rs.Base.Order.{bytes_ord, bytes_lt}
use cultnet_rs.Base.BTreeMap.{BTreeMap, values, insert, get}
use cultnet_rs.Base.Requested.{is_requested}
use cultnet_rs.Base.Outcome.{Outcome, ok, err, panic, ◌>>=◌, ◌>>◌, bail_if}
use cultnet_rs.Message.{
  CultNetMessage, CultNetSchemaDescriptor, CultNetSchemaKind, CultNetWireContract, wire_message,
  document_payload, shared_contract,
}

pub record CultNetSchemaRegistration : Type 0 where
  pub schema_id : List ℕ
  pub kind : CultNetSchemaKind
  pub wire_contracts : List CultNetWireContract
  pub schema_version : Option (List ℕ)
  pub document_type : Option (List ℕ)
  pub title : Option (List ℕ)
  pub schema_json : Option (List ℕ)

pub record CultNetSchemaCatalogOptions : Type 0 where
  pub include_schema_json : Bool
  pub schema_ids : Option (List (List ℕ))
  pub kinds : Option (List CultNetSchemaKind)

pub record CultNetSchemaRegistry : Type 0 where
  pub entries : BTreeMap (List ℕ) CultNetSchemaDescriptor

abbrev pub new : CultNetSchemaRegistry
new = record { entries = [] }

pub data SchemaError : Type 0 where
  no_schema_id no_wire_contracts no_schema_json bad_json no_id unexpected_message : SchemaError

-- `serde_json::from_str`, `serde_json::to_string` of a text, and the digest in hexadecimal.
pub record JsonTools : Type 0 where
  pub from_str : List ℕ → Option Json
  pub quote : List ℕ → List ℕ
  pub digest : List ℕ → List ℕ

-- `join(",")`.
abbrev pub join : List (List ℕ) → List ℕ
join [] = []
join (text ∷ []) = text
join (text ∷ next ∷ texts) = text ++ (b',' ∷ join (next ∷ texts))

-- One step of the stable sort by key: before the first entry with a greater key.
unfoldable pub place : List ℕ × List ℕ → List (List ℕ × List ℕ) → List (List ℕ × List ℕ)
place (key, text) [] = (key, text) ∷ []
place (key, text) ((other, other_text) ∷ sorted) =
    let rest = place (key, text) sorted in
    if bytes_lt other key
    then (other, other_text) ∷ rest
    else (key, text) ∷ (other, other_text) ∷ sorted

module _ (tools : JsonTools) where
  abbrev pub members : List (List ℕ × List ℕ) → List (List ℕ)
  members [] = []
  members ((key, text) ∷ sorted) = (tools.quote key ++ (b':' ∷ text)) ∷ members sorted

  -- The values of an object are written before its entries are sorted, which gives the same text.
  unfoldable mutual
    unfolding place

    pub stable_stringify : Json → List ℕ
    stable_stringify null = codes "null"
    stable_stringify (boolean true) = codes "true"
    stable_stringify (boolean false) = codes "false"
    stable_stringify (number text) = text
    stable_stringify (string text) = tools.quote text
    stable_stringify (array values) = b'[' ∷ (join (item_texts values) ++ (b']' ∷ []))
    stable_stringify (object values) =
        b'{' ∷ (join (members (sorted_entries values)) ++ (b'}' ∷ []))

    pub item_texts : Items → List (List ℕ)
    item_texts nil = []
    item_texts (cons value values) = stable_stringify value ∷ item_texts values

    pub sorted_entries : Entries → List (List ℕ × List ℕ)
    sorted_entries end = []
    sorted_entries (entry key value values) =
        place (key, stable_stringify value) (sorted_entries values)

  abbrev digest_of : Option Json → Outcome SchemaError (List ℕ)
  digest_of none = err bad_json
  digest_of (some value) = ok (tools.digest (stable_stringify value))

  unfoldable pub canonical_schema_hash : List ℕ → Outcome SchemaError (List ℕ)
  canonical_schema_hash schema_json = digest_of (tools.from_str schema_json)

  abbrev pub hash_given : Option (List ℕ) → Outcome SchemaError (List ℕ)
  hash_given none = err no_schema_json
  hash_given (some schema_json) = canonical_schema_hash schema_json

  abbrev pub descriptor : CultNetSchemaRegistration → List ℕ → CultNetSchemaDescriptor
  descriptor registration content_hash = record {
    schema_id = registration.schema_id;
    kind = registration.kind;
    schema_version = registration.schema_version;
    document_type = registration.document_type;
    title = registration.title;
    wire_contracts = registration.wire_contracts;
    content_hash = content_hash;
    schema_json = registration.schema_json;
  }

  -- The insertion at the end of `register`.
  abbrev pub store :
      CultNetSchemaRegistration → CultNetSchemaRegistry → List ℕ → CultNetSchemaRegistry
  store registration registry content_hash = record {
    entries = insert registration.schema_id (descriptor registration content_hash) registry.entries;
  }

  unfoldable pub register :
      CultNetSchemaRegistration → CultNetSchemaRegistry → Outcome SchemaError CultNetSchemaRegistry
  register registration registry =
      bail_if (trim_is_empty registration.schema_id) no_schema_id
      >> bail_if (is_empty registration.wire_contracts) no_wire_contracts
      >> hash_given registration.schema_json
      >>= λ content_hash. ok (store registration registry content_hash)

abbrev pub sanitize_descriptor : CultNetSchemaDescriptor → Bool → CultNetSchemaDescriptor
sanitize_descriptor descriptor true = descriptor
sanitize_descriptor descriptor false = record descriptor { schema_json = none }

abbrev sanitize_found : Bool → Option CultNetSchemaDescriptor → Option CultNetSchemaDescriptor
sanitize_found include_schema_json none = none
sanitize_found include_schema_json (some found) =
    some (sanitize_descriptor found include_schema_json)

-- `CultNetSchemaRegistry::get`.
unfoldable pub lookup : CultNetSchemaRegistry → List ℕ → Bool → Option CultNetSchemaDescriptor
lookup registry schema_id include_schema_json =
    sanitize_found include_schema_json (get schema_id registry.entries)

abbrev kind_eq : CultNetSchemaKind → CultNetSchemaKind → Bool
kind_eq wire_message wire_message = true
kind_eq document_payload document_payload = true
kind_eq shared_contract shared_contract = true
kind_eq _ _ = false

abbrev has_kind : List CultNetSchemaKind → CultNetSchemaKind → Bool
has_kind [] kind = false
has_kind (other ∷ others) kind = if kind_eq other kind then true else has_kind others kind

abbrev pub is_kind_requested : Option (List CultNetSchemaKind) → CultNetSchemaKind → Bool
is_kind_requested none kind = true
is_kind_requested (some kinds) kind = has_kind kinds kind

abbrev pub is_listed : CultNetSchemaCatalogOptions → CultNetSchemaDescriptor → Bool
is_listed options known =
    is_requested options.schema_ids known.schema_id && is_kind_requested options.kinds known.kind

unfoldable pub sanitize_listed :
    CultNetSchemaCatalogOptions → List CultNetSchemaDescriptor → List CultNetSchemaDescriptor
sanitize_listed options [] = []
sanitize_listed options (known ∷ entries) =
    let rest = sanitize_listed options entries in
    if is_listed options known
    then sanitize_descriptor known options.include_schema_json ∷ rest
    else rest

unfoldable pub list :
    CultNetSchemaRegistry → CultNetSchemaCatalogOptions → List CultNetSchemaDescriptor
list registry options = sanitize_listed options (values registry.entries)

abbrev or_false : Option Bool → Bool
or_false none = false
or_false (some value) = value

unfoldable pub create_catalog_response :
    CultNetSchemaRegistry → CultNetMessage → Outcome SchemaError CultNetMessage
create_catalog_response registry
      (CultNetMessage.schema_catalog_request message_id include_schema_json schema_ids kinds) =
    ok (
      CultNetMessage.schema_catalog_response message_id (
        list registry (record {
          include_schema_json = or_false include_schema_json;
          schema_ids = schema_ids;
          kinds = kinds;
        })))
create_catalog_response registry _ = err unexpected_message
