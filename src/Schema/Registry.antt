-- ===== src/Schema/Registry.antt =====
-- src/schema_discovery.rs: what a registry advertises after registrations.
use cultnet_rs.Base.{
  ℕ, ◌≡◌, refl, List, [], ◌∷◌, Bool, true, false, Option, none, some, inl, inr, Bool-cases, All,
}
use cultnet_rs.Base.Order.{bytes_ord}
use cultnet_rs.Base.BTreeMap.{BTreeMap, values}
use cultnet_rs.Base.BTreeMap.Entries.{All-insert}
use cultnet_rs.Base.Outcome.{Outcome, ok, err, panic, ◌>>=◌, ◌>>◌, bail_if, ok-injective}
use cultnet_rs.Message.{CultNetMessage, CultNetSchemaDescriptor}
use cultnet_rs.Schema.{
  JsonTools, SchemaError, store, CultNetSchemaRegistration, CultNetSchemaRegistry,
  CultNetSchemaCatalogOptions, new, register, list, sanitize_listed, sanitize_descriptor, is_listed,
  canonical_schema_hash, hash_given, descriptor, create_catalog_response,
}

-- Two guards, a value, and a last step that cannot fail.
guarded-eq-ok :
    (blank bare : Bool) (first second : SchemaError) {A B : Type 0} (given : Outcome SchemaError A)
    (build : A → B) (result : B)
    → (bail_if blank first >> bail_if bare second >> given >>= λ value. ok (build value))
      ≡ ok result
    → (value : A) × (given ≡ ok value) × (build value ≡ result)
guarded-eq-ok true bare first second given build result done = cc
guarded-eq-ok false true first second given build result done = cc
guarded-eq-ok false false first second (err e) build result done = cc
guarded-eq-ok false false first second panic build result done = cc
guarded-eq-ok false false first second (ok value) build result done =
    (value, refl, ok-injective done)

module _ (tools : JsonTools) where
  -- A registry that registrations have made.
  pub data Registered : CultNetSchemaRegistry → Type 0 where
    unused : Registered new
    one_more :
        (registration : CultNetSchemaRegistration) {before after : CultNetSchemaRegistry}
        → Registered before
        → register tools registration before ≡ ok after
        → Registered after

  abbrev pub IsHash : List ℕ → Option (List ℕ) → Type 0
  IsHash content_hash none = Unit
  IsHash content_hash (some schema_json) = canonical_schema_hash tools schema_json ≡ ok content_hash

  -- A descriptor whose hash is that of the schema that it holds, if it holds one.
  abbrev pub IsHashed : CultNetSchemaDescriptor → Type 0
  IsHashed known = IsHash known.content_hash known.schema_json

  -- A message that holds such descriptors only.
  abbrev pub AdvertisesHashes : CultNetMessage → Type 0
  AdvertisesHashes (CultNetMessage.schema_catalog_response message_id schemas) =
      All IsHashed schemas
  AdvertisesHashes _ = ⊥

  hash_given-IsHash :
      (content_hash : List ℕ) (schema_json : Option (List ℕ))
      → hash_given tools schema_json ≡ ok content_hash
      → IsHash content_hash schema_json
  hash_given-IsHash content_hash none given = cc
  hash_given-IsHash content_hash (some schema_json) given = given

  register-IsHashed :
      (registration : CultNetSchemaRegistration) (before after : CultNetSchemaRegistry)
      → All (λ e. IsHashed e.1) before.entries
      → register tools registration before ≡ ok after
      → All (λ e. IsHashed e.1) after.entries
  unfolding register
  register-IsHashed registration before after kept done =
      let (content_hash, given, stored) =
        guarded-eq-ok _ _ _ _ (hash_given tools registration.schema_json)
          (store tools registration before) after done in
      rw (← stored) (
        All-insert (λ e. IsHashed e.1) registration.schema_id
          (descriptor tools registration content_hash) before.entries kept
          (hash_given-IsHash content_hash registration.schema_json given))

  Registered-IsHashed :
      (registry : CultNetSchemaRegistry)
      → Registered registry
      → All (λ e. IsHashed e.1) registry.entries
  Registered-IsHashed _ unused = tt
  Registered-IsHashed _ (one_more registration {before} {after} earlier done) =
      register-IsHashed registration before after (Registered-IsHashed before earlier) done

  sanitize-IsHashed :
      (known : CultNetSchemaDescriptor) (include : Bool)
      → IsHashed known
      → IsHashed (sanitize_descriptor known include)
  sanitize-IsHashed known true hashed = hashed
  sanitize-IsHashed known false hashed = tt

  list-IsHashed :
      (options : CultNetSchemaCatalogOptions) (entries : BTreeMap (List ℕ) CultNetSchemaDescriptor)
      → All (λ e. IsHashed e.1) entries
      → All IsHashed (sanitize_listed options (values entries))
  unfolding sanitize_listed
  list-IsHashed options [] hashed = tt
  list-IsHashed options ((schema_id, known) ∷ entries) (first, others) =
      let rest = list-IsHashed options entries others in
      elim (Bool-cases (is_listed options known)) [
        | inl asked ↦ rw asked (sanitize-IsHashed known options.include_schema_json first, rest)
        | inr skipped ↦ rw skipped rest
      ]

  -- A registry that registrations have made answers a request for the catalog with a response in which each
  -- descriptor that holds a schema carries the canonical hash of that schema.
  pub create_catalog_response-AdvertisesHashes :
      (registry : CultNetSchemaRegistry) (request response : CultNetMessage)
      → Registered registry
      → create_catalog_response registry request ≡ ok response
      → AdvertisesHashes response
  unfolding create_catalog_response list
  create_catalog_response-AdvertisesHashes registry
        (CultNetMessage.schema_catalog_request message_id include schema_ids kinds) response
        registered answered =
      rw (← ok-injective answered)
        (list-IsHashed _ registry.entries (Registered-IsHashed registry registered))
  create_catalog_response-AdvertisesHashes registry _ response registered answered = cc
