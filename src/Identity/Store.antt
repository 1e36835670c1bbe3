-- ===== src/Identity/Store.antt =====
-- src/service_identity.rs: an identity that is opened from its store. The store's envelopes and
-- what the platform says are arguments.
use cultnet_rs.Base.{
  ℕ, ◌==◌, not, ◌||◌, List, [], ◌∷◌, ◌++◌, is_empty, Bool, false, Option, none, some, length,
}
use cultnet_rs.Base.Text.{codes}
use cultnet_rs.Base.Order.{bytes_eq}
use cultnet_rs.Base.Outcome.{ok, err, ◌>>=◌, ◌>>◌, bail_if}
use cultnet_rs.Replication.Create.{CultCacheEnvelope}
use cultnet_rs.Identity.{
  Profile, private_schema, private_key, trust_anchor_schema, ServiceIdentityPrivateEntry,
  ServiceIdentityTrustAnchor, Crypto, Checked, derive_service_identity_id, hex, invalid_entry,
  wrong_store, wrong_platform, wrong_seed, serialization, platform_failed,
}
use cultnet_rs.Identity.Signing.{ServiceIdentitySigner}

-- `rmp_serde` on entries, `chrono`, and the functions of the platform.
pub record Platform : Type 0 where
  pub from_slice : List ℕ → Option ServiceIdentityPrivateEntry
  pub to_vec : ServiceIdentityPrivateEntry → Option (List ℕ)
  pub is_rfc3339 : List ℕ → Bool
  pub protector_kind : List ℕ
  pub assurance : List ℕ
  pub binding : Profile → Option (List ℕ)
  pub unprotect : Profile → (seed binding : List ℕ) → Option (List ℕ)

abbrev pub or_failed : Option (List ℕ) → Checked (List ℕ)
or_failed none = err platform_failed
or_failed (some bytes) = ok bytes

abbrev pub or_malformed : Option ServiceIdentityPrivateEntry → Checked ServiceIdentityPrivateEntry
or_malformed none = err serialization
or_malformed (some entry) = ok entry

abbrev pub one_envelope : List CultCacheEnvelope → Checked CultCacheEnvelope
one_envelope (envelope ∷ []) = ok envelope
one_envelope other = err wrong_store

abbrev pub is_schema : Option (List ℕ) → List ℕ → Bool
is_schema none schema = false
is_schema (some schema_id) schema = bytes_eq schema_id schema

module _ (crypto : Crypto) (platform : Platform) (profile : Profile) where
  unfoldable pub validate_private : ServiceIdentityPrivateEntry → Checked (Unit {0})
  validate_private entry = do
    bail_if
        (not (bytes_eq entry.schema_version (private_schema profile))
          || not (length entry.public_key == 32)
          || not (length entry.enrollment_nonce == 32)
          || is_empty entry.protected_private_seed
          || not (bytes_eq entry.protector_version (codes "v1")))
        invalid_entry
    bail_if (not (platform.is_rfc3339 entry.created_at)) invalid_entry
    derived ← derive_service_identity_id crypto profile entry.public_key
    bail_if (not (bytes_eq derived entry.identity_id)) invalid_entry

  unfoldable pub open_service_identity_at :
      (entries : List CultCacheEnvelope) → Checked ServiceIdentitySigner
  open_service_identity_at entries = do
    envelope ← one_envelope entries
    bail_if
        (not (bytes_eq envelope.entry_type (private_schema profile))
          || not (bytes_eq envelope.key (private_key profile))
          || not (is_schema envelope.schema_id (private_schema profile)))
        wrong_store
    entry ← or_malformed (platform.from_slice envelope.payload)
    validate_private entry
    bail_if
        (not (bytes_eq entry.protector_kind platform.protector_kind)
          || not (bytes_eq entry.assurance platform.assurance))
        wrong_platform
    binding ← or_failed (platform.binding profile)
    bail_if (not (bytes_eq entry.protector_binding binding)) wrong_platform
    seed ← or_failed (platform.unprotect profile entry.protected_private_seed binding)
    bail_if (not (length seed == 32)) wrong_seed
    bail_if (not (bytes_eq (crypto.verifying_key seed) entry.public_key)) wrong_seed
    ok (record { entry = entry; signing_key = seed })

  unfoldable pub trust_anchor : ServiceIdentitySigner → Checked ServiceIdentityTrustAnchor
  trust_anchor signer = do
    bytes ← or_failed (platform.to_vec signer.entry)
    ok (record {
      schema_version = trust_anchor_schema profile;
      identity_id = signer.entry.identity_id;
      public_key = signer.entry.public_key;
      assurance = signer.entry.assurance;
      identity_created_at = signer.entry.created_at;
      source_identity_record_sha256 = codes "sha256-" ++ hex (crypto.sha256 bytes);
    })
