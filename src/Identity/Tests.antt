-- ===== src/Identity/Tests.antt =====
-- src/service_identity.rs: an identity that is opened, signs and is verified, with a checksum in
-- the place of a signature.
use cultnet_rs.Base.{ℕ, ◌≡◌, refl, arith, List, [], ◌∷◌, ◌++◌, true, some}
use cultnet_rs.Base.Text.{codes}
use cultnet_rs.Base.Outcome.{ok}
use cultnet_rs.Replication.Create.{CultCacheEnvelope}
use cultnet_rs.Identity.{
  Profile, Purpose, idunn_service, idunn_authenticated_provider_health_projection, private_schema,
  private_key, trust_anchor_schema, ServiceIdentityPrivateEntry, ServiceIdentityTrustAnchor, hex,
  derive_service_identity_id, id_domain,
}
use cultnet_rs.Identity.Toy.{crypto, crypto_laws, zeros}
use cultnet_rs.Identity.Signing.{ServiceIdentitySigner, sign, verify_service_identity_signature}
use cultnet_rs.Identity.Store.{Platform, open_service_identity_at, trust_anchor, validate_private}
use cultnet_rs.Identity.Verified.{signing_message-injective}
use cultnet_rs.Identity.Opened.{verify-sign}

abbrev seed : List ℕ
seed = zeros 32

abbrev entry : ServiceIdentityPrivateEntry
entry = record {
  schema_version = private_schema idunn_service;
  identity_id = hex (crypto.sha256 (id_domain idunn_service ++ seed));
  public_key = seed;
  protected_private_seed = seed;
  protector_kind = codes "linux";
  protector_binding = codes "host";
  protector_version = codes "v1";
  assurance = codes "file";
  created_at = codes "now";
  enrollment_nonce = seed;
}

abbrev platform : Platform
platform = record {
  from_slice = λ bytes. some entry;
  to_vec = λ entry. some entry.created_at;
  is_rfc3339 = λ text. true;
  protector_kind = codes "linux";
  assurance = codes "file";
  binding = λ profile. some (codes "host");
  unprotect = λ profile seed binding. some seed;
}

abbrev store : List CultCacheEnvelope
store =
    record {
      key = private_key idunn_service;
      entry_type = private_schema idunn_service;
      payload = [];
      stored_at = codes "now";
      schema_id = some (private_schema idunn_service);
    }
    ∷ []

abbrev signer : ServiceIdentitySigner
signer = record { entry = entry; signing_key = seed }

abbrev anchor : ServiceIdentityTrustAnchor
anchor = record {
  schema_version = trust_anchor_schema idunn_service;
  identity_id = entry.identity_id;
  public_key = seed;
  assurance = codes "file";
  identity_created_at = codes "now";
  source_identity_record_sha256 = codes "sha256-" ++ hex (crypto.sha256 (codes "now"));
}

opened : open_service_identity_at crypto platform idunn_service store ≡ ok signer
unfolding open_service_identity_at validate_private derive_service_identity_id hex
opened = refl

anchored : trust_anchor crypto platform idunn_service signer ≡ ok anchor
unfolding trust_anchor
anchored = refl

verify-sign_example :
    verify_service_identity_signature crypto idunn_service
      idunn_authenticated_provider_health_projection anchor
      (codes "up")
      (sign crypto idunn_service idunn_authenticated_provider_health_projection signer (codes "up"))
    ≡ ok tt
verify-sign_example =
    verify-sign crypto crypto_laws platform idunn_service
      idunn_authenticated_provider_health_projection store signer anchor (codes "up") opened
      anchored

signing_message-injective_example :
    ◌≡◌ {A = Profile} idunn_service idunn_service
    × ◌≡◌ {A = Purpose} idunn_authenticated_provider_health_projection
        idunn_authenticated_provider_health_projection
    × (codes "up" ≡ codes "up")
signing_message-injective_example =
    signing_message-injective idunn_service idunn_service
      idunn_authenticated_provider_health_projection idunn_authenticated_provider_health_projection
      (codes "up") (codes "up") (omega arith) (omega arith) refl
