-- ===== src/Identity.antt =====
-- src/service_identity.rs: the keys by which services sign, bound to a profile and a purpose.
-- Ed25519, SHA-256, rmp_serde and the platform's protection of a seed are arguments.
pub mod Signing
pub mod Store
pub mod Verified
pub mod Opened
pub mod Toy
mod Tests
use cultnet_rs.Base.{
  ℕ, ◌≡◌, ◌/◌, ◌%◌, ◌==◌, not, ◌||◌, List, [], ◌∷◌, ◌++◌, Bool, true, false, Option, none, some,
  if◌then◌else◌, length, get_elem?,
}
use cultnet_rs.Base.Text.{codes}
use cultnet_rs.Base.Order.{bytes_eq}
use cultnet_rs.Base.Outcome.{Outcome, ok, err, panic, ◌>>=◌, ◌>>◌, bail_if}

-- The types that implement `ServiceIdentityProfile` and `ServiceSignaturePurpose`.
pub data Profile : Type 0 where
  idunn_deployment_brake_operator gamecult_provider_health idunn_service : Profile

pub data Purpose : Type 0 where
  idunn_deployment_brake_release idunn_signed_daemon_health : Purpose
  idunn_authenticated_provider_health_projection : Purpose

abbrev nul : List ℕ
nul = 0 ∷ []

abbrev pub id_domain : Profile → List ℕ
id_domain idunn_deployment_brake_operator = codes "idunn.deployment-brake-operator.id.v1" ++ nul
id_domain gamecult_provider_health = codes "gamecult.provider-health.identity.v1" ++ nul
id_domain idunn_service = codes "idunn.service-identity.id.v1" ++ nul

abbrev pub signature_domain : Profile → List ℕ
signature_domain idunn_deployment_brake_operator =
    codes "idunn.deployment-brake-operator.signature.v1" ++ nul
signature_domain gamecult_provider_health = codes "gamecult.provider-health.signature.v1" ++ nul
signature_domain idunn_service = codes "idunn.service-identity.signature.v1" ++ nul

-- `PRIVATE_TYPE` and `PRIVATE_SCHEMA`, which are the same texts.
abbrev pub private_schema : Profile → List ℕ
private_schema idunn_deployment_brake_operator = codes "idunn.deployment_brake_operator.private.v1"
private_schema gamecult_provider_health = codes "gamecult.provider_health_identity.private.v1"
private_schema idunn_service = codes "idunn.service_identity.private.v1"

abbrev pub private_key : Profile → List ℕ
private_key idunn_deployment_brake_operator = codes "idunn-deployment-brake-operator"
private_key gamecult_provider_health = codes "gamecult-provider-health-identity"
private_key idunn_service = codes "idunn-service-identity"

abbrev pub trust_anchor_schema : Profile → List ℕ
trust_anchor_schema idunn_deployment_brake_operator =
    codes "idunn.deployment_brake_operator.trust_anchor.v1"
trust_anchor_schema gamecult_provider_health =
    codes "gamecult.provider_health_identity.trust_anchor.v1"
trust_anchor_schema idunn_service = codes "idunn.service_identity.trust_anchor.v1"

abbrev pub purpose_bytes : Purpose → List ℕ
purpose_bytes idunn_deployment_brake_release = codes "idunn.deployment-release.v1"
purpose_bytes idunn_signed_daemon_health = codes "idunn.signed_daemon_health.v1"
purpose_bytes idunn_authenticated_provider_health_projection =
    codes "idunn.authenticated-provider-health-projection.v1"

pub record ServiceIdentityPrivateEntry : Type 0 where
  pub schema_version : List ℕ
  pub identity_id : List ℕ
  pub public_key : List ℕ
  pub protected_private_seed : List ℕ
  pub protector_kind : List ℕ
  pub protector_binding : List ℕ
  pub protector_version : List ℕ
  pub assurance : List ℕ
  pub created_at : List ℕ
  pub enrollment_nonce : List ℕ

pub record ServiceIdentityTrustAnchor : Type 0 where
  pub schema_version : List ℕ
  pub identity_id : List ℕ
  pub public_key : List ℕ
  pub assurance : List ℕ
  pub identity_created_at : List ℕ
  pub source_identity_record_sha256 : List ℕ

pub record ServiceIdentitySignature : Type 0 where
  pub identity_id : List ℕ
  pub signature : List ℕ

pub data IdentityError : Type 0 where
  key_length signature_length invalid_key wrong_identity invalid_anchor : IdentityError
  verification_failed invalid_entry wrong_store wrong_platform wrong_seed : IdentityError
  serialization platform_failed : IdentityError

abbrev pub Checked : Type 0 → Type 0
Checked A = Outcome IdentityError A

-- The packages ed25519_dalek and sha2. A signing key is its seed.
pub record Crypto : Type 0 where
  pub sha256 : List ℕ → List ℕ
  pub verifying_key : List ℕ → List ℕ
  pub sign : List ℕ → List ℕ → List ℕ
  pub is_verifying_key : List ℕ → Bool
  pub verify : List ℕ → List ℕ → List ℕ → Bool

-- What they document: a key's signature verifies under it, and the lengths of what they make.
pub record IsCrypto (crypto : Crypto) : Type 0 where
  pub length-verifying_key : (seed : List ℕ) → length (crypto.verifying_key seed) ≡ 32
  pub verifying_key-valid :
      (seed : List ℕ) → crypto.is_verifying_key (crypto.verifying_key seed) ≡ true
  pub length-sign : (seed message : List ℕ) → length (crypto.sign seed message) ≡ 64
  pub verify-sign :
      (seed message : List ℕ)
      → crypto.verify (crypto.verifying_key seed) message (crypto.sign seed message) ≡ true

abbrev digit : ℕ → List ℕ
digit n = elim (get_elem? (codes "0123456789abcdef") n) [ none ↦ [] | some c ↦ c ∷ [] ]

unfoldable pub hex : List ℕ → List ℕ
hex [] = []
hex (b ∷ bytes) = (digit (b / 16) ++ digit (b % 16)) ++ hex bytes

module _ (crypto : Crypto) (profile : Profile) where
  unfoldable pub derive_service_identity_id : List ℕ → Checked (List ℕ)
  derive_service_identity_id public_key = do
    bail_if (not (length public_key == 32)) key_length
    ok (hex (crypto.sha256 (id_domain profile ++ public_key)))

  unfoldable pub validate_anchor : ServiceIdentityTrustAnchor → Checked (Unit {0})
  validate_anchor anchor = do
    bail_if
        (not (bytes_eq anchor.schema_version (trust_anchor_schema profile))
          || not (length anchor.public_key == 32))
        invalid_anchor
    derived ← derive_service_identity_id anchor.public_key
    bail_if (not (bytes_eq derived anchor.identity_id)) invalid_anchor
