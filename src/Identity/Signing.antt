-- ===== src/Identity/Signing.antt =====
-- src/service_identity.rs: the message that is signed, signing and verification.
use cultnet_rs.Base.{ℕ, ◌%◌, ◌^◌, ◌==◌, not, List, ◌++◌, length}
use cultnet_rs.Base.Bytes.{to_be_bytes}
use cultnet_rs.Base.Order.{bytes_eq}
use cultnet_rs.Base.Outcome.{◌>>=◌, ◌>>◌, bail_if}
use cultnet_rs.Identity.{
  Profile, Purpose, signature_domain, purpose_bytes, ServiceIdentityPrivateEntry,
  ServiceIdentityTrustAnchor, ServiceIdentitySignature, Crypto, Checked, derive_service_identity_id,
  validate_anchor, wrong_identity, key_length, signature_length, invalid_key, verification_failed,
}

abbrev pub length_bytes : List ℕ → List ℕ
length_bytes bytes = to_be_bytes 8 (length bytes % 2 ^ 64)

unfoldable pub signing_message : Profile → Purpose → List ℕ → List ℕ
signing_message profile purpose payload =
    signature_domain profile
    ++ (length_bytes (purpose_bytes purpose)
        ++ (purpose_bytes purpose ++ (length_bytes payload ++ payload)))

-- The signing key is its seed.
pub record ServiceIdentitySigner : Type 0 where
  pub entry : ServiceIdentityPrivateEntry
  pub signing_key : List ℕ

module _ (crypto : Crypto) (profile : Profile) (purpose : Purpose) where
  unfoldable pub sign : ServiceIdentitySigner → List ℕ → ServiceIdentitySignature
  sign signer payload = record {
    identity_id = signer.entry.identity_id;
    signature = crypto.sign signer.signing_key (signing_message profile purpose payload);
  }

  -- The checks of the key, the signature's form and the signature.
  unfoldable pub verify_bytes : (public_key payload signature : List ℕ) → Checked (Unit {0})
  verify_bytes public_key payload signature = do
    bail_if (not (length public_key == 32)) key_length
    bail_if (not (length signature == 64)) signature_length
    bail_if (not (crypto.is_verifying_key public_key)) invalid_key
    bail_if (not (crypto.verify public_key (signing_message profile purpose payload) signature))
        verification_failed

  unfoldable pub verify_service_identity_signature :
      ServiceIdentityTrustAnchor → List ℕ → ServiceIdentitySignature → Checked (Unit {0})
  verify_service_identity_signature anchor payload proof = do
    validate_anchor crypto profile anchor
    bail_if (not (bytes_eq proof.identity_id anchor.identity_id)) wrong_identity
    verify_bytes anchor.public_key payload proof.signature

  unfoldable pub verify_service_identity_signature_with_public_key :
      List ℕ → List ℕ → ServiceIdentitySignature → Checked (Unit {0})
  verify_service_identity_signature_with_public_key public_key payload proof = do
    derived ← derive_service_identity_id crypto profile public_key
    bail_if (not (bytes_eq proof.identity_id derived)) wrong_identity
    verify_bytes public_key payload proof.signature
