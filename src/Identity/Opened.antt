-- ===== src/Identity/Opened.antt =====
-- src/service_identity.rs: what an opened identity signs is verified by its trust anchor.
use cultnet_rs.Base.{ℕ, ◌≡◌, refl, not, arith, List, true, false, length}
use cultnet_rs.Base.Order.{bytes_eq, bytes_eq_iff}
use cultnet_rs.Base.Outcome.{ok, >>=-eq-ok, bail_if-eq-ok, bail_if-false, ok-injective}
use cultnet_rs.Replication.Create.{CultCacheEnvelope}
use cultnet_rs.Identity.{
  Profile, Purpose, trust_anchor_schema, ServiceIdentityPrivateEntry, ServiceIdentityTrustAnchor,
  Crypto, IsCrypto, derive_service_identity_id, validate_anchor, ServiceIdentitySignature,
  invalid_entry, invalid_anchor, wrong_identity, key_length, signature_length, invalid_key,
  verification_failed, wrong_store, wrong_platform, wrong_seed,
}
use cultnet_rs.Identity.Signing.{
  ServiceIdentitySigner, sign, verify_service_identity_signature, verify_bytes, signing_message,
}
use cultnet_rs.Identity.Store.{
  Platform, one_envelope, or_malformed, or_failed, validate_private, open_service_identity_at,
  trust_anchor,
}

pub not_eq_false : (a b : List ℕ) → not (bytes_eq a b) ≡ false → a ≡ b
not_eq_false a b h = ground (arith, bytes_eq_iff a b)

bytes_eq_self : (a : List ℕ) → bytes_eq a a ≡ true
bytes_eq_self a = (bytes_eq_iff a a).1 refl

-- What an entry shows that passes its checks.
validate_private_lem :
    (crypto : Crypto) (platform : Platform) (profile : Profile)
    (entry : ServiceIdentityPrivateEntry)
    → validate_private crypto platform profile entry ≡ ok tt
    → derive_service_identity_id crypto profile entry.public_key ≡ ok entry.identity_id
unfolding validate_private
validate_private_lem crypto platform profile entry h =
    let (_, h1) = bail_if-eq-ok _ invalid_entry _ h in
    let (_, h2) = bail_if-eq-ok _ invalid_entry _ h1 in
    let (derived, found, h3) =
      >>=-eq-ok _ (derive_service_identity_id crypto profile entry.public_key) h2 in
    let same = not_eq_false derived entry.identity_id (bail_if-false _ invalid_entry h3) in
    rw (← same) found

-- What a signer shows that was opened from a store.
open_lem :
    (crypto : Crypto) (platform : Platform) (profile : Profile) (entries : List CultCacheEnvelope)
    (signer : ServiceIdentitySigner)
    → open_service_identity_at crypto platform profile entries ≡ ok signer
    → (derive_service_identity_id crypto profile signer.entry.public_key
        ≡ ok signer.entry.identity_id)
      × (crypto.verifying_key signer.signing_key ≡ signer.entry.public_key)
unfolding open_service_identity_at
open_lem crypto platform profile entries signer h =
    let (envelope, _, h1) = >>=-eq-ok _ (one_envelope entries) h in
    let (_, h2) = bail_if-eq-ok _ wrong_store _ h1 in
    let (entry, _, h3) = >>=-eq-ok _ (or_malformed (platform.from_slice envelope.payload)) h2 in
    let (_, valid, h4) = >>=-eq-ok _ (validate_private crypto platform profile entry) h3 in
    let (_, h5) = bail_if-eq-ok _ wrong_platform _ h4 in
    let (binding, _, h6) = >>=-eq-ok _ (or_failed (platform.binding profile)) h5 in
    let (_, h7) = bail_if-eq-ok _ wrong_platform _ h6 in
    let (seed, _, h8) =
      >>=-eq-ok _ (or_failed (platform.unprotect profile entry.protected_private_seed binding))
        h7 in
    let (_, h9) = bail_if-eq-ok _ wrong_seed _ h8 in
    let (key, h10) = bail_if-eq-ok _ wrong_seed _ h9 in
    let e : ◌≡◌ {A = ServiceIdentitySigner} (record { entry = entry; signing_key = seed }) signer =
      ok-injective h10 in
    rw (← e) (validate_private_lem crypto platform profile entry valid, not_eq_false _ _ key)

-- A proof that an anchor verifies names the anchor's identity, which is that of its key, and the key verifies it.
pub verified_lem :
    (crypto : Crypto) (profile : Profile) (purpose : Purpose) (anchor : ServiceIdentityTrustAnchor)
    (payload : List ℕ) (proof : ServiceIdentitySignature)
    → verify_service_identity_signature crypto profile purpose anchor payload proof ≡ ok tt
    → (proof.identity_id ≡ anchor.identity_id)
      × (derive_service_identity_id crypto profile anchor.public_key ≡ ok anchor.identity_id)
      × (crypto.verify anchor.public_key (signing_message profile purpose payload) proof.signature
          ≡ true)
unfolding verify_service_identity_signature verify_bytes validate_anchor
verified_lem crypto profile purpose anchor payload proof h =
    let (_, valid, h1) = >>=-eq-ok _ (validate_anchor crypto profile anchor) h in
    let (named, h2) = bail_if-eq-ok _ wrong_identity _ h1 in
    let (_, h3) = bail_if-eq-ok _ key_length _ h2 in
    let (_, h4) = bail_if-eq-ok _ signature_length _ h3 in
    let (_, h5) = bail_if-eq-ok _ invalid_key _ h4 in
    let genuine = bail_if-false _ verification_failed h5 in
    let (_, v1) = bail_if-eq-ok _ invalid_anchor _ valid in
    let (derived, found, v2) =
      >>=-eq-ok _ (derive_service_identity_id crypto profile anchor.public_key) v1 in
    let same = not_eq_false derived anchor.identity_id (bail_if-false _ invalid_anchor v2) in
    (not_eq_false _ _ named, rw (← same) found, ground (arith, genuine))

-- What an identity signs that was opened from its store, its trust anchor verifies under the same profile and purpose.
pub verify-sign :
    (crypto : Crypto) (laws : IsCrypto crypto) (platform : Platform) (profile : Profile)
    (purpose : Purpose) (entries : List CultCacheEnvelope) (signer : ServiceIdentitySigner)
    (anchor : ServiceIdentityTrustAnchor) (payload : List ℕ)
    → open_service_identity_at crypto platform profile entries ≡ ok signer
    → trust_anchor crypto platform profile signer ≡ ok anchor
    → verify_service_identity_signature crypto profile purpose anchor payload
        (sign crypto profile purpose signer payload)
      ≡ ok tt
unfolding trust_anchor verify_service_identity_signature verify_bytes validate_anchor sign
verify-sign crypto laws platform profile purpose entries signer anchor payload opened anchored =
    let (derived, key) = open_lem crypto platform profile entries signer opened in
    let (bytes, _, e) = >>=-eq-ok _ (or_failed (platform.to_vec signer.entry)) anchored in
    let size : length signer.entry.public_key ≡ 32 =
      rw key at (laws.length-verifying_key signer.signing_key) in
    rw
      (
        ← ok-injective e,
        bytes_eq_self (trust_anchor_schema profile),
        size,
        derived,
        bytes_eq_self signer.entry.identity_id,
        laws.length-sign signer.signing_key (signing_message profile purpose payload),
        ← key,
        laws.verifying_key-valid signer.signing_key,
        laws.verify-sign signer.signing_key (signing_message profile purpose payload),
      )
      refl
