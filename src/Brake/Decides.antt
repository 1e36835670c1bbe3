-- ===== src/Brake/Decides.antt =====
-- src/idunn_deployment_brake.rs: an evaluation always comes to a decision.
use cultnet_rs.Base.{ℕ, ◌≢◌, arith, List}
use cultnet_rs.Base.Outcome.{panic}
use cultnet_rs.Identity.{
  Crypto, Profile, Purpose, ServiceIdentityTrustAnchor, ServiceIdentitySignature,
  derive_service_identity_id, validate_anchor,
}
use cultnet_rs.Identity.Signing.{verify_service_identity_signature, verify_bytes}
use cultnet_rs.Brake.{IdunnDeploymentBrakeRecord, validate, validate_released, identifier}
use cultnet_rs.Brake.Evaluate.{
  IdunnDeploymentBrakeObservation, present, classify_record, classify_idunn_deployment_brake,
  Serializer, verify_idunn_deployment_brake_authorization, evaluate_idunn_deployment_brake,
}

-- The `unwrap`s of a released brake follow the test that every part is there.
validate_released-ne-panic : (r : IdunnDeploymentBrakeRecord) → validate_released r ≢ panic
unfolding validate_released identifier
validate_released-ne-panic r = ground arith

validate-ne-panic : (r : IdunnDeploymentBrakeRecord) → validate r ≢ panic
unfolding validate identifier
validate-ne-panic r = ground (arith, validate_released-ne-panic r)

module _ (r : IdunnDeploymentBrakeRecord) (runtime_id release_id deployment_id : List ℕ)
    (now : ℕ) where
  classify-ne-panic : classify_record r runtime_id release_id deployment_id now ≢ panic
  unfolding classify_record
  classify-ne-panic = ground (arith, validate-ne-panic r)

module _ (crypto : Crypto) where
  signature-ne-panic :
      (profile : Profile) (purpose : Purpose) (anchor : ServiceIdentityTrustAnchor)
      (payload : List ℕ) (proof : ServiceIdentitySignature)
      → verify_service_identity_signature crypto profile purpose anchor payload proof ≢ panic
  unfolding verify_service_identity_signature verify_bytes validate_anchor
      derive_service_identity_id
  signature-ne-panic profile purpose anchor payload proof = ground arith

  verify-ne-panic :
      (to_vec : Serializer) (r : IdunnDeploymentBrakeRecord) (anchor : ServiceIdentityTrustAnchor)
      → verify_idunn_deployment_brake_authorization crypto to_vec r anchor ≢ panic
  unfolding verify_idunn_deployment_brake_authorization
  verify-ne-panic to_vec r anchor = grind (arith, validate-ne-panic, signature-ne-panic)

  -- An evaluation permits or denies: it never panics, so the `unreachable!` after a classification that succeeds is
  -- not reached, no `unwrap` of the validation fails, and the lifetime of an authorization is only subtracted where it
  -- is not negative.
  pub evaluate-ne-panic :
      (to_vec : Serializer) (observation : IdunnDeploymentBrakeObservation)
      (anchor : ServiceIdentityTrustAnchor) (runtime_id release_id deployment_id : List ℕ) (now : ℕ)
      → evaluate_idunn_deployment_brake crypto to_vec observation anchor runtime_id release_id
          deployment_id now
        ≢ panic
  unfolding evaluate_idunn_deployment_brake classify_idunn_deployment_brake
  evaluate-ne-panic to_vec IdunnDeploymentBrakeObservation.missing anchor runtime_id release_id
        deployment_id now =
      ground arith
  evaluate-ne-panic to_vec IdunnDeploymentBrakeObservation.corrupt anchor runtime_id release_id
        deployment_id now =
      ground arith
  evaluate-ne-panic to_vec (present r) anchor runtime_id release_id deployment_id now = ground (
    arith,
    classify-ne-panic r runtime_id release_id deployment_id now,
    verify-ne-panic to_vec r anchor,
  )
