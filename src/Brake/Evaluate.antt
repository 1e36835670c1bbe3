-- ===== src/Brake/Evaluate.antt =====
-- src/idunn_deployment_brake.rs: whether the brake permits a deployment. The conversion of a
-- record to bytes by rmp_serde, and the cryptography, are arguments.
use cultnet_rs.Base.{ℕ, ltb, leb, not, ◌||◌, List, Bool, Option, none, some}
use cultnet_rs.Base.Text.{codes}
use cultnet_rs.Base.Order.{bytes_eq}
use cultnet_rs.Base.Outcome.{Outcome, ok, err, panic, ◌>>=◌, ◌>>◌, bail_if}
use cultnet_rs.Identity.{
  Crypto, ServiceIdentityTrustAnchor, IdentityError, idunn_deployment_brake_operator,
  idunn_deployment_brake_release,
}
use cultnet_rs.Identity.Signing.{verify_service_identity_signature}
use cultnet_rs.Brake.{
  IdunnDeploymentBrakeRecord, BrakeError, Checked, validate, is_text, is_some_and, is_none_or,
  is_engaged, brake_id_text, brake_authority, brake_scope, not_released, absent_authorizer,
  absent_signature, serialization, bad_signature,
}

pub data IdunnDeploymentBrakeObservation : Type 0 where
  missing corrupt : IdunnDeploymentBrakeObservation
  present : IdunnDeploymentBrakeRecord → IdunnDeploymentBrakeObservation

pub data IdunnDeploymentBrakeDenial : Type 0 where
  missing corrupt foreign wrong_runtime wrong_scope engaged expired : IdunnDeploymentBrakeDenial
  release_mismatch deployment_mismatch invalid_signature : IdunnDeploymentBrakeDenial

abbrev pub Decided : Type 0
Decided = Outcome IdunnDeploymentBrakeDenial (Unit {0})

-- `map_err(|_| denial)`, and `if x.is_err() { return Err(denial) }`.
abbrev pub map_err : Checked (Unit {0}) → IdunnDeploymentBrakeDenial → Decided
map_err panic denial = panic
map_err (err e) denial = err denial
map_err (ok u) denial = ok u

abbrev pub is_expired : IdunnDeploymentBrakeRecord → (now : ℕ) → Bool
is_expired r now =
    is_some_and r.expires_at_unix_millis (λ v. leb v now)
    || is_none_or r.authorization_expires_at_unix_millis (λ v. leb v now)
    || is_none_or r.authorization_issued_at_unix_millis (λ v. ltb now v)

unfoldable pub classify_record :
    IdunnDeploymentBrakeRecord → (runtime_id release_id deployment_id : List ℕ) (now : ℕ) → Decided
classify_record r runtime_id release_id deployment_id now = do
  map_err (validate r) IdunnDeploymentBrakeDenial.corrupt
  bail_if (not (bytes_eq r.brake_id brake_id_text) || not (bytes_eq r.authority brake_authority))
      foreign
  bail_if (not (bytes_eq r.runtime_id runtime_id)) wrong_runtime
  bail_if (not (bytes_eq r.scope (codes "all") || bytes_eq r.scope brake_scope)) wrong_scope
  bail_if (is_engaged r) engaged
  bail_if (is_expired r now) expired
  bail_if (not (is_text r.authorized_release_id release_id)) release_mismatch
  bail_if (not (is_text r.authorized_deployment_id deployment_id)) deployment_mismatch

unfoldable pub classify_idunn_deployment_brake :
    IdunnDeploymentBrakeObservation
    → (runtime_id release_id deployment_id : List ℕ) (now : ℕ) → Decided
classify_idunn_deployment_brake IdunnDeploymentBrakeObservation.missing runtime_id release_id
      deployment_id now =
    err IdunnDeploymentBrakeDenial.missing
classify_idunn_deployment_brake IdunnDeploymentBrakeObservation.corrupt runtime_id release_id
      deployment_id now =
    err IdunnDeploymentBrakeDenial.corrupt
classify_idunn_deployment_brake (present r) runtime_id release_id deployment_id now =
    classify_record r runtime_id release_id deployment_id now

abbrev pub ok_or : Option (List ℕ) → BrakeError → Checked (List ℕ)
ok_or none e = err e
ok_or (some value) e = ok value

abbrev pub as_brake : Outcome IdentityError (Unit {0}) → Checked (Unit {0})
as_brake panic = panic
as_brake (err e) = err bad_signature
as_brake (ok u) = ok u

-- `rmp_serde::to_vec`.
abbrev pub Serializer : Type 0
Serializer = IdunnDeploymentBrakeRecord → Option (List ℕ)

-- The record that is signed: the signature is left out.
abbrev pub unsigned : IdunnDeploymentBrakeRecord → IdunnDeploymentBrakeRecord
unsigned r = record r { signature = none }

module _ (crypto : Crypto) (to_vec : Serializer) where
  unfoldable pub verify_idunn_deployment_brake_authorization :
      IdunnDeploymentBrakeRecord → ServiceIdentityTrustAnchor → Checked (Unit {0})
  verify_idunn_deployment_brake_authorization r anchor = do
    validate r
    bail_if (not (bytes_eq r.status (codes "released"))) not_released
    identity_id ← ok_or r.authorized_by absent_authorizer
    signature ← ok_or r.signature absent_signature
    payload ← ok_or (to_vec (unsigned r)) serialization
    as_brake (
        verify_service_identity_signature crypto idunn_deployment_brake_operator
          idunn_deployment_brake_release anchor payload
          (record { identity_id = identity_id; signature = signature }))

  -- The `let else` after a successful classification, whose other branch is `unreachable!`.
  abbrev pub verify_observed :
      IdunnDeploymentBrakeObservation → ServiceIdentityTrustAnchor → Decided
  verify_observed IdunnDeploymentBrakeObservation.missing anchor = panic
  verify_observed IdunnDeploymentBrakeObservation.corrupt anchor = panic
  verify_observed (present r) anchor =
      map_err (verify_idunn_deployment_brake_authorization r anchor) invalid_signature

  unfoldable pub evaluate_idunn_deployment_brake :
      IdunnDeploymentBrakeObservation
      → ServiceIdentityTrustAnchor
      → (runtime_id release_id deployment_id : List ℕ) (now : ℕ) → Decided
  evaluate_idunn_deployment_brake observation anchor runtime_id release_id deployment_id now = do
    classify_idunn_deployment_brake observation runtime_id release_id deployment_id now
    verify_observed observation anchor
