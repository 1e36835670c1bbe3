-- ===== src/Brake/Tests.antt =====
-- src/idunn_deployment_brake.rs: the released brake of the source's tests.
use cultnet_rs.Base.{ℕ, ◌≡◌, ◌≢◌, refl, ◌++◌, List, [], false, some}
use cultnet_rs.Base.Bytes.{to_be_bytes}
use cultnet_rs.Base.Text.{
  codes, trim_is_empty, any_control, chars, chars?, is_whitespace, is_control,
}
use cultnet_rs.Base.Outcome.{ok, err, panic}
use cultnet_rs.Identity.{
  ServiceIdentityTrustAnchor, idunn_deployment_brake_operator, idunn_deployment_brake_release,
  trust_anchor_schema, id_domain, hex, derive_service_identity_id, validate_anchor,
}
use cultnet_rs.Identity.Toy.{crypto, zeros, checksum}
use cultnet_rs.Identity.Signing.{signing_message, verify_service_identity_signature, verify_bytes}
use cultnet_rs.Brake.{
  IdunnDeploymentBrakeRecord, brake_schema, brake_id_text, brake_authority, release_purpose,
  validate, validate_released, identifier,
}
use cultnet_rs.Brake.Evaluate.{
  present, IdunnDeploymentBrakeDenial, Serializer, classify_record, classify_idunn_deployment_brake,
  verify_idunn_deployment_brake_authorization, evaluate_idunn_deployment_brake,
}
use cultnet_rs.Brake.Valid.{IsBounded}
use cultnet_rs.Brake.Permits.{IsFor, IsCurrent, IsSigned, evaluate-IsSigned}
use cultnet_rs.Brake.Decides.{evaluate-ne-panic}

abbrev operator : List ℕ
operator = zeros 32

abbrev anchor : ServiceIdentityTrustAnchor
anchor = record {
  schema_version = trust_anchor_schema idunn_deployment_brake_operator;
  identity_id = hex (crypto.sha256 (id_domain idunn_deployment_brake_operator ++ operator));
  public_key = operator;
  assurance = codes "file";
  identity_created_at = codes "now";
  source_identity_record_sha256 = [];
}

-- A record is written as its reason.
abbrev to_vec : Serializer
to_vec r = some r.reason

abbrev reason : List ℕ
reason = codes "operator authorized one attempt"

abbrev released : IdunnDeploymentBrakeRecord
released = record {
  schema_version = brake_schema;
  brake_id = brake_id_text;
  authority = brake_authority;
  runtime_id = codes "yggdrasil";
  status = codes "released";
  scope = codes "deployment";
  reason = reason;
  observed_at_unix_millis = 100;
  expires_at_unix_millis = some 1000;
  authorization_id = some (codes "auth/r4");
  authorization_purpose = some release_purpose;
  authorized_release_id = some (codes "release-4");
  authorized_deployment_id = some (codes "deployment-4");
  authorized_by = some anchor.identity_id;
  authorization_issued_at_unix_millis = some 100;
  authorization_expires_at_unix_millis = some 900;
  signature_algorithm = some (codes "ed25519");
  signature = some (
      checksum
        (signing_message idunn_deployment_brake_operator idunn_deployment_brake_release reason));
  private_state_exposed = false;
  updated_by = codes "operator/metacrat";
}

permitted :
    evaluate_idunn_deployment_brake crypto to_vec
      (present released)
      anchor
      (codes "yggdrasil")
      (codes "release-4")
      (codes "deployment-4")
      500
    ≡ ok tt
unfolding evaluate_idunn_deployment_brake classify_idunn_deployment_brake classify_record validate
    validate_released identifier verify_idunn_deployment_brake_authorization
    verify_service_identity_signature verify_bytes validate_anchor derive_service_identity_id hex
    signing_message to_be_bytes trim_is_empty any_control chars chars? is_whitespace is_control
permitted = refl

too_late :
    evaluate_idunn_deployment_brake crypto to_vec
      (present released)
      anchor
      (codes "yggdrasil")
      (codes "release-4")
      (codes "deployment-4")
      900
    ≡ err IdunnDeploymentBrakeDenial.expired
unfolding evaluate_idunn_deployment_brake classify_idunn_deployment_brake classify_record validate
    validate_released identifier signing_message to_be_bytes trim_is_empty any_control chars chars?
    is_whitespace is_control hex
too_late = refl

evaluate-IsSigned_example :
    (r : IdunnDeploymentBrakeRecord) × (issued : ℕ) × (expires : ℕ) × (present released ≡ present r)
    × IsFor r (codes "yggdrasil") (codes "release-4") (codes "deployment-4")
    × IsBounded r issued expires
    × IsCurrent r issued expires 500
    × IsSigned crypto to_vec r anchor
evaluate-IsSigned_example =
    evaluate-IsSigned crypto to_vec (present released) anchor (codes "yggdrasil")
      (codes "release-4") (codes "deployment-4") 500 permitted

evaluate-ne-panic_example :
    evaluate_idunn_deployment_brake crypto to_vec
      (present released)
      anchor
      (codes "yggdrasil")
      (codes "release-4")
      (codes "deployment-4")
      900
    ≢ panic
evaluate-ne-panic_example =
    evaluate-ne-panic crypto to_vec (present released) anchor (codes "yggdrasil")
      (codes "release-4") (codes "deployment-4") 900
