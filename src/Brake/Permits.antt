-- ===== src/Brake/Permits.antt =====
-- src/idunn_deployment_brake.rs: what a brake shows that permits a deployment.
use cultnet_rs.Base.{
  ℕ, ◌≡◌, ◌⊎◌, inl, inr, refl, ◌≤◌, ◌<◌, leb, not, ◌||◌, arith, List, true, false, Option, none,
  some,
}
use cultnet_rs.Base.Text.{codes}
use cultnet_rs.Base.Order.{bytes_eq, bytes_eq_iff}
use cultnet_rs.Base.Outcome.{Outcome, ok, err, panic, >>=-eq-ok, bail_if-eq-ok, bail_if-false}
use cultnet_rs.Identity.{
  Crypto, IdentityError, ServiceIdentityTrustAnchor, idunn_deployment_brake_operator,
  idunn_deployment_brake_release, derive_service_identity_id,
}
use cultnet_rs.Identity.Opened.{not_eq_false, verified_lem}
use cultnet_rs.Identity.Signing.{signing_message}
use cultnet_rs.Brake.{
  IdunnDeploymentBrakeRecord, BrakeError, Checked, validate, is_text, is_some_and, brake_id_text,
  brake_authority, brake_scope, not_released, absent_authorizer, absent_signature, serialization,
}
use cultnet_rs.Brake.Valid.{IsBounded, validate_released_lem, validate_lem}
use cultnet_rs.Brake.Evaluate.{
  IdunnDeploymentBrakeObservation, present, IdunnDeploymentBrakeDenial, map_err, foreign,
  wrong_runtime, wrong_scope, engaged, expired, release_mismatch, deployment_mismatch,
  invalid_signature, is_expired, classify_record, classify_idunn_deployment_brake, ok_or, as_brake,
  Serializer, unsigned, verify_idunn_deployment_brake_authorization,
  evaluate_idunn_deployment_brake,
}

map_err_lem :
    (checked : Checked (Unit {0})) (denial : IdunnDeploymentBrakeDenial)
    → map_err checked denial ≡ ok tt
    → checked ≡ ok tt
map_err_lem panic denial h = cc
map_err_lem (err e) denial h = cc
map_err_lem (ok u) denial h = refl

is_text_lem :
    (value : Option (List ℕ)) (text : List ℕ) → not (is_text value text) ≡ false → value ≡ some text
is_text_lem none text h = cc
is_text_lem (some given) text h = ground (arith, bytes_eq_iff given text)

-- The record is the deployment brake, in force for the runtime, the release and the deployment.
abbrev pub IsFor :
    IdunnDeploymentBrakeRecord → (runtime_id release_id deployment_id : List ℕ) → Type 0
IsFor r runtime_id release_id deployment_id =
    (r.brake_id ≡ brake_id_text)
    × (r.authority ≡ brake_authority)
    × (r.runtime_id ≡ runtime_id)
    × ((r.scope ≡ codes "all") ⊎ (r.scope ≡ brake_scope))
    × (r.status ≡ codes "released")
    × (r.authorized_release_id ≡ some release_id)
    × (r.authorized_deployment_id ≡ some deployment_id)

-- The clock reads a time inside the grant, and before the brake's own end if it has one.
abbrev pub IsCurrent : IdunnDeploymentBrakeRecord → (issued expires now : ℕ) → Type 0
IsCurrent r issued expires now =
    (issued ≤ now)
    × (now < expires)
    × ((r.expires_at_unix_millis ≡ none)
        ⊎ ((expiry : ℕ) × (r.expires_at_unix_millis ≡ some expiry) × (now < expiry)))

expiry_lem :
    (expires : Option ℕ) (now : ℕ)
    → is_some_and expires (λ v. leb v now) ≡ false
    → (expires ≡ none) ⊎ ((expiry : ℕ) × (expires ≡ some expiry) × (now < expiry))
expiry_lem none now h = inl refl
expiry_lem (some expiry) now h = inr (expiry, refl, ground arith)

module _ (r : IdunnDeploymentBrakeRecord) (runtime_id release_id deployment_id : List ℕ)
    (now : ℕ) where
  current_lem :
      (issued expires : ℕ)
      → r.authorization_issued_at_unix_millis ≡ some issued
      → r.authorization_expires_at_unix_millis ≡ some expires
      → is_expired r now ≡ false
      → IsCurrent r issued expires now
  current_lem issued expires hi he h = (
    ground (arith, h),
    ground (arith, h),
    expiry_lem r.expires_at_unix_millis now (ground (arith, h)),
  )

  scope_lem :
      not (bytes_eq r.scope (codes "all") || bytes_eq r.scope brake_scope) ≡ false
      → (r.scope ≡ codes "all") ⊎ (r.scope ≡ brake_scope)
  scope_lem h = ground (arith, bytes_eq_iff r.scope (codes "all"), bytes_eq_iff r.scope brake_scope)

  identity_lem :
      (not (bytes_eq r.brake_id brake_id_text) || not (bytes_eq r.authority brake_authority))
        ≡ false
      → (r.brake_id ≡ brake_id_text) × (r.authority ≡ brake_authority)
  identity_lem h = (
    ground (arith, bytes_eq_iff r.brake_id brake_id_text),
    ground (arith, bytes_eq_iff r.authority brake_authority),
  )

  classify_lem :
      classify_record r runtime_id release_id deployment_id now ≡ ok tt
      → (issued : ℕ) × (expires : ℕ) × IsFor r runtime_id release_id deployment_id
        × IsBounded r issued expires
        × IsCurrent r issued expires now
  unfolding classify_record
  classify_lem h =
      let (_, v, h1) = >>=-eq-ok _ (map_err (validate r) IdunnDeploymentBrakeDenial.corrupt) h in
      let valid = map_err_lem (validate r) _ v in
      let (named, h2) = bail_if-eq-ok _ foreign _ h1 in
      let (runtime, h3) = bail_if-eq-ok _ wrong_runtime _ h2 in
      let (scope, h4) = bail_if-eq-ok _ wrong_scope _ h3 in
      let (free, h5) = bail_if-eq-ok _ engaged _ h4 in
      let (current, h6) = bail_if-eq-ok _ expired _ h5 in
      let (release, h7) = bail_if-eq-ok _ release_mismatch _ h6 in
      let deployment = bail_if-false _ deployment_mismatch h7 in
      let (released, grant) = validate_lem r free valid in
      let (issued, expires, bounded) = validate_released_lem r grant in
      let (hi, he, _, _, _) = bounded in
      let (brake, authority) = identity_lem named in
      (
        issued,
        expires,
        (
          brake,
          authority,
          not_eq_false _ _ runtime,
          scope_lem scope,
          released,
          is_text_lem _ _ release,
          is_text_lem _ _ deployment,
        ),
        bounded,
        current_lem issued expires hi he current,
      )

ok_or_lem :
    (e : BrakeError) (value : Option (List ℕ)) {text : List ℕ}
    → ok_or value e ≡ ok text
    → value ≡ some text
ok_or_lem e none h = cc
ok_or_lem e (some given) h = cc

-- The signature of the record is one that the operator's key made for a deployment release, over the record
-- without its signature.
abbrev pub IsSigned :
    Crypto → Serializer → IdunnDeploymentBrakeRecord → ServiceIdentityTrustAnchor → Type 0
IsSigned crypto to_vec r anchor =
    (payload : List ℕ) × (signature : List ℕ) × (to_vec (unsigned r) ≡ some payload)
    × (r.signature ≡ some signature)
    × (r.authorized_by ≡ some anchor.identity_id)
    × (derive_service_identity_id crypto idunn_deployment_brake_operator anchor.public_key
        ≡ ok anchor.identity_id)
    × (crypto.verify anchor.public_key
          (signing_message idunn_deployment_brake_operator idunn_deployment_brake_release payload)
          signature
        ≡ true)

as_brake_lem :
    (checked : Outcome IdentityError (Unit {0})) → as_brake checked ≡ ok tt → checked ≡ ok tt
as_brake_lem panic h = cc
as_brake_lem (err e) h = cc
as_brake_lem (ok u) h = refl

module _ (crypto : Crypto) (to_vec : Serializer) where
  signed_lem :
      (r : IdunnDeploymentBrakeRecord) (anchor : ServiceIdentityTrustAnchor)
      → verify_idunn_deployment_brake_authorization crypto to_vec r anchor ≡ ok tt
      → IsSigned crypto to_vec r anchor
  unfolding verify_idunn_deployment_brake_authorization
  signed_lem r anchor h =
      let (_, _, h1) = >>=-eq-ok _ (validate r) h in
      let (_, h2) = bail_if-eq-ok _ not_released _ h1 in
      let (identity_id, by, h3) = >>=-eq-ok _ (ok_or r.authorized_by absent_authorizer) h2 in
      let (signature, proof, h4) = >>=-eq-ok _ (ok_or r.signature absent_signature) h3 in
      let (payload, written, h5) = >>=-eq-ok _ (ok_or (to_vec (unsigned r)) serialization) h4 in
      let (named, derived, genuine) =
        verified_lem crypto idunn_deployment_brake_operator idunn_deployment_brake_release anchor
          payload (record { identity_id = identity_id; signature = signature })
          (as_brake_lem _ h5) in
      (
        payload,
        signature,
        ok_or_lem _ _ written,
        ok_or_lem _ _ proof,
        rw (← named) (ok_or_lem _ _ by),
        derived,
        genuine,
      )

  -- The brake permits a deployment only where it is present, released and in force for the runtime, the release and the
  -- deployment, at a time inside a grant of fifteen minutes or less, and signed by the operator's key for a
  -- deployment release.
  pub evaluate-IsSigned :
      (observation : IdunnDeploymentBrakeObservation) (anchor : ServiceIdentityTrustAnchor)
      (runtime_id release_id deployment_id : List ℕ) (now : ℕ)
      → evaluate_idunn_deployment_brake crypto to_vec observation anchor runtime_id release_id
          deployment_id now
        ≡ ok tt
      → (r : IdunnDeploymentBrakeRecord) × (issued : ℕ) × (expires : ℕ) × (observation ≡ present r)
        × IsFor r runtime_id release_id deployment_id
        × IsBounded r issued expires
        × IsCurrent r issued expires now
        × IsSigned crypto to_vec r anchor
  unfolding evaluate_idunn_deployment_brake classify_idunn_deployment_brake
  evaluate-IsSigned IdunnDeploymentBrakeObservation.missing anchor runtime_id release_id
        deployment_id now h =
      cc
  evaluate-IsSigned IdunnDeploymentBrakeObservation.corrupt anchor runtime_id release_id
        deployment_id now h =
      cc
  evaluate-IsSigned (present r) anchor runtime_id release_id deployment_id now h =
      let (_, classified, h1) =
        >>=-eq-ok _ (classify_record r runtime_id release_id deployment_id now) h in
      let (issued, expires, for_it, bounded, current) =
        classify_lem r runtime_id release_id deployment_id now classified in
      let verified = map_err_lem _ invalid_signature h1 in
      (r, issued, expires, refl, for_it, bounded, current, signed_lem r anchor verified)
