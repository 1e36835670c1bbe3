-- ===== src/Brake/Valid.antt =====
-- src/idunn_deployment_brake.rs: what a released brake shows that is valid.
use cultnet_rs.Base.{
  ℕ, ◌≡◌, ◌≤◌, ◌<◌, ◌+◌, ap, ◌∙◌, arith, false, Option, none, some, if◌then◌else◌,
}
use cultnet_rs.Base.Text.{codes}
use cultnet_rs.Base.Order.{bytes_eq_iff}
use cultnet_rs.Base.Outcome.{ok, bail_if, >>=-eq-ok, bail_if-eq-ok, bail_if-false}
use cultnet_rs.Brake.{
  IdunnDeploymentBrakeRecord, validate, validate_released, identifier, identifier_of, unwrap,
  bad_grant, bad_shape_of, has_authorization, smuggled_authorization, is_engaged,
  release_max_lifetime_millis, unsupported_schema, bad_shape, incomplete_authorization,
  bad_authorization,
}

-- The time bounds of a released brake, as its validation leaves them.
abbrev pub IsBounded : IdunnDeploymentBrakeRecord → (issued expires : ℕ) → Type 0
IsBounded r issued expires =
    (r.authorization_issued_at_unix_millis ≡ some issued)
    × (r.authorization_expires_at_unix_millis ≡ some expires)
    × (r.observed_at_unix_millis ≤ issued)
    × (issued < expires)
    × (expires ≤ issued + release_max_lifetime_millis)

unwrap_lem : {A : Type 0} (value : Option A) {a : A} → unwrap value ≡ ok a → value ≡ some a
unwrap_lem none e = cc
unwrap_lem (some b) e = cc

bounds_lem :
    (r : IdunnDeploymentBrakeRecord) (issued expires : ℕ)
    → bad_grant r issued expires ≡ ok false
    → (r.observed_at_unix_millis ≤ issued)
      × (issued < expires)
      × (expires ≤ issued + release_max_lifetime_millis)
bounds_lem r issued expires h = (ground arith, ground arith, ground arith)

pub validate_released_lem :
    (r : IdunnDeploymentBrakeRecord)
    → validate_released r ≡ ok tt
    → (issued : ℕ) × (expires : ℕ) × IsBounded r issued expires
unfolding validate_released
validate_released_lem r h =
    let (_, h1) = bail_if-eq-ok _ incomplete_authorization _ h in
    let (_, _, h2) = >>=-eq-ok _ (identifier_of r.authorization_id) h1 in
    let (_, _, h3) = >>=-eq-ok _ (identifier_of r.authorized_release_id) h2 in
    let (_, _, h4) = >>=-eq-ok _ (identifier_of r.authorized_deployment_id) h3 in
    let (_, _, h5) = >>=-eq-ok _ (identifier_of r.authorized_by) h4 in
    let (issued, hi, h6) = >>=-eq-ok _ (unwrap r.authorization_issued_at_unix_millis) h5 in
    let (expires, he, h7) = >>=-eq-ok _ (unwrap r.authorization_expires_at_unix_millis) h6 in
    let (bad, hb, h8) = >>=-eq-ok _ (bad_grant r issued expires) h7 in
    let sound : bad_grant r issued expires ≡ ok false =
      hb ∙ ap ok (bail_if-false _ bad_authorization h8) in
    let (early, ordered, short) = bounds_lem r issued expires sound in
    (issued, expires, (unwrap_lem _ hi, unwrap_lem _ he, early, ordered, short))

pub validate_lem :
    (r : IdunnDeploymentBrakeRecord)
    → is_engaged r ≡ false
    → validate r ≡ ok tt
    → (r.status ≡ codes "released") × (validate_released r ≡ ok tt)
unfolding validate
validate_lem r free h =
    let (_, h1) = bail_if-eq-ok _ unsupported_schema _ h in
    let (_, _, h2) = >>=-eq-ok _ (identifier r.brake_id) h1 in
    let (_, _, h3) = >>=-eq-ok _ (identifier r.authority) h2 in
    let (_, _, h4) = >>=-eq-ok _ (identifier r.runtime_id) h3 in
    let (_, _, h5) = >>=-eq-ok _ (identifier r.reason) h4 in
    let (_, _, h6) = >>=-eq-ok _ (identifier r.scope) h5 in
    let (_, _, h7) = >>=-eq-ok _ (identifier r.updated_by) h6 in
    let rest =
      if is_engaged r
      then bail_if (has_authorization r) smuggled_authorization
      else validate_released r in
    let (shape, h8) = bail_if-eq-ok (bad_shape_of r) bad_shape rest h7 in
    (ground (arith, free, shape, bytes_eq_iff r.status (codes "released")), rw free at h8)
