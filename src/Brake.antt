-- ===== src/Brake.antt =====
-- src/idunn_deployment_brake.rs: the brake record and its validation. The children are its
-- evaluation, and when that permits a deployment.
pub mod Evaluate
pub mod Valid
pub mod Permits
pub mod Decides
mod Tests
use cultnet_rs.Base.{
  ℕ, ◌-◌, ◌*◌, ◌==◌, ltb, leb, not, ◌||◌, List, [], ◌∷◌, Bool, true, false, Option, none, some,
  if◌then◌else◌, length,
}
use cultnet_rs.Base.Text.{codes, trim_is_empty, any_control}
use cultnet_rs.Base.Order.{bytes_eq}
use cultnet_rs.Base.Outcome.{Outcome, ok, err, panic, ◌>>=◌, ◌>>◌, bail_if}

abbrev pub brake_schema : List ℕ
brake_schema = codes "idunn.deployment_brake.v1"

abbrev pub brake_id_text : List ℕ
brake_id_text = codes "idunn/deployment-brake"

abbrev pub brake_authority : List ℕ
brake_authority = codes "idunn.deployment-brake"

abbrev pub brake_scope : List ℕ
brake_scope = codes "deployment"

abbrev pub release_purpose : List ℕ
release_purpose = codes "idunn.deployment-release.v1"

abbrev pub release_max_lifetime_millis : ℕ
release_max_lifetime_millis = 15 * 60 * 1000

pub record IdunnDeploymentBrakeRecord : Type 0 where
  pub schema_version : List ℕ
  pub brake_id : List ℕ
  pub authority : List ℕ
  pub runtime_id : List ℕ
  pub status : List ℕ
  pub scope : List ℕ
  pub reason : List ℕ
  pub observed_at_unix_millis : ℕ
  pub expires_at_unix_millis : Option ℕ
  pub authorization_id : Option (List ℕ)
  pub authorization_purpose : Option (List ℕ)
  pub authorized_release_id : Option (List ℕ)
  pub authorized_deployment_id : Option (List ℕ)
  pub authorized_by : Option (List ℕ)
  pub authorization_issued_at_unix_millis : Option ℕ
  pub authorization_expires_at_unix_millis : Option ℕ
  pub signature_algorithm : Option (List ℕ)
  pub signature : Option (List ℕ)
  pub private_state_exposed : Bool
  pub updated_by : List ℕ

pub data BrakeError : Type 0 where
  unsupported_schema bad_identifier bad_shape smuggled_authorization : BrakeError
  incomplete_authorization bad_authorization not_released absent_authorizer : BrakeError
  absent_signature serialization bad_signature : BrakeError

abbrev pub Checked : Type 0 → Type 0
Checked A = Outcome BrakeError A

unfoldable pub identifier : List ℕ → Checked (Unit {0})
identifier value =
    bail_if (trim_is_empty value || ltb 256 (length value) || any_control value) bad_identifier

abbrev pub is_some {ℓ} : {A : Type ℓ} → Option A → Bool
is_some none = false
is_some (some a) = true

abbrev pub is_some_and {ℓ} : {A : Type ℓ} → Option A → (A → Bool) → Bool
is_some_and none p = false
is_some_and (some a) p = p a

abbrev pub is_none_or {ℓ} : {A : Type ℓ} → Option A → (A → Bool) → Bool
is_none_or none p = true
is_none_or (some a) p = p a

-- `value.as_deref() != Some(text)` is the negation.
abbrev pub is_text : Option (List ℕ) → List ℕ → Bool
is_text value text = is_some_and value (λ given. bytes_eq given text)

abbrev pub unwrap : {A : Type 0} → Option A → Checked A
unwrap none = panic
unwrap (some a) = ok a

abbrev pub is_engaged : IdunnDeploymentBrakeRecord → Bool
is_engaged r = bytes_eq r.status (codes "engaged")

abbrev pub bad_shape_of : IdunnDeploymentBrakeRecord → Bool
bad_shape_of r =
    not (is_engaged r || bytes_eq r.status (codes "released"))
    || (r.observed_at_unix_millis == 0)
    || is_some_and r.expires_at_unix_millis (λ v. leb v r.observed_at_unix_millis)
    || r.private_state_exposed

abbrev pub has_authorization : IdunnDeploymentBrakeRecord → Bool
has_authorization r =
    is_some r.authorization_id
    || is_some r.authorization_purpose
    || is_some r.authorized_release_id
    || is_some r.authorized_deployment_id
    || is_some r.authorized_by
    || is_some r.signature_algorithm
    || is_some r.authorization_issued_at_unix_millis
    || is_some r.authorization_expires_at_unix_millis
    || is_some r.signature

abbrev pub lacks_authorization : IdunnDeploymentBrakeRecord → Bool
lacks_authorization r =
    not (is_some r.authorization_id)
    || not (is_some r.authorization_purpose)
    || not (is_some r.authorized_release_id)
    || not (is_some r.authorized_deployment_id)
    || not (is_some r.authorized_by)
    || not (is_some r.signature_algorithm)
    || not (is_some r.authorization_issued_at_unix_millis)
    || not (is_some r.authorization_expires_at_unix_millis)
    || not (is_some r.signature)

-- A subtraction of `u64`, which panics below 0 where overflow is checked.
abbrev pub checked_sub : ℕ → ℕ → Checked ℕ
checked_sub a b = if ltb a b then panic else ok (a - b)

-- `first || second`, where the second is not evaluated behind a first that holds.
abbrev pub or_else : Bool → Checked Bool → Checked Bool
or_else true second = ok true
or_else false second = second

abbrev pub bad_grant : IdunnDeploymentBrakeRecord → (issued expires : ℕ) → Checked Bool
bad_grant r issued expires =
    or_else
      (not (is_text r.authorization_purpose release_purpose)
        || not (is_text r.signature_algorithm (codes "ed25519"))
        || is_none_or r.signature (λ v. not (length v == 64))
        || ltb issued r.observed_at_unix_millis
        || leb expires issued)
      (checked_sub expires issued >>= λ lifetime. ok (
        ltb release_max_lifetime_millis lifetime
        || is_some_and r.expires_at_unix_millis (λ brake_expiry. ltb brake_expiry expires)))

-- `identifier(value.as_deref().unwrap(), ..)`.
abbrev pub identifier_of : Option (List ℕ) → Checked (Unit {0})
identifier_of value = unwrap value >>= identifier

-- The checks of a released brake.
unfoldable pub validate_released : IdunnDeploymentBrakeRecord → Checked (Unit {0})
validate_released r = do
  bail_if (lacks_authorization r) incomplete_authorization
  identifier_of r.authorization_id
  identifier_of r.authorized_release_id
  identifier_of r.authorized_deployment_id
  identifier_of r.authorized_by
  issued ← unwrap r.authorization_issued_at_unix_millis
  expires ← unwrap r.authorization_expires_at_unix_millis
  bad ← bad_grant r issued expires
  bail_if bad bad_authorization

unfoldable pub validate : IdunnDeploymentBrakeRecord → Checked (Unit {0})
validate r = do
  bail_if (not (bytes_eq r.schema_version brake_schema)) unsupported_schema
  identifier r.brake_id
  identifier r.authority
  identifier r.runtime_id
  identifier r.reason
  identifier r.scope
  identifier r.updated_by
  bail_if (bad_shape_of r) bad_shape
  if is_engaged r then bail_if (has_authorization r) smuggled_authorization else validate_released r
