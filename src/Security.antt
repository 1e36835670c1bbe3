-- ===== src/Security.antt =====
-- src/security.rs: the options, the encryption of strings and the session tokens. The packages
-- aes_gcm, sha2, hmac, base64 and chrono are arguments.
pub mod Tokens
pub mod Secrets
pub mod Authentic
mod Tests
use Prim.Native.Nat.{bit_or, bit_xor}
use cultnet_rs.Base.{
  ℕ, ◌≡◌, ◌==◌, not, ◌||◌, ◌&&◌, ltb, List, [], ◌∷◌, ◌++◌, is_empty, length, Bool, true, false,
  if◌then◌else◌, Option, none, some,
}
use cultnet_rs.Base.Base64.{Base64}
use cultnet_rs.Base.Int.{ℤ, pos, negsuc}
use cultnet_rs.Base.Text.{codes, trim_is_empty, is_utf8}
use cultnet_rs.Base.Outcome.{Outcome, ok, err, panic, ◌>>=◌, ◌>>◌, bail_if}

pub data SecurityError : Type 0 where
  no_connection_key no_signing_secret bad_nonce cipher_failed : SecurityError
  bad_base64 not_utf8 bad_number : SecurityError

abbrev pub Secured : Type 0 → Type 0
Secured A = Outcome SecurityError A

-- The hash, the keyed hash and the cipher, which takes the key, the nonce and the bytes.
pub record Primitives : Type 0 where
  pub sha256 : List ℕ → List ℕ
  pub hmac : List ℕ → List ℕ → List ℕ
  pub encrypt : (key nonce input : List ℕ) → Option (List ℕ)
  pub decrypt : (key nonce input : List ℕ) → Option (List ℕ)

abbrev pub nonce_length : ℕ
nonce_length = 12

pub record CultNetClientSecurityOptions : Type 0 where
  pub connection_key : List ℕ
  pub encryption_key : List ℕ

pub record CultNetServerSecurityOptions : Type 0 where
  pub client : CultNetClientSecurityOptions
  pub session_signing_secret : List ℕ
  pub session_signing_key : List ℕ
  pub is_development : Bool

module _ (primitives : Primitives) where
  unfoldable pub client_options : (connection_key : List ℕ) → Secured CultNetClientSecurityOptions
  client_options connection_key = do
    bail_if (trim_is_empty connection_key) no_connection_key
    ok (record {
      connection_key = connection_key;
      encryption_key = primitives.sha256 connection_key;
    })

  unfoldable pub server_options :
      (connection_key session_signing_secret : List ℕ) → Bool → Secured CultNetServerSecurityOptions
  server_options connection_key session_signing_secret is_development = do
    bail_if (trim_is_empty session_signing_secret) no_signing_secret
    client ← client_options connection_key
    ok (record {
      client = client;
      session_signing_secret = session_signing_secret;
      session_signing_key = primitives.sha256 session_signing_secret;
      is_development = is_development;
    })

abbrev pub to_client_options : CultNetServerSecurityOptions → CultNetClientSecurityOptions
to_client_options options = options.client

abbrev pub server_encryption_key : CultNetServerSecurityOptions → List ℕ
server_encryption_key options = options.client.encryption_key

unfoldable pub validate_nonce : List ℕ → Secured (List ℕ)
validate_nonce nonce = do bail_if (not (length nonce == nonce_length)) bad_nonce; ok nonce

abbrev pub ok_or : {A : Type 0} → Option A → SecurityError → Secured A
ok_or none e = err e
ok_or (some a) e = ok a

-- The argument `key` is the encryption key of the options.
module _ (primitives : Primitives) (key : List ℕ) where
  unfoldable pub encrypt_bytes : (input nonce : List ℕ) → Secured (List ℕ)
  encrypt_bytes input nonce = do
    nonce ← validate_nonce nonce
    ok_or (primitives.encrypt key nonce input) cipher_failed

  unfoldable pub decrypt_bytes : (encrypted nonce : List ℕ) → Secured (List ℕ)
  decrypt_bytes encrypted nonce = do
    nonce ← validate_nonce nonce
    ok_or (primitives.decrypt key nonce encrypted) cipher_failed

  unfoldable pub encrypt_string :
      (input : Option (List ℕ)) (nonce : List ℕ) → Secured (Option (List ℕ))
  encrypt_string none nonce = ok none
  encrypt_string (some input) nonce =
      if is_empty input
      then ok none
      else encrypt_bytes input nonce >>= λ encrypted. ok (some encrypted)

  unfoldable pub decrypt_string : (encrypted nonce : Option (List ℕ)) → Secured (Option (List ℕ))
  decrypt_string none _ = ok none
  decrypt_string (some encrypted) none = ok none
  decrypt_string (some encrypted) (some nonce) = do
    bytes ← decrypt_bytes encrypted nonce
    bail_if (not (is_utf8 bytes)) not_utf8
    ok (some bytes)

-- `fold(0, |acc, (left, right)| acc | (left ^ right))` over the pairs of the two.
unfoldable pub differences : (acc : ℕ) (left right : List ℕ) → ℕ
differences acc [] right = acc
differences acc (x ∷ left) [] = acc
differences acc (x ∷ left) (y ∷ right) = differences (bit_or acc (bit_xor x y)) left right

unfoldable pub constant_time_eq : (left right : List ℕ) → Bool
constant_time_eq left right =
    if not (length left == length right) then false else differences 0 left right == 0

-- `split_once`: the text before the first occurrence of a character, and that after it.
unfoldable pub split_once : ℕ → List ℕ → Option (List ℕ × List ℕ)
split_once c [] = none
split_once c (x ∷ text) =
    let rest = split_once c text in
    if x == c
    then some ([], text)
    else elim rest [ none ↦ none | some (before, after) ↦ some (x ∷ before, after) ]

-- `DateTime<Utc>`: seconds since the epoch, and nanoseconds.
pub record DateTime : Type 0 where
  pub seconds : ℤ
  pub nanos : ℕ

-- Of chrono, which seconds are a time, and of the standard library, how an `i64` is printed and read.
pub record Clock : Type 0 where
  pub is_time : ℤ → Bool
  pub print : ℤ → List ℕ
  pub parse : List ℕ → Option ℤ

-- The documented laws: a printed number is read back, and no text with a bar is a number.
pub record IsClock (clock : Clock) : Type 0 where
  pub parse-print : (n : ℤ) → clock.parse (clock.print n) ≡ some n
  pub parse-bar : (before after : List ℕ) → clock.parse (before ++ (b'|' ∷ after)) ≡ none

abbrev pub seconds_lt : ℤ → ℤ → Bool
seconds_lt (pos m) (pos n) = ltb m n
seconds_lt (pos m) (negsuc n) = false
seconds_lt (negsuc m) (pos n) = true
seconds_lt (negsuc m) (negsuc n) = ltb n m

abbrev pub seconds_eq : ℤ → ℤ → Bool
seconds_eq (pos m) (pos n) = m == n
seconds_eq (pos m) (negsuc n) = false
seconds_eq (negsuc m) (pos n) = false
seconds_eq (negsuc m) (negsuc n) = m == n

abbrev pub is_after : DateTime → DateTime → Bool
is_after t u =
    seconds_lt u.seconds t.seconds || (seconds_eq u.seconds t.seconds && ltb u.nanos t.nanos)

-- `Utc.timestamp_opt(seconds, 0).single()`.
abbrev pub timestamp_opt : Clock → ℤ → Option DateTime
timestamp_opt clock seconds =
    if clock.is_time seconds then some (record { seconds = seconds; nanos = 0 }) else none

pub record ValidatedCultNetSessionToken : Type 0 where
  pub user_id : List ℕ
  pub expires_at_utc : DateTime

module _ (primitives : Primitives) (engine : Base64) (clock : Clock)
    (options : CultNetServerSecurityOptions) where
  abbrev pub token_payload : (user_id : List ℕ) → DateTime → List ℕ
  token_payload user_id expires_at_utc = user_id ++ (b'|' ∷ clock.print expires_at_utc.seconds)

  unfoldable pub create_session_token : (user_id : List ℕ) → DateTime → List ℕ
  create_session_token user_id expires_at_utc =
      let payload = token_payload user_id expires_at_utc in
      engine.encode payload
      ++ (b'.' ∷ engine.encode (primitives.hmac options.session_signing_key payload))

  -- The check of the expiry, if the seconds are a time.
  abbrev pub accept :
      (now : DateTime)
      → (user_id : List ℕ) → Option DateTime
      → Secured (Option ValidatedCultNetSessionToken)
  accept now user_id none = ok none
  accept now user_id (some expires_at_utc) =
      if not (is_after expires_at_utc now)
      then ok none
      else ok (some (record { user_id = user_id; expires_at_utc = expires_at_utc }))

  abbrev pub read_fields :
      (now : DateTime) → Option (List ℕ × List ℕ) → Secured (Option ValidatedCultNetSessionToken)
  read_fields now none = ok none
  read_fields now (some (user_id, expires_at)) = do
    expires_at_seconds ← ok_or (clock.parse expires_at) bad_number
    accept now user_id (timestamp_opt clock expires_at_seconds)

  -- What follows the check of the signature.
  unfoldable pub read_payload :
      (now : DateTime) → List ℕ → Secured (Option ValidatedCultNetSessionToken)
  read_payload now payload = do
    bail_if (not (is_utf8 payload)) not_utf8
    read_fields now (split_once b'|' payload)

  -- What follows the split of the token.
  unfoldable pub read_parts :
      (now : DateTime)
      → (payload_part signature_part : List ℕ) → Secured (Option ValidatedCultNetSessionToken)
  read_parts now payload_part signature_part = do
    payload ← ok_or (engine.decode payload_part) bad_base64
    signature ← ok_or (engine.decode signature_part) bad_base64
    if not (constant_time_eq signature (primitives.hmac options.session_signing_key payload))
        then ok none
        else read_payload now payload

  unfoldable pub try_validate_session_token :
      (now : DateTime) → Option (List ℕ) → Secured (Option ValidatedCultNetSessionToken)
  try_validate_session_token now none = ok none
  try_validate_session_token now (some token) =
      if trim_is_empty token then ok none else elim (split_once b'.' token) [
        | none ↦ ok none
        | some (payload_part, signature_part) ↦ read_parts now payload_part signature_part
      ]
