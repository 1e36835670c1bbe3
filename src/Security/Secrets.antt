-- ===== src/Security/Secrets.antt =====
-- src/security.rs: what a server encrypts, a client with the same connection key decrypts.
use cultnet_rs.Base.{
  ℕ, ◌≡◌, refl, ap, ◌∙◌, sym, ◌==◌, not, arith, List, is_empty, Bool, true, false, Option, none,
  some, length,
}
use cultnet_rs.Base.Text.{is_utf8, trim_is_empty}
use cultnet_rs.Base.Outcome.{ok, ◌>>◌, bail_if, >>=-eq-ok, bail_if-eq-ok, ok-injective}
use cultnet_rs.Security.{
  Primitives, CultNetClientSecurityOptions, CultNetServerSecurityOptions, SecurityError,
  client_options, server_options, server_encryption_key, encrypt_string, decrypt_string,
  encrypt_bytes, decrypt_bytes, validate_nonce, ok_or, no_connection_key, no_signing_secret,
  bad_nonce, cipher_failed, nonce_length,
}

-- What a cipher documents: under the same key and nonce it decrypts what it encrypts.
abbrev pub IsCipher : Primitives → Type 0
IsCipher primitives =
    (key nonce input encrypted : List ℕ)
    → primitives.encrypt key nonce input ≡ some encrypted
    → primitives.decrypt key nonce encrypted ≡ some input

ok_or-eq-ok :
    {A : Type 0} (e : SecurityError) (o : Option A) {a : A} → ok_or o e ≡ ok a → o ≡ some a
ok_or-eq-ok e none h = cc
ok_or-eq-ok e (some b) h = cc

module _ (primitives : Primitives) where
  client_key :
      (connection_key : List ℕ) (client : CultNetClientSecurityOptions)
      → client_options primitives connection_key ≡ ok client
      → primitives.sha256 connection_key ≡ client.encryption_key
  unfolding client_options
  client_key connection_key client h =
      let (_, h1) = bail_if-eq-ok (trim_is_empty connection_key) no_connection_key _ h in
      ap (λ (c : CultNetClientSecurityOptions). c.encryption_key) (ok-injective h1)

  server_key :
      (connection_key secret : List ℕ) (is_development : Bool)
      (server : CultNetServerSecurityOptions)
      → server_options primitives connection_key secret is_development ≡ ok server
      → primitives.sha256 connection_key ≡ server_encryption_key server
  unfolding server_options
  server_key connection_key secret is_development server h =
      let (_, h1) = bail_if-eq-ok (trim_is_empty secret) no_signing_secret _ h in
      let (client, made, h2) = >>=-eq-ok _ (client_options primitives connection_key) h1 in
      client_key connection_key client made
      ∙ ap (λ (s : CultNetServerSecurityOptions). s.client.encryption_key) (ok-injective h2)

  bytes_lem :
      (cipher : IsCipher primitives) (key input nonce encrypted : List ℕ)
      → encrypt_bytes primitives key input nonce ≡ ok encrypted
      → decrypt_bytes primitives key encrypted nonce ≡ ok input
  unfolding encrypt_bytes decrypt_bytes validate_nonce
  bytes_lem cipher key input nonce encrypted h =
      let (sized, h1) = bail_if-eq-ok (not (length nonce == nonce_length)) bad_nonce _ (step h) in
      let made = ok_or-eq-ok cipher_failed (primitives.encrypt key nonce input) h1 in
      rw (sized, cipher key nonce input encrypted made) refl
    where
      step :
          encrypt_bytes primitives key input nonce ≡ ok encrypted
          → (bail_if (not (length nonce == nonce_length)) bad_nonce
              >> ok_or (primitives.encrypt key nonce input) cipher_failed)
            ≡ ok encrypted
      step e = ground (arith, e)

  -- What a server encrypts with the key of its options, a client that was made with the same connection key decrypts
  -- under the same nonce: a text that is not empty comes back whole.
  pub decrypt_string-encrypt_string :
      (cipher : IsCipher primitives) (connection_key secret : List ℕ) (is_development : Bool)
      (server : CultNetServerSecurityOptions) (client : CultNetClientSecurityOptions)
      (input nonce encrypted : List ℕ)
      → server_options primitives connection_key secret is_development ≡ ok server
      → client_options primitives connection_key ≡ ok client
      → is_utf8 input ≡ true
      → is_empty input ≡ false
      → encrypt_string primitives (server_encryption_key server) (some input) nonce
        ≡ ok (some encrypted)
      → decrypt_string primitives client.encryption_key (some encrypted) (some nonce)
        ≡ ok (some input)
  unfolding encrypt_string decrypt_string
  decrypt_string-encrypt_string cipher connection_key secret is_development server client input
        nonce encrypted served made text full h =
      let same : server_encryption_key server ≡ client.encryption_key =
        sym (server_key connection_key secret is_development server served)
        ∙ client_key connection_key client made in
      let (bytes, done, h1) =
        >>=-eq-ok _ (encrypt_bytes primitives (server_encryption_key server) input nonce)
          (rw full at h) in
      let given : ◌≡◌ {A = Option (List ℕ)} (some bytes) (some encrypted) = ok-injective h1 in
      let whole : bytes ≡ encrypted = cc in
      let back = bytes_lem cipher (server_encryption_key server) input nonce bytes done in
      let shared = rw (same, whole) at back in rw (shared, text) refl
