-- ===== src/Security/Tests.antt =====
-- src/security.rs: tokens and secrets with a sum in the place of the hashes, no cipher, and
-- seconds that are printed in strokes.
use cultnet_rs.Base.{
  ℕ, zero, suc, ◌≡◌, refl, sym, ◌==◌, ◌+◌, ◌%◌, arith, List, [], ◌∷◌, ◌++◌, true, false,
  if◌then◌else◌, Option, none, some,
}
use cultnet_rs.Base.Base64.Letters.{engine, engine_laws}
use cultnet_rs.Base.Int.{ℤ, pos, negsuc}
use cultnet_rs.Base.Text.{codes, is_utf8, chars?, chars, trim_is_empty, is_whitespace}
use cultnet_rs.Base.Outcome.{ok, err}
use cultnet_rs.Security.{
  ValidatedCultNetSessionToken, Primitives, Clock, IsClock, DateTime, CultNetClientSecurityOptions,
  CultNetServerSecurityOptions, client_options, server_options, server_encryption_key,
  encrypt_string, decrypt_string, encrypt_bytes, validate_nonce, create_session_token,
  try_validate_session_token, bad_number,
}
use cultnet_rs.Security.Tokens.{try_validate-create, try_validate-create_bar}
use cultnet_rs.Security.Authentic.{IsAuthentic, try_validate-IsAuthentic}
use cultnet_rs.Security.Secrets.{IsCipher, decrypt_string-encrypt_string}

abbrev sum : List ℕ → ℕ
sum [] = 0
sum (b ∷ bytes) = b + sum bytes

abbrev primitives : Primitives
primitives = record {
  sha256 = λ bytes. (sum bytes % 256) ∷ [];
  hmac = λ key bytes. ((sum key + sum bytes) % 256) ∷ [];
  encrypt = λ key nonce input. some input;
  decrypt = λ key nonce input. some input;
}

abbrev strokes : ℕ → List ℕ
strokes zero = []
strokes (suc n) = b'1' ∷ strokes n

abbrev print : ℤ → List ℕ
print (pos n) = b'+' ∷ strokes n
print (negsuc n) = b'-' ∷ strokes n

abbrev next : Option ℕ → Option ℕ
next none = none
next (some n) = some (suc n)

abbrev count : List ℕ → Option ℕ
count [] = some 0
count (c ∷ text) = let rest = count text in if c == b'1' then next rest else none

abbrev signed : Option ℕ → (ℕ → ℤ) → Option ℤ
signed none sign = none
signed (some n) sign = some (sign n)

abbrev parse : List ℕ → Option ℤ
parse [] = none
parse (c ∷ text) =
    if c == b'+'
    then signed (count text) pos
    else if c == b'-'
    then signed (count text) negsuc
    else none

count-strokes : (n : ℕ) → count (strokes n) ≡ some n
count-strokes zero = refl
count-strokes (suc n) = rw (count-strokes n) refl

count_bar : (before after : List ℕ) → count (before ++ (b'|' ∷ after)) ≡ none
count_bar [] after = refl
count_bar (c ∷ before) after = ground (arith, count_bar before after)

parse_print : (n : ℤ) → parse (print n) ≡ some n
parse_print (pos n) = rw (count-strokes n) refl
parse_print (negsuc n) = rw (count-strokes n) refl

parse_bar : (before after : List ℕ) → parse (before ++ (b'|' ∷ after)) ≡ none
parse_bar [] after = refl
parse_bar (c ∷ before) after = ground (arith, count_bar before after)

abbrev clock : Clock
clock = record { is_time = λ n. true; print = print; parse = parse }

clock_laws : IsClock clock
clock_laws = record { parse-print = parse_print; parse-bar = parse_bar }

abbrev client : CultNetClientSecurityOptions
client = record { connection_key = codes "k"; encryption_key = 107 ∷ [] }

abbrev server : CultNetServerSecurityOptions
server = record {
  client = client;
  session_signing_secret = codes "s";
  session_signing_key = 115 ∷ [];
  is_development = false;
}

server_made : server_options primitives (codes "k") (codes "s") false ≡ ok server
unfolding server_options client_options trim_is_empty chars chars? is_whitespace
server_made = refl

client_made : client_options primitives (codes "k") ≡ ok client
unfolding client_options trim_is_empty chars chars? is_whitespace
client_made = refl

abbrev nonce : List ℕ
nonce = codes "123456789012"

encrypted :
    encrypt_string primitives (server_encryption_key server) (some (codes "hi")) nonce
    ≡ ok (some (codes "hi"))
unfolding encrypt_string encrypt_bytes validate_nonce
encrypted = refl

hi_is_text : is_utf8 (codes "hi") ≡ true
unfolding is_utf8 chars?
hi_is_text = refl

no-IsCipher : IsCipher primitives
no-IsCipher _ _ input output e = sym e

decrypt_string-encrypt_string_example :
    decrypt_string primitives (107 ∷ []) (some (codes "hi")) (some nonce) ≡ ok (some (codes "hi"))
decrypt_string-encrypt_string_example =
    decrypt_string-encrypt_string primitives no-IsCipher (codes "k") (codes "s") false server client
      (codes "hi") nonce (codes "hi") server_made client_made hi_is_text refl encrypted

abbrev expiry : DateTime
expiry = record { seconds = pos 3; nanos = 5 }

abbrev now : DateTime
now = record { seconds = pos 2; nanos = 9 }

alice_is_text : is_utf8 (codes "al|+111") ≡ true
unfolding is_utf8 chars?
alice_is_text = refl

bar_is_text : is_utf8 (codes "a|l|+111") ≡ true
unfolding is_utf8 chars?
bar_is_text = refl

try_validate-create_example :
    try_validate_session_token primitives engine clock server now
      (some (create_session_token primitives engine clock server (codes "al") expiry))
    ≡ ok (
        some
          (record { user_id = codes "al"; expires_at_utc = record { seconds = pos 3; nanos = 0 } }))
try_validate-create_example =
    try_validate-create primitives engine engine_laws clock clock_laws server (codes "al") expiry
      now (omega arith) alice_is_text (omega arith) refl refl

try_validate-create_bar_example :
    try_validate_session_token primitives engine clock server now
      (some (create_session_token primitives engine clock server (codes "a|l") expiry))
    ≡ err bad_number
try_validate-create_bar_example =
    try_validate-create_bar primitives engine engine_laws clock clock_laws server (codes "a")
      (codes "l") expiry now (omega arith) bar_is_text (omega arith)

abbrev alice : ValidatedCultNetSessionToken
alice = record { user_id = codes "al"; expires_at_utc = record { seconds = pos 3; nanos = 0 } }

try_validate-IsAuthentic_example :
    IsAuthentic primitives engine clock server now
      (create_session_token primitives engine clock server (codes "al") expiry)
      alice
try_validate-IsAuthentic_example =
    try_validate-IsAuthentic primitives engine clock server now
      (create_session_token primitives engine clock server (codes "al") expiry) alice
      try_validate-create_example
