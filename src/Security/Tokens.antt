-- ===== src/Security/Tokens.antt =====
-- src/security.rs: a session token that is created is valid until it expires.
use cultnet_rs.Base.{
  ℕ, zero, suc, if◌then◌else◌, ◌≡◌, ◌<◌, ◌≢◌, refl, ◌==◌, ==_iff, leb, arith, List, [], ◌∷◌, ◌++◌,
  true, false, some, All, All-append, length,
}
use mathlib.Core.List.{append_assoc}
use Prim.Native.Nat.{bit_xor}
use cultnet_rs.Base.Base64.{Base64, IsBase64, is_url_safe}
use cultnet_rs.Base.Bytes.{IsByte}
use cultnet_rs.Base.Text.{is_utf8, is_whitespace}
use cultnet_rs.Base.Text.Ascii.{IsAscii, trim_is_empty-mark}
use cultnet_rs.Base.Outcome.{ok, err}
use cultnet_rs.Security.{
  Primitives, Clock, IsClock, DateTime, CultNetServerSecurityOptions, create_session_token,
  try_validate_session_token, read_parts, read_payload, token_payload, split_once, constant_time_eq,
  differences, is_after, bad_number,
}

split_once-append :
    (c : ℕ) (before after : List ℕ)
    → All (λ b. (b == c) ≡ false) before
    → split_once c (before ++ (c ∷ after)) ≡ some (before, after)
unfolding split_once
split_once-append c [] after h = rw ((==_iff c c).1 refl) refl
split_once-append c (b ∷ before) after (hb, hs) = rw (hb, split_once-append c before after hs) refl

-- On the values of a byte, `x ^ x` is 0: how many of the first `bound` numbers do not cancel.
survivors : (bound : ℕ) → ℕ
survivors zero = 0
survivors (suc x) = let others = survivors x in if bit_xor x x == 0 then others else suc others

survivors_zero : (x bound : ℕ) → x < bound → survivors bound ≡ 0 → bit_xor x x ≡ 0
unfolding survivors
survivors_zero x zero below none_left = absurd (omega arith)
survivors_zero x (suc y) below none_left =
    ground (arith, survivors_zero x y, ==_iff (bit_xor y y) 0)

bytes_cancel : survivors 256 ≡ 0
unfolding survivors
bytes_cancel = refl

xor_cancels : (x : ℕ) → IsByte x → bit_xor x x ≡ 0
xor_cancels x byte = survivors_zero x 256 byte bytes_cancel

differences_self : (bytes : List ℕ) → All IsByte bytes → differences 0 bytes bytes ≡ 0
unfolding differences
differences_self [] h = refl
differences_self (x ∷ bytes) (hx, hs) = rw (xor_cancels x hx) (differences_self bytes hs)

-- Equal signatures are found equal.
constant_time_eq_self : (bytes : List ℕ) → All IsByte bytes → constant_time_eq bytes bytes ≡ true
unfolding constant_time_eq
constant_time_eq_self bytes h =
    rw ((==_iff (length bytes) (length bytes)).1 refl, differences_self bytes h) refl

dotless :
    (text : List ℕ) → All (λ c. is_url_safe c ≡ true) text → All (λ c. (c == b'.') ≡ false) text
dotless [] h = tt
dotless (c ∷ text) (hc, hs) = (ground (arith, hc), dotless text hs)

ascii : (text : List ℕ) → All (λ c. is_url_safe c ≡ true) text → IsAscii text
ascii [] h = tt
ascii (c ∷ text) (hc, hs) = (ground (arith, hc), ascii text hs)

dot_visible : is_whitespace b'.' ≡ false
unfolding is_whitespace
dot_visible = refl

barless : (user_id : List ℕ) → All (λ c. c ≢ b'|') user_id → All (λ c. (c == b'|') ≡ false) user_id
barless [] h = tt
barless (c ∷ user_id) (hc, hs) = (ground (arith, hc), barless user_id hs)

module _ (primitives : Primitives) (engine : Base64) (laws : IsBase64 engine) (clock : Clock)
    (clock_laws : IsClock clock) (options : CultNetServerSecurityOptions) where
  -- A token is validated as far as its payload.
  token_lem :
      (user_id : List ℕ) (expires_at_utc now : DateTime)
      → All IsByte (
          primitives.hmac options.session_signing_key
            (token_payload primitives engine clock options user_id expires_at_utc))
      → try_validate_session_token primitives engine clock options now
          (some (create_session_token primitives engine clock options user_id expires_at_utc))
        ≡ read_payload primitives engine clock options now
            (token_payload primitives engine clock options user_id expires_at_utc)
  unfolding try_validate_session_token create_session_token read_parts
  token_lem user_id expires_at_utc now signed =
      let payload = token_payload primitives engine clock options user_id expires_at_utc in
      let signature = primitives.hmac options.session_signing_key payload in
      let spelled = laws.alphabet payload in
      let all_ascii =
        All-append (λ c. leb c 0x7f ≡ true) (engine.encode payload) (b'.' ∷ engine.encode signature)
          (ascii _ spelled) (refl, ascii _ (laws.alphabet signature)) in
      rw
        (
          trim_is_empty-mark (engine.encode payload) (engine.encode signature) b'.' dot_visible
              all_ascii,
          split_once-append b'.' (engine.encode payload) (engine.encode signature)
              (dotless _ spelled),
          laws.decode-encode payload,
          laws.decode-encode signature,
          constant_time_eq_self signature signed,
        )
        refl

  -- A token that a server creates for a user id without a bar validates on that server, at a time before its
  -- expiry cut to whole seconds, as that user's with the expiry cut to whole seconds.
  pub try_validate-create :
      (user_id : List ℕ) (expires_at_utc now : DateTime)
      → All (λ c. c ≢ b'|') user_id
      → is_utf8 (token_payload primitives engine clock options user_id expires_at_utc) ≡ true
      → All IsByte (
          primitives.hmac options.session_signing_key
            (token_payload primitives engine clock options user_id expires_at_utc))
      → clock.is_time expires_at_utc.seconds ≡ true
      → is_after (record { seconds = expires_at_utc.seconds; nanos = 0 }) now ≡ true
      → try_validate_session_token primitives engine clock options now
          (some (create_session_token primitives engine clock options user_id expires_at_utc))
        ≡ ok (
            some (record {
              user_id = user_id;
              expires_at_utc = record { seconds = expires_at_utc.seconds; nanos = 0 };
            }))
  unfolding read_payload
  try_validate-create user_id expires_at_utc now bars text signed time later =
      rw
        (
          token_lem user_id expires_at_utc now signed,
          text,
          split_once-append b'|' user_id (clock.print expires_at_utc.seconds)
              (barless user_id bars),
          clock_laws.parse-print expires_at_utc.seconds,
          time,
          later,
        )
        refl

  -- A token that a server creates for a user id with a bar in it never validates there: the answer is an error.
  pub try_validate-create_bar :
      (before after : List ℕ) (expires_at_utc now : DateTime)
      → All (λ c. c ≢ b'|') before
      → is_utf8
          (token_payload primitives engine clock options (before ++ (b'|' ∷ after)) expires_at_utc)
        ≡ true
      → All IsByte (
          primitives.hmac options.session_signing_key (
            token_payload primitives engine clock options
              (before ++ (b'|' ∷ after))
              expires_at_utc))
      → try_validate_session_token primitives engine clock options now (
          some (
            create_session_token primitives engine clock options
              (before ++ (b'|' ∷ after))
              expires_at_utc))
        ≡ err bad_number
  unfolding read_payload
  try_validate-create_bar before after expires_at_utc now bars text signed =
      let number = clock.print expires_at_utc.seconds in
      let split : split_once b'|' ((before ++ (b'|' ∷ after)) ++ (b'|' ∷ number))
          ≡ some (before, after ++ (b'|' ∷ number)) =
        rw (append_assoc before (b'|' ∷ after) (b'|' ∷ number))
          (split_once-append b'|' before (after ++ (b'|' ∷ number)) (barless before bars)) in
      rw
        (
          token_lem (before ++ (b'|' ∷ after)) expires_at_utc now signed,
          text,
          split,
          clock_laws.parse-bar after number,
        )
        refl
