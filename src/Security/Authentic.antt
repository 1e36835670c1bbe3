-- ===== src/Security/Authentic.antt =====
-- src/security.rs: a session token that is accepted carries the server's signature.
use cultnet_rs.Base.{
  ℕ, zero, suc, ◌≡◌, ◌≤◌, ◌/◌, ◌%◌, refl, sym, ap, ◌∙◌, arith, List, [], ◌∷◌, ◌++◌, true, not, ◌==◌,
  ==_iff, Option, none, some, length, inl, inr, Bool-cases, Option-cases,
}
use Prim.Native.Nat.{bit_xor, bit_or, digits, differ, max, bit_xor-bitwise, bit_or-bitwise}
use cultnet_rs.Base.Base64.{Base64}
use cultnet_rs.Base.Int.{ℤ}
use cultnet_rs.Base.Outcome.{ok, >>=-eq-ok, bail_if-eq-ok, ok-injective}
use cultnet_rs.Base.Text.{is_utf8, trim_is_empty}
use cultnet_rs.Security.{
  SecurityError, Primitives, Clock, DateTime, CultNetServerSecurityOptions,
  ValidatedCultNetSessionToken, try_validate_session_token, read_parts, read_payload, accept,
  timestamp_opt, split_once, constant_time_eq, differences, is_after, ok_or, not_utf8, bad_base64,
  bad_number,
}

digits-or : (n a b : ℕ) → a ≤ n → digits (λ d. d) max n a b ≡ 0 → (a ≡ 0) × (b ≡ 0)
digits-or zero a b small e = (omega arith, e)
digits-or (suc n) zero b small e = (refl, e)
digits-or (suc n) (suc a) b small e =
    let (halved, _) = digits-or n (suc a / 2) (b / 2) (omega arith) (omega arith) in
    absurd (omega arith)

differ_zero : (x y : ℕ) → differ x y ≡ 0 → x ≡ y
differ_zero zero y e = sym e
differ_zero (suc x) zero e = e
differ_zero (suc x) (suc y) e = ap suc (differ_zero x y e)

digits-xor : (n a b : ℕ) → a ≤ n → digits (λ d. d) differ n a b ≡ 0 → a ≡ b
digits-xor zero a b small e = omega arith
digits-xor (suc n) zero b small e = sym e
digits-xor (suc n) (suc a) b small e =
    let halved = digits-xor n (suc a / 2) (b / 2) (omega arith) (omega arith) in
    let same = differ_zero (suc a % 2) (b % 2) (omega arith) in omega arith

bit_or-zero : (a b : ℕ) → bit_or a b ≡ 0 → (a ≡ 0) × (b ≡ 0)
bit_or-zero a b e = digits-or a a b (omega arith) (sym (bit_or-bitwise a b) ∙ e)

bit_xor-zero : (a b : ℕ) → bit_xor a b ≡ 0 → a ≡ b
bit_xor-zero a b e = digits-xor a a b (omega arith) (sym (bit_xor-bitwise a b) ∙ e)

differences-zero :
    (acc : ℕ) (left right : List ℕ)
    → length left ≡ length right
    → differences acc left right ≡ 0
    → (acc ≡ 0) × (left ≡ right)
unfolding differences
differences-zero acc [] [] long e = (e, refl)
differences-zero acc [] (y ∷ right) long e = absurd (omega arith)
differences-zero acc (x ∷ left) [] long e = absurd (omega arith)
differences-zero acc (x ∷ left) (y ∷ right) long e =
    let (joined, rest) = differences-zero (bit_or acc (bit_xor x y)) left right (omega arith) e in
    let (before, now) = bit_or-zero acc (bit_xor x y) joined in
    (before, rw (bit_xor-zero x y now, rest) refl)

-- Signatures that are found equal are equal.
constant_time_eq_sound : (left right : List ℕ) → constant_time_eq left right ≡ true → left ≡ right
unfolding constant_time_eq
constant_time_eq_sound left right e =
    let long : length left ≡ length right = ground (arith, ==_iff (length left) (length right)) in
    let none_differs : differences 0 left right ≡ 0 =
      ground (arith, ==_iff (differences 0 left right) 0) in
    (differences-zero 0 left right long none_differs).1

split_once-some :
    (c : ℕ) (text : List ℕ) {before after : List ℕ}
    → split_once c text ≡ some (before, after)
    → text ≡ before ++ (c ∷ after)
unfolding split_once
split_once-some c [] e = cc
split_once-some c (x ∷ text) {before} {after} e = elim (Bool-cases (x == c)) [
  | inl here ↦
      let found : ◌≡◌ {A = Option (List ℕ × List ℕ)} (some ([], text)) (some (before, after)) =
        rw here at e in
      let first : x ≡ c = (==_iff x c).0 here in
      let b : [] ≡ before = cc in let a : text ≡ after = cc in rw (first, ← b, a) refl
  | inr there ↦ elim (Option-cases (split_once c text)) [
    | inl nowhere ↦ (let e' = rw (there, nowhere) at e in cc)
    | inr ((b, a), rest) ↦
        let found : ◌≡◌ {A = Option (List ℕ × List ℕ)} (some (x ∷ b, a)) (some (before, after)) =
          rw (there, rest) at e in
        let same : x ∷ b ≡ before = cc in
        let behind : a ≡ after = cc in
        rw (← same, ← behind) (ap (◌∷◌ x) (split_once-some c text rest))
  ]
]

some-injective : {A : Type 0} {a b : A} → ◌≡◌ {A = Option A} (some a) (some b) → a ≡ b
some-injective e = cc

ok_or_lem :
    {A : Type 0} (value : Option A) (e : SecurityError) {a : A}
    → ok_or value e ≡ ok a
    → value ≡ some a
ok_or_lem none e h = cc
ok_or_lem (some b) e h = cc

module _ (primitives : Primitives) (engine : Base64) (clock : Clock)
    (options : CultNetServerSecurityOptions) (now : DateTime) where
  -- The payload names the user and the expiry, in a number of seconds that is a time after `now`.
  pub record Says (payload : List ℕ) (validated : ValidatedCultNetSessionToken) : Type 0 where
    pub number : List ℕ
    pub seconds : ℤ
    pub written : payload ≡ validated.user_id ++ (b'|' ∷ number)
    pub counted : clock.parse number ≡ some seconds
    pub expiry : validated.expires_at_utc ≡ record { seconds = seconds; nanos = 0 }
    pub lives : is_after validated.expires_at_utc now ≡ true

  -- The token is a payload and the server's keyed hash of it, and the payload says what was validated.
  pub record IsAuthentic (token : List ℕ) (validated : ValidatedCultNetSessionToken) : Type 0 where
    pub payload_part : List ℕ
    pub signature_part : List ℕ
    pub payload : List ℕ
    pub joined : token ≡ payload_part ++ (b'.' ∷ signature_part)
    pub decoded : engine.decode payload_part ≡ some payload
    pub signed :
        engine.decode signature_part ≡ some (primitives.hmac options.session_signing_key payload)
    pub says : Says payload validated

  accept-Says :
      (user_id number : List ℕ) (seconds : ℤ) (validated : ValidatedCultNetSessionToken)
      → clock.parse number ≡ some seconds
      → accept primitives engine clock options now user_id (timestamp_opt clock seconds)
        ≡ ok (some validated)
      → Says (user_id ++ (b'|' ∷ number)) validated
  accept-Says user_id number seconds validated counted e =
      elim (Bool-cases (clock.is_time seconds)) [
        | inr no_time ↦ (let e' = rw no_time at e in cc)
        | inl time ↦
            let at : DateTime = record { seconds = seconds; nanos = 0 } in
            elim (Bool-cases (is_after at now)) [
              | inr late ↦ (let e' = rw (time, late) at e in cc)
              | inl lives ↦
                  let same : ◌≡◌ {A = ValidatedCultNetSessionToken}
                      (record { user_id = user_id; expires_at_utc = at }) validated =
                    some-injective (ok-injective (rw (time, lives) at e)) in
                  rw (← same) (record {
                    number = number;
                    seconds = seconds;
                    written = refl;
                    counted = counted;
                    expiry = refl;
                    lives = lives;
                  })
            ]
      ]

  read_payload-Says :
      (payload : List ℕ) (validated : ValidatedCultNetSessionToken)
      → read_payload primitives engine clock options now payload ≡ ok (some validated)
      → Says payload validated
  unfolding read_payload
  read_payload-Says payload validated e =
      let (text, e1) = bail_if-eq-ok (not (is_utf8 payload)) not_utf8 _ e in
      elim (Option-cases (split_once b'|' payload)) [
        | inl nowhere ↦ (let e2 = rw nowhere at e1 in cc)
        | inr ((user_id, number), there) ↦
            let (seconds, counted, e2) =
              >>=-eq-ok _ (ok_or (clock.parse number) bad_number) (rw there at e1) in
            rw (split_once-some b'|' payload there)
              (accept-Says user_id number seconds validated (ok_or_lem _ bad_number counted) e2)
      ]

  -- A token that a server accepts is authentic: it is two texts with a dot between them, which decode to a payload
  -- and to the server's keyed hash of that payload; and the payload is the user id that is given back, a bar and a
  -- number of seconds, which is the expiry that is given back and lies after the time of the check.
  pub try_validate-IsAuthentic :
      (token : List ℕ) (validated : ValidatedCultNetSessionToken)
      → try_validate_session_token primitives engine clock options now (some token)
        ≡ ok (some validated)
      → IsAuthentic token validated
  unfolding try_validate_session_token read_parts
  try_validate-IsAuthentic token validated e = elim (Bool-cases (trim_is_empty token)) [
    | inl blank ↦ (let e' = rw blank at e in cc)
    | inr text ↦ elim (Option-cases (split_once b'.' token)) [
      | inl nowhere ↦ (let e' = rw (text, nowhere) at e in cc)
      | inr ((payload_part, signature_part), there) ↦
          let (payload, decoded, e1) =
            >>=-eq-ok _ (ok_or (engine.decode payload_part) bad_base64) (rw (text, there) at e) in
          let (signature, sent, e2) =
            >>=-eq-ok _ (ok_or (engine.decode signature_part) bad_base64) e1 in
          let expected = primitives.hmac options.session_signing_key payload in
          elim (Bool-cases (constant_time_eq signature expected)) [
            | inr forged ↦ (let e3 = rw forged at e2 in cc)
            | inl equal ↦ record {
              payload_part = payload_part;
              signature_part = signature_part;
              payload = payload;
              joined = split_once-some b'.' token there;
              decoded = ok_or_lem _ bad_base64 decoded;
              signed =
                  ok_or_lem _ bad_base64 sent
                  ∙ ap some (constant_time_eq_sound signature expected equal);
              says = read_payload-Says payload validated (rw equal at e2);
            }
          ]
    ]
  ]
