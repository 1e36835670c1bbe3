-- ===== src/Base/Base64/Letters.antt =====
-- A spelling of bytes in two letters, which meets the laws of base64.
use Prim.Native.Nat.{ℕ, zero, suc, ◌+◌}
use mathlib.Core.Path.{◌≡◌, refl, ap, ◌∙◌}
use mathlib.Core.Logic.{inl, inr}
use mathlib.Core.Bool.{true}
use mathlib.Core.Option.{Option, none, some}
use mathlib.Core.List.{List, [], ◌∷◌}
use native.Mathlib.Omega.{arith}
use cultnet_rs.Base.Tests.{◌==◌, if◌then◌else◌, Bool-cases, ==_iff}
use cultnet_rs.Base.Lists.{All}
use cultnet_rs.Base.Base64.{Base64, IsBase64, is_url_safe}

-- A byte is spelled by as many letters A as it counts, and a B.
abbrev letters : ℕ → List ℕ → List ℕ
letters zero text = text
letters (suc n) text = b'A' ∷ letters n text

abbrev encode : List ℕ → List ℕ
encode [] = []
encode (b ∷ bytes) = letters b (b'B' ∷ encode bytes)

abbrev push : ℕ → Option (List ℕ) → Option (List ℕ)
push n none = none
push n (some bytes) = some (n ∷ bytes)

abbrev finish : ℕ → Option (List ℕ)
finish zero = some []
finish (suc n) = none

abbrev decode : ℕ → List ℕ → Option (List ℕ)
decode n [] = finish n
decode n (c ∷ text) =
    let last = push n (decode 0 text) in
    let more = decode (suc n) text in if c == b'A' then more else if c == b'B' then last else none

abbrev pub engine : Base64
engine = record { encode = encode; decode = decode 0 }

letters-alphabet :
    (n : ℕ) (text : List ℕ)
    → All (λ c. is_url_safe c ≡ true) text
    → All (λ c. is_url_safe c ≡ true) (letters n text)
letters-alphabet zero text h = h
letters-alphabet (suc n) text h = (refl, letters-alphabet n text h)

encode-alphabet : (bytes : List ℕ) → All (λ c. is_url_safe c ≡ true) (encode bytes)
encode-alphabet [] = tt
encode-alphabet (b ∷ bytes) = letters-alphabet b (b'B' ∷ encode bytes) (refl, encode-alphabet bytes)

decode-letters : (k n : ℕ) (text : List ℕ) → decode k (letters n text) ≡ decode (k + n) text
decode-letters k zero text = ap (λ m. decode m text) (omega arith)
decode-letters k (suc n) text =
    decode-letters (suc k) n text ∙ ap (λ m. decode m text) (omega arith)

decode-encode : (bytes : List ℕ) → decode 0 (encode bytes) ≡ some bytes
decode-encode [] = refl
decode-encode (b ∷ bytes) =
    rw (decode-letters 0 b (b'B' ∷ encode bytes), decode-encode bytes)
      (ap (λ (m : ℕ). some (m ∷ bytes)) (omega arith))

letters-suc : (n : ℕ) (text : List ℕ) → letters n (b'A' ∷ text) ≡ letters (suc n) text
letters-suc zero text = refl
letters-suc (suc n) text = ap (◌∷◌ b'A') (letters-suc n text)

push-eq-some :
    (n : ℕ) (o : Option (List ℕ)) (bytes : List ℕ)
    → push n o ≡ some bytes
    → (rest : List ℕ) × (o ≡ some rest) × (n ∷ rest ≡ bytes)
push-eq-some n none bytes h = cc
push-eq-some n (some rest) bytes h = (rest, refl, cc)

encode-decode :
    (n : ℕ) (text bytes : List ℕ) → decode n text ≡ some bytes → encode bytes ≡ letters n text
encode-decode zero [] bytes h = let e : [] ≡ bytes = cc in rw (← e) refl
encode-decode (suc n) [] bytes h = cc
encode-decode n (c ∷ text) bytes h = elim (Bool-cases (c == b'A')) [
  | inl a ↦
      rw ((==_iff c b'A').0 a, letters-suc n text) (encode-decode (suc n) text bytes (rw a at h))
  | inr not_a ↦ elim (Bool-cases (c == b'B')) [
    | inl b ↦
        let (rest, found, e) = push-eq-some n (decode 0 text) bytes (rw (not_a, b) at h) in
        rw (← e, (==_iff c b'B').0 b, encode-decode 0 text rest found) refl
    | inr not_b ↦ absurd (no_decode (rw (not_a, not_b) at h))
  ]
]
  where
    no_decode : ◌≡◌ {A = Option (List ℕ)} none (some bytes) → ⊥
    no_decode e = cc

pub engine_laws : IsBase64 engine
engine_laws = record {
  alphabet = encode-alphabet;
  decode-encode = decode-encode;
  encode-decode = encode-decode 0;
}
