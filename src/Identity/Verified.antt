-- ===== src/Identity/Verified.antt =====
-- src/service_identity.rs: a message is signed for one profile, purpose and payload, and what an opened
-- identity signs is verified by its anchor.
use cultnet_rs.Base.{
  ℕ, zero, suc, ◌≡◌, refl, sym, ap, ◌∙◌, ◌%◌, ◌^◌, ◌<◌, arith, List, [], ◌∷◌, ◌++◌, length, take,
  drop, take_whole, drop_whole,
}
use cultnet_rs.Base.Bytes.{from_be_bytes, from_be_bytes-to_be_bytes, length-to_be_bytes}
use cultnet_rs.Identity.{
  Profile, idunn_deployment_brake_operator, gamecult_provider_health, idunn_service, Purpose,
  idunn_deployment_brake_release, idunn_signed_daemon_health,
  idunn_authenticated_provider_health_projection, signature_domain, purpose_bytes,
}
use cultnet_rs.Identity.Signing.{signing_message, length_bytes}

-- Two blocks of a known length, each with a rest, are equal in both parts.
append_split :
    (n : ℕ) (xs ys us vs : List ℕ)
    → length xs ≡ n
    → length ys ≡ n
    → xs ++ us ≡ ys ++ vs
    → (xs ≡ ys) × (us ≡ vs)
append_split n xs ys us vs hx hy e = (
  sym (take_whole n xs us hx) ∙ ap (take n) e ∙ take_whole n ys vs hy,
  sym (drop_whole n xs us hx) ∙ ap (drop n) e ∙ drop_whole n ys vs hy,
)

abbrev byte_at : ℕ → List ℕ → ℕ
byte_at n [] = 0
byte_at zero (b ∷ bytes) = b
byte_at (suc n) (b ∷ bytes) = byte_at n bytes

domain_lem :
    (p q : Profile) (us vs : List ℕ) → signature_domain p ++ us ≡ signature_domain q ++ vs → p ≡ q
domain_lem idunn_deployment_brake_operator idunn_deployment_brake_operator us vs e = refl
domain_lem idunn_deployment_brake_operator gamecult_provider_health us vs e =
    absurd (omega (arith, ap (byte_at 0) e))
domain_lem idunn_deployment_brake_operator idunn_service us vs e =
    absurd (omega (arith, ap (byte_at 6) e))
domain_lem gamecult_provider_health idunn_deployment_brake_operator us vs e =
    absurd (omega (arith, ap (byte_at 0) e))
domain_lem gamecult_provider_health gamecult_provider_health us vs e = refl
domain_lem gamecult_provider_health idunn_service us vs e = absurd (omega (arith, ap (byte_at 0) e))
domain_lem idunn_service idunn_deployment_brake_operator us vs e =
    absurd (omega (arith, ap (byte_at 6) e))
domain_lem idunn_service gamecult_provider_health us vs e = absurd (omega (arith, ap (byte_at 0) e))
domain_lem idunn_service idunn_service us vs e = refl

length_lem :
    (xs ys : List ℕ)
    → length xs < 2 ^ 64
    → length ys < 2 ^ 64
    → length_bytes xs ≡ length_bytes ys
    → length xs ≡ length ys
length_lem xs ys hx hy e = omega (
  arith,
  ap from_be_bytes e,
  from_be_bytes-to_be_bytes 8 (length xs % 2 ^ 64) (omega arith),
  from_be_bytes-to_be_bytes 8 (length ys % 2 ^ 64) (omega arith),
)

purpose_lem : (s t : Purpose) → length (purpose_bytes s) ≡ length (purpose_bytes t) → s ≡ t
purpose_lem idunn_deployment_brake_release idunn_deployment_brake_release e = refl
purpose_lem idunn_deployment_brake_release idunn_signed_daemon_health e = absurd (omega arith)
purpose_lem idunn_deployment_brake_release idunn_authenticated_provider_health_projection e =
    absurd (omega arith)
purpose_lem idunn_signed_daemon_health idunn_deployment_brake_release e = absurd (omega arith)
purpose_lem idunn_signed_daemon_health idunn_signed_daemon_health e = refl
purpose_lem idunn_signed_daemon_health idunn_authenticated_provider_health_projection e =
    absurd (omega arith)
purpose_lem idunn_authenticated_provider_health_projection idunn_deployment_brake_release e =
    absurd (omega arith)
purpose_lem idunn_authenticated_provider_health_projection idunn_signed_daemon_health e =
    absurd (omega arith)
purpose_lem idunn_authenticated_provider_health_projection
      idunn_authenticated_provider_health_projection e =
    refl

purpose_short : (s : Purpose) → length (purpose_bytes s) < 2 ^ 64
purpose_short idunn_deployment_brake_release = omega arith
purpose_short idunn_signed_daemon_health = omega arith
purpose_short idunn_authenticated_provider_health_projection = omega arith

length-length_bytes : (bytes : List ℕ) → length (length_bytes bytes) ≡ 8
length-length_bytes bytes = length-to_be_bytes 8 (length bytes % 2 ^ 64)

-- The bytes that are signed tell the profile, the purpose and the payload, where the payloads are shorter than 2^64
-- bytes: a signature for one profile, purpose and payload is over other bytes than one for another.
pub signing_message-injective :
    (p q : Profile) (s t : Purpose) (xs ys : List ℕ)
    → length xs < 2 ^ 64
    → length ys < 2 ^ 64
    → signing_message p s xs ≡ signing_message q t ys
    → (p ≡ q) × (s ≡ t) × (xs ≡ ys)
unfolding signing_message
signing_message-injective p q s t xs ys hx hy e =
    let same : p ≡ q = domain_lem p q _ _ e in
    let domains : signature_domain p ≡ signature_domain q = ap signature_domain same in
    let (_, e1) =
      append_split (length (signature_domain q)) (signature_domain p) (signature_domain q) _ _
        (ap length domains) refl e in
    let (lengths, e2) =
      append_split 8 (length_bytes (purpose_bytes s)) (length_bytes (purpose_bytes t)) _ _
        (length-length_bytes _) (length-length_bytes _) e1 in
    let sizes =
      length_lem (purpose_bytes s) (purpose_bytes t) (purpose_short s) (purpose_short t) lengths in
    let (_, e3) =
      append_split (length (purpose_bytes t)) (purpose_bytes s) (purpose_bytes t) _ _ sizes refl
        e2 in
    let (_, payloads) =
      append_split 8 (length_bytes xs) (length_bytes ys) xs ys (length-length_bytes _)
        (length-length_bytes _) e3 in
    (same, purpose_lem s t sizes, payloads)
