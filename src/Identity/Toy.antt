-- ===== src/Identity/Toy.antt =====
-- A checksum in the place of a signature, which meets the laws of the cryptography.
use cultnet_rs.Base.{
  ℕ, zero, suc, ◌≡◌, refl, ◌+◌, ◌%◌, arith, List, [], ◌∷◌, ◌++◌, true, length, length-append,
  length-take, take,
}
use cultnet_rs.Base.Order.{bytes_eq, bytes_eq_iff}
use cultnet_rs.Identity.{Crypto, IsCrypto}

abbrev pub repeated : ℕ → ℕ → List ℕ
repeated zero b = []
repeated (suc n) b = b ∷ repeated n b

abbrev pub zeros : ℕ → List ℕ
zeros n = repeated n 0

abbrev sum : List ℕ → ℕ
sum [] = 0
sum (b ∷ bytes) = b + sum bytes

abbrev pub checksum : List ℕ → List ℕ
checksum message = repeated 64 (sum message % 256)

abbrev pub crypto : Crypto
crypto = record {
  sha256 = λ bytes. take 32 (bytes ++ zeros 32);
  verifying_key = λ seed. take 32 (seed ++ zeros 32);
  sign = λ seed message. checksum message;
  is_verifying_key = λ key. true;
  verify = λ key message signature. bytes_eq signature (checksum message);
}

length-key : (seed : List ℕ) → length (take 32 (seed ++ zeros 32)) ≡ 32
length-key seed = omega (arith, length-take 32 (seed ++ zeros 32), length-append seed (zeros 32))

pub crypto_laws : IsCrypto crypto
crypto_laws = record {
  length-verifying_key = length-key;
  verifying_key-valid = λ seed. refl;
  length-sign = λ seed message. refl;
  verify-sign = λ seed message. (bytes_eq_iff (checksum message) (checksum message)).1 refl;
}
