-- ===== src/Base/Bytes.antt =====
-- `to_be_bytes` and `from_be_bytes` of the unsigned integers, for any width in bytes.
use Prim.Native.Nat.{ℕ, zero, suc, ◌+◌, ◌*◌, ◌/◌, ◌%◌, ◌^◌, ◌<◌}
use Prim.Native.Nat.pow
use mathlib.Core.Path.{◌≡◌, refl, ◌∙◌}
use mathlib.Core.List.{List, [], ◌∷◌, ◌++◌}
use native.Mathlib.Nat.{add-zero, zero-add}
use native.Mathlib.Omega.{arith}
use cultnet_rs.Base.Lists.{length, length-append, All, All-append}

abbrev pub IsByte : ℕ → Type 0
IsByte b = b < 256

unfoldable pub to_be_bytes : ℕ → ℕ → List ℕ
to_be_bytes zero n = []
to_be_bytes (suc width) n = to_be_bytes width (n / 256) ++ (n % 256 ∷ [])

from_be_loop : ℕ → List ℕ → ℕ
from_be_loop acc [] = acc
from_be_loop acc (b ∷ bytes) = from_be_loop (acc * 256 + b) bytes

unfoldable pub from_be_bytes : List ℕ → ℕ
unfolding from_be_loop
from_be_bytes bytes = from_be_loop 0 bytes

from_be_loop-append :
    (acc : ℕ) (bytes : List ℕ) (b : ℕ)
    → from_be_loop acc (bytes ++ (b ∷ [])) ≡ from_be_loop acc bytes * 256 + b
unfolding from_be_loop
from_be_loop-append acc [] b = refl
from_be_loop-append acc (c ∷ bytes) b = from_be_loop-append (acc * 256 + c) bytes b

pub length-to_be_bytes : (width n : ℕ) → length (to_be_bytes width n) ≡ width
unfolding to_be_bytes
length-to_be_bytes zero n = refl
length-to_be_bytes (suc width) n = omega (
  arith,
  length-append (to_be_bytes width (n / 256)) (n % 256 ∷ []),
  length-to_be_bytes width (n / 256),
)

pub to_be_bytes-IsByte : (width n : ℕ) → All IsByte (to_be_bytes width n)
unfolding to_be_bytes
to_be_bytes-IsByte zero n = tt
to_be_bytes-IsByte (suc width) n =
    All-append IsByte (to_be_bytes width (n / 256)) _ (to_be_bytes-IsByte width (n / 256))
      (omega arith)

-- What `to_be_bytes` writes, `from_be_bytes` reads.
pub from_be_bytes-to_be_bytes :
    (width n : ℕ) → n < 256 ^ width → from_be_bytes (to_be_bytes width n) ≡ n
unfolding from_be_bytes to_be_bytes
from_be_bytes-to_be_bytes zero n h = omega arith
from_be_bytes-to_be_bytes (suc width) n h =
    from_be_loop-append 0 (to_be_bytes width (n / 256)) (n % 256)
    ∙ omega (arith, from_be_bytes-to_be_bytes width (n / 256) (omega (arith, pow.suc 256 width)))

from_be_loop-lt :
    (acc k : ℕ) (bytes : List ℕ)
    → All IsByte bytes
    → acc < 256 ^ k
    → from_be_loop acc bytes < 256 ^ (length bytes + k)
unfolding from_be_loop
from_be_loop-lt acc k [] h lt = rw zero-add lt
from_be_loop-lt acc k (b ∷ bytes) (hb, hs) lt =
    let ih = from_be_loop-lt (acc * 256 + b) (suc k) bytes hs (omega (arith, pow.suc 256 k)) in
    rw (same_exponent (length bytes) k) ih
  where
    same_exponent : (n k : ℕ) → suc n + k ≡ n + suc k
    same_exponent n k = omega arith

-- Bytes that are read as a number give one of that width.
pub from_be_bytes-lt :
    (bytes : List ℕ) → All IsByte bytes → from_be_bytes bytes < 256 ^ (length bytes)
unfolding from_be_bytes
from_be_bytes-lt bytes h =
    let bound = from_be_loop-lt 0 0 bytes h (omega arith) in rw (add-zero (length bytes)) at bound
