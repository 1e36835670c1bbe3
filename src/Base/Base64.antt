-- ===== src/Base/Base64.antt =====
-- The engine `URL_SAFE_NO_PAD` of the package base64, an argument of the code that uses it.
pub mod Letters
use Prim.Native.Nat.{ℕ}
use mathlib.Core.Path.{◌≡◌}
use mathlib.Core.Bool.{Bool, true, ◌||◌}
use mathlib.Core.Option.{Option, some}
use mathlib.Core.List.{List}
use cultnet_rs.Base.Tests.{◌==◌}
use cultnet_rs.Base.Lists.{All}
use cultnet_rs.Base.Text.{within}

abbrev pub is_url_safe : ℕ → Bool
is_url_safe c =
    within b'A' b'Z' c || within b'a' b'z' c || within b'0' b'9' c || (c == b'-') || (c == b'_')

pub record Base64 : Type 0 where
  pub encode : List ℕ → List ℕ
  pub decode : List ℕ → Option (List ℕ)

-- The documented laws: the encoder writes its alphabet, the decoder reads what it writes, and
-- takes one spelling only of a sequence of bytes.
pub record IsBase64 (base64 : Base64) : Type 0 where
  pub alphabet : (bytes : List ℕ) → All (λ c. is_url_safe c ≡ true) (base64.encode bytes)
  pub decode-encode : (bytes : List ℕ) → base64.decode (base64.encode bytes) ≡ some bytes
  pub encode-decode :
      (text bytes : List ℕ) → base64.decode text ≡ some bytes → base64.encode bytes ≡ text
