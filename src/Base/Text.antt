-- ===== src/Base/Text.antt =====
-- The `String` of Rust: bytes that are UTF-8, and the code points that they spell.
pub mod Ascii
use Prim.Native.Char.{code}
use Prim.Native.String.{String}
use Prim.Native.Nat.{ℕ, ◌+◌, ◌-◌, ◌*◌, pred}
use mathlib.Core.Bool.{Bool, true, false, ◌&&◌, ◌||◌}
use mathlib.Core.Option
use mathlib.Core.Option.{Option, none, some}
use mathlib.Core.List.{List, [], ◌∷◌, ◌++◌}
use cultnet_rs.Base.Tests.{leb, ◌==◌, not, if◌then◌else◌}

-- The bytes of an ASCII literal.
abbrev pub codes : String → List ℕ
codes String.[] = []
codes (String.◌∷◌ c s) = code c ∷ codes s

abbrev pub within : ℕ → ℕ → ℕ → Bool
within low high b = leb low b && leb b high

-- Inside a code point: the bytes still needed, the bits read, the range of the next byte.
pub record Utf8State : Type 0 where
  pub needed : ℕ
  pub bits : ℕ
  pub low : ℕ
  pub high : ℕ

abbrev pub between : Utf8State
between = record { needed = 0; bits = 0; low = 0x80; high = 0xbf }

abbrev lead : ℕ → ℕ → ℕ → ℕ → Option (Utf8State × List ℕ)
lead needed bits low high =
    some (record { needed = needed; bits = bits; low = low; high = high }, [])

-- The first byte of a code point, after the table of well-formed sequences of `str::from_utf8`.
utf8_lead : ℕ → Option (Utf8State × List ℕ)
utf8_lead b =
    if leb b 0x7f
    then some (between, b ∷ [])
    else if within 0xc2 0xdf b
    then lead 1 (b - 0xc0) 0x80 0xbf
    else if b == 0xe0
    then lead 2 0 0xa0 0xbf
    else if b == 0xed
    then lead 2 13 0x80 0x9f
    else if within 0xe1 0xef b
    then lead 2 (b - 0xe0) 0x80 0xbf
    else if b == 0xf0
    then lead 3 0 0x90 0xbf
    else if within 0xf1 0xf3 b
    then lead 3 (b - 0xf0) 0x80 0xbf
    else if b == 0xf4
    then lead 3 4 0x80 0x8f
    else none

utf8_next : Utf8State → ℕ → Option (Utf8State × List ℕ)
utf8_next s b =
    let bits = s.bits * 64 + (b - 0x80) in
    if within s.low s.high b
    then if s.needed == 1
      then some (between, bits ∷ [])
      else some (record { needed = pred s.needed; bits = bits; low = 0x80; high = 0xbf }, [])
    else none

utf8_step : Utf8State → ℕ → Option (Utf8State × List ℕ)
unfolding utf8_lead utf8_next
utf8_step s b = if s.needed == 0 then utf8_lead b else utf8_next s b

utf8_loop : Utf8State → List ℕ → Option (List ℕ)
utf8_loop s [] = if s.needed == 0 then some [] else none
utf8_loop s (b ∷ bytes) = elim (utf8_step s b) [
  | none ↦ none
  | some (s', out) ↦ Option.map (λ rest. out ++ rest) (utf8_loop s' bytes)
]

-- The code points of the text that the bytes spell, if they spell one.
unfoldable pub chars? : List ℕ → Option (List ℕ)
unfolding utf8_loop utf8_step
chars? bytes = utf8_loop between bytes

-- `String::from_utf8` succeeds.
unfoldable pub is_utf8 : List ℕ → Bool
unfolding chars?
is_utf8 bytes = elim (chars? bytes) [ none ↦ false | some _ ↦ true ]

-- `str::chars`; a `String` is always UTF-8, so the default is never read.
unfoldable pub chars : List ℕ → List ℕ
unfolding chars?
chars bytes = Option.get_or (chars? bytes) []

-- `char::is_whitespace`: the Unicode property White_Space.
unfoldable pub is_whitespace : ℕ → Bool
is_whitespace c =
    within 0x09 0x0d c
    || (c == 0x20)
    || (c == 0x85)
    || (c == 0xa0)
    || (c == 0x1680)
    || within 0x2000 0x200a c
    || (c == 0x2028)
    || (c == 0x2029)
    || (c == 0x202f)
    || (c == 0x205f)
    || (c == 0x3000)

-- `char::is_control`: the general category Cc.
unfoldable pub is_control : ℕ → Bool
is_control c = leb c 0x1f || within 0x7f 0x9f c

abbrev all_chars : (ℕ → Bool) → List ℕ → Bool
all_chars p [] = true
all_chars p (c ∷ cs) = p c && all_chars p cs

-- `value.trim().is_empty()`: no character is left when white space is cut off at both ends.
unfoldable pub trim_is_empty : List ℕ → Bool
unfolding chars is_whitespace
trim_is_empty value = all_chars is_whitespace (chars value)

-- `value.chars().any(char::is_control)`.
unfoldable pub any_control : List ℕ → Bool
unfolding chars is_control
any_control value = not (all_chars (λ c. not (is_control c)) (chars value))
