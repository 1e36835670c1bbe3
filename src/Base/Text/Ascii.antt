-- ===== src/Base/Text/Ascii.antt =====
-- ASCII texts: their characters are their bytes.
use Prim.Native.Nat.{ℕ}
use mathlib.Core.Path.{◌≡◌, refl}
use mathlib.Core.Bool.{true, false}
use mathlib.Core.List.{List, [], ◌∷◌, ◌++◌}
use mathlib.Core.Option.{some}
use native.Mathlib.Omega.{arith}
use cultnet_rs.Base.Tests.{leb}
use cultnet_rs.Base.Lists.{All}
use cultnet_rs.Base.Text.{
  between, utf8_loop, utf8_step, utf8_lead, chars?, chars, is_whitespace, all_chars, trim_is_empty,
}

abbrev pub IsAscii : List ℕ → Type 0
IsAscii text = All (λ c. leb c 0x7f ≡ true) text

step_lem : (c : ℕ) → leb c 0x7f ≡ true → utf8_step between c ≡ some (between, c ∷ [])
unfolding utf8_step utf8_lead
step_lem c h = rw h refl

loop_lem : (text : List ℕ) → IsAscii text → utf8_loop between text ≡ some text
unfolding utf8_loop
loop_lem [] h = refl
loop_lem (c ∷ text) (hc, hs) = rw (utf8_loop, step_lem c hc) (rw (loop_lem text hs) refl)

pub chars-IsAscii : (text : List ℕ) → IsAscii text → chars text ≡ text
unfolding chars chars?
chars-IsAscii text h = rw (loop_lem text h) refl

all_chars-mark :
    (before after : List ℕ) (c : ℕ)
    → is_whitespace c ≡ false
    → all_chars is_whitespace (before ++ (c ∷ after)) ≡ false
all_chars-mark [] after c h = ground (arith, h)
all_chars-mark (b ∷ before) after c h = ground (arith, all_chars-mark before after c h)

-- A text with a character that is no white space is not blank.
pub trim_is_empty-mark :
    (before after : List ℕ) (c : ℕ)
    → is_whitespace c ≡ false
    → IsAscii (before ++ (c ∷ after))
    → trim_is_empty (before ++ (c ∷ after)) ≡ false
unfolding trim_is_empty
trim_is_empty-mark before after c h ascii =
    rw (chars-IsAscii (before ++ (c ∷ after)) ascii) (all_chars-mark before after c h)
