-- ===== src/Base/Texts.antt =====
-- Texts that are told apart by the equality test, and their length.
use Prim.Native.String.{String}
use mathlib.Core.Path.{◌≡◌}
use mathlib.Core.Bool.{Bool, false, ◌&&◌}
use mathlib.Core.Logic.{◌≢◌}
use native.Mathlib.Omega.{arith}
use Prim.Native.Nat.{ℕ, ◌+◌}
use Prim.Native.Char.{code}
use codexhook.Base.Tests.{ltb, leb, if◌then◌else◌}
use text.Mathlib.Text.{◌==◌}
use text.Mathlib.TextEquality.{eq_iff}

unfoldable pub is_digit : ℕ → Bool
is_digit c = leb b'0' c && leb c b'9'

pub text_ne : (s t : String) → (s == t) ≡ false → s ≢ t
text_ne s t h = ground (arith, eq_iff s t)

-- `length` of a text, in UTF-16 units.
unfoldable pub utf16_length : String → ℕ
utf16_length String.[] = 0
utf16_length (String.◌∷◌ c s) = (if ltb (code c) (65536) then 1 else 2) + utf16_length s
