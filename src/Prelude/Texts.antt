-- ===== src/Prelude/Texts.antt =====
-- Identifiers are texts. Go compares strings byte by byte, and so does the native order.
use Prim.Native.String.{String, compare}
use mathlib.Core.Bool.{Bool}
use mathlib.Core.Path.{◌≡◌}
use mathlib.Core.Logic.{◌↔◌}
use text.Mathlib.Text.{is_lt, ◌==◌ as text_eq}
use text.Mathlib.TextEquality.{eq_iff as text_eq_iff}

infix 50 ◌==◌
abbrev pub ◌==◌ : String → String → Bool
s == t = text_eq s t

pub eq_iff : (s t : String) → ((s == t) ≡ Bool.true) ↔ (s ≡ t)
eq_iff s t = text_eq_iff s t

-- `s < t` of the source.
abbrev pub text_lt : String → String → Bool
text_lt s t = is_lt (compare s t)
