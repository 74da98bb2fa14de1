-- ===== src/Base/Utf8.antt =====
-- Rust strings are their UTF-8 bytes; `str::from_utf8` accepts exactly the well-formed sequences
-- of the Unicode standard (table 3-7).
use Prim.Native.Nat.{ℕ, zero, suc}
use mathlib.Core.Bool.{Bool, true, false, ◌&&◌, ◌||◌}
use mathlib.Core.Option.{Option, none, some}
use mathlib.Core.List.{List, [], ◌∷◌}
use stratodb.Base.Tests.{leb, ◌==◌, if◌then◌else◌}

abbrev pub Text : Type 0
Text = List ℕ

abbrev within : ℕ → ℕ → ℕ → Bool
within lo hi b = leb lo b && leb b hi

-- How many bytes follow a first byte, and the range of the next one.
utf8_lead : ℕ → Option (ℕ × ℕ × ℕ)
utf8_lead b =
    if within 0x00 0x7f b
    then some (0, 0x80, 0xbf)
    else if within 0xc2 0xdf b
    then some (1, 0x80, 0xbf)
    else if b == 0xe0
    then some (2, 0xa0, 0xbf)
    else if within 0xe1 0xec b || within 0xee 0xef b
    then some (2, 0x80, 0xbf)
    else if b == 0xed
    then some (2, 0x80, 0x9f)
    else if b == 0xf0
    then some (3, 0x90, 0xbf)
    else if within 0xf1 0xf3 b
    then some (3, 0x80, 0xbf)
    else if b == 0xf4
    then some (3, 0x80, 0x8f)
    else none

utf8_from : ℕ → ℕ → ℕ → List ℕ → Bool
utf8_from zero lo hi [] = true
utf8_from (suc n) lo hi [] = false
utf8_from zero lo hi (b ∷ bs) = elim (utf8_lead b) [
  | none ↦ false
  | some (n, lo', hi') ↦ utf8_from n lo' hi' bs
]
utf8_from (suc n) lo hi (b ∷ bs) = within lo hi b && utf8_from n 0x80 0xbf bs

unfoldable pub is_utf8 : List ℕ → Bool
unfolding utf8_from utf8_lead
is_utf8 bs = utf8_from 0 0x80 0xbf bs

-- `str::from_utf8`, without its error.
abbrev pub from_utf8 : List ℕ → Option Text
from_utf8 bs = if is_utf8 bs then some bs else none
