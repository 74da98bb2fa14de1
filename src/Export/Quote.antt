-- ===== src/Export/Quote.antt =====
-- crates/stratodb/src/export/string.rs: a text in double quotes. A character that is not ASCII stays as
-- it is, so the bytes of a text are quoted one by one.
pub mod Reads
use stratodb.Base.{ℕ, ◌+◌, ◌/◌, ◌%◌, List, [], ◌∷◌, ◌++◌, ltb, ◌==◌, if◌then◌else◌, Text}

-- A digit of `{:x}`.
abbrev pub hex_digit : ℕ → ℕ
hex_digit n = if ltb n 10 then 48 + n else 87 + n

-- One round of the loop: `\"`, `\\`, `\n`, `\r`, `\t`, `\b` and `\f`, `\u` with four digits for the
-- other control characters, and the character itself.
unfoldable pub escape : ℕ → Text
escape c =
    if c == 34
    then 92 ∷ 34 ∷ []
    else if c == 92
    then 92 ∷ 92 ∷ []
    else if c == 10
    then 92 ∷ 110 ∷ []
    else if c == 13
    then 92 ∷ 114 ∷ []
    else if c == 9
    then 92 ∷ 116 ∷ []
    else if c == 8
    then 92 ∷ 98 ∷ []
    else if c == 12
    then 92 ∷ 102 ∷ []
    else if ltb c 0x20
    then 92 ∷ 117 ∷ 48 ∷ 48 ∷ hex_digit (c / 16) ∷ hex_digit (c % 16) ∷ []
    else c ∷ []

unfoldable pub escapes : Text → Text
unfolding escape
escapes [] = []
escapes (c ∷ s) = escape c ++ escapes s

unfoldable pub quote : Text → Text → Text
unfolding escapes
quote out s = out ++ 34 ∷ (escapes s ++ 34 ∷ [])
