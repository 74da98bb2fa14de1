-- ===== src/Export/Quote/Reads.antt =====
-- A reader of JSON strings, against `quote` of crates/stratodb/src/export/string.rs.
use stratodb.Base.{
  ℕ, zero, suc, ◌+◌, ◌-◌, ◌*◌, [], ◌∷◌, ltb, ◌==◌, if◌then◌else◌, Text, Option, none, some,
}

-- Where the reader stands: in the text, behind a backslash, or in the digits of `\u`.
pub data State : Type 0 where
  plain escaped : State
  digits : (left acc : ℕ) → State

abbrev pub digit_value : ℕ → ℕ
digit_value c = if ltb c 58 then c - 48 else c - 87

-- The character that a letter behind a backslash stands for.
abbrev pub named : ℕ → ℕ
named c =
    if c == 110
    then 10
    else if c == 114
    then 13
    else if c == 116
    then 9
    else if c == 98
    then 8
    else if c == 102
    then 12
    else c

abbrev pub push : ℕ → Option (Text × Text) → Option (Text × Text)
push c none = none
push c (some (s, rest)) = some (c ∷ s, rest)

-- Reads up to the closing quote: the text, and what follows. A control character that is not escaped
-- is refused.
unfoldable pub scan : State → Text → Option (Text × Text)
scan state [] = none
scan plain (c ∷ s) =
    let behind = scan escaped s in
    let later = scan plain s in
    if c == 34
    then some ([], s)
    else if c == 92
    then behind
    else if ltb c 0x20
    then none
    else push c later
scan escaped (c ∷ s) =
    let hex = scan (digits 3 0) s in
    let later = scan plain s in if c == 117 then hex else push (named c) later
scan (digits zero acc) (c ∷ s) = push (acc * 16 + digit_value c) (scan plain s)
scan (digits (suc left) acc) (c ∷ s) = scan (digits left (acc * 16 + digit_value c)) s

unfoldable pub unquote : Text → Option (Text × Text)
unfolding scan
unquote [] = none
unquote (c ∷ s) = if c == 34 then scan plain s else none
