-- ===== src/Export/Base64.antt =====
-- crates/stratodb/src/export/base64.rs: padded Base64 of bytes. The parts that a triple is put together
-- of have no bit in common, and their `|` is written as a sum.
pub mod Decodes
use stratodb.Base.{ℕ, ◌+◌, ◌-◌, ◌*◌, ◌/◌, ◌%◌, ◌^◌, List, [], ◌∷◌, ltb, ◌==◌, if◌then◌else◌, Text}

-- `ALPHABET[n]`, below 64: A to Z, a to z, 0 to 9, `+` and `/`.
abbrev pub letter : ℕ → ℕ
letter n =
    if ltb n 26
    then 65 + n
    else if ltb n 52
    then 71 + n
    else if ltb n 62
    then n - 4
    else if n == 62
    then 43
    else 47

abbrev pub triple : ℕ → ℕ → ℕ → ℕ
triple b0 b1 b2 = b0 * 2 ^ 16 + b1 * 2 ^ 8 + b2

-- `=`.
abbrev pub pad : ℕ
pad = 61

-- The four letters of a triple: `(triple >> shift) & 0x3F`.
abbrev pub letter_at : ℕ → ℕ → ℕ
letter_at shift t = letter (t / 2 ^ shift % 64)

-- One chunk of up to three bytes after the other.
unfoldable pub encode : List ℕ → Text
encode [] = []
encode (b0 ∷ []) = let t = triple b0 0 0 in letter_at 18 t ∷ letter_at 12 t ∷ pad ∷ pad ∷ []
encode (b0 ∷ b1 ∷ []) =
    let t = triple b0 b1 0 in letter_at 18 t ∷ letter_at 12 t ∷ letter_at 6 t ∷ pad ∷ []
encode (b0 ∷ b1 ∷ b2 ∷ bytes) =
    let t = triple b0 b1 b2 in
    letter_at 18 t ∷ letter_at 12 t ∷ letter_at 6 t ∷ letter_at 0 t ∷ encode bytes
