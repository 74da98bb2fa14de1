-- ===== src/Export/Base64/Decodes.antt =====
-- A reading of padded Base64 by RFC 4648, against the encoder of
-- crates/stratodb/src/export/base64.rs.
use stratodb.Base.{
  ℕ, ◌+◌, ◌-◌, ◌*◌, ◌/◌, ◌%◌, ◌^◌, ◌<◌, ◌≡◌, refl, List, [], ◌∷◌, length, All, IsByte, ltb, ◌==◌,
  if◌then◌else◌, Text, false, arith,
}
use stratodb.Export.Base64.{letter, triple, pad, letter_at, encode}

-- The place of a letter in the alphabet.
abbrev pub place : ℕ → ℕ
place c =
    if c == 43
    then 62
    else if c == 47
    then 63
    else if ltb c 58
    then c + 4
    else if ltb c 91
    then c - 65
    else c - 71

abbrev pub quad : ℕ → ℕ → ℕ → ℕ → ℕ
quad w x y z = place w * 2 ^ 18 + place x * 2 ^ 12 + place y * 2 ^ 6 + place z

-- The bytes of four letters, of which the last two may be padding, before the bytes that follow.
abbrev pub bytes_of : ℕ → ℕ → ℕ → ℕ → List ℕ → List ℕ
bytes_of w x y z rest =
    if z == pad
    then if y == pad
      then quad w x 65 65 / 2 ^ 16 ∷ []
      else quad w x y 65 / 2 ^ 16 ∷ quad w x y 65 / 2 ^ 8 % 256 ∷ []
    else quad w x y z / 2 ^ 16 ∷ quad w x y z / 2 ^ 8 % 256 ∷ quad w x y z % 256 ∷ rest

unfoldable pub decode : Text → List ℕ
decode (w ∷ x ∷ y ∷ z ∷ rest) = bytes_of w x y z (decode rest)
decode _ = []

place-letter : (n : ℕ) → n < 64 → place (letter n) ≡ n
place-letter n h = ground arith

letter_not_pad : (n : ℕ) → n < 64 → (letter n == pad) ≡ false
letter_not_pad n h = ground arith

-- Four times six bits make up the triple.
quad-triple :
    (t : ℕ)
    → t < 2 ^ 24
    → quad (letter_at 18 t) (letter_at 12 t) (letter_at 6 t) (letter_at 0 t) ≡ t
quad-triple t h =
    rw
      (
        place-letter (t / 2 ^ 18 % 64) (omega arith),
        place-letter (t / 2 ^ 12 % 64) (omega arith),
        place-letter (t / 2 ^ 6 % 64) (omega arith),
        place-letter (t / 2 ^ 0 % 64) (omega arith),
      )
      (omega arith)

triple-lt : (b0 b1 b2 : ℕ) → b0 < 256 → b1 < 256 → b2 < 256 → triple b0 b1 b2 < 2 ^ 24
triple-lt b0 b1 b2 h0 h1 h2 = omega arith

-- The bytes of a triple.
high_byte : (b0 b1 b2 : ℕ) → b1 < 256 → b2 < 256 → triple b0 b1 b2 / 2 ^ 16 ≡ b0
high_byte b0 b1 b2 h1 h2 = omega arith

mid_byte : (b0 b1 b2 : ℕ) → b1 < 256 → b2 < 256 → triple b0 b1 b2 / 2 ^ 8 % 256 ≡ b1
mid_byte b0 b1 b2 h1 h2 = omega arith

low_byte : (b0 b1 b2 : ℕ) → b2 < 256 → triple b0 b1 b2 % 256 ≡ b2
low_byte b0 b1 b2 h2 = omega arith

not_padded : (shift t : ℕ) → (letter_at shift t == pad) ≡ false
not_padded shift t = letter_not_pad (t / 2 ^ shift % 64) (omega arith)

-- Four letters without padding.
bytes_of-triple :
    (b0 b1 b2 : ℕ) (rest : List ℕ)
    → b0 < 256
    → b1 < 256
    → b2 < 256
    → (let t = triple b0 b1 b2 in
        bytes_of (letter_at 18 t) (letter_at 12 t) (letter_at 6 t) (letter_at 0 t) rest)
      ≡ b0 ∷ b1 ∷ b2 ∷ rest
bytes_of-triple b0 b1 b2 rest h0 h1 h2 =
    rw
      (
        not_padded 0 (triple b0 b1 b2),
        quad-triple (triple b0 b1 b2) (triple-lt b0 b1 b2 h0 h1 h2),
        high_byte b0 b1 b2 h1 h2,
        mid_byte b0 b1 b2 h1 h2,
        low_byte b0 b1 b2 h2,
      )
      refl

last_letter : (t : ℕ) → t % 64 ≡ 0 → letter_at 0 t ≡ 65
last_letter t e = let zeroed : t / 2 ^ 0 % 64 ≡ 0 = omega arith in rw zeroed refl

third_letter : (t : ℕ) → t % 2 ^ 12 ≡ 0 → letter_at 6 t ≡ 65
third_letter t e = let zeroed : t / 2 ^ 6 % 64 ≡ 0 = omega arith in rw zeroed refl

quad-two :
    (b0 b1 : ℕ)
    → b0 < 256
    → b1 < 256
    → (let t = triple b0 b1 0 in quad (letter_at 18 t) (letter_at 12 t) (letter_at 6 t) 65)
      ≡ triple b0 b1 0
quad-two b0 b1 h0 h1 =
    let t = triple b0 b1 0 in
    rw (last_letter t (omega arith)) at (quad-triple t (triple-lt b0 b1 0 h0 h1 (omega arith)))

quad-one :
    (b0 : ℕ)
    → b0 < 256
    → (let t = triple b0 0 0 in quad (letter_at 18 t) (letter_at 12 t) 65 65) ≡ triple b0 0 0
quad-one b0 h0 =
    let t = triple b0 0 0 in
    rw (last_letter t (omega arith), third_letter t (omega arith)) at
      (quad-triple t (triple-lt b0 0 0 h0 (omega arith) (omega arith)))

decode-encode_bytes : (bytes : List ℕ) → All IsByte bytes → decode (encode bytes) ≡ bytes
unfolding decode encode
decode-encode_bytes [] h = refl
decode-encode_bytes (b0 ∷ []) (h0, _) =
    rw (quad-one b0 h0, high_byte b0 0 0 (omega arith) (omega arith)) refl
decode-encode_bytes (b0 ∷ b1 ∷ []) (h0, (h1, _)) =
    rw
      (
        not_padded 6 (triple b0 b1 0),
        quad-two b0 b1 h0 h1,
        high_byte b0 b1 0 h1 (omega arith),
        mid_byte b0 b1 0 h1 (omega arith),
      )
      refl
decode-encode_bytes (b0 ∷ b1 ∷ b2 ∷ bytes) (h0, (h1, (h2, hs))) =
    rw (decode-encode_bytes bytes hs) (bytes_of-triple b0 b1 b2 bytes h0 h1 h2)

length-encode : (bytes : List ℕ) → length (encode bytes) ≡ (length bytes + 2) / 3 * 4
unfolding encode
length-encode [] = refl
length-encode (b0 ∷ []) = refl
length-encode (b0 ∷ b1 ∷ []) = refl
length-encode (b0 ∷ b1 ∷ b2 ∷ bytes) = omega (arith, length-encode bytes)

-- The Base64 of bytes decodes to the bytes, and has four letters for every three bytes that were
-- begun.
pub decode_base64-encode :
    (bytes : List ℕ)
    → All IsByte bytes
    → (decode (encode bytes) ≡ bytes) × (length (encode bytes) ≡ (length bytes + 2) / 3 * 4)
decode_base64-encode bytes h = (decode-encode_bytes bytes h, length-encode bytes)
