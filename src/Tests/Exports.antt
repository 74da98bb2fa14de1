-- ===== src/Tests/Exports.antt =====
-- Exports of small texts, bytes and documents.
use stratodb.Base.{◌≡◌, refl, [], ◌∷◌, length, Text, List, ℕ, arith}
use stratodb.Export.Base64
use stratodb.Export.Base64.Decodes
use stratodb.Export.Base64.Decodes.{decode_base64-encode}

abbrev bytes : List ℕ
bytes = 0 ∷ 1 ∷ 2 ∷ 255 ∷ []

-- AAEC/w==
known_letters : Base64.encode bytes ≡ 65 ∷ 65 ∷ 69 ∷ 67 ∷ 47 ∷ 119 ∷ 61 ∷ 61 ∷ []
unfolding Base64.encode
known_letters = refl

decode_base64-encode_example :
    (Decodes.decode (Base64.encode bytes) ≡ bytes) × (length (Base64.encode bytes) ≡ 8)
decode_base64-encode_example =
    decode_base64-encode bytes (omega arith, (omega arith, (omega arith, (omega arith, tt))))

-- a"b, with a newline and a control character.
abbrev text : Text
text = 97 ∷ 34 ∷ 98 ∷ 10 ∷ 1 ∷ []
