-- ===== src/Tests/Paths.antt =====
-- Paths that are printed and parsed.
use stratodb.Base.{◌≡◌, ◌≢◌, refl, [], ◌∷◌, Text, contains, text_eq, arith}
use stratodb.Error.{SPath, name, index, ok, panic}
use stratodb.Spath.Parse.{parse}
use stratodb.Spath.Display.{show}
use stratodb.Spath.Canonical.{IsName, IsCanonical}
use stratodb.Spath.Canonical.RoundTrip.{parse-show}
use stratodb.Spath.Sound.{parse_sound}

-- `a/b[7]`
abbrev cell : SPath
cell = record { segments = name (97 ∷ []) ∷ name (98 ∷ []) ∷ index 7 ∷ [] }

abbrev letter_a : IsName (97 ∷ [])
unfolding text_eq contains
letter_a = record {
  filled = λ e. cc;
  no_slash = refl;
  no_open = refl;
  no_close = refl;
  no_dot = refl;
  no_dot_dot = refl;
}

abbrev letter_b : IsName (98 ∷ [])
unfolding text_eq contains
letter_b = record {
  filled = λ e. cc;
  no_slash = refl;
  no_open = refl;
  no_close = refl;
  no_dot = refl;
  no_dot_dot = refl;
}

parse-show_example : parse (show cell) ≡ ok cell
parse-show_example = parse-show cell (letter_a, (letter_b, (omega arith, tt)))

abbrev up : Text
up = 97 ∷ b'/' ∷ b'.' ∷ b'.' ∷ b'/' ∷ 98 ∷ []

parse_sound_example : (parse up ≢ panic) × ((p : SPath) → parse up ≡ ok p → IsCanonical p)
parse_sound_example = parse_sound up
