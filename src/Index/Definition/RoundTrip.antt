-- ===== src/Index/Definition/RoundTrip.antt =====
-- Reading back what `IndexDef::encode` wrote.
use stratodb.Base.{
  ℕ, ◌%◌, ◌^◌, ◌<◌, ◌≡◌, refl, sym, ◌∙◌, List, [], ◌∷◌, ◌++◌, append_assoc, append-nil, length,
  Bool, true, false, not, ◌==◌, All, Text, is_utf8, from_utf8, be_bytes, arith,
}
use stratodb.Error.{ok}
use stratodb.Codec.{put_u32}
use stratodb.Codec.Reads.{
  Reads, Reads-after, Reads-pure, Reads-lift, Reads-bind, Reads-bind_last, Reads-u8, Reads-u32,
  Reads-bytes, put_bytes-run, run,
}
use stratodb.Scalar.Codec.{of_bool, or_corrupt}
use stratodb.Scalar.RoundTrip.{Reads-map}
use stratodb.Spath.Display.{show}
use stratodb.Spath.Canonical.{IsCanonical}
use stratodb.Spath.Canonical.RoundTrip.{parse-show}
use stratodb.Index.Definition.{
  Direction, asc, desc, to_byte, from_byte, IndexColumn, IndexDef, put_columns, encode, read_string,
  read_column, read_columns, decode,
}

-- A text that the format can hold.
abbrev pub IsStored : Text → Type 0
IsStored s = (is_utf8 s ≡ true) × (length s < 2 ^ 32)

abbrev pub IsColumn : IndexColumn → Type 0
IsColumn column = IsCanonical column.path × IsStored (show column.path)

pub record IsDefinition (def : IndexDef) : Type 0 where
  pub name_ok : IsStored def.name
  pub pattern_ok : IsStored def.pattern
  pub columns_ok : All IsColumn def.columns
  pub count_ok : length def.columns < 2 ^ 32

abbrev columns_image : List IndexColumn → List ℕ
columns_image [] = []
columns_image (column ∷ columns) =
    (run (show column.path) ++ to_byte column.direction ∷ []) ++ columns_image columns

abbrev pub def_image : IndexDef → List ℕ
def_image def =
    run def.name
    ++ (run def.pattern
        ++ (of_bool def.unique ∷ (be_bytes 4 (length def.columns) ++ columns_image def.columns)))

put_columns-image :
    (buf : List ℕ) (columns : List IndexColumn)
    → All IsColumn columns
    → put_columns buf columns ≡ buf ++ columns_image columns
unfolding put_columns
put_columns-image buf [] h = sym (append-nil buf)
put_columns-image buf (column ∷ columns) (h, hs) =
    rw
      (
        put_bytes-run buf (show column.path) h.1.1,
        append_assoc buf (run (show column.path)) (to_byte column.direction ∷ []),
      )
      (put_columns-image (buf ++ (run (show column.path) ++ to_byte column.direction ∷ [])) columns
          hs
        ∙ append_assoc buf (run (show column.path) ++ to_byte column.direction ∷ [])
            (columns_image columns))

pub encode-image :
    (buf : List ℕ) (def : IndexDef) → IsDefinition def → encode buf def ≡ buf ++ def_image def
unfolding encode put_u32
encode-image buf def h =
    let small : length def.columns % 2 ^ 32 ≡ length def.columns = omega (arith, h.count_ok) in
    rw
      (
        small,
        put_bytes-run buf def.name h.name_ok.1,
        put_bytes-run (buf ++ run def.name) def.pattern h.pattern_ok.1,
        put_columns-image _ def.columns h.columns_ok,
      )
      (simp append_assoc)

pub Reads-string : (s : Text) → IsStored s → Reads read_string (run s) s
unfolding read_string
Reads-string s (valid, fits) =
    Reads-bind_last _ _ (run s) s s (Reads-bytes s fits)
      (Reads-lift (or_corrupt (from_utf8 s)) s (rw valid))

from_byte-to_byte : (d : Direction) → from_byte (to_byte d) ≡ ok d
unfolding from_byte to_byte
from_byte-to_byte asc = refl
from_byte-to_byte desc = refl

Reads-column :
    (column : IndexColumn)
    → IsColumn column
    → Reads read_column (run (show column.path) ++ to_byte column.direction ∷ []) column
unfolding read_column
Reads-column column (canonical, stored) =
    Reads-bind _ _ (run (show column.path)) (to_byte column.direction ∷ []) (show column.path)
      column (Reads-string (show column.path) stored)
      (Reads-bind _ _ [] (to_byte column.direction ∷ []) column.path column
        (Reads-lift _ column.path (parse-show column.path canonical))
        (Reads-bind _ _ (to_byte column.direction ∷ []) [] (to_byte column.direction) column
          (Reads-u8 (to_byte column.direction))
          (Reads-bind _ _ [] [] column.direction column
            (Reads-lift _ column.direction (from_byte-to_byte column.direction))
            (Reads-pure column))))

Reads-columns :
    (columns : List IndexColumn)
    → All IsColumn columns
    → Reads (read_columns (length columns)) (columns_image columns) columns
unfolding read_columns
Reads-columns [] h = Reads-pure []
Reads-columns (column ∷ columns) (h, hs) =
    Reads-bind _ _ (run (show column.path) ++ to_byte column.direction ∷ []) (columns_image columns)
      column (column ∷ columns) (Reads-column column h)
      (Reads-map _ (λ rest. column ∷ rest) (columns_image columns) columns
        (Reads-columns columns hs))

unique_back : (b : Bool) → not (of_bool b == 0) ≡ b
unique_back false = refl
unique_back true = refl

pub Reads-decode : (def : IndexDef) → IsDefinition def → Reads decode (def_image def) def
unfolding decode
Reads-decode def h =
    Reads-bind _ _ (run def.name) _ def.name def (Reads-string def.name h.name_ok) (
      Reads-bind _ _ (run def.pattern) _ def.pattern def (Reads-string def.pattern h.pattern_ok) (
        Reads-bind _ _ (of_bool def.unique ∷ []) _ (of_bool def.unique) def
          (Reads-u8 (of_bool def.unique))
          (Reads-bind _ _ (be_bytes 4 (length def.columns)) (columns_image def.columns)
            (length def.columns) def (Reads-u32 (length def.columns) h.count_ok)
            (Reads-bind_last _ _ (columns_image def.columns) def.columns def
              (Reads-columns def.columns h.columns_ok)
              (rw (unique_back def.unique) (Reads-pure def))))))

-- A definition that was appended to a buffer is read back from there, whatever follows, and the
-- reader stops where it ends: its texts are UTF-8 of less than 2^32 bytes, and the paths of its
-- columns are canonical.
pub decode_def-encode :
    (buf : List ℕ) (def : IndexDef) (rest : List ℕ)
    → IsDefinition def
    → length (encode buf def ++ rest) < 2 ^ 64
    → decode (record { buf = encode buf def ++ rest; pos = length buf })
      ≡ ok (def, record { buf = encode buf def ++ rest; pos = length (encode buf def) })
decode_def-encode buf def rest h fits =
    let same = encode-image buf def h in
    rw same (Reads-after decode buf (def_image def) rest def (Reads-decode def h) (rw same at fits))
