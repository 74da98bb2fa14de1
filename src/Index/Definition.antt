-- ===== src/Index/Definition.antt =====
-- crates/stratodb/src/index/definitions/: the definition of an index, its registry encoding and
-- the bytes of its columns.
pub mod RoundTrip
pub mod Name
use stratodb.Base.{
  ℕ, zero, suc, ◌%◌, ◌^◌, List, [], ◌∷◌, length, Bool, true, false, not, ◌==◌, if◌then◌else◌, Text,
  from_utf8,
}
use stratodb.Error.{SPath, SdbResult, ok, err, corrupt}
use stratodb.Crates.{Crates}
use stratodb.Codec.{push, put_u32, put_bytes, Decode, ◌>>=◌, pure, lift, u8, u32, bytes}
use stratodb.Scalar.{Scalar}
use stratodb.Scalar.Codec.{of_bool, or_corrupt}
use stratodb.Spath.Parse.{parse}
use stratodb.Spath.Display.{show}
use stratodb.Index.Ordered.{encode_scalar}

pub data Direction : Type 0 where
  asc desc : Direction

unfoldable pub to_byte : Direction → ℕ
to_byte asc = 0
to_byte desc = 1

unfoldable pub from_byte : ℕ → SdbResult Direction
from_byte byte = if byte == 0 then ok asc else if byte == 1 then ok desc else err corrupt

-- `direction == Direction::Desc`.
unfoldable pub is_desc : Direction → Bool
is_desc asc = false
is_desc desc = true

pub record IndexColumn : Type 0 where
  pub path : SPath
  pub direction : Direction

pub record IndexDef : Type 0 where
  pub name : Text
  pub pattern : Text
  pub columns : List IndexColumn
  pub unique : Bool

-- The loop over the columns.
unfoldable pub put_columns : List ℕ → List IndexColumn → List ℕ
unfolding put_bytes show to_byte
put_columns buf [] = buf
put_columns buf (column ∷ columns) =
    put_columns (push (put_bytes buf (show column.path)) (to_byte column.direction)) columns

unfoldable pub encode : List ℕ → IndexDef → List ℕ
unfolding put_bytes put_u32 put_columns
encode buf def =
    let named = put_bytes (put_bytes buf def.name) def.pattern in
    put_columns (put_u32 (push named (of_bool def.unique)) (length def.columns % 2 ^ 32))
      def.columns

unfoldable pub read_string : Decode Text
unfolding bytes ◌>>=◌ lift
read_string = bytes >>= λ bs. lift (or_corrupt (from_utf8 bs))

unfoldable pub read_column : Decode IndexColumn
unfolding read_string u8 ◌>>=◌ lift pure parse from_byte
read_column = read_string >>= λ text. lift (parse text) >>= λ path. u8 >>= λ byte.
    lift (from_byte byte) >>= λ direction. pure (record { path = path; direction = direction })

-- The loop over the count of columns.
unfoldable pub read_columns : ℕ → Decode (List IndexColumn)
unfolding read_column ◌>>=◌ pure
read_columns zero = pure []
read_columns (suc count) =
    read_column >>= λ column. read_columns count >>= λ columns. pure (column ∷ columns)

unfoldable pub decode : Decode IndexDef
unfolding read_string u8 u32 read_columns ◌>>=◌ pure
decode = read_string >>= λ name. read_string >>= λ pattern. u8 >>= λ unique. u32 >>= λ count.
    read_columns count >>= λ columns.
    pure (record { name = name; pattern = pattern; columns = columns; unique = not (unique == 0) })

-- The same loop, where each column is skipped.
unfoldable pub skip_column : Decode (Unit {0})
unfolding bytes u8 ◌>>=◌ pure
skip_column = bytes >>= λ _. u8 >>= λ _. pure tt

unfoldable pub skip_columns : ℕ → Decode (Unit {0})
unfolding skip_column ◌>>=◌ pure
skip_columns zero = pure tt
skip_columns (suc count) = skip_column >>= λ _. skip_columns count

unfoldable pub decode_name : Decode Text
unfolding bytes u8 u32 skip_columns ◌>>=◌ lift pure
decode_name = bytes >>= λ bs. lift (or_corrupt (from_utf8 bs)) >>= λ name.
    bytes >>= λ _. u8 >>= λ _. u32 >>= λ count. skip_columns count >>= λ _. pure name

module _ ⦃crates : Crates⦄ where
  -- The loop over values and columns, as long as there are both.
  unfoldable pub put_values : List ℕ → List Scalar → List IndexColumn → List ℕ
  unfolding encode_scalar is_desc
  put_values cols [] columns = cols
  put_values cols (value ∷ values) [] = cols
  put_values cols (value ∷ values) (column ∷ columns) =
      put_values (encode_scalar cols value (is_desc column.direction)) values columns

  unfoldable pub encode_columns : IndexDef → List Scalar → List ℕ
  unfolding put_values
  encode_columns def values = put_values [] values def.columns
