-- ===== src/Tests/Indexes.antt =====
-- Definitions and rows of indexes.
use stratodb.Base.{
  lex?, some, ◌≡◌, refl, List, [], ◌∷◌, ◌++◌, length, true, false, and_then, lex, is_utf8, text_eq,
  contains, be_bytes, pos, All, arith,
}
use stratodb.Error.{name, ok}
use stratodb.Codec.{put_bytes, put_u32}
use stratodb.Scalar.{Scalar, IsWellTyped}
use stratodb.Spath.Display.{show}
use stratodb.Spath.Canonical.{IsName}
use stratodb.Engine.TableKey.{cmp, encode as encode_key}
use stratodb.Index.Definition.{
  encode_columns, IndexDef, asc, desc, encode, decode, decode_name, put_columns, to_byte,
}
use stratodb.Index.Definition.RoundTrip.{IsDefinition, decode_def-encode}
use stratodb.Index.Definition.Name.{decode_name-decode}
use stratodb.Index.Keys.{index_key, index_key_order, row_cmp, tie, encode_columns_order}
use stratodb.Tests.Toy.{toy_crates}
use stratodb.Tests.Entries.{small_key, large_key}

-- An index `i` on the fields `a` and `b` of the entities that `u` matches.
abbrev pub by_a : IndexDef
by_a = record {
  name = 105 ∷ [];
  pattern = 117 ∷ [];
  columns =
      record { path = record { segments = name (97 ∷ []) ∷ [] }; direction = asc }
      ∷ record { path = record { segments = name (98 ∷ []) ∷ [] }; direction = desc }
      ∷ [];
  unique = false;
}

is_a : IsName (97 ∷ [])
unfolding text_eq contains
is_a = record {
  filled = λ e. cc;
  no_slash = refl;
  no_open = refl;
  no_close = refl;
  no_dot = refl;
  no_dot_dot = refl;
}

is_b : IsName (98 ∷ [])
unfolding text_eq contains
is_b = record {
  filled = λ e. cc;
  no_slash = refl;
  no_open = refl;
  no_close = refl;
  no_dot = refl;
  no_dot_dot = refl;
}

pub by_a-IsDefinition : IsDefinition by_a
unfolding is_utf8 show
by_a-IsDefinition = record {
  name_ok = (refl, omega arith);
  pattern_ok = (refl, omega arith);
  columns_ok = (((is_a, tt), (refl, omega arith)), (((is_b, tt), (refl, omega arith)), tt));
  count_ok = omega arith;
}

by_a-decoded :
    decode (record { buf = encode (7 ∷ []) by_a ++ 9 ∷ []; pos = 1 })
    ≡ ok
        (by_a, record { buf = encode (7 ∷ []) by_a ++ 9 ∷ []; pos = length (encode (7 ∷ []) by_a) })
unfolding encode put_bytes put_u32 put_columns to_byte be_bytes show
by_a-decoded = decode_def-encode (7 ∷ []) by_a (9 ∷ []) by_a-IsDefinition (omega arith)

decode_name-decode_example :
    decode_name (record { buf = encode (7 ∷ []) by_a ++ 9 ∷ []; pos = 1 })
    ≡ ok (
      105 ∷ [],
      record { buf = encode (7 ∷ []) by_a ++ 9 ∷ []; pos = length (encode (7 ∷ []) by_a) },
    )
decode_name-decode_example =
    decode_name-decode (record { buf = encode (7 ∷ []) by_a ++ 9 ∷ []; pos = 1 })
      (record { buf = encode (7 ∷ []) by_a ++ 9 ∷ []; pos = length (encode (7 ∷ []) by_a) }) by_a
      by_a-decoded

abbrev low : List Scalar
low = Scalar.i32 (pos 3) ∷ Scalar.bool true ∷ []

abbrev high : List Scalar
high = Scalar.i32 (pos 3) ∷ Scalar.bool false ∷ []

low-All : All IsWellTyped low
low-All = (omega arith, (tt, tt))

high-All : All IsWellTyped high
high-All = (omega arith, (tt, tt))

index_key_order_example :
    (cmp (index_key 4 by_a low small_key).0 (index_key 4 by_a high large_key).0
      ≡ and_then (row_cmp by_a.columns low high) (tie false small_key large_key))
    × (lex
          (encode_key (index_key 4 by_a low small_key).0)
          (encode_key (index_key 4 by_a high large_key).0)
        ≡ and_then (row_cmp by_a.columns low high) (tie false small_key large_key))
index_key_order_example =
    index_key_order 4 by_a low high small_key large_key (omega arith) refl low-All high-All

encode_columns_order_example :
    lex? (encode_columns by_a low) (encode_columns by_a high) ≡ some (row_cmp by_a.columns low high)
encode_columns_order_example = encode_columns_order by_a low high refl low-All high-All
