-- ===== src/Tests/Scalars.antt =====
-- Scalars that are stored, read back and put in order.
use stratodb.Base.{
  ◌≡◌, refl, [], ◌∷◌, ◌++◌, length, pos, negsuc, lex, and_then, is_utf8, be_bytes, arith, true,
}
use stratodb.Error.{ok, panic}
use stratodb.Codec.Lengths.{bytes-put_bytes}
use stratodb.Codec.{bytes, push, extend, put_u32, put_bytes}
use stratodb.Codec.Safety.{Ends, Any}
use stratodb.Scalar.{Scalar, IsWellTyped}
use stratodb.Scalar.Codec.{encode, decode}
use stratodb.Scalar.RoundTrip.{decode-encode}
use stratodb.Scalar.Safety.{decode_safe, decode_panics, duration_image}
use stratodb.Index.Ordered.{encode_scalar}
use stratodb.Index.Ordered.Reference.{column_cmp}
use stratodb.Index.Ordered.Order.{encode_scalar_order}
use stratodb.Tests.Toy.{toy_crates, seconds}

abbrev hi : Scalar
hi = Scalar.str (104 ∷ 105 ∷ [])

abbrev hello : Scalar
hello = Scalar.str (104 ∷ 0 ∷ 33 ∷ [])

hi-IsWellTyped : IsWellTyped hi
unfolding is_utf8
hi-IsWellTyped = ((omega arith, (omega arith, tt)), refl)

hello-IsWellTyped : IsWellTyped hello
unfolding is_utf8
hello-IsWellTyped = ((omega arith, (omega arith, (omega arith, tt))), refl)

decode-encode_example :
    decode (record { buf = encode (7 ∷ []) hi ++ 9 ∷ []; pos = 1 })
    ≡ ok (hi, record { buf = encode (7 ∷ []) hi ++ 9 ∷ []; pos = length (encode (7 ∷ []) hi) })
unfolding encode put_bytes put_u32 push extend be_bytes
decode-encode_example =
    decode-encode (7 ∷ []) hi (9 ∷ []) hi-IsWellTyped (omega arith) (omega arith)

decode_safe_example :
    Ends Any (record { buf = 3 ∷ 1 ∷ []; pos = 0 }) (decode (record { buf = 3 ∷ 1 ∷ []; pos = 0 }))
decode_safe_example = decode_safe (record { buf = 3 ∷ 1 ∷ []; pos = 0 }) (omega arith) (λ e. cc)

decode_panics_example :
    decode (record { buf = (7 ∷ [] ++ duration_image (negsuc 4) (pos 0)) ++ []; pos = 1 }) ≡ panic
unfolding toy_crates seconds duration_image be_bytes
decode_panics_example =
    decode_panics (7 ∷ []) [] (negsuc 4) (pos 0) (omega arith) (omega arith) refl (omega arith)

encode_scalar_order_example :
    lex (encode_scalar (1 ∷ []) hi true ++ 5 ∷ []) (encode_scalar (1 ∷ []) hello true ++ 4 ∷ [])
    ≡ and_then (column_cmp true hi hello) (lex (5 ∷ []) (4 ∷ []))
encode_scalar_order_example =
    encode_scalar_order (1 ∷ []) true hi hello (5 ∷ []) (4 ∷ []) hi-IsWellTyped hello-IsWellTyped

bytes-put_bytes_example :
    bytes (record { buf = put_bytes (7 ∷ []) (1 ∷ 2 ∷ []) ++ 9 ∷ []; pos = 1 })
    ≡ ok (1 ∷ 2 ∷ [], record { buf = put_bytes (7 ∷ []) (1 ∷ 2 ∷ []) ++ 9 ∷ []; pos = 7 })
unfolding put_bytes put_u32 be_bytes
bytes-put_bytes_example = bytes-put_bytes (7 ∷ []) (1 ∷ 2 ∷ []) (9 ∷ []) (omega arith)
