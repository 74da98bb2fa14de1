-- ===== src/Tests/Entries.antt =====
-- Keys and values of a table's entries.
use stratodb.Base.{
  ◌≡◌, refl, [], ◌∷◌, ◌++◌, some, none, Ordering, lex, lex?, is_utf8, be_bytes, be_value, arith,
}
use stratodb.Error.{ok}
use stratodb.Codec.{put_bytes, put_u32}
use stratodb.Key.{Skey, into_bytes}
use stratodb.Node.{Node, NodeKind, as_tag}
use stratodb.Engine.TableKey.{child, index, encode, decode, cmp, split_id}
use stratodb.Engine.TableKey.RoundTrip.{decode_key-encode, encode-decode_key}
use stratodb.Engine.TableKey.Order.{cmp-encode, cmp_disagrees}
use stratodb.Engine.TableValue.{
  TableValue, node, encode as encode_value, encode_node, decode as decode_value,
}
use stratodb.Engine.TableValue.RoundTrip.{decode_value-encode}
use stratodb.Tests.Toy.{toy_crates, as_bytes}

abbrev pub small_key : Skey
unfolding toy_crates
small_key = record { uuid = record { value = 7; fits = refl } }

-- The first byte is 255.
abbrev pub large_key : Skey
unfolding toy_crates
large_key = record {
  uuid = record { value = 338953138925153547590470800371487866880; fits = refl };
}

decode_key-encode_example :
    decode (encode (child small_key (104 ∷ 105 ∷ []))) ≡ ok (child small_key (104 ∷ 105 ∷ []))
unfolding is_utf8
decode_key-encode_example = decode_key-encode (child small_key (104 ∷ 105 ∷ [])) refl

cmp-encode_example :
    cmp (index 3 (1 ∷ 2 ∷ []) (some small_key)) (index 3 (1 ∷ 4 ∷ []) (some small_key))
    ≡ lex
        (encode (index 3 (1 ∷ 2 ∷ []) (some small_key)))
        (encode (index 3 (1 ∷ 4 ∷ []) (some small_key)))
unfolding lex lex?
cmp-encode_example =
    cmp-encode (index 3 (1 ∷ 2 ∷ []) (some small_key)) (index 3 (1 ∷ 4 ∷ []) (some small_key))
      (omega arith) (omega arith) (λ _. refl)

cmp_disagrees_example :
    (cmp (index 3 (1 ∷ []) (some large_key)) (index 3 (1 ∷ 2 ∷ []) (some small_key)) ≡ Ordering.lt)
    × (lex
          (encode (index 3 (1 ∷ []) (some large_key)))
          (encode (index 3 (1 ∷ 2 ∷ []) (some small_key)))
        ≡ Ordering.gt)
unfolding into_bytes toy_crates as_bytes be_bytes
cmp_disagrees_example =
    cmp_disagrees 3 (1 ∷ []) 2 [] large_key small_key 255
      (0 ∷ 0 ∷ 0 ∷ 0 ∷ 0 ∷ 0 ∷ 0 ∷ 0 ∷ 0 ∷ 0 ∷ 0 ∷ 0 ∷ 0 ∷ 0 ∷ 0 ∷ []) refl (omega arith)

encode-decode_key_example : encode (index 5 (9 ∷ []) none) ≡ 3 ∷ 0 ∷ 0 ∷ 0 ∷ 5 ∷ 9 ∷ []
unfolding decode split_id be_value
encode-decode_key_example =
    encode-decode_key (3 ∷ 0 ∷ 0 ∷ 0 ∷ 5 ∷ 9 ∷ []) (index 5 (9 ∷ []) none)
      (omega arith, (omega arith, (omega arith, (omega arith, (omega arith, (omega arith, tt))))))
      refl

abbrev pair : TableValue
pair = node (Node.packed NodeKind.list (1 ∷ 2 ∷ []))

decode_value-encode_example : decode_value (encode_value [] pair ++ 5 ∷ []) ≡ ok pair
unfolding encode_value encode_node put_bytes put_u32 as_tag be_bytes
decode_value-encode_example = decode_value-encode pair (5 ∷ []) (omega arith) (omega arith)
