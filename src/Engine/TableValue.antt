-- ===== src/Engine/TableValue.antt =====
-- crates/stratodb/src/engine/table_value.rs: the value of an entry. `TableValueRef` and `NodeRef`
-- borrow what `TableValue` and `Node` own, so each pair is one type here, and `as_ref` and
-- `into_owned` leave a value as it is.
mod Tag
pub mod RoundTrip
use stratodb.Base.{ℕ, zero, suc, ◌%◌, ◌^◌, List, [], ◌∷◌, length, ◌==◌, if◌then◌else◌}
use stratodb.Error.{SdbResult, ok, err, corrupt, ◌>>=◌ as bind_result}
use stratodb.Crates.{Crates}
use stratodb.Codec.{
  push, extend, put_u32, put_bytes, Decode, ◌>>=◌, pure, lift, new, u8, u32, array, bytes,
}
use stratodb.Key.{Skey, into_bytes, from_bytes}
use stratodb.Scalar.Codec.{encode as encode_scalar, decode as decode_scalar}
use stratodb.Node.{Node, NodeKind, as_tag, from_tag}
use stratodb.Engine.TableValue.Tag

module _ ⦃crates : Crates⦄ where
  pub data TableValue : Type 0 where
    node : Node → TableValue
    skey : Skey → TableValue
    nothing : TableValue

  -- The loop over the elements of a list.
  unfoldable pub put_items : List ℕ → List Skey → List ℕ
  unfolding into_bytes
  put_items buf [] = buf
  put_items buf (key ∷ items) = put_items (extend buf (into_bytes key)) items

  unfoldable pub encode_node : List ℕ → Node → List ℕ
  unfolding put_u32 put_bytes put_items encode_scalar as_tag
  encode_node buf Node.object = push buf Tag.object
  encode_node buf (Node.list items) =
      put_items (put_u32 (push buf Tag.list) (length items % 2 ^ 32)) items
  encode_node buf (Node.leaf scalar) = encode_scalar (push buf Tag.leaf) scalar
  encode_node buf (Node.packed root blob) =
      put_bytes (push (push buf Tag.packed) (as_tag root)) blob

  unfoldable pub encode : List ℕ → TableValue → List ℕ
  unfolding encode_node into_bytes
  encode buf (node n) = encode_node (push buf Tag.node) n
  encode buf (skey k) = extend (push buf Tag.skey) (into_bytes k)
  encode buf nothing = push buf Tag.nothing

  unfoldable pub read_items : ℕ → Decode (List Skey)
  unfolding array ◌>>=◌ pure from_bytes
  read_items zero = pure []
  read_items (suc count) =
      array 16 >>= λ key. read_items count >>= λ items. pure (from_bytes key ∷ items)

  unfoldable pub decode_packed : Decode Node
  unfolding u8 bytes ◌>>=◌ pure lift from_tag
  decode_packed =
      u8 >>= λ t. lift (from_tag t) >>= λ root. bytes >>= λ blob. pure (Node.packed root blob)

  unfoldable pub decode_list : Decode Node
  unfolding u32 ◌>>=◌ pure read_items
  decode_list = u32 >>= λ count. read_items count >>= λ items. pure (Node.list items)

  unfoldable pub decode_node_body : ℕ → Decode Node
  unfolding ◌>>=◌ pure lift decode_packed decode_list decode_scalar
  decode_node_body tag =
      if tag == Tag.object
      then pure Node.object
      else if tag == Tag.packed
      then decode_packed
      else if tag == Tag.list
      then decode_list
      else if tag == Tag.leaf
      then (decode_scalar >>= λ s. pure (Node.leaf s))
      else lift (err corrupt)

  -- `NodeRef::decode`: the match on the tag is `decode_node_body`.
  unfoldable pub decode_node : Decode Node
  unfolding u8 ◌>>=◌ decode_node_body
  decode_node = u8 >>= decode_node_body

  unfoldable pub decode_value_body : ℕ → Decode TableValue
  unfolding array ◌>>=◌ pure lift decode_node from_bytes
  decode_value_body tag =
      if tag == Tag.node
      then (decode_node >>= λ n. pure (node n))
      else if tag == Tag.skey
      then (array 16 >>= λ key. pure (skey (from_bytes key)))
      else if tag == Tag.nothing
      then pure nothing
      else lift (err corrupt)

  -- `TableValueRef::decode`: bytes behind the value are left unread.
  unfoldable pub decode : List ℕ → SdbResult TableValue
  unfolding u8 ◌>>=◌ decode_value_body new
  decode stored = bind_result ((u8 >>= decode_value_body) (new stored)) (λ p. ok p.0)
