-- ===== src/Engine/TableKey.antt =====
-- crates/stratodb/src/engine/table_key.rs: the key of an entry, its encoding and its order. An
-- `IndexId` is its number.
mod Tag
pub mod RoundTrip
pub mod Order
use stratodb.Base.{
  ℕ, ◌-◌, List, [], ◌∷◌, ◌++◌, length, take, drop, Option, some, none, Ordering, compare, ltb, ◌==◌,
  if◌then◌else◌, lex, and_then, be_value, Text, from_utf8,
}
use stratodb.Error.{SdbResult, ok, err, corrupt, ◌>>=◌}
use stratodb.Crates.{Crates}
use stratodb.Codec.{push, extend, put_u32}
use stratodb.Key.{Skey, into_bytes, from_bytes}
use stratodb.Engine.TableKey.Tag

-- Splits the number of an index off the front.
unfoldable pub split_id : List ℕ → SdbResult (ℕ × List ℕ)
split_id body =
    if ltb (length body) 4 then err corrupt else ok (be_value (take 4 body), drop 4 body)

module _ ⦃crates : Crates⦄ where
  pub data TableKey : Type 0 where
    data_key : Skey → TableKey
    child : Skey → Text → TableKey
    index : ℕ → List ℕ → Option Skey → TableKey

  unfoldable pub tag : TableKey → ℕ
  tag (data_key k) = Tag.data_key
  tag (child parent name) = Tag.child
  tag (index id cols (some entity)) = Tag.index_dup
  tag (index id cols none) = Tag.index_unique

  unfoldable pub encode : TableKey → List ℕ
  unfolding into_bytes put_u32
  encode (data_key k) = extend (push [] Tag.data_key) (into_bytes k)
  encode (child parent name) = extend (extend (push [] Tag.child) (into_bytes parent)) name
  encode (index id cols (some entity)) =
      extend (extend (put_u32 (push [] Tag.index_dup) id) cols) (into_bytes entity)
  encode (index id cols none) = extend (put_u32 (push [] Tag.index_unique) id) cols

  unfoldable pub decode_data : List ℕ → SdbResult TableKey
  unfolding from_bytes
  decode_data rest = if length rest == 16 then ok (data_key (from_bytes rest)) else err corrupt

  unfoldable pub decode_child : List ℕ → SdbResult TableKey
  unfolding from_bytes
  decode_child rest =
      if ltb (length rest) 16 then err corrupt else elim (from_utf8 (drop 16 rest)) [
        | none ↦ err corrupt
        | some name ↦ ok (child (from_bytes (take 16 rest)) name)
      ]

  unfoldable pub decode_dup : ℕ × List ℕ → SdbResult TableKey
  unfolding from_bytes
  decode_dup (id, body) =
      if ltb (length body) 16
      then err corrupt
      else let at = length body - 16 in
        ok (index id (take at body) (some (from_bytes (drop at body))))

  abbrev pub decode_unique : ℕ × List ℕ → SdbResult TableKey
  decode_unique (id, cols) = ok (index id cols none)

  -- The four arms of the match on the tag.
  unfoldable pub decode : List ℕ → SdbResult TableKey
  unfolding decode_data decode_child decode_dup split_id
  decode [] = err corrupt
  decode (t ∷ rest) =
      if t == Tag.data_key
      then decode_data rest
      else if t == Tag.child
      then decode_child rest
      else if t == Tag.index_dup
      then split_id rest >>= decode_dup
      else if t == Tag.index_unique
      then split_id rest >>= decode_unique
      else err corrupt

  unfoldable pub cmp_entity : Option Skey → Option Skey → Ordering
  unfolding into_bytes
  cmp_entity (some x) (some y) = lex (into_bytes x) (into_bytes y)
  cmp_entity _ _ = Ordering.eq

  unfoldable pub cmp_fields : TableKey → TableKey → Ordering
  unfolding into_bytes cmp_entity
  cmp_fields (data_key a) (data_key b) = lex (into_bytes a) (into_bytes b)
  cmp_fields (child pa na) (child pb nb) =
      and_then (lex (into_bytes pa) (into_bytes pb)) (lex na nb)
  cmp_fields (index ia ca ea) (index ib cb eb) =
      and_then (compare ia ib) (and_then (lex ca cb) (cmp_entity ea eb))
  cmp_fields _ _ = Ordering.eq

  -- `Ord::cmp`, on the fields.
  unfoldable pub cmp : TableKey → TableKey → Ordering
  unfolding tag cmp_fields
  cmp a b = and_then (compare (tag a) (tag b)) (cmp_fields a b)
