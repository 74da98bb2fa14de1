-- ===== src/Engine/TableValue/RoundTrip.antt =====
-- Reading back what `TableValueRef::encode` wrote.
use stratodb.Base.{
  ℕ, ◌%◌, ◌^◌, ◌<◌, ◌≡◌, refl, sym, ◌∙◌, List, [], ◌∷◌, ◌++◌, append_assoc, append-nil, length,
  arith, be_bytes,
}
use stratodb.Error.{ok}
use stratodb.Crates.{Crates}
use stratodb.Codec.{u8, ◌>>=◌, extend, put_u32}
use stratodb.Codec.Reads.{
  Reads, Reads-pure, Reads-lift, Reads-bind, Reads-bind_last, Reads-u8, Reads-u32, Reads-array,
  Reads-bytes, put_bytes-run, run, IsAt-new,
}
use stratodb.Key.{Skey, into_bytes, from_bytes-into_bytes, into_bytes-IsArray}
use stratodb.Scalar.{IsWellTyped, IsStorable}
use stratodb.Scalar.RoundTrip.{image, Reads-image, encode-append, Reads-map}
use stratodb.Node.{Node, NodeKind, as_tag, from_tag-as_tag}
use stratodb.Engine.TableValue.Tag
use stratodb.Engine.TableValue.{
  TableValue, node, skey, nothing, put_items, encode_node, encode, read_items, decode_node_body,
  decode_packed, decode_list, decode_node, decode_value_body, decode,
}

module _ ⦃crates : Crates⦄ where
  -- What the format can hold: list counts and blob lengths of 32 bits, storable scalars.
  abbrev pub IsNodeStorable : Node → Type 0
  IsNodeStorable Node.object = Unit
  IsNodeStorable (Node.list items) = length items < 2 ^ 32
  IsNodeStorable (Node.leaf s) = IsWellTyped s × IsStorable s
  IsNodeStorable (Node.packed root blob) = length blob < 2 ^ 32

  abbrev pub IsValueStorable : TableValue → Type 0
  IsValueStorable (node n) = IsNodeStorable n
  IsValueStorable (skey k) = Unit
  IsValueStorable nothing = Unit

  abbrev items_image : List Skey → List ℕ
  items_image [] = []
  items_image (key ∷ items) = into_bytes key ++ items_image items

  put_items-image :
      (buf : List ℕ) (items : List Skey) → put_items buf items ≡ buf ++ items_image items
  unfolding put_items
  put_items-image buf [] = sym (append-nil buf)
  put_items-image buf (key ∷ items) =
      put_items-image (extend buf (into_bytes key)) items
      ∙ append_assoc buf (into_bytes key) (items_image items)

  abbrev node_image : Node → List ℕ
  node_image Node.object = Tag.object ∷ []
  node_image (Node.list items) = Tag.list ∷ (be_bytes 4 (length items) ++ items_image items)
  node_image (Node.leaf s) = Tag.leaf ∷ image s
  node_image (Node.packed root blob) = Tag.packed ∷ (as_tag root ∷ run blob)

  encode_node-image :
      (buf : List ℕ) (n : Node) → IsNodeStorable n → encode_node buf n ≡ buf ++ node_image n
  unfolding encode_node put_u32
  encode_node-image buf Node.object h = refl
  encode_node-image buf (Node.list items) h =
      let small : length items % 2 ^ 32 ≡ length items = omega arith in
      rw
        (
          small,
          put_items-image ((buf ++ Tag.list ∷ []) ++ be_bytes 4 (length items)) items,
          append_assoc (buf ++ Tag.list ∷ []) (be_bytes 4 (length items)) (items_image items),
        )
        (append_assoc buf (Tag.list ∷ []) (be_bytes 4 (length items) ++ items_image items))
  encode_node-image buf (Node.leaf s) h =
      encode-append (buf ++ Tag.leaf ∷ []) s h.1 ∙ append_assoc buf (Tag.leaf ∷ []) (image s)
  encode_node-image buf (Node.packed root blob) h =
      put_bytes-run ((buf ++ Tag.packed ∷ []) ++ as_tag root ∷ []) blob h
      ∙ append_assoc (buf ++ Tag.packed ∷ []) (as_tag root ∷ []) (run blob)
      ∙ append_assoc buf (Tag.packed ∷ []) (as_tag root ∷ run blob)

  Reads-items : (items : List Skey) → Reads (read_items (length items)) (items_image items) items
  unfolding read_items
  Reads-items [] = Reads-pure []
  Reads-items (key ∷ items) =
      Reads-bind _ _ (into_bytes key) (items_image items) (into_bytes key) (key ∷ items)
        (Reads-array 16 (into_bytes key) (into_bytes-IsArray key).0)
        (Reads-bind_last _ _ (items_image items) items (key ∷ items) (Reads-items items)
          (rw (from_bytes-into_bytes key) (Reads-pure (key ∷ items))))

  Reads-decode_packed :
      (root : NodeKind) (blob : List ℕ)
      → length blob < 2 ^ 32
      → Reads decode_packed (as_tag root ∷ run blob) (Node.packed root blob)
  unfolding decode_packed
  Reads-decode_packed root blob h =
      Reads-bind _ _ (as_tag root ∷ []) (run blob) (as_tag root) (Node.packed root blob)
        (Reads-u8 (as_tag root))
        (Reads-bind _ _ [] (run blob) root (Node.packed root blob)
          (Reads-lift _ root (from_tag-as_tag root))
          (Reads-map _ (Node.packed root) (run blob) blob (Reads-bytes blob h)))

  Reads-decode_list :
      (items : List Skey)
      → length items < 2 ^ 32
      → Reads decode_list (be_bytes 4 (length items) ++ items_image items) (Node.list items)
  unfolding decode_list
  Reads-decode_list items h =
      Reads-bind _ _ (be_bytes 4 (length items)) (items_image items) (length items)
        (Node.list items) (Reads-u32 (length items) h)
        (Reads-map _ Node.list (items_image items) items (Reads-items items))

  Reads-node_tagged :
      (tag : ℕ) (bs : List ℕ) (n : Node)
      → Reads (decode_node_body tag) bs n
      → Reads decode_node (tag ∷ bs) n
  unfolding decode_node
  Reads-node_tagged tag bs n h = Reads-bind _ _ (tag ∷ []) bs tag n (Reads-u8 tag) h

  Reads-decode_node : (n : Node) → IsNodeStorable n → Reads decode_node (node_image n) n
  unfolding decode_node_body
  Reads-decode_node Node.object h = Reads-node_tagged _ _ _ (Reads-pure Node.object)
  Reads-decode_node (Node.list items) h = Reads-node_tagged _ _ _ (Reads-decode_list items h)
  Reads-decode_node (Node.leaf s) h =
      Reads-node_tagged _ _ _ (Reads-map _ Node.leaf (image s) s (Reads-image s h.0 h.1))
  Reads-decode_node (Node.packed root blob) h =
      Reads-node_tagged _ _ _ (Reads-decode_packed root blob h)

  value_image : TableValue → List ℕ
  value_image (node n) = Tag.node ∷ node_image n
  value_image (skey k) = Tag.skey ∷ into_bytes k
  value_image nothing = Tag.nothing ∷ []

  encode-image :
      (buf : List ℕ) (v : TableValue) → IsValueStorable v → encode buf v ≡ buf ++ value_image v
  unfolding encode value_image
  encode-image buf (node n) h =
      encode_node-image (buf ++ Tag.node ∷ []) n h ∙ append_assoc buf (Tag.node ∷ []) (node_image n)
  encode-image buf (skey k) h = append_assoc buf (Tag.skey ∷ []) (into_bytes k)
  encode-image buf nothing h = refl

  Reads-value :
      (v : TableValue) → IsValueStorable v → Reads (u8 >>= decode_value_body) (value_image v) v
  unfolding decode_value_body value_image
  Reads-value (node n) h =
      Reads-bind _ _ (Tag.node ∷ []) (node_image n) Tag.node (node n) (Reads-u8 Tag.node)
        (Reads-map _ node (node_image n) n (Reads-decode_node n h))
  Reads-value (skey k) h =
      Reads-bind _ _ (Tag.skey ∷ []) (into_bytes k) Tag.skey (skey k) (Reads-u8 Tag.skey) (
        Reads-bind_last _ _ (into_bytes k) (into_bytes k) (skey k)
          (Reads-array 16 (into_bytes k) (into_bytes-IsArray k).0)
          (rw (from_bytes-into_bytes k) (Reads-pure (skey k))))
  Reads-value nothing h =
      Reads-bind _ _ (Tag.nothing ∷ []) [] Tag.nothing nothing (Reads-u8 Tag.nothing)
        (Reads-pure nothing)

  -- A value that was encoded decodes to itself, whatever bytes stand behind it: its lists have less
  -- than 2^32 elements, its blob less than 2^32 bytes, its scalar can be stored, and the whole
  -- has less than 2^64 bytes.
  pub decode_value-encode :
      (v : TableValue) (rest : List ℕ)
      → IsValueStorable v
      → length (encode [] v ++ rest) < 2 ^ 64
      → decode (encode [] v ++ rest) ≡ ok v
  unfolding decode
  decode_value-encode v rest h fits =
      let same = encode-image [] v h in
      rw (same, (Reads-value v h).at _ rest (IsAt-new (value_image v ++ rest) (rw same at fits)))
        refl
