-- ===== src/Engine/TableKey/Order.antt =====
-- `Ord` on the fields of keys, against the bytewise order of their encodings.
use stratodb.Base.{
  ℕ, ◌<◌, ◌^◌, ◌≡◌, refl, sym, List, [], ◌∷◌, ◌++◌, append_assoc, append-nil, lex-prefix, ◌∙◌, some,
  none, Ordering, compare, lex, lex?, lex?-append, lex?_same_length, lex?-be_bytes, and_then,
  be_bytes, arith,
}
use stratodb.Crates.{Crates}
use stratodb.Codec.{put_u32}
use stratodb.Key.{Skey, into_bytes}
use stratodb.Engine.TableKey.Tag
use stratodb.Engine.TableKey.{
  TableKey, data_key, child, index, encode, tag, cmp, cmp_fields, cmp_entity,
}
use stratodb.Engine.TableKey.RoundTrip.{IsKey, length-into_bytes}

module _ ⦃crates : Crates⦄ where
  -- The columns of two entries of one index whose keys end in an entity: neither is a proper
  -- prefix of the other.
  abbrev pub AreSplit : TableKey → TableKey → Type 0
  AreSplit (index ia ca (some _)) (index ib cb (some _)) = ia ≡ ib → lex? ca cb ≡ some (lex ca cb)
  AreSplit _ _ = Unit

  -- What follows the tag.
  unfoldable pub fields : TableKey → List ℕ
  unfolding put_u32
  fields (data_key k) = into_bytes k
  fields (child parent name) = into_bytes parent ++ name
  fields (index id cols (some entity)) = be_bytes 4 id ++ (cols ++ into_bytes entity)
  fields (index id cols none) = be_bytes 4 id ++ cols

  pub encode-fields : (k : TableKey) → encode k ≡ tag k ∷ fields k
  unfolding encode tag fields
  encode-fields (data_key k) = refl
  encode-fields (child parent name) = refl
  encode-fields (index id cols (some entity)) =
      rw (append_assoc (be_bytes 4 id) cols (into_bytes entity))
  encode-fields (index id cols none) = refl

  lex-keys :
      (a b : Skey) (s t : List ℕ)
      → lex (into_bytes a ++ s) (into_bytes b ++ t)
        ≡ and_then (lex (into_bytes a) (into_bytes b)) (lex s t)
  lex-keys a b s t = lex?-append (into_bytes a) (into_bytes b) s t _ (
      lex?_same_length (into_bytes a) (into_bytes b)
        (omega (arith, length-into_bytes a, length-into_bytes b)))

  lex-ids :
      (ia ib : ℕ) (s t : List ℕ)
      → ia < 2 ^ 32
      → ib < 2 ^ 32
      → lex (be_bytes 4 ia ++ s) (be_bytes 4 ib ++ t) ≡ and_then (compare ia ib) (lex s t)
  lex-ids ia ib s t ha hb =
      lex?-append (be_bytes 4 ia) (be_bytes 4 ib) s t _ (lex?-be_bytes 4 ia ib ha hb)

  and_then-compare :
      (a b : ℕ) (x y : Ordering)
      → (a ≡ b → x ≡ y)
      → and_then (compare a b) x ≡ and_then (compare a b) y
  and_then-compare a b x y h = ground arith

  and_then_eq : (o : Ordering) → and_then o Ordering.eq ≡ o
  and_then_eq o = ground arith

  lex-fields :
      (a b : TableKey)
      → IsKey a
      → IsKey b
      → AreSplit a b
      → cmp a b ≡ lex (tag a ∷ fields a) (tag b ∷ fields b)
  unfolding tag cmp cmp_fields cmp_entity fields lex
  lex-fields (data_key a) (data_key b) ta tb split = refl
  lex-fields (child pa na) (child pb nb) ta tb split = rw (lex-keys pa pb na nb) refl
  lex-fields (index ia ca (some ea)) (index ib cb (some eb)) ta tb split =
      rw (lex-ids ia ib (ca ++ into_bytes ea) (cb ++ into_bytes eb) ta tb) (
        and_then-compare ia ib _ _
          (λ same. sym (lex?-append ca cb (into_bytes ea) (into_bytes eb) _ (split same))))
  lex-fields (index ia ca none) (index ib cb none) ta tb split =
      rw (lex-ids ia ib ca cb ta tb, and_then_eq (lex ca cb)) refl
  lex-fields (data_key a) (child pb nb) ta tb split = refl
  lex-fields (data_key a) (index ib cb (some eb)) ta tb split = refl
  lex-fields (data_key a) (index ib cb none) ta tb split = refl
  lex-fields (child pa na) (data_key b) ta tb split = refl
  lex-fields (child pa na) (index ib cb (some eb)) ta tb split = refl
  lex-fields (child pa na) (index ib cb none) ta tb split = refl
  lex-fields (index ia ca none) (data_key b) ta tb split = refl
  lex-fields (index ia ca none) (child pb nb) ta tb split = refl
  lex-fields (index ia ca none) (index ib cb (some eb)) ta tb split = refl
  lex-fields (index ia ca (some ea)) (data_key b) ta tb split = refl
  lex-fields (index ia ca (some ea)) (child pb nb) ta tb split = refl
  lex-fields (index ia ca (some ea)) (index ib cb none) ta tb split = refl

  -- Well-typed keys compare on their fields as their encodings do bytewise, but for two entries of one
  -- non-unique index where the columns of one are a proper prefix of the other's.
  pub cmp-encode :
      (a b : TableKey) → IsKey a → IsKey b → AreSplit a b → cmp a b ≡ lex (encode a) (encode b)
  cmp-encode a b ta tb split = rw (encode-fields a, encode-fields b) (lex-fields a b ta tb split)

  lex-extension :
      (cols : List ℕ) (b : ℕ) (more : List ℕ) → lex cols (cols ++ b ∷ more) ≡ Ordering.lt
  lex-extension cols b more =
      rw (append-nil cols) at (lex-prefix cols [] (b ∷ more)) ∙ unfold lex in refl

  on_fields :
      (id : ℕ) (cols : List ℕ) (b : ℕ) (more : List ℕ) (x y : Skey)
      → cmp (index id cols (some x)) (index id (cols ++ b ∷ more) (some y)) ≡ Ordering.lt
  unfolding cmp cmp_fields tag
  on_fields id cols b more x y = rw (lex-extension cols b more) (ground arith)

  on_bytes :
      (id : ℕ) (cols : List ℕ) (b : ℕ) (more : List ℕ) (x y : Skey) (first : ℕ) (others : List ℕ)
      → into_bytes x ≡ first ∷ others
      → b < first
      → lex
          (Tag.index_dup ∷ fields (index id cols (some x)))
          (Tag.index_dup ∷ fields (index id (cols ++ b ∷ more) (some y)))
        ≡ Ordering.gt
  unfolding lex fields
  on_bytes id cols b more x y first others starts less =
      rw
        (
          append_assoc cols (b ∷ more) (into_bytes y),
          lex-prefix (be_bytes 4 id) (cols ++ into_bytes x) (cols ++ (b ∷ (more ++ into_bytes y))),
          lex-prefix cols (into_bytes x) (b ∷ (more ++ into_bytes y)),
          starts,
        )
        (ground arith)

  -- Two entries of one non-unique index, where the columns of the first are a proper prefix of the
  -- second's and its entity begins with a greater byte than the one that they go on with: `Ord`
  -- puts the first before the second, and the bytes of their encodings put it behind.
  pub cmp_disagrees :
      (id : ℕ) (cols : List ℕ) (b : ℕ) (more : List ℕ) (x y : Skey) (first : ℕ) (others : List ℕ)
      → into_bytes x ≡ first ∷ others
      → b < first
      → (cmp (index id cols (some x)) (index id (cols ++ b ∷ more) (some y)) ≡ Ordering.lt)
        × (lex (encode (index id cols (some x))) (encode (index id (cols ++ b ∷ more) (some y)))
            ≡ Ordering.gt)
  unfolding tag
  cmp_disagrees id cols b more x y first others starts less = (
    on_fields id cols b more x y,
    rw
        (
          encode-fields (index id cols (some x)),
          encode-fields (index id (cols ++ b ∷ more) (some y)),
        )
        (on_bytes id cols b more x y first others starts less),
  )
