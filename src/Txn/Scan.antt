-- ===== src/Txn/Scan.antt =====
-- `scan_prefix` of crates/stratodb/src/txn/read.rs breaks off at the first entry that does not match,
-- and misses none of the table. The table's order is that of the bytes of its keys.
pub mod Begins
use stratodb.Base.{
  both_true, ℕ, ◌≤◌, ◌<◌, ◌^◌, ◌≡◌, refl, sym, ap, subst, ◌∙◌, List, [], ◌∷◌, ◌++◌, append_assoc,
  append-nil, Bool, true, false, Bool-cases, inl, inr, ◌&&◌, ◌==◌, Option, none, some, Ordering,
  lex, lex-prefix, length, length-append, if◌then◌else◌, map, arith, be_bytes, length-be_bytes,
  be_bytes-All, be_value, be_value-be_bytes,
}
use stratodb.Error.{SdbResult, ok, ◌>>=◌}
use stratodb.Crates.{Crates}
use stratodb.Key.{Skey, into_bytes, from_bytes, into_bytes-from_bytes}
use stratodb.Engine.TableKey.{TableKey, data_key, child, index, tag, encode}
use stratodb.Engine.TableKey.Order.{fields, encode-fields}
use stratodb.Engine.TableKey.RoundTrip.{length-into_bytes}
use stratodb.Engine.TableValue.{TableValue}
use stratodb.Engine.Backend.{ReadNodes}
use stratodb.Txn.Query.{
  starts_with, covers, entity_of, scan_item, scan_items, scan_prefix, lower_key,
}
use stratodb.Txn.Scan.Begins.{
  starts_with_between, starts_with-same, starts_with-longer, starts_with-split, starts_with-parts,
  starts_with-either, lex-shorter, zeros, zeros_first,
}

module _ ⦃crates : Crates⦄ where
  -- The bytes of the key `a` do not stand behind those of the key `b`.
  abbrev pub NotBehind : TableKey → TableKey → Type 0
  NotBehind a b = lex (encode a) (encode b) ≡ Ordering.gt → ⊥

  abbrev pub BeforeAll : TableKey → List (TableKey × TableValue) → Type 0
  BeforeAll a [] = Unit
  BeforeAll a ((b, _) ∷ items) = NotBehind a b × BeforeAll a items

  abbrev pub Ascends : List (TableKey × TableValue) → Type 0
  Ascends [] = Unit
  Ascends ((a, _) ∷ items) = BeforeAll a items × Ascends items

  -- An entry of the index has the tag `t`, and its columns are no proper prefix of `prefix`; ids have
  -- 32 bits.
  abbrev pub IsEntryOf : ℕ → ℕ → List ℕ → TableKey → Type 0
  IsEntryOf id t prefix (index i cols entity) =
      (i < 2 ^ 32)
      × (i ≡ id
          → (tag (index i cols entity) ≡ t)
            × (starts_with cols prefix ≡ true → starts_with prefix cols ≡ true))
  IsEntryOf id t prefix _ = Unit

  abbrev pub AreEntriesOf : ℕ → ℕ → List ℕ → List (TableKey × TableValue) → Type 0
  AreEntriesOf id t prefix [] = Unit
  AreEntriesOf id t prefix ((a, _) ∷ items) =
      IsEntryOf id t prefix a × AreEntriesOf id t prefix items

  -- The entries of the table at a key or behind it.
  unfoldable pub from_bound : TableKey → List (TableKey × TableValue) → List (TableKey × TableValue)
  unfolding encode lex
  from_bound bound [] = []
  from_bound bound ((k, v) ∷ items) =
      let rest = from_bound bound items in
      elim (lex (encode bound) (encode k)) [ Ordering.gt ↦ rest | _ ↦ (k, v) ∷ rest ]

  -- The entities of all entries that match, wherever they stand.
  unfoldable pub all_hits : ℕ → List ℕ → List (TableKey × TableValue) → SdbResult (List Skey)
  unfolding covers entity_of
  all_hits id prefix [] = ok []
  all_hits id prefix ((k, v) ∷ items) =
      let rest = all_hits id prefix items in
      if covers id prefix k
      then (entity_of k v >>= λ entity. rest >>= λ entities. ok (entity ∷ entities))
      else rest

  is_equal : (a b : ℕ) → (a == b) ≡ true → a ≡ b
  is_equal a b h = ground arith

  -- The bytes that every matching entry begins with.
  abbrev head_of : ℕ → List ℕ → ℕ → List ℕ
  head_of id prefix t = t ∷ (be_bytes 4 id ++ prefix)

  -- What follows them in the first key.
  abbrev tail_of : Bool → List ℕ
  tail_of true = []
  tail_of false = zeros 16

  zero_bytes : into_bytes (from_bytes (be_bytes 16 0)) ≡ zeros 16
  unfolding be_bytes
  zero_bytes =
      into_bytes-from_bytes (be_bytes 16 0) (length-be_bytes 16 0, be_bytes-All 16 0 (omega arith))

  lower_bytes :
      (id : ℕ) (prefix : List ℕ) (unique : Bool)
      → encode (lower_key id prefix unique)
        ≡ head_of id prefix (tag (lower_key id prefix unique)) ++ tail_of unique
  unfolding lower_key tag fields
  lower_bytes id prefix true =
      encode-fields (index id prefix none) ∙ sym (append-nil (head_of id prefix _))
  lower_bytes id prefix false =
      encode-fields (index id prefix (some (from_bytes (be_bytes 16 0))))
      ∙ rw (zero_bytes, append_assoc (be_bytes 4 id) prefix (zeros 16)) refl

  covers-starts_with :
      (id t : ℕ) (prefix : List ℕ) (k : TableKey)
      → IsEntryOf id t prefix k
      → covers id prefix k ≡ true
      → starts_with (head_of id prefix t) (encode k) ≡ true
  unfolding covers starts_with fields
  covers-starts_with id t prefix (data_key k) h c = cc
  covers-starts_with id t prefix (child p n) h c = cc
  covers-starts_with id t prefix (index i cols entity) (fits, kind) c =
      let (first, later) = both_true (i == id) (starts_with prefix cols) c in
      let is_id : i ≡ id = ground arith in
      let (is_t, _) = kind is_id in
      subst (λ bs. starts_with (head_of id prefix t) bs ≡ true)
        (sym (encode-fields (index i cols entity))) (by_entity entity is_t is_id later)
    where
      by_entity :
          (entity : Option Skey)
          → tag (index i cols entity) ≡ t
          → i ≡ id
          → starts_with prefix cols ≡ true
          → starts_with
              (head_of id prefix t)
              (tag (index i cols entity) ∷ fields (index i cols entity))
            ≡ true
      by_entity none is_t is_id later =
          rw (is_t, is_id) (starts_with-same (t ∷ be_bytes 4 id) prefix cols later)
      by_entity (some e) is_t is_id later =
          rw (is_t, is_id)
            (starts_with-same (t ∷ be_bytes 4 id) prefix (cols ++ into_bytes e)
              (starts_with-longer prefix cols (into_bytes e) later))

  starts_with-covers :
      (id t : ℕ) (prefix : List ℕ) (j : TableKey)
      → 1 < t
      → id < 2 ^ 32
      → IsEntryOf id t prefix j
      → starts_with (head_of id prefix t) (encode j) ≡ true
      → covers id prefix j ≡ true
  unfolding covers starts_with tag fields
  starts_with-covers id t prefix (data_key k) large fits h s =
      let (first, _) = both_true (t == 0) _ (rw (encode-fields (data_key k)) at s) in
      absurd (omega (arith, is_equal t 0 first))
  starts_with-covers id t prefix (child p n) large fits h s =
      let (first, _) = both_true (t == 1) _ (rw (encode-fields (child p n)) at s) in
      absurd (omega (arith, is_equal t 1 first))
  starts_with-covers id t prefix (index i cols entity) large fits (small, kind) s =
      by_entity entity kind (rw (encode-fields (index i cols entity)) at s)
    where
      at_id :
          (rest : List ℕ)
          → starts_with (be_bytes 4 id ++ prefix) (be_bytes 4 i ++ rest) ≡ true
          → (i ≡ id) × (starts_with prefix rest ≡ true)
      at_id rest q =
          let (same, later) =
            starts_with-parts (be_bytes 4 id) prefix (be_bytes 4 i) rest
              (length-be_bytes 4 id ∙ sym (length-be_bytes 4 i)) q in
          (
            sym (be_value-be_bytes 4 i small)
                ∙ ap be_value (sym same)
                ∙ be_value-be_bytes 4 id fits,
            later,
          )

      hit : i ≡ id → starts_with prefix cols ≡ true → (i == id && starts_with prefix cols) ≡ true
      hit is_id later = let here : (i == id) ≡ true = ground arith in rw (here, later) refl

      by_entity :
          (entity : Option Skey)
          → (i ≡ id
              → (tag (index i cols entity) ≡ t)
                × (starts_with cols prefix ≡ true → starts_with prefix cols ≡ true))
          → starts_with
              (head_of id prefix t)
              (tag (index i cols entity) ∷ fields (index i cols entity))
            ≡ true
          → (i == id && starts_with prefix cols) ≡ true
      by_entity none kind s =
          let (_, behind) = both_true _ _ s in
          let (is_id, later) = at_id cols behind in hit is_id later
      by_entity (some e) kind s =
          let (_, behind) = both_true _ _ s in
          let (is_id, later) = at_id (cols ++ into_bytes e) behind in
          elim (starts_with-either prefix cols (into_bytes e) later) [
            | inl shorter ↦ hit is_id shorter
            | inr longer ↦ hit is_id ((kind is_id).1 longer)
          ]

  lower_tag : (id : ℕ) (prefix : List ℕ) (unique : Bool) → 1 < tag (lower_key id prefix unique)
  unfolding tag lower_key
  lower_tag id prefix true = omega arith
  lower_tag id prefix false = omega arith

  -- Between the first key and an entry that matches there are only entries that match.
  covers_between :
      (id : ℕ) (prefix : List ℕ) (unique : Bool) (j k : TableKey)
      → id < 2 ^ 32
      → IsEntryOf id (tag (lower_key id prefix unique)) prefix j
      → IsEntryOf id (tag (lower_key id prefix unique)) prefix k
      → NotBehind (lower_key id prefix unique) j
      → NotBehind j k
      → covers id prefix k ≡ true
      → covers id prefix j ≡ true
  covers_between id prefix unique j k fits hj hk low up c =
      let t = tag (lower_key id prefix unique) in
      let below = rw (lower_bytes id prefix unique) at low in
      starts_with-covers id t prefix j (lower_tag id prefix unique) fits hj (
        starts_with_between (head_of id prefix t) (encode j) (encode k)
          (lex-shorter (head_of id prefix t) (tail_of unique) (encode j) below) up
          (covers-starts_with id t prefix k hk c))

  nil_first : (x : List ℕ) → lex [] x ≡ Ordering.gt → ⊥
  unfolding lex
  nil_first [] e = cc
  nil_first (b ∷ x) e = cc

  unique_bytes :
      (id i : ℕ) (prefix cols rest : List ℕ)
      → cols ≡ prefix ++ rest
      → i ≡ id
      → encode (index i cols none) ≡ head_of id prefix (tag (lower_key id prefix true)) ++ rest
  unfolding fields tag lower_key
  unique_bytes id i prefix cols rest whole is_id =
      encode-fields (index i cols none)
      ∙ rw (whole, is_id, append_assoc (be_bytes 4 id) prefix rest) refl

  dup_bytes :
      (id i : ℕ) (prefix cols rest : List ℕ) (e : Skey)
      → cols ≡ prefix ++ rest
      → i ≡ id
      → encode (index i cols (some e))
        ≡ head_of id prefix (tag (lower_key id prefix false)) ++ (rest ++ into_bytes e)
  unfolding fields tag lower_key
  dup_bytes id i prefix cols rest e whole is_id =
      encode-fields (index i cols (some e))
      ∙ rw
          (
            whole,
            is_id,
            append_assoc prefix rest (into_bytes e),
            append_assoc (be_bytes 4 id) prefix (rest ++ into_bytes e),
          )
          refl

  dup_not_unique :
      (id i : ℕ) (prefix cols : List ℕ) (e : Skey)
      → tag (index i cols (some e)) ≡ tag (lower_key id prefix true)
      → ⊥
  unfolding tag lower_key
  dup_not_unique id i prefix cols e h = omega (arith, h)

  unique_not_dup :
      (id i : ℕ) (prefix cols : List ℕ)
      → tag (index i cols none) ≡ tag (lower_key id prefix false)
      → ⊥
  unfolding tag lower_key
  unique_not_dup id i prefix cols h = omega (arith, h)

  -- An entry that matches is not in front of the first key.
  first_entry :
      (id : ℕ) (prefix : List ℕ) (unique : Bool) (k : TableKey)
      → IsEntryOf id (tag (lower_key id prefix unique)) prefix k
      → covers id prefix k ≡ true
      → NotBehind (lower_key id prefix unique) k
  unfolding covers
  first_entry id prefix unique (data_key k) h c e = cc
  first_entry id prefix unique (child p n) h c e = cc
  first_entry id prefix unique (index i cols entity) (fits, kind) c e =
      let (first, later) = both_true (i == id) (starts_with prefix cols) c in
      let is_id = is_equal i id first in
      let (rest, whole) = starts_with-split prefix cols later in
      by_kind unique entity rest whole is_id (kind is_id).0 e
    where
      -- The first key, against the head with something behind it.
      against :
          (unique : Bool) (x : List ℕ)
          → (lex (tail_of unique) x ≡ Ordering.gt → ⊥)
          → lex
              (encode (lower_key id prefix unique))
              (head_of id prefix (tag (lower_key id prefix unique)) ++ x)
            ≡ Ordering.gt
          → ⊥
      against unique x far q = far (
          sym (lex-prefix (head_of id prefix (tag (lower_key id prefix unique))) (tail_of unique) x)
          ∙ rw (lower_bytes id prefix unique) at q)

      by_kind :
          (unique : Bool) (entity : Option Skey) (rest : List ℕ)
          → cols ≡ prefix ++ rest
          → i ≡ id
          → tag (index i cols entity) ≡ tag (lower_key id prefix unique)
          → lex (encode (lower_key id prefix unique)) (encode (index i cols entity)) ≡ Ordering.gt
          → ⊥
      by_kind true none rest whole is_id same q = against true rest (nil_first rest) (
          subst (λ bs. lex (encode (lower_key id prefix true)) bs ≡ Ordering.gt)
            (unique_bytes id i prefix cols rest whole is_id) q)
      by_kind true (some e) rest whole is_id same q =
          absurd (dup_not_unique id i prefix cols e same)
      by_kind false none rest whole is_id same q = absurd (unique_not_dup id i prefix cols same)
      by_kind false (some e) rest whole is_id same q =
          against false (rest ++ into_bytes e)
            (zeros_first 16 (rest ++ into_bytes e)
              (omega (arith, length-append rest (into_bytes e), length-into_bytes e)))
            (subst (λ bs. lex (encode (lower_key id prefix false)) bs ≡ Ordering.gt)
              (dup_bytes id i prefix cols rest e whole is_id) q)

  -- Behind an entry that does not match there is none that does.
  all_hits_over :
      (id : ℕ) (prefix : List ℕ) (unique : Bool) (j : TableKey)
      (items : List (TableKey × TableValue))
      → id < 2 ^ 32
      → covers id prefix j ≡ false
      → IsEntryOf id (tag (lower_key id prefix unique)) prefix j
      → NotBehind (lower_key id prefix unique) j
      → BeforeAll j items
      → AreEntriesOf id (tag (lower_key id prefix unique)) prefix items
      → all_hits id prefix items ≡ ok []
  unfolding all_hits
  all_hits_over id prefix unique j [] fits miss hj low before kind = refl
  all_hits_over id prefix unique j ((k, v) ∷ items) fits miss hj low (b, before) (hk, kind) =
      elim (Bool-cases (covers id prefix k)) [
        | inl hit ↦
            let never : covers id prefix j ≡ true =
              covers_between id prefix unique j k fits hj hk low b hit in
            cc
        | inr other ↦ rw other (all_hits_over id prefix unique j items fits miss hj low before kind)
      ]

  -- The scan from the first key, against all entries of the table.
  scan_items-all_hits :
      (id : ℕ) (prefix : List ℕ) (unique : Bool) (all : List (TableKey × TableValue))
      → id < 2 ^ 32
      → Ascends all
      → AreEntriesOf id (tag (lower_key id prefix unique)) prefix all
      → scan_items id prefix (map ok (from_bound (lower_key id prefix unique) all))
        ≡ all_hits id prefix all
  unfolding scan_items scan_item all_hits from_bound
  scan_items-all_hits id prefix unique [] fits up kind = refl
  scan_items-all_hits id prefix unique ((k, v) ∷ items) fits (b, up) (hk, kind) =
      by_order (lex (encode (lower_key id prefix unique)) (encode k)) refl
        (scan_items-all_hits id prefix unique items fits up kind)
    where
      bound : TableKey
      bound = lower_key id prefix unique

      at_entry :
          NotBehind bound k
          → scan_items id prefix (map ok (from_bound bound items)) ≡ all_hits id prefix items
          → scan_items id prefix (map ok ((k, v) ∷ from_bound bound items))
            ≡ all_hits id prefix ((k, v) ∷ items)
      at_entry low later = elim (Bool-cases (covers id prefix k)) [
        | inl hit ↦ rw (hit, later) refl
        | inr other ↦
            rw (other, all_hits_over id prefix unique k items fits other hk low b kind) refl
      ]

      by_order :
          (o : Ordering)
          → lex (encode bound) (encode k) ≡ o
          → scan_items id prefix (map ok (from_bound bound items)) ≡ all_hits id prefix items
          → scan_items id prefix (
              map ok (elim o as (λ x. List (TableKey × TableValue)) [
                | Ordering.gt ↦ from_bound bound items
                | _ ↦ (k, v) ∷ from_bound bound items
              ]))
            ≡ all_hits id prefix ((k, v) ∷ items)
      by_order Ordering.lt q later =
          at_entry (λ g. let never : Ordering.lt ≡ Ordering.gt = sym q ∙ g in cc) later
      by_order Ordering.eq q later =
          at_entry (λ g. let never : Ordering.eq ≡ Ordering.gt = sym q ∙ g in cc) later
      by_order Ordering.gt q later = elim (Bool-cases (covers id prefix k)) [
        | inl hit ↦ absurd (first_entry id prefix unique k hk hit q)
        | inr other ↦ later ∙ rw other refl
      ]

  -- On a table whose entries stand in the order of the bytes of their keys, and whose scan from a key
  -- gives those at it or behind it, where the entries of the index are all unique or all not, the
  -- columns of none are a proper prefix of the sought prefix, and ids have 32 bits: `scan_prefix`
  -- returns the entities of all entries of the index whose columns begin with the prefix, in the
  -- table's order.
  pub scan_prefix-all_hits :
      (R : ReadNodes) (s : R.Store) (id : ℕ) (prefix : List ℕ) (unique : Bool)
      (all : List (TableKey × TableValue))
      → ((bound : TableKey) → R.scan_from s bound ≡ ok (map ok (from_bound bound all)))
      → id < 2 ^ 32
      → Ascends all
      → AreEntriesOf id (tag (lower_key id prefix unique)) prefix all
      → scan_prefix R s id prefix unique ≡ all_hits id prefix all
  unfolding scan_prefix
  scan_prefix-all_hits R s id prefix unique all e fits up kind =
      rw (e (lower_key id prefix unique)) (scan_items-all_hits id prefix unique all fits up kind)
