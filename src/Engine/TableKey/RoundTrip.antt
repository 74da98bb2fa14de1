-- ===== src/Engine/TableKey/RoundTrip.antt =====
-- Keys are read back, and no two byte strings are read as one key.
use stratodb.Base.{
  ℕ, ◌-◌, ◌<◌, ◌^◌, ◌≡◌, refl, ap, List, [], ◌∷◌, ◌++◌, length, length-append, length-take,
  length-drop, take, drop, take-prefix, drop-prefix, take-append, drop-append, take-append-drop,
  append_assoc, some, none, ◌==◌, be_value, be_bytes, length-be_bytes, be_value-be_bytes,
  be_bytes-be_value, Text, is_utf8, All, IsByte, All-take, All-drop, true, false, Bool-cases, ==→eq,
  inl, inr, ltb, arith,
}
use stratodb.Error.{SdbResult, ok, err, panic, corrupt, ◌>>=◌}
use stratodb.Crates.{Crates, IsArray}
use stratodb.Key.{
  Skey, into_bytes, from_bytes, into_bytes-IsArray, from_bytes-into_bytes, into_bytes-from_bytes,
}
use stratodb.Engine.TableKey.Tag
use stratodb.Engine.TableKey.{
  TableKey, data_key, child, index, encode, decode, decode_data, decode_child, decode_dup,
  decode_unique, split_id,
}

module _ ⦃crates : Crates⦄ where
  -- What the fields of a key hold: a text, and a number of 32 bits.
  abbrev pub IsKey : TableKey → Type 0
  IsKey (data_key k) = Unit
  IsKey (child parent name) = is_utf8 name ≡ true
  IsKey (index id cols entity) = id < 2 ^ 32

  pub length-into_bytes : (k : Skey) → length (into_bytes k) ≡ 16
  length-into_bytes k = (into_bytes-IsArray k).0

  split_id-be_bytes :
      (id : ℕ) (body : List ℕ) → id < 2 ^ 32 → split_id (be_bytes 4 id ++ body) ≡ ok (id, body)
  unfolding split_id
  split_id-be_bytes id body h =
      let four = length-be_bytes 4 id in
      let large : ltb (length (be_bytes 4 id ++ body)) 4 ≡ false =
        ground (arith, four, length-append (be_bytes 4 id) body) in
      rw
        (
          large,
          take-prefix 4 (be_bytes 4 id) body four,
          drop-prefix 4 (be_bytes 4 id) body four,
          be_value-be_bytes 4 id h,
        )
        refl

  decode_data_lem : (k : Skey) → decode_data (into_bytes k) ≡ ok (data_key k)
  unfolding decode_data
  decode_data_lem k = rw (length-into_bytes k, from_bytes-into_bytes k) refl

  decode_child_lem :
      (parent : Skey) (name : Text)
      → is_utf8 name ≡ true
      → decode_child (into_bytes parent ++ name) ≡ ok (child parent name)
  unfolding decode_child
  decode_child_lem parent name h =
      let key = into_bytes parent in
      let whole = length-into_bytes parent in
      let large : ltb (length (key ++ name)) 16 ≡ false =
        ground (arith, whole, length-append key name) in
      rw
        (
          large,
          drop-prefix 16 key name whole,
          h,
          take-prefix 16 key name whole,
          from_bytes-into_bytes parent,
        )
        refl

  decode_dup_lem :
      (id : ℕ) (cols : List ℕ) (entity : Skey)
      → decode_dup (id, cols ++ into_bytes entity) ≡ ok (index id cols (some entity))
  unfolding decode_dup
  decode_dup_lem id cols entity =
      let key = into_bytes entity in
      let whole = length-into_bytes entity in
      let sum = length-append cols key in
      let large : ltb (length (cols ++ key)) 16 ≡ false = ground (arith, whole, sum) in
      let at : length (cols ++ key) - 16 ≡ length cols = omega (arith, whole, sum) in
      rw (large, at, take-append cols key, drop-append cols key, from_bytes-into_bytes entity) refl

  -- A key whose name is UTF-8 and whose index number has 32 bits, encoded and decoded, is itself.
  pub decode_key-encode : (k : TableKey) → IsKey k → decode (encode k) ≡ ok k
  unfolding encode decode
  decode_key-encode (data_key k) h = decode_data_lem k
  decode_key-encode (child parent name) h = decode_child_lem parent name h
  decode_key-encode (index id cols (some entity)) h =
      rw
        (
          append_assoc (be_bytes 4 id) cols (into_bytes entity),
          split_id-be_bytes id (cols ++ into_bytes entity) h,
        )
        (decode_dup_lem id cols entity)
  decode_key-encode (index id cols none) h = rw (split_id-be_bytes id cols h) refl

  ok-inj : {A : Type 0} {x y : A} → ok x ≡ ok y → x ≡ y
  ok-inj e = cc

  not_ok : {A : Type 0} {a : A} → err corrupt ≡ ok a → ⊥
  not_ok e = cc

  IsArray-take :
      (n : ℕ) (rest : List ℕ)
      → ltb (length rest) n ≡ false
      → All IsByte rest
      → IsArray n (take n rest)
  IsArray-take n rest long bs =
      (length-take n rest (ground (arith, long)), All-take IsByte n rest bs)

  encode-decode_data :
      (rest : List ℕ) (k : TableKey)
      → All IsByte rest
      → decode_data rest ≡ ok k
      → encode k ≡ Tag.data_key ∷ rest
  unfolding decode_data encode
  encode-decode_data rest k bs h = elim (Bool-cases (length rest == 16)) [
    | inl e ↦
        let made : ok (data_key (from_bytes rest)) ≡ ok k = rw e at h in
        rw (← ok-inj made, into_bytes-from_bytes rest (ground (arith, e), bs)) refl
    | inr e ↦ absurd (not_ok (rw e at h))
  ]

  encode-decode_child :
      (rest : List ℕ) (k : TableKey)
      → All IsByte rest
      → decode_child rest ≡ ok k
      → encode k ≡ Tag.child ∷ rest
  unfolding decode_child encode
  encode-decode_child rest k bs h = elim (Bool-cases (ltb (length rest) 16)) [
    | inl short ↦ absurd (not_ok (rw short at h))
    | inr long ↦ elim (Bool-cases (is_utf8 (drop 16 rest))) [
      | inl valid ↦
          let made : ok (child (from_bytes (take 16 rest)) (drop 16 rest)) ≡ ok k =
            rw (long, valid) at h in
          rw
            (
              ← ok-inj made,
              into_bytes-from_bytes (take 16 rest) (IsArray-take 16 rest long bs),
              take-append-drop 16 rest,
            )
            refl
      | inr wrong ↦ absurd (not_ok (rw (long, wrong) at h))
    ]
  ]

  encode-decode_dup :
      (id : ℕ) (body : List ℕ) (k : TableKey)
      → All IsByte body
      → decode_dup (id, body) ≡ ok k
      → encode k ≡ Tag.index_dup ∷ (be_bytes 4 id ++ body)
  unfolding decode_dup encode
  encode-decode_dup id body k bs h = elim (Bool-cases (ltb (length body) 16)) [
    | inl short ↦ absurd (not_ok (rw short at h))
    | inr long ↦
        let at = length body - 16 in
        let made : ok (index id (take at body) (some (from_bytes (drop at body)))) ≡ ok k =
          rw long at h in
        let whole : length (drop at body) ≡ 16 = ground (arith, long, length-drop at body) in
        rw
          (
            ← ok-inj made,
            into_bytes-from_bytes (drop at body) (whole, All-drop IsByte at body bs),
            append_assoc (be_bytes 4 id) (take at body) (drop at body),
            take-append-drop at body,
          )
          refl
  ]

  split_id-joined :
      (rest : List ℕ) (id : ℕ) (body : List ℕ)
      → All IsByte rest
      → split_id rest ≡ ok (id, body)
      → (be_bytes 4 id ++ body ≡ rest) × All IsByte body
  unfolding split_id
  split_id-joined rest id body bs h = elim (Bool-cases (ltb (length rest) 4)) [
    | inl short ↦ absurd (not_ok (rw short at h))
    | inr long ↦
        let made : ok (be_value (take 4 rest), drop 4 rest) ≡ ok (id, body) = rw long at h in
        let (four, bytes) = IsArray-take 4 rest long bs in
        let back : be_bytes 4 (be_value (take 4 rest)) ≡ take 4 rest =
          rw four at (be_bytes-be_value (take 4 rest) bytes) in
        rw
          (
            ← ap (λ p. p.0) (ok-inj made),
            ← ap (λ p. p.1) (ok-inj made),
            back,
            take-append-drop 4 rest,
          )
          (refl, All-drop IsByte 4 rest bs)
  ]

  encode-decode_index :
      (t : ℕ) (rest : List ℕ) (k : TableKey) (arm : ℕ × List ℕ → SdbResult TableKey)
      → All IsByte rest
      → ((id : ℕ) (body : List ℕ)
          → All IsByte body
          → arm (id, body) ≡ ok k
          → encode k ≡ t ∷ (be_bytes 4 id ++ body))
      → (split_id rest >>= arm) ≡ ok k
      → encode k ≡ t ∷ rest
  encode-decode_index t rest k arm bs each h = by_split (split_id rest) refl h
    where
      by_split :
          (r : SdbResult (ℕ × List ℕ))
          → split_id rest ≡ r
          → (r >>= arm) ≡ ok k
          → encode k ≡ t ∷ rest
      by_split (ok (id, body)) e made =
          let (joined, bytes) = split_id-joined rest id body bs e in
          rw (← joined) (each id body bytes made)
      by_split (err e') e made = absurd (no_key made)
        where
          no_key : err e' ≡ ok k → ⊥
          no_key q = cc
      by_split panic e made = absurd (no_key made)
        where
          no_key : panic ≡ ok k → ⊥
          no_key q = cc

  -- A byte string that decodes to a key is the encoding of that key, so no two byte strings decode
  -- to one key.
  pub encode-decode_key :
      (bs : List ℕ) (k : TableKey) → All IsByte bs → decode bs ≡ ok k → encode k ≡ bs
  unfolding decode
  encode-decode_key [] k h e = absurd (not_ok e)
  encode-decode_key (t ∷ rest) k (h, hs) e = elim (Bool-cases (t == Tag.data_key)) [
    | inl a ↦ rw (==→eq t _ a) (encode-decode_data rest k hs (rw a at e))
    | inr a ↦ elim (Bool-cases (t == Tag.child)) [
      | inl b ↦ rw (==→eq t _ b) (encode-decode_child rest k hs (rw (a, b) at e))
      | inr b ↦ elim (Bool-cases (t == Tag.index_dup)) [
        | inl c ↦ rw (==→eq t _ c) (
            encode-decode_index Tag.index_dup rest k decode_dup hs
              (λ id body. encode-decode_dup id body k) (rw (a, b, c) at e))
        | inr c ↦ elim (Bool-cases (t == Tag.index_unique)) [
          | inl d ↦ rw (==→eq t _ d) (
              encode-decode_index Tag.index_unique rest k decode_unique hs
                (λ id body bytes made. unfold encode in rw (← ok-inj made) refl)
                (rw (a, b, c, d) at e))
          | inr d ↦ absurd (not_ok (rw (a, b, c, d) at e))
        ]
      ]
    ]
  ]
