-- ===== src/Index/Registry/Names.antt =====
-- `has` of crates/stratodb/src/index/registry/repository.rs, which skips in the stored registry, against
-- `lookup`, which decodes it.
use stratodb.Base.{
  ℕ, zero, suc, ◌≡◌, refl, ap, ◌∙◌, List, ◌∷◌, Bool, true, false, ◌&&◌, Option, none, some, Text,
  text_eq, Bool-cases, inl, inr,
}
use stratodb.Error.{SdbResult, ok, err, panic}
use stratodb.Error
use stratodb.Codec.{Reader, new, u32, pure, ◌>>=◌}
use stratodb.Index.Definition.Name.{
  Follows, Follows-bind, Follows-refl, Follows-pure, Follows-name, Follows-decode,
}
use stratodb.Index.Pattern.Matches.{bind_inv, ok-inj}
use stratodb.Index.Maintenance.{IndexEntry}
use stratodb.Index.Registry.{
  MetaTable, RegistryRepository, empty, read_entry, read_entries, read_registry, decode, is_named,
  find, skip_entry, seek, seek_in, load, lookup, has,
}

abbrev pub is_some : {A : Type 0} → Option A → Bool
is_some none = false
is_some (some a) = true

module _ (table name : Text) where
  -- Skipping an entry tells whether it is the one, and stops where reading it stops.
  Follows-entry :
      Follows (λ entry b. is_named table name entry ≡ b) read_entry (skip_entry table name)
  unfolding read_entry skip_entry is_named
  Follows-entry = Follows-name _ _ _ (λ t.
      Follows-bind (λ a b. a ≡ b) _ _ _ _ _ (Follows-refl u32)
        (λ id _ _.
          Follows-bind (λ def n. def.name ≡ n) _ _ _ _ _ Follows-decode
            (λ def n same.
              Follows-pure _ (record { table = t; id = id; def = def })
                (text_eq t table && text_eq n name) (rw same refl))))

  skip_entry-read_entry :
      (r r' : Reader) (entry : IndexEntry)
      → read_entry r ≡ ok (entry, r')
      → skip_entry table name r ≡ ok (is_named table name entry, r')
  skip_entry-read_entry r r' entry made =
      let (b, same, found) = rw made at (Follows-entry.at r) in rw same found

  -- The loop ends at the first entry of the name.
  seek-find :
      (count : ℕ) (r r' : Reader) (entries : List IndexEntry)
      → read_entries count r ≡ ok (entries, r')
      → (r'' : Reader) × (seek count table name r ≡ ok (is_some (find table name entries), r''))
  unfolding read_entries seek find pure ◌>>=◌
  seek-find zero r r' entries e = (r, rw (← ap (λ p. p.0) (ok-inj e)) refl)
  seek-find (suc count) r r' entries e =
      let ((entry, r₁), read, rest) = bind_inv (read_entry r) _ (entries, r') e in
      let ((later, r₂), reads, done) = bind_inv (read_entries count r₁) _ (entries, r') rest in
      let same : entry ∷ later ≡ entries = ap (λ p. p.0) (ok-inj done) in
      let (last, sought) = seek-find count r₁ r₂ later reads in
      elim (Bool-cases (is_named table name entry)) [
        | inl here ↦ (r₁, rw (skip_entry-read_entry r r₁ entry read, ← same, here) refl)
        | inr other ↦ (last, rw (skip_entry-read_entry r r₁ entry read, ← same, other) sought)
      ]

  -- Wherever the stored registry decodes, the search in it gives what the search in the entries does.
  seek_in-find :
      (stored : List ℕ) (registry : RegistryRepository)
      → decode stored ≡ ok registry
      → Error.◌>>=◌ (seek_in table name (new stored)) (λ p. ok p.0)
        ≡ ok (is_some (find table name registry.entries))
  unfolding decode read_registry seek_in pure ◌>>=◌
  seek_in-find stored registry e =
      let ((made, r₀), read, done) = bind_inv (read_registry (new stored)) _ registry e in
      let ((next_id, r₁), first, rest) = bind_inv (u32 (new stored)) _ (made, r₀) read in
      let ((count, r₂), second, rest') = bind_inv (u32 r₁) _ (made, r₀) rest in
      let ((entries, r₃), third, last) = bind_inv (read_entries count r₂) _ (made, r₀) rest' in
      let same : entries ≡ registry.entries =
        ap (λ p. p.0.entries) (ok-inj last) ∙ ap (λ r. r.entries) (ok-inj done) in
      let (end, sought) = seek-find count r₂ r₃ entries third in
      rw (first, second, sought, same) refl

module _ (T : MetaTable) where
  -- Wherever `lookup` returns a result, `has` returns whether it found an index, whatever the stored
  -- bytes are.
  pub has-lookup :
      (meta : T.Meta) (table name : Text) (found : Option IndexEntry)
      → lookup T meta table name ≡ ok found
      → has T meta table name ≡ ok (is_some found)
  unfolding lookup has load
  has-lookup meta table name found e = by_bytes (T.get meta) e
    where
      by_bytes :
          (got : SdbResult (Option (List ℕ)))
          → Error.◌>>=◌
              (Error.◌>>=◌ got (λ o. elim o [ some stored ↦ decode stored | none ↦ ok empty ]))
              (λ r. ok (find table name r.entries))
            ≡ ok found
          → Error.◌>>=◌ got (λ o. elim o [
            | some stored ↦ Error.◌>>=◌ (seek_in table name (new stored)) (λ p. ok p.0)
            | none ↦ ok false
          ])
            ≡ ok (is_some found)
      by_bytes (ok (some stored)) h =
          let (registry, decoded, same) = bind_inv (decode stored) _ found h in
          seek_in-find table name stored registry decoded ∙ ap (λ o. ok (is_some o)) (ok-inj same)
      by_bytes (ok none) h = ap (λ o. ok (is_some o)) (ok-inj h)
      by_bytes (err _) h = cc
      by_bytes panic h = cc
