-- ===== src/Index/Registry/Stored.antt =====
-- The registry of crates/stratodb/src/index/registry/repository.rs, stored and loaded.
use stratodb.Base.{
  ℕ, ◌^◌, ◌<◌, ◌≡◌, refl, sym, subst, ◌∙◌, List, [], ◌∷◌, ◌++◌, append_assoc, append-nil, length,
  All, be_bytes, ltb, Bool-cases, inl, inr, arith,
}
use stratodb.Error.{ok, err}
use stratodb.Codec.{put_u32, put_bytes, new}
use stratodb.Codec.Reads.{
  Reads, IsAt, IsAt-new, Reads-pure, Reads-bind, Reads-u32, put_bytes-run, run,
}
use stratodb.Scalar.RoundTrip.{Reads-map}
use stratodb.Index.Definition
use stratodb.Index.Definition.RoundTrip.{
  IsStored, IsDefinition, def_image, encode-image, Reads-string, Reads-decode,
}
use stratodb.Index.Maintenance.{IndexEntry}
use stratodb.Index.Pattern.Matches.{ok-inj}
use stratodb.Index.Registry.{
  RegistryRepository, read_entry, read_entries, read_registry, decode, put_entries, encode,
}

-- What the format can hold.
abbrev pub IsEntry : IndexEntry → Type 0
IsEntry entry = IsStored entry.table × (entry.id < 2 ^ 32) × IsDefinition entry.def

pub record IsRegistry (r : RegistryRepository) : Type 0 where
  pub next_fits : r.next_id < 2 ^ 32
  pub entries_ok : All IsEntry r.entries

abbrev entry_image : IndexEntry → List ℕ
entry_image entry = run entry.table ++ (be_bytes 4 entry.id ++ def_image entry.def)

abbrev entries_image : List IndexEntry → List ℕ
entries_image [] = []
entries_image (entry ∷ entries) = entry_image entry ++ entries_image entries

abbrev registry_image : RegistryRepository → List ℕ
registry_image r =
    be_bytes 4 r.next_id ++ (be_bytes 4 (length r.entries) ++ entries_image r.entries)

put_entry-image :
    (buf : List ℕ) (entry : IndexEntry)
    → IsEntry entry
    → Definition.encode (put_u32 (put_bytes buf entry.table) entry.id) entry.def
      ≡ buf ++ entry_image entry
unfolding put_u32
put_entry-image buf entry (table_ok, _, def_ok) =
    rw
      (
        encode-image (put_u32 (put_bytes buf entry.table) entry.id) entry.def def_ok,
        put_bytes-run buf entry.table table_ok.1,
      )
      (simp append_assoc)

put_entries-image :
    (buf : List ℕ) (entries : List IndexEntry)
    → All IsEntry entries
    → put_entries buf entries ≡ buf ++ entries_image entries
unfolding put_entries
put_entries-image buf [] h = sym (append-nil buf)
put_entries-image buf (entry ∷ entries) (h, hs) =
    rw (put_entry-image buf entry h, put_entries-image (buf ++ entry_image entry) entries hs)
      (append_assoc buf (entry_image entry) (entries_image entries))

Reads-entry : (entry : IndexEntry) → IsEntry entry → Reads read_entry (entry_image entry) entry
unfolding read_entry
Reads-entry entry (table_ok, id_ok, def_ok) =
    Reads-bind _ _ (run entry.table) (be_bytes 4 entry.id ++ def_image entry.def) entry.table entry
      (Reads-string entry.table table_ok)
      (Reads-bind _ _ (be_bytes 4 entry.id) (def_image entry.def) entry.id entry
        (Reads-u32 entry.id id_ok)
        (Reads-map _ (λ def. record { table = entry.table; id = entry.id; def = def })
          (def_image entry.def) entry.def (Reads-decode entry.def def_ok)))

Reads-entries :
    (entries : List IndexEntry)
    → All IsEntry entries
    → Reads (read_entries (length entries)) (entries_image entries) entries
unfolding read_entries
Reads-entries [] h = Reads-pure []
Reads-entries (entry ∷ entries) (h, hs) =
    Reads-bind _ _ (entry_image entry) (entries_image entries) entry (entry ∷ entries)
      (Reads-entry entry h)
      (Reads-map _ (λ rest. entry ∷ rest) (entries_image entries) entries
        (Reads-entries entries hs))

Reads-registry :
    (r : RegistryRepository)
    → IsRegistry r
    → length r.entries < 2 ^ 32
    → Reads read_registry (registry_image r) r
unfolding read_registry
Reads-registry r h fits =
    Reads-bind _ _ (be_bytes 4 r.next_id) (be_bytes 4 (length r.entries) ++ entries_image r.entries)
      r.next_id r (Reads-u32 r.next_id h.next_fits)
      (Reads-bind _ _ (be_bytes 4 (length r.entries)) (entries_image r.entries) (length r.entries) r
        (Reads-u32 (length r.entries) fits)
        (Reads-map _ (λ entries. record { next_id = r.next_id; entries = entries })
          (entries_image r.entries) r.entries (Reads-entries r.entries h.entries_ok)))

image-encode :
    (r : RegistryRepository) (stored : List ℕ)
    → IsRegistry r
    → encode r ≡ ok stored
    → (length r.entries < 2 ^ 32) × (stored ≡ registry_image r)
unfolding encode put_u32
image-encode r stored h e = elim (Bool-cases (ltb (length r.entries) (2 ^ 32))) [
  | inl fits ↦
      let made : ok (put_entries (be_bytes 4 r.next_id ++ be_bytes 4 (length r.entries)) r.entries)
          ≡ ok stored =
        rw fits at e in
      let image =
        put_entries-image (be_bytes 4 r.next_id ++ be_bytes 4 (length r.entries)) r.entries
          h.entries_ok in
      (
        ground arith,
        sym (ok-inj made)
            ∙ image
            ∙ append_assoc (be_bytes 4 r.next_id) (be_bytes 4 (length r.entries))
                (entries_image r.entries),
      )
  | inr many ↦ let failed : err _ ≡ ok stored = rw many at e in cc
]

-- Whatever `encode` returns for a registry decodes to it, where the ids have 32 bits, the texts are
-- UTF-8 of less than 2^32 bytes and the paths of the columns are canonical.
pub decode_registry-encode :
    (r : RegistryRepository) (stored : List ℕ)
    → IsRegistry r
    → encode r ≡ ok stored
    → length stored < 2 ^ 64
    → decode stored ≡ ok r
unfolding decode
decode_registry-encode r stored h e fits =
    let (few, image) = image-encode r stored h e in
    let place : IsAt (new stored) (registry_image r ++ []) =
      subst (IsAt (new stored)) (image ∙ sym (append-nil (registry_image r)))
        (IsAt-new stored fits) in
    rw ((Reads-registry r h few).at (new stored) [] place) refl
