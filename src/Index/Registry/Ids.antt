-- ===== src/Index/Registry/Ids.antt =====
-- The ids and the names in a registry of crates/stratodb/src/index/registry/repository.rs, and what
-- registering a definition does to them.
use stratodb.Base.{
  ℕ, ◌+◌, ◌^◌, ◌<◌, ◌≡◌, refl, sym, List, [], ◌∷◌, ◌++◌, ltb, none, some, some-inj, Option-cases,
  Bool-cases, inl, inr, Text, arith, if◌then◌else◌,
}
use stratodb.Error.{ok, err, schema_mismatch, corrupt}
use stratodb.Index.Definition.{IndexDef}
use stratodb.Index.Pattern.Matches.{ok-inj}
use stratodb.Index.Maintenance.{IndexEntry}
use stratodb.Index.Registry.{RegistryRepository, empty, find, take_named, def_eq, register}
use stratodb.Index.Registry.Entries.{
  Ascend, AreDistinct, Ascend-append, AreDistinct-append, take_named-Ascend, take_named-AreDistinct,
}

-- Strictly descending numbers below `n`.
abbrev pub AreBelow : ℕ → List ℕ → Type 0
AreBelow n [] = Unit
AreBelow n (id ∷ ids) = (id < n) × AreBelow id ids

pub record IsFresh (r : RegistryRepository) (used : List ℕ) : Type 0 where
  pub next_fits : r.next_id < 2 ^ 32
  pub never_again : AreBelow r.next_id used
  pub ids : Ascend 0 r.next_id r.entries
  pub names : AreDistinct r.entries

-- The registration of a name that is new.
abbrev pub added : RegistryRepository → Text → IndexDef → IndexEntry
added r table def = record { table = table; id = r.next_id; def = def }

-- What `register` stores: the name was free, and the id fits.
pub register_new :
    (r r' : RegistryRepository) (table : Text) (def : IndexDef)
    → register r table def ≡ ok (some r')
    → (find table def.name r.entries ≡ none)
      × (r.next_id + 1 < 2 ^ 32)
      × (r' ≡ record {
        next_id = r.next_id + 1;
        entries = r.entries ++ record { table = table; id = r.next_id; def = def } ∷ [];
      })
unfolding register
register_new r r' table def e = elim (Option-cases (find table def.name r.entries)) [
  | inr (entry, taken) ↦ absurd (refused entry (rw (taken, register) at e))
  | inl free ↦ elim (Bool-cases (ltb (r.next_id + 1) (2 ^ 32))) [
    | inl fits ↦ (free, ground arith, sym (some-inj (ok-inj (rw (free, register, fits) at e))))
    | inr full ↦ let failed : err corrupt ≡ ok (some r') = rw (free, register, full) at e in cc
  ]
]
  where
    refused :
        (entry : IndexEntry)
        → (if def_eq entry.def def then ok none else err schema_mismatch) ≡ ok (some r')
        → ⊥
    refused entry h = elim (Bool-cases (def_eq entry.def def)) [
      | inl same ↦ let kept : ok none ≡ ok (some r') = rw same at h in cc
      | inr differ ↦ let failed : err schema_mismatch ≡ ok (some r') = rw differ at h in cc
    ]

pub register-IsFresh :
    (r r' : RegistryRepository) (used : List ℕ) (table : Text) (def : IndexDef)
    → IsFresh r used
    → register r table def ≡ ok (some r')
    → IsFresh r' (r.next_id ∷ used)
register-IsFresh r r' used table def h e =
    let (free, fits, same) = register_new r r' table def e in
    rw same (record {
      next_fits = fits;
      never_again = (omega arith, h.never_again);
      ids = Ascend-append 0 r.next_id r.entries _ refl h.ids;
      names =
          AreDistinct-append r.entries (record { table = table; id = r.next_id; def = def }) free
            h.names;
    })

pub empty-IsFresh : IsFresh empty []
empty-IsFresh = record { next_fits = omega arith; never_again = tt; ids = omega arith; names = tt }

pub take_named-IsFresh :
    (r : RegistryRepository) (used : List ℕ) (table name : Text) (entry : IndexEntry)
    (others : List IndexEntry)
    → IsFresh r used
    → take_named table name r.entries ≡ some (entry, others)
    → IsFresh (record r { entries = others }) used
take_named-IsFresh r used table name entry others h e = record {
  next_fits = h.next_fits;
  never_again = h.never_again;
  ids = take_named-Ascend 0 r.next_id table name r.entries entry others e h.ids;
  names = take_named-AreDistinct table name r.entries entry others e h.names;
}
