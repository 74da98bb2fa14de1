-- ===== src/Index/Registry/Runs.antt =====
-- The ids in the stored registry of crates/stratodb/src/index/registry/repository.rs, over any sequence
-- of `create` and `delete`. A call that fails ends its transaction.
use stratodb.Base.{
  ℕ, ◌^◌, ◌<◌, ◌≡◌, refl, sym, ap, ◌∙◌, List, ◌∷◌, [], length, true, false, Option, none, some,
  some-inj, Option-cases, inl, inr, Text, arith,
}
use stratodb.Error.{SdbResult, ok, err, panic, ◌>>=◌}
use stratodb.Index.Definition.{IndexDef}
use stratodb.Index.Definition.RoundTrip.{IsStored, IsDefinition}
use stratodb.Index.Pattern.Matches.{bind_inv, ok-inj}
use stratodb.Index.Maintenance.{IndexEntry}
use stratodb.Index.Registry.{
  MetaTable, RegistryRepository, empty, take_named, encode, register, load, store, insert_encoded,
  store_new, lookup, create, delete,
}
use stratodb.Index.Registry.Stored.{IsRegistry, decode_registry-encode}
use stratodb.Index.Registry.Entries.{take_named-All}
use stratodb.Index.Registry.Creates.{Keeps, lookup-find, register-IsRegistry}
use stratodb.Index.Registry.Ids.{IsFresh, empty-IsFresh, register-IsFresh, take_named-IsFresh}

module _ (T : MetaTable) (keeps : Keeps T) where
  -- What is stored is in memory, so shorter than 2^64 bytes.
  abbrev pub Fits : T.Meta → Type 0
  Fits meta = (stored : List ℕ) → T.get meta ≡ ok (some stored) → length stored < 2 ^ 64

  -- The metadata tables that calls of `create` and `delete` lead to, with the ids that were handed
  -- out, the latest first: the id under which a new definition is found.
  pub data Reach : T.Meta → List ℕ → Type 0 where
    start : (meta : T.Meta) → T.get meta ≡ ok none → Reach meta []
    created :
        {meta : T.Meta} {used : List ℕ}
        → Reach meta used
        → (table : Text) (def : IndexDef) (meta' : T.Meta) (entry : IndexEntry) → IsStored table
        → IsDefinition def
        → create T meta table def ≡ (ok true, meta')
        → lookup T meta' table def.name ≡ ok (some entry)
        → Fits meta'
        → Reach meta' (entry.id ∷ used)
    kept :
        {meta : T.Meta} {used : List ℕ}
        → Reach meta used
        → (table : Text) (def : IndexDef) (meta' : T.Meta)
        → create T meta table def ≡ (ok false, meta')
        → Reach meta' used
    deleted :
        {meta : T.Meta} {used : List ℕ}
        → Reach meta used
        → (table name : Text) (found : Option IndexEntry) (meta' : T.Meta)
        → delete T meta table name ≡ (ok found, meta')
        → Fits meta'
        → Reach meta' used

  pub record IsFreshIn (meta : T.Meta) (used : List ℕ) : Type 0 where
    pub registry : RegistryRepository
    pub loaded : load T meta ≡ ok registry
    pub storable : IsRegistry registry
    pub fresh : IsFresh registry used

  pair-fst : {A B : Type 0} {p q : A × B} → p ≡ q → p.0 ≡ q.0
  pair-fst e = ap (λ x. x.0) e

  pair-snd : {A B : Type 0} {p q : A × B} → p ≡ q → p.1 ≡ q.1
  pair-snd e = ap (λ x. x.1) e

  -- What was stored is loaded again.
  insert_encoded-load :
      {A : Type 0} (meta meta' : T.Meta) (r : RegistryRepository) (result a : A)
      (made : SdbResult (List ℕ))
      → encode r ≡ made
      → IsRegistry r
      → Fits meta'
      → insert_encoded T meta result made ≡ (ok a, meta')
      → load T meta' ≡ ok r
  unfolding insert_encoded load
  insert_encoded-load meta meta' r result a (ok blob) made whole fits e =
      let (_, inserted, _) = bind_inv (T.insert meta blob).0 (λ _. ok result) a (pair-fst e) in
      let read_back : T.get meta' ≡ ok (some blob) =
        ap T.get (sym (pair-snd e)) ∙ keeps.get-insert meta blob inserted in
      rw read_back (decode_registry-encode r blob whole made (fits blob read_back))
  insert_encoded-load meta meta' r result a (err x) made whole fits e =
      let failed : err x ≡ ok a = pair-fst e in cc
  insert_encoded-load meta meta' r result a panic made whole fits e =
      let failed : panic ≡ ok a = pair-fst e in cc

  store_new-IsFreshIn :
      (meta meta' : T.Meta) (used : List ℕ) (table : Text) (def : IndexDef) (entry : IndexEntry)
      (h : IsFreshIn meta used) (made : SdbResult (Option RegistryRepository))
      → register h.registry table def ≡ made
      → IsStored table
      → IsDefinition def
      → store_new T meta made ≡ (ok true, meta')
      → lookup T meta' table def.name ≡ ok (some entry)
      → Fits meta'
      → IsFreshIn meta' (entry.id ∷ used)
  unfolding store_new store
  store_new-IsFreshIn meta meta' used table def entry h (ok none) made t d e l fits =
      let kept : ok false ≡ ok true = pair-fst e in cc
  store_new-IsFreshIn meta meta' used table def entry h (ok (some r)) made t d e l fits =
      let (whole, found) = register-IsRegistry h.registry r table def h.storable t d made in
      let again = insert_encoded-load meta meta' r true true (encode r) refl whole fits e in
      let here =
        some-inj
          (ok-inj (sym l ∙ lookup-find T keeps meta' r table def.name again ∙ ap ok found)) in
      record {
        registry = r;
        loaded = again;
        storable = whole;
        fresh =
            rw (ap (λ (x : IndexEntry). x.id) here)
              (register-IsFresh h.registry r used table def h.fresh made);
      }
  store_new-IsFreshIn meta meta' used table def entry h (err x) made t d e l fits =
      let failed : err x ≡ ok true = pair-fst e in cc
  store_new-IsFreshIn meta meta' used table def entry h panic made t d e l fits =
      let failed : panic ≡ ok true = pair-fst e in cc

  -- Where nothing is stored the table is the same.
  store_new_kept :
      (meta meta' : T.Meta) (made : SdbResult (Option RegistryRepository))
      → store_new T meta made ≡ (ok false, meta')
      → meta ≡ meta'
  unfolding store_new store insert_encoded
  store_new_kept meta meta' (ok none) e = pair-snd e
  store_new_kept meta meta' (ok (some r)) e = absurd (stored (encode r) e)
    where
      stored : (made : SdbResult (List ℕ)) → insert_encoded T meta true made ≡ (ok false, meta') → ⊥
      stored (ok blob) q =
          let (_, _, other) = bind_inv (T.insert meta blob).0 (λ _. ok true) false (pair-fst q) in
          let differ : ok true ≡ ok false = other in cc
      stored (err x) q = let failed : err x ≡ ok false = pair-fst q in cc
      stored panic q = let failed : panic ≡ ok false = pair-fst q in cc
  store_new_kept meta meta' (err x) e = let failed : err x ≡ ok false = pair-fst e in cc
  store_new_kept meta meta' panic e = let failed : panic ≡ ok false = pair-fst e in cc

  delete-IsFreshIn :
      (meta meta' : T.Meta) (used : List ℕ) (table name : Text) (found : Option IndexEntry)
      → IsFreshIn meta used
      → delete T meta table name ≡ (ok found, meta')
      → Fits meta'
      → IsFreshIn meta' used
  unfolding delete store
  delete-IsFreshIn meta meta' used table name found h e fits =
      elim (Option-cases (take_named table name h.registry.entries)) [
        | inl nothing ↦
            let missed : (ok none, meta) ≡ (ok found, meta') =
              rw (delete, h.loaded, nothing) at e in
            rw (← pair-snd missed) h
        | inr ((entry, others), taken) ↦
            let rest = record h.registry { entries = others } in
            let whole : IsRegistry rest = record {
              next_fits = h.storable.next_fits;
              entries_ok =
                  take_named-All _ table name h.registry.entries entry others taken
                    h.storable.entries_ok;
            } in
            record {
              registry = rest;
              loaded =
                  insert_encoded-load meta meta' rest (some entry) found (encode rest) refl whole
                    fits (rw (delete, h.loaded, taken) at e);
              storable = whole;
              fresh = take_named-IsFresh h.registry used table name entry others h.fresh taken;
            }
      ]

  -- After any sequence of `create` and `delete` that succeed, on a table in which an insert that
  -- succeeds is read back, with texts and definitions that fit the format: the stored registry can be
  -- loaded; the ids that were handed out ascend strictly and stay below its counter, which has 32
  -- bits, so none is ever handed out again; its entries stand in the order of their ids, and no two
  -- entries have one table and one name.
  pub Reach-IsFreshIn : {meta : T.Meta} {used : List ℕ} → Reach meta used → IsFreshIn meta used
  unfolding create load
  Reach-IsFreshIn (start meta none_there) = record {
    registry = empty;
    loaded = rw none_there refl;
    storable = record { next_fits = omega arith; entries_ok = tt };
    fresh = empty-IsFresh;
  }
  Reach-IsFreshIn (created {meta} {used} reach table def meta' entry t d e l fits) =
      let h = Reach-IsFreshIn reach in
      store_new-IsFreshIn meta meta' used table def entry h (register h.registry table def) refl t d
        (rw (create, h.loaded) at e) l fits
  Reach-IsFreshIn (kept {meta} {used} reach table def meta' e) =
      rw (← store_new_kept meta meta' (load T meta >>= λ r. register r table def) e)
        (Reach-IsFreshIn reach)
  Reach-IsFreshIn (deleted {meta} {used} reach table name found meta' e fits) =
      delete-IsFreshIn meta meta' used table name found (Reach-IsFreshIn reach) e fits
