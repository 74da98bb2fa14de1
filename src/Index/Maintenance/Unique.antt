-- ===== src/Index/Maintenance/Unique.antt =====
-- A unique index keeps each key with its entity.
use stratodb.Base.{
  ◌≡◌, refl, sym, ap, ◌∙◌, ◌⊎◌, inl, inr, List, [], ◌∷◌, true, Bool-cases, some, Text,
}
use stratodb.Error.{SdbResult, ok, err, panic}
use stratodb.Crates.{Crates}
use stratodb.Key.{Skey, skey_eq, skey_eq_sound}
use stratodb.Engine.TableKey.{TableKey}
use stratodb.Engine.TableValue.{TableValue, skey}
use stratodb.Engine.Backend.{WriteNodes}
use stratodb.Engine.Archived.{Rkyv}
use stratodb.Index.Maintenance.{guard_unique}
use stratodb.Index.Maintenance.Update.{insert_entry, insert_entries}
use stratodb.Tree.Write.Monad.{World, Write, and_then, pure, reading, writing}
use stratodb.Tree.Write.Monad

module _ ⦃crates : Crates⦄ where
  -- A put that succeeds changes one key.
  pub record PutsOne (W : WriteNodes) : Type 0 where
    pub put_one :
        (s : W.reads.Store) (k : TableKey) (v : TableValue)
        → (W.put s k v).0 ≡ ok tt
        → (j : TableKey)
        → ((j ≡ k) × (W.reads.fetch (W.put s k v).1 j ≡ ok (some v)))
          ⊎ (W.reads.fetch (W.put s k v).1 j ≡ W.reads.fetch s j)

  -- The key `j` leads to an entity.
  abbrev pub LeadsTo : (W : WriteNodes) → World W → TableKey → Skey → Type 0
  LeadsTo W w j entity = W.reads.fetch w.store j ≡ ok (some (skey entity))

  module _ ⦃rkyv : Rkyv⦄ (W : WriteNodes) (puts : PutsOne W) where
    guarded :
        (s : W.reads.Store) (k : TableKey) (a b : Skey) (name : Text)
        → W.reads.fetch s k ≡ ok (some (skey a))
        → guard_unique W.reads s k (skey b) name ≡ ok tt
        → a ≡ b
    unfolding guard_unique
    guarded s k a b name h e = elim (Bool-cases (skey_eq a b)) [
      | inl same ↦ skey_eq_sound a b same
      | inr differ ↦ let fails : err _ ≡ ok tt = rw (h, differ) at e in cc
    ]

    -- The put behind a guard that passes.
    put-LeadsTo :
        (name : Text) (k : TableKey) (b : Skey) (w w' : World W)
        → guard_unique W.reads w.store k (skey b) name ≡ ok tt
        → (W.put w.store k (skey b)).0 ≡ ok tt
        → (W.put w.store k (skey b)).1 ≡ w'.store
        → (j : TableKey) (a : Skey) → LeadsTo W w j a
        → LeadsTo W w' j a
    put-LeadsTo name k b w w' passes put same j a h =
        rw (← same) (elim (puts.put_one w.store k (skey b) put j) [
          | inr kept ↦ kept ∙ h
          | inl (is_k, now) ↦
              let a_is_b : a ≡ b = guarded w.store k a b name (rw is_k at h) passes in
              now ∙ ap (λ x. ok (some (skey x))) (sym a_is_b)
        ])

    -- One entry.
    insert_entry-LeadsTo :
        (name : Text) (k : TableKey) (b : Skey) (w w' : World W)
        → insert_entry W true name (k, skey b) w ≡ (ok tt, w')
        → (j : TableKey) (a : Skey) → LeadsTo W w j a
        → LeadsTo W w' j a
    unfolding insert_entry reading writing Monad.◌>>◌
    insert_entry-LeadsTo name k b w w' e j a h =
        go (guard_unique W.reads w.store k (skey b) name) refl e
      where
        go :
            (g : SdbResult (Unit {0}))
            → guard_unique W.reads w.store k (skey b) name ≡ g
            → and_then (g, w) (λ _. writing W (λ s. W.put s k (skey b))) ≡ (ok tt, w')
            → LeadsTo W w' j a
        go (ok tt) passes e' =
            put-LeadsTo name k b w w' passes (ap (λ p. p.0) e') (ap (λ p. p.1.store) e') j a h
        go (err x) fails e' = let never : err x ≡ ok tt = ap (λ p. p.0) e' in cc
        go panic fails e' = let never : panic ≡ ok tt = ap (λ p. p.0) e' in cc

    abbrev pub AreEntities : List (TableKey × TableValue) → Type 0
    AreEntities [] = Unit
    AreEntities ((k, v) ∷ entries) = ((b : Skey) × (v ≡ skey b)) × AreEntities entries

    -- Where the insertion of entries into a unique index succeeds, every key that led to an entity
    -- before leads to the same entity after it.
    pub insert_entries-LeadsTo :
        (name : Text) (entries : List (TableKey × TableValue)) (w w' : World W)
        → AreEntities entries
        → insert_entries W true name entries w ≡ (ok tt, w')
        → (j : TableKey) (a : Skey) → LeadsTo W w j a
        → LeadsTo W w' j a
    unfolding insert_entries Monad.◌>>◌ pure
    insert_entries-LeadsTo name [] w w' are e j a h = rw (← ap (λ p. p.1) e) h
    insert_entries-LeadsTo name ((k, v) ∷ entries) w w' ((b, is_b), are) e j a h =
        go (insert_entry W true name (k, v) w) refl e
          (λ w₁ e'. insert_entries-LeadsTo name entries w₁ w' are e' j a)
      where
        go :
            (r : SdbResult (Unit {0}) × World W)
            → insert_entry W true name (k, v) w ≡ r
            → and_then r (λ _. insert_entries W true name entries) ≡ (ok tt, w')
            → ((w₁ : World W)
                → insert_entries W true name entries w₁ ≡ (ok tt, w')
                → LeadsTo W w₁ j a
                → LeadsTo W w' j a)
            → LeadsTo W w' j a
        go (ok tt, w₁) first e' later =
            later w₁ e' (insert_entry-LeadsTo name k b w w₁ (rw is_b at first) j a h)
        go (err x, w₁) first e' later = let never : err x ≡ ok tt = ap (λ p. p.0) e' in cc
        go (panic, w₁) first e' later = let never : panic ≡ ok tt = ap (λ p. p.0) e' in cc
