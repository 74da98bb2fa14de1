-- ===== src/Tests/Lru.antt =====
-- A cache of the latest entries, and the caches of a table made of it.
use stratodb.Base.{
  ℕ, zero, suc, ◌-◌, ◌≡◌, refl, sym, ap, ◌⊎◌, inl, inr, List, [], ◌∷◌, take, Bool, true, ◌&&◌, ◌==◌,
  Option, none, some, some-inj, not_some, Bool-cases, both_true, arith, if◌then◌else◌,
}
use stratodb.Key.{Skey, skey_eq, skey_eq_sound, skey_eq_refl}
use stratodb.Index.Registry.{segments_eq}
use stratodb.Index.Registry.Equality.{segments_eq_sound, segments_eq_refl}
use stratodb.Cache.{LruCache, Caches}
use stratodb.Tests.Toy.{toy_crates}

-- Keys with a test of equality.
module _ {K V : Type 0} (same : K → K → Bool) (sound : (a b : K) → same a b ≡ true → a ≡ b)
    (reflexive : (a : K) → same a a ≡ true) where
  unfoldable first : List (K × V) → K → Option V
  first [] k = none
  first ((j, v) ∷ items) k = if same j k then some v else first items k

  first-take :
      (n : ℕ) (items : List (K × V)) (k : K) (v : V)
      → first (take n items) k ≡ some v
      → first items k ≡ some v
  unfolding first
  first-take zero items k v e = absurd (not_some e)
  first-take (suc n) [] k v e = absurd (not_some e)
  first-take (suc n) ((j, w) ∷ items) k v e = elim (Bool-cases (same j k)) [
    | inl equal ↦ rw equal (rw equal at e)
    | inr other ↦ rw other (first-take n items k v (rw other at e))
  ]

  first-push :
      (items : List (K × V)) (k : K) (v : V) (j : K) (w : V)
      → first ((k, v) ∷ items) j ≡ some w
      → ((j ≡ k) × (w ≡ v)) ⊎ (first items j ≡ some w)
  unfolding first
  first-push items k v j w e = elim (Bool-cases (same k j)) [
    | inl equal ↦
        let found : some v ≡ some w = rw equal at e in
        inl (sym (sound k j equal), sym (some-inj found))
    | inr other ↦ inr (rw other at e)
  ]

  pushed-first :
      (n : ℕ) (items : List (K × V)) (k : K) (v : V) (j : K) (w : V)
      → first ((k, v) ∷ take n items) j ≡ some w
      → ((j ≡ k) × (w ≡ v)) ⊎ (first items j ≡ some w)
  pushed-first n items k v j w e = elim (first-push (take n items) k v j w e) [
    | inl here ↦ inl here
    | inr later ↦ inr (first-take n items j w later)
  ]

  latest : LruCache K V
  unfolding first
  latest = record {
    Lru = ℕ × List (K × V);
    new = λ capacity. (capacity - 1, []);
    get = λ (room, items) k. (first items k, (room, items));
    put = λ (room, items) k v. (room, (k, v) ∷ take room items);
    peek = λ (room, items) k. first items k;
    new_empty = λ capacity k. refl;
    get-peek = λ l k. refl;
    get_keeps = λ l k j. refl;
    put_self = λ l k v. rw (reflexive k) refl;
    put_source = λ l k v j w e. pushed-first l.0 l.1 k v j w e;
  }

unfoldable same_entity : ℕ × Skey → ℕ × Skey → Bool
same_entity (g, k) (h, l) = (g == h) && skey_eq k l

same_entity_sound : (a b : ℕ × Skey) → same_entity a b ≡ true → a ≡ b
unfolding same_entity
same_entity_sound (g, k) (h, l) e =
    let (generations, keys) = both_true (g == h) (skey_eq k l) e in
    let equal : g ≡ h = ground arith in rw (equal, skey_eq_sound k l keys) refl

same_entity_refl : (a : ℕ × Skey) → same_entity a a ≡ true
unfolding same_entity
same_entity_refl (g, k) = rw (skey_eq_refl k) (ground arith)

pub toy_caches : Caches
toy_caches = record {
  paths =
      latest (λ p q. segments_eq p.segments q.segments)
        (λ p q e.
          ap (λ segments. record { segments = segments })
            (segments_eq_sound p.segments q.segments e))
        (λ p. segments_eq_refl p.segments);
  archives = latest same_entity same_entity_sound same_entity_refl;
}
