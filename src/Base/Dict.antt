-- ===== src/Base/Dict.antt =====
-- Maps from byte strings, as the lists of their entries in the order of the keys: a `BTreeMap` of
-- texts, and a `HashMap` of keys, of which the order of the entries is not observed.
use mathlib.Core.Path.{◌≡◌, refl}
use mathlib.Core.Bool.{true, false}
use mathlib.Core.Option.{Option, none, some}
use mathlib.Core.Logic.{inl, inr}
use mathlib.Core.List.{List, [], ◌∷◌}
use Prim.Native.Nat.{ℕ, Ordering}
use native.Mathlib.Omega.{arith}
use stratodb.Base.Tests.{if◌then◌else◌, Bool-cases}
use stratodb.Base.Search.{text_eq, text_eq_sound}
use stratodb.Base.Lex.{lex, lex_refl, lex-eq}

abbrev pub Dict : Type 0 → Type 0
Dict V = List (List ℕ × V)

module _ {V : Type 0} where
  unfoldable pub lookup : Dict V → List ℕ → Option V
  lookup [] k = none
  lookup ((j, v) ∷ d) k = if text_eq k j then some v else lookup d k

  unfoldable pub insert : Dict V → List ℕ → V → Dict V
  insert [] k v = (k, v) ∷ []
  insert ((j, w) ∷ d) k v =
      let rest = insert d k v in
      elim (lex k j) [
        | Ordering.lt ↦ (k, v) ∷ ((j, w) ∷ d)
        | Ordering.eq ↦ (k, v) ∷ d
        | Ordering.gt ↦ (j, w) ∷ rest
      ]

  unfoldable pub erase : Dict V → List ℕ → Dict V
  erase [] k = []
  erase ((j, w) ∷ d) k = let rest = erase d k in if text_eq k j then rest else (j, w) ∷ rest

  -- The entries at a key or behind it.
  unfoldable pub range : Dict V → List ℕ → Dict V
  range [] k = []
  range ((j, w) ∷ d) k =
      let rest = range d k in elim (lex k j) [ Ordering.gt ↦ rest | _ ↦ (j, w) ∷ rest ]

-- Keys in order are not equal.
text_eq_gt : (a b j : List ℕ) → lex a b ≡ Ordering.gt → text_eq j a ≡ true → text_eq j b ≡ false
text_eq_gt a b j h ja = elim (Bool-cases (text_eq j b)) [
  | inl jb ↦ absurd (differ (rw (← text_eq_sound j a ja, ← text_eq_sound j b jb, lex_refl j) at h))
  | inr other ↦ other
]
  where
    differ : Ordering.eq ≡ Ordering.gt → ⊥
    differ e = cc

pub text_eq_sym : (a b : List ℕ) → text_eq a b ≡ text_eq b a
text_eq_sym a b = elim (Bool-cases (text_eq a b)) [
  | inl same ↦ rw (text_eq_sound a b same) refl
  | inr differ ↦ elim (Bool-cases (text_eq b a)) [
    | inl same ↦ rw (text_eq_sound b a same) refl
    | inr differ' ↦ rw (differ, differ') refl
  ]
]

module _ {V : Type 0} where
  pub lookup-insert :
      (d : Dict V) (k : List ℕ) (v : V) (j : List ℕ)
      → lookup (insert d k v) j ≡ (if text_eq j k then some v else lookup d j)
  unfolding lookup insert
  lookup-insert [] k v j = refl
  lookup-insert ((i, w) ∷ d) k v j = by_order (lex k i) refl (lookup-insert d k v j)
    where
      by_order :
          (o : Ordering)
          → lex k i ≡ o
          → lookup (insert d k v) j ≡ (if text_eq j k then some v else lookup d j)
          → lookup (insert ((i, w) ∷ d) k v) j
            ≡ (if text_eq j k then some v else lookup ((i, w) ∷ d) j)
      by_order Ordering.lt e later = rw (e, insert) refl
      by_order Ordering.eq e later =
          rw (e, insert)
            (elim (Bool-cases (text_eq j k)) [
              | inl jk ↦ rw jk refl
              | inr jk ↦ rw (jk, ← lex-eq k i e, jk) refl
            ])
      by_order Ordering.gt e later =
          rw (e, insert)
            (elim (Bool-cases (text_eq j k)) [
              | inl jk ↦ rw (text_eq_gt k i j e jk, later, jk) refl
              | inr jk ↦ rw (later, jk) refl
            ])

  pub lookup-erase :
      (d : Dict V) (k j : List ℕ)
      → lookup (erase d k) j ≡ (if text_eq j k then none else lookup d j)
  unfolding lookup erase
  lookup-erase [] k j = ground arith
  lookup-erase ((i, w) ∷ d) k j = elim (Bool-cases (text_eq k i)) [
    | inl ki ↦
        rw (ki, lookup-erase d k j, ← text_eq_sound k i ki)
          (elim (Bool-cases (text_eq j k)) [ inl jk ↦ rw jk refl | inr jk ↦ rw jk refl ])
    | inr ki ↦
        rw (ki, lookup-erase d k j)
          (elim (Bool-cases (text_eq j i)) [
            | inl ji ↦ rw (ji, text_eq_sound j i ji, text_eq_sym i k, ki) refl
            | inr ji ↦ rw ji refl
          ])
  ]
