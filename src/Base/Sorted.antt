-- ===== src/Base/Sorted.antt =====
-- Entries in ascending order of their keys: `sort_by_key` on keys that are all different, and
-- `binary_search_by`, which halves the entries that are left in each round.
use mathlib.Core.Path.{◌≡◌, refl, sym, ap, subst, ◌∙◌}
use mathlib.Core.Bool.{true, false}
use mathlib.Core.Option.{Option, none, some}
use mathlib.Core.Logic.{inl, inr}
use mathlib.Core.List.{List, [], ◌∷◌, ◌++◌}
use Prim.Native.Nat.{ℕ, zero, suc, ◌/◌, ◌≤◌, ◌-◌, Ordering}
use native.Mathlib.Omega.{arith}
use stratodb.Base.Tests.{Bool-cases}
use stratodb.Base.Lists.{length, take, drop, length-take, length-drop, take-append-drop}
use stratodb.Base.Search.{text_eq, text_eq_sound, text_eq_refl}
use stratodb.Base.Lex.{lex, lex_refl, lex-eq, lex-swap}
use stratodb.Base.Dict.{Dict, lookup, insert, lookup-insert}

lex_trans : (a b c : List ℕ) → lex a b ≡ Ordering.lt → lex b c ≡ Ordering.lt → lex a c ≡ Ordering.lt
unfolding lex
lex_trans [] [] c h k = cc
lex_trans [] (y ∷ b) [] h k = cc
lex_trans [] (y ∷ b) (z ∷ c) h k = refl
lex_trans (x ∷ a) [] c h k = cc
lex_trans (x ∷ a) (y ∷ b) [] h k = cc
lex_trans (x ∷ a) (y ∷ b) (z ∷ c) h k = ground (arith, lex_trans a b c)

module _ {V : Type 0} where
  -- Every key is behind `k`.
  abbrev pub AreBehind : List ℕ → Dict V → Type 0
  AreBehind k [] = Unit
  AreBehind k ((j, v) ∷ d) = (lex k j ≡ Ordering.lt) × AreBehind k d

  -- Every key is in front of `k`.
  abbrev AreBefore : List ℕ → Dict V → Type 0
  AreBefore k [] = Unit
  AreBefore k ((j, v) ∷ d) = (lex j k ≡ Ordering.lt) × AreBefore k d

  abbrev pub IsSorted : Dict V → Type 0
  IsSorted [] = Unit
  IsSorted ((k, v) ∷ d) = AreBehind k d × IsSorted d

  unfoldable pub sort_by_key : Dict V → Dict V
  unfolding insert
  sort_by_key [] = []
  sort_by_key ((k, v) ∷ d) = insert (sort_by_key d) k v

  -- On as many rounds as there are entries.
  unfoldable pub bisect : ℕ → Dict V → List ℕ → Option V
  bisect zero d k = none
  bisect (suc rounds) d k = elim (drop (length d / 2) d) [
    | [] ↦ none
    | (j, v) ∷ behind ↦ elim (lex j k) [
      | Ordering.eq ↦ some v
      | Ordering.lt ↦ bisect rounds behind k
      | Ordering.gt ↦ bisect rounds (take (length d / 2) d) k
    ]
  ]

  unfoldable pub binary_search : Dict V → List ℕ → Option V
  unfolding bisect
  binary_search d k = bisect (length d) d k

  AreBehind-trans :
      (k j : List ℕ) (d : Dict V) → lex k j ≡ Ordering.lt → AreBehind j d → AreBehind k d
  AreBehind-trans k j [] h b = tt
  AreBehind-trans k j ((i, v) ∷ d) h (b, bs) = (lex_trans k j i h b, AreBehind-trans k j d h bs)

  AreBehind-insert :
      (k : List ℕ) (d : Dict V) (j : List ℕ) (v : V)
      → AreBehind k d
      → lex k j ≡ Ordering.lt
      → AreBehind k (insert d j v)
  unfolding insert
  AreBehind-insert k [] j v h e = (e, tt)
  AreBehind-insert k ((i, w) ∷ d) j v (h, hs) e =
      by_order (lex j i) refl (AreBehind-insert k d j v hs e)
    where
      by_order :
          (o : Ordering)
          → lex j i ≡ o
          → AreBehind k (insert d j v)
          → AreBehind k (insert ((i, w) ∷ d) j v)
      by_order Ordering.lt q later = rw (insert, q) (e, (h, hs))
      by_order Ordering.eq q later = rw (insert, q) (e, hs)
      by_order Ordering.gt q later = rw (insert, q) (h, later)

  insert-IsSorted : (d : Dict V) (k : List ℕ) (v : V) → IsSorted d → IsSorted (insert d k v)
  unfolding insert
  insert-IsSorted [] k v h = (tt, tt)
  insert-IsSorted ((j, w) ∷ d) k v (h, hs) = by_order (lex k j) refl (insert-IsSorted d k v hs)
    where
      by_order :
          (o : Ordering)
          → lex k j ≡ o
          → IsSorted (insert d k v)
          → IsSorted (insert ((j, w) ∷ d) k v)
      by_order Ordering.lt q later = rw (insert, q) ((q, AreBehind-trans k j d q h), (h, hs))
      by_order Ordering.eq q later = rw (insert, q, lex-eq k j q) (h, hs)
      by_order Ordering.gt q later =
          rw (insert, q) (AreBehind-insert j d k v h (rw (lex-swap k j, q) refl), later)

  pub sort_by_key-IsSorted : (d : Dict V) → IsSorted (sort_by_key d)
  unfolding sort_by_key
  sort_by_key-IsSorted [] = tt
  sort_by_key-IsSorted ((k, v) ∷ d) = insert-IsSorted (sort_by_key d) k v (sort_by_key-IsSorted d)

  -- The first entry of a key counts.
  pub lookup-sort_by_key : (d : Dict V) (k : List ℕ) → lookup (sort_by_key d) k ≡ lookup d k
  unfolding lookup sort_by_key
  lookup-sort_by_key [] k = refl
  lookup-sort_by_key ((j, v) ∷ d) k =
      lookup-insert (sort_by_key d) j v k ∙ rw (lookup-sort_by_key d k) refl

  split-IsSorted :
      (a : Dict V) (j : List ℕ) (v : V) (b : Dict V)
      → IsSorted (a ++ (j, v) ∷ b)
      → AreBefore j a × IsSorted a × AreBehind j b × IsSorted b
  split-IsSorted [] j v b (h, hs) = (tt, tt, h, hs)
  split-IsSorted ((i, w) ∷ a) j v b (h, hs) =
      let (before, sorted, behind, rest) = split-IsSorted a j v b hs in
      let (first, front) = parts a h in ((first, before), (front, sorted), behind, rest)
    where
      parts : (a : Dict V) → AreBehind i (a ++ (j, v) ∷ b) → (lex i j ≡ Ordering.lt) × AreBehind i a
      parts [] (q, qs) = (q, tt)
      parts (x ∷ a) (q, qs) = let (first, front) = parts a qs in (first, (q, front))

  -- A key that is not in front of `j` is not among those that are.
  lookup-before :
      (a : Dict V) (j k : List ℕ) (d : Dict V)
      → AreBefore j a
      → (lex k j ≡ Ordering.lt → ⊥)
      → lookup (a ++ d) k ≡ lookup d k
  unfolding lookup
  lookup-before [] j k d h far = refl
  lookup-before ((i, w) ∷ a) j k d (h, hs) far = elim (Bool-cases (text_eq k i)) [
    | inl same ↦ absurd (far (rw (text_eq_sound k i same) h))
    | inr other ↦ rw other (lookup-before a j k d hs far)
  ]

  lookup-behind :
      (b : Dict V) (j k : List ℕ) → AreBehind j b → (lex j k ≡ Ordering.lt → ⊥) → lookup b k ≡ none
  unfolding lookup
  lookup-behind [] j k h far = refl
  lookup-behind ((i, w) ∷ b) j k (h, hs) far = elim (Bool-cases (text_eq k i)) [
    | inl same ↦ absurd (far (rw (text_eq_sound k i same) h))
    | inr other ↦ rw other (lookup-behind b j k hs far)
  ]

  lookup-front :
      (a : Dict V) (k : List ℕ) (d : Dict V) → lookup d k ≡ none → lookup (a ++ d) k ≡ lookup a k
  unfolding lookup
  lookup-front [] k d e = e
  lookup-front ((i, w) ∷ a) k d e = elim (Bool-cases (text_eq k i)) [
    | inl same ↦ rw same refl
    | inr other ↦ rw other (lookup-front a k d e)
  ]

  -- One round, at the entry in the middle.
  round-lookup :
      (a b : Dict V) (j : List ℕ) (v : V) (k : List ℕ) (found_a found_b : Option V)
      → IsSorted (a ++ (j, v) ∷ b)
      → found_a ≡ lookup a k
      → found_b ≡ lookup b k
      → elim (lex j k) [ Ordering.eq ↦ some v | Ordering.lt ↦ found_b | Ordering.gt ↦ found_a ]
        ≡ lookup (a ++ (j, v) ∷ b) k
  unfolding lookup
  round-lookup a b j v k found_a found_b h ea eb = by_order (lex j k) refl
    where
      same : text_eq k k ≡ true
      same = text_eq_refl k

      parts : AreBefore j a × IsSorted a × AreBehind j b × IsSorted b
      parts = split-IsSorted a j v b h

      -- A key that is not `j` is not found there.
      not_here : (lex j k ≡ Ordering.eq → ⊥) → text_eq k j ≡ false
      not_here differ = elim (Bool-cases (text_eq k j)) [
        | inl equal ↦ absurd (differ (rw (text_eq_sound k j equal, lex_refl j) refl))
        | inr other ↦ other
      ]

      by_order :
          (o : Ordering)
          → lex j k ≡ o
          → elim o [ Ordering.eq ↦ some v | Ordering.lt ↦ found_b | Ordering.gt ↦ found_a ]
            ≡ lookup (a ++ (j, v) ∷ b) k
      by_order Ordering.eq q =
          let here = lex-eq j k q in
          sym (
            lookup-before a j k ((j, v) ∷ b) parts.0
              (λ l. let never : Ordering.eq ≡ Ordering.lt = rw (here, lex_refl k) at l in cc)
            ∙ rw (here, same) refl)
      by_order Ordering.lt q =
          eb
          ∙ sym (
              lookup-before a j k ((j, v) ∷ b) parts.0
                (λ l. let never : Ordering.gt ≡ Ordering.lt = rw (lex-swap k j, l) at q in cc)
              ∙ rw (not_here (λ e. let never : Ordering.lt ≡ Ordering.eq = sym q ∙ e in cc)) refl)
      by_order Ordering.gt q =
          ea
          ∙ sym (
              lookup-front a k ((j, v) ∷ b) (
                rw (not_here (λ e. let never : Ordering.gt ≡ Ordering.eq = sym q ∙ e in cc)) (
                  lookup-behind b j k parts.2
                    (λ l. let never : Ordering.gt ≡ Ordering.lt = sym q ∙ l in cc))))

  bisect-lookup :
      (rounds : ℕ) (d : Dict V) (k : List ℕ)
      → IsSorted d
      → length d ≤ rounds
      → bisect rounds d k ≡ lookup d k
  unfolding bisect
  bisect-lookup zero [] k h fits = unfold lookup in refl
  bisect-lookup zero (x ∷ d) k h fits = absurd (omega arith)
  bisect-lookup (suc rounds) d k h fits =
      split d (drop (length d / 2) d) refl h fits (λ e hs less. bisect-lookup rounds e k hs less)
    where
      split :
          (d rest : Dict V)
          → drop (length d / 2) d ≡ rest
          → IsSorted d
          → length d ≤ suc rounds
          → ((e : Dict V) → IsSorted e → length e ≤ rounds → bisect rounds e k ≡ lookup e k)
          → elim rest [
            | [] ↦ none
            | (j, v) ∷ behind ↦ elim (lex j k) [
              | Ordering.eq ↦ some v
              | Ordering.lt ↦ bisect rounds behind k
              | Ordering.gt ↦ bisect rounds (take (length d / 2) d) k
            ]
          ]
            ≡ lookup d k
      split [] [] e h fits later = unfold lookup in refl
      split (x ∷ d) [] e h fits later =
          let size : length (drop (length (x ∷ d) / 2) (x ∷ d)) ≡ 0 = ap length e in
          absurd (omega (arith, size, length-drop (length (x ∷ d) / 2) (x ∷ d)))
      split d ((j, v) ∷ b) e h fits later =
          let half = length d / 2 in
          let whole : take half d ++ (j, v) ∷ b ≡ d =
            ap (λ r. take half d ++ r) (sym e) ∙ take-append-drop half d in
          let sorted : IsSorted (take half d ++ (j, v) ∷ b) = subst IsSorted (sym whole) h in
          let parts = split-IsSorted (take half d) j v b sorted in
          let all : suc (length b) ≡ length d - half = ap length (sym e) ∙ length-drop half d in
          let front : length (take half d) ≡ half = length-take half d (omega arith) in
          round-lookup (take half d) b j v k (bisect rounds (take half d) k) (bisect rounds b k)
            sorted (later (take half d) parts.1 (omega arith)) (later b parts.3 (omega arith))
          ∙ ap (λ r. lookup r k) whole

  pub binary_search-lookup : (d : Dict V) (k : List ℕ) → IsSorted d → binary_search d k ≡ lookup d k
  unfolding binary_search
  binary_search-lookup d k h = bisect-lookup (length d) d k h (omega arith)
