-- ===== src/Index/Registry/Entries.antt =====
-- Lists of registered indexes, as `create` and `delete` of
-- crates/stratodb/src/index/registry/repository.rs change them.
use stratodb.Base.{
  All, ℕ, ◌+◌, ◌≤◌, ◌≡◌, refl, sym, ap, ◌∙◌, List, [], ◌∷◌, ◌++◌, false, none, some, some-inj,
  not_some, Option-cases, Bool-cases, inl, inr, Text, arith,
}
use stratodb.Base.Dict.{text_eq_sym}
use stratodb.Index.Maintenance.{IndexEntry}
use stratodb.Index.Registry.{is_named, find, take_named}

-- The ids of the entries ascend strictly, from `low` on and below `high`.
abbrev pub Ascend : ℕ → ℕ → List IndexEntry → Type 0
Ascend low high [] = low ≤ high
Ascend low high (entry ∷ entries) = (low ≤ entry.id) × Ascend (entry.id + 1) high entries

-- No two entries have one table and one name.
abbrev pub AreDistinct : List IndexEntry → Type 0
AreDistinct [] = Unit
AreDistinct (entry ∷ entries) =
    (find entry.table entry.def.name entries ≡ none) × AreDistinct entries

pub Ascend-append :
    (low high : ℕ) (entries : List IndexEntry) (entry : IndexEntry)
    → entry.id ≡ high
    → Ascend low high entries
    → Ascend low (high + 1) (entries ++ entry ∷ [])
Ascend-append low high [] entry e h = (omega arith, omega arith)
Ascend-append low high (x ∷ entries) entry e (h, hs) =
    (h, Ascend-append (x.id + 1) high entries entry e hs)

Ascend-lower :
    (low low' high : ℕ) (entries : List IndexEntry)
    → low ≤ low'
    → Ascend low' high entries
    → Ascend low high entries
Ascend-lower low low' high [] le h = omega arith
Ascend-lower low low' high (x ∷ entries) le (h, hs) = (omega arith, hs)

-- What `take_named` does to the entry in front.
data Taken (entry : IndexEntry) (entries : List IndexEntry) (found : IndexEntry)
    (others : List IndexEntry) (table name : Text) : Type 0 where
  front : others ≡ entries → Taken entry entries found others table name
  behind :
      (rest : List IndexEntry)
      → take_named table name entries ≡ some (found, rest)
      → others ≡ entry ∷ rest
      → Taken entry entries found others table name

take_named_cases :
    (table name : Text) (entry : IndexEntry) (entries : List IndexEntry) (found : IndexEntry)
    (others : List IndexEntry)
    → take_named table name (entry ∷ entries) ≡ some (found, others)
    → Taken entry entries found others table name
unfolding take_named
take_named_cases table name entry entries found others e =
    elim (Bool-cases (is_named table name entry)) [
      | inl here ↦
          let same : some (entry, entries) ≡ some (found, others) = rw here at e in
          front (sym (ap (λ p. p.1) (some-inj same)))
      | inr other ↦ elim (Option-cases (take_named table name entries)) [
        | inl nothing ↦ absurd (not_some (rw (other, nothing) at e))
        | inr ((hit, rest), later) ↦
            let same : some (hit, entry ∷ rest) ≡ some (found, others) = rw (other, later) at e in
            behind rest (rw (ap (λ p. p.0) (some-inj same)) at later)
              (sym (ap (λ p. p.1) (some-inj same)))
      ]
    ]

pub take_named-Ascend :
    (low high : ℕ) (table name : Text) (entries : List IndexEntry) (found : IndexEntry)
    (others : List IndexEntry)
    → take_named table name entries ≡ some (found, others)
    → Ascend low high entries
    → Ascend low high others
unfolding take_named
take_named-Ascend low high table name [] found others e h = absurd (not_some e)
take_named-Ascend low high table name (x ∷ entries) found others e (h, hs) =
    elim (take_named_cases table name x entries found others e) [
      | front same ↦ rw same (Ascend-lower low (x.id + 1) high entries (omega arith) hs)
      | behind rest later same ↦
          rw same (h, take_named-Ascend (x.id + 1) high table name entries found rest later hs)
    ]

-- An entry of another name in front, in the middle or at the end is not found.
find_behind :
    (t n : Text) (entry : IndexEntry) (entries : List IndexEntry)
    → find t n (entry ∷ entries) ≡ none
    → (is_named t n entry ≡ false) × (find t n entries ≡ none)
unfolding find
find_behind t n entry entries e = elim (Bool-cases (is_named t n entry)) [
  | inl here ↦ absurd (not_some (sym (rw here at e)))
  | inr other ↦ (other, rw other at e)
]

find_cons :
    (t n : Text) (entry : IndexEntry) (entries : List IndexEntry)
    → is_named t n entry ≡ false
    → find t n entries ≡ none
    → find t n (entry ∷ entries) ≡ none
unfolding find
find_cons t n entry entries other e = rw other e

find-take_named :
    (t n table name : Text) (entries : List IndexEntry) (found : IndexEntry)
    (others : List IndexEntry)
    → take_named table name entries ≡ some (found, others)
    → find t n entries ≡ none
    → find t n others ≡ none
unfolding take_named
find-take_named t n table name [] found others e h = absurd (not_some e)
find-take_named t n table name (x ∷ entries) found others e h =
    let (other, later) = find_behind t n x entries h in
    elim (take_named_cases table name x entries found others e) [
      | front same ↦ rw same later
      | behind rest taken same ↦ rw same (
          find_cons t n x rest other
            (find-take_named t n table name entries found rest taken later))
    ]

pub take_named-AreDistinct :
    (table name : Text) (entries : List IndexEntry) (found : IndexEntry) (others : List IndexEntry)
    → take_named table name entries ≡ some (found, others)
    → AreDistinct entries
    → AreDistinct others
unfolding take_named
take_named-AreDistinct table name [] found others e h = absurd (not_some e)
take_named-AreDistinct table name (x ∷ entries) found others e (h, hs) =
    elim (take_named_cases table name x entries found others e) [
      | front same ↦ rw same hs
      | behind rest taken same ↦ rw same (
        find-take_named x.table x.def.name table name entries found rest taken h,
        take_named-AreDistinct table name entries found rest taken hs,
      )
    ]

pub take_named-All :
    (P : IndexEntry → Type 0) (table name : Text) (entries : List IndexEntry) (found : IndexEntry)
    (others : List IndexEntry)
    → take_named table name entries ≡ some (found, others)
    → All P entries
    → All P others
unfolding take_named
take_named-All P table name [] found others e h = absurd (not_some e)
take_named-All P table name (x ∷ entries) found others e (h, hs) =
    elim (take_named_cases table name x entries found others e) [
      | front same ↦ rw same hs
      | behind rest taken same ↦
          rw same (h, take_named-All P table name entries found rest taken hs)
    ]

is_named_sym : (x y : IndexEntry) → is_named x.table x.def.name y ≡ is_named y.table y.def.name x
unfolding is_named
is_named_sym x y = rw (text_eq_sym y.table x.table, text_eq_sym y.def.name x.def.name) refl

-- A new entry at the end hides no name.
find-append :
    (t n : Text) (entries : List IndexEntry) (entry : IndexEntry)
    → find t n entries ≡ none
    → is_named t n entry ≡ false
    → find t n (entries ++ entry ∷ []) ≡ none
find-append t n [] entry h other = find_cons t n entry [] other h
find-append t n (x ∷ entries) entry h other =
    let (differ, later) = find_behind t n x entries h in
    find_cons t n x (entries ++ entry ∷ []) differ (find-append t n entries entry later other)

pub AreDistinct-append :
    (entries : List IndexEntry) (entry : IndexEntry)
    → find entry.table entry.def.name entries ≡ none
    → AreDistinct entries
    → AreDistinct (entries ++ entry ∷ [])
unfolding find
AreDistinct-append [] entry e h = (refl, tt)
AreDistinct-append (x ∷ entries) entry e (h, hs) =
    let (differ, later) = find_behind entry.table entry.def.name x entries e in
    (
      find-append x.table x.def.name entries entry h (is_named_sym x entry ∙ differ),
      AreDistinct-append entries entry later hs,
    )
