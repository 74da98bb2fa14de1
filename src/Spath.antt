-- ===== src/Spath.antt =====
-- crates/stratodb/src/path/: paths of a table's tree. Texts are their UTF-8 bytes; the reserved
-- characters are single bytes.
pub mod Parse
pub mod Display
pub mod Canonical
pub mod Sound
pub mod Slices
use stratodb.Base.{
  ℕ, ◌-◌, List, [], ◌∷◌, ◌++◌, Bool, true, false, Option, some, none, Text, text_eq, if◌then◌else◌,
  length,
}
use stratodb.Error.{Segment, SPath, name, index, SdbResult, ok}

abbrev pub dot : Text
dot = b'.' ∷ []

abbrev pub dot_dot : Text
dot_dot = b'.' ∷ b'.' ∷ []

abbrev pub root : SPath
root = record { segments = [] }

unfoldable pub is_root : SPath → Bool
is_root p = elim p.segments [ [] ↦ true | _ ∷ _ ↦ false ]

unfoldable pub len : SPath → ℕ
len p = length p.segments

-- `segments.pop()`: the rest and the last one.
unfoldable pub split_last_segment : List Segment → Option (List Segment × Segment)
split_last_segment [] = none
split_last_segment (s ∷ rest) = elim (split_last_segment rest) [
  | none ↦ some ([], s)
  | some (head, last) ↦ some (s ∷ head, last)
]

unfoldable pub pop : List Segment → List Segment
unfolding split_last_segment
pop segs = elim (split_last_segment segs) [ none ↦ [] | some (head, _) ↦ head ]

unfoldable pub last : SPath → Option Segment
unfolding split_last_segment
last p = elim (split_last_segment p.segments) [ none ↦ none | some (_, s) ↦ some s ]

-- A name is appended as it is, but for `.` and `..`.
unfoldable pub push_name : SPath → Text → SPath
unfolding pop
push_name p n =
    if text_eq n dot
    then p
    else if text_eq n dot_dot
    then record { segments = pop p.segments }
    else record { segments = p.segments ++ name n ∷ [] }

unfoldable pub push_index : SPath → ℕ → SPath
push_index p i = record { segments = p.segments ++ index i ∷ [] }

unfoldable pub child_name : SPath → Text → SPath
unfolding push_name
child_name p n = push_name p n

unfoldable pub child_index : SPath → ℕ → SPath
unfolding push_index
child_index p i = push_index p i

unfoldable pub join : SPath → SPath → SPath
join p tail = record { segments = p.segments ++ tail.segments }

unfoldable pub inplace_join : SPath → SPath → SPath
inplace_join p tail = record { segments = p.segments ++ tail.segments }

unfoldable pub parent : SPath → Option SPath
unfolding split_last_segment
parent p = elim (split_last_segment p.segments) [
  | none ↦ none
  | some (head, _) ↦ some (record { segments = head })
]

unfoldable pub split_last : SPath → Option (SPath × Segment)
unfolding split_last_segment
split_last p = elim (split_last_segment p.segments) [
  | none ↦ none
  | some (head, s) ↦ some (record { segments = head }, s)
]

-- The tails that `/` and `/=` accept: a path, or a text.
pub data PathTail : Type 0 where
  path_tail : SPath → PathTail
  text_tail : Text → PathTail

unfoldable pub append_to : SPath → PathTail → SPath
unfolding inplace_join push_name
append_to p (path_tail t) = inplace_join p t
append_to p (text_tail n) = push_name p n
