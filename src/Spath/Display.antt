-- ===== src/Spath/Display.antt =====
-- `Display` of crates/stratodb/src/path/spath.rs.
use stratodb.Base.{ℕ, List, [], ◌∷◌, ◌++◌, Bool, true, false, Text, show_u64}
use stratodb.Error.{Segment, SPath, name, index}

abbrev pub bracketed : ℕ → Text
bracketed i = b'[' ∷ (show_u64 i ++ b']' ∷ [])

abbrev pub written : Bool → Segment → Text
written true (name n) = n
written false (name n) = b'/' ∷ n
written first (index i) = bracketed i

unfoldable pub show_from : Bool → List Segment → Text
show_from first [] = []
show_from first (s ∷ rest) = written first s ++ show_from false rest

unfoldable pub show : SPath → Text
unfolding show_from
show p = show_from true p.segments
