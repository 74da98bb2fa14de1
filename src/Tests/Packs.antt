-- ===== src/Tests/Packs.antt =====
-- An index on the children of the root, and what is stored at the root.
use mathlib.Core.List.Memᴰ.{head}
use stratodb.Base.{◌≡◌, refl, [], ◌∷◌, false, text_eq, split}
use stratodb.Error.{ok, name}
use stratodb.Index.Definition.{asc}
use stratodb.Index.Pattern.{Pattern, star, parse, parse_tokens, seg_matches}
use stratodb.Index.Pattern.Matches.{matches}
use stratodb.Index.Maintenance.{IndexEntry}
use stratodb.Txn.Write.{index_patterns, should_pack}
use stratodb.Txn.Write.Packs.{should_pack-matches}

-- The pattern is `*`.
abbrev children_index : IndexEntry
children_index = record {
  table = 116 ∷ [];
  id = 1;
  def = record {
    name = 99 ∷ [];
    pattern = 42 ∷ [];
    columns = record { path = record { segments = [] }; direction = asc } ∷ [];
    unique = false;
  };
}

abbrev any_child : Pattern
any_child = record { segs = star ∷ [] }

children_index_patterns : index_patterns (children_index ∷ []) ≡ ok (any_child ∷ [])
unfolding index_patterns parse parse_tokens split text_eq
children_index_patterns = refl

should_pack-matches_example :
    should_pack (children_index ∷ []) (record { segments = [] }) ≡ ok false
unfolding matches seg_matches
should_pack-matches_example =
    should_pack-matches (children_index ∷ []) (any_child ∷ []) any_child (record { segments = [] })
      (name (97 ∷ [])) [] children_index_patterns (head refl) refl
