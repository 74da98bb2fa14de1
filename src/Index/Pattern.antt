-- ===== src/Index/Pattern.antt =====
-- crates/stratodb/src/index/pattern.rs: the entities that an index covers. The walk is over any store
-- of nodes; the source walks a table.
pub mod Matches
pub mod Covers
use stratodb.Base.{
  ℕ, List, [], ◌∷◌, ◌++◌, map, Bool, true, false, ◌&&◌, ◌==◌, ltb, not, Text, text_eq, split,
  length, Option, none, some, if◌then◌else◌,
}
use stratodb.Error.{Segment, SPath, name, index, SdbResult, ok, err, panic, invalid_path, ◌>>=◌}
use stratodb.Crates.{Crates}
use stratodb.Key.{Skey}
use stratodb.Key
use stratodb.Spath.Parse
use stratodb.Engine.Backend.{ReadNodes}
use stratodb.Tree.{child_key, children}

-- `==` on segments.
unfoldable pub seg_eq : Segment → Segment → Bool
seg_eq (name a) (name b) = text_eq a b
seg_eq (index i) (index j) = i == j
seg_eq _ _ = false

pub data PatternSeg : Type 0 where
  lit : Segment → PatternSeg
  star : PatternSeg

pub record Pattern : Type 0 where
  pub segs : List PatternSeg

abbrev star_token : Text
star_token = b'*' ∷ []

-- The loop over the tokens.
unfoldable pub parse_tokens : List Text → List PatternSeg → SdbResult (List PatternSeg)
unfolding Parse.parse
parse_tokens [] segs = ok segs
parse_tokens ([] ∷ tokens) segs = err invalid_path
parse_tokens ((c ∷ cs) ∷ tokens) segs =
    if text_eq (c ∷ cs) star_token
    then parse_tokens tokens (segs ++ star ∷ [])
    else (Parse.parse (c ∷ cs) >>= λ p. parse_tokens tokens (segs ++ map lit p.segments))

unfoldable pub parse : Text → SdbResult Pattern
unfolding parse_tokens
parse [] = ok (record { segs = [] })
parse (c ∷ cs) = parse_tokens (split b'/' (c ∷ cs)) [] >>= λ segs. ok (record { segs = segs })

unfoldable pub depth : Pattern → ℕ
depth p = length p.segs

unfoldable pub seg_matches : PatternSeg → Segment → Bool
unfolding seg_eq
seg_matches star seg = true
seg_matches (lit l) seg = seg_eq l seg

-- `zip(..).all(..)`: up to the end of the shorter one.
unfoldable pub zip_matches : List Segment → List PatternSeg → Bool
unfolding seg_matches
zip_matches (seg ∷ base) (pat ∷ segs) = seg_matches pat seg && zip_matches base segs
zip_matches _ _ = true

unfoldable pub covers_strictly_below : Pattern → SPath → Bool
unfolding zip_matches
covers_strictly_below p base =
    if not (ltb (length base.segments) (length p.segs))
    then false
    else zip_matches base.segments p.segs

module _ ⦃crates : Crates⦄ where
  -- The loop over the children.
  unfoldable pub walk_each : (Skey → SdbResult (List Skey)) → List Skey → SdbResult (List Skey)
  walk_each go [] = ok []
  walk_each go (c ∷ cs) = go c >>= λ out. walk_each go cs >>= λ rest. ok (out ++ rest)

  unfoldable pub walk_child : (Skey → SdbResult (List Skey)) → Option Skey → SdbResult (List Skey)
  walk_child go none = ok []
  walk_child go (some c) = go c

module _ ⦃crates : Crates⦄ (R : ReadNodes) where
  -- `out` is what the walk appends, and the scope what is left of it at this depth.
  unfoldable pub walk : R.Store → List PatternSeg → Skey → List Segment → SdbResult (List Skey)
  unfolding walk_each walk_child child_key children seg_eq
  walk s [] cur scope = ok (cur ∷ [])
  walk s (lit seg ∷ segs) cur [] = child_key R s cur seg >>= walk_child (λ c. walk s segs c [])
  walk s (lit seg ∷ segs) cur (taken ∷ scope) =
      let rest : Skey → SdbResult (List Skey) = λ c. walk s segs c scope in
      if seg_eq taken seg then (child_key R s cur seg >>= walk_child rest) else ok []
  walk s (star ∷ segs) cur [] = children R s cur >>= walk_each (λ c. walk s segs c [])
  walk s (star ∷ segs) cur (taken ∷ scope) =
      child_key R s cur taken >>= walk_child (λ c. walk s segs c scope)

  unfoldable pub affected_entities : R.Store → Pattern → SPath → SdbResult (List Skey)
  unfolding walk
  affected_entities s p scope = walk s p.segs Key.root scope.segments
