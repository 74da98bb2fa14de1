-- ===== src/Export/Json.antt =====
-- crates/stratodb/src/export/json.rs: a document as JSON. The two loops over the parts of a container
-- write a separator before every part but the first.
use stratodb.Base.{
  ℕ, zero, suc, ◌+◌, ◌*◌, [], ◌∷◌, ◌++◌, Option, none, some, Text, Bool, true, false, if◌then◌else◌,
}
use stratodb.Crates.{Crates}
use stratodb.Value.{Value, Values, nil, cons, Entries, empty, entry}
use stratodb.Export.Quote.{quote}
use stratodb.Export.Scalars.{Displays, write_scalar}

unfoldable pub pad : Text → ℕ → Text
pad out zero = out
pad out (suc count) = pad (out ++ 32 ∷ []) count

-- `if i > 0`, with the separator.
abbrev pub separated : Bool → Text → Text → Text
separated first sep out = if first then out else out ++ sep

module _ ⦃crates : Crates⦄ (show : Displays) where
  unfoldable mutual
    unfolding write_scalar quote

    pub compact : Text → Value → Text
    compact out (Value.leaf scalar) = write_scalar show out scalar
    compact out (Value.list items) = compact_items (out ++ 91 ∷ []) true items ++ 93 ∷ []
    compact out (Value.node entries) = compact_entries (out ++ 123 ∷ []) true entries ++ 125 ∷ []

    pub compact_items : Text → Bool → Values → Text
    compact_items out first nil = out
    compact_items out first (cons item items) =
        compact_items (compact (separated first (44 ∷ []) out) item) false items

    pub compact_entries : Text → Bool → Entries → Text
    compact_entries out first empty = out
    compact_entries out first (entry key val entries) =
        compact_entries (compact (quote (separated first (44 ∷ []) out) key ++ 58 ∷ []) val) false
          entries

  -- `step` spaces of indentation for each level.
  unfoldable mutual
    unfolding write_scalar quote pad

    pub pretty : ℕ → Text → Value → ℕ → Text
    pretty step out (Value.leaf scalar) depth = write_scalar show out scalar
    pretty step out (Value.list nil) depth = out ++ 91 ∷ 93 ∷ []
    pretty step out (Value.list (cons item items)) depth =
        pad (pretty_items step (out ++ 91 ∷ 10 ∷ []) true (cons item items) (depth + 1) ++ 10 ∷ [])
          (step * depth)
        ++ 93 ∷ []
    pretty step out (Value.node empty) depth = out ++ 123 ∷ 125 ∷ []
    pretty step out (Value.node (entry key val entries)) depth =
        pad
          (pretty_entries step (out ++ 123 ∷ 10 ∷ []) true (entry key val entries) (depth + 1)
            ++ 10 ∷ [])
          (step * depth)
        ++ 125 ∷ []

    pub pretty_items : ℕ → Text → Bool → Values → ℕ → Text
    pretty_items step out first nil depth = out
    pretty_items step out first (cons item items) depth =
        pretty_items step
          (pretty step (pad (separated first (44 ∷ 10 ∷ []) out) (step * depth)) item depth) false
          items depth

    pub pretty_entries : ℕ → Text → Bool → Entries → ℕ → Text
    pretty_entries step out first empty depth = out
    pretty_entries step out first (entry key val entries) depth =
        pretty_entries step
          (pretty step
            (quote (pad (separated first (44 ∷ 10 ∷ []) out) (step * depth)) key ++ 58 ∷ 32 ∷ [])
            val depth)
          false entries depth

  unfoldable pub to_json : Value → Option ℕ → Text
  unfolding compact pretty
  to_json value none = compact [] value
  to_json value (some step) = pretty step [] value 0
