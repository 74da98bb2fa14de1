-- ===== src/Export/Yaml.antt =====
-- crates/stratodb/src/export/yaml.rs: a document as YAML, in block style.
use stratodb.Base.{ℕ, ◌+◌, [], ◌∷◌, ◌++◌, Text}
use stratodb.Crates.{Crates}
use stratodb.Value.{Value, Values, nil, cons, Entries, empty, entry}
use stratodb.Export.Quote.{quote}
use stratodb.Export.Scalars.{Displays, write_scalar}
use stratodb.Export.Json.{pad}

module _ ⦃crates : Crates⦄ (show : Displays) where
  -- Only an empty container stands on the line.
  unfoldable pub inline : Text → Value → Text
  unfolding write_scalar
  inline out (Value.leaf scalar) = write_scalar show out scalar
  inline out (Value.list items) = out ++ 91 ∷ 93 ∷ []
  inline out (Value.node entries) = out ++ 123 ∷ 125 ∷ []

  unfoldable mutual
    unfolding quote pad inline

    pub object : Text → Entries → ℕ → Text
    object out empty indent = out
    object out (entry key value entries) indent =
        object (child (quote (pad out indent) key ++ 58 ∷ []) value indent) entries indent

    pub list : Text → Values → ℕ → Text
    list out nil indent = out
    list out (cons item items) indent =
        list (child (pad out indent ++ 45 ∷ []) item indent) items indent

    pub child : Text → Value → ℕ → Text
    child out (Value.node (entry key value entries)) indent =
        object (out ++ 10 ∷ []) (entry key value entries) (indent + 2)
    child out (Value.list (cons item items)) indent =
        list (out ++ 10 ∷ []) (cons item items) (indent + 2)
    child out other indent = inline (out ++ 32 ∷ []) other ++ 10 ∷ []

  unfoldable pub to_yaml : Value → Text
  unfolding object list inline
  to_yaml (Value.node (entry key value entries)) = object [] (entry key value entries) 0
  to_yaml (Value.list (cons item items)) = list [] (cons item items) 0
  to_yaml other = inline [] other ++ 10 ∷ []
