-- ===== src/Spath/Parse.antt =====
-- `SPath::from_str` of crates/stratodb/src/path/spath.rs and the functions of path/functions.rs.
use stratodb.Base.{
  ℕ, zero, suc, ◌+◌, ◌-◌, List, [], ◌∷◌, ◌++◌, ◌||◌, ◌&&◌, leb, some, none, Text, text_eq, find,
  contains, split, parse_u64, length, take, drop, ◌==◌, if◌then◌else◌,
}
use stratodb.Error.{
  Segment, SPath, name, index, SdbResult, ok, err, panic, invalid_path, ◌>>=◌, ◌>>◌,
}
use stratodb.Spath.{root, dot, dot_dot, split_last_segment}

unfoldable pub validate_name : Text → SdbResult (Unit {0})
validate_name n =
    if contains b'/' n || contains b'[' n || contains b']' n
    then err invalid_path
    else if text_eq n dot || text_eq n dot_dot
    then err invalid_path
    else ok tt

-- `&s[from..to]` and `&s[from..]`, which panic out of range. That a slice ends between two characters is
-- not checked: every bound is that of an ASCII character, or of the text.
unfoldable pub slice : Text → ℕ → ℕ → SdbResult Text
slice s from to =
    if leb from to && leb to (length s) then ok (take (to - from) (drop from s)) else panic

unfoldable pub slice_from : Text → ℕ → SdbResult Text
slice_from s from = if leb from (length s) then ok (drop from s) else panic

-- The `while` loop over what is left of a token. A round takes a byte at least, so as many rounds
-- as there are bytes are enough.
unfoldable pub parse_indices : ℕ → Text → List Segment → SdbResult (List Segment)
unfolding slice slice_from
parse_indices fuel [] out = ok out
parse_indices zero (c ∷ cs) out = panic
parse_indices (suc fuel) (c ∷ cs) out =
    if c == b'['
    then elim (find b']' (c ∷ cs)) [
      | none ↦ err invalid_path
      | some close ↦ slice (c ∷ cs) 1 close >>= λ digits. elim (parse_u64 digits) [
        | none ↦ err invalid_path
        | some i ↦ slice_from (c ∷ cs) (close + 1) >>= λ rest.
            parse_indices fuel rest (out ++ index i ∷ [])
      ]
    ]
    else err invalid_path

-- The name in front of the first bracket.
unfoldable pub parse_front : Text → List Segment → SdbResult (List Segment)
unfolding validate_name
parse_front [] out = ok out
parse_front (c ∷ cs) out = validate_name (c ∷ cs) >> ok (out ++ name (c ∷ cs) ∷ [])

unfoldable pub parse_token : Text → List Segment → SdbResult (List Segment)
unfolding parse_front parse_indices validate_name slice slice_from
parse_token token out = elim (find b'[' token) [
  | none ↦ validate_name token >> ok (out ++ name token ∷ [])
  | some bracket ↦ slice token 0 bracket >>= λ front. parse_front front out >>= λ segs.
      slice_from token bracket >>= λ rest. parse_indices (length rest) rest segs
]

-- The loop over the tokens.
unfoldable pub parse_tokens : List Text → List Segment → SdbResult (List Segment)
unfolding parse_token split_last_segment
parse_tokens [] segs = ok segs
parse_tokens ([] ∷ tokens) segs = err invalid_path
parse_tokens ((c ∷ cs) ∷ tokens) segs =
    if text_eq (c ∷ cs) dot
    then parse_tokens tokens segs
    else if text_eq (c ∷ cs) dot_dot
    then elim (split_last_segment segs) [
      | none ↦ err invalid_path
      | some (head, _) ↦ parse_tokens tokens head
    ]
    else parse_token (c ∷ cs) segs >>= parse_tokens tokens

unfoldable pub parse : Text → SdbResult SPath
unfolding parse_tokens
parse [] = ok root
parse (c ∷ cs) = parse_tokens (split b'/' (c ∷ cs)) [] >>= λ segs. ok (record { segments = segs })

-- `IntoPath`: a path as it is, or a text that is parsed.
pub data PathSource : Type 0 where
  built : SPath → PathSource
  written : Text → PathSource

unfoldable pub into_path : PathSource → SdbResult SPath
unfolding parse
into_path (built p) = ok p
into_path (written s) = parse s
