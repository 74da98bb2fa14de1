-- ===== src/Spath/Canonical.antt =====
-- Canonical paths, which print and parse back.
pub mod Tokens
pub mod RoundTrip
use stratodb.Base.{
  ℕ, zero, suc, ◌+◌, ◌-◌, ◌≤◌, ◌<◌, ◌^◌, ◌≡◌, ◌≢◌, refl, sym, ap, ◌∙◌, List, [], ◌∷◌, ◌++◌,
  append_assoc, append-nil, true, false, some, none, Text, text_eq, text_eq_sound, find, contains,
  split, find-append, find_absent, contains-append, split_absent, split-append, parse_u64, show_u64,
  parse_u64-show, show_u64-lacks, length, length-append, take, drop, take-append, drop-append, All,
  All-append, arith, inl, inr, map, Bool-cases,
}
use native.Mathlib.Numerals.{add-one}
use stratodb.Error.{Segment, SPath, name, index, ok}
use stratodb.Spath.{dot, dot_dot}
use stratodb.Spath.Parse.{
  validate_name, parse_indices, parse_front, parse_token, parse_tokens, parse,
}
use stratodb.Spath.Display.{bracketed, show_from, show}

-- A name that a path text can hold, and an index that fits in 64 bits.
pub record IsName (n : Text) : Type 0 where
  pub filled : n ≢ []
  pub no_slash : contains b'/' n ≡ false
  pub no_open : contains b'[' n ≡ false
  pub no_close : contains b']' n ≡ false
  pub no_dot : text_eq n dot ≡ false
  pub no_dot_dot : text_eq n dot_dot ≡ false

abbrev pub IsSegment : Segment → Type 0
IsSegment (name n) = IsName n
IsSegment (index i) = i < 2 ^ 64

abbrev pub IsCanonical : SPath → Type 0
IsCanonical p = All IsSegment p.segments
