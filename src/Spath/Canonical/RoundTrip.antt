-- ===== src/Spath/Canonical/RoundTrip.antt =====
-- A canonical path, printed and parsed.
use stratodb.Base.{
  ℕ, ◌<◌, ◌^◌, ◌≡◌, ◌≢◌, refl, sym, ap, ◌∙◌, List, [], ◌∷◌, ◌++◌, append_assoc, append-nil, true,
  false, Text, text_eq, text_eq_sound, contains, split, contains-append, split_absent, split-append,
  show_u64, show_u64-lacks, All, All-append, arith, inl, inr, map, Bool-cases,
}
use stratodb.Error.{Segment, SPath, name, index, ok}
use stratodb.Spath.{dot, dot_dot}
use stratodb.Spath.Parse.{parse_token, parse_tokens, parse}
use stratodb.Spath.Display.{bracketed, show_from, show}
use stratodb.Spath.Canonical.{IsName, IsSegment, IsCanonical}
use stratodb.Spath.Canonical.Tokens.{
  IsBase, base_segments, brackets, AreIndices, brackets-append, IsToken, parse_token_lem,
}

-- The tokens of a text: those of the segments behind a token.
abbrev tokens_from : Text → List Segment → List Text
tokens_from token [] = token ∷ []
tokens_from token (name n ∷ segs) = token ∷ tokens_from n segs
tokens_from token (index i ∷ segs) = tokens_from (token ++ bracketed i) segs

brackets_lack : (is : List ℕ) → contains b'/' (brackets is) ≡ false
unfolding contains
brackets_lack [] = refl
brackets_lack (i ∷ is) = rw (
  contains-append b'/' (show_u64 i ++ b']' ∷ []) (brackets is),
  contains-append b'/' (show_u64 i) (b']' ∷ []),
  show_u64-lacks i b'/' (inl (omega arith)),
  brackets_lack is,
)

bracketed_lacks : (i : ℕ) → contains b'/' (bracketed i) ≡ false
bracketed_lacks i = rw (append-nil (bracketed i)) at (brackets_lack (i ∷ []))

split-show :
    (token : Text) (segs : List Segment)
    → contains b'/' token ≡ false
    → All IsSegment segs
    → split b'/' (token ++ show_from false segs) ≡ tokens_from token segs
unfolding show_from
split-show token [] h k = rw (append-nil token) (split_absent b'/' token h)
split-show token (name n ∷ segs) h (k, ks) =
    split-append b'/' token (n ++ show_from false segs) h
    ∙ ap (λ t. token ∷ t) (split-show n segs k.no_slash ks)
split-show token (index i ∷ segs) h (k, ks) =
    rw (← append_assoc token (bracketed i) (show_from false segs)) (
      split-show (token ++ bracketed i) segs
        (rw (contains-append b'/' token (bracketed i), h) (bracketed_lacks i)) ks)

text_eq-differs :
    (c : ℕ) (x y : Text) → contains c x ≡ true → contains c y ≡ false → text_eq x y ≡ false
text_eq-differs c x y h k = elim (Bool-cases (text_eq x y)) [
  | inl e ↦ cc (ap (contains c) (text_eq_sound x y e))
  | inr e ↦ e
]

-- A token is not `.` or `..`.
token_differs :
    (base : Text) (is : List ℕ) (y : Text)
    → contains b'[' y ≡ false
    → (IsName base → text_eq base y ≡ false)
    → IsToken base is
    → text_eq (base ++ brackets is) y ≡ false
token_differs [] [] y k f h = absurd (h.filled refl)
token_differs (c ∷ cs) [] y k f h = rw (append-nil (c ∷ cs)) (f h.base_ok)
token_differs base (i ∷ is) y k f h =
    let tail = (show_u64 i ++ b']' ∷ []) ++ brackets is in
    text_eq-differs b'[' (base ++ b'[' ∷ tail) y
      (rw (contains-append b'[' base (b'[' ∷ tail)) (unfold contains in ground arith)) k

parse_tokens_token :
    (token : Text) (tokens : List Text) (out segs : List Segment)
    → token ≢ []
    → text_eq token dot ≡ false
    → text_eq token dot_dot ≡ false
    → parse_token token out ≡ ok segs
    → parse_tokens (token ∷ tokens) out ≡ parse_tokens tokens segs
unfolding parse_tokens
parse_tokens_token [] tokens out segs filled f g h = absurd (filled refl)
parse_tokens_token (c ∷ cs) tokens out segs filled f g h = rw f (rw g (rw h refl))

parse_tokens_step :
    (base : Text) (is : List ℕ) (tokens : List Text) (out : List Segment)
    → IsToken base is
    → parse_tokens ((base ++ brackets is) ∷ tokens) out
      ≡ parse_tokens tokens (out ++ (base_segments base ++ map index is))
parse_tokens_step base is tokens out h =
    parse_tokens_token _ tokens out _ h.filled
      (token_differs base is dot (unfold contains in refl) (λ n. n.no_dot) h)
      (token_differs base is dot_dot (unfold contains in refl) (λ n. n.no_dot_dot) h)
      (parse_token_lem base is out h)

IsName-IsToken : (n : Text) → IsName n → IsToken n []
IsName-IsToken n h = record {
  base_ok = as_base n h;
  indices_ok = tt;
  filled = λ e. h.filled (sym (append-nil n) ∙ e);
}
  where
    as_base : (n : Text) → IsName n → IsBase n
    as_base [] h = tt
    as_base (c ∷ cs) h = h

name_segments : (n : Text) → IsName n → base_segments n ≡ name n ∷ []
name_segments [] h = absurd (h.filled refl)
name_segments (c ∷ cs) h = refl

append-ne-nil : (x y : Text) → y ≢ [] → x ++ y ≢ []
append-ne-nil [] y h = h
append-ne-nil (a ∷ x) y h = λ e. cc

IsToken-index :
    (base : Text) (is : List ℕ) (i : ℕ)
    → IsBase base
    → AreIndices is
    → i < 2 ^ 64
    → IsToken base (is ++ i ∷ [])
IsToken-index base is i b hs h = record {
  base_ok = b;
  indices_ok = All-append (λ i. i < 2 ^ 64) is (i ∷ []) hs (h, tt);
  filled =
      append-ne-nil base _
        (rw (brackets-append is (i ∷ [])) (append-ne-nil (brackets is) _ (λ e. cc)));
}

token_grows :
    (base : Text) (is : List ℕ) (i : ℕ)
    → base ++ brackets (is ++ i ∷ []) ≡ (base ++ brackets is) ++ bracketed i
token_grows base is i =
    rw
      (
        brackets-append is (i ∷ []),
        append-nil (bracketed i),
        append_assoc base (brackets is) (bracketed i),
      )
      refl

map_index-append : (is : List ℕ) (i : ℕ) → map index (is ++ i ∷ []) ≡ map index is ++ index i ∷ []
map_index-append [] i = refl
map_index-append (j ∷ is) i = ap (λ t. index j ∷ t) (map_index-append is i)

parse_tokens-from :
    (base : Text) (is : List ℕ) (segs out : List Segment)
    → IsToken base is
    → All IsSegment segs
    → parse_tokens (tokens_from (base ++ brackets is) segs) out
      ≡ ok (out ++ ((base_segments base ++ map index is) ++ segs))
parse_tokens-from base is [] out h k =
    parse_tokens_step base is [] out h
    ∙ unfold parse_tokens in
      ap (λ t. ok (out ++ t)) (sym (append-nil (base_segments base ++ map index is)))
parse_tokens-from base is (name n ∷ segs) out h (k, ks) =
    let front = base_segments base ++ map index is in
    let rest =
      rw (append-nil n, name_segments n k, append_assoc out front (name n ∷ segs)) at
        (parse_tokens-from n [] segs (out ++ front) (IsName-IsToken n k) ks) in
    parse_tokens_step base is (tokens_from n segs) out h ∙ rest
parse_tokens-from base is (index i ∷ segs) out h (k, ks) = rw (← token_grows base is i) (
    parse_tokens-from base (is ++ i ∷ []) segs out
      (IsToken-index base is i h.base_ok h.indices_ok k) ks
    ∙ ap (λ t. ok (out ++ t)) (simp (map_index-append, append_assoc)))

parse_filled :
    (s : Text) (segs : List Segment)
    → s ≢ []
    → parse_tokens (split b'/' s) [] ≡ ok segs
    → parse s ≡ ok (record { segments = segs })
unfolding parse
parse_filled [] segs h e = absurd (h refl)
parse_filled (c ∷ cs) segs h e = rw e

show_segments :
    (segs : List Segment)
    → All IsSegment segs
    → parse (show_from true segs) ≡ ok (record { segments = segs })
unfolding show_from
show_segments [] h = unfold parse in refl
show_segments (name n ∷ segs) (h, hs) =
    parse_filled (n ++ show_from false segs) _ (append_filled n (show_from false segs) h.filled) (
      rw (split-show n segs h.no_slash hs) (
        rw (append-nil n, name_segments n h) at
          (parse_tokens-from n [] segs [] (IsName-IsToken n h) hs)))
  where
    append_filled : (x y : Text) → x ≢ [] → x ++ y ≢ []
    append_filled [] y k = absurd (k refl)
    append_filled (a ∷ x) y k = λ e. cc
show_segments (index i ∷ segs) (h, hs) =
    parse_filled (bracketed i ++ show_from false segs) _ (λ e. cc)
      (rw (split-show (bracketed i) segs (bracketed_lacks i) hs) (
        rw (append-nil (bracketed i)) at
          (parse_tokens-from [] (i ∷ []) segs [] (IsToken-index [] [] i tt tt h) hs)))

-- A canonical path, printed and parsed, is itself: its names are not empty, hold none of `/`, `[`
-- and `]`, and are not `.` or `..`, and its indices fit in 64 bits.
pub parse-show : (p : SPath) → IsCanonical p → parse (show p) ≡ ok p
unfolding show
parse-show p h = show_segments p.segments h
