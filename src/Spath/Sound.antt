-- ===== src/Spath/Sound.antt =====
-- What `parse` returns: it always returns, and only canonical paths.
use stratodb.Base.{
  ℕ, zero, suc, ◌+◌, ◌-◌, ◌≤◌, ◌≡◌, ◌≢◌, refl, ap, List, [], ◌∷◌, ◌++◌, Option, some, none,
  Option-cases, Text, text_eq, find, find-lt, split, parse_u64, parse_u64-lt, length, length-drop,
  take, drop, All, All-append, ◌==◌, arith, inl, inr, Bool-cases,
}
use stratodb.Error.{Segment, SPath, name, index, SdbResult, ok, err, panic, ◌>>=◌, ◌>>◌}
use stratodb.Spath.{dot, dot_dot, split_last_segment}
use stratodb.Spath.Parse.{
  validate_name, parse_indices, parse_front, parse_token, parse_tokens, parse,
}
use stratodb.Spath.Slices.{slice_front, slice_behind, slice_from_lem, close_behind}
use stratodb.Spath.Display.{show}
use stratodb.Spath.Canonical.{IsName, IsSegment, IsCanonical}
use stratodb.Spath.Canonical.RoundTrip.{parse-show}

-- An error, or a list of proper segments; not a panic.
abbrev Proper : SdbResult (List Segment) → Type 0
Proper (ok segs) = All IsSegment segs
Proper (err e) = Unit
Proper panic = ⊥

validate_name_sound : (n : Text) → n ≢ [] → validate_name n ≡ ok tt → IsName n
unfolding validate_name
validate_name_sound n filled h = record {
  filled = filled;
  no_slash = ground arith;
  no_open = ground arith;
  no_close = ground arith;
  no_dot = ground arith;
  no_dot_dot = ground arith;
}

parse_indices-Proper :
    (fuel : ℕ) (rest : Text) (out : List Segment)
    → length rest ≤ fuel
    → All IsSegment out
    → Proper (parse_indices fuel rest out)
unfolding parse_indices
parse_indices-Proper fuel [] out k h = h
parse_indices-Proper zero (c ∷ cs) out k h = absurd (omega arith)
parse_indices-Proper (suc fuel) (c ∷ cs) out k h = elim (Bool-cases (c == b'[')) [
  | inr other ↦ rw other tt
  | inl opened ↦ rw opened (elim (Option-cases (find b']' (c ∷ cs))) [
    | inl open_end ↦ rw open_end tt
    | inr (close, found) ↦
        let (behind, inside) = close_behind c cs close opened found in
        let digits = slice_behind c cs close behind (omega arith) in
        rw (found, digits, ◌>>=◌)
          (elim (Option-cases (parse_u64 (take (close - 1) cs))) [
            | inl bad ↦ rw bad tt
            | inr (i, good) ↦
                let rest = slice_from_lem (c ∷ cs) (close + 1) (omega arith) in
                rw (good, rest)
                  (parse_indices-Proper fuel (drop (close + 1) (c ∷ cs)) (out ++ index i ∷ [])
                    (omega (arith, length-drop (close + 1) (c ∷ cs)))
                    (All-append IsSegment out (index i ∷ []) h (parse_u64-lt _ i good, tt)))
          ])
  ])
]

Proper-validated :
    (n : Text) (out : List Segment)
    → n ≢ []
    → All IsSegment out
    → Proper (validate_name n >> ok (out ++ name n ∷ []))
Proper-validated n out filled h =
    by_result (validate_name n) (validate_name_sound n filled)
      (unfold validate_name in ground arith)
  where
    by_result :
        (r : SdbResult (Unit {0}))
        → (r ≡ ok tt → IsName n)
        → r ≢ panic
        → Proper (r >> ok (out ++ name n ∷ []))
    by_result (ok tt) sound total = All-append IsSegment out (name n ∷ []) h (sound refl, tt)
    by_result (err e) sound total = tt
    by_result panic sound total = total refl

Proper-bind :
    (r : SdbResult (List Segment)) (f : List Segment → SdbResult (List Segment))
    → Proper r
    → ((segs : List Segment) → All IsSegment segs → Proper (f segs))
    → Proper (r >>= f)
Proper-bind (ok segs) f h k = k segs h
Proper-bind (err e) f h k = h
Proper-bind panic f h k = absurd h

parse_front-Proper :
    (n : Text) (out : List Segment) → All IsSegment out → Proper (parse_front n out)
unfolding parse_front
parse_front-Proper [] out h = h
parse_front-Proper (c ∷ cs) out h = Proper-validated (c ∷ cs) out (λ e. cc) h

parse_token-Proper :
    (token : Text) (out : List Segment)
    → token ≢ []
    → All IsSegment out
    → Proper (parse_token token out)
unfolding parse_token
parse_token-Proper token out filled h = by_bracket (find b'[' token) refl
  where
    by_bracket : (found : Option ℕ) → find b'[' token ≡ found → Proper (parse_token token out)
    by_bracket none e =
        let plain : parse_token token out ≡ (validate_name token >> ok (out ++ name token ∷ [])) =
          rw (e, parse_token) refl in
        rw plain (Proper-validated token out filled h)
    by_bracket (some bracket) e =
        let inside = find-lt b'[' token bracket e in
        let front = slice_front token bracket (omega arith) in
        let behind = slice_from_lem token bracket (omega arith) in
        let opened : parse_token token out ≡ (
            parse_front (take bracket token) out
            >>= parse_indices (length (drop bracket token)) (drop bracket token)) =
          rw (e, parse_token, front, behind) refl in
        rw opened (
          Proper-bind (parse_front (take bracket token) out) _
            (parse_front-Proper (take bracket token) out h)
            (λ segs hs. parse_indices-Proper _ (drop bracket token) segs (omega arith) hs))

pop-All :
    (segs : List Segment) (head : List Segment) (s : Segment)
    → split_last_segment segs ≡ some (head, s)
    → All IsSegment segs
    → All IsSegment head
unfolding split_last_segment
pop-All [] head s e h = cc
pop-All (a ∷ segs) head s e (h, hs) = elim (Option-cases (split_last_segment segs)) [
  | inl ended ↦
      let e1 : some ([], a) ≡ some (head, s) = rw ended at e in rw (← ap front (some-inj e1)) tt
  | inr ((head', s'), more) ↦
      let e1 : some (a ∷ head', s') ≡ some (head, s) = rw more at e in
      rw (← ap front (some-inj e1)) (h, pop-All segs head' s' more hs)
]
  where
    front : List Segment × Segment → List Segment
    front (x, y) = x

    some-inj : {x y : List Segment × Segment} → some x ≡ some y → x ≡ y
    some-inj q = cc

parse_tokens-Proper :
    (tokens : List Text) (out : List Segment) → All IsSegment out → Proper (parse_tokens tokens out)
unfolding parse_tokens
parse_tokens-Proper [] out h = h
parse_tokens-Proper ([] ∷ tokens) out h = tt
parse_tokens-Proper ((c ∷ cs) ∷ tokens) out h = elim (Bool-cases (text_eq (c ∷ cs) dot)) [
  | inl a ↦ rw a (parse_tokens-Proper tokens out h)
  | inr a ↦ rw a (elim (Bool-cases (text_eq (c ∷ cs) dot_dot)) [
    | inl b ↦ rw b (elim (Option-cases (split_last_segment out)) [
      | inl f ↦ rw f tt
      | inr ((head, s), f) ↦ rw f (parse_tokens-Proper tokens head (pop-All out head s f h))
    ])
    | inr b ↦ rw b (
        Proper-bind _ _ (parse_token-Proper (c ∷ cs) out (λ e. cc) h)
          (λ segs hs. parse_tokens-Proper tokens segs hs))
  ])
]

-- The result of `parse`, and that it is not a panic.
parse-Proper : (s : Text) → Proper (parse s >>= λ p. ok p.segments)
unfolding parse
parse-Proper [] = tt
parse-Proper (c ∷ cs) = by_result _ (parse_tokens-Proper (split b'/' (c ∷ cs)) [] tt)
  where
    by_result :
        (r : SdbResult (List Segment))
        → Proper r
        → Proper ((r >>= λ segs. ok (record { segments = segs })) >>= λ (p : SPath). ok p.segments)
    by_result (ok segs) h = h
    by_result (err e) h = h
    by_result panic h = h

parse_returns : (s : Text) (p : SPath) → parse s ≡ ok p → IsCanonical p
parse_returns s p e = rw e at (parse-Proper s)

-- Parsing a text never panics, and a path that it returns is canonical: its names are not empty,
-- hold none of `/`, `[` and `]`, and are neither `.` nor `..`, and its indices fit in 64 bits.
pub parse_sound : (s : Text) → (parse s ≢ panic) × ((p : SPath) → parse s ≡ ok p → IsCanonical p)
parse_sound s = ((λ e. rw e at (parse-Proper s)), parse_returns s)

-- A path that was parsed from a text prints to a text that parses to the same path.
pub parse-show-parse : (s : Text) (p : SPath) → parse s ≡ ok p → parse (show p) ≡ ok p
parse-show-parse s p e = parse-show p (parse_returns s p e)
