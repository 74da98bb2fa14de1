-- ===== src/Spath/Canonical/Tokens.antt =====
-- Tokens of a path text: a base, a name or nothing, with indices behind it.
use stratodb.Base.{
  ℕ, zero, suc, ◌+◌, ◌-◌, ◌≤◌, ◌<◌, ◌^◌, ◌≡◌, ◌≢◌, refl, sym, ap, ◌∙◌, List, [], ◌∷◌, ◌++◌,
  append_assoc, append-nil, false, some, none, Text, find, contains, find-append, find_absent,
  parse_u64, show_u64, parse_u64-show, show_u64-lacks, length, length-append, drop, take-append,
  drop-append, All, arith, inr, map,
}
use native.Mathlib.Numerals.{add-one}
use stratodb.Error.{Segment, name, index, SdbResult, ok, err, invalid_path, ◌>>=◌}
use stratodb.Spath.Slices.{slice_front, slice_behind, slice_from_lem}
use stratodb.Spath.Parse.{slice, slice_from, validate_name, parse_indices, parse_front, parse_token}
use stratodb.Spath.Display.{bracketed}
use stratodb.Spath.Canonical.{IsName}

-- A token is a base, a name or nothing, with indices behind it.
abbrev pub IsBase : Text → Type 0
IsBase [] = Unit
IsBase (c ∷ cs) = IsName (c ∷ cs)

abbrev pub base_segments : Text → List Segment
base_segments [] = []
base_segments (c ∷ cs) = name (c ∷ cs) ∷ []

abbrev pub brackets : List ℕ → Text
brackets [] = []
brackets (i ∷ is) = bracketed i ++ brackets is

abbrev pub AreIndices : List ℕ → Type 0
AreIndices is = All (λ i. i < 2 ^ 64) is

validate_name_lem : (n : Text) → IsName n → validate_name n ≡ ok tt
unfolding validate_name
validate_name_lem n h = rw (h.no_slash, h.no_open, h.no_close, h.no_dot, h.no_dot_dot) refl

parse_front_lem :
    (base : Text) (out : List Segment)
    → IsBase base
    → parse_front base out ≡ ok (out ++ base_segments base)
unfolding parse_front
parse_front_lem [] out h = ap ok (sym (append-nil out))
parse_front_lem (c ∷ cs) out h = rw (validate_name_lem (c ∷ cs) h)

drop_past : (c : ℕ) (x y : Text) → drop (length x + 1) (x ++ c ∷ y) ≡ y
drop_past c x y = rw add-one (past x)
  where
    past : (x : Text) → drop (suc (length x)) (x ++ c ∷ y) ≡ y
    past [] = refl
    past (b ∷ x) = past x

-- A digit string that was parsed, and the slice behind it.
digits_round :
    (fuel : ℕ) (cs : Text) (out : List Segment) (close i : ℕ) (digits rest : Text)
    → parse_u64 digits ≡ some i
    → slice_from (b'[' ∷ cs) (close + 1) ≡ ok rest
    → (elim (parse_u64 digits) as (λ x. SdbResult (List Segment)) [
      | none ↦ err invalid_path
      | some i ↦ slice_from (b'[' ∷ cs) (close + 1) >>= λ rest.
          parse_indices fuel rest (out ++ index i ∷ [])
    ])
      ≡ parse_indices fuel rest (out ++ index i ∷ [])
digits_round fuel cs out close i digits rest g h = rw (g, h) refl

-- One round of the loop, from what its calls return.
parse_indices_round :
    (fuel : ℕ) (cs : Text) (out : List Segment) (close i : ℕ) (digits rest : Text)
    → find b']' (b'[' ∷ cs) ≡ some close
    → slice (b'[' ∷ cs) 1 close ≡ ok digits
    → parse_u64 digits ≡ some i
    → slice_from (b'[' ∷ cs) (close + 1) ≡ ok rest
    → parse_indices (suc fuel) (b'[' ∷ cs) out ≡ parse_indices fuel rest (out ++ index i ∷ [])
unfolding parse_indices
parse_indices_round fuel cs out close i digits rest f d g h =
    rw (f, d) (digits_round fuel cs out close i digits rest g h)

parse_indices_step :
    (fuel i : ℕ) (rest : Text) (out : List Segment)
    → i < 2 ^ 64
    → parse_indices (suc fuel) (bracketed i ++ rest) out
      ≡ parse_indices fuel rest (out ++ index i ∷ [])
parse_indices_step fuel i rest out h =
    let d = show_u64 i in
    let opened = b'[' ∷ d in
    let absent : contains b']' opened ≡ false =
      unfold contains in show_u64-lacks i b']' (inr (omega arith)) in
    let shape = append_assoc d (b']' ∷ []) rest in
    let after : List ℕ = d ++ b']' ∷ rest in
    let size : length (b'[' ∷ after) ≡ length opened + suc (length rest) =
      length-append opened (b']' ∷ rest) in
    let digits : length opened - 1 ≡ length d = omega arith in
    parse_indices_round fuel _ out (length opened) i d rest
      (rw shape (find-append b']' opened rest absent))
      (rw shape (
        rw
          (
            slice_behind b'[' after (length opened) (omega arith) (omega arith),
            digits,
            take-append d (b']' ∷ rest),
          )
          refl))
      (parse_u64-show i h)
      (rw shape (
        rw
          (
            slice_from_lem (b'[' ∷ after) (length opened + 1) (omega arith),
            drop_past b']' opened rest,
          )
          refl))

pub brackets-append : (is js : List ℕ) → brackets (is ++ js) ≡ brackets is ++ brackets js
brackets-append [] js = refl
brackets-append (i ∷ is) js =
    ap (λ t. bracketed i ++ t) (brackets-append is js)
    ∙ sym (append_assoc (bracketed i) (brackets is) (brackets js))

parse_indices-brackets :
    (is : List ℕ) (fuel : ℕ) (out : List Segment)
    → AreIndices is
    → length is ≤ fuel
    → parse_indices fuel (brackets is) out ≡ ok (out ++ map index is)
parse_indices-brackets [] fuel out h k = unfold parse_indices in ap ok (sym (append-nil out))
parse_indices-brackets (i ∷ is) zero out h k = absurd (omega arith)
parse_indices-brackets (i ∷ is) (suc fuel) out (h, hs) k =
    parse_indices_step fuel i (brackets is) out h
    ∙ parse_indices-brackets is fuel (out ++ index i ∷ []) hs (omega arith)
    ∙ ap ok (append_assoc out (index i ∷ []) (map index is))

length-brackets : (is : List ℕ) → length is ≤ length (brackets is)
length-brackets [] = omega arith
length-brackets (i ∷ is) =
    omega (arith, length-brackets is, length-append (bracketed i) (brackets is))

IsBase-lacks_open : (base : Text) → IsBase base → contains b'[' base ≡ false
IsBase-lacks_open [] h = unfold contains in refl
IsBase-lacks_open (c ∷ cs) h = h.no_open

-- A token that is not empty.
pub record IsToken (base : Text) (is : List ℕ) : Type 0 where
  pub base_ok : IsBase base
  pub indices_ok : AreIndices is
  pub filled : base ++ brackets is ≢ []

parse_token_plain :
    (token : Text) (out : List Segment)
    → find b'[' token ≡ none
    → validate_name token ≡ ok tt
    → parse_token token out ≡ ok (out ++ name token ∷ [])
unfolding parse_token
parse_token_plain token out f h = rw (f, parse_token) (rw h refl)

parse_token_indexed :
    (base rest : Text) (out front segs : List Segment)
    → contains b'[' base ≡ false
    → parse_front base out ≡ ok front
    → parse_indices (length (b'[' ∷ rest)) (b'[' ∷ rest) front ≡ ok segs
    → parse_token (base ++ b'[' ∷ rest) out ≡ ok segs
unfolding parse_token
parse_token_indexed base rest out front segs absent f h =
    let token : List ℕ = base ++ b'[' ∷ rest in
    let size : length token ≡ length base + length (b'[' ∷ rest) =
      length-append base (b'[' ∷ rest) in
    rw
      (
        find-append b'[' base rest absent,
        parse_token,
        slice_front token (length base) (omega arith),
        take-append base (b'[' ∷ rest),
        f,
        slice_from_lem token (length base) (omega arith),
        drop-append base (b'[' ∷ rest),
      )
      h

pub parse_token_lem :
    (base : Text) (is : List ℕ) (out : List Segment)
    → IsToken base is
    → parse_token (base ++ brackets is) out ≡ ok (out ++ (base_segments base ++ map index is))
parse_token_lem [] [] out h = absurd (h.filled refl)
parse_token_lem (c ∷ cs) [] out h =
    let n = c ∷ cs in
    rw (append-nil n) (
      parse_token_plain n out (find_absent b'[' n h.base_ok.no_open)
        (validate_name_lem n h.base_ok))
parse_token_lem base (i ∷ is) out h =
    let front = out ++ base_segments base in
    parse_token_indexed base _ out front _ (IsBase-lacks_open base h.base_ok)
      (parse_front_lem base out h.base_ok)
      (parse_indices-brackets (i ∷ is) _ front h.indices_ok (length-brackets (i ∷ is))
        ∙ ap ok (append_assoc out (base_segments base) (map index (i ∷ is))))
