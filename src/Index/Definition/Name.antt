-- ===== src/Index/Definition/Name.antt =====
-- `IndexDef::decode_name`, against `IndexDef::decode`.
use stratodb.Base.{ℕ, zero, suc, ◌≡◌, refl, List, [], ◌∷◌, Text, from_utf8, Option, some, none}
use stratodb.Error.{SdbResult, ok, err, panic, ◌>>=◌ as bind_result}
use stratodb.Codec.{Reader, Decode, ◌>>=◌, pure, lift, u8, u32, bytes}
use stratodb.Scalar.Codec.{or_corrupt}
use stratodb.Spath.Parse.{parse}
use stratodb.Index.Definition.{
  IndexDef, from_byte, read_string, read_column, read_columns, decode, skip_column, skip_columns,
  decode_name,
}

module _ {A B : Type 0} where
  -- The second result is one that belongs to the first, and both stop at the same place.
  abbrev pub Matches : (A → B → Type 0) → SdbResult (A × Reader) → SdbResult (B × Reader) → Type 0
  Matches R (ok (a, r)) result = (b : B) × R a b × (result ≡ ok (b, r))
  Matches R (err e) result = Unit
  Matches R panic result = Unit

  -- Wherever `d` succeeds, so does `e`.
  pub record Follows (R : A → B → Type 0) (d : Decode A) (e : Decode B) : Type 0 where
    pub at : (r : Reader) → Matches R (d r) (e r)

  abbrev Anything : A → B → Type 0
  Anything a b = Unit

module _ {A B A' B' : Type 0} (R : A → B → Type 0) (S : A' → B' → Type 0) where
  Matches-bind :
      (x : SdbResult (A × Reader)) (y : SdbResult (B × Reader)) (d' : A → Decode A')
      (e' : B → Decode B')
      → Matches R x y
      → ((a : A) (b : B) → R a b → Follows S (d' a) (e' b))
      → Matches S (bind_result x (λ p. d' p.0 p.1)) (bind_result y (λ p. e' p.0 p.1))
  Matches-bind (ok (a, r)) y d' e' (b, related, made) k = rw made ((k a b related).at r)
  Matches-bind (err e) y d' e' h k = tt
  Matches-bind panic y d' e' h k = tt

  pub Follows-bind :
      (d : Decode A) (e : Decode B) (d' : A → Decode A') (e' : B → Decode B')
      → Follows R d e
      → ((a : A) (b : B) → R a b → Follows S (d' a) (e' b))
      → Follows S (d >>= d') (e >>= e')
  unfolding ◌>>=◌
  Follows-bind d e d' e' h k = record { at = λ r. Matches-bind (d r) (e r) d' e' (h.at r) k }

pub Follows-refl : {A : Type 0} (d : Decode A) → Follows (λ a b. a ≡ b) d d
Follows-refl {A} d = record { at = λ r. same (d r) }
  where
    same : (x : SdbResult (A × Reader)) → Matches (λ a b. a ≡ b) x x
    same (ok (a, r)) = (a, refl, refl)
    same (err e) = tt
    same panic = tt

module _ {A B C : Type 0} (S : A → B → Type 0) where
  -- A step of the first that reads nothing.
  Follows-lift :
      (result : SdbResult C) (k : C → Decode A) (e : Decode B)
      → ((c : C) → result ≡ ok c → Follows S (k c) e)
      → Follows S (lift result >>= k) e
  unfolding lift ◌>>=◌
  Follows-lift (ok c) k e h = record { at = λ r. (h c refl).at r }
  Follows-lift (err x) k e h = record { at = λ r. tt }
  Follows-lift panic k e h = record { at = λ r. tt }

pub Follows-pure :
    {A B : Type 0} (R : A → B → Type 0) (a : A) (b : B) → R a b → Follows R (pure a) (pure b)
unfolding pure
Follows-pure R a b h = record { at = λ r. (b, h, refl) }

Follows-string : Follows Anything read_string bytes
unfolding read_string ◌>>=◌ lift
Follows-string = record { at = λ r. by_result (bytes r) }
  where
    by_result :
        (x : SdbResult (List ℕ × Reader))
        → Matches
            (λ (a : Text) (b : List ℕ). Unit {0})
            (bind_result x (λ p. bind_result (or_corrupt (from_utf8 p.0)) (λ a. ok (a, p.1))))
            x
    by_result (ok (bs, r)) = checked (from_utf8 bs)
      where
        checked :
            (o : Option Text)
            → Matches
                (λ (a : Text) (b : List ℕ). Unit {0})
                (bind_result (or_corrupt o) (λ a. ok (a, r)))
                (ok (bs, r))
        checked none = tt
        checked (some text) = (bs, tt, refl)
    by_result (err e) = tt
    by_result panic = tt

Follows-column : Follows Anything read_column skip_column
unfolding read_column skip_column
Follows-column = Follows-bind Anything Anything _ _ _ _ Follows-string (λ text bs _.
    Follows-lift Anything (parse text) _ _ (λ path _.
      Follows-bind (λ a b. a ≡ b) Anything _ _ _ _ (Follows-refl u8)
        (λ byte _ _.
          Follows-lift Anything (from_byte byte) _ _
            (λ direction _. Follows-pure Anything _ tt tt))))

-- A step of the first that reads nothing, at the end.
Follows-bind_left :
    {A B A' : Type 0} (R : A → B → Type 0) (S : A' → B → Type 0) (d : Decode A) (e : Decode B)
    (d' : A → Decode A')
    → Follows R d e
    → ((a : A) (b : B) → R a b → Follows S (d' a) (pure b))
    → Follows S (d >>= d') e
unfolding ◌>>=◌ pure
Follows-bind_left {A} {B} R S d e d' h k = record { at = λ r. by_result (d r) (e r) (h.at r) }
  where
    by_result :
        (x : SdbResult (A × Reader)) (y : SdbResult (B × Reader))
        → Matches R x y
        → Matches S (bind_result x (λ p. d' p.0 p.1)) y
    by_result (ok (a, r)) y (b, related, made) = rw made ((k a b related).at r)
    by_result (err e) y h = tt
    by_result panic y h = tt

Follows-columns : (count : ℕ) → Follows Anything (read_columns count) (skip_columns count)
unfolding read_columns skip_columns
Follows-columns zero = Follows-pure Anything [] tt tt
Follows-columns (suc count) = Follows-bind Anything Anything _ _ _ _ Follows-column (λ column _ _.
    Follows-bind_left Anything Anything _ _ _ (Follows-columns count)
      (λ columns b _. Follows-pure Anything (column ∷ columns) b tt))

abbrev pub or_text : Option Text → Reader → SdbResult (Text × Reader)
or_text o r = bind_result (or_corrupt o) (λ a. ok (a, r))

abbrev pub texts : List ℕ × Reader → SdbResult (Text × Reader)
texts p = or_text (from_utf8 p.0) p.1

-- A text that both read, the one as a string and the other in two steps.
pub Follows-name :
    {A B : Type 0} (S : A → B → Type 0) (d : Text → Decode A) (e : Text → Decode B)
    → ((name : Text) → Follows S (d name) (e name))
    → Follows S (read_string >>= d) (bytes >>= λ bs. lift (or_corrupt (from_utf8 bs)) >>= e)
unfolding read_string ◌>>=◌ lift
Follows-name {A} {B} S d e h = record { at = λ r. by_result (bytes r) }
  where
    checked :
        (o : Option Text) (r : Reader)
        → Matches S
            (bind_result (or_text o r) (λ p. d p.0 p.1))
            (bind_result (or_text o r) (λ p. e p.0 p.1))
    checked none r = tt
    checked (some text) r = (h text).at r

    by_result :
        (x : SdbResult (List ℕ × Reader))
        → Matches S
            (bind_result (bind_result x texts) (λ p. d p.0 p.1))
            (bind_result x (λ p. bind_result (texts p) (λ q. e q.0 q.1)))
    by_result (ok (bs, r)) = checked (from_utf8 bs) r
    by_result (err e') = tt
    by_result panic = tt

pub Follows-decode : Follows (λ def name. def.name ≡ name) decode decode_name
unfolding decode decode_name
Follows-decode = Follows-name _ _ _ (λ name.
    Follows-bind Anything _ _ _ _ _ Follows-string (λ pattern _ _.
      Follows-bind (λ a b. a ≡ b) _ _ _ _ _ (Follows-refl u8)
        (λ unique _ _.
          Follows-bind (λ a b. a ≡ b) _ _ _ _ _ (Follows-refl u32)
            (λ count count' same. rw (← same) (
              Follows-bind Anything _ _ _ _ _ (Follows-columns count)
                (λ columns _ _. Follows-pure _ _ name refl))))))

-- Wherever `decode` reads a definition, `decode_name` reads its name, and both stop at the same
-- place, on any bytes.
pub decode_name-decode :
    (r r' : Reader) (def : IndexDef) → decode r ≡ ok (def, r') → decode_name r ≡ ok (def.name, r')
decode_name-decode r r' def made =
    let (name, same, found) = rw made at (Follows-decode.at r) in rw same found
