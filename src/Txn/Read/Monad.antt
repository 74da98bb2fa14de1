-- ===== src/Txn/Read/Monad.antt =====
-- The state of a read of crates/stratodb/src/txn/read.rs, and steps on it, which end at the first error.
use stratodb.Base.{Option}
use stratodb.Error.{SdbError, SdbResult, ok, err, panic}
use stratodb.Crates.{Crates}
use stratodb.Engine.Backend.{ReadNodes}
use stratodb.Cache.{Caches, PathCache}

module _ ⦃crates : Crates⦄ where
  -- The table, once it was opened: `none` inside where it was never written. The shared cache.
  pub record Session (R : ReadNodes) (C : Caches) : Type 0 where
    pub data_table : Option (Option R.Store)
    pub cache : PathCache C

  abbrev pub Action : ReadNodes → Caches → Type 0 → Type 0
  Action R C A = Session R C → SdbResult A × Session R C

  module _ {R : ReadNodes} {C : Caches} {A B : Type 0} where
    abbrev pub and_then : SdbResult A × Session R C → (A → Action R C B) → SdbResult B × Session R C
    and_then (ok a, session) f = f a session
    and_then (err e, session) f = (err e, session)
    and_then (panic, session) f = (panic, session)

    infixl 5 ◌>>=◌
    unfoldable pub ◌>>=◌ : Action R C A → (A → Action R C B) → Action R C B
    ◌>>=◌ m f session = and_then (m session) f

  module _ {R : ReadNodes} {C : Caches} {A : Type 0} where
    unfoldable pub pure : A → Action R C A
    pure a session = (ok a, session)

    unfoldable pub lift : SdbResult A → Action R C A
    lift result session = (result, session)

    unfoldable pub fail : SdbError → Action R C A
    fail e session = (err e, session)

    -- A method of the cache.
    unfoldable pub on_cache : (PathCache C → SdbResult A × PathCache C) → Action R C A
    on_cache f session =
        let (result, cache) = f session.cache in (result, record session { cache = cache })
