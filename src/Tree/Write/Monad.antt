-- ===== src/Tree/Write/Monad.antt =====
-- Steps on a store and the state of the key generator, which end at the first error.
use stratodb.Base.{ℕ}
use stratodb.Error.{SdbError, SdbResult, ok, err, panic}
use stratodb.Crates.{Crates}
use stratodb.Key.{Skey}
use stratodb.Key
use stratodb.Engine.Backend.{WriteNodes}

module _ ⦃crates : Crates⦄ where
  pub record World (W : WriteNodes) : Type 0 where
    pub store : W.reads.Store
    pub seed : ℕ

  abbrev pub Write : WriteNodes → Type 0 → Type 0
  Write W A = World W → SdbResult A × World W

  module _ {W : WriteNodes} {A B : Type 0} where
    abbrev pub and_then : SdbResult A × World W → (A → Write W B) → SdbResult B × World W
    and_then (ok a, w) f = f a w
    and_then (err e, w) f = (err e, w)
    and_then (panic, w) f = (panic, w)

    infixl 5 ◌>>=◌ ◌>>◌
    unfoldable pub ◌>>=◌ : Write W A → (A → Write W B) → Write W B
    ◌>>=◌ m f w = and_then (m w) f

    unfoldable pub ◌>>◌ : Write W A → Write W B → Write W B
    ◌>>◌ m n w = and_then (m w) (λ _. n)

  module _ (W : WriteNodes) {A : Type 0} where
    unfoldable pub pure : A → Write W A
    pure a w = (ok a, w)

    unfoldable pub fail : SdbError → Write W A
    fail e w = (err e, w)

    unfoldable pub crash : Write W A
    crash w = (panic, w)

    unfoldable pub reading : (W.reads.Store → SdbResult A) → Write W A
    reading f w = (f w.store, w)

  module _ (W : WriteNodes) where
    unfoldable pub writing :
        (W.reads.Store → SdbResult (Unit {0}) × W.reads.Store) → Write W (Unit {0})
    writing f w = let (result, s) = f w.store in (result, record w { store = s })

    -- `Skey::generate`.
    unfoldable pub generate : Write W Skey
    generate w = let (k, seed) = Key.generate w.seed in (ok k, record w { seed = seed })
