-- ===== src/SensorLog/Assoc.antt =====
-- The dict of last values, keyed by streams: a list of pairs with no key twice.
use coretools.Prelude.{◌≡◌, refl, if◌then◌else◌, Option, none, some, List, [], ◌∷◌, arith}
use coretools.Stream
use coretools.Stream.{DataStream}
use coretools.Stream.Encoding.{eq_iff}

module _ {ℓ} {V : Type ℓ} where
  -- `d.get(stream)`.
  unfoldable pub lookup : DataStream → List (DataStream × V) → Option V
  lookup k [] = none
  lookup k ((j, v) ∷ l) = if Stream.eq j k then some v else lookup k l

  -- `d[stream] = v`.
  unfoldable pub insert : DataStream → V → List (DataStream × V) → List (DataStream × V)
  insert k v [] = (k, v) ∷ []
  insert k v ((j, u) ∷ l) = if Stream.eq j k then (k, v) ∷ l else (j, u) ∷ insert k v l

  pub lookup-insert :
      (k j : DataStream) (v : V) (l : List (DataStream × V))
      → lookup j (insert k v l) ≡ (if Stream.eq k j then some v else lookup j l)
  unfolding lookup insert
  lookup-insert k j v [] = refl
  lookup-insert k j v ((i, u) ∷ l) =
      ground (arith, eq_iff k j, eq_iff i k, eq_iff i j, lookup-insert k j v l)
