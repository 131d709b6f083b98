-- ===== src/SensorLog/Walkers.antt =====
-- The walkers of a sensor log as the nodes and streamers that hold them see them: by number.
use coretools.Prelude.{ℕ, ◌==◌, if◌then◌else◌, Option, none, some, List, [], ◌∷◌}
use coretools.Walker.Any.{StreamWalker}
use coretools.SensorLog.{SensorLog, MemoryWalker}

unfoldable pub find {ℓ} : {A : Type ℓ} → ℕ → List (ℕ × A) → Option A
find i [] = none
find i ((j, w) ∷ l) = if j == i then some w else find i l

abbrev of_memory : MemoryWalker → StreamWalker
of_memory (MemoryWalker.virtual w) = StreamWalker.virtual w
of_memory (MemoryWalker.counter w) = StreamWalker.counter w

-- The state of a walker that the log keeps.
unfoldable pub walker_at : SensorLog → ℕ → Option StreamWalker
unfolding find
walker_at log i = elim (find i log.queue_walkers) [
  | some w ↦ some (StreamWalker.buffered w)
  | none ↦ elim (find i log.virtual_walkers) [ some w ↦ some (of_memory w) | none ↦ none ]
]
