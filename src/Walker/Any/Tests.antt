-- ===== src/Walker/Any/Tests.antt =====
-- A counter walker that has two readings.
use coretools.Prelude.{refl, [], ◌∷◌}
use coretools.Samples.{r2, engine, counter_walker}
use coretools.Walker.Any
use coretools.Walker.Any.{StreamWalker}
use coretools.Walker.Any.Queue.{Taken, pop-Holds}

pop-Holds_example :
    Taken engine
      (StreamWalker.counter counter_walker)
      (r2 ∷ r2 ∷ [])
      (Any.pop engine (StreamWalker.counter counter_walker))
pop-Holds_example = pop-Holds engine (StreamWalker.counter counter_walker) (r2 ∷ r2 ∷ []) refl
