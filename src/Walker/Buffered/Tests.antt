-- ===== src/Walker/Buffered/Tests.antt =====
-- Buffered walkers on concrete readings.
use coretools.Prelude.{◌≤◌, ◌≡◌, ◌≢◌, ◌↔◌, ◌++◌, refl, List, [], ◌∷◌, count_if}
use coretools.Errors.{Error, ok, err}
use coretools.Reading.{IoTileReading}
use coretools.Stream
use coretools.Stream.{DataStream}
use coretools.Selector
use coretools.Selector.{DataStreamSelector, MatchSpec}
use coretools.Engine.{Engine}
use coretools.Engine.Buffers.{reads, buffer_of}
use coretools.Walker.Buffered
use coretools.Walker.Buffered.{BufferedStreamWalker, Target}
use coretools.Walker.Buffered.Queue.{InSync}
use coretools.Samples.{
  select_one, r1, r2, r3, engine, walker, read_walker, walker-InSync, read_walker-InSync,
}
use coretools.Walker.Buffered.Loop.{loops_end}
use coretools.Walker.Buffered.Queue.{Popped, pop_refines}
use coretools.Walker.Buffered.Seek.{IsPlaced}
use coretools.Walker.Buffered.Rollover.{notify_erased, rollover_iff}

loops_end_example :
    ((Buffered.pop engine walker).0 ≢ err Error.diverged)
    × (Buffered.peek engine walker ≢ err Error.diverged)
loops_end_example = loops_end engine walker

pop_refines_example : Popped engine walker (r1 ∷ r3 ∷ []) (Buffered.pop engine walker)
pop_refines_example = pop_refines engine walker (r1 ∷ r3 ∷ []) walker-InSync

walker-IsPlaced : IsPlaced walker
unfolding Selector.output Selector.buffered
walker-IsPlaced = record { area = refl; stored = refl }

abbrev erased_engine : Engine
erased_engine = record engine { storage_data = r2 ∷ r3 ∷ [] }

first_erased : buffer_of engine select_one ≡ (r1 ∷ []) ++ buffer_of erased_engine select_one
unfolding Selector.output
first_erased = refl

rollover_iff_example :
    (((notify_erased (r1 ∷ []) read_walker).0 ≡ ok tt)
      × ((q' : List IoTileReading) × InSync erased_engine
            (notify_erased (r1 ∷ []) read_walker).1
            q'))
    ↔ ((1 ≤ 3) × (count_if (reads select_one) (r1 ∷ []) ≡ 0))
unfolding read_walker-InSync
rollover_iff_example =
    rollover_iff engine erased_engine read_walker [] (r1 ∷ []) read_walker-InSync first_erased

unread_erased : (notify_erased (r1 ∷ []) walker).0 ≡ ok tt
unfolding notify_erased Buffered.notify_rollover Buffered.matches Selector.matches
    Stream.from_encoded
unread_erased = refl
