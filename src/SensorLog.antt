-- ===== src/SensorLog.antt =====
-- `SensorLog` of iotilesensorgraph/iotile/sg/sensor_log.py: the storage engine with the walkers that
-- are kept in step with it. Walkers are shared objects in the source; here each has a number, its
-- identity, and the log holds its state.
pub mod Push
pub mod Walkers
pub mod Assoc
pub mod Sync
pub mod Room
pub mod Full
pub mod Rollover
pub mod CaughtUp
mod Tests
use coretools.Prelude.{
  ℕ, ◌+◌, pos, Bool, true, false, not, ◌&&◌, ◌||◌, ◌==◌, same, if◌then◌else◌, Option, none, some,
  List, [], ◌∷◌, ◌++◌, map,
}
use coretools.Errors.{Error, Result, ok, err}
use coretools.Stream
use coretools.Stream.{DataStream, counter_type}
use coretools.Selector
use coretools.Selector.{DataStreamSelector}
use coretools.Reading.{IoTileReading}
use coretools.Engine
use coretools.Engine.{Engine, Area}
use coretools.Walker.Buffered
use coretools.Walker.Buffered.{BufferedStreamWalker}
use coretools.Walker.Virtual
use coretools.Walker.Virtual.{VirtualStreamWalker}
use coretools.Walker.Counter
use coretools.Walker.Counter.{CounterStreamWalker}

-- The walkers whose readings live in the walker itself.
pub data MemoryWalker : Type 0 where
  virtual : VirtualStreamWalker → MemoryWalker
  counter : CounterStreamWalker → MemoryWalker

-- `assigner` answers by the number of the call, so that a callable with a state of its own is one;
-- `assigned` counts its calls. `calls` records the calls of the callbacks, which are known by number.
pub record SensorLog : Type 0 where
  pub engine : Engine
  pub erase_size : ℕ
  pub rollover_streaming : Bool
  pub rollover_storage : Bool
  pub queue_walkers : List (ℕ × BufferedStreamWalker)
  pub virtual_walkers : List (ℕ × MemoryWalker)
  pub last_values : List (DataStream × IoTileReading)
  pub next_walker : ℕ
  pub assigner : Option (ℕ → DataStream → IoTileReading → ℕ)
  pub assigned : ℕ
  pub monitors : List (Option DataStreamSelector × List ℕ)
  pub calls : List (ℕ × DataStream × IoTileReading)

abbrev pub memory_selector : MemoryWalker → DataStreamSelector
memory_selector (virtual w) = w.selector
memory_selector (counter w) = w.selector

abbrev pub memory_reading : MemoryWalker → Option IoTileReading
memory_reading (virtual w) = w.reading
memory_reading (counter w) = w.reading

abbrev pub memory_matches : MemoryWalker → DataStream → Bool
memory_matches w stream = Selector.matches (memory_selector w) stream

abbrev pub memory_push : MemoryWalker → DataStream → IoTileReading → Result MemoryWalker
memory_push (virtual w) stream r = elim (Virtual.push w stream r) [
  | err x ↦ err x
  | ok w' ↦ ok (virtual w')
]
memory_push (counter w) stream r = elim (Counter.push w stream r) [
  | err x ↦ err x
  | ok w' ↦ ok (counter w')
]

abbrev pub memory_skip_all : MemoryWalker → MemoryWalker
memory_skip_all (virtual w) = virtual (Virtual.skip_all w)
memory_skip_all (counter w) = counter (Counter.skip_all w)

-- `__init__`, with the properties that it reads of the device model.
unfoldable pub init : ℕ → ℕ → ℕ → Option (ℕ → DataStream → IoTileReading → ℕ) → SensorLog
init max_storage_buffer max_streaming_buffer buffer_erase_size id_assigner = record {
  engine = Engine.init max_storage_buffer max_streaming_buffer;
  erase_size = buffer_erase_size;
  rollover_streaming = true;
  rollover_storage = true;
  queue_walkers = [];
  virtual_walkers = [];
  last_values = [];
  next_walker = 0;
  assigner = id_assigner;
  assigned = 0;
  monitors = [];
  calls = [];
}

-- The area is given by its name.
unfoldable pub set_rollover : SensorLog → Area → Bool → Result SensorLog
set_rollover log Area.streaming enabled = ok (record log { rollover_streaming = enabled })
set_rollover log Area.storage enabled = ok (record log { rollover_storage = enabled })
set_rollover log Area.other enabled = err Error.argument_error

-- The constant streams that have walkers, with their values.
unfoldable pub constants_of :
    List (ℕ × MemoryWalker) → Result (List (DataStream × Option IoTileReading))
constants_of [] = ok []
constants_of ((_, w) ∷ ws) =
    let rest = constants_of ws in
    if not (Selector.inexhaustible (memory_selector w))
    then rest
    else elim (Selector.as_stream (memory_selector w)) [
      | err x ↦ err x
      | ok stream ↦ elim rest [ err x ↦ err x | ok l ↦ ok ((stream, memory_reading w) ∷ l) ]
    ]

unfoldable pub dump_constants : SensorLog → Result (List (DataStream × Option IoTileReading))
unfolding constants_of
dump_constants log = constants_of log.virtual_walkers

-- A new walker with its identity, and the log that keeps it in step.
unfoldable pub create_walker : SensorLog → DataStreamSelector → Bool → Result (ℕ × SensorLog)
create_walker log selector skip_all =
    if Selector.buffered selector
    then (elim (Buffered.init selector log.engine skip_all) [
      | err x ↦ err x
      | ok w ↦ ok (
        log.next_walker,
        record log {
          queue_walkers = log.queue_walkers ++ ((log.next_walker, w) ∷ []);
          next_walker = log.next_walker + 1;
        },
      )
    ])
    else if selector.match_type == counter_type
    then (elim (Counter.init selector) [ err x ↦ err x | ok w ↦ ok (added (counter w)) ])
    else (elim (Virtual.init selector) [ err x ↦ err x | ok w ↦ ok (added (virtual w)) ])
  where
    added : MemoryWalker → ℕ × SensorLog
    added w = (
      log.next_walker,
      record log {
        virtual_walkers = log.virtual_walkers ++ ((log.next_walker, w) ∷ []);
        next_walker = log.next_walker + 1;
      },
    )

-- `l.remove(walker)`, by identity; it raises `ValueError` where the walker is not in the list.
unfoldable pub remove {ℓ} : {A : Type ℓ} → ℕ → List (ℕ × A) → Result (List (ℕ × A))
remove i [] = err Error.value_error
remove i ((j, w) ∷ l) =
    let rest = remove i l in
    if j == i then ok l else elim rest [ err x ↦ err x | ok l' ↦ ok ((j, w) ∷ l') ]

-- The walker is given by its identity and its `buffered` property.
unfoldable pub destroy_walker : SensorLog → ℕ → Bool → Result SensorLog
destroy_walker log i true = elim (remove i log.queue_walkers) [
  | err x ↦ err x
  | ok l ↦ ok (record log { queue_walkers = l })
]
destroy_walker log i false = elim (remove i log.virtual_walkers) [
  | err x ↦ err x
  | ok l ↦ ok (record log { virtual_walkers = l })
]

unfoldable pub destroy_all_walkers : SensorLog → SensorLog
destroy_all_walkers log = record log { queue_walkers = []; virtual_walkers = [] }

unfoldable pub count : SensorLog → ℕ × ℕ
count log = Engine.count log.engine

unfoldable pub clear : SensorLog → SensorLog
clear log =
    let e = Engine.clear log.engine in
    record log {
      engine = e;
      queue_walkers = map (λ w. (w.0, Buffered.skip_all e w.1)) log.queue_walkers;
      virtual_walkers = map (λ w. (w.0, memory_skip_all w.1)) log.virtual_walkers;
      last_values = [];
    }
