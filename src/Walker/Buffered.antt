-- ===== src/Walker/Buffered.antt =====
-- `BufferedStreamWalker` of iotilesensorgraph/iotile/sg/walker.py. A method that changes the walker
-- returns the new walker beside its result, also where it raises. The storage engine is shared with
-- the sensor log and is only read here.
pub mod Loop
pub mod Queue
pub mod Placed
pub mod Seek
pub mod Rollover
mod Tests
use coretools.Prelude.{
  ℕ, zero, suc, ◌+◌, ◌-◌, ℤ, pos, ◌+ℤ◌, ◌-ℤ◌, Bool, true, false, not, ◌==◌, leb_ℤ, eqb_ℤ,
  if◌then◌else◌, Option, none, some, length,
}
use coretools.Errors.{Error, Result, ok, err}
use coretools.Stream
use coretools.Stream.{DataStream}
use coretools.Selector
use coretools.Selector.{DataStreamSelector}
use coretools.Reading.{IoTileReading}
use coretools.Engine
use coretools.Engine.{Engine, Area, chosen_buffer, range_size, count_matching, scan_storage}

pub record BufferedStreamWalker : Type 0 where
  pub selector : DataStreamSelector
  pub count : ℕ
  pub offset : ℤ
  pub storage_type : Area

-- `StreamWalker.matches`.
unfoldable pub matches : BufferedStreamWalker → DataStream → Bool
matches w stream = Selector.matches w.selector stream

-- The part of `__init__` behind the count of the matching readings.
abbrev pub placed : DataStreamSelector → Engine → Bool → ℕ → BufferedStreamWalker
placed selector e skip_all n =
    let (storage, streaming) = Engine.count e in
    if Selector.output selector
    then record {
      selector = selector;
      count = n;
      offset = if skip_all then pos streaming else pos 0;
      storage_type = Area.streaming;
    }
    else record {
      selector = selector;
      count = n;
      offset = if skip_all then pos storage else pos 0;
      storage_type = Area.storage;
    }

unfoldable pub init : DataStreamSelector → Engine → Bool → Result BufferedStreamWalker
init selector e true = ok (placed selector e true 0)
init selector e false = elim (count_matching e selector (pos 0)) [
  | err x ↦ err x
  | ok n ↦ ok (placed selector e false n)
]

-- The loop of `pop`. Each round reads one offset further on, so that the engine stops the loop
-- behind the last reading.
unfoldable pub pop_loop :
    ℕ → Engine → BufferedStreamWalker → Result IoTileReading × BufferedStreamWalker
pop_loop zero e w = (err Error.diverged, w)
pop_loop (suc rounds) e w = elim (Engine.get e w.storage_type w.offset) [
  | err x ↦ (err x, w)
  | ok curr ↦ elim (matches w (Stream.from_encoded curr.stream)) [
    | true ↦ (ok curr, record w { offset = w.offset +ℤ pos 1; count = w.count - 1 })
    | false ↦ pop_loop rounds e (record w { offset = w.offset +ℤ pos 1 })
  ]
]

-- The rounds that a loop from the walker's offset may take.
abbrev pub rounds_from : Engine → BufferedStreamWalker → ℕ
rounds_from e w = suc (range_size w.offset (length (chosen_buffer e w.storage_type)))

unfoldable pub pop : Engine → BufferedStreamWalker → Result IoTileReading × BufferedStreamWalker
pop e w = if w.count == 0 then (err Error.stream_empty_error, w) else pop_loop (rounds_from e w) e w

-- The loop of `peek`, over a local offset.
unfoldable pub peek_loop : ℕ → Engine → BufferedStreamWalker → ℤ → Result IoTileReading
peek_loop zero e w offset = err Error.diverged
peek_loop (suc rounds) e w offset = elim (Engine.get e w.storage_type offset) [
  | err x ↦ err x
  | ok curr ↦ elim (matches w (Stream.from_encoded curr.stream)) [
    | true ↦ ok curr
    | false ↦ peek_loop rounds e w (offset +ℤ pos 1)
  ]
]

unfoldable pub peek : Engine → BufferedStreamWalker → Result IoTileReading
peek e w =
    if w.count == 0 then err Error.stream_empty_error else peek_loop (rounds_from e w) e w w.offset

-- The strings that `seek` takes for its target; `unknown` is any other.
pub data Target : Type 0 where
  offset id unknown : Target

-- `_id_searcher`, which stops at the first reading with the id.
abbrev pub id_searcher : ℤ → ℕ → IoTileReading → Option ℕ → Bool × Option ℕ
id_searcher reading_id i reading shared =
    if eqb_ℤ (pos reading.reading_id) reading_id then (true, some i) else (false, shared)

unfoldable pub find_id : Engine → BufferedStreamWalker → ℤ → Result ℕ
find_id e w reading_id = elim (scan_storage e w.storage_type (id_searcher reading_id) none) [
  | err x ↦ err x
  | ok (_, none) ↦ err Error.unresolved_identifier_error
  | ok (_, some i) ↦ ok i
]

-- `_verify_offset`, which also moves the walker.
unfoldable pub verify_offset :
    Engine → BufferedStreamWalker → ℤ → Result (Unit {0}) × BufferedStreamWalker
verify_offset e w value =
    let (storage_count, streaming_count) = Engine.count e in
    let n : ℕ = elim w.storage_type [ Area.streaming ↦ streaming_count | _ ↦ storage_count ] in
    if leb_ℤ (pos n) value
    then (err Error.unresolved_identifier_error, w)
    else (ok tt, record w { offset = value })

-- The part of `seek` behind the choice of the offset.
unfoldable pub recount : Engine → BufferedStreamWalker → Result Bool × BufferedStreamWalker
recount e w = elim (count_matching e w.selector w.offset) [
  | err x ↦ (err x, w)
  | ok n ↦
      let w' = record w { count = n } in
      elim (Engine.get e w.storage_type w.offset) [
        | err x ↦ (err x, w')
        | ok curr ↦ (ok (matches w' (Stream.from_encoded curr.stream)), w')
      ]
]

unfoldable pub seek :
    Engine → BufferedStreamWalker → ℤ → Target → Result Bool × BufferedStreamWalker
seek e w value Target.unknown = (err Error.argument_error, w)
seek e w value Target.offset =
    let (verified, w') = verify_offset e w value in
    elim verified [ err x ↦ (err x, w') | ok _ ↦ recount e w' ]
seek e w value Target.id = elim (find_id e w value) [
  | err x ↦ (err x, w)
  | ok i ↦ recount e (record w { offset = pos i })
]

unfoldable pub skip_all : Engine → BufferedStreamWalker → BufferedStreamWalker
skip_all e w =
    let (storage, streaming) = Engine.count e in
    record w {
      offset = if Selector.output w.selector then pos streaming else pos storage;
      count = 0;
    }

unfoldable pub notify_added : BufferedStreamWalker → DataStream → BufferedStreamWalker
notify_added w stream = if not (matches w stream) then w else record w { count = w.count + 1 }

unfoldable pub notify_rollover :
    BufferedStreamWalker → DataStream → Result (Unit {0}) × BufferedStreamWalker
notify_rollover w stream =
    let w' = record w { offset = w.offset -ℤ pos 1 } in
    if not (matches w' stream)
    then (ok tt, w')
    else if w'.count == 0
    then (err Error.internal_error, w')
    else (ok tt, record w' { count = w'.count - 1 })
