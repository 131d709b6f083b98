-- ===== src/Engine.antt =====
-- `InMemoryStorageEngine` of iotilesensorgraph/iotile/sg/engine/in_memory.py: the two bounded
-- buffers of persistent readings. An offset is a Python integer, which may be negative and then
-- counts from the end of a list.
pub mod Buffers
mod Tests
use coretools.Prelude.{
  ℕ, zero, suc, ◌+◌, ◌-◌, ℤ, pos, negsuc, ◌+ℤ◌, Bool, true, false, ◌||◌, ◌==◌, ltb, leb, leb_ℤ,
  if◌then◌else◌, Option, none, some, List, [], ◌∷◌, ◌++◌, length, get_elem?, take, drop,
}
use coretools.Errors.{Error, Result, ok, err, ◌>>=◌}
use coretools.Stream
use coretools.Stream.{DataStream, output_type}
use coretools.Selector
use coretools.Selector.{DataStreamSelector}
use coretools.Reading.{IoTileReading}

pub record Engine : Type 0 where
  pub storage_length : ℕ
  pub streaming_length : ℕ
  pub storage_data : List IoTileReading
  pub streaming_data : List IoTileReading

-- The names of the buffers; `other` is any other string.
pub data Area : Type 0 where
  storage streaming other : Area

-- Any name but `streaming` chooses the storage buffer in `get` and `popn`.
abbrev pub chosen_buffer : Engine → Area → List IoTileReading
chosen_buffer e Area.streaming = e.streaming_data
chosen_buffer e Area.storage = e.storage_data
chosen_buffer e Area.other = e.storage_data

abbrev pub with_buffer : Engine → Area → List IoTileReading → Engine
with_buffer e Area.streaming rest = record e { streaming_data = rest }
with_buffer e Area.storage rest = record e { storage_data = rest }
with_buffer e Area.other rest = record e { storage_data = rest }

-- `__init__`, with the two lengths of the device model.
unfoldable pub init : ℕ → ℕ → Engine
init storage_length streaming_length = record {
  storage_length = storage_length;
  streaming_length = streaming_length;
  storage_data = [];
  streaming_data = [];
}

unfoldable pub count : Engine → ℕ × ℕ
count e = (length e.storage_data, length e.streaming_data)

-- `l[i]` of a Python list.
abbrev pub at {ℓ} : {A : Type ℓ} → List A → ℤ → Result A
at l (pos i) = elim (get_elem? l i) [ none ↦ err Error.index_error | some x ↦ ok x ]
at l (negsuc i) =
    if ltb i (length l)
    then elim (get_elem? l (length l - suc i)) [ none ↦ err Error.index_error | some x ↦ ok x ]
    else err Error.index_error

-- The number of rounds of `range(start, stop)`.
abbrev pub range_size : ℤ → ℕ → ℕ
range_size (pos start) stop = stop - start
range_size (negsuc start) stop = stop + suc start

-- The loop of `count_matching`, with the rounds left, the index and the count so far.
unfoldable pub count_from : DataStreamSelector → List IoTileReading → ℕ → ℤ → ℕ → Result ℕ
count_from selector buffer zero i n = ok n
count_from selector buffer (suc rounds) i n = elim (at buffer i) [
  | err e ↦ err e
  | ok reading ↦
      count_from selector buffer rounds (i +ℤ pos 1)
        (if Selector.matches selector (Stream.from_encoded reading.stream) then n + 1 else n)
]

unfoldable pub count_matching : Engine → DataStreamSelector → ℤ → Result ℕ
count_matching e selector offset =
    if Selector.output selector
    then count_from selector e.streaming_data (range_size offset (length e.streaming_data)) offset 0
    else if Selector.buffered selector
    then count_from selector e.storage_data (range_size offset (length e.storage_data)) offset 0
    else err Error.argument_error

-- The loop of `scan_storage`: the callable is called with each offset and reading and keeps a state;
-- it stops the scan by returning `true`.
unfoldable pub scan_from {ℓ} :
    {S : Type ℓ} → (ℕ → IoTileReading → S → Bool × S) → List IoTileReading → ℕ → ℕ → S → ℕ × S
scan_from call [] i scanned s = (scanned, s)
scan_from call (x ∷ l) i scanned s =
    let (stop, s') = call i x s in
    elim stop [ true ↦ (scanned + 1, s') | false ↦ scan_from call l (i + 1) (scanned + 1) s' ]

-- `scan_storage` with its default bounds, from the first reading to the last.
unfoldable pub scan_storage {ℓ} :
    {S : Type ℓ} → Engine → Area → (ℕ → IoTileReading → S → Bool × S) → S → Result (ℕ × S)
scan_storage e Area.storage call s = ok (scan_from call e.storage_data 0 0 s)
scan_storage e Area.streaming call s = ok (scan_from call e.streaming_data 0 0 s)
scan_storage e Area.other call s = err Error.argument_error

unfoldable pub clear : Engine → Engine
clear e = record e { storage_data = []; streaming_data = [] }

unfoldable pub push : Engine → IoTileReading → Result Engine
push e value =
    if (Stream.from_encoded value.stream).stream_type == output_type
    then if length e.streaming_data == e.streaming_length
      then err Error.storage_full_error
      else ok (record e { streaming_data = e.streaming_data ++ (value ∷ []) })
    else if length e.storage_data == e.storage_length
    then err Error.storage_full_error
    else ok (record e { storage_data = e.storage_data ++ (value ∷ []) })

unfoldable pub get : Engine → Area → ℤ → Result IoTileReading
get e area offset =
    if leb_ℤ (pos (length (chosen_buffer e area))) offset
    then err Error.stream_empty_error
    else at (chosen_buffer e area) offset

-- The popped readings, and the engine without them.
unfoldable pub popn : Engine → Area → ℕ → Result (List IoTileReading × Engine)
popn e area n =
    if ltb (length (chosen_buffer e area)) n
    then err Error.stream_empty_error
    else ok (take n (chosen_buffer e area), with_buffer e area (drop n (chosen_buffer e area)))

-- The readings that `dump` serialises, and `restore` from such; the serialised form of a reading is
-- the reading.
unfoldable pub dump : Engine → List IoTileReading × List IoTileReading
dump e = (e.storage_data, e.streaming_data)

unfoldable pub restore : Engine → List IoTileReading × List IoTileReading → Result Engine
restore e (storage_data, streaming_data) =
    if ltb e.storage_length (length storage_data) || ltb e.streaming_length (length streaming_data)
    then err Error.argument_error
    else ok (record e { storage_data = storage_data; streaming_data = streaming_data })
