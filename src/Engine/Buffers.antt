-- ===== src/Engine/Buffers.antt =====
-- The buffers of the storage engine: their bounds, what each operation does to them, and the loops
-- over them against plain lists.
use coretools.Prelude.{
  same, ℕ, zero, suc, ◌+◌, ◌-◌, ◌≤◌, ◌<◌, ◌≡◌, ◌⊎◌, inl, inr, ap, pos, Bool, true, false,
  Bool-cases, ◌==◌, ltb, if◌then◌else◌, List, [], ◌∷◌, ◌++◌, length, take, drop, count_if, arith,
  length-append, length-take, drop-cons, drop_of_length-le, take-append-drop, pos_+ℤ_one,
}
use coretools.Errors.{Error, ok, err}
use coretools.Stream
use coretools.Stream.{DataStream, output_type}
use coretools.Selector
use coretools.Selector.{DataStreamSelector}
use coretools.Reading.{IoTileReading}
use coretools.Engine.{
  Engine, Area, chosen_buffer, with_buffer, count_from, count_matching, push, get, popn, dump,
  restore,
}

-- The area of a stream or selector: streaming for outputs, else storage.
abbrev pub area_of : Bool → Area
area_of true = Area.streaming
area_of false = Area.storage

-- The test by which the loops over a buffer pick readings.
abbrev pub reads : DataStreamSelector → IoTileReading → Bool
reads selector r = Selector.matches selector (Stream.from_encoded r.stream)

abbrev pub buffer_of : Engine → DataStreamSelector → List IoTileReading
buffer_of e selector = chosen_buffer e (area_of (Selector.output selector))

-- No buffer holds more readings than its length allows.
pub record IsBounded (e : Engine) : Type 0 where
  pub storage_fits : length e.storage_data ≤ e.storage_length
  pub streaming_fits : length e.streaming_data ≤ e.streaming_length

-- A push that succeeds on an engine whose buffers fit their lengths leaves them so.
pub push-IsBounded :
    (e : Engine) (r : IoTileReading) {e' : Engine} → IsBounded e → push e r ≡ ok e' → IsBounded e'
unfolding push
push-IsBounded e r b h =
    ground (arith, length-append e.storage_data (r ∷ []), length-append e.streaming_data (r ∷ []))

-- A push appends to the area of the reading's stream and leaves the other area alone; it is refused,
-- with `StorageFullError`, exactly where that area is full.
pub push_lem :
    (e : Engine) (r : IoTileReading)
    → let area = area_of (Stream.output (Stream.from_encoded r.stream)) in
      let limit =
        if Stream.output (Stream.from_encoded r.stream)
        then e.streaming_length
        else e.storage_length in
      push e r ≡ (
        if length (chosen_buffer e area) == limit
        then err Error.storage_full_error
        else ok (with_buffer e area (chosen_buffer e area ++ (r ∷ []))))
unfolding push Stream.output
push_lem e r = ground arith

-- Popping splits the named buffer at the count and keeps the rest of the engine; it is refused
-- exactly where the buffer holds fewer readings.
pub popn_lem :
    (e : Engine) (area : Area) (n : ℕ)
    → ((length (chosen_buffer e area) < n) × (popn e area n ≡ err Error.stream_empty_error))
      ⊎ ((popped : List IoTileReading) × (rest : List IoTileReading) × (popn e area n
            ≡ ok (popped, with_buffer e area rest))
          × (length popped ≡ n)
          × (popped ++ rest ≡ chosen_buffer e area))
unfolding popn
popn_lem e area n = elim (Bool-cases (ltb (length (chosen_buffer e area)) n)) [
  | inl short ↦ inl (ground arith, rw short)
  | inr enough ↦ inr (
    take n (chosen_buffer e area),
    drop n (chosen_buffer e area),
    rw enough,
    length-take n (chosen_buffer e area) (ground arith),
    take-append-drop n (chosen_buffer e area),
  )
]

-- What was dumped is restored, over any contents, in an engine of the same lengths.
pub restore-dump :
    (e old : Engine)
    → IsBounded e
    → old.storage_length ≡ e.storage_length
    → old.streaming_length ≡ e.streaming_length
    → restore old (dump e) ≡ ok e
unfolding restore dump
restore-dump e old b h k = ground arith

pub restore-IsBounded :
    (old : Engine) (state : List IoTileReading × List IoTileReading) {e : Engine}
    → restore old state ≡ ok e
    → IsBounded e
unfolding restore
restore-IsBounded old state h = ground arith

-- Reading at an offset from 0 on: the element there, or `StreamEmptyError` behind the end.
pub get_in_range :
    (e : Engine) (area : Area) (i : ℕ)
    → i < length (chosen_buffer e area)
    → (x : IoTileReading) × (get e area (pos i) ≡ ok x)
      × (drop i (chosen_buffer e area) ≡ x ∷ drop (suc i) (chosen_buffer e area))
unfolding get
get_in_range e area i h =
    let (x, found, split) = drop-cons i (chosen_buffer e area) h in (x, ground arith, split)

pub get_behind :
    (e : Engine) (area : Area) (i : ℕ)
    → length (chosen_buffer e area) ≤ i
    → get e area (pos i) ≡ err Error.stream_empty_error
unfolding get
get_behind e area i h = ground arith

count_from-eq :
    (sel : DataStreamSelector) (l : List IoTileReading) (rounds i n : ℕ)
    → i + rounds ≡ length l
    → count_from sel l rounds (pos i) n ≡ ok (n + count_if (reads sel) (drop i l))
unfolding count_from
count_from-eq sel l zero i n h = rw (drop_of_length-le i l (omega arith)) (ap ok (omega arith))
count_from-eq sel l (suc rounds) i n h =
    let (x, found, split) = drop-cons i l (omega arith) in
    ground (
      arith,
      pos_+ℤ_one i,
      count_from-eq sel l rounds (suc i) (n + 1) (omega arith),
      count_from-eq sel l rounds (suc i) n (omega arith),
    )

-- `count_matching` counts the readings of the selector's area from the offset on that it matches.
pub count_matching_lem :
    (e : Engine) (sel : DataStreamSelector) (i : ℕ)
    → Selector.buffered sel ≡ true
    → i ≤ length (buffer_of e sel)
    → count_matching e sel (pos i) ≡ ok (count_if (reads sel) (drop i (buffer_of e sel)))
unfolding count_matching
count_matching_lem e sel i b h = ground (
  arith,
  count_from-eq sel e.streaming_data (length e.streaming_data - i) i 0,
  count_from-eq sel e.storage_data (length e.storage_data - i) i 0,
)

-- What a push does to the buffer of a selector's area.
pub buffer_of-push :
    (e : Engine) (r : IoTileReading) (sel : DataStreamSelector) {e' : Engine}
    → push e r ≡ ok e'
    → buffer_of e' sel ≡ (
        if same (Stream.output (Stream.from_encoded r.stream)) (Selector.output sel)
        then buffer_of e sel ++ (r ∷ [])
        else buffer_of e sel)
unfolding push Stream.output
buffer_of-push e r sel h = ground arith
