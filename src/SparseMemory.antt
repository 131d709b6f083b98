-- ===== src/SparseMemory.antt =====
-- `SparseMemory` of iotilecore/iotile/core/hw/debug/sparse_memory.py: segments of memory that are added,
-- read and written by address. Addresses are natural numbers, and the end of a segment is the address
-- behind its last one, where the source has the last one, which for an empty segment lies before it;
-- its length, which nothing reads, is left out.
pub mod Reading
mod Tests
use coretools.Prelude.{
  ℕ, zero, suc, ◌+◌, ◌-◌, Bool, true, false, ◌&&◌, ◌||◌, not, ◌==◌, ltb, leb, if◌then◌else◌, Option,
  none, some, List, [], ◌∷◌, ◌++◌, length, take, drop, set, get_elem?,
}
use coretools.Errors.{Error, Result, ok, err}

pub record MemorySegment : Type 0 where
  pub start_address : ℕ
  pub end_address : ℕ
  pub bytes : List ℕ

pub record SparseMemory : Type 0 where
  pub segments : List MemorySegment

unfoldable pub init : SparseMemory
init = record { segments = [] }

abbrev pub in_segment : ℕ → MemorySegment → Bool
in_segment address s = leb s.start_address address && ltb address s.end_address

-- The first segment that has an address, with its number.
unfoldable pub find_from : ℕ → List MemorySegment → ℕ → Option (ℕ × MemorySegment)
find_from i [] address = none
find_from i (s ∷ l) address =
    let rest = find_from (suc i) l address in if in_segment address s then some (i, s) else rest

unfoldable pub find_address : SparseMemory → ℕ → Option (ℕ × MemorySegment)
unfolding find_from
find_address m address = find_from 0 m.segments address

-- The segment that has the address before one; there is none before zero.
unfoldable pub find_before : SparseMemory → ℕ → Option (ℕ × MemorySegment)
unfolding find_address
find_before m zero = none
find_before m (suc address) = find_address m address

abbrev pub is_none : Option (ℕ × MemorySegment) → Bool
is_none none = true
is_none (some found) = false

-- Whether `_classify_segment` raises no exception.
unfoldable pub is_disjoint : SparseMemory → ℕ → ℕ → Bool
unfolding find_before
is_disjoint m address length =
    is_none (find_address m address) && is_none (find_before m (address + length))

-- The flag `overwrite` is not looked at.
unfoldable pub add_segment : SparseMemory → ℕ → List ℕ → Result SparseMemory
unfolding is_disjoint
add_segment m address bytes =
    if not (is_disjoint m address (length bytes))
    then err Error.argument_error
    else ok (record {
      segments =
          m.segments
          ++ (record {
            start_address = address;
            end_address = address + length bytes;
            bytes = bytes;
          }
              ∷ []);
    })

-- An address, or a slice with its start, stop and step.
pub data AddressKey : Type 0 where
  at : ℕ → AddressKey
  slice : ℕ → ℕ → Option ℕ → AddressKey

-- The number and the segment of a key, and the offsets in its bytes; the second is that behind a slice.
pub record Place : Type 0 where
  pub index : ℕ
  pub segment : MemorySegment
  pub first : ℕ
  pub last : Option ℕ

abbrev step_of : Option ℕ → ℕ
step_of none = 1
step_of (some step) = step

unfoldable pub create_slice : SparseMemory → AddressKey → Result Place
unfolding find_before
create_slice m (at address) = elim (find_address m address) [
  | none ↦ err Error.argument_error
  | some (i, s) ↦
      ok (record { index = i; segment = s; first = address - s.start_address; last = none })
]
create_slice m (slice start stop step) =
    if not (step_of step == 1) then err Error.argument_error else elim (find_address m start) [
      | none ↦ err Error.argument_error
      | some (i, s) ↦ elim (find_before m stop) [
        | none ↦ err Error.argument_error
        | some (j, t) ↦
            if not (i == j)
            then err Error.argument_error
            else ok (record {
              index = i;
              segment = s;
              first = start - s.start_address;
              last = some (stop - s.start_address);
            })
      ]
    ]

-- `seg.data[start]`, or `seg.data[start:end]`, as a list.
unfoldable pub get_item : SparseMemory → AddressKey → Result (List ℕ)
unfolding create_slice
get_item m k = elim (create_slice m k) [
  | err x ↦ err x
  | ok place ↦ elim place.last [
    | some last ↦ ok (drop place.first (take last place.segment.bytes))
    | none ↦ elim (get_elem? place.segment.bytes place.first) [
      | none ↦ err Error.index_error
      | some b ↦ ok (b ∷ [])
    ]
  ]
]

abbrev with_bytes : SparseMemory → Place → List ℕ → SparseMemory
with_bytes m place bytes = record {
  segments = set m.segments place.index (record place.segment { bytes = bytes });
}

-- `seg.data[start] = item` of one byte.
unfoldable pub set_byte : SparseMemory → ℕ → ℕ → Result SparseMemory
unfolding create_slice
set_byte m address item = elim (create_slice m (at address)) [
  | err x ↦ err x
  | ok place ↦
      if not (ltb place.first (length place.segment.bytes))
      then err Error.index_error
      else if not (ltb item 256)
      then err Error.value_error
      else ok (with_bytes m place (set place.segment.bytes place.first item))
]

-- `seg.data[start:end] = item`, which takes out the bytes of the slice and puts in those of the item,
-- whatever their numbers.
unfoldable pub set_slice : SparseMemory → ℕ → ℕ → Option ℕ → List ℕ → Result SparseMemory
unfolding create_slice
set_slice m start stop step item = elim (create_slice m (slice start stop step)) [
  | err x ↦ err x
  | ok place ↦ elim place.last [
    | none ↦ err Error.type_error
    | some last ↦
        let bytes = place.segment.bytes in
        let behind = if ltb last place.first then place.first else last in
        ok (with_bytes m place (take place.first bytes ++ (item ++ drop behind bytes)))
  ]
]
