-- ===== src/SparseMemory/Tests.antt =====
-- Tests of the model of `SparseMemory`, and its theorems at concrete memories.
use coretools.Prelude.{
  List, ℕ, ◌+◌, ◌-◌, ◌≡◌, refl, ◌&&◌, ◌==◌, ltb, leb, if◌then◌else◌, none, some, [], ◌∷◌, length,
  get_elem?,
}
use coretools.Errors.{Error, ok, err}
use coretools.SparseMemory.{
  MemorySegment, SparseMemory, at, slice, add_segment, get_item, set_byte, set_slice,
}
use coretools.SparseMemory.Reading.{
  AreFilled, byte_in, answer, or_new, add_segment-reads, set_byte-reads,
}

abbrev segment : MemorySegment
segment = record { start_address = 10; end_address = 13; bytes = 1 ∷ 2 ∷ 3 ∷ [] }

abbrev memory : SparseMemory
memory = record { segments = segment ∷ [] }

abbrev new_bytes : List ℕ
new_bytes = 5 ∷ 6 ∷ 7 ∷ 8 ∷ 9 ∷ []

-- The new segment encloses the old one.
abbrev enclosed : SparseMemory
enclosed = record {
  segments = segment ∷ record { start_address = 9; end_address = 14; bytes = new_bytes } ∷ [];
}

memory-AreFilled : AreFilled memory.segments
unfolding AreFilled
memory-AreFilled = (refl, tt)

add_segment-reads_example :
    AreFilled enclosed.segments
    × ((x : ℕ)
        → get_item enclosed (at x)
          ≡ answer (
              or_new (byte_in memory.segments x) (
                if leb 9 x && ltb x (9 + length new_bytes)
                then get_elem? new_bytes (x - 9)
                else none)))
unfolding add_segment
add_segment-reads_example = add_segment-reads memory enclosed 9 new_bytes memory-AreFilled refl

enclosed_reads : get_item enclosed (at 10) ≡ ok (1 ∷ [])
unfolding get_item
enclosed_reads = refl

abbrev changed : SparseMemory
changed = record { segments = record segment { bytes = 1 ∷ 200 ∷ 3 ∷ [] } ∷ [] }

set_byte-reads_example :
    AreFilled changed.segments
    × ((y : ℕ)
        → get_item changed (at y) ≡ (if 11 == y then ok (200 ∷ []) else get_item memory (at y)))
unfolding set_byte
set_byte-reads_example = set_byte-reads memory changed 11 200 memory-AreFilled refl

-- A slice that is set to fewer bytes leaves a segment that they do not fill.
abbrev resized : SparseMemory
resized = record { segments = record segment { bytes = 9 ∷ 3 ∷ [] } ∷ [] }

set_slice_resizes : set_slice memory 10 12 none (9 ∷ []) ≡ ok resized
unfolding set_slice
set_slice_resizes = refl

resized_reads : get_item resized (at 12) ≡ err Error.index_error
unfolding get_item
resized_reads = refl

slice_reads : get_item memory (slice 11 13 (some 1)) ≡ ok (2 ∷ 3 ∷ [])
unfolding get_item
slice_reads = refl
