-- ===== src/Stream/Important.antt =====
-- The streams that important system inputs are copied to.
use coretools.Prelude.{◌≡◌, inl, inr, true, false, Bool-cases, leb, arith, ltb}
use coretools.Errors.{ok, err, Error}
use coretools.Stream.{
  DataStream, associated_stream, important, buffered, output, important_system_storage_start,
  buffered_type, output_type,
}

-- An important system input has an associated stream: a system stream with its id that is stored
-- persistently, in the streaming area exactly where the id is below the start of the storage range,
-- and that is not itself an important input.
pub associated_stream-important :
    (s : DataStream)
    → important s ≡ true
    → (t : DataStream) × (associated_stream s ≡ ok t)
      × (t.stream_id ≡ s.stream_id)
      × (t.system ≡ true)
      × (buffered t ≡ true)
      × (output t ≡ ltb s.stream_id important_system_storage_start)
      × (important t ≡ false)
unfolding associated_stream buffered output
associated_stream-important s h =
    elim (Bool-cases (leb important_system_storage_start s.stream_id)) [
      | inl e ↦ (
        record { stream_type = buffered_type; stream_id = s.stream_id; system = true },
        ground arith,
        ground arith,
        ground arith,
        ground arith,
        ground arith,
        ground arith,
      )
      | inr e ↦ (
        record { stream_type = output_type; stream_id = s.stream_id; system = true },
        ground arith,
        ground arith,
        ground arith,
        ground arith,
        ground arith,
        ground arith,
      )
    ]

-- Any other stream has none: the call raises `InternalError`.
pub associated_stream_other :
    (s : DataStream) → important s ≡ false → associated_stream s ≡ err Error.internal_error
unfolding associated_stream
associated_stream_other s h = rw h
