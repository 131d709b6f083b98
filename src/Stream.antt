-- ===== src/Stream.antt =====
-- `DataStream` of iotilesensorgraph/iotile/sg/stream.py: the tag that identifies a stream, and its
-- packed 16-bit form.
pub mod Encoding
pub mod Important
mod Tests
use coretools.Prelude.{
  ℕ, ◌+◌, ◌-◌, ◌^◌, Bool, true, false, ◌&&◌, ◌||◌, not, bit_and, bit_or, ◌<<◌, ◌>>◌, ◌==◌, leb,
  same, if◌then◌else◌,
}
use coretools.Errors.{Error, Result, ok, err}

pub record DataStream : Type 0 where
  pub stream_type : ℕ
  pub stream_id : ℕ
  pub system : Bool

abbrev pub buffered_type : ℕ
buffered_type = 0

abbrev pub unbuffered_type : ℕ
unbuffered_type = 1

abbrev pub constant_type : ℕ
constant_type = 2

abbrev pub input_type : ℕ
input_type = 3

abbrev pub counter_type : ℕ
counter_type = 4

abbrev pub output_type : ℕ
output_type = 5

abbrev pub important_system_output_start : ℕ
important_system_output_start = 1024

abbrev pub important_system_storage_start : ℕ
important_system_storage_start = 1024 + 512

-- The keys of `KnownBreakStreams`.
abbrev pub is_break : ℕ → Bool
is_break id = id == 1024

-- `int(system)`.
abbrev pub int_of_bool : Bool → ℕ
int_of_bool true = 1
int_of_bool false = 0

unfoldable pub input : DataStream → Bool
input s = s.stream_type == input_type

unfoldable pub buffered : DataStream → Bool
buffered s = s.stream_type == buffered_type || s.stream_type == output_type

unfoldable pub output : DataStream → Bool
output s = s.stream_type == output_type

unfoldable pub important : DataStream → Bool
important s =
    s.stream_type == input_type && s.system && leb important_system_output_start s.stream_id

unfoldable pub associated_stream : DataStream → Result DataStream
unfolding important
associated_stream s =
    if not (important s)
    then err Error.internal_error
    else if leb important_system_storage_start s.stream_id
    then ok (record { stream_type = buffered_type; stream_id = s.stream_id; system = true })
    else ok (record { stream_type = output_type; stream_id = s.stream_id; system = true })

unfoldable pub from_encoded : ℕ → DataStream
from_encoded encoded = record {
  stream_type = bit_and (encoded >> 12) 0b1111;
  stream_id = bit_and encoded ((1 << 11) - 1);
  system = not (bit_and encoded (1 << 11) == 0);
}

unfoldable pub encode : DataStream → ℕ
encode s = bit_or (bit_or (s.stream_type << 12) (int_of_bool s.system << 11)) s.stream_id

-- `__eq__`.
unfoldable pub eq : DataStream → DataStream → Bool
eq s t = same s.system t.system && s.stream_type == t.stream_type && s.stream_id == t.stream_id
