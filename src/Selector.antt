-- ===== src/Selector.antt =====
-- `DataStreamSelector` of iotilesensorgraph/iotile/sg/stream.py: a pattern that matches one stream
-- or a class of streams, and its packed 16-bit form.
pub mod Encoding
pub mod Matching
mod Tests
use coretools.Prelude.{
  ℕ, ◌+◌, ◌-◌, ◌^◌, Bool, true, false, ◌&&◌, ◌||◌, not, bit_and, bit_or, ◌<<◌, ◌>>◌, ◌==◌, leb,
  same, if◌then◌else◌, Option, none, some,
}
use coretools.Errors.{Error, Result, ok, err, ◌>>=◌}
use coretools.Stream
use coretools.Stream.{DataStream, buffered_type, output_type, input_type, constant_type, is_break}

-- The four valid specifiers: MatchSystemOnly, MatchCombined, MatchUserOnly and MatchUserAndBreaks.
pub data MatchSpec : Type 0 where
  system_only combined user_only user_and_breaks : MatchSpec

pub record DataStreamSelector : Type 0 where
  pub match_type : ℕ
  pub match_id : Option ℕ
  pub match_spec : MatchSpec

-- `ValidSpecifiers`, by the numbers of the class's constants.
unfoldable pub spec_of_number : ℕ → Option MatchSpec
spec_of_number n =
    if n == 1
    then some MatchSpec.system_only
    else if n == 2
    then some MatchSpec.combined
    else if n == 3
    then some MatchSpec.user_only
    else if n == 4
    then some MatchSpec.user_and_breaks
    else none

-- `__init__`.
unfoldable pub init : ℕ → Option ℕ → ℕ → Result DataStreamSelector
init stream_type stream_id specifier = elim (spec_of_number specifier) [
  | none ↦ err Error.argument_error
  | some spec ↦ ok (record { match_type = stream_type; match_id = stream_id; match_spec = spec })
]

unfoldable pub input : DataStreamSelector → Bool
input s = s.match_type == input_type

unfoldable pub inexhaustible : DataStreamSelector → Bool
inexhaustible s = s.match_type == constant_type

unfoldable pub singular : DataStreamSelector → Bool
singular s = elim s.match_id [ none ↦ false | some _ ↦ true ]

unfoldable pub buffered : DataStreamSelector → Bool
buffered s = s.match_type == buffered_type || s.match_type == output_type

unfoldable pub output : DataStreamSelector → Bool
output s = s.match_type == output_type

abbrev pub is_system_only : MatchSpec → Bool
is_system_only MatchSpec.system_only = true
is_system_only _ = false

unfoldable pub as_stream : DataStreamSelector → Result DataStream
as_stream s = elim s.match_id [
  | none ↦ err Error.argument_error
  | some id ↦
      ok (record {
        stream_type = s.match_type;
        stream_id = id;
        system = is_system_only s.match_spec;
      })
]

unfoldable pub from_stream : DataStream → DataStreamSelector
from_stream stream = record {
  match_type = stream.stream_type;
  match_id = some stream.stream_id;
  match_spec = if stream.system then MatchSpec.system_only else MatchSpec.user_only;
}

-- The tests of `matches` on a wildcard.
abbrev pub spec_matches : MatchSpec → DataStream → Bool
spec_matches MatchSpec.user_only stream = not stream.system
spec_matches MatchSpec.system_only stream = stream.system
spec_matches MatchSpec.user_and_breaks stream =
    not stream.system || (stream.system && is_break stream.stream_id)
spec_matches MatchSpec.combined stream = true

abbrev pub id_matches : Option ℕ → MatchSpec → DataStream → Bool
id_matches (some id) spec stream = id == stream.stream_id
id_matches none spec stream = spec_matches spec stream

unfoldable pub matches : DataStreamSelector → DataStream → Bool
matches s stream =
    if not (s.match_type == stream.stream_type)
    then false
    else id_matches s.match_id s.match_spec stream

-- `SpecifierEncodings`.
abbrev pub spec_encoding : MatchSpec → ℕ
spec_encoding MatchSpec.system_only = 1 << 11
spec_encoding MatchSpec.user_only = 0
spec_encoding MatchSpec.user_and_breaks = 1 << 15
spec_encoding MatchSpec.combined = bit_or (1 << 11) (1 << 15)

-- `SpecifierEncodingMap`.
abbrev pub spec_of_encoding : ℕ → Option MatchSpec
spec_of_encoding n =
    if n == spec_encoding MatchSpec.system_only
    then some MatchSpec.system_only
    else if n == spec_encoding MatchSpec.user_only
    then some MatchSpec.user_only
    else if n == spec_encoding MatchSpec.user_and_breaks
    then some MatchSpec.user_and_breaks
    else if n == spec_encoding MatchSpec.combined
    then some MatchSpec.combined
    else none

abbrev pub match_all_code : ℕ
match_all_code = (1 << 11) - 1

unfoldable pub from_encoded : ℕ → Result DataStreamSelector
from_encoded encoded =
    let match_type = bit_and encoded (0b111 << 12) >> 12 in
    let match_id = bit_and encoded ((1 << 11) - 1) in
    elim (spec_of_encoding (bit_and encoded (bit_or (1 << 11) (1 << 15)))) [
      | none ↦ err Error.argument_error
      | some spec ↦ ok (record {
        match_type = match_type;
        match_id = if match_id == match_all_code then none else some match_id;
        match_spec = spec;
      })
    ]

unfoldable pub encode : DataStreamSelector → ℕ
encode s =
    let match_id : ℕ = elim s.match_id [ none ↦ (1 << 11) - 1 | some id ↦ id ] in
    bit_or (bit_or (s.match_type << 12) (spec_encoding s.match_spec)) match_id

-- `__eq__`.
abbrev spec_eq : MatchSpec → MatchSpec → Bool
spec_eq MatchSpec.system_only MatchSpec.system_only = true
spec_eq MatchSpec.combined MatchSpec.combined = true
spec_eq MatchSpec.user_only MatchSpec.user_only = true
spec_eq MatchSpec.user_and_breaks MatchSpec.user_and_breaks = true
spec_eq _ _ = false

abbrev id_eq : Option ℕ → Option ℕ → Bool
id_eq none none = true
id_eq (some a) (some b) = a == b
id_eq _ _ = false

unfoldable pub eq : DataStreamSelector → DataStreamSelector → Bool
eq s t =
    spec_eq s.match_spec t.match_spec && s.match_type == t.match_type && id_eq s.match_id t.match_id
