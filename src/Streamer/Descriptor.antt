-- ===== src/Streamer/Descriptor.antt =====
-- The packed descriptor of a streamer: `parse_binary_descriptor` and `create_binary_descriptor` of
-- iotilesensorgraph/iotile/sg/streamer_descriptor.py. The bytes are given as a list of numbers, and the
-- streamer is made without a sensor log.
pub mod RoundTrip
use coretools.Prelude.{
  ℕ, ◌+◌, ◌-◌, ◌*◌, ◌/◌, ◌%◌, Bool, true, false, ◌==◌, ltb, ◌<<◌, bit_and, bit_or, if◌then◌else◌,
  Option, none, some, List, [], ◌∷◌, ◌++◌,
}
use coretools.Errors.{Error, Result, ok, err, ◌>>=◌}
use coretools.Selector
use coretools.Slot
use coretools.Streamer.{DataStreamer, ReportFormat, ReportType, init}

-- `KnownFormats` and `KnownFormatCodes`.
abbrev pub format_code : ReportFormat → ℕ
format_code ReportFormat.individual = 0
format_code ReportFormat.hashedlist = 1
format_code ReportFormat.signedlist_userkey = 2
format_code ReportFormat.signedlist_devicekey = 3

abbrev pub known_format : ℕ → Option ReportFormat
known_format code =
    if code == 0
    then some ReportFormat.individual
    else if code == 1
    then some ReportFormat.hashedlist
    else if code == 2
    then some ReportFormat.signedlist_userkey
    else if code == 3
    then some ReportFormat.signedlist_devicekey
    else none

-- `KnownTypes` and `KnownTypeCodes`.
abbrev pub type_code : ReportType → ℕ
type_code ReportType.broadcast = 1
type_code ReportType.telegram = 1 << 1
type_code ReportType.synchronous = 1 << 2

abbrev pub known_type : ℕ → Option ReportType
known_type code =
    if code == 1
    then some ReportType.broadcast
    else if code == 1 << 1
    then some ReportType.telegram
    else if code == 1 << 2
    then some ReportType.synchronous
    else none

-- Whether the streamer is automatic, and the streamer that it is triggered with.
unfoldable pub trigger_from : ℕ → Result (Bool × Option ℕ)
trigger_from trigger =
    if bit_and trigger (1 << 7) == 0
    then if trigger == 0
      then ok (false, none)
      else if trigger == 1
      then ok (true, none)
      else err Error.argument_error
    else ok (false, some (bit_and trigger ((1 << 7) - 1)))

abbrev or_unknown {ℓ} : {A : Type ℓ} → Option A → Result A
or_unknown none = err Error.argument_error
or_unknown (some a) = ok a

-- The part of `parse_binary_descriptor` behind the unpacking.
unfoldable pub parse_fields : List ℕ → ℕ → ℕ → ℕ → ℕ → Result DataStreamer
unfolding trigger_from
parse_fields dest_tile stream_id trigger format type = Slot.from_encoded dest_tile >>= λ dest_id.
    Selector.from_encoded stream_id >>= λ selector.
    or_unknown (known_format format) >>= λ format_name.
    or_unknown (known_type type) >>= λ type_name. trigger_from trigger >>= λ (auto, with_other).
    init selector dest_id (some format_name) auto (some type_name) with_other

-- "<8sHBBBx" takes 14 bytes, and its last byte is not read.
unfoldable pub parse_binary_descriptor : List ℕ → Result DataStreamer
unfolding parse_fields
parse_binary_descriptor
      (a ∷ b ∷ c ∷ d ∷ e ∷ f ∷ g ∷ h ∷ low ∷ high ∷ trigger ∷ format ∷ type ∷ _ ∷ []) =
    parse_fields (a ∷ b ∷ c ∷ d ∷ e ∷ f ∷ g ∷ h ∷ []) (low + high * 256) trigger format type
parse_binary_descriptor _ = err Error.argument_error

unfoldable pub trigger_of : DataStreamer → ℕ
trigger_of s =
    if s.automatic then 1 else elim s.with_other [ none ↦ 0 | some k ↦ bit_or (1 << 7) k ]

-- `struct.pack("<8sHBBBx", ...)`; a number that does not fit its field raises `struct.error`.
unfoldable pub pack : List ℕ → ℕ → ℕ → ℕ → ℕ → Result (List ℕ)
pack dest stream_id trigger format type =
    if ltb stream_id 65536
    then if ltb trigger 256
      then ok (dest ++ (stream_id % 256 ∷ stream_id / 256 ∷ trigger ∷ format ∷ type ∷ 0 ∷ []))
      else err Error.struct_error
    else err Error.struct_error

unfoldable pub create_binary_descriptor : DataStreamer → Result (List ℕ)
unfolding trigger_of pack
create_binary_descriptor s = Slot.encode s.dest >>= λ dest.
    pack dest (Selector.encode s.selector) (trigger_of s) (format_code s.format)
      (type_code s.report_type)
