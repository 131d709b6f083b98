-- ===== src/Streamer.antt =====
-- `DataStreamer` of iotilesensorgraph/iotile/sg/streamer.py: when it is triggered, and the reports that
-- it builds from the readings of its walker. The walker is an object of the sensor log, which the
-- streamer knows by number; the functions that read it are given its state.
pub mod Packing
pub mod Reporting
pub mod Descriptor
mod Tests
use coretools.Prelude.{
  ℕ, zero, suc, ◌+◌, ◌-◌, ◌/◌, Bool, true, false, not, ◌&&◌, ◌==◌, ltb, same, if◌then◌else◌, Option,
  none, some, List, [], ◌∷◌, length,
}
use coretools.Errors.{Error, Result, ok, err}
use coretools.Selector
use coretools.Selector.{DataStreamSelector}
use coretools.Slot
use coretools.Slot.{SlotIdentifier}
use coretools.Reading.{IoTileReading}
use coretools.Streamer.Packing.{individual_fits, broadcast_fits, list_fits}
use coretools.Engine.{Engine}
use coretools.Walker.Any
use coretools.Walker.Any.{StreamWalker}
use coretools.SensorLog
use coretools.SensorLog.{SensorLog}

-- `KnownFormats` and `KnownTypes`.
pub data ReportFormat : Type 0 where
  individual hashedlist signedlist_userkey signedlist_devicekey : ReportFormat

pub data ReportType : Type 0 where
  broadcast telegram synchronous : ReportType

pub record DataStreamer : Type 0 where
  pub selector : DataStreamSelector
  pub dest : SlotIdentifier
  pub format : ReportFormat
  pub automatic : Bool
  pub report_type : ReportType
  pub with_other : Option ℕ
  pub walker : Option ℕ
  pub index : Option ℕ

-- `__init__` without a sensor log; a name that is no known format or type is `none`.
unfoldable pub init :
    DataStreamSelector
    → SlotIdentifier
    → Option ReportFormat
    → Bool
    → Option ReportType
    → Option ℕ
    → Result DataStreamer
init selector dest none automatic report_type with_other = err Error.argument_error
init selector dest (some format) automatic none with_other = err Error.argument_error
init selector dest (some format) automatic (some report_type) with_other = ok (record {
  selector = selector;
  dest = dest;
  format = format;
  automatic = automatic;
  report_type = report_type;
  with_other = with_other;
  walker = none;
  index = none;
})

-- The part of `link_to_storage` that makes the new walker.
unfoldable pub link : SensorLog → DataStreamer → Result (Unit {0}) × (DataStreamer × SensorLog)
link log s = elim (SensorLog.create_walker log s.selector true) [
  | err x ↦ (err x, (s, log))
  | ok (i, log') ↦ (ok tt, (record s { walker = some i }, log'))
]

-- `link_to_storage`, to the log that the streamer was linked to before, if there is one.
unfoldable pub link_to_storage :
    SensorLog → DataStreamer → Result (Unit {0}) × (DataStreamer × SensorLog)
link_to_storage log s = elim s.walker [
  | none ↦ link log s
  | some i ↦ elim (SensorLog.destroy_walker log i (Selector.buffered s.selector)) [
    | err x ↦ (err x, (s, log))
    | ok log' ↦ link log' (record s { walker = none })
  ]
]

unfoldable pub has_data : Option StreamWalker → Result Bool
has_data none = err Error.internal_error
has_data (some w) = ok (ltb 0 (Any.count w))

unfoldable pub triggered : DataStreamer → Option StreamWalker → Bool → Result Bool
unfolding has_data
triggered s none manual = err Error.internal_error
triggered s (some w) manual = if not s.automatic && not manual then ok false else has_data (some w)

unfoldable pub requires_id : DataStreamer → Bool
requires_id s = elim s.format [ ReportFormat.individual ↦ false | _ ↦ true ]

unfoldable pub requires_signing : DataStreamer → Bool
requires_signing s = elim s.format [
  | ReportFormat.signedlist_userkey ↦ true
  | ReportFormat.signedlist_devicekey ↦ true
  | _ ↦ false
]

-- The report classes, with what their `FromReadings` is given; that it can be packed is in Packing.
pub data Report : Type 0 where
  individual_reading : ℕ → IoTileReading → Report
  broadcast_readings : ℕ → IoTileReading → ℕ → Report
  signed_list : ℕ → List IoTileReading → ℕ → ℕ → ℕ → ℕ → Report

pub record StreamerReport : Type 0 where
  pub report : Report
  pub num_readings : ℕ
  pub highest_id : ℕ

-- The maximum of the reading ids and a number.
unfoldable pub highest : List IoTileReading → ℕ → ℕ
highest [] id = id
highest (r ∷ l) id = highest l (if ltb id r.reading_id then r.reading_id else id)

abbrev pub is_stream_empty : Error → Bool
is_stream_empty Error.stream_empty_error = true
is_stream_empty _ = false

-- The loop of `build_report`, with the number of readings that may still be added; `StreamEmptyError`
-- ends it.
unfoldable pub collect : ℕ → Engine → StreamWalker → Result (List IoTileReading) × StreamWalker
collect zero e w = (ok [], w)
collect (suc n) e w =
    let (popped, w') = Any.pop e w in
    elim popped [
      | err x ↦ (if is_stream_empty x then ok [] else err x, w')
      | ok r ↦
          let (rest, w'') = collect n e w' in (elim rest [ err x ↦ err x | ok l ↦ ok (r ∷ l) ], w'')
    ]

-- `(max_size - 20 - 24) // 16`, which is 0 here where it is negative in the source; both are refused.
abbrev pub max_readings : ℕ → ℕ
max_readings max_size = (max_size - 20 - 24) / 16

-- What `build_report` is told beside the streamer; `signing` says whether there is an auth chain.
pub record Request : Type 0 where
  pub device_id : ℕ
  pub max_size : Option ℕ
  pub device_uptime : ℕ
  pub report_id : Option ℕ
  pub signing : Bool

-- The report of one reading, `struct.error` where it does not fit; a type that the format does not go with is refused behind the pop.
unfoldable pub report_one : DataStreamer → Request → IoTileReading → Result StreamerReport
report_one s q r = elim s.report_type [
  | ReportType.telegram ↦
      if individual_fits q.device_id r
      then ok (record {
        report = individual_reading q.device_id r;
        num_readings = 1;
        highest_id = r.reading_id;
      })
      else err Error.struct_error
  | ReportType.broadcast ↦
      if broadcast_fits q.device_id r q.device_uptime
      then ok (record {
        report = broadcast_readings q.device_id r q.device_uptime;
        num_readings = 1;
        highest_id = r.reading_id;
      })
      else err Error.struct_error
  | ReportType.synchronous ↦ err Error.internal_error
]

-- The report of a list that is not empty, `struct.error` where it does not fit.
unfoldable pub report_list :
    DataStreamer → Request → ℕ → ℕ → List IoTileReading → Result StreamerReport
unfolding list_fits
report_list s q index report_id [] = err Error.stream_empty_error
report_list s q index report_id (r ∷ l) =
    let selector = Selector.encode s.selector in
    if list_fits q.device_id (r ∷ l) report_id selector index q.device_uptime
    then ok (record {
      report = signed_list q.device_id (r ∷ l) report_id selector index q.device_uptime;
      num_readings = length (r ∷ l);
      highest_id = highest (r ∷ l) 0;
    })
    else err Error.struct_error

-- The format `hashedlist`; `None - 20` raises `TypeError`.
unfoldable pub build_list :
    DataStreamer → Request → ℕ → ℕ → Engine → StreamWalker → Result StreamerReport × StreamWalker
unfolding report_list
build_list s q index report_id e w = elim q.max_size [
  | none ↦ (err Error.type_error, w)
  | some max_size ↦
      if max_readings max_size == 0
      then (err Error.internal_error, w)
      else let (readings, w') = collect (max_readings max_size) e w in
        (elim readings [ err x ↦ err x | ok l ↦ report_list s q index report_id l ], w')
]

-- The part of `build_report` behind its checks.
unfoldable pub build :
    DataStreamer → Request → ℕ → Engine → StreamWalker → Result StreamerReport × StreamWalker
unfolding build_list report_one
build s q index e w = elim s.format [
  | ReportFormat.individual ↦
      let (popped, w') = Any.pop e w in
      (elim popped [ err x ↦ err x | ok r ↦ report_one s q r ], w')
  | ReportFormat.hashedlist ↦ elim q.report_id [
    | none ↦ (err Error.argument_error, w)
    | some report_id ↦ build_list s q index report_id e w
  ]
  | _ ↦ (err Error.internal_error, w)
]

abbrev pub is_missing {ℓ} : {A : Type ℓ} → Option A → Bool
is_missing none = true
is_missing (some _) = false

unfoldable pub build_checked :
    DataStreamer → Request → ℕ → Engine → StreamWalker → Result StreamerReport × StreamWalker
unfolding requires_signing requires_id build
build_checked s q index e w =
    if requires_signing s && not q.signing
    then (err Error.argument_error, w)
    else if requires_id s && is_missing q.report_id
    then (err Error.argument_error, w)
    else build s q index e w

-- `build_report`; the streamer wants a walker and an index.
unfoldable pub build_report :
    DataStreamer
    → Request
    → Engine
    → Option StreamWalker
    → Result StreamerReport × Option StreamWalker
build_report s q e none = (err Error.internal_error, none)
build_report s q e (some w) = elim s.index [
  | none ↦ (err Error.internal_error, some w)
  | some index ↦ let (out, w') = build_checked s q index e w in (out, some w')
]

abbrev with_other_eq : Option ℕ → Option ℕ → Bool
with_other_eq none none = true
with_other_eq (some a) (some b) = a == b
with_other_eq _ _ = false

abbrev report_type_eq : ReportType → ReportType → Bool
report_type_eq ReportType.broadcast ReportType.broadcast = true
report_type_eq ReportType.telegram ReportType.telegram = true
report_type_eq ReportType.synchronous ReportType.synchronous = true
report_type_eq _ _ = false

-- `__eq__`, which does not compare the format.
unfoldable pub eq : DataStreamer → DataStreamer → Bool
eq s t =
    Selector.eq s.selector t.selector
    && Slot.eq s.dest t.dest
    && same s.automatic t.automatic
    && report_type_eq s.report_type t.report_type
    && with_other_eq s.with_other t.with_other
