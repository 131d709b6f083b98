-- ===== src/Streamer/Tests.antt =====
-- Streamers on concrete readings.
use coretools.Prelude.{
  ℕ, negsuc, List, length, ◌≡◌, refl, true, false, none, some, [], ◌∷◌, drop, arith,
}
use coretools.Errors.{Error, ok, err}
use coretools.Reading.{IoTileReading}
use coretools.Samples.{select_one, r1, r3, engine, walker, walker-InSync}
use coretools.Walker.Any.{StreamWalker}
use coretools.Walker.Any.Queue.{Holds}
use coretools.Selector
use coretools.Streamer.Packing.{individual_fits}
use coretools.Slot
use coretools.Slot.{SlotIdentifier}
use coretools.Streamer.{
  DataStreamer, ReportFormat, ReportType, Request, build_report, report_list, report_one,
  max_readings,
}
use coretools.Streamer.Descriptor.{create_binary_descriptor, parse_binary_descriptor}
use coretools.Streamer.Descriptor.RoundTrip.{parse-create_binary_descriptor}
use coretools.Streamer.Reporting.{Reports, build_report-Reports}

abbrev controller : SlotIdentifier
controller = record { slot = none; controller = true }

abbrev streamer : DataStreamer
streamer = record {
  selector = select_one;
  dest = controller;
  format = ReportFormat.hashedlist;
  automatic = false;
  report_type = ReportType.telegram;
  with_other = none;
  walker = some 0;
  index = some 0;
}

-- Room for one reading.
abbrev request : Request
request = record {
  device_id = 5;
  max_size = some 60;
  device_uptime = 9;
  report_id = some 7;
  signing = false;
}

build_report-Reports_example :
    let (out, w') = build_report streamer request engine (some (StreamWalker.buffered walker)) in
    Reports streamer request 0 7 60 (r1 ∷ r3 ∷ []) out
    × ((v : StreamWalker) × (w' ≡ some v) × Holds engine v (drop (max_readings 60) (r1 ∷ r3 ∷ [])))
build_report-Reports_example =
    build_report-Reports streamer request engine (StreamWalker.buffered walker) refl refl refl refl
      (omega arith) (r1 ∷ r3 ∷ []) walker-InSync

-- What `subtract_afromb` makes of a smaller number does not fit a report.
abbrev negative : IoTileReading
negative = record r1 { value = negsuc 0 }

negative_refused : report_list streamer request 0 7 (r1 ∷ negative ∷ []) ≡ err Error.struct_error
unfolding report_list Selector.encode
negative_refused = refl

-- A realtime report is refused too.
abbrev realtime : DataStreamer
realtime = record streamer { format = ReportFormat.individual }

negative_refused_alone : report_one realtime request negative ≡ err Error.struct_error
unfolding report_one individual_fits
negative_refused_alone = refl

-- A streamer that is triggered with the third one.
abbrev with_third : DataStreamer
with_third = record streamer { with_other = some 2 }

descriptor :
    create_binary_descriptor with_third
    ≡ ok (0 ∷ 0 ∷ 0 ∷ 0 ∷ 0 ∷ 0 ∷ 0 ∷ 2 ∷ 1 ∷ 0 ∷ 130 ∷ 1 ∷ 2 ∷ 0 ∷ [])
unfolding create_binary_descriptor Slot.encode Selector.encode
descriptor = refl

parse-create_binary_descriptor_example :
    (b : List ℕ) × (create_binary_descriptor with_third ≡ ok b)
    × (length b ≡ 14)
    × (parse_binary_descriptor b ≡ ok (record with_third { walker = none; index = none }))
parse-create_binary_descriptor_example =
    parse-create_binary_descriptor with_third
      (refl, (omega arith, omega arith, ground arith), (refl, omega arith))
