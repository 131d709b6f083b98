-- ===== src/Reading.antt =====
-- `IOTileReading` of iotilecore/iotile/core/hw/reports/report.py. The absolute `reading_time`, a
-- `datetime`, is not modelled: the sensor graph never reads it, and equality ignores it.
use coretools.Prelude.{ℕ, ℤ, Bool, ◌&&◌, ◌==◌, eqb_ℤ}

pub record IoTileReading : Type 0 where
  pub raw_time : ℕ
  pub stream : ℕ
  pub value : ℤ
  pub reading_id : ℕ

abbrev pub invalid_reading_id : ℕ
invalid_reading_id = 0

-- `IoTileReading(raw_time, stream, value)`, with no reading id.
abbrev pub reading : ℕ → ℕ → ℤ → IoTileReading
reading raw_time stream value = record {
  raw_time = raw_time;
  stream = stream;
  value = value;
  reading_id = invalid_reading_id;
}

-- `__eq__`.
unfoldable pub eq : IoTileReading → IoTileReading → Bool
eq a b =
    a.raw_time == b.raw_time
    && a.stream == b.stream
    && eqb_ℤ a.value b.value
    && a.reading_id == b.reading_id
