-- ===== src/Streamer/Packing.antt =====
-- What the reports of a streamer can hold: the fields that `FromReadings` of the classes in
-- iotilecore/iotile/core/hw/reports (individual_format.py, broadcast.py, signed_list_format.py) packs
-- have fixed sizes, and `struct.error` is raised for a number that does not fit its field.
-- That the classes then decode what they have packed is left out.
use coretools.Prelude.{
  ℕ, ◌+◌, ◌*◌, ◌/◌, ◌<◌, ◌≡◌, refl, ◌↔◌, ℤ, pos, negsuc, Bool, true, false, ◌&&◌, ltb, List, [],
  ◌∷◌, length, arith,
}
use coretools.Reading.{IoTileReading}

-- The formats `B`, `H` and `L` of `struct.pack`.
abbrev pub fits_byte : ℕ → Bool
fits_byte n = ltb n 0x100

abbrev pub fits_half : ℕ → Bool
fits_half n = ltb n 0x10000

abbrev pub fits_word : ℕ → Bool
fits_word n = ltb n 0x100000000

abbrev pub value_fits : ℤ → Bool
value_fits (pos n) = fits_word n
value_fits (negsuc n) = false

-- A reading in a report of one reading, which does not hold the reading's id.
unfoldable pub individual_fits : ℕ → IoTileReading → Bool
individual_fits device_id r =
    fits_half r.stream && fits_word device_id && fits_word r.raw_time && value_fits r.value

-- A reading in the formats that hold many.
unfoldable pub reading_fits : IoTileReading → Bool
reading_fits r =
    fits_half r.stream && fits_word r.reading_id && fits_word r.raw_time && value_fits r.value

unfoldable pub all_fit : List IoTileReading → Bool
unfolding reading_fits
all_fit [] = true
all_fit (r ∷ l) = reading_fits r && all_fit l

unfoldable pub broadcast_fits : ℕ → IoTileReading → ℕ → Bool
unfolding reading_fits
broadcast_fits device_id r sent_timestamp =
    fits_word device_id && fits_word sent_timestamp && reading_fits r

-- The header's fields, the upper byte of the length included, and the readings. The lowest and
-- highest id in the footer are ids of readings, or 0.
unfoldable pub list_fits : ℕ → List IoTileReading → ℕ → ℕ → ℕ → ℕ → Bool
unfolding all_fit
list_fits device_id l report_id selector index sent_timestamp =
    fits_half ((20 + 16 * length l + 24) / 0x100)
    && fits_word device_id
    && fits_word report_id
    && fits_word sent_timestamp
    && fits_byte index
    && fits_half selector
    && all_fit l

-- A natural number of 32 bits.
abbrev pub IsWord : ℤ → Type 0
IsWord (pos n) = n < 0x100000000
IsWord (negsuc n) = ⊥

-- The stream, the id, the time and the value of a reading are in the range of their fields.
abbrev pub IsPackable : IoTileReading → Type 0
IsPackable r =
    (r.stream < 0x10000)
    × (r.reading_id < 0x100000000)
    × (r.raw_time < 0x100000000)
    × IsWord r.value

abbrev pub ArePackable : List IoTileReading → Type 0
ArePackable [] = Unit
ArePackable (r ∷ l) = IsPackable r × ArePackable l

value_fits-IsWord : (v : ℤ) → (value_fits v ≡ true) ↔ IsWord v
value_fits-IsWord (pos n) = ground arith
value_fits-IsWord (negsuc n) = ground arith

reading_fits-IsPackable : (r : IoTileReading) → (reading_fits r ≡ true) ↔ IsPackable r
unfolding reading_fits
reading_fits-IsPackable r =
    let (from, to) = value_fits-IsWord r.value in
    (
      λ h. (ground (arith, h), ground (arith, h), ground (arith, h), from (ground (arith, h))),
      λ (a, b, c, d). let v = to d in ground (arith, a, b, c, v),
    )

all_fit-ArePackable : (l : List IoTileReading) → (all_fit l ≡ true) ↔ ArePackable l
unfolding all_fit
all_fit-ArePackable [] = (λ h. tt, λ h. refl)
all_fit-ArePackable (r ∷ l) =
    let (from, to) = reading_fits-IsPackable r in
    let (from_rest, to_rest) = all_fit-ArePackable l in
    (
      λ h. (from (ground (arith, h)), from_rest (ground (arith, h))),
      λ (a, b). let v = to a in let w = to_rest b in ground (arith, v, w),
    )

-- Everything that a list report is given is in the range of its field, and the report's length is one
-- of three bytes.
abbrev pub FitsList : ℕ → List IoTileReading → ℕ → ℕ → ℕ → ℕ → Type 0
FitsList device_id l report_id selector index sent_timestamp =
    (44 + 16 * length l < 0x1000000)
    × (device_id < 0x100000000)
    × (report_id < 0x100000000)
    × (sent_timestamp < 0x100000000)
    × (index < 0x100)
    × (selector < 0x10000)
    × ArePackable l

pub list_fits-FitsList :
    (device_id : ℕ) (l : List IoTileReading) (report_id selector index sent_timestamp : ℕ)
    → (list_fits device_id l report_id selector index sent_timestamp ≡ true)
      ↔ FitsList device_id l report_id selector index sent_timestamp
unfolding list_fits
list_fits-FitsList device_id l report_id selector index sent_timestamp =
    let (from, to) = all_fit-ArePackable l in
    (
      λ h. (
        ground (arith, h),
        ground (arith, h),
        ground (arith, h),
        ground (arith, h),
        ground (arith, h),
        ground (arith, h),
        from (ground (arith, h)),
      ),
      λ (a, b, c, d, e, f, g). let v = to g in ground (arith, a, b, c, d, e, f, v),
    )
