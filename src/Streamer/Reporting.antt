-- ===== src/Streamer/Reporting.antt =====
-- When a streamer is triggered, and what its reports hold, for a walker that holds readings.
use coretools.Prelude.{
  ℕ, zero, suc, ◌+◌, ◌*◌, ◌-◌, ◌≤◌, ◌≡◌, refl, Bool, ◌&&◌, ◌||◌, ltb, if◌then◌else◌, ◌⊎◌, inl, some,
  List, [], ◌∷◌, length, take, drop, Bool-cases, inr, arith,
}
use coretools.Errors.{Error, Result, ok, err}
use coretools.Selector
use coretools.Streamer.Packing.{FitsList, list_fits, list_fits-FitsList}
use coretools.Reading.{IoTileReading}
use coretools.Engine.{Engine}
use coretools.Walker.Any
use coretools.Walker.Any.{StreamWalker}
use coretools.Walker.Any.Queue.{Holds, count-Holds, pop-Holds}
use coretools.Streamer.{
  DataStreamer, ReportFormat, Request, StreamerReport, triggered, has_data, highest, collect,
  build_report, build_checked, build, build_list, report_list, max_readings, requires_id,
  requires_signing, signed_list,
}

collect_none :
    (n : ℕ) (e : Engine) (w : StreamWalker)
    → Any.pop e w ≡ (err Error.stream_empty_error, w)
    → collect (suc n) e w ≡ (ok [], w)
unfolding collect
collect_none n e w h = ground (arith, h)

collect_one :
    (n : ℕ) (e : Engine) (w : StreamWalker) (r : IoTileReading) (l : List IoTileReading)
    → (Any.pop e w).0 ≡ ok r
    → (collect n e (Any.pop e w).1).0 ≡ ok l
    → collect (suc n) e w ≡ (ok (r ∷ l), (collect n e (Any.pop e w).1).1)
unfolding collect
collect_one n e w r l popped rest = ground arith

-- The loop takes the first readings, as many as it may, and leaves the others.
pub collect-Holds :
    (n : ℕ) (e : Engine) (w : StreamWalker) (q : List IoTileReading)
    → Holds e w q
    → ((collect n e w).0 ≡ ok (take n q)) × Holds e (collect n e w).1 (drop n q)
unfolding collect
collect-Holds zero e w q h = (refl, h)
collect-Holds (suc n) e w [] h = rw (collect_none n e w (pop-Holds e w [] h)) (refl, h)
collect-Holds (suc n) e w (r ∷ q) h =
    let (popped, left) = pop-Holds e w (r ∷ q) h in
    let (rest, others) = collect-Holds n e (Any.pop e w).1 q left in
    rw (collect_one n e w r (take n q) popped rest) (refl, others)

-- Every reading has at most this id.
abbrev pub NoneAbove : ℕ → List IoTileReading → Type 0
NoneAbove id [] = Unit
NoneAbove id (r ∷ l) = (r.reading_id ≤ id) × NoneAbove id l

-- Some reading has this id.
abbrev pub HasId : ℕ → List IoTileReading → Type 0
HasId id [] = ⊥
HasId id (r ∷ l) = (r.reading_id ≡ id) ⊎ HasId id l

highest_lem :
    (l : List IoTileReading) (id : ℕ)
    → (id ≤ highest l id)
      × NoneAbove (highest l id) l
      × ((highest l id ≡ id) ⊎ HasId (highest l id) l)
unfolding highest
highest_lem [] id = (omega arith, tt, inl refl)
highest_lem (r ∷ l) id =
    ground (arith, highest_lem l (if ltb id r.reading_id then r.reading_id else id))

-- The largest id of some readings, or 0 where they have no greater one.
abbrev pub IsHighest : ℕ → List IoTileReading → Type 0
IsHighest id l = NoneAbove id l × ((id ≡ 0) ⊎ HasId id l)

highest-IsHighest : (l : List IoTileReading) → IsHighest (highest l 0) l
highest-IsHighest l = let (_, below, reached) = highest_lem l 0 in (below, reached)

length-take_le : (n : ℕ) (l : List IoTileReading) → length (take n l) ≤ n
length-take_le zero l = omega arith
length-take_le (suc n) [] = omega arith
length-take_le (suc n) (r ∷ l) = omega (arith, length-take_le n l)

-- A list report holds at most as many readings as fit.
fits_size :
    (max_size : ℕ) (l : List IoTileReading)
    → 60 ≤ max_size
    → 44 + 16 * length (take (max_readings max_size) l) ≤ max_size
fits_size max_size l h = omega (arith, length-take_le (max_readings max_size) l)

take-nil : (n : ℕ) → take {A = IoTileReading} n [] ≡ []
take-nil zero = refl
take-nil (suc n) = refl

take-cons :
    (n : ℕ) (r : IoTileReading) (l : List IoTileReading)
    → 1 ≤ n
    → take n (r ∷ l) ≡ r ∷ take (n - 1) l
take-cons zero r l h = absurd (omega arith)
take-cons (suc n) r l h = let e : suc n - 1 ≡ n = omega arith in rw e

-- What a list report for the readings `l` says, given the streamer's index, the report's id and the
-- maximum size.
abbrev pub Reports :
    DataStreamer → Request → ℕ → ℕ → ℕ → List IoTileReading → Result StreamerReport → Type 0
Reports s q index id max_size [] out = out ≡ err Error.stream_empty_error
Reports s q index id max_size (r ∷ l) out =
    let readings = take (max_readings max_size) (r ∷ l) in
    let selector = Selector.encode s.selector in
    (FitsList q.device_id readings id selector index q.device_uptime
      × ((report : StreamerReport) × (out ≡ ok report)
          × (report.report ≡ signed_list q.device_id readings id selector index q.device_uptime)
          × (report.num_readings ≡ length readings)
          × (44 + 16 * report.num_readings ≤ max_size)
          × IsHighest report.highest_id readings))
    ⊎ ((¬ FitsList q.device_id readings id selector index q.device_uptime)
        × (out ≡ err Error.struct_error))

module _ (s : DataStreamer) (q : Request) (e : Engine) (w : StreamWalker) {index id max_size : ℕ}
    (hashed : s.format ≡ ReportFormat.hashedlist) (indexed : s.index ≡ some index)
    (identified : q.report_id ≡ some id) (sized : q.max_size ≡ some max_size)
    (large : 60 ≤ max_size) where
  build_report-build_list :
      build_report s q e (some w) ≡ (let (out, w') = build_list s q index id e w in (out, some w'))
  unfolding build_report build_checked build requires_signing requires_id
  build_report-build_list = ground (arith, hashed, indexed, identified)

  build_list-collect :
      (l : List IoTileReading)
      → (collect (max_readings max_size) e w).0 ≡ ok l
      → build_list s q index id e w
        ≡ (report_list s q index id l, (collect (max_readings max_size) e w).1)
  unfolding build_list
  build_list-collect l taken = ground (arith, sized, taken)

  report_list-Reports :
      (l : List IoTileReading)
      → Reports s q index id max_size l (report_list s q index id (take (max_readings max_size) l))
  unfolding report_list
  report_list-Reports [] = rw (take-nil (max_readings max_size)) refl
  report_list-Reports (r ∷ l) =
      let n = max_readings max_size in
      let taken = take-cons n r l (omega arith) in
      let readings = take n (r ∷ l) in
      let selector = Selector.encode s.selector in
      let fits = list_fits q.device_id readings id selector index q.device_uptime in
      let (from, to) = list_fits-FitsList q.device_id readings id selector index q.device_uptime in
      elim (Bool-cases fits) [
        | inr unfit ↦ inr (
          λ all. let good = to all in absurd (ground (arith, good, unfit)),
          ground (arith, taken, unfit),
        )
        | inl good ↦ inl (
          from good,
          (
            record {
              report = signed_list q.device_id readings id selector index q.device_uptime;
              num_readings = length readings;
              highest_id = highest readings 0;
            },
            ground (arith, taken, good),
            refl,
            refl,
            fits_size max_size (r ∷ l) large,
            highest-IsHighest readings,
          ),
        )
      ]

  -- The report of a streamer of the format `hashedlist` that has an index, with a report id and a
  -- maximum size of at least 60 bytes, holds the first readings that the streamer's walker holds, in
  -- order and as many as fit the size, with their number and their largest id, and takes these
  -- readings from the walker. Where a number is out of the range of its field in the report, such as a
  -- value that is negative or of more than 32 bits, or an index from 256 on, `struct.error` is raised
  -- instead, and the readings are taken all the same. Where the walker has no reading
  -- `StreamEmptyError` is raised.
  pub build_report-Reports :
      (l : List IoTileReading)
      → Holds e w l
      → let (out, w') = build_report s q e (some w) in
        Reports s q index id max_size l out
        × ((v : StreamWalker) × (w' ≡ some v) × Holds e v (drop (max_readings max_size) l))
  build_report-Reports l h =
      let (taken, left) = collect-Holds (max_readings max_size) e w l h in
      rw (build_report-build_list, build_list-collect (take (max_readings max_size) l) taken)
        (report_list-Reports l, ((collect (max_readings max_size) e w).1, refl, left))

-- A streamer with a walker that holds readings is triggered exactly where there is a reading and the
-- streamer is automatic or triggered by hand.
pub triggered-Holds :
    (s : DataStreamer) (manual : Bool) (e : Engine) (w : StreamWalker) (l : List IoTileReading)
    → Holds e w l
    → triggered s (some w) manual ≡ ok ((s.automatic || manual) && ltb 0 (length l))
unfolding triggered has_data
triggered-Holds s manual e w l h = ground (arith, count-Holds e w l h)
