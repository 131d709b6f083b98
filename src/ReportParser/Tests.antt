-- ===== src/ReportParser/Tests.antt =====
-- Tests of the model of `IOTileReportParser`, and its theorems at a concrete format.
use coretools.Prelude.{
  ℕ, ◌≡◌, ◌⊎◌, refl, true, Option, none, some, List, [], ◌∷◌, arith, ◌==◌, if◌then◌else◌,
}
use coretools.Errors.{Error, Result, ok, err}
use coretools.ReportParser.{
  Format, Parser, init, calculate_header_size, calculate_report_size, parse_report, is_error,
  add_data,
}
use coretools.ReportParser.Appending.{RefuseEmpty}
use coretools.ReportParser.Chunks.{added, IsSettled, Agree, add_data-ends, add_data-append}
use coretools.ReportParser.Packets.{Packet, Parsed, stream_of, add_data-packets}

-- The format of type 1 has its size in its second byte.
abbrev second : List ℕ → Result ℕ
second (t ∷ n ∷ l) = ok n
second l = err Error.struct_error

abbrev bytes_of_report : List ℕ → Result (List ℕ)
bytes_of_report [] = err Error.struct_error
bytes_of_report (t ∷ l) = ok l

abbrev sized_format : Format (List ℕ)
sized_format = record { header_length = ok 2; report_length = second; parse = bytes_of_report }

abbrev formats : ℕ → Option (Format (List ℕ))
formats t = if t == 1 then some sized_format else none

formats-RefuseEmpty : RefuseEmpty formats none true
unfolding parse_report
formats-RefuseEmpty t r e = ground (arith, e)

abbrev empty_parser : Parser (List ℕ)
empty_parser = init (List ℕ)

-- Two reports.
two_reports :
    (added formats none true empty_parser (1 ∷ 3 ∷ 7 ∷ 1 ∷ 2 ∷ [])).reports
    ≡ (3 ∷ 7 ∷ []) ∷ (2 ∷ []) ∷ []
unfolding add_data init
two_reports = refl

add_data-ends_example :
    let q = added formats none true empty_parser (1 ∷ 3 ∷ 7 ∷ 9 ∷ []) in
    (is_error q ≡ true) ⊎ IsSettled formats none true q
add_data-ends_example =
    add_data-ends formats none true empty_parser (1 ∷ 3 ∷ 7 ∷ 9 ∷ []) formats-RefuseEmpty

add_data-append_example :
    Agree formats none true
      (added formats none true empty_parser (1 ∷ 3 ∷ 7 ∷ 1 ∷ 2 ∷ []))
      (added formats none true (added formats none true empty_parser (1 ∷ 3 ∷ [])) (7 ∷ 1 ∷ 2 ∷ []))
add_data-append_example =
    add_data-append formats none true empty_parser (1 ∷ 3 ∷ []) (7 ∷ 1 ∷ 2 ∷ []) formats-RefuseEmpty

abbrev packet : Packet formats
unfolding calculate_header_size calculate_report_size parse_report
packet = record {
  kind = 1;
  tail = 3 ∷ 7 ∷ [];
  header_size = 2;
  report = 3 ∷ 7 ∷ [];
  headed = refl;
  inside = omega arith;
  sized = refl;
  parsed = refl;
}

add_data-packets_example :
    Parsed formats true
      (packet ∷ packet ∷ [])
      empty_parser
      (added formats none true empty_parser (stream_of formats true (packet ∷ packet ∷ [])))
unfolding init
add_data-packets_example =
    add_data-packets formats true (packet ∷ packet ∷ []) empty_parser formats-RefuseEmpty refl refl
