-- ===== src/ReportParser/Packets.antt =====
-- A stream of whole reports is parsed into these reports.
use coretools.Prelude.{
  ℕ, ◌≤◌, ◌≡◌, refl, sym, ◌∙◌, ap, Bool, false, Option, none, List, [], ◌∷◌, ◌++◌, length, take,
  drop, append-nil, append_assoc, length-append, drop-append, arith,
}
use coretools.Errors.{ok}
use coretools.ReportParser.{
  waiting_for_report_type, waiting_for_report_header, waiting_for_complete_report, Format, Parser,
  stuck, moved, is_error, calculate_header_size, calculate_report_size, parse_report, handle_report,
  keep_report, find_type, find_size, take_report,
}
use coretools.ReportParser.Moves.{move, plus, take-append}
use coretools.ReportParser.Appending.{RefuseEmpty}
use coretools.ReportParser.Settling.{Settles, rests, goes, Settles-unique}
use coretools.ReportParser.Chunks.{added, add_data-Settles}

take_all : (l : List ℕ) → take (length l) l ≡ l
take_all [] = refl
take_all (x ∷ l) = ap (◌∷◌ x) (take_all l)

drop_all : (l : List ℕ) → drop (length l) l ≡ []
drop_all [] = refl
drop_all (x ∷ l) = drop_all l

-- A report as bytes, by its format: a type, a header that is in it and tells its size, and the report.
pub record Packet {R : Type 0} (known_formats : ℕ → Option (Format R)) : Type 0 where
  pub kind : ℕ
  pub tail : List ℕ
  pub header_size : ℕ
  pub report : R
  pub headed : calculate_header_size known_formats none false kind ≡ ok header_size
  pub inside : header_size ≤ length (kind ∷ tail)
  pub sized :
      calculate_report_size known_formats none false kind (take header_size (kind ∷ tail))
      ≡ ok (length (kind ∷ tail))
  pub parsed : parse_report known_formats none false kind (kind ∷ tail) ≡ ok report

module _ {R : Type 0} (known_formats : ℕ → Option (Format R)) (error_callback : Bool) where
  abbrev pub bytes_of : Packet known_formats → List ℕ
  bytes_of k = k.kind ∷ k.tail

  unfoldable pub stream_of : List (Packet known_formats) → List ℕ
  stream_of [] = []
  stream_of (k ∷ ks) = bytes_of k ++ stream_of ks

  unfoldable pub reports_of : List (Packet known_formats) → List R
  reports_of [] = []
  reports_of (k ∷ ks) = k.report ∷ reports_of ks

  abbrev with_type : Packet known_formats → Parser R → Parser R
  with_type k p = record p {
    current_type = k.kind;
    current_header_size = k.header_size;
    state = waiting_for_report_header;
  }

  abbrev with_size : Packet known_formats → Parser R → Parser R
  with_size k p = record (with_type k p) {
    current_report_size = length (bytes_of k);
    state = waiting_for_complete_report;
  }

  -- The parser behind a packet.
  abbrev behind : Packet known_formats → List ℕ → Parser R → Parser R
  behind k rest p = record (with_size k p) {
    raw_data = rest;
    reports = p.reports ++ (k.report ∷ []);
    state = waiting_for_report_type;
  }

  abbrev at : List ℕ → Parser R → Parser R
  at bytes p = record p { raw_data = bytes; state = waiting_for_report_type }

  -- Three moves take a packet.
  first_move :
      (k : Packet known_formats) (rest : List ℕ) (p : Parser R)
      → let q = at (bytes_of k ++ rest) p in
        move known_formats none error_callback q ≡ moved (with_type k q)
  unfolding move find_type calculate_header_size
  first_move k rest p = let h = k.headed in ground (arith, h)

  second_move :
      (k : Packet known_formats) (rest : List ℕ) (p : Parser R)
      → let q = at (bytes_of k ++ rest) p in
        move known_formats none error_callback (with_type k q) ≡ moved (with_size k q)
  unfolding move find_size calculate_report_size
  second_move k rest p =
      let inside = k.inside in
      let sized = k.sized in
      let same = take-append k.header_size (bytes_of k) rest k.inside in
      let longer = length-append (bytes_of k) rest in ground (arith, inside, sized, same, longer)

  third_move :
      (k : Packet known_formats) (rest : List ℕ) (p : Parser R)
      → let q = at (bytes_of k ++ rest) p in
        move known_formats none error_callback (with_size k q) ≡ moved (behind k rest q)
  unfolding move take_report parse_report handle_report keep_report
  third_move k rest p =
      let n = length (bytes_of k) in
      let parsed = k.parsed in
      let all = take_all (bytes_of k) in
      let none_left = drop_all (bytes_of k) in
      let same = take-append n (bytes_of k) rest (omega arith) in
      let left = drop-append n (bytes_of k) rest (omega arith) in
      let longer = length-append (bytes_of k) rest in
      ground (arith, parsed, same, left, longer, all, none_left)

  -- The parser has taken all bytes, and kept the reports in order.
  abbrev pub Parsed : List (Packet known_formats) → Parser R → Parser R → Type 0
  Parsed ks p q =
      (q.raw_data ≡ [])
      × (q.state ≡ waiting_for_report_type)
      × (q.reports ≡ p.reports ++ reports_of ks)
      × (q.errors ≡ p.errors)

  no_bytes : (p : Parser R) → move known_formats none error_callback (at [] p) ≡ stuck
  unfolding move find_type
  no_bytes p = refl

  stream-Settles :
      (ks : List (Packet known_formats)) (p : Parser R)
      → (q : Parser R) × Settles known_formats none error_callback (at (stream_of ks) p) q
        × Parsed ks p q
  unfolding stream_of reports_of
  stream-Settles [] p =
      (at [] p, rests (no_bytes p) refl, (refl, refl, sym (append-nil p.reports), refl))
  stream-Settles (k ∷ ks) p =
      let rest = stream_of ks in
      let p' = behind k rest (at (bytes_of k ++ rest) p) in
      let (q, settled, (raw, state, reports, errors)) = stream-Settles ks p' in
      (
        q,
        goes (first_move k rest p)
            (goes (second_move k rest p) (goes (third_move k rest p) settled)),
        (raw, state, reports ∙ append_assoc p.reports (k.report ∷ []) (reports_of ks), errors),
      )

  -- Where no report format takes an empty report, and reports are not given to a callback, a parser
  -- that waits for a report type and has no bytes left takes a stream of whole reports apart: it keeps
  -- these reports, in order, has no bytes left, and no error.
  pub add_data-packets :
      (ks : List (Packet known_formats)) (p : Parser R)
      → RefuseEmpty known_formats none error_callback
      → p.state ≡ waiting_for_report_type
      → p.raw_data ≡ []
      → Parsed ks p (added known_formats none error_callback p (stream_of ks))
  add_data-packets ks p full waits empty =
      let (q, settled, parsed) = stream-Settles ks p in
      let fine : is_error p ≡ false = ground (arith, waits) in
      let start : plus (stream_of ks) p ≡ at (stream_of ks) p = ground (arith, waits, empty) in
      let reached = add_data-Settles known_formats none error_callback p (stream_of ks) full fine in
      let same = Settles-unique known_formats none error_callback (rw start at reached) settled in
      rw same parsed
