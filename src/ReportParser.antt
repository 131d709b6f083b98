-- ===== src/ReportParser.antt =====
-- `IOTileReportParser` of iotilecore/iotile/core/hw/reports/parser.py: a state machine that cuts a stream
-- of bytes into reports. The report formats are extensions that a registry loads, so that they are a
-- parameter, as the callback for reports is; the calls of the two callbacks are written down.
pub mod Moves
pub mod Appending
pub mod Settling
pub mod Chunks
pub mod Packets
mod Tests
use coretools.Prelude.{
  ℕ, zero, suc, ◌+◌, ◌*◌, Bool, true, false, not, ◌&&◌, ltb, leb, if◌then◌else◌, Option, none, some,
  List, [], ◌∷◌, ◌++◌, length, take, drop,
}
use coretools.Errors.{Error, Result, ok, err}

pub data State : Type 0 where
  waiting_for_report_type waiting_for_report_header waiting_for_complete_report error_state : State

pub data ErrorCode : Type 0 where
  error_finding_report_type error_parsing_report_header error_parsing_complete_report : ErrorCode

-- The class of a report format: its `HeaderLength`, `ReportLength` and constructor.
pub record Format (R : Type 0) : Type 0 where
  pub header_length : Result ℕ
  pub report_length : List ℕ → Result ℕ
  pub parse : List ℕ → Result R

-- `emitted` are the calls of the report callback, `errors` those of the error callback.
pub record Parser (R : Type 0) : Type 0 where
  pub raw_data : List ℕ
  pub state : State
  pub current_type : ℕ
  pub current_header_size : ℕ
  pub current_report_size : ℕ
  pub reports : List R
  pub emitted : List R
  pub errors : List ErrorCode

unfoldable pub init : (R : Type 0) → Parser R
init R = record {
  raw_data = [];
  state = waiting_for_report_type;
  current_type = 0;
  current_header_size = 0;
  current_report_size = 0;
  reports = [];
  emitted = [];
  errors = [];
}

-- The parts of `process_data` before the next report type, for the measure of the loop.
abbrev pub rank : State → ℕ
rank waiting_for_report_type = 3
rank waiting_for_report_header = 2
rank waiting_for_complete_report = 1
rank error_state = 0

-- What a part of `process_data` does: its guard does not hold, it moves on, or it raises an exception.
pub data Move (R : Type 0) : Type 0 where
  stuck : Move R
  moved : Parser R → Move R
  failed : ErrorCode → Error → Parser R → Move R

module _ {R : Type 0} where
  abbrev pub is_waiting_for_type : Parser R → Bool
  is_waiting_for_type p = elim p.state [ waiting_for_report_type ↦ true | _ ↦ false ]

  abbrev pub is_waiting_for_header : Parser R → Bool
  is_waiting_for_header p = elim p.state [ waiting_for_report_header ↦ true | _ ↦ false ]

  abbrev pub is_waiting_for_report : Parser R → Bool
  is_waiting_for_report p = elim p.state [ waiting_for_complete_report ↦ true | _ ↦ false ]

  abbrev pub is_error : Parser R → Bool
  is_error p = elim p.state [ error_state ↦ true | _ ↦ false ]

  -- The rounds that are allowed: one more than this measure of the parser.
  abbrev pub rounds_for : Parser R → ℕ
  rounds_for p = 4 * length p.raw_data + rank p.state

  -- Whether the report is kept, by the answer of the callback.
  unfoldable pub keep_report : Result Bool → R → Parser R → Option Error × Parser R
  keep_report (err x) report p = (some x, p)
  keep_report (ok false) report p = (none, p)
  keep_report (ok true) report p = (none, record p { reports = p.reports ++ (report ∷ []) })

  module _ (known_formats : ℕ → Option (Format R)) (report_callback : Option (R → Result Bool))
      (error_callback : Bool) where
    -- `self.known_formats[current_type]`, and the calls of the class.
    unfoldable pub calculate_header_size : ℕ → Result ℕ
    calculate_header_size current_type = elim (known_formats current_type) [
      | none ↦ err Error.key_error
      | some format ↦ format.header_length
    ]

    unfoldable pub calculate_report_size : ℕ → List ℕ → Result ℕ
    calculate_report_size current_type header = elim (known_formats current_type) [
      | none ↦ err Error.key_error
      | some format ↦ format.report_length header
    ]

    unfoldable pub parse_report : ℕ → List ℕ → Result R
    parse_report current_type bytes = elim (known_formats current_type) [
      | none ↦ err Error.key_error
      | some format ↦ format.parse bytes
    ]

    -- `_handle_report`, with the exception that the callback raises, if any.
    abbrev pub answer : R → Result Bool
    answer report = elim report_callback [ none ↦ ok true | some f ↦ f report ]

    abbrev pub emit : R → Parser R → Parser R
    emit report p = record p {
      emitted = elim report_callback [ none ↦ p.emitted | some f ↦ p.emitted ++ (report ∷ []) ];
    }

    unfoldable pub handle_report : R → Parser R → Option Error × Parser R
    unfolding keep_report
    handle_report report p = keep_report (answer report) report (emit report p)

    -- The three parts of `process_data`.
    unfoldable pub find_type : Parser R → Move R
    unfolding calculate_header_size
    find_type p = if not (is_waiting_for_type p) then stuck else elim p.raw_data [
      | [] ↦ stuck
      | t ∷ rest ↦
          let p' = record p { current_type = t } in
          elim (calculate_header_size t) [
            | err x ↦ failed error_finding_report_type x p'
            | ok n ↦
                moved (record p' { current_header_size = n; state = waiting_for_report_header })
          ]
    ]

    unfoldable pub find_size : Parser R → Move R
    unfolding calculate_report_size
    find_size p =
        if not (is_waiting_for_header p && leb p.current_header_size (length p.raw_data))
        then stuck
        else elim (calculate_report_size p.current_type (take p.current_header_size p.raw_data)) [
          | err x ↦ failed error_parsing_report_header x p
          | ok n ↦ moved (record p { current_report_size = n; state = waiting_for_complete_report })
        ]

    -- The bytes of the report are taken off before it is parsed.
    unfoldable pub take_report : Parser R → Move R
    unfolding parse_report handle_report
    take_report p =
        if not (is_waiting_for_report p && leb p.current_report_size (length p.raw_data))
        then stuck
        else let p' = record p { raw_data = drop p.current_report_size p.raw_data } in
          elim (parse_report p.current_type (take p.current_report_size p.raw_data)) [
            | err x ↦ failed error_parsing_complete_report x p'
            | ok report ↦
                let (raised, p'') = handle_report report p' in
                elim raised [
                  | some x ↦ failed error_parsing_complete_report x p''
                  | none ↦ moved (record p'' { state = waiting_for_report_type })
                ]
          ]

    -- The parser in its error state, with the call of the error callback if there is one.
    abbrev pub noted : ErrorCode → Parser R → Parser R
    noted code p = record p {
      state = error_state;
      errors = if error_callback then p.errors ++ (code ∷ []) else p.errors;
    }

    -- What follows a part; an exception goes to the error callback, and is raised without one.
    unfoldable pub after :
        Move R
        → Bool
        → Parser R
        → (Bool → Parser R → Result Bool × Parser R)
        → Result Bool × Parser R
    after stuck further p rest = rest further p
    after (moved p') further p rest = rest true p'
    after (failed code x p') further p rest =
        if error_callback then rest further (noted code p') else (err x, noted code p')

    unfoldable pub process_data : Parser R → Result Bool × Parser R
    unfolding find_type find_size take_report after
    process_data p = after (find_type p) false p (λ f p1.
        after (find_size p1) f p1 (λ g p2. after (take_report p2) g p2 (λ h p3. (ok h, p3))))

    -- The loop of `add_data`, for a number of rounds.
    unfoldable pub process : ℕ → Parser R → Result Bool × Parser R
    unfolding process_data
    process zero p = (err Error.diverged, p)
    process (suc rounds) p =
        let (result, p') = process_data p in
        let rest = process rounds p' in
        elim result [ err x ↦ (err x, p') | ok false ↦ (ok false, p') | ok true ↦ rest ]

    unfoldable pub add_data : Parser R → List ℕ → Result Bool × Parser R
    unfolding process
    add_data p bytes =
        if is_error p
        then (ok false, p)
        else let p' = record p { raw_data = p.raw_data ++ bytes } in
          process (suc (rounds_for p')) p'
