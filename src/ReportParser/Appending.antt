-- ===== src/ReportParser/Appending.antt =====
-- A move of `IOTileReportParser` is the same with more bytes behind those that the parser has, and it
-- lowers the number of rounds that are left.
use coretools.Prelude.{
  ℕ, zero, suc, ◌*◌, ◌<◌, ◌≡◌, ◌≢◌, ◌⊎◌, refl, Bool, true, false, ◌&&◌, leb, Option, List, [], ◌∷◌,
  length, take, drop, length-drop, length-append, drop-append, Bool-cases, Option-cases, inl, inr,
  arith, ltb,
}
use coretools.Errors.{Error, Result, ok, err, Result-cases}
use coretools.ReportParser.{
  Format, Parser, Move, stuck, moved, failed, is_waiting_for_type, is_waiting_for_header,
  is_waiting_for_report, calculate_header_size, calculate_report_size, parse_report, handle_report,
  keep_report, find_type, find_size, take_report, rounds_for,
}
use coretools.ReportParser.Moves.{plus, take-append, move}

-- A move with more bytes.
unfoldable pub plus_move : {R : Type 0} → List ℕ → Move R → Move R
plus_move b stuck = stuck
plus_move b (moved p) = moved (plus b p)
plus_move b (failed c x p) = failed c x (plus b p)

-- The rounds that the parser of a move leaves are fewer than a number.
abbrev pub lowers : {R : Type 0} → ℕ → Move R → Bool
lowers n stuck = true
lowers n (moved p) = ltb (rounds_for p) n
lowers n (failed c x p) = ltb (4 * length p.raw_data) n

module _ {R : Type 0} (known_formats : ℕ → Option (Format R))
    (report_callback : Option (R → Result Bool)) (error_callback : Bool) where
  abbrev handled : R → Parser R → Option Error × Parser R
  handled = handle_report known_formats report_callback error_callback

  keep_report-plus :
      (b : List ℕ) (a : Result Bool) (r : R) (p : Parser R)
      → keep_report a r (plus b p) ≡ ((keep_report a r p).0, plus b (keep_report a r p).1)
  unfolding keep_report
  keep_report-plus b (err x) r p = refl
  keep_report-plus b (ok false) r p = refl
  keep_report-plus b (ok true) r p = refl

  keep_report-raw :
      (a : Result Bool) (r : R) (p : Parser R) → (keep_report a r p).1.raw_data ≡ p.raw_data
  unfolding keep_report
  keep_report-raw (err x) r p = refl
  keep_report-raw (ok false) r p = refl
  keep_report-raw (ok true) r p = refl

  handle_report-plus :
      (b : List ℕ) (r : R) (p : Parser R)
      → handled r (plus b p) ≡ ((handled r p).0, plus b (handled r p).1)
  unfolding handle_report
  handle_report-plus b r p = keep_report-plus b _ r _

  handle_report-raw : (r : R) (p : Parser R) → (handled r p).1.raw_data ≡ p.raw_data
  unfolding handle_report
  handle_report-raw r p = keep_report-raw _ r _

  find_type-plus :
      (b : List ℕ) (p : Parser R)
      → let m = find_type known_formats report_callback error_callback in
        (m p ≡ stuck) ⊎ (m (plus b p) ≡ plus_move b (m p))
  unfolding find_type plus_move
  find_type-plus b p = by_bytes p.raw_data refl
    where
      by_bytes :
          (l : List ℕ)
          → p.raw_data ≡ l
          → let m = find_type known_formats report_callback error_callback in
            (m p ≡ stuck) ⊎ (m (plus b p) ≡ plus_move b (m p))
      by_bytes [] e = inl (ground (arith, e))
      by_bytes (t ∷ rest) e = elim (Bool-cases (is_waiting_for_type p)) [
        | inr elsewhere ↦ inl (ground (arith, elsewhere))
        | inl here ↦
            elim (Result-cases
              (calculate_header_size known_formats report_callback error_callback t)) [
                | inl (n, size) ↦ inr (ground (arith, e, here, size))
                | inr (x, bad) ↦ inr (ground (arith, e, here, bad))
              ]
      ]

  find_size-plus :
      (b : List ℕ) (p : Parser R)
      → let m = find_size known_formats report_callback error_callback in
        (m p ≡ stuck) ⊎ (m (plus b p) ≡ plus_move b (m p))
  unfolding find_size plus_move
  find_size-plus b p =
      elim (Bool-cases (is_waiting_for_header p && leb p.current_header_size (length p.raw_data))) [
        | inr early ↦ inl (ground (arith, early))
        | inl there ↦
            let same = take-append p.current_header_size p.raw_data b (ground (arith, there)) in
            let longer = length-append p.raw_data b in
            elim (Result-cases (
              calculate_report_size known_formats report_callback error_callback p.current_type
                (take p.current_header_size p.raw_data))) [
                  | inl (n, size) ↦ inr (ground (arith, there, same, longer, size))
                  | inr (x, bad) ↦ inr (ground (arith, there, same, longer, bad))
                ]
      ]

  take_report-plus :
      (b : List ℕ) (p : Parser R)
      → let m = take_report known_formats report_callback error_callback in
        (m p ≡ stuck) ⊎ (m (plus b p) ≡ plus_move b (m p))
  unfolding take_report plus_move
  take_report-plus b p =
      elim (Bool-cases (is_waiting_for_report p && leb p.current_report_size (length p.raw_data))) [
        | inr early ↦ inl (ground (arith, early))
        | inl there ↦
            let n = p.current_report_size in
            let same = take-append n p.raw_data b (ground (arith, there)) in
            let left = drop-append n p.raw_data b (ground (arith, there)) in
            let longer = length-append p.raw_data b in
            elim (Result-cases (
              parse_report known_formats report_callback error_callback p.current_type
                (take n p.raw_data))) [
                  | inr (x, bad) ↦ inr (ground (arith, there, same, longer, left, bad))
                  | inl (r, good) ↦
                      let p' = record p { raw_data = drop n p.raw_data } in
                      let more = handle_report-plus b r p' in
                      elim (Option-cases (handled r p').0) [
                        | inl fine ↦
                            inr (ground (arith, there, same, longer, left, good, more, fine))
                        | inr (x, raised) ↦
                            inr (ground (arith, there, same, longer, left, good, more, raised))
                      ]
                ]
      ]

  pub move-plus :
      (b : List ℕ) (p : Parser R)
      → let m = move known_formats report_callback error_callback in
        (m p ≡ stuck) ⊎ (m (plus b p) ≡ plus_move b (m p))
  unfolding move
  move-plus b p =
      let a = find_type-plus b p in
      let c = find_size-plus b p in let d = take_report-plus b p in ground (arith, a, c, d)

  -- No format takes an empty report.
  abbrev pub RefuseEmpty : Type 0
  RefuseEmpty =
      (t : ℕ) (r : R) → parse_report known_formats report_callback error_callback t [] ≢ ok r

  not_empty :
      (n t : ℕ) (l : List ℕ) (r : R)
      → RefuseEmpty
      → parse_report known_formats report_callback error_callback t (take n l) ≡ ok r
      → 0 < n
  not_empty zero t l r full e = absurd (full t r e)
  not_empty (suc n) t l r full e = omega arith

  find_type-lowers :
      (p : Parser R)
      → lowers (rounds_for p) (find_type known_formats report_callback error_callback p) ≡ true
  unfolding find_type
  find_type-lowers p = ground arith

  find_size-lowers :
      (p : Parser R)
      → lowers (rounds_for p) (find_size known_formats report_callback error_callback p) ≡ true
  unfolding find_size
  find_size-lowers p = ground arith

  take_report-lowers :
      (p : Parser R)
      → RefuseEmpty
      → lowers (rounds_for p) (take_report known_formats report_callback error_callback p) ≡ true
  unfolding take_report
  take_report-lowers p full =
      elim (Bool-cases (is_waiting_for_report p && leb p.current_report_size (length p.raw_data))) [
        | inr early ↦ ground (arith, early)
        | inl there ↦
            let n = p.current_report_size in
            let less = length-drop n p.raw_data in
            let p' = record p { raw_data = drop n p.raw_data } in
            elim (Result-cases (
              parse_report known_formats report_callback error_callback p.current_type
                (take n p.raw_data))) [
                  | inr (x, bad) ↦ ground (arith, there, less, bad)
                  | inl (r, good) ↦
                      let some_bytes = not_empty n p.current_type p.raw_data r full good in
                      let left = handle_report-raw r p' in
                      ground (arith, there, less, good, some_bytes, left)
                ]
      ]

  pub move-lowers :
      (p : Parser R)
      → RefuseEmpty
      → lowers (rounds_for p) (move known_formats report_callback error_callback p) ≡ true
  unfolding move
  move-lowers p full =
      ground (arith, find_type-lowers p, find_size-lowers p, take_report-lowers p full)
