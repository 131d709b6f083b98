-- ===== src/ReportParser/Moves.antt =====
-- The single moves of `IOTileReportParser`, of which `process_data` makes up to three.
use coretools.Prelude.{
  ℕ, zero, suc, ◌≤◌, ◌≡◌, ◌⊎◌, refl, ap, Bool, true, Option, List, [], ◌∷◌, ◌++◌, length, take,
  Bool-cases, inl, inr, arith,
}
use coretools.Errors.{Error, Result}
use coretools.ReportParser.{
  waiting_for_report_type, waiting_for_report_header, waiting_for_complete_report, error_state,
  ErrorCode, Format, Parser, Move, stuck, moved, failed, is_waiting_for_type, is_waiting_for_header,
  is_waiting_for_report, is_error, find_type, find_size, take_report,
}

pub take-append : (n : ℕ) (xs ys : List ℕ) → n ≤ length xs → take n (xs ++ ys) ≡ take n xs
take-append zero xs ys h = refl
take-append (suc n) [] ys h = absurd (omega arith)
take-append (suc n) (x ∷ xs) ys h = ap (◌∷◌ x) (take-append n xs ys (omega arith))

module _ {R : Type 0} where
  pub Move-cases :
      (s : Move R)
      → (s ≡ stuck)
        ⊎ (((p : Parser R) × (s ≡ moved p))
            ⊎ ((c : ErrorCode) × (x : Error) × (p : Parser R) × (s ≡ failed c x p)))
  Move-cases stuck = inl refl
  Move-cases (moved p) = inr (inl (p, refl))
  Move-cases (failed c x p) = inr (inr (c, x, p, refl))

  -- More bytes at the end of what the parser has.
  abbrev pub plus : List ℕ → Parser R → Parser R
  plus bytes p = record p { raw_data = p.raw_data ++ bytes }

  module _ (known_formats : ℕ → Option (Format R)) (report_callback : Option (R → Result Bool))
      (error_callback : Bool) where
    -- The part of `process_data` for the state.
    unfoldable pub move : Parser R → Move R
    move p = elim p.state [
      | waiting_for_report_type ↦ find_type known_formats report_callback error_callback p
      | waiting_for_report_header ↦ find_size known_formats report_callback error_callback p
      | waiting_for_complete_report ↦ take_report known_formats report_callback error_callback p
      | error_state ↦ stuck
    ]

    -- Each part has something to do in its own state alone.
    pub find_type-move :
        (p : Parser R)
        → (find_type known_formats report_callback error_callback p ≡ stuck)
          ⊎ (find_type known_formats report_callback error_callback p ≡ move p)
    unfolding move find_type
    find_type-move p = elim (Bool-cases (is_waiting_for_type p)) [
      | inl here ↦ inr (ground (arith, here))
      | inr elsewhere ↦ inl (ground (arith, elsewhere))
    ]

    pub find_size-move :
        (p : Parser R)
        → (find_size known_formats report_callback error_callback p ≡ stuck)
          ⊎ (find_size known_formats report_callback error_callback p ≡ move p)
    unfolding move find_size
    find_size-move p = elim (Bool-cases (is_waiting_for_header p)) [
      | inl here ↦ inr (ground (arith, here))
      | inr elsewhere ↦ inl (ground (arith, elsewhere))
    ]

    pub take_report-move :
        (p : Parser R)
        → (take_report known_formats report_callback error_callback p ≡ stuck)
          ⊎ (take_report known_formats report_callback error_callback p ≡ move p)
    unfolding move take_report
    take_report-move p = elim (Bool-cases (is_waiting_for_report p)) [
      | inl here ↦ inr (ground (arith, here))
      | inr elsewhere ↦ inl (ground (arith, elsewhere))
    ]

    pub all_stuck-move :
        (p : Parser R)
        → find_type known_formats report_callback error_callback p ≡ stuck
        → find_size known_formats report_callback error_callback p ≡ stuck
        → take_report known_formats report_callback error_callback p ≡ stuck
        → move p ≡ stuck
    unfolding move
    all_stuck-move p a b c = ground (arith, a, b, c)

    pub error-move : (p : Parser R) → is_error p ≡ true → move p ≡ stuck
    unfolding move
    error-move p h = ground (arith, h)
