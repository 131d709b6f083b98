-- ===== src/ReportParser/Chunks.antt =====
-- How the bytes of a stream are cut into chunks does not matter to `IOTileReportParser`.
use coretools.Prelude.{
  ℕ, suc, ◌≡◌, ◌⊎◌, refl, sym, ◌∙◌, ap, Bool, true, false, Option, List, ◌++◌, append_assoc,
  Bool-cases, inl, inr, arith,
}
use coretools.Errors.{Result, ok}
use coretools.ReportParser.{
  Format, Parser, stuck, is_error, find_type, find_size, take_report, process_data, process,
  add_data, after, rounds_for,
}
use coretools.ReportParser.Moves.{move, plus, find_type-move, find_size-move, take_report-move}
use coretools.ReportParser.Appending.{RefuseEmpty}
use coretools.ReportParser.Settling.{
  Settles, rests, fails, goes, process-Settles, Settles-unique, Settles-plus, Settles-plus_failed,
}

module _ {R : Type 0} (known_formats : ℕ → Option (Format R))
    (report_callback : Option (R → Result Bool)) (error_callback : Bool) where
  abbrev pub added : Parser R → List ℕ → Parser R
  added p bytes = (add_data known_formats report_callback error_callback p bytes).1

  -- Nothing is left to do.
  abbrev pub IsSettled : Parser R → Type 0
  IsSettled p = process_data known_formats report_callback error_callback p ≡ (ok false, p)

  stuck-process_data :
      (p : Parser R) → move known_formats report_callback error_callback p ≡ stuck → IsSettled p
  unfolding process_data after
  stuck-process_data p e =
      let first = find_type-move known_formats report_callback error_callback p in
      let second = find_size-move known_formats report_callback error_callback p in
      let third = take_report-move known_formats report_callback error_callback p in
      let f : find_type known_formats report_callback error_callback p ≡ stuck =
        ground (arith, e, first) in
      let g : find_size known_formats report_callback error_callback p ≡ stuck =
        ground (arith, e, second) in
      let h : take_report known_formats report_callback error_callback p ≡ stuck =
        ground (arith, e, third) in
      rw (f, g, h) refl

  Settles-ends :
      {p q : Parser R}
      → Settles known_formats report_callback error_callback p q
      → (is_error q ≡ true) ⊎ IsSettled q
  Settles-ends {p} (rests e same) = inr (rw same (stuck-process_data p e))
  Settles-ends (fails e same) = inl (ground (arith, same))
  Settles-ends (goes e s) = Settles-ends s

  added-error : (p : Parser R) (bytes : List ℕ) → is_error p ≡ true → added p bytes ≡ p
  unfolding add_data
  added-error p bytes wrong = ground (arith, wrong)

  added-fine :
      (p : Parser R) (bytes : List ℕ)
      → is_error p ≡ false
      → added p bytes
        ≡ (process known_formats report_callback error_callback
            (suc (rounds_for (plus bytes p)))
            (plus bytes p)).1
  unfolding add_data
  added-fine p bytes fine = ground (arith, fine)

  pub add_data-Settles :
      (p : Parser R) (bytes : List ℕ)
      → RefuseEmpty known_formats report_callback error_callback
      → is_error p ≡ false
      → Settles known_formats report_callback error_callback (plus bytes p) (added p bytes)
  add_data-Settles p bytes full fine = rw (added-fine p bytes fine) (
      process-Settles known_formats report_callback error_callback _ (plus bytes p) full
        (omega arith))

  -- Where no report format takes an empty report, the loop of `add_data` ends, whatever the parser and
  -- the bytes are: the parser is then in its error state, or `process_data` has nothing left to do.
  pub add_data-ends :
      (p : Parser R) (bytes : List ℕ)
      → RefuseEmpty known_formats report_callback error_callback
      → (is_error (added p bytes) ≡ true) ⊎ IsSettled (added p bytes)
  add_data-ends p bytes full = elim (Bool-cases (is_error p)) [
    | inl wrong ↦ inl (rw (added-error p bytes wrong) wrong)
    | inr fine ↦ Settles-ends (add_data-Settles p bytes full fine)
  ]

  -- The same reports, calls and state, and the same parser but after an error.
  abbrev pub Agree : Parser R → Parser R → Type 0
  Agree p q =
      (p.state ≡ q.state)
      × (p.reports ≡ q.reports)
      × (p.emitted ≡ q.emitted)
      × (p.errors ≡ q.errors)
      × (is_error p ≡ false → p ≡ q)

  same-Agree : {p q : Parser R} → p ≡ q → Agree p q
  same-Agree {p} {q} e = rw e (refl, refl, refl, refl, λ fine. refl)

  -- Where no report format takes an empty report, bytes that come in two chunks do the same as in one:
  -- the parser has the same state and reports, has made the same calls of its callbacks, and, unless
  -- it is in its error state, is the same.
  pub add_data-append :
      (p : Parser R) (a b : List ℕ)
      → RefuseEmpty known_formats report_callback error_callback
      → Agree (added p (a ++ b)) (added (added p a) b)
  add_data-append p a b full = elim (Bool-cases (is_error p)) [
    | inl wrong ↦
        same-Agree
          (added-error p (a ++ b) wrong ∙ sym (rw (added-error p a wrong) (added-error p b wrong)))
    | inr fine ↦
        let first = add_data-Settles p a full fine in
        let all = add_data-Settles p (a ++ b) full fine in
        let q = added p a in
        let joined : plus b (plus a p) ≡ plus (a ++ b) p =
          ap (λ l. record p { raw_data = l }) (append_assoc p.raw_data a b) in
        elim (Bool-cases (is_error q)) [
          | inr good ↦
              let second = add_data-Settles q b full good in
              let both =
                Settles-plus known_formats report_callback error_callback b first good second in
              same-Agree (
                Settles-unique known_formats report_callback error_callback all (rw joined at both))
          | inl bad ↦
              let both =
                Settles-plus_failed known_formats report_callback error_callback b first bad in
              let same =
                Settles-unique known_formats report_callback error_callback all
                  (rw joined at both) in
              rw (same, added-error q b bad)
                (refl, refl, refl, refl, λ good. absurd (ground (arith, bad, good)))
        ]
  ]
