-- ===== src/ReportParser/Settling.antt =====
-- Where the loop of `IOTileReportParser` leads: moves, until no part of `process_data` has anything to do
-- or one has raised an exception.
use coretools.Prelude.{
  ℕ, zero, suc, ◌<◌, ◌≡◌, ◌⊎◌, refl, sym, ◌∙◌, Bool, true, false, Option, List, if◌then◌else◌, inl,
  inr, arith,
}
use coretools.Errors.{Error, Result, ok, err}
use coretools.ReportParser.{
  ErrorCode, Format, Parser, Move, stuck, moved, failed, is_error, find_type, find_size,
  take_report, noted, after, process_data, process, rounds_for,
}
use coretools.ReportParser.Moves.{
  Move-cases, move, find_type-move, find_size-move, take_report-move, all_stuck-move, error-move,
  plus,
}
use coretools.ReportParser.Appending.{move-lowers, move-plus, plus_move, RefuseEmpty}

module _ {R : Type 0} (known_formats : ℕ → Option (Format R))
    (report_callback : Option (R → Result Bool)) (error_callback : Bool) where
  abbrev on : Parser R → Move R
  on = move known_formats report_callback error_callback

  abbrev fails_as : ErrorCode → Parser R → Parser R
  fails_as = noted known_formats report_callback error_callback

  -- Moves one after the other.
  pub data Leads (p : Parser R) : Parser R → Type 0 where
    here : Leads p p
    next : {q r : Parser R} → Leads p q → on q ≡ moved r → Leads p r

  -- Moves to where nothing is left to do, or an exception is raised.
  pub data Settles : Parser R → Parser R → Type 0 where
    rests : {p q : Parser R} → on p ≡ stuck → q ≡ p → Settles p q
    fails :
        {p q r : Parser R} {c : ErrorCode} {x : Error}
        → on p ≡ failed c x r
        → q ≡ fails_as c r
        → Settles p q
    goes : {p q r : Parser R} → on p ≡ moved r → Settles r q → Settles p q

  Leads-Settles : {p r q : Parser R} → Leads p r → Settles r q → Settles p q
  Leads-Settles here s = s
  Leads-Settles (next l e) s = Leads-Settles l (goes e s)

  -- How far `process_data` has come from `p`: it has moved, it has done nothing yet, or an exception was
  -- raised.
  pub data Progress (p : Parser R) (past : Type 0) (further : Bool) (q : Parser R) : Type 0 where
    going : further ≡ true → Leads p q → rounds_for q < rounds_for p → Progress p past further q
    fresh : further ≡ false → q ≡ p → past → Progress p past further q
    ended :
        Settles p q → is_error q ≡ true → rounds_for q < rounds_for p → Progress p past further q

  abbrev pub Outcome : Parser R → Type 0 → Result Bool × Parser R → Type 0
  Outcome p past (ok further, q) = Progress p past further q
  Outcome p past (err x, q) = Settles p q

  -- An exception goes to the callback, or ends `process_data`.
  by_callback :
      (p q : Parser R) (final : Type 0) (b : Bool) (x : Error) (kept : Result Bool × Parser R)
      → Outcome p final kept
      → Settles p q
      → Outcome p final (if b then kept else (err x, q))
  by_callback p q final true x kept o s = o
  by_callback p q final false x kept o s = s

  module _ (p : Parser R) (full : RefuseEmpty known_formats report_callback error_callback)
      (past final : Type 0) (s : Parser R → Move R)
      (own : (q : Parser R) → (s q ≡ stuck) ⊎ (s q ≡ on q))
      (rest : Bool → Parser R → Result Bool × Parser R)
      (on_rest : (f : Bool) (q : Parser R)
        → Progress p (past × (s p ≡ stuck)) f q
        → Outcome p final (rest f q)) where
    stuck_after :
        (f : Bool) (q : Parser R)
        → s q ≡ stuck
        → Progress p past f q
        → Progress p (past × (s p ≡ stuck)) f q
    stuck_after f q e (going f_true l low) = going f_true l low
    stuck_after f q e (fresh f_false same h) = fresh f_false same (h, rw same at e)
    stuck_after f q e (ended settled wrong low) = ended settled wrong low

    moved_after :
        (f : Bool) (q q' : Parser R)
        → on q ≡ moved q'
        → Progress p past f q
        → Progress p (past × (s p ≡ stuck)) true q'
    moved_after f q q' e (going _ l low) =
        let lower = move-lowers known_formats report_callback error_callback q full in
        going refl (next l e) (ground (arith, e, lower, low))
    moved_after f q q' e (fresh _ same h) =
        let lower = move-lowers known_formats report_callback error_callback q full in
        going refl (next here (rw same at e)) (rw (← same) (ground (arith, e, lower)))
    moved_after f q q' e (ended settled wrong low) =
        let still = error-move known_formats report_callback error_callback q wrong in
        absurd (ground (arith, e, still))

    failed_after :
        (f : Bool) (q q' : Parser R) (c : ErrorCode) (x : Error)
        → on q ≡ failed c x q'
        → Progress p past f q
        → Settles p (fails_as c q') × (rounds_for (fails_as c q') < rounds_for p)
    failed_after f q q' c x e (going _ l low) =
        let lower = move-lowers known_formats report_callback error_callback q full in
        (Leads-Settles l (fails e refl), ground (arith, e, lower, low))
    failed_after f q q' c x e (fresh _ same h) =
        let lower = move-lowers known_formats report_callback error_callback q full in
        (fails (rw same at e) refl, rw (← same) (ground (arith, e, lower)))
    failed_after f q q' c x e (ended settled wrong low) =
        let still = error-move known_formats report_callback error_callback q wrong in
        absurd (ground (arith, e, still))

    after-Outcome :
        (f : Bool) (q : Parser R)
        → Progress p past f q
        → Outcome p final (after known_formats report_callback error_callback (s q) f q rest)
    unfolding after
    after-Outcome f q g = elim (Move-cases (s q)) [
      | inl e ↦ rw e (on_rest f q (stuck_after f q e g))
      | inr (inl (q', e)) ↦
          let it : on q ≡ moved q' = ground (arith, e, own q) in
          rw e (on_rest true q' (moved_after f q q' it g))
      | inr (inr (c, x, q', e)) ↦
          let it : on q ≡ failed c x q' = ground (arith, e, own q) in
          let (settled, low) = failed_after f q q' c x it g in
          rw e (
            by_callback p (fails_as c q') final error_callback x _
              (on_rest f (fails_as c q') (ended settled refl low)) settled)
    ]

  with_past :
      {A B : Type 0} (p q : Parser R) (f : Bool) → (A → B) → Progress p A f q → Progress p B f q
  with_past p q f h (going f_true l low) = going f_true l low
  with_past p q f h (fresh f_false same a) = fresh f_false same (h a)
  with_past p q f h (ended settled wrong low) = ended settled wrong low

  -- A round of the loop goes on where something has moved, and has settled where nothing has.
  pub process_data-Outcome :
      (p : Parser R)
      → RefuseEmpty known_formats report_callback error_callback
      → Outcome p (on p ≡ stuck) (process_data known_formats report_callback error_callback p)
  unfolding process_data
  process_data-Outcome p full =
      let s1 = find_type known_formats report_callback error_callback in
      let s2 = find_size known_formats report_callback error_callback in
      let s3 = take_report known_formats report_callback error_callback in
      let first = find_type-move known_formats report_callback error_callback in
      let second = find_size-move known_formats report_callback error_callback in
      let third = take_report-move known_formats report_callback error_callback in
      let none_left : ((Unit × (s1 p ≡ stuck)) × (s2 p ≡ stuck)) × (s3 p ≡ stuck) → on p ≡ stuck =
        λ h. all_stuck-move known_formats report_callback error_callback p h.0.0.1 h.0.1 h.1 in
      after-Outcome p full Unit (on p ≡ stuck) s1 first _
        (λ f q.
          after-Outcome p full (Unit × (s1 p ≡ stuck)) (on p ≡ stuck) s2 second _
            (λ g r.
              after-Outcome p full ((Unit × (s1 p ≡ stuck)) × (s2 p ≡ stuck)) (on p ≡ stuck) s3
                third _ (λ h t. with_past p t h none_left) g r)
            f q)
        false p (fresh refl refl tt)

  error_stays : {p q : Parser R} → is_error p ≡ true → Settles p q → q ≡ p
  error_stays {p} wrong (rests e same) = same
  error_stays {p} wrong (fails e same) =
      let still = error-move known_formats report_callback error_callback p wrong in
      absurd (ground (arith, e, still))
  error_stays {p} wrong (goes e s) =
      let still = error-move known_formats report_callback error_callback p wrong in
      absurd (ground (arith, e, still))

  round-Settles :
      (p : Parser R) (rounds : ℕ) (result : Result Bool) (q : Parser R)
      → Outcome p (on p ≡ stuck) (result, q)
      → rounds_for p < suc rounds
      → (rounds_for q < rounds
          → Settles q (process known_formats report_callback error_callback rounds q).1)
      → let all : Result Bool × Parser R = elim result [
        | err x ↦ (err x, q)
        | ok false ↦ (ok false, q)
        | ok true ↦ process known_formats report_callback error_callback rounds q
      ] in
        Settles p all.1
  round-Settles p rounds (err x) q o h ih = o
  round-Settles p rounds (ok false) q (going f_true l low) h ih = absurd (ground (arith, f_true))
  round-Settles p rounds (ok false) q (fresh _ same e) h ih = rests e same
  round-Settles p rounds (ok false) q (ended s wrong low) h ih = s
  round-Settles p rounds (ok true) q (going _ l low) h ih =
      Leads-Settles l (ih (omega (arith, h, low)))
  round-Settles p rounds (ok true) q (fresh f_false same e) h ih = absurd (ground (arith, f_false))
  round-Settles p rounds (ok true) q (ended s wrong low) h ih =
      rw (error_stays wrong (ih (omega (arith, h, low)))) s

  -- The loop settles within the rounds that `add_data` allows.
  pub process-Settles :
      (rounds : ℕ) (p : Parser R)
      → RefuseEmpty known_formats report_callback error_callback
      → rounds_for p < rounds
      → Settles p (process known_formats report_callback error_callback rounds p).1
  unfolding process
  process-Settles zero p full h = absurd (omega (arith, h))
  process-Settles (suc rounds) p full h =
      round-Settles p rounds _ _ (process_data-Outcome p full) h (process-Settles rounds _ full)

  -- There is one way to settle.
  pub Settles-unique : {p q r : Parser R} → Settles p q → Settles p r → q ≡ r
  Settles-unique (rests e same) (rests e' same') = same ∙ sym same'
  Settles-unique (rests e same) (fails e' same') = absurd (ground (arith, e, e'))
  Settles-unique (rests e same) (goes e' s') = absurd (ground (arith, e, e'))
  Settles-unique (fails e same) (rests e' same') = absurd (ground (arith, e, e'))
  Settles-unique (fails {r = a} {c = c} e same) (fails {r = b} {c = d} e' same') =
      let code : d ≡ c = ground (arith, e, e') in
      let it : b ≡ a = ground (arith, e, e') in same ∙ sym (rw (← code, ← it) same')
  Settles-unique (fails e same) (goes e' s') = absurd (ground (arith, e, e'))
  Settles-unique (goes e s) (rests e' same') = absurd (ground (arith, e, e'))
  Settles-unique (goes e s) (fails e' same') = absurd (ground (arith, e, e'))
  Settles-unique (goes {r = a} e s) (goes {r = b} e' s') =
      let it : b ≡ a = ground (arith, e, e') in Settles-unique s (rw (← it) s')

  -- More bytes do not change where the parser settles, if nothing is raised before they come.
  pub Settles-plus :
      {p q r : Parser R} (b : List ℕ)
      → Settles p q
      → is_error q ≡ false
      → Settles (plus b q) r
      → Settles (plus b p) r
  unfolding plus_move
  Settles-plus b (rests e same) fine t = rw (← same) t
  Settles-plus b (fails e same) fine t = absurd (ground (arith, same, fine))
  Settles-plus {p} b (goes e s) fine t =
      let more = move-plus known_formats report_callback error_callback b p in
      goes (ground (arith, e, more)) (Settles-plus b s fine t)

  -- And they are not looked at where something is raised before they come.
  pub Settles-plus_failed :
      {p q : Parser R} (b : List ℕ)
      → Settles p q
      → is_error q ≡ true
      → Settles (plus b p) (plus b q)
  unfolding plus_move
  Settles-plus_failed {p} b (rests e same) wrong =
      rests (error-move known_formats report_callback error_callback (plus b p) (rw same at wrong))
        (rw same refl)
  Settles-plus_failed {p} b (fails {r = a} {c = c} {x = x} e same) wrong =
      let more = move-plus known_formats report_callback error_callback b p in
      fails {r = plus b a} {c = c} {x = x} (ground (arith, e, more)) (rw same refl)
  Settles-plus_failed {p} b (goes e s) wrong =
      let more = move-plus known_formats report_callback error_callback b p in
      goes (ground (arith, e, more)) (Settles-plus_failed b s wrong)
