-- ===== src/Processors/Calling.antt =====
-- The functions that act on the device, and the difference of two inputs.
use coretools.Prelude.{
  ◌≡◌, refl, ℤ, pos, ◌-ℤ◌, Bool, true, List, [], ◌∷◌, arith, if◌then◌else◌, inl, inr,
}
use coretools.Errors.{Error, Result, Result-cases, ok, err}
use coretools.Reading.{IoTileReading, reading}
use coretools.Engine.{Engine}
use coretools.Walker.Any
use coretools.Walker.Any.{StreamWalker}
use coretools.Walker.Any.Queue.{Holds, pop-Holds, skip_all-Holds}
use coretools.Processors.{
  Actions, call_rpc, attempt_rpc, trigger_streamer, subtract_afromb, is_rpc_failure,
  is_argument_error, skip_inputs,
}
use coretools.Processors.Copying.{AllEmpty}

-- What `call_rpc` gives for an answer of the executor, and whether the exception of an answer is caught.
abbrev pub rpc_output : Result ℤ → Result (List IoTileReading)
rpc_output (ok v) = ok (reading 0 0 v ∷ [])
rpc_output (err x) = if is_rpc_failure x then ok [] else err x

abbrev pub is_handled : Result ℤ → Bool
is_handled (ok v) = true
is_handled (err x) = is_rpc_failure x

-- What `trigger_streamer` gives for an answer of the function that marks a streamer.
abbrev pub mark_output : Result (Unit {0}) → Result (List IoTileReading)
mark_output (ok _) = ok (reading 0 0 (pos 0) ∷ [])
mark_output (err x) = if is_argument_error x then ok [] else err x

module _ (actions : Actions) (e : Engine) (a b : StreamWalker) (qa : List IoTileReading)
    (s : actions.State) (ha : Holds e a qa) where
  open actions use {State, rpc, mark_streamer}

  skipped :
      (b' : StreamWalker) (q : List IoTileReading)
      → Holds e b' q
      → AllEmpty e (skip_inputs e (a ∷ b' ∷ []))
  skipped b' q h = (skip_all-Holds e a qa ha, (skip_all-Holds e b' q h, tt))

  -- Without a reading in its second input `call_rpc` makes no call and returns no reading, and leaves
  -- both inputs empty.
  pub call_rpc_idle :
      Holds e b []
      → let (output, inputs, s') = call_rpc actions e (a ∷ b ∷ []) s in
        (output ≡ ok []) × AllEmpty e inputs × (s' ≡ s)
  unfolding call_rpc attempt_rpc
  call_rpc_idle hb =
      let p : Any.pop e b ≡ (err Error.stream_empty_error, b) = pop-Holds e b [] hb in
      let run : call_rpc actions e (a ∷ b ∷ []) s ≡ (ok [], skip_inputs e (a ∷ b ∷ []), s) =
        ground (arith, p) in
      rw run (refl, skipped b [] hb, refl)

  -- With readings in its second input `trigger_streamer` marks the streamer that the first one's value
  -- names, and returns one reading if that worked, none if there is no such streamer, and raises any
  -- other exception again; in every case both inputs are left empty.
  pub trigger_streamer_lem :
      (r : IoTileReading) (q : List IoTileReading)
      → Holds e b (r ∷ q)
      → let (output, inputs, s') = trigger_streamer actions e (a ∷ b ∷ []) s in
        (output ≡ mark_output (mark_streamer r.value s).0)
        × AllEmpty e inputs
        × (s' ≡ (mark_streamer r.value s).1)
  unfolding trigger_streamer
  trigger_streamer_lem r q hb =
      let (p, left) = pop-Holds e b (r ∷ q) hb in
      let answer = mark_streamer r.value s in
      let run : trigger_streamer actions e (a ∷ b ∷ []) s
          ≡ (mark_output answer.0, skip_inputs e (a ∷ (Any.pop e b).1 ∷ []), answer.1) =
        elim (Result-cases answer.0) [
          | inl (v, got) ↦ ground (arith, p, got)
          | inr (x, got) ↦ ground (arith, p, got)
        ] in
      rw run (refl, skipped (Any.pop e b).1 q left, refl)

-- The output of `subtract_afromb` for the readings of its two inputs.
abbrev pub difference : List IoTileReading → List IoTileReading → List IoTileReading
difference (x ∷ _) (y ∷ _) = reading 0 0 (y.value -ℤ x.value) ∷ []
difference _ _ = []

-- What each input has left: one reading of the first is used up also where the second has none.
abbrev pub left_of_a : List IoTileReading → List IoTileReading
left_of_a [] = []
left_of_a (_ ∷ q) = q

abbrev pub left_of_b : List IoTileReading → List IoTileReading → List IoTileReading
left_of_b [] qb = qb
left_of_b (_ ∷ _) qb = left_of_a qb

-- `subtract_afromb` returns the first reading of the second input less the first one of the first input,
-- if both have one, and no reading otherwise. It takes a reading from the first input whenever there is
-- one, and from the second only after that.
pub subtract_afromb_lem :
    (e : Engine) (a b : StreamWalker) (qa qb : List IoTileReading)
    → Holds e a qa
    → Holds e b qb
    → (a' : StreamWalker) × (b' : StreamWalker) × (subtract_afromb e (a ∷ b ∷ [])
        ≡ (ok (difference qa qb), a' ∷ b' ∷ []))
      × Holds e a' (left_of_a qa)
      × Holds e b' (left_of_b qa qb)
unfolding subtract_afromb
subtract_afromb_lem e a b [] qb ha hb =
    let p : Any.pop e a ≡ (err Error.stream_empty_error, a) = pop-Holds e a [] ha in
    (a, b, ground (arith, p), ha, hb)
subtract_afromb_lem e a b (x ∷ qa) [] ha hb =
    let (pa, la) = pop-Holds e a (x ∷ qa) ha in
    let pb : Any.pop e b ≡ (err Error.stream_empty_error, b) = pop-Holds e b [] hb in
    ((Any.pop e a).1, b, ground (arith, pa, pb), la, hb)
subtract_afromb_lem e a b (x ∷ qa) (y ∷ qb) ha hb =
    let (pa, la) = pop-Holds e a (x ∷ qa) ha in
    let (pb, lb) = pop-Holds e b (y ∷ qb) hb in
    ((Any.pop e a).1, (Any.pop e b).1, ground (arith, pa, pb), la, lb)
