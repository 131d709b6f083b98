-- ===== src/Processors.antt =====
-- The processing functions of iotilesensorgraph/iotile/sg/processors.py. A function is given the input
-- walkers of its node and returns its readings, or raises, beside the walkers as it leaves them.
pub mod Copying
pub mod Calling
mod Tests
use coretools.Prelude.{
  ℕ, zero, suc, ◌-◌, ◌/◌, ◌%◌, ◌+◌, ℤ, pos, negsuc, ◌-ℤ◌, Bool, true, false, ltb, if◌then◌else◌,
  Option, none, some, List, [], ◌∷◌, map, get_elem?, set,
}
use coretools.Errors.{Error, Result, ok, err}
use coretools.Selector
use coretools.Reading.{IoTileReading, reading}
use coretools.Engine.{Engine}
use coretools.Walker.Any
use coretools.Walker.Any.{StreamWalker}

-- What the functions are given to act on the device with: a state of their own, the RPC executor, and
-- the function that marks a streamer by its index. Neither is code of the sensor graph's processors.
pub record Actions : Type 1 where
  pub State : Type 0
  pub rpc : ℤ → ℤ → State → Result ℤ × State
  pub mark_streamer : ℤ → State → Result (Unit {0}) × State

-- `x >> 16` and `x & 0xFFFF` on Python integers.
abbrev pub high_half : ℤ → ℤ
high_half (pos n) = pos (n / 65536)
high_half (negsuc n) = negsuc (n / 65536)

abbrev pub low_half : ℤ → ℤ
low_half (pos n) = pos (n % 65536)
low_half (negsuc n) = pos (65535 - n % 65536)

abbrev pub skip_inputs : Engine → List StreamWalker → List StreamWalker
skip_inputs e = map (Any.skip_all e)

-- The loop of `copy_all_a`, with the rounds that it may take.
unfoldable pub drain : ℕ → Engine → StreamWalker → Result (List IoTileReading) × StreamWalker
drain zero e w = (err Error.diverged, w)
drain (suc rounds) e w = elim (ltb 0 (Any.count w)) [
  | false ↦ (ok [], w)
  | true ↦
      let (popped, w') = Any.pop e w in
      elim popped [
        | err x ↦ (err x, w')
        | ok r ↦
            let (rest, w'') = drain rounds e w' in
            (elim rest [ err x ↦ err x | ok l ↦ ok (r ∷ l) ], w'')
      ]
]

-- The loop of `copy_latest_a`, which keeps the last reading.
unfoldable pub drain_last :
    ℕ → Engine → StreamWalker → Option IoTileReading → Result (Option IoTileReading) × StreamWalker
drain_last zero e w last = (err Error.diverged, w)
drain_last (suc rounds) e w last = elim (ltb 0 (Any.count w)) [
  | false ↦ (ok last, w)
  | true ↦
      let (popped, w') = Any.pop e w in
      elim popped [ err x ↦ (err x, w') | ok r ↦ drain_last rounds e w' (some r) ]
]

-- Every round of the loops takes one from the count of a walker that can be exhausted.
abbrev pub rounds_for : StreamWalker → ℕ
rounds_for w = suc (Any.count w)

unfoldable pub copy_all_a :
    Engine → StreamWalker → List StreamWalker → Result (List IoTileReading) × List StreamWalker
copy_all_a e input_a other_inputs =
    let (output, input_a') = drain (rounds_for input_a) e input_a in
    elim output [
      | err x ↦ (err x, input_a' ∷ other_inputs)
      | ok l ↦ (ok l, input_a' ∷ skip_inputs e other_inputs)
    ]

-- The choice of the last reading.
unfoldable pub latest : Engine → StreamWalker → Result (Option IoTileReading) × StreamWalker
latest e input_a = elim (Any.selector input_a) [
  | none ↦ (err Error.attribute_error, input_a)
  | some selector ↦ elim (Selector.inexhaustible selector) [
    | true ↦
        let (popped, input_a') = Any.pop e input_a in
        (elim popped [ err x ↦ err x | ok r ↦ ok (some r) ], input_a')
    | false ↦ drain_last (rounds_for input_a) e input_a none
  ]
]

abbrev pub one_or_none : Option IoTileReading → List IoTileReading
one_or_none none = []
one_or_none (some r) = r ∷ []

unfoldable pub copy_latest_a :
    Engine → StreamWalker → List StreamWalker → Result (List IoTileReading) × List StreamWalker
copy_latest_a e input_a other_inputs =
    let (last, input_a') = latest e input_a in
    elim last [
      | err x ↦ (err x, input_a' ∷ other_inputs)
      | ok o ↦ (ok (one_or_none o), input_a' ∷ skip_inputs e other_inputs)
    ]

unfoldable pub copy_count_a :
    Engine → StreamWalker → List StreamWalker → Result (List IoTileReading) × List StreamWalker
copy_count_a e input_a other_inputs =
    let n = Any.count input_a in
    (ok (reading 0 0 (pos n) ∷ []), skip_inputs e (input_a ∷ other_inputs))

-- `inputs[i].pop()`.
abbrev pub pop_input : Engine → List StreamWalker → ℕ → Result IoTileReading × List StreamWalker
pop_input e inputs i = elim (get_elem? inputs i) [
  | none ↦ (err Error.index_error, inputs)
  | some w ↦ let (r, w') = Any.pop e w in (r, set inputs i w')
]

-- The exceptions that `call_rpc` and the other functions catch.
abbrev pub is_stream_empty : Error → Bool
is_stream_empty Error.stream_empty_error = true
is_stream_empty _ = false

abbrev pub is_rpc_failure : Error → Bool
is_rpc_failure Error.stream_empty_error = true
is_rpc_failure Error.hardware_error = true
is_rpc_failure _ = false

abbrev pub is_argument_error : Error → Bool
is_argument_error Error.argument_error = true
is_argument_error _ = false

module _ (actions : Actions) where
  open actions use {State, rpc, mark_streamer}

  -- The `try` block of `call_rpc`.
  unfoldable pub attempt_rpc :
      Engine → List StreamWalker → State → Result IoTileReading × List StreamWalker × State
  attempt_rpc e inputs s =
      let (popped, inputs') = pop_input e inputs 1 in
      elim popped [
        | err x ↦ (err x, inputs', s)
        | ok value ↦
            let (answer, s') = rpc (high_half value.value) (low_half value.value) s in
            (elim answer [ err x ↦ err x | ok v ↦ ok (reading 0 0 v) ], inputs', s')
      ]

  unfoldable pub call_rpc :
      Engine → List StreamWalker → State → Result (List IoTileReading) × List StreamWalker × State
  call_rpc e inputs s =
      let (attempt, inputs', s') = attempt_rpc e inputs s in
      elim attempt [
        | ok r ↦ (ok (r ∷ []), skip_inputs e inputs', s')
        | err x ↦
            if is_rpc_failure x then (ok [], skip_inputs e inputs', s') else (err x, inputs', s')
      ]

  unfoldable pub trigger_streamer :
      Engine → List StreamWalker → State → Result (List IoTileReading) × List StreamWalker × State
  trigger_streamer e inputs s =
      let (popped, inputs') = pop_input e inputs 1 in
      let skipped = skip_inputs e inputs' in
      elim popped [
        | err x ↦ if is_stream_empty x then (ok [], skipped, s) else (err x, skipped, s)
        | ok r ↦
            let (marked, s') = mark_streamer r.value s in
            elim marked [
              | ok _ ↦ (ok (reading 0 0 (pos 0) ∷ []), skipped, s')
              | err x ↦ if is_argument_error x then (ok [], skipped, s') else (err x, skipped, s')
            ]
      ]

unfoldable pub subtract_afromb :
    Engine → List StreamWalker → Result (List IoTileReading) × List StreamWalker
subtract_afromb e inputs =
    let (popped_a, inputs') = pop_input e inputs 0 in
    elim popped_a [
      | err x ↦ if is_stream_empty x then (ok [], inputs') else (err x, inputs')
      | ok value_a ↦
          let (popped_b, inputs'') = pop_input e inputs' 1 in
          elim popped_b [
            | err x ↦ if is_stream_empty x then (ok [], inputs'') else (err x, inputs'')
            | ok value_b ↦ (ok (reading 0 0 (value_b.value -ℤ value_a.value) ∷ []), inputs'')
          ]
    ]
