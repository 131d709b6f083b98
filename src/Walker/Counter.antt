-- ===== src/Walker/Counter.antt =====
-- `CounterStreamWalker` of iotilesensorgraph/iotile/sg/walker.py: the last reading, and how many pops
-- it is good for.
use coretools.Prelude.{
  ℕ, zero, suc, ◌+◌, ◌-◌, Bool, not, ◌==◌, if◌then◌else◌, Option, none, some, List, [], ◌∷◌,
}
use coretools.Errors.{Error, Result, ok, err}
use coretools.Stream.{DataStream}
use coretools.Selector
use coretools.Selector.{DataStreamSelector}
use coretools.Reading.{IoTileReading}

pub record CounterStreamWalker : Type 0 where
  pub selector : DataStreamSelector
  pub reading : Option IoTileReading
  pub count : ℕ

unfoldable pub init : DataStreamSelector → Result CounterStreamWalker
init selector = elim selector.match_id [
  | none ↦ err Error.argument_error
  | some _ ↦ ok (record { selector = selector; reading = none; count = 0 })
]

unfoldable pub matches : CounterStreamWalker → DataStream → Bool
matches w stream = Selector.matches w.selector stream

unfoldable pub push : CounterStreamWalker → DataStream → IoTileReading → Result CounterStreamWalker
push w stream value =
    if not (matches w stream)
    then err Error.argument_error
    else ok (record w { reading = some value; count = w.count + 1 })

-- The loop of `iter`.
unfoldable pub repeat : ℕ → Option IoTileReading → List (Option IoTileReading)
repeat zero reading = []
repeat (suc n) reading = reading ∷ repeat n reading

unfoldable pub iter : CounterStreamWalker → List (Option IoTileReading)
iter w = repeat w.count w.reading

-- `None` is returned where there never was a reading.
unfoldable pub pop : CounterStreamWalker → Result (Option IoTileReading) × CounterStreamWalker
pop w =
    if w.count == 0
    then (err Error.stream_empty_error, w)
    else (ok w.reading, record w { count = w.count - 1 })

unfoldable pub peek : CounterStreamWalker → Result IoTileReading
peek w = elim w.reading [ none ↦ err Error.stream_empty_error | some reading ↦ ok reading ]

unfoldable pub skip_all : CounterStreamWalker → CounterStreamWalker
skip_all w = record w { count = 0 }
