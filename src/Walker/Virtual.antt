-- ===== src/Walker/Virtual.antt =====
-- `VirtualStreamWalker` of iotilesensorgraph/iotile/sg/walker.py: at most one reading, which a
-- constant stream keeps when it is popped.
use coretools.Prelude.{ℕ, Bool, not, ◌==◌, if◌then◌else◌, Option, none, some, List, [], ◌∷◌}
use coretools.Errors.{Error, Result, ok, err}
use coretools.Stream.{DataStream, constant_type}
use coretools.Selector
use coretools.Selector.{DataStreamSelector}
use coretools.Reading.{IoTileReading}

pub record VirtualStreamWalker : Type 0 where
  pub selector : DataStreamSelector
  pub reading : Option IoTileReading

unfoldable pub init : DataStreamSelector → Result VirtualStreamWalker
init selector = elim selector.match_id [
  | none ↦ err Error.argument_error
  | some _ ↦ ok (record { selector = selector; reading = none })
]

unfoldable pub matches : VirtualStreamWalker → DataStream → Bool
matches w stream = Selector.matches w.selector stream

unfoldable pub push : VirtualStreamWalker → DataStream → IoTileReading → Result VirtualStreamWalker
push w stream value =
    if not (matches w stream)
    then err Error.argument_error
    else ok (record w { reading = some value })

-- `iter`, as the list of what it yields.
unfoldable pub iter : VirtualStreamWalker → List IoTileReading
iter w = elim w.reading [ none ↦ [] | some reading ↦ reading ∷ [] ]

unfoldable pub count : VirtualStreamWalker → ℕ
count w =
    if w.selector.match_type == constant_type
    then 0xFFFF_FFFF
    else elim w.reading [ none ↦ 0 | some _ ↦ 1 ]

unfoldable pub pop : VirtualStreamWalker → Result IoTileReading × VirtualStreamWalker
pop w = elim w.reading [
  | none ↦ (err Error.stream_empty_error, w)
  | some reading ↦ (
    ok reading,
    if not (w.selector.match_type == constant_type) then record w { reading = none } else w,
  )
]

unfoldable pub peek : VirtualStreamWalker → Result IoTileReading
peek w = elim w.reading [ none ↦ err Error.stream_empty_error | some reading ↦ ok reading ]

unfoldable pub skip_all : VirtualStreamWalker → VirtualStreamWalker
skip_all w = if w.selector.match_type == constant_type then w else record w { reading = none }
