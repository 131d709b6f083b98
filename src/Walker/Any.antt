-- ===== src/Walker/Any.antt =====
-- A walker of any class, as the nodes and streamers of a sensor graph hold it, with the dispatch of
-- its methods (iotilesensorgraph/iotile/sg/walker.py).
pub mod Queue
mod Tests
use coretools.Prelude.{ℕ, Bool, false, Option, none, some}
use coretools.Errors.{Error, Result, ok, err}
use coretools.Stream.{DataStream}
use coretools.Selector.{DataStreamSelector}
use coretools.Reading.{IoTileReading}
use coretools.Engine.{Engine}
use coretools.Walker.Buffered
use coretools.Walker.Buffered.{BufferedStreamWalker}
use coretools.Walker.Virtual
use coretools.Walker.Virtual.{VirtualStreamWalker}
use coretools.Walker.Counter
use coretools.Walker.Counter.{CounterStreamWalker}

-- `invalid` is `InvalidStreamWalker`, whose selector may be `None`.
pub data StreamWalker : Type 0 where
  buffered : BufferedStreamWalker → StreamWalker
  virtual : VirtualStreamWalker → StreamWalker
  counter : CounterStreamWalker → StreamWalker
  invalid : Option DataStreamSelector → StreamWalker

abbrev pub selector : StreamWalker → Option DataStreamSelector
selector (buffered w) = some w.selector
selector (virtual w) = some w.selector
selector (counter w) = some w.selector
selector (invalid s) = s

unfoldable pub matches : StreamWalker → DataStream → Bool
matches (buffered w) stream = Buffered.matches w stream
matches (virtual w) stream = Virtual.matches w stream
matches (counter w) stream = Counter.matches w stream
matches (invalid s) stream = false

unfoldable pub count : StreamWalker → ℕ
count (buffered w) = w.count
count (virtual w) = Virtual.count w
count (counter w) = w.count
count (invalid s) = 0

-- A reading that is `None`, which only a counter walker may return, makes its user raise
-- `AttributeError`.
abbrev pub present : Result (Option IoTileReading) → Result IoTileReading
present (ok (some r)) = ok r
present (ok none) = err Error.attribute_error
present (err x) = err x

unfoldable pub pop : Engine → StreamWalker → Result IoTileReading × StreamWalker
pop e (buffered w) = let (r, w') = Buffered.pop e w in (r, buffered w')
pop e (virtual w) = let (r, w') = Virtual.pop w in (r, virtual w')
pop e (counter w) = let (r, w') = Counter.pop w in (present r, counter w')
pop e (invalid s) = (err Error.stream_empty_error, invalid s)

unfoldable pub peek : Engine → StreamWalker → Result IoTileReading
peek e (buffered w) = Buffered.peek e w
peek e (virtual w) = Virtual.peek w
peek e (counter w) = Counter.peek w
peek e (invalid s) = err Error.stream_empty_error

unfoldable pub skip_all : Engine → StreamWalker → StreamWalker
skip_all e (buffered w) = buffered (Buffered.skip_all e w)
skip_all e (virtual w) = virtual (Virtual.skip_all w)
skip_all e (counter w) = counter (Counter.skip_all w)
skip_all e (invalid s) = invalid s
