-- ===== src/Samples.antt =====
-- Streams, readings, walkers and logs for the tests.
use coretools.Prelude.{refl, pos, true, false, none, some, [], ◌∷◌, arith}
use coretools.Stream
use coretools.Stream.{DataStream}
use coretools.Stream.Encoding.{IsPackable}
use coretools.Selector
use coretools.Selector.{DataStreamSelector, MatchSpec}
use coretools.Reading.{IoTileReading}
use coretools.Engine.{Engine, Area}
use coretools.Walker.Buffered.{BufferedStreamWalker}
use coretools.Walker.Buffered.Queue.{InSync}
use coretools.Walker.Virtual.{VirtualStreamWalker}
use coretools.Walker.Counter.{CounterStreamWalker}
use coretools.SensorLog.{SensorLog}

-- `buffered 1`, and its selector.
abbrev pub buffered_one : DataStream
buffered_one = record { stream_type = 0; stream_id = 1; system = false }

abbrev pub select_one : DataStreamSelector
select_one = record { match_type = 0; match_id = some 1; match_spec = MatchSpec.user_only }

-- `all buffered`.
abbrev pub select_all : DataStreamSelector
select_all = record { match_type = 0; match_id = none; match_spec = MatchSpec.combined }

-- `constant 1`, `counter 1` and `unbuffered 1`.
abbrev pub select_constant : DataStreamSelector
select_constant = record { match_type = 2; match_id = some 1; match_spec = MatchSpec.user_only }

abbrev pub select_counter : DataStreamSelector
select_counter = record { match_type = 4; match_id = some 1; match_spec = MatchSpec.user_only }

abbrev pub r1 : IoTileReading
r1 = record { raw_time = 1; stream = 1; value = pos 10; reading_id = 1 }

abbrev pub r2 : IoTileReading
r2 = record { raw_time = 2; stream = 2; value = pos 20; reading_id = 2 }

abbrev pub r3 : IoTileReading
r3 = record { raw_time = 3; stream = 1; value = pos 30; reading_id = 3 }

-- Room for one more reading in the storage area.
abbrev pub engine : Engine
engine = record {
  storage_length = 4;
  streaming_length = 2;
  storage_data = r1 ∷ r2 ∷ r3 ∷ [];
  streaming_data = [];
}

-- A full storage area.
abbrev pub full_engine : Engine
full_engine = record engine { storage_length = 3 }

-- A walker of `buffered 1` before the first reading, and one that has read them all.
abbrev pub walker : BufferedStreamWalker
walker = record { selector = select_one; count = 2; offset = pos 0; storage_type = Area.storage }

abbrev pub read_walker : BufferedStreamWalker
read_walker = record walker { count = 0; offset = pos 3 }

unfoldable pub walker-InSync : InSync engine walker (r1 ∷ r3 ∷ [])
unfolding Selector.output Selector.buffered Selector.matches Stream.from_encoded
walker-InSync = record {
  at = 0;
  offset = refl;
  area = refl;
  stored = refl;
  within = omega arith;
  pending = refl;
  counted = refl;
}

unfoldable pub read_walker-InSync : InSync engine read_walker []
unfolding Selector.output Selector.buffered Selector.matches Stream.from_encoded
read_walker-InSync = record {
  at = 3;
  offset = refl;
  area = refl;
  stored = refl;
  within = omega arith;
  pending = refl;
  counted = refl;
}

pub buffered_one-IsPackable : IsPackable buffered_one
buffered_one-IsPackable = record { type_fits = omega arith; id_fits = omega arith }

abbrev pub counter_walker : CounterStreamWalker
counter_walker = record { selector = select_counter; reading = some r2; count = 2 }

abbrev pub constant_walker : VirtualStreamWalker
constant_walker = record { selector = select_constant; reading = some r1 }

-- A log whose id assigner numbers the readings, with the walker.
abbrev pub log : SensorLog
log = record {
  engine = engine;
  erase_size = 2;
  rollover_streaming = true;
  rollover_storage = true;
  queue_walkers = (0, walker) ∷ [];
  virtual_walkers = [];
  last_values = [];
  next_walker = 1;
  assigner = some (λ n s r. n);
  assigned = 4;
  monitors = [];
  calls = [];
}

-- A log with a full area and no walker.
abbrev pub full_log : SensorLog
full_log = record log { engine = full_engine; queue_walkers = [] }
