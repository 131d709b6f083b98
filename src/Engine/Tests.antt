-- ===== src/Engine/Tests.antt =====
-- The engine on concrete readings.
use coretools.Prelude.{◌≤◌, ◌≡◌, refl, true, length, arith}
use coretools.Selector
use coretools.Selector.{DataStreamSelector, MatchSpec}
use coretools.Engine
use coretools.Engine.{Engine, Area, chosen_buffer}
use coretools.Engine.Buffers.{buffer_of, IsBounded}
use coretools.Samples.{select_one, engine}
use coretools.Engine.{with_buffer}

engine-IsBounded : IsBounded engine
engine-IsBounded = record { storage_fits = omega arith; streaming_fits = omega arith }

init_storage : (Engine.init 4 2).storage_length ≡ 4
unfolding Engine.init
init_storage = refl

init_streaming : (Engine.init 4 2).streaming_length ≡ 2
unfolding Engine.init
init_streaming = refl

select_one-buffered : Selector.buffered select_one ≡ true
unfolding Selector.buffered
select_one-buffered = refl

three_stored : 1 ≤ length (buffer_of engine select_one)
unfolding Selector.output
three_stored = omega arith
