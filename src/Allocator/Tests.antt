-- ===== src/Allocator/Tests.antt =====
-- A stream whose node has three outputs.
use coretools.Prelude.{ℕ, ◌≡◌, refl, none, false, [], ◌∷◌, arith}
use coretools.Errors.{Result, ok}
use coretools.Stream
use coretools.Stream.{DataStream}
use coretools.Samples.{log}
use coretools.SensorLog.Assoc.{lookup}
use coretools.Graph.{SensorGraph}
use coretools.Graph as SensorGraphs
use coretools.Allocator.{StreamAllocator, init, allocate, attach_stream}
use coretools.Allocator.Fresh.{init-IsManaged}
use coretools.Allocator.Repeated.{attach_times, Outcome, attach_stream-Outcome}
use coretools.SensorLog.Assoc.{insert}

abbrev add_node : SensorGraph → DataStream → DataStream → Result (Unit {0}) × SensorGraph
add_node g c d = (ok tt, g)

abbrev graph : SensorGraph
graph = SensorGraphs.init log none

abbrev unbuffered : ℕ → DataStream
unbuffered id = record { stream_type = 1; stream_id = id; system = false }

-- The allocator with one stream.
abbrev allocator : StreamAllocator
allocator = record {
  allocated_streams =
      (unbuffered 1024, record { stream = unbuffered 1024; count = 0; previous = none }) ∷ [];
  next_id = (1, 1025) ∷ [];
}

allocated : allocate init 1 none none ≡ ok (unbuffered 1024, allocator)
unfolding allocate init lookup SensorGraphs.lookup_by insert SensorGraphs.insert_by
allocated = refl

-- The third and the fifth input are attached to copies.
five_inputs :
    attach_times add_node 3 5 allocator graph (unbuffered 1024) []
    ≡ ok (
        unbuffered 1026
        ∷ unbuffered 1025
        ∷ unbuffered 1025
        ∷ unbuffered 1025
        ∷ unbuffered 1024
        ∷ unbuffered 1024
        ∷ unbuffered 1024
        ∷ [])
unfolding attach_times attach_stream allocate lookup SensorGraphs.lookup_by insert
    SensorGraphs.insert_by Stream.eq
five_inputs = refl

attach_stream-Outcome_example :
    (stream : DataStream) × (a' : StreamAllocator) × (allocate init 1 none none ≡ ok (stream, a'))
    × Outcome 3 1 (attach_times add_node 3 5 a' graph stream [])
attach_stream-Outcome_example =
    attach_stream-Outcome add_node (λ h c d. refl) 3 (omega arith) 5 init graph 1 init-IsManaged
      (omega arith)
