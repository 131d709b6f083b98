-- ===== src/Allocator.antt =====
-- `StreamAllocator` of iotilesensorgraph/iotile/sg/parser/stream_allocator.py. It hands out streams
-- with ids of its own, and splits a stream whose node has no free output left. `add_node`, which adds
-- the node that copies a stream to a new one, is given.
pub mod Fresh
pub mod Outputs
pub mod Repeated
mod Tests
use coretools.Prelude.{
  ℕ, ◌+◌, ◌-◌, ℤ, Bool, true, false, not, ◌&&◌, ◌==◌, leb, if◌then◌else◌, Option, none, some, List,
  [], ◌∷◌,
}
use coretools.Errors.{Error, Result, ok, err}
use coretools.Stream.{DataStream, constant_type}
use coretools.SensorLog.Assoc.{lookup, insert}
use coretools.Graph.{SensorGraph, lookup_by, insert_by, add_constant}

-- An entry of `_allocated_streams`: the stream to attach to, the number of inputs on it, and the stream
-- it is a copy of.
pub record Allocation : Type 0 where
  pub stream : DataStream
  pub count : ℕ
  pub previous : Option DataStream

pub record StreamAllocator : Type 0 where
  pub allocated_streams : List (DataStream × Allocation)
  pub next_id : List (ℕ × ℕ)

unfoldable pub init : StreamAllocator
init = record { allocated_streams = []; next_id = [] }

abbrev pub starting_id : ℕ
starting_id = 0x400

abbrev pub id_or_start : Option ℕ → ℕ
id_or_start none = starting_id
id_or_start (some id) = id

-- The id that the next stream of the type gets.
unfoldable pub next_of : StreamAllocator → ℕ → ℕ
next_of a stream_type = id_or_start (lookup_by ◌==◌ stream_type a.next_id)

-- The entry for a stream that has none yet.
unfoldable pub register :
    StreamAllocator → DataStream → Option DataStream → DataStream × StreamAllocator
register a stream previous = elim (lookup stream a.allocated_streams) [
  | some _ ↦ (stream, a)
  | none ↦ (
    stream,
    record a {
      allocated_streams =
          insert stream (record { stream = stream; count = 0; previous = previous })
            a.allocated_streams;
    },
  )
]

-- `allocate_stream` without its `attach` flag; the known types are 0 to 5.
unfoldable pub allocate :
    StreamAllocator → ℕ → Option ℕ → Option DataStream → Result (DataStream × StreamAllocator)
unfolding register next_of
allocate a stream_type (some id) previous =
    if not (leb stream_type 5)
    then err Error.argument_error
    else if leb starting_id id
    then err Error.argument_error
    else ok
        (register a (record { stream_type = stream_type; stream_id = id; system = false }) previous)
allocate a stream_type none previous =
    let id = next_of a stream_type in
    let a' = record a { next_id = insert_by ◌==◌ stream_type (id + 1) a.next_id } in
    if not (leb stream_type 5)
    then err Error.argument_error
    else ok (
        register a' (record { stream_type = stream_type; stream_id = id; system = false }) previous)

-- The value of a constant stream is that of its copy too.
unfoldable pub copy_constant : SensorGraph → DataStream → DataStream → Result SensorGraph
copy_constant g curr new_stream =
    if curr.stream_type == constant_type
    then (elim (lookup curr g.constant_database) [
      | none ↦ ok g
      | some value ↦ add_constant g new_stream value
    ])
    else ok g

module _ (add_node : SensorGraph → DataStream → DataStream → Result (Unit {0}) × SensorGraph)
    (max_node_outputs : ℕ) where
  -- The branch of `attach_stream` for the stream `curr` that has one free output.
  unfoldable pub split :
      StreamAllocator
      → SensorGraph
      → DataStream
      → DataStream
      → Result DataStream × (StreamAllocator × SensorGraph)
  unfolding copy_constant
  split a g stream curr = elim (allocate a curr.stream_type none (some curr)) [
    | err x ↦ (err x, (a, g))
    | ok (new_stream, a') ↦
        let (added, g') = add_node g curr new_stream in
        elim added [
          | err x ↦ (err x, (a', g'))
          | ok _ ↦
              let a'' = record a' {
                allocated_streams =
                    insert stream (record { stream = new_stream; count = 1; previous = some curr })
                      a'.allocated_streams;
              } in
              elim (copy_constant g' curr new_stream) [
                | err x ↦ (err x, (a'', g'))
                | ok g'' ↦ (ok new_stream, (a'', g''))
              ]
        ]
  ]

  unfoldable pub attach_stream :
      StreamAllocator
      → SensorGraph
      → DataStream
      → Result DataStream × (StreamAllocator × SensorGraph)
  unfolding split
  attach_stream a g stream = elim (lookup stream a.allocated_streams) [
    | none ↦ (err Error.key_error, (a, g))
    | some entry ↦ if entry.count + 1 == max_node_outputs then split a g stream entry.stream else (
      ok entry.stream,
      (
        record a {
          allocated_streams =
              insert stream (record entry { count = entry.count + 1 }) a.allocated_streams;
        },
        g,
      ),
    )
  ]

  unfoldable pub allocate_stream :
      StreamAllocator
      → SensorGraph
      → ℕ
      → Option ℕ
      → Option DataStream
      → Bool
      → Result DataStream × (StreamAllocator × SensorGraph)
  allocate_stream a g stream_type stream_id previous attach =
      elim (allocate a stream_type stream_id previous) [
        | err x ↦ (err x, (a, g))
        | ok (stream, a') ↦ if attach then attach_stream a' g stream else (ok stream, (a', g))
      ]
