-- ===== src/Allocator/Repeated.antt =====
-- Inputs attached to a stream one after the other.
use coretools.Prelude.{
  ℕ, zero, suc, ◌≤◌, ◌≡◌, inl, inr, refl, none, some, List, [], ◌++◌, arith, sym,
}
use coretools.Errors.{Error, Result, ok, err}
use coretools.Stream.{DataStream, constant_type}
use coretools.Stream.Encoding.{eq_iff}
use coretools.SensorLog.Assoc.{lookup, insert, lookup-insert}
use coretools.Graph.{SensorGraph}
use coretools.Allocator.{StreamAllocator, Allocation, allocate, attach_stream}
use coretools.Allocator.Fresh.{IsManaged, allocate-IsManaged}
use coretools.Allocator.Outputs.{tally, attached, Fits, attach-outcome}

-- The outputs, latest first, that `n` more calls of `attach_stream` for a stream add to those so far.
unfoldable pub attach_times :
    (SensorGraph → DataStream → DataStream → Result (Unit {0}) × SensorGraph)
    → ℕ
    → ℕ
    → StreamAllocator
    → SensorGraph
    → DataStream
    → List DataStream
    → Result (List DataStream)
attach_times add_node max zero a g stream outs = ok outs
attach_times add_node max (suc n) a g stream outs =
    let (t, (a', g')) = attach_stream add_node max a g stream in
    elim t [
      | err x ↦ err x
      | ok t ↦ attach_times add_node max n a' g' stream (attached a stream t ++ outs)
    ]

-- No stream has more than `max` outputs; a constant stream may be refused.
abbrev pub Outcome : ℕ → ℕ → Result (List DataStream) → Type 0
Outcome max stream_type (ok outs) = (t : DataStream) → tally t outs ≤ max
Outcome max stream_type (err x) = stream_type ≡ constant_type

module _ (add_node : SensorGraph → DataStream → DataStream → Result (Unit {0}) × SensorGraph)
    (added : (h : SensorGraph) (c d : DataStream) → (add_node h c d).0 ≡ ok tt) (max : ℕ)
    (two : 2 ≤ max) where
  attach_times-err :
      (n : ℕ) (a : StreamAllocator) (g : SensorGraph) (stream : DataStream) (outs : List DataStream)
      (x : Error)
      → (attach_stream add_node max a g stream).0 ≡ err x
      → attach_times add_node max (suc n) a g stream outs ≡ err x
  unfolding attach_times
  attach_times-err n a g stream outs x e = ground (arith, e)

  attach_times-ok :
      (n : ℕ) (a a' : StreamAllocator) (g g' : SensorGraph) (stream t : DataStream)
      (outs : List DataStream)
      → attach_stream add_node max a g stream ≡ (ok t, (a', g'))
      → attach_times add_node max (suc n) a g stream outs
        ≡ attach_times add_node max n a' g' stream (attached a stream t ++ outs)
  unfolding attach_times
  attach_times-ok n a a' g g' stream t outs e = ground (arith, e)

  attach_times-Outcome :
      (n : ℕ) (a : StreamAllocator) (g : SensorGraph) (stream : DataStream) (entry : Allocation)
      (outs : List DataStream)
      → Fits max a stream entry outs
      → Outcome max entry.stream.stream_type (attach_times add_node max n a g stream outs)
  unfolding attach_times
  attach_times-Outcome zero a g stream entry outs f = f.bounded
  attach_times-Outcome (suc n) a g stream entry outs f =
      elim (attach-outcome add_node max a g stream entry outs two added f) [
        | inr (x, e, constant) ↦ rw (attach_times-err n a g stream outs x e) constant
        | inl (t, a', g', entry', e, f', same_type) ↦
            rw (attach_times-ok n a a' g g' stream t outs e, sym same_type)
              (attach_times-Outcome n a' g' stream entry' (attached a stream t ++ outs) f')
      ]

  fresh-Fits :
      (a : StreamAllocator) (stream : DataStream) (entries : List (DataStream × Allocation))
      → IsManaged a
      → stream.stream_type ≤ 5
      → a.allocated_streams
        ≡ insert stream (record { stream = stream; count = 0; previous = none }) entries
      → Fits max a stream (record { stream = stream; count = 0; previous = none }) []
  fresh-Fits a stream entries m known added_entry =
      let e0 : Allocation = record { stream = stream; count = 0; previous = none } in
      let listed : lookup stream a.allocated_streams ≡ some e0 =
        rw added_entry
          (ground (arith, lookup-insert stream stream e0 entries, eq_iff stream stream)) in
      record {
        known = listed;
        counted = refl;
        free = omega (arith, two);
        bounded = λ t. omega arith;
        listed = λ t h. refl;
        current = λ h. ground (arith, listed, h);
        typed = known;
        managed = m;
      }

  -- Where the ids of the allocator lie below the next ones, a stream of a known type is allocated without
  -- an id and inputs are attached to it, any number of times; nodes may have a maximum of two outputs or
  -- more and are added without an exception. Then the allocation returns, every call returns unless the
  -- stream is a constant one, and no stream gets more outputs than that, its copies included.
  pub attach_stream-Outcome :
      (n : ℕ) (a : StreamAllocator) (g : SensorGraph) (stream_type : ℕ)
      → IsManaged a
      → stream_type ≤ 5
      → (stream : DataStream) × (a' : StreamAllocator) × (allocate a stream_type none none
          ≡ ok (stream, a'))
        × Outcome max stream_type (attach_times add_node max n a' g stream [])
  attach_stream-Outcome n a g stream_type m known =
      let (stream, a', e, same_type, _, entries, m') =
        allocate-IsManaged a stream_type none m known in
      let e0 : Allocation = record { stream = stream; count = 0; previous = none } in
      let f = fresh-Fits a' stream a.allocated_streams m' (rw same_type known) entries in
      (stream, a', e, rw (sym same_type) (attach_times-Outcome n a' g stream e0 [] f))
