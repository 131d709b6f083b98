-- ===== src/Allocator/Outputs.antt =====
-- No node gets more outputs than it may, however often inputs are attached to a stream.
use coretools.Prelude.{
  ℕ, ◌+◌, ◌≤◌, ◌<◌, ◌≡◌, ◌≢◌, ◌⊎◌, inl, inr, refl, true, false, ◌==◌, if◌then◌else◌, Bool-cases,
  none, some, List, [], ◌∷◌, ◌++◌, arith,
}
use coretools.Errors.{Error, Result, ok, err, Result-cases}
use coretools.Stream
use coretools.Stream.{DataStream, constant_type}
use coretools.Stream.Encoding.{eq_iff}
use coretools.SensorLog.Assoc.{lookup, insert, lookup-insert}
use coretools.Graph.{SensorGraph}
use coretools.Allocator.{StreamAllocator, Allocation, allocate, split, attach_stream, copy_constant}
use coretools.Allocator.Fresh.{IsManaged, insert-IsManaged, allocate-IsManaged}

-- How often a stream is in a list.
abbrev pub tally : DataStream → List DataStream → ℕ
tally t [] = 0
tally t (s ∷ l) = if Stream.eq s t then tally t l + 1 else tally t l

-- The streams that get an output when `t` is returned for `stream`: `t`, and the stream that is copied
-- to it where it is a new one.
abbrev pub attached : StreamAllocator → DataStream → DataStream → List DataStream
attached a stream t = elim (lookup stream a.allocated_streams) [
  | none ↦ t ∷ []
  | some entry ↦ if Stream.eq entry.stream t then t ∷ [] else t ∷ entry.stream ∷ []
]

-- The entry of `stream` counts the outputs of its current stream, which has a free one; no stream of
-- `outs`, the outputs so far, has more than it may.
pub record Fits (max : ℕ) (a : StreamAllocator) (stream : DataStream) (entry : Allocation)
    (outs : List DataStream) : Type 0 where
  pub known : lookup stream a.allocated_streams ≡ some entry
  pub counted : tally entry.stream outs ≡ entry.count
  pub free : entry.count < max
  pub bounded : (t : DataStream) → tally t outs ≤ max
  pub listed : (t : DataStream) → lookup t a.allocated_streams ≡ none → tally t outs ≡ 0
  pub current : lookup entry.stream a.allocated_streams ≢ none
  pub typed : entry.stream.stream_type ≤ 5
  pub managed : IsManaged a

-- Only the value of a constant stream can be refused.
copy_constant-err :
    (g : SensorGraph) (c d : DataStream) (x : Error)
    → copy_constant g c d ≡ err x
    → c.stream_type ≡ constant_type
unfolding copy_constant
copy_constant-err g c d x e = ground arith

module _ (add_node : SensorGraph → DataStream → DataStream → Result (Unit {0}) × SensorGraph)
    (max : ℕ) (a : StreamAllocator) (g : SensorGraph) (stream : DataStream) (entry : Allocation)
    (outs : List DataStream) where
  attach_free :
      lookup stream a.allocated_streams ≡ some entry
      → (entry.count + 1 == max) ≡ false
      → attach_stream add_node max a g stream ≡ (
        ok entry.stream,
        (
          record a {
            allocated_streams =
                insert stream (record entry { count = entry.count + 1 }) a.allocated_streams;
          },
          g,
        ),
      )
  unfolding attach_stream
  attach_free known free = ground (arith, known, free)

  attach_full :
      lookup stream a.allocated_streams ≡ some entry
      → (entry.count + 1 == max) ≡ true
      → attach_stream add_node max a g stream ≡ split add_node max a g stream entry.stream
  unfolding attach_stream
  attach_full known full = ground (arith, known, full)

  -- The free output is taken.
  free-Fits :
      Fits max a stream entry outs
      → (entry.count + 1 == max) ≡ false
      → Fits max
          (record a {
            allocated_streams =
                insert stream (record entry { count = entry.count + 1 }) a.allocated_streams;
          })
          stream
          (record entry { count = entry.count + 1 })
          (entry.stream ∷ outs)
  free-Fits f free =
      let e' : Allocation = record entry { count = entry.count + 1 } in
      record {
        known =
            ground
              (arith, lookup-insert stream stream e' a.allocated_streams, eq_iff stream stream);
        counted = ground (arith, eq_iff entry.stream entry.stream, f.counted);
        free = ground (arith, free, f.free);
        bounded = λ t. ground (arith, eq_iff entry.stream t, f.counted, f.free, f.bounded t);
        listed = λ t h. ground (
          arith,
          h,
          lookup-insert stream t e' a.allocated_streams,
          eq_iff entry.stream t,
          f.current,
          f.listed t,
        );
        current = λ h.
            ground (arith, h, f.current, lookup-insert stream entry.stream e' a.allocated_streams);
        typed = f.typed;
        managed = insert-IsManaged a stream e' f.managed (f.managed.below stream entry f.known);
      }

  -- A new stream is put in place, and the copy takes the last output.
  split-Fits :
      (n : DataStream) (b : StreamAllocator)
      → 2 ≤ max
      → Fits max a stream entry outs
      → (entry.count + 1 == max) ≡ true
      → n.stream_type ≡ entry.stream.stream_type
      → lookup n a.allocated_streams ≡ none
      → b.allocated_streams
        ≡ insert n
            (record { stream = n; count = 0; previous = some entry.stream })
            a.allocated_streams
      → IsManaged b
      → let e' : Allocation = record { stream = n; count = 1; previous = some entry.stream } in
        Fits max
          (record b { allocated_streams = insert stream e' b.allocated_streams })
          stream
          e'
          (n ∷ entry.stream ∷ outs)
  split-Fits n b two f full same_type new added m =
      let e' : Allocation = record { stream = n; count = 1; previous = some entry.stream } in
      let e0 : Allocation = record { stream = n; count = 0; previous = some entry.stream } in
      let apart : Stream.eq entry.stream n ≡ false =
        ground (arith, new, f.current, eq_iff entry.stream n) in
      let kept : lookup stream b.allocated_streams ≡ some entry = rw added (
        ground
          (arith, lookup-insert n stream e0 a.allocated_streams, new, f.known, eq_iff n stream)) in
      let unlisted : (t : DataStream)
          → lookup t b.allocated_streams
            ≡ (if Stream.eq n t then some e0 else lookup t a.allocated_streams) =
        λ t. rw added (lookup-insert n t e0 a.allocated_streams) in
      record {
        known =
            ground
              (arith, lookup-insert stream stream e' b.allocated_streams, eq_iff stream stream);
        counted = ground (arith, apart, eq_iff n n, f.listed n new);
        free = two;
        bounded = λ t. ground (
          arith,
          two,
          apart,
          eq_iff n t,
          eq_iff entry.stream t,
          f.listed n new,
          f.counted,
          full,
          f.bounded t,
        );
        listed = λ t h. ground (
          arith,
          h,
          lookup-insert stream t e' b.allocated_streams,
          unlisted t,
          eq_iff entry.stream t,
          f.current,
          f.listed t,
        );
        current = λ h.
            ground
              (arith, h, lookup-insert stream n e' b.allocated_streams, unlisted n, eq_iff n n);
        typed = rw same_type f.typed;
        managed = insert-IsManaged b stream e' m (m.below stream entry kept);
      }

  -- What `split` does where the node is added: it returns the new stream, or the value of a constant
  -- stream cannot be stored.
  split-outcome :
      (n : DataStream) (b : StreamAllocator)
      → ((h : SensorGraph) (c d : DataStream) → (add_node h c d).0 ≡ ok tt)
      → allocate a entry.stream.stream_type none (some entry.stream) ≡ ok (n, b)
      → let b' : StreamAllocator = record b {
        allocated_streams =
            insert stream
              (record { stream = n; count = 1; previous = some entry.stream })
              b.allocated_streams;
      } in
        ((g' : SensorGraph) × (split add_node max a g stream entry.stream ≡ (ok n, (b', g'))))
        ⊎ ((x : Error) × ((split add_node max a g stream entry.stream).0 ≡ err x)
            × (entry.stream.stream_type ≡ constant_type))
  unfolding split
  split-outcome n b added new =
      elim (Result-cases (copy_constant (add_node g entry.stream n).1 entry.stream n)) [
        | inl (g', k) ↦ inl (g', ground (arith, new, added g entry.stream n, k))
        | inr (x, k) ↦ inr (
          x,
          ground (arith, new, added g entry.stream n, k),
          copy_constant-err (add_node g entry.stream n).1 entry.stream n x k,
        )
      ]

  -- One call of `attach_stream`.
  pub attach-outcome :
      2 ≤ max
      → ((h : SensorGraph) (c d : DataStream) → (add_node h c d).0 ≡ ok tt)
      → Fits max a stream entry outs
      → ((t : DataStream) × (a' : StreamAllocator) × (g' : SensorGraph) × (entry' : Allocation)
          × (attach_stream add_node max a g stream ≡ (ok t, (a', g')))
          × Fits max a' stream entry' (attached a stream t ++ outs)
          × (entry'.stream.stream_type ≡ entry.stream.stream_type))
        ⊎ ((x : Error) × ((attach_stream add_node max a g stream).0 ≡ err x)
            × (entry.stream.stream_type ≡ constant_type))
  attach-outcome two added f = elim (Bool-cases (entry.count + 1 == max)) [
    | inr free ↦
        let outputs : attached a stream entry.stream ≡ entry.stream ∷ [] =
          ground (arith, f.known, eq_iff entry.stream entry.stream) in
        inl (
          entry.stream,
          record a {
            allocated_streams =
                insert stream (record entry { count = entry.count + 1 }) a.allocated_streams;
          },
          g,
          record entry { count = entry.count + 1 },
          attach_free f.known free,
          rw outputs (free-Fits f free),
          refl,
        )
    | inl full ↦
        let (n, b, new, same_type, unknown, entries, managed) =
          allocate-IsManaged a entry.stream.stream_type (some entry.stream) f.managed f.typed in
        let outputs : attached a stream n ≡ n ∷ entry.stream ∷ [] =
          ground (arith, f.known, f.current, unknown, eq_iff entry.stream n) in
        elim (split-outcome n b added new) [
          | inl (g', e) ↦ inl (
            n,
            record b {
              allocated_streams =
                  insert stream (record { stream = n; count = 1; previous = some entry.stream })
                    b.allocated_streams;
            },
            g',
            record { stream = n; count = 1; previous = some entry.stream },
            rw (attach_full f.known full) e,
            rw outputs (split-Fits n b two f full same_type unknown entries managed),
            same_type,
          )
          | inr (x, e, constant) ↦ inr (x, rw (attach_full f.known full) e, constant)
        ]
  ]
