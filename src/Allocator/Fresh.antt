-- ===== src/Allocator/Fresh.antt =====
-- The streams that get their ids from the allocator are new.
use coretools.Prelude.{
  ℕ, ◌+◌, ◌≤◌, ◌<◌, ◌≡◌, refl, false, ◌==◌, if◌then◌else◌, Option, none, some, inl, inr,
  Option-cases, arith,
}
use coretools.Errors.{ok}
use coretools.Stream.{DataStream}
use coretools.Stream.Encoding.{eq_iff}
use coretools.SensorLog.Assoc.{lookup, insert, lookup-insert}
use coretools.Graph.{lookup_by, insert_by}
use coretools.Graph.Databases.{lookup_by-insert_by, numbers-Tells}
use coretools.Allocator.{
  StreamAllocator, Allocation, init, starting_id, next_of, register, allocate,
}

-- The ids of a type's streams lie below the next one, which is no less than the first.
pub record IsManaged (a : StreamAllocator) : Type 0 where
  pub starts : (t : ℕ) → starting_id ≤ next_of a t
  pub below :
      (s : DataStream) (e : Allocation)
      → lookup s a.allocated_streams ≡ some e
      → s.stream_id < next_of a s.stream_type

next_of-init : (t : ℕ) → next_of init t ≡ starting_id
unfolding next_of init lookup_by
next_of-init t = refl

pub init-IsManaged : IsManaged init
unfolding init lookup
init-IsManaged = record { starts = λ t. omega (arith, next_of-init t); below = λ s e h. absurd cc }

-- The allocator after an id of the type has been taken.
abbrev bumped : StreamAllocator → ℕ → StreamAllocator
bumped a t = record a { next_id = insert_by ◌==◌ t (next_of a t + 1) a.next_id }

next_of-bumped :
    (a : StreamAllocator) (t u : ℕ)
    → next_of (bumped a t) u ≡ (if t == u then next_of a t + 1 else next_of a u)
unfolding next_of
next_of-bumped a t u =
    ground (arith, lookup_by-insert_by ◌==◌ numbers-Tells t u (next_of a t + 1) a.next_id)

-- The stream that is handed out.
abbrev pub next_stream : StreamAllocator → ℕ → DataStream
next_stream a t = record { stream_type = t; stream_id = next_of a t; system = false }

next_stream-unknown :
    (a : StreamAllocator) (t : ℕ)
    → IsManaged a
    → lookup (next_stream a t) a.allocated_streams ≡ none
next_stream-unknown a t m = elim (Option-cases (lookup (next_stream a t) a.allocated_streams)) [
  | inl e ↦ e
  | inr (v, e) ↦ absurd (omega (arith, m.below (next_stream a t) v e))
]

bumped-IsManaged : (a : StreamAllocator) (t : ℕ) → IsManaged a → IsManaged (bumped a t)
bumped-IsManaged a t m = record {
  starts = λ u. ground (arith, next_of-bumped a t u, m.starts u, m.starts t);
  below = λ s e h. ground (arith, next_of-bumped a t s.stream_type, m.below s e h);
}

-- An entry for a stream whose id is taken keeps the ids below the next one.
pub insert-IsManaged :
    (a : StreamAllocator) (s : DataStream) (e : Allocation)
    → IsManaged a
    → s.stream_id < next_of a s.stream_type
    → IsManaged (record a { allocated_streams = insert s e a.allocated_streams })
unfolding next_of
insert-IsManaged a s e m h = record {
  starts = λ u. m.starts u;
  below = λ r v known.
      ground (arith, lookup-insert s r e a.allocated_streams, known, eq_iff s r, m.below r v, h);
}

-- Where the ids of an allocator lie below the next ones, a stream of a known type is allocated without
-- an id: it is of that type and had no entry, it has one now that counts no input, and the ids lie
-- below the next ones again.
pub allocate-IsManaged :
    (a : StreamAllocator) (t : ℕ) (previous : Option DataStream)
    → IsManaged a
    → t ≤ 5
    → (s : DataStream) × (a' : StreamAllocator) × (allocate a t none previous ≡ ok (s, a'))
      × (s.stream_type ≡ t)
      × (lookup s a.allocated_streams ≡ none)
      × (a'.allocated_streams
          ≡ insert s (record { stream = s; count = 0; previous = previous }) a.allocated_streams)
      × IsManaged a'
unfolding allocate register
allocate-IsManaged a t previous m known =
    let s = next_stream a t in
    let new_entry : Allocation = record { stream = s; count = 0; previous = previous } in
    let unknown = next_stream-unknown a t m in
    (
      s,
      record (bumped a t) { allocated_streams = insert s new_entry a.allocated_streams },
      ground (arith, unknown),
      refl,
      unknown,
      refl,
      insert-IsManaged (bumped a t) s new_entry (bumped-IsManaged a t m)
          (ground (arith, next_of-bumped a t t)),
    )
