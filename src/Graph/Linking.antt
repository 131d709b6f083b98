-- ===== src/Graph/Linking.antt =====
-- The streamers that `add_streamer` links to the sensor log.
use coretools.Prelude.{
  ℕ, ◌+◌, ◌⊎◌, ◌≡◌, ◌≢◌, refl, Bool, true, ◌==◌, ==_refl, none, some, List, [], ◌∷◌, ◌++◌,
  Bool-cases, Option-cases, inl, inr, length, arith,
}
use coretools.Errors.{ok, Result-cases}
use coretools.Selector
use coretools.Selector.{DataStreamSelector}
use coretools.Walker.Buffered
use coretools.Walker.Buffered.{BufferedStreamWalker}
use coretools.Walker.Counter
use coretools.Walker.Virtual
use coretools.Stream.{counter_type}
use coretools.SensorLog.{SensorLog, MemoryWalker, create_walker}
use coretools.SensorLog.Walkers.{find, walker_at}
use coretools.Streamer.{DataStreamer, link, link_to_storage}
use coretools.Graph.{SensorGraph, add_streamer}
use coretools.Graph.Streamers.{walker_of}
use coretools.Graph.Checking.{AreAlone}

module _ {A : Type 0} where
  find-append : (i : ℕ) (l m : List (ℕ × A)) → find i l ≢ none → find i (l ++ m) ≢ none
  unfolding find
  find-append i [] m h = absurd (h refl)
  find-append i ((j, w) ∷ l) m h = ground (arith, h, find-append i l m)

  find-last : (i : ℕ) (w : A) (l : List (ℕ × A)) → find i (l ++ ((i, w) ∷ [])) ≢ none
  unfolding find
  find-last i w [] = ground (arith, ==_refl i)
  find-last i w ((j, v) ∷ l) = ground (arith, find-last i w l)

-- The log with one more walker on the queue, or with one more that holds its reading.
abbrev with_queue : SensorLog → BufferedStreamWalker → SensorLog
with_queue log w = record log {
  queue_walkers = log.queue_walkers ++ ((log.next_walker, w) ∷ []);
  next_walker = log.next_walker + 1;
}

abbrev with_memory : SensorLog → MemoryWalker → SensorLog
with_memory log w = record log {
  virtual_walkers = log.virtual_walkers ++ ((log.next_walker, w) ∷ []);
  next_walker = log.next_walker + 1;
}

-- The walker `i` is there, and those that were there still are.
abbrev Finds : SensorLog → SensorLog → ℕ → Type 0
Finds log log' i =
    (walker_at log' i ≢ none) × ((j : ℕ) → walker_at log j ≢ none → walker_at log' j ≢ none)

with_queue-Finds :
    (log : SensorLog) (w : BufferedStreamWalker) → Finds log (with_queue log w) log.next_walker
unfolding walker_at
with_queue-Finds log w = (
  λ e. ground (arith, e, find-last log.next_walker w log.queue_walkers),
  λ j h e. ground (arith, h, e, find-append j log.queue_walkers ((log.next_walker, w) ∷ [])),
)

with_memory-Finds :
    (log : SensorLog) (w : MemoryWalker) → Finds log (with_memory log w) log.next_walker
unfolding walker_at
with_memory-Finds log w = (
  λ e. ground (arith, e, find-last log.next_walker w log.virtual_walkers),
  λ j h e. ground (arith, h, e, find-append j log.virtual_walkers ((log.next_walker, w) ∷ [])),
)

create_walker-cases :
    (log log' : SensorLog) (selector : DataStreamSelector) (skip : Bool) (i : ℕ)
    → create_walker log selector skip ≡ ok (i, log')
    → (i ≡ log.next_walker)
      × (((w : BufferedStreamWalker) × (log' ≡ with_queue log w))
          ⊎ ((w : MemoryWalker) × (log' ≡ with_memory log w)))
unfolding create_walker
create_walker-cases log log' selector skip i e = elim (Bool-cases (Selector.buffered selector)) [
  | inl b ↦ elim (Result-cases (Buffered.init selector log.engine skip)) [
    | inr (x, k) ↦ absurd (ground (arith, b, k, e))
    | inl (w, k) ↦ (ground (arith, b, k, e), inl (w, ground (arith, b, k, e)))
  ]
  | inr b ↦ elim (Bool-cases (selector.match_type == counter_type)) [
    | inl c ↦ elim (Result-cases (Counter.init selector)) [
      | inr (x, k) ↦ absurd (ground (arith, b, c, k, e))
      | inl (w, k) ↦
          (ground (arith, b, c, k, e), inr (MemoryWalker.counter w, ground (arith, b, c, k, e)))
    ]
    | inr c ↦ elim (Result-cases (Virtual.init selector)) [
      | inr (x, k) ↦ absurd (ground (arith, b, c, k, e))
      | inl (w, k) ↦
          (ground (arith, b, c, k, e), inr (MemoryWalker.virtual w, ground (arith, b, c, k, e)))
    ]
  ]
]

-- A new walker is found under its number, and the others are still there.
create_walker-Finds :
    (log log' : SensorLog) (selector : DataStreamSelector) (skip : Bool) (i : ℕ)
    → create_walker log selector skip ≡ ok (i, log')
    → Finds log log' i
create_walker-Finds log log' selector skip i e =
    let (number, cases) = create_walker-cases log log' selector skip i e in
    elim cases [
      | inl (w, shape) ↦ rw (shape, number) (with_queue-Finds log w)
      | inr (w, shape) ↦ rw (shape, number) (with_memory-Finds log w)
    ]

walker_of-Finds :
    (log log' : SensorLog) (i : ℕ) (s : DataStreamer)
    → Finds log log' i
    → walker_of log s ≢ none
    → walker_of log' s ≢ none
walker_of-Finds log log' i s (_, kept) known e = elim (Option-cases s.walker) [
  | inl unlinked ↦ ground (arith, unlinked, known)
  | inr (j, linked) ↦
      kept j (λ missing. ground (arith, linked, missing, known)) (ground (arith, linked, e))
]

AreAlone-Finds :
    (log log' : SensorLog) (i : ℕ) (l : List DataStreamer)
    → Finds log log' i
    → AreAlone log l
    → AreAlone log' l
AreAlone-Finds log log' i [] f h = tt
AreAlone-Finds log log' i (s ∷ l) f (known, own, h) =
    (walker_of-Finds log log' i s f known, own, AreAlone-Finds log log' i l f h)

AreAlone-append :
    (log : SensorLog) (l : List DataStreamer) (s : DataStreamer)
    → AreAlone log l
    → walker_of log s ≢ none
    → s.with_other ≡ none
    → AreAlone log (l ++ (s ∷ []))
AreAlone-append log [] s h known own = (known, own, tt)
AreAlone-append log (t ∷ l) s (k, o, h) known own = (k, o, AreAlone-append log l s h known own)

-- The graph that a streamer without a walker has joined.
abbrev joined : SensorGraph → SensorLog → DataStreamer → ℕ → SensorGraph
joined g log s i = record g {
  sensor_log = log;
  streamers = g.streamers ++ (record s { walker = some i; index = some (length g.streamers) } ∷ []);
}

add_streamer-joined :
    (g g' : SensorGraph) (s : DataStreamer) (i : ℕ) (log : SensorLog)
    → s.walker ≡ none
    → create_walker g.sensor_log s.selector true ≡ ok (i, log)
    → add_streamer g s ≡ (ok tt, g')
    → g' ≡ joined g log s i
unfolding add_streamer link_to_storage link
add_streamer-joined g g' s i log unlinked made e = ground (arith, unlinked, made, e)

-- A streamer that has no walker yet and is not triggered with another joins a graph whose streamers all
-- have walkers and are not triggered with others. Where `add_streamer` returns, the streamer is the
-- last one, with a new walker and its place as its index, and the new graph is such a graph too.
pub add_streamer-AreAlone :
    (g g' : SensorGraph) (s : DataStreamer)
    → s.walker ≡ none
    → s.with_other ≡ none
    → AreAlone g.sensor_log g.streamers
    → add_streamer g s ≡ (ok tt, g')
    → (g'.streamers
        ≡ g.streamers
          ++ ((record s {
            walker = some g.sensor_log.next_walker;
            index = some (length g.streamers);
          })
              ∷ []))
      × AreAlone g'.sensor_log g'.streamers
unfolding add_streamer link_to_storage link
add_streamer-AreAlone g g' s unlinked own h e =
    elim (Result-cases (create_walker g.sensor_log s.selector true)) [
      | inr (x, failed) ↦ absurd (ground (arith, unlinked, failed, e))
      | inl ((i, log), made) ↦
          let found = create_walker-Finds g.sensor_log log s.selector true i made in
          let (number, _) = create_walker-cases g.sensor_log log s.selector true i made in
          let s' : DataStreamer = record s { walker = some i; index = some (length g.streamers) } in
          rw (add_streamer-joined g g' s i log unlinked made e) (
            rw number refl,
            AreAlone-append log g.streamers s'
                (AreAlone-Finds g.sensor_log log i g.streamers found h) (found.0) own,
          )
    ]
