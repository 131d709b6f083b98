-- ===== src/Walker/Buffered/Queue.antt =====
-- A buffered walker as a queue: the readings from its offset on that its selector matches.
use coretools.Prelude.{
  ℕ, zero, suc, ◌-◌, ◌<◌, ◌≤◌, ◌≡◌, refl, ap, ◌∙◌, pos, ◌+ℤ◌, true, false, Bool-cases, length,
  arith, inl, inr, List, [], ◌∷◌, drop, filter_by, pos_+ℤ_one, ◌==◌, length-drop,
}
use coretools.Errors.{Error, Result, ok, err}
use coretools.Selector
use coretools.Selector.{DataStreamSelector}
use coretools.Reading.{IoTileReading}
use coretools.Engine
use coretools.Engine.{Engine, Area, chosen_buffer, with_buffer, range_size, count_matching}
use coretools.Engine.Buffers.{area_of, reads, buffer_of, get_in_range}
use coretools.Walker.Buffered.{
  BufferedStreamWalker, matches, pop_loop, pop, peek_loop, peek, rounds_from,
}

-- The walker stands at an offset of its area, which holds the readings `q` for it from there on, and
-- its count is the number of these.
pub record InSync (e : Engine) (w : BufferedStreamWalker) (q : List IoTileReading) : Type 0 where
  pub at : ℕ
  pub offset : w.offset ≡ pos at
  pub area : w.storage_type ≡ area_of (Selector.output w.selector)
  pub stored : Selector.buffered w.selector ≡ true
  pub within : at ≤ length (buffer_of e w.selector)
  pub pending : filter_by (reads w.selector) (drop at (buffer_of e w.selector)) ≡ q
  pub counted : w.count ≡ length q

-- What `pop` does to a walker that is a queue: it fails on the empty queue and changes nothing, and
-- else it returns the first reading and leaves the others.
abbrev pub Popped :
    Engine
    → BufferedStreamWalker
    → List IoTileReading
    → Result IoTileReading × BufferedStreamWalker
    → Type 0
Popped e w [] out = out ≡ (err Error.stream_empty_error, w)
Popped e w (r ∷ q) out = (out.0 ≡ ok r) × InSync e out.1 q × (out.1.selector ≡ w.selector)

-- One round of the loop.
pop_loop_hit :
    (rounds : ℕ) (e : Engine) (w : BufferedStreamWalker) (x : IoTileReading)
    → Engine.get e w.storage_type w.offset ≡ ok x
    → reads w.selector x ≡ true
    → pop_loop (suc rounds) e w
      ≡ (ok x, record w { offset = w.offset +ℤ pos 1; count = w.count - 1 })
unfolding pop_loop matches
pop_loop_hit rounds e w x got hit = ground arith

pop_loop_miss :
    (rounds : ℕ) (e : Engine) (w : BufferedStreamWalker) (x : IoTileReading)
    → Engine.get e w.storage_type w.offset ≡ ok x
    → reads w.selector x ≡ false
    → pop_loop (suc rounds) e w ≡ pop_loop rounds e (record w { offset = w.offset +ℤ pos 1 })
unfolding pop_loop matches
pop_loop_miss rounds e w x got miss = ground arith

-- What the engine holds at the offset of a walker.
get_at :
    (e : Engine) (w : BufferedStreamWalker) (i : ℕ) (x : IoTileReading) (l : List IoTileReading)
    → w.offset ≡ pos i
    → w.storage_type ≡ area_of (Selector.output w.selector)
    → drop i (buffer_of e w.selector) ≡ x ∷ l
    → (i < length (buffer_of e w.selector))
      × (Engine.get e w.storage_type w.offset ≡ ok x)
      × (drop (suc i) (buffer_of e w.selector) ≡ l)
get_at e w i x l off area d =
    let lt : i < length (buffer_of e w.selector) =
      omega (arith, ap length d, length-drop i (buffer_of e w.selector)) in
    let (y, got, split) = get_in_range e (area_of (Selector.output w.selector)) i lt in
    (lt, rw (off, area) (cc (got, split, d)), cc (split, d))

pop_loop-Popped :
    (l : List IoTileReading) (e : Engine) (w : BufferedStreamWalker) (i rounds : ℕ)
    (r : IoTileReading) (q : List IoTileReading)
    → w.offset ≡ pos i
    → w.storage_type ≡ area_of (Selector.output w.selector)
    → Selector.buffered w.selector ≡ true
    → drop i (buffer_of e w.selector) ≡ l
    → length l < rounds
    → filter_by (reads w.selector) l ≡ r ∷ q
    → w.count ≡ suc (length q)
    → Popped e w (r ∷ q) (pop_loop rounds e w)
pop_loop-Popped [] e w i rounds r q off area st d fuel pend cnt = cc
pop_loop-Popped (x ∷ l) e w i zero r q off area st d fuel pend cnt = absurd (omega arith)
pop_loop-Popped (x ∷ l) e w i (suc rounds) r q off area st d fuel pend cnt =
    let (lt, got, rest) = get_at e w i x l off area d in
    elim (Bool-cases (reads w.selector x)) [
      | inl hit ↦ rw (pop_loop_hit rounds e w x got hit) (
        ground arith,
        record {
          at = suc i;
          offset = rw off (pos_+ℤ_one i);
          area = area;
          stored = st;
          within = lt;
          pending = ground arith;
          counted = omega arith;
        },
        refl,
      )
      | inr miss ↦ rw (pop_loop_miss rounds e w x got miss) (
          pop_loop-Popped l e (record w { offset = w.offset +ℤ pos 1 }) (suc i) rounds r q
            (rw off (pos_+ℤ_one i)) area st rest (omega arith) (ground arith) cnt)
    ]

peek_loop-first :
    (l : List IoTileReading) (e : Engine) (w : BufferedStreamWalker) (i rounds : ℕ)
    (r : IoTileReading) (q : List IoTileReading)
    → w.storage_type ≡ area_of (Selector.output w.selector)
    → drop i (buffer_of e w.selector) ≡ l
    → length l < rounds
    → filter_by (reads w.selector) l ≡ r ∷ q
    → peek_loop rounds e w (pos i) ≡ ok r
unfolding peek_loop matches
peek_loop-first [] e w i rounds r q area d fuel pend = cc
peek_loop-first (x ∷ l) e w i zero r q area d fuel pend = absurd (omega arith)
peek_loop-first (x ∷ l) e w i (suc rounds) r q area d fuel pend =
    let (lt, got, rest) = get_at e (record w { offset = pos i }) i x l refl area d in
    ground
      (arith, got, pos_+ℤ_one i, peek_loop-first l e w (suc i) rounds r q area rest (omega arith))

rest_fuel :
    {e : Engine} {w : BufferedStreamWalker} {q : List IoTileReading} (s : InSync e w q)
    → length (drop s.at (buffer_of e w.selector)) < rounds_from e w
rest_fuel {e} {w} s =
    rw (s.offset, s.area) (omega (arith, length-drop s.at (buffer_of e w.selector)))

-- `pop` on a walker that holds a queue takes the queue's first reading, and on the empty queue it
-- raises `StreamEmptyError` and changes nothing.
pub pop_refines :
    (e : Engine) (w : BufferedStreamWalker) (q : List IoTileReading)
    → InSync e w q
    → Popped e w q (pop e w)
unfolding pop
pop_refines e w [] s = ground arith
pop_refines e w (r ∷ q) s =
    let rest = drop s.at (buffer_of e w.selector) in
    let fuel : length rest < rounds_from e w = rest_fuel s in
    let busy : (w.count == 0) ≡ false = ground arith in
    rw busy (
      pop_loop-Popped rest e w s.at (rounds_from e w) r q s.offset s.area s.stored refl fuel
        s.pending s.counted)

-- The first reading of a queue.
abbrev pub first : List IoTileReading → Result IoTileReading
first [] = err Error.stream_empty_error
first (r ∷ q) = ok r

-- `peek` on a walker that holds a queue returns the queue's first reading, and on the empty queue it
-- raises `StreamEmptyError`.
pub peek_refines :
    (e : Engine) (w : BufferedStreamWalker) (q : List IoTileReading)
    → InSync e w q
    → peek e w ≡ first q
unfolding peek
peek_refines e w [] s = ground arith
peek_refines e w (r ∷ q) s =
    let rest = drop s.at (buffer_of e w.selector) in
    let fuel : length rest < rounds_from e w = rest_fuel s in
    let busy : (w.count == 0) ≡ false = ground arith in
    rw busy (
      ap (peek_loop (rounds_from e w) e w) s.offset
      ∙ peek_loop-first rest e w s.at (rounds_from e w) r q s.area refl fuel s.pending)
