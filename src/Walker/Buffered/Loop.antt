-- ===== src/Walker/Buffered/Loop.antt =====
-- The loops of `pop` and `peek` end: each stops at a reading or at an exception of the engine.
use coretools.Prelude.{ℕ, zero, suc, ◌<◌, ◌≡◌, ◌≢◌, ℤ, pos, negsuc, ◌+ℤ◌, length, arith, inl, inr}
use coretools.Errors.{Error, Result-cases, ok, err}
use coretools.Reading.{IoTileReading}
use coretools.Engine
use coretools.Engine.{Engine, Area, chosen_buffer, range_size, at}
use coretools.Walker.Buffered.{BufferedStreamWalker, pop_loop, pop, peek_loop, peek, rounds_from}

get-ne-diverged : (e : Engine) (area : Area) (i : ℤ) → Engine.get e area i ≢ err Error.diverged
unfolding Engine.get
get-ne-diverged e area (pos i) h = ground arith
get-ne-diverged e area (negsuc i) h = ground arith

-- An offset that the engine answers leaves fewer rounds behind it.
get-rounds :
    (e : Engine) (area : Area) (i : ℤ) {r : IoTileReading}
    → Engine.get e area i ≡ ok r
    → range_size (i +ℤ pos 1) (length (chosen_buffer e area))
      < range_size i (length (chosen_buffer e area))
unfolding Engine.get ◌+ℤ◌
get-rounds e area (pos i) h = ground arith
get-rounds e area (negsuc i) h = ground arith

-- The walker one reading further on.
abbrev advanced : BufferedStreamWalker → BufferedStreamWalker
advanced w = record w { offset = w.offset +ℤ pos 1 }

pop_loop-ne-diverged :
    (rounds : ℕ) (e : Engine) (w : BufferedStreamWalker)
    → range_size w.offset (length (chosen_buffer e w.storage_type)) < rounds
    → (pop_loop rounds e w).0 ≢ err Error.diverged
unfolding pop_loop
pop_loop-ne-diverged zero e w h = absurd (omega arith)
pop_loop-ne-diverged (suc rounds) e w h =
    elim (Result-cases (Engine.get e w.storage_type w.offset)) [
      | inl (r, got) ↦ ground (
        arith,
        get-rounds e w.storage_type w.offset got,
        pop_loop-ne-diverged rounds e (advanced w),
      )
      | inr (x, got) ↦ ground (arith, get-ne-diverged e w.storage_type w.offset)
    ]

peek_loop-ne-diverged :
    (rounds : ℕ) (e : Engine) (w : BufferedStreamWalker) (i : ℤ)
    → range_size i (length (chosen_buffer e w.storage_type)) < rounds
    → peek_loop rounds e w i ≢ err Error.diverged
unfolding peek_loop
peek_loop-ne-diverged zero e w i h = absurd (omega arith)
peek_loop-ne-diverged (suc rounds) e w i h = elim (Result-cases (Engine.get e w.storage_type i)) [
  | inl (r, got) ↦
      ground
        (arith, get-rounds e w.storage_type i got, peek_loop-ne-diverged rounds e w (i +ℤ pos 1))
  | inr (x, got) ↦ ground (arith, get-ne-diverged e w.storage_type i)
]

-- `pop` and `peek` return or raise, whatever state the walker is in: their `while True` loops end,
-- also from a negative offset and where the count is wrong.
pub loops_end :
    (e : Engine) (w : BufferedStreamWalker)
    → ((pop e w).0 ≢ err Error.diverged) × (peek e w ≢ err Error.diverged)
unfolding pop peek
loops_end e w = (
  ground (arith, pop_loop-ne-diverged (rounds_from e w) e w),
  ground (arith, peek_loop-ne-diverged (rounds_from e w) e w w.offset),
)
