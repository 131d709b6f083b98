-- ===== src/Walker/Buffered/Rollover.antt =====
-- The bookkeeping of a walker when the oldest readings of its area are erased.
use coretools.Prelude.{
  ℕ, ◌-◌, ◌<◌, ◌≤◌, ◌≡◌, ◌↔◌, refl, ap, sym, ◌∙◌, pos, negsuc, ◌-ℤ◌, true, false, Bool-cases,
  length, arith, ◌⊎◌, inl, inr, List, [], ◌∷◌, ◌++◌, drop, length-append, count_if,
  drop_past-append, -ℤ-zero, -ℤ-suc, pos_-ℤ_pos, pos_-ℤ_neg,
}
use coretools.Errors.{Error, Result, ok, err}
use coretools.Stream
use coretools.Reading.{IoTileReading}
use coretools.Engine.{Engine}
use coretools.Engine.Buffers.{reads, buffer_of}
use coretools.Walker.Buffered.{BufferedStreamWalker, matches, notify_rollover}
use coretools.Walker.Buffered.Queue.{InSync}

-- `notify_rollover` for each erased reading in turn, as `_erase_buffer` calls it; an exception ends
-- the loop.
unfoldable pub notify_erased :
    List IoTileReading → BufferedStreamWalker → Result (Unit {0}) × BufferedStreamWalker
notify_erased [] w = (ok tt, w)
notify_erased (r ∷ l) w =
    let (notified, w') = notify_rollover w (Stream.from_encoded r.stream) in
    elim notified [ err x ↦ (err x, w') | ok _ ↦ notify_erased l w' ]

-- The walker after `n` readings before it, `m` of them its own, have been taken away.
abbrev pub moved_back : BufferedStreamWalker → ℕ → ℕ → BufferedStreamWalker
moved_back w n m = record w { offset = w.offset -ℤ pos n; count = w.count - m }

-- One notification.
notify_miss :
    (w : BufferedStreamWalker) (r : IoTileReading)
    → reads w.selector r ≡ false
    → notify_rollover w (Stream.from_encoded r.stream) ≡ (ok tt, moved_back w 1 0)
unfolding notify_rollover matches
notify_miss w r miss = ground arith

notify_hit :
    (w : BufferedStreamWalker) (r : IoTileReading)
    → reads w.selector r ≡ true
    → 0 < w.count
    → notify_rollover w (Stream.from_encoded r.stream) ≡ (ok tt, moved_back w 1 1)
unfolding notify_rollover matches
notify_hit w r hit busy = ground arith

notify_out_of_sync :
    (w : BufferedStreamWalker) (r : IoTileReading)
    → reads w.selector r ≡ true
    → w.count ≡ 0
    → (notify_rollover w (Stream.from_encoded r.stream)).0 ≡ err Error.internal_error
unfolding notify_rollover matches
notify_out_of_sync w r hit idle = ground arith

-- If the walker still counts at least as many readings as erased ones match, the offset falls by the
-- number of the erased readings and the count by the number that match, whether or not the walker has
-- read them before; otherwise `InternalError` is raised.
pub notify_erased_lem :
    (l : List IoTileReading) (w : BufferedStreamWalker)
    → let m = count_if (reads w.selector) l in
      ((m ≤ w.count) × (notify_erased l w ≡ (ok tt, moved_back w (length l) m)))
      ⊎ ((w.count < m) × ((notify_erased l w).0 ≡ err Error.internal_error))
unfolding notify_erased
notify_erased_lem [] w = inl (omega arith, ground (arith, -ℤ-zero w.offset))
notify_erased_lem (r ∷ l) w = elim (Bool-cases (reads w.selector r)) [
  | inl hit ↦ ground (
    arith,
    notify_hit w r,
    notify_out_of_sync w r,
    notify_erased_lem l (moved_back w 1 1),
    -ℤ-suc w.offset (length l),
  )
  | inr miss ↦
      ground
        (arith, notify_miss w r, notify_erased_lem l (moved_back w 1 0), -ℤ-suc w.offset (length l))
]

module _ (e e' : Engine) (w : BufferedStreamWalker) (q l : List IoTileReading) (s : InSync e w q)
    (erased : buffer_of e w.selector ≡ l ++ buffer_of e' w.selector) where
  same_pending :
      length l ≤ s.at
      → drop (s.at - length l) (buffer_of e' w.selector) ≡ drop s.at (buffer_of e w.selector)
  same_pending h = rw erased (sym (drop_past-append s.at l (buffer_of e' w.selector) h))

  kept :
      length l ≤ s.at
      → count_if (reads w.selector) l ≡ 0
      → InSync e' (moved_back w (length l) (count_if (reads w.selector) l)) q
  kept past none_own = record {
    at = s.at - length l;
    offset = rw s.offset (pos_-ℤ_pos s.at (length l) past);
    area = s.area;
    stored = s.stored;
    within = omega (arith, s.within, ap length erased, length-append l (buffer_of e' w.selector));
    pending = rw (same_pending past) s.pending;
    counted = omega (arith, s.counted, none_own);
  }

  past_erased :
      {i : ℕ} → w.offset -ℤ pos (length l) ≡ pos i → (length l ≤ s.at) × (i ≡ s.at - length l)
  past_erased off = ground (arith, s.offset, pos_-ℤ_pos s.at (length l), pos_-ℤ_neg s.at (length l))

  only_kept :
      (q' : List IoTileReading)
      → count_if (reads w.selector) l ≤ w.count
      → InSync e' (moved_back w (length l) (count_if (reads w.selector) l)) q'
      → (length l ≤ s.at) × (count_if (reads w.selector) l ≡ 0)
  only_kept q' enough s' =
      let (past, here) = past_erased s'.offset in
      let same : q' ≡ q = sym s'.pending ∙ (rw (here, same_pending past) s.pending) in
      (past, omega (arith, ap length same, s.counted, s'.counted))

  -- After the oldest readings of its area are erased, a walker that was in sync is told of it without
  -- an exception and is in sync again exactly if it had passed all erased readings and its selector
  -- matches none of them.
  pub rollover_iff :
      (((notify_erased l w).0 ≡ ok tt)
        × ((q' : List IoTileReading) × InSync e' (notify_erased l w).1 q'))
      ↔ ((length l ≤ s.at) × (count_if (reads w.selector) l ≡ 0))
  rollover_iff = elim (notify_erased_lem l w) [
    | inl (enough, run) ↦ rw run (λ h. only_kept h.1.0 enough h.1.1, λ h. (refl, (q, kept h.0 h.1)))
    | inr (short, fails) ↦ (λ h. cc (h.0, fails), λ h. absurd (omega (arith, h.1)))
  ]

-- A walker that has read everything makes the notification fail with `InternalError` as soon as one of
-- the erased readings is its own.
pub rollover_caught_up :
    (e : Engine) (w : BufferedStreamWalker) (l : List IoTileReading)
    → InSync e w []
    → 0 < count_if (reads w.selector) l
    → (notify_erased l w).0 ≡ err Error.internal_error
rollover_caught_up e w l s own = elim (notify_erased_lem l w) [
  | inl (enough, run) ↦ absurd (omega (arith, s.counted))
  | inr (short, fails) ↦ fails
]

-- A walker that has not passed all erased readings is left with a negative offset, if the
-- notification does not fail.
pub rollover_unread :
    (e : Engine) (w : BufferedStreamWalker) (q l : List IoTileReading) (s : InSync e w q)
    → s.at < length l
    → (notify_erased l w).0 ≡ ok tt
    → (notify_erased l w).1.offset ≡ negsuc (length l - s.at - 1)
rollover_unread e w q l s unread told = elim (notify_erased_lem l w) [
  | inl (enough, run) ↦ rw (run, s.offset) (pos_-ℤ_neg s.at (length l) unread)
  | inr (short, fails) ↦ cc
]
