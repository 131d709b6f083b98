-- ===== src/SensorLog/CaughtUp.antt =====
-- A push into a full area that a walker reads which has nothing left to read.
use coretools.Prelude.{ℕ, ◌<◌, ◌≤◌, ◌≡◌, ap, ◌∙◌, Bool, true, List, [], ◌∷◌, ◌++◌, length, arith}
use coretools.Errors.{Error, ok, err}
use coretools.Stream
use coretools.Stream.{DataStream}
use coretools.Stream.Encoding.{IsPackable, from_encoded-encode}
use coretools.Selector
use coretools.Selector.{DataStreamSelector}
use coretools.Reading.{IoTileReading}
use coretools.Engine
use coretools.Engine.{Engine, Area, chosen_buffer}
use coretools.Engine.Buffers.{area_of, reads}
use coretools.Walker.Buffered
use coretools.Walker.Buffered.{BufferedStreamWalker}
use coretools.SensorLog.{SensorLog}
use coretools.SensorLog.Push.{push, store, assign_id}
use coretools.SensorLog.Push.{erase_buffer, push_again, notify_erased_all, notify_rollover_all}
use coretools.SensorLog.Room.{stamped, stamped_stream, chosen_buffer-with_buffer}
use coretools.SensorLog.Full.{limit, rolls_over, full_push, rolling_store}
use coretools.SensorLog.Rollover.{erased, assigned_only, area_name-eq}

-- The first walker stops the loop over the erased readings.
notify_erased_all-stops :
    (out : Bool) (x : IoTileReading) (old : List IoTileReading) (i : ℕ) (w : BufferedStreamWalker)
    (ws : List (ℕ × BufferedStreamWalker))
    → Selector.output w.selector ≡ out
    → w.count ≡ 0
    → reads w.selector x ≡ true
    → (notify_erased_all out (x ∷ old) ((i, w) ∷ ws)).0 ≡ err Error.internal_error
unfolding notify_erased_all notify_rollover_all Buffered.notify_rollover Buffered.matches
notify_erased_all-stops out x old i w ws here none_left hit = ground arith

cons_of_append :
    {A : Type 0} (old rest l : List A) (x : A)
    → old ++ rest ≡ x ∷ l
    → 0 < length old
    → (old' : List A) × (old ≡ x ∷ old')
cons_of_append [] rest l x h some_old = absurd (omega arith)
cons_of_append (y ∷ old) rest l x h some_old = (old, ground arith)

stopped_store :
    (log : SensorLog) (s : DataStream) (r : IoTileReading) (old rest : List IoTileReading)
    → Engine.push log.engine r ≡ err Error.storage_full_error
    → rolls_over log (Stream.output s) ≡ true
    → Engine.popn log.engine (area_of (Stream.output s)) log.erase_size
      ≡ ok (old, Engine.with_buffer log.engine (area_of (Stream.output s)) rest)
    → (notify_erased_all (Stream.output s) old log.queue_walkers).0 ≡ err Error.internal_error
    → let (out, log') = store log s r in
      (out ≡ err Error.internal_error)
      × (log'.engine ≡ Engine.with_buffer log.engine (area_of (Stream.output s)) rest)
unfolding push_again erase_buffer
stopped_store log s r old rest p rolls popped stops =
    rw (rolling_store log s r p rolls)
      (ground (arith, area_name-eq (Stream.output s), popped, stops))

push_failed :
    (log : SensorLog) (s : DataStream) (value : IoTileReading) (log1 : SensorLog)
    → Stream.buffered s ≡ true
    → (assign_id log s (record value { stream = Stream.encode s })).1 ≡ log1
    → (store log1 s (stamped log s value)).0 ≡ err Error.internal_error
    → ((push log s value).0 ≡ err Error.internal_error)
      × ((push log s value).1 ≡ (store log1 s (stamped log s value)).1)
unfolding push
push_failed log s value log1 b only stored = ground (arith, b, only, stored)

-- A push of a packable buffered stream into a full area that rolls over, with an erase size from 1 to the size of
-- the area, fails with `InternalError` where the area's first reading matches a walker of that area
-- that stands before the others and has nothing left to read: as many of the oldest readings as the
-- erase size says are gone, and the new one is not stored.
pub push_stops_at_caught_up :
    (log : SensorLog) (s : DataStream) (value x : IoTileReading) (l : List IoTileReading) (i : ℕ)
    (w : BufferedStreamWalker) (ws : List (ℕ × BufferedStreamWalker))
    → IsPackable s
    → Stream.buffered s ≡ true
    → length (chosen_buffer log.engine (area_of (Stream.output s)))
      ≡ limit log.engine (Stream.output s)
    → rolls_over log (Stream.output s) ≡ true
    → 0 < log.erase_size
    → log.erase_size ≤ limit log.engine (Stream.output s)
    → log.queue_walkers ≡ (i, w) ∷ ws
    → Selector.output w.selector ≡ Stream.output s
    → w.count ≡ 0
    → chosen_buffer log.engine (area_of (Stream.output s)) ≡ x ∷ l
    → reads w.selector x ≡ true
    → let (out, log') = push log s value in
      (out ≡ err Error.internal_error)
      × ((old : List IoTileReading) × (length old ≡ log.erase_size)
          × (old ++ chosen_buffer log'.engine (area_of (Stream.output s)) ≡ x ∷ l))
push_stops_at_caught_up log s value x l i w ws packable b full rolls some_erased fits walkers here
      none_left buffer hit =
    let r = stamped log s value in
    let id = stamped_stream log s value in
    let d : Stream.from_encoded r.stream ≡ s = rw id (from_encoded-encode s packable) in
    let p = full_push log.engine r s d full in
    let (old, rest, split, n, short, popped) = erased log (Stream.output s) full some_erased fits in
    let (old', starts) = cons_of_append old rest l x (split ∙ buffer) (omega arith) in
    let (calls, only) = assigned_only log s (record value { stream = Stream.encode s }) in
    let log1 = record log { assigned = calls } in
    let stops : (notify_erased_all (Stream.output s) old log.queue_walkers).0
        ≡ err Error.internal_error =
      ap (λ o. (notify_erased_all (Stream.output s) o log.queue_walkers).0) starts
      ∙ ap (λ v. (notify_erased_all (Stream.output s) (x ∷ old') v).0) walkers
      ∙ notify_erased_all-stops (Stream.output s) x old' i w ws here none_left hit in
    let (failed, engine) = stopped_store log1 s r old rest p rolls popped stops in
    let (raised, left) = push_failed log s value log1 b only failed in
    let kept : chosen_buffer (push log s value).1.engine (area_of (Stream.output s)) ≡ rest =
      rw (left, engine) (chosen_buffer-with_buffer log.engine (Stream.output s) rest) in
    (raised, (old, n, rw kept (split ∙ buffer)))
