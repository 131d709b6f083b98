-- ===== src/SensorLog/Rollover.antt =====
-- A push into a full area that rolls over: the oldest readings are erased first, and the walkers on
-- the area are told of each of them.
use coretools.Prelude.{
  ℕ, ◌+◌, ◌<◌, ◌≤◌, ◌≡◌, inl, inr, refl, ap, ◌∙◌, Bool, true, false, same, List, [], ◌∷◌, ◌++◌,
  length, length-append, Option-cases, arith,
}
use coretools.Errors.{Error, ok, err}
use coretools.Stream
use coretools.Stream.{DataStream}
use coretools.Stream.Encoding.{IsPackable, from_encoded-encode}
use coretools.Selector
use coretools.Selector.{DataStreamSelector}
use coretools.Reading.{IoTileReading}
use coretools.Engine
use coretools.Engine.{Engine, Area, chosen_buffer}
use coretools.Engine.Buffers.{area_of}
use coretools.Walker.Buffered.{BufferedStreamWalker}
use coretools.SensorLog.{SensorLog}
use coretools.SensorLog.Push.{push, store, assign_id, deliver, notify_added_all}
use coretools.SensorLog.Push.{
  erase_buffer, push_again, area_name, notify_erased_all, notify_rollover_all,
}
use coretools.SensorLog.Room.{
  stamped, stamped_stream, delivered, HasRoom, room_push, chosen_buffer-with_buffer,
}
use coretools.Engine.Buffers.{popn_lem}
use coretools.SensorLog.Full.{limit, rolls_over, full_push, rolling_store}

-- The buffered walkers read the other area.
abbrev pub Elsewhere : Bool → List (ℕ × BufferedStreamWalker) → Type 0
Elsewhere out [] = Unit
Elsewhere out ((i, w) ∷ ws) = (same (Selector.output w.selector) out ≡ false) × Elsewhere out ws

notify_rollover_all-Elsewhere :
    (out : Bool) (s : DataStream) (ws : List (ℕ × BufferedStreamWalker))
    → Elsewhere out ws
    → notify_rollover_all out s ws ≡ (ok tt, ws)
unfolding notify_rollover_all
notify_rollover_all-Elsewhere out s [] h = refl
notify_rollover_all-Elsewhere out s ((i, w) ∷ ws) h =
    ground (arith, h.0, notify_rollover_all-Elsewhere out s ws h.1)

notify_erased_all-Elsewhere :
    (out : Bool) (old : List IoTileReading) (ws : List (ℕ × BufferedStreamWalker))
    → Elsewhere out ws
    → notify_erased_all out old ws ≡ (ok tt, ws)
unfolding notify_erased_all
notify_erased_all-Elsewhere out [] ws h = refl
notify_erased_all-Elsewhere out (r ∷ old) ws h = ground (
  arith,
  notify_rollover_all-Elsewhere out (Stream.from_encoded r.stream) ws h,
  notify_erased_all-Elsewhere out old ws h,
)

notify_added_all-Elsewhere :
    (out : Bool) (s : DataStream) (ws : List (ℕ × BufferedStreamWalker))
    → Elsewhere out ws
    → notify_added_all out s ws ≡ ws
unfolding notify_added_all
notify_added_all-Elsewhere out s [] h = refl
notify_added_all-Elsewhere out s ((i, w) ∷ ws) h =
    ground (arith, h.0, notify_added_all-Elsewhere out s ws h.1)

-- What the engine answers when the oldest `erase_size` readings of a full area are erased.
pub erased :
    (log : SensorLog) (out : Bool)
    → length (chosen_buffer log.engine (area_of out)) ≡ limit log.engine out
    → 0 < log.erase_size
    → log.erase_size ≤ limit log.engine out
    → (old : List IoTileReading) × (rest : List IoTileReading) × (old ++ rest
        ≡ chosen_buffer log.engine (area_of out))
      × (length old ≡ log.erase_size)
      × (length rest < limit log.engine out)
      × (Engine.popn log.engine (area_of out) log.erase_size
          ≡ ok (old, Engine.with_buffer log.engine (area_of out) rest))
erased log out full some_erased fits = elim (popn_lem log.engine (area_of out) log.erase_size) [
  | inl few ↦ absurd (omega (arith, few.0))
  | inr (old, rest, popped, n, split) ↦
      (old, rest, split, n, omega (arith, length-append old rest, ap length split), popped)
]

room_left :
    (e : Engine) (out : Bool) (rest : List IoTileReading)
    → length rest < limit e out
    → HasRoom (Engine.with_buffer e (area_of out) rest) out
room_left e true rest h = h
room_left e false rest h = h

-- The number of calls is all that the id assigner changes.
pub assigned_only :
    (log : SensorLog) (s : DataStream) (r : IoTileReading)
    → (n : ℕ) × ((assign_id log s r).1 ≡ record log { assigned = n })
unfolding assign_id
assigned_only log s r = elim (Option-cases log.assigner) [
  | inl none_given ↦ (log.assigned, ground arith)
  | inr (f, given) ↦ (log.assigned + 1, ground arith)
]

pub area_name-eq : (out : Bool) → area_name out ≡ area_of out
area_name-eq true = refl
area_name-eq false = refl

rolled_store :
    (log : SensorLog) (s : DataStream) (r : IoTileReading) (old rest : List IoTileReading)
    → Stream.from_encoded r.stream ≡ s
    → Engine.push log.engine r ≡ err Error.storage_full_error
    → rolls_over log (Stream.output s) ≡ true
    → Engine.popn log.engine (area_of (Stream.output s)) log.erase_size
      ≡ ok (old, Engine.with_buffer log.engine (area_of (Stream.output s)) rest)
    → length rest < limit log.engine (Stream.output s)
    → Elsewhere (Stream.output s) log.queue_walkers
    → (e : Engine) × (chosen_buffer e (area_of (Stream.output s)) ≡ rest ++ (r ∷ []))
      × (store log s r ≡ (ok tt, record log { engine = e }))
unfolding push_again erase_buffer
rolled_store log s r old rest d p rolls popped short h =
    let out = Stream.output s in
    let e1 = Engine.with_buffer log.engine (area_of out) rest in
    let kept = notify_erased_all-Elsewhere out old log.queue_walkers h in
    let q = room_push e1 r s d (room_left log.engine out rest short) in
    (
      Engine.with_buffer e1 (area_of out) (chosen_buffer e1 (area_of out) ++ (r ∷ [])),
      chosen_buffer-with_buffer e1 out (chosen_buffer e1 (area_of out) ++ (r ∷ []))
          ∙ ap (λ l. l ++ (r ∷ [])) (chosen_buffer-with_buffer log.engine out rest),
      rolling_store log s r p rolls ∙ ground (arith, area_name-eq out, popped, kept, q),
    )

push_stored :
    (log : SensorLog) (s : DataStream) (value : IoTileReading) {log1 log2 : SensorLog}
    → Stream.buffered s ≡ true
    → (assign_id log s (record value { stream = Stream.encode s })).1 ≡ log1
    → store log1 s (stamped log s value) ≡ (ok tt, log2)
    → push log s value
      ≡ deliver
          (record log2 { queue_walkers = notify_added_all (Stream.output s) s log2.queue_walkers })
          s
          (stamped log s value)
unfolding push
push_stored log s value b only stored = ground (arith, b, only, stored)

-- A push of a packable buffered stream into a full area that rolls over, with an erase size from 1 to
-- the size of the area, erases as many of the oldest readings as the erase size says and stores the
-- new one, if no buffered walker reads that area.
pub push-rolls_over :
    (log : SensorLog) (s : DataStream) (value : IoTileReading)
    → IsPackable s
    → Stream.buffered s ≡ true
    → length (chosen_buffer log.engine (area_of (Stream.output s)))
      ≡ limit log.engine (Stream.output s)
    → rolls_over log (Stream.output s) ≡ true
    → 0 < log.erase_size
    → log.erase_size ≤ limit log.engine (Stream.output s)
    → Elsewhere (Stream.output s) log.queue_walkers
    → let (out, log') = push log s value in
      (out ≡ ok tt)
      × (log'.queue_walkers ≡ log.queue_walkers)
      × ((old : List IoTileReading) × (rest : List IoTileReading) × (old ++ rest
            ≡ chosen_buffer log.engine (area_of (Stream.output s)))
          × (length old ≡ log.erase_size)
          × (chosen_buffer log'.engine (area_of (Stream.output s))
              ≡ rest ++ (stamped log s value ∷ [])))
push-rolls_over log s value packable b full rolls some_erased fits h =
    let r = stamped log s value in
    let id = stamped_stream log s value in
    let d : Stream.from_encoded r.stream ≡ s = rw id (from_encoded-encode s packable) in
    let p = full_push log.engine r s d full in
    let (old, rest, split, n, short, popped) = erased log (Stream.output s) full some_erased fits in
    let (calls, only) = assigned_only log s (record value { stream = Stream.encode s }) in
    let log1 = record log { assigned = calls } in
    let (e, buffer, stored) = rolled_store log1 s r old rest d p rolls popped short h in
    let log2 = record log1 { engine = e; queue_walkers = log.queue_walkers } in
    let kept = notify_added_all-Elsewhere (Stream.output s) s log.queue_walkers h in
    let run : push log s value ≡ deliver log2 s r =
      push_stored log s value b only stored
      ∙ ap (λ ws. deliver (record log1 { engine = e; queue_walkers = ws }) s r) kept in
    let (good, engine, walkers, last) = delivered log2 s r in
    rw run (good, walkers, (old, rest, split, n, rw engine buffer))
