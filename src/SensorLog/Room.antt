-- ===== src/SensorLog/Room.antt =====
-- A push into an area with room, and what it leaves in the walkers and in the last values.
use coretools.Prelude.{
  ℕ, ◌<◌, ◌≡◌, inl, inr, refl, ap, sym, ◌∙◌, Bool, true, false, Bool-cases, ◌==◌, same,
  if◌then◌else◌, List, [], ◌∷◌, ◌++◌, length, filter_by, arith,
}
use coretools.Errors.{ok}
use coretools.Stream
use coretools.Stream.{DataStream}
use coretools.Stream.Encoding.{IsPackable, from_encoded-encode, eq_iff}
use coretools.Selector
use coretools.Selector.{DataStreamSelector}
use coretools.Selector.Matching.{matches-area}
use coretools.Reading.{IoTileReading}
use coretools.Engine
use coretools.Engine.{Engine, Area, chosen_buffer}
use coretools.Engine.Buffers.{area_of, reads, push_lem}
use coretools.Walker.Buffered
use coretools.Walker.Buffered.{BufferedStreamWalker}
use coretools.Walker.Buffered.Queue.{InSync}
use coretools.Walker.Buffered.Placed.{notify_added-InSync, push_elsewhere-InSync}
use coretools.Walker.Virtual
use coretools.Walker.Counter
use mathlib.Core.List.{append-nil}
use coretools.SensorLog.{SensorLog, MemoryWalker}
use coretools.SensorLog.Assoc.{lookup, insert, lookup-insert}
use coretools.SensorLog.Push.{
  push, store, assign_id, deliver, push_virtual, notify_added_all, inspect_last,
}
use coretools.SensorLog.Sync.{AllInSync}

-- The queues after a reading has arrived: it joins those of the walkers whose selectors match it.
abbrev pub arrived :
    IoTileReading
    → List (ℕ × BufferedStreamWalker)
    → List (List IoTileReading)
    → List (List IoTileReading)
arrived r ((i, w) ∷ ws) (q ∷ qs) = (q ++ filter_by (reads w.selector) (r ∷ [])) ∷ arrived r ws qs
arrived r _ _ = []

-- There is room in the area.
abbrev pub HasRoom : Engine → Bool → Type 0
HasRoom e true = length e.streaming_data < e.streaming_length
HasRoom e false = length e.storage_data < e.storage_length

same_iff : (a b : Bool) → same a b ≡ true → a ≡ b
same_iff a b h = ground arith

at_queue :
    {e : Engine} {w : BufferedStreamWalker} {q q' : List IoTileReading}
    → q' ≡ q
    → InSync e w q
    → InSync e w q'
at_queue h s = rw h s

notify_added_one :
    (e : Engine) (w : BufferedStreamWalker) (q : List IoTileReading) (r : IoTileReading)
    (s : DataStream) {e' : Engine}
    → Stream.from_encoded r.stream ≡ s
    → Engine.push e r ≡ ok e'
    → InSync e w q
    → InSync e'
        (if same (Selector.output w.selector) (Stream.output s)
          then Buffered.notify_added w s
          else w)
        (q ++ filter_by (reads w.selector) (r ∷ []))
notify_added_one e w q r s {e'} d p h =
    rw (sym d)
      (elim (Bool-cases
        (same (Selector.output w.selector) (Stream.output (Stream.from_encoded r.stream)))) [
          | inl here ↦ rw here (notify_added-InSync e w q r h p (sym (same_iff _ _ here)))
          | inr there ↦ rw there (
              at_queue
                (ground
                  (arith, append-nil q, matches-area w.selector (Stream.from_encoded r.stream)))
                (push_elsewhere-InSync e w q r h p (ground arith)))
        ])

notify_added_all-AllInSync :
    (e : Engine) (ws : List (ℕ × BufferedStreamWalker)) (qs : List (List IoTileReading))
    (r : IoTileReading) (s : DataStream) {e' : Engine}
    → Stream.from_encoded r.stream ≡ s
    → Engine.push e r ≡ ok e'
    → AllInSync e ws qs
    → AllInSync e' (notify_added_all (Stream.output s) s ws) (arrived r ws qs)
unfolding notify_added_all
notify_added_all-AllInSync e [] [] r s d p h = tt
notify_added_all-AllInSync e ((i, w) ∷ ws) (q ∷ qs) r s d p h =
    (notify_added_one e w q r s d p h.0, notify_added_all-AllInSync e ws qs r s d p h.1)
notify_added_all-AllInSync e [] (q ∷ qs) r s d p h = elim h [ ]
notify_added_all-AllInSync e ((i, w) ∷ ws) [] r s d p h = elim h [ ]

-- Delivery to the virtual walkers never fails, since the log asks them before it pushes.
push_virtual_ok :
    (s : DataStream) (r : IoTileReading) (ws : List (ℕ × MemoryWalker))
    → (push_virtual s r ws).0 ≡ ok tt
unfolding push_virtual Virtual.push Virtual.matches Counter.push Counter.matches
push_virtual_ok s r [] = refl
push_virtual_ok s r ((i, MemoryWalker.virtual w) ∷ ws) = ground (arith, push_virtual_ok s r ws)
push_virtual_ok s r ((i, MemoryWalker.counter w) ∷ ws) = ground (arith, push_virtual_ok s r ws)

-- What a push of a buffered reading leaves: the engine that the storage answers, the walkers that
-- are notified, and the last value.
pub delivered :
    (log : SensorLog) (s : DataStream) (r : IoTileReading)
    → let (out, log') = deliver log s r in
      (out ≡ ok tt)
      × (log'.engine ≡ log.engine)
      × (log'.queue_walkers ≡ log.queue_walkers)
      × (log'.last_values ≡ insert s r log.last_values)
unfolding deliver
delivered log s r = ground (arith, push_virtual_ok s r log.virtual_walkers)

-- The reading as `push` stores it: with the id of its stream, and the id that the assigner gives.
abbrev pub stamped : SensorLog → DataStream → IoTileReading → IoTileReading
stamped log s value = (assign_id log s (record value { stream = Stream.encode s })).0

pub stamped_stream :
    (log : SensorLog) (s : DataStream) (value : IoTileReading)
    → (stamped log s value).stream ≡ Stream.encode s
unfolding assign_id
stamped_stream log s value = ground arith

pub assign_id_keeps :
    (log : SensorLog) (s : DataStream) (r : IoTileReading)
    → let log' = (assign_id log s r).1 in
      (log'.engine ≡ log.engine)
      × (log'.queue_walkers ≡ log.queue_walkers)
      × (log'.last_values ≡ log.last_values)
unfolding assign_id
assign_id_keeps log s r = ground arith

not_full :
    (e : Engine) (out : Bool)
    → HasRoom e out
    → (length (chosen_buffer e (area_of out))
        == (if out then e.streaming_length else e.storage_length))
      ≡ false
not_full e true room = ground arith
not_full e false room = ground arith

pub room_push :
    (e : Engine) (r : IoTileReading) (s : DataStream)
    → Stream.from_encoded r.stream ≡ s
    → HasRoom e (Stream.output s)
    → Engine.push e r
      ≡ ok (
          Engine.with_buffer e
            (area_of (Stream.output s))
            (chosen_buffer e (area_of (Stream.output s)) ++ (r ∷ [])))
room_push e r s d room = push_lem e r ∙ rw (d, not_full e (Stream.output s) room) refl

pub chosen_buffer-with_buffer :
    (e : Engine) (out : Bool) (l : List IoTileReading)
    → chosen_buffer (Engine.with_buffer e (area_of out) l) (area_of out) ≡ l
chosen_buffer-with_buffer e true l = refl
chosen_buffer-with_buffer e false l = refl

-- A push of a packable buffered stream into an area with room succeeds, where the buffered walkers are
-- in sync. The reading, stamped with the id of its stream and the assigned id, is behind the readings
-- of its area, every walker stays in sync with its queue, which the reading joins where the walker's selector matches, and it is the
-- last value of its stream.
pub push-AllInSync :
    (log : SensorLog) (s : DataStream) (value : IoTileReading) (qs : List (List IoTileReading))
    → IsPackable s
    → Stream.buffered s ≡ true
    → HasRoom log.engine (Stream.output s)
    → AllInSync log.engine log.queue_walkers qs
    → let (out, log') = push log s value in
      (out ≡ ok tt)
      × (chosen_buffer log'.engine (area_of (Stream.output s))
          ≡ chosen_buffer log.engine (area_of (Stream.output s)) ++ (stamped log s value ∷ []))
      × AllInSync log'.engine log'.queue_walkers
          (arrived (stamped log s value) log.queue_walkers qs)
      × (inspect_last log' s false ≡ ok (stamped log s value))
unfolding push store inspect_last
push-AllInSync log s value qs packable b room h =
    let r = stamped log s value in
    let id = stamped_stream log s value in
    let d : Stream.from_encoded r.stream ≡ s = rw id (from_encoded-encode s packable) in
    let e =
      Engine.with_buffer log.engine (area_of (Stream.output s))
        (chosen_buffer log.engine (area_of (Stream.output s)) ++ (r ∷ [])) in
    let p : Engine.push log.engine r ≡ ok e = room_push log.engine r s d room in
    let log1 = (assign_id log s (record value { stream = Stream.encode s })).1 in
    let (same_engine, same_walkers, _) =
      assign_id_keeps log s (record value { stream = Stream.encode s }) in
    let log2 = record log1 {
      engine = e;
      queue_walkers = notify_added_all (Stream.output s) s log1.queue_walkers;
    } in
    let run : push log s value ≡ deliver log2 s r = ground (arith, p, b, same_engine) in
    let (good, engine, walkers, last) = delivered log2 s r in
    let found = ap (lookup s) last ∙ lookup-insert s s r log2.last_values in
    rw run (
      good,
      rw engine (
          chosen_buffer-with_buffer log.engine (Stream.output s)
            (chosen_buffer log.engine (area_of (Stream.output s)) ++ (r ∷ []))),
      rw (engine, walkers, same_walkers)
          (notify_added_all-AllInSync log.engine log.queue_walkers qs r s d p h),
      ground (arith, found, eq_iff s s),
    )
