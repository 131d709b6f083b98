-- ===== src/SensorLog/Push.antt =====
-- `push`, `watch` and `inspect_last` of the sensor log (iotilesensorgraph/iotile/sg/sensor_log.py).
use coretools.Prelude.{
  ℕ, ◌+◌, Bool, true, false, not, ◌&&◌, ◌||◌, ◌==◌, same, if◌then◌else◌, Option, none, some, List,
  [], ◌∷◌, ◌++◌,
}
use coretools.Errors.{Error, Result, ok, err}
use coretools.Stream
use coretools.Stream.{DataStream}
use coretools.Selector
use coretools.Selector.{DataStreamSelector}
use coretools.Reading.{IoTileReading}
use coretools.Engine
use coretools.Engine.{Area}
use coretools.Walker.Buffered
use coretools.Walker.Buffered.{BufferedStreamWalker}
use coretools.SensorLog.{SensorLog, MemoryWalker, memory_matches, memory_push}
use coretools.SensorLog.Assoc.{lookup, insert}

abbrev pub area_name : Bool → Area
area_name output_buffer = if output_buffer then Area.streaming else Area.storage

-- The inner loop of `_erase_buffer`: the walkers on the queue of the area are notified of one erased
-- reading; an exception leaves the walkers behind it as they are.
unfoldable pub notify_rollover_all :
    Bool
    → DataStream
    → List (ℕ × BufferedStreamWalker)
    → Result (Unit {0}) × List (ℕ × BufferedStreamWalker)
notify_rollover_all out stream [] = (ok tt, [])
notify_rollover_all out stream ((i, w) ∷ ws) =
    let (rest, ws') = notify_rollover_all out stream ws in
    let (notified, w') = Buffered.notify_rollover w stream in
    if same (Selector.output w.selector) out
    then (elim notified [ err x ↦ (err x, (i, w') ∷ ws) | ok _ ↦ (rest, (i, w') ∷ ws') ])
    else (rest, (i, w) ∷ ws')

-- The outer loop.
unfoldable pub notify_erased_all :
    Bool
    → List IoTileReading
    → List (ℕ × BufferedStreamWalker)
    → Result (Unit {0}) × List (ℕ × BufferedStreamWalker)
notify_erased_all out [] ws = (ok tt, ws)
notify_erased_all out (r ∷ old) ws =
    let (notified, ws') = notify_rollover_all out (Stream.from_encoded r.stream) ws in
    elim notified [ err x ↦ (err x, ws') | ok _ ↦ notify_erased_all out old ws' ]

unfoldable pub erase_buffer : SensorLog → Bool → Result (Unit {0}) × SensorLog
erase_buffer log out = elim (Engine.popn log.engine (area_name out) log.erase_size) [
  | err x ↦ (err x, log)
  | ok (old, e) ↦
      let (notified, ws) = notify_erased_all out old log.queue_walkers in
      (notified, record log { engine = e; queue_walkers = ws })
]

-- The walkers on the queue of the area are notified of a new reading.
unfoldable pub notify_added_all :
    Bool → DataStream → List (ℕ × BufferedStreamWalker) → List (ℕ × BufferedStreamWalker)
notify_added_all out stream [] = []
notify_added_all out stream ((i, w) ∷ ws) =
    (i, (if same (Selector.output w.selector) out then Buffered.notify_added w stream else w))
    ∷ notify_added_all out stream ws

-- The second `self._engine.push`, behind an erased buffer.
unfoldable pub push_again : SensorLog → Bool → IoTileReading → Result (Unit {0}) × SensorLog
push_again log out r =
    let (erased, log') = erase_buffer log out in
    elim erased [
      | err x ↦ (err x, log')
      | ok _ ↦ elim (Engine.push log'.engine r) [
        | err x ↦ (err x, log')
        | ok e ↦ (ok tt, record log' { engine = e })
      ]
    ]

abbrev pub is_storage_full : Error → Bool
is_storage_full Error.storage_full_error = true
is_storage_full _ = false

-- The `try` statement of `push`.
unfoldable pub store : SensorLog → DataStream → IoTileReading → Result (Unit {0}) × SensorLog
store log stream r = elim (Engine.push log.engine r) [
  | ok e ↦ (ok tt, record log { engine = e })
  | err x ↦
      if not (is_storage_full x)
      then (err x, log)
      else if (Stream.output stream && not log.rollover_streaming)
          || (not (Stream.output stream) && not log.rollover_storage)
      then (err x, log)
      else push_again log (Stream.output stream) r
]

-- The reading with the id that the assigner gives it, if there is an assigner.
unfoldable pub assign_id : SensorLog → DataStream → IoTileReading → IoTileReading × SensorLog
assign_id log stream r = elim log.assigner [
  | none ↦ (r, log)
  | some assigner ↦ (
    record r { reading_id = assigner log.assigned stream r },
    record log { assigned = log.assigned + 1 },
  )
]

unfoldable pub call_all :
    List ℕ → DataStream → IoTileReading → List (ℕ × DataStream × IoTileReading)
call_all [] stream r = []
call_all (f ∷ fs) stream r = (f, stream, r) ∷ call_all fs stream r

-- The calls of the monitors; a `None` selector watches every stream.
unfoldable pub activate :
    List (Option DataStreamSelector × List ℕ)
    → DataStream
    → IoTileReading
    → List (ℕ × DataStream × IoTileReading)
unfolding call_all
activate [] stream r = []
activate ((none, callbacks) ∷ ms) stream r = call_all callbacks stream r ++ activate ms stream r
activate ((some selector, callbacks) ∷ ms) stream r =
    let rest = activate ms stream r in
    if Selector.matches selector stream then call_all callbacks stream r ++ rest else rest

-- `watch`; the callbacks of a selector are a set.
abbrev same_monitor : Option DataStreamSelector → Option DataStreamSelector → Bool
same_monitor none none = true
same_monitor (some a) (some b) = Selector.eq a b
same_monitor _ _ = false

abbrev add_callback : ℕ → List ℕ → List ℕ
add_callback callback [] = callback ∷ []
add_callback callback (f ∷ fs) = if f == callback then f ∷ fs else f ∷ add_callback callback fs

unfoldable pub add_monitor :
    Option DataStreamSelector
    → ℕ
    → List (Option DataStreamSelector × List ℕ)
    → List (Option DataStreamSelector × List ℕ)
add_monitor selector callback [] = (selector, callback ∷ []) ∷ []
add_monitor selector callback ((s, fs) ∷ ms) =
    if same_monitor s selector
    then (s, add_callback callback fs) ∷ ms
    else (s, fs) ∷ add_monitor selector callback ms

unfoldable pub watch : SensorLog → Option DataStreamSelector → ℕ → SensorLog
watch log selector callback = record log { monitors = add_monitor selector callback log.monitors }

unfoldable pub push_virtual :
    DataStream
    → IoTileReading
    → List (ℕ × MemoryWalker)
    → Result (Unit {0}) × List (ℕ × MemoryWalker)
push_virtual stream r [] = (ok tt, [])
push_virtual stream r ((i, w) ∷ ws) =
    let (rest, ws') = push_virtual stream r ws in
    if memory_matches w stream
    then (elim (memory_push w stream r) [
      | err x ↦ (err x, (i, w) ∷ ws)
      | ok w' ↦ (rest, (i, w') ∷ ws')
    ])
    else (rest, (i, w) ∷ ws')

-- The part of `push` behind the persistent storage.
unfoldable pub deliver : SensorLog → DataStream → IoTileReading → Result (Unit {0}) × SensorLog
deliver log stream r =
    let calls = log.calls ++ activate log.monitors stream r in
    let (pushed, ws) = push_virtual stream r log.virtual_walkers in
    let log' = record log { calls = calls; virtual_walkers = ws } in
    elim pushed [
      | err x ↦ (err x, log')
      | ok _ ↦ (ok tt, record log' { last_values = insert stream r log.last_values })
    ]

unfoldable pub push : SensorLog → DataStream → IoTileReading → Result (Unit {0}) × SensorLog
push log stream value =
    let r = record value { stream = Stream.encode stream } in
    let (r', log') = assign_id log stream r in
    let (stored, log'') = store log' stream r' in
    if Stream.buffered stream
    then (elim stored [
      | err x ↦ (err x, log'')
      | ok _ ↦
          deliver
            (record log'' {
              queue_walkers = notify_added_all (Stream.output stream) stream log''.queue_walkers;
            })
            stream r'
    ])
    else deliver log stream r

-- `inspect_last`, with its `only_allocated` flag.
unfoldable pub is_allocated : DataStream → List (ℕ × MemoryWalker) → Bool
is_allocated stream [] = false
is_allocated stream ((_, w) ∷ ws) = memory_matches w stream || is_allocated stream ws

unfoldable pub inspect_last : SensorLog → DataStream → Bool → Result IoTileReading
inspect_last log stream only_allocated =
    if only_allocated && not (is_allocated stream log.virtual_walkers)
    then err Error.unresolved_identifier_error
    else elim (lookup stream log.last_values) [
      | some r ↦ ok r
      | none ↦ err Error.stream_empty_error
    ]
