-- ===== src/SensorLog/Full.antt =====
-- A push into a full area: refused where the area is to stop when it is full, and else behind an
-- erased stretch of the oldest readings.
use coretools.Prelude.{
  ℕ, ◌≡◌, refl, ◌∙◌, Bool, true, false, not, ◌&&◌, ◌==◌, ◌||◌, if◌then◌else◌, length, arith,
}
use coretools.Errors.{Error, err}
use coretools.Stream
use coretools.Stream.{DataStream}
use coretools.Stream.Encoding.{IsPackable, from_encoded-encode}
use coretools.Reading.{IoTileReading}
use coretools.Engine
use coretools.Engine.{Engine, Area, chosen_buffer}
use coretools.Engine.Buffers.{area_of, push_lem}
use coretools.SensorLog.{SensorLog}
use coretools.SensorLog.Push.{push, store, assign_id}
use coretools.SensorLog.Push.{push_again}
use coretools.SensorLog.Room.{stamped, stamped_stream}

abbrev pub limit : Engine → Bool → ℕ
limit e true = e.streaming_length
limit e false = e.storage_length

abbrev pub rolls_over : SensorLog → Bool → Bool
rolls_over log true = log.rollover_streaming
rolls_over log false = log.rollover_storage

at_limit :
    (e : Engine) (out : Bool)
    → length (chosen_buffer e (area_of out)) ≡ limit e out
    → (length (chosen_buffer e (area_of out))
        == (if out then e.streaming_length else e.storage_length))
      ≡ true
at_limit e true full = ground arith
at_limit e false full = ground arith

pub full_push :
    (e : Engine) (r : IoTileReading) (s : DataStream)
    → Stream.from_encoded r.stream ≡ s
    → length (chosen_buffer e (area_of (Stream.output s))) ≡ limit e (Stream.output s)
    → Engine.push e r ≡ err Error.storage_full_error
full_push e r s d full = push_lem e r ∙ rw (d, at_limit e (Stream.output s) full) refl

refuses-eq :
    (out streaming storage : Bool)
    → ((out && not streaming) || (not out && not storage))
      ≡ not (if out then streaming else storage)
refuses-eq out streaming storage = ground arith

rolls_over-eq :
    (log : SensorLog) (out : Bool)
    → rolls_over log out ≡ (if out then log.rollover_streaming else log.rollover_storage)
rolls_over-eq log true = refl
rolls_over-eq log false = refl

refused_store :
    (log : SensorLog) (s : DataStream) (r : IoTileReading)
    → Engine.push log.engine r ≡ err Error.storage_full_error
    → rolls_over log (Stream.output s) ≡ false
    → store log s r ≡ (err Error.storage_full_error, log)
unfolding store
refused_store log s r p stop = ground (
  arith,
  p,
  refuses-eq (Stream.output s) log.rollover_streaming log.rollover_storage,
  rolls_over-eq log (Stream.output s),
  stop,
)

pub rolling_store :
    (log : SensorLog) (s : DataStream) (r : IoTileReading)
    → Engine.push log.engine r ≡ err Error.storage_full_error
    → rolls_over log (Stream.output s) ≡ true
    → store log s r ≡ push_again log (Stream.output s) r
unfolding store
rolling_store log s r p rolls = ground (
  arith,
  p,
  refuses-eq (Stream.output s) log.rollover_streaming log.rollover_storage,
  rolls_over-eq log (Stream.output s),
  rolls,
)

-- A push of a packable buffered stream into a full area that does not roll over is refused with `StorageFullError`, and changes
-- nothing but the count of the calls of the id assigner.
pub push_refused :
    (log : SensorLog) (s : DataStream) (value : IoTileReading)
    → IsPackable s
    → Stream.buffered s ≡ true
    → length (chosen_buffer log.engine (area_of (Stream.output s)))
      ≡ limit log.engine (Stream.output s)
    → rolls_over log (Stream.output s) ≡ false
    → push log s value ≡ (
      err Error.storage_full_error,
      (assign_id log s (record value { stream = Stream.encode s })).1,
    )
unfolding push store assign_id
push_refused log s value packable b full stop =
    let r = stamped log s value in
    let id = stamped_stream log s value in
    let d : Stream.from_encoded r.stream ≡ s = rw id (from_encoded-encode s packable) in
    let p = full_push log.engine r s d full in ground (arith, refused_store log s r p stop, b)
