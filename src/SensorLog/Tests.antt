-- ===== src/SensorLog/Tests.antt =====
-- Pushes to a small log.
use coretools.Prelude.{◌≤◌, ◌≡◌, ◌++◌, refl, true, false, List, [], ◌∷◌, length, filter_by, arith}
use coretools.Errors.{Error, ok, err}
use coretools.Reading.{IoTileReading}
use coretools.Stream
use coretools.Stream.{DataStream}
use coretools.Selector
use coretools.Selector.{DataStreamSelector, MatchSpec}
use coretools.Engine.{chosen_buffer}
use coretools.Engine.Buffers.{area_of, reads}
use coretools.Samples.{
  buffered_one, select_one, select_all, r1, r2, r3, engine, full_engine, walker, read_walker,
  walker-InSync, buffered_one-IsPackable, log, full_log,
}
use coretools.SensorLog
use coretools.SensorLog.{SensorLog}
use coretools.SensorLog.Push.{push, inspect_last, assign_id}
use coretools.SensorLog.Sync.{AllInSync, create_walker-AllInSync}
use coretools.SensorLog.Room.{arrived, stamped, HasRoom, push-AllInSync}
use coretools.SensorLog.Full.{limit, rolls_over, push_refused}
use coretools.SensorLog.Rollover.{push-rolls_over}
use coretools.SensorLog.CaughtUp.{push_stops_at_caught_up}

one_buffered : Stream.buffered buffered_one ≡ true
unfolding Stream.buffered
one_buffered = refl

has_room : HasRoom engine (Stream.output buffered_one)
unfolding Stream.output
has_room = omega arith

push-AllInSync_example :
    let (out, log') = push log buffered_one r2 in
    (out ≡ ok tt)
    × (chosen_buffer log'.engine (area_of (Stream.output buffered_one))
        ≡ chosen_buffer engine (area_of (Stream.output buffered_one))
          ++ (stamped log buffered_one r2 ∷ []))
    × AllInSync log'.engine log'.queue_walkers
        (arrived (stamped log buffered_one r2) ((0, walker) ∷ []) ((r1 ∷ r3 ∷ []) ∷ []))
    × (inspect_last log' buffered_one false ≡ ok (stamped log buffered_one r2))
push-AllInSync_example =
    push-AllInSync log buffered_one r2 ((r1 ∷ r3 ∷ []) ∷ []) buffered_one-IsPackable one_buffered
      has_room (walker-InSync, tt)

all_buffered : Selector.buffered select_all ≡ true
unfolding Selector.buffered
all_buffered = refl

create_walker-AllInSync_example :
    (log' : SensorLog) × (SensorLog.create_walker log select_all false ≡ ok (1, log'))
    × (log'.engine ≡ engine)
    × AllInSync log'.engine log'.queue_walkers (
        (r1 ∷ r3 ∷ [])
        ∷ filter_by (reads select_all) (chosen_buffer engine (area_of (Selector.output select_all)))
        ∷ [])
create_walker-AllInSync_example =
    create_walker-AllInSync log select_all false ((r1 ∷ r3 ∷ []) ∷ []) all_buffered
      (walker-InSync, tt)

abbrev stopping_log : SensorLog
stopping_log = record full_log { rollover_storage = false }

is_full :
    length (chosen_buffer full_engine (area_of (Stream.output buffered_one)))
    ≡ limit full_engine (Stream.output buffered_one)
unfolding Stream.output
is_full = refl

stops : rolls_over stopping_log (Stream.output buffered_one) ≡ false
unfolding Stream.output
stops = refl

rolls : rolls_over full_log (Stream.output buffered_one) ≡ true
unfolding Stream.output
rolls = refl

two_fit : 2 ≤ limit full_engine (Stream.output buffered_one)
unfolding Stream.output
two_fit = omega arith

push_refused_example : push stopping_log buffered_one r2 ≡ (
  err Error.storage_full_error,
  (assign_id stopping_log buffered_one (record r2 { stream = Stream.encode buffered_one })).1,
)
push_refused_example =
    push_refused stopping_log buffered_one r2 buffered_one-IsPackable one_buffered is_full stops

push-rolls_over_example :
    let (out, log') = push full_log buffered_one r2 in
    (out ≡ ok tt)
    × (log'.queue_walkers ≡ [])
    × ((old : List IoTileReading) × (rest : List IoTileReading) × (old ++ rest
          ≡ chosen_buffer full_engine (area_of (Stream.output buffered_one)))
        × (length old ≡ 2)
        × (chosen_buffer log'.engine (area_of (Stream.output buffered_one))
            ≡ rest ++ (stamped full_log buffered_one r2 ∷ [])))
push-rolls_over_example =
    push-rolls_over full_log buffered_one r2 buffered_one-IsPackable one_buffered is_full rolls
      (omega arith) two_fit tt

-- The full log with the walker that has read all of it.
abbrev read_log : SensorLog
read_log = record full_log { queue_walkers = (0, read_walker) ∷ [] }

same_area : Selector.output select_one ≡ Stream.output buffered_one
unfolding Selector.output Stream.output
same_area = refl

oldest : chosen_buffer full_engine (area_of (Stream.output buffered_one)) ≡ r1 ∷ r2 ∷ r3 ∷ []
unfolding Stream.output
oldest = refl

reads_oldest : reads select_one r1 ≡ true
unfolding Selector.matches Stream.from_encoded
reads_oldest = refl

push_stops_at_caught_up_example :
    let (out, log') = push read_log buffered_one r2 in
    (out ≡ err Error.internal_error)
    × ((old : List IoTileReading) × (length old ≡ 2)
        × (old ++ chosen_buffer log'.engine (area_of (Stream.output buffered_one))
            ≡ r1 ∷ r2 ∷ r3 ∷ []))
push_stops_at_caught_up_example =
    push_stops_at_caught_up read_log buffered_one r2 r1 (r2 ∷ r3 ∷ []) 0 read_walker []
      buffered_one-IsPackable one_buffered is_full rolls (omega arith) two_fit refl same_area refl
      oldest reads_oldest
