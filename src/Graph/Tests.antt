-- ===== src/Graph/Tests.antt =====
-- A sensor graph with streamers on a concrete log.
use coretools.Prelude.{
  ◌≡◌, ◌≢◌, arith, refl, ◌&&◌, not, pos, true, false, none, some, ltb, [], ◌∷◌, ◌++◌, ℕ,
}
use coretools.Errors.{ok}
use coretools.Samples.{log, walker, read_walker, select_one}
use coretools.Selector
use coretools.Engine
use coretools.Walker.Buffered
use coretools.Slot.{SlotIdentifier}
use coretools.Walker.Any
use coretools.SensorLog.{create_walker}
use coretools.SensorLog.Walkers.{walker_at}
use coretools.Streamer.{DataStreamer, ReportFormat, ReportType, triggered, link, link_to_storage}
use coretools.Graph.{SensorGraph, init, add_streamer}
use coretools.Graph.Streamers.{check_streamers, with_others, walker_of, is_marked, is_in}
use coretools.Graph.Linking.{add_streamer-AreAlone}
use coretools.Graph.Checking.{AreAlone, check_streamers-due, due_from}
use coretools.Graph.WithOther.{check_streamers_misses}

abbrev controller : SlotIdentifier
controller = record { slot = none; controller = true }

-- A marked streamer on the log's walker, a manual one behind it, and an automatic one.
abbrev streamer : DataStreamer
streamer = record {
  selector = select_one;
  dest = controller;
  format = ReportFormat.hashedlist;
  automatic = false;
  report_type = ReportType.telegram;
  with_other = none;
  walker = some 0;
  index = some 0;
}

abbrev automatic : DataStreamer
automatic = record streamer { automatic = true }

abbrev with_second : DataStreamer
with_second = record streamer { with_other = some 1 }

abbrev graph : SensorGraph
graph = record (init log none) {
  streamers = streamer ∷ streamer ∷ automatic ∷ [];
  manually_triggered = pos 0 ∷ [];
}

-- The third streamer is to be triggered with the second.
abbrev linked : SensorGraph
linked = record graph {
  streamers = streamer ∷ automatic ∷ with_second ∷ [];
  manually_triggered = [];
}

ready : (check_streamers graph []).0 ≡ ok (0 ∷ 2 ∷ [])
unfolding check_streamers triggered walker_at init Any.count with_others
ready = refl

missed : (check_streamers linked []).0 ≡ ok (1 ∷ [])
unfolding check_streamers triggered walker_at init Any.count with_others
missed = refl

-- The fourth streamer is to be triggered with the first, and is.
followed :
    (check_streamers
      (record graph {
        streamers = automatic ∷ streamer ∷ record streamer { with_other = some 0 } ∷ [];
        manually_triggered = [];
      })
      []).0
    ≡ ok (0 ∷ 2 ∷ [])
unfolding check_streamers triggered walker_at init Any.count with_others
followed = refl

known : walker_of log streamer ≢ none
unfolding walker_at
known h = cc

check_streamers-due_example :
    let (out, g') = check_streamers graph (2 ∷ []) in
    (out ≡ ok (due_from log (2 ∷ []) (pos 0 ∷ []) 0 graph.streamers))
    × ((k : ℕ)
        → is_marked (pos k) g'.manually_triggered
          ≡ (is_marked (pos k) (pos 0 ∷ []) && not (ltb k 3 && not (is_in k (2 ∷ [])))))
unfolding init
check_streamers-due_example =
    check_streamers-due graph (2 ∷ []) ((known, refl, (known, refl, (known, refl, tt))))

check_streamers_misses_example : is_in 2 (1 ∷ []) ≡ false
check_streamers_misses_example =
    check_streamers_misses linked [] 1 (1 ∷ [])
      ((λ e. absurd (omega arith)), ((λ e. absurd (omega arith)), ((λ e. (refl, refl)), tt))) refl
      missed

-- The graph of one streamer, and another one that is not linked yet.
abbrev unlinked : DataStreamer
unlinked = record automatic { walker = none; index = none }

abbrev small : SensorGraph
small = record (init log none) { streamers = streamer ∷ [] }

abbrev grown : SensorGraph
grown = record small {
  sensor_log = record log { queue_walkers = (0, walker) ∷ (1, read_walker) ∷ []; next_walker = 2 };
  streamers = streamer ∷ record automatic { walker = some 1; index = some 1 } ∷ [];
}

joined : add_streamer small unlinked ≡ (ok tt, grown)
unfolding add_streamer init link_to_storage link create_walker Selector.buffered Buffered.init
    Selector.output Engine.count
joined = refl

add_streamer-AreAlone_example :
    (grown.streamers
      ≡ (streamer ∷ []) ++ ((record unlinked { walker = some 1; index = some 1 }) ∷ []))
    × AreAlone grown.sensor_log grown.streamers
unfolding init
add_streamer-AreAlone_example =
    add_streamer-AreAlone small grown unlinked refl refl (known, refl, tt) joined
