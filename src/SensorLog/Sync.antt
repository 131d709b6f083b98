-- ===== src/SensorLog/Sync.antt =====
-- The buffered walkers of a sensor log as queues, and the operations that make or empty them.
use coretools.Prelude.{
  ℕ, ◌+◌, ◌≡◌, refl, Bool, true, false, if◌then◌else◌, List, [], ◌∷◌, ◌++◌, map, filter_by, arith,
}
use coretools.Errors.{Error, ok, err}
use coretools.Stream.{DataStream}
use coretools.Selector
use coretools.Selector.{DataStreamSelector}
use coretools.Reading.{IoTileReading}
use coretools.Engine
use coretools.Engine.{Engine, Area, chosen_buffer}
use coretools.Engine.Buffers.{area_of, reads}
use coretools.Walker.Buffered
use coretools.Walker.Buffered.{BufferedStreamWalker}
use coretools.Walker.Buffered.Queue.{InSync}
use coretools.Walker.Buffered.Placed.{skip_all-InSync, init-InSync}
use coretools.SensorLog.{SensorLog, clear, count, create_walker}
use coretools.SensorLog.Assoc.{lookup}
use coretools.SensorLog.Push.{inspect_last}

-- Each walker is in sync with the queue in its place of the list.
abbrev pub AllInSync : Engine → List (ℕ × BufferedStreamWalker) → List (List IoTileReading) → Type 0
AllInSync e [] [] = Unit
AllInSync e ((i, w) ∷ ws) (q ∷ qs) = InSync e w q × AllInSync e ws qs
AllInSync e _ _ = ⊥

map-skip_all-AllInSync :
    (e : Engine) (ws : List (ℕ × BufferedStreamWalker)) (qs : List (List IoTileReading))
    (e' : Engine)
    → AllInSync e ws qs
    → AllInSync e' (map (λ w. (w.0, Buffered.skip_all e' w.1)) ws) (map (λ q. []) qs)
map-skip_all-AllInSync e [] [] e' h = tt
map-skip_all-AllInSync e ((i, w) ∷ ws) (q ∷ qs) e' h =
    (skip_all-InSync e' w h.0, map-skip_all-AllInSync e ws qs e' h.1)
map-skip_all-AllInSync e [] (q ∷ qs) e' h = elim h [ ]
map-skip_all-AllInSync e ((i, w) ∷ ws) [] e' h = elim h [ ]

-- `clear` leaves both areas and every queue empty, and no last value.
pub clear-AllInSync :
    (log : SensorLog) (qs : List (List IoTileReading)) (s : DataStream)
    → AllInSync log.engine log.queue_walkers qs
    → let log' = clear log in
      (count log' ≡ (0, 0))
      × AllInSync log'.engine log'.queue_walkers (map (λ q. []) qs)
      × (inspect_last log' s false ≡ err Error.stream_empty_error)
unfolding clear count Engine.clear Engine.count inspect_last lookup
clear-AllInSync log qs s h =
    (refl, map-skip_all-AllInSync log.engine log.queue_walkers qs (Engine.clear log.engine) h, refl)

snoc-AllInSync :
    (e : Engine) (ws : List (ℕ × BufferedStreamWalker)) (qs : List (List IoTileReading)) (i : ℕ)
    (w : BufferedStreamWalker) (q : List IoTileReading)
    → AllInSync e ws qs
    → InSync e w q
    → AllInSync e (ws ++ ((i, w) ∷ [])) (qs ++ (q ∷ []))
snoc-AllInSync e [] [] i w q h k = (k, tt)
snoc-AllInSync e ((j, v) ∷ ws) (p ∷ qs) i w q h k = (h.0, snoc-AllInSync e ws qs i w q h.1 k)
snoc-AllInSync e [] (p ∷ qs) i w q h k = elim h [ ]
snoc-AllInSync e ((j, v) ∷ ws) [] i w q h k = elim h [ ]

-- A new walker of a buffered selector joins the walkers in sync: it holds what is stored for its
-- selector, or nothing if it skips all.
pub create_walker-AllInSync :
    (log : SensorLog) (selector : DataStreamSelector) (skip : Bool) (qs : List (List IoTileReading))
    → Selector.buffered selector ≡ true
    → AllInSync log.engine log.queue_walkers qs
    → (log' : SensorLog) × (create_walker log selector skip ≡ ok (log.next_walker, log'))
      × (log'.engine ≡ log.engine)
      × AllInSync log'.engine log'.queue_walkers (
          qs
          ++ ((if skip
                then []
                else filter_by
                    (reads selector)
                    (chosen_buffer log.engine (area_of (Selector.output selector))))
              ∷ []))
unfolding create_walker
create_walker-AllInSync log selector skip qs b h =
    let (w, made, sync, _) = init-InSync selector log.engine skip b in
    let log' = record log {
      queue_walkers = log.queue_walkers ++ ((log.next_walker, w) ∷ []);
      next_walker = log.next_walker + 1;
    } in
    (
      log',
      ground (arith, made, b),
      refl,
      snoc-AllInSync log.engine log.queue_walkers qs log.next_walker w _ h sync,
    )
