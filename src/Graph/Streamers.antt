-- ===== src/Graph/Streamers.antt =====
-- `mark_streamer` and `check_streamers` of `SensorGraph` (iotilesensorgraph/iotile/sg/graph.py). A
-- streamer is given by its place in the list of streamers.
use coretools.Prelude.{
  ℕ, suc, ◌+◌, ℤ, pos, Bool, true, false, ◌&&◌, ◌||◌, not, ◌==◌, eqb_ℤ, leb_ℤ, if◌then◌else◌,
  Option, none, some, List, [], ◌∷◌, ◌++◌, length,
}
use coretools.Errors.{Error, Result, ok, err}
use coretools.SensorLog.{SensorLog}
use coretools.SensorLog.Walkers.{walker_at}
use coretools.Walker.Any.{StreamWalker}
use coretools.Streamer.{DataStreamer, triggered}
use coretools.Graph.{SensorGraph}

abbrev pub is_in : ℕ → List ℕ → Bool
is_in i [] = false
is_in i (j ∷ l) = if j == i then true else is_in i l

abbrev pub is_marked : ℤ → List ℤ → Bool
is_marked i [] = false
is_marked i (j ∷ l) = if eqb_ℤ j i then true else is_marked i l

-- `s.remove(i)`.
abbrev pub unmark : ℤ → List ℤ → List ℤ
unmark i [] = []
unmark i (j ∷ l) = if eqb_ℤ j i then unmark i l else j ∷ unmark i l

-- `mark_streamer`; a negative index is not refused.
unfoldable pub mark_streamer : SensorGraph → ℤ → Result (Unit {0}) × SensorGraph
mark_streamer g index =
    if leb_ℤ (pos (length g.streamers)) index then (err Error.argument_error, g) else (
      ok tt,
      record g {
        manually_triggered =
            if is_marked index g.manually_triggered
            then g.manually_triggered
            else index ∷ g.manually_triggered;
      },
    )

-- The state of the walker that the streamer holds.
abbrev pub walker_of : SensorLog → DataStreamer → Option StreamWalker
walker_of log s = elim s.walker [ none ↦ none | some i ↦ walker_at log i ]

-- `streamer.with_other == i`.
abbrev pub is_with : ℕ → DataStreamer → Bool
is_with i s = elim s.with_other [ none ↦ false | some k ↦ k == i ]

-- The inner loop of `check_streamers` for the triggered streamer `i`, over the streamers from `i` on.
-- Its index `j` counts from 0, as `enumerate(self.streamers[i:])` does; the streamer it stands for is
-- the one at `i + j`.
unfoldable pub with_others :
    SensorLog → ℕ → ℕ → List DataStreamer → List ℕ → List ℕ → Result (List ℕ × List ℕ)
with_others log i j [] ready selected = ok (ready, selected)
with_others log i j (s ∷ l) ready selected = elim (is_with i s && not (is_in j selected)) [
  | false ↦ with_others log i (suc j) l ready selected
  | true ↦ elim (triggered s (walker_of log s) true) [
    | err x ↦ err x
    | ok false ↦ with_others log i (suc j) l ready selected
    | ok true ↦ with_others log i (suc j) l (ready ++ ((i + j) ∷ [])) (j ∷ selected)
  ]
]

-- The outer loop, at streamer `i`, with what is ready, selected and marked so far.
unfoldable pub check_from :
    SensorLog → List ℕ → ℕ → List DataStreamer → List ℕ → List ℕ → List ℤ → Result (List ℕ) × List ℤ
check_from log blacklist i [] ready selected marks = (ok ready, marks)
check_from log blacklist i (s ∷ l) ready selected marks =
    elim (is_in i blacklist || is_in i selected) [
      | true ↦ check_from log blacklist (suc i) l ready selected marks
      | false ↦ elim (triggered s (walker_of log s) (is_marked (pos i) marks)) [
        | err x ↦ (err x, unmark (pos i) marks)
        | ok false ↦ check_from log blacklist (suc i) l ready selected (unmark (pos i) marks)
        | ok true ↦ elim (with_others log i 0 (s ∷ l) (ready ++ (i ∷ [])) (i ∷ selected)) [
          | err x ↦ (err x, unmark (pos i) marks)
          | ok (ready', selected') ↦
              check_from log blacklist (suc i) l ready' selected' (unmark (pos i) marks)
        ]
      ]
    ]

-- `check_streamers`; no blacklist is an empty one.
unfoldable pub check_streamers : SensorGraph → List ℕ → Result (List ℕ) × SensorGraph
unfolding check_from
check_streamers g blacklist =
    let (ready, marks) =
      check_from g.sensor_log blacklist 0 g.streamers [] [] g.manually_triggered in
    (ready, record g { manually_triggered = marks })
