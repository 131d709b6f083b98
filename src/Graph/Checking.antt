-- ===== src/Graph/Checking.antt =====
-- Which streamers `check_streamers` returns where no streamer is triggered with another.
use coretools.Prelude.{
  ℕ, suc, ◌+◌, ◌<◌, ◌≡◌, ◌≢◌, refl, ℤ, pos, Bool, false, not, ◌&&◌, ◌||◌, eqb_ℤ, ltb, leb,
  if◌then◌else◌, none, some, List, [], ◌∷◌, ◌++◌, length, ap, arith,
}
use coretools.Errors.{ok}
use coretools.SensorLog.{SensorLog}
use coretools.Walker.Any
use coretools.Streamer.{DataStreamer, triggered, has_data}
use coretools.Graph.{SensorGraph}
use coretools.Graph.Streamers.{
  is_in, is_marked, unmark, walker_of, with_others, check_from, check_streamers,
}

-- The streamer has a walker with a reading, and it is automatic or marked.
abbrev pub is_due : SensorLog → DataStreamer → Bool → Bool
is_due log s marked = elim (walker_of log s) [
  | none ↦ false
  | some w ↦ (s.automatic || marked) && ltb 0 (Any.count w)
]

-- The streamers from number `i` on that are not in the blacklist and are due.
abbrev pub due_from : SensorLog → List ℕ → List ℤ → ℕ → List DataStreamer → List ℕ
due_from log blacklist marks i [] = []
due_from log blacklist marks i (s ∷ l) =
    let rest = due_from log blacklist marks (suc i) l in
    if not (is_in i blacklist) && is_due log s (is_marked (pos i) marks) then i ∷ rest else rest

-- Every streamer has a walker of the log, and none is triggered with another.
abbrev pub AreAlone : SensorLog → List DataStreamer → Type 0
AreAlone log [] = Unit
AreAlone log (s ∷ l) = (walker_of log s ≢ none) × (s.with_other ≡ none) × AreAlone log l

triggered-is_due :
    (log : SensorLog) (s : DataStreamer) (marked : Bool)
    → walker_of log s ≢ none
    → triggered s (walker_of log s) marked ≡ ok (is_due log s marked)
unfolding triggered has_data
triggered-is_due log s marked h = ground (arith, h)

with_others-none :
    (log : SensorLog) (i j : ℕ) (l : List DataStreamer) (ready selected : List ℕ)
    → AreAlone log l
    → with_others log i j l ready selected ≡ ok (ready, selected)
unfolding with_others
with_others-none log i j [] ready selected h = refl
with_others-none log i j (s ∷ l) ready selected (_, alone, h) =
    rw alone (with_others-none log i (suc j) l ready selected h)

-- What is selected lies before the streamer that is checked.
abbrev AreBelow : ℕ → List ℕ → Type 0
AreBelow i [] = Unit
AreBelow i (j ∷ l) = (j < i) × AreBelow i l

not_in : (i : ℕ) (l : List ℕ) → AreBelow i l → is_in i l ≡ false
not_in i [] h = refl
not_in i (j ∷ l) (below, h) = ground (arith, not_in i l h)

AreBelow-suc : (i : ℕ) (l : List ℕ) → AreBelow i l → AreBelow (suc i) l
AreBelow-suc i [] h = tt
AreBelow-suc i (j ∷ l) (below, h) = (omega arith, AreBelow-suc i l h)

is_marked-unmark :
    (k i : ℤ) (marks : List ℤ)
    → is_marked k (unmark i marks) ≡ (is_marked k marks && not (eqb_ℤ i k))
is_marked-unmark k i [] = refl
is_marked-unmark k i (m ∷ marks) = ground (arith, is_marked-unmark k i marks)

-- Taking a mark away changes no streamer behind it.
due_from-unmark :
    (log : SensorLog) (blacklist : List ℕ) (marks : List ℤ) (k i : ℕ) (l : List DataStreamer)
    → k < i
    → due_from log blacklist (unmark (pos k) marks) i l ≡ due_from log blacklist marks i l
due_from-unmark log blacklist marks k i [] h = refl
due_from-unmark log blacklist marks k i (s ∷ l) h =
    let same_mark : is_marked (pos i) (unmark (pos k) marks) ≡ is_marked (pos i) marks =
      ground (arith, is_marked-unmark (pos i) (pos k) marks) in
    rw (same_mark, due_from-unmark log blacklist marks k (suc i) l (omega arith)) refl

append_one : (l q : List ℕ) (i : ℕ) → (l ++ (i ∷ [])) ++ q ≡ l ++ (i ∷ q)
append_one [] q i = refl
append_one (j ∷ l) q i = rw (append_one l q i) refl

append_nil : (l : List ℕ) → l ≡ l ++ []
append_nil [] = refl
append_nil (j ∷ l) = ap (λ q. j ∷ q) (append_nil l)

module _ (log : SensorLog) (blacklist : List ℕ) where
  -- One round of the outer loop, for a streamer that is not selected.
  check_from-cons :
      (i : ℕ) (s : DataStreamer) (l : List DataStreamer) (ready selected : List ℕ) (marks : List ℤ)
      → AreBelow i selected
      → AreAlone log (s ∷ l)
      → check_from log blacklist i (s ∷ l) ready selected marks ≡ (
          if is_in i blacklist
          then check_from log blacklist (suc i) l ready selected marks
          else if is_due log s (is_marked (pos i) marks)
          then check_from log blacklist
              (suc i)
              l
              (ready ++ (i ∷ []))
              (i ∷ selected)
              (unmark (pos i) marks)
          else check_from log blacklist (suc i) l ready selected (unmark (pos i) marks))
  unfolding check_from
  check_from-cons i s l ready selected marks below alone = ground (
    arith,
    not_in i selected below,
    triggered-is_due log s (is_marked (pos i) marks) (alone.0),
    with_others-none log i 0 (s ∷ l) (ready ++ (i ∷ [])) (i ∷ selected) alone,
  )

  -- Streamer `k` is one of the `n` from number `i` on, and is not in the blacklist.
  abbrev is_checked : ℕ → ℕ → ℕ → Bool
  is_checked i n k = leb i k && ltb k (i + n) && not (is_in k blacklist)

  check_from-due :
      (i : ℕ) (l : List DataStreamer) (ready selected : List ℕ) (marks : List ℤ)
      → AreBelow i selected
      → AreAlone log l
      → let (out, left) = check_from log blacklist i l ready selected marks in
        (out ≡ ok (ready ++ due_from log blacklist marks i l))
        × ((k : ℕ)
            → is_marked (pos k) left ≡ (is_marked (pos k) marks && not (is_checked i (length l) k)))
  unfolding check_from
  check_from-due i [] ready selected marks below alone =
      (ap ok (append_nil ready), λ k. ground arith)
  check_from-due i (s ∷ l) ready selected marks below (known, own, alone) =
      let below' = AreBelow-suc i selected below in
      let (skip, skip_left) = check_from-due (suc i) l ready selected marks below' alone in
      let (pass, pass_left) =
        check_from-due (suc i) l ready selected (unmark (pos i) marks) below' alone in
      let (join, join_left) =
        check_from-due (suc i) l (ready ++ (i ∷ [])) (i ∷ selected) (unmark (pos i) marks)
          (omega arith, below') alone in
      let round = check_from-cons i s l ready selected marks below (known, own, alone) in
      (
        ground (
          arith,
          round,
          skip,
          pass,
          join,
          due_from-unmark log blacklist marks i (suc i) l (omega arith),
          append_one ready (due_from log blacklist marks (suc i) l) i,
        ),
        λ k. ground (
          arith,
          round,
          skip_left k,
          pass_left k,
          join_left k,
          is_marked-unmark (pos k) (pos i) marks,
        ),
      )

-- Where every streamer has a walker and none is triggered with another, `check_streamers` returns, in
-- order, the streamers outside the blacklist that have data and are automatic or marked by hand. It
-- takes away the marks of the streamers outside the blacklist and keeps those of the others.
pub check_streamers-due :
    (g : SensorGraph) (blacklist : List ℕ)
    → AreAlone g.sensor_log g.streamers
    → let (out, g') = check_streamers g blacklist in
      (out ≡ ok (due_from g.sensor_log blacklist g.manually_triggered 0 g.streamers))
      × ((k : ℕ)
          → is_marked (pos k) g'.manually_triggered ≡ (
              is_marked (pos k) g.manually_triggered
              && not (ltb k (length g.streamers) && not (is_in k blacklist))))
unfolding check_streamers
check_streamers-due g blacklist alone =
    let (out, left) =
      check_from-due g.sensor_log blacklist 0 g.streamers [] [] g.manually_triggered tt alone in
    (out, λ k. ground (arith, left k))
