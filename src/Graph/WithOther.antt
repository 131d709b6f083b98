-- ===== src/Graph/WithOther.antt =====
-- Streamers that are triggered with another one, and the one that `check_streamers` leaves out.
use coretools.Prelude.{
  ℕ, suc, ◌+◌, ◌≡◌, refl, ℤ, pos, true, false, not, ◌&&◌, ◌||◌, ◌==◌, some, List, [], ◌∷◌, ◌++◌,
  inl, inr, Bool-cases, arith,
}
use coretools.Errors.{ok, Result-cases}
use coretools.SensorLog.{SensorLog}
use coretools.Streamer.{DataStreamer, triggered, has_data}
use coretools.Graph.{SensorGraph}
use coretools.Graph.Streamers.{
  is_in, is_marked, unmark, walker_of, is_with, with_others, check_from, check_streamers,
}

is_in-append : (k i : ℕ) (l : List ℕ) → is_in k (l ++ (i ∷ [])) ≡ (is_in k l || (i == k))
is_in-append k i [] = ground arith
is_in-append k i (j ∷ l) = ground (arith, is_in-append k i l)

unmarked-unmark :
    (k i : ℤ) (marks : List ℤ) → is_marked k marks ≡ false → is_marked k (unmark i marks) ≡ false
unmarked-unmark k i [] h = refl
unmarked-unmark k i (m ∷ marks) h = ground (arith, unmarked-unmark k i marks)

-- Streamer `i + i` of the streamers from number `n` on, if it is among them, is a manual one that is
-- triggered with streamer `i`.
abbrev pub AreWith : ℕ → ℕ → List DataStreamer → Type 0
AreWith i n [] = Unit
AreWith i n (s ∷ l) =
    (n ≡ i + i → (s.with_other ≡ some i) × (s.automatic ≡ false)) × AreWith i (suc n) l

module _ (log : SensorLog) (i : ℕ) where
  -- In the inner loop of streamer `k`, the streamer is not taken: its relative index is `i`, and `i` is
  -- selected.
  not_taken :
      (k j : ℕ) (s : DataStreamer) (selected : List ℕ)
      → (k + j ≡ i + i → (s.with_other ≡ some i) × (s.automatic ≡ false))
      → (k ≡ i → is_in i selected ≡ true)
      → (is_with k s && not (is_in j selected)) ≡ true
      → ((k + j) == (i + i)) ≡ false
  not_taken k j s selected h sel taken = ground arith

  with_others-keeps :
      (k j : ℕ) (l : List DataStreamer) (ready selected : List ℕ) (out : List ℕ × List ℕ)
      → AreWith i (k + j) l
      → (k ≡ i → is_in i selected ≡ true)
      → is_in (i + i) ready ≡ false
      → with_others log k j l ready selected ≡ ok out
      → is_in (i + i) (out.0) ≡ false
  unfolding with_others
  with_others-keeps k j [] ready selected out l sel h e = ground (arith, h, e)
  with_others-keeps k j (s ∷ l) ready selected out (w, ws) sel h e =
      let next : k + suc j ≡ suc (k + j) = omega arith in
      let ws' : AreWith i (k + suc j) l = rw next ws in
      elim (Bool-cases (is_with k s && not (is_in j selected))) [
        | inr f ↦ with_others-keeps k (suc j) l ready selected out ws' sel h (ground (arith, f, e))
        | inl t ↦ elim (Result-cases (triggered s (walker_of log s) true)) [
          | inr (x, u) ↦ absurd (ground (arith, t, u, e))
          | inl (false, u) ↦
              with_others-keeps k (suc j) l ready selected out ws' sel h (ground (arith, t, u, e))
          | inl (true, u) ↦
              with_others-keeps k (suc j) l (ready ++ ((k + j) ∷ [])) (j ∷ selected) out ws'
                (λ same. ground (arith, sel same))
                (ground
                  (arith, is_in-append (i + i) (k + j) ready, not_taken k j s selected w sel t))
                (ground (arith, t, u, e))
        ]
      ]

  -- In the outer loop, the streamer is not triggered.
  not_ready :
      (k : ℕ) (s : DataStreamer) (marks : List ℤ)
      → (k ≡ i + i → (s.with_other ≡ some i) × (s.automatic ≡ false))
      → is_marked (pos (i + i)) marks ≡ false
      → triggered s (walker_of log s) (is_marked (pos k) marks) ≡ ok true
      → (k == (i + i)) ≡ false
  unfolding triggered has_data
  not_ready k s marks w m e = ground arith

  check_from-keeps :
      (blacklist : List ℕ) (k : ℕ) (l : List DataStreamer) (ready selected : List ℕ)
      (marks : List ℤ) (out : List ℕ)
      → AreWith i k l
      → is_in (i + i) ready ≡ false
      → is_marked (pos (i + i)) marks ≡ false
      → (check_from log blacklist k l ready selected marks).0 ≡ ok out
      → is_in (i + i) out ≡ false
  unfolding check_from
  check_from-keeps blacklist k [] ready selected marks out l h m e = ground (arith, h, e)
  check_from-keeps blacklist k (s ∷ l) ready selected marks out (w, ws) h m e =
      let marks' = unmark (pos k) marks in
      let m' = unmarked-unmark (pos (i + i)) (pos k) marks m in
      elim (Bool-cases (is_in k blacklist || is_in k selected)) [
        | inl t ↦
            check_from-keeps blacklist (suc k) l ready selected marks out ws h m
              (ground (arith, t, e))
        | inr f ↦ elim (Result-cases (triggered s (walker_of log s) (is_marked (pos k) marks))) [
          | inr (x, u) ↦ absurd (ground (arith, f, u, e))
          | inl (false, u) ↦
              check_from-keeps blacklist (suc k) l ready selected marks' out ws h m'
                (ground (arith, f, u, e))
          | inl (true, u) ↦
              let none_yet : k + 0 ≡ k = omega arith in
              let from : AreWith i (k + 0) (s ∷ l) = rw none_yet (w, ws) in
              let self = not_ready k s marks w m u in
              let others = with_others log k 0 (s ∷ l) (ready ++ (k ∷ [])) (k ∷ selected) in
              elim (Result-cases others) [
                | inr (x, v) ↦ absurd (ground (arith, f, u, v, e))
                | inl ((ready', selected'), v) ↦
                    check_from-keeps blacklist (suc k) l ready' selected' marks' out ws
                      (with_others-keeps k 0 (s ∷ l) (ready ++ (k ∷ [])) (k ∷ selected)
                        (ready', selected') from (λ same. ground arith)
                        (ground (arith, is_in-append (i + i) k ready, self)) v)
                      m' (ground (arith, f, u, v, e))
              ]
        ]
      ]

-- A manual streamer with number `i + i` that is to be triggered with streamer `i` is never ready where
-- it is not marked, whether or not streamer `i` is triggered and it has data.
pub check_streamers_misses :
    (g : SensorGraph) (blacklist : List ℕ) (i : ℕ) (ready : List ℕ)
    → AreWith i 0 g.streamers
    → is_marked (pos (i + i)) g.manually_triggered ≡ false
    → (check_streamers g blacklist).0 ≡ ok ready
    → is_in (i + i) ready ≡ false
unfolding check_streamers
check_streamers_misses g blacklist i ready w m e =
    check_from-keeps g.sensor_log i blacklist 0 g.streamers [] [] g.manually_triggered ready w refl
      m e
