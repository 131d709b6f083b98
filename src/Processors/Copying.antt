-- ===== src/Processors/Copying.antt =====
-- What the copying functions return and leave behind, for inputs that hold readings.
use coretools.Prelude.{
  ℕ, zero, suc, ◌<◌, ◌≡◌, refl, pos, false, Option, none, some, List, [], ◌∷◌, length, arith,
}
use coretools.Errors.{Error, ok, err}
use coretools.Stream.{constant_type}
use coretools.Selector
use coretools.Selector.{DataStreamSelector}
use coretools.Reading.{IoTileReading, reading}
use coretools.Engine.{Engine}
use coretools.Walker.Virtual
use coretools.Walker.Virtual.{VirtualStreamWalker}
use coretools.Walker.Any
use coretools.Walker.Any.{StreamWalker, virtual}
use coretools.Walker.Any.Queue.{Holds, count-Holds, pop-Holds, skip_all-Holds}
use coretools.Processors.{
  drain, drain_last, rounds_for, copy_all_a, latest, copy_latest_a, copy_count_a, skip_inputs,
  one_or_none,
}

-- Each input holds the readings of its place in the list.
abbrev pub AllHold : Engine → List StreamWalker → List (List IoTileReading) → Type 0
AllHold e [] [] = Unit
AllHold e (w ∷ ws) (q ∷ qs) = Holds e w q × AllHold e ws qs
AllHold e _ _ = ⊥

abbrev pub AllEmpty : Engine → List StreamWalker → Type 0
AllEmpty e [] = Unit
AllEmpty e (w ∷ ws) = Holds e w [] × AllEmpty e ws

pub skip_inputs-AllEmpty :
    (e : Engine) (ws : List StreamWalker) (qs : List (List IoTileReading))
    → AllHold e ws qs
    → AllEmpty e (skip_inputs e ws)
skip_inputs-AllEmpty e [] [] h = tt
skip_inputs-AllEmpty e (w ∷ ws) (q ∷ qs) h =
    (skip_all-Holds e w q h.0, skip_inputs-AllEmpty e ws qs h.1)
skip_inputs-AllEmpty e [] (q ∷ qs) h = elim h [ ]
skip_inputs-AllEmpty e (w ∷ ws) [] h = elim h [ ]

drain_stop :
    (rounds : ℕ) (e : Engine) (w : StreamWalker)
    → Any.count w ≡ 0
    → drain (suc rounds) e w ≡ (ok [], w)
unfolding drain
drain_stop rounds e w h = ground arith

drain_step :
    (rounds : ℕ) (e : Engine) (w : StreamWalker) (r : IoTileReading) (l : List IoTileReading)
    → 0 < Any.count w
    → (Any.pop e w).0 ≡ ok r
    → (drain rounds e (Any.pop e w).1).0 ≡ ok l
    → drain (suc rounds) e w ≡ (ok (r ∷ l), (drain rounds e (Any.pop e w).1).1)
unfolding drain
drain_step rounds e w r l busy popped rest = ground arith

drain-Holds :
    (rounds : ℕ) (e : Engine) (w : StreamWalker) (q : List IoTileReading)
    → Holds e w q
    → length q < rounds
    → ((drain rounds e w).0 ≡ ok q) × Holds e (drain rounds e w).1 []
drain-Holds zero e w q h fuel = absurd (omega arith)
drain-Holds (suc rounds) e w [] h fuel = rw (drain_stop rounds e w (count-Holds e w [] h)) (refl, h)
drain-Holds (suc rounds) e w (r ∷ q) h fuel =
    let (popped, left) = pop-Holds e w (r ∷ q) h in
    let (rest, empty) = drain-Holds rounds e (Any.pop e w).1 q left (omega arith) in
    let busy : 0 < Any.count w = omega (arith, count-Holds e w (r ∷ q) h) in
    rw (drain_step rounds e w r q busy popped rest) (refl, empty)

-- The last reading of a list, or the given one if the list is empty.
abbrev pub last_or : Option IoTileReading → List IoTileReading → Option IoTileReading
last_or o [] = o
last_or o (r ∷ l) = last_or (some r) l

drain_last_stop :
    (rounds : ℕ) (e : Engine) (w : StreamWalker) (o : Option IoTileReading)
    → Any.count w ≡ 0
    → drain_last (suc rounds) e w o ≡ (ok o, w)
unfolding drain_last
drain_last_stop rounds e w o h = ground arith

drain_last_step :
    (rounds : ℕ) (e : Engine) (w : StreamWalker) (r : IoTileReading) (o : Option IoTileReading)
    → 0 < Any.count w
    → (Any.pop e w).0 ≡ ok r
    → drain_last (suc rounds) e w o ≡ drain_last rounds e (Any.pop e w).1 (some r)
unfolding drain_last
drain_last_step rounds e w r o busy popped = ground arith

drain_last-Holds :
    (rounds : ℕ) (e : Engine) (w : StreamWalker) (q : List IoTileReading) (o : Option IoTileReading)
    → Holds e w q
    → length q < rounds
    → ((drain_last rounds e w o).0 ≡ ok (last_or o q)) × Holds e (drain_last rounds e w o).1 []
drain_last-Holds zero e w q o h fuel = absurd (omega arith)
drain_last-Holds (suc rounds) e w [] o h fuel =
    rw (drain_last_stop rounds e w o (count-Holds e w [] h)) (refl, h)
drain_last-Holds (suc rounds) e w (r ∷ q) o h fuel =
    let (popped, left) = pop-Holds e w (r ∷ q) h in
    let busy : 0 < Any.count w = omega (arith, count-Holds e w (r ∷ q) h) in
    rw (drain_last_step rounds e w r o busy popped)
      (drain_last-Holds rounds e (Any.pop e w).1 q (some r) left (omega arith))

-- `copy_all_a` returns all readings of its first input, in order, and leaves every input empty.
pub copy_all_a_lem :
    (e : Engine) (a : StreamWalker) (others : List StreamWalker) (q : List IoTileReading)
    (qs : List (List IoTileReading))
    → Holds e a q
    → AllHold e others qs
    → ((copy_all_a e a others).0 ≡ ok q) × AllEmpty e (copy_all_a e a others).1
unfolding copy_all_a
copy_all_a_lem e a others q qs h hs =
    let fuel : length q < rounds_for a = omega (arith, count-Holds e a q h) in
    let (output, empty) = drain-Holds (rounds_for a) e a q h fuel in
    let run : copy_all_a e a others ≡ (ok q, (drain (rounds_for a) e a).1 ∷ skip_inputs e others) =
      ground (arith, output) in
    rw run (refl, (empty, skip_inputs-AllEmpty e others qs hs))

-- A walker whose selector is exhaustible, and holds readings.
abbrev pub IsExhaustible : StreamWalker → Type 0
IsExhaustible w =
    (s : DataStreamSelector) × (Any.selector w ≡ some s) × (Selector.inexhaustible s ≡ false)

-- `copy_latest_a` on an exhaustible first input returns the last of its readings, or nothing if it has
-- none, and leaves every input empty.
pub copy_latest_a_lem :
    (e : Engine) (a : StreamWalker) (others : List StreamWalker) (q : List IoTileReading)
    (qs : List (List IoTileReading))
    → IsExhaustible a
    → Holds e a q
    → AllHold e others qs
    → ((copy_latest_a e a others).0 ≡ ok (one_or_none (last_or none q)))
      × AllEmpty e (copy_latest_a e a others).1
unfolding copy_latest_a latest
copy_latest_a_lem e a others q qs (s, sel, exhaustible) h hs =
    let fuel : length q < rounds_for a = omega (arith, count-Holds e a q h) in
    let (output, empty) = drain_last-Holds (rounds_for a) e a q none h fuel in
    let run : copy_latest_a e a others ≡ (
      ok (one_or_none (last_or none q)),
      (drain_last (rounds_for a) e a none).1 ∷ skip_inputs e others,
    ) =
      ground (arith, sel, exhaustible, output) in
    rw run (refl, (empty, skip_inputs-AllEmpty e others qs hs))

-- `copy_count_a` returns one reading, whose value is the number of readings of its first input, and
-- leaves every input empty.
pub copy_count_a_lem :
    (e : Engine) (a : StreamWalker) (others : List StreamWalker) (q : List IoTileReading)
    (qs : List (List IoTileReading))
    → Holds e a q
    → AllHold e others qs
    → ((copy_count_a e a others).0 ≡ ok (reading 0 0 (pos (length q)) ∷ []))
      × AllEmpty e (copy_count_a e a others).1
unfolding copy_count_a
copy_count_a_lem e a others q qs h hs =
    (rw (count-Holds e a q h), skip_inputs-AllEmpty e (a ∷ others) (q ∷ qs) (h, hs))

-- On a constant stream that has its value `copy_latest_a` returns that value, and leaves the first
-- input with it for the next call.
pub copy_latest_a_constant :
    (e : Engine) (w : VirtualStreamWalker) (r : IoTileReading) (others : List StreamWalker)
    → w.selector.match_type ≡ constant_type
    → w.reading ≡ some r
    → copy_latest_a e (virtual w) others ≡ (ok (r ∷ []), virtual w ∷ skip_inputs e others)
unfolding copy_latest_a latest Selector.inexhaustible Any.pop Virtual.pop
copy_latest_a_constant e w r others c h = ground arith

-- The loop of `copy_all_a` never ends on a constant stream that has its value: no number of rounds is
-- enough.
pub drain_constant_diverges :
    (rounds : ℕ) (e : Engine) (w : VirtualStreamWalker) (r : IoTileReading)
    → w.selector.match_type ≡ constant_type
    → w.reading ≡ some r
    → (drain rounds e (virtual w)).0 ≡ err Error.diverged
unfolding drain Any.count Any.pop Virtual.count Virtual.pop
drain_constant_diverges zero e w r c h = refl
drain_constant_diverges (suc rounds) e w r c h =
    ground (arith, drain_constant_diverges rounds e w r c h)
