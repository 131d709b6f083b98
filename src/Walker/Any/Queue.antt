-- ===== src/Walker/Any/Queue.antt =====
-- Every walker but one on a constant stream is a queue of readings for the client that holds it.
use coretools.Prelude.{
  ℕ, zero, suc, ◌-◌, ◌≡◌, ◌≢◌, refl, ap, false, Option, none, some, List, [], ◌∷◌, length, arith,
  ◌==◌,
}
use coretools.Errors.{Error, Result, ok, err}
use coretools.Stream.{constant_type}
use coretools.Reading.{IoTileReading}
use coretools.Engine.{Engine}
use coretools.Walker.Buffered.Queue.{InSync, pop_refines}
use coretools.Walker.Buffered.Placed.{skip_all-InSync}
use coretools.Walker.Virtual
use coretools.Walker.Virtual.{VirtualStreamWalker}
use coretools.Walker.Counter
use coretools.Walker.Counter.{CounterStreamWalker}
use coretools.Walker.Any.{StreamWalker, buffered, virtual, counter, invalid, count, pop, skip_all}

-- The same reading some number of times.
abbrev pub copies : ℕ → IoTileReading → List IoTileReading
copies zero r = []
copies (suc n) r = r ∷ copies n r

abbrev pub at_most_one : Option IoTileReading → List IoTileReading
at_most_one none = []
at_most_one (some r) = r ∷ []

-- A counter walker that was never pushed to has nothing; else it has its last reading so many times.
abbrev pub HoldsCopies : Option IoTileReading → ℕ → List IoTileReading → Type 0
HoldsCopies none n q = (n ≡ 0) × (q ≡ [])
HoldsCopies (some r) n q = q ≡ copies n r

-- The walker holds the readings `q`, first one first.
abbrev pub Holds : Engine → StreamWalker → List IoTileReading → Type 0
Holds e (buffered w) q = InSync e w q
Holds e (virtual w) q = (w.selector.match_type ≢ constant_type) × (q ≡ at_most_one w.reading)
Holds e (counter w) q = HoldsCopies w.reading w.count q
Holds e (invalid s) q = q ≡ []

length-copies : (n : ℕ) (r : IoTileReading) → length (copies n r) ≡ n
length-copies zero r = refl
length-copies (suc n) r = ap suc (length-copies n r)

abbrev pub Taken :
    Engine → StreamWalker → List IoTileReading → Result IoTileReading × StreamWalker → Type 0
Taken e w [] out = out ≡ (err Error.stream_empty_error, w)
Taken e w (r ∷ q) out = (out.0 ≡ ok r) × Holds e out.1 q

length-at_most_one :
    (o : Option IoTileReading) → length (at_most_one o) ≡ (elim o [ none ↦ 0 | some _ ↦ 1 ])
length-at_most_one none = refl
length-at_most_one (some r) = refl

HoldsCopies-length :
    (o : Option IoTileReading) (n : ℕ) (q : List IoTileReading) → HoldsCopies o n q → n ≡ length q
HoldsCopies-length none n q h = ground arith
HoldsCopies-length (some r) n q h = rw (h, length-copies n r)

-- `count` is the number of readings that the walker holds.
pub count-Holds :
    (e : Engine) (w : StreamWalker) (q : List IoTileReading) → Holds e w q → count w ≡ length q
unfolding count Virtual.count
count-Holds e (buffered w) q h = h.counted
count-Holds e (virtual w) q h = ground (arith, length-at_most_one w.reading)
count-Holds e (counter w) q h = HoldsCopies-length w.reading w.count q h
count-Holds e (invalid s) q h = ground arith

virtual-Taken :
    (e : Engine) (w : VirtualStreamWalker) (q : List IoTileReading)
    → Holds e (virtual w) q
    → Taken e (virtual w) q (pop e (virtual w))
unfolding pop Virtual.pop
virtual-Taken e w [] h = ground arith
virtual-Taken e w (r ∷ q) h = ground arith

HoldsCopies-suc :
    (o : Option IoTileReading) (n : ℕ) (r : IoTileReading) (q : List IoTileReading)
    → HoldsCopies o n (r ∷ q)
    → (o ≡ some r) × ((n == 0) ≡ false) × HoldsCopies o (n - 1) q
HoldsCopies-suc none n r q h = cc
HoldsCopies-suc (some s) zero r q h = cc
HoldsCopies-suc (some s) (suc n) r q h =
    let e : suc n - 1 ≡ n = omega arith in (ground arith, ground arith, rw e (ground arith))

counter-Taken :
    (e : Engine) (w : CounterStreamWalker) (q : List IoTileReading)
    → Holds e (counter w) q
    → Taken e (counter w) q (pop e (counter w))
unfolding pop Counter.pop
counter-Taken e w [] h = ground (arith, HoldsCopies-length w.reading w.count [] h)
counter-Taken e w (r ∷ q) h =
    let (last, busy, rest) = HoldsCopies-suc w.reading w.count r q h in rw busy (ground arith, rest)

-- `pop` takes the first reading that the walker holds and leaves the others; where there is none it
-- raises `StreamEmptyError` and changes nothing.
pub pop-Holds :
    (e : Engine) (w : StreamWalker) (q : List IoTileReading) → Holds e w q → Taken e w q (pop e w)
unfolding pop
pop-Holds e (buffered w) [] h = ground (arith, pop_refines e w [] h)
pop-Holds e (buffered w) (r ∷ q) h = let p = pop_refines e w (r ∷ q) h in (p.0, p.1)
pop-Holds e (virtual w) q h = virtual-Taken e w q h
pop-Holds e (counter w) q h = counter-Taken e w q h
pop-Holds e (invalid s) [] h = refl
pop-Holds e (invalid s) (r ∷ q) h = cc

-- `skip_all` leaves the walker with no reading.
pub skip_all-Holds :
    (e : Engine) (w : StreamWalker) (q : List IoTileReading)
    → Holds e w q
    → Holds e (skip_all e w) []
unfolding skip_all Virtual.skip_all Counter.skip_all
skip_all-Holds e (buffered w) q h = skip_all-InSync e w h
skip_all-Holds e (virtual w) q h = ground arith
skip_all-Holds e (counter w) q h = skipped w.reading
  where
    skipped : (o : Option IoTileReading) → HoldsCopies o 0 []
    skipped none = (refl, refl)
    skipped (some r) = refl
skip_all-Holds e (invalid s) q h = refl
