-- ===== src/Node/Triggering.antt =====
-- When the inputs of a node trigger, in terms of the readings that its walkers hold.
use coretools.Prelude.{
  ℕ, zero, suc, ◌≡◌, refl, pos, Bool, true, false, not, ◌&&◌, ◌||◌, ◌==◌, if◌then◌else◌, Option,
  none, some, List, [], ◌∷◌, length, arith,
}
use coretools.Errors.{Error, ok, err}
use coretools.Reading.{IoTileReading}
use coretools.Engine.{Engine}
use coretools.Walker.Virtual
use coretools.Walker.Counter
use coretools.Walker.Any
use coretools.Walker.Any.{StreamWalker}
use coretools.Walker.Any.Queue.{Holds, HoldsCopies, at_most_one, count-Holds}
use coretools.Walker.Buffered.Queue.{peek_refines}
use coretools.Node.{
  Trigger, TriggerCombiner, SgNode, comp_function, input_triggered, trigger_triggered, triggers,
  triggered, contains,
}

virtual_first :
    (o : Option IoTileReading) (r : IoTileReading) (q : List IoTileReading)
    → r ∷ q ≡ at_most_one o
    → (elim o [ none ↦ err Error.stream_empty_error | some reading ↦ ok reading ]) ≡ ok r
virtual_first none r q h = cc
virtual_first (some s) r q h = ground arith

counter_last :
    (o : Option IoTileReading) (n : ℕ) (r : IoTileReading) (q : List IoTileReading)
    → HoldsCopies o n (r ∷ q)
    → (o ≡ some r) × ((n == 0) ≡ false)
counter_last none n r q h = cc
counter_last (some s) zero r q h = cc
counter_last (some s) (suc n) r q h = (ground arith, ground arith)

-- `peek` of any walker returns the first reading it holds.
pub peek-Holds :
    (e : Engine) (w : StreamWalker) (r : IoTileReading) (q : List IoTileReading)
    → Holds e w (r ∷ q)
    → Any.peek e w ≡ ok r
unfolding Any.peek Virtual.peek Counter.peek
peek-Holds e (StreamWalker.buffered w) r q h = peek_refines e w (r ∷ q) h
peek-Holds e (StreamWalker.virtual w) r q h = virtual_first w.reading r q h.1
peek-Holds e (StreamWalker.counter w) r q h = ground (arith, counter_last w.reading w.count r q h)
peek-Holds e (StreamWalker.invalid s) r q h = cc

-- What a trigger says of the readings that its walker holds.
abbrev pub condition : Trigger → List IoTileReading → Bool
condition (Trigger.input t) [] =
    if t.use_count then comp_function t.comparator (pos 0) t.reference else false
condition (Trigger.input t) (r ∷ q) =
    if t.use_count
    then comp_function t.comparator (pos (suc (length q))) t.reference
    else comp_function t.comparator r.value t.reference
condition Trigger.false_trigger q = false
condition Trigger.true_trigger q = true

trigger-condition :
    (e : Engine) (t : Trigger) (w : StreamWalker) (q : List IoTileReading)
    → Holds e w q
    → trigger_triggered e t w ≡ ok (condition t q)
unfolding trigger_triggered input_triggered
trigger-condition e (Trigger.input t) w [] h = ground (arith, count-Holds e w [] h)
trigger-condition e (Trigger.input t) w (r ∷ q) h =
    ground (arith, count-Holds e w (r ∷ q) h, peek-Holds e w r q h)
trigger-condition e Trigger.false_trigger w q h = refl
trigger-condition e Trigger.true_trigger w q h = refl

-- Each input's walker holds the readings in its place of the list.
abbrev pub AllHold : Engine → List (StreamWalker × Trigger) → List (List IoTileReading) → Type 0
AllHold e [] [] = Unit
AllHold e ((w, t) ∷ inputs) (q ∷ qs) = Holds e w q × AllHold e inputs qs
AllHold e _ _ = ⊥

-- The conditions of all inputs, and of any.
abbrev pub all_conditions : List (StreamWalker × Trigger) → List (List IoTileReading) → Bool
all_conditions ((w, t) ∷ inputs) (q ∷ qs) = condition t q && all_conditions inputs qs
all_conditions _ _ = true

abbrev pub any_condition : List (StreamWalker × Trigger) → List (List IoTileReading) → Bool
any_condition ((w, t) ∷ inputs) (q ∷ qs) = condition t q || any_condition inputs qs
any_condition _ _ = false

triggers-conditions :
    (e : Engine) (inputs : List (StreamWalker × Trigger)) (qs : List (List IoTileReading))
    → AllHold e inputs qs
    → (trigs : List Bool) × (triggers e inputs ≡ ok trigs)
      × (not (contains false trigs) ≡ all_conditions inputs qs)
      × (contains true trigs ≡ any_condition inputs qs)
unfolding triggers
triggers-conditions e [] [] h = ([], refl, refl, refl)
triggers-conditions e ((w, t) ∷ inputs) (q ∷ qs) h =
    let (trigs, rest, every, some_one) = triggers-conditions e inputs qs h.1 in
    (
      condition t q ∷ trigs,
      ground (arith, trigger-condition e t w q h.0, rest),
      ground arith,
      ground arith,
    )
triggers-conditions e [] (q ∷ qs) h = elim h [ ]
triggers-conditions e ((w, t) ∷ inputs) [] h = elim h [ ]

-- A node whose walkers hold their readings is asked without an error, and triggers where all of its
-- inputs' conditions hold of these, or where one does if its combiner is the disjunction.
pub triggered-conditions :
    (e : Engine) (node : SgNode) (qs : List (List IoTileReading))
    → AllHold e node.inputs qs
    → triggered e node
      ≡ ok (elim node.trigger_combiner [
        | TriggerCombiner.and_combiner ↦ all_conditions node.inputs qs
        | TriggerCombiner.or_combiner ↦ any_condition node.inputs qs
      ])
unfolding triggered
triggered-conditions e node qs h =
    let (trigs, asked, every, some_one) = triggers-conditions e node.inputs qs h in
    ground (arith, asked, every, some_one)
