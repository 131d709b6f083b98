-- ===== src/Node/Tests.antt =====
-- A node of two inputs.
use coretools.Prelude.{◌≡◌, refl, pos, true, false, [], ◌∷◌}
use coretools.Errors.{ok}
use coretools.Samples.{buffered_one, r1, r2, r3, engine, walker, walker-InSync, counter_walker}
use coretools.Walker.Any.{StreamWalker}
use coretools.Node.{SgNode, Trigger, Comparator, TriggerCombiner, triggered}
use coretools.Node.Triggering.{any_condition, triggered-conditions}

-- `when count >= 2`, and `when value == 7`.
abbrev at_least_two : Trigger
at_least_two =
    Trigger.input (record { use_count = true; comparator = Comparator.ge; reference = pos 2 })

abbrev is_seven : Trigger
is_seven =
    Trigger.input (record { use_count = false; comparator = Comparator.eq; reference = pos 7 })

abbrev node : SgNode
node = record {
  inputs =
      (StreamWalker.buffered walker, at_least_two)
      ∷ (StreamWalker.counter counter_walker, is_seven)
      ∷ [];
  outputs = 4 ∷ [];
  stream = buffered_one;
  trigger_combiner = TriggerCombiner.or_combiner;
  max_outputs = 2;
}

triggered-conditions_example :
    triggered engine node ≡ ok (any_condition node.inputs ((r1 ∷ r3 ∷ []) ∷ (r2 ∷ r2 ∷ []) ∷ []))
triggered-conditions_example =
    triggered-conditions engine node ((r1 ∷ r3 ∷ []) ∷ (r2 ∷ r2 ∷ []) ∷ [])
      (walker-InSync, (refl, tt))
