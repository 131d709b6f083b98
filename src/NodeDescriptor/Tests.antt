-- ===== src/NodeDescriptor/Tests.antt =====
-- The descriptor of a node with two inputs.
use coretools.Prelude.{ℕ, ◌≡◌, refl, pos, true, some, List, [], ◌∷◌, length, arith}
use coretools.Errors.{Error, ok, err}
use coretools.Stream
use coretools.Selector
use coretools.Samples.{buffered_one, buffered_one-IsPackable, select_one, select_constant}
use coretools.Node.{Trigger, Comparator, TriggerCombiner}
use coretools.NodeDescriptor.{
  Description, Processor, create_binary_descriptor, parse_binary_descriptor, create_binary_trigger,
}
use coretools.NodeDescriptor.RoundTrip.{created, parse-create_node_descriptor}

-- `(buffered 1 when count >= 258 || constant 1 always) => buffered 1 using copy_all_a`.
abbrev node : Description
node = record {
  stream = buffered_one;
  input_a = (
    select_one,
    Trigger.input (record { use_count = true; comparator = Comparator.ge; reference = pos 258 }),
  );
  input_b = some (TriggerCombiner.or_combiner, (select_constant, Trigger.true_trigger));
  processor = Processor.copy_all_a;
}

packed :
    created node
    ≡ ok (2 ∷ 1 ∷ 0 ∷ 0 ∷ 0 ∷ 0 ∷ 0 ∷ 0 ∷ 1 ∷ 0 ∷ 1 ∷ 0 ∷ 1 ∷ 32 ∷ 2 ∷ 5 ∷ 10 ∷ 1 ∷ 0 ∷ 0 ∷ [])
unfolding create_binary_descriptor Stream.encode Selector.encode
packed = refl

-- A trigger that never triggers has no code.
never : create_binary_trigger Trigger.false_trigger ≡ err Error.argument_error
unfolding create_binary_trigger
never = refl

parse-create_node_descriptor_example :
    (b : List ℕ) × (created node ≡ ok b) × (length b ≡ 20) × (parse_binary_descriptor b ≡ ok node)
parse-create_node_descriptor_example = parse-create_node_descriptor node (
  buffered_one-IsPackable,
  ((omega arith, omega arith, ground arith), omega arith, omega arith),
  ((omega arith, omega arith, ground arith), omega arith, tt),
)
