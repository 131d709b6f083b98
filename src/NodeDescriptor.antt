-- ===== src/NodeDescriptor.antt =====
-- The packed descriptor of a graph node: `create_binary_descriptor` and `parse_binary_descriptor` of
-- iotilesensorgraph/iotile/sg/node_descriptor.py. The first is given what `parse_node_descriptor` makes
-- of its string; the second returns the parts of its string. The bytes are given as a list of numbers.
pub mod Triggers
pub mod RoundTrip
mod Tests
use coretools.Prelude.{
  ℕ, ◌+◌, ◌-◌, ◌*◌, ◌/◌, ◌%◌, ◌^◌, ℤ, pos, negsuc, Bool, true, false, ◌&&◌, ◌==◌, ltb, ◌<<◌, ◌>>◌,
  bit_and, bit_or, if◌then◌else◌, Option, none, some, List, [], ◌∷◌, ◌++◌,
}
use coretools.Errors.{Error, Result, ok, err, ◌>>=◌}
use coretools.Stream
use coretools.Stream.{DataStream}
use coretools.Selector
use coretools.Selector.{DataStreamSelector}
use coretools.Node.{Trigger, InputTrigger, Comparator, TriggerCombiner}

-- The functions of `func_names`.
pub data Processor : Type 0 where
  copy_latest_a average_a copy_all_a sum_a copy_count_a trigger_streamer call_rpc subtract_afromb :
      Processor

abbrev pub func_code : Processor → ℕ
func_code Processor.copy_latest_a = 0
func_code Processor.average_a = 1
func_code Processor.copy_all_a = 2
func_code Processor.sum_a = 3
func_code Processor.copy_count_a = 4
func_code Processor.trigger_streamer = 5
func_code Processor.call_rpc = 6
func_code Processor.subtract_afromb = 7

abbrev pub func_name : ℕ → Result Processor
func_name code =
    if code == 0
    then ok Processor.copy_latest_a
    else if code == 1
    then ok Processor.average_a
    else if code == 2
    then ok Processor.copy_all_a
    else if code == 3
    then ok Processor.sum_a
    else if code == 4
    then ok Processor.copy_count_a
    else if code == 5
    then ok Processor.trigger_streamer
    else if code == 6
    then ok Processor.call_rpc
    else if code == 7
    then ok Processor.subtract_afromb
    else err Error.argument_error

-- The codes of `ops`; 5 stands for the operation `always`.
abbrev pub op_code : Comparator → ℕ
op_code Comparator.gt = 0
op_code Comparator.lt = 1
op_code Comparator.ge = 2
op_code Comparator.le = 3
op_code Comparator.eq = 4

-- `_create_binary_trigger`.
unfoldable pub create_binary_trigger : Trigger → Result ℕ
create_binary_trigger Trigger.true_trigger = ok (bit_or (5 << 1) 0)
create_binary_trigger Trigger.false_trigger = err Error.argument_error
create_binary_trigger (Trigger.input t) =
    ok (bit_or (op_code t.comparator << 1) (if t.use_count then 1 else 0))

abbrev compare_with : Comparator → ℕ → ℕ → Result Trigger
compare_with comparator value source = ok (
    Trigger.input
      (record { use_count = source == 1; comparator = comparator; reference = pos value }))

-- `_process_binary_trigger`; the one bit of the source is always known.
unfoldable pub process_binary_trigger : ℕ → ℕ → Result Trigger
process_binary_trigger value condition =
    let source = bit_and condition 0b1 in
    let op = condition >> 1 in
    if op == 0
    then compare_with Comparator.gt value source
    else if op == 1
    then compare_with Comparator.lt value source
    else if op == 2
    then compare_with Comparator.ge value source
    else if op == 3
    then compare_with Comparator.le value source
    else if op == 4
    then compare_with Comparator.eq value source
    else if op == 5
    then ok Trigger.true_trigger
    else err Error.argument_error

-- The reference that is packed for a trigger.
abbrev pub reference_of : Trigger → ℤ
reference_of (Trigger.input t) = t.reference
reference_of _ = pos 0

-- `struct.pack("<L", n)` and `struct.pack("<H", n)`; a number out of range raises `struct.error`.
unfoldable pub pack_long : ℤ → Result (List ℕ)
pack_long (negsuc n) = err Error.struct_error
pack_long (pos n) =
    if ltb n (2 ^ 32)
    then ok (n % 256 ∷ n / 256 % 256 ∷ n / 65536 % 256 ∷ n / 16777216 ∷ [])
    else err Error.struct_error

unfoldable pub pack_short : ℕ → Result (List ℕ)
pack_short n = if ltb n 65536 then ok (n % 256 ∷ n / 256 ∷ []) else err Error.struct_error

abbrev pub combiner_code : TriggerCombiner → ℕ
combiner_code TriggerCombiner.and_combiner = 0
combiner_code TriggerCombiner.or_combiner = 1

abbrev or_true : Option Trigger → Trigger
or_true none = Trigger.true_trigger
or_true (some t) = t

-- The packing of a node, with the encoded second selector and its trigger.
unfoldable pub pack_node :
    DataStream → TriggerCombiner → ℕ → Trigger → ℕ → Trigger → Processor → Result (List ℕ)
unfolding create_binary_trigger pack_long pack_short
pack_node stream comb stream_a trigger_a stream_b trigger_b processor =
    create_binary_trigger trigger_a >>= λ cond_a. create_binary_trigger trigger_b >>= λ cond_b.
    pack_long (reference_of trigger_a) >>= λ ref_a. pack_long (reference_of trigger_b) >>= λ ref_b.
    pack_short (Stream.encode stream) >>= λ node_stream. pack_short stream_a >>= λ a.
    pack_short stream_b >>= λ b. ok (
      ref_a
      ++ (ref_b
          ++ (node_stream
              ++ (a
                  ++ (b
                      ++ (func_code processor
                          ∷ cond_a
                          ∷ cond_b
                          ∷ combiner_code comb
                          ∷ 0
                          ∷ 0
                          ∷ []))))))

-- The stream, the combiner, the inputs and the processing function of the string; a function that has
-- no code is `none`.
unfoldable pub create_binary_descriptor :
    DataStream
    → TriggerCombiner
    → List (DataStreamSelector × Option Trigger)
    → Option Processor
    → Result (List ℕ)
unfolding pack_node
create_binary_descriptor stream comb inputs none = err Error.argument_error
create_binary_descriptor stream comb [] (some processor) = err Error.index_error
create_binary_descriptor stream comb ((a, t) ∷ (b, u) ∷ []) (some processor) =
    pack_node stream comb (Selector.encode a) (or_true t) (Selector.encode b) (or_true u) processor
create_binary_descriptor stream comb ((a, t) ∷ _) (some processor) =
    pack_node stream comb (Selector.encode a) (or_true t) 0xFFFF Trigger.true_trigger processor

-- What the string of `parse_binary_descriptor` says; the combiner stands before the second input.
pub record Description : Type 0 where
  pub stream : DataStream
  pub input_a : DataStreamSelector × Trigger
  pub input_b : Option (TriggerCombiner × (DataStreamSelector × Trigger))
  pub processor : Processor

abbrev pub combiner_from : ℕ → Result TriggerCombiner
combiner_from code =
    if code == 0
    then ok TriggerCombiner.and_combiner
    else if code == 1
    then ok TriggerCombiner.or_combiner
    else err Error.argument_error

unfoldable pub second_input : ℕ → ℕ → ℕ → Result (Option (DataStreamSelector × Trigger))
unfolding process_binary_trigger
second_input b_id b_trig b_cond =
    if b_id == 0xFFFF
    then ok none
    else Selector.from_encoded b_id >>= λ selector.
        process_binary_trigger b_trig b_cond >>= λ trigger. ok (some (selector, trigger))

abbrev with_combiner :
    TriggerCombiner
    → Option (DataStreamSelector × Trigger)
    → Option (TriggerCombiner × (DataStreamSelector × Trigger))
with_combiner comb none = none
with_combiner comb (some input) = some (comb, input)

-- The part of `parse_binary_descriptor` behind the unpacking.
unfoldable pub parse_fields : ℕ → ℕ → ℕ → ℕ → ℕ → ℕ → ℕ → ℕ → ℕ → Result Description
unfolding second_input process_binary_trigger
parse_fields a_trig b_trig stream_id a_id b_id proc a_cond b_cond trig_combiner =
    if a_id == 0xFFFF
    then err Error.argument_error
    else Selector.from_encoded a_id >>= λ a_selector.
        process_binary_trigger a_trig a_cond >>= λ a_trigger.
        second_input b_id b_trig b_cond >>= λ input_b. combiner_from trig_combiner >>= λ comb.
        func_name proc >>= λ processor. ok (record {
          stream = Stream.from_encoded stream_id;
          input_a = (a_selector, a_trigger);
          input_b = with_combiner comb input_b;
          processor = processor;
        })

abbrev pub short : ℕ → ℕ → ℕ
short a b = a + b * 256

abbrev pub long : ℕ → ℕ → ℕ → ℕ → ℕ
long a b c d = a + b * 256 + c * 65536 + d * 16777216

-- "<LLHHHBBBB2x" takes 20 bytes, and its last two are not read.
unfoldable pub parse_binary_descriptor : List ℕ → Result Description
unfolding parse_fields
parse_binary_descriptor
      (a ∷ b ∷ c ∷ d ∷ e ∷ f ∷ g ∷ h ∷ i ∷ j ∷ k ∷ l ∷ m ∷ n ∷ proc ∷ a_cond ∷ b_cond ∷ comb ∷ _ ∷ _
        ∷ []) =
    parse_fields (long a b c d) (long e f g h) (short i j) (short k l) (short m n) proc a_cond
      b_cond comb
parse_binary_descriptor _ = err Error.argument_error
