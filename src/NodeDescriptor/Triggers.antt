-- ===== src/NodeDescriptor/Triggers.antt =====
-- A trigger is read back from its packed form, and a number from its bytes.
use coretools.Prelude.{
  ℕ, ◌/◌, ◌%◌, ◌^◌, ◌<◌, ◌≡◌, refl, ℤ, pos, negsuc, Bool, true, false, ◌<<◌, bit_or, if◌then◌else◌,
  [], ◌∷◌, arith,
}
use coretools.Errors.{ok}
use coretools.Node.{Trigger, Comparator, TriggerCombiner}
use coretools.NodeDescriptor.{
  Processor, func_code, func_name, op_code, create_binary_trigger, process_binary_trigger,
  reference_of, pack_long, pack_short, combiner_code, combiner_from, short, long,
}

pub func_name-func_code : (p : Processor) → func_name (func_code p) ≡ ok p
func_name-func_code Processor.copy_latest_a = refl
func_name-func_code Processor.average_a = refl
func_name-func_code Processor.copy_all_a = refl
func_name-func_code Processor.sum_a = refl
func_name-func_code Processor.copy_count_a = refl
func_name-func_code Processor.trigger_streamer = refl
func_name-func_code Processor.call_rpc = refl
func_name-func_code Processor.subtract_afromb = refl

pub combiner_from-combiner_code : (c : TriggerCombiner) → combiner_from (combiner_code c) ≡ ok c
combiner_from-combiner_code TriggerCombiner.and_combiner = refl
combiner_from-combiner_code TriggerCombiner.or_combiner = refl

-- The trigger compares with an unsigned number of 32 bits, or always triggers.
abbrev pub HasReference : ℤ → Type 0
HasReference (pos n) = n < 2 ^ 32
HasReference _ = ⊥

abbrev pub IsPackable : Trigger → Type 0
IsPackable (Trigger.input t) = HasReference t.reference
IsPackable Trigger.true_trigger = Unit
IsPackable Trigger.false_trigger = ⊥

condition :
    (c : Comparator) (use_count : Bool) (n : ℕ)
    → process_binary_trigger n (bit_or (op_code c << 1) (if use_count then 1 else 0))
      ≡ ok (Trigger.input (record { use_count = use_count; comparator = c; reference = pos n }))
unfolding process_binary_trigger
condition Comparator.gt true n = refl
condition Comparator.gt false n = refl
condition Comparator.lt true n = refl
condition Comparator.lt false n = refl
condition Comparator.ge true n = refl
condition Comparator.ge false n = refl
condition Comparator.le true n = refl
condition Comparator.le false n = refl
condition Comparator.eq true n = refl
condition Comparator.eq false n = refl

unsigned : (r : ℤ) → HasReference r → (n : ℕ) × (r ≡ pos n) × (n < 2 ^ 32)
unsigned (pos n) h = (n, refl, h)
unsigned (negsuc n) h = elim h [ ]

-- The packed trigger, with what it is read back as next to its reference.
pub trigger_bytes :
    (t : Trigger)
    → IsPackable t
    → (cond : ℕ) × (n : ℕ) × (create_binary_trigger t ≡ ok cond)
      × (reference_of t ≡ pos n)
      × (n < 2 ^ 32)
      × (process_binary_trigger n cond ≡ ok t)
unfolding create_binary_trigger process_binary_trigger
trigger_bytes Trigger.true_trigger p = (10, 0, refl, refl, omega arith, refl)
trigger_bytes Trigger.false_trigger p = elim p [ ]
trigger_bytes (Trigger.input t) p =
    let (n, e, h) = unsigned t.reference p in
    (
      bit_or (op_code t.comparator << 1) (if t.use_count then 1 else 0),
      n,
      refl,
      e,
      h,
      rw (condition t.comparator t.use_count n) (rw e refl),
    )

pub long_bytes :
    (n : ℕ)
    → n < 2 ^ 32
    → (a : ℕ) × (b : ℕ) × (c : ℕ) × (d : ℕ) × (pack_long (pos n) ≡ ok (a ∷ b ∷ c ∷ d ∷ []))
      × (long a b c d ≡ n)
unfolding pack_long
long_bytes n h = (n % 256, n / 256 % 256, n / 65536 % 256, n / 16777216, ground arith, omega arith)

pub short_bytes :
    (n : ℕ) → n < 65536 → (a : ℕ) × (b : ℕ) × (pack_short n ≡ ok (a ∷ b ∷ [])) × (short a b ≡ n)
unfolding pack_short
short_bytes n h = (n % 256, n / 256, ground arith, omega arith)
