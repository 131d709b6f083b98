-- ===== src/Node.antt =====
-- The nodes of a sensor graph and the triggers of their inputs (iotilesensorgraph/iotile/sg/node.py).
-- The nodes that a node is linked to are known by number.
pub mod Triggering
pub mod Connecting
mod Tests
use coretools.Prelude.{
  ℕ, zero, suc, ◌+◌, ◌-ℤ◌, ℤ, pos, Bool, true, false, not, ◌&&◌, ◌||◌, ◌==◌, leb, ltb_ℤ, leb_ℤ,
  eqb_ℤ, if◌then◌else◌, Option, none, some, List, [], ◌∷◌, ◌++◌, length, set,
}
use coretools.Errors.{Error, Result, ok, err}
use coretools.Stream.{DataStream}
use coretools.Selector
use coretools.Selector.{DataStreamSelector}
use coretools.Reading.{IoTileReading}
use coretools.Engine.{Engine}
use coretools.Walker.Any
use coretools.Walker.Any.{StreamWalker}

-- The comparison that an `InputTrigger` calls, by the string that names it.
pub data Comparator : Type 0 where
  gt ge lt le eq : Comparator

unfoldable pub comp_function : Comparator → ℤ → ℤ → Bool
comp_function Comparator.gt comp ref = ltb_ℤ ref comp
comp_function Comparator.ge comp ref = leb_ℤ ref comp
comp_function Comparator.lt comp ref = ltb_ℤ comp ref
comp_function Comparator.le comp ref = leb_ℤ comp ref
comp_function Comparator.eq comp ref = eqb_ℤ comp ref

pub record InputTrigger : Type 0 where
  pub use_count : Bool
  pub comparator : Comparator
  pub reference : ℤ

-- The three classes of triggers.
pub data Trigger : Type 0 where
  input : InputTrigger → Trigger
  false_trigger true_trigger : Trigger

-- `triggered` of each of them; the value of an input is peeked at.
unfoldable pub input_triggered : Engine → InputTrigger → StreamWalker → Result Bool
input_triggered e t w =
    if t.use_count
    then ok (comp_function t.comparator (pos (Any.count w)) t.reference)
    else if Any.count w == 0
    then ok false
    else (elim (Any.peek e w) [
      | err x ↦ err x
      | ok r ↦ ok (comp_function t.comparator r.value t.reference)
    ])

unfoldable pub trigger_triggered : Engine → Trigger → StreamWalker → Result Bool
trigger_triggered e (Trigger.input t) w = input_triggered e t w
trigger_triggered e Trigger.false_trigger w = ok false
trigger_triggered e Trigger.true_trigger w = ok true

pub data TriggerCombiner : Type 0 where
  and_combiner or_combiner : TriggerCombiner

-- A node, but for its processing function.
pub record SgNode : Type 0 where
  pub inputs : List (StreamWalker × Trigger)
  pub outputs : List ℕ
  pub stream : DataStream
  pub trigger_combiner : TriggerCombiner
  pub max_outputs : ℕ

abbrev pub unconnected : ℕ → List (StreamWalker × Trigger)
unconnected zero = []
unconnected (suc n) = (StreamWalker.invalid none, Trigger.true_trigger) ∷ unconnected n

-- `__init__`, with the two limits of the device model.
unfoldable pub init : DataStream → ℕ → ℕ → SgNode
init stream max_inputs max_outputs = record {
  inputs = unconnected max_inputs;
  outputs = [];
  stream = stream;
  trigger_combiner = TriggerCombiner.and_combiner;
  max_outputs = max_outputs;
}

-- `connect_input`, where no trigger is one that always triggers.
unfoldable pub connect_input : SgNode → ℕ → StreamWalker → Option Trigger → Result SgNode
connect_input node index w trigger =
    let t : Trigger = elim trigger [ none ↦ Trigger.true_trigger | some t ↦ t ] in
    if leb (length node.inputs) index
    then err Error.too_many_inputs_error
    else ok (record node { inputs = set node.inputs index (w, t) })

-- `input_streams`.
unfoldable pub input_streams : List (StreamWalker × Trigger) → Result (List DataStream)
input_streams [] = ok []
input_streams ((w, t) ∷ inputs) =
    let rest = input_streams inputs in
    elim (Any.selector w) [
      | none ↦ rest
      | some selector ↦
          if not (Selector.singular selector) then rest else elim (Selector.as_stream selector) [
            | err x ↦ err x
            | ok stream ↦ elim rest [ err x ↦ err x | ok streams ↦ ok (stream ∷ streams) ]
          ]
    ]

-- `find_input`.
unfoldable pub find_input : List (StreamWalker × Trigger) → DataStream → Option ℕ
find_input [] stream = none
find_input ((w, t) ∷ inputs) stream =
    let rest = find_input inputs stream in
    if Any.matches w stream then some 0 else elim rest [ none ↦ none | some i ↦ some (suc i) ]

unfoldable pub num_inputs : List (StreamWalker × Trigger) → ℕ
num_inputs [] = 0
num_inputs ((StreamWalker.invalid _, _) ∷ inputs) = num_inputs inputs
num_inputs ((StreamWalker.buffered _, _) ∷ inputs) = num_inputs inputs + 1
num_inputs ((StreamWalker.virtual _, _) ∷ inputs) = num_inputs inputs + 1
num_inputs ((StreamWalker.counter _, _) ∷ inputs) = num_inputs inputs + 1

unfoldable pub free_outputs : SgNode → ℤ
free_outputs node = pos node.max_outputs -ℤ pos (length node.outputs)

unfoldable pub connect_output : SgNode → ℕ → Result SgNode
connect_output node other =
    if length node.outputs == node.max_outputs
    then err Error.too_many_outputs_error
    else ok (record node { outputs = node.outputs ++ (other ∷ []) })

-- The list `trigs` of `triggered`; the triggers are all asked, so that one that raises always shows.
unfoldable pub triggers : Engine → List (StreamWalker × Trigger) → Result (List Bool)
triggers e [] = ok []
triggers e ((w, t) ∷ inputs) =
    let rest = triggers e inputs in
    elim (trigger_triggered e t w) [
      | err x ↦ err x
      | ok b ↦ elim rest [ err x ↦ err x | ok trigs ↦ ok (b ∷ trigs) ]
    ]

-- `b in trigs`.
abbrev pub contains : Bool → List Bool → Bool
contains b [] = false
contains b (c ∷ trigs) = (if b then c else not c) || contains b trigs

unfoldable pub triggered : Engine → SgNode → Result Bool
triggered e node = elim (triggers e node.inputs) [
  | err x ↦ err x
  | ok trigs ↦ elim node.trigger_combiner [
    | TriggerCombiner.or_combiner ↦ ok (contains true trigs)
    | TriggerCombiner.and_combiner ↦ ok (not (contains false trigs))
  ]
]
