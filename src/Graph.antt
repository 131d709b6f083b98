-- ===== src/Graph.antt =====
-- `SensorGraph` of iotilesensorgraph/iotile/sg/graph.py: its databases and its streamers. A dict is a
-- list of pairs with no key twice. The nodes are not part of this model.
pub mod Streamers
pub mod Databases
pub mod Checking
pub mod Linking
pub mod WithOther
mod Tests
use coretools.Prelude.{
  ℕ, ◌+◌, ℤ, pos, Bool, true, false, not, ◌&&◌, ◌==◌, leb, if◌then◌else◌, Option, none, some, List,
  [], ◌∷◌, ◌++◌, length,
}
use coretools.Errors.{Error, Result, ok, err}
use coretools.Stream
use coretools.Stream.{DataStream}
use coretools.Selector
use coretools.Slot
use coretools.Slot.{SlotIdentifier}
use coretools.Reading.{reading}
use coretools.SensorLog.{SensorLog}
use coretools.SensorLog.Assoc.{lookup, insert}
use coretools.SensorLog.Push.{push}
use coretools.Streamer
use coretools.Streamer.{DataStreamer}
use text.Mathlib.Text.{◌==◌ as str_eq}
use Prim.Native.String.{String}

-- What a config variable is set to: the name of its type, and a number or a text.
pub data ConfigValue : Type 0 where
  number : ℤ → ConfigValue
  string : String → ConfigValue

pub record SensorGraph : Type 0 where
  pub streamers : List DataStreamer
  pub constant_database : List (DataStream × ℤ)
  pub metadata_database : List (String × String)
  pub config_database : List (SlotIdentifier × List (ℕ × (String × ConfigValue)))
  pub sensor_log : SensorLog
  pub manually_triggered : List ℤ
  pub max_streamers : Option ℕ

-- `__init__`; the maximum is that of the device model, if limits are enforced.
unfoldable pub init : SensorLog → Option ℕ → SensorGraph
init sensor_log max_streamers = record {
  streamers = [];
  constant_database = [];
  metadata_database = [];
  config_database = [];
  sensor_log = sensor_log;
  manually_triggered = [];
  max_streamers = max_streamers;
}

-- `clear`, which keeps the sensor log and what is marked.
unfoldable pub clear : SensorGraph → SensorGraph
clear g = record g {
  streamers = [];
  constant_database = [];
  metadata_database = [];
  config_database = [];
}

-- A dict whose keys are told apart by a test.
module _ {ℓ κ} {K : Type ℓ} {V : Type κ} (same_key : K → K → Bool) where
  unfoldable pub lookup_by : K → List (K × V) → Option V
  lookup_by k [] = none
  lookup_by k ((j, v) ∷ d) = if same_key j k then some v else lookup_by k d

  unfoldable pub insert_by : K → V → List (K × V) → List (K × V)
  insert_by k v [] = (k, v) ∷ []
  insert_by k v ((j, u) ∷ d) = if same_key j k then (j, v) ∷ d else (j, u) ∷ insert_by k v d

abbrev pub Configs : Type 0
Configs = List (ℕ × (String × ConfigValue))

abbrev pub or_empty : Option Configs → Configs
or_empty none = []
or_empty (some d) = d

unfoldable pub add_config : SensorGraph → SlotIdentifier → ℕ → String → ConfigValue → SensorGraph
add_config g slot config_id config_type value =
    let variables = or_empty (lookup_by Slot.eq slot g.config_database) in
    record g {
      config_database =
          insert_by Slot.eq slot (insert_by ◌==◌ config_id (config_type, value) variables)
            g.config_database;
    }

unfoldable pub get_config : SensorGraph → SlotIdentifier → ℕ → Result (String × ConfigValue)
get_config g slot config_id = elim (lookup_by Slot.eq slot g.config_database) [
  | none ↦ err Error.argument_error
  | some variables ↦ elim (lookup_by ◌==◌ config_id variables) [
    | none ↦ err Error.argument_error
    | some variable ↦ ok variable
  ]
]

-- The ticks of `get_tick`, with the numbers of their config variables in known_constants.py.
pub data Tick : Type 0 where
  fast user1 user2 : Tick

abbrev pub tick_config : Tick → ℕ
tick_config Tick.fast = 0x2000
tick_config Tick.user1 = 0x2002
tick_config Tick.user2 = 0x2003

abbrev controller : SlotIdentifier
controller = record { slot = none; controller = true }

-- `get_tick`; a name of no tick is `none`.
unfoldable pub get_tick : SensorGraph → Option Tick → Result ConfigValue
unfolding get_config
get_tick g none = err Error.argument_error
get_tick g (some tick) = elim (get_config g controller (tick_config tick)) [
  | ok (_, value) ↦ ok value
  | err _ ↦ ok (number (pos 0))
]

unfoldable pub add_constant : SensorGraph → DataStream → ℤ → Result SensorGraph
add_constant g stream value = elim (lookup stream g.constant_database) [
  | some _ ↦ err Error.argument_error
  | none ↦ ok (record g { constant_database = insert stream value g.constant_database })
]

unfoldable pub add_metadata : SensorGraph → String → String → Result SensorGraph
add_metadata g name value = elim (lookup_by str_eq name g.metadata_database) [
  | some _ ↦ err Error.argument_error
  | none ↦ ok (record g { metadata_database = insert_by str_eq name value g.metadata_database })
]

-- `load_constants`: the first push that raises ends the loop.
unfoldable pub load_from : List (DataStream × ℤ) → SensorLog → Result (Unit {0}) × SensorLog
load_from [] log = (ok tt, log)
load_from ((stream, value) ∷ l) log =
    let (pushed, log') = push log stream (reading 0 (Stream.encode stream) value) in
    elim pushed [ err x ↦ (err x, log') | ok _ ↦ load_from l log' ]

unfoldable pub load_constants : SensorGraph → Result (Unit {0}) × SensorGraph
unfolding load_from
load_constants g =
    let (loaded, log) = load_from g.constant_database g.sensor_log in
    (loaded, record g { sensor_log = log })

-- The streamer joins the graph under the next index; it is linked to the log first.
unfoldable pub add_streamer : SensorGraph → DataStreamer → Result (Unit {0}) × SensorGraph
add_streamer g s =
    let full : Bool = elim g.max_streamers [ none ↦ false | some n ↦ leb n (length g.streamers) ] in
    let (linked, (s', log)) = Streamer.link_to_storage g.sensor_log s in
    let g' = record g { sensor_log = log } in
    if full then (err Error.resource_usage_error, g) else elim linked [
      | err x ↦ (err x, g')
      | ok _ ↦ (
        ok tt,
        record g' {
          streamers = g.streamers ++ (record s' { index = some (length g.streamers) } ∷ []);
        },
      )
    ]

-- `is_output`.
unfoldable pub is_output : List DataStreamer → DataStream → Bool
is_output [] stream = false
is_output (s ∷ l) stream =
    let rest = is_output l stream in if Selector.matches s.selector stream then true else rest
