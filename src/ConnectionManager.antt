-- ===== src/ConnectionManager.antt =====
-- `ConnectionAction` and `ConnectionManager` of
-- transport_plugins/native_ble/iotile_transport_native_ble/connection_manager.py: the connections of an
-- adapter, and the worker that takes actions from a queue and changes them. The data of a connection is
-- one object that stands in two tables, so that the objects are in a store and the tables hold their
-- places in it. Internal ids, which are strings, callbacks and contexts are numbers here. A callback
-- that is called is written to `calls`; a callback is code of the callers, and the exception that it
-- raises, if any, is a parameter. Times are in a unit of the clock, which is passed to what reads it.
pub mod Dict
pub mod Handlers
pub mod Requests
pub mod Linked
pub mod Changes
pub mod Finishing
pub mod Handling
pub mod Lookups
pub mod Runs
pub mod Transitions
pub mod Waiting
pub mod Callbacks
pub mod Outcomes
pub mod Timeouts
pub mod Unanswered
mod Tests
use coretools.Prelude.{
  ℕ, ◌+◌, ◌-◌, Bool, true, false, not, ◌&&◌, ltb, if◌then◌else◌, Option, none, some, List, [], ◌∷◌,
  ◌++◌, length, get_elem?, set, map,
}
use coretools.Errors.{Error, Result, ok, err}
use coretools.ConnectionManager.Dict.{lookup, insert, delete}

pub data State : Type 0 where
  disconnected connecting idle in_progress disconnecting : State

-- The names of operations that the manager knows; any other is a number.
pub data Operation : Type 0 where
  rpc open_interface close_interface : Operation
  other : ℕ → Operation

-- An integer connection id or a string internal id.
pub data Key : Type 0 where
  external internal : ℕ → Key

-- The reasons of the manager, and those of its callers.
pub data Reason : Type 0 where
  connection_id_in_use internal_id_in_use no_reason_given not_idle_to_disconnect not_idle_to_operate
        unexpected_disconnection connection_timed_out disconnection_timed_out rpc_timed_out
        interface_timed_out :
      Reason
  given : ℕ → Reason

-- The arguments of callbacks.
pub data Argument : Type 0 where
  key : Key → Argument
  adapter number payload : ℕ → Argument
  success : Bool → Argument
  reason : Option Reason → Argument
  nothing : Argument

pub record Call : Type 0 where
  pub callback : ℕ
  pub arguments : List Argument

-- The action and its data; `begin_connection` has the callback, the ids and the context.
pub data Request : Type 0 where
  begin_connection : ℕ → ℕ → ℕ → ℕ → Request
  finish_connection finish_disconnection : Key → Bool → Option Reason → Request
  force_disconnect : Key → Request
  begin_disconnection : Key → ℕ → Request
  begin_operation : Key → ℕ → Operation → Request
  finish_operation : Key → Bool → List Argument → Request

pub record ConnectionAction : Type 0 where
  pub request : Request
  pub timeout : Option ℕ
  pub start_time : ℕ

-- What is read again of the action that a connection keeps: its callback and when it expires.
pub record Pending : Type 0 where
  pub callback : ℕ
  pub timeout : Option ℕ
  pub start_time : ℕ

unfoldable pub expired : ℕ → Pending → Bool
expired now p = elim p.timeout [ none ↦ false | some timeout ↦ ltb timeout (now - p.start_time) ]

pub record ConnData : Type 0 where
  pub state : State
  pub microstate : Option Operation
  pub connection_id : ℕ
  pub internal_id : ℕ
  pub action : Option Pending
  pub context : ℕ

pub record ConnectionManager : Type 0 where
  pub id : ℕ
  pub actions : List ConnectionAction
  pub connections : List (ℕ × ℕ)
  pub int_connections : List (ℕ × ℕ)
  pub objects : List ConnData
  pub calls : List Call
  -- What a callback raises when it is called with arguments; it never changes.
  pub raised_by : ℕ → List Argument → Option Error

unfoldable pub init : ℕ → (ℕ → List Argument → Option Error) → ConnectionManager
init adapter_id callbacks = record {
  id = adapter_id;
  actions = [];
  connections = [];
  int_connections = [];
  objects = [];
  calls = [];
  raised_by = callbacks;
}

-- The place of the object that a table has under a key.
unfoldable pub place : ConnectionManager → Key → Option ℕ
unfolding lookup
place m (external k) = lookup k m.connections
place m (internal k) = lookup k m.int_connections

-- `_get_connection`: the object and its place.
unfoldable pub get_connection : ConnectionManager → Key → Option (ℕ × ConnData)
unfolding place
get_connection m k = elim (place m k) [
  | none ↦ none
  | some i ↦ elim (get_elem? m.objects i) [ none ↦ none | some o ↦ some (i, o) ]
]

unfoldable pub get_connection_state : ConnectionManager → Key → State
unfolding get_connection
get_connection_state m k = elim (get_connection m k) [ none ↦ disconnected | some (i, o) ↦ o.state ]

unfoldable pub get_connections : ConnectionManager → List ℕ
get_connections m = map (λ e. e.0) m.connections

unfoldable pub get_context : ConnectionManager → Key → Result ℕ
unfolding get_connection
get_context m k = elim (get_connection m k) [
  | none ↦ err Error.argument_error
  | some (i, o) ↦ ok o.context
]

unfoldable pub get_connection_id : ConnectionManager → Key → Result ℕ
unfolding get_connection
get_connection_id m k = elim (get_connection m k) [
  | none ↦ err Error.argument_error
  | some (i, o) ↦ ok o.connection_id
]

abbrev pub is_disconnected : State → Bool
is_disconnected disconnected = true
is_disconnected _ = false

abbrev pub is_connecting : State → Bool
is_connecting connecting = true
is_connecting _ = false

abbrev pub is_idle : State → Bool
is_idle idle = true
is_idle _ = false

abbrev pub is_in_progress : State → Bool
is_in_progress in_progress = true
is_in_progress _ = false

abbrev pub is_disconnecting : State → Bool
is_disconnecting disconnecting = true
is_disconnecting _ = false

-- `self._actions.put(ConnectionAction(...))`.
unfoldable pub put : ℕ → Request → Option ℕ → ConnectionManager → ConnectionManager
put now request timeout m = record m {
  actions = m.actions ++ (record { request = request; timeout = timeout; start_time = now } ∷ []);
}

-- A new object in both tables.
unfoldable pub register : ConnectionManager → ConnData → ConnectionManager
unfolding insert
register m o = record m {
  connections = insert o.connection_id (length m.objects) m.connections;
  int_connections = insert o.internal_id (length m.objects) m.int_connections;
  objects = m.objects ++ (o ∷ []);
}

-- Neither id is in use.
abbrev pub both_free : ConnectionManager → ℕ → ℕ → Bool
both_free m connection_id internal_id =
    is_disconnected (get_connection_state m (external connection_id))
    && is_disconnected (get_connection_state m (internal internal_id))

unfoldable pub add_connection : ConnectionManager → ℕ → ℕ → ℕ → ConnectionManager
unfolding get_connection_state register
add_connection m connection_id internal_id context =
    if both_free m connection_id internal_id
    then register m (record {
      state = idle;
      microstate = none;
      connection_id = connection_id;
      internal_id = internal_id;
      action = none;
      context = context;
    })
    else m
