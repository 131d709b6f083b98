-- ===== src/ConnectionManager/Handlers.antt =====
-- The worker of `ConnectionManager`
-- (transport_plugins/native_ble/iotile_transport_native_ble/connection_manager.py): a handler for each
-- action, the check for timeouts, and a turn of `run`. A handler returns the exception that it raises,
-- if any, with the manager as it is by then.
use coretools.Prelude.{
  ℕ, Bool, true, false, not, if◌then◌else◌, Option, none, some, List, [], ◌∷◌, ◌++◌, set, get_elem?,
}
use coretools.Errors.{Error}
use coretools.ConnectionManager.Dict.{lookup, delete}
use coretools.ConnectionManager.{
  State, disconnected, connecting, idle, in_progress, disconnecting, Operation, rpc, open_interface,
  close_interface, other, Key, external, internal, Reason, connection_id_in_use, internal_id_in_use,
  no_reason_given, not_idle_to_disconnect, not_idle_to_operate, unexpected_disconnection,
  connection_timed_out, disconnection_timed_out, rpc_timed_out, interface_timed_out, Argument, key,
  adapter, number, success, reason, nothing, Request, ConnectionAction, Pending, expired, ConnData,
  ConnectionManager, get_connection, get_connection_state, is_disconnected, is_connecting, is_idle,
  is_in_progress, is_disconnecting, put, register,
}

abbrev pub Handled : Type 0
Handled = Option Error × ConnectionManager

-- The manager after `callback(*args)`.
abbrev pub call : ℕ → List Argument → ConnectionManager → ConnectionManager
call callback arguments m = record m {
  calls = m.calls ++ (record { callback = callback; arguments = arguments } ∷ []);
}

-- `callback(*args)`, with the exception that the callback raises.
abbrev pub calling : ℕ → List Argument → ConnectionManager → Handled
calling callback arguments m = (m.raised_by callback arguments, call callback arguments m)

-- The arguments of `callback(id, self.id, success, reason)`.
abbrev pub outcome : ConnectionManager → Key → Bool → Option Reason → List Argument
outcome m k ok why = key k ∷ adapter m.id ∷ success ok ∷ reason why ∷ []

abbrev pub answer : ℕ → Key → Bool → Option Reason → ConnectionManager → Handled
answer callback k ok why m = calling callback (outcome m k ok why) m

-- The object at a place is changed.
abbrev pub update : ℕ → ConnData → ConnectionManager → ConnectionManager
update i o m = record m { objects = set m.objects i o }

-- `del self._connections[connection_id]` and `del self._int_connections[internal_id]`.
unfoldable pub remove : ConnData → ConnectionManager → Handled
unfolding lookup delete
remove o m = elim (lookup o.connection_id m.connections) [
  | none ↦ (some Error.key_error, m)
  | some i ↦
      let m' = record m { connections = delete o.connection_id m.connections } in
      elim (lookup o.internal_id m.int_connections) [
        | none ↦ (some Error.key_error, m')
        | some j ↦ (none, record m' { int_connections = delete o.internal_id m.int_connections })
      ]
]

-- What follows unless an exception is raised.
abbrev pub and_then : Handled → (ConnectionManager → Handled) → Handled
and_then (none, m) f = f m
and_then (some x, m) f = (some x, m)

abbrev pub pending_of : ConnectionAction → ℕ → Pending
pending_of a callback = record {
  callback = callback;
  timeout = a.timeout;
  start_time = a.start_time;
}

unfoldable pub begin_connection_action :
    ConnectionAction → ℕ → ℕ → ℕ → ℕ → ConnectionManager → Handled
unfolding get_connection_state register
begin_connection_action a callback connection_id internal_id context m =
    if not (is_disconnected (get_connection_state m (external connection_id)))
    then answer callback (external connection_id) false (some connection_id_in_use) m
    else if not (is_disconnected (get_connection_state m (internal internal_id)))
    then answer callback (external connection_id) false (some internal_id_in_use) m
    else (
      none,
      register m (record {
        state = connecting;
        microstate = none;
        connection_id = connection_id;
        internal_id = internal_id;
        action = some (pending_of a callback);
        context = context;
      }),
    )

abbrev pub reason_or_default : Option Reason → Option Reason
reason_or_default none = some no_reason_given
reason_or_default (some why) = some why

-- The object becomes idle; its action must be there to be deleted.
abbrev pub made_idle : ConnData → ConnData
made_idle o = record o { state = idle; microstate = none; action = none }

-- The handler of a connection that is there, in the state that the action wants. The callback of
-- the action that it keeps goes to `f` with its place and object.
abbrev pub with_pending :
    ConnectionManager → Key → (State → Bool) → (ℕ → ConnData → ℕ → Handled) → Handled
with_pending m k wanted f = elim (get_connection m k) [
  | none ↦ (none, m)
  | some (i, o) ↦
      if not (wanted o.state)
      then (none, m)
      else elim o.action [ none ↦ (some Error.key_error, m) | some p ↦ f i o p.callback ]
]

unfoldable pub finish_connection_action : Key → Bool → Option Reason → ConnectionManager → Handled
unfolding get_connection remove
finish_connection_action k ok why m = with_pending m k is_connecting (λ i o callback.
    if ok
    then answer callback (external o.connection_id) true none (update i (made_idle o) m)
    else and_then (remove o m)
        (answer callback (external o.connection_id) false (reason_or_default why)))

-- The callback of the action in progress, called before the connection is removed, which it is not
-- where the callback raises an exception. An operation that the manager does not know is not answered.
unfoldable pub cancel : ConnData → ConnectionManager → Handled
cancel o m = elim o.state [
  | disconnected ↦ (none, m)
  | idle ↦ (none, m)
  | connecting ↦ elim o.action [
    | none ↦ (some Error.key_error, m)
    | some p ↦ answer p.callback (external o.connection_id) false (some unexpected_disconnection) m
  ]
  | disconnecting ↦ elim o.action [
    | none ↦ (some Error.key_error, m)
    | some p ↦ answer p.callback (external o.connection_id) true none m
  ]
  | in_progress ↦ elim o.action [
    | none ↦ (some Error.key_error, m)
    | some p ↦
        let two = success false ∷ reason (some unexpected_disconnection) ∷ [] in
        elim o.microstate [
          | none ↦ (none, m)
          | some (other name) ↦ (none, m)
          | some rpc ↦ calling p.callback (two ++ (number 0xff ∷ nothing ∷ [])) m
          | some open_interface ↦ calling p.callback two m
          | some close_interface ↦ calling p.callback two m
        ]
  ]
]

unfoldable pub force_disconnect_action : Key → ConnectionManager → Handled
unfolding get_connection remove cancel
force_disconnect_action k m = elim (get_connection m k) [
  | none ↦ (none, m)
  | some (i, o) ↦
      if is_disconnected o.state
      then (none, m)
      else let (raised, m') = cancel o m in
        elim raised [ none ↦ remove o m' | some x ↦ (some x, m') ]
]

-- The handler of an action that begins something on a connection: it is refused unless the
-- connection is idle.
abbrev pub begin_on : ConnectionManager → Key → ℕ → Reason → (ConnData → ConnData) → Handled
begin_on m k callback refusal f = elim (get_connection m k) [
  | none ↦ answer callback k false (some refusal) m
  | some (i, o) ↦
      if not (is_idle o.state)
      then answer callback k false (some refusal) m
      else (none, update i (f o) m)
]

unfoldable pub begin_disconnection_action : ConnectionAction → Key → ℕ → ConnectionManager → Handled
unfolding get_connection
begin_disconnection_action a k callback m = begin_on m k callback not_idle_to_disconnect (λ o.
    record o { state = disconnecting; microstate = none; action = some (pending_of a callback) })

unfoldable pub finish_disconnection_action :
    Key → Bool → Option Reason → ConnectionManager → Handled
unfolding get_connection remove
finish_disconnection_action k ok why m = with_pending m k is_disconnecting (λ i o callback.
    if ok
    then and_then (remove o m) (answer callback (external o.connection_id) true none)
    else answer callback (external o.connection_id) false (reason_or_default why)
        (update i (made_idle o) m))

unfoldable pub begin_operation_action :
    ConnectionAction → Key → ℕ → Operation → ConnectionManager → Handled
unfolding get_connection
begin_operation_action a k callback name m = begin_on m k callback not_idle_to_operate (λ o.
    record o { state = in_progress; microstate = some name; action = some (pending_of a callback) })

unfoldable pub finish_operation_action : Key → Bool → List Argument → ConnectionManager → Handled
unfolding get_connection
finish_operation_action k ok arguments m = with_pending m k is_in_progress (λ i o callback.
    calling callback (key (external o.connection_id) ∷ adapter m.id ∷ success ok ∷ arguments)
      (update i (made_idle o) m))

-- The handler that `run` finds by the action's name.
unfoldable pub dispatch : ConnectionAction → ConnectionManager → Request → Handled
unfolding begin_connection_action finish_connection_action force_disconnect_action
    begin_disconnection_action finish_disconnection_action begin_operation_action
    finish_operation_action
dispatch a m (Request.begin_connection callback connection_id internal_id context) =
    begin_connection_action a callback connection_id internal_id context m
dispatch a m (Request.finish_connection k ok why) = finish_connection_action k ok why m
dispatch a m (Request.finish_disconnection k ok why) = finish_disconnection_action k ok why m
dispatch a m (Request.force_disconnect k) = force_disconnect_action k m
dispatch a m (Request.begin_disconnection k callback) = begin_disconnection_action a k callback m
dispatch a m (Request.begin_operation k callback name) = begin_operation_action a k callback name m
dispatch a m (Request.finish_operation k ok arguments) = finish_operation_action k ok arguments m

unfoldable pub handle : ConnectionAction → ConnectionManager → Handled
unfolding dispatch
handle a m = dispatch a m a.request

-- The request by which `_check_timeouts` fails an action that has expired.
unfoldable pub timeout_request : ℕ → ConnData → Option Request
timeout_request id o = elim o.state [
  | disconnected ↦ none
  | idle ↦ none
  | connecting ↦ some (Request.finish_connection (external id) false (some connection_timed_out))
  | disconnecting ↦
      some (Request.finish_disconnection (external id) false (some disconnection_timed_out))
  | in_progress ↦ elim o.microstate [
    | some rpc ↦ some (
        Request.finish_operation (external id) false
          (reason (some rpc_timed_out) ∷ nothing ∷ nothing ∷ []))
    | some open_interface ↦
        some (Request.finish_operation (external id) false (reason (some interface_timed_out) ∷ []))
    | _ ↦ none
  ]
]

-- The timeout of an action that is made without one; 5 seconds, in the unit of the clock.
abbrev pub default_timeout : ℕ
default_timeout = 5000

unfoldable pub check_one : ℕ → ℕ → ConnData → ConnectionManager → ConnectionManager
unfolding expired timeout_request put
check_one now id o m = elim o.action [
  | none ↦ m
  | some p ↦ if not (expired now p) then m else elim (timeout_request id o) [
    | none ↦ m
    | some request ↦ put now request (some default_timeout) m
  ]
]

-- The loop of `_check_timeouts`, over the items of `_connections`.
unfoldable pub check_items : ℕ → List (ℕ × ℕ) → ConnectionManager → ConnectionManager
unfolding check_one
check_items now [] m = m
check_items now ((id, i) ∷ items) m =
    check_items now items
      (elim (get_elem? m.objects i) [ none ↦ m | some o ↦ check_one now id o m ])

unfoldable pub check_timeouts : ℕ → ConnectionManager → ConnectionManager
unfolding check_items
check_timeouts now m = check_items now m.connections m

-- The next action of the queue, if there is one; an exception of the handler is logged.
unfoldable pub take_action : List ConnectionAction → ConnectionManager → Handled
unfolding handle
take_action [] m = (none, m)
take_action (a ∷ rest) m = handle a (record m { actions = rest })

-- A turn of the loop of `run`.
unfoldable pub turn : ℕ → ConnectionManager → Handled
unfolding check_timeouts take_action
turn now m = let m' = check_timeouts now m in take_action m'.actions m'

-- The turns for the actions of a queue, with no timeout between them.
unfoldable pub work : List ConnectionAction → ConnectionManager → ConnectionManager
unfolding handle
work [] m = m
work (a ∷ rest) m = work rest (handle a m).1
