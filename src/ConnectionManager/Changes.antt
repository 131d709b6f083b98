-- ===== src/ConnectionManager/Changes.antt =====
-- What the handlers of `ConnectionManager` do to a manager whose tables are linked.
use coretools.Prelude.{
  ◌==◌, if◌then◌else◌, ◌&&◌, not, ℕ, ◌≡◌, ◌⊎◌, refl, Bool, true, false, ◌||◌, ◌++◌, Option, none,
  some, List, [], ◌∷◌, Option-cases, inl, inr, arith,
}
use coretools.Errors.{Error}
use coretools.ConnectionManager.{
  get_connection, rpc, unexpected_disconnection, is_disconnected, is_connecting, is_disconnecting,
  is_idle, is_in_progress, State, disconnected, connecting, idle, in_progress, disconnecting,
  Operation, other, external, internal, Argument, Request, ConnectionAction, Pending, ConnData,
  ConnectionManager, get_connection_state, register,
}
use coretools.ConnectionManager.Handlers.{
  Handled, call, calling, outcome, update, pending_of, made_idle,
}
use coretools.ConnectionManager.Linked.{EntryOf, removed}

-- The callback of an action that begins something.
unfoldable pub begins : Request → Option ℕ
begins (Request.begin_connection callback connection_id internal_id context) = some callback
begins (Request.begin_disconnection k callback) = some callback
begins (Request.begin_operation k callback name) = some callback
begins _ = none

-- The state and microstate that an action begins on an idle connection.
unfoldable pub begun_state : Request → Option (State × Option Operation)
begun_state (Request.begin_disconnection k callback) = some (disconnecting, none)
begun_state (Request.begin_operation k callback name) = some (in_progress, some name)
begun_state _ = none

abbrev pub is_force : Request → Bool
is_force (Request.force_disconnect k) = true
is_force _ = false

abbrev pub is_unknown : Option Operation → Bool
is_unknown (some (other name)) = true
is_unknown none = true
is_unknown _ = false

-- The operation in progress is one that is not answered.
abbrev pub is_lost : ConnData → Bool
is_lost o = is_in_progress o.state && is_unknown o.microstate

-- The pattern that the documentation of `ConnectionManager` draws: `nonexistent -> connecting -> idle <-->
-- in_progress <--> idle -> disconnecting -> nonexistant`.
unfoldable pub documented : State → State → Bool
documented disconnected connecting = true
documented connecting idle = true
documented idle in_progress = true
documented in_progress idle = true
documented idle disconnecting = true
documented disconnecting disconnected = true
documented _ _ = false

-- The moves that are not in the pattern: a connection attempt that fails, a disconnection that fails,
-- and an unexpected disconnection.
unfoldable pub moves_back : Request → State → State → Bool
moves_back (Request.finish_connection k ok why) s s' =
    not ok && is_connecting s && is_disconnected s'
moves_back (Request.finish_disconnection k ok why) s s' = not ok && is_disconnecting s && is_idle s'
moves_back (Request.force_disconnect k) s s' = is_disconnected s'
moves_back _ s s' = false

abbrev pub moves_to : Request → State → State → Bool
moves_to r s s' = documented s s' || moves_back r s s'

-- The arguments with which `force_disconnect_action` calls the callback.
abbrev pub cancel_args : ConnectionManager → ConnData → List Argument
cancel_args m o = elim o.state [
  | connecting ↦ outcome m (external o.connection_id) false (some unexpected_disconnection)
  | disconnecting ↦ outcome m (external o.connection_id) true none
  | _ ↦
      let two = Argument.success false ∷ Argument.reason (some unexpected_disconnection) ∷ [] in
      elim o.microstate [
        | some rpc ↦ two ++ (Argument.number 0xff ∷ Argument.nothing ∷ [])
        | _ ↦ two
      ]
]

-- One where an unexpected disconnection calls the callback and the callback raises an exception.
unfoldable pub called_in_vain : ℕ → ConnectionManager → Request → ℕ
called_in_vain c m (Request.force_disconnect k) = elim (get_connection m k) [
  | none ↦ 0
  | some (i, o) ↦ elim o.action [
    | none ↦ 0
    | some p ↦ elim (m.raised_by p.callback (cancel_args m o)) [
      | none ↦ 0
      | some x ↦ if is_lost o then 0 else if p.callback == c then 1 else 0
    ]
  ]
]
called_in_vain c m _ = 0

-- No callback is called in vain.
abbrev pub Quiet : ConnectionAction → ConnectionManager → Type 0
Quiet a m = (c : ℕ) → called_in_vain c m a.request ≡ 0

-- An action that is ignored or refused, begins something, ends it in one of two ways, or removes an
-- idle connection; `lost` is the removal of a connection whose callback is not called, and in `stays`
-- the callback raises an exception before the removal.
pub data Change (a : ConnectionAction) (m : ConnectionManager) (h : Handled) : Type 0 where
  ignored : begins a.request ≡ none → Quiet a m → h.1 ≡ m → Change a m h
  refused :
      (c : ℕ) (args : List Argument)
      → begins a.request ≡ some c
      → h.1 ≡ call c args m
      → Change a m h
  connected :
      (c connection_id internal_id context : ℕ)
      → a.request ≡ Request.begin_connection c connection_id internal_id context
      → get_connection_state m (external connection_id) ≡ disconnected
      → get_connection_state m (internal internal_id) ≡ disconnected
      → h.1
        ≡ register m (record {
          state = connecting;
          microstate = none;
          connection_id = connection_id;
          internal_id = internal_id;
          action = some (pending_of a c);
          context = context;
        })
      → Change a m h
  began :
      (i : ℕ) (o : ConnData) (c : ℕ) (s : State) (n : Option Operation)
      → EntryOf m i o
      → o.state ≡ idle
      → begins a.request ≡ some c
      → begun_state a.request ≡ some (s, n)
      → h.1 ≡ update i (record o { state = s; microstate = n; action = some (pending_of a c) }) m
      → Change a m h
  ended :
      (i : ℕ) (o : ConnData) (p : Pending) (args : List Argument)
      → EntryOf m i o
      → o.action ≡ some p
      → begins a.request ≡ none
      → moves_to a.request o.state idle ≡ true
      → Quiet a m
      → h.1 ≡ call p.callback args (update i (made_idle o) m)
      → Change a m h
  closed :
      (i : ℕ) (o : ConnData) (p : Pending) (args : List Argument)
      → EntryOf m i o
      → o.action ≡ some p
      → begins a.request ≡ none
      → moves_to a.request o.state disconnected ≡ true
      → Quiet a m
      → h.1 ≡ call p.callback args (removed o m)
      → Change a m h
  closed_idle :
      (i : ℕ) (o : ConnData)
      → EntryOf m i o
      → o.state ≡ idle
      → is_force a.request ≡ true
      → Quiet a m
      → h.1 ≡ removed o m
      → Change a m h
  lost :
      (i : ℕ) (o : ConnData)
      → EntryOf m i o
      → o.state ≡ in_progress
      → is_unknown o.microstate ≡ true
      → is_force a.request ≡ true
      → Quiet a m
      → h.1 ≡ removed o m
      → Change a m h
  stays :
      (i : ℕ) (o : ConnData) (p : Pending) (x : Error)
      → EntryOf m i o
      → o.action ≡ some p
      → is_force a.request ≡ true
      → m.raised_by p.callback (cancel_args m o) ≡ some x
      → ((c : ℕ) → called_in_vain c m a.request ≡ (if p.callback == c then 1 else 0))
      → h.1 ≡ call p.callback (cancel_args m o) m
      → Change a m h

-- No exception is raised, or one of a callback that is called last.
abbrev pub Explained : ConnectionManager → Handled → Type 0
Explained m (x, m') =
    (x ≡ none)
    ⊎ ((c : ℕ) × (args : List Argument) × (x ≡ m.raised_by c args)
        × (m'.calls ≡ m.calls ++ (record { callback = c; arguments = args } ∷ [])))

abbrev pub Handles : ConnectionAction → ConnectionManager → Handled → Type 0
Handles a m h = Explained m h × Change a m h

-- Whatever a handler does before it calls a callback at its end.
pub calling-Explained :
    (c : ℕ) (args : List Argument) (m m' : ConnectionManager) (h : Handled)
    → m'.raised_by ≡ m.raised_by
    → m'.calls ≡ m.calls
    → h ≡ calling c args m'
    → Explained m h
calling-Explained c args m m' h same unchanged e =
    rw (e, same, unchanged) (inr (c, args, refl, refl))

-- A connection that is not idle keeps an action.
pub kept_action :
    (m : ConnectionManager) (i : ℕ) (o : ConnData)
    → EntryOf m i o
    → is_idle o.state ≡ false
    → (p : Pending) × (o.action ≡ some p)
kept_action m i o entry busy = elim (Option-cases o.action) [
  | inl missing ↦ let held = entry.held in absurd (ground (arith, held, busy, missing))
  | inr kept ↦ kept
]
