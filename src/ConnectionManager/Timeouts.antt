-- ===== src/ConnectionManager/Timeouts.antt =====
-- An action of `ConnectionManager` that has expired is answered by the worker.
use coretools.Prelude.{
  ℕ, ◌≡◌, ◌<◌, refl, sym, Bool, true, false, ◌==◌, if◌then◌else◌, Option, none, some, List, [], ◌∷◌,
  ◌++◌, append_assoc, get_elem?, Bool-cases, Option-cases, inl, inr, arith,
}
use coretools.ConnectionManager.Dict.{lookup}
use coretools.ConnectionManager.{
  rpc, Operation, connection_timed_out, disconnection_timed_out, rpc_timed_out, interface_timed_out,
  Key, external, Argument, Request, ConnectionAction, Pending, ConnData, Reason, ConnectionManager,
  place, get_connection, expired, is_connecting, is_disconnecting, is_in_progress,
}
use coretools.ConnectionManager.Handlers.{
  handle, dispatch, work, update, made_idle, check_timeouts, timeout_request, default_timeout,
  finish_connection_action, finish_disconnection_action, finish_operation_action, reason_or_default,
  outcome,
}
use coretools.ConnectionManager.Linked.{Linked, EntryOf, removed, remove-removed}
use coretools.ConnectionManager.Changes.{is_lost}
use coretools.ConnectionManager.Runs.{
  handle-Linked, all_timeouts, timeout_actions, check_timeouts-actions,
}
use coretools.ConnectionManager.Callbacks.{called, called-call}
use coretools.ConnectionManager.Outcomes.{
  called_le-work, called_le-handle, work-Linked, work-append, work-Waits,
}

-- The handlers that finish what waits under a key call its callback.
module _ (m : ConnectionManager) (k : Key) (i : ℕ) (o : ConnData) (p : Pending) (l : Linked m)
    (found : get_connection m k ≡ some (i, o)) (entry : EntryOf m i o)
    (kept : o.action ≡ some p) where
  finish_connection-calls :
      (why : Option Reason)
      → is_connecting o.state ≡ true
      → called p.callback m < called p.callback (finish_connection_action k false why m).1
  unfolding finish_connection_action
  finish_connection-calls why apt =
      let gone = remove-removed m i o entry in
      let args = outcome m (external o.connection_id) false (reason_or_default why) in
      let once = called-call p.callback p.callback args (removed o m) in
      ground (arith, found, apt, kept, gone, once)

  finish_disconnection-calls :
      (why : Option Reason)
      → is_disconnecting o.state ≡ true
      → called p.callback m < called p.callback (finish_disconnection_action k false why m).1
  unfolding finish_disconnection_action
  finish_disconnection-calls why apt =
      let args = outcome m (external o.connection_id) false (reason_or_default why) in
      let once = called-call p.callback p.callback args (update i (made_idle o) m) in
      ground (arith, found, apt, kept, once)

  finish_operation-calls :
      (args : List Argument)
      → is_in_progress o.state ≡ true
      → called p.callback m < called p.callback (finish_operation_action k false args m).1
  unfolding finish_operation_action
  finish_operation-calls args apt =
      let all =
        Argument.key (external o.connection_id)
        ∷ Argument.adapter m.id
        ∷ Argument.success false
        ∷ args in
      let once = called-call p.callback p.callback all (update i (made_idle o) m) in
      ground (arith, found, apt, kept, once)

abbrev is_rpc : Option Operation → Bool
is_rpc (some rpc) = true
is_rpc _ = false

-- The arguments that the check passes on for an operation.
abbrev timeout_args : ConnData → List Argument
timeout_args o =
    if is_rpc o.microstate
    then Argument.reason (some rpc_timed_out) ∷ Argument.nothing ∷ Argument.nothing ∷ []
    else Argument.reason (some interface_timed_out) ∷ []

-- The request that fails an expired action calls its callback.
timeout-calls :
    (a : ConnectionAction) (m : ConnectionManager) (k i : ℕ) (o : ConnData) (p : Pending)
    (r : Request)
    → Linked m
    → get_connection m (external k) ≡ some (i, o)
    → EntryOf m i o
    → o.action ≡ some p
    → timeout_request k o ≡ some r
    → called p.callback m < called p.callback (dispatch a m r).1
unfolding dispatch timeout_request
timeout-calls a m k i o p r l found entry kept timed = elim (Bool-cases (is_connecting o.state)) [
  | inl apt ↦
      let it : r ≡ Request.finish_connection (external k) false (some connection_timed_out) =
        ground (arith, timed, apt) in
      rw it (
        finish_connection-calls m (external k) i o p l found entry kept (some connection_timed_out)
          apt)
  | inr c ↦ elim (Bool-cases (is_disconnecting o.state)) [
    | inl apt ↦
        let it : r
            ≡ Request.finish_disconnection (external k) false (some disconnection_timed_out) =
          ground (arith, timed, apt) in
        rw it (
          finish_disconnection-calls m (external k) i o p l found entry kept
            (some disconnection_timed_out) apt)
    | inr d ↦
        let apt : is_in_progress o.state ≡ true = ground (arith, timed, c, d) in
        let it : r ≡ Request.finish_operation (external k) false (timeout_args o) =
          ground (arith, timed, apt) in
        rw it (finish_operation-calls m (external k) i o p l found entry kept (timeout_args o) apt)
  ]
]

abbrev timeout_action : ℕ → Request → ConnectionAction
timeout_action now r = record { request = r; timeout = some default_timeout; start_time = now }

-- The actions that the check adds have the one for a connection that has expired.
all_timeouts-has :
    (now k i : ℕ) (o : ConnData) (objects : List ConnData) (a : ConnectionAction) (t : List (ℕ × ℕ))
    → lookup k t ≡ some i
    → get_elem? objects i ≡ some o
    → timeout_actions now k o ≡ a ∷ []
    → (pre : List ConnectionAction) × (post : List ConnectionAction) × (all_timeouts now objects t
        ≡ pre ++ (a ∷ post))
unfolding all_timeouts lookup
all_timeouts-has now k i o objects a [] e there timed = absurd (ground (arith, e))
all_timeouts-has now k i o objects a ((j, h) ∷ t) e there timed = elim (Bool-cases (j == k)) [
  | inl same ↦
      let at : h ≡ i = ground (arith, e, same) in
      let id : j ≡ k = ground (arith, same) in
      ([], all_timeouts now objects t, rw (at, there, id, timed) refl)
  | inr apart ↦
      let (pre, post, rest) =
        all_timeouts-has now k i o objects a t (ground (arith, e, apart)) there timed in
      let first : List ConnectionAction = elim (get_elem? objects h) [
        | none ↦ []
        | some q ↦ timeout_actions now j q
      ] in
      (first ++ pre, post, rw rest (sym (append_assoc first pre (a ∷ post))))
]

-- Where a connection is found, and that its entry is in the table of ids.
found_at :
    (m : ConnectionManager) (k i : ℕ) (o : ConnData)
    → Linked m
    → get_connection m (external k) ≡ some (i, o)
    → EntryOf m i o × (lookup k m.connections ≡ some i) × (get_elem? m.objects i ≡ some o)
unfolding get_connection place
found_at m k i o l found = elim (Option-cases (lookup k m.connections)) [
  | inl missing ↦ absurd (ground (arith, found, missing))
  | inr (j, e) ↦
      let (q, entry, _) = l.entry k j e in
      let there = entry.there in
      let here : j ≡ i = ground (arith, found, e, there) in
      let it : q ≡ o = ground (arith, found, e, there) in rw (← here, ← it) (entry, e, there)
]

timed-known :
    (k : ℕ) (o : ConnData) (r : Request) → timeout_request k o ≡ some r → is_lost o ≡ false
unfolding timeout_request
timed-known k o r timed = ground (arith, timed)

at_start :
    (m : ConnectionManager) (k i : ℕ) (o : ConnData)
    → get_connection m (external k) ≡ some (i, o)
    → get_connection (record m { actions = [] }) (external k) ≡ some (i, o)
unfolding get_connection place
at_start m k i o found = found

-- The check for timeouts, and the turns for all actions that are then in the queue.
abbrev pub check_and_work : ℕ → ConnectionManager → ConnectionManager
check_and_work now m = let m' = check_timeouts now m in work m'.actions (record m' { actions = [] })

split_queue :
    (now : ℕ) (m : ConnectionManager) (a : ConnectionAction) (pre post : List ConnectionAction)
    → all_timeouts now m.objects m.connections ≡ pre ++ (a ∷ post)
    → check_and_work now m
      ≡ work post (handle a (work (m.actions ++ pre) (record m { actions = [] }))).1
unfolding work
split_queue now m a pre post split =
    rw (check_timeouts-actions now m, split, ← append_assoc m.actions pre (a ∷ post))
      (work-append (m.actions ++ pre) (a ∷ post) (record m { actions = [] }))

-- A connection that waits when a queue is begun is answered by the request that fails it.
queue-calls :
    (now k i : ℕ) (o : ConnData) (p : Pending) (r : Request) (q post : List ConnectionAction)
    (m : ConnectionManager)
    → Linked m
    → get_connection m (external k) ≡ some (i, o)
    → o.action ≡ some p
    → timeout_request k o ≡ some r
    → called p.callback m
      < called p.callback (work post (handle (timeout_action now r) (work q m)).1)
unfolding handle
queue-calls now k i o p r q post m l found kept timed =
    let a = timeout_action now r in
    let m' = work q m in
    let l' = work-Linked q m l in
    let after = called_le-work p.callback post (handle a m').1 (handle-Linked a m' l') in
    let before = called_le-work p.callback q m l in
    elim (work-Waits k i o p kept (timed-known k o r timed) q m l found) [
      | inr more ↦ omega (arith, more, after, called_le-handle p.callback a m' l')
      | inl still ↦
          let calls =
            timeout-calls a m' k i o p r l' still (found_at m' k i o l' still).0 kept timed in
          omega (arith, calls, before, after)
    ]

-- Where the tables are linked and a connection keeps an action that has expired and that the check
-- for timeouts has a request for, the callback of this action is called by the time that the worker
-- has made the check and handled the actions that are then in its queue, whatever they are.
pub timed_out-answered :
    (now k i : ℕ) (o : ConnData) (p : Pending) (r : Request) (m : ConnectionManager)
    → Linked m
    → get_connection m (external k) ≡ some (i, o)
    → o.action ≡ some p
    → expired now p ≡ true
    → timeout_request k o ≡ some r
    → called p.callback m < called p.callback (check_and_work now m)
unfolding expired timeout_actions
timed_out-answered now k i o p r m l found kept late timed =
    let (_, at, there) = found_at m k i o l found in
    let (pre, post, split) =
      all_timeouts-has now k i o m.objects (timeout_action now r) m.connections at there
        (ground (arith, kept, late, timed)) in
    let m' = record m { actions = [] } in
    rw (split_queue now m (timeout_action now r) pre post split)
      (queue-calls now k i o p r (m.actions ++ pre) post m' l (at_start m k i o found) kept timed)
