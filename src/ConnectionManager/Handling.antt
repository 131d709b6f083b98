-- ===== src/ConnectionManager/Handling.antt =====
-- The handlers of `ConnectionManager` that begin or cancel something, and their choice by the action.
use coretools.Prelude.{
  ℕ, ◌≡◌, refl, ap, Option-cases, true, false, ◌||◌, none, some, List, Bool-cases, inl, inr, arith,
}
use coretools.ConnectionManager.{
  is_idle, not_idle_to_disconnect, not_idle_to_operate, connection_id_in_use, internal_id_in_use,
  in_progress, disconnecting, Operation, Key, external, internal, Argument, Request,
  ConnectionAction, Pending, ConnData, ConnectionManager, get_connection, get_connection_state,
  is_disconnected,
}
use coretools.ConnectionManager.Handlers.{
  Handled, call, calling, outcome, handle, dispatch, begin_connection_action,
  force_disconnect_action, begin_disconnection_action, begin_operation_action, cancel,
}
use coretools.ConnectionManager.Linked.{Linked, EntryOf, absent, present, find, remove-removed}
use coretools.ConnectionManager.Changes.{
  cancel_args, calling-Explained, stays, documented, moves_back, called_in_vain, is_lost, ignored,
  refused, connected, began, closed, closed_idle, lost, Handles, kept_action, begins, begun_state,
}
use coretools.ConnectionManager.Finishing.{
  finish_connection-Handles, finish_disconnection-Handles, finish_operation-Handles,
}

-- A handler that only calls the callback of the action that begins something.
refusing :
    (a : ConnectionAction) (c : ℕ) (args : List Argument) (m : ConnectionManager) (h : Handled)
    → begins a.request ≡ some c
    → h ≡ calling c args m
    → Handles a m h
refusing a c args m h begun done =
    (calling-Explained c args m m h refl refl done, refused c args begun (ap (λ h. h.1) done))

begin_disconnection-Handles :
    (a : ConnectionAction) (k : Key) (c : ℕ) (m : ConnectionManager)
    → a.request ≡ Request.begin_disconnection k c
    → Linked m
    → Handles a m (begin_disconnection_action a k c m)
unfolding begin_disconnection_action begins begun_state
begin_disconnection-Handles a k c m e l =
    let args = outcome m k false (some not_idle_to_disconnect) in
    elim (find m k l) [
      | absent g missing ↦
          let done : begin_disconnection_action a k c m ≡ calling c args m = ground (arith, g) in
          refusing a c args m _ (ground (arith, e)) done
      | present i o g entry ↦ elim (Bool-cases (is_idle o.state)) [
        | inr unapt ↦
            let done : begin_disconnection_action a k c m ≡ calling c args m =
              ground (arith, g, unapt) in
            refusing a c args m _ (ground (arith, e)) done
        | inl apt ↦ (
          inl (ground (arith, g, apt)),
          began i o c disconnecting none entry (ground (arith, apt)) (ground (arith, e))
              (ground (arith, e)) (ground (arith, g, apt)),
        )
      ]
    ]

begin_operation-Handles :
    (a : ConnectionAction) (k : Key) (c : ℕ) (name : Operation) (m : ConnectionManager)
    → a.request ≡ Request.begin_operation k c name
    → Linked m
    → Handles a m (begin_operation_action a k c name m)
unfolding begin_operation_action begins begun_state
begin_operation-Handles a k c name m e l =
    let args = outcome m k false (some not_idle_to_operate) in
    elim (find m k l) [
      | absent g missing ↦
          let done : begin_operation_action a k c name m ≡ calling c args m = ground (arith, g) in
          refusing a c args m _ (ground (arith, e)) done
      | present i o g entry ↦ elim (Bool-cases (is_idle o.state)) [
        | inr unapt ↦
            let done : begin_operation_action a k c name m ≡ calling c args m =
              ground (arith, g, unapt) in
            refusing a c args m _ (ground (arith, e)) done
        | inl apt ↦ (
          inl (ground (arith, g, apt)),
          began i o c in_progress (some name) entry (ground (arith, apt)) (ground (arith, e))
              (ground (arith, e)) (ground (arith, g, apt)),
        )
      ]
    ]

begin_connection-Handles :
    (a : ConnectionAction) (c id int_id context : ℕ) (m : ConnectionManager)
    → a.request ≡ Request.begin_connection c id int_id context
    → Handles a m (begin_connection_action a c id int_id context m)
unfolding begin_connection_action begins
begin_connection-Handles a c id int_id context m e =
    let first = Bool-cases (is_disconnected (get_connection_state m (external id))) in
    let second = Bool-cases (is_disconnected (get_connection_state m (internal int_id))) in
    elim first [
      | inr used ↦
          let args = outcome m (external id) false (some connection_id_in_use) in
          let done : begin_connection_action a c id int_id context m ≡ calling c args m =
            ground (arith, used) in
          refusing a c args m _ (ground (arith, e)) done
      | inl free ↦ elim second [
        | inr used ↦
            let args = outcome m (external id) false (some internal_id_in_use) in
            let done : begin_connection_action a c id int_id context m ≡ calling c args m =
              ground (arith, free, used) in
            refusing a c args m _ (ground (arith, e)) done
        | inl free_int ↦ (
          inl (ground (arith, free, free_int)),
          connected c id int_id context e (ground (arith, free)) (ground (arith, free_int))
              (ground (arith, free, free_int)),
        )
      ]
    ]

cancel-answers :
    (m : ConnectionManager) (i : ℕ) (o : ConnData) (p : Pending)
    → o.action ≡ some p
    → is_idle o.state ≡ false
    → is_disconnected o.state ≡ false
    → is_lost o ≡ false
    → cancel o m ≡ calling p.callback (cancel_args m o) m
unfolding cancel
cancel-answers m i o p kept busy there known = ground (arith, kept, busy, there, known)

cancel-skips :
    (m : ConnectionManager) (i : ℕ) (o : ConnData)
    → EntryOf m i o
    → is_idle o.state || is_lost o ≡ true
    → cancel o m ≡ (none, m)
unfolding cancel
cancel-skips m i o entry h = let held = entry.held in ground (arith, held, h)

-- The callback of what is in progress is called, and the connection is removed unless it raises.
canceling-Handles :
    (a : ConnectionAction) (k : Key) (m : ConnectionManager) (i : ℕ) (o : ConnData) (p : Pending)
    → a.request ≡ Request.force_disconnect k
    → get_connection m k ≡ some (i, o)
    → EntryOf m i o
    → o.action ≡ some p
    → is_idle o.state ≡ false
    → is_lost o ≡ false
    → Handles a m (force_disconnect_action k m)
unfolding force_disconnect_action begins documented moves_back called_in_vain
canceling-Handles a k m i o p e g entry kept busy known =
    let held = entry.held in
    let there : is_disconnected o.state ≡ false = ground (arith, held) in
    let args = cancel_args m o in
    let answered = cancel-answers m i o p kept busy there known in
    elim (Option-cases (m.raised_by p.callback args)) [
      | inr (x, raised) ↦
          let done : force_disconnect_action k m ≡ calling p.callback args m =
            ground (arith, g, there, answered, raised) in
          (
            calling-Explained p.callback args m m _ refl refl done,
            stays i o p x entry kept (ground (arith, e)) raised
                (λ c. ground (arith, e, g, kept, raised, known)) (ap (λ h. h.1) done),
          )
      | inl quiet ↦
          let gone = remove-removed (call p.callback args m) i o (record {
            there = entry.there;
            by_id = entry.by_id;
            by_internal = entry.by_internal;
            held = entry.held;
          }) in
          (
            inl (ground (arith, g, there, answered, quiet, gone)),
            closed i o p args entry kept (ground (arith, e)) (ground (arith, e))
                (λ c. ground (arith, e, g, kept, quiet))
                (ground (arith, g, there, answered, quiet, gone)),
          )
    ]

force_disconnect-Handles :
    (a : ConnectionAction) (k : Key) (m : ConnectionManager)
    → a.request ≡ Request.force_disconnect k
    → Linked m
    → Handles a m (force_disconnect_action k m)
unfolding force_disconnect_action begins called_in_vain
force_disconnect-Handles a k m e l = elim (find m k l) [
  | absent g missing ↦ (
    inl (ground (arith, g)),
    ignored (ground (arith, e)) (λ c. ground (arith, e, g)) (ground (arith, g)),
  )
  | present i o g entry ↦
      let held = entry.held in
      let gone = remove-removed m i o entry in
      let there : is_disconnected o.state ≡ false = ground (arith, held) in
      elim (Bool-cases (is_idle o.state)) [
        | inl free ↦
            let skip = cancel-skips m i o entry (ground (arith, free)) in
            (
              inl (ground (arith, g, there, skip, gone)),
              closed_idle i o entry (ground (arith, free)) (ground (arith, e))
                  (λ c. ground (arith, e, g, held, free)) (ground (arith, g, there, skip, gone)),
            )
        | inr busy ↦
            let (p, kept) = kept_action m i o entry busy in
            elim (Bool-cases (is_lost o)) [
              | inl unknown ↦
                  let skip = cancel-skips m i o entry (ground (arith, unknown)) in
                  (
                    inl (ground (arith, g, there, skip, gone)),
                    lost i o entry (ground (arith, unknown)) (ground (arith, unknown))
                        (ground (arith, e)) (λ c. ground (arith, e, g, kept, unknown))
                        (ground (arith, g, there, skip, gone)),
                  )
              | inr known ↦ canceling-Handles a k m i o p e g entry kept busy known
            ]
      ]
]

dispatch-Handles :
    (a : ConnectionAction) (m : ConnectionManager) (r : Request)
    → a.request ≡ r
    → Linked m
    → Handles a m (dispatch a m r)
unfolding dispatch
dispatch-Handles a m (Request.begin_connection c id int_id context) e l =
    begin_connection-Handles a c id int_id context m e
dispatch-Handles a m (Request.finish_connection k ok why) e l =
    finish_connection-Handles a k ok why m e l
dispatch-Handles a m (Request.finish_disconnection k ok why) e l =
    finish_disconnection-Handles a k ok why m e l
dispatch-Handles a m (Request.force_disconnect k) e l = force_disconnect-Handles a k m e l
dispatch-Handles a m (Request.begin_disconnection k c) e l = begin_disconnection-Handles a k c m e l
dispatch-Handles a m (Request.begin_operation k c name) e l =
    begin_operation-Handles a k c name m e l
dispatch-Handles a m (Request.finish_operation k ok args) e l =
    finish_operation-Handles a k ok args m e l

-- Where the tables are linked a handler raises only what a callback raises, and makes one of the changes.
pub handle-Handles :
    (a : ConnectionAction) (m : ConnectionManager) → Linked m → Handles a m (handle a m)
unfolding handle
handle-Handles a m l = dispatch-Handles a m a.request refl l
