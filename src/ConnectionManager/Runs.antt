-- ===== src/ConnectionManager/Runs.antt =====
-- What every run of `ConnectionManager` keeps: requests from any thread, connections added, and turns
-- of the worker, in any order.
use coretools.Prelude.{
  ℕ, ◌≡◌, refl, ◌∙◌, ap, true, Option, none, some, List, [], ◌∷◌, ◌++◌, get_elem?, append-nil,
  append_assoc, not, if◌then◌else◌, Bool-cases, Option-cases, inl, inr, arith,
}
use coretools.Errors.{Error}
use coretools.ConnectionManager.Dict.{lookup, AreDistinct}
use coretools.ConnectionManager.{
  register, Argument, State, Operation, external, internal, Request, ConnectionAction, Pending,
  ConnData, ConnectionManager, init, put, place, add_connection, get_connection_state, both_free,
  is_disconnected, expired,
}
use coretools.ConnectionManager.Handlers.{
  Handled, handle, check_one, check_items, check_timeouts, timeout_request, turn, take_action,
  default_timeout,
}
use coretools.ConnectionManager.Linked.{
  Linked, disconnected-place, register-Linked, update-Linked, removed-Linked, holds,
}
use coretools.ConnectionManager.Changes.{
  Change, ignored, refused, connected, began, ended, closed, closed_idle, lost, stays, Explained,
  begun_state,
}
use coretools.ConnectionManager.Handling.{handle-Handles}

free_places :
    (m : ConnectionManager) (id int_id : ℕ)
    → Linked m
    → is_disconnected (get_connection_state m (external id)) ≡ true
    → is_disconnected (get_connection_state m (internal int_id)) ≡ true
    → (place m (external id) ≡ none) × (place m (internal int_id) ≡ none)
free_places m id int_id l f g =
    (disconnected-place m (external id) l f, disconnected-place m (internal int_id) l g)

-- What an action begins is no idle state.
begun_state-holds :
    (r : Request) (s : State) (n : Option Operation) (p : Pending)
    → begun_state r ≡ some (s, n)
    → holds s (some p) ≡ true
unfolding begun_state
begun_state-holds (Request.begin_disconnection k c) s n p e = ground (arith, e)
begun_state-holds (Request.begin_operation k c name) s n p e = ground (arith, e)
begun_state-holds _ s n p e = absurd (ground (arith, e))

-- A change keeps the tables linked.
pub Change-Linked :
    (a : ConnectionAction) (m : ConnectionManager) (h : Handled)
    → Linked m
    → Change a m h
    → Linked h.1
unfolding place
Change-Linked a m h l (ignored _ _ e) = rw e l
Change-Linked a m h l (refused c args _ e) = rw e l
Change-Linked a m h l (connected c id int_id context _ free free_int e) =
    let (at, at_int) =
      free_places m id int_id l (ground (arith, free)) (ground (arith, free_int)) in
    rw e (register-Linked m _ at at_int l refl)
Change-Linked a m h l (began i o c s n entry _ _ begun e) =
    rw e (update-Linked m i o _ entry.there refl refl (begun_state-holds a.request s n _ begun) l)
Change-Linked a m h l (ended i o p args entry _ _ _ _ e) =
    rw e (update-Linked m i o _ entry.there refl refl refl l)
Change-Linked a m h l (closed i o p args entry _ _ _ _ e) = rw e (removed-Linked m i o l entry)
Change-Linked a m h l (closed_idle i o entry _ _ _ e) = rw e (removed-Linked m i o l entry)
Change-Linked a m h l (lost i o entry _ _ _ _ e) = rw e (removed-Linked m i o l entry)
Change-Linked a m h l (stays i o p x entry _ _ _ _ e) = rw e l

-- A change leaves what the callbacks raise.
Change-raised_by :
    (a : ConnectionAction) (m : ConnectionManager) (h : Handled)
    → Change a m h
    → h.1.raised_by ≡ m.raised_by
unfolding register
Change-raised_by a m h (ignored _ _ e) = rw e refl
Change-raised_by a m h (refused c args _ e) = rw e refl
Change-raised_by a m h (connected c id int_id context _ _ _ e) = rw e refl
Change-raised_by a m h (began i o c s n _ _ _ _ e) = rw e refl
Change-raised_by a m h (ended i o p args _ _ _ _ _ e) = rw e refl
Change-raised_by a m h (closed i o p args _ _ _ _ _ e) = rw e refl
Change-raised_by a m h (closed_idle i o _ _ _ _ e) = rw e refl
Change-raised_by a m h (lost i o _ _ _ _ _ e) = rw e refl
Change-raised_by a m h (stays i o p x _ _ _ _ _ e) = rw e refl

pub handle-Linked :
    (a : ConnectionAction) (m : ConnectionManager) → Linked m → Linked (handle a m).1
handle-Linked a m l = Change-Linked a m (handle a m) l (handle-Handles a m l).1

-- The actions that the check for timeouts adds, for one connection and for all.
unfoldable pub timeout_actions : ℕ → ℕ → ConnData → List ConnectionAction
timeout_actions now id o = elim o.action [
  | none ↦ []
  | some p ↦ if not (expired now p) then [] else elim (timeout_request id o) [
    | none ↦ []
    | some request ↦
        record { request = request; timeout = some default_timeout; start_time = now } ∷ []
  ]
]

unfoldable pub all_timeouts : ℕ → List ConnData → List (ℕ × ℕ) → List ConnectionAction
unfolding timeout_actions
all_timeouts now objects [] = []
all_timeouts now objects ((id, i) ∷ items) =
    elim (get_elem? objects i) [ none ↦ [] | some o ↦ timeout_actions now id o ]
    ++ all_timeouts now objects items

-- The check for timeouts only adds actions.
check_one-actions :
    (now id : ℕ) (o : ConnData) (m : ConnectionManager)
    → check_one now id o m ≡ record m { actions = m.actions ++ timeout_actions now id o }
unfolding check_one put timeout_actions
check_one-actions now id o m = ground (arith, append-nil m.actions)

check_items-actions :
    (now : ℕ) (items : List (ℕ × ℕ)) (m : ConnectionManager)
    → check_items now items m ≡ record m { actions = m.actions ++ all_timeouts now m.objects items }
unfolding check_items all_timeouts
check_items-actions now [] m = ground (arith, append-nil m.actions)
check_items-actions now ((id, i) ∷ items) m = elim (Option-cases (get_elem? m.objects i)) [
  | inl missing ↦ rw missing (check_items-actions now items m)
  | inr (o, there) ↦
      rw (there, check_one-actions now id o m)
        (check_items-actions now items
            (record m { actions = m.actions ++ timeout_actions now id o })
          ∙ ap (λ q. record m { actions = q })
              (append_assoc m.actions (timeout_actions now id o)
                (all_timeouts now m.objects items)))
]

pub check_timeouts-actions :
    (now : ℕ) (m : ConnectionManager)
    → check_timeouts now m
      ≡ record m { actions = m.actions ++ all_timeouts now m.objects m.connections }
unfolding check_timeouts
check_timeouts-actions now m = check_items-actions now m.connections m

-- A step of a run.
pub data Step (m m' : ConnectionManager) : Type 0 where
  requested :
      (now : ℕ) (request : Request) (timeout : Option ℕ)
      → m' ≡ put now request timeout m
      → Step m m'
  added : (id int_id context : ℕ) → m' ≡ add_connection m id int_id context → Step m m'
  turned : (now : ℕ) → m' ≡ (turn now m).1 → Step m m'

pub data Reach (m : ConnectionManager) : ConnectionManager → Type 0 where
  here : Reach m m
  next : {b c : ConnectionManager} → Reach m b → Step b c → Reach m c

add_connection-Linked :
    (m : ConnectionManager) (id int_id context : ℕ)
    → Linked m
    → Linked (add_connection m id int_id context)
unfolding add_connection place
add_connection-Linked m id int_id context l = elim (Bool-cases (both_free m id int_id)) [
  | inr used ↦ rw used l
  | inl free ↦
      let (at, at_int) = free_places m id int_id l (ground (arith, free)) (ground (arith, free)) in
      rw free (register-Linked m _ at at_int l refl)
]

-- A turn keeps the tables linked and what the callbacks raise, and raises only what they do.
abbrev Keeps : ConnectionManager → Handled → Type 0
Keeps m h = Explained m h × Linked h.1 × (h.1.raised_by ≡ m.raised_by)

take_action-Keeps :
    (q : List ConnectionAction) (m : ConnectionManager) → Linked m → Keeps m (take_action q m)
unfolding take_action
take_action-Keeps [] m l = (inl refl, l, refl)
take_action-Keeps (a ∷ rest) m l =
    let m' = record m { actions = rest } in
    let l' : Linked m' = l in
    let (explained, change) = handle-Handles a m' l' in
    (explained, handle-Linked a m' l', Change-raised_by a m' (handle a m') change)

turn-Keeps : (now : ℕ) (m : ConnectionManager) → Linked m → Keeps m (turn now m)
unfolding turn
turn-Keeps now m l = rw (check_timeouts-actions now m) (take_action-Keeps _ _ l)

init-Linked : (id : ℕ) (callbacks : ℕ → List Argument → Option Error) → Linked (init id callbacks)
unfolding init AreDistinct lookup
init-Linked id callbacks = record {
  distinct = tt;
  distinct_int = tt;
  entry = λ k i e. absurd (ground (arith, e));
  int_entry = λ k i e. absurd (ground (arith, e));
}

put-Linked :
    (now : ℕ) (request : Request) (timeout : Option ℕ) (m : ConnectionManager)
    → Linked m
    → Linked (put now request timeout m)
unfolding put
put-Linked now request timeout m l = l

add_connection-raised_by :
    (m : ConnectionManager) (id int_id context : ℕ)
    → (add_connection m id int_id context).raised_by ≡ m.raised_by
unfolding add_connection register
add_connection-raised_by m id int_id context = elim (Bool-cases (both_free m id int_id)) [
  | inr used ↦ rw used refl
  | inl free ↦ rw free refl
]

put-raised_by :
    (now : ℕ) (request : Request) (timeout : Option ℕ) (m : ConnectionManager)
    → (put now request timeout m).raised_by ≡ m.raised_by
unfolding put
put-raised_by now request timeout m = refl

init-raised_by :
    (id : ℕ) (callbacks : ℕ → List Argument → Option Error)
    → (init id callbacks).raised_by ≡ callbacks
unfolding init
init-raised_by id callbacks = refl

-- Whatever is requested, added and handled, in whatever order and at whatever times, and whatever
-- exceptions the callbacks raise, the two tables hold the same connections under their two ids, and a
-- connection keeps an action exactly where it is not idle; the callbacks raise what they did at first;
-- and a turn of the worker then raises either nothing or what the one callback that it calls raises.
pub Reach-Linked :
    (id : ℕ) (callbacks : ℕ → List Argument → Option Error) (m : ConnectionManager)
    → Reach (init id callbacks) m
    → Linked m × (m.raised_by ≡ callbacks) × ((now : ℕ) → Explained m (turn now m))
Reach-Linked id callbacks m r =
    let (l, fixed) = kept m r in (l, fixed, λ now. (turn-Keeps now m l).0)
  where
    kept :
        (m : ConnectionManager) → Reach (init id callbacks) m → Linked m × (m.raised_by ≡ callbacks)
    kept m here = (init-Linked id callbacks, init-raised_by id callbacks)
    kept m (next r (requested now request timeout e)) =
        let (l, fixed) = kept _ r in
        rw e (put-Linked now request timeout _ l, put-raised_by now request timeout _ ∙ fixed)
    kept m (next r (added id' int_id context e)) =
        let (l, fixed) = kept _ r in
        rw e (
          add_connection-Linked _ id' int_id context l,
          add_connection-raised_by _ id' int_id context ∙ fixed,
        )
    kept m (next r (turned now e)) =
        let (l, fixed) = kept _ r in
        let (_, l', same) = turn-Keeps now _ l in rw e (l', same ∙ fixed)
