-- ===== src/ConnectionManager/Transitions.antt =====
-- The states of a connection, and the pattern that the documentation of `ConnectionManager` draws.
use coretools.Prelude.{
  ℕ, ◌≡◌, ◌⊎◌, refl, true, ◌||◌, ◌==◌, Option, none, some, List, Bool-cases, inl, inr, arith,
}
use coretools.ConnectionManager.{
  State, Operation, Argument, disconnected, connecting, idle, Key, external, internal, Request,
  ConnectionAction, ConnData, ConnectionManager, place, register, get_connection,
  get_connection_state,
}
use coretools.ConnectionManager.Handlers.{Handled, call, handle, update, made_idle}
use coretools.ConnectionManager.Linked.{
  Linked, EntryOf, absent, present, find, removed, disconnected-place,
}
use coretools.ConnectionManager.Lookups.{
  get_connection-update, get_connection-update-none, get_connection-removed,
  get_connection-removed-none, get_connection-register, get_connection-register-none,
}
use coretools.ConnectionManager.Changes.{
  Change, ignored, refused, connected, began, ended, closed, closed_idle, lost, stays, cancel_args,
  documented, moves_back, moves_to, is_force, begun_state,
}
use coretools.ConnectionManager.Handling.{handle-Handles}

-- The state stays, moves as documented, or moves back in one of the three other ways.
abbrev pub Moves : ConnectionAction → State → State → Type 0
Moves a s s' = (s' ≡ s) ⊎ (documented s s' || moves_back a.request s s' ≡ true)

-- One object changes its state.
state-update :
    (a : ConnectionAction) (m : ConnectionManager) (k : Key) (i : ℕ) (o o' : ConnData)
    → Linked m
    → EntryOf m i o
    → moves_to a.request o.state o'.state ≡ true
    → Moves a (get_connection_state m k) (get_connection_state (update i o' m) k)
unfolding get_connection_state
state-update a m k i o o' l entry d = elim (find m k l) [
  | absent e missing ↦ inl (ground (arith, e, get_connection-update-none m k i o' missing))
  | present j p e other ↦
      let now = get_connection-update m k i j o' p e in
      elim (Bool-cases (i == j)) [
        | inr apart ↦ inl (ground (arith, e, now, apart))
        | inl same ↦
            let there = entry.there in
            let at = other.there in
            let it : p ≡ o = ground (arith, same, there, at) in
            inr (ground (arith, e, now, same, it, d))
      ]
]

state-removed :
    (a : ConnectionAction) (m : ConnectionManager) (k : Key) (i : ℕ) (o : ConnData)
    → Linked m
    → EntryOf m i o
    → moves_to a.request o.state disconnected ≡ true
    → Moves a (get_connection_state m k) (get_connection_state (removed o m) k)
unfolding get_connection_state
state-removed a m k i o l entry d = elim (find m k l) [
  | absent e missing ↦ inl (ground (arith, e, get_connection-removed-none m k i o l entry missing))
  | present j p e other ↦
      let now = get_connection-removed m k i j o p l entry e in
      elim (Bool-cases (i == j)) [
        | inr apart ↦ inl (ground (arith, e, now, apart))
        | inl same ↦
            let there = entry.there in
            let at = other.there in
            let it : p ≡ o = ground (arith, same, there, at) in
            inr (ground (arith, e, now, same, it, d))
      ]
]

state-register :
    (a : ConnectionAction) (m : ConnectionManager) (k : Key) (o : ConnData)
    → Linked m
    → place m (external o.connection_id) ≡ none
    → place m (internal o.internal_id) ≡ none
    → o.state ≡ connecting
    → Moves a (get_connection_state m k) (get_connection_state (register m o) k)
unfolding get_connection_state documented
state-register a m k o l free free_int new = elim (find m k l) [
  | absent e missing ↦ elim (get_connection-register-none m o free free_int k missing) [
    | inl still ↦ inl (ground (arith, e, still))
    | inr here ↦ inr (ground (arith, e, here, new))
  ]
  | present j p e other ↦ inl (ground (arith, e, get_connection-register m o free free_int k j p e))
]

-- A call of a callback changes no state.
state-call :
    (m : ConnectionManager) (c : ℕ) (args : List Argument) (k : Key)
    → get_connection_state (call c args m) k ≡ get_connection_state m k
unfolding get_connection_state get_connection place
state-call m c args (external k) = refl
state-call m c args (internal k) = refl

-- An unexpected disconnection may come in any state.
forced : (r : Request) (s : State) → is_force r ≡ true → moves_to r s disconnected ≡ true
unfolding moves_back
forced (Request.force_disconnect k) s f = ground arith
forced _ s f = absurd (ground (arith, f))

beginning :
    (r : Request) (s : State) (n : Option Operation)
    → begun_state r ≡ some (s, n)
    → documented idle s ≡ true
unfolding begun_state documented
beginning (Request.begin_disconnection k c) s n e = ground (arith, e)
beginning (Request.begin_operation k c name) s n e = ground (arith, e)
beginning _ s n e = absurd (ground (arith, e))

-- Where the tables are linked, an action that is handled leaves the state of a connection, under either
-- of its ids, as it is or moves it along the pattern of the documentation, with three exceptions: from
-- connecting to `disconnected` where `finish_connection` tells of a failure, from disconnecting back to
-- idle where `finish_disconnection` does, and from any state to `disconnected` by `force_disconnect`.
pub handle-Moves :
    (a : ConnectionAction) (m : ConnectionManager) (k : Key)
    → Linked m
    → Moves a (get_connection_state m k) (get_connection_state (handle a m).1 k)
handle-Moves a m k l = by_change (handle a m) (handle-Handles a m l).1
  where
    by_change :
        (h : Handled)
        → Change a m h
        → Moves a (get_connection_state m k) (get_connection_state h.1 k)
    by_change h (ignored _ _ e) = rw e (inl refl)
    by_change h (refused c args _ e) = rw e (inl (state-call m c args k))
    by_change h (connected c id int_id context _ free free_int e) = rw e (
        state-register a m k _ l (disconnected-place m (external id) l (ground (arith, free)))
          (disconnected-place m (internal int_id) l (ground (arith, free_int))) refl)
    by_change h (began i o c s n entry rest _ begun e) = rw e (
        state-update a m k i o _ l entry
          (let d = beginning a.request s n begun in ground (arith, rest, d)))
    by_change h (ended i o p args entry kept _ ok _ e) =
        rw (e, state-call (update i (made_idle o) m) p.callback args k)
          (state-update a m k i o (made_idle o) l entry ok)
    by_change h (closed i o p args entry kept _ ok _ e) =
        rw (e, state-call (removed o m) p.callback args k) (state-removed a m k i o l entry ok)
    by_change h (closed_idle i o entry _ force _ e) =
        rw e (state-removed a m k i o l entry (forced a.request o.state force))
    by_change h (lost i o entry _ _ force _ e) =
        rw e (state-removed a m k i o l entry (forced a.request o.state force))
    by_change h (stays i o p x entry _ _ _ _ e) =
        rw e (inl (state-call m p.callback (cancel_args m o) k))
