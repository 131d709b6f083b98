-- ===== src/ConnectionManager/Callbacks.antt =====
-- The callbacks that `ConnectionManager` is given are each called once, unless they still wait.
use coretools.Prelude.{
  ℕ, ◌+◌, ◌≡◌, refl, Bool, true, false, not, ◌==◌, if◌then◌else◌, Option, none, some, List, [], ◌∷◌,
  count_if, count_if-append, count_if-set, count_if-get_elem?, arith,
}
use coretools.ConnectionManager.Dict.{lookup}
use coretools.ConnectionManager.{
  State, connecting, Operation, Argument, external, Request, ConnectionAction, Pending, ConnData,
  ConnectionManager, place, register,
}
use coretools.ConnectionManager.Handlers.{
  Handled, call, handle, work, update, made_idle, pending_of,
}
use coretools.ConnectionManager.Linked.{Linked, removed, disconnected-place}
use coretools.ConnectionManager.Changes.{
  Change, ignored, refused, connected, began, ended, closed, closed_idle, lost, stays, Quiet,
  called_in_vain, cancel_args, is_force, begins, begun_state, is_lost, is_unknown,
}
use coretools.ConnectionManager.Handling.{handle-Handles}
use coretools.ConnectionManager.Runs.{handle-Linked}
use coretools.ConnectionManager.Waiting.{
  keeps, waiting, waiting-register, waiting-removed, waiting-update,
}

-- How often a callback was called.
abbrev pub called : ℕ → ConnectionManager → ℕ
called c m = count_if (λ x. x.callback == c) m.calls

-- One where an action begins something with the callback.
unfoldable pub begun_by : ℕ → ConnectionAction → ℕ
unfolding begins
begun_by c a = elim (begins a.request) [ none ↦ 0 | some d ↦ if d == c then 1 else 0 ]

unfoldable pub begun_by_all : ℕ → List ConnectionAction → ℕ
unfolding begun_by
begun_by_all c [] = 0
begun_by_all c (a ∷ q) = begun_by c a + begun_by_all c q

-- An operation that is begun is one of the three that the manager knows.
abbrev pub is_known : Request → Bool
is_known (Request.begin_operation k c name) = not (is_unknown (some name))
is_known _ = true

unfoldable pub AreKnown : List ConnectionAction → Type 0
AreKnown [] = Unit
AreKnown (a ∷ q) = (is_known a.request ≡ true) × AreKnown q

-- No object has an operation in progress that the manager does not know.
abbrev pub NoneUnknown : ConnectionManager → Type 0
NoneUnknown m = count_if is_lost m.objects ≡ 0

begun_state-known :
    (r : Request) (s : State) (n : Option Operation) (o : ConnData) (p : Option Pending)
    → begun_state r ≡ some (s, n)
    → is_known r ≡ true
    → is_lost (record o { state = s; microstate = n; action = p }) ≡ false
unfolding begun_state
begun_state-known (Request.begin_disconnection k c) s n o p e h = ground (arith, e)
begun_state-known (Request.begin_operation k c name) s n o p e h = ground (arith, e, h)
begun_state-known _ s n o p e h = absurd (ground (arith, e))

set-NoneUnknown :
    (i : ℕ) (o : ConnData) (m : ConnectionManager)
    → is_lost o ≡ false
    → NoneUnknown m
    → NoneUnknown (update i o m)
set-NoneUnknown i o m h k = omega (arith, k, count_if-set is_lost i m.objects o h)

register-NoneUnknown :
    (m : ConnectionManager) (o : ConnData)
    → NoneUnknown m
    → is_lost o ≡ false
    → NoneUnknown (register m o)
unfolding register
register-NoneUnknown m o k h = ground (arith, k, h, count_if-append is_lost m.objects (o ∷ []))

Change-NoneUnknown :
    (a : ConnectionAction) (m : ConnectionManager) (h : Handled)
    → is_known a.request ≡ true
    → NoneUnknown m
    → Change a m h
    → NoneUnknown h.1
unfolding register
Change-NoneUnknown a m h' h k (ignored _ _ e) = rw e k
Change-NoneUnknown a m h' h k (refused c args _ e) = rw e k
Change-NoneUnknown a m h' h k (connected c id int_id context _ free free_int e) =
    rw e (register-NoneUnknown m _ k refl)
Change-NoneUnknown a m h' h k (began i o c s n entry _ _ begun e) =
    rw e
      (set-NoneUnknown i _ m (begun_state-known a.request s n o (some (pending_of a c)) begun h) k)
Change-NoneUnknown a m h' h k (ended i o p args entry _ _ _ _ e) =
    rw e (set-NoneUnknown i (made_idle o) m refl k)
Change-NoneUnknown a m h' h k (closed i o p args entry _ _ _ _ e) = rw e k
Change-NoneUnknown a m h' h k (closed_idle i o entry _ _ _ e) = rw e k
Change-NoneUnknown a m h' h k (lost i o entry _ _ _ _ e) = rw e k
Change-NoneUnknown a m h' h k (stays i o p x entry _ _ _ _ e) = rw e k

unfoldable pub called_in_vain_all : ℕ → List ConnectionAction → ConnectionManager → ℕ
unfolding called_in_vain handle
called_in_vain_all c [] m = 0
called_in_vain_all c (a ∷ q) m =
    called_in_vain c m a.request + called_in_vain_all c q (handle a m).1

-- The callbacks called and waiting, and those that an action begins with or calls in vain.
abbrev Answers : ℕ → ConnectionAction → ConnectionManager → Handled → Type 0
Answers c a m h =
    called c h.1 + waiting c h.1
    ≡ called c m + waiting c m + begun_by c a + called_in_vain c m a.request

-- Where nothing is called in vain.
answers :
    (c : ℕ) (a : ConnectionAction) (m : ConnectionManager) (h : Handled)
    → Quiet a m
    → called c h.1 + waiting c h.1 ≡ called c m + waiting c m + begun_by c a
    → Answers c a m h
answers c a m h quiet e = omega (arith, e, quiet c)

-- What begins something is no unexpected disconnection.
begins-Quiet :
    (m : ConnectionManager) (r : Request) (d : ℕ)
    → begins r ≡ some d
    → (c : ℕ) → called_in_vain c m r ≡ 0
unfolding begins called_in_vain
begins-Quiet m r d begun c = ground (arith, begun)

pub called-call :
    (c d : ℕ) (args : List Argument) (m : ConnectionManager)
    → called c (call d args m) ≡ called c m + (if d == c then 1 else 0)
called-call c d args m = ground (
  arith,
  count_if-append (λ x. x.callback == c) m.calls (record { callback = d; arguments = args } ∷ []),
)

-- The object of a new connection.
abbrev begun_connection : ConnectionAction → ℕ → ℕ → ℕ → ℕ → ConnData
begun_connection a d id int_id context = record {
  state = connecting;
  microstate = none;
  connection_id = id;
  internal_id = int_id;
  action = some (pending_of a d);
  context = context;
}

-- The counts of waiting callbacks after a call.
waiting-call :
    (c d : ℕ) (args : List Argument) (m : ConnectionManager)
    → waiting c (call d args m) ≡ waiting c m
unfolding waiting
waiting-call c d args m = refl

register-Answers :
    (c d : ℕ) (o : ConnData) (m : ConnectionManager)
    → Linked m
    → lookup o.connection_id m.connections ≡ none
    → called c (register m o) + waiting c (register m o)
      ≡ called c m + waiting c m + keeps c o.action
unfolding register
register-Answers c d o m l free = omega (arith, waiting-register c m o l free)

-- A call in vain leaves the callback waiting.
in_vain-Answers :
    (c : ℕ) (a : ConnectionAction) (m : ConnectionManager) (h : Handled) (d : ℕ)
    (args : List Argument)
    → is_force a.request ≡ true
    → called_in_vain c m a.request ≡ (if d == c then 1 else 0)
    → h.1 ≡ call d args m
    → Answers c a m h
unfolding begun_by begins
in_vain-Answers c a m h d args force in_vain e =
    let none_begun : begun_by c a ≡ 0 = ground (arith, force) in
    rw (e, in_vain) (ground (arith, none_begun, called-call c d args m, waiting-call c d args m))

Change-Answers :
    (c : ℕ) (a : ConnectionAction) (m : ConnectionManager) (h : Handled)
    → Linked m
    → NoneUnknown m
    → Change a m h
    → Answers c a m h
unfolding keeps begun_by begins begun_state place
Change-Answers c a m h l k (ignored none_begun quiet e) =
    answers c a m h quiet (rw e (ground (arith, none_begun)))
Change-Answers c a m h l k (refused d args begun e) =
    answers c a m h (begins-Quiet m a.request d begun)
      (rw e (ground (arith, begun, called-call c d args m, waiting-call c d args m)))
Change-Answers c a m h l k (connected d id int_id context r free free_int e) =
    let at = disconnected-place m (external id) l (ground (arith, free)) in
    let o = begun_connection a d id int_id context in
    let new = register-Answers c d o m l at in
    answers c a m h (begins-Quiet m a.request d (ground (arith, r))) (rw e (ground (arith, r, new)))
Change-Answers c a m h l k (began i o d s n entry rest begun _ e) =
    let held = entry.held in
    let o' = record o { state = s; microstate = n; action = some (pending_of a d) } in
    let more = waiting-update c m i o o' l entry in
    answers c a m h (begins-Quiet m a.request d begun)
      (rw e (ground (arith, begun, rest, held, more)))
Change-Answers c a m h l k (ended i o p args entry kept none_begun _ quiet e) =
    let more = waiting-update c m i o (made_idle o) l entry in
    let m'' = update i (made_idle o) m in
    let once = called-call c p.callback args m'' in
    answers c a m h quiet
      (rw e (ground (arith, none_begun, kept, more, once, waiting-call c p.callback args m'')))
Change-Answers c a m h l k (closed i o p args entry kept none_begun _ quiet e) =
    let fewer = waiting-removed c m i o entry in
    let m'' = removed o m in
    let once = called-call c p.callback args m'' in
    answers c a m h quiet
      (rw e (ground (arith, none_begun, kept, fewer, once, waiting-call c p.callback args m'')))
Change-Answers c a m h l k (closed_idle i o entry free force quiet e) =
    let held = entry.held in
    let fewer = waiting-removed c m i o entry in
    answers c a m h quiet (rw e (ground (arith, force, held, free, fewer)))
Change-Answers c a m h l k (lost i o entry busy unknown force quiet e) =
    let known = count_if-get_elem? is_lost i m.objects o k entry.there in
    absurd (ground (arith, known, busy, unknown))
Change-Answers c a m h l k (stays i o p x entry kept force raises in_vain e) =
    in_vain-Answers c a m h p.callback (cancel_args m o) force (in_vain c) e

-- Where the tables are linked and no unknown operation is in progress, the actions that are handled
-- account for their callbacks, if the operations that they begin are known: those that were called and
-- those that wait are, together, the ones that had been called or waited before, the ones that the
-- actions begin with, and the calls for unexpected disconnections in which the callback raises an
-- exception. So each callback is called once, or still waits, but for those calls: after one of them
-- the callback goes on waiting.
pub work-answers :
    (c : ℕ) (q : List ConnectionAction) (m : ConnectionManager)
    → Linked m
    → NoneUnknown m
    → AreKnown q
    → called c (work q m) + waiting c (work q m)
      ≡ called c m + waiting c m + begun_by_all c q + called_in_vain_all c q m
unfolding work begun_by_all AreKnown called_in_vain_all
work-answers c [] m l k h = omega arith
work-answers c (a ∷ q) m l k h =
    let change = (handle-Handles a m l).1 in
    let m' = (handle a m).1 in
    let one = Change-Answers c a m (handle a m) l k change in
    let rest =
      work-answers c q m' (handle-Linked a m l) (Change-NoneUnknown a m (handle a m) h.0 k change)
        h.1 in
    omega (arith, one, rest)
