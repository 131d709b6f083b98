-- ===== src/ConnectionManager/Outcomes.antt =====
-- What becomes of a connection of `ConnectionManager` that waits: it goes on, or its callback is called.
use coretools.Prelude.{
  ℕ, ◌≡◌, ◌⊎◌, ◌≤◌, ◌<◌, refl, true, false, ◌==◌, some, List, [], ◌∷◌, ◌++◌, Bool-cases, inl, inr,
  arith,
}
use coretools.ConnectionManager.{
  register, external, internal, Argument, ConnectionAction, Pending, ConnData, ConnectionManager,
  place, get_connection,
}
use coretools.ConnectionManager.Handlers.{Handled, call, handle, work, update, made_idle}
use coretools.ConnectionManager.Linked.{
  Linked, EntryOf, removed, disconnected-place, absent, present, find,
}
use coretools.ConnectionManager.Lookups.{
  get_connection-update, get_connection-removed, get_connection-register,
}
use coretools.ConnectionManager.Changes.{
  Change, ignored, refused, connected, began, ended, closed, closed_idle, lost, stays, cancel_args,
  is_lost,
}
use coretools.ConnectionManager.Handling.{handle-Handles}
use coretools.ConnectionManager.Runs.{handle-Linked}
use coretools.ConnectionManager.Callbacks.{called, called-call}

called_le-Change :
    (c : ℕ) (a : ConnectionAction) (m : ConnectionManager) (h : Handled)
    → Change a m h
    → called c m ≤ called c h.1
unfolding register
called_le-Change c a m h (ignored _ _ e) = rw e (omega arith)
called_le-Change c a m h (refused d args _ e) = rw e (omega (arith, called-call c d args m))
called_le-Change c a m h (connected d id int_id context r free free_int e) = rw e (omega arith)
called_le-Change c a m h (began i o d s n entry rest begun _ e) = rw e (omega arith)
called_le-Change c a m h (ended i o p args entry kept none_begun _ _ e) =
    rw e (omega (arith, called-call c p.callback args (update i (made_idle o) m)))
called_le-Change c a m h (closed i o p args entry kept none_begun _ _ e) =
    rw e (omega (arith, called-call c p.callback args (removed o m)))
called_le-Change c a m h (closed_idle i o entry free force _ e) = rw e (omega arith)
called_le-Change c a m h (lost i o entry busy unknown force _ e) = rw e (omega arith)
called_le-Change c a m h (stays i o p x entry kept force raises raised e) =
    rw e (omega (arith, called-call c p.callback (cancel_args m o) m))

pub called_le-handle :
    (c : ℕ) (a : ConnectionAction) (m : ConnectionManager)
    → Linked m
    → called c m ≤ called c (handle a m).1
called_le-handle c a m l = called_le-Change c a m (handle a m) (handle-Handles a m l).1

pub called_le-work :
    (c : ℕ) (q : List ConnectionAction) (m : ConnectionManager)
    → Linked m
    → called c m ≤ called c (work q m)
unfolding work
called_le-work c [] m l = omega arith
called_le-work c (a ∷ q) m l =
    omega (arith, called_le-handle c a m l, called_le-work c q (handle a m).1 (handle-Linked a m l))

pub work-Linked : (q : List ConnectionAction) (m : ConnectionManager) → Linked m → Linked (work q m)
unfolding work
work-Linked [] m l = l
work-Linked (a ∷ q) m l = work-Linked q (handle a m).1 (handle-Linked a m l)

pub work-append :
    (q q' : List ConnectionAction) (m : ConnectionManager) → work (q ++ q') m ≡ work q' (work q m)
unfolding work
work-append [] q' m = refl
work-append (a ∷ q) q' m = work-append q q' (handle a m).1

-- The connection under `k` is at the place `i`, and keeps the action `p` in the object `o`.
module _ (k i : ℕ) (o : ConnData) (p : Pending) (kept : o.action ≡ some p)
    (known : is_lost o ≡ false) where
  abbrev pub Waits : ConnectionManager → Type 0
  Waits m = get_connection m (external k) ≡ some (i, o)

  -- The entry that waits, or another.
  same_entry :
      (m : ConnectionManager) (j : ℕ) (o' : ConnData)
      → Linked m
      → Waits m
      → EntryOf m j o'
      → (j == i) ≡ true
      → o' ≡ o
  same_entry m j o' l w entry same = elim (find m (external k) l) [
    | absent e _ ↦ absurd (ground (arith, e, w))
    | present h q e other ↦
        let there = entry.there in let at = other.there in ground (arith, e, w, there, at, same)
  ]

  removed-Waits :
      (m : ConnectionManager) (j : ℕ) (o' : ConnData)
      → Linked m
      → Waits m
      → EntryOf m j o'
      → (j == i) ≡ false
      → Waits (removed o' m)
  removed-Waits m j o' l w entry apart =
      ground (arith, apart, get_connection-removed m (external k) j i o' o l entry w)

  update-Waits :
      (m : ConnectionManager) (j : ℕ) (o' : ConnData)
      → Waits m
      → (j == i) ≡ false
      → Waits (update j o' m)
  update-Waits m j o' w apart =
      ground (arith, apart, get_connection-update m (external k) j i o' o w)

  call-Waits :
      (m : ConnectionManager) (c : ℕ) (args : List Argument) → Waits m → Waits (call c args m)
  unfolding get_connection place
  call-Waits m c args w = w

  -- A change leaves the connection waiting, or calls its callback.
  Change-Waits :
      (a : ConnectionAction) (m : ConnectionManager) (h : Handled)
      → Linked m
      → Waits m
      → Change a m h
      → Waits h.1 ⊎ (called p.callback m < called p.callback h.1)
  unfolding place
  Change-Waits a m h l w (ignored _ _ e) = rw e (inl w)
  Change-Waits a m h l w (refused d args _ e) = rw e (inl (call-Waits m d args w))
  Change-Waits a m h l w (connected d id int_id context r free free_int e) =
      let at = disconnected-place m (external id) l (ground (arith, free)) in
      let at_int = disconnected-place m (internal int_id) l (ground (arith, free_int)) in
      rw e (inl (get_connection-register m _ at at_int (external k) i o w))
  Change-Waits a m h l w (began j o' d s n entry rest begun _ e) = elim (Bool-cases (j == i)) [
    | inr apart ↦ rw e (inl (update-Waits m j _ w apart))
    | inl same ↦
        let it = same_entry m j o' l w entry same in
        let held = entry.held in absurd (ground (arith, it, held, rest, kept))
  ]
  Change-Waits a m h l w (ended j o' p' args entry kept' _ _ _ e) = elim (Bool-cases (j == i)) [
    | inr apart ↦ rw e (inl (call-Waits _ p'.callback args (update-Waits m j _ w apart)))
    | inl same ↦
        let it = same_entry m j o' l w entry same in
        let one : p' ≡ p = ground (arith, it, kept, kept') in
        rw (e, one)
          (inr (ground (arith, called-call p.callback p.callback args (update j (made_idle o') m))))
  ]
  Change-Waits a m h l w (closed j o' p' args entry kept' _ _ _ e) = elim (Bool-cases (j == i)) [
    | inr apart ↦ rw e (inl (call-Waits _ p'.callback args (removed-Waits m j o' l w entry apart)))
    | inl same ↦
        let it = same_entry m j o' l w entry same in
        let one : p' ≡ p = ground (arith, it, kept, kept') in
        rw (e, one) (inr (ground (arith, called-call p.callback p.callback args (removed o' m))))
  ]
  Change-Waits a m h l w (closed_idle j o' entry free force _ e) = elim (Bool-cases (j == i)) [
    | inr apart ↦ rw e (inl (removed-Waits m j o' l w entry apart))
    | inl same ↦
        let it = same_entry m j o' l w entry same in
        let held = entry.held in absurd (ground (arith, it, held, free, kept))
  ]
  Change-Waits a m h l w (lost j o' entry busy unknown force _ e) = elim (Bool-cases (j == i)) [
    | inr apart ↦ rw e (inl (removed-Waits m j o' l w entry apart))
    | inl same ↦
        let it = same_entry m j o' l w entry same in
        absurd (ground (arith, it, busy, unknown, known))
  ]
  Change-Waits a m h l w (stays j o' p' x entry kept' force raises raised e) =
      rw e (inl (call-Waits m p'.callback (cancel_args m o') w))

  -- So do the actions of a queue.
  pub work-Waits :
      (q : List ConnectionAction) (m : ConnectionManager)
      → Linked m
      → Waits m
      → Waits (work q m) ⊎ (called p.callback m < called p.callback (work q m))
  unfolding work
  work-Waits [] m l w = inl w
  work-Waits (a ∷ q) m l w =
      let m' = (handle a m).1 in
      elim (Change-Waits a m (handle a m) l w (handle-Handles a m l).1) [
        | inr more ↦ inr (omega (arith, more, called_le-work p.callback q m' (handle-Linked a m l)))
        | inl still ↦ elim (work-Waits q m' (handle-Linked a m l) still) [
          | inl waits ↦ inl waits
          | inr more ↦ inr (omega (arith, more, called_le-handle p.callback a m l))
        ]
      ]
