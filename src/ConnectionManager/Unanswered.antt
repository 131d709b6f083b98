-- ===== src/ConnectionManager/Unanswered.antt =====
-- Operations that `ConnectionManager` does not answer where the device disconnects.
use coretools.Prelude.{ℕ, ◌≡◌, refl, none, some, arith}
use coretools.ConnectionManager.{
  in_progress, other, external, ConnData, ConnectionManager, get_connection,
}
use coretools.ConnectionManager.Handlers.{cancel, force_disconnect_action, timeout_request}
use coretools.ConnectionManager.Linked.{Linked, absent, present, find, removed, remove-removed}
use coretools.ConnectionManager.Lookups.{get_connection-removed}

-- An operation in progress whose name is not `rpc`, `open_interface` or `close_interface`, such as
-- `script`, on linked tables: an unexpected disconnection removes the connection without a call of any
-- callback, and the check for timeouts never has a request for it.
pub unknown_operation_unanswered :
    (m : ConnectionManager) (k i name : ℕ) (o : ConnData)
    → Linked m
    → get_connection m (external k) ≡ some (i, o)
    → o.state ≡ in_progress
    → o.microstate ≡ some (other name)
    → let (raised, m') = force_disconnect_action (external k) m in
      (raised ≡ none)
      × (get_connection m' (external k) ≡ none)
      × (m'.calls ≡ m.calls)
      × (timeout_request k o ≡ none)
unfolding force_disconnect_action cancel timeout_request
unknown_operation_unanswered m k i name o l found busy unknown = elim (find m (external k) l) [
  | absent e missing ↦ absurd (ground (arith, e, found))
  | present j q e entry ↦
      let it : q ≡ o = ground (arith, e, found) in
      let held = entry.held in
      let gone = remove-removed m j q entry in
      let nowhere = get_connection-removed m (external k) j j q q l entry e in
      let after : force_disconnect_action (external k) m ≡ (none, removed q m) =
        ground (arith, e, it, busy, unknown, held, gone) in
      rw after (refl, ground (arith, nowhere), refl, ground (arith, busy, unknown))
]
