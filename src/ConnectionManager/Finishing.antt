-- ===== src/ConnectionManager/Finishing.antt =====
-- The handlers of `ConnectionManager` that finish something.
use coretools.Prelude.{
  ◌≡◌, refl, ap, Bool, true, false, Option, none, List, ◌∷◌, Bool-cases, inl, inr, arith,
}
use coretools.ConnectionManager.{
  is_connecting, is_in_progress, is_disconnecting, Reason, Key, external, Argument, Request,
  ConnectionAction, ConnectionManager,
}
use coretools.ConnectionManager.Handlers.{
  calling, outcome, update, made_idle, reason_or_default, finish_connection_action,
  finish_disconnection_action, finish_operation_action,
}
use coretools.ConnectionManager.Linked.{Linked, absent, present, find, removed, remove-removed}
use coretools.ConnectionManager.Changes.{
  ignored, ended, closed, Handles, calling-Explained, kept_action, begins, documented, moves_back,
  called_in_vain,
}

pub finish_connection-Handles :
    (a : ConnectionAction) (k : Key) (ok : Bool) (why : Option Reason) (m : ConnectionManager)
    → a.request ≡ Request.finish_connection k ok why
    → Linked m
    → Handles a m (finish_connection_action k ok why m)
unfolding finish_connection_action begins documented moves_back called_in_vain
finish_connection-Handles a k ok why m e l = elim (find m k l) [
  | absent g missing ↦ (
    inl (ground (arith, g)),
    ignored (ground (arith, e)) (λ c. ground (arith, e)) (ground (arith, g)),
  )
  | present i o g entry ↦ elim (Bool-cases (is_connecting o.state)) [
    | inr unapt ↦ (
      inl (ground (arith, g, unapt)),
      ignored (ground (arith, e)) (λ c. ground (arith, e)) (ground (arith, g, unapt)),
    )
    | inl apt ↦
        let (p, kept) = kept_action m i o entry (ground (arith, apt)) in
        let gone = remove-removed m i o entry in
        elim (Bool-cases ok) [
          | inl good ↦
              let m' = update i (made_idle o) m in
              let args = outcome m (external o.connection_id) true none in
              let done : finish_connection_action k ok why m ≡ calling p.callback args m' =
                ground (arith, g, apt, kept, good) in
              (
                calling-Explained p.callback args m m' _ refl refl done,
                ended i o p args entry kept (ground (arith, e)) (ground (arith, apt))
                    (λ c. ground (arith, e)) (ap (λ h. h.1) done),
              )
          | inr bad ↦
              let m' = removed o m in
              let args = outcome m (external o.connection_id) false (reason_or_default why) in
              let done : finish_connection_action k ok why m ≡ calling p.callback args m' =
                ground (arith, g, apt, kept, bad, gone) in
              (
                calling-Explained p.callback args m m' _ refl refl done,
                closed i o p args entry kept (ground (arith, e)) (ground (arith, e, apt, bad))
                    (λ c. ground (arith, e)) (ap (λ h. h.1) done),
              )
        ]
  ]
]

pub finish_disconnection-Handles :
    (a : ConnectionAction) (k : Key) (ok : Bool) (why : Option Reason) (m : ConnectionManager)
    → a.request ≡ Request.finish_disconnection k ok why
    → Linked m
    → Handles a m (finish_disconnection_action k ok why m)
unfolding finish_disconnection_action begins documented moves_back called_in_vain
finish_disconnection-Handles a k ok why m e l = elim (find m k l) [
  | absent g missing ↦ (
    inl (ground (arith, g)),
    ignored (ground (arith, e)) (λ c. ground (arith, e)) (ground (arith, g)),
  )
  | present i o g entry ↦ elim (Bool-cases (is_disconnecting o.state)) [
    | inr unapt ↦ (
      inl (ground (arith, g, unapt)),
      ignored (ground (arith, e)) (λ c. ground (arith, e)) (ground (arith, g, unapt)),
    )
    | inl apt ↦
        let (p, kept) = kept_action m i o entry (ground (arith, apt)) in
        let gone = remove-removed m i o entry in
        elim (Bool-cases ok) [
          | inl good ↦
              let m' = removed o m in
              let args = outcome m (external o.connection_id) true none in
              let done : finish_disconnection_action k ok why m ≡ calling p.callback args m' =
                ground (arith, g, apt, kept, good, gone) in
              (
                calling-Explained p.callback args m m' _ refl refl done,
                closed i o p args entry kept (ground (arith, e)) (ground (arith, apt))
                    (λ c. ground (arith, e)) (ap (λ h. h.1) done),
              )
          | inr bad ↦
              let m' = update i (made_idle o) m in
              let args = outcome m (external o.connection_id) false (reason_or_default why) in
              let done : finish_disconnection_action k ok why m ≡ calling p.callback args m' =
                ground (arith, g, apt, kept, bad) in
              (
                calling-Explained p.callback args m m' _ refl refl done,
                ended i o p args entry kept (ground (arith, e)) (ground (arith, e, apt, bad))
                    (λ c. ground (arith, e)) (ap (λ h. h.1) done),
              )
        ]
  ]
]

pub finish_operation-Handles :
    (a : ConnectionAction) (k : Key) (ok : Bool) (args : List Argument) (m : ConnectionManager)
    → a.request ≡ Request.finish_operation k ok args
    → Linked m
    → Handles a m (finish_operation_action k ok args m)
unfolding finish_operation_action begins documented moves_back called_in_vain
finish_operation-Handles a k ok args m e l = elim (find m k l) [
  | absent g missing ↦ (
    inl (ground (arith, g)),
    ignored (ground (arith, e)) (λ c. ground (arith, e)) (ground (arith, g)),
  )
  | present i o g entry ↦ elim (Bool-cases (is_in_progress o.state)) [
    | inr unapt ↦ (
      inl (ground (arith, g, unapt)),
      ignored (ground (arith, e)) (λ c. ground (arith, e)) (ground (arith, g, unapt)),
    )
    | inl apt ↦
        let (p, kept) = kept_action m i o entry (ground (arith, apt)) in
        let m' = update i (made_idle o) m in
        let all =
          Argument.key (external o.connection_id)
          ∷ Argument.adapter m.id
          ∷ Argument.success ok
          ∷ args in
        let done : finish_operation_action k ok args m ≡ calling p.callback all m' =
          ground (arith, g, apt, kept) in
        (
          calling-Explained p.callback all m m' _ refl refl done,
          ended i o p all entry kept (ground (arith, e)) (ground (arith, apt))
              (λ c. ground (arith, e)) (ap (λ h. h.1) done),
        )
  ]
]
