-- ===== src/RemoteBridge/Scripts.antt =====
-- What the RPCs of the remote bridge make of a script, and of one that cannot be parsed.
use coretools.Prelude.{ℕ, ◌≡◌, Bool, true, false, List, [], ◌∷◌, arith}
use coretools.Errors.{Error, Result, err}
use coretools.RemoteBridge.{
  received, RemoteBridge, begin_script, end_script, trigger_script, reset_script,
}

-- The calls that a client makes, and what the device writes into the script.
pub data Event : Type 0 where
  begins ends triggers resets : Event
  writes : List ℕ → Event

module _ {S : Type 0} (from_binary : List ℕ → Result S) where
  unfoldable pub step : Event → RemoteBridge S → RemoteBridge S
  step begins bridge = (begin_script bridge).1
  step ends bridge = (end_script bridge).1
  step triggers bridge = (trigger_script from_binary bridge).1
  step resets bridge = (reset_script bridge).1
  step (writes bytes) bridge = record bridge { script = bytes }

  unfoldable pub run : List Event → RemoteBridge S → RemoteBridge S
  run [] bridge = bridge
  run (e ∷ l) bridge = run l (step e bridge)

  abbrev is_quiet : Event → Bool
  is_quiet resets = false
  is_quiet (writes bytes) = false
  is_quiet _ = true

  unfoldable pub AreQuiet : List Event → Type 0
  AreQuiet [] = Unit
  AreQuiet (e ∷ l) = (is_quiet e ≡ true) × AreQuiet l

  -- The bridge stays as it is, but for the note of the failure.
  quiet_step :
      (e : Event) (bridge : RemoteBridge S) (x : Error)
      → is_quiet e ≡ true
      → bridge.status ≡ received
      → from_binary bridge.script ≡ err x
      → ((step e bridge).status ≡ received) × ((step e bridge).script ≡ bridge.script)
  unfolding step begin_script end_script trigger_script
  quiet_step begins bridge x q s f = (ground (arith, s), ground (arith, s))
  quiet_step ends bridge x q s f = (ground (arith, s), ground (arith, s))
  quiet_step triggers bridge x q s f = (ground (arith, s, f), ground (arith, s, f))
  quiet_step resets bridge x q s f = absurd (ground (arith, q))
  quiet_step (writes bytes) bridge x q s f = absurd (ground (arith, q))

  -- A received script that cannot be parsed stays received, whatever `begin_script`, `end_script` and
  -- `trigger_script` are called, in whatever order: each `begin_script` is refused, until the script is
  -- reset.
  pub unparsed_stays :
      (l : List Event) (bridge : RemoteBridge S) (x : Error)
      → AreQuiet l
      → bridge.status ≡ received
      → from_binary bridge.script ≡ err x
      → ((run l bridge).status ≡ received) × ((begin_script (run l bridge)).0 ≡ 1)
  unfolding run AreQuiet begin_script
  unparsed_stays [] bridge x q s f = (s, ground (arith, s))
  unparsed_stays (e ∷ l) bridge x q s f =
      let (stays, script) = quiet_step e bridge x q.0 s f in
      unparsed_stays l (step e bridge) x q.1 stays (rw script f)
