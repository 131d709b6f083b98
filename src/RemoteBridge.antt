-- ===== src/RemoteBridge.antt =====
-- `RemoteBridgeState` and the RPCs of `RemoteBridgeMixin` of
-- iotileemulate/iotile/emulate/reference/controller_features/remote_bridge.py: the states in which the
-- emulated controller receives an update script and triggers it. The script's bytes are the device's, and
-- `UpdateScript.FromBinary`, with the registry of update records behind it, is an argument. An RPC
-- returns its code and the bridge as it leaves it.
pub mod Scripts
mod Tests
use coretools.Prelude.{ℕ, Bool, true, false, not, if◌then◌else◌, Option, none, some, List, []}
use coretools.Errors.{Error, Result, ok, err}

pub data BridgeStatus : Type 0 where
  idle waiting receiving received validated executing : BridgeStatus

pub record RemoteBridge (S : Type 0) : Type 0 where
  pub status : BridgeStatus
  pub error : ℕ
  pub parsed_script : Option S
  pub script_error : Option Error
  pub script : List ℕ

module _ {S : Type 0} where
  unfoldable pub clear_to_reset : RemoteBridge S → RemoteBridge S
  clear_to_reset bridge = record bridge { status = idle; error = 0 }

  unfoldable pub begin_script : RemoteBridge S → ℕ × RemoteBridge S
  begin_script bridge = elim bridge.status [
    | received ↦ (1, bridge)
    | validated ↦ (1, bridge)
    | executing ↦ (1, bridge)
    | _ ↦ (
      0,
      record {
        status = waiting;
        error = 0;
        parsed_script = none;
        script_error = none;
        script = [];
      },
    )
  ]

  unfoldable pub end_script : RemoteBridge S → ℕ × RemoteBridge S
  end_script bridge = elim bridge.status [
    | received ↦ (0, record bridge { status = received })
    | waiting ↦ (0, record bridge { status = received })
    | _ ↦ (1, bridge)
  ]

  -- The script is parsed and not run.
  unfoldable pub trigger_script : (List ℕ → Result S) → RemoteBridge S → ℕ × RemoteBridge S
  trigger_script from_binary bridge = elim bridge.status [
    | received ↦ elim (from_binary bridge.script) [
      | ok script ↦ (0, record bridge { parsed_script = some script; status = idle })
      | err x ↦ (0, record bridge { script_error = some x; error = 1 })
    ]
    | _ ↦ (1, bridge)
  ]

  unfoldable pub query_status : RemoteBridge S → BridgeStatus × ℕ
  query_status bridge = (bridge.status, bridge.error)

  unfoldable pub reset_script : RemoteBridge S → ℕ × RemoteBridge S
  reset_script bridge =
      (0, record bridge { status = idle; error = 0; parsed_script = none; script = [] })
