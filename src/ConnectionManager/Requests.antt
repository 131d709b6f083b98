-- ===== src/ConnectionManager/Requests.antt =====
-- The calls of `ConnectionManager` that put an action into its queue
-- (transport_plugins/native_ble/iotile_transport_native_ble/connection_manager.py).
use coretools.Prelude.{ℕ, Bool, Option, some, List}
use coretools.ConnectionManager.{Operation, Key, Reason, Argument, Request, ConnectionManager, put}
use coretools.ConnectionManager.Handlers.{default_timeout}

module _ (now : ℕ) where
  unfoldable pub begin_connection : ℕ → ℕ → ℕ → ℕ → Option ℕ → ConnectionManager → ConnectionManager
  unfolding put
  begin_connection connection_id internal_id callback context timeout m =
      put now (Request.begin_connection callback connection_id internal_id context) timeout m

  unfoldable pub finish_connection :
      Key → Bool → Option Reason → ConnectionManager → ConnectionManager
  unfolding put
  finish_connection k successful failure_reason m =
      put now (Request.finish_connection k successful failure_reason) (some default_timeout) m

  unfoldable pub unexpected_disconnect : Key → ConnectionManager → ConnectionManager
  unfolding put
  unexpected_disconnect k m = put now (Request.force_disconnect k) (some default_timeout) m

  unfoldable pub begin_disconnection : Key → ℕ → Option ℕ → ConnectionManager → ConnectionManager
  unfolding put
  begin_disconnection k callback timeout m =
      put now (Request.begin_disconnection k callback) timeout m

  unfoldable pub finish_disconnection :
      Key → Bool → Option Reason → ConnectionManager → ConnectionManager
  unfolding put
  finish_disconnection k successful failure_reason m =
      put now (Request.finish_disconnection k successful failure_reason) (some default_timeout) m

  unfoldable pub begin_operation :
      Key → Operation → ℕ → Option ℕ → ConnectionManager → ConnectionManager
  unfolding put
  begin_operation k op_name callback timeout m =
      put now (Request.begin_operation k callback op_name) timeout m

  unfoldable pub finish_operation :
      Key → Bool → List Argument → ConnectionManager → ConnectionManager
  unfolding put
  finish_operation k success args m =
      put now (Request.finish_operation k success args) (some default_timeout) m
