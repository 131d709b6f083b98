-- ===== src/ConnectionManager/Tests.antt =====
-- Tests of the model of `ConnectionManager`, and its theorems at concrete managers.
use coretools.Prelude.{
  ℕ, ◌+◌, ◌≡◌, ◌<◌, refl, true, false, not, ◌||◌, ◌==◌, if◌then◌else◌, Option, none, some, List, [],
  ◌∷◌, length,
}
use coretools.Errors.{Error}
use coretools.ConnectionManager.Changes.{Explained}
use coretools.ConnectionManager.{
  connecting, idle, in_progress, rpc, other, external, internal, Reason, unexpected_disconnection,
  Argument, key, adapter, number, nothing, success, reason, Request, ConnectionAction, ConnData,
  ConnectionManager, init, get_connection, get_connection_state,
}
use coretools.ConnectionManager.Handlers.{
  turn, work, handle, force_disconnect_action, timeout_request,
}
use coretools.ConnectionManager.Requests
use coretools.ConnectionManager.Linked.{Linked}
use coretools.ConnectionManager.Runs.{
  Reach, here, next, requested, turned, Reach-Linked, handle-Linked,
}
use coretools.ConnectionManager.Transitions.{Moves, handle-Moves}
use coretools.ConnectionManager.Waiting.{waiting}
use coretools.ConnectionManager.Callbacks.{
  called, begun_by_all, called_in_vain_all, AreKnown, work-answers,
}
use coretools.ConnectionManager.Timeouts.{check_and_work, timed_out-answered}
use coretools.ConnectionManager.Unanswered.{unknown_operation_unanswered}

abbrev action : Request → ConnectionAction
action r = record { request = r; timeout = some 10; start_time = 5 }

-- Connection 1, whose internal id is 21, is being made; callback 7 waits for it.
abbrev begin : Request
begin = Request.begin_connection 7 1 21 9

-- Callback 8 takes two arguments or six, the others any number.
abbrev callbacks : ℕ → List Argument → Option Error
callbacks c args =
    if not (c == 8) || length args == 2 || length args == 6 then none else some Error.type_error

abbrev asked : ConnectionManager
asked = Requests.begin_connection 5 1 21 7 9 (some 10) (init 3 callbacks)

abbrev started : ConnectionManager
started = (turn 5 asked).1

asked-started : Reach (init 3 callbacks) started
unfolding Requests.begin_connection
asked-started = next (next here (requested 5 begin (some 10) refl)) (turned 5 refl)

Reach-Linked_example :
    Linked started
    × (started.raised_by ≡ callbacks)
    × ((now : ℕ) → Explained started (turn now started))
Reach-Linked_example = Reach-Linked 3 callbacks started asked-started

abbrev succeed : ConnectionAction
succeed = action (Request.finish_connection (internal 21) true none)

handle-Moves_example :
    Moves succeed
      (get_connection_state started (external 1))
      (get_connection_state (handle succeed started).1 (external 1))
handle-Moves_example =
    handle-Moves succeed started (external 1) (Reach-Linked 3 callbacks started asked-started).0

connected_state : get_connection_state (handle succeed started).1 (external 1) ≡ idle
unfolding get_connection_state handle turn init Requests.begin_connection
connected_state = refl

-- The connection is made, an RPC is begun and the device disconnects.
abbrev queue : List ConnectionAction
queue =
    succeed
    ∷ action (Request.begin_operation (external 1) 8 rpc)
    ∷ action (Request.force_disconnect (internal 21))
    ∷ []

work-answers_example :
    called 8 (work queue started) + waiting 8 (work queue started)
    ≡ called 8 started
      + waiting 8 started
      + begun_by_all 8 queue
      + called_in_vain_all 8 queue started
unfolding turn init AreKnown Requests.begin_connection
work-answers_example =
    work-answers 8 queue started (Reach-Linked 3 callbacks started asked-started).0 refl
      (refl, (refl, (refl, tt)))

-- The callback of the RPC is called with four arguments and raises an exception: the connection stays,
-- with its action in progress, and the callback is called again when the action has expired.
abbrev forced : Option Error × ConnectionManager
forced =
    let m = work (succeed ∷ action (Request.begin_operation (external 1) 8 rpc) ∷ []) started in
    handle (action (Request.force_disconnect (internal 21))) m

forced_raises : forced.0 ≡ some Error.type_error
unfolding work turn init handle Requests.begin_connection
forced_raises = refl

forced_stays : get_connection_state forced.1 (external 1) ≡ in_progress
unfolding get_connection_state work turn init handle Requests.begin_connection
forced_stays = refl

called_in_vain : called_in_vain_all 8 queue started ≡ 1
unfolding called_in_vain_all work turn init handle Requests.begin_connection
called_in_vain = refl

called_again : called 8 (check_and_work 16 forced.1) ≡ 2
unfolding work turn init handle Requests.begin_connection
called_again = refl

idle_again : get_connection_state (check_and_work 16 forced.1) (external 1) ≡ idle
unfolding get_connection_state work turn init handle Requests.begin_connection
idle_again = refl

-- The callback of the RPC has other arguments than one that finishes.
queue_calls :
    (work queue started).calls
    ≡ record {
      callback = 7;
      arguments = key (external 1) ∷ adapter 3 ∷ success true ∷ reason none ∷ [];
    }
      ∷ record {
        callback = 8;
        arguments =
            success false ∷ reason (some unexpected_disconnection) ∷ number 0xff ∷ nothing ∷ [];
      }
      ∷ []
unfolding work turn init Requests.begin_connection
queue_calls = refl

abbrev new_connection : ConnData
new_connection = record {
  state = connecting;
  microstate = none;
  connection_id = 1;
  internal_id = 21;
  action = some (record { callback = 7; timeout = some 10; start_time = 5 });
  context = 9;
}

abbrev late : Request
late = Request.finish_connection (external 1) false (some Reason.connection_timed_out)

timed_out-answered_example : called 7 started < called 7 (check_and_work 16 started)
unfolding get_connection turn init Requests.begin_connection
timed_out-answered_example =
    timed_out-answered 16 1 0 new_connection
      (record { callback = 7; timeout = some 10; start_time = 5 }) late started
      (Reach-Linked 3 callbacks started asked-started).0 refl refl refl refl

made-Linked : Linked (handle succeed started).1
made-Linked = handle-Linked succeed started (Reach-Linked 3 callbacks started asked-started).0

-- A script is being sent.
abbrev script : ConnectionAction
script = action (Request.begin_operation (external 1) 8 (other 5))

abbrev scripted : ConnectionManager
scripted = (handle script (handle succeed started).1).1

abbrev scripted_connection : ConnData
scripted_connection = record new_connection {
  state = in_progress;
  microstate = some (other 5);
  action = some (record { callback = 8; timeout = some 10; start_time = 5 });
}

unknown_operation_unanswered_example :
    let (raised, m') = force_disconnect_action (external 1) scripted in
    (raised ≡ none)
    × (get_connection m' (external 1) ≡ none)
    × (m'.calls ≡ scripted.calls)
    × (timeout_request 1 scripted_connection ≡ none)
unfolding get_connection handle turn init Requests.begin_connection
unknown_operation_unanswered_example =
    unknown_operation_unanswered scripted 1 0 5 scripted_connection
      (handle-Linked script (handle succeed started).1 made-Linked) refl refl refl
