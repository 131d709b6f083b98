-- ===== src/RemoteBridge/Tests.antt =====
-- Tests of the model of the remote bridge, and its theorem at a concrete bridge.
use coretools.Prelude.{ℕ, ◌≡◌, refl, none, List, [], ◌∷◌}
use coretools.Errors.{Error, Result, ok, err}
use coretools.RemoteBridge.{received, RemoteBridge, begin_script, reset_script}
use coretools.RemoteBridge.Scripts.{begins, ends, triggers, run, AreQuiet, unparsed_stays}

-- A script is parsed into its first byte.
abbrev first_byte : List ℕ → Result ℕ
first_byte [] = err Error.argument_error
first_byte (b ∷ l) = ok b

abbrev bridge : RemoteBridge ℕ
bridge = record {
  status = received;
  error = 0;
  parsed_script = none;
  script_error = none;
  script = [];
}

unparsed_stays_example :
    ((run first_byte (triggers ∷ begins ∷ ends ∷ []) bridge).status ≡ received)
    × ((begin_script (run first_byte (triggers ∷ begins ∷ ends ∷ []) bridge)).0 ≡ 1)
unfolding AreQuiet
unparsed_stays_example =
    unparsed_stays first_byte (triggers ∷ begins ∷ ends ∷ []) bridge Error.argument_error
      (refl, (refl, (refl, tt))) refl refl

reset_begins : (begin_script (reset_script bridge).1).0 ≡ 0
unfolding begin_script reset_script
reset_begins = refl
