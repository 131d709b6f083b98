-- ===== src/ConfigDatabase/Tests.antt =====
-- A config database with a few entries.
use coretools.Prelude.{
  ℕ, ◌+◌, ◌≡◌, refl, pos, ◌-ℤ◌, ◌+ℤ◌, true, false, if◌then◌else◌, none, some, [], ◌∷◌, length, drop,
  arith,
}
use coretools.Errors.{ok}
use coretools.Slot.{SlotIdentifier}
use coretools.ConfigDatabase.{
  ConfigEntry, ConfigDatabase, no_error, destination_buffer_too_small, init, start_entry, end_entry,
  is_of, generate_rpcs, data_space,
}
use coretools.ConfigDatabase.View.{value_of, IsMap, end_entry_refines}
use coretools.ConfigDatabase.Accounting.{IsAccounted}
use coretools.ConfigDatabase.Rpcs.{invalidate_config_var_entry}
use coretools.ConfigDatabase.{VarType, VarValue, add_direct}
use coretools.ConfigDatabase.Space.{
  Reach-IsAccounted, started, added_direct, invalidated, next, here, refused_entry_ends, add_all,
  AllTaken, add_all-AllTaken,
}
use coretools.ConfigDatabase.Streaming.{received, AreInOrder, generate_rpcs-received}

abbrev controller : SlotIdentifier
controller = record { slot = none; controller = true }

abbrev entry : ConfigEntry
entry = record { target = controller; var_id = 3; bytes = 3 ∷ 0 ∷ 7 ∷ 8 ∷ []; valid = true }

-- A newer value of the same variable is in progress.
abbrev db : ConfigDatabase
db = record (init 64 8) {
  entries = record entry { valid = false } ∷ entry ∷ [];
  in_progress = some (record entry { bytes = 3 ∷ 0 ∷ 9 ∷ [] });
  data_index = pos 10;
}

db-IsMap : IsMap db
unfolding init
db-IsMap t v = ground arith

end_entry_refines_example :
    let (code, db') = end_entry db in
    (code ≡ no_error)
    × (db'.in_progress ≡ none)
    × ((t : SlotIdentifier) (v : ℕ)
        → value_of db' t v ≡ (
            if is_of t v (record entry { bytes = 3 ∷ 0 ∷ 9 ∷ [] })
            then some (3 ∷ 0 ∷ 9 ∷ [])
            else value_of db t v))
    × IsMap db'
unfolding data_space
end_entry_refines_example =
    end_entry_refines db (record entry { bytes = 3 ∷ 0 ∷ 9 ∷ [] }) refl refl (λ e. omega arith)
      db-IsMap

one_begun : start_entry (init 64 8) controller 3 ≡ (
  ok no_error,
  record (init 64 8) {
    in_progress =
        some (record { target = controller; var_id = 3; bytes = 3 ∷ 0 ∷ []; valid = true });
    data_index = pos 2;
  },
)
unfolding start_entry init ◌-ℤ◌ ◌+ℤ◌
one_begun = refl

-- While the entry is in progress, another is added at once and made invalid.
abbrev stored : ConfigDatabase
stored = record {
  control_size = 64;
  data_size = 8;
  entries = record { target = controller; var_id = 4; bytes = 4 ∷ 0 ∷ 9 ∷ []; valid = true } ∷ [];
  data_index = pos 5;
  in_progress = some (record { target = controller; var_id = 3; bytes = 3 ∷ 0 ∷ []; valid = true });
}

stored_at_once :
    add_direct
      (start_entry (init 64 8) controller 3).1
      controller
      4
      VarType.uint8_t
      (VarValue.num (pos 9))
    ≡ ok stored
unfolding add_direct start_entry init ◌-ℤ◌ ◌+ℤ◌
stored_at_once = refl

Reach-IsAccounted_example : IsAccounted (invalidate_config_var_entry stored 1).1
unfolding start_entry init ◌-ℤ◌ ◌+ℤ◌
Reach-IsAccounted_example = Reach-IsAccounted 64 8 (invalidate_config_var_entry stored 1).1 (
    next
      (next (next here (started controller 3 one_begun))
        (added_direct controller 4 VarType.uint8_t (VarValue.num (pos 9)) stored_at_once))
      (invalidated 1 refl))

-- A database whose area is overfull.
abbrev overfull : ConfigDatabase
overfull = record db { data_index = pos 9; in_progress = none }

refused : start_entry overfull controller 5 ≡ (
  ok destination_buffer_too_small,
  record overfull {
    in_progress = some (record { target = controller; var_id = 5; bytes = []; valid = true });
  },
)
unfolding start_entry init ◌-ℤ◌ ◌+ℤ◌
refused = refl

refused_entry_ends_example :
    let (code, db'') = end_entry (record overfull {
      in_progress = some (record { target = controller; var_id = 5; bytes = []; valid = true });
    }) in
    (code ≡ no_error) × (db''.data_index ≡ pos 9 -ℤ pos 2) × (length db''.entries ≡ 2 + 1)
refused_entry_ends_example = refused_entry_ends overfull _ controller 5 refused

-- With one byte of room, two bytes are taken.
abbrev nearly_full : ConfigDatabase
nearly_full = record db { data_index = pos 7 }

add_all-AllTaken_example :
    let (codes, db') = add_all nearly_full ((1 ∷ []) ∷ (2 ∷ []) ∷ []) in
    AllTaken codes
    × (db' ≡ record nearly_full {
      in_progress = some (record entry { bytes = 3 ∷ 0 ∷ 9 ∷ 1 ∷ 2 ∷ [] });
    })
unfolding init ◌-ℤ◌
add_all-AllTaken_example =
    add_all-AllTaken nearly_full (record entry { bytes = 3 ∷ 0 ∷ 9 ∷ [] })
      ((1 ∷ []) ∷ (2 ∷ []) ∷ []) refl (refl, (refl, tt))

abbrev long : ConfigEntry
long = record entry {
  bytes = 3 ∷ 0 ∷ 1 ∷ 2 ∷ 3 ∷ 4 ∷ 5 ∷ 6 ∷ 7 ∷ 8 ∷ 9 ∷ 10 ∷ 11 ∷ 12 ∷ 13 ∷ 14 ∷ 15 ∷ 16 ∷ 17 ∷ [];
}

generate_rpcs-received_example :
    (received (generate_rpcs long 11) ≡ drop 2 long.bytes)
    × AreInOrder 11 3 0 (generate_rpcs long 11)
generate_rpcs-received_example = generate_rpcs-received long 11
