-- ===== src/ConfigDatabase/Rpcs.antt =====
-- The RPCs of `ConfigDatabaseMixin`
-- (iotileemulate/iotile/emulate/reference/controller_features/config_database.py). An RPC returns its
-- list of values as a product, and the database as it leaves it.
use coretools.Prelude.{
  ℕ, ◌-◌, ℤ, Bool, false, not, ◌||◌, ◌==◌, ltb, leb, if◌then◌else◌, Option, none, some, List, [],
  length, take, drop, get_elem?, set, filter_by,
}
use coretools.Errors.{Error, Result, ok, err}
use coretools.Slot
use coretools.ConfigDatabase.{
  ConfigEntry, ConfigDatabase, Code, no_error, invalid_array_key, obsolete_entry, data_space,
  total_space, start_entry, is_invalid, max_entries,
}

unfoldable pub start_config_var_entry : ConfigDatabase → ℕ → List ℕ → Result Code × ConfigDatabase
start_config_var_entry db var_id encoded_selector = elim (Slot.from_encoded encoded_selector) [
  | err x ↦ (err x, db)
  | ok selector ↦ start_entry db selector var_id
]

abbrev pub entry_magic : ℕ
entry_magic = 0xcaca

-- What `get_config_var_entry` tells of an entry.
pub record EntryInfo : Type 0 where
  pub magic : ℕ
  pub offset : ℕ
  pub space : ℕ
  pub target : List ℕ

-- The entry with a number from 1 on, if it is valid.
unfoldable pub checked_entry : ConfigDatabase → ℕ → Result ConfigEntry
checked_entry db index = elim (get_elem? db.entries (index - 1)) [
  | none ↦ err Error.index_error
  | some entry ↦ ok entry
]

abbrev pub is_outside : ConfigDatabase → ℕ → Bool
is_outside db index = index == 0 || ltb (length db.entries) index

-- The values behind the code are zeros where the code is an error.
unfoldable pub get_config_var_entry : ConfigDatabase → ℕ → Result (Code × Option EntryInfo)
unfolding checked_entry total_space data_space
get_config_var_entry db index =
    if is_outside db index then ok (invalid_array_key, none) else elim (checked_entry db index) [
      | err x ↦ err x
      | ok entry ↦
          if not entry.valid then ok (obsolete_entry, none) else elim (Slot.encode entry.target) [
            | err x ↦ err x
            | ok target ↦ ok (
              no_error,
              some (record {
                magic = entry_magic;
                offset = total_space (take (index - 1) db.entries);
                space = data_space entry;
                target = target;
              }),
            )
          ]
    ]

unfoldable pub count_config_var_entries : ConfigDatabase → ℕ
count_config_var_entries db = length db.entries

unfoldable pub get_config_var_data : ConfigDatabase → ℕ → ℕ → Result (Code × List ℕ)
unfolding checked_entry
get_config_var_data db index offset =
    if is_outside db index then ok (invalid_array_key, []) else elim (checked_entry db index) [
      | err x ↦ err x
      | ok entry ↦
          if not entry.valid
          then ok (obsolete_entry, [])
          else if leb (length entry.bytes) offset
          then ok (invalid_array_key, [])
          else ok (no_error, take 16 (drop offset entry.bytes))
    ]

-- The error answers have an empty second value.
unfoldable pub invalidate_config_var_entry : ConfigDatabase → ℕ → Result Code × ConfigDatabase
unfolding checked_entry
invalidate_config_var_entry db index =
    if is_outside db index then (ok invalid_array_key, db) else elim (checked_entry db index) [
      | err x ↦ (err x, db)
      | ok entry ↦ if not entry.valid then (ok obsolete_entry, db) else (
        ok no_error,
        record db { entries = set db.entries (index - 1) (record entry { valid = false }) },
      )
    ]

-- What `get_config_database_info` returns, but for its last value, which is 0.
pub record DatabaseInfo : Type 0 where
  pub max_size : ℕ
  pub used_size : ℤ
  pub invalid_size : ℕ
  pub used_entries : ℕ
  pub invalid_entries : ℕ
  pub max_entries : ℤ

unfoldable pub get_config_database_info : ConfigDatabase → DatabaseInfo
unfolding total_space
get_config_database_info db = record {
  max_size = db.data_size;
  used_size = db.data_index;
  invalid_size = total_space (filter_by is_invalid db.entries);
  used_entries = length db.entries;
  invalid_entries = length (filter_by is_invalid db.entries);
  max_entries = max_entries db;
}
