-- ===== src/ConfigDatabase.antt =====
-- `ConfigEntry` and `ConfigDatabase` of
-- iotileemulate/iotile/emulate/reference/controller_features/config_database.py: the config variables
-- that the emulated controller keeps and streams to its tiles. Bytes are lists of numbers; the index
-- into the data area is an integer, since the source lets it become negative.
pub mod View
pub mod Accounting
pub mod Space
pub mod Streaming
pub mod Rpcs
mod Tests
use coretools.Prelude.{
  ℕ, zero, suc, ◌+◌, ◌-◌, ◌*◌, ◌/◌, ◌%◌, ◌^◌, ◌≡◌, ℤ, pos, negsuc, ◌+ℤ◌, ◌-ℤ◌, ltb_ℤ, Bool, true,
  false, not, ◌&&◌, ◌==◌, ltb, if◌then◌else◌, Option, none, some, List, [], ◌∷◌, ◌++◌, length, take,
  drop, map, filter_by,
}
use coretools.Errors.{Error, Result, ok, err}
use coretools.Slot
use coretools.Slot.{SlotIdentifier}

pub record ConfigEntry : Type 0 where
  pub target : SlotIdentifier
  pub var_id : ℕ
  pub bytes : List ℕ
  pub valid : Bool

abbrev pub control_space : ℕ
control_space = 16

unfoldable pub data_space : ConfigEntry → ℕ
data_space entry = length entry.bytes

-- The RPC that sets a chunk of a config variable: the address of the tile, the variable, the offset
-- in the variable, and the chunk.
pub record SetRpc : Type 0 where
  pub address : ℕ
  pub var_id : ℕ
  pub offset : ℕ
  pub chunk : List ℕ

-- The loop of `generate_rpcs`, over the bytes from an offset on; it takes 16 of them in a round.
unfoldable pub rpcs_from : ℕ → ℕ → ℕ → ℕ → List ℕ → List SetRpc
rpcs_from zero address var_id offset bytes = []
rpcs_from (suc rounds) address var_id offset [] = []
rpcs_from (suc rounds) address var_id offset (b ∷ bytes) =
    record { address = address; var_id = var_id; offset = offset; chunk = take 16 (b ∷ bytes) }
    ∷ rpcs_from rounds address var_id (offset + 16) (drop 16 (b ∷ bytes))

-- The first two bytes are the variable's id.
unfoldable pub generate_rpcs : ConfigEntry → ℕ → List SetRpc
unfolding rpcs_from
generate_rpcs entry address =
    rpcs_from (length entry.bytes) address entry.var_id 0 (drop 2 entry.bytes)

pub record ConfigDatabase : Type 0 where
  pub control_size : ℕ
  pub data_size : ℕ
  pub entries : List ConfigEntry
  pub in_progress : Option ConfigEntry
  pub data_index : ℤ

unfoldable pub init : ℕ → ℕ → ConfigDatabase
init control_size data_size = record {
  control_size = control_size;
  data_size = data_size;
  entries = [];
  in_progress = none;
  data_index = pos 0;
}

unfoldable pub max_entries : ConfigDatabase → ℤ
max_entries db = pos (db.control_size / control_space) -ℤ pos 1

-- The sum of the data spaces of some entries.
unfoldable pub total_space : List ConfigEntry → ℕ
unfolding data_space
total_space [] = 0
total_space (entry ∷ entries) = data_space entry + total_space entries

abbrev pub is_invalid : ConfigEntry → Bool
is_invalid entry = not entry.valid

unfoldable pub compact : ConfigDatabase → ConfigDatabase
compact db = record db {
  entries = filter_by (λ entry. entry.valid) db.entries;
  data_index = db.data_index -ℤ pos (total_space (filter_by is_invalid db.entries));
}

unfoldable pub clear : ConfigDatabase → ConfigDatabase
clear db = record db { entries = []; in_progress = none; data_index = pos 0 }

-- The codes of `Error` and `ConfigDatabaseError` that are returned.
pub data Code : Type 0 where
  no_error destination_buffer_too_small input_buffer_wrong_size invalid_array_key obsolete_entry :
      Code

-- `struct.pack("<H", var_id)`.
unfoldable pub pack_id : ℕ → Result (List ℕ)
pack_id id = if ltb id 65536 then ok (id % 256 ∷ id / 256 ∷ []) else err Error.struct_error

abbrev pub room : ConfigDatabase → ℤ
room db = pos db.data_size -ℤ db.data_index

-- The new entry is in progress also where there is no room for it.
unfoldable pub start_entry : ConfigDatabase → SlotIdentifier → ℕ → Result Code × ConfigDatabase
unfolding pack_id data_space
start_entry db target var_id =
    let entry : ConfigEntry = record {
      target = target;
      var_id = var_id;
      bytes = [];
      valid = true;
    } in
    let db' = record db { in_progress = some entry } in
    if ltb_ℤ (room db) (pos (data_space entry))
    then (ok destination_buffer_too_small, db')
    else elim (pack_id var_id) [
      | err x ↦ (err x, db')
      | ok id ↦
          let entry' = record entry { bytes = id } in
          (
            ok no_error,
            record db {
              in_progress = some entry';
              data_index = db.data_index +ℤ pos (data_space entry');
            },
          )
    ]

unfoldable pub add_data : ConfigDatabase → List ℕ → Code × ConfigDatabase
add_data db bytes =
    if ltb_ℤ (room db) (pos (length bytes))
    then (destination_buffer_too_small, db)
    else elim db.in_progress [
      | none ↦ (no_error, db)
      | some entry ↦ (
        no_error,
        record db { in_progress = some (record entry { bytes = entry.bytes ++ bytes }) },
      )
    ]

-- `entry.target == target and entry.var_id == var_id`.
abbrev pub is_of : SlotIdentifier → ℕ → ConfigEntry → Bool
is_of target var_id entry = Slot.eq entry.target target && entry.var_id == var_id

-- The previous copies of a variable become invalid.
unfoldable pub invalidate_all : SlotIdentifier → ℕ → List ConfigEntry → List ConfigEntry
invalidate_all target var_id [] = []
invalidate_all target var_id (entry ∷ entries) =
    (if is_of target var_id entry then record entry { valid = false } else entry)
    ∷ invalidate_all target var_id entries

unfoldable pub end_entry : ConfigDatabase → Code × ConfigDatabase
unfolding invalidate_all data_space
end_entry db = elim db.in_progress [
  | none ↦ (no_error, db)
  | some entry ↦ if data_space entry == 2 then (input_buffer_wrong_size, db) else (
    no_error,
    record db {
      entries = invalidate_all entry.target entry.var_id db.entries ++ (entry ∷ []);
      in_progress = none;
      data_index = db.data_index +ℤ (pos (data_space entry) -ℤ pos 2);
    },
  )
]

-- The entries that `stream_matching` streams; the name is not looked at by `SlotIdentifier.matches`.
unfoldable pub matching : List ConfigEntry → ℕ → Result (List ConfigEntry)
matching [] address = ok []
matching (entry ∷ entries) address =
    let rest = matching entries address in
    if not entry.valid then rest else elim (Slot.matches entry.target address) [
      | err x ↦ err x
      | ok false ↦ rest
      | ok true ↦ elim rest [ err x ↦ err x | ok l ↦ ok (entry ∷ l) ]
    ]

unfoldable pub rpcs_of : List ConfigEntry → ℕ → List SetRpc
unfolding generate_rpcs
rpcs_of [] address = []
rpcs_of (entry ∷ entries) address = generate_rpcs entry address ++ rpcs_of entries address

unfoldable pub stream_matching : ConfigDatabase → ℕ → Result (List SetRpc)
unfolding matching rpcs_of
stream_matching db address = elim (matching db.entries address) [
  | err x ↦ err x
  | ok entries ↦ ok (rpcs_of entries address)
]

-- The types and values of `_convert_to_bytes`; `unknown` is any other name.
pub data VarType : Type 0 where
  uint8_t int8_t uint16_t int16_t uint32_t int32_t string binary unknown : VarType

pub data VarValue : Type 0 where
  num : ℤ → VarValue
  raw : List ℕ → VarValue
  text : VarValue

-- The bytes of a number, the lowest first.
unfoldable pub low_bytes : ℕ → ℕ → List ℕ
low_bytes zero n = []
low_bytes (suc w) n = n % 256 ∷ low_bytes w (n / 256)

-- `struct.pack` of an unsigned and of a signed integer of some bytes.
unfoldable pub pack_unsigned : ℕ → ℤ → Result (List ℕ)
unfolding low_bytes
pack_unsigned w (negsuc n) = err Error.struct_error
pack_unsigned w (pos n) = if ltb n (256 ^ w) then ok (low_bytes w n) else err Error.struct_error

unfoldable pub pack_signed : ℕ → ℤ → Result (List ℕ)
unfolding low_bytes
pack_signed w (pos n) = if ltb (2 * n) (256 ^ w) then ok (low_bytes w n) else err Error.struct_error
pack_signed w (negsuc n) =
    if ltb (2 * n) (256 ^ w) then ok (low_bytes w (256 ^ w - 1 - n)) else err Error.struct_error

abbrev pack_int : (ℤ → Result (List ℕ)) → VarValue → Result (List ℕ)
pack_int pack (num n) = pack n
pack_int pack _ = err Error.struct_error

-- `bytes(value)`: a number is a count of zeros, and a `str` wants an encoding.
unfoldable pub zeros : ℕ → List ℕ
zeros zero = []
zeros (suc n) = 0 ∷ zeros n

unfoldable pub bytes_of : VarValue → Result (List ℕ)
unfolding zeros
bytes_of (num (pos n)) = ok (zeros n)
bytes_of (num (negsuc n)) = err Error.value_error
bytes_of (raw b) = ok b
bytes_of text = err Error.type_error

unfoldable pub convert_to_bytes : VarType → VarValue → Result (List ℕ)
unfolding pack_unsigned pack_signed bytes_of
convert_to_bytes uint8_t value = pack_int (pack_unsigned 1) value
convert_to_bytes int8_t value = pack_int (pack_signed 1) value
convert_to_bytes uint16_t value = pack_int (pack_unsigned 2) value
convert_to_bytes int16_t value = pack_int (pack_signed 2) value
convert_to_bytes uint32_t value = pack_int (pack_unsigned 4) value
convert_to_bytes int32_t value = pack_int (pack_signed 4) value
convert_to_bytes string value = bytes_of value
convert_to_bytes binary value = bytes_of value
convert_to_bytes unknown value = err Error.argument_error

-- The part of `add_direct` behind the conversion.
unfoldable pub add_bytes : ConfigDatabase → SlotIdentifier → ℕ → List ℕ → Result ConfigDatabase
unfolding invalidate_all data_space
add_bytes db target var_id bytes =
    let entry : ConfigEntry = record {
      target = target;
      var_id = var_id;
      bytes = bytes;
      valid = true;
    } in
    if ltb_ℤ (room db) (pos (length bytes))
    then err Error.data_error
    else ok (record db {
      entries = invalidate_all target var_id db.entries ++ (entry ∷ []);
      data_index = db.data_index +ℤ pos (data_space entry);
    })

unfoldable pub add_direct :
    ConfigDatabase → SlotIdentifier → ℕ → VarType → VarValue → Result ConfigDatabase
unfolding add_bytes pack_id convert_to_bytes
add_direct db target var_id var_type value = elim (pack_id var_id) [
  | err x ↦ err x
  | ok id ↦ elim (convert_to_bytes var_type value) [
    | err x ↦ err x
    | ok bytes ↦ add_bytes db target var_id (id ++ bytes)
  ]
]
