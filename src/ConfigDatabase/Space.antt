-- ===== src/ConfigDatabase/Space.antt =====
-- The room of the data area, over runs and for entries in progress.
use coretools.Prelude.{
  ℕ, suc, ◌+◌, ◌≡◌, refl, ℤ, pos, ◌+ℤ◌, ◌-ℤ◌, ltb_ℤ, true, false, some, List, [], ◌∷◌, ◌++◌, length,
  length-append, ap, append-nil, append_assoc, arith,
}
use coretools.Errors.{ok}
use coretools.ConfigDatabase.Rpcs.{invalidate_config_var_entry}
use coretools.Slot.{SlotIdentifier}
use coretools.ConfigDatabase.{
  ConfigEntry, ConfigDatabase, Code, no_error, destination_buffer_too_small, init, compact, clear,
  VarType, VarValue, add_direct, start_entry, add_data, end_entry, data_space, invalidate_all,
  pack_id, room,
}
use coretools.ConfigDatabase.Accounting.{
  IsAccounted, init-IsAccounted, clear-IsAccounted, start_entry-IsAccounted, add_data-IsAccounted,
  end_entry-IsAccounted, add_direct-IsAccounted, invalidate-IsAccounted, compact-IsAccounted,
}

-- The calls that change the database, with `start_entry` where it is not refused and raises nothing,
-- and `add_direct` where it raises nothing; where that raises, the database stays as it is.
pub data Step (db : ConfigDatabase) (db' : ConfigDatabase) : Type 0 where
  started : (t : SlotIdentifier) (v : ℕ) → start_entry db t v ≡ (ok no_error, db') → Step db db'
  added : (bytes : List ℕ) → db' ≡ (add_data db bytes).1 → Step db db'
  ended : db' ≡ (end_entry db).1 → Step db db'
  added_direct :
      (t : SlotIdentifier) (v : ℕ) (type : VarType) (value : VarValue)
      → add_direct db t v type value ≡ ok db'
      → Step db db'
  invalidated : (index : ℕ) → db' ≡ (invalidate_config_var_entry db index).1 → Step db db'
  compacted : db' ≡ compact db → Step db db'
  cleared : db' ≡ clear db → Step db db'

pub data Reach (db : ConfigDatabase) : ConfigDatabase → Type 0 where
  here : Reach db db
  next : {b c : ConfigDatabase} → Reach db b → Step b c → Reach db c

-- Whatever calls of `start_entry`, `add_data`, `end_entry`, `add_direct`, `invalidate_config_var_entry`,
-- `compact` and `clear` are made from the empty database on, as long as no `start_entry` is refused or
-- raises an exception, the index
-- is no less than the bytes of all entries, so that `compact` does not make it negative, and the entry
-- in progress has its id.
pub Reach-IsAccounted :
    (control_size data_size : ℕ) (db : ConfigDatabase)
    → Reach (init control_size data_size) db
    → IsAccounted db
Reach-IsAccounted c d db here = init-IsAccounted c d
Reach-IsAccounted c d db (next r (started t v e)) =
    start_entry-IsAccounted _ db t v e (Reach-IsAccounted c d _ r)
Reach-IsAccounted c d db (next r (added bytes e)) =
    rw e (add_data-IsAccounted _ bytes (Reach-IsAccounted c d _ r))
Reach-IsAccounted c d db (next r (ended e)) =
    rw e (end_entry-IsAccounted _ (Reach-IsAccounted c d _ r))
Reach-IsAccounted c d db (next r (added_direct t v type value e)) =
    add_direct-IsAccounted _ db t v type value e (Reach-IsAccounted c d _ r)
Reach-IsAccounted c d db (next r (invalidated index e)) =
    rw e (invalidate-IsAccounted _ index (Reach-IsAccounted c d _ r))
Reach-IsAccounted c d db (next r (compacted e)) =
    rw e (compact-IsAccounted _ (Reach-IsAccounted c d _ r))
Reach-IsAccounted c d db (next r (cleared e)) = rw e (clear-IsAccounted _)

length-invalidate_all :
    (t : SlotIdentifier) (v : ℕ) (l : List ConfigEntry) → length (invalidate_all t v l) ≡ length l
unfolding invalidate_all
length-invalidate_all t v [] = refl
length-invalidate_all t v (e ∷ l) = ap suc (length-invalidate_all t v l)

abbrev without_id : SlotIdentifier → ℕ → ConfigEntry
without_id t v = record { target = t; var_id = v; bytes = []; valid = true }

refused-start_entry :
    (db db' : ConfigDatabase) (t : SlotIdentifier) (v : ℕ)
    → start_entry db t v ≡ (ok destination_buffer_too_small, db')
    → db' ≡ record db { in_progress = some (without_id t v) }
unfolding start_entry pack_id data_space
refused-start_entry db db' t v e = ground (arith, e)

-- A `start_entry` that is refused for want of room leaves an entry without an id in progress: the next
-- `end_entry` is not refused, stores it, and takes two from the index.
pub refused_entry_ends :
    (db db' : ConfigDatabase) (t : SlotIdentifier) (v : ℕ)
    → start_entry db t v ≡ (ok destination_buffer_too_small, db')
    → let (code, db'') = end_entry db' in
      (code ≡ no_error)
      × (db''.data_index ≡ db.data_index -ℤ pos 2)
      × (length db''.entries ≡ length db.entries + 1)
unfolding end_entry data_space ◌+ℤ◌ ◌-ℤ◌
refused_entry_ends db db' t v e =
    let l = invalidate_all t v db.entries in
    rw (refused-start_entry db db' t v e) (
      refl,
      ground arith,
      omega (arith, length-append l (without_id t v ∷ []), length-invalidate_all t v db.entries),
    )

-- The calls of `add_data` for some chunks, with their codes.
unfoldable pub add_all : ConfigDatabase → List (List ℕ) → List Code × ConfigDatabase
add_all db [] = ([], db)
add_all db (bytes ∷ l) =
    let (code, db') = add_data db bytes in let (codes, db'') = add_all db' l in (code ∷ codes, db'')

abbrev pub AllFit : ℤ → List (List ℕ) → Type 0
AllFit room [] = Unit
AllFit room (bytes ∷ l) = (ltb_ℤ room (pos (length bytes)) ≡ false) × AllFit room l

abbrev pub joined : List (List ℕ) → List ℕ
joined [] = []
joined (bytes ∷ l) = bytes ++ joined l

abbrev pub AllTaken : List Code → Type 0
AllTaken [] = Unit
AllTaken (code ∷ codes) = (code ≡ no_error) × AllTaken codes

add_data-taken :
    (db : ConfigDatabase) (e : ConfigEntry) (bytes : List ℕ)
    → db.in_progress ≡ some e
    → ltb_ℤ (room db) (pos (length bytes)) ≡ false
    → add_data db bytes
      ≡ (no_error, record db { in_progress = some (record e { bytes = e.bytes ++ bytes }) })
unfolding add_data
add_data-taken db e bytes current fits = ground (arith, current, fits)

-- Chunks that each fit the room are all taken into the entry in progress, whatever their sum: the index,
-- and so the room, stays as it is until the entry ends.
pub add_all-AllTaken :
    (db : ConfigDatabase) (e : ConfigEntry) (l : List (List ℕ))
    → db.in_progress ≡ some e
    → AllFit (room db) l
    → let (codes, db') = add_all db l in
      AllTaken codes
      × (db' ≡ record db { in_progress = some (record e { bytes = e.bytes ++ joined l }) })
unfolding add_all
add_all-AllTaken db e [] current h = (tt, ground (arith, current, append-nil e.bytes))
add_all-AllTaken db e (bytes ∷ l) current (fits, h) =
    let e' : ConfigEntry = record e { bytes = e.bytes ++ bytes } in
    let (codes, shape) = add_all-AllTaken (record db { in_progress = some e' }) e' l refl h in
    rw (add_data-taken db e bytes current fits)
      ((refl, codes), rw (← append_assoc e.bytes bytes (joined l)) shape)
