-- ===== src/ConfigDatabase/Accounting.antt =====
-- The account of the data area: what each call of `ConfigDatabase` does to the index and the bytes.
use coretools.Prelude.{
  ℕ, zero, suc, set, get_elem?, ◌+◌, ◌-◌, ◌≤◌, ◌≡◌, refl, pos, ◌+ℤ◌, ◌-ℤ◌, ltb_ℤ, true, false, ◌==◌,
  Option, none, some, List, [], ◌∷◌, ◌++◌, length, length-append, filter_by, inl, inr, Bool-cases,
  Option-cases, arith,
}
use coretools.Errors.{ok, Result-cases}
use coretools.ConfigDatabase.Rpcs.{invalidate_config_var_entry, checked_entry, is_outside}
use coretools.Slot.{SlotIdentifier}
use coretools.ConfigDatabase.{
  ConfigEntry, ConfigDatabase, no_error, init, compact, clear, VarType, VarValue, add_direct,
  add_bytes, convert_to_bytes, start_entry, add_data, end_entry, data_space, total_space,
  invalidate_all, is_invalid, pack_id, room,
}

total_space-append : (l m : List ConfigEntry) → total_space (l ++ m) ≡ total_space l + total_space m
unfolding total_space
total_space-append [] m = omega arith
total_space-append (e ∷ l) m = ground (arith, total_space-append l m)

total_space-invalidate_all :
    (t : SlotIdentifier) (v : ℕ) (l : List ConfigEntry)
    → total_space (invalidate_all t v l) ≡ total_space l
unfolding total_space invalidate_all data_space
total_space-invalidate_all t v [] = refl
total_space-invalidate_all t v (e ∷ l) = ground (arith, total_space-invalidate_all t v l)

total_space-split :
    (l : List ConfigEntry)
    → total_space (filter_by (λ e. e.valid) l) + total_space (filter_by is_invalid l)
      ≡ total_space l
unfolding total_space
total_space-split [] = refl
total_space-split (e ∷ l) = ground (arith, total_space-split l)

-- The bytes that a started entry has taken, and the least bytes that it has.
abbrev pub begun : Option ConfigEntry → ℕ
begun none = 0
begun (some e) = 2

abbrev pub HasId : Option ConfigEntry → Type 0
HasId none = Unit
HasId (some e) = 2 ≤ length e.bytes

-- The index is a natural number that is no less than the bytes of all entries and the id of the entry
-- in progress, which has an id.
pub record IsAccounted (db : ConfigDatabase) : Type 0 where
  pub index : ℕ
  pub indexed : db.data_index ≡ pos index
  pub covered : total_space db.entries + begun db.in_progress ≤ index
  pub has_id : HasId db.in_progress

pub init-IsAccounted : (control_size data_size : ℕ) → IsAccounted (init control_size data_size)
unfolding init total_space
init-IsAccounted c d = record { index = 0; indexed = refl; covered = omega arith; has_id = tt }

pub clear-IsAccounted : (db : ConfigDatabase) → IsAccounted (clear db)
unfolding clear total_space
clear-IsAccounted db = record { index = 0; indexed = refl; covered = omega arith; has_id = tt }

pub start_entry-IsAccounted :
    (db db' : ConfigDatabase) (t : SlotIdentifier) (v : ℕ)
    → start_entry db t v ≡ (ok no_error, db')
    → IsAccounted db
    → IsAccounted db'
unfolding start_entry pack_id data_space ◌+ℤ◌
start_entry-IsAccounted db db' t v e a = record {
  index = a.index + 2;
  indexed = ground (arith, e, a.indexed);
  covered = ground (arith, e, a.covered);
  has_id = ground (arith, e);
}

pub add_data-IsAccounted :
    (db : ConfigDatabase) (bytes : List ℕ) → IsAccounted db → IsAccounted (add_data db bytes).1
unfolding add_data
add_data-IsAccounted db bytes a = elim (Bool-cases (ltb_ℤ (room db) (pos (length bytes)))) [
  | inl small ↦ rw small a
  | inr large ↦ elim (Option-cases db.in_progress) [
    | inl e ↦ record {
      index = a.index;
      indexed = ground (arith, large, e, a.indexed);
      covered = ground (arith, large, e, a.covered);
      has_id = ground (arith, large, e);
    }
    | inr (entry, e) ↦ record {
      index = a.index;
      indexed = ground (arith, large, e, a.indexed);
      covered = ground (arith, large, e, a.covered);
      has_id = ground (arith, large, e, a.has_id, length-append entry.bytes bytes);
    }
  ]
]

total_space-one : (e : ConfigEntry) → total_space (e ∷ []) ≡ length e.bytes
unfolding total_space data_space
total_space-one e = omega arith

pub end_entry-IsAccounted : (db : ConfigDatabase) → IsAccounted db → IsAccounted (end_entry db).1
unfolding end_entry ◌+ℤ◌ ◌-ℤ◌ data_space
end_entry-IsAccounted db a = elim (Option-cases db.in_progress) [
  | inl e ↦ record {
    index = a.index;
    indexed = ground (arith, e, a.indexed);
    covered = ground (arith, e, a.covered);
    has_id = ground (arith, e);
  }
  | inr (entry, e) ↦
      let l = invalidate_all entry.target entry.var_id db.entries in
      let kept = total_space-invalidate_all entry.target entry.var_id db.entries in
      let grown : total_space (l ++ (entry ∷ [])) ≡ total_space db.entries + length entry.bytes =
        omega (arith, total_space-append l (entry ∷ []), kept, total_space-one entry) in
      elim (Bool-cases (length entry.bytes == 2)) [
        | inl same ↦ record {
          index = a.index;
          indexed = ground (arith, e, same, a.indexed);
          covered = ground (arith, e, same, a.covered);
          has_id = ground (arith, e, same, a.has_id);
        }
        | inr more ↦ record {
          index = a.index + (length entry.bytes - 2);
          indexed = ground (arith, e, more, a.indexed, a.has_id);
          covered = ground (arith, e, more, a.covered, a.has_id, grown);
          has_id = ground (arith, e, more);
        }
      ]
]

add_bytes-IsAccounted :
    (db db' : ConfigDatabase) (t : SlotIdentifier) (v : ℕ) (bytes : List ℕ)
    → add_bytes db t v bytes ≡ ok db'
    → IsAccounted db
    → IsAccounted db'
unfolding add_bytes ◌+ℤ◌ data_space
add_bytes-IsAccounted db db' t v bytes h a =
    let entry : ConfigEntry = record { target = t; var_id = v; bytes = bytes; valid = true } in
    let l = invalidate_all t v db.entries in
    let kept = total_space-invalidate_all t v db.entries in
    let grown : total_space (l ++ (entry ∷ [])) ≡ total_space db.entries + length bytes =
      omega (arith, total_space-append l (entry ∷ []), kept, total_space-one entry) in
    elim (Bool-cases (ltb_ℤ (room db) (pos (length bytes)))) [
      | inl small ↦ absurd (ground (arith, h, small))
      | inr large ↦
          let it : db' ≡ record db {
            entries = l ++ (entry ∷ []);
            data_index = db.data_index +ℤ pos (length bytes);
          } =
            ground (arith, h, large) in
          rw it (record {
            index = a.index + length bytes;
            indexed = ground (arith, a.indexed);
            covered = omega (arith, a.covered, grown);
            has_id = a.has_id;
          })
    ]

add_direct-add_bytes :
    (db db' : ConfigDatabase) (t : SlotIdentifier) (v : ℕ) (type : VarType) (value : VarValue)
    → add_direct db t v type value ≡ ok db'
    → (bytes : List ℕ) × (add_bytes db t v bytes ≡ ok db')
unfolding add_direct
add_direct-add_bytes db db' t v type value h = elim (Result-cases (pack_id v)) [
  | inr (x, bad) ↦ absurd (ground (arith, h, bad))
  | inl (id, packed) ↦ elim (Result-cases (convert_to_bytes type value)) [
    | inr (x, bad) ↦ absurd (ground (arith, h, packed, bad))
    | inl (bytes, converted) ↦ (id ++ bytes, ground (arith, h, packed, converted))
  ]
]

pub add_direct-IsAccounted :
    (db db' : ConfigDatabase) (t : SlotIdentifier) (v : ℕ) (type : VarType) (value : VarValue)
    → add_direct db t v type value ≡ ok db'
    → IsAccounted db
    → IsAccounted db'
add_direct-IsAccounted db db' t v type value h a =
    let (bytes, stored) = add_direct-add_bytes db db' t v type value h in
    add_bytes-IsAccounted db db' t v bytes stored a

-- An entry may be replaced by one of the same length.
total_space-set :
    (l : List ConfigEntry) (i : ℕ) (e e' : ConfigEntry)
    → get_elem? l i ≡ some e
    → length e'.bytes ≡ length e.bytes
    → total_space (set l i e') ≡ total_space l
unfolding total_space data_space
total_space-set [] i e e' h same = absurd (ground (arith, h))
total_space-set (x ∷ l) zero e e' h same = ground (arith, h, same)
total_space-set (x ∷ l) (suc i) e e' h same = ground (arith, total_space-set l i e e' h same)

pub invalidate-IsAccounted :
    (db : ConfigDatabase) (index : ℕ)
    → IsAccounted db
    → IsAccounted (invalidate_config_var_entry db index).1
unfolding invalidate_config_var_entry checked_entry
invalidate-IsAccounted db index a = elim (Bool-cases (is_outside db index)) [
  | inl outside ↦ rw outside a
  | inr inside ↦ elim (Option-cases (get_elem? db.entries (index - 1))) [
    | inl missing ↦ rw (inside, missing) a
    | inr (entry, there) ↦ elim (Bool-cases entry.valid) [
      | inr obsolete ↦ rw (inside, there, obsolete) a
      | inl valid ↦
          let e' = record entry { valid = false } in
          let same = total_space-set db.entries (index - 1) entry e' there refl in
          rw (inside, there, valid)
            (record {
              index = a.index;
              indexed = a.indexed;
              covered = omega (arith, a.covered, same);
              has_id = a.has_id;
            })
    ]
  ]
]

pub compact-IsAccounted : (db : ConfigDatabase) → IsAccounted db → IsAccounted (compact db)
unfolding compact ◌-ℤ◌
compact-IsAccounted db a = record {
  index = a.index - total_space (filter_by is_invalid db.entries);
  indexed = ground (arith, a.indexed, a.covered, total_space-split db.entries);
  covered = ground (arith, a.covered, total_space-split db.entries);
  has_id = a.has_id;
}
