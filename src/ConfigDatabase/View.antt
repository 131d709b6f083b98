-- ===== src/ConfigDatabase/View.antt =====
-- The database as a map from variables to their values.
use coretools.Prelude.{
  ℕ, ◌≤◌, ◌≡◌, ◌≢◌, refl, true, ◌&&◌, ◌==◌, if◌then◌else◌, Option, none, some, List, [], ◌∷◌, ◌++◌,
  filter_by, count_if, count_if-append, arith,
}
use coretools.Slot
use coretools.Slot.{SlotIdentifier}
use coretools.Slot.Descriptor.{eq_iff}
use coretools.ConfigDatabase.{
  ConfigEntry, ConfigDatabase, no_error, compact, is_of, invalidate_all, end_entry, data_space,
}

-- The data of the first valid entry for a variable.
unfoldable pub value_in : SlotIdentifier → ℕ → List ConfigEntry → Option (List ℕ)
value_in target var_id [] = none
value_in target var_id (e ∷ l) =
    if e.valid && is_of target var_id e then some e.bytes else value_in target var_id l

abbrev pub value_of : ConfigDatabase → SlotIdentifier → ℕ → Option (List ℕ)
value_of db target var_id = value_in target var_id db.entries

-- The valid entries for a variable are one at most.
abbrev pub copies : SlotIdentifier → ℕ → List ConfigEntry → ℕ
copies target var_id l = count_if (λ e. e.valid && is_of target var_id e) l

-- A database with one valid entry for a variable at most.
abbrev pub IsMap : ConfigDatabase → Type 0
IsMap db = (target : SlotIdentifier) (var_id : ℕ) → copies target var_id db.entries ≤ 1

value_in-append :
    (t : SlotIdentifier) (v : ℕ) (l : List ConfigEntry) (e : ConfigEntry)
    → value_in t v (l ++ (e ∷ []))
      ≡ elim (value_in t v l) [ some b ↦ some b | none ↦ value_in t v (e ∷ []) ]
unfolding value_in
value_in-append t v [] e = refl
value_in-append t v (d ∷ l) e = ground (arith, value_in-append t v l e)

-- After the copies of a variable are made invalid it has no value, and the others have theirs.
value_in-invalidate_all :
    (t u : SlotIdentifier) (v w : ℕ) (l : List ConfigEntry)
    → value_in t v (invalidate_all u w l)
      ≡ (if Slot.eq u t && (w == v) then none else value_in t v l)
unfolding value_in invalidate_all
value_in-invalidate_all t u v w [] = ground arith
value_in-invalidate_all t u v w (e ∷ l) =
    ground
      (arith, value_in-invalidate_all t u v w l, eq_iff u t, eq_iff e.target t, eq_iff e.target u)

copies-invalidate_all :
    (t u : SlotIdentifier) (v w : ℕ) (l : List ConfigEntry)
    → copies t v (invalidate_all u w l) ≡ (if Slot.eq u t && (w == v) then 0 else copies t v l)
unfolding invalidate_all
copies-invalidate_all t u v w [] = ground arith
copies-invalidate_all t u v w (e ∷ l) =
    ground
      (arith, copies-invalidate_all t u v w l, eq_iff u t, eq_iff e.target t, eq_iff e.target u)

-- A new last entry stands for its variable once the copies are invalid.
replaced :
    (t : SlotIdentifier) (v : ℕ) (l : List ConfigEntry) (e : ConfigEntry)
    → e.valid ≡ true
    → let l' = invalidate_all e.target e.var_id l ++ (e ∷ []) in
      (value_in t v l' ≡ (if is_of t v e then some e.bytes else value_in t v l))
      × (copies t v l' ≡ (if is_of t v e then 1 else copies t v l))
unfolding value_in
replaced t v l e valid =
    let l' = invalidate_all e.target e.var_id l in
    (
      ground
          (arith, valid, value_in-append t v l' e, value_in-invalidate_all t e.target v e.var_id l),
      ground (
        arith,
        valid,
        count_if-append (λ d. d.valid && is_of t v d) l' (e ∷ []),
        copies-invalidate_all t e.target v e.var_id l,
      ),
    )

filtered :
    (t : SlotIdentifier) (v : ℕ) (l : List ConfigEntry)
    → let l' = filter_by (λ e. e.valid) l in
      (value_in t v l' ≡ value_in t v l) × (copies t v l' ≡ copies t v l)
unfolding value_in
filtered t v [] = (refl, refl)
filtered t v (e ∷ l) = ground (arith, filtered t v l)

-- `end_entry` of a valid entry in progress whose bytes are not just two sets the value of the entry's
-- variable to these bytes, and leaves the values of the others; where a variable has one valid entry at
-- most before it, it has one at most after it.
pub end_entry_refines :
    (db : ConfigDatabase) (e : ConfigEntry)
    → db.in_progress ≡ some e
    → e.valid ≡ true
    → data_space e ≢ 2
    → IsMap db
    → let (code, db') = end_entry db in
      (code ≡ no_error)
      × (db'.in_progress ≡ none)
      × ((t : SlotIdentifier) (v : ℕ)
          → value_of db' t v ≡ (if is_of t v e then some e.bytes else value_of db t v))
      × IsMap db'
unfolding end_entry
end_entry_refines db e current valid enough m = (
  ground (arith, current, enough),
  ground (arith, current, enough),
  λ t v. ground (arith, current, enough, replaced t v db.entries e valid),
  λ t v. ground (arith, current, enough, replaced t v db.entries e valid, m t v),
)

-- Where a variable has one valid entry at most, `compact` keeps that so, and the value of every variable.
pub compact_refines :
    (db : ConfigDatabase)
    → IsMap db
    → ((t : SlotIdentifier) (v : ℕ) → value_of (compact db) t v ≡ value_of db t v)
      × IsMap (compact db)
unfolding compact
compact_refines db m =
    (λ t v. (filtered t v db.entries).0, λ t v. ground (arith, filtered t v db.entries, m t v))
