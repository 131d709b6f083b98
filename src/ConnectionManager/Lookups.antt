-- ===== src/ConnectionManager/Lookups.antt =====
-- What is found under a key after the tables or the objects of `ConnectionManager` change.
use coretools.Prelude.{
  ℕ, ◌≡◌, ◌⊎◌, ◌==◌, if◌then◌else◌, none, some, [], ◌∷◌, length, get_elem?, get_elem?-append,
  get_elem?-last, get_elem?-set, Bool-cases, Option-cases, inl, inr, arith,
}
use coretools.ConnectionManager.Dict.{lookup, lookup-insert, lookup-delete}
use coretools.ConnectionManager.{
  Key, external, internal, ConnData, ConnectionManager, register, place, get_connection,
}
use coretools.ConnectionManager.Handlers.{update}
use coretools.ConnectionManager.Linked.{Linked, EntryOf, removed}

-- An entry that is found is found with the new object in its place.
pub get_connection-update :
    (m : ConnectionManager) (k : Key) (i j : ℕ) (o' p : ConnData)
    → get_connection m k ≡ some (j, p)
    → get_connection (update i o' m) k ≡ some (j, if i == j then o' else p)
unfolding get_connection place
get_connection-update m (external k) i j o' p e =
    ground (arith, e, get_elem?-set i j m.objects o' p)
get_connection-update m (internal k) i j o' p e =
    ground (arith, e, get_elem?-set i j m.objects o' p)

pub get_connection-update-none :
    (m : ConnectionManager) (k : Key) (i : ℕ) (o' : ConnData)
    → place m k ≡ none
    → get_connection (update i o' m) k ≡ none
unfolding get_connection place
get_connection-update-none m (external k) i o' e = ground (arith, e)
get_connection-update-none m (internal k) i o' e = ground (arith, e)

-- The place of a removed entry is found no more, and the others are.
place-removed :
    (m : ConnectionManager) (k : Key) (i : ℕ) (o : ConnData)
    → Linked m
    → EntryOf m i o
    → place (removed o m) k
      ≡ elim (place m k) [ none ↦ none | some j ↦ if i == j then none else some j ]
unfolding place
place-removed m (external k) i o l entry =
    let at = entry.by_id in
    let there = entry.there in
    let gone = lookup-delete o.connection_id k m.connections l.distinct in
    elim (Option-cases (lookup k m.connections)) [
      | inl missing ↦ ground (arith, gone, missing)
      | inr (j, known) ↦
          let (p, old, same) = l.entry k j known in
          let old_there = old.there in ground (arith, gone, known, at, there, same, old_there)
    ]
place-removed m (internal k) i o l entry =
    let at = entry.by_internal in
    let there = entry.there in
    let gone = lookup-delete o.internal_id k m.int_connections l.distinct_int in
    elim (Option-cases (lookup k m.int_connections)) [
      | inl missing ↦ ground (arith, gone, missing)
      | inr (j, known) ↦
          let (p, old, same) = l.int_entry k j known in
          let old_there = old.there in ground (arith, gone, known, at, there, same, old_there)
    ]

pub get_connection-removed :
    (m : ConnectionManager) (k : Key) (i j : ℕ) (o p : ConnData)
    → Linked m
    → EntryOf m i o
    → get_connection m k ≡ some (j, p)
    → get_connection (removed o m) k ≡ (if i == j then none else some (j, p))
unfolding get_connection
get_connection-removed m k i j o p l entry e =
    let gone = place-removed m k i o l entry in
    elim (Option-cases (place m k)) [
      | inl missing ↦ absurd (ground (arith, e, missing))
      | inr (h, known) ↦ elim (Option-cases (get_elem? m.objects h)) [
        | inl nowhere ↦ absurd (ground (arith, e, known, nowhere))
        | inr (q, there) ↦
            let same : h ≡ j = ground (arith, e, known, there) in
            ground (arith, e, known, there, gone, same)
      ]
    ]

pub get_connection-removed-none :
    (m : ConnectionManager) (k : Key) (i : ℕ) (o : ConnData)
    → Linked m
    → EntryOf m i o
    → place m k ≡ none
    → get_connection (removed o m) k ≡ none
unfolding get_connection
get_connection-removed-none m k i o l entry e =
    let gone = place-removed m k i o l entry in ground (arith, gone, e)

-- A registered object is found under its two ids, and what is found already still is.
module _ (m : ConnectionManager) (o : ConnData) (free : place m (external o.connection_id) ≡ none)
    (free_int : place m (internal o.internal_id) ≡ none) where
  place-register :
      (k : Key)
      → (place (register m o) k ≡ place m k)
        ⊎ ((place m k ≡ none) × (place (register m o) k ≡ some (length m.objects)))
  unfolding place register
  place-register (external k) =
      let at = lookup-insert o.connection_id k (length m.objects) m.connections in
      elim (Bool-cases (o.connection_id == k)) [
        | inl same ↦ inr (ground (arith, same, free), ground (arith, same, at))
        | inr apart ↦ inl (ground (arith, apart, at))
      ]
  place-register (internal k) =
      let at = lookup-insert o.internal_id k (length m.objects) m.int_connections in
      elim (Bool-cases (o.internal_id == k)) [
        | inl same ↦ inr (ground (arith, same, free_int), ground (arith, same, at))
        | inr apart ↦ inl (ground (arith, apart, at))
      ]

  pub get_connection-register :
      (k : Key) (j : ℕ) (p : ConnData)
      → get_connection m k ≡ some (j, p)
      → get_connection (register m o) k ≡ some (j, p)
  unfolding get_connection register
  get_connection-register k j p e = elim (Option-cases (place m k)) [
    | inl missing ↦ absurd (ground (arith, e, missing))
    | inr (h, known) ↦ elim (Option-cases (get_elem? m.objects h)) [
      | inl nowhere ↦ absurd (ground (arith, e, known, nowhere))
      | inr (q, there) ↦
          let kept = get_elem?-append h m.objects (o ∷ []) q there in
          elim (place-register k) [
            | inl same ↦ ground (arith, e, same, known, there, kept)
            | inr (missing, _) ↦ absurd (ground (arith, missing, known))
          ]
    ]
  ]

  pub get_connection-register-none :
      (k : Key)
      → place m k ≡ none
      → (get_connection (register m o) k ≡ none)
        ⊎ (get_connection (register m o) k ≡ some (length m.objects, o))
  unfolding get_connection register
  get_connection-register-none k e = elim (place-register k) [
    | inl same ↦ inl (ground (arith, same, e))
    | inr (_, here) ↦ inr (ground (arith, here, get_elem?-last m.objects o))
  ]
