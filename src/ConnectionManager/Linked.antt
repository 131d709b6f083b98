-- ===== src/ConnectionManager/Linked.antt =====
-- The two tables of connections agree, and a connection keeps an action as its state says.
use coretools.Prelude.{
  ℕ, ◌≡◌, refl, ◌∙◌, Bool, true, false, ◌==◌, Option, none, some, List, [], ◌∷◌, length, get_elem?,
  get_elem?-append, get_elem?-last, get_elem?-set, Bool-cases, Option-cases, inl, inr, arith,
}
use coretools.ConnectionManager.Dict.{
  lookup, delete, AreDistinct, lookup-insert, lookup-delete, insert-AreDistinct, delete-AreDistinct,
}
use coretools.ConnectionManager.{
  State, disconnected, idle, Key, external, internal, Pending, ConnData, ConnectionManager,
  register, place, get_connection, get_connection_state, is_disconnected,
}
use coretools.ConnectionManager.Handlers.{remove, update}

-- An idle connection keeps no action and the others keep one; no object is disconnected.
abbrev pub holds : State → Option Pending → Bool
holds disconnected p = false
holds idle none = true
holds idle (some p) = false
holds _ none = false
holds _ (some p) = true

-- An object of the store that is in both tables under its ids.
pub record Entry (connections int_connections : List (ℕ × ℕ)) (objects : List ConnData) (i : ℕ)
    (o : ConnData) : Type 0 where
  pub there : get_elem? objects i ≡ some o
  pub by_id : lookup o.connection_id connections ≡ some i
  pub by_internal : lookup o.internal_id int_connections ≡ some i
  pub held : holds o.state o.action ≡ true

pub record IsLinked (connections int_connections : List (ℕ × ℕ)) (objects : List ConnData)
    : Type 0 where
  pub distinct : AreDistinct connections
  pub distinct_int : AreDistinct int_connections
  pub entry :
      (k i : ℕ)
      → lookup k connections ≡ some i
      → (o : ConnData) × Entry connections int_connections objects i o × (o.connection_id ≡ k)
  pub int_entry :
      (k i : ℕ)
      → lookup k int_connections ≡ some i
      → (o : ConnData) × Entry connections int_connections objects i o × (o.internal_id ≡ k)

abbrev pub Linked : ConnectionManager → Type 0
Linked m = IsLinked m.connections m.int_connections m.objects

abbrev pub EntryOf : ConnectionManager → ℕ → ConnData → Type 0
EntryOf m = Entry m.connections m.int_connections m.objects

-- The place that a table has under a key is that of an entry.
place-Entry :
    (m : ConnectionManager) (k : Key) (i : ℕ)
    → Linked m
    → place m k ≡ some i
    → (o : ConnData) × EntryOf m i o
unfolding place
place-Entry m (external k) i l e = let (o, entry, same) = l.entry k i e in (o, entry)
place-Entry m (internal k) i l e = let (o, entry, same) = l.int_entry k i e in (o, entry)

-- A key names nothing, or an entry.
pub data Found (m : ConnectionManager) (k : Key) : Type 0 where
  absent : get_connection m k ≡ none → place m k ≡ none → Found m k
  present : (i : ℕ) (o : ConnData) → get_connection m k ≡ some (i, o) → EntryOf m i o → Found m k

pub find : (m : ConnectionManager) (k : Key) → Linked m → Found m k
unfolding get_connection
find m k l = elim (Option-cases (place m k)) [
  | inl missing ↦ absent (ground (arith, missing)) missing
  | inr (i, found) ↦
      let (o, entry) = place-Entry m k i l found in
      let there = entry.there in present i o (ground (arith, found, there)) entry
]

-- No entry is found where the state is `disconnected`.
pub disconnected-place :
    (m : ConnectionManager) (k : Key)
    → Linked m
    → is_disconnected (get_connection_state m k) ≡ true
    → place m k ≡ none
unfolding get_connection_state
disconnected-place m k l d = elim (find m k l) [
  | absent e missing ↦ missing
  | present i o e entry ↦ let held = entry.held in absurd (ground (arith, e, d, held))
]

-- An entry stays one when an object under free ids is registered, and that object becomes one.
module _ (m : ConnectionManager) (o : ConnData) (free : lookup o.connection_id m.connections ≡ none)
    (free_int : lookup o.internal_id m.int_connections ≡ none) where
  register-Entry : (i : ℕ) (p : ConnData) → EntryOf m i p → EntryOf (register m o) i p
  unfolding register
  register-Entry i p e =
      let known = e.by_id in
      let known_int = e.by_internal in
      record {
        there = get_elem?-append i m.objects (o ∷ []) p e.there;
        by_id = ground (
          arith,
          free,
          known,
          lookup-insert o.connection_id p.connection_id (length m.objects) m.connections,
        );
        by_internal = ground (
          arith,
          free_int,
          known_int,
          lookup-insert o.internal_id p.internal_id (length m.objects) m.int_connections,
        );
        held = e.held;
      }

  registered-Entry : holds o.state o.action ≡ true → EntryOf (register m o) (length m.objects) o
  unfolding register
  registered-Entry held = record {
    there = get_elem?-last m.objects o;
    by_id =
        ground
          (arith, lookup-insert o.connection_id o.connection_id (length m.objects) m.connections);
    by_internal =
        ground
          (arith, lookup-insert o.internal_id o.internal_id (length m.objects) m.int_connections);
    held = held;
  }

  pub register-Linked : Linked m → holds o.state o.action ≡ true → Linked (register m o)
  unfolding register
  register-Linked l held = record {
    distinct = insert-AreDistinct o.connection_id _ m.connections l.distinct;
    distinct_int = insert-AreDistinct o.internal_id _ m.int_connections l.distinct_int;
    entry = λ k i e.
        let at = lookup-insert o.connection_id k (length m.objects) m.connections in
        elim (Bool-cases (o.connection_id == k)) [
          | inl same ↦
              let here : i ≡ length m.objects = ground (arith, same, e, at) in
              (o, rw here (registered-Entry held), ground (arith, same))
          | inr apart ↦
              let (p, entry, same) = l.entry k i (ground (arith, apart, e, at)) in
              (p, register-Entry i p entry, same)
        ];
    int_entry = λ k i e.
        let at = lookup-insert o.internal_id k (length m.objects) m.int_connections in
        elim (Bool-cases (o.internal_id == k)) [
          | inl same ↦
              let here : i ≡ length m.objects = ground (arith, same, e, at) in
              (o, rw here (registered-Entry held), ground (arith, same))
          | inr apart ↦
              let (p, entry, same) = l.int_entry k i (ground (arith, apart, e, at)) in
              (p, register-Entry i p entry, same)
        ];
  }

-- The object of an entry is replaced by one with the same ids.
module _ (m : ConnectionManager) (i : ℕ) (o o' : ConnData) (there : get_elem? m.objects i ≡ some o)
    (same : o'.connection_id ≡ o.connection_id) (same_int : o'.internal_id ≡ o.internal_id)
    (held : holds o'.state o'.action ≡ true) where
  update-Entry :
      (j : ℕ) (p : ConnData)
      → EntryOf m j p
      → (p' : ConnData) × EntryOf (update i o' m) j p'
        × (p'.connection_id ≡ p.connection_id)
        × (p'.internal_id ≡ p.internal_id)
  update-Entry j p e = elim (Bool-cases (i == j)) [
    | inl here ↦
        let old = e.there in
        let known = e.by_id in
        let known_int = e.by_internal in
        let it : p ≡ o = ground (arith, here, there, old) in
        (
          o',
          record {
            there = ground (arith, here, get_elem?-set i j m.objects o' p old);
            by_id = ground (arith, it, same, known);
            by_internal = ground (arith, it, same_int, known_int);
            held = held;
          },
          ground (arith, it, same),
          ground (arith, it, same_int),
        )
    | inr apart ↦ (
      p,
      record {
        there = ground (arith, apart, get_elem?-set i j m.objects o' p e.there);
        by_id = e.by_id;
        by_internal = e.by_internal;
        held = e.held;
      },
      refl,
      refl,
    )
  ]

  pub update-Linked : Linked m → Linked (update i o' m)
  update-Linked l = record {
    distinct = l.distinct;
    distinct_int = l.distinct_int;
    entry = λ k j e.
        let (p, entry, at) = l.entry k j e in
        let (p', entry', kept, kept_int) = update-Entry j p entry in (p', entry', kept ∙ at);
    int_entry = λ k j e.
        let (p, entry, at) = l.int_entry k j e in
        let (p', entry', kept, kept_int) = update-Entry j p entry in (p', entry', kept_int ∙ at);
  }

-- What `remove` leaves of an entry's manager.
abbrev pub removed : ConnData → ConnectionManager → ConnectionManager
removed o m = record m {
  connections = delete o.connection_id m.connections;
  int_connections = delete o.internal_id m.int_connections;
}

pub remove-removed :
    (m : ConnectionManager) (i : ℕ) (o : ConnData)
    → EntryOf m i o
    → remove o m ≡ (none, removed o m)
unfolding remove
remove-removed m i o e =
    let known = e.by_id in let known_int = e.by_internal in ground (arith, known, known_int)

-- The entries at other places are left.
removed-Entry :
    (m : ConnectionManager) (i j : ℕ) (o p : ConnData)
    → Linked m
    → EntryOf m i o
    → EntryOf m j p
    → (i == j) ≡ false
    → EntryOf (removed o m) j p
removed-Entry m i j o p l e f apart =
    let at = e.by_id in
    let at_int = e.by_internal in
    let known = f.by_id in
    let known_int = f.by_internal in
    record {
      there = f.there;
      by_id = ground (
        arith,
        at,
        known,
        apart,
        lookup-delete o.connection_id p.connection_id m.connections l.distinct,
      );
      by_internal = ground (
        arith,
        at_int,
        known_int,
        apart,
        lookup-delete o.internal_id p.internal_id m.int_connections l.distinct_int,
      );
      held = f.held;
    }

pub removed-Linked :
    (m : ConnectionManager) (i : ℕ) (o : ConnData) → Linked m → EntryOf m i o → Linked (removed o m)
removed-Linked m i o l e =
    let there = e.there in
    record {
      distinct = delete-AreDistinct o.connection_id m.connections l.distinct;
      distinct_int = delete-AreDistinct o.internal_id m.int_connections l.distinct_int;
      entry = λ k j f.
          let gone = lookup-delete o.connection_id k m.connections l.distinct in
          let (p, entry, same) = l.entry k j (ground (arith, f, gone)) in
          let old = entry.there in
          (p, removed-Entry m i j o p l e entry (ground (arith, f, gone, same, there, old)), same);
      int_entry = λ k j f.
          let gone = lookup-delete o.internal_id k m.int_connections l.distinct_int in
          let (p, entry, same) = l.int_entry k j (ground (arith, f, gone)) in
          let old = entry.there in
          (p, removed-Entry m i j o p l e entry (ground (arith, f, gone, same, there, old)), same);
    }
