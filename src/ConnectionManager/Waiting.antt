-- ===== src/ConnectionManager/Waiting.antt =====
-- How many connections of `ConnectionManager` keep a callback to call.
use coretools.Prelude.{
  ℕ, ◌+◌, ◌≡◌, refl, sym, ◌∙◌, false, ◌==◌, if◌then◌else◌, Option, none, some, List, [], ◌∷◌, ◌++◌,
  length, get_elem?, set, get_elem?-append, get_elem?-last, get_elem?-set, Bool-cases, inl, inr,
  arith,
}
use coretools.ConnectionManager.Dict.{
  lookup, insert, delete, All, lookup-All, lookup-delete, delete-AreDistinct,
}
use coretools.ConnectionManager.{ConnData, ConnectionManager, Pending, register}
use coretools.ConnectionManager.Handlers.{update}
use coretools.ConnectionManager.Linked.{Linked, EntryOf, removed}

-- One where a connection keeps the callback, and zero where it does not.
unfoldable pub keeps : ℕ → Option Pending → ℕ
keeps c none = 0
keeps c (some p) = if p.callback == c then 1 else 0

unfoldable pub kept_at : ℕ → List ConnData → ℕ → ℕ
unfolding keeps
kept_at c objects i = elim (get_elem? objects i) [ none ↦ 0 | some o ↦ keeps c o.action ]

unfoldable pub waiting_in : ℕ → List ConnData → List (ℕ × ℕ) → ℕ
unfolding kept_at
waiting_in c objects [] = 0
waiting_in c objects ((k, i) ∷ t) = kept_at c objects i + waiting_in c objects t

unfoldable pub waiting : ℕ → ConnectionManager → ℕ
unfolding waiting_in
waiting c m = waiting_in c m.objects m.connections

waiting_in-delete :
    (c : ℕ) (objects : List ConnData) (k i : ℕ) (t : List (ℕ × ℕ))
    → lookup k t ≡ some i
    → waiting_in c objects (delete k t) + kept_at c objects i ≡ waiting_in c objects t
unfolding waiting_in lookup delete
waiting_in-delete c objects k i [] e = absurd (ground (arith, e))
waiting_in-delete c objects k i ((j, h) ∷ t) e = elim (Bool-cases (j == k)) [
  | inl same ↦ let it : h ≡ i = ground (arith, e, same) in ground (arith, same, it)
  | inr apart ↦
      let rest = waiting_in-delete c objects k i t (ground (arith, e, apart)) in
      ground (arith, apart, rest)
]

waiting_in-insert :
    (c : ℕ) (objects : List ConnData) (k i : ℕ) (t : List (ℕ × ℕ))
    → lookup k t ≡ none
    → waiting_in c objects (insert k i t) ≡ waiting_in c objects t + kept_at c objects i
unfolding waiting_in lookup insert
waiting_in-insert c objects k i [] e = omega arith
waiting_in-insert c objects k i ((j, h) ∷ t) e = elim (Bool-cases (j == k)) [
  | inl same ↦ absurd (ground (arith, e, same))
  | inr apart ↦
      let rest = waiting_in-insert c objects k i t (ground (arith, e, apart)) in
      ground (arith, apart, rest)
]

-- What the objects at the places of a table keep is all that counts.
waiting_in-same :
    (c : ℕ) (objects objects' : List ConnData) (t : List (ℕ × ℕ))
    → All (λ i. kept_at c objects' i ≡ kept_at c objects i) t
    → waiting_in c objects' t ≡ waiting_in c objects t
unfolding waiting_in All
waiting_in-same c objects objects' [] h = refl
waiting_in-same c objects objects' ((k, i) ∷ t) h =
    omega (arith, h.0, waiting_in-same c objects objects' t h.1)

kept_at-there :
    (c : ℕ) (objects : List ConnData) (i : ℕ) (o : ConnData)
    → get_elem? objects i ≡ some o
    → kept_at c objects i ≡ keeps c o.action
unfolding kept_at
kept_at-there c objects i o e = ground (arith, e)

-- The three changes of a manager.
pub waiting-register :
    (c : ℕ) (m : ConnectionManager) (o : ConnData)
    → Linked m
    → lookup o.connection_id m.connections ≡ none
    → waiting c (register m o) ≡ waiting c m + keeps c o.action
unfolding waiting register
waiting-register c m o l free =
    let more = m.objects ++ (o ∷ []) in
    let all =
      lookup-All (λ i. kept_at c more i ≡ kept_at c m.objects i) m.connections l.distinct
        (λ k i e.
          let (p, entry, _) = l.entry k i e in
          kept_at-there c more i p (get_elem?-append i m.objects (o ∷ []) p entry.there)
          ∙ sym (kept_at-there c m.objects i p entry.there)) in
    omega (
      arith,
      waiting_in-insert c more o.connection_id (length m.objects) m.connections free,
      waiting_in-same c m.objects more m.connections all,
      kept_at-there c more (length m.objects) o (get_elem?-last m.objects o),
    )

pub waiting-removed :
    (c : ℕ) (m : ConnectionManager) (i : ℕ) (o : ConnData)
    → EntryOf m i o
    → waiting c (removed o m) + keeps c o.action ≡ waiting c m
unfolding waiting
waiting-removed c m i o entry = omega (
  arith,
  waiting_in-delete c m.objects o.connection_id i m.connections entry.by_id,
  kept_at-there c m.objects i o entry.there,
)

pub waiting-update :
    (c : ℕ) (m : ConnectionManager) (i : ℕ) (o o' : ConnData)
    → Linked m
    → EntryOf m i o
    → waiting c (update i o' m) + keeps c o.action ≡ waiting c m + keeps c o'.action
unfolding waiting
waiting-update c m i o o' l entry =
    let k = o.connection_id in
    let rest = delete k m.connections in
    let changed = set m.objects i o' in
    let all =
      lookup-All (λ j. kept_at c changed j ≡ kept_at c m.objects j) rest
        (delete-AreDistinct k m.connections l.distinct)
        (λ h j e.
          let gone = lookup-delete k h m.connections l.distinct in
          let (p, other, id) = l.entry h j (ground (arith, e, gone)) in
          let there = entry.there in
          let at = other.there in
          let apart : (i == j) ≡ false = ground (arith, e, gone, id, there, at) in
          kept_at-there c changed j p (ground (arith, apart, get_elem?-set i j m.objects o' p at))
          ∙ sym (kept_at-there c m.objects j p at)) in
    omega (
      arith,
      waiting_in-delete c m.objects k i m.connections entry.by_id,
      waiting_in-delete c changed k i m.connections entry.by_id,
      waiting_in-same c m.objects changed rest all,
      kept_at-there c m.objects i o entry.there,
      kept_at-there c changed i o' (ground (arith, get_elem?-set i i m.objects o' o entry.there)),
    )
