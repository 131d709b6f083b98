-- ===== src/ConnectionManager/Dict.antt =====
-- Python's dict with integer keys: a list of pairs with no key twice.
use coretools.Prelude.{
  ℕ, ◌≡◌, refl, false, ◌==◌, ==_refl, if◌then◌else◌, Option, none, some, List, [], ◌∷◌, arith,
}

module _ {A : Type 0} where
  -- `table[key]`, which is nothing where it raises `KeyError`.
  unfoldable pub lookup : ℕ → List (ℕ × A) → Option A
  lookup k [] = none
  lookup k ((j, v) ∷ t) = if j == k then some v else lookup k t

  -- `table[key] = value`.
  unfoldable pub insert : ℕ → A → List (ℕ × A) → List (ℕ × A)
  insert k v [] = (k, v) ∷ []
  insert k v ((j, u) ∷ t) = if j == k then (j, v) ∷ t else (j, u) ∷ insert k v t

  -- `del table[key]`, of a key that is there.
  unfoldable pub delete : ℕ → List (ℕ × A) → List (ℕ × A)
  delete k [] = []
  delete k ((j, v) ∷ t) = if j == k then t else (j, v) ∷ delete k t

  -- No key stands twice in the list.
  unfoldable pub AreDistinct : List (ℕ × A) → Type 0
  unfolding lookup
  AreDistinct [] = Unit
  AreDistinct ((k, v) ∷ t) = (lookup k t ≡ none) × AreDistinct t

  pub lookup-insert :
      (k j : ℕ) (v : A) (t : List (ℕ × A))
      → lookup j (insert k v t) ≡ (if k == j then some v else lookup j t)
  unfolding lookup insert
  lookup-insert k j v [] = refl
  lookup-insert k j v ((i, u) ∷ t) = ground (arith, lookup-insert k j v t)

  pub insert-AreDistinct :
      (k : ℕ) (v : A) (t : List (ℕ × A)) → AreDistinct t → AreDistinct (insert k v t)
  unfolding AreDistinct lookup insert
  insert-AreDistinct k v [] d = (refl, tt)
  insert-AreDistinct k v ((i, u) ∷ t) d =
      ground (arith, d, lookup-insert k i v t, insert-AreDistinct k v t)

  lookup-delete_other :
      (k j : ℕ) (t : List (ℕ × A)) → (k == j) ≡ false → lookup j (delete k t) ≡ lookup j t
  unfolding lookup delete
  lookup-delete_other k j [] h = refl
  lookup-delete_other k j ((i, u) ∷ t) h = ground (arith, h, lookup-delete_other k j t)

  lookup-delete_same : (k : ℕ) (t : List (ℕ × A)) → AreDistinct t → lookup k (delete k t) ≡ none
  unfolding lookup delete AreDistinct
  lookup-delete_same k [] d = refl
  lookup-delete_same k ((i, u) ∷ t) d = ground (arith, d, lookup-delete_same k t)

  pub lookup-delete :
      (k j : ℕ) (t : List (ℕ × A))
      → AreDistinct t
      → lookup j (delete k t) ≡ (if k == j then none else lookup j t)
  lookup-delete k j t d = ground (arith, d, lookup-delete_same k t, lookup-delete_other k j t)

  pub delete-AreDistinct : (k : ℕ) (t : List (ℕ × A)) → AreDistinct t → AreDistinct (delete k t)
  unfolding AreDistinct lookup delete
  delete-AreDistinct k [] d = tt
  delete-AreDistinct k ((i, u) ∷ t) d =
      ground (arith, d, lookup-delete_other k i t, delete-AreDistinct k t)

  -- Every value of the table has a property.
  unfoldable pub All : (A → Type 0) → List (ℕ × A) → Type 0
  All P [] = Unit
  All P ((k, v) ∷ t) = P v × All P t

  pub lookup-All :
      (P : A → Type 0) (t : List (ℕ × A))
      → AreDistinct t
      → ((k : ℕ) (v : A) → lookup k t ≡ some v → P v)
      → All P t
  unfolding All AreDistinct lookup
  lookup-All P [] d h = tt
  lookup-All P ((k, v) ∷ t) d h = (
    h k v (ground (arith, ==_refl k)),
    lookup-All P t d.1 (λ j u e. h j u (ground (arith, d, e))),
  )
