-- ===== src/Graph/Databases.antt =====
-- The databases of a sensor graph: what is read is what was stored last.
use coretools.Prelude.{
  ℕ, ◌≡◌, refl, Bool, true, ◌&&◌, ◌==◌, if◌then◌else◌, some, List, [], ◌∷◌, ==_iff, arith,
}
use coretools.Errors.{ok}
use coretools.Slot
use coretools.Slot.{SlotIdentifier}
use coretools.Slot.Descriptor.{eq_iff}
use coretools.Graph.{
  SensorGraph, ConfigValue, or_empty, lookup_by, insert_by, add_config, get_config,
}
use Prim.Native.String.{String}

-- A test that tells keys apart.
abbrev pub Tells {ℓ} : {K : Type ℓ} → (K → K → Bool) → Type ℓ
Tells {K = K} same_key = (i j : K) → (same_key i j ≡ true → i ≡ j) × (i ≡ j → same_key i j ≡ true)

module _ {ℓ κ} {K : Type ℓ} {V : Type κ} (same_key : K → K → Bool) (tells : Tells same_key) where
  pub lookup_by-insert_by :
      (k j : K) (v : V) (d : List (K × V))
      → lookup_by same_key j (insert_by same_key k v d)
        ≡ (if same_key k j then some v else lookup_by same_key j d)
  unfolding lookup_by insert_by
  lookup_by-insert_by k j v [] = refl
  lookup_by-insert_by k j v ((i, u) ∷ d) =
      ground (arith, tells i k, tells i j, tells k j, lookup_by-insert_by k j v d)

-- Both dicts of the configuration tell their keys apart.
slots-Tells : Tells Slot.eq
slots-Tells s t = eq_iff s t

pub numbers-Tells : Tells ◌==◌
numbers-Tells i j = ==_iff i j

-- A config variable that is read is the last one that was added for the slot and the number; the
-- other variables stay as they were, and so do those that are missing, for which `ArgumentError` is
-- raised.
pub get_config-add_config :
    (g : SensorGraph) (slot asked : SlotIdentifier) (id number : ℕ) (type : String)
    (value : ConfigValue)
    → get_config (add_config g slot id type value) asked number ≡ (
        if Slot.eq slot asked && (id == number)
        then ok (type, value)
        else get_config g asked number)
unfolding get_config add_config lookup_by
get_config-add_config g slot asked id number type value = ground (
  arith,
  lookup_by-insert_by Slot.eq slots-Tells slot asked
      (insert_by ◌==◌ id (type, value) (or_empty (lookup_by Slot.eq slot g.config_database)))
      g.config_database,
  lookup_by-insert_by ◌==◌ numbers-Tells id number (type, value)
      (or_empty (lookup_by Slot.eq slot g.config_database)),
  slots-Tells slot asked,
)
