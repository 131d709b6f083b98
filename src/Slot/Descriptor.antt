-- ===== src/Slot/Descriptor.antt =====
-- Descriptors and addresses of slot identifiers.
use coretools.Prelude.{
  ℕ, ◌<◌, ◌≤◌, ◌≡◌, ◌⊎◌, ◌↔◌, inl, inr, refl, Bool, true, false, Option, none, some, List, [], ◌∷◌,
  arith,
}
use coretools.Errors.{ok, err, Error}
use coretools.Slot.{
  SlotIdentifier, init, address, matches, of_match_code, match_code, MatchCode, from_encoded,
  encode, eq,
}

-- The identifiers that name a tile: the controller, or a slot from 1 to 31.
abbrev pub Names : Bool → Option ℕ → Type 0
Names true slot = slot ≡ none
Names false none = ⊥
Names false (some n) = (1 ≤ n) × (n < 32)

abbrev pub NamesTile : SlotIdentifier → Type 0
NamesTile s = Names s.controller s.slot

-- The constructor raises `ArgumentError`, or returns an identifier of its arguments that names a
-- tile, but for the call with no argument, whose identifier has neither a slot nor a controller.
pub init_lem :
    (slot : Option ℕ) (controller : Bool)
    → (init slot controller ≡ err Error.argument_error)
      ⊎ ((init slot controller ≡ ok (record { slot = slot; controller = controller }))
          × (Names controller slot ⊎ ((slot ≡ none) × (controller ≡ false))))
unfolding init
init_lem none true = inr (refl, inl refl)
init_lem none false = inr (refl, inr (refl, refl))
init_lem (some n) true = inl refl
init_lem (some n) false = ground arith

descriptor :
    (slot : Option ℕ) (controller : Bool)
    → Names controller slot
    → let s : SlotIdentifier = record { slot = slot; controller = controller } in
      (b : List ℕ) × (encode s ≡ ok b) × (from_encoded b ≡ ok s)
unfolding encode from_encoded
descriptor none true h = (0 ∷ 0 ∷ 0 ∷ 0 ∷ 0 ∷ 0 ∷ 0 ∷ 2 ∷ [], refl, refl)
descriptor (some n) true h = cc
descriptor none false h = elim h [ ]
descriptor (some n) false h = (n ∷ 0 ∷ 0 ∷ 0 ∷ 0 ∷ 0 ∷ 0 ∷ 1 ∷ [], ground arith, ground arith)

-- An identifier that names a tile has an 8-byte descriptor, which is read back as that identifier.
pub slot_from_encoded-encode :
    (s : SlotIdentifier) → NamesTile s → (b : List ℕ) × (encode s ≡ ok b) × (from_encoded b ≡ ok s)
slot_from_encoded-encode s h = descriptor s.slot s.controller h

of_match_code-NamesTile :
    (code : Option MatchCode) (n : ℕ) (s : SlotIdentifier)
    → of_match_code code n ≡ ok s
    → NamesTile s
unfolding of_match_code init
of_match_code-NamesTile none n s h = cc
of_match_code-NamesTile (some MatchCode.match_none) n s h = cc
of_match_code-NamesTile (some MatchCode.match_name) n s h = cc
of_match_code-NamesTile (some MatchCode.match_controller) n s h = ground arith
of_match_code-NamesTile (some MatchCode.match_slot) n s h = ground arith

-- Whatever bytes are read, an identifier that comes out names a tile.
pub slot_from_encoded-NamesTile :
    (b : List ℕ) (s : SlotIdentifier) → from_encoded b ≡ ok s → NamesTile s
unfolding from_encoded
slot_from_encoded-NamesTile (n ∷ _ ∷ _ ∷ _ ∷ _ ∷ _ ∷ _ ∷ op ∷ []) s h =
    of_match_code-NamesTile (match_code op) n s h
slot_from_encoded-NamesTile _ s h = cc

-- Two identifiers that name tiles and have the same address are equal.
pub address_injective :
    (s t : SlotIdentifier) → NamesTile s → NamesTile t → address s ≡ address t → s ≡ t
unfolding address
address_injective s t hs ht h = ground arith

-- An identifier that names a tile matches the address of that tile and no other.
pub matches_iff :
    (s : SlotIdentifier) (addr : ℕ)
    → NamesTile s
    → (matches s addr ≡ ok true) ↔ (address s ≡ ok addr)
unfolding matches address
matches_iff s addr h = ground arith

pub eq_iff : (s t : SlotIdentifier) → (eq s t ≡ true) ↔ (s ≡ t)
unfolding eq
eq_iff s t = ground arith
