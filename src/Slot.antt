-- ===== src/Slot.antt =====
-- `SlotIdentifier` of iotilesensorgraph/iotile/sg/slot.py: the address of a tile, and its 8-byte
-- descriptor.
pub mod Descriptor
mod Tests
use coretools.Prelude.{
  ℕ, ◌+◌, Bool, true, false, ◌&&◌, ◌||◌, ◌==◌, ltb, leb, same, if◌then◌else◌, Option, none, some,
  List, [], ◌∷◌,
}
use coretools.Errors.{Error, Result, ok, err}

pub record SlotIdentifier : Type 0 where
  pub slot : Option ℕ
  pub controller : Bool

-- `__init__`; a slot number is a number from 0 on.
unfoldable pub init : Option ℕ → Bool → Result SlotIdentifier
init none controller = ok (record { slot = none; controller = controller })
init (some slot) controller =
    if controller
    then err Error.argument_error
    else if ltb slot 1 || leb 32 slot
    then err Error.argument_error
    else ok (record { slot = some slot; controller = controller })

-- `10 + self.slot` raises `TypeError` where there is no slot.
unfoldable pub address : SlotIdentifier → Result ℕ
address s =
    if s.controller
    then ok 8
    else elim s.slot [ none ↦ err Error.type_error | some slot ↦ ok (10 + slot) ]

unfoldable pub matches : SlotIdentifier → ℕ → Result Bool
unfolding address
matches s addr =
    if s.controller
    then ok (addr == 8)
    else elim (address s) [ err e ↦ err e | ok own ↦ ok (own == addr) ]

-- `KNOWN_MATCH_CODES`.
pub data MatchCode : Type 0 where
  match_none match_slot match_controller match_name : MatchCode

abbrev pub match_code : ℕ → Option MatchCode
match_code op =
    if op == 0
    then some MatchCode.match_none
    else if op == 1
    then some MatchCode.match_slot
    else if op == 2
    then some MatchCode.match_controller
    else if op == 3
    then some MatchCode.match_name
    else none

-- The part of `FromEncoded` behind the check of the length.
unfoldable pub of_match_code : Option MatchCode → ℕ → Result SlotIdentifier
of_match_code none slot = err Error.argument_error
of_match_code (some MatchCode.match_controller) slot = init none true
of_match_code (some MatchCode.match_slot) slot = init (some slot) false
of_match_code (some _) slot = err Error.argument_error

-- The bytes of the descriptor are given as a list of numbers; "<B6xB" takes the first and the last
-- of eight.
unfoldable pub from_encoded : List ℕ → Result SlotIdentifier
unfolding of_match_code init
from_encoded (slot ∷ _ ∷ _ ∷ _ ∷ _ ∷ _ ∷ _ ∷ op ∷ []) = of_match_code (match_code op) slot
from_encoded _ = err Error.argument_error

-- `struct.pack("<B6xB", slot, match_op)`.
abbrev pub pack_slot : Option ℕ → ℕ → Result (List ℕ)
pack_slot none op = err Error.struct_error
pack_slot (some slot) op =
    if ltb slot 256 then ok (slot ∷ 0 ∷ 0 ∷ 0 ∷ 0 ∷ 0 ∷ 0 ∷ op ∷ []) else err Error.struct_error

unfoldable pub encode : SlotIdentifier → Result (List ℕ)
encode s = if s.controller then pack_slot (some 0) 2 else pack_slot s.slot 1

abbrev slot_eq : Option ℕ → Option ℕ → Bool
slot_eq none none = true
slot_eq (some a) (some b) = a == b
slot_eq _ _ = false

-- `__eq__`.
unfoldable pub eq : SlotIdentifier → SlotIdentifier → Bool
eq s t = same s.controller t.controller && slot_eq s.slot t.slot
