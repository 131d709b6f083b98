-- ===== src/Slot/Tests.antt =====
-- The descriptor of a concrete tile.
use coretools.Prelude.{ℕ, ◌≡◌, false, some, List, arith}
use coretools.Errors.{ok}
use coretools.Slot
use coretools.Slot.{SlotIdentifier}
use coretools.Slot.Descriptor.{slot_from_encoded-encode}

abbrev slot_three : SlotIdentifier
slot_three = record { slot = some 3; controller = false }

slot_from_encoded-encode_example :
    (b : List ℕ) × (Slot.encode slot_three ≡ ok b) × (Slot.from_encoded b ≡ ok slot_three)
slot_from_encoded-encode_example = slot_from_encoded-encode slot_three (omega arith, omega arith)
