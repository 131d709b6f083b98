-- ===== src/SparseMemory/Reading.antt =====
-- What is read from a `SparseMemory` after it has changed.
use coretools.Prelude.{
  ℕ, zero, suc, ◌+◌, ◌-◌, ◌≤◌, ◌<◌, ◌≡◌, ◌⊎◌, refl, sym, ◌∙◌, ap, ◌&&◌, leb, true, ◌==◌, ltb,
  if◌then◌else◌, Option, none, some, List, [], ◌∷◌, ◌++◌, length, set, get_elem?, get_elem?-set,
  Bool-cases, inl, inr, arith,
}
use coretools.Errors.{Error, Result, ok, err}
use coretools.SparseMemory.{
  MemorySegment, SparseMemory, in_segment, find_from, find_address, is_disjoint, add_segment, at,
  create_slice, get_item, set_byte,
}

-- The bytes of a segment fill it.
unfoldable pub AreFilled : List MemorySegment → Type 0
AreFilled [] = Unit
AreFilled (s ∷ l) = (s.end_address ≡ s.start_address + length s.bytes) × AreFilled l

-- The byte at an address: that of the first segment that has it.
unfoldable pub byte_in : List MemorySegment → ℕ → Option ℕ
byte_in [] x = none
byte_in (s ∷ l) x =
    let rest = byte_in l x in
    if in_segment x s then get_elem? s.bytes (x - s.start_address) else rest

abbrev pub answer : Option ℕ → Result (List ℕ)
answer none = err Error.argument_error
answer (some b) = ok (b ∷ [])

get_elem?-inside : (l : List ℕ) (i : ℕ) → i < length l → (b : ℕ) × (get_elem? l i ≡ some b)
get_elem?-inside [] i h = absurd (omega arith)
get_elem?-inside (x ∷ l) zero h = (x, refl)
get_elem?-inside (x ∷ l) (suc i) h = get_elem?-inside l i (omega arith)

-- What `find_address` finds has the byte.
find_from-byte_in :
    (i : ℕ) (l : List MemorySegment) (x : ℕ)
    → AreFilled l
    → ((find_from i l x ≡ none) × (byte_in l x ≡ none))
      ⊎ ((j : ℕ) × (s : MemorySegment) × (b : ℕ) × (find_from i l x ≡ some (j, s))
          × (get_elem? s.bytes (x - s.start_address) ≡ some b)
          × (byte_in l x ≡ some b))
unfolding find_from byte_in AreFilled
find_from-byte_in i [] x f = inl (refl, refl)
find_from-byte_in i (s ∷ l) x f = elim (Bool-cases (in_segment x s)) [
  | inr outside ↦ rw outside (find_from-byte_in (suc i) l x f.1)
  | inl inside ↦
      let ends = f.0 in
      let (b, there) =
        get_elem?-inside s.bytes (x - s.start_address) (ground (arith, inside, ends)) in
      inr (i, s, b, ground (arith, inside), there, ground (arith, inside, there))
]

get_item-byte_in :
    (m : SparseMemory) (x : ℕ)
    → AreFilled m.segments
    → get_item m (at x) ≡ answer (byte_in m.segments x)
unfolding get_item create_slice find_address
get_item-byte_in m x f = elim (find_from-byte_in 0 m.segments x f) [
  | inl (missing, no_byte) ↦ ground (arith, missing, no_byte)
  | inr (j, s, b, found, there, byte) ↦ ground (arith, found, there, byte)
]

-- The byte of a new last segment is read where no other has the address.
abbrev pub or_new : Option ℕ → Option ℕ → Option ℕ
or_new (some b) new = some b
or_new none new = new

byte_in-append :
    (l : List MemorySegment) (s : MemorySegment) (x : ℕ)
    → AreFilled l
    → byte_in (l ++ (s ∷ [])) x ≡ or_new (byte_in l x) (byte_in (s ∷ []) x)
unfolding byte_in AreFilled
byte_in-append [] s x f = refl
byte_in-append (t ∷ l) s x f = elim (Bool-cases (in_segment x t)) [
  | inr outside ↦ rw outside (byte_in-append l s x f.1)
  | inl inside ↦
      let ends = f.0 in
      let (b, there) =
        get_elem?-inside t.bytes (x - t.start_address) (ground (arith, inside, ends)) in
      ground (arith, inside, there)
]

append-AreFilled :
    (l : List MemorySegment) (s : MemorySegment)
    → s.end_address ≡ s.start_address + length s.bytes
    → AreFilled l
    → AreFilled (l ++ (s ∷ []))
unfolding AreFilled
append-AreFilled [] s e f = (e, tt)
append-AreFilled (t ∷ l) s e f = (f.0, append-AreFilled l s e f.1)

-- Where the bytes of every segment fill it, `add_segment` keeps that so, and an address is then read
-- like this: where it was in a segment, it has the byte that it had; otherwise it has the byte of the new
-- segment, if it is in that one, and raises `ArgumentError` if it is not.
pub add_segment-reads :
    (m m' : SparseMemory) (address : ℕ) (bytes : List ℕ)
    → AreFilled m.segments
    → add_segment m address bytes ≡ ok m'
    → AreFilled m'.segments
      × ((x : ℕ)
          → get_item m' (at x)
            ≡ answer (
                or_new (byte_in m.segments x) (
                  if leb address x && ltb x (address + length bytes)
                  then get_elem? bytes (x - address)
                  else none)))
unfolding add_segment byte_in
add_segment-reads m m' address bytes f e =
    let s : MemorySegment = record {
      start_address = address;
      end_address = address + length bytes;
      bytes = bytes;
    } in
    elim (Bool-cases (is_disjoint m address (length bytes))) [
      | inr clash ↦ absurd (ground (arith, clash, e))
      | inl free ↦
          let it : m' ≡ record { segments = m.segments ++ (s ∷ []) } = ground (arith, free, e) in
          let filled = append-AreFilled m.segments s refl f in
          rw it (
            filled,
            λ x.
                get_item-byte_in (record { segments = m.segments ++ (s ∷ []) }) x filled
                ∙ ap answer (byte_in-append m.segments s x f),
          )
    ]

length-set : (l : List ℕ) (i v : ℕ) → length (set l i v) ≡ length l
length-set [] i v = refl
length-set (x ∷ l) zero v = refl
length-set (x ∷ l) (suc i) v = ap suc (length-set l i v)

first_byte :
    (x v : ℕ) (t : MemorySegment) (l : List MemorySegment) (y : ℕ)
    → t.end_address ≡ t.start_address + length t.bytes
    → in_segment x t ≡ true
    → byte_in (record t { bytes = set t.bytes (x - t.start_address) v } ∷ l) y
      ≡ (if x == y then some v else byte_in (t ∷ l) y)
unfolding byte_in
first_byte x v t l y ends inside = elim (Bool-cases (in_segment y t)) [
  | inr outside ↦ ground (arith, inside, outside)
  | inl here ↦
      let k = x - t.start_address in
      let h = y - t.start_address in
      let (b, there) = get_elem?-inside t.bytes h (ground (arith, here, ends)) in
      let changed = get_elem?-set k h t.bytes v b there in
      ground (arith, inside, here, there, changed)
]

-- A byte of the first segment that has an address is changed.
set-byte_in :
    (i : ℕ) (l : List MemorySegment) (x v j : ℕ) (s : MemorySegment)
    → AreFilled l
    → find_from i l x ≡ some (j, s)
    → let s' = record s { bytes = set s.bytes (x - s.start_address) v } in
      let l' = set l (j - i) s' in
      (i ≤ j) × AreFilled l' × ((y : ℕ) → byte_in l' y ≡ (if x == y then some v else byte_in l y))
unfolding find_from byte_in AreFilled
set-byte_in i [] x v j s f e = absurd (ground (arith, e))
set-byte_in i (t ∷ l) x v j s f e = elim (Bool-cases (in_segment x t)) [
  | inl inside ↦
      let here : j ≡ i = ground (arith, inside, e) in
      let it : s ≡ t = ground (arith, inside, e) in
      let first : j - i ≡ 0 = omega (arith, here) in
      let ends = f.0 in
      (
        omega (arith, here),
        rw (first, it) (ends ∙ ap (λ n. t.start_address + n) (sym (length-set t.bytes _ v)), f.1),
        λ y. rw (first, it) (first_byte x v t l y ends inside),
      )
  | inr outside ↦
      let (le, filled, reads) = set-byte_in (suc i) l x v j s f.1 (ground (arith, outside, e)) in
      let later : j - i ≡ suc (j - suc i) = omega (arith, le) in
      (omega (arith, le), rw later (f.0, filled), λ y. rw later (ground (arith, outside, reads y)))
]

-- Where the bytes of every segment fill it, a byte that is set is read at its address, what is read at
-- the other addresses stays as it was, and the bytes still fill the segments.
pub set_byte-reads :
    (m m' : SparseMemory) (x v : ℕ)
    → AreFilled m.segments
    → set_byte m x v ≡ ok m'
    → AreFilled m'.segments
      × ((y : ℕ) → get_item m' (at y) ≡ (if x == y then ok (v ∷ []) else get_item m (at y)))
unfolding set_byte create_slice find_address
set_byte-reads m m' x v f e = elim (find_from-byte_in 0 m.segments x f) [
  | inl (missing, _) ↦ absurd (ground (arith, missing, e))
  | inr (j, s, b, found, there, byte) ↦
      let k = x - s.start_address in
      let l' = set m.segments j (record s { bytes = set s.bytes k v }) in
      let it : m' ≡ record { segments = l' } = ground (arith, found, e) in
      let (_, filled, reads) = set-byte_in 0 m.segments x v j s f found in
      let first : j - 0 ≡ j = omega arith in
      let filled' : AreFilled l' = rw first at filled in
      let reads' : (y : ℕ) → byte_in l' y ≡ (if x == y then some v else byte_in m.segments y) =
        rw first at reads in
      rw it (
        filled',
        λ y.
            let after = get_item-byte_in (record { segments = l' }) y filled' in
            let before = get_item-byte_in m y f in ground (arith, after, before, reads' y),
      )
]
