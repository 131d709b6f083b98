-- ===== src/Walker/Buffered/Seek.antt =====
-- `seek`, to an offset and to a reading id.
use coretools.Prelude.{
  ℕ, zero, suc, ◌+◌, ◌<◌, ◌≤◌, ◌≡◌, ◌≢◌, refl, pos, Bool, true, Bool-cases, length, arith, ◌⊎◌, inl,
  inr, List, [], ◌∷◌, drop, filter_by, get_elem?, Option, none, some, ◌==◌, drop-cons,
  if◌then◌else◌, leb, count_if,
}
use coretools.Errors.{Error, Result, ok, err}
use coretools.Selector
use coretools.Reading.{IoTileReading}
use coretools.Engine
use coretools.Engine.{Engine, Area, chosen_buffer, count_matching, scan_from, scan_storage}
use coretools.Engine.Buffers.{area_of, reads, buffer_of, get_in_range, count_matching_lem}
use coretools.Walker.Buffered.{
  BufferedStreamWalker, Target, matches, recount, verify_offset, find_id, id_searcher, seek,
}
use coretools.Walker.Buffered.Queue.{InSync}
use coretools.Walker.Buffered.Placed.{settled}

-- The walker reads the persistent area that its selector names.
pub record IsPlaced (w : BufferedStreamWalker) : Type 0 where
  pub area : w.storage_type ≡ area_of (Selector.output w.selector)
  pub stored : Selector.buffered w.selector ≡ true

-- A move to the offset `i`: the walker is in sync with the readings from there on, whatever it counted
-- before, and the answer tells whether the reading at the offset is its own.
abbrev pub MovedTo : Engine → BufferedStreamWalker → ℕ → Result Bool × BufferedStreamWalker → Type 0
MovedTo e w i out =
    (r : IoTileReading) × (get_elem? (buffer_of e w.selector) i ≡ some r)
    × (out.0 ≡ ok (reads w.selector r))
    × InSync e out.1 (filter_by (reads w.selector) (drop i (buffer_of e w.selector)))

recount_eq :
    (e : Engine) (w : BufferedStreamWalker) (i : ℕ) (r : IoTileReading) (n : ℕ)
    → count_matching e w.selector w.offset ≡ ok n
    → Engine.get e w.storage_type w.offset ≡ ok r
    → recount e w ≡ (ok (reads w.selector r), record w { count = n })
unfolding recount matches
recount_eq e w i r n counted got = ground arith

recount-MovedTo :
    (e : Engine) (w : BufferedStreamWalker) (i : ℕ)
    → IsPlaced w
    → i < length (buffer_of e w.selector)
    → w.offset ≡ pos i
    → MovedTo e w i (recount e w)
recount-MovedTo e w i p lt off =
    let (r, found, split) = drop-cons i (buffer_of e w.selector) lt in
    let (r', got', split') = get_in_range e (area_of (Selector.output w.selector)) i lt in
    let n = count_if (reads w.selector) (drop i (buffer_of e w.selector)) in
    let counted : count_matching e w.selector w.offset ≡ ok n =
      rw off (count_matching_lem e w.selector i p.stored (omega arith)) in
    let got : Engine.get e w.storage_type w.offset ≡ ok r =
      rw (off, p.area) (cc (got', split, split')) in
    (
      r,
      found,
      rw (recount_eq e w i r n counted got),
      rw (recount_eq e w i r n counted got)
          (settled e (record w { count = n }) i off p.area p.stored (omega arith) refl),
    )

verify_offset_lem :
    (e : Engine) (w : BufferedStreamWalker) (i : ℕ)
    → IsPlaced w
    → verify_offset e w (pos i) ≡ (
        if leb (length (buffer_of e w.selector)) i
        then (err Error.unresolved_identifier_error, w)
        else (ok tt, record w { offset = pos i }))
unfolding verify_offset Engine.count
verify_offset_lem e w i p = ground arith

-- `seek` to an offset: it moves there if there is a reading, and otherwise raises
-- `UnresolvedIdentifierError` and changes nothing.
pub seek_offset :
    (e : Engine) (w : BufferedStreamWalker) (i : ℕ)
    → IsPlaced w
    → ((i < length (buffer_of e w.selector)) × MovedTo e w i (seek e w (pos i) Target.offset))
      ⊎ ((length (buffer_of e w.selector) ≤ i)
          × (seek e w (pos i) Target.offset ≡ (err Error.unresolved_identifier_error, w)))
unfolding seek
seek_offset e w i p = elim (Bool-cases (leb (length (buffer_of e w.selector)) i)) [
  | inl behind ↦ inr (ground arith, ground (arith, verify_offset_lem e w i p))
  | inr inside ↦
      let lt : i < length (buffer_of e w.selector) = ground arith in
      let run : seek e w (pos i) Target.offset ≡ recount e (record w { offset = pos i }) =
        ground (arith, verify_offset_lem e w i p) in
      inl (
        lt,
        rw run (
            recount-MovedTo e (record w { offset = pos i }) i
              (record { area = p.area; stored = p.stored }) lt refl),
      )
]

-- The position of the first reading with an id, and that there is none.
abbrev pub IsFirst : ℕ → List IoTileReading → ℕ → Type 0
IsFirst id [] i = ⊥
IsFirst id (r ∷ l) zero = r.reading_id ≡ id
IsFirst id (r ∷ l) (suc i) = (r.reading_id ≢ id) × IsFirst id l i

abbrev pub NoneHas : ℕ → List IoTileReading → Type 0
NoneHas id [] = Unit
NoneHas id (r ∷ l) = (r.reading_id ≢ id) × NoneHas id l

scan_id :
    (id : ℕ) (l : List IoTileReading) (i n : ℕ)
    → ((j : ℕ) × IsFirst id l j
        × ((scan_from (id_searcher (pos id)) l i n none).1 ≡ some (i + j))
        × (j < length l))
      ⊎ (NoneHas id l × ((scan_from (id_searcher (pos id)) l i n none).1 ≡ none))
unfolding scan_from
scan_id id [] i n = inr (tt, refl)
scan_id id (r ∷ l) i n = elim (Bool-cases (r.reading_id == id)) [
  | inl hit ↦ inl (0, ground arith, ground arith, ground arith)
  | inr miss ↦ elim (scan_id id l (i + 1) (n + 1)) [
    | inl (j, first, scanned, lt) ↦ inl (suc j, ground arith, ground arith, ground arith)
    | inr (absent, scanned) ↦ inr (ground arith, ground arith)
  ]
]

scan_placed :
    (e : Engine) (w : BufferedStreamWalker) (call : ℕ → IoTileReading → Option ℕ → Bool × Option ℕ)
    → IsPlaced w
    → scan_storage e w.storage_type call none
      ≡ ok (scan_from call (buffer_of e w.selector) 0 0 none)
unfolding scan_storage
scan_placed e w call p = ground arith

find_id_lem :
    (e : Engine) (w : BufferedStreamWalker) (id : ℕ)
    → IsPlaced w
    → ((j : ℕ) × IsFirst id (buffer_of e w.selector) j
        × (find_id e w (pos id) ≡ ok j)
        × (j < length (buffer_of e w.selector)))
      ⊎ (NoneHas id (buffer_of e w.selector)
          × (find_id e w (pos id) ≡ err Error.unresolved_identifier_error))
unfolding find_id
find_id_lem e w id p = elim (scan_id id (buffer_of e w.selector) 0 0) [
  | inl (j, first, scanned, lt) ↦
      inl (j, first, ground (arith, scan_placed e w (id_searcher (pos id)) p, scanned), lt)
  | inr (absent, scanned) ↦
      inr (absent, ground (arith, scan_placed e w (id_searcher (pos id)) p, scanned))
]

-- `seek` to a reading id: it moves to the first reading of the area with that id, and if there is none
-- it raises `UnresolvedIdentifierError` and changes nothing.
pub seek_id :
    (e : Engine) (w : BufferedStreamWalker) (id : ℕ)
    → IsPlaced w
    → ((i : ℕ) × IsFirst id (buffer_of e w.selector) i
        × MovedTo e w i (seek e w (pos id) Target.id))
      ⊎ (NoneHas id (buffer_of e w.selector)
          × (seek e w (pos id) Target.id ≡ (err Error.unresolved_identifier_error, w)))
unfolding seek
seek_id e w id p = elim (find_id_lem e w id p) [
  | inl (i, first, found, lt) ↦
      let run : seek e w (pos id) Target.id ≡ recount e (record w { offset = pos i }) =
        ground (arith, found) in
      inl (
        i,
        first,
        rw run (
            recount-MovedTo e (record w { offset = pos i }) i
              (record { area = p.area; stored = p.stored }) lt refl),
      )
  | inr (absent, fails) ↦ inr (absent, ground (arith, fails))
]
