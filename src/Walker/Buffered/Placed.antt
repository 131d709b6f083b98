-- ===== src/Walker/Buffered/Placed.antt =====
-- The steps that place a buffered walker or add to its queue: `__init__`, `skip_all`, `notify_added`.
use coretools.Prelude.{
  ℕ, ◌+◌, ◌≤◌, ◌≡◌, ◌≢◌, refl, sym, ◌∙◌, pos, Bool, true, false, Bool-cases, length, arith, inl,
  inr, List, [], ◌∷◌, ◌++◌, drop, filter_by, filter_by-append, length-filter_by, length-append,
  drop-append, drop_of_length-le, count_if, if◌then◌else◌,
}
use coretools.Errors.{ok}
use coretools.Stream
use coretools.Selector
use coretools.Selector.{DataStreamSelector}
use coretools.Reading.{IoTileReading}
use coretools.Engine
use coretools.Engine.{Engine, Area, chosen_buffer, with_buffer, range_size, count_matching}
use coretools.Engine.Buffers.{area_of, reads, buffer_of, buffer_of-push, count_matching_lem}
use coretools.Walker.Buffered.{BufferedStreamWalker, matches, init, placed, skip_all, notify_added}
use coretools.Walker.Buffered.Queue.{InSync}

-- A walker at an offset in range is in sync with the readings from there on, if it counts these.
pub settled :
    (e : Engine) (w : BufferedStreamWalker) (i : ℕ)
    → w.offset ≡ pos i
    → w.storage_type ≡ area_of (Selector.output w.selector)
    → Selector.buffered w.selector ≡ true
    → i ≤ length (buffer_of e w.selector)
    → w.count ≡ count_if (reads w.selector) (drop i (buffer_of e w.selector))
    → InSync e w (filter_by (reads w.selector) (drop i (buffer_of e w.selector)))
settled e w i off area st within n = record {
  at = i;
  offset = off;
  area = area;
  stored = st;
  within = within;
  pending = refl;
  counted = n ∙ sym (length-filter_by (reads w.selector) (drop i (buffer_of e w.selector)));
}

-- At the end of its area a walker with count 0 is in sync with the empty queue.
settled_at_end :
    (e : Engine) (w : BufferedStreamWalker)
    → w.offset ≡ pos (length (buffer_of e w.selector))
    → w.storage_type ≡ area_of (Selector.output w.selector)
    → Selector.buffered w.selector ≡ true
    → w.count ≡ 0
    → InSync e w []
settled_at_end e w off area st n =
    let stop =
      drop_of_length-le (length (buffer_of e w.selector)) (buffer_of e w.selector) (omega arith) in
    let at_end =
      settled e w (length (buffer_of e w.selector)) off area st (omega arith) (rw stop n) in
    rw stop at at_end

placed_fields :
    (selector : DataStreamSelector) (e : Engine) (skip : Bool) (n : ℕ)
    → let w = placed selector e skip n in
      (w.selector ≡ selector)
      × (w.count ≡ n)
      × (w.offset ≡ (if skip then pos (length (buffer_of e selector)) else pos 0))
      × (w.storage_type ≡ area_of (Selector.output selector))
unfolding Engine.count
placed_fields selector e skip n = ground arith

-- A new walker holds nothing, or all that is stored for it if it does not skip.
pub init-InSync :
    (selector : DataStreamSelector) (e : Engine) (skip : Bool)
    → Selector.buffered selector ≡ true
    → (w : BufferedStreamWalker) × (init selector e skip ≡ ok w)
      × InSync e w (if skip then [] else filter_by (reads selector) (buffer_of e selector))
      × (w.selector ≡ selector)
unfolding init Engine.count
init-InSync selector e true b =
    let w = placed selector e true 0 in
    let (sel, n, off, area) = placed_fields selector e true 0 in
    (w, refl, settled_at_end e w (rw sel off) (rw sel area) (rw sel b) n, sel)
init-InSync selector e false b =
    let n = count_if (reads selector) (buffer_of e selector) in
    let w = placed selector e false n in
    let (sel, c, off, area) = placed_fields selector e false n in
    (
      w,
      ground (arith, count_matching_lem e selector 0 b (omega arith)),
      rw sel at (settled e w 0 off (rw sel area) (rw sel b) (omega arith) (rw sel c)),
      sel,
    )

-- `skip_all` empties the queue.
pub skip_all-InSync :
    (e : Engine) (w : BufferedStreamWalker) {before : Engine} {q : List IoTileReading}
    → InSync before w q
    → InSync e (skip_all e w) []
unfolding skip_all Engine.count
skip_all-InSync e w s = settled_at_end e (skip_all e w) (ground arith) s.area s.stored refl

-- Readings behind the end of the walker's area join the queue as far as they match.
grown-InSync :
    (e e' : Engine) (w : BufferedStreamWalker) (q l : List IoTileReading) (n : ℕ)
    → InSync e w q
    → buffer_of e' w.selector ≡ buffer_of e w.selector ++ l
    → n ≡ w.count + count_if (reads w.selector) l
    → InSync e' (record w { count = n }) (q ++ filter_by (reads w.selector) l)
grown-InSync e e' w q l n s grown h =
    let p = reads w.selector in
    let old = buffer_of e w.selector in
    record {
      at = s.at;
      offset = s.offset;
      area = s.area;
      stored = s.stored;
      within = rw grown (omega (arith, length-append old l, s.within));
      pending =
          rw (
            grown,
            drop-append s.at old l s.within,
            filter_by-append p (drop s.at old) l,
            s.pending,
          );
      counted = omega (arith, length-append q (filter_by p l), length-filter_by p l, h, s.counted);
    }

-- A reading that is stored in the walker's area joins the queue's end if the walker's selector
-- matches its stream.
pub notify_added-InSync :
    (e : Engine) (w : BufferedStreamWalker) (q : List IoTileReading) (r : IoTileReading)
    {e' : Engine}
    → InSync e w q
    → Engine.push e r ≡ ok e'
    → Stream.output (Stream.from_encoded r.stream) ≡ Selector.output w.selector
    → InSync e'
        (notify_added w (Stream.from_encoded r.stream))
        (q ++ filter_by (reads w.selector) (r ∷ []))
unfolding notify_added matches
notify_added-InSync e w q r {e'} s p together =
    let grown : buffer_of e' w.selector ≡ buffer_of e w.selector ++ (r ∷ []) =
      ground (arith, buffer_of-push e r w.selector p) in
    elim (Bool-cases (reads w.selector r)) [
      | inl hit ↦ rw hit (grown-InSync e e' w q (r ∷ []) (w.count + 1) s grown (ground arith))
      | inr miss ↦ rw miss (grown-InSync e e' w q (r ∷ []) w.count s grown (ground arith))
    ]

-- A reading that is stored in the other area leaves the walker in sync as it is.
pub push_elsewhere-InSync :
    (e : Engine) (w : BufferedStreamWalker) (q : List IoTileReading) (r : IoTileReading)
    {e' : Engine}
    → InSync e w q
    → Engine.push e r ≡ ok e'
    → Stream.output (Stream.from_encoded r.stream) ≢ Selector.output w.selector
    → InSync e' w q
push_elsewhere-InSync e w q r {e'} s p other =
    let kept : buffer_of e' w.selector ≡ buffer_of e w.selector =
      ground (arith, buffer_of-push e r w.selector p) in
    record {
      at = s.at;
      offset = s.offset;
      area = s.area;
      stored = s.stored;
      within = rw kept s.within;
      pending = rw kept s.pending;
      counted = s.counted;
    }
