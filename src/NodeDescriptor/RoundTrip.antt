-- ===== src/NodeDescriptor/RoundTrip.antt =====
-- A node is read back from its packed descriptor.
use coretools.Prelude.{ℕ, ◌<◌, ◌≡◌, refl, Option, none, some, List, [], ◌∷◌, length, arith}
use coretools.Errors.{Result, ok}
use coretools.Stream
use coretools.Stream.{DataStream}
use coretools.Stream.Encoding as StreamEncoding
use coretools.Selector
use coretools.Selector.{DataStreamSelector}
use coretools.Selector.Encoding
use coretools.Node.{Trigger, TriggerCombiner}
use coretools.NodeDescriptor.{
  Description, Processor, func_code, process_binary_trigger, pack_node, combiner_code,
  create_binary_descriptor, second_input, parse_fields, parse_binary_descriptor,
}
use coretools.NodeDescriptor.Triggers.{
  IsPackable, trigger_bytes, long_bytes, short_bytes, func_name-func_code,
  combiner_from-combiner_code,
}

-- The selector can be packed, and its type is one of the six that the language has.
abbrev pub IsInput : DataStreamSelector × Trigger → Type 0
IsInput (selector, trigger) =
    Encoding.IsPackable selector × (selector.match_type < 6) × IsPackable trigger

abbrev IsSecond : Option (TriggerCombiner × (DataStreamSelector × Trigger)) → Type 0
IsSecond none = Unit
IsSecond (some (_, input)) = IsInput input

abbrev pub IsDescribable : Description → Type 0
IsDescribable d = StreamEncoding.IsPackable d.stream × IsInput d.input_a × IsSecond d.input_b

-- The code of a selector is not the one that stands for no input.
selector_code :
    (s : DataStreamSelector) → Encoding.IsPackable s → s.match_type < 6 → Selector.encode s < 0xFFFF
selector_code s p known = ground (arith, Encoding.encode_as_sum s (p.0) (p.1), known)

stream_code : (s : DataStream) → StreamEncoding.IsPackable s → Stream.encode s < 65536
stream_code s p = ground (arith, StreamEncoding.encode_as_sum s p.id_fits, p.type_fits)

-- A packed node has 20 bytes, from which its numbers are read back.
pack_node_bytes :
    (stream : DataStream) (combiner : TriggerCombiner) (a b : ℕ) (t u : Trigger) (p : Processor)
    → Stream.encode stream < 65536
    → a < 65536
    → b < 65536
    → IsPackable t
    → IsPackable u
    → (bytes : List ℕ) × (pack_node stream combiner a t b u p ≡ ok bytes)
      × (length bytes ≡ 20)
      × ((ref_a : ℕ) × (ref_b : ℕ) × (cond_a : ℕ) × (cond_b : ℕ) × (parse_binary_descriptor bytes
            ≡ parse_fields ref_a ref_b
                (Stream.encode stream)
                a
                b
                (func_code p)
                cond_a
                cond_b
                (combiner_code combiner))
          × (process_binary_trigger ref_a cond_a ≡ ok t)
          × (process_binary_trigger ref_b cond_b ≡ ok u))
unfolding pack_node parse_binary_descriptor
pack_node_bytes stream combiner a b t u p hs ha hb ht hu =
    let (cond_a, ref_a, ct, rt, nt, pt) = trigger_bytes t ht in
    let (cond_b, ref_b, cu, ru, nu, pu) = trigger_bytes u hu in
    let (a1, a2, a3, a4, la, ea) = long_bytes ref_a nt in
    let (b1, b2, b3, b4, lb, eb) = long_bytes ref_b nu in
    let (s1, s2, ls, es) = short_bytes (Stream.encode stream) hs in
    let (i1, i2, li, ei) = short_bytes a ha in
    let (j1, j2, lj, ej) = short_bytes b hb in
    (
      a1
          ∷ a2
          ∷ a3
          ∷ a4
          ∷ b1
          ∷ b2
          ∷ b3
          ∷ b4
          ∷ s1
          ∷ s2
          ∷ i1
          ∷ i2
          ∷ j1
          ∷ j2
          ∷ func_code p
          ∷ cond_a
          ∷ cond_b
          ∷ combiner_code combiner
          ∷ 0
          ∷ 0
          ∷ [],
      rw (ct, cu, rt, ru, la, lb, ls, li, lj) refl,
      refl,
      (ref_a, ref_b, cond_a, cond_b, rw (ea, eb, es, ei, ej) refl, pt, pu),
    )

second_input-some :
    (b_id b_trig b_cond : ℕ) (s : DataStreamSelector) (u : Trigger)
    → b_id < 0xFFFF
    → Selector.from_encoded b_id ≡ ok s
    → process_binary_trigger b_trig b_cond ≡ ok u
    → second_input b_id b_trig b_cond ≡ ok (some (s, u))
unfolding second_input
second_input-some b_id b_trig b_cond s u h es eu = ground (arith, es, eu)

-- What `create_binary_descriptor` is given for a node.
abbrev pub created : Description → Result (List ℕ)
created d = elim d.input_b [
  | none ↦
      create_binary_descriptor d.stream TriggerCombiner.and_combiner
        ((d.input_a.0, some d.input_a.1) ∷ []) (some d.processor)
  | some (comb, b) ↦
      create_binary_descriptor d.stream comb
        ((d.input_a.0, some d.input_a.1) ∷ (b.0, some b.1) ∷ []) (some d.processor)
]

read_back :
    (stream : DataStream) (a : DataStreamSelector) (t : Trigger) (p : Processor)
    (b : Option (TriggerCombiner × (DataStreamSelector × Trigger)))
    → let d : Description = record {
      stream = stream;
      input_a = (a, t);
      input_b = b;
      processor = p;
    } in
      IsDescribable d
      → (bytes : List ℕ) × (created d ≡ ok bytes)
        × (length bytes ≡ 20)
        × (parse_binary_descriptor bytes ≡ ok d)
unfolding create_binary_descriptor parse_fields second_input
read_back stream a t p none (hs, (pa, ka, ta), _) =
    let (bytes, packed, size, (ref_a, ref_b, cond_a, cond_b, parsed, et, eu)) =
      pack_node_bytes stream TriggerCombiner.and_combiner (Selector.encode a) 0xFFFF t
        Trigger.true_trigger p (stream_code stream hs) (omega (arith, selector_code a pa ka))
        (omega arith) ta tt in
    (
      bytes,
      packed,
      size,
      ground (
        arith,
        parsed,
        et,
        selector_code a pa ka,
        Encoding.selector_from_encoded-encode a pa,
        func_name-func_code p,
        StreamEncoding.from_encoded-encode stream hs,
      ),
    )
read_back stream a t p (some (comb, (b, u))) (hs, (pa, ka, ta), (pb, kb, ub)) =
    let (bytes, packed, size, (ref_a, ref_b, cond_a, cond_b, parsed, et, eu)) =
      pack_node_bytes stream comb (Selector.encode a) (Selector.encode b) t u p
        (stream_code stream hs) (omega (arith, selector_code a pa ka))
        (omega (arith, selector_code b pb kb)) ta ub in
    let second =
      second_input-some (Selector.encode b) ref_b cond_b b u (selector_code b pb kb)
        (Encoding.selector_from_encoded-encode b pb) eu in
    (
      bytes,
      packed,
      size,
      ground (
        arith,
        parsed,
        et,
        second,
        selector_code a pa ka,
        Encoding.selector_from_encoded-encode a pa,
        func_name-func_code p,
        combiner_from-combiner_code comb,
        StreamEncoding.from_encoded-encode stream hs,
      ),
    )

-- A node whose stream and selectors can be packed, with selectors of the language's types and triggers
-- that always trigger or compare with an unsigned 32-bit number, has a descriptor of 20 bytes. The
-- descriptor is read back as the node, with its combiner if it has two inputs.
pub parse-create_node_descriptor :
    (d : Description)
    → IsDescribable d
    → (b : List ℕ) × (created d ≡ ok b) × (length b ≡ 20) × (parse_binary_descriptor b ≡ ok d)
parse-create_node_descriptor d h =
    read_back d.stream d.input_a.0 d.input_a.1 d.processor d.input_b h
