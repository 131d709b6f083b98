-- ===== src/Streamer/Descriptor/RoundTrip.antt =====
-- A streamer is read back from its packed descriptor.
use coretools.Prelude.{
  ℕ, ◌+◌, ◌*◌, ◌/◌, ◌%◌, ◌<◌, ◌≡◌, refl, Bool, false, ◌<<◌, bit_and, bit_or, Option, none, some,
  List, [], ◌∷◌, ◌++◌, length, length-append, bit_or-shift, bit_and-mask, bit_and-shift, ◌>>◌, ◌-◌,
  inl, inr, Option-cases, arith,
}
use coretools.Errors.{ok}
use coretools.Selector
use coretools.Selector.{DataStreamSelector}
use coretools.Selector.Encoding
use coretools.Slot
use coretools.Slot.{SlotIdentifier}
use coretools.Slot.Descriptor.{NamesTile, slot_from_encoded-encode}
use coretools.Streamer.{DataStreamer, ReportFormat, ReportType, init}
use coretools.Streamer.Descriptor.{
  format_code, known_format, type_code, known_type, trigger_from, parse_fields,
  parse_binary_descriptor, trigger_of, pack, create_binary_descriptor,
}

-- An automatic streamer is not triggered with another, and the other's number has seven bits.
abbrev pub IsTrigger : Bool → Option ℕ → Type 0
IsTrigger automatic none = Unit
IsTrigger automatic (some k) = (automatic ≡ false) × (k < 128)

abbrev pub IsDescribable : DataStreamer → Type 0
IsDescribable s =
    NamesTile s.dest × Encoding.IsPackable s.selector × IsTrigger s.automatic s.with_other

known_format-format_code : (f : ReportFormat) → known_format (format_code f) ≡ some f
known_format-format_code ReportFormat.individual = refl
known_format-format_code ReportFormat.hashedlist = refl
known_format-format_code ReportFormat.signedlist_userkey = refl
known_format-format_code ReportFormat.signedlist_devicekey = refl

known_type-type_code : (t : ReportType) → known_type (type_code t) ≡ some t
known_type-type_code ReportType.broadcast = refl
known_type-type_code ReportType.telegram = refl
known_type-type_code ReportType.synchronous = refl

-- The number of the other streamer and the flag above it.
trigger_of_other :
    (k : ℕ)
    → k < 128
    → let t = bit_or (1 << 7) k in
      (t < 256) × (bit_and t (1 << 7) ≡ 128) × (bit_and t ((1 << 7) - 1) ≡ k)
trigger_of_other k h =
    let t = bit_or (1 << 7) k in
    let sum = bit_or-shift 7 1 k h in
    (
      omega (arith, sum),
      omega (arith, sum, bit_and-shift 7 t 1, bit_and-mask 1 (t >> 7)),
      omega (arith, sum, bit_and-mask 7 t),
    )

trigger_from-trigger_of :
    (s : DataStreamer)
    → IsTrigger s.automatic s.with_other
    → (trigger_of s < 256) × (trigger_from (trigger_of s) ≡ ok (s.automatic, s.with_other))
unfolding trigger_of trigger_from
trigger_from-trigger_of s h = elim (Option-cases s.with_other) [
  | inl e ↦ ground (arith, e, h)
  | inr (k, e) ↦ ground (arith, e, h, trigger_of_other k)
]

encode_lt : (s : DataStreamSelector) → Encoding.IsPackable s → Selector.encode s < 65536
encode_lt s p = ground (arith, Encoding.encode_as_sum s (p.0) (p.1))

parse_bytes :
    (b : List ℕ) (dest : SlotIdentifier) (low high trigger format type pad : ℕ)
    → Slot.from_encoded b ≡ ok dest
    → parse_binary_descriptor (b ++ (low ∷ high ∷ trigger ∷ format ∷ type ∷ pad ∷ []))
      ≡ parse_fields b (low + high * 256) trigger format type
unfolding Slot.from_encoded parse_binary_descriptor
parse_bytes (_ ∷ _ ∷ _ ∷ _ ∷ _ ∷ _ ∷ _ ∷ _ ∷ []) dest low high trigger format type pad h = refl
parse_bytes _ dest low high trigger format type pad h = absurd cc

slot_length : (b : List ℕ) (dest : SlotIdentifier) → Slot.from_encoded b ≡ ok dest → length b ≡ 8
unfolding Slot.from_encoded
slot_length (_ ∷ _ ∷ _ ∷ _ ∷ _ ∷ _ ∷ _ ∷ _ ∷ []) dest h = refl
slot_length _ dest h = absurd cc

parse_fields-codes :
    (s : DataStreamer) (b : List ℕ)
    → IsDescribable s
    → Slot.from_encoded b ≡ ok s.dest
    → parse_fields b
        (Selector.encode s.selector)
        (trigger_of s)
        (format_code s.format)
        (type_code s.report_type)
      ≡ ok (record s { walker = none; index = none })
unfolding parse_fields init
parse_fields-codes s b (_, packable, trigger) h =
    rw
      (
        h,
        Encoding.selector_from_encoded-encode s.selector packable,
        known_format-format_code s.format,
        known_type-type_code s.report_type,
        (trigger_from-trigger_of s trigger).1,
      )
      refl

-- A streamer whose destination names a tile, whose selector can be packed and which is triggered by
-- hand, by itself or with a streamer with a number below 128 has a descriptor of 14 bytes, which is
-- read back as that streamer without its walker and its index.
pub parse-create_binary_descriptor :
    (s : DataStreamer)
    → IsDescribable s
    → (b : List ℕ) × (create_binary_descriptor s ≡ ok b)
      × (length b ≡ 14)
      × (parse_binary_descriptor b ≡ ok (record s { walker = none; index = none }))
unfolding create_binary_descriptor pack
parse-create_binary_descriptor s d =
    let (b, encoded, decoded) = slot_from_encoded-encode s.dest (d.0) in
    let e = Selector.encode s.selector in
    let small = encode_lt s.selector (d.1) in
    let (fits, _) = trigger_from-trigger_of s (d.2) in
    let joined : e % 256 + e / 256 * 256 ≡ e = omega arith in
    let f = format_code s.format in
    let t = type_code s.report_type in
    (
      b ++ (e % 256 ∷ e / 256 ∷ trigger_of s ∷ f ∷ t ∷ 0 ∷ []),
      ground (arith, encoded, small, fits),
      omega (
        arith,
        length-append b (e % 256 ∷ e / 256 ∷ trigger_of s ∷ f ∷ t ∷ 0 ∷ []),
        slot_length b s.dest decoded,
      ),
      rw (parse_bytes b s.dest (e % 256) (e / 256) (trigger_of s) f t 0 decoded, joined)
          (parse_fields-codes s b d decoded),
    )
