-- ===== src/Selector/Encoding.antt =====
-- The packed form of a selector.
use coretools.Prelude.{
  ℕ, ◌+◌, ◌*◌, ◌/◌, ◌%◌, ◌^◌, ◌<◌, ◌≡◌, ◌≢◌, all_below, all_below→, refl, Bool, true, bit_and,
  bit_or, ◌<<◌, ◌>>◌, ◌==◌, ==_iff, arith, bit_or-shift, bit_and-shift, bit_and-mask, bit_and_step,
  bit_and-zero, Option, none, some, if◌then◌else◌,
}
use coretools.Errors.{ok}
use coretools.Selector.{
  DataStreamSelector, MatchSpec, from_encoded, encode, spec_encoding, match_all_code,
}

-- The number in the id field.
abbrev id_field : Option ℕ → ℕ
id_field none = match_all_code
id_field (some id) = id

-- The two bits of a specifier, as numbers.
abbrev high_bit : MatchSpec → ℕ
high_bit MatchSpec.system_only = 0
high_bit MatchSpec.user_only = 0
high_bit MatchSpec.user_and_breaks = 1
high_bit MatchSpec.combined = 1

abbrev low_bit : MatchSpec → ℕ
low_bit MatchSpec.system_only = 1
low_bit MatchSpec.user_only = 0
low_bit MatchSpec.user_and_breaks = 0
low_bit MatchSpec.combined = 1

abbrev spec_of_bits : ℕ → ℕ → MatchSpec
spec_of_bits high low =
    if high == 0
    then (if low == 0 then MatchSpec.user_only else MatchSpec.system_only)
    else (if low == 0 then MatchSpec.user_and_breaks else MatchSpec.combined)

-- The fields fit their bits, and the id is not the code of a wildcard.
abbrev pub IsPackable : DataStreamSelector → Type 0
IsPackable s =
    (s.match_type < 8) × (id_field s.match_id < 2048) × (s.match_id ≢ some match_all_code)

bit_and_17 : (x : ℕ) → bit_and x 17 ≡ x % 2 + x / 16 % 2 * 16
bit_and_17 x = omega (
  arith,
  bit_and_step x 17,
  bit_and_step (x / 2) 8,
  bit_and_step (x / 2 / 2) 4,
  bit_and_step (x / 2 / 2 / 2) 2,
  bit_and_step (x / 2 / 2 / 2 / 2) 1,
  bit_and-zero (x / 2 / 2 / 2 / 2 / 2),
)

-- The specifier's bits lie on either side of the three type bits.
abbrev spec_table : MatchSpec → Bool
spec_table spec = all_below 8 λ t.
    bit_or (t << 12) (spec_encoding spec) == high_bit spec * 32768 + t * 4096 + low_bit spec * 2048

spec_table_passes : (spec : MatchSpec) → spec_table spec ≡ true
unfolding all_below
spec_table_passes MatchSpec.system_only = refl
spec_table_passes MatchSpec.combined = refl
spec_table_passes MatchSpec.user_only = refl
spec_table_passes MatchSpec.user_and_breaks = refl

packed_spec :
    (t : ℕ) (spec : MatchSpec)
    → t < 8
    → bit_or (t << 12) (spec_encoding spec) ≡ high_bit spec * 32768 + t * 4096 + low_bit spec * 2048
packed_spec t spec h = (==_iff _ _).0 (all_below→ 8 _ t (spec_table_passes spec) h)

pub encode_as_sum :
    (s : DataStreamSelector)
    → s.match_type < 8
    → id_field s.match_id < 2048
    → encode s
      ≡ high_bit s.match_spec * 32768
        + s.match_type * 4096
        + low_bit s.match_spec * 2048
        + id_field s.match_id
unfolding encode
encode_as_sum s ht hi =
    let top = high_bit s.match_spec * 16 + s.match_type * 2 + low_bit s.match_spec in
    let e = packed_spec s.match_type s.match_spec ht in
    let shifted : high_bit s.match_spec * 32768 + s.match_type * 4096 + low_bit s.match_spec * 2048
        ≡ top << 11 =
      omega arith in
    ground (arith, e, shifted, bit_or-shift 11 top (id_field s.match_id) hi)

abbrev selector_at : ℕ → DataStreamSelector
selector_at e = record {
  match_type = e / 4096 % 8;
  match_id = if e % 2048 == match_all_code then none else some (e % 2048);
  match_spec = spec_of_bits (e / 32768 % 2) (e / 2048 % 2);
}

pub from_encoded_fields : (e : ℕ) → from_encoded e ≡ ok (selector_at e)
unfolding from_encoded
from_encoded_fields e = ground (
  arith,
  bit_and-shift 12 e 7,
  bit_and-mask 3 (e >> 12),
  bit_and-mask 11 e,
  bit_and-shift 11 e 17,
  bit_and_17 (e >> 11),
)

-- A packable selector is read back from its packed form.
pub selector_from_encoded-encode :
    (s : DataStreamSelector) → IsPackable s → from_encoded (encode s) ≡ ok s
selector_from_encoded-encode s p =
    ground (arith, from_encoded_fields (encode s), encode_as_sum s p.0 p.1)

-- Every 16-bit number is read as a selector, and that selector packs to the number again.
pub selector_encode-from_encoded :
    (e : ℕ) → e < 2 ^ 16 → (s : DataStreamSelector) × (from_encoded e ≡ ok s) × (encode s ≡ e)
selector_encode-from_encoded e h =
    let s : DataStreamSelector = selector_at e in
    (s, from_encoded_fields e, ground (arith, encode_as_sum s))
