-- ===== src/Stream/Encoding.antt =====
-- The packed form of a `DataStream`, and the streams that important system inputs are copied to.
use coretools.Prelude.{
  ℕ, ◌+◌, ◌*◌, ◌/◌, ◌%◌, ◌^◌, ◌<◌, ◌≡◌, ap, ◌∙◌, ◌↔◌, Bool, true, false, bit_and, bit_or, ◌<<◌,
  ◌>>◌, ◌==◌, not, arith, bit_or-shift, bit_and-shift, bit_and-mask,
}
use coretools.Stream.{DataStream, from_encoded, encode, eq, int_of_bool}

-- The fields fit their bits.
pub record IsPackable (s : DataStream) : Type 0 where
  pub type_fits : s.stream_type < 16
  pub id_fits : s.stream_id < 2048

-- `x & (1 << k)` in terms of the bit at `k`.
bit_and_bit : (k x : ℕ) → bit_and x (1 << k) ≡ (x >> k) % 2 << k
bit_and_bit k x = rw (bit_and-shift k x 1, bit_and-mask 1 (x >> k))

int_of_bool-lt : (b : Bool) → int_of_bool b < 2
int_of_bool-lt true = omega arith
int_of_bool-lt false = omega arith

pub encode_as_sum :
    (s : DataStream)
    → s.stream_id < 2048
    → encode s ≡ s.stream_type * 4096 + int_of_bool s.system * 2048 + s.stream_id
unfolding encode
encode_as_sum s h =
    let b = int_of_bool s.system in
    let low : b < 2 = int_of_bool-lt s.system in
    let packed : (s.stream_type << 12) + (b << 11) ≡ (s.stream_type * 2 + b) << 11 = omega arith in
    omega (
      arith,
      ap (λ (t : ℕ). bit_or t s.stream_id)
          (bit_or-shift 12 s.stream_type (b << 11) (omega arith) ∙ packed),
      bit_or-shift 11 (s.stream_type * 2 + b) s.stream_id h,
    )

pub from_encoded_fields :
    (e : ℕ)
    → from_encoded e ≡ record {
      stream_type = e / 4096 % 16;
      stream_id = e % 2048;
      system = not (e / 2048 % 2 == 0);
    }
unfolding from_encoded
from_encoded_fields e =
    ground (arith, bit_and-mask 4 (e >> 12), bit_and-mask 11 e, bit_and_bit 11 e)

-- A stream whose fields fit is read back from its packed form.
pub from_encoded-encode : (s : DataStream) → IsPackable s → from_encoded (encode s) ≡ s
from_encoded-encode s p = ground (arith, from_encoded_fields (encode s), encode_as_sum s p.id_fits)

-- Every 16-bit number is the packed form of the stream that it is read as, and that stream's
-- fields fit.
pub encode-from_encoded :
    (e : ℕ) → e < 2 ^ 16 → (encode (from_encoded e) ≡ e) × IsPackable (from_encoded e)
encode-from_encoded e h = ground (arith, from_encoded_fields e, encode_as_sum (from_encoded e))

pub eq_iff : (s t : DataStream) → (eq s t ≡ true) ↔ (s ≡ t)
unfolding eq
eq_iff s t = ground arith
