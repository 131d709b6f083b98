-- ===== src/Prelude/Words.antt =====
-- Shifts and masks as arithmetic, at every width. The native bit operations recur on digits under a
-- bound; more than the number itself makes no difference, which gives a step for one digit.
use Prim.Native.Nat.{
  ℕ, zero, suc, ◌+◌, ◌-◌, ◌*◌, ◌/◌, ◌%◌, ◌^◌, ◌≤◌, ◌<◌, min, max, bit_and, bit_or, digits, bitwise,
  bit_and-bitwise, bit_or-bitwise,
}
use mathlib.Core.Path.{◌≡◌, refl, sym, ap, ◌∙◌}
use native.Mathlib.Nat.{pow-suc, pow-succ', one-le-pow, le_refl, div-div-eq-div-mul, div-add-mod}
use native.Mathlib.Omega.{arith}

infixl 60 ◌<<◌ ◌>>◌
abbrev pub ◌<<◌ : ℕ → ℕ → ℕ
x << k = x * 2 ^ k

abbrev pub ◌>>◌ : ℕ → ℕ → ℕ
x >> k = x / 2 ^ k

module _ (rest : ℕ → ℕ) (digit : ℕ → ℕ → ℕ) where
  one_more :
      (fuel x y : ℕ) → x ≤ fuel → digits rest digit (suc fuel) x y ≡ digits rest digit fuel x y
  one_more zero (suc x) y h = absurd (omega arith)
  one_more zero zero y h = refl
  one_more (suc fuel) zero y h = refl
  one_more (suc fuel) (suc x) y h =
      ap (λ t. t * 2 + digit (suc x % 2) (y % 2)) (one_more fuel (suc x / 2) (y / 2) (omega arith))

  any_more : (k x y : ℕ) → digits rest digit (k + x) x y ≡ bitwise rest digit x y
  any_more zero x y = ap (λ t. digits rest digit t x y) (omega arith)
  any_more (suc k) x y =
      let next : suc k + x ≡ suc (k + x) = omega arith in
      ap (λ t. digits rest digit t x y) next ∙ one_more (k + x) x y (omega arith) ∙ any_more k x y

  lowest :
      (x y : ℕ)
      → bitwise rest digit (suc x) y
        ≡ bitwise rest digit (suc x / 2) (y / 2) * 2 + digit (suc x % 2) (y % 2)
  lowest x y =
      let enough : x ≡ x - suc x / 2 + suc x / 2 = omega arith in
      ap (λ t. t * 2 + digit (suc x % 2) (y % 2))
        (ap (λ t. digits rest digit t (suc x / 2) (y / 2)) enough
          ∙ any_more (x - suc x / 2) (suc x / 2) (y / 2))

-- The lowest digit of `&` and of `|`.
pub bit_and_step : (x y : ℕ) → bit_and x y ≡ bit_and (x / 2) (y / 2) * 2 + min (x % 2) (y % 2)
bit_and_step (suc x) y = simp bit_and-bitwise (lowest (λ _. 0) min x y)
bit_and_step zero y = simp bit_and-bitwise (omega arith)

pub bit_or_step : (x y : ℕ) → bit_or x y ≡ bit_or (x / 2) (y / 2) * 2 + max (x % 2) (y % 2)
bit_or_step (suc x) y = simp bit_or-bitwise (lowest (λ n. n) max x y)
bit_or_step zero y = simp bit_or-bitwise (omega arith)

bit_and-zero_below : (n a : ℕ) → a ≤ n → bit_and a 0 ≡ 0
bit_and-zero_below n zero h = refl
bit_and-zero_below zero (suc a) h = absurd (omega arith)
bit_and-zero_below (suc n) (suc a) h =
    omega (arith, bit_and_step (suc a) 0, bit_and-zero_below n (suc a / 2) (omega arith))

pub bit_and-zero : (a : ℕ) → bit_and a 0 ≡ 0
bit_and-zero a = bit_and-zero_below a a (le_refl a)

bit_or-zero_below : (n a : ℕ) → a ≤ n → bit_or a 0 ≡ a
bit_or-zero_below n zero h = refl
bit_or-zero_below zero (suc a) h = absurd (omega arith)
bit_or-zero_below (suc n) (suc a) h =
    omega (arith, bit_or_step (suc a) 0, bit_or-zero_below n (suc a / 2) (omega arith))

pub bit_or-zero : (a : ℕ) → bit_or a 0 ≡ a
bit_or-zero a = bit_or-zero_below a a (le_refl a)

shift-suc : (a k : ℕ) → a << suc k ≡ 2 * (a << k)
shift-suc a k = omega (arith, ap (λ (t : ℕ). a * t) (pow-suc 2 k))

shift_right-suc : (a k : ℕ) → a >> suc k ≡ a / 2 >> k
shift_right-suc a k = rw pow-succ' (sym (div-div-eq-div-mul a 2 (2 ^ k)))

mod-suc : (a k : ℕ) → a % 2 ^ suc k ≡ a / 2 % 2 ^ k * 2 + a % 2
mod-suc a k = omega (
  arith,
  div-add-mod a (2 ^ suc k),
  ap (λ (t : ℕ). 2 ^ suc k * t) (shift_right-suc a k),
  div-add-mod (a / 2) (2 ^ k),
  ap (λ (t : ℕ). t * (a / 2 >> k)) (pow-suc 2 k),
)

-- `(a << k) | b` is a sum where `b` fits in `k` bits.
pub bit_or-shift : (k a b : ℕ) → b < 2 ^ k → bit_or (a << k) b ≡ (a << k) + b
bit_or-shift zero a zero h = rw bit_or-zero (omega arith)
bit_or-shift zero a (suc b) h = absurd (omega arith)
bit_or-shift (suc k) a b h = omega (
  arith,
  shift-suc a k,
  pow-suc 2 k,
  bit_or_step (a << suc k) b,
  ap (λ (t : ℕ). bit_or t (b / 2)) halved,
  bit_or-shift k a (b / 2) (omega (arith, pow-suc 2 k)),
)
  where
    halved : (a << suc k) / 2 ≡ a << k
    halved = omega (arith, shift-suc a k)

-- `a & (m << k)` keeps the bits of `m` above the lowest `k`.
pub bit_and-shift : (k a m : ℕ) → bit_and a (m << k) ≡ bit_and (a >> k) m << k
bit_and-shift zero a m =
    let one : m << 0 ≡ m = omega arith in
    let all : a >> 0 ≡ a = omega arith in
    omega (arith, ap (λ (t : ℕ). bit_and a t) one, ap (λ (t : ℕ). bit_and t m) all)
bit_and-shift (suc k) a m =
    let halved : (m << suc k) / 2 ≡ m << k = omega (arith, shift-suc m k) in
    let even : (m << suc k) % 2 ≡ 0 = omega (arith, shift-suc m k) in
    omega (
      arith,
      bit_and_step a (m << suc k),
      ap (λ (t : ℕ). bit_and (a / 2) t) halved,
      bit_and-shift k (a / 2) m,
      ap (λ (t : ℕ). bit_and t m << suc k) (shift_right-suc a k),
      shift-suc (bit_and (a / 2 >> k) m) k,
      even,
    )

-- `a & (2^k - 1)` is the remainder by `2^k`.
pub bit_and-mask : (k a : ℕ) → bit_and a (2 ^ k - 1) ≡ a % 2 ^ k
bit_and-mask zero a = omega (arith, bit_and-zero a)
bit_and-mask (suc k) a =
    let halved : (2 ^ suc k - 1) / 2 ≡ 2 ^ k - 1 = omega (arith, pow-suc 2 k) in
    let odd : (2 ^ suc k - 1) % 2 ≡ 1 = omega (arith, pow-suc 2 k, one-le-pow k 2) in
    omega (
      arith,
      bit_and_step a (2 ^ suc k - 1),
      ap (λ (t : ℕ). bit_and (a / 2) t) halved,
      bit_and-mask k (a / 2),
      odd,
      mod-suc a k,
    )
