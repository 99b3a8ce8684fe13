-- ===== src/Prelude/Bits.antt =====
-- The bitwise operators on native numbers, digit by digit.
use Prim.Native.Nat.{ℕ, zero, suc, ◌+◌, ◌*◌, ◌/◌, ◌%◌, ◌^◌, ◌≤◌, ◌<◌, min, max, digits, bitwise}
use Prim.Native.Nat.{bit_and, bit_or, bit_xor, bit_and-bitwise, bit_or-bitwise, bit_xor-bitwise}
use Prim.Native.Nat.{differ}
use native.Mathlib.Nat.{le_refl, pow-suc}
use mathlib.Core.Path.{◌≡◌, refl, ap, sym, ◌∙◌}
use native.Mathlib.Omega.{arith}

-- What `digits` computes does not depend on the fuel, once the fuel covers the first number.
module _ (over : ℕ → ℕ) (on : ℕ → ℕ → ℕ) where
  exhausted : (fuel y : ℕ) → digits over on fuel 0 y ≡ digits over on 0 0 y
  exhausted zero y = refl
  exhausted (suc fuel) y = refl

  spare :
      (fuel more x y : ℕ) → x ≤ fuel → x ≤ more → digits over on fuel x y ≡ digits over on more x y
  spare fuel more zero y h k = exhausted fuel y ∙ sym (exhausted more y)
  spare zero more (suc x) y h k = absurd (omega arith)
  spare (suc fuel) zero (suc x) y h k = absurd (omega arith)
  spare (suc fuel) (suc more) (suc x) y h k =
      ap (λ (t : ℕ). t * 2 + on (suc x % 2) (y % 2))
        (spare fuel more (suc x / 2) (y / 2) (omega arith) (omega arith))

  peel :
      (x y : ℕ)
      → bitwise over on (suc x) y ≡ bitwise over on (suc x / 2) (y / 2) * 2 + on (suc x % 2) (y % 2)
  peel x y =
      ap (λ (t : ℕ). t * 2 + on (suc x % 2) (y % 2))
        (spare x (suc x / 2) (suc x / 2) (y / 2) (omega arith) (le_refl _))

-- The lowest binary digit of a disjunction, and the rest of it.
pub bit_or_step : (x y : ℕ) → bit_or x y ≡ bit_or (x / 2) (y / 2) * 2 + max (x % 2) (y % 2)
bit_or_step (suc x) y = simp bit_or-bitwise (peel (λ t. t) max x y)
bit_or_step zero y = simp bit_or-bitwise (omega arith)

-- The same of a conjunction.
pub bit_and_step : (x y : ℕ) → bit_and x y ≡ bit_and (x / 2) (y / 2) * 2 + min (x % 2) (y % 2)
bit_and_step (suc x) y = simp bit_and-bitwise (peel (λ _. 0) min x y)
bit_and_step zero y = simp bit_and-bitwise (omega arith)

differ-zero : (d : ℕ) → d < 2 → differ 0 d ≡ d
differ-zero zero h = refl
differ-zero (suc zero) h = refl
differ-zero (suc (suc d)) h = absurd (omega arith)

pub bit_xor_step : (a b : ℕ) → bit_xor a b ≡ bit_xor (a / 2) (b / 2) * 2 + differ (a % 2) (b % 2)
bit_xor_step zero b = simp bit_xor-bitwise (omega (arith, differ-zero (b % 2) (omega arith)))
bit_xor_step (suc a) b = simp bit_xor-bitwise (peel (λ t. t) differ a b)

-- Binary digit `i`.
abbrev pub bit : ℕ → ℕ → ℕ
bit a zero = a % 2
bit a (suc i) = bit (a / 2) i

pub bit-lt : (a i : ℕ) → bit a i < 2
bit-lt a zero = omega arith
bit-lt a (suc i) = bit-lt (a / 2) i

pub bit-bit_or : (a b i : ℕ) → bit (bit_or a b) i ≡ max (bit a i) (bit b i)
bit-bit_or a b zero = omega (arith, bit_or_step a b)
bit-bit_or a b (suc i) =
    let e : bit_or a b / 2 ≡ bit_or (a / 2) (b / 2) = omega (arith, bit_or_step a b) in
    rw e (bit-bit_or (a / 2) (b / 2) i)

pub bit-bit_and : (a b i : ℕ) → bit (bit_and a b) i ≡ min (bit a i) (bit b i)
bit-bit_and a b zero = omega (arith, bit_and_step a b)
bit-bit_and a b (suc i) =
    let e : bit_and a b / 2 ≡ bit_and (a / 2) (b / 2) = omega (arith, bit_and_step a b) in
    rw e (bit-bit_and (a / 2) (b / 2) i)

none_below : (bound x : ℕ) → x < bound → bit_and x 0 ≡ 0
none_below zero x h = absurd (omega arith)
none_below (suc bound) zero h = refl
none_below (suc bound) (suc x) h =
    let half = none_below bound (suc x / 2) (omega arith) in
    omega (arith, half, bit_and_step (suc x) 0)

pub bit_and-zero : (x : ℕ) → bit_and x 0 ≡ 0
bit_and-zero x = none_below (suc x) x (omega arith)

bit_or-zero_fuel : (n a : ℕ) → a ≤ n → bit_or a 0 ≡ a
bit_or-zero_fuel n zero h = refl
bit_or-zero_fuel zero (suc a) h = absurd (omega arith)
bit_or-zero_fuel (suc n) (suc a) h =
    omega (arith, bit_or_step (suc a) 0, bit_or-zero_fuel n (suc a / 2) (omega arith))

pub bit_or-zero : (a : ℕ) → bit_or a 0 ≡ a
bit_or-zero a = bit_or-zero_fuel a a (omega arith)

-- `low | high << k` is a sum where `low` fits in `k` bits.
pub bit_or-shifted : (k low high : ℕ) → low < 2 ^ k → bit_or low (high * 2 ^ k) ≡ low + high * 2 ^ k
bit_or-shifted zero low high h = let e : low ≡ 0 = omega arith in rw e (zero-or (high * 1))
  where
    zero-or : (b : ℕ) → bit_or 0 b ≡ 0 + b
    zero-or b = simp bit_or-bitwise (omega arith)
bit_or-shifted (suc k) low high h =
    let p : 2 ^ suc k ≡ 2 * 2 ^ k = omega (arith, pow-suc 2 k) in
    let e : high * 2 ^ suc k ≡ 2 * (high * 2 ^ k) = omega (arith, ap (λ (t : ℕ). high * t) p) in
    let ih = bit_or-shifted k (low / 2) high (omega arith) in
    let half : high * 2 ^ suc k / 2 ≡ high * 2 ^ k = omega arith in
    let s = bit_or_step low (high * 2 ^ suc k) in
    let s' : bit_or low (high * 2 ^ suc k)
        ≡ bit_or (low / 2) (high * 2 ^ k) * 2 + max (low % 2) (high * 2 ^ suc k % 2) =
      rw half at s in
    omega arith

-- Two bytes of a little-endian word.
pub bit_or-byte : (low high : ℕ) → low < 256 → bit_or low (high * 256) ≡ low + high * 256
bit_or-byte low high h = bit_or-shifted 8 low high h

-- One more low bit in a mask.
and-mask_at : (a m n : ℕ) → n / 2 ≡ m → n % 2 ≡ 1 → bit_and a n ≡ bit_and (a / 2) m * 2 + a % 2
and-mask_at a m n e odd = rw (← e) (omega (arith, bit_and_step a n))

and-mask_step : (a m : ℕ) → bit_and a (2 * m + 1) ≡ bit_and (a / 2) m * 2 + a % 2
and-mask_step a m = and-mask_at a m (2 * m + 1) (omega arith) (omega arith)

-- `x & 0xFF` is the low byte.
pub bit_and-byte : (a : ℕ) → bit_and a 255 ≡ a % 256
bit_and-byte a = omega (arith, and-mask_step a 127, and_seven_bits (a / 2))
  where
    and_one : (b : ℕ) → bit_and b 1 ≡ b % 2
    and_one b = omega (arith, and-mask_step b 0, bit_and-zero (b / 2))

    and_three_bits : (b : ℕ) → bit_and b 7 ≡ b % 8
    and_three_bits b =
        omega (arith, and-mask_step b 3, and-mask_step (b / 2) 1, and_one (b / 2 / 2))

    and_five_bits : (b : ℕ) → bit_and b 31 ≡ b % 32
    and_five_bits b =
        omega (arith, and-mask_step b 15, and-mask_step (b / 2) 7, and_three_bits (b / 2 / 2))

    and_seven_bits : (b : ℕ) → bit_and b 127 ≡ b % 128
    and_seven_bits b =
        omega (arith, and-mask_step b 63, and-mask_step (b / 2) 31, and_five_bits (b / 2 / 2))

differ-differ : (x y : ℕ) → x < 2 → y < 2 → differ (differ x y) y ≡ x
differ-differ zero zero p q = refl
differ-differ zero (suc zero) p q = refl
differ-differ (suc zero) zero p q = refl
differ-differ (suc zero) (suc zero) p q = refl
differ-differ x (suc (suc y)) p q = absurd (omega arith)
differ-differ (suc (suc x)) y p q = absurd (omega arith)

differ-lt : (x y : ℕ) → x < 2 → y < 2 → differ x y < 2
differ-lt zero zero p q = omega arith
differ-lt zero (suc zero) p q = omega arith
differ-lt (suc zero) zero p q = omega arith
differ-lt (suc zero) (suc zero) p q = omega arith
differ-lt x (suc (suc y)) p q = absurd (omega arith)
differ-lt (suc (suc x)) y p q = absurd (omega arith)

xor_cancel_fuel : (n a b : ℕ) → a ≤ n → b ≤ n → bit_xor (bit_xor a b) b ≡ a
xor_cancel_fuel zero zero zero h k = refl
xor_cancel_fuel zero (suc a) b h k = absurd (omega arith)
xor_cancel_fuel zero a (suc b) h k = absurd (omega arith)
xor_cancel_fuel (suc n) a b h k =
    let x = bit_xor a b in
    let low = differ-lt (a % 2) (b % 2) (omega arith) (omega arith) in
    let s = bit_xor_step a b in
    let high : x / 2 ≡ bit_xor (a / 2) (b / 2) = omega arith in
    let odd : x % 2 ≡ differ (a % 2) (b % 2) = omega arith in
    let t : bit_xor x b
        ≡ bit_xor (bit_xor (a / 2) (b / 2)) (b / 2) * 2 + differ (differ (a % 2) (b % 2)) (b % 2) =
      rw (← high, ← odd) (bit_xor_step x b) in
    omega (
      arith,
      xor_cancel_fuel n (a / 2) (b / 2) (omega arith) (omega arith),
      differ-differ (a % 2) (b % 2) (omega arith) (omega arith),
    )

-- Exclusive or with the same number twice changes nothing.
pub bit_xor-cancel : (a b : ℕ) → bit_xor (bit_xor a b) b ≡ a
bit_xor-cancel a b = xor_cancel_fuel (a + b) a b (omega arith) (omega arith)

-- The result fits where both numbers do.
pub bit_xor-lt : (k a b : ℕ) → a < 2 ^ k → b < 2 ^ k → bit_xor a b < 2 ^ k
bit_xor-lt zero a b h g =
    let e : a ≡ 0 = omega arith in let f : b ≡ 0 = omega arith in rw (e, f) (omega arith)
bit_xor-lt (suc k) a b h g =
    let p : 2 ^ suc k ≡ 2 * 2 ^ k = omega (arith, pow-suc 2 k) in
    omega (
      arith,
      bit_xor_step a b,
      differ-lt (a % 2) (b % 2) (omega arith) (omega arith),
      bit_xor-lt k (a / 2) (b / 2) (omega arith) (omega arith),
    )

-- The same of a disjunction.
pub bit_or-lt : (k a b : ℕ) → a < 2 ^ k → b < 2 ^ k → bit_or a b < 2 ^ k
bit_or-lt zero a b h g =
    let e : a ≡ 0 = omega arith in let f : b ≡ 0 = omega arith in rw (e, f) (omega arith)
bit_or-lt (suc k) a b h g =
    let p : 2 ^ suc k ≡ 2 * 2 ^ k = omega (arith, pow-suc 2 k) in
    omega (arith, bit_or_step a b, bit_or-lt k (a / 2) (b / 2) (omega arith) (omega arith))

differ_comm : (x y : ℕ) → differ x y ≡ differ y x
differ_comm zero zero = refl
differ_comm zero (suc y) = refl
differ_comm (suc x) zero = refl
differ_comm (suc x) (suc y) = differ_comm x y

xor_comm_fuel : (n a b : ℕ) → a ≤ n → b ≤ n → bit_xor a b ≡ bit_xor b a
xor_comm_fuel zero zero zero h k = refl
xor_comm_fuel zero (suc a) b h k = absurd (omega arith)
xor_comm_fuel zero a (suc b) h k = absurd (omega arith)
xor_comm_fuel (suc n) a b h k = omega (
  arith,
  bit_xor_step a b,
  bit_xor_step b a,
  differ_comm (a % 2) (b % 2),
  xor_comm_fuel n (a / 2) (b / 2) (omega arith) (omega arith),
)

pub bit_xor_comm : (a b : ℕ) → bit_xor a b ≡ bit_xor b a
bit_xor_comm a b = xor_comm_fuel (a + b) a b (omega arith) (omega arith)

and-self_fuel : (n a : ℕ) → a ≤ n → bit_and a a ≡ a
and-self_fuel n zero h = refl
and-self_fuel zero (suc a) h = absurd (omega arith)
and-self_fuel (suc n) (suc a) h =
    omega (arith, bit_and_step (suc a) (suc a), and-self_fuel n (suc a / 2) (omega arith))

pub bit_and_self : (a : ℕ) → bit_and a a ≡ a
bit_and_self a = and-self_fuel a a (omega arith)
