-- ===== src/Protocol/Toggle/Count.antt =====
-- `toggle_mask_count` against a count of the sixteen bits.
use esphome_dspi.Prelude.{ℕ, zero, suc, ◌+◌, ◌-◌, ◌*◌, ◌/◌, ◌%◌, ◌^◌, ◌<◌, ◌≤◌, ◌≡◌, refl, arith}
use esphome_dspi.Prelude.{bit_and, ◌==◌, inl, inr, Bool-cases}
use esphome_dspi.Prelude.Bits.{bit_and_step, bit_and_self}
use esphome_dspi.Protocol.Toggle.{toggle_mask_count, mask_count_loop}
use native.Mathlib.Nat.{pow-suc}

-- The number of set bits among the lowest `k`.
abbrev pub popcount : ℕ → ℕ → ℕ
popcount zero mask = 0
popcount (suc k) mask = mask % 2 + popcount k (mask / 2)

popcount-le : (k mask : ℕ) → popcount k mask ≤ k
popcount-le zero mask = omega arith
popcount-le (suc k) mask = omega (arith, popcount-le k (mask / 2))

popcount-zero : (k : ℕ) → popcount k 0 ≡ 0
popcount-zero zero = refl
popcount-zero (suc k) = omega (arith, popcount-zero k)

-- `mask & (mask - 1)` of an odd and of an even mask, by its half.
clear_odd : (m : ℕ) → m % 2 ≡ 1 → bit_and m (m - 1) ≡ m / 2 * 2
clear_odd m odd =
    let e : (m - 1) / 2 ≡ m / 2 = omega arith in
    let s = bit_and_step m (m - 1) in
    let s' : bit_and m (m - 1) ≡ bit_and (m / 2) (m / 2) * 2 + 0 = ground (arith, s) in
    omega (arith, bit_and_self (m / 2))

clear_even : (m : ℕ) → 0 < m → m % 2 ≡ 0 → bit_and m (m - 1) ≡ bit_and (m / 2) (m / 2 - 1) * 2
clear_even m pos even =
    let e : (m - 1) / 2 ≡ m / 2 - 1 = omega arith in
    let s = bit_and_step m (m - 1) in ground (arith, s)

-- The round clears one bit, and no more.
clear_lowest :
    (k m : ℕ)
    → 0 < m
    → m < 2 ^ k
    → (popcount k (bit_and m (m - 1)) + 1 ≡ popcount k m) × (bit_and m (m - 1) < 2 ^ k)
clear_lowest zero m pos h = absurd (omega arith)
clear_lowest (suc k) m pos h = elim (Bool-cases (m % 2 == 1)) [
  | inl odd ↦
      let odd' : m % 2 ≡ 1 = ground arith in
      let e = clear_odd m odd' in
      let f : m / 2 * 2 / 2 ≡ m / 2 = omega arith in rw e (rw f (omega arith), omega arith)
  | inr even ↦
      let even' : m % 2 ≡ 0 = ground arith in
      let e = clear_even m pos even' in
      let p = pow-suc 2 k in
      let c = bit_and (m / 2) (m / 2 - 1) in
      let ih = clear_lowest k (m / 2) (ground arith) (omega arith) in
      let f : c * 2 / 2 ≡ c = omega arith in rw e (rw f (ground (arith, ih)), omega (arith, ih))
]

mask_count_loop_lem :
    (fuel mask n : ℕ)
    → mask < 65536
    → popcount 16 mask ≤ fuel
    → n + fuel < 256
    → mask_count_loop fuel mask n ≡ n + popcount 16 mask
unfolding mask_count_loop
mask_count_loop_lem zero mask n h enough small = omega arith
mask_count_loop_lem (suc fuel) mask n h enough small = elim (Bool-cases (mask == 0)) [
  | inl done ↦ let e : mask ≡ 0 = ground arith in rw done (rw e (omega (arith, popcount-zero 16)))
  | inr more ↦
      let c = bit_and mask (mask - 1) in
      let low = clear_lowest 16 mask (ground arith) h in
      let fits : c % 65536 ≡ c = omega arith in
      let next : (n + 1) % 256 ≡ n + 1 = omega arith in
      let ih = mask_count_loop_lem fuel c (n + 1) low.1 (omega arith) (omega arith) in
      rw more (rw (fits, next) (omega arith))
]

-- On every uint16_t the loop ends within its sixteen rounds and returns the number of set bits.
pub toggle_mask_count-popcount :
    (mask : ℕ) → mask < 65536 → toggle_mask_count mask ≡ popcount 16 mask
unfolding toggle_mask_count
toggle_mask_count-popcount mask h =
    omega (arith, mask_count_loop_lem 16 mask 0 h (popcount-le 16 mask) (omega arith))
