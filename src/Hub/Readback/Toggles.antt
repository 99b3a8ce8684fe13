-- ===== src/Hub/Readback/Toggles.antt =====
-- dspi.cpp: one target's bit among those of the others.
use esphome_dspi.Prelude.{
  ℕ, zero, suc, ◌/◌, ◌%◌, ◌≤◌, ◌^◌, bit_and, bit_or, List, Bool, true, false, truthy, ◌≡◌, arith,
  if◌then◌else◌, ◌==◌, ltb,
}
use esphome_dspi.Prelude.Bits.{bit, bit-lt, bit-bit_or, bit-bit_and, bit_and_step, bit_and-zero}
use esphome_dspi.Protocol.Wire.{byte_at}
use esphome_dspi.Protocol.Toggle.{ToggleTarget, toggle_bit, toggle_index}
use esphome_dspi.Hub.State.{DspiHub, toggle, toggle_valid}
use esphome_dspi.Hub.Readback.{store_toggle, complement16}
use native.Mathlib.Nat.{pow-suc}

truthy-bit : (k m : ℕ) → truthy (bit_and m (2 ^ k)) ≡ (bit m k == 1)
truthy-bit zero m =
    let s = bit_and_step m 1 in
    let z : bit_and (m / 2) (1 / 2) ≡ 0 = bit_and-zero (m / 2) in ground (arith, s, z)
truthy-bit (suc k) m =
    let p = pow-suc 2 k in
    let h : 2 ^ suc k / 2 ≡ 2 ^ k = omega (arith, p) in
    let o : 2 ^ suc k % 2 ≡ 0 = omega (arith, p) in
    let s = rw (h, o) at (bit_and_step m (2 ^ suc k)) in
    let ih = truthy-bit k (m / 2) in ground (arith, s, ih)

abbrev pub same_target : ToggleTarget → ToggleTarget → Bool
same_target t u = toggle_index t == toggle_index u

bit-toggle_bit :
    (t u : ToggleTarget) → bit (toggle_bit t) (toggle_index u) ≡ (if same_target t u then 1 else 0)
bit-toggle_bit t u = ground arith

bit-complement16 :
    (t u : ToggleTarget)
    → bit (complement16 (toggle_bit t)) (toggle_index u) ≡ (if same_target t u then 0 else 1)
bit-complement16 t u = ground arith

toggle_bit-power : (t : ToggleTarget) → toggle_bit t ≡ 2 ^ toggle_index t
toggle_bit-power t = ground arith

pub reads_bit :
    (m : ℕ) (u : ToggleTarget) → truthy (bit_and m (toggle_bit u)) ≡ (bit m (toggle_index u) == 1)
reads_bit m u = rw (toggle_bit-power u) (truthy-bit (toggle_index u) m)

pub or-toggle_bit :
    (m : ℕ) (t u : ToggleTarget)
    → truthy (bit_and (bit_or m (toggle_bit t)) (toggle_bit u))
      ≡ (if same_target t u then true else truthy (bit_and m (toggle_bit u)))
or-toggle_bit m t u =
    let i = toggle_index u in
    rw (reads_bit (bit_or m (toggle_bit t)) u, reads_bit m u)
      (ground (arith, bit-bit_or m (toggle_bit t) i, bit-toggle_bit t u, bit-lt m i))

pub and-complement16 :
    (m : ℕ) (t u : ToggleTarget)
    → truthy (bit_and (bit_and m (complement16 (toggle_bit t))) (toggle_bit u))
      ≡ (if same_target t u then false else truthy (bit_and m (toggle_bit u)))
and-complement16 m t u =
    let i = toggle_index u in
    rw (reads_bit (bit_and m (complement16 (toggle_bit t))) u, reads_bit m u)
      (ground
        (arith, bit-bit_and m (complement16 (toggle_bit t)) i, bit-complement16 t u, bit-lt m i))

-- An answer of at least one byte sets the value and the valid flag of its own target, and leaves
-- those of every other target as they were.
pub store_toggle-toggle :
    (h : DspiHub) (t u : ToggleTarget) (b : List ℕ) (n : ℕ)
    → 1 ≤ n
    → let s' = (store_toggle h t b n).state in
      (toggle s' u ≡ (if same_target t u then truthy (byte_at b 0) else toggle h.state u))
      × (toggle_valid s' u ≡ (if same_target t u then true else toggle_valid h.state u))
unfolding store_toggle toggle toggle_valid
store_toggle-toggle h t u b n l =
    let short : ltb n 1 ≡ false = ground arith in
    let o = or-toggle_bit h.state.toggle_values t u in
    let a = and-complement16 h.state.toggle_values t u in
    let v = or-toggle_bit h.state.toggle_valid_mask t u in ground (arith, o, a, v)
