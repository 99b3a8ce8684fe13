-- ===== src/Hub/Probe/Selectable.antt =====
-- dspi.cpp: which sources the answer about the S/PDIF inputs makes selectable.
use esphome_dspi.Prelude.{
  ℕ, zero, suc, ◌/◌, ◌^◌, ◌≤◌, ◌≡◌, ◌⊎◌, sym, subst, arith, bit_and, bit_or, truthy, List, Bool,
  true, ◌&&◌, ltb, if◌then◌else◌, inl, inr,
}
use esphome_dspi.Prelude.Bits.{bit_and_step, bit_and-zero}
use esphome_dspi.Protocol.Wire.{byte_at}
use esphome_dspi.Protocol.Opcode.{InputSource, source_byte}
use esphome_dspi.Hub.State.{DspiHub}
use esphome_dspi.Hub.Probe.{spdif_loop, usb_and_i2s, on_spdif_input_config}
use esphome_dspi.Hub.Sources.{log_selectable_sources}

adat_kept : (old : ℕ) → (bit_and old 8 ≡ 0) ⊎ (bit_and old 8 ≡ 8)
adat_kept old =
    let s0 = bit_and_step old 8 in
    let s1 = bit_and_step (old / 2) 4 in
    let s2 = bit_and_step (old / 2 / 2) 2 in
    let s3 = bit_and_step (old / 2 / 2 / 2) 1 in
    let z = bit_and-zero (old / 2 / 2 / 2 / 2) in ground (arith, s0, s1, s2, s3, z)

-- Whether a mask names a source.
abbrev pub names_source : ℕ → InputSource → Bool
names_source mask source = truthy (bit_and mask (2 ^ source_byte source))

-- Whether input `i` is among the reported ones, and enabled.
abbrev pub is_enabled : ℕ → ℕ → ℕ → Bool
is_enabled count enable_mask i = ltb i count && truthy (bit_and enable_mask (2 ^ i))

-- USB and I2S always, the S/PDIF inputs that are enabled, and ADAT as it was.
abbrev pub Selects : ℕ → ℕ → ℕ → ℕ → Type 0
Selects mask count e adat =
    (names_source mask InputSource.usb ≡ true)
    × (names_source mask InputSource.i2s ≡ true)
    × (names_source mask InputSource.spdif ≡ is_enabled count e 0)
    × (names_source mask InputSource.spdif2 ≡ is_enabled count e 1)
    × (names_source mask InputSource.spdif3 ≡ is_enabled count e 2)
    × (names_source mask InputSource.spdif4 ≡ is_enabled count e 3)
    × (names_source mask InputSource.adat ≡ truthy adat)

abbrev Collected : ℕ → ℕ → ℕ → Type 0
Collected count e adat = Selects (bit_or (spdif_loop count 0 e usb_and_i2s) adat) count e adat

collected : (count e adat : ℕ) → count ≤ 4 → (adat ≡ 0) ⊎ (adat ≡ 8) → Collected count e adat
unfolding spdif_loop
collected zero e adat l (inl a) = ground arith
collected zero e adat l (inr a) = ground arith
collected (suc zero) e adat l (inl a) = ground arith
collected (suc zero) e adat l (inr a) = ground arith
collected (suc (suc zero)) e adat l (inl a) = ground arith
collected (suc (suc zero)) e adat l (inr a) = ground arith
collected (suc (suc (suc zero))) e adat l (inl a) = ground arith
collected (suc (suc (suc zero))) e adat l (inr a) = ground arith
collected (suc (suc (suc (suc zero)))) e adat l (inl a) = ground arith
collected (suc (suc (suc (suc zero)))) e adat l (inr a) = ground arith
collected (suc (suc (suc (suc (suc n))))) e adat l a = absurd (omega arith)

-- As many inputs as the answer reports, four at most.
abbrev pub reported_inputs : List ℕ → ℕ
reported_inputs bytes = if ltb (byte_at bytes 0) 4 then byte_at bytes 0 else 4

spdif_state :
    (h : DspiHub) (bytes : List ℕ) (len : ℕ)
    → 2 ≤ len
    → let s = (on_spdif_input_config h bytes len).state in
      (s.selectable_valid ≡ true)
      × (s.selectable_mask
          ≡ bit_or
              (spdif_loop (reported_inputs bytes) 0 (byte_at bytes 1) usb_and_i2s)
              (bit_and h.state.selectable_mask 8))
unfolding on_spdif_input_config log_selectable_sources
spdif_state h bytes len l = ground arith

-- An answer about the S/PDIF inputs of at least two bytes makes the set of selectable sources valid,
-- and it then holds USB and I2S, exactly those of the reported S/PDIF inputs, four at most, that
-- the answer says are enabled, and ADAT exactly if it was in the set before.
pub on_spdif_input_config-Selects :
    (h : DspiHub) (bytes : List ℕ) (len : ℕ)
    → 2 ≤ len
    → let s = (on_spdif_input_config h bytes len).state in
      (s.selectable_valid ≡ true)
      × Selects s.selectable_mask
          (reported_inputs bytes)
          (byte_at bytes 1)
          (bit_and h.state.selectable_mask (2 ^ source_byte InputSource.adat))
on_spdif_input_config-Selects h bytes len l =
    let few : reported_inputs bytes ≤ 4 = ground arith in
    let e = byte_at bytes 1 in
    let old = bit_and h.state.selectable_mask 8 in
    let (valid, mask) = spdif_state h bytes len l in
    let c = collected (reported_inputs bytes) e old few (adat_kept h.state.selectable_mask) in
    (valid, subst (λ m. Selects m (reported_inputs bytes) e old) (sym mask) c)
