-- ===== src/Protocol/Toggle.antt =====
-- components/dspi/protocol.h: the boolean DSP parameters.
pub mod Count
pub mod Wanted
use Prim.Native.String.{String}
use esphome_dspi.Prelude.{ℕ, zero, suc, ◌+◌, ◌-◌, ◌^◌, bit_and, u8, u16, truthy}
use esphome_dspi.Prelude.{if◌then◌else◌, ◌==◌}
use esphome_dspi.Protocol.Opcode.{Opcode, opcode}

pub data ToggleTarget : Type 0 where
  user_mute loudness eq_bypass crossfeed leveller : ToggleTarget

abbrev pub toggle_count : ℕ
toggle_count = 5

-- `static_cast<uint8_t>(t)`.
abbrev pub toggle_index : ToggleTarget → ℕ
toggle_index ToggleTarget.user_mute = 0
toggle_index ToggleTarget.loudness = 1
toggle_index ToggleTarget.eq_bypass = 2
toggle_index ToggleTarget.crossfeed = 3
toggle_index ToggleTarget.leveller = 4

abbrev pub toggle_set_opcode : ToggleTarget → ℕ
toggle_set_opcode ToggleTarget.user_mute = opcode Opcode.set_user_mute
toggle_set_opcode ToggleTarget.loudness = opcode Opcode.set_loudness
toggle_set_opcode ToggleTarget.eq_bypass = opcode Opcode.set_bypass
toggle_set_opcode ToggleTarget.crossfeed = opcode Opcode.set_crossfeed
toggle_set_opcode ToggleTarget.leveller = opcode Opcode.set_leveller_enable

abbrev pub toggle_get_opcode : ToggleTarget → ℕ
toggle_get_opcode ToggleTarget.user_mute = opcode Opcode.get_user_mute
toggle_get_opcode ToggleTarget.loudness = opcode Opcode.get_loudness
toggle_get_opcode ToggleTarget.eq_bypass = opcode Opcode.get_bypass
toggle_get_opcode ToggleTarget.crossfeed = opcode Opcode.get_crossfeed
toggle_get_opcode ToggleTarget.leveller = opcode Opcode.get_leveller_enable

unfoldable pub toggle_name : ToggleTarget → String
toggle_name ToggleTarget.user_mute = "user_mute"
toggle_name ToggleTarget.loudness = "loudness"
toggle_name ToggleTarget.eq_bypass = "eq_bypass"
toggle_name ToggleTarget.crossfeed = "crossfeed"
toggle_name ToggleTarget.leveller = "leveller"

abbrev pub toggle_bit : ToggleTarget → ℕ
toggle_bit t = u16 (2 ^ toggle_index t)

-- The loop clears the lowest bit in each round, so sixteen rounds serve a uint16_t.
mask_count_loop : ℕ → ℕ → ℕ → ℕ
mask_count_loop zero mask n = n
mask_count_loop (suc fuel) mask n =
    let rest = mask_count_loop fuel (u16 (bit_and mask (mask - 1))) (u8 (n + 1)) in
    if mask == 0 then n else rest

unfoldable pub toggle_mask_count : ℕ → ℕ
unfolding mask_count_loop
toggle_mask_count mask = mask_count_loop 16 mask 0
