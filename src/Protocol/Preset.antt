-- ===== src/Protocol/Preset.antt =====
-- components/dspi/protocol.h: presets, their directory and names, and the input rate.
use Prim.Native.String.{String}
use esphome_dspi.Prelude.{ℕ, zero, suc, ◌+◌, ◌*◌, ◌^◌, bit_and, bit_or, u8, u16, u32, ltb, ◌==◌}
use esphome_dspi.Prelude.{truthy, Bool, ◌&&◌, if◌then◌else◌, Option, none, some, List}
use esphome_dspi.Protocol.Wire.{byte_at}

abbrev pub preset_slots : ℕ
preset_slots = 10

abbrev pub preset_name_len : ℕ
preset_name_len = 32

pub data PresetStatus : Type 0 where
  ok err_invalid_slot err_slot_empty err_crc err_flash_write : PresetStatus

abbrev pub preset_status_byte : PresetStatus → ℕ
preset_status_byte PresetStatus.ok = 0x00
preset_status_byte PresetStatus.err_invalid_slot = 0x01
preset_status_byte PresetStatus.err_slot_empty = 0x02
preset_status_byte PresetStatus.err_crc = 0x03
preset_status_byte PresetStatus.err_flash_write = 0x04

unfoldable pub preset_status_to_string : ℕ → String
preset_status_to_string status =
    if status == preset_status_byte PresetStatus.ok
    then "OK"
    else if status == preset_status_byte PresetStatus.err_invalid_slot
    then "INVALID_SLOT"
    else if status == preset_status_byte PresetStatus.err_slot_empty
    then "SLOT_EMPTY"
    else if status == preset_status_byte PresetStatus.err_crc
    then "CRC"
    else if status == preset_status_byte PresetStatus.err_flash_write
    then "FLASH_WRITE"
    else "UNKNOWN"

pub record PresetDirectory : Type 0 where
  pub slot_occupied : ℕ
  pub startup_mode : ℕ
  pub default_slot : ℕ
  pub last_active_slot : ℕ
  pub output_config_mode : ℕ
  pub master_volume_mode : ℕ

unfoldable pub is_occupied : PresetDirectory → ℕ → Bool
is_occupied dir slot = ltb slot preset_slots && truthy (bit_and dir.slot_occupied (2 ^ slot))

abbrev pub preset_dir_len : ℕ
preset_dir_len = 7

unfoldable pub parse_preset_directory : List ℕ → ℕ → Option PresetDirectory
parse_preset_directory bytes len =
    if ltb len preset_dir_len
    then none
    else some (record {
      slot_occupied = u16 (bit_or (byte_at bytes 0) (byte_at bytes 1 * 2 ^ 8));
      startup_mode = byte_at bytes 2;
      default_slot = byte_at bytes 3;
      last_active_slot = byte_at bytes 4;
      output_config_mode = byte_at bytes 5;
      master_volume_mode = byte_at bytes 6;
    })

pub record InputRate : Type 0 where
  pub freq : ℕ
  pub i2s_input_rate : ℕ

abbrev pub input_rate_len : ℕ
input_rate_len = 8

-- Four bytes from `off` on, lowest first.
unfoldable pub rd_u32 : List ℕ → ℕ → ℕ
rd_u32 bytes off =
    bit_or
      (bit_or (bit_or (byte_at bytes off) (u32 (byte_at bytes (off + 1) * 2 ^ 8)))
        (u32 (byte_at bytes (off + 2) * 2 ^ 16)))
      (u32 (byte_at bytes (off + 3) * 2 ^ 24))

unfoldable pub parse_input_rate : List ℕ → ℕ → Option InputRate
unfolding rd_u32
parse_input_rate bytes len =
    if ltb len input_rate_len
    then none
    else some (record { freq = rd_u32 bytes 0; i2s_input_rate = rd_u32 bytes 4 })

-- The loop at `n`, with `left` rounds to the limit.
name_length_loop : ℕ → List ℕ → ℕ → ℕ
name_length_loop zero bytes n = n
name_length_loop (suc left) bytes n =
    let rest = name_length_loop left bytes (n + 1) in if byte_at bytes n == 0 then n else rest

unfoldable pub preset_name_length : List ℕ → ℕ → ℕ
unfolding name_length_loop
preset_name_length bytes len =
    u8 (name_length_loop (if ltb len preset_name_len then len else preset_name_len) bytes 0)
