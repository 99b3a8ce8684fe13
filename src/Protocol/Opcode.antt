-- ===== src/Protocol/Opcode.antt =====
-- components/dspi/protocol.h: the opcodes, input sources and volume limits.
use esphome_dspi.Prelude.{ℕ}

pub data Opcode : Type 0 where
  rta_set_config rta_get_config rta_get_caps rta_get_bands rta_get_status rta_control : Opcode
  set_bypass get_bypass set_loudness get_loudness set_crossfeed get_crossfeed : Opcode
  get_adat_input_enable get_adat_input_pin get_platform : Opcode
  preset_load preset_get_name preset_get_dir preset_get_active : Opcode
  set_leveller_enable get_leveller_enable : Opcode
  set_master_volume get_master_volume set_user_volume get_user_volume : Opcode
  set_user_mute get_user_mute set_input_source get_input_source : Opcode
  get_input_rate get_spdif_input_config get_uart_config get_ctrl_iface_status : Opcode

abbrev pub opcode : Opcode → ℕ
opcode Opcode.rta_set_config = 0x08
opcode Opcode.rta_get_config = 0x09
opcode Opcode.rta_get_caps = 0x0A
opcode Opcode.rta_get_bands = 0x0B
opcode Opcode.rta_get_status = 0x0D
opcode Opcode.rta_control = 0x0E
opcode Opcode.set_bypass = 0x46
opcode Opcode.get_bypass = 0x47
opcode Opcode.set_loudness = 0x58
opcode Opcode.get_loudness = 0x59
opcode Opcode.set_crossfeed = 0x5E
opcode Opcode.get_crossfeed = 0x5F
opcode Opcode.get_adat_input_enable = 0x69
opcode Opcode.get_adat_input_pin = 0x6B
opcode Opcode.get_platform = 0x7F
opcode Opcode.preset_load = 0x91
opcode Opcode.preset_get_name = 0x93
opcode Opcode.preset_get_dir = 0x95
opcode Opcode.preset_get_active = 0x9A
opcode Opcode.set_leveller_enable = 0xB4
opcode Opcode.get_leveller_enable = 0xB5
opcode Opcode.set_master_volume = 0xD2
opcode Opcode.get_master_volume = 0xD3
opcode Opcode.set_user_volume = 0xDA
opcode Opcode.get_user_volume = 0xDB
opcode Opcode.set_user_mute = 0xDC
opcode Opcode.get_user_mute = 0xDD
opcode Opcode.set_input_source = 0xE0
opcode Opcode.get_input_source = 0xE1
opcode Opcode.get_input_rate = 0xEE
opcode Opcode.get_spdif_input_config = 0xEF
opcode Opcode.get_uart_config = 0xF6
opcode Opcode.get_ctrl_iface_status = 0xF9

pub data InputSource : Type 0 where
  usb spdif i2s adat spdif2 spdif3 spdif4 : InputSource

abbrev pub source_byte : InputSource → ℕ
source_byte InputSource.usb = 0
source_byte InputSource.spdif = 1
source_byte InputSource.i2s = 2
source_byte InputSource.adat = 3
source_byte InputSource.spdif2 = 4
source_byte InputSource.spdif3 = 5
source_byte InputSource.spdif4 = 6

abbrev pub input_source_count : ℕ
input_source_count = 7

abbrev pub spdif_rx_num_inputs : ℕ
spdif_rx_num_inputs = 4
