-- ===== src/Hub/Readback.antt =====
-- dspi.cpp: readback of the values that the hub publishes.
pub mod Boot
pub mod Toggles
pub mod Rejected
use esphome_dspi.Prelude.{ℕ, ◌-◌, bit_and, bit_or, u16, ltb, ◌==◌, not, truthy, Bool, true, false}
use esphome_dspi.Prelude.{◌&&◌, ◌||◌, if◌then◌else◌, Option, none, some, List}
use esphome_dspi.Protocol.Wire.{byte_at, CtrlStatus, status_byte}
use esphome_dspi.Protocol.Preset.{rd_u32, parse_input_rate}
use esphome_dspi.Protocol.Toggle.{ToggleTarget, toggle_bit}
use esphome_dspi.Hub.State.{DspiHub}
use esphome_dspi.Hub.Requests.{publish_state}
use esphome_dspi.Hub.Control.{set_input_source}

-- `memcpy(&db, data, 4)` on a little-endian processor.
unfoldable pub on_master_volume : DspiHub → List ℕ → ℕ → DspiHub
unfolding publish_state rd_u32
on_master_volume h bytes len =
    if ltb len 4
    then h
    else publish_state (record h {
      state = record (h.state) { master_volume_db = rd_u32 bytes 0; master_volume_valid = true };
    })

unfoldable pub on_user_volume : DspiHub → List ℕ → ℕ → DspiHub
unfolding publish_state rd_u32
on_user_volume h bytes len =
    if ltb len 4
    then h
    else publish_state (record h {
      state = record (h.state) { user_volume_db = rd_u32 bytes 0; user_volume_valid = true };
    })

-- `~bit` on uint16_t.
abbrev pub complement16 : ℕ → ℕ
complement16 bit = 0xFFFF - bit

unfoldable pub store_toggle : DspiHub → ToggleTarget → List ℕ → ℕ → DspiHub
unfolding publish_state
store_toggle h target bytes len =
    let bit = toggle_bit target in
    let values = h.state.toggle_values in
    if ltb len 1
    then h
    else publish_state (record h {
      state = record (h.state) {
        toggle_values =
            if truthy (byte_at bytes 0)
            then bit_or values bit
            else bit_and values (complement16 bit);
        toggle_valid_mask = bit_or h.state.toggle_valid_mask bit;
      };
    })

unfoldable pub mark_toggle_unsupported : DspiHub → ToggleTarget → ℕ → DspiHub
mark_toggle_unsupported h target status =
    let bit = toggle_bit target in
    let mask = h.toggles.toggle_unsupported in
    if status == status_byte CtrlStatus.link_failed
    then h
    else if truthy (bit_and mask bit)
    then h
    else record h { toggles = record (h.toggles) { toggle_unsupported = bit_or mask bit } }

-- Claim the boot input source, once.
claim_source : DspiHub → DspiHub
unfolding set_input_source
claim_source h =
    if h.config.has_boot_input_source && not h.device.boot_source_checked
    then (let h' = record h { device = record (h.device) { boot_source_checked = true } } in
        if not (h'.state.input_source == h'.config.boot_input_source)
        then set_input_source h' h'.config.boot_input_source
        else h')
    else h

unfoldable pub on_input_source : DspiHub → List ℕ → ℕ → DspiHub
unfolding publish_state claim_source
on_input_source h bytes len =
    if ltb len 1
    then h
    else claim_source (
        publish_state (record h {
          state = record (h.state) { input_source = byte_at bytes 0; input_source_valid = true };
        }))

unfoldable pub on_input_rate : DspiHub → List ℕ → ℕ → DspiHub
unfolding publish_state
on_input_rate h bytes len = elim (parse_input_rate bytes len) [
  | none ↦ h
  | some rate ↦ publish_state (record h {
    state = record (h.state) { pipeline_rate_hz = rate.freq; pipeline_rate_valid = true };
  })
]
