-- ===== src/Hub/Probe.antt =====
-- dspi.cpp: the probe that identifies the device.
pub mod Selectable
use esphome_dspi.Prelude.{ℕ, zero, suc, ◌+◌, ◌-◌, ◌/◌, ◌^◌, bit_and, bit_or, u8, ltb, leb}
use esphome_dspi.Prelude.{◌==◌, not, truthy, true, false, ◌&&◌, if◌then◌else◌, List, []}
use esphome_dspi.Protocol.Wire.{byte_at}
use esphome_dspi.Protocol.Opcode.{Opcode, opcode, InputSource, source_byte, spdif_rx_num_inputs}
use esphome_dspi.Protocol.Preset.{preset_dir_len}
use esphome_dspi.Framing.Parser.{reset}
use esphome_dspi.Hub.Transaction.{OnOk, OnFail}
use esphome_dspi.Hub.State.{DspiHub, HubState, Device}
use esphome_dspi.Hub.Requests.{enqueue_get, publish_state, request_refresh}
use esphome_dspi.Hub.Sources.{log_selectable_sources}
use esphome_dspi.Hub.Rta.{reset_rta, set_rta_enabled}

abbrev pub set_hub_state : DspiHub → HubState → DspiHub
set_hub_state h s = record h { link = record (h.link) { hub_state = s } }

unfoldable pub start_probe : DspiHub → DspiHub
unfolding enqueue_get reset
start_probe h =
    let h' = record h {
      link = record (h.link) { hub_state = HubState.probing; last_probe_at = h.clock };
      parser = reset h.parser;
    } in
    set_hub_state
      (enqueue_get h' (opcode Opcode.get_platform) 7 OnOk.on_platform 0 0 OnFail.no_handler)
      HubState.idle

-- The version numbers, at full width where the device sends them.
abbrev read_version : Device → List ℕ → ℕ → Device
read_version d bytes len =
    if leb 6 len
    then record d { fw_minor = byte_at bytes 4; fw_patch = byte_at bytes 5 }
    else if leb 3 len
    then record d { fw_minor = byte_at bytes 2 / 2 ^ 4; fw_patch = bit_and (byte_at bytes 2) 0x0F }
    else d

-- The reads that follow the identification, in their order.
abbrev probe_reads : DspiHub → DspiHub
probe_reads h =
    let h1 =
      enqueue_get h (opcode Opcode.get_uart_config) 8 OnOk.on_uart_config 0 0 OnFail.no_handler in
    let h2 =
      enqueue_get h1 (opcode Opcode.get_ctrl_iface_status) 8 OnOk.on_iface_status 0 0
        OnFail.no_handler in
    let h3 =
      enqueue_get h2 (opcode Opcode.get_spdif_input_config) (2 + spdif_rx_num_inputs)
        OnOk.on_spdif_input_config 0 0 OnFail.no_handler in
    let h4 =
      enqueue_get h3 (opcode Opcode.get_adat_input_enable) 1 OnOk.on_adat_enable 0 0
        OnFail.no_handler in
    let h5 =
      enqueue_get h4 (opcode Opcode.get_adat_input_pin) 1 OnOk.on_adat_pin 0 0 OnFail.no_handler in
    enqueue_get h5 (opcode Opcode.preset_get_dir) preset_dir_len OnOk.on_preset_dir 0 0
      OnFail.no_handler

-- What was learnt from the device before this one.
abbrev forget_device : DspiHub → DspiHub
forget_device h = record h {
  preset = record (h.preset) { confirm_pending = false; name_requested = false };
  state = record (h.state) { active_preset_name_valid = false; toggle_valid_mask = 0 };
  toggles = record (h.toggles) { toggle_unsupported = 0 };
  rta = record (h.rta) { caps_valid = false; centres_have = 0 };
}

abbrev auto_enable : DspiHub → DspiHub
auto_enable h =
    if h.config.rta_configured && (h.config.rta_auto_enable && not h.rta.enabled)
    then set_rta_enabled h true
    else h

unfoldable pub on_platform : DspiHub → List ℕ → ℕ → DspiHub
unfolding enqueue_get reset_rta set_rta_enabled request_refresh
on_platform h bytes len =
    if ltb len 2
    then h
    else let known = record h {
      device =
          read_version
            (record (h.device) { platform_id = byte_at bytes 0; fw_major = byte_at bytes 1 }) bytes
            len;
      link = record (h.link) { identified = true; consecutive_failures = 0 };
    } in
      request_refresh (auto_enable (reset_rta (forget_device (probe_reads known))))

unfoldable pub on_uart_config : DspiHub → List ℕ → ℕ → DspiHub
on_uart_config h bytes len =
    let enabled = not (byte_at bytes 3 == 0) in
    let warned = h.notify.warned_no_notify in
    if ltb len 8 then h else record h {
      notify = record (h.notify) {
        notifications_active = enabled;
        warned_no_notify = if not enabled && not warned then true else warned;
      };
    }

-- The answer is only logged.
unfoldable pub on_iface_status : DspiHub → List ℕ → ℕ → DspiHub
on_iface_status h bytes len = h

abbrev spdif_source : ℕ → ℕ
spdif_source i =
    if i == 0 then source_byte InputSource.spdif else source_byte InputSource.spdif2 + i - 1

-- The loop at input `i`, with `left` inputs to look at.
unfoldable pub spdif_loop : ℕ → ℕ → ℕ → ℕ → ℕ
spdif_loop zero i enable_mask mask = mask
spdif_loop (suc left) i enable_mask mask =
    spdif_loop left (i + 1) enable_mask
      (if truthy (bit_and enable_mask (2 ^ i)) then u8 (bit_or mask (2 ^ spdif_source i)) else mask)

abbrev adat_bit : ℕ
adat_bit = 2 ^ source_byte InputSource.adat

abbrev pub usb_and_i2s : ℕ
usb_and_i2s = bit_or (2 ^ source_byte InputSource.usb) (2 ^ source_byte InputSource.i2s)

unfoldable pub on_spdif_input_config : DspiHub → List ℕ → ℕ → DspiHub
unfolding publish_state spdif_loop log_selectable_sources
on_spdif_input_config h bytes len =
    let n = byte_at bytes 0 in
    let count = if ltb n spdif_rx_num_inputs then n else spdif_rx_num_inputs in
    let mask = spdif_loop count 0 (byte_at bytes 1) usb_and_i2s in
    if ltb len 2
    then h
    else publish_state (
        log_selectable_sources (record h {
          state = record (h.state) {
            selectable_mask = bit_or mask (bit_and h.state.selectable_mask adat_bit);
            selectable_valid = true;
          };
        }))

unfoldable pub on_adat_pin : DspiHub → List ℕ → ℕ → DspiHub
unfolding publish_state log_selectable_sources
on_adat_pin h bytes len =
    let pin_set = if leb 1 len then not (byte_at bytes 0 == 0xFF) else h.device.adat_pin_set in
    let mask = h.state.selectable_mask in
    let h' = record h {
      device = record (h.device) { adat_pin_set = pin_set };
      state = record (h.state) {
        selectable_mask =
            if h.device.adat_enabled && pin_set
            then bit_or mask adat_bit
            else bit_and mask (0xFF - adat_bit);
      };
    } in
    if h.state.selectable_valid then publish_state (log_selectable_sources h') else h'

unfoldable pub on_adat_enable : DspiHub → List ℕ → ℕ → DspiHub
unfolding on_adat_pin
on_adat_enable h bytes len =
    if ltb len 1
    then h
    else on_adat_pin
        (record h { device = record (h.device) { adat_enabled = not (byte_at bytes 0 == 0) } }) [] 0
