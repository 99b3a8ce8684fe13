-- ===== src/Hub/Configure.antt =====
-- dspi.h: what the generated code sets before `setup()`, the accessors, and the named wrappers.
use esphome_dspi.Prelude.{
  ℕ, ◌^◌, bit_and, truthy, ltb, Bool, true, false, not, ◌&&◌, ◌||◌, if◌then◌else◌, get_or,
}
use esphome_dspi.Protocol.Toggle.{ToggleTarget}
use esphome_dspi.Protocol.Rta.{RtaConfig, rta_max_bands}
use esphome_dspi.Hub.State.{DspiHub, RtaPhase}
use esphome_dspi.Hub.Control.{set_toggle}

abbrev pub set_request_timeout : DspiHub → ℕ → DspiHub
set_request_timeout h n = record h { config = record (h.config) { request_timeout_ms = n } }

abbrev pub set_flash_timeout : DspiHub → ℕ → DspiHub
set_flash_timeout h n = record h { config = record (h.config) { flash_timeout_ms = n } }

abbrev pub set_max_retries : DspiHub → ℕ → DspiHub
set_max_retries h n = record h { config = record (h.config) { max_retries = n } }

abbrev pub set_backoff_base : DspiHub → ℕ → DspiHub
set_backoff_base h n = record h { config = record (h.config) { backoff_base_ms = n } }

abbrev pub set_poll_interval : DspiHub → ℕ → DspiHub
set_poll_interval h n = record h { config = record (h.config) { poll_interval_ms = n } }

abbrev pub set_refresh_debounce : DspiHub → ℕ → DspiHub
set_refresh_debounce h n = record h { config = record (h.config) { refresh_debounce_ms = n } }

abbrev pub set_max_bytes_per_loop : DspiHub → ℕ → DspiHub
set_max_bytes_per_loop h n = record h { config = record (h.config) { max_bytes_per_loop = n } }

abbrev pub set_expect_notifications : DspiHub → Bool → DspiHub
set_expect_notifications h b = record h { config = record (h.config) { expect_notifications = b } }

abbrev pub set_boot_input_source : DspiHub → ℕ → DspiHub
set_boot_input_source h src = record h {
  config = record (h.config) { boot_input_source = src; has_boot_input_source = true };
}

abbrev pub set_rta_config : DspiHub → RtaConfig → DspiHub
set_rta_config h cfg = record h {
  rta = record (h.rta) { cfg_desired = cfg };
  config = record (h.config) { rta_configured = true };
}

abbrev pub set_rta_interval : DspiHub → ℕ → DspiHub
set_rta_interval h n = record h { config = record (h.config) { rta_interval_ms = n } }

abbrev pub set_rta_status_interval : DspiHub → ℕ → DspiHub
set_rta_status_interval h n = record h { config = record (h.config) { rta_status_interval_ms = n } }

abbrev pub set_rta_stale_timeout : DspiHub → ℕ → DspiHub
set_rta_stale_timeout h n = record h { config = record (h.config) { rta_stale_ms = n } }

abbrev pub set_rta_auto_enable : DspiHub → Bool → DspiHub
set_rta_auto_enable h b = record h { config = record (h.config) { rta_auto_enable = b } }

abbrev is_unsupported : RtaPhase → Bool
is_unsupported RtaPhase.unsupported = true
is_unsupported _ = false

unfoldable pub rta_available : DspiHub → Bool
rta_available h = h.rta.caps_valid && not (is_unsupported h.rta.phase)

unfoldable pub rta_band_centre_hz : DspiHub → ℕ → ℕ
rta_band_centre_hz h band = if ltb band rta_max_bands then get_or h.rta.band_centre_hz band 0 else 0

-- A source is a number of the enum, so the shift stays within the mask's type.
unfoldable pub is_source_selectable : DspiHub → ℕ → Bool
is_source_selectable h source =
    not h.state.selectable_valid || truthy (bit_and h.state.selectable_mask (2 ^ source))

abbrev pub set_user_mute : DspiHub → Bool → DspiHub
set_user_mute h on = set_toggle h ToggleTarget.user_mute on

abbrev pub set_loudness : DspiHub → Bool → DspiHub
set_loudness h on = set_toggle h ToggleTarget.loudness on

abbrev pub set_eq_bypass : DspiHub → Bool → DspiHub
set_eq_bypass h on = set_toggle h ToggleTarget.eq_bypass on

abbrev pub set_crossfeed : DspiHub → Bool → DspiHub
set_crossfeed h on = set_toggle h ToggleTarget.crossfeed on

abbrev pub set_leveller : DspiHub → Bool → DspiHub
set_leveller h on = set_toggle h ToggleTarget.leveller on
