-- ===== src/Hub/Link/Kept.antt =====
-- dspi.cpp: the handlers of replies and failures leave the state of the link alone.
use esphome_dspi.Prelude.{ℕ, List, ◌≡◌, refl, arith}
use esphome_dspi.Hub.Transaction.{OnOk, OnFail}
use esphome_dspi.Hub.State.{DspiHub}
use esphome_dspi.Hub.Presets.{on_preset_dir, on_preset_active}
use esphome_dspi.Hub.Readback.{on_input_source}
use esphome_dspi.Hub.RtaReplies.{
  on_rta_caps, on_rta_centres, on_rta_config, on_rta_bands, on_rta_status,
}
use esphome_dspi.Hub.Probe.{on_platform, on_spdif_input_config}
use esphome_dspi.Hub.Transport.{run_ok, run_fail}

-- Two hubs in the same state of the link, both with a transaction in flight or both without.
abbrev pub SameLink : DspiHub → DspiHub → Type 0
SameLink h h' = (h'.link.hub_state ≡ h.link.hub_state) × (h'.link.has_current ≡ h.link.has_current)

-- Identifying the device reads and writes more than any other handler.
on_platform-SameLink : (h : DspiHub) (b : List ℕ) (n : ℕ) → SameLink h (on_platform h b n)
unfolding on_platform
on_platform-SameLink h b n = ground arith

on_spdif_input_config-SameLink :
    (h : DspiHub) (b : List ℕ) (n : ℕ) → SameLink h (on_spdif_input_config h b n)
unfolding on_spdif_input_config
on_spdif_input_config-SameLink h b n = ground arith

on_input_source-SameLink : (h : DspiHub) (b : List ℕ) (n : ℕ) → SameLink h (on_input_source h b n)
unfolding on_input_source
on_input_source-SameLink h b n = ground arith

on_preset_dir-SameLink : (h : DspiHub) (b : List ℕ) (n : ℕ) → SameLink h (on_preset_dir h b n)
unfolding on_preset_dir
on_preset_dir-SameLink h b n = ground arith

on_preset_active-SameLink : (h : DspiHub) (b : List ℕ) (n : ℕ) → SameLink h (on_preset_active h b n)
unfolding on_preset_active
on_preset_active-SameLink h b n = ground arith

on_rta_caps-SameLink : (h : DspiHub) (b : List ℕ) (n : ℕ) → SameLink h (on_rta_caps h b n)
unfolding on_rta_caps
on_rta_caps-SameLink h b n = ground arith

on_rta_centres-SameLink : (h : DspiHub) (b : List ℕ) (n : ℕ) → SameLink h (on_rta_centres h b n)
unfolding on_rta_centres
on_rta_centres-SameLink h b n = ground arith

on_rta_config-SameLink : (h : DspiHub) (b : List ℕ) (n : ℕ) → SameLink h (on_rta_config h b n)
unfolding on_rta_config
on_rta_config-SameLink h b n = ground arith

on_rta_bands-SameLink : (h : DspiHub) (b : List ℕ) (n : ℕ) → SameLink h (on_rta_bands h b n)
unfolding on_rta_bands
on_rta_bands-SameLink h b n = ground arith

on_rta_status-SameLink : (h : DspiHub) (b : List ℕ) (n : ℕ) → SameLink h (on_rta_status h b n)
unfolding on_rta_status
on_rta_status-SameLink h b n = ground arith

-- Whatever a reply carries, no handler of a reply moves the link or starts a transaction.
pub run_ok-SameLink : (cb : OnOk) (h : DspiHub) (b : List ℕ) (n : ℕ) → SameLink h (run_ok cb h b n)
unfolding run_ok
run_ok-SameLink OnOk.no_handler h b n = (refl, refl)
run_ok-SameLink OnOk.on_platform h b n = on_platform-SameLink h b n
run_ok-SameLink OnOk.on_uart_config h b n = ground arith
run_ok-SameLink OnOk.on_iface_status h b n = ground arith
run_ok-SameLink OnOk.on_spdif_input_config h b n = on_spdif_input_config-SameLink h b n
run_ok-SameLink OnOk.on_adat_enable h b n = ground arith
run_ok-SameLink OnOk.on_adat_pin h b n = ground arith
run_ok-SameLink OnOk.on_master_volume h b n = ground arith
run_ok-SameLink OnOk.on_user_volume h b n = ground arith
run_ok-SameLink OnOk.on_input_source h b n = on_input_source-SameLink h b n
run_ok-SameLink OnOk.on_input_rate h b n = ground arith
run_ok-SameLink OnOk.on_preset_dir h b n = on_preset_dir-SameLink h b n
run_ok-SameLink OnOk.on_preset_active h b n = on_preset_active-SameLink h b n
run_ok-SameLink OnOk.on_preset_name h b n = ground arith
run_ok-SameLink OnOk.on_preset_load h b n = ground arith
run_ok-SameLink OnOk.on_rta_caps h b n = on_rta_caps-SameLink h b n
run_ok-SameLink OnOk.on_rta_centres h b n = on_rta_centres-SameLink h b n
run_ok-SameLink OnOk.on_rta_config h b n = on_rta_config-SameLink h b n
run_ok-SameLink OnOk.on_rta_bands h b n = on_rta_bands-SameLink h b n
run_ok-SameLink OnOk.on_rta_status h b n = on_rta_status-SameLink h b n
run_ok-SameLink OnOk.on_rta_control h b n = ground arith
run_ok-SameLink (OnOk.on_toggle target) h b n = ground arith

pub run_fail-SameLink : (cb : OnFail) (h : DspiHub) (s : ℕ) → SameLink h (run_fail cb h s)
unfolding run_fail
run_fail-SameLink OnFail.no_handler h s = (refl, refl)
run_fail-SameLink OnFail.on_preset_load_failed h s = ground arith
run_fail-SameLink OnFail.on_rta_setup_failed h s = ground arith
run_fail-SameLink OnFail.on_rta_bands_failed h s = ground arith
run_fail-SameLink OnFail.on_rta_optional_failed h s = ground arith
run_fail-SameLink (OnFail.on_toggle_failed target) h s = ground arith
