-- ===== src/Hub/Invariant/Replies.antt =====
-- dspi.cpp: handlers of replies and failures change the queue by `enqueue_` alone.
use esphome_dspi.Prelude.{ℕ, List, arith}
use esphome_dspi.Hub.Transaction.{Transaction, OnOk, OnFail}
use esphome_dspi.Hub.Queue.{Queue, enqueue}
use esphome_dspi.Hub.State.{DspiHub}
use esphome_dspi.Hub.Presets.{on_preset_dir, on_preset_active}
use esphome_dspi.Hub.Readback.{on_input_source}
use esphome_dspi.Hub.RtaReplies.{
  on_rta_caps, on_rta_centres, on_rta_config, on_rta_bands, on_rta_status,
}
use esphome_dspi.Hub.Probe.{on_platform, on_spdif_input_config}
use esphome_dspi.Hub.Transport.{run_ok, run_fail}

-- `P` is any property of the queue that `enqueue_` keeps.
module _ (P : Queue → Type 0)
    (keep : (t : Transaction) (q : Queue) → P q → P (enqueue t q).queue) where
  on_platform-kept : (h : DspiHub) (b : List ℕ) (n : ℕ) → P h.queue → P (on_platform h b n).queue
  unfolding on_platform
  on_platform-kept h b n p = grind (arith, keep)

  on_spdif_input_config-kept :
      (h : DspiHub) (b : List ℕ) (n : ℕ) → P h.queue → P (on_spdif_input_config h b n).queue
  unfolding on_spdif_input_config
  on_spdif_input_config-kept h b n p = grind (arith, keep)

  on_input_source-kept :
      (h : DspiHub) (b : List ℕ) (n : ℕ) → P h.queue → P (on_input_source h b n).queue
  unfolding on_input_source
  on_input_source-kept h b n p = grind (arith, keep)

  on_preset_dir-kept :
      (h : DspiHub) (b : List ℕ) (n : ℕ) → P h.queue → P (on_preset_dir h b n).queue
  unfolding on_preset_dir
  on_preset_dir-kept h b n p = grind (arith, keep)

  on_preset_active-kept :
      (h : DspiHub) (b : List ℕ) (n : ℕ) → P h.queue → P (on_preset_active h b n).queue
  unfolding on_preset_active
  on_preset_active-kept h b n p = grind (arith, keep)

  on_rta_caps-kept : (h : DspiHub) (b : List ℕ) (n : ℕ) → P h.queue → P (on_rta_caps h b n).queue
  unfolding on_rta_caps
  on_rta_caps-kept h b n p = grind (arith, keep)

  on_rta_centres-kept :
      (h : DspiHub) (b : List ℕ) (n : ℕ) → P h.queue → P (on_rta_centres h b n).queue
  unfolding on_rta_centres
  on_rta_centres-kept h b n p = grind (arith, keep)

  on_rta_config-kept :
      (h : DspiHub) (b : List ℕ) (n : ℕ) → P h.queue → P (on_rta_config h b n).queue
  unfolding on_rta_config
  on_rta_config-kept h b n p = grind (arith, keep)

  on_rta_bands-kept : (h : DspiHub) (b : List ℕ) (n : ℕ) → P h.queue → P (on_rta_bands h b n).queue
  unfolding on_rta_bands
  on_rta_bands-kept h b n p = grind (arith, keep)

  on_rta_status-kept :
      (h : DspiHub) (b : List ℕ) (n : ℕ) → P h.queue → P (on_rta_status h b n).queue
  unfolding on_rta_status
  on_rta_status-kept h b n p = grind (arith, keep)

  pub run_ok-kept :
      (cb : OnOk) (h : DspiHub) (b : List ℕ) (n : ℕ) → P h.queue → P (run_ok cb h b n).queue
  unfolding run_ok
  run_ok-kept OnOk.no_handler h b n p = p
  run_ok-kept OnOk.on_platform h b n p = on_platform-kept h b n p
  run_ok-kept OnOk.on_uart_config h b n p = grind (arith, keep)
  run_ok-kept OnOk.on_iface_status h b n p = grind (arith, keep)
  run_ok-kept OnOk.on_spdif_input_config h b n p = on_spdif_input_config-kept h b n p
  run_ok-kept OnOk.on_adat_enable h b n p = grind (arith, keep)
  run_ok-kept OnOk.on_adat_pin h b n p = grind (arith, keep)
  run_ok-kept OnOk.on_master_volume h b n p = grind (arith, keep)
  run_ok-kept OnOk.on_user_volume h b n p = grind (arith, keep)
  run_ok-kept OnOk.on_input_source h b n p = on_input_source-kept h b n p
  run_ok-kept OnOk.on_input_rate h b n p = grind (arith, keep)
  run_ok-kept OnOk.on_preset_dir h b n p = on_preset_dir-kept h b n p
  run_ok-kept OnOk.on_preset_active h b n p = on_preset_active-kept h b n p
  run_ok-kept OnOk.on_preset_name h b n p = grind (arith, keep)
  run_ok-kept OnOk.on_preset_load h b n p = grind (arith, keep)
  run_ok-kept OnOk.on_rta_caps h b n p = on_rta_caps-kept h b n p
  run_ok-kept OnOk.on_rta_centres h b n p = on_rta_centres-kept h b n p
  run_ok-kept OnOk.on_rta_config h b n p = on_rta_config-kept h b n p
  run_ok-kept OnOk.on_rta_bands h b n p = on_rta_bands-kept h b n p
  run_ok-kept OnOk.on_rta_status h b n p = on_rta_status-kept h b n p
  run_ok-kept OnOk.on_rta_control h b n p = grind (arith, keep)
  run_ok-kept (OnOk.on_toggle target) h b n p = grind arith

  pub run_fail-kept : (cb : OnFail) (h : DspiHub) (s : ℕ) → P h.queue → P (run_fail cb h s).queue
  unfolding run_fail
  run_fail-kept OnFail.no_handler h s p = p
  run_fail-kept OnFail.on_preset_load_failed h s p = grind arith
  run_fail-kept OnFail.on_rta_setup_failed h s p = grind arith
  run_fail-kept OnFail.on_rta_bands_failed h s p = grind arith
  run_fail-kept OnFail.on_rta_optional_failed h s p = grind arith
  run_fail-kept (OnFail.on_toggle_failed target) h s p = grind arith
