-- ===== src/Hub/Told/Replies.antt =====
-- dspi.cpp: handlers of replies and failures keep what every kind of step keeps.
use esphome_dspi.Prelude.{ℕ, List, arith}
use esphome_dspi.Hub.Transaction.{OnOk, OnFail}
use esphome_dspi.Hub.State.{DspiHub}
use esphome_dspi.Hub.Presets.{on_preset_dir, on_preset_active}
use esphome_dspi.Hub.Readback.{on_input_source}
use esphome_dspi.Hub.RtaReplies.{
  on_rta_caps, on_rta_centres, on_rta_config, on_rta_bands, on_rta_status,
}
use esphome_dspi.Hub.Probe.{on_platform, on_spdif_input_config}
use esphome_dspi.Hub.Transport.{run_ok, run_fail}
use Prim.Native.String.{String}
use esphome_dspi.Prelude.{Bool, ◌∷◌}
use esphome_dspi.Hub.State.{DspiState, Output}
use esphome_dspi.Hub.Told.{Kept}

module _ (P : Bool → DspiState → List Output → Type 0) (k : Kept P) where
  abbrev Q : DspiHub → Type 0
  Q h = P h.rta.live h.state h.out

  -- The line of the sources is logged between a change of the state and its publication.
  announce :
      (l : Bool) (s s' : DspiState) (o : List Output) (line : String)
      → P l s o
      → P l s' (Output.published s' ∷ Output.logged_sources line ∷ o)
  announce l s s' o line p = k.publish l s s' (Output.logged_sources line ∷ o) (k.log l s o line p)

  on_platform-kept : (h : DspiHub) (b : List ℕ) (n : ℕ) → Q h → Q (on_platform h b n)
  unfolding on_platform
  on_platform-kept h b n p =
      grind (arith, k.publish, k.frame, k.dies, announce, k.forget, k.directory, k.mask)

  on_spdif_input_config-kept :
      (h : DspiHub) (b : List ℕ) (n : ℕ) → Q h → Q (on_spdif_input_config h b n)
  unfolding on_spdif_input_config
  on_spdif_input_config-kept h b n p =
      grind (arith, k.publish, k.frame, k.dies, announce, k.forget, k.directory, k.mask)

  on_input_source-kept : (h : DspiHub) (b : List ℕ) (n : ℕ) → Q h → Q (on_input_source h b n)
  unfolding on_input_source
  on_input_source-kept h b n p =
      grind (arith, k.publish, k.frame, k.dies, announce, k.forget, k.directory, k.mask)

  on_preset_dir-kept : (h : DspiHub) (b : List ℕ) (n : ℕ) → Q h → Q (on_preset_dir h b n)
  unfolding on_preset_dir
  on_preset_dir-kept h b n p =
      grind (arith, k.publish, k.frame, k.dies, announce, k.forget, k.directory, k.mask)

  on_preset_active-kept : (h : DspiHub) (b : List ℕ) (n : ℕ) → Q h → Q (on_preset_active h b n)
  unfolding on_preset_active
  on_preset_active-kept h b n p =
      grind (arith, k.publish, k.frame, k.dies, announce, k.forget, k.directory, k.mask)

  on_rta_caps-kept : (h : DspiHub) (b : List ℕ) (n : ℕ) → Q h → Q (on_rta_caps h b n)
  unfolding on_rta_caps
  on_rta_caps-kept h b n p =
      grind (arith, k.publish, k.frame, k.dies, announce, k.forget, k.directory, k.mask)

  on_rta_centres-kept : (h : DspiHub) (b : List ℕ) (n : ℕ) → Q h → Q (on_rta_centres h b n)
  unfolding on_rta_centres
  on_rta_centres-kept h b n p =
      grind (arith, k.publish, k.frame, k.dies, announce, k.forget, k.directory, k.mask)

  on_rta_config-kept : (h : DspiHub) (b : List ℕ) (n : ℕ) → Q h → Q (on_rta_config h b n)
  unfolding on_rta_config
  on_rta_config-kept h b n p =
      grind (arith, k.publish, k.frame, k.dies, announce, k.forget, k.directory, k.mask)

  on_rta_bands-kept : (h : DspiHub) (b : List ℕ) (n : ℕ) → Q h → Q (on_rta_bands h b n)
  unfolding on_rta_bands
  on_rta_bands-kept h b n p =
      grind (arith, k.publish, k.frame, k.dies, announce, k.forget, k.directory, k.mask)

  on_rta_status-kept : (h : DspiHub) (b : List ℕ) (n : ℕ) → Q h → Q (on_rta_status h b n)
  unfolding on_rta_status
  on_rta_status-kept h b n p =
      grind (arith, k.publish, k.frame, k.dies, announce, k.forget, k.directory, k.mask)

  pub run_ok-kept : (cb : OnOk) (h : DspiHub) (b : List ℕ) (n : ℕ) → Q h → Q (run_ok cb h b n)
  unfolding run_ok
  run_ok-kept OnOk.no_handler h b n p = p
  run_ok-kept OnOk.on_platform h b n p = on_platform-kept h b n p
  run_ok-kept OnOk.on_uart_config h b n p =
      grind (arith, k.publish, k.frame, k.dies, announce, k.forget, k.directory, k.mask)
  run_ok-kept OnOk.on_iface_status h b n p =
      grind (arith, k.publish, k.frame, k.dies, announce, k.forget, k.directory, k.mask)
  run_ok-kept OnOk.on_spdif_input_config h b n p = on_spdif_input_config-kept h b n p
  run_ok-kept OnOk.on_adat_enable h b n p =
      grind (arith, k.publish, k.frame, k.dies, announce, k.forget, k.directory, k.mask)
  run_ok-kept OnOk.on_adat_pin h b n p =
      grind (arith, k.publish, k.frame, k.dies, announce, k.forget, k.directory, k.mask)
  run_ok-kept OnOk.on_master_volume h b n p =
      grind (arith, k.publish, k.frame, k.dies, announce, k.forget, k.directory, k.mask)
  run_ok-kept OnOk.on_user_volume h b n p =
      grind (arith, k.publish, k.frame, k.dies, announce, k.forget, k.directory, k.mask)
  run_ok-kept OnOk.on_input_source h b n p = on_input_source-kept h b n p
  run_ok-kept OnOk.on_input_rate h b n p =
      grind (arith, k.publish, k.frame, k.dies, announce, k.forget, k.directory, k.mask)
  run_ok-kept OnOk.on_preset_dir h b n p = on_preset_dir-kept h b n p
  run_ok-kept OnOk.on_preset_active h b n p = on_preset_active-kept h b n p
  run_ok-kept OnOk.on_preset_name h b n p =
      grind (arith, k.publish, k.frame, k.dies, announce, k.forget, k.directory, k.mask)
  run_ok-kept OnOk.on_preset_load h b n p =
      grind (arith, k.publish, k.frame, k.dies, announce, k.forget, k.directory, k.mask)
  run_ok-kept OnOk.on_rta_caps h b n p = on_rta_caps-kept h b n p
  run_ok-kept OnOk.on_rta_centres h b n p = on_rta_centres-kept h b n p
  run_ok-kept OnOk.on_rta_config h b n p = on_rta_config-kept h b n p
  run_ok-kept OnOk.on_rta_bands h b n p = on_rta_bands-kept h b n p
  run_ok-kept OnOk.on_rta_status h b n p = on_rta_status-kept h b n p
  run_ok-kept OnOk.on_rta_control h b n p =
      grind (arith, k.publish, k.frame, k.dies, announce, k.forget, k.directory, k.mask)
  run_ok-kept (OnOk.on_toggle target) h b n p =
      grind (arith, k.publish, k.frame, k.dies, announce, k.forget, k.directory, k.mask)

  pub run_fail-kept : (cb : OnFail) (h : DspiHub) (s : ℕ) → Q h → Q (run_fail cb h s)
  unfolding run_fail
  run_fail-kept OnFail.no_handler h s p = p
  run_fail-kept OnFail.on_preset_load_failed h s p =
      grind (arith, k.publish, k.frame, k.dies, announce, k.forget, k.directory, k.mask)
  run_fail-kept OnFail.on_rta_setup_failed h s p =
      grind (arith, k.publish, k.frame, k.dies, announce, k.forget, k.directory, k.mask)
  run_fail-kept OnFail.on_rta_bands_failed h s p =
      grind (arith, k.publish, k.frame, k.dies, announce, k.forget, k.directory, k.mask)
  run_fail-kept OnFail.on_rta_optional_failed h s p =
      grind (arith, k.publish, k.frame, k.dies, announce, k.forget, k.directory, k.mask)
  run_fail-kept (OnFail.on_toggle_failed target) h s p =
      grind (arith, k.publish, k.frame, k.dies, announce, k.forget, k.directory, k.mask)
