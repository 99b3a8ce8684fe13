-- ===== src/Hub/Reach.antt =====
-- dspi.cpp: the hubs that `setup()`, passes of `loop()` and calls of the public setters lead to.
pub mod Safe
use esphome_dspi.Prelude.{ℕ, List, Bool}
use esphome_dspi.Protocol.Toggle.{ToggleTarget}
use esphome_dspi.Protocol.Rta.{RtaConfig}
use esphome_dspi.Hub.State.{DspiHub, Config, new_hub}
use esphome_dspi.Hub.Requests.{request_refresh, request_input_rate}
use esphome_dspi.Hub.Control.{
  set_master_volume_db, set_user_volume_db, enable_toggle_read, set_toggle, set_input_source,
  set_preset_slot,
}
use esphome_dspi.Hub.Rta.{set_rta_enabled, rta_reset_avg, set_rta_tap, set_rta_channel_mask}
use esphome_dspi.Hub.Loop.{setup, loop}

-- What entities, automations and lambdas may call between two passes.
pub data Call : Type 0 where
  refresh input_rate reset_avg : Call
  master_volume user_volume input_source preset_slot rta_tap rta_channels : ℕ → Call
  toggle : ToggleTarget → Bool → Call
  toggle_read : ToggleTarget → Call
  rta_enabled : Bool → Call

module _ (clamp : ℕ → ℕ → ℕ → ℕ) where
  unfoldable pub run_call : Call → DspiHub → DspiHub
  run_call Call.refresh h = request_refresh h
  run_call Call.input_rate h = request_input_rate h
  run_call Call.reset_avg h = rta_reset_avg h
  run_call (Call.master_volume db) h = set_master_volume_db clamp h db
  run_call (Call.user_volume db) h = set_user_volume_db clamp h db
  run_call (Call.input_source source) h = set_input_source h source
  run_call (Call.preset_slot slot) h = set_preset_slot h slot
  run_call (Call.rta_tap tap) h = set_rta_tap h tap
  run_call (Call.rta_channels mask) h = set_rta_channel_mask h mask
  run_call (Call.toggle target on) h = set_toggle h target on
  run_call (Call.toggle_read target) h = enable_toggle_read h target
  run_call (Call.rta_enabled enabled) h = set_rta_enabled h enabled

  -- From any configuration, with any bytes arriving and any calls in between.
  pub data Reachable : DspiHub → Type 0 where
    started :
        (config : Config) (desired : RtaConfig) (buffer : List ℕ)
        → Reachable (setup (new_hub config desired buffer))
    passed : (h : DspiHub) (now : ℕ) (bytes : List ℕ) → Reachable h → Reachable (loop h now bytes).0
    called : (h : DspiHub) (c : Call) → Reachable h → Reachable (run_call c h)
