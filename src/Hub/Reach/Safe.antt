-- ===== src/Hub/Reach/Safe.antt =====
-- dspi.cpp: what holds of every hub that can be reached.
use esphome_dspi.Prelude.{ℕ, false, ◌≡◌, refl, arith}
use esphome_dspi.Hub.Queue.{empty_queue}
use esphome_dspi.Hub.State.{DspiHub, new_hub}
use esphome_dspi.Hub.Requests.{enqueue_get, request_refresh, request_input_rate}
use esphome_dspi.Hub.Control.{
  set_master_volume_db, set_user_volume_db, enable_toggle_read, set_toggle, set_input_source,
  set_preset_slot,
}
use esphome_dspi.Hub.Rta.{set_rta_enabled, rta_reset_avg, set_rta_tap, set_rta_channel_mask}
use esphome_dspi.Hub.Probe.{start_probe}
use esphome_dspi.Hub.Loop.{setup}
use esphome_dspi.Hub.Link.Kept.{SameLink}
use esphome_dspi.Hub.Link.OneRequest.{
  IsLinked, SameLink-IsLinked, start_probe-IsLinked, loop-IsLinked,
}
use esphome_dspi.Hub.Invariant.Queue.{IsValid, enqueue-IsValid, loop-queue-IsValid}
use esphome_dspi.Hub.Reach.{Call, run_call, Reachable}

module _ (clamp : ℕ → ℕ → ℕ → ℕ) where
  run_call-SameLink : (c : Call) (h : DspiHub) → SameLink h (run_call clamp c h)
  unfolding run_call request_refresh request_input_rate rta_reset_avg set_master_volume_db
      set_user_volume_db set_input_source set_preset_slot set_rta_tap set_rta_channel_mask
      set_toggle enable_toggle_read set_rta_enabled
  run_call-SameLink c h = ground arith

  run_call-IsValid : (c : Call) (h : DspiHub) → IsValid h.queue → IsValid (run_call clamp c h).queue
  unfolding run_call request_refresh request_input_rate rta_reset_avg set_master_volume_db
      set_user_volume_db set_input_source set_preset_slot set_rta_tap set_rta_channel_mask
      set_toggle enable_toggle_read set_rta_enabled
  run_call-IsValid c h v = grind (arith, enqueue-IsValid)

  empty_queue-IsValid : IsValid empty_queue
  unfolding IsValid
  empty_queue-IsValid = (refl, ground arith)

  setup-IsValid : (h : DspiHub) → IsValid h.queue → IsValid (setup h).queue
  unfolding setup start_probe enqueue_get
  setup-IsValid h v = grind (arith, enqueue-IsValid)

  setup-IsLinked : (h : DspiHub) → h.link.has_current ≡ false → IsLinked (setup h)
  unfolding setup
  setup-IsLinked h e = start_probe-IsLinked h e

  -- In every hub that `setup()`, passes of `loop()` over any bytes and calls of the public setters
  -- lead to, a request is in flight exactly while the hub awaits a response, the hub is not left
  -- before its setup or within its probe, and the queue has its twelve slots without two waiting
  -- requests of one identity.
  pub Reachable-safe : (h : DspiHub) → Reachable clamp h → IsLinked h × IsValid h.queue
  Reachable-safe _ (Reachable.started config desired buffer) = (
    setup-IsLinked (new_hub config desired buffer) refl,
    setup-IsValid (new_hub config desired buffer) empty_queue-IsValid,
  )
  Reachable-safe _ (Reachable.passed h now bytes r) =
      let s = Reachable-safe h r in
      (loop-IsLinked h now bytes s.0, loop-queue-IsValid h now bytes s.1)
  Reachable-safe _ (Reachable.called h c r) =
      let s = Reachable-safe h r in
      (
        SameLink-IsLinked h (run_call clamp c h) (run_call-SameLink c h) s.0,
        run_call-IsValid c h s.1,
      )
