-- ===== src/Witnesses/Shown.antt =====
-- A run from `setup()` on, in which a reply reaches an entity.
use esphome_dspi.Prelude.{ℕ, List, [], ◌∷◌, refl}
use esphome_dspi.Crc16.{crc16, crc16_update}
use esphome_dspi.Protocol.Rta.{default_config}
use esphome_dspi.Framing.Receive.Frame.{response_body, device_frame}
use esphome_dspi.Hub.State.{DspiHub, Config, new_hub}
use esphome_dspi.Protocol.Preset.{rd_u32}
use esphome_dspi.Protocol.Toggle.{toggle_mask_count}
use esphome_dspi.Framing.Parser.{feed}
use esphome_dspi.Hub.Queue.{enqueue, coalesce, place, queue_free, find_next, find_next_from}
use esphome_dspi.Hub.Requests.{
  enqueue_txn, enqueue_get, enqueue_toggle_read, request_refresh, publish_state,
}
use esphome_dspi.Hub.Presets.{service_preset_confirm}
use esphome_dspi.Hub.Rta.{service_rta, service_phase}
use esphome_dspi.Hub.Readback.{on_master_volume}
use esphome_dspi.Hub.Probe.{start_probe}
use esphome_dspi.Hub.Transport.{retry_or_drop, fail_current, run_ok, run_fail, handle_response}
use esphome_dspi.Hub.Receive.{pump_rx, pump_loop, on_byte, on_result, handle_frame}
use esphome_dspi.Hub.Loop.{
  setup, loop, step_link, step_in, reprobe, read_fixed, read_toggles, service_refresh, service_poll,
  send_if_idle, send_next,
}
use esphome_dspi.Hub.Reach.{Reachable, Call, run_call}
use esphome_dspi.Entities.Listener.{hear}
use esphome_dspi.Entities.Number.{VolumeTarget, new_number}
use esphome_dspi.Entities.Registered.{Kind, listener}
use esphome_dspi.Entities.Current.{Shows, states, Reachable-Shows}
use esphome_dspi.Witnesses.{clamp, config, buffer}

-- Without retries, so that the unanswered probe makes room for the refresh.
abbrev hasty : Config
hasty = record config { max_retries = 0 }

abbrev asked : DspiHub
asked = run_call clamp Call.refresh (setup (new_hub hasty default_config buffer))

abbrev probing : DspiHub
probing = (loop asked 300 []).0

abbrev reading : DspiHub
reading = (loop probing 1000 []).0

-- The master volume is -20 dB.
abbrev reply : List ℕ
reply =
    device_frame 0x82 0 (0 ∷ 0 ∷ 0xA0 ∷ 0xC1 ∷ [])
      (crc16 (response_body 0x82 0 (0 ∷ 0 ∷ 0xA0 ∷ 0xC1 ∷ [])))

abbrev told : DspiHub
told = (loop reading 1010 reply).0

told-Reachable : Reachable clamp told
told-Reachable = Reachable.passed reading 1010 reply (
    Reachable.passed probing 1000 [] (
      Reachable.passed asked 300 [] (
        Reachable.called (setup (new_hub hasty default_config buffer)) Call.refresh
          (Reachable.started hasty default_config buffer))))

Reachable-Shows_example :
    let l = listener (λ n. n) Kind.number in
    Shows l (hear l (new_number VolumeTarget.master) (states told.out)) 0xC1A00000
unfolding listener loop send_if_idle send_next find_next find_next_from service_rta service_phase
    service_preset_confirm service_poll service_refresh read_fixed read_toggles reprobe step_link
    step_in pump_rx pump_loop on_byte on_result feed handle_frame handle_response run_ok
    on_master_volume rd_u32 retry_or_drop fail_current run_fail enqueue coalesce place enqueue_get
    enqueue_toggle_read enqueue_txn queue_free toggle_mask_count request_refresh run_call setup
    start_probe publish_state crc16 crc16_update
Reachable-Shows_example =
    Reachable-Shows (λ n. n) clamp told Kind.number (new_number VolumeTarget.master) 0xC1A00000
      told-Reachable refl
