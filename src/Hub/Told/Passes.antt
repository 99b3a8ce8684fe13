-- ===== src/Hub/Told/Passes.antt =====
-- dspi.cpp: passes of `loop` and calls of the setters keep what every kind of step keeps.
use esphome_dspi.Prelude.{ℕ, zero, suc, List, [], ◌∷◌, arith}
use esphome_dspi.Framing.Parser.{ParseResult}
use esphome_dspi.Hub.Transaction.{OnOk, OnFail}
use esphome_dspi.Hub.State.{DspiHub, HubState, RtaPhase, new_hub}
use esphome_dspi.Hub.Requests.{
  enqueue_txn, enqueue_get, enqueue_toggle_read, publish_state, request_refresh, request_input_rate,
}
use esphome_dspi.Hub.Control.{
  set_master_volume_db, set_user_volume_db, enable_toggle_read, set_toggle, set_input_source,
  set_preset_slot,
}
use esphome_dspi.Hub.Presets.{service_preset_confirm}
use esphome_dspi.Hub.Rta.{
  service_rta, service_phase, service_streaming, enqueue_rta_get, enqueue_rta_set_config,
  rta_next_poll_channel, reset_rta, rta_mark_not_live, set_rta_enabled, rta_reset_avg, set_rta_tap,
  set_rta_channel_mask,
}
use esphome_dspi.Hub.Probe.{start_probe}
use esphome_dspi.Hub.Transport.{
  go_offline, fail_current, retry_or_drop, handle_response, run_ok, run_fail,
}
use esphome_dspi.Hub.Receive.{
  handle_notification, handle_frame, on_result, on_byte, pump_loop, pump_rx,
}
use esphome_dspi.Hub.Loop.{
  send_next, step_link, step_in, reprobe, read_toggles, read_fixed, service_refresh, service_poll,
  send_if_idle, loop, setup,
}
use esphome_dspi.Hub.Reach.{Call, run_call, Reachable}
use esphome_dspi.Prelude.{Bool, false}
use esphome_dspi.Hub.State.{DspiState, Output, new_state}
use esphome_dspi.Hub.Told.{Kept}
use esphome_dspi.Hub.Told.Replies

module _ (P : Bool → DspiState → List Output → Type 0) (k : Kept P) where
  abbrev Q : DspiHub → Type 0
  Q h = P h.rta.live h.state h.out

  ran_ok-kept : (cb : OnOk) (h : DspiHub) (b : List ℕ) (n : ℕ) → Q h → Q (run_ok cb h b n)
  ran_ok-kept = Replies.run_ok-kept P k

  ran_fail-kept : (cb : OnFail) (h : DspiHub) (s : ℕ) → Q h → Q (run_fail cb h s)
  ran_fail-kept = Replies.run_fail-kept P k

  rta_mark_not_live-kept : (h : DspiHub) → Q h → Q (rta_mark_not_live h)
  unfolding rta_mark_not_live
  rta_mark_not_live-kept h p = grind (arith, k.publish, k.frame, k.dies, k.tx)

  reset_rta-kept : (h : DspiHub) → Q h → Q (reset_rta h)
  unfolding reset_rta
  reset_rta-kept h p = grind (arith, k.publish, k.frame, k.dies, k.tx, rta_mark_not_live-kept)

  go_offline-kept : (h : DspiHub) → Q h → Q (go_offline h)
  unfolding go_offline publish_state
  go_offline-kept h p = grind (arith, k.publish, k.frame, k.dies, k.tx, reset_rta-kept)

  fail_current-kept : (h : DspiHub) → Q h → Q (fail_current h)
  unfolding fail_current
  fail_current-kept h p =
      grind (arith, k.publish, k.frame, k.dies, k.tx, go_offline-kept, ran_fail-kept)

  retry_or_drop-kept : (h : DspiHub) → Q h → Q (retry_or_drop h)
  unfolding retry_or_drop enqueue_txn
  retry_or_drop-kept h p = grind (arith, k.publish, k.frame, k.dies, k.tx, fail_current-kept)

  handle_response-kept :
      (h : DspiHub) (type status : ℕ) (b : List ℕ) (n : ℕ)
      → Q h
      → Q (handle_response h type status b n)
  unfolding handle_response
  handle_response-kept h type status b n p =
      grind
        (arith, k.publish, k.frame, k.dies, k.tx, ran_ok-kept, ran_fail-kept, retry_or_drop-kept)

  handle_notification-kept :
      (h : DspiHub) (b : List ℕ) (n : ℕ) → Q h → Q (handle_notification h b n)
  unfolding handle_notification
  handle_notification-kept h b n p = grind (arith, k.publish, k.frame, k.dies, k.tx)

  handle_frame-kept : (h : DspiHub) → Q h → Q (handle_frame h)
  unfolding handle_frame
  handle_frame-kept h p =
      grind
        (arith, k.publish, k.frame, k.dies, k.tx, handle_notification-kept, handle_response-kept)

  on_result-kept : (r : ParseResult) (h : DspiHub) → Q h → Q (on_result r h)
  unfolding on_result
  on_result-kept ParseResult.need_more h p = p
  on_result-kept ParseResult.frame h p = handle_frame-kept h p
  on_result-kept ParseResult.crc_failed h p = p
  on_result-kept ParseResult.oversize h p = p

  pump_loop-kept :
      (budget : ℕ) (h : DspiHub) (bytes : List ℕ) → Q h → Q (pump_loop budget h bytes).0
  unfolding pump_loop on_byte
  pump_loop-kept zero h bytes p = p
  pump_loop-kept (suc budget) h [] p = p
  pump_loop-kept (suc budget) h (b ∷ bytes) p =
      pump_loop-kept budget (on_byte h b) bytes (on_result-kept _ _ p)

  step_in-kept : (s : HubState) (h : DspiHub) (now : ℕ) → Q h → Q (step_in s h now)
  unfolding step_in
  step_in-kept HubState.await_resp h now p =
      grind (arith, k.publish, k.frame, k.dies, k.tx, retry_or_drop-kept)
  step_in-kept HubState.backoff h now p = grind (arith, k.publish, k.frame, k.dies, k.tx)
  step_in-kept HubState.init h now p = p
  step_in-kept HubState.probing h now p = p
  step_in-kept HubState.idle h now p = p
  step_in-kept HubState.offline h now p = p

  start_probe-kept : (h : DspiHub) → Q h → Q (start_probe h)
  unfolding start_probe enqueue_get
  start_probe-kept h p = grind (arith, k.publish, k.frame, k.dies, k.tx)

  reprobe-kept : (h : DspiHub) (now : ℕ) → Q h → Q (reprobe h now)
  unfolding reprobe
  reprobe-kept h now p = grind (arith, k.publish, k.frame, k.dies, k.tx, start_probe-kept)

  read_fixed-kept : (h : DspiHub) → Q h → Q (read_fixed h)
  unfolding read_fixed enqueue_get
  read_fixed-kept h p = grind (arith, k.publish, k.frame, k.dies, k.tx)

  read_toggles-kept : (h : DspiHub) (mask : ℕ) → Q h → Q (read_toggles h mask)
  unfolding read_toggles enqueue_toggle_read
  read_toggles-kept h mask p = grind (arith, k.publish, k.frame, k.dies, k.tx)

  service_refresh-kept : (h : DspiHub) (now : ℕ) → Q h → Q (service_refresh h now)
  unfolding service_refresh
  service_refresh-kept h now p =
      grind (arith, k.publish, k.frame, k.dies, k.tx, read_toggles-kept, read_fixed-kept)

  service_poll-kept : (h : DspiHub) (now : ℕ) → Q h → Q (service_poll h now)
  unfolding service_poll
  service_poll-kept h now p = grind (arith, k.publish, k.frame, k.dies, k.tx)

  service_preset_confirm-kept : (h : DspiHub) (now : ℕ) → Q h → Q (service_preset_confirm h now)
  unfolding service_preset_confirm
  service_preset_confirm-kept h now p = grind (arith, k.publish, k.frame, k.dies, k.tx)

  enqueue_rta_get-kept :
      (h : DspiHub) (req wvalue wlen : ℕ) (cb : OnOk) (fail_cb : OnFail) (priority retries : ℕ)
      → Q h
      → Q (enqueue_rta_get h req wvalue wlen cb fail_cb priority retries)
  unfolding enqueue_rta_get
  enqueue_rta_get-kept h req wvalue wlen cb fail_cb priority retries p =
      grind (arith, k.publish, k.frame, k.dies, k.tx)

  next_channel-kept : (h : DspiHub) → Q h → Q (rta_next_poll_channel h).0
  unfolding rta_next_poll_channel
  next_channel-kept h p = grind (arith, k.publish, k.frame, k.dies, k.tx)

  service_streaming-kept : (h : DspiHub) (now : ℕ) → Q h → Q (service_streaming h now)
  unfolding service_streaming
  service_streaming-kept h now p =
      grind (arith, k.publish, k.frame, k.dies, k.tx, enqueue_rta_get-kept, next_channel-kept)

  set_config-kept : (h : DspiHub) → Q h → Q (enqueue_rta_set_config h)
  unfolding enqueue_rta_set_config
  set_config-kept h p = grind (arith, k.publish, k.frame, k.dies, k.tx)

  service_phase-kept : (r : RtaPhase) (h : DspiHub) (now : ℕ) → Q h → Q (service_phase r h now)
  unfolding service_phase
  service_phase-kept RtaPhase.disabled h now p = p
  service_phase-kept RtaPhase.unsupported h now p = p
  service_phase-kept RtaPhase.need_caps h now p = enqueue_rta_get-kept h _ _ _ _ _ _ _ p
  service_phase-kept RtaPhase.need_centres h now p = enqueue_rta_get-kept h _ _ _ _ _ _ _ p
  service_phase-kept RtaPhase.read_config h now p = enqueue_rta_get-kept h _ _ _ _ _ _ _ p
  service_phase-kept RtaPhase.verify_config h now p = enqueue_rta_get-kept h _ _ _ _ _ _ _ p
  service_phase-kept RtaPhase.set_config h now p = set_config-kept h p
  service_phase-kept RtaPhase.stopping h now p = enqueue_rta_get-kept h _ _ _ _ _ _ _ p
  service_phase-kept RtaPhase.streaming h now p = service_streaming-kept h now p

  service_rta-kept : (h : DspiHub) (now : ℕ) → Q h → Q (service_rta h now)
  unfolding service_rta
  service_rta-kept h now p = grind (arith, k.publish, k.frame, k.dies, k.tx, service_phase-kept)

  send_if_idle-kept : (h : DspiHub) → Q h → Q (send_if_idle h)
  unfolding send_if_idle send_next
  send_if_idle-kept h p = grind (arith, k.publish, k.frame, k.dies, k.tx)

  loop-kept : (h : DspiHub) (now : ℕ) (bytes : List ℕ) → Q h → Q (loop h now bytes).0
  unfolding loop pump_rx step_link
  loop-kept h now bytes p =
      let r = pump_loop-kept h.config.max_bytes_per_loop (record h { clock = now }) bytes p in
      let l = reprobe-kept _ now (step_in-kept _ _ now r) in
      let q = service_poll-kept _ now (service_refresh-kept _ now l) in
      send_if_idle-kept _ (service_rta-kept _ now (service_preset_confirm-kept _ now q))

  setup-kept : (h : DspiHub) → Q h → Q (setup h)
  unfolding setup
  setup-kept h p = grind (arith, k.publish, k.frame, k.dies, k.tx, start_probe-kept)

  module _ (clamp : ℕ → ℕ → ℕ → ℕ) where
    run_call-kept : (c : Call) (h : DspiHub) → Q h → Q (run_call clamp c h)
    unfolding run_call request_refresh request_input_rate rta_reset_avg set_master_volume_db
        set_user_volume_db set_input_source set_preset_slot set_rta_tap set_rta_channel_mask
        set_toggle enable_toggle_read set_rta_enabled
    run_call-kept c h p = grind (arith, k.publish, k.frame, k.dies, k.tx, rta_mark_not_live-kept)

    pub Reachable-kept : P false new_state [] → (h : DspiHub) → Reachable clamp h → Q h
    Reachable-kept p _ (Reachable.started config desired buffer) =
        setup-kept (new_hub config desired buffer) p
    Reachable-kept p _ (Reachable.passed h now bytes r) =
        loop-kept h now bytes (Reachable-kept p h r)
    Reachable-kept p _ (Reachable.called h c r) = run_call-kept c h (Reachable-kept p h r)
