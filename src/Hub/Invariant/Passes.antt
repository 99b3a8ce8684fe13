-- ===== src/Hub/Invariant/Passes.antt =====
-- dspi.cpp: a pass of `loop` changes the queue by `enqueue_`, by taking the request that is sent,
-- and by clearing it.
use esphome_dspi.Prelude.{ℕ, zero, suc, List, [], ◌∷◌, set, ◌≡◌, arith}
use esphome_dspi.Prelude.{some}
use esphome_dspi.Framing.Parser.{ParseResult}
use esphome_dspi.Hub.Transaction.{Transaction, OnOk, OnFail}
use esphome_dspi.Hub.Queue.{Queue, enqueue, find_next}
use esphome_dspi.Hub.State.{DspiHub, HubState}
use esphome_dspi.Hub.Requests.{enqueue_txn, publish_state}
use esphome_dspi.Hub.Rta.{reset_rta}
use esphome_dspi.Hub.Transport.{
  go_offline, fail_current, retry_or_drop, handle_response, clear_queue, run_ok, run_fail,
}
use esphome_dspi.Hub.Receive.{
  handle_notification, handle_frame, on_result, on_byte, pump_loop, pump_rx,
}
use esphome_dspi.Hub.Loop.{send_next, released, step_link, step_in, send_if_idle, loop}
use esphome_dspi.Hub.Invariant.Replies.{run_ok-kept, run_fail-kept}
use esphome_dspi.Hub.Invariant.Producers.{
  reprobe-kept, service_refresh-kept, service_poll-kept, service_preset_confirm-kept,
  service_rta-kept,
}

module _ (P : Queue → Type 0) (keep : (t : Transaction) (q : Queue) → P q → P (enqueue t q).queue)
    (cleared : (q : Queue) → P q → P (clear_queue q))
    (taken : (q : Queue) (i : ℕ) (t : Transaction)
      → find_next q ≡ some (i, t)
      → P q
      → P (set q i (released t))) where
  go_offline-kept : (h : DspiHub) → P h.queue → P (go_offline h).queue
  unfolding go_offline publish_state reset_rta
  go_offline-kept h p = grind (arith, cleared)

  ran_ok-kept :
      (cb : OnOk) (h : DspiHub) (b : List ℕ) (n : ℕ) → P h.queue → P (run_ok cb h b n).queue
  ran_ok-kept = run_ok-kept P keep

  ran_fail-kept : (cb : OnFail) (h : DspiHub) (s : ℕ) → P h.queue → P (run_fail cb h s).queue
  ran_fail-kept = run_fail-kept P keep

  fail_current-kept : (h : DspiHub) → P h.queue → P (fail_current h).queue
  unfolding fail_current
  fail_current-kept h p = grind (arith, go_offline-kept, ran_fail-kept)

  retry_or_drop-kept : (h : DspiHub) → P h.queue → P (retry_or_drop h).queue
  unfolding retry_or_drop enqueue_txn
  retry_or_drop-kept h p = grind (arith, fail_current-kept, keep)

  handle_response-kept :
      (h : DspiHub) (type status : ℕ) (b : List ℕ) (n : ℕ)
      → P h.queue
      → P (handle_response h type status b n).queue
  unfolding handle_response
  handle_response-kept h type status b n p =
      grind (arith, ran_ok-kept, ran_fail-kept, retry_or_drop-kept)

  handle_notification-kept :
      (h : DspiHub) (b : List ℕ) (n : ℕ) → P h.queue → P (handle_notification h b n).queue
  unfolding handle_notification
  handle_notification-kept h b n p = grind arith

  handle_frame-kept : (h : DspiHub) → P h.queue → P (handle_frame h).queue
  unfolding handle_frame
  handle_frame-kept h p = grind (arith, handle_notification-kept, handle_response-kept)

  on_result-kept : (r : ParseResult) (h : DspiHub) → P h.queue → P (on_result r h).queue
  unfolding on_result
  on_result-kept ParseResult.need_more h p = p
  on_result-kept ParseResult.frame h p = handle_frame-kept h p
  on_result-kept ParseResult.crc_failed h p = p
  on_result-kept ParseResult.oversize h p = p

  pump_loop-kept :
      (budget : ℕ) (h : DspiHub) (bytes : List ℕ) → P h.queue → P (pump_loop budget h bytes).0.queue
  unfolding pump_loop on_byte
  pump_loop-kept zero h bytes p = p
  pump_loop-kept (suc budget) h [] p = p
  pump_loop-kept (suc budget) h (b ∷ bytes) p =
      pump_loop-kept budget (on_byte h b) bytes (on_result-kept _ _ p)

  step_in-kept : (s : HubState) (h : DspiHub) (now : ℕ) → P h.queue → P (step_in s h now).queue
  unfolding step_in
  step_in-kept HubState.await_resp h now p = grind (arith, retry_or_drop-kept)
  step_in-kept HubState.backoff h now p = grind arith
  step_in-kept HubState.init h now p = p
  step_in-kept HubState.probing h now p = p
  step_in-kept HubState.idle h now p = p
  step_in-kept HubState.offline h now p = p

  send_if_idle-kept : (h : DspiHub) → P h.queue → P (send_if_idle h).queue
  unfolding send_if_idle send_next
  send_if_idle-kept h p = grind (arith, taken)

  pub loop-kept :
      (h : DspiHub) (now : ℕ) (bytes : List ℕ) → P h.queue → P (loop h now bytes).0.queue
  unfolding loop pump_rx step_link
  loop-kept h now bytes p =
      let r = pump_loop-kept h.config.max_bytes_per_loop (record h { clock = now }) bytes p in
      let l = reprobe-kept P keep _ now (step_in-kept _ _ now r) in
      let q = service_poll-kept P keep _ now (service_refresh-kept P keep _ now l) in
      let c = service_preset_confirm-kept P keep _ now q in
      send_if_idle-kept _ (service_rta-kept P keep _ now c)
