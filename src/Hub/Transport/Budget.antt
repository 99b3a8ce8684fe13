-- ===== src/Hub/Transport/Budget.antt =====
-- dspi.cpp: how often a request is tried, and what ends it.
use esphome_dspi.Prelude.{ℕ, ◌+◌, ◌<◌, ◌%◌, ltb, List, true, false, ◌≡◌, ◌≢◌, refl, arith, ◌==◌}
use esphome_dspi.Protocol.Wire.{CtrlStatus, status_byte, ctrl_status_is_retryable}
use esphome_dspi.Hub.Transaction.{OnFail}
use esphome_dspi.Hub.Queue.{enqueue}
use esphome_dspi.Hub.State.{DspiHub, HubState}
use esphome_dspi.Hub.Requests.{enqueue_txn}
use esphome_dspi.Hub.Transport.{
  retry_or_drop, retry_limit, run_fail, handle_response, is_awaiting, expected_type, settle,
}
use esphome_dspi.Hub.Link.Kept.{run_fail-SameLink}

-- While the budget of a request lasts, a failed try puts it back into the queue with one attempt
-- more, and the hub waits out a delay with nothing in flight.
pub retry_or_drop-retries :
    (h : DspiHub)
    → h.link.has_current ≡ true
    → h.link.current.attempts < retry_limit h h.link.current
    → h.link.current.attempts < 255
    → let h' = retry_or_drop h in
      (h'.link.hub_state ≡ HubState.backoff)
      × (h'.link.has_current ≡ false)
      × (h'.queue
          ≡ (enqueue
              (record (h.link.current) { attempts = h.link.current.attempts + 1 })
              h.queue).queue)
unfolding retry_or_drop enqueue_txn
retry_or_drop-retries h busy more small =
    let e : (h.link.current.attempts + 1) % 256 ≡ h.link.current.attempts + 1 = omega arith in
    let f : ltb (retry_limit h h.link.current) (h.link.current.attempts + 1) ≡ false =
      ground arith in
    simp (busy, e, f) (refl, refl, refl)

-- No handler of a failure touches the queue.
pub run_fail-queue : (cb : OnFail) (h : DspiHub) (s : ℕ) → (run_fail cb h s).queue ≡ h.queue
unfolding run_fail
run_fail-queue OnFail.no_handler h s = refl
run_fail-queue OnFail.on_preset_load_failed h s = refl
run_fail-queue OnFail.on_rta_setup_failed h s = ground arith
run_fail-queue OnFail.on_rta_bands_failed h s = ground arith
run_fail-queue OnFail.on_rta_optional_failed h s = ground arith
run_fail-queue (OnFail.on_toggle_failed target) h s = ground arith

-- A rejection that resending cannot mend ends the transaction at once: the hub is idle with nothing
-- in flight, and the request is not put back.
pub handle_response-rejected :
    (h : DspiHub) (type status : ℕ) (b : List ℕ) (n : ℕ)
    → is_awaiting h.link.hub_state ≡ true
    → h.link.has_current ≡ true
    → type ≡ expected_type h.link.current
    → status ≢ status_byte CtrlStatus.ok
    → ctrl_status_is_retryable status ≡ false
    → let h' = handle_response h type status b n in
      (h'.link.hub_state ≡ HubState.idle) × (h'.link.has_current ≡ false) × (h'.queue ≡ h.queue)
unfolding handle_response
handle_response-rejected h type status b n waits busy e bad final =
    let k : (status == status_byte CtrlStatus.ok) ≡ false = ground arith in
    let m : (type == expected_type h.link.current) ≡ true = ground arith in
    let f = h.link.current.on_fail in
    let same = run_fail-SameLink f (settle h HubState.idle) status in
    let kept = run_fail-queue f (settle h HubState.idle) status in
    simp (waits, busy, m, k, final) (same.0, same.1, kept)
