-- ===== src/Hub/Link/OneRequest.antt =====
-- dspi.cpp: at most one request is in flight, and the link says so.
use esphome_dspi.Prelude.{ℕ, zero, suc, List, [], ◌∷◌, Bool, true, false, ◌≡◌, refl, arith}
use esphome_dspi.Framing.Parser.{ParseResult, FrameParser}
use esphome_dspi.Hub.Transaction.{OnOk, OnFail}
use esphome_dspi.Hub.State.{DspiHub, HubState, Diagnostics}
use esphome_dspi.Hub.Requests.{enqueue_txn, enqueue_get, publish_state}
use esphome_dspi.Hub.Presets.{service_preset_confirm}
use esphome_dspi.Hub.Rta.{service_rta, reset_rta}
use esphome_dspi.Hub.Probe.{start_probe}
use esphome_dspi.Hub.Transport.{
  run_ok, run_fail, is_awaiting, go_offline, fail_current, retry_or_drop, handle_response,
}
use esphome_dspi.Hub.Receive.{
  handle_notification, handle_frame, on_result, on_byte, pump_loop, pump_rx,
}
use esphome_dspi.Hub.Loop.{
  may_probe, send_next, step_link, step_in, reprobe, service_refresh, service_poll, send_if_idle,
  loop,
}
use esphome_dspi.Hub.Link.Producers.{
  service_refresh-SameLink, service_poll-SameLink, service_preset_confirm-SameLink,
  service_rta-SameLink,
}
use esphome_dspi.Hub.Link.Kept.{SameLink, run_ok-SameLink, run_fail-SameLink}

abbrev is_settled : HubState → Bool
is_settled HubState.init = false
is_settled HubState.probing = false
is_settled _ = true

-- A transaction is in flight exactly while the hub awaits a response, and the hub is neither
-- before `setup()` nor within the probe.
unfoldable pub IsLinked : DspiHub → Type 0
IsLinked h =
    (is_awaiting h.link.hub_state ≡ h.link.has_current) × (is_settled h.link.hub_state ≡ true)

linked :
    (h : DspiHub)
    → is_awaiting h.link.hub_state ≡ h.link.has_current
    → is_settled h.link.hub_state ≡ true
    → IsLinked h
unfolding IsLinked
linked h e f = (e, f)

pub SameLink-IsLinked : (h h' : DspiHub) → SameLink h h' → IsLinked h → IsLinked h'
unfolding IsLinked
SameLink-IsLinked h h' (e, f) i = rw (e, f) i

run_ok-IsLinked :
    (cb : OnOk) (h : DspiHub) (b : List ℕ) (n : ℕ) → IsLinked h → IsLinked (run_ok cb h b n)
run_ok-IsLinked cb h b n = SameLink-IsLinked h (run_ok cb h b n) (run_ok-SameLink cb h b n)

run_fail-IsLinked : (cb : OnFail) (h : DspiHub) (s : ℕ) → IsLinked h → IsLinked (run_fail cb h s)
run_fail-IsLinked cb h s = SameLink-IsLinked h (run_fail cb h s) (run_fail-SameLink cb h s)

go_offline-IsLinked : (h : DspiHub) → h.link.has_current ≡ false → IsLinked (go_offline h)
unfolding IsLinked go_offline publish_state reset_rta
go_offline-IsLinked h e = ground arith

fail_current-IsLinked : (h : DspiHub) → IsLinked (fail_current h)
unfolding fail_current
fail_current-IsLinked h = grind (arith, go_offline-IsLinked, run_fail-IsLinked, linked)

retry_or_drop-IsLinked : (h : DspiHub) → IsLinked (retry_or_drop h)
unfolding retry_or_drop enqueue_txn
retry_or_drop-IsLinked h = grind (arith, fail_current-IsLinked, linked)

handle_response-IsLinked :
    (h : DspiHub) (type status : ℕ) (b : List ℕ) (n : ℕ)
    → IsLinked h
    → IsLinked (handle_response h type status b n)
unfolding handle_response
handle_response-IsLinked h type status b n i =
    grind (arith, run_ok-IsLinked, run_fail-IsLinked, retry_or_drop-IsLinked, linked)

handle_notification-IsLinked :
    (h : DspiHub) (b : List ℕ) (n : ℕ) → IsLinked h → IsLinked (handle_notification h b n)
unfolding IsLinked handle_notification
handle_notification-IsLinked h b n i = ground arith

handle_frame-IsLinked : (h : DspiHub) → IsLinked h → IsLinked (handle_frame h)
unfolding handle_frame
handle_frame-IsLinked h i = grind (arith, handle_notification-IsLinked, handle_response-IsLinked)

clocked-IsLinked : (h : DspiHub) (now : ℕ) → IsLinked h → IsLinked (record h { clock = now })
unfolding IsLinked
clocked-IsLinked h now i = i

counted-IsLinked :
    (h : DspiHub) (p : FrameParser) (d : Diagnostics)
    → IsLinked h
    → IsLinked (record h { parser = p; diag = d })
unfolding IsLinked
counted-IsLinked h p d i = i

on_result-IsLinked : (r : ParseResult) (h : DspiHub) → IsLinked h → IsLinked (on_result r h)
unfolding on_result
on_result-IsLinked ParseResult.need_more h i = i
on_result-IsLinked ParseResult.frame h i = handle_frame-IsLinked h i
on_result-IsLinked ParseResult.crc_failed h i = counted-IsLinked h _ _ i
on_result-IsLinked ParseResult.oversize h i = counted-IsLinked h _ _ i

on_byte-IsLinked : (h : DspiHub) (byte : ℕ) → IsLinked h → IsLinked (on_byte h byte)
unfolding on_byte
on_byte-IsLinked h byte i = on_result-IsLinked _ _ (counted-IsLinked h _ _ i)

pump_loop-IsLinked :
    (budget : ℕ) (h : DspiHub) (bytes : List ℕ) → IsLinked h → IsLinked (pump_loop budget h bytes).0
unfolding pump_loop
pump_loop-IsLinked zero h bytes i = i
pump_loop-IsLinked (suc budget) h [] i = i
pump_loop-IsLinked (suc budget) h (b ∷ bytes) i =
    pump_loop-IsLinked budget (on_byte h b) bytes (on_byte-IsLinked h b i)

step_in-IsLinked :
    (s : HubState) (h : DspiHub) (now : ℕ)
    → h.link.hub_state ≡ s
    → IsLinked h
    → IsLinked (step_in s h now)
unfolding step_in IsLinked
step_in-IsLinked HubState.await_resp h now e i = grind (arith, retry_or_drop-IsLinked)
step_in-IsLinked HubState.backoff h now e i = grind arith
step_in-IsLinked HubState.init h now e i = i
step_in-IsLinked HubState.probing h now e i = i
step_in-IsLinked HubState.idle h now e i = i
step_in-IsLinked HubState.offline h now e i = i

pub start_probe-IsLinked : (h : DspiHub) → h.link.has_current ≡ false → IsLinked (start_probe h)
unfolding IsLinked start_probe enqueue_get enqueue_txn
start_probe-IsLinked h e = ground arith

may_probe-idle :
    (h : DspiHub) → IsLinked h → may_probe h.link.hub_state ≡ true → h.link.has_current ≡ false
unfolding IsLinked
may_probe-idle h i e = ground arith

reprobe-IsLinked : (h : DspiHub) (now : ℕ) → IsLinked h → IsLinked (reprobe h now)
unfolding reprobe
reprobe-IsLinked h now i = grind (arith, start_probe-IsLinked, may_probe-idle)

send_if_idle-IsLinked : (h : DspiHub) → IsLinked h → IsLinked (send_if_idle h)
unfolding send_if_idle send_next IsLinked
send_if_idle-IsLinked h i = ground arith

service_refresh-IsLinked : (h : DspiHub) (now : ℕ) → IsLinked h → IsLinked (service_refresh h now)
service_refresh-IsLinked h now =
    SameLink-IsLinked h (service_refresh h now) (service_refresh-SameLink h now)

service_poll-IsLinked : (h : DspiHub) (now : ℕ) → IsLinked h → IsLinked (service_poll h now)
service_poll-IsLinked h now = SameLink-IsLinked h (service_poll h now) (service_poll-SameLink h now)

service_preset_confirm-IsLinked :
    (h : DspiHub) (now : ℕ) → IsLinked h → IsLinked (service_preset_confirm h now)
service_preset_confirm-IsLinked h now =
    SameLink-IsLinked h (service_preset_confirm h now) (service_preset_confirm-SameLink h now)

service_rta-IsLinked : (h : DspiHub) (now : ℕ) → IsLinked h → IsLinked (service_rta h now)
service_rta-IsLinked h now = SameLink-IsLinked h (service_rta h now) (service_rta-SameLink h now)

-- From a consistent link, a pass of `loop` over any bytes leaves a consistent link: afterwards one
-- request is in flight exactly if the hub awaits a response, and the hub is never left in the
-- probe.
pub loop-IsLinked :
    (h : DspiHub) (now : ℕ) (bytes : List ℕ) → IsLinked h → IsLinked (loop h now bytes).0
unfolding loop pump_rx step_link
loop-IsLinked h now bytes i =
    let p = pump_loop-IsLinked h.config.max_bytes_per_loop _ bytes (clocked-IsLinked h now i) in
    let l = reprobe-IsLinked _ now (step_in-IsLinked _ _ now refl p) in
    let q = service_poll-IsLinked _ now (service_refresh-IsLinked _ now l) in
    send_if_idle-IsLinked _ (service_rta-IsLinked _ now (service_preset_confirm-IsLinked _ now q))
