-- ===== src/Hub/Invariant/Producers.antt =====
-- dspi.cpp: the parts of a pass that only put requests into the queue.
use esphome_dspi.Prelude.{ℕ, arith}
use esphome_dspi.Hub.Transaction.{Transaction, OnOk, OnFail}
use esphome_dspi.Hub.Queue.{Queue, enqueue}
use esphome_dspi.Hub.State.{DspiHub, RtaPhase}
use esphome_dspi.Hub.Requests.{enqueue_get, enqueue_toggle_read}
use esphome_dspi.Hub.Presets.{service_preset_confirm}
use esphome_dspi.Hub.Rta.{
  service_rta, service_phase, service_streaming, enqueue_rta_get, enqueue_rta_set_config,
  rta_next_poll_channel,
}
use esphome_dspi.Hub.Probe.{start_probe}
use esphome_dspi.Hub.Loop.{reprobe, read_toggles, read_fixed, service_refresh, service_poll}

module _ (P : Queue → Type 0)
    (keep : (t : Transaction) (q : Queue) → P q → P (enqueue t q).queue) where
  pub start_probe-kept : (h : DspiHub) → P h.queue → P (start_probe h).queue
  unfolding start_probe enqueue_get
  start_probe-kept h p = grind (arith, keep)

  pub reprobe-kept : (h : DspiHub) (now : ℕ) → P h.queue → P (reprobe h now).queue
  unfolding reprobe
  reprobe-kept h now p = grind (arith, start_probe-kept)

  read_fixed-kept : (h : DspiHub) → P h.queue → P (read_fixed h).queue
  unfolding read_fixed enqueue_get
  read_fixed-kept h p = grind (arith, keep)

  read_toggles-kept : (h : DspiHub) (mask : ℕ) → P h.queue → P (read_toggles h mask).queue
  unfolding read_toggles enqueue_toggle_read
  read_toggles-kept h mask p = grind (arith, keep)

  pub service_refresh-kept : (h : DspiHub) (now : ℕ) → P h.queue → P (service_refresh h now).queue
  unfolding service_refresh
  service_refresh-kept h now p = grind (arith, read_toggles-kept, read_fixed-kept)

  pub service_poll-kept : (h : DspiHub) (now : ℕ) → P h.queue → P (service_poll h now).queue
  unfolding service_poll
  service_poll-kept h now p = grind arith

  pub service_preset_confirm-kept :
      (h : DspiHub) (now : ℕ) → P h.queue → P (service_preset_confirm h now).queue
  unfolding service_preset_confirm
  service_preset_confirm-kept h now p = grind (arith, keep)

  enqueue_rta_get-kept :
      (h : DspiHub) (req wvalue wlen : ℕ) (cb : OnOk) (fail_cb : OnFail) (priority retries : ℕ)
      → P h.queue
      → P (enqueue_rta_get h req wvalue wlen cb fail_cb priority retries).queue
  unfolding enqueue_rta_get
  enqueue_rta_get-kept h req wvalue wlen cb fail_cb priority retries p = grind (arith, keep)

  next_channel-kept : (h : DspiHub) → P h.queue → P (rta_next_poll_channel h).0.queue
  unfolding rta_next_poll_channel
  next_channel-kept h p = grind arith

  service_streaming-kept : (h : DspiHub) (now : ℕ) → P h.queue → P (service_streaming h now).queue
  unfolding service_streaming
  service_streaming-kept h now p = grind (arith, enqueue_rta_get-kept, next_channel-kept)

  set_config-kept : (h : DspiHub) → P h.queue → P (enqueue_rta_set_config h).queue
  unfolding enqueue_rta_set_config
  set_config-kept h p = grind (arith, keep)

  service_phase-kept :
      (r : RtaPhase) (h : DspiHub) (now : ℕ) → P h.queue → P (service_phase r h now).queue
  unfolding service_phase
  service_phase-kept RtaPhase.disabled h now p = p
  service_phase-kept RtaPhase.unsupported h now p = p
  service_phase-kept RtaPhase.need_caps h now p = enqueue_rta_get-kept h _ _ _ _ _ _ _ p
  service_phase-kept RtaPhase.need_centres h now p = enqueue_rta_get-kept h _ _ _ _ _ _ _ p
  service_phase-kept RtaPhase.read_config h now p = enqueue_rta_get-kept h _ _ _ _ _ _ _ p
  service_phase-kept RtaPhase.verify_config h now p = enqueue_rta_get-kept h _ _ _ _ _ _ _ p
  service_phase-kept RtaPhase.set_config h now p = set_config-kept h p
  service_phase-kept RtaPhase.stopping h now p = enqueue_rta_get-kept h _ _ _ _ _ _ _ p
  service_phase-kept RtaPhase.streaming h now p = service_streaming-kept h now p

  pub service_rta-kept : (h : DspiHub) (now : ℕ) → P h.queue → P (service_rta h now).queue
  unfolding service_rta
  service_rta-kept h now p = grind (arith, service_phase-kept)
