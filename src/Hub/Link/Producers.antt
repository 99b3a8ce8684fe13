-- ===== src/Hub/Link/Producers.antt =====
-- dspi.cpp: what `loop` does to produce requests leaves the state of the link alone.
use esphome_dspi.Prelude.{ℕ, refl, arith}
use esphome_dspi.Hub.Transaction.{OnOk, OnFail}
use esphome_dspi.Hub.State.{DspiHub, RtaPhase}
use esphome_dspi.Hub.Requests.{enqueue_get, enqueue_toggle_read}
use esphome_dspi.Hub.Presets.{service_preset_confirm}
use esphome_dspi.Hub.Rta.{
  service_rta, service_phase, service_streaming, enqueue_rta_get, enqueue_rta_set_config,
  rta_next_poll_channel,
}
use esphome_dspi.Hub.Loop.{service_refresh, service_poll, read_toggles, read_fixed}
use esphome_dspi.Hub.Link.Kept.{SameLink}

pub service_refresh-SameLink : (h : DspiHub) (now : ℕ) → SameLink h (service_refresh h now)
unfolding service_refresh read_toggles read_fixed enqueue_toggle_read enqueue_get
service_refresh-SameLink h now = ground arith

pub service_poll-SameLink : (h : DspiHub) (now : ℕ) → SameLink h (service_poll h now)
unfolding service_poll
service_poll-SameLink h now = ground arith

pub service_preset_confirm-SameLink :
    (h : DspiHub) (now : ℕ) → SameLink h (service_preset_confirm h now)
unfolding service_preset_confirm
service_preset_confirm-SameLink h now = ground arith

enqueue_rta_get-SameLink :
    (h : DspiHub) (req wvalue wlen : ℕ) (cb : OnOk) (fail_cb : OnFail) (priority retries : ℕ)
    → SameLink h (enqueue_rta_get h req wvalue wlen cb fail_cb priority retries)
unfolding enqueue_rta_get
enqueue_rta_get-SameLink h req wvalue wlen cb fail_cb priority retries = ground arith

service_streaming-SameLink : (h : DspiHub) (now : ℕ) → SameLink h (service_streaming h now)
unfolding service_streaming rta_next_poll_channel
service_streaming-SameLink h now = grind (arith, enqueue_rta_get-SameLink)

set_config-SameLink : (h : DspiHub) → SameLink h (enqueue_rta_set_config h)
unfolding enqueue_rta_set_config
set_config-SameLink h = ground arith

service_phase-SameLink : (p : RtaPhase) (h : DspiHub) (now : ℕ) → SameLink h (service_phase p h now)
unfolding service_phase
service_phase-SameLink RtaPhase.disabled h now = (refl, refl)
service_phase-SameLink RtaPhase.unsupported h now = (refl, refl)
service_phase-SameLink RtaPhase.need_caps h now = enqueue_rta_get-SameLink h _ _ _ _ _ _ _
service_phase-SameLink RtaPhase.need_centres h now = enqueue_rta_get-SameLink h _ _ _ _ _ _ _
service_phase-SameLink RtaPhase.read_config h now = enqueue_rta_get-SameLink h _ _ _ _ _ _ _
service_phase-SameLink RtaPhase.verify_config h now = enqueue_rta_get-SameLink h _ _ _ _ _ _ _
service_phase-SameLink RtaPhase.set_config h now = set_config-SameLink h
service_phase-SameLink RtaPhase.stopping h now = enqueue_rta_get-SameLink h _ _ _ _ _ _ _
service_phase-SameLink RtaPhase.streaming h now = service_streaming-SameLink h now

pub service_rta-SameLink : (h : DspiHub) (now : ℕ) → SameLink h (service_rta h now)
unfolding service_rta
service_rta-SameLink h now = grind (arith, service_phase-SameLink)
