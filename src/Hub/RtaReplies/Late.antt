-- ===== src/Hub/RtaReplies/Late.antt =====
-- dspi.cpp: replies that arrive after the analyser was disabled or retargeted.
use esphome_dspi.Prelude.{
  ℕ, Bool, ◌<◌, ◌≡◌, ◌⊎◌, inl, inr, refl, arith, ap, ap₂, subst, sym, ◌∙◌, ◌+◌, u32, List, true,
  false, ◌==◌, some, Bool-cases,
}
use esphome_dspi.Protocol.Opcode.{Opcode, opcode}
use esphome_dspi.Protocol.Rta.{
  RtaConfig, RtaBandFrame, rta_config_len, rta_parse_config, rta_parse_band_frame,
}
use esphome_dspi.Hub.Transaction.{Transaction, OnOk, OnFail, retries_default}
use esphome_dspi.Hub.Queue.{Queue, queue_free, enqueue, same_request}
use esphome_dspi.Hub.State.{DspiHub, RtaPhase, HubState}
use esphome_dspi.Hub.Requests.{enqueue_txn, get_request, is_due}
use esphome_dspi.Hub.Rta.{rta_advance, set_rta_tap, service_rta, service_phase, enqueue_rta_get}
use esphome_dspi.Hub.RtaReplies.{on_rta_config, on_rta_bands, is_stale, config_matches}
use esphome_dspi.Hub.Queue.Refine.{pending, pending-enqueue}
use esphome_dspi.Hub.RtaReplies.Asked.{waits_by}

late_config :
    (h : DspiHub) (b : List ℕ) (n : ℕ) (cfg : RtaConfig)
    → h.rta.phase ≡ RtaPhase.disabled
    → rta_parse_config b n ≡ some cfg
    → let r = (on_rta_config h b n).rta in
      (r.enabled ≡ h.rta.enabled)
      × ((r.phase ≡ RtaPhase.streaming) ⊎ (r.phase ≡ RtaPhase.set_config))
unfolding on_rta_config
late_config h b n cfg p e = elim (Bool-cases (config_matches cfg h.rta.cfg_desired)) [
  | inl ok ↦ simp (p, e, ok) (refl, inl refl)
  | inr differs ↦ simp (p, e, differs) (refl, inr refl)
]

late_frame :
    (h : DspiHub) (b : List ℕ) (n : ℕ) (frame : RtaBandFrame)
    → h.rta.live ≡ false
    → rta_parse_band_frame b n ≡ some frame
    → (frame.n_bands == 0) ≡ false
    → is_stale frame h.config.rta_stale_ms ≡ false
    → let r = (on_rta_bands h b n).rta in (r.enabled ≡ h.rta.enabled) × (r.live ≡ true)
unfolding on_rta_bands
late_frame h b n frame dead e bands fresh = ground arith

-- The handlers of replies do not look at whether the analyser is enabled. A configuration that
-- arrives after it was disabled still leads to streaming or to writing the configuration, and a
-- fresh band frame that is not a repetition still makes the analyser live.
pub disabled-revived :
    (h : DspiHub) (b : List ℕ) (n : ℕ) (cfg : RtaConfig) (frame : RtaBandFrame) (b' : List ℕ)
    (n' : ℕ)
    → h.rta.enabled ≡ false
    → h.rta.phase ≡ RtaPhase.disabled
    → h.rta.live ≡ false
    → rta_parse_config b n ≡ some cfg
    → rta_parse_band_frame b' n' ≡ some frame
    → (frame.n_bands == 0) ≡ false
    → is_stale frame h.config.rta_stale_ms ≡ false
    → let configured = (on_rta_config h b n).rta in
      let polled = (on_rta_bands h b' n').rta in
      (configured.enabled ≡ false)
      × ((configured.phase ≡ RtaPhase.streaming) ⊎ (configured.phase ≡ RtaPhase.set_config))
      × (polled.enabled ≡ false)
      × (polled.live ≡ true)
disabled-revived h b n cfg frame b' n' off dis dead e f some_bands fresh =
    let c = late_config h b n cfg dis e in
    let p = late_frame h b' n' frame dead f some_bands fresh in (c.0 ∙ off, c.1, p.0 ∙ off, p.1)

abbrev pub config_read : DspiHub → Transaction
config_read h =
    record (get_request h (opcode Opcode.rta_get_config) rta_config_len OnOk.on_rta_config 1 0
      OnFail.on_rta_setup_failed) { max_retries = retries_default }

enqueue_rta_get-queue :
    (h : DspiHub) (req wvalue wlen : ℕ) (cb : OnOk) (fail : OnFail) (priority retries : ℕ)
    → (enqueue_rta_get h req wvalue wlen cb fail priority retries).queue
      ≡ (enqueue
          (record (get_request h req wlen cb priority wvalue fail) { max_retries = retries })
          h.queue).queue
unfolding enqueue_rta_get enqueue_txn
enqueue_rta_get-queue h req wvalue wlen cb fail priority retries = ground arith

service_rta-reads :
    (h : DspiHub) (now : ℕ)
    → h.config.rta_configured ≡ true
    → h.rta.busy ≡ false
    → h.link.identified ≡ true
    → h.link.hub_state ≡ HubState.await_resp
    → is_due now h.rta.next_due ≡ true
    → h.rta.phase ≡ RtaPhase.read_config
    → (service_rta h now).queue ≡ (enqueue (config_read h) h.queue).queue
unfolding service_rta service_phase
service_rta-reads h now on free known waits due reading =
    simp (on, free, known, waits, due, reading)
      (enqueue_rta_get-queue h (opcode Opcode.rta_get_config) 0 rta_config_len OnOk.on_rta_config
        OnFail.on_rta_setup_failed 1 retries_default)

retargeted :
    (h : DspiHub) (tap : ℕ)
    → h.rta.enabled ≡ true
    → h.rta.phase ≡ RtaPhase.streaming
    → (h.rta.cfg_desired.tap == tap) ≡ false
    → let h' = set_rta_tap h tap in
      (h'.rta.busy ≡ false)
      × (h'.rta.phase ≡ RtaPhase.read_config)
      × (h'.rta.next_due ≡ u32 (h.clock + 0))
      × (h'.config ≡ h.config)
      × (h'.link ≡ h.link)
      × (h'.queue ≡ h.queue)
unfolding set_rta_tap rta_advance
retargeted h tap enabled streaming differs =
    simp (enabled, streaming, differs) (refl, refl, refl, refl, refl, refl)

-- The handlers of the analyser's replies.
abbrev pub is_of_analyser : OnOk → Bool
is_of_analyser OnOk.on_rta_caps = true
is_of_analyser OnOk.on_rta_centres = true
is_of_analyser OnOk.on_rta_config = true
is_of_analyser OnOk.on_rta_bands = true
is_of_analyser OnOk.on_rta_status = true
is_of_analyser OnOk.on_rta_control = true
is_of_analyser _ = false

-- A request waits under the identity of `key`, and its answer goes to the analyser.
abbrev pub AwaitsAnalyser : Transaction → Queue → Type 0
AwaitsAnalyser key q =
    (t : Transaction) × (pending key q ≡ some t) × (is_of_analyser t.on_ok ≡ true)

-- What waits under another identity stays as it is.
enqueue-AwaitsAnalyser :
    (key t : Transaction) (q : Queue)
    → 0 < queue_free q
    → same_request t key ≡ false
    → AwaitsAnalyser key q
    → AwaitsAnalyser key (enqueue t q).queue
enqueue-AwaitsAnalyser key t q room other (s, e, by) =
    let p = (pending-enqueue key t q room).3 in (s, simp other at p ∙ e, by)

-- A request of the analyser, other than the read of its configuration, waits while the analyser
-- streams, and the tap is changed: the next pass of the state machine, with the link awaiting a
-- response and a slot free, puts the read of the configuration beside it. Two different requests
-- then wait of which the answers go to the analyser, although the state machine means to own one
-- at most.
pub set_rta_tap-second :
    (h : DspiHub) (tap : ℕ) (key : Transaction)
    → h.config.rta_configured ≡ true
    → h.link.identified ≡ true
    → h.link.hub_state ≡ HubState.await_resp
    → h.rta.enabled ≡ true
    → h.rta.phase ≡ RtaPhase.streaming
    → h.rta.busy ≡ true
    → (h.rta.cfg_desired.tap == tap) ≡ false
    → h.clock < 4294967296
    → 0 < queue_free h.queue
    → same_request (config_read h) key ≡ false
    → AwaitsAnalyser key h.queue
    → let h' = service_rta (set_rta_tap h tap) h.clock in
      AwaitsAnalyser (config_read h) h'.queue × AwaitsAnalyser key h'.queue
set_rta_tap-second h tap key on known waits enabled streaming busy differs small room other p =
    let due : is_due h.clock (u32 (h.clock + 0)) ≡ true = ground arith in
    let t = config_read h in
    let r = retargeted h tap enabled streaming differs in
    let (free, reading, now_due, config, link, queue) = r in
    let q =
      service_rta-reads (set_rta_tap h tap) h.clock (ap (λ c. c.rta_configured) config ∙ on) free
        (ap (λ l. l.identified) link ∙ known) (ap (λ l. l.hub_state) link ∙ waits)
        (ap (is_due h.clock) now_due ∙ due) reading in
    let same =
      q ∙ ap₂ (λ c x. (enqueue (config_read (record h { config = c })) x).queue) config queue in
    let (s, e, by) = waits_by t h.queue room in
    (
      subst (AwaitsAnalyser t) (sym same) (s, e, ap is_of_analyser by),
      subst (AwaitsAnalyser key) (sym same) (enqueue-AwaitsAnalyser key t h.queue room other p),
    )
