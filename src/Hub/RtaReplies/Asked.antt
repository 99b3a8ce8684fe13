-- ===== src/Hub/RtaReplies/Asked.antt =====
-- dspi.cpp: the request that each phase of the analyser puts into the queue, and its handler.
use esphome_dspi.Prelude.{ℕ, ◌<◌, ◌≡◌, refl, arith, true, some, none, inl, inr, Option-cases}
use esphome_dspi.Hub.Transaction.{Transaction, OnOk}
use esphome_dspi.Hub.Queue.{Queue, enqueue, queue_free, same_request}
use esphome_dspi.Hub.Queue.Refine.{pending, folded, pending-enqueue}
use esphome_dspi.Hub.State.{DspiHub, RtaPhase}
use esphome_dspi.Hub.Requests.{enqueue_txn}
use esphome_dspi.Hub.Rta.{service_phase, enqueue_rta_get, enqueue_rta_set_config, rta_offer}

-- Who handles what `service_rta_` asks for in the phase.
abbrev pub phase_handler : RtaPhase → OnOk
phase_handler RtaPhase.need_caps = OnOk.on_rta_caps
phase_handler RtaPhase.need_centres = OnOk.on_rta_centres
phase_handler RtaPhase.read_config = OnOk.on_rta_config
phase_handler RtaPhase.set_config = OnOk.on_rta_config
phase_handler RtaPhase.verify_config = OnOk.on_rta_config
phase_handler RtaPhase.stopping = OnOk.on_rta_control
phase_handler _ = OnOk.no_handler

-- A request of which the answer goes to `cb` waits, and the analyser is busy until then.
abbrev pub AwaitsBy : OnOk → DspiHub → Type 0
AwaitsBy cb h =
    (h.rta.busy ≡ true) × ((key t : Transaction) × (pending key h.queue ≡ some t) × (t.on_ok ≡ cb))

-- What was just put in waits, with its handler.
pub waits_by :
    (t : Transaction) (q : Queue)
    → 0 < queue_free q
    → (s : Transaction) × (pending t (enqueue t q).queue ≡ some s) × (s.on_ok ≡ t.on_ok)
waits_by t q room =
    let p = (pending-enqueue t t q room).3 in
    let same : same_request t t ≡ true = ground arith in
    elim (Option-cases (pending t q)) [
      | inl e ↦ (folded none t, simp (same, e) at p, refl)
      | inr (s, e) ↦ (folded (some s) t, simp (same, e) at p, refl)
    ]

offer-AwaitsBy :
    (h : DspiHub) (t : Transaction) → 0 < queue_free h.queue → AwaitsBy t.on_ok (rta_offer h t)
unfolding enqueue_txn
offer-AwaitsBy h t room =
    let a = (pending-enqueue t t h.queue room).0 in
    let (s, waits, by) = waits_by t h.queue room in simp a (refl, (t, s, waits, by))

-- While a slot is free, each phase that asks for anything but frames leaves a request waiting, of
-- which the answer goes to the handler of the phase.
pub service_phase-AwaitsBy :
    (p : RtaPhase) (h : DspiHub) (now : ℕ)
    → 0 < queue_free h.queue
    → (p ≡ RtaPhase.disabled → ⊥)
    → (p ≡ RtaPhase.unsupported → ⊥)
    → (p ≡ RtaPhase.streaming → ⊥)
    → AwaitsBy (phase_handler p) (service_phase p h now)
unfolding service_phase enqueue_rta_get enqueue_rta_set_config
service_phase-AwaitsBy RtaPhase.need_caps h now room d u s = offer-AwaitsBy h _ room
service_phase-AwaitsBy RtaPhase.need_centres h now room d u s = offer-AwaitsBy h _ room
service_phase-AwaitsBy RtaPhase.read_config h now room d u s = offer-AwaitsBy h _ room
service_phase-AwaitsBy RtaPhase.set_config h now room d u s = offer-AwaitsBy h _ room
service_phase-AwaitsBy RtaPhase.verify_config h now room d u s = offer-AwaitsBy h _ room
service_phase-AwaitsBy RtaPhase.stopping h now room d u s = offer-AwaitsBy h _ room
service_phase-AwaitsBy RtaPhase.disabled h now room d u s = absurd (d refl)
service_phase-AwaitsBy RtaPhase.unsupported h now room d u s = absurd (u refl)
service_phase-AwaitsBy RtaPhase.streaming h now room d u s = absurd (s refl)
