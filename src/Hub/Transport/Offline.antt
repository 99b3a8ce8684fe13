-- ===== src/Hub/Transport/Offline.antt =====
-- dspi.cpp: what is left when the device is given up.
use esphome_dspi.Prelude.{
  ℕ, suc, ◌<◌, ◌≤◌, ap, ◌∙◌, length, sub32, [], ◌∷◌, false, ◌≡◌, refl, arith, none,
}
use esphome_dspi.Hub.Transaction.{Transaction}
use esphome_dspi.Hub.Queue.{Queue}
use esphome_dspi.Hub.Queue.Refine.{pending}
use esphome_dspi.Hub.State.{DspiHub, HubState}
use esphome_dspi.Hub.Requests.{publish_state}
use esphome_dspi.Hub.Rta.{reset_rta}
use esphome_dspi.Hub.Progress.{Asked, loop-probes}
use esphome_dspi.Hub.Loop.{loop, may_probe, offline_probe_interval_ms}
use esphome_dspi.Hub.Transport.{go_offline, clear_queue}

clear_queue-pending : (key : Transaction) (q : Queue) → pending key (clear_queue q) ≡ none
unfolding clear_queue
clear_queue-pending key [] = refl
clear_queue-pending key (s ∷ q) = clear_queue-pending key q

length-clear_queue : (q : Queue) → length (clear_queue q) ≡ length q
unfolding clear_queue
length-clear_queue [] = refl
length-clear_queue (s ∷ q) = ap suc (length-clear_queue q)

go_offline-link :
    (h : DspiHub)
    → let h' = go_offline h in
      (h'.link.hub_state ≡ HubState.offline)
      × (h'.link.identified ≡ false)
      × (h'.link.last_probe_at ≡ h.clock)
      × (h'.queue ≡ clear_queue h.queue)
unfolding go_offline reset_rta publish_state
go_offline-link h = (ground arith, ground arith, ground arith, ground arith)

go_offline-quiet :
    (h : DspiHub)
    → let h' = go_offline h in
      (h'.rta.busy ≡ false) × (h'.rta.live ≡ false) × (h'.notify.have_seq ≡ false)
unfolding go_offline reset_rta publish_state
go_offline-quiet h = (ground arith, ground arith, ground arith)

-- A hub that gives the device up, and that has a queue: it is offline and no longer takes the device
-- as identified, no request waits, the analyser waits for none and is not live, and the next
-- notification counts as the first; and a pass of `loop` with no byte to read, 5 s or more later,
-- asks the device again: it ends with a frame sent, awaiting the response.
pub go_offline-probes :
    (h : DspiHub) (now : ℕ)
    → 0 < length h.queue
    → offline_probe_interval_ms ≤ sub32 now h.clock
    → let h' = go_offline h in
      (h'.link.hub_state ≡ HubState.offline)
      × (h'.link.identified ≡ false)
      × ((key : Transaction) → pending key h'.queue ≡ none)
      × (h'.rta.busy ≡ false)
      × (h'.rta.live ≡ false)
      × (h'.notify.have_seq ≡ false)
      × Asked (loop h' now []).0
go_offline-probes h now room later =
    let (state, unknown, probed, queue) = go_offline-link h in
    let (free, dead, first) = go_offline-quiet h in
    let none_waits : (key : Transaction) → pending key (go_offline h).queue ≡ none =
      λ key. ap (pending key) queue ∙ clear_queue-pending key h.queue in
    let l = ap length queue ∙ length-clear_queue h.queue in
    (
      state,
      unknown,
      none_waits,
      free,
      dead,
      first,
      loop-probes (go_offline h) now unknown (ap may_probe state)
          (omega (arith, ap (sub32 now) probed, later)) (omega (arith, l, room)),
    )
