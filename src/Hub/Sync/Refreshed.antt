-- ===== src/Hub/Sync/Refreshed.antt =====
-- A refresh against a device that answers: the hub's state ends equal to the device's values.
use esphome_dspi.Prelude.{
  ℕ, ◌+◌, ◌≤◌, ◌<◌, ◌≡◌, sym, ap, subst, arith, ◌∙◌, true, false, List, [], length, inl, ◌*◌,
}
use esphome_dspi.Protocol.Toggle.{toggle_mask_count}
use esphome_dspi.Hub.Queue.{queue_depth, queue_free}
use esphome_dspi.Hub.Queue.Distinct.{length-enqueue}
use esphome_dspi.Hub.Queue.Next.{IsIdle}
use esphome_dspi.Hub.State.{DspiHub, HubState, Config}
use esphome_dspi.Hub.Requests.{enqueue_get, enqueue_toggle_read, is_due}
use esphome_dspi.Hub.Loop.{
  loop, step_link, reprobe, service_poll, send_if_idle, service_refresh, read_toggles, read_fixed,
  toggles_to_read,
}
use esphome_dspi.Hub.Invariant.Producers.{service_refresh-kept}
use esphome_dspi.Hub.Link.Producers.{service_refresh-SameLink}
use esphome_dspi.Hub.Refresh.{service_refresh-asks}
use esphome_dspi.Hub.Sync.{
  Reading, read_opcode, Shows, Answers, Responsive, exchanges, Ready, is_quiet, passes,
}
use esphome_dspi.Hub.Sync.Queue.{IsKnown}
use esphome_dspi.Hub.Sync.Noted.{Ready-kept}
use esphome_dspi.Hub.Sync.Passes.{
  FitsPass, passes-exchanges, services-quiet, step_link-idle, reprobe-identified,
}
use esphome_dspi.Hub.Progress.{not_found, no_bytes}
use esphome_dspi.Hub.Receive.{pump_rx}
use esphome_dspi.Hub.Presets.{service_preset_confirm}
use esphome_dspi.Hub.Rta.{service_rta}
use esphome_dspi.Hub.Queue.Next.{idle-find_next}
use esphome_dspi.Hub.Sync.Settles.{later-Ready, exchanges-Settled}
use esphome_dspi.Hub.Sync.Burst.{
  is_asked, asked_reads, service_refresh-IsKnown, service_refresh-left, work-le,
}

-- Enough exchanges for a full queue, each of whose requests may ask for one more.
abbrev pub enough_passes : ℕ
enough_passes = 2 * queue_depth

-- A due refresh on an idle link that finds room for its burst.
pub record IsDue (h : DspiHub) (now : ℕ) : Type 0 where
  pub pending_now : h.refresh.refresh_pending ≡ true
  pub due : is_due now h.refresh.refresh_due_at ≡ true
  pub low : toggles_to_read h.toggles < 65536
  pub room : 5 + toggle_mask_count (toggles_to_read h.toggles) ≤ queue_free h.queue
  pub size : length h.queue ≡ queue_depth

asked-config : (h : DspiHub) (now : ℕ) → (service_refresh h now).config ≡ h.config
unfolding service_refresh read_toggles read_fixed enqueue_toggle_read enqueue_get
asked-config h now = ground arith

abbrev pub started : DspiHub → DspiHub
started h = record h { refresh = record (h.refresh) { refresh_pending = false } }

asked-quiet :
    (h : DspiHub) (now : ℕ)
    → is_quiet (started h) ≡ true
    → (service_refresh h now).refresh.refresh_pending ≡ false
    → is_quiet (service_refresh h now) ≡ true
unfolding service_refresh read_toggles read_fixed enqueue_toggle_read enqueue_get
asked-quiet h now q e = ground arith

asked-Ready : (h : DspiHub) (now : ℕ) → Ready h → Ready (service_refresh h now)
asked-Ready h now r =
    let (parser, claim, state) = service_refresh-left h now in
    Ready-kept h (service_refresh h now) (service_refresh-SameLink h now) parser claim r

asked-length :
    (h : DspiHub) (now : ℕ)
    → length h.queue ≡ queue_depth
    → length (service_refresh h now).queue ≡ queue_depth
asked-length h now =
    service_refresh-kept (λ q. length q ≡ queue_depth) (λ t q e. length-enqueue t q ∙ e) h now

-- The exchanges that follow a due refresh.
asked-Shows :
    (dev : Answers) (h : DspiHub) (now : ℕ) (times : List ℕ)
    → Responsive dev
    → Ready h
    → IsKnown h.queue
    → IsDue h now
    → enough_passes ≤ length times
    → let h' = exchanges dev times (service_refresh h now) in
      Ready h'
      × IsIdle h'.queue
      × ((r : Reading) → is_asked h r ≡ true → Shows h'.state r (dev (read_opcode r)))
asked-Shows dev h now times d r k due l =
    let asked = service_refresh h now in
    let waits = (service_refresh-asks h now due.low due.pending_now due.due due.room).0 in
    let s =
      exchanges-Settled times dev asked d (asked-Ready h now r) (service_refresh-IsKnown h now k)
        (omega (arith, work-le asked.queue, asked-length h now due.size)) in
    (s.ready, s.nothing_waits, λ o e. s.shows o (inl (asked_reads h asked.queue waits o e)))

-- The pass in which the refresh is due sends the first request of its burst.
first_pass :
    (h : DspiHub) (now : ℕ)
    → Ready h
    → is_quiet (started h) ≡ true
    → (service_refresh (record h { clock = now }) now).refresh.refresh_pending ≡ false
    → (loop h now []).0 ≡ send_if_idle (service_refresh (record h { clock = now }) now)
unfolding loop pump_rx
first_pass h now r q e =
    let g = record h { clock = now } in
    let rest : DspiHub → DspiHub =
      λ x. send_if_idle (service_rta (service_preset_confirm (service_poll x now) now) now) in
    ap (λ x. rest (service_refresh (reprobe (step_link x now) now) now))
      (no_bytes h.config.max_bytes_per_loop g)
    ∙ ap (λ x. rest (service_refresh (reprobe x now) now)) (step_link-idle g now r.idle)
    ∙ ap (λ x. rest (service_refresh x now)) (reprobe_none g now q)
    ∙ ap send_if_idle (services-quiet (service_refresh g now) now (asked-quiet g now q e))
  where
    reprobe_none : (h : DspiHub) (now : ℕ) → is_quiet (started h) ≡ true → reprobe h now ≡ h
    reprobe_none h now q = reprobe-identified h now (ground arith)

-- Nothing is sent when nothing waits.
pub idle_sends_none : (h : DspiHub) → IsIdle h.queue → Ready h → send_if_idle h ≡ h
unfolding send_if_idle
idle_sends_none h i r = simp r.idle (not_found h (idle-find_next h.queue i))

-- A refresh that is due and finds room, on an idle link to a device that answers every request, keeps
-- its values and answers with frames that fit the byte budget of a pass, when nothing but known
-- requests waits and nothing else makes the hub ask, as the device is identified, nothing is polled,
-- no preset is being confirmed and no analyser is configured: the
-- pass of `loop` in which it is due and at least 24 more, at any times, each over the device's
-- answer to what the pass before sent, end with an idle link and nothing waiting, and with a state
-- that shows, marked as valid, what the device answers for each of the five fixed readings and for
-- each toggle that is to be read.
pub passes-Shows :
    (dev : Answers) (h : DspiHub) (now : ℕ) (times : List ℕ)
    → Responsive dev
    → Ready h
    → IsKnown h.queue
    → IsDue h now
    → is_quiet (started h) ≡ true
    → FitsPass dev h
    → enough_passes ≤ length times
    → let h' = passes dev times (loop h now []).0 in
      (h'.link.hub_state ≡ HubState.idle)
      × IsIdle h'.queue
      × ((r : Reading) → is_asked h r ≡ true → Shows h'.state r (dev (read_opcode r)))
passes-Shows dev h now times d r k due q fits l =
    let g = record h { clock = now } in
    let asked = service_refresh g now in
    let r' = later-Ready h now r in
    let here : IsDue g now = record {
      pending_now = due.pending_now;
      due = due.due;
      low = due.low;
      room = due.room;
      size = due.size;
    } in
    let none = (service_refresh-asks g now due.low due.pending_now due.due due.room).1 in
    let s = asked-Shows dev g now times d r' k here l in
    let c = ap (λ (x : Config). x.max_bytes_per_loop) (asked-config g now) in
    let e =
      ap (passes dev times) (first_pass h now r q none)
      ∙ passes-exchanges times dev asked d (asked-Ready g now r') (service_refresh-IsKnown g now k)
          (asked-quiet g now q none) (λ op. omega (arith, fits op, c))
      ∙ idle_sends_none (exchanges dev times asked) s.1 s.0 in
    subst
      (λ (x : DspiHub).
        (x.link.hub_state ≡ HubState.idle)
        × IsIdle x.queue
        × ((r : Reading) → is_asked h r ≡ true → Shows x.state r (dev (read_opcode r))))
      (sym e) (s.0.idle, s.1, s.2)
