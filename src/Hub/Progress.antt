-- ===== src/Hub/Progress.antt =====
-- dspi.cpp: what a pass of `loop` does for what waits.
use esphome_dspi.Prelude.{
  ℕ, zero, suc, ◌≤◌, ◌<◌, ◌≡◌, ◌⊎◌, refl, sym, subst, arith, ap, ◌∙◌, leb, sub32, List, [], ◌∷◌,
  length, set, Bool, true, false, Option, none, some, inl, inr, Option-cases, Bool-cases,
  if◌then◌else◌,
}
use esphome_dspi.Hub.Transaction.{Transaction}
use esphome_dspi.Hub.Queue.{Queue, enqueue, coalesce, place, evict, find_next, find_victim}
use esphome_dspi.Hub.Queue.Next.{IsIdle, Picks, find_next-Picks}
use esphome_dspi.Hub.State.{DspiHub, HubState, Output}
use esphome_dspi.Hub.Requests.{enqueue_get, enqueue_txn}
use esphome_dspi.Hub.Probe.{start_probe}
use esphome_dspi.Hub.Loop.{
  send_next, send_if_idle, is_idle_state, may_probe, offline_probe_interval_ms, reprobe, step_link,
  step_in, loop, frame_of,
}
use esphome_dspi.Hub.Receive.{pump_rx, pump_loop}
use esphome_dspi.Hub.Invariant.Producers.{
  service_refresh-kept, service_poll-kept, service_preset_confirm-kept, service_rta-kept,
}
use esphome_dspi.Hub.Presets.{service_preset_confirm}
use esphome_dspi.Hub.Rta.{service_rta}
use esphome_dspi.Hub.Loop.{service_refresh, service_poll}
use esphome_dspi.Hub.Link.Producers.{
  service_refresh-SameLink, service_poll-SameLink, service_preset_confirm-SameLink,
  service_rta-SameLink,
}

-- Something waits.
abbrev IsBusy : Queue → Type 0
IsBusy [] = ⊥
IsBusy (s ∷ q) = (s.in_use ≡ true) ⊎ IsBusy q

set-IsBusy : (q : Queue) (i : ℕ) (t : Transaction) → t.in_use ≡ true → IsBusy q → IsBusy (set q i t)
set-IsBusy [] i t u b = absurd b
set-IsBusy (s ∷ q) zero t u b = inl u
set-IsBusy (s ∷ q) (suc i) t u (inl v) = inl v
set-IsBusy (s ∷ q) (suc i) t u (inr b) = inr (set-IsBusy q i t u b)

coalesce-IsBusy : (t : Transaction) (q q' : Queue) → coalesce t q ≡ some q' → IsBusy q'
unfolding coalesce
coalesce-IsBusy t [] q' e = cc
coalesce-IsBusy t (s ∷ q) [] e = ground arith
coalesce-IsBusy t (s ∷ q) (s' ∷ q') e = ground (arith, coalesce-IsBusy t q q')

place-IsBusy : (t : Transaction) (q q' : Queue) → place t q ≡ some q' → IsBusy q'
unfolding place
place-IsBusy t [] q' e = cc
place-IsBusy t (s ∷ q) [] e = ground arith
place-IsBusy t (s ∷ q) (s' ∷ q') e = ground (arith, place-IsBusy t q q')

full-IsBusy : (t : Transaction) (q : Queue) → 0 < length q → place t q ≡ none → IsBusy q
unfolding place
full-IsBusy t [] room e = absurd (omega arith)
full-IsBusy t (s ∷ q) room e = ground arith

evict-IsBusy : (t : Transaction) (q : Queue) → IsBusy q → IsBusy (evict t q).queue
unfolding evict
evict-IsBusy t q b = elim (Option-cases (find_victim 0 none q)) [
  | inl e ↦ rw (evict, e) b
  | inr ((i, victim), e) ↦ elim (Bool-cases (leb t.priority victim.priority)) [
    | inl f ↦ rw (evict, e, f) (set-IsBusy q i (record t { in_use = true }) refl b)
    | inr f ↦ rw (evict, e, f) b
  ]
]

enqueue-IsBusy : (t : Transaction) (q : Queue) → 0 < length q → IsBusy (enqueue t q).queue
unfolding enqueue
enqueue-IsBusy t q room = elim (Option-cases (coalesce t q)) [
  | inr (q', e) ↦ rw e (coalesce-IsBusy t q q' e)
  | inl e ↦ elim (Option-cases (place t q)) [
    | inr (q', f) ↦ rw (e, f) (place-IsBusy t q q' f)
    | inl f ↦ rw (e, f) (evict-IsBusy t q (full-IsBusy t q room f))
  ]
]

busy-IsIdle : (q : Queue) → IsBusy q → IsIdle q → ⊥
busy-IsIdle [] b i = absurd b
busy-IsIdle (s ∷ q) (inl u) i = ground arith
busy-IsIdle (s ∷ q) (inr b) i = busy-IsIdle q b i.1

room_of : (q : Queue) → IsBusy q → 0 < length q
room_of [] b = absurd b
room_of (s ∷ q) b = ground arith

keep : (t : Transaction) (q : Queue) → IsBusy q → IsBusy (enqueue t q).queue
keep t q b = enqueue-IsBusy t q (room_of q b)

picked-IsIdle : (q : Queue) (r : Option (ℕ × Transaction)) → Picks 0 q r → r ≡ none → IsIdle q
picked-IsIdle q _ (Picks.idle i) e = i
picked-IsIdle q _ (Picks.picks j slot a u o) e = cc

pub unfound-IsIdle : (q : Queue) → find_next q ≡ none → IsIdle q
unfound-IsIdle q e = picked-IsIdle q (find_next q) (find_next-Picks q) e

-- The front of the queue is sent on an idle link, and the link awaits the answer.
abbrev Sent : DspiHub → DspiHub → Type 0
Sent before h =
    (h.link.hub_state ≡ HubState.await_resp)
    × (h.link.has_current ≡ true)
    × ((frame : List ℕ) × (h.out ≡ Output.tx frame ∷ before.out))

send_next-Sent : (h : DspiHub) → IsBusy h.queue → Sent h (send_next h)
unfolding send_next
send_next-Sent h b = elim (Option-cases (find_next h.queue)) [
  | inl e ↦ absurd (busy-IsIdle h.queue b (unfound-IsIdle h.queue e))
  | inr ((i, t), e) ↦ rw (send_next, e) (refl, refl, (frame_of t, refl))
]

sent_awaits :
    (h : DspiHub) (i : ℕ) (t : Transaction)
    → find_next h.queue ≡ some (i, t)
    → (send_next h).link.hub_state ≡ HubState.await_resp
unfolding send_next
sent_awaits h i t f = rw (send_next, f) refl

pub not_found : (h : DspiHub) → find_next h.queue ≡ none → send_next h ≡ h
unfolding send_next
not_found h f = rw (send_next, f) refl

idle_after :
    (b : Bool) (h : DspiHub)
    → is_idle_state h.link.hub_state ≡ b
    → let h' = if b then send_next h else h in h'.link.hub_state ≡ HubState.idle → IsIdle h'.queue
idle_after true h e s = elim (Option-cases (find_next h.queue)) [
  | inl f ↦ rw (not_found h f) (unfound-IsIdle h.queue f)
  | inr ((i, t), f) ↦ let waits = sent_awaits h i t f in cc
]
idle_after false h e s = let free = ap is_idle_state s in cc

-- The parts of a pass that follow the link, on a queue where something waits.
serviced : DspiHub → ℕ → DspiHub
serviced h now =
    service_rta (service_preset_confirm (service_poll (service_refresh h now) now) now) now

-- When a pass of `loop` leaves the link idle, it leaves no request waiting.
pub loop-leaves_none :
    (h : DspiHub) (now : ℕ) (bytes : List ℕ)
    → (loop h now bytes).0.link.hub_state ≡ HubState.idle
    → IsIdle (loop h now bytes).0.queue
unfolding loop send_if_idle serviced
loop-leaves_none h now bytes s =
    let received = (pump_rx (record h { clock = now }) bytes).0 in
    idle_after _ (serviced (reprobe (step_link received now) now) now) refl s

serviced-IsBusy : (h : DspiHub) (now : ℕ) → IsBusy h.queue → IsBusy (serviced h now).queue
unfolding serviced
serviced-IsBusy h now b = service_rta-kept IsBusy keep _ now (
    service_preset_confirm-kept IsBusy keep _ now
      (service_poll-kept IsBusy keep _ now (service_refresh-kept IsBusy keep h now b)))

serviced-hub_state : (h : DspiHub) (now : ℕ) → (serviced h now).link.hub_state ≡ h.link.hub_state
unfolding serviced
serviced-hub_state h now =
    (service_rta-SameLink _ now).0
    ∙ (service_preset_confirm-SameLink _ now).0
    ∙ (service_poll-SameLink _ now).0
    ∙ (service_refresh-SameLink h now).0

start_probe-idle :
    (h : DspiHub)
    → 0 < length h.queue
    → ((start_probe h).link.hub_state ≡ HubState.idle) × IsBusy (start_probe h).queue
unfolding start_probe enqueue_get enqueue_txn
start_probe-idle h room = (refl, enqueue-IsBusy _ h.queue room)

probe_pass :
    (h : DspiHub) (now : ℕ)
    → h.link.hub_state ≡ HubState.idle
    → IsBusy h.queue
    → Sent (serviced h now) (send_if_idle (serviced h now))
unfolding send_if_idle
probe_pass h now s b =
    let e = serviced-hub_state h now ∙ s in
    simp e (send_next-Sent (serviced h now) (serviced-IsBusy h now b))

-- The last thing done was to send a frame, whose answer is awaited.
abbrev pub Asked : DspiHub → Type 0
Asked h =
    (h.link.hub_state ≡ HubState.await_resp)
    × (h.link.has_current ≡ true)
    × ((frame : List ℕ) × (before : List Output) × (h.out ≡ Output.tx frame ∷ before))

pub no_bytes : (n : ℕ) (h : DspiHub) → (pump_loop n h []).0 ≡ h
unfolding pump_loop
no_bytes zero h = refl
no_bytes (suc n) h = refl

step_in-probeable :
    (s : HubState) (h : DspiHub) (now : ℕ) → may_probe s ≡ true → step_in s h now ≡ h
unfolding step_in
step_in-probeable HubState.idle h now e = refl
step_in-probeable HubState.offline h now e = refl
step_in-probeable HubState.init h now e = cc
step_in-probeable HubState.probing h now e = cc
step_in-probeable HubState.await_resp h now e = cc
step_in-probeable HubState.backoff h now e = cc

reprobe-asks :
    (h : DspiHub) (now : ℕ)
    → h.link.identified ≡ false
    → may_probe h.link.hub_state ≡ true
    → offline_probe_interval_ms ≤ sub32 now h.link.last_probe_at
    → 0 < length h.queue
    → let h' = reprobe (step_link h now) now in
      (h'.link.hub_state ≡ HubState.idle) × IsBusy h'.queue
unfolding step_link reprobe
reprobe-asks h now unknown may due room =
    let e = step_in-probeable h.link.hub_state h now may in
    let d : leb offline_probe_interval_ms (sub32 now h.link.last_probe_at) ≡ true = ground arith in
    simp (e, unknown, may, d) (start_probe-idle h room)

-- A device that is not identified is asked again: on a link that is idle or offline, once 5 s have
-- passed since the last probe, a pass of `loop` with no byte to read sends a request and ends
-- awaiting its response, whatever else waits.
pub loop-probes :
    (h : DspiHub) (now : ℕ)
    → h.link.identified ≡ false
    → may_probe h.link.hub_state ≡ true
    → offline_probe_interval_ms ≤ sub32 now h.link.last_probe_at
    → 0 < length h.queue
    → Asked (loop h now []).0
unfolding loop pump_rx serviced
loop-probes h now unknown may due room =
    let g = record h { clock = now } in
    let p = reprobe-asks g now unknown may due room in
    let q = probe_pass (reprobe (step_link g now) now) now p.0 p.1 in
    subst (λ x. Asked (send_if_idle (serviced (reprobe (step_link x now) now) now)))
      (sym (no_bytes h.config.max_bytes_per_loop g)) (q.0, q.1, (q.2.0, _, q.2.1))
