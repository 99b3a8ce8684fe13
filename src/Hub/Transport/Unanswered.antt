-- ===== src/Hub/Transport/Unanswered.antt =====
-- dspi.cpp: the passes of `loop` over a request that no one answers.
pub mod GivesUp
use esphome_dspi.Prelude.{
  ℕ, suc, ◌+◌, ◌≤◌, ◌<◌, ◌≡◌, refl, subst, arith, ap, ◌∙◌, [], ◌∷◌, List, Bool, true, false, leb,
  sub32, u32,
}
use esphome_dspi.Hub.Transaction.{Transaction}
use esphome_dspi.Hub.Queue.{Queue, enqueue, find_next}
use esphome_dspi.Hub.Queue.Next.{IsIdle}
use esphome_dspi.Hub.State.{DspiHub, HubState, Output}
use esphome_dspi.Hub.Requests.{is_due}
use esphome_dspi.Hub.Transport.{retry_or_drop, retry_limit}
use esphome_dspi.Hub.Transport.Budget.{retry_or_drop-retries}
use esphome_dspi.Hub.Transport.Silent.{
  Trying, budget_of, nonempty, enqueue-idle, find_next-alone, send_found, sent-Trying,
  retry_or_drop-same,
}
use esphome_dspi.Hub.Loop.{loop, step_link, step_in, is_idle_state, send_if_idle, frame_of}
use esphome_dspi.Hub.Probe.{set_hub_state}
use esphome_dspi.Hub.Sync.{is_quiet}
use esphome_dspi.Hub.Sync.Passes.{quiet_pass}

-- The time for an answer is over.
abbrev pub is_timed_out : DspiHub → ℕ → Bool
is_timed_out h now = leb h.link.current.timeout_ms (sub32 now h.link.sent_at)

-- What a run of passes waits for: the answer to the request in flight, or the end of the delay.
pub data Phase : Type 0 where
  in_flight delayed : Phase

-- Passes of `loop` in which no byte arrives, from a hub in a phase to one that awaits the answer,
-- during which the time for it was over `n` times.
pub data Unanswered : Phase → ℕ → DspiHub → DspiHub → Type 0 where
  here : (h : DspiHub) → Unanswered Phase.in_flight 0 h h
  awaits :
      (n : ℕ) (h h' : DspiHub) (now : ℕ)
      → is_timed_out h now ≡ false
      → Unanswered Phase.in_flight n (loop h now []).0 h'
      → Unanswered Phase.in_flight n h h'
  times_out :
      (n : ℕ) (h h' : DspiHub) (now : ℕ)
      → is_timed_out h now ≡ true
      → Unanswered Phase.delayed n (loop h now []).0 h'
      → Unanswered Phase.in_flight (suc n) h h'
  delays :
      (n : ℕ) (h h' : DspiHub) (now : ℕ)
      → is_due now h.link.backoff_until ≡ false
      → Unanswered Phase.delayed n (loop h now []).0 h'
      → Unanswered Phase.delayed n h h'
  resends :
      (n : ℕ) (h h' : DspiHub) (now : ℕ)
      → is_due now h.link.backoff_until ≡ true
      → Unanswered Phase.in_flight n (loop h now []).0 h'
      → Unanswered Phase.delayed n h h'

-- The one request of which the frame is `f`, in flight after `n` tries before.
pub record InFlight (f : List ℕ) (n limit : ℕ) (h : DspiHub) : Type 0 where
  pub trying : Trying n limit h
  pub frame : frame_of h.link.current ≡ f
  pub quiet : is_quiet h ≡ true

-- The same request back in the queue, while the hub waits out a delay.
pub record Delayed (f : List ℕ) (n limit : ℕ) (h : DspiHub) : Type 0 where
  pub backoff : h.link.hub_state ≡ HubState.backoff
  pub txn : Transaction
  pub rest : Queue
  pub queued : h.queue ≡ record txn { in_use = true } ∷ rest
  pub alone : IsIdle rest
  pub tried : txn.attempts ≡ n
  pub budget : retry_limit h txn ≡ limit
  pub frame : frame_of txn ≡ f
  pub quiet : is_quiet h ≡ true

step_awaiting :
    (h : DspiHub) (now : ℕ)
    → h.link.hub_state ≡ HubState.await_resp
    → is_timed_out h now ≡ false
    → step_link h now ≡ h
unfolding step_link step_in
step_awaiting h now s e = simp (s, e) refl

abbrev pub counted_timeout : DspiHub → DspiHub
counted_timeout h = record h {
  diag = record (h.diag) { txn_timeouts = u32 (h.diag.txn_timeouts + 1) };
}

pub step_timed_out :
    (h : DspiHub) (now : ℕ)
    → h.link.hub_state ≡ HubState.await_resp
    → is_timed_out h now ≡ true
    → step_link h now ≡ retry_or_drop (counted_timeout h)
unfolding step_link step_in
step_timed_out h now s e = simp (s, e) refl

step_delayed :
    (h : DspiHub) (now : ℕ)
    → h.link.hub_state ≡ HubState.backoff
    → is_due now h.link.backoff_until ≡ false
    → step_link h now ≡ h
unfolding step_link step_in
step_delayed h now s e = simp (s, e) refl

step_due :
    (h : DspiHub) (now : ℕ)
    → h.link.hub_state ≡ HubState.backoff
    → is_due now h.link.backoff_until ≡ true
    → step_link h now ≡ set_hub_state h HubState.idle
unfolding step_link step_in
step_due h now s e = simp (s, e) refl

unsent_in :
    (h : DspiHub) (s : HubState)
    → h.link.hub_state ≡ s
    → is_idle_state s ≡ false
    → send_if_idle h ≡ h
unfolding send_if_idle
unsent_in h s e b = simp (e, b) refl

-- A pass before the time is over leaves all but the clock as it is.
pub pass_awaiting :
    (h : DspiHub) (now : ℕ)
    → h.link.hub_state ≡ HubState.await_resp
    → is_quiet h ≡ true
    → is_timed_out h now ≡ false
    → (loop h now []).0 ≡ record h { clock = now }
pass_awaiting h now s q e =
    let g = record h { clock = now } in
    quiet_pass h g now (step_awaiting g now s e) q ∙ unsent_in g HubState.await_resp s refl

pub pass_delayed :
    (h : DspiHub) (now : ℕ)
    → h.link.hub_state ≡ HubState.backoff
    → is_quiet h ≡ true
    → is_due now h.link.backoff_until ≡ false
    → (loop h now []).0 ≡ record h { clock = now }
pass_delayed h now s q e =
    let g = record h { clock = now } in
    quiet_pass h g now (step_delayed g now s e) q ∙ unsent_in g HubState.backoff s refl

pub later-InFlight :
    (f : List ℕ) (n limit : ℕ) (h : DspiHub) (now : ℕ)
    → InFlight f n limit h
    → InFlight f n limit (record h { clock = now })
later-InFlight f n limit h now i = record {
  trying = record {
    waits = i.trying.waits;
    in_flight = i.trying.in_flight;
    tried = i.trying.tried;
    budget = i.trying.budget;
    alone = i.trying.alone;
    room = i.trying.room;
  };
  frame = i.frame;
  quiet = i.quiet;
}

pub later-Delayed :
    (f : List ℕ) (n limit : ℕ) (h : DspiHub) (now : ℕ)
    → Delayed f n limit h
    → Delayed f n limit (record h { clock = now })
later-Delayed f n limit h now d = record {
  backoff = d.backoff;
  txn = d.txn;
  rest = d.rest;
  queued = d.queued;
  alone = d.alone;
  tried = d.tried;
  budget = d.budget;
  frame = d.frame;
  quiet = d.quiet;
}

-- The pass in which the time is over puts the request back, while its budget lasts.
pub pass_timed_out :
    (f : List ℕ) (n limit : ℕ) (h : DspiHub) (now : ℕ)
    → n < limit
    → limit ≤ 255
    → InFlight f n limit h
    → is_timed_out h now ≡ true
    → let h' = (loop h now []).0 in Delayed f (n + 1) limit h' × (h'.out ≡ h.out)
pass_timed_out f n limit h now more small i e =
    let t = i.trying in
    let g = counted_timeout (record h { clock = now }) in
    let tried = t.tried in
    let budget = t.budget in
    let left : g.link.current.attempts < retry_limit g g.link.current = ground arith in
    let low : g.link.current.attempts < 255 = ground arith in
    let again = record (h.link.current) { attempts = h.link.current.attempts + 1 } in
    let (s, q, queue) = nonempty h.queue t.room in
    let idle = subst IsIdle queue t.alone in
    let (state, _, put) = retry_or_drop-retries g t.in_flight left low in
    let (config, out, same) = retry_or_drop-same g t.in_flight left low in
    let h' = retry_or_drop g in
    let quiet : is_quiet h' ≡ true = same ∙ i.quiet in
    let p =
      quiet_pass h h' now (step_timed_out (record h { clock = now }) now t.waits e) quiet
      ∙ unsent_in h' HubState.backoff state refl in
    rw p (
      record {
        backoff = state;
        txn = again;
        rest = q;
        queued = put ∙ ap (λ x. (enqueue again x).queue) queue ∙ enqueue-idle again s q idle;
        alone = idle.1;
        tried = omega (arith, tried);
        budget = ap (budget_of again) config ∙ budget;
        frame = i.frame;
        quiet = quiet;
      },
      out,
    )

-- The pass in which the delay is over sends the request again.
pub pass_due :
    (f : List ℕ) (n limit : ℕ) (h : DspiHub) (now : ℕ)
    → Delayed f n limit h
    → is_due now h.link.backoff_until ≡ true
    → let h' = (loop h now []).0 in InFlight f n limit h' × (h'.out ≡ Output.tx f ∷ h.out)
unfolding send_if_idle
pass_due f n limit h now d e =
    let g = set_hub_state (record h { clock = now }) HubState.idle in
    let u = record (d.txn) { in_use = true } in
    let p = quiet_pass h g now (step_due (record h { clock = now }) now d.backoff e) d.quiet in
    let s = send_found g u (ap find_next d.queued ∙ find_next-alone u d.rest refl d.alone) in
    let t = sent-Trying n limit g d.txn d.rest d.queued d.alone d.tried d.budget in
    rw p (
      record { trying = t; frame = rw s d.frame; quiet = rw s d.quiet },
      rw s (ap (λ x. Output.tx x ∷ h.out) d.frame),
    )
