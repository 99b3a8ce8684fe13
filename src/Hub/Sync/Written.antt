-- ===== src/Hub/Sync/Written.antt =====
-- A write that waits alone while a refresh is pending but not due: the pass that sends it, and the
-- pass over the device's acknowledgement.
use esphome_dspi.Prelude.{ℕ, ◌≡◌, refl, sym, ap, subst, arith, ◌∙◌, true, false, [], ◌∷◌, length}
use esphome_dspi.Hub.Transaction.{Transaction, OnOk}
use esphome_dspi.Hub.Queue.{Queue, find_next, queue_free}
use esphome_dspi.Hub.Queue.Next.{IsIdle}
use esphome_dspi.Hub.State.{DspiHub, Refresh}
use esphome_dspi.Hub.Requests.{is_due}
use esphome_dspi.Hub.Receive.{pump_rx}
use esphome_dspi.Hub.Presets.{service_preset_confirm}
use esphome_dspi.Hub.Rta.{service_rta}
use esphome_dspi.Hub.Transport.{run_ok}
use esphome_dspi.Hub.Transport.Silent.{find_next-alone}
use esphome_dspi.Hub.Loop.{loop, reprobe, service_refresh, service_poll, send_if_idle}
use esphome_dspi.Hub.Progress.{no_bytes}
use esphome_dspi.Hub.Sync.{Answers, Responsive, answer_bytes, exchange, Ready, is_quiet}
use esphome_dspi.Hub.Sync.Queue.{IsKnown, IsKnownSlot}
use esphome_dspi.Hub.Sync.Exchange.{settled, exchange-Answered}
use esphome_dspi.Hub.Sync.Passes.{
  FitsPass, after_bytes, step_link-idle, reprobe-identified, received,
}
use esphome_dspi.Hub.Sync.Refreshed.{started, idle_sends_none}

pub IsIdle-IsKnown : (q : Queue) → IsIdle q → IsKnown q
unfolding IsKnownSlot
IsIdle-IsKnown [] i = tt
IsIdle-IsKnown (s ∷ q) i = ((λ used. let unused = i.0 in cc), IsIdle-IsKnown q i.1)

-- All of an idle queue is free.
pub idle-queue_free : (q : Queue) → IsIdle q → queue_free q ≡ length q
unfolding queue_free
idle-queue_free [] i = refl
idle-queue_free (s ∷ q) i = ground (arith, idle-queue_free q i.1)

reprobe_not : (h : DspiHub) (now : ℕ) → is_quiet (started h) ≡ true → reprobe h now ≡ h
reprobe_not h now q = reprobe-identified h now (ground arith)

refresh_not :
    (h : DspiHub) (now : ℕ)
    → is_due now h.refresh.refresh_due_at ≡ false
    → service_refresh h now ≡ h
unfolding service_refresh
refresh_not h now e = ground arith

poll_not : (h : DspiHub) (now : ℕ) → is_quiet (started h) ≡ true → service_poll h now ≡ h
unfolding service_poll
poll_not h now q = ground arith

confirm_not :
    (h : DspiHub) (now : ℕ) → is_quiet (started h) ≡ true → service_preset_confirm h now ≡ h
unfolding service_preset_confirm
confirm_not h now q = let e : h.preset.confirm_pending ≡ false = ground arith in simp e refl

rta_not : (h : DspiHub) (now : ℕ) → is_quiet (started h) ≡ true → service_rta h now ≡ h
unfolding service_rta
rta_not h now q = let e : h.config.rta_configured ≡ false = ground arith in simp e refl

-- After the bytes, a pass on an idle link before the refresh is due only sends.
after_bytes-not_due :
    (h : DspiHub) (now : ℕ)
    → Ready h
    → is_quiet (started h) ≡ true
    → is_due now h.refresh.refresh_due_at ≡ false
    → after_bytes h now ≡ send_if_idle h
after_bytes-not_due h now r q e =
    let polled : DspiHub → DspiHub =
      λ x. send_if_idle (service_rta (service_preset_confirm (service_poll x now) now) now) in
    ap (λ x. polled (service_refresh (reprobe x now) now)) (step_link-idle h now r.idle)
    ∙ ap (λ x. polled (service_refresh x now)) (reprobe_not h now q)
    ∙ ap polled (refresh_not h now e)
    ∙ ap (λ x. send_if_idle (service_rta (service_preset_confirm x now) now)) (poll_not h now q)
    ∙ ap (λ x. send_if_idle (service_rta x now)) (confirm_not h now q)
    ∙ ap send_if_idle (rta_not h now q)

-- The pass that sends what waits.
pub sending_pass :
    (h : DspiHub) (now : ℕ)
    → Ready h
    → is_quiet (started h) ≡ true
    → is_due now h.refresh.refresh_due_at ≡ false
    → (loop h now []).0 ≡ send_if_idle (record h { clock = now })
unfolding loop pump_rx
sending_pass h now r q e =
    let g = record h { clock = now } in
    let ready : Ready g = record {
      idle = r.idle;
      none_asked = r.none_asked;
      at_rest = r.at_rest;
      parser_valid = r.parser_valid;
      claimed = r.claimed;
    } in
    ap (λ x. after_bytes x now) (no_bytes h.config.max_bytes_per_loop g)
    ∙ after_bytes-not_due g now ready q e

-- The hub after a write was acknowledged: nothing waits, and the refresh is as it was.
pub record Acknowledged (h h' : DspiHub) : Type 0 where
  pub ready : Ready h'
  pub nothing_waits : IsIdle h'.queue
  pub size : length h'.queue ≡ length h.queue
  pub refresh : h'.refresh ≡ h.refresh
  pub toggles : h'.toggles ≡ h.toggles
  pub config : h'.config ≡ h.config
  pub quiet : is_quiet (started h') ≡ is_quiet (started h)

exchange-Acknowledged :
    (dev : Answers) (now : ℕ) (h : DspiHub) (w : Transaction) (q : Queue)
    → Responsive dev
    → Ready h
    → h.queue ≡ record w { in_use = true } ∷ q
    → IsIdle q
    → w.on_ok ≡ OnOk.no_handler
    → Acknowledged h (exchange dev now h)
unfolding run_ok
exchange-Acknowledged dev now h w q d r e i none =
    let u = record w { in_use = true } in
    let found = ap find_next e ∙ find_next-alone u q refl i in
    let a = exchange-Answered dev now h 0 u d r found in
    let g = settled h now 0 u a.parser a.count in
    let ran = a.ran ∙ ap (λ k. run_ok k g a.parser.payload a.parser.len) none in
    subst (Acknowledged h) (sym ran) (record {
      ready = record {
        idle = refl;
        none_asked = refl;
        at_rest = a.at_rest;
        parser_valid = a.valid;
        claimed = r.claimed;
      };
      nothing_waits = rw e (refl, i);
      size = rw e refl;
      refresh = refl;
      toggles = refl;
      config = refl;
      quiet = refl;
    })

-- The pass over the acknowledgement of the write just sent.
pub acknowledging_pass :
    (dev : Answers) (now : ℕ) (h : DspiHub) (w : Transaction) (q : Queue)
    → Responsive dev
    → FitsPass dev h
    → Ready h
    → h.queue ≡ record w { in_use = true } ∷ q
    → IsIdle q
    → w.on_ok ≡ OnOk.no_handler
    → is_quiet (started h) ≡ true
    → is_due now h.refresh.refresh_due_at ≡ false
    → let g = send_if_idle h in Acknowledged h (loop g now (answer_bytes dev g)).0
unfolding loop
acknowledging_pass dev now h w q d fits r e i none quiet early =
    let a = exchange-Acknowledged dev now h w q d r e i none in
    let x = exchange dev now h in
    let not_yet = ap (λ (y : Refresh). is_due now y.refresh_due_at) a.refresh ∙ early in
    let p =
      ap (λ y. after_bytes y now) (received dev now h fits)
      ∙ after_bytes-not_due x now a.ready (a.quiet ∙ quiet) not_yet
      ∙ idle_sends_none x a.nothing_waits a.ready in
    subst (Acknowledged h) (sym p) a
