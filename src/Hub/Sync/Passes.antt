-- ===== src/Hub/Sync/Passes.antt =====
-- Passes of `loop` against a device that answers are exchanges with it.
use esphome_dspi.Prelude.{
  ℕ, zero, suc, ◌+◌, ◌%◌, ◌/◌, ◌≤◌, ◌≡◌, refl, sym, ap, subst, arith, ◌∙◌, true, false, List, [],
  ◌∷◌, length, length-append, inl, inr, Option-cases, Bool-cases,
}
use esphome_dspi.Framing.Receive.Frame.{device_frame, response_body}
use esphome_dspi.Crc16.{crc16}
use esphome_dspi.Protocol.Wire.{status_byte, CtrlStatus}
use esphome_dspi.Hub.Transport.{expected_type}
use esphome_dspi.Hub.Transaction.{Transaction}
use esphome_dspi.Hub.Queue.{find_next}
use esphome_dspi.Hub.State.{DspiHub, HubState}
use esphome_dspi.Hub.Receive.{pump_rx, pump_loop}
use esphome_dspi.Hub.Presets.{service_preset_confirm}
use esphome_dspi.Hub.Rta.{service_rta}
use esphome_dspi.Hub.Loop.{
  loop, step_link, step_in, reprobe, service_refresh, service_poll, send_if_idle, send_next,
}
use esphome_dspi.Hub.Progress.{no_bytes}
use esphome_dspi.Hub.Sync.{
  Answers, Responsive, answer_frame, answer_bytes, exchange, exchanges, passes, Ready, is_quiet,
}
use esphome_dspi.Hub.Sync.Queue.{IsKnown}
use esphome_dspi.Hub.Sync.Step.{exchange-Advance}
use esphome_dspi.Hub.Sync.Settles.{exchange-none, later-Ready}

-- Every answer of the device fits the budget of a pass.
abbrev pub FitsPass : Answers → DspiHub → Type 0
FitsPass dev h = (op : ℕ) → length (dev op) + 7 ≤ h.config.max_bytes_per_loop

-- What a pass does after the bytes.
abbrev pub after_bytes : DspiHub → ℕ → DspiHub
after_bytes h now = send_if_idle (
    service_rta
      (service_preset_confirm
        (service_poll (service_refresh (reprobe (step_link h now) now) now) now) now)
      now)

pub step_link-idle :
    (h : DspiHub) (now : ℕ) → h.link.hub_state ≡ HubState.idle → step_link h now ≡ h
unfolding step_link step_in
step_link-idle h now e = simp e refl

pub reprobe-identified : (h : DspiHub) (now : ℕ) → h.link.identified ≡ true → reprobe h now ≡ h
unfolding reprobe
reprobe-identified h now e = simp e refl

pub reprobe-quiet : (h : DspiHub) (now : ℕ) → is_quiet h ≡ true → reprobe h now ≡ h
reprobe-quiet h now q = reprobe-identified h now (ground arith)

pub service_refresh-quiet : (h : DspiHub) (now : ℕ) → is_quiet h ≡ true → service_refresh h now ≡ h
unfolding service_refresh
service_refresh-quiet h now q =
    let e : h.refresh.refresh_pending ≡ false = ground arith in simp e refl

service_poll-quiet : (h : DspiHub) (now : ℕ) → is_quiet h ≡ true → service_poll h now ≡ h
unfolding service_poll
service_poll-quiet h now q = ground arith

service_preset_confirm-quiet :
    (h : DspiHub) (now : ℕ) → is_quiet h ≡ true → service_preset_confirm h now ≡ h
unfolding service_preset_confirm
service_preset_confirm-quiet h now q =
    let e : h.preset.confirm_pending ≡ false = ground arith in simp e refl

service_rta-quiet : (h : DspiHub) (now : ℕ) → is_quiet h ≡ true → service_rta h now ≡ h
unfolding service_rta
service_rta-quiet h now q = let e : h.config.rta_configured ≡ false = ground arith in simp e refl

-- The services that follow the refresh have nothing to do.
pub services-quiet :
    (h : DspiHub) (now : ℕ)
    → is_quiet h ≡ true
    → service_rta (service_preset_confirm (service_poll h now) now) now ≡ h
services-quiet h now q =
    ap (λ x. service_rta (service_preset_confirm x now) now) (service_poll-quiet h now q)
    ∙ ap (λ x. service_rta x now) (service_preset_confirm-quiet h now q)
    ∙ service_rta-quiet h now q

pub after_bytes-quiet :
    (h : DspiHub) (now : ℕ) → Ready h → is_quiet h ≡ true → after_bytes h now ≡ send_if_idle h
after_bytes-quiet h now r q =
    let rest : DspiHub → DspiHub =
      λ x. send_if_idle (service_rta (service_preset_confirm (service_poll x now) now) now) in
    ap (λ x. rest (service_refresh (reprobe x now) now)) (step_link-idle h now r.idle)
    ∙ ap (λ x. rest (service_refresh x now)) (reprobe-quiet h now q)
    ∙ ap rest (service_refresh-quiet h now q)
    ∙ ap send_if_idle (services-quiet h now q)

-- A pass with no byte to read, when nothing else makes the hub ask after the step of the link.
pub quiet_pass :
    (h h' : DspiHub) (now : ℕ)
    → step_link (record h { clock = now }) now ≡ h'
    → is_quiet h' ≡ true
    → (loop h now []).0 ≡ send_if_idle h'
unfolding loop pump_rx
quiet_pass h h' now s q =
    let rest : DspiHub → DspiHub =
      λ x. send_if_idle (service_rta (service_preset_confirm (service_poll x now) now) now) in
    ap (λ x. after_bytes x now) (no_bytes h.config.max_bytes_per_loop (record h { clock = now }))
    ∙ ap (λ x. rest (service_refresh (reprobe x now) now)) s
    ∙ ap (λ x. rest (service_refresh x now)) (reprobe-quiet h' now q)
    ∙ ap rest (service_refresh-quiet h' now q)
    ∙ ap send_if_idle (services-quiet h' now q)

pump_loop-enough :
    (n : ℕ) (h : DspiHub) (bytes : List ℕ)
    → length bytes ≤ n
    → pump_loop n h bytes ≡ pump_loop (length bytes) h bytes
unfolding pump_loop
pump_loop-enough zero h [] l = refl
pump_loop-enough (suc n) h [] l = refl
pump_loop-enough zero h (b ∷ bytes) l = absurd (omega arith)
pump_loop-enough (suc n) h (b ∷ bytes) l = pump_loop-enough n _ bytes (omega arith)

length-device_frame :
    (type status : ℕ) (body : List ℕ) (c : ℕ)
    → length (device_frame type status body c) ≡ length body + 7
length-device_frame type status body c = omega (arith, length-append body (c % 256 ∷ c / 256 ∷ []))

length-answer_frame :
    (dev : Answers) (t : Transaction) → length (answer_frame dev t) ≡ length (dev t.req) + 7
length-answer_frame dev t =
    let type = expected_type t in
    let ok = status_byte CtrlStatus.ok in
    length-device_frame type ok (dev t.req) (crc16 (response_body type ok (dev t.req)))

pub send_if_idle-config : (h : DspiHub) → (send_if_idle h).config ≡ h.config
unfolding send_if_idle send_next
send_if_idle-config h = ground arith

-- The bytes of a pass are the answer of an exchange.
pub received :
    (dev : Answers) (now : ℕ) (h : DspiHub)
    → FitsPass dev h
    → let g = send_if_idle h in
      (pump_rx (record g { clock = now }) (answer_bytes dev g)).0 ≡ exchange dev now h
unfolding pump_rx exchange
received dev now h fits =
    let g = send_if_idle h in
    let t = g.link.current in
    let later = record g { clock = now } in
    elim (Bool-cases g.link.has_current) [
      | inl e ↦
          let l = length-answer_frame dev t in
          let c = ap (λ x. x.max_bytes_per_loop) (send_if_idle-config h) in
          let room : length (answer_frame dev t) ≤ g.config.max_bytes_per_loop =
            omega (arith, l, c, fits t.req) in
          simp e (
            ap (λ (x : DspiHub × List ℕ). x.0)
              (pump_loop-enough g.config.max_bytes_per_loop later (answer_frame dev t) room))
      | inr e ↦ simp e (no_bytes g.config.max_bytes_per_loop later)
    ]

-- One exchange leaves what the next needs.
pub exchange-Ready :
    (dev : Answers) (now : ℕ) (h : DspiHub)
    → Responsive dev
    → Ready h
    → IsKnown h.queue
    → is_quiet h ≡ true
    → let h' = exchange dev now h in
      Ready h' × IsKnown h'.queue × (is_quiet h' ≡ true) × (h'.config ≡ h.config)
exchange-Ready dev now h d r k q = elim (Option-cases (find_next h.queue)) [
  | inl e ↦
      subst
        (λ (x : DspiHub). Ready x × IsKnown x.queue × (is_quiet x ≡ true) × (x.config ≡ h.config))
        (sym (exchange-none dev now h r e)) (later-Ready h now r, k, q, refl)
  | inr ((i, t), e) ↦
      let a = exchange-Advance dev now h i t d r k e in (a.ready, a.known, a.quiet q, a.config)
]

-- A pass over the answer to what was sent is the exchange, and the next request sent.
pass-exchange :
    (dev : Answers) (now : ℕ) (h : DspiHub)
    → Responsive dev
    → Ready h
    → IsKnown h.queue
    → is_quiet h ≡ true
    → FitsPass dev h
    → let g = send_if_idle h in
      (loop g now (answer_bytes dev g)).0 ≡ send_if_idle (exchange dev now h)
unfolding loop
pass-exchange dev now h d r k q fits =
    let e = exchange-Ready dev now h d r k q in
    ap (λ x. after_bytes x now) (received dev now h fits)
    ∙ after_bytes-quiet (exchange dev now h) now e.0 e.2

-- While nothing else asks, passes over the device's answers are exchanges with it.
pub passes-exchanges :
    (times : List ℕ) (dev : Answers) (h : DspiHub)
    → Responsive dev
    → Ready h
    → IsKnown h.queue
    → is_quiet h ≡ true
    → FitsPass dev h
    → passes dev times (send_if_idle h) ≡ send_if_idle (exchanges dev times h)
unfolding passes exchanges
passes-exchanges [] dev h d r k q fits = refl
passes-exchanges (now ∷ times) dev h d r k q fits =
    let e = exchange-Ready dev now h d r k q in
    let c = e.3 in
    ap (passes dev times) (pass-exchange dev now h d r k q fits)
    ∙ passes-exchanges times dev (exchange dev now h) d e.0 e.1 e.2
        (λ op. omega (arith, fits op, ap (λ x. x.max_bytes_per_loop) c))
