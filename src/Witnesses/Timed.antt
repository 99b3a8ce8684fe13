-- ===== src/Witnesses/Timed.antt =====
-- Deadlines, the confirmation of a preset and the claim of the boot source, at concrete inputs.
use esphome_dspi.Prelude.{
  ℕ, zero, suc, ◌+◌, ◌≡◌, refl, arith, u32, leb, [], ◌∷◌, true, false, some, if◌then◌else◌,
}
use esphome_dspi.Hub.Queue.{enqueue, coalesce, place, queue_free}
use esphome_dspi.Hub.Queue.Refine.{pending}
use esphome_dspi.Hub.Transaction.{Transaction}
use esphome_dspi.Hub.State.{DspiHub}
use esphome_dspi.Hub.Requests.{is_due, request_refresh}
use esphome_dspi.Hub.Control.{set_preset_slot}
use esphome_dspi.Hub.Presets.{service_preset_confirm, on_preset_active, on_preset_name}
use esphome_dspi.Hub.Presets.Named.{name_of, on_preset_name-first}
use esphome_dspi.Hub.Queue.Distinct.{waiting}
use esphome_dspi.Hub.Refresh.{IsPending}
use esphome_dspi.Protocol.Preset.{preset_name_length}
use esphome_dspi.Hub.Presets.Polling.{Polls, set_preset_slot-ends}
use esphome_dspi.Hub.Readback.{on_input_source}
use esphome_dspi.Hub.Readback.Boot.{source_claim, on_input_source-claims}
use esphome_dspi.Hub.Transport.{retry_or_drop}
use esphome_dspi.Hub.Loop.{step_link}
use esphome_dspi.Hub.Wrap.{request_refresh-is_due, step_link-timeout}
use esphome_dspi.Witnesses.{fresh, busy}

-- Asked for 100 ms before the clock wraps around, with the 250 ms of the configuration.
abbrev late : DspiHub
late = record fresh { clock = 4294967196 }

request_refresh-is_due_example :
    let h' = request_refresh late in
    (h'.refresh.refresh_pending ≡ true)
    × (is_due (u32 4294967500) h'.refresh.refresh_due_at ≡ leb (4294967196 + 250) 4294967500)
request_refresh-is_due_example =
    request_refresh-is_due late 4294967196 4294967500 refl (omega arith) (omega arith) (omega arith)

abbrev sent_late : DspiHub
sent_late = record busy { link = record (busy.link) { sent_at = 4294967196 } }

step_link-timeout_example : step_link sent_late (u32 4294967500) ≡ (
    if leb (4294967196 + sent_late.link.current.timeout_ms) 4294967500
    then retry_or_drop (record sent_late { diag = record (sent_late.diag) { txn_timeouts = 1 } })
    else sent_late)
step_link-timeout_example =
    step_link-timeout sent_late 4294967196 4294967500 refl refl (omega arith) (omega arith)

due_now : (x : ℕ) → is_due x x ≡ true
due_now x = ground arith

-- Passes at the deadline of each attempt.
polls : (n : ℕ) (h : DspiHub) → (h' : DspiHub) × Polls n h h'
polls zero h = (h, Polls.ended h)
polls (suc n) h =
    let now = h.preset.confirm_due in
    let (h', p) = polls n (service_preset_confirm h now) in
    (h', Polls.polled n h h' now (λ pending_now. due_now now) p)

set_preset_slot-ends_example : (polls 7 (set_preset_slot fresh 3)).0.preset.confirm_pending ≡ false
unfolding enqueue coalesce place
set_preset_slot-ends_example =
    set_preset_slot-ends fresh (polls 7 (set_preset_slot fresh 3)).0 3
      (polls 7 (set_preset_slot fresh 3)).1 (omega arith) refl

-- S/PDIF at boot, though the device reports USB, and then I2S.
abbrev booting : DspiHub
booting = record fresh {
  config = record (fresh.config) { has_boot_input_source = true; boot_input_source = 1 };
}

on_input_source-claims_example :
    let key = source_claim booting 1 in
    let h' = on_input_source booting (0 ∷ []) 1 in
    let h'' = on_input_source h' (2 ∷ []) 1 in
    ((t : Transaction) × (pending key h'.queue ≡ some t)
      × (t.payload ≡ key.payload)
      × (t.payload_len ≡ 1))
    × (h'.refresh.refresh_pending ≡ true)
    × (h''.queue ≡ h'.queue)
    × (h''.refresh ≡ h'.refresh)
unfolding queue_free
on_input_source-claims_example =
    on_input_source-claims booting (0 ∷ []) (2 ∷ []) 1 1 (omega arith) refl refl
      (λ e. let wrong : 0 ≡ 1 = e in omega arith) (omega arith)

-- The device was on preset 0, whose name is to be read, and turns to preset 5.
abbrev turning : DspiHub
turning = record fresh {
  state = record (fresh.state) { active_preset = 0; active_preset_valid = true };
  queue = waiting (name_of fresh 0) ∷ fresh.queue;
}

on_preset_name-first_example :
    let h₁ = on_preset_active turning (5 ∷ []) 1 in
    let h₃ = on_preset_name (on_preset_name h₁ (b'A' ∷ 0 ∷ []) 2) (b'B' ∷ 0 ∷ []) 2 in
    IsPending (name_of turning 0) h₁.queue
    × IsPending (name_of turning 5) h₁.queue
    × (h₃.state.active_preset ≡ 5)
    × (h₃.state.active_preset_name ≡ b'A' ∷ [])
    × (h₃.state.active_preset_name_valid ≡ true)
unfolding queue_free preset_name_length
on_preset_name-first_example =
    on_preset_name-first turning 0 5 (b'A' ∷ 0 ∷ []) (b'B' ∷ 0 ∷ []) 2 2 (omega arith)
      (λ e. let wrong : 0 ≡ 5 = e in omega arith) (waiting (name_of fresh 0), refl) (omega arith)
      (omega arith)
