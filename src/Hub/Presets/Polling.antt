-- ===== src/Hub/Presets/Polling.antt =====
-- dspi.cpp: the confirmation of a preset load, from its request to its end.
use esphome_dspi.Prelude.{ℕ, zero, suc, ◌+◌, ◌≤◌, ◌<◌, ◌≡◌, ◌⊎◌, arith, List, true, false}
use esphome_dspi.Protocol.Preset.{preset_slots}
use esphome_dspi.Hub.Queue.{enqueue}
use esphome_dspi.Hub.State.{DspiHub}
use esphome_dspi.Hub.Requests.{is_due}
use esphome_dspi.Hub.Control.{set_preset_slot, load_request}
use esphome_dspi.Hub.Presets.{
  on_preset_active, on_preset_load, on_preset_load_failed, service_preset_confirm,
  preset_confirm_max_attempts,
}

-- A run from `h` to `h'` with `n` passes in which the confirmation, if still pending, was due, and
-- any answers in between.
pub data Polls : ℕ → DspiHub → DspiHub → Type 0 where
  ended : (h : DspiHub) → Polls zero h h
  polled :
      (n : ℕ) (h h' : DspiHub) (now : ℕ)
      → (h.preset.confirm_pending ≡ true → is_due now h.preset.confirm_due ≡ true)
      → Polls n (service_preset_confirm h now) h'
      → Polls (suc n) h h'
  answered :
      (n : ℕ) (h h' : DspiHub) (b : List ℕ) (len : ℕ)
      → Polls n (on_preset_active h b len) h'
      → Polls n h h'
  loaded :
      (n : ℕ) (h h' : DspiHub) (b : List ℕ) (len : ℕ)
      → Polls n (on_preset_load h b len) h'
      → Polls n h h'
  failed :
      (n : ℕ) (h h' : DspiHub) (status : ℕ)
      → Polls n (on_preset_load_failed h status) h'
      → Polls n h h'

-- The confirmation has ended, or spent `k` attempts at least, of which there are six.
abbrev Spent : ℕ → DspiHub → Type 0
Spent k h =
    (h.preset.confirm_pending ≡ false)
    ⊎ ((k ≤ h.preset.confirm_attempts) × (h.preset.confirm_attempts ≤ preset_confirm_max_attempts))

polled-Spent :
    (k : ℕ) (h : DspiHub) (now : ℕ)
    → (h.preset.confirm_pending ≡ true → is_due now h.preset.confirm_due ≡ true)
    → Spent k h
    → Spent (suc k) (service_preset_confirm h now)
unfolding service_preset_confirm
polled-Spent k h now due s = ground arith

answered-Spent :
    (k : ℕ) (h : DspiHub) (b : List ℕ) (len : ℕ) → Spent k h → Spent k (on_preset_active h b len)
unfolding on_preset_active
answered-Spent k h b len s = ground arith

loaded-Spent :
    (k : ℕ) (h : DspiHub) (b : List ℕ) (len : ℕ) → Spent k h → Spent k (on_preset_load h b len)
unfolding on_preset_load
loaded-Spent k h b len s = ground arith

failed-Spent :
    (k : ℕ) (h : DspiHub) (status : ℕ) → Spent k h → Spent k (on_preset_load_failed h status)
unfolding on_preset_load_failed
failed-Spent k h status s = ground arith

Spent-le : (j k : ℕ) (h : DspiHub) → j ≤ k → Spent k h → Spent j h
Spent-le j k h l s = ground arith

Polls-Spent : (n k : ℕ) (h h' : DspiHub) → Polls n h h' → Spent k h → Spent (n + k) h'
Polls-Spent _ k _ _ (ended h) s = Spent-le (0 + k) k h (omega arith) s
Polls-Spent _ k _ _ (polled n h h' now due p) s =
    Spent-le (suc n + k) (n + suc k) h' (omega arith)
      (Polls-Spent n (suc k) _ _ p (polled-Spent k h now due s))
Polls-Spent _ k _ _ (answered n h h' b len p) s = Polls-Spent n k _ _ p (answered-Spent k h b len s)
Polls-Spent _ k _ _ (loaded n h h' b len p) s = Polls-Spent n k _ _ p (loaded-Spent k h b len s)
Polls-Spent _ k _ _ (failed n h h' status p) s = Polls-Spent n k _ _ p (failed-Spent k h status s)

-- A load of a preset in range that the queue takes is confirmed or given up after seven due passes,
-- whatever the device answers to the load and to the reads of the active preset.
pub set_preset_slot-ends :
    (h h' : DspiHub) (slot : ℕ)
    → Polls 7 (set_preset_slot h slot) h'
    → slot < preset_slots
    → (enqueue (load_request h slot) h.queue).accepted ≡ true
    → h'.preset.confirm_pending ≡ false
unfolding set_preset_slot
set_preset_slot-ends h h' slot p r a = let s = Polls-Spent 7 0 _ _ p (ground arith) in ground arith
