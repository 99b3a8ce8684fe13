-- ===== src/Hub/Presets/Confirm.antt =====
-- dspi.cpp: the active preset, and the confirmation of a load.
use esphome_dspi.Prelude.{ℕ, ◌+◌, ◌≤◌, ◌<◌, List, true, false, not, ◌≡◌, arith, ◌==◌, ◌⊎◌}
use esphome_dspi.Protocol.Wire.{byte_at}
use esphome_dspi.Protocol.Preset.{preset_slots}
use esphome_dspi.Hub.State.{DspiHub}
use esphome_dspi.Hub.Requests.{is_due}
use esphome_dspi.Hub.Presets.{on_preset_active, service_preset_confirm, preset_confirm_max_attempts}

-- Whatever the device answers, the active preset stays one of the ten slots.
pub on_preset_active-bounded :
    (h : DspiHub) (b : List ℕ) (n : ℕ)
    → h.state.active_preset < preset_slots
    → (on_preset_active h b n).state.active_preset < preset_slots
unfolding on_preset_active
on_preset_active-bounded h b n r = ground arith

-- An answer that names the slot that was asked for ends the confirmation, and makes that slot the
-- active one; one that names another slot leaves the confirmation pending.
pub on_preset_active-confirms :
    (h : DspiHub) (b : List ℕ) (n : ℕ)
    → 1 ≤ n
    → byte_at b 0 < preset_slots
    → h.preset.confirm_pending ≡ true
    → let h' = on_preset_active h b n in
      (h'.state.active_preset ≡ byte_at b 0)
      × (h'.state.active_preset_valid ≡ true)
      × (h'.preset.confirm_pending ≡ not (byte_at b 0 == h.preset.confirm_slot))
unfolding on_preset_active
on_preset_active-confirms h b n l r p = ground arith

-- While a confirmation is pending with at most six attempts spent, a due pass gives up if all six
-- are spent, and otherwise spends one more and stays pending.
pub service_preset_confirm-ends :
    (h : DspiHub) (now : ℕ)
    → h.preset.confirm_pending ≡ true
    → h.preset.confirm_attempts ≤ preset_confirm_max_attempts
    → is_due now h.preset.confirm_due ≡ true
    → let p = (service_preset_confirm h now).preset in
      ((p.confirm_pending ≡ false) × (h.preset.confirm_attempts ≡ preset_confirm_max_attempts))
      ⊎ ((p.confirm_pending ≡ true)
          × (p.confirm_attempts ≡ h.preset.confirm_attempts + 1)
          × (p.confirm_attempts ≤ preset_confirm_max_attempts))
unfolding service_preset_confirm
service_preset_confirm-ends h now p l d = ground arith
