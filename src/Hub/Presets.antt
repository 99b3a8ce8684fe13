-- ===== src/Hub/Presets.antt =====
-- dspi.cpp: presets, and the confirmation of a deferred load.
pub mod Confirm
pub mod Named
pub mod Polling
use esphome_dspi.Prelude.{ℕ, suc, ◌+◌, u8, u32, ltb, leb, ◌==◌, not, Bool, true, false, ◌&&◌, ◌||◌}
use esphome_dspi.Prelude.{if◌then◌else◌, Option, none, some, List, [], ◌∷◌, take}
use esphome_dspi.Protocol.Wire.{byte_at}
use esphome_dspi.Protocol.Opcode.{Opcode, opcode}
use esphome_dspi.Protocol.Preset.{
  preset_slots, preset_name_len, PresetDirectory, PresetStatus, preset_status_byte,
  parse_preset_directory, preset_name_length,
}
use esphome_dspi.Hub.Transaction.{OnOk, OnFail}
use esphome_dspi.Hub.State.{DspiHub}
use esphome_dspi.Hub.Requests.{enqueue_get, publish_state, is_due}
use esphome_dspi.Hub.Control.{preset_confirm_settle_ms}

abbrev pub preset_confirm_max_attempts : ℕ
preset_confirm_max_attempts = 6

abbrev pub set_confirm_pending : DspiHub → Bool → DspiHub
set_confirm_pending h b = record h { preset = record (h.preset) { confirm_pending = b } }

unfoldable pub request_preset_name : DspiHub → ℕ → DspiHub
unfolding enqueue_get
request_preset_name h slot =
    enqueue_get
      (record h { preset = record (h.preset) { name_slot = slot; name_requested = true } })
      (opcode Opcode.preset_get_name) preset_name_len OnOk.on_preset_name 1 slot OnFail.no_handler

-- A slot in range that the device says is active.
accept_active : DspiHub → ℕ → DspiHub
unfolding request_preset_name publish_state
accept_active h slot =
    let changed = not h.state.active_preset_valid || not (h.state.active_preset == slot) in
    let h1 = record h {
      state = record (h.state) { active_preset = slot; active_preset_valid = true };
      preset = record (h.preset) {
        confirm_pending =
            if h.preset.confirm_pending && slot == h.preset.confirm_slot
            then false
            else h.preset.confirm_pending;
      };
    } in
    let h2 =
      if changed || not h1.state.active_preset_name_valid
      then request_preset_name h1 slot
      else h1 in
    publish_state h2

unfoldable pub on_preset_active : DspiHub → List ℕ → ℕ → DspiHub
unfolding accept_active
on_preset_active h bytes len =
    if ltb len 1
    then h
    else if leb preset_slots (byte_at bytes 0)
    then h
    else accept_active h (byte_at bytes 0)

unfoldable pub on_preset_dir : DspiHub → List ℕ → ℕ → DspiHub
unfolding on_preset_active
on_preset_dir h bytes len = elim (parse_preset_directory bytes len) [
  | none ↦ h
  | some dir ↦
      on_preset_active
        (record h {
          state = record (h.state) { slot_occupied = dir.slot_occupied; preset_dir_valid = true };
        })
        (dir.last_active_slot ∷ []) 1
]

unfoldable pub on_preset_name : DspiHub → List ℕ → ℕ → DspiHub
unfolding publish_state
on_preset_name h bytes len =
    if ltb len 1
    then h
    else if not h.preset.name_requested || not (h.preset.name_slot == h.state.active_preset)
    then h
    else publish_state (record h {
      preset = record (h.preset) { name_requested = false };
      state = record (h.state) {
        active_preset_name = take (preset_name_length bytes len) bytes;
        active_preset_name_valid = true;
      };
    })

unfoldable pub on_preset_load : DspiHub → List ℕ → ℕ → DspiHub
unfolding publish_state
on_preset_load h bytes len =
    let status = if leb 1 len then byte_at bytes 0 else preset_status_byte PresetStatus.ok in
    if not (status == preset_status_byte PresetStatus.ok)
    then publish_state (set_confirm_pending h false)
    else h

unfoldable pub on_preset_load_failed : DspiHub → ℕ → DspiHub
unfolding publish_state
on_preset_load_failed h status = publish_state (set_confirm_pending h false)

unfoldable pub service_preset_confirm : DspiHub → ℕ → DspiHub
unfolding enqueue_get publish_state
service_preset_confirm h now =
    if not h.preset.confirm_pending
    then h
    else if not (is_due now h.preset.confirm_due)
    then h
    else let attempts = u8 (h.preset.confirm_attempts + 1) in
      let h' = record h { preset = record (h.preset) { confirm_attempts = attempts } } in
      if ltb preset_confirm_max_attempts attempts
      then publish_state (set_confirm_pending h' false)
      else enqueue_get
          (record h' {
            preset = record (h'.preset) { confirm_due = u32 (now + preset_confirm_settle_ms) };
          })
          (opcode Opcode.preset_get_active) 1 OnOk.on_preset_active 0 0 OnFail.no_handler
