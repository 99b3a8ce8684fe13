-- ===== src/Hub/Control.antt =====
-- dspi.cpp: the public setters. `clamp` is the helper of ESPHome, on float bit patterns.
use esphome_dspi.Prelude.{ℕ, ◌+◌, ◌/◌, ◌%◌, ◌^◌, bit_or, leb, ◌==◌, not, Bool}
use esphome_dspi.Prelude.{true, if◌then◌else◌, List, set, u32}
use esphome_dspi.Protocol.Wire.{FrameType, frame_byte}
use esphome_dspi.Protocol.Opcode.{Opcode, opcode}
use esphome_dspi.Protocol.Preset.{preset_slots}
use esphome_dspi.Protocol.Toggle.{ToggleTarget, toggle_bit, toggle_set_opcode}
use esphome_dspi.Hub.Transaction.{Transaction, new_transaction, OnOk, OnFail}
use esphome_dspi.Hub.State.{DspiHub}
use esphome_dspi.Hub.Requests.{enqueue_txn, request_refresh}

-- Bit patterns of the float constants -128, -127, -60 and 0.
abbrev pub master_volume_mute_db : ℕ
master_volume_mute_db = 0xC3000000

abbrev pub master_volume_min_db : ℕ
master_volume_min_db = 0xC2FE0000

abbrev pub user_volume_min_db : ℕ
user_volume_min_db = 0xC2700000

abbrev pub volume_max_db : ℕ
volume_max_db = 0

-- `memcpy(t.payload, &db, 4)` on a little-endian processor.
abbrev pub float_payload : List ℕ → ℕ → List ℕ
float_payload payload db =
    set (set (set (set payload 0 (db % 256)) 1 (db / 2 ^ 8 % 256)) 2 (db / 2 ^ 16 % 256)) 3
      (db / 2 ^ 24 % 256)

abbrev pub set_request : ℕ → ℕ → List ℕ → ℕ → Transaction
set_request req len payload timeout = record new_transaction {
  req = req;
  frame_type = frame_byte FrameType.set_req;
  wlen = len;
  payload_len = len;
  payload = payload;
  priority = 0;
  timeout_ms = timeout;
}

module _ (clamp : ℕ → ℕ → ℕ → ℕ) where
  -- No other pattern than the constant's own compares equal to -128.
  unfoldable pub set_master_volume_db : DspiHub → ℕ → DspiHub
  unfolding enqueue_txn request_refresh
  set_master_volume_db h db =
      let db' =
        if not (db == master_volume_mute_db)
        then clamp db master_volume_min_db volume_max_db
        else db in
      let t =
        set_request (opcode Opcode.set_master_volume) 4 (float_payload new_transaction.payload db')
          h.config.request_timeout_ms in
      request_refresh (enqueue_txn h t).0

  unfoldable pub set_user_volume_db : DspiHub → ℕ → DspiHub
  unfolding enqueue_txn request_refresh
  set_user_volume_db h db =
      let t =
        set_request (opcode Opcode.set_user_volume) 4
          (float_payload new_transaction.payload (clamp db user_volume_min_db volume_max_db))
          h.config.request_timeout_ms in
      request_refresh (enqueue_txn h t).0

unfoldable pub enable_toggle_read : DspiHub → ToggleTarget → DspiHub
enable_toggle_read h target = record h {
  toggles = record (h.toggles) {
    toggle_read_mask = bit_or h.toggles.toggle_read_mask (toggle_bit target);
  };
}

unfoldable pub set_toggle : DspiHub → ToggleTarget → Bool → DspiHub
unfolding enqueue_txn enable_toggle_read request_refresh
set_toggle h target on =
    let t =
      set_request (toggle_set_opcode target) 1 (set new_transaction.payload 0 (if on then 1 else 0))
        h.config.request_timeout_ms in
    request_refresh (enable_toggle_read (enqueue_txn h t).0 target)

unfoldable pub set_input_source : DspiHub → ℕ → DspiHub
unfolding enqueue_txn request_refresh
set_input_source h source =
    let t =
      set_request (opcode Opcode.set_input_source) 1 (set new_transaction.payload 0 source)
        h.config.flash_timeout_ms in
    request_refresh (enqueue_txn h t).0

abbrev pub preset_confirm_settle_ms : ℕ
preset_confirm_settle_ms = 250

abbrev pub load_request : DspiHub → ℕ → Transaction
load_request h slot = record new_transaction {
  req = opcode Opcode.preset_load;
  frame_type = frame_byte FrameType.get_req;
  wvalue = slot;
  wlen = 1;
  priority = 0;
  timeout_ms = h.config.flash_timeout_ms;
  on_ok = OnOk.on_preset_load;
  on_fail = OnFail.on_preset_load_failed;
}

unfoldable pub set_preset_slot : DspiHub → ℕ → DspiHub
unfolding enqueue_txn
set_preset_slot h slot =
    if leb preset_slots slot
    then h
    else let (h', accepted) = enqueue_txn h (load_request h slot) in
      if not accepted then h' else record h' {
        preset = record (h'.preset) {
          confirm_pending = true;
          confirm_slot = slot;
          confirm_attempts = 0;
          confirm_due = u32 (h'.clock + preset_confirm_settle_ms);
        };
      }
