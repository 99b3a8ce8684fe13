-- ===== src/Hub/Requests.antt =====
-- dspi.cpp: queueing of reads, publication and the debounced refresh.
use esphome_dspi.Prelude.{ℕ, ◌+◌, u32, sub32, ltb, not}
use esphome_dspi.Prelude.{Bool, true, if◌then◌else◌, ◌∷◌}
use esphome_dspi.Protocol.Wire.{FrameType, frame_byte}
use esphome_dspi.Protocol.Opcode.{Opcode, opcode}
use esphome_dspi.Protocol.Preset.{input_rate_len}
use esphome_dspi.Protocol.Toggle.{ToggleTarget, toggle_get_opcode}
use esphome_dspi.Hub.Transaction.{Transaction, new_transaction, OnOk, OnFail}
use esphome_dspi.Hub.Queue.{enqueue}
use esphome_dspi.Hub.State.{DspiHub, Output, is_online}

-- `enqueue_`.
unfoldable pub enqueue_txn : DspiHub → Transaction → DspiHub × Bool
enqueue_txn h txn =
    let r = enqueue txn h.queue in
    let n = h.diag.txn_dropped in
    (
      record h {
        queue = r.queue;
        diag = record (h.diag) { txn_dropped = if r.dropped then u32 (n + 1) else n };
      },
      r.accepted,
    )

abbrev pub get_request : DspiHub → ℕ → ℕ → OnOk → ℕ → ℕ → OnFail → Transaction
get_request h req wlen cb priority wvalue on_fail = record new_transaction {
  req = req;
  frame_type = frame_byte FrameType.get_req;
  wlen = wlen;
  wvalue = wvalue;
  priority = priority;
  timeout_ms = h.config.request_timeout_ms;
  on_ok = cb;
  on_fail = on_fail;
}

-- `enqueue_get_`, which does not look at what `enqueue_` returns.
unfoldable pub enqueue_get : DspiHub → ℕ → ℕ → OnOk → ℕ → ℕ → OnFail → DspiHub
unfolding enqueue_txn
enqueue_get h req wlen cb priority wvalue on_fail =
    (enqueue_txn h (get_request h req wlen cb priority wvalue on_fail)).0

unfoldable pub publish_state : DspiHub → DspiHub
publish_state h = record h { out = Output.published h.state ∷ h.out }

unfoldable pub request_refresh : DspiHub → DspiHub
request_refresh h = record h {
  refresh = record (h.refresh) {
    refresh_due_at = u32 (h.clock + h.config.refresh_debounce_ms);
    refresh_pending = true;
  };
}

unfoldable pub request_input_rate : DspiHub → DspiHub
unfolding is_online enqueue_get
request_input_rate h =
    if not (is_online h)
    then h
    else enqueue_get h (opcode Opcode.get_input_rate) input_rate_len OnOk.on_input_rate 1 0
        OnFail.no_handler

unfoldable pub enqueue_toggle_read : DspiHub → ToggleTarget → DspiHub
unfolding enqueue_get
enqueue_toggle_read h target =
    enqueue_get h (toggle_get_opcode target) 1 (OnOk.on_toggle target) 1 0
      (OnFail.on_toggle_failed target)

-- The wrap-safe test `now - deadline < 0x80000000`.
abbrev pub is_due : ℕ → ℕ → Bool
is_due now deadline = ltb (sub32 now deadline) 0x80000000
