-- ===== src/Hub/Loop.antt =====
-- dspi.cpp: `setup` and `loop`.
use esphome_dspi.Prelude.{ℕ, ◌+◌, bit_and, u32, sub32, leb, not, truthy}
use esphome_dspi.Prelude.{Bool, true, false, ◌&&◌, if◌then◌else◌, none, some, List}
use esphome_dspi.Prelude.{◌∷◌, set}
use esphome_dspi.Protocol.Opcode.{Opcode, opcode}
use esphome_dspi.Protocol.Preset.{input_rate_len}
use esphome_dspi.Protocol.Toggle.{ToggleTarget, toggle_bit, toggle_mask_count}
use esphome_dspi.Framing.Build.{build_request_frame}
use esphome_dspi.Hub.Transaction.{Transaction, OnOk, OnFail}
use esphome_dspi.Hub.Queue.{find_next, queue_free}
use esphome_dspi.Hub.State.{DspiHub, HubState, Toggles, Output}
use esphome_dspi.Hub.Requests.{enqueue_get, enqueue_toggle_read, request_refresh, is_due}
use esphome_dspi.Hub.Presets.{service_preset_confirm}
use esphome_dspi.Hub.Readback.{complement16}
use esphome_dspi.Hub.Rta.{service_rta}
use esphome_dspi.Hub.Probe.{start_probe, set_hub_state}
use esphome_dspi.Hub.Transport.{retry_or_drop}
use esphome_dspi.Hub.Receive.{pump_rx}

unfoldable pub setup : DspiHub → DspiHub
setup h = start_probe h

abbrev pub frame_of : Transaction → List ℕ
frame_of t = build_request_frame t.frame_type t.req t.wvalue 0 t.wlen t.payload t.payload_len

abbrev pub released : Transaction → Transaction
released t = record t { in_use = false }

unfoldable pub send_next : DspiHub → DspiHub
send_next h = elim (find_next h.queue) [
  | none ↦ h
  | some (i, t) ↦ record h {
    queue = set h.queue i (released t);
    link = record (h.link) {
      current = t;
      has_current = true;
      sent_at = h.clock;
      hub_state = HubState.await_resp;
    };
    out = Output.tx (frame_of t) ∷ h.out;
  }
]

-- The switch on the state of the link.
unfoldable pub step_in : HubState → DspiHub → ℕ → DspiHub
step_in HubState.await_resp h now =
    if leb h.link.current.timeout_ms (sub32 now h.link.sent_at)
    then retry_or_drop
        (record h { diag = record (h.diag) { txn_timeouts = u32 (h.diag.txn_timeouts + 1) } })
    else h
step_in HubState.backoff h now =
    if is_due now h.link.backoff_until then set_hub_state h HubState.idle else h
step_in _ h now = h

unfoldable pub step_link : DspiHub → ℕ → DspiHub
step_link h now = step_in h.link.hub_state h now

abbrev pub is_idle_state : HubState → Bool
is_idle_state HubState.idle = true
is_idle_state _ = false

abbrev pub may_probe : HubState → Bool
may_probe HubState.idle = true
may_probe HubState.offline = true
may_probe _ = false

abbrev pub offline_probe_interval_ms : ℕ
offline_probe_interval_ms = 5000

unfoldable pub reprobe : DspiHub → ℕ → DspiHub
reprobe h now =
    if not h.link.identified
      && (may_probe h.link.hub_state
          && leb offline_probe_interval_ms (sub32 now h.link.last_probe_at))
    then start_probe h
    else h

abbrev pub toggles_to_read : Toggles → ℕ
toggles_to_read t = bit_and t.toggle_read_mask (complement16 t.toggle_unsupported)

abbrev pub read_if : ℕ → ToggleTarget → DspiHub → DspiHub
read_if mask target h =
    if truthy (bit_and mask (toggle_bit target)) then enqueue_toggle_read h target else h

-- The loop over the targets, in their order.
unfoldable pub read_toggles : DspiHub → ℕ → DspiHub
read_toggles h mask = read_if mask ToggleTarget.leveller (
    read_if mask ToggleTarget.crossfeed (
      read_if mask ToggleTarget.eq_bypass
        (read_if mask ToggleTarget.loudness (read_if mask ToggleTarget.user_mute h))))

abbrev pub read_as : Opcode → ℕ → OnOk → DspiHub → DspiHub
read_as op len cb h = enqueue_get h (opcode op) len cb 1 0 OnFail.no_handler

unfoldable pub read_fixed : DspiHub → DspiHub
read_fixed h = read_as Opcode.preset_get_active 1 OnOk.on_preset_active (
    read_as Opcode.get_input_rate input_rate_len OnOk.on_input_rate (
      read_as Opcode.get_input_source 1 OnOk.on_input_source (
        read_as Opcode.get_user_volume 4 OnOk.on_user_volume
          (read_as Opcode.get_master_volume 4 OnOk.on_master_volume h))))

unfoldable pub service_refresh : DspiHub → ℕ → DspiHub
service_refresh h now =
    let mask = toggles_to_read h.toggles in
    if h.refresh.refresh_pending && is_due now h.refresh.refresh_due_at
    then (if leb (5 + toggle_mask_count mask) (queue_free h.queue)
        then read_toggles
            (read_fixed (record h { refresh = record (h.refresh) { refresh_pending = false } }))
            mask
        else h)
    else h

unfoldable pub service_poll : DspiHub → ℕ → DspiHub
unfolding request_refresh
service_poll h now =
    let period = h.config.poll_interval_ms in
    if truthy period
      && (not h.notify.notifications_active
          && (is_idle_state h.link.hub_state && leb period (sub32 now h.refresh.last_poll_at)))
    then request_refresh (record h { refresh = record (h.refresh) { last_poll_at = now } })
    else h

unfoldable pub send_if_idle : DspiHub → DspiHub
send_if_idle h = if is_idle_state h.link.hub_state then send_next h else h

-- One pass, at the time `now`, over the bytes that wait in the UART.
unfoldable pub loop : DspiHub → ℕ → List ℕ → DspiHub × List ℕ
loop h now bytes =
    let (received, rest) = pump_rx (record h { clock = now }) bytes in
    let linked = reprobe (step_link received now) now in
    let polled = service_poll (service_refresh linked now) now in
    (send_if_idle (service_rta (service_preset_confirm polled now) now), rest)
