-- ===== src/Hub/Transport.antt =====
-- dspi.cpp: responses, retries and failures of the transaction in flight.
pub mod Budget
pub mod Offline
pub mod Overwrite
pub mod Silent
pub mod Unanswered
use esphome_dspi.Prelude.{
  ℕ, zero, suc, ◌+◌, ◌-◌, ◌*◌, ◌^◌, u8, u32, ltb, leb, ◌==◌, not, Bool, true,
}
use esphome_dspi.Prelude.{false, ◌||◌, ◌&&◌, if◌then◌else◌, Option, none, some, List, [], ◌∷◌, set}
use esphome_dspi.Prelude.{truthy}
use esphome_dspi.Protocol.Wire.{
  FrameType, frame_byte, CtrlStatus, status_byte, ctrl_status_is_retryable, byte_at,
}
use esphome_dspi.Hub.Transaction.{Transaction, OnOk, OnFail, retries_default}
use esphome_dspi.Hub.Queue.{Queue}
use esphome_dspi.Hub.State.{DspiHub, HubState, Link}
use esphome_dspi.Hub.Requests.{enqueue_txn, publish_state}
use esphome_dspi.Hub.Rta.{reset_rta}
use esphome_dspi.Hub.RtaReplies.{
  on_rta_caps, on_rta_centres, on_rta_config, on_rta_bands, on_rta_status, on_rta_control,
  on_rta_setup_failed, on_rta_bands_failed, on_rta_optional_failed,
}
use esphome_dspi.Hub.Presets.{
  on_preset_dir, on_preset_active, on_preset_name, on_preset_load, on_preset_load_failed,
}
use esphome_dspi.Hub.Readback.{
  on_master_volume, on_user_volume, store_toggle, mark_toggle_unsupported, on_input_source,
  on_input_rate,
}
use esphome_dspi.Hub.Probe.{
  on_platform, on_uart_config, on_iface_status, on_spdif_input_config, on_adat_enable, on_adat_pin,
}

-- `(this->*cb)(payload, len)`.
unfoldable pub run_ok : OnOk → DspiHub → List ℕ → ℕ → DspiHub
unfolding on_platform on_uart_config on_iface_status on_spdif_input_config on_adat_enable
    on_adat_pin on_master_volume on_user_volume on_input_source on_input_rate on_preset_dir
    on_preset_active on_preset_name on_preset_load on_rta_caps on_rta_centres on_rta_config
    on_rta_bands on_rta_status on_rta_control store_toggle
run_ok OnOk.no_handler h bytes len = h
run_ok OnOk.on_platform h bytes len = on_platform h bytes len
run_ok OnOk.on_uart_config h bytes len = on_uart_config h bytes len
run_ok OnOk.on_iface_status h bytes len = on_iface_status h bytes len
run_ok OnOk.on_spdif_input_config h bytes len = on_spdif_input_config h bytes len
run_ok OnOk.on_adat_enable h bytes len = on_adat_enable h bytes len
run_ok OnOk.on_adat_pin h bytes len = on_adat_pin h bytes len
run_ok OnOk.on_master_volume h bytes len = on_master_volume h bytes len
run_ok OnOk.on_user_volume h bytes len = on_user_volume h bytes len
run_ok OnOk.on_input_source h bytes len = on_input_source h bytes len
run_ok OnOk.on_input_rate h bytes len = on_input_rate h bytes len
run_ok OnOk.on_preset_dir h bytes len = on_preset_dir h bytes len
run_ok OnOk.on_preset_active h bytes len = on_preset_active h bytes len
run_ok OnOk.on_preset_name h bytes len = on_preset_name h bytes len
run_ok OnOk.on_preset_load h bytes len = on_preset_load h bytes len
run_ok OnOk.on_rta_caps h bytes len = on_rta_caps h bytes len
run_ok OnOk.on_rta_centres h bytes len = on_rta_centres h bytes len
run_ok OnOk.on_rta_config h bytes len = on_rta_config h bytes len
run_ok OnOk.on_rta_bands h bytes len = on_rta_bands h bytes len
run_ok OnOk.on_rta_status h bytes len = on_rta_status h bytes len
run_ok OnOk.on_rta_control h bytes len = on_rta_control h bytes len
run_ok (OnOk.on_toggle target) h bytes len = store_toggle h target bytes len

-- `(this->*fail_cb)(status)`.
unfoldable pub run_fail : OnFail → DspiHub → ℕ → DspiHub
unfolding on_preset_load_failed on_rta_setup_failed on_rta_bands_failed on_rta_optional_failed
    mark_toggle_unsupported
run_fail OnFail.no_handler h status = h
run_fail OnFail.on_preset_load_failed h status = on_preset_load_failed h status
run_fail OnFail.on_rta_setup_failed h status = on_rta_setup_failed h status
run_fail OnFail.on_rta_bands_failed h status = on_rta_bands_failed h status
run_fail OnFail.on_rta_optional_failed h status = on_rta_optional_failed h status
run_fail (OnFail.on_toggle_failed target) h status = mark_toggle_unsupported h target status

abbrev pub settle : DspiHub → HubState → DspiHub
settle h s = record h { link = record (h.link) { hub_state = s; has_current = false } }

unfoldable pub clear_queue : Queue → Queue
clear_queue [] = []
clear_queue (slot ∷ rest) = record slot { in_use = false } ∷ clear_queue rest

unfoldable pub go_offline : DspiHub → DspiHub
go_offline h = publish_state (
    reset_rta (record h {
      link = record (h.link) {
        hub_state = HubState.offline;
        last_probe_at = h.clock;
        identified = false;
      };
      notify = record (h.notify) { have_seq = false };
      queue = clear_queue h.queue;
    }))

abbrev pub failures_before_offline : ℕ
failures_before_offline = 5

unfoldable pub fail_current : DspiHub → DspiHub
fail_current h =
    let failures = u8 (h.link.consecutive_failures + 1) in
    let h' = record h {
      link = record (h.link) {
        has_current = false;
        hub_state = HubState.idle;
        consecutive_failures = failures;
      };
      diag = record (h.diag) { txn_dropped = u32 (h.diag.txn_dropped + 1) };
    } in
    run_fail h.link.current.on_fail
      (if leb failures_before_offline failures then go_offline h' else h')
      (status_byte CtrlStatus.link_failed)

abbrev pub retry_limit : DspiHub → Transaction → ℕ
retry_limit h t = if t.max_retries == retries_default then h.config.max_retries else t.max_retries

-- Called with at least one attempt.
abbrev pub backoff_shift : ℕ → ℕ
backoff_shift attempts = if ltb 3 attempts then 3 else attempts - 1

-- Also when `enqueue_` refuses the transaction, which is then gone.
unfoldable pub retry_or_drop : DspiHub → DspiHub
retry_or_drop h =
    let attempts = u8 (h.link.current.attempts + 1) in
    let again = record (h.link.current) { attempts = attempts } in
    let h' = record h { link = record (h.link) { current = again } } in
    if not h.link.has_current
    then record h { link = record (h.link) { hub_state = HubState.idle } }
    else if ltb (retry_limit h again) attempts
    then fail_current h'
    else let delay = u32 (h.config.backoff_base_ms * 2 ^ backoff_shift attempts) in
      (enqueue_txn
        (record h' {
          link = record (h'.link) {
            backoff_until = u32 (h.clock + delay);
            hub_state = HubState.backoff;
            has_current = false;
          };
        })
        again).0

abbrev pub is_awaiting : HubState → Bool
is_awaiting HubState.await_resp = true
is_awaiting _ = false

abbrev pub expected_type : Transaction → ℕ
expected_type t =
    if t.frame_type == frame_byte FrameType.set_req
    then frame_byte FrameType.set_resp
    else frame_byte FrameType.get_resp

unfoldable pub handle_response : DspiHub → ℕ → ℕ → List ℕ → ℕ → DspiHub
handle_response h type status bytes len =
    if not (is_awaiting h.link.hub_state) || not h.link.has_current
    then h
    else if not (type == expected_type h.link.current)
    then h
    else if status == status_byte CtrlStatus.ok
    then run_ok h.link.current.on_ok
        (settle (record h { link = record (h.link) { consecutive_failures = 0 } }) HubState.idle)
        bytes len
    else if ctrl_status_is_retryable status
    then retry_or_drop h
    else run_fail h.link.current.on_fail (settle h HubState.idle) status
