-- ===== src/Hub/Rta.antt =====
-- dspi.cpp: the spectrum analyser's state machine, up to its requests.
use esphome_dspi.Prelude.{ℕ, zero, suc, ◌+◌, ◌%◌, ◌^◌, bit_and, u8, u32, ◌==◌, not, truthy}
use esphome_dspi.Prelude.{Bool, true, false, ◌&&◌, ◌||◌, if◌then◌else◌, Option, none, some, ◌∷◌}
use esphome_dspi.Protocol.Wire.{FrameType, frame_byte}
use esphome_dspi.Protocol.Opcode.{Opcode, opcode}
use esphome_dspi.Protocol.Rta.{
  rta_ctl_stop, rta_ctl_reset_avg, rta_caps_len, rta_centres_chunk_len, rta_config_len,
  rta_status_len, rta_band_frame_len, rta_write_config,
}
use esphome_dspi.Hub.Transaction.{Transaction, new_transaction, OnOk, OnFail, retries_default}
use esphome_dspi.Hub.State.{DspiHub, HubState, Rta, RtaPhase, Output, is_online}
use esphome_dspi.Hub.Requests.{enqueue_txn, is_due}

unfoldable pub rta_mark_not_live : DspiHub → DspiHub
rta_mark_not_live h =
    if not h.rta.live
    then h
    else let update = record (h.rta.last_update) { live = false } in
      record h {
        rta = record (h.rta) {
          live = false;
          stale_events = u32 (h.rta.stale_events + 1);
          last_update = update;
        };
        out = Output.band_update update ∷ h.out;
      }

abbrev pub set_phase : DspiHub → RtaPhase → DspiHub
set_phase h next = record h { rta = record (h.rta) { phase = next } }

abbrev pub set_busy : DspiHub → Bool → DspiHub
set_busy h b = record h { rta = record (h.rta) { busy = b } }

abbrev pub set_next_due : DspiHub → ℕ → DspiHub
set_next_due h due = record h { rta = record (h.rta) { next_due = due } }

-- Where an enabled analyser starts.
abbrev pub first_phase : Rta → RtaPhase
first_phase r = if r.caps_valid then RtaPhase.read_config else RtaPhase.need_caps

unfoldable pub reset_rta : DspiHub → DspiHub
unfolding rta_mark_not_live
reset_rta h =
    let cleared = record h {
      rta = record (h.rta) {
        busy = false;
        centre_chunk = 1;
        poll_cursor = 0;
        seq_valid = 0;
        next_due = 0;
        status_due = 0;
        foreign_config = false;
      };
    } in
    let dead = rta_mark_not_live cleared in
    set_phase dead (
      if not h.config.rta_configured
      then RtaPhase.disabled
      else if h.rta.enabled
      then first_phase h.rta
      else RtaPhase.disabled)

unfoldable pub rta_advance : DspiHub → RtaPhase → ℕ → DspiHub
rta_advance h next gap_ms = record h {
  rta = record (h.rta) { phase = next; busy = false; next_due = u32 (h.clock + gap_ms) };
}

abbrev is_unsupported : RtaPhase → Bool
is_unsupported RtaPhase.unsupported = true
is_unsupported _ = false

abbrev is_streaming : RtaPhase → Bool
is_streaming RtaPhase.streaming = true
is_streaming _ = false

abbrev same_flag : Bool → Bool → Bool
same_flag true b = b
same_flag false b = not b

enable_rta : DspiHub → DspiHub
enable_rta h = if is_unsupported h.rta.phase then h else record h {
  rta = record (h.rta) { busy = false; next_due = h.clock; phase = first_phase h.rta };
}

disable_rta : DspiHub → DspiHub
disable_rta h =
    let dead = rta_mark_not_live h in
    if is_streaming dead.rta.phase && (not dead.rta.busy && is_online dead)
    then set_next_due (set_phase dead RtaPhase.stopping) dead.clock
    else set_busy (set_phase dead RtaPhase.disabled) false

unfoldable pub set_rta_enabled : DspiHub → Bool → DspiHub
unfolding enable_rta disable_rta rta_mark_not_live is_online
set_rta_enabled h enabled =
    if not h.config.rta_configured
    then h
    else if same_flag enabled h.rta.enabled
    then h
    else let h' = record h { rta = record (h.rta) { enabled = enabled } } in
      if enabled then enable_rta h' else disable_rta h'

unfoldable pub rta_reset_avg : DspiHub → DspiHub
unfolding enqueue_txn
rta_reset_avg h =
    if not (is_streaming h.rta.phase)
    then h
    else (enqueue_txn h (record new_transaction {
      req = opcode Opcode.rta_control;
      frame_type = frame_byte FrameType.get_req;
      wvalue = rta_ctl_reset_avg;
      wlen = 1;
      priority = 1;
      timeout_ms = h.config.request_timeout_ms;
    })).0

abbrev reread_config : DspiHub → DspiHub
reread_config h =
    if h.rta.enabled && not (is_unsupported h.rta.phase)
    then rta_advance h RtaPhase.read_config 0
    else h

unfoldable pub set_rta_tap : DspiHub → ℕ → DspiHub
unfolding rta_advance
set_rta_tap h tap =
    if h.rta.cfg_desired.tap == tap
    then h
    else reread_config (record h {
      rta = record (h.rta) { cfg_desired = record (h.rta.cfg_desired) { tap = tap } };
    })

unfoldable pub set_rta_channel_mask : DspiHub → ℕ → DspiHub
unfolding rta_advance
set_rta_channel_mask h mask =
    if not (truthy mask) || h.rta.cfg_desired.channel_mask == mask
    then h
    else reread_config (record h {
      rta = record (h.rta) { cfg_desired = record (h.rta.cfg_desired) { channel_mask = mask } };
    })

-- Offer the one outstanding request of the analyser to the queue.
abbrev pub rta_offer : DspiHub → Transaction → DspiHub
rta_offer h t =
    let (h', accepted) = enqueue_txn h t in
    if accepted
    then set_busy h' true
    else set_next_due h' (u32 (h'.clock + h'.config.rta_interval_ms))

unfoldable pub enqueue_rta_get : DspiHub → ℕ → ℕ → ℕ → OnOk → OnFail → ℕ → ℕ → DspiHub
unfolding enqueue_txn
enqueue_rta_get h req wvalue wlen cb fail_cb priority max_retries =
    rta_offer h (record new_transaction {
      req = req;
      frame_type = frame_byte FrameType.get_req;
      wvalue = wvalue;
      wlen = wlen;
      priority = priority;
      max_retries = max_retries;
      timeout_ms = h.config.request_timeout_ms;
      on_ok = cb;
      on_fail = fail_cb;
    })

unfoldable pub enqueue_rta_set_config : DspiHub → DspiHub
unfolding enqueue_txn
enqueue_rta_set_config h = rta_offer h (record new_transaction {
  req = opcode Opcode.rta_set_config;
  frame_type = frame_byte FrameType.set_req;
  wlen = rta_config_len;
  payload_len = rta_config_len;
  payload = rta_write_config new_transaction.payload h.rta.cfg_desired;
  priority = 1;
  timeout_ms = h.config.request_timeout_ms;
  on_ok = OnOk.on_rta_config;
  on_fail = OnFail.on_rta_setup_failed;
})

-- The loop at offset `i` from the cursor, with `left` channels to look at.
unfoldable pub poll_loop : ℕ → ℕ → ℕ → ℕ → Option ℕ
poll_loop zero i cursor mask = none
poll_loop (suc left) i cursor mask =
    let rest = poll_loop left (i + 1) cursor mask in
    let ch = u8 ((cursor + i) % 16) in if truthy (bit_and mask (2 ^ ch)) then some ch else rest

abbrev no_channel : ℕ
no_channel = 0xFF

unfoldable pub rta_next_poll_channel : DspiHub → DspiHub × ℕ
unfolding poll_loop
rta_next_poll_channel h =
    if not (truthy h.rta.poll_mask)
    then (h, no_channel)
    else elim (poll_loop 16 0 h.rta.poll_cursor h.rta.poll_mask) [
      | none ↦ (h, no_channel)
      | some ch ↦ (record h { rta = record (h.rta) { poll_cursor = u8 ((ch + 1) % 16) } }, ch)
    ]

-- The case of a streaming analyser.
unfoldable pub service_streaming : DspiHub → ℕ → DspiHub
service_streaming h now =
    if is_due now h.rta.status_due
    then enqueue_rta_get
        (record h {
          rta = record (h.rta) { status_due = u32 (now + h.config.rta_status_interval_ms) };
        })
        (opcode Opcode.rta_get_status) 0 rta_status_len OnOk.on_rta_status
        OnFail.on_rta_optional_failed 1 retries_default
    else let (h', ch) = rta_next_poll_channel h in
      if ch == no_channel
      then set_phase h' RtaPhase.unsupported
      else enqueue_rta_get h' (opcode Opcode.rta_get_bands) ch rta_band_frame_len OnOk.on_rta_bands
          OnFail.on_rta_bands_failed 2 0

unfoldable pub service_phase : RtaPhase → DspiHub → ℕ → DspiHub
service_phase RtaPhase.disabled h now = h
service_phase RtaPhase.unsupported h now = h
service_phase RtaPhase.need_caps h now =
    enqueue_rta_get h (opcode Opcode.rta_get_caps) 0 rta_caps_len OnOk.on_rta_caps
      OnFail.on_rta_setup_failed 1 retries_default
service_phase RtaPhase.need_centres h now =
    enqueue_rta_get h (opcode Opcode.rta_get_caps) h.rta.centre_chunk rta_centres_chunk_len
      OnOk.on_rta_centres OnFail.on_rta_optional_failed 1 retries_default
service_phase RtaPhase.read_config h now =
    enqueue_rta_get h (opcode Opcode.rta_get_config) 0 rta_config_len OnOk.on_rta_config
      OnFail.on_rta_setup_failed 1 retries_default
service_phase RtaPhase.verify_config h now =
    enqueue_rta_get h (opcode Opcode.rta_get_config) 0 rta_config_len OnOk.on_rta_config
      OnFail.on_rta_setup_failed 1 retries_default
service_phase RtaPhase.set_config h now = enqueue_rta_set_config h
service_phase RtaPhase.stopping h now =
    enqueue_rta_get h (opcode Opcode.rta_control) rta_ctl_stop 1 OnOk.on_rta_control
      OnFail.on_rta_optional_failed 1 0
service_phase RtaPhase.streaming h now = service_streaming h now

abbrev is_offline : HubState → Bool
is_offline HubState.offline = true
is_offline _ = false

unfoldable pub service_rta : DspiHub → ℕ → DspiHub
service_rta h now =
    if not h.config.rta_configured || (h.rta.busy || not h.link.identified)
    then h
    else if is_offline h.link.hub_state
    then h
    else if not (is_due now h.rta.next_due)
    then h
    else service_phase h.rta.phase h now
