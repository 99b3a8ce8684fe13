-- ===== src/Witnesses.antt =====
-- The hub's theorems at concrete inputs.
pub mod Wire
pub mod Behaviour
pub mod Shown
pub mod Synced
pub mod Timed
pub mod Analyser
pub mod Wished
use esphome_dspi.Prelude.{
  ℕ, zero, suc, ◌+◌, ◌≤◌, ◌<◌, ◌^◌, ◌%◌, bit_and, truthy, List, [], ◌∷◌, ◌++◌, u8, All, Bool, true,
  false, not, ◌≡◌, ◌⊎◌, refl, arith, replicate, length, take, get_or, leb, set, ◌==◌, if◌then◌else◌,
  none, some, inl, inr, Option,
}
use esphome_dspi.Crc16.{crc16, crc16_update}
use esphome_dspi.Protocol.Wire.{ctrl_status_is_retryable, byte_at, FrameType, frame_byte}
use esphome_dspi.Protocol.Toggle.{ToggleTarget, toggle_index, toggle_mask_count}
use esphome_dspi.Protocol.Notify.{notify_event_affects_params}
use esphome_dspi.Protocol.Opcode.{Opcode, opcode}
use esphome_dspi.Protocol.Rta.{
  RtaConfig, default_config, rta_parse_band_frame, rta_rd_u16, rta_write_config, rta_parse_config,
  RtaBandFrame, rta_max_bands,
}
use esphome_dspi.Protocol.Rta.RoundTrip.{rta_parse_config-write}
use esphome_dspi.Framing.Parser.{feed_all}
use esphome_dspi.Framing.Receive.Frame.{response_body, device_frame}
use esphome_dspi.Hub.Transaction.{Transaction, new_transaction, OnOk, OnFail}
use esphome_dspi.Hub.Queue.{
  Queue, empty_queue, Outcome, enqueue, find_next, queue_free, coalesce, same_request, queue_depth,
}
use esphome_dspi.Hub.Queue.Distinct.{IsDistinct, enqueue-IsDistinct, length-enqueue, waiting}
use esphome_dspi.Hub.Queue.Next.{Picks, find_next-Picks}
use esphome_dspi.Hub.Queue.Evict.{IsVictim, enqueue-full}
use esphome_dspi.Hub.Queue.Refine.{pending, folded, pending-enqueue}
use esphome_dspi.Hub.State.{
  DspiHub, Config, new_hub, HubState, RtaPhase, is_online, toggle, toggle_valid,
}
use esphome_dspi.Hub.Requests.{get_request, is_due}
use esphome_dspi.Hub.Presets.{on_preset_active, service_preset_confirm, preset_confirm_max_attempts}
use esphome_dspi.Hub.Presets.Confirm.{
  on_preset_active-bounded, on_preset_active-confirms, service_preset_confirm-ends,
}
use esphome_dspi.Hub.Readback.{store_toggle}
use esphome_dspi.Hub.Readback.Toggles.{store_toggle-toggle}
use esphome_dspi.Hub.Rta.{rta_next_poll_channel}
use esphome_dspi.Hub.RtaReplies.{on_rta_centres, on_rta_bands, on_rta_config, seq_known, is_stale}
use esphome_dspi.Hub.RtaReplies.Bounds.{on_rta_centres-bounded, rta_next_poll_channel-answers}
use esphome_dspi.Hub.RtaReplies.Frames.{on_rta_bands-repeated, on_rta_config-settles}
use esphome_dspi.Hub.Transport.{retry_or_drop, handle_response, go_offline}
use esphome_dspi.Hub.Transport.Budget.{retry_or_drop-retries, handle_response-rejected}
use esphome_dspi.Hub.Transport.Offline.{go_offline-probes}
use esphome_dspi.Hub.Progress.{Asked}
use esphome_dspi.Hub.Receive.{handle_notification, handle_frame, pump_loop}
use esphome_dspi.Hub.Receive.Notified.{handle_notification-apart}
use esphome_dspi.Hub.Receive.Pump.{fed, counted, pump_loop-device_frame}
use esphome_dspi.Hub.Loop.{loop, setup, service_refresh, toggles_to_read}
use esphome_dspi.Hub.Refresh.{IsPending, refresh_reads, service_refresh-keeps, service_refresh-asks}
use esphome_dspi.Hub.Link.OneRequest.{IsLinked, loop-IsLinked}
use esphome_dspi.Hub.Invariant.Queue.{IsValid, loop-queue-IsValid}
use esphome_dspi.Hub.Reach.{Reachable, Call}
use esphome_dspi.Hub.Reach.Safe.{Reachable-safe}

abbrev pub config : Config
config = record {
  request_timeout_ms = 400;
  flash_timeout_ms = 1500;
  backoff_base_ms = 60;
  poll_interval_ms = 0;
  refresh_debounce_ms = 250;
  max_bytes_per_loop = 128;
  rta_interval_ms = 50;
  rta_status_interval_ms = 2000;
  rta_stale_ms = 500;
  rta_auto_enable = false;
  rta_configured = true;
  max_retries = 4;
  expect_notifications = true;
  boot_input_source = 2;
  has_boot_input_source = false;
}

abbrev pub buffer : List ℕ
buffer = replicate 132 0

abbrev pub fresh : DspiHub
fresh = new_hub config default_config buffer

-- A read of the master volume, and a poll of the spectrum's first channel.
abbrev pub volume_read : Transaction
volume_read = get_request fresh 0xD3 4 OnOk.on_master_volume 1 0 OnFail.no_handler

abbrev pub band_poll : Transaction
band_poll = get_request fresh 0x0B 82 OnOk.on_rta_bands 2 0 OnFail.on_rta_bands_failed

-- The volume read in flight.
abbrev pub busy : DspiHub
busy = record fresh {
  link = record (fresh.link) {
    hub_state = HubState.await_resp;
    has_current = true;
    current = volume_read;
  };
}

-- `clamp` of the platform, on the bit patterns of floats that are zero or below: the larger pattern
-- is the lower value.
abbrev pub clamp : ℕ → ℕ → ℕ → ℕ
clamp v low high = if leb low v then low else v

abbrev pub polled : DspiHub
polled = (loop (setup fresh) 100 (0x00 ∷ 0xA5 ∷ [])).0

Reachable-safe_example : IsLinked polled × IsValid polled.queue
Reachable-safe_example = Reachable-safe clamp polled (
    Reachable.passed (setup fresh) 100 (0x00 ∷ 0xA5 ∷ [])
      (Reachable.started config default_config buffer))

pump_loop-device_frame_example :
    let bytes = device_frame 0x82 0 (1 ∷ 2 ∷ []) (crc16 (response_body 0x82 0 (1 ∷ 2 ∷ []))) in
    let q = (feed_all busy.parser bytes).0 in
    (pump_loop (length bytes) busy bytes
      ≡ (handle_frame (fed busy q (counted (length bytes) 0)), []))
    × (q.type ≡ 0x82)
    × (q.status ≡ 0)
    × (q.len ≡ 2)
    × (take q.len q.payload ≡ 1 ∷ 2 ∷ [])
unfolding crc16 crc16_update
pump_loop-device_frame_example =
    pump_loop-device_frame busy 0x82 0 (1 ∷ 2 ∷ []) refl refl refl (omega arith) (omega arith)

abbrev due : DspiHub
due = record fresh { clock = 1000; refresh = record (fresh.refresh) { refresh_pending = true } }

service_refresh-keeps_example :
    let h' = service_refresh due 1000 in
    (h'.diag.txn_dropped ≡ 0)
    × ((key : Transaction) → IsPending key due.queue → IsPending key h'.queue)
service_refresh-keeps_example = service_refresh-keeps due 1000 (omega arith)

pending-enqueue_example :
    let r = enqueue volume_read empty_queue in
    (r.accepted ≡ true)
    × (r.dropped ≡ false)
    × (queue_free empty_queue ≤ queue_free r.queue + 1)
    × (pending volume_read r.queue ≡ (
        if same_request volume_read volume_read
        then some (folded (pending volume_read empty_queue) volume_read)
        else pending volume_read empty_queue))
unfolding queue_free
pending-enqueue_example = pending-enqueue volume_read volume_read empty_queue (omega arith)

find_next-Picks_example :
    Picks 0
      (band_poll ∷ waiting volume_read ∷ [])
      (find_next (band_poll ∷ waiting volume_read ∷ []))
find_next-Picks_example = find_next-Picks (band_poll ∷ waiting volume_read ∷ [])

enqueue-full_example :
    let q = waiting band_poll ∷ waiting volume_read ∷ [] in
    let t = record volume_read { req = 0xDB } in
    (i : ℕ) × (victim : Transaction) × IsVictim i victim q
    × (enqueue t q ≡ (
        if leb t.priority victim.priority
        then record { queue = set q i (waiting t); accepted = true; dropped = true }
        else record { queue = q; accepted = false; dropped = true }))
unfolding coalesce
enqueue-full_example =
    enqueue-full (record volume_read { req = 0xDB }) (waiting band_poll) (waiting volume_read ∷ [])
      (refl, (refl, tt)) refl

-- Status 3 is `BLOCKED`.
handle_response-rejected_example :
    let h' = handle_response busy 0x82 3 [] 0 in
    (h'.link.hub_state ≡ HubState.idle) × (h'.link.has_current ≡ false) × (h'.queue ≡ busy.queue)
unfolding ctrl_status_is_retryable
handle_response-rejected_example =
    handle_response-rejected busy 0x82 3 [] 0 refl refl refl (λ e. absurd (omega arith)) refl

go_offline-probes_example :
    let h' = go_offline busy in
    (h'.link.hub_state ≡ HubState.offline)
    × (h'.link.identified ≡ false)
    × ((key : Transaction) → pending key h'.queue ≡ none)
    × (h'.rta.busy ≡ false)
    × (h'.rta.live ≡ false)
    × (h'.notify.have_seq ≡ false)
    × Asked (loop h' 6000 []).0
go_offline-probes_example = go_offline-probes busy 6000 (omega arith) (omega arith)

-- Version 2, "parameter changed", no flags, sequence number 7.
abbrev packet : List ℕ
packet = 2 ∷ 2 ∷ 0 ∷ 7 ∷ []

store_toggle-toggle_example :
    let s' = (store_toggle fresh ToggleTarget.loudness (1 ∷ []) 1).state in
    (toggle s' ToggleTarget.loudness ≡ true) × (toggle_valid s' ToggleTarget.loudness ≡ true)
store_toggle-toggle_example =
    store_toggle-toggle fresh ToggleTarget.loudness ToggleTarget.loudness (1 ∷ []) 1 (omega arith)

-- A load of slot 4 that awaits its confirmation.
abbrev confirming : DspiHub
confirming = record fresh {
  preset = record (fresh.preset) { confirm_pending = true; confirm_slot = 4; confirm_attempts = 2 };
}

on_rta_centres-bounded_example :
    let h' = on_rta_centres fresh (20 ∷ 0 ∷ 25 ∷ 0 ∷ []) 4 in
    (h'.rta.centres_have ≤ 37) × (length h'.rta.band_centre_hz ≡ 37) × (0 ≤ h'.rta.centres_have)
on_rta_centres-bounded_example = on_rta_centres-bounded fresh (20 ∷ 0 ∷ 25 ∷ 0 ∷ []) 4 (omega arith)

-- Channels 1 and 3 answer.
abbrev pub streaming : DspiHub
streaming = record fresh {
  rta = record (fresh.rta) {
    phase = RtaPhase.streaming;
    poll_mask = 10;
    seq_valid = 1;
    live = true;
  };
}

-- Version 3, channel 0, sequence number 0, one band, 10 ms old.
abbrev pub band_frame : List ℕ
band_frame = 3 ∷ 0 ∷ 0 ∷ 1 ∷ 10 ∷ 0 ∷ replicate 76 0

abbrev reading : DspiHub
reading = record fresh { rta = record (fresh.rta) { phase = RtaPhase.read_config } }

abbrev pub config_bytes : List ℕ
config_bytes = rta_write_config (replicate 12 0) default_config

pub config_bytes-parse : rta_parse_config config_bytes 12 ≡ some default_config
config_bytes-parse =
    rta_parse_config-write (replicate 12 0) default_config
      (record {
        version = omega arith;
        tap = omega arith;
        channel_mask = omega arith;
        fft_order = omega arith;
        avg_ms = omega arith;
        peak_decay_db_s = omega arith;
        flags = omega arith;
      })
      (omega arith)
