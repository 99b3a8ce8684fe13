-- ===== src/Hub/State.antt =====
-- dspi.h: the hub's fields, in groups, and what it keeps for its listeners. `clock` is what
-- `millis()` answers during one pass; `out` is what left the hub, newest first.
use Prim.Native.String.{String}
use esphome_dspi.Prelude.{ℕ, ◌^◌, bit_and, truthy, Bool, true, false, ◌||◌, not, List, []}
use esphome_dspi.Prelude.{replicate}
use esphome_dspi.Protocol.Toggle.{ToggleTarget, toggle_bit}
use esphome_dspi.Protocol.Opcode.{InputSource, source_byte}
use esphome_dspi.Protocol.Rta.{
  RtaConfig, RtaCaps, RtaStatus, RtaBandFrame, default_config, rta_level_zero_dbfs, rta_max_bands,
  rta_age_never, rta_tap_input,
}
use esphome_dspi.Framing.Parser.{FrameParser, new_parser}
use esphome_dspi.Hub.Transaction.{Transaction, new_transaction}
use esphome_dspi.Hub.Queue.{Queue, empty_queue}

-- A float is its 32-bit pattern; a name is its bytes.
pub record DspiState : Type 0 where
  pub master_volume_db : ℕ
  pub master_volume_valid : Bool
  pub user_volume_db : ℕ
  pub user_volume_valid : Bool
  pub toggle_values : ℕ
  pub toggle_valid_mask : ℕ
  pub input_source : ℕ
  pub input_source_valid : Bool
  pub selectable_mask : ℕ
  pub selectable_valid : Bool
  pub active_preset : ℕ
  pub active_preset_valid : Bool
  pub active_preset_name : List ℕ
  pub active_preset_name_valid : Bool
  pub slot_occupied : ℕ
  pub preset_dir_valid : Bool
  pub pipeline_rate_hz : ℕ
  pub pipeline_rate_valid : Bool

unfoldable pub toggle : DspiState → ToggleTarget → Bool
toggle s t = truthy (bit_and s.toggle_values (toggle_bit t))

unfoldable pub toggle_valid : DspiState → ToggleTarget → Bool
toggle_valid s t = truthy (bit_and s.toggle_valid_mask (toggle_bit t))

pub record RtaBandUpdate : Type 0 where
  pub frame : RtaBandFrame
  pub level_zero : ℕ
  pub live : Bool

pub data HubState : Type 0 where
  init probing idle await_resp backoff offline : HubState

pub data RtaPhase : Type 0 where
  disabled unsupported need_caps need_centres read_config set_config : RtaPhase
  verify_config streaming stopping : RtaPhase

-- What the configuration sets before `setup()`.
pub record Config : Type 0 where
  pub request_timeout_ms : ℕ
  pub flash_timeout_ms : ℕ
  pub backoff_base_ms : ℕ
  pub poll_interval_ms : ℕ
  pub refresh_debounce_ms : ℕ
  pub max_bytes_per_loop : ℕ
  pub rta_interval_ms : ℕ
  pub rta_status_interval_ms : ℕ
  pub rta_stale_ms : ℕ
  pub rta_auto_enable : Bool
  pub rta_configured : Bool
  pub max_retries : ℕ
  pub expect_notifications : Bool
  pub boot_input_source : ℕ
  pub has_boot_input_source : Bool

-- The transaction in flight, and the timers of the link.
pub record Link : Type 0 where
  pub hub_state : HubState
  pub current : Transaction
  pub has_current : Bool
  pub sent_at : ℕ
  pub backoff_until : ℕ
  pub last_probe_at : ℕ
  pub consecutive_failures : ℕ
  pub identified : Bool

pub record Refresh : Type 0 where
  pub refresh_due_at : ℕ
  pub refresh_pending : Bool
  pub last_poll_at : ℕ

pub record Notify : Type 0 where
  pub last_seq : ℕ
  pub have_seq : Bool
  pub notifications_active : Bool
  pub warned_no_notify : Bool

pub record Toggles : Type 0 where
  pub toggle_read_mask : ℕ
  pub toggle_unsupported : ℕ

pub record Preset : Type 0 where
  pub confirm_pending : Bool
  pub confirm_slot : ℕ
  pub confirm_attempts : ℕ
  pub confirm_due : ℕ
  pub name_slot : ℕ
  pub name_requested : Bool

pub record Rta : Type 0 where
  pub phase : RtaPhase
  pub enabled : Bool
  pub busy : Bool
  pub next_due : ℕ
  pub status_due : ℕ
  pub cfg_desired : RtaConfig
  pub cfg_applied : RtaConfig
  pub caps : RtaCaps
  pub caps_valid : Bool
  pub status : RtaStatus
  pub band_centre_hz : List ℕ
  pub centres_have : ℕ
  pub centre_chunk : ℕ
  pub poll_mask : ℕ
  pub poll_cursor : ℕ
  pub last_seq : List ℕ
  pub seq_valid : ℕ
  pub last_update : RtaBandUpdate
  pub live : Bool
  pub foreign_config : Bool
  pub frames : ℕ
  pub dropped : ℕ
  pub stale_events : ℕ

pub record Device : Type 0 where
  pub fw_major : ℕ
  pub fw_minor : ℕ
  pub fw_patch : ℕ
  pub platform_id : ℕ
  pub adat_enabled : Bool
  pub adat_pin_set : Bool
  pub boot_source_checked : Bool
  pub logged_selectable_mask : ℕ
  pub logged_selectable : Bool

pub record Diagnostics : Type 0 where
  pub rx_bytes : ℕ
  pub frames_bad_crc : ℕ
  pub frames_malformed : ℕ
  pub txn_dropped : ℕ
  pub txn_timeouts : ℕ
  pub notify_gaps : ℕ
  pub notify_count : ℕ

-- A frame written to the UART, the state handed to every listener, a band update, or the line of the
-- log that lists the selectable sources.
pub data Output : Type 0 where
  tx : List ℕ → Output
  published : DspiState → Output
  band_update : RtaBandUpdate → Output
  logged_sources : String → Output

pub record DspiHub : Type 0 where
  pub config : Config
  pub clock : ℕ
  pub parser : FrameParser
  pub queue : Queue
  pub link : Link
  pub refresh : Refresh
  pub notify : Notify
  pub state : DspiState
  pub toggles : Toggles
  pub preset : Preset
  pub rta : Rta
  pub device : Device
  pub diag : Diagnostics
  pub out : List Output

unfoldable pub is_online : DspiHub → Bool
is_online h = elim h.link.hub_state [
  | HubState.idle ↦ true
  | HubState.await_resp ↦ true
  | _ ↦ false
]

unfoldable pub is_source_selectable : DspiHub → ℕ → Bool
is_source_selectable h source =
    not h.state.selectable_valid || truthy (bit_and h.state.selectable_mask (2 ^ source))

abbrev pub new_state : DspiState
new_state = record {
  master_volume_db = 0;
  master_volume_valid = false;
  user_volume_db = 0;
  user_volume_valid = false;
  toggle_values = 0;
  toggle_valid_mask = 0;
  input_source = source_byte InputSource.usb;
  input_source_valid = false;
  selectable_mask = 0;
  selectable_valid = false;
  active_preset = 0;
  active_preset_valid = false;
  active_preset_name = [];
  active_preset_name_valid = false;
  slot_occupied = 0;
  preset_dir_valid = false;
  pipeline_rate_hz = 0;
  pipeline_rate_valid = false;
}

abbrev new_caps : RtaCaps
new_caps = record {
  version = 0;
  input_channels = 0;
  output_channels = 0;
  fft_order_min = 0;
  fft_order_max = 0;
  fft_order_default = 0;
  bass_bands = 0;
  max_bands = 0;
  level_zero = rta_level_zero_dbfs;
  dynamic_range_db = 0;
  idle_timeout_ms = 0;
  max_bin_frame = 0;
  bass_dynamic_range_db = 0;
}

abbrev new_status : RtaStatus
new_status = record {
  version = 0;
  state = 0;
  tap = rta_tap_input;
  channel = 0;
  live_count = 0;
  live_mask = 0;
  frames_per_s = 0;
  busy_us_per_s = 0;
  last_frame_us = 0;
  idle_ms = 0;
  sample_rate_hz = 0;
  first_band = 0;
  bass_busy_us_per_s = 0;
}

abbrev new_frame : RtaBandFrame
new_frame = record {
  version = 0;
  channel = 0;
  seq = 0;
  n_bands = 0;
  age_ms = rta_age_never;
  avg = replicate rta_max_bands 0;
  peak = replicate rta_max_bands 0;
}

abbrev pub new_rta : RtaConfig → Rta
new_rta desired = record {
  phase = RtaPhase.disabled;
  enabled = false;
  busy = false;
  next_due = 0;
  status_due = 0;
  cfg_desired = desired;
  cfg_applied = default_config;
  caps = new_caps;
  caps_valid = false;
  status = new_status;
  band_centre_hz = replicate rta_max_bands 0;
  centres_have = 0;
  centre_chunk = 1;
  poll_mask = 0;
  poll_cursor = 0;
  last_seq = replicate 16 0;
  seq_valid = 0;
  last_update = record { frame = new_frame; level_zero = rta_level_zero_dbfs; live = false };
  live = false;
  foreign_config = false;
  frames = 0;
  dropped = 0;
  stale_events = 0;
}

-- The hub before `setup()`: the initialisers of the class. `buffer` is what the parser's buffer
-- happens to hold.
abbrev pub new_hub : Config → RtaConfig → List ℕ → DspiHub
new_hub config desired buffer = record {
  config = config;
  clock = 0;
  parser = new_parser buffer;
  queue = empty_queue;
  link = record {
    hub_state = HubState.init;
    current = new_transaction;
    has_current = false;
    sent_at = 0;
    backoff_until = 0;
    last_probe_at = 0;
    consecutive_failures = 0;
    identified = false;
  };
  refresh = record { refresh_due_at = 0; refresh_pending = false; last_poll_at = 0 };
  notify = record {
    last_seq = 0;
    have_seq = false;
    notifications_active = false;
    warned_no_notify = false;
  };
  state = new_state;
  toggles = record { toggle_read_mask = toggle_bit ToggleTarget.user_mute; toggle_unsupported = 0 };
  preset = record {
    confirm_pending = false;
    confirm_slot = 0;
    confirm_attempts = 0;
    confirm_due = 0;
    name_slot = 0;
    name_requested = false;
  };
  rta = new_rta desired;
  device = record {
    fw_major = 0;
    fw_minor = 0;
    fw_patch = 0;
    platform_id = 0;
    adat_enabled = false;
    adat_pin_set = false;
    boot_source_checked = false;
    logged_selectable_mask = 0;
    logged_selectable = false;
  };
  diag = record {
    rx_bytes = 0;
    frames_bad_crc = 0;
    frames_malformed = 0;
    txn_dropped = 0;
    txn_timeouts = 0;
    notify_gaps = 0;
    notify_count = 0;
  };
  out = [];
}
