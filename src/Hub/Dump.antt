-- ===== src/Hub/Dump.antt =====
-- dspi.cpp: `dump_config`. A constructor of `Line` stands for one call of the log, with the values
-- that its format shows; the check of the UART's settings is ESPHome's.
use Prim.Native.String.{String}
use Prim.Native.String
use esphome_dspi.Prelude.{
  ℕ, zero, suc, ◌+◌, ◌^◌, ◌/◌, bit_and, ◌==◌, truthy, Bool, true, false, not, if◌then◌else◌, List,
  [], ◌∷◌, ◌++◌, get_or,
}
use esphome_dspi.Protocol.Preset.{preset_slots}
use esphome_dspi.Protocol.Toggle.{ToggleTarget, toggle_bit, toggle_name}
use esphome_dspi.Protocol.Toggle.Count.{popcount}
use esphome_dspi.Protocol.Rta.{RtaConfig, RtaCaps}
use esphome_dspi.Hub.State.{DspiHub, DspiState, RtaPhase, Toggles}
use esphome_dspi.Hub.Sources.{selectable_sources_string}

abbrev is_blank : String → Bool
is_blank String.[] = true
is_blank (String.◌∷◌ c s) = false

-- `if (!list.empty()) list += ", "; list += name;`
abbrev add_name : String → String → String
add_name line name = if is_blank line then name else String.◌++◌ line (String.◌++◌ ", " name)

abbrev or_none : String → String
or_none line = if is_blank line then "none" else line

-- `std::to_string` of a slot.
abbrev digits : List String
digits = "0" ∷ "1" ∷ "2" ∷ "3" ∷ "4" ∷ "5" ∷ "6" ∷ "7" ∷ "8" ∷ "9" ∷ []

abbrev slot_digit : ℕ → String
slot_digit slot = get_or digits slot ""

-- The loop at `slot`, with `left` slots to look at.
occupied_loop : ℕ → ℕ → ℕ → String → String
occupied_loop zero slot mask line = line
occupied_loop (suc left) slot mask line =
    occupied_loop left (slot + 1) mask
      (if truthy (bit_and (mask / 2 ^ slot) 1) then add_name line (slot_digit slot) else line)

unfoldable pub occupied_slots : ℕ → String
unfolding occupied_loop
occupied_slots mask = occupied_loop preset_slots 0 mask ""

-- The toggles that are read and those that were rejected, as two lists of names.
pub record ToggleNames : Type 0 where
  pub toggles : String
  pub rejected : String

abbrev name_toggle : Toggles → ToggleTarget → ToggleNames → ToggleNames
name_toggle t target names =
    if not (truthy (bit_and t.toggle_read_mask (toggle_bit target)))
    then names
    else if truthy (bit_and t.toggle_unsupported (toggle_bit target))
    then record names { rejected = add_name names.rejected (toggle_name target) }
    else record names { toggles = add_name names.toggles (toggle_name target) }

unfoldable pub toggle_names : Toggles → ToggleNames
toggle_names t = name_toggle t ToggleTarget.leveller (
    name_toggle t ToggleTarget.crossfeed (
      name_toggle t ToggleTarget.eq_bypass (
        name_toggle t ToggleTarget.loudness
          (name_toggle t ToggleTarget.user_mute (record { toggles = ""; rejected = "" })))))

pub data Line : Type 0 where
  heading not_identified sources_unknown no_bytes analyser analyser_unsupported : Line
  firmware : ℕ → ℕ → ℕ → ℕ → Line
  notifications : Bool → Line
  poll_interval boot_source : ℕ → Line
  sources saved_slots toggles_read toggles_rejected : String → Line
  preset : ℕ → List ℕ → Line
  requested : RtaConfig → Line
  rta_poll : ℕ → ℕ → Line
  caps_unread : Bool → Line
  analysing : Bool → RtaCaps → Line
  applied : ℕ → ℕ → ℕ → Line
  rta_counters : ℕ → ℕ → ℕ → Line
  counters : ℕ → ℕ → ℕ → ℕ → ℕ → ℕ → ℕ → Line

abbrev when : Bool → List Line → List Line
when b lines = if b then lines else []

abbrev is_unsupported : RtaPhase → Bool
is_unsupported RtaPhase.unsupported = true
is_unsupported _ = false

abbrev dump_device : DspiHub → List Line
dump_device h =
    (if h.link.identified
      then Line.firmware h.device.fw_major h.device.fw_minor h.device.fw_patch h.device.platform_id
        ∷ []
      else Line.not_identified ∷ [])
    ++ Line.notifications h.notify.notifications_active ∷ []
    ++ when (truthy h.config.poll_interval_ms) (Line.poll_interval h.config.poll_interval_ms ∷ [])
    ++ when h.config.has_boot_input_source (Line.boot_source h.config.boot_input_source ∷ [])

-- A name that is not known is shown as a question mark.
abbrev dump_state : DspiState → List Line
dump_state s =
    (if s.selectable_valid
      then Line.sources (selectable_sources_string s.selectable_mask) ∷ []
      else Line.sources_unknown ∷ [])
    ++ when s.active_preset_valid (
        Line.preset s.active_preset
          (if s.active_preset_name_valid then s.active_preset_name else b'?' ∷ [])
        ∷ [])
    ++ when s.preset_dir_valid (Line.saved_slots (or_none (occupied_slots s.slot_occupied)) ∷ [])

abbrev dump_toggles : Toggles → List Line
dump_toggles t =
    let names = toggle_names t in
    Line.toggles_read (or_none names.toggles)
    ∷ when (not (is_blank names.rejected)) (Line.toggles_rejected names.rejected ∷ [])

abbrev dump_rta : DspiHub → List Line
dump_rta h =
    let r = h.rta in
    let wanted = r.cfg_desired.channel_mask in
    let state =
      if is_unsupported r.phase
      then Line.analyser_unsupported ∷ []
      else if not r.caps_valid
      then Line.caps_unread r.enabled ∷ []
      else Line.analysing r.enabled r.caps
        ∷ Line.applied r.cfg_applied.tap r.cfg_applied.channel_mask r.cfg_applied.fft_order
        ∷ [] in
    Line.analyser
    ∷ Line.requested r.cfg_desired
    ∷ Line.rta_poll h.config.rta_interval_ms (if truthy wanted then popcount 16 wanted else 0)
    ∷ (state ++ Line.rta_counters r.frames r.dropped r.stale_events ∷ [])

abbrev dump_counters : DspiHub → List Line
dump_counters h =
    let d = h.diag in
    Line.counters d.rx_bytes d.notify_count d.notify_gaps d.frames_bad_crc d.frames_malformed
      d.txn_timeouts d.txn_dropped
    ∷ when (d.rx_bytes == 0) (Line.no_bytes ∷ [])

unfoldable pub dump_config : DspiHub → List Line
dump_config h =
    Line.heading
    ∷ (dump_device h
        ++ dump_state h.state
        ++ dump_toggles h.toggles
        ++ when h.config.rta_configured (dump_rta h)
        ++ dump_counters h)
