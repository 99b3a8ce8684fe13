-- ===== src/Hub/RtaReplies.antt =====
-- dspi.cpp: what the spectrum analyser makes of the device's answers.
pub mod Bounds
pub mod Frames
pub mod Late
pub mod Asked
pub mod BringUp
use esphome_dspi.Prelude.{ℕ, zero, suc, ◌+◌, ◌-◌, ◌*◌, ◌/◌, ◌%◌, ◌^◌, bit_and, bit_or, u8, u16, u32}
use esphome_dspi.Prelude.{ltb, leb, ◌==◌, not, truthy, Bool, true, false, ◌&&◌, ◌||◌, if◌then◌else◌}
use esphome_dspi.Prelude.{Option, none, some, List, [], ◌∷◌, set, get_or}
use esphome_dspi.Protocol.Wire.{CtrlStatus, status_byte, ctrl_status_is_retryable}
use esphome_dspi.Protocol.Rta.{
  RtaCaps, RtaConfig, RtaBandFrame, RtaStatus, rta_parse_caps, rta_parse_config,
  rta_parse_band_frame, rta_parse_status, rta_rd_u16, rta_cfg_version, rta_max_bands,
  rta_tap_output, rta_age_never,
}
use esphome_dspi.Hub.State.{DspiHub, Rta, RtaPhase, RtaBandUpdate, Output}
use esphome_dspi.Hub.Rta.{rta_advance, rta_mark_not_live, set_phase, set_busy, set_next_due}

-- A default that the device can do, where the configured FFT order is out of its range.
abbrev fit_order : RtaConfig → RtaCaps → RtaConfig
fit_order cfg caps =
    if ltb cfg.fft_order caps.fft_order_min || ltb caps.fft_order_max cfg.fft_order
    then record cfg { fft_order = caps.fft_order_default }
    else cfg

abbrev clamp_bands : RtaCaps → RtaCaps
clamp_bands caps =
    if ltb rta_max_bands caps.max_bands then record caps { max_bands = rta_max_bands } else caps

accept_caps : DspiHub → RtaCaps → DspiHub
accept_caps h reported =
    let caps = clamp_bands reported in
    rta_advance
      (record h {
        rta = record (h.rta) {
          caps = caps;
          caps_valid = true;
          cfg_desired = fit_order h.rta.cfg_desired caps;
          centres_have = 0;
          centre_chunk = 1;
        };
      })
      (if truthy caps.max_bands then RtaPhase.need_centres else RtaPhase.read_config) 0

unfoldable pub on_rta_caps : DspiHub → List ℕ → ℕ → DspiHub
unfolding accept_caps rta_advance
on_rta_caps h bytes len = elim (rta_parse_caps bytes len) [
  | none ↦ rta_advance h RtaPhase.need_caps h.config.rta_interval_ms
  | some caps ↦
      if not (caps.version == rta_cfg_version)
      then set_busy (set_phase h RtaPhase.unsupported) false
      else accept_caps h caps
]

-- The collecting loop at index `i`, with `left` values in the chunk.
pub centre_loop : ℕ → ℕ → List ℕ → ℕ → List ℕ × ℕ → List ℕ × ℕ
centre_loop zero i bytes want (centres, have) = (centres, have)
centre_loop (suc left) i bytes want (centres, have) =
    let rest =
      centre_loop left (i + 1) bytes want
        (set centres have (rta_rd_u16 bytes (u16 (i * 2))), u8 (have + 1)) in
    if ltb have want && ltb have rta_max_bands then rest else (centres, have)

unfoldable pub on_rta_centres : DspiHub → List ℕ → ℕ → DspiHub
unfolding centre_loop rta_advance
on_rta_centres h bytes len =
    let want = h.rta.caps.max_bands in
    let got = u16 (len / 2) in
    let (centres, have) = centre_loop got 0 bytes want (h.rta.band_centre_hz, h.rta.centres_have) in
    let h' = record h { rta = record (h.rta) { band_centre_hz = centres; centres_have = have } } in
    if leb want have || got == 0
    then rta_advance h' RtaPhase.read_config 0
    else rta_advance
        (record h' { rta = record (h'.rta) { centre_chunk = u16 (h'.rta.centre_chunk + 1) } })
        RtaPhase.need_centres 0

-- What the device is not free to clamp.
abbrev pub config_matches : RtaConfig → RtaConfig → Bool
config_matches applied desired =
    applied.tap == desired.tap
    && (applied.channel_mask == desired.channel_mask
        && (applied.fft_order == desired.fft_order && applied.flags == desired.flags))

abbrev pub is_verifying : RtaPhase → Bool
is_verifying RtaPhase.verify_config = true
is_verifying _ = false

abbrev is_setting : RtaPhase → Bool
is_setting RtaPhase.set_config = true
is_setting _ = false

start_streaming : DspiHub → RtaConfig → DspiHub
start_streaming h applied =
    rta_advance
      (record h {
        rta = record (h.rta) {
          poll_mask = applied.channel_mask;
          poll_cursor = 0;
          seq_valid = 0;
          status_due = u32 (h.clock + h.config.rta_status_interval_ms);
        };
      })
      RtaPhase.streaming 0

unfoldable pub on_rta_config : DspiHub → List ℕ → ℕ → DspiHub
unfolding start_streaming rta_advance
on_rta_config h bytes len =
    if is_setting h.rta.phase
    then rta_advance h RtaPhase.verify_config 0
    else elim (rta_parse_config bytes len) [
      | none ↦ rta_advance h RtaPhase.read_config h.config.rta_interval_ms
      | some applied ↦
          let h' = record h { rta = record (h.rta) { cfg_applied = applied } } in
          if not (config_matches applied h.rta.cfg_desired) && not (is_verifying h.rta.phase)
          then rta_advance h' RtaPhase.set_config 0
          else start_streaming h' applied
    ]

publish_frame : DspiHub → RtaBandFrame → DspiHub
publish_frame h frame =
    let update : RtaBandUpdate = record {
      frame = frame;
      level_zero = h.rta.caps.level_zero;
      live = true;
    } in
    record h {
      rta = record (h.rta) { frames = u32 (h.rta.frames + 1); live = true; last_update = update };
      out = Output.band_update update ∷ h.out;
    }

-- The sequence number of a channel that has one.
note_seq : DspiHub → RtaBandFrame → DspiHub
note_seq h frame =
    if ltb frame.channel 16
    then record h {
      rta = record (h.rta) {
        last_seq = set h.rta.last_seq frame.channel frame.seq;
        seq_valid = bit_or h.rta.seq_valid (u16 (2 ^ frame.channel));
      };
    }
    else h

abbrev pub seq_known : Rta → RtaBandFrame → Bool
seq_known r frame = ltb frame.channel 16 && truthy (bit_and r.seq_valid (2 ^ frame.channel))

abbrev pub is_stale : RtaBandFrame → ℕ → Bool
is_stale frame limit = frame.age_ms == rta_age_never || ltb limit frame.age_ms

accept_frame : DspiHub → RtaBandFrame → DspiHub
unfolding rta_mark_not_live publish_frame note_seq
accept_frame h frame =
    if frame.n_bands == 0
    then h
    else if is_stale frame h.config.rta_stale_ms
    then rta_mark_not_live h
    else if seq_known h.rta frame
        && (get_or h.rta.last_seq frame.channel 0 == frame.seq && h.rta.live)
    then h
    else publish_frame (note_seq h frame) frame

unfoldable pub on_rta_bands : DspiHub → List ℕ → ℕ → DspiHub
unfolding accept_frame
on_rta_bands h bytes len =
    let h' = set_next_due (set_busy h false) (u32 (h.clock + h.config.rta_interval_ms)) in
    elim (rta_parse_band_frame bytes len) [
      | none ↦ record h' { rta = record (h'.rta) { dropped = u32 (h'.rta.dropped + 1) } }
      | some frame ↦ accept_frame h' frame
    ]

unfoldable pub on_rta_status : DspiHub → List ℕ → ℕ → DspiHub
on_rta_status h bytes len =
    let h' = set_next_due (set_busy h false) h.clock in
    elim (rta_parse_status bytes len) [
      | none ↦ h'
      | some status ↦ record h' {
        rta = record (h'.rta) {
          status = status;
          foreign_config = not (status.tap == h'.rta.cfg_desired.tap);
        };
      }
    ]

abbrev is_stopping : RtaPhase → Bool
is_stopping RtaPhase.stopping = true
is_stopping _ = false

unfoldable pub on_rta_control : DspiHub → List ℕ → ℕ → DspiHub
on_rta_control h bytes len =
    let h' = set_busy h false in
    if is_stopping h.rta.phase then set_phase h' RtaPhase.disabled else h'

unfoldable pub on_rta_setup_failed : DspiHub → ℕ → DspiHub
on_rta_setup_failed h status =
    let h' = set_busy h false in
    if status == status_byte CtrlStatus.link_failed
    then set_next_due h' (u32 (h.clock + 1000))
    else set_phase h' RtaPhase.unsupported

-- The channel of the request that was refused.
abbrev refused_channel : DspiHub → ℕ
refused_channel h = if ltb h.link.current.wvalue 16 then u8 h.link.current.wvalue else 0

unfoldable pub on_rta_bands_failed : DspiHub → ℕ → DspiHub
on_rta_bands_failed h status =
    let h' = record h {
      rta = record (h.rta) {
        busy = false;
        dropped = u32 (h.rta.dropped + 1);
        next_due = u32 (h.clock + h.config.rta_interval_ms);
      };
    } in
    let bit = 2 ^ refused_channel h in
    let mask = h.rta.poll_mask in
    if not (status == status_byte CtrlStatus.link_failed)
      && (not (ctrl_status_is_retryable status) && truthy (bit_and mask bit))
    then record h' { rta = record (h'.rta) { poll_mask = bit_and mask (u16 (0xFFFFFFFF - bit)) } }
    else h'

optional_failed_in : RtaPhase → DspiHub → DspiHub
unfolding rta_advance
optional_failed_in RtaPhase.need_centres h = rta_advance h RtaPhase.read_config 0
optional_failed_in RtaPhase.stopping h = set_phase h RtaPhase.disabled
optional_failed_in _ h = set_next_due h (u32 (h.clock + h.config.rta_interval_ms))

unfoldable pub on_rta_optional_failed : DspiHub → ℕ → DspiHub
unfolding optional_failed_in
on_rta_optional_failed h status = optional_failed_in h.rta.phase (set_busy h false)
