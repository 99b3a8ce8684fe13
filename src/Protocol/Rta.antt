-- ===== src/Protocol/Rta.antt =====
-- components/dspi/protocol.h: the spectrum analyser's structures and their wire forms.
pub mod RoundTrip
pub mod Level
use esphome_dspi.Prelude.{ℕ, zero, suc, ◌+◌, ◌-◌, ◌*◌, ◌/◌, ◌^◌, bit_and, bit_or, u8, u16, u32}
use esphome_dspi.Prelude.{ltb, ◌==◌, not, if◌then◌else◌, Option, none, some, List, [], ◌∷◌}
use esphome_dspi.Prelude.{set, replicate, Bool}
use esphome_dspi.Protocol.Wire.{byte_at}
use esphome_dspi.Protocol.Preset.{rd_u32}

abbrev pub rta_cfg_version : ℕ
rta_cfg_version = 3

abbrev pub rta_tap_input : ℕ
rta_tap_input = 0

abbrev pub rta_tap_output : ℕ
rta_tap_output = 1

abbrev pub rta_ctl_stop : ℕ
rta_ctl_stop = 0

abbrev pub rta_ctl_reset_avg : ℕ
rta_ctl_reset_avg = 2

abbrev pub rta_order_max : ℕ
rta_order_max = 10

abbrev pub rta_max_bands : ℕ
rta_max_bands = 37

abbrev pub rta_level_zero_dbfs : ℕ
rta_level_zero_dbfs = 243

abbrev pub rta_age_never : ℕ
rta_age_never = 0xFFFF

abbrev pub rta_config_len : ℕ
rta_config_len = 12

abbrev pub rta_caps_len : ℕ
rta_caps_len = 16

abbrev pub rta_band_frame_len : ℕ
rta_band_frame_len = 8 + 2 * rta_max_bands

abbrev pub rta_status_len : ℕ
rta_status_len = 24

abbrev pub rta_centres_chunk_len : ℕ
rta_centres_chunk_len = 32 * 2

abbrev pub rta_bf_off_avg : ℕ
rta_bf_off_avg = 8

abbrev pub rta_bf_off_peak : ℕ
rta_bf_off_peak = rta_bf_off_avg + rta_max_bands

pub record RtaConfig : Type 0 where
  pub version : ℕ
  pub tap : ℕ
  pub channel_mask : ℕ
  pub fft_order : ℕ
  pub avg_ms : ℕ
  pub peak_decay_db_s : ℕ
  pub flags : ℕ

abbrev pub default_config : RtaConfig
default_config = record {
  version = rta_cfg_version;
  tap = rta_tap_input;
  channel_mask = 0;
  fft_order = rta_order_max;
  avg_ms = 0;
  peak_decay_db_s = 0;
  flags = 0;
}

pub record RtaCaps : Type 0 where
  pub version : ℕ
  pub input_channels : ℕ
  pub output_channels : ℕ
  pub fft_order_min : ℕ
  pub fft_order_max : ℕ
  pub fft_order_default : ℕ
  pub bass_bands : ℕ
  pub max_bands : ℕ
  pub level_zero : ℕ
  pub dynamic_range_db : ℕ
  pub idle_timeout_ms : ℕ
  pub max_bin_frame : ℕ
  pub bass_dynamic_range_db : ℕ

pub record RtaBandFrame : Type 0 where
  pub version : ℕ
  pub channel : ℕ
  pub seq : ℕ
  pub n_bands : ℕ
  pub age_ms : ℕ
  pub avg : List ℕ
  pub peak : List ℕ

pub record RtaStatus : Type 0 where
  pub version : ℕ
  pub state : ℕ
  pub tap : ℕ
  pub channel : ℕ
  pub live_count : ℕ
  pub live_mask : ℕ
  pub frames_per_s : ℕ
  pub busy_us_per_s : ℕ
  pub last_frame_us : ℕ
  pub idle_ms : ℕ
  pub sample_rate_hz : ℕ
  pub first_band : ℕ
  pub bass_busy_us_per_s : ℕ

unfoldable pub rta_rd_u16 : List ℕ → ℕ → ℕ
rta_rd_u16 d off = u16 (bit_or (byte_at d off) (u16 (byte_at d (off + 1) * 2 ^ 8)))

-- The body is `rd_u32`'s, which the header writes a second time.
unfoldable pub rta_rd_u32 : List ℕ → ℕ → ℕ
unfolding rd_u32
rta_rd_u32 d off = rd_u32 d off

unfoldable pub rta_wr_u16 : List ℕ → ℕ → ℕ → List ℕ
rta_wr_u16 d off v = set (set d off (u8 (bit_and v 0xFF))) (off + 1) (u8 (bit_and (v / 2 ^ 8) 0xFF))

-- `out` has room for the twelve bytes; the loop zeroes them first.
zero_fill : ℕ → ℕ → List ℕ → List ℕ
zero_fill zero i out = out
zero_fill (suc left) i out = zero_fill left (i + 1) (set out i 0)

unfoldable pub rta_write_config : List ℕ → RtaConfig → List ℕ
unfolding zero_fill rta_wr_u16
rta_write_config out cfg =
    let out = zero_fill rta_config_len 0 out in
    let out = set out 0 cfg.version in
    let out = set out 1 cfg.tap in
    let out = rta_wr_u16 out 2 cfg.channel_mask in
    let out = set out 4 cfg.fft_order in
    let out = rta_wr_u16 out 6 cfg.avg_ms in
    let out = set out 8 cfg.peak_decay_db_s in set out 9 cfg.flags

unfoldable pub rta_parse_config : List ℕ → ℕ → Option RtaConfig
unfolding rta_rd_u16
rta_parse_config d len =
    if ltb len rta_config_len
    then none
    else some (record {
      version = byte_at d 0;
      tap = byte_at d 1;
      channel_mask = rta_rd_u16 d 2;
      fft_order = byte_at d 4;
      avg_ms = rta_rd_u16 d 6;
      peak_decay_db_s = byte_at d 8;
      flags = byte_at d 9;
    })

unfoldable pub rta_parse_caps : List ℕ → ℕ → Option RtaCaps
unfolding rta_rd_u16
rta_parse_caps d len =
    if ltb len rta_caps_len
    then none
    else some (record {
      version = byte_at d 0;
      input_channels = byte_at d 1;
      output_channels = byte_at d 2;
      fft_order_min = byte_at d 3;
      fft_order_max = byte_at d 4;
      fft_order_default = byte_at d 5;
      bass_bands = byte_at d 6;
      max_bands = byte_at d 7;
      level_zero = byte_at d 8;
      dynamic_range_db = byte_at d 9;
      idle_timeout_ms = rta_rd_u16 d 10;
      max_bin_frame = rta_rd_u16 d 12;
      bass_dynamic_range_db = rta_rd_u16 d 14;
    })

-- The copy loop: `n` bytes from `off` on.
copy_bytes : List ℕ → ℕ → ℕ → List ℕ
copy_bytes d off zero = []
copy_bytes d off (suc n) = byte_at d off ∷ copy_bytes d (off + 1) n

unfoldable pub rta_parse_band_frame : List ℕ → ℕ → Option RtaBandFrame
unfolding rta_rd_u16 copy_bytes
rta_parse_band_frame d len =
    if ltb len rta_band_frame_len
    then none
    else if not (byte_at d 0 == rta_cfg_version)
    then none
    else some (record {
      version = byte_at d 0;
      channel = byte_at d 1;
      seq = byte_at d 2;
      n_bands = if ltb rta_max_bands (byte_at d 3) then rta_max_bands else byte_at d 3;
      age_ms = rta_rd_u16 d 4;
      avg = copy_bytes d rta_bf_off_avg rta_max_bands;
      peak = copy_bytes d rta_bf_off_peak rta_max_bands;
    })

unfoldable pub rta_parse_status : List ℕ → ℕ → Option RtaStatus
unfolding rta_rd_u16 rta_rd_u32
rta_parse_status d len =
    if ltb len rta_status_len
    then none
    else some (record {
      version = byte_at d 0;
      state = byte_at d 1;
      tap = byte_at d 2;
      channel = byte_at d 3;
      live_count = byte_at d 5;
      live_mask = rta_rd_u16 d 6;
      frames_per_s = rta_rd_u16 d 8;
      busy_us_per_s = rta_rd_u16 d 10;
      last_frame_us = rta_rd_u16 d 12;
      idle_ms = rta_rd_u16 d 14;
      sample_rate_hz = rta_rd_u32 d 16;
      first_band = byte_at d 20;
      bass_busy_us_per_s = rta_rd_u16 d 22;
    })
