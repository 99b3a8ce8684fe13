-- ===== src/Protocol/Rta/RoundTrip.antt =====
-- The wire form of RtaConfig read back.
use esphome_dspi.Prelude.{ℕ, ◌*◌, ◌/◌, ◌%◌, ◌<◌, ◌≤◌, ◌≡◌, refl, arith, bit_or, bit_and}
use esphome_dspi.Prelude.{some, List, ◌∷◌, length}
use esphome_dspi.Prelude.Bits.{bit_or-byte, bit_and-byte}
use esphome_dspi.Protocol.Wire.{byte_at}
use esphome_dspi.Protocol.Rta.{RtaConfig, rta_write_config, rta_parse_config, rta_config_len}

-- Every field fits its C type.
pub record Fits (cfg : RtaConfig) : Type 0 where
  pub version : cfg.version < 256
  pub tap : cfg.tap < 256
  pub channel_mask : cfg.channel_mask < 65536
  pub fft_order : cfg.fft_order < 256
  pub avg_ms : cfg.avg_ms < 65536
  pub peak_decay_db_s : cfg.peak_decay_db_s < 256
  pub flags : cfg.flags < 256

-- A word written as two bytes and read back, as `rta_wr_u16` and `rta_rd_u16` do.
word_bytes :
    (v : ℕ)
    → v < 65536
    → bit_or (bit_and v 255 % 256) (bit_and (v / 256) 255 % 256 * 256 % 65536) % 65536 ≡ v
word_bytes v h =
    let lo = bit_and-byte v in
    let hi = bit_and-byte (v / 256) in
    let e : v / 256 % 256 % 256 * 256 % 65536 ≡ v / 256 * 256 = omega arith in
    rw (lo, hi, e) (omega (arith, bit_or-byte (v % 256 % 256) (v / 256) (omega arith)))

-- A buffer with room for the structure, whatever it held, reads back as the configuration.
pub rta_parse_config-write :
    (out : List ℕ) (cfg : RtaConfig)
    → Fits cfg
    → rta_config_len ≤ length out
    → rta_parse_config (rta_write_config out cfg) rta_config_len ≡ some cfg
unfolding rta_parse_config rta_write_config
rta_parse_config-write (_ ∷ _ ∷ _ ∷ _ ∷ _ ∷ _ ∷ _ ∷ _ ∷ _ ∷ _ ∷ _ ∷ _ ∷ rest) cfg fits room =
    rw (word_bytes cfg.channel_mask fits.channel_mask, word_bytes cfg.avg_ms fits.avg_ms) refl
rta_parse_config-write _ cfg fits room = absurd (omega arith)

-- The buffer keeps its length, and its three reserved bytes are zero.
pub rta_write_config-reserved :
    (out : List ℕ) (cfg : RtaConfig)
    → rta_config_len ≤ length out
    → let written = rta_write_config out cfg in
      (length written ≡ length out)
      × (byte_at written 5 ≡ 0)
      × (byte_at written 10 ≡ 0)
      × (byte_at written 11 ≡ 0)
unfolding rta_write_config
rta_write_config-reserved (_ ∷ _ ∷ _ ∷ _ ∷ _ ∷ _ ∷ _ ∷ _ ∷ _ ∷ _ ∷ _ ∷ _ ∷ rest) cfg room =
    (refl, refl, refl, refl)
rta_write_config-reserved _ cfg room = absurd (omega arith)
