-- ===== src/Crc16.antt =====
-- components/dspi/crc16.h: CRC16-CCITT-FALSE, folded in a byte at a time.
pub mod Detect
use esphome_dspi.Prelude.{ℕ, zero, suc, ◌*◌, ◌^◌, bit_and, bit_xor, u16, truthy, if◌then◌else◌}
use esphome_dspi.Prelude.{List, [], ◌∷◌}

abbrev pub crc16_init : ℕ
crc16_init = 0xFFFF

-- The body of the loop: one shift, with the polynomial 0x1021 where a bit falls out.
pub crc16_step : ℕ → ℕ
crc16_step crc =
    if truthy (bit_and crc 0x8000) then u16 (bit_xor (crc * 2) 0x1021) else u16 (crc * 2)

crc16_rounds : ℕ → ℕ → ℕ
crc16_rounds zero crc = crc
crc16_rounds (suc n) crc = crc16_rounds n (crc16_step crc)

-- The loop runs eight times, with `byte << 8` folded in first.
unfoldable pub crc16_update : ℕ → ℕ → ℕ
unfolding crc16_rounds crc16_step
crc16_update crc byte = crc16_rounds 8 (bit_xor crc (byte * 2 ^ 8))

unfoldable pub crc16_from : ℕ → List ℕ → ℕ
crc16_from crc [] = crc
crc16_from crc (byte ∷ bytes) = crc16_from (crc16_update crc byte) bytes

unfoldable pub crc16 : List ℕ → ℕ
unfolding crc16_from
crc16 bytes = crc16_from crc16_init bytes
