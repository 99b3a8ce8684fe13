-- ===== src/Framing/Build.antt =====
-- framing.h: `build_request_frame`.
pub mod Layout
use esphome_dspi.Prelude.{ℕ, zero, suc, ◌+◌, ◌/◌, ◌^◌, bit_and, u8, List, [], ◌∷◌, ◌++◌}
use esphome_dspi.Crc16.{crc16_init, crc16_update}
use esphome_dspi.Protocol.Wire.{sync_byte, byte_at}

-- What the two loops carry: the bytes written so far, and the checksum over them.
pub record Writer : Type 0 where
  pub out : List ℕ
  pub crc : ℕ

put_byte : Writer → ℕ → Writer
put_byte w b = record { out = w.out ++ b ∷ []; crc = crc16_update w.crc b }

put_header : Writer → List ℕ → Writer
unfolding put_byte
put_header w [] = w
put_header w (b ∷ bs) = put_header (put_byte w b) bs

-- The payload loop at index `i`, with `left` bytes to go.
put_payload : ℕ → ℕ → List ℕ → Writer → Writer
unfolding put_byte
put_payload zero i payload w = w
put_payload (suc left) i payload w =
    put_payload left (i + 1) payload (put_byte w (byte_at payload i))

abbrev pub request_header : ℕ → ℕ → ℕ → ℕ → ℕ → List ℕ
request_header type req wvalue windex wlen =
    type
    ∷ req
    ∷ u8 (bit_and wvalue 0xFF)
    ∷ u8 (wvalue / 2 ^ 8)
    ∷ u8 (bit_and windex 0xFF)
    ∷ u8 (windex / 2 ^ 8)
    ∷ u8 (bit_and wlen 0xFF)
    ∷ u8 (wlen / 2 ^ 8)
    ∷ []

-- The bytes written; their number is the length of the list.
unfoldable pub build_request_frame : ℕ → ℕ → ℕ → ℕ → ℕ → List ℕ → ℕ → List ℕ
unfolding put_header put_payload
build_request_frame type req wvalue windex wlen payload payload_len =
    let start : Writer = record { out = sync_byte ∷ []; crc = crc16_init } in
    let headed = put_header start (request_header type req wvalue windex wlen) in
    let full = put_payload payload_len 0 payload headed in
    full.out ++ u8 (bit_and full.crc 0xFF) ∷ u8 (full.crc / 2 ^ 8) ∷ []
